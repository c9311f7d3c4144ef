-- ===== src/Config/EntryList.antt =====
-- agent/services/entry_list_store.py: the validation of an entry list.
use Prim.Native.Char.{code}
use Prim.Native.String.{[] as nothing, ◌∷◌ as ◌⊳◌}
use pitlane_agent.Common.{
  ℕ, String, ◌≡◌, Option, none, some, Bool, true, false, List, [], ◌∷◌, ◌++◌, ◌&&◌, not, any,
  length, str_eq, ◌==◌, if◌then◌else◌,
}
use pitlane_agent.Common.Int.{pos}
use pitlane_agent.Common.Text.{len}
use pitlane_agent.Common.Json.{
  Value, Items, Fields, text, array, object, nil, cons, end, field, get, as_object,
}
use pitlane_agent.Config.Values.{eq_value, eq_items, eq_number}

abbrev pub has_id : String → List String → Bool
has_id s = any (λ t. str_eq s t)

abbrev pub all_digits : (ℕ → Bool) → String → Bool
all_digits is_digit nothing = true
all_digits is_digit (c ⊳ s) = is_digit (code c) && all_digits is_digit s

-- `re.fullmatch(r'\d{17}', s)`; `is_digit` is the class `\d`, which holds of more than ASCII.
unfoldable pub is_steam_id : (ℕ → Bool) → String → Bool
is_steam_id is_digit s = len s == 17 && all_digits is_digit s

-- The loop over the whitelist; `none` for ValueError.
unfoldable pub steam_ids : (ℕ → Bool) → Items → List String → Option (List String)
unfolding is_steam_id any
steam_ids is_digit nil seen = some seen
steam_ids is_digit (cons (text s) rest) seen =
    if not (is_steam_id is_digit s)
    then none
    else if has_id s seen
    then none
    else steam_ids is_digit rest (seen ++ s ∷ [])
steam_ids is_digit (cons _ rest) seen = none

-- The `steam_id` of each entry that is an object.
unfoldable pub metadata_ids : Items → Items
unfolding get
metadata_ids nil = nil
metadata_ids (cons (object d) rest) = cons (get d "steam_id") (metadata_ids rest)
metadata_ids (cons _ rest) = metadata_ids rest

abbrev pub texts : List String → Items
texts [] = nil
texts (s ∷ ss) = cons (text s) (texts ss)

abbrev pub native_payload : List String → Value
native_payload ids = object (
    field "entrylist" (array nil)
      (field "steamid_whitelist" (array (texts ids)) (field "steamid_blacklist" (array nil) end)))

abbrev pub as_items : Value → Option Items
as_items (array xs) = some xs
as_items _ = none

abbrev pub check_metadata : Fields → List String → Option (List String)
check_metadata d ids =
    if not (eq_number (pos (length ids)) (get d "authorized_count"))
    then none
    else elim (as_items (get d "entries")) [
      | none ↦ none
      | some entries ↦ if eq_items (metadata_ids entries) (texts ids) then some ids else none
    ]

abbrev pub check_whitelist : (ℕ → Bool) → Fields → Items → Option (List String)
check_whitelist is_digit d xs = elim (steam_ids is_digit xs []) [
  | none ↦ none
  | some ids ↦ check_metadata d ids
]

abbrev pub check_native : (ℕ → Bool) → Fields → Fields → Option (List String)
check_native is_digit d native = elim (as_items (get native "steamid_whitelist")) [
  | none ↦ none
  | some xs ↦
      if not (eq_value (get native "entrylist") (array nil))
      then none
      else if not (eq_value (get native "steamid_blacklist") (array nil))
      then none
      else check_whitelist is_digit d xs
]

-- `_validated_native_payload`: the ids of the whitelist, from which the payload is made.
unfoldable pub validated_native_payload : (ℕ → Bool) → Fields → Option (List String)
unfolding steam_ids metadata_ids eq_value get
validated_native_payload is_digit d = elim (as_object (get d "native_payload")) [
  | none ↦ none
  | some native ↦ check_native is_digit d native
]

-- No id twice, each of 17 digits.
abbrev pub AreSteamIds : (ℕ → Bool) → List String → Type 0
AreSteamIds is_digit [] = Unit
AreSteamIds is_digit (s ∷ ss) =
    (is_steam_id is_digit s ≡ true) × (has_id s ss ≡ false) × AreSteamIds is_digit ss
