-- ===== src/Config/SteamIds.antt =====
-- What the validation of an entry list guarantees.
use pitlane_agent.Common.{
  ℕ, String, ◌≡◌, refl, sym, ap, ◌∙◌, some, Bool, true, false, List, [], ◌∷◌, ◌++◌, ◌||◌, any,
  length, arith, Bool-cases, Option-cases, inl, inr, eq_iff, str_eq,
}
use pitlane_agent.Common.Int.{pos}
use pitlane_agent.Common.Json.{
  Value, Items, Fields, null, field, end, boolean, integer, text, array, object, nil, cons, get,
  as_object,
}
use pitlane_agent.Config.Values.{eq_value, eq_items, eq_number}
use pitlane_agent.Config.EntryList.{
  has_id, is_steam_id, steam_ids, metadata_ids, texts, as_items, check_metadata, check_whitelist,
  check_native, native_payload, validated_native_payload, AreSteamIds,
}

has_id-append :
    (x y : String) (xs : List String) → has_id y (xs ++ x ∷ []) ≡ (has_id y xs || str_eq y x)
unfolding any
has_id-append x y [] = ground arith
has_id-append x y (z ∷ xs) = ground (arith, has_id-append x y xs)

append-AreSteamIds :
    (is_digit : ℕ → Bool) (s : String) (seen : List String)
    → is_steam_id is_digit s ≡ true
    → has_id s seen ≡ false
    → AreSteamIds is_digit seen
    → AreSteamIds is_digit (seen ++ s ∷ [])
unfolding any
append-AreSteamIds is_digit s [] valid new h = (valid, refl, tt)
append-AreSteamIds is_digit s (t ∷ seen) valid new (u, w, h) = (
  u,
  ground (arith, has_id-append s t seen, new, w, eq_iff s t, eq_iff t s),
  append-AreSteamIds is_digit s seen valid (ground (arith, new)) h,
)

abbrev join : List String → Items → Items
join [] rest = rest
join (x ∷ xs) rest = cons (text x) (join xs rest)

join-append :
    (xs : List String) (s : String) (rest : Items)
    → join (xs ++ s ∷ []) rest ≡ join xs (cons (text s) rest)
join-append [] s rest = refl
join-append (x ∷ xs) s rest = ap (λ r. cons (text x) r) (join-append xs s rest)

join-nil : (xs : List String) → join xs nil ≡ texts xs
join-nil [] = refl
join-nil (x ∷ xs) = ap (λ r. cons (text x) r) (join-nil xs)

-- The loop over a whitelist gives the ids that it has seen, followed by those of the whitelist.
steam_ids_lem :
    (is_digit : ℕ → Bool) (xs : Items) (seen : List String) {ids : List String}
    → AreSteamIds is_digit seen
    → steam_ids is_digit xs seen ≡ some ids
    → AreSteamIds is_digit ids × (join seen xs ≡ texts ids)
unfolding steam_ids
steam_ids_lem is_digit nil seen {ids = ids} h e =
    let same : ids ≡ seen = cc in rw same (h, join-nil seen)
steam_ids_lem is_digit (cons (text s) rest) seen h e = elim (Bool-cases (is_steam_id is_digit s)) [
  | inr f ↦ absurd (ground (arith, e, f))
  | inl valid ↦ elim (Bool-cases (has_id s seen)) [
    | inl t ↦ absurd (ground (arith, e, valid, t))
    | inr new ↦
        let (ok, whole) =
          steam_ids_lem is_digit rest (seen ++ s ∷ [])
            (append-AreSteamIds is_digit s seen valid new h) (rw (valid, steam_ids, new) at e) in
        (ok, sym (join-append seen s rest) ∙ whole)
  ]
]
steam_ids_lem is_digit (cons null rest) seen h e = absurd (cc)
steam_ids_lem is_digit (cons (boolean b) rest) seen h e = absurd (cc)
steam_ids_lem is_digit (cons (integer z) rest) seen h e = absurd (cc)
steam_ids_lem is_digit (cons (array x) rest) seen h e = absurd (cc)
steam_ids_lem is_digit (cons (object x) rest) seen h e = absurd (cc)

-- What is known of a whitelist that was accepted.
pub record IsWhitelist (is_digit : ℕ → Bool) (d : Fields) (ids : List String) : Type 0 where
  pub native : Fields
  pub payload : as_object (get d "native_payload") ≡ some native
  pub whitelist : as_items (get native "steamid_whitelist") ≡ some (texts ids)
  pub valid : AreSteamIds is_digit ids
  pub count : eq_number (pos (length ids)) (get d "authorized_count") ≡ true
  pub written : Fields
  pub is_written : native_payload ids ≡ object written
  pub written_whitelist : get written "steamid_whitelist" ≡ get native "steamid_whitelist"
  pub written_entries : get written "entrylist" ≡ array nil
  pub written_blacklist : get written "steamid_blacklist" ≡ array nil

as_items_inv : (v : Value) {xs : Items} → as_items v ≡ some xs → v ≡ array xs
as_items_inv null e = absurd (cc)
as_items_inv (text s) e = absurd (cc)
as_items_inv (boolean b) e = absurd (cc)
as_items_inv (integer z) e = absurd (cc)
as_items_inv (object d) e = absurd (cc)
as_items_inv (array ys) e = cc

metadata_inv :
    (d : Fields) (ids : List String) {out : List String}
    → check_metadata d ids ≡ some out
    → (ids ≡ out) × (eq_number (pos (length ids)) (get d "authorized_count") ≡ true)
metadata_inv d ids e = elim (Bool-cases (eq_number (pos (length ids)) (get d "authorized_count"))) [
  | inr f ↦ absurd (ground (arith, e, f))
  | inl t ↦ elim (Option-cases (as_items (get d "entries"))) [
    | inl n ↦ absurd (ground (arith, e, t, n))
    | inr (entries, p) ↦ elim (Bool-cases (eq_items (metadata_ids entries) (texts ids))) [
      | inr f ↦ absurd (ground (arith, e, t, p, f))
      | inl same ↦ (ground (arith, e, t, p, same), t)
    ]
  ]
]

-- An entry list that is accepted has a whitelist of texts of 17 digits each, none twice, as many as the
-- list announces; the payload that is written has this whitelist, no entries and no blacklist.
pub validated_native_payload-IsWhitelist :
    (is_digit : ℕ → Bool) (d : Fields) {ids : List String}
    → validated_native_payload is_digit d ≡ some ids
    → IsWhitelist is_digit d ids
unfolding validated_native_payload get
validated_native_payload-IsWhitelist is_digit d e =
    elim (Option-cases (as_object (get d "native_payload"))) [
      | inl n ↦ absurd (ground (arith, e, n))
      | inr (native, p) ↦ elim (Option-cases (as_items (get native "steamid_whitelist"))) [
        | inl n ↦ absurd (ground (arith, e, p, n))
        | inr (xs, q) ↦ elim (Bool-cases (eq_value (get native "entrylist") (array nil))) [
          | inr f ↦ absurd (ground (arith, e, p, q, f))
          | inl a ↦ elim (Bool-cases (eq_value (get native "steamid_blacklist") (array nil))) [
            | inr f ↦ absurd (ground (arith, e, p, q, a, f))
            | inl b ↦ elim (Option-cases (steam_ids is_digit xs [])) [
              | inl n ↦ absurd (ground (arith, e, p, q, a, b, n))
              | inr (found, r) ↦
                  let (same, count) = metadata_inv d found (
                    rw (p, validated_native_payload, check_native, q, a, b, check_whitelist, r) at
                      e) in
                  let (valid, whole) = steam_ids_lem is_digit xs [] tt r in
                  let known : IsWhitelist is_digit d found = record {
                    native = native;
                    payload = p;
                    whitelist = q ∙ ap (λ i. some i) whole;
                    valid = valid;
                    count = count;
                    written = field "entrylist" (array nil) (
                        field "steamid_whitelist" (array (texts found))
                          (field "steamid_blacklist" (array nil) end));
                    is_written = refl;
                    written_whitelist =
                        sym (
                          as_items_inv (get native "steamid_whitelist") q
                          ∙ ap (λ i. array i) whole);
                    written_entries = refl;
                    written_blacklist = refl;
                  } in
                  rw same at known
            ]
          ]
        ]
      ]
    ]
