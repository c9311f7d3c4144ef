-- ===== src/Config/Policy.antt =====
-- agent/services/runtime_policy.py: `normalize_runtime_policy`.
use pitlane_agent.Common.{String, Option, none, some, Bool, true, false, str_eq, if◌then◌else◌}
use pitlane_agent.Common.Json.{
  Value, Fields, null, boolean, integer, text, array, object, end, field,
}
use pitlane_agent.Config.Values.{entry}

abbrev pub option_key : String
option_key = "stop_on_season_restart"

-- Whether a key of the payload is no known option.
unfoldable pub has_unknown : Fields → Bool
has_unknown end = false
has_unknown (field k v d) = let rest = has_unknown d in if str_eq k option_key then rest else true

-- The policy, or ValueError.
unfoldable pub normalize_runtime_policy : Value → Option Bool
unfolding has_unknown entry
normalize_runtime_policy null = some false
normalize_runtime_policy (object d) = if has_unknown d then none else elim (entry d option_key) [
  | none ↦ some false
  | some v ↦ elim v [
    | boolean b ↦ some b
    | null ↦ none
    | integer _ ↦ none
    | text _ ↦ none
    | array _ ↦ none
    | object _ ↦ none
  ]
]
normalize_runtime_policy _ = none
