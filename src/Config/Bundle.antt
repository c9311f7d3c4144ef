-- ===== src/Config/Bundle.antt =====
-- agent/services/runtime_bundle.py: `validate_runtime_bundle`.
use Prim.Native.Char.{code}
use Prim.Native.String.{[] as nothing, ◌∷◌ as ◌⊳◌, ◌++◌ as ◌+++◌}
use pitlane_agent.Common.{
  String, Option, none, some, Bool, true, List, [], ◌∷◌, ◌&&◌, not, str_eq, ◌==◌, if◌then◌else◌,
}
use pitlane_agent.Common.Int.{pos}
use pitlane_agent.Common.Json.{
  Value, Items, Fields, text, array, object, nil, cons, end, get, put, as_object,
}
use pitlane_agent.Common.Text.{strip, len}
use pitlane_agent.Spool.Scans.{is_hex}
use pitlane_agent.Config.Values.{entry, eq_value, eq_fields, eq_number}

-- `str(x or '')`, `str.lower`, and the hash of the canonical JSON of a bundle.
pub record Hashing : Type 0 where
  pub str_or_empty : Value → String
  pub lower : String → String
  pub bundle_hash : Fields → String

-- The fields of `Server` that the agent fills in itself.
abbrev pub legacy_keys : List String
legacy_keys =
    "AdminPassword" ∷ "DriverPassword" ∷ "LaunchSessionId" ∷ "ResultCorrelationId" ∷ "ResultsPath"
    ∷ "ResultsPostUrl" ∷ "SpectatorPassword" ∷ []

abbrev pub materialized_keys : List String
materialized_keys =
    "AdminPassword" ∷ "DriverPassword" ∷ "EntryListPath" ∷ "LaunchSessionId" ∷ "ResultCorrelationId"
    ∷ "ResultsPath" ∷ "ResultsPostUrl" ∷ "SpectatorPassword" ∷ []

-- `path.split('.')` of the path of a field.
abbrev pub path_of : String → List String
path_of k = "Server" ∷ k ∷ []

-- The list of the paths, as the bundle announces it.
unfoldable pub announced : List String → Items
announced [] = nil
announced (k ∷ ks) = cons (text ("Server." +++ k)) (announced ks)

-- `MATERIALIZED_FIELDS_BY_SCHEMA.get(version)`; a list or an object cannot be looked up.
pub data Schema : Type 0 where
  known : List String → Schema
  unsupported unhashable : Schema

abbrev pub schema_of : Value → Schema
schema_of (array _) = unhashable
schema_of (object _) = unhashable
schema_of v =
    if eq_number (pos 1) v
    then known legacy_keys
    else if eq_number (pos 2) v
    then known materialized_keys
    else unsupported

abbrev pub object_or_empty : Value → Fields
object_or_empty (object d) = d
object_or_empty _ = end

-- `_copy_path_value`; `none` where it raises.
unfoldable pub copy_path_value : Fields → Fields → List String → Option Fields
unfolding entry put get
copy_path_value source target [] = some target
copy_path_value source target (k ∷ []) = elim (entry source k) [
  | none ↦ none
  | some v ↦ some (put target k v)
]
copy_path_value source target (k ∷ l ∷ ks) = elim (entry source k) [
  | none ↦ none
  | some v ↦ elim (as_object v) [
    | none ↦ none
    | some inner ↦ elim (copy_path_value inner (object_or_empty (get target k)) (l ∷ ks)) [
      | none ↦ none
      | some t ↦ some (put target k (object t))
    ]
  ]
]

unfoldable pub redact : Fields → Fields → List String → Option Fields
unfolding copy_path_value
redact canonical target [] = some target
redact canonical target (k ∷ ks) = elim (copy_path_value canonical target (path_of k)) [
  | none ↦ none
  | some t ↦ redact canonical t ks
]

unfoldable pub all_hex : String → Bool
all_hex nothing = true
all_hex (c ⊳ s) = is_hex (code c) && all_hex s

-- The hash that was announced; RuntimeBundleError with its reason; TypeError.
pub data Validation : Type 0 where
  accepted : String → Validation
  bundle_required unsupported_version wrong_fields config_required materialized_required :
      Validation
  malformed_hash wrong_hash unreadable_path diverged : Validation
  type_error : Validation

unfoldable pub compare_configs : Fields → Fields → List String → String → Validation
unfolding redact eq_fields
compare_configs canonical materialized keys hash = elim (redact canonical materialized keys) [
  | none ↦ unreadable_path
  | some redacted ↦ if eq_fields redacted canonical then accepted hash else diverged
]

unfoldable pub check_hash : Hashing → Fields → Value → Fields → Fields → List String → Validation
unfolding strip all_hex compare_configs
check_hash h bundle announced_hash canonical materialized keys =
    let hash = h.lower (strip (h.str_or_empty announced_hash)) in
    if not (len hash == 64 && all_hex hash)
    then malformed_hash
    else if not (str_eq (h.bundle_hash bundle) hash)
    then wrong_hash
    else compare_configs canonical materialized keys hash

unfoldable pub check_configs : Hashing → Fields → Value → Value → Value → List String → Validation
unfolding check_hash
check_configs h bundle announced_hash canonical materialized keys = elim (as_object canonical) [
  | none ↦ config_required
  | some c ↦ elim (as_object materialized) [
    | none ↦ materialized_required
    | some m ↦ check_hash h bundle announced_hash c m keys
  ]
]

abbrev pub check_schema : Hashing → Fields → Value → Value → Schema → Validation
check_schema h bundle announced_hash materialized unhashable = type_error
check_schema h bundle announced_hash materialized unsupported = unsupported_version
check_schema h bundle announced_hash materialized (known keys) =
    if eq_value (get bundle "materialized_fields") (array (announced keys))
    then check_configs h bundle announced_hash (get bundle "runtime_config") materialized keys
    else wrong_fields

unfoldable pub validate_runtime_bundle : Hashing → Value → Value → Value → Validation
unfolding eq_value announced check_configs get
validate_runtime_bundle h bundle announced_hash materialized = elim (as_object bundle) [
  | none ↦ bundle_required
  | some b ↦ check_schema h b announced_hash materialized (schema_of (get b "schema_version"))
]
