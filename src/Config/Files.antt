-- ===== src/Config/Files.antt =====
-- agent/services/current_config_store.py and entry_list_store.py: the JSON files of the configurations.
-- A file that is no JSON is `none`; a write may fail.
use pitlane_agent.Common.{String, Option, none, some, Bool, true, false, if◌then◌else◌}
use pitlane_agent.Common.Text.{is_empty, strip}
use pitlane_agent.Common.Json.{Value, Fields, text, as_object}
use pitlane_agent.Common.Dict.{Dict, lookup, insert, remove}
use Prim.Native.String.{◌++◌ as ◌+++◌}
use pitlane_agent.Config.Values.{eq_value}

-- `str(value or fallback)` and `Path(s).name`.
pub record Naming : Type 0 where
  pub str_or : Value → String → String
  pub path_name : String → String

-- The directories `current`, `history` and `entrylists`.
pub record Files : Type 0 where
  pub current : Dict (Option Value)
  pub history : Dict (Option Value)
  pub entry_lists : Dict (Option Value)

-- `_safe_name`.
unfoldable pub safe_name : Naming → Value → String → String
unfolding strip
safe_name n v fallback =
    let raw = strip (n.str_or v fallback) in n.path_name (if is_empty raw then fallback else raw)

-- `current_config_path`, the name of the file.
unfoldable pub current_name : Naming → String → String
unfolding safe_name
current_name n instance = safe_name n (text instance) "instance" +++ ".json"

-- `history_config_path` and `entry_list_path`.
unfoldable pub launch_file : Naming → Value → String → String
unfolding safe_name
launch_file n launch_id instance =
    "launch_"
    +++ (safe_name n launch_id "manual"
        +++ ("_" +++ (safe_name n (text instance) "instance" +++ ".json")))

pub data Save : Type 0 where
  written kept immutable unreadable failed : Save

abbrev pub is_saved : Save → Bool
is_saved written = true
is_saved kept = true
is_saved immutable = false
is_saved unreadable = false
is_saved failed = false

-- `save_launch_history_config` and `save_launch_entry_list`: a file that is there is not written again.
unfoldable pub save_once : Bool → String → Value → Dict (Option Value) → Dict (Option Value) × Save
unfolding lookup insert eq_value
save_once writes name v d = elim (lookup name d) [
  | none ↦ if writes then (insert name (some v) d, written) else (d, failed)
  | some existing ↦ elim existing [
    | none ↦ (d, unreadable)
    | some old ↦ if eq_value old v then (d, kept) else (d, immutable)
  ]
]

-- `save_current_config`.
unfoldable pub save_current_config : Bool → Naming → String → Value → Files → Files × Bool
unfolding current_name insert
save_current_config writes n instance v f =
    if writes
    then (record f { current = insert (current_name n instance) (some v) f.current }, true)
    else (f, false)

-- `delete_current_config`.
unfoldable pub delete_current_config : Naming → String → Files → Files × Bool
unfolding current_name lookup remove
delete_current_config n instance f = elim (lookup (current_name n instance) f.current) [
  | none ↦ (f, false)
  | some _ ↦ (record f { current = remove (current_name n instance) f.current }, true)
]

-- `load_current_config`: the configuration, or FileNotFoundError, or another error.
pub data Loaded : Type 0 where
  loaded : Fields → Loaded
  not_found invalid : Loaded

abbrev pub read_config : Option Value → Loaded
read_config none = invalid
read_config (some v) = elim (as_object v) [ none ↦ invalid | some d ↦ loaded d ]

unfoldable pub load_current_config : Naming → String → Files → Loaded
unfolding current_name lookup
load_current_config n instance f = elim (lookup (current_name n instance) f.current) [
  | none ↦ not_found
  | some file ↦ read_config file
]
