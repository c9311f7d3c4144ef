-- ===== src/Config/Finalize.antt =====
-- agent/services/runtime_config_compiler.py and `materialize_entry_list` of entry_list_store.py: what the
-- agent adds to the configuration of a launch.
use pitlane_agent.Common.{
  ℕ, String, Option, none, some, Bool, false, List, ◌&&◌, ◌||◌, not, ◌==◌, if◌then◌else◌,
}
use pitlane_agent.Common.Int.{ℤ, pos}
use pitlane_agent.Common.Text.{is_empty, strip, len}
use pitlane_agent.Common.Json.{
  Value, Fields, null, boolean, integer, text, array, object, get, put, as_object,
}
use pitlane_agent.Spool.Launches.{is_not_false}
use pitlane_agent.Config.Values.{eq_value, eq_int, eq_number}
use pitlane_agent.Config.Bundle.{Hashing, all_hex}
use pitlane_agent.Config.Files.{Naming, Files, launch_file, save_once, is_saved}
use pitlane_agent.Config.EntryList.{native_payload, validated_native_payload}

-- What the agent's machine decides: names, `str` and `lower`, the class `\d`, `int` of a text, the text of a
-- result directory with its separator, the text of the path of an entry list, whether a file that is
-- kept and a current configuration can be written.
pub record Local : Type 0 where
  pub naming : Naming
  pub hashing : Hashing
  pub is_digit : ℕ → Bool
  pub int_text : String → Option ℤ
  pub results_path : String → Option String → String
  pub entry_list_path : String → String
  pub writes : Bool
  pub writes_current : Bool

pub record Instance : Type 0 where
  pub id : String
  pub tcp_port : ℤ
  pub udp_port : ℤ
  pub http_port : ℤ

-- `_read_int`: None, a number, or an exception, which is `none`.
unfoldable pub read_int : (String → Option ℤ) → Value → Option (Option ℤ)
read_int int_text null = some none
read_int int_text (boolean b) = some (some (pos (if b then 1 else 0)))
read_int int_text (integer z) = some (some z)
read_int int_text (text s) =
    if is_empty s then some none else elim (int_text s) [ none ↦ none | some z ↦ some (some z) ]
read_int int_text (array _) = none
read_int int_text (object _) = none

abbrev pub is_port : ℤ → Option ℤ → Bool
is_port expected none = false
is_port expected (some z) = eq_int expected z

-- `validate_instance_ports` on the `Server` object: whether the ports agree, or an exception.
unfoldable pub ports_agree : Local → Instance → Fields → Option Bool
unfolding read_int get
ports_agree l i server = elim (read_int l.int_text (get server "TcpPort")) [
  | none ↦ none
  | some tcp ↦ elim (read_int l.int_text (get server "UdpPort")) [
    | none ↦ none
    | some udp ↦ elim (read_int l.int_text (get server "HttpPort")) [
      | none ↦ none
      | some http ↦
          some (is_port i.tcp_port tcp && is_port i.udp_port udp && is_port i.http_port http)
    ]
  ]
]

-- The final configuration; InstancePortsOutOfSync; another exception.
pub data Finalized : Type 0 where
  final : Fields → Finalized
  out_of_sync refused : Finalized

-- The directory of the results, or an exception.
unfoldable pub results_of : Local → Instance → Fields → Option String
unfolding strip get all_hex
results_of l i server =
    let id = l.hashing.lower (strip (l.hashing.str_or_empty (get server "ResultCorrelationId"))) in
    if not (is_not_false (get server "CollectResults")) || is_empty id
    then some (l.results_path i.id none)
    else if len id == 32 && all_hex id
    then some (l.results_path i.id (some id))
    else none

-- `save_launch_entry_list`, with the path that goes into the configuration.
unfoldable pub save_launch_entry_list :
    Local → Value → String → List String → Files → Files × Option String
unfolding launch_file save_once
save_launch_entry_list l launch_id instance ids f =
    let name = launch_file l.naming launch_id instance in
    let r = save_once l.writes name (native_payload ids) f.entry_lists in
    (record f { entry_lists = r.0 }, if is_saved r.1 then some (l.entry_list_path name) else none)

abbrev pub is_text : String → Value → Bool
is_text s v = eq_value v (text s)

abbrev pub with_whitelist :
    Local → Value → String → Option (List String) → Files → Files × Option String
with_whitelist l launch_id instance none f = (f, none)
with_whitelist l launch_id instance (some ids) f = save_launch_entry_list l launch_id instance ids f

-- The entry list of a configuration that has one.
unfoldable pub entry_list_of : Local → Value → String → Fields → Files → Files × Option String
unfolding eq_value get save_launch_entry_list
entry_list_of l launch_id instance d f =
    if not (eq_number (pos 2) (get d "schema_version"))
    then (f, none)
    else if is_text "disabled" (get d "mode")
    then (f, some "")
    else if not (is_text "steamid_whitelist" (get d "mode"))
    then (f, none)
    else with_whitelist l launch_id instance (validated_native_payload l.is_digit d) f

-- `materialize_entry_list`: the text of `EntryListPath`, or an exception.
abbrev pub materialize_entry_list : Local → Value → String → Value → Files → Files × Option String
materialize_entry_list l launch_id instance null f = (f, some "")
materialize_entry_list l launch_id instance (object d) f = entry_list_of l launch_id instance d f
materialize_entry_list l launch_id instance _ f = (f, none)

abbrev pub set_server : Fields → Fields → Option String → Finalized
set_server config server none = refused
set_server config server (some path) =
    final (put config "Server" (object (put server "EntryListPath" (text path))))

abbrev pub finalize_server : Local → Instance → Fields → Fields → Files → Files × Finalized
finalize_server l i config server f = elim (results_of l i server) [
  | none ↦ (f, refused)
  | some path ↦
      let s = put server "ResultsPath" (text path) in
      let r = materialize_entry_list l (get s "LaunchSessionId") i.id (get config "EntryList") f in
      (r.0, set_server config s r.1)
]

-- `finalize_launch_config`.
unfoldable pub finalize_launch_config : Local → Instance → Fields → Files → Files × Finalized
unfolding ports_agree results_of entry_list_of get put
finalize_launch_config l i config f = elim (as_object (get config "Server")) [
  | none ↦ (f, refused)
  | some server ↦ elim (ports_agree l i server) [
    | none ↦ (f, refused)
    | some agree ↦ if agree then finalize_server l i config server f else (f, out_of_sync)
  ]
]
