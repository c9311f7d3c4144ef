-- ===== src/Server/Persistence.antt =====
-- agent/services/runtime_state.py: the file that keeps the running instances over a restart of the agent.
-- Times are whole milliseconds. The file is what `json` reads back from the text that it wrote.
use pitlane_agent.Common.{
  ℕ, suc, String, Option, none, some, Bool, false, List, [], ◌∷◌, not, ltb, ◌==◌, if◌then◌else◌,
}
use pitlane_agent.Common.Int.{ℤ, pos, negsuc}
use pitlane_agent.Common.Json.{
  Fields, end, field, Value, null, boolean, integer, text, array, object, get,
}
use pitlane_agent.Common.Dict.{Dict, insert}
use pitlane_agent.Telemetry.Log.{LogState, init, is_set}
use pitlane_agent.Runtime.Supervisor.{TerminalInfo, Supervisor, register, restore_terminated}
use pitlane_agent.Server.Instances.{Launched, Info, has_pid}
use pitlane_agent.Server.Identity.{
  answer, no_such, denied, Probe, Paths, Verdict, same, gone, unsure, away, inspect_process,
}

-- What a saved entry holds; `counters` are its fields for the guard of season restarts.
pub record Saved : Type 0 where
  pub pid : ℕ
  pub launched : Launched
  pub stop_requested_at : Option String
  pub stop_reason : Option String
  pub counters : Fields

-- An entry whose pid is no number is malformed.
pub data Entry : Type 0 where
  malformed : Entry
  entry : Saved → Entry

-- The file: it is absent or no JSON object, or of the first version, or of a later one. An entry of
-- the terminated instances that is no object is `none`.
pub data StateFile : Type 0 where
  unreadable : StateFile
  first_version : Dict Entry → StateFile
  later_version : Option ℕ → Dict Entry → Dict (Option (TerminalInfo Launched)) → StateFile

abbrev pub last_processed_key : String
last_processed_key = "season_restart_guard_last_processed_count"

abbrev pub observed_key : String
observed_key = "season_restart_guard_observed_count"

-- `max(0, int(value or 0))`, or 0 where `int` raises; `int_text` is `int` of a text.
abbrev pub count_of : (String → Option ℤ) → Value → ℕ
count_of int_text null = 0
count_of int_text (boolean b) = if b then 1 else 0
count_of int_text (integer (pos n)) = n
count_of int_text (integer (negsuc n)) = 0
count_of int_text (text s) = elim (int_text s) [
  | none ↦ 0
  | some z ↦ elim z [ pos n ↦ n | negsuc n ↦ 0 ]
]
count_of int_text (array _) = 0
count_of int_text (object _) = 0

abbrev pub or_value : Value → Value → Value
or_value null w = w
or_value v w = v

-- `_last_processed_restart_count`.
unfoldable pub last_processed_restart_count : (String → Option ℤ) → Fields → ℕ
unfolding get
last_processed_restart_count int_text d =
    count_of int_text (or_value (get d last_processed_key) (get d observed_key))

-- `_boot_changed`.
unfoldable pub boot_changed : Option ℕ → Option ℕ → Option Bool
boot_changed none c = none
boot_changed (some p) none = none
boot_changed (some p) (some c) = some (ltb 1000 (away p c))

abbrev pub or_now : ℕ → ℕ → ℕ
or_now t now = if t == 0 then now else t

abbrev pub saved_of : ℕ → ℕ → Info → Saved
saved_of now p info = record {
  pid = p;
  launched = record info.payload { started_at = or_now info.payload.started_at now };
  stop_requested_at = info.stop_requested_at;
  stop_reason = info.stop_reason;
  counters = field last_processed_key (integer (pos info.payload.last_processed_count)) end;
}

abbrev pub saved_entry : ℕ → ℕ → Info → Entry
saved_entry now p info = entry (saved_of now p info)

-- An instance without a process, or whose process has exited, is not saved.
abbrev pub save_instance : List ℕ → ℕ → String → Info → Dict Entry → Dict Entry
save_instance live now id info d = elim info.process [
  | none ↦ d
  | some p ↦ if has_pid p live then insert id (saved_entry now p info) d else d
]

unfoldable pub save_running : List ℕ → ℕ → Dict Info → Dict Entry → Dict Entry
unfolding insert
save_running live now [] d = d
save_running live now ((id, info) ∷ rest) d =
    save_running live now rest (save_instance live now id info d)

unfoldable pub save_terminated :
    Dict (TerminalInfo Launched)
    → Dict (Option (TerminalInfo Launched))
    → Dict (Option (TerminalInfo Launched))
unfolding insert
save_terminated [] d = d
save_terminated ((id, t) ∷ rest) d = save_terminated rest (insert id (some t) d)

-- `save_runtime_state`.
unfoldable pub save_runtime_state : List ℕ → ℕ → Option ℕ → Supervisor ℕ Launched → StateFile
unfolding save_running save_terminated
save_runtime_state live now boot s =
    later_version boot (save_running live now s.running []) (save_terminated s.terminated [])

-- What a restoration is given: the paths, the configuration of the game, what psutil says of a pid, the
-- time of the system's start, the time, its text, `int` of a text.
pub record Restoration : Type 0 where
  pub paths : Paths
  pub game : Option (Option String)
  pub probe : ℕ → Probe
  pub boot : Option ℕ
  pub now : ℕ
  pub observed_at : String
  pub int_text : String → Option ℤ

abbrev pub or_fields : Fields → Fields → Fields
or_fields end e = e
or_fields (field k v d) e = field k v d

abbrev pub or_text : Option String → String → Option String
or_text s t = if is_set s then s else some t

abbrev pub missing_message : String
missing_message = "Processus AC EVO suivi absent au redémarrage de l’agent."

abbrev pub or_init : Option LogState → LogState
or_init none = init false
or_init (some o) = o

-- A process that vanished without a stop counts as crashed.
abbrev pub missing_observation : String → Saved → Option LogState
missing_observation now v =
    if is_set v.stop_reason
    then v.launched.game_observation
    else (let o = or_init v.launched.game_observation in
        some (record o {
          crash_detected_at = or_text o.crash_detected_at now;
          crash_message = or_text o.crash_message missing_message;
        }))

abbrev pub missing_origin : Option Bool → String
missing_origin none = "unknown"
missing_origin (some restarted) =
    if restarted then "machine_restart" else "process_missing_on_agent_start"

-- `_missing_process_terminal`.
unfoldable pub missing_process_terminal :
    String → Saved → Option Bool → String → TerminalInfo Launched
missing_process_terminal id v restarted now = record {
  payload = record v.launched {
    instance = or_fields v.launched.instance (field "id" (text id) (field "name" (text id) end));
    game_observation = missing_observation now v;
  };
  stop_requested_at = v.stop_requested_at;
  stop_reason = v.stop_reason;
  exit_code = none;
  exit_observed_at = now;
  exit_origin = missing_origin restarted;
}

abbrev pub restored_info : Restoration → String → Saved → ℕ → Info
restored_info x id v created = record {
  process = some v.pid;
  payload = record v.launched {
    instance = or_fields v.launched.instance (field "id" (text id) end);
    started_at = or_now v.launched.started_at x.now;
    process_create_time = some created;
    executable_path = (x.probe v.pid).resolved;
    last_processed_count = last_processed_restart_count x.int_text v.counters;
  };
  exit_code_available = false;
  stop_requested_at = v.stop_requested_at;
  stop_reason = v.stop_reason;
}

-- What becomes of an entry; a call that raises leaves it out.
abbrev pub adopt :
    Restoration → String → Saved → Supervisor ℕ Launched × ℕ → Supervisor ℕ Launched × ℕ
adopt x id v r = if not (x.probe v.pid).poll then r else elim (x.probe v.pid).create_time [
  | answer created ↦ (register id (restored_info x id v created) r.0, suc r.1)
  | no_such ↦ r
  | denied ↦ r
]

abbrev pub verdict : Restoration → Saved → Verdict
verdict x v =
    inspect_process x.paths (x.probe v.pid) v.launched.process_create_time
      v.launched.executable_path x.game

unfoldable pub restore_entry :
    Restoration
    → Option Bool
    → String
    → Entry
    → Supervisor ℕ Launched × ℕ
    → Supervisor ℕ Launched × ℕ
unfolding inspect_process register restore_terminated missing_process_terminal
    last_processed_restart_count
restore_entry x restarted id malformed r = r
restore_entry x restarted id (entry v) r = elim (verdict x v) [
  | same ↦ adopt x id v r
  | gone ↦ (restore_terminated id (missing_process_terminal id v restarted x.observed_at) r.0, r.1)
  | unsure ↦ r
]

unfoldable pub restore_entries :
    Restoration → Option Bool → Dict Entry → Supervisor ℕ Launched × ℕ → Supervisor ℕ Launched × ℕ
unfolding restore_entry
restore_entries x restarted [] r = r
restore_entries x restarted ((id, e) ∷ rest) r =
    restore_entries x restarted rest (restore_entry x restarted id e r)

unfoldable pub restore_ends :
    Dict (Option (TerminalInfo Launched)) → Supervisor ℕ Launched → Supervisor ℕ Launched
unfolding restore_terminated
restore_ends [] s = s
restore_ends ((id, none) ∷ rest) s = restore_ends rest s
restore_ends ((id, some t) ∷ rest) s = restore_ends rest (restore_terminated id t s)

abbrev pub restore_payload :
    Restoration
    → Option Bool
    → Dict Entry
    → Dict (Option (TerminalInfo Launched))
    → Supervisor ℕ Launched
    → Supervisor ℕ Launched × ℕ
restore_payload x restarted running ended s =
    let r = restore_entries x restarted running (s, 0) in (restore_ends ended r.0, r.1)

-- `restore_runtime_state`, up to the file that it saves in the end; the number of the restored.
unfoldable pub restore_runtime_state :
    Restoration → StateFile → Supervisor ℕ Launched → Supervisor ℕ Launched × ℕ
unfolding restore_entries restore_ends boot_changed
restore_runtime_state x unreadable s = (s, 0)
restore_runtime_state x (first_version running) s =
    restore_payload x (boot_changed none x.boot) running [] s
restore_runtime_state x (later_version boot running ended) s =
    restore_payload x (boot_changed boot x.boot) running ended s
