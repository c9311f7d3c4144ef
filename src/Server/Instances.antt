-- ===== src/Server/Instances.antt =====
-- agent/services/server_manager.py: the start and the stop of an instance. An operation of an instance runs
-- under the instance's lock; the log observer's state and the writing of the state file are left out.
use pitlane_agent.Common.{
  ℕ, String, Option, none, some, Bool, true, false, List, [], ◌∷◌, not, ◌==◌, str_eq, if◌then◌else◌,
  any, select,
}
use pitlane_agent.Common.Int.{ℤ}
use pitlane_agent.Common.Json.{Fields}
use pitlane_agent.Common.Text.{is_empty}
use pitlane_agent.Common.Dict.{Dict, lookup, insert, remove}
use pitlane_agent.Telemetry.Log.{LogState}
use pitlane_agent.Runtime.Supervisor.{
  Poll, alive, exited, RuntimeInfo, TerminalInfo, Supervisor, register, request_stop, observe_exit,
  forget,
}
use pitlane_agent.Server.Ports.{Conflict}

-- The entries of a runtime dict beside those that the supervisor reads.
pub record Launched : Type 0 where
  pub instance : Fields
  pub started_at : ℕ
  pub config : Option String
  pub config_loaded_at : Option String
  pub command_id : Option String
  pub log_path : Option String
  pub process_create_time : Option ℕ
  pub executable_path : Option String
  pub game_observation : Option LogState
  pub stop_on_season_restart : Bool
  pub last_processed_count : ℕ

abbrev pub Info : Type 0
Info = RuntimeInfo ℕ Launched

pub record LastConfig : Type 0 where
  pub config : String
  pub config_loaded_at : Option String

-- `live` holds the processes of game servers that are running; a process is its pid.
pub record Manager : Type 0 where
  pub supervisor : Supervisor ℕ Launched
  pub last_config : Dict LastConfig
  pub live : List ℕ

abbrev pub has_pid : ℕ → List ℕ → Bool
has_pid p = any (λ q. q == p)

-- `poll`; `code` is the exit code that the operating system gives.
unfoldable pub poll : (ℕ → Option ℤ) → List ℕ → ℕ → Poll
poll code live p = if has_pid p live then alive else exited (code p)

abbrev pub runs : List ℕ → Option Info → Bool
runs live none = false
runs live (some info) = elim info.process [ none ↦ false | some p ↦ has_pid p live ]

-- The instance has a process that has not exited.
unfoldable pub is_running : String → Manager → Bool
unfolding lookup
is_running id m = runs m.live (lookup id m.supervisor.running)

-- `already_executed_command`: the pid, if the instance runs and was started by this command.
unfoldable pub already_executed_command : String → Option String → Manager → Option ℕ
unfolding lookup
already_executed_command id none m = none
already_executed_command id (some command) m = elim (lookup id m.supervisor.running) [
  | none ↦ none
  | some info ↦ elim info.process [
    | none ↦ none
    | some p ↦ elim info.payload.command_id [
      | none ↦ none
      | some c ↦
          if is_empty command
          then none
          else if not (str_eq c command)
          then none
          else if has_pid p m.live
          then some p
          else none
    ]
  ]
]

-- What a start is given: what `wait_for_instance_ports` returned (`none` if it raised), the process that
-- `Popen` makes, what is recorded of it, whether the callback before a restart's start returns.
pub record Start : Type 0 where
  pub ports : Option (List Conflict)
  pub pid : ℕ
  pub now : String
  pub launched : Launched
  pub before_start : Bool

pub data Started : Type 0 where
  started : ℕ → Started
  already_running inspection_failed : Started
  ports_in_use : List Conflict → Started

abbrev pub remember : String → Option String → Option String → Dict LastConfig → Dict LastConfig
remember id none loaded d = d
remember id (some config) loaded d =
    if is_empty config
    then d
    else insert id (record { config = config; config_loaded_at = loaded }) d

abbrev pub launched_info : Start → Info
launched_info a = record {
  process = some a.pid;
  payload = record a.launched {
    config_loaded_at = some a.now;
    game_observation = none;
    last_processed_count = 0;
  };
  exit_code_available = true;
  stop_requested_at = none;
  stop_reason = none;
}

unfoldable pub launch : String → Start → Manager → Manager
unfolding register insert
launch id a m = record {
  supervisor = register id (launched_info a) m.supervisor;
  last_config = remember id a.launched.config (some a.now) m.last_config;
  live = a.pid ∷ m.live;
}

unfoldable pub start_instance : String → Start → Manager → Manager × Started
unfolding is_running launch
start_instance id a m = if is_running id m then (m, already_running) else elim a.ports [
  | none ↦ (m, inspection_failed)
  | some (c ∷ cs) ↦ (m, ports_in_use (c ∷ cs))
  | some [] ↦ (launch id a m, started a.pid)
]

-- How a process takes the end: it is gone, on its own or killed after ten seconds; or a call on it raises:
-- it outlives the kill, or it was restored and outlives the ten seconds.
pub data Ending : Type 0 where
  ends outlives : Ending

-- What a stop is given: the reason, the time, the facts of the log before and after.
pub record Stop : Type 0 where
  pub reason : String
  pub now : String
  pub before : Option LogState
  pub later : Option LogState
  pub ending : Ending
  pub code : ℕ → Option ℤ

pub data Stopped : Type 0 where
  stopped already_stopped : Option (TerminalInfo Launched) → Stopped
  raised : Stopped

-- `_observe_game_log`, where a log was looked at.
unfoldable pub set_observation :
    String → Option LogState → Supervisor ℕ Launched → Supervisor ℕ Launched
unfolding lookup insert
set_observation id none s = s
set_observation id (some facts) s = elim (lookup id s.running) [
  | none ↦ s
  | some info ↦ record s {
    running =
        insert id (record info { payload = record info.payload { game_observation = some facts } })
          s.running;
  }
]

abbrev pub without : Option ℕ → List ℕ → List ℕ
without none live = live
without (some p) live = select (λ q. not (q == p)) live

-- The first half of a stop: the request is recorded.
unfoldable pub begin_stop : String → Stop → Info → Manager → Manager
unfolding set_observation request_stop insert
begin_stop id o info m = record m {
  last_config = remember id info.payload.config info.payload.config_loaded_at m.last_config;
  supervisor = (request_stop id o.reason o.now (set_observation id o.before m.supervisor)).0;
}

-- The second half: the process is gone.
unfoldable pub end_stop : String → Stop → Info → Manager → Manager × Stopped
unfolding set_observation observe_exit poll
end_stop id o info m =
    let live = without info.process m.live in
    let r =
      observe_exit (poll o.code live) id none o.now (set_observation id o.later m.supervisor) in
    (record m { supervisor = r.0; live = live }, stopped r.1)

unfoldable pub stop_instance : String → Stop → Manager → Manager × Stopped
unfolding lookup begin_stop end_stop
stop_instance id o m = elim (lookup id m.supervisor.running) [
  | none ↦ (m, already_stopped (lookup id m.supervisor.terminated))
  | some info ↦
      let m' = begin_stop id o info m in
      elim o.ending [ ends ↦ end_stop id o info m' | outlives ↦ (m', raised) ]
]

-- `restart_instance`; nothing is started where the stop or the callback raises.
pub data Restarted : Type 0 where
  restarted : Started → Restarted
  not_stopped interrupted : Restarted

unfoldable pub start_again : String → Start → Manager → Manager × Restarted
unfolding start_instance
start_again id a m =
    let s = start_instance id a m in
    if a.before_start then (s.0, restarted s.1) else (m, interrupted)

unfoldable pub restart_instance : String → Stop → Start → Manager → Manager × Restarted
unfolding stop_instance start_again
restart_instance id o a m =
    let r = stop_instance id o m in
    elim r.1 [
      | raised ↦ (r.0, not_stopped)
      | stopped _ ↦ start_again id a r.0
      | already_stopped _ ↦ start_again id a r.0
    ]

-- `forget_instance_runtime`.
unfoldable pub forget_instance_runtime : String → String → (ℕ → Option ℤ) → Manager → Manager × Bool
unfolding is_running poll observe_exit forget remove
forget_instance_runtime id now code m = if is_running id m then (m, false) else (
  record m {
    supervisor = (forget id (observe_exit (poll code m.live) id none now m.supervisor).0).0;
    last_config = remove id m.last_config;
  },
  true,
)

-- What `get_instance_status` reports: a running instance, or its last configuration and its end.
pub data InstanceStatus : Type 0 where
  online : ℕ → Option String → InstanceStatus
  offline : Option LastConfig → Option (TerminalInfo Launched) → InstanceStatus

abbrev pub config_of : Option (TerminalInfo Launched) → Option LastConfig
config_of none = none
config_of (some t) = elim t.payload.config [
  | none ↦ none
  | some c ↦
      if is_empty c
      then none
      else some (record { config = c; config_loaded_at = t.payload.config_loaded_at })
]

-- `get_last_config`.
unfoldable pub get_last_config : String → Manager → Option LastConfig
unfolding lookup
get_last_config id m = elim (lookup id m.last_config) [
  | some c ↦ some c
  | none ↦ config_of (lookup id m.supervisor.terminated)
]

abbrev pub report_offline : String → Manager → Manager × InstanceStatus
report_offline id m = (m, offline (get_last_config id m) (lookup id m.supervisor.terminated))

unfoldable pub get_instance_status :
    String → String → (ℕ → Option ℤ) → Manager → Manager × InstanceStatus
unfolding lookup get_last_config poll observe_exit insert
get_instance_status id now code m = elim (lookup id m.supervisor.running) [
  | none ↦ report_offline id m
  | some info ↦ elim info.process [
    | none ↦ report_offline id m
    | some p ↦
        if has_pid p m.live
        then (m, online p info.payload.config)
        else report_offline id (record m {
          last_config = remember id info.payload.config info.payload.config_loaded_at m.last_config;
          supervisor = (observe_exit (poll code m.live) id none now m.supervisor).0;
        })
  ]
]
