-- ===== src/Commands/Launch.antt =====
-- agent/services/agent_commands.py: `launch_instance_command`. The instance in the message has the id that
-- the command is for, and is complete.
use pitlane_agent.Common.{
  ℕ, zero, String, Option, none, some, Bool, true, false, not, if◌then◌else◌,
}
use Prim.Native.String.{◌++◌ as ◌+++◌}
use pitlane_agent.Common.Int.{ℤ, pos, negsuc}
use pitlane_agent.Common.Text.{is_empty}
use pitlane_agent.Common.Json.{
  Value, Fields, null, boolean, integer, text, array, object, nil, end, get, as_object,
}
use pitlane_agent.Journal.Contract.{Python, int_of}
use pitlane_agent.Spool.Types.{Library, Spool}
use pitlane_agent.Spool.Scans.{Directories}
use pitlane_agent.Spool.Launches.{Registered, invalid_config, register_result_launch}
use pitlane_agent.Config.Files.{Files}
use pitlane_agent.Config.Finalize.{Local, Instance}
use pitlane_agent.Config.Prepare.{Prepared, prepared, prepare_launch}
use pitlane_agent.Server.Instances.{
  Manager, Start, Started, start_instance, Stop, Stopped, raised, stopped, already_stopped,
  stop_instance, Restarted, restarted, not_stopped, interrupted, restart_instance,
  already_executed_command,
}

pub record Agent : Type 0 where
  pub files : Files
  pub spool : Spool
  pub manager : Manager

-- What the handler meets: the machine, whether the encoder returns, the result directories, the time,
-- what a stop and a start meet. The command, the name of the configuration and the policy that a start
-- records are those that the handler passes, whatever `start` says of them.
pub record Surroundings : Type 0 where
  pub local : Local
  pub encodes : Fields → Bool
  pub library : Library
  pub directories : Directories
  pub now : ℕ
  pub stop : Stop
  pub start : Start

-- The answers: the command was executed before, with its pid; no configuration; the preparation failed;
-- an exception; what the start answered.
pub data Reply : Type 0 where
  already_executed : ℕ → Reply
  config_required : Reply
  unprepared : Prepared → Reply
  launch_error : Reply
  answered : Started → Reply

-- The launch number: none, a number, or an exception. A number below 1 counts as 0.
abbrev pub as_number : Option ℤ → Option (Option ℕ)
as_number none = none
as_number (some (pos n)) = some (some n)
as_number (some (negsuc n)) = some (some 0)

unfoldable pub launch_number : Python → Value → Option (Option ℕ)
unfolding int_of
launch_number py null = some none
launch_number py (text s) = if is_empty s then some none else as_number (int_of py (text s))
launch_number py v = as_number (int_of py v)

-- The registration of a launch for its results, and whether it returns.
abbrev pub is_registered : Registered → Bool
is_registered invalid_config = false
is_registered _ = true

unfoldable pub register : Surroundings → Instance → Value → Fields → Spool → Spool × Bool
unfolding launch_number register_result_launch
register x i launch_id config s = elim (launch_number x.library.python launch_id) [
  | none ↦ (s, false)
  | some n ↦
      let r = register_result_launch x.library x.directories x.now i.id n config s in
      (r.0, is_registered r.1)
]

abbrev pub preempt : Stop → Stop
preempt o = record o { reason = "preempted" }

abbrev pub reply_of : Restarted → Reply
reply_of (restarted r) = answered r
reply_of not_stopped = launch_error
reply_of interrupted = launch_error

-- The callback of the restart registers the launch, unless the stop raises before.
abbrev pub spool_after : Stopped → Spool → Spool → Spool
spool_after raised before after = before
spool_after (stopped _) before after = after
spool_after (already_stopped _) before after = after

-- `f'launch-{launch_id or "manual"}'`.
abbrev pub filename : Surroundings → Value → String
filename x launch_id = "launch-" +++ x.local.naming.str_or launch_id "manual"

-- What the handler passes to a start: the name of the configuration, the command, the policy; and
-- whether the callback before a restart's start returns.
unfoldable pub start_for : Surroundings → Option String → Bool → Value → Bool → Start
start_for x command_id policy launch_id before = record x.start {
  launched = record x.start.launched {
    config = some (filename x launch_id);
    command_id = command_id;
    stop_on_season_restart = policy;
  };
  before_start = before;
}

unfoldable pub launch_by_restart :
    Surroundings → Instance → Option String → Bool → Value → Fields → Agent → Agent × Reply
unfolding register stop_instance restart_instance start_for
launch_by_restart x i command_id policy launch_id config s =
    let g = register x i launch_id config s.spool in
    let a = start_for x command_id policy launch_id g.1 in
    let r = restart_instance i.id (preempt x.stop) a s.manager in
    (
      record s {
        spool = spool_after (stop_instance i.id (preempt x.stop) s.manager).1 s.spool g.0;
        manager = r.0;
      },
      reply_of r.1,
    )

unfoldable pub launch_by_start :
    Surroundings → Instance → Option String → Bool → Value → Fields → Agent → Agent × Reply
unfolding register start_instance start_for
launch_by_start x i command_id policy launch_id config s =
    let g = register x i launch_id config s.spool in
    let r = start_instance i.id (start_for x command_id policy launch_id true) s.manager in
    if g.1
    then (record s { spool = g.0; manager = r.0 }, answered r.1)
    else (record s { spool = g.0 }, launch_error)

-- `bool(v)`.
abbrev pub is_truthy : Value → Bool
is_truthy (boolean b) = b
is_truthy (integer (pos zero)) = false
is_truthy null = false
is_truthy (array nil) = false
is_truthy (object end) = false
is_truthy (text s) = not (is_empty s)
is_truthy _ = true

abbrev pub launch_prepared :
    Surroundings → Instance → Option String → Fields → Agent → Prepared → Agent × Reply
launch_prepared x i command_id body s (prepared config policy hash) =
    if is_truthy (get body "restart_if_running")
    then launch_by_restart x i command_id policy (get body "launch_id") config s
    else launch_by_start x i command_id policy (get body "launch_id") config s
launch_prepared x i command_id body s other = (s, unprepared other)

-- `launch_instance_command`.
unfoldable pub launch_instance_command :
    Surroundings → Instance → Option String → Fields → Agent → Agent × Reply
unfolding already_executed_command prepare_launch launch_by_restart launch_by_start get
launch_instance_command x i command_id body s =
    elim (already_executed_command i.id command_id s.manager) [
      | some pid ↦ (s, already_executed pid)
      | none ↦ elim (as_object (get body "runtime_config")) [
        | none ↦ (s, config_required)
        | some config ↦
            let p = prepare_launch x.encodes x.local i body config s.files in
            launch_prepared x i command_id body (record s { files = p.0 }) p.1
      ]
    ]
