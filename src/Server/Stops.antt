-- ===== src/Server/Stops.antt =====
-- What a start, a stop and a restart do to an instance.
use pitlane_agent.Common.{
  ℕ, String, ◌≡◌, refl, ◌∙◌, ap, Option, none, some, true, false, List, [], arith, ◌==◌, any,
  str_eq_refl,
}
use pitlane_agent.Common.Int.{ℤ}
use pitlane_agent.Common.Text.{is_empty}
use pitlane_agent.Common.Dict.{lookup, lookup-insert, lookup-remove}
use pitlane_agent.Telemetry.Log.{LogState}
use pitlane_agent.Runtime.Supervisor.{
  Supervisor, TerminalInfo, register, request_stop, observe_exit, terminal_of, stop_requested,
  recorded_code,
}
use pitlane_agent.Server.Instances.{
  Launched, Info, Manager, has_pid, poll, is_running, already_executed_command, Start, started,
  launched_info, launch, start_instance, ends, Stop, set_observation, without, begin_stop, end_stop,
  stop_instance, start_again, restart_instance, restarted, stopped, already_stopped, Stopped,
}
use pitlane_agent.Server.Orphans.{process_of, has_pid-select}

-- The observation of the log keeps all of a running instance but the observation.
set_observation_keeps :
    (id : String) (facts : Option LogState) (s : Supervisor ℕ Launched) {info : Info}
    → lookup id s.running ≡ some info
    → (x : Info) × (lookup id (set_observation id facts s).running ≡ some x)
      × (x.process ≡ info.process)
      × (x.stop_reason ≡ info.stop_reason)
unfolding set_observation
set_observation_keeps id none s {info = info} e = (info, e, refl, refl)
set_observation_keeps id (some facts) s {info = info} e =
    let x : Info = record info {
      payload = record info.payload { game_observation = some facts };
    } in
    (x, ground (arith, e, lookup-insert id id x s.running, str_eq_refl id), refl, refl)

begin_stop_lem :
    (id : String) (o : Stop) (info : Info) (m : Manager)
    → lookup id m.supervisor.running ≡ some info
    → (x : Info) × (lookup id (begin_stop id o info m).supervisor.running ≡ some x)
      × (x.process ≡ info.process)
      × (x.stop_reason ≡ some o.reason)
unfolding begin_stop request_stop
begin_stop_lem id o info m e =
    let (y, found, same, z) = set_observation_keeps id o.before m.supervisor e in
    let x = stop_requested o.reason o.now y in
    (
      x,
      ground (
        arith,
        found,
        lookup-insert id id x (set_observation id o.before m.supervisor).running,
        str_eq_refl id,
      ),
      same,
      refl,
    )

-- What is seen when the process is gone.
observe_gone :
    (code : ℕ → Option ℤ) (live : List ℕ) (id now : String) (s : Supervisor ℕ Launched)
    {info : Info} {p : ℕ}
    → lookup id s.running ≡ some info
    → info.process ≡ some p
    → has_pid p live ≡ false
    → let r = observe_exit (poll code live) id none now s in
      (t : TerminalInfo Launched) × (r.1 ≡ some t)
      × (t.stop_reason ≡ info.stop_reason)
      × (lookup id r.0.running ≡ none)
      × (lookup id r.0.terminated ≡ some t)
unfolding observe_exit poll
observe_gone code live id now s {info = info} {p = p} e q gone =
    let t = terminal_of info (recorded_code none info.exit_code_available (code p)) now in
    rw (e, observe_exit, q, poll, gone)
      (
        t,
        refl,
        refl,
        ground (arith, lookup-remove id id s.running, str_eq_refl id),
        ground (arith, lookup-insert id id t s.terminated, str_eq_refl id),
      )

-- What a stop leaves behind.
pub record IsStopped (id : String) (why : String) (p : ℕ) (r : Manager × Stopped) : Type 0 where
  pub terminal : TerminalInfo Launched
  pub answer : r.1 ≡ stopped (some terminal)
  pub reason : terminal.stop_reason ≡ some why
  pub dead : has_pid p r.0.live ≡ false
  pub gone : lookup id r.0.supervisor.running ≡ none
  pub kept : lookup id r.0.supervisor.terminated ≡ some terminal
  pub again : (o : Stop) → stop_instance id o r.0 ≡ (r.0, already_stopped (some terminal))

end_stop_lem :
    (id : String) (o : Stop) (info : Info) (m : Manager) {x : Info} {p : ℕ}
    → lookup id m.supervisor.running ≡ some x
    → x.process ≡ some p
    → info.process ≡ some p
    → x.stop_reason ≡ some o.reason
    → IsStopped id o.reason p (end_stop id o info m)
unfolding end_stop stop_instance
end_stop_lem id o info m {x = x} {p = p} e q q' reason =
    let live = without info.process m.live in
    let (y, found, same, kept) = set_observation_keeps id o.later m.supervisor e in
    let dead : has_pid p live ≡ false = rw q' (ground (arith, has_pid-select p p m.live)) in
    let (t, seen, because, gone, stays) =
      observe_gone o.code live id o.now (set_observation id o.later m.supervisor) found (same ∙ q)
        dead in
    record {
      terminal = t;
      answer = ap (λ z. stopped z) seen;
      reason = because ∙ kept ∙ reason;
      dead = dead;
      gone = gone;
      kept = stays;
      again = λ o'. ground (arith, gone, stays);
    }

-- A stop of an instance whose process ends in time: the process is gone, the instance runs no more, the
-- answer is how it ended, with the reason of the stop; and any later stop changes nothing and answers
-- with the same end.
pub stop_instance_ends :
    (id : String) (o : Stop) (m : Manager) {info : Info} {p : ℕ}
    → lookup id m.supervisor.running ≡ some info
    → info.process ≡ some p
    → o.ending ≡ ends
    → IsStopped id o.reason p (stop_instance id o m)
unfolding stop_instance
stop_instance_ends id o m {info = info} e q ending =
    let (x, found, same, reason) = begin_stop_lem id o info m e in
    rw (e, stop_instance, ending)
      (end_stop_lem id o info (begin_stop id o info m) found (same ∙ q) q reason)

start_free :
    (id : String) (a : Start) (k : Manager)
    → is_running id k ≡ false
    → a.ports ≡ some []
    → start_instance id a k ≡ (launch id a k, started a.pid)
unfolding start_instance
start_free id a k idle free = rw (idle, start_instance, free) refl

restart_after_stop :
    (id : String) (o : Stop) (a : Start) (m : Manager) {t : Option (TerminalInfo Launched)}
    → (stop_instance id o m).1 ≡ stopped t
    → is_running id (stop_instance id o m).0 ≡ false
    → a.ports ≡ some []
    → a.before_start ≡ true
    → restart_instance id o a m ≡ (launch id a (stop_instance id o m).0, restarted (started a.pid))
unfolding restart_instance start_again
restart_after_stop id o a m e idle free before =
    rw (e, restart_instance, before, start_free id a (stop_instance id o m).0 idle free) refl

-- What an instance is after it was launched.
pub record Runs (id command : String) (a : Start) (m : Manager) : Type 0 where
  pub lives : is_running id m ≡ true
  pub process : process_of id m.supervisor ≡ some a.pid
  pub executed : already_executed_command id (some command) m ≡ some a.pid

pub launch-Runs :
    (id command : String) (a : Start) (k : Manager)
    → a.launched.command_id ≡ some command
    → is_empty command ≡ false
    → Runs id command a (launch id a k)
unfolding launch register is_running already_executed_command any
launch-Runs id command a k c some_text =
    let found = lookup-insert id id (launched_info a) k.supervisor.running in
    record {
      lives = ground (arith, found, str_eq_refl id);
      process = ground (arith, found, str_eq_refl id);
      executed = ground (arith, found, str_eq_refl id, c, some_text, str_eq_refl command);
    }

idle_lem :
    (id : String) (k : Manager) → lookup id k.supervisor.running ≡ none → is_running id k ≡ false
unfolding is_running
idle_lem id k e = rw (e, is_running) refl

-- A restart of a running instance, where its process ends in time, the ports are free and the
-- callback before the start returns: the old process is gone, the new one is that of the instance,
-- and the command that the start belongs to counts as executed.
pub restart_instance_replaces :
    (id command : String) (o : Stop) (a : Start) (m : Manager) {info : Info} {p : ℕ}
    → lookup id m.supervisor.running ≡ some info
    → info.process ≡ some p
    → o.ending ≡ ends
    → a.ports ≡ some []
    → a.before_start ≡ true
    → a.launched.command_id ≡ some command
    → is_empty command ≡ false
    → (a.pid == p) ≡ false
    → let r = restart_instance id o a m in
      (r.1 ≡ restarted (started a.pid)) × (has_pid p r.0.live ≡ false) × Runs id command a r.0
unfolding launch any
restart_instance_replaces id command o a m {p = p} e q ending free before c some_text other =
    let s = stop_instance_ends id o m e q ending in
    let k = (stop_instance id o m).0 in
    rw (restart_after_stop id o a m s.answer (idle_lem id k s.gone) free before)
      (refl, ground (arith, s.dead, other), launch-Runs id command a k c some_text)
