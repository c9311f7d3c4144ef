-- ===== src/Commands/Once.antt =====
-- A launch that is delivered again is not executed again.
use pitlane_agent.Common.{
  ℕ, String, ◌≡◌, refl, inl, inr, Bool, some, true, false, arith, Bool-cases, Option-cases,
}
use pitlane_agent.Common.Text.{is_empty}
use pitlane_agent.Common.Dict.{lookup}
use pitlane_agent.Common.Json.{Value, Fields, get, as_object}
use pitlane_agent.Config.Finalize.{Instance}
use pitlane_agent.Config.Prepare.{
  Prepared, prepared, bundle_invalid, ports_out_of_sync, failed, prepare_launch,
}
use pitlane_agent.Server.Instances.{
  Manager, has_pid, Start, Started, started, launch, start_instance, start_again, Stop,
  stop_instance, restart_instance, is_running, already_executed_command,
}
use pitlane_agent.Server.Owners.{Ports-cases, Stopped-cases}
use pitlane_agent.Server.Stops.{launch-Runs}
use pitlane_agent.Commands.Launch.{
  Agent, Surroundings, already_executed, answered, register, preempt, start_for, reply_of,
  launch_by_restart, launch_by_start, is_truthy, launch_prepared, launch_instance_command,
}

-- A start that answers with a process has launched it.
start_inv :
    (id : String) (a : Start) (m : Manager) {p : ℕ}
    → (start_instance id a m).1 ≡ started p
    → ((start_instance id a m).0 ≡ launch id a m) × (a.pid ≡ p)
unfolding start_instance
start_inv id a m e = elim (Bool-cases (is_running id m)) [
  | inl t ↦ absurd (ground (arith, e, t))
  | inr f ↦ elim (Ports-cases a.ports) [
    | inl n ↦ absurd (ground (arith, e, f, n))
    | inr (inl free) ↦ (rw (f, start_instance, free) refl, ground (arith, e, f, free))
    | inr (inr (c, (cs, n))) ↦ absurd (ground (arith, e, f, n))
  ]
]

-- The command counts as executed by the process.
abbrev Executed : String → String → ℕ → Manager → Type 0
Executed id command p m = already_executed_command id (some command) m ≡ some p

start-Executed :
    (id command : String) (a : Start) (m : Manager) {p : ℕ}
    → a.launched.command_id ≡ some command
    → is_empty command ≡ false
    → (start_instance id a m).1 ≡ started p
    → Executed id command p (start_instance id a m).0
start-Executed id command a m c n e =
    let (same, pid) = start_inv id a m e in
    rw (same, ← pid) ((launch-Runs id command a m c n).executed)

again-Executed :
    (id command : String) (a : Start) (m : Manager) {p : ℕ}
    → a.launched.command_id ≡ some command
    → is_empty command ≡ false
    → reply_of (start_again id a m).1 ≡ answered (started p)
    → Executed id command p (start_again id a m).0
unfolding start_again
again-Executed id command a m {p = p} c n e = elim (Bool-cases a.before_start) [
  | inr f ↦ absurd (ground (arith, e, f))
  | inl t ↦
      let it : answered (start_instance id a m).1 ≡ answered (started p) = rw t at e in
      rw t (start-Executed id command a m c n (answered_injective it))
]
  where
    answered_injective : {r q : Started} → answered r ≡ answered q → r ≡ q
    answered_injective e = cc

restart-Executed :
    (id command : String) (o : Stop) (a : Start) (m : Manager) {p : ℕ}
    → a.launched.command_id ≡ some command
    → is_empty command ≡ false
    → reply_of (restart_instance id o a m).1 ≡ answered (started p)
    → Executed id command p (restart_instance id o a m).0
unfolding restart_instance
restart-Executed id command o a m c n e = elim (Stopped-cases (stop_instance id o m).1) [
  | inl x ↦ absurd (ground (arith, e, x))
  | inr (t, inl x) ↦
      rw (x, restart_instance)
        (again-Executed id command a (stop_instance id o m).0 c n (rw (x, restart_instance) at e))
  | inr (t, inr x) ↦
      rw (x, restart_instance)
        (again-Executed id command a (stop_instance id o m).0 c n (rw (x, restart_instance) at e))
]

by_start-Executed :
    (x : Surroundings) (i : Instance) (command : String) (policy : Bool) (launch_id : Value)
    (config : Fields) (s : Agent) {p : ℕ}
    → is_empty command ≡ false
    → (launch_by_start x i (some command) policy launch_id config s).1 ≡ answered (started p)
    → Executed i.id command p
        (launch_by_start x i (some command) policy launch_id config s).0.manager
unfolding launch_by_start start_for
by_start-Executed x i command policy launch_id config s {p = p} n e =
    let a = start_for x (some command) policy launch_id true in
    elim (Bool-cases (register x i launch_id config s.spool).1) [
      | inr f ↦ absurd (ground (arith, e, f))
      | inl t ↦
          let it : answered (start_instance i.id a s.manager).1 ≡ answered (started p) =
            rw t at e in
          rw (t, launch_by_start)
            (start-Executed i.id command a s.manager refl n (answered_injective it))
    ]
  where
    answered_injective : {r q : Started} → answered r ≡ answered q → r ≡ q
    answered_injective e = cc

prepared-Executed :
    (x : Surroundings) (i : Instance) (command : String) (body : Fields) (s : Agent) (r : Prepared)
    {p : ℕ}
    → is_empty command ≡ false
    → (launch_prepared x i (some command) body s r).1 ≡ answered (started p)
    → Executed i.id command p (launch_prepared x i (some command) body s r).0.manager
unfolding launch_by_restart start_for
prepared-Executed x i command body s (prepared config policy hash) n e =
    elim (Bool-cases (is_truthy (get body "restart_if_running"))) [
      | inl t ↦
          let done = (register x i (get body "launch_id") config s.spool).1 in
          let a = start_for x (some command) policy (get body "launch_id") done in
          rw t (restart-Executed i.id command (preempt x.stop) a s.manager refl n (rw t at e))
      | inr f ↦
          rw f (by_start-Executed x i command policy (get body "launch_id") config s n (rw f at e))
    ]
prepared-Executed x i command body s bundle_invalid n e = absurd (cc)
prepared-Executed x i command body s ports_out_of_sync n e = absurd (cc)
prepared-Executed x i command body s failed n e = absurd (cc)

-- What the lookup of an executed command reads.
Executed-later :
    (id command : String) (p : ℕ) (m n : Manager)
    → Executed id command p m
    → lookup id n.supervisor.running ≡ lookup id m.supervisor.running
    → has_pid p n.live ≡ true
    → Executed id command p n
unfolding already_executed_command
Executed-later id command p m n e same lives =
    elim (Option-cases (lookup id m.supervisor.running)) [
      | inl a ↦ absurd (ground (arith, e, a))
      | inr (info, a) ↦ elim (Option-cases info.process) [
        | inl b ↦ absurd (ground (arith, e, a, b))
        | inr (q, b) ↦ elim (Option-cases info.payload.command_id) [
          | inl c ↦ absurd (ground (arith, e, a, b, c))
          | inr (k, c) ↦ ground (arith, e, a, b, c, same, lives)
        ]
      ]
    ]

-- A launch that answered with a new process, if it is delivered again with the same command, in any later
-- state in which the instance is still the one that was started and its process lives, whatever it
-- meets then and whatever else it carries, answers with that process and changes nothing: no second
-- server is started, no file or spool is touched.
pub launch_instance_command_once :
    (x y : Surroundings) (i : Instance) (command : String) (body body' : Fields) (s u : Agent)
    {p : ℕ}
    → is_empty command ≡ false
    → (launch_instance_command x i (some command) body s).1 ≡ answered (started p)
    → (let t = (launch_instance_command x i (some command) body s).0 in
        lookup i.id u.manager.supervisor.running ≡ lookup i.id t.manager.supervisor.running)
    → has_pid p u.manager.live ≡ true
    → launch_instance_command y i (some command) body' u ≡ (u, already_executed p)
unfolding launch_instance_command
launch_instance_command_once x y i command body body' s u {p = p} n e same lives =
    let t = (launch_instance_command x i (some command) body s).0 in
    let executed : Executed i.id command p t.manager =
      elim (Option-cases (already_executed_command i.id (some command) s.manager)) [
        | inr (q, h) ↦ absurd (ground (arith, e, h))
        | inl none_yet ↦ elim (Option-cases (as_object (get body "runtime_config"))) [
          | inl m ↦ absurd (ground (arith, e, none_yet, m))
          | inr (config, h) ↦
              rw (none_yet, launch_instance_command, h)
                (prepared-Executed x i command body _
                  (prepare_launch x.encodes x.local i body config s.files).1 n
                  (rw (none_yet, launch_instance_command, h) at e))
        ]
      ] in
    let later = Executed-later i.id command p t.manager u.manager executed same lives in
    rw (later, launch_instance_command) refl
