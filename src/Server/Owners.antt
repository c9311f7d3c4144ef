-- ===== src/Server/Owners.antt =====
-- No server is lost: the operations of the manager, in any order, keep every living process the
-- process of one running instance.
use pitlane_agent.Common.{
  ℕ, String, ◌≡◌, refl, sym, ◌∙◌, ◌⊎◌, inl, inr, Option, none, some, true, false, List, [], ◌∷◌,
  arith, Option-cases, Bool-cases, eq_iff, str_eq, ◌==◌, any, if◌then◌else◌, str_eq_refl,
}
use pitlane_agent.Common.Int.{ℤ}
use pitlane_agent.Common.Dict.{lookup, lookup-insert}
use pitlane_agent.Runtime.Supervisor.{TerminalInfo, register, observe_exit, forget}
use pitlane_agent.Server.Ports.{Conflict}
use pitlane_agent.Server.Instances.{
  Launched, Info, Manager, has_pid, poll, is_running, Start, launched_info, launch, start_instance,
  Ending, ends, outlives, Stop, set_observation, without, begin_stop, end_stop, stop_instance,
  start_again, restart_instance, forget_instance_runtime, get_instance_status, stopped,
  already_stopped, raised, Stopped,
}
use pitlane_agent.Server.Orphans.{
  process_of, IsOwned, Shrinks, Shrinks-IsOwned, Shrinks-trans, same-Shrinks,
  set_observation-Shrinks, request_stop-Shrinks, observe_exit-Shrinks, without-Shrinks,
}

-- No instance has had this process yet.
pub record IsNew (p : ℕ) (m : Manager) : Type 0 where
  pub unborn : has_pid p m.live ≡ false
  pub unused : (id : String) → process_of id m.supervisor ≡ some p → ⊥

abbrev pub Owned : Manager → Type 0
Owned m = IsOwned m.supervisor m.live

abbrev Falls : Manager → Manager → Type 0
Falls m n = Shrinks m.supervisor m.live n.supervisor n.live

-- One step: an operation, or a server that ends on its own.
pub data Step (m : Manager) : Manager → Type 0 where
  by_start : (id : String) (a : Start) → IsNew a.pid m → Step m (start_instance id a m).0
  by_stop : (id : String) (o : Stop) → Step m (stop_instance id o m).0
  by_restart :
      (id : String) (o : Stop) (a : Start)
      → IsNew a.pid (stop_instance id o m).0
      → Step m (restart_instance id o a m).0
  by_forget :
      (id now : String) (code : ℕ → Option ℤ) → Step m (forget_instance_runtime id now code m).0
  by_status : (id now : String) (code : ℕ → Option ℤ) → Step m (get_instance_status id now code m).0
  by_exit : (p : ℕ) → Step m (record m { live = without (some p) m.live })

pub data Reach (m : Manager) : Manager → Type 0 where
  here : Reach m m
  next : {n k : Manager} → Reach m n → Step n k → Reach m k

pub Stopped-cases :
    (r : Stopped)
    → (r ≡ raised)
      ⊎ ((x : Option (TerminalInfo Launched)) × ((r ≡ stopped x) ⊎ (r ≡ already_stopped x)))
Stopped-cases raised = inl refl
Stopped-cases (stopped x) = inr (x, inl refl)
Stopped-cases (already_stopped x) = inr (x, inr refl)

Ending-cases : (e : Ending) → (e ≡ ends) ⊎ (e ≡ outlives)
Ending-cases ends = inl refl
Ending-cases outlives = inr refl

pub Ports-cases :
    (x : Option (List Conflict))
    → (x ≡ none) ⊎ ((x ≡ some []) ⊎ ((c : Conflict) × ((cs : List Conflict) × (x ≡ some (c ∷ cs)))))
Ports-cases none = inl refl
Ports-cases (some []) = inr (inl refl)
Ports-cases (some (c ∷ cs)) = inr (inr (c, (cs, refl)))

stay : (m : Manager) → Falls m m
stay m = same-Shrinks m.supervisor m.supervisor m.live (λ j. refl)

begin_stop-Falls :
    (id : String) (o : Stop) (info : Info) (m : Manager) → Falls m (begin_stop id o info m)
unfolding begin_stop
begin_stop-Falls id o info m =
    Shrinks-trans (set_observation-Shrinks id o.before m.supervisor m.live)
      (request_stop-Shrinks id o.reason o.now (set_observation id o.before m.supervisor) m.live)

end_stop-Falls :
    (id : String) (o : Stop) (info : Info) (m : Manager) → Falls m (end_stop id o info m).0
unfolding end_stop
end_stop-Falls id o info m =
    let live = without info.process m.live in
    Shrinks-trans (without-Shrinks info.process m.supervisor m.live) (
      Shrinks-trans (set_observation-Shrinks id o.later m.supervisor live)
        (observe_exit-Shrinks o.code id none o.now (set_observation id o.later m.supervisor) live))

stop_instance-Falls : (id : String) (o : Stop) (m : Manager) → Falls m (stop_instance id o m).0
unfolding stop_instance
stop_instance-Falls id o m = elim (Option-cases (lookup id m.supervisor.running)) [
  | inl n ↦ rw (n, stop_instance) (stay m)
  | inr (info, e) ↦
      let begun = begin_stop-Falls id o info m in
      elim (Ending-cases o.ending) [
        | inl x ↦
            rw (e, stop_instance, x)
              (Shrinks-trans begun (end_stop-Falls id o info (begin_stop id o info m)))
        | inr x ↦ rw (e, stop_instance, x) begun
      ]
]

forget-Falls :
    (id now : String) (code : ℕ → Option ℤ) (m : Manager)
    → Falls m (forget_instance_runtime id now code m).0
unfolding forget_instance_runtime forget
forget-Falls id now code m = elim (Bool-cases (is_running id m)) [
  | inl t ↦ rw (t, forget_instance_runtime) (stay m)
  | inr f ↦
      let s = (observe_exit (poll code m.live) id none now m.supervisor).0 in
      rw (f, forget_instance_runtime)
        (Shrinks-trans (observe_exit-Shrinks code id none now m.supervisor m.live)
          (same-Shrinks s (forget id s).0 m.live (λ j. ground arith)))
]

status-Falls :
    (id now : String) (code : ℕ → Option ℤ) (m : Manager)
    → Falls m (get_instance_status id now code m).0
unfolding get_instance_status
status-Falls id now code m = elim (Option-cases (lookup id m.supervisor.running)) [
  | inl n ↦ rw (n, get_instance_status) (stay m)
  | inr (info, e) ↦ elim (Option-cases info.process) [
    | inl n ↦ rw (e, n, get_instance_status) (stay m)
    | inr (p, q) ↦ elim (Bool-cases (has_pid p m.live)) [
      | inl t ↦ rw (e, q, get_instance_status, t) (stay m)
      | inr f ↦
          rw (e, q, get_instance_status, f)
            (observe_exit-Shrinks code id none now m.supervisor m.live)
    ]
  ]
]

module _ (id : String) (a : Start) (m : Manager) where
  pub process_launched :
      (j : String)
      → process_of j (launch id a m).supervisor
        ≡ (if str_eq id j then some a.pid else process_of j m.supervisor)
  unfolding launch register
  process_launched j = ground (arith, lookup-insert id j (launched_info a) m.supervisor.running)

  -- A living process of the old state is not that of the instance that is started.
  lives_on :
      (p : ℕ) (j : String)
      → is_running id m ≡ false
      → process_of j m.supervisor ≡ some p
      → has_pid p m.live ≡ true
      → str_eq id j ≡ false
  unfolding is_running
  lives_on p j idle e l = elim (Bool-cases (str_eq id j)) [
    | inr f ↦ f
    | inl t ↦ absurd (ground (arith, idle, e, l, t, eq_iff id j))
  ]

  launched_before :
      (p : ℕ) (j : String)
      → IsNew a.pid m
      → process_of j (launch id a m).supervisor ≡ some p
      → ((a.pid ≡ p) × (id ≡ j)) ⊎ ((process_of j m.supervisor ≡ some p) × ((a.pid == p) ≡ false))
  launched_before p j new e = elim (Bool-cases (str_eq id j)) [
    | inl t ↦ inl (ground (arith, t, e, process_launched j), ground (arith, t, eq_iff id j))
    | inr f ↦
        let before : process_of j m.supervisor ≡ some p =
          ground (arith, f, e, process_launched j) in
        inr (
          before,
          elim (Bool-cases (a.pid == p)) [
            | inl t ↦ absurd (new.unused j (ground (arith, t, before)))
            | inr n ↦ n
          ],
        )
  ]

  -- The instance that is started takes no process from another.
  launch-Owned : is_running id m ≡ false → IsNew a.pid m → Owned m → Owned (launch id a m)
  unfolding launch any
  launch-Owned idle new v = record {
    owner = λ p l. elim (Bool-cases (a.pid == p)) [
      | inl same ↦ (id, ground (arith, same, process_launched id, str_eq_refl id))
      | inr other ↦
          let (j, e) = v.owner p (ground (arith, l, other)) in
          (j, ground (arith, e, process_launched j, lives_on p j idle e (ground (arith, l, other))))
    ];
    single = λ p i j l x y. elim (launched_before p i new x) [
      | inl (s, e) ↦ elim (launched_before p j new y) [
        | inl (s', e') ↦ sym e ∙ e'
        | inr (before, other) ↦ absurd (ground (arith, s, other))
      ]
      | inr (before, other) ↦ elim (launched_before p j new y) [
        | inl (s', e') ↦ absurd (ground (arith, s', other))
        | inr (before', other') ↦ v.single p i j (ground (arith, l, other)) before before'
      ]
    ];
  }

start-Owned :
    (id : String) (a : Start) (m : Manager)
    → IsNew a.pid m
    → Owned m
    → Owned (start_instance id a m).0
unfolding start_instance
start-Owned id a m new v = elim (Bool-cases (is_running id m)) [
  | inl t ↦ rw (t, start_instance) v
  | inr idle ↦ elim (Ports-cases a.ports) [
    | inl n ↦ rw (idle, start_instance, n) v
    | inr (inl e) ↦ rw (idle, start_instance, e) (launch-Owned id a m idle new v)
    | inr (inr (c, (cs, e))) ↦ rw (idle, start_instance, e) v
  ]
]

start_again-Owned :
    (id : String) (a : Start) (m : Manager) → IsNew a.pid m → Owned m → Owned (start_again id a m).0
unfolding start_again
start_again-Owned id a m new v = elim (Bool-cases a.before_start) [
  | inl t ↦ rw t (start-Owned id a m new v)
  | inr f ↦ rw f v
]

Step-Owned : {m n : Manager} → Owned m → Step m n → Owned n
unfolding restart_instance
Step-Owned {m = m} v (by_start id a new) = start-Owned id a m new v
Step-Owned {m = m} v (by_stop id o) = Shrinks-IsOwned (stop_instance-Falls id o m) v
Step-Owned {m = m} v (by_restart id o a new) =
    let between = Shrinks-IsOwned (stop_instance-Falls id o m) v in
    elim (Stopped-cases (stop_instance id o m).1) [
      | inl x ↦ rw (x, restart_instance) between
      | inr (t, inl x) ↦
          rw (x, restart_instance) (start_again-Owned id a (stop_instance id o m).0 new between)
      | inr (t, inr x) ↦
          rw (x, restart_instance) (start_again-Owned id a (stop_instance id o m).0 new between)
    ]
Step-Owned {m = m} v (by_forget id now code) = Shrinks-IsOwned (forget-Falls id now code m) v
Step-Owned {m = m} v (by_status id now code) = Shrinks-IsOwned (status-Falls id now code m) v
Step-Owned {m = m} v (by_exit p) = Shrinks-IsOwned (without-Shrinks (some p) m.supervisor m.live) v

-- However instances are started, stopped, restarted, forgotten and asked for, with stops that fail and
-- servers that end on their own in between: if every start gets a process that was not there before,
-- every living process is the process of exactly one running instance.
pub Reach-Owned : {m n : Manager} → Owned m → Reach m n → Owned n
Reach-Owned v here = v
Reach-Owned v (next r step) = Step-Owned (Reach-Owned v r) step
