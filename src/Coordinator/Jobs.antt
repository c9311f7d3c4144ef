-- ===== src/Coordinator/Jobs.antt =====
-- The jobs of the scheduled commands: what the methods of the coordinator keep of them.
use pitlane_agent.Common.{
  ℕ, String, ◌≡◌, Option, none, Bool, true, false, List, [], ◌∷◌, ◌++◌, ◌&&◌, ◌||◌, arith, any,
  if◌then◌else◌, Bool-cases, inl, inr, length,
}
use pitlane_agent.Common.Json.{Fields}
use pitlane_agent.Journal.Types.{Command, status_eq, received}
use pitlane_agent.Journal.Operations
use pitlane_agent.Coordinator.State.{
  Environment, Key, Coordinator, Outcome, returned, raised, M, ◌>>=◌, ◌>>◌, pure, after, is_member,
}
use pitlane_agent.Coordinator.Operations.{
  emit, schedule, receive, confirm, fail_interrupted, replay_record, replay_records, replay_pending,
  when, journal_receive, by_id,
}
use pitlane_agent.Coordinator.Keys.{
  IsDistinct, IsDistinct-append, discard-append, member-append_all, member_same, key_eq_sym,
}
use pitlane_agent.Coordinator.Queue.{Quiet, quiet_rules, Quiet-transact, Quiet-emit, Quiet-pure}

-- A command is scheduled exactly if its job waits or runs, and it has one job at most.
pub record IsQueue (running : List Key) (s : Coordinator) : Type 0 where
  pub covers : (k : Key) → is_member k s.scheduled ≡ (is_member k s.tasks || is_member k running)
  pub waits_once : IsDistinct s.tasks
  pub runs_once : IsDistinct running
  pub apart : (k : Key) → (is_member k s.tasks && is_member k running) ≡ false

-- The method keeps the queue well formed.
pub record Keeps {A : Type 0} (m : M A) : Type 0 where
  pub at : (running : List Key) (s : Coordinator) → IsQueue running s → IsQueue running (m s).1

pub Keeps-Quiet : {A : Type 0} (m : M A) → Quiet m → Keeps m
Keeps-Quiet m q = record {
  at = λ running s v.
      let (a, b) = q.at s in
      record {
        covers = λ k. rw (a, b) (v.covers k);
        waits_once = rw b v.waits_once;
        runs_once = v.runs_once;
        apart = λ k. rw b (v.apart k);
      };
}

Keeps-after :
    {A B : Type 0} (running : List Key) (o : Outcome A) (s : Coordinator) (f : A → M B)
    → ((a : A) → Keeps (f a))
    → IsQueue running s
    → IsQueue running (after (o, s) f).1
Keeps-after running (returned a) s f k v = (k a).at running s v
Keeps-after running (raised e) s f k v = v

Keeps-bind :
    {A B : Type 0} (m : M A) (f : A → M B) → Keeps m → ((a : A) → Keeps (f a)) → Keeps (m >>= f)
Keeps-bind m f q k = record {
  at = λ running s v. Keeps-after running (m s).0 (m s).1 f k (q.at running s v);
}

Keeps-then : {B : Type 0} (m : M (Unit {0})) (k : M B) → Keeps m → Keeps k → Keeps (m >> k)
Keeps-then m k q h = Keeps-bind m (λ _. k) q (λ _. h)

Keeps-when : (b : Bool) (m : M (Unit {0})) → Keeps m → Keeps (when b m)
Keeps-when true m k = k
Keeps-when false m k = Keeps-Quiet (pure tt) (Quiet-pure tt)

Keeps-if : {A : Type 0} (b : Bool) (m n : M A) → Keeps m → Keeps n → Keeps (if b then m else n)
Keeps-if true m n k h = k
Keeps-if false m n k h = h

Keeps-emit : (env : Environment) (r : Command) (d : Option Fields) → Keeps (emit env r d)
Keeps-emit env r d = Keeps-Quiet (emit env r d) (Quiet-emit env r d)

schedule-IsQueue :
    (env : Environment) (hub : String) (r : Command) (running : List Key) (s : Coordinator)
    → IsQueue running s
    → IsQueue running (schedule env hub r s).1
unfolding schedule any
schedule-IsQueue env hub r running s v =
    let key : Key = (hub, r.command_id) in
    elim (Bool-cases (is_member key s.scheduled)) [
      | inl t ↦ rw t v
      | inr n ↦ elim (Bool-cases env.submit) [
        | inl t ↦
            rw (n, t)
              (record {
                covers = λ k. ground (
                  arith,
                  v.covers k,
                  member-append_all k s.scheduled (key ∷ []),
                  member-append_all k s.tasks (key ∷ []),
                );
                waits_once =
                    IsDistinct-append key s.tasks v.waits_once (ground (arith, v.covers key, n));
                runs_once = v.runs_once;
                apart = λ k. ground (
                  arith,
                  v.apart k,
                  v.covers key,
                  n,
                  member-append_all k s.tasks (key ∷ []),
                  member_same key k running,
                  key_eq_sym k key,
                );
              })
        | inr f ↦
            rw (n, f)
              (record {
                covers = λ k. rw (discard-append key s.scheduled n) (v.covers k);
                waits_once = v.waits_once;
                runs_once = v.runs_once;
                apart = v.apart;
              })
      ]
    ]

pub Keeps-schedule : (env : Environment) (hub : String) (r : Command) → Keeps (schedule env hub r)
Keeps-schedule env hub r = record { at = schedule-IsQueue env hub r }

Keeps-journal_receive :
    (env : Environment) (hub : String) (m : Fields) (now : String)
    → Keeps (journal_receive env hub m now)
Keeps-journal_receive env hub m now =
    Keeps-Quiet (journal_receive env hub m now) (search quiet_rules)

ruleset keeps_rules = (
  Keeps-bind, Keeps-then, Keeps-when, Keeps-if, Keeps-emit, Keeps-schedule, Keeps-journal_receive,
)

pub Keeps-receive :
    (env : Environment) (hub : String) (m : Fields) (now : String) → Keeps (receive env hub m now)
unfolding receive
Keeps-receive env hub m now =
    Keeps-bind (journal_receive env hub m now) _ (Keeps-journal_receive env hub m now) (λ r.
      Keeps-then (emit env r none) _ (Keeps-emit env r none) (
        Keeps-then (when (status_eq r.status received) (schedule env hub r)) (pure r)
          (Keeps-when (status_eq r.status received) (schedule env hub r) (Keeps-schedule env hub r))
          (Keeps-Quiet (pure r) (Quiet-pure r))))

Keeps-fail_interrupted :
    (env : Environment) (hub id now : String) → Keeps (fail_interrupted env hub id now)
unfolding fail_interrupted
Keeps-fail_interrupted env hub id now = Keeps-Quiet _ (search quiet_rules depth 8)

pub Keeps-replay_record :
    (env : Environment) (hub now : String) (r : Command) (b : Bool)
    → Keeps (replay_record env hub now r b)
unfolding replay_record
Keeps-replay_record env hub now r b = search (keeps_rules, Keeps-fail_interrupted) depth 8

replay_records-IsQueue :
    (env : Environment) (hub now : String) (rs : List Command) (running : List Key)
    (s : Coordinator)
    → IsQueue running s
    → IsQueue running (replay_records env hub now rs s).1
unfolding replay_records
replay_records-IsQueue env hub now [] running s v = v
replay_records-IsQueue env hub now (r ∷ rs) running s v =
    (Keeps-then (replay_record env hub now r (is_member (hub, r.command_id) s.scheduled))
        (replay_records env hub now rs)
        (Keeps-replay_record env hub now r (is_member (hub, r.command_id) s.scheduled))
        (record { at = λ ks t w. replay_records-IsQueue env hub now rs ks t w })).at
      running s v

pub replay_pending-IsQueue :
    (env : Environment) (hub : String) (limit : ℕ) (now : String) (running : List Key)
    (s : Coordinator)
    → IsQueue running s
    → IsQueue running (replay_pending env hub limit now s).1
unfolding replay_pending
replay_pending-IsQueue env hub limit now running s v =
    let records = by_id [] (
      Operations.pending_acknowledgements s.journal hub limit
      ++ Operations.incomplete_commands s.journal hub limit) in
    (Keeps-bind (replay_records env hub now records) (λ _. pure (length records))
        (record { at = λ ks t w. replay_records-IsQueue env hub now records ks t w })
        (λ _. Keeps-Quiet (pure (length records)) (Quiet-pure (length records)))).at
      running s v

pub Keeps-confirm : (hub id status now : String) → Keeps (confirm hub id status now)
unfolding confirm
Keeps-confirm hub id status now =
    Keeps-Quiet _ (Quiet-transact (λ j. Operations.confirm j hub id status now))
