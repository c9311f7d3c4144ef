-- ===== src/Coordinator/Schedule.antt =====
-- Commands are queued once: the coordinator and its executor as one system.
use pitlane_agent.Common.{
  ℕ, String, ◌≡◌, sym, ap, ◌∙◌, Bool, true, List, [], ◌∷◌, ◌++◌, arith, any, refl,
}
use pitlane_agent.Common.Json.{Fields}
use pitlane_agent.Journal.Types.{Command}
use pitlane_agent.Coordinator.State.{Environment, Key, Coordinator, is_member, discard, unschedule}
use pitlane_agent.Coordinator.Operations.{schedule, receive, confirm, replay_record, replay_pending}
use pitlane_agent.Coordinator.Keys.{
  IsDistinct, IsDistinct-discard, member-discard_iff, member_same, member_middle, discard_middle,
  key_eq_sym,
}
use pitlane_agent.Coordinator.Workers.{Phase, begun, leaving, advance, phase_after, Quiet-advance}
use pitlane_agent.Coordinator.Jobs.{
  IsQueue, Keeps-Quiet, Keeps-receive, Keeps-confirm, replay_pending-IsQueue, Keeps-replay_record,
  Keeps-schedule,
}

-- A worker: the key of its job, and where it is.
abbrev pub Worker : Type 0
Worker = Key × Phase

-- The coordinator with the workers that have taken a job.
pub record Pool : Type 0 where
  pub coordinator : Coordinator
  pub running : List Worker

unfoldable pub keys : List Worker → List Key
keys [] = []
keys ((k, p) ∷ ws) = k ∷ keys ws

-- A worker takes a waiting job.
unfoldable pub take_task : Key → Pool → Pool
take_task k w = record {
  coordinator = record w.coordinator { tasks = discard k w.coordinator.tasks };
  running = (k, begun) ∷ w.running;
}

-- A worker, between others, makes its next step.
unfoldable pub work :
    Environment → String → List Worker → Key → Phase → List Worker → Coordinator → Pool
unfolding advance
work env now before k p behind s =
    let r = advance env k.0 k.1 now p s in
    record { coordinator = r.1; running = before ++ (k, phase_after r.0) ∷ behind }

-- The messages of the hubs, the replays and the workers. A method that schedules reads the row, and for a
-- replay whether the command is scheduled, some time before: `by_schedule` and `by_record` take any
-- row and any reading. A worker makes one step at a time; the lock of its target, which excludes
-- some of these orders, is left out.
pub data Action (env : Environment) (w : Pool) : Pool → Type 0 where
  by_receive :
      (hub : String) (m : Fields) (now : String)
      → Action env w (record w { coordinator = (receive env hub m now w.coordinator).1 })
  by_confirm :
      (hub id status now : String)
      → Action env w (record w { coordinator = (confirm hub id status now w.coordinator).1 })
  by_replay :
      (hub : String) (limit : ℕ) (now : String)
      → Action env w (record w { coordinator = (replay_pending env hub limit now w.coordinator).1 })
  by_record :
      (hub now : String) (r : Command) (scheduled : Bool)
      → Action env w
          (record w { coordinator = (replay_record env hub now r scheduled w.coordinator).1 })
  by_schedule :
      (hub : String) (r : Command)
      → Action env w (record w { coordinator = (schedule env hub r w.coordinator).1 })
  by_take : (k : Key) → is_member k w.coordinator.tasks ≡ true → Action env w (take_task k w)
  by_work :
      (now : String) (before : List Worker) (k : Key) (p : Phase) (behind : List Worker)
      → w.running ≡ before ++ (k, p) ∷ behind
      → Action env w (work env now before k p behind w.coordinator)
  by_leave :
      (before : List Worker) (k : Key) (behind : List Worker)
      → w.running ≡ before ++ (k, leaving) ∷ behind
      → Action env w
          (record { coordinator = unschedule k w.coordinator; running = before ++ behind })

pub data Reach (env : Environment) (w : Pool) : Pool → Type 0 where
  here : Reach env w w
  next : {t u : Pool} → Reach env w t → Action env t u → Reach env w u

abbrev Sound : Pool → Type 0
Sound w = IsQueue (keys w.running) w.coordinator

take_task-IsQueue :
    (k : Key) (w : Pool) → is_member k w.coordinator.tasks ≡ true → Sound w → Sound (take_task k w)
unfolding take_task keys any
take_task-IsQueue k w m v = record {
  covers = λ j. ground (
    arith,
    m,
    v.covers j,
    member-discard_iff j k w.coordinator.tasks,
    key_eq_sym j k,
    member_same k j w.coordinator.tasks,
  );
  waits_once = IsDistinct-discard k w.coordinator.tasks v.waits_once;
  runs_once = (ground (arith, v.apart k, m), v.runs_once);
  apart =
      λ j. ground (arith, v.apart j, member-discard_iff j k w.coordinator.tasks, key_eq_sym j k);
}

keys-append : (xs ys : List Worker) → keys (xs ++ ys) ≡ keys xs ++ keys ys
unfolding keys
keys-append [] ys = refl
keys-append ((k, p) ∷ xs) ys = ap (λ ks. k ∷ ks) (keys-append xs ys)

-- The keys do not depend on where the workers are.
keys_middle :
    (xs : List Worker) (k : Key) (p q : Phase) (ys : List Worker)
    → keys (xs ++ (k, p) ∷ ys) ≡ keys (xs ++ (k, q) ∷ ys)
unfolding keys
keys_middle [] k p q ys = refl
keys_middle ((j, r) ∷ xs) k p q ys = ap (λ ks. j ∷ ks) (keys_middle xs k p q ys)

work-IsQueue :
    (env : Environment) (now : String) (before : List Worker) (k : Key) (p : Phase)
    (behind : List Worker) (w : Pool)
    → w.running ≡ before ++ (k, p) ∷ behind
    → Sound w
    → Sound (work env now before k p behind w.coordinator)
unfolding work
work-IsQueue env now before (hub, id) p behind w e v =
    let q = phase_after (advance env hub id now p w.coordinator).0 in
    let same : keys w.running ≡ keys (before ++ ((hub, id), q) ∷ behind) =
      ap keys e ∙ keys_middle before (hub, id) p q behind in
    rw (← same) (
      (Keeps-Quiet (advance env hub id now p) (Quiet-advance env hub id now p)).at (keys w.running)
        w.coordinator v)

leave-IsQueue :
    (before : List Worker) (k : Key) (behind : List Worker) (w : Pool)
    → w.running ≡ before ++ (k, leaving) ∷ behind
    → Sound w
    → IsQueue (keys (before ++ behind)) (unschedule k w.coordinator)
unfolding keys
leave-IsQueue before k behind w e v =
    let whole : keys w.running ≡ keys before ++ k ∷ keys behind =
      ap keys e ∙ keys-append before ((k, leaving) ∷ behind) in
    let runs : IsDistinct (keys before ++ k ∷ keys behind) = rw whole at v.runs_once in
    let left : discard k (keys w.running) ≡ keys (before ++ behind) =
      ap (discard k) whole
      ∙ discard_middle k (keys before) (keys behind) runs
      ∙ sym (keys-append before behind) in
    let here_it_runs : is_member k (keys w.running) ≡ true =
      rw whole (member_middle k (keys before) (keys behind)) in
    rw (← left) (record {
      covers = λ j. ground (
        arith,
        v.covers j,
        v.apart k,
        here_it_runs,
        member-discard_iff j k w.coordinator.scheduled,
        member-discard_iff j k (keys w.running),
        member_same k j w.coordinator.tasks,
      );
      waits_once = v.waits_once;
      runs_once = IsDistinct-discard k (keys w.running) v.runs_once;
      apart = λ j. ground (arith, v.apart j, member-discard_iff j k (keys w.running));
    })

Action-IsQueue : (env : Environment) {w u : Pool} → Sound w → Action env w u → Sound u
Action-IsQueue env {w} v (by_receive hub m now) =
    (Keeps-receive env hub m now).at (keys w.running) w.coordinator v
Action-IsQueue env {w} v (by_confirm hub id status now) =
    (Keeps-confirm hub id status now).at (keys w.running) w.coordinator v
Action-IsQueue env {w} v (by_replay hub limit now) =
    replay_pending-IsQueue env hub limit now (keys w.running) w.coordinator v
Action-IsQueue env {w} v (by_record hub now r b) =
    (Keeps-replay_record env hub now r b).at (keys w.running) w.coordinator v
Action-IsQueue env {w} v (by_schedule hub r) =
    (Keeps-schedule env hub r).at (keys w.running) w.coordinator v
Action-IsQueue env {w} v (by_take k m) = take_task-IsQueue k w m v
Action-IsQueue env {w} v (by_work now before k p behind e) =
    work-IsQueue env now before k p behind w e v
Action-IsQueue env {w} v (by_leave before k behind e) = leave-IsQueue before k behind w e v

-- Whatever the hubs send, however often the acknowledgements are replayed, also between the steps of the
-- workers and from rows that were read before them: a command is scheduled exactly while its job
-- waits or runs, no command has two jobs that wait or two that run, and none has one of each.
pub Reach-IsQueue :
    (env : Environment) {w u : Pool}
    → IsQueue (keys w.running) w.coordinator
    → Reach env w u
    → IsQueue (keys u.running) u.coordinator
Reach-IsQueue env v here = v
Reach-IsQueue env v (next r a) = Action-IsQueue env (Reach-IsQueue env v r) a
