-- ===== src/Coordinator/Workers.antt =====
-- agent/services/durable_command_executor.py: `_execute` in the steps between which other threads act.
use pitlane_agent.Common.{ℕ, zero, suc, String, ◌≡◌, refl, Option, none, some, ap, sym}
use pitlane_agent.Common.Int.{pos}
use pitlane_agent.Common.Json.{Fields, object}
use pitlane_agent.Journal.Types.{failed, Command}
use pitlane_agent.Journal.Operations
use pitlane_agent.Coordinator.State.{
  Environment, Coordinator, Outcome, returned, raised, M, ◌>>=◌, ◌>>◌, pure, transact, query,
  swallow, after, unschedule, finally_discard,
}
use pitlane_agent.Coordinator.Operations.{
  emit, after_terminal, Verdict, run_command, mark_verdict, acknowledge, stale_response,
  refuse_stale, run_current, dispatch, execute,
}
use pitlane_agent.Coordinator.Queue.{Quiet, quiet_rules}

-- Where a worker is: it has begun; it has the row, and takes the lock of its target; the row is
-- superseded by a fence, or current; it is marked as executing; the start is acknowledged; the
-- command has been executed; its verdict, or its refusal, is journaled; the body is done.
pub data Phase : Type 0 where
  begun : Phase
  loaded : Command → Phase
  superseded : Command → ℕ → Phase
  current : Phase
  marked : Command → Phase
  acknowledged : Command → Phase
  computed : Verdict → Phase
  settled : Command → Fields → Phase
  refused : Command → Phase
  leaving : Phase

abbrev pub judged : Command → Option ℕ → Phase
judged r none = current
judged r (some last) = superseded r last

-- One step of the body of `_execute`, and where it leads if it does not raise.
unfoldable pub advance : Environment → String → String → String → Phase → M Phase
unfolding emit after_terminal run_command
advance env hub id now begun = do r ← query (λ j. Operations.get j hub id); pure (loaded r)
advance env hub id now (loaded r) = do
  superseding ← query (λ j. Operations.superseding_fence j hub id)
  pure (judged r superseding)
advance env hub id now (superseded r last) = do
  let message = env.superseded_message r.fence last
  r' ← transact (λ j.
      Operations.mark_terminal env.python j hub id failed (object (stale_response message last))
        (pos 409) (some "stale_fence") (some message) now)
  pure (refused r')
advance env hub id now current = do
  r ← transact (λ j. Operations.mark_executing j hub id now)
  pure (marked r)
advance env hub id now (marked r) = do emit env r none; pure (acknowledged r)
advance env hub id now (acknowledged r) = do v ← run_command env id r; pure (computed v)
advance env hub id now (computed v) = do
  r ← mark_verdict env hub id v now
  pure (settled r v.response)
advance env hub id now (settled r response) = do acknowledge env r response; pure leaving
advance env hub id now (refused r) = do
  swallow (do
    response ← query (λ j. Operations.response env.python r)
    emit env r (some response)
    after_terminal env)
  pure leaving
advance env hub id now leaving = pure leaving

-- An exception leads to the `finally`.
abbrev pub phase_after : Outcome Phase → Phase
phase_after (returned p) = p
phase_after (raised e) = leaving

-- The body without interruption, from a phase on.
unfoldable pub drive : Environment → String → String → String → ℕ → Phase → M (Unit {0})
unfolding advance
drive env hub id now zero p = pure tt
drive env hub id now (suc n) p = do q ← advance env hub id now p; drive env hub id now n q

-- No step of the body submits a job, or changes which commands are scheduled.
pub Quiet-advance :
    (env : Environment) (hub id now : String) (p : Phase) → Quiet (advance env hub id now p)
unfolding advance
Quiet-advance env hub id now begun = search quiet_rules depth 8
Quiet-advance env hub id now (loaded r) = search quiet_rules depth 8
Quiet-advance env hub id now (superseded r last) = search quiet_rules depth 8
Quiet-advance env hub id now current = search quiet_rules depth 8
Quiet-advance env hub id now (marked r) = search quiet_rules depth 8
Quiet-advance env hub id now (acknowledged r) = search quiet_rules depth 8
Quiet-advance env hub id now (computed v) = search quiet_rules depth 8
Quiet-advance env hub id now (settled r response) = search quiet_rules depth 8
Quiet-advance env hub id now (refused r) = search quiet_rules depth 8
Quiet-advance env hub id now leaving = search quiet_rules depth 8

-- A step that leads to a phase, followed by the rest from that phase.
chain :
    {A B : Type 0} (m : M A) (c : A → Phase) (k : Phase → M B) (f : A → M B)
    → ((a : A) (t : Coordinator) → k (c a) t ≡ f a t)
    → (s : Coordinator) → ((m >>= λ a. pure (c a)) >>= k) s ≡ (m >>= f) s
chain {A = A} m c k f h s = go (m s).0 (m s).1
  where
    go :
        (o : Outcome A) (t : Coordinator)
        → after (after (o, t) (λ a. pure (c a))) k ≡ after (o, t) f
    go (returned a) t = h a t
    go (raised e) t = refl

module _ (env : Environment) (hub id now : String) where
  abbrev rest : ℕ → Phase → M (Unit {0})
  rest n p = drive env hub id now n p

  drive_leaving : (n : ℕ) (s : Coordinator) → drive env hub id now n leaving s ≡ (returned tt, s)
  unfolding drive advance
  drive_leaving zero s = refl
  drive_leaving (suc n) s = drive_leaving n s

  drive_current :
      (s : Coordinator) → drive env hub id now 5 current s ≡ run_current env hub id now s
  unfolding drive advance run_current
  drive_current =
      chain (transact (λ j. Operations.mark_executing j hub id now)) marked (rest 4) _ (λ r.
        chain (emit env r none) (λ _. acknowledged r) (rest 3) _
          (λ _. chain (run_command env id r) computed (rest 2) _ (λ v.
            chain (mark_verdict env hub id v now) (λ r'. settled r' v.response) (rest 1) _
              (λ r' t. refl))))

  drive_superseded :
      (r : Command) (last : ℕ) (s : Coordinator)
      → drive env hub id now 5 (superseded r last) s ≡ refuse_stale env hub id r last now s
  unfolding drive advance refuse_stale
  drive_superseded r last = chain _ refused (rest 4) _ (λ r' t. refl)

  drive-judged :
      (r : Command) (o : Option ℕ) (s : Coordinator)
      → drive env hub id now 5 (judged r o) s ≡ dispatch env hub id r now o s
  drive-judged r none s = drive_current s
  drive-judged r (some last) s = drive_superseded r last s

  -- Where nothing acts in between, the steps, seven at most, and the `finally` are `_execute`.
  pub execute-drive :
      (s : Coordinator)
      → execute env hub id now s ≡ finally_discard (hub, id) (drive env hub id now 7 begun) s
  unfolding execute drive advance
  execute-drive s =
      let same =
        chain (query (λ j. Operations.get j hub id)) loaded (rest 6) _
          (λ r.
            chain (query (λ j. Operations.superseding_fence j hub id)) (judged r) (rest 5) _
              (λ o. drive-judged r o))
          s in
      ap (λ r. (r.0, unschedule (hub, id) r.1)) (sym same)
