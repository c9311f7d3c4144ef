-- ===== src/Coordinator/Queue.antt =====
-- The set of scheduled commands and the jobs of the executor.
use pitlane_agent.Common.{ℕ, String, ◌≡◌, refl, ap, ◌∙◌, Option, none, some, arith}
use pitlane_agent.Common.Json.{Fields}
use pitlane_agent.Journal.Types.{Result, Command, Journal}
use pitlane_agent.Journal.Operations.{get, superseding_fence}
use pitlane_agent.Coordinator.State.{
  Environment, Coordinator, Outcome, returned, raised, M, ◌>>=◌, ◌>>◌, pure, transact, query,
  swallow, after, discard,
}
use pitlane_agent.Coordinator.Operations.{
  emit, after_terminal, run_command, refuse_stale, run_current, dispatch, execute,
}

-- The method leaves the queue as it was.
pub record Quiet {A : Type 0} (m : M A) : Type 0 where
  pub at : (s : Coordinator) → ((m s).1.scheduled ≡ s.scheduled) × ((m s).1.tasks ≡ s.tasks)

module _ {A : Type 0} where
  pub Quiet-transact : (op : Journal → Result (Journal × A)) → Quiet (transact op)
  Quiet-transact op = record { at = λ s. ground arith }

  pub Quiet-query : (op : Journal → Result A) → Quiet (query op)
  Quiet-query op = record { at = λ s. ground arith }

  pub Quiet-pure : (a : A) → Quiet (pure a)
  Quiet-pure a = record { at = λ s. (refl, refl) }

pub Quiet-after :
    {A B : Type 0} (o : Outcome A) (s : Coordinator) (f : A → M B)
    → ((a : A) → Quiet (f a))
    → ((after (o, s) f).1.scheduled ≡ s.scheduled) × ((after (o, s) f).1.tasks ≡ s.tasks)
Quiet-after (returned a) s f k = (k a).at s
Quiet-after (raised e) s f k = (refl, refl)

pub Quiet-bind :
    {A B : Type 0} (m : M A) (f : A → M B) → Quiet m → ((a : A) → Quiet (f a)) → Quiet (m >>= f)
Quiet-bind m f q k = record {
  at = λ s. let (a, b) = Quiet-after (m s).0 (m s).1 f k in (a ∙ (q.at s).0, b ∙ (q.at s).1);
}

pub Quiet-then : {B : Type 0} (m : M (Unit {0})) (k : M B) → Quiet m → Quiet k → Quiet (m >> k)
Quiet-then m k q h = Quiet-bind m (λ _. k) q (λ _. h)

pub Quiet-swallow : (m : M (Unit {0})) → Quiet m → Quiet (swallow m)
Quiet-swallow m q = record { at = λ s. q.at s }

pub Quiet-emit : (env : Environment) (r : Command) (d : Option Fields) → Quiet (emit env r d)
unfolding emit
Quiet-emit env r d = record { at = λ s. ground arith }

pub Quiet-after_terminal : (env : Environment) → Quiet (after_terminal env)
unfolding after_terminal
Quiet-after_terminal env = record { at = λ s. ground arith }

pub Quiet-run_command :
    (env : Environment) (id : String) (r : Command) → Quiet (run_command env id r)
unfolding run_command
Quiet-run_command env id r = record { at = λ s. ground arith }

pub ruleset quiet_rules = (
  Quiet-transact, Quiet-query, Quiet-pure, Quiet-bind, Quiet-then, Quiet-swallow, Quiet-emit,
  Quiet-after_terminal, Quiet-run_command,
)

Quiet-refuse_stale :
    (env : Environment) (hub id : String) (r : Command) (last : ℕ) (now : String)
    → Quiet (refuse_stale env hub id r last now)
unfolding refuse_stale
Quiet-refuse_stale env hub id r last now = search quiet_rules depth 8

Quiet-run_current : (env : Environment) (hub id now : String) → Quiet (run_current env hub id now)
unfolding run_current
Quiet-run_current env hub id now = search quiet_rules depth 8

Quiet-dispatch :
    (env : Environment) (hub id : String) (r : Command) (now : String) (o : Option ℕ)
    → Quiet (dispatch env hub id r now o)
Quiet-dispatch env hub id r now none = Quiet-run_current env hub id now
Quiet-dispatch env hub id r now (some last) = Quiet-refuse_stale env hub id r last now

Quiet-body :
    (env : Environment) (hub id now : String)
    → Quiet (do
      r ← query (λ j. get j hub id)
      superseding ← query (λ j. superseding_fence j hub id)
      dispatch env hub id r now superseding)
Quiet-body env hub id now = search (quiet_rules, Quiet-dispatch) depth 8

-- However `_execute` ends, by returning or by raising, its key is discarded from the scheduled
-- commands, no other key is, and no job is submitted.
pub scheduled-execute :
    (env : Environment) (hub id now : String) (s : Coordinator)
    → ((execute env hub id now s).1.scheduled ≡ discard (hub, id) s.scheduled)
      × ((execute env hub id now s).1.tasks ≡ s.tasks)
unfolding execute
scheduled-execute env hub id now s =
    let (a, b) = (Quiet-body env hub id now).at s in (ap (discard (hub, id)) a, b)
