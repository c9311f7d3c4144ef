-- ===== src/Journal/Steps.antt =====
-- Sequences of transactions on the journal, the purge among them.
use pitlane_agent.Common.{ℕ, String, ◌≡◌, Option, Bool}
use pitlane_agent.Common.Int.{ℤ}
use pitlane_agent.Common.Json.{Value, Fields}
use pitlane_agent.Journal.Types.{Status, ok, Command, Journal}
use pitlane_agent.Journal.Contract.{Python}
use pitlane_agent.Journal.Operations.{last_fence, receive, mark_terminal, mark_executing, confirm}
use pitlane_agent.Journal.Invariant.{IsValid, RowIsValid, IsCovered}
use pitlane_agent.Journal.Effects.{mark_executing-Effect, mark_terminal-Effect, confirm-Effect}
use pitlane_agent.Journal.Preserves.{Effect-IsValid, receive-IsValid}
use pitlane_agent.Maintenance.Operations.{purge_confirmed_successes}
use pitlane_agent.Maintenance.Purge.{Kept-purge}

-- One transaction that returns.
pub data Transaction (py : Python) (j j' : Journal) : Type 0 where
  by_receive :
      (hub : String) (m : Fields) (now : String) (r : Command) (b : Bool)
      → receive py j hub m now ≡ ok (j', r, b)
      → Transaction py j j'
  by_mark_executing :
      (hub id now : String) (r : Command)
      → mark_executing j hub id now ≡ ok (j', r)
      → Transaction py j j'
  by_mark_terminal :
      (hub id : String) (s : Status) (body : Value) (code : ℤ) (ec em : Option String)
      (now : String) (r : Command)
      → mark_terminal py j hub id s body code ec em now ≡ ok (j', r)
      → Transaction py j j'
  by_confirm :
      (hub id s now : String) (r : Command)
      → confirm j hub id s now ≡ ok (j', r)
      → Transaction py j j'

-- One step: a transaction of the coordinator, or a purge.
pub data Step (py : Python) (j j' : Journal) : Type 0 where
  by_transaction : Transaction py j j' → Step py j j'
  by_purge :
      (days_ago : ℕ → String) (days limit : ℕ) (execute : Bool)
      → j' ≡ (purge_confirmed_successes days_ago j days limit execute).0
      → Step py j j'

-- Sequences of steps of one kind.
pub data Closure (R : Journal → Journal → Type 0) (j : Journal) : Journal → Type 0 where
  here : Closure R j j
  next : {k k' : Journal} → Closure R j k → R k k' → Closure R j k'

abbrev pub Reach : Python → Journal → Journal → Type 0
Reach py = Closure (Step py)

abbrev pub Run : Python → Journal → Journal → Type 0
Run py = Closure (Transaction py)

purge-IsValid :
    (days_ago : ℕ → String) (j : Journal) (days limit : ℕ) (execute : Bool)
    → IsValid j
    → IsValid (purge_confirmed_successes days_ago j days limit execute).0
unfolding last_fence purge_confirmed_successes
purge-IsValid days_ago j days limit execute v =
    let kept = Kept-purge days_ago j days limit execute in
    record {
      rows = kept.all RowIsValid v.rows;
      covered = kept.all (IsCovered j) v.covered;
      unique = kept.unique v.unique;
    }

pub Transaction-IsValid :
    (py : Python) {j j' : Journal} → IsValid j → Transaction py j j' → IsValid j'
Transaction-IsValid py {j} v (by_receive hub m now r b h) = receive-IsValid py j hub m now v h
Transaction-IsValid py {j} v (by_mark_executing hub id now r h) =
    Effect-IsValid j hub id v (mark_executing-Effect j hub id now h)
Transaction-IsValid py {j} v (by_mark_terminal hub id s body code ec em now r h) =
    Effect-IsValid j hub id v (mark_terminal-Effect j hub id py s body code ec em now h)
Transaction-IsValid py {j} v (by_confirm hub id s now r h) =
    Effect-IsValid j hub id v (confirm-Effect j hub id s now h)

pub Step-IsValid : (py : Python) {j j' : Journal} → IsValid j → Step py j j' → IsValid j'
Step-IsValid py v (by_transaction t) = Transaction-IsValid py v t
Step-IsValid py {j} v (by_purge days_ago days limit execute h) =
    rw h (purge-IsValid days_ago j days limit execute v)

-- From a valid journal every sequence of transactions, the purge among them, leads to a valid one.
pub Reach-IsValid : (py : Python) {j j' : Journal} → IsValid j → Reach py j j' → IsValid j'
Reach-IsValid py v here = v
Reach-IsValid py v (next r s) = Step-IsValid py (Reach-IsValid py v r) s
