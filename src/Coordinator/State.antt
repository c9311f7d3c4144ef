-- ===== src/Coordinator/State.antt =====
-- The state of DurableCommandCoordinator, and the monad of its methods: a method returns or raises,
-- and keeps what it did before it raised.
use pitlane_agent.Common.{ℕ, String, Option, Bool, true, ◌≡◌, List, ◌&&◌, not, str_eq, any, select}
use pitlane_agent.Common.Int.{ℤ}
use pitlane_agent.Common.Json.{Value, Fields}
use pitlane_agent.Journal.Types.{Error, Result, ok, err, Command, Journal}
use pitlane_agent.Journal.Contract.{Python}
use pitlane_agent.Journal.Operations.{is_integer}

pub data Exception : Type 0 where
  journal_error : Error → Exception
  callback_error : Exception

-- What `execute_command` does: it returns a response with a status code, which as a code of HTTP fits
-- an INTEGER of SQLite, or raises an exception of a class.
pub data Execution : Type 0 where
  answered : Value → (code : ℤ) → is_integer code ≡ true → Execution
  crashed : String → Execution

-- What the coordinator is given: Python's library, the callbacks, the executor of commands. A
-- callback that is `false` raises.
pub record Environment : Type 0 where
  pub python : Python
  pub emit_ack : Command → Option Fields → Bool
  pub after_terminal : Bool
  pub submit : Bool
  pub execute_command : String → Fields → Execution
  pub class_name : Error → String
  pub superseded_message : ℕ → ℕ → String

abbrev pub Key : Type 0
Key = String × String

-- `executions` logs the calls of `execute_command`, `acks` those of `emit_ack` that returned, `tasks` the
-- submitted jobs that have not begun; `terminal_calls` counts the calls of `after_terminal`.
pub record Coordinator : Type 0 where
  pub journal : Journal
  pub scheduled : List Key
  pub tasks : List Key
  pub acks : List (Command × Option Fields)
  pub executions : List (String × Fields)
  pub terminal_calls : ℕ

pub data Outcome (A : Type 0) : Type 0 where
  returned : A → Outcome A
  raised : Exception → Outcome A

abbrev pub M : Type 0 → Type 0
M A = Coordinator → Outcome A × Coordinator

abbrev pub after : {A B : Type 0} → Outcome A × Coordinator → (A → M B) → Outcome B × Coordinator
after (returned a, s) f = f a s
after (raised e, s) f = (raised e, s)

infixl 5 ◌>>=◌ ◌>>◌
abbrev pub ◌>>=◌ : {A B : Type 0} → M A → (A → M B) → M B
◌>>=◌ m f s = after (m s) f

abbrev pub ◌>>◌ : {B : Type 0} → M (Unit {0}) → M B → M B
◌>>◌ m k s = after (m s) (λ _. k)

abbrev pub pure : {A : Type 0} → A → M A
pure a s = (returned a, s)

-- A transaction of the journal.
abbrev pub transact : {A : Type 0} → (Journal → Result (Journal × A)) → M A
transact op s = elim (op s.journal) [
  | ok (j, a) ↦ (returned a, record s { journal = j })
  | err e ↦ (raised (journal_error e), s)
]

-- A read of the journal.
abbrev pub query : {A : Type 0} → (Journal → Result A) → M A
query op s = elim (op s.journal) [ ok a ↦ (returned a, s) | err e ↦ (raised (journal_error e), s) ]

-- `try: m except Exception: pass`.
abbrev pub swallow : M (Unit {0}) → M (Unit {0})
swallow m s = (returned tt, (m s).1)

abbrev pub key_eq : Key → Key → Bool
key_eq (h, i) (h', i') = str_eq h h' && str_eq i i'

-- `key in self._scheduled_commands`.
abbrev pub is_member : Key → List Key → Bool
is_member k = any (key_eq k)

-- `discard`.
abbrev pub discard : Key → List Key → List Key
discard k = select (λ k'. not (key_eq k k'))

abbrev pub unschedule : Key → Coordinator → Coordinator
unschedule k s = record s { scheduled = discard k s.scheduled }

-- `try: m finally: discard(k)`.
abbrev pub finally_discard : {A : Type 0} → Key → M A → M A
finally_discard k m s = let r = m s in (r.0, unschedule k r.1)
