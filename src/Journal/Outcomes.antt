-- ===== src/Journal/Outcomes.antt =====
-- What each method of the journal returns, with the transaction gone.
use pitlane_agent.Common.{
  ◌≤◌, String, ◌≡◌, refl, Option, none, some, Bool, true, false, ◌∷◌, ◌&&◌, str_eq, inl, inr, arith,
  str_eq_refl, eq_iff, Option-cases, ltb, find, map_option, find-update_self, find-update_other,
  if◌then◌else◌,
}
use pitlane_agent.Common.Int.{ℤ, pos, max_ℤ}
use pitlane_agent.Common.Json.{Value, Fields, object}
use pitlane_agent.Journal.Types.{
  Result-cases, Status, executing, is_terminal, status_rank, status_eq, ok, err, ◌>>◌, Command,
  Journal, parse_status, unknown_command, terminal_conflict, key_conflict, stale_command,
  overflow_error, integrity_error,
}
use pitlane_agent.Journal.Contract.{Python, Normalized, normalize_command}
use pitlane_agent.Journal.Operations.{
  is_command, has_key, last_fence, max_integer, get, new_command, put_fence, record_new, receive,
  set_command, set_status, set_terminal, set_confirmed, mark_terminal, transition, mark_executing,
  confirm, is_integer, is_stale, same_command, check_confirmation,
}
use pitlane_agent.Journal.Invariant.{SameIdentity, is_some}

-- The row after an UPDATE by its primary key.
pub find-set_command :
    (j : Journal) (hub id : String) (f : Command → Command)
    → ((x : Command) → SameIdentity x (f x))
    → find (is_command hub id) (set_command j hub id f).commands
      ≡ map_option f (find (is_command hub id) j.commands)
find-set_command j hub id f same =
    find-update_self (is_command hub id) f j.commands
      (λ x. ground (arith, (same x).hub_name, (same x).command_id))

-- Another row after it.
pub find-set_command_other :
    (j : Journal) (hub id hub' id' : String) (f : Command → Command)
    → ((x : Command) → SameIdentity x (f x))
    → (str_eq hub hub' && str_eq id id') ≡ false
    → find (is_command hub' id') (set_command j hub id f).commands
      ≡ find (is_command hub' id') j.commands
find-set_command_other j hub id hub' id' f same ne =
    find-update_other (is_command hub id) (is_command hub' id') f j.commands
      (λ x. ground (arith, (same x).hub_name, (same x).command_id))
      (λ x t. ground (
        arith,
        t,
        ne,
        eq_iff x.hub_name hub,
        eq_iff x.hub_name hub',
        eq_iff hub hub',
        eq_iff x.command_id id,
        eq_iff x.command_id id',
        eq_iff id id',
      ))

module _ (f : Command → Command) where
  abbrev pub KeepsIdentity : Type 0
  KeepsIdentity = (x : Command) → SameIdentity x (f x)

pub set_status-identity : (s : Status) (now : String) → KeepsIdentity (set_status s now)
set_status-identity s now x = ground arith

pub set_terminal-identity :
    (s : Status) (body : String) (code : ℤ) (ec em : Option String) (now : String)
    → KeepsIdentity (set_terminal s body code ec em now)
set_terminal-identity s body code ec em now x = ground arith

pub set_confirmed-identity : (k : ℤ) (now : String) → KeepsIdentity (set_confirmed k now)
set_confirmed-identity k now x = ground arith

module _ (j : Journal) (hub id : String) {r : Command}
    (found : find (is_command hub id) j.commands ≡ some r) where
  pub get_found : get j hub id ≡ ok r
  unfolding get
  get_found = rw found

  pub get-set_command :
      (f : Command → Command) → KeepsIdentity f → get (set_command j hub id f) hub id ≡ ok (f r)
  unfolding get
  get-set_command f same = rw (find-set_command j hub id f same) (rw found)

  -- A row that is not terminal becomes `executing`; a terminal row stays.
  pub mark_executing_found :
      (now : String)
      → mark_executing j hub id now ≡ (
          if is_terminal r.status
          then ok (j, r)
          else ok (set_command j hub id (set_status executing now), set_status executing now r))
  unfolding mark_executing transition
  mark_executing_found now = rw get_found (
      ground
        (arith, get-set_command (set_status executing now) (set_status-identity executing now)))

  pub mark_terminal_found :
      (py : Python) (status : Status) (body : Fields) (code : ℤ) (ec em : Option String)
      (now : String)
      → is_terminal status ≡ true
      → mark_terminal py j hub id status (object body) code ec em now ≡ (
          if is_terminal r.status
          then (if status_eq r.status status then ok (j, r) else err terminal_conflict)
          else if is_integer code
          then ok (
            set_command j hub id
                (set_terminal status (py.canonical_json (object body)) code ec em now),
            set_terminal status (py.canonical_json (object body)) code ec em now r,
          )
          else err overflow_error)
  unfolding mark_terminal
  mark_terminal_found py status body code ec em now t =
      rw (t, get_found)
        (ground (
          arith,
          get-set_command (set_terminal status (py.canonical_json (object body)) code ec em now)
              (set_terminal-identity status (py.canonical_json (object body)) code ec em now),
        ))

  pub confirm_found :
      (status : String) (s : Status) (now : String)
      → parse_status status ≡ some s
      → confirm j hub id status now ≡ (
          check_confirmation s r.status
          >> ok (
            set_command j hub id (set_confirmed (max_ℤ r.confirmed_rank (pos (status_rank s))) now),
            set_confirmed (max_ℤ r.confirmed_rank (pos (status_rank s))) now r,
          ))
  unfolding confirm
  confirm_found status s now t =
      rw (t, get_found)
        (rw (
          get-set_command (set_confirmed (max_ℤ r.confirmed_rank (pos (status_rank s))) now)
            (set_confirmed-identity (max_ℤ r.confirmed_rank (pos (status_rank s))) now)))

-- The methods on an identifier that has no row.
module _ (j : Journal) (hub id : String)
    (missing : find (is_command hub id) j.commands ≡ none) where
  get_missing : get j hub id ≡ err unknown_command
  unfolding get
  get_missing = rw missing

  pub mark_executing_missing : (now : String) → mark_executing j hub id now ≡ err unknown_command
  unfolding mark_executing transition
  mark_executing_missing now = rw get_missing

  pub mark_terminal_missing :
      (py : Python) (status : Status) (body : Fields) (code : ℤ) (ec em : Option String)
      (now : String)
      → is_terminal status ≡ true
      → mark_terminal py j hub id status (object body) code ec em now ≡ err unknown_command
  unfolding mark_terminal
  mark_terminal_missing py status body code ec em now t = rw (t, get_missing)

  pub confirm_missing :
      (status : String) (s : Status) (now : String)
      → parse_status status ≡ some s
      → confirm j hub id status now ≡ err unknown_command
  unfolding confirm
  confirm_missing status s now t = rw (t, get_missing)

-- The arguments that `mark_terminal` and `confirm` let through.
pub mark_terminal_arguments :
    (py : Python) (j : Journal) (hub id : String) (status : Status) (body : Value) (code : ℤ)
    (ec em : Option String) (now : String) {a : Journal × Command}
    → mark_terminal py j hub id status body code ec em now ≡ ok a
    → (is_terminal status ≡ true) × (d : Fields) × (body ≡ object d)
unfolding mark_terminal
mark_terminal_arguments py j hub id status (object d) code ec em now h = (ground arith, d, refl)
mark_terminal_arguments py j hub id status _ code ec em now h = absurd (ground arith)

pub confirm_arguments :
    (j : Journal) (hub id status now : String) {a : Journal × Command}
    → confirm j hub id status now ≡ ok a
    → (s : Status) × (parse_status status ≡ some s)
unfolding confirm
confirm_arguments j hub id status now h = elim (Option-cases (parse_status status)) [
  | inl e ↦ absurd (ground (arith, e))
  | inr p ↦ p
]

-- The tables after a new command.
unfoldable pub accepted : Journal → Normalized → String → Journal
accepted j n now = record {
  commands = new_command n now ∷ j.commands;
  fences = put_fence j.fences n now;
}

found_new :
    (j : Journal) (n : Normalized) (now : String)
    → find (is_command n.hub_name n.command_id) (new_command n now ∷ j.commands)
      ≡ some (new_command n now)
unfolding find
found_new j n now = rw (str_eq_refl n.hub_name, str_eq_refl n.command_id)

-- A new key is refused below the last fence, then for a fence that is no INTEGER, then for a command
-- identifier that is taken; else the command is journaled.
pub record_new_lem :
    (j : Journal) (n : Normalized) (now : String)
    → record_new j n now ≡ (
        if is_stale (last_fence j n.hub_name n.target_key) n.fence
        then err stale_command
        else if ltb max_integer n.fence
        then err overflow_error
        else if is_some (find (is_command n.hub_name n.command_id) j.commands)
        then err integrity_error
        else ok (accepted j n now, new_command n now, true))
unfolding record_new accepted
record_new_lem j n now = ground (arith, found_new j n now)

-- What an INSERT supposes.
pub record IsNew (j : Journal) (n : Normalized) : Type 0 where
  pub current : is_stale (last_fence j n.hub_name n.target_key) n.fence ≡ false
  pub free : find (is_command n.hub_name n.command_id) j.commands ≡ none
  pub storable : n.fence ≤ max_integer

pub record_new_inversion :
    (j : Journal) (n : Normalized) (now : String) {j' : Journal} {r : Command} {b : Bool}
    → record_new j n now ≡ ok (j', r, b)
    → IsNew j n × (j' ≡ accepted j n now) × (r ≡ new_command n now) × (b ≡ true)
record_new_inversion j n now h = (
  record {
    current = ground (arith, record_new_lem j n now);
    free = ground (arith, record_new_lem j n now);
    storable = ground (arith, record_new_lem j n now);
  },
  ground (arith, record_new_lem j n now),
  ground (arith, record_new_lem j n now),
  ground (arith, record_new_lem j n now),
)

-- `receive` answered with the journaled row of the key, or journaled the command.
pub data Receipt (j : Journal) (n : Normalized) (now : String) (j' : Journal) (r : Command)
    (b : Bool) : Type 0 where
  replayed :
      find (has_key n.hub_name n.idempotency_key) j.commands ≡ some r
      → same_command r n ≡ true
      → j' ≡ j
      → b ≡ false
      → Receipt j n now j' r b
  created :
      find (has_key n.hub_name n.idempotency_key) j.commands ≡ none
      → IsNew j n
      → j' ≡ accepted j n now
      → r ≡ new_command n now
      → b ≡ true
      → Receipt j n now j' r b

pub receive_inversion :
    (py : Python) (j : Journal) (hub : String) (m : Fields) (now : String) {j' : Journal}
    {r : Command} {b : Bool}
    → receive py j hub m now ≡ ok (j', r, b)
    → (n : Normalized) × (normalize_command py hub m ≡ ok n) × Receipt j n now j' r b
unfolding receive
receive_inversion py j hub m now {j'} {r} {b} h = elim (Result-cases (normalize_command py hub m)) [
  | inr (e, p) ↦ absurd (ground (arith, p, h))
  | inl (n, p) ↦ (
    n,
    p,
    elim (Option-cases (find (has_key n.hub_name n.idempotency_key) j.commands)) [
      | inr (x, q) ↦
          replayed (ground (arith, p, q, h)) (ground (arith, p, q, h)) (ground (arith, p, q, h))
            (ground (arith, p, q, h))
      | inl q ↦
          let h' : record_new j n now ≡ ok (j', r, b) = ground (arith, p, q, h) in
          let (new, ej, er, eb) = record_new_inversion j n now h' in created q new ej er eb
    ],
  )
]

-- A key that is journaled is answered with its row if the message repeats the row's command, name,
-- instance, payload and fence, and is a conflict otherwise; the journal stays as it was.
pub receive_known_key :
    (py : Python) (j : Journal) (hub : String) (m : Fields) (now : String) (n : Normalized)
    (r : Command)
    → normalize_command py hub m ≡ ok n
    → find (has_key n.hub_name n.idempotency_key) j.commands ≡ some r
    → receive py j hub m now ≡ (if same_command r n then ok (j, r, false) else err key_conflict)
unfolding receive
receive_known_key py j hub m now n r p known = ground (arith, p, known)
