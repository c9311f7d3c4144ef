-- ===== src/Journal/Progress.antt =====
-- What transactions do to a journaled row: it stays, it advances, its request stays its own.
use pitlane_agent.Common.{
  String, ◌≡◌, refl, ◌⊎◌, Option, none, some, Bool, true, false, ◌&&◌, str_eq, inl, inr, arith,
  str_eq_refl, eq_iff, Bool-cases, find, find-update_any,
}
use pitlane_agent.Common.Json.{Fields}
use pitlane_agent.Journal.Types.{ok, Command, Journal}
use pitlane_agent.Journal.Contract.{Python, Normalized, normalize_command}
use pitlane_agent.Journal.Operations.{
  is_command, has_key, receive, set_command, same_command, opt_str_eq,
}
use pitlane_agent.Journal.Invariant.{SameIdentity, SameIdentity-refl, SameIdentity-trans}
use pitlane_agent.Journal.Effects.{
  Effect, kept, changed, Advances, mark_executing-Effect, mark_terminal-Effect, confirm-Effect,
}
use pitlane_agent.Journal.Outcomes.{
  Receipt, replayed, created, receive_inversion, accepted, find-set_command, find-set_command_other,
}
use pitlane_agent.Journal.Steps.{
  Transaction, by_receive, by_mark_executing, by_mark_terminal, by_confirm, here, next, Run,
}

pub Advances-refl : (r : Command) → Advances r r
Advances-refl r = ground arith

pub Advances-trans : {r s t : Command} → Advances r s → Advances s t → Advances r t
Advances-trans h k = record {
  rank = omega (arith, h.rank, k.rank);
  confirmed = omega (arith, h.confirmed, k.confirmed);
  status = λ t. ground (arith, t, h.status t, k.status);
  response_json = λ t. ground (arith, t, h.status t, h.response_json t, k.response_json);
  status_code = λ t. ground (arith, t, h.status t, h.status_code t, k.status_code);
}

-- One row, then the same row later.
abbrev pub Later : (Command → Bool) → Journal → Command → Type 0
Later p j r = (s : Command) × (find p j.commands ≡ some s) × SameIdentity r s

module _ (j : Journal) (h key : String) {x : Command}
    (q : find (has_key h key) j.commands ≡ some x) where
  Effect-key :
      (hub id : String) {j' : Journal} {r : Command}
      → Effect j hub id j' r
      → Later (has_key h key) j' x
  Effect-key hub id (kept e p) = rw p (x, q, SameIdentity-refl x)
  Effect-key hub id (changed f y e same k adv p _) =
      let (z, found, one) =
        find-update_any (is_command hub id) (has_key h key) f j.commands
          (λ y. ground (arith, (same y).hub_name, (same y).idempotency_key)) q in
      rw p (z, found, moved z one)
    where
      moved : (z : Command) → (z ≡ x) ⊎ (z ≡ f x) → SameIdentity x z
      moved z (inl e) = rw e (SameIdentity-refl x)
      moved z (inr e) = rw e (same x)

  Receipt-key :
      (n : Normalized) (now : String) {j' : Journal} {r : Command} {b : Bool}
      → Receipt j n now j' r b
      → Later (has_key h key) j' x
  unfolding accepted find
  Receipt-key n now (replayed _ _ p _) = rw p (x, q, SameIdentity-refl x)
  Receipt-key n now (created free new p _ _) = rw p (
    x,
    ground (arith, q, free, eq_iff n.hub_name h, eq_iff n.idempotency_key key),
    SameIdentity-refl x,
  )

  Transaction-key : (py : Python) {j' : Journal} → Transaction py j j' → Later (has_key h key) j' x
  Transaction-key py (by_receive hub m now r b e) =
      let (n, _, receipt) = receive_inversion py j hub m now e in Receipt-key n now receipt
  Transaction-key py (by_mark_executing hub id now r e) =
      Effect-key hub id (mark_executing-Effect j hub id now e)
  Transaction-key py (by_mark_terminal hub id s body code ec em now r e) =
      Effect-key hub id (mark_terminal-Effect j hub id py s body code ec em now e)
  Transaction-key py (by_confirm hub id s now r e) =
      Effect-key hub id (confirm-Effect j hub id s now e)

Run-key :
    (py : Python) (h key : String) {j k : Journal} {x : Command}
    → find (has_key h key) j.commands ≡ some x
    → Run py j k
    → Later (has_key h key) k x
Run-key py h key {x = x} q here = (x, q, SameIdentity-refl x)
Run-key py h key q (next {k = k} r t) =
    let (y, qy, same) = Run-key py h key q r in
    let (z, qz, same') = Transaction-key k h key qy py t in (z, qz, SameIdentity-trans same same')

opt_str_eq_refl : (o : Option String) → opt_str_eq o o ≡ true
opt_str_eq_refl none = refl
opt_str_eq_refl (some s) = str_eq_refl s

-- The row of a command that was received answers for its key.
Receipt-found :
    (j : Journal) (n : Normalized) (now : String) {j' : Journal} {r : Command} {b : Bool}
    → Receipt j n now j' r b
    → (find (has_key n.hub_name n.idempotency_key) j'.commands ≡ some r) × (same_command r n ≡ true)
unfolding accepted find
Receipt-found j n now (replayed q s p _) = rw p (q, s)
Receipt-found j n now (created _ _ p e _) =
    rw (p, e)
      (
        rw (str_eq_refl n.hub_name, str_eq_refl n.idempotency_key),
        ground (
          arith,
          str_eq_refl n.command_id,
          str_eq_refl n.command_name,
          opt_str_eq_refl n.instance_id,
          str_eq_refl n.payload_fingerprint,
        ),
      )

receive_known :
    (py : Python) (j : Journal) (hub : String) (m : Fields) (now : String) {n : Normalized}
    {s : Command}
    → normalize_command py hub m ≡ ok n
    → find (has_key n.hub_name n.idempotency_key) j.commands ≡ some s
    → same_command s n ≡ true
    → receive py j hub m now ≡ ok (j, s, false)
unfolding receive
receive_known py j hub m now p q same = ground (arith, p, q, same)

-- A command that was received once is answered from the journal as long as no purge removes it:
-- whatever receptions, marks and confirmations follow, receiving the same message again changes
-- nothing, creates nothing, and returns a row with the request of the first.
pub receive_again :
    (py : Python) (j : Journal) (hub : String) (m : Fields) (now now' : String) {j' k : Journal}
    {r : Command} {b : Bool}
    → receive py j hub m now ≡ ok (j', r, b)
    → Run py j' k
    → (s : Command) × (receive py k hub m now' ≡ ok (k, s, false)) × SameIdentity r s
receive_again py j hub m now now' {k = k} h run =
    let (n, p, receipt) = receive_inversion py j hub m now h in
    let (found, same) = Receipt-found j n now receipt in
    let (s, q, id) = Run-key py n.hub_name n.idempotency_key found run in
    (s, receive_known py k hub m now' p q (ground (arith, same, id)), id)

-- The row of a command, over one transaction.
abbrev pub Progress : String → String → Journal → Command → Type 0
Progress hub id j r =
    (s : Command) × (find (is_command hub id) j.commands ≡ some s) × SameIdentity r s × Advances r s

module _ (j : Journal) (h i : String) {x : Command}
    (q : find (is_command h i) j.commands ≡ some x) where
  Effect-row :
      (hub id : String) {j' : Journal} {r : Command} → Effect j hub id j' r → Progress h i j' x
  Effect-row hub id (kept e p) = rw p (x, q, SameIdentity-refl x, Advances-refl x)
  Effect-row hub id (changed f y e same k adv p _) =
      elim (Bool-cases (str_eq hub h && str_eq id i)) [
        | inr n ↦ rw p (
          x,
          ground (arith, q, find-set_command_other j hub id h i f same n),
          SameIdentity-refl x,
          Advances-refl x,
        )
        | inl t ↦
            let eh : hub ≡ h = ground (arith, t, eq_iff hub h) in
            let ei : id ≡ i = ground (arith, t, eq_iff id i) in
            let found : find (is_command h i) (set_command j hub id f).commands ≡ some (f y) =
              rw (← eh, ← ei) (ground (arith, e, find-set_command j hub id f same)) in
            let xy : y ≡ x = ground (arith, e, q, eh, ei) in
            rw p (f y, found, rw (← xy) (same y), rw (← xy) adv)
      ]

  Receipt-row :
      (n : Normalized) (now : String) {j' : Journal} {r : Command} {b : Bool}
      → Receipt j n now j' r b
      → Progress h i j' x
  unfolding accepted find
  Receipt-row n now (replayed _ _ p _) = rw p (x, q, SameIdentity-refl x, Advances-refl x)
  Receipt-row n now (created free new p _ _) = rw p (
    x,
    ground (arith, q, new.free, eq_iff n.hub_name h, eq_iff n.command_id i),
    SameIdentity-refl x,
    Advances-refl x,
  )

  Transaction-row : (py : Python) {j' : Journal} → Transaction py j j' → Progress h i j' x
  Transaction-row py (by_receive hub m now r b e) =
      let (n, _, receipt) = receive_inversion py j hub m now e in Receipt-row n now receipt
  Transaction-row py (by_mark_executing hub id now r e) =
      Effect-row hub id (mark_executing-Effect j hub id now e)
  Transaction-row py (by_mark_terminal hub id s body code ec em now r e) =
      Effect-row hub id (mark_terminal-Effect j hub id py s body code ec em now e)
  Transaction-row py (by_confirm hub id s now r e) =
      Effect-row hub id (confirm-Effect j hub id s now e)

-- Along every sequence of receptions, marks and confirmations (without a purge) a journaled
-- command stays, keeps its request, and advances: its status and its confirmed rank never fall,
-- and once terminal its status, response and code stay.
pub Run-row :
    (py : Python) (h i : String) {j k : Journal} {x : Command}
    → find (is_command h i) j.commands ≡ some x
    → Run py j k
    → Progress h i k x
Run-row py h i {x = x} q here = (x, q, SameIdentity-refl x, Advances-refl x)
Run-row py h i q (next {k = k} r t) =
    let (y, qy, same, adv) = Run-row py h i q r in
    let (z, qz, same', adv') = Transaction-row k h i qy py t in
    (z, qz, SameIdentity-trans same same', Advances-trans adv adv')
