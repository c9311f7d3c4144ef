-- ===== src/Journal/Fences.antt =====
-- The fence table along sequences of steps.
use pitlane_agent.Common.{
  ℕ, ◌≤◌, ◌<◌, String, ◌≡◌, ◌≢◌, sym, ap, ◌∙◌, some, Bool, true, ◌∷◌, ◌&&◌, str_eq, inl, inr, arith,
  str_eq_refl, eq_iff, Bool-cases,
}
use pitlane_agent.Common.Json.{Fields}
use pitlane_agent.Journal.Types.{ok, Command, Journal}
use pitlane_agent.Journal.Contract.{Python, Normalized}
use pitlane_agent.Journal.Operations.{last_fence, new_command, receive}
use pitlane_agent.Journal.Effects.{
  Effect, kept, changed, mark_executing-Effect, mark_terminal-Effect, confirm-Effect,
}
use pitlane_agent.Journal.Outcomes.{Receipt, replayed, created, receive_inversion, accepted, IsNew}
use pitlane_agent.Journal.Preserves.{last_fence-put_fence}
use pitlane_agent.Maintenance.Operations.{purge_confirmed_successes}
use pitlane_agent.Journal.Steps.{
  Transaction, by_receive, by_mark_executing, by_mark_terminal, by_confirm, Step, by_transaction,
  by_purge, here, next, Reach,
}

-- The last fence of a target, once there is one.
abbrev pub Grows : Journal → Journal → Type 0
Grows j j' =
    (hub target : String) (a : ℕ)
    → last_fence j hub target ≡ some a
    → (b : ℕ) × (last_fence j' hub target ≡ some b) × (a ≤ b)

accepted-Grows :
    (j : Journal) (n : Normalized) (now : String) → IsNew j n → Grows j (accepted j n now)
unfolding accepted
accepted-Grows j n now new h t a q =
    elim (Bool-cases (str_eq n.hub_name h && str_eq n.target_key t)) [
      | inl e ↦ (
        n.fence,
        ground (arith, e, last_fence-put_fence j n (new_command n now ∷ j.commands) now h t),
        ground (arith, new.current, e, q, eq_iff n.hub_name h, eq_iff n.target_key t),
      )
      | inr e ↦ (
        a,
        ground (arith, e, q, last_fence-put_fence j n (new_command n now ∷ j.commands) now h t),
        omega arith,
      )
    ]

purge-Grows :
    (days_ago : ℕ → String) (j : Journal) (days limit : ℕ) (execute : Bool)
    → Grows j (purge_confirmed_successes days_ago j days limit execute).0
unfolding last_fence purge_confirmed_successes
purge-Grows days_ago j days limit execute h t a q = (a, q, omega arith)

Effect-Grows :
    (j : Journal) (hub id : String) {j' : Journal} {r : Command} → Effect j hub id j' r → Grows j j'
unfolding last_fence
Effect-Grows j hub id (kept e p) h t a q = rw p (a, q, omega arith)
Effect-Grows j hub id (changed f x e same k adv p _) h t a q = rw p (a, q, omega arith)

Receipt-Grows :
    (j : Journal) (n : Normalized) (now : String) {j' : Journal} {r : Command} {b : Bool}
    → Receipt j n now j' r b
    → Grows j j'
Receipt-Grows j n now (replayed _ _ p _) h t a q = rw p (a, q, omega arith)
Receipt-Grows j n now (created free new p _ _) h t a q = rw p (accepted-Grows j n now new h t a q)

Transaction-Grows : (py : Python) {j j' : Journal} → Transaction py j j' → Grows j j'
Transaction-Grows py {j} (by_receive hub m now r b h) =
    let (n, _, receipt) = receive_inversion py j hub m now h in Receipt-Grows j n now receipt
Transaction-Grows py {j} (by_mark_executing hub id now r h) =
    Effect-Grows j hub id (mark_executing-Effect j hub id now h)
Transaction-Grows py {j} (by_mark_terminal hub id s body code ec em now r h) =
    Effect-Grows j hub id (mark_terminal-Effect j hub id py s body code ec em now h)
Transaction-Grows py {j} (by_confirm hub id s now r h) =
    Effect-Grows j hub id (confirm-Effect j hub id s now h)

Step-Grows : (py : Python) {j j' : Journal} → Step py j j' → Grows j j'
Step-Grows py (by_transaction t) = Transaction-Grows py t
Step-Grows py {j} (by_purge days_ago days limit execute h) =
    rw h (purge-Grows days_ago j days limit execute)

-- Along every sequence of transactions the last fence of a target never falls and is never lost,
-- also when the purge deletes the target's commands.
pub Reach-Grows : (py : Python) {j j' : Journal} → Reach py j j' → Grows j j'
Reach-Grows py here hub target a q = (a, q, omega arith)
Reach-Grows py (next r s) hub target a q =
    let (b, qb, le) = Reach-Grows py r hub target a q in
    let (c, qc, le') = Step-Grows py s hub target b qb in (c, qc, omega arith)

accepted-last_fence :
    (j : Journal) (n : Normalized) (now : String)
    → last_fence (accepted j n now) n.hub_name n.target_key ≡ some n.fence
unfolding accepted
accepted-last_fence j n now =
    rw (last_fence-put_fence, str_eq_refl n.hub_name, str_eq_refl n.target_key)

first_fence :
    (j : Journal) (n : Normalized) (now : String) {j' : Journal} {r : Command}
    → Receipt j n now j' r true
    → last_fence j' r.hub_name r.target_key ≡ some r.fence
first_fence j n now (replayed _ _ _ b) = cc
first_fence j n now (created free new p q _) = rw (p, q) (accepted-last_fence j n now)

later_fence :
    (j : Journal) (n : Normalized) (now : String) {j' : Journal} {r : Command} {a : ℕ}
    → Receipt j n now j' r true
    → last_fence j r.hub_name r.target_key ≡ some a
    → a < r.fence
later_fence j n now (replayed _ _ _ b) e = cc
later_fence j n now (created free new p q _) e = ground (arith, new.current, e, q)

-- Two commands that a journal accepts as new for one target of one hub carry growing fences,
-- whatever happens in between: no fence is accepted twice, also after a purge.
pub fence_never_reused :
    (py : Python) (j : Journal) {j₁ k k₁ : Journal} {r s : Command} (hub hub' : String)
    (m m' : Fields) (now now' : String)
    → receive py j hub m now ≡ ok (j₁, r, true)
    → Reach py j₁ k
    → receive py k hub' m' now' ≡ ok (k₁, s, true)
    → r.hub_name ≡ s.hub_name
    → r.target_key ≡ s.target_key
    → r.fence < s.fence
fence_never_reused py j {k = k} {r = r} {s = s} hub hub' m m' now now' first reach second eh et =
    let (n, _, receipt) = receive_inversion py j hub m now first in
    let (n', _, receipt') = receive_inversion py k hub' m' now' second in
    let (b, qb, le) =
      Reach-Grows py reach r.hub_name r.target_key r.fence (first_fence j n now receipt) in
    let e : last_fence k s.hub_name s.target_key ≡ some b = rw (← eh, ← et) qb in
    omega (arith, later_fence k n' now' receipt' e)

Receipt-fields :
    (j : Journal) (n : Normalized) (now : String) {j' : Journal} {r : Command}
    → Receipt j n now j' r true
    → (r.hub_name ≡ n.hub_name) × (r.target_key ≡ n.target_key) × (r.fence ≡ n.fence)
Receipt-fields j n now (replayed _ _ _ b) = absurd (cc)
Receipt-fields j n now (created _ _ _ e _) = ground (arith, e)

-- A command that was journaled as new is never journaled as new again: receiving its message later,
-- whatever happened in between, a purge of its row included, creates nothing.
pub never_created_twice :
    (py : Python) (j : Journal) {j₁ k k₁ : Journal} {r s : Command} (hub : String) (m : Fields)
    (now now' : String)
    → receive py j hub m now ≡ ok (j₁, r, true)
    → Reach py j₁ k
    → receive py k hub m now' ≢ ok (k₁, s, true)
never_created_twice py j {k = k} hub m now now' first reach second =
    let (n, p, receipt) = receive_inversion py j hub m now first in
    let (n', p', receipt') = receive_inversion py k hub m now' second in
    let (hr, tr, fr) = Receipt-fields j n now receipt in
    let (hs, ts, fs) = Receipt-fields k n' now' receipt' in
    let same : n ≡ n' = ground (arith, p, p') in
    absurd (
      omega (
        arith,
        fence_never_reused py j hub hub m m now now' first reach second
            (hr ∙ ap (λ x. x.hub_name) same ∙ sym hs) (tr ∙ ap (λ x. x.target_key) same ∙ sym ts),
        fr,
        fs,
        ap (λ (x : Normalized). x.fence) same,
      ))
