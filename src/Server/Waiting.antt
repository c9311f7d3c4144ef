-- ===== src/Server/Waiting.antt =====
-- `wait_for_instance_ports`: the loop that waits for the ports, and its end.
use pitlane_agent.Common.{
  ℕ, zero, suc, ◌+◌, ◌-◌, ◌/◌, ◌≤◌, ◌<◌, min, max, ◌≡◌, refl, false, List, [], ◌∷◌, arith, leb, ◌⊎◌,
  inl, inr, if◌then◌else◌, Bool-cases, leb→le,
}
use pitlane_agent.Server.Ports.{Conflict, Inspection, found, denied}

-- The machine: what an inspection at a moment finds, and the moment at which a sleep ends.
pub record Machine : Type 0 where
  pub inspect : ℕ → Inspection
  pub sleep : ℕ → ℕ → ℕ

-- A wait returns conflicts, the empty list among them, or the inspection raises; `out_of_fuel` is the
-- model's.
pub data Waited : Type 0 where
  returned : ℕ → List Conflict → Waited
  raised : Waited
  out_of_fuel : Waited

-- `min(max(0.01, poll_interval_seconds), remaining)`.
abbrev pub pause : ℕ → ℕ → ℕ
pause poll remaining = min (max 10 poll) remaining

unfoldable pub wait_loop : Machine → ℕ → ℕ → ℕ → ℕ → Waited
wait_loop m poll deadline zero now = out_of_fuel
wait_loop m poll deadline (suc fuel) now =
    let rest = wait_loop m poll deadline fuel (m.sleep now (pause poll (deadline - now))) in
    elim (m.inspect now) [
      | denied ↦ raised
      | found [] ↦ returned now []
      | found (c ∷ cs) ↦ if leb deadline now then returned now (c ∷ cs) else rest
    ]

-- The rounds of ten milliseconds that the timeout has, the last of them cut, and the final inspection.
abbrev pub rounds : ℕ → ℕ
rounds timeout = (timeout + 9) / 10 + 1

unfoldable pub wait_for_instance_ports : Machine → ℕ → ℕ → ℕ → Waited
unfolding wait_loop
wait_for_instance_ports m timeout poll now = wait_loop m poll (now + timeout) (rounds timeout) now

-- How the wait ended: no conflict was left at some moment, or there were some after the deadline, or the
-- inspection at some moment raised.
pub data Ends (m : Machine) (deadline : ℕ) : Waited → Type 0 where
  freed : {t : ℕ} → m.inspect t ≡ found [] → Ends m deadline (returned t [])
  occupied :
      {t : ℕ} {c : Conflict} {cs : List Conflict}
      → m.inspect t ≡ found (c ∷ cs)
      → deadline ≤ t
      → Ends m deadline (returned t (c ∷ cs))
  failed : {t : ℕ} → m.inspect t ≡ denied → Ends m deadline raised

Inspection-cases :
    (i : Inspection)
    → (i ≡ denied)
      ⊎ ((i ≡ found []) ⊎ ((c : Conflict) × (cs : List Conflict) × (i ≡ found (c ∷ cs))))
Inspection-cases denied = inl refl
Inspection-cases (found []) = inr (inl refl)
Inspection-cases (found (c ∷ cs)) = inr (inr (c, cs, refl))

module _ (m : Machine) (poll deadline : ℕ) (sleeps : (now d : ℕ) → now + d ≤ m.sleep now d) where
  wait_loop-Ends :
      (fuel now : ℕ)
      → rounds (deadline - now) ≤ fuel
      → Ends m deadline (wait_loop m poll deadline fuel now)
  unfolding wait_loop
  wait_loop-Ends zero now enough = absurd (omega (arith, enough))
  wait_loop-Ends (suc fuel) now enough = elim (Inspection-cases (m.inspect now)) [
    | inl d ↦ rw (d, wait_loop) (failed d)
    | inr (inl e) ↦ rw (e, wait_loop) (freed e)
    | inr (inr (c, cs, e)) ↦ elim (Bool-cases (leb deadline now)) [
      | inl late ↦ rw (e, late, wait_loop) (occupied e (leb→le deadline now late))
      | inr early ↦
          let next = m.sleep now (pause poll (deadline - now)) in
          rw (e, early, wait_loop)
            (wait_loop-Ends fuel next
              (omega (arith, sleeps now (pause poll (deadline - now)), enough, before early)))
    ]
  ]
    where
      before : leb deadline now ≡ false → now < deadline
      before h = ground (arith, h)

-- The wait ends, and within the rounds that the timeout allows: either no conflict was left, or some
-- were left at or after the deadline, or the inspection was denied. The clock is one that a sleep
-- advances by what was asked at least.
pub wait_for_instance_ports-Ends :
    (m : Machine) (timeout poll now : ℕ)
    → ((t d : ℕ) → t + d ≤ m.sleep t d)
    → Ends m (now + timeout) (wait_for_instance_ports m timeout poll now)
unfolding wait_for_instance_ports
wait_for_instance_ports-Ends m timeout poll now sleeps =
    wait_loop-Ends m poll (now + timeout) sleeps (rounds timeout) now (ground arith)
