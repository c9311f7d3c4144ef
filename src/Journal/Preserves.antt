-- ===== src/Journal/Preserves.antt =====
-- Every method of the journal keeps the invariant.
use pitlane_agent.Common.{
  ◌<◌, String, ◌≡◌, refl, none, some, Bool, false, List, [], ◌∷◌, ◌&&◌, str_eq, inl, inr, arith,
  str_eq_refl, eq_iff, Bool-cases, find, All, All-imp, All-of_find-none, find-update_self,
  find-update_other, if◌then◌else◌,
}
use pitlane_agent.Common.Json.{Fields}
use pitlane_agent.Journal.Types.{ok, Command, Journal}
use pitlane_agent.Journal.Contract.{Python, Normalized, normalize_command}
use pitlane_agent.Journal.Operations.{
  is_command, has_key, is_target, last_fence, new_command, put_fence, receive, is_stale,
}
use pitlane_agent.Journal.Invariant.{IsValid, IsCovered, set_command-IsValid}
use pitlane_agent.Journal.Effects.{Effect, kept, changed}
use pitlane_agent.Journal.Outcomes.{accepted, IsNew, Receipt, replayed, created, receive_inversion}

-- The fence of a normalized command is positive.
pub fence-positive :
    (py : Python) (hub : String) (m : Fields) {n : Normalized}
    → normalize_command py hub m ≡ ok n
    → 0 < n.fence
unfolding normalize_command
fence-positive py hub m h = ground arith

-- The fence table after the upsert.
pub last_fence-put_fence :
    (j : Journal) (n : Normalized) (rows : List Command) (now hub target : String)
    → last_fence (record { commands = rows; fences = put_fence j.fences n now }) hub target ≡ (
        if str_eq n.hub_name hub && str_eq n.target_key target
        then some n.fence
        else last_fence j hub target)
unfolding last_fence put_fence find
last_fence-put_fence j n rows now hub target =
    elim (Bool-cases (str_eq n.hub_name hub && str_eq n.target_key target)) [
      | inl t ↦ ground (
        arith,
        t,
        eq_iff n.hub_name hub,
        eq_iff n.target_key target,
        find-update_self (is_target n.hub_name n.target_key)
            (λ f. record f { last_fence = n.fence; updated_at = now }) j.fences (λ _. refl),
      )
      | inr e ↦ ground (
        arith,
        e,
        find-update_other (is_target n.hub_name n.target_key) (is_target hub target)
            (λ f. record f { last_fence = n.fence; updated_at = now }) j.fences (λ _. refl)
            (λ f q. ground (
              arith,
              q,
              e,
              eq_iff f.hub_name n.hub_name,
              eq_iff f.hub_name hub,
              eq_iff n.hub_name hub,
              eq_iff f.target_key n.target_key,
              eq_iff f.target_key target,
              eq_iff n.target_key target,
            )),
      )
    ]

-- A method with such an effect keeps the invariant.
pub Effect-IsValid :
    (j : Journal) (hub id : String) {j' : Journal} {r : Command}
    → IsValid j
    → Effect j hub id j' r
    → IsValid j'
Effect-IsValid j hub id v (kept e p) = rw p v
Effect-IsValid j hub id v (changed f x e same k adv p q) =
    rw p (set_command-IsValid j hub id f v same e k)

Covers-put_fence :
    (j : Journal) (n : Normalized) (now : String) (x : Command)
    → is_stale (last_fence j n.hub_name n.target_key) n.fence ≡ false
    → IsCovered j x
    → IsCovered (accepted j n now) x
unfolding accepted
Covers-put_fence j n now x new c = ground (
  arith,
  new,
  c,
  last_fence-put_fence j n (new_command n now ∷ j.commands) now x.hub_name x.target_key,
  eq_iff n.hub_name x.hub_name,
  eq_iff n.target_key x.target_key,
)

both_differ :
    (p q : Command → Bool) (rows : List Command)
    → All (λ x. p x ≡ false) rows
    → All (λ x. q x ≡ false) rows
    → All (λ x. (p x ≡ false) × (q x ≡ false)) rows
both_differ p q [] a b = tt
both_differ p q (x ∷ rows) (ax, a) (bx, b) = ((ax, bx), both_differ p q rows a b)

pub accepted-IsValid :
    (j : Journal) (n : Normalized) (now : String)
    → IsValid j
    → 0 < n.fence
    → find (has_key n.hub_name n.idempotency_key) j.commands ≡ none
    → IsNew j n
    → IsValid (accepted j n now)
unfolding accepted
accepted-IsValid j n now v p free new = record {
  rows = (
    record {
      confirmed = omega arith;
      answered = refl;
      completed = refl;
      positive = p;
      storable = new.storable;
    },
    v.rows,
  );
  covered = (
    ground (
      arith,
      last_fence-put_fence j n (new_command n now ∷ j.commands) now n.hub_name n.target_key,
      str_eq_refl n.hub_name,
      str_eq_refl n.target_key,
    ),
    All-imp (IsCovered j) (IsCovered (accepted j n now)) j.commands
        (λ x c. Covers-put_fence j n now x new.current c) v.covered,
  );
  unique = (
    both_differ (is_command n.hub_name n.command_id) (has_key n.hub_name n.idempotency_key)
        j.commands (All-of_find-none (is_command n.hub_name n.command_id) j.commands new.free)
        (All-of_find-none (has_key n.hub_name n.idempotency_key) j.commands free),
    v.unique,
  );
}

pub receive-IsValid :
    (py : Python) (j : Journal) (hub : String) (m : Fields) (now : String) {j' : Journal}
    {r : Command} {b : Bool}
    → IsValid j
    → receive py j hub m now ≡ ok (j', r, b)
    → IsValid j'
receive-IsValid py j hub m now {j'} {r} {b} v h =
    let (n, p, receipt) = receive_inversion py j hub m now h in go n p receipt
  where
    go : (n : Normalized) → normalize_command py hub m ≡ ok n → Receipt j n now j' r b → IsValid j'
    go n p (replayed _ _ e _) = rw e v
    go n p (created free new e _ _) =
        rw e (accepted-IsValid j n now v (fence-positive py hub m p) free new)
