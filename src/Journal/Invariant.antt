-- ===== src/Journal/Invariant.antt =====
-- What holds of the tables between two transactions.
use pitlane_agent.Common.{
  ℕ, ◌≤◌, ◌<◌, String, ◌≡◌, Option, none, some, Bool, true, false, List, [], ◌∷◌, inl, inr, arith,
  eq_iff, Bool-cases, find, update, select, All, All-imp, All-select, All-update_with,
}
use pitlane_agent.Common.Int.{pos, ◌≤ℤ◌}
use pitlane_agent.Journal.Types.{is_terminal, status_rank, Command, Journal}
use pitlane_agent.Journal.Operations.{is_command, has_key, last_fence, max_integer, set_command}

abbrev pub is_some {ℓ} : {A : Type ℓ} → Option A → Bool
is_some none = false
is_some (some a) = true

-- A row by itself: what the hub confirmed was reached, a terminal row has its response and its
-- time of completion and no other row has, the fence is a positive INTEGER.
pub record RowIsValid (r : Command) : Type 0 where
  pub confirmed : r.confirmed_rank ≤ℤ pos (status_rank r.status)
  pub answered : is_some r.response_json ≡ is_terminal r.status
  pub completed : is_some r.completed_at ≡ is_terminal r.status
  pub positive : 0 < r.fence
  pub storable : r.fence ≤ max_integer

abbrev pub Covers : Option ℕ → ℕ → Type 0
Covers none fence = ⊥
Covers (some last) fence = fence ≤ last

-- The fence table has seen the row's fence.
abbrev pub IsCovered : Journal → Command → Type 0
IsCovered j r = Covers (last_fence j r.hub_name r.target_key) r.fence

-- Neither the primary key nor the unique key is shared.
abbrev pub Differs : Command → Command → Type 0
Differs r s =
    (is_command r.hub_name r.command_id s ≡ false)
    × (has_key r.hub_name r.idempotency_key s ≡ false)

abbrev pub AreUnique : List Command → Type 0
AreUnique [] = Unit
AreUnique (r ∷ rows) = All (Differs r) rows × AreUnique rows

pub record IsValid (j : Journal) : Type 0 where
  pub rows : All RowIsValid j.commands
  pub covered : All (IsCovered j) j.commands
  pub unique : AreUnique j.commands

-- What no UPDATE of the program changes.
pub record SameIdentity (r s : Command) : Type 0 where
  pub hub_name : s.hub_name ≡ r.hub_name
  pub command_id : s.command_id ≡ r.command_id
  pub idempotency_key : s.idempotency_key ≡ r.idempotency_key
  pub target_key : s.target_key ≡ r.target_key
  pub fence : s.fence ≡ r.fence
  pub command_name : s.command_name ≡ r.command_name
  pub instance_id : s.instance_id ≡ r.instance_id
  pub payload_fingerprint : s.payload_fingerprint ≡ r.payload_fingerprint
  pub payload_json : s.payload_json ≡ r.payload_json
  pub received_at : s.received_at ≡ r.received_at

pub SameIdentity-refl : (r : Command) → SameIdentity r r
SameIdentity-refl r = ground arith

pub SameIdentity-trans : {r s t : Command} → SameIdentity r s → SameIdentity s t → SameIdentity r t
SameIdentity-trans h k = ground arith

-- Under the primary key there is one row at most.
only_found :
    (hub id : String) (rows : List Command) {r : Command}
    → AreUnique rows
    → find (is_command hub id) rows ≡ some r
    → All (λ x. is_command hub id x ≡ true → x ≡ r) rows
unfolding find
only_found hub id [] u e = tt
only_found hub id (x ∷ rows) {r} (d, u) e = elim (Bool-cases (is_command hub id x)) [
  | inl t ↦ (
    (λ _. ground (arith, t)),
    All-imp (Differs x) (λ y. is_command hub id y ≡ true → y ≡ r) rows
        (λ y dy ty. ground (arith, dy.0, ty, t, eq_iff x.hub_name hub, eq_iff x.command_id id)) d,
  )
  | inr n ↦ ((λ t. ground (arith, n, t)), only_found hub id rows u (ground (arith, n)))
]

module _ (f : Command → Command) (same : (x : Command) → SameIdentity x (f x))
    (p : Command → Bool) where
  Differs-update :
      (r : Command) (rows : List Command) → All (Differs r) rows → All (Differs r) (update p f rows)
  Differs-update r rows h =
      All-update_with (Differs r) (λ _. Unit {0}) p f rows
        (λ x _ _ d. ground (arith, d.0, d.1, same x))
        (All-imp (Differs r) (λ _. Unit {0}) rows (λ _ _. tt) h) h

  AreUnique-update : (rows : List Command) → AreUnique rows → AreUnique (update p f rows)
  unfolding update
  AreUnique-update [] u = tt
  AreUnique-update (x ∷ rows) (d, u) = elim (Bool-cases (p x)) [
    | inl t ↦ rw t (
      All-imp (Differs x) (Differs (f x)) (update p f rows)
          (λ y e. ground (arith, e.0, e.1, same x)) (Differs-update x rows d),
      AreUnique-update rows u,
    )
    | inr n ↦ rw n (Differs-update x rows d, AreUnique-update rows u)
  ]

pub AreUnique-select :
    (p : Command → Bool) (rows : List Command) → AreUnique rows → AreUnique (select p rows)
unfolding select
AreUnique-select p [] u = tt
AreUnique-select p (x ∷ rows) (d, u) = elim (Bool-cases (p x)) [
  | inl t ↦ rw t (All-select (Differs x) p rows d, AreUnique-select p rows u)
  | inr n ↦ rw n (AreUnique-select p rows u)
]

-- An UPDATE of the row `r` that makes a valid row of it.
pub set_command-IsValid :
    (j : Journal) (hub id : String) (f : Command → Command) {r : Command}
    → IsValid j
    → ((x : Command) → SameIdentity x (f x))
    → find (is_command hub id) j.commands ≡ some r
    → (RowIsValid r → RowIsValid (f r))
    → IsValid (set_command j hub id f)
unfolding last_fence
set_command-IsValid j hub id f {r} v same found k = record {
  rows =
      All-update_with RowIsValid (λ x. is_command hub id x ≡ true → x ≡ r) (is_command hub id) f
        j.commands (λ x t q h. rw (q t) (k (rw (q t) at h)))
        (only_found hub id j.commands v.unique found) v.rows;
  covered =
      All-update_with (IsCovered j) (λ _. Unit {0}) (is_command hub id) f j.commands
        (λ x _ _ c. rw ((same x).hub_name, (same x).target_key, (same x).fence) c)
        (All-imp (IsCovered j) (λ _. Unit {0}) j.commands (λ _ _. tt) v.covered) v.covered;
  unique = AreUnique-update f same (is_command hub id) j.commands v.unique;
}
