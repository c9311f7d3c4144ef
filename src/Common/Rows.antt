-- ===== src/Common/Rows.antt =====
-- Lemmas about the statements over tables of rows.
use Prim.Native.Nat.{ℕ, zero, suc, ◌≤◌}
use Prim.Native.String.{String}
use mathlib.Core.Path.{◌≡◌, refl, ap}
use mathlib.Core.Logic.{◌⊎◌, inl, inr}
use mathlib.Core.Bool.{Bool, true, false, ◌||◌}
use mathlib.Core.Option.{Option, none, some}
use mathlib.Core.List.{List, [], ◌∷◌, Perm}
use mathlib.Core.List.Perm
use native.Mathlib.Omega.{arith}
use pitlane_agent.Common.Tests.{Bool-cases}
use pitlane_agent.Common.Table.{
  length, find, update, select, take, any, insert_by, order_by, le_text, All,
}

abbrev pub map_option {ℓ κ} : {A : Type ℓ} {B : Type κ} → (A → B) → Option A → Option B
map_option f none = none
map_option f (some a) = some (f a)

module _ {ℓ} {A : Type ℓ} where
  pub find_sound : (p : A → Bool) (xs : List A) {x : A} → find p xs ≡ some x → p x ≡ true
  unfolding find
  find_sound p [] e = cc
  find_sound p (y ∷ xs) e = elim (Bool-cases (p y)) [
    | inl t ↦ ground (arith, t)
    | inr f ↦ find_sound p xs (ground arith)
  ]

  -- An UPDATE of the rows that `p` holds of, when the change keeps `p`.
  pub find-update_self :
      (p : A → Bool) (f : A → A) (xs : List A)
      → ((x : A) → p (f x) ≡ p x)
      → find p (update p f xs) ≡ map_option f (find p xs)
  unfolding find update
  find-update_self p f [] k = refl
  find-update_self p f (x ∷ xs) k = ground (arith, k x, find-update_self p f xs k)

  -- An UPDATE does not reach the rows of another condition.
  pub find-update_other :
      (p q : A → Bool) (f : A → A) (xs : List A)
      → ((x : A) → q (f x) ≡ q x)
      → ((x : A) → q x ≡ true → p x ≡ false)
      → find q (update p f xs) ≡ find q xs
  unfolding find update
  find-update_other p q f [] k d = refl
  find-update_other p q f (x ∷ xs) k d = ground (arith, k x, d x, find-update_other p q f xs k d)

  -- An UPDATE that keeps the condition `q` keeps which row is found, up to the change.
  pub find-update-none :
      (p q : A → Bool) (f : A → A) (xs : List A)
      → ((x : A) → q (f x) ≡ q x)
      → find q xs ≡ none
      → find q (update p f xs) ≡ none
  unfolding find update
  find-update-none p q f [] k e = refl
  find-update-none p q f (x ∷ xs) k e = ground (arith, k x, find-update-none p q f xs k)

module _ {ℓ κ} {A : Type ℓ} (P : A → Type κ) where
  pub All-update :
      (p : A → Bool) (f : A → A) (xs : List A)
      → ((x : A) → p x ≡ true → P x → P (f x))
      → All P xs
      → All P (update p f xs)
  unfolding update
  All-update p f [] k h = tt
  All-update p f (x ∷ xs) k (hx, h) = elim (Bool-cases (p x)) [
    | inl t ↦ rw t (k x t hx, All-update p f xs k h)
    | inr n ↦ rw n (hx, All-update p f xs k h)
  ]

  pub All-select : (p : A → Bool) (xs : List A) → All P xs → All P (select p xs)
  unfolding select
  All-select p [] h = tt
  All-select p (x ∷ xs) (hx, h) = elim (Bool-cases (p x)) [
    | inl t ↦ rw t (hx, All-select p xs h)
    | inr n ↦ rw n (All-select p xs h)
  ]

  pub All-take : (n : ℕ) (xs : List A) → All P xs → All P (take n xs)
  unfolding take
  All-take (suc n) (x ∷ xs) (hx, h) = (hx, All-take n xs h)
  All-take _ _ h = tt

  All-insert_by :
      (key : A → String) (x : A) (xs : List A) → P x → All P xs → All P (insert_by key x xs)
  unfolding insert_by
  All-insert_by key x [] hx h = (hx, tt)
  All-insert_by key x (y ∷ ys) hx (hy, h) = elim (Bool-cases (le_text (key x) (key y))) [
    | inl t ↦ rw t (hx, (hy, h))
    | inr n ↦ rw n (hy, All-insert_by key x ys hx h)
  ]

  pub All-order_by : (key : A → String) (xs : List A) → All P xs → All P (order_by key xs)
  unfolding order_by
  All-order_by key [] h = tt
  All-order_by key (x ∷ xs) (hx, h) =
      All-insert_by key x (order_by key xs) hx (All-order_by key xs h)

pub All-imp {ℓ κ μ} :
    {A : Type ℓ} (P : A → Type κ) (Q : A → Type μ) (xs : List A)
    → ((x : A) → P x → Q x)
    → All P xs
    → All Q xs
All-imp P Q [] k h = tt
All-imp P Q (x ∷ xs) k (hx, h) = (k x hx, All-imp P Q xs k h)

-- An UPDATE, with a second fact known of every row.
pub All-update_with {ℓ κ μ} :
    {A : Type ℓ} (P : A → Type κ) (Q : A → Type μ) (p : A → Bool) (f : A → A) (xs : List A)
    → ((x : A) → p x ≡ true → Q x → P x → P (f x))
    → All Q xs
    → All P xs
    → All P (update p f xs)
unfolding update
All-update_with P Q p f [] k q h = tt
All-update_with P Q p f (x ∷ xs) k (qx, q) (hx, h) = elim (Bool-cases (p x)) [
  | inl t ↦ rw t (k x t qx hx, All-update_with P Q p f xs k q h)
  | inr n ↦ rw n (hx, All-update_with P Q p f xs k q h)
]

-- A SELECT that finds no row: the condition fails on every row.
pub All-of_find-none {ℓ} :
    {A : Type ℓ} (p : A → Bool) (xs : List A) → find p xs ≡ none → All (λ x. p x ≡ false) xs
unfolding find
All-of_find-none p [] e = tt
All-of_find-none p (x ∷ xs) e = elim (Bool-cases (p x)) [
  | inl t ↦ absurd (ground (arith, t))
  | inr n ↦ (n, All-of_find-none p xs (ground (arith, n)))
]

-- A row that a condition finds is found after an UPDATE that keeps the condition, as it was or as
-- the UPDATE makes it.
pub find-update_any {ℓ} :
    {A : Type ℓ} (p q : A → Bool) (f : A → A) (xs : List A) {x : A}
    → ((y : A) → q (f y) ≡ q y)
    → find q xs ≡ some x
    → (y : A) × (find q (update p f xs) ≡ some y) × ((y ≡ x) ⊎ (y ≡ f x))
unfolding find update
find-update_any p q f [] k e = absurd (cc)
find-update_any p q f (z ∷ xs) {x} k e = elim (Bool-cases (q z)) [
  | inl t ↦ elim (Bool-cases (p z)) [
    | inl u ↦ (f z, ground (arith, u, t, k z), inr (ground (arith, t)))
    | inr n ↦ (z, ground (arith, n, t), inl (ground (arith, t)))
  ]
  | inr n ↦
      let (y, found, one) = find-update_any p q f xs k (ground (arith, n)) in
      (y, ground (arith, n, k z, found), one)
]

-- The rows of a SELECT meet its condition.
pub All-of_select {ℓ} :
    {A : Type ℓ} (p : A → Bool) (xs : List A) → All (λ x. p x ≡ true) (select p xs)
unfolding select
All-of_select p [] = tt
All-of_select p (x ∷ xs) = elim (Bool-cases (p x)) [
  | inl t ↦ rw t (t, All-of_select p xs)
  | inr n ↦ rw n (All-of_select p xs)
]

module _ {ℓ} {A : Type ℓ} where
  pub take_of_length-le : (k : ℕ) (rows : List A) → length rows ≤ k → take k rows ≡ rows
  unfolding take
  take_of_length-le (suc k) (r ∷ rows) le =
      ap (λ (rest : List A). r ∷ rest) (take_of_length-le k rows (omega (arith, le)))
  take_of_length-le zero (r ∷ rows) le = absurd (omega (arith, le))
  take_of_length-le (suc k) [] le = refl
  take_of_length-le zero [] le = refl

  insert_by-perm : (key : A → String) (x : A) (xs : List A) → Perm (insert_by key x xs) (x ∷ xs)
  unfolding insert_by
  insert_by-perm key x [] = Perm.refl (x ∷ [])
  insert_by-perm key x (y ∷ ys) = elim (Bool-cases (le_text (key x) (key y))) [
    | inl t ↦ rw t (Perm.refl (x ∷ y ∷ ys))
    | inr n ↦ rw n (Perm.trans (Perm.cons y (insert_by-perm key x ys)) (Perm.swap x y ys))
  ]

  -- ORDER BY permutes the rows.
  pub order_by-perm : (key : A → String) (xs : List A) → Perm (order_by key xs) xs
  unfolding order_by
  order_by-perm key [] = Perm.refl []
  order_by-perm key (x ∷ xs) =
      Perm.trans (insert_by-perm key x (order_by key xs)) (Perm.cons x (order_by-perm key xs))

  pub length-insert_by :
      (key : A → String) (x : A) (xs : List A) → length (insert_by key x xs) ≡ suc (length xs)
  unfolding insert_by
  length-insert_by key x [] = refl
  length-insert_by key x (y ∷ ys) = ground (arith, length-insert_by key x ys)

  pub length-order_by : (key : A → String) (xs : List A) → length (order_by key xs) ≡ length xs
  unfolding order_by
  length-order_by key [] = refl
  length-order_by key (x ∷ xs) =
      omega (arith, length-insert_by key x (order_by key xs), length-order_by key xs)

module _ {ℓ} {A : Type ℓ} (q : A → Bool) (key : A → String) where
  pub any-insert_by : (x : A) (xs : List A) → any q (insert_by key x xs) ≡ (q x || any q xs)
  unfolding any insert_by
  any-insert_by x [] = ground arith
  any-insert_by x (y ∷ ys) = ground (arith, any-insert_by x ys)

  pub any-order_by : (xs : List A) → any q (order_by key xs) ≡ any q xs
  unfolding any order_by
  any-order_by [] = refl
  any-order_by (x ∷ xs) = ground (arith, any-insert_by x (order_by key xs), any-order_by xs)
