-- ===== src/Coordinator/Keys.antt =====
-- Lists of keys that stand for sets.
use pitlane_agent.Common.{
  ◌≡◌, refl, true, false, List, [], ◌∷◌, ◌++◌, ◌&&◌, ◌||◌, not, arith, Bool-cases, inl, inr, any,
  select, eq_iff,
}
use pitlane_agent.Coordinator.State.{Key, is_member, discard, key_eq}

-- No key stands twice.
abbrev pub IsDistinct : List Key → Type 0
IsDistinct [] = Unit
IsDistinct (k ∷ ks) = (is_member k ks ≡ false) × IsDistinct ks

pub key_eq_sym : (a b : Key) → key_eq a b ≡ key_eq b a
key_eq_sym (h, i) (h', i') = ground (arith, eq_iff h h', eq_iff h' h, eq_iff i i', eq_iff i' i)

pub member-append :
    (a k : Key) (ks : List Key)
    → is_member a ks ≡ false
    → key_eq a k ≡ false
    → is_member a (ks ++ k ∷ []) ≡ false
unfolding any
member-append a k [] m e = ground (arith, e)
member-append a k (x ∷ ks) m e = ground (arith, m, e, member-append a k ks)

pub IsDistinct-append :
    (k : Key) (ks : List Key) → IsDistinct ks → is_member k ks ≡ false → IsDistinct (ks ++ k ∷ [])
unfolding any
IsDistinct-append k [] d m = (refl, tt)
IsDistinct-append k (x ∷ ks) (n, d) m = (
  member-append x k ks n (ground (arith, m, key_eq_sym x k)),
  IsDistinct-append k ks d (ground (arith, m)),
)

pub key_eq_refl : (k : Key) → key_eq k k ≡ true
key_eq_refl (h, i) = ground (arith, eq_iff h h, eq_iff i i)

pub discard-append :
    (k : Key) (ks : List Key) → is_member k ks ≡ false → discard k (ks ++ k ∷ []) ≡ ks
unfolding any select
discard-append k [] m = rw (key_eq_refl k)
discard-append k (x ∷ ks) m = ground (arith, m, discard-append k ks)

pub member-discard :
    (a k : Key) (ks : List Key) → is_member a ks ≡ false → is_member a (discard k ks) ≡ false
unfolding any select
member-discard a k [] m = refl
member-discard a k (x ∷ ks) m = ground (arith, m, member-discard a k ks)

pub IsDistinct-discard : (k : Key) (ks : List Key) → IsDistinct ks → IsDistinct (discard k ks)
unfolding select
IsDistinct-discard k [] d = tt
IsDistinct-discard k (x ∷ ks) (n, d) = elim (Bool-cases (key_eq k x)) [
  | inl t ↦ rw t (IsDistinct-discard k ks d)
  | inr f ↦ rw f (member-discard x k ks n, IsDistinct-discard k ks d)
]

pub member-append_all :
    (a : Key) (ks js : List Key) → is_member a (ks ++ js) ≡ (is_member a ks || is_member a js)
unfolding any
member-append_all a [] js = refl
member-append_all a (k ∷ ks) js = ground (arith, member-append_all a ks js)

key_eq_replace : (k x a : Key) → key_eq k x ≡ true → key_eq a x ≡ key_eq k a
key_eq_replace (h, i) (h', i') (g, j) t =
    ground (arith, t, eq_iff h h', eq_iff i i', eq_iff g h', eq_iff j i', eq_iff h g, eq_iff i j)

-- What a set holds after a key was discarded.
pub member-discard_iff :
    (a k : Key) (ks : List Key) → is_member a (discard k ks) ≡ (is_member a ks && not (key_eq k a))
unfolding any select
member-discard_iff a k [] = ground arith
member-discard_iff a k (x ∷ ks) = elim (Bool-cases (key_eq k x)) [
  | inl t ↦ ground (arith, t, key_eq_replace k x a t, member-discard_iff a k ks)
  | inr f ↦ elim (Bool-cases (key_eq a x)) [
    | inr g ↦ ground (arith, f, g, member-discard_iff a k ks)
    | inl t ↦
        ground (arith, f, t, key_eq_replace a x k t, key_eq_sym a k, member-discard_iff a k ks)
  ]
]

-- Equal keys are in the same sets.
pub member_same : (k j : Key) (ks : List Key) → key_eq k j ≡ true → is_member k ks ≡ is_member j ks
unfolding any
member_same k j [] t = refl
member_same k j (x ∷ ks) t =
    ground (arith, member_same k j ks t, key_eq_sym j x, key_eq_sym k x, key_eq_replace k j x t)

pub member_middle : (k : Key) (ks js : List Key) → is_member k (ks ++ k ∷ js) ≡ true
unfolding any
member_middle k ks js = ground (arith, member-append_all k ks (k ∷ js), key_eq_refl k)

discard_absent : (k : Key) (ks : List Key) → is_member k ks ≡ false → discard k ks ≡ ks
unfolding any select
discard_absent k [] m = refl
discard_absent k (x ∷ ks) m = ground (arith, m, discard_absent k ks)

-- Discarding a key that stands once takes it out.
pub discard_middle :
    (k : Key) (ks js : List Key) → IsDistinct (ks ++ k ∷ js) → discard k (ks ++ k ∷ js) ≡ ks ++ js
unfolding any select
discard_middle k [] js (n, d) = ground (arith, key_eq_refl k, discard_absent k js n)
discard_middle k (x ∷ ks) js (n, d) =
    ground (arith, member-append_all x ks (k ∷ js), n, key_eq_sym x k, discard_middle k ks js d)
