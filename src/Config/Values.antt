-- ===== src/Config/Values.antt =====
-- Python's `==` on decoded JSON, and `in` and `get` with a missing key told from `None`.
use pitlane_agent.Common.{
  String, ◌≡◌, refl, Option, none, some, Bool, true, false, ◌&&◌, arith, Bool-cases, Option-cases,
  str_eq, eq_iff, ◌==◌, if◌then◌else◌, inl, inr,
}
use pitlane_agent.Common.Int.{ℤ, pos, pos_part, neg_part}
use pitlane_agent.Common.Json.{
  Value, Items, Fields, null, boolean, integer, text, array, object, nil, cons, end, field, put,
  get,
}

-- `d[k]`, where `k` is in `d`.
unfoldable pub entry : Fields → String → Option Value
entry end k = none
entry (field j v d) k = if str_eq j k then some v else entry d k

abbrev pub has_key : Fields → String → Bool
has_key d k = elim (entry d k) [ none ↦ false | some _ ↦ true ]

abbrev pub eq_int : ℤ → ℤ → Bool
eq_int a b = (pos_part a == pos_part b) && (neg_part a == neg_part b)

-- A Boolean is a number.
abbrev pub number : Value → Option ℤ
number (boolean b) = some (pos (if b then 1 else 0))
number (integer z) = some z
number _ = none

abbrev pub eq_number : ℤ → Value → Bool
eq_number a v = elim (number v) [ none ↦ false | some b ↦ eq_int a b ]

-- Every key of the second is one of the first.
unfoldable pub knows_keys : Fields → Fields → Bool
unfolding entry
knows_keys d end = true
knows_keys d (field k v e) = has_key d k && knows_keys d e

abbrev at_entry : (Value → Bool) → Option Value → Bool
at_entry p none = false
at_entry p (some w) = p w

unfoldable mutual
  unfolding entry knows_keys

  pub eq_value : Value → Value → Bool
  eq_value null null = true
  eq_value null _ = false
  eq_value (boolean b) w = eq_number (pos (if b then 1 else 0)) w
  eq_value (integer z) w = eq_number z w
  eq_value (text s) (text t) = str_eq s t
  eq_value (text s) _ = false
  eq_value (array xs) (array ys) = eq_items xs ys
  eq_value (array xs) _ = false
  eq_value (object d) (object e) = let all = holds_all d e in all && knows_keys d e
  eq_value (object d) _ = false

  pub eq_items : Items → Items → Bool
  eq_items nil nil = true
  eq_items nil (cons _ _) = false
  eq_items (cons x xs) nil = false
  eq_items (cons x xs) (cons y ys) = let a = eq_value x y in let b = eq_items xs ys in a && b

  -- Every entry of the first is one of the second.
  pub holds_all : Fields → Fields → Bool
  holds_all end e = true
  holds_all (field k v d) e = let rest = holds_all d e in at_entry (eq_value v) (entry e k) && rest

-- `==` of two dicts: the same keys, with equal values.
unfoldable pub eq_fields : Fields → Fields → Bool
unfolding holds_all knows_keys
eq_fields d e = holds_all d e && knows_keys d e

-- Two dicts at a key: neither has it, or both with equal values.
abbrev pub matches : Option Value → Option Value → Bool
matches none none = true
matches none (some w) = false
matches (some v) none = false
matches (some v) (some w) = eq_value v w

pub entry-put :
    (d : Fields) (k j : String) (v : Value)
    → entry (put d k v) j ≡ (if str_eq k j then some v else entry d j)
unfolding entry put
entry-put end k j v = refl
entry-put (field i w d) k j v =
    ground (arith, entry-put d k j v, eq_iff i k, eq_iff i j, eq_iff k j)

pub get-entry :
    (d : Fields) (k : String)
    → get d k ≡ elim (entry d k) as (λ _. Value) [ none ↦ null | some v ↦ v ]
unfolding entry get
get-entry end k = refl
get-entry (field j v d) k = elim (Bool-cases (str_eq j k)) [
  | inl t ↦ rw t refl
  | inr f ↦ rw f (get-entry d k)
]

first : (a b : Bool) → (a && b) ≡ true → a ≡ true
first a b h = ground (arith, h)

second : (a b : Bool) → (a && b) ≡ true → b ≡ true
second a b h = ground (arith, h)

holds_all-entry :
    (d e : Fields) (k : String) (v : Value)
    → holds_all d e ≡ true
    → entry d k ≡ some v
    → (w : Value) × (entry e k ≡ some w) × (eq_value v w ≡ true)
unfolding holds_all entry
holds_all-entry end e k v h p = absurd (cc)
holds_all-entry (field j x d) e k v h p = elim (Option-cases (entry e j)) [
  | inl n ↦ absurd (ground (arith, h, n))
  | inr (w, q) ↦
      let both : (eq_value x w && holds_all d e) ≡ true = rw q at h in
      elim (Bool-cases (str_eq j k)) [
        | inl t ↦
            let here : j ≡ k = ground (arith, t, eq_iff j k) in
            let it : some x ≡ some v = rw t at p in
            let value : x ≡ v = cc in
            (w, rw (← here) q, rw (← value) (first (eq_value x w) (holds_all d e) both))
        | inr f ↦ holds_all-entry d e k v (second (eq_value x w) (holds_all d e) both) (rw f at p)
      ]
]

knows_keys-entry :
    (d e : Fields) (k : String) → knows_keys d e ≡ true → entry d k ≡ none → entry e k ≡ none
unfolding knows_keys entry
knows_keys-entry d end k h n = refl
knows_keys-entry d (field j v e) k h n = elim (Bool-cases (str_eq j k)) [
  | inl t ↦ absurd (ground (arith, h, n, t, eq_iff j k))
  | inr f ↦ rw f (knows_keys-entry d e k (ground (arith, h)) n)
]

pub eq_fields-entry :
    (d e : Fields) (k : String) → eq_fields d e ≡ true → matches (entry d k) (entry e k) ≡ true
unfolding eq_fields
eq_fields-entry d e k h = elim (Option-cases (entry d k)) [
  | inl n ↦ rw (n, knows_keys-entry d e k (ground (arith, h)) n) refl
  | inr (v, p) ↦ let (w, q, same) = holds_all-entry d e k v (ground (arith, h)) p in rw (p, q) same
]
