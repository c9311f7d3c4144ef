-- ===== src/Config/Redaction.antt =====
-- The copies of the fields that the agent fills in, and what the comparison after them guarantees.
use pitlane_agent.Common.{
  String, ◌≡◌, refl, sym, ap, ◌∙◌, Option, none, some, Bool, true, false, List, [], ◌∷◌, arith,
  Bool-cases, Option-cases, str_eq, eq_iff, str_eq_refl, inl, inr, any,
}
use pitlane_agent.Common.Json.{
  Value, Fields, null, boolean, integer, text, array, object, put, get, as_object,
}
use pitlane_agent.Config.Values.{
  entry, entry-put, get-entry, matches, eq_value, eq_fields, eq_fields-entry,
}
use pitlane_agent.Config.Bundle.{
  path_of, copy_path_value, object_or_empty, redact, accepted, compare_configs,
}

abbrev pub listed : String → List String → Bool
listed k = any (λ j. str_eq j k)

-- The `Server` object of a configuration.
abbrev pub server_of : Fields → Fields
server_of d = object_or_empty (get d "Server")

-- `t` differs from `m` at most in the fields `keys` of its `Server`.
record Differs (keys : List String) (m t : Fields) : Type 0 where
  top : (k : String) → str_eq "Server" k ≡ false → entry t k ≡ entry m k
  inner : (k : String) → listed k keys ≡ false → entry (server_of t) k ≡ entry (server_of m) k

get-put : (d : Fields) (k : String) (v : Value) → get (put d k v) k ≡ v
get-put d k v = get-entry (put d k v) k ∙ rw (entry-put d k k v, str_eq_refl k) refl

-- A copy that succeeds puts one value into the `Server` object.
copy_path_inv :
    (c t : Fields) (k : String) {u : Fields}
    → copy_path_value c t (path_of k) ≡ some u
    → (v : Value) × (u ≡ put t "Server" (object (put (server_of t) k v)))
unfolding copy_path_value
copy_path_inv c t k {u = u} h = elim (Option-cases (entry c "Server")) [
  | inl n ↦ absurd (ground (arith, h, n))
  | inr (s, p) ↦ elim (Option-cases (as_object s)) [
    | inl n ↦ absurd (ground (arith, h, p, n))
    | inr (d, q) ↦ elim (Option-cases (entry d k)) [
      | inl n ↦ absurd (ground (arith, h, p, q, n))
      | inr (v, r) ↦
          let e : some (put t "Server" (object (put (server_of t) k v))) ≡ some u =
            rw (p, copy_path_value, q, r) at h in
          (v, some_injective (sym e))
    ]
  ]
]
  where
    some_injective : {a b : Fields} → some a ≡ some b → a ≡ b
    some_injective e = cc

put-Differs :
    (k : String) (keys : List String) (m t : Fields) (v : Value)
    → listed k keys ≡ true
    → Differs keys m t
    → Differs keys m (put t "Server" (object (put (server_of t) k v)))
put-Differs k keys m t v in_keys h = record {
  top = λ j other.
      rw (entry-put t "Server" j (object (put (server_of t) k v)), other) (h.top j other);
  inner = λ j new.
      let other : str_eq k j ≡ false = elim (Bool-cases (str_eq k j)) [
        | inl t ↦ absurd (ground (arith, in_keys, new, t, eq_iff k j))
        | inr f ↦ f
      ] in
      rw (get-put t "Server" (object (put (server_of t) k v)), entry-put (server_of t) k j v, other)
        (h.inner j new);
}

redact-Differs :
    (c m t : Fields) (ks keys : List String) {u : Fields}
    → ((k : String) → listed k ks ≡ true → listed k keys ≡ true)
    → Differs keys m t
    → redact c t ks ≡ some u
    → Differs keys m u
unfolding redact any
redact-Differs c m t [] keys {u = u} sub h e = let same : t ≡ u = cc in rw same at h
redact-Differs c m t (k ∷ ks) keys sub h e = elim (Option-cases (copy_path_value c t (path_of k))) [
  | inl n ↦ absurd (ground (arith, e, n))
  | inr (t', p) ↦
      let (v, q) = copy_path_inv c t k p in
      let now : Differs keys m t' =
        rw q (put-Differs k keys m t v (sub k (ground (arith, str_eq_refl k))) h) in
      redact-Differs c m t' ks keys (λ j l. sub j (ground (arith, l))) now (rw (p, redact) at e)
]

-- The configuration `m` that is launched and the canonical one `c`: they hold the same values under
-- every key but `Server`, and in their `Server` objects under every key that is not in `keys`.
pub record Agrees (keys : List String) (m c : Fields) : Type 0 where
  pub top : (k : String) → str_eq "Server" k ≡ false → matches (entry m k) (entry c k) ≡ true
  pub server : Fields
  pub canonical : entry c "Server" ≡ some (object server)
  pub inner :
      (k : String) → listed k keys ≡ false → matches (entry (server_of m) k) (entry server k) ≡ true

matches_object :
    (o : Option Value) (d : Fields)
    → matches o (some (object d)) ≡ true
    → (e : Fields) × (o ≡ some (object e)) × (eq_fields e d ≡ true)
unfolding eq_fields eq_value
matches_object none d h = absurd (cc)
matches_object (some null) d h = absurd (cc)
matches_object (some (boolean b)) d h = absurd (cc)
matches_object (some (integer z)) d h = absurd (cc)
matches_object (some (text s)) d h = absurd (cc)
matches_object (some (array xs)) d h = absurd (cc)
matches_object (some (object e)) d h = (e, refl, h)

pub as_object_inv : (v : Value) {d : Fields} → as_object v ≡ some d → v ≡ object d
as_object_inv null h = absurd (cc)
as_object_inv (boolean b) h = absurd (cc)
as_object_inv (integer z) h = absurd (cc)
as_object_inv (text s) h = absurd (cc)
as_object_inv (array xs) h = absurd (cc)
as_object_inv (object d) h = cc

copy_path_server :
    (c t : Fields) (k : String) {u : Fields}
    → copy_path_value c t (path_of k) ≡ some u
    → (d : Fields) × (entry c "Server" ≡ some (object d))
unfolding copy_path_value
copy_path_server c t k h = elim (Option-cases (entry c "Server")) [
  | inl n ↦ absurd (ground (arith, h, n))
  | inr (s, p) ↦ elim (Option-cases (as_object s)) [
    | inl n ↦ absurd (ground (arith, h, p, n))
    | inr (d, q) ↦ (d, p ∙ ap (λ v. some v) (as_object_inv s q))
  ]
]

get-some : (d : Fields) (k : String) {v : Value} → entry d k ≡ some v → get d k ≡ v
get-some d k e = get-entry d k ∙ rw e refl

pub compare_accepts :
    (c m : Fields) (k : String) (ks : List String) (hash : String) {x : String}
    → compare_configs c m (k ∷ ks) hash ≡ accepted x
    → (hash ≡ x) × Agrees (k ∷ ks) m c
unfolding compare_configs redact
compare_accepts c m k ks hash h = elim (Option-cases (redact c m (k ∷ ks))) [
  | inl n ↦ absurd (ground (arith, h, n))
  | inr (u, p) ↦ elim (Bool-cases (eq_fields u c)) [
    | inr f ↦ absurd (ground (arith, h, p, f))
    | inl t ↦
        let differs =
          redact-Differs c m m (k ∷ ks) (k ∷ ks) (λ j l. l)
            (record { top = λ j o. refl; inner = λ j n. refl }) p in
        elim (Option-cases (copy_path_value c m (path_of k))) [
          | inl n ↦ absurd (ground (arith, p, n))
          | inr (t', q) ↦
              let (d, canonical) = copy_path_server c m k q in
              let (e, at, same) =
                matches_object (entry u "Server") d
                  (rw canonical at (eq_fields-entry u c "Server" t)) in
              let server : server_of u ≡ e = ap object_or_empty (get-some u "Server" at) in
              (
                ground (arith, h, p, t),
                record {
                  top = λ j o. rw (← differs.top j o) (eq_fields-entry u c j t);
                  server = d;
                  canonical = canonical;
                  inner = λ j n. rw (← differs.inner j n, server) (eq_fields-entry e d j same);
                },
              )
        ]
  ]
]
