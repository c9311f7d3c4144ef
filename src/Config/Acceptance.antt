-- ===== src/Config/Acceptance.antt =====
-- What the validation of a bundle guarantees of the configuration that is launched.
use pitlane_agent.Common.{
  String, ◌≡◌, refl, sym, ap, ◌∙◌, Bool, true, false, List, ◌∷◌, ◌&&◌, arith, Bool-cases,
  Option-cases, str_eq, eq_iff, if◌then◌else◌, inl, inr, ◌==◌,
}
use pitlane_agent.Common.Text.{strip, len}
use pitlane_agent.Common.Int.{pos}
use pitlane_agent.Common.Json.{
  Value, Fields, null, boolean, integer, text, array, object, get, as_object,
}
use pitlane_agent.Config.Values.{eq_value, eq_number}
use pitlane_agent.Config.Bundle.{
  Hashing, accepted, check_hash, check_configs, check_schema, validate_runtime_bundle, announced,
  schema_of, Schema, known, unsupported, legacy_keys, materialized_keys, unhashable, all_hex,
}
use pitlane_agent.Config.Redaction.{Agrees, compare_accepts, as_object_inv}

-- What an accepted bundle is.
pub record IsAccepted (h : Hashing) (bundle announced_hash materialized : Value) (x : String)
    : Type 0 where
  pub fields : Fields
  pub canonical : Fields
  pub launched : Fields
  pub keys : List String
  pub is_bundle : bundle ≡ object fields
  pub is_launched : materialized ≡ object launched
  pub is_canonical : get fields "runtime_config" ≡ object canonical
  pub schema : schema_of (get fields "schema_version") ≡ known keys
  pub announces : h.lower (strip (h.str_or_empty announced_hash)) ≡ x
  pub hash : (h.bundle_hash fields ≡ x) × (len x ≡ 64) × (all_hex x ≡ true)
  pub agrees : Agrees keys launched canonical

check_hash_accepts :
    (h : Hashing) (b : Fields) (a : Value) (c m : Fields) (k : String) (ks : List String)
    {x : String}
    → check_hash h b a c m (k ∷ ks) ≡ accepted x
    → (h.lower (strip (h.str_or_empty a)) ≡ x)
      × (((h.bundle_hash b ≡ x) × (len x ≡ 64) × (all_hex x ≡ true)) × Agrees (k ∷ ks) m c)
unfolding check_hash
check_hash_accepts h b a c m k ks {x = x} e =
    let hash = h.lower (strip (h.str_or_empty a)) in
    elim (Bool-cases (len hash == 64 && all_hex hash)) [
      | inr f ↦ absurd (ground (arith, e, f))
      | inl t ↦ elim (Bool-cases (str_eq (h.bundle_hash b) hash)) [
        | inr f ↦ absurd (ground (arith, e, t, f))
        | inl same ↦
            let (is, agrees) = compare_accepts c m k ks hash (rw (t, same) at e) in
            let right : (h.bundle_hash b ≡ hash) × (len hash ≡ 64) × (all_hex hash ≡ true) = (
              ground (arith, same, eq_iff (h.bundle_hash b) hash),
              ground (arith, t),
              ground (arith, t),
            ) in
            (is, (rw is at right, agrees))
      ]
    ]

accepts_known :
    (h : Hashing) (b : Fields) (a w : Value) (s : Schema) {x : String}
    → check_schema h b a w s ≡ accepted x
    → (keys : List String) × (s ≡ known keys)
      × (check_configs h b a (get b "runtime_config") w keys ≡ accepted x)
accepts_known h b a w unhashable e = absurd (cc)
accepts_known h b a w unsupported e = absurd (cc)
accepts_known h b a w (known keys) e =
    elim (Bool-cases (eq_value (get b "materialized_fields") (array (announced keys)))) [
      | inr f ↦ absurd (ground (arith, e, f))
      | inl t ↦ (keys, refl, rw t at e)
    ]

known_injective : {k l : List String} → known k ≡ known l → k ≡ l
known_injective e = cc

version_keys :
    (first second : Bool) {keys : List String}
    → (if first then known legacy_keys else if second then known materialized_keys else unsupported)
      ≡ known keys
    → (k : String) × ((ks : List String) × (keys ≡ k ∷ ks))
version_keys true second e = (_, (_, sym (known_injective e)))
version_keys false true e = (_, (_, sym (known_injective e)))
version_keys false false e = absurd (cc)

-- A list of fields that belongs to a version is not empty.
schema_keys :
    (v : Value) {keys : List String}
    → schema_of v ≡ known keys
    → (k : String) × ((ks : List String) × (keys ≡ k ∷ ks))
schema_keys null e = absurd (cc)
schema_keys (text s) e = absurd (cc)
schema_keys (array xs) e = absurd (cc)
schema_keys (object d) e = absurd (cc)
schema_keys (boolean b) e =
    version_keys (eq_number (pos 1) (boolean b)) (eq_number (pos 2) (boolean b)) e
schema_keys (integer z) e =
    version_keys (eq_number (pos 1) (integer z)) (eq_number (pos 2) (integer z)) e

check_configs_accepts :
    (h : Hashing) (b : Fields) (a c w : Value) (k : String) (ks : List String) {x : String}
    → check_configs h b a c w (k ∷ ks) ≡ accepted x
    → (d : Fields) × ((m : Fields) × ((c ≡ object d)
          × (w ≡ object m)
          × (check_hash h b a d m (k ∷ ks) ≡ accepted x)))
unfolding check_configs
check_configs_accepts h b a c w k ks e = elim (Option-cases (as_object c)) [
  | inl n ↦ absurd (ground (arith, e, n))
  | inr (d, p) ↦ elim (Option-cases (as_object w)) [
    | inl n ↦ absurd (ground (arith, e, p, n))
    | inr (m, q) ↦ (d, (m, (as_object_inv c p, as_object_inv w q, rw (p, check_configs, q) at e)))
  ]
]

-- A bundle is accepted only if the hash that is announced for it, stripped and in lower case, is that of
-- its content and has 64 hexadecimal digits, its schema is known, and the configuration that is launched agrees with the canonical one:
-- under every key but `Server`, and inside `Server` under every key but those that the schema leaves to
-- the agent.
pub validate_runtime_bundle_accepts :
    (h : Hashing) (bundle a materialized : Value) {x : String}
    → validate_runtime_bundle h bundle a materialized ≡ accepted x
    → IsAccepted h bundle a materialized x
unfolding validate_runtime_bundle
validate_runtime_bundle_accepts h bundle a materialized e = elim (Option-cases (as_object bundle)) [
  | inl n ↦ absurd (ground (arith, e, n))
  | inr (b, p) ↦
      let (keys, schema, e') =
        accepts_known h b a materialized _ (rw (p, validate_runtime_bundle) at e) in
      let (k, (ks, q)) = schema_keys (get b "schema_version") schema in
      let (d, (m, (is_c, is_m, e''))) =
        check_configs_accepts h b a (get b "runtime_config") materialized k ks (rw q at e') in
      let (announces, (hash, agrees)) = check_hash_accepts h b a d m k ks e'' in
      record {
        fields = b;
        canonical = d;
        launched = m;
        keys = k ∷ ks;
        is_bundle = as_object_inv bundle p;
        is_launched = is_m;
        is_canonical = is_c;
        schema = schema ∙ ap (λ l. known l) q;
        announces = announces;
        hash = hash;
        agrees = agrees;
      }
]
