-- ===== src/Runtime/Tracker.antt =====
-- agent/services/runtime_state_tracker.py: the identity of the exported facts, and their revision.
use pitlane_agent.Common.{
  ℕ, ◌+◌, String, ◌≡◌, refl, Option, none, some, Bool, true, false, not, str_eq, arith,
  if◌then◌else◌, eq_iff, le_text, Option-cases, inl, inr, ap, ◌∙◌,
}
use pitlane_agent.Common.Json.{Value, Items, Fields, array, object, nil, cons, end, field, get, put}
use pitlane_agent.Journal.Contract.{Python, text_of}

-- `d.pop(k, None)`.
unfoldable pub pop : String → Fields → Fields
pop k end = end
pop k (field j v d) = if str_eq j k then pop k d else field j v (pop k d)

-- An instance without its observation timestamps; what is no object stays.
unfoldable pub without_timestamps : Value → Value
unfolding pop
without_timestamps (object d) = object (pop "log_drivers_seen_at" (pop "drivers_seen_at" d))
without_timestamps v = v

unfoldable pub strip_instances : Items → Items
unfolding without_timestamps
strip_instances nil = nil
strip_instances (cons v vs) = cons (without_timestamps v) (strip_instances vs)

-- The sort key: `str(instance.get('id') or '')`.
unfoldable pub sort_key : Python → Value → String
sort_key py (object d) = text_of py (get d "id")
sort_key py v = ""

unfoldable pub insert_item : Python → Value → Items → Items
insert_item py v nil = cons v nil
insert_item py v (cons w ws) =
    let rest = insert_item py v ws in
    if le_text (sort_key py v) (sort_key py w) then cons v (cons w ws) else cons w rest

unfoldable pub sort_items : Python → Items → Items
unfolding insert_item sort_key
sort_items py nil = nil
sort_items py (cons v vs) = insert_item py v (sort_items py vs)

abbrev pub comparable_instances : Python → Value → Value
comparable_instances py (array vs) = array (sort_items py (strip_instances vs))
comparable_instances py v = v

-- The state that is compared; `instances` is a list where the key is there.
unfoldable pub comparable : Python → Fields → Fields
unfolding sort_items strip_instances
comparable py end = end
comparable py (field k v d) =
    if str_eq k "instances"
    then field k (comparable_instances py v) d
    else field k v (comparable py d)

unfoldable pub semantic_state_signature : Python → Fields → String
unfolding comparable
semantic_state_signature py state = py.canonical_json (object (comparable py state))

pub record Tracker : Type 0 where
  pub boot_id : String
  pub revision : ℕ
  pub signature : Option String
  pub state : Option Fields

abbrev pub init : String → Tracker
init boot_id = record { boot_id = boot_id; revision = 0; signature = none; state = none }

pub record Snapshot : Type 0 where
  pub agent_boot_id : String
  pub runtime_revision : ℕ
  pub payload : Option Fields

abbrev pub snapshot : Tracker → Snapshot
snapshot t = record { agent_boot_id = t.boot_id; runtime_revision = t.revision; payload = t.state }

abbrev pub is_none {ℓ} : {A : Type ℓ} → Option A → Bool
is_none none = true
is_none (some a) = false

abbrev pub differs : String → Option String → Bool
differs s none = true
differs s (some t) = not (str_eq s t)

unfoldable pub observe : Python → Fields → Tracker → Tracker × Snapshot
observe py state t =
    let signature = semantic_state_signature py state in
    let t' =
      if (if is_none t.state then true else differs signature t.signature)
      then record t { revision = t.revision + 1; signature = some signature; state = some state }
      else record t { state = some state } in
    (t', snapshot t')

unfoldable pub current : Tracker → Option Snapshot
current t = if is_none t.state then none else some (snapshot t)

-- A tracker that has observed has a signature.
pub record IsTracking (py : Python) (t : Tracker) : Type 0 where
  pub signed : (d : Fields) → t.state ≡ some d → t.signature ≡ some (semantic_state_signature py d)

pub observe-IsTracking :
    (py : Python) (d : Fields) (t : Tracker) → IsTracking py t → IsTracking py (observe py d t).0
unfolding observe
observe-IsTracking py d t v = record {
  signed = λ e p. elim (Option-cases t.state) [
    | inl n ↦ ground (arith, n, p)
    | inr (d₀, q) ↦ ground (
      arith,
      q,
      p,
      v.signed d₀ q,
      eq_iff (semantic_state_signature py d) (semantic_state_signature py d₀),
    )
  ];
}

-- Observing one state twice changes nothing the second time.
pub observe_again :
    (py : Python) (d : Fields) (t : Tracker)
    → observe py d (observe py d t).0 ≡ ((observe py d t).0, (observe py d t).1)
unfolding observe
observe_again py d t =
    ground (arith, eq_iff (semantic_state_signature py d) (semantic_state_signature py d))

-- A tracker that has observed a state keeps its revision when it observes a state with the same
-- signature, and makes it one larger for any other; its payload is the new state in both cases.
pub observe_revision :
    (py : Python) (d e : Fields) (t : Tracker)
    → IsTracking py t
    → t.state ≡ some d
    → ((observe py e t).1.runtime_revision ≡ (
        if str_eq (semantic_state_signature py e) (semantic_state_signature py d)
        then t.revision
        else t.revision + 1))
      × ((observe py e t).1.payload ≡ some e)
unfolding observe
observe_revision py d e t v p = ground (arith, v.signed d p, p)

pop-put : (k : String) (v : Value) (d : Fields) → pop k (put d k v) ≡ pop k d
unfolding pop put
pop-put k v end = ground (arith, eq_iff k k)
pop-put k v (field j w d) = ground (arith, pop-put k v d)

pop_comm : (k l : String) (d : Fields) → pop k (pop l d) ≡ pop l (pop k d)
unfolding pop
pop_comm k l end = refl
pop_comm k l (field j w d) = ground (arith, pop_comm k l d)

without_timestamps-put :
    (d : Fields) (v w : Value)
    → without_timestamps (object (put (put d "drivers_seen_at" v) "log_drivers_seen_at" w))
      ≡ without_timestamps (object d)
unfolding without_timestamps
without_timestamps-put d v w =
    let k : String = "drivers_seen_at" in
    let l : String = "log_drivers_seen_at" in
    ap object (
      pop_comm l k (put (put d k v) l w)
      ∙ ap (pop k) (pop-put l w (put d k v))
      ∙ pop_comm k l (put d k v)
      ∙ ap (pop l) (pop-put k v d))

-- The observation timestamps of an instance, whatever they are, are no part of the signature of a
-- state that lists the instance.
pub signature_ignores_timestamps :
    (py : Python) (d : Fields) (v w : Value) (others : Items) (rest : Fields)
    → semantic_state_signature py (
        field "instances"
          (array (cons (object (put (put d "drivers_seen_at" v) "log_drivers_seen_at" w)) others))
          rest)
      ≡ semantic_state_signature py (field "instances" (array (cons (object d) others)) rest)
unfolding semantic_state_signature
signature_ignores_timestamps py d v w others rest =
    ap
      (λ x.
        py.canonical_json (
          object
            (field "instances" (array (sort_items py (cons x (strip_instances others)))) rest)))
      (without_timestamps-put d v w)
