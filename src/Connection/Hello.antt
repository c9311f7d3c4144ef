-- ===== src/Connection/Hello.antt =====
-- `await_hello_acknowledgement` and `require_event_driven_runtime`.
use pitlane_agent.Common.{
  ℕ, String, ◌≡◌, refl, inl, inr, Option, none, some, Bool, true, false, ◌||◌, not, str_eq, arith,
  if◌then◌else◌, ◌==◌, Option-cases,
}
use pitlane_agent.Common.Int.{pos}
use pitlane_agent.Common.Text.{strip, is_empty}
use pitlane_agent.Common.Json.{Value, Items, Fields, integer, text, array, object, nil, cons, get}
use pitlane_agent.Journal.Contract.{Python, text_of}

pub data AuthenticationError : Type 0 where
  closed_before_acknowledgement invalid_acknowledgement missing_hello_ack incompatible_hub :
      AuthenticationError
  refused : String → AuthenticationError

pub data Reply {ℓ} (A : Type ℓ) : Type ℓ where
  accepted : A → Reply A
  failed : AuthenticationError → Reply A

-- `v == "..."` for a text, `v == 2` for a number.
abbrev pub is_text : String → Value → Bool
is_text s (text t) = str_eq t s
is_text s _ = false

abbrev pub is_number : ℕ → Value → Bool
is_number n (integer (pos m)) = m == n
is_number n _ = false

-- `s in v`, for a list.
unfoldable pub is_item : String → Items → Bool
is_item s nil = false
is_item s (cons v vs) = is_text s v || is_item s vs

-- The code of a refusal.
abbrev pub code_or_unauthorized : Python → Value → String
code_or_unauthorized py v =
    let code = text_of py v in strip (if is_empty code then "unauthorized" else code)

abbrev pub read_object : Option Value → Option Fields
read_object (some (object d)) = some d
read_object _ = none

-- The frame that `recv` gave; `none` if the socket was closed.
unfoldable pub await_hello_acknowledgement : Python → Option String → Reply Fields
await_hello_acknowledgement py none = failed closed_before_acknowledgement
await_hello_acknowledgement py (some raw) = elim (read_object (py.json_loads raw)) [
  | none ↦ failed invalid_acknowledgement
  | some d ↦
      if is_text "hello_ack" (get d "type")
      then accepted d
      else if is_text "error" (get d "type")
      then failed (refused (code_or_unauthorized py (get d "code")))
      else failed missing_hello_ack
]

abbrev pub supports_runtime_v2 : Value → Bool
supports_runtime_v2 (array vs) = is_item "event_driven_runtime_v2" vs
supports_runtime_v2 _ = false

unfoldable pub require_event_driven_runtime : Fields → Reply (Unit {0})
require_event_driven_runtime d =
    if not (is_number 2 (get d "runtime_protocol_version"))
      || not (supports_runtime_v2 (get d "capabilities"))
    then failed incompatible_hub
    else accepted tt

-- The two calls of `_run_hub_client`, before the connection counts as established.
unfoldable pub handshake : Python → Option String → Reply Fields
unfolding await_hello_acknowledgement require_event_driven_runtime
handshake py raw = elim (await_hello_acknowledgement py raw) [
  | failed e ↦ failed e
  | accepted d ↦ elim (require_event_driven_runtime d) [
    | failed e ↦ failed e
    | accepted _ ↦ accepted d
  ]
]

-- What an acknowledgement must be.
pub record IsEventDriven (d : Fields) : Type 0 where
  pub hello : is_text "hello_ack" (get d "type") ≡ true
  pub version : is_number 2 (get d "runtime_protocol_version") ≡ true
  pub runtime : supports_runtime_v2 (get d "capabilities") ≡ true

-- The handshake succeeds on every frame that decodes to a `hello_ack` object of protocol version 2
-- with the event driven capability.
pub handshake_accepts :
    (py : Python) (raw : String) (d : Fields)
    → py.json_loads raw ≡ some (object d)
    → IsEventDriven d
    → handshake py (some raw) ≡ accepted d
unfolding handshake
handshake_accepts py raw d p h = ground (arith, p)

read_object-some : (o : Option Value) {d : Fields} → read_object o ≡ some d → o ≡ some (object d)
read_object-some (some (object d)) e = ground (arith, e)
read_object-some _ e = absurd (ground (arith, e))

-- A handshake succeeds only on a frame that decodes to a `hello_ack` object of protocol version 2
-- with the event driven capability.
pub handshake_accepts_only :
    (py : Python) (raw : Option String) (d : Fields)
    → handshake py raw ≡ accepted d
    → (s : String) × (raw ≡ some s) × (py.json_loads s ≡ some (object d)) × IsEventDriven d
unfolding handshake
handshake_accepts_only py none d h = absurd (ground (arith, h))
handshake_accepts_only py (some s) d h = elim (Option-cases (read_object (py.json_loads s))) [
  | inl e ↦ absurd (ground (arith, e, h))
  | inr (d', e) ↦
      let p : d' ≡ d = ground (arith, e, h) in
      (
        s,
        refl,
        rw (← p) (read_object-some (py.json_loads s) e),
        record {
          hello = ground (arith, e, h);
          version = ground (arith, e, h);
          runtime = ground (arith, e, h);
        },
      )
]
