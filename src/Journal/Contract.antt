-- ===== src/Journal/Contract.antt =====
-- `_normalize_command`: what the journal accepts from a hub.
use pitlane_agent.Common.{
  ℕ, suc, String, Option, none, some, Bool, true, false, ◌||◌, ltb, if◌then◌else◌,
}
use Prim.Native.String.{◌++◌}
use pitlane_agent.Common.Int.{ℤ, pos}
use pitlane_agent.Common.Text.{strip, len, is_empty}
use pitlane_agent.Common.Json.{
  Value, Fields, null, boolean, integer, text, array, object, nil, end, field, get,
}
use pitlane_agent.Journal.Types.{
  Error, Result, ok, err, ◌>>=◌, ◌>>◌, refuse, hub_name_required, invalid_command_id,
  invalid_idempotency_key, invalid_command_name, target_required, invalid_payload,
  invalid_instance_id, invalid_fence,
}

-- What the journal calls of Python's library: `str` of a value that is no text, `uuid.UUID` as a
-- test, `int` of a text, `json.dumps` in the canonical form, `json.loads`
-- (`none` for ValueError), `sha256` in hexadecimal.
pub record Python : Type 0 where
  pub str_of : Value → String
  pub is_uuid : String → Bool
  pub int_of_text : String → Option ℤ
  pub canonical_json : Value → String
  pub json_loads : String → Option Value
  pub sha256 : String → String

-- `str(v or '')`.
unfoldable pub text_of : Python → Value → String
text_of py null = ""
text_of py (boolean false) = ""
text_of py (integer (pos ℕ.zero)) = ""
text_of py (text s) = s
text_of py (array nil) = ""
text_of py (object end) = ""
text_of py v = py.str_of v

-- `int(v)`; `none` for TypeError and ValueError.
unfoldable pub int_of : Python → Value → Option ℤ
int_of py (boolean true) = some (pos 1)
int_of py (boolean false) = some (pos 0)
int_of py (integer n) = some n
int_of py (text s) = py.int_of_text s
int_of py _ = none

-- The dictionary that `_normalize_command` returns.
pub record Normalized : Type 0 where
  pub hub_name : String
  pub command_id : String
  pub idempotency_key : String
  pub command_name : String
  pub instance_id : Option String
  pub target_key : String
  pub fence : ℕ
  pub payload_fingerprint : String
  pub payload_json : String

abbrev pub opt_value : Option String → Value
opt_value none = null
opt_value (some s) = text s

-- `_payload_fingerprint`.
unfoldable pub payload_fingerprint : Python → String → Option String → Fields → String
payload_fingerprint py command instance_id payload = py.sha256 (
    py.canonical_json (
      object (
        field "command" (text command)
          (field "instance_id" (opt_value instance_id) (field "payload" (object payload) end)))))

-- `isinstance(v, dict)` or an error.
abbrev pub require_object : Value → Error → Result Fields
require_object (object d) e = ok d
require_object _ e = err e

-- `s or None`.
abbrev pub or_none : String → Option String
or_none s = if is_empty s then none else some s

abbrev pub too_long : Option String → ℕ → Bool
too_long none n = false
too_long (some s) n = ltb n (len s)

-- The fence as a positive integer.
unfoldable pub fence_of : Option ℤ → Result ℕ
fence_of (some (pos (suc n))) = ok (suc n)
fence_of _ = err invalid_fence

abbrev pub target_key_of : Option String → String
target_key_of none = "server"
target_key_of (some s) = "instance:" ++ s

unfoldable pub normalize_command : Python → String → Fields → Result Normalized
unfolding fence_of
normalize_command py hub message = do
  let hub_name = strip hub
  let command_id = strip (text_of py (get message "id"))
  let idempotency_key = strip (text_of py (get message "idempotency_key"))
  let command_name = strip (text_of py (get message "command"))
  refuse (is_empty hub_name) hub_name_required
  refuse (if py.is_uuid command_id then false else true) invalid_command_id
  refuse (is_empty idempotency_key || ltb 128 (len idempotency_key)) invalid_idempotency_key
  refuse (is_empty command_name || ltb 80 (len command_name)) invalid_command_name
  target ← require_object (get message "target") target_required
  payload ← require_object (get message "payload") invalid_payload
  let instance_id = or_none (strip (text_of py (get target "instance_id")))
  refuse (too_long instance_id 100) invalid_instance_id
  fence ← fence_of (int_of py (get target "fence"))
  ok (record {
    hub_name = hub_name;
    command_id = command_id;
    idempotency_key = idempotency_key;
    command_name = command_name;
    instance_id = instance_id;
    target_key = target_key_of instance_id;
    fence = fence;
    payload_fingerprint = payload_fingerprint py command_name instance_id payload;
    payload_json = py.canonical_json (object payload);
  })
