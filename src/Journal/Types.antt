-- ===== src/Journal/Types.antt =====
-- The tables of the journal, its errors and its statuses.
use pitlane_agent.Common.{
  ◌≡◌, refl, ◌⊎◌, inl, inr, ℕ, String, Option, none, some, Bool, true, false, List, str_eq,
  if◌then◌else◌,
}
use pitlane_agent.Common.Int.{ℤ}

pub data Status : Type 0 where
  received executing succeeded failed : Status

abbrev pub is_terminal : Status → Bool
is_terminal succeeded = true
is_terminal failed = true
is_terminal _ = false

abbrev pub status_rank : Status → ℕ
status_rank received = 0
status_rank executing = 1
status_rank succeeded = 2
status_rank failed = 2

abbrev pub status_eq : Status → Status → Bool
status_eq received received = true
status_eq executing executing = true
status_eq succeeded succeeded = true
status_eq failed failed = true
status_eq _ _ = false

-- Membership in STATUSES, with the status that the text names.
unfoldable pub parse_status : String → Option Status
parse_status s =
    if str_eq s "received"
    then some received
    else if str_eq s "executing"
    then some executing
    else if str_eq s "succeeded"
    then some succeeded
    else if str_eq s "failed"
    then some failed
    else none

-- What a method raises. The contract errors come first, then the conflicts, the stale command,
-- and what sqlite3 raises.
pub data Error : Type 0 where
  hub_name_required invalid_command_id invalid_idempotency_key invalid_command_name : Error
  target_required invalid_payload invalid_instance_id invalid_fence : Error
  unknown_command invalid_terminal_status invalid_confirmed_status invalid_transition : Error
  invalid_response : Error
  key_conflict terminal_conflict unreached_confirmation contradictory_confirmation : Error
  stale_command : Error
  integrity_error overflow_error json_error : Error

pub data Result {ℓ} (A : Type ℓ) : Type ℓ where
  err : Error → Result A
  ok : A → Result A

infixl 5 ◌>>=◌ ◌>>◌
abbrev pub ◌>>=◌ {ℓ κ} : {A : Type ℓ} {B : Type κ} → Result A → (A → Result B) → Result B
err e >>= rest = err e
ok a >>= rest = rest a

abbrev pub ◌>>◌ {ℓ} : {A : Type ℓ} → Result (Unit {0}) → Result A → Result A
first >> rest = first >>= λ done. rest

-- `if b: raise e`.
abbrev pub refuse : Bool → Error → Result (Unit {0})
refuse true e = err e
refuse false e = ok tt

-- A row of agent_command. Timestamps are the ISO texts that the columns hold.
pub record Command : Type 0 where
  pub hub_name : String
  pub command_id : String
  pub idempotency_key : String
  pub command_name : String
  pub instance_id : Option String
  pub target_key : String
  pub fence : ℕ
  pub payload_fingerprint : String
  pub payload_json : String
  pub status : Status
  pub confirmed_rank : ℤ
  pub response_json : Option String
  pub status_code : Option ℤ
  pub error_code : Option String
  pub error_message : Option String
  pub received_at : String
  pub executing_at : Option String
  pub completed_at : Option String
  pub updated_at : String

-- A row of agent_command_fence.
pub record Fence : Type 0 where
  pub hub_name : String
  pub target_key : String
  pub last_fence : ℕ
  pub updated_at : String

pub record Journal : Type 0 where
  pub commands : List Command
  pub fences : List Fence

pub Result-cases {ℓ} :
    {A : Type ℓ} (m : Result A) → ((a : A) × (m ≡ ok a)) ⊎ ((e : Error) × (m ≡ err e))
Result-cases (ok a) = inl (a, refl)
Result-cases (err e) = inr (e, refl)
