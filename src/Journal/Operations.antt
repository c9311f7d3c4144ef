-- ===== src/Journal/Operations.antt =====
-- The methods of AgentCommandJournal. One method is one transaction: it returns the new tables, or
-- raises and leaves them as they were. The clock is an argument.
use pitlane_agent.Common.{
  ℕ, ◌^◌, ◌-◌, min, max, String, Option, none, some, Bool, true, false, List, ◌∷◌, ◌&&◌, ◌||◌, not,
  ltb, leb, ◌==◌, str_eq, if◌then◌else◌, find, update, select, take, order_by,
}
use pitlane_agent.Common.Int.{ℤ, pos, negsuc, ltb_ℤ, max_ℤ}
use pitlane_agent.Common.Text.{strip, is_empty, take_text}
use pitlane_agent.Common.Json.{Value, Fields, object, end}
use pitlane_agent.Journal.Types.{
  Status, received, executing, succeeded, failed, is_terminal, status_rank, status_eq, parse_status,
  Error, Result, ok, err, ◌>>=◌, ◌>>◌, refuse, Command, Fence, Journal, unknown_command,
  invalid_terminal_status, invalid_confirmed_status, invalid_transition, invalid_response,
  key_conflict, terminal_conflict, unreached_confirmation, contradictory_confirmation,
  stale_command, integrity_error, overflow_error, json_error, invalid_payload,
}
use pitlane_agent.Journal.Contract.{Python, Normalized, normalize_command, require_object}

-- WHERE hub_name = ? AND command_id = ?
abbrev pub is_command : String → String → Command → Bool
is_command hub id r = str_eq r.hub_name hub && str_eq r.command_id id

-- WHERE hub_name = ? AND idempotency_key = ?
abbrev pub has_key : String → String → Command → Bool
has_key hub key r = str_eq r.hub_name hub && str_eq r.idempotency_key key

-- WHERE hub_name = ? AND target_key = ?
abbrev pub is_target : String → String → Fence → Bool
is_target hub target f = str_eq f.hub_name hub && str_eq f.target_key target

abbrev pub opt_str_eq : Option String → Option String → Bool
opt_str_eq none none = true
opt_str_eq (some a) (some b) = str_eq a b
opt_str_eq _ _ = false

-- The test of `_assert_same_command`.
abbrev pub same_command : Command → Normalized → Bool
same_command r n =
    str_eq r.command_id n.command_id
    && str_eq r.command_name n.command_name
    && opt_str_eq r.instance_id n.instance_id
    && str_eq r.payload_fingerprint n.payload_fingerprint
    && r.fence == n.fence

abbrev pub or_raise {ℓ} : {A : Type ℓ} → Option A → Error → Result A
or_raise none e = err e
or_raise (some a) e = ok a

-- `_record` and `get`.
unfoldable pub get : Journal → String → String → Result Command
get j hub id = or_raise (find (is_command hub id) j.commands) unknown_command

-- SELECT last_fence FROM agent_command_fence.
unfoldable pub last_fence : Journal → String → String → Option ℕ
last_fence j hub target = elim (find (is_target hub target) j.fences) [
  | none ↦ none
  | some f ↦ some f.last_fence
]

abbrev pub is_stale : Option ℕ → ℕ → Bool
is_stale none fence = false
is_stale (some last) fence = leb fence last

-- The largest INTEGER of SQLite.
abbrev pub max_integer : ℕ
max_integer = 2 ^ 63 - 1

abbrev pub new_command : Normalized → String → Command
new_command n now = record {
  hub_name = n.hub_name;
  command_id = n.command_id;
  idempotency_key = n.idempotency_key;
  command_name = n.command_name;
  instance_id = n.instance_id;
  target_key = n.target_key;
  fence = n.fence;
  payload_fingerprint = n.payload_fingerprint;
  payload_json = n.payload_json;
  status = received;
  confirmed_rank = negsuc 0;
  response_json = none;
  status_code = none;
  error_code = none;
  error_message = none;
  received_at = now;
  executing_at = none;
  completed_at = none;
  updated_at = now;
}

-- INSERT INTO agent_command, with its primary key; the key pair is known to be free.
unfoldable pub insert_command : List Command → Command → Result (List Command)
insert_command rows r = elim (find (is_command r.hub_name r.command_id) rows) [
  | none ↦ if ltb max_integer r.fence then err overflow_error else ok (r ∷ rows)
  | some _ ↦ if ltb max_integer r.fence then err overflow_error else err integrity_error
]

-- INSERT INTO agent_command_fence ... ON CONFLICT DO UPDATE.
unfoldable pub put_fence : List Fence → Normalized → String → List Fence
put_fence rows n now = elim (find (is_target n.hub_name n.target_key) rows) [
  | none ↦
      record {
        hub_name = n.hub_name;
        target_key = n.target_key;
        last_fence = n.fence;
        updated_at = now;
      }
      ∷ rows
  | some _ ↦
      update (is_target n.hub_name n.target_key)
        (λ f. record f { last_fence = n.fence; updated_at = now }) rows
]

-- `receive` below the transaction's first SELECT, when the key is new.
unfoldable pub record_new : Journal → Normalized → String → Result (Journal × Command × Bool)
unfolding insert_command put_fence last_fence get
record_new j n now = do
  refuse (is_stale (last_fence j n.hub_name n.target_key) n.fence) stale_command
  commands ← insert_command j.commands (new_command n now)
  let j' = record j { commands = commands; fences = put_fence j.fences n now }
  r ← get j' n.hub_name n.command_id
  ok (j', r, true)

unfoldable pub receive :
    Python → Journal → String → Fields → String → Result (Journal × Command × Bool)
receive py j hub message now = do
  n ← normalize_command py hub message
  elim (find (has_key n.hub_name n.idempotency_key) j.commands) [
    | none ↦ record_new j n now
    | some r ↦ if same_command r n then ok (j, r, false) else err key_conflict
  ]

-- UPDATE agent_command SET ... WHERE hub_name = ? AND command_id = ?
abbrev pub set_command : Journal → String → String → (Command → Command) → Journal
set_command j hub id f = record j { commands = update (is_command hub id) f j.commands }

-- COALESCE.
abbrev pub coalesce {ℓ} : {A : Type ℓ} → Option A → Option A → Option A
coalesce none b = b
coalesce (some a) b = some a

abbrev pub set_status : Status → String → Command → Command
set_status status now r = record r {
  status = status;
  executing_at = coalesce r.executing_at (if status_eq status executing then some now else none);
  updated_at = now;
}

-- `_transition`.
unfoldable pub transition : Journal → String → String → Status → String → Result (Journal × Command)
unfolding get
transition j hub id status now = do
  refuse (is_terminal status) invalid_transition
  r ← get j hub id
  if is_terminal r.status || ltb (status_rank status) (status_rank r.status)
      then ok (j, r)
      else do let j' = set_command j hub id (set_status status now); r' ← get j' hub id; ok (j', r')

unfoldable pub mark_executing : Journal → String → String → String → Result (Journal × Command)
unfolding transition
mark_executing j hub id now = transition j hub id executing now

-- `_bounded`.
unfoldable pub bounded : Option String → ℕ → Option String
bounded none n = none
bounded (some s) n = let s' = strip s in if is_empty s' then none else some (take_text n s')

abbrev pub set_terminal :
    Status → String → ℤ → Option String → Option String → String → Command → Command
set_terminal status response code error_code error_message now r = record r {
  status = status;
  response_json = some response;
  status_code = some code;
  error_code = bounded error_code 100;
  error_message = bounded error_message 4000;
  completed_at = coalesce r.completed_at (some now);
  updated_at = now;
}

-- What an INTEGER column takes, from `- 2 ^ 63` on.
abbrev pub is_integer : ℤ → Bool
is_integer (pos n) = leb n max_integer
is_integer (negsuc n) = leb n max_integer

-- The UPDATE raises OverflowError for a status code that is no INTEGER.
unfoldable pub mark_terminal :
    Python
    → Journal
    → String
    → String
    → Status
    → Value
    → ℤ
    → Option String
    → Option String
    → String
    → Result (Journal × Command)
unfolding get
mark_terminal py j hub id status response code error_code error_message now = do
  refuse (not (is_terminal status)) invalid_terminal_status
  body ← require_object response invalid_response
  r ← get j hub id
  if is_terminal r.status
      then (if status_eq r.status status then ok (j, r) else err terminal_conflict)
      else do
        refuse (not (is_integer code)) overflow_error
        let j' = set_command j hub id (
            set_terminal status (py.canonical_json (object body)) code error_code error_message now)
        r' ← get j' hub id
        ok (j', r')

-- The two refusals of `confirm`, for a row with the status `s`.
abbrev pub check_confirmation : Status → Status → Result (Unit {0})
check_confirmation status s =
    if ltb (status_rank s) (status_rank status)
    then err unreached_confirmation
    else if is_terminal status && is_terminal s && not (status_eq status s)
    then err contradictory_confirmation
    else ok tt

abbrev pub set_confirmed : ℤ → String → Command → Command
set_confirmed rank now r = record r { confirmed_rank = rank; updated_at = now }

unfoldable pub confirm : Journal → String → String → String → String → Result (Journal × Command)
unfolding get
confirm j hub id status now = do
  status ← or_raise (parse_status status) invalid_confirmed_status
  r ← get j hub id
  check_confirmation status r.status
  let rank = max_ℤ r.confirmed_rank (pos (status_rank status))
  let j' = set_command j hub id (set_confirmed rank now)
  r' ← get j' hub id
  ok (j', r')

-- The condition of `pending_acknowledgements` below the hub's name.
unfoldable pub is_unconfirmed : Command → Bool
is_unconfirmed r =
    (status_eq r.status received && ltb_ℤ r.confirmed_rank (pos 0))
    || (status_eq r.status executing && ltb_ℤ r.confirmed_rank (pos 1))
    || ((status_eq r.status succeeded || status_eq r.status failed)
        && ltb_ℤ r.confirmed_rank (pos 2))

-- `max(1, min(limit, 2000))`.
abbrev pub clamp_limit : ℕ → ℕ
clamp_limit limit = max 1 (min limit 2000)

unfoldable pub pending_acknowledgements : Journal → String → ℕ → List Command
unfolding is_unconfirmed
pending_acknowledgements j hub limit = take (clamp_limit limit) (
    order_by (λ r. r.updated_at)
      (select (λ r. str_eq r.hub_name hub && is_unconfirmed r) j.commands))

unfoldable pub is_incomplete : Command → Bool
is_incomplete r = status_eq r.status received || status_eq r.status executing

unfoldable pub incomplete_commands : Journal → String → ℕ → List Command
unfolding is_incomplete
incomplete_commands j hub limit = take (clamp_limit limit) (
    order_by (λ r. r.updated_at)
      (select (λ r. str_eq r.hub_name hub && is_incomplete r) j.commands))

abbrev pub above : Option ℕ → ℕ → Option ℕ
above none fence = none
above (some last) fence = if ltb fence last then some last else none

unfoldable pub superseding_fence : Journal → String → String → Result (Option ℕ)
unfolding get last_fence
superseding_fence j hub id = do r ← get j hub id; ok (above (last_fence j hub r.target_key) r.fence)

-- `payload` and `response`: what the rows hold as JSON, decoded.
unfoldable pub payload : Python → Command → Result Fields
payload py r = do
  v ← or_raise (py.json_loads (if is_empty r.payload_json then "{}" else r.payload_json)) json_error
  require_object v invalid_payload

abbrev pub or_empty_object : Value → Fields
or_empty_object (object d) = d
or_empty_object _ = end

unfoldable pub response : Python → Command → Result Fields
response py r = do
  v ←
      or_raise
        (py.json_loads
          (elim r.response_json [ none ↦ "{}" | some s ↦ if is_empty s then "{}" else s ]))
        json_error
  ok (or_empty_object v)
