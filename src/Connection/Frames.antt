-- ===== src/Connection/Frames.antt =====
-- agent/services/hub_ws_client.py: the frames that the agent sends, and what a connection holds.
use pitlane_agent.Common.{
  String, Option, none, some, Bool, true, false, List, [], ◌∷◌, ◌++◌, if◌then◌else◌,
}
use pitlane_agent.Common.Int.{pos}
use pitlane_agent.Common.Text.{strip, is_empty}
use pitlane_agent.Common.Json.{Value, Fields, null, integer, text, object, end, field, get}
use pitlane_agent.Journal.Types.{
  Status, received, executing, succeeded, failed, is_terminal, Result, ok, err, Error, Command,
  key_conflict, terminal_conflict, unreached_confirmation, contradictory_confirmation,
  stale_command, integrity_error, overflow_error, json_error,
}
use pitlane_agent.Journal.Contract.{Python, text_of}
use pitlane_agent.Journal.Operations.{response}
use pitlane_agent.Coordinator.State.{Environment, Coordinator}
use pitlane_agent.Connection.Backoff.{HubHeartbeat}
use pitlane_agent.Runtime.Session.{Session}

-- What a connection is given: the coordinator's environment, the hub's name, whether the socket
-- takes frames, the runtime state that is built, the text of an exception.
pub record Link : Type 0 where
  pub environment : Environment
  pub hub_name : String
  pub socket : Bool
  pub runtime_state : Fields
  pub error_text : Error → String

-- What it changes; `sent` holds its own frames, `submitted` the legacy commands, `notified` the
-- artifacts that the hub has acknowledged.
pub record Client : Type 0 where
  pub coordinator : Coordinator
  pub heartbeat : HubHeartbeat
  pub session : Session
  pub sent : List Fields
  pub submitted : List (Value × String × Value)
  pub notified : List String

unfoldable pub status_text : Status → String
status_text received = "received"
status_text executing = "executing"
status_text succeeded = "succeeded"
status_text failed = "failed"

abbrev pub opt_text : Option String → Value
opt_text none = null
opt_text (some s) = text s

unfoldable pub occurred_at : Command → Option String
occurred_at r =
    if is_terminal r.status
    then r.completed_at
    else elim r.status [ executing ↦ r.executing_at | _ ↦ some r.received_at ]

-- `if record.get(...)`: a field of a text that is neither absent nor empty.
abbrev pub set_text : String → Option String → Fields → Fields
set_text k none d = d
set_text k (some s) d = if is_empty s then d else field k (text s) d

abbrev pub terminal_fields : Command → Fields → Fields
terminal_fields r payload =
    field "payload" (object payload)
      (set_text "code" r.error_code (set_text "error" r.error_message end))

abbrev pub ack_fields : Command → Fields → Fields
ack_fields r rest = field "type" (text "command_ack") (
    field "schema_version" (integer (pos 1)) (
      field "id" (text r.command_id) (
        field "status" (text (status_text r.status))
          (field "occurred_at" (opt_text (occurred_at r)) rest))))

-- `_send_command_ack`, up to the sending.
unfoldable pub command_ack : Python → Command → Option Fields → Result Fields
unfolding status_text occurred_at response
command_ack py r given =
    if is_terminal r.status
    then elim given [
      | some payload ↦ ok (ack_fields r (terminal_fields r payload))
      | none ↦ elim (response py r) [
        | ok payload ↦ ok (ack_fields r (terminal_fields r payload))
        | err e ↦ err e
      ]
    ]
    else ok (ack_fields r end)

-- A handler returns, or raises where the Boolean is `false`.
unfoldable pub send_json : Link → Fields → Client → Bool × Client
send_json link frame c =
    if link.socket then (true, record c { sent = c.sent ++ frame ∷ [] }) else (false, c)

-- The code that a contract error is answered with; the exceptions of sqlite3 and of the JSON decoder
-- have none.
unfoldable pub refusal_code : Error → Option String
refusal_code stale_command = some "stale_fence"
refusal_code key_conflict = some "idempotency_conflict"
refusal_code terminal_conflict = some "idempotency_conflict"
refusal_code unreached_confirmation = some "idempotency_conflict"
refusal_code contradictory_confirmation = some "idempotency_conflict"
refusal_code integrity_error = none
refusal_code overflow_error = none
refusal_code json_error = none
refusal_code _ = some "invalid_command"

abbrev pub id_of : Python → Fields → String
id_of py m = strip (text_of py (get m "id"))

unfoldable pub refusal : Link → Fields → String → Error → Fields
refusal link m code e =
    let id = id_of link.environment.python m in
    field "type" (text "command_ack") (
      field "schema_version" (integer (pos 1)) (
        field "id" (if is_empty id then null else text id) (
          field "status" (text "failed") (
            field "code" (text code) (
              field "error" (text (link.error_text e)) (
                field "payload"
                  (object (field "code" (text code) (field "error" (text (link.error_text e)) end)))
                  end))))))
