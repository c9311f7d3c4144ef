-- ===== src/Connection/Messages.antt =====
-- agent/services/hub_ws_client.py: what a connection does with the messages of its hub. The messages of
-- a batch are handled at one reading of the clock.
use pitlane_agent.Common.{
  ℕ, zero, String, Option, none, some, Bool, true, false, List, [], ◌∷◌, ◌++◌, ◌||◌, not, str_eq,
  if◌then◌else◌,
}
use pitlane_agent.Common.Int.{ℤ, pos, leb_ℤ}
use pitlane_agent.Common.Text.{strip, is_empty}
use pitlane_agent.Common.Json.{
  Value, Fields, null, boolean, integer, text, array, object, nil, end, field, get, as_object,
}
use pitlane_agent.Journal.Types.{Command}
use pitlane_agent.Journal.Contract.{Python, text_of, int_of}
use pitlane_agent.Coordinator.State.{journal_error, callback_error, Outcome, returned, raised}
use pitlane_agent.Coordinator.Operations.{receive, confirm}
use pitlane_agent.Connection.Backoff.{mark_received, is_alive}
use pitlane_agent.Connection.Inbox.{
  Reception, Drained, received as drained, closed, crashed, drain_available_messages,
}
use pitlane_agent.Runtime.Session.{
  send_sync, returned as session_returned, raised as session_raised,
}
use pitlane_agent.Connection.Frames.{Link, Client, send_json, refusal_code, id_of, refusal}

-- The handlers of the exceptions of `receive`.
unfoldable pub answer : Link → Fields → Outcome Command → Client → Bool × Client
unfolding refusal_code refusal send_json
answer link m (returned r) c = (true, c)
answer link m (raised callback_error) c = (false, c)
answer link m (raised (journal_error e)) c = elim (refusal_code e) [
  | none ↦ (false, c)
  | some code ↦ send_json link (refusal link m code e) c
]

unfoldable pub handle_durable_command : Link → Fields → String → Client → Bool × Client
unfolding answer
handle_durable_command link m now c =
    let r = receive link.environment link.hub_name m now c.coordinator in
    answer link m r.0 (record c { coordinator = r.1 })

-- The truth of a value.
unfoldable pub is_true : Value → Bool
is_true null = false
is_true (boolean b) = b
is_true (integer (pos zero)) = false
is_true (text s) = not (is_empty s)
is_true (array nil) = false
is_true (object end) = false
is_true _ = true

abbrev pub result_error : Value → String → Fields
result_error id message = field "type" (text "command_result") (
    field "id" id (
      field "ok" (boolean false) (field "payload" (object (field "error" (text message) end)) end)))

abbrev pub name_of : Value → Option String
name_of (text s) = if is_empty (strip s) then none else some s
name_of _ = none

-- `_handle_legacy_command`; the executor takes the command.
unfoldable pub handle_legacy_command : Link → Fields → Client → Bool × Client
unfolding send_json is_true
handle_legacy_command link m c =
    let id = get m "id" in
    let payload = get m "payload" in
    if not (is_true id)
    then send_json link (result_error null "id requis") c
    else elim (name_of (get m "command")) [
      | none ↦ send_json link (result_error id "command requis") c
      | some name ↦ (
        true,
        record c {
          submitted =
              c.submitted ++ (id, name, (if is_true payload then payload else object end)) ∷ [];
        },
      )
    ]

-- A contract error of `confirm` is dropped.
unfoldable pub is_dropped : Outcome Command → Bool
unfolding refusal_code
is_dropped (returned r) = true
is_dropped (raised callback_error) = false
is_dropped (raised (journal_error e)) = elim (refusal_code e) [ none ↦ false | some code ↦ true ]

unfoldable pub confirm_command_ack : Link → Fields → String → Client → Bool × Client
unfolding is_dropped
confirm_command_ack link m now c =
    let id = id_of link.environment.python m in
    let status = strip (text_of link.environment.python (get m "status")) in
    let r = confirm link.hub_name id status now c.coordinator in
    if is_empty id || is_empty status
    then (true, c)
    else (is_dropped r.0, record c { coordinator = r.1 })

-- The types of messages that are handled.
pub data Kind : Type 0 where
  command ack_confirmed ping pong state_request state_ack artifact_ack : Kind

unfoldable pub kind_of : Value → Option Kind
kind_of (text s) =
    if str_eq s "command"
    then some command
    else if str_eq s "command_ack_confirmed"
    then some ack_confirmed
    else if str_eq s "ping"
    then some ping
    else if str_eq s "pong"
    then some pong
    else if str_eq s "runtime_state_request"
    then some state_request
    else if str_eq s "runtime_state_ack"
    then some state_ack
    else if str_eq s "result_artifact_available_ack"
    then some artifact_ack
    else none
kind_of _ = none

-- `int(message.get('schema_version') or 1)`.
unfoldable pub schema_version : Python → Fields → Option ℤ
unfolding is_true
schema_version py m =
    let v = get m "schema_version" in if is_true v then int_of py v else some (pos 1)

unfoldable pub handle_command : Link → Fields → String → Client → Bool × Client
unfolding schema_version handle_durable_command handle_legacy_command
handle_command link m now c = elim (schema_version link.environment.python m) [
  | none ↦ (false, c)
  | some v ↦
      if leb_ℤ (pos 2) v
      then handle_durable_command link m now c
      else handle_legacy_command link m c
]

unfoldable pub sync_session : Link → Client → Bool × Client
sync_session link c =
    let r = send_sync link.environment.python link.socket link.runtime_state c.session in
    (elim r.0 [ session_returned b ↦ true | session_raised ↦ false ], record c { session = r.1 })

unfoldable pub mark_notified : Link → Fields → Client → Bool × Client
mark_notified link m c =
    let id = strip (text_of link.environment.python (get m "artifact_id")) in
    (true, if is_empty id then c else record c { notified = c.notified ++ id ∷ [] })

unfoldable pub dispatch_kind : Link → Kind → Fields → String → Client → Bool × Client
unfolding handle_command confirm_command_ack sync_session mark_notified
dispatch_kind link command m now c = handle_command link m now c
dispatch_kind link ack_confirmed m now c = confirm_command_ack link m now c
dispatch_kind link ping m now c = send_json link (field "type" (text "pong") end) c
dispatch_kind link pong m now c = (true, c)
dispatch_kind link state_request m now c = sync_session link c
dispatch_kind link state_ack m now c = (true, c)
dispatch_kind link artifact_ack m now c = mark_notified link m c

-- A frame's object with its kind, where it is one that is handled.
unfoldable pub read_message : Python → String → Option (Fields × Kind)
unfolding kind_of
read_message py raw = elim (py.json_loads raw) [
  | none ↦ none
  | some v ↦ elim (as_object v) [
    | none ↦ none
    | some m ↦ elim (kind_of (get m "type")) [ none ↦ none | some k ↦ some (m, k) ]
  ]
]

-- `tick` is the monotonic clock in milliseconds, `now` the time.
unfoldable pub handle_message : Link → ℕ → String → String → Client → Bool × Client
unfolding read_message dispatch_kind
handle_message link tick now raw c = elim (read_message link.environment.python raw) [
  | none ↦ (true, c)
  | some (m, k) ↦
      dispatch_kind link k m now (record c { heartbeat = mark_received tick c.heartbeat })
]

abbrev pub if_returned : Bool × Client → Option Client
if_returned (true, c) = some c
if_returned (false, c) = none

unfoldable pub handle_alive : Link → ℕ → String → String → Client → Option Client
unfolding handle_message
handle_alive link tick now raw c =
    if is_alive tick c.heartbeat then if_returned (handle_message link tick now raw c) else none

abbrev pub require_alive : ℕ → Drained Client → Drained Client
require_alive tick (drained n c rest) =
    if is_alive tick c.heartbeat then drained n c rest else crashed c
require_alive tick (closed c) = closed c
require_alive tick (crashed c) = crashed c

unfoldable pub receive_available_messages :
    Link → ℕ → String → ℕ → Client → List Reception → Drained Client
unfolding handle_alive
receive_available_messages link tick now limit c rs =
    if is_alive tick c.heartbeat
    then require_alive tick (drain_available_messages (handle_alive link tick now) limit c rs)
    else crashed c
