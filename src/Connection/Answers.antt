-- ===== src/Connection/Answers.antt =====
-- What the hub is answered.
use pitlane_agent.Common.{
  ℕ, String, ◌≡◌, refl, Option, none, some, true, false, [], ◌∷◌, ◌++◌, arith, Option-cases, inl,
  inr,
}
use pitlane_agent.Common.Int.{ℤ, pos, leb_ℤ}
use pitlane_agent.Common.Json.{Fields, integer, text, object, field, end, get}
use pitlane_agent.Common.Text.{strip, is_empty}
use pitlane_agent.Journal.Contract.{text_of}
use pitlane_agent.Journal.Types.{err, Error, Command}
use pitlane_agent.Journal.Operations
use pitlane_agent.Coordinator.State.{Outcome, returned, raised, journal_error, callback_error}
use pitlane_agent.Coordinator.Operations.{receive}
use pitlane_agent.Connection.Backoff.{HubHeartbeat, mark_received}
use pitlane_agent.Connection.Frames.{Link, Client, send_json, refusal_code, refusal}
use pitlane_agent.Connection.Messages.{
  Kind, command, ack_confirmed, ping, pong, state_request, state_ack, artifact_ack, answer,
  handle_durable_command, handle_legacy_command, handle_command, schema_version,
  confirm_command_ack, sync_session, mark_notified, dispatch_kind, read_message, handle_message,
}

-- The frame acknowledges the message as failed, with a code, the text of the error, and both again as
-- its payload.
pub record IsRefusal (link : Link) (m : Fields) (code : String) (e : Error) (f : Fields)
    : Type 0 where
  pub type : get f "type" ≡ text "command_ack"
  pub version : get f "schema_version" ≡ integer (pos 1)
  pub id :
      (s : String)
      → strip (text_of link.environment.python (get m "id")) ≡ s
      → is_empty s ≡ false
      → get f "id" ≡ text s
  pub status : get f "status" ≡ text "failed"
  pub failure : get f "code" ≡ text code
  pub error : get f "error" ≡ text (link.error_text e)
  pub payload :
      (p : Fields) × (get f "payload" ≡ object p)
      × (get p "code" ≡ text code)
      × (get p "error" ≡ text (link.error_text e))

refusal-IsRefusal :
    (link : Link) (m : Fields) (code : String) (e : Error)
    → IsRefusal link m code e (refusal link m code e)
unfolding refusal get
refusal-IsRefusal link m code e = record {
  type = refl;
  version = refl;
  id = λ s same given. ground (arith, same, given);
  status = refl;
  failure = refl;
  error = refl;
  payload = (_, refl, refl, refl);
}

-- A durable command (schema version 2 or more) that the journal refuses with a contract error changes
-- nothing but that one frame is sent, if the socket takes it: it acknowledges the command of this id
-- as failed, with the code and the text of the error.
pub handle_command_refuses :
    (link : Link) (m : Fields) (now : String) (c : Client) (e : Error) (code : String) (v : ℤ)
    → schema_version link.environment.python m ≡ some v
    → leb_ℤ (pos 2) v ≡ true
    → Operations.receive link.environment.python c.coordinator.journal link.hub_name m now ≡ err e
    → refusal_code e ≡ some code
    → link.socket ≡ true
    → (f : Fields) × (handle_command link m now c ≡ (true, record c { sent = c.sent ++ f ∷ [] }))
      × IsRefusal link m code e f
unfolding handle_command handle_durable_command answer send_json receive
handle_command_refuses link m now c e code v version durable refused coded takes = (
  refusal link m code e,
  ground (arith, version, durable, refused, coded, takes),
  refusal-IsRefusal link m code e,
)

kept_by_send :
    (link : Link) (f : Fields) (c : Client) → (send_json link f c).1.heartbeat ≡ c.heartbeat
unfolding send_json
kept_by_send link f c = ground arith

kept_by_answer :
    (link : Link) (m : Fields) (o : Outcome Command) (c : Client)
    → (answer link m o c).1.heartbeat ≡ c.heartbeat
unfolding answer
kept_by_answer link m (returned r) c = refl
kept_by_answer link m (raised callback_error) c = refl
kept_by_answer link m (raised (journal_error e)) c = elim (Option-cases (refusal_code e)) [
  | inl n ↦ ground (arith, n)
  | inr (code, p) ↦ ground (arith, p, kept_by_send link (refusal link m code e) c)
]

kept_by_legacy :
    (link : Link) (m : Fields) (c : Client)
    → (handle_legacy_command link m c).1.heartbeat ≡ c.heartbeat
unfolding handle_legacy_command send_json
kept_by_legacy link m c = ground arith

kept_by_command :
    (link : Link) (m : Fields) (now : String) (c : Client)
    → (handle_command link m now c).1.heartbeat ≡ c.heartbeat
unfolding handle_command handle_durable_command
kept_by_command link m now c =
    let r = receive link.environment link.hub_name m now c.coordinator in
    ground
      (arith, kept_by_answer link m r.0 (record c { coordinator = r.1 }), kept_by_legacy link m c)

kept_by_dispatch :
    (link : Link) (k : Kind) (m : Fields) (now : String) (c : Client)
    → (dispatch_kind link k m now c).1.heartbeat ≡ c.heartbeat
unfolding dispatch_kind confirm_command_ack sync_session mark_notified
kept_by_dispatch link command m now c = kept_by_command link m now c
kept_by_dispatch link ack_confirmed m now c = ground arith
kept_by_dispatch link ping m now c = kept_by_send link (field "type" (text "pong") end) c
kept_by_dispatch link pong m now c = refl
kept_by_dispatch link state_request m now c = ground arith
kept_by_dispatch link state_ack m now c = refl
kept_by_dispatch link artifact_ack m now c = ground arith

-- The heartbeat that a frame should leave.
abbrev heartbeat_after : ℕ → Option (Fields × Kind) → HubHeartbeat → HubHeartbeat
heartbeat_after tick none h = h
heartbeat_after tick (some _) h = mark_received tick h

-- A frame counts as a sign of life exactly where it holds an object of a known type, even if its
-- handler raises.
pub handle_message-heartbeat :
    (link : Link) (tick : ℕ) (now raw : String) (c : Client)
    → (handle_message link tick now raw c).1.heartbeat
      ≡ heartbeat_after tick (read_message link.environment.python raw) c.heartbeat
unfolding handle_message
handle_message-heartbeat link tick now raw c =
    elim (Option-cases (read_message link.environment.python raw)) [
      | inl n ↦ rw (n, handle_message) refl
      | inr ((m, k), p) ↦
          rw (p, handle_message)
            (kept_by_dispatch link k m now
              (record c { heartbeat = mark_received tick c.heartbeat }))
    ]
