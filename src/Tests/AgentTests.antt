-- ===== src/Tests/AgentTests.antt =====
-- Runs of the connection and of the runtime state, and their theorems at them.
use pitlane_agent.Common.{find}
use pitlane_agent.Common.Text.{strip}
use pitlane_agent.Common.{
  ℕ, String, ◌≡◌, refl, Option, none, some, Bool, true, false, List, [], ◌∷◌, arith,
}
use pitlane_agent.Common.Int.{pos}
use pitlane_agent.Common.Json.{
  Fields, null, integer, text, array, object, nil, cons, end, field, get, put,
}
use pitlane_agent.Common.Dict.{lookup}
use pitlane_agent.Journal.Contract.{Python}
use pitlane_agent.Connection.Hello.{handshake, IsEventDriven, is_item, handshake_accepts_only}
use pitlane_agent.Runtime.Supervisor.{
  Poll, exited, RuntimeInfo, Supervisor, register, request_stop, observe_exit, IsDisjoint,
  TerminalInfo,
}
use pitlane_agent.Runtime.Exits.{by_register, Call-IsDisjoint, observe_exit_once}
use pitlane_agent.Runtime.Tracker.{
  Tracker, IsTracking, observe, observe_revision, observe-IsTracking, semantic_state_signature,
  signature_ignores_timestamps,
}
use pitlane_agent.Runtime.Tracker
use pitlane_agent.Runtime.Session.{
  Session, change, send_if_changed, returned, raised, send_if_changed_retries,
}
use pitlane_agent.Runtime.Guard.{
  Observation, Info, Callbacks, guard_instance, skipped, continued, precompetitive_processed,
}
use pitlane_agent.Journal.Types.{stale_command}
use pitlane_agent.Journal.Operations.{record_new, last_fence}
use pitlane_agent.Journal.Operations
use pitlane_agent.Journal.Contract.{normalize_command, payload_fingerprint, text_of, int_of}
use pitlane_agent.Coordinator.State.{answered, Environment}
use pitlane_agent.Connection.Frames.{Link, Client, refusal_code}
use pitlane_agent.Connection.Messages.{handle_command, is_true, schema_version}
use pitlane_agent.Connection.Answers.{IsRefusal, handle_command_refuses}
use pitlane_agent.Tests.JournalTests.{python, message, first_journal}

-- The hub's acknowledgement, which every text decodes to.
abbrev hello : Fields
hello = field "type" (text "hello_ack") (
    field "runtime_protocol_version" (integer (pos 2))
      (field "capabilities" (array (cons (text "event_driven_runtime_v2") nil)) end))

abbrev hub_python : Python
hub_python = record python { json_loads = λ s. some (object hello) }

handshake_accepts_only_example :
    (s : String) × (some "{}" ≡ some s)
    × (hub_python.json_loads s ≡ some (object hello))
    × IsEventDriven hello
unfolding handshake get is_item
handshake_accepts_only_example = handshake_accepts_only hub_python (some "{}") hello refl

-- The handler keeps what it saw.
abbrev keep : String → List String → Option (List String)
keep m ms = some (m ∷ ms)

abbrev info : RuntimeInfo ℕ String
info = record {
  process = some 42;
  payload = "server";
  exit_code_available = true;
  stop_requested_at = none;
  stop_reason = none;
}

abbrev supervisor : Supervisor ℕ String
supervisor = record { running = ("i1", info) ∷ []; terminated = [] }

abbrev poll : ℕ → Poll
poll p = exited (some (pos 3))

abbrev nothing : Supervisor ℕ String
nothing = record { running = []; terminated = [] }

nothing-IsDisjoint : IsDisjoint nothing
unfolding lookup
nothing-IsDisjoint = record { apart = λ id. tt }

Call-IsDisjoint_example : IsDisjoint (register "i1" info nothing)
Call-IsDisjoint_example = Call-IsDisjoint poll nothing-IsDisjoint (by_register "i1" info)

observe_exit_once_example :
    let s₁ = (request_stop "i1" "manual" "t1" supervisor).0 in
    let (s₂, seen) = observe_exit poll "i1" none "t2" s₁ in
    let t : TerminalInfo String = record {
      payload = "server";
      stop_requested_at = some "t1";
      stop_reason = some "manual";
      exit_code = some (pos 3);
      exit_observed_at = "t2";
      exit_origin = "process_exit";
    } in
    (seen ≡ some t)
    × (lookup "i1" s₂.running ≡ none)
    × (observe_exit poll "i1" (some (pos 9)) "t3" s₂ ≡ (s₂, some t))
unfolding lookup
observe_exit_once_example =
    observe_exit_once poll supervisor "i1" {info = info} {p = 42} {polled = some (pos 3)} "manual"
      "t1" "t2" "t3" (some (pos 9)) refl refl refl refl

-- A library that tells the state with a key "up" from all others.
abbrev signing : Python
signing = record python { canonical_json = λ v. elim v [ object (field k w d) ↦ k | _ ↦ "" ] }

abbrev up : Fields
up = field "up" null end

abbrev down : Fields
down = field "down" null end

abbrev fresh : Tracker
fresh = Tracker.init "boot"

fresh-IsTracking : IsTracking signing fresh
fresh-IsTracking = record { signed = λ d p. absurd (ground (arith, p)) }

abbrev session : Session
session = record { tracker = fresh; last_sent_revision = 0; sent = [] }

send_if_changed_retries_example :
    let failed = send_if_changed signing false up session in
    let later = send_if_changed signing true up failed.1 in
    let again = send_if_changed signing true up later.1 in
    (failed.0 ≡ raised)
    × (failed.1.sent ≡ [])
    × (later.0 ≡ returned true)
    × (later.1.sent
        ≡ (change, record { agent_boot_id = "boot"; runtime_revision = 1; payload = some up }) ∷ [])
    × (again.0 ≡ returned false)
    × (again.1.sent ≡ later.1.sent)
unfolding observe
send_if_changed_retries_example =
    send_if_changed_retries signing up session (record { bounded = omega arith }) (omega arith)

-- A restart seen in a race, and one before the competition.
abbrev racing : Observation
racing = record {
  season_restart_count = 1;
  season_restart_observed_at = some "t1";
  log_observed_from_start = true;
  sport_started_at = some "t0";
  race_started_at = some "t0";
  crash_detected_at = none;
}

abbrev waiting : Observation
waiting = record racing { sport_started_at = none; race_started_at = none }

abbrev armed : Info
armed = record {
  is_running = true;
  stop_on_season_restart = true;
  triggered = false;
  last_processed_count = 0;
  game_observation = none;
}

abbrev callbacks : Bool → Callbacks
callbacks works = record { persist = true; stop = works }

precompetitive_processed_example :
    let first = guard_instance (callbacks true) waiting armed in
    (first.1 ≡ continued)
    × (first.0.last_processed_count ≡ 1)
    × (first.0.triggered ≡ false)
    × (first.0.is_running ≡ true)
    × ((guard_instance (callbacks true) racing first.0).1 ≡ skipped)
unfolding guard_instance
precompetitive_processed_example =
    precompetitive_processed waiting racing (callbacks true) (callbacks true) armed refl
      (omega arith)

abbrev environment : Environment
environment = record {
  python = python;
  emit_ack = λ r d. true;
  after_terminal = true;
  submit = true;
  execute_command = λ c p. answered (object end) (pos 200) refl;
  class_name = λ e. "ValueError";
  superseded_message = λ f l. "superseded";
}

abbrev link : Link
link = record {
  environment = environment;
  hub_name = "hub";
  socket = true;
  runtime_state = up;
  error_text = λ e. "refused";
}

abbrev client : Client
client = record {
  coordinator = record {
    journal = first_journal;
    scheduled = [];
    tasks = [];
    acks = [];
    executions = [];
    terminal_calls = 0;
  };
  heartbeat = record { last_received_at = 1000 };
  session = session;
  sent = [];
  submitted = [];
  notified = [];
}

-- The fence 5 is journaled already.
abbrev late : Fields
late = put (message "u2" "k2" 5) "schema_version" (integer (pos 2))

handle_command_refuses_example :
    (f : Fields) × (handle_command link late "t2" client ≡ (true, record client { sent = f ∷ [] }))
    × IsRefusal link late "stale_fence" stale_command f
unfolding put schema_version is_true refusal_code Operations.receive normalize_command
    payload_fingerprint text_of int_of get strip record_new find last_fence
handle_command_refuses_example =
    handle_command_refuses link late "t2" client stale_command "stale_fence" (pos 2) refl refl refl
      refl refl
