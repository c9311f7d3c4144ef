-- ===== src/Tests/CoordinatorTests.antt =====
-- Runs of the coordinator and of the maintenance, and their theorems at them.
use pitlane_agent.Common.{
  ℕ, ◌≤◌, String, ◌≡◌, refl, none, some, Bool, true, false, List, [], ◌∷◌, find, select, update,
  take, order_by, any, if◌then◌else◌, ltb, ◌==◌,
}
use pitlane_agent.Common.Int.{pos}
use pitlane_agent.Common.Text.{strip, take_text}
use pitlane_agent.Common.Json.{Fields, text, object, end, field, get, put}
use pitlane_agent.Journal.Types.{executing, succeeded, failed, ok, Command, Journal}
use pitlane_agent.Journal.Contract.{normalize_command, text_of, int_of}
use pitlane_agent.Journal.Operations.{
  last_fence, superseding_fence, payload, bounded, is_unconfirmed, pending_acknowledgements,
}
use pitlane_agent.Journal.Operations
use pitlane_agent.Maintenance.Operations.{
  purge_confirmed_successes, metrics, count_rows, delete_commands, healthy, warning,
}
use pitlane_agent.Maintenance.Exact.{is_kept, purge_keeps, metrics_consistent}
use pitlane_agent.Coordinator.State.{Execution, answered, Environment, Key, Coordinator, is_member}
use pitlane_agent.Coordinator.Operations.{
  receive, replay_pending, schedule, execute, verdict_of, is_success, replay_record,
  interrupted_message,
}
use pitlane_agent.Coordinator.Execution.{execute_settles, execute_superseded, execute_repeats}
use pitlane_agent.Coordinator.Schedule.{
  Pool, keys, take_task, work, here, next, by_receive, by_replay, by_take, by_work, Reach-IsQueue,
}
use pitlane_agent.Coordinator.Jobs.{IsQueue}
use pitlane_agent.Coordinator.Workers.{begun}
use pitlane_agent.Coordinator.Replay.{replay_interrupted}
use pitlane_agent.Tests.JournalTests.{
  python, message, empty, first_row, first_journal, second_row, running_row, running_journal,
}

program : Unit {0}
unfolding find select update take order_by last_fence superseding_fence payload bounded
    is_unconfirmed pending_acknowledgements purge_confirmed_successes metrics count_rows
    delete_commands execute verdict_of is_success replay_record any get put strip take_text
    Operations.get
program = tt

-- A response with the code 500, or else 200.
abbrev reply : ℕ → Execution
reply code =
    if code == 500
    then answered (object end) (pos 500) refl
    else answered (object end) (pos 200) refl

-- Callbacks that return, and an executor that answers with the code.
abbrev environment : Bool → ℕ → Environment
environment acknowledges code = record {
  python = python;
  emit_ack = λ r d. acknowledges;
  after_terminal = true;
  submit = true;
  execute_command = λ c p. reply code;
  class_name = λ e. "ValueError";
  superseded_message = λ f l. "superseded";
}

abbrev coordinator : Journal → Coordinator
coordinator j = record {
  journal = j;
  scheduled = ("hub", "u1") ∷ [];
  tasks = [];
  acks = [];
  executions = [];
  terminal_calls = 0;
}

abbrev started_row : Command
started_row = record first_row { status = executing; executing_at = some "t7"; updated_at = "t7" }

abbrev done_row : Command
done_row = record started_row {
  status = succeeded;
  response_json = some "{}";
  status_code = some (pos 200);
  completed_at = some "t7";
}

abbrev one_call : List (String × Fields)
one_call = ("start", field "_pitlane_command_id" (text "u1") end) ∷ []

execute_settles_example :
    let t = (execute (environment true 200) "hub" "u1" "t7" (coordinator first_journal)).1 in
    (Operations.get t.journal "hub" "u1" ≡ ok done_row) × (t.executions ≡ one_call)
unfolding program
execute_settles_example =
    execute_settles (environment true 200) "hub" "u1" "t7" (coordinator first_journal)
      {r = first_row} refl refl refl refl

-- Two commands for one target: the second supersedes the first.
abbrev superseded_journal : Journal
superseded_journal = record {
  commands = second_row ∷ first_row ∷ [];
  fences =
      record { hub_name = "hub"; target_key = "instance:i1"; last_fence = 6; updated_at = "t2" }
      ∷ [];
}

execute_superseded_example :
    let t = (execute (environment true 200) "hub" "u1" "t7" (coordinator superseded_journal)).1 in
    (t.executions ≡ [])
    × (Operations.get t.journal "hub" "u1"
        ≡ ok (record first_row {
          status = failed;
          response_json = some "{}";
          status_code = some (pos 409);
          error_code = some "stale_fence";
          error_message = some "superseded";
          completed_at = some "t7";
          updated_at = "t7";
        }))
unfolding program
execute_superseded_example =
    execute_superseded (environment true 200) "hub" "u1" "t7" (coordinator superseded_journal)
      {r = first_row} refl 6 refl refl

abbrev done_journal : Journal
done_journal = record first_journal { commands = done_row ∷ [] }

execute_repeats_example :
    let t = (execute (environment true 500) "hub" "u1" "t8" (coordinator done_journal)).1 in
    (t.executions ≡ one_call) × (t.journal ≡ done_journal)
unfolding program
execute_repeats_example =
    execute_repeats (environment true 500) "hub" "u1" "t8" (coordinator done_journal) {r = done_row}
      refl refl refl refl

abbrev idle : Coordinator
idle = record {
  journal = empty;
  scheduled = [];
  tasks = [];
  acks = [];
  executions = [];
  terminal_calls = 0;
}

abbrev pool : Pool
pool = record { coordinator = idle; running = [] }

pool-IsQueue : IsQueue (keys pool.running) pool.coordinator
unfolding keys any
pool-IsQueue = record { covers = λ k. refl; waits_once = tt; runs_once = tt; apart = λ k. refl }

-- A command is received; a worker takes it and loads its row; the acknowledgements are replayed while it
-- runs.
abbrev received_one : Coordinator
received_one = (receive (environment true 200) "hub" (message "u1" "k1" 5) "t1" idle).1

abbrev u1 : Key
u1 = ("hub", "u1")

waits : is_member u1 received_one.tasks ≡ true
unfolding program receive schedule any Operations.receive normalize_command text_of int_of
    Operations.record_new
waits = refl

abbrev taken : Pool
taken = take_task u1 (record pool { coordinator = received_one })

abbrev worked : Pool
worked = work (environment true 200) "t2" [] u1 begun [] taken.coordinator

abbrev replayed : Coordinator
replayed = (replay_pending (environment true 200) "hub" 100 "t3" worked.coordinator).1

Reach-IsQueue_example : IsQueue (keys worked.running) replayed
unfolding take_task
Reach-IsQueue_example =
    Reach-IsQueue (environment true 200) {w = pool} {u = record worked { coordinator = replayed }}
      pool-IsQueue
      (next
        (next (next (next here (by_receive "hub" (message "u1" "k1" 5) "t1")) (by_take u1 waits))
          (by_work "t2" [] u1 begun [] refl))
        (by_replay "hub" 100 "t3"))

abbrev update_row : Command
update_row = record running_row { command_name = "steam_update" }

replay_interrupted_example :
    let s = coordinator (record running_journal { commands = update_row ∷ [] }) in
    let t = (replay_record (environment true 200) "hub" "t8" update_row false s).1 in
    (t.scheduled ≡ s.scheduled)
    × (t.tasks ≡ s.tasks)
    × (t.executions ≡ s.executions)
    × (Operations.get t.journal "hub" "u1"
        ≡ ok (record update_row {
          status = failed;
          response_json = some "{}";
          status_code = some (pos 500);
          error_code = some "execution_interrupted";
          error_message = some interrupted_message;
          completed_at = some "t8";
          updated_at = "t8";
        }))
unfolding program
replay_interrupted_example =
    replay_interrupted (environment true 200) "hub" "t8"
      (coordinator (record running_journal { commands = update_row ∷ [] })) update_row refl refl
      refl refl

abbrev confirmed_journal : Journal
confirmed_journal = record first_journal {
  commands = second_row ∷ record done_row { confirmed_rank = pos 2 } ∷ [];
}

purge_keeps_example :
    let r = purge_confirmed_successes (λ n. "t9") confirmed_journal 30 10 true in
    (select is_kept r.0.commands ≡ second_row ∷ [])
    × (r.0.fences ≡ confirmed_journal.fences)
    × ((purge_confirmed_successes (λ n. "t9") confirmed_journal 30 10 false).0 ≡ confirmed_journal)
unfolding program
purge_keeps_example = purge_keeps (λ n. "t9") confirmed_journal 30 10 true

metrics_consistent_example :
    let m = metrics (λ n. "t9") (λ n. "t0") confirmed_journal none 30 60 in
    (m.total ≡ 2)
    × (m.stale_acknowledgements ≤ m.pending_acknowledgements)
    × (m.status ≡ (if ltb 0 m.stale_acknowledgements then warning else healthy))
unfolding program
metrics_consistent_example = metrics_consistent (λ n. "t9") (λ n. "t0") confirmed_journal none 30 60
