-- ===== src/Tests/JournalTests.antt =====
-- Runs of the journal, and its theorems at them.
use pitlane_agent.Common.{
  ℕ, ◌≤◌, ◌<◌, String, ◌≡◌, ◌≢◌, refl, none, some, true, false, [], ◌∷◌, ◌||◌, str_eq, arith, find,
  select, update, take, order_by,
}
use mathlib.Core.List.{Perm}
use pitlane_agent.Common.Int.{pos, negsuc}
use pitlane_agent.Common.Text.{strip}
use pitlane_agent.Common.Json.{Fields, integer, text, object, end, field, get}
use pitlane_agent.Journal.Types.{
  received, executing, ok, err, Command, Journal, parse_status, integrity_error,
}
use pitlane_agent.Journal.Contract.{
  Python, Normalized, normalize_command, text_of, int_of, payload_fingerprint,
}
use pitlane_agent.Journal.Operations.{
  receive, record_new, mark_executing, mark_terminal, confirm, last_fence, is_unconfirmed,
  pending_acknowledgements, superseding_fence, get as get_command,
}
use pitlane_agent.Journal.Invariant.{IsValid, SameIdentity}
use pitlane_agent.Journal.Outcomes.{accepted}
use pitlane_agent.Journal.Receipts.{IsJournaled, receive_new_key}
use pitlane_agent.Journal.Steps.{
  Run, Reach, by_transaction, by_purge, by_mark_executing, by_receive, here, next, Reach-IsValid,
}
use pitlane_agent.Journal.Fences.{Reach-Grows, fence_never_reused, never_created_twice}
use pitlane_agent.Journal.Progress.{receive_again, Run-row, Progress}
use pitlane_agent.Journal.Acknowledgements.{pending_acknowledgements_complete, is_open}
use pitlane_agent.Maintenance.Operations.{purge_confirmed_successes}

-- A library whose JSON texts are all "{}".
abbrev pub python : Python
python = record {
  str_of = λ v. "?";
  is_uuid = λ s. str_eq s "u1" || str_eq s "u2";
  int_of_text = λ s. none;
  canonical_json = λ v. "{}";
  json_loads = λ s. some (object end);
  sha256 = λ s. s;
}

-- A command for an instance.
abbrev pub message : String → String → ℕ → Fields
message id key fence = field "id" (text id) (
    field "idempotency_key" (text key) (
      field "command" (text "start") (
        field "target"
          (object (field "instance_id" (text "i1") (field "fence" (integer (pos fence)) end)))
          (field "payload" (object end) end))))

abbrev pub empty : Journal
empty = record { commands = []; fences = [] }

program : Unit {0}
unfolding receive normalize_command payload_fingerprint purge_confirmed_successes accepted text_of
    int_of get strip record_new mark_executing mark_terminal confirm get_command find update select
    take order_by last_fence parse_status superseding_fence pending_acknowledgements is_unconfirmed
program = tt

abbrev pub first_row : Command
first_row = record {
  hub_name = "hub";
  command_id = "u1";
  idempotency_key = "k1";
  command_name = "start";
  instance_id = some "i1";
  target_key = "instance:i1";
  fence = 5;
  payload_fingerprint = "{}";
  payload_json = "{}";
  status = received;
  confirmed_rank = negsuc 0;
  response_json = none;
  status_code = none;
  error_code = none;
  error_message = none;
  received_at = "t1";
  executing_at = none;
  completed_at = none;
  updated_at = "t1";
}

abbrev pub first_journal : Journal
first_journal = record {
  commands = first_row ∷ [];
  fences =
      record { hub_name = "hub"; target_key = "instance:i1"; last_fence = 5; updated_at = "t1" }
      ∷ [];
}

pub received_first :
    receive python empty " hub" (message " u1 " "k1" 5) "t1" ≡ ok (first_journal, first_row, true)
unfolding program
received_first = refl

abbrev pub second_row : Command
second_row = record first_row {
  command_id = "u2";
  idempotency_key = "k2";
  fence = 6;
  received_at = "t2";
  updated_at = "t2";
}

abbrev second_journal : Journal
second_journal = record {
  commands = second_row ∷ first_row ∷ [];
  fences =
      record { hub_name = "hub"; target_key = "instance:i1"; last_fence = 6; updated_at = "t2" }
      ∷ [];
}

received_second :
    receive python first_journal "hub" (message "u2" "k2" 6) "t2"
    ≡ ok (second_journal, second_row, true)
unfolding program
received_second = refl

abbrev pub running_row : Command
running_row = record first_row { status = executing; executing_at = some "t2"; updated_at = "t2" }

abbrev pub running_journal : Journal
running_journal = record first_journal { commands = running_row ∷ [] }

began : mark_executing first_journal "hub" "u1" "t2" ≡ ok (running_journal, running_row)
unfolding program
began = refl

run : Run python first_journal running_journal
run = next here (by_mark_executing "hub" "u1" "t2" running_row began)

purged : Reach python first_journal first_journal
unfolding program
purged = next here (by_purge (λ n. "t9") 1 1 true refl)

pub empty-IsValid : IsValid empty
empty-IsValid = record { rows = tt; covered = tt; unique = tt }

first-IsValid : IsValid first_journal
first-IsValid = Reach-IsValid python empty-IsValid (
    next here (
      by_transaction
        (by_receive " hub" (message " u1 " "k1" 5) "t1" first_row true received_first)))

Reach-IsValid_example : IsValid first_journal
Reach-IsValid_example = Reach-IsValid python first-IsValid purged

fence_never_reused_example : first_row.fence < second_row.fence
fence_never_reused_example =
    fence_never_reused python empty " hub" "hub" (message " u1 " "k1" 5) (message "u2" "k2" 6) "t1"
      "t2" received_first purged received_second refl refl

never_created_twice_example :
    receive python first_journal " hub" (message " u1 " "k1" 5) "t3"
    ≢ ok (first_journal, first_row, true)
never_created_twice_example =
    never_created_twice python empty " hub" (message " u1 " "k1" 5) "t1" "t3" received_first purged

Reach-Grows_example : (b : ℕ) × (last_fence first_journal "hub" "instance:i1" ≡ some b) × (5 ≤ b)
unfolding program
Reach-Grows_example = Reach-Grows python purged "hub" "instance:i1" 5 refl

receive_again_example :
    (s : Command) × (receive python running_journal " hub" (message " u1 " "k1" 5) "t4"
      ≡ ok (running_journal, s, false))
    × SameIdentity first_row s
receive_again_example =
    receive_again python empty " hub" (message " u1 " "k1" 5) "t1" "t4" received_first run

Run-row_example : Progress "hub" "u1" running_journal first_row
unfolding program
Run-row_example = Run-row python "hub" "u1" {x = first_row} refl run

abbrev pub normalized : Normalized
normalized = record {
  hub_name = "hub";
  command_id = "u1";
  idempotency_key = "k7";
  command_name = "start";
  instance_id = some "i1";
  target_key = "instance:i1";
  fence = 7;
  payload_fingerprint = "{}";
  payload_json = "{}";
}

-- The identifier "u1" is journaled under the key "k1".
receive_new_key_example :
    (after : Journal) × (r : Command) × (receive python first_journal "hub"
        (message "u1" "k7" 7)
        "t5"
      ≡ err integrity_error)
    × IsJournaled normalized first_journal after r
unfolding program
receive_new_key_example =
    receive_new_key python first_journal "hub" (message "u1" "k7" 7) "t5" normalized refl refl

abbrev confirmed_row : Command
confirmed_row = record running_row { confirmed_rank = pos 0; updated_at = "t6" }

pending_acknowledgements_complete_example :
    Perm
      (pending_acknowledgements second_journal "hub" 100)
      (select (is_open "hub") second_journal.commands)
unfolding program
pending_acknowledgements_complete_example =
    pending_acknowledgements_complete second_journal "hub" 100 (omega arith)
