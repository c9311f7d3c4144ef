-- ===== src/Maintenance/Operations.antt =====
-- `AgentCommandMaintenance`: the metrics of the journal and the purge of old confirmed successes.
-- The ISO text of "now minus n days" or seconds is an argument, a function of n.
use pitlane_agent.Common.{
  ℕ, ◌+◌, ◌-◌, min, max, String, Option, none, some, Bool, true, List, [], ◌∷◌, ◌&&◌, not, ltb,
  str_eq, if◌then◌else◌, select, take, order_by, le_text, length,
}
use pitlane_agent.Common.Int.{pos, negsuc, leb_ℤ}
use pitlane_agent.Common.Text.{is_empty}
use pitlane_agent.Common.Json.{Value}
use pitlane_agent.Journal.Types.{
  received, executing, succeeded, failed, status_eq, Command, Journal,
}
use pitlane_agent.Journal.Contract.{Python, int_of}
use pitlane_agent.Journal.Operations.{is_command, is_unconfirmed}

-- `positive_int`.
unfoldable pub positive_int : Python → Value → ℕ → ℕ
positive_int py v default = elim (int_of py v) [
  | none ↦ default
  | some (pos n) ↦ if ltb 0 n then n else default
  | some (negsuc n) ↦ default
]

abbrev pub is_confirmed_success : Command → Bool
is_confirmed_success r = status_eq r.status succeeded && leb_ℤ (pos 2) r.confirmed_rank

-- The condition of the purge's SELECT.
abbrev pub is_purgeable : String → Command → Bool
is_purgeable cutoff r = is_confirmed_success r && le_text r.updated_at cutoff

-- DELETE of one row: the condition is tested again.
unfoldable pub delete_command : Command → List Command → List Command
delete_command r =
    select (λ x. not (is_command r.hub_name r.command_id x && is_confirmed_success x))

-- `executemany`.
unfoldable pub delete_commands : List Command → List Command → List Command
unfolding delete_command
delete_commands [] rows = rows
delete_commands (r ∷ rs) rows = delete_commands rs (delete_command r rows)

pub record PurgeSummary : Type 0 where
  pub dry_run : Bool
  pub cutoff : String
  pub candidates : ℕ
  pub processed : ℕ
  pub success_retention_days : ℕ
  pub limit : ℕ

-- The rows that the purge selects.
unfoldable pub purge_rows : List Command → String → ℕ → List Command
purge_rows rows cutoff limit =
    take limit (order_by (λ r. r.updated_at) (select (is_purgeable cutoff) rows))

unfoldable pub purge_confirmed_successes :
    (ℕ → String) → Journal → ℕ → ℕ → Bool → Journal × PurgeSummary
unfolding purge_rows delete_commands
purge_confirmed_successes days_ago j retention_days limit execute =
    let days = max 1 retention_days in
    let bound = max 1 (min limit 5000) in
    let cutoff = days_ago days in
    let rows = purge_rows j.commands cutoff bound in
    let left = if execute then delete_commands rows j.commands else j.commands in
    (
      record j { commands = left },
      record {
        dry_run = not execute;
        cutoff = cutoff;
        candidates = length rows;
        processed = length j.commands - length left;
        success_retention_days = days;
        limit = bound;
      },
    )

pub data Health : Type 0 where
  healthy warning : Health

pub record Metrics : Type 0 where
  pub status : Health
  pub reasons : List String
  pub total : ℕ
  pub received_count : ℕ
  pub executing_count : ℕ
  pub succeeded_count : ℕ
  pub failed_count : ℕ
  pub pending_acknowledgements : ℕ
  pub stale_acknowledgements : ℕ
  pub oldest_pending_ack_at : Option String
  pub purgeable_succeeded : ℕ
  pub success_retention_days : ℕ

-- `hub_name = ?`, if a hub is given.
abbrev pub in_scope : Option String → Command → Bool
in_scope none r = true
in_scope (some hub) r = if is_empty hub then true else str_eq r.hub_name hub

-- SELECT COUNT(*).
unfoldable pub count_rows : (Command → Bool) → List Command → ℕ
count_rows p rows = length (select p rows)

-- MIN(updated_at).
unfoldable pub oldest : List Command → Option String
oldest [] = none
oldest (r ∷ rows) = elim (oldest rows) [
  | none ↦ some r.updated_at
  | some t ↦ if le_text r.updated_at t then some r.updated_at else some t
]

unfoldable pub metrics : (ℕ → String) → (ℕ → String) → Journal → Option String → ℕ → ℕ → Metrics
unfolding count_rows oldest is_unconfirmed
metrics days_ago seconds_ago j hub retention_days stale_ack_seconds =
    let days = max 1 retention_days in
    let purge_cutoff = days_ago days in
    let stale_cutoff = seconds_ago (max 1 stale_ack_seconds) in
    let rows = select (in_scope hub) j.commands in
    let stale = count_rows (λ r. is_unconfirmed r && le_text r.updated_at stale_cutoff) rows in
    let n0 = count_rows (λ r. status_eq r.status received) rows in
    let n1 = count_rows (λ r. status_eq r.status executing) rows in
    let n2 = count_rows (λ r. status_eq r.status succeeded) rows in
    let n3 = count_rows (λ r. status_eq r.status failed) rows in
    record {
      status = if ltb 0 stale then warning else healthy;
      reasons = if ltb 0 stale then "acknowledgement_pending_too_long" ∷ [] else [];
      total = n0 + n1 + n2 + n3;
      received_count = n0;
      executing_count = n1;
      succeeded_count = n2;
      failed_count = n3;
      pending_acknowledgements = count_rows is_unconfirmed rows;
      stale_acknowledgements = stale;
      oldest_pending_ack_at = oldest (select is_unconfirmed rows);
      purgeable_succeeded = count_rows (is_purgeable purge_cutoff) rows;
      success_retention_days = days;
    }

abbrev pub maintenance_interval_seconds : ℕ
maintenance_interval_seconds = 86400

-- `_run_command_journal_cleanup`: the time of the last cleanup, in seconds of the monotonic clock,
-- and the journal. The settings are what the configuration holds under LOGGING_CFG.
unfoldable pub run_command_journal_cleanup :
    Python → (ℕ → String) → Value → Value → ℕ → Bool → ℕ × Journal → ℕ × Journal
unfolding purge_confirmed_successes positive_int
run_command_journal_cleanup py days_ago retention_setting limit_setting now force (last, j) =
    if not force && ltb (now - last) maintenance_interval_seconds then (last, j) else (
      now,
      (purge_confirmed_successes days_ago j (positive_int py retention_setting 365)
          (positive_int py limit_setting 5000) true).0,
    )
