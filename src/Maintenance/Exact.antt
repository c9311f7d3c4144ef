-- ===== src/Maintenance/Exact.antt =====
-- What a purge removes and what it reports.
use pitlane_agent.Common.{
  ℕ, zero, suc, ◌+◌, ◌≤◌, min, max, String, ◌≡◌, refl, ◌∙◌, ap, Option, none, Bool, true, false,
  List, [], ◌∷◌, ◌&&◌, not, arith, if◌then◌else◌, select, take, order_by, length, length-order_by,
  le_text, ltb,
}
use pitlane_agent.Journal.Types.{
  Command, Journal, status_eq, received, executing, succeeded, failed,
}
use pitlane_agent.Journal.Operations.{is_command, is_unconfirmed}
use pitlane_agent.Maintenance.Operations.{
  purge_confirmed_successes, purge_rows, delete_command, delete_commands, is_confirmed_success,
  is_purgeable, metrics, count_rows, in_scope, healthy, warning,
}

module _ {ℓ} {A : Type ℓ} (q p : A → Bool) (k : (x : A) → q x ≡ true → p x ≡ true) where
  select-select : (xs : List A) → select q (select p xs) ≡ select q xs
  unfolding select
  select-select [] = refl
  select-select (x ∷ xs) = ground (arith, k x, select-select xs)

length-take {ℓ} : {A : Type ℓ} (n : ℕ) (xs : List A) → length (take n xs) ≡ min n (length xs)
unfolding take
length-take zero xs = omega arith
length-take (suc n) [] = omega arith
length-take (suc n) (x ∷ xs) = omega (arith, length-take n xs)

-- The rows that no purge may remove.
abbrev pub is_kept : Command → Bool
is_kept r = not (is_confirmed_success r)

delete_commands-kept :
    (rs rows : List Command) → select is_kept (delete_commands rs rows) ≡ select is_kept rows
unfolding delete_commands
delete_commands-kept [] rows = refl
delete_commands-kept (r ∷ rs) rows =
    delete_commands-kept rs (delete_command r rows)
    ∙ select-select is_kept
        (λ x. not (is_command r.hub_name r.command_id x && is_confirmed_success x))
        (λ x h. ground (arith, h)) rows

-- A purge keeps, in their order, all the rows that are not successes confirmed by the hub, and it
-- keeps the fences; a dry run keeps the whole journal.
pub purge_keeps :
    (days_ago : ℕ → String) (j : Journal) (days limit : ℕ) (execute : Bool)
    → (select is_kept (purge_confirmed_successes days_ago j days limit execute).0.commands
        ≡ select is_kept j.commands)
      × ((purge_confirmed_successes days_ago j days limit execute).0.fences ≡ j.fences)
      × ((purge_confirmed_successes days_ago j days limit false).0 ≡ j)
unfolding purge_confirmed_successes
purge_keeps days_ago j days limit true =
    (delete_commands-kept (purge_rows j.commands _ _) j.commands, refl, refl)
purge_keeps days_ago j days limit false = (refl, refl, refl)

select_true : (rows : List Command) → select (in_scope none) rows ≡ rows
unfolding select
select_true [] = refl
select_true (r ∷ rows) = ap (◌∷◌ r) (select_true rows)

-- The number of candidates of a purge is the number of rows that the metrics of the whole journal
-- count as purgeable, for the same retention, up to the limit of the batch, which lies between 1
-- and 5000.
pub candidates-metrics :
    (days_ago seconds_ago : ℕ → String) (j : Journal) (days stale limit : ℕ) (execute : Bool)
    → (purge_confirmed_successes days_ago j days limit execute).1.candidates
      ≡ min
          (max 1 (min limit 5000))
          (metrics days_ago seconds_ago j none days stale).purgeable_succeeded
unfolding purge_confirmed_successes metrics
candidates-metrics days_ago seconds_ago j days stale limit execute =
    let cutoff = days_ago (max 1 days) in
    let chosen = select (is_purgeable cutoff) j.commands in
    ground (
      arith,
      length-take (max 1 (min limit 5000)) (order_by (λ r. r.updated_at) chosen),
      length-order_by (λ r. r.updated_at) chosen,
      select_true j.commands,
    )

counts :
    (rows : List Command)
    → count_rows (λ r. status_eq r.status received) rows
        + count_rows (λ r. status_eq r.status executing) rows
        + count_rows (λ r. status_eq r.status succeeded) rows
        + count_rows (λ r. status_eq r.status failed) rows
      ≡ length rows
unfolding count_rows select
counts [] = omega arith
counts (r ∷ rows) = ground (arith, counts rows)

fewer :
    (p q : Command → Bool) (rows : List Command)
    → count_rows (λ r. p r && q r) rows ≤ count_rows p rows
unfolding count_rows select
fewer p q [] = omega arith
fewer p q (r ∷ rows) = ground (arith, fewer p q rows)

-- The metrics of a scope: the total is the number of its rows, no more acknowledgements are stale
-- than pending, and the health is a warning exactly when one is stale.
pub metrics_consistent :
    (days_ago seconds_ago : ℕ → String) (j : Journal) (hub : Option String) (days stale : ℕ)
    → let m = metrics days_ago seconds_ago j hub days stale in
      (m.total ≡ length (select (in_scope hub) j.commands))
      × (m.stale_acknowledgements ≤ m.pending_acknowledgements)
      × (m.status ≡ (if ltb 0 m.stale_acknowledgements then warning else healthy))
unfolding metrics
metrics_consistent days_ago seconds_ago j hub days stale =
    let rows = select (in_scope hub) j.commands in
    (
      counts rows,
      fewer is_unconfirmed (λ r. le_text r.updated_at (seconds_ago (max 1 stale))) rows,
      refl,
    )
