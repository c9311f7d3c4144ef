-- ===== src/Maintenance/Purge.antt =====
-- What the purge may delete.
use pitlane_agent.Common.{ℕ, String, Bool, true, false, List, [], ◌∷◌, ◌&&◌, not, All, All-select}
use pitlane_agent.Journal.Types.{Command, Journal}
use pitlane_agent.Journal.Operations.{is_command}
use pitlane_agent.Journal.Invariant.{AreUnique, AreUnique-select}
use pitlane_agent.Maintenance.Operations.{
  purge_confirmed_successes, purge_rows, delete_command, delete_commands, is_confirmed_success,
}

-- The purge deletes rows and touches nothing else.
pub record Kept (rows left : List Command) : Type 1 where
  pub all : (P : Command → Type 0) → All P rows → All P left
  pub unique : AreUnique rows → AreUnique left

Kept-delete : (r : Command) (rows : List Command) → Kept rows (delete_command r rows)
unfolding delete_command
Kept-delete r rows = record {
  all = λ P h.
      All-select P (λ x. not (is_command r.hub_name r.command_id x && is_confirmed_success x)) rows
        h;
  unique = λ u.
      AreUnique-select (λ x. not (is_command r.hub_name r.command_id x && is_confirmed_success x))
        rows u;
}

Kept-deletes : (rs rows : List Command) → Kept rows (delete_commands rs rows)
unfolding delete_commands
Kept-deletes [] rows = record { all = λ P h. h; unique = λ u. u }
Kept-deletes (r ∷ rs) rows =
    let one = Kept-delete r rows in
    let rest = Kept-deletes rs (delete_command r rows) in
    record { all = λ P h. rest.all P (one.all P h); unique = λ u. rest.unique (one.unique u) }

pub Kept-purge :
    (days_ago : ℕ → String) (j : Journal) (days limit : ℕ) (execute : Bool)
    → Kept j.commands (purge_confirmed_successes days_ago j days limit execute).0.commands
unfolding purge_confirmed_successes
Kept-purge days_ago j days limit true = Kept-deletes (purge_rows j.commands _ _) j.commands
Kept-purge days_ago j days limit false = record { all = λ P h. h; unique = λ u. u }
