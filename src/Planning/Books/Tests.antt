-- ===== src/Planning/Books/Tests.antt =====
-- A lesson of a payout cannot be removed; once the payout is rejected, it is priced and removed.
use taco_backend.Common.{ℕ, ◌≡◌, refl, none, some, true, sort_by, List, [], length}
use taco_backend.Common.Int.{pos}
use taco_backend.Exec.{◌and_then◌}
use taco_backend.Store.{empty_table, find_all, update, update_if, remove}
use taco_backend.Schedule.SeriesScope.{this}
use taco_backend.Schedule.Accounting.Projections.{Impact, accounting_projection_of}
use taco_backend.Payouts.Integrity.{integrity_issues, snapshot_of}
use taco_backend.Payouts.Samples.{confirmed_tables, confirmed_tables-IsSound, named_or_cohort}
use taco_backend.Payouts.History.{LeavesBooks, rejects, serve}
use taco_backend.Payouts.Commands.{reject}
use taco_backend.Payouts.Read.{payout_from_db}
use taco_backend.Payouts.Steps.{touch_lines}
use taco_backend.Planning.{Calendar}
use taco_backend.Planning.Removal.{RemoveOptions}
use taco_backend.Planning.History.{removes, prices, perform}
use taco_backend.Planning.Books.History.{
  Mixed, begun, settled, planned, settle, Mixed-IsSound, Mixed-no_issues, perform-LeavesBooks,
}

abbrev ids_only : List ℕ → Impact → ℕ
ids_only ids impact = length ids

abbrev settled_lesson : Calendar
settled_lesson = record {
  tables = confirmed_tables;
  series = empty_table;
  students = empty_table;
  rooms = empty_table;
  blocks = empty_table;
}

abbrev agreed : RemoveOptions
agreed = record {
  scope = this;
  expected_series_version = none;
  acknowledge_accounting_impact = true;
  expected_accounting_impact_hash = some 1;
  expected_target_ids = none;
}

abbrev refused : Calendar
refused =
    perform named_or_cohort ids_only true 500 (some 1) "early" (removes 1 agreed) settled_lesson

abbrev rejected_payout : Calendar
rejected_payout = settle named_or_cohort ids_only true 600 (some 1) (rejects 1 none) refused

abbrev priced : Calendar
priced =
    perform named_or_cohort ids_only true 700 (some 1) "price" (prices 1 (some (pos 45000)))
      rejected_payout

abbrev removed : Calendar
removed = perform named_or_cohort ids_only true 800 (some 1) "gone" (removes 1 agreed) priced

abbrev rejection : Mixed named_or_cohort ids_only true settled_lesson rejected_payout
rejection =
    settled 600 (some 1) (rejects 1 none) (planned 500 (some 1) "early" (removes 1 agreed) begun)

abbrev lesson_history : Mixed named_or_cohort ids_only true settled_lesson removed
lesson_history =
    planned 800 (some 1) "gone" (removes 1 agreed)
      (planned 700 (some 1) "price" (prices 1 (some (pos 45000))) rejection)

lesson_history-done :
    (length (find_all refused.tables.sessions) ≡ 1)
    × (length (find_all removed.tables.sessions) ≡ 0)
    × (length removed.tables.audit ≡ 3)
unfolding perform ◌and_then◌ serve reject payout_from_db update_if touch_lines update
    accounting_projection_of sort_by remove
lesson_history-done = (refl, refl, refl)

perform-LeavesBooks_example : LeavesBooks rejected_payout.tables priced.tables
perform-LeavesBooks_example =
    perform-LeavesBooks named_or_cohort ids_only true 700 (some 1) "price"
      (prices 1 (some (pos 45000))) rejected_payout
      (Mixed-IsSound named_or_cohort ids_only true settled_lesson rejected_payout
        confirmed_tables-IsSound rejection).sessions_wf

Mixed-no_issues_example : integrity_issues (snapshot_of removed.tables) ≡ []
Mixed-no_issues_example =
    Mixed-no_issues named_or_cohort ids_only true settled_lesson removed confirmed_tables-IsSound
      lesson_history
