-- ===== src/Payouts/Tests.antt =====
-- The theorems on payouts at work on the sample tables.
use taco_backend.Common.{none, arith, ◌↔◌, sort_by, ℕ, ◌≡◌, refl, true, false, some, []}
use taco_backend.Store.{Row, find_by_id, update_if, insert, update}
use taco_backend.Payouts.Rows.{confirmed, paid, Db, has_line}
use taco_backend.Payouts.Steps.{touch_lines}
use taco_backend.Common.{All}
use taco_backend.Store.{find_all}
use taco_backend.Payouts.Accounting.{AccountingSnapshot, tx_issues}
use taco_backend.Payouts.Accounting.Ledger.{ledger_snapshot, Reach-no_tx_issues}
use taco_backend.Exec.{is_ok, err, transaction}
use taco_backend.Payouts.Read.{find_one, already_paid, measured, lines_of, pricing_input_of}
use taco_backend.Schedule.Entity.{ClassSession}
use taco_backend.Schedule.Accounting.{
  classify_session_for_payout, manual_reasons_of, is_payout_locked,
}
use taco_backend.Payouts.Commands.{pay, reverse}
use taco_backend.Payouts.Integrity.{integrity_issues, snapshot_of}
use taco_backend.Payouts.Sound.{IsSound, outs, backs, out_total, back_total, is_linked}
use taco_backend.Payouts.History.{serve, Reach, here, served, pays, reverses, Reach-IsSound}
use taco_backend.Payouts.Books.{pay-once, Reach-unique_claim, Reach-no_issues}
use taco_backend.Payouts.Reversal.{reverse-balances}
use taco_backend.Payouts.Lines.{IsPayable, has_line-measured}
use taco_backend.Schedule.Participants.{participant_ids_for_session}
use taco_backend.Payouts.Samples.{
  row, lesson, tables, settlement, confirmed_tables, paid_tables, named_or_cohort,
  confirmed_tables-IsSound, paid_tables-IsSound,
}

pay-once_example :
    let db' = (pay 500 (some 1) 1 confirmed_tables).1 in
    (is_ok (pay 500 (some 1) 1 confirmed_tables).0 ≡ true)
    × ((outs 1 db' ≡ 1) × (out_total 1 db' ≡ 60000) × (backs 1 db' ≡ 0))
    × (pay 600 (some 2) 1 db' ≡ (err already_paid, db'))
pay-once_example =
    pay-once 500 600 (some 1) (some 2) 1 confirmed_tables (row 1 (settlement confirmed))
      confirmed_tables-IsSound refl refl

reverse-balances_example :
    let db' = (reverse 500 (some 1) 1 "wrong amount" paid_tables).1 in
    (is_ok (reverse 500 (some 1) 1 "wrong amount" paid_tables).0 ≡ true)
    × ((outs 1 db' ≡ 1) × (backs 1 db' ≡ 1) × (out_total 1 db' ≡ back_total 1 db'))
    × (is_linked 1 1 db' ≡ false)
reverse-balances_example =
    reverse-balances 500 (some 1) 1 1 "wrong amount" paid_tables (row 1 (settlement paid))
      paid_tables-IsSound refl refl

abbrev after_payment_and_reversal : Db
after_payment_and_reversal =
    serve named_or_cohort 600 (some 1) (reverses 1 "wrong amount")
      (serve named_or_cohort 500 (some 1) (pays 1) confirmed_tables)

abbrev payment_and_reversal : Reach named_or_cohort confirmed_tables after_payment_and_reversal
payment_and_reversal =
    served 600 (some 1) (reverses 1 "wrong amount") (served 500 (some 1) (pays 1) here)

Reach-IsSound_example : IsSound after_payment_and_reversal
Reach-IsSound_example =
    Reach-IsSound named_or_cohort confirmed_tables after_payment_and_reversal
      confirmed_tables-IsSound payment_and_reversal

Reach-no_issues_example : integrity_issues (snapshot_of after_payment_and_reversal) ≡ []
Reach-no_issues_example =
    Reach-no_issues named_or_cohort confirmed_tables after_payment_and_reversal
      confirmed_tables-IsSound payment_and_reversal

Reach-unique_claim_example : ◌≡◌ {A = ℕ} 1 1
unfolding serve pay transaction find_one update_if insert touch_lines update
Reach-unique_claim_example =
    Reach-unique_claim named_or_cohort confirmed_tables
      (serve named_or_cohort 500 (some 1) (pays 1) confirmed_tables) 1 1 1 confirmed_tables-IsSound
      (served 500 (some 1) (pays 1) here) refl refl

-- one unpaid session, on day 20000, whose amount a person has set
abbrev priced_tables : Db
priced_tables = tables [] [] (record (lesson none false) { instructor_pay_amount = some 50000 })

-- a session on the last day of the period, which is its first one too
has_line-measured_example :
    (has_line 1 (measured named_or_cohort priced_tables 7 20000 20000).lines ≡ true) ↔ (
      (s : Row ClassSession) × (find_by_id 1 priced_tables.sessions ≡ some s)
      × IsPayable 7 20000 20000 (pricing_input_of named_or_cohort priced_tables s) s.val)
has_line-measured_example =
    has_line-measured named_or_cohort priced_tables 7 20000 20000 1 (omega arith, refl, tt)

on_the_last_day : has_line 1 (measured named_or_cohort priced_tables 7 19990 20000).lines ≡ true
unfolding measured lines_of sort_by classify_session_for_payout is_payout_locked manual_reasons_of
    pricing_input_of participant_ids_for_session
on_the_last_day = refl

after_the_last_day : has_line 1 (measured named_or_cohort priced_tables 7 19990 19999).lines ≡ false
unfolding measured lines_of sort_by
after_the_last_day = refl

abbrev other_tables : AccountingSnapshot
other_tables = record {
  sessions = [];
  attendance = [];
  reports = [];
  payouts = [];
  transactions = [];
  students = [];
  enrollments = [];
}

Reach-no_tx_issues_example :
    All
      (λ p. tx_issues (ledger_snapshot after_payment_and_reversal other_tables) p ≡ [])
      (find_all after_payment_and_reversal.payouts)
Reach-no_tx_issues_example =
    Reach-no_tx_issues named_or_cohort confirmed_tables after_payment_and_reversal other_tables
      confirmed_tables-IsSound payment_and_reversal
