-- ===== src/Payouts/Readiness/Tests.antt =====
-- The theorems on readiness and the worksheet at work on sample sessions.
use taco_backend.Common.{◌≡◌, refl, Bool, true, false, none, some, [], ◌∷◌}
use taco_backend.Store.{Row}
use taco_backend.Schedule.Entity.{ClassSession}
use taco_backend.Common.{elem, ◌↔◌, Memᴰ}
use taco_backend.Schedule.Accounting.{approved, AttendanceStatus}
use taco_backend.Schedule.Participants.{active}
use taco_backend.Payouts.Readiness.{
  ReadinessInput, evaluate_payout_readiness, issues_of, is_eligible, pricing_of,
}
use taco_backend.Payouts.Readiness.Eligible.{
  eligible-complete_iff, elem-evaluate_payout_readiness, is_undisputed, IsReady,
}
use taco_backend.Payouts.Read.{measured}
use taco_backend.Payouts.Samples.{row, lesson, free_tables, named_or_cohort}
use taco_backend.Payouts.Worksheet.{worksheet_of}
use taco_backend.Payouts.Worksheet.Totals.{worksheet-measured}

abbrev asked : ReadinessInput
asked = record {
  sessions = row 1 (lesson none false) ∷ row 2 (lesson (some 1) false) ∷ [];
  enrollments = record { student_id = 21; course_id = 3; status = active } ∷ [];
  report_of = λ n student. some (record { approval_status = some approved; is_submitted = true });
  attendance_of = λ n student. some AttendanceStatus.present;
  period_start = 19990;
  period_end = 20010;
  instructor_id = none;
  effective_rate_of = λ course instructor. some 30000;
  now_ms = 9000000000000;
}

abbrev as_given : Row ClassSession → Row ClassSession → Bool
as_given a b = true

eligible-complete_iff_example :
    (is_eligible named_or_cohort as_given asked (row 1 (lesson none false)) ≡ true) ↔ (
      (issues_of named_or_cohort as_given asked (row 1 (lesson none false)) ≡ [])
      × (is_undisputed named_or_cohort as_given asked (row 1 (lesson none false)) ≡ true))
eligible-complete_iff_example =
    eligible-complete_iff named_or_cohort as_given asked (row 1 (lesson none false)) refl refl

-- the session lies on the last day of the period
abbrev asked_last_day : ReadinessInput
asked_last_day = record asked { period_end = 20000; instructor_id = some 7 }

elem-evaluate_payout_readiness_example :
    (elem 1 (evaluate_payout_readiness named_or_cohort as_given asked_last_day).eligible_session_ids
      ≡ true)
    ↔ ((s : Row ClassSession) × Memᴰ s asked_last_day.sessions
        × (s.id ≡ 1)
        × IsReady asked_last_day (pricing_of named_or_cohort as_given asked_last_day s) s.val)
elem-evaluate_payout_readiness_example =
    elem-evaluate_payout_readiness named_or_cohort as_given asked_last_day 1

worksheet-measured_example :
    let totals = (worksheet_of named_or_cohort as_given free_tables 7 19990 20010).totals in
    let m = measured named_or_cohort free_tables 7 19990 20010 in
    (totals.included_count ≡ m.session_count)
    × (totals.total_minutes ≡ m.total_minutes)
    × (totals.total_amount ≡ m.computed_amount)
worksheet-measured_example = worksheet-measured named_or_cohort as_given free_tables 7 19990 20010
