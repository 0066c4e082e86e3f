-- ===== src/Schedule/Accounting/Tests.antt =====
-- The theorems on session accounting at work on a taught session.
use taco_backend.Common.{◌≡◌, ◌↔◌, refl, false, some, List, [], ◌∷◌, not}
use taco_backend.Schedule.Entity.{ClassSession, SessionStatus, InstructorAttendance}
use taco_backend.Common.{is_none, ◌||◌}
use taco_backend.Common.Doubles.{divided, times, math_round, to_double, half_even, scale_up}
use taco_backend.Schedule.Accounting.{
  SessionPricingInput, classify_session_for_payout, auto, is_payout_locked,
  counts_for_teaching_hours, payout_amount_of, approved, AttendanceStatus,
}
use taco_backend.Schedule.Accounting.AutoPricing.{
  IsAutoPriced, classify-auto_iff, classify-excluded_iff, is_excluded,
}
use taco_backend.Common.{◌*◌, ◌+◌, ◌≤◌, ◌<◌, arith}
use taco_backend.Schedule.Accounting.Amounts.{payout_amount_of-quarters}
use taco_backend.Schedule.Accounting.Projections.{
  accounting_impact_of, accounting_impact_of_removal, accounting_projection_of,
  combine_accounting_impacts, Impact,
}
use taco_backend.Schedule.Accounting.Impacts.{
  accounting_impact-unchanged_iff, combine-IsBalanced, IsBalanced,
}
use taco_backend.Schedule.Samples.{night}

-- a taught session, its student's report approved and attendance recorded, at 30,000 an hour
abbrev taught : ClassSession
taught = record night.val {
  status = SessionStatus.held;
  instructor_attendance = some InstructorAttendance.present;
}

abbrev priced : SessionPricingInput
priced = record {
  participant_ids = 21 ∷ [];
  report_of = λ n. some approved;
  attendance_of = λ n. some AttendanceStatus.present;
  hourly_rate = some 30000;
}

classify-auto_iff_example :
    ((classify_session_for_payout taught priced).kind ≡ auto) ↔ IsAutoPriced taught priced
classify-auto_iff_example = classify-auto_iff taught priced

-- two hours and one and a half; then 11 minutes at 150 an hour, whose quotient of doubles is a little
-- below the exact one, which would cost 27.5 and round to 28; last 7 minutes at 30
two_hours : payout_amount_of 120 30000 ≡ 60000
unfolding payout_amount_of divided times math_round to_double half_even scale_up
two_hours = refl

hour_and_half : payout_amount_of 90 35000 ≡ 52500
unfolding payout_amount_of divided times math_round to_double half_even scale_up
hour_and_half = refl

eleven_minutes : payout_amount_of 11 150 ≡ 27
unfolding payout_amount_of divided times math_round to_double half_even scale_up
eleven_minutes = refl

seven_minutes : payout_amount_of 7 30 ≡ 4
unfolding payout_amount_of divided times math_round to_double half_even scale_up
seven_minutes = refl

-- an hour and three quarters
payout_amount_of-quarters_example :
    let amount = payout_amount_of 105 33333 in
    (4 * amount ≤ 7 * 33333 + 2) × (7 * 33333 + 2 < 4 * amount + 4)
payout_amount_of-quarters_example = payout_amount_of-quarters 7 33333 (omega arith) (omega arith)

classify-excluded_iff_example : is_excluded (classify_session_for_payout taught priced).kind ≡ (
    is_payout_locked taught
    || (is_none taught.instructor_id || not (counts_for_teaching_hours taught)))
classify-excluded_iff_example = classify-excluded_iff taught priced

accounting_impact-unchanged_iff_example :
    ((accounting_impact_of taught night.val priced priced).changed ≡ false)
    ↔ (accounting_projection_of taught priced ≡ accounting_projection_of night.val priced)
accounting_impact-unchanged_iff_example =
    accounting_impact-unchanged_iff taught night.val priced priced

abbrev two_impacts : List Impact
two_impacts =
    accounting_impact_of taught night.val priced priced
    ∷ accounting_impact_of_removal taught priced
    ∷ []

combine-IsBalanced_example : IsBalanced (combine_accounting_impacts two_impacts)
unfolding accounting_impact_of accounting_impact_of_removal
combine-IsBalanced_example = combine-IsBalanced two_impacts (refl, (refl, tt))
