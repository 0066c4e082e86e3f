-- ===== src/Schedule/Accounting.antt =====
-- src/modules/schedule/session-accounting.policy.ts: the price of a session and the effect of a
-- change on the accounts.
pub mod AutoPricing
pub mod Amounts
pub mod Projections
pub mod Impacts
mod Tests
use taco_backend.Common.{
  ℕ, ◌+◌, ◌*◌, ◌/◌, Bool, true, false, not, ◌&&◌, ◌||◌, Option, none, some, List, [], ◌∷◌, ◌++◌,
  leb, if◌then◌else◌, is_some, is_none, is_empty, any, all, get_or, or_else, holds,
}
use taco_backend.Common.Doubles.{divided, times, math_round}
use taco_backend.Common.Int.{ℤ, pos, sub_ℕ, ◌+ℤ◌, is_zero_ℤ}
use taco_backend.Schedule.Entity.{SessionStatus, ClassSession, is_held, is_absent, is_late}

pub data Approval : Type 0 where
  draft submitted approved rejected : Approval

pub data AttendanceStatus : Type 0 where
  present late absent excused : AttendanceStatus

abbrev pub is_approved : Approval → Bool
is_approved approved = true
is_approved _ = false

-- `reportOf` gives the approval status of a report that exists and has one.
pub record SessionPricingInput : Type 0 where
  pub participant_ids : List ℕ
  pub report_of : ℕ → Option Approval
  pub attendance_of : ℕ → Option AttendanceStatus
  pub hourly_rate : Option ℕ

unfoldable pub counts_for_teaching_hours : ClassSession → Bool
counts_for_teaching_hours s = is_held s.status && not (is_absent s.instructor_attendance)

unfoldable pub reports_complete : List ℕ → (ℕ → Option Approval) → Bool
reports_complete ids report_of =
    not (is_empty ids) && all (λ n. holds is_approved (report_of n)) ids

unfoldable pub teaching_minutes_of : ClassSession → ℕ
unfolding counts_for_teaching_hours
teaching_minutes_of s = if counts_for_teaching_hours s then s.duration_minutes else 0

unfoldable pub is_payout_locked : ClassSession → Bool
is_payout_locked s = is_some s.payout_id || s.is_paid

-- `Math.round((minutes / 60) * hourlyRate)`
unfoldable pub payout_amount_of : ℕ → ℕ → ℕ
unfolding divided times math_round
payout_amount_of minutes rate = math_round (times (divided minutes 60) rate)

pub data PricingKind : Type 0 where
  auto manual excluded : PricingKind

pub data ManualReason : Type 0 where
  late_arrival roster_missing attendance_missing report_incomplete rate_missing : ManualReason

pub data ExcludedReason : Type 0 where
  payout_linked instructor_unassigned not_held instructor_absent : ExcludedReason

pub record Pricing : Type 0 where
  pub kind : PricingKind
  pub manual_reasons : List ManualReason
  pub excluded_reason : Option ExcludedReason
  pub auto_amount : Option ℕ
  pub effective_amount : Option ℕ
  pub override_amount : Option ℕ

abbrev pub excluded_pricing : Option ℕ → ExcludedReason → Pricing
excluded_pricing override why = record {
  kind = excluded;
  manual_reasons = [];
  excluded_reason = some why;
  auto_amount = none;
  effective_amount = none;
  override_amount = override;
}

abbrev push_if : Bool → ManualReason → List ManualReason
push_if b why = if b then why ∷ [] else []

abbrev pub has_rate : Option ℕ → Bool
has_rate rate = holds (λ r. not (leb r 0)) rate

-- the reasons in the order in which the source pushes them
unfoldable pub manual_reasons_of : ClassSession → SessionPricingInput → List ManualReason
unfolding reports_complete
manual_reasons_of s p =
    push_if (is_late s.instructor_attendance) late_arrival
    ++ ((if is_empty p.participant_ids
          then roster_missing ∷ []
          else (push_if (any (λ n. is_none (p.attendance_of n)) p.participant_ids)
                attendance_missing
              ++ push_if (not (reports_complete p.participant_ids p.report_of)) report_incomplete))
        ++ push_if (not (has_rate p.hourly_rate)) rate_missing)

abbrev price_held : ClassSession → SessionPricingInput → List ManualReason → Pricing
price_held s p [] =
    let amount = payout_amount_of s.duration_minutes (get_or p.hourly_rate 0) in
    record {
      kind = auto;
      manual_reasons = [];
      excluded_reason = none;
      auto_amount = some amount;
      effective_amount = some (get_or s.instructor_pay_amount amount);
      override_amount = s.instructor_pay_amount;
    }
price_held s p (why ∷ more) = record {
  kind = manual;
  manual_reasons = why ∷ more;
  excluded_reason = none;
  auto_amount = none;
  effective_amount = s.instructor_pay_amount;
  override_amount = s.instructor_pay_amount;
}

-- An instructor of `none` is the `null` of a stored session. A session whose instructor is `undefined`,
-- a shape of old test inputs that the source counts as assigned, is not modelled.
unfoldable pub classify_session_for_payout : ClassSession → SessionPricingInput → Pricing
unfolding is_payout_locked manual_reasons_of
classify_session_for_payout s p =
    if is_payout_locked s
    then excluded_pricing s.instructor_pay_amount payout_linked
    else if is_none s.instructor_id
    then excluded_pricing s.instructor_pay_amount instructor_unassigned
    else if not (is_held s.status)
    then excluded_pricing s.instructor_pay_amount not_held
    else if is_absent s.instructor_attendance
    then excluded_pricing s.instructor_pay_amount instructor_absent
    else price_held s p (manual_reasons_of s p)
