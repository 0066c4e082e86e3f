-- ===== src/Schedule/Accounting/AutoPricing.antt =====
-- Which sessions are priced, and at what amount.
use taco_backend.Common.{
  none, or_else, get_or, if◌then◌else◌, ◌≡◌, ◌↔◌, Bool, true, false, not, ◌||◌, some, is_some,
  is_none, is_empty, any, all, holds, arith,
}
use taco_backend.Schedule.Entity.{ClassSession, is_held, is_absent, is_late}
use taco_backend.Schedule.Accounting.{
  SessionPricingInput, is_approved, is_payout_locked, PricingKind, auto, excluded,
  classify_session_for_payout, payout_amount_of, has_rate, counts_for_teaching_hours,
}

-- The sessions that are priced without a person: taught on time by an assigned instructor, not in a
-- payout, everybody's attendance recorded and report approved, at a positive rate.
pub record IsAutoPriced (s : ClassSession) (p : SessionPricingInput) : Type 0 where
  pub unlocked : is_payout_locked s ≡ false
  pub assigned : is_some s.instructor_id ≡ true
  pub taught : is_held s.status ≡ true
  pub came : is_absent s.instructor_attendance ≡ false
  pub on_time : is_late s.instructor_attendance ≡ false
  pub roster : is_empty p.participant_ids ≡ false
  pub recorded : any (λ n. is_none (p.attendance_of n)) p.participant_ids ≡ false
  pub reported : all (λ n. holds is_approved (p.report_of n)) p.participant_ids ≡ true
  pub rated : has_rate p.hourly_rate ≡ true

auto_of_conditions :
    (s : ClassSession) (p : SessionPricingInput)
    → IsAutoPriced s p
    → (classify_session_for_payout s p).kind ≡ auto
unfolding classify_session_for_payout
auto_of_conditions s p c = ground arith

conditions_of_auto :
    (s : ClassSession) (p : SessionPricingInput)
    → (classify_session_for_payout s p).kind ≡ auto
    → IsAutoPriced s p
unfolding classify_session_for_payout
conditions_of_auto s p e = record {
  unlocked = ground arith;
  assigned = ground arith;
  taught = ground arith;
  came = ground arith;
  on_time = ground arith;
  roster = ground arith;
  recorded = ground arith;
  reported = ground arith;
  rated = ground arith;
}

-- A session is priced automatically exactly when it meets all the conditions.
pub classify-auto_iff :
    (s : ClassSession) (p : SessionPricingInput)
    → ((classify_session_for_payout s p).kind ≡ auto) ↔ IsAutoPriced s p
classify-auto_iff s p = (conditions_of_auto s p, auto_of_conditions s p)

abbrev pub is_excluded : PricingKind → Bool
is_excluded excluded = true
is_excluded _ = false

abbrev pub is_auto : PricingKind → Bool
is_auto auto = true
is_auto _ = false

-- An excluded session has no amount. Any other has its override as its amount, or else, when it is
-- priced automatically, what its minutes cost at the rate, or else none.
pub classify-effective :
    (s : ClassSession) (p : SessionPricingInput)
    → let c = classify_session_for_payout s p in
      c.effective_amount ≡ (
        if is_excluded c.kind
        then none
        else or_else s.instructor_pay_amount (
            if is_auto c.kind
            then some (payout_amount_of s.duration_minutes (get_or p.hourly_rate 0))
            else none))
unfolding classify_session_for_payout
classify-effective s p = ground arith

-- What is excluded, for whatever reports and attendance: sessions in a payout or paid, without an
-- instructor, not held, or that the instructor missed.
pub classify-excluded_iff :
    (s : ClassSession) (p : SessionPricingInput)
    → is_excluded (classify_session_for_payout s p).kind
      ≡ (is_payout_locked s || (is_none s.instructor_id || not (counts_for_teaching_hours s)))
unfolding classify_session_for_payout counts_for_teaching_hours
classify-excluded_iff s p = ground arith
