-- ===== src/Payouts/Lines.antt =====
-- What `measure` of src/modules/payouts/payouts-read.service.ts puts on a payout.
use taco_backend.Common.{
  ℕ, ◌≡◌, refl, ◌∙◌, ◌≤◌, ◌↔◌, ◌⊎◌, Bool, true, false, not, ◌&&◌, ◌||◌, none, some, List, [], ◌∷◌,
  ◌==◌, is_some, any, holds, any-sort_by, arith, Option-cases, inl, inr,
}
use taco_backend.Store.{Row, find_by, find_by_id}
use taco_backend.Store.WellFormed.{IsWellFormed}
use taco_backend.Store.Active.{any-find_by}
use taco_backend.Time.{IsoDate}
use taco_backend.Schedule.Entity.{ClassSession, is_held, is_absent}
use taco_backend.Schedule.Participants.{ResolveIds}
use taco_backend.Schedule.Accounting.{
  SessionPricingInput, is_payout_locked, classify_session_for_payout, counts_for_teaching_hours,
}
use taco_backend.Schedule.Accounting.AutoPricing.{
  IsAutoPriced, is_auto, is_excluded, classify-auto_iff, classify-excluded_iff, classify-effective,
}
use taco_backend.Payouts.Rows.{Db, has_line}
use taco_backend.Payouts.Read.{
  measured, lines_of, priced_amount, pricing_input_of, in_period, by_session_date,
}

-- A session for which the instructor is paid in a period: of the instructor, from the first to the
-- last day of the period, in no payout and unpaid, held and not missed by the instructor, and priced
-- by a person or else automatically.
pub record IsPayable (instructor : ℕ) (from to : IsoDate) (p : SessionPricingInput)
    (s : ClassSession) : Type 0 where
  pub taught_by : s.instructor_id ≡ some instructor
  pub not_earlier : from ≤ s.session_date
  pub not_later : s.session_date ≤ to
  pub unclaimed : s.payout_id ≡ none
  pub unpaid : s.is_paid ≡ false
  pub taught : is_held s.status ≡ true
  pub came : is_absent s.instructor_attendance ≡ false
  pub priced : (is_some s.instructor_pay_amount ≡ true) ⊎ IsAutoPriced s p

-- what the classification gives an amount
has_amount :
    (s : ClassSession) (p : SessionPricingInput)
    → is_some (classify_session_for_payout s p).effective_amount ≡ (
        not (is_excluded (classify_session_for_payout s p).kind)
        && (is_some s.instructor_pay_amount || is_auto (classify_session_for_payout s p).kind))
has_amount s p = ground (arith, classify-effective s p)

auto_iff :
    (s : ClassSession) (p : SessionPricingInput)
    → (is_auto (classify_session_for_payout s p).kind ≡ true) ↔ IsAutoPriced s p
auto_iff s p = ground (arith, classify-auto_iff s p)

module _ (instructor : ℕ) (from to : IsoDate) (p : SessionPricingInput) (s : Row ClassSession) where
  abbrev is_measured : Bool
  is_measured =
      in_period instructor from to s
      && is_some (classify_session_for_payout s.val p).effective_amount

  is_measured-IsPayable : is_measured ≡ true → IsPayable instructor from to p s.val
  unfolding is_payout_locked counts_for_teaching_hours
  is_measured-IsPayable h =
      let amount = has_amount s.val p in
      let out = classify-excluded_iff s.val p in
      let automatic = auto_iff s.val p in
      record {
        taught_by = ground arith;
        not_earlier = ground arith;
        not_later = ground arith;
        unclaimed = ground (arith, amount, out);
        unpaid = ground (arith, amount, out);
        taught = ground (arith, amount, out);
        came = ground (arith, amount, out);
        priced = ground (arith, amount, automatic);
      }

  measured_of_payable : IsPayable instructor from to p s.val → is_measured ≡ true
  unfolding is_payout_locked counts_for_teaching_hours
  measured_of_payable c = ground (
    arith,
    has_amount s.val p,
    classify-excluded_iff s.val p,
    auto_iff s.val p,
    c.taught_by,
    c.not_earlier,
    c.not_later,
    c.unclaimed,
    c.unpaid,
    c.taught,
    c.came,
    c.priced,
  )

module _ (resolve : ResolveIds) (db : Db) where
  abbrev priced_as : ℕ → Row ClassSession → Bool
  priced_as n s = (s.id == n) && is_some (priced_amount resolve db s)

  any-lines_of :
      (n : ℕ) (ss : List (Row ClassSession))
      → any (λ l. l.session_id == n) (lines_of resolve db ss) ≡ any (priced_as n) ss
  unfolding lines_of
  any-lines_of n [] = refl
  any-lines_of n (s ∷ ss) = elim (Option-cases (priced_amount resolve db s)) [
    | inl free ↦ ground (arith, any-lines_of n ss)
    | inr (a, e) ↦ ground (arith, any-lines_of n ss)
  ]

  has_line-found :
      (instructor : ℕ) (from to : IsoDate) (n : ℕ)
      → IsWellFormed db.sessions
      → has_line n (measured resolve db instructor from to).lines
        ≡ holds
            (λ s. in_period instructor from to s && is_some (priced_amount resolve db s))
            (find_by_id n db.sessions)
  unfolding measured
  has_line-found instructor from to n wf =
      let ss = find_by (in_period instructor from to) db.sessions in
      any-sort_by (λ l. l.session_id == n) by_session_date (lines_of resolve db ss)
      ∙ (any-lines_of n ss
          ∙ any-find_by n (in_period instructor from to) (λ s. is_some (priced_amount resolve db s))
              db.sessions wf)

-- A session is on the measured payout exactly when it is found and payable: it is of the instructor,
-- from the first to the last day of the period, in no payout and unpaid, held and not missed by the
-- instructor, and priced by a person or else automatically. This takes sessions whose ids are unique.
pub has_line-measured :
    (resolve : ResolveIds) (db : Db) (instructor : ℕ) (from to : IsoDate) (n : ℕ)
    → IsWellFormed db.sessions
    → (has_line n (measured resolve db instructor from to).lines ≡ true) ↔ (
        (s : Row ClassSession) × (find_by_id n db.sessions ≡ some s)
        × IsPayable instructor from to (pricing_input_of resolve db s) s.val)
has_line-measured resolve db instructor from to n wf =
    let line = has_line-found resolve db instructor from to n wf in
    (
      λ h. elim (Option-cases (find_by_id n db.sessions)) [
        | inl gone ↦ absurd (ground (arith, line))
        | inr (s, e) ↦ (
          s,
          e,
          is_measured-IsPayable instructor from to (pricing_input_of resolve db s) s
              (ground (arith, line)),
        )
      ],
      λ c.
          let (s, e, q) = c in
          let m = measured_of_payable instructor from to (pricing_input_of resolve db s) s q in
          ground (arith, line),
    )
