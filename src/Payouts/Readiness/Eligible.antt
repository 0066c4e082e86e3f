-- ===== src/Payouts/Readiness/Eligible.antt =====
-- How being ready for pay and having something missing fit together.
use taco_backend.Common.{
  ℕ, ◌≡◌, refl, ◌∙◌, sym, ◌≤◌, some, none, is_id, ◌||◌, Memᴰ, any_iff, Option-cases, inl, inr, Bool,
  true, false, not, ◌&&◌, Option, ◌↔◌, List, [], ◌∷◌, is_none, is_empty, any, all, holds, flat_map,
  arith, ◌==◌, elem, sort_by, filter, any-sort_by, any-filter,
}
use taco_backend.Store.{Row}
use taco_backend.Schedule.Entity.{ClassSession, is_held, is_late}
use taco_backend.Schedule.Participants.{ResolveIds}
use taco_backend.Schedule.Accounting.{
  SessionPricingInput, is_payout_locked, is_approved, classify_session_for_payout,
  counts_for_teaching_hours,
}
use taco_backend.Schedule.Accounting.AutoPricing.{IsAutoPriced, classify-auto_iff}
use taco_backend.Payouts.Readiness.{
  Report, ReadinessInput, approval_of, report_issue_type, report_issue, participants, pricing_of,
  issues_of, held_issues, is_eligible, is_auto_kind, is_candidate, evaluate_payout_readiness,
  eligible_id,
}

no_report_issues :
    (n : ℕ) (report_of : ℕ → Option Report) (ids : List ℕ)
    → all (λ i. holds is_approved (approval_of (report_of i))) ids ≡ true
    → flat_map (λ i. report_issue n i (report_issue_type (report_of i))) ids ≡ []
unfolding report_issue_type
no_report_issues n report_of [] h = refl
no_report_issues n report_of (i ∷ ids) h = ground (arith, no_report_issues n report_of ids)

all_approved :
    (n : ℕ) (report_of : ℕ → Option Report) (ids : List ℕ)
    → flat_map (λ i. report_issue n i (report_issue_type (report_of i))) ids ≡ []
    → all (λ i. holds is_approved (approval_of (report_of i))) ids ≡ true
unfolding report_issue_type
all_approved n report_of [] h = refl
all_approved n report_of (i ∷ ids) h = ground (arith, all_approved n report_of ids)

auto_conditions :
    (s : ClassSession) (p : SessionPricingInput)
    → is_auto_kind (classify_session_for_payout s p).kind ≡ true
    → IsAutoPriced s p
auto_conditions s p h = (classify-auto_iff s p).0 (ground arith)

module _ (resolve : ResolveIds) (before : Row ClassSession → Row ClassSession → Bool)
    (i : ReadinessInput) (s : Row ClassSession) where
  -- everybody's attendance is recorded, and the instructor was on time
  abbrev pub is_undisputed : Bool
  is_undisputed =
      not (is_late s.val.instructor_attendance)
      && not (any (λ n. is_none (i.attendance_of s.id n)) (participants resolve before i s))

  complete_of_eligible :
      is_eligible resolve before i s ≡ true
      → (issues_of resolve before i s ≡ []) × (is_undisputed ≡ true)
  unfolding is_eligible issues_of held_issues counts_for_teaching_hours
  complete_of_eligible h =
      let c : IsAutoPriced s.val (pricing_of resolve before i s) =
        auto_conditions s.val (pricing_of resolve before i s) (ground arith) in
      (
        ground (
          arith,
          c.taught,
          c.came,
          c.roster,
          c.rated,
          no_report_issues s.id (i.report_of s.id) (participants resolve before i s) c.reported,
        ),
        ground (arith, c.on_time, c.recorded),
      )

  eligible_of_complete :
      is_candidate i s ≡ true
      → is_held s.val.status ≡ true
      → issues_of resolve before i s ≡ []
      → is_undisputed ≡ true
      → is_eligible resolve before i s ≡ true
  unfolding is_eligible issues_of held_issues counts_for_teaching_hours is_payout_locked
  eligible_of_complete cand held none_missing fine =
      let ids = participants resolve before i s in
      let some_ids : is_empty ids ≡ false = ground arith in
      let reports : flat_map (λ n. report_issue s.id n (report_issue_type (i.report_of s.id n))) ids
          ≡ [] =
        ground arith in
      let c : IsAutoPriced s.val (pricing_of resolve before i s) = record {
        unlocked = ground arith;
        assigned = ground arith;
        taught = held;
        came = ground arith;
        on_time = ground arith;
        roster = some_ids;
        recorded = ground arith;
        reported = all_approved s.id (i.report_of s.id) ids reports;
        rated = ground arith;
      } in
      ground (arith, (classify-auto_iff s.val (pricing_of resolve before i s)).1 c)

-- A held session that the evaluation considers is ready for pay exactly when it has no issue, the
-- instructor was on time, and the attendance of every participant is recorded.
pub eligible-complete_iff :
    (resolve : ResolveIds) (before : Row ClassSession → Row ClassSession → Bool)
    (i : ReadinessInput) (s : Row ClassSession)
    → is_candidate i s ≡ true
    → is_held s.val.status ≡ true
    → (is_eligible resolve before i s ≡ true)
      ↔ ((issues_of resolve before i s ≡ []) × (is_undisputed resolve before i s ≡ true))
eligible-complete_iff resolve before i s cand held = (
  complete_of_eligible resolve before i s,
  λ h. eligible_of_complete resolve before i s cand held h.0 h.1,
)

elem-eligible :
    (resolve : ResolveIds) (before : Row ClassSession → Row ClassSession → Bool)
    (i : ReadinessInput) (n : ℕ) (ss : List (Row ClassSession))
    → elem n (flat_map (eligible_id resolve before i) ss)
      ≡ any (λ s. (s.id == n) && is_eligible resolve before i s) ss
elem-eligible resolve before i n [] = refl
elem-eligible resolve before i n (s ∷ ss) = ground (arith, elem-eligible resolve before i n ss)

-- A session that is ready for pay: from the first to the last day of the period, with an instructor,
-- who is the asked one if one is asked for, in no payout and unpaid, and priced automatically.
pub record IsReady (i : ReadinessInput) (p : SessionPricingInput) (s : ClassSession) : Type 0 where
  pub not_earlier : i.period_start ≤ s.session_date
  pub not_later : s.session_date ≤ i.period_end
  pub assigned : (k : ℕ) × (s.instructor_id ≡ some k)
  pub asked_for : (k : ℕ) → i.instructor_id ≡ some k → s.instructor_id ≡ some k
  pub unclaimed : s.payout_id ≡ none
  pub unpaid : s.is_paid ≡ false
  pub automatic : IsAutoPriced s p

module _ (resolve : ResolveIds) (before : Row ClassSession → Row ClassSession → Bool)
    (i : ReadinessInput) (s : Row ClassSession) where
  abbrev is_listed : Bool
  is_listed = is_candidate i s && is_eligible resolve before i s

  is_listed-IsReady : is_listed ≡ true → IsReady i (pricing_of resolve before i s) s.val
  unfolding is_eligible
  is_listed-IsReady h = record {
    not_earlier = ground arith;
    not_later = ground arith;
    assigned = elim (Option-cases s.val.instructor_id) [
      | inl e ↦ absurd (ground arith)
      | inr (k, e) ↦ (k, e)
    ];
    asked_for = λ k e. ground arith;
    unclaimed = ground arith;
    unpaid = ground arith;
    automatic = auto_conditions s.val (pricing_of resolve before i s) (ground arith);
  }

  asked_one :
      IsReady i (pricing_of resolve before i s) s.val
      → (is_none i.instructor_id || holds (λ n. is_id n s.val.instructor_id) i.instructor_id) ≡ true
  asked_one c = elim (Option-cases i.instructor_id) [
    | inl e ↦ ground arith
    | inr (k, e) ↦ let e' = c.asked_for k e in ground arith
  ]

  listed_of_ready : IsReady i (pricing_of resolve before i s) s.val → is_listed ≡ true
  unfolding is_eligible
  listed_of_ready c = ground (
    arith,
    c.not_earlier,
    c.not_later,
    c.assigned.1,
    asked_one c,
    c.unclaimed,
    c.unpaid,
    c.automatic.taught,
    (classify-auto_iff s.val (pricing_of resolve before i s)).1 c.automatic,
  )

any-eligible :
    (resolve : ResolveIds) (before : Row ClassSession → Row ClassSession → Bool)
    (i : ReadinessInput) (n : ℕ)
    → elem n (evaluate_payout_readiness resolve before i).eligible_session_ids
      ≡ any (λ s. is_candidate i s && ((s.id == n) && is_eligible resolve before i s)) i.sessions
unfolding evaluate_payout_readiness
any-eligible resolve before i n =
    let found = λ (s : Row ClassSession). (s.id == n) && is_eligible resolve before i s in
    elem-eligible resolve before i n (sort_by before (filter (is_candidate i) i.sessions))
    ∙ (any-sort_by found before (filter (is_candidate i) i.sessions)
        ∙ any-filter found (is_candidate i) i.sessions)

-- The ids that the evaluation lists are those of the given sessions that are ready for pay: from the
-- first to the last day of the period, with an instructor, the asked one if one is asked for, in no
-- payout and unpaid, and priced automatically.
pub elem-evaluate_payout_readiness :
    (resolve : ResolveIds) (before : Row ClassSession → Row ClassSession → Bool)
    (i : ReadinessInput) (n : ℕ)
    → (elem n (evaluate_payout_readiness resolve before i).eligible_session_ids ≡ true) ↔ (
        (s : Row ClassSession) × Memᴰ s i.sessions
        × (s.id ≡ n)
        × IsReady i (pricing_of resolve before i s) s.val)
elem-evaluate_payout_readiness resolve before i n =
    let listed = any-eligible resolve before i n in
    let test = λ (s : Row ClassSession).
      is_candidate i s && ((s.id == n) && is_eligible resolve before i s) in
    (
      λ h.
          let (s, m, e) = (any_iff test i.sessions).0 (sym listed ∙ h) in
          (s, m, ground arith, is_listed-IsReady resolve before i s (ground arith)),
      λ c.
          let (s, m, e, q) = c in
          let ready = listed_of_ready resolve before i s q in
          listed ∙ (any_iff test i.sessions).1 (s, m, ground arith),
    )
