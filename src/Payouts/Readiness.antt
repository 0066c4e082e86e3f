-- ===== src/Payouts/Readiness.antt =====
-- src/modules/payouts/payout-readiness.policy.ts: which sessions of a period are ready for pay, and what is
-- missing of the others. The maps by session and student are functions of the two. The order of the
-- sessions compares texts in the locale's collation, which comes from outside, as `before`.
pub mod Eligible
mod Tests
use taco_backend.Common.{
  ℕ, Bool, true, false, not, ◌&&◌, ◌||◌, Option, none, some, List, [], ◌∷◌, ◌++◌, leb, ◌==◌,
  if◌then◌else◌, is_none, is_some, is_empty, is_id, holds, map_option, filter, flat_map, sort_by,
  length,
}
use taco_backend.Store.{Row}
use taco_backend.Time.{IsoDate}
use taco_backend.Schedule.Entity.{ClassSession, SessionStatus, is_held, is_scheduled}
use taco_backend.Schedule.Participants.{
  ResolveIds, ParticipantEnrollment, CohortIndex, build_cohort_index, participant_ids_for_session,
}
use taco_backend.Schedule.TemporalTransition.{moment_of}
use taco_backend.Schedule.SessionTime.{session_end_passed}
use taco_backend.Schedule.Accounting.{
  Approval, draft, submitted, approved, rejected, AttendanceStatus, SessionPricingInput,
  PricingKind, auto, counts_for_teaching_hours, classify_session_for_payout, has_rate,
}

-- a report's approval status, and whether its own status is 'submitted'
pub record Report : Type 0 where
  pub approval_status : Option Approval
  pub is_submitted : Bool

pub data IssueType : Type 0 where
  session_execution_missing session_roster_missing rate_missing : IssueType
  report_missing report_rejected report_pending_approval report_draft : IssueType

pub record ReadinessIssue : Type 0 where
  pub type : IssueType
  pub session_id : ℕ
  pub student_id : Option ℕ

pub record ReadinessInput : Type 0 where
  pub sessions : List (Row ClassSession)
  pub enrollments : List ParticipantEnrollment
  pub report_of : ℕ → ℕ → Option Report
  pub attendance_of : ℕ → ℕ → Option AttendanceStatus
  pub period_start : IsoDate
  pub period_end : IsoDate
  pub instructor_id : Option ℕ
  pub effective_rate_of : ℕ → ℕ → Option ℕ
  pub now_ms : ℕ

pub record Readiness : Type 0 where
  pub eligible_session_ids : List ℕ
  pub issues : List ReadinessIssue

abbrev pub pending_or_draft : Bool → Option IssueType
pending_or_draft is_submitted =
    if is_submitted then some report_pending_approval else some report_draft

abbrev pub approval_issue : Option Approval → Bool → Option IssueType
approval_issue (some approved) b = none
approval_issue (some rejected) b = some report_rejected
approval_issue (some submitted) b = some report_pending_approval
approval_issue (some draft) b = pending_or_draft b
approval_issue none b = pending_or_draft b

unfoldable pub report_issue_type : Option Report → Option IssueType
report_issue_type none = some report_missing
report_issue_type (some r) = approval_issue r.approval_status r.is_submitted

abbrev pub session_issue : IssueType → ℕ → ReadinessIssue
session_issue ty n = record { type = ty; session_id = n; student_id = none }

abbrev pub report_issue : ℕ → ℕ → Option IssueType → List ReadinessIssue
report_issue n student none = []
report_issue n student (some ty) =
    record { type = ty; session_id = n; student_id = some student } ∷ []

abbrev pub issue_when : Bool → IssueType → ℕ → List ReadinessIssue
issue_when b ty n = if b then session_issue ty n ∷ [] else []

abbrev pub is_auto_kind : PricingKind → Bool
is_auto_kind auto = true
is_auto_kind _ = false

-- `effectiveRateOf(courseId, instructorId!)`, for the sessions that have an instructor
abbrev pub rate_for : ReadinessInput → ℕ → Option ℕ → Option ℕ
rate_for i course none = none
rate_for i course (some instructor) = i.effective_rate_of course instructor

-- the approval status of a report that has one
abbrev pub approval_of : Option Report → Option Approval
approval_of none = none
approval_of (some r) = r.approval_status

abbrev pub is_candidate : ReadinessInput → Row ClassSession → Bool
is_candidate i s =
    leb i.period_start s.val.session_date
    && (leb s.val.session_date i.period_end
        && (is_some s.val.instructor_id
            && ((is_none i.instructor_id
                  || holds (λ n. is_id n s.val.instructor_id) i.instructor_id)
                && (is_none s.val.payout_id && not s.val.is_paid))))

module _ (resolve : ResolveIds) (before : Row ClassSession → Row ClassSession → Bool) where
  abbrev pub participants : ReadinessInput → Row ClassSession → List ℕ
  participants i s = participant_ids_for_session resolve s.val (build_cohort_index i.enrollments)

  abbrev pub pricing_of : ReadinessInput → Row ClassSession → SessionPricingInput
  pricing_of i s = record {
    participant_ids = participants i s;
    report_of = λ n. approval_of (i.report_of s.id n);
    attendance_of = i.attendance_of s.id;
    hourly_rate = rate_for i s.val.course_id s.val.instructor_id;
  }

  abbrev pub roster_issues : ReadinessInput → Row ClassSession → List ReadinessIssue
  roster_issues i s =
      if is_empty (participants i s)
      then session_issue session_roster_missing s.id ∷ []
      else flat_map (λ n. report_issue s.id n (report_issue_type (i.report_of s.id n)))
          (participants i s)

  unfoldable pub held_issues : ReadinessInput → Row ClassSession → List ReadinessIssue
  unfolding report_issue_type
  held_issues i s =
      issue_when (not (counts_for_teaching_hours s.val)) session_execution_missing s.id
      ++ (roster_issues i s
          ++ issue_when (not (has_rate (rate_for i s.val.course_id s.val.instructor_id)))
              rate_missing s.id)

  unfoldable pub issues_of : ReadinessInput → Row ClassSession → List ReadinessIssue
  unfolding held_issues
  issues_of i s =
      if is_scheduled s.val.status
      then issue_when (session_end_passed (moment_of s.val) i.now_ms) session_execution_missing s.id
      else if is_held s.val.status
      then held_issues i s
      else []

  unfoldable pub is_eligible : ReadinessInput → Row ClassSession → Bool
  is_eligible i s =
      is_held s.val.status && is_auto_kind (classify_session_for_payout s.val (pricing_of i s)).kind

  abbrev pub eligible_id : ReadinessInput → Row ClassSession → List ℕ
  eligible_id i s = if is_eligible i s then s.id ∷ [] else []

  unfoldable pub evaluate_payout_readiness : ReadinessInput → Readiness
  unfolding issues_of is_eligible
  evaluate_payout_readiness i =
      let candidates = sort_by before (filter (is_candidate i) i.sessions) in
      record {
        eligible_session_ids = flat_map (eligible_id i) candidates;
        issues = flat_map (issues_of i) candidates;
      }
