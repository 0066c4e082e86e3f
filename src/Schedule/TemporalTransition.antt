-- ===== src/Schedule/TemporalTransition.antt =====
-- src/modules/schedule/session-temporal-transition.policy.ts: when attendance is missing, when a session
-- becomes held, and which changes of status and time are refused.
pub mod Holding
use taco_backend.Common.{
  ℕ, Bool, true, false, not, ◌&&◌, ◌||◌, Option, none, some, List, [], ◌∷◌, ◌==◌, if◌then◌else◌,
  is_none, is_some, is_empty, get_or, elem, filter, all, holds,
}
use taco_backend.Time.{Hhmm}
use taco_backend.Schedule.Entity.{ClassSession, SessionStatus, is_held, is_scheduled, is_called_off}
use taco_backend.Schedule.Participants.{ResolveIds, CohortIndex, participant_ids_for_session}
use taco_backend.Schedule.SessionTime.{SessionMoment, session_end_passed}

abbrev same_time : Option Hhmm → Option Hhmm → Bool
same_time none none = true
same_time (some a) (some b) = (a.hour == b.hour) && (a.minute == b.minute)
same_time _ _ = false

unfoldable pub has_session_temporal_change : ClassSession → ClassSession → Bool
has_session_temporal_change before after =
    not (before.session_date == after.session_date)
    || (not (same_time before.start_time after.start_time)
        || not (before.duration_minutes == after.duration_minutes))

abbrev pub moment_of : ClassSession → SessionMoment
moment_of s = record {
  session_date = s.session_date;
  start_time = s.start_time;
  duration_minutes = some s.duration_minutes;
}

pub record AttendanceRequirement : Type 0 where
  pub attendance_required : Bool
  pub missing_instructor : Bool
  pub missing_students : List ℕ

-- the participants without an attendance row; `recorded` has the students of the rows
abbrev pub unrecorded : List ℕ → List ℕ → List ℕ
unrecorded recorded ids = filter (λ n. not (elem n recorded)) ids

abbrev nothing_missing : AttendanceRequirement
nothing_missing = record {
  attendance_required = false;
  missing_instructor = false;
  missing_students = [];
}

-- The patch that makes a session held; it names the students unless the session already does.
abbrev pub hold_patch : Option (List ℕ) → List ℕ → Option (List ℕ)
hold_patch named ids = if is_empty (get_or named []) then some ids else none

module _ (resolve : ResolveIds) where
  unfoldable pub attendance_requirement_of :
      ClassSession → CohortIndex → List ℕ → ℕ → AttendanceRequirement
  attendance_requirement_of s index recorded now =
      if is_none s.instructor_id
      then nothing_missing
      else let missing = unrecorded recorded (participant_ids_for_session resolve s index) in
        let no_instructor = is_none s.instructor_attendance in
        let required =
          not (is_called_off s.status)
          && (session_end_passed (moment_of s) now && (no_instructor || not (is_empty missing))) in
        record {
          attendance_required = required;
          missing_instructor = required && no_instructor;
          missing_students = if required then missing else [];
        }

  -- nothing for no patch; in a patch, the students that it names, if it names any
  unfoldable pub attendance_completion_hold_patch :
      ClassSession → CohortIndex → List ℕ → ℕ → Option (Option (List ℕ))
  attendance_completion_hold_patch s index recorded now =
      let ids = participant_ids_for_session resolve s index in
      if is_none s.instructor_id
        || (not (is_scheduled s.status) || not (session_end_passed (moment_of s) now))
      then none
      else if is_none s.instructor_attendance
      then none
      else if is_empty ids
      then none
      else if not (all (λ n. elem n recorded) ids)
      then none
      else some (hold_patch s.student_ids ids)

-- `{ ...session, ...patch }`
abbrev pub hold : Option (List ℕ) → ClassSession → ClassSession
hold none s = record s { status = SessionStatus.held }
hold (some ids) s = record s { status = SessionStatus.held; student_ids = some ids }

unfoldable pub is_manual_completion_status_violation :
    Option SessionStatus → Option SessionStatus → Bool
is_manual_completion_status_violation current requested =
    (holds is_held requested && not (holds is_held current))
    || (holds is_held current && holds is_scheduled requested)

unfoldable pub is_temporal_change_blocked_status : SessionStatus → Bool
is_temporal_change_blocked_status SessionStatus.canceled = true
is_temporal_change_blocked_status SessionStatus.no_show = true
is_temporal_change_blocked_status SessionStatus.makeup = true
is_temporal_change_blocked_status _ = false
