-- ===== src/Planning/Assignment.antt =====
-- src/modules/schedule/schedule.service.ts: `updateInstructorAssignment`. A session that is not
-- settled gets another instructor, or none, and on request its course the same default.
use Prim.Native.String.{String}
use taco_backend.Common.{
  ℕ, Bool, true, false, not, ◌&&◌, ◌||◌, Option, none, some, List, [], ◌∷◌, ◌==◌, if◌then◌else◌,
  is_some, is_empty, get_or, holds,
}
use taco_backend.Exec.{Result, ok, err, ◌and_then◌, refuse_if, pure, ◌>>=◌, ◌>>◌, transaction}
use taco_backend.Store.{Row, find_by_id, update}
use taco_backend.Time.{Hhmm}
use taco_backend.Schedule.Entity.{ClassSession, SessionStatus, is_held}
use taco_backend.Schedule.Participants.{ResolveIds}
use taco_backend.Schedule.Conflicts.{Candidate, Conflict}
use taco_backend.Payouts.Rows.{AuditEntity, AuditAction}
use taco_backend.Planning.{
  Calendar, CalendarCommand, CalendarError, check, found, audit_log, session_not_found,
  not_logged_in, assignment_stale, same_instructor, settled_session, has_history, no_schedule_owner,
  default_with_unassignment, changed_meanwhile, schedule_conflict, start_missing,
}
use taco_backend.Planning.Validation.{is_schedule_owner, active_student_ids, check_conflicts}
use taco_backend.Planning.Context.{
  SessionAccountingContext, load_fresh, attendance_for, assert_dependents_compatible,
  same_instructor_id,
}
use taco_backend.Planning.Courses.{update_course}

-- an expectation of `none` is not given; one of `some none` expects no instructor
pub record AssignInstructor : Type 0 where
  pub instructor_id : Option ℕ
  pub expected_instructor_id : Option (Option ℕ)
  pub set_course_default : Bool
  pub reason : String

pub record Assigned : Type 0 where
  pub row : Row ClassSession
  pub previous_instructor_id : Option ℕ
  pub course_default_updated : Bool

abbrev is_makeup : SessionStatus → Bool
is_makeup SessionStatus.makeup = true
is_makeup _ = false

abbrev pub is_settled : ClassSession → Bool
is_settled s = is_some s.payout_id || (is_some s.paid_payout_id || s.is_paid)

-- what is recorded of a session that took place
abbrev pub has_recorded_history : SessionAccountingContext → Row ClassSession → Bool
has_recorded_history context s =
    is_held s.val.status
    || (is_makeup s.val.status
        || (is_some s.val.instructor_attendance
            || (is_some s.val.instructor_pay_amount
                || not (is_empty (attendance_for context s.id)))))

abbrev pub assignment_candidate : Calendar → Row ClassSession → ℕ → Hhmm → Candidate
assignment_candidate c s instructor start = record {
  session_date = s.val.session_date;
  start_time = start;
  end_time = s.val.end_time;
  duration_minutes = some s.val.duration_minutes;
  instructor_id = some instructor;
  room_id = s.val.room_id;
  student_ids = some (get_or s.val.student_ids (active_student_ids c s.val.course_id));
  ignore_session_id = some s.id;
  mode = some s.val.mode;
}

abbrev pub stop_on_any : List Conflict → Result CalendarError (Unit {0})
stop_on_any conflicts = refuse_if (not (is_empty conflicts)) (schedule_conflict conflicts)

-- the new instructor may hold sessions and is free; the last check fails on a session without a
-- start, whose text the conflict check cannot split
abbrev pub may_hold : Calendar → Row ClassSession → ℕ → Result CalendarError (Unit {0})
may_hold c s instructor =
    refuse_if (not (is_schedule_owner c instructor)) no_schedule_owner and_then λ _.
    found s.val.start_time start_missing and_then λ start.
    stop_on_any (check_conflicts c (assignment_candidate c s instructor start))

abbrev pub instructor_allowed :
    SessionAccountingContext
    → Calendar
    → Row ClassSession
    → Bool
    → Option ℕ
    → Result CalendarError (Unit {0})
instructor_allowed context c s set_course_default none =
    refuse_if set_course_default default_with_unassignment and_then λ _.
    refuse_if (has_recorded_history context s) has_history
instructor_allowed context c s set_course_default (some instructor) = may_hold c s instructor

abbrev pub with_instructor : Option ℕ → ClassSession → ClassSession
with_instructor instructor s = record s { instructor_id = instructor }

-- `setCourseDefault`, which `courses.update` writes in the transaction of the assignment
abbrev pub set_default : ℕ → Option ℕ → AssignInstructor → ℕ → CalendarCommand (Unit {0})
set_default now actor dto course =
    if dto.set_course_default && is_some dto.instructor_id
    then update_course true now actor course (record {
      instructor_id = some dto.instructor_id;
      hourly_rate_override = none;
      hourly_rate = none;
    })
    else pure tt

abbrev pub update_session :
    ℕ → ℕ → (ClassSession → ClassSession) → CalendarCommand (Option (Row ClassSession))
update_session now i f c =
    let (r, t) = update now i f c.tables.sessions in
    (ok r, record c { tables = record c.tables { sessions = t } })

abbrev pub assigned_answer : AssignInstructor → Row ClassSession → Row ClassSession → Assigned
assigned_answer dto s row = record {
  row = row;
  previous_instructor_id = s.val.instructor_id;
  course_default_updated = dto.set_course_default && is_some dto.instructor_id;
}

abbrev pub log_assigned : ℕ → ℕ → AssignInstructor → Assigned → CalendarCommand Assigned
log_assigned actor i dto answer = do
  audit_log (some actor) AuditEntity.class_sessions i AuditAction.update (some dto.reason)
  pure answer

abbrev pub finish_assignment :
    ℕ → ℕ → ℕ → AssignInstructor → Row ClassSession → Row ClassSession → CalendarCommand Assigned
finish_assignment now actor i dto s row =
    set_default now (some actor) dto s.val.course_id
    >> log_assigned actor i dto (assigned_answer dto s row)

abbrev pub assign_writes :
    ℕ → ℕ → ℕ → AssignInstructor → Row ClassSession → CalendarCommand Assigned
assign_writes now actor i dto s = do
  saved ← update_session now i (with_instructor dto.instructor_id)
  row ← check (λ _. found saved changed_meanwhile)
  finish_assignment now actor i dto s row

module _ (resolve : ResolveIds) where
  -- the checks under the locks; `course` is the course that was read before them
  unfoldable pub assign_checks :
      ℕ → ℕ → AssignInstructor → Calendar → Result CalendarError (Row ClassSession)
  unfolding assert_dependents_compatible load_fresh check_conflicts
  assign_checks course i dto c =
      let context = load_fresh (i ∷ []) c.tables in
      found (find_by_id i c.tables.sessions) session_not_found and_then λ s.
      refuse_if (not (s.val.course_id == course)) assignment_stale and_then λ _.
      refuse_if
        (holds (λ expected. not (same_instructor_id s.val.instructor_id expected))
          dto.expected_instructor_id)
        assignment_stale
      and_then λ _.
          refuse_if (same_instructor_id s.val.instructor_id dto.instructor_id) same_instructor
          and_then λ _. refuse_if (is_settled s.val) settled_session and_then λ _.
              assert_dependents_compatible resolve context s
                (with_instructor dto.instructor_id s.val)
              and_then λ _.
                  instructor_allowed context c s dto.set_course_default dto.instructor_id
                  and_then λ _. ok s

  abbrev pub assign_locked :
      ℕ → ℕ → ℕ → AssignInstructor → Row ClassSession → CalendarCommand Assigned
  assign_locked now actor i dto pre =
      check (assign_checks pre.val.course_id i dto) >>= assign_writes now actor i dto

  unfoldable pub update_instructor_assignment :
      ℕ → Option ℕ → ℕ → AssignInstructor → CalendarCommand Assigned
  unfolding assign_checks update_course transaction
  update_instructor_assignment now none i dto = check (λ _. err not_logged_in)
  update_instructor_assignment now (some actor) i dto =
      check (λ c. found (find_by_id i c.tables.sessions) session_not_found) >>= λ pre.
      transaction (assign_locked now actor i dto pre)
