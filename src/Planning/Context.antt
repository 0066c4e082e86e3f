-- ===== src/Planning/Context.antt =====
-- src/modules/schedule/session-accounting-context.service.ts: the enrollments, attendance and reports
-- of the sessions that a command is about, read once under its locks, and the checks on them.
-- The ids of a `Map` and of a `Set` keep the order in which they come, which nothing observes.
pub mod Pricing
use taco_backend.Common.{
  ℕ, Bool, true, false, not, ◌&&◌, Option, none, some, List, [], ◌∷◌, ◌++◌, ◌==◌, if◌then◌else◌,
  is_empty, elem, all, map, map_option, find_last, filter,
}
use taco_backend.Exec.{Result, ok, err, ◌and_then◌, refuse_if}
use taco_backend.Store.{Row, find_by_id, find_by, find_all}
use taco_backend.Schedule.Entity.{ClassSession}
use taco_backend.Schedule.Participants.{
  ResolveIds, CohortIndex, build_cohort_index, participant_ids_for_session,
  student_belongs_to_session_indexed,
}
use taco_backend.Schedule.Accounting.{SessionPricingInput, is_approved}
use taco_backend.Schedule.Conflicts.{same_id}
use taco_backend.Payouts.Rows.{Db, Attendance, SessionReport, StoredCourse, value}
use taco_backend.Payouts.Read.{effective_course_hourly_rate, profile_rate, report_status}
use taco_backend.Planning.{Calendar, CalendarError, dependents_excluded, reports_written}
use taco_backend.Planning.Dates.{distinct}
use taco_backend.Common.{holds}

pub record SessionDependents : Type 0 where
  pub attendance : List (Row Attendance)
  pub reports : List (Row SessionReport)

pub record SessionAccountingContext : Type 0 where
  pub cohort_index : CohortIndex
  pub by_session_id : List (ℕ × SessionDependents)

abbrev pub rows_of_session : Db → ℕ → SessionDependents
rows_of_session db i = record {
  attendance = find_by (λ (a : Row Attendance). a.val.session_id == i) db.attendance;
  reports = find_by (λ (r : Row SessionReport). r.val.session_id == i) db.reports;
}

unfoldable pub load_fresh : List ℕ → Db → SessionAccountingContext
load_fresh ids db = record {
  cohort_index = build_cohort_index (map value (find_all db.enrollments));
  by_session_id = map (λ i. (i, rows_of_session db i)) (distinct ids);
}

abbrev no_dependents : SessionDependents
no_dependents = record { attendance = []; reports = [] }

abbrev pub lookup_dependents : ℕ → List (ℕ × SessionDependents) → SessionDependents
lookup_dependents i [] = no_dependents
lookup_dependents i ((k, d) ∷ rest) = if k == i then d else lookup_dependents i rest

-- `context.bySessionId.get(id) ?? { attendance: [], reports: [] }`
abbrev pub dependents_of : SessionAccountingContext → ℕ → SessionDependents
dependents_of context i = lookup_dependents i context.by_session_id

abbrev pub attendance_for : SessionAccountingContext → ℕ → List (Row Attendance)
attendance_for context i = (dependents_of context i).attendance

abbrev report_approved : Row SessionReport → Bool
report_approved r = holds is_approved r.val.approval_status

-- `CoursesService.findOptional(id)?.hourlyRate`: the course's rate, or else that of the profile of
-- the course's own instructor
abbrev default_rate : Db → Option ℕ → Option ℕ
default_rate db none = none
default_rate db (some i) = profile_rate db i

abbrev pub course_hourly_rate : Db → ℕ → Option ℕ
course_hourly_rate db i =
    map_option
      (λ (course : Row StoredCourse).
        effective_course_hourly_rate course.val (default_rate db course.val.instructor_id))
      (find_by_id i db.courses)

abbrev dependent_students : SessionDependents → List ℕ
dependent_students d =
    map (λ (a : Row Attendance). a.val.student_id) d.attendance
    ++ map (λ (r : Row SessionReport). r.val.student_id) d.reports

abbrev pub same_instructor_id : Option ℕ → Option ℕ → Bool
same_instructor_id none none = true
same_instructor_id o p = same_id o p

module _ (resolve : ResolveIds) where
  unfoldable pub is_report_complete : SessionAccountingContext → Row ClassSession → Bool
  unfolding participant_ids_for_session
  is_report_complete context s =
      let ids = participant_ids_for_session resolve s.val context.cohort_index in
      let approved = filter report_approved (dependents_of context s.id).reports in
      not (is_empty ids)
      && all (λ n. elem n (map (λ (r : Row SessionReport). r.val.student_id) approved)) ids

  -- what a session of that shape is priced with, from the rows of the session of that id
  unfoldable pub pricing_input_for :
      SessionAccountingContext → ℕ → ClassSession → Option ℕ → SessionPricingInput
  pricing_input_for context i shape rate =
      let d = dependents_of context i in
      record {
        participant_ids = participant_ids_for_session resolve shape context.cohort_index;
        report_of = λ n.
            report_status (find_last (λ (r : Row SessionReport). r.val.student_id == n) d.reports);
        attendance_of = λ n.
            map_option (λ (a : Row Attendance). a.val.status)
              (find_last (λ (a : Row Attendance). a.val.student_id == n) d.attendance);
        hourly_rate = rate;
      }

  -- the students with attendance or a report stay participants, and a session with reports keeps
  -- its instructor and its course
  unfoldable pub assert_dependents_compatible :
      SessionAccountingContext → Row ClassSession → ClassSession → Result CalendarError (Unit {0})
  unfolding student_belongs_to_session_indexed
  assert_dependents_compatible context before after =
      let d = dependents_of context before.id in
      refuse_if
        (not (
          all (λ n. student_belongs_to_session_indexed resolve after n context.cohort_index)
            (dependent_students d)))
        dependents_excluded
      and_then λ _.
          refuse_if
            (not (is_empty d.reports)
              && not (same_instructor_id after.instructor_id before.val.instructor_id))
            reports_written
          and_then λ _.
              refuse_if (not (is_empty d.reports) && not (after.course_id == before.val.course_id))
                reports_written
