-- ===== src/Planning/Validation.antt =====
-- src/modules/schedule/schedule-read.service.ts: who may take part in a session and hold it, and the
-- checks of a session's input that creation, series and requests share.
use taco_backend.Common.{
  ℕ, Bool, true, false, not, ◌&&◌, ◌||◌, Option, none, some, List, [], ◌∷◌, ◌==◌, if◌then◌else◌,
  is_empty, get_or, elem, any, all, filter, map, holds,
}
use taco_backend.Exec.{Result, ok, err}
use taco_backend.Store.{Row, find_by_id, find_by, find_all}
use taco_backend.Users.{
  Role, StaffAccount, is_active_staff_account, is_teaching_account,
  active_teaching_profile_user_ids,
}
use taco_backend.Schedule.Entity.{ClassSession}
use taco_backend.Schedule.Participants.{build_cohort_index, cohort_of}
use taco_backend.Schedule.Conflicts.{AvailabilityBlock, Candidate, Conflict, detect_conflicts}
use taco_backend.Payouts.Rows.{StoredCourse, value}
use taco_backend.Planning.{
  StudentStatus, enrolled, on_leave, new_inquiry, Student, Room, Calendar, CalendarError, no_course,
  no_schedule_owner, no_room, duplicate_students, unknown_students, capacity_of,
}

-- src/modules/students/student-status.policy.ts
abbrev pub is_schedule_visible_student_status : StudentStatus → Bool
is_schedule_visible_student_status enrolled = true
is_schedule_visible_student_status on_leave = true
is_schedule_visible_student_status new_inquiry = true
is_schedule_visible_student_status _ = false

abbrev pub is_super_admin : Role → Bool
is_super_admin Role.super_admin = true
is_super_admin _ = false

-- `isActiveScheduleOwner`: who teaches, or an active head
unfoldable pub is_active_schedule_owner : Option (Row StaffAccount) → List ℕ → Bool
is_active_schedule_owner none profiles = false
is_active_schedule_owner (some u) profiles =
    is_active_staff_account u
    && (is_super_admin u.val.role || is_teaching_account (some u) profiles)

abbrev pub course_of : Calendar → ℕ → Option (Row StoredCourse)
course_of c i = find_by_id i c.tables.courses

abbrev pub is_schedule_owner : Calendar → ℕ → Bool
is_schedule_owner c i =
    is_active_schedule_owner (find_by_id i c.tables.users)
      (active_teaching_profile_user_ids (find_all c.tables.profiles))

-- the student is there and is shown in the calendar
abbrev pub may_join : Calendar → ℕ → Bool
may_join c i =
    holds (λ (s : Row Student). is_schedule_visible_student_status s.val.status)
      (find_by_id i c.students)

-- the students that active enrollments put into the course, as far as the calendar shows them
unfoldable pub active_student_ids : Calendar → ℕ → List ℕ
active_student_ids c course = filter (may_join c) (
    cohort_of course (
      build_cohort_index
        (map value (find_by (λ e. e.val.course_id == course) c.tables.enrollments))))

-- the named students, or else those of the course
unfoldable pub effective_student_ids : Calendar → Row ClassSession → List ℕ
unfolding active_student_ids
effective_student_ids c s =
    let named = get_or s.val.student_ids [] in
    if is_empty named then active_student_ids c s.val.course_id else named

abbrev pub has_duplicates : List ℕ → Bool
has_duplicates [] = false
has_duplicates (i ∷ is) = elem i is || has_duplicates is

unfoldable pub validate_session_student_ids : Calendar → List ℕ → Result CalendarError (Unit {0})
validate_session_student_ids c ids =
    if has_duplicates ids
    then err duplicate_students
    else if all (may_join c) ids
    then ok tt
    else err unknown_students

-- the fields of the inputs that are validated; an instructor of `none` takes the course's, and one
-- of `some none` leaves the session without an instructor
pub record SessionInput : Type 0 where
  pub course_id : ℕ
  pub instructor_id : Option (Option ℕ)
  pub room_id : Option ℕ
  pub student_ids : Option (List ℕ)

abbrev pub owner_allowed : Calendar → Option ℕ → Bool
owner_allowed c none = true
owner_allowed c (some i) = is_schedule_owner c i

abbrev pub room_allowed : Calendar → Option ℕ → Bool
room_allowed c none = true
room_allowed c (some i) = any (λ (r : Row Room). r.id == i) (find_all c.rooms)

abbrev validate_in_course : Calendar → SessionInput → Option ℕ → Result CalendarError (Option ℕ)
validate_in_course c input instructor =
    if not (owner_allowed c instructor)
    then err no_schedule_owner
    else if not (room_allowed c input.room_id)
    then err no_room
    else elim (validate_session_student_ids c (get_or input.student_ids [])) [
      | err e ↦ err e
      | ok _ ↦ ok instructor
    ]

-- the instructor that the session will have
unfoldable pub validate_session_input : Calendar → SessionInput → Result CalendarError (Option ℕ)
unfolding validate_session_student_ids
validate_session_input c input = elim (course_of c input.course_id) [
  | none ↦ err no_course
  | some course ↦ validate_in_course c input (get_or input.instructor_id course.val.instructor_id)
]

-- `checkConflicts`, and the same call of the commands: all active sessions but those that are left
-- out, all blocks, the effective students and the seats of the rooms
unfoldable pub conflicts_against : Calendar → List (Row ClassSession) → Candidate → List Conflict
unfolding effective_student_ids
conflicts_against c ss candidate =
    detect_conflicts candidate ss (map (λ (b : Row AvailabilityBlock). b.val) (find_all c.blocks))
      (some (effective_student_ids c)) (some (capacity_of c.rooms))

unfoldable pub check_conflicts : Calendar → Candidate → List Conflict
unfolding conflicts_against
check_conflicts c candidate = conflicts_against c (find_all c.tables.sessions) candidate
