-- ===== src/Planning/Courses.antt =====
-- src/modules/courses/courses.service.ts: `update`, as far as the instructor and the rate of a course go.
-- The name, the subject, the price, the colour and the kinder mark are left out.
use taco_backend.Common.{ℕ, Bool, not, ◌&&◌, Option, none, some, ltb, is_some, get_or, or_else}
use taco_backend.Exec.{Result, ok, ◌and_then◌, refuse_if, ◌>>=◌, transaction, transaction_in}
use taco_backend.Store.{Row, find_by_id, find_all, update}
use taco_backend.Users.{
  InstructorProfile, is_teaching_account, active_teaching_profile_user_ids, find_active_profile,
}
use taco_backend.Payouts.Rows.{StoredCourse, AuditEntity, AuditAction}
use taco_backend.Planning.{
  Calendar, CalendarCommand, CalendarError, check, found, audit_log, course_not_found, not_teaching,
  no_profile, no_rate,
}

-- a field of `none` is left as it is
pub record UpdateCourse : Type 0 where
  pub instructor_id : Option (Option ℕ)
  pub hourly_rate_override : Option (Option ℕ)
  pub hourly_rate : Option ℕ

-- `assertRefs`: the profile of the instructor, who teaches
unfoldable pub assert_refs :
    Option ℕ → Calendar → Result CalendarError (Option (Row InstructorProfile))
assert_refs none c = ok none
assert_refs (some i) c =
    refuse_if
      (not (
        is_teaching_account (find_by_id i c.tables.users)
          (active_teaching_profile_user_ids (find_all c.tables.profiles))))
      not_teaching
    and_then λ _.
        found (find_active_profile i c.tables.profiles) no_profile and_then λ p. ok (some p)

abbrev profile_default : Option (Row InstructorProfile) → ℕ
profile_default none = 0
profile_default (some p) = get_or p.val.default_hourly_rate 0

-- the rate that is given, under either name, or else the one that is stored
abbrev pub explicit_override : UpdateCourse → StoredCourse → Option ℕ
explicit_override dto course = elim dto.hourly_rate_override [
  | some rate ↦ rate
  | none ↦ or_else dto.hourly_rate course.hourly_rate_override
]

-- the course as it will be stored
unfoldable pub course_update_checks :
    ℕ → UpdateCourse → Calendar → Result CalendarError StoredCourse
unfolding assert_refs
course_update_checks i dto c =
    found (find_by_id i c.tables.courses) course_not_found and_then λ current.
    assert_refs (get_or dto.instructor_id current.val.instructor_id) c and_then λ profile.
    let rate = explicit_override dto current.val in
    let instructor = get_or dto.instructor_id current.val.instructor_id in
    refuse_if (is_some instructor && not (ltb 0 (get_or rate (profile_default profile)))) no_rate
    and_then λ _. ok (record { instructor_id = instructor; hourly_rate_override = rate })

abbrev pub course_update_writes : ℕ → Option ℕ → ℕ → StoredCourse → CalendarCommand (Unit {0})
course_update_writes now actor i stored = do
  _ ← λ c. (
    ok tt,
    record c {
      tables = record c.tables { courses = (update now i (λ _. stored) c.tables.courses).1 };
    },
  )
  audit_log actor AuditEntity.courses i AuditAction.update none

-- `nested` when the caller is in a transaction already
unfoldable pub update_course : Bool → ℕ → Option ℕ → ℕ → UpdateCourse → CalendarCommand (Unit {0})
unfolding course_update_checks transaction
update_course nested now actor i dto =
    transaction_in nested (check (course_update_checks i dto) >>= course_update_writes now actor i)
