-- ===== src/Enrollments/Commands.antt =====
-- src/modules/enrollments/enrollments.service.ts: the completed sessions that are counted for an
-- enrollment, and the update of one. The recorded differences of the audit rows are left out.
use taco_backend.Common.{
  ℕ, Bool, true, ◌&&◌, Option, none, some, List, [], ◌∷◌, ◌++◌, ◌==◌, leb, elem, count_by,
}
use taco_backend.Exec.{ok, err, Exec, pure, modify, or_throw, ◌>>=◌, ◌>>◌, transaction}
use taco_backend.Store.{Row, Table, update_if, find_active, find_by}
use taco_backend.Time.{IsoDate}
use taco_backend.Schedule.Entity.{ClassSession, is_held}
use taco_backend.Schedule.Participants.{EnrollmentStatus}
use taco_backend.Enrollments.{
  Field, undefined, null, value, Text, trim, Enrollment, EnrollmentPatch, UpdateEnrollmentInput,
  LifecycleError, enrollment_not_found, changed_meanwhile, same_status, apply_patch,
  enrollment_lifecycle_patch,
}

-- `enrollment.startDate ?? enrollment.enrolledAt`
abbrev starts_on : Enrollment → IsoDate
starts_on e = elim e.start_date [ undefined ↦ e.enrolled_at | null ↦ e.enrolled_at | value d ↦ d ]

abbrev within_end : IsoDate → Field IsoDate → Bool
within_end day undefined = true
within_end day null = true
within_end day (value end) = leb day end

unfoldable pub enrollment_includes_session_date : Enrollment → IsoDate → Bool
enrollment_includes_session_date e day = leb (starts_on e) day && within_end day e.end_date

-- `!session.studentIds?.length || session.studentIds.includes(studentId)`
abbrev named_or_all : ℕ → Option (List ℕ) → Bool
named_or_all n none = true
named_or_all n (some []) = true
named_or_all n (some (m ∷ ids)) = elem n (m ∷ ids)

abbrev counts_for : Enrollment → Row ClassSession → Bool
counts_for e r =
    (r.val.course_id == e.course_id)
    && (enrollment_includes_session_date e r.val.session_date
        && named_or_all e.student_id r.val.student_ids)

-- `withDerivedCompletedSessions`, for one row
unfoldable pub completed_sessions : Enrollment → Table ClassSession → ℕ
unfolding enrollment_includes_session_date
completed_sessions e sessions =
    count_by (counts_for e) (find_by (λ r. is_held r.val.status) sessions)

pub record EnrollmentChange : Type 0 where
  pub enrollment_id : ℕ
  pub actor_id : ℕ
  pub reason : Text

pub record EnrollmentDb : Type 0 where
  pub enrollments : Table Enrollment
  pub sessions : Table ClassSession
  pub audit : List EnrollmentChange

abbrev pub EnrollmentCommand : Type 0 → Type 0
EnrollmentCommand = Exec LifecycleError EnrollmentDb

abbrev find_enrollment : ℕ → EnrollmentCommand (Row Enrollment)
find_enrollment k db = elim (find_active (λ r. r.id == k) db.enrollments) [
  | none ↦ (err enrollment_not_found, db)
  | some r ↦ (ok r, db)
]

-- the policy with the completed sessions of the row, as they are in the tables
abbrev lifecycle_of : Enrollment → UpdateEnrollmentInput → EnrollmentCommand EnrollmentPatch
lifecycle_of e dto db = (enrollment_lifecycle_patch e dto (completed_sessions e db.sessions), db)

-- `store.updateIf(ENROLLMENTS_SPEC, id, { status: current.status }, patch)`
abbrev cas_enrollment :
    ℕ → ℕ → EnrollmentStatus → EnrollmentPatch → EnrollmentCommand (Option (Row Enrollment))
cas_enrollment now k s p db =
    let (r, t) = update_if now k (λ r. same_status r.val.status s) (apply_patch p) db.enrollments in
    (ok r, record db { enrollments = t })

abbrev log : ℕ → ℕ → Text → EnrollmentCommand (Unit {0})
log k actor why = modify (λ db. record db {
  audit = db.audit ++ (record { enrollment_id = k; actor_id = actor; reason = why }) ∷ [];
})

-- The answer is the row; its completed sessions are counted from it by `completed_sessions`.
unfoldable pub update : ℕ → ℕ → UpdateEnrollmentInput → ℕ → EnrollmentCommand (Row Enrollment)
unfolding enrollment_lifecycle_patch trim completed_sessions
update now k dto actor = transaction (do
  current ← find_enrollment k
  patch ← lifecycle_of current.val dto
  answer ← cas_enrollment now k current.val.status patch
  updated ← or_throw answer changed_meanwhile
  log k actor (trim dto.reason)
  pure updated)
