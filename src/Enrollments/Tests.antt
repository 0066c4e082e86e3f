-- ===== src/Enrollments/Tests.antt =====
-- An enrollment with three held sessions of its course, and the theorems on enrollments at work.
use taco_backend.Common.{ℕ, ◌≡◌, ◌≢◌, refl, true, false, none, some, [], ◌∷◌, ◌==◌, arith}
use taco_backend.Exec.{ok, err}
use taco_backend.Store.{Row, find_active, patch_row}
use taco_backend.Schedule.Entity.{ClassSession, SessionStatus, Mode, SessionKind}
use taco_backend.Schedule.Participants.{EnrollmentStatus}
use taco_backend.Time.{IsoDate}
use taco_backend.Enrollments.{
  undefined, null, value, Field, Enrollment, EnrollmentPatch, UpdateEnrollmentInput, unchanged,
  is_below, ends_before_start, apply_patch, patch_of, enrollment_lifecycle_patch, trim,
  trimmed_memo,
}
use taco_backend.Enrollments.Commands.{
  enrollment_includes_session_date, completed_sessions, EnrollmentDb, update,
}
use taco_backend.Enrollments.Lifecycle.{
  enrollment_lifecycle_patch-accepted, enrollment_lifecycle_patch-again,
}
use taco_backend.Enrollments.Update.{update-total}

abbrev row : {R : Type 0} → ℕ → R → Row R
row i v = record {
  id = i;
  created_at = 5;
  updated_at = 5;
  deleted_at = none;
  deleted_by = none;
  val = v;
}

abbrev held_on : IsoDate → ClassSession
held_on day = record {
  series_id = none;
  course_id = 10;
  instructor_id = some 2;
  room_id = none;
  student_ids = some (7 ∷ 8 ∷ []);
  session_date = day;
  start_time = none;
  end_time = none;
  duration_minutes = 60;
  status = SessionStatus.held;
  kind = SessionKind.class;
  mode = Mode.online;
  makeup_for_session_id = none;
  instructor_attendance = none;
  instructor_pay_amount = none;
  payout_id = none;
  is_paid = false;
  paid_payout_id = none;
}

abbrev enrolled : Enrollment
enrolled = record {
  student_id = 7;
  course_id = 10;
  status = EnrollmentStatus.active;
  start_date = null;
  end_date = undefined;
  total_sessions = value 2;
  memo = undefined;
  enrolled_at = 100;
}

abbrev tables : EnrollmentDb
tables = record {
  enrollments = record { rows = row 1 enrolled ∷ []; sequence = 1 };
  sessions = record {
    rows = row 1 (held_on 90) ∷ row 2 (held_on 110) ∷ row 3 (held_on 120) ∷ [];
    sequence = 3;
  };
  audit = [];
}

-- only the start is asked for, or only a memo with blanks around it
abbrev asks : Field IsoDate → EnrollmentPatch
asks start = record {
  status = some EnrollmentStatus.paused;
  start_date = start;
  end_date = undefined;
  total_sessions = undefined;
  memo = value (32 ∷ 65 ∷ 32 ∷ 66 ∷ 10 ∷ []);
}

abbrev request : Field IsoDate → UpdateEnrollmentInput
request start = record { fields = asks start; reason = 111 ∷ 107 ∷ [] }

memo_is_trimmed : (patch_of (asks undefined)).memo ≡ value (65 ∷ 32 ∷ 66 ∷ [])
unfolding trimmed_memo trim
memo_is_trimmed = refl

two_completed : completed_sessions enrolled tables.sessions ≡ 2
unfolding completed_sessions enrollment_includes_session_date
two_completed = refl

accepted :
    (start : IsoDate)
    → enrollment_lifecycle_patch enrolled (request (value start)) 2
      ≡ ok (patch_of (asks (value start)))
unfolding enrollment_lifecycle_patch trim trimmed_memo
accepted start = refl

enrollment_lifecycle_patch-accepted_example :
    let after = apply_patch (patch_of (asks (value 95))) enrolled in
    (ends_before_start after.start_date after.end_date ≡ false)
    × (is_below 2 after.total_sessions ≡ false)
    × (after ≢ enrolled)
enrollment_lifecycle_patch-accepted_example =
    enrollment_lifecycle_patch-accepted enrolled (request (value 95)) 2 (patch_of (asks (value 95)))
      (accepted 95)

enrollment_lifecycle_patch-again_example :
    enrollment_lifecycle_patch
      (apply_patch (patch_of (asks (value 95))) enrolled)
      (request (value 95))
      2
    ≡ err unchanged
enrollment_lifecycle_patch-again_example =
    enrollment_lifecycle_patch-again enrolled (request (value 95)) 2 (patch_of (asks (value 95)))
      (accepted 95)

memo_accepted :
    enrollment_lifecycle_patch enrolled
      (request undefined)
      (completed_sessions enrolled tables.sessions)
    ≡ ok (patch_of (asks undefined))
unfolding enrollment_lifecycle_patch trim trimmed_memo completed_sessions
    enrollment_includes_session_date
memo_accepted = refl

update-total_example :
    let db' = (update 50 1 (request undefined) 3 tables).1 in
    let after = patch_row 50 (apply_patch (patch_of (asks undefined))) (row 1 enrolled) in
    ((update 50 1 (request undefined) 3 tables).0 ≡ ok after)
    × (find_active (λ x. x.id == 1) db'.enrollments ≡ some after)
    × (is_below (completed_sessions after.val db'.sessions) after.val.total_sessions ≡ false)
update-total_example =
    update-total 50 1 3 (request undefined) tables (row 1 enrolled) (patch_of (asks undefined))
      (ground arith, refl, tt) refl memo_accepted refl refl

-- A start that moves back before an older session is accepted, and then the total is too small.
early_start-total :
    let after = apply_patch (patch_of (asks (value 80))) enrolled in
    is_below (completed_sessions after tables.sessions) after.total_sessions ≡ true
unfolding completed_sessions enrollment_includes_session_date
early_start-total = refl
