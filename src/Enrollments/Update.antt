-- ===== src/Enrollments/Update.antt =====
-- What the update of src/modules/enrollments/enrollments.service.ts leaves in the tables.
use taco_backend.Common.{ℕ, ◌≡◌, refl, sym, ap, ◌∙◌, false, some, ◌==◌, ==_refl, arith}
use taco_backend.Exec.{ok, transaction}
use taco_backend.Store.{Row, Table, patch_row, write, update_if, find_active, find_by_id}
use taco_backend.Store.WellFormed.{IsWellFormed}
use taco_backend.Store.Active.{find_active-eq-find_by_id, find_by_id-patch, write-IsWellFormed}
use taco_backend.Schedule.Entity.{ClassSession}
use taco_backend.Enrollments.{
  undefined, Enrollment, EnrollmentPatch, UpdateEnrollmentInput, is_below, apply_patch,
  enrollment_lifecycle_patch, status_number,
}
use taco_backend.Enrollments.Commands.{
  completed_sessions, enrollment_includes_session_date, EnrollmentDb, update,
}
use taco_backend.Enrollments.Lifecycle.{enrollment_lifecycle_patch-accepted, accepted_patch}

module _ (now k actor : ℕ) (dto : UpdateEnrollmentInput) (db : EnrollmentDb) (r : Row Enrollment)
    (is_wf : IsWellFormed db.enrollments)
    (found : find_active (λ x. x.id == k) db.enrollments ≡ some r) where
  by_id : find_by_id k db.enrollments ≡ some r
  by_id = sym (find_active-eq-find_by_id k db.enrollments is_wf) ∙ found

  update-written :
      (p : EnrollmentPatch)
      → enrollment_lifecycle_patch r.val dto (completed_sessions r.val db.sessions) ≡ ok p
      → (update now k dto actor db).0 ≡ ok (patch_row now (apply_patch p) r)
        × ((update now k dto actor db).1.enrollments
            ≡ write k (patch_row now (apply_patch p)) db.enrollments)
        × ((update now k dto actor db).1.sessions ≡ db.sessions)
  unfolding update transaction update_if
  update-written p h = ground (arith, by_id, found, h, ==_refl (status_number r.val.status))

  updated_found :
      (p : EnrollmentPatch)
      → find_active (λ x. x.id == k) (write k (patch_row now (apply_patch p)) db.enrollments)
        ≡ some (patch_row now (apply_patch p) r)
  updated_found p =
      find_active-eq-find_by_id k (write k (patch_row now (apply_patch p)) db.enrollments)
        (write-IsWellFormed k now (apply_patch p) db.enrollments is_wf)
      ∙ ground (arith, by_id, find_by_id-patch k k now (apply_patch p) db.enrollments, ==_refl k)

-- The sessions that count for an enrollment are the same while its two dates are.
completed_sessions-dates :
    (p : EnrollmentPatch) (e : Enrollment) (sessions : Table ClassSession)
    → p.start_date ≡ undefined
    → p.end_date ≡ undefined
    → completed_sessions (apply_patch p e) sessions ≡ completed_sessions e sessions
unfolding completed_sessions enrollment_includes_session_date
completed_sessions-dates p e sessions h h' = rw h (rw h' refl)

-- An update that the policy accepts goes through. Afterwards the row that it answers is found, and,
-- where the request names no date, its total is not below the sessions that count as completed for
-- it. This takes an active row and a collection whose ids are unique.
pub update-total :
    (now k actor : ℕ) (dto : UpdateEnrollmentInput) (db : EnrollmentDb) (r : Row Enrollment)
    (p : EnrollmentPatch)
    → IsWellFormed db.enrollments
    → find_active (λ x. x.id == k) db.enrollments ≡ some r
    → enrollment_lifecycle_patch r.val dto (completed_sessions r.val db.sessions) ≡ ok p
    → dto.fields.start_date ≡ undefined
    → dto.fields.end_date ≡ undefined
    → let db' = (update now k dto actor db).1 in
      let after = patch_row now (apply_patch p) r in
      ((update now k dto actor db).0 ≡ ok after)
      × (find_active (λ x. x.id == k) db'.enrollments ≡ some after)
      × (is_below (completed_sessions after.val db'.sessions) after.val.total_sessions ≡ false)
update-total now k actor dto db r p wf found h start end =
    let (answer, rows, sessions) = update-written now k actor dto db r wf found p h in
    let same = accepted_patch r.val dto _ p h in
    let s : p.start_date ≡ undefined = ap (λ q. q.start_date) (sym same) ∙ start in
    let t : p.end_date ≡ undefined = ap (λ q. q.end_date) (sym same) ∙ end in
    let (in_order, enough, other) = enrollment_lifecycle_patch-accepted r.val dto _ p h in
    (
      answer,
      ap (find_active (λ x. x.id == k)) rows ∙ updated_found now k actor dto db r wf found p,
      ap
            (λ x.
              is_below (completed_sessions (apply_patch p r.val) x)
                (apply_patch p r.val).total_sessions)
            sessions
          ∙ (ap (λ n. is_below n (apply_patch p r.val).total_sessions)
                (completed_sessions-dates p r.val db.sessions s t)
              ∙ enough),
    )
