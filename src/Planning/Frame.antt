-- ===== src/Planning/Frame.antt =====
-- The steps of the calendar's commands that write no session, no payout and no ledger row: audit rows,
-- series, courses, attendance and reports. What depends on those three tables only survives them.
use Prim.Native.String.{String}
use taco_backend.Common.{
  true, ℕ, ◌≡◌, refl, Bool, false, not, ◌&&◌, Option, none, some, List, [], ◌∷◌, if◌then◌else◌,
  is_some, is_id, get_or, map,
}
use taco_backend.Exec.{After, After-read, After-bind, After-if, pure, ◌>>◌}
use taco_backend.Store.{Row, find_by, remove, update}
use taco_backend.Schedule.SeriesScope.{SeriesScope}
use taco_backend.Payouts.Rows.{Attendance, SessionReport, AuditEntity, AuditAction}
use taco_backend.Planning.{audit_log, Calendar, ScheduleSeries}
use taco_backend.Planning.Courses.{
  UpdateCourse, update_course, course_update_checks, course_update_writes,
}
use taco_backend.Planning.Assignment.{AssignInstructor, set_default}
use taco_backend.Planning.Removal.{
  log_deletions, real_actor, of_session, report_of_session, without_attendance, without_reports,
  temporal_reset_reason, remove_attendance_of, remove_reports_of, remove_dependents, is_this,
  bump_series, latest, advance_version, tidy_series, tidy,
}
use taco_backend.Planning.Update.{Target}
use taco_backend.Planning.Update.Checks.{Accounted}
use taco_backend.Planning.Update.Commands.{
  is_unchanged, updated_session, reset_attendance, log_target, log_members, log_targets,
  next_version, advance_series, note_update,
}

-- what depends on the sessions, the payouts and the ledger only
abbrev pub IsFramed : (Calendar → Type 0) → Type 0
IsFramed P =
    (c c' : Calendar)
    → c'.tables.sessions ≡ c.tables.sessions
    → c'.tables.payouts ≡ c.tables.payouts
    → c'.tables.transactions ≡ c.tables.transactions
    → P c
    → P c'

module _ (P : Calendar → Type 0) (framed : IsFramed P) where
  pub After-audit_log :
      (actor : Option ℕ) (e : AuditEntity) (i : ℕ) (a : AuditAction) (why : Option String)
      (c : Calendar)
      → P c
      → After P (audit_log actor e i a why) c
  After-audit_log none e i a why c v = v
  After-audit_log (some n) e i a why c v =
      framed c (audit_log (some n) e i a why c).1 refl refl refl v

  After-update_course :
      (now : ℕ) (actor : Option ℕ) (i : ℕ) (dto : UpdateCourse) (c : Calendar)
      → P c
      → After P (update_course true now actor i dto) c
  unfolding update_course
  After-update_course now actor i dto c v =
      After-read P c (course_update_checks i dto) (course_update_writes now actor i) v λ stored e.
        let c1 = record c {
          tables = record c.tables { courses = (update now i (λ _. stored) c.tables.courses).1 };
        } in
        After-audit_log actor AuditEntity.courses i AuditAction.update none c1
          (framed c c1 refl refl refl v)

  pub After-set_default :
      (now : ℕ) (actor : Option ℕ) (dto : AssignInstructor) (course : ℕ) (c : Calendar)
      → P c
      → After P (set_default now actor dto course) c
  After-set_default now actor dto course c v =
      After-if P c (dto.set_course_default && is_some dto.instructor_id)
        (update_course true now actor course (record {
          instructor_id = some dto.instructor_id;
          hourly_rate_override = none;
          hourly_rate = none;
        }))
        (pure tt) (After-update_course now actor course _ c v) v

  After-log_deletions :
      (actor : Option ℕ) (e : AuditEntity) (why : Option String) (is : List ℕ) (c : Calendar)
      → P c
      → After P (log_deletions actor e why is) c
  After-log_deletions actor e why [] c v = v
  After-log_deletions actor e why (i ∷ is) c v =
      After-log_deletions actor e why is (audit_log actor e i AuditAction.delete why c).1
        (After-audit_log actor e i AuditAction.delete why c v)

  After-remove_attendance_of :
      (now : ℕ) (actor : Option ℕ) (why : Option String) (i : ℕ) (c : Calendar)
      → P c
      → After P (remove_attendance_of now actor why i) c
  unfolding remove_attendance_of
  After-remove_attendance_of now actor why i c v =
      let c1 = without_attendance now actor i c in
      After-log_deletions (real_actor actor) AuditEntity.attendance
        (some (get_or why temporal_reset_reason))
        (map (λ (a : Row Attendance). a.id) (find_by (of_session i) c.tables.attendance)) c1
        (framed c c1 refl refl refl v)

  After-remove_reports_of :
      (now : ℕ) (actor : Option ℕ) (i : ℕ) (c : Calendar)
      → P c
      → After P (remove_reports_of now actor i) c
  unfolding remove_reports_of
  After-remove_reports_of now actor i c v =
      let c1 = without_reports now actor i c in
      After-log_deletions (real_actor actor) AuditEntity.session_reports none
        (map (λ (r : Row SessionReport). r.id) (find_by (report_of_session i) c.tables.reports)) c1
        (framed c c1 refl refl refl v)

  pub After-remove_dependents :
      (now : ℕ) (actor : Option ℕ) (i : ℕ) (c : Calendar)
      → P c
      → After P (remove_dependents now actor i) c
  After-remove_dependents now actor i c v =
      After-bind P c (remove_attendance_of now actor none i) (λ _. remove_reports_of now actor i)
        (After-remove_attendance_of now actor none i c v)
        λ _ v1. After-remove_reports_of now actor i (remove_attendance_of now actor none i c).1 v1

  -- a new version of the series and its audit row
  After-advance_version :
      (now : ℕ) (actor : Option ℕ) (why : Option String) (i : ℕ)
      (f : ScheduleSeries → ScheduleSeries) (c : Calendar)
      → P c
      → After P (advance_version now actor why i f) c
  After-advance_version now actor why i f c v =
      let c1 = record c { series = (update now i f c.series).1 } in
      After-audit_log actor AuditEntity.class_session_series i AuditAction.update why c1
        (framed c c1 refl refl refl v)

  After-tidy_series :
      (now : ℕ) (actor : Option ℕ) (why : Option String) (scope : SeriesScope)
      (r : Row ScheduleSeries) (c : Calendar)
      → P c
      → After P
          (λ c.
            tidy_series now actor why scope r
              (find_by (λ s. is_id r.id s.val.series_id) c.tables.sessions)
              c)
          c
  After-tidy_series now actor why scope r c v =
      tidied (find_by (λ s. is_id r.id s.val.series_id) c.tables.sessions)
    where
      tidied : (ss : List _) → P (tidy_series now actor why scope r ss c).1
      tidied [] =
          let c1 = record c { series = (remove now actor r.id c.series).1 } in
          After-audit_log actor AuditEntity.class_session_series r.id AuditAction.delete why c1
            (framed c c1 refl refl refl v)
      tidied (s ∷ ss) =
          let f = bump_series actor scope (latest s.val.session_date ss) in
          After-if P c (is_this scope) (pure tt) (advance_version now actor why r.id f) v
            (After-advance_version now actor why r.id f c v)

  pub After-tidy :
      (now : ℕ) (actor : Option ℕ) (why : Option String) (scope : SeriesScope)
      (o : Option (Row ScheduleSeries)) (c : Calendar)
      → P c
      → After P (tidy now actor why scope o) c
  After-tidy now actor why scope none c v = v
  After-tidy now actor why scope (some r) c v = After-tidy_series now actor why scope r c v

  After-reset_attendance :
      (now : ℕ) (actor : Option ℕ) (why : Option String) (is : List ℕ) (c : Calendar)
      → P c
      → After P (reset_attendance now actor why is) c
  unfolding reset_attendance
  After-reset_attendance now actor why [] c v = v
  After-reset_attendance now actor why (i ∷ is) c v =
      After-bind P c (remove_attendance_of now actor why i) (λ _. reset_attendance now actor why is)
        (After-remove_attendance_of now actor why i c v)
        λ _ v1.
          After-reset_attendance now actor why is (remove_attendance_of now actor why i c).1 v1

  After-log_target :
      (actor : Option ℕ) (why : Option String) (agreed : Bool) (t : Target) (c : Calendar)
      → P c
      → After P (log_target actor why agreed t) c
  After-log_target actor why agreed t c v =
      After-audit_log
        (if is_unchanged t.before.val (updated_session t) && not agreed then none else actor)
        AuditEntity.class_sessions t.before.id AuditAction.update why c v

  After-log_members :
      (actor : Option ℕ) (why : Option String) (ts : List Target) (c : Calendar)
      → P c
      → After P (log_members actor why ts) c
  unfolding log_members
  After-log_members actor why [] c v = v
  After-log_members actor why (t ∷ ts) c v =
      After-log_members actor why ts (log_target actor why false t c).1
        (After-log_target actor why false t c v)

  After-advance_series :
      (now : ℕ) (actor : Option ℕ) (why : Option String) (scope : SeriesScope)
      (o : Option (Row ScheduleSeries)) (c : Calendar)
      → P c
      → After P (advance_series now actor why scope o) c
  After-advance_series now actor why scope none c v = v
  After-advance_series now actor why scope (some r) c v =
      After-if P c (is_this scope) (pure tt)
        (advance_version now actor why r.id (next_version actor)) v
        (After-advance_version now actor why r.id (next_version actor) c v)

  -- what follows the writes of an edit
  pub After-note_update :
      (now : ℕ) (actor : Option ℕ) (why : Option String) (scope : SeriesScope)
      (o : Option (Row ScheduleSeries)) (a : Accounted) (c : Calendar)
      → P c
      → After P (note_update now actor why scope o a) c
  After-note_update now actor why scope o a c v =
      let c1 = (reset_attendance now actor why a.reset_ids c).1 in
      let c2 = (log_target actor why a.requires_ack a.primary c1).1 in
      let c3 = (log_members actor why a.members c2).1 in
      After-bind P c (reset_attendance now actor why a.reset_ids)
        (λ _. log_targets actor why a >> advance_series now actor why scope o)
        (After-reset_attendance now actor why a.reset_ids c v)
        λ _ v1.
          After-bind P c2 (log_members actor why a.members)
            (λ _. advance_series now actor why scope o)
            (After-log_members actor why a.members c2
              (After-log_target actor why a.requires_ack a.primary c1 v1))
            λ _ v3. After-advance_series now actor why scope o c3 v3
