-- ===== src/Planning/Update/Commands.antt =====
-- src/modules/schedule/schedule.service.ts: what `update` writes, and the two commands on the instructor's
-- attendance, which go through it. The text that links the audit rows of one command, with its random
-- part, is the argument `why`.
use Prim.Native.String.{String}
use taco_backend.Common.{
  ℕ, ◌+◌, Bool, true, false, not, ◌&&◌, ◌||◌, Option, none, some, List, [], ◌∷◌, ◌==◌,
  if◌then◌else◌, is_some, is_none, is_empty, or_else, length,
}
use taco_backend.Exec.{Result, ok, ◌and_then◌, refuse_if, pure, ◌>>=◌, ◌>>◌, transaction}
use taco_backend.Store.{Row, find_by_id}
use taco_backend.Time.{Hhmm}
use taco_backend.Schedule.Entity.{
  ClassSession, SessionStatus, scheduled, held, canceled, no_show, SessionKind, class, level_test,
  counsel, Mode, in_person, online, InstructorAttendance,
}
use taco_backend.Schedule.SeriesScope.{SeriesScope, this}
use taco_backend.Schedule.Participants.{ResolveIds}
use taco_backend.Schedule.Conflicts.{Conflict}
use taco_backend.Schedule.Accounting.Projections.{Impact}
use taco_backend.Payouts.Rows.{AuditEntity, AuditAction}
use taco_backend.Planning.{
  Calendar, CalendarCommand, CalendarError, ScheduleSeries, check, found, audit_log,
  session_not_found, missing_capability, not_assigned,
}
use taco_backend.Planning.Context.{same_instructor_id}
use taco_backend.Planning.Assignment.{update_session}
use taco_backend.Planning.Removal.{remove_attendance_of, series_row, is_this, advance_version}
use taco_backend.Planning.Update.{
  UpdateSession, InternalOptions, AttendanceCommand, set, clear, Target, apply_fields,
}
use taco_backend.Planning.Update.Checks.{Accounted, update_checks, same_attendance}

abbrev same_status : SessionStatus → SessionStatus → Bool
same_status scheduled scheduled = true
same_status held held = true
same_status canceled canceled = true
same_status no_show no_show = true
same_status SessionStatus.makeup SessionStatus.makeup = true
same_status _ _ = false

abbrev same_kind : SessionKind → SessionKind → Bool
same_kind class class = true
same_kind level_test level_test = true
same_kind counsel counsel = true
same_kind _ _ = false

abbrev same_mode : Mode → Mode → Bool
same_mode in_person in_person = true
same_mode online online = true
same_mode _ _ = false

abbrev same_hhmm : Option Hhmm → Option Hhmm → Bool
same_hhmm none none = true
same_hhmm (some a) (some b) = (a.hour == b.hour) && (a.minute == b.minute)
same_hhmm _ _ = false

abbrev same_numbers : List ℕ → List ℕ → Bool
same_numbers [] [] = true
same_numbers (x ∷ xs) (y ∷ ys) = (x == y) && same_numbers xs ys
same_numbers _ _ = false

abbrev same_students : Option (List ℕ) → Option (List ℕ) → Bool
same_students none none = true
same_students (some xs) (some ys) = same_numbers xs ys
same_students _ _ = false

-- `audit.diffOf` has no entry, as far as the fields that an update writes go
abbrev pub is_unchanged : ClassSession → ClassSession → Bool
is_unchanged a b =
    (a.session_date == b.session_date)
    && (same_hhmm a.start_time b.start_time
        && (same_hhmm a.end_time b.end_time
            && ((a.duration_minutes == b.duration_minutes)
                && ((a.course_id == b.course_id)
                    && (same_instructor_id a.instructor_id b.instructor_id
                        && (same_instructor_id a.room_id b.room_id
                            && (same_status a.status b.status
                                && (same_attendance a.instructor_attendance b.instructor_attendance
                                    && (same_students a.student_ids b.student_ids
                                        && (same_kind a.kind b.kind
                                            && same_mode a.mode b.mode))))))))))

abbrev pub updated_session : Target → ClassSession
updated_session t = apply_fields t.fields t.before.val

abbrev pub write_target : ℕ → Target → CalendarCommand (Option (Row ClassSession))
write_target now t = update_session now t.before.id (apply_fields t.fields)

unfoldable pub write_members : ℕ → List Target → CalendarCommand (Unit {0})
write_members now [] = pure tt
write_members now (t ∷ ts) = write_target now t >> write_members now ts

unfoldable pub reset_attendance : ℕ → Option ℕ → Option String → List ℕ → CalendarCommand (Unit {0})
unfolding remove_attendance_of
reset_attendance now actor why [] = pure tt
reset_attendance now actor why (i ∷ is) =
    remove_attendance_of now actor why i >> reset_attendance now actor why is

-- an audit row for a session that changed; the agreed effect on the accounts is a change as well
abbrev pub log_target : Option ℕ → Option String → Bool → Target → CalendarCommand (Unit {0})
log_target actor why agreed t =
    audit_log (if is_unchanged t.before.val (updated_session t) && not agreed then none else actor)
      AuditEntity.class_sessions t.before.id AuditAction.update why

unfoldable pub log_members : Option ℕ → Option String → List Target → CalendarCommand (Unit {0})
log_members actor why [] = pure tt
log_members actor why (t ∷ ts) = log_target actor why false t >> log_members actor why ts

abbrev pub next_version : Option ℕ → ScheduleSeries → ScheduleSeries
next_version actor s = record s { version = s.version + 1; updated_by = actor }

-- an edit with a scope gives the series a new version
abbrev pub advance_series :
    ℕ
    → Option ℕ
    → Option String
    → SeriesScope
    → Option (Row ScheduleSeries)
    → CalendarCommand (Unit {0})
advance_series now actor why scope none = pure tt
advance_series now actor why scope (some r) =
    if is_this scope then pure tt else advance_version now actor why r.id (next_version actor)

abbrev pub reason_of : String → InternalOptions → Accounted → Option String
reason_of why opts a = or_else opts.audit_reason (
    if is_some a.primary.before.val.series_id || not (is_empty a.reset_ids) then some why else none)

pub record Updated : Type 0 where
  pub row : Option (Row ClassSession)
  pub conflicts : List Conflict
  pub updated : ℕ
  pub impact : Option (Impact × ℕ)

abbrev pub log_targets : Option ℕ → Option String → Accounted → CalendarCommand (Unit {0})
log_targets actor why a =
    log_target actor why a.requires_ack a.primary >> log_members actor why a.members

-- what follows the writes of the sessions
abbrev pub note_update :
    ℕ
    → Option ℕ
    → Option String
    → SeriesScope
    → Option (Row ScheduleSeries)
    → Accounted
    → CalendarCommand (Unit {0})
note_update now actor why scope series a =
    reset_attendance now actor why a.reset_ids
    >> (log_targets actor why a >> advance_series now actor why scope series)

abbrev pub updated_answer : Accounted → List Conflict → Option (Row ClassSession) → Updated
updated_answer a conflicts row = record {
  row = row;
  conflicts = conflicts;
  updated = 1 + length a.members;
  impact = if a.impact.changed then some (a.impact, a.hash) else none;
}

abbrev pub finish_update :
    ℕ
    → Option ℕ
    → String
    → UpdateSession
    → InternalOptions
    → Accounted
    → List Conflict
    → Option (Row ScheduleSeries)
    → Option (Row ClassSession)
    → CalendarCommand Updated
finish_update now actor why dto opts a conflicts series row =
    note_update now actor (reason_of why opts a) dto.scope series a
    >> pure (updated_answer a conflicts row)

abbrev pub update_writes :
    ℕ
    → Option ℕ
    → String
    → UpdateSession
    → InternalOptions
    → Accounted
    → List Conflict
    → CalendarCommand Updated
update_writes now actor why dto opts a conflicts = do
  series ← λ c. (ok (series_row c a.primary.before), c)
  row ← write_target now a.primary
  write_members now a.members
  finish_update now actor why dto opts a conflicts series row

-- an attendance command asks for no other change
abbrev pub attendance_request : Bool → Option ℕ → UpdateSession
attendance_request acknowledged hash = record {
  session_date = none;
  start_time = none;
  end_time = none;
  duration_minutes = none;
  course_id = none;
  instructor_id = none;
  room_id = none;
  student_ids = none;
  status = none;
  kind = none;
  mode = none;
  scope = this;
  expected_series_version = none;
  force = false;
  acknowledge_accounting_impact = acknowledged;
  expected_accounting_impact_hash = hash;
}

abbrev pub attendance_options :
    AttendanceCommand → Option (Option InstructorAttendance) → String → InternalOptions
attendance_options command expected why = record {
  expected_target_ids = none;
  may_manage_attendance = true;
  audit_reason = some why;
  expected_instructor_attendance = expected;
  command = some command;
}

abbrev pub attendance_checks : Bool → ℕ → Calendar → Result CalendarError (Unit {0})
attendance_checks may_manage i c = refuse_if (not may_manage) missing_capability and_then λ _.
    found (find_by_id i c.tables.sessions) session_not_found and_then λ s.
    refuse_if (is_none s.val.instructor_id) not_assigned

module _ (resolve : ResolveIds) (digest : List ℕ → Impact → ℕ) (is_production : Bool) where
  abbrev pub update_locked :
      ℕ → Option ℕ → String → ℕ → UpdateSession → InternalOptions → CalendarCommand Updated
  update_locked now actor why i dto opts =
      check (update_checks resolve digest is_production now i dto opts) >>= λ (a, conflicts).
      update_writes now actor why dto opts a conflicts

  unfoldable pub update_class_session :
      ℕ → Option ℕ → String → ℕ → UpdateSession → InternalOptions → CalendarCommand Updated
  unfolding update_checks write_members reset_attendance log_members transaction
  update_class_session now actor why i dto opts =
      check (λ c. found (find_by_id i c.tables.sessions) session_not_found) >>= λ _.
      transaction (update_locked now actor why i dto opts)

  -- `setInstructorAttendance` and `clearInstructorAttendance`; `reason` goes to the audit
  abbrev pub attendance_command :
      ℕ
      → Option ℕ
      → String
      → String
      → Bool
      → ℕ
      → Bool
      → Option ℕ
      → AttendanceCommand
      → Option (Option InstructorAttendance)
      → CalendarCommand Updated
  attendance_command now actor why reason may_manage i acknowledged hash command expected =
      check (attendance_checks may_manage i) >>= λ _.
      update_class_session now actor why i (attendance_request acknowledged hash)
        (attendance_options command expected reason)

  abbrev pub set_instructor_attendance :
      ℕ
      → Option ℕ
      → String
      → String
      → Bool
      → ℕ
      → Bool
      → Option ℕ
      → InstructorAttendance
      → Option (Option InstructorAttendance)
      → CalendarCommand Updated
  set_instructor_attendance now actor why reason may_manage i acknowledged hash status =
      attendance_command now actor why reason may_manage i acknowledged hash (set status)

  abbrev pub clear_instructor_attendance :
      ℕ → Option ℕ → String → String → Bool → ℕ → Bool → Option ℕ → CalendarCommand Updated
  clear_instructor_attendance now actor why reason may_manage i acknowledged hash =
      attendance_command now actor why reason may_manage i acknowledged hash clear none
