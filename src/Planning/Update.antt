-- ===== src/Planning/Update.antt =====
-- src/modules/schedule/schedule.service.ts: `update`, its targets. The session and, with a scope, others of
-- its series get new fields: those of the request for the session, and for the others the same shift of
-- the day and of the start. The topic, memo, colour, price and visibility are left out.
pub mod Checks
pub mod Commands
use Prim.Native.String.{String}
use taco_backend.Common.{
  ℕ, Bool, true, false, not, ◌&&◌, ◌||◌, Option, none, some, List, [], ◌∷◌, ◌==◌, if◌then◌else◌,
  is_some, is_none, get_or, or_else, map_option, map, is_empty,
}
use taco_backend.Common.Int.{ℤ, pos, pos_part, sub_ℕ, ◌+ℤ◌}
use taco_backend.Exec.{Result, ok, err, ◌and_then◌, refuse_if}
use taco_backend.Store.{Row}
use taco_backend.Time.{Hhmm, IsoDate, hhmm_to_min, day_diff}
use taco_backend.Schedule.Entity.{
  ClassSession, SessionStatus, SessionKind, Mode, InstructorAttendance, is_held,
}
use taco_backend.Schedule.SeriesScope.{SeriesScope}
use taco_backend.Schedule.SessionTime.{
  TimeError, midnight, normalize_session_time, add_minutes_guarded, stored_end_time_of,
}
use taco_backend.Schedule.Participants.{ResolveIds}
use taco_backend.Schedule.TemporalTransition.{
  has_session_temporal_change, is_temporal_change_blocked_status, attendance_completion_hold_patch,
}
use taco_backend.Payouts.Rows.{Attendance, StoredCourse}
use taco_backend.Planning.{
  Calendar, CalendarError, bad_time, terminal_session_time_change, mixed_time_change,
}
use taco_backend.Planning.Validation.{course_of}
use taco_backend.Planning.Creation.{timed}
use taco_backend.Planning.Context.{SessionAccountingContext, attendance_for}

pub record UpdateSession : Type 0 where
  pub session_date : Option IsoDate
  pub start_time : Option Hhmm
  pub end_time : Option Hhmm
  pub duration_minutes : Option ℕ
  pub course_id : Option ℕ
  pub instructor_id : Option ℕ
  pub room_id : Option ℕ
  pub student_ids : Option (List ℕ)
  pub status : Option SessionStatus
  pub kind : Option SessionKind
  pub mode : Option Mode
  pub scope : SeriesScope
  pub expected_series_version : Option ℕ
  pub force : Bool
  pub acknowledge_accounting_impact : Bool
  pub expected_accounting_impact_hash : Option ℕ

pub data AttendanceCommand : Type 0 where
  set : InstructorAttendance → AttendanceCommand
  clear : AttendanceCommand

-- what the approval of a request and the attendance commands add; an expectation of `some none` is
-- that no attendance of the instructor is recorded
pub record InternalOptions : Type 0 where
  pub expected_target_ids : Option (List ℕ)
  pub may_manage_attendance : Bool
  pub audit_reason : Option String
  pub expected_instructor_attendance : Option (Option InstructorAttendance)
  pub command : Option AttendanceCommand

-- what is written: `none` for the attendance, the students, the kind and the mode leaves them alone
pub record MergedFields : Type 0 where
  pub session_date : IsoDate
  pub start_time : Hhmm
  pub end_time : Option Hhmm
  pub duration_minutes : ℕ
  pub course_id : ℕ
  pub instructor_id : Option ℕ
  pub room_id : Option ℕ
  pub status : SessionStatus
  pub instructor_attendance : Option (Option InstructorAttendance)
  pub student_ids : Option (List ℕ)
  pub kind : Option SessionKind
  pub mode : Option Mode

pub record Target : Type 0 where
  pub before : Row ClassSession
  pub fields : MergedFields

-- `sessions.update(id, fields)`
abbrev pub apply_fields : MergedFields → ClassSession → ClassSession
apply_fields f s = record s {
  session_date = f.session_date;
  start_time = some f.start_time;
  end_time = f.end_time;
  duration_minutes = f.duration_minutes;
  course_id = f.course_id;
  instructor_id = f.instructor_id;
  room_id = f.room_id;
  status = f.status;
  instructor_attendance = get_or f.instructor_attendance s.instructor_attendance;
  student_ids = or_else f.student_ids s.student_ids;
  kind = get_or f.kind s.kind;
  mode = get_or f.mode s.mode;
}

-- the instructor of a request, or that of the requested course, or the one before
abbrev pub merged_instructor : Calendar → ClassSession → UpdateSession → Option ℕ
merged_instructor c cur dto = elim dto.instructor_id [
  | some i ↦ some i
  | none ↦ elim dto.course_id [
    | none ↦ cur.instructor_id
    | some k ↦ elim (course_of c k) [
      | none ↦ cur.instructor_id
      | some course ↦ course.val.instructor_id
    ]
  ]
]

unfoldable pub merge_fields :
    Calendar → ClassSession → UpdateSession → Result CalendarError MergedFields
merge_fields c cur dto =
    timed (
      normalize_session_time (get_or dto.start_time (get_or cur.start_time midnight)) dto.end_time
        (map_option pos dto.duration_minutes) (some (pos cur.duration_minutes)))
    and_then λ t. ok (record {
      session_date = get_or dto.session_date cur.session_date;
      start_time = t.start_time;
      end_time = t.end_time;
      duration_minutes = t.duration_minutes;
      course_id = get_or dto.course_id cur.course_id;
      instructor_id = merged_instructor c cur dto;
      room_id = or_else dto.room_id cur.room_id;
      status = get_or dto.status cur.status;
      instructor_attendance = some cur.instructor_attendance;
      student_ids = or_else dto.student_ids cur.student_ids;
      kind = some (get_or dto.kind cur.kind);
      mode = some (get_or dto.mode cur.mode);
    })

-- an attendance command sets the instructor's attendance, or takes it back with the held status
abbrev pub with_command : Option AttendanceCommand → SessionStatus → MergedFields → MergedFields
with_command none status f = f
with_command (some (set a)) status f = record f { instructor_attendance = some (some a) }
with_command (some clear) status f = record f {
  instructor_attendance = some none;
  status = if is_held status then SessionStatus.scheduled else f.status;
}

-- `addDaysISO` with a number of days of either sign; no day is before 1970
abbrev pub shift_day : IsoDate → ℤ → IsoDate
shift_day d days = pos_part (pos d +ℤ days)

abbrev timed_start : Result TimeError Hhmm → Result CalendarError Hhmm
timed_start (ok t) = ok t
timed_start (err e) = err (bad_time e)

abbrev timed_end : Result TimeError (Option Hhmm) → Result CalendarError (Option Hhmm)
timed_end (ok t) = ok t
timed_end (err e) = err (bad_time e)

-- the fields of another session of the series
unfoldable pub member_fields :
    MergedFields → ℤ → ℤ → ClassSession → Result CalendarError MergedFields
unfolding add_minutes_guarded stored_end_time_of
member_fields primary day_delta start_delta m =
    timed_start (add_minutes_guarded (get_or m.start_time midnight) start_delta) and_then λ start.
    timed_end (stored_end_time_of start (pos primary.duration_minutes)) and_then λ end. ok (record {
      session_date = shift_day m.session_date day_delta;
      start_time = start;
      end_time = end;
      duration_minutes = primary.duration_minutes;
      course_id = primary.course_id;
      instructor_id = primary.instructor_id;
      room_id = primary.room_id;
      status = primary.status;
      instructor_attendance = none;
      student_ids = none;
      kind = none;
      mode = none;
    })

unfoldable pub member_targets :
    MergedFields → ℤ → ℤ → List (Row ClassSession) → Result CalendarError (List Target)
unfolding member_fields
member_targets primary day_delta start_delta [] = ok []
member_targets primary day_delta start_delta (m ∷ ms) =
    let rest = member_targets primary day_delta start_delta ms in
    member_fields primary day_delta start_delta m.val and_then λ f.
    rest and_then λ ts. ok (record { before = m; fields = f } ∷ ts)

-- the shifts that the session's own change makes
abbrev pub day_delta_of : ClassSession → MergedFields → ℤ
day_delta_of cur f = day_diff f.session_date cur.session_date

abbrev pub start_delta_of : ClassSession → MergedFields → ℤ
start_delta_of cur f =
    sub_ℕ (hhmm_to_min f.start_time) (hhmm_to_min (get_or cur.start_time f.start_time))

abbrev pub rescheduled : Target → Target
rescheduled t = record t {
  fields = record t.fields { status = SessionStatus.scheduled; instructor_attendance = some none };
}

abbrev pub moved : Bool → Target → Result CalendarError (Target × Bool)
moved mixed t =
    refuse_if (is_temporal_change_blocked_status t.before.val.status) terminal_session_time_change
    and_then λ _. refuse_if mixed mixed_time_change and_then λ _. ok (rescheduled t, true)

-- `applyTemporalPolicy`: a session that is moved is scheduled again, without attendance
unfoldable pub apply_temporal_policy : Bool → Target → Result CalendarError (Target × Bool)
unfolding has_session_temporal_change is_temporal_change_blocked_status
apply_temporal_policy mixed t =
    if has_session_temporal_change t.before.val (apply_fields t.fields t.before.val)
    then moved mixed t
    else ok (t, false)

unfoldable pub apply_temporal_policies :
    Bool → List Target → Result CalendarError (List (Target × Bool))
unfolding apply_temporal_policy
apply_temporal_policies mixed [] = ok []
apply_temporal_policies mixed (t ∷ ts) =
    let rest = apply_temporal_policies mixed ts in
    apply_temporal_policy mixed t and_then λ u. rest and_then λ us. ok (u ∷ us)

abbrev pub is_set : Option AttendanceCommand → Bool
is_set (some (set a)) = true
is_set _ = false

-- the instructor's attendance may be the last that was missing, and the session is held then
abbrev pub with_hold : Option (Option (List ℕ)) → MergedFields → MergedFields
with_hold none f = f
with_hold (some students) f = record f {
  status = SessionStatus.held;
  student_ids = or_else students f.student_ids;
}

unfoldable pub complete_attendance :
    ResolveIds → ℕ → SessionAccountingContext → Bool → Target → Target
unfolding attendance_completion_hold_patch
complete_attendance resolve now context wanted t =
    let recorded =
      map (λ (a : Row Attendance). a.val.student_id) (attendance_for context t.before.id) in
    let patch =
      attendance_completion_hold_patch resolve (apply_fields t.fields t.before.val)
        context.cohort_index recorded now in
    record t { fields = with_hold (if wanted then patch else none) t.fields }
