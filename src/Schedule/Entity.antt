-- ===== src/Schedule/Entity.antt =====
-- src/modules/schedule/schedule.entity.ts: the fields of a class session that the modelled code
-- reads, with the persisted accounting columns. A session whose instructor is not assigned yet has
-- no instructor. A missing `isPaid` is `false`: the code only tests `=== true`.
use taco_backend.Common.{ℕ, Bool, true, false, Option, some, List}
use taco_backend.Time.{Hhmm, IsoDate}

pub data SessionStatus : Type 0 where
  scheduled held canceled no_show makeup : SessionStatus

pub data InstructorAttendance : Type 0 where
  present late absent makeup : InstructorAttendance

pub data Mode : Type 0 where
  in_person online : Mode

pub data SessionKind : Type 0 where
  class level_test counsel : SessionKind

pub record ClassSession : Type 0 where
  pub series_id : Option ℕ
  pub course_id : ℕ
  pub instructor_id : Option ℕ
  pub room_id : Option ℕ
  pub student_ids : Option (List ℕ)
  pub session_date : IsoDate
  pub start_time : Option Hhmm
  pub end_time : Option Hhmm
  pub duration_minutes : ℕ
  pub status : SessionStatus
  pub kind : SessionKind
  pub mode : Mode
  pub makeup_for_session_id : Option ℕ
  pub instructor_attendance : Option InstructorAttendance
  pub instructor_pay_amount : Option ℕ
  pub payout_id : Option ℕ
  pub is_paid : Bool
  pub paid_payout_id : Option ℕ

abbrev pub is_held : SessionStatus → Bool
is_held SessionStatus.held = true
is_held _ = false

abbrev pub is_scheduled : SessionStatus → Bool
is_scheduled SessionStatus.scheduled = true
is_scheduled _ = false

-- `status === 'canceled' || status === 'no_show'`
abbrev pub is_called_off : SessionStatus → Bool
is_called_off SessionStatus.canceled = true
is_called_off SessionStatus.no_show = true
is_called_off _ = false

abbrev pub is_absent : Option InstructorAttendance → Bool
is_absent (some InstructorAttendance.absent) = true
is_absent _ = false

abbrev pub is_late : Option InstructorAttendance → Bool
is_late (some InstructorAttendance.late) = true
is_late _ = false
