-- ===== src/Planning.antt =====
-- src/modules/schedule/schedule.service.ts and schedule-read.service.ts: the calendar's commands over
-- the tables that they share with the payouts, and the series, students, rooms and availability
-- blocks beside them. Names, colours, prices and other labels are left out.
pub mod Validation
pub mod Dates
pub mod Context
pub mod Courses
pub mod Assignment
pub mod Removal
pub mod Pay
pub mod Update
pub mod Creation
pub mod Apart
pub mod Books
pub mod Frame
pub mod History
mod Tests
use Prim.Native.String.{String}
use taco_backend.Common.{
  ◌≡◌, ap, arith, ℕ, Bool, true, false, Option, none, some, List, ltb, ◌==◌, if◌then◌else◌,
}
use taco_backend.Exec.{Result, ok, err, ok-injective, Exec, modify}
use taco_backend.Store.{Row, Table, find_by_id}
use taco_backend.Time.{Hhmm, IsoDate}
use taco_backend.Schedule.Conflicts.{AvailabilityBlock, Conflict}
use taco_backend.Schedule.SessionTime.{TimeError}
use taco_backend.Payouts.Rows.{Db, AuditEntity, AuditAction}
use taco_backend.Payouts.Steps.{log_if}

pub data StudentStatus : Type 0 where
  enrolled on_leave withdrawn registration_lost new_inquiry : StudentStatus

pub record Student : Type 0 where
  pub status : StudentStatus

pub record Room : Type 0 where
  pub capacity : Option ℕ

pub data RepeatKind : Type 0 where
  weekly custom : RepeatKind

pub record ScheduleSeries : Type 0 where
  pub repeat_kind : RepeatKind
  pub weekdays : List ℕ
  pub starts_on : IsoDate
  pub ends_on : IsoDate
  pub start_time : Hhmm
  pub duration_minutes : ℕ
  pub version : ℕ
  pub created_by : Option ℕ
  pub updated_by : Option ℕ

pub record Calendar : Type 0 where
  pub tables : Db
  pub series : Table ScheduleSeries
  pub students : Table Student
  pub rooms : Table Room
  pub blocks : Table AvailabilityBlock

-- One constructor for each exception that the calendar's commands throw.
pub data CalendarError : Type 0 where
  session_not_found session_status_fact_mismatch : CalendarError
  no_course no_schedule_owner no_room no_series : CalendarError
  duplicate_students unknown_students : CalendarError
  no_makeup_original makeup_of_makeup : CalendarError
  bad_time : TimeError → CalendarError
  schedule_conflict : List Conflict → CalendarError
  starts_after_end weekly_needs_one_day range_too_long too_many_occurrences no_occurrence :
      CalendarError
  series_version_stale request_scope_stale payout_reversal_required : CalendarError
  accounting_impact_ack_required dependents_excluded reports_written : CalendarError
  not_logged_in assignment_stale same_instructor settled_session has_history : CalendarError
  default_with_unassignment changed_meanwhile missing_capability not_assigned : CalendarError
  terminal_session_time_change mixed_time_change request_target_stale : CalendarError
  bad_amount linked_to_payout not_held absent_instructor start_missing : CalendarError
  course_not_found not_teaching no_profile no_rate restore_required : CalendarError

abbrev pub CalendarCommand : Type 0 → Type 0
CalendarCommand = Exec CalendarError Calendar

-- a check that reads and may throw
abbrev pub check : {A : Type 0} → (Calendar → Result CalendarError A) → CalendarCommand A
check f c = (f c, c)

-- a row that was looked up, or the exception for a missing one
abbrev pub found : {A : Type 0} → Option A → CalendarError → Result CalendarError A
found none e = err e
found (some a) e = ok a

pub found-ok :
    {A : Type 0} (o : Option A) (e : CalendarError) (a : A) → found o e ≡ ok a → o ≡ some a
found-ok none e a h = absurd (ground arith)
found-ok (some b) e a h = ap some (ok-injective b a h)

-- `if (actorId != null) await this.audit.log(…)`
abbrev pub audit_log :
    Option ℕ → AuditEntity → ℕ → AuditAction → Option String → CalendarCommand (Unit {0})
audit_log actor e i a why = modify (λ c. record c { tables = log_if actor e i a why c.tables })

-- `RoomsService.capacityOf`: one seat where none is given
abbrev pub capacity_of : Table Room → ℕ → Option ℕ
capacity_of rooms i = elim (find_by_id i rooms) [
  | none ↦ none
  | some r ↦ elim r.val.capacity [ none ↦ some 1 | some n ↦ some n ]
]
