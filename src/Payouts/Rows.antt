-- ===== src/Payouts/Rows.antt =====
-- src/modules/payouts/payout.entity.ts and transactions/transaction.entity.ts: the rows of payouts
-- and of the ledger, and the tables that the payout services use. Labels and names are left out.
use Prim.Native.String.{String}
use taco_backend.Common.{ℕ, Bool, true, false, Option, List, ◌==◌, any, map_option}
use taco_backend.Store.{Row, Table, find_by_id}
use taco_backend.Time.{IsoDate}
use taco_backend.Schedule.Entity.{ClassSession}
use taco_backend.Schedule.Participants.{ParticipantEnrollment}
use taco_backend.Schedule.Accounting.{Approval, AttendanceStatus}
use taco_backend.Users.{StaffAccount, InstructorProfile}

pub data PayoutStatus : Type 0 where
  pending confirmed paid rejected : PayoutStatus

pub record PayoutLine : Type 0 where
  pub session_id : ℕ
  pub course_id : ℕ
  pub session_date : IsoDate
  pub duration_minutes : ℕ
  pub hourly_rate : ℕ
  pub amount : ℕ

pub record Payout : Type 0 where
  pub instructor_id : ℕ
  pub period_start : IsoDate
  pub period_end : IsoDate
  pub session_count : ℕ
  pub total_minutes : ℕ
  pub computed_amount : ℕ
  pub adjusted_amount : Option ℕ
  pub adjust_reason : Option String
  pub amount : ℕ
  pub status : PayoutStatus
  pub lines : List PayoutLine
  pub confirmed_at : Option ℕ
  pub paid_at : Option ℕ
  pub reversed_at : Option ℕ
  pub rejected_reason : Option String
  pub reversed_reason : Option String

pub data Direction : Type 0 where
  incoming outgoing : Direction

pub data Category : Type 0 where
  instructor_payout payout_reversal expense payment refund : Category

pub record Transaction : Type 0 where
  pub direction : Direction
  pub category : Category
  pub amount : ℕ
  pub occurred_at : ℕ
  pub payout_id : Option ℕ
  pub expense_id : Option ℕ

pub record SessionReport : Type 0 where
  pub session_id : ℕ
  pub student_id : ℕ
  pub approval_status : Option Approval

pub record Attendance : Type 0 where
  pub session_id : ℕ
  pub student_id : ℕ
  pub status : AttendanceStatus

pub record StoredCourse : Type 0 where
  pub instructor_id : Option ℕ
  pub hourly_rate_override : Option ℕ

pub data AuditEntity : Type 0 where
  instructor_payouts transactions expenses : AuditEntity
  class_sessions class_session_series attendance session_reports courses : AuditEntity

pub data AuditAction : Type 0 where
  create update delete approve reject status_change : AuditAction

-- An audit row without the recorded differences.
pub record AuditEntry : Type 0 where
  pub entity : AuditEntity
  pub entity_id : ℕ
  pub action : AuditAction
  pub actor_id : ℕ
  pub reason : Option String

pub record Db : Type 0 where
  pub payouts : Table Payout
  pub transactions : Table Transaction
  pub sessions : Table ClassSession
  pub users : Table StaffAccount
  pub profiles : Table InstructorProfile
  pub courses : Table StoredCourse
  pub enrollments : Table ParticipantEnrollment
  pub reports : Table SessionReport
  pub attendance : Table Attendance
  pub audit : List AuditEntry

abbrev pub is_paid_status : PayoutStatus → Bool
is_paid_status paid = true
is_paid_status _ = false

abbrev pub is_rejected : PayoutStatus → Bool
is_rejected rejected = true
is_rejected _ = false

abbrev pub has_line : ℕ → List PayoutLine → Bool
has_line n ls = any (λ l. l.session_id == n) ls

abbrev pub value : {R : Type 0} → Row R → R
value r = r.val

abbrev pub payout_at : ℕ → Db → Option Payout
payout_at k db = map_option value (find_by_id k db.payouts)

abbrev pub session_at : ℕ → Db → Option ClassSession
session_at n db = map_option value (find_by_id n db.sessions)
