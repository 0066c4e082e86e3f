-- ===== src/Payouts/Read.antt =====
-- src/modules/payouts/payouts-read.service.ts and the rate lookups of src/modules/courses: what a
-- period's settlement of an instructor would hold. A missing or empty period text is `none`.
-- Refreshing the read model is the identity here, since the tables are the truth.
use taco_backend.Common.{
  ℕ, Bool, ◌&&◌, Option, none, some, List, [], ◌∷◌, ltb, leb, ◌==◌, if◌then◌else◌, is_id, get_or,
  or_else, map_option, map, length, sum_by, find_last, sort_by,
}
use taco_backend.Exec.{Result, ok, err}
use taco_backend.Store.{Row, find_by_id, find_by, find_all, find_active}
use taco_backend.Time.{IsoDate}
use taco_backend.Schedule.Entity.{ClassSession}
use taco_backend.Schedule.Participants.{ResolveIds, build_cohort_index, participant_ids_for_session}
use taco_backend.Schedule.Accounting.{
  Approval, AttendanceStatus, SessionPricingInput, classify_session_for_payout,
}
use taco_backend.Users.{is_teaching_account, active_teaching_profile_user_ids, find_active_profile}
use taco_backend.Payouts.Rows.{
  Payout, PayoutStatus, PayoutLine, SessionReport, Attendance, StoredCourse, Db, value,
}

-- One constructor for each exception that the payout services throw.
pub data PayoutError : Type 0 where
  payout_not_found : PayoutError
  not_teaching missing_period inverted_period no_eligible_sessions changed_meanwhile : PayoutError
  session_claimed : ℕ → PayoutError
  already_confirmed already_paid stale_status bad_amount : PayoutError
  bad_status : PayoutStatus → PayoutError

pub record Measure : Type 0 where
  pub instructor_id : ℕ
  pub period_start : IsoDate
  pub period_end : IsoDate
  pub session_count : ℕ
  pub total_minutes : ℕ
  pub computed_amount : ℕ
  pub lines : List PayoutLine

-- course-pay.resolver.ts: the course's rate, or else the profile's, or else 0
unfoldable pub effective_course_hourly_rate : StoredCourse → Option ℕ → ℕ
effective_course_hourly_rate course default_rate =
    get_or course.hourly_rate_override (get_or default_rate 0)

abbrev pub profile_rate : Db → ℕ → Option ℕ
profile_rate db instructor = elim (find_active_profile instructor db.profiles) [
  | none ↦ none
  | some p ↦ p.val.default_hourly_rate
]

-- `CoursesService.effectiveHourlyRateFor`
unfoldable pub effective_hourly_rate_for : Db → ℕ → Option ℕ → Option ℕ
effective_hourly_rate_for db course none = none
effective_hourly_rate_for db course (some instructor) = elim (find_by_id course db.courses) [
  | none ↦ none
  | some c ↦ or_else c.val.hourly_rate_override (profile_rate db instructor)
]

abbrev pub report_status : Option (Row SessionReport) → Option Approval
report_status none = none
report_status (some r) = r.val.approval_status

abbrev pub report_of : Db → ℕ → ℕ → Option Approval
report_of db session student = report_status (
    find_last (λ r. (r.val.session_id == session) && (r.val.student_id == student))
      (find_all db.reports))

abbrev pub attendance_of : Db → ℕ → ℕ → Option AttendanceStatus
attendance_of db session student =
    map_option (λ (a : Row Attendance). a.val.status)
      (find_last (λ a. (a.val.session_id == session) && (a.val.student_id == student))
        (find_all db.attendance))

-- the instructor's sessions of the period, both ends included
abbrev pub in_period : ℕ → IsoDate → IsoDate → Row ClassSession → Bool
in_period instructor from to s =
    is_id instructor s.val.instructor_id
    && (leb from s.val.session_date && leb s.val.session_date to)

abbrev pub by_session_date : PayoutLine → PayoutLine → Bool
by_session_date a b = leb a.session_date b.session_date

module _ (resolve : ResolveIds) where
  unfoldable pub pricing_input_of : Db → Row ClassSession → SessionPricingInput
  pricing_input_of db s = record {
    participant_ids =
        participant_ids_for_session resolve s.val
          (build_cohort_index (map value (find_all db.enrollments)));
    report_of = report_of db s.id;
    attendance_of = attendance_of db s.id;
    hourly_rate = effective_hourly_rate_for db s.val.course_id s.val.instructor_id;
  }

  abbrev pub line_of : Db → Row ClassSession → ℕ → PayoutLine
  line_of db s amount = record {
    session_id = s.id;
    course_id = s.val.course_id;
    session_date = s.val.session_date;
    duration_minutes = s.val.duration_minutes;
    hourly_rate = get_or (effective_hourly_rate_for db s.val.course_id s.val.instructor_id) 0;
    amount = amount;
  }

  abbrev pub priced_amount : Db → Row ClassSession → Option ℕ
  priced_amount db s = (classify_session_for_payout s.val (pricing_input_of db s)).effective_amount

  abbrev pub push_line : Db → Row ClassSession → Option ℕ → List PayoutLine → List PayoutLine
  push_line db s none ls = ls
  push_line db s (some amount) ls = line_of db s amount ∷ ls

  -- a line for each session with an amount; the others are skipped
  unfoldable pub lines_of : Db → List (Row ClassSession) → List PayoutLine
  lines_of db [] = []
  lines_of db (s ∷ ss) = push_line db s (priced_amount db s) (lines_of db ss)

  unfoldable pub measured : Db → ℕ → IsoDate → IsoDate → Measure
  measured db instructor from to =
      let lines =
        sort_by by_session_date
          (lines_of db (find_by (in_period instructor from to) db.sessions)) in
      record {
        instructor_id = instructor;
        period_start = from;
        period_end = to;
        session_count = length lines;
        total_minutes = sum_by (λ l. l.duration_minutes) lines;
        computed_amount = sum_by (λ l. l.amount) lines;
        lines = lines;
      }

  unfoldable pub measure_core :
      Db → ℕ → Option IsoDate → Option IsoDate → Result PayoutError Measure
  measure_core db instructor none to = err missing_period
  measure_core db instructor (some from) none = err missing_period
  measure_core db instructor (some from) (some to) =
      if ltb to from then err inverted_period else ok (measured db instructor from to)

  abbrev pub is_payee : Db → ℕ → Bool
  is_payee db instructor =
      is_teaching_account (find_by_id instructor db.users)
        (active_teaching_profile_user_ids (find_all db.profiles))

  unfoldable pub measure : Db → ℕ → Option IsoDate → Option IsoDate → Result PayoutError Measure
  unfolding measure_core
  measure db instructor from to =
      if is_payee db instructor then measure_core db instructor from to else err not_teaching

  -- the default targets of a bulk settlement
  unfoldable pub active_instructor_ids : Db → List ℕ
  active_instructor_ids db =
      map (λ u. u.id)
        (find_by
          (λ u.
            is_teaching_account (some u) (active_teaching_profile_user_ids (find_all db.profiles)))
          db.users)

-- `payoutFromDb`: `findActive` by id
unfoldable pub payout_from_db : ℕ → Db → Result PayoutError (Row Payout)
payout_from_db k db = elim (find_active (λ r. r.id == k) db.payouts) [
  | none ↦ err payout_not_found
  | some p ↦ ok p
]

-- `findOne`: `findById`
unfoldable pub find_one : ℕ → Db → Result PayoutError (Row Payout)
find_one k db = elim (find_by_id k db.payouts) [ none ↦ err payout_not_found | some p ↦ ok p ]
