-- ===== src/Payouts/Worksheet.antt =====
-- The worksheet of src/modules/payouts/payouts-read.service.ts: every session of an instructor and a
-- period with its price, and the totals. Names of courses, subjects and students are left out. The order
-- of the rows compares texts in the locale's collation, which comes from outside, as `before`.
pub mod Totals
use taco_backend.Common.{
  ℕ, ◌+◌, Bool, true, false, not, ◌&&◌, Option, none, some, List, [], ◌∷◌, ltb, ◌==◌, if◌then◌else◌,
  is_some, is_none, get_or, map_option, filter, find_last, sum_by, count_by, length, sort_by,
}
use taco_backend.Exec.{Result, ok, err}
use taco_backend.Store.{Row, find_by, find_all}
use taco_backend.Time.{Hhmm, IsoDate}
use taco_backend.Schedule.Entity.{ClassSession, SessionStatus, InstructorAttendance}
use taco_backend.Schedule.Participants.{ResolveIds}
use taco_backend.Schedule.Accounting.{
  Approval, draft, AttendanceStatus, SessionPricingInput, Pricing, PricingKind, auto, manual,
  excluded, classify_session_for_payout,
}
use taco_backend.Payouts.Rows.{SessionReport, Db}
use taco_backend.Payouts.Read.{
  PayoutError, missing_period, inverted_period, not_teaching, in_period, is_payee, pricing_input_of,
  attendance_of,
}

-- a participant's report: none when it is not written, a draft when it has no approval status
pub record WorksheetParticipant : Type 0 where
  pub student_id : ℕ
  pub attendance : Option AttendanceStatus
  pub report_approval : Option Approval

pub record WorksheetRow : Type 0 where
  pub session_id : ℕ
  pub session_date : IsoDate
  pub start_time : Option Hhmm
  pub duration_minutes : ℕ
  pub course_id : ℕ
  pub hourly_rate : Option ℕ
  pub status : SessionStatus
  pub instructor_attendance : Option InstructorAttendance
  pub payout_id : Option ℕ
  pub participants : List WorksheetParticipant
  pub pricing : Pricing

pub record WorksheetTotals : Type 0 where
  pub session_count : ℕ
  pub included_count : ℕ
  pub total_minutes : ℕ
  pub auto_amount : ℕ
  pub manual_amount : ℕ
  pub total_amount : ℕ
  pub unpriced_count : ℕ
  pub excluded_count : ℕ

pub record Worksheet : Type 0 where
  pub instructor_id : ℕ
  pub period_start : IsoDate
  pub period_end : IsoDate
  pub rows : List WorksheetRow
  pub totals : WorksheetTotals

abbrev pub approval_shown : Row SessionReport → Approval
approval_shown r = get_or r.val.approval_status draft

abbrev pub report_shown : Db → ℕ → ℕ → Option Approval
report_shown db session student = map_option approval_shown (
    find_last (λ r. (r.val.session_id == session) && (r.val.student_id == student))
      (find_all db.reports))

abbrev pub participant_row : Db → ℕ → ℕ → WorksheetParticipant
participant_row db session student = record {
  student_id = student;
  attendance = attendance_of db session student;
  report_approval = report_shown db session student;
}

abbrev pub participant_rows : Db → ℕ → List ℕ → List WorksheetParticipant
participant_rows db session [] = []
participant_rows db session (n ∷ ids) =
    participant_row db session n ∷ participant_rows db session ids

abbrev pub is_included : WorksheetRow → Bool
is_included r = is_some r.pricing.effective_amount

abbrev pub row_amount : WorksheetRow → ℕ
row_amount r = get_or r.pricing.effective_amount 0

abbrev pub auto_row : WorksheetRow → Bool
auto_row r = elim r.pricing.kind [ auto ↦ true | manual ↦ false | excluded ↦ false ]

abbrev pub manual_row : WorksheetRow → Bool
manual_row r = elim r.pricing.kind [ auto ↦ false | manual ↦ true | excluded ↦ false ]

abbrev pub excluded_row : WorksheetRow → Bool
excluded_row r = elim r.pricing.kind [ auto ↦ false | manual ↦ false | excluded ↦ true ]

abbrev pub totals_of : List WorksheetRow → WorksheetTotals
totals_of rows =
    let included = filter is_included rows in
    record {
      session_count = length rows;
      included_count = length included;
      total_minutes = sum_by (λ r. r.duration_minutes) included;
      auto_amount = sum_by row_amount (filter auto_row included);
      manual_amount = sum_by row_amount (filter manual_row included);
      total_amount = sum_by row_amount included;
      unpriced_count =
          length (filter (λ r. manual_row r && is_none r.pricing.effective_amount) rows);
      excluded_count = length (filter excluded_row rows);
    }

module _ (resolve : ResolveIds) (before : Row ClassSession → Row ClassSession → Bool) where
  abbrev pub worksheet_row : Db → Row ClassSession → WorksheetRow
  worksheet_row db s =
      let input = pricing_input_of resolve db s in
      record {
        session_id = s.id;
        session_date = s.val.session_date;
        start_time = s.val.start_time;
        duration_minutes = s.val.duration_minutes;
        course_id = s.val.course_id;
        hourly_rate = input.hourly_rate;
        status = s.val.status;
        instructor_attendance = s.val.instructor_attendance;
        payout_id = s.val.payout_id;
        participants = participant_rows db s.id input.participant_ids;
        pricing = classify_session_for_payout s.val input;
      }

  unfoldable pub worksheet_rows : Db → List (Row ClassSession) → List WorksheetRow
  worksheet_rows db [] = []
  worksheet_rows db (s ∷ ss) = worksheet_row db s ∷ worksheet_rows db ss

  unfoldable pub worksheet_of : Db → ℕ → IsoDate → IsoDate → Worksheet
  worksheet_of db instructor from to =
      let rows =
        worksheet_rows db (sort_by before (find_by (in_period instructor from to) db.sessions)) in
      record {
        instructor_id = instructor;
        period_start = from;
        period_end = to;
        rows = rows;
        totals = totals_of rows;
      }

  abbrev pub worksheet_between :
      Db → ℕ → Option IsoDate → Option IsoDate → Result PayoutError Worksheet
  worksheet_between db instructor none to = err missing_period
  worksheet_between db instructor (some from) none = err missing_period
  worksheet_between db instructor (some from) (some to) =
      if ltb to from then err inverted_period else ok (worksheet_of db instructor from to)

  unfoldable pub worksheet : Db → ℕ → Option IsoDate → Option IsoDate → Result PayoutError Worksheet
  unfolding worksheet_of
  worksheet db instructor from to =
      if is_payee resolve db instructor
      then worksheet_between db instructor from to
      else err not_teaching
