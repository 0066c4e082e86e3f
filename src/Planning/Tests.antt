-- ===== src/Planning/Tests.antt =====
-- The calendar's commands at work on a small calendar, and what edits with a scope and previews give on it.
use taco_backend.Common.{
  ℕ, ◌+◌, ◌<◌, ◌≤◌, ◌≡◌, refl, Bool, true, false, ◌&&◌, none, some, List, [], ◌∷◌, leb, elem,
  length, arith, sort_by, not, ◌||◌, ◌==◌, ltb,
}
use taco_backend.Common.Int.{◌+ℤ◌}
use taco_backend.Exec.{ok, err, is_ok, ◌and_then◌}
use taco_backend.Schedule.TemporalTransition.{is_manual_completion_status_violation}
use taco_backend.Schedule.SessionTime.{normalize_session_time}
use taco_backend.Planning.Validation.{is_active_schedule_owner}
use taco_backend.Store.{Row, empty_table, find_all, insert, update}
use taco_backend.Time.{Hhmm, IsoDate, weekday_of}
use taco_backend.Users.{StaffAccount, InstructorProfile, Role, AccountStatus, is_teaching_account}
use taco_backend.Schedule.Entity.{ClassSession, SessionStatus, SessionKind}
use taco_backend.Schedule.SeriesScope.{this, all_of_series}
use taco_backend.Schedule.Conflicts.{session_end_min, detect_conflicts}
use taco_backend.Schedule.Accounting.Projections.{Impact, accounting_projection_of}
use taco_backend.Payouts.Read.{
  measure, pricing_input_of, effective_hourly_rate_for, effective_course_hourly_rate,
}
use taco_backend.Payouts.Samples.{row, lesson, tables, named_or_cohort}
use taco_backend.Planning.{StudentStatus, Calendar, weekly, accounting_impact_ack_required}
use taco_backend.Planning.Dates.{Repeat, is_weekly, occurrence_dates_of}
use taco_backend.Planning.Dates.Occurrences.{
  days_of, IsIncreasing, occurrence_dates_of-elem, is_ok-occurrence_dates_of,
}
use taco_backend.Planning.Context.{load_fresh, pricing_input_for, course_hourly_rate}
use taco_backend.Planning.Context.Pricing.{pricing_input_for-payouts}
use taco_backend.Planning.Creation.{SessionPlan, CreateSession, create}
use taco_backend.Planning.Update.{UpdateSession, InternalOptions}
use taco_backend.Planning.Update.Checks.{update_checks}
use taco_backend.Planning.Update.Commands.{update_class_session}
use taco_backend.Planning.Apart.{IsClear, clash}
use taco_backend.Payouts.Sound.{IsSound}
use taco_backend.Payouts.Commands.{generate}
use taco_backend.Payouts.History.{generates, serve}
use taco_backend.Planning.Books.History.{Mixed, begun, settled, planned, settle}
use taco_backend.Planning.Books.Clear.{Mixed-IsClear}
use taco_backend.Planning.History.{creates, assigns, edits, perform}

abbrev staff : StaffAccount
staff = record { role = Role.instructor; status = AccountStatus.active }

abbrev profile : ℕ → InstructorProfile
profile rate = record { user_id = 7; active = true; default_hourly_rate = some rate }

-- two instructors, of whom the first has the course, and a planned lesson of the first
abbrev planned_lesson : ClassSession
planned_lesson = record (lesson none false) {
  status = SessionStatus.scheduled;
  instructor_attendance = none;
}

abbrev calendar_of : List (Row ClassSession) → Calendar
calendar_of sessions = record {
  tables = record (tables [] [] planned_lesson) {
    sessions = record { rows = sessions; sequence = 2 };
    users = record { rows = row 7 staff ∷ row 8 staff ∷ []; sequence = 8 };
    profiles = record {
      rows = row 7 (profile 30000) ∷ row 8 (record (profile 50000) { user_id = 8 }) ∷ [];
      sequence = 8;
    };
    courses = record {
      rows = row 3 (record { instructor_id = some 7; hourly_rate_override = none }) ∷ [];
      sequence = 3;
    };
  };
  series = empty_table;
  students = record {
    rows = row 21 (record { status = StudentStatus.enrolled }) ∷ [];
    sequence = 21;
  };
  rooms = empty_table;
  blocks = empty_table;
}

abbrev one_lesson : Calendar
one_lesson = calendar_of (row 1 planned_lesson ∷ [])

abbrev at : ℕ → ℕ → Hhmm
at h m = record { hour = h; minute = m }

abbrev plan_at : Hhmm → SessionPlan
plan_at start = record {
  course_id = 3;
  instructor_id = none;
  room_id = none;
  student_ids = some (21 ∷ []);
  start_time = start;
  end_time = none;
  duration_minutes = some 60;
  status = none;
  kind = none;
  mode = none;
  force = true;
}

abbrev creation_at : Hhmm → CreateSession
creation_at start = record {
  plan = plan_at start;
  session_date = 20000;
  series_id = none;
  makeup_for_session_id = none;
}

abbrev no_edit : UpdateSession
no_edit = record {
  session_date = none;
  start_time = none;
  end_time = none;
  duration_minutes = none;
  course_id = none;
  instructor_id = none;
  room_id = none;
  student_ids = none;
  status = none;
  kind = none;
  mode = none;
  scope = this;
  expected_series_version = none;
  force = false;
  acknowledge_accounting_impact = false;
  expected_accounting_impact_hash = none;
}

abbrev no_options : InternalOptions
no_options = record {
  expected_target_ids = none;
  may_manage_attendance = false;
  audit_reason = none;
  expected_instructor_attendance = none;
  command = none;
}

abbrev digest : List ℕ → Impact → ℕ
digest ids impact = length ids

-- a new lesson at eleven is in the way of the one that goes on until twelve; at twelve it is not
creation_tests :
    (is_ok (create true 500 (some 1) none (creation_at (at 11 0)) one_lesson).0 ≡ false)
    × (is_ok (create false 500 (some 1) none (creation_at (at 11 0)) one_lesson).0 ≡ true)
    × (is_ok (create true 500 (some 1) none (creation_at (at 12 0)) one_lesson).0 ≡ true)
unfolding create ◌and_then◌ is_manual_completion_status_violation is_active_schedule_owner
    is_teaching_account normalize_session_time ◌+ℤ◌ detect_conflicts
creation_tests = (refl, refl, refl)

one_lesson-IsClear : IsClear one_lesson
unfolding session_end_min
one_lesson-IsClear = record {
  sessions_wf = (ground arith, refl, tt);
  apart = (tt, tt);
  placed = (((refl, refl, ground arith), refl), tt);
}

abbrev busy_day : Calendar
busy_day =
    perform named_or_cohort digest true 700 (some 1) "sick"
      (assigns 1 (record {
        instructor_id = some 8;
        expected_instructor_id = none;
        set_course_default = false;
        reason = "sick";
      }))
      (perform named_or_cohort digest true 600 (some 1) "later"
        (edits 1 (record no_edit { start_time = some (at 14 0) }) no_options)
        (perform named_or_cohort digest true 500 (some 1) "new" (creates (creation_at (at 12 0)))
          (settle named_or_cohort digest true 400 (some 1) (generates 7 none none) one_lesson)))

-- the settlement found nothing to pay, and the three requests after it went through
busy_day-done :
    (length (find_all busy_day.tables.sessions) ≡ 2) × (length busy_day.tables.audit ≡ 3)
unfolding perform ◌and_then◌ is_manual_completion_status_violation is_active_schedule_owner
    is_teaching_account normalize_session_time ◌+ℤ◌ detect_conflicts insert accounting_projection_of
    update serve generate measure
busy_day-done = (refl, refl)

-- the calendar's tables hold no payout
one_lesson-IsSound : IsSound one_lesson.tables
one_lesson-IsSound = record {
  payouts_wf = tt;
  sessions_wf = (ground arith, refl, tt);
  links = λ k n. ground arith;
  paid_flags = λ n s e. ground arith;
  amounts = λ k p e. absurd (ground arith);
  reversed_status = λ k p e r. ground arith;
  paid_once = λ k. ground arith;
  reversed_once = λ k. ground arith;
  paid_amount = λ k. ground arith;
  reversed_amount = λ k. ground arith;
}

abbrev busy_history : Mixed named_or_cohort digest true one_lesson busy_day
busy_history =
    planned 700 (some 1) "sick"
      (assigns 1 (record {
        instructor_id = some 8;
        expected_instructor_id = none;
        set_course_default = false;
        reason = "sick";
      }))
      (planned 600 (some 1) "later"
        (edits 1 (record no_edit { start_time = some (at 14 0) }) no_options)
        (planned 500 (some 1) "new" (creates (creation_at (at 12 0)))
          (settled 400 (some 1) (generates 7 none none) begun)))

Mixed-IsClear_example : IsClear busy_day
Mixed-IsClear_example =
    Mixed-IsClear named_or_cohort digest one_lesson busy_day one_lesson-IsSound one_lesson-IsClear
      busy_history (tt, ((refl, refl, refl), (refl, tt)))

-- every Friday of three weeks, and of more than two years
abbrev fridays_until : IsoDate → Repeat
fridays_until d = record { kind = weekly; weekdays = 5 ∷ []; starts_on = 20000; ends_on = d }

three_fridays : occurrence_dates_of (fridays_until 20020) ≡ ok (20000 ∷ 20007 ∷ 20014 ∷ [])
unfolding occurrence_dates_of
three_fridays = refl

occurrence_dates_of-elem_example :
    ((x : IsoDate)
      → elem x (20000 ∷ 20007 ∷ 20014 ∷ [])
        ≡ (leb 20000 x && (leb x 20020 && elem (weekday_of x) (5 ∷ []))))
    × IsIncreasing (20000 ∷ 20007 ∷ 20014 ∷ [])
    × ((0 < 3) × (3 ≤ 120))
occurrence_dates_of-elem_example =
    occurrence_dates_of-elem (fridays_until 20020) (20000 ∷ 20007 ∷ 20014 ∷ []) three_fridays

-- the accounts of a lesson that was held: priced with the rows of the session
abbrev held_lesson : ClassSession
held_lesson = lesson none false

abbrev held_calendar : ClassSession → Calendar
held_calendar s = calendar_of (row 1 s ∷ [])

pricing_input_for-payouts_example :
    pricing_input_for named_or_cohort
      (load_fresh (1 ∷ []) (held_calendar held_lesson).tables)
      1
      held_lesson
      (effective_hourly_rate_for (held_calendar held_lesson).tables 3 (some 7))
    ≡ pricing_input_of named_or_cohort (held_calendar held_lesson).tables (row 1 held_lesson)
pricing_input_for-payouts_example =
    pricing_input_for-payouts named_or_cohort (held_calendar held_lesson).tables (1 ∷ [])
      (row 1 held_lesson) refl

-- a lesson that the second instructor holds in the first one's course is paid at the second one's rate,
-- and previewed at the first one's
preview_rate :
    (effective_hourly_rate_for one_lesson.tables 3 (some 8) ≡ some 50000)
    × (course_hourly_rate one_lesson.tables 3 ≡ some 30000)
unfolding effective_hourly_rate_for effective_course_hourly_rate
preview_rate = (refl, refl)

-- a priced lesson that is made a counselling is previewed without its price, which it keeps
abbrev priced_lesson : ClassSession
priced_lesson = record held_lesson { instructor_pay_amount = some 45000 }

preview_forgets_price :
    (update_checks named_or_cohort digest true 500 1
        (record no_edit { kind = some SessionKind.counsel })
        no_options
        (held_calendar priced_lesson)
      ≡ err accounting_impact_ack_required)
unfolding update_checks ◌and_then◌ is_manual_completion_status_violation normalize_session_time ◌+ℤ◌
    accounting_projection_of
preview_forgets_price = refl

-- Two lessons of a series, one after the other. An edit of both that makes them longer goes through, and
-- they overlap.
abbrev series_lesson : ℕ → ClassSession
series_lesson h = record planned_lesson {
  series_id = some 4;
  start_time = some (at h 0);
  end_time = some (at (h + 1) 0);
  duration_minutes = 60;
}

abbrev lesson_series : Calendar
lesson_series = calendar_of (row 1 (series_lesson 10) ∷ row 2 (series_lesson 11) ∷ [])

abbrev longer_lessons : UpdateSession
longer_lessons = record no_edit { duration_minutes = some 120; scope = all_of_series }

abbrev clashes_of : List (Row ClassSession) → List Bool
clashes_of (a ∷ b ∷ []) = clash a.val b.val ∷ []
clashes_of _ = []

scoped_edit_overlaps :
    let c =
      (update_class_session named_or_cohort digest true 500
        (some 1)
        "longer"
        1
        longer_lessons
        no_options
        lesson_series).1 in
    (clashes_of (find_all lesson_series.tables.sessions) ≡ false ∷ [])
    × (clashes_of (find_all c.tables.sessions) ≡ true ∷ [])
unfolding update_class_session session_end_min ◌and_then◌ is_manual_completion_status_violation
    normalize_session_time ◌+ℤ◌ sort_by accounting_projection_of detect_conflicts update
scoped_edit_overlaps = (refl, refl)

two_years_of_fridays : is_ok (occurrence_dates_of (fridays_until 20800)) ≡ true
unfolding occurrence_dates_of
two_years_of_fridays = refl

is_ok-occurrence_dates_of_example : is_ok (occurrence_dates_of (fridays_until 20800)) ≡ (
    leb 20000 20800
    && ((not (is_weekly weekly) || (length (fridays_until 20800).weekdays == 1))
        && (ltb 0 (length (days_of (fridays_until 20800)))
            && leb (length (days_of (fridays_until 20800))) 120)))
is_ok-occurrence_dates_of_example = is_ok-occurrence_dates_of (fridays_until 20800)
