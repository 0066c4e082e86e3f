-- ===== src/Schedule/Samples.antt =====
-- A sample session, for the tests.
use taco_backend.Common.{ℕ, false, none, some, [], ◌∷◌}
use taco_backend.Store.{Row}
use taco_backend.Time.{Hhmm}
use taco_backend.Schedule.Entity.{ClassSession, SessionStatus, in_person, SessionKind}

abbrev pub at : ℕ → ℕ → Hhmm
at h m = record { hour = h; minute = m }

-- a session of two hours that starts at 23:00 the day before
abbrev pub night : Row ClassSession
night = record {
  id = 4;
  created_at = 100;
  updated_at = 100;
  deleted_at = none;
  deleted_by = none;
  val = record {
    series_id = none;
    course_id = 3;
    instructor_id = some 7;
    room_id = some 2;
    student_ids = some (21 ∷ []);
    session_date = 20000;
    start_time = some (at 23 0);
    end_time = none;
    duration_minutes = 120;
    status = SessionStatus.scheduled;
    kind = SessionKind.class;
    mode = in_person;
    makeup_for_session_id = none;
    instructor_attendance = none;
    instructor_pay_amount = none;
    payout_id = none;
    is_paid = false;
    paid_payout_id = none;
  };
}
