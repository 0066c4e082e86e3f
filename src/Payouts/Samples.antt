-- ===== src/Payouts/Samples.antt =====
-- Small tables of payouts: a confirmed, a paid and no settlement of one session.
use taco_backend.Common.{
  ℕ, refl, subst, Bool, true, false, Option, none, some, List, [], ◌∷◌, arith,
}
use taco_backend.Store.{Row, empty_table}
use taco_backend.Schedule.Entity.{
  ClassSession, SessionStatus, in_person, InstructorAttendance, SessionKind,
}
use taco_backend.Schedule.Participants.{ResolveIds}
use taco_backend.Payouts.Rows.{Payout, PayoutStatus, confirmed, paid, Transaction, Db}
use taco_backend.Payouts.Steps.{ledger_row}
use taco_backend.Payouts.Sound.{IsSound, HasAmounts}

abbrev pub row : {R : Type 0} → ℕ → R → Row R
row i v = record {
  id = i;
  created_at = 100;
  updated_at = 100;
  deleted_at = none;
  deleted_by = none;
  val = v;
}

-- a session of two hours that instructor 7 has held
abbrev pub lesson : Option ℕ → Bool → ClassSession
lesson payout is_paid = record {
  series_id = none;
  course_id = 3;
  instructor_id = some 7;
  room_id = none;
  student_ids = some (21 ∷ []);
  session_date = 20000;
  start_time = some (record { hour = 10; minute = 0 });
  end_time = some (record { hour = 12; minute = 0 });
  duration_minutes = 120;
  status = SessionStatus.held;
  kind = SessionKind.class;
  mode = in_person;
  makeup_for_session_id = none;
  instructor_attendance = some InstructorAttendance.present;
  instructor_pay_amount = none;
  payout_id = payout;
  is_paid = is_paid;
  paid_payout_id = none;
}

abbrev pub settlement : PayoutStatus → Payout
settlement st = record {
  instructor_id = 7;
  period_start = 19990;
  period_end = 20010;
  session_count = 1;
  total_minutes = 120;
  computed_amount = 60000;
  adjusted_amount = none;
  adjust_reason = none;
  amount = 60000;
  status = st;
  lines =
      record {
        session_id = 1;
        course_id = 3;
        session_date = 20000;
        duration_minutes = 120;
        hourly_rate = 30000;
        amount = 60000;
      }
      ∷ [];
  confirmed_at = none;
  paid_at = none;
  reversed_at = none;
  rejected_reason = none;
  reversed_reason = none;
}

abbrev pub tables : List (Row Payout) → List (Row Transaction) → ClassSession → Db
tables ps ts s = record {
  payouts = record { rows = ps; sequence = 1 };
  transactions = record { rows = ts; sequence = 1 };
  sessions = record { rows = row 1 s ∷ []; sequence = 1 };
  users = empty_table;
  profiles = empty_table;
  courses = empty_table;
  enrollments = empty_table;
  reports = empty_table;
  attendance = empty_table;
  audit = [];
}

abbrev pub confirmed_tables : Db
confirmed_tables = tables (row 1 (settlement confirmed) ∷ []) [] (lesson (some 1) false)

abbrev pub paid_tables : Db
paid_tables =
    tables (row 1 (settlement paid) ∷ []) (row 1 (ledger_row true 1 60000 100) ∷ [])
      (lesson (some 1) true)

abbrev pub free_tables : Db
free_tables = tables [] [] (lesson none false)

settled_amounts : (st : PayoutStatus) → HasAmounts (settlement st)
settled_amounts st = record { summed = refl; effective = refl }

pub confirmed_tables-IsSound : IsSound confirmed_tables
confirmed_tables-IsSound = record {
  payouts_wf = (ground arith, refl, tt);
  sessions_wf = (ground arith, refl, tt);
  links = λ k n. ground arith;
  paid_flags = λ n s e. ground arith;
  amounts = λ k p e.
      subst HasAmounts {x = settlement confirmed} (ground arith) (settled_amounts confirmed);
  reversed_status = λ k p e r. ground arith;
  paid_once = λ k. ground arith;
  reversed_once = λ k. ground arith;
  paid_amount = λ k. ground arith;
  reversed_amount = λ k. ground arith;
}

pub paid_tables-IsSound : IsSound paid_tables
paid_tables-IsSound = record {
  payouts_wf = (ground arith, refl, tt);
  sessions_wf = (ground arith, refl, tt);
  links = λ k n. ground arith;
  paid_flags = λ n s e. ground arith;
  amounts = λ k p e. subst HasAmounts {x = settlement paid} (ground arith) (settled_amounts paid);
  reversed_status = λ k p e r. ground arith;
  paid_once = λ k. ground arith;
  reversed_once = λ k. ground arith;
  paid_amount = λ k. ground arith;
  reversed_amount = λ k. ground arith;
}

pub free_tables-IsSound : IsSound free_tables
free_tables-IsSound = record {
  payouts_wf = tt;
  sessions_wf = (ground arith, refl, tt);
  links = λ k n. ground arith;
  paid_flags = λ n s e. ground arith;
  amounts = λ k p e. absurd (ground arith);
  reversed_status = λ k p e r. ground arith;
  paid_once = λ k. ground arith;
  reversed_once = λ k. ground arith;
  paid_amount = λ k. ground arith;
  reversed_amount = λ k. ground arith;
}

-- the contracts package's rule: the named students, or else the cohort
abbrev pub named_or_cohort : ResolveIds
named_or_cohort none cohort = cohort
named_or_cohort (some ids) cohort = ids
