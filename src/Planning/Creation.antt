-- ===== src/Planning/Creation.antt =====
-- src/modules/schedule/schedule.service.ts: `create` and `createSeries`. A command checks its input,
-- fits the time together, and then, in one transaction, checks again against the tables, looks for
-- conflicts, and writes the sessions with their audit rows.
use Prim.Native.String.{String}
use taco_backend.Common.{
  ℕ, Bool, false, not, ◌&&◌, Option, none, some, List, [], ◌∷◌, if◌then◌else◌, is_some, is_none,
  is_empty, get_or, map_option, flat_map,
}
use taco_backend.Common.Int.{pos}
use taco_backend.Exec.{Result, ok, err, pure, ◌and_then◌, refuse_if, ◌>>=◌, ◌>>◌, transaction}
use taco_backend.Store.{Row, find_by_id, insert}
use taco_backend.Time.{Hhmm, IsoDate}
use taco_backend.Schedule.Entity.{ClassSession, SessionStatus, SessionKind, Mode, in_person}
use taco_backend.Schedule.SessionTime.{TimeError, NormalizedSessionTime, normalize_session_time}
use taco_backend.Schedule.TemporalTransition.{is_manual_completion_status_violation}
use taco_backend.Schedule.Conflicts.{Candidate, Conflict}
use taco_backend.Payouts.Rows.{AuditEntity, AuditAction}
use taco_backend.Planning.{
  Calendar, CalendarCommand, CalendarError, bad_time, no_series, no_makeup_original,
  makeup_of_makeup, schedule_conflict, session_status_fact_mismatch, check, audit_log,
  ScheduleSeries,
}
use taco_backend.Planning.Validation.{
  SessionInput, validate_session_input, active_student_ids, check_conflicts,
}
use taco_backend.Planning.Dates.{Repeat, occurrence_dates_of, normalized_weekdays}

-- what `create` and `createSeries` are given alike; the start and the end are times of the day
pub record SessionPlan : Type 0 where
  pub course_id : ℕ
  pub instructor_id : Option (Option ℕ)
  pub room_id : Option ℕ
  pub student_ids : Option (List ℕ)
  pub start_time : Hhmm
  pub end_time : Option Hhmm
  pub duration_minutes : Option ℕ
  pub status : Option SessionStatus
  pub kind : Option SessionKind
  pub mode : Option Mode
  pub force : Bool

pub record CreateSession : Type 0 where
  pub plan : SessionPlan
  pub session_date : IsoDate
  pub series_id : Option ℕ
  pub makeup_for_session_id : Option ℕ

pub record CreateSeries : Type 0 where
  pub plan : SessionPlan
  pub repeat : Repeat

-- `canForceScheduleConflicts`
abbrev pub can_force_schedule_conflicts : Bool → Bool → Bool
can_force_schedule_conflicts is_production requested = requested && not is_production

abbrev pub input_of : SessionPlan → Option (List ℕ) → SessionInput
input_of plan students = record {
  course_id = plan.course_id;
  instructor_id = plan.instructor_id;
  room_id = plan.room_id;
  student_ids = students;
}

-- the named students, or those of the course
abbrev pub cohort_for : SessionPlan → Calendar → List ℕ
cohort_for plan c = elim plan.student_ids [
  | none ↦ active_student_ids c plan.course_id
  | some ids ↦ ids
]

abbrev pub timed :
    Result TimeError NormalizedSessionTime → Result CalendarError NormalizedSessionTime
timed (ok t) = ok t
timed (err e) = err (bad_time e)

abbrev pub time_of : SessionPlan → Result CalendarError NormalizedSessionTime
time_of plan = timed (
    normalize_session_time plan.start_time plan.end_time (map_option pos plan.duration_minutes)
      none)

-- what is settled before the transaction
pub record Prepared : Type 0 where
  pub instructor : Option ℕ
  pub students : List ℕ
  pub time : NormalizedSessionTime

abbrev pub candidate_of : SessionPlan → Prepared → IsoDate → Candidate
candidate_of plan p day = record {
  session_date = day;
  start_time = p.time.start_time;
  end_time = none;
  duration_minutes = some p.time.duration_minutes;
  instructor_id = p.instructor;
  room_id = plan.room_id;
  student_ids = some p.students;
  ignore_session_id = none;
  mode = some (get_or plan.mode in_person);
}

abbrev pub session_of : SessionPlan → Prepared → IsoDate → Option ℕ → Option ℕ → ClassSession
session_of plan p day series makeup_for = record {
  series_id = series;
  course_id = plan.course_id;
  instructor_id = p.instructor;
  room_id = plan.room_id;
  student_ids = some p.students;
  session_date = day;
  start_time = some p.time.start_time;
  end_time = p.time.end_time;
  duration_minutes = p.time.duration_minutes;
  status = get_or plan.status SessionStatus.scheduled;
  kind = get_or plan.kind SessionKind.class;
  mode = get_or plan.mode in_person;
  makeup_for_session_id = makeup_for;
  instructor_attendance = none;
  instructor_pay_amount = none;
  payout_id = none;
  is_paid = false;
  paid_payout_id = none;
}

abbrev series_there : Option ℕ → Calendar → Result CalendarError (Unit {0})
series_there none c = ok tt
series_there (some i) c = if is_some (find_by_id i c.series) then ok tt else err no_series

-- the original of a makeup session is there, and is none itself
abbrev makeup_allowed : Option ℕ → Calendar → Result CalendarError (Unit {0})
makeup_allowed none c = ok tt
makeup_allowed (some i) c = elim (find_by_id i c.tables.sessions) [
  | none ↦ err no_makeup_original
  | some original ↦
      if is_none original.val.makeup_for_session_id then ok tt else err makeup_of_makeup
]

abbrev pub insert_session : ℕ → ClassSession → CalendarCommand (Row ClassSession)
insert_session now s c =
    let (r, t) = insert now s c.tables.sessions in
    (ok r, record c { tables = record c.tables { sessions = t } })

abbrev pub write_session :
    ℕ → Option ℕ → Option String → ClassSession → CalendarCommand (Row ClassSession)
write_session now actor why s = do
  row ← insert_session now s
  audit_log actor AuditEntity.class_sessions row.id AuditAction.create why
  pure row

-- conflicts stop the command, unless they may be forced and are
abbrev pub stop_on : Bool → Bool → List Conflict → Result CalendarError (List Conflict)
stop_on is_production force conflicts =
    if not (is_empty conflicts) && not (can_force_schedule_conflicts is_production force)
    then err (schedule_conflict conflicts)
    else ok conflicts

-- the checks before the transaction
unfoldable pub prepare : SessionPlan → Calendar → Result CalendarError Prepared
unfolding validate_session_input active_student_ids
prepare plan c =
    refuse_if (is_manual_completion_status_violation none plan.status) session_status_fact_mismatch
    and_then λ _. validate_session_input c (input_of plan plan.student_ids) and_then λ instructor.
        time_of plan and_then λ time.
        ok (record { instructor = instructor; students = cohort_for plan c; time = time })

abbrev pub series_of : Option ℕ → Repeat → NormalizedSessionTime → ScheduleSeries
series_of actor r t = record {
  repeat_kind = r.kind;
  weekdays = r.weekdays;
  starts_on = r.starts_on;
  ends_on = r.ends_on;
  start_time = t.start_time;
  duration_minutes = t.duration_minutes;
  version = 1;
  created_by = actor;
  updated_by = none;
}

abbrev pub insert_series : ℕ → ScheduleSeries → CalendarCommand (Row ScheduleSeries)
insert_series now s c = let (r, t) = insert now s c.series in (ok r, record c { series = t })

-- the sessions of the days, in order, each with its audit row
unfoldable pub write_each :
    ℕ
    → Option ℕ
    → SessionPlan
    → Prepared
    → ℕ
    → List IsoDate
    → CalendarCommand (List (Row ClassSession))
write_each now actor plan p series [] = pure []
write_each now actor plan p series (day ∷ days) = do
  row ← write_session now actor none (session_of plan p day (some series) none)
  rows ← write_each now actor plan p series days
  pure (row ∷ rows)

pub record SeriesResult : Type 0 where
  pub series : Row ScheduleSeries
  pub rows : List (Row ClassSession)
  pub conflicts : List Conflict

abbrev pub series_writes :
    ℕ
    → Option ℕ
    → SessionPlan
    → Prepared
    → Repeat
    → List IsoDate
    → List Conflict
    → CalendarCommand SeriesResult
series_writes now actor plan p repeat days conflicts = do
  series ← insert_series now (series_of actor repeat p.time)
  audit_log actor AuditEntity.class_session_series series.id AuditAction.create none
  rows ← write_each now actor plan p series.id days
  pure (record { series = series; rows = rows; conflicts = conflicts })

abbrev pub normalized_repeat : Repeat → Repeat
normalized_repeat r = record r { weekdays = normalized_weekdays r.weekdays }

-- what is settled before the transaction: also the days
unfoldable pub prepare_series :
    CreateSeries → Calendar → Result CalendarError (Prepared × List IsoDate)
unfolding prepare occurrence_dates_of
prepare_series dto c = prepare dto.plan c and_then λ p.
    occurrence_dates_of (normalized_repeat dto.repeat) and_then λ days. ok (p, days)

module _ (is_production : Bool) where
  -- the checks in the transaction, which give the conflicts that were forced
  unfoldable pub create_checks :
      CreateSession → Prepared → Calendar → Result CalendarError (List Conflict)
  unfolding check_conflicts validate_session_input
  create_checks dto p c =
      validate_session_input c (input_of dto.plan (some p.students)) and_then λ _.
      series_there dto.series_id c and_then λ _.
      makeup_allowed dto.makeup_for_session_id c and_then λ _.
      stop_on is_production dto.plan.force
        (check_conflicts c (candidate_of dto.plan p dto.session_date))

  abbrev pub create_writes :
      ℕ
      → Option ℕ
      → Option String
      → CreateSession
      → Prepared
      → List Conflict
      → CalendarCommand (Row ClassSession × List Conflict)
  create_writes now actor why dto p conflicts = do
    row ←
        write_session now actor why
          (session_of dto.plan p dto.session_date dto.series_id dto.makeup_for_session_id)
    pure (row, conflicts)

  abbrev pub create_locked :
      ℕ
      → Option ℕ
      → Option String
      → CreateSession
      → Prepared
      → CalendarCommand (Row ClassSession × List Conflict)
  create_locked now actor why dto p =
      check (create_checks dto p) >>= create_writes now actor why dto p

  unfoldable pub create :
      ℕ
      → Option ℕ
      → Option String
      → CreateSession
      → CalendarCommand (Row ClassSession × List Conflict)
  unfolding prepare create_checks transaction
  create now actor why dto =
      check (prepare dto.plan) >>= λ p. transaction (create_locked now actor why dto p)

  -- all days are checked before any is written
  unfoldable pub series_checks :
      SessionPlan → Prepared → List IsoDate → Calendar → Result CalendarError (List Conflict)
  unfolding check_conflicts validate_session_input
  series_checks plan p days c =
      validate_session_input c (input_of plan (some p.students)) and_then λ _.
      stop_on is_production plan.force
        (flat_map (λ day. check_conflicts c (candidate_of plan p day)) days)

  abbrev pub create_series_locked :
      ℕ → Option ℕ → CreateSeries → Prepared → List IsoDate → CalendarCommand SeriesResult
  create_series_locked now actor dto p days =
      check (series_checks dto.plan p days)
      >>= series_writes now actor dto.plan p (normalized_repeat dto.repeat) days

  unfoldable pub create_series : ℕ → Option ℕ → CreateSeries → CalendarCommand SeriesResult
  unfolding prepare_series series_checks write_each transaction
  create_series now actor dto = check (prepare_series dto) >>= λ (p, days).
      transaction (create_series_locked now actor dto p days)
