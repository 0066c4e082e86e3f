-- ===== src/Planning/Removal.antt =====
-- src/modules/schedule/schedule.service.ts: `remove`, alone or with other sessions of the series, with
-- `removeBySession` of src/modules/attendance/attendance.service.ts and src/modules/reports/reports.service.ts.
-- The fingerprint of an accounting effect, a hash of a text from outside, is the parameter `digest`, and
-- the text that links the audit rows of one command, with its random part, is the argument `why`.
use Prim.Native.String.{String}
use taco_backend.Common.{
  ℕ, ◌+◌, Bool, true, false, not, ◌&&◌, Option, none, some, List, [], ◌∷◌, ltb, leb, ◌==◌,
  if◌then◌else◌, is_some, is_id, get_or, elem, any, map, holds, sort_by,
}
use taco_backend.Exec.{Result, ok, ◌and_then◌, refuse_if, pure, modify, ◌>>=◌, ◌>>◌, transaction}
use taco_backend.Store.{Row, Table, find_by_id, find_by, remove, remove_by, update}
use taco_backend.Time.{IsoDate}
use taco_backend.Schedule.Entity.{ClassSession}
use taco_backend.Schedule.SeriesScope.{
  SeriesScope, this, this_and_following, SeriesScopeMember, select_series_scope,
}
use taco_backend.Schedule.Participants.{ResolveIds}
use taco_backend.Schedule.Accounting.{is_payout_locked}
use taco_backend.Schedule.Accounting.Projections.{
  Impact, accounting_impact_of_removal, combine_accounting_impacts,
}
use taco_backend.Payouts.Rows.{Attendance, SessionReport, AuditEntity, AuditAction}
use taco_backend.Planning.{
  Calendar, CalendarCommand, CalendarError, ScheduleSeries, check, found, audit_log,
  session_not_found, series_version_stale, request_scope_stale, payout_reversal_required,
  accounting_impact_ack_required,
}
use taco_backend.Planning.Context.{
  SessionAccountingContext, load_fresh, pricing_input_for, course_hourly_rate,
}

abbrev pub member_of : Row ClassSession → SeriesScopeMember
member_of s = record { id = s.id; session_date = s.val.session_date; start_time = s.val.start_time }

abbrev pub rows_of : Table ClassSession → List SeriesScopeMember → List (Row ClassSession)
rows_of t [] = []
rows_of t (m ∷ ms) = elim (find_by_id m.id t) [ none ↦ rows_of t ms | some s ↦ s ∷ rows_of t ms ]

-- the other sessions that the command takes with it
unfoldable pub companions_of : Calendar → Row ClassSession → SeriesScope → List (Row ClassSession)
unfolding select_series_scope
companions_of c s scope = elim s.val.series_id [
  | none ↦ []
  | some i ↦ rows_of c.tables.sessions (
      select_series_scope (map member_of (find_by (λ t. is_id i t.val.series_id) c.tables.sessions))
        (member_of s) scope)
]

abbrev pub series_row : Calendar → Row ClassSession → Option (Row ScheduleSeries)
series_row c s = elim s.val.series_id [ none ↦ none | some i ↦ find_by_id i c.series ]

abbrev pub ids_of : List (Row ClassSession) → List ℕ
ids_of ss = map (λ (s : Row ClassSession). s.id) ss

abbrev same_list : List ℕ → List ℕ → Bool
same_list [] [] = true
same_list (x ∷ xs) (y ∷ ys) = (x == y) && same_list xs ys
same_list _ _ = false

abbrev pub same_ids : List ℕ → List ℕ → Bool
same_ids xs ys = same_list (sort_by leb xs) (sort_by leb ys)

abbrev pub is_stale_version : Option ℕ → Option (Row ScheduleSeries) → Bool
is_stale_version none o = false
is_stale_version (some v) o = holds (λ (r : Row ScheduleSeries). not (v == r.val.version)) o

-- `accountingImpactHash`
abbrev pub accounting_impact_hash : (List ℕ → Impact → ℕ) → List ℕ → Impact → ℕ
accounting_impact_hash digest ids impact = digest (sort_by leb ids) impact

-- the effect was seen and agreed to as it is now
abbrev pub is_acknowledged : Bool → Option ℕ → ℕ → Bool
is_acknowledged acknowledged expected hash = acknowledged && is_id hash expected

pub record RemoveOptions : Type 0 where
  pub scope : SeriesScope
  pub expected_series_version : Option ℕ
  pub acknowledge_accounting_impact : Bool
  pub expected_accounting_impact_hash : Option ℕ
  pub expected_target_ids : Option (List ℕ)

pub record RemovalPlan : Type 0 where
  pub before : Row ClassSession
  pub targets : List (Row ClassSession)
  pub series : Option (Row ScheduleSeries)
  pub impact : Impact
  pub hash : ℕ

pub record Removed : Type 0 where
  pub deleted : Bool
  pub removed_ids : List ℕ
  pub impact : Option (Impact × ℕ)

-- `removeBySession` of the attendance service and of the reports service
abbrev pub log_deletions :
    Option ℕ → AuditEntity → Option String → List ℕ → CalendarCommand (Unit {0})
log_deletions actor entity why [] = pure tt
log_deletions actor entity why (i ∷ is) = do
  audit_log actor entity i AuditAction.delete why
  log_deletions actor entity why is

abbrev pub real_actor : Option ℕ → Option ℕ
real_actor none = none
real_actor (some a) = if ltb 0 a then some a else none

abbrev pub temporal_reset_reason : String
temporal_reset_reason = "수업 시간 변경에 따른 출결 초기화"

abbrev pub of_session : ℕ → Row Attendance → Bool
of_session i a = a.val.session_id == i

abbrev pub without_attendance : ℕ → Option ℕ → ℕ → Calendar → Calendar
without_attendance now actor i c = record c {
  tables = record c.tables { attendance = remove_by now actor (of_session i) c.tables.attendance };
}

unfoldable pub remove_attendance_of : ℕ → Option ℕ → Option String → ℕ → CalendarCommand (Unit {0})
unfolding remove_by
remove_attendance_of now actor why i c =
    log_deletions (real_actor actor) AuditEntity.attendance
      (some (get_or why temporal_reset_reason))
      (map (λ (a : Row Attendance). a.id) (find_by (of_session i) c.tables.attendance))
      (without_attendance now actor i c)

abbrev pub report_of_session : ℕ → Row SessionReport → Bool
report_of_session i r = r.val.session_id == i

abbrev pub without_reports : ℕ → Option ℕ → ℕ → Calendar → Calendar
without_reports now actor i c = record c {
  tables = record c.tables { reports = remove_by now actor (report_of_session i) c.tables.reports };
}

unfoldable pub remove_reports_of : ℕ → Option ℕ → ℕ → CalendarCommand (Unit {0})
unfolding remove_by
remove_reports_of now actor i c =
    log_deletions (real_actor actor) AuditEntity.session_reports none
      (map (λ (r : Row SessionReport). r.id) (find_by (report_of_session i) c.tables.reports))
      (without_reports now actor i c)

abbrev pub remove_session_row : ℕ → Option ℕ → ℕ → CalendarCommand Bool
remove_session_row now actor i c =
    let (b, t) = remove now actor i c.tables.sessions in
    (ok b, record c { tables = record c.tables { sessions = t } })

abbrev pub log_deleted : Bool → Option ℕ → ℕ → Option String → CalendarCommand (Unit {0})
log_deleted deleted actor i why =
    audit_log (if deleted then actor else none) AuditEntity.class_sessions i AuditAction.delete why

abbrev pub finish_removal : Bool → Option ℕ → ℕ → Option String → CalendarCommand Bool
finish_removal deleted actor i why = log_deleted deleted actor i why >> pure deleted

abbrev pub remove_dependents : ℕ → Option ℕ → ℕ → CalendarCommand (Unit {0})
remove_dependents now actor i =
    remove_attendance_of now actor none i >> remove_reports_of now actor i

-- a session with what hangs on it; whether it was there
unfoldable pub remove_one : ℕ → Option ℕ → Option String → ℕ → CalendarCommand Bool
unfolding remove_attendance_of remove_reports_of
remove_one now actor why i = do
  deleted ← remove_session_row now actor i
  remove_dependents now actor i
  finish_removal deleted actor i why

abbrev pub push_removed : Bool → ℕ → List ℕ → List ℕ
push_removed deleted i rest = if deleted then i ∷ rest else rest

-- the ids of those that were there
unfoldable pub remove_each :
    ℕ → Option ℕ → Option String → List (Row ClassSession) → CalendarCommand (List ℕ)
unfolding remove_one
remove_each now actor why [] = pure []
remove_each now actor why (s ∷ ss) = do
  deleted ← remove_one now actor why s.id
  rest ← remove_each now actor why ss
  pure (push_removed deleted s.id rest)

-- the latest date of sessions of which there is one
abbrev pub latest : IsoDate → List (Row ClassSession) → IsoDate
latest d [] = d
latest d (s ∷ ss) = latest (if ltb d s.val.session_date then s.val.session_date else d) ss

abbrev shortened : SeriesScope → IsoDate → IsoDate → IsoDate
shortened this_and_following last ends = if ltb last ends then last else ends
shortened _ last ends = ends

abbrev pub is_this : SeriesScope → Bool
is_this this = true
is_this _ = false

abbrev pub bump_series : Option ℕ → SeriesScope → IsoDate → ScheduleSeries → ScheduleSeries
bump_series actor scope last s = record s {
  version = s.version + 1;
  updated_by = actor;
  ends_on = shortened scope last s.ends_on;
}

abbrev pub advance_version :
    ℕ
    → Option ℕ
    → Option String
    → ℕ
    → (ScheduleSeries → ScheduleSeries)
    → CalendarCommand (Unit {0})
advance_version now actor why i f = do
  modify (λ c. record c { series = (update now i f c.series).1 })
  audit_log actor AuditEntity.class_session_series i AuditAction.update why

-- a series without sessions is removed, and one of which several were removed gets a new version
abbrev pub tidy_series :
    ℕ
    → Option ℕ
    → Option String
    → SeriesScope
    → Row ScheduleSeries
    → List (Row ClassSession)
    → CalendarCommand (Unit {0})
tidy_series now actor why scope r [] = do
  modify (λ c. record c { series = (remove now actor r.id c.series).1 })
  audit_log actor AuditEntity.class_session_series r.id AuditAction.delete why
tidy_series now actor why scope r (s ∷ ss) =
    if is_this scope
    then pure tt
    else advance_version now actor why r.id (bump_series actor scope (latest s.val.session_date ss))

abbrev pub tidy :
    ℕ
    → Option ℕ
    → Option String
    → SeriesScope
    → Option (Row ScheduleSeries)
    → CalendarCommand (Unit {0})
tidy now actor why scope none c = pure tt c
tidy now actor why scope (some r) c =
    tidy_series now actor why scope r (find_by (λ s. is_id r.id s.val.series_id) c.tables.sessions)
      c

abbrev pub correlation_of : String → Row ClassSession → Option String
correlation_of why s = if is_some s.val.series_id then some why else none

abbrev pub removed_answer : ℕ → RemovalPlan → List ℕ → Removed
removed_answer i plan ids = record {
  deleted = elem i ids;
  removed_ids = ids;
  impact = if plan.impact.changed then some (plan.impact, plan.hash) else none;
}

abbrev pub finish_removals :
    ℕ → Option ℕ → String → ℕ → RemoveOptions → RemovalPlan → List ℕ → CalendarCommand Removed
finish_removals now actor why i opts plan ids =
    tidy now actor (correlation_of why plan.before) opts.scope plan.series
    >> pure (removed_answer i plan ids)

abbrev pub removal_writes :
    ℕ → Option ℕ → String → ℕ → RemoveOptions → RemovalPlan → CalendarCommand Removed
removal_writes now actor why i opts plan =
    remove_each now actor (correlation_of why plan.before) plan.targets
    >>= finish_removals now actor why i opts plan

module _ (resolve : ResolveIds) (digest : List ℕ → Impact → ℕ) where
  abbrev pub removal_impact : SessionAccountingContext → Calendar → Row ClassSession → Impact
  removal_impact context c s =
      accounting_impact_of_removal s.val
        (pricing_input_for resolve context s.id s.val (course_hourly_rate c.tables s.val.course_id))

  abbrev pub removal_plan : ℕ → RemoveOptions → Row ClassSession → Calendar → RemovalPlan
  removal_plan i opts s c =
      let targets = s ∷ companions_of c s opts.scope in
      let context = load_fresh (ids_of targets) c.tables in
      let impact = combine_accounting_impacts (map (removal_impact context c) targets) in
      record {
        before = s;
        targets = targets;
        series = series_row c s;
        impact = impact;
        hash = accounting_impact_hash digest (ids_of targets) impact;
      }

  unfoldable pub removal_checks : ℕ → RemoveOptions → Calendar → Result CalendarError RemovalPlan
  unfolding companions_of load_fresh pricing_input_for accounting_impact_of_removal
      combine_accounting_impacts is_payout_locked
  removal_checks i opts c = found (find_by_id i c.tables.sessions) session_not_found and_then λ s.
      let plan = removal_plan i opts s c in
      refuse_if (is_stale_version opts.expected_series_version plan.series) series_version_stale
      and_then λ _.
          refuse_if
            (holds (λ ids. not (same_ids ids (ids_of plan.targets))) opts.expected_target_ids)
            request_scope_stale
          and_then λ _.
              refuse_if (any (λ (t : Row ClassSession). is_payout_locked t.val) plan.targets)
                payout_reversal_required
              and_then λ _.
                  refuse_if
                    (plan.impact.changed
                      && not (
                          is_acknowledged opts.acknowledge_accounting_impact
                            opts.expected_accounting_impact_hash plan.hash))
                    accounting_impact_ack_required
                  and_then λ _. ok plan

  abbrev pub removal_locked : ℕ → Option ℕ → String → ℕ → RemoveOptions → CalendarCommand Removed
  removal_locked now actor why i opts =
      check (removal_checks i opts) >>= removal_writes now actor why i opts

  unfoldable pub remove_session :
      ℕ → Option ℕ → String → ℕ → RemoveOptions → CalendarCommand Removed
  unfolding removal_checks remove_each transaction
  remove_session now actor why i opts =
      check (λ c. found (find_by_id i c.tables.sessions) session_not_found) >>= λ _.
      transaction (removal_locked now actor why i opts)
