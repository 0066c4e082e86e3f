-- ===== src/Planning/Books/Creation.antt =====
-- Planned sessions and series leave the books of the payouts alone.
use Prim.Native.String.{String}
use taco_backend.Common.{ℕ, ◌≡◌, refl, Bool, false, Option, none, some, List, [], ◌∷◌}
use taco_backend.Exec.{After, After-read, After-transaction, After-map, transaction}
use taco_backend.Store.{insert}
use taco_backend.Time.{IsoDate}
use taco_backend.Schedule.Entity.{ClassSession}
use taco_backend.Schedule.Conflicts.{Conflict}
use taco_backend.Payouts.Rows.{Db, AuditEntity, AuditAction}
use taco_backend.Planning.{Calendar, audit_log}
use taco_backend.Planning.Dates.{Repeat}
use taco_backend.Planning.Creation.{
  SessionPlan, CreateSession, CreateSeries, Prepared, session_of, write_session, write_each,
  prepare, prepare_series, series_of, series_writes, series_checks, normalized_repeat,
  create_checks, create_writes, create_locked, create, create_series_locked, create_series,
}
use taco_backend.Planning.Frame.{After-audit_log}
use taco_backend.Planning.Books.{
  KeepsBooks, KeepsBooks-sessions, KeepsBooks-IsFramed, SameColumns-insert,
}

module _ (db : Db) where
  -- a planned session is in no payout
  After-write_session :
      (now : ℕ) (actor : Option ℕ) (why : Option String) (s : ClassSession) (c : Calendar)
      → s.payout_id ≡ none
      → s.is_paid ≡ false
      → KeepsBooks db c
      → After (KeepsBooks db) (write_session now actor why s) c
  After-write_session now actor why s c free unpaid w =
      let (row, t) = insert now s c.tables.sessions in
      let c1 = record c { tables = record c.tables { sessions = t } } in
      After-audit_log (KeepsBooks db) (KeepsBooks-IsFramed db) actor AuditEntity.class_sessions
        row.id AuditAction.create why c1
        (KeepsBooks-sessions db c t w
          (SameColumns-insert now s c.tables.sessions w.sessions_wf free unpaid))

  After-write_each :
      (now : ℕ) (actor : Option ℕ) (plan : SessionPlan) (p : Prepared) (series : ℕ)
      (days : List IsoDate) (c : Calendar)
      → KeepsBooks db c
      → After (KeepsBooks db) (write_each now actor plan p series days) c
  unfolding write_each
  After-write_each now actor plan p series [] c w = w
  After-write_each now actor plan p series (d ∷ days) c w =
      let s = session_of plan p d (some series) none in
      let c1 = (write_session now actor none s c).1 in
      After-map (KeepsBooks db) c1 (write_each now actor plan p series days) (λ rows. _)
        (After-write_each now actor plan p series days c1
          (After-write_session now actor none s c refl refl w))

  pub After-create :
      (is_production : Bool) (now : ℕ) (actor : Option ℕ) (why : Option String)
      (dto : CreateSession) (c : Calendar)
      → KeepsBooks db c
      → After (KeepsBooks db) (create is_production now actor why dto) c
  unfolding create
  After-create is_production now actor why dto c w =
      After-read (KeepsBooks db) c (prepare dto.plan)
        (λ p. transaction (create_locked is_production now actor why dto p)) w
        λ p _.
          After-transaction (KeepsBooks db) c (create_locked is_production now actor why dto p) w (
            After-read (KeepsBooks db) c (create_checks is_production dto p)
              (create_writes is_production now actor why dto p) w
              λ conflicts _.
                After-write_session now actor why
                  (session_of dto.plan p dto.session_date dto.series_id dto.makeup_for_session_id) c
                  refl refl w)

  After-series_writes :
      (now : ℕ) (actor : Option ℕ) (plan : SessionPlan) (p : Prepared) (r : Repeat)
      (days : List IsoDate) (conflicts : List Conflict) (c : Calendar)
      → KeepsBooks db c
      → After (KeepsBooks db) (series_writes now actor plan p r days conflicts) c
  After-series_writes now actor plan p r days conflicts c w =
      let series = insert now (series_of actor r p.time) c.series in
      let c1 = record c { series = series.1 } in
      let w1 = KeepsBooks-IsFramed db c c1 refl refl refl w in
      let c2 =
        (audit_log actor AuditEntity.class_session_series series.0.id AuditAction.create none
          c1).1 in
      After-map (KeepsBooks db) c2 (write_each now actor plan p series.0.id days) _ (
        After-write_each now actor plan p series.0.id days c2 (
          After-audit_log (KeepsBooks db) (KeepsBooks-IsFramed db) actor
            AuditEntity.class_session_series series.0.id AuditAction.create none c1 w1))

  pub After-create_series :
      (is_production : Bool) (now : ℕ) (actor : Option ℕ) (dto : CreateSeries) (c : Calendar)
      → KeepsBooks db c
      → After (KeepsBooks db) (create_series is_production now actor dto) c
  unfolding create_series
  After-create_series is_production now actor dto c w =
      After-read (KeepsBooks db) c (prepare_series dto)
        (λ (p, days). transaction (create_series_locked is_production now actor dto p days)) w
        λ (p, days) _.
          After-transaction (KeepsBooks db) c
            (create_series_locked is_production now actor dto p days) w
            (After-read (KeepsBooks db) c (series_checks is_production dto.plan p days)
              (series_writes now actor dto.plan p (normalized_repeat dto.repeat) days) w
              λ conflicts _.
                After-series_writes now actor dto.plan p (normalized_repeat dto.repeat) days
                  conflicts c w)
