-- ===== src/Planning/Apart/Series.antt =====
-- The sessions of a series clash neither with those before nor with one another.
use taco_backend.Common.{
  ℕ, ◌<◌, ◌≡◌, refl, sym, subst, true, false, Option, none, some, List, [], ◌∷◌, ◌++◌, All, arith,
  flat_map,
}
use Prim.Native.String.{String}
use taco_backend.Exec.{
  transaction, ok, After-read, After-transaction, After-map, ok-injective, and_then-ok,
}
use taco_backend.Store.{Row, find_all, insert}
use taco_backend.Store.Active.{find_all-insert}
use taco_backend.Time.{IsoDate, is_clock}
use taco_backend.Schedule.Entity.{ClassSession}
use taco_backend.Schedule.Conflicts.{Conflict}
use taco_backend.Payouts.Rows.{AuditEntity, AuditAction}
use taco_backend.Planning.{audit_log, Calendar}
use taco_backend.Planning.Validation.{check_conflicts}
use taco_backend.Planning.Creation.{
  SessionPlan, Prepared, candidate_of, session_of, CreateSeries, create_series_locked, series_of,
  series_checks, series_writes, prepare_series, create_series, normalized_repeat, write_each,
  write_session,
}
use taco_backend.Planning.Dates.{Repeat}
use taco_backend.Planning.Dates.Occurrences.{IsIncreasing, occurrence_dates_of-elem}
use taco_backend.Planning.Apart.{clash, IsClear, All-append_one}
use taco_backend.Planning.Apart.Creation.{
  IsFitted, insert-val, write_session-IsClear, free_day, prepare-IsFitted, session_of-IsPlaced,
  stop_on-quiet,
}

-- the same plan on a later day does not meet
later_day :
    (plan : SessionPlan) (p : Prepared) (d d' : IsoDate) (o o' : Option ℕ)
    → IsFitted p.time
    → d < d'
    → clash (session_of plan p d o o') (session_of plan p d' o o') ≡ false
later_day plan p d d' o o' f h = ground (arith, f.3)

written_rows :
    (now : ℕ) (actor : Option ℕ) (why : Option String) (s : ClassSession) (c : Calendar)
    → find_all (write_session now actor why s c).1.tables.sessions
      ≡ find_all c.tables.sessions ++ (insert now s c.tables.sessions).0 ∷ []
written_rows now none why s c = find_all-insert now s c.tables.sessions
written_rows now (some a) why s c = find_all-insert now s c.tables.sessions

-- the sessions before do not clash with any of the days
abbrev IsFreeOn : SessionPlan → Prepared → ℕ → List (Row ClassSession) → List IsoDate → Type 0
IsFreeOn plan p series ss days =
    All (λ d. All (λ t. clash t.val (session_of plan p d (some series) none) ≡ false) ss) days

free_after :
    (now : ℕ) (plan : SessionPlan) (p : Prepared) (series : ℕ) (d : IsoDate) (days : List IsoDate)
    (c : Calendar)
    → IsFitted p.time
    → All (λ y. d < y) days
    → IsFreeOn plan p series (find_all c.tables.sessions) days
    → IsFreeOn plan p series
        (find_all c.tables.sessions
          ++ (insert now (session_of plan p d (some series) none) c.tables.sessions).0 ∷ [])
        days
free_after now plan p series d [] c f later free = tt
free_after now plan p series d (d' ∷ days) c f later free =
    let s = session_of plan p d (some series) none in
    (
      All-append_one (λ t. clash t.val (session_of plan p d' (some series) none) ≡ false)
          (find_all c.tables.sessions) (insert now s c.tables.sessions).0 free.0
          (subst (λ x. clash x (session_of plan p d' (some series) none) ≡ false)
            (sym (insert-val now s c)) (later_day plan p d d' (some series) none f later.0)),
      free_after now plan p series d days c f later.1 free.1,
    )

write_each-IsClear :
    (now : ℕ) (actor : Option ℕ) (plan : SessionPlan) (p : Prepared) (series : ℕ)
    (days : List IsoDate) (c : Calendar)
    → IsFitted p.time
    → IsIncreasing days
    → IsFreeOn plan p series (find_all c.tables.sessions) days
    → IsClear c
    → IsClear (write_each now actor plan p series days c).1
unfolding write_each
write_each-IsClear now actor plan p series [] c f later free v = v
write_each-IsClear now actor plan p series (d ∷ days) c f later free v =
    let s = session_of plan p d (some series) none in
    let c1 = (write_session now actor none s c).1 in
    After-map IsClear c1 (write_each now actor plan p series days) (λ rows. _)
      (write_each-IsClear now actor plan p series days c1 f later.1
        (subst (λ ss. IsFreeOn plan p series ss days) (sym (written_rows now actor none s c))
          (free_after now plan p series d days c f later.0 free.1))
        (write_session-IsClear now actor none s c v free.0
          (session_of-IsPlaced plan p d (some series) none f)))

flat_map-none :
    (f : IsoDate → List Conflict) (days : List IsoDate)
    → flat_map f days ≡ []
    → All (λ d. f d ≡ []) days
flat_map-none f [] h = tt
flat_map-none f (d ∷ days) h =
    let (here, rest) = append_nil (f d) (flat_map f days) h in (here, flat_map-none f days rest)
  where
    append_nil : (xs ys : List Conflict) → xs ++ ys ≡ [] → (xs ≡ []) × (ys ≡ [])
    append_nil [] ys e = (refl, e)
    append_nil (x ∷ xs) ys e = absurd (ground arith)

free_days :
    (plan : SessionPlan) (p : Prepared) (series : ℕ) (days : List IsoDate) (c : Calendar)
    → IsClear c
    → IsFitted p.time
    → All (λ d. check_conflicts c (candidate_of plan p d) ≡ []) days
    → IsFreeOn plan p series (find_all c.tables.sessions) days
free_days plan p series [] c v f h = tt
free_days plan p series (d ∷ days) c v f h =
    (free_day plan p d (some series) none c v f h.0, free_days plan p series days c v f h.1)

series_checks-quiet :
    (plan : SessionPlan) (p : Prepared) (days : List IsoDate) (c : Calendar)
    (conflicts : List Conflict)
    → series_checks true plan p days c ≡ ok conflicts
    → All (λ d. check_conflicts c (candidate_of plan p d) ≡ []) days
unfolding series_checks
series_checks-quiet plan p days c conflicts h =
    let (_, _, h1) = and_then-ok _ _ conflicts h in
    flat_map-none _ days (stop_on-quiet plan.force _ conflicts h1)

-- the rows of the series and its audit row leave the sessions as they are
series_writes-IsClear :
    (now : ℕ) (actor : Option ℕ) (plan : SessionPlan) (p : Prepared) (r : Repeat)
    (days : List IsoDate) (conflicts : List Conflict) (c : Calendar)
    → IsFitted p.time
    → IsIncreasing days
    → IsClear c
    → All (λ d. check_conflicts c (candidate_of plan p d) ≡ []) days
    → IsClear (series_writes now actor plan p r days conflicts c).1
series_writes-IsClear now none plan p r days conflicts c f later v quiet =
    let series = insert now (series_of none r p.time) c.series in
    let c1 = record c { series = series.1 } in
    After-map IsClear c1 (write_each now none plan p series.0.id days) _ (
      write_each-IsClear now none plan p series.0.id days c1 f later
        (free_days plan p series.0.id days c v f quiet) v)
series_writes-IsClear now (some a) plan p r days conflicts c f later v quiet =
    let series = insert now (series_of (some a) r p.time) c.series in
    let c1 =
      (audit_log (some a) AuditEntity.class_session_series series.0.id AuditAction.create none
        (record c { series = series.1 })).1 in
    After-map IsClear c1 (write_each now (some a) plan p series.0.id days) _ (
      write_each-IsClear now (some a) plan p series.0.id days c1 f later
        (free_days plan p series.0.id days c v f quiet) v)

prepare_series-fits :
    (dto : CreateSeries) (c : Calendar) (p : Prepared) (days : List IsoDate)
    → is_clock dto.plan.start_time ≡ true
    → prepare_series dto c ≡ ok (p, days)
    → IsFitted p.time × IsIncreasing days
unfolding prepare_series
prepare_series-fits dto c p days h e =
    let (q, settled, e1) = and_then-ok _ _ (p, days) e in
    let (ds, found, e2) = and_then-ok _ _ (p, days) e1 in
    let same = ok-injective (q, ds) (p, days) e2 in
    (
      subst (λ x. IsFitted x.0.time) same (prepare-IsFitted dto.plan c q h settled),
      subst (λ x. IsIncreasing x.1) same
          (occurrence_dates_of-elem (normalized_repeat dto.repeat) ds found).1,
    )

pub create_series-IsClear :
    (now : ℕ) (actor : Option ℕ) (dto : CreateSeries) (c : Calendar)
    → IsClear c
    → is_clock dto.plan.start_time ≡ true
    → IsClear (create_series true now actor dto c).1
unfolding create_series
create_series-IsClear now actor dto c v h =
    After-read IsClear c (prepare_series dto)
      (λ (p, days). transaction (create_series_locked true now actor dto p days)) v
      λ (p, days) e.
        let (f, later) = prepare_series-fits dto c p days h e in
        After-transaction IsClear c (create_series_locked true now actor dto p days) v (
          After-read IsClear c (series_checks true dto.plan p days)
            (series_writes now actor dto.plan p (normalized_repeat dto.repeat) days) v
            λ conflicts e1.
              series_writes-IsClear now actor dto.plan p (normalized_repeat dto.repeat) days
                conflicts c f later v (series_checks-quiet dto.plan p days c conflicts e1))
