-- ===== src/Planning/Apart/Creation.antt =====
-- Creation keeps the calendar free of clashes where conflicts cannot be forced.
use taco_backend.Common.{
  All-implies, ℕ, ◌+◌, ◌≤◌, ◌≡◌, refl, sym, ap, ◌∙◌, subst, Bool, true, false, not, ◌&&◌, Option,
  none, some, List, [], ◌∷◌, All, arith, is_empty, inl, inr, map_option, Option-cases, map,
}
use Prim.Native.String.{String}
use taco_backend.Common.Int.{ℤ, pos}
use taco_backend.Exec.{
  Result, ok, err, After-read, After-transaction, transaction, ok-injective, guarded, and_then-ok,
}
use taco_backend.Store.{Row, find_all, insert}
use taco_backend.Store.Active.{find_all-insert}
use taco_backend.Time.{Hhmm, hhmm_to_min, IsoDate, is_clock}
use taco_backend.Schedule.Entity.{ClassSession}
use taco_backend.Schedule.SessionTime.{TimeError, NormalizedSessionTime, normalize_session_time}
use taco_backend.Schedule.SessionTime.Laws.{normalize_session_time-bounds}
use taco_backend.Schedule.Conflicts.{AvailabilityBlock, Conflict, session_end_min, cand_end}
use taco_backend.Schedule.Conflicts.Overlap.{
  IsTimed, IsPlanned, is_clock_or_none, session_end_min-normalized,
}
use taco_backend.Schedule.Conflicts.Clear.{detect_conflicts-clear, is_double_booked}
use taco_backend.Planning.{Calendar, capacity_of}
use taco_backend.Planning.Validation.{conflicts_against, check_conflicts, effective_student_ids}
use taco_backend.Planning.Creation.{
  SessionPlan, CreateSession, Prepared, candidate_of, session_of, stop_on, create_writes,
  write_session, can_force_schedule_conflicts, create_checks, timed, create, create_locked, prepare,
}
use taco_backend.Store.WellFormed.{insert-IsWellFormed}
use taco_backend.Planning.Apart.{
  IsPlaced, clash, same_id_comm, IsApart, IsClear, All-append_one, IsApart-append_one,
}

-- a time that the time policy gave for a start at a time of the day
abbrev pub IsFitted : NormalizedSessionTime → Type 0
IsFitted t =
    (is_clock t.start_time ≡ true)
    × (is_clock_or_none t.end_time ≡ true)
    × (t.duration_minutes ≤ 480)
    × (session_end_min t.start_time t.end_time t.duration_minutes
        ≡ hhmm_to_min t.start_time + t.duration_minutes)

pub timed-ok :
    (r : Result TimeError NormalizedSessionTime) (t : NormalizedSessionTime)
    → timed r ≡ ok t
    → r ≡ ok t
timed-ok (ok u) t h = ap ok (ok-injective u t h)
timed-ok (err e) t h = absurd (ground arith)

pub normalized-IsFitted :
    (start : Hhmm) (end : Option Hhmm) (duration default : Option ℤ) (t : NormalizedSessionTime)
    → is_clock start ≡ true
    → timed (normalize_session_time start end duration default) ≡ ok t
    → IsFitted t
normalized-IsFitted start end duration default t h e =
    let fits = timed-ok (normalize_session_time start end duration default) t e in
    let (same, (lo, hi), stored) =
      normalize_session_time-bounds start end duration default t fits in
    let ends = session_end_min-normalized start end duration default t fits in
    (
      subst (λ u. is_clock u ≡ true) (sym same) h,
      ground (arith, stored),
      hi,
      ends ∙ ap (λ u. hhmm_to_min u + t.duration_minutes) (sym same),
    )

unclash :
    (plan : SessionPlan) (p : Prepared) (day : IsoDate) (o o' : Option ℕ)
    (of : Option (Row ClassSession → List ℕ)) (s : Row ClassSession)
    → IsFitted p.time
    → is_double_booked of (candidate_of plan p day) s ≡ false
    → clash s.val (session_of plan p day o o') ≡ false
unfolding cand_end session_end_min
unclash plan p day o o' of s f h = elim (Option-cases s.val.start_time) [
  | inl never ↦ ground arith
  | inr (u, e) ↦ ground (
    arith,
    e,
    f.3,
    same_id_comm p.instructor s.val.instructor_id,
    same_id_comm plan.room_id s.val.room_id,
  )
]

pub session_of-IsPlaced :
    (plan : SessionPlan) (p : Prepared) (day : IsoDate) (o o' : Option ℕ)
    → IsFitted p.time
    → IsPlaced (session_of plan p day o o')
session_of-IsPlaced plan p day o o' f = ((f.0, f.1, ground arith), f.3)

abbrev inserted : ℕ → ClassSession → Calendar → Calendar
inserted now s c = record c {
  tables = record c.tables { sessions = (insert now s c.tables.sessions).1 };
}

pub insert-val :
    (now : ℕ) (s : ClassSession) (c : Calendar) → (insert now s c.tables.sessions).0.val ≡ s
unfolding insert
insert-val now s c = refl

inserted-IsClear :
    (now : ℕ) (s : ClassSession) (c : Calendar)
    → IsClear c
    → All (λ t. clash t.val s ≡ false) (find_all c.tables.sessions)
    → IsPlaced s
    → IsClear (inserted now s c)
inserted-IsClear now s c v free clock =
    let row = (insert now s c.tables.sessions).0 in
    let rows = sym (find_all-insert now s c.tables.sessions) in
    let val = sym (insert-val now s c) in
    record {
      sessions_wf = insert-IsWellFormed now s c.tables.sessions v.sessions_wf;
      apart = subst IsApart rows (
          IsApart-append_one (find_all c.tables.sessions) row v.apart
            (subst (λ x. All (λ t. clash t.val x ≡ false) (find_all c.tables.sessions)) val free));
      placed = subst (All (λ t. IsPlaced t.val)) rows (
          All-append_one (λ t. IsPlaced t.val) (find_all c.tables.sessions) row v.placed
            (subst IsPlaced val clock));
    }

-- a session that clashes with none before it may be written
pub write_session-IsClear :
    (now : ℕ) (actor : Option ℕ) (why : Option String) (s : ClassSession) (c : Calendar)
    → IsClear c
    → All (λ t. clash t.val s ≡ false) (find_all c.tables.sessions)
    → IsPlaced s
    → IsClear (write_session now actor why s c).1
write_session-IsClear now none why s c v free clock = inserted-IsClear now s c v free clock
write_session-IsClear now (some a) why s c v free clock = inserted-IsClear now s c v free clock

quiet-nil :
    (b : Bool) (conflicts : List Conflict)
    → (not (is_empty conflicts) && not (can_force_schedule_conflicts true b)) ≡ false
    → conflicts ≡ []
quiet-nil b [] h = refl
quiet-nil true (x ∷ xs) h = absurd (ground arith)
quiet-nil false (x ∷ xs) h = absurd (ground arith)

candidate_of-IsPlanned :
    (plan : SessionPlan) (p : Prepared) (day : IsoDate)
    → IsFitted p.time
    → IsPlanned (candidate_of plan p day)
candidate_of-IsPlanned plan p day f = (f.0, refl, ground arith)

-- a day without conflicts is free of clashes
pub free_day :
    (plan : SessionPlan) (p : Prepared) (day : IsoDate) (o o' : Option ℕ) (c : Calendar)
    → IsClear c
    → IsFitted p.time
    → check_conflicts c (candidate_of plan p day) ≡ []
    → All (λ t. clash t.val (session_of plan p day o o') ≡ false) (find_all c.tables.sessions)
unfolding check_conflicts conflicts_against
free_day plan p day o o' c v f h =
    let of = some (effective_student_ids c) in
    All-implies _ _ (find_all c.tables.sessions) (λ s. unclash plan p day o o' of s f)
      (detect_conflicts-clear (candidate_of plan p day) (find_all c.tables.sessions)
        (map (λ (b : Row AvailabilityBlock). b.val) (find_all c.blocks)) of
        (some (capacity_of c.rooms)) (candidate_of-IsPlanned plan p day f)
        (All-implies (λ t. IsPlaced t.val) (λ t. IsTimed t.val) (find_all c.tables.sessions)
          (λ t h. h.0) v.placed)
        h)

pub stop_on-quiet :
    (b : Bool) (conflicts answer : List Conflict)
    → stop_on true b conflicts ≡ ok answer
    → conflicts ≡ []
stop_on-quiet b conflicts answer h = quiet-nil b conflicts (guarded _ _ _ answer h).0

-- the checks let through only what meets no conflict
create_checks-quiet :
    (dto : CreateSession) (p : Prepared) (c : Calendar) (conflicts : List Conflict)
    → create_checks true dto p c ≡ ok conflicts
    → check_conflicts c (candidate_of dto.plan p dto.session_date) ≡ []
unfolding create_checks
create_checks-quiet dto p c conflicts h =
    let (_, _, h1) = and_then-ok _ _ conflicts h in
    let (_, _, h2) = and_then-ok _ _ conflicts h1 in
    let (_, _, h3) = and_then-ok _ _ conflicts h2 in stop_on-quiet dto.plan.force _ conflicts h3

pub prepare-IsFitted :
    (plan : SessionPlan) (c : Calendar) (p : Prepared)
    → is_clock plan.start_time ≡ true
    → prepare plan c ≡ ok p
    → IsFitted p.time
unfolding prepare
prepare-IsFitted plan c p h e =
    let (_, _, e1) = and_then-ok _ _ p e in
    let (_, _, e2) = and_then-ok _ _ p e1 in
    let (t, fits, e3) = and_then-ok _ _ p e2 in
    subst (λ q. IsFitted q.time) (ok-injective _ p e3)
      (normalized-IsFitted plan.start_time plan.end_time (map_option pos plan.duration_minutes) none
        t h fits)

create_locked-IsClear :
    (now : ℕ) (actor : Option ℕ) (why : Option String) (dto : CreateSession) (p : Prepared)
    (c : Calendar)
    → IsClear c
    → IsFitted p.time
    → IsClear (create_locked true now actor why dto p c).1
create_locked-IsClear now actor why dto p c v f =
    After-read IsClear c (create_checks true dto p) (create_writes true now actor why dto p) v
      λ conflicts e.
        write_session-IsClear now actor why
          (session_of dto.plan p dto.session_date dto.series_id dto.makeup_for_session_id) c v
          (free_day dto.plan p dto.session_date dto.series_id dto.makeup_for_session_id c v f
            (create_checks-quiet dto p c conflicts e))
          (session_of-IsPlaced dto.plan p dto.session_date dto.series_id dto.makeup_for_session_id
            f)

pub create-IsClear :
    (now : ℕ) (actor : Option ℕ) (why : Option String) (dto : CreateSession) (c : Calendar)
    → IsClear c
    → is_clock dto.plan.start_time ≡ true
    → IsClear (create true now actor why dto c).1
unfolding create
create-IsClear now actor why dto c v h =
    After-read IsClear c (prepare dto.plan)
      (λ p. transaction (create_locked true now actor why dto p)) v
      λ p e.
        After-transaction IsClear c (create_locked true now actor why dto p) v
          (create_locked-IsClear now actor why dto p c v (prepare-IsFitted dto.plan c p h e))
