-- ===== src/Planning/Apart/Assignment.antt =====
-- Assigning another instructor, or none, keeps the sessions apart.
use taco_backend.Common.{
  ℕ, ◌≡◌, refl, ap, ◌∙◌, subst, Bool, true, false, not, Option, none, some, List, [], ◌∷◌, ◌==◌,
  All, All-implies, arith, is_empty, map, Option-cases, inl, inr,
}
use taco_backend.Exec.{
  ok, After-read, After-transaction, After-bind, transaction, ok-injective, and_then-ok,
  refuse_if-ok,
}
use taco_backend.Store.{Row, Table, find_by_id, find_all, update}
use taco_backend.Store.Laws.{find_row_id}
use taco_backend.Time.{Hhmm}
use taco_backend.Schedule.Entity.{ClassSession}
use taco_backend.Schedule.Participants.{ResolveIds}
use taco_backend.Schedule.Conflicts.{AvailabilityBlock, Conflict, cand_end}
use taco_backend.Schedule.Conflicts.Overlap.{IsTimed, IsPlanned, is_clock_or_none}
use taco_backend.Schedule.Conflicts.Clear.{detect_conflicts-clear, is_double_booked}
use taco_backend.Planning.{
  Calendar, capacity_of, found, found-ok, session_not_found, start_missing, changed_meanwhile,
}
use taco_backend.Planning.Validation.{conflicts_against, check_conflicts, effective_student_ids}
use taco_backend.Planning.Context.{SessionAccountingContext, load_fresh}
use taco_backend.Planning.Assignment.{
  AssignInstructor, assignment_candidate, instructor_allowed, with_instructor, set_default,
  update_session, assign_checks, assign_locked, assign_writes, assigned_answer, log_assigned,
  finish_assignment, update_instructor_assignment,
}
use taco_backend.Planning.Apart.{clash, same_id_comm, IsClear, IsPlaced}
use taco_backend.Planning.Apart.Writes.{
  update-IsDisjoint, IsDisjoint-IsPlaced, IsDisjoint-elsewhere,
}
use taco_backend.Planning.Frame.{After-set_default}
use taco_backend.Planning.Apart.{IsClear-IsFramed}

-- a free instructor clashes with no other session
unclash :
    (c : Calendar) (s t : Row ClassSession) (instructor : ℕ) (start : Hhmm)
    (of : Option (Row ClassSession → List ℕ))
    → s.val.start_time ≡ some start
    → (t.id == s.id) ≡ false
    → is_double_booked of (assignment_candidate c s instructor start) t ≡ false
    → clash t.val (with_instructor (some instructor) s.val) ≡ false
unfolding cand_end
unclash c s t instructor start of e n h = elim (Option-cases t.val.start_time) [
  | inl never ↦ ground arith
  | inr (u, e') ↦ ground (
    arith,
    e,
    e',
    same_id_comm (some instructor) t.val.instructor_id,
    same_id_comm s.val.room_id t.val.room_id,
  )
]

empty-nil : (conflicts : List Conflict) → not (is_empty conflicts) ≡ false → conflicts ≡ []
empty-nil [] h = refl
empty-nil (x ∷ xs) h = absurd (ground arith)

pub find_by_id-id :
    {R : Type 0} (i : ℕ) (t : Table R) (s : Row R) → find_by_id i t ≡ some s → s.id ≡ i
find_by_id-id i t s e = find_row_id i t.rows {r = s} (ground arith)

held-free :
    (i instructor : ℕ) (c : Calendar) (s : Row ClassSession) (start : Hhmm)
    → IsClear c
    → find_by_id i c.tables.sessions ≡ some s
    → s.val.start_time ≡ some start
    → check_conflicts c (assignment_candidate c s instructor start) ≡ []
    → All
        (λ t. (t.id == i) ≡ false → clash t.val (with_instructor (some instructor) s.val) ≡ false)
        (find_all c.tables.sessions)
unfolding check_conflicts conflicts_against
held-free i instructor c s start v there e h =
    let of = some (effective_student_ids c) in
    let candidate = assignment_candidate c s instructor start in
    let (timed, _) = IsDisjoint-IsPlaced i c.tables.sessions s v there in
    let planned : IsPlanned candidate =
      (subst (λ o. is_clock_or_none o ≡ true) e timed.0, timed.1, timed.2) in
    All-implies (λ t. is_double_booked of candidate t ≡ false)
      (λ t. (t.id == i) ≡ false → clash t.val (with_instructor (some instructor) s.val) ≡ false)
      (find_all c.tables.sessions)
      (λ t free n.
        unclash c s t instructor start of e
          (ap (λ j. t.id == j) (find_by_id-id i c.tables.sessions s there) ∙ n) free)
      (detect_conflicts-clear candidate (find_all c.tables.sessions)
        (map (λ (b : Row AvailabilityBlock). b.val) (find_all c.blocks)) of
        (some (capacity_of c.rooms)) planned
        (All-implies (λ t. IsPlaced t.val) (λ t. IsTimed t.val) (find_all c.tables.sessions)
          (λ t h. h.0) v.placed)
        h)

-- the session after the checks: it is there, and it is free with the new instructor
assign_checks-ok :
    (resolve : ResolveIds) (course i : ℕ) (dto : AssignInstructor) (c : Calendar)
    (s : Row ClassSession)
    → assign_checks resolve course i dto c ≡ ok s
    → (find_by_id i c.tables.sessions ≡ some s)
      × (instructor_allowed
            (load_fresh (i ∷ []) c.tables)
            c
            s
            dto.set_course_default
            dto.instructor_id
          ≡ ok tt)
unfolding assign_checks
assign_checks-ok resolve course i dto c s h =
    let context = load_fresh (i ∷ []) c.tables in
    let (s', there, h1) = and_then-ok _ _ s h in
    let (_, _, h2) = and_then-ok _ _ s h1 in
    let (_, _, h3) = and_then-ok _ _ s h2 in
    let (_, _, h4) = and_then-ok _ _ s h3 in
    let (_, _, h5) = and_then-ok _ _ s h4 in
    let (_, _, h6) = and_then-ok _ _ s h5 in
    let (_, allowed, h7) = and_then-ok _ _ s h6 in
    let same = ok-injective s' s h7 in
    (
      found-ok (find_by_id i c.tables.sessions) session_not_found s' there ∙ ap some same,
      subst (λ x. instructor_allowed context c x dto.set_course_default dto.instructor_id ≡ ok tt)
          same allowed,
    )

-- a session with another instructor, or none, clashes with no other session
assigned-free :
    (context : SessionAccountingContext) (i : ℕ) (o : Option ℕ) (b : Bool) (c : Calendar)
    (s : Row ClassSession)
    → IsClear c
    → find_by_id i c.tables.sessions ≡ some s
    → instructor_allowed context c s b o ≡ ok tt
    → All
        (λ t. (t.id == i) ≡ false → clash t.val (with_instructor o s.val) ≡ false)
        (find_all c.tables.sessions)
assigned-free context i none b c s v there h =
    All-implies (λ t. (t.id == i) ≡ false → clash t.val s.val ≡ false)
      (λ t. (t.id == i) ≡ false → clash t.val (with_instructor none s.val) ≡ false)
      (find_all c.tables.sessions)
      (λ t free n. ground (arith, free n, same_id_comm t.val.instructor_id none))
      (IsDisjoint-elsewhere i c.tables.sessions s v there)
assigned-free context i (some instructor) b c s v there h =
    let (_, _, h1) = and_then-ok _ _ tt h in
    let (start, starts, h2) = and_then-ok _ _ tt h1 in
    let has_start = found-ok s.val.start_time start_missing start starts in
    held-free i instructor c s start v there has_start (empty-nil _ (refuse_if-ok _ _ tt h2))

assign_writes-IsClear :
    (now actor i : ℕ) (dto : AssignInstructor) (s : Row ClassSession) (c : Calendar)
    → IsClear c
    → find_by_id i c.tables.sessions ≡ some s
    → All
        (λ t. (t.id == i) ≡ false → clash t.val (with_instructor dto.instructor_id s.val) ≡ false)
        (find_all c.tables.sessions)
    → IsClear (assign_writes now actor i dto s c).1
assign_writes-IsClear now actor i dto s c v there free =
    let f = with_instructor dto.instructor_id in
    let c1 = (update_session now i f c).1 in
    let v1 =
      update-IsDisjoint now i c.tables.sessions f s there
        (IsDisjoint-IsPlaced i c.tables.sessions s v there) free v in
    After-read IsClear c1 (λ _. found (update now i f c.tables.sessions).0 changed_meanwhile)
      (finish_assignment now actor i dto s) v1
      λ row _.
        After-bind IsClear c1 (set_default now (some actor) dto s.val.course_id)
          (λ _. log_assigned actor i dto (assigned_answer dto s row))
          (After-set_default IsClear IsClear-IsFramed now (some actor) dto s.val.course_id c1 v1)
          λ _ v2. v2

-- `updateInstructorAssignment` keeps the sessions apart.
pub update_instructor_assignment-IsClear :
    (resolve : ResolveIds) (now : ℕ) (actor : Option ℕ) (i : ℕ) (dto : AssignInstructor)
    (c : Calendar)
    → IsClear c
    → IsClear (update_instructor_assignment resolve now actor i dto c).1
unfolding update_instructor_assignment
update_instructor_assignment-IsClear resolve now none i dto c v = v
update_instructor_assignment-IsClear resolve now (some actor) i dto c v =
    After-read IsClear c (λ c. found (find_by_id i c.tables.sessions) session_not_found)
      (λ pre. transaction (assign_locked resolve now actor i dto pre)) v
      λ pre _. After-transaction IsClear c (assign_locked resolve now actor i dto pre) v (
        After-read IsClear c (assign_checks resolve pre.val.course_id i dto)
          (assign_writes now actor i dto) v
          λ s e.
            let (there, allowed) = assign_checks-ok resolve pre.val.course_id i dto c s e in
            assign_writes-IsClear now actor i dto s c v there (
              assigned-free (load_fresh (i ∷ []) c.tables) i dto.instructor_id
                dto.set_course_default c s v there allowed))
