-- ===== src/Planning/Apart/Update.antt =====
-- Editing one session keeps the sessions apart where conflicts cannot be forced.
pub mod Edits
pub mod Free
pub mod Attendance
pub mod Commands
use taco_backend.Common.{
  ℕ, ◌≤◌, ◌+◌, ◌≡◌, refl, sym, ap, ◌∙◌, subst, Bool, true, false, not, ◌&&◌, ◌||◌, Option, none,
  some, List, [], ◌∷◌, ◌==◌, All, All-implies, arith, is_id, is_empty, is_some, is_none,
  if◌then◌else◌, map, map_option, get_or, Option-cases, Bool-cases, inl, inr, elem, filter,
  flat_map,
}
use taco_backend.Common.Int.{pos}
use taco_backend.Exec.{Result, ok, err, ok-injective, and_then-ok, refuse_if-ok, guarded}
use taco_backend.Store.{Row, Table, find_by_id, find_all, find_by, is_active}
use taco_backend.Time.{Hhmm, IsoDate, hhmm_to_min, is_clock}
use taco_backend.Schedule.Entity.{ClassSession, SessionStatus, is_called_off}
use taco_backend.Schedule.SeriesScope.{SeriesScope, this, select_series_scope}
use taco_backend.Schedule.SessionTime.{midnight}
use taco_backend.Schedule.Participants.{ResolveIds}
use taco_backend.Schedule.Conflicts.{
  AvailabilityBlock, Candidate, Conflict, same_id, session_end_min, cand_end,
}
use taco_backend.Schedule.Conflicts.Overlap.{IsTimed, IsPlanned, is_clock_or_none}
use taco_backend.Schedule.Conflicts.Clear.{detect_conflicts-clear, is_double_booked}
use taco_backend.Schedule.Accounting.Projections.{Impact}
use taco_backend.Planning.{Calendar, capacity_of, found-ok, session_not_found}
use taco_backend.Planning.Validation.{conflicts_against, effective_student_ids}
use taco_backend.Planning.Context.{SessionAccountingContext, load_fresh}
use taco_backend.Planning.Creation.{can_force_schedule_conflicts}
use taco_backend.Planning.Removal.{companions_of}
use taco_backend.Planning.Update.{
  UpdateSession, InternalOptions, AttendanceCommand, set, clear, MergedFields, Target, apply_fields,
  merge_fields, with_command, member_targets, day_delta_of, start_delta_of, moved,
  apply_temporal_policy, apply_temporal_policies, with_hold, complete_attendance,
}
use taco_backend.Planning.Update.Checks.{
  targets_of, first_of, Accounted, settled_targets, accounting_allowed, update_candidate, others,
  update_conflicts, is_stopped, update_checks, target_ids, is_mixed, completes, changed_ids,
}
use taco_backend.Planning.Apart.{clash, same_id_comm, IsClear, IsPlaced}
use taco_backend.Planning.Apart.Creation.{IsFitted, normalized-IsFitted}
use taco_backend.Planning.Apart.Writes.{IsDisjoint-IsPlaced}

-- when, where and with whom a session with those fields takes place
pub record Slot : Type 0 where
  pub session_date : IsoDate
  pub start_time : Hhmm
  pub end_time : Option Hhmm
  pub duration_minutes : ℕ
  pub instructor_id : Option ℕ
  pub room_id : Option ℕ

abbrev pub slot_of : MergedFields → Slot
slot_of f = record {
  session_date = f.session_date;
  start_time = f.start_time;
  end_time = f.end_time;
  duration_minutes = f.duration_minutes;
  instructor_id = f.instructor_id;
  room_id = f.room_id;
}

abbrev pub IsFittedSlot : Slot → Type 0
IsFittedSlot f = IsFitted (record {
  start_time = f.start_time;
  duration_minutes = f.duration_minutes;
  end_time = f.end_time;
})

pub apply_fields-IsPlaced :
    (f : MergedFields) (s : ClassSession) → IsFittedSlot (slot_of f) → IsPlaced (apply_fields f s)
apply_fields-IsPlaced f s h = ((h.0, h.1, ground (arith, h.2)), h.3)

start_is_clock :
    (dto : UpdateSession) (s : ClassSession)
    → is_clock_or_none dto.start_time ≡ true
    → IsPlaced s
    → is_clock (get_or dto.start_time (get_or s.start_time midnight)) ≡ true
start_is_clock dto s h p = elim (Option-cases dto.start_time) [
  | inl e ↦ elim (Option-cases s.start_time) [
    | inl e' ↦ rw (e, e') refl
    | inr (t, e') ↦ ground (arith, e, e', p.0.0)
  ]
  | inr (t, e) ↦ ground (arith, e, h)
]

pub merge_fields-IsFitted :
    (c : Calendar) (s : ClassSession) (dto : UpdateSession) (f : MergedFields)
    → is_clock_or_none dto.start_time ≡ true
    → IsPlaced s
    → merge_fields c s dto ≡ ok f
    → IsFittedSlot (slot_of f)
unfolding merge_fields
merge_fields-IsFitted c s dto f h p e =
    let (t, fits, same) = and_then-ok _ _ f e in
    subst (λ x. IsFittedSlot (slot_of x)) (ok-injective _ f same)
      (normalized-IsFitted _ dto.end_time (map_option pos dto.duration_minutes)
        (some (pos s.duration_minutes)) t (start_is_clock dto s h p) fits)

pub with_command-slot :
    (o : Option AttendanceCommand) (status : SessionStatus) (f : MergedFields)
    → slot_of (with_command o status f) ≡ slot_of f
with_command-slot none status f = refl
with_command-slot (some (set a)) status f = refl
with_command-slot (some clear) status f = refl

with_hold-slot :
    (o : Option (Option (List ℕ))) (f : MergedFields) → slot_of (with_hold o f) ≡ slot_of f
with_hold-slot none f = refl
with_hold-slot (some students) f = refl

pub complete_attendance-slot :
    (resolve : ResolveIds) (now : ℕ) (context : SessionAccountingContext) (b : Bool) (t : Target)
    → (slot_of (complete_attendance resolve now context b t).fields ≡ slot_of t.fields)
      × ((complete_attendance resolve now context b t).before ≡ t.before)
unfolding complete_attendance
complete_attendance-slot resolve now context b t = (with_hold-slot _ t.fields, refl)

moved-slot :
    (mixed : Bool) (t u : Target) (b moves : Bool)
    → (if moves then moved mixed t else ok (t, false)) ≡ ok (u, b)
    → (slot_of u.fields ≡ slot_of t.fields) × (u.before ≡ t.before)
moved-slot mixed t u b true h =
    let (_, _, h1) = and_then-ok _ _ (u, b) h in
    let (_, _, h2) = and_then-ok _ _ (u, b) h1 in
    let same = ok-injective _ (u, b) h2 in
    (ap (λ x. slot_of x.0.fields) (sym same), ap (λ x. x.0.before) (sym same))
moved-slot mixed t u b false h =
    let same = ok-injective (t, false) (u, b) h in
    (ap (λ x. slot_of x.0.fields) (sym same), ap (λ x. x.0.before) (sym same))

apply_temporal_policy-slot :
    (mixed : Bool) (t u : Target) (b : Bool)
    → apply_temporal_policy mixed t ≡ ok (u, b)
    → (slot_of u.fields ≡ slot_of t.fields) × (u.before ≡ t.before)
unfolding apply_temporal_policy
apply_temporal_policy-slot mixed t u b h = moved-slot mixed t u b _ h

-- the session alone has no companions
pub companions_of-this : (c : Calendar) (s : Row ClassSession) → companions_of c s this ≡ []
unfolding companions_of select_series_scope
companions_of-this c s = elim (Option-cases s.val.series_id) [
  | inl e ↦ rw e refl
  | inr (i, e) ↦ rw e refl
]

-- what the checks give for a session alone: that session, in a slot that fits
unfoldable pub IsAlone : Row ClassSession → Target → List Target → Type 0
IsAlone cur t ts = (t.before ≡ cur) × (ts ≡ []) × IsFittedSlot (slot_of t.fields)

pub targets_of-this :
    (dto : UpdateSession) (opts : InternalOptions) (c : Calendar) (cur : Row ClassSession)
    (t : Target) (ts : List Target)
    → dto.scope ≡ this
    → is_clock_or_none dto.start_time ≡ true
    → IsPlaced cur.val
    → targets_of dto opts c cur ≡ ok (t, ts)
    → IsAlone cur t ts
unfolding targets_of member_targets IsAlone
targets_of-this dto opts c cur t ts alone clock p h =
    let (merged, merges, h1) = and_then-ok _ _ (t, ts) h in
    let (_, _, h2) = and_then-ok _ _ (t, ts) h1 in
    let (us, members, h3) = and_then-ok _ _ (t, ts) h2 in
    let same = ok-injective _ (t, ts) h3 in
    let primary = with_command opts.command cur.val.status merged in
    let none_else : us ≡ [] = ok-injective us [] (
      sym members
      ∙ ap (member_targets primary (day_delta_of cur.val primary) (start_delta_of cur.val primary))
          (ap (companions_of c cur) alone ∙ companions_of-this c cur)) in
    (
      ap (λ x. x.0.before) (sym same),
      ap (λ x. x.1) (sym same) ∙ none_else,
      subst IsFittedSlot
          (sym (with_command-slot opts.command cur.val.status merged)
            ∙ ap (λ x. slot_of x.0.fields) same)
          (merge_fields-IsFitted c cur.val dto merged clock p merges),
    )

pub settled_targets-IsAlone :
    (resolve : ResolveIds) (now : ℕ) (dto : UpdateSession) (opts : InternalOptions)
    (context : SessionAccountingContext) (cur : Row ClassSession) (t u : Target)
    (ts us : List Target) (reset : List ℕ)
    → settled_targets resolve now dto opts context t ts ≡ ok (u, us, reset)
    → IsAlone cur t ts
    → IsAlone cur u us
unfolding settled_targets apply_temporal_policies IsAlone
settled_targets-IsAlone resolve now dto opts context cur t u ts us reset h alone =
    let ((t', shifted), moves, h1) = and_then-ok _ _ (u, us, reset) h in
    let (vs, others_move, h2) = and_then-ok _ _ (u, us, reset) h1 in
    let same = ok-injective _ (u, us, reset) h2 in
    let (slot, before) = apply_temporal_policy-slot (is_mixed dto opts) t t' shifted moves in
    let (slot', before') =
      complete_attendance-slot resolve now context
        (completes dto opts (changed_ids ((t', shifted) ∷ vs))) t' in
    let none_else : vs ≡ [] =
      ok-injective vs []
        (sym others_move ∙ ap (apply_temporal_policies (is_mixed dto opts)) alone.1) in
    (
      ap (λ x. x.0.before) (sym same) ∙ (before' ∙ (before ∙ alone.0)),
      ap (λ x. x.1) (sym same) ∙ ap first_of none_else,
      subst IsFittedSlot (sym slot ∙ (sym slot' ∙ ap (λ x. slot_of x.0.fields) same)) alone.2,
    )
