-- ===== src/Planning/Apart/Update/Attendance.antt =====
-- A command on the instructor's attendance leaves a session where it is, and among the sessions that take
-- place, or not, as before.
use Prim.Native.String.{String}
use taco_backend.Common.{
  ℕ, ◌≡◌, refl, sym, ap, ◌∙◌, subst, Bool, true, false, not, ◌&&◌, ◌||◌, Option, none, some, List,
  [], ◌∷◌, arith, is_some, if◌then◌else◌, Option-cases, Bool-cases, inl, inr, map,
}
use taco_backend.Exec.{ok, ok-injective, and_then-ok}
use taco_backend.Store.{Row, find_by_id}
use taco_backend.Time.{Hhmm, hhmm_to_min}
use taco_backend.Schedule.Entity.{ClassSession, InstructorAttendance, is_called_off, is_scheduled}
use taco_backend.Schedule.Participants.{ResolveIds, CohortIndex}
use taco_backend.Schedule.Conflicts.{same_id}
use taco_backend.Schedule.TemporalTransition.{
  has_session_temporal_change, attendance_completion_hold_patch,
}
use taco_backend.Payouts.Rows.{Attendance}
use taco_backend.Schedule.Conflicts.Overlap.{spans_meet}
use taco_backend.Planning.{Calendar, found-ok, session_not_found}
use taco_backend.Planning.Context.{SessionAccountingContext, load_fresh, attendance_for}
use taco_backend.Planning.Update.{
  AttendanceCommand, set, clear, MergedFields, Target, apply_fields, merge_fields, with_command,
  member_targets, day_delta_of, start_delta_of, moved, apply_temporal_policy,
  apply_temporal_policies, with_hold, complete_attendance,
}
use taco_backend.Planning.Update.Checks.{
  targets_of, settled_targets, planned_targets, target_ids, completes, changed_ids, first_of,
}
use taco_backend.Planning.Update.Commands.{attendance_request, attendance_options}
use taco_backend.Planning.Apart.{clash, start_of, end_of, FitsFrom, IsClear, IsPlaced}
use taco_backend.Planning.Apart.Writes.{IsDisjoint-IsPlaced}
use taco_backend.Planning.Apart.Update.{
  slot_of, IsFittedSlot, complete_attendance-slot, merge_fields-IsFitted, companions_of-this,
}

-- the same people and room, and active only if the session was
pub record IsQuiet (s : ClassSession) (f : MergedFields) : Type 0 where
  pub fits : IsFittedSlot (slot_of f)
  pub instructor : f.instructor_id ≡ s.instructor_id
  pub room : f.room_id ≡ s.room_id
  pub activity : (is_called_off s.status && not (is_called_off f.status)) ≡ false

-- and at the same time
abbrev pub IsSteady : ClassSession → MergedFields → Type 0
IsSteady s f = IsQuiet s f × (has_session_temporal_change s (apply_fields f s) ≡ false)

same_moment :
    (s : ClassSession) (f : MergedFields) (t : Hhmm)
    → s.start_time ≡ some t
    → has_session_temporal_change s (apply_fields f s) ≡ false
    → (s.session_date ≡ f.session_date)
      × (hhmm_to_min t ≡ hhmm_to_min f.start_time)
      × (s.duration_minutes ≡ f.duration_minutes)
unfolding has_session_temporal_change
same_moment s f t e h = (ground arith, ground arith, ground arith)

no_start :
    (s : ClassSession) (f : MergedFields)
    → s.start_time ≡ none
    → has_session_temporal_change s (apply_fields f s) ≡ true
unfolding has_session_temporal_change
no_start s f e = ground arith

still_apart :
    (au os os' m r : Bool)
    → (os && not os') ≡ false
    → (not au && (not os && (m && r))) ≡ false
    → (not au && (not os' && (m && r))) ≡ false
still_apart true os os' m r h h' = refl
still_apart false true true m r h h' = refl
still_apart false true false m r h h' = absurd (ground arith)
still_apart false false true m r h h' = refl
still_apart false false false m r h h' = h'

-- whether a session clashes with one of that start and end, instructor and room that is active or not
abbrev clash_at : ClassSession → Option Hhmm → Bool → ℕ → ℕ → Option ℕ → Option ℕ → Bool
clash_at u none off from to i r = false
clash_at u (some w) off from to i r =
    not (is_called_off u.status)
    && (not off
        && (spans_meet (start_of u w) (end_of u w) from to
            && (same_id u.instructor_id i || same_id u.room_id r)))

clash-at :
    (u s : ClassSession) (t : Hhmm)
    → s.start_time ≡ some t
    → clash u s
      ≡ clash_at u u.start_time
          (is_called_off s.status)
          (start_of s t)
          (end_of s t)
          s.instructor_id
          s.room_id
clash-at u s t e = elim (Option-cases u.start_time) [
  | inl e' ↦ rw (e, e') (ground arith)
  | inr (w, e') ↦ rw (e, e') refl
]

clash_at-active :
    (u : ClassSession) (o : Option Hhmm) (off off' : Bool) (from to : ℕ) (i r : Option ℕ)
    → (off && not off') ≡ false
    → clash_at u o off from to i r ≡ false
    → clash_at u o off' from to i r ≡ false
clash_at-active u none off off' from to i r h h' = refl
clash_at-active u (some w) off off' from to i r h h' =
    still_apart (is_called_off u.status) off off' (spans_meet (start_of u w) (end_of u w) from to)
      (same_id u.instructor_id i || same_id u.room_id r) h h'

-- what does not clash with a session does not clash with it after such a change
pub steady-clash :
    (s u : ClassSession) (f : MergedFields)
    → IsPlaced s
    → IsSteady s f
    → clash u s ≡ false
    → clash u (apply_fields f s) ≡ false
steady-clash s u f p (q, same) h = elim (Option-cases s.start_time) [
  | inl e ↦ absurd (ground (arith, no_start s f e))
  | inr (t, e) ↦
      let (day, start, length) = same_moment s f t e same in
      let fits = subst (λ o. FitsFrom s o) e p.1 in
      let ends : end_of s t ≡ end_of (apply_fields f s) f.start_time =
        omega (arith, day, start, length, fits, q.fits.3) in
      let starts : start_of s t ≡ start_of (apply_fields f s) f.start_time =
        omega (arith, day, start) in
      let off' = is_called_off f.status in
      let before = sym (clash-at u s t e) ∙ h in
      let active =
        clash_at-active u u.start_time (is_called_off s.status) off' (start_of s t) (end_of s t)
          s.instructor_id s.room_id q.activity before in
      let moved =
        subst (λ x. clash_at u u.start_time off' x (end_of s t) s.instructor_id s.room_id ≡ false)
          starts active in
      let ended =
        subst
          (λ y.
            clash_at u u.start_time off' (start_of (apply_fields f s) f.start_time) y
              s.instructor_id s.room_id
            ≡ false)
          ends moved in
      clash-at u (apply_fields f s) f.start_time refl ∙ rw (q.instructor, q.room) ended
]

merged-IsQuiet :
    (c : Calendar) (s : ClassSession) (acknowledged : Bool) (hash : Option ℕ) (f : MergedFields)
    → IsPlaced s
    → merge_fields c s (attendance_request acknowledged hash) ≡ ok f
    → IsQuiet s f
unfolding merge_fields
merged-IsQuiet c s acknowledged hash f p h =
    let (t, fits, same) = and_then-ok _ _ f h in
    let eq = ok-injective _ f same in
    record {
      fits = merge_fields-IsFitted c s (attendance_request acknowledged hash) f refl p h;
      instructor = ap (λ x. x.instructor_id) (sym eq);
      room = ap (λ x. x.room_id) (sym eq);
      activity =
          subst (λ x. (is_called_off s.status && not (is_called_off x.status)) ≡ false) eq
            (ground arith);
    }

with_command-IsQuiet :
    (o : Option AttendanceCommand) (s : ClassSession) (f : MergedFields)
    → IsQuiet s f
    → IsQuiet s (with_command o s.status f)
with_command-IsQuiet none s f q = q
with_command-IsQuiet (some (set a)) s f q = record {
  fits = q.fits;
  instructor = q.instructor;
  room = q.room;
  activity = q.activity;
}
with_command-IsQuiet (some clear) s f q = record {
  fits = q.fits;
  instructor = q.instructor;
  room = q.room;
  activity = ground (arith, q.activity);
}

attendance_targets :
    (acknowledged : Bool) (hash : Option ℕ) (command : AttendanceCommand)
    (expected : Option (Option InstructorAttendance)) (why : String) (c : Calendar)
    (cur : Row ClassSession) (t : Target) (ts : List Target)
    → IsPlaced cur.val
    → targets_of
        (attendance_request acknowledged hash)
        (attendance_options command expected why)
        c
        cur
      ≡ ok (t, ts)
    → (t.before ≡ cur) × (ts ≡ []) × IsQuiet cur.val t.fields
unfolding targets_of member_targets
attendance_targets acknowledged hash command expected why c cur t ts p h =
    let (merged, merges, h1) = and_then-ok _ _ (t, ts) h in
    let (_, _, h2) = and_then-ok _ _ (t, ts) h1 in
    let (us, members, h3) = and_then-ok _ _ (t, ts) h2 in
    let same = ok-injective _ (t, ts) h3 in
    let primary = with_command (some command) cur.val.status merged in
    let none_else : us ≡ [] = ok-injective us [] (
      sym members
      ∙ ap (member_targets primary (day_delta_of cur.val primary) (start_delta_of cur.val primary))
          (companions_of-this c cur)) in
    (
      ap (λ x. x.0.before) (sym same),
      ap (λ x. x.1) (sym same) ∙ none_else,
      subst (λ x. IsQuiet cur.val x.0.fields) same
          (with_command-IsQuiet (some command) cur.val merged
            (merged-IsQuiet c cur.val acknowledged hash merged p merges)),
    )

-- a change of the time is refused together with an attendance command
apply_temporal_policy-unmoved :
    (t u : Target) (b : Bool)
    → apply_temporal_policy true t ≡ ok (u, b)
    → (t ≡ u)
      × (has_session_temporal_change t.before.val (apply_fields t.fields t.before.val) ≡ false)
unfolding apply_temporal_policy
apply_temporal_policy-unmoved t u b h =
    unmoved (has_session_temporal_change t.before.val (apply_fields t.fields t.before.val)) h
  where
    unmoved :
        (moves : Bool)
        → (if moves then moved true t else ok (t, false)) ≡ ok (u, b)
        → (t ≡ u) × (moves ≡ false)
    unmoved false h = (ap (λ x. x.0) (ok-injective (t, false) (u, b) h), refl)
    unmoved true h =
        let (_, _, h1) = and_then-ok _ _ (u, b) h in
        let (_, refused, _) = and_then-ok _ _ (u, b) h1 in absurd (ground arith)

hold_patch-scheduled :
    (resolve : ResolveIds) (s : ClassSession) (index : CohortIndex) (recorded : List ℕ) (now : ℕ)
    → is_some (attendance_completion_hold_patch resolve s index recorded now) ≡ true
    → is_scheduled s.status ≡ true
unfolding attendance_completion_hold_patch
hold_patch-scheduled resolve s index recorded now h = elim (Bool-cases (is_scheduled s.status)) [
  | inl e ↦ e
  | inr e ↦ absurd (ground (arith, e))
]

with_hold-IsQuiet :
    (o : Option (Option (List ℕ))) (s : ClassSession) (f : MergedFields)
    → (is_some o ≡ true → is_scheduled f.status ≡ true)
    → IsQuiet s f
    → IsQuiet s (with_hold o f)
with_hold-IsQuiet none s f h q = q
with_hold-IsQuiet (some students) s f h q = record {
  fits = q.fits;
  instructor = q.instructor;
  room = q.room;
  activity = ground (arith, h refl, q.activity);
}

complete_attendance-IsQuiet :
    (resolve : ResolveIds) (now : ℕ) (context : SessionAccountingContext) (b : Bool) (t : Target)
    → IsQuiet t.before.val t.fields
    → IsQuiet t.before.val (complete_attendance resolve now context b t).fields
unfolding complete_attendance
complete_attendance-IsQuiet resolve now context false t q = q
complete_attendance-IsQuiet resolve now context true t q =
    with_hold-IsQuiet _ t.before.val t.fields
      (hold_patch-scheduled resolve (apply_fields t.fields t.before.val) context.cohort_index
        (map (λ (a : Row Attendance). a.val.student_id) (attendance_for context t.before.id)) now)
      q

temporal-slot :
    (s : ClassSession) (f g : MergedFields)
    → slot_of f ≡ slot_of g
    → has_session_temporal_change s (apply_fields f s) ≡ false
    → has_session_temporal_change s (apply_fields g s) ≡ false
unfolding has_session_temporal_change
temporal-slot s f g e h =
    subst
      (λ x.
        has_session_temporal_change s (record s {
          session_date = x.session_date;
          start_time = some x.start_time;
          duration_minutes = x.duration_minutes;
        })
        ≡ false)
      e h

module _ (acknowledged : Bool) (hash : Option ℕ) (command : AttendanceCommand)
    (expected : Option (Option InstructorAttendance)) (why : String) where
  settled_targets-IsSteady :
      (resolve : ResolveIds) (now : ℕ) (context : SessionAccountingContext) (cur : Row ClassSession)
      (t u : Target) (ts us : List Target) (reset : List ℕ)
      → settled_targets resolve now
          (attendance_request acknowledged hash)
          (attendance_options command expected why)
          context
          t
          ts
        ≡ ok (u, us, reset)
      → t.before ≡ cur
      → ts ≡ []
      → IsQuiet cur.val t.fields
      → (u.before ≡ cur) × (us ≡ []) × IsSteady cur.val u.fields
  unfolding settled_targets apply_temporal_policies complete_attendance
  settled_targets-IsSteady resolve now context cur t u ts us reset h before alone q =
      let dto = attendance_request acknowledged hash in
      let opts = attendance_options command expected why in
      let ((t', shifted), moves, h1) = and_then-ok _ _ (u, us, reset) h in
      let (vs, others_move, h2) = and_then-ok _ _ (u, us, reset) h1 in
      let same = ok-injective _ (u, us, reset) h2 in
      let (kept, still) = apply_temporal_policy-unmoved t t' shifted moves in
      let b = completes dto opts (changed_ids ((t', shifted) ∷ vs)) in
      let (slot', before') = complete_attendance-slot resolve now context b t' in
      let before_t' : t'.before ≡ cur = ap (λ x. x.before) (sym kept) ∙ before in
      let quiet : IsQuiet t'.before.val t'.fields =
        subst (λ x. IsQuiet x.before.val x.fields) kept
          (subst (λ x. IsQuiet x.val t.fields) (sym before) q) in
      let held = complete_attendance-IsQuiet resolve now context b t' quiet in
      let unchanged : has_session_temporal_change t'.before.val
            (apply_fields t'.fields t'.before.val)
          ≡ false =
        subst
          (λ x.
            has_session_temporal_change x.before.val (apply_fields x.fields x.before.val) ≡ false)
          kept still in
      let none_else : vs ≡ [] =
        ok-injective vs [] (sym others_move ∙ ap (apply_temporal_policies true) alone) in
      (
        ap (λ x. x.0.before) (sym same) ∙ (before' ∙ before_t'),
        ap (λ x. x.1) (sym same) ∙ ap first_of none_else,
        subst (λ x. IsSteady cur.val x.0.fields) same
            (subst (λ x. IsSteady x.val (complete_attendance resolve now context b t').fields)
              before_t'
              (
                held,
                temporal-slot t'.before.val t'.fields
                    (complete_attendance resolve now context b t').fields (sym slot') unchanged,
              )),
      )

  pub planned_targets-IsSteady :
      (resolve : ResolveIds) (now i : ℕ) (c : Calendar) (u : Target) (us : List Target)
      (reset : List ℕ)
      → IsClear c
      → planned_targets resolve now i
          (attendance_request acknowledged hash)
          (attendance_options command expected why)
          c
        ≡ ok (u, us, reset)
      → (cur : Row ClassSession) × (find_by_id i c.tables.sessions ≡ some cur)
        × (u.before ≡ cur)
        × (us ≡ [])
        × IsSteady cur.val u.fields
  unfolding planned_targets
  planned_targets-IsSteady resolve now i c u us reset v h =
      let (cur, there, h1) = and_then-ok _ _ (u, us, reset) h in
      let found = found-ok (find_by_id i c.tables.sessions) session_not_found cur there in
      let (_, _, h2) = and_then-ok _ _ (u, us, reset) h1 in
      let ((t, ts), targets, h3) = and_then-ok _ _ (u, us, reset) h2 in
      let (_, _, settles) = and_then-ok _ _ (u, us, reset) h3 in
      let placed = IsDisjoint-IsPlaced i c.tables.sessions cur v found in
      let (before, alone, q) =
        attendance_targets acknowledged hash command expected why c cur t ts placed targets in
      let (b, us_nil, steady) =
        settled_targets-IsSteady resolve now (load_fresh (target_ids (t ∷ ts)) c.tables) cur t u ts
          us reset settles before alone q in
      (cur, found, b, us_nil, steady)
