-- ===== src/Planning/Apart/Update/Free.antt =====
-- An edited session that no conflict stopped clashes with no other session.
use taco_backend.Common.{
  ℕ, ◌≡◌, refl, sym, ap, ◌∙◌, subst, Bool, true, false, not, ◌&&◌, Option, none, some, List, [],
  ◌∷◌, ◌==◌, All, All-implies, arith, is_empty, is_some, if◌then◌else◌, map, Option-cases,
  Bool-cases, inl, inr, elem, filter, flat_map,
}
use taco_backend.Store.{Row, find_all, is_active}
use taco_backend.Schedule.Entity.{ClassSession, is_called_off}
use taco_backend.Schedule.Conflicts.{AvailabilityBlock, Conflict, cand_end}
use taco_backend.Schedule.Conflicts.Overlap.{IsTimed, IsPlanned}
use taco_backend.Schedule.Conflicts.Clear.{
  detect_conflicts-clear, is_double_booked, flat_map-All_nil,
}
use taco_backend.Planning.{Calendar, capacity_of}
use taco_backend.Planning.Validation.{conflicts_against, effective_student_ids}
use taco_backend.Planning.Creation.{can_force_schedule_conflicts}
use taco_backend.Planning.Update.{
  UpdateSession, InternalOptions, MergedFields, Target, apply_fields,
}
use taco_backend.Planning.Update.Checks.{
  update_candidate, others, update_conflicts, is_stopped, target_ids,
}
use taco_backend.Planning.Apart.{clash, same_id_comm, IsClear, IsPlaced}
use taco_backend.Planning.Apart.Update.{slot_of, IsFittedSlot}

-- rows picked from the active ones by another test
module _ {R : Type 0} (p : Row R → Bool) (P : Row R → Type 0) where
  abbrev picked : List (Row R) → List (Row R)
  picked rs = filter (λ r. is_active r && p r) rs

  All-narrow : (rs : List (Row R)) → All P (filter is_active rs) → All P (picked rs)
  All-narrow [] h = tt
  All-narrow (r ∷ rs) h = narrow (is_active r) (p r) (All-narrow rs) h
    where
      narrow :
          (a b : Bool)
          → (All P (filter is_active rs) → All P (picked rs))
          → All P (if a then r ∷ filter is_active rs else filter is_active rs)
          → All P (if a && b then r ∷ picked rs else picked rs)
      narrow true true rest h = (h.0, rest h.1)
      narrow true false rest h = rest h.1
      narrow false b rest h = rest h

  All-widen :
      (rs : List (Row R)) → All P (picked rs) → All (λ r. p r ≡ true → P r) (filter is_active rs)
  All-widen [] h = tt
  All-widen (r ∷ rs) h = widen (is_active r) (p r) refl (All-widen rs) h
    where
      widen :
          (a b : Bool)
          → p r ≡ b
          → (All P (picked rs) → All (λ r. p r ≡ true → P r) (filter is_active rs))
          → All P (if a && b then r ∷ picked rs else picked rs)
          → All (λ r. p r ≡ true → P r) (if a then r ∷ filter is_active rs else filter is_active rs)
      widen true true e rest h = (λ _. h.0, rest h.1)
      widen true false e rest h = (λ e'. absurd (ground arith), rest h)
      widen false b e rest h = rest h

unclash :
    (c : Calendar) (f : MergedFields) (s : ClassSession) (t : Row ClassSession)
    (of : Option (Row ClassSession → List ℕ))
    → is_double_booked of (update_candidate c f) t ≡ false
    → clash t.val (apply_fields f s) ≡ false
unfolding cand_end
unclash c f s t of h = elim (Option-cases t.val.start_time) [
  | inl never ↦ ground arith
  | inr (u, e) ↦ ground (
    arith,
    e,
    same_id_comm f.instructor_id t.val.instructor_id,
    same_id_comm f.room_id t.val.room_id,
  )
]

All-every : {A : Type 0} (P : A → Type 0) (xs : List A) → ((x : A) → P x) → All P xs
All-every P [] f = tt
All-every P (x ∷ xs) f = (f x, All-every P xs f)

-- no conflict with the others was found
quiet-free :
    (c : Calendar) (f : MergedFields) (cur : Row ClassSession)
    → IsClear c
    → IsFittedSlot (slot_of f)
    → conflicts_against c (others (cur.id ∷ []) c) (update_candidate c f) ≡ []
    → All
        (λ t. not (elem t.id (cur.id ∷ [])) ≡ true → clash t.val (apply_fields f cur.val) ≡ false)
        (find_all c.tables.sessions)
unfolding conflicts_against
quiet-free c f cur v fits h =
    let of = some (effective_student_ids c) in
    let here = others (cur.id ∷ []) c in
    let apart_from = λ (t : Row ClassSession). not (elem t.id (cur.id ∷ [])) in
    let rows = c.tables.sessions.rows in
    let planned : IsPlanned (update_candidate c f) = (fits.0, fits.1, ground (arith, fits.2)) in
    let timed =
      All-narrow apart_from (λ t. IsTimed t.val) rows
        (All-implies (λ t. IsPlaced t.val) (λ t. IsTimed t.val) (find_all c.tables.sessions)
          (λ t h. h.0) v.placed) in
    All-widen apart_from (λ t. clash t.val (apply_fields f cur.val) ≡ false) rows
      (All-implies (λ t. is_double_booked of (update_candidate c f) t ≡ false)
        (λ t. clash t.val (apply_fields f cur.val) ≡ false) here
        (λ t free. unclash c f cur.val t of free)
        (detect_conflicts-clear (update_candidate c f) here
          (map (λ (b : Row AvailabilityBlock). b.val) (find_all c.blocks)) of
          (some (capacity_of c.rooms)) planned timed h))

stopped-nil :
    (b off : Bool) (conflicts : List Conflict)
    → (not (is_empty conflicts) && (not (can_force_schedule_conflicts true b) && not off)) ≡ false
    → off ≡ false
    → conflicts ≡ []
stopped-nil b off [] h e = refl
stopped-nil b off (x ∷ xs) h e = absurd (ground arith)

-- Without an attendance command, an edit that is not stopped in production leaves the session free.
pub edited-free :
    (c : Calendar) (i : ℕ) (dto : UpdateSession) (opts : InternalOptions) (t : Target)
    (cur : Row ClassSession)
    → IsClear c
    → IsFittedSlot (slot_of t.fields)
    → opts.command ≡ none
    → t.before ≡ cur
    → cur.id ≡ i
    → is_stopped true dto t.fields (update_conflicts opts c (t ∷ [])) ≡ false
    → All
        (λ u. (u.id == i) ≡ false → clash u.val (apply_fields t.fields cur.val) ≡ false)
        (find_all c.tables.sessions)
unfolding update_conflicts
edited-free c i dto opts t cur v fits plain same there h =
    elim (Bool-cases (is_called_off t.fields.status)) [
      | inl off ↦
          All-every (λ u. (u.id == i) ≡ false → clash u.val (apply_fields t.fields cur.val) ≡ false)
            (find_all c.tables.sessions) (λ u _. ground (arith, off))
      | inr on ↦
          let nothing =
            stopped-nil dto.force (is_called_off t.fields.status) (update_conflicts opts c (t ∷ []))
              h on in
          let checked = λ (u : Target).
            conflicts_against c (others (target_ids (t ∷ [])) c) (update_candidate c u.fields) in
          let found : flat_map checked (t ∷ []) ≡ [] =
            ap (λ o. if is_some o then [] else flat_map checked (t ∷ [])) (sym plain) ∙ nothing in
          let quiet = (flat_map-All_nil checked (t ∷ []) found).0 in
          All-implies
            (λ u.
              not (elem u.id (cur.id ∷ [])) ≡ true
              → clash u.val (apply_fields t.fields cur.val) ≡ false)
            (λ u. (u.id == i) ≡ false → clash u.val (apply_fields t.fields cur.val) ≡ false)
            (find_all c.tables.sessions) (λ u free n. free (ground (arith, n, there)))
            (quiet-free c t.fields cur v fits (
              subst
                (λ x. conflicts_against c (others (x.id ∷ []) c) (update_candidate c t.fields) ≡ [])
                same quiet))
    ]
