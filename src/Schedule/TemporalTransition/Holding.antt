-- ===== src/Schedule/TemporalTransition/Holding.antt =====
-- When a session becomes held, and that its participants are fixed from then on.
use taco_backend.Common.{
  ℕ, ◌≡◌, refl, sym, ◌∙◌, ap, true, false, not, Option, none, some, List, [], ◌∷◌, is_some,
  is_empty, get_or, elem, all, arith, ◌⊎◌, inl, inr,
}
use taco_backend.Schedule.Entity.{ClassSession, is_scheduled}
use taco_backend.Schedule.Participants.{
  ResolveIds, CohortIndex, participant_ids_for_session, cohort_of,
}
use taco_backend.Schedule.SessionTime.{session_end_passed}
use taco_backend.Schedule.TemporalTransition.{
  attendance_requirement_of, attendance_completion_hold_patch, hold, hold_patch, unrecorded,
  moment_of,
}

all-unrecorded :
    (recorded ids : List ℕ) → all (λ n. elem n recorded) ids ≡ is_empty (unrecorded recorded ids)
all-unrecorded recorded [] = refl
all-unrecorded recorded (n ∷ ids) = ground (arith, all-unrecorded recorded ids)

-- A scheduled session that has an instructor and participants, and has ended, is made held exactly when
-- no attendance is required of it any more.
pub hold-required :
    (resolve : ResolveIds) (s : ClassSession) (index : CohortIndex) (recorded : List ℕ) (now : ℕ)
    → is_some s.instructor_id ≡ true
    → is_scheduled s.status ≡ true
    → session_end_passed (moment_of s) now ≡ true
    → is_empty (participant_ids_for_session resolve s index) ≡ false
    → is_some (attendance_completion_hold_patch resolve s index recorded now)
      ≡ not (attendance_requirement_of resolve s index recorded now).attendance_required
unfolding attendance_completion_hold_patch attendance_requirement_of
hold-required resolve s index recorded now h1 h2 h3 h4 =
    ground (arith, all-unrecorded recorded (participant_ids_for_session resolve s index))

patch_of :
    (resolve : ResolveIds) (s : ClassSession) (index : CohortIndex) (recorded : List ℕ) (now : ℕ)
    (patch : Option (List ℕ))
    → attendance_completion_hold_patch resolve s index recorded now ≡ some patch
    → (patch ≡ hold_patch s.student_ids (participant_ids_for_session resolve s index))
      × (is_empty (participant_ids_for_session resolve s index) ≡ false)
unfolding attendance_completion_hold_patch
patch_of resolve s index recorded now patch h = (ground arith, ground arith)

named_cases :
    (o : Option (List ℕ))
    → (is_empty (get_or o []) ≡ true) ⊎ ((ids : List ℕ) × (o ≡ some ids) × (is_empty ids ≡ false))
named_cases none = inl refl
named_cases (some []) = inl refl
named_cases (some (n ∷ ids)) = inr (n ∷ ids, refl, refl)

-- Once a session is made held, its participants stay the ones that it had at that moment, whatever
-- the enrollments become. This takes the rule that named students, where there are any, are the
-- participants.
pub hold-participants :
    (resolve : ResolveIds)
    (named : (ids cohort : List ℕ) → is_empty ids ≡ false → resolve (some ids) cohort ≡ ids)
    (s : ClassSession) (index index' : CohortIndex) (recorded : List ℕ) (now : ℕ)
    (patch : Option (List ℕ))
    → attendance_completion_hold_patch resolve s index recorded now ≡ some patch
    → participant_ids_for_session resolve (hold patch s) index'
      ≡ participant_ids_for_session resolve s index
unfolding participant_ids_for_session
hold-participants resolve named s index index' recorded now patch h =
    let (is_patch, some_ids) = patch_of resolve s index recorded now patch h in
    let now_cohort = cohort_of s.course_id index in
    let later_cohort = cohort_of s.course_id index' in
    let participants_later : Option (List ℕ) → List ℕ =
      λ o. resolve (hold o s).student_ids (cohort_of (hold o s).course_id index') in
    elim (named_cases s.student_ids) [
      | inl unnamed ↦
          let fixed : patch ≡ some (resolve s.student_ids now_cohort) =
            is_patch ∙ rw unnamed refl in
          ap (λ o. participants_later o) fixed
          ∙ named (resolve s.student_ids now_cohort) later_cohort some_ids
      | inr (ids, is_named, some_named) ↦
          let kept : patch ≡ none = is_patch ∙ rw (is_named, some_named) refl in
          ap (λ o. participants_later o) kept
          ∙ (ap (λ o. resolve o later_cohort) is_named
              ∙ (named ids later_cohort some_named
                  ∙ (sym (named ids now_cohort some_named)
                      ∙ ap (λ o. resolve o now_cohort) (sym is_named))))
    ]
