-- ===== src/Schedule/Participants/Cohorts.antt =====
-- What the index of src/modules/schedule/session-participant.policy.ts holds.
use taco_backend.Common.{
  ℕ, ◌≡◌, refl, ap, Bool, ◌&&◌, ◌||◌, List, [], ◌∷◌, ◌++◌, ◌==◌, elem, any, arith, Bool-cases, inl,
  inr,
}
use taco_backend.Schedule.Participants.{
  ParticipantEnrollment, CohortIndex, is_active_enrollment, add_id, cohort_of, add_member,
  index_row, index_rows, build_cohort_index,
}

elem-append : (n : ℕ) (xs ys : List ℕ) → elem n (xs ++ ys) ≡ (elem n xs || elem n ys)
elem-append n [] ys = refl
elem-append n (x ∷ xs) ys = ground (arith, elem-append n xs ys)

elem-add_id : (n m : ℕ) (ids : List ℕ) → elem n (add_id m ids) ≡ (elem n ids || (m == n))
elem-add_id n m ids = elim (Bool-cases (elem m ids)) [
  | inl there ↦ elim (Bool-cases (m == n)) [
    | inl same ↦ ground (arith, ap (λ i. elem i ids) {x = m} {y = n} (ground arith))
    | inr other ↦ ground arith
  ]
  | inr absent ↦ ground (arith, elem-append n ids (m ∷ []))
]

elem-add_member :
    (n c m c' : ℕ) (index : CohortIndex)
    → elem n (cohort_of c (add_member c' m index))
      ≡ (elem n (cohort_of c index) || ((c' == c) && (m == n)))
elem-add_member n c m c' [] = ground arith
elem-add_member n c m c' ((k, ids) ∷ index) =
    ground (arith, elem-add_id n m ids, elem-add_member n c m c' index)

-- the enrollment puts student `n` into course `c`
abbrev pub enrols : ℕ → ℕ → ParticipantEnrollment → Bool
enrols c n r = is_active_enrollment r.status && ((r.course_id == c) && (r.student_id == n))

elem-index_rows :
    (n c : ℕ) (rows : List ParticipantEnrollment) (index : CohortIndex)
    → elem n (cohort_of c (index_rows rows index))
      ≡ (elem n (cohort_of c index) || any (enrols c n) rows)
unfolding index_rows
elem-index_rows n c [] index = ground arith
elem-index_rows n c (r ∷ rows) index = ground (
  arith,
  elem-index_rows n c rows (index_row r index),
  elem-add_member n c r.student_id r.course_id index,
)

-- A student is in the index under a course exactly when an active enrollment puts the student into
-- the course.
pub elem-build_cohort_index :
    (n c : ℕ) (rows : List ParticipantEnrollment)
    → elem n (cohort_of c (build_cohort_index rows)) ≡ any (enrols c n) rows
unfolding build_cohort_index
elem-build_cohort_index n c rows = elem-index_rows n c rows []
