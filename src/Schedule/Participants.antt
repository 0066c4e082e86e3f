-- ===== src/Schedule/Participants.antt =====
-- src/modules/schedule/session-participant.policy.ts: who takes part in a session.
-- `resolveSessionParticipantIds` is the contracts package's, and a parameter here.
pub mod Cohorts
use taco_backend.Common.{
  ℕ, Bool, true, false, Option, List, [], ◌∷◌, ◌++◌, ◌==◌, if◌then◌else◌, elem,
}
use taco_backend.Schedule.Entity.{ClassSession}

pub data EnrollmentStatus : Type 0 where
  active paused completed canceled : EnrollmentStatus

pub record ParticipantEnrollment : Type 0 where
  pub student_id : ℕ
  pub course_id : ℕ
  pub status : EnrollmentStatus

abbrev pub is_active_enrollment : EnrollmentStatus → Bool
is_active_enrollment active = true
is_active_enrollment _ = false

-- `Map<number, Set<number>>`: the courses with their students, each in insertion order
abbrev pub CohortIndex : Type 0
CohortIndex = List (ℕ × List ℕ)

-- `Set.add`
abbrev pub add_id : ℕ → List ℕ → List ℕ
add_id n ids = if elem n ids then ids else ids ++ n ∷ []

-- `index.get(courseId) ?? []`
abbrev pub cohort_of : ℕ → CohortIndex → List ℕ
cohort_of c [] = []
cohort_of c ((k, ids) ∷ index) = if k == c then ids else cohort_of c index

-- the set of the course, made when it is missing, with the student added
abbrev pub add_member : ℕ → ℕ → CohortIndex → CohortIndex
add_member c n [] = (c, n ∷ []) ∷ []
add_member c n ((k, ids) ∷ index) =
    if k == c then (k, add_id n ids) ∷ index else (k, ids) ∷ add_member c n index

abbrev pub index_row : ParticipantEnrollment → CohortIndex → CohortIndex
index_row row index =
    if is_active_enrollment row.status then add_member row.course_id row.student_id index else index

unfoldable pub index_rows : List ParticipantEnrollment → CohortIndex → CohortIndex
index_rows [] index = index
index_rows (row ∷ rows) index = index_rows rows (index_row row index)

unfoldable pub build_cohort_index : List ParticipantEnrollment → CohortIndex
unfolding index_rows
build_cohort_index rows = index_rows rows []

abbrev pub ResolveIds : Type 0
ResolveIds = Option (List ℕ) → List ℕ → List ℕ

module _ (resolve : ResolveIds) where
  unfoldable pub participant_ids_for_session : ClassSession → CohortIndex → List ℕ
  participant_ids_for_session s index = resolve s.student_ids (cohort_of s.course_id index)

  unfoldable pub student_belongs_to_session : ClassSession → ℕ → List ParticipantEnrollment → Bool
  unfolding participant_ids_for_session build_cohort_index
  student_belongs_to_session s n rows =
      elem n (participant_ids_for_session s (build_cohort_index rows))

  unfoldable pub student_belongs_to_session_indexed : ClassSession → ℕ → CohortIndex → Bool
  unfolding participant_ids_for_session
  student_belongs_to_session_indexed s n index = elem n (participant_ids_for_session s index)
