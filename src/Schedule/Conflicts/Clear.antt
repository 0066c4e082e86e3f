-- ===== src/Schedule/Conflicts/Clear.antt =====
-- What it means that the conflict check reports nothing.
use taco_backend.Common.{
  ℕ, ◌≡◌, refl, Bool, false, not, ◌&&◌, ◌||◌, Option, none, some, List, [], ◌∷◌, ◌++◌, All, any,
  elem, flat_map, is_id, arith, Bool-cases, inl, inr,
}
use taco_backend.Store.{Row}
use taco_backend.Schedule.Entity.{ClassSession, is_called_off}
use taco_backend.Schedule.Conflicts.{
  Candidate, AvailabilityBlock, takes_time, bookings, same_id, booked_for, Resource,
  shared_students, students_of, candidate_students, detect_conflicts, instructor, room,
}
use taco_backend.Schedule.Conflicts.Overlap.{IsPlanned, IsTimed, overlap, takes_time-overlap}

append-nil : {A : Type 0} (xs ys : List A) → xs ++ ys ≡ [] → (xs ≡ []) × (ys ≡ [])
append-nil [] ys h = (refl, h)
append-nil (x ∷ xs) ys h = absurd (ground arith)

pub flat_map-All_nil :
    {A B : Type 0} (f : A → List B) (xs : List A) → flat_map f xs ≡ [] → All (λ x. f x ≡ []) xs
flat_map-All_nil f [] h = tt
flat_map-All_nil f (x ∷ xs) h =
    let (here, rest) = append-nil (f x) (flat_map f xs) h in (here, flat_map-All_nil f xs rest)

-- the candidate and the session want the same instructor, room or student
abbrev pub shares : Option (Row ClassSession → List ℕ) → Candidate → Row ClassSession → Bool
shares of c s =
    same_id c.instructor_id s.val.instructor_id
    || (same_id c.room_id s.val.room_id
        || any (λ i. elem i (students_of of s)) (candidate_students c))

booked_for-nil :
    (r : Resource) (a b : Option ℕ) (n : ℕ) → booked_for r a b n ≡ [] → same_id a b ≡ false
booked_for-nil r none b n h = refl
booked_for-nil r (some i) b n h = ground arith

shared_students-nil :
    (is others : List ℕ) (n : ℕ)
    → shared_students is others n ≡ []
    → any (λ i. elem i others) is ≡ false
shared_students-nil [] others n h = refl
shared_students-nil (i ∷ is) others n h = elim (Bool-cases (elem i others)) [
  | inl e ↦ absurd (ground arith)
  | inr e ↦ ground (arith, shared_students-nil is others n)
]

bookings-nil :
    (of : Option (Row ClassSession → List ℕ)) (c : Candidate) (s : Row ClassSession)
    → bookings of c s ≡ []
    → (takes_time c s && shares of c s) ≡ false
unfolding bookings
bookings-nil of c s h = elim (Bool-cases (takes_time c s)) [
  | inr e ↦ ground arith
  | inl e ↦
      let all : booked_for instructor c.instructor_id s.val.instructor_id s.id
            ++ (booked_for room c.room_id s.val.room_id s.id
                ++ shared_students (candidate_students c) (students_of of s) s.id)
          ≡ [] =
        ground arith in
      let (a, rest) =
        append-nil (booked_for instructor c.instructor_id s.val.instructor_id s.id) _ all in
      let (b, d) = append-nil (booked_for room c.room_id s.val.room_id s.id) _ rest in
      ground (
        arith,
        booked_for-nil instructor c.instructor_id s.val.instructor_id s.id a,
        booked_for-nil room c.room_id s.val.room_id s.id b,
        shared_students-nil (candidate_students c) (students_of of s) s.id d,
      )
]

All-map :
    {A : Type 0} (P Q R : A → Type 0) (xs : List A)
    → ((x : A) → P x → Q x → R x)
    → All P xs
    → All Q xs
    → All R xs
All-map P Q R [] f h h' = tt
All-map P Q R (x ∷ xs) f h h' = (f x h.0 h'.0, All-map P Q R xs f h.1 h'.1)

-- the session counts for the candidate, shares with it, and overlaps it on the line of minutes
abbrev pub is_double_booked :
    Option (Row ClassSession → List ℕ) → Candidate → Row ClassSession → Bool
is_double_booked of c s =
    not (is_id s.id c.ignore_session_id)
    && (not (is_called_off s.val.status) && (overlap c s.val && shares of c s))

-- When the check reports nothing for a candidate, no session among those that were checked overlaps
-- it on the line of minutes, save sessions that are ignored, called off, or share no instructor, room
-- or student with it. All times are times of the day, and all durations are at most a day.
pub detect_conflicts-clear :
    (c : Candidate) (ss : List (Row ClassSession)) (bs : List AvailabilityBlock)
    (of : Option (Row ClassSession → List ℕ)) (capacity : Option (ℕ → Option ℕ))
    → IsPlanned c
    → All (λ s. IsTimed s.val) ss
    → detect_conflicts c ss bs of capacity ≡ []
    → All (λ s. is_double_booked of c s ≡ false) ss
unfolding detect_conflicts
detect_conflicts-clear c ss bs of capacity hc hs h =
    let (booked, _) = append-nil (flat_map (bookings of c) ss) _ h in
    All-map (λ s. bookings of c s ≡ []) (λ s. IsTimed s.val) _ ss
      (λ s e timed. ground (arith, bookings-nil of c s e, takes_time-overlap c s hc timed))
      (flat_map-All_nil (bookings of c) ss booked) hs
