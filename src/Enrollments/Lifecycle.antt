-- ===== src/Enrollments/Lifecycle.antt =====
-- What src/modules/enrollments/enrollment-lifecycle.policy.ts lets through.
use taco_backend.Common.{
  ℕ, ◌≡◌, ◌≢◌, refl, sym, ◌∙◌, subst, Bool, true, false, not, Option, none, some, [], ◌∷◌, ==_refl,
  get_or, holds, arith, length, ltb,
}
use mathlib.Core.Bool.{false≢true}
use taco_backend.Exec.{guarded, passes_if, ok-injective, ok, err}
use taco_backend.Schedule.Participants.{EnrollmentStatus}
use taco_backend.Enrollments.{
  Field, undefined, null, value, Text, Enrollment, EnrollmentPatch, UpdateEnrollmentInput,
  unchanged, trim, same_status, same_number, same_text, is_same, given_or, has_fields, patch_of,
  ends_before_start, is_below, changes_nothing, apply_patch, enrollment_lifecycle_patch,
}

same_text_refl : (t : Text) → same_text t t ≡ true
same_text_refl [] = refl
same_text_refl (c ∷ t) = ground (arith, ==_refl c, same_text_refl t)

same_status_refl : (s : EnrollmentStatus) → same_status s s ≡ true
same_status_refl s = ==_refl _

module _ {A : Type 0} (same : A → A → Bool) (same_refl : (a : A) → same a a ≡ true) where
  -- a field that a patch has set is what the patch says
  is_same-given_or : (f g : Field A) → is_same same f (given_or f g) ≡ true
  is_same-given_or undefined g = refl
  is_same-given_or null g = refl
  is_same-given_or (value a) g = same_refl a

module _ {A : Type 0} where
  given_or-twice : (f g : Field A) → given_or f (given_or f g) ≡ given_or f g
  given_or-twice undefined g = refl
  given_or-twice null g = refl
  given_or-twice (value a) g = refl

status_kept :
    (o : Option EnrollmentStatus) (s : EnrollmentStatus)
    → holds (λ t. not (same_status t (get_or o s))) o ≡ false
status_kept none s = refl
status_kept (some t) s = ground (arith, same_status_refl t)

changes_nothing-apply_patch :
    (p : EnrollmentPatch) (e : Enrollment) → changes_nothing p (apply_patch p e) ≡ true
changes_nothing-apply_patch p e =
    rw (is_same-given_or same_number ==_refl p.start_date e.start_date) (
      rw (is_same-given_or same_number ==_refl p.end_date e.end_date) (
        rw (is_same-given_or same_number ==_refl p.total_sessions e.total_sessions) (
          rw (is_same-given_or same_text same_text_refl p.memo e.memo)
            (rw (status_kept p.status e.status) refl))))

-- The tests of the policy, as they come out for an accepted patch.
abbrev IsAccepted : Enrollment → Text → ℕ → EnrollmentPatch → Type 0
IsAccepted e reason n p =
    (ltb (length (trim reason)) 2 ≡ false)
    × (not (has_fields p) ≡ false)
    × (ends_before_start (apply_patch p e).start_date (apply_patch p e).end_date ≡ false)
    × (is_below n (apply_patch p e).total_sessions ≡ false)
    × (changes_nothing p e ≡ false)

accepted :
    (e : Enrollment) (input : UpdateEnrollmentInput) (n : ℕ) (p : EnrollmentPatch)
    → enrollment_lifecycle_patch e input n ≡ ok p
    → (patch_of input.fields ≡ p) × IsAccepted e input.reason n (patch_of input.fields)
unfolding enrollment_lifecycle_patch
accepted e input n p h =
    let (a, h1) = guarded _ _ _ p h in
    let (b, h2) = guarded _ _ _ p h1 in
    let (c, h3) = guarded _ _ _ p h2 in
    let (d, h4) = guarded _ _ _ p h3 in
    let (f, h5) = guarded _ _ _ p h4 in (ok-injective _ p h5, (a, b, c, d, f))

pub accepted_patch :
    (e : Enrollment) (input : UpdateEnrollmentInput) (n : ℕ) (p : EnrollmentPatch)
    → enrollment_lifecycle_patch e input n ≡ ok p
    → patch_of input.fields ≡ p
accepted_patch e input n p h = (accepted e input n p h).0

still_changes :
    (p : EnrollmentPatch) (e : Enrollment) → changes_nothing p e ≡ false → apply_patch p e ≢ e
still_changes p e f eq =
    false≢true
      (sym f ∙ subst (λ x. changes_nothing p x ≡ true) eq (changes_nothing-apply_patch p e))

-- An accepted patch leaves an enrollment that does not end before it starts, whose total is not
-- below the sessions completed so far, and that is another than before.
pub enrollment_lifecycle_patch-accepted :
    (e : Enrollment) (input : UpdateEnrollmentInput) (n : ℕ) (p : EnrollmentPatch)
    → enrollment_lifecycle_patch e input n ≡ ok p
    → (ends_before_start (apply_patch p e).start_date (apply_patch p e).end_date ≡ false)
      × (is_below n (apply_patch p e).total_sessions ≡ false)
      × (apply_patch p e ≢ e)
enrollment_lifecycle_patch-accepted e input n p h =
    let (same, (a, b, c, d, f)) = accepted e input n p h in
    subst
      (λ q.
        (ends_before_start (apply_patch q e).start_date (apply_patch q e).end_date ≡ false)
        × (is_below n (apply_patch q e).total_sessions ≡ false)
        × (apply_patch q e ≢ e))
      same (c, d, λ eq. still_changes _ e f eq)

refused_again :
    (e : Enrollment) (input : UpdateEnrollmentInput) (n : ℕ)
    → IsAccepted e input.reason n (patch_of input.fields)
    → enrollment_lifecycle_patch (apply_patch (patch_of input.fields) e) input n ≡ err unchanged
unfolding enrollment_lifecycle_patch
refused_again e input n (a, b, c, d, f) =
    let q = patch_of input.fields in
    rw (given_or-twice q.start_date e.start_date) (
      rw (given_or-twice q.end_date e.end_date) (
        rw (given_or-twice q.total_sessions e.total_sessions) (
          passes_if _ _ _ a
          ∙ (passes_if _ _ _ b
              ∙ (passes_if _ _ _ c
                  ∙ (passes_if _ _ _ d ∙ rw (changes_nothing-apply_patch q e) refl))))))

-- The same request again, on the enrollment that an accepted patch has left, is refused as one that
-- changes nothing.
pub enrollment_lifecycle_patch-again :
    (e : Enrollment) (input : UpdateEnrollmentInput) (n : ℕ) (p : EnrollmentPatch)
    → enrollment_lifecycle_patch e input n ≡ ok p
    → enrollment_lifecycle_patch (apply_patch p e) input n ≡ err unchanged
enrollment_lifecycle_patch-again e input n p h =
    let (same, (a, b, c, d, f)) = accepted e input n p h in
    subst (λ q. enrollment_lifecycle_patch (apply_patch q e) input n ≡ err unchanged) same
      (refused_again e input n (a, b, c, d, f))
