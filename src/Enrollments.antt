-- ===== src/Enrollments.antt =====
-- src/modules/enrollments/enrollment-lifecycle.policy.ts: what may be changed of an enrollment.
pub mod Commands
pub mod Lifecycle
pub mod Update
mod Tests
use taco_backend.Common.{
  ℕ, Bool, true, false, not, ◌&&◌, ◌||◌, Option, none, some, List, [], ◌∷◌, ◌++◌, ◌==◌, ltb, leb,
  if◌then◌else◌, is_some, get_or, holds, length, elem, count_by, filter,
}
use taco_backend.Exec.{Result, ok, err, Exec, pure, modify, or_throw, ◌>>=◌, ◌>>◌, transaction}
use taco_backend.Store.{Row, Table, update_if, find_active, find_by}
use taco_backend.Time.{IsoDate}
use taco_backend.Schedule.Entity.{ClassSession, is_held}
use taco_backend.Schedule.Participants.{EnrollmentStatus}

-- A field that may be missing, or hold `null`.
pub data Field (A : Type 0) : Type 0 where
  undefined null : Field A
  value : A → Field A

-- a text as its code units
abbrev pub Text : Type 0
Text = List ℕ

pub record Enrollment : Type 0 where
  pub student_id : ℕ
  pub course_id : ℕ
  pub status : EnrollmentStatus
  pub start_date : Field IsoDate
  pub end_date : Field IsoDate
  pub total_sessions : Field ℕ
  pub memo : Field Text
  pub enrolled_at : IsoDate

-- `UpdateEnrollmentInput` without its reason; a status is never `null`
pub record EnrollmentPatch : Type 0 where
  pub status : Option EnrollmentStatus
  pub start_date : Field IsoDate
  pub end_date : Field IsoDate
  pub total_sessions : Field ℕ
  pub memo : Field Text

pub record UpdateEnrollmentInput : Type 0 where
  pub fields : EnrollmentPatch
  pub reason : Text

pub data LifecycleError : Type 0 where
  enrollment_not_found reason_too_short no_fields end_before_start total_below_completed unchanged
        changed_meanwhile :
      LifecycleError

-- the code units that `trim` takes away
abbrev is_space : ℕ → Bool
is_space c =
    (leb 9 c && leb c 13)
    || ((leb 8192 c && leb c 8202)
        || elem c (32 ∷ 160 ∷ 5760 ∷ 8232 ∷ 8233 ∷ 8239 ∷ 8287 ∷ 12288 ∷ 65279 ∷ []))

abbrev trim_start : Text → Text
trim_start [] = []
trim_start (c ∷ t) = if is_space c then trim_start t else c ∷ t

abbrev add_front : ℕ → Text → Text
add_front c [] = if is_space c then [] else c ∷ []
add_front c (d ∷ t) = c ∷ d ∷ t

abbrev trim_end : Text → Text
trim_end [] = []
trim_end (c ∷ t) = add_front c (trim_end t)

unfoldable pub trim : Text → Text
trim t = trim_end (trim_start t)

-- `text || null`
abbrev or_null : Text → Field Text
or_null [] = null
or_null (c ∷ t) = value (c ∷ t)

-- `input.memo?.trim() || null`, where a memo is given
unfoldable pub trimmed_memo : Field Text → Field Text
unfolding trim
trimmed_memo undefined = undefined
trimmed_memo null = null
trimmed_memo (value t) = or_null (trim t)

module _ {A : Type 0} where
  abbrev pub is_given : Field A → Bool
  is_given undefined = false
  is_given null = true
  is_given (value _) = true

  -- `patch.x === undefined ? current.x : patch.x`
  abbrev pub given_or : Field A → Field A → Field A
  given_or undefined f = f
  given_or null f = null
  given_or (value a) f = value a

  -- whether the field is not given, or is what it was: `===`, with the equality of the values
  abbrev pub is_same : (A → A → Bool) → Field A → Field A → Bool
  is_same same undefined f = true
  is_same same null null = true
  is_same same null _ = false
  is_same same (value a) (value b) = same a b
  is_same same (value a) _ = false

abbrev pub status_number : EnrollmentStatus → ℕ
status_number EnrollmentStatus.active = 0
status_number EnrollmentStatus.paused = 1
status_number EnrollmentStatus.completed = 2
status_number EnrollmentStatus.canceled = 3

abbrev pub same_status : EnrollmentStatus → EnrollmentStatus → Bool
same_status s t = status_number s == status_number t

abbrev pub same_number : ℕ → ℕ → Bool
same_number a b = a == b

abbrev pub same_text : Text → Text → Bool
same_text [] [] = true
same_text [] (_ ∷ _) = false
same_text (_ ∷ _) [] = false
same_text (c ∷ t) (d ∷ u) = (c == d) && same_text t u

-- `startDate && endDate && endDate < startDate`
abbrev pub ends_before_start : Field IsoDate → Field IsoDate → Bool
ends_before_start (value start) (value end) = ltb end start
ends_before_start _ _ = false

-- `totalSessions != null && totalSessions < completedSessions`
abbrev pub is_below : ℕ → Field ℕ → Bool
is_below completed (value total) = ltb total completed
is_below completed _ = false

abbrev pub has_fields : EnrollmentPatch → Bool
has_fields p =
    is_some p.status
    || (is_given p.start_date
        || (is_given p.end_date || (is_given p.total_sessions || is_given p.memo)))

-- whether every given field is what it was
abbrev pub changes_nothing : EnrollmentPatch → Enrollment → Bool
changes_nothing p e =
    not (holds (λ s. not (same_status s e.status)) p.status)
    && (is_same same_number p.start_date e.start_date
        && (is_same same_number p.end_date e.end_date
            && (is_same same_number p.total_sessions e.total_sessions
                && is_same same_text p.memo e.memo)))

-- `{ ...current, ...patch }`
abbrev pub apply_patch : EnrollmentPatch → Enrollment → Enrollment
apply_patch p e = record e {
  status = get_or p.status e.status;
  start_date = given_or p.start_date e.start_date;
  end_date = given_or p.end_date e.end_date;
  total_sessions = given_or p.total_sessions e.total_sessions;
  memo = given_or p.memo e.memo;
}

-- the fields that are given, with the memo trimmed
abbrev pub patch_of : EnrollmentPatch → EnrollmentPatch
patch_of p = record p { memo = trimmed_memo p.memo }

unfoldable pub enrollment_lifecycle_patch :
    Enrollment → UpdateEnrollmentInput → ℕ → Result LifecycleError EnrollmentPatch
enrollment_lifecycle_patch current input completed =
    let patch = patch_of input.fields in
    let start = given_or patch.start_date current.start_date in
    let end = given_or patch.end_date current.end_date in
    let total = given_or patch.total_sessions current.total_sessions in
    if ltb (length (trim input.reason)) 2
    then err reason_too_short
    else if not (has_fields patch)
    then err no_fields
    else if ends_before_start start end
    then err end_before_start
    else if is_below completed total
    then err total_below_completed
    else if changes_nothing patch current
    then err unchanged
    else ok patch
