-- ===== src/Schedule/SessionTime/Laws.antt =====
-- What a normalized session time promises, and when a session has begun and ended.
use taco_backend.Common.{
  ℕ, ◌+◌, ◌≤◌, ◌≡◌, refl, sym, subst, ◌⊎◌, inl, inr, ◌≢◌, Bool-cases, true, Option, none, some, leb,
  if◌then◌else◌, arith,
}
use taco_backend.Common.Int.{ℤ, pos, negsuc, ◌+ℤ◌}
use taco_backend.Exec.{Result, ok, err}
use taco_backend.Time.{Hhmm, hhmm_to_min, min_to_hhmm, duration_minutes_between}
use taco_backend.Time.Laws.{hhmm_to_min-min_to_hhmm}
use taco_backend.Schedule.SessionTime.{
  TimeError, NormalizedSessionTime, requested_duration, normalize_session_time, stored_end_time_of,
  add_minutes_guarded, assert_session_duration, SessionMoment, session_start_ms, session_end_ms,
  session_start_passed, session_end_passed,
}

abbrev end_or_none : ℕ → Option Hhmm
end_or_none total = if leb 1440 total then none else some (min_to_hhmm total)

stored_end_time_of-pos :
    (start : Hhmm) (k : ℕ)
    → stored_end_time_of start (pos k) ≡ ok (end_or_none (hhmm_to_min start + k))
unfolding stored_end_time_of add_minutes_guarded ◌+ℤ◌
stored_end_time_of-pos start k = ground arith

accepted :
    (d : ℤ) → assert_session_duration d ≡ ok tt → (k : ℕ) × (d ≡ pos k) × (10 ≤ k) × (k ≤ 480)
unfolding assert_session_duration
accepted (pos k) h = (k, refl, ground arith, ground arith)
accepted (negsuc k) h = absurd (ground arith)

-- what the normalization gives for an accepted duration
abbrev timed : Hhmm → ℕ → NormalizedSessionTime
timed start k = record {
  start_time = start;
  duration_minutes = k;
  end_time = end_or_none (hhmm_to_min start + k);
}

assert_ok : (k : ℕ) → 10 ≤ k → k ≤ 480 → assert_session_duration (pos k) ≡ ok tt
unfolding assert_session_duration
assert_ok k lo hi = ground arith

normalized :
    (start : Hhmm) (end : Option Hhmm) (duration default : Option ℤ) (k : ℕ)
    → requested_duration start end duration default ≡ pos k
    → 10 ≤ k
    → k ≤ 480
    → normalize_session_time start end duration default ≡ ok (timed start k)
unfolding normalize_session_time
normalized start end duration default k e lo hi =
    ground (arith, stored_end_time_of-pos start k, assert_ok k lo hi)

assert_answer :
    (d : ℤ)
    → (assert_session_duration d ≡ ok tt) ⊎ ((e : TimeError) × (assert_session_duration d ≡ err e))
unfolding assert_session_duration
assert_answer d = cases (assert_session_duration d)
  where
    cases : (r : Result TimeError (Unit {0})) → (r ≡ ok tt) ⊎ ((e : TimeError) × (r ≡ err e))
    cases (ok tt) = inl refl
    cases (err e) = inr (e, refl)

refused :
    (start : Hhmm) (end : Option Hhmm) (duration default : Option ℤ) (n : NormalizedSessionTime)
    (e : TimeError)
    → assert_session_duration (requested_duration start end duration default) ≡ err e
    → normalize_session_time start end duration default ≢ ok n
unfolding normalize_session_time
refused start end duration default n e h = λ r. ground arith

one_answer : {E A : Type 0} (r : Result E A) (a b : A) → r ≡ ok a → r ≡ ok b → a ≡ b
one_answer (ok x) a b h h' = ground arith
one_answer (err e) a b h h' = absurd (ground arith)

-- Every answer of the normalization is the one of an accepted duration.
pub normalized_from :
    (start : Hhmm) (end : Option Hhmm) (duration default : Option ℤ) (n : NormalizedSessionTime)
    → normalize_session_time start end duration default ≡ ok n
    → (k : ℕ) × (n ≡ timed start k) × (10 ≤ k) × (k ≤ 480)
normalized_from start end duration default n h =
    let d = requested_duration start end duration default in
    elim (assert_answer d) [
      | inl fine ↦
          let (k, is_k, lo, hi) = accepted d fine in
          (k, one_answer _ n _ h (normalized start end duration default k is_k lo hi), lo, hi)
      | inr (e, bad) ↦ absurd (refused start end duration default n e bad h)
    ]

-- Whatever the input, a normalized time keeps the start and lasts from 10 to 480 minutes; its end is
-- stored exactly when the session ends before midnight, and then it is the start plus the duration.
pub normalize_session_time-bounds :
    (start : Hhmm) (end : Option Hhmm) (duration default : Option ℤ) (n : NormalizedSessionTime)
    → normalize_session_time start end duration default ≡ ok n
    → (n.start_time ≡ start)
      × ((10 ≤ n.duration_minutes) × (n.duration_minutes ≤ 480))
      × (n.end_time ≡ (
          if leb 1440 (hhmm_to_min start + n.duration_minutes)
          then none
          else some (min_to_hhmm (hhmm_to_min start + n.duration_minutes))))
normalize_session_time-bounds start end duration default n h =
    let (k, e, lo, hi) = normalized_from start end duration default n h in
    subst
      (λ m.
        (m.start_time ≡ start)
        × ((10 ≤ m.duration_minutes) × (m.duration_minutes ≤ 480))
        × (m.end_time ≡ end_or_none (hhmm_to_min start + m.duration_minutes)))
      (sym e) (refl, (lo, hi), refl)

timed_again :
    (start : Hhmm) (k : ℕ) (default : Option ℤ)
    → 10 ≤ k
    → requested_duration start (end_or_none (hhmm_to_min start + k)) (some (pos k)) default ≡ pos k
unfolding duration_minutes_between
timed_again start k default lo = elim (Bool-cases (leb 1440 (hhmm_to_min start + k))) [
  | inl late ↦ rw late refl
  | inr early ↦ rw early (ground (arith, hhmm_to_min-min_to_hhmm (hhmm_to_min start + k)))
]

-- Normalizing a normalized time again, whatever the default, gives the same time.
pub normalize_session_time-idempotent :
    (start : Hhmm) (end : Option Hhmm) (duration default default' : Option ℤ)
    (n : NormalizedSessionTime)
    → normalize_session_time start end duration default ≡ ok n
    → normalize_session_time n.start_time n.end_time (some (pos n.duration_minutes)) default' ≡ ok n
normalize_session_time-idempotent start end duration default default' n h =
    let (k, e, lo, hi) = normalized_from start end duration default n h in
    subst
      (λ m.
        normalize_session_time m.start_time m.end_time (some (pos m.duration_minutes)) default'
        ≡ ok m)
      (sym e)
      (normalized start (end_or_none (hhmm_to_min start + k)) (some (pos k)) default' k
        (timed_again start k default' lo) lo hi)

-- A session that has ended has begun, and stays begun and ended ever after.
pub session_end_passed-stays :
    (m : SessionMoment) (now later : ℕ)
    → session_end_passed m now ≡ true
    → now ≤ later
    → (session_start_passed m later ≡ true) × (session_end_passed m later ≡ true)
unfolding session_end_passed session_start_passed session_end_ms session_start_ms ◌+ℤ◌
session_end_passed-stays m now later h le = (ground arith, ground arith)
