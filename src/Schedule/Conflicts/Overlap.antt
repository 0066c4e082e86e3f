-- ===== src/Schedule/Conflicts/Overlap.antt =====
-- That the minutes relative to the candidate's day, with the sessions of the days beside it only, see
-- every overlap on the one line of minutes.
use taco_backend.Common.{
  ℕ, ◌+◌, ◌*◌, ◌≤◌, ◌≡◌, Bool, true, false, not, ◌&&◌, Option, none, some, ltb, is_id, get_or,
  arith, Option-cases, inl, inr,
}
use taco_backend.Common.Int.{ℤ, ◌+ℤ◌}
use taco_backend.Exec.{ok}
use taco_backend.Store.{Row}
use taco_backend.Time.{Hhmm, hhmm_to_min, day_diff, is_clock}
use taco_backend.Time.Laws.{hhmm_to_min-min_to_hhmm}
use taco_backend.Schedule.Entity.{ClassSession, is_called_off}
use taco_backend.Schedule.SessionTime.{NormalizedSessionTime, normalize_session_time}
use taco_backend.Schedule.SessionTime.Laws.{normalize_session_time-bounds}
use taco_backend.Schedule.Conflicts.{
  Candidate, session_end_min, cand_start, cand_end, takes_time, meets_shifted, day_offset,
}

-- two spans on the line of minutes since the first day
abbrev pub spans_meet : ℕ → ℕ → ℕ → ℕ → Bool
spans_meet a a' b b' = ltb a b' && ltb b a'

shifted :
    (d d' cs ce ss se : ℕ)
    → ce ≤ 2880
    → se ≤ 2880
    → ce ≤ cs + 1440
    → se ≤ ss + 1440
    → meets_shifted cs ce ss se (day_offset (day_diff d' d))
      ≡ spans_meet (d * 1440 + cs) (d * 1440 + ce) (d' * 1440 + ss) (d' * 1440 + se)
unfolding ◌+ℤ◌
shifted d d' cs ce ss se h1 h2 h3 h4 = ground arith

abbrev pub is_clock_or_none : Option Hhmm → Bool
is_clock_or_none none = true
is_clock_or_none (some t) = is_clock t

end_bounds :
    (start : Hhmm) (end : Option Hhmm) (k : ℕ)
    → is_clock start ≡ true
    → is_clock_or_none end ≡ true
    → k ≤ 1440
    → (session_end_min start end k ≤ 2880)
      × (session_end_min start end k ≤ hhmm_to_min start + 1440)
unfolding session_end_min
end_bounds start none k h h' le = (ground arith, ground arith)
end_bounds start (some end) k h h' le = (ground arith, ground arith)

-- times of the day, and a duration of at most a day
abbrev pub IsPlanned : Candidate → Type 0
IsPlanned c =
    (is_clock c.start_time ≡ true)
    × (is_clock_or_none c.end_time ≡ true)
    × (get_or c.duration_minutes 0 ≤ 1440)

abbrev pub IsTimed : ClassSession → Type 0
IsTimed s =
    (is_clock_or_none s.start_time ≡ true)
    × (is_clock_or_none s.end_time ≡ true)
    × (s.duration_minutes ≤ 1440)

-- the candidate and a session on the line of minutes; a session without a start is not on it
abbrev pub overlap_from : Candidate → ClassSession → Option Hhmm → Bool
overlap_from c s none = false
overlap_from c s (some start) =
    spans_meet (c.session_date * 1440 + cand_start c) (c.session_date * 1440 + cand_end c)
      (s.session_date * 1440 + hhmm_to_min start)
      (s.session_date * 1440 + session_end_min start s.end_time s.duration_minutes)

abbrev pub overlap : Candidate → ClassSession → Bool
overlap c s = overlap_from c s s.start_time

-- With times of the day and durations of at most a day, a session takes time from a candidate exactly
-- when it is not the ignored one, is not called off, and overlaps it on the one line of minutes,
-- however far apart their days are.
pub takes_time-overlap :
    (c : Candidate) (s : Row ClassSession)
    → IsPlanned c
    → IsTimed s.val
    → takes_time c s ≡ (
        not (is_id s.id c.ignore_session_id)
        && (not (is_called_off s.val.status) && overlap c s.val))
unfolding takes_time cand_end
takes_time-overlap c s hc hs = elim (Option-cases s.val.start_time) [
  | inl never ↦ ground (arith)
  | inr (start, e) ↦
      let (c_start, c_end, c_length) = hc in
      let (s_start, s_end, s_length) = hs in
      let is_start : is_clock start ≡ true = ground arith in
      let (ce, ce') =
        end_bounds c.start_time c.end_time (get_or c.duration_minutes 0) c_start c_end c_length in
      let (se, se') =
        end_bounds start s.val.end_time s.val.duration_minutes is_start s_end s_length in
      let same =
        shifted c.session_date s.val.session_date (cand_start c) (cand_end c) (hhmm_to_min start)
          (session_end_min start s.val.end_time s.val.duration_minutes) ce se ce' se' in
      ground (arith, e, same)
]

-- Where a normalized session time is stored, the end that the conflict check reads from it is the
-- start plus the duration, whether or not the session runs past midnight.
pub session_end_min-normalized :
    (start : Hhmm) (end : Option Hhmm) (duration default : Option ℤ) (n : NormalizedSessionTime)
    → normalize_session_time start end duration default ≡ ok n
    → session_end_min n.start_time n.end_time n.duration_minutes
      ≡ hhmm_to_min start + n.duration_minutes
unfolding session_end_min
session_end_min-normalized start end duration default n h =
    let (same, (lo, hi), stored) = normalize_session_time-bounds start end duration default n h in
    let back = hhmm_to_min-min_to_hhmm (hhmm_to_min start + n.duration_minutes) in
    ground (arith, same, stored, back)
