-- ===== src/Schedule/SessionTime.antt =====
-- src/modules/schedule/session-time.policy.ts: the one place that makes the start, the end and the
-- duration of a session fit together, and the tests of whether a session has begun or ended.
pub mod Laws
use taco_backend.Common.{
  ℕ, ◌+◌, ◌*◌, Bool, true, false, ◌&&◌, ◌||◌, Option, none, some, ltb, leb, if◌then◌else◌, get_or,
  or_else,
}
use taco_backend.Common.Int.{ℤ, pos, pos_part, neg_part, sub_ℕ, ltb_ℤ, ◌+ℤ◌}
use taco_backend.Exec.{Result, ok, err}
use taco_backend.Time.{Hhmm, IsoDate, hhmm_to_min, min_to_hhmm, duration_minutes_between, is_clock}

abbrev pub default_duration : ℤ
default_duration = pos 60

abbrev pub session_min_min : ℤ
session_min_min = pos 10

abbrev pub session_max_min : ℤ
session_max_min = pos 480

pub data TimeError : Type 0 where
  out_of_day no_duration duration_out_of_bounds : TimeError

pub record NormalizedSessionTime : Type 0 where
  pub start_time : Hhmm
  pub duration_minutes : ℕ
  pub end_time : Option Hhmm

-- `a <= b`
abbrev leb_ℤ : ℤ → ℤ → Bool
leb_ℤ a b = leb (pos_part a + neg_part b) (pos_part b + neg_part a)

unfoldable pub add_minutes_guarded : Hhmm → ℤ → Result TimeError Hhmm
add_minutes_guarded t mins =
    let total = pos (hhmm_to_min t) +ℤ mins in
    if ltb_ℤ total (pos 0) || leb_ℤ (pos 1440) total
    then err out_of_day
    else ok (min_to_hhmm (pos_part total))

abbrev some_time : Result TimeError Hhmm → Result TimeError (Option Hhmm)
some_time (ok t) = ok (some t)
some_time (err e) = err e

-- no end is stored for a session that ends at midnight or later
unfoldable pub stored_end_time_of : Hhmm → ℤ → Result TimeError (Option Hhmm)
unfolding add_minutes_guarded
stored_end_time_of start duration =
    if leb_ℤ (pos 1440) (pos (hhmm_to_min start) +ℤ duration)
    then ok none
    else some_time (add_minutes_guarded start duration)

unfoldable pub assert_session_duration : ℤ → Result TimeError (Unit {0})
assert_session_duration d =
    if leb_ℤ d (pos 0)
    then err no_duration
    else if ltb_ℤ d session_min_min || ltb_ℤ session_max_min d
    then err duration_out_of_bounds
    else ok tt

-- the end decides the duration when it is given
abbrev pub requested_duration : Hhmm → Option Hhmm → Option ℤ → Option ℤ → ℤ
requested_duration start (some end) duration default = duration_minutes_between start end
requested_duration start none duration default = get_or (or_else duration default) default_duration

abbrev with_end : Hhmm → ℤ → Result TimeError (Option Hhmm) → Result TimeError NormalizedSessionTime
with_end start d (err e) = err e
with_end start d (ok end) =
    ok (record { start_time = start; duration_minutes = pos_part d; end_time = end })

unfoldable pub normalize_session_time :
    Hhmm → Option Hhmm → Option ℤ → Option ℤ → Result TimeError NormalizedSessionTime
unfolding assert_session_duration stored_end_time_of duration_minutes_between
normalize_session_time start end duration default =
    let d = requested_duration start end duration default in
    elim (assert_session_duration d) [
      | err e ↦ err e
      | ok _ ↦ with_end start d (stored_end_time_of start d)
    ]

pub record SessionMoment : Type 0 where
  pub session_date : IsoDate
  pub start_time : Option Hhmm
  pub duration_minutes : Option ℕ

-- What `Date.parse` takes: a time of the day, or 24:00.
abbrev is_parsable : Hhmm → Bool
is_parsable t = is_clock t || (leb (hhmm_to_min t) 1440 && leb 1440 (hhmm_to_min t))

abbrev pub midnight : Hhmm
midnight = record { hour = 0; minute = 0 }

-- `Date.parse` of the Korean wall clock, nine hours ahead; nothing where it gives NaN
unfoldable pub session_start_ms : SessionMoment → Option ℤ
session_start_ms m =
    let t = get_or m.start_time midnight in
    if is_parsable t
    then some (sub_ℕ (m.session_date * 86400000 + hhmm_to_min t * 60000) 32400000)
    else none

abbrev later_by : ℕ → Option ℤ → Option ℤ
later_by ms none = none
later_by ms (some start) = some (start +ℤ pos ms)

unfoldable pub session_end_ms : SessionMoment → Option ℤ
unfolding session_start_ms
session_end_ms m = later_by (get_or m.duration_minutes 60 * 60000) (session_start_ms m)

abbrev is_past : ℕ → Option ℤ → Bool
is_past now none = false
is_past now (some at) = leb_ℤ at (pos now)

unfoldable pub session_start_passed : SessionMoment → ℕ → Bool
unfolding session_start_ms
session_start_passed m now = is_past now (session_start_ms m)

unfoldable pub session_end_passed : SessionMoment → ℕ → Bool
unfolding session_end_ms
session_end_passed m now = is_past now (session_end_ms m)
