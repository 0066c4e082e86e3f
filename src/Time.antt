-- ===== src/Time.antt =====
-- src/common/time.util.ts: wall-clock times and calendar days.
-- An "HH:mm" text is its two numbers, and a "YYYY-MM-DD" text is the number of its day, counted from
-- 1970-01-01: on well-formed texts the order of the texts is the order of these values.
pub mod Laws
use taco_backend.Common.{ℕ, ◌+◌, ◌*◌, ◌/◌, ◌%◌, Bool, ◌&&◌, ltb, if◌then◌else◌}
use taco_backend.Common.Int.{ℤ, pos, sub_ℕ, ltb_ℤ, ◌+ℤ◌}

pub record Hhmm : Type 0 where
  pub hour : ℕ
  pub minute : ℕ

abbrev pub IsoDate : Type 0
IsoDate = ℕ

abbrev pub hhmm_to_min : Hhmm → ℕ
hhmm_to_min t = t.hour * 60 + t.minute

-- from 24:00 on the hours just go on, as in the source
abbrev pub min_to_hhmm : ℕ → Hhmm
min_to_hhmm total = record { hour = total / 60; minute = total % 60 }

abbrev pub add_minutes : Hhmm → ℕ → Hhmm
add_minutes t mins = min_to_hhmm (hhmm_to_min t + mins)

-- an end before the start is on the next day
unfoldable pub duration_minutes_between : Hhmm → Hhmm → ℤ
duration_minutes_between start end =
    let delta = sub_ℕ (hhmm_to_min end) (hhmm_to_min start) in
    if ltb_ℤ delta (pos 0) then delta +ℤ pos 1440 else delta

-- the first day was a Thursday
abbrev pub weekday_of : IsoDate → ℕ
weekday_of d = (d + 4) % 7

abbrev pub add_days_iso : IsoDate → ℕ → IsoDate
add_days_iso d days = d + days

abbrev pub day_diff : IsoDate → IsoDate → ℤ
day_diff a b = sub_ℕ a b

-- a time of the day
abbrev pub is_clock : Hhmm → Bool
is_clock t = ltb t.hour 24 && ltb t.minute 60
