-- ===== src/Planning/Dates.antt =====
-- src/modules/schedule/schedule.service.ts, `occurrenceDatesOf`: the days of a repetition.
pub mod Occurrences
use taco_backend.Common.{
  ℕ, zero, suc, ◌+◌, ◌-◌, Bool, not, ◌&&◌, List, [], ◌∷◌, ◌++◌, ltb, leb, ◌==◌, if◌then◌else◌, elem,
  is_empty, length, sort_by, true, false,
}
use taco_backend.Common.Int.{pos, ltb_ℤ}
use taco_backend.Exec.{Result, ok, err}
use taco_backend.Time.{IsoDate, weekday_of, add_days_iso, day_diff}
use taco_backend.Planning.{
  RepeatKind, weekly, custom, CalendarError, starts_after_end, weekly_needs_one_day, range_too_long,
  too_many_occurrences, no_occurrence,
}

pub record Repeat : Type 0 where
  pub kind : RepeatKind
  pub weekdays : List ℕ
  pub starts_on : IsoDate
  pub ends_on : IsoDate

abbrev pub is_weekly : RepeatKind → Bool
is_weekly weekly = true
is_weekly custom = false

abbrev pub max_occurrences : ℕ
max_occurrences = 120

-- `dates.push(d)` where the weekday is wanted
abbrev pub push_wanted : List ℕ → IsoDate → List IsoDate → List IsoDate
push_wanted wanted d dates = if elem (weekday_of d) wanted then dates ++ d ∷ [] else dates

-- the loop over the days from `d`, with the number of days left
unfoldable pub collect_dates :
    List ℕ → ℕ → IsoDate → List IsoDate → Result CalendarError (List IsoDate)
collect_dates wanted zero d dates = ok dates
collect_dates wanted (suc n) d dates =
    let pushed = push_wanted wanted d dates in
    let rest = collect_dates wanted n (add_days_iso d 1) pushed in
    if ltb max_occurrences (length pushed) then err too_many_occurrences else rest

abbrev pub some_dates : Result CalendarError (List IsoDate) → Result CalendarError (List IsoDate)
some_dates (err e) = err e
some_dates (ok dates) = if is_empty dates then err no_occurrence else ok dates

-- the range is tested by `dayDiff(startsOn, endsOn)`, which is the start minus the end
unfoldable pub occurrence_dates_of : Repeat → Result CalendarError (List IsoDate)
unfolding collect_dates
occurrence_dates_of r =
    if ltb r.ends_on r.starts_on
    then err starts_after_end
    else if is_weekly r.kind && not (length r.weekdays == 1)
    then err weekly_needs_one_day
    else if ltb_ℤ (pos 366) (day_diff r.starts_on r.ends_on)
    then err range_too_long
    else some_dates (collect_dates r.weekdays (r.ends_on + 1 - r.starts_on) r.starts_on [])

-- `[...new Set(ids)]`
abbrev pub distinct_from : List ℕ → List ℕ → List ℕ
distinct_from seen [] = []
distinct_from seen (i ∷ is) =
    if elem i seen then distinct_from seen is else i ∷ distinct_from (i ∷ seen) is

abbrev pub distinct : List ℕ → List ℕ
distinct = distinct_from []

-- the weekdays of a new series, each once and in order
abbrev pub normalized_weekdays : List ℕ → List ℕ
normalized_weekdays ws = sort_by leb (distinct ws)
