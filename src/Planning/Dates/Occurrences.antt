-- ===== src/Planning/Dates/Occurrences.antt =====
-- Which days a repetition has.
use taco_backend.Common.{
  ℕ, zero, suc, ◌+◌, ◌-◌, ◌≤◌, ◌<◌, ◌≡◌, refl, sym, ap, subst, ==_iff, ◌∙◌, not, ◌&&◌, ◌||◌, List,
  [], ◌∷◌, ◌++◌, ltb, leb, ◌==◌, if◌then◌else◌, elem, All, length, length-append, arith, Bool-cases,
  inl, inr,
}
use taco_backend.Exec.{Result, ok, err, is_ok, guarded, ok-injective}
use taco_backend.Time.{IsoDate, weekday_of}
use taco_backend.Planning.{
  CalendarError, too_many_occurrences, starts_after_end, weekly_needs_one_day,
}
use taco_backend.Planning.Dates.{
  Repeat, collect_dates, some_dates, occurrence_dates_of, max_occurrences, is_weekly,
}

-- the wanted days among the `n` days from `d`
abbrev pub wanted_days : List ℕ → ℕ → IsoDate → List IsoDate
wanted_days wanted zero d = []
wanted_days wanted (suc n) d =
    if elem (weekday_of d) wanted
    then d ∷ wanted_days wanted n (d + 1)
    else wanted_days wanted n (d + 1)

append_one : (xs ys : List ℕ) (x : ℕ) → (xs ++ x ∷ []) ++ ys ≡ xs ++ (x ∷ ys)
append_one [] ys x = refl
append_one (y ∷ xs) ys x = ground (arith, append_one xs ys x)

append_nil_right : (xs : List ℕ) → xs ++ [] ≡ xs
append_nil_right [] = refl
append_nil_right (x ∷ xs) = ground (arith, append_nil_right xs)

collected :
    (wanted : List ℕ) (n : ℕ) (d : IsoDate) (dates : List IsoDate)
    → length dates ≤ max_occurrences
    → collect_dates wanted n d dates ≡ (
        let all = dates ++ wanted_days wanted n d in
        if ltb max_occurrences (length all) then err too_many_occurrences else ok all)
unfolding collect_dates
collected wanted zero d dates h = ground (arith, append_nil_right dates)
collected wanted (suc n) d dates h =
    let rest = wanted_days wanted n (d + 1) in
    elim (Bool-cases (elem (weekday_of d) wanted)) [
      | inr other ↦ ground (arith, collected wanted n (d + 1) dates, length-append dates rest)
      | inl hit ↦ ground (
        arith,
        append_one dates rest d,
        length-append dates (d ∷ []),
        length-append (dates ++ d ∷ []) rest,
        collected wanted n (d + 1) (dates ++ d ∷ []),
      )
    ]

elem-wanted_days :
    (wanted : List ℕ) (x n d : ℕ)
    → elem x (wanted_days wanted n d) ≡ (leb d x && (ltb x (d + n) && elem (weekday_of x) wanted))
elem-wanted_days wanted x zero d = ground arith
elem-wanted_days wanted x (suc n) d = elim (Bool-cases (d == x)) [
  | inl here ↦ ground (
    arith,
    ap (λ y. elem (weekday_of y) wanted) ((==_iff d x).0 here),
    elem-wanted_days wanted x n (d + 1),
  )
  | inr other ↦ ground (arith, elem-wanted_days wanted x n (d + 1))
]

All-from : (wanted : List ℕ) (n d e : ℕ) → e < d → All (λ y. e < y) (wanted_days wanted n d)
All-from wanted zero d e h = tt
All-from wanted (suc n) d e h = ground (arith, All-from wanted n (d + 1) e)

-- each day is before all that follow it
abbrev pub IsIncreasing : List IsoDate → Type 0
IsIncreasing [] = Unit
IsIncreasing (x ∷ xs) = All (λ y. x < y) xs × IsIncreasing xs

wanted_days-IsIncreasing : (wanted : List ℕ) (n d : ℕ) → IsIncreasing (wanted_days wanted n d)
wanted_days-IsIncreasing wanted zero d = tt
wanted_days-IsIncreasing wanted (suc n) d =
    ground (arith, All-from wanted n (d + 1) d, wanted_days-IsIncreasing wanted n (d + 1))

-- the days of a repetition from its start to its end
abbrev pub days_of : Repeat → List IsoDate
days_of r = wanted_days r.weekdays (r.ends_on + 1 - r.starts_on) r.starts_on

-- the dates, once the checks of the repetition are passed
abbrev dates_or_error : List IsoDate → Result CalendarError (List IsoDate)
dates_or_error days =
    if ltb max_occurrences (length days) then err too_many_occurrences else some_dates (ok days)

checked :
    (r : Repeat)
    → occurrence_dates_of r ≡ (
        if ltb r.ends_on r.starts_on
        then err starts_after_end
        else if is_weekly r.kind && not (length r.weekdays == 1)
        then err weekly_needs_one_day
        else dates_or_error (days_of r))
unfolding occurrence_dates_of
checked r = ground (arith, collected r.weekdays (r.ends_on + 1 - r.starts_on) r.starts_on [])

listed :
    (days dates : List IsoDate)
    → dates_or_error days ≡ ok dates
    → (days ≡ dates) × ((0 < length dates) × (length dates ≤ 120))
listed [] dates h = absurd (ground arith)
listed (x ∷ xs) dates h =
    let (few, same) =
      guarded (ltb 120 (length (x ∷ xs))) too_many_occurrences (ok (x ∷ xs)) dates h in
    let e = ok-injective (x ∷ xs) dates same in
    (e, subst (λ ys. (0 < length ys) × (length ys ≤ 120)) e (ground arith, ground arith))

dates_of :
    (r : Repeat) (dates : List IsoDate)
    → occurrence_dates_of r ≡ ok dates
    → (r.starts_on ≤ r.ends_on) × (days_of r ≡ dates) × ((0 < length dates) × (length dates ≤ 120))
dates_of r dates h =
    let all = sym (checked r) ∙ h in
    let (in_order, rest) = guarded (ltb r.ends_on r.starts_on) _ _ dates all in
    let (one_day, last) =
      guarded (is_weekly r.kind && not (length r.weekdays == 1)) _ _ dates rest in
    let (e, bounds) = listed (days_of r) dates last in (ground arith, e, bounds)

-- Where a repetition has dates, they are the days from its start to its end, both included, that
-- fall on one of its weekdays, in order and each once; there is at least one, and at most 120.
pub occurrence_dates_of-elem :
    (r : Repeat) (dates : List IsoDate)
    → occurrence_dates_of r ≡ ok dates
    → ((x : IsoDate)
        → elem x dates ≡ (leb r.starts_on x && (leb x r.ends_on && elem (weekday_of x) r.weekdays)))
      × IsIncreasing dates
      × ((0 < length dates) × (length dates ≤ 120))
occurrence_dates_of-elem r dates h =
    let (in_order, same, bounds) = dates_of r dates h in
    let n = r.ends_on + 1 - r.starts_on in
    (
      λ x. ap (elem x) (sym same) ∙ (elem-wanted_days r.weekdays x n r.starts_on ∙ ground arith),
      subst IsIncreasing same (wanted_days-IsIncreasing r.weekdays n r.starts_on),
      bounds,
    )

is_ok-dates_or_error :
    (days : List IsoDate)
    → is_ok (dates_or_error days) ≡ (ltb 0 (length days) && leb (length days) 120)
is_ok-dates_or_error [] = refl
is_ok-dates_or_error (x ∷ xs) = ground arith

-- A repetition is accepted exactly when it does not end before it starts, names one weekday where
-- it is weekly, and has from 1 to 120 dates, however many days lie between its start and its end.
pub is_ok-occurrence_dates_of :
    (r : Repeat)
    → is_ok (occurrence_dates_of r) ≡ (
        leb r.starts_on r.ends_on
        && ((not (is_weekly r.kind) || (length r.weekdays == 1))
            && (ltb 0 (length (days_of r)) && leb (length (days_of r)) 120)))
is_ok-occurrence_dates_of r = rw (checked r) (ground (arith, is_ok-dates_or_error (days_of r)))
