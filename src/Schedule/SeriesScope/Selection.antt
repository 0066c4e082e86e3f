-- ===== src/Schedule/SeriesScope/Selection.antt =====
-- What is selected from a series, and in which order.
use taco_backend.Common.{
  ◌≡◌, ◌⊎◌, ◌↔◌, ◌≢◌, ◌<◌, Bool, true, false, Option, none, some, List, [], ◌∷◌, filter, sort_by,
  arith, All, All-filter, All-sort_by, IsSortedBy, sort_by-IsSortedBy, ℕ, Memᴰ, Memᴰ-filter_iff,
  Memᴰ-sort_by_iff, All-member,
}
use mathlib.Core.List.Memᴰ
use taco_backend.Time.{Hhmm, hhmm_to_min}
use taco_backend.Schedule.Conflicts.Overlap.{is_clock_or_none}
use taco_backend.Schedule.SeriesScope.{
  SeriesScope, this, this_and_following, all_of_series, SeriesScopeMember, start_key, key_before,
  key_order, is_taken, select_series_scope,
}

-- the minute at which a session starts; one without a start comes after all others of its day
abbrev pub start_minute : Option Hhmm → ℕ
start_minute none = 1440
start_minute (some t) = hhmm_to_min t

-- Earlier in time: on an earlier day, or on the same day at an earlier minute, or at the same minute
-- with a lower id.
abbrev pub IsBefore : SeriesScopeMember → SeriesScopeMember → Type 0
IsBefore a b =
    (a.session_date < b.session_date)
    ⊎ ((a.session_date ≡ b.session_date)
        × ((start_minute a.start_time < start_minute b.start_time)
            ⊎ ((start_minute a.start_time ≡ start_minute b.start_time) × (a.id < b.id))))

-- a time of the day as the start, or none
abbrev pub HasClock : SeriesScopeMember → Type 0
HasClock m = is_clock_or_none m.start_time ≡ true

-- what the scope takes of the members beside the pivot
abbrev pub IsReached : SeriesScope → SeriesScopeMember → SeriesScopeMember → Type 0
IsReached this pivot m = ⊥
IsReached this_and_following pivot m = IsBefore pivot m
IsReached all_of_series pivot m = Unit

start_key-lt :
    (s t : Option Hhmm)
    → is_clock_or_none s ≡ true
    → is_clock_or_none t ≡ true
    → ((start_key s < start_key t) ↔ (start_minute s < start_minute t))
      × ((start_key s ≡ start_key t) ↔ (start_minute s ≡ start_minute t))
start_key-lt none none h h' = ground arith
start_key-lt none (some t) h h' = ground arith
start_key-lt (some s) none h h' = ground arith
start_key-lt (some s) (some t) h h' = ground arith

-- with times of the day, the order of the keys is the order in time
key_before_iff :
    (a b : SeriesScopeMember) → HasClock a → HasClock b → (key_before a b ≡ true) ↔ IsBefore a b
unfolding key_before
key_before_iff a b h h' =
    let (lt, eq) = start_key-lt a.start_time b.start_time h h' in ground (arith, lt, eq)

taken_iff :
    (scope : SeriesScope) (pivot m : SeriesScopeMember)
    → HasClock pivot
    → HasClock m
    → (is_taken scope pivot m ≡ true) ↔ ((m.id ≢ pivot.id) × IsReached scope pivot m)
taken_iff this pivot m h h' = ground arith
taken_iff this_and_following pivot m h h' = ground (arith, key_before_iff pivot m h h')
taken_iff all_of_series pivot m h h' = ground arith

selected_iff :
    (members : List SeriesScopeMember) (pivot m : SeriesScopeMember) (scope : SeriesScope)
    → Memᴰ m (select_series_scope members pivot scope)
      ↔ (Memᴰ m members × (is_taken scope pivot m ≡ true))
unfolding select_series_scope
selected_iff members pivot m this = (λ q. absurd (Memᴰ.not-nil q), λ h. absurd (ground arith))
selected_iff members pivot m this_and_following =
    let test = is_taken this_and_following pivot in
    let sorted = Memᴰ-sort_by_iff key_order m (filter test members) in
    let kept = Memᴰ-filter_iff test m members in
    (λ q. kept.0 (sorted.0 q), λ h. sorted.1 (kept.1 h))
selected_iff members pivot m all_of_series =
    let test = is_taken all_of_series pivot in
    let sorted = Memᴰ-sort_by_iff key_order m (filter test members) in
    let kept = Memᴰ-filter_iff test m members in
    (λ q. kept.0 (sorted.0 q), λ h. sorted.1 (kept.1 h))

-- Where all starts are times of the day, what is selected are the members with another id than the
-- pivot that the scope takes: none for the session alone, those that come after the pivot in time, by
-- day, minute and id, for the following ones, and all for the whole series.
pub Memᴰ-select_series_scope_iff :
    (members : List SeriesScopeMember) (pivot m : SeriesScopeMember) (scope : SeriesScope)
    → All HasClock members
    → HasClock pivot
    → Memᴰ m (select_series_scope members pivot scope)
      ↔ (Memᴰ m members × (m.id ≢ pivot.id) × IsReached scope pivot m)
Memᴰ-select_series_scope_iff members pivot m scope hs h =
    let selected = selected_iff members pivot m scope in
    let taken : Memᴰ m members
        → (is_taken scope pivot m ≡ true) ↔ ((m.id ≢ pivot.id) × IsReached scope pivot m) =
      λ q. taken_iff scope pivot m h (All-member HasClock members hs q) in
    (
      λ q.
          let (there, test) = selected.0 q in
          let (other, reached) = (taken there).0 test in (there, other, reached),
      λ c. selected.1 (c.0, (taken c.0).1 (c.1, c.2)),
    )

-- no member comes before an earlier one in the list
abbrev pub IsOrdered : List SeriesScopeMember → Type 0
IsOrdered [] = Unit
IsOrdered (m ∷ ms) = All (λ u. IsBefore u m → ⊥) ms × IsOrdered ms

key_order_trans :
    (a b c : SeriesScopeMember) → key_order a b ≡ true → key_order b c ≡ true → key_order a c ≡ true
unfolding key_before
key_order_trans a b c h h' = ground arith

key_order_total : (a b : SeriesScopeMember) → key_order a b ≡ false → key_order b a ≡ true
unfolding key_before
key_order_total a b h = ground arith

IsSortedBy-IsOrdered :
    (ms : List SeriesScopeMember) → All HasClock ms → IsSortedBy key_order ms → IsOrdered ms
IsSortedBy-IsOrdered [] hs h = tt
IsSortedBy-IsOrdered (m ∷ ms) hs h = (behind ms hs.1 h.0, IsSortedBy-IsOrdered ms hs.1 h.1)
  where
    behind :
        (us : List SeriesScopeMember)
        → All HasClock us
        → All (λ u. key_order m u ≡ true) us
        → All (λ u. IsBefore u m → ⊥) us
    behind [] cs os = tt
    behind (u ∷ us) cs os = (
      λ e. absurd (ground (arith, (key_before_iff u m cs.0 hs.0).1 e, os.0)),
      behind us cs.1 os.1,
    )

sort-IsOrdered :
    (test : SeriesScopeMember → Bool) (ms : List SeriesScopeMember)
    → All HasClock ms
    → IsOrdered (sort_by key_order (filter test ms))
sort-IsOrdered test ms hs =
    IsSortedBy-IsOrdered (sort_by key_order (filter test ms))
      (All-sort_by HasClock key_order (filter test ms) (All-filter HasClock test ms hs))
      (sort_by-IsSortedBy key_order key_order_trans key_order_total (filter test ms))

-- Where all starts are times of the day, the selection is in the order of time, by day, minute and
-- id: no selected member comes before one that stands earlier in it.
pub select_series_scope-IsOrdered :
    (members : List SeriesScopeMember) (pivot : SeriesScopeMember) (scope : SeriesScope)
    → All HasClock members
    → IsOrdered (select_series_scope members pivot scope)
unfolding select_series_scope
select_series_scope-IsOrdered members pivot this hs = tt
select_series_scope-IsOrdered members pivot this_and_following hs =
    sort-IsOrdered (is_taken this_and_following pivot) members hs
select_series_scope-IsOrdered members pivot all_of_series hs =
    sort-IsOrdered (is_taken all_of_series pivot) members hs
