-- ===== src/Schedule/SeriesScope.antt =====
-- src/modules/schedule/series-scope.policy.ts: which other sessions of a series an edit takes with it.
-- The order key, a text of the date, the start and the padded id, is the triple of the three: with
-- dates and times of fixed width and ids of at most twelve digits the texts have the triples' order.
pub mod Selection
use taco_backend.Common.{
  ℕ, ◌+◌, ◌*◌, Bool, true, false, not, ◌&&◌, ◌||◌, Option, none, some, List, [], ltb, ◌==◌,
  if◌then◌else◌, filter, sort_by,
}
use taco_backend.Time.{Hhmm, IsoDate}

pub data SeriesScope : Type 0 where
  this this_and_following all_of_series : SeriesScope

pub record SeriesScopeMember : Type 0 where
  pub id : ℕ
  pub session_date : IsoDate
  pub start_time : Option Hhmm

-- the order of "HH:mm" texts, with '99:99' for a missing start
abbrev pub start_key : Option Hhmm → ℕ
start_key none = 99 * 100 + 99
start_key (some t) = t.hour * 100 + t.minute

-- `orderKey(a) < orderKey(b)`
unfoldable pub key_before : SeriesScopeMember → SeriesScopeMember → Bool
key_before a b =
    ltb a.session_date b.session_date
    || ((a.session_date == b.session_date)
        && (ltb (start_key a.start_time) (start_key b.start_time)
            || ((start_key a.start_time == start_key b.start_time) && ltb a.id b.id)))

abbrev pub reaches : SeriesScope → SeriesScopeMember → SeriesScopeMember → Bool
reaches this pivot m = false
reaches this_and_following pivot m = key_before pivot m
reaches all_of_series pivot m = true

abbrev pub key_order : SeriesScopeMember → SeriesScopeMember → Bool
key_order a b = not (key_before b a)

abbrev pub is_taken : SeriesScope → SeriesScopeMember → SeriesScopeMember → Bool
is_taken scope pivot m = not (m.id == pivot.id) && reaches scope pivot m

unfoldable pub select_series_scope :
    List SeriesScopeMember → SeriesScopeMember → SeriesScope → List SeriesScopeMember
unfolding key_before
select_series_scope members pivot this = []
select_series_scope members pivot this_and_following =
    sort_by key_order (filter (is_taken this_and_following pivot) members)
select_series_scope members pivot all_of_series =
    sort_by key_order (filter (is_taken all_of_series pivot) members)
