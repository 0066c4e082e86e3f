-- ===== src/Schedule/Tests.antt =====
-- The theorems on sessions at work on small sessions and candidates.
use taco_backend.Common.{
  ℕ, ◌+◌, ◌≡◌, ◌≤◌, refl, false, none, some, List, [], ◌∷◌, ◌&&◌, not, is_id, All, leb,
  if◌then◌else◌, arith, elem,
}
use taco_backend.Common.Int.{pos, ◌+ℤ◌}
use taco_backend.Exec.{ok}
use taco_backend.Time.{hhmm_to_min, min_to_hhmm}
use taco_backend.Schedule.Entity.{ClassSession, SessionStatus, InstructorAttendance, is_called_off}
use taco_backend.Common.{◌≢◌, ◌↔◌, Memᴰ, map, sort_by, is_some, is_empty, any}
use taco_backend.Schedule.Participants.{
  ResolveIds, ParticipantEnrollment, active, paused, build_cohort_index, cohort_of,
  participant_ids_for_session,
}
use taco_backend.Schedule.Participants.Cohorts.{elem-build_cohort_index, enrols}
use taco_backend.Schedule.SeriesScope.{
  SeriesScopeMember, this_and_following, all_of_series, key_before, select_series_scope,
}
use taco_backend.Schedule.SeriesScope.Selection.{
  Memᴰ-select_series_scope_iff, IsReached, select_series_scope-IsOrdered, IsOrdered,
}
use taco_backend.Schedule.TemporalTransition.{
  attendance_requirement_of, attendance_completion_hold_patch, hold,
}
use taco_backend.Schedule.TemporalTransition.Holding.{hold-required, hold-participants}
use taco_backend.Schedule.SessionTime.{
  normalize_session_time, NormalizedSessionTime, SessionMoment, session_end_passed, session_end_ms,
  session_start_ms,
}
use taco_backend.Schedule.SessionTime.Laws.{
  normalize_session_time-bounds, normalize_session_time-idempotent,
}
use taco_backend.Schedule.Conflicts.{Candidate, takes_time, detect_conflicts, session_end_min}
use taco_backend.Schedule.Conflicts.Overlap.{
  takes_time-overlap, overlap, session_end_min-normalized,
}
use taco_backend.Schedule.Conflicts.Clear.{detect_conflicts-clear, is_double_booked}
use taco_backend.Schedule.Samples.{at, night}

-- 23:00 for two hours, past midnight
abbrev late_time : NormalizedSessionTime
late_time = record { start_time = at 23 0; duration_minutes = 120; end_time = none }

normalize_session_time-bounds_example :
    (late_time.start_time ≡ at 23 0)
    × ((10 ≤ late_time.duration_minutes) × (late_time.duration_minutes ≤ 480))
    × (late_time.end_time ≡ (
        if leb 1440 (hhmm_to_min (at 23 0) + late_time.duration_minutes)
        then none
        else some (min_to_hhmm (hhmm_to_min (at 23 0) + late_time.duration_minutes))))
unfolding normalize_session_time ◌+ℤ◌
normalize_session_time-bounds_example =
    normalize_session_time-bounds (at 23 0) (some (at 1 0)) none none late_time refl

normalize_session_time-idempotent_example :
    normalize_session_time (at 23 0) none (some (pos 120)) (some (pos 90)) ≡ ok late_time
unfolding normalize_session_time ◌+ℤ◌
normalize_session_time-idempotent_example =
    normalize_session_time-idempotent (at 23 0) (some (at 1 0)) none none (some (pos 90)) late_time
      refl

session_end_min-normalized_example :
    session_end_min (at 23 0) none 120 ≡ hhmm_to_min (at 23 0) + 120
unfolding normalize_session_time ◌+ℤ◌
session_end_min-normalized_example =
    session_end_min-normalized (at 23 0) (some (at 1 0)) none none late_time refl

abbrev moment : SessionMoment
moment = record { session_date = 20000; start_time = some (at 10 0); duration_minutes = some 60 }

-- the next day, from one o'clock
abbrev next_day : Candidate
next_day = record {
  session_date = 20001;
  start_time = at 1 0;
  end_time = some (at 2 0);
  duration_minutes = none;
  instructor_id = some 7;
  room_id = none;
  student_ids = none;
  ignore_session_id = none;
  mode = none;
}

takes_time-overlap_example : takes_time next_day night ≡ (
    not (is_id 4 none)
    && (not (is_called_off SessionStatus.scheduled) && overlap next_day night.val))
takes_time-overlap_example =
    takes_time-overlap next_day night (refl, refl, ground arith) (refl, refl, ground arith)

detect_conflicts-clear_example : All (λ s. is_double_booked none next_day s ≡ false) (night ∷ [])
unfolding detect_conflicts
detect_conflicts-clear_example =
    detect_conflicts-clear next_day (night ∷ []) [] none none (refl, refl, ground arith)
      ((refl, refl, ground arith), tt) refl

abbrev rolls : List ParticipantEnrollment
rolls =
    record { student_id = 21; course_id = 3; status = active }
    ∷ record { student_id = 22; course_id = 3; status = paused }
    ∷ []

elem-build_cohort_index_example :
    elem 22 (cohort_of 3 (build_cohort_index rolls)) ≡ any (enrols 3 22) rolls
elem-build_cohort_index_example = elem-build_cohort_index 22 3 rolls

abbrev member : ℕ → ℕ → SeriesScopeMember
member i d = record { id = i; session_date = d; start_time = some (at 10 0) }

-- the pivot itself, an earlier session, two at the pivot's time with lower and higher ids, and a
-- session without a start later on the pivot's day
abbrev series : List SeriesScopeMember
series =
    record { id = 9; session_date = 20007; start_time = none }
    ∷ member 4 20007
    ∷ member 3 20007
    ∷ member 2 20007
    ∷ member 1 20000
    ∷ []

Memᴰ-select_series_scope_iff_example :
    Memᴰ (member 4 20007) (select_series_scope series (member 3 20007) this_and_following) ↔ (
      Memᴰ (member 4 20007) series
      × (◌≢◌ {A = ℕ} 4 3)
      × IsReached this_and_following (member 3 20007) (member 4 20007))
Memᴰ-select_series_scope_iff_example =
    Memᴰ-select_series_scope_iff series (member 3 20007) (member 4 20007) this_and_following
      (refl, (refl, (refl, (refl, (refl, tt))))) refl

select_series_scope-IsOrdered_example :
    IsOrdered (select_series_scope series (member 3 20007) all_of_series)
select_series_scope-IsOrdered_example =
    select_series_scope-IsOrdered series (member 3 20007) all_of_series
      (refl, (refl, (refl, (refl, (refl, tt)))))

selected_ids :
    map (λ m. m.id) (select_series_scope series (member 3 20007) all_of_series) ≡ 1 ∷ 2 ∷ 4 ∷ 9 ∷ []
unfolding select_series_scope key_before sort_by
selected_ids = refl

following_ids :
    map (λ m. m.id) (select_series_scope series (member 3 20007) this_and_following) ≡ 4 ∷ 9 ∷ []
unfolding select_series_scope key_before sort_by
following_ids = refl

-- the rule of the contracts package: the named students, where there are any, or else the cohort
abbrev named_or_cohort : ResolveIds
named_or_cohort none cohort = cohort
named_or_cohort (some []) cohort = cohort
named_or_cohort (some (n ∷ ids)) cohort = n ∷ ids

named_first : (ids cohort : List ℕ) → is_empty ids ≡ false → named_or_cohort (some ids) cohort ≡ ids
named_first [] cohort h = absurd (ground arith)
named_first (n ∷ ids) cohort h = refl

-- an evening session without named students
abbrev evening : ClassSession
evening = record night.val {
  student_ids = none;
  instructor_attendance = some InstructorAttendance.present;
}

hold-required_example :
    is_some (
      attendance_completion_hold_patch named_or_cohort evening
        (build_cohort_index rolls)
        (21 ∷ [])
        9000000000000)
    ≡ not
        (attendance_requirement_of named_or_cohort evening
          (build_cohort_index rolls)
          (21 ∷ [])
          9000000000000).attendance_required
unfolding session_end_passed session_end_ms session_start_ms ◌+ℤ◌ participant_ids_for_session
    build_cohort_index
hold-required_example =
    hold-required named_or_cohort evening (build_cohort_index rolls) (21 ∷ []) 9000000000000 refl
      refl refl refl

hold-participants_example :
    participant_ids_for_session named_or_cohort (hold (some (21 ∷ [])) evening) []
    ≡ participant_ids_for_session named_or_cohort evening (build_cohort_index rolls)
unfolding attendance_completion_hold_patch session_end_passed session_end_ms session_start_ms ◌+ℤ◌
    participant_ids_for_session build_cohort_index
hold-participants_example =
    hold-participants named_or_cohort named_first evening (build_cohort_index rolls) [] (21 ∷ [])
      9000000000000 (some (21 ∷ [])) refl
