-- ===== src/Schedule/Conflicts.antt =====
-- src/modules/schedule/conflict.util.ts: what stands in the way of a planned session.
pub mod Overlap
pub mod Clear
use taco_backend.Common.{
  ℕ, ◌+◌, ◌-◌, ◌*◌, Bool, true, false, not, ◌&&◌, ◌||◌, Option, none, some, List, [], ◌∷◌, ◌++◌,
  ltb, leb, ◌==◌, if◌then◌else◌, is_id, is_empty, get_or, elem, flat_map, length, holds,
}
use taco_backend.Common.Int.{ℤ, pos, negsuc, ltb_ℤ, ◌+ℤ◌}
use taco_backend.Store.{Row}
use taco_backend.Time.{Hhmm, IsoDate, hhmm_to_min, day_diff, add_days_iso, weekday_of}
use taco_backend.Schedule.Entity.{ClassSession, Mode, in_person, online, is_called_off}

pub data BlockKind : Type 0 where
  available unavailable online_only : BlockKind

pub data Resource : Type 0 where
  student instructor room : Resource

pub record AvailabilityBlock : Type 0 where
  pub owner_type : Resource
  pub owner_id : ℕ
  pub kind : BlockKind
  pub weekday : ℕ
  pub start_time : Hhmm
  pub end_time : Hhmm
  pub effective_from : Option IsoDate
  pub effective_to : Option IsoDate

pub record Candidate : Type 0 where
  pub session_date : IsoDate
  pub start_time : Hhmm
  pub end_time : Option Hhmm
  pub duration_minutes : Option ℕ
  pub instructor_id : Option ℕ
  pub room_id : Option ℕ
  pub student_ids : Option (List ℕ)
  pub ignore_session_id : Option ℕ
  pub mode : Option Mode

pub data Conflict : Type 0 where
  double_book : Resource → ℕ → ℕ → Conflict
  blocked : Resource → ℕ → BlockKind → Hhmm → Hhmm → Conflict
  room_capacity : ℕ → ℕ → ℕ → Conflict

-- the end in minutes since the start of the session's day
unfoldable pub session_end_min : Hhmm → Option Hhmm → ℕ → ℕ
session_end_min start none duration = hhmm_to_min start + duration
session_end_min start (some end) duration =
    if ltb (hhmm_to_min end) (hhmm_to_min start) then hhmm_to_min end + 1440 else hhmm_to_min end

abbrev pub cand_start : Candidate → ℕ
cand_start c = hhmm_to_min c.start_time

unfoldable pub cand_end : Candidate → ℕ
unfolding session_end_min
cand_end c = session_end_min c.start_time c.end_time (get_or c.duration_minutes 0)

-- `dd * 1440`
abbrev pub day_minutes : ℤ → ℤ
day_minutes (pos n) = pos (n * 1440)
day_minutes (negsuc n) = negsuc (n * 1440 + 1439)

-- nothing where `dd < -1 || dd > 1` skips the session
abbrev pub day_offset : ℤ → Option ℤ
day_offset dd = if ltb_ℤ dd (negsuc 0) || ltb_ℤ (pos 1) dd then none else some (day_minutes dd)

abbrev pub meets : ℕ → ℕ → ℤ → ℤ → Bool
meets cs ce ss se = ltb_ℤ (pos cs) se && ltb_ℤ ss (pos ce)

abbrev pub meets_shifted : ℕ → ℕ → ℕ → ℕ → Option ℤ → Bool
meets_shifted cs ce ss se none = false
meets_shifted cs ce ss se (some off) = meets cs ce (off +ℤ pos ss) (off +ℤ pos se)

abbrev pub starts_against : Candidate → ClassSession → Option Hhmm → Bool
starts_against c s none = false
starts_against c s (some start) =
    meets_shifted (cand_start c) (cand_end c) (hhmm_to_min start)
      (session_end_min start s.end_time s.duration_minutes)
      (day_offset (day_diff s.session_date c.session_date))

-- the session takes time from the candidate
unfoldable pub takes_time : Candidate → Row ClassSession → Bool
unfolding cand_end session_end_min ◌+ℤ◌
takes_time c s =
    not (is_id s.id c.ignore_session_id)
    && (not (is_called_off s.val.status) && starts_against c s.val s.val.start_time)

abbrev pub candidate_students : Candidate → List ℕ
candidate_students c = get_or c.student_ids []

abbrev pub same_id : Option ℕ → Option ℕ → Bool
same_id none o = false
same_id (some n) o = is_id n o

abbrev pub when : Bool → Conflict → List Conflict
when b x = if b then x ∷ [] else []

abbrev pub booked_for : Resource → Option ℕ → Option ℕ → ℕ → List Conflict
booked_for r none o n = []
booked_for r (some i) o n = when (is_id i o) (double_book r i n)

abbrev pub shared_students : List ℕ → List ℕ → ℕ → List Conflict
shared_students [] others n = []
shared_students (i ∷ is) others n =
    when (elem i others) (double_book student i n) ++ shared_students is others n

-- `studentIdsOf`, or else the students that the session names
abbrev pub students_of : Option (Row ClassSession → List ℕ) → Row ClassSession → List ℕ
students_of none s = get_or s.val.student_ids []
students_of (some f) s = f s

unfoldable pub bookings :
    Option (Row ClassSession → List ℕ) → Candidate → Row ClassSession → List Conflict
unfolding takes_time
bookings of c s =
    if takes_time c s
    then booked_for instructor c.instructor_id s.val.instructor_id s.id
      ++ (booked_for room c.room_id s.val.room_id s.id
          ++ shared_students (candidate_students c) (students_of of s) s.id)
    else []

pub record Segment : Type 0 where
  pub date : IsoDate
  pub from : ℕ
  pub to : ℕ

-- a candidate past midnight is checked on both of its days
unfoldable pub segments : Candidate → List Segment
unfolding cand_end
segments c =
    if ltb 1440 (cand_end c)
    then record { date = c.session_date; from = cand_start c; to = 1440 }
      ∷ record { date = add_days_iso c.session_date 1; from = 0; to = cand_end c - 1440 }
      ∷ []
    else record { date = c.session_date; from = cand_start c; to = cand_end c } ∷ []

abbrev pub is_online : Mode → Bool
is_online online = true
is_online in_person = false

-- the kinds of blocks that can stand in the way of a session of that mode
abbrev pub forbids : BlockKind → Option Mode → Bool
forbids unavailable m = true
forbids online_only m = not (is_online (get_or m in_person))
forbids available m = false

-- the block is in force on the segment's day and meets its minutes
abbrev pub covers : AvailabilityBlock → Option Mode → Segment → Bool
covers b m g =
    forbids b.kind m
    && ((b.weekday == weekday_of g.date)
        && (not (holds (λ d. ltb g.date d) b.effective_from)
            && (not (holds (λ d. ltb d g.date) b.effective_to)
                && (ltb g.from (hhmm_to_min b.end_time) && ltb (hhmm_to_min b.start_time) g.to))))

abbrev pub is_owner : Resource → ℕ → Candidate → Bool
is_owner instructor i c = is_id i c.instructor_id
is_owner room i c = is_id i c.room_id
is_owner student i c = elem i (candidate_students c)

abbrev pub block_conflict : Candidate → Segment → AvailabilityBlock → List Conflict
block_conflict c g b =
    when (covers b c.mode g && is_owner b.owner_type b.owner_id c)
      (blocked b.owner_type b.owner_id b.kind b.start_time b.end_time)

unfoldable pub block_conflicts : Candidate → List AvailabilityBlock → List Conflict
unfolding segments
block_conflicts c bs = flat_map (λ g. flat_map (block_conflict c g) bs) (segments c)

abbrev pub over_capacity : ℕ → ℕ → Option ℕ → List Conflict
over_capacity r n none = []
over_capacity r n (some capacity) = when (ltb capacity n) (room_capacity r capacity n)

abbrev pub room_conflicts : Option ℕ → Option (ℕ → Option ℕ) → List ℕ → List Conflict
room_conflicts none of students = []
room_conflicts (some r) none students = []
room_conflicts (some r) (some of) students =
    if is_empty students then [] else over_capacity r (length students) (of r)

unfoldable pub detect_conflicts :
    Candidate
    → List (Row ClassSession)
    → List AvailabilityBlock
    → Option (Row ClassSession → List ℕ)
    → Option (ℕ → Option ℕ)
    → List Conflict
unfolding bookings block_conflicts
detect_conflicts c ss bs students_of_session capacity_of =
    flat_map (bookings students_of_session c) ss
    ++ (block_conflicts c bs ++ room_conflicts c.room_id capacity_of (candidate_students c))
