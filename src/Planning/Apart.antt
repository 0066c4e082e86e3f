-- ===== src/Planning/Apart.antt =====
-- That no two sessions of the calendar take an instructor or a room at the same time.
pub mod Creation
pub mod Series
pub mod Writes
pub mod Assignment
pub mod Settlement
pub mod Removal
pub mod Update
use taco_backend.Common.{
  ℕ, ◌+◌, ◌*◌, ◌≡◌, refl, sym, subst, Bool, true, false, not, ◌&&◌, ◌||◌, Option, none, some, List,
  [], ◌∷◌, ◌++◌, All, arith, is_id, Option-cases, inl, inr,
}
use taco_backend.Store.{Row, Table, find_all}
use taco_backend.Store.WellFormed.{IsWellFormed}
use taco_backend.Time.{Hhmm, hhmm_to_min}
use taco_backend.Schedule.Entity.{ClassSession, is_called_off}
use taco_backend.Schedule.Conflicts.{Candidate, same_id, session_end_min}
use taco_backend.Schedule.Conflicts.Overlap.{spans_meet, IsTimed}
use taco_backend.Planning.{Calendar}
use taco_backend.Planning.Frame.{IsFramed}

abbrev pub start_of : ClassSession → Hhmm → ℕ
start_of s t = s.session_date * 1440 + hhmm_to_min t

abbrev pub end_of : ClassSession → Hhmm → ℕ
end_of s t = s.session_date * 1440 + session_end_min t s.end_time s.duration_minutes

-- two sessions on the one line of minutes; a session without a start is not on it
abbrev pub sessions_meet : ClassSession → ClassSession → Option Hhmm → Option Hhmm → Bool
sessions_meet a b (some t) (some u) =
    spans_meet (start_of a t) (end_of a t) (start_of b u) (end_of b u)
sessions_meet a b _ _ = false

-- both take place, at the same time, and share the instructor or the room
abbrev pub clash : ClassSession → ClassSession → Bool
clash a b =
    not (is_called_off a.status)
    && (not (is_called_off b.status)
        && (sessions_meet a b a.start_time b.start_time
            && (same_id a.instructor_id b.instructor_id || same_id a.room_id b.room_id)))

abbrev pub IsApart : List (Row ClassSession) → Type 0
IsApart [] = Unit
IsApart (s ∷ ss) = All (λ t. clash s.val t.val ≡ false) ss × IsApart ss

-- the end of a session is its start and its duration
abbrev pub FitsFrom : ClassSession → Option Hhmm → Type 0
FitsFrom s none = Unit
FitsFrom s (some t) =
    session_end_min t s.end_time s.duration_minutes ≡ hhmm_to_min t + s.duration_minutes

abbrev pub IsPlaced : ClassSession → Type 0
IsPlaced s = IsTimed s × FitsFrom s s.start_time

-- no two active sessions clash, and their times are times of the day that fit together
pub record IsDisjoint (t : Table ClassSession) : Type 0 where
  pub sessions_wf : IsWellFormed t
  pub apart : IsApart (find_all t)
  pub placed : All (λ s. IsPlaced s.val) (find_all t)

abbrev pub IsClear : Calendar → Type 0
IsClear c = IsDisjoint c.tables.sessions

pub IsClear-IsFramed : IsFramed IsClear
IsClear-IsFramed c c' e p x v = subst IsDisjoint (sym e) v

pub All-append_one :
    {A : Type 0} (P : A → Type 0) (xs : List A) (x : A) → All P xs → P x → All P (xs ++ x ∷ [])
All-append_one P [] x h hx = (hx, tt)
All-append_one P (y ∷ xs) x h hx = (h.0, All-append_one P xs x h.1 hx)

pub IsApart-append_one :
    (ss : List (Row ClassSession)) (s : Row ClassSession)
    → IsApart ss
    → All (λ t. clash t.val s.val ≡ false) ss
    → IsApart (ss ++ s ∷ [])
IsApart-append_one [] s h free = (tt, tt)
IsApart-append_one (t ∷ ss) s h free = (
  All-append_one (λ u. clash t.val u.val ≡ false) ss s h.0 free.0,
  IsApart-append_one ss s h.1 free.1,
)

pub same_id_comm : (o p : Option ℕ) → same_id o p ≡ same_id p o
same_id_comm none none = refl
same_id_comm none (some n) = refl
same_id_comm (some n) none = refl
same_id_comm (some n) (some m) = ground arith

pub clash_comm : (a b : ClassSession) → clash a b ≡ clash b a
clash_comm a b = elim (Option-cases a.start_time) [
  | inl never ↦ ground arith
  | inr (t, e) ↦ elim (Option-cases b.start_time) [
    | inl never ↦ ground arith
    | inr (u, e') ↦
        ground
          (arith, same_id_comm a.instructor_id b.instructor_id, same_id_comm a.room_id b.room_id)
  ]
]
