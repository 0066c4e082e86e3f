-- ===== src/Users.antt =====
-- src/modules/users: accounts, and who counts as a teacher (user.entity.ts, instructor-profiles.store.ts).
use taco_backend.Common.{
  ℕ, Bool, true, false, ◌&&◌, ◌||◌, Option, none, some, List, if◌then◌else◌, filter, map, elem,
}
use taco_backend.Store.{Row, Table, is_active, find_by_id}

pub data Role : Type 0 where
  instructor manager admin super_admin : Role

pub data AccountStatus : Type 0 where
  pending active rejected : AccountStatus

pub record StaffAccount : Type 0 where
  pub role : Role
  pub status : AccountStatus

pub record InstructorProfile : Type 0 where
  pub user_id : ℕ
  pub active : Bool
  pub default_hourly_rate : Option ℕ

abbrev pub is_active_status : AccountStatus → Bool
is_active_status AccountStatus.active = true
is_active_status _ = false

abbrev pub is_instructor : Role → Bool
is_instructor instructor = true
is_instructor _ = false

abbrev pub may_teach_as_well : Role → Bool
may_teach_as_well manager = true
may_teach_as_well admin = true
may_teach_as_well _ = false

abbrev pub is_active_staff_account : Row StaffAccount → Bool
is_active_staff_account u = is_active_status u.val.status && is_active u

-- an active instructor, or an active manager or admin with an active instructor profile
unfoldable pub is_teaching_account : Option (Row StaffAccount) → List ℕ → Bool
is_teaching_account none profiles = false
is_teaching_account (some u) profiles =
    is_active_staff_account u
    && (is_instructor u.val.role || (may_teach_as_well u.val.role && elem u.id profiles))

unfoldable pub active_teaching_profile_user_ids : List (Row InstructorProfile) → List ℕ
active_teaching_profile_user_ids ps =
    map (λ p. p.val.user_id) (filter (λ p. p.val.active && is_active p) ps)

abbrev active_profile : Option (Row InstructorProfile) → Option (Row InstructorProfile)
active_profile none = none
active_profile (some p) = if p.val.active then some p else none

-- `profiles.findActive`: a profile row has its user's id
abbrev pub find_active_profile : ℕ → Table InstructorProfile → Option (Row InstructorProfile)
find_active_profile user t = active_profile (find_by_id user t)
