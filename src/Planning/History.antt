-- ===== src/Planning/History.antt =====
-- The requests of the calendar: the commands of src/modules/schedule/schedule.service.ts.
use Prim.Native.String.{String}
use taco_backend.Common.{ℕ, ◌≡◌, Bool, true, Option, none, some, List}
use taco_backend.Common.Int.{ℤ}
use taco_backend.Time.{is_clock}
use taco_backend.Schedule.Entity.{InstructorAttendance}
use taco_backend.Schedule.SeriesScope.{this}
use taco_backend.Schedule.Participants.{ResolveIds}
use taco_backend.Schedule.Conflicts.Overlap.{is_clock_or_none}
use taco_backend.Schedule.Accounting.Projections.{Impact}
use taco_backend.Planning.{Calendar}
use taco_backend.Planning.Creation.{CreateSession, CreateSeries, create, create_series}
use taco_backend.Planning.Assignment.{AssignInstructor, update_instructor_assignment}
use taco_backend.Planning.Removal.{RemoveOptions, remove_session}
use taco_backend.Planning.Pay.{set_session_pay_amount, restore_session}
use taco_backend.Planning.Update.{UpdateSession, InternalOptions, AttendanceCommand}
use taco_backend.Planning.Update.Commands.{update_class_session, attendance_command}
use taco_backend.Planning.Apart.{IsClear}
use taco_backend.Planning.Apart.Creation.{create-IsClear}
use taco_backend.Planning.Apart.Series.{create_series-IsClear}
use taco_backend.Planning.Apart.Assignment.{update_instructor_assignment-IsClear}
use taco_backend.Planning.Apart.Removal.{remove_session-IsClear, set_session_pay_amount-IsClear}
use taco_backend.Planning.Apart.Update.Commands.{
  update_class_session-IsClear, attendance_command-IsClear,
}

pub data CalendarRequest : Type 0 where
  creates : CreateSession → CalendarRequest
  creates_series : CreateSeries → CalendarRequest
  removes : ℕ → RemoveOptions → CalendarRequest
  restores : ℕ → CalendarRequest
  assigns : ℕ → AssignInstructor → CalendarRequest
  prices : ℕ → Option ℤ → CalendarRequest
  edits : ℕ → UpdateSession → InternalOptions → CalendarRequest
  marks :
      ℕ
      → Bool
      → Bool
      → Option ℕ
      → AttendanceCommand
      → Option (Option InstructorAttendance)
      → CalendarRequest

-- what the controllers let through, save that an edit is of one session: starts are times of the day,
-- and only the attendance commands carry one
abbrev pub IsPlain : CalendarRequest → Type 0
IsPlain (creates dto) = is_clock dto.plan.start_time ≡ true
IsPlain (creates_series dto) = is_clock dto.plan.start_time ≡ true
IsPlain (edits i dto opts) =
    (dto.scope ≡ this) × (is_clock_or_none dto.start_time ≡ true) × (opts.command ≡ none)
IsPlain _ = Unit

module _ (resolve : ResolveIds) (digest : List ℕ → Impact → ℕ) (is_production : Bool) where
  -- the calendar after a request, whether it went through or threw
  unfoldable pub perform : ℕ → Option ℕ → String → CalendarRequest → Calendar → Calendar
  unfolding create create_series remove_session update_instructor_assignment set_session_pay_amount
      update_class_session
  perform now actor why (creates dto) c = (create is_production now actor (some why) dto c).1
  perform now actor why (creates_series dto) c = (create_series is_production now actor dto c).1
  perform now actor why (removes i opts) c =
      (remove_session resolve digest now actor why i opts c).1
  perform now actor why (restores i) c = (restore_session i c).1
  perform now actor why (assigns i dto) c =
      (update_instructor_assignment resolve now actor i dto c).1
  perform now actor why (prices i amount) c = (set_session_pay_amount now actor i amount c).1
  perform now actor why (edits i dto opts) c =
      (update_class_session resolve digest is_production now actor why i dto opts c).1
  perform now actor why (marks i may_manage acknowledged hash command expected) c =
      (attendance_command resolve digest is_production now actor why why may_manage i acknowledged
        hash command expected c).1

module _ (resolve : ResolveIds) (digest : List ℕ → Impact → ℕ) where
  -- In production every such request keeps the calendar clear, whether it goes through or throws.
  pub perform-IsClear :
      (now : ℕ) (actor : Option ℕ) (why : String) (r : CalendarRequest) (c : Calendar)
      → IsPlain r
      → IsClear c
      → IsClear (perform resolve digest true now actor why r c)
  unfolding perform
  perform-IsClear now actor why (creates dto) c h v = create-IsClear now actor (some why) dto c v h
  perform-IsClear now actor why (creates_series dto) c h v =
      create_series-IsClear now actor dto c v h
  perform-IsClear now actor why (removes i opts) c h v =
      remove_session-IsClear resolve digest now actor why i opts c v
  perform-IsClear now actor why (restores i) c h v = v
  perform-IsClear now actor why (assigns i dto) c h v =
      update_instructor_assignment-IsClear resolve now actor i dto c v
  perform-IsClear now actor why (prices i amount) c h v =
      set_session_pay_amount-IsClear now actor i amount c v
  perform-IsClear now actor why (edits i dto opts) c (alone, clock, plain) v =
      update_class_session-IsClear resolve digest now actor why i dto opts c v alone clock plain
  perform-IsClear now actor why (marks i may_manage acknowledged hash command expected) c h v =
      attendance_command-IsClear resolve digest acknowledged hash command expected why true now
        actor why may_manage i c v
