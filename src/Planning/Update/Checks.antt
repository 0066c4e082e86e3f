-- ===== src/Planning/Update/Checks.antt =====
-- src/modules/schedule/schedule.service.ts: `update`, its checks under the locks: what the request may ask
-- for, which sessions it reaches, its effect on the accounts, and the conflicts of the new times.
use taco_backend.Common.{
  ℕ, Bool, true, false, not, ◌&&◌, ◌||◌, Option, none, some, List, [], ◌∷◌, if◌then◌else◌, is_some,
  is_none, get_or, map, is_empty, any, holds, elem, flat_map,
}
use taco_backend.Exec.{Result, ok, ◌and_then◌, refuse_if}
use taco_backend.Store.{Row, find_by_id, find_by}
use taco_backend.Schedule.Entity.{ClassSession, InstructorAttendance, is_held, is_called_off}
use taco_backend.Schedule.Participants.{ResolveIds}
use taco_backend.Schedule.Conflicts.{Candidate, Conflict}
use taco_backend.Schedule.Accounting.{is_payout_locked}
use taco_backend.Schedule.Accounting.Projections.{
  Impact, accounting_impact_of, combine_accounting_impacts,
}
use taco_backend.Schedule.TemporalTransition.{is_manual_completion_status_violation}
use taco_backend.Planning.{
  Calendar, CalendarError, found, session_not_found, session_status_fact_mismatch,
  missing_capability, request_target_stale, no_course, no_schedule_owner, no_room,
  series_version_stale, request_scope_stale, payout_reversal_required,
  accounting_impact_ack_required, schedule_conflict,
}
use taco_backend.Planning.Validation.{
  course_of, owner_allowed, room_allowed, active_student_ids, validate_session_student_ids,
  conflicts_against,
}
use taco_backend.Planning.Creation.{can_force_schedule_conflicts}
use taco_backend.Planning.Context.{
  SessionAccountingContext, load_fresh, pricing_input_for, course_hourly_rate,
  assert_dependents_compatible,
}
use taco_backend.Planning.Removal.{
  companions_of, series_row, same_ids, is_stale_version, accounting_impact_hash, is_acknowledged,
}
use taco_backend.Planning.Update.{
  UpdateSession, InternalOptions, MergedFields, Target, apply_fields, merge_fields, with_command,
  member_targets, day_delta_of, start_delta_of, apply_temporal_policy, apply_temporal_policies,
  is_set, complete_attendance,
}

abbrev pub same_attendance : Option InstructorAttendance → Option InstructorAttendance → Bool
same_attendance none none = true
same_attendance (some InstructorAttendance.present) (some InstructorAttendance.present) = true
same_attendance (some InstructorAttendance.late) (some InstructorAttendance.late) = true
same_attendance (some InstructorAttendance.absent) (some InstructorAttendance.absent) = true
same_attendance (some InstructorAttendance.makeup) (some InstructorAttendance.makeup) = true
same_attendance _ _ = false

abbrev is_stale_attendance : InternalOptions → ClassSession → Bool
is_stale_attendance opts s =
    is_some opts.command
    && holds (λ expected. not (same_attendance s.instructor_attendance expected))
        opts.expected_instructor_attendance

abbrev course_allowed : Calendar → Option ℕ → Bool
course_allowed c none = true
course_allowed c (some i) = is_some (course_of c i)

-- the request itself: what it may ask for, and what it names
unfoldable pub request_allowed :
    UpdateSession → InternalOptions → Calendar → Row ClassSession → Result CalendarError (Unit {0})
request_allowed dto opts c cur =
    refuse_if (is_manual_completion_status_violation (some cur.val.status) dto.status)
      session_status_fact_mismatch
    and_then λ _.
        refuse_if (is_some opts.command && not opts.may_manage_attendance) missing_capability
        and_then λ _.
            refuse_if (is_stale_attendance opts cur.val) request_target_stale and_then λ _.
            refuse_if (not (course_allowed c dto.course_id)) no_course and_then λ _.
            refuse_if (not (owner_allowed c dto.instructor_id)) no_schedule_owner and_then λ _.
            refuse_if (not (room_allowed c dto.room_id)) no_room and_then λ _.
            refuse_if (is_stale_version dto.expected_series_version (series_row c cur))
              series_version_stale

-- the session with its new fields, and then those that the scope takes along
unfoldable pub targets_of :
    UpdateSession
    → InternalOptions
    → Calendar
    → Row ClassSession
    → Result CalendarError (Target × List Target)
unfolding merge_fields validate_session_student_ids companions_of member_targets
targets_of dto opts c cur = merge_fields c cur.val dto and_then λ merged.
    validate_session_student_ids c (get_or merged.student_ids []) and_then λ _.
    let primary = with_command opts.command cur.val.status merged in
    member_targets primary (day_delta_of cur.val primary) (start_delta_of cur.val primary)
      (companions_of c cur dto.scope)
    and_then λ ts. ok (record { before = cur; fields = primary }, ts)

abbrev pub target_ids : List Target → List ℕ
target_ids ts = map (λ (t : Target). t.before.id) ts

abbrev pub changed_ids : List (Target × Bool) → List ℕ
changed_ids [] = []
changed_ids ((t, moved) ∷ us) = if moved then t.before.id ∷ changed_ids us else changed_ids us

abbrev pub first_of : List (Target × Bool) → List Target
first_of [] = []
first_of ((t, moved) ∷ us) = t ∷ first_of us

-- the fields that `accountingImpactOf` is given for the session after the change
abbrev pub accounting_shape : MergedFields → ClassSession → ClassSession
accounting_shape f s = record (apply_fields f s) {
  instructor_attendance = get_or f.instructor_attendance none;
  instructor_pay_amount = none;
  student_ids = f.student_ids;
}

pub record Accounted : Type 0 where
  pub primary : Target
  pub members : List Target
  pub reset_ids : List ℕ
  pub impact : Impact
  pub hash : ℕ
  pub requires_ack : Bool

abbrev all_of : Accounted → List Target
all_of a = a.primary ∷ a.members

-- the fields of a target as a plan; without named students the cohort of the course counts
abbrev pub update_candidate : Calendar → MergedFields → Candidate
update_candidate c f = record {
  session_date = f.session_date;
  start_time = f.start_time;
  end_time = f.end_time;
  duration_minutes = some f.duration_minutes;
  instructor_id = f.instructor_id;
  room_id = f.room_id;
  student_ids = some (get_or f.student_ids (active_student_ids c f.course_id));
  ignore_session_id = none;
  mode = f.mode;
}

abbrev pub others : List ℕ → Calendar → List (Row ClassSession)
others moving c = find_by (λ s. not (elem s.id moving)) c.tables.sessions

-- an attendance command leaves the times alone, and no conflict stops it
unfoldable pub update_conflicts : InternalOptions → Calendar → List Target → List Conflict
unfolding conflicts_against
update_conflicts opts c ts =
    if is_some opts.command
    then []
    else flat_map
        (λ (t : Target).
          conflicts_against c (others (target_ids ts) c) (update_candidate c t.fields))
        ts

abbrev pub is_stopped : Bool → UpdateSession → MergedFields → List Conflict → Bool
is_stopped is_production dto primary conflicts =
    not (is_empty conflicts)
    && (not (can_force_schedule_conflicts is_production dto.force)
        && not (is_called_off primary.status))

abbrev pub rate_of : Calendar → ClassSession → Option ℕ
rate_of c s = course_hourly_rate c.tables s.course_id

abbrev pub is_booked : Row ClassSession → Bool
is_booked s = is_held s.val.status || is_payout_locked s.val

abbrev pub any_before : (Row ClassSession → Bool) → List Target → Bool
any_before p ts = any (λ (t : Target). p t.before) ts

-- times do not change together with the status or the instructor's attendance
abbrev pub is_mixed : UpdateSession → InternalOptions → Bool
is_mixed dto opts = is_some dto.status || is_some opts.command

-- only where nothing moved and an attendance is set
abbrev pub completes : UpdateSession → InternalOptions → List ℕ → Bool
completes dto opts reset = is_empty reset && (is_none dto.status && is_set opts.command)

module _ (resolve : ResolveIds) where
  unfoldable pub members_compatible :
      SessionAccountingContext → List Target → Result CalendarError (Unit {0})
  unfolding assert_dependents_compatible
  members_compatible context [] = ok tt
  members_compatible context (t ∷ ts) =
      let rest = members_compatible context ts in
      assert_dependents_compatible resolve context t.before (accounting_shape t.fields t.before.val)
      and_then λ _. rest

  -- what moved is scheduled again, and an instructor's attendance may complete the session
  unfoldable pub settled_targets :
      ℕ
      → UpdateSession
      → InternalOptions
      → SessionAccountingContext
      → Target
      → List Target
      → Result CalendarError (Target × List Target × List ℕ)
  unfolding apply_temporal_policy apply_temporal_policies complete_attendance
  settled_targets now dto opts context t ts =
      apply_temporal_policy (is_mixed dto opts) t and_then λ (u, shifted).
      apply_temporal_policies (is_mixed dto opts) ts and_then λ us.
      let reset = changed_ids ((u, shifted) ∷ us) in
      ok (complete_attendance resolve now context (completes dto opts reset) u, first_of us, reset)

  -- the targets as they will be written, and those that moved
  unfoldable pub planned_targets :
      ℕ
      → ℕ
      → UpdateSession
      → InternalOptions
      → Calendar
      → Result CalendarError (Target × List Target × List ℕ)
  unfolding request_allowed targets_of settled_targets load_fresh
  planned_targets now i dto opts c =
      found (find_by_id i c.tables.sessions) session_not_found and_then λ cur.
      request_allowed dto opts c cur and_then λ _. targets_of dto opts c cur and_then λ (t, ts).
      refuse_if (holds (λ ids. not (same_ids ids (target_ids (t ∷ ts)))) opts.expected_target_ids)
        request_scope_stale
      and_then λ _. settled_targets now dto opts (load_fresh (target_ids (t ∷ ts)) c.tables) t ts

-- the conflicts of the new times stop it, unless the session is called off
unfoldable pub conflicts_allowed :
    Bool
    → UpdateSession
    → InternalOptions
    → Calendar
    → Accounted
    → Result CalendarError (Accounted × List Conflict)
unfolding update_conflicts
conflicts_allowed is_production dto opts c a =
    let conflicts = update_conflicts opts c (a.primary ∷ a.members) in
    refuse_if (is_stopped is_production dto a.primary.fields conflicts)
      (schedule_conflict conflicts)
    and_then λ _. ok (a, conflicts)

module _ (resolve : ResolveIds) (digest : List ℕ → Impact → ℕ) where
  abbrev pub impact_of_target : SessionAccountingContext → Calendar → ClassSession → Target → Impact
  impact_of_target context c after t =
      let i = t.before.id in
      accounting_impact_of t.before.val (accounting_shape t.fields t.before.val)
        (pricing_input_for resolve context i t.before.val (rate_of c t.before.val))
        (pricing_input_for resolve context i after (rate_of c after))

  abbrev pub member_impacts : SessionAccountingContext → Calendar → List Target → List Impact
  member_impacts context c [] = []
  member_impacts context c (t ∷ ts) =
      impact_of_target context c (apply_fields t.fields t.before.val) t
      ∷ member_impacts context c ts

  abbrev pub accounted_of :
      SessionAccountingContext → Calendar → Target → List Target → List ℕ → Accounted
  accounted_of context c t ts reset =
      let impact = combine_accounting_impacts (
        impact_of_target context c (accounting_shape t.fields t.before.val) t
        ∷ member_impacts context c ts) in
      record {
        primary = t;
        members = ts;
        reset_ids = reset;
        impact = impact;
        hash = accounting_impact_hash digest (target_ids (t ∷ ts)) impact;
        requires_ack = impact.changed && any_before is_booked (t ∷ ts);
      }

  unfoldable pub accounting_allowed :
      UpdateSession
      → Calendar
      → SessionAccountingContext
      → Target
      → List Target
      → List ℕ
      → Result CalendarError Accounted
  unfolding assert_dependents_compatible pricing_input_for accounting_impact_of
      combine_accounting_impacts is_payout_locked members_compatible
  accounting_allowed dto c context t ts reset =
      assert_dependents_compatible resolve context t.before (accounting_shape t.fields t.before.val)
      and_then λ _. members_compatible resolve context ts and_then λ _.
          let a = accounted_of context c t ts reset in
          refuse_if (any_before (λ s. is_payout_locked s.val) (t ∷ ts)) payout_reversal_required
          and_then λ _.
              refuse_if
                (a.requires_ack
                  && not (
                      is_acknowledged dto.acknowledge_accounting_impact
                        dto.expected_accounting_impact_hash a.hash))
                accounting_impact_ack_required
              and_then λ _. ok a

  unfoldable pub update_checks :
      Bool
      → ℕ
      → ℕ
      → UpdateSession
      → InternalOptions
      → Calendar
      → Result CalendarError (Accounted × List Conflict)
  unfolding planned_targets accounting_allowed conflicts_allowed load_fresh
  update_checks is_production now i dto opts c =
      planned_targets resolve now i dto opts c and_then λ (t, ts, reset).
      accounting_allowed dto c (load_fresh (target_ids (t ∷ ts)) c.tables) t ts reset
      and_then conflicts_allowed is_production dto opts c
