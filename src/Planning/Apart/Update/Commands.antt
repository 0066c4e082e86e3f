-- ===== src/Planning/Apart/Update/Commands.antt =====
-- An edit of one session, and a command on the instructor's attendance, keep the sessions apart.
use Prim.Native.String.{String}
use taco_backend.Common.{
  ℕ, ◌≡◌, sym, ap, ◌∙◌, subst, Bool, true, false, Option, none, some, List, [], ◌∷◌, ◌==◌, All,
  All-implies,
}
use taco_backend.Exec.{
  After-read, After-bind, After-map, After-transaction, transaction, and_then-ok,
}
use taco_backend.Store.{Row, find_by_id, find_all, update}
use taco_backend.Schedule.Entity.{ClassSession, InstructorAttendance}
use taco_backend.Schedule.SeriesScope.{this}
use taco_backend.Schedule.Participants.{ResolveIds}
use taco_backend.Schedule.Conflicts.{Conflict}
use taco_backend.Schedule.Conflicts.Overlap.{is_clock_or_none}
use taco_backend.Schedule.Accounting.Projections.{Impact}
use taco_backend.Planning.{Calendar, found, session_not_found}
use taco_backend.Planning.Context.{load_fresh}
use taco_backend.Planning.Assignment.{update_session}
use taco_backend.Planning.Removal.{series_row}
use taco_backend.Planning.Update.{UpdateSession, InternalOptions, AttendanceCommand, apply_fields}
use taco_backend.Planning.Update.Checks.{
  Accounted, update_checks, target_ids, is_stopped, update_conflicts,
}
use taco_backend.Planning.Update.Commands.{
  write_target, write_members, reason_of, note_update, finish_update, update_writes, update_locked,
  update_class_session, attendance_request, attendance_options, attendance_checks,
  attendance_command,
}
use taco_backend.Planning.Apart.{clash, IsClear, IsPlaced}
use taco_backend.Planning.Apart.Assignment.{find_by_id-id}
use taco_backend.Planning.Apart.Writes.{
  update-IsDisjoint, IsDisjoint-elsewhere, IsDisjoint-IsPlaced,
}
use taco_backend.Planning.Apart.Update.{IsAlone, apply_fields-IsPlaced}
use taco_backend.Planning.Apart.Update.Edits.{
  update_checks-this, accounting_allowed-ok, conflicts_allowed-ok,
}
use taco_backend.Planning.Apart.Update.Free.{edited-free}
use taco_backend.Planning.Apart.Update.Attendance.{IsSteady, steady-clash, planned_targets-IsSteady}
use taco_backend.Planning.Frame.{After-note_update}
use taco_backend.Planning.Apart.{IsClear-IsFramed}

-- the writes for a session alone, which clashes with no other in its new fields
update_writes-IsClear :
    (now : ℕ) (actor : Option ℕ) (why : String) (i : ℕ) (dto : UpdateSession)
    (opts : InternalOptions) (a : Accounted) (conflicts : List Conflict) (c : Calendar)
    (cur : Row ClassSession)
    → IsClear c
    → find_by_id i c.tables.sessions ≡ some cur
    → a.primary.before ≡ cur
    → a.members ≡ []
    → IsPlaced (apply_fields a.primary.fields cur.val)
    → All
        (λ t. (t.id == i) ≡ false → clash t.val (apply_fields a.primary.fields cur.val) ≡ false)
        (find_all c.tables.sessions)
    → IsClear (update_writes now actor why dto opts a conflicts c).1
unfolding write_members
update_writes-IsClear now actor why i dto opts a conflicts c cur v there before alone placed free =
    let series = series_row c a.primary.before in
    let w = write_target now a.primary c in
    let same : a.primary.before.id ≡ i =
      ap (λ s. s.id) before ∙ find_by_id-id i c.tables.sessions cur there in
    let v1 : IsClear w.1 =
      subst (λ k. IsClear (update_session now k (apply_fields a.primary.fields) c).1) (sym same)
        (update-IsDisjoint now i c.tables.sessions (apply_fields a.primary.fields) cur there placed
          free v) in
    let v2 : IsClear (write_members now a.members w.1).1 =
      subst (λ ts. IsClear (write_members now ts w.1).1) (sym alone) v1 in
    After-bind IsClear w.1 (write_members now a.members)
      (λ _.
        finish_update now actor why dto opts a conflicts series
          (update now a.primary.before.id (apply_fields a.primary.fields) c.tables.sessions).0)
      v2
      λ _ v3.
        let c3 = (write_members now a.members w.1).1 in
        After-map IsClear c3 (note_update now actor (reason_of why opts a) dto.scope series a)
          (λ _. _)
          (After-note_update IsClear IsClear-IsFramed now actor (reason_of why opts a) dto.scope
            series a c3 v3)

module _ (resolve : ResolveIds) (digest : List ℕ → Impact → ℕ) where
  update_locked-IsClear :
      (now : ℕ) (actor : Option ℕ) (why : String) (i : ℕ) (dto : UpdateSession)
      (opts : InternalOptions) (c : Calendar)
      → IsClear c
      → dto.scope ≡ this
      → is_clock_or_none dto.start_time ≡ true
      → opts.command ≡ none
      → IsClear (update_locked resolve digest true now actor why i dto opts c).1
  unfolding IsAlone
  update_locked-IsClear now actor why i dto opts c v alone clock plain =
      After-read IsClear c (update_checks resolve digest true now i dto opts)
        (λ (a, conflicts). update_writes now actor why dto opts a conflicts) v
        λ (a, conflicts) e.
          let (cur, there, one, passes) =
            update_checks-this resolve digest true now i dto opts c a conflicts alone clock v e in
          let (before, members, fits) = one in
          update_writes-IsClear now actor why i dto opts a conflicts c cur v there before members
            (apply_fields-IsPlaced a.primary.fields cur.val fits)
            (edited-free c i dto opts a.primary cur v fits plain before
              (find_by_id-id i c.tables.sessions cur there)
              (subst
                (λ ts.
                  is_stopped true dto a.primary.fields (update_conflicts opts c (a.primary ∷ ts))
                  ≡ false)
                members passes))

  -- `update` of one session, not a command on attendance, keeps the sessions apart.
  pub update_class_session-IsClear :
      (now : ℕ) (actor : Option ℕ) (why : String) (i : ℕ) (dto : UpdateSession)
      (opts : InternalOptions) (c : Calendar)
      → IsClear c
      → dto.scope ≡ this
      → is_clock_or_none dto.start_time ≡ true
      → opts.command ≡ none
      → IsClear (update_class_session resolve digest true now actor why i dto opts c).1
  unfolding update_class_session
  update_class_session-IsClear now actor why i dto opts c v alone clock plain =
      let locked = update_locked resolve digest true now actor why i dto opts in
      After-read IsClear c (λ c. found (find_by_id i c.tables.sessions) session_not_found)
        (λ _. transaction locked) v
        λ _ _.
          After-transaction IsClear c locked v
            (update_locked-IsClear now actor why i dto opts c v alone clock plain)

  module _ (acknowledged : Bool) (hash : Option ℕ) (command : AttendanceCommand)
      (expected : Option (Option InstructorAttendance)) (reason : String)
      (is_production : Bool) where
    attendance_locked-IsClear :
        (now : ℕ) (actor : Option ℕ) (why : String) (i : ℕ) (c : Calendar)
        → IsClear c
        → IsClear
            (update_locked resolve digest is_production now actor why i
              (attendance_request acknowledged hash)
              (attendance_options command expected reason)
              c).1
    unfolding update_checks
    attendance_locked-IsClear now actor why i c v =
        let dto = attendance_request acknowledged hash in
        let opts = attendance_options command expected reason in
        After-read IsClear c (update_checks resolve digest is_production now i dto opts)
          (λ (a, conflicts). update_writes now actor why dto opts a conflicts) v
          λ (a, conflicts) e.
            let ((t, ts, reset), plans, e1) = and_then-ok _ _ (a, conflicts) e in
            let (b, accounted, e2) = and_then-ok _ _ (a, conflicts) e1 in
            let (same, passes) = conflicts_allowed-ok is_production dto opts c b a conflicts e2 in
            let context = load_fresh (target_ids (t ∷ ts)) c.tables in
            let (primary, members) =
              accounting_allowed-ok resolve digest dto c context t ts reset b accounted in
            let (cur, there, before, alone, steady) =
              planned_targets-IsSteady acknowledged hash command expected reason resolve now i c t
                ts reset v plans in
            let target : a.primary ≡ t = ap (λ x. x.primary) (sym same) ∙ primary in
            let f : IsSteady cur.val a.primary.fields =
              subst (λ x. IsSteady cur.val x.fields) (sym target) steady in
            let placed = IsDisjoint-IsPlaced i c.tables.sessions cur v there in
            update_writes-IsClear now actor why i dto opts a conflicts c cur v there
              (ap (λ x. x.before) target ∙ before)
              (ap (λ x. x.members) (sym same) ∙ (members ∙ alone))
              (apply_fields-IsPlaced a.primary.fields cur.val f.0.fits)
              (All-implies (λ u. (u.id == i) ≡ false → clash u.val cur.val ≡ false)
                (λ u.
                  (u.id == i) ≡ false → clash u.val (apply_fields a.primary.fields cur.val) ≡ false)
                (find_all c.tables.sessions)
                (λ u free n. steady-clash cur.val u.val a.primary.fields placed f (free n))
                (IsDisjoint-elsewhere i c.tables.sessions cur v there))

    -- `setInstructorAttendance` and `clearInstructorAttendance` keep the sessions apart.
    pub attendance_command-IsClear :
        (now : ℕ) (actor : Option ℕ) (why : String) (may_manage : Bool) (i : ℕ) (c : Calendar)
        → IsClear c
        → IsClear
            (attendance_command resolve digest is_production now actor why reason may_manage i
              acknowledged hash command expected c).1
    unfolding update_class_session
    attendance_command-IsClear now actor why may_manage i c v =
        let dto = attendance_request acknowledged hash in
        let opts = attendance_options command expected reason in
        let locked = update_locked resolve digest is_production now actor why i dto opts in
        After-read IsClear c (attendance_checks may_manage i)
          (λ _. update_class_session resolve digest is_production now actor why i dto opts) v
          λ _ _.
            After-read IsClear c (λ c. found (find_by_id i c.tables.sessions) session_not_found)
              (λ _. transaction locked) v
              λ _ _.
                After-transaction IsClear c locked v (attendance_locked-IsClear now actor why i c v)
