-- ===== src/Planning/Books/Edits.antt =====
-- Assignments, prices and edits of sessions leave the books of the payouts alone.
use Prim.Native.String.{String}
use taco_backend.Common.{
  ℕ, refl, Bool, Option, none, some, List, [], ◌∷◌, is_some, Option-cases, Bool-cases, inl, inr,
}
use taco_backend.Common.Int.{ℤ}
use taco_backend.Exec.{
  After, After-read, After-transaction, After-bind, After-map, transaction, refuse_if,
}
use taco_backend.Store.{Row, Table, find_by_id, update}
use taco_backend.Schedule.Entity.{ClassSession, InstructorAttendance}
use taco_backend.Schedule.Participants.{ResolveIds}
use taco_backend.Schedule.Conflicts.{Conflict}
use taco_backend.Schedule.Accounting.Projections.{Impact}
use taco_backend.Payouts.Rows.{Db, AuditEntity, AuditAction}
use taco_backend.Planning.{Calendar, found, session_not_found, changed_meanwhile, bad_amount}
use taco_backend.Planning.Assignment.{
  AssignInstructor, update_session, with_instructor, set_default, log_assigned, assigned_answer,
  finish_assignment, assign_writes, assign_checks, assign_locked, update_instructor_assignment,
}
use taco_backend.Planning.Pay.{
  set_pay_amount, with_pay_amount, pay_checks, pay_writes, pay_locked, log_pay, write_pay_amount,
  is_negative, amount_of, set_session_pay_amount,
}
use taco_backend.Planning.Removal.{series_row}
use taco_backend.Planning.Update.{
  UpdateSession, InternalOptions, AttendanceCommand, Target, apply_fields,
}
use taco_backend.Planning.Update.Checks.{Accounted, update_checks}
use taco_backend.Planning.Update.Commands.{
  write_target, write_members, note_update, reason_of, finish_update, update_writes, update_locked,
  update_class_session, attendance_request, attendance_options, attendance_checks,
  attendance_command,
}
use taco_backend.Planning.Frame.{After-audit_log, After-set_default, After-note_update}
use taco_backend.Planning.Books.{
  KeepsBooks, KeepsBooks-sessions, KeepsBooks-IsFramed, KeepsColumns, SameColumns,
  SameColumns-update, SameColumns-refl,
}

module _ (db : Db) where
  After-update_session :
      (now i : ℕ) (f : ClassSession → ClassSession) (c : Calendar)
      → KeepsColumns f
      → KeepsBooks db c
      → After (KeepsBooks db) (update_session now i f) c
  After-update_session now i f c keep w =
      KeepsBooks-sessions db c (update now i f c.tables.sessions).1 w
        (SameColumns-update now i c.tables.sessions f keep)

  assign_writes-KeepsBooks :
      (now actor i : ℕ) (dto : AssignInstructor) (s : Row ClassSession) (c : Calendar)
      → KeepsBooks db c
      → After (KeepsBooks db) (assign_writes now actor i dto s) c
  assign_writes-KeepsBooks now actor i dto s c w =
      let f = with_instructor dto.instructor_id in
      let c1 = (update_session now i f c).1 in
      let framed = KeepsBooks-IsFramed db in
      After-read (KeepsBooks db) c1
        (λ _. found (update now i f c.tables.sessions).0 changed_meanwhile)
        (finish_assignment now actor i dto s) (After-update_session now i f c (λ _. (refl, refl)) w)
        λ row _.
          After-bind (KeepsBooks db) c1 (set_default now (some actor) dto s.val.course_id)
            (λ _. log_assigned actor i dto (assigned_answer dto s row))
            (After-set_default (KeepsBooks db) framed now (some actor) dto s.val.course_id c1
              (After-update_session now i f c (λ _. (refl, refl)) w))
            λ _ w2.
              After-audit_log (KeepsBooks db) framed (some actor) AuditEntity.class_sessions i
                AuditAction.update (some dto.reason)
                (set_default now (some actor) dto s.val.course_id c1).1 w2

  pub After-update_instructor_assignment :
      (resolve : ResolveIds) (now : ℕ) (actor : Option ℕ) (i : ℕ) (dto : AssignInstructor)
      (c : Calendar)
      → KeepsBooks db c
      → After (KeepsBooks db) (update_instructor_assignment resolve now actor i dto) c
  unfolding update_instructor_assignment
  After-update_instructor_assignment resolve now none i dto c w = w
  After-update_instructor_assignment resolve now (some actor) i dto c w =
      After-read (KeepsBooks db) c (λ c. found (find_by_id i c.tables.sessions) session_not_found)
        (λ pre. transaction (assign_locked resolve now actor i dto pre)) w
        λ pre _. After-transaction (KeepsBooks db) c (assign_locked resolve now actor i dto pre) w (
          After-read (KeepsBooks db) c (assign_checks resolve pre.val.course_id i dto)
            (assign_writes now actor i dto) w λ s _. assign_writes-KeepsBooks now actor i dto s c w)

  set_pay_amount-SameColumns :
      (now i : ℕ) (amount : Option ℕ) (t : Table ClassSession)
      → SameColumns t (set_pay_amount now i amount t).1
  unfolding set_pay_amount
  set_pay_amount-SameColumns now i amount t = elim (Option-cases (find_by_id i t)) [
    | inl e ↦ rw (set_pay_amount, e) (SameColumns-refl t)
    | inr (s, e) ↦ elim (Bool-cases (is_some s.val.payout_id)) [
      | inl e' ↦ rw (set_pay_amount, e, e') (SameColumns-refl t)
      | inr e' ↦
          rw (set_pay_amount, e, e')
            (SameColumns-update now i t (with_pay_amount amount) (λ _. (refl, refl)))
    ]
  ]

  pub After-set_session_pay_amount :
      (now : ℕ) (actor : Option ℕ) (i : ℕ) (amount : Option ℤ) (c : Calendar)
      → KeepsBooks db c
      → After (KeepsBooks db) (set_session_pay_amount now actor i amount) c
  unfolding set_session_pay_amount
  After-set_session_pay_amount now actor i amount c w =
      let locked = pay_locked now actor i (amount_of amount) in
      After-read (KeepsBooks db) c (λ _. refuse_if (is_negative amount) bad_amount)
        (λ _. transaction locked) w
        λ _ _. After-transaction (KeepsBooks db) c locked w (
          After-read (KeepsBooks db) c (pay_checks i)
            (λ _. pay_writes now actor i (amount_of amount)) w
            λ s _.
              let paid = write_pay_amount now i (amount_of amount) c in
              let w1 =
                KeepsBooks-sessions db c
                  (set_pay_amount now i (amount_of amount) c.tables.sessions).1 w
                  (set_pay_amount-SameColumns now i (amount_of amount) c.tables.sessions) in
              After-read (KeepsBooks db) paid.1
                (λ _.
                  found (set_pay_amount now i (amount_of amount) c.tables.sessions).0
                    changed_meanwhile)
                (log_pay actor i) w1
                λ row _.
                  After-audit_log (KeepsBooks db) (KeepsBooks-IsFramed db) actor
                    AuditEntity.class_sessions i AuditAction.update (some "시수 워크시트 가격 책정(TBO-64)")
                    paid.1 w1)

  After-write_members :
      (now : ℕ) (ts : List Target) (c : Calendar)
      → KeepsBooks db c
      → After (KeepsBooks db) (write_members now ts) c
  unfolding write_members
  After-write_members now [] c w = w
  After-write_members now (t ∷ ts) c w =
      After-write_members now ts (write_target now t c).1
        (After-update_session now t.before.id (apply_fields t.fields) c (λ _. (refl, refl)) w)

  After-update_writes :
      (now : ℕ) (actor : Option ℕ) (why : String) (dto : UpdateSession) (opts : InternalOptions)
      (a : Accounted) (conflicts : List Conflict) (c : Calendar)
      → KeepsBooks db c
      → After (KeepsBooks db) (update_writes now actor why dto opts a conflicts) c
  After-update_writes now actor why dto opts a conflicts c w =
      let series = series_row c a.primary.before in
      let c1 = (write_target now a.primary c).1 in
      let reason = reason_of why opts a in
      After-bind (KeepsBooks db) c1 (write_members now a.members)
        (λ _.
          finish_update now actor why dto opts a conflicts series
            (update now a.primary.before.id (apply_fields a.primary.fields) c.tables.sessions).0)
        (After-write_members now a.members c1 (
          After-update_session now a.primary.before.id (apply_fields a.primary.fields) c
            (λ _. (refl, refl)) w))
        λ _ w2.
          let c2 = (write_members now a.members c1).1 in
          After-map (KeepsBooks db) c2 (note_update now actor reason dto.scope series a) (λ _. _)
            (After-note_update (KeepsBooks db) (KeepsBooks-IsFramed db) now actor reason dto.scope
              series a c2 w2)

  module _ (resolve : ResolveIds) (digest : List ℕ → Impact → ℕ) (is_production : Bool) where
    pub After-update_class_session :
        (now : ℕ) (actor : Option ℕ) (why : String) (i : ℕ) (dto : UpdateSession)
        (opts : InternalOptions) (c : Calendar)
        → KeepsBooks db c
        → After
            (KeepsBooks db)
            (update_class_session resolve digest is_production now actor why i dto opts)
            c
    unfolding update_class_session
    After-update_class_session now actor why i dto opts c w =
        let locked = update_locked resolve digest is_production now actor why i dto opts in
        After-read (KeepsBooks db) c (λ c. found (find_by_id i c.tables.sessions) session_not_found)
          (λ _. transaction locked) w
          λ _ _. After-transaction (KeepsBooks db) c locked w (
            After-read (KeepsBooks db) c (update_checks resolve digest is_production now i dto opts)
              (λ (a, conflicts). update_writes now actor why dto opts a conflicts) w
              λ (a, conflicts) _. After-update_writes now actor why dto opts a conflicts c w)

    pub After-attendance_command :
        (now : ℕ) (actor : Option ℕ) (why reason : String) (may_manage : Bool) (i : ℕ)
        (acknowledged : Bool) (hash : Option ℕ) (command : AttendanceCommand)
        (expected : Option (Option InstructorAttendance)) (c : Calendar)
        → KeepsBooks db c
        → After
            (KeepsBooks db)
            (attendance_command resolve digest is_production now actor why reason may_manage i
              acknowledged hash command expected)
            c
    After-attendance_command now actor why reason may_manage i acknowledged hash command expected c
          w =
        let dto = attendance_request acknowledged hash in
        let opts = attendance_options command expected reason in
        After-read (KeepsBooks db) c (attendance_checks may_manage i)
          (λ _. update_class_session resolve digest is_production now actor why i dto opts) w
          λ _ _. After-update_class_session now actor why i dto opts c w
