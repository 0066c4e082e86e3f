-- ===== src/Planning/Pay.antt =====
-- src/modules/schedule/schedule.service.ts: `setSessionPayAmount` and `restoreSession`, with
-- `setPayAmount` of src/modules/schedule/class-sessions.store.ts.
use taco_backend.Common.{ℕ, Bool, not, Option, none, some, if◌then◌else◌, is_some, is_none, holds}
use taco_backend.Common.Int.{ℤ, pos, pos_part, ltb_ℤ}
use taco_backend.Exec.{Result, ok, err, ◌and_then◌, refuse_if, pure, ◌>>=◌, ◌>>◌, transaction}
use taco_backend.Store.{Row, Table, find_by_id, update}
use taco_backend.Schedule.Entity.{ClassSession, is_held, is_absent}
use taco_backend.Payouts.Rows.{AuditEntity, AuditAction}
use taco_backend.Planning.{
  Calendar, CalendarCommand, CalendarError, check, found, audit_log, session_not_found,
  no_schedule_owner, linked_to_payout, not_held, absent_instructor, bad_amount, changed_meanwhile,
  restore_required,
}

abbrev pub with_pay_amount : Option ℕ → ClassSession → ClassSession
with_pay_amount amount s = record s { instructor_pay_amount = amount }

-- `setPayAmount`: only where the session is not linked
unfoldable pub set_pay_amount :
    ℕ → ℕ → Option ℕ → Table ClassSession → Option (Row ClassSession) × Table ClassSession
set_pay_amount now i amount t = elim (find_by_id i t) [
  | none ↦ (none, t)
  | some s ↦ if is_some s.val.payout_id then (none, t) else update now i (with_pay_amount amount) t
]

abbrev pub is_negative : Option ℤ → Bool
is_negative amount = holds (λ a. ltb_ℤ a (pos 0)) amount

abbrev pub amount_of : Option ℤ → Option ℕ
amount_of none = none
amount_of (some a) = some (pos_part a)

unfoldable pub pay_checks : ℕ → Calendar → Result CalendarError (Row ClassSession)
pay_checks i c = found (find_by_id i c.tables.sessions) session_not_found and_then λ s.
    refuse_if (is_none s.val.instructor_id) no_schedule_owner and_then λ _.
    refuse_if (is_some s.val.payout_id) linked_to_payout and_then λ _.
    refuse_if (not (is_held s.val.status)) not_held and_then λ _.
    refuse_if (is_absent s.val.instructor_attendance) absent_instructor and_then λ _. ok s

abbrev pub write_pay_amount : ℕ → ℕ → Option ℕ → CalendarCommand (Option (Row ClassSession))
write_pay_amount now i amount c =
    let (r, t) = set_pay_amount now i amount c.tables.sessions in
    (ok r, record c { tables = record c.tables { sessions = t } })

abbrev pub log_pay : Option ℕ → ℕ → Row ClassSession → CalendarCommand (Row ClassSession)
log_pay actor i row = do
  audit_log actor AuditEntity.class_sessions i AuditAction.update (some "시수 워크시트 가격 책정(TBO-64)")
  pure row

abbrev pub pay_writes : ℕ → Option ℕ → ℕ → Option ℕ → CalendarCommand (Row ClassSession)
pay_writes now actor i amount = do
  saved ← write_pay_amount now i amount
  row ← check (λ _. found saved changed_meanwhile)
  log_pay actor i row

abbrev pub pay_locked : ℕ → Option ℕ → ℕ → Option ℕ → CalendarCommand (Row ClassSession)
pay_locked now actor i amount = check (pay_checks i) >>= λ _. pay_writes now actor i amount

-- the amount is a whole number; `none` takes it back
unfoldable pub set_session_pay_amount :
    ℕ → Option ℕ → ℕ → Option ℤ → CalendarCommand (Row ClassSession)
unfolding pay_checks set_pay_amount transaction
set_session_pay_amount now actor i amount =
    check (λ _. refuse_if (is_negative amount) bad_amount) >>= λ _.
    transaction (pay_locked now actor i (amount_of amount))

-- `restoreSession` always throws
abbrev pub restore_session : ℕ → CalendarCommand (Row ClassSession)
restore_session i c = (err restore_required, c)
