-- ===== src/Payouts/Commands.antt =====
-- src/modules/payouts/payouts.service.ts: the commands, each in one transaction. Locks and refreshes of
-- the read model are left out: the commands run one at a time, on the tables themselves.
use Prim.Native.String.{String}
use taco_backend.Common.{
  ℕ, true, false, not, ◌||◌, Option, none, some, List, [], ◌∷◌, ◌++◌, ◌==◌, is_empty, get_or,
  if◌then◌else◌,
}
use taco_backend.Common.Int.{ℤ, pos, negsuc}
use taco_backend.Exec.{Result, ok, err, pure, or_throw, throw_if, ◌>>=◌, ◌>>◌, transaction}
use taco_backend.Store.{Row}
use taco_backend.Time.{IsoDate}
use taco_backend.Schedule.Participants.{ResolveIds}
use taco_backend.Payouts.Rows.{
  Payout, pending, confirmed, paid, rejected, Transaction, AuditEntity, AuditAction, Db,
  is_paid_status, is_rejected,
}
use taco_backend.Payouts.Read.{
  PayoutError, no_eligible_sessions, changed_meanwhile, already_confirmed, already_paid,
  stale_status, bad_amount, bad_status, measure, active_instructor_ids, payout_from_db, find_one,
}
use taco_backend.Payouts.Steps.{
  Command, read, audit_log, same_status, cas_payout, payout_cas, has_status, insert_transaction,
  ledger_row, touch_sessions, release_session, release_paid_session, pay_session, claim_lines,
  payout_of, insert_payout,
}

module _ (resolve : ResolveIds) where
  unfoldable pub generate :
      ℕ → Option ℕ → ℕ → Option IsoDate → Option IsoDate → Command (Row Payout)
  generate now actor instructor from to = transaction (do
    before ← read (λ db. measure resolve db instructor from to)
    throw_if (before.session_count == 0) no_eligible_sessions
    m ← read (λ db. measure resolve db instructor from to)
    throw_if (m.session_count == 0) changed_meanwhile
    payout ← insert_payout now (payout_of m)
    claim_lines now payout.id m.lines
    audit_log actor AuditEntity.instructor_payouts payout.id AuditAction.create none
    pure payout)

-- pending to confirmed
unfoldable pub confirm : ℕ → Option ℕ → ℕ → Command (Row Payout)
confirm now actor k = transaction (do
  p ← read (payout_from_db k)
  throw_if (same_status p.val.status confirmed) already_confirmed
  throw_if (not (same_status p.val.status pending)) (bad_status p.val.status)
  done ←
      cas_payout now k (payout_cas p)
        (λ v. record v { status = confirmed; confirmed_at = some now })
  updated ← or_throw done stale_status
  audit_log actor AuditEntity.instructor_payouts k AuditAction.approve none
  pure updated)

-- confirmed back to pending
unfoldable pub unconfirm : ℕ → Option ℕ → ℕ → String → Command (Row Payout)
unconfirm now actor k reason = transaction (do
  p ← read (find_one k)
  throw_if (not (same_status p.val.status confirmed)) (bad_status p.val.status)
  done ←
      cas_payout now k (has_status confirmed)
        (λ v. record v { status = pending; confirmed_at = none })
  updated ← or_throw done stale_status
  audit_log actor AuditEntity.instructor_payouts k AuditAction.status_change (some reason)
  pure updated)

-- `amount == null || amount < 0` is refused
abbrev pub valid_amount : Option ℤ → Option ℕ
valid_amount none = none
valid_amount (some (pos n)) = some n
valid_amount (some (negsuc _)) = none

-- a new amount, as long as the payout is neither paid nor rejected
unfoldable pub adjust : ℕ → Option ℕ → ℕ → Option ℤ → Option String → Command (Row Payout)
adjust now actor k amount reason = transaction (do
  p ← read (payout_from_db k)
  throw_if (is_paid_status p.val.status || is_rejected p.val.status) (bad_status p.val.status)
  n ← or_throw (valid_amount amount) bad_amount
  done ←
      cas_payout now k (payout_cas p)
        (λ v. record v { adjusted_amount = some n; adjust_reason = reason; amount = n })
  updated ← or_throw done stale_status
  audit_log actor AuditEntity.instructor_payouts k AuditAction.update reason
  pure updated)

-- any status but paid to rejected; the sessions of the payout are released
unfoldable pub reject : ℕ → Option ℕ → ℕ → Option String → Command (Row Payout)
reject now actor k reason = transaction (do
  scoped ← read (payout_from_db k)
  p ← read (payout_from_db k)
  throw_if (is_paid_status p.val.status) (bad_status p.val.status)
  done ←
      cas_payout now k (has_status p.val.status)
        (λ v. record v { status = rejected; rejected_reason = some (get_or reason "사유 미기재") })
  updated ← or_throw done stale_status
  touch_sessions now k release_session p.val.lines
  audit_log actor AuditEntity.instructor_payouts k AuditAction.reject
      (some (get_or reason "사유 미기재"))
  pure updated)

-- paid to rejected, with a compensating ledger row; the sessions are released and unpaid again
unfoldable pub reverse : ℕ → Option ℕ → ℕ → String → Command (Row Payout × Row Transaction)
reverse now actor k reason = transaction (do
  p ← read (find_one k)
  throw_if (not (is_paid_status p.val.status)) (bad_status p.val.status)
  done ← cas_payout now k (has_status paid) (λ v. record v {
    status = rejected;
    reversed_at = some now;
    rejected_reason = some reason;
    reversed_reason = some reason;
  })
  updated ← or_throw done stale_status
  tx ← insert_transaction now (ledger_row false k updated.val.amount now)
  touch_sessions now k release_paid_session p.val.lines
  audit_log actor AuditEntity.instructor_payouts k AuditAction.status_change (some reason)
  audit_log actor AuditEntity.transactions tx.id AuditAction.create none
  pure (updated, tx))

-- confirmed to paid, with one ledger row; the sessions are marked as paid
unfoldable pub pay : ℕ → Option ℕ → ℕ → Command (Row Payout × Row Transaction)
pay now actor k = transaction (do
  p ← read (find_one k)
  throw_if (is_paid_status p.val.status) already_paid
  throw_if (not (same_status p.val.status confirmed)) (bad_status p.val.status)
  done ←
      cas_payout now k (has_status confirmed) (λ v. record v { status = paid; paid_at = some now })
  updated ← or_throw done stale_status
  tx ← insert_transaction now (ledger_row true k updated.val.amount now)
  touch_sessions now k (pay_session k) p.val.lines
  audit_log actor AuditEntity.instructor_payouts k AuditAction.status_change none
  audit_log actor AuditEntity.transactions tx.id AuditAction.create none
  pure (updated, tx))

-- What a bulk settlement reports of each target.
pub record BulkResult : Type 0 where
  pub generated : List (ℕ × Row Payout)
  pub skipped : List ℕ
  pub failed : List (ℕ × PayoutError)

abbrev pub tally : ℕ → Result PayoutError (Row Payout) → BulkResult → BulkResult
tally i (ok p) r = record r { generated = r.generated ++ (i, p) ∷ [] }
tally i (err no_eligible_sessions) r = record r { skipped = r.skipped ++ i ∷ [] }
tally i (err e) r = record r { failed = r.failed ++ (i, e) ∷ [] }

module _ (resolve : ResolveIds) where
  -- every target in a transaction of its own: what fails is reported, and the next one runs
  unfoldable pub generate_each :
      ℕ → Option ℕ → Option IsoDate → Option IsoDate → List ℕ → BulkResult → Db → BulkResult × Db
  generate_each now actor from to [] r db = (r, db)
  generate_each now actor from to (i ∷ is) r db =
      let (res, db') = generate resolve now actor i from to db in
      generate_each now actor from to is (tally i res r) db'

  unfoldable pub generate_bulk :
      ℕ → Option ℕ → Option IsoDate → Option IsoDate → Option (List ℕ) → Db → BulkResult × Db
  unfolding generate_each
  generate_bulk now actor from to ids db =
      let named = get_or ids [] in
      let targets = if is_empty named then active_instructor_ids resolve db else named in
      generate_each now actor from to targets (record { generated = []; skipped = []; failed = [] })
        db
