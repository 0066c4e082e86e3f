-- ===== src/Payouts/Steps.antt =====
-- The steps that the commands of src/modules/payouts/payouts.service.ts are made of: reads, compare-and-set
-- writes, ledger rows, session patches, and `claimPayout` of src/modules/schedule/class-sessions.store.ts.
-- An audit row is written when the actor is known. Each step takes the time at which it runs.
use Prim.Native.String.{String}
use taco_backend.Common.{
  ℕ, Bool, true, false, ◌&&◌, Option, none, some, List, [], ◌∷◌, ◌++◌, ◌==◌, is_id, is_none,
  if◌then◌else◌,
}
use taco_backend.Exec.{Result, ok, Exec, pure, modify, throw_if, ◌>>=◌, ◌>>◌}
use taco_backend.Store.{Row, Table, find_by_id, insert, update, update_if}
use taco_backend.Schedule.Entity.{ClassSession}
use taco_backend.Schedule.Accounting.{is_payout_locked}
use taco_backend.Payouts.Rows.{
  Payout, PayoutStatus, pending, confirmed, paid, rejected, PayoutLine, Transaction, incoming,
  outgoing, instructor_payout, payout_reversal, AuditEntity, AuditAction, AuditEntry, Db,
}
use taco_backend.Payouts.Read.{PayoutError, session_claimed, Measure}

abbrev pub Command : Type 0 → Type 0
Command = Exec PayoutError Db

abbrev pub read : {A : Type 0} → (Db → Result PayoutError A) → Command A
read f db = (f db, db)

abbrev pub audit_entry : AuditEntity → ℕ → AuditAction → ℕ → Option String → AuditEntry
audit_entry e i a actor why = record {
  entity = e;
  entity_id = i;
  action = a;
  actor_id = actor;
  reason = why;
}

-- `if (actorId != null) await this.audit.log(…)`
abbrev pub log_if : Option ℕ → AuditEntity → ℕ → AuditAction → Option String → Db → Db
log_if none e i a why db = db
log_if (some actor) e i a why db = record db {
  audit = db.audit ++ audit_entry e i a actor why ∷ [];
}

abbrev pub audit_log : Option ℕ → AuditEntity → ℕ → AuditAction → Option String → Command (Unit {0})
audit_log actor e i a why = modify (log_if actor e i a why)

abbrev pub same_status : PayoutStatus → PayoutStatus → Bool
same_status pending pending = true
same_status confirmed confirmed = true
same_status paid paid = true
same_status rejected rejected = true
same_status _ _ = false

-- `store.updateIf(INSTRUCTOR_PAYOUTS_SPEC, …)`
abbrev pub cas_payout :
    ℕ → ℕ → (Row Payout → Bool) → (Payout → Payout) → Command (Option (Row Payout))
cas_payout now k expected f db =
    let (r, t) = update_if now k expected f db.payouts in (ok r, record db { payouts = t })

-- `payoutCas`: status, amount and revision of the row that was read
abbrev pub payout_cas : Row Payout → Row Payout → Bool
payout_cas p r =
    same_status r.val.status p.val.status
    && ((r.val.amount == p.val.amount) && (r.updated_at == p.updated_at))

abbrev pub has_status : PayoutStatus → Row Payout → Bool
has_status st r = same_status r.val.status st

abbrev pub insert_transaction : ℕ → Transaction → Command (Row Transaction)
insert_transaction now tx db =
    let (r, t) = insert now tx db.transactions in (ok r, record db { transactions = t })

abbrev pub ledger_row : Bool → ℕ → ℕ → ℕ → Transaction
ledger_row true k amount now = record {
  direction = outgoing;
  category = instructor_payout;
  amount = amount;
  occurred_at = now;
  payout_id = some k;
  expense_id = none;
}
ledger_row false k amount now = record {
  direction = incoming;
  category = payout_reversal;
  amount = amount;
  occurred_at = now;
  payout_id = some k;
  expense_id = none;
}

-- the session's patch of a command, written only where the session is linked to the payout
abbrev pub touch :
    ℕ → ℕ → (ClassSession → ClassSession) → ℕ → Table ClassSession → Table ClassSession
touch now k f n t = elim (find_by_id n t) [
  | none ↦ t
  | some s ↦ if is_id k s.val.payout_id then (update now n f t).1 else t
]

unfoldable pub touch_lines :
    ℕ
    → ℕ
    → (ClassSession → ClassSession)
    → List PayoutLine
    → Table ClassSession
    → Table ClassSession
touch_lines now k f [] t = t
touch_lines now k f (l ∷ ls) t = touch_lines now k f ls (touch now k f l.session_id t)

abbrev pub touch_sessions :
    ℕ → ℕ → (ClassSession → ClassSession) → List PayoutLine → Command (Unit {0})
touch_sessions now k f ls =
    modify (λ db. record db { sessions = touch_lines now k f ls db.sessions })

abbrev pub release_session : ClassSession → ClassSession
release_session s = record s { payout_id = none }

abbrev pub release_paid_session : ClassSession → ClassSession
release_paid_session s = record s { payout_id = none; is_paid = false }

abbrev pub pay_session : ℕ → ClassSession → ClassSession
pay_session k s = record s { is_paid = true; paid_payout_id = some k }

abbrev pub link_session : ℕ → ClassSession → ClassSession
link_session k s = record s { payout_id = some k }

-- `claimPayout`: links a session that is neither linked nor paid
unfoldable pub claim_payout :
    ℕ → ℕ → ℕ → Table ClassSession → Option (Row ClassSession) × Table ClassSession
unfolding is_payout_locked
claim_payout now n k t = elim (find_by_id n t) [
  | none ↦ (none, t)
  | some s ↦ if is_payout_locked s.val then (none, t) else update now n (link_session k) t
]

abbrev pub claim_session : ℕ → ℕ → ℕ → Command (Option (Row ClassSession))
claim_session now n k db =
    let (r, t) = claim_payout now n k db.sessions in (ok r, record db { sessions = t })

unfoldable pub claim_lines : ℕ → ℕ → List PayoutLine → Command (Unit {0})
claim_lines now k [] = pure tt
claim_lines now k (l ∷ ls) = do
  claimed ← claim_session now l.session_id k
  throw_if (is_none claimed) (session_claimed l.session_id)
  claim_lines now k ls

abbrev pub payout_of : Measure → Payout
payout_of m = record {
  instructor_id = m.instructor_id;
  period_start = m.period_start;
  period_end = m.period_end;
  session_count = m.session_count;
  total_minutes = m.total_minutes;
  computed_amount = m.computed_amount;
  adjusted_amount = none;
  adjust_reason = none;
  amount = m.computed_amount;
  status = pending;
  lines = m.lines;
  confirmed_at = none;
  paid_at = none;
  reversed_at = none;
  rejected_reason = none;
  reversed_reason = none;
}

abbrev pub insert_payout : ℕ → Payout → Command (Row Payout)
insert_payout now p db = let (r, t) = insert now p db.payouts in (ok r, record db { payouts = t })
