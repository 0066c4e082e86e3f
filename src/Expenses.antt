-- ===== src/Expenses.antt =====
-- src/modules/expenses/expenses.service.ts: expenses from request to approval, with the ledger.
pub mod Booked
pub mod History
pub mod Decided
mod Tests
use Prim.Native.String.{String}
use taco_backend.Common.{
  ℕ, Bool, true, false, not, ◌&&◌, ◌||◌, Option, none, some, List, [], ◌∷◌, ◌++◌, ◌==◌,
  if◌then◌else◌, is_some, get_or, or_else,
}
use taco_backend.Exec.{
  Result, ok, err, Exec, pure, throw, modify, or_throw, throw_if, ◌>>=◌, ◌>>◌, transaction,
}
use taco_backend.Store.{Row, Table, insert, update_if, remove, find_active}
use taco_backend.Time.{IsoDate}
use taco_backend.Payouts.Rows.{
  Transaction, outgoing, Category, AuditEntity, AuditAction, AuditEntry,
}
use taco_backend.Payouts.Steps.{audit_entry}

pub data ExpenseStatus : Type 0 where
  requested approved rejected : ExpenseStatus

-- the category is a text of the contracts package
pub record Expense : Type 0 where
  pub category : String
  pub title : String
  pub amount : ℕ
  pub spent_at : IsoDate
  pub vendor : Option String
  pub memo : Option String
  pub status : ExpenseStatus
  pub rejected_reason : Option String

pub record CreateExpense : Type 0 where
  pub category : String
  pub title : String
  pub amount : ℕ
  pub spent_at : IsoDate
  pub vendor : Option String
  pub memo : Option String

-- A field of `none` is not given. The vendor and the memo, which may be missing, may be given as `null`,
-- which is `some none`; a `null` for one of the others, which their types rule out, is not modelled.
pub record UpdateExpense : Type 0 where
  pub category : Option String
  pub title : Option String
  pub amount : Option ℕ
  pub spent_at : Option IsoDate
  pub vendor : Option (Option String)
  pub memo : Option (Option String)

pub record ExpenseDb : Type 0 where
  pub expenses : Table Expense
  pub transactions : Table Transaction
  pub audit : List AuditEntry

pub data ExpenseError : Type 0 where
  expense_not_found not_requested no_fields changed_meanwhile : ExpenseError

abbrev pub ExpenseCommand : Type 0 → Type 0
ExpenseCommand = Exec ExpenseError ExpenseDb

abbrev pub log_if : Option ℕ → AuditEntity → ℕ → AuditAction → Option String → ExpenseDb → ExpenseDb
log_if none e i a why db = db
log_if (some actor) e i a why db = record db {
  audit = db.audit ++ audit_entry e i a actor why ∷ [];
}

abbrev pub log :
    Option ℕ → AuditEntity → ℕ → AuditAction → Option String → ExpenseCommand (Unit {0})
log actor e i a why = modify (log_if actor e i a why)

abbrev pub is_requested : Row Expense → Bool
is_requested r = elim r.val.status [ requested ↦ true | approved ↦ false | rejected ↦ false ]

abbrev pub get_db : ℕ → ExpenseCommand (Row Expense)
get_db k db = elim (find_active (λ r. r.id == k) db.expenses) [
  | none ↦ (err expense_not_found, db)
  | some r ↦ (ok r, db)
]

-- `store.updateIf(EXPENSES_SPEC, id, { status: 'requested' }, patch)`
abbrev pub cas_expense : ℕ → ℕ → (Expense → Expense) → ExpenseCommand (Option (Row Expense))
cas_expense now k f db =
    let (r, t) = update_if now k is_requested f db.expenses in (ok r, record db { expenses = t })

abbrev pub remove_expense : ℕ → Option ℕ → ℕ → ExpenseCommand Bool
remove_expense now by k db =
    let (b, t) = remove now by k db.expenses in (ok b, record db { expenses = t })

abbrev pub expense_row : CreateExpense → Expense
expense_row dto = record {
  category = dto.category;
  title = dto.title;
  amount = dto.amount;
  spent_at = dto.spent_at;
  vendor = dto.vendor;
  memo = dto.memo;
  status = requested;
  rejected_reason = none;
}

abbrev pub insert_expense : ℕ → CreateExpense → ExpenseCommand (Row Expense)
insert_expense now dto db =
    let (r, t) = insert now (expense_row dto) db.expenses in (ok r, record db { expenses = t })

abbrev pub expense_ledger_row : ℕ → ℕ → ℕ → Transaction
expense_ledger_row k amount now = record {
  direction = outgoing;
  category = Category.expense;
  amount = amount;
  occurred_at = now;
  payout_id = none;
  expense_id = some k;
}

abbrev pub insert_ledger_row : ℕ → Transaction → ExpenseCommand (Row Transaction)
insert_ledger_row now tx db =
    let (r, t) = insert now tx db.transactions in (ok r, record db { transactions = t })

unfoldable pub create : ℕ → Option ℕ → CreateExpense → ExpenseCommand (Row Expense)
create now actor dto = transaction (do
  row ← insert_expense now dto
  log actor AuditEntity.expenses row.id AuditAction.create none
  pure row)

abbrev pub has_fields : UpdateExpense → Bool
has_fields d =
    is_some d.category
    || (is_some d.title
        || (is_some d.amount || (is_some d.spent_at || (is_some d.vendor || is_some d.memo))))

abbrev pub patched : UpdateExpense → Expense → Expense
patched d e = record e {
  category = get_or d.category e.category;
  title = get_or d.title e.title;
  amount = get_or d.amount e.amount;
  spent_at = get_or d.spent_at e.spent_at;
  vendor = get_or d.vendor e.vendor;
  memo = get_or d.memo e.memo;
}

unfoldable pub update : ℕ → Option ℕ → ℕ → UpdateExpense → ExpenseCommand (Row Expense)
update now actor k dto = transaction (do
  row ← get_db k
  throw_if (not (is_requested row)) not_requested
  throw_if (not (has_fields dto)) no_fields
  done ← cas_expense now k (patched dto)
  updated ← or_throw done changed_meanwhile
  log actor AuditEntity.expenses k AuditAction.update none
  pure updated)

abbrev pub remove_guarded : ℕ → Option ℕ → ℕ → Option (Row Expense) → ExpenseCommand Bool
remove_guarded now by k none = pure false
remove_guarded now by k (some _) = remove_expense now by k

-- a soft deletion; the compare-and-set before it only guards the status
unfoldable pub withdraw : ℕ → Option ℕ → ℕ → ExpenseCommand ℕ
withdraw now actor k = transaction (do
  row ← get_db k
  throw_if (not (is_requested row)) not_requested
  guarded ← cas_expense now k (λ e. record e { status = requested })
  removed ← remove_guarded now actor k guarded
  throw_if (not removed) changed_meanwhile
  log actor AuditEntity.expenses k AuditAction.delete none
  pure k)

unfoldable pub approve : ℕ → Option ℕ → ℕ → ExpenseCommand (Row Expense)
approve now actor k = transaction (do
  row ← get_db k
  throw_if (not (is_requested row)) not_requested
  done ← cas_expense now k (λ e. record e { status = approved })
  updated ← or_throw done changed_meanwhile
  tx ← insert_ledger_row now (expense_ledger_row k updated.val.amount now)
  log actor AuditEntity.expenses k AuditAction.approve none
  log actor AuditEntity.transactions tx.id AuditAction.create none
  pure updated)

unfoldable pub reject : ℕ → Option ℕ → ℕ → String → ExpenseCommand (Row Expense)
reject now actor k reason = transaction (do
  row ← get_db k
  throw_if (not (is_requested row)) not_requested
  done ← cas_expense now k (λ e. record e { status = rejected; rejected_reason = some reason })
  updated ← or_throw done changed_meanwhile
  log actor AuditEntity.expenses k AuditAction.reject (some reason)
  pure updated)
