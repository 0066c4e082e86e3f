-- ===== src/Expenses/Booked.antt =====
-- That the ledger holds exactly one payment of each approved expense, of its amount, and none of any
-- other, through every history of commands.
use Prim.Native.String.{String}
use taco_backend.Common.{
  ℕ, ◌+◌, ◌≡◌, ap, ◌∙◌, Bool, true, false, ◌&&◌, Option, none, some, ◌==◌, if◌then◌else◌, is_id,
  map_option, count_by, sum_by, count_by-append, sum_by-append, arith,
}
use taco_backend.Store.{Row, Table, find_all, find_by_id, insert, write, patch_row, delete_row}
use taco_backend.Store.WellFormed.{IsWellFormed}
use taco_backend.Store.Active.{
  find_by_id-patch, find_by_id-delete, write-IsWellFormed, delete-IsWellFormed, find_all-insert,
}
use taco_backend.Payouts.Rows.{Transaction, Category, value, AuditEntity, AuditAction}
use taco_backend.Payouts.Integrity.{is_outgoing}
use taco_backend.Expenses.{
  Expense, requested, approved, rejected, ExpenseDb, expense_ledger_row, is_requested, log_if,
}

abbrev pub is_expense : Category → Bool
is_expense Category.expense = true
is_expense _ = false

-- a ledger row that pays expense `k`
abbrev pub is_payment_of : ℕ → Row Transaction → Bool
is_payment_of k r =
    is_id k r.val.expense_id && (is_outgoing r.val.direction && is_expense r.val.category)

abbrev pub paid_amount : ℕ → Row Transaction → ℕ
paid_amount k r = if is_payment_of k r then r.val.amount else 0

abbrev pub payments : ℕ → ExpenseDb → ℕ
payments k db = count_by (is_payment_of k) (find_all db.transactions)

abbrev pub payment_total : ℕ → ExpenseDb → ℕ
payment_total k db = sum_by (paid_amount k) (find_all db.transactions)

abbrev pub expense_at : ℕ → ExpenseDb → Option Expense
expense_at k db = map_option value (find_by_id k db.expenses)

abbrev pub is_approved_expense : Expense → Bool
is_approved_expense e = elim e.status [ requested ↦ false | approved ↦ true | rejected ↦ false ]

abbrev pub approved_count : Option Expense → ℕ
approved_count none = 0
approved_count (some e) = if is_approved_expense e then 1 else 0

abbrev pub approved_amount : Option Expense → ℕ
approved_amount none = 0
approved_amount (some e) = if is_approved_expense e then e.amount else 0

pub record IsBooked (db : ExpenseDb) : Type 0 where
  pub expenses_wf : IsWellFormed db.expenses
  pub paid_once : (k : ℕ) → payments k db ≡ approved_count (expense_at k db)
  pub paid_in_full : (k : ℕ) → payment_total k db ≡ approved_amount (expense_at k db)

module _ (now k amount : ℕ) (t : Table Transaction) (i : ℕ) where
  payments-insert :
      (count_by (is_payment_of i) (find_all (insert now (expense_ledger_row k amount now) t).1)
        ≡ count_by (is_payment_of i) (find_all t) + (if k == i then 1 else 0))
      × (sum_by (paid_amount i) (find_all (insert now (expense_ledger_row k amount now) t).1)
          ≡ sum_by (paid_amount i) (find_all t) + (if k == i then amount else 0))
  unfolding insert
  payments-insert =
      let rows = find_all-insert now (expense_ledger_row k amount now) t in
      (
        ap (count_by (is_payment_of i)) rows
            ∙ (count_by-append (is_payment_of i) (find_all t) _ ∙ ground arith),
        ap (sum_by (paid_amount i)) rows
            ∙ (sum_by-append (paid_amount i) (find_all t) _ ∙ ground arith),
      )

abbrev pub patched_db : ℕ → ℕ → (Expense → Expense) → ExpenseDb → ExpenseDb
patched_db now k f db = record db { expenses = write k (patch_row now f) db.expenses }

abbrev pub approved_db : ℕ → ℕ → ℕ → ExpenseDb → ExpenseDb
approved_db now k amount db = record (patched_db now k (λ e. record e { status = approved }) db) {
  transactions = (insert now (expense_ledger_row k amount now) db.transactions).1;
}

abbrev pub withdrawn_db : ℕ → ℕ → Option ℕ → ExpenseDb → ExpenseDb
withdrawn_db now k by db = record db {
  expenses =
      write k (delete_row now by)
        (write k (patch_row now (λ e. record e { status = requested })) db.expenses);
}

pub log_if-IsBooked :
    (actor : Option ℕ) (e : AuditEntity) (k : ℕ) (a : AuditAction) (why : Option String)
    (db : ExpenseDb)
    → IsBooked db
    → IsBooked (log_if actor e k a why db)
log_if-IsBooked none e k a why db v = v
log_if-IsBooked (some actor) e k a why db v = record {
  expenses_wf = v.expenses_wf;
  paid_once = v.paid_once;
  paid_in_full = v.paid_in_full;
}

module _ (now k : ℕ) (db : ExpenseDb) (r : Row Expense) (v : IsBooked db)
    (here : find_by_id k db.expenses ≡ some r) (st : is_requested r ≡ true) where
  -- a patch of a requested expense that leaves it unapproved
  pub patched_db-IsBooked :
      (f : Expense → Expense)
      → is_approved_expense (f r.val) ≡ false
      → IsBooked (patched_db now k f db)
  patched_db-IsBooked f unapproved = record {
    expenses_wf = write-IsWellFormed k now f db.expenses v.expenses_wf;
    paid_once = λ i. ground (arith, find_by_id-patch i k now f db.expenses, v.paid_once i);
    paid_in_full = λ i. ground (arith, find_by_id-patch i k now f db.expenses, v.paid_in_full i);
  }

  pub approved_db-IsBooked : IsBooked (approved_db now k r.val.amount db)
  approved_db-IsBooked =
      let f = λ (e : Expense). record e { status = approved } in
      record {
        expenses_wf = write-IsWellFormed k now f db.expenses v.expenses_wf;
        paid_once = λ i. ground (
          arith,
          find_by_id-patch i k now f db.expenses,
          v.paid_once i,
          payments-insert now k r.val.amount db.transactions i,
        );
        paid_in_full = λ i. ground (
          arith,
          find_by_id-patch i k now f db.expenses,
          v.paid_in_full i,
          payments-insert now k r.val.amount db.transactions i,
        );
      }

  pub withdrawn_db-IsBooked : (by : Option ℕ) → IsBooked (withdrawn_db now k by db)
  withdrawn_db-IsBooked by =
      let f = λ (e : Expense). record e { status = requested } in
      let t = write k (patch_row now f) db.expenses in
      record {
        expenses_wf =
            delete-IsWellFormed k now by t (write-IsWellFormed k now f db.expenses v.expenses_wf);
        paid_once = λ i. ground (
          arith,
          find_by_id-delete i k now by t,
          find_by_id-patch i k now f db.expenses,
          v.paid_once i,
        );
        paid_in_full = λ i. ground (
          arith,
          find_by_id-delete i k now by t,
          find_by_id-patch i k now f db.expenses,
          v.paid_in_full i,
        );
      }
