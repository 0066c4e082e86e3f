-- ===== src/Expenses/History.antt =====
-- Histories of expense commands, in any order, whether they go through or throw.
use Prim.Native.String.{String}
use taco_backend.Common.{
  ℕ, ◌+◌, ◌≡◌, refl, sym, subst, Bool, true, false, ◌&&◌, Option, none, some, List, [], ◌∷◌,
  if◌then◌else◌, arith, Option-cases, inl, inr,
}
use taco_backend.Exec.{transaction}
use taco_backend.Store.{Row, find_by_id, insert, update_if, remove}
use taco_backend.Store.WellFormed.{insert-IsWellFormed, find_row_fresh}
use taco_backend.Store.Active.{find_by_id-insert, find_active-eq-find_by_id, find_by_id-patch}
use taco_backend.Payouts.Rows.{AuditEntity, AuditAction}
use taco_backend.Expenses.{
  Expense, requested, rejected, CreateExpense, UpdateExpense, ExpenseDb, create, update, withdraw,
  approve, reject, expense_row, is_requested, patched, has_fields, log_if,
}
use taco_backend.Expenses.Booked.{
  IsBooked, log_if-IsBooked, patched_db, patched_db-IsBooked, approved_db, approved_db-IsBooked,
  withdrawn_db, withdrawn_db-IsBooked, expense_at,
}

kept_if :
    (b : Bool) (db db' : ExpenseDb)
    → IsBooked db
    → (b ≡ true → IsBooked db')
    → IsBooked (if b then db' else db)
kept_if true db db' v h = h refl
kept_if false db db' v h = v

found_or_missing :
    (k : ℕ) (db after : ExpenseDb)
    → IsBooked db
    → (find_by_id k db.expenses ≡ none → after ≡ db)
    → ((r : Row Expense) → find_by_id k db.expenses ≡ some r → IsBooked after)
    → IsBooked after
found_or_missing k db after v missing found = elim (Option-cases (find_by_id k db.expenses)) [
  | inl e ↦ subst IsBooked (sym (missing e)) v
  | inr (r, e) ↦ found r e
]

module _ (now : ℕ) (actor : Option ℕ) (dto : CreateExpense) (db : ExpenseDb) (v : IsBooked db) where
  abbrev pub created : ExpenseDb
  created = record db { expenses = (insert now (expense_row dto) db.expenses).1 }

  pub no_expense : expense_at (db.expenses.sequence + 1) db ≡ none
  no_expense = ground (
    arith,
    find_row_fresh db.expenses.sequence (db.expenses.sequence + 1) db.expenses.rows v.expenses_wf,
  )

  created-IsBooked : IsBooked created
  created-IsBooked = record {
    expenses_wf = insert-IsWellFormed now (expense_row dto) db.expenses v.expenses_wf;
    paid_once = λ i. ground (
      arith,
      find_by_id-insert i now (expense_row dto) db.expenses v.expenses_wf,
      v.paid_once i,
      no_expense,
    );
    paid_in_full = λ i. ground (
      arith,
      find_by_id-insert i now (expense_row dto) db.expenses v.expenses_wf,
      v.paid_in_full i,
      no_expense,
    );
  }

  pub create_done :
      (create now actor dto db).1
      ≡ log_if actor AuditEntity.expenses (db.expenses.sequence + 1) AuditAction.create none created
  unfolding create transaction insert
  create_done = refl

  pub create-IsBooked : IsBooked (create now actor dto db).1
  create-IsBooked =
      subst IsBooked (sym create_done) (log_if-IsBooked actor _ _ _ none created created-IsBooked)

module _ (now : ℕ) (actor : Option ℕ) (k : ℕ) (db : ExpenseDb) (v : IsBooked db) where
  pub update_missing :
      (dto : UpdateExpense) → find_by_id k db.expenses ≡ none → (update now actor k dto db).1 ≡ db
  unfolding update transaction
  update_missing dto e = ground (arith, find_active-eq-find_by_id k db.expenses v.expenses_wf)

  pub update_found :
      (dto : UpdateExpense) (r : Row Expense)
      → find_by_id k db.expenses ≡ some r
      → (update now actor k dto db).1 ≡ (
          if is_requested r && has_fields dto
          then log_if actor AuditEntity.expenses k AuditAction.update none
              (patched_db now k (patched dto) db)
          else db)
  unfolding update transaction update_if
  update_found dto r e = ground (arith, find_active-eq-find_by_id k db.expenses v.expenses_wf)

  pub update-IsBooked : (dto : UpdateExpense) → IsBooked (update now actor k dto db).1
  update-IsBooked dto = found_or_missing k db _ v (update_missing dto) λ r e.
      subst IsBooked (sym (update_found dto r e)) (
        kept_if (is_requested r && has_fields dto) db _ v λ st.
          log_if-IsBooked actor _ k _ none _
            (patched_db-IsBooked now k db r v e (ground arith) (patched dto) (ground arith)))

  pub withdraw_missing : find_by_id k db.expenses ≡ none → (withdraw now actor k db).1 ≡ db
  unfolding withdraw transaction
  withdraw_missing e = ground (arith, find_active-eq-find_by_id k db.expenses v.expenses_wf)

  pub withdraw_found :
      (r : Row Expense)
      → find_by_id k db.expenses ≡ some r
      → (withdraw now actor k db).1 ≡ (
          if is_requested r
          then log_if actor AuditEntity.expenses k AuditAction.delete none
              (withdrawn_db now k actor db)
          else db)
  unfolding withdraw transaction update_if remove
  withdraw_found r e = ground (
    arith,
    find_active-eq-find_by_id k db.expenses v.expenses_wf,
    find_by_id-patch k k now (λ e. record e { status = requested }) db.expenses,
  )

  pub withdraw-IsBooked : IsBooked (withdraw now actor k db).1
  withdraw-IsBooked = found_or_missing k db _ v withdraw_missing λ r e.
      subst IsBooked (sym (withdraw_found r e)) (
        kept_if (is_requested r) db _ v
          λ st. log_if-IsBooked actor _ k _ none _ (withdrawn_db-IsBooked now k db r v e st actor))

  pub approve_missing : find_by_id k db.expenses ≡ none → (approve now actor k db).1 ≡ db
  unfolding approve transaction
  approve_missing e = ground (arith, find_active-eq-find_by_id k db.expenses v.expenses_wf)

  abbrev pub after_approve : Row Expense → ExpenseDb
  after_approve r =
      log_if actor AuditEntity.transactions (db.transactions.sequence + 1) AuditAction.create none (
        log_if actor AuditEntity.expenses k AuditAction.approve none
          (approved_db now k r.val.amount db))

  pub approve_found :
      (r : Row Expense)
      → find_by_id k db.expenses ≡ some r
      → (approve now actor k db).1 ≡ (if is_requested r then after_approve r else db)
  unfolding approve transaction update_if insert
  approve_found r e = ground (arith, find_active-eq-find_by_id k db.expenses v.expenses_wf)

  pub approve-IsBooked : IsBooked (approve now actor k db).1
  approve-IsBooked = found_or_missing k db _ v approve_missing λ r e.
      subst IsBooked (sym (approve_found r e)) (
        kept_if (is_requested r) db _ v λ st.
          log_if-IsBooked actor _ _ _ none _
            (log_if-IsBooked actor _ k _ none _ (approved_db-IsBooked now k db r v e st)))

  pub reject_missing :
      (why : String) → find_by_id k db.expenses ≡ none → (reject now actor k why db).1 ≡ db
  unfolding reject transaction
  reject_missing why e = ground (arith, find_active-eq-find_by_id k db.expenses v.expenses_wf)

  pub reject_found :
      (why : String) (r : Row Expense)
      → find_by_id k db.expenses ≡ some r
      → (reject now actor k why db).1 ≡ (
          if is_requested r
          then log_if actor AuditEntity.expenses k AuditAction.reject (some why) (
              patched_db now k (λ e. record e { status = rejected; rejected_reason = some why }) db)
          else db)
  unfolding reject transaction update_if
  reject_found why r e = ground (arith, find_active-eq-find_by_id k db.expenses v.expenses_wf)

  pub reject-IsBooked : (why : String) → IsBooked (reject now actor k why db).1
  reject-IsBooked why = found_or_missing k db _ v (reject_missing why) λ r e.
      subst IsBooked (sym (reject_found why r e)) (
        kept_if (is_requested r) db _ v λ st. log_if-IsBooked actor _ k _ (some why) _ (
          patched_db-IsBooked now k db r v e st
            (λ e. record e { status = rejected; rejected_reason = some why }) refl))

pub data ExpenseRequest : Type 0 where
  creates : CreateExpense → ExpenseRequest
  updates : ℕ → UpdateExpense → ExpenseRequest
  withdraws : ℕ → ExpenseRequest
  approves : ℕ → ExpenseRequest
  rejects : ℕ → String → ExpenseRequest

-- the tables after a request at time `now`
unfoldable pub answer : ℕ → Option ℕ → ExpenseRequest → ExpenseDb → ExpenseDb
answer now actor (creates dto) db = (create now actor dto db).1
answer now actor (updates k dto) db = (update now actor k dto db).1
answer now actor (withdraws k) db = (withdraw now actor k db).1
answer now actor (approves k) db = (approve now actor k db).1
answer now actor (rejects k why) db = (reject now actor k why db).1

pub record Timed : Type 0 where
  pub now : ℕ
  pub actor : Option ℕ
  pub request : ExpenseRequest

unfoldable pub answer_all : List Timed → ExpenseDb → ExpenseDb
unfolding answer
answer_all [] db = db
answer_all (r ∷ rs) db = answer_all rs (answer r.now r.actor r.request db)

pub answer-IsBooked :
    (now : ℕ) (actor : Option ℕ) (r : ExpenseRequest) (db : ExpenseDb)
    → IsBooked db
    → IsBooked (answer now actor r db)
unfolding answer
answer-IsBooked now actor (creates dto) db v = create-IsBooked now actor dto db v
answer-IsBooked now actor (updates k dto) db v = update-IsBooked now actor k db v dto
answer-IsBooked now actor (withdraws k) db v = withdraw-IsBooked now actor k db v
answer-IsBooked now actor (approves k) db v = approve-IsBooked now actor k db v
answer-IsBooked now actor (rejects k why) db v = reject-IsBooked now actor k db v why

-- Whatever requests are served, in any order and whether they go through or throw: where the ledger
-- had one payment of each approved expense, of its amount, and none of any other, it has so again.
pub answer_all-IsBooked :
    (rs : List Timed) (db : ExpenseDb) → IsBooked db → IsBooked (answer_all rs db)
unfolding answer_all
answer_all-IsBooked [] db v = v
answer_all-IsBooked (r ∷ rs) db v =
    answer_all-IsBooked rs _ (answer-IsBooked r.now r.actor r.request db v)
