-- ===== src/Expenses/Decided.antt =====
-- What a decision on an expense leaves behind, and that it is final.
use Prim.Native.String.{String}
use taco_backend.Common.{
  ℕ, ◌≡◌, refl, sym, ap, subst, ◌∙◌, Bool, true, false, ◌&&◌, ◌==◌, Option, none, some, List, [],
  ◌∷◌, if◌then◌else◌, map_option, arith, Option-cases, Bool-cases, inl, inr,
}
use taco_backend.Exec.{is_ok, transaction}
use taco_backend.Store.{Row, find_by_id, insert, update_if, write, patch_row}
use taco_backend.Store.Active.{
  find_active-eq-find_by_id, find_by_id-patch, find_by_id-insert, find_by_id-delete,
}
use taco_backend.Expenses.{
  Expense, ExpenseDb, approve, is_requested, requested, approved, rejected, has_fields, patched,
  log_if, expense_row,
}
use taco_backend.Expenses.Booked.{
  IsBooked, payments, payment_total, expense_at, patched_db, withdrawn_db, approved_count,
  approved_amount,
}
use taco_backend.Payouts.Rows.{value, AuditEntity, AuditAction}
use taco_backend.Expenses.History.{
  approve-IsBooked, approve_found, approve_missing, create_done, no_expense, update_missing,
  update_found, withdraw_missing, withdraw_found, reject_missing, reject_found, ExpenseRequest,
  creates, updates, withdraws, approves, rejects, answer, Timed, answer_all, answer-IsBooked,
  answer_all-IsBooked,
}

-- the row of expense `k` is as given
abbrev pub IsStored : ℕ → Row Expense → ExpenseDb → Type 0
IsStored k r db = find_by_id k db.expenses ≡ some r

log_if-IsStored :
    (k : ℕ) (r : Row Expense) (actor : Option ℕ) (e : AuditEntity) (i : ℕ) (a : AuditAction)
    (why : Option String) (db : ExpenseDb)
    → IsStored k r db
    → IsStored k r (log_if actor e i a why db)
log_if-IsStored k r none e i a why db h = h
log_if-IsStored k r (some n) e i a why db h = h

if-IsStored :
    (k : ℕ) (r : Row Expense) (b : Bool) (db db' : ExpenseDb)
    → IsStored k r db
    → (b ≡ true → IsStored k r db')
    → IsStored k r (if b then db' else db)
if-IsStored k r true db db' h next = next refl
if-IsStored k r false db db' h next = h

module _ (k : ℕ) (r : Row Expense) (db : ExpenseDb) (v : IsBooked db) (h : IsStored k r db)
    (st : is_requested r ≡ false) where
  -- a requested expense is another one than the decided one
  is_other :
      (j : ℕ) (x : Row Expense)
      → find_by_id j db.expenses ≡ some x
      → is_requested x ≡ true
      → (j == k) ≡ false
  is_other j x e q = elim (Bool-cases (j == k)) [
    | inl same ↦
        let here : find_by_id k db.expenses ≡ some x =
          subst (λ i. find_by_id i db.expenses ≡ some x) {x = j} {y = k} (ground arith) e in
        absurd (ground arith)
    | inr other ↦ other
  ]

  patched-IsStored :
      (now j : ℕ) (f : Expense → Expense) → (j == k) ≡ false → IsStored k r (patched_db now j f db)
  patched-IsStored now j f other = ground (arith, find_by_id-patch k j now f db.expenses)

  withdrawn-IsStored :
      (now j : ℕ) (by : Option ℕ) → (j == k) ≡ false → IsStored k r (withdrawn_db now j by db)
  withdrawn-IsStored now j by other =
      let f = λ (e : Expense). record e { status = requested } in
      ground (
        arith,
        find_by_id-delete k j now by (write j (patch_row now f) db.expenses),
        find_by_id-patch k j now f db.expenses,
      )

  -- a command on expense `j` that writes only where that one is requested
  written_if :
      (j : ℕ) (after : ExpenseDb)
      → (find_by_id j db.expenses ≡ none → after ≡ db)
      → ((x : Row Expense)
          → find_by_id j db.expenses ≡ some x
          → (b : Bool) × (db' : ExpenseDb) × (after ≡ (if b then db' else db))
            × (b ≡ true → is_requested x ≡ true)
            × ((j == k) ≡ false → IsStored k r db'))
      → IsStored k r after
  written_if j after missing found = elim (Option-cases (find_by_id j db.expenses)) [
    | inl e ↦ subst (IsStored k r) (sym (missing e)) h
    | inr (x, e) ↦
        let (b, db', eq, asks, keeps) = found x e in
        subst (IsStored k r) (sym eq)
          (if-IsStored k r b db db' h λ t. keeps (is_other j x e (asks t)))
  ]

  answer-IsStored :
      (now : ℕ) (actor : Option ℕ) (q : ExpenseRequest) → IsStored k r (answer now actor q db)
  unfolding answer
  answer-IsStored now actor (creates dto) =
      subst (IsStored k r) (sym (create_done now actor dto db v)) (
        log_if-IsStored k r actor _ _ _ none _ (
          ground (
            arith,
            find_by_id-insert k now (expense_row dto) db.expenses v.expenses_wf,
            no_expense now actor dto db v,
          )))
  answer-IsStored now actor (updates j dto) =
      written_if j _ (update_missing now actor j db v dto) λ x e. (
        is_requested x && has_fields dto,
        _,
        update_found now actor j db v dto x e,
        (λ t. ground arith),
        λ o. log_if-IsStored k r actor _ _ _ none _ (patched-IsStored now j (patched dto) o),
      )
  answer-IsStored now actor (withdraws j) =
      written_if j _ (withdraw_missing now actor j db v) λ x e. (
        is_requested x,
        _,
        withdraw_found now actor j db v x e,
        (λ t. t),
        λ o. log_if-IsStored k r actor _ _ _ none _ (withdrawn-IsStored now j actor o),
      )
  answer-IsStored now actor (approves j) = written_if j _ (approve_missing now actor j db v) λ x e.
      (
        is_requested x,
        _,
        approve_found now actor j db v x e,
        (λ t. t),
        λ o. log_if-IsStored k r actor _ _ _ none _ (
            log_if-IsStored k r actor _ _ _ none _
              (patched-IsStored now j (λ e. record e { status = approved }) o)),
      )
  answer-IsStored now actor (rejects j why) =
      written_if j _ (reject_missing now actor j db v why) λ x e. (
        is_requested x,
        _,
        reject_found now actor j db v why x e,
        (λ t. t),
        λ o. log_if-IsStored k r actor _ _ _ (some why) _ (
            patched-IsStored now j (λ e. record e { status = rejected; rejected_reason = some why })
              o),
      )

answer_all-IsStored :
    (rs : List Timed) (k : ℕ) (r : Row Expense) (db : ExpenseDb)
    → IsBooked db
    → IsStored k r db
    → is_requested r ≡ false
    → IsStored k r (answer_all rs db)
unfolding answer_all
answer_all-IsStored [] k r db v h st = h
answer_all-IsStored (q ∷ rs) k r db v h st =
    answer_all-IsStored rs k r _ (answer-IsBooked q.now q.actor q.request db v)
      (answer-IsStored k r db v h st q.now q.actor q.request) st

-- A decision is final: whatever requests are served after it, on this expense or others, in any order
-- and whether they go through or throw, an approved or rejected expense keeps its row as it is, and
-- the ledger keeps its payments and their total. This takes tables whose ledger is booked.
pub answer_all-decided :
    (rs : List Timed) (k : ℕ) (r : Row Expense) (db : ExpenseDb)
    → IsBooked db
    → find_by_id k db.expenses ≡ some r
    → is_requested r ≡ false
    → (find_by_id k (answer_all rs db).expenses ≡ some r)
      × (payments k (answer_all rs db) ≡ payments k db)
      × (payment_total k (answer_all rs db) ≡ payment_total k db)
answer_all-decided rs k r db v h st =
    let kept = answer_all-IsStored rs k r db v h st in
    let w = answer_all-IsBooked rs db v in
    let same : expense_at k (answer_all rs db) ≡ expense_at k db =
      ap (map_option value) (kept ∙ sym h) in
    (
      kept,
      w.paid_once k ∙ (ap approved_count same ∙ sym (v.paid_once k)),
      w.paid_in_full k ∙ (ap approved_amount same ∙ sym (v.paid_in_full k)),
    )

module _ (now : ℕ) (actor : Option ℕ) (k : ℕ) (db : ExpenseDb) (r : Row Expense) (v : IsBooked db)
    (e : find_by_id k db.expenses ≡ some r) (st : is_requested r ≡ true) where
  approve_answer : is_ok (approve now actor k db).0 ≡ true
  unfolding approve transaction update_if insert
  approve_answer = ground (arith, find_active-eq-find_by_id k db.expenses v.expenses_wf)

  approved_at : expense_at k (approve now actor k db).1 ≡ some (record r.val { status = approved })
  approved_at =
      ap (expense_at k) (approve_found now actor k db v r e)
      ∙ ground (arith, find_by_id-patch k k now (λ x. record x { status = approved }) db.expenses)

-- A requested expense can be approved: the command goes through, and afterwards the ledger has one
-- payment of the expense, of its amount.
pub approve-books :
    (now : ℕ) (actor : Option ℕ) (k : ℕ) (db : ExpenseDb) (r : Row Expense)
    → IsBooked db
    → find_by_id k db.expenses ≡ some r
    → is_requested r ≡ true
    → let db' = (approve now actor k db).1 in
      (is_ok (approve now actor k db).0 ≡ true)
      × (payments k db' ≡ 1)
      × (payment_total k db' ≡ r.val.amount)
approve-books now actor k db r v e st =
    let w : IsBooked (approve now actor k db).1 = approve-IsBooked now actor k db v in
    (
      approve_answer now actor k db r v e st,
      ground (arith, approved_at now actor k db r v e st, w.paid_once k),
      ground (arith, approved_at now actor k db r v e st, w.paid_in_full k),
    )
