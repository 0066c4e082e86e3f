-- ===== src/Expenses/Tests.antt =====
-- A small table of expenses, and the theorems about it at work.
use taco_backend.Common.{◌≡◌, refl, true, none, some, List, [], ◌∷◌, arith}
use taco_backend.Exec.{is_ok}
use taco_backend.Store.{Row, empty_table, find_by_id}
use taco_backend.Expenses.{
  Expense, ExpenseDb, ExpenseStatus, requested, rejected, UpdateExpense, CreateExpense, approve,
  patched,
}
use taco_backend.Expenses.Booked.{IsBooked, payments, payment_total}
use taco_backend.Expenses.History.{
  Timed, creates, updates, rejects, approves, withdraws, answer_all, answer_all-IsBooked,
}
use taco_backend.Expenses.Decided.{answer_all-decided, approve-books}

abbrev chairs : ExpenseStatus → Row Expense
chairs st = record {
  id = 1;
  created_at = 100;
  updated_at = 100;
  deleted_at = none;
  deleted_by = none;
  val = record {
    category = "supplies";
    title = "chairs";
    amount = 90000;
    spent_at = 20000;
    vendor = none;
    memo = none;
    status = st;
    rejected_reason = none;
  };
}

abbrev one_expense : ExpenseStatus → ExpenseDb
one_expense st = record {
  expenses = record { rows = chairs st ∷ []; sequence = 1 };
  transactions = empty_table;
  audit = [];
}

requested-IsBooked : IsBooked (one_expense requested)
requested-IsBooked = record {
  expenses_wf = (ground arith, refl, tt);
  paid_once = λ k. ground arith;
  paid_in_full = λ k. ground arith;
}

rejected-IsBooked : IsBooked (one_expense rejected)
rejected-IsBooked = record {
  expenses_wf = (ground arith, refl, tt);
  paid_once = λ k. ground arith;
  paid_in_full = λ k. ground arith;
}

abbrev a_lamp : CreateExpense
a_lamp = record {
  category = "supplies";
  title = "lamp";
  amount = 20000;
  spent_at = 20001;
  vendor = none;
  memo = none;
}

abbrev new_title : UpdateExpense
new_title = record {
  category = none;
  title = some "tables";
  amount = none;
  spent_at = none;
  vendor = none;
  memo = none;
}

-- after the rejection: an edit, a withdrawal, an approval, another rejection and a new expense
abbrev second_thoughts : List Timed
second_thoughts =
    record { now = 500; actor = some 1; request = updates 1 new_title }
    ∷ record { now = 500; actor = some 1; request = withdraws 1 }
    ∷ record { now = 600; actor = some 2; request = approves 1 }
    ∷ record { now = 700; actor = none; request = rejects 1 "twice" }
    ∷ record { now = 800; actor = none; request = creates a_lamp }
    ∷ record { now = 900; actor = none; request = approves 2 }
    ∷ []

answer_all-decided_example :
    (find_by_id 1 (answer_all second_thoughts (one_expense rejected)).expenses
      ≡ some (chairs rejected))
    × (payments 1 (answer_all second_thoughts (one_expense rejected))
        ≡ payments 1 (one_expense rejected))
    × (payment_total 1 (answer_all second_thoughts (one_expense rejected))
        ≡ payment_total 1 (one_expense rejected))
answer_all-decided_example =
    answer_all-decided second_thoughts 1 (chairs rejected) (one_expense rejected) rejected-IsBooked
      refl refl

-- the vendor is taken away, the memo stays
null_vendor :
    (patched
      (record new_title { vendor = some none })
      (record (chairs requested).val { vendor = some "shop"; memo = some "blue" }))
    ≡ record (chairs requested).val { title = "tables"; vendor = none; memo = some "blue" }
null_vendor = refl

approve-books_example :
    let db' = (approve 500 (some 1) 1 (one_expense requested)).1 in
    (is_ok (approve 500 (some 1) 1 (one_expense requested)).0 ≡ true)
    × (payments 1 db' ≡ 1)
    × (payment_total 1 db' ≡ 90000)
approve-books_example =
    approve-books 500 (some 1) 1 (one_expense requested) (chairs requested) requested-IsBooked refl
      refl

abbrev two_approvals : List Timed
two_approvals =
    record { now = 500; actor = some 1; request = approves 1 }
    ∷ record { now = 600; actor = none; request = approves 1 }
    ∷ record { now = 700; actor = none; request = withdraws 1 }
    ∷ []

answer_all-IsBooked_example : IsBooked (answer_all two_approvals (one_expense requested))
answer_all-IsBooked_example =
    answer_all-IsBooked two_approvals (one_expense requested) requested-IsBooked
