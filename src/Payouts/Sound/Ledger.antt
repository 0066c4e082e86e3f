-- ===== src/Payouts/Sound/Ledger.antt =====
-- One more ledger row, and the payments and compensations that the ledger holds for each payout.
use taco_backend.Common.{
  ℕ, ◌+◌, ◌≡◌, ap, ◌∙◌, true, false, List, ◌==◌, if◌then◌else◌, count_by, sum_by, count_by-append,
  sum_by-append, arith,
}
use taco_backend.Store.{Row, Table, find_all, insert}
use taco_backend.Store.Active.{find_all-insert}
use taco_backend.Payouts.Rows.{Transaction}
use taco_backend.Payouts.Steps.{ledger_row}
use taco_backend.Payouts.Integrity.{is_out_of, is_back_of}

abbrev pub out_amount : ℕ → Row Transaction → ℕ
out_amount k r = if is_out_of k r then r.val.amount else 0

abbrev pub back_amount : ℕ → Row Transaction → ℕ
back_amount k r = if is_back_of k r then r.val.amount else 0

module _ (now k amount : ℕ) (t : Table Transaction) where
  abbrev with_payment : List (Row Transaction)
  with_payment = find_all (insert now (ledger_row true k amount now) t).1

  abbrev with_reversal : List (Row Transaction)
  with_reversal = find_all (insert now (ledger_row false k amount now) t).1

  -- A payment adds one payment of its amount to its own payout.
  pub payment_counts :
      (i : ℕ)
      → (count_by (is_out_of i) with_payment
          ≡ count_by (is_out_of i) (find_all t) + (if k == i then 1 else 0))
        × (count_by (is_back_of i) with_payment ≡ count_by (is_back_of i) (find_all t))
        × (sum_by (out_amount i) with_payment
            ≡ sum_by (out_amount i) (find_all t) + (if k == i then amount else 0))
        × (sum_by (back_amount i) with_payment ≡ sum_by (back_amount i) (find_all t))
  unfolding insert
  payment_counts i =
      let rows = find_all-insert now (ledger_row true k amount now) t in
      (
        ap (count_by (is_out_of i)) rows
            ∙ (count_by-append (is_out_of i) (find_all t) _ ∙ ground arith),
        ap (count_by (is_back_of i)) rows
            ∙ (count_by-append (is_back_of i) (find_all t) _ ∙ ground arith),
        ap (sum_by (out_amount i)) rows
            ∙ (sum_by-append (out_amount i) (find_all t) _ ∙ ground arith),
        ap (sum_by (back_amount i)) rows
            ∙ (sum_by-append (back_amount i) (find_all t) _ ∙ ground arith),
      )

  -- A compensation adds one compensation of its amount to its own payout.
  pub reversal_counts :
      (i : ℕ)
      → (count_by (is_out_of i) with_reversal ≡ count_by (is_out_of i) (find_all t))
        × (count_by (is_back_of i) with_reversal
            ≡ count_by (is_back_of i) (find_all t) + (if k == i then 1 else 0))
        × (sum_by (out_amount i) with_reversal ≡ sum_by (out_amount i) (find_all t))
        × (sum_by (back_amount i) with_reversal
            ≡ sum_by (back_amount i) (find_all t) + (if k == i then amount else 0))
  unfolding insert
  reversal_counts i =
      let rows = find_all-insert now (ledger_row false k amount now) t in
      (
        ap (count_by (is_out_of i)) rows
            ∙ (count_by-append (is_out_of i) (find_all t) _ ∙ ground arith),
        ap (count_by (is_back_of i)) rows
            ∙ (count_by-append (is_back_of i) (find_all t) _ ∙ ground arith),
        ap (sum_by (out_amount i)) rows
            ∙ (sum_by-append (out_amount i) (find_all t) _ ∙ ground arith),
        ap (sum_by (back_amount i)) rows
            ∙ (sum_by-append (back_amount i) (find_all t) _ ∙ ground arith),
      )
