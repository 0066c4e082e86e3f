-- ===== src/Payouts/Sound.antt =====
-- The invariant of the payout tables: sessions and payouts refer to one another, the ledger holds
-- what was paid and taken back, and the amounts follow from the lines.
pub mod Sessions
pub mod Updates
pub mod Simple
pub mod Reject
pub mod Ledger
pub mod Pay
pub mod Reverse
pub mod Generate
use taco_backend.Common.{
  ℕ, ◌+◌, ◌≡◌, refl, Bool, true, false, not, ◌&&◌, ◌||◌, Option, none, some, List, is_id, is_some,
  get_or, holds, sum_by, count_by, filter, if◌then◌else◌,
}
use taco_backend.Store.{Row, Table, find_all}
use taco_backend.Store.WellFormed.{IsWellFormed}
use taco_backend.Schedule.Entity.{ClassSession}
use taco_backend.Payouts.Rows.{
  Payout, Transaction, Db, is_paid_status, is_rejected, has_line, payout_at, session_at,
}
use taco_backend.Payouts.Integrity.{is_out_of, is_back_of}

-- payout `k` is active and has a line for session `n`
abbrev pub claims : ℕ → ℕ → Db → Bool
claims k n db = holds (λ p. not (is_rejected p.status) && has_line n p.lines) (payout_at k db)

-- session `n` refers to payout `k`
abbrev pub is_linked : ℕ → ℕ → Db → Bool
is_linked k n db = holds (λ s. is_id k s.payout_id) (session_at n db)

abbrev pub is_paid_payout : Db → ℕ → Bool
is_paid_payout db k = holds (λ p. is_paid_status p.status) (payout_at k db)

abbrev pub was_paid : Option Payout → Bool
was_paid o = holds (λ p. is_paid_status p.status || is_some p.reversed_at) o

abbrev pub was_reversed : Option Payout → Bool
was_reversed o = holds (λ p. is_some p.reversed_at) o

abbrev pub amount_of : Option Payout → ℕ
amount_of none = 0
amount_of (some p) = p.amount

-- the number and the sum of the payments of payout `k`, and of their compensations
abbrev pub outs : ℕ → Db → ℕ
outs k db = count_by (is_out_of k) (find_all db.transactions)

abbrev pub backs : ℕ → Db → ℕ
backs k db = count_by (is_back_of k) (find_all db.transactions)

abbrev pub out_total : ℕ → Db → ℕ
out_total k db = sum_by (λ r. if is_out_of k r then r.val.amount else 0) (find_all db.transactions)

abbrev pub back_total : ℕ → Db → ℕ
back_total k db =
    sum_by (λ r. if is_back_of k r then r.val.amount else 0) (find_all db.transactions)

abbrev pub once_if : Bool → ℕ
once_if b = if b then 1 else 0

-- The lines add up to the computed amount, and the amount is the adjusted one where there is one.
pub record HasAmounts (p : Payout) : Type 0 where
  pub summed : sum_by (λ l. l.amount) p.lines ≡ p.computed_amount
  pub effective : p.amount ≡ get_or p.adjusted_amount p.computed_amount

pub record IsSound (db : Db) : Type 0 where
  pub payouts_wf : IsWellFormed db.payouts
  pub sessions_wf : IsWellFormed db.sessions
  pub links : (k n : ℕ) → is_linked k n db ≡ claims k n db
  pub paid_flags :
      (n : ℕ) (s : ClassSession)
      → session_at n db ≡ some s
      → s.is_paid ≡ holds (is_paid_payout db) s.payout_id
  pub amounts : (k : ℕ) (p : Payout) → payout_at k db ≡ some p → HasAmounts p
  pub reversed_status :
      (k : ℕ) (p : Payout)
      → payout_at k db ≡ some p
      → is_some p.reversed_at ≡ true
      → is_rejected p.status ≡ true
  pub paid_once : (k : ℕ) → outs k db ≡ once_if (was_paid (payout_at k db))
  pub reversed_once : (k : ℕ) → backs k db ≡ once_if (was_reversed (payout_at k db))
  pub paid_amount :
      (k : ℕ)
      → out_total k db ≡ (if was_paid (payout_at k db) then amount_of (payout_at k db) else 0)
  pub reversed_amount :
      (k : ℕ)
      → back_total k db ≡ (if was_reversed (payout_at k db) then amount_of (payout_at k db) else 0)
