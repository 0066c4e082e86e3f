-- ===== src/Payouts/Accounting/Ledger.antt =====
-- The ledger part of the accounting checker against the invariant of the payout tables.
use taco_backend.Common.{
  ℕ, ◌≡◌, refl, Bool, some, All, List, [], ◌∷◌, if◌then◌else◌, filter, count_by, sum_by,
  length-filter, arith,
}
use taco_backend.Store.{Row, find_by_id, find_all}
use taco_backend.Store.Active.{All-find_all}
use taco_backend.Schedule.Participants.{ResolveIds}
use taco_backend.Payouts.Rows.{Payout, Transaction, Db}
use taco_backend.Payouts.Integrity.{is_out_of, is_back_of}
use taco_backend.Payouts.Sound.{IsSound}
use taco_backend.Payouts.History.{Reach, Reach-IsSound}
use taco_backend.Payouts.Accounting.{AccountingSnapshot, tx_issues, amount_at}

sum_zero :
    (q : Row Transaction → Bool) (ts : List (Row Transaction))
    → count_by q ts ≡ 0
    → sum_by (λ t. if q t then t.val.amount else 0) ts ≡ 0
sum_zero q [] h = refl
sum_zero q (t ∷ ts) h = ground (arith, sum_zero q ts)

-- a single row has the whole sum
amount-single :
    (q : Row Transaction → Bool) (ts : List (Row Transaction))
    → count_by q ts ≡ 1
    → amount_at (filter q ts) ≡ some (sum_by (λ t. if q t then t.val.amount else 0) ts)
amount-single q [] h = absurd (ground arith)
amount-single q (t ∷ ts) h = ground (arith, sum_zero q ts, amount-single q ts)

-- the payouts and the ledger of the tables, with whatever the other tables of the snapshot hold
abbrev pub ledger_snapshot : Db → AccountingSnapshot → AccountingSnapshot
ledger_snapshot db s = record s {
  payouts = find_all db.payouts;
  transactions = find_all db.transactions;
}

sound_tx :
    (db : Db) (s : AccountingSnapshot) (k : ℕ) (p : Row Payout)
    → IsSound db
    → find_by_id k db.payouts ≡ some p
    → p.id ≡ k
    → tx_issues (ledger_snapshot db s) p ≡ []
unfolding tx_issues
sound_tx db s k p v e q =
    let ts = find_all db.transactions in
    ground (
      arith,
      length-filter (is_out_of p.id) ts,
      length-filter (is_back_of p.id) ts,
      amount-single (is_out_of p.id) ts,
      amount-single (is_back_of p.id) ts,
      v.paid_once p.id,
      v.reversed_once p.id,
      v.paid_amount p.id,
      v.reversed_amount p.id,
      v.reversed_status p.id p.val,
    )

-- After any history of payout requests and outside writes that starts at sound tables, the accounting
-- checker finds the ledger of every active payout in order: one payment of its amount for a paid one,
-- a payment and a compensation of the same amount for a reversed one, and no compensation otherwise.
pub Reach-no_tx_issues :
    (resolve : ResolveIds) (start db : Db) (s : AccountingSnapshot)
    → IsSound start
    → Reach resolve start db
    → All (λ p. tx_issues (ledger_snapshot db s) p ≡ []) (find_all db.payouts)
Reach-no_tx_issues resolve start db s v h =
    let w = Reach-IsSound resolve start db v h in
    All-find_all (λ p. tx_issues (ledger_snapshot db s) p ≡ []) db.payouts w.payouts_wf
      (λ k p e q. sound_tx db s k p w e q)
