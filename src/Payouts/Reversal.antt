-- ===== src/Payouts/Reversal.antt =====
-- What `reverse` of src/modules/payouts/payouts.service.ts leaves behind.
use Prim.Native.String.{String}
use taco_backend.Common.{ℕ, ◌≡◌, ap, ◌∙◌, true, false, Option, some, arith}
use taco_backend.Exec.{is_ok, transaction}
use taco_backend.Store.{Row, find_by_id, update_if, insert}
use taco_backend.Payouts.Rows.{Payout, Db, payout_at, paid}
use taco_backend.Payouts.Steps.{same_status}
use taco_backend.Payouts.Read.{find_one}
use taco_backend.Payouts.Commands.{reverse}
use taco_backend.Payouts.Sound.{IsSound, is_linked, outs, backs, out_total, back_total}
use taco_backend.Payouts.Sound.Reverse.{
  reverse-IsSound, reversed_row, reverse_found, reversed_payout_at,
}

module _ (now : ℕ) (actor : Option ℕ) (k : ℕ) (why : String) (db : Db) (r : Row Payout)
    (e : find_by_id k db.payouts ≡ some r) (st : same_status r.val.status paid ≡ true) where
  reverse_answer : is_ok (reverse now actor k why db).0 ≡ true
  unfolding reverse transaction find_one update_if insert
  reverse_answer = ground arith

  module _ (v : IsSound db) where
    after_reverse_at :
        payout_at k (reverse now actor k why db).1 ≡ some (reversed_row now why r.val)
    after_reverse_at =
        ap (payout_at k) (reverse_found now actor k why db v r e)
        ∙ ground (arith, reversed_payout_at now k why db r.val v (ground arith) st k)

    balanced :
        (db' : Db)
        → payout_at k db' ≡ some (reversed_row now why r.val)
        → IsSound db'
        → (outs k db' ≡ 1) × (backs k db' ≡ 1) × (out_total k db' ≡ back_total k db')
    balanced db' h w = (
      ground (arith, w.paid_once k),
      ground (arith, w.reversed_once k),
      ground (arith, w.paid_amount k, w.reversed_amount k),
    )

unlinked_at :
    (now k n : ℕ) (why : String) (db' : Db) (p : Payout)
    → payout_at k db' ≡ some (reversed_row now why p)
    → IsSound db'
    → is_linked k n db' ≡ false
unlinked_at now k n why db' p h w = w.links k n ∙ ground arith

-- In sound tables, a paid payout can be reversed: the command goes through, afterwards the ledger
-- has one payment of the payout and one compensation, which add up to the same amount, and no
-- session refers to the payout any more.
pub reverse-balances :
    (now : ℕ) (actor : Option ℕ) (k n : ℕ) (why : String) (db : Db) (r : Row Payout)
    → IsSound db
    → find_by_id k db.payouts ≡ some r
    → same_status r.val.status paid ≡ true
    → let db' = (reverse now actor k why db).1 in
      (is_ok (reverse now actor k why db).0 ≡ true)
      × ((outs k db' ≡ 1) × (backs k db' ≡ 1) × (out_total k db' ≡ back_total k db'))
      × (is_linked k n db' ≡ false)
reverse-balances now actor k n why db r v e st =
    let db' = (reverse now actor k why db).1 in
    let gone = after_reverse_at now actor k why db r e st v in
    let w = reverse-IsSound now actor k why db v in
    (
      reverse_answer now actor k why db r e st,
      balanced now actor k why db r e st v db' gone w,
      unlinked_at now k n why db' r.val gone w,
    )
