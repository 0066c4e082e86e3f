-- ===== src/Payouts/Books.antt =====
-- What the invariant of the payout tables means for a session and for the ledger.
use taco_backend.Common.{ℕ, ◌≡◌, refl, ap, ◌∙◌, true, false, Option, some, [], is_some, arith}
use taco_backend.Exec.{err, is_ok, transaction}
use taco_backend.Store.{Row, find_by_id, update_if, insert}
use taco_backend.Schedule.Participants.{ResolveIds}
use taco_backend.Payouts.Rows.{Payout, Db, is_paid_status, payout_at, paid, confirmed}
use taco_backend.Payouts.Steps.{same_status}
use taco_backend.Payouts.Read.{find_one, already_paid}
use taco_backend.Payouts.Commands.{pay}
use taco_backend.Payouts.Integrity.{integrity_issues, snapshot_of}
use taco_backend.Payouts.Sound.{IsSound, claims, is_linked, outs, backs, out_total}
use taco_backend.Payouts.Sound.Pay.{pay-IsSound, paid_row, pay_found, paid_payout_at}
use taco_backend.Payouts.History.{Reach, Reach-IsSound}
use taco_backend.Payouts.Checked.{integrity_issues-IsSound}

abbrev paid_payout : ℕ → Row Payout → Row Payout
paid_payout now r = record r {
  val = record r.val { status = paid; paid_at = some now };
  updated_at = now;
}

one_link : (k k' n : ℕ) (db : Db) → is_linked k n db ≡ true → is_linked k' n db ≡ true → k ≡ k'
one_link k k' n db e e' = ground arith

unique_claim :
    (k k' n : ℕ) (db : Db) → IsSound db → claims k n db ≡ true → claims k' n db ≡ true → k ≡ k'
unique_claim k k' n db v c c' = one_link k k' n db (v.links k n ∙ c) (v.links k' n ∙ c')

-- After any history of requests and outside writes that starts at sound tables, a session is a line
-- of at most one payout that is not rejected.
pub Reach-unique_claim :
    (resolve : ResolveIds) (start db : Db) (k k' n : ℕ)
    → IsSound start
    → Reach resolve start db
    → claims k n db ≡ true
    → claims k' n db ≡ true
    → k ≡ k'
Reach-unique_claim resolve start db k k' n v h c c' =
    unique_claim k k' n db (Reach-IsSound resolve start db v h) c c'

-- After any history of requests and outside writes that starts at sound tables, the checker
-- reports no issue.
pub Reach-no_issues :
    (resolve : ResolveIds) (start db : Db)
    → IsSound start
    → Reach resolve start db
    → integrity_issues (snapshot_of db) ≡ []
Reach-no_issues resolve start db v h =
    integrity_issues-IsSound db (Reach-IsSound resolve start db v h)

module _ (now : ℕ) (actor : Option ℕ) (k : ℕ) (db : Db) (r : Row Payout)
    (e : find_by_id k db.payouts ≡ some r) (st : same_status r.val.status confirmed ≡ true) where
  pay_answer : is_ok (pay now actor k db).0 ≡ true
  unfolding pay transaction find_one update_if insert
  pay_answer = ground arith

  module _ (v : IsSound db) where
    after_pay_at : payout_at k (pay now actor k db).1 ≡ some (paid_row now r.val)
    after_pay_at =
        ap (payout_at k) (pay_found now actor k db v r e)
        ∙ ground (arith, paid_payout_at now k db r.val v (ground arith) st k)

    still_unreversed : is_some r.val.reversed_at ≡ false
    still_unreversed = ground (arith, v.reversed_status k r.val)

    books :
        (db' : Db)
        → payout_at k db' ≡ some (paid_row now r.val)
        → IsSound db'
        → (outs k db' ≡ 1) × (out_total k db' ≡ r.val.amount) × (backs k db' ≡ 0)
    books db' h w = (
      ground (arith, w.paid_once k),
      ground (arith, w.paid_amount k),
      ground (arith, w.reversed_once k, still_unreversed),
    )

again :
    (now : ℕ) (actor : Option ℕ) (k : ℕ) (db : Db) (p : Payout)
    → payout_at k db ≡ some p
    → is_paid_status p.status ≡ true
    → pay now actor k db ≡ (err already_paid, db)
unfolding pay transaction find_one
again now actor k db p e st = ground arith

-- In sound tables, a confirmed payout can be paid: the command goes through, afterwards the ledger
-- has one payment of the payout, of its amount, and no compensation, and every later attempt to pay
-- it throws and changes nothing.
pub pay-once :
    (now now' : ℕ) (actor actor' : Option ℕ) (k : ℕ) (db : Db) (r : Row Payout)
    → IsSound db
    → find_by_id k db.payouts ≡ some r
    → same_status r.val.status confirmed ≡ true
    → let db' = (pay now actor k db).1 in
      (is_ok (pay now actor k db).0 ≡ true)
      × ((outs k db' ≡ 1) × (out_total k db' ≡ r.val.amount) × (backs k db' ≡ 0))
      × (pay now' actor' k db' ≡ (err already_paid, db'))
pay-once now now' actor actor' k db r v e st =
    let db' = (pay now actor k db).1 in
    let paid_now = after_pay_at now actor k db r e st v in
    (
      pay_answer now actor k db r e st,
      books now actor k db r e st v db' paid_now (pay-IsSound now actor k db v),
      again now' actor' k db' (paid_row now r.val) paid_now refl,
    )
