-- ===== src/Payouts/History.antt =====
-- Histories of the payout tables: any order of the commands of src/modules/payouts/payouts.service.ts,
-- with writes of the other services between them, which leave the payout columns alone.
use Prim.Native.String.{String}
use taco_backend.Common.{
  ℕ, ◌≡◌, sym, ap, ◌∙◌, subst, Bool, Option, none, some, List, [], ◌∷◌, map_option, holds, is_id,
  get_or, is_empty, if◌then◌else◌, arith, Option-cases, inl, inr,
}
use taco_backend.Common.Int.{ℤ}
use taco_backend.Store.{find_by_id}
use taco_backend.Store.WellFormed.{IsWellFormed}
use taco_backend.Time.{IsoDate}
use taco_backend.Schedule.Entity.{ClassSession}
use taco_backend.Schedule.Participants.{ResolveIds}
use taco_backend.Payouts.Rows.{Db, value, payout_at, session_at}
use taco_backend.Payouts.Read.{active_instructor_ids}
use taco_backend.Payouts.Commands.{
  generate, confirm, unconfirm, adjust, reject, reverse, pay, BulkResult, generate_each,
  generate_bulk,
}
use taco_backend.Payouts.Sound.{
  IsSound, is_linked, claims, is_paid_payout, outs, backs, out_total, back_total,
}
use taco_backend.Payouts.Sound.Updates.{holds_ext}
use taco_backend.Payouts.Sound.Simple.{confirm-IsSound, unconfirm-IsSound, adjust-IsSound}
use taco_backend.Payouts.Sound.Reject.{reject-IsSound}
use taco_backend.Payouts.Sound.Pay.{pay-IsSound}
use taco_backend.Payouts.Sound.Reverse.{reverse-IsSound}
use taco_backend.Payouts.Sound.Generate.{generate-IsSound}

pub data Request : Type 0 where
  generates : ℕ → Option IsoDate → Option IsoDate → Request
  generates_all : Option IsoDate → Option IsoDate → Option (List ℕ) → Request
  confirms : ℕ → Request
  unconfirms : ℕ → String → Request
  adjusts : ℕ → Option ℤ → Option String → Request
  rejects : ℕ → Option String → Request
  reverses : ℕ → String → Request
  pays : ℕ → Request

-- the payout that an active session is linked to
abbrev pub linked_payout : Option ClassSession → Option ℕ
linked_payout none = none
linked_payout (some s) = s.payout_id

abbrev pub booked : ℕ → Db → Option ℕ
booked n db = linked_payout (session_at n db)

abbrev pub paid_flag : ℕ → Db → Bool
paid_flag n db = holds (λ s. s.is_paid) (session_at n db)

-- What other services may do between two commands: they write no payout, no payout column of a
-- session, no row that is linked away, and no ledger row of a payout.
pub record LeavesBooks (db db' : Db) : Type 0 where
  pub same_payouts : db'.payouts ≡ db.payouts
  pub sessions_wf : IsWellFormed db'.sessions
  pub same_links : (n : ℕ) → booked n db' ≡ booked n db
  pub same_flags : (n : ℕ) → paid_flag n db' ≡ paid_flag n db
  pub same_outs : (k : ℕ) → outs k db' ≡ outs k db
  pub same_backs : (k : ℕ) → backs k db' ≡ backs k db
  pub same_out_total : (k : ℕ) → out_total k db' ≡ out_total k db
  pub same_back_total : (k : ℕ) → back_total k db' ≡ back_total k db

module _ (db db' : Db) (w : LeavesBooks db db') where
  payout_same : (k : ℕ) → payout_at k db' ≡ payout_at k db
  payout_same k = ap (λ t. map_option value (find_by_id k t)) w.same_payouts

  linked_of_booked : (k n : ℕ) (e : Db) → is_linked k n e ≡ is_id k (booked n e)
  linked_of_booked k n e = ground arith

  flags_of :
      (e : Db) (n : ℕ) (s : ClassSession)
      → session_at n e ≡ some s
      → (paid_flag n e ≡ s.is_paid) × (booked n e ≡ s.payout_id)
  flags_of e n s h = ground arith

  module _ (v : IsSound db) where
    same_linked : (k n : ℕ) → is_linked k n db' ≡ claims k n db'
    same_linked k n = ground (
      arith,
      linked_of_booked k n db,
      linked_of_booked k n db',
      w.same_links n,
      payout_same k,
      v.links k n,
    )

    flag_before : (n : ℕ) → paid_flag n db ≡ holds (is_paid_payout db) (booked n db)
    flag_before n = elim (Option-cases (session_at n db)) [
      | inl gone ↦ ground arith
      | inr (s, e) ↦ ground (arith, flags_of db n s e, v.paid_flags n s e)
    ]

    new_flags :
        (n : ℕ) (s : ClassSession)
        → session_at n db' ≡ some s
        → s.is_paid ≡ holds (is_paid_payout db') s.payout_id
    new_flags n s e =
        let (flag, book) = flags_of db' n s e in
        sym flag
        ∙ (w.same_flags n
            ∙ (flag_before n
                ∙ (ap (holds (is_paid_payout db)) (sym (w.same_links n) ∙ book)
                    ∙ holds_ext s.payout_id (λ i. ground (arith, payout_same i)))))

  pub LeavesBooks-IsSound : IsSound db → IsSound db'
  LeavesBooks-IsSound v = record {
    payouts_wf = subst IsWellFormed (sym w.same_payouts) v.payouts_wf;
    sessions_wf = w.sessions_wf;
    links = same_linked v;
    paid_flags = new_flags v;
    amounts = λ k p e. v.amounts k p (sym (payout_same k) ∙ e);
    reversed_status = λ k p e. v.reversed_status k p (sym (payout_same k) ∙ e);
    paid_once = λ k. ground (arith, w.same_outs k, payout_same k, v.paid_once k);
    reversed_once = λ k. ground (arith, w.same_backs k, payout_same k, v.reversed_once k);
    paid_amount = λ k. ground (arith, w.same_out_total k, payout_same k, v.paid_amount k);
    reversed_amount = λ k. ground (arith, w.same_back_total k, payout_same k, v.reversed_amount k);
  }

module _ (resolve : ResolveIds) where
  -- the tables after a request at time `now`, whether it went through or threw
  unfoldable pub serve : ℕ → Option ℕ → Request → Db → Db
  serve now actor (generates i from to) db = (generate resolve now actor i from to db).1
  serve now actor (generates_all from to ids) db =
      (generate_bulk resolve now actor from to ids db).1
  serve now actor (confirms k) db = (confirm now actor k db).1
  serve now actor (unconfirms k why) db = (unconfirm now actor k why db).1
  serve now actor (adjusts k amount why) db = (adjust now actor k amount why db).1
  serve now actor (rejects k why) db = (reject now actor k why db).1
  serve now actor (reverses k why) db = (reverse now actor k why db).1
  serve now actor (pays k) db = (pay now actor k db).1

  pub data Reach (start : Db) : Db → Type 0 where
    here : Reach start start
    served :
        {db : Db} (now : ℕ) (actor : Option ℕ) (r : Request)
        → Reach start db
        → Reach start (serve now actor r db)
    elsewhere : {db db' : Db} → Reach start db → LeavesBooks db db' → Reach start db'

  generate_each-IsSound :
      (now : ℕ) (actor : Option ℕ) (from to : Option IsoDate) (is : List ℕ) (r : BulkResult)
      (db : Db)
      → IsSound db
      → IsSound (generate_each resolve now actor from to is r db).1
  unfolding generate_each
  generate_each-IsSound now actor from to [] r db v = v
  generate_each-IsSound now actor from to (i ∷ is) r db v =
      generate_each-IsSound now actor from to is _ _
        (generate-IsSound resolve now actor i from to db v)

  generate_bulk-IsSound :
      (now : ℕ) (actor : Option ℕ) (from to : Option IsoDate) (ids : Option (List ℕ)) (db : Db)
      → IsSound db
      → IsSound (generate_bulk resolve now actor from to ids db).1
  unfolding generate_bulk
  generate_bulk-IsSound now actor from to ids db v =
      let named = get_or ids [] in
      let targets = if is_empty named then active_instructor_ids resolve db else named in
      generate_each-IsSound now actor from to targets
        (record { generated = []; skipped = []; failed = [] }) db v

  -- Every request keeps the tables sound, whether it goes through or throws.
  pub serve-IsSound :
      (now : ℕ) (actor : Option ℕ) (r : Request) (db : Db)
      → IsSound db
      → IsSound (serve now actor r db)
  unfolding serve
  serve-IsSound now actor (generates i from to) db v =
      generate-IsSound resolve now actor i from to db v
  serve-IsSound now actor (generates_all from to ids) db v =
      generate_bulk-IsSound now actor from to ids db v
  serve-IsSound now actor (confirms k) db v = confirm-IsSound now actor k db v
  serve-IsSound now actor (unconfirms k why) db v = unconfirm-IsSound now actor k why db v
  serve-IsSound now actor (adjusts k amount why) db v = adjust-IsSound now actor k amount why db v
  serve-IsSound now actor (rejects k why) db v = reject-IsSound now actor k why db v
  serve-IsSound now actor (reverses k why) db v = reverse-IsSound now actor k why db v
  serve-IsSound now actor (pays k) db v = pay-IsSound now actor k db v

  -- After any sequence of requests, in any order and whether they went through or threw, with writes
  -- of other services between them that leave the books alone, sound tables are sound again.
  pub Reach-IsSound : (start db : Db) → IsSound start → Reach start db → IsSound db
  Reach-IsSound start _ v here = v
  Reach-IsSound start _ v (served {db} now actor r before) =
      serve-IsSound now actor r db (Reach-IsSound start db v before)
  Reach-IsSound start _ v (elsewhere {db} {db'} before w) =
      LeavesBooks-IsSound db db' w (Reach-IsSound start db v before)
