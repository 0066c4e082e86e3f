-- ===== src/Planning/Apart/Settlement/Commands.antt =====
-- Each payout command keeps the sessions apart, whether it goes through or throws.
use Prim.Native.String.{String}
use taco_backend.Common.{
  ℕ, sym, subst, not, Option, none, List, [], ◌∷◌, is_empty, get_or, if◌then◌else◌, Option-cases,
  inl, inr,
}
use taco_backend.Common.Int.{ℤ}
use taco_backend.Store.{find_by_id}
use taco_backend.Time.{IsoDate}
use taco_backend.Schedule.Participants.{ResolveIds}
use taco_backend.Payouts.Rows.{
  Db, AuditEntity, AuditAction, pending, confirmed, paid, is_paid_status,
}
use taco_backend.Payouts.Read.{measure, active_instructor_ids}
use taco_backend.Payouts.Steps.{
  pay_session, release_session, release_paid_session, same_status, payout_of,
}
use taco_backend.Payouts.Commands.{
  confirm, unconfirm, adjust, reject, reverse, pay, valid_amount, generate, generate_each,
  generate_bulk, BulkResult,
}
use taco_backend.Payouts.Sound.{IsSound}
use taco_backend.Payouts.Sound.Simple.{
  confirm_missing, confirm_found, after_confirm, after_unconfirm, after_adjust, is_open,
  unconfirm_missing, unconfirm_found, adjust_missing, adjust_refused, adjust_found,
}
use taco_backend.Payouts.Sound.Reject.{after_reject, reject_missing, reject_found}
use taco_backend.Payouts.Sound.Pay.{after_pay, pay_missing, pay_found}
use taco_backend.Payouts.Sound.Reverse.{after_reverse, reverse_missing, reverse_found}
use taco_backend.Payouts.Sound.Generate.{
  Result-cases, refused, generated_found, next_payout, with_payout,
}
use taco_backend.Payouts.History.{
  Request, generates, generates_all, confirms, unconfirms, adjusts, rejects, reverses, pays, serve,
}
use taco_backend.Planning.Apart.Settlement.{
  SessionsApart, touch_lines-IsDisjoint, claim_lines-SessionsApart, log_if-SessionsApart, if_apart,
  on_payout,
}

module _ (now : ℕ) (actor : Option ℕ) (k : ℕ) (db : Db) (sound : IsSound db)
    (v : SessionsApart db) where
  confirm-SessionsApart : SessionsApart (confirm now actor k db).1
  confirm-SessionsApart =
      on_payout k db (confirm now actor k db).1 (λ r. same_status r.val.status pending)
        (λ r. after_confirm now actor k db) v (confirm_missing now actor k db sound)
        (confirm_found now actor k db sound) λ r. log_if-SessionsApart actor _ k _ none _ v

  unconfirm-SessionsApart : (why : String) → SessionsApart (unconfirm now actor k why db).1
  unconfirm-SessionsApart why =
      on_payout k db (unconfirm now actor k why db).1 (λ r. same_status r.val.status confirmed)
        (λ r. after_unconfirm now actor k why db) v (unconfirm_missing now actor k why db sound)
        (unconfirm_found now actor k why db sound) λ r. log_if-SessionsApart actor _ k _ _ _ v

  adjust-SessionsApart :
      (amount : Option ℤ) (why : Option String) → SessionsApart (adjust now actor k amount why db).1
  adjust-SessionsApart amount why = elim (Option-cases (find_by_id k db.payouts)) [
    | inl e ↦ subst SessionsApart (sym (adjust_missing now actor k amount why db sound e)) v
    | inr (r, e) ↦ elim (Option-cases (valid_amount amount)) [
      | inl bad ↦
          subst SessionsApart (sym (adjust_refused now actor k amount why db sound r e bad)) v
      | inr (n, good) ↦
          subst SessionsApart (sym (adjust_found now actor k amount why db sound r n e good)) (
            if_apart (is_open r.val.status) (after_adjust now actor k n why db) db
              (log_if-SessionsApart actor _ k _ _ _ v) v)
    ]
  ]

  reject-SessionsApart : (why : Option String) → SessionsApart (reject now actor k why db).1
  reject-SessionsApart why =
      on_payout k db (reject now actor k why db).1 (λ r. not (is_paid_status r.val.status))
        (λ r. after_reject now actor k why r.val db) v (reject_missing now actor k why db sound)
        (reject_found now actor k why db sound)
        λ r. log_if-SessionsApart actor _ k _ _ _ (
          touch_lines-IsDisjoint now k release_session r.val.lines db.sessions
            (record { placed = λ _ p. p; clashes = λ _ _ h. h }) v)

  pay-SessionsApart : SessionsApart (pay now actor k db).1
  pay-SessionsApart =
      on_payout k db (pay now actor k db).1 (λ r. same_status r.val.status confirmed)
        (λ r. after_pay now actor k r.val db) v (pay_missing now actor k db sound)
        (pay_found now actor k db sound)
        λ r. log_if-SessionsApart actor _ _ _ none _ (
          log_if-SessionsApart actor _ k _ none _ (
            touch_lines-IsDisjoint now k (pay_session k) r.val.lines db.sessions
              (record { placed = λ _ p. p; clashes = λ _ _ h. h }) v))

  reverse-SessionsApart : (why : String) → SessionsApart (reverse now actor k why db).1
  reverse-SessionsApart why =
      on_payout k db (reverse now actor k why db).1 (λ r. same_status r.val.status paid)
        (λ r. after_reverse now actor k why r.val db) v (reverse_missing now actor k why db sound)
        (reverse_found now actor k why db sound)
        λ r. log_if-SessionsApart actor _ _ _ none _ (
          log_if-SessionsApart actor _ k _ _ _ (
            touch_lines-IsDisjoint now k release_paid_session r.val.lines db.sessions
              (record { placed = λ _ p. p; clashes = λ _ _ h. h }) v))

generate-SessionsApart :
    (resolve : ResolveIds) (now : ℕ) (actor : Option ℕ) (instructor : ℕ) (from to : Option IsoDate)
    (db : Db)
    → SessionsApart db
    → SessionsApart (generate resolve now actor instructor from to db).1
generate-SessionsApart resolve now actor instructor from to db v =
    elim (Result-cases (measure resolve db instructor from to)) [
      | inl (e, h) ↦
          subst SessionsApart (sym (refused resolve now actor instructor from to db e h)) v
      | inr (m, h) ↦ elim (generated_found resolve now actor instructor from to db m h) [
        | inl same ↦ subst SessionsApart (sym same) v
        | inr (won, after) ↦ subst SessionsApart (sym after) (
            log_if-SessionsApart actor AuditEntity.instructor_payouts (next_payout db)
              AuditAction.create none _
              (claim_lines-SessionsApart now (next_payout db) m.lines
                (with_payout now (payout_of m) db) v))
      ]
    ]

-- a bulk settlement, payout by payout
generate_each-SessionsApart :
    (resolve : ResolveIds) (now : ℕ) (actor : Option ℕ) (from to : Option IsoDate) (is : List ℕ)
    (r : BulkResult) (db : Db)
    → SessionsApart db
    → SessionsApart (generate_each resolve now actor from to is r db).1
unfolding generate_each
generate_each-SessionsApart resolve now actor from to [] r db v = v
generate_each-SessionsApart resolve now actor from to (i ∷ is) r db v =
    generate_each-SessionsApart resolve now actor from to is _ _
      (generate-SessionsApart resolve now actor i from to db v)

generate_bulk-SessionsApart :
    (resolve : ResolveIds) (now : ℕ) (actor : Option ℕ) (from to : Option IsoDate)
    (ids : Option (List ℕ)) (db : Db)
    → SessionsApart db
    → SessionsApart (generate_bulk resolve now actor from to ids db).1
unfolding generate_bulk
generate_bulk-SessionsApart resolve now actor from to ids db v =
    let named = get_or ids [] in
    let targets = if is_empty named then active_instructor_ids resolve db else named in
    generate_each-SessionsApart resolve now actor from to targets
      (record { generated = []; skipped = []; failed = [] }) db v

-- Every payout request keeps the sessions of sound tables apart.
pub serve-SessionsApart :
    (resolve : ResolveIds) (now : ℕ) (actor : Option ℕ) (r : Request) (db : Db)
    → IsSound db
    → SessionsApart db
    → SessionsApart (serve resolve now actor r db)
unfolding serve
serve-SessionsApart resolve now actor (generates i from to) db sound v =
    generate-SessionsApart resolve now actor i from to db v
serve-SessionsApart resolve now actor (generates_all from to ids) db sound v =
    generate_bulk-SessionsApart resolve now actor from to ids db v
serve-SessionsApart resolve now actor (confirms k) db sound v =
    confirm-SessionsApart now actor k db sound v
serve-SessionsApart resolve now actor (unconfirms k why) db sound v =
    unconfirm-SessionsApart now actor k db sound v why
serve-SessionsApart resolve now actor (adjusts k amount why) db sound v =
    adjust-SessionsApart now actor k db sound v amount why
serve-SessionsApart resolve now actor (rejects k why) db sound v =
    reject-SessionsApart now actor k db sound v why
serve-SessionsApart resolve now actor (reverses k why) db sound v =
    reverse-SessionsApart now actor k db sound v why
serve-SessionsApart resolve now actor (pays k) db sound v = pay-SessionsApart now actor k db sound v
