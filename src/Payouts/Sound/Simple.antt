-- ===== src/Payouts/Sound/Simple.antt =====
-- Confirming, taking a confirmation back and adjusting keep the tables sound.
use Prim.Native.String.{String}
use taco_backend.Common.{
  ℕ, ◌≡◌, refl, sym, subst, inl, inr, Bool, true, not, ◌||◌, Option, none, some, if◌then◌else◌,
  arith, Option-cases,
}
use taco_backend.Common.Int.{ℤ}
use taco_backend.Exec.{transaction}
use taco_backend.Store.{Row, find_by_id, update_if}
use taco_backend.Store.Active.{find_active-eq-find_by_id}
use taco_backend.Payouts.Rows.{
  Payout, PayoutStatus, pending, confirmed, AuditEntity, AuditAction, Db, is_paid_status,
  is_rejected, payout_at,
}
use taco_backend.Payouts.Read.{payout_from_db, find_one}
use taco_backend.Payouts.Steps.{log_if, same_status}
use taco_backend.Payouts.Commands.{confirm, unconfirm, adjust, valid_amount}
use taco_backend.Payouts.Sound.{IsSound, HasAmounts}
use taco_backend.Payouts.Sound.Updates.{
  set_payout, log_if-IsSound, set_payout-IsSound, kept_if, found_or_missing,
}

-- While ids are unique both ways to read a payout find the same row.
pub payout_from_db-eq-find_one :
    (k : ℕ) (db : Db) → IsSound db → payout_from_db k db ≡ find_one k db
unfolding payout_from_db find_one
payout_from_db-eq-find_one k db v =
    ground (arith, find_active-eq-find_by_id k db.payouts v.payouts_wf)

abbrev confirmed_row : ℕ → Payout → Payout
confirmed_row now v = record v { status = confirmed; confirmed_at = some now }

abbrev pub after_confirm : ℕ → Option ℕ → ℕ → Db → Db
after_confirm now actor k db =
    log_if actor AuditEntity.instructor_payouts k AuditAction.approve none
      (set_payout now k (confirmed_row now) db)

module _ (now : ℕ) (actor : Option ℕ) (k : ℕ) (db : Db) (v : IsSound db) where
  pub confirm_missing : find_by_id k db.payouts ≡ none → (confirm now actor k db).1 ≡ db
  unfolding confirm transaction find_one
  confirm_missing e = ground (arith, payout_from_db-eq-find_one k db v)

  pub confirm_found :
      (r : Row Payout)
      → find_by_id k db.payouts ≡ some r
      → (confirm now actor k db).1
        ≡ (if same_status r.val.status pending then after_confirm now actor k db else db)
  unfolding confirm transaction find_one update_if
  confirm_found r e = ground (arith, payout_from_db-eq-find_one k db v)

  confirmed_row-IsSound :
      (r : Row Payout)
      → find_by_id k db.payouts ≡ some r
      → same_status r.val.status pending ≡ true
      → IsSound (set_payout now k (confirmed_row now) db)
  confirmed_row-IsSound r e st =
      let a : HasAmounts r.val = v.amounts k r.val (ground arith) in
      set_payout-IsSound now k (confirmed_row now) db r.val v (ground arith) refl (ground arith)
        (ground arith) refl (record { summed = a.summed; effective = a.effective }) (λ _. refl)

  -- Confirming a payout keeps the tables sound, whether or not it goes through.
  pub confirm-IsSound : IsSound (confirm now actor k db).1
  confirm-IsSound = found_or_missing k db _ v confirm_missing λ r e.
      subst IsSound (sym (confirm_found r e)) (
        kept_if (same_status r.val.status pending) db (after_confirm now actor k db) v
          λ st. log_if-IsSound actor _ k _ none _ (confirmed_row-IsSound r e st))

abbrev unconfirmed_row : Payout → Payout
unconfirmed_row v = record v { status = pending; confirmed_at = none }

abbrev pub after_unconfirm : ℕ → Option ℕ → ℕ → String → Db → Db
after_unconfirm now actor k why db =
    log_if actor AuditEntity.instructor_payouts k AuditAction.status_change (some why)
      (set_payout now k unconfirmed_row db)

module _ (now : ℕ) (actor : Option ℕ) (k : ℕ) (why : String) (db : Db) (v : IsSound db) where
  pub unconfirm_missing : find_by_id k db.payouts ≡ none → (unconfirm now actor k why db).1 ≡ db
  unfolding unconfirm transaction find_one
  unconfirm_missing e = ground arith

  pub unconfirm_found :
      (r : Row Payout)
      → find_by_id k db.payouts ≡ some r
      → (unconfirm now actor k why db).1
        ≡ (if same_status r.val.status confirmed then after_unconfirm now actor k why db else db)
  unfolding unconfirm transaction find_one update_if
  unconfirm_found r e = ground arith

  unconfirmed_row-IsSound :
      (r : Row Payout)
      → find_by_id k db.payouts ≡ some r
      → same_status r.val.status confirmed ≡ true
      → IsSound (set_payout now k unconfirmed_row db)
  unconfirmed_row-IsSound r e st =
      let a : HasAmounts r.val = v.amounts k r.val (ground arith) in
      set_payout-IsSound now k unconfirmed_row db r.val v (ground arith) refl (ground arith)
        (ground arith) refl (record { summed = a.summed; effective = a.effective }) (λ _. refl)

  pub unconfirm-IsSound : IsSound (unconfirm now actor k why db).1
  unconfirm-IsSound = found_or_missing k db _ v unconfirm_missing λ r e.
      subst IsSound (sym (unconfirm_found r e)) (
        kept_if (same_status r.val.status confirmed) db (after_unconfirm now actor k why db) v
          λ st. log_if-IsSound actor _ k _ (some why) _ (unconfirmed_row-IsSound r e st))

abbrev adjusted_row : ℕ → Option String → Payout → Payout
adjusted_row n why v = record v { adjusted_amount = some n; adjust_reason = why; amount = n }

abbrev pub after_adjust : ℕ → Option ℕ → ℕ → ℕ → Option String → Db → Db
after_adjust now actor k n why db =
    log_if actor AuditEntity.instructor_payouts k AuditAction.update why
      (set_payout now k (adjusted_row n why) db)

abbrev pub is_open : PayoutStatus → Bool
is_open st = not (is_paid_status st || is_rejected st)

module _ (now : ℕ) (actor : Option ℕ) (k : ℕ) (amount : Option ℤ) (why : Option String) (db : Db)
    (v : IsSound db) where
  pub adjust_missing : find_by_id k db.payouts ≡ none → (adjust now actor k amount why db).1 ≡ db
  unfolding adjust transaction find_one
  adjust_missing e = ground (arith, payout_from_db-eq-find_one k db v)

  pub adjust_refused :
      (r : Row Payout)
      → find_by_id k db.payouts ≡ some r
      → valid_amount amount ≡ none
      → (adjust now actor k amount why db).1 ≡ db
  unfolding adjust transaction find_one
  adjust_refused r e bad = ground (arith, payout_from_db-eq-find_one k db v)

  pub adjust_found :
      (r : Row Payout) (n : ℕ)
      → find_by_id k db.payouts ≡ some r
      → valid_amount amount ≡ some n
      → (adjust now actor k amount why db).1
        ≡ (if is_open r.val.status then after_adjust now actor k n why db else db)
  unfolding adjust transaction find_one update_if
  adjust_found r n e good = ground (arith, payout_from_db-eq-find_one k db v)

  adjusted_row-IsSound :
      (r : Row Payout) (n : ℕ)
      → find_by_id k db.payouts ≡ some r
      → is_open r.val.status ≡ true
      → IsSound (set_payout now k (adjusted_row n why) db)
  adjusted_row-IsSound r n e st =
      let here : payout_at k db ≡ some r.val = ground arith in
      let a : HasAmounts r.val = v.amounts k r.val here in
      set_payout-IsSound now k (adjusted_row n why) db r.val v here refl refl refl refl
        (record { summed = a.summed; effective = refl })
        (λ paid. absurd (ground (arith, v.reversed_status k r.val here)))

  pub adjust-IsSound : IsSound (adjust now actor k amount why db).1
  adjust-IsSound = found_or_missing k db _ v adjust_missing λ r e.
      elim (Option-cases (valid_amount amount)) [
        | inl bad ↦ subst IsSound (sym (adjust_refused r e bad)) v
        | inr (n, good) ↦ subst IsSound (sym (adjust_found r n e good)) (
            kept_if (is_open r.val.status) db (after_adjust now actor k n why db) v
              λ st. log_if-IsSound actor _ k _ why _ (adjusted_row-IsSound r n e st))
      ]
