-- ===== src/Payouts/Sound/Pay.antt =====
-- Paying a payout, which marks its sessions and adds a payment to the ledger, keeps the tables sound.
use taco_backend.Common.{
  ℕ, ◌+◌, ◌≡◌, sym, subst, true, false, ◌&&◌, Option, none, some, ◌==◌, if◌then◌else◌, is_id,
  is_some, map_option, holds, arith, Option-cases, Bool-cases, inl, inr,
}
use taco_backend.Exec.{transaction}
use taco_backend.Store.{Row, find_by_id, update_if, insert}
use taco_backend.Store.Active.{write-IsWellFormed}
use taco_backend.Schedule.Entity.{ClassSession}
use taco_backend.Payouts.Rows.{
  Payout, confirmed, paid, AuditEntity, AuditAction, Db, has_line, payout_at, session_at,
}
use taco_backend.Payouts.Read.{find_one}
use taco_backend.Payouts.Steps.{log_if, same_status, touch_lines, pay_session, ledger_row}
use taco_backend.Payouts.Commands.{pay}
use taco_backend.Payouts.Sound.{IsSound, HasAmounts, claims, is_linked, is_paid_payout}
use taco_backend.Payouts.Sound.Sessions.{patch_if, touch_lines_value, touch_lines-IsWellFormed}
use taco_backend.Payouts.Sound.Updates.{
  set_payout, payout_at-set, log_if-IsSound, kept_if, found_or_missing,
}
use taco_backend.Payouts.Sound.Ledger.{payment_counts}

abbrev pub paid_row : ℕ → Payout → Payout
paid_row now v = record v { status = paid; paid_at = some now }

abbrev pub paid_db : ℕ → ℕ → Payout → Db → Db
paid_db now k p db = record (set_payout now k (paid_row now) db) {
  sessions = touch_lines now k (pay_session k) p.lines db.sessions;
  transactions = (insert now (ledger_row true k p.amount now) db.transactions).1;
}

module _ (now k : ℕ) (db : Db) (p : Payout) (v : IsSound db) (here : payout_at k db ≡ some p)
    (status_was : same_status p.status confirmed ≡ true) where
  not_reversed : is_some p.reversed_at ≡ false
  not_reversed = ground (arith, v.reversed_status k p here)

  pub paid_payout_at :
      (i : ℕ)
      → payout_at i (paid_db now k p db)
        ≡ (if k == i then some (paid_row now p) else payout_at i db)
  paid_payout_at i = ground (arith, payout_at-set i now k (paid_row now) db)

  session_value :
      (n : ℕ)
      → session_at n (paid_db now k p db)
        ≡ map_option
            (patch_if (λ s. has_line n p.lines && is_id k s.payout_id) (pay_session k))
            (session_at n db)
  session_value n =
      touch_lines_value n now k (pay_session k) p.lines db.sessions (λ s. ground arith)

  new_links : (i n : ℕ) → is_linked i n (paid_db now k p db) ≡ claims i n (paid_db now k p db)
  new_links i n = ground (arith, paid_payout_at i, session_value n, v.links i n, v.links k n)

  new_flags :
      (n : ℕ) (s : ClassSession)
      → session_at n (paid_db now k p db) ≡ some s
      → s.is_paid ≡ holds (is_paid_payout (paid_db now k p db)) s.payout_id
  new_flags n s e = elim (Option-cases (session_at n db)) [
    | inl gone ↦ absurd (ground (arith, session_value n))
    | inr (s₀, old) ↦ elim (Option-cases s₀.payout_id) [
      | inl free ↦ ground (arith, session_value n, v.paid_flags n s₀ old)
      | inr (i, linked) ↦
          ground (arith, session_value n, v.paid_flags n s₀ old, paid_payout_at i, v.links k n)
    ]
  ]

  new_amounts : (i : ℕ) (q : Payout) → payout_at i (paid_db now k p db) ≡ some q → HasAmounts q
  new_amounts i q e = elim (Bool-cases (k == i)) [
    | inl hit ↦
        let a : HasAmounts p = v.amounts k p here in
        subst HasAmounts {x = paid_row now p} (ground (arith, paid_payout_at i))
          (record { summed = a.summed; effective = a.effective })
    | inr miss ↦ v.amounts i q (ground (arith, paid_payout_at i))
  ]

  pub paid_db-IsSound : IsSound (paid_db now k p db)
  paid_db-IsSound = record {
    payouts_wf = write-IsWellFormed k now (paid_row now) db.payouts v.payouts_wf;
    sessions_wf = touch_lines-IsWellFormed now k (pay_session k) p.lines db.sessions v.sessions_wf;
    links = new_links;
    paid_flags = new_flags;
    amounts = new_amounts;
    reversed_status =
        λ i q e r. ground (arith, paid_payout_at i, v.reversed_status i q, not_reversed);
    paid_once = λ i. ground (
      arith,
      paid_payout_at i,
      v.paid_once i,
      v.paid_once k,
      payment_counts now k p.amount db.transactions i,
      not_reversed,
    );
    reversed_once = λ i. ground (
      arith,
      paid_payout_at i,
      v.reversed_once i,
      payment_counts now k p.amount db.transactions i,
      not_reversed,
    );
    paid_amount = λ i. ground (
      arith,
      paid_payout_at i,
      v.paid_amount i,
      payment_counts now k p.amount db.transactions i,
      not_reversed,
    );
    reversed_amount = λ i. ground (
      arith,
      paid_payout_at i,
      v.reversed_amount i,
      payment_counts now k p.amount db.transactions i,
      not_reversed,
    );
  }

abbrev pub after_pay : ℕ → Option ℕ → ℕ → Payout → Db → Db
after_pay now actor k p db =
    log_if actor AuditEntity.transactions (db.transactions.sequence + 1) AuditAction.create none (
      log_if actor AuditEntity.instructor_payouts k AuditAction.status_change none
        (paid_db now k p db))

module _ (now : ℕ) (actor : Option ℕ) (k : ℕ) (db : Db) (v : IsSound db) where
  pub pay_missing : find_by_id k db.payouts ≡ none → (pay now actor k db).1 ≡ db
  unfolding pay transaction find_one
  pay_missing e = ground arith

  pub pay_found :
      (r : Row Payout)
      → find_by_id k db.payouts ≡ some r
      → (pay now actor k db).1
        ≡ (if same_status r.val.status confirmed then after_pay now actor k r.val db else db)
  unfolding pay transaction find_one update_if insert
  pay_found r e = ground arith

  pub pay-IsSound : IsSound (pay now actor k db).1
  pay-IsSound = found_or_missing k db _ v pay_missing λ r e. subst IsSound (sym (pay_found r e)) (
      kept_if (same_status r.val.status confirmed) db (after_pay now actor k r.val db) v λ st.
        log_if-IsSound actor _ _ _ none _
          (log_if-IsSound actor _ k _ none _ (paid_db-IsSound now k db r.val v (ground arith) st)))
