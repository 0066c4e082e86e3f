-- ===== src/Payouts/Sound/Reverse.antt =====
-- Reversing a payment, which releases the sessions and compensates the payment, keeps the tables sound.
use Prim.Native.String.{String}
use taco_backend.Common.{
  ℕ, ◌+◌, ◌≡◌, refl, sym, subst, true, false, ◌&&◌, Option, none, some, ◌==◌, if◌then◌else◌, is_id,
  is_some, map_option, holds, arith, Option-cases, Bool-cases, inl, inr,
}
use taco_backend.Exec.{transaction}
use taco_backend.Store.{Row, find_by_id, update_if, insert}
use taco_backend.Store.Active.{write-IsWellFormed}
use taco_backend.Schedule.Entity.{ClassSession}
use taco_backend.Payouts.Rows.{
  Payout, paid, rejected, AuditEntity, AuditAction, Db, has_line, payout_at, session_at,
}
use taco_backend.Payouts.Read.{find_one}
use taco_backend.Payouts.Steps.{log_if, same_status, touch_lines, release_paid_session, ledger_row}
use taco_backend.Payouts.Commands.{reverse}
use taco_backend.Payouts.Sound.{IsSound, HasAmounts, claims, is_linked, is_paid_payout}
use taco_backend.Payouts.Sound.Sessions.{patch_if, touch_lines_value, touch_lines-IsWellFormed}
use taco_backend.Payouts.Sound.Updates.{
  set_payout, payout_at-set, log_if-IsSound, kept_if, found_or_missing,
}
use taco_backend.Payouts.Sound.Ledger.{reversal_counts}

abbrev pub reversed_row : ℕ → String → Payout → Payout
reversed_row now why v = record v {
  status = rejected;
  reversed_at = some now;
  rejected_reason = some why;
  reversed_reason = some why;
}

abbrev pub reversed_db : ℕ → ℕ → String → Payout → Db → Db
reversed_db now k why p db = record (set_payout now k (reversed_row now why) db) {
  sessions = touch_lines now k release_paid_session p.lines db.sessions;
  transactions = (insert now (ledger_row false k p.amount now) db.transactions).1;
}

module _ (now k : ℕ) (why : String) (db : Db) (p : Payout) (v : IsSound db)
    (here : payout_at k db ≡ some p) (status_was : same_status p.status paid ≡ true) where
  not_reversed : is_some p.reversed_at ≡ false
  not_reversed = ground (arith, v.reversed_status k p here)

  pub reversed_payout_at :
      (i : ℕ)
      → payout_at i (reversed_db now k why p db)
        ≡ (if k == i then some (reversed_row now why p) else payout_at i db)
  reversed_payout_at i = ground (arith, payout_at-set i now k (reversed_row now why) db)

  session_value :
      (n : ℕ)
      → session_at n (reversed_db now k why p db)
        ≡ map_option
            (patch_if (λ s. has_line n p.lines && is_id k s.payout_id) release_paid_session)
            (session_at n db)
  session_value n = touch_lines_value n now k release_paid_session p.lines db.sessions (λ s. refl)

  new_links :
      (i n : ℕ)
      → is_linked i n (reversed_db now k why p db) ≡ claims i n (reversed_db now k why p db)
  new_links i n = ground (arith, reversed_payout_at i, session_value n, v.links i n, v.links k n)

  new_flags :
      (n : ℕ) (s : ClassSession)
      → session_at n (reversed_db now k why p db) ≡ some s
      → s.is_paid ≡ holds (is_paid_payout (reversed_db now k why p db)) s.payout_id
  new_flags n s e = elim (Option-cases (session_at n db)) [
    | inl gone ↦ absurd (ground (arith, session_value n))
    | inr (s₀, old) ↦ elim (Option-cases s₀.payout_id) [
      | inl free ↦ ground (arith, session_value n, v.paid_flags n s₀ old)
      | inr (i, linked) ↦
          ground (arith, session_value n, v.paid_flags n s₀ old, reversed_payout_at i, v.links k n)
    ]
  ]

  new_amounts :
      (i : ℕ) (q : Payout) → payout_at i (reversed_db now k why p db) ≡ some q → HasAmounts q
  new_amounts i q e = elim (Bool-cases (k == i)) [
    | inl hit ↦
        let a : HasAmounts p = v.amounts k p here in
        subst HasAmounts {x = reversed_row now why p} (ground (arith, reversed_payout_at i))
          (record { summed = a.summed; effective = a.effective })
    | inr miss ↦ v.amounts i q (ground (arith, reversed_payout_at i))
  ]

  pub reversed_db-IsSound : IsSound (reversed_db now k why p db)
  reversed_db-IsSound = record {
    payouts_wf = write-IsWellFormed k now (reversed_row now why) db.payouts v.payouts_wf;
    sessions_wf =
        touch_lines-IsWellFormed now k release_paid_session p.lines db.sessions v.sessions_wf;
    links = new_links;
    paid_flags = new_flags;
    amounts = new_amounts;
    reversed_status =
        λ i q e r. ground (arith, reversed_payout_at i, v.reversed_status i q, not_reversed);
    paid_once = λ i. ground (
      arith,
      reversed_payout_at i,
      v.paid_once i,
      v.paid_once k,
      reversal_counts now k p.amount db.transactions i,
      not_reversed,
    );
    reversed_once = λ i. ground (
      arith,
      reversed_payout_at i,
      v.reversed_once i,
      reversal_counts now k p.amount db.transactions i,
      not_reversed,
    );
    paid_amount = λ i. ground (
      arith,
      reversed_payout_at i,
      v.paid_amount i,
      reversal_counts now k p.amount db.transactions i,
      not_reversed,
    );
    reversed_amount = λ i. ground (
      arith,
      reversed_payout_at i,
      v.reversed_amount i,
      reversal_counts now k p.amount db.transactions i,
      not_reversed,
    );
  }

abbrev pub after_reverse : ℕ → Option ℕ → ℕ → String → Payout → Db → Db
after_reverse now actor k why p db =
    log_if actor AuditEntity.transactions (db.transactions.sequence + 1) AuditAction.create none (
      log_if actor AuditEntity.instructor_payouts k AuditAction.status_change (some why)
        (reversed_db now k why p db))

module _ (now : ℕ) (actor : Option ℕ) (k : ℕ) (why : String) (db : Db) (v : IsSound db) where
  pub reverse_missing : find_by_id k db.payouts ≡ none → (reverse now actor k why db).1 ≡ db
  unfolding reverse transaction find_one
  reverse_missing e = ground arith

  pub reverse_found :
      (r : Row Payout)
      → find_by_id k db.payouts ≡ some r
      → (reverse now actor k why db).1
        ≡ (if same_status r.val.status paid then after_reverse now actor k why r.val db else db)
  unfolding reverse transaction find_one update_if insert
  reverse_found r e = ground arith

  pub reverse-IsSound : IsSound (reverse now actor k why db).1
  reverse-IsSound = found_or_missing k db _ v reverse_missing λ r e.
      subst IsSound (sym (reverse_found r e)) (
        kept_if (same_status r.val.status paid) db (after_reverse now actor k why r.val db) v λ st.
          log_if-IsSound actor _ _ _ none _ (
            log_if-IsSound actor _ k _ (some why) _
              (reversed_db-IsSound now k why db r.val v (ground arith) st)))
