-- ===== src/Payouts/Sound/Reject.antt =====
-- Rejecting a payout, which releases its sessions, keeps the tables sound.
use Prim.Native.String.{String}
use taco_backend.Common.{
  ℕ, ◌≡◌, refl, sym, subst, false, not, ◌&&◌, Option, none, some, ◌==◌, if◌then◌else◌, is_id,
  map_option, holds, get_or, arith, Option-cases, Bool-cases, inl, inr,
}
use taco_backend.Exec.{transaction}
use taco_backend.Store.{Row, find_by_id, update_if}
use taco_backend.Store.Active.{write-IsWellFormed}
use taco_backend.Schedule.Entity.{ClassSession}
use taco_backend.Payouts.Rows.{
  Payout, rejected, AuditEntity, AuditAction, Db, is_paid_status, has_line, payout_at, session_at,
}
use taco_backend.Payouts.Read.{find_one}
use taco_backend.Payouts.Steps.{log_if, touch_lines, release_session}
use taco_backend.Payouts.Commands.{reject}
use taco_backend.Payouts.Sound.{IsSound, HasAmounts, claims, is_linked, is_paid_payout}
use taco_backend.Payouts.Sound.Sessions.{patch_if, touch_lines_value, touch_lines-IsWellFormed}
use taco_backend.Payouts.Sound.Updates.{
  set_payout, payout_at-set, log_if-IsSound, kept_if, found_or_missing,
}
use taco_backend.Payouts.Sound.Simple.{payout_from_db-eq-find_one}

abbrev rejected_row : String → Payout → Payout
rejected_row why v = record v { status = rejected; rejected_reason = some why }

abbrev rejected_db : ℕ → ℕ → String → Payout → Db → Db
rejected_db now k why p db = record (set_payout now k (rejected_row why) db) {
  sessions = touch_lines now k release_session p.lines db.sessions;
}

module _ (now k : ℕ) (why : String) (db : Db) (p : Payout) (v : IsSound db)
    (here : payout_at k db ≡ some p) (unpaid : is_paid_status p.status ≡ false) where
  payout_value :
      (i : ℕ)
      → payout_at i (rejected_db now k why p db)
        ≡ (if k == i then some (rejected_row why p) else payout_at i db)
  payout_value i = ground (arith, payout_at-set i now k (rejected_row why) db)

  session_value :
      (n : ℕ)
      → session_at n (rejected_db now k why p db)
        ≡ map_option
            (patch_if (λ s. has_line n p.lines && is_id k s.payout_id) release_session)
            (session_at n db)
  session_value n = touch_lines_value n now k release_session p.lines db.sessions (λ s. refl)

  new_links :
      (i n : ℕ)
      → is_linked i n (rejected_db now k why p db) ≡ claims i n (rejected_db now k why p db)
  new_links i n = ground (arith, payout_value i, session_value n, v.links i n, v.links k n)

  new_flags :
      (n : ℕ) (s : ClassSession)
      → session_at n (rejected_db now k why p db) ≡ some s
      → s.is_paid ≡ holds (is_paid_payout (rejected_db now k why p db)) s.payout_id
  new_flags n s e = elim (Option-cases (session_at n db)) [
    | inl gone ↦ absurd (ground (arith, session_value n))
    | inr (s₀, old) ↦ elim (Option-cases s₀.payout_id) [
      | inl free ↦ ground (arith, session_value n, v.paid_flags n s₀ old)
      | inr (i, linked) ↦ ground (arith, session_value n, v.paid_flags n s₀ old, payout_value i)
    ]
  ]

  new_amounts :
      (i : ℕ) (q : Payout) → payout_at i (rejected_db now k why p db) ≡ some q → HasAmounts q
  new_amounts i q e = elim (Bool-cases (k == i)) [
    | inl hit ↦
        let a : HasAmounts p = v.amounts k p here in
        subst HasAmounts {x = rejected_row why p} (ground (arith, payout_value i))
          (record { summed = a.summed; effective = a.effective })
    | inr miss ↦ v.amounts i q (ground (arith, payout_value i))
  ]

  rejected_db-IsSound : IsSound (rejected_db now k why p db)
  rejected_db-IsSound = record {
    payouts_wf = write-IsWellFormed k now (rejected_row why) db.payouts v.payouts_wf;
    sessions_wf = touch_lines-IsWellFormed now k release_session p.lines db.sessions v.sessions_wf;
    links = new_links;
    paid_flags = new_flags;
    amounts = new_amounts;
    reversed_status = λ i q e r. ground (arith, payout_value i, v.reversed_status i q);
    paid_once = λ i. ground (arith, payout_value i, v.paid_once i);
    reversed_once = λ i. ground (arith, payout_value i, v.reversed_once i);
    paid_amount = λ i. ground (arith, payout_value i, v.paid_amount i);
    reversed_amount = λ i. ground (arith, payout_value i, v.reversed_amount i);
  }

abbrev stated : Option String → String
stated why = get_or why "사유 미기재"

abbrev pub after_reject : ℕ → Option ℕ → ℕ → Option String → Payout → Db → Db
after_reject now actor k why p db =
    log_if actor AuditEntity.instructor_payouts k AuditAction.reject (some (stated why))
      (rejected_db now k (stated why) p db)

module _ (now : ℕ) (actor : Option ℕ) (k : ℕ) (why : Option String) (db : Db) (v : IsSound db) where
  pub reject_missing : find_by_id k db.payouts ≡ none → (reject now actor k why db).1 ≡ db
  unfolding reject transaction find_one
  reject_missing e = ground (arith, payout_from_db-eq-find_one k db v)

  pub reject_found :
      (r : Row Payout)
      → find_by_id k db.payouts ≡ some r
      → (reject now actor k why db).1
        ≡ (if not (is_paid_status r.val.status) then after_reject now actor k why r.val db else db)
  unfolding reject transaction find_one update_if
  reject_found r e = ground (arith, payout_from_db-eq-find_one k db v)

  pub reject-IsSound : IsSound (reject now actor k why db).1
  reject-IsSound = found_or_missing k db _ v reject_missing λ r e.
      subst IsSound (sym (reject_found r e)) (
        kept_if (not (is_paid_status r.val.status)) db (after_reject now actor k why r.val db) v
          λ st.
            log_if-IsSound actor _ k _ (some (stated why)) _
              (rejected_db-IsSound now k (stated why) db r.val v (ground arith) (ground arith)))
