-- ===== src/Payouts/Checked.antt =====
-- The checker of src/modules/payouts/payout-integrity.ts against the invariant.
use taco_backend.Common.{
  ℕ, ◌≡◌, refl, ◌∙◌, true, some, List, [], ◌∷◌, All, flat_map, arith, Option-cases, Bool-cases, inl,
  inr,
}
use taco_backend.Store.{Row, find_by_id, find_all}
use taco_backend.Store.Active.{find_last-eq-find_by_id, find_last-filter, All-find_all}
use taco_backend.Schedule.Entity.{ClassSession}
use taco_backend.Payouts.Rows.{Payout, PayoutLine, Db, has_line}
use taco_backend.Payouts.Integrity.{
  snapshot_of, integrity_issues, payout_issues, amount_issues, ledger_issues, line_issues,
  session_issues, line_issue, is_active_payout,
}
use taco_backend.Payouts.Sound.{IsSound, HasAmounts, is_linked, outs, backs}

flat_map-nil :
    {A B : Type 0} (f : A → List B) (xs : List A) → All (λ x. f x ≡ []) xs → flat_map f xs ≡ []
flat_map-nil f [] h = refl
flat_map-nil f (x ∷ xs) h = ground (arith, h.0, flat_map-nil f xs h.1)

module _ (db : Db) (v : IsSound db) where
  line_linked :
      (p : Row Payout) (l : PayoutLine)
      → is_linked p.id l.session_id db ≡ true
      → line_issue (snapshot_of db) p l ≡ []
  line_linked p l e = ground (arith, find_last-eq-find_by_id l.session_id db.sessions v.sessions_wf)

  -- the lines that are a part of the payout's lines
  lines_linked :
      (p : Row Payout) (ls : List PayoutLine)
      → ((n : ℕ) → has_line n ls ≡ true → is_linked p.id n db ≡ true)
      → All (λ l. line_issue (snapshot_of db) p l ≡ []) ls
  lines_linked p [] h = tt
  lines_linked p (l ∷ ls) h = (
    line_linked p l (h l.session_id (ground arith)),
    lines_linked p ls (λ n e. h n (ground arith)),
  )

  no_line_issues :
      (i : ℕ) (p : Row Payout)
      → find_by_id i db.payouts ≡ some p
      → p.id ≡ i
      → line_issues (snapshot_of db) p ≡ []
  no_line_issues i p e q = elim (Bool-cases (is_active_payout p)) [
    | inl active ↦ rw active (
        flat_map-nil _ p.val.lines
          (lines_linked p p.val.lines (λ n h. v.links p.id n ∙ ground arith)))
    | inr gone ↦ rw gone
  ]

  no_amount_issues :
      (i : ℕ) (p : Row Payout) → find_by_id i db.payouts ≡ some p → amount_issues p ≡ []
  no_amount_issues i p e =
      let a : HasAmounts p.val = v.amounts i p.val (ground arith) in
      ground (arith, a.summed, a.effective)

  no_ledger_issues :
      (i : ℕ) (p : Row Payout)
      → find_by_id i db.payouts ≡ some p
      → p.id ≡ i
      → ledger_issues p (outs p.id db) (backs p.id db) ≡ []
  no_ledger_issues i p e q =
      ground (arith, v.paid_once p.id, v.reversed_once p.id, v.reversed_status i p.val)

  no_payout_issues :
      (i : ℕ) (p : Row Payout)
      → find_by_id i db.payouts ≡ some p
      → p.id ≡ i
      → payout_issues (snapshot_of db) p ≡ []
  no_payout_issues i p e q =
      ground (arith, no_amount_issues i p e, no_ledger_issues i p e q, no_line_issues i p e q)

  no_session_issues :
      (n : ℕ) (r : Row ClassSession)
      → find_by_id n db.sessions ≡ some r
      → r.id ≡ n
      → session_issues (snapshot_of db) r ≡ []
  no_session_issues n r e q = elim (Option-cases r.val.payout_id) [
    | inl free ↦ ground arith
    | inr (k, linked) ↦
        ground (arith, v.links k n, find_last-filter is_active_payout k db.payouts v.payouts_wf)
  ]

  -- On sound tables the checker reports no issue.
  pub integrity_issues-IsSound : integrity_issues (snapshot_of db) ≡ []
  unfolding integrity_issues
  integrity_issues-IsSound =
      let rows = flat_map-nil (payout_issues (snapshot_of db)) (find_all db.payouts) (
        All-find_all (λ p. payout_issues (snapshot_of db) p ≡ []) db.payouts v.payouts_wf
          no_payout_issues) in
      let sessions = flat_map-nil (session_issues (snapshot_of db)) (find_all db.sessions) (
        All-find_all (λ r. session_issues (snapshot_of db) r ≡ []) db.sessions v.sessions_wf
          no_session_issues) in
      ground (arith, rows, sessions)
