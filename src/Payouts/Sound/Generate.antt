-- ===== src/Payouts/Sound/Generate.antt =====
-- Settling an instructor's period, which links the sessions of its lines, keeps the tables sound.
use taco_backend.Common.{
  ℕ, ◌+◌, ◌≡◌, refl, sym, subst, false, Option, none, some, ◌==◌, if◌then◌else◌, map_option, holds,
  sum_by, arith, Option-cases, Bool-cases, ◌⊎◌, inl, inr,
}
use taco_backend.Exec.{Result, ok, err, transaction}
use taco_backend.Store.{Table, insert}
use taco_backend.Store.Active.{find_by_id-insert}
use taco_backend.Store.WellFormed.{insert-IsWellFormed, find_row_fresh}
use taco_backend.Time.{IsoDate}
use taco_backend.Schedule.Entity.{ClassSession}
use taco_backend.Schedule.Participants.{ResolveIds}
use taco_backend.Schedule.Accounting.{is_payout_locked}
use taco_backend.Payouts.Rows.{
  Payout, AuditEntity, AuditAction, Db, is_paid_status, is_rejected, has_line, payout_at,
  session_at,
}
use taco_backend.Payouts.Read.{PayoutError, Measure, measure, measured}
use taco_backend.Payouts.Steps.{log_if, payout_of, claim_lines, link_session}
use taco_backend.Payouts.Commands.{generate}
use taco_backend.Payouts.Sound.{IsSound, HasAmounts, claims, is_linked, is_paid_payout}
use taco_backend.Payouts.Sound.Sessions.{AllClaimed, claim_lines-ok}
use taco_backend.Payouts.Sound.Updates.{log_if-IsSound}

abbrev pub next_payout : Db → ℕ
next_payout db = db.payouts.sequence + 1

abbrev pub with_payout : ℕ → Payout → Db → Db
with_payout now p db = record db { payouts = (insert now p db.payouts).1 }

module _ (now : ℕ) (p : Payout) (db : Db) (t : Table ClassSession) (v : IsSound db)
    (fresh : is_rejected p.status ≡ false) (unpaid : is_paid_status p.status ≡ false)
    (unreversed : p.reversed_at ≡ none) (has_amounts : HasAmounts p)
    (c : AllClaimed (next_payout db) p.lines db.sessions t) where
  abbrev settled : Db
  settled = record (with_payout now p db) { sessions = t }

  payout_value :
      (i : ℕ) → payout_at i settled ≡ (if next_payout db == i then some p else payout_at i db)
  payout_value i = ground (arith, find_by_id-insert i now p db.payouts v.payouts_wf)

  no_payout : payout_at (next_payout db) db ≡ none
  no_payout =
      ground
        (arith, find_row_fresh db.payouts.sequence (next_payout db) db.payouts.rows v.payouts_wf)

  session_value :
      (n : ℕ)
      → session_at n settled ≡ (
          if has_line n p.lines
          then map_option (link_session (next_payout db)) (session_at n db)
          else session_at n db)
  session_value n = c.linked n

  new_links : (i n : ℕ) → is_linked i n settled ≡ claims i n settled
  unfolding is_payout_locked
  new_links i n = ground (
    arith,
    payout_value i,
    session_value n,
    v.links i n,
    v.links (next_payout db) n,
    no_payout,
    c.free n,
  )

  new_flags :
      (n : ℕ) (s : ClassSession)
      → session_at n settled ≡ some s
      → s.is_paid ≡ holds (is_paid_payout settled) s.payout_id
  unfolding is_payout_locked
  new_flags n s e = elim (Option-cases (session_at n db)) [
    | inl gone ↦ absurd (ground (arith, session_value n))
    | inr (s₀, old) ↦ elim (Option-cases s₀.payout_id) [
      | inl free ↦
          ground
            (arith, session_value n, v.paid_flags n s₀ old, c.free n, payout_value (next_payout db))
      | inr (i, linked) ↦
          ground
            (arith, session_value n, v.paid_flags n s₀ old, payout_value i, c.free n, no_payout)
    ]
  ]

  new_amounts : (i : ℕ) (q : Payout) → payout_at i settled ≡ some q → HasAmounts q
  new_amounts i q e = elim (Bool-cases (next_payout db == i)) [
    | inl hit ↦ subst HasAmounts {x = p} (ground (arith, payout_value i)) has_amounts
    | inr miss ↦ v.amounts i q (ground (arith, payout_value i))
  ]

  pub settled-IsSound : IsSound settled
  settled-IsSound = record {
    payouts_wf = insert-IsWellFormed now p db.payouts v.payouts_wf;
    sessions_wf = c.wf v.sessions_wf;
    links = new_links;
    paid_flags = new_flags;
    amounts = new_amounts;
    reversed_status = λ i q e r. ground (arith, payout_value i, v.reversed_status i q);
    paid_once = λ i. ground (arith, payout_value i, v.paid_once i, no_payout);
    reversed_once = λ i. ground (arith, payout_value i, v.reversed_once i, no_payout);
    paid_amount = λ i. ground (arith, payout_value i, v.paid_amount i, no_payout);
    reversed_amount = λ i. ground (arith, payout_value i, v.reversed_amount i, no_payout);
  }

pub Result-cases :
    {E A : Type 0} (r : Result E A) → ((e : E) × (r ≡ err e)) ⊎ ((a : A) × (r ≡ ok a))
Result-cases (ok a) = inr (a, refl)
Result-cases (err e) = inl (e, refl)

module _ (resolve : ResolveIds) (now : ℕ) (actor : Option ℕ) (instructor : ℕ)
    (from to : Option IsoDate) (db : Db) where
  abbrev generated : Db
  generated = (generate resolve now actor instructor from to db).1

  abbrev claimed : Measure → Result PayoutError (Unit {0}) × Db
  claimed m = claim_lines now (next_payout db) m.lines (with_payout now (payout_of m) db)

  pub refused : (e : PayoutError) → measure resolve db instructor from to ≡ err e → generated ≡ db
  unfolding generate transaction
  refused e h = ground arith

  measured_amounts :
      (m : Measure)
      → measure resolve db instructor from to ≡ ok m
      → sum_by (λ l. l.amount) m.lines ≡ m.computed_amount
  unfolding measure measured
  measured_amounts m h = ground arith

  pub generated_found :
      (m : Measure)
      → measure resolve db instructor from to ≡ ok m
      → (generated ≡ db)
        ⊎ (((claimed m).0 ≡ ok tt)
            × (generated
                ≡ log_if actor AuditEntity.instructor_payouts
                    (next_payout db)
                    AuditAction.create
                    none
                    (claimed m).1))
  unfolding generate transaction insert
  generated_found m h = elim (Bool-cases (m.session_count == 0)) [
    | inl empty ↦ inl (ground arith)
    | inr some_lines ↦ elim (Result-cases (claimed m).0) [
      | inl (e, lost) ↦ inl (ground arith)
      | inr (a, won) ↦ inr (ground arith, ground arith)
    ]
  ]

  pub generate-IsSound : IsSound db → IsSound generated
  generate-IsSound v = elim (Result-cases (measure resolve db instructor from to)) [
    | inl (e, h) ↦ subst IsSound (sym (refused e h)) v
    | inr (m, h) ↦ elim (generated_found m h) [
      | inl same ↦ subst IsSound (sym same) v
      | inr (won, after) ↦
          let (t, is_t, c) =
            claim_lines-ok now (next_payout db) m.lines (with_payout now (payout_of m) db)
              (claimed m).1 (λ i. (won i, (claimed m).1)) in
          subst IsSound (sym after) (
            log_if-IsSound actor _ _ _ none _ (
              subst IsSound (sym is_t) (
                settled-IsSound now (payout_of m) db t v refl refl refl
                  (record { summed = measured_amounts m h; effective = refl }) c)))
    ]
  ]
