-- ===== src/Payouts/Sound/Updates.antt =====
-- A write of a payout row that moves no money keeps the tables sound.
use taco_backend.Common.{
  ℕ, ◌≡◌, refl, sym, ap, ◌∙◌, subst, inl, inr, Bool-cases, Option-cases, Bool, true, false, Option,
  none, some, ◌==◌, if◌then◌else◌, is_some, map_option, holds, arith,
}
use taco_backend.Store.{Row, find_by_id, patch_row, write}
use taco_backend.Store.Active.{find_by_id-patch, write-IsWellFormed}
use taco_backend.Payouts.Rows.{
  Payout, AuditEntity, AuditAction, Db, is_paid_status, is_rejected, payout_at,
}
use taco_backend.Payouts.Steps.{log_if}
use taco_backend.Payouts.Sound.{
  IsSound, HasAmounts, claims, is_paid_payout, was_paid, was_reversed, amount_of, once_if,
}

abbrev pub set_payout : ℕ → ℕ → (Payout → Payout) → Db → Db
set_payout now k f db = record db { payouts = write k (patch_row now f) db.payouts }

pub payout_at-set :
    (i now k : ℕ) (f : Payout → Payout) (db : Db)
    → payout_at i (set_payout now k f db)
      ≡ (if k == i then map_option f (payout_at i db) else payout_at i db)
payout_at-set i now k f db = ground (arith, find_by_id-patch i k now f db.payouts)

-- The audit log is no part of the invariant.
pub log_if-IsSound :
    (actor : Option ℕ) (e : AuditEntity) (i : ℕ) (a : AuditAction) (why : _) (db : Db)
    → IsSound db
    → IsSound (log_if actor e i a why db)
log_if-IsSound none e i a why db v = v
log_if-IsSound (some actor) e i a why db v = record {
  payouts_wf = v.payouts_wf;
  sessions_wf = v.sessions_wf;
  links = v.links;
  paid_flags = v.paid_flags;
  amounts = v.amounts;
  reversed_status = v.reversed_status;
  paid_once = v.paid_once;
  reversed_once = v.reversed_once;
  paid_amount = v.paid_amount;
  reversed_amount = v.reversed_amount;
}

-- A command that leaves the tables alone unless its test passes.
pub kept_if :
    (b : Bool) (db db' : Db)
    → IsSound db
    → (b ≡ true → IsSound db')
    → IsSound (if b then db' else db)
kept_if true db db' v h = h refl
kept_if false db db' v h = v

-- A command is checked where its payout is missing and where it is found.
pub found_or_missing :
    (k : ℕ) (db after : Db)
    → IsSound db
    → (find_by_id k db.payouts ≡ none → after ≡ db)
    → ((r : Row Payout) → find_by_id k db.payouts ≡ some r → IsSound after)
    → IsSound after
found_or_missing k db after v missing found = elim (Option-cases (find_by_id k db.payouts)) [
  | inl e ↦ subst IsSound (sym (missing e)) v
  | inr (r, e) ↦ found r e
]

pub holds_ext : {p q : ℕ → Bool} (o : Option ℕ) → ((i : ℕ) → p i ≡ q i) → holds p o ≡ holds q o
holds_ext none e = refl
holds_ext (some i) e = e i

module _ (now k : ℕ) (f : Payout → Payout) (db : Db) (p : Payout) (v : IsSound db)
    (here : payout_at k db ≡ some p) (same_lines : (f p).lines ≡ p.lines)
    (same_paid : is_paid_status (f p).status ≡ is_paid_status p.status)
    (same_rejected : is_rejected (f p).status ≡ is_rejected p.status)
    (same_reversed : (f p).reversed_at ≡ p.reversed_at) (has_amounts : HasAmounts (f p))
    (same_amount : was_paid (some p) ≡ true → (f p).amount ≡ p.amount) where
  claims_same : (i n : ℕ) → claims i n (set_payout now k f db) ≡ claims i n db
  claims_same i n = ground (arith, payout_at-set i now k f db)

  paid_same : (i : ℕ) → is_paid_payout (set_payout now k f db) i ≡ is_paid_payout db i
  paid_same i = ground (arith, payout_at-set i now k f db)

  was_paid_same :
      (i : ℕ) → was_paid (payout_at i (set_payout now k f db)) ≡ was_paid (payout_at i db)
  was_paid_same i = ground (arith, payout_at-set i now k f db)

  was_reversed_same :
      (i : ℕ) → was_reversed (payout_at i (set_payout now k f db)) ≡ was_reversed (payout_at i db)
  was_reversed_same i = ground (arith, payout_at-set i now k f db)

  paid_amount_same :
      (i : ℕ)
      → was_paid (payout_at i db) ≡ true
      → amount_of (payout_at i (set_payout now k f db)) ≡ amount_of (payout_at i db)
  paid_amount_same i e = ground (arith, payout_at-set i now k f db)

  new_amounts : (i : ℕ) (q : Payout) → payout_at i (set_payout now k f db) ≡ some q → HasAmounts q
  new_amounts i q e = elim (Bool-cases (k == i)) [
    | inl hit ↦ subst HasAmounts (ground (arith, payout_at-set i now k f db)) has_amounts
    | inr miss ↦ v.amounts i q (ground (arith, payout_at-set i now k f db))
  ]

  new_reversed :
      (i : ℕ) (q : Payout)
      → payout_at i (set_payout now k f db) ≡ some q
      → is_some q.reversed_at ≡ true
      → is_rejected q.status ≡ true
  new_reversed i q e r =
      ground (arith, payout_at-set i now k f db, v.reversed_status k p here, v.reversed_status i q)

  -- Such a write leaves the tables sound: the lines, the reversal and whether the payout is paid or
  -- rejected stay, the amounts are right, and the amount stays once it has been paid.
  pub set_payout-IsSound : IsSound (set_payout now k f db)
  set_payout-IsSound = record {
    payouts_wf = write-IsWellFormed k now f db.payouts v.payouts_wf;
    sessions_wf = v.sessions_wf;
    links = λ i n. v.links i n ∙ sym (claims_same i n);
    paid_flags = λ n s e. v.paid_flags n s e ∙ holds_ext s.payout_id (λ i. sym (paid_same i));
    amounts = new_amounts;
    reversed_status = new_reversed;
    paid_once = λ i. v.paid_once i ∙ ap once_if (sym (was_paid_same i));
    reversed_once = λ i. v.reversed_once i ∙ ap once_if (sym (was_reversed_same i));
    paid_amount = λ i. ground (arith, v.paid_amount i, was_paid_same i, paid_amount_same i);
    reversed_amount =
        λ i. ground (arith, v.reversed_amount i, was_reversed_same i, paid_amount_same i);
  }
