-- ===== src/Planning/Apart/Settlement.antt =====
-- The payout commands write only the payout columns of sessions, and keep the sessions apart.
pub mod Commands
use Prim.Native.String.{String}
use taco_backend.Common.{
  ℕ, ◌≡◌, sym, subst, Bool, true, false, not, Option, none, some, List, [], ◌∷◌, is_none, is_id,
  is_empty, get_or, if◌then◌else◌, Option-cases, Bool-cases, inl, inr,
}
use taco_backend.Common.Int.{ℤ}
use taco_backend.Exec.{After, After-throw_if}
use taco_backend.Store.{Row, Table, find_by_id, update}
use taco_backend.Time.{IsoDate}
use taco_backend.Schedule.Entity.{ClassSession}
use taco_backend.Schedule.Accounting.{is_payout_locked}
use taco_backend.Schedule.Participants.{ResolveIds}
use taco_backend.Payouts.Rows.{
  Payout, PayoutLine, Db, AuditEntity, AuditAction, pending, confirmed, paid, is_paid_status,
}
use taco_backend.Payouts.Read.{session_claimed, measure, active_instructor_ids}
use taco_backend.Payouts.Steps.{
  claim_payout, claim_lines, link_session, pay_session, release_session, release_paid_session,
  touch, touch_lines, log_if, same_status, payout_of,
}
use taco_backend.Payouts.Commands.{
  confirm, unconfirm, adjust, reject, reverse, pay, valid_amount, generate, generate_each,
  generate_bulk, BulkResult,
}
use taco_backend.Payouts.Sound.{IsSound}
use taco_backend.Payouts.Sound.Simple.{
  confirm_missing, confirm_found, after_confirm, after_unconfirm, after_adjust, is_open,
  unconfirm_missing, unconfirm_found, adjust_missing, adjust_refused, adjust_found,
}
use taco_backend.Payouts.Sound.Reject.{after_reject, reject_missing, reject_found}
use taco_backend.Payouts.Sound.Pay.{after_pay, pay_missing, pay_found}
use taco_backend.Payouts.Sound.Reverse.{after_reverse, reverse_missing, reverse_found}
use taco_backend.Payouts.Sound.Generate.{
  Result-cases, refused, generated_found, next_payout, with_payout,
}
use taco_backend.Payouts.History.{
  Request, generates, generates_all, confirms, unconfirms, adjusts, rejects, reverses, pays, serve,
}
use taco_backend.Planning.Apart.{clash, IsDisjoint, IsPlaced}
use taco_backend.Planning.Apart.Writes.{update_same-IsDisjoint, IsDisjoint-IsPlaced}

-- a patch of what neither the times, the people nor the room depend on
pub record KeepsSlot (f : ClassSession → ClassSession) : Type 0 where
  pub placed : (s : ClassSession) → IsPlaced s → IsPlaced (f s)
  pub clashes : (u s : ClassSession) → clash u s ≡ false → clash u (f s) ≡ false

patched-IsDisjoint :
    (now i : ℕ) (f : ClassSession → ClassSession) (t : Table ClassSession) (s : Row ClassSession)
    → KeepsSlot f
    → find_by_id i t ≡ some s
    → IsDisjoint t
    → IsDisjoint (update now i f t).1
patched-IsDisjoint now i f t s keep e v =
    update_same-IsDisjoint now i t f s e (keep.placed s.val (IsDisjoint-IsPlaced i t s v e))
      (λ u. keep.clashes u s.val) v

touch-IsDisjoint :
    (now k : ℕ) (f : ClassSession → ClassSession) (n : ℕ) (t : Table ClassSession)
    → KeepsSlot f
    → IsDisjoint t
    → IsDisjoint (touch now k f n t)
touch-IsDisjoint now k f n t keep v = elim (Option-cases (find_by_id n t)) [
  | inl e ↦ rw (touch, e) v
  | inr (s, e) ↦ elim (Bool-cases (is_id k s.val.payout_id)) [
    | inl e' ↦ rw (touch, e, e') (patched-IsDisjoint now n f t s keep e v)
    | inr e' ↦ rw (touch, e, e') v
  ]
]

pub touch_lines-IsDisjoint :
    (now k : ℕ) (f : ClassSession → ClassSession) (ls : List PayoutLine) (t : Table ClassSession)
    → KeepsSlot f
    → IsDisjoint t
    → IsDisjoint (touch_lines now k f ls t)
unfolding touch_lines
touch_lines-IsDisjoint now k f [] t keep v = v
touch_lines-IsDisjoint now k f (l ∷ ls) t keep v =
    touch_lines-IsDisjoint now k f ls (touch now k f l.session_id t) keep
      (touch-IsDisjoint now k f l.session_id t keep v)

claim_payout-IsDisjoint :
    (now n k : ℕ) (t : Table ClassSession) → IsDisjoint t → IsDisjoint (claim_payout now n k t).1
unfolding claim_payout
claim_payout-IsDisjoint now n k t v = elim (Option-cases (find_by_id n t)) [
  | inl e ↦ rw (claim_payout, e) v
  | inr (s, e) ↦ elim (Bool-cases (is_payout_locked s.val)) [
    | inl e' ↦ rw (claim_payout, e, e') v
    | inr e' ↦
        rw (claim_payout, e, e')
          (patched-IsDisjoint now n (link_session k) t s
            (record { placed = λ _ p. p; clashes = λ _ _ h. h }) e v)
  ]
]

-- the sessions of the payout tables are apart
abbrev pub SessionsApart : Db → Type 0
SessionsApart db = IsDisjoint db.sessions

pub claim_lines-SessionsApart :
    (now k : ℕ) (ls : List PayoutLine) (db : Db)
    → SessionsApart db
    → After SessionsApart (claim_lines now k ls) db
unfolding claim_lines
claim_lines-SessionsApart now k [] db v = v
claim_lines-SessionsApart now k (l ∷ ls) db v =
    let (claimed, t) = claim_payout now l.session_id k db.sessions in
    let db1 = record db { sessions = t } in
    let v1 = claim_payout-IsDisjoint now l.session_id k db.sessions v in
    After-throw_if SessionsApart db1 (is_none claimed) (session_claimed l.session_id)
      (claim_lines now k ls) v1 λ _. claim_lines-SessionsApart now k ls db1 v1

pub log_if-SessionsApart :
    (actor : Option ℕ) (e : AuditEntity) (i : ℕ) (a : AuditAction) (why : _) (db : Db)
    → SessionsApart db
    → SessionsApart (log_if actor e i a why db)
log_if-SessionsApart none e i a why db v = v
log_if-SessionsApart (some n) e i a why db v = v

pub if_apart :
    (b : Bool) (db' db : Db)
    → SessionsApart db'
    → SessionsApart db
    → SessionsApart (if b then db' else db)
if_apart true db' db v' v = v'
if_apart false db' db v' v = v

-- a command on a payout, which leaves the tables alone where the payout is missing or a test fails
pub on_payout :
    (k : ℕ) (db after : Db) (b : Row Payout → Bool) (db' : Row Payout → Db)
    → SessionsApart db
    → (find_by_id k db.payouts ≡ none → after ≡ db)
    → ((r : Row Payout) → find_by_id k db.payouts ≡ some r → after ≡ (if b r then db' r else db))
    → ((r : Row Payout) → SessionsApart (db' r))
    → SessionsApart after
on_payout k db after b db' v missing found new = elim (Option-cases (find_by_id k db.payouts)) [
  | inl e ↦ subst SessionsApart (sym (missing e)) v
  | inr (r, e) ↦ subst SessionsApart (sym (found r e)) (if_apart (b r) (db' r) db (new r) v)
]
