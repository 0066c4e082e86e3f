-- ===== src/Payouts/Sound/Sessions.antt =====
-- What the commands do to the sessions of a payout's lines.
use taco_backend.Common.{
  ℕ, ◌≡◌, refl, ap, ◌∙◌, Bool, true, false, not, ◌&&◌, Option, none, some, List, [], ◌∷◌, ◌==◌,
  if◌then◌else◌, is_id, is_none, map_option, holds, arith, inl, inr, Bool-cases,
}
use taco_backend.Exec.{ok}
use taco_backend.Store.{Table, find_by_id, update}
use taco_backend.Store.Active.{find_by_id-patch, write-IsWellFormed}
use taco_backend.Store.WellFormed.{IsWellFormed}
use taco_backend.Schedule.Entity.{ClassSession}
use taco_backend.Schedule.Accounting.{is_payout_locked}
use taco_backend.Payouts.Rows.{PayoutLine, Db, has_line, value}
use taco_backend.Payouts.Steps.{touch, touch_lines, link_session, claim_payout, claim_lines}

abbrev pub value_at : ℕ → Table ClassSession → Option ClassSession
value_at i t = map_option value (find_by_id i t)

-- `f` where `b` holds of the session
abbrev pub patch_if :
    (ClassSession → Bool) → (ClassSession → ClassSession) → ClassSession → ClassSession
patch_if b f s = if b s then f s else s

-- A patch that a second write of the same line does not change any more.
abbrev pub IsSettled : ℕ → (ClassSession → ClassSession) → Type 0
IsSettled k f = (s : ClassSession) → patch_if (λ x. is_id k x.payout_id) f (f s) ≡ f s

touch_value :
    (i now k n : ℕ) (f : ClassSession → ClassSession) (t : Table ClassSession)
    → value_at i (touch now k f n t)
      ≡ map_option (patch_if (λ s. (n == i) && is_id k s.payout_id) f) (value_at i t)
unfolding update
touch_value i now k n f t = ground (arith, find_by_id-patch i n now f t)

touch_step :
    (i k n : ℕ) (f : ClassSession → ClassSession) (ls : List PayoutLine) (l : PayoutLine)
    (s : ClassSession)
    → IsSettled k f
    → patch_if
        (λ x. has_line i ls && is_id k x.payout_id)
        f
        (patch_if (λ x. (l.session_id == i) && is_id k x.payout_id) f s)
      ≡ patch_if (λ x. has_line i (l ∷ ls) && is_id k x.payout_id) f s
touch_step i k n f ls l s settled = ground (arith, settled s)

touch_option :
    (i k n : ℕ) (f : ClassSession → ClassSession) (ls : List PayoutLine) (l : PayoutLine)
    (o : Option ClassSession)
    → IsSettled k f
    → map_option
        (patch_if (λ x. has_line i ls && is_id k x.payout_id) f)
        (map_option (patch_if (λ x. (l.session_id == i) && is_id k x.payout_id) f) o)
      ≡ map_option (patch_if (λ x. has_line i (l ∷ ls) && is_id k x.payout_id) f) o
touch_option i k n f ls l none settled = refl
touch_option i k n f ls l (some s) settled = ap some (touch_step i k n f ls l s settled)

-- The sessions of the lines that are linked to the payout are patched, and no other.
pub touch_lines_value :
    (i now k : ℕ) (f : ClassSession → ClassSession) (ls : List PayoutLine) (t : Table ClassSession)
    → IsSettled k f
    → value_at i (touch_lines now k f ls t)
      ≡ map_option (patch_if (λ s. has_line i ls && is_id k s.payout_id) f) (value_at i t)
unfolding touch_lines
touch_lines_value i now k f [] t settled = ground arith
touch_lines_value i now k f (l ∷ ls) t settled =
    touch_lines_value i now k f ls (touch now k f l.session_id t) settled
    ∙ (ap (map_option (patch_if (λ x. has_line i ls && is_id k x.payout_id) f))
          (touch_value i now k l.session_id f t)
        ∙ touch_option i k l.session_id f ls l (value_at i t) settled)

touch-IsWellFormed :
    (now k n : ℕ) (f : ClassSession → ClassSession) (t : Table ClassSession)
    → IsWellFormed t
    → IsWellFormed (touch now k f n t)
unfolding update
touch-IsWellFormed now k n f t b = ground (arith, write-IsWellFormed n now f t b)

pub touch_lines-IsWellFormed :
    (now k : ℕ) (f : ClassSession → ClassSession) (ls : List PayoutLine) (t : Table ClassSession)
    → IsWellFormed t
    → IsWellFormed (touch_lines now k f ls t)
unfolding touch_lines
touch_lines-IsWellFormed now k f [] t b = b
touch_lines-IsWellFormed now k f (l ∷ ls) t b =
    touch_lines-IsWellFormed now k f ls (touch now k f l.session_id t)
      (touch-IsWellFormed now k l.session_id f t b)

-- A claim that goes through found a session that is neither linked nor paid, and links it.
pub record IsClaimed (k n : ℕ) (t t' : Table ClassSession) : Type 0 where
  pub free : holds (λ s. not (is_payout_locked s)) (value_at n t) ≡ true
  pub linked :
      (i : ℕ)
      → value_at i t'
        ≡ (if n == i then map_option (link_session k) (value_at i t) else value_at i t)
  pub wf : IsWellFormed t → IsWellFormed t'

claim_payout-IsClaimed :
    (now n k : ℕ) (t : Table ClassSession)
    → is_none (claim_payout now n k t).0 ≡ false
    → IsClaimed k n t (claim_payout now n k t).1
unfolding claim_payout update is_payout_locked
claim_payout-IsClaimed now n k t e = record {
  free = ground arith;
  linked = λ i. ground (arith, find_by_id-patch i n now (link_session k) t);
  wf = λ b. ground (arith, write-IsWellFormed n now (link_session k) t b);
}

-- What a loop of claims that goes through has done, in terms of the sessions at its start.
pub record AllClaimed (k : ℕ) (ls : List PayoutLine) (t t' : Table ClassSession) : Type 0 where
  pub free :
      (i : ℕ) → has_line i ls ≡ true → holds (λ s. not (is_payout_locked s)) (value_at i t) ≡ true
  pub linked :
      (i : ℕ)
      → value_at i t'
        ≡ (if has_line i ls then map_option (link_session k) (value_at i t) else value_at i t)
  pub wf : IsWellFormed t → IsWellFormed t'

AllClaimed-cons :
    (k : ℕ) (l : PayoutLine) (ls : List PayoutLine) (t t' t'' : Table ClassSession)
    → IsClaimed k l.session_id t t'
    → AllClaimed k ls t' t''
    → AllClaimed k (l ∷ ls) t t''
unfolding is_payout_locked
AllClaimed-cons k l ls t t' t'' c cs = record {
  free = λ i e. ground (arith, c.free, c.linked i, cs.free i);
  linked = λ i. ground (arith, c.free, c.linked i, cs.linked i, cs.free i);
  wf = λ b. cs.wf (c.wf b);
}

AllClaimed-nil : (k : ℕ) (t : Table ClassSession) → AllClaimed k [] t t
AllClaimed-nil k t = record { free = λ i e. cc; linked = λ i. refl; wf = λ b. b }

-- A loop of claims that goes through changes the sessions alone, as `AllClaimed` says.
pub claim_lines-ok :
    (now k : ℕ) (ls : List PayoutLine) (db db' : Db)
    → claim_lines now k ls db ≡ (ok tt, db')
    → (t : Table ClassSession) × (db' ≡ record db { sessions = t }) × AllClaimed k ls db.sessions t
unfolding claim_lines
claim_lines-ok now k [] db db' e = (db.sessions, ground arith, AllClaimed-nil k db.sessions)
claim_lines-ok now k (l ∷ ls) db db' e =
    elim (Bool-cases (is_none (claim_payout now l.session_id k db.sessions).0)) [
      | inl failed ↦ absurd (ground arith)
      | inr won ↦
          let t = (claim_payout now l.session_id k db.sessions).1 in
          let (t', same, rest) =
            claim_lines-ok now k ls (record db { sessions = t }) db' (rw won at e) in
          (
            t',
            same,
            AllClaimed-cons k l ls db.sessions t t'
                (claim_payout-IsClaimed now l.session_id k db.sessions won) rest,
          )
    ]
