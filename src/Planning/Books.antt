-- ===== src/Planning/Books.antt =====
-- The calendar's commands and the books of the payouts: which writes on the sessions leave the payout
-- columns as they are.
pub mod Creation
pub mod Edits
pub mod Removal
pub mod History
pub mod Clear
mod Tests
use taco_backend.Common.{
  ℕ, ◌+◌, ◌≡◌, refl, sym, ap, ◌∙◌, subst, Bool, true, false, Option, none, some, List, [], ◌∷◌,
  ◌==◌, if◌then◌else◌, map_option, holds, count_by, sum_by, arith, Option-cases, Bool-cases, inl,
  inr,
}
use taco_backend.Store.{
  Row, Table, find_by_id, find_all, update, insert, remove, patch_row, delete_row, new_row, write,
}
use taco_backend.Store.Laws.{find_row-append, find_row-mutate}
use taco_backend.Store.Active.{
  find_by_id-patch, find_by_id-insert, find_by_id-delete, write-IsWellFormed, delete-IsWellFormed,
}
use taco_backend.Store.WellFormed.{
  IsWellFormed, IsBelow-mutate, insert-IsWellFormed, find_row_fresh,
}
use taco_backend.Schedule.Entity.{ClassSession}
use taco_backend.Payouts.Rows.{Db, value}
use taco_backend.Payouts.Integrity.{is_out_of, is_back_of}
use taco_backend.Payouts.History.{LeavesBooks, linked_payout}
use taco_backend.Planning.{Calendar}
use taco_backend.Planning.Frame.{IsFramed}

-- the books of the calendar are those of `db`
abbrev pub KeepsBooks : Db → Calendar → Type 0
KeepsBooks db c = LeavesBooks db c.tables

abbrev pub booked_in : ℕ → Table ClassSession → Option ℕ
booked_in n t = linked_payout (map_option value (find_by_id n t))

abbrev pub flag_in : ℕ → Table ClassSession → Bool
flag_in n t = holds (λ s. s.is_paid) (map_option value (find_by_id n t))

-- every session has the payout columns that it had, as far as lookups show
pub record SameColumns (t t' : Table ClassSession) : Type 0 where
  pub wf : IsWellFormed t → IsWellFormed t'
  pub links : (n : ℕ) → booked_in n t' ≡ booked_in n t
  pub flags : (n : ℕ) → flag_in n t' ≡ flag_in n t

pub SameColumns-refl : (t : Table ClassSession) → SameColumns t t
SameColumns-refl t = record { wf = λ b. b; links = λ n. refl; flags = λ n. refl }

pub KeepsBooks-sessions :
    (db : Db) (c : Calendar) (t : Table ClassSession)
    → KeepsBooks db c
    → SameColumns c.tables.sessions t
    → KeepsBooks db (record c { tables = record c.tables { sessions = t } })
KeepsBooks-sessions db c t w same = record {
  same_payouts = w.same_payouts;
  sessions_wf = same.wf w.sessions_wf;
  same_links = λ n. same.links n ∙ w.same_links n;
  same_flags = λ n. same.flags n ∙ w.same_flags n;
  same_outs = w.same_outs;
  same_backs = w.same_backs;
  same_out_total = w.same_out_total;
  same_back_total = w.same_back_total;
}

pub KeepsBooks-refl : (c : Calendar) → IsWellFormed c.tables.sessions → KeepsBooks c.tables c
KeepsBooks-refl c wf = record {
  same_payouts = refl;
  sessions_wf = wf;
  same_links = λ n. refl;
  same_flags = λ n. refl;
  same_outs = λ k. refl;
  same_backs = λ k. refl;
  same_out_total = λ k. refl;
  same_back_total = λ k. refl;
}

pub KeepsBooks-IsFramed : (db : Db) → IsFramed (KeepsBooks db)
KeepsBooks-IsFramed db c c' s p x w = record {
  same_payouts = p ∙ w.same_payouts;
  sessions_wf = subst IsWellFormed (sym s) w.sessions_wf;
  same_links = λ n. ap (booked_in n) s ∙ w.same_links n;
  same_flags = λ n. ap (flag_in n) s ∙ w.same_flags n;
  same_outs = λ k. ap (λ t. count_by (is_out_of k) (find_all t)) x ∙ w.same_outs k;
  same_backs = λ k. ap (λ t. count_by (is_back_of k) (find_all t)) x ∙ w.same_backs k;
  same_out_total = λ k.
      ap (λ t. sum_by (λ r. if is_out_of k r then r.val.amount else 0) (find_all t)) x
      ∙ w.same_out_total k;
  same_back_total = λ k.
      ap (λ t. sum_by (λ r. if is_back_of k r then r.val.amount else 0) (find_all t)) x
      ∙ w.same_back_total k;
}

-- a session under a patch that keeps the payout columns
abbrev pub KeepsColumns : (ClassSession → ClassSession) → Type 0
KeepsColumns f = (s : ClassSession) → ((f s).payout_id ≡ s.payout_id) × ((f s).is_paid ≡ s.is_paid)

-- what a lookup may find in place of a row
abbrev SameBooked : Option (Row ClassSession) → Option (Row ClassSession) → Type 0
SameBooked o o' =
    (linked_payout (map_option value o) ≡ linked_payout (map_option value o'))
    × (holds (λ s. s.is_paid) (map_option value o) ≡ holds (λ s. s.is_paid) (map_option value o'))

replaced :
    (b : Bool) (o o' : Option (Row ClassSession))
    → (b ≡ true → SameBooked o' o)
    → SameBooked (if b then o' else o) o
replaced true o o' h = h refl
replaced false o o' h = (refl, refl)

patched :
    (now : ℕ) (f : ClassSession → ClassSession) (o : Option (Row ClassSession))
    → KeepsColumns f
    → SameBooked (map_option (patch_row now f) o) o
patched now f none keep = (refl, refl)
patched now f (some s) keep = keep s.val

SameColumns-found :
    (t t' : Table ClassSession)
    → (IsWellFormed t → IsWellFormed t')
    → ((n : ℕ) → SameBooked (find_by_id n t') (find_by_id n t))
    → SameColumns t t'
SameColumns-found t t' wf same = record {
  wf = wf;
  links = λ n. (same n).0;
  flags = λ n. (same n).1;
}

module _ (now i : ℕ) (t : Table ClassSession) where
  -- a write that keeps the payout columns
  pub SameColumns-update :
      (f : ClassSession → ClassSession) → KeepsColumns f → SameColumns t (update now i f t).1
  unfolding update
  SameColumns-update f keep = elim (Option-cases (find_by_id i t)) [
    | inl e ↦ rw (update, e) (SameColumns-refl t)
    | inr (s, e) ↦
        rw (update, e)
          (SameColumns-found t (write i (patch_row now f) t) (write-IsWellFormed i now f t) λ n.
            rw (find_by_id-patch n i now f t)
              (replaced (i == n) (find_by_id n t) _ (λ _. patched now f (find_by_id n t) keep)))
  ]

  -- a session that goes away, linked to no payout and not paid
  pub SameColumns-remove :
      (by : Option ℕ)
      → booked_in i t ≡ none
      → flag_in i t ≡ false
      → SameColumns t (remove now by i t).1
  unfolding remove
  SameColumns-remove by free unpaid = elim (Option-cases (find_by_id i t)) [
    | inl e ↦ rw (remove, e) (SameColumns-refl t)
    | inr (s, e) ↦
        rw (remove, e)
          (SameColumns-found t (write i (delete_row now by) t) (delete-IsWellFormed i now by t) λ n.
            rw (find_by_id-delete n i now by t) (
              replaced (i == n) (find_by_id n t) none (λ same.
                subst (λ k. SameBooked none (find_by_id k t)) {x = i} {y = n} (ground arith)
                  (sym free, sym unpaid))))
  ]

-- a new session, linked to no payout and not paid
pub SameColumns-insert :
    (now : ℕ) (s : ClassSession) (t : Table ClassSession)
    → IsWellFormed t
    → s.payout_id ≡ none
    → s.is_paid ≡ false
    → SameColumns t (insert now s t).1
SameColumns-insert now s t b free unpaid =
    SameColumns-found t (insert now s t).1 (insert-IsWellFormed now s t) λ n.
      rw (find_by_id-insert n now s t b) (
        replaced (t.sequence + 1 == n) (find_by_id n t) (some (new_row n now s)) (λ new.
          let missing : find_by_id n t ≡ none =
            ground (arith, find_row_fresh t.sequence n t.rows b) in
          rw missing (free, unpaid)))
