-- ===== src/Store/Active.antt =====
-- What the lookups of active rows find after a write, and that the different ways to look a row up
-- agree while ids are unique.
use taco_backend.Common.{
  ℕ, ◌+◌, ◌≡◌, refl, Bool, Option, Option-cases, none, some, List, [], ◌∷◌, ◌++◌, ◌==◌, ◌&&◌,
  if◌then◌else◌, false, map_option, keep_if, any, holds, subst, filter, find, find_last, All, arith,
  inl, inr, Bool-cases,
}
use taco_backend.Store.{
  Row, Table, is_active, find_row, active_only, find_by_id, find_all, find_active, patch_row,
  delete_row, write, insert, new_row, find_by,
}
use taco_backend.Store.Laws.{find_row-append, find_row-mutate}
use taco_backend.Store.WellFormed.{IsBelow, IsWellFormed, IsBelow-mutate, find_row_fresh}

module _ {R : Type 0} where
  pub find_by_id-patch :
      (i j now : ℕ) (f : R → R) (t : Table R)
      → find_by_id i (write j (patch_row now f) t)
        ≡ (if j == i then map_option (patch_row now f) (find_by_id i t) else find_by_id i t)
  find_by_id-patch i j now f t =
      rw (find_row-mutate i j (patch_row now f) t.rows (λ r. refl)) (ground arith)

  pub find_by_id-insert :
      (i now : ℕ) (v : R) (t : Table R)
      → IsWellFormed t
      → find_by_id i (insert now v t).1
        ≡ (if t.sequence + 1 == i then some (new_row i now v) else find_by_id i t)
  unfolding insert
  find_by_id-insert i now v t b =
      rw (find_row-append i t.rows (new_row (t.sequence + 1) now v ∷ []))
        (ground (arith, find_row_fresh t.sequence i t.rows b))

  pub write-IsWellFormed :
      (j now : ℕ) (f : R → R) (t : Table R)
      → IsWellFormed t
      → IsWellFormed (write j (patch_row now f) t)
  write-IsWellFormed j now f t b =
      IsBelow-mutate t.sequence j (patch_row now f) t.rows (λ r. refl) b

  filter-append :
      (p : Row R → Bool) (rs ts : List (Row R)) → filter p (rs ++ ts) ≡ filter p rs ++ filter p ts
  filter-append p [] ts = refl
  filter-append p (r ∷ rs) ts = ground (arith, filter-append p rs ts)

  pub find_all-insert :
      (now : ℕ) (v : R) (t : Table R)
      → find_all (insert now v t).1 ≡ find_all t ++ (insert now v t).0 ∷ []
  unfolding insert
  find_all-insert now v t = filter-append is_active t.rows (new_row (t.sequence + 1) now v ∷ [])

  find_active_none :
      (i : ℕ) (rs : List (Row R))
      → find_row i rs ≡ none
      → find (λ r. is_active r && (r.id == i)) rs ≡ none
  find_active_none i [] e = refl
  find_active_none i (r ∷ rs) e = ground (arith, find_active_none i rs)

  find_active-rows :
      (n i : ℕ) (rs : List (Row R))
      → IsBelow n rs
      → find (λ r. is_active r && (r.id == i)) rs ≡ active_only (find_row i rs)
  find_active-rows n i [] b = refl
  find_active-rows n i (r ∷ rs) b = elim (Bool-cases (r.id == i)) [
    | inl e ↦ ground (arith, find_active_none i rs, find_active-rows n i rs b.2)
    | inr e ↦ ground (arith, find_active-rows n i rs b.2)
  ]

  -- `findActive` by id and `findById` find the same row.
  pub find_active-eq-find_by_id :
      (i : ℕ) (t : Table R) → IsWellFormed t → find_active (λ r. r.id == i) t ≡ find_by_id i t
  find_active-eq-find_by_id i t b = find_active-rows t.sequence i t.rows b

  find_last-none :
      (i : ℕ) (rs : List (Row R))
      → find_row i rs ≡ none
      → find_last (λ r. r.id == i) (filter is_active rs) ≡ none
  find_last-none i [] e = refl
  find_last-none i (r ∷ rs) e = ground (arith, find_last-none i rs)

  find_last-rows :
      (n i : ℕ) (rs : List (Row R))
      → IsBelow n rs
      → find_last (λ r. r.id == i) (filter is_active rs) ≡ active_only (find_row i rs)
  find_last-rows n i [] b = refl
  find_last-rows n i (r ∷ rs) b = elim (Bool-cases (r.id == i)) [
    | inl e ↦ ground (arith, find_last-none i rs, find_last-rows n i rs b.2)
    | inr e ↦ ground (arith, find_last-rows n i rs b.2)
  ]

  -- A `Map` from ids to the active rows finds what `findById` finds.
  pub find_last-eq-find_by_id :
      (i : ℕ) (t : Table R)
      → IsWellFormed t
      → find_last (λ r. r.id == i) (find_all t) ≡ find_by_id i t
  find_last-eq-find_by_id i t b = find_last-rows t.sequence i t.rows b

  find_last-filter-none :
      (q : Row R → Bool) (i : ℕ) (rs : List (Row R))
      → find_row i rs ≡ none
      → find_last (λ r. r.id == i) (filter q (filter is_active rs)) ≡ none
  find_last-filter-none q i [] e = refl
  find_last-filter-none q i (r ∷ rs) e = ground (arith, find_last-filter-none q i rs)

  find_last-filter_rows :
      (q : Row R → Bool) (n i : ℕ) (rs : List (Row R))
      → IsBelow n rs
      → find_last (λ r. r.id == i) (filter q (filter is_active rs))
        ≡ keep_if q (active_only (find_row i rs))
  find_last-filter_rows q n i [] b = refl
  find_last-filter_rows q n i (r ∷ rs) b = elim (Bool-cases (r.id == i)) [
    | inl e ↦ ground (arith, find_last-filter-none q i rs, find_last-filter_rows q n i rs b.2)
    | inr e ↦ ground (arith, find_last-filter_rows q n i rs b.2)
  ]

  -- The same where the rows were filtered once more before the `Map` was built.
  pub find_last-filter :
      (q : Row R → Bool) (i : ℕ) (t : Table R)
      → IsWellFormed t
      → find_last (λ r. r.id == i) (filter q (find_all t)) ≡ keep_if q (find_by_id i t)
  find_last-filter q i t b = find_last-filter_rows q t.sequence i t.rows b

  All-filter_active :
      (n : ℕ) (P : Row R → Type 0) (rs : List (Row R))
      → IsBelow n rs
      → ((i : ℕ) (r : Row R) → active_only (find_row i rs) ≡ some r → r.id ≡ i → P r)
      → All P (filter is_active rs)
  All-filter_active n P [] b h = tt
  All-filter_active n P (r ∷ rs) b h =
      let rest = All-filter_active n P rs b.2 (λ i x e q. h i x (skip i x e) q) in
      elim (Bool-cases (is_active r)) [
        | inl e ↦ rw e (h r.id r (ground arith) refl, rest)
        | inr e ↦ rw e rest
      ]
    where
      skip :
          (i : ℕ) (x : Row R)
          → active_only (find_row i rs) ≡ some x
          → active_only (find_row i (r ∷ rs)) ≡ some x
      skip i x e = ground arith

  -- What holds of each active row that a lookup finds holds of all active rows.
  pub All-find_all :
      (P : Row R → Type 0) (t : Table R)
      → IsWellFormed t
      → ((i : ℕ) (r : Row R) → find_by_id i t ≡ some r → r.id ≡ i → P r)
      → All P (find_all t)
  All-find_all P t b h = All-filter_active t.sequence P t.rows b h

module _ {R : Type 0} where
  any-active-gone :
      (i : ℕ) (p q : Row R → Bool) (rs : List (Row R))
      → find_row i rs ≡ none
      → any (λ r. (r.id == i) && q r) (filter (λ r. is_active r && p r) rs) ≡ false
  any-active-gone i p q [] e = refl
  any-active-gone i p q (r ∷ rs) e = ground (arith, any-active-gone i p q rs)

  any-filter_rows :
      (n i : ℕ) (p q : Row R → Bool) (rs : List (Row R))
      → IsBelow n rs
      → any (λ r. (r.id == i) && q r) (filter (λ r. is_active r && p r) rs)
        ≡ holds (λ r. p r && q r) (active_only (find_row i rs))
  any-filter_rows n i p q [] b = refl
  any-filter_rows n i p q (r ∷ rs) b = elim (Bool-cases (r.id == i)) [
    | inl e ↦
        let fresh : find_row i rs ≡ none =
          subst (λ j. find_row j rs ≡ none) {x = r.id} {y = i} (ground arith) b.1 in
        let gone = any-active-gone i p q rs fresh in ground (arith, gone)
    | inr e ↦ ground (arith, any-filter_rows n i p q rs b.2)
  ]

  -- Searching the selected active rows for an id is testing the row that `findById` finds.
  pub any-find_by :
      (i : ℕ) (p q : Row R → Bool) (t : Table R)
      → IsWellFormed t
      → any (λ r. (r.id == i) && q r) (find_by p t) ≡ holds (λ r. p r && q r) (find_by_id i t)
  any-find_by i p q t b = any-filter_rows t.sequence i p q t.rows b

module _ {R : Type 0} where
  pub find_by_id-delete :
      (i j now : ℕ) (by : Option ℕ) (t : Table R)
      → find_by_id i (write j (delete_row now by) t) ≡ (if j == i then none else find_by_id i t)
  find_by_id-delete i j now by t = elim (Option-cases (find_row i t.rows)) [
    | inl gone ↦ rw (find_row-mutate i j (delete_row now by) t.rows (λ r. refl)) (ground arith)
    | inr (r, e) ↦ rw (find_row-mutate i j (delete_row now by) t.rows (λ r. refl)) (ground arith)
  ]

  pub delete-IsWellFormed :
      (j now : ℕ) (by : Option ℕ) (t : Table R)
      → IsWellFormed t
      → IsWellFormed (write j (delete_row now by) t)
  delete-IsWellFormed j now by t b =
      IsBelow-mutate t.sequence j (delete_row now by) t.rows (λ r. refl) b
