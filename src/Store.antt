-- ===== src/Store.antt =====
-- One collection of src/database/in-memory.database.ts: the rows in insertion order and the id
-- sequence, with soft deletion. The methods of src/database/postgres-collection.store.ts that the
-- services call answer from it in memory mode; their SQL branch has the same conditions.
-- The id index and the field indexes, which only speed a lookup up, are not modelled.
pub mod Laws
pub mod WellFormed
pub mod Active
pub mod Search
use taco_backend.Common.{
  ℕ, suc, ◌+◌, Bool, true, false, ◌&&◌, Option, none, some, List, [], ◌∷◌, ◌++◌, ltb, ◌==◌,
  if◌then◌else◌, is_none, is_some, filter, find,
}

-- `BaseRow` (src/common/types/base.ts) and the row's own fields; an instant is a number of ms.
pub record Row (R : Type 0) : Type 0 where
  pub id : ℕ
  pub created_at : ℕ
  pub updated_at : ℕ
  pub deleted_at : Option ℕ
  pub deleted_by : Option ℕ
  pub val : R

pub record Table (R : Type 0) : Type 0 where
  pub rows : List (Row R)
  pub sequence : ℕ

module _ {R : Type 0} where
  abbrev pub empty_table : Table R
  empty_table = record { rows = []; sequence = 0 }

  abbrev pub is_active : Row R → Bool
  is_active r = is_none r.deleted_at

  -- the row of that id, deleted or not
  abbrev pub find_row : ℕ → List (Row R) → Option (Row R)
  find_row i [] = none
  find_row i (r ∷ rs) = if r.id == i then some r else find_row i rs

  abbrev pub active_only : Option (Row R) → Option (Row R)
  active_only none = none
  active_only (some r) = if is_active r then some r else none

  abbrev pub find_by_id : ℕ → Table R → Option (Row R)
  find_by_id i t = active_only (find_row i t.rows)

  abbrev pub find_all : Table R → List (Row R)
  find_all t = filter is_active t.rows

  abbrev pub find_by : (Row R → Bool) → Table R → List (Row R)
  find_by p t = filter (λ r. is_active r && p r) t.rows

  abbrev pub new_row : ℕ → ℕ → R → Row R
  new_row i now v = record {
    id = i;
    created_at = now;
    updated_at = now;
    deleted_at = none;
    deleted_by = none;
    val = v;
  }

  -- the row under the next id, and the collection that holds it
  unfoldable pub insert : ℕ → R → Table R → Row R × Table R
  insert now v t =
      let r = new_row (t.sequence + 1) now v in
      (r, record { rows = t.rows ++ r ∷ []; sequence = t.sequence + 1 })

  -- `Object.assign` on the row of that id
  abbrev pub mutate : ℕ → (Row R → Row R) → List (Row R) → List (Row R)
  mutate i f [] = []
  mutate i f (r ∷ rs) = if r.id == i then f r ∷ rs else r ∷ mutate i f rs

  abbrev pub patch_row : ℕ → (R → R) → Row R → Row R
  patch_row now f r = record r { updated_at = now; val = f r.val }

  abbrev pub delete_row : ℕ → Option ℕ → Row R → Row R
  delete_row now by r = record r { updated_at = now; deleted_at = some now; deleted_by = by }

  abbrev pub restore_row : ℕ → Row R → Row R
  restore_row now r = record r { updated_at = now; deleted_at = none; deleted_by = none }

  abbrev pub write : ℕ → (Row R → Row R) → Table R → Table R
  write i f t = record t { rows = mutate i f t.rows }

  -- `update`: the patched row, or nothing when no active row has the id
  unfoldable pub update : ℕ → ℕ → (R → R) → Table R → Option (Row R) × Table R
  update now i f t = elim (find_by_id i t) [
    | none ↦ (none, t)
    | some r ↦ (some (patch_row now f r), write i (patch_row now f) t)
  ]

  -- `updateIf`: the compare-and-set; `expected` is the test of the expected fields
  unfoldable pub update_if : ℕ → ℕ → (Row R → Bool) → (R → R) → Table R → Option (Row R) × Table R
  update_if now i expected f t = elim (find_by_id i t) [
    | none ↦ (none, t)
    | some r ↦
        if expected r then (some (patch_row now f r), write i (patch_row now f) t) else (none, t)
  ]

  -- `remove` marks the row, and answers whether there was an active one
  unfoldable pub remove : ℕ → Option ℕ → ℕ → Table R → Bool × Table R
  remove now by i t = elim (find_by_id i t) [
    | none ↦ (false, t)
    | some r ↦ (true, write i (delete_row now by) t)
  ]

  -- `removeByField`: every active row that the test picks; the answer counts them
  abbrev pub delete_matching : (Row R → Bool) → (Row R → Row R) → List (Row R) → List (Row R)
  delete_matching p f [] = []
  delete_matching p f (r ∷ rs) =
      let rest = delete_matching p f rs in if is_active r && p r then f r ∷ rest else r ∷ rest

  unfoldable pub remove_by : ℕ → Option ℕ → (Row R → Bool) → Table R → Table R
  remove_by now by p t = record t { rows = delete_matching p (delete_row now by) t.rows }

  unfoldable pub restore : ℕ → ℕ → Table R → Bool × Table R
  restore now i t = elim (find_row i t.rows) [
    | none ↦ (false, t)
    | some r ↦ if is_none r.deleted_at then (false, t) else (true, write i (restore_row now) t)
  ]

  abbrev push_absent : Row R → Table R → Table R
  push_absent r t = if is_some (find_row r.id t.rows) then t else record {
    rows = t.rows ++ r ∷ [];
    sequence = if ltb t.sequence r.id then r.id else t.sequence;
  }

  -- `seedExact`: rows whose id is taken are skipped, and the sequence follows the largest id
  unfoldable pub seed_exact : List (Row R) → Table R → Table R
  seed_exact [] t = t
  seed_exact (r ∷ rs) t = seed_exact rs (push_absent r t)

  abbrev max_id : ℕ → List (Row R) → ℕ
  max_id m [] = m
  max_id m (r ∷ rs) = max_id (if ltb m r.id then r.id else m) rs

  -- `replaceExact`: the collection becomes the given rows
  unfoldable pub replace_exact : List (Row R) → Table R → Table R
  replace_exact rs t = record { rows = rs; sequence = max_id 0 rs }

  -- `findActive` with a condition and `limit: 1`
  abbrev pub find_active : (Row R → Bool) → Table R → Option (Row R)
  find_active p t = find (λ r. is_active r && p r) t.rows
