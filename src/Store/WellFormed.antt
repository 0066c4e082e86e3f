-- ===== src/Store/WellFormed.antt =====
-- Ids are unique and at most the sequence, so that the next id is fresh.
use taco_backend.Common.{ℕ, ◌+◌, ◌≤◌, ◌<◌, ◌≡◌, refl, none, some, List, [], ◌∷◌, ◌++◌, All, arith}
use taco_backend.Store.{
  Row, Table, find_row, mutate, insert, push_absent, seed_exact, replace_exact, max_id,
}
use taco_backend.Store.Laws.{find_row-append, find_row-mutate}

module _ {R : Type 0} where
  abbrev pub IsBelow : ℕ → List (Row R) → Type 0
  IsBelow n [] = Unit
  IsBelow n (r ∷ rs) = (r.id ≤ n) × (find_row r.id rs ≡ none) × IsBelow n rs

  abbrev pub IsWellFormed : Table R → Type 0
  IsWellFormed t = IsBelow t.sequence t.rows

  pub find_row_fresh : (n i : ℕ) (rs : List (Row R)) → IsBelow n rs → n < i → find_row i rs ≡ none
  find_row_fresh n i [] b h = refl
  find_row_fresh n i (r ∷ rs) b h = ground (arith, find_row_fresh n i rs b.2 h)

  pub IsBelow-mono : (m n : ℕ) (rs : List (Row R)) → m ≤ n → IsBelow m rs → IsBelow n rs
  IsBelow-mono m n [] h b = tt
  IsBelow-mono m n (r ∷ rs) h b = (omega arith, b.1, IsBelow-mono m n rs h b.2)

  pub IsBelow-append :
      (n : ℕ) (rs : List (Row R)) (r : Row R)
      → IsBelow n rs
      → r.id ≤ n
      → find_row r.id rs ≡ none
      → IsBelow n (rs ++ r ∷ [])
  IsBelow-append n [] r b h e = (h, refl, tt)
  IsBelow-append n (x ∷ rs) r b h e =
      ground (arith, IsBelow-append n rs r b.2 h, find_row-append x.id rs (r ∷ []))

  pub IsBelow-mutate :
      (n i : ℕ) (f : Row R → Row R) (rs : List (Row R))
      → ((r : Row R) → (f r).id ≡ r.id)
      → IsBelow n rs
      → IsBelow n (mutate i f rs)
  IsBelow-mutate n i f [] keep b = tt
  IsBelow-mutate n i f (r ∷ rs) keep b =
      ground (arith, keep r, IsBelow-mutate n i f rs keep b.2, find_row-mutate r.id i f rs keep)

  -- What holds of each row that a lookup finds holds of every row.
  pub All-find_row :
      (n : ℕ) (P : Row R → Type 0) (rs : List (Row R))
      → IsBelow n rs
      → ((i : ℕ) (r : Row R) → find_row i rs ≡ some r → P r)
      → All P rs
  All-find_row n P [] b h = tt
  All-find_row n P (r ∷ rs) b h =
      (h r.id r (ground arith), All-find_row n P rs b.2 (λ i x e. h i x (skip i x e)))
    where
      skip : (i : ℕ) (x : Row R) → find_row i rs ≡ some x → find_row i (r ∷ rs) ≡ some x
      skip i x e = ground arith

  pub insert-IsWellFormed :
      (now : ℕ) (v : R) (t : Table R) → IsWellFormed t → IsWellFormed (insert now v t).1
  unfolding insert
  insert-IsWellFormed now v t b =
      IsBelow-append (t.sequence + 1) t.rows _ (IsBelow-mono t.sequence _ t.rows (omega arith) b)
        (omega arith) (find_row_fresh t.sequence _ t.rows b (omega arith))

  push_absent-IsWellFormed :
      (r : Row R) (t : Table R) → IsWellFormed t → IsWellFormed (push_absent r t)
  push_absent-IsWellFormed r t b = ground (
    arith,
    IsBelow-append t.sequence t.rows r b,
    IsBelow-append r.id t.rows r,
    IsBelow-mono t.sequence r.id t.rows,
  )

  -- Hydrating from any rows, repeated ids included, keeps the ids unique.
  pub seed_exact-IsWellFormed :
      (rs : List (Row R)) (t : Table R) → IsWellFormed t → IsWellFormed (seed_exact rs t)
  unfolding seed_exact
  seed_exact-IsWellFormed [] t b = b
  seed_exact-IsWellFormed (r ∷ rs) t b =
      seed_exact-IsWellFormed rs (push_absent r t) (push_absent-IsWellFormed r t b)

  le-max_id : (m : ℕ) (rs : List (Row R)) → m ≤ max_id m rs
  le-max_id m [] = omega arith
  le-max_id m (r ∷ rs) = ground (arith, le-max_id m rs, le-max_id r.id rs)

  max_id-IsBelow : (m n : ℕ) (rs : List (Row R)) → IsBelow n rs → IsBelow (max_id m rs) rs
  max_id-IsBelow m n [] b = tt
  max_id-IsBelow m n (r ∷ rs) b = ground (
    arith,
    le-max_id m rs,
    le-max_id r.id rs,
    max_id-IsBelow m n rs b.2,
    max_id-IsBelow r.id n rs b.2,
  )

  -- Replacing the collection by rows with unique ids leaves a fresh next id.
  pub replace_exact-IsWellFormed :
      (n : ℕ) (rs : List (Row R)) (t : Table R) → IsBelow n rs → IsWellFormed (replace_exact rs t)
  unfolding replace_exact
  replace_exact-IsWellFormed n rs t b = max_id-IsBelow 0 n rs b
