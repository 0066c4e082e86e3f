-- ===== src/Store/Laws.antt =====
-- What a lookup finds after each write of a collection.
use taco_backend.Common.{
  ℕ, ◌≡◌, refl, some, List, [], ◌∷◌, ◌++◌, ◌==◌, if◌then◌else◌, or_else, map_option, arith,
}
use taco_backend.Store.{Row, find_row, mutate}

module _ {R : Type 0} where
  pub find_row-append :
      (i : ℕ) (rs ts : List (Row R))
      → find_row i (rs ++ ts) ≡ or_else (find_row i rs) (find_row i ts)
  find_row-append i [] ts = refl
  find_row-append i (r ∷ rs) ts = ground (arith, find_row-append i rs ts)

  -- A row that a lookup finds has the id that was asked for.
  pub find_row_id : (i : ℕ) (rs : List (Row R)) {r : Row R} → find_row i rs ≡ some r → r.id ≡ i
  find_row_id i [] e = cc
  find_row_id i (x ∷ rs) {r} e = ground (arith, find_row_id i rs {r = r})

  pub find_row-mutate :
      (i j : ℕ) (f : Row R → Row R) (rs : List (Row R))
      → ((r : Row R) → (f r).id ≡ r.id)
      → find_row i (mutate j f rs)
        ≡ (if j == i then map_option f (find_row i rs) else find_row i rs)
  find_row-mutate i j f [] keep = ground arith
  find_row-mutate i j f (r ∷ rs) keep = ground (arith, keep r, find_row-mutate i j f rs keep)
