-- ===== src/Store/Search.antt =====
-- Searching a collection by a test of its rows, after an insertion and after a patch.
use taco_backend.Common.{
  ℕ, ◌≡◌, refl, sym, ap, subst, ◌∙◌, Bool, true, none, some, List, [], ◌∷◌, ◌++◌, ◌==◌,
  if◌then◌else◌, map_option, or_else, find, arith, Bool-cases, inl, inr,
}
use taco_backend.Store.{Row, find_row, mutate}
use taco_backend.Store.WellFormed.{IsBelow}

module _ {R : Type 0} where
  pub find-append :
      (p : Row R → Bool) (xs ys : List (Row R))
      → find p (xs ++ ys) ≡ or_else (find p xs) (find p ys)
  find-append p [] ys = refl
  find-append p (x ∷ xs) ys = ground (arith, find-append p xs ys)

  abbrev pub patch_at : ℕ → (Row R → Row R) → Row R → Row R
  patch_at i f r = if r.id == i then f r else r

  -- no row of that id, so the patch changes nothing that a search finds
  find-unpatched :
      (p : Row R → Bool) (i : ℕ) (f : Row R → Row R) (rs : List (Row R))
      → find_row i rs ≡ none
      → find p rs ≡ map_option (patch_at i f) (find p rs)
  find-unpatched p i f [] h = refl
  find-unpatched p i f (r ∷ rs) h = ground (arith, find-unpatched p i f rs)

  pub find-mutate :
      (p : Row R → Bool) (i n : ℕ) (f : Row R → Row R) (rs : List (Row R))
      → ((r : Row R) → p (f r) ≡ p r)
      → IsBelow n rs
      → find p (mutate i f rs) ≡ map_option (patch_at i f) (find p rs)
  find-mutate p i n f [] same b = refl
  find-mutate p i n f (r ∷ rs) same b = elim (Bool-cases (r.id == i)) [
    | inl e ↦
        let here : r.id ≡ i = ground arith in
        let fresh : find_row i rs ≡ none =
          ap (λ j. find_row j rs) {x = i} {y = r.id} (sym here) ∙ b.1 in
        ground (arith, same r, find-unpatched p i f rs fresh)
    | inr e ↦ ground (arith, find-mutate p i n f rs same b.2)
  ]

  -- what a search of the active rows finds is under its id
  pub find_row-found :
      (p : Row R → Bool) (n : ℕ) (rs : List (Row R)) (r : Row R)
      → IsBelow n rs
      → find p rs ≡ some r
      → (find_row r.id rs ≡ some r) × (p r ≡ true)
  find_row-found p n [] r b h = absurd (ground arith)
  find_row-found p n (x ∷ xs) r b h = elim (Bool-cases (p x)) [
    | inl e ↦
        let same : x ≡ r = ground arith in
        subst (λ y. (find_row y.id (x ∷ xs) ≡ some y) × (p y ≡ true)) same (ground arith, e)
    | inr e ↦
        let (there, test) = find_row-found p n xs r b.2 (ground arith) in
        elim (Bool-cases (x.id == r.id)) [
          | inl clash ↦ absurd (
              ground
                (arith, there, b.1, ap (λ j. find_row j xs) {x = x.id} {y = r.id} (ground arith)))
          | inr apart ↦ (ground (arith, there), test)
        ]
  ]
