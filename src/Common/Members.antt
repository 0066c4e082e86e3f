-- ===== src/Common/Members.antt =====
-- The members of lists that are filtered, sorted and searched.
use mathlib.Core.Path.{◌≡◌, refl, sym, subst}
use mathlib.Core.Logic.{◌↔◌, inl, inr}
use mathlib.Core.Bool.{Bool, true}
use mathlib.Core.List.{List, [], ◌∷◌, Memᴰ}
use mathlib.Core.List.Memᴰ
use native.Mathlib.Omega.{arith}
use taco_backend.Common.Tests.{if◌then◌else◌, Bool-cases}
use taco_backend.Common.Lists.{All, filter, any, insert_sorted, sort_by}

module _ {ℓ} {A : Type ℓ} where
  Memᴰ-any : (p : A → Bool) {x : A} (xs : List A) → Memᴰ x xs → p x ≡ true → any p xs ≡ true
  Memᴰ-any p [] m h = absurd (Memᴰ.not-nil m)
  Memᴰ-any p {x} (y ∷ ys) (Memᴰ.head e) h =
      let h' : p y ≡ true = subst (λ z. p z ≡ true) e h in ground arith
  Memᴰ-any p (y ∷ ys) (Memᴰ.tail m) h = ground (arith, Memᴰ-any p ys m h)

  any-Memᴰ : (p : A → Bool) (xs : List A) → any p xs ≡ true → (x : A) × Memᴰ x xs × (p x ≡ true)
  any-Memᴰ p [] h = absurd (ground arith)
  any-Memᴰ p (y ∷ ys) h = elim (Bool-cases (p y)) [
    | inl e ↦ (y, Memᴰ.head refl, e)
    | inr e ↦ let (x, m, q) = any-Memᴰ p ys (ground arith) in (x, Memᴰ.tail m, q)
  ]

  -- A test finds something in a list exactly when a member passes it.
  pub any_iff :
      (p : A → Bool) (xs : List A) → (any p xs ≡ true) ↔ ((x : A) × Memᴰ x xs × (p x ≡ true))
  any_iff p xs = (any-Memᴰ p xs, λ h. Memᴰ-any p xs h.1 h.2)

  pub member_of_filter :
      (p : A → Bool) (x : A) (xs : List A) → Memᴰ x (filter p xs) → Memᴰ x xs × (p x ≡ true)
  member_of_filter p x [] m = absurd (Memᴰ.not-nil m)
  member_of_filter p x (y ∷ ys) m = elim (Bool-cases (p y)) [
    | inl e ↦
        kept e (member_of_filter p x ys)
          (subst (λ b. Memᴰ x (if b then y ∷ filter p ys else filter p ys)) e m)
    | inr e ↦
        let (there, h) =
          member_of_filter p x ys
            (subst (λ b. Memᴰ x (if b then y ∷ filter p ys else filter p ys)) e m) in
        (Memᴰ.tail there, h)
  ]
    where
      kept :
          p y ≡ true
          → (Memᴰ x (filter p ys) → Memᴰ x ys × (p x ≡ true))
          → Memᴰ x (y ∷ filter p ys)
          → Memᴰ x (y ∷ ys) × (p x ≡ true)
      kept e rest (Memᴰ.head q) = (Memᴰ.head q, subst (λ z. p z ≡ true) (sym q) e)
      kept e rest (Memᴰ.tail m') = let (there, h) = rest m' in (Memᴰ.tail there, h)

  pub filter-Memᴰ :
      (p : A → Bool) (x : A) (xs : List A) → Memᴰ x xs → p x ≡ true → Memᴰ x (filter p xs)
  filter-Memᴰ p x [] m h = absurd (Memᴰ.not-nil m)
  filter-Memᴰ p x (y ∷ ys) (Memᴰ.head e) h =
      let h' : p y ≡ true = subst (λ z. p z ≡ true) e h in rw h' (Memᴰ.head e)
  filter-Memᴰ p x (y ∷ ys) (Memᴰ.tail m) h = elim (Bool-cases (p y)) [
    | inl e ↦ rw e (Memᴰ.tail (filter-Memᴰ p x ys m h))
    | inr e ↦ rw e (filter-Memᴰ p x ys m h)
  ]

  -- A filtered list has the members that pass the test.
  pub Memᴰ-filter_iff :
      (p : A → Bool) (x : A) (xs : List A) → Memᴰ x (filter p xs) ↔ (Memᴰ x xs × (p x ≡ true))
  Memᴰ-filter_iff p x xs = (member_of_filter p x xs, λ h. filter-Memᴰ p x xs h.0 h.1)

  member_of_insert :
      (le : A → A → Bool) (x y : A) (ys : List A) → Memᴰ x (insert_sorted le y ys) → Memᴰ x (y ∷ ys)
  member_of_insert le x y [] m = m
  member_of_insert le x y (z ∷ zs) m = elim (Bool-cases (le y z)) [
    | inl e ↦ subst (λ b. Memᴰ x (if b then y ∷ z ∷ zs else z ∷ insert_sorted le y zs)) e m
    | inr e ↦
        later (member_of_insert le x y zs)
          (subst (λ b. Memᴰ x (if b then y ∷ z ∷ zs else z ∷ insert_sorted le y zs)) e m)
  ]
    where
      behind : Memᴰ x (y ∷ zs) → Memᴰ x (y ∷ z ∷ zs)
      behind (Memᴰ.head q) = Memᴰ.head q
      behind (Memᴰ.tail m') = Memᴰ.tail (Memᴰ.tail m')

      later :
          (Memᴰ x (insert_sorted le y zs) → Memᴰ x (y ∷ zs))
          → Memᴰ x (z ∷ insert_sorted le y zs)
          → Memᴰ x (y ∷ z ∷ zs)
      later rest (Memᴰ.head q) = Memᴰ.tail (Memᴰ.head q)
      later rest (Memᴰ.tail m') = behind (rest m')

  insert-Memᴰ :
      (le : A → A → Bool) (x y : A) (ys : List A) → Memᴰ x (y ∷ ys) → Memᴰ x (insert_sorted le y ys)
  insert-Memᴰ le x y [] m = m
  insert-Memᴰ le x y (z ∷ zs) m = elim (Bool-cases (le y z)) [
    | inl e ↦ rw e m
    | inr e ↦ rw e (later (insert-Memᴰ le x y zs) m)
  ]
    where
      beyond :
          Memᴰ x (z ∷ zs)
          → (Memᴰ x (y ∷ zs) → Memᴰ x (insert_sorted le y zs))
          → Memᴰ x (z ∷ insert_sorted le y zs)
      beyond (Memᴰ.head q) rest = Memᴰ.head q
      beyond (Memᴰ.tail m') rest = Memᴰ.tail (rest (Memᴰ.tail m'))

      later :
          (Memᴰ x (y ∷ zs) → Memᴰ x (insert_sorted le y zs))
          → Memᴰ x (y ∷ z ∷ zs)
          → Memᴰ x (z ∷ insert_sorted le y zs)
      later rest (Memᴰ.head q) = Memᴰ.tail (rest (Memᴰ.head q))
      later rest (Memᴰ.tail m') = beyond m' rest

  member_of_sort : (le : A → A → Bool) (x : A) (xs : List A) → Memᴰ x (sort_by le xs) → Memᴰ x xs
  unfolding sort_by
  member_of_sort le x [] m = m
  member_of_sort le x (y ∷ ys) m =
      deeper (member_of_sort le x ys) (member_of_insert le x y (sort_by le ys) m)
    where
      deeper : (Memᴰ x (sort_by le ys) → Memᴰ x ys) → Memᴰ x (y ∷ sort_by le ys) → Memᴰ x (y ∷ ys)
      deeper rest (Memᴰ.head q) = Memᴰ.head q
      deeper rest (Memᴰ.tail m') = Memᴰ.tail (rest m')

  sort-Memᴰ : (le : A → A → Bool) (x : A) (xs : List A) → Memᴰ x xs → Memᴰ x (sort_by le xs)
  unfolding sort_by
  sort-Memᴰ le x [] m = m
  sort-Memᴰ le x (y ∷ ys) (Memᴰ.head q) = insert-Memᴰ le x y (sort_by le ys) (Memᴰ.head q)
  sort-Memᴰ le x (y ∷ ys) (Memᴰ.tail m) =
      insert-Memᴰ le x y (sort_by le ys) (Memᴰ.tail (sort-Memᴰ le x ys m))

  -- Sorting keeps the members.
  pub Memᴰ-sort_by_iff :
      (le : A → A → Bool) (x : A) (xs : List A) → Memᴰ x (sort_by le xs) ↔ Memᴰ x xs
  Memᴰ-sort_by_iff le x xs = (member_of_sort le x xs, sort-Memᴰ le x xs)

  -- What all elements have, the members have.
  pub All-member {κ} : (P : A → Type κ) {x : A} (xs : List A) → All P xs → Memᴰ x xs → P x
  All-member P [] h m = absurd (Memᴰ.not-nil m)
  All-member P (y ∷ ys) h (Memᴰ.head e) = subst P (sym e) h.0
  All-member P (y ∷ ys) h (Memᴰ.tail m) = All-member P ys h.1 m
