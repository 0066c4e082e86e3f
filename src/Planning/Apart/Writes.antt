-- ===== src/Planning/Apart/Writes.antt =====
-- That changing or removing one session keeps the sessions apart.
use taco_backend.Common.{
  Option-cases, All-implies, ap, ◌∙◌, ℕ, ◌≡◌, refl, sym, subst, Bool, true, false, Option, none,
  some, List, [], ◌∷◌, ◌==◌, if◌then◌else◌, All, filter, arith, Bool-cases, inl, inr,
}
use taco_backend.Store.{
  Row, Table, is_active, find_row, find_by_id, find_all, mutate, patch_row, delete_row, update,
  remove,
}
use taco_backend.Store.WellFormed.{IsBelow, IsBelow-mutate}
use taco_backend.Schedule.Entity.{ClassSession}
use taco_backend.Planning.Apart.{clash, clash_comm, IsApart, IsPlaced, IsDisjoint}

-- a list that starts with a row if the test `b` lets it
module _ {A : Type 0} (Q : A → Type 0) (x : A) (xs : List A) where
  All-kept : (b : Bool) → (b ≡ true → Q x) → All Q xs → All Q (if b then x ∷ xs else xs)
  All-kept true h hs = (h refl, hs)
  All-kept false h hs = hs

  All-kept_inv : (b : Bool) → All Q (if b then x ∷ xs else xs) → (b ≡ true → Q x) × All Q xs
  All-kept_inv true h = (λ _. h.0, h.1)
  All-kept_inv false h = (λ e. absurd (ground arith), h)

abbrev ClashFree : Row ClassSession → List (Row ClassSession) → Type 0
ClashFree s ts = All (λ t. clash s.val t.val ≡ false) ts

IsApart-kept :
    (b : Bool) (s : Row ClassSession) (ss : List (Row ClassSession))
    → (b ≡ true → ClashFree s ss)
    → IsApart ss
    → IsApart (if b then s ∷ ss else ss)
IsApart-kept true s ss h hs = (h refl, hs)
IsApart-kept false s ss h hs = hs

IsApart-kept_inv :
    (b : Bool) (s : Row ClassSession) (ss : List (Row ClassSession))
    → IsApart (if b then s ∷ ss else ss)
    → (b ≡ true → ClashFree s ss) × IsApart ss
IsApart-kept_inv true s ss h = (λ _. h.0, h.1)
IsApart-kept_inv false s ss h = (λ e. absurd (ground arith), h)

-- the active rows
abbrev live : {R : Type 0} → List (Row R) → List (Row R)
live rs = filter is_active rs

-- the active rows of another id
All-elsewhere :
    {R : Type 0} (P : Row R → Type 0) (i : ℕ) (rs : List (Row R))
    → find_row i rs ≡ none
    → All (λ t. (t.id == i) ≡ false → P t) (live rs)
    → All P (live rs)
All-elsewhere P i [] e h = tt
All-elsewhere P i (r ∷ rs) e h =
    let (here, rest) = All-kept_inv (λ t. (t.id == i) ≡ false → P t) r (live rs) (is_active r) h in
    All-kept P r (live rs) (is_active r) (λ a. here a (ground arith))
      (All-elsewhere P i rs (ground arith) rest)

-- a write on the row of that id, as far as the active rows show it
module _ {R : Type 0} (Q : Row R → Type 0) (i : ℕ) (g : Row R → Row R) where
  All-mutate :
      (rs : List (Row R))
      → ((r : Row R) → find_row i rs ≡ some r → is_active (g r) ≡ true → Q (g r))
      → All Q (live rs)
      → All Q (live (mutate i g rs))
  All-mutate [] k h = tt
  All-mutate (r ∷ rs) k h = elim (Bool-cases (r.id == i)) [
    | inl e ↦ rw e (
        All-kept Q (g r) (live rs) (is_active (g r)) (k r (ground arith))
          (All-kept_inv Q r (live rs) (is_active r) h).1)
    | inr e ↦
        let (here, rest) = All-kept_inv Q r (live rs) (is_active r) h in
        rw e (
          All-kept Q r (live (mutate i g rs)) (is_active r) here
            (All-mutate rs (λ r' e'. k r' (ground arith)) rest))
  ]

module _ (i : ℕ) (g : Row ClassSession → Row ClassSession) where
  -- the changed row does not clash with those of another id
  IsApart-mutate :
      (n : ℕ) (rs : List (Row ClassSession))
      → IsBelow n rs
      → ((r : Row ClassSession)
          → find_row i rs ≡ some r
          → is_active (g r) ≡ true
          → All (λ t. (t.id == i) ≡ false → clash t.val (g r).val ≡ false) (live rs))
      → IsApart (live rs)
      → IsApart (live (mutate i g rs))
  IsApart-mutate n [] b k h = tt
  IsApart-mutate n (r ∷ rs) b k h = elim (Bool-cases (r.id == i)) [
    | inl e ↦ rw e (
        IsApart-kept (is_active (g r)) (g r) (live rs)
          (λ a.
            All-implies (λ t. clash t.val (g r).val ≡ false) (λ t. clash (g r).val t.val ≡ false)
              (live rs) (λ t c. clash_comm (g r).val t.val ∙ c)
              (All-elsewhere (λ t. clash t.val (g r).val ≡ false) i rs
                (ap (λ j. find_row j rs) {x = i} {y = r.id} (ground arith) ∙ b.1)
                (All-kept_inv _ r (live rs) (is_active r) (k r (ground arith) a)).1))
          (IsApart-kept_inv (is_active r) r (live rs) h).1)
    | inr e ↦
        let (here, rest) = IsApart-kept_inv (is_active r) r (live rs) h in
        rw e (
          IsApart-kept (is_active r) r (live (mutate i g rs))
            (λ a.
              All-mutate (λ t. clash r.val t.val ≡ false) i g rs
                (λ r' e' a'.
                  (All-kept_inv _ r (live rs) (is_active r) (k r' (ground arith) a')).0 a e)
                (here a))
            (IsApart-mutate n rs b.2
              (λ r' e' a'. (All-kept_inv _ r (live rs) (is_active r) (k r' (ground arith) a')).1)
              rest))
  ]

find_row-live :
    {R : Type 0} (i : ℕ) (t : Table R) (s : Row R)
    → find_by_id i t ≡ some s
    → find_row i t.rows ≡ some s
find_row-live i t s e = ground arith

same_row :
    {R : Type 0} (i : ℕ) (rs : List (Row R)) (s r : Row R)
    → find_row i rs ≡ some s
    → find_row i rs ≡ some r
    → s ≡ r
same_row i rs s r e e' = ground arith

module _ (now i : ℕ) (t : Table ClassSession) where
  -- One session gets other fields, in which it clashes with no other.
  pub update-IsDisjoint :
      (f : ClassSession → ClassSession) (s : Row ClassSession)
      → find_by_id i t ≡ some s
      → IsPlaced (f s.val)
      → All (λ u. (u.id == i) ≡ false → clash u.val (f s.val) ≡ false) (find_all t)
      → IsDisjoint t
      → IsDisjoint (update now i f t).1
  unfolding update
  update-IsDisjoint f s e placed free v =
      let g = patch_row now f in
      let there = find_row-live i t s e in
      rw (update, e)
        (record {
          sessions_wf = IsBelow-mutate t.sequence i g t.rows (λ r. refl) v.sessions_wf;
          apart =
              IsApart-mutate i g t.sequence t.rows v.sessions_wf
                (λ r e' a.
                  subst
                    (λ r.
                      All (λ u. (u.id == i) ≡ false → clash u.val (f r.val) ≡ false) (live t.rows))
                    (same_row i t.rows s r there e') free)
                v.apart;
          placed =
              All-mutate (λ u. IsPlaced u.val) i g t.rows
                (λ r e' a. subst (λ r. IsPlaced (f r.val)) (same_row i t.rows s r there e') placed)
                v.placed;
        })

  -- A session goes away.
  pub remove-IsDisjoint : (by : Option ℕ) → IsDisjoint t → IsDisjoint (remove now by i t).1
  unfolding remove
  remove-IsDisjoint by v = elim (Option-cases (find_by_id i t)) [
    | inl e ↦ rw (remove, e) v
    | inr (s, e) ↦
        let g = delete_row now by in
        rw (remove, e)
          (record {
            sessions_wf = IsBelow-mutate t.sequence i g t.rows (λ r. refl) v.sessions_wf;
            apart =
                IsApart-mutate i g t.sequence t.rows v.sessions_wf (λ r e' a. absurd (ground arith))
                  v.apart;
            placed =
                All-mutate (λ u. IsPlaced u.val) i g t.rows (λ r e' a. absurd (ground arith))
                  v.placed;
          })
  ]

All-live :
    {R : Type 0} (Q : Row R → Type 0) (i : ℕ) (rs : List (Row R)) (s : Row R)
    → find_row i rs ≡ some s
    → is_active s ≡ true
    → All Q (live rs)
    → Q s
All-live Q i [] s e a h = absurd (ground arith)
All-live Q i (r ∷ rs) s e a h = elim (Bool-cases (r.id == i)) [
  | inl m ↦
      let same : r ≡ s = ground arith in
      subst Q same (
        (All-kept_inv Q r (live rs) (is_active r) h).0
          (subst (λ x. is_active x ≡ true) (sym same) a))
  | inr m ↦ All-live Q i rs s (ground arith) a (All-kept_inv Q r (live rs) (is_active r) h).1
]

-- a list of rows apart from one another has the row of that id apart from the others
IsApart-elsewhere :
    (i : ℕ) (rs : List (Row ClassSession)) (s : Row ClassSession)
    → find_row i rs ≡ some s
    → is_active s ≡ true
    → IsApart (live rs)
    → All (λ u. (u.id == i) ≡ false → clash u.val s.val ≡ false) (live rs)
IsApart-elsewhere i [] s e a h = tt
IsApart-elsewhere i (r ∷ rs) s e a h =
    let P = λ (u : Row ClassSession). (u.id == i) ≡ false → clash u.val s.val ≡ false in
    let (here, rest) = IsApart-kept_inv (is_active r) r (live rs) h in
    elim (Bool-cases (r.id == i)) [
      | inl m ↦
          let same : r ≡ s = ground arith in
          All-kept P r (live rs) (is_active r) (λ _ n. absurd (ground arith))
            (subst
              (λ x.
                All (λ (u : Row ClassSession). (u.id == i) ≡ false → clash u.val x.val ≡ false)
                  (live rs))
              same
              (All-implies (λ t. clash r.val t.val ≡ false)
                (λ u. (u.id == i) ≡ false → clash u.val r.val ≡ false) (live rs)
                (λ t c _. clash_comm t.val r.val ∙ c)
                (here (subst (λ x. is_active x ≡ true) (sym same) a))))
      | inr m ↦
          All-kept P r (live rs) (is_active r)
            (λ b _. All-live (λ t. clash r.val t.val ≡ false) i rs s (ground arith) a (here b))
            (IsApart-elsewhere i rs s (ground arith) a rest)
    ]

-- The other sessions do not clash with one of those that are apart.
pub IsDisjoint-elsewhere :
    (i : ℕ) (t : Table ClassSession) (s : Row ClassSession)
    → IsDisjoint t
    → find_by_id i t ≡ some s
    → All (λ u. (u.id == i) ≡ false → clash u.val s.val ≡ false) (find_all t)
IsDisjoint-elsewhere i t s v e =
    IsApart-elsewhere i t.rows s (find_row-live i t s e) (ground arith) v.apart

-- a session whose write changes nothing of what makes sessions clash
pub update_same-IsDisjoint :
    (now i : ℕ) (t : Table ClassSession) (f : ClassSession → ClassSession) (s : Row ClassSession)
    → find_by_id i t ≡ some s
    → IsPlaced (f s.val)
    → ((u : ClassSession) → clash u s.val ≡ false → clash u (f s.val) ≡ false)
    → IsDisjoint t
    → IsDisjoint (update now i f t).1
update_same-IsDisjoint now i t f s e placed same v =
    update-IsDisjoint now i t f s e placed
      (All-implies _ _ (find_all t) (λ u h n. same u.val (h n)) (IsDisjoint-elsewhere i t s v e)) v

pub IsDisjoint-IsPlaced :
    (i : ℕ) (t : Table ClassSession) (s : Row ClassSession)
    → IsDisjoint t
    → find_by_id i t ≡ some s
    → IsPlaced s.val
IsDisjoint-IsPlaced i t s v e =
    All-live (λ u. IsPlaced u.val) i t.rows s (find_row-live i t s e) (ground arith) v.placed
