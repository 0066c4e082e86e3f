-- ===== src/Exec.antt =====
-- Commands: a service method as a function of the stored state that answers or throws, and the
-- state that it leaves. `CalendarUnitOfWork.run` (src/database/calendar-unit-of-work.service.ts) and
-- `InMemoryDatabase.transaction` (src/database/in-memory.database.ts) run one atomically.
use taco_backend.Common.{
  refl, if◌then◌else◌, ◌≡◌, arith, Bool, true, false, Option, none, some, ◌⊎◌, inl, inr,
}

pub data Result (E A : Type 0) : Type 0 where
  ok : A → Result E A
  err : E → Result E A

-- whether a command went through
abbrev pub is_ok : {E A : Type 0} → Result E A → Bool
is_ok (ok a) = true
is_ok (err e) = false

-- Whatever comes after a guard that let a result through.
pub guarded :
    {E A : Type 0} (b : Bool) (e : E) (r : Result E A) (a : A)
    → (if b then err e else r) ≡ ok a
    → (b ≡ false) × (r ≡ ok a)
guarded true e r a h = absurd (ground arith)
guarded false e r a h = (refl, h)

pub passes_if :
    {E A : Type 0} (b : Bool) (e : E) (r : Result E A) → b ≡ false → (if b then err e else r) ≡ r
passes_if true e r h = absurd (ground arith)
passes_if false e r h = refl

pub ok-injective : {E A : Type 0} (a b : A) → Path (Result E A) (ok a) (ok b) → a ≡ b
ok-injective a b h = ground arith

-- one check after another: the first that throws decides
infixl 5 ◌and_then◌
unfoldable pub ◌and_then◌ : {E A B : Type 0} → Result E A → (A → Result E B) → Result E B
ok a and_then k = k a
err e and_then k = err e

pub and_then-ok :
    {E A B : Type 0} (r : Result E A) (k : A → Result E B) (b : B)
    → (r and_then k) ≡ ok b
    → (a : A) × (r ≡ ok a) × (k a ≡ ok b)
unfolding ◌and_then◌
and_then-ok (ok a) k b h = (a, refl, h)
and_then-ok (err e) k b h = absurd (ground arith)

-- `if (b) throw e` among such checks
abbrev pub refuse_if : {E : Type 0} → Bool → E → Result E (Unit {0})
refuse_if b e = if b then err e else ok tt

pub refuse_if-ok : {E : Type 0} (b : Bool) (e : E) (u : Unit {0}) → refuse_if b e ≡ ok u → b ≡ false
refuse_if-ok true e u h = absurd (ground arith)
refuse_if-ok false e u h = refl

-- What was written stays written when a later step throws; only `transaction` takes it back.
abbrev pub Exec : Type 0 → Type 0 → Type 0 → Type 0
Exec E S A = S → Result E A × S

module _ {E S : Type 0} where
  abbrev pub pure : {A : Type 0} → A → Exec E S A
  pure a s = (ok a, s)

  abbrev pub throw : {A : Type 0} → E → Exec E S A
  throw e s = (err e, s)

  abbrev pub gets : {A : Type 0} → (S → A) → Exec E S A
  gets f s = (ok (f s), s)

  abbrev pub modify : (S → S) → Exec E S (Unit {0})
  modify f s = (ok tt, f s)

  -- `if (!x) throw e`
  abbrev pub or_throw : {A : Type 0} → Option A → E → Exec E S A
  or_throw none e s = (err e, s)
  or_throw (some a) e s = (ok a, s)

  -- `if (b) throw e`
  abbrev pub throw_if : Bool → E → Exec E S (Unit {0})
  throw_if true e s = (err e, s)
  throw_if false e s = (ok tt, s)

infixl 5 ◌>>=◌ ◌>>◌
abbrev pub ◌>>=◌ : {E S A B : Type 0} → Exec E S A → (A → Exec E S B) → Exec E S B
◌>>=◌ m f s = let (r, s') = m s in elim r [ ok a ↦ f a s' | err e ↦ (err e, s') ]

abbrev pub ◌>>◌ : {E S A B : Type 0} → Exec E S A → Exec E S B → Exec E S B
m >> k = m >>= λ _. k

-- The outermost transaction of a flow: the snapshot of the whole store comes back when the body
-- throws, and the error is thrown on.
unfoldable pub transaction : {E S A : Type 0} → Exec E S A → Exec E S A
transaction m s = let (r, s') = m s in elim r [ ok a ↦ (ok a, s') | err e ↦ (err e, s) ]

-- `transaction` where it may be called within another one of the same flow: there it is the body
-- alone, and what the body wrote before it threw is taken back by the outer transaction only.
abbrev pub transaction_in : {E S A : Type 0} → Bool → Exec E S A → Exec E S A
transaction_in true m = m
transaction_in false m = transaction m

-- A transaction that throws leaves the state as it was before it.
pub transaction-rollback :
    {E S A : Type 0} (m : Exec E S A) (s : S) (e : E)
    → (transaction m s).0 ≡ err e
    → (transaction m s).1 ≡ s
unfolding transaction
transaction-rollback m s e h = ground arith

pub Result-cases :
    {E A : Type 0} (r : Result E A) → ((a : A) × (r ≡ ok a)) ⊎ ((e : E) × (r ≡ err e))
Result-cases (ok a) = inl (a, refl)
Result-cases (err e) = inr (e, refl)

module _ {E S A B C : Type 0} (before : Exec E S A) (m : A → Exec E S B)
    (after : B → Exec E S C) where
  -- the inner transaction within the outer one, which throws what it throws
  abbrev in_outer : Bool → Exec E S C
  in_outer nested = transaction (before >>= λ a. (transaction_in nested (m a) >>= after))

  -- Within an outer transaction that throws on what an inner one throws, the inner one leaves and
  -- answers the same with a snapshot of its own as without.
  transaction-nested : (s : S) → in_outer true s ≡ in_outer false s
  unfolding transaction
  transaction-nested s = elim (Result-cases (before s).0) [
    | inl (a, e) ↦ elim (Result-cases (m a (before s).1).0) [
      | inl (b, e') ↦ ground arith
      | inr (x, e') ↦ ground arith
    ]
    | inr (x, e) ↦ ground arith
  ]

-- What holds of the state that a command leaves follows step by step: a step that throws leaves the
-- state that it found.
abbrev pub After : {E S A : Type 0} → (S → Type 0) → Exec E S A → S → Type 0
After P m s = P (m s).1

module _ {E S : Type 0} (P : S → Type 0) (s : S) where
  -- a step that only reads, and may throw
  pub After-read :
      {A B : Type 0} (f : S → Result E A) (k : A → Exec E S B)
      → P s
      → ((a : A) → f s ≡ ok a → After P (k a) s)
      → After P ((λ x. (f x, x)) >>= k) s
  After-read {A} {B} f k here next = go (f s) next
    where
      go :
          (r : Result E A)
          → ((a : A) → r ≡ ok a → After P (k a) s)
          → P (elim r as (λ _. Result E B × S) [ ok a ↦ k a s | err e ↦ (err e, s) ]).1
      go (ok a) next = next a refl
      go (err e) next = here

  pub After-throw_if :
      {B : Type 0} (b : Bool) (e : E) (k : Exec E S B)
      → P s
      → (b ≡ false → After P k s)
      → After P (throw_if b e >> k) s
  After-throw_if true e k here next = here
  After-throw_if false e k here next = next refl

  pub After-transaction :
      {A : Type 0} (m : Exec E S A) → P s → After P m s → After P (transaction m) s
  unfolding transaction
  After-transaction {A} m here h = go (m s).0
    where
      go :
          (r : Result E A)
          → P (elim r as (λ _. Result E A × S) [ ok a ↦ (ok a, (m s).1) | err e ↦ (err e, s) ]).1
      go (ok a) = h
      go (err e) = here

  -- one command after another, the second from the state that the first left
  pub After-bind :
      {A B : Type 0} (m : Exec E S A) (k : A → Exec E S B)
      → After P m s
      → ((a : A) → P (m s).1 → After P (k a) (m s).1)
      → After P (m >>= k) s
  After-bind {A} {B} m k h next = go (m s).0
    where
      go :
          (r : Result E A)
          → P (elim r as (λ _. Result E B × S) [ ok a ↦ k a (m s).1 | err e ↦ (err e, (m s).1) ]).1
      go (ok a) = next a h
      go (err e) = h

  -- one of two commands
  pub After-if :
      {A : Type 0} (b : Bool) (m m' : Exec E S A)
      → After P m s
      → After P m' s
      → After P (if b then m else m') s
  After-if true m m' h h' = h
  After-if false m m' h h' = h'

  -- an answer that is only repackaged
  pub After-map :
      {A B : Type 0} (m : Exec E S A) (f : A → B) → After P m s → After P (m >>= λ a. pure (f a)) s
  After-map {A} {B} m f h = go (m s).0
    where
      go :
          (r : Result E A)
          → P
              (elim r as (λ _. Result E B × S) [
                | ok a ↦ (ok (f a), (m s).1)
                | err e ↦ (err e, (m s).1)
              ]).1
      go (ok a) = h
      go (err e) = h
