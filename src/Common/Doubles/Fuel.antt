-- ===== src/Common/Doubles/Fuel.antt =====
-- That 128 doublings are enough to bring a quotient to 53 binary digits.
use native.Mathlib.Nat.{mul_assoc, one-mul}
use taco_backend.Common.{
  ℕ, zero, suc, ◌*◌, ◌≤◌, ◌<◌, ◌≡◌, refl, sym, ap, ◌∙◌, ltb, leb, arith, Bool-cases, inl, inr,
}
use taco_backend.Common.Doubles.{least_mantissa, scale_up, scale_down}

abbrev pub doubled : ℕ → ℕ → ℕ
doubled zero n = n
doubled (suc k) n = doubled k (2 * n)

doubled-mul : (k m n : ℕ) → doubled k (m * n) ≡ doubled k m * n
doubled-mul zero m n = refl
doubled-mul (suc k) m n = ap (doubled k) (sym (mul_assoc 2 m n)) ∙ doubled-mul k (2 * m) n

scale_up-enough :
    (fuel n d unit : ℕ)
    → least_mantissa * d ≤ doubled fuel n
    → least_mantissa * d ≤ (scale_up fuel n d unit).0
unfolding scale_up
scale_up-enough zero n d unit h = h
scale_up-enough (suc fuel) n d unit h = elim (Bool-cases (ltb n (least_mantissa * d))) [
  | inl e ↦ rw e (scale_up-enough fuel (2 * n) d (2 * unit) h)
  | inr e ↦ rw e (ground arith)
]

scale_down-enough :
    (fuel n d unit : ℕ)
    → n < 2 * least_mantissa * doubled fuel d
    → n < 2 * least_mantissa * (scale_down fuel n d unit).0
unfolding scale_down
scale_down-enough zero n d unit h = h
scale_down-enough (suc fuel) n d unit h = elim (Bool-cases (leb (2 * least_mantissa * d) n)) [
  | inl e ↦ rw e (scale_down-enough fuel n (2 * d) (2 * unit) h)
  | inr e ↦ rw e (ground arith)
]

doubled-128 : (n : ℕ) → doubled 128 n ≡ 340282366920938463463374607431768211456 * n
doubled-128 n = ap (doubled 128) (sym (one-mul n)) ∙ doubled-mul 128 1 n

-- A quotient of a number that is not zero has at least 53 binary digits after scaling up, for
-- denominators of at most 2 ^ 74.
pub scale_up-fuel :
    (n d : ℕ) → 1 ≤ n → d ≤ 18889465931478580854784 → least_mantissa * d ≤ (scale_up 128 n d 1).0
scale_up-fuel n d h h' = scale_up-enough 128 n d 1 (omega (arith, doubled-128 n))

-- A quotient of a number below 2 ^ 106 has at most 53 binary digits after scaling down.
pub scale_down-fuel :
    (n d : ℕ)
    → 1 ≤ d
    → n < 81129638414606681695789005144064
    → n < 2 * least_mantissa * (scale_down 128 n d 1).0
scale_down-fuel n d h h' = scale_down-enough 128 n d 1 (omega (arith, doubled-128 d))
