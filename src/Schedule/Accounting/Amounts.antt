-- ===== src/Schedule/Accounting/Amounts.antt =====
-- What a session costs when its minutes are whole quarters of an hour: doubles hold the quarters
-- exactly, so that `payoutAmountOf` of src/modules/schedule/session-accounting.policy.ts is exact.
use native.Mathlib.Nat.{
  mul_assoc, mul_left_comm, mul_comm, mul-div_cancel, mul-mod_left, mul-div-mul_left, mul-pos,
  mul-lt-mul_of_pos_right, mul-one, mul-add, mul-zero, zero-mul, mul_right_comm,
}
use taco_backend.Common.{
  ℕ, zero, suc, ◌+◌, ◌*◌, ◌/◌, ◌≤◌, ◌<◌, ◌≡◌, refl, sym, ap, ◌∙◌, true, false, ltb, leb, ◌==◌,
  arith, Bool-cases, inl, inr,
}
use taco_backend.Common.Doubles.{
  least_mantissa, half_even, scale_up, to_double, divided, times, math_round,
}
use taco_backend.Schedule.Accounting.{payout_amount_of}

doubled_product : (k v d : ℕ) → 2 * (k * v * d) ≡ k * (2 * v) * d
doubled_product k v d = sym (mul_assoc 2 (k * v) d) ∙ ap (λ x. x * d) (mul_left_comm 2 k v)

-- whole multiples of the denominator stay whole
scale_up-whole :
    (fuel k v d : ℕ)
    → 1 ≤ v
    → (v' : ℕ) × (1 ≤ v') × (scale_up fuel (k * v * d) d (4 * v) ≡ (k * v' * d, 4 * v'))
unfolding scale_up
scale_up-whole zero k v d h = (v, h, refl)
scale_up-whole (suc fuel) k v d h = elim (Bool-cases (ltb (k * v * d) (least_mantissa * d))) [
  | inl e ↦
      let (v', h', q) = scale_up-whole fuel k (2 * v) d (omega arith) in
      (
        v',
        h',
        rw e (
            ap (λ n. scale_up fuel n d (2 * (4 * v))) (doubled_product k v d)
            ∙ (ap (λ u. scale_up fuel (k * (2 * v) * d) d u) (mul_left_comm 2 4 v) ∙ q)),
      )
  | inr e ↦ (v, h, rw e refl)
]

half_even-whole : (k d : ℕ) → 0 < d → half_even (k * d) d ≡ k
unfolding half_even
half_even-whole k d h = rw (mul-div_cancel k h, mul-mod_left k d) (ground arith)

scale_up-twice :
    (fuel n d : ℕ)
    → 2 * n < least_mantissa * d
    → scale_up (suc (suc fuel)) n d 1 ≡ scale_up fuel (2 * (2 * n)) d 4
unfolding scale_up
scale_up-twice fuel n d h =
    let here : ltb n (least_mantissa * d) ≡ true = ground arith in
    let there : ltb (2 * n) (least_mantissa * d) ≡ true = ground arith in rw (here, there) refl

is_not_zero : (n : ℕ) → 0 < n → (n == 0) ≡ false
is_not_zero n h = ground arith

abbrev pub first_inexact : ℕ
first_inexact = 9007199254740992

module _ (k e : ℕ) (some_k : 0 < k) (some_e : 0 < e) (small : k < first_inexact) where
  below : k * e < first_inexact * e
  below = mul-lt-mul_of_pos_right small some_e

  quarters_scaled : (v : ℕ) × (1 ≤ v) × (scale_up 128 (k * e) (4 * e) 1 ≡ (k * v * (4 * e), 4 * v))
  quarters_scaled =
      let (v, h, q) = scale_up-whole 126 k 1 (4 * e) (omega arith) in
      let start : 2 * (2 * (k * e)) ≡ k * 1 * (4 * e) =
        sym (ap (λ x. x * (4 * e)) (mul-one k) ∙ (mul_left_comm k 4 e ∙ omega arith)) in
      (
        v,
        h,
        scale_up-twice 126 (k * e) (4 * e) (omega (arith, below))
            ∙ (ap (λ n. scale_up 126 n (4 * e) 4) start ∙ q),
      )

  -- the double nearest to `k / 4` is `k / 4`
  to_double-quarters :
      (v : ℕ) × (1 ≤ v) × (to_double (k * e) (4 * e) ≡ record { num = k * v; den = 4 * v })
  unfolding to_double
  to_double-quarters =
      let (v, h, q) = quarters_scaled in
      let positive : (k * e == 0) ≡ false = is_not_zero (k * e) (mul-pos some_k some_e) in
      let within : leb (2 * least_mantissa * (4 * e)) (k * e) ≡ false = ground (arith, below) in
      (
        v,
        h,
        rw (positive, within, q)
            (ap (λ m. record { num = m; den = 4 * v })
              (half_even-whole (k * v) (4 * e) (omega arith))),
      )

-- a quotient with the denominator four, rounded to the nearest whole number, a tie upwards
math_round-quarters :
    (k v : ℕ) → 1 ≤ v → math_round (record { num = k * v; den = 4 * v }) ≡ (2 * k + 4) / 8
unfolding math_round
math_round-quarters k v h =
    let num : 2 * (k * v) + 4 * v ≡ v * (2 * k + 4) =
      omega (arith, mul-add v (2 * k) 4, mul_left_comm v 2 k, mul_comm v k) in
    let den : 2 * (4 * v) ≡ v * 8 = omega arith in
    ap (λ n. n / (2 * (4 * v))) num
    ∙ (ap (λ d. v * (2 * k + 4) / d) den ∙ mul-div-mul_left (2 * k + 4) 8 h)

module _ (q rate : ℕ) (small : q < first_inexact) (few : q * rate < first_inexact) where
  times-quarters :
      (v : ℕ)
      → 1 ≤ v
      → 0 < q
      → 0 < rate
      → math_round (times (record { num = q * v; den = 4 * v }) rate) ≡ (2 * (q * rate) + 4) / 8
  unfolding times
  times-quarters v h some_q some_rate =
      let (w, h', e) = to_double-quarters (q * rate) v (mul-pos some_q some_rate) h few in
      ap (λ n. math_round (to_double n (4 * v))) (mul_right_comm q v rate)
      ∙ (ap math_round e ∙ math_round-quarters (q * rate) w h')

  priced_quarters : 0 < q → 0 < rate → payout_amount_of (15 * q) rate ≡ (2 * (q * rate) + 4) / 8
  unfolding payout_amount_of divided
  priced_quarters some_q some_rate =
      let (v, h, e) = to_double-quarters q 15 some_q (omega arith) small in
      ap (λ n. math_round (times (to_double n 60) rate)) (mul_comm 15 q)
      ∙ (ap (λ x. math_round (times x rate)) e ∙ times-quarters v h some_q some_rate)

no_minutes : (rate : ℕ) → payout_amount_of 0 rate ≡ 0
unfolding payout_amount_of divided times math_round to_double
no_minutes rate = rw (zero-mul rate) refl

no_rate : (minutes : ℕ) → payout_amount_of minutes 0 ≡ 0
unfolding payout_amount_of divided times math_round to_double
no_rate minutes = rw (mul-zero (divided minutes 60).num) refl

rounded_quarters :
    (q rate : ℕ)
    → q < first_inexact
    → q * rate < first_inexact
    → payout_amount_of (15 * q) rate ≡ (2 * (q * rate) + 4) / 8
rounded_quarters zero rate small few =
    no_minutes rate ∙ sym (ap (λ n. (2 * n + 4) / 8) (zero-mul rate))
rounded_quarters (suc q) zero small few =
    no_rate (15 * suc q) ∙ sym (ap (λ n. (2 * n + 4) / 8) (mul-zero (suc q)))
rounded_quarters (suc q) (suc rate) small few =
    priced_quarters (suc q) (suc rate) small few (omega arith) (omega arith)

-- A session of `q` quarters of an hour costs its exact price, a quarter of the rate for each, rounded
-- to the nearest won and a half upwards, although the source computes in doubles. This takes quarters,
-- and a product of quarters and rate, below 2 ^ 53.
pub payout_amount_of-quarters :
    (q rate : ℕ)
    → q < first_inexact
    → q * rate < first_inexact
    → let amount = payout_amount_of (15 * q) rate in
      (4 * amount ≤ q * rate + 2) × (q * rate + 2 < 4 * amount + 4)
payout_amount_of-quarters q rate small few =
    let exact = rounded_quarters q rate small few in (omega (arith, exact), omega (arith, exact))
