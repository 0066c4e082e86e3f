-- ===== src/Common/Doubles.antt =====
-- The operators of the language on numbers that are not whole: the doubles that are not negative, as
-- exact fractions. A quotient or a product is the exact one, rounded to 53 binary digits, a tie to the
-- even neighbour. The operands are whole numbers below 2 ^ 53 or such quotients, so that no result is
-- too large or too small for its exponent.
pub mod Fuel
use Prim.Native.Nat.{ℕ, zero, suc, ◌+◌, ◌*◌, ◌/◌, ◌%◌}
use taco_backend.Common.Tests.{ltb, leb, ◌==◌, if◌then◌else◌}

pub record Double : Type 0 where
  pub num : ℕ
  pub den : ℕ

-- 2 ^ 52
abbrev pub least_mantissa : ℕ
least_mantissa = 4503599627370496

-- `n / d` to the nearest whole number, a tie to the even one
unfoldable pub half_even : ℕ → ℕ → ℕ
half_even n d =
    let q = n / d in
    let r = n % d in if ltb (2 * r) d then q else if ltb d (2 * r) then q + 1 else q + q % 2

-- Doubles `n` and the unit together until `n / d` has 53 binary digits before the point.
unfoldable pub scale_up : ℕ → ℕ → ℕ → ℕ → ℕ × ℕ
scale_up zero n d unit = (n, unit)
scale_up (suc fuel) n d unit =
    let rest = scale_up fuel (2 * n) d (2 * unit) in
    if ltb n (least_mantissa * d) then rest else (n, unit)

-- Doubles `d` and the unit together until `n / d` has at most 53 binary digits before the point.
unfoldable pub scale_down : ℕ → ℕ → ℕ → ℕ → ℕ × ℕ
scale_down zero n d unit = (d, unit)
scale_down (suc fuel) n d unit =
    let rest = scale_down fuel n (2 * d) (2 * unit) in
    if leb (2 * least_mantissa * d) n then rest else (d, unit)

-- The double nearest to `n / d`. The fuel is enough for `n` below 2 ^ 106 and `d` below 2 ^ 74.
unfoldable pub to_double : ℕ → ℕ → Double
unfolding half_even scale_up scale_down
to_double n d =
    if n == 0
    then record { num = 0; den = 1 }
    else if leb (2 * least_mantissa * d) n
    then (let (d', unit) = scale_down 128 n d 1 in record { num = half_even n d' * unit; den = 1 })
    else (let (n', unit) = scale_up 128 n d 1 in record { num = half_even n' d; den = unit })

-- `n / d` and `x * n`
unfoldable pub divided : ℕ → ℕ → Double
unfolding to_double
divided n d = to_double n d

unfoldable pub times : Double → ℕ → Double
unfolding to_double
times x n = to_double (x.num * n) x.den

-- `Math.round(x)`: the nearest whole number, a tie upwards
unfoldable pub math_round : Double → ℕ
math_round x = (2 * x.num + x.den) / (2 * x.den)
