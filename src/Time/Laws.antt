-- ===== src/Time/Laws.antt =====
-- The wall-clock helpers against minutes of the day.
use taco_backend.Common.{ℕ, ◌≡◌, arith}
use taco_backend.Time.{hhmm_to_min, min_to_hhmm}

-- Printing a number of minutes as a time and reading the time back gives the number, past midnight too.
pub hhmm_to_min-min_to_hhmm : (m : ℕ) → hhmm_to_min (min_to_hhmm m) ≡ m
hhmm_to_min-min_to_hhmm m = omega arith
