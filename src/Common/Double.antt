-- ===== src/Common/Double.antt =====
-- The doubles that the program computes with: not negative, and far from infinity. Such a double is a
-- whole number of 2^-1074, and every operation gives the one that is nearest to the exact result.
use os_mini_project.Common.{
  ℕ, zero, suc, ◌+◌, ◌-◌, ◌*◌, ◌/◌, ◌%◌, ◌^◌, Bool, ◌||◌, ◌&&◌, leb, ltb, ◌==◌, if◌then◌else◌,
}

pub record Double : Type 0 where
  pub units : ℕ

-- The binary logarithm of a number below 2^2^k, rounded down; 0 has 0.
log_below : ℕ → ℕ → ℕ
log_below zero n = 0
log_below (suc k) n =
    let large = leb (2 ^ (2 ^ k)) n in
    let rest = log_below k (if large then n / 2 ^ (2 ^ k) else n) in
    if large then 2 ^ k + rest else rest

-- Of the numbers with 53 binary digits and zeros behind them, the one nearest to a quotient; halfway,
-- the even one of the two.
unfoldable pub nearest : ℕ → ℕ → ℕ
unfolding log_below
nearest num den =
    let exponent = log_below 12 (num / den) in
    let unit = if ltb exponent 53 then 1 else 2 ^ (exponent - 52) in
    let step = den * unit in
    let rest = 2 * (num % step) in
    let goes_up = ltb step rest || (rest == step && num / step % 2 == 1) in
    if goes_up then (num / step + 1) * unit else num / step * unit

abbrev units_of_one : ℕ
units_of_one = 2 ^ 1074

unfoldable pub of_nat : ℕ → Double
unfolding nearest
of_nat n = record { units = nearest (n * units_of_one) 1 }

-- `a + b`, `a * b` and `a / b`
unfoldable pub sum_of : Double → Double → Double
unfolding nearest
sum_of a b = record { units = nearest (a.units + b.units) 1 }

unfoldable pub product_of : Double → Double → Double
unfolding nearest
product_of a b = record { units = nearest (a.units * b.units) units_of_one }

unfoldable pub quotient_of : Double → Double → Double
unfolding nearest
quotient_of a b = record { units = nearest (a.units * units_of_one) b.units }

-- `Math.ceil(a / b)`, where a fraction is given for `a / b`, with a positive denominator.
unfoldable pub ceil_quotient : ℕ → ℕ → ℕ
unfolding nearest
ceil_quotient num den = (nearest (num * units_of_one) den + (units_of_one - 1)) / units_of_one

abbrev pub exceeds : Double → Double → Bool
exceeds a b = ltb b.units a.units
