-- ===== src/Json/Decimal.antt =====
-- `Decimal` of parser/src/json/numeric.rs: `coef * 10^-exp`, for `multipleOf`. Arithmetic on `u32` that
-- overflows is `none`. The conversions from and to `f64` are not modelled.
pub mod Laws
pub mod Gcd
pub mod Lcm
use llguidance.Prelude.{
  ℕ, zero, suc, ◌+◌, ◌-◌, ◌*◌, ◌/◌, ◌%◌, ◌^◌, max, Bool, true, false, ◌||◌, Option, none, some, leb,
  ltb, ◌==◌, if◌then◌else◌, ◌>>=◌, ◌>>◌, guard,
}

pub record Decimal : Type 0 where
  pub coef : ℕ
  pub exp : ℕ

-- `while exp > 0 && coef % 10 == 0`
unfoldable pub reduce : ℕ → ℕ → Decimal
reduce coef zero = record { coef = coef; exp = 0 }
reduce coef (suc exp) = elim (coef % 10 == 0) [
  | true ↦ reduce (coef / 10) exp
  | false ↦ record { coef = coef; exp = suc exp }
]

unfoldable pub new : ℕ → ℕ → Decimal
unfolding reduce
new coef exp = if coef == 0 then record { coef = 0; exp = 0 } else reduce coef exp

-- A product or a power that has to fit `u32`.
abbrev pub fits : ℕ → Option ℕ
fits n = do guard (ltb n (2 ^ 32)); some n

-- Each call lowers the second number, so `b + 1` calls are enough.
unfoldable pub gcd_from : ℕ → ℕ → ℕ → ℕ
gcd_from zero a b = a
gcd_from (suc fuel) a b = elim (b == 0) [ true ↦ a | false ↦ gcd_from fuel b (a % b) ]

unfoldable pub gcd : ℕ → ℕ → ℕ
unfolding gcd_from
gcd a b = gcd_from (b + 1) a b

-- `self.coef * 10u32.pow(…)`
abbrev pub scaled : ℕ → ℕ → Option ℕ
scaled coef n = do p ← fits (10 ^ n); fits (coef * p)

unfoldable pub lcm : Decimal → Decimal → Option Decimal
unfolding new gcd
lcm self other = elim (self.coef == 0 || other.coef == 0) [
  | true ↦ some (new 0 0)
  | false ↦ do
    a ← scaled self.coef (other.exp - self.exp)
    b ← scaled other.coef (self.exp - other.exp)
    product ← fits (a * b)
    some (new (product / gcd a b) (max self.exp other.exp))
]
