-- ===== src/Json/Decimal/Lcm.antt =====
-- The least common multiple of two decimals.
use llguidance.Prelude.{
  ℕ, zero, suc, ◌+◌, ◌-◌, ◌*◌, ◌/◌, ◌^◌, ◌<◌, ◌≡◌, refl, ◌∙◌, ap, max, true, false, ◌||◌, some, ltb,
  ◌==◌, arith, ◌>>=◌,
}
use native.Mathlib.Nat.{pow-suc}
use llguidance.Json.Decimal.{Decimal, new, gcd, fits, scaled, lcm}
use llguidance.Json.Decimal.Laws.{IsReduced, new-IsReduced}
use llguidance.Json.Decimal.Gcd.{IsLcm, gcd-IsGcd, quotient-IsLcm}

fits-some : (n : ℕ) → n < 2 ^ 32 → fits n ≡ some n
fits-some n h = let e : ltb n (2 ^ 32) ≡ true = ground arith in rw (e, fits) refl

pow-pos : (n : ℕ) → 0 < 10 ^ n
pow-pos zero = omega arith
pow-pos (suc n) = omega (arith, pow-suc 10 n, pow-pos n)

times-bound : (a b n : ℕ) → 0 < a → a * b < n → b < n
times-bound zero b n h g = absurd (omega arith)
times-bound (suc a) b n h g = let e : suc a * b ≡ a * b + b = grind arith in omega (arith, e, g)

times-pos : (a b : ℕ) → 0 < a → 0 < b → 0 < a * b
times-pos zero b h g = absurd (omega arith)
times-pos (suc a) b h g = let e : suc a * b ≡ a * b + b = grind arith in omega (arith, e, g)

swapped : (a b : ℕ) → a * b < 2 ^ 32 → b * a < 2 ^ 32
swapped a b h = let e : b * a ≡ a * b = grind arith in omega (arith, e, h)

scaled-some :
    (coef n : ℕ) → 0 < coef → coef * 10 ^ n < 2 ^ 32 → scaled coef n ≡ some (coef * 10 ^ n)
scaled-some coef n h g =
    let small = times-bound coef (10 ^ n) (2 ^ 32) h g in
    ap (λ o. o >>= λ p. fits (coef * p)) (fits-some (10 ^ n) small) ∙ fits-some (coef * 10 ^ n) g

-- The coefficient at the exponent that the two have in common.
abbrev pub at_common : Decimal → Decimal → ℕ
at_common self other = self.coef * 10 ^ (other.exp - self.exp)

-- For two decimals that are not 0 and whose coefficients, brought to the larger exponent, have a product
-- that fits `u32`, `lcm` returns the simplest form of the least common multiple of these coefficients at
-- that exponent: a multiple of both decimals, of which each common multiple is a multiple.
pub lcm-IsLcm :
    (self other : Decimal)
    → 0 < self.coef
    → 0 < other.coef
    → at_common self other * at_common other self < 2 ^ 32
    → (d : Decimal) × (l : ℕ) × (lcm self other ≡ some d)
      × IsLcm (at_common self other) (at_common other self) l
      × IsReduced l (max self.exp other.exp) d
unfolding lcm
lcm-IsLcm self other h g small =
    let a = at_common self other in
    let b = at_common other self in
    let a_pos : 0 < a =
      times-pos self.coef (10 ^ (other.exp - self.exp)) h (pow-pos (other.exp - self.exp)) in
    let b_pos : 0 < b =
      times-pos other.coef (10 ^ (self.exp - other.exp)) g (pow-pos (self.exp - other.exp)) in
    let l = a * b / gcd a b in
    let e : (self.coef == 0 || other.coef == 0) ≡ false = ground arith in
    let a_some =
      scaled-some self.coef (other.exp - self.exp) h
        (times-bound b a (2 ^ 32) b_pos (swapped a b small)) in
    let b_some =
      scaled-some other.coef (self.exp - other.exp) g (times-bound a b (2 ^ 32) a_pos small) in
    let product = fits-some (a * b) small in
    (
      new l (max self.exp other.exp),
      l,
      rw (e, lcm)
          (ap
              (λ o. o >>= λ a. scaled other.coef (self.exp - other.exp) >>= λ b.
                fits (a * b) >>= λ p. some (new (p / gcd a b) (max self.exp other.exp)))
              a_some
            ∙ ap
                (λ o. o >>= λ b.
                  fits (a * b) >>= λ p. some (new (p / gcd a b) (max self.exp other.exp)))
                b_some
            ∙ ap (λ o. o >>= λ p. some (new (p / gcd a b) (max self.exp other.exp))) product),
      quotient-IsLcm a b (gcd a b) (gcd-IsGcd a b a_pos),
      (new-IsReduced l (max self.exp other.exp)).0,
    )
