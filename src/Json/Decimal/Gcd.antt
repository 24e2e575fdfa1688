-- ===== src/Json/Decimal/Gcd.antt =====
-- What Euclid's algorithm computes.
use llguidance.Prelude.{
  ℕ, zero, suc, ◌+◌, ◌-◌, ◌*◌, ◌/◌, ◌%◌, ◌<◌, ◌≡◌, sym, ◌∙◌, ap, ap₂, false, ◌==◌, arith,
}
use native.Mathlib.Nat.{div-add-mod, mul-sub, eq_of_mul-eq-mul_left, mod-lt, div-eq_of_eq-mul_right}
use llguidance.Json.Decimal.{gcd_from, gcd}

-- `g` divides both numbers, and what a multiple of both is, in parts.
pub record IsGcd (a b g : ℕ) : Type 0 where
  pub positive : 0 < g
  pub left : ℕ
  pub right : ℕ
  pub divides_left : a ≡ g * left
  pub divides_right : b ≡ g * right
  pub common : (m n : ℕ) → a * m ≡ b * n → (k : ℕ) × (m ≡ right * k) × (n ≡ left * k)

step-divides : (a b g x y : ℕ) → b ≡ g * x → a % b ≡ g * y → a ≡ g * (x * (a / b) + y)
step-divides a b g x y h e = let d = div-add-mod a b in grind (arith, d, h, e)

minus-sum : (x y z : ℕ) → x ≡ y + z → x - y ≡ z
minus-sum x y z h = omega arith

product-spread : (b q r m : ℕ) → (b * q + r) * m ≡ b * (q * m) + r * m
product-spread b q r m = grind arith

spread : (a b m n : ℕ) → a * m ≡ b * n → b * n ≡ b * (a / b * m) + a % b * m
spread a b m n h =
    sym h ∙ ap (λ t. t * m) (sym (div-add-mod a b)) ∙ product-spread b (a / b) (a % b) m

step-minus : (a b m n : ℕ) → a * m ≡ b * n → b * (n - a / b * m) ≡ a % b * m
step-minus a b m n h =
    let e : b * n ≡ b * (a / b * m) + a % b * m = spread a b m n h in
    mul-sub b n (a / b * m) ∙ minus-sum (b * n) (b * (a / b * m)) (a % b * m) e

step-plus : (a b m n : ℕ) → 0 < b → a * m ≡ b * n → n ≡ n - a / b * m + a / b * m
step-plus a b m n pos h =
    let s = step-minus a b m n h in
    let t = n - a / b * m in
    let f : b * (a / b * m) + b * t ≡ b * (t + a / b * m) = grind arith in
    let e : b * n ≡ b * (t + a / b * m) =
      spread a b m n h ∙ ap (λ u. b * (a / b * m) + u) (sym s) ∙ f in
    eq_of_mul-eq-mul_left b pos n (t + a / b * m) e

none_of : (n a : ℕ) → 0 * n ≡ a * 0
none_of n a = omega arith

none_times : (n : ℕ) → 0 ≡ 0 * n
none_times n = omega arith

zero-IsGcd : (a : ℕ) → 0 < a → IsGcd a 0 a
zero-IsGcd a h = record {
  positive = h;
  left = 1;
  right = 0;
  divides_left = omega arith;
  divides_right = omega arith;
  common =
      λ m n e. (n, eq_of_mul-eq-mul_left a h m 0 (e ∙ none_of n a) ∙ none_times n, omega arith);
}

common_step :
    (a b x y m n k : ℕ)
    → 0 < b
    → a * m ≡ b * n
    → n - a / b * m ≡ y * k
    → m ≡ x * k
    → n ≡ (x * (a / b) + y) * k
common_step a b x y m n k pos h e f =
    let s = step-plus a b m n pos h in
    let g : n - a / b * m + a / b * m ≡ y * k + a / b * (x * k) = ap₂ (λ u v. u + a / b * v) e f in
    s ∙ g ∙ grind arith

step-IsGcd : (a b g : ℕ) → 0 < b → IsGcd b (a % b) g → IsGcd a b g
step-IsGcd a b g pos h = record {
  positive = h.positive;
  left = h.left * (a / b) + h.right;
  right = h.left;
  divides_left = step-divides a b g h.left h.right h.divides_left h.divides_right;
  divides_right = h.divides_left;
  common = λ m n e.
      let (k, f, i) = h.common (n - a / b * m) m (step-minus a b m n e) in
      (k, i, common_step a b h.left h.right m n k pos e f i);
}

mod_bound : (a b fuel : ℕ) → suc b < suc fuel → a % suc b < fuel
mod_bound a b fuel h = omega (arith, mod-lt a {m = suc b} (omega arith))

gcd_from-IsGcd : (fuel a b : ℕ) → 0 < a → b < fuel → IsGcd a b (gcd_from fuel a b)
unfolding gcd_from
gcd_from-IsGcd zero a b h g = absurd (omega arith)
gcd_from-IsGcd (suc fuel) a zero h g = zero-IsGcd a h
gcd_from-IsGcd (suc fuel) a (suc b) h g =
    let e : (suc b == 0) ≡ false = ground arith in
    rw (e, gcd_from)
      (step-IsGcd a (suc b) (gcd_from fuel (suc b) (a % suc b)) (omega arith)
        (gcd_from-IsGcd fuel (suc b) (a % suc b) (omega arith) (mod_bound a b fuel g)))

pub gcd-IsGcd : (a b : ℕ) → 0 < a → IsGcd a b (gcd a b)
unfolding gcd
gcd-IsGcd a b h = gcd_from-IsGcd (b + 1) a b h (omega arith)

swap : (g x y : ℕ) → g * x * y ≡ g * y * x
swap g x y = grind arith

regroup : (a y k : ℕ) → a * (y * k) ≡ a * y * k
regroup a y k = grind arith

-- The product over the divisor is a common multiple, and each common multiple is one of it.
pub record IsLcm (a b l : ℕ) : Type 0 where
  pub of_left : (k : ℕ) × (l ≡ a * k)
  pub of_right : (k : ℕ) × (l ≡ b * k)
  pub least : (m n : ℕ) → a * m ≡ b * n → (k : ℕ) × (a * m ≡ l * k)

quotient : (a b g x y : ℕ) → 0 < g → a ≡ g * x → b ≡ g * y → a * b / g ≡ a * y
quotient a b g x y h e f =
    let p : a * b ≡ g * (a * y) = ap (λ t. a * t) f ∙ grind arith in div-eq_of_eq-mul_right h p

pub quotient-IsLcm : (a b g : ℕ) → IsGcd a b g → IsLcm a b (a * b / g)
quotient-IsLcm a b g h =
    let e = quotient a b g h.left h.right h.positive h.divides_left h.divides_right in
    record {
      of_left = (h.right, e);
      of_right = (
        h.left,
        e
            ∙ ap (λ t. t * h.right) h.divides_left
            ∙ swap g h.left h.right
            ∙ ap (λ t. t * h.left) (sym h.divides_right),
      );
      least = λ m n i.
          let (k, f, j) = h.common m n i in
          (k, ap (λ t. a * t) f ∙ regroup a h.right k ∙ ap (λ t. t * k) (sym e));
    }
