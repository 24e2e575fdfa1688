-- ===== src/Json/Decimal/Laws.antt =====
-- The simplest form of a decimal.
use llguidance.Prelude.{
  ℕ, zero, suc, ◌-◌, ◌*◌, ◌/◌, ◌%◌, ◌^◌, ◌≤◌, ◌≡◌, ◌≢◌, ◌⊎◌, refl, sym, ◌∙◌, ap, inl, inr, ◌==◌,
  arith, Bool-cases,
}
use native.Mathlib.Nat.{pow-suc, mul_assoc}
use llguidance.Json.Decimal.{Decimal, reduce, new}

-- `d` is the number `coef * 10^-exp`, in the simplest form: with no digit after the point, or with a
-- last digit that is not 0.
pub record IsReduced (coef exp : ℕ) (d : Decimal) : Type 0 where
  pub less : d.exp ≤ exp
  pub same : d.coef * 10 ^ (exp - d.exp) ≡ coef
  pub simplest : (d.exp ≡ 0) ⊎ (d.coef % 10 ≢ 0)

none_left : (exp : ℕ) → suc exp - suc exp ≡ 0
none_left exp = omega arith

reduce-IsReduced : (coef exp : ℕ) → IsReduced coef exp (reduce coef exp)
unfolding reduce
reduce-IsReduced coef zero = record { less = omega arith; same = omega arith; simplest = inl refl }
reduce-IsReduced coef (suc exp) = elim (Bool-cases (coef % 10 == 0)) [
  | inl e ↦
      let ih = reduce-IsReduced (coef / 10) exp in
      let d = reduce (coef / 10) exp in
      let k = exp - d.exp in
      let up : suc exp - d.exp ≡ suc k = omega (arith, ih.less) in
      let tens : coef ≡ coef / 10 * 10 = ground (arith, e) in
      rw (e, reduce)
        (record {
          less = omega (arith, ih.less);
          same =
              ap (λ n. d.coef * 10 ^ n) up
              ∙ ap (λ n. d.coef * n) (pow-suc 10 k)
              ∙ sym (mul_assoc d.coef (10 ^ k) 10)
              ∙ ap (λ n. n * 10) ih.same
              ∙ sym tens;
          simplest = ih.simplest;
        })
  | inr e ↦
      rw (e, reduce)
        (record {
          less = omega arith;
          same = ap (λ n. coef * 10 ^ n) (none_left exp) ∙ omega arith;
          simplest = inr (λ h. ground (arith, e, h));
        })
]

-- `Decimal::new` keeps the number and gives its simplest form; 0 has no digits after the point.
pub new-IsReduced :
    (coef exp : ℕ) → IsReduced coef exp (new coef exp) × (coef ≡ 0 → (new coef exp).exp ≡ 0)
unfolding new
new-IsReduced coef exp = elim (Bool-cases (coef == 0)) [
  | inl e ↦
      rw (e, new)
        (record { less = omega arith; same = ground (arith, e); simplest = inl refl }, λ h. refl)
  | inr e ↦ rw (e, new) (reduce-IsReduced coef exp, λ h. absurd (ground (arith, e, h)))
]
