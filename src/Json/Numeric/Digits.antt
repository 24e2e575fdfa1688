-- ===== src/Json/Numeric/Digits.antt =====
-- The digits of `to_string` on numbers.
use llguidance.Prelude.{
  ℕ, zero, suc, ◌+◌, ◌*◌, ◌/◌, ◌%◌, ◌^◌, ◌≤◌, ◌<◌, ◌≡◌, refl, ◌∙◌, ap, true, false, [], ◌∷◌, ◌++◌,
  length, ltb, ◌==◌, arith, inl, inr, length-append, Bool-cases,
}
use native.Mathlib.Nat.{pow-suc}
use native.Mathlib.Decide.{dec_lt}
use llguidance.Trie.Decode.{digits, decimal}
use llguidance.Json.Numeric.{num_digits, pref, last_digit}

-- Fuel beyond the number changes nothing.
digits_fuel : (k m n : ℕ) → n < k → n < m → digits k n ≡ digits m n
unfolding digits
digits_fuel zero m n h g = absurd (omega arith)
digits_fuel (suc k) zero n h g = absurd (omega arith)
digits_fuel (suc k) (suc m) n h g = elim (Bool-cases (ltb n 10)) [
  | inl e ↦ rw (e, digits) refl
  | inr e ↦
      let large : 10 ≤ n = ground (arith, e) in
      rw (e, digits)
        (ap (λ l. l ++ (48 + n % 10) ∷ []) (digits_fuel k m (n / 10) (omega arith) (omega arith)))
]

pub decimal-small : (n : ℕ) → n < 10 → decimal n ≡ (48 + n) ∷ []
unfolding decimal digits
decimal-small n h = let e : ltb n 10 ≡ true = ground arith in rw (e, digits) refl

digits-step :
    (k n : ℕ) → ltb n 10 ≡ false → digits (suc k) n ≡ digits k (n / 10) ++ (48 + n % 10) ∷ []
unfolding digits
digits-step k n e = rw (e, digits) refl

pub decimal-large : (n : ℕ) → 10 ≤ n → decimal n ≡ decimal (n / 10) ++ (48 + n % 10) ∷ []
unfolding decimal
decimal-large n h =
    let e : ltb n 10 ≡ false = ground arith in
    let step : digits (suc n) n ≡ digits n (n / 10) ++ (48 + n % 10) ∷ [] = digits-step n n e in
    step
    ∙ ap (λ l. l ++ (48 + n % 10) ∷ [])
        (digits_fuel n (suc (n / 10)) (n / 10) (omega arith) (omega arith))

pub decimal-pref : (n : ℕ) → decimal n ≡ pref n ++ last_digit n ∷ []
decimal-pref n = elim (Bool-cases (ltb n 10)) [
  | inl e ↦
      let small : n < 10 = ground (arith, e) in
      let same : n % 10 ≡ n = omega arith in decimal-small n small ∙ rw (e, same) refl
  | inr e ↦ let large : 10 ≤ n = ground (arith, e) in decimal-large n large ∙ rw e refl
]

pub num_digits-small : (n : ℕ) → n < 10 → num_digits n ≡ 1
unfolding num_digits
num_digits-small n h = ap length (decimal-small n h)

pub num_digits-large : (n : ℕ) → 10 ≤ n → num_digits n ≡ num_digits (n / 10) + 1
unfolding num_digits
num_digits-large n h =
    ap length (decimal-large n h) ∙ length-append (decimal (n / 10)) ((48 + n % 10) ∷ [])

pow-step : (d e n : ℕ) → d ≡ e + 1 → 10 ^ d ≡ 10 * 10 ^ e
pow-step zero e n h = absurd (omega arith)
pow-step (suc d) e n h = let same : d ≡ e = omega arith in rw same (omega (arith, pow-suc 10 e))

num_digits-lt_below : (k n : ℕ) → n < k → n < 10 ^ num_digits n
num_digits-lt_below zero n h = absurd (omega arith)
num_digits-lt_below (suc k) n h = elim (dec_lt n 10) [
  | yes s ↦ rw (num_digits-small n s) (omega arith)
  | no l ↦
      let large : 10 ≤ n = omega arith in
      let ih = num_digits-lt_below k (n / 10) (omega arith) in
      omega (arith, ih, pow-step (num_digits n) (num_digits (n / 10)) n (num_digits-large n large))
]

pub num_digits-lt : (n : ℕ) → n < 10 ^ num_digits n
num_digits-lt n = num_digits-lt_below (suc n) n (omega arith)

num_digits-le_below : (k n : ℕ) → n < k → 0 < n → 10 ^ num_digits n ≤ 10 * n
num_digits-le_below zero n h pos = absurd (omega arith)
num_digits-le_below (suc k) n h pos = elim (dec_lt n 10) [
  | yes s ↦ rw (num_digits-small n s) (omega arith)
  | no l ↦
      let large : 10 ≤ n = omega arith in
      let ih = num_digits-le_below k (n / 10) (omega arith) (omega arith) in
      omega (arith, ih, pow-step (num_digits n) (num_digits (n / 10)) n (num_digits-large n large))
]

pub num_digits-le : (n : ℕ) → 0 < n → 10 ^ num_digits n ≤ 10 * n
num_digits-le n pos = num_digits-le_below (suc n) n (omega arith) pos

pub num_digits-pos : (n : ℕ) → 0 < num_digits n
num_digits-pos n = elim (dec_lt n 10) [
  | yes s ↦ omega (arith, num_digits-small n s)
  | no l ↦ omega (arith, num_digits-large n (omega arith))
]

pub pow-grows : (a b : ℕ) → a < b → 10 * 10 ^ a ≤ 10 ^ b
pow-grows a zero h = absurd (omega arith)
pow-grows a (suc b) h = elim (dec_lt a b) [
  | yes s ↦ omega (arith, pow-grows a b s, pow-suc 10 b)
  | no l ↦ let same : a ≡ b = omega arith in rw same (omega (arith, pow-suc 10 b))
]

pub pow_mono : (a b : ℕ) → a ≤ b → 10 ^ a ≤ 10 ^ b
pow_mono a b h = elim (dec_lt a b) [
  | yes s ↦ omega (arith, pow-grows a b s)
  | no l ↦ let same : a ≡ b = omega arith in rw same (omega arith)
]

longer-pos : (n m : ℕ) → num_digits n < num_digits m → 0 < m
longer-pos n zero h = absurd (omega (arith, num_digits-small 0 (omega arith), num_digits-pos n))
longer-pos n (suc m) h = omega arith

-- A number with another number of digits is beyond the power of ten.
pub num_digits-apart :
    (left right : ℕ)
    → left ≤ right
    → (num_digits left == num_digits right) ≡ false
    → 10 ^ num_digits left ≤ right
num_digits-apart left right h e = elim (dec_lt (num_digits left) (num_digits right)) [
  | yes s ↦
      let pos : 0 < right = longer-pos left right s in
      omega (arith, pow-grows (num_digits left) (num_digits right) s, num_digits-le right pos)
  | no l ↦
      let shorter : num_digits right < num_digits left = ground (arith, e, l) in
      let pos : 0 < left = longer-pos right left shorter in
      absurd (
        omega (
          arith,
          pow-grows (num_digits right) (num_digits left) shorter,
          num_digits-le left pos,
          num_digits-lt right,
        ))
]

pub same-digits_large :
    (left right : ℕ)
    → (num_digits left == num_digits right) ≡ true
    → left / 10 < right / 10
    → 10 ≤ left
same-digits_large left right e h = elim (dec_lt left 10) [
  | no l ↦ omega arith
  | yes s ↦
      let a = num_digits-small left s in
      let b = num_digits-large right (omega arith) in
      let c = num_digits-pos (right / 10) in absurd (ground (arith, a, b, c, e))
]
