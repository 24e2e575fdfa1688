-- ===== src/Json/Numeric/Parts.antt =====
-- What the parts of a range between two numbers of the same length match.
use llguidance.Prelude.{
  ℕ, ◌+◌, ◌-◌, ◌*◌, ◌/◌, ◌%◌, ◌≤◌, ◌<◌, ◌≡◌, ◌↔◌, refl, sym, ◌∙◌, ap, ap₂, true, false, List, [],
  ◌∷◌, ◌++◌, ltb, arith, inl, inr, Bool-cases,
}
use llguidance.Trie.Decode.{decimal}
use llguidance.Json.Regex.{Regex, text, class, both, Matches}
use llguidance.Json.Numeric.{pref, last_digit}
use llguidance.Json.Numeric.Digits.{decimal-pref}

-- The decimal text of a number of the range.
pub record IsDecimal (left right : ℕ) (s : List ℕ) : Type 0 where
  pub number : ℕ
  pub above : left ≤ number
  pub below : number ≤ right
  pub written_as : s ≡ decimal number

abbrev pub Describes : Regex → ℕ → ℕ → Type 0
Describes p left right = (s : List ℕ) → Matches p s ↔ IsDecimal left right s

pref-same : (n m : ℕ) → n / 10 ≡ m / 10 → pref n ≡ pref m
pref-same n m h = elim (Bool-cases (ltb n 10)) [
  | inl e ↦ let f : ltb m 10 ≡ true = ground (arith, h, e) in rw (e, f) refl
  | inr e ↦ let f : ltb m 10 ≡ false = ground (arith, h, e) in rw (e, f, h) refl
]

pref-large : (n : ℕ) → 10 ≤ n → pref n ≡ decimal (n / 10)
pref-large n h = let e : ltb n 10 ≡ false = ground arith in rw e refl

-- The digits of `n` but the last one, and a class of digits.
pub last_sound :
    (n a b : ℕ) (s : List ℕ)
    → a ≤ 9
    → b ≤ 9
    → Matches (both (text (pref n)) (class (48 + a) (48 + b))) s
    → IsDecimal (10 * (n / 10) + a) (10 * (n / 10) + b) s
unfolding Matches
last_sound n a b s ha hb (xs, ys, e, f, (c, g, lo, hi)) =
    let m = 10 * (n / 10) + (c - 48) in
    let q : m / 10 ≡ n / 10 = omega arith in
    let d : 48 + m % 10 ≡ c = omega arith in
    record {
      number = m;
      above = omega arith;
      below = omega arith;
      written_as =
          e
          ∙ ap₂ (λ l r. l ++ r) (f ∙ pref-same n m (sym q)) (g ∙ ap (λ x. x ∷ []) (sym d))
          ∙ sym (decimal-pref m);
    }

pub last_complete :
    (n a b m : ℕ)
    → m / 10 ≡ n / 10
    → a ≤ m % 10
    → m % 10 ≤ b
    → Matches (both (text (pref n)) (class (48 + a) (48 + b))) (decimal m)
unfolding Matches
last_complete n a b m q lo hi = (
  pref m,
  last_digit m ∷ [],
  decimal-pref m,
  pref-same m n q,
  (last_digit m, refl, omega arith, omega arith),
)

-- Any digit after a number of a range.
pub inner_sound :
    (p : Regex) (left right : ℕ) (s : List ℕ)
    → Describes p left right
    → 0 < left
    → Matches (both p (class b'0' b'9')) s
    → IsDecimal (10 * left) (10 * right + 9) s
unfolding Matches
inner_sound p left right s is pos (xs, ys, e, f, (c, g, lo, hi)) =
    let d = (is xs).0 f in
    let m = 10 * d.number + (c - 48) in
    let q : m / 10 ≡ d.number = omega arith in
    let r : 48 + m % 10 ≡ c = omega arith in
    record {
      number = m;
      above = omega (arith, d.above);
      below = omega (arith, d.below);
      written_as =
          e
          ∙ ap₂ (λ l r. l ++ r)
              (d.written_as ∙ ap decimal (sym q) ∙ sym (pref-large m (omega (arith, d.above))))
              (g ∙ ap (λ x. x ∷ []) (sym r))
          ∙ sym (decimal-pref m);
    }

pub inner_complete :
    (p : Regex) (left right m : ℕ)
    → Describes p left right
    → 0 < left
    → left ≤ m / 10
    → m / 10 ≤ right
    → Matches (both p (class b'0' b'9')) (decimal m)
unfolding Matches
inner_complete p left right m is pos lo hi =
    let large : 10 ≤ m = omega arith in
    (
      decimal (m / 10),
      last_digit m ∷ [],
      decimal-pref m ∙ ap (λ l. l ++ last_digit m ∷ []) (pref-large m large),
      (is (decimal (m / 10))).1
          (record { number = m / 10; above = lo; below = hi; written_as = refl }),
      (last_digit m, refl, omega arith, omega arith),
    )
