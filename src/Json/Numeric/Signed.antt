-- ===== src/Json/Numeric/Signed.antt =====
-- The expression between two signed bounds.
use llguidance.Prelude.{
  ℕ, zero, suc, ◌+◌, ◌-◌, ◌≤◌, ◌<◌, ◌≡◌, ◌⊎◌, refl, ◌∙◌, ap, ap₂, Bool, true, false, Option, none,
  some, List, [], ◌∷◌, ◌++◌, leb, arith, inl, inr,
}
use llguidance.Trie.Decode.{decimal}
use llguidance.Json.Regex.{Regex, group, or, Matches}
use llguidance.Json.Numeric.{ℤ, pos, negsuc, i64_max, minus}
use llguidance.Json.Numeric.Digits.{decimal-small}
use llguidance.Json.Numeric.Parts.{IsDecimal, Describes}

-- The text of an integer.
abbrev pub signed_text : ℤ → List ℕ
signed_text (pos n) = decimal n
signed_text (negsuc n) = b'-' ∷ decimal (n + 1)

abbrev pub leb_signed : ℤ → ℤ → Bool
leb_signed (pos a) (pos b) = leb a b
leb_signed (pos a) (negsuc b) = false
leb_signed (negsuc a) (pos b) = true
leb_signed (negsuc a) (negsuc b) = leb b a

-- `-n` does not overflow.
abbrev pub has_negation : ℤ → Bool
has_negation (pos n) = true
has_negation (negsuc n) = leb (n + 1) i64_max

abbrev pub at_least : Option ℤ → ℤ → Bool
at_least none z = true
at_least (some left) z = leb_signed left z

abbrev pub at_most : Option ℤ → ℤ → Bool
at_most none z = true
at_most (some right) z = leb_signed z right

-- The text of an integer in the range, or a minus before the text of 0, which is in it.
pub record IsSigned (left right : Option ℤ) (s : List ℕ) : Type 0 where
  pub number : ℤ
  pub above : at_least left number ≡ true
  pub below : at_most right number ≡ true
  pub reads : (s ≡ signed_text number) ⊎ ((number ≡ pos 0) × (s ≡ b'-' ∷ b'0' ∷ []))

abbrev pub Covers : Regex → Option ℤ → Option ℤ → Type 0
Covers p left right =
    ((s : List ℕ) → Matches p s → IsSigned left right s)
    × ((z : ℤ) → at_least left z ≡ true → at_most right z ≡ true → Matches p (signed_text z))

decimal_of : {a b : ℕ} (n : ℕ) → a ≤ n → n ≤ b → IsDecimal a b (decimal n)
decimal_of n h g = record { number = n; above = h; below = g; written_as = refl }

pub pos-Covers : (p : Regex) (a b : ℕ) → Describes p a b → Covers p (some (pos a)) (some (pos b))
pos-Covers p a b is = (
  λ s m.
      let d = (is s).0 m in
      record {
        number = pos d.number;
        above = ground (arith, d.above);
        below = ground (arith, d.below);
        reads = inl d.written_as;
      },
  λ z h g.
      elim z
          as (λ z.
            leb_signed (pos a) z ≡ true → leb_signed z (pos b) ≡ true → Matches p (signed_text z)) [
              | pos n ↦
                  λ h g. (is (decimal n)).1 (decimal_of n (ground (arith, h)) (ground (arith, g)))
              | negsuc n ↦ λ h g. absurd (ground (arith, h))
            ]
        h g,
)

pub minus-Matches : (p : Regex) (s : List ℕ) → Matches p s → Matches (minus p) (b'-' ∷ s)
unfolding Matches
minus-Matches p s m = (b'-' ∷ [], s, refl, refl, m)

-- What a minus before the numbers of a range reads.
minus-reads :
    (p : Regex) (a b : ℕ) (s : List ℕ)
    → Describes p a b
    → Matches (minus p) s
    → (n : ℕ) × (a ≤ n) × (n ≤ b) × (s ≡ b'-' ∷ decimal n)
unfolding Matches
minus-reads p a b s is (xs, ys, e, f, m) =
    let d = (is ys).0 m in (d.number, d.above, d.below, e ∙ ap₂ (λ l r. l ++ r) f d.written_as)

pub negative :
    (n : ℕ) (s : List ℕ) → 0 < n → s ≡ b'-' ∷ decimal n → s ≡ signed_text (negsuc (n - 1))
negative n s h e = let same : n ≡ n - 1 + 1 = omega arith in e ∙ ap (λ k. b'-' ∷ decimal k) same

pub negative-Covers :
    (p : Regex) (a b : ℕ)
    → Describes p (b + 1) (a + 1)
    → Covers (group (minus p)) (some (negsuc a)) (some (negsuc b))
unfolding Matches
negative-Covers p a b is = (
  λ s m.
      let (n, h, g, e) = minus-reads p (b + 1) (a + 1) s is m in
      record {
        number = negsuc (n - 1);
        above = ground (arith, h, g);
        below = ground (arith, h, g);
        reads = inl (negative n s (omega arith) e);
      },
  λ z h g.
      elim z
          as (λ z.
            leb_signed (negsuc a) z ≡ true
            → leb_signed z (negsuc b) ≡ true
            → Matches (minus p) (signed_text z)) [
              | pos n ↦ λ h g. absurd (ground (arith, g))
              | negsuc n ↦ λ h g. minus-Matches p (decimal (n + 1)) (
                  (is (decimal (n + 1))).1
                    (decimal_of (n + 1) (ground (arith, g)) (ground (arith, h))))
            ]
        h g,
)

mixed_number :
    (n a b : ℕ) (s : List ℕ)
    → n ≤ a + 1
    → s ≡ b'-' ∷ decimal n
    → IsSigned (some (negsuc a)) (some (pos b)) s
mixed_number zero a b s h e = record {
  number = pos 0;
  above = refl;
  below = ground arith;
  reads = inr (refl, e ∙ ap (λ l. b'-' ∷ l) (decimal-small 0 (omega arith)));
}
mixed_number (suc n) a b s h e = record {
  number = negsuc (suc n - 1);
  above = ground (arith, h);
  below = refl;
  reads = inl (negative (suc n) s (omega arith) e);
}

pub mixed-Covers :
    (p q : Regex) (a b : ℕ)
    → Describes p 0 (a + 1)
    → Describes q 0 b
    → Covers (group (or (minus p) q)) (some (negsuc a)) (some (pos b))
unfolding Matches
mixed-Covers p q a b is_p is_q = (
  λ s m. elim m [
    | inl x ↦ let (n, h, g, e) = minus-reads p 0 (a + 1) s is_p x in mixed_number n a b s g e
    | inr x ↦
        let d = (is_q s).0 x in
        record {
          number = pos d.number;
          above = refl;
          below = ground (arith, d.below);
          reads = inl d.written_as;
        }
  ],
  λ z h g.
      elim z
          as (λ z.
            leb_signed (negsuc a) z ≡ true
            → leb_signed z (pos b) ≡ true
            → Matches (or (minus p) q) (signed_text z)) [
              | pos n ↦
                  λ h g. inr ((is_q (decimal n)).1 (decimal_of n (omega arith) (ground (arith, g))))
              | negsuc n ↦ λ h g. inl (
                  minus-Matches p (decimal (n + 1)) (
                    (is_p (decimal (n + 1))).1
                      (decimal_of (n + 1) (omega arith) (ground (arith, h)))))
            ]
        h g,
)
