-- ===== src/Json/Numeric/Open.antt =====
-- The forms of the bounds of `rx_int_range`, one by one.
use llguidance.Prelude.{
  ℕ, zero, suc, ◌+◌, ◌-◌, ◌≤◌, ◌≡◌, ◌⊎◌, refl, sym, ◌∙◌, ap, ap₂, true, Option, none, some, List,
  [], ◌∷◌, ◌++◌, arith, inl, inr,
}
use llguidance.Trie.Decode.{decimal}
use llguidance.Json.Regex.{Regex, group, or, Matches}
use llguidance.Json.Numeric.{ℤ, pos, negsuc, minus, rx_negative, rx_int_range}
use llguidance.Json.Numeric.Digits.{decimal-small}
use llguidance.Json.Numeric.Range.{rx_bounded-Describes}
use llguidance.Json.Numeric.{any_integer}
use llguidance.Json.Regex.{mk_or}
use llguidance.Json.Numeric.Digits.{num_digits-pos}
use llguidance.Json.Numeric.Unbounded.{DescribesFrom, longer, longer_sound, longer_complete}
use llguidance.Json.Numeric.Signed.{
  signed_text, leb_signed, at_least, at_most, has_negation, IsSigned, Covers, minus-Matches,
  negative, pos-Covers, negative-Covers, mixed-Covers,
}
use llguidance.Json.Regex.Reads.{IsRead, as_alternatives, group-IsRead, or-IsRead, minus-IsRead}
use llguidance.Json.Regex.Laws.{AnyOf, mk_or-AnyOf}

pub rx_two-Covers :
    (left right : ℤ)
    → leb_signed left right ≡ true
    → has_negation left ≡ true
    → has_negation right ≡ true
    → (p : Regex) × (rx_int_range (some left) (some right) ≡ some p)
      × Covers p (some left) (some right)
      × IsRead p
unfolding rx_int_range rx_negative
rx_two-Covers (pos a) (pos b) h l r =
    let (p, e, is, read) = rx_bounded-Describes a b (ground (arith, h)) in
    (p, e, pos-Covers p a b is, read)
rx_two-Covers (pos a) (negsuc b) h l r = absurd (ground (arith, h))
rx_two-Covers (negsuc a) (negsuc b) h l r =
    let (p, e, is, read) = rx_bounded-Describes (b + 1) (a + 1) (ground (arith, h)) in
    (
      group (minus p),
      rw (l, r, e, rx_int_range) refl,
      negative-Covers p a b is,
      group-IsRead (minus p) (as_alternatives (minus-IsRead p read)),
    )
rx_two-Covers (negsuc a) (pos b) h l r =
    let (p, e, is, read_p) = rx_bounded-Describes 0 (a + 1) (omega arith) in
    let (q, f, iq, read_q) = rx_bounded-Describes 0 b (omega arith) in
    (
      group (or (minus p) q),
      rw (l, e, f, rx_int_range) refl,
      mixed-Covers p q a b is iq,
      or-IsRead (minus p) q (minus-IsRead p read_p) read_q,
    )

-- What a minus before a positive number or a 0 reads.
minus_number : (n : ℕ) (s : List ℕ) → s ≡ b'-' ∷ decimal n → IsSigned none none s
minus_number zero s e = record {
  number = pos 0;
  above = refl;
  below = refl;
  reads = inr (refl, e ∙ ap (λ l. b'-' ∷ l) (decimal-small 0 (omega arith)));
}
minus_number (suc n) s e = record {
  number = negsuc (suc n - 1);
  above = refl;
  below = refl;
  reads = inl (negative (suc n) s (omega arith) e);
}

digits_sound : (s : List ℕ) → (s ≡ b'0' ∷ []) ⊎ Matches (longer 0) s → (n : ℕ) × (s ≡ decimal n)
digits_sound s (inl e) = (0, e ∙ sym (decimal-small 0 (omega arith)))
digits_sound s (inr m) = let (n, positive, h, e) = longer_sound 0 s m in (n, e)

digits_complete : (n : ℕ) → (decimal n ≡ b'0' ∷ []) ⊎ Matches (longer 0) (decimal n)
digits_complete zero = inl (decimal-small 0 (omega arith))
digits_complete (suc n) = inr (longer_complete 0 (suc n) (omega arith) (num_digits-pos (suc n)))

pub any_integer-Covers : Covers any_integer none none
unfolding Matches
any_integer-Covers = (
  λ s (xs, ys, e, sign, m).
      let (n, f) = digits_sound ys m in
      elim sign [
        | inl none_there ↦ record {
          number = pos n;
          above = refl;
          below = refl;
          reads = inl (e ∙ ap₂ (λ l r. l ++ r) none_there f);
        }
        | inr there ↦ minus_number n s (e ∙ ap₂ (λ l r. l ++ r) there f)
      ],
  λ z h g. elim z as (λ z. Matches any_integer (signed_text z)) [
    | pos n ↦ ([], decimal n, refl, inl refl, digits_complete n)
    | negsuc n ↦ (b'-' ∷ [], decimal (n + 1), refl, inr refl, digits_complete (n + 1))
  ],
)

pub from_pos-Covers : (p : Regex) (a : ℕ) → DescribesFrom p a → Covers p (some (pos a)) none
from_pos-Covers p a is = (
  λ s m.
      let d = (is s).0 m in
      record {
        number = pos d.number;
        above = ground (arith, d.above);
        below = refl;
        reads = inl d.written_as;
      },
  λ z h g.
      elim z as (λ z. leb_signed (pos a) z ≡ true → Matches p (signed_text z)) [
        | pos n ↦ λ h.
            (is (decimal n)).1 (record { number = n; above = ground (arith, h); written_as = refl })
        | negsuc n ↦ λ h. absurd (ground (arith, h))
      ]
        h,
)

-- A minus before what is not below a positive number.
minus_from-reads :
    (p : Regex) (a : ℕ) (s : List ℕ)
    → DescribesFrom p (a + 1)
    → Matches (minus p) s
    → (n : ℕ) × (a ≤ n) × (s ≡ signed_text (negsuc n))
unfolding Matches
minus_from-reads p a s is (xs, ys, e, f, m) =
    let d = (is ys).0 m in
    (
      d.number - 1,
      omega (arith, d.above),
      negative d.number s (omega (arith, d.above)) (e ∙ ap₂ (λ l r. l ++ r) f d.written_as),
    )

pub to_negative-Covers :
    (p : Regex) (b : ℕ) → DescribesFrom p (b + 1) → Covers (minus p) none (some (negsuc b))
to_negative-Covers p b is = (
  λ s m.
      let (n, h, e) = minus_from-reads p b s is m in
      record { number = negsuc n; above = refl; below = ground (arith, h); reads = inl e },
  λ z h g.
      elim z as (λ z. leb_signed z (negsuc b) ≡ true → Matches (minus p) (signed_text z)) [
        | pos n ↦ λ g. absurd (ground (arith, g))
        | negsuc n ↦ λ g. minus-Matches p (decimal (n + 1)) (
            (is (decimal (n + 1))).1
              (record { number = n + 1; above = ground (arith, g); written_as = refl }))
      ]
        g,
)

-- Two ranges that meet between -1 and 0.
pub joined-Covers :
    (p q : Regex) (left right : Option ℤ)
    → ((s : List ℕ) → Matches p s ⊎ Matches q s → IsSigned left right s)
    → ((z : ℤ)
        → at_least left z ≡ true
        → at_most right z ≡ true
        → Matches p (signed_text z) ⊎ Matches q (signed_text z))
    → Covers (mk_or (p ∷ q ∷ [])) left right
unfolding AnyOf
joined-Covers p q left right sound complete = (
  λ s m. elim ((mk_or-AnyOf (p ∷ q ∷ []) s (omega arith)).0 m) [
    | inl x ↦ sound s (inl x)
    | inr y ↦ elim y [ inl x ↦ sound s (inr x) | inr x ↦ absurd x ]
  ],
  λ z h g.
      (mk_or-AnyOf (p ∷ q ∷ []) (signed_text z) (omega arith)).1
        (elim (complete z h g) [ inl x ↦ inl x | inr x ↦ inr (inl x) ]),
)
