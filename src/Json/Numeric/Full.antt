-- ===== src/Json/Numeric/Full.antt =====
-- `rx_int_range` on all bounds.
use llguidance.Prelude.{
  ℕ, ◌+◌, ◌-◌, ◌^◌, ◌≤◌, ◌≡◌, ◌⊎◌, refl, ◌∙◌, ap, Bool, true, Option, none, some, [], ◌∷◌, leb,
  arith, inl, inr, ◌>>=◌,
}
use llguidance.Trie.Decode.{decimal}
use llguidance.Json.Regex.{Regex, Matches}
use llguidance.Json.Numeric.{ℤ, pos, negsuc, i64_max, minus, rx_bounded, rx_negative, rx_int_range}
use llguidance.Json.Regex.Reads.{IsRead, mk_or-IsRead, minus-IsRead, any_integer-IsRead}
use llguidance.Json.Numeric.Parts.{Describes}
use llguidance.Json.Numeric.Range.{rx_bounded-Describes}
use llguidance.Json.Numeric.{any_integer, num_digits, rx_from}
use llguidance.Json.Regex.{mk_or}
use llguidance.Json.Numeric.Digits.{num_digits-lt, num_digits-small}
use llguidance.Json.Numeric.Unbounded.{DescribesFrom, rx_from-Describes}
use llguidance.Json.Numeric.Signed.{signed_text, leb_signed, has_negation, Covers}
use llguidance.Json.Numeric.Open.{
  rx_two-Covers, any_integer-Covers, from_pos-Covers, to_negative-Covers, joined-Covers,
}

-- A bound with fewer than 19 digits.
abbrev pub is_short : Option ℤ → Bool
is_short none = true
is_short (some (pos n)) = leb (10 ^ num_digits n - 1) i64_max
is_short (some (negsuc n)) = leb (10 ^ num_digits (n + 1) - 1) i64_max

abbrev pub in_order : Option ℤ → Option ℤ → Bool
in_order none right = true
in_order (some left) none = true
in_order (some left) (some right) = leb_signed left right

short-has_negation : (z : ℤ) → is_short (some z) ≡ true → has_negation z ≡ true
short-has_negation (pos n) h = refl
short-has_negation (negsuc n) h = ground (arith, h, num_digits-lt (n + 1))

one-short : 10 ^ num_digits 1 - 1 ≤ i64_max
one-short = let e = num_digits-small 1 (omega arith) in rw e (omega arith)

zero-short : 10 ^ num_digits 0 - 1 ≤ i64_max
zero-short = let e = num_digits-small 0 (omega arith) in rw e (omega arith)

from_negative-Covers :
    (p q : Regex) (a : ℕ)
    → Covers p (some (negsuc a)) (some (negsuc 0))
    → DescribesFrom q 0
    → Covers (mk_or (p ∷ q ∷ [])) (some (negsuc a)) none
from_negative-Covers p q a (sound, complete) is =
    joined-Covers p q (some (negsuc a)) none
      (λ s m. elim m [
        | inl x ↦
            let d = sound s x in
            record { number = d.number; above = d.above; below = refl; reads = d.reads }
        | inr x ↦
            let d = (is s).0 x in
            record { number = pos d.number; above = refl; below = refl; reads = inl d.written_as }
      ])
      (λ z h g.
        elim z
            as (λ z.
              leb_signed (negsuc a) z ≡ true
              → Matches p (signed_text z) ⊎ Matches q (signed_text z)) [
                | pos n ↦ λ h. inr (
                    (is (decimal n)).1
                      (record { number = n; above = omega arith; written_as = refl }))
                | negsuc n ↦ λ h. inl (complete (negsuc n) h (ground arith))
              ]
          h)

negative-below : (z : ℤ) (b : ℕ) → leb_signed z (negsuc 0) ≡ true → leb_signed z (pos b) ≡ true
negative-below (pos n) b h = absurd (ground (arith, h))
negative-below (negsuc n) b h = refl

to_pos-Covers :
    (p q : Regex) (b : ℕ)
    → Describes p 0 b
    → Covers q none (some (negsuc 0))
    → Covers (mk_or (p ∷ q ∷ [])) none (some (pos b))
to_pos-Covers p q b is (sound, complete) =
    joined-Covers p q none (some (pos b))
      (λ s m. elim m [
        | inl x ↦
            let d = (is s).0 x in
            record {
              number = pos d.number;
              above = refl;
              below = ground (arith, d.below);
              reads = inl d.written_as;
            }
        | inr x ↦
            let d = sound s x in
            record {
              number = d.number;
              above = refl;
              below = negative-below d.number b d.below;
              reads = d.reads;
            }
      ])
      (λ z h g.
        elim z
            as (λ z.
              leb_signed z (pos b) ≡ true → Matches p (signed_text z) ⊎ Matches q (signed_text z)) [
                | pos n ↦ λ g. inl (
                    (is (decimal n)).1 (record {
                      number = n;
                      above = omega arith;
                      below = ground (arith, g);
                      written_as = refl;
                    }))
                | negsuc n ↦ λ g. inr (complete (negsuc n) refl (ground arith))
              ]
          g)

to_pos-eq :
    (b : ℕ) (p q : Regex)
    → rx_bounded 0 b ≡ some p
    → rx_from 1 ≡ some q
    → rx_int_range none (some (pos b)) ≡ some (mk_or (p ∷ minus q ∷ []))
unfolding rx_int_range
to_pos-eq b p q e f =
    ap (λ o. o >>= λ p. rx_from 1 >>= λ q. some (mk_or (p ∷ minus q ∷ []))) e
    ∙ ap (λ o. o >>= λ q. some (mk_or (p ∷ minus q ∷ []))) f

from_negative-eq :
    (a : ℕ) (p q : Regex)
    → rx_int_range (some (negsuc a)) (some (negsuc 0)) ≡ some p
    → rx_from 0 ≡ some q
    → rx_int_range (some (negsuc a)) none ≡ some (mk_or (p ∷ q ∷ []))
unfolding rx_int_range
from_negative-eq a p q e f =
    ap (λ o. o >>= λ p. rx_from 0 >>= λ q. some (mk_or (p ∷ q ∷ []))) e
    ∙ ap (λ o. o >>= λ q. some (mk_or (p ∷ q ∷ []))) f

-- For bounds in order that have fewer than 19 digits, either of which may be missing, `rx_int_range`
-- returns an expression: no error is met, and the fuel is enough. All that it matches is the text of an
-- integer of the range or, where 0 is in the range, "-0"; and it matches the text of every integer of
-- the range. The text written for the expression reads as it, with a bar that reaches as far as the
-- group around it, also where another expression stands before or after.
pub rx_int_range-Covers :
    (left right : Option ℤ)
    → in_order left right ≡ true
    → is_short left ≡ true
    → is_short right ≡ true
    → (p : Regex) × (rx_int_range left right ≡ some p) × Covers p left right × IsRead p
unfolding rx_int_range rx_negative
rx_int_range-Covers none none h l r = (any_integer, refl, any_integer-Covers, any_integer-IsRead)
rx_int_range-Covers (some (pos a)) none h l r =
    let (p, e, is, read) = rx_from-Describes a (ground (arith, l)) in
    (p, e, from_pos-Covers p a is, read)
rx_int_range-Covers (some (negsuc a)) none h l r =
    let (p, e, is, read_p) =
      rx_two-Covers (negsuc a) (negsuc 0) (ground arith) (short-has_negation (negsuc a) l)
        (ground arith) in
    let (q, f, iq, read_q) = rx_from-Describes 0 zero-short in
    (
      mk_or (p ∷ q ∷ []),
      from_negative-eq a p q e f,
      from_negative-Covers p q a is iq,
      mk_or-IsRead (p ∷ q ∷ []) (read_p, (read_q, tt)),
    )
rx_int_range-Covers none (some (pos b)) h l r =
    let (p, e, is, read_p) = rx_bounded-Describes 0 b (omega arith) in
    let (q, f, iq, read_q) = rx_from-Describes 1 one-short in
    (
      mk_or (p ∷ minus q ∷ []),
      to_pos-eq b p q e f,
      to_pos-Covers p (minus q) b is (to_negative-Covers q 0 iq),
      mk_or-IsRead (p ∷ minus q ∷ []) (read_p, (minus-IsRead q read_q, tt)),
    )
rx_int_range-Covers none (some (negsuc b)) h l r =
    let fits = short-has_negation (negsuc b) r in
    let (p, e, is, read) = rx_from-Describes (b + 1) (ground (arith, r)) in
    (minus p, rw (fits, e, rx_int_range) refl, to_negative-Covers p b is, minus-IsRead p read)
rx_int_range-Covers (some left) (some right) h l r =
    rx_two-Covers left right h (short-has_negation left l) (short-has_negation right r)
