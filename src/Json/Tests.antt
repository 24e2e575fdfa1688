-- ===== src/Json/Tests.antt =====
-- Ranges of integers, the text of their expressions, and the theorems about them.
use llguidance.Prelude.{none, ◌≡◌, refl, some, [], ◌∷◌, arith, ◌>>=◌}
use llguidance.Trie.Decode.{decimal}
use llguidance.Json.Regex.{Regex, mk_or, written}
use llguidance.Json.Numeric.{pos, negsuc, num_digits, rx_range, rx_bounded, rx_int_range}
use llguidance.Json.Regex.Reads.{IsRead}
use llguidance.Json.Numeric.Parts.{Describes}
use llguidance.Json.Numeric.Range.{rx_bounded-Describes}
use llguidance.Json.Numeric.Signed.{Covers}
use llguidance.Json.Numeric.Full.{rx_int_range-Covers}
use llguidance.Prelude.{ℕ}
use llguidance.Json.Decimal.{Decimal, reduce, new, gcd, gcd_from, lcm}
use llguidance.Json.Decimal.Laws.{IsReduced}
use llguidance.Json.Decimal.Gcd.{IsLcm}
use llguidance.Json.Decimal.Lcm.{at_common, lcm-IsLcm}

-- The text `(([1-9])|(10))`.
one_to_ten :
    (rx_bounded 1 10 >>= λ p. some (written p))
    ≡ some (
        b'(' ∷ b'(' ∷ b'[' ∷ b'1' ∷ b'-' ∷ b'9' ∷ b']' ∷ b')' ∷ b'|' ∷ b'(' ∷ b'1' ∷ b'0' ∷ b')'
        ∷ b')' ∷ [])
unfolding rx_bounded rx_range written num_digits decimal mk_or
one_to_ten = refl

rx_bounded-Describes_example :
    (p : Regex) × (rx_bounded 7 123 ≡ some p) × Describes p 7 123 × IsRead p
rx_bounded-Describes_example = rx_bounded-Describes 7 123 (omega arith)

rx_int_range-Covers_example :
    (p : Regex) × (rx_int_range (some (negsuc 4)) (some (pos 37)) ≡ some p)
    × Covers p (some (negsuc 4)) (some (pos 37))
    × IsRead p
unfolding num_digits decimal
rx_int_range-Covers_example = rx_int_range-Covers (some (negsuc 4)) (some (pos 37)) refl refl refl

-- 0.25 and 1.5.
abbrev quarter : Decimal
quarter = record { coef = 25; exp = 2 }

abbrev three_halves : Decimal
three_halves = record { coef = 15; exp = 1 }

lcm_run : lcm quarter three_halves ≡ some three_halves
unfolding lcm new reduce gcd gcd_from
lcm_run = refl

-- The product of the coefficients overflows, the multiple would not.
lcm_overflow : lcm (record { coef = 65536; exp = 0 }) (record { coef = 65536; exp = 0 }) ≡ none
unfolding lcm
lcm_overflow = refl

lcm-IsLcm_example :
    (d : Decimal) × (l : ℕ) × (lcm quarter three_halves ≡ some d)
    × IsLcm (at_common quarter three_halves) (at_common three_halves quarter) l
    × IsReduced l 2 d
lcm-IsLcm_example = lcm-IsLcm quarter three_halves (omega arith) (omega arith) (omega arith)
