-- ===== src/Bytes/Laws.antt =====
-- The round trip of hexadecimal text.
use llguidance.Prelude.{
  ℕ, ◌+◌, ◌*◌, ◌/◌, ◌%◌, ◌<◌, ◌≡◌, refl, ap, false, some, List, [], ◌∷◌, ◌==◌, arith,
}
use llguidance.Bytes.{hex_digit, hex_value, hex_byte, to_hex_string, from_hex_string}

hex_value-hex_digit : (n : ℕ) → n < 16 → hex_value (hex_digit n) ≡ some n
unfolding hex_value hex_digit
hex_value-hex_digit n h = ground arith

hex_digit-no_sign : (n : ℕ) → (hex_digit n == b'+') ≡ false
unfolding hex_digit
hex_digit-no_sign n = ground arith

hex_byte-hex_digit : (b : ℕ) → b < 256 → hex_byte (hex_digit (b / 16)) (hex_digit (b % 16)) ≡ some b
unfolding hex_byte
hex_byte-hex_digit b h =
    let join : b / 16 * 16 + b % 16 ≡ b = omega arith in
    rw (hex_value-hex_digit (b % 16) (omega arith), hex_digit-no_sign (b / 16))
      (rw (hex_value-hex_digit (b / 16) (omega arith)) (ap some join))

abbrev pub AreBytes : List ℕ → Type 0
AreBytes [] = Unit
AreBytes (b ∷ bytes) = (b < 256) × AreBytes bytes

-- Parsing the hexadecimal text of a string of bytes gives the string back.
pub from_hex_string-to_hex_string :
    (bytes : List ℕ) → AreBytes bytes → from_hex_string (to_hex_string bytes) ≡ some bytes
unfolding from_hex_string to_hex_string
from_hex_string-to_hex_string [] h = refl
from_hex_string-to_hex_string (b ∷ bytes) h =
    rw (hex_byte-hex_digit b h.0) (rw (from_hex_string-to_hex_string bytes h.1) refl)
