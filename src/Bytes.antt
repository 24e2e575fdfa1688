-- ===== src/Bytes.antt =====
-- Byte strings of toktrie/src/bytes.rs: words in little-endian order, and hexadecimal text.
pub mod Laws
pub mod Words
mod Tests
use llguidance.Prelude.{
  ℕ, zero, suc, ◌+◌, ◌-◌, ◌*◌, ◌/◌, ◌%◌, Bool, true, false, ◌&&◌, Option, none, some, List, [], ◌∷◌,
  ◌++◌, take, drop, length, min, guard, leb, ltb, ◌==◌, if◌then◌else◌, ◌>>=◌, ◌>>◌,
}

-- `to_le_bytes`
abbrev pub to_le_bytes : ℕ → List ℕ
to_le_bytes w = w % 256 ∷ (w / 256) % 256 ∷ (w / 65536) % 256 ∷ (w / 16777216) % 256 ∷ []

-- `dst[start..end].copy_from_slice(&src[..end - start])`: the slices panic where they do not fit.
unfoldable pub copy_from_slice : List ℕ → ℕ → ℕ → List ℕ → Option (List ℕ)
copy_from_slice dst start end src = do
  guard (leb start end && leb end (length dst))
  guard (leb (end - start) (length src))
  some (take start dst ++ (take (end - start) src ++ drop end dst))

-- The loop over the words from the index `i` on. A panic is `none`.
unfoldable pub write_words : ℕ → List ℕ → List ℕ → Option (List ℕ)
unfolding copy_from_slice
write_words i [] dst = some dst
write_words i (w ∷ words) dst = elim (leb (length dst) (i * 4)) [
  | true ↦ some dst
  | false ↦
      copy_from_slice dst (i * 4) (min (i * 4 + 4) (length dst)) (to_le_bytes w)
      >>= write_words (i + 1) words
]

unfoldable pub write_u32s_as_le_bytes : List ℕ → List ℕ → Option (List ℕ)
unfolding write_words
write_u32s_as_le_bytes words dst = write_words 0 words dst

-- A digit of `{:02x}`.
unfoldable pub hex_digit : ℕ → ℕ
hex_digit n = if ltb n 10 then 48 + n else 87 + n

unfoldable pub to_hex_string : List ℕ → List ℕ
unfolding hex_digit
to_hex_string [] = []
to_hex_string (b ∷ bytes) = hex_digit (b / 16) ∷ hex_digit (b % 16) ∷ to_hex_string bytes

-- The value of a digit to the base 16, in either case.
unfoldable pub hex_value : ℕ → Option ℕ
hex_value c =
    if leb 48 c && leb c 57
    then some (c - 48)
    else if leb 97 c && leb c 102
    then some (c - 87)
    else if leb 65 c && leb c 70
    then some (c - 55)
    else none

-- `from_str_radix` of two characters, of which the first may be a sign.
unfoldable pub hex_byte : ℕ → ℕ → Option ℕ
unfolding hex_value
hex_byte c1 c2 = do
  lo ← hex_value c2
  if c1 == b'+' then some lo else (hex_value c1 >>= λ hi. some (hi * 16 + lo))

-- `none` is an error: an odd number of characters, or one that is no digit.
unfoldable pub from_hex_string : List ℕ → Option (List ℕ)
unfolding hex_byte
from_hex_string [] = some []
from_hex_string (c1 ∷ []) = none
from_hex_string (c1 ∷ c2 ∷ s) = do
  byte ← hex_byte c1 c2
  rest ← from_hex_string s
  some (byte ∷ rest)
