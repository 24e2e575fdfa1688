-- ===== src/Stop/Utf8.antt =====
-- `valid_utf8_len` of parser/src/stop_controller.rs.
use llguidance.Prelude.{
  ℕ, zero, suc, ◌+◌, ◌-◌, ◌≤◌, Bool, true, false, List, [], ◌∷◌, length, get_or, leb, ◌==◌,
  if◌then◌else◌, bit_and, arith,
}

-- A continuation byte, `0b10xxxxxx`.
abbrev pub is_continuation : ℕ → Bool
is_continuation b = bit_and b 0b1100_0000 == 0b1000_0000

-- `while i > 0 && …(buf[i]) { i -= 1; }`
unfoldable pub find_start : List ℕ → ℕ → ℕ
find_start buf zero = zero
find_start buf (suc i) = elim (is_continuation (get_or buf (suc i) 0)) [
  | true ↦ find_start buf i
  | false ↦ suc i
]

unfoldable pub expected_len : ℕ → ℕ
expected_len first_byte =
    if bit_and first_byte 0b1000_0000 == 0
    then 1
    else if bit_and first_byte 0b1110_0000 == 0b1100_0000
    then 2
    else if bit_and first_byte 0b1111_0000 == 0b1110_0000
    then 3
    else if bit_and first_byte 0b1111_1000 == 0b1111_0000
    then 4
    else 1

unfoldable pub valid_utf8_len : List ℕ → ℕ
unfolding find_start expected_len
valid_utf8_len [] = 0
valid_utf8_len (b ∷ bs) =
    let buf = b ∷ bs in
    let i = find_start buf (length buf - 1) in
    let len = expected_len (get_or buf i 0) in if leb (i + len) (length buf) then i + len else i

pub find_start-le : (buf : List ℕ) (i : ℕ) → find_start buf i ≤ i
unfolding find_start
find_start-le buf zero = omega arith
find_start-le buf (suc i) = ground (arith, find_start-le buf i)

pub valid_utf8_len-le : (buf : List ℕ) → valid_utf8_len buf ≤ length buf
unfolding valid_utf8_len
valid_utf8_len-le [] = omega arith
valid_utf8_len-le (b ∷ bs) = let h = find_start-le (b ∷ bs) (length (b ∷ bs) - 1) in ground arith
