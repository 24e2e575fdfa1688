-- ===== src/Bytes/Tests.antt =====
-- The theorems about byte strings at concrete inputs.
use llguidance.Prelude.{◌≡◌, some, [], ◌∷◌, arith}
use llguidance.Prelude.{ℕ, List, refl}
use llguidance.Bytes.{
  to_hex_string, from_hex_string, copy_from_slice, write_words, write_u32s_as_le_bytes,
}
use llguidance.Bytes.Laws.{from_hex_string-to_hex_string}
use llguidance.Bytes.Words.{Written, write_u32s_as_le_bytes-Written}

from_hex_string-to_hex_string_example :
    from_hex_string (to_hex_string (0x0f ∷ 0xa5 ∷ [])) ≡ some (0x0f ∷ 0xa5 ∷ [])
from_hex_string-to_hex_string_example =
    from_hex_string-to_hex_string (0x0f ∷ 0xa5 ∷ []) (omega arith, (omega arith, tt))

write_u32s_as_le_bytes-Written_example :
    (r : List ℕ) × (write_u32s_as_le_bytes
        (0x0403_0201 ∷ 0x0807_0605 ∷ [])
        (0 ∷ 0 ∷ 0 ∷ 0 ∷ 0 ∷ 0 ∷ [])
      ≡ some r)
    × Written (0x0403_0201 ∷ 0x0807_0605 ∷ []) (0 ∷ 0 ∷ 0 ∷ 0 ∷ 0 ∷ 0 ∷ []) r
write_u32s_as_le_bytes-Written_example =
    write_u32s_as_le_bytes-Written (0x0403_0201 ∷ 0x0807_0605 ∷ []) (0 ∷ 0 ∷ 0 ∷ 0 ∷ 0 ∷ 0 ∷ [])

-- The second word is cut off, and the third one is not reached.
written_six :
    write_u32s_as_le_bytes (0x0403_0201 ∷ 0x0807_0605 ∷ 9 ∷ []) (0 ∷ 0 ∷ 0 ∷ 0 ∷ 0 ∷ 0 ∷ [])
    ≡ some (1 ∷ 2 ∷ 3 ∷ 4 ∷ 5 ∷ 6 ∷ [])
unfolding write_u32s_as_le_bytes write_words copy_from_slice
written_six = refl
