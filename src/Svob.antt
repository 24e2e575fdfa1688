-- ===== src/Svob.antt =====
-- The struct `SimpleVob` of toktrie/src/svob.rs and the methods that build it, read a bit and
-- write bits. The field `data: Vec<u32>` is `words` here. A panic is `none`.
pub mod View
pub mod Bit
pub mod Alloc
pub mod Range
pub mod Algebra
pub mod Scan
mod Tests
use llguidance.Prelude.{
  ℕ, zero, suc, ◌+◌, ◌-◌, ◌*◌, ◌/◌, ◌%◌, ◌^◌, bit_and, bit_or, Bool, true, false, Option, none,
  some, List, [], ◌∷◌, ◌++◌, map, length, get_elem?, set, replicate, leb, ltb, ◌==◌, if◌then◌else◌,
  ◌>>=◌, ◌>>◌, guard,
}
use llguidance.Prelude.Words.{u32, u32_max, bit_not, shl, shr, test_bit, count_ones}

pub record SimpleVob : Type 0 where
  pub words : List ℕ
  pub size : ℕ

-- `BITS`
abbrev pub bits : ℕ
bits = 32

unfoldable pub new : SimpleVob
new = record { words = []; size = 0 }

unfoldable pub len : SimpleVob → ℕ
len v = v.size

unfoldable pub is_empty : SimpleVob → Bool
is_empty v = v.size == 0

unfoldable pub num_words : ℕ → ℕ
num_words size = (size + bits - 1) / bits

-- `Vec::resize` after the assertion that it does not shrink the vector.
unfoldable pub resize : SimpleVob → ℕ → Option SimpleVob
unfolding num_words
resize v size = do
  let new_size = num_words size
  guard (leb (length v.words) new_size)
  some (record { words = v.words ++ replicate (new_size - length v.words) 0; size = size })

unfoldable pub alloc : ℕ → Option SimpleVob
unfolding resize new
alloc size = resize new size

unfoldable pub alloc_with_capacity : ℕ → ℕ → Option SimpleVob
unfolding resize new
alloc_with_capacity size capacity = do
  guard (leb size capacity)
  r ← resize new capacity
  some (record r { size = size })

unfoldable pub get : SimpleVob → ℕ → Option Bool
get v idx = do d ← get_elem? v.words (idx / bits); some (test_bit d (idx % bits))

unfoldable pub is_allowed : SimpleVob → ℕ → Option Bool
unfolding get
is_allowed v tok = get v tok

-- `w |= 1 << bit_idx` or `w &= !(1 << bit_idx)`
unfoldable pub set_word : ℕ → ℕ → Bool → ℕ
set_word w bit_idx true = bit_or w (2 ^ bit_idx)
set_word w bit_idx false = bit_and w (bit_not (2 ^ bit_idx))

-- The method `set`.
unfoldable pub set_bit : SimpleVob → ℕ → Bool → Option SimpleVob
unfolding set_word
set_bit v idx val = do
  w ← get_elem? v.words (idx / bits)
  some (record v { words = set v.words (idx / bits) (set_word w (idx % bits) val) })

unfoldable pub allow_token : SimpleVob → ℕ → Option SimpleVob
unfolding set_bit
allow_token v tok = set_bit v tok true

unfoldable pub disallow_token : SimpleVob → ℕ → Option SimpleVob
unfolding set_bit
disallow_token v tok = set_bit v tok false

-- The debug assertions fail, and the unchecked access is undefined, where this is `none`.
unfoldable pub allow_token_unchecked : SimpleVob → ℕ → Option SimpleVob
allow_token_unchecked v tok = do
  guard (leb tok (length v.words * bits))
  let word_idx = shr tok 5
  let bit_idx = bit_and tok 31
  w ← get_elem? v.words word_idx
  some (record v { words = set v.words word_idx (bit_or w (2 ^ bit_idx)) })

-- The loop of `clear_excessive_bits`: `rounds` tokens from `i` up.
unfoldable pub disallow_from : ℕ → ℕ → SimpleVob → Option SimpleVob
disallow_from zero i v = some v
disallow_from (suc rounds) i v = disallow_token v (u32 i) >>= disallow_from rounds (i + 1)

unfoldable pub clear_excessive_bits : SimpleVob → Option SimpleVob
unfolding disallow_from
clear_excessive_bits v = disallow_from (length v.words * 32 - v.size) v.size v

unfoldable pub set_all : SimpleVob → Bool → Option SimpleVob
unfolding clear_excessive_bits
set_all v val =
    let r = record v { words = map (λ x. if val then u32_max else 0) v.words } in
    if val then clear_excessive_bits r else some r

unfoldable pub alloc_ones : ℕ → Option SimpleVob
unfolding alloc set_all
alloc_ones size = do r ← alloc size; set_all r true

-- The loop of `from_slice`, over the elements from index `idx` on.
unfoldable pub set_slice : ℕ → List Bool → SimpleVob → Option SimpleVob
set_slice idx [] r = some r
set_slice idx (b ∷ bs) r = set_bit r idx b >>= set_slice (idx + 1) bs

unfoldable pub from_slice : List Bool → Option SimpleVob
unfolding alloc set_slice
from_slice bs = do r ← alloc (length bs); set_slice 0 bs r

unfoldable pub negated : SimpleVob → Option SimpleVob
unfolding clear_excessive_bits
negated v = clear_excessive_bits (record { words = map bit_not v.words; size = v.size })

unfoldable pub sum_ones : List ℕ → ℕ
sum_ones [] = 0
sum_ones (w ∷ ws) = count_ones w + sum_ones ws

unfoldable pub num_set : SimpleVob → ℕ
unfolding sum_ones
num_set v = sum_ones v.words

-- `self.data[i] |= mask`
unfoldable pub or_at : List ℕ → ℕ → ℕ → Option (List ℕ)
or_at ws i mask = do w ← get_elem? ws i; some (set ws i (bit_or w mask))

-- The loop `for w in (start_word + 1)..end_word { self.data[w] = !0u32 }`.
unfoldable pub fill_words : ℕ → ℕ → List ℕ → Option (List ℕ)
fill_words zero i ws = some ws
fill_words (suc rounds) i ws = do
  guard (ltb i (length ws))
  fill_words rounds (i + 1) (set ws i u32_max)

unfoldable pub range_words : List ℕ → ℕ → ℕ → Option (List ℕ)
unfolding or_at fill_words
range_words ws start end =
    let start_word = start / bits in
    let end_word = end / bits in
    let start_mask = shl u32_max (start % bits) in
    let end_mask = shr u32_max (bits - 1 - end % bits) in
    if start_word == end_word
    then or_at ws start_word (bit_and start_mask end_mask)
    else (or_at ws start_word start_mask
        >>= fill_words (end_word - (start_word + 1)) (start_word + 1)
        >>= λ ws'. or_at ws' end_word end_mask)

-- The range is `start..=end`.
unfoldable pub allow_range : SimpleVob → ℕ → ℕ → Option SimpleVob
unfolding range_words
allow_range v start end = do
  guard (ltb end (u32 v.size))
  if ltb end start
      then some v
      else (range_words v.words start end >>= λ ws. some (record v { words = ws }))
