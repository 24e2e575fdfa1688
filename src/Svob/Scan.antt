-- ===== src/Svob/Scan.antt =====
-- The iterations of toktrie/src/svob.rs over words and bits. A closure `f` that the source calls
-- is modelled by the list of its calls, in order.
pub mod Entries
pub mod First
pub mod Trim
use llguidance.Prelude.{
  ℕ, zero, suc, ◌+◌, ◌-◌, ◌*◌, ◌/◌, ◌%◌, Bool, true, false, not, Option, none, some, List, [], ◌∷◌,
  ◌++◌, map, length, get_elem?, get_or, take, bit_and, leb, ltb, ◌==◌, if◌then◌else◌, ◌>>=◌, ◌>>◌,
  guard,
}
use llguidance.Prelude.Words.{u32, u32_max, test_bit, shr, trailing_zeros}
use llguidance.Svob.{SimpleVob, bits, is_allowed}

-- `for i in i..(i + n)`, collecting what each round yields.
unfoldable pub for_range {ℓ} : {A : Type ℓ} → (ℕ → List A) → ℕ → ℕ → List A
for_range f zero i = []
for_range f (suc n) i = f i ++ for_range f n (i + 1)

-- The calls for one word, at word index `idx`, in the three methods.
unfoldable pub set_word_entries : ℕ → ℕ → List ℕ
unfolding for_range
set_word_entries idx d =
    if d == 0
    then []
    else if d == u32_max
    then for_range (λ bit. (idx * 32 + bit) ∷ []) 32 0
    else for_range (λ bit. if test_bit d bit then (idx * 32 + bit) ∷ [] else []) 32 0

unfoldable pub unset_word_entries : ℕ → ℕ → List ℕ
unfolding for_range
unset_word_entries idx d =
    if d == 0
    then for_range (λ bit. (idx * 32 + bit) ∷ []) 32 0
    else if d == u32_max
    then []
    else for_range (λ bit. if not (test_bit d bit) then (idx * 32 + bit) ∷ [] else []) 32 0

unfoldable pub word_entries : ℕ → ℕ → List (Bool × ℕ)
unfolding for_range
word_entries idx d =
    if d == 0
    then for_range (λ bit. (false, idx * 32 + bit) ∷ []) 32 0
    else if d == u32_max
    then for_range (λ bit. (true, idx * 32 + bit) ∷ []) 32 0
    else for_range (λ bit. (test_bit d bit, idx * 32 + bit) ∷ []) 32 0

module _ {ℓ} {A : Type ℓ} where
  -- `for (idx, &d) in self.as_slice()[..max_len].iter().enumerate()`
  unfoldable pub over_words : (ℕ → ℕ → List A) → ℕ → List ℕ → List A
  over_words word idx [] = []
  over_words word idx (d ∷ ds) = word idx d ++ over_words word (idx + 1) ds

  -- `for idx in (max_len * 32)..numelts`
  unfoldable pub over_last : (Bool → ℕ → List A) → SimpleVob → ℕ → ℕ → Option (List A)
  over_last emit v zero idx = some []
  over_last emit v (suc rounds) idx = do
    b ← is_allowed v (u32 idx)
    rest ← over_last emit v rounds (idx + 1)
    some (emit b idx ++ rest)

  unfoldable pub iterate : (ℕ → ℕ → List A) → (Bool → ℕ → List A) → SimpleVob → Option (List A)
  unfolding over_words over_last
  iterate word emit v = do
    let numelts = v.size
    let max_len = numelts / 32
    guard (leb max_len (length v.words))
    last ← over_last emit v (numelts - max_len * 32) (max_len * 32)
    some (over_words word 0 (take max_len v.words) ++ last)

abbrev pub emit_set : Bool → ℕ → List ℕ
emit_set b i = if b then i ∷ [] else []

abbrev pub emit_unset : Bool → ℕ → List ℕ
emit_unset b i = if not b then i ∷ [] else []

abbrev pub emit_entry : Bool → ℕ → List (Bool × ℕ)
emit_entry b i = (b, i) ∷ []

unfoldable pub iter_set_entries : SimpleVob → Option (List ℕ)
unfolding iterate set_word_entries
iter_set_entries v = iterate set_word_entries emit_set v

unfoldable pub iter_unset_entries : SimpleVob → Option (List ℕ)
unfolding iterate unset_word_entries
iter_unset_entries v = iterate unset_word_entries emit_unset v

unfoldable pub iter_entries : SimpleVob → Option (List (Bool × ℕ))
unfolding iterate word_entries
iter_entries v = iterate word_entries emit_entry v

unfoldable pub to_list : SimpleVob → Option (List ℕ)
unfolding iter_set_entries
to_list v = do xs ← iter_set_entries v; some (map u32 xs)

-- '1' or '0' for each index below the size.
unfoldable pub bin_digits : SimpleVob → ℕ → ℕ → Option (List ℕ)
bin_digits v zero i = some []
bin_digits v (suc rounds) i = do
  b ← is_allowed v (u32 i)
  rest ← bin_digits v rounds (i + 1)
  some ((if b then b'1' else b'0') ∷ rest)

unfoldable pub to_bin_string : SimpleVob → Option (List ℕ)
unfolding bin_digits
to_bin_string v = bin_digits v v.size 0

unfoldable pub first_in : ℕ → List ℕ → Option ℕ
first_in idx [] = none
first_in idx (v ∷ vs) =
    let rest = first_in (idx + 1) vs in
    if not (v == 0) then some (idx * bits + trailing_zeros v) else rest

unfoldable pub first_bit_set : SimpleVob → Option ℕ
unfolding first_in
first_bit_set v = first_in 0 v.words

unfoldable pub first_common : ℕ → List ℕ → List ℕ → Option ℕ
first_common idx [] bs = none
first_common idx (a ∷ as') [] = none
first_common idx (a ∷ as') (b ∷ bs) =
    let rest = first_common (idx + 1) as' bs in
    if not (bit_and a b == 0) then some (idx * bits + trailing_zeros (bit_and a b)) else rest

-- The outer option is the assertion on the sizes.
unfoldable pub first_bit_set_here_and_in : SimpleVob → SimpleVob → Option (Option ℕ)
unfolding first_common
first_bit_set_here_and_in v other = do
  guard (v.size == other.size)
  some (first_common 0 v.words other.words)

pub record SimpleVobIter : Type 0 where
  pub vob : SimpleVob
  pub idx : ℕ

-- The `while` loop of `next` over the words from `dataoff` on: where the next bit is, if anywhere.
unfoldable pub next_from : List ℕ → ℕ → ℕ → Option ℕ
next_from [] bitoff dataoff = none
next_from (w ∷ ws) bitoff dataoff =
    let d = shr w bitoff in
    let rest = next_from ws 0 (dataoff + 1) in
    if not (d == 0) then some (dataoff * bits + trailing_zeros d + bitoff) else rest

unfoldable pub next : SimpleVobIter → Option ℕ × SimpleVobIter
unfolding next_from
next it =
    elim (next_from (llguidance.Prelude.drop (it.idx / bits) it.vob.words) (it.idx % bits)
      (it.idx / bits)) [ none ↦ (none, it) | some i ↦ (some (u32 i), record it { idx = i + 1 }) ]

-- `while idx > 0 && self.data[idx - 1] == 0 { idx -= 1 }`
unfoldable pub trimmed_len : List ℕ → ℕ → ℕ
trimmed_len ws zero = 0
trimmed_len ws (suc idx) =
    let rest = trimmed_len ws idx in if get_or ws idx 0 == 0 then rest else suc idx

unfoldable pub trim_trailing_zeros : SimpleVob → SimpleVob
unfolding trimmed_len
trim_trailing_zeros v =
    let idx = trimmed_len v.words (length v.words) in
    if length v.words == idx
    then v
    else (let ws = take idx v.words in record { words = ws; size = length ws * bits })
