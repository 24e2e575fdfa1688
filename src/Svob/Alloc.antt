-- ===== src/Svob/Alloc.antt =====
-- The allocation of toktrie/src/svob.rs: `new`, `alloc`, `alloc_with_capacity`, `alloc_ones`,
-- `resize`, `set_all`, `negated`, and the clearing of the bits past the size.
use llguidance.Prelude.{
  ℕ, zero, suc, ◌+◌, ◌-◌, ◌*◌, ◌/◌, ◌%◌, ◌^◌, ◌≤◌, ◌<◌, ◌≡◌, refl, ap, sym, ◌∙◌, Bool, true, false,
  not, ◌&&◌, some, List, [], ◌∷◌, ◌++◌, map, length, get_or, replicate, arith, leb, ltb, get_or-map,
  length-map, length-append, length-replicate,
}
use llguidance.Prelude.Words.{
  u32_max, bit_not, test_bit, test_bit-bit_not, test_bit-u32_max, test_bit-zero,
}
use llguidance.Svob.{
  SimpleVob, new, num_words, resize, alloc_with_capacity, disallow_token, disallow_from,
  clear_excessive_bits, set_all, alloc_ones, negated,
}
use llguidance.Svob.View.{
  AreWords-get_or, AreWords-map, AreWords-append_zeros, get_or-append_zeros, IsValid, bit_at,
  contains, Updates, words-IsValid, contains-bit_at, bit_at_beyond,
}
use llguidance.Svob.Bit.{disallow_token-Updates}

-- `resize` to a size that needs no fewer words keeps the tokens, and adds none.
pub resize-keeps :
    (v : SimpleVob) (size : ℕ)
    → IsValid v
    → length v.words ≤ num_words size
    → num_words size * 32 ≤ 2 ^ 32
    → (r : SimpleVob) × (resize v size ≡ some r)
      × IsValid r
      × (r.size ≡ size)
      × (length r.words ≡ num_words size)
      × ((j : ℕ) → contains r j ≡ contains v j)
unfolding contains bit_at
resize-keeps v size h k l =
    let n = num_words size - length v.words in
    let e : length (v.words ++ replicate n 0) ≡ num_words size =
      omega (arith, length-append v.words (replicate n 0), length-replicate n (zero)) in
    (
      record { words = v.words ++ replicate n 0; size = size },
      unfold resize in ground arith,
      record {
        in_u32 = AreWords-append_zeros v.words n h.in_u32;
        covers = unfold num_words in omega (arith, e);
        indexable = omega (arith, e);
      },
      refl,
      e,
      λ j. ap (λ t. test_bit t (j % 32)) (get_or-append_zeros v.words n (j / 32)),
    )

new-IsValid : IsValid new
unfolding new
new-IsValid = record { in_u32 = tt; covers = omega arith; indexable = omega arith }

-- `alloc_with_capacity` gives an empty set of the size, with words for the capacity.
pub alloc_with_capacity-empty :
    (size capacity : ℕ)
    → size ≤ capacity
    → num_words capacity * 32 ≤ 2 ^ 32
    → (r : SimpleVob) × (alloc_with_capacity size capacity ≡ some r)
      × IsValid r
      × (r.size ≡ size)
      × (capacity ≤ length r.words * 32)
      × ((j : ℕ) → contains r j ≡ false)
alloc_with_capacity-empty size capacity h l =
    let (r, e, valid, s, w, same) =
      resize-keeps new capacity new-IsValid (unfold new in omega arith) l in
    (
      record r { size = size },
      unfold alloc_with_capacity in ground arith,
      record {
        in_u32 = valid.in_u32;
        covers = omega (arith, valid.covers, s);
        indexable = valid.indexable;
      },
      refl,
      omega (arith, valid.covers, s),
      λ j. unfold contains in sym (contains-bit_at r j) ∙ same j ∙ empty j,
    )
  where
    empty : (j : ℕ) → contains new j ≡ false
    empty j = unfold contains bit_at new in test_bit-zero (j % 32)

disallow_from-Updates :
    (rounds i : ℕ) (v : SimpleVob)
    → IsValid v
    → i + rounds ≤ length v.words * 32
    → Updates v
        (disallow_from rounds i v)
        (λ j. contains v j && not (leb i j && ltb j (i + rounds)))
disallow_from-Updates zero i v h k = record {
  out = v;
  returns = unfold disallow_from in refl;
  valid = h;
  same_size = refl;
  same_words = refl;
  reads = λ j. ground arith;
}
disallow_from-Updates (suc rounds) i v h k =
    let first = disallow_token-Updates v i h (omega arith) in
    let rest =
      disallow_from-Updates rounds (i + 1) first.out first.valid
        (omega (arith, first.same_words)) in
    record {
      out = rest.out;
      returns = step first.out first.returns ∙ rest.returns;
      valid = rest.valid;
      same_size = rest.same_size ∙ first.same_size;
      same_words = rest.same_words ∙ first.same_words;
      reads = λ j. rest.reads j ∙ ground (arith, first.reads j);
    }
  where
    step :
        (out : SimpleVob)
        → disallow_token v i ≡ some out
        → disallow_from (suc rounds) i v ≡ disallow_from rounds (i + 1) out
    step out e =
        let small : i % 2 ^ 32 ≡ i = omega (arith, h.indexable) in
        unfold disallow_from in rw (small, e) refl

-- The clean-up removes the tokens from the size on, and no other.
pub clear_excessive_bits-Updates :
    (v : SimpleVob)
    → IsValid v
    → Updates v (clear_excessive_bits v) (λ j. ltb j v.size && contains v j)
clear_excessive_bits-Updates v h =
    let r =
      disallow_from-Updates (length v.words * 32 - v.size) v.size v h (omega (arith, h.covers)) in
    record {
      out = r.out;
      returns = unfold clear_excessive_bits in r.returns;
      valid = r.valid;
      same_size = r.same_size;
      same_words = r.same_words;
      reads = λ j. r.reads j ∙ in_words j;
    }
  where
    in_words :
        (j : ℕ)
        → (contains v j && not (leb v.size j && ltb j (v.size + (length v.words * 32 - v.size))))
          ≡ (ltb j v.size && contains v j)
    in_words j = unfold contains in ground (arith, bit_at_beyond v.words j, h.covers)

-- `negated` is the complement within the size, with no token past it.
pub negated-Updates :
    (v : SimpleVob) → IsValid v → Updates v (negated v) (λ j. ltb j v.size && not (contains v j))
negated-Updates v h =
    let flipped = record v { words = map bit_not v.words } in
    let valid : IsValid flipped =
      words-IsValid v (map bit_not v.words) h
        (AreWords-map bit_not v.words (λ w k. unfold bit_not in omega arith) h.in_u32)
        (length-map bit_not v.words) in
    let r = clear_excessive_bits-Updates flipped valid in
    record {
      out = r.out;
      returns = unfold negated in r.returns;
      valid = r.valid;
      same_size = r.same_size;
      same_words = r.same_words ∙ length-map bit_not v.words;
      reads = λ j. r.reads j ∙ ground (arith, flip j);
    }
  where
    flip :
        (j : ℕ)
        → j < v.size
        → contains (record v { words = map bit_not v.words }) j ≡ not (contains v j)
    flip j k =
        unfold contains bit_at in
        rw (get_or-map bit_not v.words (j / 32) 0 0 (omega (arith, h.covers))) (
          test_bit-bit_not (get_or v.words (j / 32) 0) (j % 32)
            (AreWords-get_or v.words (j / 32) h.in_u32) (omega arith))

filled-IsValid :
    (v : SimpleVob) (w : ℕ)
    → w < 2 ^ 32
    → IsValid v
    → IsValid (record v { words = map (λ _. w) v.words })
filled-IsValid v w k h =
    words-IsValid v (map (λ _. w) v.words) h (AreWords-map (λ _. w) v.words (λ _ _. k) h.in_u32)
      (length-map (λ _. w) v.words)

-- `set_all` makes the set all the tokens below the size, or empty.
pub set_all-Updates :
    (v : SimpleVob) (val : Bool) → IsValid v → Updates v (set_all v val) (λ j. val && ltb j v.size)
set_all-Updates v true h =
    let r =
      clear_excessive_bits-Updates (record v { words = map (λ _. u32_max) v.words })
        (filled-IsValid v u32_max (omega arith) h) in
    record {
      out = r.out;
      returns = unfold set_all in r.returns;
      valid = r.valid;
      same_size = r.same_size;
      same_words = r.same_words ∙ length-map (λ _. u32_max) v.words;
      reads = λ j. r.reads j ∙ ground (arith, full j);
    }
  where
    full :
        (j : ℕ) → j < v.size → contains (record v { words = map (λ _. u32_max) v.words }) j ≡ true
    full j k =
        unfold contains bit_at in
        rw (get_or-map (λ _. u32_max) v.words (j / 32) 0 0 (omega (arith, h.covers)))
          (test_bit-u32_max (j % 32) (omega arith))
set_all-Updates v false h = record {
  out = record v { words = map (λ _. 0) v.words };
  returns = unfold set_all in refl;
  valid = filled-IsValid v 0 (omega arith) h;
  same_size = refl;
  same_words = length-map (λ _. 0) v.words;
  reads = λ j. none_left j;
}
  where
    zeros : (ws : List ℕ) (i : ℕ) → get_or (map (λ (_ : ℕ). zero) ws) i zero ≡ zero
    zeros [] i = refl
    zeros (w ∷ ws) zero = refl
    zeros (w ∷ ws) (suc i) = zeros ws i

    none_left : (j : ℕ) → contains (record v { words = map (λ _. 0) v.words }) j ≡ false
    none_left j = unfold contains bit_at in rw (zeros v.words (j / 32)) (test_bit-zero (j % 32))

-- `alloc_ones` holds every token below the size and no other.
pub alloc_ones-full :
    (size : ℕ)
    → num_words size * 32 ≤ 2 ^ 32
    → (r : SimpleVob) × (alloc_ones size ≡ some r)
      × IsValid r
      × (r.size ≡ size)
      × ((j : ℕ) → contains r j ≡ ltb j size)
alloc_ones-full size l =
    let (r, e, valid, s, w, same) =
      resize-keeps new size new-IsValid (unfold new in omega arith) l in
    let ones = set_all-Updates r true valid in
    (
      ones.out,
      unfold alloc_ones in rw e ones.returns,
      ones.valid,
      ones.same_size ∙ s,
      λ j. ones.reads j ∙ ap (ltb j) s,
    )
