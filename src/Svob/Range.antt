-- ===== src/Svob/Range.antt =====
-- `allow_range` of toktrie/src/svob.rs: whole words inside the range, masks at its ends.
use native.Mathlib.Decide.{ℕ_discrete as dec_eq}
use llguidance.Prelude.{
  ℕ, zero, suc, ◌+◌, ◌-◌, ◌/◌, ◌%◌, ◌^◌, ◌≤◌, ◌<◌, ◌≡◌, refl, ◌∙◌, inl, inr, Bool, true, false,
  ◌&&◌, ◌||◌, Option, none, some, List, length, get_or, set, bit_and, bit_or, arith, leb, ltb, ◌==◌,
  get_elem?-eq-get_or, length-set, Bool-cases, lt→ltb, ==_iff,
}
use llguidance.Prelude.Words.{
  u32_max, test_bit, shl, shr, test_bit-bit_or, test_bit-bit_and, test_bit-u32_max,
  test_bit-shl_ones, test_bit-shr_ones, bit_or-lt_u32, bit_and-lt_u32, shl-lt, shr-le,
}
use llguidance.Svob.{SimpleVob, or_at, fill_words, range_words, allow_range}
use llguidance.Svob.View.{
  AreWords, AreWords-get_or, AreWords-set, IsValid, bit_at, contains, Updates, words-IsValid,
}
use llguidance.Svob.Bit.{bit_at-set_same, bit_at-set_other}

-- As `Updates`, for the words alone.
record WordUpdates (ws : List ℕ) (result : Option (List ℕ)) (f : ℕ → Bool) : Type 0 where
  out : List ℕ
  returns : result ≡ some out
  in_u32 : AreWords out
  same_length : length out ≡ length ws
  reads : (j : ℕ) → bit_at out j ≡ f j

or_at-WordUpdates :
    (ws : List ℕ) (k mask : ℕ)
    → AreWords ws
    → k < length ws
    → mask < 2 ^ 32
    → WordUpdates ws (or_at ws k mask) (λ j. bit_at ws j || (j / 32 == k && test_bit mask (j % 32)))
or_at-WordUpdates ws k mask u h m = record {
  out = set ws k w;
  returns = unfold or_at in rw (get_elem?-eq-get_or ws k 0 h) refl;
  in_u32 = AreWords-set ws k w u (bit_or-lt_u32 _ mask (AreWords-get_or ws k u) m);
  same_length = length-set ws k w;
  reads = reads_at;
}
  where
    w : ℕ
    w = bit_or (get_or ws k 0) mask

    same :
        (j : ℕ)
        → j / 32 ≡ k
        → test_bit w (j % 32) ≡ (bit_at ws j || (j / 32 == k && test_bit mask (j % 32)))
    same j e = unfold bit_at in rw e (test_bit-bit_or (get_or ws k 0) mask (j % 32) ∙ ground arith)

    reads_at :
        (j : ℕ) → bit_at (set ws k w) j ≡ (bit_at ws j || (j / 32 == k && test_bit mask (j % 32)))
    reads_at j = elim (dec_eq (j / 32) k) [
      | yes e ↦ bit_at-set_same ws k w j e h ∙ same j e
      | no n ↦ bit_at-set_other ws k w j n ∙ ground arith
    ]

fill_words-suc :
    (rounds i : ℕ) (ws : List ℕ)
    → i < length ws
    → fill_words (suc rounds) i ws ≡ fill_words rounds (i + 1) (set ws i u32_max)
unfolding fill_words
fill_words-suc rounds i ws h = rw (lt→ltb i (length ws) h) refl

fill_words-WordUpdates :
    (rounds i : ℕ) (ws : List ℕ)
    → AreWords ws
    → i + rounds ≤ length ws
    → WordUpdates ws
        (fill_words rounds i ws)
        (λ j. bit_at ws j || (leb i (j / 32) && ltb (j / 32) (i + rounds)))
fill_words-WordUpdates zero i ws u h = record {
  out = ws;
  returns = unfold fill_words in refl;
  in_u32 = u;
  same_length = refl;
  reads = λ j. ground arith;
}
fill_words-WordUpdates (suc rounds) i ws u h =
    let ws' = set ws i u32_max in
    let e : length ws' ≡ length ws = length-set ws i u32_max in
    let rest =
      fill_words-WordUpdates rounds (i + 1) ws' (AreWords-set ws i u32_max u (omega arith))
        (omega (arith, e)) in
    record {
      out = rest.out;
      returns = fill_words-suc rounds i ws (omega arith) ∙ rest.returns;
      in_u32 = rest.in_u32;
      same_length = rest.same_length ∙ e;
      reads = λ j. rest.reads j ∙ step j;
    }
  where
    step :
        (j : ℕ)
        → (bit_at (set ws i u32_max) j || (leb (i + 1) (j / 32) && ltb (j / 32) (i + 1 + rounds)))
          ≡ (bit_at ws j || (leb i (j / 32) && ltb (j / 32) (i + suc rounds)))
    step j = elim (dec_eq (j / 32) i) [
      | yes p ↦
          rw
            (
              bit_at-set_same ws i u32_max j p (omega arith),
              test_bit-u32_max (j % 32) (omega arith),
            )
            (ground arith)
      | no n ↦ rw (bit_at-set_other ws i u32_max j n) (ground arith)
    ]

one_word :
    (b : Bool) (start end j : ℕ)
    → start ≤ end
    → start / 32 ≡ end / 32
    → (b || (j / 32 == start / 32 && (leb (start % 32) (j % 32) && leb (j % 32) (end % 32))))
      ≡ (b || (leb start j && leb j end))
one_word b start end j h e = ground arith

many_words :
    (b : Bool) (start end j : ℕ)
    → start / 32 < end / 32
    → (((b || (j / 32 == start / 32 && leb (start % 32) (j % 32)))
          || (leb (start / 32 + 1) (j / 32)
              && ltb (j / 32) (start / 32 + 1 + (end / 32 - (start / 32 + 1)))))
        || (j / 32 == end / 32 && leb (j % 32) (end % 32)))
      ≡ (b || (leb start j && leb j end))
many_words b start end j h = ground arith

range_words-WordUpdates :
    (ws : List ℕ) (start end : ℕ)
    → AreWords ws
    → start ≤ end
    → end / 32 < length ws
    → WordUpdates ws (range_words ws start end) (λ j. bit_at ws j || (leb start j && leb j end))
range_words-WordUpdates ws start end u le h = elim (dec_eq (start / 32) (end / 32)) [
  | yes e ↦ single e
  | no n ↦ several (omega arith)
]
  where
    start_mask : ℕ
    start_mask = shl u32_max (start % 32)

    end_mask : ℕ
    end_mask = shr u32_max (31 - end % 32)

    start_bits : (i : ℕ) → i < 32 → test_bit start_mask i ≡ leb (start % 32) i
    start_bits i k = test_bit-shl_ones (start % 32) i (omega arith) k

    end_bits : (i : ℕ) → i < 32 → test_bit end_mask i ≡ leb i (end % 32)
    end_bits i k = test_bit-shr_ones (end % 32) i (omega arith) k

    single :
        start / 32 ≡ end / 32
        → WordUpdates ws (range_words ws start end) (λ j. bit_at ws j || (leb start j && leb j end))
    single e =
        let one =
          or_at-WordUpdates ws (start / 32) (bit_and start_mask end_mask) u (omega arith)
            (bit_and-lt_u32 start_mask end_mask (shl-lt u32_max (start % 32))) in
        record {
          out = one.out;
          returns = unfold range_words in rw ((==_iff (start / 32) (end / 32)).1 e) one.returns;
          in_u32 = one.in_u32;
          same_length = one.same_length;
          reads = λ j.
              one.reads j
              ∙ rw
                  (
                    test_bit-bit_and start_mask end_mask (j % 32),
                    start_bits (j % 32) (omega arith),
                    end_bits (j % 32) (omega arith),
                  )
                  (one_word (bit_at ws j) start end j le e);
        }

    several :
        start / 32 < end / 32
        → WordUpdates ws (range_words ws start end) (λ j. bit_at ws j || (leb start j && leb j end))
    several l =
        let first =
          or_at-WordUpdates ws (start / 32) start_mask u (omega arith)
            (shl-lt u32_max (start % 32)) in
        let middle =
          fill_words-WordUpdates (end / 32 - (start / 32 + 1)) (start / 32 + 1) first.out
            first.in_u32 (omega (arith, first.same_length)) in
        let last =
          or_at-WordUpdates middle.out (end / 32) end_mask middle.in_u32
            (omega (arith, first.same_length, middle.same_length))
            (omega (arith, shr-le u32_max (31 - end % 32))) in
        record {
          out = last.out;
          returns =
              unfold range_words in rw (not-eq l, first.returns) (rw (middle.returns) last.returns);
          in_u32 = last.in_u32;
          same_length = last.same_length ∙ middle.same_length ∙ first.same_length;
          reads = λ j.
              last.reads j
              ∙ rw
                  (
                    middle.reads j,
                    first.reads j,
                    start_bits (j % 32) (omega arith),
                    end_bits (j % 32) (omega arith),
                  )
                  (many_words (bit_at ws j) start end j l);
        }
      where
        not-eq : start / 32 < end / 32 → (start / 32 == end / 32) ≡ false
        not-eq p = ground arith

-- For a range that ends below the size, `allow_range` adds just the tokens of the range.
pub allow_range-Updates :
    (v : SimpleVob) (start end : ℕ)
    → IsValid v
    → v.size < 2 ^ 32
    → end < v.size
    → Updates v (allow_range v start end) (λ j. contains v j || (leb start j && leb j end))
unfolding contains
allow_range-Updates v start end h s k = elim (Bool-cases (ltb end start)) [
  | inl e ↦ record {
    out = v;
    returns = unfold allow_range in rw (in_size, e) refl;
    valid = h;
    same_size = refl;
    same_words = refl;
    reads = λ j. ground arith;
  }
  | inr e ↦
      let r =
        range_words-WordUpdates v.words start end h.in_u32 (ground arith)
          (omega (arith, h.covers)) in
      record {
        out = record v { words = r.out };
        returns = unfold allow_range in rw (in_size, e, r.returns) refl;
        valid = words-IsValid v r.out h r.in_u32 r.same_length;
        same_size = refl;
        same_words = r.same_length;
        reads = r.reads;
      }
]
  where
    in_size : ltb end (v.size % 2 ^ 32) ≡ true
    in_size = lt→ltb end (v.size % 2 ^ 32) (omega arith)

-- It panics where the range does not end below the size.
pub allow_range_panics :
    (v : SimpleVob) (start end : ℕ) → v.size ≤ end → allow_range v start end ≡ none
unfolding allow_range
allow_range_panics v start end h = rw (ge→ltb) refl
  where
    ge→ltb : ltb end (v.size % 2 ^ 32) ≡ false
    ge→ltb = ground arith
