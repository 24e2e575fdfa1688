-- ===== src/Bytes/Words.antt =====
-- Words written as bytes: `write_u32s_as_le_bytes` of toktrie/src/bytes.rs.
use llguidance.Prelude.{
  ℕ, zero, suc, ◌+◌, ◌-◌, ◌*◌, ◌/◌, ◌%◌, ◌^◌, ◌≤◌, ◌<◌, ◌≡◌, refl, sym, ◌∙◌, ap, min, true, some,
  inl, inr, List, [], ◌∷◌, ◌++◌, length, get_or, take, drop, leb, arith, Bool-cases, length-append,
  length-take, length-drop,
}
use llguidance.Bytes.{to_le_bytes, copy_from_slice, write_words, write_u32s_as_le_bytes}

get_or-append_left :
    (xs ys : List ℕ) (k : ℕ) → k < length xs → get_or (xs ++ ys) k 0 ≡ get_or xs k 0
get_or-append_left [] ys k h = absurd (omega (arith, h))
get_or-append_left (x ∷ xs) ys zero h = refl
get_or-append_left (x ∷ xs) ys (suc k) h = get_or-append_left xs ys k (omega (arith, h))

get_or-append_right : (xs ys : List ℕ) (k : ℕ) → get_or (xs ++ ys) (length xs + k) 0 ≡ get_or ys k 0
get_or-append_right [] ys k = let e : 0 + k ≡ k = omega arith in rw e refl
get_or-append_right (x ∷ xs) ys k =
    let e : suc (length xs) + k ≡ suc (length xs + k) = omega arith in
    rw e (get_or-append_right xs ys k)

get_or-take : (n k : ℕ) (xs : List ℕ) → k < n → get_or (take n xs) k 0 ≡ get_or xs k 0
get_or-take zero k xs h = absurd (omega (arith, h))
get_or-take (suc n) k [] h = refl
get_or-take (suc n) zero (x ∷ xs) h = refl
get_or-take (suc n) (suc k) (x ∷ xs) h = get_or-take n k xs (omega (arith, h))

get_or-drop : (n k : ℕ) (xs : List ℕ) → get_or (drop n xs) k 0 ≡ get_or xs (n + k) 0
get_or-drop zero k xs = let e : 0 + k ≡ k = omega arith in rw e refl
get_or-drop (suc n) k [] = refl
get_or-drop (suc n) k (x ∷ xs) =
    let e : suc n + k ≡ suc (n + k) = omega arith in rw e (get_or-drop n k xs)

-- Byte `j` of a word, the lowest one first.
abbrev pub byte_of : ℕ → ℕ → ℕ
byte_of w j = (w / 256 ^ j) % 256

get_or-to_le_bytes : (w j : ℕ) → j < 4 → get_or (to_le_bytes w) j 0 ≡ byte_of w j
get_or-to_le_bytes w zero h = omega arith
get_or-to_le_bytes w (suc zero) h = refl
get_or-to_le_bytes w (suc (suc zero)) h = refl
get_or-to_le_bytes w (suc (suc (suc zero))) h = refl
get_or-to_le_bytes w (suc (suc (suc (suc j)))) h = absurd (omega (arith, h))

-- Byte `k` of the buffer after the bytes from `start` on, before `end`, were replaced.
record Copied (dst src r : List ℕ) (start end : ℕ) : Type 0 where
  pub same_length : length r ≡ length dst
  pub before : (k : ℕ) → k < start → get_or r k 0 ≡ get_or dst k 0
  pub inside : (k : ℕ) → start + k < end → get_or r (start + k) 0 ≡ get_or src k 0
  pub after : (k : ℕ) → end ≤ k → get_or r k 0 ≡ get_or dst k 0

copy_from_slice-Copied :
    (dst src : List ℕ) (start end : ℕ)
    → start ≤ end
    → end ≤ length dst
    → end - start ≤ length src
    → (r : List ℕ) × (copy_from_slice dst start end src ≡ some r) × Copied dst src r start end
unfolding copy_from_slice
copy_from_slice-Copied dst src start end h g f =
    let e1 : leb start end ≡ true = ground arith in
    let e2 : leb end (length dst) ≡ true = ground arith in
    let e3 : leb (end - start) (length src) ≡ true = ground arith in
    (take start dst ++ (part ++ drop end dst), rw (e1, e2, e3) refl, copied)
  where
    part : List ℕ
    part = take (end - start) src

    len_first : length (take start dst) ≡ start
    len_first = omega (arith, length-take start dst, h, g)

    len_part : length part ≡ end - start
    len_part = omega (arith, length-take (end - start) src, f)

    copied : Copied dst src (take start dst ++ (part ++ drop end dst)) start end
    copied = record {
      same_length = omega (
        arith,
        length-append (take start dst) (part ++ drop end dst),
        length-append part (drop end dst),
        len_first,
        len_part,
        length-drop end dst,
        h,
        g,
      );
      before = λ k l.
          get_or-append_left (take start dst) (part ++ drop end dst) k (omega (arith, l, len_first))
          ∙ get_or-take start k dst l;
      inside = λ k l.
          ap (λ n. get_or (take start dst ++ (part ++ drop end dst)) (n + k) 0) (sym len_first)
          ∙ get_or-append_right (take start dst) (part ++ drop end dst) k
          ∙ get_or-append_left part (drop end dst) k (omega (arith, l, len_part))
          ∙ get_or-take (end - start) k src (omega (arith, l));
      after = λ k l.
          let m = k - end in
          let place : k ≡ length (take start dst) + (length part + m) =
            omega (arith, len_first, len_part, l, h) in
          let back : end + m ≡ k = omega (arith, l) in
          ap (λ n. get_or (take start dst ++ (part ++ drop end dst)) n 0) place
          ∙ get_or-append_right (take start dst) (part ++ drop end dst) (length part + m)
          ∙ get_or-append_right part (drop end dst) m
          ∙ get_or-drop end m dst
          ∙ ap (λ n. get_or dst n 0) back;
    }

-- The buffer after the words were written from byte `4 * i` on, as far as there is room.
record WrittenFrom (i : ℕ) (words dst r : List ℕ) : Type 0 where
  pub same_length : length r ≡ length dst
  pub kept_before : (k : ℕ) → k < i * 4 → get_or r k 0 ≡ get_or dst k 0
  pub bytes :
      (k j : ℕ)
      → k < length words
      → j < 4
      → (i + k) * 4 + j < length dst
      → get_or r ((i + k) * 4 + j) 0 ≡ byte_of (get_or words k 0) j
  pub kept_after : (k : ℕ) → (i + length words) * 4 ≤ k → get_or r k 0 ≡ get_or dst k 0

write_words-WrittenFrom :
    (i : ℕ) (words dst : List ℕ)
    → (r : List ℕ) × (write_words i words dst ≡ some r) × WrittenFrom i words dst r
unfolding write_words
write_words-WrittenFrom i [] dst = (
  dst,
  refl,
  record {
    same_length = refl;
    kept_before = λ k l. refl;
    bytes = λ k j l. absurd (omega (arith, l));
    kept_after = λ k l. refl;
  },
)
write_words-WrittenFrom i (w ∷ words) dst = elim (Bool-cases (leb (length dst) (i * 4))) [
  | inl e ↦
      rw (e, write_words)
        (
          dst,
          refl,
          record {
            same_length = refl;
            kept_before = λ k l. refl;
            bytes = λ k j l m g. absurd (ground (arith, e, g));
            kept_after = λ k l. refl;
          },
        )
  | inr e ↦
      let room : i * 4 < length dst = ground (arith, e) in
      let (dst1, f, c) =
        copy_from_slice-Copied dst (to_le_bytes w) (i * 4) (min (i * 4 + 4) (length dst))
          (omega (arith, room)) (omega arith) (omega arith) in
      let (r, g, d) = write_words-WrittenFrom (i + 1) words dst1 in
      rw (e, write_words) (r, rw f g, write_step i w words dst dst1 r c d)
]
  where
    write_step :
        (i w : ℕ) (words dst dst1 r : List ℕ)
        → Copied dst (to_le_bytes w) dst1 (i * 4) (min (i * 4 + 4) (length dst))
        → WrittenFrom (i + 1) words dst1 r
        → WrittenFrom i (w ∷ words) dst r
    write_step i w words dst dst1 r c d = record {
      same_length = d.same_length ∙ c.same_length;
      kept_before = λ k l. d.kept_before k (omega (arith, l)) ∙ c.before k l;
      bytes = λ k j.
          elim k
            as (λ k.
              k < suc (length words)
              → j < 4
              → (i + k) * 4 + j < length dst
              → get_or r ((i + k) * 4 + j) 0 ≡ byte_of (get_or (w ∷ words) k 0) j) [
                | zero ↦ λ l m g.
                    let place : (i + 0) * 4 + j ≡ i * 4 + j = omega arith in
                    rw place (
                      d.kept_before (i * 4 + j) (omega (arith, m))
                      ∙ c.inside j (omega (arith, g, m))
                      ∙ get_or-to_le_bytes w j m)
                | suc k ↦ λ l m g.
                    let place : (i + suc k) * 4 + j ≡ (i + 1 + k) * 4 + j = omega arith in
                    rw place (d.bytes k j (omega (arith, l)) m (omega (arith, g, c.same_length)))
              ];
      kept_after = λ k l. d.kept_after k (omega (arith, l)) ∙ c.after k (omega (arith, l));
    }

-- The buffer after the words were written: a byte of a word stands at four times its index, the lowest
-- byte first, and what lies behind the words is as it was.
pub record Written (words dst r : List ℕ) : Type 0 where
  pub same_length : length r ≡ length dst
  pub bytes :
      (k j : ℕ)
      → k < length words
      → j < 4
      → k * 4 + j < length dst
      → get_or r (k * 4 + j) 0 ≡ (get_or words k 0 / 256 ^ j) % 256
  pub kept : (k : ℕ) → length words * 4 ≤ k → get_or r k 0 ≡ get_or dst k 0

-- Writing words into a buffer succeeds: no slice is out of range. The length of the buffer stays the
-- same; byte `j` of word `k`, the lowest one first, is at `4 * k + j` where there is room; and the bytes
-- behind the words are as they were.
pub write_u32s_as_le_bytes-Written :
    (words dst : List ℕ)
    → (r : List ℕ) × (write_u32s_as_le_bytes words dst ≡ some r) × Written words dst r
unfolding write_u32s_as_le_bytes
write_u32s_as_le_bytes-Written words dst =
    let (r, e, d) = write_words-WrittenFrom 0 words dst in
    (
      r,
      e,
      record {
        same_length = d.same_length;
        bytes = λ k j l m g.
            let place : k * 4 + j ≡ (0 + k) * 4 + j = omega arith in
            ap (λ n. get_or r n 0) place ∙ d.bytes k j l m (omega (arith, g));
        kept = λ k l. d.kept_after k (omega (arith, l));
      },
    )
