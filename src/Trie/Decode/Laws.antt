-- ===== src/Trie/Decode/Laws.antt =====
-- `token_len` of toktrie/src/toktree.rs against `decode_raw`.
use llguidance.Prelude.{
  ℕ, zero, suc, ◌+◌, ◌/◌, ◌%◌, ◌≤◌, ◌<◌, ◌≡◌, inl, inr, refl, ◌∙◌, ap, true, false, ◌||◌, some,
  List, [], ◌∷◌, length, leb, ltb, arith, Bool-cases, length-append, lt→ltb,
}
use mathlib.Core.List.{append-nil}
use native.Mathlib.Decide.{dec_lt}
use llguidance.Trie.{TokTrie, token, special_token_marker}
use llguidance.Trie.Decode.{
  digits, decimal, bracketed, count_digits, is_empty_token, has_marker, raw_piece, decode_raw,
  token_len,
}

digits-small : (fuel n : ℕ) → n < 10 → length (digits (suc fuel) n) ≡ 1
unfolding digits
digits-small fuel n h = rw (lt→ltb n 10 h, length, digits) refl

digits-large :
    (fuel n : ℕ) → 10 ≤ n → length (digits (suc fuel) n) ≡ length (digits fuel (n / 10)) + 1
unfolding digits
digits-large fuel n h =
    let e : ltb n 10 ≡ false = ground arith in
    rw (e, length, digits) (length-append (digits fuel (n / 10)) ((48 + n % 10) ∷ []))

count_digits-small : (k n len : ℕ) → n < 10 → count_digits k n len ≡ some len
unfolding count_digits
count_digits-small zero n len h = ground arith
count_digits-small (suc k) n len h =
    let e : leb 10 n ≡ false = ground arith in rw (e, count_digits) refl

count_digits-large :
    (k n len : ℕ) → 10 ≤ n → count_digits (suc k) n len ≡ count_digits k (n / 10) (len + 1)
unfolding count_digits
count_digits-large k n len h = let e : leb 10 n ≡ true = ground arith in rw (e, count_digits) refl

-- The loop counts the digits that are written.
count_digits-digits :
    (k fuel n len : ℕ)
    → n < fuel
    → n ≤ k
    → (out : ℕ) × (count_digits k n len ≡ some out) × (out + 1 ≡ len + length (digits fuel n))
count_digits-digits k zero n len h g = absurd (omega arith)
count_digits-digits zero (suc fuel) n len h g = (
  len,
  count_digits-small 0 n len (omega arith),
  omega (arith, digits-small fuel n (omega arith)),
)
count_digits-digits (suc k) (suc fuel) n len h g = elim (dec_lt n 10) [
  | yes s ↦ (len, count_digits-small (suc k) n len s, omega (arith, digits-small fuel n s))
  | no l ↦
      let (out, runs, e) =
        count_digits-digits k fuel (n / 10) (len + 1) (omega arith) (omega arith) in
      (
        out,
        count_digits-large k n len (omega arith) ∙ runs,
        omega (arith, e, digits-large fuel n (omega arith)),
      )
]

length-bracketed : (idx : ℕ) → length (bracketed idx) ≡ length (digits (suc idx) idx) + 2
unfolding bracketed decimal
length-bracketed idx = omega (arith, length-append (digits (suc idx) idx) (b']' ∷ []))

-- For a token that the trie can read, `token_len` returns the number of bytes that `decode_raw` writes
-- for it, be it an ordinary, an empty or a special one.
pub token_len-decode_raw :
    (self : TokTrie) (idx : ℕ) (t : List ℕ)
    → token self idx ≡ some t
    → (raw : List ℕ) × (decode_raw self (idx ∷ []) ≡ some raw)
      × (token_len self idx ≡ some (length raw))
unfolding decode_raw token_len raw_piece
token_len-decode_raw self idx t h = elim (Bool-cases (is_empty_token t || has_marker t)) [
  | inl e ↦
      let (out, runs, count) =
        count_digits-digits idx (suc idx) idx 1 (omega arith) (omega arith) in
      let same : out + 3 ≡ suc (length (bracketed idx)) =
        omega (arith, count, length-bracketed idx) in
      (
        special_token_marker ∷ bracketed idx,
        rw h (rw e (ap (λ l. some (special_token_marker ∷ l)) (append-nil (bracketed idx)))),
        rw h (rw (e, runs) (ap some same)),
      )
  | inr e ↦ (t, rw h (rw e (ap some (append-nil t))), rw h (rw e refl))
]
