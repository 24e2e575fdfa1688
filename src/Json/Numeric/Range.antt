-- ===== src/Json/Numeric/Range.antt =====
-- The expression for a range between two numbers matches just their decimal texts.
use llguidance.Prelude.{
  ℕ, zero, suc, ◌+◌, ◌-◌, ◌/◌, ◌%◌, ◌^◌, ◌≤◌, ◌<◌, ◌≡◌, refl, sym, ◌∙◌, ap, true, false, some, List,
  [], ◌∷◌, leb, ltb, ◌==◌, arith, inl, inr, Bool-cases,
}
use mathlib.Core.Path.{subst}
use native.Mathlib.Decide.{dec_lt}
use llguidance.Trie.Decode.{decimal}
use llguidance.Json.Regex.{Regex, text, class, group, both, mk_or, Matches}
use llguidance.Json.Regex.Laws.{AnyOf, mk_or-AnyOf}
use llguidance.Json.Numeric.{
  num_digits, pref, last_digit, left_rec, right_rec, rx_range, enough, rx_bounded,
}
use llguidance.Json.Numeric.Digits.{num_digits-lt, num_digits-apart, same-digits_large}
use llguidance.Json.Numeric.Parts.{
  Describes, last_sound, last_complete, inner_sound, inner_complete,
}
use llguidance.Json.Regex.Reads.{
  IsRead, as_alternatives, group-IsRead, mk_or-IsRead, both-IsRead, class-IsRead, last-IsRead,
  decimal-IsRead,
}
use llguidance.Json.Numeric.Alternatives.{
  parts-AllRead, widen, parts, Inner, parts_sound, parts_complete, parts-nonempty,
}

abbrev Found : ℕ → ℕ → ℕ → Type 0
Found fuel left right =
    (p : Regex) × (rx_range fuel left right ≡ some p) × Describes p left right × IsRead p

-- Bounds with different numbers of digits: the range up to the break point and the one after it.
mk_or-two :
    (p q : Regex) (left mid right : ℕ)
    → left ≤ mid
    → mid < right
    → Describes p left mid
    → Describes q (mid + 1) right
    → Describes (mk_or (p ∷ q ∷ [])) left right
unfolding AnyOf
mk_or-two p q left mid right h g lo hi s =
    let a = mk_or-AnyOf (p ∷ q ∷ []) s (omega arith) in
    (
      λ m. elim (a.0 m) [
        | inl x ↦ widen (omega arith) (omega arith) ((lo s).0 x)
        | inr y ↦ elim y [
          | inl x ↦ widen (omega arith) (omega arith) ((hi s).0 x)
          | inr x ↦ absurd x
        ]
      ],
      λ d. a.1 (elim (dec_lt mid d.number) [
        | no l ↦ inl (
            (lo s).1 (record {
              number = d.number;
              above = d.above;
              below = omega arith;
              written_as = d.written_as;
            }))
        | yes l ↦ inr (
            inl (
              (hi s).1 (record {
                number = d.number;
                above = omega arith;
                below = d.below;
                written_as = d.written_as;
              })))
      ]),
    )

one-Describes : (n : ℕ) → Describes (group (text (decimal n))) n n
unfolding Matches
one-Describes n s = (
  λ m. record { number = n; above = omega arith; below = omega arith; written_as = m },
  λ d. let same : d.number ≡ n = omega (arith, d.above, d.below) in d.written_as ∙ ap decimal same,
)

-- Bounds that differ in the last digit only.
last-Describes :
    (left right : ℕ)
    → left ≤ right
    → left / 10 ≡ right / 10
    → Describes
        (group (both (text (pref left)) (class (last_digit left) (last_digit right))))
        left
        right
unfolding Matches
last-Describes left right h e s = (
  λ m.
      widen (omega arith) (omega arith)
        (last_sound left (left % 10) (right % 10) s (omega arith) (omega arith) m),
  λ d.
      subst (Matches (both (text (pref left)) (class (last_digit left) (last_digit right))))
        (sym d.written_as)
        (last_complete left (left % 10) (right % 10) d.number (omega (arith, d.above, d.below))
          (omega (arith, d.above, d.below)) (omega (arith, d.above, d.below))),
)

parts-Describes :
    (left right : ℕ) (rest : List Regex)
    → left / 10 < right / 10
    → Inner left right rest
    → Describes (mk_or (parts left right rest)) left right
parts-Describes left right rest h (len, sound, complete) s =
    let a = mk_or-AnyOf (parts left right rest) s (parts-nonempty left right rest h len) in
    (
      λ m. parts_sound left right rest s h sound (a.0 m),
      λ d. a.1 (
          subst (AnyOf (parts left right rest)) (sym d.written_as)
            (parts_complete left right d.number rest d.above d.below complete)),
    )

-- The part for the numbers whose digits but the last are in the inner range.
both-Inner :
    (p : Regex) (left right : ℕ)
    → 10 ≤ left
    → leb (left_rec left) (right_rec right) ≡ true
    → Describes p (left_rec left) (right_rec right)
    → Inner left right (both p (class b'0' b'9') ∷ [])
unfolding AnyOf
both-Inner p left right large e is = (
  rw e refl,
  λ s a. elim a [
    | inl m ↦
        widen (ground arith) (ground arith)
          (inner_sound p (left_rec left) (right_rec right) s is (ground arith) m)
    | inr x ↦ absurd x
  ],
  λ m lo hi. inl (inner_complete p (left_rec left) (right_rec right) m is (ground arith) lo hi),
)

none-Inner : (left right : ℕ) → leb (left_rec left) (right_rec right) ≡ false → Inner left right []
unfolding AnyOf
none-Inner left right e =
    (rw e refl, λ s a. absurd a, λ m lo hi. absurd (ground (arith, e, lo, hi)))

one-Found : (fuel left : ℕ) → Found (suc fuel) left left
unfolding rx_range
one-Found fuel left =
    let e : ltb left left ≡ false = ground arith in
    let f : (num_digits left == num_digits left) ≡ true = ground arith in
    let g : (left == left) ≡ true = ground arith in
    (
      group (text (decimal left)),
      rw (e, f, g, rx_range) refl,
      one-Describes left,
      decimal-IsRead left,
    )

last-Found :
    (fuel left right : ℕ)
    → left < right
    → (num_digits left == num_digits right) ≡ true
    → left / 10 ≡ right / 10
    → Found (suc fuel) left right
unfolding rx_range
last-Found fuel left right h f k =
    let e : ltb right left ≡ false = ground arith in
    let g : (left == right) ≡ false = ground arith in
    let i : (left / 10 == right / 10) ≡ true = ground arith in
    (
      group (both (text (pref left)) (class (last_digit left) (last_digit right))),
      rw (e, f, g, i, rx_range) refl,
      last-Describes left right (omega arith) k,
      group-IsRead (both (text (pref left)) (class (last_digit left) (last_digit right)))
          (as_alternatives (last-IsRead left (left % 10) (right % 10) (omega arith) (omega arith))),
    )

none-Found :
    (fuel left right : ℕ)
    → left / 10 < right / 10
    → (num_digits left == num_digits right) ≡ true
    → leb (left_rec left) (right_rec right) ≡ false
    → Found (suc fuel) left right
unfolding rx_range
none-Found fuel left right h f j =
    let e : ltb right left ≡ false = ground arith in
    let g : (left == right) ≡ false = ground arith in
    let i : (left / 10 == right / 10) ≡ false = ground arith in
    let k : ltb (left / 10) (right / 10) ≡ true = ground arith in
    (
      mk_or (parts left right []),
      rw (e, f, g, i, k, j, rx_range) refl,
      parts-Describes left right [] h (none-Inner left right j),
      mk_or-IsRead (parts left right []) (parts-AllRead left right [] tt),
    )

inner-Found :
    (fuel left right : ℕ)
    → left / 10 < right / 10
    → (num_digits left == num_digits right) ≡ true
    → leb (left_rec left) (right_rec right) ≡ true
    → Found fuel (left_rec left) (right_rec right)
    → Found (suc fuel) left right
unfolding rx_range
inner-Found fuel left right h f j (p, found, is, read) =
    let e : ltb right left ≡ false = ground arith in
    let g : (left == right) ≡ false = ground arith in
    let i : (left / 10 == right / 10) ≡ false = ground arith in
    let k : ltb (left / 10) (right / 10) ≡ true = ground arith in
    let large = same-digits_large left right f h in
    (
      mk_or (parts left right (both p (class b'0' b'9') ∷ [])),
      rw (e, f, g, i, k, j, found, rx_range) refl,
      parts-Describes left right (both p (class b'0' b'9') ∷ []) h
          (both-Inner p left right large j is),
      mk_or-IsRead (parts left right (both p (class b'0' b'9') ∷ [])) (
          parts-AllRead left right (both p (class b'0' b'9') ∷ [])
            (both-IsRead p (class b'0' b'9') read (class-IsRead b'0' b'9' refl refl), tt)),
    )

split-Found :
    (fuel left right mid : ℕ)
    → mid ≡ 10 ^ num_digits left - 1
    → left ≤ mid
    → mid < right
    → (num_digits left == num_digits right) ≡ false
    → Found fuel left mid
    → Found fuel (mid + 1) right
    → Found (suc fuel) left right
unfolding rx_range
split-Found fuel left right mid is_mid h g f (p, found_p, is_p, read_p) (q, found_q, is_q, read_q) =
    let e : ltb right left ≡ false = ground arith in
    (
      mk_or (p ∷ q ∷ []),
      rw (e, f, ← is_mid, found_p, found_q, rx_range) refl,
      mk_or-two p q left mid right h g is_p is_q,
      mk_or-IsRead (p ∷ q ∷ []) (read_p, (read_q, tt)),
    )

rx_range-Found :
    (fuel left right : ℕ) → left ≤ right → right + (right - left) < fuel → Found fuel left right
rx_range-Found zero left right h g = absurd (omega arith)
rx_range-Found (suc fuel) left right h g = elim (Bool-cases (num_digits left == num_digits right)) [
  | inr f ↦
      let apart = num_digits-apart left right h f in
      let fits = num_digits-lt left in
      let mid = 10 ^ num_digits left - 1 in
      let lo : left ≤ mid = omega arith in
      let hi : mid < right = omega arith in
      split-Found fuel left right mid refl lo hi f (rx_range-Found fuel left mid lo (omega arith))
        (rx_range-Found fuel (mid + 1) right (omega arith) (omega arith))
  | inl f ↦ elim (dec_lt left right) [
    | no l ↦
        let same : left ≡ right = omega arith in
        subst (Found (suc fuel) left) same (one-Found fuel left)
    | yes l ↦ elim (dec_lt (left / 10) (right / 10)) [
      | no k ↦ last-Found fuel left right l f (omega arith)
      | yes k ↦ elim (Bool-cases (leb (left_rec left) (right_rec right))) [
        | inr j ↦ none-Found fuel left right k f j
        | inl j ↦ inner-Found fuel left right k f j (
            rx_range-Found fuel (left_rec left) (right_rec right) (ground (arith, j))
              (ground (arith, g, j, k)))
      ]
    ]
  ]
]

-- For bounds from 0 on, the left one not beyond the right one, the function returns an expression: the
-- fuel is enough, and no error is met. It matches just the decimal texts of the numbers from the left
-- bound to the right one, both included: no leading zeros, no number outside and none left out. The
-- text written for it reads as it, also where another expression stands before or after: every bar is
-- in a group.
pub rx_bounded-Describes :
    (left right : ℕ)
    → left ≤ right
    → (p : Regex) × (rx_bounded left right ≡ some p) × Describes p left right × IsRead p
unfolding rx_bounded
rx_bounded-Describes left right h = rx_range-Found (enough left right) left right h (omega arith)
