-- ===== src/Json/Numeric/Unbounded.antt =====
-- The expressions for ranges without a bound above.
use llguidance.Prelude.{
  ℕ, zero, suc, ◌+◌, ◌-◌, ◌*◌, ◌/◌, ◌%◌, ◌^◌, ◌≤◌, ◌<◌, ◌≡◌, ◌↔◌, refl, sym, ◌∙◌, ap, ap₂, true,
  some, List, [], ◌∷◌, ◌++◌, length, leb, arith, inl, inr,
}
use mathlib.Core.List.{append_assoc, append-nil}
use mathlib.Core.Path.{subst}
use native.Mathlib.Decide.{dec_lt}
use llguidance.Trie.Decode.{decimal}
use llguidance.Json.Regex.{Regex, class, repeat, both, mk_or, Matches, all_within}
use llguidance.Json.Regex.Reads.{IsRead, mk_or-IsRead, both-IsRead, class-IsRead, repeat-IsRead}
use llguidance.Json.Regex.Laws.{AnyOf, mk_or-AnyOf}
use llguidance.Json.Numeric.{num_digits, i64_max, rx_from}
use llguidance.Json.Numeric.Digits.{
  decimal-small, decimal-large, num_digits-small, num_digits-large, num_digits-lt, num_digits-le,
  pow-grows, pow_mono,
}
use llguidance.Json.Numeric.Parts.{Describes}
use llguidance.Json.Numeric.Range.{rx_bounded-Describes}

-- Digits after a number make a number.
digits-extend :
    (n : ℕ) (ys : List ℕ)
    → 0 < n
    → all_within 48 57 ys ≡ true
    → (m : ℕ) × (0 < m) × (decimal n ++ ys ≡ decimal m) × (num_digits m ≡ num_digits n + length ys)
digits-extend n [] pos h = (n, pos, append-nil (decimal n), omega arith)
digits-extend n (y ∷ ys) pos h =
    let lo : 48 ≤ y = ground (arith, h) in
    let hi : y ≤ 57 = ground (arith, h) in
    let rest : all_within 48 57 ys ≡ true = ground (arith, h) in
    let k = 10 * n + (y - 48) in
    let q : k / 10 ≡ n = omega arith in
    let d : 48 + k % 10 ≡ y = omega arith in
    let (m, mpos, e, f) = digits-extend k ys (omega arith) rest in
    let step : decimal k ≡ decimal n ++ y ∷ [] =
      decimal-large k (omega arith) ∙ ap₂ (λ a c. decimal a ++ c ∷ []) q d in
    let len : num_digits k ≡ num_digits n + 1 =
      num_digits-large k (omega arith) ∙ ap (λ a. num_digits a + 1) q in
    (
      m,
      mpos,
      sym (append_assoc (decimal n) (y ∷ []) ys) ∙ ap (λ l. l ++ ys) (sym step) ∙ e,
      omega (arith, f, len),
    )

all_within-append :
    (a b : ℕ) (xs ys : List ℕ)
    → all_within a b xs ≡ true
    → all_within a b ys ≡ true
    → all_within a b (xs ++ ys) ≡ true
all_within-append a b [] ys h g = g
all_within-append a b (x ∷ xs) ys h g =
    let ih = all_within-append a b xs ys (ground (arith, h)) g in ground (arith, h, ih)

-- The text of a positive number starts with a digit that is not 0.
abbrev Splits : ℕ → Type 0
Splits n =
    (c : ℕ) × (ys : List ℕ) × (decimal n ≡ c ∷ ys)
    × (49 ≤ c)
    × (c ≤ 57)
    × (all_within 48 57 ys ≡ true)

decimal-Splits : (k n : ℕ) → n < k → 0 < n → Splits n
decimal-Splits zero n h pos = absurd (omega arith)
decimal-Splits (suc k) n h pos = elim (dec_lt n 10) [
  | yes s ↦ (48 + n, [], decimal-small n s, omega arith, omega arith, refl)
  | no l ↦
      let large : 10 ≤ n = omega arith in
      let (c, ys, e, lo, hi, w) = decimal-Splits k (n / 10) (omega arith) (omega arith) in
      (
        c,
        ys ++ (48 + n % 10) ∷ [],
        decimal-large n large ∙ ap (λ l. l ++ (48 + n % 10) ∷ []) e,
        lo,
        hi,
        all_within-append 48 57 ys ((48 + n % 10) ∷ []) w (ground arith),
      )
]

-- `n` digits at least, after a digit that is not 0.
abbrev pub longer : ℕ → Regex
longer n = both (class b'1' b'9') (repeat b'0' b'9' n)

-- The decimal text of a number that is not below the bound.
pub record IsFrom (left : ℕ) (s : List ℕ) : Type 0 where
  pub number : ℕ
  pub above : left ≤ number
  pub written_as : s ≡ decimal number

abbrev pub DescribesFrom : Regex → ℕ → Type 0
DescribesFrom p left = (s : List ℕ) → Matches p s ↔ IsFrom left s

pub longer_sound :
    (d : ℕ) (s : List ℕ)
    → Matches (longer d) s
    → (n : ℕ) × (0 < n) × (d < num_digits n) × (s ≡ decimal n)
unfolding Matches
longer_sound d s (xs, ys, e, (c, f, lo, hi), (len, w)) =
    let k = c - 48 in
    let (m, pos, g, i) = digits-extend k ys (omega arith) w in
    let same : 48 + k ≡ c = omega arith in
    let one = num_digits-small k (omega arith) in
    let first : decimal k ≡ xs = decimal-small k (omega arith) ∙ ap (λ x. x ∷ []) same ∙ sym f in
    (m, pos, omega (arith, i, one, len), e ∙ ap (λ l. l ++ ys) (sym first) ∙ g)

pub longer_complete : (d n : ℕ) → 0 < n → d < num_digits n → Matches (longer d) (decimal n)
unfolding Matches num_digits
longer_complete d n pos h =
    let (c, ys, e, lo, hi, w) = decimal-Splits (suc n) n (omega arith) pos in
    (c ∷ [], ys, e, (c, refl, lo, hi), (omega (arith, ap length e, h), w))

-- More digits, and not below the power of ten.
longer_iff : (left n : ℕ) → 0 < n → (num_digits left < num_digits n) ↔ (10 ^ num_digits left ≤ n)
longer_iff left n pos = (
  λ h. omega (arith, pow-grows (num_digits left) (num_digits n) h, num_digits-le n pos),
  λ h. elim (dec_lt (num_digits left) (num_digits n)) [
    | yes s ↦ s
    | no l ↦
        absurd (
          omega
            (arith, num_digits-lt n, pow_mono (num_digits n) (num_digits left) (omega arith), h))
  ],
)

from-Describes :
    (p : Regex) (left : ℕ)
    → Describes p left (10 ^ num_digits left - 1)
    → DescribesFrom (mk_or (p ∷ longer (num_digits left) ∷ [])) left
unfolding AnyOf
from-Describes p left is s =
    let a = mk_or-AnyOf (p ∷ longer (num_digits left) ∷ []) s (omega arith) in
    let fits = num_digits-lt left in
    (
      λ m. elim (a.0 m) [
        | inl x ↦
            let d = (is s).0 x in
            record { number = d.number; above = d.above; written_as = d.written_as }
        | inr y ↦ elim y [
          | inl x ↦
              let (n, pos, h, e) = longer_sound (num_digits left) s x in
              record {
                number = n;
                above = omega (arith, (longer_iff left n pos).0 h, fits);
                written_as = e;
              }
          | inr x ↦ absurd x
        ]
      ],
      λ d. a.1 (elim (dec_lt d.number (10 ^ num_digits left)) [
        | yes l ↦ inl (
            (is s).1 (record {
              number = d.number;
              above = d.above;
              below = omega arith;
              written_as = d.written_as;
            }))
        | no l ↦
            let pos : 0 < d.number = omega (arith, l, fits) in
            let len = (longer_iff left d.number pos).1 (omega arith) in
            inr (
              inl (
                subst (Matches (longer (num_digits left))) (sym d.written_as)
                  (longer_complete (num_digits left) d.number pos len)))
      ]),
    )

longer-IsRead : (n : ℕ) → IsRead (longer n)
longer-IsRead n =
    both-IsRead (class b'1' b'9') (repeat b'0' b'9' n) (class-IsRead b'1' b'9' refl refl)
      (repeat-IsRead b'0' b'9' n refl refl)

-- From a bound with fewer than 19 digits on, the function returns an expression that matches just the
-- decimal texts of the numbers that are not below the bound.
pub rx_from-Describes :
    (left : ℕ)
    → 10 ^ num_digits left - 1 ≤ i64_max
    → (p : Regex) × (rx_from left ≡ some p) × DescribesFrom p left × IsRead p
unfolding rx_from
rx_from-Describes left h =
    let fits = num_digits-lt left in
    let (p, e, is, read) = rx_bounded-Describes left (10 ^ num_digits left - 1) (omega arith) in
    let f : leb (10 ^ num_digits left - 1) i64_max ≡ true = ground arith in
    (
      mk_or (p ∷ longer (num_digits left) ∷ []),
      rw (f, e, rx_from) refl,
      from-Describes p left is,
      mk_or-IsRead (p ∷ longer (num_digits left) ∷ [])
          (read, (longer-IsRead (num_digits left), tt)),
    )
