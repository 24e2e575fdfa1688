-- ===== src/Json/Numeric/Alternatives.antt =====
-- The alternatives for a range between two numbers of the same length.
use llguidance.Prelude.{
  ℕ, ◌/◌, ◌%◌, ◌≤◌, ◌<◌, ◌≡◌, ◌⊎◌, refl, Bool, true, false, List, ◌++◌, length, leb, ◌==◌, arith,
  inl, inr, not, length-append, if◌then◌else◌,
}
use llguidance.Trie.Decode.{decimal}
use llguidance.Json.Regex.{Regex, text, class, both, Matches}
use llguidance.Json.Regex.Reads.{IsRead, AllRead, last-IsRead}
use llguidance.Json.Regex.Laws.{AnyOf, AnyOf-append}
use llguidance.Json.Numeric.{pref, last_digit, when, left_part, right_part, left_rec, right_rec}
use llguidance.Json.Numeric.Parts.{IsDecimal, last_sound, last_complete}

when-AnyOf :
    (b : Bool) (p : Regex) (s : List ℕ)
    → (AnyOf (when b p) s → Matches p s) × (b ≡ true → Matches p s → AnyOf (when b p) s)
unfolding AnyOf
when-AnyOf true p s = (λ a. elim a [ inl m ↦ m | inr x ↦ absurd x ], λ e m. inl m)
when-AnyOf false p s = (λ a. absurd a, λ e m. absurd (ground (arith, e)))

pub widen : {a b l r : ℕ} {s : List ℕ} → l ≤ a → b ≤ r → IsDecimal a b s → IsDecimal l r s
widen h g d = record {
  number = d.number;
  above = omega (arith, d.above);
  below = omega (arith, d.below);
  written_as = d.written_as;
}

abbrev pub parts : ℕ → ℕ → List Regex → List Regex
parts left right rest = left_part left ++ (right_part right ++ rest)

-- What the inner range adds to the parts.
abbrev pub Inner : ℕ → ℕ → List Regex → Type 0
Inner left right rest =
    (length rest ≡ (if leb (left_rec left) (right_rec right) then 1 else 0))
    × ((s : List ℕ) → AnyOf rest s → IsDecimal left right s)
    × ((m : ℕ) → left_rec left ≤ m / 10 → m / 10 ≤ right_rec right → AnyOf rest (decimal m))

pub parts_sound :
    (left right : ℕ) (rest : List Regex) (s : List ℕ)
    → left / 10 < right / 10
    → ((s : List ℕ) → AnyOf rest s → IsDecimal left right s)
    → AnyOf (parts left right rest) s
    → IsDecimal left right s
parts_sound left right rest s h inner a =
    elim ((AnyOf-append (left_part left) (right_part right ++ rest) s).0 a) [
      | inl x ↦ widen (omega arith) (omega arith) (
          last_sound left (left % 10) 9 s (omega arith) (omega arith) (
            (when-AnyOf (not (left % 10 == 0))
                (both (text (pref left)) (class (last_digit left) b'9')) s).0
              x))
      | inr y ↦ elim ((AnyOf-append (right_part right) rest s).0 y) [
        | inl x ↦ widen (omega arith) (omega arith) (
            last_sound right 0 (right % 10) s (omega arith) (omega arith) (
              (when-AnyOf (not (right % 10 == 9))
                  (both (text (pref right)) (class b'0' (last_digit right))) s).0
                x))
        | inr x ↦ inner s x
      ]
    ]

place :
    (left right m : ℕ)
    → left ≤ m
    → m ≤ right
    → ((not (left % 10 == 0) ≡ true) × (m / 10 ≡ left / 10) × (left % 10 ≤ m % 10))
      ⊎ (((not (right % 10 == 9) ≡ true) × (m / 10 ≡ right / 10) × (m % 10 ≤ right % 10))
          ⊎ ((left_rec left ≤ m / 10) × (m / 10 ≤ right_rec right)))
place left right m h g = ground arith

pub parts_complete :
    (left right m : ℕ) (rest : List Regex)
    → left ≤ m
    → m ≤ right
    → ((m : ℕ) → left_rec left ≤ m / 10 → m / 10 ≤ right_rec right → AnyOf rest (decimal m))
    → AnyOf (parts left right rest) (decimal m)
parts_complete left right m rest h g inner = elim (place left right m h g) [
  | inl (e, q, lo) ↦ (AnyOf-append (left_part left) (right_part right ++ rest) (decimal m)).1 (
      inl (
        (when-AnyOf (not (left % 10 == 0)) (both (text (pref left)) (class (last_digit left) b'9'))
            (decimal m)).1
          e (last_complete left (left % 10) 9 m q lo (omega arith))))
  | inr x ↦ (AnyOf-append (left_part left) (right_part right ++ rest) (decimal m)).1 (
      inr (
        (AnyOf-append (right_part right) rest (decimal m)).1 (elim x [
          | inl (e, q, hi) ↦ inl (
              (when-AnyOf (not (right % 10 == 9))
                  (both (text (pref right)) (class b'0' (last_digit right))) (decimal m)).1
                e (last_complete right 0 (right % 10) m q (omega arith) hi))
          | inr (lo, hi) ↦ inr (inner m lo hi)
        ])))
]

length-when : (b : Bool) (p : Regex) → length (when b p) ≡ (if b then 1 else 0)
length-when true p = refl
length-when false p = refl

pub parts-nonempty :
    (left right : ℕ) (rest : List Regex)
    → left / 10 < right / 10
    → length rest ≡ (if leb (left_rec left) (right_rec right) then 1 else 0)
    → 0 < length (parts left right rest)
parts-nonempty left right rest h e =
    let a = length-append (left_part left) (right_part right ++ rest) in
    let b = length-append (right_part right) rest in
    let c =
      length-when (not (left % 10 == 0)) (both (text (pref left)) (class (last_digit left) b'9')) in
    let d =
      length-when (not (right % 10 == 9))
        (both (text (pref right)) (class b'0' (last_digit right))) in
    ground (arith, a, b, c, d)

when-AllRead :
    (b : Bool) (p : Regex) (rest : List Regex)
    → IsRead p
    → AllRead rest
    → AllRead (when b p ++ rest)
when-AllRead true p rest h all = (h, all)
when-AllRead false p rest h all = all

pub parts-AllRead :
    (left right : ℕ) (rest : List Regex) → AllRead rest → AllRead (parts left right rest)
parts-AllRead left right rest all =
    when-AllRead (not (left % 10 == 0)) (both (text (pref left)) (class (last_digit left) b'9'))
      (right_part right ++ rest) (last-IsRead left (left % 10) 9 (omega arith) (omega arith))
      (when-AllRead (not (right % 10 == 9))
        (both (text (pref right)) (class b'0' (last_digit right))) rest
        (last-IsRead right 0 (right % 10) (omega arith) (omega arith)) all)
