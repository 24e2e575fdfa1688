-- ===== src/Json/Numeric.antt =====
-- `rx_int_range` of parser/src/json/numeric.rs: a regular expression for the integers of a range. An
-- error and a panic are `none`.
pub mod Digits
pub mod Parts
pub mod Alternatives
pub mod Range
pub mod Unbounded
pub mod Signed
pub mod Open
pub mod Full
use llguidance.Prelude.{
  ℕ, zero, suc, ◌+◌, ◌-◌, ◌*◌, ◌/◌, ◌%◌, ◌^◌, Bool, true, false, not, ◌&&◌, ◌||◌, Option, none,
  some, List, [], ◌∷◌, ◌++◌, length, leb, ltb, ◌==◌, if◌then◌else◌, ◌>>=◌, ◌>>◌, guard,
}
use llguidance.Trie.Decode.{decimal}
use llguidance.Json.Regex.{Regex, text, class, repeat, optional, group, both, or, mk_or}

-- `i64`: `negsuc n` is -(n + 1).
pub data ℤ : Type 0 where
  pos negsuc : ℕ → ℤ

abbrev pub i64_max : ℕ
i64_max = 2 ^ 63 - 1

unfoldable pub num_digits : ℕ → ℕ
unfolding decimal
num_digits n = length (decimal n)

-- The digits but the last one, and the last one.
abbrev pub pref : ℕ → List ℕ
pref n = if ltb n 10 then [] else decimal (n / 10)

abbrev pub last_digit : ℕ → ℕ
last_digit n = 48 + n % 10

abbrev pub when : Bool → Regex → List Regex
when b p = if b then p ∷ [] else []

abbrev pub left_part : ℕ → List Regex
left_part left =
    when (not (left % 10 == 0)) (both (text (pref left)) (class (last_digit left) b'9'))

abbrev pub right_part : ℕ → List Regex
right_part right =
    when (not (right % 10 == 9)) (both (text (pref right)) (class b'0' (last_digit right)))

abbrev pub left_rec : ℕ → ℕ
left_rec left = if left % 10 == 0 then left / 10 else left / 10 + 1

abbrev pub right_rec : ℕ → ℕ
right_rec right = if right % 10 == 9 then right / 10 else right / 10 - 1

abbrev pub inner_part : Option Regex → Option (List Regex)
inner_part inner = inner >>= λ p. some (both p (class b'0' b'9') ∷ [])

-- The case of two bounds from 0 on, by recursion on fuel.
unfoldable pub rx_range : ℕ → ℕ → ℕ → Option Regex
unfolding num_digits mk_or
rx_range zero left right = none
rx_range (suc fuel) left right = elim (ltb right left) [
  | true ↦ none
  | false ↦ elim (num_digits left == num_digits right) [
    | false ↦ do
      p ← rx_range fuel left (10 ^ num_digits left - 1)
      q ← rx_range fuel (10 ^ num_digits left - 1 + 1) right
      some (mk_or (p ∷ q ∷ []))
    | true ↦ elim (left == right) [
      | true ↦ some (group (text (decimal left)))
      | false ↦ elim (left / 10 == right / 10) [
        | true ↦ some (group (both (text (pref left)) (class (last_digit left) (last_digit right))))
        | false ↦ do
          guard (ltb (left / 10) (right / 10))
          rest ← elim (leb (left_rec left) (right_rec right)) [
            | true ↦ inner_part (rx_range fuel (left_rec left) (right_rec right))
            | false ↦ some []
          ]
          some (mk_or (left_part left ++ (right_part right ++ rest)))
      ]
    ]
  ]
]

abbrev pub enough : ℕ → ℕ → ℕ
enough left right = suc (right + (right - left))

unfoldable pub rx_bounded : ℕ → ℕ → Option Regex
unfolding rx_range
rx_bounded left right = rx_range (enough left right) left right

-- A negative bound without its sign; `-left` overflows at the least number.
abbrev pub opposite : ℕ → Option ℕ
opposite n = if leb (n + 1) i64_max then some (n + 1) else none

abbrev pub minus : Regex → Regex
minus p = both (text (b'-' ∷ [])) p

-- `9…9` in as many digits as the bound has; it has to fit `i64`.
abbrev pub max_value : ℕ → Option ℕ
max_value left = do guard (leb (10 ^ num_digits left - 1) i64_max); some (10 ^ num_digits left - 1)

-- The range from a bound that is not negative, without a bound above.
unfoldable pub rx_from : ℕ → Option Regex
unfolding rx_bounded
rx_from left = do
  right ← max_value left
  p ← rx_bounded left right
  some (mk_or (p ∷ both (class b'1' b'9') (repeat b'0' b'9' (num_digits left)) ∷ []))

-- The range between two negative bounds.
unfoldable pub rx_negative : ℕ → ℕ → Option Regex
unfolding rx_bounded
rx_negative left right = do
  r ← opposite right
  l ← opposite left
  p ← rx_bounded r l
  some (group (minus p))

abbrev pub any_integer : Regex
any_integer =
    both (optional (text (b'-' ∷ [])))
      (group (or (text (b'0' ∷ [])) (both (class b'1' b'9') (repeat b'0' b'9' 0))))

unfoldable pub rx_int_range : Option ℤ → Option ℤ → Option Regex
unfolding rx_bounded rx_from rx_negative
rx_int_range none none = some any_integer
rx_int_range (some (negsuc left)) none = do
  p ← rx_negative left 0
  q ← rx_from 0
  some (mk_or (p ∷ q ∷ []))
rx_int_range (some (pos left)) none = rx_from left
rx_int_range none (some (pos right)) = do
  p ← rx_bounded 0 right
  q ← rx_from 1
  some (mk_or (p ∷ minus q ∷ []))
rx_int_range none (some (negsuc right)) = do n ← opposite right; p ← rx_from n; some (minus p)
rx_int_range (some (negsuc left)) (some (negsuc right)) = rx_negative left right
rx_int_range (some (negsuc left)) (some (pos right)) = do
  l ← opposite left
  p ← rx_bounded 0 l
  q ← rx_bounded 0 right
  some (group (or (minus p) q))
rx_int_range (some (pos left)) (some (negsuc right)) = none
rx_int_range (some (pos left)) (some (pos right)) = rx_bounded left right
