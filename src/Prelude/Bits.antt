-- ===== src/Prelude/Bits.antt =====
-- The binary digits of a number, and what the native `bit_and` and `bit_or` do to each.
use Prim.Native.Nat.{
  ℕ, zero, suc, ◌+◌, ◌-◌, ◌*◌, ◌/◌, ◌%◌, ◌^◌, ◌≤◌, ◌<◌, min, max, bit_and, bit_or, digits, bitwise,
  bit_and-bitwise, bit_or-bitwise,
}
use mathlib.Core.Path.{◌≡◌, refl, sym, ap, ◌∙◌}
use native.Mathlib.Omega.{arith}
use native.Mathlib.Decide.{dec_le}
use native.Mathlib.Nat.{pow-suc, div-div-eq-div-mul}
use llguidance.Prelude.Tests.{◌==◌, if◌then◌else◌}

-- A native operation is a recursion on the digits with a fuel; past the first operand, more fuel
-- changes nothing.
module _ (last : ℕ → ℕ) (digit : ℕ → ℕ → ℕ) where
  one_less : (n a b : ℕ) → a ≤ n → digits last digit (suc n) a b ≡ digits last digit n a b
  one_less zero zero b h = refl
  one_less zero (suc a) b h = elim h [ ]
  one_less (suc n) zero b h = refl
  one_less (suc n) (suc a) b h =
      ap (λ t. t * 2 + digit (suc a % 2) (b % 2)) (one_less n (suc a / 2) (b / 2) (omega arith))

  least_fuel : (n a b : ℕ) → a ≤ n → digits last digit n a b ≡ bitwise last digit a b
  least_fuel zero zero b h = refl
  least_fuel zero (suc a) b h = elim h [ ]
  least_fuel (suc n) a b h = elim (dec_le a n) [
    | yes k ↦ one_less n a b k ∙ least_fuel n a b k
    | no k ↦ let e : suc n ≡ a = omega arith in ap (λ t. digits last digit t a b) e
  ]

  lowest_digit :
      (a b : ℕ)
      → 0 < a
      → bitwise last digit a b ≡ bitwise last digit (a / 2) (b / 2) * 2 + digit (a % 2) (b % 2)
  lowest_digit zero b h = elim h [ ]
  lowest_digit (suc a) b h =
      ap (λ t. t * 2 + digit (suc a % 2) (b % 2)) (least_fuel a (suc a / 2) (b / 2) (omega arith))

bit_or_step : (a b : ℕ) → bit_or a b ≡ bit_or (a / 2) (b / 2) * 2 + max (a % 2) (b % 2)
bit_or_step zero b = rw (bit_or-bitwise 0 b, bit_or-bitwise (0 / 2) (b / 2)) (omega arith)
bit_or_step (suc a) b =
    bit_or-bitwise (suc a) b
    ∙ lowest_digit (λ y. y) max (suc a) b (omega arith)
    ∙ ap (λ t. t * 2 + max (suc a % 2) (b % 2)) (sym (bit_or-bitwise (suc a / 2) (b / 2)))

bit_and_step : (a b : ℕ) → bit_and a b ≡ bit_and (a / 2) (b / 2) * 2 + min (a % 2) (b % 2)
bit_and_step zero b = rw (bit_and-bitwise 0 b, bit_and-bitwise (0 / 2) (b / 2)) (omega arith)
bit_and_step (suc a) b =
    bit_and-bitwise (suc a) b
    ∙ lowest_digit (λ y. 0) min (suc a) b (omega arith)
    ∙ ap (λ t. t * 2 + min (suc a % 2) (b % 2)) (sym (bit_and-bitwise (suc a / 2) (b / 2)))

-- The bit of `a` at index `i`, lowest first.
unfoldable pub bit : ℕ → ℕ → ℕ
bit a zero = a % 2
bit a (suc i) = bit (a / 2) i

pub bit-lt : (a i : ℕ) → bit a i < 2
unfolding bit
bit-lt a zero = omega arith
bit-lt a (suc i) = bit-lt (a / 2) i

pub bit-zero : (i : ℕ) → bit 0 i ≡ 0
unfolding bit
bit-zero zero = refl
bit-zero (suc i) = bit-zero i

pub bit-bit_or : (a b i : ℕ) → bit (bit_or a b) i ≡ max (bit a i) (bit b i)
unfolding bit
bit-bit_or a b zero = omega (arith, bit_or_step a b)
bit-bit_or a b (suc i) =
    let e : bit_or a b / 2 ≡ bit_or (a / 2) (b / 2) = omega (arith, bit_or_step a b) in
    rw e (bit-bit_or (a / 2) (b / 2) i)

pub bit-bit_and : (a b i : ℕ) → bit (bit_and a b) i ≡ min (bit a i) (bit b i)
unfolding bit
bit-bit_and a b zero = omega (arith, bit_and_step a b)
bit-bit_and a b (suc i) =
    let e : bit_and a b / 2 ≡ bit_and (a / 2) (b / 2) = omega (arith, bit_and_step a b) in
    rw e (bit-bit_and (a / 2) (b / 2) i)

-- `&` is below both of its operands.
below_both : (n a b : ℕ) → a ≤ n → (bit_and a b ≤ a) × (bit_and a b ≤ b)
below_both n zero b h =
    let e : bit_and 0 b ≡ 0 = bit_and-bitwise 0 b in (omega (arith, e), omega (arith, e))
below_both zero (suc a) b h = elim h [ ]
below_both (suc n) (suc a) b h =
    let (l, r) = below_both n (suc a / 2) (b / 2) (omega arith) in
    let e = bit_and_step (suc a) b in (omega (arith, e, l), omega (arith, e, r))

bit_and-zero : (a : ℕ) → bit_and a 0 ≡ 0
bit_and-zero a = omega (arith, (below_both a a 0 (omega arith)).1)

-- `bit_and` with a one-bit mask picks that bit out.
pub bit_and-pow : (a i : ℕ) → bit_and a (2 ^ i) ≡ bit a i * 2 ^ i
unfolding bit
bit_and-pow a zero = omega (arith, bit_and_step a 1, bit_and-zero (a / 2))
bit_and-pow a (suc i) =
    let e : 2 ^ suc i ≡ 2 * 2 ^ i = omega (arith, pow-suc 2 i) in
    let h : 2 ^ suc i / 2 ≡ 2 ^ i = omega arith in
    let g : bit_and (a / 2) (2 ^ suc i / 2) ≡ bit (a / 2) i * 2 ^ i =
      rw h (bit_and-pow (a / 2) i) in
    let k : bit (a / 2) i * 2 ^ suc i ≡ bit (a / 2) i * (2 * 2 ^ i) =
      ap (λ (t : ℕ). bit (a / 2) i * t) e in
    omega (arith, bit_and_step a (2 ^ suc i))

-- The complement in `w` bits.
pub bit-complement : (w a i : ℕ) → a < 2 ^ w → i < w → bit (2 ^ w - 1 - a) i ≡ 1 - bit a i
unfolding bit
bit-complement zero a i h k = elim k [ ]
bit-complement (suc w) a zero h k = omega (arith, pow-suc 2 w)
bit-complement (suc w) a (suc i) h k =
    let e : (2 ^ suc w - 1 - a) / 2 ≡ 2 ^ w - 1 - a / 2 = omega (arith, pow-suc 2 w) in
    rw e (bit-complement w (a / 2) i (omega (arith, pow-suc 2 w)) (omega arith))

pub bit-pow : (k i : ℕ) → bit (2 ^ k) i ≡ (if k == i then 1 else 0)
unfolding bit
bit-pow zero zero = refl
bit-pow zero (suc i) = ground (arith, bit-zero i)
bit-pow (suc k) zero = ground (arith, pow-suc 2 k)
bit-pow (suc k) (suc i) =
    let e : 2 ^ suc k / 2 ≡ 2 ^ k = omega (arith, pow-suc 2 k) in rw e (ground (arith, bit-pow k i))

pub bit_or-lt : (w a b : ℕ) → a < 2 ^ w → b < 2 ^ w → bit_or a b < 2 ^ w
bit_or-lt zero a b h k =
    let e : a ≡ 0 = omega arith in let f : b ≡ 0 = omega arith in rw (e, f) (omega arith)
bit_or-lt (suc w) a b h k = omega (
  arith,
  bit_or_step a b,
  pow-suc 2 w,
  bit_or-lt w (a / 2) (b / 2) (omega (arith, pow-suc 2 w)) (omega (arith, pow-suc 2 w)),
)

pub bit_and-le : (a b : ℕ) → bit_and a b ≤ a
bit_and-le a b = (below_both a a b (omega arith)).0

-- A word with no bit set is 0.
pub zero_of_bits : (w a : ℕ) → a < 2 ^ w → ((i : ℕ) → i < w → bit a i ≡ 0) → a ≡ 0
unfolding bit
zero_of_bits zero a h z = omega arith
zero_of_bits (suc w) a h z = omega (
  arith,
  z 0 (omega arith),
  zero_of_bits w (a / 2) (omega (arith, pow-suc 2 w)) (λ i k. z (suc i) (omega arith)),
)

pub bit_div_pow : (a s i : ℕ) → bit (a / 2 ^ s) i ≡ bit a (s + i)
unfolding bit
bit_div_pow a zero i =
    let e : a / 2 ^ 0 ≡ a = omega arith in let f : 0 + i ≡ i = omega arith in rw (e, f)
bit_div_pow a (suc s) i =
    let e : a / 2 ^ suc s ≡ a / 2 / 2 ^ s =
      ap (λ (t : ℕ). a / t) (two_pow_suc s) ∙ sym (div-div-eq-div-mul a 2 (2 ^ s)) in
    let f : suc s + i ≡ suc (s + i) = omega arith in rw (e, f) (bit_div_pow (a / 2) s i)
  where
    two_pow_suc : (s : ℕ) → 2 ^ suc s ≡ 2 * 2 ^ s
    two_pow_suc s = omega (arith, pow-suc 2 s)

-- The mask of the low `k` bits takes a remainder.
bit_and_low : (a b : ℕ) → bit_and a (b * 2 + 1) ≡ bit_and (a / 2) b * 2 + a % 2
bit_and_low a b =
    let e : (b * 2 + 1) / 2 ≡ b = omega arith in
    let f : bit_and (a / 2) ((b * 2 + 1) / 2) ≡ bit_and (a / 2) b = rw e in
    omega (arith, bit_and_step a (b * 2 + 1))

pub bit_and_31 : (a : ℕ) → bit_and a 31 ≡ a % 32
bit_and_31 a = omega (
  arith,
  bit_and_low a 15,
  bit_and_low (a / 2) 7,
  bit_and_low (a / 2 / 2) 3,
  bit_and_low (a / 2 / 2 / 2) 1,
  bit_and_low (a / 2 / 2 / 2 / 2) 0,
  bit_and-zero (a / 2 / 2 / 2 / 2 / 2),
)

-- A number below `2 ^ w` has no bit from `w` on.
pub bit_high : (w a i : ℕ) → a < 2 ^ w → w ≤ i → bit a i ≡ 0
unfolding bit
bit_high zero a i h k = let e : a ≡ 0 = omega arith in rw e (bit-zero i)
bit_high (suc w) a zero h k = absurd (omega arith)
bit_high (suc w) a (suc i) h k = bit_high w (a / 2) i (omega (arith, pow-suc 2 w)) (omega arith)

-- A high field and a low field that do not overlap: `|` adds them, and a mask takes the low one.
two_pow_double : (q k : ℕ) → q * 2 ^ suc k ≡ q * 2 ^ k * 2
two_pow_double q k = omega (arith, ap (λ (t : ℕ). q * t) (pow-suc 2 k))

bit_or-zero_fuel : (n a : ℕ) → a ≤ n → bit_or a 0 ≡ a
bit_or-zero_fuel n zero h = refl
bit_or-zero_fuel zero (suc a) h = absurd (omega arith)
bit_or-zero_fuel (suc n) (suc a) h =
    omega (arith, bit_or_step (suc a) 0, bit_or-zero_fuel n (suc a / 2) (omega arith))

pub bit_or_join : (k hi lo : ℕ) → lo < 2 ^ k → bit_or (hi * 2 ^ k) lo ≡ hi * 2 ^ k + lo
bit_or_join zero hi lo h =
    let e : lo ≡ 0 = omega arith in
    rw e (bit_or-zero_fuel (hi * 2 ^ 0) _ (omega arith) ∙ omega arith)
bit_or_join (suc k) hi lo h =
    let half : hi * 2 ^ suc k / 2 ≡ hi * 2 ^ k = omega (arith, two_pow_double hi k) in
    let rest : bit_or (hi * 2 ^ suc k / 2) (lo / 2) ≡ hi * 2 ^ k + lo / 2 =
      rw half (bit_or_join k hi (lo / 2) (omega (arith, pow-suc 2 k))) in
    omega (arith, bit_or_step (hi * 2 ^ suc k) lo, two_pow_double hi k)

pub bit_and_255 : (a : ℕ) → bit_and a 255 ≡ a % 256
bit_and_255 a = omega (
  arith,
  bit_and_low a 127,
  bit_and_low (a / 2) 63,
  bit_and_low (a / 2 / 2) 31,
  bit_and_31 (a / 2 / 2 / 2),
)

pub bit_and_1023 : (a : ℕ) → bit_and a 1023 ≡ a % 1024
bit_and_1023 a = omega (arith, bit_and_low a 511, bit_and_low (a / 2) 255, bit_and_255 (a / 2 / 2))

bit_or_comm_fuel : (n a b : ℕ) → a + b ≤ n → bit_or a b ≡ bit_or b a
bit_or_comm_fuel zero a b h =
    let e : a ≡ 0 = omega arith in let f : b ≡ 0 = omega arith in rw (e, f) refl
bit_or_comm_fuel (suc n) a b h =
    omega
      (arith, bit_or_step a b, bit_or_step b a, bit_or_comm_fuel n (a / 2) (b / 2) (omega arith))

pub bit_or_comm : (a b : ℕ) → bit_or a b ≡ bit_or b a
bit_or_comm a b = bit_or_comm_fuel (a + b) a b (omega arith)
