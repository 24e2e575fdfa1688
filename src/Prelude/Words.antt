-- ===== src/Prelude/Words.antt =====
-- `u32` words: the operators of Rust on them, written out at 32 bits, and each bit of the result.
use Prim.Native.Nat.{ℕ, zero, suc, ◌+◌, ◌-◌, ◌*◌, ◌/◌, ◌%◌, ◌^◌, ◌≤◌, ◌<◌, bit_and, bit_or}
use mathlib.Core.Path.{◌≡◌, refl, ap}
use mathlib.Core.Logic.{◌≢◌, inl, inr}
use mathlib.Core.Bool.{Bool, true, false, not, ◌&&◌, ◌||◌}
use native.Mathlib.Decide.{ℕ_discrete as dec_eq}
use native.Mathlib.Omega.{arith}
use native.Mathlib.Nat.{pow-suc}
use llguidance.Prelude.Tests.{◌==◌, leb, if◌then◌else◌, ==_iff, Bool-cases}
use llguidance.Prelude.Bits.{
  bit, bit-lt, bit-zero, bit-bit_or, bit-bit_and, bit_and-pow, bit-complement, bit-pow, bit_or-lt,
  bit_and-le, zero_of_bits, bit_div_pow, bit_high,
}

-- `u32::MAX`, also written `!0u32`
abbrev pub u32_max : ℕ
u32_max = 2 ^ 32 - 1

-- `n as u32`
abbrev pub u32 : ℕ → ℕ
u32 n = n % 2 ^ 32

-- `!a`
unfoldable pub bit_not : ℕ → ℕ
bit_not a = u32_max - a

-- `a << s` and `a >> s`
unfoldable pub shl : ℕ → ℕ → ℕ
shl a s = (a * 2 ^ s) % 2 ^ 32

unfoldable pub shr : ℕ → ℕ → ℕ
shr a s = a / 2 ^ s

-- `d & (1 << i) != 0`
unfoldable pub test_bit : ℕ → ℕ → Bool
test_bit d i = not (bit_and d (2 ^ i) == 0)

-- `u32::trailing_zeros`
tz_from : ℕ → ℕ → ℕ
tz_from zero a = 0
tz_from (suc n) a = if a % 2 == 1 then 0 else suc (tz_from n (a / 2))

unfoldable pub trailing_zeros : ℕ → ℕ
unfolding tz_from
trailing_zeros a = tz_from 32 a

-- `u32::count_ones`
ones_from : ℕ → ℕ → ℕ
ones_from zero a = 0
ones_from (suc n) a = a % 2 + ones_from n (a / 2)

unfoldable pub count_ones : ℕ → ℕ
unfolding ones_from
count_ones a = ones_from 32 a

one-le-pow : (i : ℕ) → 0 < 2 ^ i
one-le-pow zero = omega arith
one-le-pow (suc i) = omega (arith, pow-suc 2 i, one-le-pow i)

pub test_bit-bit : (a i : ℕ) → test_bit a i ≡ (bit a i == 1)
unfolding test_bit
test_bit-bit a i = elim (Bool-cases (bit a i == 1)) [
  | inl e ↦
      let h : bit a i ≡ 1 = (==_iff _ _).0 e in
      rw (bit_and-pow a i, h) (ground (arith, one-le-pow i))
  | inr e ↦
      let h : bit a i ≡ 0 = ground (arith, bit-lt a i) in rw (bit_and-pow a i, h) (ground arith)
]

pub test_bit-bit_or : (a b i : ℕ) → test_bit (bit_or a b) i ≡ (test_bit a i || test_bit b i)
test_bit-bit_or a b i =
    rw (test_bit-bit, test_bit-bit, test_bit-bit)
      (ground (arith, bit-bit_or a b i, bit-lt a i, bit-lt b i))

pub test_bit-bit_and : (a b i : ℕ) → test_bit (bit_and a b) i ≡ (test_bit a i && test_bit b i)
test_bit-bit_and a b i =
    rw (test_bit-bit, test_bit-bit, test_bit-bit)
      (ground (arith, bit-bit_and a b i, bit-lt a i, bit-lt b i))

pub test_bit-bit_not : (a i : ℕ) → a < 2 ^ 32 → i < 32 → test_bit (bit_not a) i ≡ not (test_bit a i)
unfolding bit_not
test_bit-bit_not a i h k =
    rw (test_bit-bit, test_bit-bit) (ground (arith, bit-complement 32 a i h k, bit-lt a i))

pub test_bit-pow : (k i : ℕ) → test_bit (2 ^ k) i ≡ (k == i)
test_bit-pow k i = rw test_bit-bit (ground (arith, bit-pow k i))

pub test_bit-zero : (i : ℕ) → test_bit 0 i ≡ false
test_bit-zero i = rw (test_bit-bit, bit-zero) refl

pub test_bit-u32_max : (i : ℕ) → i < 32 → test_bit u32_max i ≡ true
test_bit-u32_max i k =
    rw test_bit-bit (ground (arith, bit-complement 32 0 i (omega arith) k, bit-zero i))

pub bit_or-lt_u32 : (a b : ℕ) → a < 2 ^ 32 → b < 2 ^ 32 → bit_or a b < 2 ^ 32
bit_or-lt_u32 a b h k = bit_or-lt 32 a b h k

pub bit_and-lt_u32 : (a b : ℕ) → a < 2 ^ 32 → bit_and a b < 2 ^ 32
bit_and-lt_u32 a b h = omega (arith, bit_and-le a b)

-- A word is 0 exactly when none of its bits is set.
pub zero_of_test_bit : (a : ℕ) → a < 2 ^ 32 → ((i : ℕ) → i < 32 → test_bit a i ≡ false) → a ≡ 0
zero_of_test_bit a h z = zero_of_bits 32 a h (λ i k. clear i k)
  where
    clear : (i : ℕ) → i < 32 → bit a i ≡ 0
    clear i k = ground (arith, z i k, test_bit-bit a i, bit-lt a i)

-- Masks of consecutive bits, by evaluation at each pair of indices.
passes : (ℕ → Bool) → ℕ → Bool
passes test zero = true
passes test (suc k) = if test k then passes test k else false

passes-at : (test : ℕ → Bool) (k i : ℕ) → i < k → passes test k ≡ true → test i ≡ true
unfolding passes
passes-at test zero i lt h = elim lt [ ]
passes-at test (suc k) i lt h = elim (Bool-cases (test k)) [
  | inl e ↦ elim (dec_eq i k) [
    | yes same ↦ rw same e
    | no other ↦ passes-at test k i (omega arith) (rw e at h)
  ]
  | inr e ↦ cc (rw e at h)
]

abbrev iff_test : Bool → Bool → Bool
iff_test true b = b
iff_test false b = not b

iff_test_sound : (a b : Bool) → iff_test a b ≡ true → a ≡ b
iff_test_sound a b h = ground arith

abbrev from_table : ℕ → ℕ → Bool
from_table s i = iff_test (test_bit (shl u32_max s) i) (leb s i)

from_table_holds : passes (λ s. passes (λ i. from_table s i) 32) 32 ≡ true
unfolding passes test_bit shl
from_table_holds = refl

-- `!0 << s` has the bits from `s` up.
pub test_bit-shl_ones : (s i : ℕ) → s < 32 → i < 32 → test_bit (shl u32_max s) i ≡ leb s i
test_bit-shl_ones s i h k =
    let row = passes-at (λ s. passes (λ i. from_table s i) 32) 32 s h from_table_holds in
    iff_test_sound _ _ (passes-at (λ i. from_table s i) 32 i k row)

abbrev up_to_table : ℕ → ℕ → Bool
up_to_table e i = iff_test (test_bit (shr u32_max (31 - e)) i) (leb i e)

up_to_table_holds : passes (λ e. passes (λ i. up_to_table e i) 32) 32 ≡ true
unfolding passes test_bit shr
up_to_table_holds = refl

-- `!0 >> (31 - e)` has the bits up to `e`.
pub test_bit-shr_ones : (e i : ℕ) → e < 32 → i < 32 → test_bit (shr u32_max (31 - e)) i ≡ leb i e
test_bit-shr_ones e i h k =
    let row = passes-at (λ e. passes (λ i. up_to_table e i) 32) 32 e h up_to_table_holds in
    iff_test_sound _ _ (passes-at (λ i. up_to_table e i) 32 i k row)

pub shl-lt : (a s : ℕ) → shl a s < 2 ^ 32
unfolding shl
shl-lt a s = omega arith

pub shr-le : (a s : ℕ) → shr a s ≤ a
unfolding shr
shr-le a s = grind arith

-- A shift to the right moves each bit down.
pub test_bit-shr : (a s i : ℕ) → test_bit (shr a s) i ≡ test_bit a (s + i)
unfolding shr
test_bit-shr a s i = rw (test_bit-bit, test_bit-bit) (ap (λ (t : ℕ). t == 1) (bit_div_pow a s i))

tz_from-lt : (n a : ℕ) → a < 2 ^ n → 0 < a → tz_from n a < n
unfolding tz_from
tz_from-lt zero a h p = absurd (omega arith)
tz_from-lt (suc n) a h p = ground (arith, tz_from-lt n (a / 2), pow-suc 2 n)

tz_from-bit : (n a : ℕ) → a < 2 ^ n → 0 < a → bit a (tz_from n a) ≡ 1
unfolding tz_from bit
tz_from-bit zero a h p = absurd (omega arith)
tz_from-bit (suc n) a h p = ground (arith, tz_from-bit n (a / 2), pow-suc 2 n)

tz_from_below : (n a i : ℕ) → i < tz_from n a → bit a i ≡ 0
unfolding tz_from bit
tz_from_below zero a i h = elim h [ ]
tz_from_below (suc n) a zero h = ground arith
tz_from_below (suc n) a (suc i) h = ground (arith, tz_from_below n (a / 2) i)

-- The lowest set bit of a word that is not 0: it is in range, set, and the first.
pub trailing_zeros-lt : (a : ℕ) → a < 2 ^ 32 → a ≢ 0 → trailing_zeros a < 32
unfolding trailing_zeros
trailing_zeros-lt a h p = tz_from-lt 32 a h (omega arith)

pub trailing_zeros_set : (a : ℕ) → a < 2 ^ 32 → a ≢ 0 → test_bit a (trailing_zeros a) ≡ true
unfolding trailing_zeros
trailing_zeros_set a h p = rw test_bit-bit (ground (arith, tz_from-bit 32 a h (omega arith)))

pub trailing_zeros_below : (a i : ℕ) → i < trailing_zeros a → test_bit a i ≡ false
unfolding trailing_zeros
trailing_zeros_below a i h = rw test_bit-bit (ground (arith, tz_from_below 32 a i h))

pub test_bit_high : (a i : ℕ) → a < 2 ^ 32 → 32 ≤ i → test_bit a i ≡ false
test_bit_high a i h k = rw test_bit-bit (ground (arith, bit_high 32 a i h k))
