-- ===== src/Svob/View.antt =====
-- The set of tokens that a `SimpleVob` stands for, and its well-formedness.
use llguidance.Prelude.{
  ℕ, zero, suc, ◌*◌, ◌/◌, ◌%◌, ◌^◌, ◌≤◌, ◌<◌, ◌≡◌, refl, Bool, Option, some, List, [], ◌∷◌, ◌++◌,
  map, length, get_or, set, replicate, arith, false, get_or_beyond,
}
use llguidance.Prelude.Words.{test_bit, test_bit-zero}
use llguidance.Svob.{SimpleVob}

abbrev pub AreWords : List ℕ → Type 0
AreWords [] = Unit
AreWords (w ∷ ws) = (w < 2 ^ 32) × AreWords ws

-- The words fit `u32`, they cover the size, and every index of a bit fits `u32`, the type of tokens.
pub record IsValid (v : SimpleVob) : Type 0 where
  pub in_u32 : AreWords v.words
  pub covers : v.size ≤ length v.words * 32
  pub indexable : length v.words * 32 ≤ 2 ^ 32

-- Bit `i` of a sequence of words; none is set past the end.
unfoldable pub bit_at : List ℕ → ℕ → Bool
bit_at ws i = test_bit (get_or ws (i / 32) 0) (i % 32)

-- Whether the set holds `i`.
unfoldable pub contains : SimpleVob → ℕ → Bool
unfolding bit_at
contains v i = bit_at v.words i

pub AreWords-get_or : (ws : List ℕ) (i : ℕ) → AreWords ws → get_or ws i 0 < 2 ^ 32
AreWords-get_or [] i h = omega arith
AreWords-get_or (w ∷ ws) zero h = h.0
AreWords-get_or (w ∷ ws) (suc i) h = AreWords-get_or ws i h.1

pub AreWords-set : (ws : List ℕ) (i w : ℕ) → AreWords ws → w < 2 ^ 32 → AreWords (set ws i w)
AreWords-set [] i w h k = tt
AreWords-set (x ∷ ws) zero w h k = (k, h.1)
AreWords-set (x ∷ ws) (suc i) w h k = (h.0, AreWords-set ws i w h.1 k)

pub AreWords-map :
    (f : ℕ → ℕ) (ws : List ℕ)
    → ((w : ℕ) → w < 2 ^ 32 → f w < 2 ^ 32)
    → AreWords ws
    → AreWords (map f ws)
AreWords-map f [] k h = tt
AreWords-map f (w ∷ ws) k h = (k w h.0, AreWords-map f ws k h.1)

pub AreWords-append_zeros : (ws : List ℕ) (n : ℕ) → AreWords ws → AreWords (ws ++ replicate n 0)
AreWords-append_zeros [] zero h = tt
AreWords-append_zeros [] (suc n) h = (omega arith, AreWords-append_zeros [] n tt)
AreWords-append_zeros (w ∷ ws) n h = (h.0, AreWords-append_zeros ws n h.1)

pub get_or-append_zeros : (ws : List ℕ) (n i : ℕ) → get_or (ws ++ replicate n 0) i 0 ≡ get_or ws i 0
get_or-append_zeros [] zero i = refl
get_or-append_zeros [] (suc n) zero = refl
get_or-append_zeros [] (suc n) (suc i) = get_or-append_zeros [] n i
get_or-append_zeros (w ∷ ws) n zero = refl
get_or-append_zeros (w ∷ ws) n (suc i) = get_or-append_zeros ws n i

-- A method returns, and leaves a valid vector of the same shape that holds `j` as `f j` says.
pub record Updates (v : SimpleVob) (result : Option SimpleVob) (f : ℕ → Bool) : Type 0 where
  pub out : SimpleVob
  pub returns : result ≡ some out
  pub valid : IsValid out
  pub same_size : out.size ≡ v.size
  pub same_words : length out.words ≡ length v.words
  pub reads : (j : ℕ) → contains out j ≡ f j

-- New words of the same number keep a vector valid.
pub words-IsValid :
    (v : SimpleVob) (ws : List ℕ)
    → IsValid v
    → AreWords ws
    → length ws ≡ length v.words
    → IsValid (record v { words = ws })
words-IsValid v ws h u e = record {
  in_u32 = u;
  covers = omega (arith, h.covers);
  indexable = omega (arith, h.indexable);
}

pub contains-bit_at : (v : SimpleVob) (j : ℕ) → contains v j ≡ bit_at v.words j
unfolding contains
contains-bit_at v j = refl

pub bit_at_beyond : (ws : List ℕ) (j : ℕ) → length ws ≤ j / 32 → bit_at ws j ≡ false
unfolding bit_at
bit_at_beyond ws j h = rw (get_or_beyond ws (j / 32) 0 h) (test_bit-zero (j % 32))
