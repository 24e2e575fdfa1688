-- ===== src/Svob/Scan/Trim.antt =====
-- `trim_trailing_zeros` of toktrie/src/svob.rs.
use llguidance.Prelude.{
  ℕ, zero, suc, ◌/◌, ◌%◌, ◌≤◌, ◌<◌, ◌≡◌, ◌≢◌, refl, true, ◌∙◌, ap, sym, inl, inr, List, [], ◌∷◌,
  length, get_or, take, arith, ◌==◌, Bool-cases, length-take, get_or_beyond,
}
use llguidance.Prelude.Words.{test_bit}
use llguidance.Svob.{SimpleVob}
use llguidance.Svob.View.{AreWords, IsValid, bit_at, contains}
use llguidance.Svob.Scan.{trimmed_len, trim_trailing_zeros}

trimmed_len-le : (ws : List ℕ) (n : ℕ) → trimmed_len ws n ≤ n
unfolding trimmed_len
trimmed_len-le ws zero = omega arith
trimmed_len-le ws (suc n) = ground (arith, trimmed_len-le ws n)

trimmed_words : (ws : List ℕ) (n i : ℕ) → trimmed_len ws n ≤ i → i < n → get_or ws i 0 ≡ 0
unfolding trimmed_len
trimmed_words ws zero i h k = elim k [ ]
trimmed_words ws (suc n) i h k = ground (arith, trimmed_words ws n i)

get_or-take_zero :
    (n i : ℕ) (ws : List ℕ)
    → ((k : ℕ) → n ≤ k → get_or ws k 0 ≡ 0)
    → get_or (take n ws) i 0 ≡ get_or ws i 0
get_or-take_zero zero i ws z = sym (z i (omega arith))
get_or-take_zero (suc n) i [] z = refl
get_or-take_zero (suc n) zero (w ∷ ws) z = refl
get_or-take_zero (suc n) (suc i) (w ∷ ws) z =
    get_or-take_zero n i ws (λ k h. z (suc k) (omega arith))

AreWords-take : (n : ℕ) (ws : List ℕ) → AreWords ws → AreWords (take n ws)
AreWords-take zero ws u = tt
AreWords-take (suc n) [] u = tt
AreWords-take (suc n) (w ∷ ws) u = (u.0, AreWords-take n ws u.1)

last_word : (ws : List ℕ) (n k : ℕ) → trimmed_len ws n ≡ suc k → get_or ws k 0 ≢ 0
unfolding trimmed_len
last_word ws zero k h e = absurd (omega (arith, h))
last_word ws (suc n) k h e = elim (Bool-cases (get_or ws n 0 == 0)) [
  | inl z ↦ last_word ws n k (rw z at h) e
  | inr z ↦ ground (arith, z, rw z at h, e)
]

-- Trimming keeps the set, leaves a valid vector that is no longer, and removes every zero word at the
-- end: the last word of the result, where there is one, is not 0.
pub trim_trailing_zeros-keeps :
    (v : SimpleVob)
    → IsValid v
    → IsValid (trim_trailing_zeros v)
      × (length (trim_trailing_zeros v).words ≤ length v.words)
      × ((k : ℕ)
          → length (trim_trailing_zeros v).words ≡ suc k
          → get_or (trim_trailing_zeros v).words k 0 ≢ 0)
      × ((j : ℕ) → contains (trim_trailing_zeros v) j ≡ contains v j)
unfolding trim_trailing_zeros
trim_trailing_zeros-keeps v h = elim (Bool-cases (length v.words == n)) [
  | inl e ↦ rw e (h, omega arith, whole e, λ j. refl)
  | inr e ↦ rw e (
    record {
      in_u32 = AreWords-take n v.words h.in_u32;
      covers = omega arith;
      indexable = omega (arith, short, h.indexable);
    },
    omega (arith, short),
    λ k g z.
        last_word v.words (length v.words) k (omega (arith, exact, g))
          (sym (get_or-take_zero n k v.words zeros) ∙ z),
    λ j.
        unfold contains bit_at in
        ap (λ t. test_bit t (j % 32)) (get_or-take_zero n (j / 32) v.words zeros),
  )
]
  where
    n : ℕ
    n = trimmed_len v.words (length v.words)

    short : length (take n v.words) ≤ length v.words
    short = omega (arith, length-take n v.words)

    exact : length (take n v.words) ≡ n
    exact = omega (arith, length-take n v.words, trimmed_len-le v.words (length v.words))

    whole : (length v.words == n) ≡ true → (k : ℕ) → length v.words ≡ suc k → get_or v.words k 0 ≢ 0
    whole e k g = last_word v.words (length v.words) k (ground (arith, e, g))

    zeros : (k : ℕ) → n ≤ k → get_or v.words k 0 ≡ 0
    zeros k l = ground (arith, trimmed_words v.words (length v.words) k, get_or_beyond v.words k 0)
