-- ===== src/Svob/Scan/Entries.antt =====
-- The word-wise iterations of toktrie/src/svob.rs visit every index below the size once, in order.
use mathlib.Core.List.{append_assoc}
use llguidance.Prelude.{
  ℕ, zero, suc, ◌+◌, ◌-◌, ◌*◌, ◌/◌, ◌%◌, ◌^◌, ◌≤◌, ◌<◌, ◌≡◌, refl, ap, ap₂, sym, ◌∙◌, inl, inr,
  Bool, true, false, not, some, List, [], ◌∷◌, ◌++◌, map, length, get_or, take, arith, leb, ltb,
  ◌==◌, if◌then◌else◌, length-take, Bool-cases, ==_iff,
}
use llguidance.Prelude.Words.{u32, u32_max, test_bit, test_bit-zero, test_bit-u32_max}
use llguidance.Svob.{SimpleVob, is_allowed}
use llguidance.Svob.View.{AreWords, IsValid, bit_at, contains}
use llguidance.Svob.Bit.{get-contains}
use llguidance.Svob.Scan.{
  for_range, set_word_entries, unset_word_entries, word_entries, over_words, over_last, iterate,
  emit_set, emit_unset, emit_entry, iter_set_entries, iter_unset_entries, iter_entries, to_list,
}

AreWords-take : (n : ℕ) (ws : List ℕ) → AreWords ws → AreWords (take n ws)
AreWords-take zero ws u = tt
AreWords-take (suc n) [] u = tt
AreWords-take (suc n) (w ∷ ws) u = (u.0, AreWords-take n ws u.1)

get_or-take : (n k : ℕ) (ws : List ℕ) → k < n → get_or (take n ws) k 0 ≡ get_or ws k 0
get_or-take zero k ws h = elim h [ ]
get_or-take (suc n) k [] h = refl
get_or-take (suc n) zero (w ∷ ws) h = refl
get_or-take (suc n) (suc k) (w ∷ ws) h = get_or-take n k ws (omega arith)

le→leb : (a b : ℕ) → a ≤ b → leb a b ≡ true
le→leb a b h = ground arith

bit_in_word :
    (v : SimpleVob) (m k b : ℕ)
    → k < m
    → b < 32
    → test_bit (get_or (take m v.words) k 0) b ≡ contains v ((0 + k) * 32 + b)
unfolding contains bit_at
bit_in_word v m k b h q =
    let e : ((0 + k) * 32 + b) / 32 ≡ k = omega arith in
    let f : ((0 + k) * 32 + b) % 32 ≡ b = omega arith in rw (e, f, get_or-take m k v.words h) refl

module _ {ℓ} {A : Type ℓ} where
  for_range_congr :
      (f g : ℕ → List A) (n i : ℕ)
      → ((k : ℕ) → i ≤ k → k < i + n → f k ≡ g k)
      → for_range f n i ≡ for_range g n i
  unfolding for_range
  for_range_congr f g zero i h = refl
  for_range_congr f g (suc n) i h =
      ap₂ ◌++◌ (h i (omega arith) (omega arith))
        (for_range_congr f g n (i + 1) (λ k p q. h k (omega arith) (omega arith)))

  for_range_shift :
      (f : ℕ → List A) (base n i : ℕ) → for_range (λ b. f (base + b)) n i ≡ for_range f n (base + i)
  unfolding for_range
  for_range_shift f base zero i = refl
  for_range_shift f base (suc n) i =
      let e : base + (i + 1) ≡ base + i + 1 = omega arith in
      ap (λ r. f (base + i) ++ r) (for_range_shift f base n (i + 1) ∙ ap (for_range f n) e)

  for_range-add :
      (f : ℕ → List A) (m n i k : ℕ)
      → i + m ≡ k
      → for_range f (m + n) i ≡ for_range f m i ++ for_range f n k
  unfolding for_range
  for_range-add f zero n i k e =
      let a : 0 + n ≡ n = omega arith in let b : i ≡ k = omega arith in rw (a, b)
  for_range-add f (suc m) n i k e =
      let a : suc m + n ≡ suc (m + n) = omega arith in
      rw a (
        ap (λ r. f i ++ r) (for_range-add f m n (i + 1) k (omega arith))
        ∙ sym (append_assoc (f i) (for_range f m (i + 1)) (for_range f n k)))

  -- A word function that yields, for each bit, what `emit` says of it.
  abbrev ReadsWord : (ℕ → ℕ → List A) → (Bool → ℕ → List A) → Type ℓ
  ReadsWord word emit =
      (idx d : ℕ)
      → d < 2 ^ 32
      → word idx d ≡ for_range (λ bit. emit (test_bit d bit) (idx * 32 + bit)) 32 0

  over_words-eq :
      (word : ℕ → ℕ → List A) (emit : Bool → ℕ → List A) (p : ℕ → Bool) (idx : ℕ) (ds : List ℕ)
      → ReadsWord word emit
      → AreWords ds
      → ((k b : ℕ) → k < length ds → b < 32 → test_bit (get_or ds k 0) b ≡ p ((idx + k) * 32 + b))
      → over_words word idx ds ≡ for_range (λ i. emit (p i) i) (length ds * 32) (idx * 32)
  unfolding over_words
  over_words-eq word emit p idx [] r u h = sym (empty (idx * 32))
    where
      empty : (i : ℕ) → for_range (λ i. emit (p i) i) (0 * 32) i ≡ []
      empty i = unfold for_range in refl
  over_words-eq word emit p idx (d ∷ ds) r u h =
      let head : word idx d ≡ for_range (λ i. emit (p i) i) 32 (idx * 32) =
        r idx d u.0
        ∙ for_range_congr _ (λ b. emit (p (idx * 32 + b)) (idx * 32 + b)) 32 0
            (λ k _ q. ap (λ t. emit t (idx * 32 + k)) (first k (h 0 k (omega arith) (omega arith))))
        ∙ for_range_shift (λ i. emit (p i) i) (idx * 32) 32 0
        ∙ ap (for_range (λ i. emit (p i) i) 32) (plus_zero (idx * 32)) in
      let rest =
        over_words-eq word emit p (idx + 1) ds r u.1
          (λ k b q s. later k b (h (suc k) b (omega arith) s)) in
      ap₂ ◌++◌ head rest ∙ join
    where
      plus_zero : (n : ℕ) → n + 0 ≡ n
      plus_zero n = omega arith

      first : (b : ℕ) → test_bit d b ≡ p ((idx + 0) * 32 + b) → test_bit d b ≡ p (idx * 32 + b)
      first b e = let a : (idx + 0) * 32 + b ≡ idx * 32 + b = omega arith in rw a at e

      later :
          (k b : ℕ)
          → test_bit (get_or ds k 0) b ≡ p ((idx + suc k) * 32 + b)
          → test_bit (get_or ds k 0) b ≡ p ((idx + 1 + k) * 32 + b)
      later k b e =
          let a : (idx + suc k) * 32 + b ≡ (idx + 1 + k) * 32 + b = omega arith in rw a at e

      join :
          for_range (λ i. emit (p i) i) 32 (idx * 32)
            ++ for_range (λ i. emit (p i) i) (length ds * 32) ((idx + 1) * 32)
          ≡ for_range (λ i. emit (p i) i) (suc (length ds) * 32) (idx * 32)
      join =
          let a : suc (length ds) * 32 ≡ 32 + length ds * 32 = omega arith in
          rw a (
            sym (
              for_range-add (λ i. emit (p i) i) 32 (length ds * 32) (idx * 32) ((idx + 1) * 32)
                (omega arith)))

  over_last-eq :
      (emit : Bool → ℕ → List A) (v : SimpleVob) (rounds idx : ℕ)
      → IsValid v
      → idx + rounds ≤ length v.words * 32
      → over_last emit v rounds idx ≡ some (for_range (λ i. emit (contains v i) i) rounds idx)
  unfolding over_last for_range is_allowed
  over_last-eq emit v zero idx h k = refl
  over_last-eq emit v (suc rounds) idx h k =
      let small : idx % 2 ^ 32 ≡ idx = omega (arith, h.indexable) in
      let inside : ltb idx (length v.words * 32) ≡ true = ground arith in
      rw (small, get-contains v idx, inside, over_last-eq emit v rounds (idx + 1) h (omega arith))
        refl

  -- An iteration by words is the iteration by indices, when its word function reads words.
  iterate-eq :
      (word : ℕ → ℕ → List A) (emit : Bool → ℕ → List A) (v : SimpleVob)
      → ReadsWord word emit
      → IsValid v
      → iterate word emit v ≡ some (for_range (λ i. emit (contains v i) i) v.size 0)
  unfolding iterate
  iterate-eq word emit v r h =
      let m = v.size / 32 in
      let f = λ (i : ℕ). emit (contains v i) i in
      let room : m ≤ length v.words = omega (arith, h.covers) in
      let taken : length (take m v.words) ≡ m = omega (arith, length-take m v.words) in
      let last : over_last emit v (v.size - m * 32) (m * 32)
          ≡ some (for_range f (v.size - m * 32) (m * 32)) =
        over_last-eq emit v (v.size - m * 32) (m * 32) h (omega (arith, h.covers)) in
      let whole : over_words word 0 (take m v.words)
          ≡ for_range f (length (take m v.words) * 32) (0 * 32) =
        over_words-eq word emit (contains v) 0 (take m v.words) r (AreWords-take m v.words h.in_u32)
          (λ k b p q. bit_in_word v m k b (omega (arith, taken)) q) in
      let all : for_range f v.size 0
          ≡ for_range f (m * 32) 0 ++ for_range f (v.size - m * 32) (m * 32) =
        let e : v.size ≡ m * 32 + (v.size - m * 32) = omega arith in
        ap (λ n. for_range f n 0) e
        ∙ for_range-add f (m * 32) (v.size - m * 32) 0 (m * 32) (omega arith) in
      rw (le→leb m (length v.words) room, last, whole, taken, all) refl

-- The shortcuts for the words 0 and `u32::MAX` agree with the loop over the bits.
module _ {ℓ} {A : Type ℓ} where
  constant_bits :
      (emit : Bool → ℕ → List A) (idx d : ℕ) (b : Bool)
      → ((i : ℕ) → i < 32 → test_bit d i ≡ b)
      → for_range (λ bit. emit b (idx * 32 + bit)) 32 0
        ≡ for_range (λ bit. emit (test_bit d bit) (idx * 32 + bit)) 32 0
  constant_bits emit idx d b h =
      for_range_congr _ _ 32 0 (λ k _ q. ap (λ t. emit t (idx * 32 + k)) (sym (h k (omega arith))))

  by_cases :
      (emit : Bool → ℕ → List A) (idx d : ℕ)
      → (if d == 0
          then for_range (λ bit. emit false (idx * 32 + bit)) 32 0
          else if d == u32_max
          then for_range (λ bit. emit true (idx * 32 + bit)) 32 0
          else for_range (λ bit. emit (test_bit d bit) (idx * 32 + bit)) 32 0)
        ≡ for_range (λ bit. emit (test_bit d bit) (idx * 32 + bit)) 32 0
  by_cases emit idx d = elim (Bool-cases (d == 0)) [
    | inl e ↦ rw e (
        constant_bits emit idx d false
          (λ i _. ap (λ t. test_bit t i) ((==_iff d 0).0 e) ∙ test_bit-zero i))
    | inr n ↦ rw n (elim (Bool-cases (d == u32_max)) [
      | inl e ↦ rw e (
          constant_bits emit idx d true
            (λ i k. ap (λ t. test_bit t i) ((==_iff d u32_max).0 e) ∙ test_bit-u32_max i k))
      | inr m ↦ rw m refl
    ])
  ]

set-ReadsWord : ReadsWord set_word_entries emit_set
unfolding set_word_entries
set-ReadsWord idx d h = by_cases emit_set idx d

unset-ReadsWord : ReadsWord unset_word_entries emit_unset
unfolding unset_word_entries
unset-ReadsWord idx d h = by_cases emit_unset idx d

entry-ReadsWord : ReadsWord word_entries emit_entry
unfolding word_entries
entry-ReadsWord idx d h = by_cases emit_entry idx d

-- The indices from `i` on, `n` of them, that satisfy `p`, in order.
unfoldable pub picked : (ℕ → Bool) → ℕ → ℕ → List ℕ
picked p zero i = []
picked p (suc n) i = let rest = picked p n (i + 1) in if p i then i ∷ rest else rest

picked-eq : (p : ℕ → Bool) (n i : ℕ) → for_range (λ i. emit_set (p i) i) n i ≡ picked p n i
unfolding for_range picked
picked-eq p zero i = refl
picked-eq p (suc n) i = elim (Bool-cases (p i)) [
  | inl e ↦ rw (e, picked-eq p n (i + 1)) refl
  | inr e ↦ rw (e, picked-eq p n (i + 1)) refl
]

-- `iter_set_entries` visits the members below the size, once each and in order.
pub iter_set_entries-eq :
    (v : SimpleVob) → IsValid v → iter_set_entries v ≡ some (picked (contains v) v.size 0)
unfolding iter_set_entries
iter_set_entries-eq v h =
    iterate-eq set_word_entries emit_set v set-ReadsWord h
    ∙ ap some (picked-eq (contains v) v.size 0)

-- `iter_unset_entries` visits the indices below the size that are no members.
pub iter_unset_entries-eq :
    (v : SimpleVob)
    → IsValid v
    → iter_unset_entries v ≡ some (picked (λ i. not (contains v i)) v.size 0)
unfolding iter_unset_entries
iter_unset_entries-eq v h =
    iterate-eq unset_word_entries emit_unset v unset-ReadsWord h
    ∙ ap some (picked-eq (λ i. not (contains v i)) v.size 0)

-- `iter_entries` visits every index below the size, with its bit.
pub iter_entries-eq :
    (v : SimpleVob)
    → IsValid v
    → iter_entries v ≡ some (for_range (λ i. (contains v i, i) ∷ []) v.size 0)
unfolding iter_entries
iter_entries-eq v h = iterate-eq word_entries emit_entry v entry-ReadsWord h

map-picked : (p : ℕ → Bool) (n i : ℕ) → i + n ≤ 2 ^ 32 → map u32 (picked p n i) ≡ picked p n i
unfolding picked
map-picked p zero i h = refl
map-picked p (suc n) i h =
    let small : i % 2 ^ 32 ≡ i = omega arith in
    elim (Bool-cases (p i)) [
      | inl e ↦ rw (e, map-picked p n (i + 1) (omega arith), small) refl
      | inr e ↦ rw (e, map-picked p n (i + 1) (omega arith)) refl
    ]

-- `to_list` lists the members below the size in increasing order; the cast to `u32` cuts none.
pub to_list-eq : (v : SimpleVob) → IsValid v → to_list v ≡ some (picked (contains v) v.size 0)
unfolding to_list
to_list-eq v h =
    rw
      (
        iter_set_entries-eq v h,
        map-picked (contains v) v.size 0 (omega (arith, h.covers, h.indexable)),
      )
      refl
