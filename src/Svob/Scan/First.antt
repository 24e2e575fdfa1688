-- ===== src/Svob/Scan/First.antt =====
-- The searches of toktrie/src/svob.rs for a set bit: `first_bit_set`,
-- `first_bit_set_here_and_in` and the iterator's `next`.
use native.Mathlib.Decide.{dec_lt}
use mathlib.Core.Bool.{false≢true}
use mathlib.Core.Path.{subst}
use llguidance.Prelude.{
  ℕ, zero, suc, ◌+◌, ◌-◌, ◌*◌, ◌/◌, ◌%◌, ◌^◌, ◌≤◌, ◌<◌, ◌≡◌, ◌≢◌, refl, ap, ap₂, sym, ◌∙◌, inl, inr,
  Bool, true, false, ◌&&◌, Option, none, some, List, [], ◌∷◌, length, get_or, drop, bit_and, arith,
  ltb, ◌==◌, Bool-cases, ==_iff,
}
use llguidance.Prelude.Words.{
  test_bit, shr, trailing_zeros, test_bit-zero, test_bit-shr, shr-le, trailing_zeros_set,
  trailing_zeros_below, test_bit-bit_and, bit_and-lt_u32, test_bit_high,
}
use llguidance.Svob.{SimpleVob}
use llguidance.Svob.View.{AreWords, IsValid, bit_at, contains, bit_at_beyond}
use llguidance.Svob.Scan.{
  first_in, first_bit_set, first_common, first_bit_set_here_and_in, next_from, next, SimpleVobIter,
}

-- `r` is the first index from `start` on at which `p` holds, or none if there is no such index.
abbrev pub IsFirst : (ℕ → Bool) → ℕ → Option ℕ → Type 0
IsFirst p start none = (j : ℕ) → start ≤ j → p j ≡ false
IsFirst p start (some i) = (start ≤ i) × (p i ≡ true) × ((j : ℕ) → start ≤ j → j < i → p j ≡ false)

-- The words `ds`, from word index `idx` on, are those of `p`.
abbrev Holds : (ℕ → Bool) → ℕ → List ℕ → Type 0
Holds p idx ds = (k b : ℕ) → b < 32 → test_bit (get_or ds k 0) b ≡ p ((idx + k) * 32 + b)

Holds-tail : (p : ℕ → Bool) (idx w : ℕ) (ws : List ℕ) → Holds p idx (w ∷ ws) → Holds p (idx + 1) ws
Holds-tail p idx w ws h k b q =
    let e : (idx + suc k) * 32 + b ≡ (idx + 1 + k) * 32 + b = omega arith in rw e at (h (suc k) b q)

Holds-head :
    (p : ℕ → Bool) (idx w : ℕ) (ws : List ℕ) (j : ℕ)
    → Holds p idx (w ∷ ws)
    → idx * 32 ≤ j
    → j < idx * 32 + 32
    → p j ≡ test_bit w (j - idx * 32)
Holds-head p idx w ws j h l m =
    let e : (idx + 0) * 32 + (j - idx * 32) ≡ j = omega arith in
    sym (rw e at (h 0 (j - idx * 32) (omega arith)))

-- Past a word with no bit from `off` on, the search goes on at the next word.
IsFirst-skip :
    (p : ℕ → Bool) (idx off : ℕ) (r : Option ℕ)
    → off < 32
    → ((j : ℕ) → idx * 32 + off ≤ j → j < idx * 32 + 32 → p j ≡ false)
    → IsFirst p ((idx + 1) * 32 + 0) r
    → IsFirst p (idx * 32 + off) r
IsFirst-skip p idx off none o gap h = λ j l. elim (Bool-cases (ltb j (idx * 32 + 32))) [
  | inl e ↦ gap j l (ground arith)
  | inr e ↦ h j (ground arith)
]
IsFirst-skip p idx off (some i) o gap h = (
  omega (arith, h.0),
  h.1,
  λ j l m. elim (Bool-cases (ltb j (idx * 32 + 32))) [
    | inl e ↦ gap j l (ground arith)
    | inr e ↦ h.2 j (ground arith) m
  ],
)

word_gap :
    (p : ℕ → Bool) (idx off w : ℕ) (ws : List ℕ)
    → Holds p idx (w ∷ ws)
    → shr w off ≡ 0
    → (j : ℕ) → idx * 32 + off ≤ j
    → j < idx * 32 + 32
    → p j ≡ false
word_gap p idx off w ws h e j l m =
    let k = j - idx * 32 - off in
    let a : off + k ≡ j - idx * 32 = omega arith in
    Holds-head p idx w ws j h (omega arith) m
    ∙ ap (test_bit w) (sym a)
    ∙ sym (test_bit-shr w off k)
    ∙ ap (λ t. test_bit t k) e
    ∙ test_bit-zero k

tz_in_word :
    (w off : ℕ) → w < 2 ^ 32 → off < 32 → shr w off ≢ 0 → trailing_zeros (shr w off) + off < 32
tz_in_word w off u o n = elim (dec_lt (trailing_zeros (shr w off) + off) 32) [
  | yes h ↦ h
  | no h ↦ absurd (
      false≢true (
        sym (test_bit_high w (off + trailing_zeros (shr w off)) u (omega arith))
        ∙ sym (test_bit-shr w off (trailing_zeros (shr w off)))
        ∙ trailing_zeros_set (shr w off) (omega (arith, shr-le w off, u)) n))
]

next_from-IsFirst :
    (p : ℕ → Bool) (ws : List ℕ) (off idx : ℕ)
    → AreWords ws
    → off < 32
    → Holds p idx ws
    → IsFirst p (idx * 32 + off) (next_from ws off idx)
unfolding next_from
next_from-IsFirst p [] off idx u o h = λ j l.
    let e : (idx + (j / 32 - idx)) * 32 + j % 32 ≡ j = omega arith in
    sym (rw e at (h (j / 32 - idx) (j % 32) (omega arith))) ∙ test_bit-zero (j % 32)
next_from-IsFirst p (w ∷ ws) off idx u o h = elim (Bool-cases (shr w off == 0)) [
  | inl e ↦ rw e (
      IsFirst-skip p idx off (next_from ws 0 (idx + 1)) o
        (word_gap p idx off w ws h ((==_iff (shr w off) 0).0 e))
        (next_from-IsFirst p ws 0 (idx + 1) u.1 (omega arith) (Holds-tail p idx w ws h)))
  | inr e ↦ rw e (found e)
]
  where
    found :
        (shr w off == 0) ≡ false
        → IsFirst p (idx * 32 + off) (some (idx * 32 + trailing_zeros (shr w off) + off))
    found e =
        let d = shr w off in
        let t = trailing_zeros d in
        let n : d ≢ 0 = ground arith in
        let small : d < 2 ^ 32 = omega (arith, shr-le w off, u.0) in
        let room : t + off < 32 = tz_in_word w off u.0 o n in
        (
          omega arith,
          Holds-head p idx w ws (idx * 32 + t + off) h (omega arith) (omega arith)
              ∙ ap (test_bit w) (at t)
              ∙ sym (test_bit-shr w off t)
              ∙ trailing_zeros_set d small n,
          λ j l m.
              Holds-head p idx w ws j h (omega arith) (omega arith)
              ∙ ap (test_bit w) (before j l)
              ∙ sym (test_bit-shr w off (j - idx * 32 - off))
              ∙ trailing_zeros_below d (j - idx * 32 - off) (omega arith),
        )
      where
        at : (t : ℕ) → idx * 32 + t + off - idx * 32 ≡ off + t
        at t = omega arith

        before : (j : ℕ) → idx * 32 + off ≤ j → j - idx * 32 ≡ off + (j - idx * 32 - off)
        before j l = omega arith

shr-zero : (w : ℕ) → shr w 0 ≡ w
unfolding shr
shr-zero w = omega arith

first_in-eq : (idx : ℕ) (ws : List ℕ) → first_in idx ws ≡ next_from ws 0 idx
unfolding first_in next_from
first_in-eq idx [] = refl
first_in-eq idx (w ∷ ws) =
    let e : idx * 32 + trailing_zeros w + 0 ≡ idx * 32 + trailing_zeros w = omega arith in
    rw (shr-zero w, e, first_in-eq (idx + 1) ws) refl

words-Holds : (ws : List ℕ) → Holds (bit_at ws) 0 ws
unfolding bit_at
words-Holds ws k b q =
    let e : ((0 + k) * 32 + b) / 32 ≡ k = omega arith in
    let f : ((0 + k) * 32 + b) % 32 ≡ b = omega arith in rw (e, f) refl

first_in-IsFirst :
    (p : ℕ → Bool) (ws : List ℕ) → AreWords ws → Holds p 0 ws → IsFirst p 0 (first_in 0 ws)
first_in-IsFirst p ws u h = rw (first_in-eq 0 ws) (next_from-IsFirst p ws 0 0 u (omega arith) h)

-- `first_bit_set` is the least member, and `None` for the empty set.
pub first_bit_set-IsFirst : (v : SimpleVob) → IsValid v → IsFirst (contains v) 0 (first_bit_set v)
unfolding first_bit_set contains
first_bit_set-IsFirst v h = first_in-IsFirst (bit_at v.words) v.words h.in_u32 (words-Holds v.words)

common_words : List ℕ → List ℕ → List ℕ
common_words [] ys = []
common_words (x ∷ xs) [] = []
common_words (x ∷ xs) (y ∷ ys) = bit_and x y ∷ common_words xs ys

first_common-eq :
    (idx : ℕ) (xs ys : List ℕ) → first_common idx xs ys ≡ first_in idx (common_words xs ys)
unfolding first_common first_in common_words
first_common-eq idx [] ys = refl
first_common-eq idx (x ∷ xs) [] = refl
first_common-eq idx (x ∷ xs) (y ∷ ys) = rw (first_common-eq (idx + 1) xs ys) refl

AreWords-common : (xs ys : List ℕ) → AreWords xs → AreWords (common_words xs ys)
unfolding common_words
AreWords-common [] ys u = tt
AreWords-common (x ∷ xs) [] u = tt
AreWords-common (x ∷ xs) (y ∷ ys) u = (bit_and-lt_u32 x y u.0, AreWords-common xs ys u.1)

test_bit-common :
    (xs ys : List ℕ) (k b : ℕ)
    → test_bit (get_or (common_words xs ys) k 0) b
      ≡ (test_bit (get_or xs k 0) b && test_bit (get_or ys k 0) b)
unfolding common_words
test_bit-common [] ys k b = rw test_bit-zero refl
test_bit-common (x ∷ xs) [] k b = rw test_bit-zero (ground arith)
test_bit-common (x ∷ xs) (y ∷ ys) zero b = test_bit-bit_and x y b
test_bit-common (x ∷ xs) (y ∷ ys) (suc k) b = test_bit-common xs ys k b

-- `first_bit_set_here_and_in` is the least common member of two sets of one size, and `None` where
-- they are disjoint; it does not panic.
pub first_bit_set_here_and_in-IsFirst :
    (v other : SimpleVob)
    → IsValid v
    → v.size ≡ other.size
    → (r : Option ℕ) × (first_bit_set_here_and_in v other ≡ some r)
      × IsFirst (λ j. contains v j && contains other j) 0 r
unfolding contains
first_bit_set_here_and_in-IsFirst v other h e = (
  first_common 0 v.words other.words,
  unfold first_bit_set_here_and_in in rw ((==_iff v.size other.size).1 e) refl,
  rw (first_common-eq 0 v.words other.words) (
      first_in-IsFirst (λ j. bit_at v.words j && bit_at other.words j)
        (common_words v.words other.words) (AreWords-common v.words other.words h.in_u32)
        (λ k b q.
          test_bit-common v.words other.words k b
          ∙ ap₂ ◌&&◌ (words-Holds v.words k b q) (words-Holds other.words k b q))),
)

get_or-drop : (n k : ℕ) (ws : List ℕ) → get_or (drop n ws) k 0 ≡ get_or ws (n + k) 0
get_or-drop zero k ws = let e : 0 + k ≡ k = omega arith in rw e refl
get_or-drop (suc n) k [] = refl
get_or-drop (suc n) k (w ∷ ws) =
    let e : suc n + k ≡ suc (n + k) = omega arith in rw e (get_or-drop n k ws)

AreWords-drop : (n : ℕ) (ws : List ℕ) → AreWords ws → AreWords (drop n ws)
AreWords-drop zero ws u = u
AreWords-drop (suc n) [] u = tt
AreWords-drop (suc n) (w ∷ ws) u = AreWords-drop n ws u.1

drop-Holds : (n : ℕ) (ws : List ℕ) → Holds (bit_at ws) n (drop n ws)
drop-Holds n ws k b q =
    ap (λ t. test_bit t b) (get_or-drop n k ws) ∙ words-Holds ws (n + k) b q ∙ shift
  where
    shift : bit_at ws ((0 + (n + k)) * 32 + b) ≡ bit_at ws ((n + k) * 32 + b)
    shift = let e : (0 + (n + k)) * 32 + b ≡ (n + k) * 32 + b = omega arith in rw e refl

-- The iterator after it has returned `r`.
abbrev pub advanced : SimpleVobIter → Option ℕ → SimpleVobIter
advanced it none = it
advanced it (some i) = record it { idx = i + 1 }

next-cases :
    (it : SimpleVobIter) (r : Option ℕ)
    → IsValid it.vob
    → next_from (drop (it.idx / 32) it.vob.words) (it.idx % 32) (it.idx / 32) ≡ r
    → IsFirst (contains it.vob) it.idx r
    → next it ≡ (r, advanced it r)
unfolding next contains
next-cases it none h e f = rw (e, next) refl
next-cases it (some i) h e f =
    let small : i % 2 ^ 32 ≡ i = omega (arith, inside, h.indexable) in rw (e, next, small) refl
  where
    inside : i < length it.vob.words * 32
    inside = elim (dec_lt i (length it.vob.words * 32)) [
      | yes k ↦ k
      | no k ↦ absurd (false≢true (sym (bit_at_beyond it.vob.words i (omega arith)) ∙ f.1))
    ]

-- `next` returns the first member from the iterator's index on, and moves just past it; at the end
-- it returns `None` and stays.
pub next-IsFirst :
    (it : SimpleVobIter)
    → IsValid it.vob
    → (r : Option ℕ) × (next it ≡ (r, advanced it r)) × IsFirst (contains it.vob) it.idx r
next-IsFirst it h =
    let r = next_from (drop (it.idx / 32) it.vob.words) (it.idx % 32) (it.idx / 32) in
    (r, next-cases it r h refl first, first)
  where
    back : it.idx / 32 * 32 + it.idx % 32 ≡ it.idx
    back = omega arith

    first :
        IsFirst
          (contains it.vob)
          it.idx
          (next_from (drop (it.idx / 32) it.vob.words) (it.idx % 32) (it.idx / 32))
    first =
        unfold contains in
        subst
          (λ s.
            IsFirst (bit_at it.vob.words) s
              (next_from (drop (it.idx / 32) it.vob.words) (it.idx % 32) (it.idx / 32)))
          back
          (next_from-IsFirst (bit_at it.vob.words) (drop (it.idx / 32) it.vob.words) (it.idx % 32)
            (it.idx / 32) (AreWords-drop (it.idx / 32) it.vob.words h.in_u32) (omega arith)
            (drop-Holds (it.idx / 32) it.vob.words))
