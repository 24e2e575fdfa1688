-- ===== src/Svob/Algebra.antt =====
-- The word-by-word operations of toktrie/src/svob.rs: `set_from`, `or`, `or_minus`, `and`, `sub`,
-- `is_zero`, `and_is_zero` and `negated`, as set operations.
use llguidance.Prelude.{
  ℕ, zero, suc, ◌+◌, ◌*◌, ◌/◌, ◌%◌, ◌^◌, ◌≤◌, ◌<◌, ◌≡◌, refl, ap, sym, ◌∙◌, ◌↔◌, Bool, true, false,
  not, ◌&&◌, ◌||◌, Option, some, List, [], ◌∷◌, length, get_or, bit_and, bit_or, arith, leb, ltb,
  ◌==◌, if◌then◌else◌, ==_iff, ◌>>=◌, ◌>>◌, guard,
}
use llguidance.Prelude.Words.{
  bit_not, test_bit, test_bit-bit_or, test_bit-bit_and, test_bit-bit_not, test_bit-zero,
  zero_of_test_bit, bit_or-lt_u32, bit_and-lt_u32,
}
use llguidance.Svob.{SimpleVob}
use llguidance.Svob.View.{
  AreWords, AreWords-get_or, IsValid, bit_at, contains, Updates, words-IsValid, bit_at_beyond,
}

-- `for (idx, v) in self.data.iter_mut().zip(other.data.iter())`: words past the shorter vector stay.
unfoldable pub zip_words : (ℕ → ℕ → ℕ) → List ℕ → List ℕ → List ℕ
zip_words f [] ys = []
zip_words f (x ∷ xs) [] = x ∷ xs
zip_words f (x ∷ xs) (y ∷ ys) = f x y ∷ zip_words f xs ys

unfoldable pub or : SimpleVob → SimpleVob → Option SimpleVob
unfolding zip_words
or v other = do
  guard (leb other.size v.size)
  some (record v { words = zip_words bit_or v.words other.words })

unfoldable pub and : SimpleVob → SimpleVob → Option SimpleVob
unfolding zip_words
and v other = do
  guard (v.size == other.size)
  some (record v { words = zip_words bit_and v.words other.words })

unfoldable pub sub : SimpleVob → SimpleVob → Option SimpleVob
unfolding zip_words
sub v other = do
  guard (v.size == other.size)
  some (record v { words = zip_words (λ a b. bit_and a (bit_not b)) v.words other.words })

-- `*slf |= *oth & !*mn` over the three vectors in step.
unfoldable pub zip_words_minus : List ℕ → List ℕ → List ℕ → List ℕ
zip_words_minus [] ys zs = []
zip_words_minus (x ∷ xs) [] zs = x ∷ xs
zip_words_minus (x ∷ xs) (y ∷ ys) [] = x ∷ xs
zip_words_minus (x ∷ xs) (y ∷ ys) (z ∷ zs) =
    bit_or x (bit_and y (bit_not z)) ∷ zip_words_minus xs ys zs

unfoldable pub or_minus : SimpleVob → SimpleVob → SimpleVob → Option SimpleVob
unfolding zip_words_minus
or_minus v other minus = do
  guard (v.size == other.size)
  guard (v.size == minus.size)
  some (record v { words = zip_words_minus v.words other.words minus.words })

-- `copy_from_slice` panics where the lengths differ.
unfoldable pub set_from : SimpleVob → SimpleVob → Option SimpleVob
set_from v other = do
  guard (v.size == other.size)
  guard (length v.words == length other.words)
  some (record v { words = other.words })

unfoldable pub all_zero : List ℕ → Bool
all_zero [] = true
all_zero (w ∷ ws) = w == 0 && all_zero ws

unfoldable pub is_zero : SimpleVob → Bool
unfolding all_zero
is_zero v = all_zero v.words

unfoldable pub all_disjoint : List ℕ → List ℕ → Bool
all_disjoint [] ys = true
all_disjoint (x ∷ xs) [] = true
all_disjoint (x ∷ xs) (y ∷ ys) = bit_and x y == 0 && all_disjoint xs ys

unfoldable pub and_is_zero : SimpleVob → SimpleVob → Option Bool
unfolding all_disjoint
and_is_zero v other = do guard (v.size == other.size); some (all_disjoint v.words other.words)

get_or-zip_words :
    (f : ℕ → ℕ → ℕ) (xs ys : List ℕ) (i : ℕ)
    → get_or (zip_words f xs ys) i 0 ≡ (
        if ltb i (length xs) && ltb i (length ys)
        then f (get_or xs i 0) (get_or ys i 0)
        else get_or xs i 0)
unfolding zip_words
get_or-zip_words f [] ys i = ground arith
get_or-zip_words f (x ∷ xs) [] i = ground arith
get_or-zip_words f (x ∷ xs) (y ∷ ys) zero = ground arith
get_or-zip_words f (x ∷ xs) (y ∷ ys) (suc i) = get_or-zip_words f xs ys i ∙ ground arith

length-zip_words : (f : ℕ → ℕ → ℕ) (xs ys : List ℕ) → length (zip_words f xs ys) ≡ length xs
unfolding zip_words
length-zip_words f [] ys = refl
length-zip_words f (x ∷ xs) [] = refl
length-zip_words f (x ∷ xs) (y ∷ ys) = ap suc (length-zip_words f xs ys)

AreWords-zip_words :
    (f : ℕ → ℕ → ℕ) (xs ys : List ℕ)
    → ((a b : ℕ) → a < 2 ^ 32 → b < 2 ^ 32 → f a b < 2 ^ 32)
    → AreWords xs
    → AreWords ys
    → AreWords (zip_words f xs ys)
unfolding zip_words
AreWords-zip_words f [] ys k h g = tt
AreWords-zip_words f (x ∷ xs) [] k h g = h
AreWords-zip_words f (x ∷ xs) (y ∷ ys) k h g = (k x y h.0 g.0, AreWords-zip_words f xs ys k h.1 g.1)

-- A word operation `f` that acts as `g` on each bit acts as `g` on the sets.
bit_at-zip_words :
    (f : ℕ → ℕ → ℕ) (g : Bool → Bool → Bool) (xs ys : List ℕ) (j : ℕ)
    → ((a b i : ℕ)
        → a < 2 ^ 32
        → b < 2 ^ 32
        → i < 32
        → test_bit (f a b) i ≡ g (test_bit a i) (test_bit b i))
    → AreWords xs
    → AreWords ys
    → bit_at (zip_words f xs ys) j ≡ (
        if ltb (j / 32) (length xs) && ltb (j / 32) (length ys)
        then g (bit_at xs j) (bit_at ys j)
        else bit_at xs j)
unfolding bit_at
bit_at-zip_words f g xs ys j k h u =
    ap (λ t. test_bit t (j % 32)) (get_or-zip_words f xs ys (j / 32))
    ∙ ground (
      arith,
      k (get_or xs (j / 32) 0) (get_or ys (j / 32) 0) (j % 32) (AreWords-get_or xs (j / 32) h)
          (AreWords-get_or ys (j / 32) u) (omega arith),
    )

-- `or` adds the tokens of `other` that the words of `self` reach.
pub or-Updates :
    (v other : SimpleVob)
    → IsValid v
    → IsValid other
    → other.size ≤ v.size
    → Updates v
        (or v other)
        (λ j. contains v j || (ltb j (length v.words * 32) && contains other j))
unfolding contains
or-Updates v other h g k =
    let ws = zip_words bit_or v.words other.words in
    record {
      out = record v { words = ws };
      returns = unfold or in ground arith;
      valid =
          words-IsValid v ws h
            (AreWords-zip_words bit_or v.words other.words bit_or-lt_u32 h.in_u32 g.in_u32)
            (length-zip_words bit_or v.words other.words);
      same_size = refl;
      same_words = length-zip_words bit_or v.words other.words;
      reads = λ j.
          bit_at-zip_words bit_or ◌||◌ v.words other.words j (λ a b i _ _ _. test_bit-bit_or a b i)
            h.in_u32 g.in_u32
          ∙ ground (arith, bit_at_beyond other.words j);
    }

-- `and` keeps the common tokens; words of `self` past those of `other` are left as they are.
pub and-Updates :
    (v other : SimpleVob)
    → IsValid v
    → IsValid other
    → v.size ≡ other.size
    → Updates v
        (and v other)
        (λ j. contains v j && (contains other j || leb (length other.words * 32) j))
unfolding contains
and-Updates v other h g k =
    let ws = zip_words bit_and v.words other.words in
    record {
      out = record v { words = ws };
      returns = unfold and in ground arith;
      valid =
          words-IsValid v ws h
            (AreWords-zip_words bit_and v.words other.words (λ a b p _. bit_and-lt_u32 a b p)
              h.in_u32 g.in_u32)
            (length-zip_words bit_and v.words other.words);
      same_size = refl;
      same_words = length-zip_words bit_and v.words other.words;
      reads = λ j.
          bit_at-zip_words bit_and ◌&&◌ v.words other.words j
            (λ a b i _ _ _. test_bit-bit_and a b i) h.in_u32 g.in_u32
          ∙ ground (arith, bit_at_beyond v.words j);
    }

abbrev minus_word : ℕ → ℕ → ℕ
minus_word a b = bit_and a (bit_not b)

test_bit-minus_word :
    (a b i : ℕ)
    → a < 2 ^ 32
    → b < 2 ^ 32
    → i < 32
    → test_bit (minus_word a b) i ≡ (test_bit a i && not (test_bit b i))
test_bit-minus_word a b i p q r = rw (test_bit-bit_and, test_bit-bit_not b i q r) refl

-- `sub` is set difference.
pub sub-Updates :
    (v other : SimpleVob)
    → IsValid v
    → IsValid other
    → v.size ≡ other.size
    → Updates v (sub v other) (λ j. contains v j && not (contains other j))
unfolding contains
sub-Updates v other h g k =
    let ws = zip_words minus_word v.words other.words in
    record {
      out = record v { words = ws };
      returns = unfold sub in ground arith;
      valid =
          words-IsValid v ws h
            (AreWords-zip_words minus_word v.words other.words
              (λ a b p _. bit_and-lt_u32 a (bit_not b) p) h.in_u32 g.in_u32)
            (length-zip_words minus_word v.words other.words);
      same_size = refl;
      same_words = length-zip_words minus_word v.words other.words;
      reads = λ j.
          bit_at-zip_words minus_word (λ x y. x && not y) v.words other.words j test_bit-minus_word
            h.in_u32 g.in_u32
          ∙ ground (arith, bit_at_beyond v.words j, bit_at_beyond other.words j);
    }

-- Three words in step are two in step, where no vector is shorter than `self`.
zip_words_minus-eq :
    (xs ys zs : List ℕ)
    → length ys ≡ length zs
    → zip_words_minus xs ys zs ≡ zip_words bit_or xs (zip_words minus_word ys zs)
unfolding zip_words_minus zip_words
zip_words_minus-eq [] ys zs e = refl
zip_words_minus-eq (x ∷ xs) [] zs e = refl
zip_words_minus-eq (x ∷ xs) (y ∷ ys) [] e = absurd (omega arith)
zip_words_minus-eq (x ∷ xs) (y ∷ ys) (z ∷ zs) e = rw (zip_words_minus-eq xs ys zs (omega arith))

-- `or_minus` is `or` with the difference of the other two sets.
pub or_minus-eq :
    (v other minus : SimpleVob)
    → v.size ≡ other.size
    → v.size ≡ minus.size
    → length other.words ≡ length minus.words
    → or_minus v other minus ≡ (sub other minus >>= λ d. or v d)
unfolding or_minus sub or
or_minus-eq v other minus e f l =
    rw ((==_iff v.size other.size).1 e, (==_iff v.size minus.size).1 f)
      (rw (zip_words_minus-eq v.words other.words minus.words l) (ground arith))

all_zero_iff : (ws : List ℕ) → (all_zero ws ≡ true) ↔ ((i : ℕ) → get_or ws i 0 ≡ 0)
unfolding all_zero
all_zero_iff [] = (λ _ i. refl, λ _. refl)
all_zero_iff (w ∷ ws) =
    let rest = all_zero_iff ws in
    (λ e. every e (rest.0 (ground arith)), λ z. back (z 0) (rest.1 (λ i. z (suc i))))
  where
    every :
        (w == 0 && all_zero ws) ≡ true
        → ((i : ℕ) → get_or ws i 0 ≡ 0)
        → (i : ℕ) → get_or (w ∷ ws) i 0 ≡ 0
    every e z zero = ground arith
    every e z (suc i) = z i

    back : w ≡ 0 → all_zero ws ≡ true → (w == 0 && all_zero ws) ≡ true
    back e z = ground arith

-- Words that are all 0 hold no token, and conversely.
zero_words_iff :
    (ws : List ℕ) → AreWords ws → ((i : ℕ) → get_or ws i 0 ≡ 0) ↔ ((j : ℕ) → bit_at ws j ≡ false)
unfolding bit_at
zero_words_iff ws h = (
  λ z j. rw (z (j / 32)) (test_bit-zero (j % 32)),
  λ z i. zero_of_test_bit (get_or ws i 0) (AreWords-get_or ws i h) (λ k p. at z i k p),
)
  where
    at :
        ((j : ℕ) → test_bit (get_or ws (j / 32) 0) (j % 32) ≡ false)
        → (i k : ℕ) → k < 32
        → test_bit (get_or ws i 0) k ≡ false
    at z i k p =
        let e : (i * 32 + k) / 32 ≡ i = omega arith in
        let f : (i * 32 + k) % 32 ≡ k = omega arith in rw (e, f) at (z (i * 32 + k))

-- `is_zero` tells whether the set is empty.
pub is_zero_iff :
    (v : SimpleVob) → IsValid v → (is_zero v ≡ true) ↔ ((j : ℕ) → contains v j ≡ false)
unfolding is_zero contains
is_zero_iff v h =
    let words = all_zero_iff v.words in
    let sets = zero_words_iff v.words h.in_u32 in (λ e. sets.0 (words.0 e), λ z. words.1 (sets.1 z))

all_disjoint-eq :
    (xs ys : List ℕ)
    → length xs ≤ length ys
    → all_disjoint xs ys ≡ all_zero (zip_words bit_and xs ys)
unfolding all_disjoint all_zero zip_words
all_disjoint-eq [] ys h = refl
all_disjoint-eq (x ∷ xs) [] h = absurd (omega arith)
all_disjoint-eq (x ∷ xs) (y ∷ ys) h = rw (all_disjoint-eq xs ys (omega arith)) refl

-- `and_is_zero` tells whether two sets of one size have no common token; it returns, and says so
-- exactly then.
pub and_is_zero_iff :
    (v other : SimpleVob)
    → IsValid v
    → IsValid other
    → v.size ≡ other.size
    → length v.words ≡ length other.words
    → (b : Bool) × (and_is_zero v other ≡ some b)
      × ((b ≡ true) ↔ ((j : ℕ) → (contains v j && contains other j) ≡ false))
unfolding contains
and_is_zero_iff v other h g e l =
    let ws = zip_words bit_and v.words other.words in
    let same : all_disjoint v.words other.words ≡ all_zero ws =
      all_disjoint-eq v.words other.words (omega arith) in
    let u : AreWords ws =
      AreWords-zip_words bit_and v.words other.words (λ a b p _. bit_and-lt_u32 a b p) h.in_u32
        g.in_u32 in
    let words = all_zero_iff ws in
    let sets = zero_words_iff ws u in
    (
      all_disjoint v.words other.words,
      unfold and_is_zero in rw ((==_iff v.size other.size).1 e) refl,
      (
        λ b j. sym (common j) ∙ sets.0 (words.0 (sym same ∙ b)) j,
        λ z. same ∙ words.1 (sets.1 (λ j. common j ∙ z j)),
      ),
    )
  where
    common :
        (j : ℕ)
        → bit_at (zip_words bit_and v.words other.words) j
          ≡ (bit_at v.words j && bit_at other.words j)
    common j =
        bit_at-zip_words bit_and ◌&&◌ v.words other.words j (λ a b i _ _ _. test_bit-bit_and a b i)
          h.in_u32 g.in_u32
        ∙ ground (arith, bit_at_beyond v.words j, l)
