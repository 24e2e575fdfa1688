-- ===== src/Svob/Bit.antt =====
-- Reading and writing one bit: `get`, `is_allowed`, `set`, `allow_token`, `disallow_token` and
-- `allow_token_unchecked` of toktrie/src/svob.rs.
use native.Mathlib.Nat.{pow-suc}
use native.Mathlib.Decide.{ℕ_discrete as dec_eq, dec_lt}
use llguidance.Prelude.{
  ℕ, zero, suc, ◌*◌, ◌/◌, ◌%◌, ◌^◌, ◌≤◌, ◌<◌, ◌≡◌, refl, ap, sym, ◌∙◌, ◌≢◌, Bool, true, false, none,
  some, List, length, get_or, set, arith, leb, ltb, ◌==◌, if◌then◌else◌, get_elem?-eq-get_or,
  get_elem?_beyond, get_or-set_self, get_or-set_ne, length-set,
}
use llguidance.Prelude.Bits.{bit_and_31}
use llguidance.Prelude.Words.{
  test_bit, bit_not, shr, test_bit-bit_or, test_bit-bit_and, test_bit-bit_not, test_bit-pow,
  bit_or-lt_u32, bit_and-lt_u32,
}
use llguidance.Svob.{
  SimpleVob, get, set_word, set_bit, allow_token, disallow_token, allow_token_unchecked,
}
use llguidance.Svob.View.{
  AreWords, AreWords-get_or, AreWords-set, IsValid, bit_at, contains, Updates, words-IsValid,
}

pow-lt_u32 : (k i : ℕ) → i < k → 2 ^ i < 2 ^ k
pow-lt_u32 zero i h = elim h [ ]
pow-lt_u32 (suc k) zero h = omega (arith, pow-suc 2 k, one-le-pow k)
  where
    one-le-pow : (i : ℕ) → 0 < 2 ^ i
    one-le-pow i = native.Mathlib.Nat.one-le-pow i 2 (omega arith)
pow-lt_u32 (suc k) (suc i) h = omega (arith, pow-suc 2 k, pow-suc 2 i, pow-lt_u32 k i (omega arith))

test_bit-set_word :
    (w k i : ℕ) (b : Bool)
    → w < 2 ^ 32
    → k < 32
    → i < 32
    → test_bit (set_word w k b) i ≡ (if k == i then b else test_bit w i)
unfolding set_word
test_bit-set_word w k i true h p q = ground (arith, test_bit-bit_or w (2 ^ k) i, test_bit-pow k i)
test_bit-set_word w k i false h p q = ground (
  arith,
  test_bit-bit_and w (bit_not (2 ^ k)) i,
  test_bit-bit_not (2 ^ k) i (pow-lt_u32 32 k p) q,
  test_bit-pow k i,
)

set_word-lt : (w k : ℕ) (b : Bool) → w < 2 ^ 32 → k < 32 → set_word w k b < 2 ^ 32
unfolding set_word
set_word-lt w k true h p = bit_or-lt_u32 w (2 ^ k) h (pow-lt_u32 32 k p)
set_word-lt w k false h p = bit_and-lt_u32 w (bit_not (2 ^ k)) h

pub bit_at-set_same :
    (ws : List ℕ) (k w j : ℕ)
    → j / 32 ≡ k
    → k < length ws
    → bit_at (set ws k w) j ≡ test_bit w (j % 32)
unfolding bit_at
bit_at-set_same ws k w j e h =
    ap (λ t. test_bit t (j % 32)) (ap (λ t. get_or (set ws k w) t 0) e ∙ get_or-set_self ws k w 0 h)

pub bit_at-set_other : (ws : List ℕ) (k w j : ℕ) → j / 32 ≢ k → bit_at (set ws k w) j ≡ bit_at ws j
unfolding bit_at
bit_at-set_other ws k w j n =
    ap (λ t. test_bit t (j % 32)) (get_or-set_ne ws k (j / 32) w 0 (λ e. n (sym e)))

-- Writing bit `idx` of a sequence of words changes that bit alone.
pub bit_at-set_word :
    (ws : List ℕ) (idx j : ℕ) (b : Bool)
    → AreWords ws
    → idx / 32 < length ws
    → bit_at (set ws (idx / 32) (set_word (get_or ws (idx / 32) 0) (idx % 32) b)) j
      ≡ (if idx == j then b else bit_at ws j)
bit_at-set_word ws idx j b u h = elim (dec_eq (j / 32) (idx / 32)) [
  | yes e ↦
      bit_at-set_same ws (idx / 32) _ j e h
      ∙ test_bit-set_word (get_or ws (idx / 32) 0) (idx % 32) (j % 32) b
          (AreWords-get_or ws (idx / 32) u) (omega arith) (omega arith)
      ∙ same_word e
  | no n ↦ bit_at-set_other ws (idx / 32) _ j n ∙ other_word n
]
  where
    same_word :
        j / 32 ≡ idx / 32
        → (if idx % 32 == j % 32 then b else test_bit (get_or ws (idx / 32) 0) (j % 32))
          ≡ (if idx == j then b else bit_at ws j)
    same_word e = unfold bit_at in rw (← e) (ground arith)

    other_word : j / 32 ≢ idx / 32 → bit_at ws j ≡ (if idx == j then b else bit_at ws j)
    other_word n = ground arith

-- `get` reads the set inside the words, and panics past them.
pub get-contains :
    (v : SimpleVob) (idx : ℕ)
    → get v idx ≡ (if ltb idx (length v.words * 32) then some (contains v idx) else none)
unfolding get contains bit_at
get-contains v idx =
    ground (arith, get_elem?-eq-get_or v.words (idx / 32) 0, get_elem?_beyond v.words (idx / 32))

-- `set` inside the words changes the bit at its index and no other, and keeps the vector valid.
pub set_bit-Updates :
    (v : SimpleVob) (idx : ℕ) (val : Bool)
    → IsValid v
    → idx < length v.words * 32
    → Updates v (set_bit v idx val) (λ j. if idx == j then val else contains v j)
unfolding contains
set_bit-Updates v idx val h k =
    let w = set_word (get_or v.words (idx / 32) 0) (idx % 32) val in
    let ws = set v.words (idx / 32) w in
    record {
      out = record v { words = ws };
      returns = unfold set_bit in rw (get_elem?-eq-get_or v.words (idx / 32) 0 (omega arith)) refl;
      valid =
          words-IsValid v ws h
            (AreWords-set v.words (idx / 32) w h.in_u32
              (set_word-lt _ _ val (AreWords-get_or v.words (idx / 32) h.in_u32) (omega arith)))
            (length-set v.words (idx / 32) w);
      same_size = refl;
      same_words = length-set v.words (idx / 32) w;
      reads = λ j. bit_at-set_word v.words idx j val h.in_u32 (omega arith);
    }

pub set_bit_out_of_range :
    (v : SimpleVob) (idx : ℕ) (val : Bool) → length v.words * 32 ≤ idx → set_bit v idx val ≡ none
unfolding set_bit
set_bit_out_of_range v idx val h = rw (get_elem?_beyond v.words (idx / 32) (omega arith)) refl

-- The unchecked write by shift and mask is `allow_token`, where it is defined.
pub allow_token_unchecked-eq-allow_token :
    (v : SimpleVob) (tok : ℕ) → allow_token_unchecked v tok ≡ allow_token v tok
unfolding allow_token_unchecked allow_token set_bit shr set_word
allow_token_unchecked-eq-allow_token v tok = elim (dec_lt (tok / 32) (length v.words)) [
  | yes p ↦ rw (bit_and_31, lt→leb p, get_elem?-eq-get_or v.words (tok / 32) 0 p) refl
  | no n ↦ rw (bit_and_31, get_elem?_beyond v.words (tok / 32) (omega arith)) (ground arith)
]
  where
    lt→leb : tok / 32 < length v.words → leb tok (length v.words * 32) ≡ true
    lt→leb p = ground arith

pub allow_token-Updates :
    (v : SimpleVob) (tok : ℕ)
    → IsValid v
    → tok < length v.words * 32
    → Updates v (allow_token v tok) (λ j. if tok == j then true else contains v j)
unfolding allow_token
allow_token-Updates v tok h k = set_bit-Updates v tok true h k

pub disallow_token-Updates :
    (v : SimpleVob) (tok : ℕ)
    → IsValid v
    → tok < length v.words * 32
    → Updates v (disallow_token v tok) (λ j. if tok == j then false else contains v j)
unfolding disallow_token
disallow_token-Updates v tok h k = set_bit-Updates v tok false h k
