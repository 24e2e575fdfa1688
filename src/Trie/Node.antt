-- ===== src/Trie/Node.antt =====
-- `TrieNode` of toktrie/src/toktree.rs: a node of the flat trie packed into two `u32`.
use llguidance.Prelude.{
  ℕ, ◌+◌, ◌-◌, ◌*◌, ◌/◌, ◌%◌, ◌^◌, ◌≤◌, ◌<◌, ◌≡◌, refl, ◌∙◌, ap, Option, none, some, bit_and,
  bit_or, arith, leb, ltb, ◌==◌, if◌then◌else◌, ◌>>◌, guard,
}
use llguidance.Prelude.Words.{u32, shl, shr}
use llguidance.Prelude.Bits.{bit_or_join, bit_or_comm, bit_and_255, bit_and_1023}

pub record TrieNode : Type 0 where
  pub bits : ℕ
  pub bits2 : ℕ

abbrev pub no_token : ℕ
no_token = 0xffffff

abbrev pub parent_bits : ℕ
parent_bits = 10

-- `(1 << PARENT_BITS) - 1`
abbrev pub parent_mask : ℕ
parent_mask = 2 ^ parent_bits - 1

unfoldable pub new : ℕ → ℕ → ℕ → Option TrieNode
new byte token_id num_parents = do
  guard (ltb 0 num_parents)
  guard (leb num_parents (2 ^ parent_bits))
  some (record { bits = bit_or (shl token_id 8) byte; bits2 = u32 (num_parents - 1) })

-- The method `byte`, `subtree_size`, `num_parents` and `token_id`.
unfoldable pub byte : TrieNode → ℕ
byte n = bit_and n.bits 0xff

unfoldable pub subtree_size : TrieNode → ℕ
subtree_size n = shr n.bits2 parent_bits

unfoldable pub num_parents : TrieNode → ℕ
num_parents n = bit_and n.bits2 parent_mask + 1

unfoldable pub token_id : TrieNode → Option ℕ
token_id n = let r = shr n.bits 8 in if r == no_token then none else some r

unfoldable pub set_subtree_size : TrieNode → ℕ → Option TrieNode
set_subtree_size n size = do
  guard (ltb size (2 ^ (32 - parent_bits)))
  some (record n { bits2 = bit_or (bit_and n.bits2 parent_mask) (shl size parent_bits) })

-- What the four readers return on a node.
pub record Reads (n : TrieNode) (b : ℕ) (t : Option ℕ) (size parents : ℕ) : Type 0 where
  pub byte_is : byte n ≡ b
  pub token_is : token_id n ≡ t
  pub size_is : subtree_size n ≡ size
  pub parents_is : num_parents n ≡ parents

-- The token that the 24-bit field stands for.
abbrev pub token_of : ℕ → Option ℕ
token_of t = if t == no_token then none else some t

-- A node that was made, and given its size, reads back as it was made; neither panics in range.
pub new-Reads :
    (b t parents size : ℕ)
    → b < 256
    → t < 2 ^ 24
    → 0 < parents
    → parents ≤ 1024
    → size < 2 ^ 22
    → (n m : TrieNode) × (new b t parents ≡ some n)
      × (set_subtree_size n size ≡ some m)
      × Reads m b (token_of t) size parents
new-Reads b t parents size hb ht hp hq hs = (
  record { bits = bit_or (shl t 8) b; bits2 = u32 (parents - 1) },
  record {
    bits = bit_or (shl t 8) b;
    bits2 = bit_or (bit_and (u32 (parents - 1)) parent_mask) (shl size parent_bits);
  },
  unfold new in ground arith,
  unfold set_subtree_size in ground arith,
  record {
    byte_is = unfold byte in rw (word, bit_and_255) (omega arith);
    token_is = unfold token_id shr in rw word token;
    size_is = unfold subtree_size shr in rw word2 (omega arith);
    parents_is = unfold num_parents in rw (word2, bit_and_1023) (omega arith);
  },
)
  where
    shifted : shl t 8 ≡ t * 2 ^ 8
    shifted = unfold shl in omega arith

    word : bit_or (shl t 8) b ≡ t * 256 + b
    word = rw shifted (bit_or_join 8 t b hb)

    token :
        (if (t * 256 + b) / 2 ^ 8 == no_token then none else some ((t * 256 + b) / 2 ^ 8))
        ≡ token_of t
    token = let e : (t * 256 + b) / 2 ^ 8 ≡ t = omega arith in rw e refl

    size_shifted : shl size 10 ≡ size * 2 ^ 10
    size_shifted = unfold shl in omega arith

    word2 :
        bit_or (bit_and (u32 (parents - 1)) parent_mask) (shl size parent_bits)
        ≡ size * 1024 + (parents - 1)
    word2 =
        ap (λ t. bit_or t (shl size 10)) (bit_and_1023 (u32 (parents - 1)))
        ∙ ap (bit_or (u32 (parents - 1) % 1024)) size_shifted
        ∙ bit_or_comm (u32 (parents - 1) % 1024) (size * 2 ^ 10)
        ∙ bit_or_join 10 size (u32 (parents - 1) % 1024) (omega arith)
        ∙ omega arith
