-- ===== src/Trie/Tests.antt =====
-- A small trie, and the theorems about it.
use llguidance.Prelude.{
  ℕ, ◌+◌, ◌-◌, ◌*◌, ◌<◌, ◌≡◌, ◌↔◌, ◌⊎◌, refl, true, false, none, some, List, [], ◌∷◌, arith,
  checked_sub, length,
}
use llguidance.Prelude.Words.{shl, shr, bit_not}
use llguidance.Svob.{SimpleVob, allow_token_unchecked, disallow_token}
use llguidance.Svob.View.{IsValid, contains}
use llguidance.Recognizer.Fixed.{
  fixed_recognizer, try_push_fixed, fixed_recognizer-IsStack, fixed-Tracks, is_prefix,
}
use llguidance.Trie.Search.{prefix_token_id}
use llguidance.Trie.From.{from, mark_used}
use llguidance.Trie.Check.{check_against}
use llguidance.Trie.Search.Descend.{AreDistinct}
use llguidance.Trie.Search.Longest.{IsLongest, prefix_token_id-IsLongest}
use llguidance.Trie.Decode.{decode_raw, token_len}
use llguidance.Trie.Decode.Laws.{token_len-decode_raw}
use llguidance.Trie.{token, child_at_byte, TokTrie, TokRxInfo, child_at_bytes, vocab_size}
use llguidance.Trie.Node.{
  TrieNode, Reads, byte, subtree_size, num_parents, token_id, new, set_subtree_size, token_of,
  new-Reads,
}
use llguidance.Trie.Forest.{Forest, end, branch, accepts, HasToken}
use llguidance.Trie.Walk.{add_bias}
use llguidance.Trie.Walk.Bias.{Represents, add_bias_iff}

abbrev info : TokRxInfo
info = record {
  vocab_size = 3;
  tok_eos = 2;
  tok_bos = none;
  tok_pad = none;
  tok_unk = none;
  tok_end_of_turn = none;
}

abbrev node : ℕ → ℕ → ℕ → ℕ → TrieNode
node b t wide parents = record { bits = t * 256 + b; bits2 = wide * 1024 + (parents - 1) }

-- The tokens "a", "ab" and "b".
abbrev words_forest : Forest
words_forest = branch b'a' (some 0) (branch b'b' (some 1) end end) (branch b'b' (some 2) end end)

abbrev words_trie : TokTrie
words_trie = record {
  info = info;
  token_offsets =
      record { len = 1; off = 0 } ∷ record { len = 2; off = 1 } ∷ record { len = 1; off = 3 } ∷ [];
  token_data = b'a' ∷ b'a' ∷ b'b' ∷ b'b' ∷ [];
  nodes = node 0xff 0xffffff 4 1 ∷ node b'a' 0 2 1 ∷ node b'b' 1 1 2 ∷ node b'b' 2 1 1 ∷ [];
  max_token_len = 2;
  eos_tokens = 2 ∷ [];
  sorted_vocab = 0 ∷ 1 ∷ 2 ∷ [];
}

words_trie-Represents : Represents words_trie words_forest
unfolding byte subtree_size num_parents token_id shr
words_trie-Represents = record {
  root = node 0xff 0xffffff 4 1;
  below = node b'a' 0 2 1 ∷ node b'b' 1 1 2 ∷ node b'b' 2 1 1 ∷ [];
  nodes_are = refl;
  root_size = refl;
  lies = (
    node b'a' 0 2 1,
    node b'b' 1 1 2 ∷ [],
    node b'b' 2 1 1 ∷ [],
    refl,
    record { byte_is = refl; token_is = refl; size_is = refl; parents_is = refl },
    (
      node b'b' 1 1 2,
      [],
      [],
      refl,
      record { byte_is = refl; token_is = refl; size_is = refl; parents_is = refl },
      refl,
      refl,
    ),
    (
      node b'b' 2 1 1,
      [],
      [],
      refl,
      record { byte_is = refl; token_is = refl; size_is = refl; parents_is = refl },
      refl,
      refl,
    ),
  );
  tokens = omega arith;
  vocab_u32 = omega arith;
}

abbrev no_tokens : SimpleVob
no_tokens = record { words = 0 ∷ []; size = 3 }

no_tokens-IsValid : IsValid no_tokens
no_tokens-IsValid = record { in_u32 = omega arith; covers = omega arith; indexable = omega arith }

-- Of the three tokens, "a" and "ab" are prefixes of "ab".
prefixes_of_ab :
    add_bias (fixed_recognizer (b'a' ∷ b'b' ∷ [])) words_trie 0 no_tokens []
    ≡ some (0, record { words = 3 ∷ []; size = 3 })
unfolding add_bias child_at_bytes subtree_size shr byte token_id num_parents try_push_fixed
    checked_sub allow_token_unchecked disallow_token vocab_size bit_not
prefixes_of_ab = refl

add_bias_iff_example :
    (state : ℕ) × (out : SimpleVob) × (add_bias
        (fixed_recognizer (b'a' ∷ b'b' ∷ []))
        words_trie
        0
        no_tokens
        []
      ≡ some (state, out))
    × IsValid out
    × (out.size ≡ 3)
    × (contains out 3 ≡ false)
    × ((j : ℕ)
        → j < 3
        → (contains out j ≡ true) ↔ (
            (contains no_tokens j ≡ true)
            ⊎ ((w : List ℕ) × HasToken words_forest w j
                × (accepts (is_prefix (b'a' ∷ b'b' ∷ [])) [] w ≡ true))))
add_bias_iff_example =
    add_bias_iff (fixed_recognizer-IsStack (b'a' ∷ b'b' ∷ []) 2) words_trie words_forest
      words_trie-Represents (omega arith) 0 no_tokens (fixed-Tracks (b'a' ∷ b'b' ∷ []) 2)
      no_tokens-IsValid (omega arith)

new-Reads_example :
    (n m : TrieNode) × (new 97 5 2 ≡ some n)
    × (set_subtree_size n 7 ≡ some m)
    × Reads m 97 (token_of 5) 7 2
new-Reads_example =
    new-Reads 97 5 2 7 (omega arith) (omega arith) (omega arith) (omega arith) (omega arith)

token_len-decode_raw_example :
    (raw : List ℕ) × (decode_raw words_trie (1 ∷ []) ≡ some raw)
    × (token_len words_trie 1 ≡ some (length raw))
unfolding token
token_len-decode_raw_example = token_len-decode_raw words_trie 1 (b'a' ∷ b'b' ∷ []) refl

words_forest-AreDistinct : AreDistinct words_forest
words_forest-AreDistinct = (refl, (refl, tt, tt), (refl, tt, tt))

-- Of "ab" and another byte, the token "ab" is read.
prefix_token_id-IsLongest_example :
    (r : ℕ × ℕ) × (prefix_token_id words_trie (b'a' ∷ b'b' ∷ b'b' ∷ []) ≡ some r)
    × IsLongest words_forest 0 (0, 0) (b'a' ∷ b'b' ∷ b'b' ∷ []) r
prefix_token_id-IsLongest_example =
    prefix_token_id-IsLongest words_trie words_forest b'a' (b'b' ∷ b'b' ∷ []) words_trie-Represents
      words_forest-AreDistinct

-- The construction from words that are in order gives the trie above, and it passes the check against
-- them.
from_words :
    from (λ es. es) info ((b'a' ∷ []) ∷ (b'a' ∷ b'b' ∷ []) ∷ (b'b' ∷ []) ∷ []) ≡ some words_trie
unfolding from new checked_sub set_subtree_size mark_used token_id shr shl subtree_size
from_words = refl

checked_words :
    check_against words_trie 0 ((b'a' ∷ []) ∷ (b'a' ∷ b'b' ∷ []) ∷ (b'b' ∷ []) ∷ []) ≡ some tt
unfolding check_against child_at_byte subtree_size shr byte
checked_words = refl
