-- ===== src/Trie/Chop.antt =====
-- `has_valid_extensions` and `chop_tokens` of toktrie/src/toktree.rs.
use llguidance.Prelude.{
  ℕ, zero, suc, ◌+◌, ◌-◌, Bool, true, false, Option, none, some, List, [], ◌∷◌, length, get_elem?,
  drop, leb, ltb, ◌==◌, if◌then◌else◌, ◌>>=◌, checked_sub,
}
use llguidance.Recognizer.{Recognizer}
use llguidance.Trie.{TokTrie, child_at_bytes}
use llguidance.Trie.Node.{TrieNode, byte, subtree_size, num_parents, token_id}
use llguidance.Trie.Decode.{decode_raw, token_len}

module _ (R : Recognizer) where
  -- The loop of `has_valid_extensions`, with the recognizer's state.
  unfoldable pub extension_loop : ℕ → List TrieNode → ℕ → ℕ → ℕ → R.State → Option (R.State × Bool)
  extension_loop zero nodes endp p next_pop r = if ltb p endp then none else some (r, false)
  extension_loop (suc fuel) nodes endp p next_pop r = elim (ltb p endp) [
    | false ↦ some (r, false)
    | true ↦ do
      r1 ← R.pop_bytes next_pop r
      n ← get_elem? nodes p
      (pushed, r2) ← R.try_push_byte (byte n) r1
      elim pushed [
        | true ↦ elim (token_id n) [
          | some t ↦ some (r2, true)
          | none ↦
              extension_loop fuel nodes endp (p + 1)
                (if subtree_size n == 1 then num_parents n else 0) r2
        ]
        | false ↦ checked_sub (num_parents n) 1 >>= λ popped.
            extension_loop fuel nodes endp (p + subtree_size n) popped r2
      ]
  ]

  unfoldable pub has_valid_extensions : TokTrie → R.State → List ℕ → Option (R.State × Bool)
  unfolding child_at_bytes extension_loop
  has_valid_extensions self r start = child_at_bytes self 0 start >>= λ found. elim found [
    | none ↦ some (r, false)
    | some off ↦ do
      n ← get_elem? self.nodes off
      r1 ← R.trie_started r
      (r2, ok) ←
          extension_loop (off + subtree_size n) self.nodes (off + subtree_size n) (off + 1) 0 r1
      r3 ← R.trie_finished r2
      some (r3, ok)
  ]

-- The loop `for chop_idx in 1..=tokens.len()`, of which `left` rounds are left; with no round left
-- it is unreachable code.
unfoldable pub chop_loop : ℕ → TokTrie → List ℕ → ℕ → ℕ → Option (ℕ × ℕ)
unfolding token_len
chop_loop zero self tokens chop_bytes curr_len = none
chop_loop (suc left) self tokens chop_bytes curr_len = do
  tok ← get_elem? tokens left
  len ← token_len self tok
  elim (leb chop_bytes (curr_len + len)) [
    | true ↦ some (length tokens - left, curr_len + len)
    | false ↦ chop_loop left self tokens chop_bytes (curr_len + len)
  ]

module _ (R : Recognizer) where
  -- The loop over the suffixes of the bytes.
  unfoldable pub suffix_loop : TokTrie → R.State → List ℕ → List ℕ → Option (R.State × ℕ × ℕ)
  unfolding has_valid_extensions chop_loop
  suffix_loop self r tokens [] = some (r, 0, 0)
  suffix_loop self r tokens (b ∷ suff) = do
    (r1, ok) ← has_valid_extensions R self r (b ∷ suff)
    elim ok [
      | true ↦ chop_loop (length tokens) self tokens (length (b ∷ suff)) 0 >>= λ chopped.
          some (r1, chopped.0, chopped.1)
      | false ↦ suffix_loop self r1 tokens suff
    ]

  unfoldable pub chop_tokens : TokTrie → R.State → List ℕ → Option (R.State × ℕ × ℕ)
  unfolding decode_raw suffix_loop
  chop_tokens self r tokens = do
    suff_bytes ← decode_raw self (drop (length tokens - 4) tokens)
    suffix_loop self r tokens (drop (length suff_bytes - self.max_token_len) suff_bytes)
