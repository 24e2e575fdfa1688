-- ===== src/Trie/Search.antt =====
-- Searches by bytes in toktrie/src/toktree.rs, and greedy tokenization.
pub mod Descend
pub mod Place
pub mod Longest
use llguidance.Prelude.{
  ℕ, zero, suc, ◌+◌, Bool, true, false, not, Option, none, some, List, [], ◌∷◌, ◌++◌, length,
  get_elem?, take, drop, ltb, ◌==◌, if◌then◌else◌, ◌>>=◌, ◌>>◌, guard, checked_sub,
}
use llguidance.Prelude.Words.{u32}
use llguidance.Trie.{
  TokTrie, token, vocab_size, child_at_byte, child_at_bytes, special_token_marker,
}
use llguidance.Trie.Node.{TrieNode, byte, subtree_size, num_parents, token_id}
use llguidance.Trie.Walk.{no_bytes}

-- `n.token_id()` of the node at the offset.
unfoldable pub token_at : TokTrie → ℕ → Option (Option ℕ)
unfolding token_id
token_at self off = get_elem? self.nodes off >>= λ n. some (token_id n)

unfoldable pub token_id_at_bytes : TokTrie → List ℕ → Option (Option ℕ)
unfolding child_at_bytes token_at
token_id_at_bytes self bytes = child_at_bytes self 0 bytes >>= λ found. elim found [
  | none ↦ some none
  | some off ↦ token_at self off
]

unfoldable pub has_extensions : TokTrie → List ℕ → Option Bool
unfolding child_at_bytes
has_extensions self bytes = child_at_bytes self 0 bytes >>= λ found. elim found [
  | none ↦ some false
  | some off ↦ get_elem? self.nodes off >>= λ n. some (ltb 1 (subtree_size n))
]

unfoldable pub get_special_token : TokTrie → List ℕ → Option (Option ℕ)
unfolding child_at_byte child_at_bytes token_at
get_special_token self name = child_at_byte self 0 special_token_marker >>= λ marker. elim marker [
  | none ↦ some none
  | some off ↦ child_at_bytes self off name >>= λ found. elim found [
    | none ↦ some none
    | some off ↦ token_at self off
  ]
]

-- The loop of `prefix_token_id`; `last` is a token and its length.
unfoldable pub prefix_loop : TokTrie → ℕ → ℕ → ℕ × ℕ → List ℕ → Option (ℕ × ℕ)
unfolding child_at_byte token_at
prefix_loop self n idx last [] = some last
prefix_loop self n idx last (b ∷ bytes) = child_at_byte self n b >>= λ found. elim found [
  | none ↦ some last
  | some child ↦ do
    t ← token_at self child
    prefix_loop self child (idx + 1) (elim t [ none ↦ last | some tok ↦ (tok, idx + 1) ]) bytes
]

unfoldable pub prefix_token_id : TokTrie → List ℕ → Option (ℕ × ℕ)
unfolding prefix_loop
prefix_token_id self bytes = do guard (not (no_bytes bytes)); prefix_loop self 0 0 (0, 0) bytes

-- The method `token_id` of the trie.
unfoldable pub token_id_of_bytes : TokTrie → List ℕ → Option (Option ℕ)
unfolding prefix_token_id
token_id_of_bytes self bytes = do
  (tok, len) ← prefix_token_id self bytes
  some (if len == length bytes then some tok else none)

-- The loop of `all_prefixes`, which is the inner loop of `all_subtokens` as well.
unfoldable pub prefixes_loop : TokTrie → ℕ → List ℕ → Option (List ℕ)
unfolding child_at_byte token_at
prefixes_loop self n [] = some []
prefixes_loop self n (b ∷ bytes) = child_at_byte self n b >>= λ found. elim found [
  | none ↦ some []
  | some child ↦ do
    t ← token_at self child
    rest ← prefixes_loop self child bytes
    some (elim t [ none ↦ rest | some tok ↦ tok ∷ rest ])
]

unfoldable pub all_prefixes : TokTrie → List ℕ → Option (List ℕ)
unfolding prefixes_loop
all_prefixes self bytes = prefixes_loop self 0 bytes

unfoldable pub all_subtokens : TokTrie → List ℕ → Option (List ℕ)
unfolding prefixes_loop
all_subtokens self [] = some []
all_subtokens self (b ∷ bytes) = do
  here ← prefixes_loop self 0 (b ∷ bytes)
  rest ← all_subtokens self bytes
  some (here ++ rest)

-- The inner loop of `greedy_tokenize`, from index `j`: the last token and the index of its last byte.
unfoldable pub longest_loop : TokTrie → ℕ → ℕ → Option ℕ × ℕ → List ℕ → Option (Option ℕ × ℕ)
unfolding child_at_byte token_at
longest_loop self node j last [] = some last
longest_loop self node j last (b ∷ bytes) = child_at_byte self node b >>= λ found. elim found [
  | none ↦ some last
  | some child ↦ do
    t ← token_at self child
    longest_loop self child (j + 1) (elim t [ none ↦ last | some tok ↦ (some tok, j) ]) bytes
]

-- The outer loop on the bytes that are left, with indices counted from there; each round takes a
-- byte at least.
unfoldable pub greedy_loop : ℕ → TokTrie → List ℕ → Option (List ℕ)
unfolding longest_loop
greedy_loop fuel self [] = some []
greedy_loop zero self (b ∷ bytes) = none
greedy_loop (suc fuel) self (b ∷ bytes) = do
  (last_tok, last_idx) ← longest_loop self 0 0 (none, 0) (b ∷ bytes)
  rest ← greedy_loop fuel self (drop last_idx bytes)
  some (elim last_tok [ none ↦ rest | some t ↦ t ∷ rest ])

unfoldable pub greedy_tokenize : TokTrie → List ℕ → Option (List ℕ)
unfolding greedy_loop
greedy_tokenize self bytes = greedy_loop (length bytes) self bytes

-- `(0..vocab_size).map(token)`, the first `n` of them before those given.
unfoldable pub tokens_below : TokTrie → ℕ → List (List ℕ) → Option (List (List ℕ))
unfolding token
tokens_below self zero acc = some acc
tokens_below self (suc n) acc = token self (u32 n) >>= λ t. tokens_below self n (t ∷ acc)

unfoldable pub all_tokens : TokTrie → Option (List (List ℕ))
unfolding vocab_size tokens_below
all_tokens self = tokens_below self (vocab_size self) []

-- The loop of `sorted_tokens`; `bytes` are kept in their order.
unfoldable pub sorted_loop : ℕ → List TrieNode → ℕ → ℕ → ℕ → List ℕ → Option (List (ℕ × List ℕ))
sorted_loop zero nodes endp p next_pop bytes = if ltb p endp then none else some []
sorted_loop (suc fuel) nodes endp p next_pop bytes = elim (ltb p endp) [
  | false ↦ some []
  | true ↦ do
    kept ← checked_sub (length bytes) next_pop
    n ← get_elem? nodes p
    let bytes1 = take kept bytes ++ byte n ∷ []
    rest ←
        sorted_loop fuel nodes endp (p + 1) (if subtree_size n == 1 then num_parents n else 0)
          bytes1
    some (elim (token_id n) [ none ↦ rest | some t ↦ (t, bytes1) ∷ rest ])
]

unfoldable pub sorted_tokens : TokTrie → Option (List (ℕ × List ℕ))
unfolding sorted_loop
sorted_tokens self =
    get_elem? self.nodes 0 >>= λ n. sorted_loop (subtree_size n) self.nodes (subtree_size n) 1 0 []
