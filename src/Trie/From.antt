-- ===== src/Trie/From.antt =====
-- The construction of a `TokTrie` in toktrie/src/toktree.rs: `from`, `filter`, `validate`,
-- `check_against` and the copies with other end of sequence tokens.
use llguidance.Prelude.{
  ℕ, zero, suc, ◌+◌, ◌*◌, ◌^◌, max, Bool, true, false, not, ◌&&◌, Option, none, some, List, [], ◌∷◌,
  ◌++◌, map, length, get_elem?, set, replicate, leb, ltb, ◌==◌, if◌then◌else◌, ◌>>=◌, ◌>>◌, guard,
}
use llguidance.Prelude.Words.{u32}
use llguidance.Svob.{SimpleVob, is_allowed}
use llguidance.Trie.{TokTrie, TokRxInfo, TokDesc, token, vocab_size}
use llguidance.Trie.Node.{subtree_size, token_id}
use llguidance.Trie.Walk.{no_bytes}
use llguidance.Trie.Build.{TrieBuilder, builder_new, insert, serialize}

-- The indices of the words, each with its word.
unfoldable pub numbered : ℕ → List (List ℕ) → List (ℕ × List ℕ)
numbered i [] = []
numbered i (w ∷ words) = (i, w) ∷ numbered (i + 1) words

-- The words in the order given, without the empty ones.
unfoldable pub insert_all : TrieBuilder → List (ℕ × List ℕ) → Option TrieBuilder
unfolding insert
insert_all trie [] = some trie
insert_all trie ((idx, word) ∷ rest) = do
  trie1 ← (if no_bytes word then some trie else insert trie word (u32 idx))
  insert_all trie1 rest

-- The descriptors of the words one after another, with `try_into().unwrap()` into `u32`.
unfoldable pub lay_out : List (List ℕ) → ℕ → Option (List TokDesc)
lay_out [] off = some []
lay_out (w ∷ words) off = do
  guard (ltb (length w) (2 ^ 32))
  guard (ltb off (2 ^ 32))
  rest ← lay_out words (off + length w)
  some (record { len = length w; off = off } ∷ rest)

unfoldable pub flatten : List (List ℕ) → List ℕ
flatten [] = []
flatten (w ∷ words) = w ++ flatten words

unfoldable pub longest : List (List ℕ) → ℕ
longest [] = 0
longest (w ∷ words) = max (length w) (longest words)

-- The token of a node must be in the vocabulary and on no other node.
unfoldable pub mark_used : TokTrie → Option ℕ → List Bool → Option (List Bool)
mark_used self none used = some used
mark_used self (some tok) used = do
  guard (ltb tok self.info.vocab_size)
  was ← get_elem? used tok
  guard (not was)
  some (set used tok true)

-- `validate_node` and the loop over the children, from the offset `p` to the end `endp`.
unfoldable mutual
  pub validate_node : ℕ → TokTrie → ℕ → ℕ → List Bool → Option (List Bool)
  validate_node zero self off ep used = none
  validate_node (suc fuel) self off ep used = do
    n ← get_elem? self.nodes off
    used1 ← mark_used self (token_id n) used
    guard (leb (off + subtree_size n) ep)
    validate_children fuel self (off + 1) (off + subtree_size n) used1

  pub validate_children : ℕ → TokTrie → ℕ → ℕ → List Bool → Option (List Bool)
  validate_children zero self p endp used = if ltb p endp then none else some used
  validate_children (suc fuel) self p endp used = elim (ltb p endp) [
    | false ↦ some used
    | true ↦ do
      n ← get_elem? self.nodes p
      used1 ← validate_node fuel self p endp used
      validate_children fuel self (p + subtree_size n) endp used1
  ]

-- `for idx in 0..vocab_size { self.token(idx); }`, which may panic
unfoldable pub read_tokens : TokTrie → ℕ → Option (Unit {0})
unfolding token
read_tokens self zero = some tt
read_tokens self (suc n) = token self n >>= λ _. read_tokens self n

-- A node is two calls deeper than its parent or the sibling before it at most.
unfoldable pub validate : TokTrie → Option (Unit {0})
unfolding validate_node read_tokens
validate self = do
  root ← get_elem? self.nodes 0
  _ ←
      validate_node (2 * length self.nodes) self 0 (subtree_size root)
        (replicate self.info.vocab_size false)
  read_tokens self self.info.vocab_size

-- `sort_by` is the sort of the standard library on `words[a].cmp(&words[b])`.
unfoldable pub from :
    (List (ℕ × List ℕ) → List (ℕ × List ℕ)) → TokRxInfo → List (List ℕ) → Option TokTrie
unfolding insert_all builder_new lay_out flatten longest serialize validate numbered
from sort_by info words = do
  guard (info.vocab_size == u32 (length words))
  let indices = sort_by (numbered 0 words)
  trie ← insert_all (builder_new 0xff) indices
  token_offsets ← lay_out words 0
  nodes ← serialize trie 0
  let r : TokTrie = record {
    info = info;
    token_offsets = token_offsets;
    token_data = flatten words;
    nodes = nodes;
    max_token_len = longest words;
    eos_tokens = info.tok_eos ∷ [];
    sorted_vocab = map (λ i. u32 i.0) indices;
  }
  validate r
  some r

-- `if filter.is_allowed(n) { self.token(n) } else { &[] }`
unfoldable pub token_if : TokTrie → SimpleVob → ℕ → Option (List ℕ)
unfolding is_allowed token
token_if self filter n = is_allowed filter n >>= λ b. if b then token self n else some []

unfoldable pub kept_words : TokTrie → SimpleVob → List ℕ → Option (List (ℕ × List ℕ))
unfolding token_if
kept_words self filter [] = some []
kept_words self filter (n ∷ vocab) = do
  b ← token_if self filter n
  rest ← kept_words self filter vocab
  some ((n, b) ∷ rest)

unfoldable pub counting : ℕ → ℕ → List ℕ
counting zero i = []
counting (suc n) i = i ∷ counting n (i + 1)

unfoldable pub filter : TokTrie → SimpleVob → Option TokTrie
unfolding kept_words counting insert_all builder_new lay_out flatten longest serialize validate
    vocab_size
filter self allowed = do
  sorted_words ← kept_words self allowed self.sorted_vocab
  trie ← insert_all (builder_new 0xff) sorted_words
  kept ← kept_words self allowed (counting (u32 (vocab_size self)) 0)
  let words = map (λ e. e.1) kept
  token_offsets ← lay_out words 0
  nodes ← serialize trie 0
  let r : TokTrie = record {
    info = self.info;
    token_offsets = token_offsets;
    token_data = flatten words;
    nodes = nodes;
    max_token_len = longest words;
    eos_tokens = self.eos_tokens;
    sorted_vocab = self.sorted_vocab;
  }
  validate r
  some r

unfoldable pub all_tokens_below : ℕ → List ℕ → Bool
all_tokens_below vocab [] = true
all_tokens_below vocab (tok ∷ toks) = ltb tok vocab && all_tokens_below vocab toks

unfoldable pub with_eos_tokens : TokTrie → List ℕ → Option TokTrie
unfolding all_tokens_below vocab_size
with_eos_tokens self [] = none
with_eos_tokens self (tok ∷ eos_tokens) = do
  guard (all_tokens_below (u32 (vocab_size self)) (tok ∷ eos_tokens))
  some (record self { info = record self.info { tok_eos = tok }; eos_tokens = tok ∷ eos_tokens })

unfoldable pub with_info : TokTrie → TokRxInfo → TokTrie
with_info self info = record self { info = info; eos_tokens = info.tok_eos ∷ [] }

unfoldable pub build_chat_mode_trie : TokTrie → Option TokTrie
unfolding with_eos_tokens
build_chat_mode_trie self =
    with_eos_tokens self
      (elim self.info.tok_end_of_turn [ none ↦ self.info.tok_eos | some t ↦ t ] ∷ [])
