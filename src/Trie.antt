-- ===== src/Trie.antt =====
-- The struct `TokTrie` of toktrie/src/toktree.rs and the descent by bytes. A reference to a node is
-- its offset in `nodes`.
pub mod Node
pub mod Forest
pub mod Walk
pub mod Build
pub mod Decode
pub mod Search
pub mod Approximate
pub mod Check
pub mod Special
pub mod From
pub mod Chop
mod Tests
use llguidance.Prelude.{
  ℕ, zero, suc, ◌+◌, ◌-◌, ◌<◌, Bool, true, false, not, ◌&&◌, Option, none, some, List, [], ◌∷◌,
  length, get_elem?, take, drop, leb, ltb, ◌==◌, if◌then◌else◌, ◌>>=◌, ◌>>◌, guard,
}
use llguidance.Prelude.Words.{u32}
use llguidance.Svob.{SimpleVob, alloc_with_capacity, allow_token}
use Node.{TrieNode, byte, subtree_size, token_id}

pub record TokRxInfo : Type 0 where
  pub vocab_size : ℕ
  pub tok_eos : ℕ
  pub tok_bos : Option ℕ
  pub tok_pad : Option ℕ
  pub tok_unk : Option ℕ
  pub tok_end_of_turn : Option ℕ

pub record TokDesc : Type 0 where
  pub len : ℕ
  pub off : ℕ

pub record TokTrie : Type 0 where
  pub info : TokRxInfo
  pub token_offsets : List TokDesc
  pub token_data : List ℕ
  pub nodes : List TrieNode
  pub max_token_len : ℕ
  pub eos_tokens : List ℕ
  pub sorted_vocab : List ℕ

abbrev pub special_token_marker : ℕ
special_token_marker = 0xff

unfoldable pub vocab_size : TokTrie → ℕ
vocab_size self = self.info.vocab_size

-- `&v[off..(off + len)]`
unfoldable pub slice {ℓ} : {A : Type ℓ} → List A → ℕ → ℕ → Option (List A)
slice xs off len = do guard (leb (off + len) (length xs)); some (take len (drop off xs))

unfoldable pub token : TokTrie → ℕ → Option (List ℕ)
unfolding slice
token self idx =
    if leb (u32 (length self.token_offsets)) idx
    then some []
    else (get_elem? self.token_offsets idx >>= λ desc. slice self.token_data desc.off desc.len)

unfoldable pub alloc_token_set : TokTrie → Option SimpleVob
unfolding vocab_size
alloc_token_set self = alloc_with_capacity (vocab_size self) (vocab_size self + 1)

unfoldable pub singleton_token_set : TokTrie → ℕ → Option SimpleVob
unfolding alloc_token_set
singleton_token_set self tok = alloc_token_set self >>= λ r. allow_token r tok

abbrev pub invalid_token : ℕ
invalid_token = 0xffff_ffff

-- The loop of `eos_token_set`.
unfoldable pub allow_valid : ℕ → List ℕ → SimpleVob → Option SimpleVob
allow_valid vocab [] r = some r
allow_valid vocab (eos ∷ rest) r = do
  r' ← (if not (eos == invalid_token) && ltb eos vocab then allow_token r eos else some r)
  allow_valid vocab rest r'

unfoldable pub eos_token_set : TokTrie → Option SimpleVob
unfolding alloc_token_set allow_valid
eos_token_set self = alloc_token_set self >>= allow_valid (u32 (vocab_size self)) self.eos_tokens

-- `node_children(n).find(|child| child.byte() == byte)`: the iterator `NodeChildren` steps from
-- child to child by the subtree sizes. The outer option is a panic, or fuel that ran out.
unfoldable pub find_child : ℕ → List TrieNode → ℕ → ℕ → ℕ → Option (Option ℕ)
find_child zero nodes current_offset end_offset b = none
find_child (suc fuel) nodes current_offset end_offset b = elim (ltb current_offset end_offset) [
  | false ↦ some none
  | true ↦ get_elem? nodes current_offset >>= λ node. elim (byte node == b) [
    | true ↦ some (some current_offset)
    | false ↦ find_child fuel nodes (current_offset + subtree_size node) end_offset b
  ]
]

unfoldable pub child_at_byte : TokTrie → ℕ → ℕ → Option (Option ℕ)
unfolding find_child
child_at_byte self off b = do
  n ← get_elem? self.nodes off
  find_child (suc (length self.nodes)) self.nodes (off + 1) (off + subtree_size n) b

unfoldable pub child_at_bytes : TokTrie → ℕ → List ℕ → Option (Option ℕ)
child_at_bytes self off [] = some (some off)
child_at_bytes self off (b ∷ bytes) = child_at_byte self off b >>= λ found. elim found [
  | none ↦ some none
  | some child ↦ child_at_bytes self child bytes
]
