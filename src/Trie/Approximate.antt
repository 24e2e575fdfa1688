-- ===== src/Trie/Approximate.antt =====
-- `ApproximateTokEnv` of toktrie/src/tokenv.rs, the tokenizer of a trie alone, and the smaller
-- constructors of `TokRxInfo` in toktrie/src/toktree.rs.
use llguidance.Prelude.{
  ℕ, ◌-◌, Bool, true, false, Option, none, some, List, [], ◌∷◌, ◌++◌, map, length, ◌>>=◌,
}
use llguidance.Prelude.Words.{u32}
use llguidance.Trie.{TokTrie, TokRxInfo}
use llguidance.Trie.From.{counting, from}
use llguidance.Trie.Search.{greedy_tokenize}

pub record BinTokRxInfo : Type 0 where
  pub vocab_size : ℕ
  pub tok_eos : ℕ

-- `TokRxInfo::new`
unfoldable pub new_info : ℕ → ℕ → TokRxInfo
new_info vocab_size tok_eos = record {
  vocab_size = vocab_size;
  tok_eos = tok_eos;
  tok_bos = none;
  tok_pad = none;
  tok_unk = none;
  tok_end_of_turn = none;
}

unfoldable pub from_bin : BinTokRxInfo → TokRxInfo
unfolding new_info
from_bin info = new_info info.vocab_size info.tok_eos

unfoldable pub to_bin : TokRxInfo → BinTokRxInfo
to_bin self = record { vocab_size = self.vocab_size; tok_eos = self.tok_eos }

pub record ApproximateTokEnv : Type 0 where
  pub trie : TokTrie
  pub canonical : Bool

unfoldable pub approximate : TokTrie → ApproximateTokEnv
approximate trie = record { trie = trie; canonical = false }

-- The names of the special tokens that are added "to play with".
abbrev pub play_tokens : List (List ℕ)
play_tokens =
    (0xff ∷ b'<' ∷ b'|' ∷ b't' ∷ b'o' ∷ b'o' ∷ b'l' ∷ b'|' ∷ b'>' ∷ [])
    ∷ (0xff ∷ b'<' ∷ b'|' ∷ b'/' ∷ b't' ∷ b'o' ∷ b'o' ∷ b'l' ∷ b'|' ∷ b'>' ∷ [])
    ∷ (0xff ∷ b'<' ∷ b'|' ∷ b'u' ∷ b's' ∷ b'e' ∷ b'r' ∷ b'|' ∷ b'>' ∷ [])
    ∷ (0xff ∷ b'<' ∷ b'|' ∷ b's' ∷ b'y' ∷ b's' ∷ b't' ∷ b'e' ∷ b'm' ∷ b'|' ∷ b'>' ∷ [])
    ∷ (0xff ∷ b'<' ∷ b'|' ∷ b'a' ∷ b's' ∷ b's' ∷ b'i' ∷ b's' ∷ b't' ∷ b'a' ∷ b'n' ∷ b't' ∷ b'|'
        ∷ b'>' ∷ [])
    ∷ (0xff ∷ b'<' ∷ b'|' ∷ b'e' ∷ b'n' ∷ b'd' ∷ b'|' ∷ b'>' ∷ [])
    ∷ []

-- `single_byte`: a token for every byte, and the special ones. `sort_by` is the sort in `from`.
unfoldable pub single_byte : (List (ℕ × List ℕ) → List (ℕ × List ℕ)) → Option ApproximateTokEnv
unfolding counting new_info from
single_byte sort_by = do
  let words = map (λ x. x ∷ []) (counting 256 0) ++ play_tokens
  trie ← from sort_by (new_info (u32 (length words)) (u32 (length words) - 1)) words
  some (record { trie = trie; canonical = true })

unfoldable pub tokenize_bytes : ApproximateTokEnv → List ℕ → Option (List ℕ)
unfolding greedy_tokenize
tokenize_bytes self s = greedy_tokenize self.trie s

abbrev pub tokenize_is_canonical : ApproximateTokEnv → Bool
tokenize_is_canonical self = self.canonical
