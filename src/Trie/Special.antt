-- ===== src/Trie/Special.antt =====
-- Tokenization of text with special tokens: `tokenize_with_special` of toktrie/src/toktree.rs and
-- `tokenize_bytes_marker` of toktrie/src/tokenv.rs. The tokenizer of plain text is a parameter.
use llguidance.Prelude.{
  ℕ, zero, suc, ◌+◌, Bool, true, false, not, ◌&&◌, Option, none, some, List, [], ◌∷◌, ◌++◌, length,
  get_elem?, take, drop, ltb, ◌==◌, if◌then◌else◌, ◌>>=◌,
}
use llguidance.Prelude.Words.{u32}
use llguidance.Trie.{TokTrie, vocab_size, special_token_marker}
use llguidance.Trie.Decode.{is_special_token, position, parse_numeric_token}
use llguidance.Trie.Search.{token_id_at_bytes, get_special_token}

-- The scan for `>` after `<`, over as many bytes as are allowed: whether no other `<` came, and the
-- number of bytes inside.
unfoldable pub scan_name : ℕ → List ℕ → Bool × ℕ
scan_name zero rest = (true, 0)
scan_name (suc n) [] = (true, 0)
scan_name (suc n) (b ∷ rest) = elim (b == b'<') [
  | true ↦ (false, 0)
  | false ↦ elim (b == b'>') [
    | true ↦ (true, 0)
    | false ↦ let r = scan_name n rest in (r.0, suc r.1)
  ]
]

-- `bytes[j] == b'>'`, false past the end.
abbrev pub closes : Option ℕ → Bool
closes none = false
closes (some b) = b == b'>'

abbrev pub is_name : List ℕ → Bool × ℕ → Bool
is_name rest scanned = scanned.0 && closes (get_elem? rest scanned.1) && not (scanned.1 == 0)

module _ (str_tokenize : List ℕ → List ℕ) where
  -- A raw segment that is not empty is tokenized as text.
  abbrev pub flush : List ℕ → List ℕ
  flush [] = []
  flush (b ∷ raw) = str_tokenize (b ∷ raw)

  -- The loop of `tokenize_with_special`; `raw` is `bytes[last..i]`, and the bytes left are those
  -- from `i` on.
  unfoldable pub special_loop : ℕ → TokTrie → List ℕ → List ℕ → Option (List ℕ)
  unfolding scan_name get_special_token
  special_loop fuel self raw [] = some (flush raw)
  special_loop zero self raw (b ∷ rest) = none
  special_loop (suc fuel) self raw (b ∷ rest) =
      elim (b == b'<' && is_name rest (scan_name 100 rest)) [
        | false ↦ special_loop fuel self (raw ++ b ∷ []) rest
        | true ↦
            let name_len = (scan_name 100 rest).1 + 1 in
            do
              special_tok ← get_special_token self (b ∷ take name_len rest)
              out ← special_loop fuel self [] (drop name_len rest)
              some (elim special_tok [
                | none ↦ str_tokenize (raw ++ b ∷ take name_len rest) ++ out
                | some tok ↦ flush raw ++ tok ∷ out
              ])
      ]

  unfoldable pub tokenize_with_special : TokTrie → List ℕ → Option (List ℕ)
  unfolding special_loop
  tokenize_with_special self s = special_loop (length s) self [] s

-- The loop over the tokens of plain text: after the last special one, `num_fixed_tokens` counts up to
-- it; `count` is the number of tokens before those left.
unfoldable pub count_fixed : TokTrie → ℕ → ℕ → List ℕ → Option ℕ
unfolding is_special_token
count_fixed trie count num_fixed_tokens [] = some num_fixed_tokens
count_fixed trie count num_fixed_tokens (t ∷ ts) = do
  special ← is_special_token trie t
  count_fixed trie (count + 1) (if special then count + 1 else num_fixed_tokens) ts

-- `position(|&x| x == ff).unwrap_or(s.len() - idx)`
unfoldable pub normal_len : List ℕ → ℕ
unfolding position
normal_len s = elim (position special_token_marker s) [ none ↦ length s | some n ↦ n ]

abbrev pub starts_name : List ℕ → Bool
starts_name [] = false
starts_name (b ∷ s) = b == b'<' && ltb 1 (length s)

-- What stands after a marker: the special token, and the number of bytes that it takes.
unfoldable pub named_token : TokTrie → List ℕ → Option (Option (ℕ × ℕ))
unfolding position token_id_at_bytes
named_token trie s = elim (position b'>' (take 100 s)) [
  | none ↦ some none
  | some n ↦ do
    found ← token_id_at_bytes trie (special_token_marker ∷ take (n + 1) s)
    some (elim found [ none ↦ none | some id ↦ some (id, n + 1) ])
]

unfoldable pub numbered_token : TokTrie → List ℕ → Option (ℕ × ℕ)
unfolding parse_numeric_token vocab_size
numbered_token trie [] = none
numbered_token trie (b ∷ s) = parse_numeric_token (b ∷ s) >>= λ parsed.
    if ltb parsed.1 (u32 (vocab_size trie)) then some (parsed.1, parsed.0) else none

unfoldable pub special_after : TokTrie → List ℕ → Option (Option (ℕ × ℕ))
unfolding named_token numbered_token
special_after trie s = if starts_name s then named_token trie s else some (numbered_token trie s)

module _ (tokenize_bytes : List ℕ → List ℕ) where
  -- The tokens of the text before the next marker, if there is any.
  abbrev pub text_tokens : List ℕ → ℕ → List ℕ
  text_tokens s zero = []
  text_tokens s (suc n) = tokenize_bytes (take (suc n) s)

  -- The loop of `tokenize_bytes_marker` on the bytes left; each round takes one at least.
  unfoldable pub marker_loop : ℕ → TokTrie → List ℕ → ℕ → List ℕ → Option (List ℕ × ℕ)
  unfolding count_fixed normal_len special_after
  marker_loop fuel trie result num_fixed_tokens [] = some (result, num_fixed_tokens)
  marker_loop zero trie result num_fixed_tokens (b ∷ s) = none
  marker_loop (suc fuel) trie result num_fixed_tokens (b ∷ s) = do
    let len = normal_len (b ∷ s)
    let new_tokens = text_tokens (b ∷ s) len
    let result1 = result ++ new_tokens
    let rest = drop (len + 1) (b ∷ s)
    num_fixed_tokens1 ← count_fixed trie (length result) num_fixed_tokens new_tokens
    special ← special_after trie rest
    elim special [
      | none ↦ marker_loop fuel trie result1 num_fixed_tokens1 rest
      | some (id, n_bytes) ↦
          marker_loop fuel trie (result1 ++ id ∷ []) (length result1 + 1) (drop n_bytes rest)
    ]

  unfoldable pub tokenize_bytes_marker : TokTrie → List ℕ → Option (List ℕ × ℕ)
  unfolding marker_loop
  tokenize_bytes_marker trie s = marker_loop (length s) trie [] 0 s
