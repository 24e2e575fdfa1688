-- ===== src/Trie/Check.antt =====
-- `check_against` of toktrie/src/toktree.rs: a trie is compared with the tokens it should hold.
use llguidance.Prelude.{
  ℕ, zero, suc, ◌+◌, Bool, true, false, ◌&&◌, Option, none, some, List, [], ◌∷◌, ◌++◌, length,
  get_elem?, ltb, ◌==◌, if◌then◌else◌, ◌>>=◌, ◌>>◌, guard,
}
use llguidance.Prelude.Words.{u32}
use llguidance.Trie.{TokTrie, token, child_at_bytes}
use llguidance.Trie.Node.{byte, subtree_size, token_id}
use llguidance.Trie.Search.{token_at}

-- Whether two strings of bytes are equal.
unfoldable pub same_bytes : List ℕ → List ℕ → Bool
same_bytes [] [] = true
same_bytes [] (y ∷ ys) = false
same_bytes (x ∷ xs) [] = false
same_bytes (x ∷ xs) (y ∷ ys) = x == y && same_bytes xs ys

abbrev pub is_token : ℕ → Option ℕ → Bool
is_token tid none = false
is_token tid (some t) = t == tid

-- `node_children(par).any(…)`: a leaf with the byte and the token.
unfoldable pub has_leaf : ℕ → TokTrie → ℕ → ℕ → ℕ → ℕ → Option Bool
has_leaf zero self p endp b tid = if ltb p endp then none else some false
has_leaf (suc fuel) self p endp b tid = elim (ltb p endp) [
  | false ↦ some false
  | true ↦ get_elem? self.nodes p >>= λ n.
      elim (subtree_size n == 1 && (byte n == b && is_token tid (token_id n))) [
        | true ↦ some true
        | false ↦ has_leaf fuel self (p + subtree_size n) endp b tid
      ]
]

-- The round for the token `tid` whose bytes are `first ++ last ∷ []`.
unfoldable pub check_token : TokTrie → ℕ → List ℕ → ℕ → Option (Unit {0})
unfolding child_at_bytes token_at has_leaf
check_token self tid first last = do
  found ← child_at_bytes self 0 (first ++ last ∷ [])
  node ← found
  token ← token_at self node
  tid2 ← token
  elim (tid == tid2) [
    | true ↦ some tt
    | false ↦ do
      par_found ← child_at_bytes self 0 first
      par ← par_found
      n ← get_elem? self.nodes par
      has_it ← has_leaf (length self.nodes) self (par + 1) (par + subtree_size n) last tid
      guard has_it
  ]

-- All bytes but the last, and the last one.
unfoldable pub split_last : ℕ → List ℕ → List ℕ × ℕ
split_last b [] = ([], b)
split_last b (c ∷ bytes) = let r = split_last c bytes in (b ∷ r.0, r.1)

unfoldable pub check_against : TokTrie → ℕ → List (List ℕ) → Option (Unit {0})
unfolding token same_bytes split_last check_token
check_against self idx [] = some tt
check_against self idx ([] ∷ tokens) = do
  t ← token self (u32 idx)
  guard (same_bytes [] t)
  check_against self (idx + 1) tokens
check_against self idx ((b ∷ bytes) ∷ tokens) = do
  t ← token self (u32 idx)
  guard (same_bytes (b ∷ bytes) t)
  check_token self (u32 idx) (split_last b bytes).0 (split_last b bytes).1
  check_against self (idx + 1) tokens
