-- ===== src/Trie/Walk.antt =====
-- `add_bias` and `add_bias_inner` of toktrie/src/toktree.rs: the walk over
-- the flat trie under a recognizer.
pub mod Loop
pub mod Trees
pub mod Bias
use llguidance.Prelude.{
  ℕ, zero, suc, ◌+◌, ◌-◌, ◌≤◌, Bool, true, false, Option, none, some, List, [], ◌∷◌, length,
  get_elem?, take, leb, ltb, ◌==◌, if◌then◌else◌, ◌>>=◌, ◌>>◌, guard, checked_sub,
}
use llguidance.Prelude.Words.{u32}
use llguidance.Svob.{SimpleVob, allow_token_unchecked, disallow_token}
use llguidance.Recognizer.{Recognizer}
use llguidance.Recognizer.Fixed.{fixed_recognizer}
use llguidance.Recognizer.Fixed
use llguidance.Trie.{TokTrie, vocab_size, child_at_bytes}
use llguidance.Trie.Node.{TrieNode, byte, subtree_size, num_parents, token_id}

-- `n.token_id().unwrap_or(defl_tok)`
abbrev pub token_or : Option ℕ → ℕ → ℕ
token_or none defl_tok = defl_tok
token_or (some t) defl_tok = t

module _ (R : Recognizer) where
  -- The variables of the loop of `add_bias_inner`.
  pub record WalkState : Type 0 where
    pub r : R.State
    pub toks : SimpleVob
    pub p : ℕ
    pub next_pop : ℕ
    pub num_skip : ℕ

  -- The two branches on the result of `try_push_byte`.
  unfoldable pub push_node : ℕ → TrieNode → WalkState → Bool × R.State → Option WalkState
  push_node defl_tok n s (true, r) = do
    let tok = token_or (token_id n) defl_tok
    guard (leb tok defl_tok)
    toks ← allow_token_unchecked s.toks tok
    some (record {
      r = r;
      toks = toks;
      p = s.p + 1;
      next_pop = if subtree_size n == 1 then num_parents n else 0;
      num_skip = s.num_skip;
    })
  push_node defl_tok n s (false, r) = do
    skipped ← checked_sub (subtree_size n) 1
    next_pop ← checked_sub (num_parents n) 1
    some (record {
      r = r;
      toks = s.toks;
      p = s.p + subtree_size n;
      next_pop = next_pop;
      num_skip = s.num_skip + skipped;
    })

  unfoldable pub walk_step : List TrieNode → ℕ → WalkState → Option WalkState
  unfolding push_node
  walk_step nodes defl_tok s = do
    r ← R.pop_bytes s.next_pop s.r
    n ← get_elem? nodes s.p
    pushed ← R.try_push_byte (byte n) r
    push_node defl_tok n s pushed

  -- `while p < endp { … }`; each round moves `p` on, so `endp` rounds are enough.
  unfoldable pub walk : ℕ → List TrieNode → ℕ → ℕ → WalkState → Option WalkState
  unfolding walk_step
  walk zero nodes defl_tok endp s = elim (ltb s.p endp) [ true ↦ none | false ↦ some s ]
  walk (suc fuel) nodes defl_tok endp s = elim (ltb s.p endp) [
    | true ↦ walk_step nodes defl_tok s >>= walk fuel nodes defl_tok endp
    | false ↦ some s
  ]

  -- Returns the final state, and the number of nodes walked.
  unfoldable pub add_bias_inner : TokTrie → R.State → SimpleVob → ℕ → Option (WalkState × ℕ)
  unfolding walk
  add_bias_inner self r toks off = do
    let defl_tok = u32 (vocab_size self)
    n ← get_elem? self.nodes off
    let total_nodes = subtree_size n
    let endp = off + total_nodes
    guard (leb endp (length self.nodes))
    s ←
        walk endp (take endp self.nodes) defl_tok endp
          (record { r = r; toks = toks; p = off + 1; next_pop = 0; num_skip = 0 })
    walked ← checked_sub total_nodes s.num_skip
    some (s, walked)

  -- What follows the treatment of `start` in `add_bias`, at the node where `start` leads.
  unfoldable pub add_bias_at :
      TokTrie → R.State → SimpleVob → ℕ → Bool → Option (R.State × SimpleVob)
  unfolding add_bias_inner
  add_bias_at self r toks off start_is_empty = do
    r1 ← R.trie_started r
    (s, nodes_walked) ← add_bias_inner self r1 toks off
    r2 ← (if start_is_empty then R.pop_bytes s.next_pop s.r else some s.r)
    r3 ← R.trie_finished r2
    cleaned ← disallow_token s.toks (u32 (vocab_size self))
    some (r3, cleaned)

-- `is_empty`
abbrev pub no_bytes : List ℕ → Bool
no_bytes [] = true
no_bytes (b ∷ bytes) = false

-- `add_bias` calls itself once, with the fixed recognizer for `start` and no start.
unfoldable pub add_bias :
    (R : Recognizer) → TokTrie → R.State → SimpleVob → List ℕ → Option (R.State × SimpleVob)
unfolding add_bias_at
add_bias R self r toks start = do
  toks1 ←
      (if no_bytes start
        then some toks
        else (add_bias_at (fixed_recognizer start) self 0 toks 0 true >>= λ out. some out.1))
  found ← child_at_bytes self 0 start
  elim found [ none ↦ some (r, toks1) | some off ↦ add_bias_at R self r toks1 off (no_bytes start) ]
