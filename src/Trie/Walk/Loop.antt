-- ===== src/Trie/Walk/Loop.antt =====
-- The loop of `add_bias_inner` (toktrie/src/toktree.rs) over the nodes of a forest.
use llguidance.Prelude.{
  ℕ, suc, ◌+◌, ◌-◌, ◌*◌, ◌≤◌, ◌<◌, ◌≡◌, ◌≢◌, refl, ap, ◌∙◌, inl, inr, Bool, true, false, ◌||◌,
  Option, none, some, List, ◌∷◌, length, get_elem?, drop, arith, leb, ◌==◌, if◌then◌else◌, lt→ltb,
  Bool-cases, checked_sub-le,
}
use llguidance.Svob.{SimpleVob, allow_token_unchecked}
use llguidance.Svob.View.{IsValid, contains}
use llguidance.Svob.Bit.{allow_token-Updates, allow_token_unchecked-eq-allow_token}
use llguidance.Recognizer.{Recognizer, IsStack}
use llguidance.Trie.Node.{TrieNode, byte, subtree_size, num_parents, token_id, Reads}
use llguidance.Trie.Forest.{hits}
use llguidance.Trie.Walk.{WalkState, token_or, push_node, walk_step, walk}

module _ {R : Recognizer} {viable : List ℕ → Bool} {capacity : ℕ} (S : IsStack R viable capacity)
    (nodes : List TrieNode) (defl_tok endp : ℕ) where
  -- After the pending pops the stack of the recognizer is `path`.
  abbrev pub Pending : WalkState R → List ℕ → Type 0
  Pending s path =
      (q : List ℕ) × S.Tracks s.r q × (s.next_pop ≤ length q) × (drop s.next_pop q ≡ path)

  abbrev pub HasRoom : SimpleVob → Type 0
  HasRoom v = IsValid v × (defl_tok < length v.words * 32)

  -- From `s` with the fuel `fuel` the loop moves past `n` nodes, allows the tokens that `adds`
  -- tells, leaves the stack at `path`, and goes on. The token `defl_tok` is not spoken of.
  pub record Walked (n : ℕ) (adds : ℕ → Bool) (path : List ℕ) (fuel : ℕ) (s : WalkState R)
      : Type 0 where
    pub left : ℕ
    pub out : WalkState R
    pub runs : walk R fuel nodes defl_tok endp s ≡ walk R left nodes defl_tok endp out
    pub enough : fuel ≤ left + n
    pub moved : out.p ≡ s.p + n
    pub pending : Pending out path
    pub room : HasRoom out.toks
    pub same_size : out.toks.size ≡ s.toks.size
    pub same_words : length out.toks.words ≡ length s.toks.words
    pub reads : (j : ℕ) → j ≢ defl_tok → contains out.toks j ≡ (contains s.toks j || adds j)
    pub skips : out.num_skip ≤ s.num_skip + n

  pub Walked-done :
      (path : List ℕ) (fuel : ℕ) (s : WalkState R)
      → Pending s path
      → HasRoom s.toks
      → Walked 0 (λ j. false) path fuel s
  Walked-done path fuel s h k = record {
    left = fuel;
    out = s;
    runs = refl;
    enough = omega arith;
    moved = omega arith;
    pending = h;
    room = k;
    same_size = refl;
    same_words = refl;
    reads = λ j _. ground arith;
    skips = omega arith;
  }

  pub Walked-then :
      {n m : ℕ} {a b c : ℕ → Bool} {path last : List ℕ} {fuel : ℕ} {s : WalkState R} (total : ℕ)
      → (w : Walked n a path fuel s) → Walked m b last w.left w.out
      → total ≡ n + m
      → ((j : ℕ) → (a j || b j) ≡ c j)
      → Walked total c last fuel s
  Walked-then total w v e same = record {
    left = v.left;
    out = v.out;
    runs = w.runs ∙ v.runs;
    enough = omega (arith, w.enough, v.enough);
    moved = omega (arith, w.moved, v.moved);
    pending = v.pending;
    room = v.room;
    same_size = v.same_size ∙ w.same_size;
    same_words = v.same_words ∙ w.same_words;
    reads = λ j ne. v.reads j ne ∙ ground (arith, w.reads j ne, same j);
    skips = omega (arith, w.skips, v.skips);
  }

  pub Walked-same :
      {n : ℕ} {a c : ℕ → Bool} {path last : List ℕ} {fuel : ℕ} {s : WalkState R}
      → Walked n a path fuel s
      → path ≡ last
      → ((j : ℕ) → a j ≡ c j)
      → Walked n c last fuel s
  Walked-same {s = s} w e same = record {
    left = w.left;
    out = w.out;
    runs = w.runs;
    enough = w.enough;
    moved = w.moved;
    pending = rw (← e) w.pending;
    room = w.room;
    same_size = w.same_size;
    same_words = w.same_words;
    reads = λ j ne. w.reads j ne ∙ ap (λ t. contains s.toks j || t) (same j);
    skips = w.skips;
  }

  -- One round of the loop, once its step is known.
  walk-suc :
      (fuel : ℕ) (s t : WalkState R)
      → s.p < endp
      → walk_step R nodes defl_tok s ≡ some t
      → walk R (suc fuel) nodes defl_tok endp s ≡ walk R fuel nodes defl_tok endp t
  unfolding walk
  walk-suc fuel s t h e = rw (lt→ltb s.p endp h, walk) (rw e refl)

  step-eq :
      (s : WalkState R) (n : TrieNode) (r r' : R.State) (b : ℕ) (pushed : Bool)
      → R.pop_bytes s.next_pop s.r ≡ some r
      → get_elem? nodes s.p ≡ some n
      → byte n ≡ b
      → R.try_push_byte b r ≡ some (pushed, r')
      → walk_step R nodes defl_tok s ≡ push_node R defl_tok n s (pushed, r')
  unfolding walk_step
  step-eq s n r r' b pushed e f g h = rw (e, f, g, h) refl

  -- The token that a pushed node allows: its own, or `defl_tok`.
  push-allows :
      (s : WalkState R) (n : TrieNode) (r : R.State) (t : Option ℕ)
      → token_id n ≡ t
      → HasRoom s.toks
      → token_or t defl_tok ≤ defl_tok
      → (toks : SimpleVob) × (push_node R defl_tok n s (true, r)
          ≡ some (record {
            r = r;
            toks = toks;
            p = s.p + 1;
            next_pop = if subtree_size n == 1 then num_parents n else 0;
            num_skip = s.num_skip;
          }))
        × HasRoom toks
        × (toks.size ≡ s.toks.size)
        × (length toks.words ≡ length s.toks.words)
        × ((j : ℕ) → j ≢ defl_tok → contains toks j ≡ (contains s.toks j || hits t j))
  unfolding push_node
  push-allows s n r t e k l =
      let tok = token_or t defl_tok in
      let u = allow_token-Updates s.toks tok k.0 (omega (arith, k.1)) in
      let done : allow_token_unchecked s.toks tok ≡ some u.out =
        allow_token_unchecked-eq-allow_token s.toks tok ∙ u.returns in
      let small : leb tok defl_tok ≡ true = ground arith in
      (
        u.out,
        rw (e, small, done) refl,
        (u.valid, omega (arith, k.1, u.same_words)),
        u.same_size,
        u.same_words,
        λ j ne. u.reads j ∙ spoken t j ne,
      )
    where
      spoken :
          (t : Option ℕ) (j : ℕ)
          → j ≢ defl_tok
          → (if token_or t defl_tok == j then true else contains s.toks j)
            ≡ (contains s.toks j || hits t j)
      spoken none j ne = ground arith
      spoken (some t) j ne = ground arith

  -- A node whose byte is accepted: its token is allowed, and its byte stays on the stack unless
  -- the node is a leaf.
  pub enter_node :
      (s : WalkState R) (n : TrieNode) (b : ℕ) (t : Option ℕ) (width parents fuel : ℕ)
      (path : List ℕ)
      → Pending s path
      → HasRoom s.toks
      → get_elem? nodes s.p ≡ some n
      → Reads n b t width parents
      → s.p < endp
      → length path < capacity
      → token_or t defl_tok ≤ defl_tok
      → parents ≤ suc (length path)
      → viable (b ∷ path) ≡ true
      → Walked 1 (hits t) (if width == 1 then drop parents (b ∷ path) else b ∷ path) (suc fuel) s
  enter_node s n b t width parents fuel path h k at reads lt deep l fits v =
      let (q, tracks, small, drops) = h in
      let (r, popped, on_path) = S.pop s.r q s.next_pop tracks small in
      let (r', pushed, on_top) = S.push_viable r path b (rw drops at on_path) deep v in
      let (toks, step, room, size_eq, words_eq, reads_eq) =
        push-allows s n r' t reads.token_is k l in
      record {
        left = fuel;
        out = _;
        runs = walk-suc fuel s _ lt (step-eq s n r r' b true popped at reads.byte_is pushed ∙ step);
        enough = omega arith;
        moved = refl;
        pending = rw (reads.size_is, reads.parents_is) (pending_at r' on_top);
        room = room;
        same_size = size_eq;
        same_words = words_eq;
        reads = reads_eq;
        skips = omega arith;
      }
    where
      pending_at :
          (r' : R.State)
          → S.Tracks r' (b ∷ path)
          → (q : List ℕ) × S.Tracks r' q
            × ((if width == 1 then parents else 0) ≤ length q)
            × (drop (if width == 1 then parents else 0) q
                ≡ (if width == 1 then drop parents (b ∷ path) else b ∷ path))
      pending_at r' on_top = elim (Bool-cases (width == 1)) [
        | inl e ↦ (b ∷ path, on_top, rw e fits, rw e refl)
        | inr e ↦ (b ∷ path, on_top, rw e (omega arith), rw e refl)
      ]

  -- A node whose byte is rejected: its subtree is passed over.
  pub skip_node :
      (s : WalkState R) (n : TrieNode) (b : ℕ) (t : Option ℕ) (width parents fuel : ℕ)
      (path : List ℕ)
      → Pending s path
      → HasRoom s.toks
      → get_elem? nodes s.p ≡ some n
      → Reads n b t (suc width) parents
      → s.p < endp
      → length path < capacity
      → 0 < parents
      → parents ≤ suc (length path)
      → viable (b ∷ path) ≡ false
      → Walked (suc width) (λ j. false) (drop (parents - 1) path) (suc fuel) s
  skip_node s n b t width parents fuel path h k at reads lt deep pos fits v =
      let (q, tracks, small, drops) = h in
      let (r, popped, on_path) = S.pop s.r q s.next_pop tracks small in
      let (r', pushed, on_top) = S.push_not_viable r path b (rw drops at on_path) deep v in
      record {
        left = fuel;
        out = record {
          r = r';
          toks = s.toks;
          p = s.p + suc width;
          next_pop = parents - 1;
          num_skip = s.num_skip + (suc width - 1);
        };
        runs = walk-suc fuel s _ lt (
            step-eq s n r r' b false popped at reads.byte_is pushed
            ∙ step r' reads.size_is reads.parents_is);
        enough = omega arith;
        moved = refl;
        pending = (path, on_top, omega arith, refl);
        room = k;
        same_size = refl;
        same_words = refl;
        reads = λ j _. ground arith;
        skips = omega arith;
      }
    where
      step :
          (r' : R.State)
          → subtree_size n ≡ suc width
          → num_parents n ≡ parents
          → push_node R defl_tok n s (false, r')
            ≡ some (record {
              r = r';
              toks = s.toks;
              p = s.p + suc width;
              next_pop = parents - 1;
              num_skip = s.num_skip + (suc width - 1);
            })
      step r' e f =
          unfold push_node in
          rw (e, f, checked_sub-le (suc width) 1 (omega arith), checked_sub-le parents 1 pos) refl
