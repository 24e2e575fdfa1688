-- ===== src/Trie/Walk/Bias.antt =====
-- `add_bias` of toktrie/src/toktree.rs from the root: which tokens it allows.
use mathlib.Core.List.{append-nil}
use mathlib.Core.Path.{subst}
use llguidance.Prelude.{
  ℕ, zero, suc, ◌+◌, ◌-◌, ◌*◌, ◌%◌, ◌^◌, ◌≤◌, ◌<◌, ◌≡◌, ◌≢◌, ◌↔◌, refl, ap, sym, ◌∙◌, ◌⊎◌, inl, inr,
  Bool, true, false, ◌||◌, Option, some, List, [], ◌∷◌, length, get_elem?, drop, take, arith, leb,
  ltb, Bool-cases, ◌>>=◌, checked_sub, checked_sub-le, ==_iff,
}
use llguidance.Svob.{SimpleVob, disallow_token}
use llguidance.Svob.View.{IsValid, contains}
use llguidance.Svob.Bit.{disallow_token-Updates}
use llguidance.Recognizer.{Recognizer, IsStack}
use llguidance.Trie.{TokTrie, vocab_size, child_at_bytes}
use llguidance.Trie.Node.{TrieNode, subtree_size}
use llguidance.Trie.Forest.{
  Forest, end, branch, size, depth, Lies, length-Lies, allows, allows_iff, accepts, HasToken,
  TokensBelow,
}
use llguidance.Trie.Walk.{WalkState, walk, add_bias_inner, add_bias_at, add_bias}
use llguidance.Trie.Walk.Loop.{Pending}
use llguidance.Trie.Walk.Trees.{walk_forest, ends}

-- The nodes of the trie are a root and, behind it, the forest.
pub record Represents (self : TokTrie) (f : Forest) : Type 0 where
  pub root : TrieNode
  pub below : List TrieNode
  pub nodes_are : self.nodes ≡ root ∷ below
  pub root_size : subtree_size root ≡ suc (size f)
  pub lies : Lies 1 f below
  pub tokens : TokensBelow self.info.vocab_size f
  pub vocab_u32 : self.info.vocab_size < 2 ^ 32

take_all : {A : Type 0} (xs : List A) (n : ℕ) → length xs ≤ n → take n xs ≡ xs
take_all [] zero h = refl
take_all [] (suc n) h = refl
take_all (x ∷ xs) zero h = absurd (omega arith)
take_all (x ∷ xs) (suc n) h = ap (λ l. x ∷ l) (take_all xs n (omega arith))

walk_stops :
    (R : Recognizer) (fuel : ℕ) (nodes : List TrieNode) (defl_tok endp : ℕ) (s : WalkState R)
    → endp ≤ s.p
    → walk R fuel nodes defl_tok endp s ≡ some s
unfolding walk
walk_stops R zero nodes defl_tok endp s h = rw (not_below, walk) refl
  where
    not_below : ltb s.p endp ≡ false
    not_below = ground arith
walk_stops R (suc fuel) nodes defl_tok endp s h = rw (not_below, walk) refl
  where
    not_below : ltb s.p endp ≡ false
    not_below = ground arith

module _ {R : Recognizer} {viable : List ℕ → Bool} {capacity : ℕ} (S : IsStack R viable capacity)
    (self : TokTrie) (f : Forest) (rep : Represents self f) (deep : depth f ≤ capacity) where
  -- The walk from the root ends, with the pending pops down to the bottom of the stack.
  abbrev WalkedAll : R.State → SimpleVob → Type 0
  WalkedAll r toks =
      (s : WalkState R) × (walked : ℕ) × (add_bias_inner R self r toks 0 ≡ some (s, walked))
      × Pending S self.nodes self.info.vocab_size (suc (size f)) s []
      × IsValid s.toks
      × (self.info.vocab_size < length s.toks.words * 32)
      × (s.toks.size ≡ toks.size)
      × (length s.toks.words ≡ length toks.words)
      × ((j : ℕ)
          → j ≢ self.info.vocab_size
          → contains s.toks j ≡ (contains toks j || allows viable f [] j))

  start_state : R.State → SimpleVob → WalkState R
  start_state r toks = record { r = r; toks = toks; p = 1; next_pop = 0; num_skip = 0 }

  inner_enters :
      (r : R.State) (toks : SimpleVob)
      → add_bias_inner R self r toks 0 ≡ (
          walk R (suc (size f)) self.nodes self.info.vocab_size (suc (size f)) (start_state r toks)
          >>= λ s. checked_sub (suc (size f)) s.num_skip >>= λ walked. some (s, walked))
  unfolding add_bias_inner vocab_size start_state
  inner_enters r toks =
      let at : get_elem? self.nodes 0 ≡ some rep.root = ap (λ l. get_elem? l 0) rep.nodes_are in
      let endp : 0 + suc (size f) ≡ suc (size f) = omega arith in
      let small : self.info.vocab_size % 2 ^ 32 ≡ self.info.vocab_size =
        omega (arith, rep.vocab_u32) in
      let len : length self.nodes ≡ suc (size f) =
        ap length rep.nodes_are ∙ ap suc (length-Lies 1 f rep.below rep.lies) in
      let inside : leb (suc (size f)) (length self.nodes) ≡ true = ground arith in
      let whole : take (suc (size f)) self.nodes ≡ self.nodes =
        take_all self.nodes (suc (size f)) (omega (arith, len)) in
      rw (at, rep.root_size) (rw (endp, small) (rw (inside, whole) refl))

  ends_root : (g : Forest) → ends g 1 [] ≡ []
  ends_root end = refl
  ends_root (branch b t c r) = refl

  add_bias_inner-WalkedAll :
      (r : R.State) (toks : SimpleVob)
      → S.Tracks r []
      → IsValid toks
      → self.info.vocab_size < length toks.words * 32
      → WalkedAll r toks
  unfolding start_state
  add_bias_inner-WalkedAll r toks tracks valid room =
      let below_len : length rep.below ≡ size f = length-Lies 1 f rep.below rep.lies in
      let w =
        walk_forest S self.nodes self.info.vocab_size (suc (size f)) f 1 [] rep.below rep.lies
          rep.tokens (omega (arith, deep)) (omega arith) (omega arith) (suc (size f))
          (start_state r toks) [] (ap (drop 1) rep.nodes_are ∙ sym (append-nil rep.below))
          (omega arith) (omega arith) ([], tracks, omega arith, refl) (valid, room) in
      let stops =
        w.runs
        ∙ walk_stops R w.left self.nodes self.info.vocab_size (suc (size f)) w.out
            (omega (arith, w.moved)) in
      (
        w.out,
        suc (size f) - w.out.num_skip,
        inner_enters r toks
            ∙ rw stops
                (rw (checked_sub-le (suc (size f)) w.out.num_skip (omega (arith, w.skips))) refl),
        subst (Pending S self.nodes self.info.vocab_size (suc (size f)) w.out) (ends_root f)
            w.pending,
        w.room.0,
        w.room.1,
        w.same_size,
        w.same_words,
        w.reads,
      )

  -- What `add_bias` leaves in the set.
  pub record Biased (toks : SimpleVob) (result : Option (R.State × SimpleVob)) : Type 0 where
    pub state : R.State
    pub out : SimpleVob
    pub returns : result ≡ some (state, out)
    pub valid : IsValid out
    pub same_size : out.size ≡ toks.size
    pub same_words : length out.words ≡ length toks.words
    pub no_default : contains out self.info.vocab_size ≡ false
    pub reads :
        (j : ℕ)
        → j ≢ self.info.vocab_size
        → contains out j ≡ (contains toks j || allows viable f [] j)

  pub add_bias_at-Biased :
      (r : R.State) (toks : SimpleVob)
      → S.Tracks r []
      → IsValid toks
      → self.info.vocab_size < length toks.words * 32
      → Biased toks (add_bias_at R self r toks 0 true)
  add_bias_at-Biased r toks tracks valid room =
      let vocab = self.info.vocab_size in
      let (r1, started, tracks1) = S.started r [] tracks in
      let (s, walked, inner, pending, s_valid, s_room, size_eq, words_eq, adds) =
        add_bias_inner-WalkedAll r1 toks tracks1 valid room in
      let (q, tracks_q, small, bottom) = pending in
      let (r2, popped, tracks2) = S.pop s.r q s.next_pop tracks_q small in
      let (r3, finished) = S.finished r2 (drop s.next_pop q) tracks2 in
      let d = disallow_token-Updates s.toks vocab s_valid s_room in
      record {
        state = r3;
        out = d.out;
        returns = enters r r1 r2 r3 toks s walked d.out started inner popped finished d.returns;
        valid = d.valid;
        same_size = d.same_size ∙ size_eq;
        same_words = d.same_words ∙ words_eq;
        no_default = d.reads vocab ∙ rw ((==_iff vocab vocab).1 refl) refl;
        reads = λ j ne. d.reads j ∙ ground (arith, ne, adds j ne);
      }
    where
      enters :
          (r r1 r2 r3 : R.State) (toks : SimpleVob) (s : WalkState R) (walked : ℕ) (out : SimpleVob)
          → R.trie_started r ≡ some r1
          → add_bias_inner R self r1 toks 0 ≡ some (s, walked)
          → R.pop_bytes s.next_pop s.r ≡ some r2
          → R.trie_finished r2 ≡ some r3
          → disallow_token s.toks self.info.vocab_size ≡ some out
          → add_bias_at R self r toks 0 true ≡ some (r3, out)
      enters r r1 r2 r3 toks s walked out e1 e2 e3 e4 e5 =
          let small : self.info.vocab_size % 2 ^ 32 ≡ self.info.vocab_size =
            omega (arith, rep.vocab_u32) in
          unfold add_bias_at vocab_size in rw (e1, e2, e3, e4, small, e5) refl

  pub add_bias-eq :
      (r : R.State) (toks : SimpleVob)
      → add_bias R self r toks [] ≡ add_bias_at R self r toks 0 true
  unfolding add_bias child_at_bytes
  add_bias-eq r toks = refl

  -- From the root, with a recognizer that is a stack deep enough for the trie, `add_bias` returns,
  -- and a token below the vocabulary size is in the set afterwards exactly when it was before, or
  -- some word of it in the trie is accepted byte by byte. The place past the vocabulary is cleared,
  -- and the size of the set stays.
  pub add_bias_iff :
      (r : R.State) (toks : SimpleVob)
      → S.Tracks r []
      → IsValid toks
      → self.info.vocab_size < length toks.words * 32
      → (state : R.State) × (out : SimpleVob) × (add_bias R self r toks [] ≡ some (state, out))
        × IsValid out
        × (out.size ≡ toks.size)
        × (contains out self.info.vocab_size ≡ false)
        × ((j : ℕ)
            → j < self.info.vocab_size
            → (contains out j ≡ true) ↔ (
                (contains toks j ≡ true)
                ⊎ ((w : List ℕ) × HasToken f w j × (accepts viable [] w ≡ true))))
  add_bias_iff r toks tracks valid room =
      let b = add_bias_at-Biased r toks tracks valid room in
      (
        b.state,
        b.out,
        add_bias-eq r toks ∙ b.returns,
        b.valid,
        b.same_size,
        b.no_default,
        λ j lt.
            let e = b.reads j (λ q. absurd (omega arith)) in
            (λ h. either j (sym e ∙ h), λ h. e ∙ joined j h),
      )
    where
      either :
          (j : ℕ)
          → (contains toks j || allows viable f [] j) ≡ true
          → (contains toks j ≡ true)
            ⊎ ((w : List ℕ) × HasToken f w j × (accepts viable [] w ≡ true))
      either j h = elim (Bool-cases (contains toks j)) [
        | inl e ↦ inl e
        | inr e ↦ inr ((allows_iff viable f [] j).0 (ground (arith, h, e)))
      ]

      or_true : (x : Bool) → (x || true) ≡ true
      or_true true = refl
      or_true false = refl

      joined :
          (j : ℕ)
          → (contains toks j ≡ true)
            ⊎ ((w : List ℕ) × HasToken f w j × (accepts viable [] w ≡ true))
          → (contains toks j || allows viable f [] j) ≡ true
      joined j (inl e) = rw e refl
      joined j (inr p) = rw ((allows_iff viable f [] j).1 p) (or_true (contains toks j))
