-- ===== src/Trie/Walk/Trees.antt =====
-- The walk over a whole forest (toktrie/src/toktree.rs, `add_bias_inner`): it allows exactly the
-- tokens that have an accepted word.
use mathlib.Core.List.{append_assoc}
use llguidance.Prelude.{
  ℕ, zero, suc, ◌+◌, ◌-◌, ◌≤◌, ◌<◌, ◌≡◌, refl, ap, ◌∙◌, inl, inr, Bool, true, false, ◌&&◌, ◌||◌,
  Option, none, some, List, [], ◌∷◌, ◌++◌, length, get_elem?, drop, arith, ◌==◌, if◌then◌else◌,
  Bool-cases,
}
use llguidance.Recognizer.{Recognizer, IsStack}
use llguidance.Trie.Node.{TrieNode, Reads}
use llguidance.Trie.Forest.{
  Forest, end, branch, size, depth, Lies, length-Lies, hits, allows, TokensBelow,
}
use llguidance.Trie.Walk.{WalkState, token_or}
use llguidance.Trie.Walk.Loop.{
  Pending, HasRoom, Walked, Walked-done, Walked-then, Walked-same, enter_node, skip_node,
}

pub drop_head :
    (xs : List TrieNode) (p : ℕ) (y : TrieNode) (ys : List TrieNode)
    → drop p xs ≡ y ∷ ys
    → (get_elem? xs p ≡ some y) × (drop (p + 1) xs ≡ ys)
drop_head [] zero y ys e = absurd (cc e)
drop_head [] (suc p) y ys e = absurd (cc e)
drop_head (x ∷ xs) zero y ys e = (cc e, cc e)
drop_head (x ∷ xs) (suc p) y ys e =
    let (g, d) = drop_head xs p y ys e in
    (g, let i : suc p + 1 ≡ suc (p + 1) = omega arith in rw i d)

split :
    {l : List TrieNode} {ns : List TrieNode} {n : TrieNode} (cs rs rest : List TrieNode)
    → ns ≡ n ∷ cs ++ rs
    → l ≡ ns ++ rest
    → l ≡ n ∷ cs ++ (rs ++ rest)
split {n = n} cs rs rest e at =
    at ∙ ap (λ l. l ++ rest) e ∙ ap (λ l. n ∷ l) (append_assoc cs rs rest)

pub drop_past :
    (xs : List TrieNode) (p : ℕ) (ys zs : List TrieNode)
    → drop p xs ≡ ys ++ zs
    → drop (p + length ys) xs ≡ zs
drop_past xs p [] zs e = let i : p + 0 ≡ p = omega arith in rw i e
drop_past xs p (y ∷ ys) zs e =
    let i : p + suc (length ys) ≡ p + 1 + length ys = omega arith in
    rw i (drop_past xs (p + 1) ys zs (drop_head xs p y (ys ++ zs) e).1)

drop_pred :
    (b : ℕ) (path : List ℕ) (parents : ℕ)
    → 0 < parents
    → drop parents (b ∷ path) ≡ drop (parents - 1) path
drop_pred b path zero h = elim h [ ]
drop_pred b path (suc k) h = let i : suc k - 1 ≡ k = omega arith in rw i refl

drop_pred_suc :
    (b : ℕ) (path : List ℕ) (parents : ℕ)
    → 0 < parents
    → drop (suc parents - 1) (b ∷ path) ≡ drop (parents - 1) path
drop_pred_suc b path parents h =
    let i : suc parents - 1 ≡ parents = omega arith in
    ap (λ k. drop k (b ∷ path)) i ∙ drop_pred b path parents h

two_ne_one : (n : ℕ) → (suc (suc n) == 1) ≡ false
two_ne_one n = ground arith

token_or-le :
    (defl_tok : ℕ) (b : ℕ) (t : Option ℕ) (c r : Forest)
    → TokensBelow defl_tok (branch b t c r)
    → (token_or t defl_tok ≤ defl_tok) × TokensBelow defl_tok c × TokensBelow defl_tok r
token_or-le defl_tok b none c r h = (omega arith, h.0, h.1)
token_or-le defl_tok b (some t) c r h = (omega arith, h.1, h.2)

-- The stack after a forest whose last tree ends `parents` levels, its own among them.
abbrev pub ends : Forest → ℕ → List ℕ → List ℕ
ends end parents path = path
ends (branch b t c r) parents path = drop (parents - 1) path

module _ {R : Recognizer} {viable : List ℕ → Bool} {capacity : ℕ} (S : IsStack R viable capacity)
    (nodes : List TrieNode) (defl_tok endp : ℕ) where
  -- The loop from any state whose stack is about to be `path`, at the place of the forest `f`.
  abbrev Walks : Forest → ℕ → List ℕ → List TrieNode → Type 0
  Walks f parents path ns =
      (fuel : ℕ) (s : WalkState R) (rest : List TrieNode)
      → drop s.p nodes ≡ ns ++ rest
      → s.p + size f ≤ endp
      → size f ≤ fuel
      → Pending S nodes defl_tok endp s path
      → HasRoom S nodes defl_tok endp s.toks
      → Walked S nodes defl_tok endp (size f) (allows viable f path) (ends f parents path) fuel s

  -- After an accepted node, its children.
  enter_children :
      (b : ℕ) (t : Option ℕ) (c : Forest) (parents fuel : ℕ) (path : List ℕ)
      (cs rest : List TrieNode) (s : WalkState R)
      → viable (b ∷ path) ≡ true
      → 0 < parents
      → Walks c (suc parents) (b ∷ path) cs
      → drop (s.p + 1) nodes ≡ cs ++ rest
      → s.p + suc (size c) ≤ endp
      → size c ≤ fuel
      → Walked S nodes defl_tok endp 1
          (hits t)
          (if suc (size c) == 1 then drop parents (b ∷ path) else b ∷ path)
          (suc fuel)
          s
      → Walked S nodes defl_tok endp
          (suc (size c))
          (λ j. viable (b ∷ path) && (hits t j || allows viable c (b ∷ path) j))
          (drop (parents - 1) path)
          (suc fuel)
          s
  enter_children b t end parents fuel path cs rest s v pos inner at lt fl w =
      Walked-same S nodes defl_tok endp w (drop_pred b path parents pos) same
    where
      same :
          (j : ℕ) → hits t j ≡ (viable (b ∷ path) && (hits t j || allows viable end (b ∷ path) j))
      same j = unfold allows in rw v (or_false (hits t j))
        where
          or_false : (x : Bool) → x ≡ (true && (x || false))
          or_false true = refl
          or_false false = refl
  enter_children b t (branch b' t' c' r') parents fuel path cs rest s v pos inner at lt fl w =
      let w1 = Walked-same S nodes defl_tok endp w (not_leaf) (λ j. refl) in
      let w2 =
        inner w1.left w1.out rest (rw w1.moved at) (omega (arith, w1.moved))
          (omega (arith, w1.enough)) w1.pending w1.room in
      Walked-then S nodes defl_tok endp (suc (size c)) w1
        (Walked-same S nodes defl_tok endp w2 (drop_pred_suc b path parents pos) (λ j. refl))
        (omega arith) (λ j. rw v refl)
    where
      c : Forest
      c = branch b' t' c' r'

      not_leaf :
          (if suc (suc (size c' + size r')) == 1 then drop parents (b ∷ path) else b ∷ path)
          ≡ b ∷ path
      not_leaf = rw (two_ne_one (size c' + size r')) refl

  -- One tree: its root, and its children or the jump past them.
  walk_tree :
      (b : ℕ) (t : Option ℕ) (c r : Forest) (parents : ℕ) (path : List ℕ) (cs more : List TrieNode)
      (n : TrieNode) (fuel : ℕ) (s : WalkState R)
      → Reads n b t (suc (size c)) parents
      → drop s.p nodes ≡ n ∷ cs ++ more
      → Lies (suc parents) c cs
      → Walks c (suc parents) (b ∷ path) cs
      → s.p + suc (size c) ≤ endp
      → size c ≤ fuel
      → length path < capacity
      → 0 < parents
      → parents ≤ suc (length path)
      → token_or t defl_tok ≤ defl_tok
      → Pending S nodes defl_tok endp s path
      → HasRoom S nodes defl_tok endp s.toks
      → Walked S nodes defl_tok endp
          (suc (size c))
          (λ j. viable (b ∷ path) && (hits t j || allows viable c (b ∷ path) j))
          (drop (parents - 1) path)
          (suc fuel)
          s
  walk_tree b t c r parents path cs more n fuel s reads at lies inner lt fl deep pos fits tok h k =
      let (here, after) = drop_head nodes s.p n (cs ++ more) at in
      elim (Bool-cases (viable (b ∷ path))) [
        | inl v ↦ enter_children b t c parents fuel path cs more s v pos inner after lt fl (
            enter_node S nodes defl_tok endp s n b t (suc (size c)) parents fuel path h k here reads
              (omega arith) deep tok fits v)
        | inr v ↦
            Walked-same S nodes defl_tok endp
              (skip_node S nodes defl_tok endp s n b t (size c) parents fuel path h k here reads
                (omega arith) deep pos fits v)
              refl (λ j. rw v refl)
      ]

  next_at :
      (s : WalkState R) (p : ℕ) (n : TrieNode) (c : Forest) (parents : ℕ) (cs more : List TrieNode)
      → drop s.p nodes ≡ n ∷ cs ++ more
      → Lies parents c cs
      → p ≡ s.p + suc (size c)
      → drop p nodes ≡ more
  next_at s p n c parents cs more at lies e =
      let i : p ≡ s.p + length (n ∷ cs) = omega (arith, length-Lies parents c cs lies) in
      rw i (drop_past nodes s.p (n ∷ cs) more at)

  -- The loop passes a forest that lies in the nodes, and allows what the forest allows.
  pub walk_forest :
      (f : Forest) (parents : ℕ) (path : List ℕ) (ns : List TrieNode)
      → Lies parents f ns
      → TokensBelow defl_tok f
      → length path + depth f ≤ capacity
      → 0 < parents
      → parents ≤ suc (length path)
      → Walks f parents path ns
  walk_forest end parents path ns lies toks deep pos fits fuel s rest at lt fl h k =
      Walked-same S nodes defl_tok endp (Walked-done S nodes defl_tok endp path fuel s h k) refl
        (λ j. unfold allows in refl)
  walk_forest (branch b t c end) parents path ns (n, cs, rs, e, reads, lc, lr) toks deep pos fits
        zero s rest at lt fl h k =
      elim fl [ ]
  walk_forest (branch b t c end) parents path ns (n, cs, rs, e, reads, lc, lr) toks deep pos fits
        (suc fuel) s rest at lt fl h k =
      let (tok, below_c, below_r) = token_or-le defl_tok b t c end toks in
      let inner =
        walk_forest c (suc parents) (b ∷ path) cs lc below_c (omega arith) (omega arith)
          (omega arith) in
      let w =
        walk_tree b t c end parents path cs (rs ++ rest) n fuel s reads (split cs rs rest e at) lc
          inner (omega arith) (omega arith) (omega arith) pos fits tok h k in
      Walked-then S nodes defl_tok endp (size (branch b t c end)) w
        (Walked-done S nodes defl_tok endp (drop (parents - 1) path) w.left w.out w.pending w.room)
        (omega arith) (λ j. unfold allows in refl)
  walk_forest (branch b t c (branch b' t' c' r')) parents path ns (n, cs, rs, e, reads, lc, lr) toks
        deep pos fits zero s rest at lt fl h k =
      elim fl [ ]
  walk_forest (branch b t c (branch b' t' c' r')) parents path ns (n, cs, rs, e, reads, lc, lr) toks
        deep pos fits (suc fuel) s rest at lt fl h k =
      let r = branch b' t' c' r' in
      let (tok, below_c, below_r) = token_or-le defl_tok b t c r toks in
      let inner =
        walk_forest c 2 (b ∷ path) cs lc below_c (omega arith) (omega arith) (omega arith) in
      let at' = split cs rs rest e at in
      let w =
        walk_tree b t c r 1 path cs (rs ++ rest) n fuel s reads at' lc inner (omega arith)
          (omega arith) (omega arith) (omega arith) (omega arith) tok h k in
      let v =
        walk_forest (branch b' t' c' r') parents path rs lr below_r (omega arith) pos fits w.left
          w.out rest (next_at s w.out.p n c 2 cs (rs ++ rest) at' lc w.moved)
          (omega (arith, w.moved)) (omega (arith, w.enough)) w.pending w.room in
      Walked-then S nodes defl_tok endp (size (branch b t c r)) w v (omega arith)
        (λ j. unfold allows in refl)
