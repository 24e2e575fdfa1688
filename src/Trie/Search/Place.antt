-- ===== src/Trie/Search/Place.antt =====
-- `child_at_byte` of toktrie/src/toktree.rs on the nodes of a tree: it finds the child with the byte.
use llguidance.Prelude.{
  ℕ, zero, suc, ◌+◌, ◌<◌, ◌≤◌, ◌≡◌, inl, inr, refl, sym, ◌∙◌, ap, true, false, Option, none, some,
  List, ◌++◌, length, get_elem?, drop, ltb, ◌==◌, ◌>>=◌, arith, Bool-cases, length-append,
  length-drop,
}
use mathlib.Core.List.{append_assoc}
use llguidance.Trie.{TokTrie, find_child, child_at_byte}
use llguidance.Trie.Node.{TrieNode, byte, subtree_size, token_id}
use llguidance.Trie.Forest.{Forest, end, branch, size, parents_of, Lies, length-Lies}
use llguidance.Trie.Walk.Trees.{drop_head, drop_past}
use llguidance.Trie.Search.Descend.{descend}

-- The trees of the forest lie from the offset on.
pub record LiesAt (nodes : List TrieNode) (p : ℕ) (f : Forest) : Type 0 where
  pub parents : ℕ
  pub held : List TrieNode
  pub rest : List TrieNode
  pub lies : Lies parents f held
  pub from_there : drop p nodes ≡ held ++ rest

-- The node at the offset has the forest below it.
pub record IsNode (nodes : List TrieNode) (off : ℕ) (f : Forest) : Type 0 where
  pub node : TrieNode
  pub at : get_elem? nodes off ≡ some node
  pub wide : subtree_size node ≡ suc (size f)
  pub children : LiesAt nodes (off + 1) f

-- The child that is found is the one that the tree has.
pub data Finds (nodes : List TrieNode) (f : Forest) (b : ℕ) : Option ℕ → Type 0 where
  nothing : descend f b ≡ none → Finds nodes f b none
  child :
      {q : ℕ} {n : TrieNode} {t : Option ℕ} {c : Forest}
      → descend f b ≡ some (t, c)
      → get_elem? nodes q ≡ some n
      → token_id n ≡ t
      → IsNode nodes q c
      → Finds nodes f b (some q)

skips :
    {nodes : List TrieNode} {x b : ℕ} {t : Option ℕ} {c r : Forest} {found : Option ℕ}
    → (x == b) ≡ false
    → Finds nodes r b found
    → Finds nodes (branch x t c r) b found
unfolding descend
skips e (nothing h) = nothing (rw (e, descend) h)
skips e (child h at is below) = child (rw (e, descend) h) at is below

pub find_child-Finds :
    (nodes : List TrieNode) (g : Forest) (fuel p endp b : ℕ)
    → LiesAt nodes p g
    → endp ≡ p + size g
    → size g < fuel
    → (found : Option ℕ) × (find_child fuel nodes p endp b ≡ some found) × Finds nodes g b found
unfolding find_child descend
find_child-Finds nodes g zero p endp b l e h = absurd (omega (arith, h))
find_child-Finds nodes end (suc fuel) p endp b l e h =
    let stop : ltb p endp ≡ false = ground (arith, e) in
    (none, rw (stop, find_child) refl, nothing refl)
find_child-Finds nodes (branch x t c r) (suc fuel) p endp b l e h =
    let go : ltb p endp ≡ true = ground (arith, e) in
    let (n, cs, rs, whole, reads, below_n, after_n) = l.lies in
    let (at, behind) =
      drop_head nodes p n ((cs ++ rs) ++ l.rest) (l.from_there ∙ ap (λ ns. ns ++ l.rest) whole) in
    let regroup = append_assoc cs rs l.rest in
    let len = length-Lies (suc (parents_of l.parents r)) c cs below_n in
    elim (Bool-cases (x == b)) [
      | inl f ↦
          let same : (byte n == b) ≡ true = ap (λ y. y == b) reads.byte_is ∙ f in
          (
            some p,
            rw (go, find_child) (rw (at, ◌>>=◌) (rw same refl)),
            child (rw (f, descend) refl) at reads.token_is (record {
              node = n;
              at = at;
              wide = reads.size_is;
              children = record {
                parents = suc (parents_of l.parents r);
                held = cs;
                rest = rs ++ l.rest;
                lies = below_n;
                from_there = behind ∙ regroup;
              };
            }),
          )
      | inr f ↦
          let other : (byte n == b) ≡ false = ap (λ y. y == b) reads.byte_is ∙ f in
          let place : p + 1 + length cs ≡ p + subtree_size n = omega (arith, reads.size_is, len) in
          let (found, runs, finds) =
            find_child-Finds nodes r fuel (p + subtree_size n) endp b
              (record {
                parents = l.parents;
                held = rs;
                rest = l.rest;
                lies = after_n;
                from_there =
                    ap (λ i. drop i nodes) (sym place)
                    ∙ drop_past nodes (p + 1) cs (rs ++ l.rest) (behind ∙ regroup);
              })
              (omega (arith, e, reads.size_is)) (omega (arith, h)) in
          (found, rw (go, find_child) (rw (at, ◌>>=◌) (rw other runs)), skips f finds)
    ]

length-LiesAt :
    (nodes : List TrieNode) (p : ℕ) (f : Forest) → LiesAt nodes p f → size f ≤ length nodes
length-LiesAt nodes p f l = omega (
  arith,
  length-Lies l.parents f l.held l.lies,
  ap length l.from_there,
  length-append l.held l.rest,
  length-drop p nodes,
)

-- `child_at_byte` does not panic on a node of the tree, and finds the child that the tree has.
pub child_at_byte-Finds :
    (self : TokTrie) (off b : ℕ) (f : Forest)
    → IsNode self.nodes off f
    → (found : Option ℕ) × (child_at_byte self off b ≡ some found) × Finds self.nodes f b found
unfolding child_at_byte
child_at_byte-Finds self off b f is =
    let (found, runs, finds) =
      find_child-Finds self.nodes f (suc (length self.nodes)) (off + 1) (off + subtree_size is.node)
        b is.children (omega (arith, is.wide))
        (omega (arith, length-LiesAt self.nodes (off + 1) f is.children)) in
    (found, rw (is.at, ◌>>=◌) runs, finds)
