-- ===== src/Trie/Build.antt =====
-- `BuilderNode` and `TrieBuilder` of toktrie/src/toktree.rs: the arena in which the tree is built,
-- with linked lists of children, and its serialization into the flat nodes.
use llguidance.Prelude.{
  ℕ, zero, suc, ◌+◌, Bool, true, false, not, ◌&&◌, Option, none, some, List, [], ◌∷◌, ◌++◌, length,
  get_elem?, set, replicate, ◌==◌, if◌then◌else◌, ◌>>=◌, ◌>>◌, guard, checked_sub,
}
use llguidance.Prelude.Words.{u32}
use llguidance.Trie.Node.{TrieNode, no_token, new, set_subtree_size}

abbrev pub no_node : ℕ
no_node = 0xffff_ffff

pub record BuilderNode : Type 0 where
  pub token_id : ℕ
  pub byte : ℕ
  pub first_child : ℕ
  pub next_sibling : ℕ
  pub last_child : ℕ

pub record TrieBuilder : Type 0 where
  pub nodes : List BuilderNode
  pub root_children : List ℕ

-- A node without a token and without relatives, as both `new` and `insert` push it.
abbrev pub fresh_node : ℕ → BuilderNode
fresh_node b = record {
  token_id = no_token;
  byte = b;
  first_child = no_node;
  next_sibling = no_node;
  last_child = no_node;
}

unfoldable pub builder_new : ℕ → TrieBuilder
builder_new root_byte = record {
  nodes = fresh_node root_byte ∷ [];
  root_children = replicate 256 no_node;
}

-- `self.nodes[i].… = …`, as a change of the node at `i`.
unfoldable pub update_node :
    (BuilderNode → BuilderNode) → ℕ → List BuilderNode → Option (List BuilderNode)
update_node f i nodes = do n ← get_elem? nodes i; some (set nodes i (f n))

-- A child with the byte is taken, unless the word ends there and the child has a token already.
abbrev pub is_match : BuilderNode → ℕ → Bool → Bool
is_match n b is_last_byte = n.byte == b && not (is_last_byte && not (n.token_id == no_token))

-- The `while child_idx != NO_NODE` loop: the index of the child to go on with, if there is one.
-- The fuel is the number of nodes, since the links of a list of siblings do not come back.
unfoldable pub find_sibling : ℕ → List BuilderNode → ℕ → ℕ → Bool → Option (Option ℕ)
find_sibling zero nodes child_idx b is_last_byte = if child_idx == no_node then some none else none
find_sibling (suc fuel) nodes child_idx b is_last_byte = elim (child_idx == no_node) [
  | true ↦ some none
  | false ↦ get_elem? nodes child_idx >>= λ child_node. elim (is_match child_node b is_last_byte) [
    | true ↦ some (some child_idx)
    | false ↦ find_sibling fuel nodes child_node.next_sibling b is_last_byte
  ]
]

-- The fast path at the root: the byte of the node need not be compared.
unfoldable pub find_at_root : TrieBuilder → ℕ → Bool → Option (Option ℕ)
find_at_root self b is_last_byte = do
  root_child_idx ← get_elem? self.root_children b
  if root_child_idx == no_node
      then some none
      else (get_elem? self.nodes root_child_idx >>= λ child_node.
          if is_last_byte && not (child_node.token_id == no_token)
          then some none
          else some (some root_child_idx))

-- Step 1 of the loop of `insert`.
unfoldable pub find_existing : TrieBuilder → ℕ → ℕ → Bool → Option (Option ℕ)
unfolding find_sibling find_at_root
find_existing self curr_node_idx b is_last_byte =
    if curr_node_idx == 0
    then find_at_root self b is_last_byte
    else (get_elem? self.nodes curr_node_idx >>= λ curr.
        find_sibling (length self.nodes) self.nodes curr.first_child b is_last_byte)

-- The root's array of children is written for the first child with the byte.
unfoldable pub cache_root_child : List ℕ → ℕ → ℕ → ℕ → Option (List ℕ)
cache_root_child root_children curr_node_idx b new_node_idx =
    if curr_node_idx == 0
    then (get_elem? root_children b >>= λ c.
        if c == no_node then some (set root_children b new_node_idx) else some root_children)
    else some root_children

-- The new node becomes the first child, or the next sibling of the last one.
unfoldable pub link_child : List BuilderNode → ℕ → ℕ → Option (List BuilderNode)
unfolding update_node
link_child nodes curr_node_idx new_node_idx = do
  curr ← get_elem? nodes curr_node_idx
  nodes1 ←
      (if curr.last_child == no_node
        then update_node (λ n. record n { first_child = new_node_idx }) curr_node_idx nodes
        else update_node (λ n. record n { next_sibling = new_node_idx }) curr.last_child nodes)
  update_node (λ n. record n { last_child = new_node_idx }) curr_node_idx nodes1

-- Step 2: a new node at the end of the children; returns its index.
unfoldable pub append_node : TrieBuilder → ℕ → ℕ → Option (TrieBuilder × ℕ)
unfolding cache_root_child link_child
append_node self curr_node_idx b = do
  let new_node_idx = u32 (length self.nodes)
  root_children ← cache_root_child self.root_children curr_node_idx b new_node_idx
  nodes ← link_child (self.nodes ++ fresh_node b ∷ []) curr_node_idx new_node_idx
  some (record { nodes = nodes; root_children = root_children }, new_node_idx)

abbrev pub is_nil : List ℕ → Bool
is_nil [] = true
is_nil (b ∷ bs) = false

-- The loop over the bytes of the word; returns the node in which the word ends.
unfoldable pub insert_bytes : TrieBuilder → ℕ → List ℕ → Option (TrieBuilder × ℕ)
unfolding find_existing append_node
insert_bytes self curr_node_idx [] = some (self, curr_node_idx)
insert_bytes self curr_node_idx (b ∷ word) = do
  found ← find_existing self curr_node_idx b (is_nil word)
  (self1, next_idx) ← elim found [
    | none ↦ append_node self curr_node_idx b
    | some child ↦ some (self, child)
  ]
  insert_bytes self1 next_idx word

unfoldable pub insert : TrieBuilder → List ℕ → ℕ → Option TrieBuilder
unfolding insert_bytes update_node
insert self [] token_id = do
  root ← get_elem? self.nodes 0
  guard (root.token_id == no_token)
  nodes ← update_node (λ n. record n { token_id = token_id }) 0 self.nodes
  some (record self { nodes = nodes })
insert self (b ∷ word) token_id = do
  (self1, last_idx) ← insert_bytes self 0 (b ∷ word)
  nodes ← update_node (λ n. record n { token_id = token_id }) last_idx self1.nodes
  some (record self1 { nodes = nodes })

-- The first loop of `serialize_node`, which counts the children.
unfoldable pub count_children : ℕ → List BuilderNode → ℕ → Option ℕ
count_children zero nodes child = if child == no_node then some 0 else none
count_children (suc fuel) nodes child = elim (child == no_node) [
  | true ↦ some 0
  | false ↦ do
    n ← get_elem? nodes child
    rest ← count_children fuel nodes n.next_sibling
    some (suc rest)
]

-- The second loop, over the `num_ch` children that are left: `visit` is the call of
-- `serialize_node`.
unfoldable pub serialize_children :
    (ℕ → List TrieNode → ℕ → Option (List TrieNode))
    → ℕ
    → List BuilderNode
    → ℕ
    → List TrieNode
    → ℕ
    → Option (List TrieNode)
serialize_children visit zero nodes child out num_parents =
    if child == no_node then some out else none
serialize_children visit (suc num_ch) nodes child out num_parents = do
  guard (not (child == no_node))
  out1 ← visit child out (if num_ch == 0 then num_parents + 1 else 1)
  n ← get_elem? nodes child
  serialize_children visit num_ch nodes n.next_sibling out1 num_parents

-- `data` is `out` here. The fuel bounds the depth, which is less than the number of nodes.
unfoldable pub serialize_node :
    ℕ → List BuilderNode → ℕ → List TrieNode → ℕ → Option (List TrieNode)
unfolding count_children serialize_children
serialize_node zero nodes node_idx out num_parents = none
serialize_node (suc fuel) nodes node_idx out num_parents = do
  node ← get_elem? nodes node_idx
  let idx = length out
  num_ch ← count_children (length nodes) nodes node.first_child
  head ← new node.byte node.token_id (if num_parents == 0 then 1 else num_parents)
  out1 ←
      serialize_children (serialize_node fuel nodes) num_ch nodes node.first_child
        (out ++ head ∷ []) num_parents
  subtree_size ← checked_sub (length out1) idx
  n ← get_elem? out1 idx
  sized ← set_subtree_size n subtree_size
  some (set out1 idx sized)

unfoldable pub serialize : TrieBuilder → ℕ → Option (List TrieNode)
unfolding serialize_node
serialize self num_parents = serialize_node (length self.nodes) self.nodes 0 [] num_parents
