-- ===== src/Trie/Forest.antt =====
-- The trie as a tree, and how it lies in the flat sequence of nodes of toktrie/src/toktree.rs:
-- each node is followed by its subtree, and `num_parents` of a node says how many levels end
-- with it.
use mathlib.Core.Bool.{false≢true}
use mathlib.Core.Path.{subst}
use llguidance.Prelude.{
  ℕ, suc, ◌+◌, ◌<◌, ◌≡◌, ◌↔◌, inl, inr, refl, ap, Bool, true, false, ◌&&◌, ◌||◌, Option, none, some,
  List, [], ◌∷◌, ◌++◌, length, max, arith, ◌==◌, Bool-cases, ==_iff, length-append,
}
use llguidance.Trie.Node.{TrieNode, Reads}

-- The children of a node, each with its byte, its token and its own children, as a list.
pub data Forest : Type 0 where
  end : Forest
  branch : ℕ → Option ℕ → Forest → Forest → Forest

abbrev pub size : Forest → ℕ
size end = 0
size (branch b t c r) = suc (size c + size r)

abbrev pub depth : Forest → ℕ
depth end = 0
depth (branch b t c r) = max (suc (depth c)) (depth r)

-- `num_parents` of a child: its parent's and one more for the last, one for the others.
abbrev pub parents_of : ℕ → Forest → ℕ
parents_of parents end = parents
parents_of parents (branch b t c r) = 1

-- `ns` holds the forest, whose last tree has `parents` in its root.
abbrev pub Lies : ℕ → Forest → List TrieNode → Type 0
Lies parents end ns = ns ≡ []
Lies parents (branch b t c r) ns =
    (n : TrieNode) × (cs : List TrieNode) × (rs : List TrieNode) × (ns ≡ n ∷ cs ++ rs)
    × Reads n b t (suc (size c)) (parents_of parents r)
    × Lies (suc (parents_of parents r)) c cs
    × Lies parents r rs

pub length-Lies :
    (parents : ℕ) (f : Forest) (ns : List TrieNode) → Lies parents f ns → length ns ≡ size f
length-Lies parents end ns h = ap length h
length-Lies parents (branch b t c r) ns (n, cs, rs, e, _, hc, hr) = omega (
  arith,
  ap length e,
  length-append cs rs,
  length-Lies (suc (parents_of parents r)) c cs hc,
  length-Lies parents r rs hr,
)

-- The bytes `word` lead from the forest's level to a node with the token `tok`.
pub data HasToken : Forest → List ℕ → ℕ → Type 0 where
  here : {b tok : ℕ} {c r : Forest} → HasToken (branch b (some tok) c r) (b ∷ []) tok
  below :
      {b tok : ℕ} {t : Option ℕ} {c r : Forest} {w : List ℕ}
      → HasToken c w tok
      → HasToken (branch b t c r) (b ∷ w) tok
  later :
      {b tok : ℕ} {t : Option ℕ} {c r : Forest} {w : List ℕ}
      → HasToken r w tok
      → HasToken (branch b t c r) w tok

abbrev pub hits : Option ℕ → ℕ → Bool
hits none tok = false
hits (some t) tok = t == tok

module _ (viable : List ℕ → Bool) where
  -- Each byte of the word can be pushed in turn on the stack `path`.
  unfoldable pub accepts : List ℕ → List ℕ → Bool
  accepts path [] = true
  accepts path (b ∷ w) = viable (b ∷ path) && accepts (b ∷ path) w

  -- Whether some word with the token is accepted, by recursion on the forest.
  unfoldable pub allows : Forest → List ℕ → ℕ → Bool
  allows end path tok = false
  allows (branch b t c r) path tok =
      (viable (b ∷ path) && (hits t tok || allows c (b ∷ path) tok)) || allows r path tok

  hit_head :
      (b : ℕ) (t : Option ℕ) (c r : Forest) (path : List ℕ) (tok : ℕ)
      → hits t tok ≡ true
      → viable (b ∷ path) ≡ true
      → (w : List ℕ) × HasToken (branch b t c r) w tok × (accepts path w ≡ true)
  hit_head b none c r path tok h v = absurd (false≢true h)
  hit_head b (some t) c r path tok h v = (
    b ∷ [],
    subst (λ u. HasToken (branch b (some t) c r) (b ∷ []) u) ((==_iff t tok).0 h) here,
    unfold accepts in rw v refl,
  )

  pub allows_sound :
      (f : Forest) (path : List ℕ) (tok : ℕ)
      → allows f path tok ≡ true
      → (w : List ℕ) × HasToken f w tok × (accepts path w ≡ true)
  unfolding allows accepts
  allows_sound end path tok h = absurd (false≢true h)
  allows_sound (branch b t c r) path tok h = elim (Bool-cases (allows r path tok)) [
    | inl e ↦ let (w, p, a) = allows_sound r path tok e in (w, later p, a)
    | inr e ↦ elim (Bool-cases (allows c (b ∷ path) tok)) [
      | inl g ↦
          let (w, p, a) = allows_sound c (b ∷ path) tok g in
          (b ∷ w, below p, ground (arith, h, e, a))
      | inr g ↦ hit_head b t c r path tok (ground (arith, h, e, g)) (ground (arith, h, e, g))
    ]
  ]

  pub allows_complete :
      {f : Forest} {w : List ℕ} {tok : ℕ} (path : List ℕ)
      → HasToken f w tok
      → accepts path w ≡ true
      → allows f path tok ≡ true
  unfolding allows accepts
  allows_complete path (here {b} {tok = t}) h =
      let same : (t == t) ≡ true = (==_iff t t).1 refl in
      let v : viable (b ∷ path) ≡ true = ground (arith, h) in rw (same, v) refl
  allows_complete {tok = u} path (below {b} {t} {c} {r} {w} p) h =
      let v : viable (b ∷ path) ≡ true = ground (arith, h) in
      let rest : allows c (b ∷ path) u ≡ true =
        allows_complete (b ∷ path) p (ground (arith, h, v)) in
      rw (v, rest) (or_true (hits t u) (allows r path u))
    where
      or_true : (x y : Bool) → ((true && (x || true)) || y) ≡ true
      or_true true y = refl
      or_true false y = refl
  allows_complete {tok = u} path (later {b} {t} {c} {r} p) h =
      rw (allows_complete path p h)
        (or_true (viable (b ∷ path) && (hits t u || allows c (b ∷ path) u)))
    where
      or_true : (x : Bool) → (x || true) ≡ true
      or_true true = refl
      or_true false = refl

  -- The recursion finds the tokens that have an accepted word, and no others.
  pub allows_iff :
      (f : Forest) (path : List ℕ) (tok : ℕ)
      → (allows f path tok ≡ true) ↔ ((w : List ℕ) × HasToken f w tok × (accepts path w ≡ true))
  allows_iff f path tok = (allows_sound f path tok, λ found. allows_complete path found.1 found.2)

-- Every token of the forest is below a bound.
abbrev pub TokensBelow : ℕ → Forest → Type 0
TokensBelow n end = Unit
TokensBelow n (branch b none c r) = TokensBelow n c × TokensBelow n r
TokensBelow n (branch b (some t) c r) = (t < n) × TokensBelow n c × TokensBelow n r
