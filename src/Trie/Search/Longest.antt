-- ===== src/Trie/Search/Longest.antt =====
-- `prefix_token_id` of toktrie/src/toktree.rs: on the nodes of a tree it finds the longest prefix that
-- is a token.
use llguidance.Prelude.{
  ℕ, zero, suc, ◌+◌, ◌<◌, ◌≤◌, ◌≡◌, ◌≢◌, ◌⊎◌, inl, inr, refl, sym, ◌∙◌, ap, Option, none, some,
  List, [], ◌∷◌, length, get_elem?, drop, take, ◌>>=◌, arith,
}
use mathlib.Core.List.{append-nil}
use mathlib.Core.Option.{none-ne-some}
use llguidance.Trie.{TokTrie, child_at_byte}
use llguidance.Trie.Node.{TrieNode, token_id}
use llguidance.Trie.Forest.{Forest, HasToken}
use llguidance.Trie.Walk.Bias.{Represents}
use llguidance.Trie.Search.{token_at, prefix_loop, prefix_token_id}
use llguidance.Trie.Search.Descend.{
  descend, AreDistinct, HasToken-nil, descend-none, not_there, descend-below, descend-here,
  AreDistinct-descend, descend-splits,
}
use llguidance.Trie.Search.Place.{IsNode, Finds, nothing, child, child_at_byte-Finds}

-- No prefix that is longer than `k` bytes is a token of the tree.
abbrev pub NoTokenAfter : Forest → List ℕ → ℕ → Type 0
NoTokenAfter f bytes k = (j tok : ℕ) → k < j → j ≤ length bytes → ¬ HasToken f (take j bytes) tok

-- `r` is `last` if no prefix of the bytes is a token, and else the longest prefix that is one, with its
-- length, where `idx` bytes were read before.
abbrev pub IsLongest : Forest → ℕ → ℕ × ℕ → List ℕ → ℕ × ℕ → Type 0
IsLongest f idx last bytes r =
    ((r ≡ last) × NoTokenAfter f bytes 0)
    ⊎ ((k : ℕ) × (tok : ℕ) × (r ≡ (tok, idx + k))
        × (k ≤ length bytes)
        × HasToken f (take k bytes) tok
        × NoTokenAfter f bytes k)

NoTokenAfter-none :
    (f : Forest) (b : ℕ) (bytes : List ℕ) → descend f b ≡ none → NoTokenAfter f (b ∷ bytes) 0
NoTokenAfter-none f b bytes h zero tok l m p = absurd (omega (arith, l))
NoTokenAfter-none f b bytes h (suc j) tok l m p = not_there (descend-none f b h) p

NoTokenAfter-zero :
    (f : Forest) (b : ℕ) (c : Forest) (bytes : List ℕ)
    → AreDistinct f
    → descend f b ≡ some (none, c)
    → NoTokenAfter c bytes 0
    → NoTokenAfter f (b ∷ bytes) 0
NoTokenAfter-zero f b c bytes d h absent zero tok l m p = absurd (omega (arith, l))
NoTokenAfter-zero f b c bytes d h absent (suc j) tok l m p =
    elim (descend-splits f b tok none c (take j bytes) d h p) [
      | inl (u, v) ↦ none-ne-some tok v
      | inr q ↦ inside j m q
    ]
  where
    inside : (j : ℕ) → suc j ≤ suc (length bytes) → HasToken c (take j bytes) tok → ⊥
    inside zero m q = HasToken-nil q
    inside (suc j) m q = absent (suc j) tok (omega arith) (omega (arith, m)) q

NoTokenAfter-suc :
    (f : Forest) (b k : ℕ) (t : Option ℕ) (c : Forest) (bytes : List ℕ)
    → AreDistinct f
    → descend f b ≡ some (t, c)
    → NoTokenAfter c bytes k
    → NoTokenAfter f (b ∷ bytes) (suc k)
NoTokenAfter-suc f b k t c bytes d h absent zero tok l m p = absurd (omega (arith, l))
NoTokenAfter-suc f b k t c bytes d h absent (suc j) tok l m p =
    elim (descend-splits f b tok t c (take j bytes) d h p) [
      | inl (u, v) ↦ long bytes j (omega (arith, l)) (omega (arith, m)) u
      | inr q ↦ absent j tok (omega (arith, l)) (omega (arith, m)) q
    ]
  where
    long : (bytes : List ℕ) (j : ℕ) → k < j → j ≤ length bytes → take j bytes ≢ []
    long [] j l m u = absurd (omega (arith, l, m))
    long (x ∷ bytes) zero l m u = absurd (omega (arith, l))
    long (x ∷ bytes) (suc j) l m u = absurd (cc u)

-- What holds below a child holds of the node, with one byte more.
deeper :
    (f : Forest) (b idx : ℕ) (last r : ℕ × ℕ) (t : Option ℕ) (c : Forest) (bytes : List ℕ)
    → AreDistinct f
    → descend f b ≡ some (t, c)
    → IsLongest c (idx + 1) (elim t [ none ↦ last | some tok ↦ (tok, idx + 1) ]) bytes r
    → IsLongest f idx last (b ∷ bytes) r
deeper f b idx last r t c bytes d h (inr (k, tok, e, m, is, absent)) =
    let shift : idx + 1 + k ≡ idx + suc k = omega arith in
    inr (
      suc k,
      tok,
      e ∙ ap (λ i. (tok, i)) shift,
      omega (arith, m),
      descend-below f b tok t c (take k bytes) h is,
      NoTokenAfter-suc f b k t c bytes d h absent,
    )
deeper f b idx last r none c bytes d h (inl (e, absent)) =
    inl (e, NoTokenAfter-zero f b c bytes d h absent)
deeper f b idx last r (some tok) c bytes d h (inl (e, absent)) = inr (
  1,
  tok,
  e,
  omega arith,
  descend-here f b tok c h,
  NoTokenAfter-suc f b 0 (some tok) c bytes d h absent,
)

token_at-read :
    (self : TokTrie) (off : ℕ) (n : TrieNode) (t : Option ℕ)
    → get_elem? self.nodes off ≡ some n
    → token_id n ≡ t
    → token_at self off ≡ some t
unfolding token_at
token_at-read self off n t e is = rw (e, ◌>>=◌) (ap some is)

-- What the loop does from a node on.
abbrev Runs : TokTrie → ℕ → ℕ → ℕ × ℕ → List ℕ → Forest → Type 0
Runs self off idx last bytes f =
    (r : ℕ × ℕ) × (prefix_loop self off idx last bytes ≡ some r) × IsLongest f idx last bytes r

prefix_loop-IsLongest :
    (self : TokTrie) (off idx : ℕ) (last : ℕ × ℕ) (bytes : List ℕ) (f : Forest)
    → AreDistinct f
    → IsNode self.nodes off f
    → Runs self off idx last bytes f
unfolding prefix_loop
prefix_loop-IsLongest self off idx last [] f d is =
    (last, refl, inl (refl, λ j tok l m p. absurd (omega (arith, l, m))))
prefix_loop-IsLongest self off idx last (b ∷ bytes) f d is =
    let (found, e, finds) = child_at_byte-Finds self off b f is in
    follow (λ q idx last c d below. prefix_loop-IsLongest self q idx last bytes c d below) found e
      finds
  where
    follow :
        ((q idx : ℕ) (last : ℕ × ℕ) (c : Forest)
          → AreDistinct c
          → IsNode self.nodes q c
          → Runs self q idx last bytes c)
        → (found : Option ℕ) → child_at_byte self off b ≡ some found
        → Finds self.nodes f b found
        → Runs self off idx last (b ∷ bytes) f
    follow recur none e (nothing h) = (last, rw e refl, inl (refl, NoTokenAfter-none f b bytes h))
    follow recur (some q) e (child {n} {t} {c} h at token_is below) =
        let (r, runs, longest) =
          recur q (idx + 1) (elim t [ none ↦ last | some tok ↦ (tok, idx + 1) ]) c
            (AreDistinct-descend f b t c d h) below in
        (
          r,
          rw (e, ◌>>=◌) (rw (token_at-read self q n t at token_is, ◌>>=◌) runs),
          deeper f b idx last r t c bytes d h longest,
        )

-- On a trie that represents a tree in which no two children of a node have the same byte,
-- `prefix_token_id` returns a result for every string that is not empty: the longest prefix that is a
-- token of the tree, with its length, or (0, 0) when no prefix of the string is a token.
pub prefix_token_id-IsLongest :
    (self : TokTrie) (f : Forest) (b : ℕ) (bytes : List ℕ)
    → Represents self f
    → AreDistinct f
    → (r : ℕ × ℕ) × (prefix_token_id self (b ∷ bytes) ≡ some r) × IsLongest f 0 (0, 0) (b ∷ bytes) r
unfolding prefix_token_id
prefix_token_id-IsLongest self f b bytes rep d =
    prefix_loop-IsLongest self 0 0 (0, 0) (b ∷ bytes) f d
      (record {
        node = rep.root;
        at = ap (λ l. get_elem? l 0) rep.nodes_are;
        wide = rep.root_size;
        children = record {
          parents = 1;
          held = rep.below;
          rest = [];
          lies = rep.lies;
          from_there = ap (λ l. drop 1 l) rep.nodes_are ∙ sym (append-nil rep.below);
        };
      })
