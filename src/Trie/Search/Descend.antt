-- ===== src/Trie/Search/Descend.antt =====
-- The step by one byte in the tree that a trie stands for.
use llguidance.Prelude.{
  ℕ, ◌≡◌, ◌⊎◌, inl, inr, refl, sym, ◌∙◌, ap, Bool, true, false, ◌||◌, Option, none, some, List, [],
  ◌∷◌, ◌==◌, arith, Bool-cases, ==_iff,
}
use mathlib.Core.Bool.{true≢false}
use mathlib.Core.Option.{none-ne-some, some-injective}
use mathlib.Core.Path.{subst}
use llguidance.Trie.Forest.{Forest, end, branch, HasToken, here, below, later}

-- The token and the children of the first tree with the byte.
unfoldable pub descend : Forest → ℕ → Option (Option ℕ × Forest)
descend end b = none
descend (branch x t c r) b = elim (x == b) [ true ↦ some (t, c) | false ↦ descend r b ]

abbrev pub has_byte : ℕ → Forest → Bool
has_byte b end = false
has_byte b (branch x t c r) = (x == b) || has_byte b r

-- No two children of a node have the same byte.
abbrev pub AreDistinct : Forest → Type 0
AreDistinct end = Unit
AreDistinct (branch x t c r) = (has_byte x r ≡ false) × AreDistinct c × AreDistinct r

pub HasToken-nil : {f : Forest} {tok : ℕ} → ¬ HasToken f [] tok
HasToken-nil (later p) = HasToken-nil p

has_byte-HasToken :
    {f : Forest} {b tok : ℕ} {w : List ℕ} → HasToken f (b ∷ w) tok → has_byte b f ≡ true
has_byte-HasToken (here {b}) = let e : (b == b) ≡ true = (==_iff b b).1 refl in rw e refl
has_byte-HasToken (below {b} p) = let e : (b == b) ≡ true = (==_iff b b).1 refl in rw e refl
has_byte-HasToken (later p) = ground (arith, has_byte-HasToken p)

pub descend-none : (f : Forest) (b : ℕ) → descend f b ≡ none → has_byte b f ≡ false
unfolding descend
descend-none end b h = refl
descend-none (branch x t c r) b h = elim (Bool-cases (x == b)) [
  | inl e ↦ absurd (none-ne-some (t, c) (sym (rw (e, descend) at h)))
  | inr e ↦ rw e (descend-none r b (rw (e, descend) at h))
]

pub not_there :
    {f : Forest} {b tok : ℕ} {w : List ℕ} → has_byte b f ≡ false → ¬ HasToken f (b ∷ w) tok
not_there h p = true≢false (sym (has_byte-HasToken p) ∙ h)

pub descend-below :
    (f : Forest) (b tok : ℕ) (t : Option ℕ) (c : Forest) (w : List ℕ)
    → descend f b ≡ some (t, c)
    → HasToken c w tok
    → HasToken f (b ∷ w) tok
unfolding descend
descend-below end b tok t c w h p = absurd (none-ne-some (t, c) h)
descend-below (branch x s d r) b tok t c w h p = elim (Bool-cases (x == b)) [
  | inl e ↦
      let same : (s, d) ≡ (t, c) = some-injective (s, d) (t, c) (rw (e, descend) at h) in
      subst (λ y. HasToken (branch x s d r) (y ∷ w) tok) ((==_iff x b).0 e)
        (below (subst (λ g. HasToken g w tok) (sym (ap (λ y. y.1) same)) p))
  | inr e ↦ later (descend-below r b tok t c w (rw (e, descend) at h) p)
]

pub descend-here :
    (f : Forest) (b tok : ℕ) (c : Forest)
    → descend f b ≡ some (some tok, c)
    → HasToken f (b ∷ []) tok
unfolding descend
descend-here end b tok c h = absurd (none-ne-some (some tok, c) h)
descend-here (branch x s d r) b tok c h = elim (Bool-cases (x == b)) [
  | inl e ↦
      let same : (s, d) ≡ (some tok, c) =
        some-injective (s, d) (some tok, c) (rw (e, descend) at h) in
      subst (λ y. HasToken (branch x s d r) (y ∷ []) tok) ((==_iff x b).0 e)
        (subst (λ o. HasToken (branch x o d r) (x ∷ []) tok) (sym (ap (λ y. y.0) same)) here)
  | inr e ↦ later (descend-here r b tok c (rw (e, descend) at h))
]

pub AreDistinct-descend :
    (f : Forest) (b : ℕ) (t : Option ℕ) (c : Forest)
    → AreDistinct f
    → descend f b ≡ some (t, c)
    → AreDistinct c
unfolding descend
AreDistinct-descend end b t c d h = absurd (none-ne-some (t, c) h)
AreDistinct-descend (branch x s g r) b t c d h = elim (Bool-cases (x == b)) [
  | inl e ↦
      subst AreDistinct (ap (λ y. y.1) (some-injective (s, g) (t, c) (rw (e, descend) at h))) d.1
  | inr e ↦ AreDistinct-descend r b t c d.2 (rw (e, descend) at h)
]

-- A word whose first byte is that of the root of a tree ends there, or goes on below it.
split_head :
    {x b tok : ℕ} {s : Option ℕ} {g r : Forest} {w : List ℕ}
    → has_byte b r ≡ false
    → HasToken (branch x s g r) (b ∷ w) tok
    → ((w ≡ []) × (s ≡ some tok)) ⊎ HasToken g w tok
split_head h here = inl (refl, refl)
split_head h (below p) = inr p
split_head h (later p) = absurd (not_there h p)

skip_head :
    {x b tok : ℕ} {s : Option ℕ} {g r : Forest} {w : List ℕ}
    → (x == b) ≡ false
    → HasToken (branch x s g r) (b ∷ w) tok
    → HasToken r (b ∷ w) tok
skip_head {x} e here = absurd (true≢false (sym ((==_iff x x).1 refl) ∙ e))
skip_head {x} e (below p) = absurd (true≢false (sym ((==_iff x x).1 refl) ∙ e))
skip_head e (later p) = p

pub descend-splits :
    (f : Forest) (b tok : ℕ) (t : Option ℕ) (c : Forest) (w : List ℕ)
    → AreDistinct f
    → descend f b ≡ some (t, c)
    → HasToken f (b ∷ w) tok
    → ((w ≡ []) × (t ≡ some tok)) ⊎ HasToken c w tok
unfolding descend
descend-splits end b tok t c w d h p = absurd (none-ne-some (t, c) h)
descend-splits (branch x s g r) b tok t c w d h p = elim (Bool-cases (x == b)) [
  | inl e ↦
      let same : (s, g) ≡ (t, c) = some-injective (s, g) (t, c) (rw (e, descend) at h) in
      let alone : has_byte b r ≡ false = ap (λ y. has_byte y r) (sym ((==_iff x b).0 e)) ∙ d.0 in
      subst (λ (y : Option ℕ × Forest). ((w ≡ []) × (y.0 ≡ some tok)) ⊎ HasToken y.1 w tok) same
        (split_head alone p)
  | inr e ↦ descend-splits r b tok t c w d.2 (rw (e, descend) at h) (skip_head e p)
]
