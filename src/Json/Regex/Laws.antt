-- ===== src/Json/Regex/Laws.antt =====
-- What the alternatives that `mk_or` joins match.
use llguidance.Prelude.{ℕ, ◌<◌, ◌⊎◌, ◌↔◌, inl, inr, List, [], ◌∷◌, ◌++◌, length, arith}
use llguidance.Json.Regex.{Regex, joined, mk_or, Matches}

-- One of the expressions matches.
unfoldable pub AnyOf : List Regex → List ℕ → Type 0
unfolding Matches
AnyOf [] s = ⊥
AnyOf (p ∷ parts) s = Matches p s ⊎ AnyOf parts s

joined-AnyOf :
    (p : Regex) (parts : List Regex) (s : List ℕ) → Matches (joined p parts) s ↔ AnyOf (p ∷ parts) s
unfolding Matches AnyOf
joined-AnyOf p [] s = (λ m. inl m, λ a. elim a [ inl m ↦ m | inr b ↦ absurd b ])
joined-AnyOf p (q ∷ parts) s =
    let ih = joined-AnyOf q parts s in
    (
      λ m. elim m [ inl x ↦ inl x | inr x ↦ inr (ih.0 x) ],
      λ a. elim a [ inl x ↦ inl x | inr x ↦ inr (ih.1 x) ],
    )

pub mk_or-AnyOf :
    (parts : List Regex) (s : List ℕ) → 0 < length parts → Matches (mk_or parts) s ↔ AnyOf parts s
unfolding mk_or AnyOf Matches
mk_or-AnyOf [] s h = absurd (omega arith)
mk_or-AnyOf (p ∷ []) s h = joined-AnyOf p [] s
mk_or-AnyOf (p ∷ q ∷ parts) s h = joined-AnyOf p (q ∷ parts) s

pub AnyOf-append :
    (ps qs : List Regex) (s : List ℕ) → AnyOf (ps ++ qs) s ↔ (AnyOf ps s ⊎ AnyOf qs s)
unfolding AnyOf
AnyOf-append [] qs s = (λ a. inr a, λ a. elim a [ inl b ↦ absurd b | inr q ↦ q ])
AnyOf-append (p ∷ ps) qs s =
    let ih = AnyOf-append ps qs s in
    (
      λ a. elim a [
        | inl x ↦ inl (inl x)
        | inr x ↦ elim (ih.0 x) [ inl y ↦ inl (inr y) | inr y ↦ inr y ]
      ],
      λ a. elim a [
        | inl x ↦ elim x [ inl y ↦ inl y | inr y ↦ inr (ih.1 (inl y)) ]
        | inr x ↦ inr (ih.1 (inr x))
      ],
    )
