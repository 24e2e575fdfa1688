-- ===== src/HashCons.antt =====
-- `HashCons` of parser/src/hashcons.rs: values numbered from 1 in the order of their first insertion.
-- The hash map is an association list, under a test for equality of the keys.
pub mod Laws
mod Tests
use llguidance.Prelude.{
  ℕ, ◌+◌, ◌-◌, ◌<◌, Bool, true, false, not, Option, none, some, List, [], ◌∷◌, ◌++◌, length,
  get_elem?, ◌==◌, if◌then◌else◌, ◌>>=◌, ◌>>◌, guard, checked_sub,
}
use llguidance.Prelude.Words.{u32}

module _ (T : Type 0) (eq : T → T → Bool) where
  pub record HashCons : Type 0 where
    pub by_t : List (T × ℕ)
    pub all_t : List T

  abbrev pub default : HashCons
  default = record { by_t = []; all_t = [] }

  -- `by_t.get(&t)`
  unfoldable pub lookup : List (T × ℕ) → T → Option ℕ
  lookup [] t = none
  lookup ((k, id) ∷ rest) t = let found = lookup rest t in if eq k t then some id else found

  unfoldable pub insert : HashCons → T → Option (HashCons × ℕ)
  unfolding lookup
  insert self t = elim (lookup self.by_t t) [
    | some id ↦ some (self, id)
    | none ↦ do
      let id = u32 (length self.all_t + 1)
      guard (not (id == 0))
      some (record { by_t = (t, id) ∷ self.by_t; all_t = self.all_t ++ t ∷ [] }, id)
  ]

  unfoldable pub get : HashCons → ℕ → Option T
  get self id = checked_sub id 1 >>= get_elem? self.all_t
