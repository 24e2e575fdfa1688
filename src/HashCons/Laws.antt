-- ===== src/HashCons/Laws.antt =====
-- Numbers of `HashCons` and values are in a bijection: the invariant, `insert` and `get`.
use llguidance.Prelude.{
  ℕ, zero, suc, ◌+◌, ◌-◌, ◌^◌, ◌<◌, ◌≡◌, ◌↔◌, ◌⊎◌, inl, inr, refl, sym, ◌∙◌, ap, Bool, true, false,
  none, some, List, [], ◌∷◌, ◌++◌, length, get_elem?, ◌==◌, checked_sub, checked_sub-le, arith,
  Bool-cases, Option-cases,
}
use mathlib.Core.Option.{none-ne-some, some-injective}
use llguidance.Prelude.Words.{u32}
use llguidance.HashCons.{HashCons, default, lookup, insert, get}

module _ {A : Type 0} where
  get_elem?-append :
      (xs ys : List A) (i : ℕ) (a : A) → get_elem? xs i ≡ some a → get_elem? (xs ++ ys) i ≡ some a
  get_elem?-append [] ys i a h = absurd (none-ne-some a h)
  get_elem?-append (x ∷ xs) ys zero a h = h
  get_elem?-append (x ∷ xs) ys (suc i) a h = get_elem?-append xs ys i a h

  get_elem?-length : (xs : List A) (a : A) → get_elem? (xs ++ a ∷ []) (length xs) ≡ some a
  get_elem?-length [] a = refl
  get_elem?-length (x ∷ xs) a = get_elem?-length xs a

  -- An element of a list with one more is an old one or the new one.
  get_elem?-append_cases :
      (xs : List A) (i : ℕ) (a b : A)
      → get_elem? (xs ++ a ∷ []) i ≡ some b
      → (get_elem? xs i ≡ some b) ⊎ ((i ≡ length xs) × (a ≡ b))
  get_elem?-append_cases [] zero a b h = inr (refl, some-injective a b h)
  get_elem?-append_cases [] (suc i) a b h = absurd (none-ne-some b h)
  get_elem?-append_cases (x ∷ xs) zero a b h = inl h
  get_elem?-append_cases (x ∷ xs) (suc i) a b h = elim (get_elem?-append_cases xs i a b h) [
    | inl e ↦ inl e
    | inr (e, f) ↦ inr (ap suc e, f)
  ]

module _ (T : Type 0) (eq : T → T → Bool) where
  -- Every entry of the map is the number of its key, and every number has its entry.
  pub record IsValid (self : HashCons T eq) : Type 0 where
    pub entry_number :
        (t : T) (id : ℕ) → lookup T eq self.by_t t ≡ some id → get T eq self id ≡ some t
    pub number_entry :
        (t : T) (id : ℕ) → get T eq self id ≡ some t → lookup T eq self.by_t t ≡ some id

  -- `insert` returned the number of `t`, and the older numbers stay what they are.
  pub record Inserts (self : HashCons T eq) (t : T) (self1 : HashCons T eq) (id : ℕ) : Type 0 where
    pub valid : IsValid self1
    pub reads : get T eq self1 id ≡ some t
    pub keeps : (j : ℕ) (u : T) → get T eq self j ≡ some u → get T eq self1 j ≡ some u

  get-zero : (self : HashCons T eq) → get T eq self 0 ≡ none
  unfolding get checked_sub
  get-zero self = refl

  get-suc : (self : HashCons T eq) (i : ℕ) → get T eq self (suc i) ≡ get_elem? self.all_t i
  unfolding get
  get-suc self i =
      let e : suc i - 1 ≡ i = omega arith in
      rw (checked_sub-le (suc i) 1 (omega arith)) (ap (get_elem? self.all_t) e)

  lookup-cons_same :
      (l : List (T × ℕ)) (t u : T) (id : ℕ) → eq t u ≡ true → lookup T eq ((t, id) ∷ l) u ≡ some id
  unfolding lookup
  lookup-cons_same l t u id h = rw (h, lookup) refl

  lookup-cons_other :
      (l : List (T × ℕ)) (t u : T) (id : ℕ)
      → eq t u ≡ false
      → lookup T eq ((t, id) ∷ l) u ≡ lookup T eq l u
  unfolding lookup
  lookup-cons_other l t u id h = rw (h, lookup) refl

  -- The state after a value that was not there, whose number is `suc (length self.all_t)`.
  abbrev pub extended : HashCons T eq → T → HashCons T eq
  extended self t = record {
    by_t = (t, suc (length self.all_t)) ∷ self.by_t;
    all_t = self.all_t ++ t ∷ [];
  }

  extended-keeps :
      (self : HashCons T eq) (t : T) (j : ℕ) (u : T)
      → get T eq self j ≡ some u
      → get T eq (extended self t) j ≡ some u
  extended-keeps self t zero u h = absurd (none-ne-some u (sym (get-zero self) ∙ h))
  extended-keeps self t (suc i) u h =
      get-suc (extended self t) i
      ∙ get_elem?-append self.all_t (t ∷ []) i u (sym (get-suc self i) ∙ h)

  extended-reads :
      (self : HashCons T eq) (t : T) → get T eq (extended self t) (suc (length self.all_t)) ≡ some t
  extended-reads self t =
      get-suc (extended self t) (length self.all_t) ∙ get_elem?-length self.all_t t

  module _ (eq_iff : (a b : T) → (eq a b ≡ true) ↔ (a ≡ b)) where
    pub default-IsValid : IsValid (default T eq)
    unfolding lookup
    default-IsValid = record {
      entry_number = λ t id h. absurd (none-ne-some id h);
      number_entry = number;
    }
      where
        number : (t : T) (id : ℕ) → get T eq (default T eq) id ≡ some t → lookup T eq [] t ≡ some id
        number t zero h = absurd (none-ne-some t (sym (get-zero (default T eq)) ∙ h))
        number t (suc i) h = absurd (none-ne-some t (sym (get-suc (default T eq) i) ∙ h))

    pub extended-IsValid :
        (self : HashCons T eq) (t : T)
        → IsValid self
        → lookup T eq self.by_t t ≡ none
        → IsValid (extended self t)
    extended-IsValid self t v missing = record { entry_number = entry; number_entry = number }
      where
        entry :
            (u : T) (id : ℕ)
            → lookup T eq (extended self t).by_t u ≡ some id
            → get T eq (extended self t) id ≡ some u
        entry u id h = elim (Bool-cases (eq t u)) [
          | inl e ↦
              let at : suc (length self.all_t) ≡ id =
                some-injective _ id
                  (sym (lookup-cons_same self.by_t t u (suc (length self.all_t)) e) ∙ h) in
              ap (get T eq (extended self t)) (sym at)
              ∙ extended-reads self t
              ∙ ap some ((eq_iff t u).0 e)
          | inr e ↦ extended-keeps self t id u (
              v.entry_number u id
                (sym (lookup-cons_other self.by_t t u (suc (length self.all_t)) e) ∙ h))
        ]

        old :
            (u : T) (id : ℕ)
            → get T eq self id ≡ some u
            → lookup T eq (extended self t).by_t u ≡ some id
        old u id h = elim (Bool-cases (eq t u)) [
          | inl e ↦ absurd (
              none-ne-some id (
                sym missing
                ∙ ap (lookup T eq self.by_t) ((eq_iff t u).0 e)
                ∙ v.number_entry u id h))
          | inr e ↦
              lookup-cons_other self.by_t t u (suc (length self.all_t)) e ∙ v.number_entry u id h
        ]

        number :
            (u : T) (id : ℕ)
            → get T eq (extended self t) id ≡ some u
            → lookup T eq (extended self t).by_t u ≡ some id
        number u zero h = absurd (none-ne-some u (sym (get-zero (extended self t)) ∙ h))
        number u (suc i) h =
            elim (get_elem?-append_cases self.all_t i t u (sym (get-suc (extended self t) i) ∙ h)) [
              | inl e ↦ old u (suc i) (get-suc self i ∙ e)
              | inr (e, f) ↦
                  lookup-cons_same self.by_t t u (suc (length self.all_t)) ((eq_iff t u).1 f)
                  ∙ ap (λ k. some (suc k)) (sym e)
            ]

    -- With fewer than 2 ^ 32 - 1 values, `insert` returns a number at which `get` reads the value;
    -- numbers given before still read the same values; and the numbers and the values stay in
    -- bijection, so that equal values have equal numbers.
    pub insert-Inserts :
        (self : HashCons T eq) (t : T)
        → IsValid self
        → length self.all_t + 1 < 2 ^ 32
        → (self1 : HashCons T eq) × (id : ℕ) × (insert T eq self t ≡ some (self1, id))
          × Inserts self t self1 id
    unfolding insert
    insert-Inserts self t v small = elim (Option-cases (lookup T eq self.by_t t)) [
      | inr (id, e) ↦ (
        self,
        id,
        rw (e, insert) refl,
        record { valid = v; reads = v.entry_number t id e; keeps = λ j u h. h },
      )
      | inl e ↦
          let at : u32 (length self.all_t + 1) ≡ suc (length self.all_t) = omega arith in
          let positive : (suc (length self.all_t) == 0) ≡ false = ground arith in
          (
            extended self t,
            suc (length self.all_t),
            rw (e, insert) (rw (at, positive) refl),
            record {
              valid = extended-IsValid self t v e;
              reads = extended-reads self t;
              keeps = extended-keeps self t;
            },
          )
    ]
