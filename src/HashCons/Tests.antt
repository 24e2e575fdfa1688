-- ===== src/HashCons/Tests.antt =====
-- Hash consing of numbers.
use llguidance.Prelude.{ℕ, ◌≡◌, refl, some, ◌==◌, ==_iff, arith}
use llguidance.HashCons.{HashCons, default, insert, lookup}
use llguidance.HashCons.Laws.{
  IsValid, Inserts, extended, default-IsValid, extended-IsValid, insert-Inserts,
}

-- The store of the number 7.
abbrev one_value : HashCons ℕ ◌==◌
one_value = extended ℕ ◌==◌ (default ℕ ◌==◌) 7

one_value-IsValid : IsValid ℕ ◌==◌ one_value
unfolding lookup
one_value-IsValid =
    extended-IsValid ℕ ◌==◌ ==_iff (default ℕ ◌==◌) 7 (default-IsValid ℕ ◌==◌ ==_iff) refl

insert-Inserts_example :
    (self1 : HashCons ℕ ◌==◌) × (id : ℕ) × (insert ℕ ◌==◌ one_value 9 ≡ some (self1, id))
    × Inserts ℕ ◌==◌ one_value 9 self1 id
insert-Inserts_example = insert-Inserts ℕ ◌==◌ ==_iff one_value 9 one_value-IsValid (omega arith)
