-- ===== src/Prelude/Monad.antt =====
-- Partial code: `none` is a panic (an index out of bounds, an assertion, an underflow) or a loop
-- that has used up its fuel.
use Prim.Native.Nat.{ℕ, ◌-◌, ◌≤◌}
use mathlib.Core.Path.{◌≡◌}
use native.Mathlib.Omega.{arith}
use llguidance.Prelude.Tests.{leb}
use mathlib.Core.Bool.{Bool, true, false}
use mathlib.Core.Option.{Option, none, some}

infixl 5 ◌>>=◌ ◌>>◌
abbrev pub ◌>>=◌ {ℓ κ} : {A : Type ℓ} {B : Type κ} → Option A → (A → Option B) → Option B
none >>= f = none
some a >>= f = f a

abbrev pub ◌>>◌ {ℓ} : {B : Type ℓ} → Option (Unit {0}) → Option B → Option B
m >> k = m >>= λ _. k

-- `assert!`
abbrev pub guard : Bool → Option (Unit {0})
guard true = some tt
guard false = none

-- `a - b` on `usize`, with overflow checks.
unfoldable pub checked_sub : ℕ → ℕ → Option ℕ
checked_sub a b = guard (leb b a) >>= λ _. some (a - b)

pub checked_sub-le : (a b : ℕ) → b ≤ a → checked_sub a b ≡ some (a - b)
unfolding checked_sub
checked_sub-le a b h = ground arith
