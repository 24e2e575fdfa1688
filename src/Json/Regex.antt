-- ===== src/Json/Regex.antt =====
-- The regular expressions that parser/src/json/numeric.rs writes, as their syntax, with the text that
-- is written for them and the strings that they match.
pub mod Laws
pub mod Reads
use llguidance.Prelude.{
  ℕ, ◌+◌, ◌≤◌, ◌≡◌, ◌⊎◌, Bool, true, false, ◌&&◌, List, [], ◌∷◌, ◌++◌, length, leb, ◌==◌,
  if◌then◌else◌,
}
use llguidance.Trie.Decode.{decimal}

-- `class a b` is `[a-b]`, and `repeat a b n` as many of these as `n` or more.
pub data Regex : Type 0 where
  text : List ℕ → Regex
  class : ℕ → ℕ → Regex
  repeat : ℕ → ℕ → ℕ → Regex
  optional group : Regex → Regex
  both or : Regex → Regex → Regex

abbrev pub joined : Regex → List Regex → Regex
joined p [] = p
joined p (q ∷ parts) = or p (joined q parts)

-- `mk_or`
unfoldable pub mk_or : List Regex → Regex
mk_or [] = group (text [])
mk_or (p ∷ []) = p
mk_or (p ∷ q ∷ parts) = group (joined p (q ∷ parts))

abbrev pub written_class : ℕ → ℕ → List ℕ
written_class a b = b'[' ∷ a ∷ b'-' ∷ b ∷ b']' ∷ []

abbrev pub written_count : ℕ → List ℕ
written_count n = if n == 0 then b'*' ∷ [] else b'{' ∷ decimal n ++ b',' ∷ b'}' ∷ []

-- The text of an expression.
unfoldable pub written : Regex → List ℕ
written (text s) = s
written (class a b) = written_class a b
written (repeat a b n) = written_class a b ++ written_count n
written (optional p) = written p ++ b'?' ∷ []
written (group p) = b'(' ∷ written p ++ b')' ∷ []
written (both p q) = written p ++ written q
written (or p q) = written p ++ b'|' ∷ written q

abbrev pub all_within : ℕ → ℕ → List ℕ → Bool
all_within a b [] = true
all_within a b (c ∷ s) = leb a c && (leb c b && all_within a b s)

-- The strings that an expression matches as a whole.
unfoldable pub Matches : Regex → List ℕ → Type 0
Matches (text t) s = s ≡ t
Matches (class a b) s = (c : ℕ) × (s ≡ c ∷ []) × (a ≤ c) × (c ≤ b)
Matches (repeat a b n) s = (n ≤ length s) × (all_within a b s ≡ true)
Matches (optional p) s = (s ≡ []) ⊎ Matches p s
Matches (group p) s = Matches p s
Matches (both p q) s = (xs : List ℕ) × (ys : List ℕ) × (s ≡ xs ++ ys) × Matches p xs × Matches q ys
Matches (or p q) s = Matches p s ⊎ Matches q s
