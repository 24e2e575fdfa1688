-- ===== src/Json/Regex/Reads.antt =====
-- How the text of a regular expression is read: a bar reaches as far as the group that it is in, and
-- an expression is put after another one, or repeated, as the text says.
use llguidance.Prelude.{
  ℕ, ◌+◌, ◌/◌, ◌%◌, ◌<◌, ◌≡◌, refl, Bool, true, false, ◌&&◌, ◌||◌, List, [], ◌∷◌, ◌++◌, leb, ltb,
  ◌==◌, arith, zero, suc, Bool-cases, inl, inr,
}
use llguidance.Trie.Decode.{decimal}
use llguidance.Json.Regex.{
  Regex, text, class, repeat, optional, group, both, or, joined, mk_or, written,
}
use llguidance.Json.Numeric.Digits.{decimal-small, decimal-large}
use llguidance.Json.Numeric.{pref, minus, any_integer}

-- A text of alternatives, of expressions one after another, or of one that nothing can split.
pub data Level : Type 0 where
  alternatives sequence atom : Level

-- A digit or a minus, which stands for itself.
abbrev pub is_plain : ℕ → Bool
is_plain c = (c == b'-') || (leb b'0' c && leb c b'9')

abbrev pub all_plain : List ℕ → Bool
all_plain [] = true
all_plain (c ∷ s) = is_plain c && all_plain s

-- The text, at the level given, reads as the expression.
pub data Reads : Level → List ℕ → Regex → Type 0 where
  plain : {s : List ℕ} → all_plain s ≡ true → Reads sequence s (text s)
  bracket :
      {a b : ℕ}
      → is_plain a ≡ true
      → is_plain b ≡ true
      → Reads atom (b'[' ∷ a ∷ b'-' ∷ b ∷ b']' ∷ []) (class a b)
  star :
      {a b : ℕ} {t : List ℕ}
      → Reads atom t (class a b)
      → Reads sequence (t ++ b'*' ∷ []) (repeat a b 0)
  at_least :
      {a b n : ℕ} {t : List ℕ}
      → Reads atom t (class a b)
      → Reads sequence (t ++ b'{' ∷ decimal n ++ b',' ∷ b'}' ∷ []) (repeat a b n)
  maybe : {c : ℕ} → is_plain c ≡ true → Reads sequence (c ∷ b'?' ∷ []) (optional (text (c ∷ [])))
  grouped :
      {t : List ℕ} {p : Regex}
      → Reads alternatives t p
      → Reads atom (b'(' ∷ t ++ b')' ∷ []) (group p)
  after :
      {t u : List ℕ} {p q : Regex}
      → Reads sequence t p
      → Reads sequence u q
      → Reads sequence (t ++ u) (both p q)
  bar :
      {t u : List ℕ} {p q : Regex}
      → Reads alternatives t p
      → Reads alternatives u q
      → Reads alternatives (t ++ b'|' ∷ u) (or p q)
  as_sequence : {t : List ℕ} {p : Regex} → Reads atom t p → Reads sequence t p
  as_alternatives : {t : List ℕ} {p : Regex} → Reads sequence t p → Reads alternatives t p

-- The text that is written for the expression reads as it, and nothing around it can split it but what
-- repeats the end of it.
abbrev pub IsRead : Regex → Type 0
IsRead p = Reads sequence (written p) p

abbrev pub AllRead : List Regex → Type 0
AllRead [] = Unit
AllRead (p ∷ parts) = IsRead p × AllRead parts

joined-Reads :
    (p : Regex) (parts : List Regex)
    → IsRead p
    → AllRead parts
    → Reads alternatives (written (joined p parts)) (joined p parts)
unfolding written
joined-Reads p [] h all = as_alternatives h
joined-Reads p (q ∷ parts) h all = bar (as_alternatives h) (joined-Reads q parts all.0 all.1)

pub group-IsRead : (p : Regex) → Reads alternatives (written p) p → IsRead (group p)
unfolding written
group-IsRead p h = as_sequence (grouped h)

pub or-IsRead : (p q : Regex) → IsRead p → IsRead q → IsRead (group (or p q))
unfolding written
or-IsRead p q h g = as_sequence (grouped (bar (as_alternatives h) (as_alternatives g)))

pub mk_or-IsRead : (parts : List Regex) → AllRead parts → IsRead (mk_or parts)
unfolding mk_or written
mk_or-IsRead [] all = group-IsRead (text []) (as_alternatives (plain refl))
mk_or-IsRead (p ∷ []) all = all.0
mk_or-IsRead (p ∷ q ∷ parts) all =
    group-IsRead (joined p (q ∷ parts)) (joined-Reads p (q ∷ parts) all.0 all.1)

pub both-IsRead : (p q : Regex) → IsRead p → IsRead q → IsRead (both p q)
unfolding written
both-IsRead p q h g = after h g

pub text-IsRead : (s : List ℕ) → all_plain s ≡ true → IsRead (text s)
unfolding written
text-IsRead s h = plain h

class-Reads :
    (a b : ℕ) → is_plain a ≡ true → is_plain b ≡ true → Reads atom (written (class a b)) (class a b)
unfolding written
class-Reads a b h g = bracket h g

pub class-IsRead : (a b : ℕ) → is_plain a ≡ true → is_plain b ≡ true → IsRead (class a b)
class-IsRead a b h g = as_sequence (class-Reads a b h g)

pub repeat-IsRead : (a b n : ℕ) → is_plain a ≡ true → is_plain b ≡ true → IsRead (repeat a b n)
unfolding written
repeat-IsRead a b zero h g = star (bracket h g)
repeat-IsRead a b (suc n) h g =
    let e : (suc n == 0) ≡ false = ground arith in rw e (at_least {n = suc n} (bracket h g))

pub optional-IsRead : (c : ℕ) → is_plain c ≡ true → IsRead (optional (text (c ∷ [])))
unfolding written
optional-IsRead c h = maybe h

pub minus-IsRead : (p : Regex) → IsRead p → IsRead (minus p)
minus-IsRead p h = both-IsRead (text (b'-' ∷ [])) p (text-IsRead (b'-' ∷ []) refl) h

all_plain-snoc :
    (s : List ℕ) (c : ℕ) → all_plain s ≡ true → is_plain c ≡ true → all_plain (s ++ c ∷ []) ≡ true
all_plain-snoc [] c h g = rw g refl
all_plain-snoc (d ∷ s) c h g =
    let ih = all_plain-snoc s c (ground (arith, h)) g in ground (arith, h, ih)

is_plain-digit : (d : ℕ) → d < 10 → is_plain (48 + d) ≡ true
is_plain-digit d h = ground arith

all_plain-below : (k n : ℕ) → n < k → all_plain (decimal n) ≡ true
all_plain-below zero n h = absurd (omega (arith, h))
all_plain-below (suc k) n h = elim (Bool-cases (ltb n 10)) [
  | inl e ↦
      rw (decimal-small n (ground (arith, e)))
        (all_plain-snoc [] (48 + n) refl (is_plain-digit n (ground (arith, e))))
  | inr e ↦ rw (decimal-large n (ground (arith, e))) (
      all_plain-snoc (decimal (n / 10)) (48 + n % 10)
        (all_plain-below k (n / 10) (ground (arith, e, h))) (is_plain-digit (n % 10) (omega arith)))
]

pub all_plain-decimal : (n : ℕ) → all_plain (decimal n) ≡ true
all_plain-decimal n = all_plain-below (suc n) n (omega arith)

all_plain-pref : (n : ℕ) → all_plain (pref n) ≡ true
all_plain-pref n = elim (Bool-cases (ltb n 10)) [
  | inl e ↦ rw e refl
  | inr e ↦ rw e (all_plain-decimal (n / 10))
]

-- The digits of a number but the last one, and a class of digits.
pub last-IsRead :
    (n a b : ℕ) → a < 10 → b < 10 → IsRead (both (text (pref n)) (class (48 + a) (48 + b)))
last-IsRead n a b h g =
    both-IsRead (text (pref n)) (class (48 + a) (48 + b)) (text-IsRead (pref n) (all_plain-pref n))
      (class-IsRead (48 + a) (48 + b) (is_plain-digit a h) (is_plain-digit b g))

pub decimal-IsRead : (n : ℕ) → IsRead (group (text (decimal n)))
decimal-IsRead n =
    group-IsRead (text (decimal n))
      (as_alternatives (text-IsRead (decimal n) (all_plain-decimal n)))

pub any_integer-IsRead : IsRead any_integer
any_integer-IsRead =
    both-IsRead (optional (text (b'-' ∷ [])))
      (group (or (text (b'0' ∷ [])) (both (class b'1' b'9') (repeat b'0' b'9' 0))))
      (optional-IsRead b'-' refl)
      (or-IsRead (text (b'0' ∷ [])) (both (class b'1' b'9') (repeat b'0' b'9' 0))
        (text-IsRead (b'0' ∷ []) refl)
        (both-IsRead (class b'1' b'9') (repeat b'0' b'9' 0) (class-IsRead b'1' b'9' refl refl)
          (repeat-IsRead b'0' b'9' 0 refl refl)))
