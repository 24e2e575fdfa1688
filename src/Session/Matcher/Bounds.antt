-- ===== src/Session/Matcher/Bounds.antt =====
-- How many tokens `try_consume_tokens` of parser/src/matcher.rs takes.
use llguidance.Prelude.{
  ℕ, suc, ◌+◌, ◌≤◌, ◌≡◌, Bool, true, false, some, List, [], ◌∷◌, ◌==◌, length, arith, if◌then◌else◌,
}
use llguidance.Session.{
  Message, unexpected_backtracking, ok, Method, ◌>>=◌, ◌>>◌, return, ensure, >>=-eq-ok, TokenEnv,
  Parser,
}
use llguidance.Session.TokenParser.{TokenParser, validate_token}
use llguidance.Session.Consume.{consume_token, check_stop}
use llguidance.Session.Consume.Limit.{consume_token-limit}
use llguidance.Session.Keeps.Methods.{check_stop-Safe, validate_token-Safe}
use llguidance.Session.Matcher.{normal, with_inner, try_each, try_consume_tokens}
use llguidance.Session.Matcher.Laws.{settle-ok}

module _ (E : TokenEnv) (P : Parser) where
  abbrev try_checked : ℕ → List ℕ → ℕ → Bool → Method (TokenParser E P) ℕ
  try_checked idx tokens bt stopped = do
    ensure (bt == 0) unexpected_backtracking
    try_each E P (idx + 1) tokens

  abbrev try_consumed : ℕ → List ℕ → ℕ → Method (TokenParser E P) ℕ
  try_consumed idx tokens bt = check_stop E P >>= try_checked idx tokens bt

  abbrev try_valid : ℕ → ℕ → List ℕ → Bool → Method (TokenParser E P) ℕ
  try_valid idx t tokens valid =
      if valid then consume_token E P t >>= try_consumed idx tokens else return idx

  abbrev Within : ℕ → ℕ → ℕ → TokenParser E P → TokenParser E P → Type 0
  Within idx len n self self1 =
      (idx ≤ n) × (n ≤ idx + len) × (self1.max_tokens_total + n ≡ self.max_tokens_total + idx)

  ensured :
      (b : Bool) (m : Message) (k : Method (TokenParser E P) ℕ) (n : ℕ)
      (self self1 : TokenParser E P)
      → (ensure b m >> k) self ≡ some (self1, ok n)
      → k self ≡ some (self1, ok n)
  ensured true m k n self self1 h = h
  ensured false m k n self self1 h = ground (arith, h)

  try_valid-Within :
      (idx t n : ℕ) (tokens : List ℕ) (valid : Bool) (self self1 : TokenParser E P)
      → ((s s1 : TokenParser E P)
          → try_each E P (idx + 1) tokens s ≡ some (s1, ok n)
          → Within (idx + 1) (length tokens) n s s1)
      → try_valid idx t tokens valid self ≡ some (self1, ok n)
      → Within idx (suc (length tokens)) n self self1
  try_valid-Within idx t n tokens false self self1 ih h = ground (arith, h)
  try_valid-Within idx t n tokens true self self3 ih h =
      let (self1, bt, e, f) =
        >>=-eq-ok (consume_token E P t) (try_consumed idx tokens) self self3 n h in
      let (self2, stopped, g, i) =
        >>=-eq-ok (check_stop E P) (try_checked idx tokens bt) self1 self3 n f in
      let limit = consume_token-limit E P t bt self self1 e in
      let k = (check_stop-Safe E P).keeps self1 self2 (ok stopped) g in
      let rest =
        ensured (bt == 0) unexpected_backtracking (try_each E P (idx + 1) tokens) n self2 self3 i in
      let w = ih self2 self3 rest in
      (omega (arith, w.0), omega (arith, w.1), omega (arith, w.2, k.same_limit, limit))

  try_each-Within :
      (idx n : ℕ) (tokens : List ℕ) (self self1 : TokenParser E P)
      → try_each E P idx tokens self ≡ some (self1, ok n)
      → Within idx (length tokens) n self self1
  unfolding try_each
  try_each-Within idx n [] self self1 h = ground (arith, h)
  try_each-Within idx n (t ∷ tokens) self self2 h =
      let (self1, valid, e, f) =
        >>=-eq-ok (validate_token E P t) (try_valid idx t tokens) self self2 n h in
      let k = (validate_token-Safe E P t).keeps self self1 (ok valid) e in
      let w =
        try_valid-Within idx t n tokens valid self1 self2 (try_each-Within (idx + 1) n tokens) f in
      (w.0, w.1, omega (arith, w.2, k.same_limit))

  -- The tokens that `try_consume_tokens` says it has consumed are no more than it was given, and no more
  -- than the limit on tokens allowed: the limit goes down by exactly as many. This holds for every
  -- grammar, with end of sequence tokens among the tokens or not.
  pub try_consume_tokens-bounds :
      (tokens : List ℕ) (n : ℕ) (self self1 : TokenParser E P)
      → try_consume_tokens E P tokens (normal self) ≡ (normal self1, ok n)
      → (n ≤ length tokens) × (self1.max_tokens_total + n ≡ self.max_tokens_total)
  unfolding try_consume_tokens with_inner
  try_consume_tokens-bounds tokens n self self1 h =
      let w =
        try_each-Within 0 n tokens self self1
          (settle-ok E P (try_each E P 0 tokens self) self1 n h) in
      (omega (arith, w.1), omega (arith, w.2))
