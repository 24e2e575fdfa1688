-- ===== src/Session/Constraint/Laws.antt =====
-- `commit_token` of parser/src/constraint.rs and the tokens of its caller.
use llguidance.Prelude.{
  ℕ, zero, suc, ◌+◌, ◌-◌, ◌^◌, ◌≤◌, ◌<◌, ◌≡◌, sym, ◌∙◌, ap, ap₂, take_le-append, checked_sub, Bool,
  true, false, ◌||◌, some, List, [], ◌∷◌, ◌++◌, length, take, arith, Option-cases, inl, inr,
  if◌then◌else◌,
}
use mathlib.Core.List.{append_assoc, append-nil}
use llguidance.Session.{
  ok, err, Method, ◌>>=◌, ◌>>◌, return, get, modify, >>=-eq-ok, TokenEnv, Parser,
}
use llguidance.Session.TokenParser.{TokenParser, member, stop}
use llguidance.Session.Consume.{consume_token, check_stop}
use llguidance.Session.Consume.Laws.{advanced, take-one, take-length, consume_token-advances}
use llguidance.Session.Consume.Count.{consume_token-count}
use llguidance.Session.Force.{consume_forced, consume_ff_tokens, compute_ff_tokens}
use llguidance.Session.Keeps.Methods.{check_stop-Safe, compute_ff_tokens-Safe}
use llguidance.Session.Matcher.Appends.{meets}
use llguidance.Session.Constraint.{
  Constraint, Splice, CommitResult, on_tokens, save_tokens, save_result, splice, from_step_result,
  unconditional_splice, sampled_tokens, commit_sampled,
}
use llguidance.Prelude.Words.{u32}

u32-small : (n : ℕ) → n < 2 ^ 32 → u32 n ≡ n
u32-small n h = omega arith

module _ (E : TokenEnv) (P : Parser) where
  consume_forced-inverts :
      (t : ℕ) (toks : List ℕ) (self self2 : TokenParser E P)
      → consume_forced E P (t ∷ toks) self ≡ some (self2, ok tt)
      → (self1 : TokenParser E P) × (consume_token E P t self ≡ some (self1, ok 0))
        × (consume_forced E P toks self1 ≡ some (self2, ok tt))
  unfolding consume_forced
  consume_forced-inverts t toks self self2 h = elim (Option-cases (consume_token E P t self)) [
    | inl e ↦ ground arith
    | inr ((s, err m), e) ↦ ground arith
    | inr ((s, ok zero), e) ↦ (s, e, ground arith)
    | inr ((s, ok (suc n)), e) ↦ ground arith
  ]

  -- Without an end of sequence token among them, the forced tokens are appended.
  consume_forced-appends :
      (toks : List ℕ) (self self1 : TokenParser E P)
      → self.inference_caps.backtrack ≡ true
      → meets toks self.eos_tokens ≡ false
      → consume_forced E P toks self ≡ some (self1, ok tt)
      → self1.llm_tokens ≡ self.llm_tokens ++ toks
  unfolding meets consume_forced
  consume_forced-appends [] self self1 caps eos h =
      let same : self1.llm_tokens ≡ self.llm_tokens = ground (arith, h) in
      same ∙ sym (append-nil self.llm_tokens)
  consume_forced-appends (t ∷ toks) self self2 caps eos h =
      let (self1, e, f) = consume_forced-inverts t toks self self2 h in
      let head : member t self.eos_tokens ≡ false = ground (arith, eos) in
      let (tokens, limit, same_caps, same_eos) =
        consume_token-advances E P t 0 self self1 caps head e in
      let tail : meets toks self1.eos_tokens ≡ false =
        ap (meets toks) same_eos ∙ ground (arith, eos) in
      let rest =
        consume_forced-appends toks self1 self2 (ap (λ c. c.backtrack) same_caps ∙ caps) tail f in
      rest
      ∙ ap (λ l. l ++ toks) (tokens ∙ take-one self.llm_tokens t)
      ∙ append_assoc self.llm_tokens (t ∷ []) toks

  on_tokens-inverts :
      {A : Type 0} (f : Method (TokenParser E P) A) (self self1 : Constraint E P) (a : A)
      → on_tokens E P f self ≡ some (self1, ok a)
      → f self.parser ≡ some (self1.parser, ok a)
  on_tokens-inverts f self self1 a h = elim (Option-cases (f self.parser)) [
    | inl e ↦ ground arith
    | inr ((p, err m), e) ↦ ground arith
    | inr ((p, ok b), e) ↦ ground arith
  ]

  abbrev commit_checked : ℕ → ℕ → List ℕ → Bool → Method (Constraint E P) CommitResult
  commit_checked t bt forced stop = do
    modify (λ s. record s { pending_stop = s.pending_stop || stop })
    save_result E P
        (splice (u32 (sampled_tokens E P t bt).0) ((sampled_tokens E P t bt).1 ++ forced))
    after ← get
    return (from_step_result after.last_res)

  abbrev commit_forced : ℕ → ℕ → List ℕ → Method (Constraint E P) CommitResult
  commit_forced t bt forced = on_tokens E P (check_stop E P) >>= commit_checked t bt forced

  abbrev forced_if : Bool → Method (Constraint E P) (List ℕ)
  forced_if on = if on then on_tokens E P (consume_ff_tokens E P) else return []

  abbrev commit_consumed : ℕ → ℕ → Method (Constraint E P) CommitResult
  commit_consumed t bt =
      get >>= λ self. forced_if self.parser.inference_caps.ff_tokens >>= commit_forced t bt

  consume_ff_tokens-appends :
      (toks : List ℕ) (self self1 : TokenParser E P)
      → self.inference_caps.backtrack ≡ true
      → meets toks self.eos_tokens ≡ false
      → consume_ff_tokens E P self ≡ some (self1, ok toks)
      → self1.llm_tokens ≡ self.llm_tokens ++ toks
  unfolding consume_ff_tokens
  consume_ff_tokens-appends toks self self2 caps eos h =
      let (self1, found, e, f) =
        >>=-eq-ok (compute_ff_tokens E P) (λ toks. consume_forced E P toks >> return toks) self
          self2 toks h in
      let (s, u, g, i) =
        >>=-eq-ok (consume_forced E P found) (λ _. return found) self1 self2 toks f in
      let same : found ≡ toks = ground (arith, i) in
      let last : s ≡ self2 = ground (arith, i) in
      let k = (compute_ff_tokens-Safe E P).keeps self self1 (ok found) e in
      let none_eos : meets found self1.eos_tokens ≡ false = ap₂ meets same k.same_eos ∙ eos in
      let done =
        consume_forced-appends found self1 s (ap (λ c. c.backtrack) k.same_caps ∙ caps) none_eos
          g in
      ap (λ p. p.llm_tokens) (sym last) ∙ done ∙ ap₂ (λ xs ys. xs ++ ys) k.same_tokens same

  forced_if-appends :
      (on : Bool) (toks : List ℕ) (self self1 : Constraint E P)
      → self.parser.inference_caps.backtrack ≡ true
      → meets toks self.parser.eos_tokens ≡ false
      → forced_if on self ≡ some (self1, ok toks)
      → self1.parser.llm_tokens ≡ self.parser.llm_tokens ++ toks
  forced_if-appends true toks self self1 caps eos h =
      consume_ff_tokens-appends toks self.parser self1.parser caps eos
        (on_tokens-inverts (consume_ff_tokens E P) self self1 toks h)
  forced_if-appends false toks self self1 caps eos h =
      let same : self ≡ self1 = ground (arith, h) in
      let empty : [] ≡ toks = ground (arith, h) in
      ap (λ s. s.parser.llm_tokens) (sym same)
      ∙ sym (append-nil self.parser.llm_tokens)
      ∙ ap (λ l. self.parser.llm_tokens ++ l) empty

  commit_checked-inverts :
      (t bt : ℕ) (forced : List ℕ) (stop : Bool) (self self1 : Constraint E P) (r : CommitResult)
      → commit_checked t bt forced stop self ≡ some (self1, ok r)
      → (self1.parser ≡ self.parser)
        × (r.backtrack ≡ u32 (sampled_tokens E P t bt).0)
        × (r.ff_tokens ≡ (sampled_tokens E P t bt).1 ++ forced)
  unfolding from_step_result splice unconditional_splice
  commit_checked-inverts t bt forced stop self self1 r h = ground (arith, h)

  -- What the caller makes of the token, before the forced ones, is what the parser made of it.
  sampled_tokens-advanced :
      (t bt : ℕ) (tokens : List ℕ)
      → bt ≤ length tokens + 1
      → take (length tokens - (sampled_tokens E P t bt).0) tokens ++ (sampled_tokens E P t bt).1
        ≡ advanced E P tokens t bt
  sampled_tokens-advanced t zero tokens h =
      ap (λ l. l ++ t ∷ []) (take-length tokens) ∙ sym (take-one tokens t)
  sampled_tokens-advanced t (suc bt) tokens h =
      let same : length tokens + 1 - suc bt ≡ length tokens - bt = omega arith in
      append-nil (take (length tokens - bt) tokens)
      ∙ sym (take_le-append (length tokens - bt) tokens (t ∷ []) (omega arith))
      ∙ ap (λ n. take n (tokens ++ t ∷ [])) (sym same)

  sampled_tokens-bound :
      (t bt : ℕ) (tokens : List ℕ)
      → bt ≤ length tokens + 1
      → (sampled_tokens E P t bt).0 ≤ length tokens
  sampled_tokens-bound t zero tokens h = omega arith
  sampled_tokens-bound t (suc bt) tokens h = omega arith

  meets-tail : (xs ys eos : List ℕ) → meets (xs ++ ys) eos ≡ false → meets ys eos ≡ false
  unfolding meets
  meets-tail [] ys eos h = h
  meets-tail (x ∷ xs) ys eos h = meets-tail xs ys eos (ground (arith, h))

  save_tokens-kept :
      (s : Splice) (tokens : List ℕ)
      → s.backtrack ≤ length tokens
      → save_tokens s tokens ≡ some (take (length tokens - s.backtrack) tokens ++ s.ff_tokens)
  unfolding save_tokens checked_sub
  save_tokens-kept s tokens h = ground (arith, h)

  -- The caller of `commit_token` takes as many of its tokens back as the result says and appends those
  -- of the result, as `save_tokens` does for a splice. Where backtracking is on, neither the sampled
  -- token nor one of the result is an end of sequence token and there are fewer than 2 ^ 32 tokens, a
  -- caller that had the tokens of the parser before a sampled token has those of the parser after it,
  -- the forced tokens included.
  pub commit_sampled-save_tokens :
      (t : ℕ) (self self1 : Constraint E P) (r : CommitResult)
      → self.parser.inference_caps.backtrack ≡ true
      → member t self.parser.eos_tokens ≡ false
      → meets r.ff_tokens self.parser.eos_tokens ≡ false
      → length self.parser.llm_tokens < 2 ^ 32
      → commit_sampled E P t self ≡ some (self1, ok r)
      → save_tokens
          (record { when_sampled = []; backtrack = r.backtrack; ff_tokens = r.ff_tokens })
          self.parser.llm_tokens
        ≡ some self1.parser.llm_tokens
  unfolding commit_sampled
  commit_sampled-save_tokens t self self4 r caps eos ff_eos short h =
      let (self1, bt, e, f) =
        >>=-eq-ok (on_tokens E P (consume_token E P t)) (commit_consumed t) self self4 r h in
      let (self2, forced, g, i) =
        >>=-eq-ok (forced_if self1.parser.inference_caps.ff_tokens) (commit_forced t bt) self1 self4
          r f in
      let (self3, stop, j, k) =
        >>=-eq-ok (on_tokens E P (check_stop E P)) (commit_checked t bt forced) self2 self4 r i in
      let (same_parser, is_bt, is_ff) = commit_checked-inverts t bt forced stop self3 self4 r k in
      let consumed = on_tokens-inverts (consume_token E P t) self self1 bt e in
      let (tokens, limit, same_caps, same_eos) =
        consume_token-advances E P t bt self.parser self1.parser caps eos consumed in
      let count = consume_token-count E P t bt self.parser self1.parser eos consumed in
      let kept = sampled_tokens E P t bt in
      let bound = sampled_tokens-bound t bt self.parser.llm_tokens count in
      let forced_eos : meets forced self1.parser.eos_tokens ≡ false =
        meets-tail kept.1 forced self1.parser.eos_tokens
          (ap₂ meets (sym is_ff) same_eos ∙ ff_eos) in
      let appended =
        forced_if-appends self1.parser.inference_caps.ff_tokens forced self1 self2
          (ap (λ c. c.backtrack) same_caps ∙ caps) forced_eos g in
      let checked =
        (check_stop-Safe E P).keeps self2.parser self3.parser (ok stop)
          (on_tokens-inverts (check_stop E P) self2 self3 stop j) in
      let bt_is : r.backtrack ≡ kept.0 = is_bt ∙ u32-small kept.0 (omega (arith, bound, short)) in
      save_tokens-kept
        (record { when_sampled = []; backtrack = r.backtrack; ff_tokens = r.ff_tokens })
        self.parser.llm_tokens (omega (arith, bound, bt_is))
      ∙ ap some (
          ap₂ (λ n l. take (length self.parser.llm_tokens - n) self.parser.llm_tokens ++ l) bt_is
            is_ff
          ∙ sym (
              append_assoc (take (length self.parser.llm_tokens - kept.0) self.parser.llm_tokens)
                kept.1 forced)
          ∙ ap (λ l. l ++ forced) (sampled_tokens-advanced t bt self.parser.llm_tokens count)
          ∙ sym (
              ap (λ p. p.llm_tokens) same_parser
              ∙ checked.same_tokens
              ∙ appended
              ∙ ap (λ l. l ++ forced) tokens))
