-- ===== src/Session/TokenParser/Errors.antt =====
-- The methods of parser/src/tokenparser.rs on a session that is not ready.
use llguidance.Prelude.{
  ℕ, zero, suc, ◌+◌, ◌-◌, ◌≤◌, ◌<◌, ◌≡◌, refl, sym, ◌∙◌, ap, Bool, true, false, not, Option, none,
  some, List, [], ◌∷◌, length, leb, ◌||◌, arith, if◌then◌else◌, Bool-cases, inl, inr,
}
use llguidance.Prelude
use llguidance.Session.{
  StopReason, is_ok, is_not_stopped, Message, not_started, stopped, Result, ok, err, ◌>>=◌, >>=-err,
  >>=-ok, modify, not_stopped, no_extension, TokenEnv, Parser,
}
use llguidance.Session.TokenParser.{
  TokenParser, is_stopped, check_initialized, rollback, rollback_checked, resume, reset,
  validate_token, validate_tokens_raw,
}
use llguidance.Session.TokenParser.Rollback.{checked}
use llguidance.Session.Consume.{consume_token}
use llguidance.Session.Force.{compute_mask}

module _ (E : TokenEnv) (P : Parser) where
  -- Neither before the start nor after a stop.
  abbrev pub is_ready : TokenParser E P → Bool
  is_ready self = if self.is_fresh then false else not (is_stopped E P self)

  abbrev pub refusal : TokenParser E P → Message
  refusal self = if self.is_fresh then not_started else stopped

  check_initialized-refused :
      (self : TokenParser E P)
      → is_ready self ≡ false
      → check_initialized E P self ≡ some (self, err (refusal self))
  check_initialized-refused self h = ground arith

  consume_token-refused :
      (self : TokenParser E P) (t : ℕ)
      → is_ready self ≡ false
      → consume_token E P t self ≡ some (self, err (refusal self))
  unfolding consume_token
  consume_token-refused self t h =
      >>=-err (check_initialized E P) _ self self (refusal self) (check_initialized-refused self h)

  compute_mask-refused :
      (self : TokenParser E P)
      → is_ready self ≡ false
      → compute_mask E P self ≡ some (self, err (refusal self))
  unfolding compute_mask
  compute_mask-refused self h =
      >>=-err (check_initialized E P) _ self self (refusal self) (check_initialized-refused self h)

  validate_token-refused :
      (self : TokenParser E P) (t : ℕ)
      → is_stopped E P self ≡ true
      → validate_token E P t self ≡ some (self, ok false)
  unfolding validate_token
  validate_token-refused self t h = ground arith

  validate_tokens_raw-refused :
      (self : TokenParser E P) (tokens : List ℕ)
      → is_stopped E P self ≡ true
      → validate_tokens_raw E P tokens self ≡ some (self, ok 0)
  unfolding validate_tokens_raw
  validate_tokens_raw-refused self tokens h = ground arith

  -- What a client asks of a session.
  pub data Request : Type 0 where
    consume validate take_back : ℕ → Request
    validate_all : List ℕ → Request
    mask start_over : Request

  abbrev state_of : {A : Type 0} → Option (TokenParser E P × Result A) → Option (TokenParser E P)
  state_of none = none
  state_of (some (self, r)) = some self

  -- The state after the request, be it granted or refused.
  unfoldable pub serve : Request → TokenParser E P → Option (TokenParser E P)
  unfolding consume_token compute_mask validate_token validate_tokens_raw rollback reset
  serve (consume t) self = state_of (consume_token E P t self)
  serve (validate t) self = state_of (validate_token E P t self)
  serve (take_back n) self = state_of (rollback E P n self)
  serve (validate_all ts) self = state_of (validate_tokens_raw E P ts self)
  serve mask self = state_of (compute_mask E P self)
  serve start_over self = state_of (reset E P self)

  unfoldable pub serve_all : List Request → TokenParser E P → Option (TokenParser E P)
  unfolding serve
  serve_all [] self = some self
  serve_all (q ∷ qs) self = Prelude.◌>>=◌ (serve q self) (serve_all qs)

  ok-of-not_stopped : (r : StopReason) → is_ok r ≡ false → is_not_stopped r ≡ false
  ok-of-not_stopped not_stopped h = absurd (ground arith)
  ok-of-not_stopped no_extension h = absurd (ground arith)
  ok-of-not_stopped _ h = refl

  error-is_stopped :
      (self : TokenParser E P)
      → is_ok self.stop_reason ≡ false
      → (is_stopped E P self ≡ true) × (is_ready self ≡ false)
  error-is_stopped self h =
      let e = ok-of-not_stopped self.stop_reason h in (ground arith, ground arith)

  rollback_checked-error :
      (self : TokenParser E P) (n : ℕ)
      → is_ok self.stop_reason ≡ false
      → rollback_checked E P n self ≡ some (self, err (refusal self))
  unfolding rollback_checked
  rollback_checked-error self n h =
      let same : resume E P self ≡ self =
        ap (λ (b : Bool). if b then record self { stop_reason = not_stopped } else self) h in
      >>=-ok (modify (resume E P)) (λ _. check_initialized E P >>= λ _. checked E P n) self self tt
        (ap (λ (s : TokenParser E P). some (s, ok tt)) same)
      ∙ >>=-err (check_initialized E P) (λ _. checked E P n) self self (refusal self)
          (check_initialized-refused self (error-is_stopped self h).1)

  rollback-error :
      (self : TokenParser E P) (n : ℕ)
      → is_ok self.stop_reason ≡ false
      → state_of (rollback E P n self) ≡ some self
  unfolding rollback
  rollback-error self zero h = refl
  rollback-error self (suc n) h = elim (Bool-cases (leb (suc n) (length self.llm_tokens))) [
    | inl e ↦ rw (e, rollback) (ap state_of (rollback_checked-error self (suc n) h))
    | inr e ↦ rw (e, rollback) refl
  ]

  serve-error :
      (q : Request) (self : TokenParser E P)
      → is_ok self.stop_reason ≡ false
      → serve q self ≡ some self
  unfolding serve reset
  serve-error (consume t) self h =
      ap state_of (consume_token-refused self t (error-is_stopped self h).1)
  serve-error (validate t) self h =
      ap state_of (validate_token-refused self t (error-is_stopped self h).0)
  serve-error (take_back n) self h = rollback-error self n h
  serve-error (validate_all ts) self h =
      ap state_of (validate_tokens_raw-refused self ts (error-is_stopped self h).0)
  serve-error mask self h = ap state_of (compute_mask-refused self (error-is_stopped self h).1)
  serve-error start_over self h = rollback-error self (length self.llm_tokens) h

  -- A session that stopped for an error is as it was after any requests to consume and validate
  -- tokens, to compute a mask, to take tokens back and to start over. The call of `check_stop`, which can
  -- replace the reason of the stop, is not among them.
  pub serve_all-error :
      (qs : List Request) (self : TokenParser E P)
      → is_ok self.stop_reason ≡ false
      → serve_all qs self ≡ some self
  unfolding serve_all
  serve_all-error [] self h = refl
  serve_all-error (q ∷ qs) self h = rw (serve-error q self h) (serve_all-error qs self h)
