-- ===== src/Session/Matcher.antt =====
-- `Matcher` of parser/src/matcher.rs: the parser behind an error state that it never leaves.
pub mod Laws
pub mod Appends
pub mod Undo
pub mod Bounds
mod Tests
use llguidance.Prelude.{
  ℕ, zero, suc, ◌+◌, Bool, true, false, not, Option, none, some, List, [], ◌∷◌, length, ◌==◌,
  if◌then◌else◌,
}
use llguidance.Prelude
use llguidance.Svob.{SimpleVob}
use llguidance.Trie.{eos_token_set}
use llguidance.Session.{
  StopReason, internal_error, is_not_stopped, Message, no_backtracking, unexpected_backtracking,
  panic, Result, ok, err, Method, ◌>>=◌, ◌>>◌, return, get, ensure, expect, TokenEnv, Parser,
}
use llguidance.Session.TokenParser.{
  TokenParser, is_stopped, validate_token, validate_tokens_raw, rollback, reset,
}
use llguidance.Session.Consume.{is_accepting, consume_token, check_stop}
use llguidance.Session.Force.{compute_mask, compute_ff_tokens, force_bytes}

module _ (E : TokenEnv) (P : Parser) where
  -- `MatcherState`
  pub data Matcher : Type 0 where
    normal : TokenParser E P → Matcher
    error : Message → Matcher

  -- The end of `with_inner`: a panic is caught and becomes an error.
  abbrev pub settle : {A : Type 0} → Option (TokenParser E P × Result A) → Matcher × Result A
  settle none = (error panic, err panic)
  settle (some (inner, ok a)) = (normal inner, ok a)
  settle (some (inner, err e)) = (error e, err e)

  unfoldable pub with_inner :
      {A : Type 0} → Method (TokenParser E P) A → Matcher → Matcher × Result A
  with_inner f (normal inner) = settle (f inner)
  with_inner f (error e) = (error e, err e)

  -- `new`, on the result of the parser's construction; `start_without_prompt` is written out.
  unfoldable pub new : Result (TokenParser E P) → Matcher
  new (err e) = error e
  new (ok parser) =
      if parser.inference_caps.backtrack
      then error no_backtracking
      else (if parser.is_fresh then normal (record parser { is_fresh = false }) else normal parser)

  -- The loop of `consume_tokens`.
  unfoldable pub consume_each : List ℕ → Method (TokenParser E P) (Unit {0})
  unfolding consume_token
  consume_each [] = return tt
  consume_each (t ∷ tokens) = do
    bt ← consume_token E P t
    ensure (bt == 0) unexpected_backtracking
    consume_each tokens

  abbrev pub consume_and_check : List ℕ → Method (TokenParser E P) (Unit {0})
  consume_and_check tokens = do consume_each tokens; _ ← check_stop E P; return tt

  unfoldable pub consume_tokens : List ℕ → Matcher → Matcher × Result (Unit {0})
  unfolding with_inner consume_each check_stop
  consume_tokens tokens = with_inner (consume_and_check tokens)

  unfoldable pub rollback_matcher : ℕ → Matcher → Matcher × Result (Unit {0})
  unfolding with_inner rollback
  rollback_matcher num_tokens = with_inner (rollback E P num_tokens)

  unfoldable pub reset_matcher : Matcher → Matcher × Result (Unit {0})
  unfolding with_inner reset
  reset_matcher = with_inner (reset E P)

  unfoldable pub compute_mask_matcher : Matcher → Matcher × Result SimpleVob
  unfolding with_inner compute_mask
  compute_mask_matcher = with_inner (compute_mask E P)

  abbrev pub mask_or_eos : Method (TokenParser E P) SimpleVob
  mask_or_eos self =
      if is_stopped E P self then expect (eos_token_set E.tok_trie) self else compute_mask E P self

  unfoldable pub compute_mask_or_eos : Matcher → Matcher × Result SimpleVob
  unfolding with_inner compute_mask eos_token_set
  compute_mask_or_eos = with_inner mask_or_eos

  unfoldable pub is_accepting_matcher : Matcher → Matcher × Result Bool
  unfolding with_inner is_accepting
  is_accepting_matcher = with_inner (is_accepting E P)

  unfoldable pub matcher_stopped : Matcher → Bool
  matcher_stopped (normal inner) = is_stopped E P inner
  matcher_stopped (error e) = true

  unfoldable pub matcher_stop_reason : Matcher → StopReason
  matcher_stop_reason (normal inner) = inner.stop_reason
  matcher_stop_reason (error e) = internal_error

  abbrev pub tokens_or_none : Matcher × Result (List ℕ) → Matcher × List ℕ
  tokens_or_none (self, ok toks) = (self, toks)
  tokens_or_none (self, err e) = (self, [])

  unfoldable pub compute_ff_matcher : Matcher → Matcher × List ℕ
  unfolding with_inner compute_ff_tokens
  compute_ff_matcher self = tokens_or_none (with_inner (compute_ff_tokens E P) self)

  abbrev pub consume_found : Matcher × List ℕ → Matcher × List ℕ
  consume_found (self, []) = (self, [])
  consume_found (self, t ∷ toks) = ((consume_tokens (t ∷ toks) self).0, t ∷ toks)

  unfoldable pub consume_ff_matcher : Matcher → Matcher × List ℕ
  unfolding compute_ff_matcher consume_tokens
  consume_ff_matcher self = consume_found (compute_ff_matcher self)

  unfoldable pub compute_ff_bytes : Matcher → Matcher × List ℕ
  unfolding with_inner force_bytes
  compute_ff_bytes self = tokens_or_none (with_inner (force_bytes E P) self)

  -- The loop of `try_consume_tokens`, from the index `idx`.
  unfoldable pub try_each : ℕ → List ℕ → Method (TokenParser E P) ℕ
  unfolding validate_token consume_token check_stop
  try_each idx [] = return idx
  try_each idx (t ∷ tokens) = do
    valid ← validate_token E P t
    if valid
        then (do
          bt ← consume_token E P t
          _ ← check_stop E P
          ensure (bt == 0) unexpected_backtracking
          try_each (idx + 1) tokens)
        else return idx

  unfoldable pub try_consume_tokens : List ℕ → Matcher → Matcher × Result ℕ
  unfolding with_inner try_each
  try_consume_tokens tokens = with_inner (try_each 0 tokens)

  unfoldable pub validate_matcher : List ℕ → Matcher → Matcher × Result ℕ
  unfolding with_inner validate_tokens_raw
  validate_matcher tokens = with_inner (validate_tokens_raw E P tokens)

  unfoldable pub is_error : Matcher → Bool
  is_error (normal inner) = false
  is_error (error e) = true

  unfoldable pub get_matcher_error : Matcher → Option Message
  get_matcher_error (normal inner) = none
  get_matcher_error (error e) = some e
