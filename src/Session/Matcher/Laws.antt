-- ===== src/Session/Matcher/Laws.antt =====
-- What an error does to the `Matcher` of parser/src/matcher.rs.
use llguidance.Prelude.{ℕ, ◌≡◌, refl, Bool, true, false, Option, none, some, List, arith}
use llguidance.Session.{Result, ok, err, Method, TokenEnv, Parser}
use llguidance.Session.TokenParser.{TokenParser}
use llguidance.Session.Matcher.{
  Matcher, normal, error, settle, with_inner, consume_tokens, rollback_matcher, reset_matcher,
  compute_mask_matcher, compute_mask_or_eos, is_accepting_matcher, compute_ff_matcher,
  consume_ff_matcher, compute_ff_bytes, try_consume_tokens, validate_matcher, is_error,
}

abbrev pub is_err : {A : Type 0} → Result A → Bool
is_err (ok a) = false
is_err (err e) = true

module _ (E : TokenEnv) (P : Parser) where
  pub settle-ok :
      {A : Type 0} (o : Option (TokenParser E P × Result A)) (self : TokenParser E P) (a : A)
      → settle E P o ≡ (normal self, ok a)
      → o ≡ some (self, ok a)
  settle-ok none self a h = ground (arith, h)
  settle-ok (some (s, ok b)) self a h = ground (arith, h)
  settle-ok (some (s, err e)) self a h = ground (arith, h)

  settle-is_error :
      {A : Type 0} (o : Option (TokenParser E P × Result A))
      → is_error E P (settle E P o).0 ≡ is_err (settle E P o).1
  unfolding is_error
  settle-is_error none = refl
  settle-is_error (some (s, ok a)) = refl
  settle-is_error (some (s, err e)) = refl

  pub with_inner-is_error :
      {A : Type 0} (f : Method (TokenParser E P) A) (self : Matcher E P)
      → is_error E P (with_inner E P f self).0 ≡ is_err (with_inner E P f self).1
  unfolding with_inner is_error
  with_inner-is_error f (normal inner) = settle-is_error (f inner)
  with_inner-is_error f (error e) = refl

  -- The calls of a client.
  pub data Call : Type 0 where
    consume validate try_consume : List ℕ → Call
    take_back : ℕ → Call
    start_over mask mask_or_end accepting forced_tokens consume_forced forced_bytes : Call

  unfoldable pub perform : Call → Matcher E P → Matcher E P
  unfolding consume_tokens validate_matcher try_consume_tokens rollback_matcher reset_matcher
      compute_mask_matcher compute_mask_or_eos is_accepting_matcher compute_ff_matcher
      consume_ff_matcher compute_ff_bytes
  perform (consume ts) self = (consume_tokens E P ts self).0
  perform (validate ts) self = (validate_matcher E P ts self).0
  perform (try_consume ts) self = (try_consume_tokens E P ts self).0
  perform (take_back n) self = (rollback_matcher E P n self).0
  perform start_over self = (reset_matcher E P self).0
  perform mask self = (compute_mask_matcher E P self).0
  perform mask_or_end self = (compute_mask_or_eos E P self).0
  perform accepting self = (is_accepting_matcher E P self).0
  perform forced_tokens self = (compute_ff_matcher E P self).0
  perform consume_forced self = (consume_ff_matcher E P self).0
  perform forced_bytes self = (compute_ff_bytes E P self).0
