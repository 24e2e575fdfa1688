-- ===== src/Session/TokenParser.antt =====
-- `TokenParser` of parser/src/tokenparser.rs: its state, and the methods that check it, stop it and
-- take tokens back. Statistics, times, the log and the texts of errors are left out.
pub mod Rollback
pub mod Errors
use llguidance.Prelude.{
  ℕ, zero, suc, ◌+◌, ◌-◌, ◌^◌, min, Bool, true, false, not, ◌&&◌, ◌||◌, Option, none, some, List,
  [], ◌∷◌, ◌++◌, length, take, drop, leb, ltb, ◌==◌, if◌then◌else◌, checked_sub,
}
use llguidance.Prelude
use llguidance.Trie.{vocab_size, eos_token_set}
use llguidance.Trie.Decode.{token_len}
use llguidance.Session.{
  StopReason, not_stopped, internal_error, is_ok, is_not_stopped, Message, not_started, stopped,
  rollback_tokens, rollback_bytes, out_of_range, reason, Result, ok, err, Method, ◌>>=◌, ◌>>◌,
  return, fail, get, modify, ensure, expect, TokenEnv, InferenceCapabilities, Parser,
}

abbrev pub usize_max : ℕ
usize_max = 2 ^ 64 - 1

-- `contains`
abbrev pub member : ℕ → List ℕ → Bool
member x [] = false
member x (y ∷ ys) = elim (y == x) [ true ↦ true | false ↦ member x ys ]

module _ (E : TokenEnv) (P : Parser) where
  pub record TokenParser : Type 0 where
    pub parser : P.State
    pub inference_caps : InferenceCapabilities
    pub eos_tokens : List ℕ
    pub had_rollback : Bool
    pub had_backtrack : Bool
    pub is_accepting_cache : Option Bool
    pub ff_tokens_cache : Option (List ℕ × List ℕ)
    pub stop_reason : StopReason
    pub error_message : Option Message
    pub max_tokens_total : ℕ
    pub llm_tokens : List ℕ
    pub llm_bytes : List ℕ
    pub grm_prefix : List ℕ
    pub is_fresh : Bool

  -- The fields that `init_inner` sets, for a parser, the end of sequence tokens and the limit.
  abbrev pub initial : P.State → InferenceCapabilities → List ℕ → ℕ → TokenParser
  initial p caps eos max_tokens = record {
    parser = p;
    inference_caps = caps;
    eos_tokens = eos;
    had_rollback = false;
    had_backtrack = false;
    is_accepting_cache = none;
    ff_tokens_cache = none;
    stop_reason = not_stopped;
    error_message = none;
    max_tokens_total = max_tokens;
    llm_tokens = [];
    llm_bytes = [];
    grm_prefix = [];
    is_fresh = true;
  }

  abbrev pub is_stopped : TokenParser → Bool
  is_stopped self = not (is_not_stopped self.stop_reason)

  -- `stop`, without the error that it returns; `warn` is the text that may be empty.
  abbrev pub set_stop : Option Message → StopReason → TokenParser → TokenParser
  set_stop none why self = record self { stop_reason = why }
  set_stop (some warn) why self = record self { stop_reason = why; error_message = some warn }

  abbrev pub message_or : Option Message → StopReason → Message
  message_or none why = reason why
  message_or (some e) why = e

  -- `anyhow_error`
  abbrev pub anyhow_error : {A : Type 0} → Method TokenParser A
  anyhow_error self = some (self, err (message_or self.error_message self.stop_reason))

  -- `Err(self.stop(…))`
  abbrev pub stop : {A : Type 0} → Option Message → StopReason → Method TokenParser A
  stop warn why = do modify (set_stop warn why); anyhow_error

  abbrev pub check_initialized : Method TokenParser (Unit {0})
  check_initialized = do
    self ← get
    ensure (not self.is_fresh) not_started
    ensure (not (is_stopped self)) stopped

  unfoldable pub start_without_prompt : Method TokenParser (Unit {0})
  start_without_prompt = do
    self ← get
    expect (Prelude.guard self.is_fresh)
    modify (λ s. record s { is_fresh = false })

  abbrev pub clear_caches : TokenParser → TokenParser
  clear_caches self = record self { is_accepting_cache = none; ff_tokens_cache = none }

  -- The loop that sums up the bytes of the tokens taken back; an end of sequence token has none.
  unfoldable pub bytes_to_drop : List ℕ → List ℕ → Option ℕ
  unfolding token_len
  bytes_to_drop eos_tokens [] = some 0
  bytes_to_drop eos_tokens (tok ∷ toks) =
      let len = (if member tok eos_tokens then some 0 else token_len E.tok_trie tok) in
      Prelude.◌>>=◌ len
        (λ n. Prelude.◌>>=◌ (bytes_to_drop eos_tokens toks) (λ rest. some (n + rest)))

  -- `self.parser.rollback(n)?`
  abbrev pub parser_rollback : ℕ → Method TokenParser (Unit {0})
  parser_rollback n self =
      Prelude.◌>>=◌ (P.rollback n self.parser) (λ r. some (record self { parser = r.0 }, r.1))

  abbrev pub resume : TokenParser → TokenParser
  resume self = if is_ok self.stop_reason then record self { stop_reason = not_stopped } else self

  -- What follows the first two tests of `rollback`.
  unfoldable pub rollback_checked : ℕ → Method TokenParser (Unit {0})
  unfolding bytes_to_drop
  rollback_checked n_tokens = do
    modify resume
    check_initialized
    modify (λ s. record s { had_rollback = true })
    self ← get
    let new_len = length self.llm_tokens - n_tokens
    n ← expect (bytes_to_drop self.eos_tokens (drop new_len self.llm_tokens))
    ensure (leb n (length self.llm_bytes)) rollback_bytes
    parser_rollback n
    modify (λ s. clear_caches (record s {
      max_tokens_total = min (s.max_tokens_total + n_tokens) usize_max;
      llm_tokens = take new_len s.llm_tokens;
      llm_bytes = take (length s.llm_bytes - n) s.llm_bytes;
    }))

  unfoldable pub rollback : ℕ → Method TokenParser (Unit {0})
  unfolding rollback_checked
  rollback zero = return tt
  rollback (suc n) = do
    self ← get
    ensure (leb (suc n) (length self.llm_tokens)) rollback_tokens
    rollback_checked (suc n)

  unfoldable pub reset : Method TokenParser (Unit {0})
  unfolding rollback
  reset self = rollback (length self.llm_tokens) self

  -- `for &t in tokens`: the first token that is out of range stops the parser.
  unfoldable pub check_range : List ℕ → Method TokenParser (Unit {0})
  unfolding vocab_size
  check_range [] = return tt
  check_range (t ∷ tokens) =
      let rest = check_range tokens in
      if leb (vocab_size E.tok_trie) t then stop (some (out_of_range t)) internal_error else rest

  -- `self.parser.validate_tokens(tokens)`
  abbrev pub parser_validate : List ℕ → Method TokenParser ℕ
  parser_validate tokens self =
      Prelude.◌>>=◌ (P.validate_tokens tokens self.parser)
        (λ r. some (record self { parser = r.0 }, ok r.1))

  unfoldable pub validate_some : List ℕ → Method TokenParser ℕ
  unfolding check_range
  validate_some [] = return 0
  validate_some (t ∷ tokens) = do check_range (t ∷ tokens); parser_validate (t ∷ tokens)

  unfoldable pub validate_tokens_raw : List ℕ → Method TokenParser ℕ
  unfolding validate_some
  validate_tokens_raw tokens self =
      if is_stopped self
      then some (self, ok 0)
      else (do check_initialized; validate_some tokens) self

  unfoldable pub validate_token : ℕ → Method TokenParser Bool
  unfolding validate_tokens_raw
  validate_token token self =
      if is_stopped self
      then some (self, ok false)
      else (do check_initialized; n ← validate_tokens_raw (token ∷ []); return (ltb 0 n)) self
