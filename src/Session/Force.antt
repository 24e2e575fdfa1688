-- ===== src/Session/Force.antt =====
-- The bytes and tokens that the grammar forces, and the token mask: `ff_tokens`, `process_prompt` and
-- `compute_mask` of parser/src/tokenparser.rs.
use llguidance.Prelude.{
  ℕ, zero, suc, ◌+◌, ◌-◌, max, Bool, true, false, not, ◌&&◌, ◌||◌, Option, none, some, List, [],
  ◌∷◌, ◌++◌, length, take, drop, leb, ltb, ◌==◌, if◌then◌else◌, checked_sub,
}
use llguidance.Prelude
use llguidance.Svob.{SimpleVob, allow_token}
use llguidance.Svob.Algebra.{is_zero}
use llguidance.Trie.{singleton_token_set, invalid_token}
use llguidance.Trie.Decode.{decode_raw}
use llguidance.Trie.Chop.{chop_tokens}
use llguidance.Trie.Special.{tokenize_bytes_marker}
use llguidance.Session.{
  internal_error, no_extension_bias, parser_error, backtrack_after_ff, ok, Method, ◌>>=◌, ◌>>◌,
  return, get, modify, expect, TokenEnv, Parser,
}
use llguidance.Session.TokenParser.{TokenParser, stop, check_initialized}
use llguidance.Session.Consume.{same_bytes, is_nil, is_accepting, consume_token, on_parser, with_ok}

-- `tokens.starts_with(&prefix)`
unfoldable pub starts_with : List ℕ → List ℕ → Bool
starts_with xs [] = true
starts_with [] (y ∷ ys) = false
starts_with (x ∷ xs) (y ∷ ys) = x == y && starts_with xs ys

-- `&v[i..]`
abbrev pub slice_from : List ℕ → ℕ → Option (List ℕ)
slice_from xs i = if leb i (length xs) then some (drop i xs) else none

-- The last one alone.
abbrev pub last_only : List ℕ → List ℕ
last_only [] = []
last_only (x ∷ []) = x ∷ []
last_only (x ∷ y ∷ xs) = last_only (y ∷ xs)

-- The condition of the "<s>space hack": the decoded bytes are a space and those given.
abbrev pub is_spaced : List ℕ → List ℕ → Bool
is_spaced [] llm_bytes = false
is_spaced (b ∷ decoded) llm_bytes =
    not (is_nil llm_bytes) && (same_bytes decoded llm_bytes && b == b' ')

module _ (E : TokenEnv) (P : Parser) where
  abbrev pub can_force_bytes : Bool
  can_force_bytes = not P.no_forcing && E.tokenize_is_canonical

  abbrev pub parser_force : Method (TokenParser E P) (Unit {0})
  parser_force = on_parser E P (λ p. Prelude.◌>>=◌ (P.force_bytes p) (λ q. some (q, ok tt)))

  -- `compute_ff_bytes_inner`, as the bytes that it appends.
  abbrev pub ff_bytes : TokenParser E P → List ℕ
  ff_bytes self =
      drop (length self.llm_bytes) self.grm_prefix ++ P.currently_forced_bytes self.parser

  unfoldable pub force_bytes : Method (TokenParser E P) (List ℕ)
  force_bytes = do parser_force; self ← get; return (ff_bytes self)

  unfoldable pub compute_ff_bytes_to : Method (TokenParser E P) (List ℕ)
  compute_ff_bytes_to = do
    (if can_force_bytes then parser_force else return tt)
    self ← get
    return (ff_bytes self)

  unfoldable pub tokenize_and_chop : List ℕ → ℕ → Method (TokenParser E P) (List ℕ × ℕ)
  unfolding chop_tokens
  tokenize_and_chop tokens num_fixed = do
    self ← get
    rest ← expect (slice_from tokens num_fixed)
    (r, n, bytes) ← expect (chop_tokens P.recognizer E.tok_trie (P.enter self.parser) rest)
    modify (λ s. record s { parser = P.leave s.parser r })
    kept ← expect (checked_sub (length tokens) n)
    return (take kept tokens, bytes)

  -- The tokens for the forced bytes, after the tokens in `existing_tokens`, and the bytes that the
  -- next token has to start with.
  unfoldable pub tokenize_forced : List ℕ → ℕ → List ℕ → Method (TokenParser E P) (List ℕ × List ℕ)
  unfolding tokenize_and_chop starts_with
  tokenize_forced existing_tokens num_existing_bytes forced_bytes = do
    (tokens, num_fixed) ← expect (tokenize_bytes_marker E.tokenize_bytes E.tok_trie forced_bytes)
    (tokens1, num_fixed1, existing) ←
        (if starts_with tokens existing_tokens
          then return (tokens, max (length existing_tokens) num_fixed, existing_tokens)
          else (do
            (again, num) ← expect (
                tokenize_bytes_marker E.tokenize_bytes E.tok_trie
                  (drop num_existing_bytes forced_bytes))
            return (again, num, [])))
    (grm_tokens, chop_bytes) ← tokenize_and_chop tokens1 num_fixed1
    expect (Prelude.guard (starts_with grm_tokens existing))
    cut ← expect (checked_sub (length forced_bytes) chop_bytes)
    return (drop (length existing) grm_tokens, drop cut forced_bytes)

  unfoldable pub ff_tokens : Method (TokenParser E P) (List ℕ × List ℕ)
  unfolding compute_ff_bytes_to tokenize_forced
  ff_tokens = do
    self ← get
    let existing_tokens = last_only self.llm_tokens
    existing_bytes ← expect (decode_raw E.tok_trie existing_tokens)
    more ← compute_ff_bytes_to
    let forced_bytes = existing_bytes ++ more
    if ltb (length existing_bytes) (length forced_bytes)
        then (if E.tokenize_is_canonical
            then tokenize_forced existing_tokens (length existing_bytes) forced_bytes
            else return ([], drop (length existing_bytes) forced_bytes))
        else return ([], [])

  unfoldable pub compute_ff_tokens : Method (TokenParser E P) (List ℕ)
  unfolding ff_tokens
  compute_ff_tokens = do
    r ← ff_tokens
    (if can_force_bytes then modify (λ s. record s { ff_tokens_cache = some r }) else return tt)
    return r.0

  -- The loop of `consume_ff_tokens`.
  unfoldable pub consume_forced : List ℕ → Method (TokenParser E P) (Unit {0})
  unfolding consume_token
  consume_forced [] = return tt
  consume_forced (t ∷ toks) = do
    num_backtrack ← consume_token E P t
    if num_backtrack == 0
        then consume_forced toks
        else stop E P (some (backtrack_after_ff t)) internal_error

  unfoldable pub consume_ff_tokens : Method (TokenParser E P) (List ℕ)
  unfolding compute_ff_tokens consume_forced
  consume_ff_tokens = do toks ← compute_ff_tokens; consume_forced toks; return toks

  -- `self.ff_tokens_cache.take().unwrap_or_else(…)`
  abbrev pub take_ff_tokens : Method (TokenParser E P) (List ℕ × List ℕ)
  take_ff_tokens self = elim self.ff_tokens_cache [
    | some r ↦ some (record self { ff_tokens_cache = none }, ok r)
    | none ↦ ff_tokens self
  ]

  -- The loop that allows the end of sequence tokens.
  unfoldable pub allow_eos : List ℕ → SimpleVob → Option SimpleVob
  allow_eos [] set = some set
  allow_eos (eos ∷ rest) set =
      Prelude.◌>>=◌ (if eos == invalid_token then some set else allow_token set eos)
        (allow_eos rest)

  -- The mask for the bytes that the token has to start with.
  unfoldable pub compute_mask_after : List ℕ → Method (TokenParser E P) SimpleVob
  unfolding is_accepting allow_eos is_zero
  compute_mask_after prefix = do
    allowed ← on_parser E P (λ p. with_ok E P (P.compute_bias prefix p))
    self ← get
    elim (P.get_error self.parser) [
      | some why ↦ stop E P (some (parser_error why)) why
      | none ↦ do
        accepting ← is_accepting E P
        allowed1 ← expect (if accepting then allow_eos self.eos_tokens allowed else some allowed)
        if is_zero allowed1 then stop E P none no_extension_bias else return allowed1
    ]

  abbrev pub compute_mask_forced : List ℕ × List ℕ → Method (TokenParser E P) SimpleVob
  compute_mask_forced ([], token_prefix) = compute_mask_after token_prefix
  compute_mask_forced (t ∷ toks, token_prefix) = expect (singleton_token_set E.tok_trie t)

  unfoldable pub compute_mask : Method (TokenParser E P) SimpleVob
  unfolding ff_tokens compute_ff_bytes_to compute_mask_after
  compute_mask = do
    check_initialized E P
    if can_force_bytes
        then (do r ← take_ff_tokens; compute_mask_forced r)
        else (do prefix ← compute_ff_bytes_to; compute_mask_after prefix)

  -- The grammar has moved some of its bytes to the prompt.
  abbrev pub adopt_bytes : List ℕ → Method (TokenParser E P) (Unit {0})
  adopt_bytes bytes = do
    (tokens, num_fixed) ← expect (tokenize_bytes_marker E.tokenize_bytes E.tok_trie bytes)
    modify (λ s. record s { llm_bytes = bytes; llm_tokens = tokens })
    on_parser E P (λ p. Prelude.◌>>=◌ (P.apply_forced (length bytes) p) (λ q. some (q, ok tt)))
    decoded ← expect (decode_raw E.tok_trie tokens)
    if is_spaced decoded bytes
        then modify (λ s. record s { grm_prefix = take 1 decoded; llm_bytes = decoded })
        else return tt

  unfoldable pub process_prompt : List ℕ → Method (TokenParser E P) (List ℕ)
  unfolding tokenize_and_chop
  process_prompt prompt = do
    self ← get
    expect (Prelude.guard (E.tokenize_is_canonical && (self.is_fresh && is_nil self.llm_tokens)))
    modify (λ s. record s { is_fresh = false })
    prompt_bytes ← expect (decode_raw E.tok_trie prompt)
    (if can_force_bytes then parser_force else return tt)
    forced ← get
    let grm_bytes = P.get_bytes forced.parser
    let all_bytes = prompt_bytes ++ grm_bytes
    (tokens, num_fixed) ← expect (tokenize_bytes_marker E.tokenize_bytes E.tok_trie all_bytes)
    (res_prompt, chop_bytes) ← tokenize_and_chop tokens num_fixed
    (if leb chop_bytes (length grm_bytes)
        then adopt_bytes (take (length grm_bytes - chop_bytes) grm_bytes)
        else (do
          from ← expect (checked_sub (length all_bytes) chop_bytes)
          modify (λ s. record s {
            grm_prefix = take (chop_bytes - length grm_bytes) (drop from all_bytes);
          })))
    return res_prompt
