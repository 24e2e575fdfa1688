-- ===== src/Session/Consume.antt =====
-- `apply_token`, `consume_token` and `check_stop` of parser/src/tokenparser.rs.
pub mod Laws
pub mod Limit
pub mod Count
use llguidance.Prelude.{
  ℕ, zero, suc, ◌+◌, ◌-◌, min, Bool, true, false, not, ◌&&◌, ◌||◌, Option, none, some, List, [],
  ◌∷◌, ◌++◌, length, take, drop, leb, ltb, ◌==◌, if◌then◌else◌, checked_sub,
}
use mathlib.Core.List.{reverse}
use llguidance.Prelude
use llguidance.Trie.{vocab_size}
use llguidance.Trie.Decode.{decode_raw, token_len}
use llguidance.Session.{
  StopReason, not_stopped, internal_error, parser_too_complex, max_tokens_total, end_of_sentence,
  no_extension, Message, out_of_range, max_tokens, prefix_mismatch, parser_error, Result, ok, err,
  Method, ◌>>=◌, ◌>>◌, return, get, modify, expect, TokenEnv, Parser,
}
use llguidance.Session.TokenParser.{
  TokenParser, stop, set_stop, anyhow_error, check_initialized, clear_caches, member,
}

-- Whether two strings of bytes are equal.
unfoldable pub same_bytes : List ℕ → List ℕ → Bool
same_bytes [] [] = true
same_bytes [] (y ∷ ys) = false
same_bytes (x ∷ xs) [] = false
same_bytes (x ∷ xs) (y ∷ ys) = x == y && same_bytes xs ys

abbrev pub is_nil : List ℕ → Bool
is_nil [] = true
is_nil (x ∷ xs) = false

module _ (E : TokenEnv) (P : Parser) where
  -- The bytes that are forced in the state of the parser, those of the prefix first.
  abbrev pub has_ff_bytes : TokenParser E P → Bool
  has_ff_bytes self =
      not (is_nil (drop (min (length self.grm_prefix) (length self.llm_bytes)) self.grm_prefix))
      || not (is_nil (P.currently_forced_bytes self.parser))

  -- A method of the parser on the field.
  abbrev pub on_parser :
      {A : Type 0} → (P.State → Option (P.State × Result A)) → Method (TokenParser E P) A
  on_parser f self = Prelude.◌>>=◌ (f self.parser) (λ r. some (record self { parser = r.0 }, r.1))

  -- An infallible method's result.
  abbrev pub with_ok : {A : Type 0} → Option (P.State × A) → Option (P.State × Result A)
  with_ok o = Prelude.◌>>=◌ o (λ r. some (r.0, ok r.1))

  unfoldable pub is_accepting : Method (TokenParser E P) Bool
  is_accepting self = elim self.is_accepting_cache [
    | some acc ↦ some (self, ok acc)
    | none ↦ elim (has_ff_bytes self) [
      | true ↦ some (record self { is_accepting_cache = some false }, ok false)
      | false ↦
          (do
            r ← on_parser (λ p. with_ok (P.is_accepting p))
            modify (λ s. record s { is_accepting_cache = some r })
            return r)
            self
    ]
  ]

  -- The loop over the tokens from the last one on, with the bytes that are left to take back: the
  -- number of tokens, and the bytes too many.
  unfoldable pub backtrack_loop : ℕ → ℕ → List ℕ → Option (ℕ × ℕ)
  unfolding token_len
  backtrack_loop bytes n [] = if bytes == 0 then some (n, 0) else none
  backtrack_loop bytes n (tok ∷ toks) =
      let enough = λ (len : ℕ).
        if leb bytes len
        then some (n + 1, len - bytes)
        else backtrack_loop (bytes - len) (n + 1) toks in
      if bytes == 0 then some (n, 0) else Prelude.◌>>=◌ (token_len E.tok_trie tok) enough

  -- The part of the bytes that is still in the prefix is compared with it; the bytes that follow, or
  -- `none` where none do.
  unfoldable pub take_prefix : ℕ → List ℕ → Method (TokenParser E P) (Option (List ℕ))
  unfolding same_bytes
  take_prefix zero tok_bytes = return (some tok_bytes)
  take_prefix (suc n) tok_bytes = do
    modify (λ s. record s {
      llm_bytes = s.llm_bytes ++ take (min (length tok_bytes) (suc n)) tok_bytes;
    })
    self ← get
    if same_bytes (take (length self.llm_bytes) self.grm_prefix) self.llm_bytes
        then return (if ltb (suc n) (length tok_bytes) then some (drop (suc n) tok_bytes) else none)
        else stop E P (some prefix_mismatch) internal_error

  -- After the parser asked for `bt` bytes back: whole tokens are taken back for them.
  unfoldable pub backtrack : ℕ → Method (TokenParser E P) ℕ
  unfolding backtrack_loop
  backtrack bt = do
    modify (λ s. record s { had_backtrack = true })
    self ← get
    (n, additional) ← expect (backtrack_loop bt 0 (reverse self.llm_tokens))
    expect (Prelude.guard (ltb 0 n))
    byte_ptr ← expect (checked_sub (length self.llm_bytes) (bt + additional))
    modify (λ s. record s { llm_bytes = take byte_ptr s.llm_bytes })
    (if self.inference_caps.backtrack
        then on_parser
            (λ p. Prelude.◌>>=◌ (P.additional_backtrack additional p) (λ q. some (q, ok tt)))
        else return tt)
    modify (λ s. record s { llm_tokens = take (length s.llm_tokens - n) s.llm_tokens })
    return (if self.inference_caps.backtrack then n else 0)

  abbrev pub backtrack_some : ℕ → Method (TokenParser E P) ℕ
  backtrack_some zero = return 0
  backtrack_some (suc n) = backtrack (suc n)

  -- The result of the parser's `apply_token`, matched on.
  abbrev pub applied : List ℕ → Result ℕ → Method (TokenParser E P) ℕ
  applied tok_bytes (err e) = stop E P (some (parser_error parser_too_complex)) parser_too_complex
  applied tok_bytes (ok bt) = do
    modify (λ s. record s { llm_bytes = s.llm_bytes ++ tok_bytes })
    backtrack_some bt

  abbrev pub parser_apply : List ℕ → ℕ → Method (TokenParser E P) (Result ℕ)
  parser_apply tok_bytes tok_id = on_parser (λ p. with_ok (P.apply_token tok_bytes tok_id p))

  abbrev pub apply_bytes : ℕ → Option (List ℕ) → Method (TokenParser E P) ℕ
  apply_bytes tok_id none self = some (self, ok 0)
  apply_bytes tok_id (some tok_bytes) self = elim (P.get_error self.parser) [
    | some why ↦ stop E P (some (parser_error why)) why self
    | none ↦ (do r ← parser_apply tok_bytes tok_id; applied tok_bytes r) self
  ]

  unfoldable pub apply_token : ℕ → Method (TokenParser E P) ℕ
  unfolding vocab_size
  apply_token tok_id = do
    modify (clear_caches E P)
    if leb (vocab_size E.tok_trie) tok_id
        then stop E P (some (out_of_range tok_id)) internal_error
        else (do
          modify (λ s. record s { llm_tokens = s.llm_tokens ++ tok_id ∷ [] })
          tok_bytes ← expect (decode_raw E.tok_trie (tok_id ∷ []))
          self ← get
          rest ← take_prefix (length self.grm_prefix - length self.llm_bytes) tok_bytes
          apply_bytes tok_id rest)

  -- `apply_token`, with the message of the parser as the error.
  abbrev pub apply_or_stop : ℕ → Method (TokenParser E P) ℕ
  apply_or_stop token self = elim (apply_token token self) [
    | none ↦ none
    | some (s, ok n) ↦ some (s, ok n)
    | some (s, err e) ↦ anyhow_error E P s
  ]

  unfoldable pub consume_eos : ℕ → Method (TokenParser E P) ℕ
  unfolding is_accepting
  consume_eos token = do
    scanned ← on_parser (λ p. with_ok (P.scan_eos p))
    if scanned then return 0 else (do
      accepting ← is_accepting
      if accepting
          then (do modify (λ s. record s { llm_tokens = s.llm_tokens ++ token ∷ [] }); return 0)
          else apply_or_stop token)

  abbrev pub consume_counted : ℕ → Method (TokenParser E P) ℕ
  consume_counted token self =
      if member token self.eos_tokens then consume_eos token self else apply_or_stop token self

  unfoldable pub consume_token : ℕ → Method (TokenParser E P) ℕ
  consume_token token = do
    check_initialized E P
    self ← get
    if self.max_tokens_total == 0 then stop E P (some max_tokens) max_tokens_total else (do
      modify (λ s. record s { max_tokens_total = s.max_tokens_total - 1 })
      consume_counted token)

  abbrev pub last_is_eos : List ℕ → List ℕ → Bool
  last_is_eos eos_tokens [] = false
  last_is_eos eos_tokens (t ∷ []) = member t eos_tokens
  last_is_eos eos_tokens (t ∷ u ∷ ts) = last_is_eos eos_tokens (u ∷ ts)

  unfoldable pub check_stop : Method (TokenParser E P) Bool
  unfolding is_accepting
  check_stop = do
    before ← get
    let empty_token_prefix = not (has_ff_bytes before)
    let pending_eos = last_is_eos before.eos_tokens before.llm_tokens
    accepting ← is_accepting
    self ← get
    let parser_done = accepting && (not (P.can_advance self.parser) || pending_eos)
    expect (Prelude.guard (not accepting || empty_token_prefix))
    if parser_done
        then (do
          modify (set_stop E P none (if pending_eos then end_of_sentence else no_extension))
          return true)
        else return false
