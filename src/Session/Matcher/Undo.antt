-- ===== src/Session/Matcher/Undo.antt =====
-- Tokens that the loop of `consume_tokens` takes and `rollback` takes back.
use llguidance.Prelude.{
  ℕ, ◌+◌, ◌-◌, ◌≤◌, ◌<◌, ◌≡◌, sym, ◌∙◌, ap, min, true, false, none, some, List, length, take, drop,
  arith, length-append, take-append, drop-append,
}
use llguidance.Session.{not_stopped, ok, TokenEnv, Parser}
use llguidance.Session.TokenParser.{TokenParser, rollback, bytes_to_drop, usize_max}
use llguidance.Session.TokenParser.Rollback.{
  taken_back, rollback_checked-taken_back, rollback-rollback_checked,
}
use llguidance.Session.Matcher.{consume_each}
use llguidance.Session.Matcher.Appends.{meets, Appends, NeverBacktracks, consume_each-Appends}

module _ (E : TokenEnv) (P : Parser) where
  -- The fields that `rollback` does not write are the same; those that it writes are given.
  Appends-restored :
      {self self1 : TokenParser E P} {tokens bytes ts bs : List ℕ} {p : P.State} (k : ℕ)
      → Appends E P self self1 tokens bytes
      → ts ≡ self.llm_tokens
      → bs ≡ self.llm_bytes
      → min (self1.max_tokens_total + k) usize_max ≡ self.max_tokens_total
      → taken_back E P self1 ts bs k p ≡ record self {
        parser = p;
        had_rollback = true;
        is_accepting_cache = none;
        ff_tokens_cache = none;
      }
  Appends-restored {p = p} k a ts bs limit = λ i. record {
    parser = p;
    inference_caps = a.same_caps i;
    eos_tokens = a.same_eos i;
    had_rollback = true;
    had_backtrack = a.same_backtrack i;
    is_accepting_cache = none;
    ff_tokens_cache = none;
    stop_reason = a.same_reason i;
    error_message = a.same_error i;
    max_tokens_total = limit i;
    llm_tokens = ts i;
    llm_bytes = bs i;
    grm_prefix = a.same_prefix i;
    is_fresh = a.same_fresh i;
  }

  -- Where no token makes the grammar take bytes back, a session runs past its prefix and consumes tokens
  -- of which none is an end of sequence token, and the parser can take back the bytes that were added:
  -- then `rollback` by the number of these tokens gives the session as it was, tokens, bytes, limit and
  -- all, but for the parser's own new state, the caches, which are empty, and the mark of a rollback.
  pub consume_each-rollback :
      (tokens : List ℕ) (self self1 : TokenParser E P) (p : P.State)
      → NeverBacktracks E P
      → self.is_fresh ≡ false
      → self.stop_reason ≡ not_stopped
      → length self.grm_prefix ≤ length self.llm_bytes
      → self.max_tokens_total ≤ usize_max
      → 0 < length tokens
      → meets tokens self.eos_tokens ≡ false
      → consume_each E P tokens self ≡ some (self1, ok tt)
      → P.rollback (length self1.llm_bytes - length self.llm_bytes) self1.parser ≡ some (p, ok tt)
      → rollback E P (length tokens) self1
        ≡ some (
          record self {
            parser = p;
            had_rollback = true;
            is_accepting_cache = none;
            ff_tokens_cache = none;
          },
          ok tt,
        )
  consume_each-rollback tokens self self1 p plain started running past limit pos eos h r =
      let (bytes, a) = consume_each-Appends E P tokens self self1 plain past eos h in
      let k = length tokens in
      let n_tokens : length self1.llm_tokens ≡ length self.llm_tokens + k =
        ap length a.tokens_are ∙ length-append self.llm_tokens tokens in
      let n_bytes : length self1.llm_bytes ≡ length self.llm_bytes + length bytes =
        ap length a.bytes_are ∙ length-append self.llm_bytes bytes in
      let dropped : bytes_to_drop E P self1.eos_tokens
            (drop (length self1.llm_tokens - k) self1.llm_tokens)
          ≡ some (length bytes) =
        ap (λ l. bytes_to_drop E P self1.eos_tokens (drop (length self1.llm_tokens - k) l))
          a.tokens_are
        ∙ ap (bytes_to_drop E P self1.eos_tokens)
            (drop-append (length self1.llm_tokens - k) self.llm_tokens tokens (omega arith))
        ∙ ap (λ l. bytes_to_drop E P l tokens) a.same_eos
        ∙ a.dropped in
      let len : length self1.llm_bytes - length self.llm_bytes ≡ length bytes = omega arith in
      let r1 : P.rollback (length bytes) self1.parser ≡ some (p, ok tt) =
        ap (λ n. P.rollback n self1.parser) (sym len) ∙ r in
      rollback-rollback_checked E P self1 k pos (omega arith)
      ∙ rollback_checked-taken_back E P self1 k (length bytes) p (a.same_fresh ∙ started)
          (a.same_reason ∙ running) (omega arith) dropped r1
      ∙ ap (λ s. some (s, ok tt))
          (Appends-restored k a
            (ap (take (length self1.llm_tokens - k)) a.tokens_are
              ∙ take-append (length self1.llm_tokens - k) self.llm_tokens tokens (omega arith))
            (ap (take (length self1.llm_bytes - length bytes)) a.bytes_are
              ∙ take-append (length self1.llm_bytes - length bytes) self.llm_bytes bytes
                  (omega arith))
            (omega (arith, a.limit_is, limit)))
