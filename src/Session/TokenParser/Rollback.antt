-- ===== src/Session/TokenParser/Rollback.antt =====
-- What `rollback` of parser/src/tokenparser.rs takes back in a session that runs.
use llguidance.Prelude.{
  ℕ, zero, suc, ◌+◌, ◌-◌, ◌≤◌, ◌<◌, ◌≡◌, refl, sym, ◌∙◌, ap, min, Bool, true, false, Option, none,
  some, List, [], ◌∷◌, ◌++◌, length, take, drop, leb, ltb, ◌==◌, ◌||◌, if◌then◌else◌, arith,
  length-append, Option-cases, inl, inr, Bool-cases,
}
use llguidance.Prelude
use llguidance.Session.{
  not_stopped, is_ok, rollback_bytes, ensure, Result, ok, Method, ◌>>=◌, ◌>>◌, expect, get, modify,
  >>=-ok, TokenEnv, Parser,
}
use llguidance.Session.TokenParser.{
  TokenParser, rollback, rollback_checked, bytes_to_drop, usize_max, parser_rollback, clear_caches,
  resume, check_initialized,
}

module _ (E : TokenEnv) (P : Parser) where
  abbrev pub taken_back : TokenParser E P → List ℕ → List ℕ → ℕ → P.State → TokenParser E P
  taken_back self ts bs k p = record self {
    parser = p;
    had_rollback = true;
    is_accepting_cache = none;
    ff_tokens_cache = none;
    max_tokens_total = min (self.max_tokens_total + k) usize_max;
    llm_tokens = ts;
    llm_bytes = bs;
  }

  abbrev pub finish_with : ℕ → ℕ → ℕ → Unit {0} → Method (TokenParser E P) (Unit {0})
  finish_with k new_len n _ = modify (λ s. clear_caches E P (record s {
    max_tokens_total = min (s.max_tokens_total + k) usize_max;
    llm_tokens = take new_len s.llm_tokens;
    llm_bytes = take (length s.llm_bytes - n) s.llm_bytes;
  }))

  abbrev pub finish : ℕ → ℕ → ℕ → Method (TokenParser E P) (Unit {0})
  finish k new_len n = parser_rollback E P n >>= finish_with k new_len n

  -- What `rollback` does once the session is known to run.
  abbrev pub checked : ℕ → Method (TokenParser E P) (Unit {0})
  checked k = do
    modify (λ s. record s { had_rollback = true })
    self ← get
    let new_len = length self.llm_tokens - k
    n ← expect (bytes_to_drop E P self.eos_tokens (drop new_len self.llm_tokens))
    ensure (leb n (length self.llm_bytes)) rollback_bytes
    finish k new_len n

  resume-running :
      (self : TokenParser E P) → self.stop_reason ≡ not_stopped → resume E P self ≡ self
  resume-running self running =
      ap
        (λ r.
          if is_ok r
          then record self { stop_reason = not_stopped }
          else record self { stop_reason = r })
        running
      ∙ ap (λ r. record self { stop_reason = r }) (sym running)

  check_initialized-running :
      (self : TokenParser E P)
      → self.is_fresh ≡ false
      → self.stop_reason ≡ not_stopped
      → check_initialized E P self ≡ some (self, ok tt)
  check_initialized-running self started running = ground arith

  rollback_checked-checked :
      (self : TokenParser E P) (k : ℕ)
      → self.is_fresh ≡ false
      → self.stop_reason ≡ not_stopped
      → rollback_checked E P k self ≡ checked k self
  unfolding rollback_checked
  rollback_checked-checked self k started running =
      >>=-ok (modify (resume E P)) (λ _. check_initialized E P >>= λ _. checked k) self self tt
        (ap (λ (s : TokenParser E P). some (s, ok tt)) (resume-running self running))
      ∙ >>=-ok (check_initialized E P) (λ _. checked k) self self tt
          (check_initialized-running self started running)

  finish-undo :
      (self : TokenParser E P) (k new_len len : ℕ) (p : P.State)
      → P.rollback len self.parser ≡ some (p, ok tt)
      → finish k new_len len (record self { had_rollback = true })
        ≡ some (
          taken_back self
              (take new_len self.llm_tokens)
              (take (length self.llm_bytes - len) self.llm_bytes)
              k
              p,
          ok tt,
        )
  finish-undo self k new_len len p r =
      >>=-ok (parser_rollback E P len) (finish_with k new_len len)
        (record self { had_rollback = true }) (record self { parser = p; had_rollback = true }) tt
        (ap
          (λ (o : Option (P.State × Result (Unit {0}))).
            Prelude.◌>>=◌ o (λ r. some (record self { parser = r.0; had_rollback = true }, r.1)))
          r)

  checked-finish :
      (self : TokenParser E P) (k len : ℕ)
      → len ≤ length self.llm_bytes
      → bytes_to_drop E P self.eos_tokens (drop (length self.llm_tokens - k) self.llm_tokens)
        ≡ some len
      → checked k self
        ≡ finish k (length self.llm_tokens - k) len (record self { had_rollback = true })
  checked-finish self k len h g =
      let in_range : leb len (length self.llm_bytes) ≡ true = ground arith in
      rw (g, in_range, checked) refl

  pub rollback_checked-taken_back :
      (self : TokenParser E P) (k len : ℕ) (p : P.State)
      → self.is_fresh ≡ false
      → self.stop_reason ≡ not_stopped
      → len ≤ length self.llm_bytes
      → bytes_to_drop E P self.eos_tokens (drop (length self.llm_tokens - k) self.llm_tokens)
        ≡ some len
      → P.rollback len self.parser ≡ some (p, ok tt)
      → rollback_checked E P k self
        ≡ some (
          taken_back self
              (take (length self.llm_tokens - k) self.llm_tokens)
              (take (length self.llm_bytes - len) self.llm_bytes)
              k
              p,
          ok tt,
        )
  rollback_checked-taken_back self k len p started running h g r =
      rollback_checked-checked self k started running
      ∙ checked-finish self k len h g
      ∙ finish-undo self k (length self.llm_tokens - k) len p r

  pub rollback-rollback_checked :
      (self : TokenParser E P) (k : ℕ)
      → 0 < k
      → k ≤ length self.llm_tokens
      → rollback E P k self ≡ rollback_checked E P k self
  unfolding rollback
  rollback-rollback_checked self zero pos h = absurd (omega arith)
  rollback-rollback_checked self (suc k) pos h =
      let in_range : leb (suc k) (length self.llm_tokens) ≡ true = ground arith in
      rw (in_range, rollback) refl
