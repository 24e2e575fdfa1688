-- ===== src/Session/Matcher/Appends.antt =====
-- What the loop of `consume_tokens` of parser/src/matcher.rs appends to a session.
use llguidance.Prelude.{
  ℕ, zero, suc, ◌+◌, ◌-◌, ◌≤◌, ◌≡◌, refl, sym, ◌∙◌, ap, Bool, false, some, List, [], ◌∷◌, ◌++◌,
  length, ◌||◌, arith, length-append, Option-cases, inl, inr,
}
use llguidance.Trie.{token}
use llguidance.Trie.Decode.{decode_raw, token_len}
use llguidance.Trie.Decode.Laws.{token_len-decode_raw}
use llguidance.Session.{ok, err, >>=-ok, TokenEnv, Parser}
use llguidance.Session.TokenParser.{TokenParser, member, bytes_to_drop}
use llguidance.Session.Consume.{take_prefix, apply_bytes, apply_token, apply_or_stop, consume_token}
use llguidance.Session.Consume.Laws.{
  reset_caches, apply_known, apply_token-inverts, consume_token-inverts,
}
use mathlib.Core.List.{append_assoc, append-nil}
use llguidance.Session.Matcher.{consume_each}

-- Whether one of the tokens is in the list.
unfoldable pub meets : List ℕ → List ℕ → Bool
meets [] eos_tokens = false
meets (t ∷ tokens) eos_tokens = member t eos_tokens || meets tokens eos_tokens

module _ (E : TokenEnv) (P : Parser) where
  take_prefix-past :
      (self : TokenParser E P) (n : ℕ) (bytes : List ℕ)
      → n ≡ 0
      → take_prefix E P n bytes self ≡ some (self, ok (some bytes))
  unfolding take_prefix
  take_prefix-past self zero bytes e = refl
  take_prefix-past self (suc n) bytes e = absurd (omega arith)

  -- Consuming `tokens`, none of which is an end of sequence token, appends them and their bytes.
  pub record Appends (self self1 : TokenParser E P) (tokens bytes : List ℕ) : Type 0 where
    pub tokens_are : self1.llm_tokens ≡ self.llm_tokens ++ tokens
    pub bytes_are : self1.llm_bytes ≡ self.llm_bytes ++ bytes
    pub limit_is : self1.max_tokens_total + length tokens ≡ self.max_tokens_total
    pub dropped : bytes_to_drop E P self.eos_tokens tokens ≡ some (length bytes)
    pub same_caps : self1.inference_caps ≡ self.inference_caps
    pub same_eos : self1.eos_tokens ≡ self.eos_tokens
    pub same_backtrack : self1.had_backtrack ≡ self.had_backtrack
    pub same_rollback : self1.had_rollback ≡ self.had_rollback
    pub same_reason : self1.stop_reason ≡ self.stop_reason
    pub same_error : self1.error_message ≡ self.error_message
    pub same_prefix : self1.grm_prefix ≡ self.grm_prefix
    pub same_fresh : self1.is_fresh ≡ self.is_fresh

  -- No token makes the grammar take bytes back.
  abbrev pub NeverBacktracks : Type 0
  NeverBacktracks =
      (bytes : List ℕ) (t n : ℕ) (p q : P.State) → P.apply_token bytes t p ≡ some (q, ok n) → n ≡ 0

  apply_bytes-inverts :
      (t n : ℕ) (bytes : List ℕ) (self self1 : TokenParser E P)
      → NeverBacktracks
      → apply_bytes E P t (some bytes) self ≡ some (self1, ok n)
      → (p : P.State) × (self1 ≡ record self { parser = p; llm_bytes = self.llm_bytes ++ bytes })
  apply_bytes-inverts t n bytes self self1 plain h = elim (Option-cases (P.get_error self.parser)) [
    | inr (why, e) ↦ ground arith
    | inl e ↦ elim (Option-cases (P.apply_token bytes t self.parser)) [
      | inl f ↦ ground arith
      | inr ((p, err m), f) ↦ ground arith
      | inr ((p, ok zero), f) ↦ (p, ground arith)
      | inr ((p, ok (suc k)), f) ↦ absurd (omega (arith, plain bytes t (suc k) self.parser p f))
    ]
  ]

  apply_known-inverts :
      (t n : ℕ) (bytes : List ℕ) (self self1 : TokenParser E P)
      → NeverBacktracks
      → length self.grm_prefix ≤ length self.llm_bytes
      → apply_known E P t bytes self ≡ some (self1, ok n)
      → (p : P.State) × (self1 ≡ record self { parser = p; llm_bytes = self.llm_bytes ++ bytes })
  apply_known-inverts t n bytes self self1 plain past h =
      let k = length self.grm_prefix - length self.llm_bytes in
      apply_bytes-inverts t n bytes self self1 plain (
        sym (
          >>=-ok (take_prefix E P k bytes) (apply_bytes E P t) self self (some bytes)
            (take_prefix-past self k bytes (omega arith)))
        ∙ h)

  apply_or_stop-inverts :
      (t n : ℕ) (self self1 : TokenParser E P)
      → apply_or_stop E P t self ≡ some (self1, ok n)
      → apply_token E P t self ≡ some (self1, ok n)
  apply_or_stop-inverts t n self self1 h = ground arith

  token_len-decoded :
      (t : ℕ) (bytes : List ℕ)
      → decode_raw E.tok_trie (t ∷ []) ≡ some bytes
      → token_len E.tok_trie t ≡ some (length bytes)
  unfolding decode_raw
  token_len-decoded t bytes h = elim (Option-cases (token E.tok_trie t)) [
    | inl e ↦ ground arith
    | inr (raw, e) ↦
        let (bs, f, g) = token_len-decode_raw E.tok_trie t raw e in
        let same : bs ≡ bytes = ground (arith, f, h) in g ∙ ap (λ b. some (length b)) same
  ]

  bytes_to_drop-cons :
      (eos toks : List ℕ) (t n k : ℕ)
      → member t eos ≡ false
      → token_len E.tok_trie t ≡ some n
      → bytes_to_drop E P eos toks ≡ some k
      → bytes_to_drop E P eos (t ∷ toks) ≡ some (n + k)
  unfolding bytes_to_drop
  bytes_to_drop-cons eos toks t n k e f g = rw (e, f, g, bytes_to_drop) refl

  consume_token-Appends :
      (t n : ℕ) (self self1 : TokenParser E P)
      → NeverBacktracks
      → length self.grm_prefix ≤ length self.llm_bytes
      → member t self.eos_tokens ≡ false
      → consume_token E P t self ≡ some (self1, ok n)
      → (bytes : List ℕ) × (token_len E.tok_trie t ≡ some (length bytes))
        × Appends self self1 (t ∷ []) bytes
  unfolding bytes_to_drop
  consume_token-Appends t n self self1 plain past eos h =
      let (positive, e) = consume_token-inverts E P t n self self1 h in
      let self0 : TokenParser E P = record self { max_tokens_total = self.max_tokens_total - 1 } in
      let f : apply_or_stop E P t self0 ≡ some (self1, ok n) = (rw eos at e) in
      let (bytes, decoded, g) =
        apply_token-inverts E P t n self0 self1 (apply_or_stop-inverts t n self0 self1 f) in
      let (p, is) = apply_known-inverts t n bytes (reset_caches E P self0 t) self1 plain past g in
      let len = token_len-decoded t bytes decoded in
      let dropped = bytes_to_drop-cons self.eos_tokens [] t (length bytes) 0 eos len refl in
      let limit : (self.max_tokens_total - 1) + 1 ≡ self.max_tokens_total = omega arith in
      (
        bytes,
        len,
        record {
          tokens_are = ap (λ s. s.llm_tokens) is;
          bytes_are = ap (λ s. s.llm_bytes) is;
          limit_is = ap (λ s. s.max_tokens_total + 1) is ∙ limit;
          dropped = dropped ∙ ap some (omega arith);
          same_caps = ap (λ s. s.inference_caps) is;
          same_eos = ap (λ s. s.eos_tokens) is;
          same_backtrack = ap (λ s. s.had_backtrack) is;
          same_rollback = ap (λ s. s.had_rollback) is;
          same_reason = ap (λ s. s.stop_reason) is;
          same_error = ap (λ s. s.error_message) is;
          same_prefix = ap (λ s. s.grm_prefix) is;
          same_fresh = ap (λ s. s.is_fresh) is;
        },
      )

  Appends-trans :
      {self self1 self2 : TokenParser E P} {t : ℕ} {tokens bytes bytes1 : List ℕ}
      → member t self.eos_tokens ≡ false
      → token_len E.tok_trie t ≡ some (length bytes)
      → Appends self self1 (t ∷ []) bytes
      → Appends self1 self2 tokens bytes1
      → Appends self self2 (t ∷ tokens) (bytes ++ bytes1)
  Appends-trans {self} {self1} {self2} {t} {tokens} {bytes} {bytes1} eos len a b = record {
    tokens_are =
        b.tokens_are
        ∙ ap (λ l. l ++ tokens) a.tokens_are
        ∙ append_assoc self.llm_tokens (t ∷ []) tokens;
    bytes_are =
        b.bytes_are ∙ ap (λ l. l ++ bytes1) a.bytes_are ∙ append_assoc self.llm_bytes bytes bytes1;
    limit_is = omega (arith, a.limit_is, b.limit_is);
    dropped =
        bytes_to_drop-cons self.eos_tokens tokens t (length bytes) (length bytes1) eos len
          (ap (λ l. bytes_to_drop E P l tokens) (sym a.same_eos) ∙ b.dropped)
        ∙ ap some (sym (length-append bytes bytes1));
    same_caps = b.same_caps ∙ a.same_caps;
    same_eos = b.same_eos ∙ a.same_eos;
    same_backtrack = b.same_backtrack ∙ a.same_backtrack;
    same_rollback = b.same_rollback ∙ a.same_rollback;
    same_reason = b.same_reason ∙ a.same_reason;
    same_error = b.same_error ∙ a.same_error;
    same_prefix = b.same_prefix ∙ a.same_prefix;
    same_fresh = b.same_fresh ∙ a.same_fresh;
  }

  consume_each-inverts :
      (t : ℕ) (tokens : List ℕ) (self self2 : TokenParser E P)
      → consume_each E P (t ∷ tokens) self ≡ some (self2, ok tt)
      → (self1 : TokenParser E P) × (n : ℕ) × (consume_token E P t self ≡ some (self1, ok n))
        × (consume_each E P tokens self1 ≡ some (self2, ok tt))
  unfolding consume_each
  consume_each-inverts t tokens self self2 h = elim (Option-cases (consume_token E P t self)) [
    | inl e ↦ ground arith
    | inr ((s, err m), e) ↦ ground arith
    | inr ((s, ok n), e) ↦ (s, n, e, ground arith)
  ]

  Appends-refl : (self self1 : TokenParser E P) → self1 ≡ self → Appends self self1 [] []
  unfolding bytes_to_drop
  Appends-refl self self1 is = record {
    tokens_are = ap (λ s. s.llm_tokens) is ∙ sym (append-nil self.llm_tokens);
    bytes_are = ap (λ s. s.llm_bytes) is ∙ sym (append-nil self.llm_bytes);
    limit_is = omega (arith, ap (λ s. s.max_tokens_total) is);
    dropped = refl;
    same_caps = ap (λ s. s.inference_caps) is;
    same_eos = ap (λ s. s.eos_tokens) is;
    same_backtrack = ap (λ s. s.had_backtrack) is;
    same_rollback = ap (λ s. s.had_rollback) is;
    same_reason = ap (λ s. s.stop_reason) is;
    same_error = ap (λ s. s.error_message) is;
    same_prefix = ap (λ s. s.grm_prefix) is;
    same_fresh = ap (λ s. s.is_fresh) is;
  }

  pub consume_each-Appends :
      (tokens : List ℕ) (self self1 : TokenParser E P)
      → NeverBacktracks
      → length self.grm_prefix ≤ length self.llm_bytes
      → meets tokens self.eos_tokens ≡ false
      → consume_each E P tokens self ≡ some (self1, ok tt)
      → (bytes : List ℕ) × Appends self self1 tokens bytes
  unfolding meets consume_each
  consume_each-Appends [] self self1 plain past eos h = ([], Appends-refl self self1 (ground arith))
  consume_each-Appends (t ∷ tokens) self self2 plain past eos h =
      let (self1, n, e, f) = consume_each-inverts t tokens self self2 h in
      let head : member t self.eos_tokens ≡ false = ground (arith, eos) in
      let (bytes, len, a) = consume_token-Appends t n self self1 plain past head e in
      let tail : meets tokens self1.eos_tokens ≡ false =
        ap (meets tokens) a.same_eos ∙ ground (arith, eos) in
      let past1 : length self1.grm_prefix ≤ length self1.llm_bytes = omega (
        arith,
        ap length a.same_prefix,
        ap length a.bytes_are,
        length-append self.llm_bytes bytes,
      ) in
      let (bytes1, b) = consume_each-Appends tokens self1 self2 plain past1 tail f in
      (bytes ++ bytes1, Appends-trans head len a b)
