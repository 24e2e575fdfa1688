-- ===== src/Session/Consume/Laws.antt =====
-- What consuming a token does to the tokens, the limit and the stop reason of a `TokenParser`.
use llguidance.Prelude.{
  ℕ, zero, suc, ◌+◌, ◌-◌, ◌<◌, ◌≡◌, refl, ◌∙◌, ap, true, false, Option, none, some, List, [], ◌∷◌,
  ◌++◌, length, take, leb, arith, Option-cases, Bool-cases, inl, inr, length-append,
}
use llguidance.Trie.{vocab_size}
use llguidance.Trie.Decode.{decode_raw}
use llguidance.Session.{Result, ok, err, Method, ◌>>=◌, >>=-eq-ok, TokenEnv, Parser}
use llguidance.Session.TokenParser.{TokenParser, member}
use llguidance.Session.Consume.{
  take_prefix, backtrack, backtrack_some, applied, apply_bytes, apply_token, apply_or_stop,
  consume_counted, consume_token,
}

pub take-length : (xs : List ℕ) → take (length xs - 0) xs ≡ xs
take-length [] = refl
take-length (x ∷ xs) =
    let e : suc (length xs) - 0 ≡ suc (length xs - 0) = omega arith in
    rw e (ap (λ l. x ∷ l) (take-length xs))

pub take-one : (xs : List ℕ) (t : ℕ) → take (length xs + 1 - 0) (xs ++ t ∷ []) ≡ xs ++ t ∷ []
take-one xs t =
    let len = length-append xs (t ∷ []) in
    let same : length xs + 1 - 0 ≡ length (xs ++ t ∷ []) - 0 = omega (arith, len) in
    ap (λ n. take n (xs ++ t ∷ [])) same ∙ take-length (xs ++ t ∷ [])

module _ (E : TokenEnv) (P : Parser) where
  -- The tokens of `self1` are those given; the limit and what is fixed for a session are those of
  -- `self`.
  pub record Moves (self self1 : TokenParser E P) (tokens : List ℕ) : Type 0 where
    pub tokens_are : self1.llm_tokens ≡ tokens
    pub same_limit : self1.max_tokens_total ≡ self.max_tokens_total
    pub same_caps : self1.inference_caps ≡ self.inference_caps
    pub same_eos : self1.eos_tokens ≡ self.eos_tokens
    pub same_fresh : self1.is_fresh ≡ self.is_fresh

  -- The tokens after one more and `n` fewer.
  abbrev pub advanced : List ℕ → ℕ → ℕ → List ℕ
  advanced tokens t n = take (length tokens + 1 - n) (tokens ++ t ∷ [])

  backtrack-Moves :
      (bt n : ℕ) (self self1 : TokenParser E P)
      → self.inference_caps.backtrack ≡ true
      → backtrack E P bt self ≡ some (self1, ok n)
      → Moves self self1 (take (length self.llm_tokens - n) self.llm_tokens)
  unfolding backtrack
  backtrack-Moves bt n self self1 caps h = ground arith

  pub take_prefix-Moves :
      (n : ℕ) (bytes : List ℕ) (rest : Option (List ℕ)) (self self1 : TokenParser E P)
      → take_prefix E P n bytes self ≡ some (self1, ok rest)
      → Moves self self1 self.llm_tokens
  unfolding take_prefix
  take_prefix-Moves zero bytes rest self self1 h = ground arith
  take_prefix-Moves (suc n) bytes rest self self1 h = ground arith

  backtrack_some-Moves :
      (bt n : ℕ) (self self1 : TokenParser E P)
      → self.inference_caps.backtrack ≡ true
      → backtrack_some E P bt self ≡ some (self1, ok n)
      → Moves self self1 (take (length self.llm_tokens - n) self.llm_tokens)
  backtrack_some-Moves zero n self self1 caps h = ground (arith, take-length self.llm_tokens)
  backtrack_some-Moves (suc bt) n self self1 caps h = backtrack-Moves (suc bt) n self self1 caps h

  applied-Moves :
      (bytes : List ℕ) (r : Result ℕ) (n : ℕ) (self self1 : TokenParser E P)
      → self.inference_caps.backtrack ≡ true
      → applied E P bytes r self ≡ some (self1, ok n)
      → Moves self self1 (take (length self.llm_tokens - n) self.llm_tokens)
  applied-Moves bytes (err e) n self self1 caps h = ground arith
  applied-Moves bytes (ok bt) n self self1 caps h =
      ground (
        arith,
        backtrack_some-Moves bt n (record self { llm_bytes = self.llm_bytes ++ bytes }) self1,
      )

  apply_bytes-Moves :
      (t : ℕ) (rest : Option (List ℕ)) (n : ℕ) (self self1 : TokenParser E P)
      → self.inference_caps.backtrack ≡ true
      → apply_bytes E P t rest self ≡ some (self1, ok n)
      → Moves self self1 (take (length self.llm_tokens - n) self.llm_tokens)
  apply_bytes-Moves t none n self self1 caps h = ground (arith, take-length self.llm_tokens)
  apply_bytes-Moves t (some bytes) n self self1 caps h =
      elim (Option-cases (P.get_error self.parser)) [
        | inr (why, e) ↦ ground arith
        | inl e ↦ elim (Option-cases (P.apply_token bytes t self.parser)) [
          | inl f ↦ ground arith
          | inr (a, f) ↦
              ground (arith, applied-Moves bytes a.1 n (record self { parser = a.0 }) self1)
        ]
      ]

  abbrev pub reset_caches : TokenParser E P → ℕ → TokenParser E P
  reset_caches self t = record self {
    llm_tokens = self.llm_tokens ++ t ∷ [];
    is_accepting_cache = none;
    ff_tokens_cache = none;
  }

  -- What `apply_token` does after its tests, on the bytes of the token.
  abbrev pub apply_known : ℕ → List ℕ → Method (TokenParser E P) ℕ
  apply_known t bytes self =
      (take_prefix E P (length self.grm_prefix - length self.llm_bytes) bytes >>= apply_bytes E P t)
        self

  apply_known-Moves :
      (t n : ℕ) (bytes : List ℕ) (self self1 : TokenParser E P)
      → self.inference_caps.backtrack ≡ true
      → apply_known t bytes self ≡ some (self1, ok n)
      → Moves self self1 (take (length self.llm_tokens - n) self.llm_tokens)
  apply_known-Moves t n bytes self self1 caps h =
      let (s, rest, e, f) =
        >>=-eq-ok (take_prefix E P (length self.grm_prefix - length self.llm_bytes) bytes)
          (apply_bytes E P t) self self1 n h in
      let m =
        take_prefix-Moves (length self.grm_prefix - length self.llm_bytes) bytes rest self s e in
      let k = apply_bytes-Moves t rest n s self1 (ap (λ c. c.backtrack) m.same_caps ∙ caps) f in
      record {
        tokens_are = rw (← m.tokens_are) k.tokens_are;
        same_limit = k.same_limit ∙ m.same_limit;
        same_caps = k.same_caps ∙ m.same_caps;
        same_eos = k.same_eos ∙ m.same_eos;
        same_fresh = k.same_fresh ∙ m.same_fresh;
      }

  pub apply_token-inverts :
      (t n : ℕ) (self self1 : TokenParser E P)
      → apply_token E P t self ≡ some (self1, ok n)
      → (bytes : List ℕ) × (decode_raw E.tok_trie (t ∷ []) ≡ some bytes)
        × (apply_known t bytes (reset_caches self t) ≡ some (self1, ok n))
  unfolding apply_token
  apply_token-inverts t n self self1 h = elim (Bool-cases (leb (vocab_size E.tok_trie) t)) [
    | inl e ↦ cc
    | inr e ↦ elim (Option-cases (decode_raw E.tok_trie (t ∷ []))) [
      | inl f ↦ ground arith
      | inr (bytes, f) ↦ (bytes, f, rw (e, f, apply_token) at h)
    ]
  ]

  pub consume_token-inverts :
      (t n : ℕ) (self self1 : TokenParser E P)
      → consume_token E P t self ≡ some (self1, ok n)
      → (0 < self.max_tokens_total)
        × (consume_counted E P t (record self { max_tokens_total = self.max_tokens_total - 1 })
            ≡ some (self1, ok n))
  unfolding consume_token
  consume_token-inverts t n self self1 h = ground arith

  apply_token-Moves :
      (t n : ℕ) (self self1 : TokenParser E P)
      → self.inference_caps.backtrack ≡ true
      → apply_token E P t self ≡ some (self1, ok n)
      → Moves self self1 (advanced self.llm_tokens t n)
  apply_token-Moves t n self self1 caps h =
      let (bytes, e, f) = apply_token-inverts t n self self1 h in
      let m = apply_known-Moves t n bytes (reset_caches self t) self1 caps f in
      let len = length-append self.llm_tokens (t ∷ []) in
      record {
        tokens_are = m.tokens_are ∙ ap (λ k. take (k - n) (self.llm_tokens ++ t ∷ [])) len;
        same_limit = m.same_limit;
        same_caps = m.same_caps;
        same_eos = m.same_eos;
        same_fresh = m.same_fresh;
      }

  apply_or_stop-Moves :
      (t n : ℕ) (self self1 : TokenParser E P)
      → self.inference_caps.backtrack ≡ true
      → apply_or_stop E P t self ≡ some (self1, ok n)
      → Moves self self1 (advanced self.llm_tokens t n)
  apply_or_stop-Moves t n self self1 caps h = ground (arith, apply_token-Moves t n self self1)

  -- Where backtracking is on, consuming a token that is not an end of sequence token puts it at the
  -- end of the tokens and then takes back as many of the last ones as the result says, the new one
  -- included; the limit on tokens goes down by one, and what is fixed for a session stays.
  pub consume_token-advances :
      (t n : ℕ) (self self1 : TokenParser E P)
      → self.inference_caps.backtrack ≡ true
      → member t self.eos_tokens ≡ false
      → consume_token E P t self ≡ some (self1, ok n)
      → (self1.llm_tokens ≡ advanced self.llm_tokens t n)
        × (self1.max_tokens_total + 1 ≡ self.max_tokens_total)
        × (self1.inference_caps ≡ self.inference_caps)
        × (self1.eos_tokens ≡ self.eos_tokens)
  consume_token-advances t n self self1 caps eos h =
      let (positive, e) = consume_token-inverts t n self self1 h in
      let self0 : TokenParser E P = record self { max_tokens_total = self.max_tokens_total - 1 } in
      let f : apply_or_stop E P t self0 ≡ some (self1, ok n) = (rw eos at e) in
      let m = apply_or_stop-Moves t n self0 self1 caps f in
      (m.tokens_are, omega (arith, m.same_limit, positive), m.same_caps, m.same_eos)
