-- ===== src/Session/Consume/Count.antt =====
-- How many tokens a `TokenParser` takes back when the grammar asks for bytes.
use llguidance.Prelude.{
  ℕ, zero, suc, ◌+◌, ◌-◌, ◌≤◌, ◌≡◌, refl, ap, false, Option, none, some, List, [], ◌∷◌, ◌++◌,
  length, leb, ◌==◌, arith, Option-cases, Bool-cases, inl, inr, length-append,
}
use mathlib.Core.List.{reverse, reverse-cons}
use llguidance.Trie.Decode.{token_len}
use llguidance.Session.{Result, ok, err, >>=-eq-ok, TokenEnv, Parser}
use llguidance.Session.TokenParser.{TokenParser, member}
use llguidance.Session.Consume.{
  backtrack_loop, take_prefix, backtrack, applied, apply_bytes, apply_token, apply_or_stop,
  consume_token,
}
use llguidance.Session.Consume.Laws.{
  take_prefix-Moves, reset_caches, apply_token-inverts, consume_token-inverts,
}

length-reverse : (xs : List ℕ) → length (reverse xs) ≡ length xs
length-reverse [] = refl
length-reverse (x ∷ xs) =
    omega
      (arith, length-append (reverse xs) (x ∷ []), length-reverse xs, ap length (reverse-cons x xs))

module _ (E : TokenEnv) (P : Parser) where
  backtrack_loop-count :
      (bytes n m more : ℕ) (toks : List ℕ)
      → backtrack_loop E P bytes n toks ≡ some (m, more)
      → m ≤ n + length toks
  unfolding backtrack_loop
  backtrack_loop-count bytes n m more [] h = ground arith
  backtrack_loop-count bytes n m more (t ∷ toks) h = elim (Bool-cases (bytes == 0)) [
    | inl e ↦ ground arith
    | inr e ↦ elim (Option-cases (token_len E.tok_trie t)) [
      | inl f ↦ ground arith
      | inr (len, f) ↦ elim (Bool-cases (leb bytes len)) [
        | inl g ↦ ground arith
        | inr g ↦
            let w =
              backtrack_loop-count (bytes - len) (n + 1) m more toks
                (rw (e, f, g, backtrack_loop) at h) in
            omega (arith, w)
      ]
    ]
  ]

  backtrack-count :
      (bt n : ℕ) (self self1 : TokenParser E P)
      → backtrack E P bt self ≡ some (self1, ok n)
      → n ≤ length self.llm_tokens
  unfolding backtrack
  backtrack-count bt n self self1 h =
      elim (Option-cases (backtrack_loop E P bt 0 (reverse self.llm_tokens))) [
        | inl e ↦ ground arith
        | inr ((m, more), e) ↦
            let bound = backtrack_loop-count bt 0 m more (reverse self.llm_tokens) e in
            let len = length-reverse self.llm_tokens in ground arith
      ]

  applied-count :
      (bytes : List ℕ) (r : Result ℕ) (n : ℕ) (self self1 : TokenParser E P)
      → applied E P bytes r self ≡ some (self1, ok n)
      → n ≤ length self.llm_tokens
  applied-count bytes (err e) n self self1 h = ground arith
  applied-count bytes (ok zero) n self self1 h = ground arith
  applied-count bytes (ok (suc bt)) n self self1 h =
      backtrack-count (suc bt) n (record self { llm_bytes = self.llm_bytes ++ bytes }) self1 h

  apply_bytes-count :
      (t : ℕ) (rest : Option (List ℕ)) (n : ℕ) (self self1 : TokenParser E P)
      → apply_bytes E P t rest self ≡ some (self1, ok n)
      → n ≤ length self.llm_tokens
  apply_bytes-count t none n self self1 h = ground arith
  apply_bytes-count t (some bytes) n self self1 h = elim (Option-cases (P.get_error self.parser)) [
    | inr (why, e) ↦ ground arith
    | inl e ↦ elim (Option-cases (P.apply_token bytes t self.parser)) [
      | inl f ↦ ground arith
      | inr (a, f) ↦ ground (arith, applied-count bytes a.1 n (record self { parser = a.0 }) self1)
    ]
  ]

  apply_token-count :
      (t n : ℕ) (self self1 : TokenParser E P)
      → apply_token E P t self ≡ some (self1, ok n)
      → n ≤ length self.llm_tokens + 1
  apply_token-count t n self self1 h =
      let (bytes, e, f) = apply_token-inverts E P t n self self1 h in
      let self0 = reset_caches E P self t in
      let k = length self.grm_prefix - length self.llm_bytes in
      let (s, rest, g, i) =
        >>=-eq-ok (take_prefix E P k bytes) (apply_bytes E P t) self0 self1 n f in
      let m = take_prefix-Moves E P k bytes rest self0 s g in
      omega (
        arith,
        apply_bytes-count t rest n s self1 i,
        ap length m.tokens_are,
        length-append self.llm_tokens (t ∷ []),
      )

  apply_or_stop-count :
      (t n : ℕ) (self self1 : TokenParser E P)
      → apply_or_stop E P t self ≡ some (self1, ok n)
      → n ≤ length self.llm_tokens + 1
  apply_or_stop-count t n self self1 h = ground (arith, apply_token-count t n self self1)

  -- No more tokens are taken back than there are, the new one included.
  pub consume_token-count :
      (t n : ℕ) (self self1 : TokenParser E P)
      → member t self.eos_tokens ≡ false
      → consume_token E P t self ≡ some (self1, ok n)
      → n ≤ length self.llm_tokens + 1
  consume_token-count t n self self1 eos h =
      let (positive, e) = consume_token-inverts E P t n self self1 h in
      let self0 : TokenParser E P = record self { max_tokens_total = self.max_tokens_total - 1 } in
      let f : apply_or_stop E P t self0 ≡ some (self1, ok n) = (rw eos at e) in
      apply_or_stop-count t n self0 self1 f
