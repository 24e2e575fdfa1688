-- ===== src/Session/Consume/Limit.antt =====
-- What consuming and checking tokens does to the limit on tokens, whatever the tokens are.
use llguidance.Prelude.{
  ℕ, zero, suc, ◌+◌, ◌-◌, ◌≡◌, ◌∙◌, Bool, true, false, if◌then◌else◌, Option, none, some, List, [],
  ◌∷◌, ◌++◌, length, arith, Option-cases, Bool-cases, inl, inr,
}
use llguidance.Session.Keeps.{on_parser-Safe}
use llguidance.Session.Keeps.Methods.{is_accepting-Safe}
use llguidance.Session.{
  Result, ok, err, Method, ◌>>=◌, ◌>>◌, return, modify, >>=-eq-ok, TokenEnv, Parser,
}
use llguidance.Session.TokenParser.{TokenParser, member}
use llguidance.Session.Consume.{
  on_parser, with_ok, take_prefix, backtrack, applied, apply_bytes, apply_token, apply_or_stop,
  consume_eos, consume_token, is_accepting,
}
use llguidance.Session.Consume.Laws.{
  take_prefix-Moves, reset_caches, apply_token-inverts, consume_token-inverts,
}

module _ (E : TokenEnv) (P : Parser) where
  backtrack-limit :
      (bt n : ℕ) (self self1 : TokenParser E P)
      → backtrack E P bt self ≡ some (self1, ok n)
      → self1.max_tokens_total ≡ self.max_tokens_total
  unfolding backtrack
  backtrack-limit bt n self self1 h = ground arith

  applied-limit :
      (bytes : List ℕ) (r : Result ℕ) (n : ℕ) (self self1 : TokenParser E P)
      → applied E P bytes r self ≡ some (self1, ok n)
      → self1.max_tokens_total ≡ self.max_tokens_total
  applied-limit bytes (err e) n self self1 h = ground arith
  applied-limit bytes (ok zero) n self self1 h = ground arith
  applied-limit bytes (ok (suc bt)) n self self1 h =
      backtrack-limit (suc bt) n (record self { llm_bytes = self.llm_bytes ++ bytes }) self1 h

  apply_bytes-limit :
      (t : ℕ) (rest : Option (List ℕ)) (n : ℕ) (self self1 : TokenParser E P)
      → apply_bytes E P t rest self ≡ some (self1, ok n)
      → self1.max_tokens_total ≡ self.max_tokens_total
  apply_bytes-limit t none n self self1 h = ground arith
  apply_bytes-limit t (some bytes) n self self1 h = elim (Option-cases (P.get_error self.parser)) [
    | inr (why, e) ↦ ground arith
    | inl e ↦ elim (Option-cases (P.apply_token bytes t self.parser)) [
      | inl f ↦ ground arith
      | inr (a, f) ↦ ground (arith, applied-limit bytes a.1 n (record self { parser = a.0 }) self1)
    ]
  ]

  apply_token-limit :
      (t n : ℕ) (self self1 : TokenParser E P)
      → apply_token E P t self ≡ some (self1, ok n)
      → self1.max_tokens_total ≡ self.max_tokens_total
  apply_token-limit t n self self1 h =
      let (bytes, e, f) = apply_token-inverts E P t n self self1 h in
      let self0 = reset_caches E P self t in
      let k = length self.grm_prefix - length self.llm_bytes in
      let (s, rest, g, i) =
        >>=-eq-ok (take_prefix E P k bytes) (apply_bytes E P t) self0 self1 n f in
      let m = take_prefix-Moves E P k bytes rest self0 s g in
      apply_bytes-limit t rest n s self1 i ∙ m.same_limit

  apply_or_stop-limit :
      (t n : ℕ) (self self1 : TokenParser E P)
      → apply_or_stop E P t self ≡ some (self1, ok n)
      → self1.max_tokens_total ≡ self.max_tokens_total
  apply_or_stop-limit t n self self1 h = ground (arith, apply_token-limit t n self self1)

  abbrev eos_end : ℕ → Bool → Method (TokenParser E P) ℕ
  eos_end token accepting =
      if accepting
      then (do modify (λ s. record s { llm_tokens = s.llm_tokens ++ token ∷ [] }); return 0)
      else apply_or_stop E P token

  abbrev eos_rest : ℕ → Bool → Method (TokenParser E P) ℕ
  eos_rest token scanned =
      if scanned then return 0 else (do accepting ← is_accepting E P; eos_end token accepting)

  abbrev scan : Method (TokenParser E P) Bool
  scan = on_parser E P (λ p. with_ok E P (P.scan_eos p))

  eos_end-limit :
      (t n : ℕ) (accepting : Bool) (self self1 : TokenParser E P)
      → eos_end t accepting self ≡ some (self1, ok n)
      → self1.max_tokens_total ≡ self.max_tokens_total
  eos_end-limit t n true self self1 h = ground (arith, h)
  eos_end-limit t n false self self1 h = apply_or_stop-limit t n self self1 h

  eos_rest-limit :
      (t n : ℕ) (scanned : Bool) (self self1 : TokenParser E P)
      → eos_rest t scanned self ≡ some (self1, ok n)
      → self1.max_tokens_total ≡ self.max_tokens_total
  eos_rest-limit t n true self self1 h = ground (arith, h)
  eos_rest-limit t n false self self1 h =
      let (s, accepting, e, f) = >>=-eq-ok (is_accepting E P) (eos_end t) self self1 n h in
      let k = (is_accepting-Safe E P).keeps self s (ok accepting) e in
      eos_end-limit t n accepting s self1 f ∙ k.same_limit

  consume_eos-limit :
      (t n : ℕ) (self self1 : TokenParser E P)
      → consume_eos E P t self ≡ some (self1, ok n)
      → self1.max_tokens_total ≡ self.max_tokens_total
  unfolding consume_eos
  consume_eos-limit t n self self1 h =
      let (s, scanned, e, f) = >>=-eq-ok scan (eos_rest t) self self1 n h in
      let k = (on_parser-Safe E P (λ p. with_ok E P (P.scan_eos p))).keeps self s (ok scanned) e in
      eos_rest-limit t n scanned s self1 f ∙ k.same_limit

  -- A token that is consumed, whichever it is, uses up one of the limit.
  pub consume_token-limit :
      (t n : ℕ) (self self1 : TokenParser E P)
      → consume_token E P t self ≡ some (self1, ok n)
      → self1.max_tokens_total + 1 ≡ self.max_tokens_total
  consume_token-limit t n self self1 h =
      let (positive, e) = consume_token-inverts E P t n self self1 h in
      let self0 : TokenParser E P = record self { max_tokens_total = self.max_tokens_total - 1 } in
      elim (Bool-cases (member t self.eos_tokens)) [
        | inl eos ↦ omega (arith, positive, consume_eos-limit t n self0 self1 (rw eos at e))
        | inr eos ↦ omega (arith, positive, apply_or_stop-limit t n self0 self1 (rw eos at e))
      ]
