-- ===== src/Session/Keeps/Methods.antt =====
-- The tokens and the limit stay under `is_accepting`, `check_stop`, the validation of tokens, the
-- forced tokens and the token mask.
use llguidance.Prelude.{
  ℕ, ◌≡◌, refl, Bool, true, false, not, ◌&&◌, ltb, leb, ◌||◌, if◌then◌else◌, Bool-cases, max, take,
  checked_sub, Option, none, some, List, [], ◌∷◌, ◌++◌, length, drop, Option-cases, inl, inr, arith,
}
use llguidance.Prelude
use llguidance.Session.{
  not_started, stopped, internal_error, end_of_sentence, no_extension, out_of_range, Result, ok,
  Method, ◌>>=◌, ◌>>◌, return, modify, expect, TokenEnv, Parser,
}
use llguidance.Session.TokenParser.{
  TokenParser, is_stopped, set_stop, check_initialized, check_range, validate_some,
  validate_tokens_raw, validate_token,
}
use llguidance.Session.Consume.{
  on_parser, with_ok, last_is_eos, is_accepting, check_stop, has_ff_bytes,
}
use llguidance.Session.Force.{
  compute_ff_bytes_to, tokenize_and_chop, tokenize_forced, ff_tokens, compute_ff_tokens,
  can_force_bytes, starts_with, ff_bytes, slice_from, last_only,
}
use llguidance.Trie.Decode.{decode_raw}
use llguidance.Trie.{vocab_size}
use llguidance.Trie.Chop.{chop_tokens}
use llguidance.Trie.Special.{tokenize_bytes_marker}
use llguidance.Session.Keeps.{
  Keeps, Safe, bind-Safe, then-Safe, return-Safe, get-Safe, expect-Safe, ensure-Safe, if-Safe,
  modify-Safe, on_parser-Safe, stop-Safe, Keeps-refl, some-Keeps, written, set_stop-Keeps,
}

module _ (E : TokenEnv) (P : Parser) where
  cached :
      (s : TokenParser E P) (c : Option (List ℕ × List ℕ))
      → Keeps E P s (record s { ff_tokens_cache = c })
  cached s c = record {
    same_tokens = refl;
    same_limit = refl;
    same_caps = refl;
    same_eos = refl;
    same_fresh = refl;
  }

  check_initialized-Safe : Safe E P (check_initialized E P)
  check_initialized-Safe = bind-Safe E P (get-Safe E P) (λ self.
      then-Safe E P (ensure-Safe E P (not self.is_fresh) not_started)
        (ensure-Safe E P (not (is_stopped E P self)) stopped))

  compute_ff_bytes_to-Safe : Safe E P (compute_ff_bytes_to E P)
  unfolding compute_ff_bytes_to
  compute_ff_bytes_to-Safe =
      then-Safe E P
        (if-Safe E P (can_force_bytes E P)
          (on_parser-Safe E P (λ p. Prelude.◌>>=◌ (P.force_bytes p) (λ q. some (q, ok tt))))
          (return-Safe E P tt))
        (bind-Safe E P (get-Safe E P) (λ s. return-Safe E P (ff_bytes E P s)))

  tokenize_and_chop-Safe : (tokens : List ℕ) (n : ℕ) → Safe E P (tokenize_and_chop E P tokens n)
  unfolding tokenize_and_chop
  tokenize_and_chop-Safe tokens num_fixed = bind-Safe E P (get-Safe E P) (λ self.
      bind-Safe E P (expect-Safe E P (slice_from tokens num_fixed)) (λ rest.
        bind-Safe E P
          (expect-Safe E P (chop_tokens P.recognizer E.tok_trie (P.enter self.parser) rest))
          (λ (r, n, bytes).
            then-Safe E P
              (modify-Safe E P (λ s. record s { parser = P.leave s.parser r })
                (λ s. written E P (P.leave s.parser r)))
              (bind-Safe E P (expect-Safe E P (checked_sub (length tokens) n))
                (λ kept. return-Safe E P (take kept tokens, bytes))))))

  tokenize_forced-Safe :
      (existing : List ℕ) (n : ℕ) (forced : List ℕ)
      → Safe E P (tokenize_forced E P existing n forced)
  unfolding tokenize_forced
  tokenize_forced-Safe existing_tokens num_existing_bytes forced_bytes =
      bind-Safe E P
        (expect-Safe E P (tokenize_bytes_marker E.tokenize_bytes E.tok_trie forced_bytes))
        (λ (tokens, num_fixed).
          bind-Safe E P
            (if-Safe E P (starts_with tokens existing_tokens)
              (return-Safe E P (tokens, max (length existing_tokens) num_fixed, existing_tokens))
              (bind-Safe E P
                (expect-Safe E P (
                  tokenize_bytes_marker E.tokenize_bytes E.tok_trie
                    (drop num_existing_bytes forced_bytes)))
                (λ (again, num). return-Safe E P (again, num, []))))
            (λ (tokens1, num_fixed1, existing).
              bind-Safe E P (tokenize_and_chop-Safe tokens1 num_fixed1) (λ (grm_tokens, chop_bytes).
                then-Safe E P (expect-Safe E P (Prelude.guard (starts_with grm_tokens existing))) (
                  bind-Safe E P (expect-Safe E P (checked_sub (length forced_bytes) chop_bytes))
                    (λ cut.
                      return-Safe E P
                        (drop (length existing) grm_tokens, drop cut forced_bytes))))))

  pub ff_tokens-Safe : Safe E P (ff_tokens E P)
  unfolding ff_tokens
  ff_tokens-Safe = bind-Safe E P (get-Safe E P) (λ self.
      bind-Safe E P (expect-Safe E P (decode_raw E.tok_trie (last_only self.llm_tokens)))
        (λ existing_bytes. bind-Safe E P compute_ff_bytes_to-Safe (λ more.
          if-Safe E P (ltb (length existing_bytes) (length (existing_bytes ++ more)))
            (if-Safe E P E.tokenize_is_canonical
              (tokenize_forced-Safe (last_only self.llm_tokens) (length existing_bytes)
                (existing_bytes ++ more))
              (return-Safe E P ([], drop (length existing_bytes) (existing_bytes ++ more))))
            (return-Safe E P ([], [])))))

  pub compute_ff_tokens-Safe : Safe E P (compute_ff_tokens E P)
  unfolding compute_ff_tokens
  compute_ff_tokens-Safe = bind-Safe E P ff_tokens-Safe (λ r.
      then-Safe E P
        (if-Safe E P (can_force_bytes E P)
          (modify-Safe E P (λ s. record s { ff_tokens_cache = some r }) (λ s. cached s (some r)))
          (return-Safe E P tt))
        (return-Safe E P r.0))

  accepting_cached :
      (s : TokenParser E P) (c : Option Bool) → Keeps E P s (record s { is_accepting_cache = c })
  accepting_cached s c = record {
    same_tokens = refl;
    same_limit = refl;
    same_caps = refl;
    same_eos = refl;
    same_fresh = refl;
  }

  -- What `is_accepting` does where nothing is cached or forced.
  abbrev ask_accepting : Method (TokenParser E P) Bool
  ask_accepting = do
    r ← on_parser E P (λ p. with_ok E P (P.is_accepting p))
    modify (λ s. record s { is_accepting_cache = some r })
    return r

  ask_accepting-Safe : Safe E P ask_accepting
  ask_accepting-Safe =
      bind-Safe E P (on_parser-Safe E P (λ p. with_ok E P (P.is_accepting p))) (λ r.
        then-Safe E P
          (modify-Safe E P (λ s. record s { is_accepting_cache = some r })
            (λ s. accepting_cached s (some r)))
          (return-Safe E P r))

  is_accepting-Keeps :
      (self self1 : TokenParser E P) (r : Result Bool)
      → is_accepting E P self ≡ some (self1, r)
      → Keeps E P self self1
  unfolding is_accepting
  is_accepting-Keeps self self1 r e = elim (Option-cases self.is_accepting_cache) [
    | inr (acc, g) ↦ some-Keeps E P (Keeps-refl E P) (rw (g, is_accepting) at e)
    | inl g ↦ elim (Bool-cases (has_ff_bytes E P self)) [
      | inl f ↦ some-Keeps E P (accepting_cached self (some false)) (rw (g, f, is_accepting) at e)
      | inr f ↦ ask_accepting-Safe.keeps self self1 r (rw (g, f, is_accepting) at e)
    ]
  ]

  pub is_accepting-Safe : Safe E P (is_accepting E P)
  is_accepting-Safe = record { keeps = is_accepting-Keeps }

  check_stop_end :
      (empty pending accepting : Bool) (self : TokenParser E P)
      → Safe E P (
          expect {S = TokenParser E P} (Prelude.guard (not accepting || empty))
          >> (if accepting && (not (P.can_advance self.parser) || pending)
              then (modify (set_stop E P none (if pending then end_of_sentence else no_extension))
                  >> return true)
              else return false))
  check_stop_end empty pending accepting self =
      then-Safe E P (expect-Safe E P (Prelude.guard (not accepting || empty))) (
        if-Safe E P (accepting && (not (P.can_advance self.parser) || pending))
          (then-Safe E P
            (modify-Safe E P (set_stop E P none (if pending then end_of_sentence else no_extension))
              (set_stop-Keeps E P none (if pending then end_of_sentence else no_extension)))
            (return-Safe E P true))
          (return-Safe E P false))

  pub check_stop-Safe : Safe E P (check_stop E P)
  unfolding check_stop
  check_stop-Safe = bind-Safe E P (get-Safe E P) (λ before.
      bind-Safe E P is_accepting-Safe (λ accepting. bind-Safe E P (get-Safe E P) (λ self.
        check_stop_end (not (has_ff_bytes E P before))
          (last_is_eos E P before.eos_tokens before.llm_tokens) accepting self)))

  check_range-Safe : (tokens : List ℕ) → Safe E P (check_range E P tokens)
  unfolding check_range
  check_range-Safe [] = return-Safe E P tt
  check_range-Safe (t ∷ tokens) =
      if-Safe E P (leb (vocab_size E.tok_trie) t)
        (stop-Safe E P (some (out_of_range t)) internal_error) (check_range-Safe tokens)

  parser_validate-cases :
      (o : Option (P.State × ℕ)) (self self1 : TokenParser E P) (r : Result ℕ)
      → Prelude.◌>>=◌ {B = TokenParser E P × Result ℕ} o
          (λ a. some (record self { parser = a.0 }, ok a.1))
        ≡ some (self1, r)
      → Keeps E P self self1
  parser_validate-cases none self self1 r e = absurd (ground (arith, e))
  parser_validate-cases (some (p, n)) self self1 r e = some-Keeps E P (written E P p) e

  validate_some-Safe : (tokens : List ℕ) → Safe E P (validate_some E P tokens)
  unfolding validate_some
  validate_some-Safe [] = return-Safe E P 0
  validate_some-Safe (t ∷ tokens) = then-Safe E P (check_range-Safe (t ∷ tokens)) (record {
    keeps = λ self self1 r e.
        parser_validate-cases (P.validate_tokens (t ∷ tokens) self.parser) self self1 r e;
  })

  unless_stopped-Safe :
      {A : Type 0} (a : A) {m : Method (TokenParser E P) A}
      → Safe E P m
      → Safe E P (λ self. if is_stopped E P self then some (self, ok a) else m self)
  unless_stopped-Safe a {m} h = record {
    keeps = λ self self1 r e. elim (Bool-cases (is_stopped E P self)) [
      | inl g ↦ some-Keeps E P (Keeps-refl E P) (rw g at e)
      | inr g ↦ h.keeps self self1 r (rw g at e)
    ];
  }

  pub validate_tokens_raw-Safe : (tokens : List ℕ) → Safe E P (validate_tokens_raw E P tokens)
  unfolding validate_tokens_raw
  validate_tokens_raw-Safe tokens =
      unless_stopped-Safe 0 (then-Safe E P check_initialized-Safe (validate_some-Safe tokens))

  pub validate_token-Safe : (t : ℕ) → Safe E P (validate_token E P t)
  unfolding validate_token
  validate_token-Safe t = unless_stopped-Safe false (
      then-Safe E P check_initialized-Safe
        (bind-Safe E P (validate_tokens_raw-Safe (t ∷ [])) (λ n. return-Safe E P (ltb 0 n))))
