-- ===== src/Session/Keeps.antt =====
-- The methods of parser/src/tokenparser.rs that leave the tokens and the limit of a session as they
-- are: those that only ask the parser, fill a cache or stop.
pub mod Methods
use llguidance.Prelude.{
  ℕ, zero, suc, ◌≡◌, refl, sym, ◌∙◌, ap, Bool, true, false, Option, none, some, List, [], ◌∷◌,
  if◌then◌else◌, Option-cases, inl, inr, arith, ◌==◌,
}
use llguidance.Prelude
use mathlib.Core.Path.{subst}
use llguidance.Session.{
  StopReason, Message, Result, ok, err, Method, ◌>>=◌, ◌>>◌, return, fail, get, modify, ensure,
  expect, >>=-ok, TokenEnv, Parser,
}
use llguidance.Session.TokenParser.{TokenParser, set_stop, stop, anyhow_error, check_initialized}
use llguidance.Session.Consume.{on_parser, with_ok, is_accepting, check_stop}
use llguidance.Session.Force.{
  parser_force, force_bytes, compute_ff_bytes_to, tokenize_and_chop, tokenize_forced, ff_tokens,
  compute_ff_tokens,
}

module _ (E : TokenEnv) (P : Parser) where
  -- What a client sees of a session is the same.
  pub record Keeps (self self1 : TokenParser E P) : Type 0 where
    pub same_tokens : self1.llm_tokens ≡ self.llm_tokens
    pub same_limit : self1.max_tokens_total ≡ self.max_tokens_total
    pub same_caps : self1.inference_caps ≡ self.inference_caps
    pub same_eos : self1.eos_tokens ≡ self.eos_tokens
    pub same_fresh : self1.is_fresh ≡ self.is_fresh

  pub Keeps-refl : {self : TokenParser E P} → Keeps self self
  Keeps-refl = record {
    same_tokens = refl;
    same_limit = refl;
    same_caps = refl;
    same_eos = refl;
    same_fresh = refl;
  }

  pub Keeps-trans : {a b c : TokenParser E P} → Keeps a b → Keeps b c → Keeps a c
  Keeps-trans h k = record {
    same_tokens = k.same_tokens ∙ h.same_tokens;
    same_limit = k.same_limit ∙ h.same_limit;
    same_caps = k.same_caps ∙ h.same_caps;
    same_eos = k.same_eos ∙ h.same_eos;
    same_fresh = k.same_fresh ∙ h.same_fresh;
  }

  Keeps-eq : {a b c : TokenParser E P} → Keeps a b → b ≡ c → Keeps a c
  Keeps-eq {a} h e = subst (Keeps a) e h

  -- Whatever the method returns.
  pub record Safe {A : Type 0} (m : Method (TokenParser E P) A) : Type 0 where
    pub keeps :
        (self self1 : TokenParser E P) (r : Result A) → m self ≡ some (self1, r) → Keeps self self1

  pub some-Keeps :
      {A : Type 0} {self a self1 : TokenParser E P} {r s : Result A}
      → Keeps self a
      → ◌≡◌ {A = Option (TokenParser E P × Result A)} (some (a, r)) (some (self1, s))
      → Keeps self self1
  some-Keeps {A} {self} {a} {self1} {r} {s} h e =
      let f : ◌≡◌ {A = TokenParser E P} a self1 = cc in Keeps-eq h f

  bind-cases :
      {A B : Type 0} (m : Method (TokenParser E P) A) (f : A → Method (TokenParser E P) B)
      (self self1 : TokenParser E P) (r : Result B)
      → Safe m
      → ((a : A) → Safe (f a))
      → (m >>= f) self ≡ some (self1, r)
      → (o : Option (TokenParser E P × Result A)) → m self ≡ o
      → Keeps self self1
  bind-cases m f self self1 r h k e none g = absurd (ground (arith, g, e))
  bind-cases m f self self1 r h k e (some (s, err x)) g =
      Keeps-eq (h.keeps self s (err x) g) (ground (arith, g, e))
  bind-cases m f self self1 r h k e (some (s, ok a)) g =
      Keeps-trans (h.keeps self s (ok a) g)
        ((k a).keeps s self1 r (sym (>>=-ok m f self s a g) ∙ e))

  pub bind-Safe :
      {A B : Type 0} {m : Method (TokenParser E P) A} {f : A → Method (TokenParser E P) B}
      → Safe m
      → ((a : A) → Safe (f a))
      → Safe (m >>= f)
  bind-Safe {m = m} {f = f} h k = record {
    keeps = λ self self1 r e. bind-cases m f self self1 r h k e (m self) refl;
  }

  pub then-Safe :
      {B : Type 0} {m : Method (TokenParser E P) (Unit {0})} {n : Method (TokenParser E P) B}
      → Safe m
      → Safe n
      → Safe (m >> n)
  then-Safe h k = bind-Safe h (λ a. k)

  pub return-Safe : {A : Type 0} (a : A) → Safe (return a)
  return-Safe a = record { keeps = λ self self1 r e. some-Keeps Keeps-refl e }

  pub get-Safe : Safe get
  get-Safe = record { keeps = λ self self1 r e. some-Keeps Keeps-refl e }

  none-Keeps :
      {A : Type 0} {self self1 : TokenParser E P} {r : Result A}
      → ◌≡◌ {A = Option (TokenParser E P × Result A)} none (some (self1, r))
      → Keeps self self1
  none-Keeps e = absurd (ground (arith, e))

  pub expect-Safe : {A : Type 0} (o : Option A) → Safe (expect o)
  expect-Safe none = record { keeps = λ self self1 r e. none-Keeps e }
  expect-Safe (some a) = record { keeps = λ self self1 r e. some-Keeps Keeps-refl e }

  pub ensure-Safe : (b : Bool) (m : Message) → Safe (ensure b m)
  ensure-Safe true m = record { keeps = λ self self1 r e. some-Keeps Keeps-refl e }
  ensure-Safe false m = record { keeps = λ self self1 r e. some-Keeps Keeps-refl e }

  pub if-Safe :
      {A : Type 0} (b : Bool) {m n : Method (TokenParser E P) A}
      → Safe m
      → Safe n
      → Safe (if b then m else n)
  if-Safe true h k = h
  if-Safe false h k = k

  pub modify-Safe :
      (f : TokenParser E P → TokenParser E P)
      → ((s : TokenParser E P) → Keeps s (f s))
      → Safe (modify f)
  modify-Safe f h = record { keeps = λ self self1 r e. some-Keeps (h self) e }

  pub written : {self : TokenParser E P} (p : P.State) → Keeps self (record self { parser = p })
  written p = record {
    same_tokens = refl;
    same_limit = refl;
    same_caps = refl;
    same_eos = refl;
    same_fresh = refl;
  }

  on_parser-cases :
      {A : Type 0} (o : Option (P.State × Result A)) (self self1 : TokenParser E P) (r : Result A)
      → Prelude.◌>>=◌ {B = TokenParser E P × Result A} o
          (λ r. some (record self { parser = r.0 }, r.1))
        ≡ some (self1, r)
      → Keeps self self1
  on_parser-cases none self self1 r e = none-Keeps e
  on_parser-cases (some (p, s)) self self1 r e = some-Keeps (written p) e

  pub on_parser-Safe :
      {A : Type 0} (f : P.State → Option (P.State × Result A)) → Safe (on_parser E P f)
  on_parser-Safe f = record {
    keeps = λ self self1 r e. on_parser-cases (f self.parser) self self1 r e;
  }

  pub set_stop-Keeps :
      (warn : Option Message) (why : StopReason) (self : TokenParser E P)
      → Keeps self (set_stop E P warn why self)
  set_stop-Keeps none why self = record {
    same_tokens = refl;
    same_limit = refl;
    same_caps = refl;
    same_eos = refl;
    same_fresh = refl;
  }
  set_stop-Keeps (some w) why self = record {
    same_tokens = refl;
    same_limit = refl;
    same_caps = refl;
    same_eos = refl;
    same_fresh = refl;
  }

  anyhow_error-Safe : (A : Type 0) → Safe (anyhow_error E P {A = A})
  anyhow_error-Safe A = record { keeps = λ self self1 r e. some-Keeps Keeps-refl e }

  pub stop-Safe :
      {A : Type 0} (warn : Option Message) (why : StopReason) → Safe (stop E P {A = A} warn why)
  stop-Safe {A} warn why =
      then-Safe (modify-Safe (set_stop E P warn why) (set_stop-Keeps warn why))
        (anyhow_error-Safe A)
