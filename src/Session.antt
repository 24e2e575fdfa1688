-- ===== src/Session.antt =====
-- The token level of the crate parser: what `TokenParser` (parser/src/tokenparser.rs) calls of the
-- tokenizer and of the Earley parser (parser/src/earley/parser.rs), and code that mutates a state and
-- may return an error.
pub mod TokenParser
pub mod Consume
pub mod Force
pub mod Keeps
pub mod Sample
mod Tests
pub mod Matcher
pub mod Constraint
use llguidance.Prelude.{
  ℕ, Bool, true, false, Option, none, some, List, leb, if◌then◌else◌, ◌≡◌, inl, inr, Option-cases,
}
use llguidance.Svob.{SimpleVob}
use llguidance.Recognizer.{Recognizer}
use llguidance.Trie.{TokTrie}

-- `StopReason` of parser/src/api.rs
pub data StopReason : Type 0 where
  not_stopped max_tokens_total max_tokens_parser no_extension no_extension_bias : StopReason
  end_of_sentence internal_error lexer_too_complex parser_too_complex : StopReason

abbrev pub is_ok : StopReason → Bool
is_ok not_stopped = true
is_ok end_of_sentence = true
is_ok no_extension = true
is_ok no_extension_bias = true
is_ok _ = false

abbrev pub is_not_stopped : StopReason → Bool
is_not_stopped not_stopped = true
is_not_stopped _ = false

-- The errors by their kind; their texts are not modelled.
pub data Message : Type 0 where
  not_started stopped rollback_tokens rollback_bytes max_tokens prefix_mismatch : Message
  no_backtracking unexpected_backtracking no_sampled_token invalid_mask_result after_stop panic :
      Message
  out_of_range backtrack_after_ff : ℕ → Message
  parser_error reason : StopReason → Message

pub data Result (A : Type 0) : Type 0 where
  ok : A → Result A
  err : Message → Result A

-- A method on `&mut self` that returns a `Result`. The state is there after an error, too; `none` is
-- a panic.
abbrev pub Method : Type 0 → Type 0 → Type 0
Method S A = S → Option (S × Result A)

infixl 5 ◌>>=◌ ◌>>◌
abbrev pub ◌>>=◌ : {S A B : Type 0} → Method S A → (A → Method S B) → Method S B
◌>>=◌ m f s = elim (m s) [
  | none ↦ none
  | some (s1, r) ↦ elim r [ ok a ↦ f a s1 | err e ↦ some (s1, err e) ]
]

abbrev pub ◌>>◌ : {S B : Type 0} → Method S (Unit {0}) → Method S B → Method S B
m >> k = m >>= λ _. k

abbrev pub return : {S A : Type 0} → A → Method S A
return a s = some (s, ok a)

abbrev pub fail : {S A : Type 0} → Message → Method S A
fail e s = some (s, err e)

abbrev pub get : {S : Type 0} → Method S S
get s = some (s, ok s)

abbrev pub modify : {S : Type 0} → (S → S) → Method S (Unit {0})
modify f s = some (f s, ok tt)

-- `ensure!`
abbrev pub ensure : {S : Type 0} → Bool → Message → Method S (Unit {0})
ensure true e s = some (s, ok tt)
ensure false e s = some (s, err e)

-- A value that may be a panic.
abbrev pub expect : {S A : Type 0} → Option A → Method S A
expect none s = none
expect (some a) s = some (s, ok a)

-- `TokenizerEnv`
pub record TokenEnv : Type 0 where
  pub tok_trie : TokTrie
  pub tokenize_bytes : List ℕ → List ℕ
  pub tokenize_is_canonical : Bool

-- `InferenceCapabilities` of toktrie/src/lib.rs
pub record InferenceCapabilities : Type 0 where
  pub ff_tokens : Bool
  pub conditional_ff_tokens : Bool
  pub backtrack : Bool
  pub fork : Bool

-- The Earley parser. A method that mutates returns the new state, and `none` where it panics;
-- `enter` and `leave` are `with_recognizer`, and an error of `get_error` is its stop reason.
pub record Parser : Type 1 where
  pub State : Type 0
  pub recognizer : Recognizer
  pub enter : State → recognizer.State
  pub leave : State → recognizer.State → State
  pub no_forcing : Bool
  pub get_error : State → Option StopReason
  pub is_accepting : State → Option (State × Bool)
  pub can_advance : State → Bool
  pub currently_forced_bytes : State → List ℕ
  pub get_bytes : State → List ℕ
  pub hidden_start : State → ℕ
  pub force_bytes : State → Option State
  pub apply_forced : ℕ → State → Option State
  pub apply_token : List ℕ → ℕ → State → Option (State × Result ℕ)
  pub additional_backtrack : ℕ → State → Option State
  pub rollback : ℕ → State → Option (State × Result (Unit {0}))
  pub validate_tokens : List ℕ → State → Option (State × ℕ)
  pub scan_eos : State → Option (State × Bool)
  pub compute_bias : List ℕ → State → Option (State × SimpleVob)

-- A sequence that ends without an error went through a result in between.
pub >>=-eq-ok :
    {S A B : Type 0} (m : Method S A) (f : A → Method S B) (s t : S) (b : B)
    → (m >>= f) s ≡ some (t, ok b)
    → (u : S) × (a : A) × (m s ≡ some (u, ok a)) × (f a u ≡ some (t, ok b))
>>=-eq-ok m f s t b h = elim (Option-cases (m s)) [
  | inl e ↦ cc
  | inr ((u, err x), e) ↦ cc
  | inr ((u, ok a), e) ↦ (u, a, e, cc)
]

-- A sequence whose first part gives a result goes on with it.
pub >>=-ok :
    {S A B : Type 0} (m : Method S A) (f : A → Method S B) (s u : S) (a : A)
    → m s ≡ some (u, ok a)
    → (m >>= f) s ≡ f a u
>>=-ok m f s u a h = rw (h, ◌>>=◌)

-- One whose first part fails, fails.
pub >>=-err :
    {S A B : Type 0} (m : Method S A) (f : A → Method S B) (s u : S) (e : Message)
    → m s ≡ some (u, err e)
    → (m >>= f) s ≡ some (u, err e)
>>=-err m f s u e h = rw (h, ◌>>=◌)
