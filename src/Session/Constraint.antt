-- ===== src/Session/Constraint.antt =====
-- `Constraint` of parser/src/constraint.rs with `Branch` and `Splice` of toktrie/src/lib.rs: the
-- protocol of masks and sampled tokens. Temperatures and the progress reports are left out; a panic
-- is `none`, where the source turns it into an error and leaves the state as it was at the panic.
pub mod Laws
use llguidance.Prelude.{
  ℕ, zero, suc, ◌+◌, ◌-◌, Bool, true, false, not, ◌&&◌, ◌||◌, Option, none, some, List, [], ◌∷◌,
  ◌++◌, length, take, leb, ltb, ◌==◌, if◌then◌else◌, checked_sub,
}
use llguidance.Prelude
use llguidance.Prelude.Words.{u32}
use llguidance.Svob.{SimpleVob}
use llguidance.Trie.{alloc_token_set}
use llguidance.Session.{
  StopReason, no_extension_bias, Message, no_sampled_token, invalid_mask_result, after_stop, Result,
  ok, err, Method, ◌>>=◌, ◌>>◌, return, fail, get, modify, ensure, expect, TokenEnv, Parser,
}
use llguidance.Session.TokenParser.{TokenParser, start_without_prompt, validate_tokens_raw, member}
use llguidance.Session.Consume.{consume_token, check_stop}
use llguidance.Session.Force.{compute_mask, consume_ff_tokens, process_prompt}

pub record Splice : Type 0 where
  pub when_sampled : List ℕ
  pub backtrack : ℕ
  pub ff_tokens : List ℕ

-- `Branch<SimpleVob>`
pub record StepResult : Type 0 where
  pub sample_mask : Option SimpleVob
  pub splices : List Splice

abbrev pub stop_result : StepResult
stop_result = record { sample_mask = none; splices = [] }

unfoldable pub splice : ℕ → List ℕ → StepResult
splice backtrack ff_tokens = record {
  sample_mask = none;
  splices = record { when_sampled = []; backtrack = backtrack; ff_tokens = ff_tokens } ∷ [];
}

unfoldable pub noop : StepResult
unfolding splice
noop = splice 0 []

abbrev pub sample : SimpleVob → StepResult
sample set = record { sample_mask = some set; splices = [] }

abbrev pub stops : Option SimpleVob → List Splice → Bool
stops none [] = true
stops none (s ∷ splices) = false
stops (some set) splices = false

unfoldable pub is_stop : StepResult → Bool
is_stop self = stops self.sample_mask self.splices

abbrev pub alone : List Splice → Option Splice
alone [] = none
alone (s ∷ []) = elim s.when_sampled [ [] ↦ some s | t ∷ ts ↦ none ]
alone (s ∷ t ∷ splices) = none

unfoldable pub unconditional_splice : StepResult → Option Splice
unconditional_splice self = alone self.splices

-- Whether the splice is for the sampled token.
abbrev pub is_for : List ℕ → ℕ → Bool
is_for [] sampled = true
is_for (t ∷ ts) sampled = member sampled (t ∷ ts)

unfoldable pub find_splice : List Splice → ℕ → Option Splice
find_splice [] sampled = none
find_splice (s ∷ splices) sampled = elim (is_for s.when_sampled sampled) [
  | true ↦ some s
  | false ↦ find_splice splices sampled
]

unfoldable pub spliced : StepResult → ℕ → Splice
unfolding find_splice
spliced self sampled = elim (find_splice self.splices sampled) [
  | some s ↦ s
  | none ↦ record { when_sampled = []; backtrack = 0; ff_tokens = sampled ∷ [] }
]

-- `StepArg::save_tokens`, on a splice: the caller's list of tokens.
unfoldable pub save_tokens : Splice → List ℕ → Option (List ℕ)
save_tokens s acc_tokens =
    Prelude.◌>>=◌ (checked_sub (length acc_tokens) s.backtrack)
      (λ kept. some (take kept acc_tokens ++ s.ff_tokens))

pub record CommitResult : Type 0 where
  pub stop : Bool
  pub backtrack : ℕ
  pub ff_tokens : List ℕ

unfoldable pub from_step_result : StepResult → CommitResult
unfolding is_stop unconditional_splice
from_step_result res = elim (unconditional_splice res) [
  | some s ↦ record { stop = is_stop res; backtrack = s.backtrack; ff_tokens = s.ff_tokens }
  | none ↦ record { stop = is_stop res; backtrack = 0; ff_tokens = [] }
]

module _ (E : TokenEnv) (P : Parser) where
  pub record Constraint : Type 0 where
    pub parser : TokenParser E P
    pub last_res : StepResult
    pub started : Bool
    pub pending_stop : Bool

  unfoldable pub new : TokenParser E P → Option Constraint
  unfolding noop
  new parser =
      if parser.is_fresh
      then some (record { parser = parser; last_res = noop; started = false; pending_stop = false })
      else none

  -- A method of the token parser on the field, with its error passed on.
  abbrev pub on_tokens : {A : Type 0} → Method (TokenParser E P) A → Method Constraint A
  on_tokens f self = Prelude.◌>>=◌ (f self.parser) (λ r. some (record self { parser = r.0 }, r.1))

  -- The same, with the result kept as a value.
  abbrev pub attempt : {A : Type 0} → Method (TokenParser E P) A → Method Constraint (Result A)
  attempt f self = Prelude.◌>>=◌ (f self.parser) (λ r. some (record self { parser = r.0 }, ok r.1))

  abbrev pub save_result : StepResult → Method Constraint (Unit {0})
  save_result res = modify (λ s. record s { last_res = res })

  unfoldable pub start : Method Constraint (Unit {0})
  unfolding start_without_prompt
  start = do
    self ← get
    expect (Prelude.guard (not self.started))
    modify (λ s. record s { started = true })
    on_tokens (start_without_prompt E P)

  unfoldable pub process_prompt_constraint : List ℕ → Method Constraint (List ℕ)
  unfolding start_without_prompt process_prompt
  process_prompt_constraint prompt = do
    self ← get
    expect (Prelude.guard (not self.started))
    modify (λ s. record s { started = true })
    if E.tokenize_is_canonical
        then on_tokens (process_prompt E P prompt)
        else (do on_tokens (start_without_prompt E P); return prompt)

  unfoldable pub force_tokens : List ℕ → Method Constraint (Unit {0})
  unfolding consume_token
  force_tokens [] = return tt
  force_tokens (t ∷ tokens) = do _ ← on_tokens (consume_token E P t); force_tokens tokens

  abbrev pub is_no_extension_bias : StopReason → Bool
  is_no_extension_bias no_extension_bias = true
  is_no_extension_bias _ = false

  -- The end of `compute_mask_inner`: no token that goes on is a stop, not an error.
  abbrev pub save_mask : Result SimpleVob → Method Constraint (Unit {0})
  save_mask (ok mask) = save_result (sample mask)
  save_mask (err e) = do
    self ← get
    if is_no_extension_bias self.parser.stop_reason then save_result stop_result else fail e

  unfoldable pub compute_mask_inner : Method Constraint (Unit {0})
  unfolding start is_stop check_stop compute_mask
  compute_mask_inner = do
    before ← get
    (if before.started then return tt else start)
    self ← get
    ensure (not (is_stop self.last_res)) after_stop
    stop ← on_tokens (check_stop E P)
    if stop
        then (do modify (λ s. record s { pending_stop = true }); save_result stop_result)
        else (do mask ← attempt (compute_mask E P); save_mask mask)

  unfoldable pub validate_constraint : List ℕ → Method Constraint ℕ
  unfolding unconditional_splice validate_tokens_raw
  validate_constraint tokens = do
    self ← get
    elim (unconditional_splice self.last_res) [
      | some s ↦ do
        set ← expect (alloc_token_set E.tok_trie)
        save_result (sample set)
        on_tokens (validate_tokens_raw E P tokens)
      | none ↦ on_tokens (validate_tokens_raw E P tokens)
    ]

  -- The tokens that the sampled one becomes, and what is taken back with it.
  abbrev pub sampled_tokens : ℕ → ℕ → ℕ × List ℕ
  sampled_tokens t zero = (0, t ∷ [])
  sampled_tokens t (suc bt) = (bt, [])

  unfoldable pub commit_sampled : ℕ → Method Constraint CommitResult
  unfolding consume_token consume_ff_tokens check_stop splice from_step_result
  commit_sampled t = do
    bt ← on_tokens (consume_token E P t)
    let kept = sampled_tokens t bt
    self ← get
    forced ←
        (if self.parser.inference_caps.ff_tokens
          then on_tokens (consume_ff_tokens E P)
          else return [])
    stop ← on_tokens (check_stop E P)
    modify (λ s. record s { pending_stop = s.pending_stop || stop })
    save_result (splice (u32 kept.0) (kept.1 ++ forced))
    after ← get
    return (from_step_result after.last_res)

  abbrev pub commit_masked : Option SimpleVob → Option ℕ → Method Constraint CommitResult
  commit_masked none sampled_token = fail invalid_mask_result
  commit_masked (some mask) none = fail no_sampled_token
  commit_masked (some mask) (some t) = commit_sampled t

  unfoldable pub commit_token_inner : Option ℕ → Method Constraint CommitResult
  unfolding is_stop unconditional_splice from_step_result commit_sampled
  commit_token_inner sampled_token self =
      if is_stop self.last_res
      then some (self, ok (from_step_result self.last_res))
      else elim (unconditional_splice self.last_res) [
        | some s ↦
            if self.parser.inference_caps.ff_tokens
            then some (self, ok (from_step_result self.last_res))
            else none
        | none ↦ commit_masked self.last_res.sample_mask sampled_token self
      ]
