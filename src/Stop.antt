-- ===== src/Stop.antt =====
-- `StopController` of parser/src/stop_controller.rs: the text that leaves the program token by token,
-- until a stop token or a match of the stop expression. The automaton of the expression
-- (`RegexVec` over the crate derivre) is a parameter.
pub mod Utf8
pub mod Pieces
pub mod Laws
mod Tests
use llguidance.Prelude.{
  ℕ, zero, suc, ◌+◌, ◌-◌, Bool, true, false, Option, none, some, List, [], ◌∷◌, ◌++◌, length, take,
  drop, ◌==◌, if◌then◌else◌, ◌>>=◌, ◌>>◌,
}
use llguidance.Trie.{TokTrie, token, special_token_marker}
use llguidance.Trie.Decode.{bracketed, has_marker}
use Utf8.{valid_utf8_len}

-- What the controller calls of `RegexVec`; a state and a byte determine the next state.
pub record Dfa : Type 1 where
  pub StateId : Type 0
  pub transition : StateId → ℕ → StateId
  pub is_dead : StateId → Bool
  pub has_lowest_match : StateId → Bool
  pub lookahead_len_for_state : StateId → Option ℕ
  pub possible_lookahead_len : StateId → ℕ

-- `stop_tokens.contains(&tok_id)`
abbrev pub member : ℕ → List ℕ → Bool
member x [] = false
member x (y ∷ ys) = elim (y == x) [ true ↦ true | false ↦ member x ys ]

-- `unwrap_or(0)`
abbrev pub or_zero : Option ℕ → ℕ
or_zero none = 0
or_zero (some n) = n

-- `String::from_utf8`, with the bytes of the text, or `none` for an error, and `from_utf8_lossy`.
pub record StringOps : Type 0 where
  pub from_utf8 : List ℕ → Option (List ℕ)
  pub from_utf8_lossy : List ℕ → List ℕ

-- The `match` on `String::from_utf8(bytes)`.
abbrev pub to_text : StringOps → List ℕ → List ℕ
to_text U bytes = elim (U.from_utf8 bytes) [ some s ↦ s | none ↦ U.from_utf8_lossy bytes ]

module _ (D : Dfa) where
  pub record StopRegex : Type 0 where
    pub state : D.StateId
    pub initial_state : D.StateId

  pub record StopController : Type 0 where
    pub trie : TokTrie
    pub is_stopped : Bool
    pub stop_tokens : List ℕ
    pub regex : Option StopRegex
    pub pending_bytes : List ℕ

  -- `rx.state = rx.initial_state`, where there is an expression.
  abbrev pub restart : Option StopRegex → Option StopRegex
  restart none = none
  restart (some rx) = some (record rx { state = rx.initial_state })

  -- The loop over the bytes of the token. Returns the buffer, the state and whether it matched.
  -- `none` is the failed assertion on a dead state.
  unfoldable pub feed : D.StateId → List ℕ → List ℕ → Option (List ℕ × D.StateId × Bool)
  feed state buf [] = some (buf, state, false)
  feed state buf (b ∷ bytes) = elim (D.is_dead (D.transition state b)) [
    | true ↦ none
    | false ↦ elim (D.has_lowest_match (D.transition state b)) [
      | true ↦ some (buf ++ b ∷ [], D.transition state b, true)
      | false ↦ feed (D.transition state b) (buf ++ b ∷ []) bytes
    ]
  ]

  -- A match: the text of the lookahead is cut off.
  unfoldable pub stop_at : StopController → StopRegex → List ℕ → D.StateId → StopController × List ℕ
  stop_at self rx buf state = (
    record self {
      is_stopped = true;
      regex = some (record rx { state = state });
      pending_bytes = [];
    },
    take (length buf - or_zero (D.lookahead_len_for_state state)) buf,
  )

  -- No match: what may be the start of one, or of a character, waits.
  unfoldable pub hold_back :
      StopController → Option StopRegex → ℕ → List ℕ → StopController × List ℕ
  unfolding valid_utf8_len
  hold_back self regex chop buf =
      let valid_len = valid_utf8_len (take (length buf - chop) buf) in
      (record self { regex = regex; pending_bytes = drop valid_len buf }, take valid_len buf)

  -- The branches on the bytes of a token that does not stop.
  unfoldable pub commit_bytes :
      StopController → ℕ → List ℕ → List ℕ → Option (StopController × List ℕ)
  unfolding feed stop_at hold_back bracketed
  commit_bytes self tok_id buf [] = some (
    record self { regex = restart self.regex; pending_bytes = [] },
    buf ++ (b'<' ∷ bracketed tok_id ++ b'>' ∷ []),
  )
  commit_bytes self tok_id buf (b ∷ bytes) = elim (b == special_token_marker) [
    | true ↦ some (record self { regex = restart self.regex; pending_bytes = [] }, buf ++ bytes)
    | false ↦ elim self.regex [
      | none ↦ some (hold_back self none 0 (buf ++ b ∷ bytes))
      | some rx ↦ do
        (buf1, state, matched) ← feed rx.state buf (b ∷ bytes)
        some (elim matched [
          | true ↦ stop_at self rx buf1 state
          | false ↦
              hold_back self (some (record rx { state = state })) (D.possible_lookahead_len state)
                buf1
        ])
    ]
  ]

  unfoldable pub commit_token_u8 : StopController → ℕ → Option (StopController × List ℕ)
  unfolding commit_bytes token
  commit_token_u8 self tok_id = elim (member tok_id self.stop_tokens) [
    | true ↦ some (record self { is_stopped = true; pending_bytes = [] }, self.pending_bytes)
    | false ↦ token self.trie tok_id >>= λ bytes. commit_bytes self tok_id self.pending_bytes bytes
  ]

  -- The text that it returns is given by its bytes.
  unfoldable pub commit_token : StringOps → StopController → ℕ → Option (StopController × List ℕ)
  unfolding commit_token_u8
  commit_token U self tok_id = elim self.is_stopped [
    | true ↦ some (self, [])
    | false ↦ do (self1, bytes) ← commit_token_u8 self tok_id; some (self1, to_text U bytes)
  ]
