-- ===== src/Session/Sample.antt =====
-- A session over a trie of three tokens, for the tests.
use llguidance.Prelude.{
  ℕ, ◌+◌, ◌-◌, true, false, none, some, List, [], ◌∷◌, ◌++◌, length, take, ◌==◌, if◌then◌else◌,
}
use llguidance.Recognizer.{Recognizer}
use llguidance.Trie.{TokTrie}
use llguidance.Session.{ok, TokenEnv, InferenceCapabilities, Parser}
use llguidance.Session.TokenParser.{TokenParser, initial}

-- The tokens "a", "ab" and the end of sequence.
abbrev pub trie : TokTrie
trie = record {
  info = record {
    vocab_size = 3;
    tok_eos = 2;
    tok_bos = none;
    tok_pad = none;
    tok_unk = none;
    tok_end_of_turn = none;
  };
  token_offsets =
      record { len = 1; off = 0 } ∷ record { len = 2; off = 1 } ∷ record { len = 1; off = 3 } ∷ [];
  token_data = b'a' ∷ b'a' ∷ b'b' ∷ b'$' ∷ [];
  nodes = [];
  max_token_len = 2;
  eos_tokens = 2 ∷ [];
  sorted_vocab = 0 ∷ 1 ∷ 2 ∷ [];
}

abbrev pub env : TokenEnv
env = record { tok_trie = trie; tokenize_bytes = λ bytes. []; tokenize_is_canonical = false }

abbrev pub any_bytes : Recognizer
any_bytes = record {
  State = Unit {0};
  pop_bytes = λ n s. some s;
  try_push_byte = λ b s. some (true, s);
  trie_started = λ s. some s;
  trie_finished = λ s. some s;
}

-- A parser that takes every token and asks for the bytes back that `back` says.
abbrev pub bytes_parser : (ℕ → ℕ) → Parser
bytes_parser back = record {
  State = List ℕ;
  recognizer = any_bytes;
  enter = λ p. tt;
  leave = λ p r. p;
  no_forcing = false;
  get_error = λ p. none;
  is_accepting = λ p. some (p, true);
  can_advance = λ p. true;
  currently_forced_bytes = λ p. [];
  get_bytes = λ p. p;
  hidden_start = λ p. 0;
  force_bytes = λ p. some p;
  apply_forced = λ n p. some p;
  apply_token =
      λ bytes t p. some (take (length p + length bytes - back t) (p ++ bytes), ok (back t));
  additional_backtrack = λ n p. some (take (length p - n) p);
  rollback = λ n p. some (take (length p - n) p, ok tt);
  validate_tokens = λ ts p. some (p, length ts);
  scan_eos = λ p. some (p, false);
  compute_bias = λ bytes p. some (p, record { words = 7 ∷ []; size = 3 });
}

-- All tokens are kept.
abbrev pub keeping : Parser
keeping = bytes_parser (λ t. 0)

-- The token "ab" takes its bytes back, with one more.
abbrev pub backing : Parser
backing = bytes_parser (λ t. if t == 1 then 3 else 0)

abbrev pub caps : InferenceCapabilities
caps = record { ff_tokens = true; conditional_ff_tokens = false; backtrack = true; fork = false }

abbrev pub started : (P : Parser) → P.State → TokenParser env P
started P p = record (initial env P p caps (2 ∷ []) 5) { is_fresh = false }

abbrev pub after_a : TokenParser env backing
after_a = record (started backing (b'a' ∷ [])) { llm_tokens = 0 ∷ []; llm_bytes = b'a' ∷ [] }

-- The token "ab" is taken back at once, with the token before it.
abbrev pub nothing_left : TokenParser env backing
nothing_left = record (started backing []) { had_backtrack = true; max_tokens_total = 4 }

-- "a" and "ab" are consumed and taken back.
abbrev pub fresh : TokenParser env keeping
fresh = started keeping []

abbrev pub consumed : TokenParser env keeping
consumed = record (started keeping (b'a' ∷ b'a' ∷ b'b' ∷ [])) {
  max_tokens_total = 3;
  llm_tokens = 0 ∷ 1 ∷ [];
  llm_bytes = b'a' ∷ b'a' ∷ b'b' ∷ [];
}
