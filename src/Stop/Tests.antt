-- ===== src/Stop/Tests.antt =====
-- A stop expression over the automaton of `bb`, and the theorems about it.
use llguidance.Prelude.{
  ℕ, ◌≡◌, refl, Bool, true, false, ◌&&◌, ltb, map, none, some, List, [], ◌∷◌, ◌==◌, if◌then◌else◌,
}
use llguidance.Trie.{TokTrie, TokRxInfo}
use llguidance.Trie.Decode.{decode}
use llguidance.Stop.{Dfa, StringOps, to_text, StopController}
use llguidance.Stop.Pieces.{Delivers}
use llguidance.Stop.Laws.{flat, commit_all, commit_all-decode}

abbrev stop_info : TokRxInfo
stop_info = record {
  vocab_size = 3;
  tok_eos = 2;
  tok_bos = none;
  tok_pad = none;
  tok_unk = none;
  tok_end_of_turn = none;
}

-- The tokens "a", "ab" and "b".
abbrev stop_trie : TokTrie
stop_trie = record {
  info = stop_info;
  token_offsets =
      record { len = 1; off = 0 } ∷ record { len = 2; off = 1 } ∷ record { len = 1; off = 3 } ∷ [];
  token_data = b'a' ∷ b'a' ∷ b'b' ∷ b'b' ∷ [];
  nodes = [];
  max_token_len = 2;
  eos_tokens = 2 ∷ [];
  sorted_vocab = 0 ∷ 1 ∷ 2 ∷ [];
}

-- The state counts the bytes `b` at the end of what has been read.
abbrev two_b : Dfa
two_b = record {
  StateId = ℕ;
  transition = λ s b. if b == b'b' then if s == 0 then 1 else 2 else 0;
  is_dead = λ s. false;
  has_lowest_match = λ s. s == 2;
  lookahead_len_for_state = λ s. if s == 2 then some 2 else none;
  possible_lookahead_len = λ s. s;
}

abbrev watching : StopController two_b
watching = record {
  trie = stop_trie;
  is_stopped = false;
  stop_tokens = [];
  regex = some (record { state = 0; initial_state = 0 });
  pending_bytes = [];
}

-- Bytes up to 127 are a text by themselves; others become question marks.
abbrev ascii : List ℕ → Bool
ascii [] = true
ascii (b ∷ bytes) = ltb b 128 && ascii bytes

abbrev ascii_only : StringOps
ascii_only = record {
  from_utf8 = λ bytes. if ascii bytes then some bytes else none;
  from_utf8_lossy = λ bytes. map (λ b. if ltb b 128 then b else b'?') bytes;
}

commit_all-decode_example :
    (self1 : StopController two_b) × (pieces : List (List ℕ)) × (commit_all two_b ascii_only
        watching
        (0 ∷ 1 ∷ 2 ∷ [])
      ≡ some (self1, flat (map (to_text ascii_only) pieces)))
    × Delivers two_b watching (flat pieces) (b'a' ∷ b'a' ∷ b'b' ∷ b'b' ∷ []) self1
unfolding decode commit_all
commit_all-decode_example =
    commit_all-decode two_b ascii_only watching (0 ∷ 1 ∷ 2 ∷ []) (b'a' ∷ b'a' ∷ b'b' ∷ b'b' ∷ [])
      (λ bytes b q. refl, λ bytes b q. refl) refl refl
