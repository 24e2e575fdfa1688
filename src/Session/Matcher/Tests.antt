-- ===== src/Session/Matcher/Tests.antt =====
-- The theorems about the matcher and the constraint, at a session over three tokens.
use llguidance.Prelude.{◌+◌, ◌≤◌, ◌≡◌, refl, true, false, none, some, [], ◌∷◌, arith, checked_sub}
use llguidance.Trie.{token, slice, vocab_size}
use llguidance.Trie.Decode.{decode_raw, raw_piece, token_len}
use llguidance.Session.{ok, err, out_of_range}
use llguidance.Session.TokenParser.{TokenParser, rollback}
use llguidance.Session.Consume.{take_prefix, backtrack_loop, backtrack, apply_token, consume_token}
use llguidance.Session.Consume.{check_stop, is_accepting}
use llguidance.Session.TokenParser.{validate_token, validate_tokens_raw, validate_some, check_range}
use llguidance.Session.Force.{
  consume_ff_tokens, consume_forced, compute_ff_tokens, ff_tokens, compute_ff_bytes_to,
}
use llguidance.Session.Matcher.{normal, error, is_error, with_inner, try_each, try_consume_tokens}
use llguidance.Session.Matcher.Bounds.{try_consume_tokens-bounds}
use llguidance.Session.Matcher.Laws.{is_err, with_inner-is_error}
use llguidance.Session.Constraint.{
  Constraint, CommitResult, stop_result, splice, is_stop, unconditional_splice, from_step_result,
  commit_sampled, save_tokens,
}
use llguidance.Session.Constraint.Laws.{commit_sampled-save_tokens}
use llguidance.Session.Matcher.Appends.{meets}
use llguidance.Session.Sample.{env, keeping, backing, after_a, nothing_left, fresh, consumed}

-- A matcher that is given two tokens and one out of range takes the two.
abbrev tried : TokenParser env keeping
tried = record consumed { is_accepting_cache = some true }

tried_three :
    try_consume_tokens env keeping (0 ∷ 1 ∷ 9 ∷ []) (normal fresh)
    ≡ (error (out_of_range 9), err (out_of_range 9))
unfolding try_consume_tokens with_inner try_each validate_token validate_tokens_raw validate_some
    check_range consume_token apply_token take_prefix check_stop is_accepting decode_raw raw_piece
    token slice vocab_size
tried_three = refl

tried_two : try_consume_tokens env keeping (0 ∷ 1 ∷ []) (normal fresh) ≡ (normal tried, ok 2)
unfolding try_consume_tokens with_inner try_each validate_token validate_tokens_raw validate_some
    check_range consume_token apply_token take_prefix check_stop is_accepting decode_raw raw_piece
    token slice vocab_size
tried_two = refl

try_consume_tokens-bounds_example : (2 ≤ 2) × (tried.max_tokens_total + 2 ≡ fresh.max_tokens_total)
try_consume_tokens-bounds_example =
    try_consume_tokens-bounds env keeping (0 ∷ 1 ∷ []) 2 fresh tried tried_two

-- A sampled token that takes the one before it back.
abbrev before_ab : Constraint env backing
before_ab = record {
  parser = after_a;
  last_res = stop_result;
  started = true;
  pending_stop = false;
}

abbrev committed : CommitResult
committed = record { stop = false; backtrack = 1; ff_tokens = [] }

abbrev after_ab : Constraint env backing
after_ab = record {
  parser = record nothing_left { is_accepting_cache = some true };
  last_res = record {
    sample_mask = none;
    splices = record { when_sampled = []; backtrack = 1; ff_tokens = [] } ∷ [];
  };
  started = true;
  pending_stop = false;
}

committed_ab : commit_sampled env backing 1 before_ab ≡ some (after_ab, ok committed)
unfolding commit_sampled consume_token apply_token backtrack backtrack_loop take_prefix check_stop
    is_accepting consume_ff_tokens consume_forced compute_ff_tokens ff_tokens compute_ff_bytes_to
    decode_raw raw_piece token_len token slice vocab_size checked_sub splice from_step_result
    is_stop unconditional_splice
committed_ab = refl

none_met : meets [] (2 ∷ []) ≡ false
unfolding meets
none_met = refl

commit_sampled-save_tokens_example :
    save_tokens (record { when_sampled = []; backtrack = 1; ff_tokens = [] }) (0 ∷ []) ≡ some []
commit_sampled-save_tokens_example =
    commit_sampled-save_tokens env backing 1 before_ab after_ab committed refl refl none_met
      (omega arith) committed_ab

with_inner-is_error_example :
    is_error env keeping (with_inner env keeping (rollback env keeping 3) (normal consumed)).0
    ≡ is_err (with_inner env keeping (rollback env keeping 3) (normal consumed)).1
with_inner-is_error_example =
    with_inner-is_error env keeping (rollback env keeping 3) (normal consumed)
