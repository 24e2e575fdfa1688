-- ===== src/Session/Tests.antt =====
-- The theorems about the token parser, at a session over three tokens.
use llguidance.Prelude.{◌+◌, ◌≡◌, refl, true, false, some, [], ◌∷◌, arith, checked_sub}
use llguidance.Trie.{token, slice, vocab_size}
use llguidance.Trie.Decode.{decode_raw, raw_piece, token_len}
use llguidance.Session.{internal_error, no_extension, ok, Parser}
use llguidance.Session.TokenParser.{TokenParser, rollback}
use llguidance.Session.TokenParser.Errors.{
  serve_all, serve_all-error, consume, validate, take_back, mask, start_over,
}
use llguidance.Session.Consume.{
  take_prefix, backtrack_loop, backtrack, apply_token, consume_token, is_accepting, check_stop,
}
use llguidance.Session.Consume.Laws.{advanced, consume_token-advances}
use llguidance.Session.Matcher.{consume_each}
use llguidance.Session.Matcher.Laws.{consume, mask, take_back, start_over}
use llguidance.Session.Matcher.Appends.{NeverBacktracks, meets}
use llguidance.Session.Matcher.Undo.{consume_each-rollback}
use llguidance.Session.Sample.{
  env, keeping, backing, started, after_a, nothing_left, fresh, consumed,
}

consumed_ab : consume_token env backing 1 after_a ≡ some (nothing_left, ok 2)
unfolding consume_token apply_token backtrack backtrack_loop take_prefix decode_raw raw_piece
    token_len token slice vocab_size checked_sub
consumed_ab = refl

consume_token-advances_example :
    (nothing_left.llm_tokens ≡ advanced env backing after_a.llm_tokens 1 2)
    × (nothing_left.max_tokens_total + 1 ≡ after_a.max_tokens_total)
    × (nothing_left.inference_caps ≡ after_a.inference_caps)
    × (nothing_left.eos_tokens ≡ after_a.eos_tokens)
consume_token-advances_example =
    consume_token-advances env backing 1 2 after_a nothing_left refl refl consumed_ab

consumed_both : consume_each env keeping (0 ∷ 1 ∷ []) fresh ≡ some (consumed, ok tt)
unfolding consume_each consume_token apply_token take_prefix decode_raw raw_piece token slice
    vocab_size
consumed_both = refl

keeping-NeverBacktracks : NeverBacktracks env keeping
keeping-NeverBacktracks bytes t n p q h = ground (arith, h)

no_eos : meets (0 ∷ 1 ∷ []) (2 ∷ []) ≡ false
unfolding meets
no_eos = refl

consume_each-rollback_example :
    rollback env keeping 2 consumed ≡ some (record fresh { had_rollback = true }, ok tt)
consume_each-rollback_example =
    consume_each-rollback env keeping (0 ∷ 1 ∷ []) fresh consumed [] keeping-NeverBacktracks refl
      refl (omega arith) (omega arith) (omega arith) no_eos consumed_both refl

abbrev broken : TokenParser env keeping
broken = record consumed { stop_reason = internal_error }

serve_all-error_example :
    serve_all env keeping (consume 0 ∷ mask ∷ take_back 1 ∷ validate 1 ∷ start_over ∷ []) broken
    ≡ some broken
serve_all-error_example =
    serve_all-error env keeping (consume 0 ∷ mask ∷ take_back 1 ∷ validate 1 ∷ start_over ∷ [])
      broken refl

-- A parser that accepts and cannot go on.
abbrev finished : Parser
finished = record keeping { can_advance = λ p. false }

abbrev broken_end : TokenParser env finished
broken_end = record (started finished (b'a' ∷ [])) {
  stop_reason = internal_error;
  llm_tokens = 0 ∷ [];
  llm_bytes = b'a' ∷ [];
}

-- `check_stop` is not refused on a session that stopped for an error: where the parser is done, it
-- replaces the reason.
check_stop_replaces :
    check_stop env finished broken_end
    ≡ some
        (record broken_end { stop_reason = no_extension; is_accepting_cache = some true }, ok true)
unfolding check_stop is_accepting
check_stop_replaces = refl
