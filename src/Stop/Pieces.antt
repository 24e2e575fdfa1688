-- ===== src/Stop/Pieces.antt =====
-- What `commit_token_u8` of parser/src/stop_controller.rs returns for one token.
use llguidance.Prelude.{
  ℕ, zero, suc, ◌-◌, ◌≡◌, inl, inr, refl, sym, ◌∙◌, ap, Bool, true, false, not, ◌&&◌, arith, Option,
  none, some, List, [], ◌∷◌, ◌++◌, length, take, drop, ◌==◌, ◌>>=◌, Bool-cases,
}
use mathlib.Core.List.{append_assoc, append-nil}
use mathlib.Core.Bool.{true≢false}
use llguidance.Trie.{token, special_token_marker}
use llguidance.Trie.Decode.{bracketed, decode_piece}
use llguidance.Stop.{
  Dfa, StopRegex, StopController, restart, feed, stop_at, hold_back, commit_bytes, commit_token_u8,
  member, or_zero,
}
use llguidance.Stop.Utf8.{valid_utf8_len}

pub take-drop {ℓ} : {A : Type ℓ} (n : ℕ) (xs : List A) → take n xs ++ drop n xs ≡ xs
take-drop zero xs = refl
take-drop (suc n) [] = refl
take-drop (suc n) (x ∷ xs) = ap (λ l. x ∷ l) (take-drop n xs)

module _ (D : Dfa) where
  -- The state after some bytes.
  abbrev pub run : D.StateId → List ℕ → D.StateId
  run s [] = s
  run s (b ∷ bytes) = run (D.transition s b) bytes

  -- No state on the way matches.
  abbrev pub is_quiet : D.StateId → List ℕ → Bool
  is_quiet s [] = true
  is_quiet s (b ∷ bytes) =
      not (D.has_lowest_match (D.transition s b)) && is_quiet (D.transition s b) bytes

  -- Up to the first match no bytes lead from the state to a dead one, as from the initial state of an
  -- expression that starts with `(?s:.*)`.
  abbrev pub IsLive : D.StateId → Type 0
  IsLive s =
      (bytes : List ℕ) (b : ℕ)
      → is_quiet s bytes ≡ true
      → D.is_dead (D.transition (run s bytes) b) ≡ false

  abbrev pub AreLive : Option (StopRegex D) → Type 0
  AreLive none = Unit
  AreLive (some rx) = IsLive rx.state × IsLive rx.initial_state

  -- What the bytes `out` are of `all`: what is left out waits, unless the controller has stopped.
  pub record Delivers (self : StopController D) (out all : List ℕ) (self1 : StopController D)
      : Type 0 where
    pub left_out : List ℕ
    pub whole : out ++ left_out ≡ all
    pub waits : self1.is_stopped ≡ false → left_out ≡ self1.pending_bytes
    pub same_trie : self1.trie ≡ self.trie
    pub live : self1.is_stopped ≡ false → AreLive self1.regex

  restart-AreLive : (regex : Option (StopRegex D)) → AreLive regex → AreLive (restart D regex)
  restart-AreLive none h = tt
  restart-AreLive (some rx) h = (h.1, h.1)

  pub feed-appends :
      (state : D.StateId) (buf bytes : List ℕ)
      → IsLive state
      → (buf1 : List ℕ) × (state1 : D.StateId) × (matched : Bool) × (left : List ℕ) × (feed D state
            buf bytes
          ≡ some (buf1, state1, matched))
        × (buf1 ++ left ≡ buf ++ bytes)
        × (matched ≡ false → left ≡ [])
        × (matched ≡ false → IsLive state1)
  unfolding feed
  feed-appends state buf [] live = (buf, state, false, [], refl, refl, λ h. refl, λ h. live)
  feed-appends state buf (b ∷ bytes) live =
      rw (live [] b refl, feed)
        (elim (Bool-cases (D.has_lowest_match (D.transition state b))) [
          | inl e ↦ rw e (
            buf ++ b ∷ [],
            D.transition state b,
            true,
            bytes,
            refl,
            append_assoc buf (b ∷ []) bytes,
            λ h. absurd (true≢false h),
            λ h. absurd (true≢false h),
          )
          | inr e ↦ rw e (
              let (buf1, state1, matched, left, runs, whole, all_fed, goes_on) =
                feed-appends (D.transition state b) (buf ++ b ∷ []) bytes
                  (λ bs c q. live (b ∷ bs) c (ground (arith, e, q))) in
              (
                buf1,
                state1,
                matched,
                left,
                runs,
                whole ∙ append_assoc buf (b ∷ []) bytes,
                all_fed,
                goes_on,
              ))
        ])

  -- What `commit_token_u8` does with a token whose bytes are `t`.
  abbrev pub Commits : StopController D → ℕ → List ℕ → Option (StopController D × List ℕ) → Type 0
  Commits self tok text result =
      (self1 : StopController D) × (out : List ℕ) × (result ≡ some (self1, out))
      × Delivers self out (self.pending_bytes ++ text) self1

  hold_back-Delivers :
      (self : StopController D) (regex : Option (StopRegex D)) (chop : ℕ) (buf : List ℕ)
      → AreLive regex
      → Delivers self (hold_back D self regex chop buf).1 buf (hold_back D self regex chop buf).0
  unfolding hold_back
  hold_back-Delivers self regex chop buf live =
      let n = valid_utf8_len (take (length buf - chop) buf) in
      record {
        left_out = drop n buf;
        whole = take-drop n buf;
        waits = λ h. refl;
        same_trie = refl;
        live = λ h. live;
      }

  whole_out :
      (self self1 : StopController D) (text : List ℕ)
      → self1.trie ≡ self.trie
      → self1.pending_bytes ≡ []
      → AreLive self1.regex
      → Delivers self (self.pending_bytes ++ text) (self.pending_bytes ++ text) self1
  whole_out self self1 text same none_wait live = record {
    left_out = [];
    whole = append-nil (self.pending_bytes ++ text);
    waits = λ h. sym none_wait;
    same_trie = same;
    live = λ h. live;
  }

  stop_at-Delivers :
      (self : StopController D) (rx : StopRegex D) (buf left all : List ℕ) (state : D.StateId)
      → buf ++ left ≡ all
      → Delivers self (stop_at D self rx buf state).1 all (stop_at D self rx buf state).0
  unfolding stop_at
  stop_at-Delivers self rx buf left all state e =
      let n = length buf - or_zero (D.lookahead_len_for_state state) in
      record {
        left_out = drop n buf ++ left;
        whole =
            sym (append_assoc (take n buf) (drop n buf) left)
            ∙ ap (λ l. l ++ left) (take-drop n buf)
            ∙ e;
        waits = λ h. absurd (true≢false h);
        same_trie = refl;
        live = λ h. absurd (true≢false h);
      }

  commit_bytes-Commits :
      (self : StopController D) (tok : ℕ) (t : List ℕ)
      → AreLive self.regex
      → Commits self tok (decode_piece true tok t) (commit_bytes D self tok self.pending_bytes t)
  unfolding commit_bytes decode_piece
  commit_bytes-Commits self tok [] live = (
    _,
    _,
    refl,
    whole_out self _ (b'<' ∷ bracketed tok ++ b'>' ∷ []) refl refl
        (restart-AreLive self.regex live),
  )
  commit_bytes-Commits self tok (b ∷ t) live = elim (Bool-cases (b == special_token_marker)) [
    | inl e ↦
        rw (e, commit_bytes)
          (_, _, refl, whole_out self _ t refl refl (restart-AreLive self.regex live))
    | inr e ↦ rw (e, commit_bytes) (plain self.regex live)
  ]
    where
      plain :
          (regex : Option (StopRegex D))
          → AreLive regex
          → Commits self tok (b ∷ t) (elim regex [
            | none ↦ some (hold_back D self none 0 (self.pending_bytes ++ b ∷ t))
            | some rx ↦ feed D rx.state self.pending_bytes (b ∷ t) >>= λ fed. some (elim fed.2 [
              | true ↦ stop_at D self rx fed.0 fed.1
              | false ↦
                  hold_back D self
                    (some (record rx { state = fed.1 }))
                    (D.possible_lookahead_len fed.1)
                    fed.0
            ])
          ])
      plain none live =
          (_, _, refl, hold_back-Delivers self none 0 (self.pending_bytes ++ b ∷ t) tt)
      plain (some rx) live =
          let (buf1, state, matched, left, runs, whole, all_fed, goes_on) =
            feed-appends rx.state self.pending_bytes (b ∷ t) live.0 in
          rw runs (ends buf1 state matched left whole all_fed goes_on)
        where
          ends :
              (buf1 : List ℕ) (state : D.StateId) (matched : Bool) (left : List ℕ)
              → buf1 ++ left ≡ self.pending_bytes ++ b ∷ t
              → (matched ≡ false → left ≡ [])
              → (matched ≡ false → IsLive state)
              → Commits self tok (b ∷ t) (
                  some (elim matched [
                    | true ↦ stop_at D self rx buf1 state
                    | false ↦
                        hold_back D self
                          (some (record rx { state = state }))
                          (D.possible_lookahead_len state)
                          buf1
                  ]))
          ends buf1 state true left e all_fed goes_on =
              (_, _, refl, stop_at-Delivers self rx buf1 left _ state e)
          ends buf1 state false left e all_fed goes_on =
              let same : buf1 ≡ self.pending_bytes ++ b ∷ t =
                sym (append-nil buf1) ∙ ap (λ l. buf1 ++ l) (sym (all_fed refl)) ∙ e in
              (
                _,
                _,
                refl,
                rw (← same) (
                    hold_back-Delivers self _ (D.possible_lookahead_len state) buf1
                      (goes_on refl, live.1)),
              )

  pub commit_token_u8-Commits :
      (self : StopController D) (tok : ℕ) (t : List ℕ)
      → AreLive self.regex
      → token self.trie tok ≡ some t
      → Commits self tok (decode_piece true tok t) (commit_token_u8 D self tok)
  unfolding commit_token_u8
  commit_token_u8-Commits self tok t live bytes = elim (Bool-cases (member tok self.stop_tokens)) [
    | inl e ↦
        rw (e, commit_token_u8)
          (
            _,
            self.pending_bytes,
            refl,
            record {
              left_out = decode_piece true tok t;
              whole = refl;
              waits = λ h. absurd (true≢false h);
              same_trie = refl;
              live = λ h. absurd (true≢false h);
            },
          )
    | inr e ↦ rw (e, commit_token_u8) (rw bytes (commit_bytes-Commits self tok t live))
  ]
