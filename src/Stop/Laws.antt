-- ===== src/Stop/Laws.antt =====
-- The pieces of text that a `StopController` returns are a prefix of the decoded tokens, and nothing
-- but the bytes that wait is missing from them until it stops.
use llguidance.Prelude.{
  ℕ, ◌≡◌, inl, inr, refl, sym, ◌∙◌, ap, Bool, true, false, Option, some, List, [], ◌∷◌, ◌++◌, map,
  ◌>>=◌, Bool-cases, Option-cases,
}
use mathlib.Core.List.{append_assoc, append-nil}
use mathlib.Core.Bool.{true≢false}
use mathlib.Core.Option.{none-ne-some, some-injective}
use llguidance.Trie.{TokTrie, token}
use llguidance.Trie.Decode.{decode_piece, decode_ext, decode}
use llguidance.Stop.{Dfa, StringOps, to_text, StopController, commit_token_u8, commit_token}
use llguidance.Stop.Pieces.{AreLive, Delivers, commit_token_u8-Commits}

abbrev pub flat : List (List ℕ) → List ℕ
flat [] = []
flat (xs ∷ xss) = xs ++ flat xss

module _ (D : Dfa) where
  decode-cons :
      (trie : TokTrie) (tok : ℕ) (tokens text : List ℕ)
      → decode trie (tok ∷ tokens) ≡ some text
      → (t : List ℕ) × (rest : List ℕ) × (token trie tok ≡ some t)
        × (decode trie tokens ≡ some rest)
        × (decode_piece true tok t ++ rest ≡ text)
  unfolding decode decode_ext
  decode-cons trie tok tokens text h = elim (Option-cases (token trie tok)) [
    | inl e ↦ absurd (none-ne-some text (rw e at h))
    | inr (t, e) ↦ elim (Option-cases (decode_ext trie tokens true)) [
      | inl f ↦ absurd (none-ne-some text (rw (e, f) at h))
      | inr (rest, f) ↦ (t, rest, e, f, some-injective _ _ (rw (e, f) at h))
    ]
  ]

  after_stop :
      (self self1 : StopController D) (out text1 rest : List ℕ)
      → self1.is_stopped ≡ true
      → Delivers D self out (self.pending_bytes ++ text1) self1
      → Delivers D self (out ++ []) (self.pending_bytes ++ (text1 ++ rest)) self1
  after_stop self self1 out text1 rest h d = record {
    left_out = d.left_out ++ rest;
    whole =
        ap (λ o. o ++ (d.left_out ++ rest)) (append-nil out)
        ∙ sym (append_assoc out d.left_out rest)
        ∙ ap (λ o. o ++ rest) d.whole
        ∙ append_assoc self.pending_bytes text1 rest;
    waits = λ g. absurd (true≢false (sym h ∙ g));
    same_trie = d.same_trie;
    live = d.live;
  }

  then_more :
      (self self1 self2 : StopController D) (out out2 text1 rest : List ℕ)
      → self1.is_stopped ≡ false
      → Delivers D self out (self.pending_bytes ++ text1) self1
      → Delivers D self1 out2 (self1.pending_bytes ++ rest) self2
      → Delivers D self (out ++ out2) (self.pending_bytes ++ (text1 ++ rest)) self2
  then_more self self1 self2 out out2 text1 rest h d d2 = record {
    left_out = d2.left_out;
    whole =
        append_assoc out out2 d2.left_out
        ∙ ap (λ o. out ++ o) d2.whole
        ∙ ap (λ o. out ++ (o ++ rest)) (sym (d.waits h))
        ∙ sym (append_assoc out d.left_out rest)
        ∙ ap (λ o. o ++ rest) d.whole
        ∙ append_assoc self.pending_bytes text1 rest;
    waits = d2.waits;
    same_trie = d2.same_trie ∙ d.same_trie;
    live = d2.live;
  }

  module _ (U : StringOps) where
    -- The tokens are committed one after another, and the texts are joined.
    unfoldable pub commit_all : StopController D → List ℕ → Option (StopController D × List ℕ)
    unfolding commit_token
    commit_all self [] = some (self, [])
    commit_all self (tok ∷ tokens) = do
      (self1, out) ← commit_token D U self tok
      (self2, rest) ← commit_all self1 tokens
      some (self2, out ++ rest)

    commit_token-running :
        (self self1 : StopController D) (tok : ℕ) (bytes : List ℕ)
        → self.is_stopped ≡ false
        → commit_token_u8 D self tok ≡ some (self1, bytes)
        → commit_token D U self tok ≡ some (self1, to_text U bytes)
    unfolding commit_token
    commit_token-running self self1 tok bytes h e = rw (h, commit_token) (rw e refl)

    commit_token-stopped :
        (self : StopController D) (tok : ℕ)
        → self.is_stopped ≡ true
        → commit_token D U self tok ≡ some (self, [])
    unfolding commit_token
    commit_token-stopped self tok h =
        ap
          (λ (b : Bool). elim b [
            | true ↦ some (self, [])
            | false ↦ commit_token_u8 D self tok >>= λ (r : StopController D × List ℕ).
                some (r.0, to_text U r.1)
          ])
          h

    stopped-silent :
        (self : StopController D) (tokens : List ℕ)
        → self.is_stopped ≡ true
        → commit_all self tokens ≡ some (self, [])
    unfolding commit_all
    stopped-silent self [] h = refl
    stopped-silent self (tok ∷ tokens) h =
        rw (commit_token-stopped self tok h) (rw (stopped-silent self tokens h) refl)

    pub commit_all-decode :
        (self : StopController D) (tokens text : List ℕ)
        → AreLive D self.regex
        → self.is_stopped ≡ false
        → decode self.trie tokens ≡ some text
        → (self1 : StopController D) × (pieces : List (List ℕ)) × (commit_all self tokens
            ≡ some (self1, flat (map (to_text U) pieces)))
          × Delivers D self (flat pieces) (self.pending_bytes ++ text) self1
    unfolding commit_all decode
    commit_all-decode self [] text live runs h = (
      self,
      [],
      refl,
      record {
        left_out = self.pending_bytes;
        whole =
            sym (append-nil self.pending_bytes)
            ∙ ap (λ l. self.pending_bytes ++ l) (some-injective _ _ h);
        waits = λ g. refl;
        same_trie = refl;
        live = λ g. live;
      },
    )
    commit_all-decode self (tok ∷ tokens) text live runs h =
        let (t, rest, bytes, later, joined) = decode-cons self.trie tok tokens text h in
        let (self1, out, e, d) = commit_token_u8-Commits D self tok t live bytes in
        let first = commit_token-running self self1 tok out runs e in
        elim (Bool-cases self1.is_stopped) [
          | inl g ↦ (
            self1,
            out ∷ [],
            rw first (rw (stopped-silent self1 tokens g) refl),
            rw (← joined) (after_stop self self1 out (decode_piece true tok t) rest g d),
          )
          | inr g ↦
              let same : decode self1.trie tokens ≡ some rest =
                ap (λ r. decode r tokens) d.same_trie ∙ later in
              let (self2, pieces, e2, d2) = commit_all-decode self1 tokens rest (d.live g) g same in
              (
                self2,
                out ∷ pieces,
                rw first (rw e2 refl),
                rw (← joined) (
                    then_more self self1 self2 out (flat pieces) (decode_piece true tok t) rest g d
                      d2),
              )
        ]
