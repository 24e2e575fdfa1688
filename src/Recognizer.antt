-- ===== src/Recognizer.antt =====
-- The trait `Recognizer` of toktrie/src/toktree.rs as an interface, and what its implementations
-- promise to the walk over the trie: the state is a stack of the bytes pushed so far.
pub mod Stack
pub mod Fixed
use llguidance.Prelude.{
  ℕ, suc, ◌+◌, ◌≤◌, ◌<◌, ◌≡◌, Bool, true, false, Option, none, some, List, [], ◌∷◌, length, drop,
}

-- A call that panics is `none`; `save_stats` and `get_error` leave the state of the stack alone.
pub record Recognizer : Type 1 where
  pub State : Type 0
  pub pop_bytes : ℕ → State → Option State
  pub try_push_byte : ℕ → State → Option (Bool × State)
  pub trie_started : State → Option State
  pub trie_finished : State → Option State

-- `R` keeps a stack of bytes, newest first, and lets a byte on top of it as `viable` says of the
-- stack that results. `Tracks s path` is that the state `s` has the bytes `path` on its stack; the
-- stack has room for `capacity` bytes.
pub record IsStack (R : Recognizer) (viable : List ℕ → Bool) (capacity : ℕ) : Type 1 where
  pub Tracks : R.State → List ℕ → Type 0
  pub pop :
      (s : R.State) (path : List ℕ) (n : ℕ)
      → Tracks s path
      → n ≤ length path
      → (t : R.State) × (R.pop_bytes n s ≡ some t) × Tracks t (drop n path)
  pub push_viable :
      (s : R.State) (path : List ℕ) (b : ℕ)
      → Tracks s path
      → length path < capacity
      → viable (b ∷ path) ≡ true
      → (t : R.State) × (R.try_push_byte b s ≡ some (true, t)) × Tracks t (b ∷ path)
  pub push_not_viable :
      (s : R.State) (path : List ℕ) (b : ℕ)
      → Tracks s path
      → length path < capacity
      → viable (b ∷ path) ≡ false
      → (t : R.State) × (R.try_push_byte b s ≡ some (false, t)) × Tracks t path
  pub started :
      (s : R.State) (path : List ℕ)
      → Tracks s path
      → (t : R.State) × (R.trie_started s ≡ some t) × Tracks t path
  pub finished :
      (s : R.State) (path : List ℕ) → Tracks s path → (t : R.State) × (R.trie_finished s ≡ some t)
