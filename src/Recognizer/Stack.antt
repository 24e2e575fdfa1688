-- ===== src/Recognizer/Stack.antt =====
-- `FunctionalRecognizer` and `StackRecognizer` of toktrie/src/recognizer.rs.
use mathlib.Core.Bool.{false≢true}
use llguidance.Prelude.{
  ℕ, zero, suc, ◌+◌, ◌-◌, ◌≤◌, ◌<◌, ◌≡◌, refl, ap, sym, ◌∙◌, Bool, true, false, Option, none, some,
  List, [], ◌∷◌, length, get_elem?, set, drop, replicate, arith, ltb, ◌>>=◌, ◌>>◌, guard,
  checked_sub, checked_sub-le, lt→ltb, length-set, length-replicate, get_elem?-set_self,
  get_elem?-set_ne, get_elem?-eq-get_or, get_or, length-drop,
}
use llguidance.Recognizer.{Recognizer, IsStack}

-- The trait: a pure transition function over a state type.
pub record FunctionalRecognizer : Type 1 where
  pub S : Type 0
  pub initial : S
  pub try_append : S → ℕ → Option S

abbrev pub stack_capacity : ℕ
stack_capacity = 300

drop-drop : (n m : ℕ) (path : List ℕ) → drop m (drop n path) ≡ drop (n + m) path
drop-drop zero m path = let e : 0 + m ≡ m = omega arith in rw e refl
drop-drop (suc n) zero [] = let e : suc n + 0 ≡ suc n = omega arith in rw e refl
drop-drop (suc n) (suc m) [] = let e : suc n + suc m ≡ suc (n + suc m) = omega arith in rw e refl
drop-drop (suc n) m (b ∷ path) =
    let e : suc n + m ≡ suc (n + m) = omega arith in rw e (drop-drop n m path)

module _ (rec : FunctionalRecognizer) where
  pub record StackRecognizer : Type 0 where
    pub stack : List rec.S
    pub stack_ptr : ℕ

  unfoldable pub from : StackRecognizer
  from = record { stack = replicate stack_capacity rec.initial; stack_ptr = 0 }

  -- `self.stack[i] = x`
  unfoldable pub store : List rec.S → ℕ → rec.S → Option (List rec.S)
  store stack i x = do guard (ltb i (length stack)); some (set stack i x)

  unfoldable pub reset : StackRecognizer → Option StackRecognizer
  unfolding store
  reset r = do stack ← store r.stack 0 rec.initial; some (record { stack = stack; stack_ptr = 0 })

  unfoldable pub pop_bytes : ℕ → StackRecognizer → Option StackRecognizer
  pop_bytes num r = do ptr ← checked_sub r.stack_ptr num; some (record r { stack_ptr = ptr })

  unfoldable pub collapse : StackRecognizer → Option StackRecognizer
  unfolding store
  collapse r = do
    top ← get_elem? r.stack r.stack_ptr
    stack ← store r.stack 0 top
    some (record { stack = stack; stack_ptr = 0 })

  unfoldable pub trie_finished : StackRecognizer → Option StackRecognizer
  trie_finished r = some (record r { stack_ptr = 0 })

  -- The branch of `try_push_byte` on what `try_append` returns.
  unfoldable pub push_state : StackRecognizer → Option rec.S → Option (Bool × StackRecognizer)
  unfolding store
  push_state r none = some (false, r)
  push_state r (some state) = do
    stack ← store r.stack (r.stack_ptr + 1) state
    some (true, record { stack = stack; stack_ptr = r.stack_ptr + 1 })

  unfoldable pub try_push_byte : ℕ → StackRecognizer → Option (Bool × StackRecognizer)
  unfolding push_state
  try_push_byte byte r = do
    top ← get_elem? r.stack r.stack_ptr
    push_state r (rec.try_append top byte)

  abbrev pub stack_recognizer : Recognizer
  stack_recognizer = record {
    State = StackRecognizer;
    pop_bytes = pop_bytes;
    try_push_byte = try_push_byte;
    trie_started = λ r. some r;
    trie_finished = trie_finished;
  }

  -- The state after the bytes of a path, newest first, from `top`.
  pub run_from : rec.S → List ℕ → Option rec.S
  run_from top [] = some top
  run_from top (b ∷ path) = run_from top path >>= λ s. rec.try_append s b

  is_some : Option rec.S → Bool
  is_some none = false
  is_some (some _) = true

  -- What the stack accepts: the paths that the transition function does not reject.
  unfoldable pub viable : rec.S → List ℕ → Bool
  unfolding is_some run_from
  viable top path = is_some (run_from top path)

  -- Level `i` of the stack has the state after the oldest `i` bytes of the path.
  pub record Tracks (top : rec.S) (r : StackRecognizer) (path : List ℕ) : Type 0 where
    pub deep : length r.stack ≡ stack_capacity
    pub pointer : r.stack_ptr ≡ length path
    pub below : length path < stack_capacity
    pub level :
        (n : ℕ) → n ≤ length path → get_elem? r.stack (length path - n) ≡ run_from top (drop n path)

  pop-Tracks :
      (top : rec.S) (r : StackRecognizer) (path : List ℕ) (n : ℕ)
      → Tracks top r path
      → n ≤ length path
      → (t : StackRecognizer) × (pop_bytes n r ≡ some t) × Tracks top t (drop n path)
  pop-Tracks top r path n h k =
      let e : length (drop n path) ≡ length path - n = length-drop n path in
      (
        record r { stack_ptr = r.stack_ptr - n },
        unfold pop_bytes in rw (checked_sub-le r.stack_ptr n (omega (arith, h.pointer))) refl,
        record {
          deep = h.deep;
          pointer = omega (arith, h.pointer, e);
          below = omega (arith, h.below, e);
          level = λ m l.
              ap (get_elem? r.stack) (lower m l e)
              ∙ h.level (n + m) (omega (arith, e))
              ∙ ap (run_from top) (sym (drop-drop n m path));
        },
      )
    where
      lower :
          (m : ℕ)
          → m ≤ length (drop n path)
          → length (drop n path) ≡ length path - n
          → length (drop n path) - m ≡ length path - (n + m)
      lower m l e = omega arith

  top_state :
      (top : rec.S) (r : StackRecognizer) (path : List ℕ)
      → Tracks top r path
      → get_elem? r.stack r.stack_ptr ≡ run_from top path
  top_state top r path h =
      let e : r.stack_ptr ≡ length path - 0 = omega (arith, h.pointer) in
      ap (get_elem? r.stack) e ∙ h.level 0 (omega arith)

  push-Tracks :
      (top : rec.S) (r : StackRecognizer) (path : List ℕ) (b : ℕ) (state : rec.S)
      → Tracks top r path
      → length path < stack_capacity - 1
      → run_from top (b ∷ path) ≡ some state
      → Tracks top
          (record { stack = set r.stack (r.stack_ptr + 1) state; stack_ptr = r.stack_ptr + 1 })
          (b ∷ path)
  push-Tracks top r path b state h k e = record {
    deep = length-set r.stack (r.stack_ptr + 1) state ∙ h.deep;
    pointer = omega (arith, h.pointer);
    below = omega arith;
    level = levels;
  }
    where
      at : r.stack_ptr + 1 ≡ suc (length path)
      at = omega (arith, h.pointer)

      levels :
          (n : ℕ)
          → n ≤ length (b ∷ path)
          → get_elem? (set r.stack (r.stack_ptr + 1) state) (length (b ∷ path) - n)
            ≡ run_from top (drop n (b ∷ path))
      levels zero l =
          let i : length (b ∷ path) - 0 ≡ r.stack_ptr + 1 = omega (arith, at) in
          ap (get_elem? (set r.stack (r.stack_ptr + 1) state)) i
          ∙ get_elem?-set_self r.stack (r.stack_ptr + 1) state (omega (arith, h.deep, h.pointer))
          ∙ sym e
      levels (suc n) l =
          let i : length (b ∷ path) - suc n ≡ length path - n = omega arith in
          ap (get_elem? (set r.stack (r.stack_ptr + 1) state)) i
          ∙ get_elem?-set_ne r.stack (r.stack_ptr + 1) (length path - n) state
              (λ q. absurd (omega (arith, at)))
          ∙ h.level n (omega arith)

  push_step :
      (top : rec.S) (r : StackRecognizer) (path : List ℕ) (b : ℕ) (s : rec.S)
      → Tracks top r path
      → run_from top path ≡ some s
      → (try_push_byte b r ≡ push_state r (rec.try_append s b))
        × (run_from top (b ∷ path) ≡ rec.try_append s b)
  unfolding try_push_byte run_from
  push_step top r path b s h e = (rw (top_state top r path h ∙ e) refl, rw e refl)

  current :
      (top : rec.S) (r : StackRecognizer) (path : List ℕ)
      → Tracks top r path
      → (s : rec.S) × (run_from top path ≡ some s)
  current top r path h =
      let room : r.stack_ptr < length r.stack = omega (arith, h.pointer, h.deep, h.below) in
      (
        get_or r.stack r.stack_ptr rec.initial,
        sym (top_state top r path h) ∙ get_elem?-eq-get_or r.stack r.stack_ptr rec.initial room,
      )

  accept :
      (top : rec.S) (r : StackRecognizer) (path : List ℕ) (b : ℕ) (o : Option rec.S)
      → Tracks top r path
      → length path < stack_capacity - 1
      → run_from top (b ∷ path) ≡ o
      → is_some o ≡ true
      → (t : StackRecognizer) × (push_state r o ≡ some (true, t)) × Tracks top t (b ∷ path)
  accept top r path b none h k e v = absurd (false≢true (unfold is_some in v))
  accept top r path b (some state) h k e v = (
    record { stack = set r.stack (r.stack_ptr + 1) state; stack_ptr = r.stack_ptr + 1 },
    unfold push_state store in
        rw (lt→ltb (r.stack_ptr + 1) (length r.stack) (omega (arith, h.pointer, h.deep))) refl,
    push-Tracks top r path b state h k e,
  )

  reject :
      (r : StackRecognizer) (o : Option rec.S)
      → is_some o ≡ false
      → push_state r o ≡ some (false, r)
  unfolding push_state is_some
  reject r none v = refl
  reject r (some state) v = cc

  -- The adapter is a stack over the recognizer that it wraps, for paths of fewer than 300 bytes.
  pub stack_recognizer-IsStack :
      (top : rec.S) → IsStack stack_recognizer (viable top) (stack_capacity - 1)
  stack_recognizer-IsStack top = record {
    Tracks = Tracks top;
    pop = λ s path n h k. pop-Tracks top s path n h k;
    push_viable = λ s path b h k v.
        let (state, e) = current top s path h in
        let (step, run) = push_step top s path b state h e in
        let (t, p, q) =
          accept top s path b (rec.try_append state b) h k run
            (unfold viable in ap is_some (sym run) ∙ v) in
        (t, step ∙ p, q);
    push_not_viable = λ s path b h k v.
        let (state, e) = current top s path h in
        let (step, run) = push_step top s path b state h e in
        (
          s,
          step ∙ reject s (rec.try_append state b) (unfold viable in ap is_some (sym run) ∙ v),
          h,
        );
    started = λ s path h. (s, refl, h);
    finished = λ s path h. (record s { stack_ptr = 0 }, unfold trie_finished in refl);
  }

  -- A new recognizer has an empty stack.
  pub from-Tracks : (stack_recognizer-IsStack rec.initial).Tracks from []
  unfolding stack_recognizer-IsStack from run_from
  from-Tracks = record {
    deep = length-replicate stack_capacity rec.initial;
    pointer = refl;
    below = omega arith;
    level = levels;
  }
    where
      levels :
          (n : ℕ)
          → n ≤ 0
          → get_elem? (replicate stack_capacity rec.initial) (0 - n)
            ≡ run_from rec.initial (drop n [])
      levels zero l = refl
      levels (suc n) l = elim l [ ]
