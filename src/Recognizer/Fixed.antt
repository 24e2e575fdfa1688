-- ===== src/Recognizer/Fixed.antt =====
-- `FixedRecognizer` and `AnythingGoes` of toktrie/src/toktree.rs. The state of the first is
-- `bytes_ptr`; its bytes do not change.
use mathlib.Core.Bool.{false≢true}
use llguidance.Prelude.{
  ℕ, zero, suc, ◌+◌, ◌-◌, ◌≡◌, refl, ap, sym, ◌∙◌, Bool, true, false, ◌&&◌, Option, none, some,
  List, [], ◌∷◌, length, get_elem?, drop, arith, ◌==◌, if◌then◌else◌, checked_sub, checked_sub-le,
  length-drop,
}
use llguidance.Recognizer.{Recognizer, IsStack}

-- `self.bytes_ptr < self.bytes.len() && self.bytes[self.bytes_ptr] == byte`
unfoldable pub next_is : List ℕ → ℕ → ℕ → Bool
next_is bytes ptr b = elim (get_elem? bytes ptr) [ none ↦ false | some x ↦ x == b ]

unfoldable pub try_push_fixed : List ℕ → ℕ → ℕ → Option (Bool × ℕ)
unfolding next_is
try_push_fixed bytes b ptr = if next_is bytes ptr b then some (true, ptr + 1) else some (false, ptr)

abbrev pub fixed_recognizer : List ℕ → Recognizer
fixed_recognizer bytes = record {
  State = ℕ;
  pop_bytes = λ num ptr. checked_sub ptr num;
  try_push_byte = try_push_fixed bytes;
  trie_started = λ ptr. some ptr;
  trie_finished = λ ptr. some ptr;
}

abbrev pub anything_goes : Recognizer
anything_goes = record {
  State = Unit;
  pop_bytes = λ num s. some s;
  try_push_byte = λ b s. some (true, s);
  trie_started = λ s. some s;
  trie_finished = λ s. some s;
}

-- The stack, newest first, spells a prefix of the bytes.
unfoldable pub is_prefix : List ℕ → List ℕ → Bool
is_prefix bytes [] = true
is_prefix bytes (b ∷ path) = next_is bytes (length path) b && is_prefix bytes path

is_prefix-drop :
    (bytes path : List ℕ) (n : ℕ)
    → is_prefix bytes path ≡ true
    → is_prefix bytes (drop n path) ≡ true
unfolding is_prefix
is_prefix-drop bytes path zero h = h
is_prefix-drop bytes [] (suc n) h = refl
is_prefix-drop bytes (b ∷ path) (suc n) h = is_prefix-drop bytes path n (ground (arith, h))

-- The fixed recognizer is a stack that accepts the prefixes of its bytes, at any depth.
pub fixed_recognizer-IsStack :
    (bytes : List ℕ) (capacity : ℕ) → IsStack (fixed_recognizer bytes) (is_prefix bytes) capacity
fixed_recognizer-IsStack bytes capacity = record {
  Tracks = λ ptr path. (ptr ≡ length path) × (is_prefix bytes path ≡ true);
  pop = λ ptr path n h k. (
    ptr - n,
    checked_sub-le ptr n (omega (arith, h.0)),
    (omega (arith, h.0, length-drop n path), is_prefix-drop bytes path n h.1),
  );
  push_viable = λ ptr path b h k v. (
    ptr + 1,
    pushes ptr path b h.0 (unfold is_prefix in ground (arith, v)),
    (omega (arith, h.0), v),
  );
  push_not_viable = λ ptr path b h k v.
      (ptr, stays ptr path b h.0 (unfold is_prefix in ground (arith, v, h.1)), h);
  started = λ ptr path h. (ptr, refl, h);
  finished = λ ptr path h. (ptr, refl);
}
  where
    pushes :
        (ptr : ℕ) (path : List ℕ) (b : ℕ)
        → ptr ≡ length path
        → next_is bytes (length path) b ≡ true
        → try_push_fixed bytes b ptr ≡ some (true, ptr + 1)
    pushes ptr path b e v = unfold try_push_fixed in rw (ap (λ i. next_is bytes i b) e ∙ v) refl

    stays :
        (ptr : ℕ) (path : List ℕ) (b : ℕ)
        → ptr ≡ length path
        → next_is bytes (length path) b ≡ false
        → try_push_fixed bytes b ptr ≡ some (false, ptr)
    stays ptr path b e v = unfold try_push_fixed in rw (ap (λ i. next_is bytes i b) e ∙ v) refl

pub fixed-Tracks :
    (bytes : List ℕ) (capacity : ℕ) → (fixed_recognizer-IsStack bytes capacity).Tracks 0 []
unfolding fixed_recognizer-IsStack is_prefix
fixed-Tracks bytes capacity = (refl, refl)

-- `AnythingGoes` accepts every byte; it keeps no stack.
pub anything_goes-IsStack : (capacity : ℕ) → IsStack anything_goes (λ path. true) capacity
anything_goes-IsStack capacity = record {
  Tracks = λ s path. Unit;
  pop = λ s path n h k. (s, refl, tt);
  push_viable = λ s path b h k v. (s, refl, tt);
  push_not_viable = λ s path b h k v. absurd (false≢true (sym v));
  started = λ s path h. (s, refl, tt);
  finished = λ s path h. (s, refl);
}
