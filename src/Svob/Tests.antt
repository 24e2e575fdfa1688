-- ===== src/Svob/Tests.antt =====
-- Runs of the methods of `SimpleVob`, and the theorems of Svob at concrete vectors.
use llguidance.Prelude.{
  ℕ, suc, ◌*◌, ◌≤◌, ◌≡◌, ◌≢◌, ◌↔◌, refl, Bool, true, false, not, ◌&&◌, ◌||◌, Option, none, some, [],
  ◌∷◌, length, get_or, arith, leb, ltb, ◌==◌, if◌then◌else◌, ◌>>=◌,
}
use llguidance.Prelude.Words.{test_bit, trailing_zeros, shl, shr}
use llguidance.Svob.{
  SimpleVob, is_allowed, get, set_bit, alloc_with_capacity, alloc_ones, negated, set_all,
  allow_range, num_words,
}
use llguidance.Svob.View.{IsValid, contains, Updates}
use llguidance.Svob.Bit.{set_bit-Updates}
use llguidance.Svob.Alloc.{
  alloc_with_capacity-empty, negated-Updates, set_all-Updates, alloc_ones-full,
}
use llguidance.Svob.Range.{allow_range-Updates}
use llguidance.Svob.Algebra.{
  or, and, sub, or_minus, is_zero, and_is_zero, or-Updates, and-Updates, sub-Updates, or_minus-eq,
  is_zero_iff, and_is_zero_iff,
}
use llguidance.Svob.Scan.{
  iter_set_entries, iter_unset_entries, to_list, first_bit_set, first_bit_set_here_and_in, next,
  SimpleVobIter, trim_trailing_zeros,
}
use llguidance.Svob.Scan.Entries.{iter_set_entries-eq, iter_unset_entries-eq, to_list-eq, picked}
use llguidance.Svob.Scan.First.{
  first_bit_set-IsFirst, first_bit_set_here_and_in-IsFirst, next-IsFirst, IsFirst, advanced,
}
use llguidance.Svob.Scan.Trim.{trim_trailing_zeros-keeps}

-- The tokens 0, 2 and 33 of 40.
abbrev sample : SimpleVob
sample = record { words = 5 ∷ 2 ∷ []; size = 40 }

-- The tokens 2 and 39 of 40.
abbrev other_sample : SimpleVob
other_sample = record { words = 4 ∷ 128 ∷ []; size = 40 }

sample-IsValid : IsValid sample
sample-IsValid = record { in_u32 = omega arith; covers = omega arith; indexable = omega arith }

other_sample-IsValid : IsValid other_sample
other_sample-IsValid = record {
  in_u32 = omega arith;
  covers = omega arith;
  indexable = omega arith;
}

sample_runs :
    (get sample 33 ≡ some true)
    × (get sample 34 ≡ some false)
    × (get sample 64 ≡ none)
    × (to_list sample ≡ some (0 ∷ 2 ∷ 33 ∷ []))
    × (first_bit_set other_sample ≡ some 2)
    × (allow_range sample 3 33 ≡ some (record sample { words = 0xffff_fffd ∷ 3 ∷ [] }))
unfolding get to_list first_bit_set allow_range test_bit is_allowed trailing_zeros shl shr
sample_runs = (refl, refl, refl, refl, refl, refl)

set_bit-Updates_example :
    Updates sample (set_bit sample 34 true) (λ j. if 34 == j then true else contains sample j)
set_bit-Updates_example = set_bit-Updates sample 34 true sample-IsValid (omega arith)

allow_range-Updates_example :
    Updates sample (allow_range sample 3 33) (λ j. contains sample j || (leb 3 j && leb j 33))
allow_range-Updates_example =
    allow_range-Updates sample 3 33 sample-IsValid (omega arith) (omega arith)

negated-Updates_example : Updates sample (negated sample) (λ j. ltb j 40 && not (contains sample j))
negated-Updates_example = negated-Updates sample sample-IsValid

set_all-Updates_example : Updates sample (set_all sample true) (λ j. true && ltb j 40)
set_all-Updates_example = set_all-Updates sample true sample-IsValid

or-Updates_example :
    Updates sample
      (or sample other_sample)
      (λ j. contains sample j || (ltb j 64 && contains other_sample j))
or-Updates_example =
    or-Updates sample other_sample sample-IsValid other_sample-IsValid (omega arith)

and-Updates_example :
    Updates sample
      (and sample other_sample)
      (λ j. contains sample j && (contains other_sample j || leb 64 j))
and-Updates_example = and-Updates sample other_sample sample-IsValid other_sample-IsValid refl

sub-Updates_example :
    Updates sample
      (sub sample other_sample)
      (λ j. contains sample j && not (contains other_sample j))
sub-Updates_example = sub-Updates sample other_sample sample-IsValid other_sample-IsValid refl

is_zero_iff_example : (is_zero sample ≡ true) ↔ ((j : ℕ) → contains sample j ≡ false)
is_zero_iff_example = is_zero_iff sample sample-IsValid

and_is_zero_iff_example :
    (b : Bool) × (and_is_zero sample other_sample ≡ some b)
    × ((b ≡ true) ↔ ((j : ℕ) → (contains sample j && contains other_sample j) ≡ false))
and_is_zero_iff_example =
    and_is_zero_iff sample other_sample sample-IsValid other_sample-IsValid refl refl

iter_set_entries-eq_example : iter_set_entries sample ≡ some (picked (contains sample) 40 0)
iter_set_entries-eq_example = iter_set_entries-eq sample sample-IsValid

iter_unset_entries-eq_example :
    iter_unset_entries sample ≡ some (picked (λ i. not (contains sample i)) 40 0)
iter_unset_entries-eq_example = iter_unset_entries-eq sample sample-IsValid

to_list-eq_example : to_list sample ≡ some (picked (contains sample) 40 0)
to_list-eq_example = to_list-eq sample sample-IsValid

first_bit_set-IsFirst_example : IsFirst (contains other_sample) 0 (first_bit_set other_sample)
first_bit_set-IsFirst_example = first_bit_set-IsFirst other_sample other_sample-IsValid

first_bit_set_here_and_in-IsFirst_example :
    (r : Option ℕ) × (first_bit_set_here_and_in sample other_sample ≡ some r)
    × IsFirst (λ j. contains sample j && contains other_sample j) 0 r
first_bit_set_here_and_in-IsFirst_example =
    first_bit_set_here_and_in-IsFirst sample other_sample sample-IsValid refl

abbrev sample_iter : SimpleVobIter
sample_iter = record { vob = sample; idx = 3 }

next-IsFirst_example :
    (r : Option ℕ) × (next sample_iter ≡ (r, advanced sample_iter r))
    × IsFirst (contains sample) 3 r
next-IsFirst_example = next-IsFirst sample_iter sample-IsValid

-- Two zero words at the end.
abbrev padded : SimpleVob
padded = record { words = 5 ∷ 0 ∷ 2 ∷ 0 ∷ 0 ∷ []; size = 160 }

padded-IsValid : IsValid padded
padded-IsValid = record { in_u32 = omega arith; covers = omega arith; indexable = omega arith }

trim_trailing_zeros-keeps_example :
    IsValid (trim_trailing_zeros padded)
    × (length (trim_trailing_zeros padded).words ≤ 5)
    × ((k : ℕ)
        → length (trim_trailing_zeros padded).words ≡ suc k
        → get_or (trim_trailing_zeros padded).words k 0 ≢ 0)
    × ((j : ℕ) → contains (trim_trailing_zeros padded) j ≡ contains padded j)
trim_trailing_zeros-keeps_example = trim_trailing_zeros-keeps padded padded-IsValid

alloc_with_capacity-empty_example :
    (r : SimpleVob) × (alloc_with_capacity 40 41 ≡ some r)
    × IsValid r
    × (r.size ≡ 40)
    × (41 ≤ length r.words * 32)
    × ((j : ℕ) → contains r j ≡ false)
alloc_with_capacity-empty_example =
    alloc_with_capacity-empty 40 41 (omega arith) (unfold num_words in omega arith)

alloc_ones-full_example :
    (r : SimpleVob) × (alloc_ones 40 ≡ some r)
    × IsValid r
    × (r.size ≡ 40)
    × ((j : ℕ) → contains r j ≡ ltb j 40)
alloc_ones-full_example = alloc_ones-full 40 (unfold num_words in omega arith)

or_minus-eq_example :
    or_minus sample other_sample sample ≡ (sub other_sample sample >>= λ d. or sample d)
or_minus-eq_example = or_minus-eq sample other_sample sample refl refl refl
