-- ===== src/Col/Vector/Tests.antt =====
-- Runs of vector.c, and its theorems at concrete vectors.
use sdk_dslink_c.Prelude.{
  ℕ, zero, suc, ◌+◌, ◌^◌, ◌≤◌, ◌<◌, ◌≡◌, refl, ap, List, [], ◌∷◌, ◌++◌, none, some, arith, length,
  take, length-append, length-take, take-take, take-append_le, take-all, true, get_or, ltb, ◌==◌,
  if◌then◌else◌, ℤ, pos, minus_one, is_natural, is_positive,
}
use sdk_dslink_c.Prelude.Run.{ok, fault}
use sdk_dslink_c.Col.Vector.{Vector, Realloc, vector_append, vector_erase, vector_erase_range}
use sdk_dslink_c.Col.Vector.Inv.{cells, contents, IsValid, IsRealloc}
use sdk_dslink_c.Col.Vector.Erase.{vector_erase-removes}
use sdk_dslink_c.Col.Vector.Search.{
  Compare, vector_remove_if, vector_binary_search_range, vector_upper_bound, bound_within,
}
use sdk_dslink_c.Col.Vector.Sorted.{IsSorted, IsBound, Finds}
use sdk_dslink_c.Col.Vector.Lookup.{vector_upper_bound-IsBound, vector_binary_search_range-Finds}
use sdk_dslink_c.Col.Vector.RemoveIf.{vector_remove_if-kept}

abbrev zeros : ℕ → List ℕ
zeros zero = []
zeros (suc n) = 0 ∷ zeros n

length-zeros : (n : ℕ) → length (zeros n) ≡ n
length-zeros zero = refl
length-zeros (suc n) = ap suc (length-zeros n)

-- An allocator that never fails.
abbrev roomy : Realloc ℕ
roomy xs n = some (take n (cells xs ++ zeros n))

abbrev out_of_memory : Realloc ℕ
out_of_memory xs n = none

length-roomy : (xs : List ℕ) (n : ℕ) → length (take n (xs ++ zeros n)) ≡ n
length-roomy xs n =
    omega (arith, length-take n (xs ++ zeros n), length-append xs (zeros n), length-zeros n)

roomy-IsRealloc : IsRealloc roomy
roomy-IsRealloc = record {
  resized = λ xs n ys e. ground (arith, length-roomy (cells xs) n);
  kept = λ xs n ys e h. ground (
    arith,
    take-take (length (cells xs)) n (cells xs ++ zeros n) h,
    take-append_le (length (cells xs)) (cells xs) (zeros n),
    take-all (length (cells xs)) (cells xs),
  );
}

-- 2, 5, 9 in a full block
abbrev full : Vector ℕ
full = record { size = 3; capacity = 3; data_block = some (2 ∷ 5 ∷ 9 ∷ []); element_size = 4 }

-- The same with one cell left.
abbrev spare : Vector ℕ
spare = record full { capacity = 4; data_block = some (2 ∷ 5 ∷ 9 ∷ 0 ∷ []) }

full-IsValid : IsValid full
full-IsValid = record {
  storage = refl;
  small = omega arith;
  size_in = omega arith;
  block_set = refl;
}

spare-IsValid : IsValid spare
spare-IsValid = record {
  storage = refl;
  small = omega arith;
  size_in = omega arith;
  block_set = refl;
}

abbrev compare_numbers : Compare ℕ
compare_numbers a b = if a == b then pos 0 else if ltb b a then pos 1 else minus_one

append_full : vector_append out_of_memory (some full) 7 ≡ ok (minus_one, some full)
unfolding vector_append
append_full = refl

erase_last : vector_erase (some full) 2 ≡ ok (minus_one, some full)
unfolding vector_erase
erase_last = refl

-- The move for the range [0, 1) of a full block reads the cell behind its end.
erase_range_full : vector_erase_range (some full) 0 1 ≡ fault
unfolding vector_erase_range
erase_range_full = refl

erase_range_spare :
    vector_erase_range (some spare) 0 1
    ≡ ok (pos 0, some (record spare { size = 2; data_block = some (5 ∷ 9 ∷ 0 ∷ 0 ∷ []) }))
unfolding vector_erase_range
erase_range_spare = refl

vector_erase-removes_example :
    (1 + 1 < 3
      → (w : Vector ℕ) × (vector_erase (some spare) 1 ≡ ok (pos 0, some w))
        × IsValid w
        × (contents w ≡ 2 ∷ 9 ∷ []))
    × (0 < 3 → 3 ≤ 1 + 1 → vector_erase (some spare) 1 ≡ ok (minus_one, some spare))
    × (◌≡◌ {A = ℕ} 3 0 → 1 + 1 < 2 ^ 32 → vector_erase (some spare) 1 ≡ fault)
vector_erase-removes_example = vector_erase-removes 1 spare-IsValid

-- 5 is behind 2 and before 9.
sorted_for_5 : IsSorted compare_numbers 5 (2 ∷ 5 ∷ 9 ∷ []) 3
sorted_for_5 = record { natural = falls_natural; positive = falls_positive }
  where
    falls_natural :
        (i j : ℕ)
        → i ≤ j
        → j < 3
        → is_natural (compare_numbers 5 (get_or (2 ∷ 5 ∷ 9 ∷ []) j 5)) ≡ true
        → is_natural (compare_numbers 5 (get_or (2 ∷ 5 ∷ 9 ∷ []) i 5)) ≡ true
    falls_natural zero j h k e = refl
    falls_natural (suc zero) j h k e = refl
    falls_natural (suc (suc zero)) zero h k e = absurd (omega arith)
    falls_natural (suc (suc zero)) (suc zero) h k e = absurd (omega arith)
    falls_natural (suc (suc zero)) (suc (suc zero)) h k e = e
    falls_natural (suc (suc zero)) (suc (suc (suc j))) h k e = absurd (omega arith)
    falls_natural (suc (suc (suc i))) j h k e = absurd (omega arith)

    falls_positive :
        (i j : ℕ)
        → i ≤ j
        → j < 3
        → is_positive (compare_numbers 5 (get_or (2 ∷ 5 ∷ 9 ∷ []) j 5)) ≡ true
        → is_positive (compare_numbers 5 (get_or (2 ∷ 5 ∷ 9 ∷ []) i 5)) ≡ true
    falls_positive zero j h k e = refl
    falls_positive (suc i) zero h k e = absurd (omega arith)
    falls_positive (suc i) (suc zero) h k e = cc
    falls_positive (suc i) (suc (suc zero)) h k e = cc
    falls_positive (suc i) (suc (suc (suc j))) h k e = absurd (omega arith)

vector_upper_bound-IsBound_example :
    (r : ℕ) × (vector_upper_bound compare_numbers 5 4 (some full) ≡ ok r)
    × IsBound compare_numbers 5 (2 ∷ 5 ∷ 9 ∷ []) 3 r
vector_upper_bound-IsBound_example =
    vector_upper_bound-IsBound compare_numbers 5 full-IsValid 4 sorted_for_5 (omega arith)

vector_binary_search_range-Finds_example :
    (z : ℤ) × (vector_binary_search_range compare_numbers 5 4 (some full) 0 7 ≡ ok z)
    × Finds compare_numbers 5 (2 ∷ 5 ∷ 9 ∷ []) 3 0 3 z
vector_binary_search_range-Finds_example =
    vector_binary_search_range-Finds compare_numbers 5 full-IsValid 4 0 7 sorted_for_5 (omega arith)
      (omega arith) (omega arith)

bound_of_5 : vector_upper_bound compare_numbers 5 4 (some full) ≡ ok 2
unfolding vector_upper_bound bound_within
bound_of_5 = refl

vector_remove_if-kept_example :
    (r : ℕ) × (w : Vector ℕ) × (vector_remove_if compare_numbers 5 (some full) ≡ ok (r, w))
    × IsValid w
    × (w.size ≡ 3)
    × (r ≤ 3)
    × (take r (cells w.data_block) ≡ 2 ∷ 9 ∷ [])
vector_remove_if-kept_example = vector_remove_if-kept compare_numbers 5 full-IsValid
