-- ===== src/Col/Vector/Lookup.antt =====
-- The binary searches of vector.c as they are called: on a valid, sorted vector.
use sdk_dslink_c.Prelude.{
  true, ℕ, ◌-◌, ◌^◌, ◌≤◌, ◌<◌, min, ◌≡◌, refl, inl, inr, some, arith, leb, ◌==◌, Bool-cases, ℤ, pos,
  minus_one, is_zero, is_positive, is_natural, negative_of, positive_of, zero_of_positive,
  zero_of_negative,
}
use sdk_dslink_c.Prelude.Run.{ok}
use sdk_dslink_c.Col.Vector.{Vector}
use sdk_dslink_c.Col.Vector.Inv.{cells, IsValid}
use sdk_dslink_c.Col.Vector.Search.{Compare, vector_binary_search_range, vector_upper_bound}
use sdk_dslink_c.Col.Vector.Sorted.{
  at, IsSorted, IsBound, Finds, bound_within-IsBound, search_between-Finds, compare_at_lem,
  negative,
}

module _ {A : Type 0} (cmp_fn : Compare A) (key : A) {v : Vector A} (h : IsValid v) where
  abbrev pub Sorted : Type 0
  Sorted = IsSorted cmp_fn key (cells v.data_block) v.size

  -- The vector's comparisons.
  abbrev at_of : ℕ → ℤ
  at_of = at cmp_fn key (cells v.data_block) v.size

  -- `vector_upper_bound` on a sorted vector ends, and returns the index where the elements that
  -- are greater than the value begin.
  pub vector_upper_bound-IsBound :
      (fuel : ℕ)
      → Sorted
      → v.size < fuel
      → (r : ℕ) × (vector_upper_bound cmp_fn key fuel (some v) ≡ ok r)
        × IsBound cmp_fn key (cells v.data_block) v.size r
  unfolding vector_upper_bound
  vector_upper_bound-IsBound fuel s hf =
      let (r, run, bound) =
        bound_within-IsBound cmp_fn key (cells v.data_block) v.size fuel 0 v.size s (ground arith)
          (ground arith) hf (omega arith) (λ i p. absurd (omega arith))
          (λ i p q. absurd (omega arith)) in
      elim (Bool-cases (v.size == 0)) [
        | inl empty ↦ (
          0,
          ground arith,
          record {
            in_range = omega arith;
            before = λ i p. absurd (omega arith);
            after = λ i p q. absurd (ground arith);
          },
        )
        | inr more ↦ (r, rw h.block_set (ground arith), bound)
      ]

  -- The search in a range whose first element is smaller than the value.
  search_from_positive :
      (fuel lower upper : ℕ)
      → Sorted
      → v.size ≤ 2 ^ 31
      → v.size < fuel
      → lower < v.size
      → lower < upper
      → is_positive (at_of lower) ≡ true
      → (z : ℤ) × (vector_binary_search_range cmp_fn key fuel (some v) lower upper ≡ ok z)
        × Finds cmp_fn key (cells v.data_block) v.size lower (min upper v.size) z
  unfolding vector_binary_search_range
  search_from_positive fuel lower upper s hw hf hl order first =
      let last = min upper v.size - 1 in
      let read = compare_at_lem cmp_fn key (cells v.data_block) v.size in
      elim (Bool-cases (is_natural (at_of last))) [
        | inl nat ↦ elim (Bool-cases (is_zero (at_of last))) [
          | inl hit ↦ (
            pos last,
            rw h.block_set (ground (arith, read lower, read last, zero_of_positive (at_of lower))),
            inl (last, refl, omega arith, omega arith, hit),
          )
          | inr miss ↦ (
            minus_one,
            rw h.block_set (ground (arith, read lower, read last, zero_of_positive (at_of lower))),
            inr (
              refl,
              λ i p q. zero_of_positive _ (
                  s.positive i last (omega arith) (omega arith)
                    (positive_of (at_of last) nat miss)),
            ),
          )
        ]
        | inr neg ↦
            let (z, run, found) =
              search_between-Finds cmp_fn key (cells v.data_block) v.size s (omega arith) hw fuel
                lower last lower (min upper v.size) (omega arith) (omega arith) (omega arith)
                (omega arith) (omega arith) first (λ i p. s.positive i lower (omega arith) hl first)
                (λ i p q. absurd (omega arith)) in
            (z, rw h.block_set (ground (arith, read lower, read last)), found)
      ]

  -- `vector_binary_search_range` on a sorted vector of at most 2 ^ 31 elements, with `lower` the index of one of them,
  -- ends. It returns the index of an element in the range that is equal to the value, or -1 if there is none.
  pub vector_binary_search_range-Finds :
      (fuel lower upper : ℕ)
      → Sorted
      → v.size ≤ 2 ^ 31
      → v.size < fuel
      → lower < v.size
      → (z : ℤ) × (vector_binary_search_range cmp_fn key fuel (some v) lower upper ≡ ok z)
        × Finds cmp_fn key (cells v.data_block) v.size lower (min upper v.size) z
  unfolding vector_binary_search_range
  vector_binary_search_range-Finds fuel lower upper s hw hf hl =
      let up = min upper v.size in
      let read = compare_at_lem cmp_fn key (cells v.data_block) v.size in
      elim (Bool-cases (leb upper lower)) [
        | inl none_left ↦ (minus_one, ground arith, inr (refl, λ i p q. absurd (ground arith)))
        | inr more ↦ elim (Bool-cases (is_positive (at_of lower))) [
          | inr first ↦ elim (Bool-cases (is_zero (at_of lower))) [
            | inl hit ↦ (
              pos lower,
              rw h.block_set (ground (arith, read lower)),
              inl (lower, refl, omega arith, ground arith, hit),
            )
            | inr miss ↦ (
              minus_one,
              rw h.block_set (ground (arith, read lower)),
              inr (
                refl,
                λ i p q. zero_of_negative _ (
                    negative cmp_fn key (cells v.data_block) v.size s lower i p (omega arith)
                      (negative_of (at_of lower) miss first)),
              ),
            )
          ]
          | inl first ↦ search_from_positive fuel lower upper s hw hf hl (ground arith) first
        ]
      ]
