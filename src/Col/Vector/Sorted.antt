-- ===== src/Col/Vector/Sorted.antt =====
-- The binary searches of vector.c on a vector that is sorted for the searched value: they end, and
-- find what a scan would find.
use sdk_dslink_c.Prelude.{
  ℕ, zero, suc, ◌+◌, ◌-◌, ◌/◌, ◌^◌, ◌≤◌, ◌<◌, ◌≡◌, refl, ap, ◌⊎◌, inl, inr, List, arith, length,
  leb, ltb, get_or, get_elem?-eq-get_or, Bool-cases, true, false, ℤ, pos, minus_one, is_zero,
  is_positive, is_natural, zero_of_positive, zero_of_negative, negative_of, ◌==◌,
}
use sdk_dslink_c.Prelude.Run.{ok}
use sdk_dslink_c.Col.Vector.Search.{Compare, compare_at, search_between, bound_within}

module _ {A : Type 0} (cmp_fn : Compare A) (key : A) (xs : List A) (size : ℕ) where
  -- The result of the comparison with the element at an index.
  abbrev pub at : ℕ → ℤ
  at i = cmp_fn key (get_or xs i key)

  -- The comparisons fall along the vector: behind an element that the value is less than, it is
  -- less than every element, and before one that it is greater than, it is greater than all.
  pub record IsSorted : Type 0 where
    pub natural : (i j : ℕ) → i ≤ j → j < size → is_natural (at j) ≡ true → is_natural (at i) ≡ true
    pub positive :
        (i j : ℕ) → i ≤ j → j < size → is_positive (at j) ≡ true → is_positive (at i) ≡ true

  -- `r` is where the elements greater than the value begin.
  pub record IsBound (r : ℕ) : Type 0 where
    pub in_range : r ≤ size
    pub before : (i : ℕ) → i < r → is_natural (at i) ≡ true
    pub after : (i : ℕ) → r ≤ i → i < size → is_natural (at i) ≡ false

  pub compare_at_lem : (i : ℕ) → i < length xs → compare_at cmp_fn key xs i ≡ ok (at i)
  compare_at_lem i h = ground (arith, get_elem?-eq-get_or xs i key)

  pub negative :
      IsSorted
      → (i j : ℕ) → i ≤ j
      → j < size
      → is_natural (at i) ≡ false
      → is_natural (at j) ≡ false
  negative s i j h k e = elim (Bool-cases (is_natural (at j))) [
    | inl nat ↦ cc (s.natural i j h k nat)
    | inr neg ↦ neg
  ]

  pub bound_within-IsBound :
      (fuel first count : ℕ)
      → IsSorted
      → size ≤ length xs
      → size < 2 ^ 32
      → count < fuel
      → first + count ≤ size
      → ((i : ℕ) → i < first → is_natural (at i) ≡ true)
      → ((i : ℕ) → first + count ≤ i → i < size → is_natural (at i) ≡ false)
      → (r : ℕ) × (bound_within cmp_fn key fuel xs first count ≡ ok r) × IsBound r
  unfolding bound_within
  bound_within-IsBound zero first count s hl hw hf hc hb ha = absurd (omega arith)
  bound_within-IsBound (suc fuel) first count s hl hw hf hc hb ha =
      let step = count / 2 in
      let mid = first + step in
      elim (Bool-cases (ltb 0 count)) [
        | inr done ↦ (
          first,
          ground arith,
          record { in_range = omega arith; before = hb; after = λ i p q. ha i (ground arith) q },
        )
        | inl more ↦ elim (Bool-cases (is_natural (at mid))) [
          | inl nat ↦
              let (r, run, bound) =
                bound_within-IsBound fuel (mid + 1) (count - (step + 1)) s hl hw (ground arith)
                  (ground arith) (λ i p. s.natural i mid (omega arith) (ground arith) nat)
                  (λ i p q. ha i (ground arith) q) in
              (r, ground (arith, compare_at_lem mid), bound)
          | inr neg ↦
              let (r, run, bound) =
                bound_within-IsBound fuel first step s hl hw (ground arith) (ground arith) hb
                  (λ i p q. negative s mid i p q neg) in
              (r, ground (arith, compare_at_lem mid), bound)
        ]
      ]

  -- The result of a search for an element that is equal to the value, from `lower` up to `upper`.
  abbrev pub Finds : ℕ → ℕ → ℤ → Type 0
  Finds lower upper z =
      ((m : ℕ) × (z ≡ pos m) × (lower ≤ m) × (m < upper) × (is_zero (at m) ≡ true))
      ⊎ ((z ≡ minus_one) × ((i : ℕ) → lower ≤ i → i < upper → is_zero (at i) ≡ false))

  -- An element at or behind a smaller one, and itself not smaller, is not the first.
  mid_pos :
      (lower m : ℕ) → lower ≤ m → is_positive (at lower) ≡ true → is_positive (at m) ≡ false → 0 < m
  mid_pos lower m h p q = elim (Bool-cases (m == 0)) [
    | inl e ↦ let same : lower ≡ m = ground arith in cc (ap (λ i. is_positive (at i)) same)
    | inr ne ↦ ground arith
  ]

  module _ (s : IsSorted) (hl : size ≤ length xs) (hw : size ≤ 2 ^ 31) where
    pub search_between-Finds :
        (fuel l r lower upper : ℕ)
        → r < upper
        → upper ≤ size
        → l ≤ r + 1
        → r + 1 < l + fuel
        → lower ≤ l
        → is_positive (at lower) ≡ true
        → ((i : ℕ) → i < l → is_positive (at i) ≡ true)
        → ((i : ℕ) → r < i → i < upper → is_natural (at i) ≡ false)
        → (z : ℤ) × (search_between cmp_fn key fuel xs l r ≡ ok z) × Finds lower upper z
    unfolding search_between
    search_between-Finds zero l r lower upper hr hu hl' hf hlow hp hb ha = absurd (omega arith)
    search_between-Finds (suc fuel) l r lower upper hr hu hl' hf hlow hp hb ha =
        let m = (l + r) / 2 in
        elim (Bool-cases (leb l r)) [
          | inr done ↦ (
            minus_one,
            ground arith,
            inr (
              refl,
              λ i p q. elim (Bool-cases (ltb i l)) [
                | inl lt ↦ zero_of_positive _ (hb i (ground arith))
                | inr ge ↦ zero_of_negative _ (ha i (ground arith) q)
              ],
            ),
          )
          | inl more ↦ elim (Bool-cases (is_zero (at m))) [
            | inl hit ↦ (
              pos m,
              ground (arith, compare_at_lem m),
              inl (m, refl, ground arith, ground arith, hit),
            )
            | inr miss ↦ elim (Bool-cases (is_positive (at m))) [
              | inl right ↦
                  let (z, run, found) =
                    search_between-Finds fuel (m + 1) r lower upper hr hu (ground arith)
                      (ground arith) (ground arith) hp
                      (λ i p. s.positive i m (omega arith) (ground arith) right) ha in
                  (z, ground (arith, compare_at_lem m), found)
              | inr left ↦
                  let neg = negative_of (at m) miss left in
                  let above : 0 < m = mid_pos lower m (ground arith) hp left in
                  let (z, run, found) =
                    search_between-Finds fuel l (m - 1) lower upper (ground arith) hu (ground arith)
                      (ground arith) hlow hp hb
                      (λ i p q. negative s m i (omega arith) (omega arith) neg) in
                  (z, ground (arith, compare_at_lem m), found)
            ]
          ]
        ]
