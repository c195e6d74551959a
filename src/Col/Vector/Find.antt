-- ===== src/Col/Vector/Find.antt =====
-- `vector_find`: a scan for the first element that is equal to the searched value.
use sdk_dslink_c.Prelude.{
  ℕ, zero, suc, ◌+◌, ◌≤◌, ◌<◌, ◌≡◌, refl, subst, ◌⊎◌, inl, inr, List, some, arith, length, get_or,
  Bool-cases, true, false, ◌==◌, ℤ, pos, minus_one, is_zero,
}
use sdk_dslink_c.Prelude.Run.{ok}
use sdk_dslink_c.Col.Vector.{Vector}
use sdk_dslink_c.Col.Vector.Inv.{cells, IsValid}
use sdk_dslink_c.Col.Vector.Search.{Compare, compare_at, find_from, vector_find}
use sdk_dslink_c.Col.Vector.Sorted.{compare_at_lem}

module _ {A : Type 0} (cmp_fn : Compare A) (key : A) where
  -- Where a scan from `n` to `end` finds the first element that is equal to the value.
  abbrev pub FindsFirst : List A → ℕ → ℕ → ℤ → Type 0
  FindsFirst xs n end z =
      ((m : ℕ) × (z ≡ pos m)
        × (n ≤ m)
        × (m < end)
        × (is_zero (cmp_fn key (get_or xs m key)) ≡ true)
        × ((i : ℕ) → n ≤ i → i < m → is_zero (cmp_fn key (get_or xs i key)) ≡ false))
      ⊎ ((z ≡ minus_one)
          × ((i : ℕ) → n ≤ i → i < end → is_zero (cmp_fn key (get_or xs i key)) ≡ false))

  find_from-FindsFirst :
      (xs : List A) (rounds n : ℕ)
      → n + rounds ≤ length xs
      → (z : ℤ) × (find_from cmp_fn key xs rounds n ≡ ok z) × FindsFirst xs n (n + rounds) z
  unfolding find_from
  find_from-FindsFirst xs zero n h = (minus_one, refl, inr (refl, λ i p q. absurd (omega arith)))
  find_from-FindsFirst xs (suc rounds) n h = elim (Bool-cases (is_zero a)) [
    | inl hit ↦ (
      pos n,
      ground (arith, read),
      inl (n, refl, omega arith, omega arith, hit, λ i p q. absurd (omega arith)),
    )
    | inr miss ↦
        let (z, run, found) = find_from-FindsFirst xs rounds (n + 1) (omega arith) in
        (
          z,
          ground (arith, read),
          elim found [
            | inl (m, e, lo, hi, hit, before) ↦
                inl (m, e, omega arith, omega arith, hit, λ i p q. skip miss i p (before i) q)
            | inr (e, none_left) ↦ inr (e, λ i p q. skip miss i p (none_left i) (omega arith))
          ],
        )
  ]
    where
      a : ℤ
      a = cmp_fn key (get_or xs n key)

      read : compare_at cmp_fn key xs n ≡ ok a
      read = compare_at_lem cmp_fn key xs (length xs) n (omega arith)

      skip :
          {P : Type 0}
          → is_zero a ≡ false
          → (i : ℕ) → n ≤ i
          → (n + 1 ≤ i → P → is_zero (cmp_fn key (get_or xs i key)) ≡ false)
          → P
          → is_zero (cmp_fn key (get_or xs i key)) ≡ false
      skip miss i p later q = elim (Bool-cases (i == n)) [
        | inl e ↦
            subst (λ j. is_zero (cmp_fn key (get_or xs j key)) ≡ false) {x = n} (ground arith) miss
        | inr ne ↦ later (ground arith) q
      ]

  -- `vector_find` on a valid vector returns the index of the first element that is equal to the
  -- value, and -1 if there is none.
  pub vector_find-FindsFirst :
      {v : Vector A}
      → IsValid v
      → (z : ℤ) × (vector_find cmp_fn key (some v) ≡ ok z)
        × FindsFirst (cells v.data_block) 0 v.size z
  unfolding vector_find
  vector_find-FindsFirst {v} h =
      let (z, run, found) = find_from-FindsFirst (cells v.data_block) v.size 0 (omega arith) in
      elim (Bool-cases (v.size == 0)) [
        | inl empty ↦ (minus_one, ground arith, inr (refl, λ i p q. absurd (ground arith)))
        | inr more ↦ (
          z,
          rw h.block_set (ground arith),
          subst (λ k. FindsFirst (cells v.data_block) 0 k z) (omega arith) found,
        )
      ]
