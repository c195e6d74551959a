-- ===== src/Col/Vector/RemoveIf.antt =====
-- `vector_remove_if` against a filter of the vector's elements.
use sdk_dslink_c.Prelude.{
  ℕ, zero, suc, ◌+◌, ◌-◌, ◌≤◌, ◌<◌, ◌≡◌, refl, sym, ap, ap₂, ◌∙◌, inl, inr, List, [], ◌∷◌, ◌++◌,
  some, arith, length, take, drop, set, get_or, length-set, take-set_self, drop-set_lt, append-nil,
  append_assoc, Bool-cases, true, false, if◌then◌else◌, ℤ, is_zero,
}
use sdk_dslink_c.Prelude.Run.{ok, memmove}
use sdk_dslink_c.Col.Vector.{Vector}
use sdk_dslink_c.Col.Vector.Inv.{cells, contents, IsValid}
use sdk_dslink_c.Col.Vector.Search.{Compare, compare_at, remove_from, vector_remove_if}
use sdk_dslink_c.Col.Vector.Sorted.{compare_at_lem}
use sdk_dslink_c.Col.Vector.Find.{vector_find-FindsFirst}

module _ {A : Type 0} where
  -- A move of one element is a write.
  move_one-set :
      (xs : List A) (n : ℕ) (a : A)
      → n < length xs
      → take n xs ++ (a ∷ drop (n + 1) xs) ≡ set xs n a
  move_one-set [] n a h = absurd (omega arith)
  move_one-set (x ∷ xs) zero a h = refl
  move_one-set (x ∷ xs) (suc n) a h =
      ap (λ k. x ∷ (take n xs ++ (a ∷ drop k (x ∷ xs)))) {y = suc (n + 1)} (omega arith)
      ∙ ap (λ ys. x ∷ ys) (move_one-set xs n a (omega arith))

  -- A block from an index on.
  drop-cons :
      (xs : List A) (i : ℕ) (d : A) → i < length xs → drop i xs ≡ get_or xs i d ∷ drop (i + 1) xs
  drop-cons [] i d h = absurd (omega arith)
  drop-cons (x ∷ xs) zero d h = refl
  drop-cons (x ∷ xs) (suc i) d h =
      drop-cons xs i d (omega arith)
      ∙ ap (λ k. get_or xs i d ∷ drop k (x ∷ xs)) {x = suc (i + 1)} (omega arith)

  take-drop_cons :
      (xs : List A) (i k : ℕ) (d : A)
      → i < length xs
      → take (suc k) (drop i xs) ≡ get_or xs i d ∷ take k (drop (i + 1) xs)
  take-drop_cons xs i k d h = ap (take (suc k)) (drop-cons xs i d h)

  memmove_one :
      (xs : List A) (dst src : ℕ) (d : A)
      → src < length xs
      → dst < length xs
      → memmove xs dst src 1 ≡ ok (set xs dst (get_or xs src d))
  memmove_one xs dst src d h k =
      let moved = move_one-set xs dst (get_or xs src d) k in
      ground (arith, moved, drop-cons xs src d h)

module _ {A : Type 0} (cmp_fn : Compare A) (key : A) where
  -- The elements that are not equal to the value, in order.
  abbrev pub kept : List A → List A
  kept [] = []
  kept (a ∷ xs) = if is_zero (cmp_fn key a) then kept xs else a ∷ kept xs

  -- What the loop of `vector_remove_if` leaves.
  record Removes (size first : ℕ) (xs rest : List A) (out : ℕ × List A) : Type 0 where
    in_range : out.0 ≤ size
    same_length : length out.1 ≡ length xs
    result : take out.0 out.1 ≡ take first xs ++ kept rest

  remove_from-Removes :
      (rounds i first : ℕ) (xs : List A)
      → first < i
      → i + rounds ≤ length xs
      → (out : ℕ × List A) × (remove_from cmp_fn key rounds i first xs ≡ ok out)
        × Removes (i + rounds) first xs (take rounds (drop i xs)) out
  unfolding remove_from
  remove_from-Removes zero i first xs hi hl = (
    (first, xs),
    refl,
    record { in_range = omega arith; same_length = refl; result = sym (append-nil _) },
  )
  remove_from-Removes (suc rounds) i first xs hi hl = elim (Bool-cases (is_zero a)) [
    | inl hit ↦
        let (out, run, left) =
          remove_from-Removes rounds (i + 1) first xs (omega arith) (omega arith) in
        (
          out,
          ground (arith, read),
          record {
            in_range = omega (arith, left.in_range);
            same_length = left.same_length;
            result = left.result ∙ ap (λ ys. take first xs ++ ys) (sym (kept_hit hit));
          },
        )
    | inr miss ↦
        let (out, run, left) =
          remove_from-Removes rounds (i + 1) (first + 1) (set xs first x) (omega arith)
            (omega (arith, length-set xs first x)) in
        (
          out,
          ground (arith, read, memmove_one xs first i key (omega arith) (omega arith)),
          record {
            in_range = omega (arith, left.in_range);
            same_length = left.same_length ∙ length-set xs first x;
            result =
                left.result
                ∙ ap₂ ◌++◌ begins (
                    ap (λ ys. kept (take rounds ys)) (drop-set_lt (i + 1) first xs x (omega arith)))
                ∙ append_assoc (take first xs) (x ∷ []) _
                ∙ ap (λ ys. take first xs ++ ys) (sym (kept_miss miss));
          },
        )
  ]
    where
      x : A
      x = get_or xs i key

      a : ℤ
      a = cmp_fn key x

      read : compare_at cmp_fn key xs i ≡ ok a
      read = compare_at_lem cmp_fn key xs (length xs) i (omega arith)

      kept_hit :
          is_zero a ≡ true
          → kept (take (suc rounds) (drop i xs)) ≡ kept (take rounds (drop (i + 1) xs))
      kept_hit e = rw (take-drop_cons xs i rounds key (omega arith), e)

      kept_miss :
          is_zero a ≡ false
          → kept (take (suc rounds) (drop i xs)) ≡ x ∷ kept (take rounds (drop (i + 1) xs))
      kept_miss e = rw (take-drop_cons xs i rounds key (omega arith), e)

      begins : take (first + 1) (set xs first x) ≡ take first xs ++ (x ∷ [])
      begins =
          ap (λ n. take n (set xs first x)) {y = suc first} (omega arith)
          ∙ take-set_self first xs x (omega arith)

  kept_all :
      (xs : List A) (n : ℕ)
      → ((i : ℕ) → i < n → is_zero (cmp_fn key (get_or xs i key)) ≡ false)
      → n ≤ length xs
      → kept (take n xs) ≡ take n xs
  kept_all xs zero h k = refl
  kept_all [] (suc n) h k = refl
  kept_all (x ∷ xs) (suc n) h k =
      rw (h 0 (omega arith))
        (ap (λ ys. x ∷ ys) (kept_all xs n (λ i p. h (suc i) (omega arith)) (omega arith)))

  kept_found :
      (xs : List A) (n m : ℕ)
      → m < n
      → n ≤ length xs
      → ((i : ℕ) → i < m → is_zero (cmp_fn key (get_or xs i key)) ≡ false)
      → is_zero (cmp_fn key (get_or xs m key)) ≡ true
      → kept (take n xs) ≡ take m xs ++ kept (take (n - (m + 1)) (drop (m + 1) xs))
  kept_found [] n m hm hn h hit = absurd (omega arith)
  kept_found (x ∷ xs) zero m hm hn h hit = absurd (omega arith)
  kept_found (x ∷ xs) (suc n) zero hm hn h hit = rw hit (ap (λ k. kept (take k xs)) (omega arith))
  kept_found (x ∷ xs) (suc n) (suc m) hm hn h hit = rw (h 0 (omega arith)) (
      ap (λ ys. x ∷ ys)
        (kept_found xs n m (omega arith) (omega arith) (λ i p. h (suc i) (omega arith)) hit
          ∙ ap (λ k. take m xs ++ kept (take (n - (m + 1)) (drop k (x ∷ xs)))) {x = suc (m + 1)}
              (omega arith)
          ∙ ap (λ k. take m xs ++ kept (take k (drop (suc m + 1) (x ∷ xs)))) {x = n - (m + 1)}
              (omega arith)))

  -- `vector_remove_if` on a valid vector keeps its size, and leaves the elements that are not equal
  -- to the value at its front, in order: the returned index is their number.
  pub vector_remove_if-kept :
      {v : Vector A}
      → IsValid v
      → (r : ℕ) × (w : Vector A) × (vector_remove_if cmp_fn key (some v) ≡ ok (r, w))
        × IsValid w
        × (w.size ≡ v.size)
        × (r ≤ v.size)
        × (take r (cells w.data_block) ≡ kept (contents v))
  unfolding vector_remove_if
  vector_remove_if-kept {v} h =
      let (z, run, found) = vector_find-FindsFirst cmp_fn key h in
      elim found [
        | inl (m, e, lo, hi, hit, before) ↦
            let (out, steps, left) =
              remove_from-Removes (v.size - (m + 1)) (m + 1) m (cells v.data_block) (omega arith)
                (omega arith) in
            (
              out.0,
              record v { data_block = some out.1 },
              rw (run, e, h.block_set) (ground (arith, steps)),
              ground (arith, left.same_length),
              refl,
              omega (arith, left.in_range),
              left.result
                  ∙ sym (
                      kept_found (cells v.data_block) v.size m hi (omega arith)
                        (λ i. before i (omega arith)) hit),
            )
        | inr (e, none_left) ↦ (
          v.size,
          v,
          rw (run, e) refl,
          h,
          refl,
          omega arith,
          sym (kept_all (cells v.data_block) v.size (λ i. none_left i (omega arith)) (omega arith)),
        )
      ]
