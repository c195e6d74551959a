-- ===== src/Col/Vector/Search.antt =====
-- The searches of sdk/src/col/vector.c. A comparison function takes the searched value and an
-- element, and returns a C `int`, of which the code looks at the sign.
use sdk_dslink_c.Prelude.{
  ℕ, zero, suc, ◌+◌, ◌-◌, ◌/◌, not, ◌||◌, List, Option, none, some, ltb, leb, ◌==◌, if◌then◌else◌,
  ℤ, pos, negsuc, minus_one, add32, sub32, is_zero, is_positive, is_natural, true, false,
}
use sdk_dslink_c.Prelude.Run.{Run, ok, fault, out_of_fuel, ◌>>=◌, load, memmove}
use sdk_dslink_c.Col.Vector.{Vector, block}

abbrev pub Compare {ℓ} : Type ℓ → Type ℓ
Compare A = A → A → ℤ

module _ {ℓ} {A : Type ℓ} (cmp_fn : Compare A) (key : A) where
  -- `cmp_fn(data, element_ptr(vec, i))`
  abbrev pub compare_at : List A → ℕ → Run ℤ
  compare_at xs i = do a ← load xs i; ok (cmp_fn key a)

  -- The loop of `vector_find`, with the rounds that are left.
  unfoldable pub find_from : List A → ℕ → ℕ → Run ℤ
  find_from xs zero n = ok minus_one
  find_from xs (suc rounds) n = do
    res ← compare_at xs n
    elim (is_zero res) [ true ↦ ok (pos n) | false ↦ find_from xs rounds (n + 1) ]

  unfoldable pub vector_find : Option (Vector A) → Run ℤ
  vector_find none = ok minus_one
  vector_find (some v) =
      if v.size == 0 then ok minus_one else do xs ← block v; find_from xs v.size 0

  -- The loop `for (i = first; ++i != size; )` of `vector_remove_if`, with the rounds that are
  -- left: the final `first`, and the block.
  unfoldable pub remove_from : ℕ → ℕ → ℕ → List A → Run (ℕ × List A)
  remove_from zero i first xs = ok (first, xs)
  remove_from (suc rounds) i first xs = do
    res ← compare_at xs i
    elim (is_zero res) [
      | true ↦ remove_from rounds (i + 1) first xs
      | false ↦ do ys ← memmove xs first i 1; remove_from rounds (i + 1) (first + 1) ys
    ]

  -- The returned index, and the vector, whose block is reordered. On NULL the search returns -1,
  -- and the code then reads the size through the pointer.
  unfoldable pub vector_remove_if : Option (Vector A) → Run (ℕ × Vector A)
  unfolding vector_find
  vector_remove_if none = fault
  vector_remove_if (some v) = do
    found ← vector_find (some v)
    elim found [
      | negsuc _ ↦ ok (v.size, v)
      | pos first ↦ do
        xs ← block v
        (first', ys) ← remove_from (v.size - (first + 1)) (first + 1) first xs
        ok (first', record v { data_block = some ys })
    ]

  -- `while(l <= r)` of `vector_binary_search_range`, on fuel.
  unfoldable pub search_between : ℕ → List A → ℕ → ℕ → Run ℤ
  search_between zero xs l r = out_of_fuel
  search_between (suc fuel) xs l r = elim (leb l r) [
    | false ↦ ok minus_one
    | true ↦ do
      let m = add32 l r / 2
      res ← compare_at xs m
      elim (is_zero res) [
        | true ↦ ok (pos m)
        | false ↦ elim (is_positive res) [
          | true ↦ search_between fuel xs (add32 m 1) r
          | false ↦ search_between fuel xs l (sub32 m 1)
        ]
      ]
  ]

  unfoldable pub vector_binary_search_range : ℕ → Option (Vector A) → ℕ → ℕ → Run ℤ
  vector_binary_search_range fuel none lower r = ok minus_one
  vector_binary_search_range fuel (some v) lower r =
      if v.size == 0 || (r == 0 || leb r lower) then ok minus_one else do
        xs ← block v
        first ← compare_at xs lower
        (if not (is_positive first) then ok (if is_zero first then pos lower else minus_one) else do
          let r' = if leb v.size r then sub32 v.size 1 else sub32 r 1
          last ← compare_at xs r'
          (if is_natural last
              then ok (if is_zero last then pos r' else minus_one)
              else search_between fuel xs lower r'))

  unfoldable pub vector_binary_search : ℕ → Option (Vector A) → Run ℤ
  unfolding vector_binary_search_range
  vector_binary_search fuel none = ok minus_one
  vector_binary_search fuel (some v) =
      if v.size == 0 then ok minus_one else vector_binary_search_range fuel (some v) 0 v.size

  -- `while (count > 0)` of `vector_upper_bound_range`, on fuel.
  unfoldable pub bound_within : ℕ → List A → ℕ → ℕ → Run ℕ
  bound_within zero xs first count = out_of_fuel
  bound_within (suc fuel) xs first count = elim (ltb 0 count) [
    | false ↦ ok first
    | true ↦ do
      let step = count / 2
      let it = add32 first step
      res ← compare_at xs it
      elim (is_natural res) [
        | true ↦ bound_within fuel xs (add32 it 1) (sub32 count (add32 step 1))
        | false ↦ bound_within fuel xs first step
      ]
  ]

  unfoldable pub vector_upper_bound_range : ℕ → Option (Vector A) → ℕ → ℕ → Run ℕ
  vector_upper_bound_range fuel none first last = ok first
  vector_upper_bound_range fuel (some v) first last =
      if v.size == 0 || last == 0
      then ok first
      else let last' = if ltb v.size last then v.size else last in
        if leb last' first
        then ok last'
        else do xs ← block v; bound_within fuel xs first (sub32 last' first)

  unfoldable pub vector_upper_bound : ℕ → Option (Vector A) → Run ℕ
  unfolding vector_upper_bound_range
  vector_upper_bound fuel none = ok 0
  vector_upper_bound fuel (some v) =
      if v.size == 0 then ok 0 else vector_upper_bound_range fuel (some v) 0 v.size
