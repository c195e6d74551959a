-- ===== src/Col/Vector.antt =====
-- sdk/src/col/vector.c, with the struct of sdk/include/dslink/col/vector.h: storage and updates.
-- The searches are in Vector/Search.
--
-- A `Vector*` is an `Option`, `none` for NULL. The block `data` is the list of its elements, and a
-- pointer into it is the index of the element. A read or write outside the block is a fault.
-- `dslink_malloc` and `dslink_realloc` are parameters: what they return for a number of elements.
pub mod Inv
pub mod Erase
pub mod Search
pub mod Sorted
pub mod Lookup
pub mod Find
pub mod RemoveIf
mod Tests
use sdk_dslink_c.Prelude.{
  ℕ, ◌*◌, ◌^◌, ◌%◌, not, ◌&&◌, ◌||◌, List, Option, none, some, ltb, leb, ◌==◌, if◌then◌else◌, ℤ,
  pos, minus_one, add32, sub32, is_zero,
}
use sdk_dslink_c.Prelude.Run.{Run, ok, fault, ◌>>=◌, store, memmove}

pub record Vector {ℓ} (A : Type ℓ) : Type ℓ where
  pub size : ℕ
  pub capacity : ℕ
  -- `none` for NULL
  pub data_block : Option (List A)
  pub element_size : ℕ

-- The capacity that a full vector grows to.
abbrev pub grown : ℕ → ℕ
grown capacity = let cap = (capacity * 2) % 2 ^ 32 in if cap == 0 then 64 else cap

-- The last index that `vector_erase_range` removes.
abbrev pub upper_index : ℕ → ℕ → ℕ
upper_index size upper = if leb size upper then sub32 size 1 else sub32 upper 1

-- `dslink_realloc`: from a block (`none` for NULL) and a number of elements to the new block.
abbrev pub Realloc {ℓ} : Type ℓ → Type ℓ
Realloc A = Option (List A) → ℕ → Option (List A)

module _ {ℓ} {A : Type ℓ} where
  -- The block that `vec->data` points to.
  abbrev pub block : Vector A → Run (List A)
  block v = elim v.data_block [ none ↦ fault | some xs ↦ ok xs ]

  -- `block` is what `dslink_malloc` returns for `initial_size` elements.
  unfoldable pub vector_init : Option (Vector A) → ℕ → ℕ → Option (List A) → ℤ × Option (Vector A)
  vector_init none initial_size element_size xs = (minus_one, none)
  vector_init (some v) initial_size element_size none =
      (minus_one, some (record v { data_block = none }))
  vector_init (some v) initial_size element_size (some xs) = (
    pos 0,
    some (record {
      size = 0;
      capacity = initial_size;
      data_block = some xs;
      element_size = element_size;
    }),
  )

  unfoldable pub vector_count : Option (Vector A) → ℕ
  vector_count none = 0
  vector_count (some v) = v.size

  unfoldable pub vector_resize : Realloc A → Option (Vector A) → ℤ × Option (Vector A)
  vector_resize realloc none = (minus_one, none)
  vector_resize realloc (some v) =
      if leb v.capacity v.size
      then (elim (realloc v.data_block (grown v.capacity)) [
        | none ↦ (minus_one, some v)
        | some xs ↦ (pos 0, some (record v { data_block = some xs; capacity = grown v.capacity }))
      ])
      else (pos 0, some v)

  -- The copy of the element behind the last one.
  abbrev pub append_raw : Vector A → A → Run (ℤ × Option (Vector A))
  append_raw v a = do
    xs ← block v
    ys ← store xs v.size a
    ok (
      pos (sub32 (add32 v.size 1) 1),
      some (record v { data_block = some ys; size = add32 v.size 1 }),
    )

  unfoldable pub vector_append : Realloc A → Option (Vector A) → A → Run (ℤ × Option (Vector A))
  unfolding vector_resize
  vector_append realloc none a = ok (minus_one, none)
  vector_append realloc (some v) a =
      if leb v.capacity v.size
      then (let (code, v') = vector_resize realloc (some v) in
          if not (is_zero code)
          then ok (minus_one, v')
          else elim v' [ none ↦ fault | some w ↦ append_raw w a ])
      else append_raw v a

  -- The two vectors after the call.
  unfoldable pub vector_swap :
      Option (Vector A) → Option (Vector A) → ℤ × Option (Vector A) × Option (Vector A)
  vector_swap none w = (minus_one, none, w)
  vector_swap (some v) none = (minus_one, some v, none)
  vector_swap (some v) (some w) =
      if not (v.element_size == w.element_size)
      then (minus_one, some v, some w)
      else (pos 0, some w, some v)

  unfoldable pub vector_set : Option (Vector A) → ℕ → A → Run (ℤ × Option (Vector A))
  vector_set none index a = ok (minus_one, none)
  vector_set (some v) index a = if leb v.size index then ok (minus_one, some v) else do
    xs ← block v
    ys ← store xs index a
    ok (pos 0, some (record v { data_block = some ys }))

  unfoldable pub vector_get : Option (Vector A) → ℕ → Option ℕ
  vector_get none index = none
  vector_get (some v) index = if leb v.size index then none else some index

  unfoldable pub vector_erase : Option (Vector A) → ℕ → Run (ℤ × Option (Vector A))
  vector_erase none index = ok (minus_one, none)
  vector_erase (some v) index = if leb (sub32 v.size 1) index then ok (minus_one, some v) else do
    xs ← block v
    ys ←
        (if not (index == sub32 v.size 1)
          then memmove xs index (add32 index 1) (sub32 v.size (add32 index 1))
          else ok xs)
    ok (pos 0, some (record v { data_block = some ys; size = sub32 v.size 1 }))

  unfoldable pub vector_erase_range : Option (Vector A) → ℕ → ℕ → Run (ℤ × Option (Vector A))
  vector_erase_range none lower upper = ok (minus_one, none)
  vector_erase_range (some v) lower upper =
      if ltb (sub32 v.size 1) lower || leb upper lower
      then ok (minus_one, some v)
      else let last = upper_index v.size upper in
        if lower == 0 && last == v.size then ok (pos 0, some (record v { size = 0 })) else do
          xs ← block v
          ys ←
              (if ltb last (sub32 v.size 1)
                then memmove xs lower (add32 last 1) (sub32 v.size (sub32 last lower))
                else ok xs)
          ok (
            pos 0,
            some (record v {
              data_block = some ys;
              size = sub32 v.size (add32 (sub32 last lower) 1);
            }),
          )

  unfoldable pub vector_free : Option (Vector A) → ℤ × Option (Vector A)
  vector_free none = (minus_one, none)
  vector_free (some v) = (pos 0, some (record v { data_block = none; size = 0; capacity = 0 }))
