-- ===== src/Col/Ringbuffer.antt =====
-- sdk/src/col/ringbuffer.c, with the struct of sdk/include/dslink/col/ringbuffer.h.
--
-- A `Ringbuffer*` is an `Option`, `none` for NULL. The block `data` is the list of its elements,
-- and a pointer into it is the index of the element. The calls of `cleanup_fn` that an operation
-- makes are returned as the list of the elements that it is called on, in order.
pub mod Window
pub mod Inv
pub mod Queue
pub mod Refine
pub mod Free
pub mod Trace
pub mod Assign
mod Tests
use sdk_dslink_c.Prelude.{
  ℕ, zero, suc, ◌+◌, ◌-◌, ◌%◌, ◌^◌, Bool, ◌||◌, List, [], ◌∷◌, ◌++◌, Option, none, some, ltb, leb,
  ◌==◌, if◌then◌else◌, set, get_elem?, ℤ, pos, minus_one, as_int, add32, sub32,
}
use sdk_dslink_c.Prelude.Run.{Run, ok, fault}

pub record Ringbuffer {ℓ} (A : Type ℓ) : Type ℓ where
  -- the number of elements that fit
  pub size : ℕ
  -- the index that the next push writes
  pub current : ℕ
  pub count : ℕ
  pub data_block : List A
  pub element_size : ℕ
  -- is `cleanup_fn` set?
  pub cleanup_fn : Bool

module _ {ℓ} {A : Type ℓ} where
  -- The calls of `cleanup_fn` on the element at an index: none if it is not set.
  abbrev pub cleanup : Ringbuffer A → ℕ → List A
  cleanup rb i =
      if rb.cleanup_fn then elim (get_elem? rb.data_block i) [ none ↦ [] | some a ↦ a ∷ [] ] else []

  -- `block` is what `dslink_malloc` returns. On NULL the guard's body writes through the pointer.
  unfoldable pub rb_init : Option (Ringbuffer A) → ℕ → ℕ → Bool → List A → Run (ℤ × Ringbuffer A)
  rb_init none size element_size cleanup_fn block = fault
  rb_init (some rb) size element_size cleanup_fn block =
      if size == 0 || element_size == 0
      then ok (minus_one, record rb { size = 0 })
      else ok (
        pos 0,
        record {
          size = size;
          current = 0;
          count = 0;
          data_block = block;
          element_size = element_size;
          cleanup_fn = cleanup_fn;
        },
      )

  -- The `uint32_t` is returned as an `int`.
  unfoldable pub rb_count : Option (Ringbuffer A) → ℤ
  rb_count none = minus_one
  rb_count (some rb) = if rb.size == 0 then minus_one else as_int rb.count

  -- `++current`, back to the first element at the end of the block
  abbrev pub advance : Ringbuffer A → ℕ
  advance rb = let next = add32 rb.current 1 in if next == rb.size then 0 else next

  -- The body of `rb_push` behind its guards.
  abbrev pub push_into : Ringbuffer A → A → ℤ × List A × Ringbuffer A
  push_into rb a =
      let full = rb.count == rb.size in
      (
        (if full then pos 1 else pos 0),
        (if full then cleanup rb rb.current else []),
        record rb {
          data_block = set rb.data_block rb.current a;
          current = advance rb;
          count = (if ltb rb.count rb.size then add32 rb.count 1 else rb.count);
        },
      )

  -- The returned code, the elements that are cleaned up, and the buffer behind the pointer.
  unfoldable pub rb_push : Option (Ringbuffer A) → A → ℤ × List A × Option (Ringbuffer A)
  rb_push none a = (minus_one, [], none)
  rb_push (some rb) a =
      if rb.size == 0
      then (minus_one, [], some rb)
      else let (code, cleaned, rb') = push_into rb a in (code, cleaned, some rb')

  -- The index of the oldest element, as `rb_front`, `rb_at` and `rb_pop` compute it.
  abbrev pub front_index : Ringbuffer A → ℕ
  front_index rb =
      if leb rb.count rb.current
      then sub32 rb.current rb.count
      else sub32 rb.size (sub32 rb.count rb.current)

  unfoldable pub rb_front : Option (Ringbuffer A) → Option ℕ
  rb_front none = none
  rb_front (some rb) = if rb.size == 0 || rb.count == 0 then none else some (front_index rb)

  unfoldable pub rb_at : Option (Ringbuffer A) → ℕ → Option ℕ
  rb_at none idx = none
  rb_at (some rb) idx =
      if rb.size == 0 || (rb.count == 0 || leb rb.count idx)
      then none
      else some (
          let index = front_index rb in
          if leb rb.count rb.current
          then add32 index idx
          else if leb rb.size (add32 index idx)
          then sub32 (add32 index idx) rb.size
          else add32 index idx)

  unfoldable pub rb_pop : Option (Ringbuffer A) → ℤ × List A × Option (Ringbuffer A)
  rb_pop none = (minus_one, [], none)
  rb_pop (some rb) =
      if rb.size == 0
      then (minus_one, [], some rb)
      else if ltb 0 rb.count
      then (pos 0, cleanup rb (front_index rb), some (record rb { count = sub32 rb.count 1 }))
      else (minus_one, [], some rb)

  -- `while(rb_count(rb)) rb_pop(rb);` on fuel: `none` if the fuel does not suffice.
  unfoldable pub pop_all : ℕ → Option (Ringbuffer A) → Option (List A × Option (Ringbuffer A))
  pop_all zero rb = none
  pop_all (suc fuel) rb = elim (rb_count rb) [
    | pos zero ↦ some ([], rb)
    | _ ↦
        let (_, cleaned, rb') = rb_pop rb in
        elim (pop_all fuel rb') [ none ↦ none | some (later, end) ↦ some (cleaned ++ later, end) ]
  ]

  -- The code, and the elements that are cleaned up before the block is given back.
  unfoldable pub rb_free : ℕ → Option (Ringbuffer A) → Option (ℤ × List A)
  rb_free fuel none = some (minus_one, [])
  rb_free fuel (some rb) =
      if rb.size == 0
      then some (minus_one, [])
      else elim (pop_all fuel (some rb)) [ none ↦ none | some (cleaned, _) ↦ some (pos 0, cleaned) ]
