-- ===== src/Col/Vector/Erase.antt =====
-- What `vector_erase` and `vector_erase_range` remove, and where they leave the block.
use sdk_dslink_c.Prelude.{
  ℕ, ◌+◌, ◌-◌, ◌^◌, ◌≤◌, ◌<◌, ◌≡◌, sym, ap, ap₂, ◌∙◌, ◌⊎◌, List, ◌++◌, some, arith, length, take,
  drop, length-take, length-drop, length-append, take-append_ge, take-append_le, take-take,
  take-drop, pos, minus_one,
}
use sdk_dslink_c.Prelude.Run.{ok, fault}
use sdk_dslink_c.Col.Vector.{Vector, vector_erase, vector_erase_range}
use sdk_dslink_c.Col.Vector.Inv.{cells, contents, IsValid}

module _ {A : Type 0} where
  -- The block after `memmove` of `n` elements from `src` to `dst`.
  abbrev moved : List A → ℕ → ℕ → ℕ → List A
  moved xs dst src n = take dst xs ++ (take n (drop src xs) ++ drop (dst + n) xs)

  length-moved :
      (xs : List A) (dst src n : ℕ)
      → src + n ≤ length xs
      → dst + n ≤ length xs
      → length (moved xs dst src n) ≡ length xs
  length-moved xs dst src n h k = omega (
    arith,
    length-append (take dst xs) (take n (drop src xs) ++ drop (dst + n) xs),
    length-append (take n (drop src xs)) (drop (dst + n) xs),
    length-take dst xs,
    length-take n (drop src xs),
    length-drop src xs,
    length-drop (dst + n) xs,
  )

  -- The first elements after a move to the left that closes a gap from `dst` to `src`.
  take-moved :
      (xs : List A) (dst src n size : ℕ)
      → dst ≤ src
      → src ≤ size
      → size ≤ length xs
      → src + n ≤ length xs
      → size ≤ src + n
      → take (size - (src - dst)) (moved xs dst src n)
        ≡ take dst (take size xs) ++ drop src (take size xs)
  take-moved xs dst src n size hd hs hl hn hk =
      take-append_ge (size - (src - dst)) (take dst xs) rest (omega (arith, length-take dst xs))
      ∙ ap₂ ◌++◌ (sym (take-take dst size xs (omega arith))) (
          ap (λ k. take k rest) (omega (arith, length-take dst xs))
          ∙ take-append_le m (take n (drop src xs)) (drop (dst + n) xs)
              (omega (arith, length-take n (drop src xs), length-drop src xs))
          ∙ take-take m n (drop src xs) (omega arith)
          ∙ take-drop m src xs
          ∙ ap (λ k. drop src (take k xs)) (omega arith))
    where
      rest : List A
      rest = take n (drop src xs) ++ drop (dst + n) xs

      m : ℕ
      m = size - src

  -- `vector_erase` removes the element at an index, unless it is the last one: for that and for
  -- any index behind it the call returns -1 and changes nothing. On an empty vector it moves
  -- elements from outside the block.
  pub vector_erase-removes :
      {v : Vector A} (i : ℕ)
      → IsValid v
      → (i + 1 < v.size
          → (w : Vector A) × (vector_erase (some v) i ≡ ok (pos 0, some w))
            × IsValid w
            × (contents w ≡ take i (contents v) ++ drop (i + 1) (contents v)))
        × (0 < v.size → v.size ≤ i + 1 → vector_erase (some v) i ≡ ok (minus_one, some v))
        × (v.size ≡ 0 → i + 1 < 2 ^ 32 → vector_erase (some v) i ≡ fault)
  unfolding vector_erase
  vector_erase-removes {v} i h = (
    λ inside. (
      record v { data_block = some (moved xs i (i + 1) (v.size - (i + 1))); size = v.size - 1 },
      rw h.block_set (ground arith),
      ground (arith, length-moved xs i (i + 1) (v.size - (i + 1))),
      ap (λ k. take k (moved xs i (i + 1) (v.size - (i + 1)))) (omega arith)
          ∙ take-moved xs i (i + 1) (v.size - (i + 1)) v.size (omega arith) (omega arith)
              (omega arith) (omega arith) (omega arith),
    ),
    λ some_left out. ground arith,
    λ empty small. rw h.block_set (ground arith),
  )
    where
      xs : List A
      xs = cells v.data_block

  -- The elements that `vector_erase_range` moves, from `upper` on: one more than are in use, and
  -- `lower` more than that.
  abbrev tail_moved : Vector A → ℕ → ℕ → ℕ
  tail_moved v lower upper = v.size - (upper - 1 - lower)

  pub vector_erase_range-removes :
      {v : Vector A} (lower upper : ℕ)
      → IsValid v
      → ((0 < v.size) × (v.size ≤ lower) ⊎ (upper ≤ lower)
          → vector_erase_range (some v) lower upper ≡ ok (minus_one, some v))
        × (lower < v.size
            → v.size ≤ upper
            → (w : Vector A) × (vector_erase_range (some v) lower upper ≡ ok (pos 0, some w))
              × IsValid w
              × (contents w ≡ take lower (contents v)))
        × (lower < upper
            → upper < v.size
            → v.size + lower + 1 ≤ v.capacity
            → (w : Vector A) × (vector_erase_range (some v) lower upper ≡ ok (pos 0, some w))
              × IsValid w
              × (contents w ≡ take lower (contents v) ++ drop upper (contents v)))
        × (lower < upper
            → upper < v.size
            → v.capacity < v.size + lower + 1
            → vector_erase_range (some v) lower upper ≡ fault)
        × (v.size ≡ 0
            → lower < upper
            → lower < 2 ^ 32
            → vector_erase_range (some v) lower upper
              ≡ ok (pos 0, some (record v { size = lower })))
  unfolding vector_erase_range
  vector_erase_range-removes {v} lower upper h = (
    λ bad. ground arith,
    λ inside end. (
      record v { size = lower },
      rw h.block_set (ground arith),
      ground arith,
      sym (take-take lower v.size xs (omega arith)),
    ),
    λ order inside room. (
      record v {
        data_block = some (moved xs lower upper (tail_moved v lower upper));
        size = v.size - (upper - lower);
      },
      rw h.block_set (ground arith),
      ground (arith, length-moved xs lower upper (tail_moved v lower upper)),
      take-moved xs lower upper (tail_moved v lower upper) v.size (omega arith) (omega arith)
          (omega arith) (omega arith) (omega arith),
    ),
    λ order inside no_room. rw h.block_set (ground arith),
    λ empty order small. rw h.block_set (ground arith),
  )
    where
      xs : List A
      xs = cells v.data_block
