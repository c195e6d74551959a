-- ===== src/Col/Ringbuffer/Refine.antt =====
-- A valid ring buffer behaves as the bounded queue of the elements that it holds.
use sdk_dslink_c.Prelude.{
  ℕ, suc, ◌+◌, ◌-◌, ◌≡◌, ap, ap₂, ◌≢◌, List, [], ◌∷◌, Option, none, some, arith, ◌==◌, Bool-cases,
  inl, inr, length, get_elem?, get_or, get_elem?-eq-get_or,
}
use sdk_dslink_c.Col.Ringbuffer.{Ringbuffer, rb_push, rb_pop, rb_front, rb_at, front_index}
use sdk_dslink_c.Col.Ringbuffer.Window.{
  wrap, next, window, length-window, get_elem?-window, get_elem?-window_end, window-set,
}
use sdk_dslink_c.Col.Ringbuffer.Inv.{IsValid}
use sdk_dslink_c.Col.Ringbuffer.Queue
use sdk_dslink_c.Col.Ringbuffer.Queue.{tail, first}

-- The element that a pointer of `rb_at` or `rb_front` leads to.
abbrev pub deref {ℓ} : {A : Type ℓ} → Ringbuffer A → Option ℕ → Option A
deref rb none = none
deref rb (some i) = get_elem? rb.data_block i

module _ {A : Type 0} (d : A) where
  abbrev pub start : Ringbuffer A → ℕ
  start rb = wrap rb.size (rb.current + rb.size - rb.count)

  abbrev pub contents : Ringbuffer A → List A
  contents rb = window d rb.data_block rb.size (start rb) rb.count

  -- What a pointer to a buffer holds; nothing behind NULL.
  abbrev pub holds : Option (Ringbuffer A) → List A
  holds none = []
  holds (some rb) = contents rb

  pub length-contents : (rb : Ringbuffer A) → length (contents rb) ≡ rb.count
  length-contents rb = length-window d rb.data_block rb.size (start rb) rb.count

  pub front_index-start :
      {rb : Ringbuffer A} → IsValid rb → rb.count ≢ 0 → front_index rb ≡ start rb
  front_index-start v h = ground arith

  window_cons :
      (rb : Ringbuffer A)
      → rb.count ≢ 0
      → contents rb
        ≡ get_or rb.data_block (start rb) d
          ∷ window d rb.data_block rb.size (next rb.size (start rb)) (rb.count - 1)
  window_cons rb h =
      ap (window d rb.data_block rb.size (start rb)) {y = suc (rb.count - 1)} (omega arith)

  -- The contents of a full buffer, from its oldest element on.
  contents_full :
      (rb : Ringbuffer A) (m : ℕ)
      → IsValid rb
      → rb.count ≡ rb.size
      → rb.size ≡ suc m
      → contents rb
        ≡ get_or rb.data_block rb.current d
          ∷ window d rb.data_block rb.size (next rb.size rb.current) m
  contents_full rb m v f e =
      ap₂ (window d rb.data_block rb.size) {x = start rb} {y = rb.current} {u = rb.count}
        {v = suc m} (ground arith) (omega arith)

  -- `rb_push` behaves as the queue's `push`: code, dropped element and contents.
  pub rb_push-refines :
      {rb : Ringbuffer A} (a : A)
      → IsValid rb
      → let (code, cleaned, rb') = rb_push (some rb) a in
        (code, cleaned, holds rb') ≡ Queue.push rb.cleanup_fn rb.size (contents rb) a
  unfolding rb_push Queue.push
  rb_push-refines {rb} a v = elim (Bool-cases (rb.count == rb.size)) [
    | inl full ↦ ground (
      arith,
      length-contents rb,
      contents_full rb (rb.size - 1) v,
      get_elem?-eq-get_or rb.data_block rb.current d,
      window-set d rb.data_block rb.size (next rb.size rb.current) (rb.size - 1) rb.current a,
    )
    | inr room ↦ ground (
      arith,
      length-contents rb,
      window-set d rb.data_block rb.size (start rb) rb.count rb.current a,
    )
  ]

  -- `rb_pop` behaves as the queue's `pop`.
  pub rb_pop-refines :
      {rb : Ringbuffer A}
      → IsValid rb
      → let (code, cleaned, rb') = rb_pop (some rb) in
        (code, cleaned, holds rb') ≡ Queue.pop rb.cleanup_fn (contents rb)
  unfolding rb_pop Queue.pop
  rb_pop-refines {rb} v =
      ground
        (arith, window_cons rb, front_index-start v, get_elem?-eq-get_or rb.data_block (start rb) d)

  -- The pointer of `rb_at` leads to the element of that position in the queue, and is NULL past
  -- its end. `rb_front` is `rb_at` at 0.
  pub rb_at-refines :
      {rb : Ringbuffer A} (idx : ℕ)
      → IsValid rb
      → deref rb (rb_at (some rb) idx) ≡ get_elem? (contents rb) idx
  unfolding rb_at
  rb_at-refines {rb} idx v = ground (
    arith,
    get_elem?-window_end d rb.data_block rb.size (start rb) rb.count idx,
    get_elem?-window d rb.data_block rb.size (start rb) rb.count idx,
    get_elem?-eq-get_or rb.data_block (wrap rb.size (start rb + idx)) d,
  )

  pub rb_front-rb_at : {rb : Ringbuffer A} → IsValid rb → rb_front (some rb) ≡ rb_at (some rb) 0
  unfolding rb_front rb_at
  rb_front-rb_at v = ground arith
