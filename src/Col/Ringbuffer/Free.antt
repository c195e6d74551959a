-- ===== src/Col/Ringbuffer/Free.antt =====
-- `rb_free` drains the buffer: its loop ends, and every element is cleaned up, oldest first.
use sdk_dslink_c.Prelude.{
  ℕ, zero, suc, ◌-◌, ◌<◌, ◌≡◌, ap, ◌≢◌, ◌∙◌, List, [], ◌∷◌, some, arith, ◌==◌, Bool-cases, inl, inr,
  if◌then◌else◌, pos, get_or, get_elem?-eq-get_or,
}
use sdk_dslink_c.Col.Ringbuffer.{Ringbuffer, rb_count, rb_pop, pop_all, rb_free}
use sdk_dslink_c.Col.Ringbuffer.Inv.{IsValid}
use sdk_dslink_c.Col.Ringbuffer.Refine.{contents, start, front_index-start}
use sdk_dslink_c.Col.Ringbuffer.Window.{window, next}

module _ {A : Type 0} (d : A) where
  -- The elements that reach `cleanup_fn`.
  abbrev pub notified : Ringbuffer A → List A → List A
  notified rb q = if rb.cleanup_fn then q else []

  abbrev pub popped : Ringbuffer A → Ringbuffer A
  popped rb = record rb { count = rb.count - 1 }

  pub contents-popped :
      (rb : Ringbuffer A)
      → IsValid rb
      → rb.count ≢ 0
      → contents d rb ≡ get_or rb.data_block (start d rb) d ∷ contents d (popped rb)
  contents-popped rb v h =
      ap (window d rb.data_block rb.size (start d rb)) {y = suc (rb.count - 1)} (omega arith)
      ∙ ap
          (λ i.
            get_or rb.data_block (start d rb) d ∷ window d rb.data_block rb.size i (rb.count - 1))
          {x = next rb.size (start d rb)} {y = start d (popped rb)} (ground arith)

  pub rb_pop_lem :
      (rb : Ringbuffer A)
      → IsValid rb
      → rb.count ≢ 0
      → rb_pop (some rb)
        ≡ (pos 0, notified rb (get_or rb.data_block (start d rb) d ∷ []), some (popped rb))
  unfolding rb_pop
  rb_pop_lem rb v h =
      ground (arith, front_index-start d v, get_elem?-eq-get_or rb.data_block (start d rb) d)

  pub pop_all_lem :
      (fuel : ℕ) (rb : Ringbuffer A)
      → IsValid rb
      → rb.count < fuel
      → pop_all fuel (some rb) ≡ some (notified rb (contents d rb), some (record rb { count = 0 }))
  unfolding pop_all rb_count
  pop_all_lem zero rb v h = absurd (omega arith)
  pop_all_lem (suc fuel) rb v h = elim (Bool-cases (rb.count == 0)) [
    | inl e ↦ ground arith
    | inr ne ↦ ground (
      arith,
      rb_pop_lem rb v,
      contents-popped rb v,
      pop_all_lem fuel (popped rb) (ground arith) (ground arith),
    )
  ]

  -- `rb_free` on a valid buffer returns 0, for any fuel above the number of elements, and cleans up
  -- each element that it holds, oldest first.
  pub rb_free-cleans :
      (fuel : ℕ) (rb : Ringbuffer A)
      → IsValid rb
      → rb.count < fuel
      → rb_free fuel (some rb) ≡ some (pos 0, notified rb (contents d rb))
  unfolding rb_free
  rb_free-cleans fuel rb v h = ground (arith, pop_all_lem fuel rb v h)
