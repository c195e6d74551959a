-- ===== src/Col/Ringbuffer/Inv.antt =====
-- The representation invariant of `Ringbuffer`, and that every operation keeps it.
use sdk_dslink_c.Prelude.{
  ℕ, ◌≤◌, ◌<◌, ◌^◌, ◌≡◌, Bool, List, Option, none, some, arith, length, length-set, pos,
}
use sdk_dslink_c.Prelude.Run.{ok}
use sdk_dslink_c.Col.Ringbuffer.{Ringbuffer, rb_init, rb_push, rb_pop}

module _ {ℓ} {A : Type ℓ} where
  -- `size < 2 ^ 31` keeps the `uint32_t` sum of `rb_at` from wrapping, and the `int` of `rb_count` from being negative.
  pub record IsValid (rb : Ringbuffer A) : Type 0 where
    pub storage : length rb.data_block ≡ rb.size
    pub small : rb.size < 2 ^ 31
    pub current_in : rb.current < rb.size
    pub count_in : rb.count ≤ rb.size

  -- The buffer behind a pointer that is not NULL is valid.
  abbrev pub Valid : Option (Ringbuffer A) → Type 0
  Valid none = ⊥
  Valid (some rb) = IsValid rb

  -- `rb_push` keeps the invariant.
  pub rb_push-Valid : {rb : Ringbuffer A} (a : A) → IsValid rb → Valid (rb_push (some rb) a).2
  unfolding rb_push
  rb_push-Valid {rb} a v = ground (arith, length-set rb.data_block rb.current a)

  -- `rb_pop` keeps the invariant.
  pub rb_pop-Valid : {rb : Ringbuffer A} → IsValid rb → Valid (rb_pop (some rb)).2
  unfolding rb_pop
  rb_pop-Valid v = ground arith

  -- Where `rb_init` returns 0, for a block of the requested size and a size below 2 ^ 31, the buffer
  -- is valid and empty.
  pub rb_init-IsValid :
      (old : Ringbuffer A) (size es : ℕ) (cleanup : Bool) (block : List A) {rb : Ringbuffer A}
      → length block ≡ size
      → size < 2 ^ 31
      → rb_init (some old) size es cleanup block ≡ ok (pos 0, rb)
      → IsValid rb × (rb.count ≡ 0)
  unfolding rb_init
  rb_init-IsValid old size es cleanup block h s e = ground arith
