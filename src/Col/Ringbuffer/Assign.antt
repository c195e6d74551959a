-- ===== src/Col/Ringbuffer/Assign.antt =====
-- An assignment through a pointer that rb_at or rb_front returned, as subscription.c makes it.
use sdk_dslink_c.Prelude.{
  ℕ, zero, suc, ◌+◌, ◌-◌, ◌≤◌, ◌<◌, ◌≡◌, refl, ap₂, List, ◌∷◌, some, arith, length, get_or, set,
  get_or-set_self, get_or-set_ne, length-set,
}
use sdk_dslink_c.Col.Ringbuffer.{Ringbuffer, rb_at}
use sdk_dslink_c.Col.Ringbuffer.Inv.{IsValid}
use sdk_dslink_c.Col.Ringbuffer.Window.{wrap, next, window}
use sdk_dslink_c.Col.Ringbuffer.Refine.{start, contents}

module _ {A : Type 0} (d : A) where
  -- A write behind a window, in the same round, leaves it as it is.
  window-set_behind :
      (buf : List A) (size h n j i : ℕ) (x : A)
      → h < size
      → n ≤ j
      → j < size
      → i ≡ wrap size (h + j)
      → window d (set buf i x) size h n ≡ window d buf size h n
  window-set_behind buf size h zero j i x hh hn hj e = refl
  window-set_behind buf size h (suc n) j i x hh hn hj e =
      ap₂ ◌∷◌ (get_or-set_ne buf i h x d (ground arith)) (
        window-set_behind buf size (next size h) n (j - 1) i x (ground arith) (omega arith)
          (omega arith) (ground arith))

  window-set_inside :
      (buf : List A) (size h n k i : ℕ) (x : A)
      → size ≤ length buf
      → h < size
      → n ≤ size
      → k < n
      → i ≡ wrap size (h + k)
      → window d (set buf i x) size h n ≡ set (window d buf size h n) k x
  window-set_inside buf size h zero k i x hs hh hn hk e = absurd (omega arith)
  window-set_inside buf size h (suc n) zero i x hs hh hn hk e =
      ap₂ ◌∷◌ (at_start (ground arith)) (after (ground arith))
    where
      at_start : i ≡ h → get_or (set buf i x) h d ≡ x
      at_start p = rw p (get_or-set_self buf h x d (omega arith))

      after :
          i ≡ wrap size (next size h + (size - 1))
          → window d (set buf i x) size (next size h) n ≡ window d buf size (next size h) n
      after p =
          window-set_behind buf size (next size h) n (size - 1) i x (ground arith) (omega arith)
            (omega arith) p
  window-set_inside buf size h (suc n) (suc k) i x hs hh hn hk e =
      ap₂ ◌∷◌ (get_or-set_ne buf i h x d (ground arith)) (
        window-set_inside buf size (next size h) n k i x hs (ground arith) (omega arith)
          (omega arith) (ground arith))

  -- The buffer with the element of an index of its block replaced.
  abbrev pub assigned : Ringbuffer A → ℕ → A → Ringbuffer A
  assigned rb i x = record rb { data_block = set rb.data_block i x }

  pub assigned-IsValid :
      {rb : Ringbuffer A} (i : ℕ) (x : A) → IsValid rb → IsValid (assigned rb i x)
  assigned-IsValid {rb} i x v = ground (arith, length-set rb.data_block i x)

  -- Where rb_at leads for a position in use.
  abbrev pub slot : Ringbuffer A → ℕ → ℕ
  slot rb k = wrap rb.size (start d rb + k)

  pub rb_at-slot :
      {rb : Ringbuffer A} (k : ℕ) → IsValid rb → k < rb.count → rb_at (some rb) k ≡ some (slot rb k)
  unfolding rb_at
  rb_at-slot k v h = ground arith

  -- Assigning through the pointer of rb_at replaces that element of the queue.
  pub contents-assigned :
      {rb : Ringbuffer A} (k : ℕ) (x : A)
      → IsValid rb
      → k < rb.count
      → contents d (assigned rb (slot rb k) x) ≡ set (contents d rb) k x
  contents-assigned {rb} k x v h =
      window-set_inside rb.data_block rb.size (start d rb) rb.count k (slot rb k) x
        (omega (arith, v.storage)) (ground arith) (omega (arith, v.count_in)) h refl
