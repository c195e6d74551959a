-- ===== src/Col/Ringbuffer/Trace.antt =====
-- Sequences of calls on one ring buffer, compared with the same calls on the bounded queue.
use sdk_dslink_c.Prelude.{
  ℕ, ◌≡◌, refl, Bool, false, List, [], ◌∷◌, Option, none, some, arith, length, get_elem?, ℤ, pos,
}
use sdk_dslink_c.Col.Ringbuffer.{Ringbuffer, rb_count, rb_push, rb_pop, rb_front, rb_at}
use sdk_dslink_c.Col.Ringbuffer.Inv.{IsValid, Valid, rb_push-Valid, rb_pop-Valid}
use sdk_dslink_c.Col.Ringbuffer.Queue
use sdk_dslink_c.Col.Ringbuffer.Refine.{
  contents, holds, deref, length-contents, rb_push-refines, rb_pop-refines, rb_at-refines,
  rb_front-rb_at,
}

-- What a client can call.
pub data Op (A : Type 0) : Type 0 where
  push : A → Op A
  pop front count : Op A
  at : ℕ → Op A

-- What it sees of a call: the code, the elements cleaned up, and the element pointed to.
abbrev pub Reply : Type 0 → Type 0
Reply A = ℤ × List A × Option A

module _ {A : Type 0} where
  -- One call on a buffer that is not NULL.
  unfoldable pub call : Ringbuffer A → Op A → Reply A × Option (Ringbuffer A)
  call rb (push a) = let (code, cleaned, rb') = rb_push (some rb) a in ((code, cleaned, none), rb')
  call rb pop = let (code, cleaned, rb') = rb_pop (some rb) in ((code, cleaned, none), rb')
  call rb front = ((pos 0, [], deref rb (rb_front (some rb))), some rb)
  call rb count = ((rb_count (some rb), [], none), some rb)
  call rb (at i) = ((pos 0, [], deref rb (rb_at (some rb) i)), some rb)

  unfoldable pub run : Option (Ringbuffer A) → List (Op A) → List (Reply A)
  unfolding call
  run none ops = []
  run (some rb) [] = []
  run (some rb) (op ∷ ops) = let (reply, rb') = call rb op in reply ∷ run rb' ops

  -- The same call on a queue.
  unfoldable pub queue_call : ℕ → Bool → List A → Op A → Reply A × List A
  queue_call cap notify q (push a) =
      let (code, dropped, q') = Queue.push notify cap q a in ((code, dropped, none), q')
  queue_call cap notify q pop =
      let (code, popped, q') = Queue.pop notify q in ((code, popped, none), q')
  queue_call cap notify q front = ((pos 0, [], get_elem? q 0), q)
  queue_call cap notify q count = ((pos (length q), [], none), q)
  queue_call cap notify q (at i) = ((pos 0, [], get_elem? q i), q)

  unfoldable pub queue_run : ℕ → Bool → List A → List (Op A) → List (Reply A)
  unfolding queue_call
  queue_run cap notify q [] = []
  queue_run cap notify q (op ∷ ops) =
      let (reply, q') = queue_call cap notify q op in reply ∷ queue_run cap notify q' ops

abbrev pub size_of : {A : Type 0} → Option (Ringbuffer A) → ℕ
size_of none = 0
size_of (some rb) = rb.size

abbrev pub notify_of : {A : Type 0} → Option (Ringbuffer A) → Bool
notify_of none = false
notify_of (some rb) = rb.cleanup_fn

module _ {A : Type 0} where
  call-Valid : {rb : Ringbuffer A} (op : Op A) → IsValid rb → Valid (call rb op).1
  unfolding call
  call-Valid (push a) v = rb_push-Valid a v
  call-Valid pop v = rb_pop-Valid v
  call-Valid front v = v
  call-Valid count v = v
  call-Valid (at i) v = v

  -- No call changes the capacity or the callback.
  call_keeps :
      (rb : Ringbuffer A) (op : Op A)
      → (size_of (call rb op).1 ≡ rb.size) × (notify_of (call rb op).1 ≡ rb.cleanup_fn)
  unfolding call rb_push rb_pop
  call_keeps rb (push a) = ground arith
  call_keeps rb pop = ground arith
  call_keeps rb front = (refl, refl)
  call_keeps rb count = (refl, refl)
  call_keeps rb (at i) = (refl, refl)

module _ {A : Type 0} (d : A) where
  call-refines :
      {rb : Ringbuffer A} (op : Op A)
      → IsValid rb
      → let (reply, rb') = call rb op in
        (reply, holds d rb') ≡ queue_call rb.size rb.cleanup_fn (contents d rb) op
  unfolding call queue_call rb_count
  call-refines (push a) v = ground (arith, rb_push-refines d a v)
  call-refines pop v = ground (arith, rb_pop-refines d v)
  call-refines {rb} front v = ground (arith, rb_front-rb_at d v, rb_at-refines d 0 v)
  call-refines {rb} count v = ground (arith, length-contents d rb)
  call-refines (at i) v = ground (arith, rb_at-refines d i v)

  -- No sequence of calls tells a valid buffer, of a size below 2 ^ 31, from the bounded queue of its contents: the codes,
  -- the elements cleaned up and the elements read are the same.
  pub run-refines :
      (ops : List (Op A)) (rb : Option (Ringbuffer A))
      → Valid rb
      → run rb ops ≡ queue_run (size_of rb) (notify_of rb) (holds d rb) ops
  unfolding run queue_run
  run-refines ops none v = absurd v
  run-refines [] (some rb) v = refl
  run-refines (op ∷ ops) (some rb) v =
      ground (
        arith,
        call_keeps rb op,
        call-refines op v,
        run-refines ops (call rb op).1 (call-Valid op v),
      )
