-- ===== src/Broker/Subscription/Enqueue.antt =====
-- broker/src/subscription.c: addToMessageQueue.
--
-- `raw` and `cells` are what dslink_malloc returns for the ring buffer and, in rb_init, for its elements.
use sdk_dslink_c.Prelude.{
  ℕ, ◌≡◌, ◌^◌, ◌<◌, ◌⊎◌, inl, inr, refl, ap, ap₂, subst, ◌∙◌, sym, List, Option, none, some, true,
  arith, length, ℤ,
}
use sdk_dslink_c.Prelude.Run.{Run, ok, ◌>>=◌}
use sdk_dslink_c.Col.Ringbuffer.{Ringbuffer, rb_init, rb_push, push_into}
use sdk_dslink_c.Col.Ringbuffer.Inv.{IsValid, Valid, rb_push-Valid}
use sdk_dslink_c.Col.Ringbuffer.Queue.{push}
use sdk_dslink_c.Col.Ringbuffer.Refine.{contents, holds, rb_push-refines}
use sdk_dslink_c.Broker.Subscription.{QueuedMessage, SubRequester, Config}

module _ {J : Type 0} (settings : Config) (raw : Option (Ringbuffer (QueuedMessage J)))
    (cells : List (QueuedMessage J)) where
  -- The queue of the subscriber, created on the first message. The code of rb_init is not looked at.
  unfoldable pub queue_of : SubRequester J → Run (Ringbuffer (QueuedMessage J))
  queue_of sub = elim sub.message_queue [
    | none ↦ do made ← rb_init raw settings.broker_max_qos_queue_size 16 true cells; ok made.1
    | some rb ↦ ok rb
  ]

  -- The messages that are released, and the subscriber.
  unfoldable pub add_to_message_queue :
      SubRequester J → J → ℕ → Run (List (QueuedMessage J) × SubRequester J)
  unfolding queue_of
  add_to_message_queue sub varray msg_id = do
    rb ← queue_of sub
    let pushed = rb_push (some rb) (record { message = varray; msg_id = msg_id })
    ok (pushed.1, record sub { message_queue = pushed.2 })

  -- A queue that addToMessageQueue made: sound, of the configured size, and releasing its messages.
  pub record IsOurs (rb : Ringbuffer (QueuedMessage J)) : Type 0 where
    pub valid : IsValid rb
    pub sized : rb.size ≡ settings.broker_max_qos_queue_size
    pub releases : rb.cleanup_fn ≡ true

module _ {J : Type 0} (settings : Config) (made : Ringbuffer (QueuedMessage J))
    (cells : List (QueuedMessage J)) (d : QueuedMessage J) where
  queue_of-IsOurs :
      (sub : SubRequester J)
      → length cells ≡ settings.broker_max_qos_queue_size
      → 0 < settings.broker_max_qos_queue_size
      → settings.broker_max_qos_queue_size < 2 ^ 31
      → (sub.message_queue ≡ none)
        ⊎ ((rb : Ringbuffer (QueuedMessage J)) × (sub.message_queue ≡ some rb)
            × IsOurs settings (some made) cells rb)
      → (rb : Ringbuffer (QueuedMessage J)) × (queue_of settings (some made) cells sub ≡ ok rb)
        × IsOurs settings (some made) cells rb
        × (contents d rb ≡ holds d sub.message_queue)
  unfolding queue_of rb_init
  queue_of-IsOurs sub room some_size small (inr (rb, e, ours)) = (rb, rw e refl, ours, rw e refl)
  queue_of-IsOurs sub room some_size small (inl e) = (
    record {
      size = settings.broker_max_qos_queue_size;
      current = 0;
      count = 0;
      data_block = cells;
      element_size = 16;
      cleanup_fn = true;
    },
    rw e (ground arith),
    record { valid = ground arith; sized = refl; releases = refl },
    rw e refl,
  )

  abbrev message_of : J → ℕ → QueuedMessage J
  message_of varray id = record { message = varray; msg_id = id }

  rb_push-push_into :
      (rb : Ringbuffer (QueuedMessage J)) (m : QueuedMessage J)
      → IsValid rb
      → rb_push (some rb) m ≡ ((push_into rb m).0, (push_into rb m).1, some (push_into rb m).2)
  unfolding rb_push
  rb_push-push_into rb m v = ground arith

  push_into-IsOurs :
      (rb : Ringbuffer (QueuedMessage J)) (m : QueuedMessage J)
      → IsOurs settings (some made) cells rb
      → IsOurs settings (some made) cells (push_into rb m).2
  push_into-IsOurs rb m ours = record {
    valid =
        subst Valid (ap (λ p. p.2) (rb_push-push_into rb m ours.valid))
          (rb_push-Valid m ours.valid);
    sized = ours.sized;
    releases = ours.releases;
  }

  push_into-pushes :
      (rb : Ringbuffer (QueuedMessage J)) (m : QueuedMessage J)
      → IsOurs settings (some made) cells rb
      → ((push_into rb m).0, (push_into rb m).1, contents d (push_into rb m).2)
        ≡ push true settings.broker_max_qos_queue_size (contents d rb) m
  push_into-pushes rb m ours =
      ap (λ p. (p.0, p.1, holds d p.2)) (sym (rb_push-push_into rb m ours.valid))
      ∙ rb_push-refines d m ours.valid
      ∙ ap₂ (λ r n. push r n (contents d rb) m) ours.releases ours.sized

  -- Take a subscriber without a queue, or with one that addToMessageQueue made, where the configured size is positive
  -- and below 2 ^ 31, and dslink_malloc gives a buffer and a block of that size. Then addToMessageQueue ends without a
  -- fault: the queue (empty, if there was none) gets the message behind the others. If it was full, its oldest message
  -- is released and dropped. The queue is one that addToMessageQueue made, and nothing else of the subscriber changes.
  pub add_to_message_queue-pushes :
      (sub : SubRequester J) (varray : J) (msg_id : ℕ)
      → length cells ≡ settings.broker_max_qos_queue_size
      → 0 < settings.broker_max_qos_queue_size
      → settings.broker_max_qos_queue_size < 2 ^ 31
      → (sub.message_queue ≡ none)
        ⊎ ((rb : Ringbuffer (QueuedMessage J)) × (sub.message_queue ≡ some rb)
            × IsOurs settings (some made) cells rb)
      → (code : ℤ) × (released : List (QueuedMessage J)) × (rb' : Ringbuffer (QueuedMessage J))
        × (add_to_message_queue settings (some made) cells sub varray msg_id
            ≡ ok (released, record sub { message_queue = some rb' }))
        × IsOurs settings (some made) cells rb'
        × ((code, released, contents d rb')
            ≡ push true settings.broker_max_qos_queue_size
                (holds d sub.message_queue)
                (record { message = varray; msg_id = msg_id }))
  unfolding add_to_message_queue
  add_to_message_queue-pushes sub varray msg_id room some_size small before =
      let (rb, run, ours, same) = queue_of-IsOurs sub room some_size small before in
      let m = message_of varray msg_id in
      (
        (push_into rb m).0,
        (push_into rb m).1,
        (push_into rb m).2,
        rw (run, rb_push-push_into rb m ours.valid) refl,
        push_into-IsOurs rb m ours,
        push_into-pushes rb m ours
            ∙ ap (λ q. push true settings.broker_max_qos_queue_size q m) same,
      )
