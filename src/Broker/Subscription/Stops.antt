-- ===== src/Broker/Subscription/Stops.antt =====
-- Where the loop of sendQueuedMessages stops: the window is full, no message is left, or the next one was sent.
use sdk_dslink_c.Prelude.{
  ℕ, zero, suc, ◌<◌, ◌≤◌, ◌≡◌, refl, ap, sym, List, [], ◌∷◌, ◌++◌, some, none, arith, length, take,
  drop, get_elem?, get_elem?-eq-get_or, ltb, true, lt→ltb, le→ltb, take-append-drop, append-nil,
  ap₂,
}
use sdk_dslink_c.Prelude.Run.{ok, ◌>>=◌}
use sdk_dslink_c.Col.Ringbuffer.{Ringbuffer, rb_at}
use sdk_dslink_c.Col.Ringbuffer.Inv.{IsValid}
use sdk_dslink_c.Col.Ringbuffer.Refine.{contents}
use sdk_dslink_c.Col.Ringbuffer.Assign.{slot, rb_at-slot}
use sdk_dslink_c.Col.Vector.Inv
use sdk_dslink_c.Broker.Subscription.{QueuedMessage, DownstreamNode, SubRequester}
use sdk_dslink_c.Broker.Subscription.Sending.{Environment, send_loop}
use sdk_dslink_c.Broker.Subscription.Clear.{at}
use sdk_dslink_c.Broker.Subscription.Window.{batch, stamped, IsWorking}
use sdk_dslink_c.Broker.Subscription.Acks.{Sends}

rb_at-end : {A : Type 0} (rb : Ringbuffer A) (k : ℕ) → rb.count ≤ k → rb_at (some rb) k ≡ none
unfolding rb_at
rb_at-end rb k h = ground arith

module _ {J : Type 0} {env : Environment J} (w : IsWorking env) (d : QueuedMessage J) where
  abbrev pub max_window : ℕ
  max_window = env.settings.broker_max_ws_send_queue_size

  abbrev pub queued : SubRequester J → Ringbuffer (QueuedMessage J) → SubRequester J
  queued sub rb = record sub { message_queue = some rb }

  pub drop-at :
      (n : ℕ) (q : List (QueuedMessage J)) (m : QueuedMessage J)
      → get_elem? q n ≡ some m
      → drop n q ≡ m ∷ drop (suc n) q
  drop-at n [] m h = cc
  drop-at zero (x ∷ q) m h = ap (λ o. elim o [ none ↦ [] | some y ↦ y ∷ q ]) h
  drop-at (suc n) (x ∷ q) m h = drop-at n q m h

  pub drop-all : (n : ℕ) (q : List (QueuedMessage J)) → length q ≤ n → drop n q ≡ []
  drop-all zero [] h = refl
  drop-all zero (x ∷ q) h = absurd (omega arith)
  drop-all (suc n) [] h = refl
  drop-all (suc n) (x ∷ q) h = drop-all n q (omega arith)

  -- The loop ends at once.
  Sends-nothing :
      (fuel k : ℕ) (sub : SubRequester J) (node : DownstreamNode J)
      (rb : Ringbuffer (QueuedMessage J)) (p r : List (QueuedMessage J))
      → sub.message_queue ≡ some rb
      → IsValid rb
      → contents d rb ≡ p ++ r
      → batch k r ≡ []
      → stamped k node.last_msg_id r ≡ r
      → send_loop env fuel sub node ≡ ok (0, sub, node)
      → Sends w d fuel k sub node p r
  Sends-nothing fuel k sub node rb p r e v split none_left same run = (
    rb,
    node.pending_acks,
    node.last_msg_id,
    rw (run, none_left, append-nil node.sent)
        (ap₂ (λ q n. ok (0, record sub { message_queue = q; message_output_queue_count = n }, node))
          e (omega arith)),
    v,
    rw same split,
    rw none_left (sym (append-nil (Inv.holds node.pending_acks))),
  )

  pub stopped :
      (fuel k : ℕ) (sub : SubRequester J) (node : DownstreamNode J)
      (rb : Ringbuffer (QueuedMessage J))
      → IsValid rb
      → batch k (drop sub.message_output_queue_count (contents d rb)) ≡ []
      → stamped k node.last_msg_id (drop sub.message_output_queue_count (contents d rb))
        ≡ drop sub.message_output_queue_count (contents d rb)
      → send_loop env fuel (queued sub rb) node ≡ ok (0, queued sub rb, node)
      → Sends w d fuel k
          (queued sub rb)
          node
          (take sub.message_output_queue_count (contents d rb))
          (drop sub.message_output_queue_count (contents d rb))
  stopped fuel k sub node rb v =
      Sends-nothing fuel k (queued sub rb) node rb
        (take sub.message_output_queue_count (contents d rb))
        (drop sub.message_output_queue_count (contents d rb)) refl v
        (sym (take-append-drop sub.message_output_queue_count (contents d rb)))

  -- The cases in which the loop ends at once: the window is full, no message is left, or the next one was sent.
  pub at_window :
      (fuel : ℕ) (sub : SubRequester J) (node : DownstreamNode J)
      (rb : Ringbuffer (QueuedMessage J))
      → max_window ≤ sub.message_output_queue_count
      → send_loop env (suc fuel) (queued sub rb) node ≡ ok (0, queued sub rb, node)
  unfolding send_loop
  at_window fuel sub node rb h =
      rw (send_loop, le→ltb sub.message_output_queue_count max_window h) refl

  pub at_end :
      (fuel : ℕ) (sub : SubRequester J) (node : DownstreamNode J)
      (rb : Ringbuffer (QueuedMessage J))
      → rb.count ≤ sub.message_output_queue_count
      → sub.message_output_queue_count < max_window
      → send_loop env (suc fuel) (queued sub rb) node ≡ ok (0, queued sub rb, node)
  unfolding send_loop
  at_end fuel sub node rb h open_window =
      rw
        (
          send_loop,
          lt→ltb sub.message_output_queue_count max_window open_window,
          rb_at-end rb sub.message_output_queue_count h,
        )
        refl

  pub at_sent :
      (fuel : ℕ) (sub : SubRequester J) (node : DownstreamNode J)
      (rb : Ringbuffer (QueuedMessage J))
      → IsValid rb
      → sub.message_output_queue_count < rb.count
      → sub.message_output_queue_count < max_window
      → ltb 0 (at d rb sub.message_output_queue_count).msg_id ≡ true
      → send_loop env (suc fuel) (queued sub rb) node ≡ ok (0, queued sub rb, node)
  unfolding send_loop
  at_sent fuel sub node rb v inside open_window hit =
      rw
        (
          send_loop,
          lt→ltb sub.message_output_queue_count max_window open_window,
          rb_at-slot d sub.message_output_queue_count v inside,
          get_elem?-eq-get_or rb.data_block (slot d rb sub.message_output_queue_count) d
              (ground arith),
        )
        (rw (◌>>=◌, hit) refl)
