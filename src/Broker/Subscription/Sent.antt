-- ===== src/Broker/Subscription/Sent.antt =====
-- sendQueuedMessages as a whole: its loop ends, and sends the next messages of the queue up to the window.
use sdk_dslink_c.Prelude.{
  ℕ, zero, suc, ◌+◌, ◌-◌, ◌<◌, ◌^◌, ◌≡◌, refl, ap, sym, subst, ◌∙◌, [], ◌∷◌, ◌++◌, Option, some,
  arith, length, take, drop, ltb, true, add32, Bool-cases, inl, inr, ◌≢◌, take-set_self,
  drop-set_lt,
}
use sdk_dslink_c.Prelude.Run.{ok}
use sdk_dslink_c.Col.Ringbuffer.{Ringbuffer, rb_count}
use sdk_dslink_c.Col.Ringbuffer.Inv.{IsValid}
use sdk_dslink_c.Col.Ringbuffer.Window.{get_elem?-window}
use sdk_dslink_c.Col.Ringbuffer.Refine.{contents, start, length-contents}
use sdk_dslink_c.Col.Ringbuffer.Assign.{assigned-IsValid, slot, contents-assigned}
use sdk_dslink_c.Col.Vector.{Vector}
use sdk_dslink_c.Col.Vector.Inv
use sdk_dslink_c.Broker.Subscription.{QueuedMessage, PendingAck, DownstreamNode, SubRequester}
use sdk_dslink_c.Broker.Subscription.Sending.{Environment, send_loop, send_queued_messages}
use sdk_dslink_c.Broker.Subscription.Clear.{at, assigned_id}
use sdk_dslink_c.Broker.Subscription.Window.{batch, stamped, updates, owed, Room, IsWorking}
use sdk_dslink_c.Broker.Subscription.Acks.{Sends, counted}
use sdk_dslink_c.Broker.Subscription.Stops.{
  queued, max_window, stopped, at_window, at_end, at_sent, drop-at, drop-all,
}
use sdk_dslink_c.Broker.Subscription.Rounds.{one_sub, one_node, sends_one, Sends-more, with_id}

module _ {J : Type 0} {env : Environment J} (w : IsWorking env) (d : QueuedMessage J) where
  -- After one message the looked-at part has it with its id, and the rest is what it was.
  moved_on :
      (rb : Ringbuffer (QueuedMessage J)) (k id : ℕ)
      → IsValid rb
      → k < rb.count
      → add32 k 1 ≡ suc k
      → (take (add32 k 1) (contents d (assigned_id d id rb k))
          ≡ take k (contents d rb) ++ (with_id w d id (at d rb k) ∷ []))
        × (drop (add32 k 1) (contents d (assigned_id d id rb k)) ≡ drop (suc k) (contents d rb))
  moved_on rb k id v inside count = (
    rw (count, contents-assigned d k (with_id w d id (at d rb k)) v inside)
        (take-set_self k (contents d rb) (with_id w d id (at d rb k))
          (omega (arith, length-contents d rb))),
    rw (count, contents-assigned d k (with_id w d id (at d rb k)) v inside)
        (drop-set_lt (suc k) k (contents d rb) (with_id w d id (at d rb k)) (omega arith)),
  )

  send_loop-Sends :
      (fuel k : ℕ) (sub : SubRequester J) (node : DownstreamNode J)
      (rb : Ringbuffer (QueuedMessage J))
      → IsValid rb
      → k ≡ max_window w d - sub.message_output_queue_count
      → k < fuel
      → max_window w d < 2 ^ 31
      → Room k node.pending_acks
      → Sends w d fuel k
          (queued w d sub rb)
          node
          (take sub.message_output_queue_count (contents d rb))
          (drop sub.message_output_queue_count (contents d rb))
  send_loop-Sends zero k sub node rb v left enough small room = absurd (omega arith)
  send_loop-Sends (suc fuel) zero sub node rb v left enough small room =
      stopped w d (suc fuel) zero sub node rb v refl refl
        (at_window w d fuel sub node rb (omega arith))
  send_loop-Sends (suc fuel) (suc k) sub node rb v left enough small room =
      elim (Bool-cases (ltb sub.message_output_queue_count rb.count)) [
        | inr past ↦
            let gone =
              drop-all w d sub.message_output_queue_count (contents d rb)
                (ground (arith, length-contents d rb)) in
            stopped w d (suc fuel) (suc k) sub node rb v (rw gone refl) (rw gone refl)
              (at_end w d fuel sub node rb (ground arith) (omega arith))
        | inl inside ↦
            let next =
              drop-at w d sub.message_output_queue_count (contents d rb)
                (at d rb sub.message_output_queue_count)
                (get_elem?-window d rb.data_block rb.size (start d rb) rb.count
                  sub.message_output_queue_count (ground arith) (omega (arith, v.count_in))
                  (ground arith)) in
            elim (Bool-cases (ltb 0 (at d rb sub.message_output_queue_count).msg_id)) [
              | inl hit ↦
                  stopped w d (suc fuel) (suc k) sub node rb v (rw (next, batch, hit) refl)
                    (rw (next, stamped, hit) refl)
                    (at_sent w d fuel sub node rb v (ground arith) (omega arith) hit)
              | inr fresh ↦
                  let (acks, run, room', owes) =
                    sends_one w d fuel k sub node rb v (ground arith) (omega arith) fresh room in
                  let (looked, rest) =
                    moved_on rb sub.message_output_queue_count (add32 node.last_msg_id 1) v
                      (ground arith) (omega arith) in
                  subst
                    (Sends w d (suc fuel) (suc k) (queued w d sub rb) node
                      (take sub.message_output_queue_count (contents d rb)))
                    (sym next)
                    (Sends-more w d fuel k sub node rb acks (at d rb sub.message_output_queue_count)
                      (take sub.message_output_queue_count (contents d rb))
                      (drop (suc sub.message_output_queue_count) (contents d rb)) fresh
                      (omega arith) run owes
                      (subst
                        (λ p.
                          Sends w d fuel k (one_sub w d sub rb (add32 node.last_msg_id 1))
                            (one_node w d sub node (at d rb sub.message_output_queue_count).message
                              acks)
                            p (drop (suc sub.message_output_queue_count) (contents d rb)))
                        looked
                        (subst
                          (Sends w d fuel k (one_sub w d sub rb (add32 node.last_msg_id 1))
                            (one_node w d sub node (at d rb sub.message_output_queue_count).message
                              acks)
                            (take (add32 sub.message_output_queue_count 1) (
                              contents d (
                                assigned_id d (add32 node.last_msg_id 1) rb
                                  sub.message_output_queue_count))))
                          rest
                          (send_loop-Sends fuel k (counted w sub)
                            (one_node w d sub node (at d rb sub.message_output_queue_count).message
                              acks)
                            (assigned_id d (add32 node.last_msg_id 1) rb
                              sub.message_output_queue_count)
                            (assigned-IsValid d (slot d rb sub.message_output_queue_count)
                              (with_id w d (add32 node.last_msg_id 1)
                                (at d rb sub.message_output_queue_count))
                              v)
                            (omega arith) (omega arith) small room'))))
            ]
      ]

  ready :
      (fuel : ℕ) (sub : SubRequester J) (node : DownstreamNode J)
      (rb : Ringbuffer (QueuedMessage J))
      → IsValid rb
      → node.connected ≡ true
      → sub.req_sid ≢ 4294967295
      → rb.count ≢ 0
      → send_queued_messages env fuel (queued w d sub rb) node
        ≡ send_loop env fuel (queued w d sub rb) node
  unfolding send_queued_messages rb_count
  ready fuel sub node rb v link sid some_left = ground arith

  -- Take a connected subscriber with a subscription id and a valid, non-empty queue `q`, of which the first `out`
  -- messages are counted as sent, in an environment where memory does not run out and every update has a text.
  -- For any fuel above what is left of the window, sendQueuedMessages ends. It sends, in order, the messages from
  -- position `out` on up to the first one that has an id, no more than the window has room for; it returns their number
  -- and adds it to the count. The queue keeps every message and only gets the new ids, and the link owes one
  -- acknowledgement more for each message, behind the others.
  pub send_queued_messages-sends :
      (fuel : ℕ) (sub : SubRequester J) (node : DownstreamNode J)
      (rb : Ringbuffer (QueuedMessage J))
      → sub.message_queue ≡ some rb
      → IsValid rb
      → node.connected ≡ true
      → sub.req_sid ≢ 4294967295
      → rb.count ≢ 0
      → env.settings.broker_max_ws_send_queue_size - sub.message_output_queue_count < fuel
      → env.settings.broker_max_ws_send_queue_size < 2 ^ 31
      → Room
          (env.settings.broker_max_ws_send_queue_size - sub.message_output_queue_count)
          node.pending_acks
      → let out = sub.message_output_queue_count in
        let room = env.settings.broker_max_ws_send_queue_size - out in
        let waiting = drop out (contents d rb) in
        (rb' : Ringbuffer (QueuedMessage J)) × (acks : Option (Vector PendingAck)) × (last : ℕ)
        × (send_queued_messages env fuel sub node
            ≡ ok (
              length (batch room waiting),
              record sub {
                message_queue = some rb';
                message_output_queue_count = out + length (batch room waiting);
              },
              record node {
                last_msg_id = last;
                pending_acks = acks;
                sent =
                    node.sent
                    ++ updates env.set_sid sub.req_sid node.last_msg_id (batch room waiting);
              },
            ))
        × IsValid rb'
        × (contents d rb' ≡ take out (contents d rb) ++ stamped room node.last_msg_id waiting)
        × (Inv.holds acks
            ≡ Inv.holds node.pending_acks ++ owed sub.number node.last_msg_id (batch room waiting))
  send_queued_messages-sends fuel sub node rb e v link sid some_left enough small room =
      let (rb', acks, last, run, v', now, owes) =
        send_loop-Sends fuel (max_window w d - sub.message_output_queue_count) sub node rb v refl
          enough small room in
      (
        rb',
        acks,
        last,
        ap (λ q. send_queued_messages env fuel (record sub { message_queue = q }) node) e
            ∙ ready fuel sub node rb v link sid some_left
            ∙ run,
        v',
        now,
        owes,
      )
