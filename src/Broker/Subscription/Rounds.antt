-- ===== src/Broker/Subscription/Rounds.antt =====
-- The rounds of the loop of sendQueuedMessages that send a message.
use sdk_dslink_c.Prelude.{
  ℕ, suc, ◌+◌, ◌<◌, ◌≡◌, refl, ◌∙◌, List, [], ◌∷◌, ◌++◌, some, arith, length, get_elem?-eq-get_or,
  ltb, add32, false, lt→ltb, append_assoc, ap₂,
}
use sdk_dslink_c.Prelude.Run.{Run, ok, ◌>>=◌}
use sdk_dslink_c.Col.Ringbuffer.{Ringbuffer}
use sdk_dslink_c.Col.Ringbuffer.Inv.{IsValid}
use sdk_dslink_c.Col.Ringbuffer.Assign.{slot, rb_at-slot}
use sdk_dslink_c.Col.Vector.{Vector}
use sdk_dslink_c.Col.Vector.Inv
use sdk_dslink_c.Broker.Subscription.{QueuedMessage, PendingAck, DownstreamNode, SubRequester}
use sdk_dslink_c.Broker.Subscription.Sending.{Environment, last_after, send_loop}
use sdk_dslink_c.Broker.Subscription.Clear.{at, assigned_id, assign_id_lem}
use sdk_dslink_c.Broker.Subscription.Window.{batch, stamped, updates, owed, Room, IsWorking}
use sdk_dslink_c.Broker.Subscription.Acks.{
  ack_of, owing, counted, sent_to, send_message-sends, Sends,
}
use sdk_dslink_c.Broker.Subscription.Stops.{queued, max_window}

module _ {J : Type 0} {env : Environment J} (w : IsWorking env) (d : QueuedMessage J) where
  -- One round that sends the next message.
  abbrev pub one_sub : SubRequester J → Ringbuffer (QueuedMessage J) → ℕ → SubRequester J
  one_sub sub rb id =
      queued w d (counted w sub) (assigned_id d id rb sub.message_output_queue_count)

  abbrev pub one_node : SubRequester J → DownstreamNode J → J → Vector PendingAck → DownstreamNode J
  one_node sub node obj acks = owing w (sent_to w node (env.set_sid sub.req_sid obj)) acks

  -- The reply of a round followed by the others.
  abbrev one_more :
      Run (ℕ × SubRequester J × DownstreamNode J) → Run (ℕ × SubRequester J × DownstreamNode J)
  one_more rest = do (n, sub, node) ← rest; ok (suc n, sub, node)

  pub sends_one :
      (fuel n : ℕ) (sub : SubRequester J) (node : DownstreamNode J)
      (rb : Ringbuffer (QueuedMessage J))
      → IsValid rb
      → sub.message_output_queue_count < rb.count
      → sub.message_output_queue_count < (max_window w d)
      → ltb 0 (at d rb sub.message_output_queue_count).msg_id ≡ false
      → Room (suc n) node.pending_acks
      → (acks : Vector PendingAck) × (send_loop env (suc fuel) (queued w d sub rb) node
          ≡ one_more (
              send_loop env fuel
                (one_sub sub rb (add32 node.last_msg_id 1))
                (one_node sub node (at d rb sub.message_output_queue_count).message acks)))
        × Room n (some acks)
        × (Inv.contents acks
            ≡ Inv.holds node.pending_acks ++ (ack_of w sub (add32 node.last_msg_id 1) ∷ []))
  unfolding send_loop
  sends_one fuel n sub node rb v inside open_window fresh room =
      let (acks, run, left, owes) =
        send_message-sends w (queued w d sub rb) node
          (at d rb sub.message_output_queue_count).message n room in
      (
        acks,
        rw
            (
              send_loop,
              lt→ltb sub.message_output_queue_count (max_window w d) open_window,
              rb_at-slot d sub.message_output_queue_count v inside,
              get_elem?-eq-get_or rb.data_block (slot d rb sub.message_output_queue_count) d
                  (ground arith),
            )
            (rw (◌>>=◌, fresh)
              (rw (run) (
                rw
                  (
                    ◌>>=◌,
                    assign_id_lem d (add32 node.last_msg_id 1) sub.message_output_queue_count v
                        inside,
                  )
                  refl))),
        left,
        owes,
      )

  abbrev pub with_id : ℕ → QueuedMessage J → QueuedMessage J
  with_id id m = record m { msg_id = id }

  batch-cons :
      (k : ℕ) (m : QueuedMessage J) (r : List (QueuedMessage J))
      → ltb 0 m.msg_id ≡ false
      → batch (suc k) (m ∷ r) ≡ m ∷ batch k r
  batch-cons k m r fresh = rw (batch, fresh) refl

  stamped-cons :
      (k last : ℕ) (m : QueuedMessage J) (r : List (QueuedMessage J))
      → ltb 0 m.msg_id ≡ false
      → stamped (suc k) last (m ∷ r)
        ≡ with_id (add32 last 1) m ∷ stamped k (last_after (add32 last 1)) r
  stamped-cons k last m r fresh = rw (stamped, fresh) refl

  pub Sends-more :
      (fuel k : ℕ) (sub : SubRequester J) (node : DownstreamNode J)
      (rb : Ringbuffer (QueuedMessage J)) (acks : Vector PendingAck) (m : QueuedMessage J)
      (p r : List (QueuedMessage J))
      → ltb 0 m.msg_id ≡ false
      → add32 sub.message_output_queue_count 1 ≡ sub.message_output_queue_count + 1
      → send_loop env (suc fuel) (queued w d sub rb) node
        ≡ one_more (
            send_loop env fuel
              (one_sub sub rb (add32 node.last_msg_id 1))
              (one_node sub node m.message acks))
      → Inv.contents acks
        ≡ Inv.holds node.pending_acks ++ (ack_of w sub (add32 node.last_msg_id 1) ∷ [])
      → Sends w d fuel k
          (one_sub sub rb (add32 node.last_msg_id 1))
          (one_node sub node m.message acks)
          (p ++ (with_id (add32 node.last_msg_id 1) m ∷ []))
          r
      → Sends w d (suc fuel) (suc k) (queued w d sub rb) node p (m ∷ r)
  Sends-more fuel k sub node rb acks m p r fresh count run owes
        (rb', acks', last, run', v', now, owes') =
      (
        rb',
        acks',
        last,
        rw (run, run', batch-cons k m r fresh)
            (ap₂
              (λ n s. ok (
                suc (length (batch k r)),
                record sub { message_queue = some rb'; message_output_queue_count = n },
                record node { last_msg_id = last; pending_acks = acks'; sent = s },
              ))
              {x = add32 sub.message_output_queue_count 1 + length (batch k r)}
              (omega (arith, count))
              (append_assoc node.sent
                (record {
                  msg = add32 node.last_msg_id 1;
                  update = env.set_sid sub.req_sid m.message;
                }
                  ∷ [])
                (updates env.set_sid sub.req_sid (last_after (add32 node.last_msg_id 1))
                  (batch k r)))),
        v',
        now
            ∙ rw (stamped-cons k node.last_msg_id m r fresh) (
                append_assoc p (with_id (add32 node.last_msg_id 1) m ∷ [])
                  (stamped k (last_after (add32 node.last_msg_id 1)) r)),
        owes'
            ∙ rw (batch-cons k m r fresh, owes)
                (append_assoc (Inv.holds node.pending_acks)
                  (ack_of w sub (add32 node.last_msg_id 1) ∷ [])
                  (owed sub.number (last_after (add32 node.last_msg_id 1)) (batch k r))),
      )
