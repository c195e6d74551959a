-- ===== src/Broker/Subscription/Acks.antt =====
-- addPendingAck and sendMessage: what one message does to the link and to what it owes.
use sdk_dslink_c.Prelude.{
  ℕ, suc, ◌+◌, ◌<◌, ◌^◌, ◌≡◌, refl, ap, subst, List, [], ◌∷◌, ◌++◌, Option, some, none, arith,
  length, add32, inl, inr, Option-cases, pos,
}
use sdk_dslink_c.Prelude.Run.{ok}
use sdk_dslink_c.Col.Ringbuffer.{Ringbuffer}
use sdk_dslink_c.Col.Ringbuffer.Inv.{IsValid}
use sdk_dslink_c.Col.Ringbuffer.Refine.{contents}
use sdk_dslink_c.Col.Vector.{Vector, vector_append, vector_init}
use sdk_dslink_c.Col.Vector.Inv
use sdk_dslink_c.Broker.Subscription.{QueuedMessage, PendingAck, DownstreamNode, SubRequester}
use sdk_dslink_c.Broker.Subscription.Sending.{
  Environment, last_after, acks_of, add_pending_ack, send_message, send_loop,
}
use sdk_dslink_c.Broker.Subscription.Window.{batch, stamped, updates, owed, Room, IsWorking}

module _ {J : Type 0} {env : Environment J} (w : IsWorking env) where
  abbrev pub ack_of : SubRequester J → ℕ → PendingAck
  ack_of sub id = record { subscription = sub.number; msg_id = id }

  abbrev pub counted : SubRequester J → SubRequester J
  counted sub = record sub { message_output_queue_count = add32 sub.message_output_queue_count 1 }

  abbrev pub owing : DownstreamNode J → Vector PendingAck → DownstreamNode J
  owing node v = record node { pending_acks = some v }

  append-adds :
      (a : PendingAck) (n : ℕ) (v : Vector PendingAck)
      → Room (suc n) (some v)
      → (v' : Vector PendingAck) × (vector_append env.realloc (some v) a ≡ ok (pos v.size, some v'))
        × Room n (some v')
        × (Inv.contents v' ≡ Inv.contents v ++ (a ∷ []))
  append-adds a n v (valid, small, few) =
      let (v', run, valid', small', size', adds) =
        Inv.vector_append-grows a w.realloc_keeps w.realloc_given valid small (omega arith) in
      (v', run, (valid', small', omega arith), adds)

  abbrev created : Vector PendingAck
  created = record { size = 0; capacity = 64; data_block = some w.acks; element_size = 16 }

  created-Room : (n : ℕ) → n < 2 ^ 30 → Room n (some created)
  created-Room n few = ground (arith, w.acks_room)

  init_lem : vector_init env.raw 64 16 env.first_block ≡ (pos 0, some created)
  unfolding vector_init
  init_lem = rw (w.vec_given, w.acks_given) refl

  acks_of-none :
      (node : DownstreamNode J) → node.pending_acks ≡ none → acks_of env node ≡ some created
  acks_of-none node e = rw (acks_of, e) (ap (λ p. p.1) init_lem)

  acks_of-some :
      (node : DownstreamNode J) (v : Vector PendingAck)
      → node.pending_acks ≡ some v
      → acks_of env node ≡ some v
  acks_of-some node v e = rw (acks_of, e) refl

  add_pending_ack-adds :
      (sub : SubRequester J) (node : DownstreamNode J) (id n : ℕ)
      → Room (suc n) node.pending_acks
      → (v : Vector PendingAck) × (add_pending_ack env sub node id ≡ ok (counted sub, owing node v))
        × Room n (some v)
        × (Inv.contents v ≡ Inv.holds node.pending_acks ++ (ack_of sub id ∷ []))
  unfolding add_pending_ack
  add_pending_ack-adds sub node id n room = elim (Option-cases node.pending_acks) [
    | inl e ↦
        let (v, run, left, adds) =
          append-adds (ack_of sub id) n created
            (created-Room (suc n) (subst (Room (suc n)) e room)) in
        (v, rw (acks_of-none node e, run) refl, left, rw e adds)
    | inr (old, e) ↦
        let (v, run, left, adds) =
          append-adds (ack_of sub id) n old (subst (Room (suc n)) e room) in
        (v, rw (acks_of-some node old e, run) refl, left, rw e adds)
  ]

  -- The node after broker_ws_send_obj.
  abbrev pub sent_to : DownstreamNode J → J → DownstreamNode J
  sent_to node obj = record node {
    last_msg_id = last_after (add32 node.last_msg_id 1);
    sent = node.sent ++ (record { msg = add32 node.last_msg_id 1; update = obj } ∷ []);
  }

  pub send_message-sends :
      (sub : SubRequester J) (node : DownstreamNode J) (obj : J) (n : ℕ)
      → Room (suc n) node.pending_acks
      → (v : Vector PendingAck) × (send_message env sub node obj
          ≡ ok (
            add32 node.last_msg_id 1,
            counted sub,
            owing (sent_to node (env.set_sid sub.req_sid obj)) v,
          ))
        × Room n (some v)
        × (Inv.contents v
            ≡ Inv.holds node.pending_acks ++ (ack_of sub (add32 node.last_msg_id 1) ∷ []))
  unfolding send_message
  send_message-sends sub node obj n room =
      let next = sent_to node (env.set_sid sub.req_sid obj) in
      let (v, run, left, adds) = add_pending_ack-adds sub next (add32 node.last_msg_id 1) n room in
      (
        v,
        rw
            (
              w.dumps
                  (record { msg = add32 node.last_msg_id 1; update = env.set_sid sub.req_sid obj }),
              run,
            )
            refl,
        left,
        adds,
      )

  -- What the loop does where the messages `p` were looked at and `r` are left.
  abbrev pub Sends :
      QueuedMessage J
      → ℕ
      → ℕ
      → SubRequester J
      → DownstreamNode J
      → List (QueuedMessage J)
      → List (QueuedMessage J)
      → Type 0
  Sends d fuel k sub node p r =
      (rb' : Ringbuffer (QueuedMessage J)) × (acks : Option (Vector PendingAck)) × (last : ℕ)
      × (send_loop env fuel sub node
          ≡ ok (
            length (batch k r),
            record sub {
              message_queue = some rb';
              message_output_queue_count = sub.message_output_queue_count + length (batch k r);
            },
            record node {
              last_msg_id = last;
              pending_acks = acks;
              sent = node.sent ++ updates env.set_sid sub.req_sid node.last_msg_id (batch k r);
            },
          ))
      × IsValid rb'
      × (contents d rb' ≡ p ++ stamped k node.last_msg_id r)
      × (Inv.holds acks
          ≡ Inv.holds node.pending_acks ++ owed sub.number node.last_msg_id (batch k r))
