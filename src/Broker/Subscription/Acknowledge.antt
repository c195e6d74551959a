-- ===== src/Broker/Subscription/Acknowledge.antt =====
-- check_subscription_ack of broker/src/subscription.c: a link acknowledges its messages up to an id.
--
-- The subscribers are found by their numbers. What is released is the messages that leave the queues.
use sdk_dslink_c.Prelude.{ℕ, zero, suc, List, [], ◌++◌, none, some, ◌==◌, if◌then◌else◌, sub32}
use sdk_dslink_c.Prelude.Run.{Run, ok, fault, ◌>>=◌, load}
use sdk_dslink_c.Col.Vector.{vector_get, vector_erase_range, block}
use sdk_dslink_c.Col.Vector.Search.{vector_upper_bound}
use sdk_dslink_c.Broker.Subscription.{
  QueuedMessage, DownstreamNode, SubRequester, cmp_pack, remove_from_message_queue,
}
use sdk_dslink_c.Broker.Subscription.Sending.{Environment, send_queued_messages}

module _ {J : Type 0} (env : Environment J) where
  abbrev pub Acknowledged : Type 0
  Acknowledged = List (QueuedMessage J) × SubRequester J × DownstreamNode J

  -- The test of the result of removeFromMessageQueue.
  abbrev pub send_if_removed :
      ℕ → DownstreamNode J → ℕ × List (QueuedMessage J) × SubRequester J → Run Acknowledged
  send_if_removed fuel node (n, released, sub) =
      if n == 0
      then ok (released, sub, node)
      else send_queued_messages env fuel sub node >>= λ s. ok (released, s.1, s.2)

  -- The body of the loop, for one acknowledgement of a subscriber.
  unfoldable pub acknowledge : ℕ → SubRequester J → DownstreamNode J → ℕ → Run Acknowledged
  unfolding remove_from_message_queue send_queued_messages
  acknowledge fuel sub node msg_id =
      let count = sub32 sub.message_output_queue_count 1 in
      remove_from_message_queue fuel (record sub { message_output_queue_count = count }) msg_id
      >>= send_if_removed fuel node

  abbrev pub Subscribers : Type 0
  Subscribers = ℕ → SubRequester J

  abbrev pub with_subscriber : Subscribers → ℕ → SubRequester J → Subscribers
  with_subscriber subs number sub n = if n == number then sub else subs n

  -- The loop, from the last of so many acknowledgements to the first.
  unfoldable pub acknowledge_from :
      ℕ
      → ℕ
      → Subscribers
      → DownstreamNode J
      → Run (List (QueuedMessage J) × Subscribers × DownstreamNode J)
  unfolding acknowledge vector_get
  acknowledge_from fuel zero subs node = ok ([], subs, node)
  acknowledge_from fuel (suc idx) subs node = elim node.pending_acks [
    | none ↦ fault
    | some v ↦ elim (vector_get (some v) idx) [
      | none ↦ fault
      | some i ↦ block v >>= λ packs. load packs i >>= λ pack.
          acknowledge fuel (subs pack.subscription) node pack.msg_id >>= λ r.
          acknowledge_from fuel idx (with_subscriber subs pack.subscription r.1) r.2 >>= λ s.
          ok (r.0 ++ s.0, s.1, s.2)
    ]
  ]

  unfoldable pub check_subscription_ack :
      ℕ
      → Subscribers
      → DownstreamNode J
      → ℕ
      → Run (List (QueuedMessage J) × Subscribers × DownstreamNode J)
  unfolding acknowledge_from vector_upper_bound vector_erase_range
  check_subscription_ack fuel subs node ack =
      vector_upper_bound cmp_pack (record { subscription = 0; msg_id = ack }) fuel node.pending_acks
      >>= λ last. acknowledge_from fuel last subs node >>= λ r.
          vector_erase_range r.2.pending_acks 0 last >>= λ e.
          ok (r.0, r.1, record r.2 { pending_acks = e.1 })
