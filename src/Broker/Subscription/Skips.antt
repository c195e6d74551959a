-- ===== src/Broker/Subscription/Skips.antt =====
-- What an acknowledgement of several messages at once does to the messages behind them.
use sdk_dslink_c.Prelude.{
  ℕ, suc, ◌+◌, ◌-◌, ◌<◌, ◌^◌, ◌≡◌, ◌≢◌, refl, ap, sym, ◌∙◌, [], ◌∷◌, ◌++◌, List, some, arith,
  length, take, drop, true, false, sub32, ◌==◌, ne→==,
}
use sdk_dslink_c.Prelude.Run.{ok, ◌>>=◌}
use sdk_dslink_c.Col.Ringbuffer.{Ringbuffer}
use sdk_dslink_c.Col.Ringbuffer.Inv.{IsValid}
use sdk_dslink_c.Col.Ringbuffer.Refine.{contents, length-contents}
use sdk_dslink_c.Col.Ringbuffer.Free.{notified}
use sdk_dslink_c.Broker.Subscription.{
  QueuedMessage, DownstreamNode, SubRequester, remove_from_message_queue,
}
use sdk_dslink_c.Broker.Subscription.Sending.{Environment, send_queued_messages}
use sdk_dslink_c.Broker.Subscription.Acknowledge.{acknowledge, send_if_removed, Acknowledged}
use sdk_dslink_c.Broker.Subscription.Removal.{covered, remove_from_message_queue-removes}
use sdk_dslink_c.Broker.Subscription.Window.{batch, updates, stamped, Room, IsWorking}
use sdk_dslink_c.Broker.Subscription.Sent.{send_queued_messages-sends}

append_cancel : {A : Type 0} (xs ys zs : List A) → xs ++ ys ≡ xs ++ zs → ys ≡ zs
append_cancel [] ys zs e = e
append_cancel (x ∷ xs) ys zs e = append_cancel xs ys zs (ap (drop 1) e)

length_ne : {A : Type 0} (xs : List A) → xs ≢ [] → length xs ≢ 0
length_ne [] h z = h refl
length_ne (x ∷ xs) h z = omega arith

module _ {J : Type 0} (env : Environment J) where
  -- A round that takes messages out and sends others.
  acknowledge-sends :
      (fuel : ℕ) (sub : SubRequester J) (node : DownstreamNode J) (msg_id out n m : ℕ)
      (released : List (QueuedMessage J)) (sub' sub'' : SubRequester J) (node' : DownstreamNode J)
      → sub32 sub.message_output_queue_count 1 ≡ out
      → remove_from_message_queue fuel (record sub { message_output_queue_count = out }) msg_id
        ≡ ok (n, released, sub')
      → (n == 0) ≡ false
      → send_queued_messages env fuel sub' node ≡ ok (m, sub'', node')
      → acknowledge env fuel sub node msg_id ≡ ok (released, sub'', node')
  unfolding acknowledge
  acknowledge-sends fuel sub node msg_id out n m released sub' sub'' node' lowered removes some_gone
        sends =
      ap
        (λ c.
          remove_from_message_queue fuel (record sub { message_output_queue_count = c }) msg_id
          >>= send_if_removed env fuel node)
        lowered
      ∙ ap (λ r. r >>= send_if_removed env fuel node) removes
      ∙ rw (◌==◌, some_gone) (ap (λ r. r >>= λ s. ok (released, s.1, s.2)) sends)

module _ {J : Type 0} {env : Environment J} (w : IsWorking env) (d : QueuedMessage J) where
  -- Take a connected subscriber with a subscription id and a valid queue, `suc out` messages counted as on their way, and
  -- an acknowledgement that covers messages in front of the queue but not all of it; memory does not run out and every
  -- update has a text. One round of check_subscription_ack ends. It hands the covered messages, however many they are, to
  -- the cleanup function, if there is one, and lowers the count of messages on their way by one only. It sends next, up
  -- to the first message that has an id and no more than the window has room for, from `out` messages behind the covered
  -- ones on. The `out` messages before that place stay in the queue as they are, whether they were sent or not. The
  -- count is `out` and what was sent.
  pub acknowledge-skips :
      (fuel : ℕ) (sub : SubRequester J) (node : DownstreamNode J)
      (rb : Ringbuffer (QueuedMessage J)) (msg_id : ℕ) (rest : List (QueuedMessage J)) (out : ℕ)
      → sub.message_queue ≡ some rb
      → IsValid rb
      → covered msg_id (contents d rb) ++ rest ≡ contents d rb
      → covered msg_id (contents d rb) ≢ []
      → rest ≢ []
      → sub.message_output_queue_count ≡ suc out
      → suc out < 2 ^ 32
      → node.connected ≡ true
      → sub.req_sid ≢ 4294967295
      → rb.count < fuel
      → env.settings.broker_max_ws_send_queue_size - out < fuel
      → env.settings.broker_max_ws_send_queue_size < 2 ^ 31
      → Room (env.settings.broker_max_ws_send_queue_size - out) node.pending_acks
      → (r : Acknowledged env) × (acknowledge env fuel sub node msg_id ≡ ok r)
        × (r.2.sent
            ≡ node.sent
              ++ updates env.set_sid sub.req_sid node.last_msg_id
                  (batch (env.settings.broker_max_ws_send_queue_size - out) (drop out rest)))
        × (r.0 ≡ notified d rb (covered msg_id (contents d rb)))
        × (r.1.message_output_queue_count
            ≡ out
              + length (batch (env.settings.broker_max_ws_send_queue_size - out) (drop out rest)))
        × (left : Ringbuffer (QueuedMessage J)) × (r.1.message_queue ≡ some left)
        × IsValid left
        × (contents d left
            ≡ take out rest
              ++ stamped
                  (env.settings.broker_max_ws_send_queue_size - out)
                  node.last_msg_id
                  (drop out rest))
  unfolding acknowledge
  acknowledge-skips fuel sub node rb msg_id rest out e v split some_covered some_left counted small
        link sid enough room_enough window room =
      let sub' = record sub { message_output_queue_count = out } in
      let gone = covered msg_id (contents d rb) in
      let (rb', run, v', parts) =
        remove_from_message_queue-removes d fuel sub' rb msg_id e v enough in
      let same : contents d rb' ≡ rest =
        append_cancel gone (contents d rb') rest (parts ∙ sym split) in
      let lowered : sub32 sub.message_output_queue_count 1 ≡ out = omega (arith, counted, small) in
      let removed : (length gone == 0) ≡ false =
        ne→== (length gone) 0 (length_ne gone some_covered) in
      let filled : rb'.count ≢ 0 =
        λ z. length_ne rest some_left (ap length (sym same) ∙ length-contents d rb' ∙ z) in
      let (rb'', acks, last, sends, v'', now, owes) =
        send_queued_messages-sends w d fuel (record sub' { message_queue = some rb' }) node rb' refl
          v' link sid filled room_enough window room in
      let room_left = env.settings.broker_max_ws_send_queue_size - out in
      let sent_now = batch room_left (drop out (contents d rb')) in
      let after = record sub {
        message_queue = some rb'';
        message_output_queue_count = out + length sent_now;
      } in
      let node' = record node {
        last_msg_id = last;
        pending_acks = acks;
        sent = node.sent ++ updates env.set_sid sub.req_sid node.last_msg_id sent_now;
      } in
      (
        (notified d rb gone, after, node'),
        acknowledge-sends env fuel sub node msg_id out (length gone) (length sent_now)
            (notified d rb gone) (record sub' { message_queue = some rb' }) after node' lowered run
            removed sends,
        ap
            (λ q.
              node.sent
              ++ updates env.set_sid sub.req_sid node.last_msg_id
                  (batch (env.settings.broker_max_ws_send_queue_size - out) (drop out q)))
            same,
        refl,
        ap (λ q. out + length (batch room_left (drop out q))) same,
        rb'',
        refl,
        v'',
        now ∙ ap (λ q. take out q ++ stamped room_left node.last_msg_id (drop out q)) same,
      )
