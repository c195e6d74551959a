-- ===== src/Broker/Subscription/Sending.antt =====
-- broker/src/subscription.c: a subscriber's messages go over the link, up to a window of unacknowledged ones; and
-- broker_ws_send_obj of broker/src/net/ws.c, which numbers them.
--
-- Jansson, the allocator and the settings are parameters. `set_sid` sets the first cell of an update to the
-- subscription id, `json_dumps` tells whether an update has a text, `realloc` is dslink_realloc, and `raw` and
-- `first_block` are what dslink_malloc returns for the vector of acknowledgements and for its 64 elements.
use sdk_dslink_c.Prelude.{
  ℕ, zero, suc, ◌-◌, ◌^◌, Bool, not, ◌&&◌, true, false, List, [], ◌∷◌, ◌++◌, Option, none, some,
  ltb, ◌==◌, if◌then◌else◌, is_zero, add32,
}
use sdk_dslink_c.Prelude.Run.{Run, ok, out_of_fuel, ◌>>=◌, load}
use sdk_dslink_c.Col.Ringbuffer.{rb_count, rb_at}
use sdk_dslink_c.Col.Vector.{Vector, Realloc, vector_init, vector_append}
use sdk_dslink_c.Broker.Subscription.{
  PendingAck, Config, Update, DownstreamNode, SubRequester, cells, assign_id,
}

pub record Environment (J : Type 0) : Type 0 where
  pub set_sid : ℕ → J → J
  pub json_dumps : Update J → Bool
  pub realloc : Realloc PendingAck
  pub raw : Option (Vector PendingAck)
  pub first_block : Option (List PendingAck)
  pub settings : Config

-- `DSLINK_ALLOC_ERR` as a uint32_t
abbrev pub alloc_err : ℕ
alloc_err = 2 ^ 32 - 4096

-- `link->msgId` after the message of an id
abbrev pub last_after : ℕ → ℕ
last_after id = if id == 2147483647 then 0 else id

module _ {J : Type 0} (env : Environment J) where
  abbrev pub broker_ws_send_obj : DownstreamNode J → J → ℕ × DownstreamNode J
  broker_ws_send_obj node obj =
      let id = add32 node.last_msg_id 1 in
      if env.json_dumps (record { msg = id; update = obj })
      then (
        id,
        record node {
          last_msg_id = last_after id;
          sent = node.sent ++ (record { msg = id; update = obj } ∷ []);
        },
      )
      else (alloc_err, record node { last_msg_id = last_after id })

  -- The vector of acknowledgements, created on the first one. The codes of vector_init and vector_append are not
  -- looked at.
  abbrev pub acks_of : DownstreamNode J → Option (Vector PendingAck)
  acks_of node = elim node.pending_acks [
    | none ↦ (vector_init env.raw 64 16 env.first_block).1
    | some v ↦ some v
  ]

  unfoldable pub add_pending_ack :
      SubRequester J → DownstreamNode J → ℕ → Run (SubRequester J × DownstreamNode J)
  add_pending_ack sub node id = do
    (_, acks) ←
        vector_append env.realloc (acks_of node) (record { subscription = sub.number; msg_id = id })
    ok (
      record sub { message_output_queue_count = add32 sub.message_output_queue_count 1 },
      record node { pending_acks = acks },
    )

  -- The id given to the message, the subscriber and the node.
  unfoldable pub send_message :
      SubRequester J → DownstreamNode J → J → Run (ℕ × SubRequester J × DownstreamNode J)
  unfolding add_pending_ack
  send_message sub node varray = do
    let step = broker_ws_send_obj node (env.set_sid sub.req_sid varray)
    (sub', node') ← add_pending_ack sub step.1 step.0
    ok (step.0, sub', node')

  -- The loop of sendQueuedMessages, on fuel.
  unfoldable pub send_loop :
      ℕ → SubRequester J → DownstreamNode J → Run (ℕ × SubRequester J × DownstreamNode J)
  unfolding send_message
  send_loop zero sub node = out_of_fuel
  send_loop (suc fuel) sub node =
      elim (ltb sub.message_output_queue_count env.settings.broker_max_ws_send_queue_size) [
        | false ↦ ok (0, sub, node)
        | true ↦ elim (rb_at sub.message_queue sub.message_output_queue_count) [
          | none ↦ ok (0, sub, node)
          | some i ↦ do
            m ← load (cells sub.message_queue) i
            elim (ltb 0 m.msg_id) [
              | true ↦ ok (0, sub, node)
              | false ↦ do
                (id, sub', node') ← send_message sub node m.message
                queue ← assign_id i id sub'.message_queue
                (n, sub'', node'') ← send_loop fuel (record sub' { message_queue = queue }) node'
                ok (suc n, sub'', node'')
            ]
        ]
      ]

  unfoldable pub send_queued_messages :
      ℕ → SubRequester J → DownstreamNode J → Run (ℕ × SubRequester J × DownstreamNode J)
  unfolding send_loop
  send_queued_messages fuel sub node =
      if node.connected
        && (not (sub.req_sid == 4294967295) && not (is_zero (rb_count sub.message_queue)))
      then send_loop fuel sub node
      else ok (0, sub, node)
