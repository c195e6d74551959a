-- ===== src/Broker/Subscription.antt =====
-- broker/src/subscription.c: the message queue of a subscriber, with the acknowledgements that its link still owes.
--
-- A `SubRequester*` in an acknowledgement is the number of the subscriber. The link of a requester is in the node
-- of its own, as `reqNode->link->node` leads back to it. A JSON array whose first cell the code sets to the
-- subscription id right before it is sent is the value with that cell, `set_sid`; nothing reads the cell before.
pub mod Enqueue
pub mod Removal
pub mod Clear
pub mod Release
pub mod Sending
pub mod Window
pub mod Acks
pub mod Stops
pub mod Rounds
pub mod Sent
pub mod Acknowledge
pub mod Skips
mod Tests
use sdk_dslink_c.Prelude.{
  ℕ, zero, suc, Bool, ◌||◌, true, false, List, [], ◌++◌, Option, none, some, ltb, ◌==◌,
  if◌then◌else◌, ℤ, pos, negsuc,
}
use sdk_dslink_c.Prelude.Run.{Run, ok, fault, out_of_fuel, ◌>>=◌, load, store}
use sdk_dslink_c.Col.Ringbuffer.{Ringbuffer, rb_count, rb_front, rb_at, rb_pop}
use sdk_dslink_c.Col.Vector.{Vector}

pub record QueuedMessage (J : Type 0) : Type 0 where
  pub message : J
  -- 0 until the message is sent
  pub msg_id : ℕ

pub record PendingAck : Type 0 where
  pub subscription : ℕ
  pub msg_id : ℕ

-- Broker settings.
pub record Config : Type 0 where
  pub broker_max_qos_queue_size : ℕ
  pub broker_max_ws_send_queue_size : ℕ

-- One response that broker_ws_send_obj puts on the wire.
pub record Update (J : Type 0) : Type 0 where
  pub msg : ℕ
  pub update : J

-- What sending uses of the requester's node and, where it is connected, of its link.
pub record DownstreamNode (J : Type 0) : Type 0 where
  -- is `link` set?
  pub connected : Bool
  -- `link->msgId`
  pub last_msg_id : ℕ
  pub pending_acks : Option (Vector PendingAck)
  -- what went over the link, the latest last
  pub sent : List (Update J)

-- A subscriber, as far as its message queue goes: without its path, its stream and the QoS queue in storage.
pub record SubRequester (J : Type 0) : Type 0 where
  pub number : ℕ
  pub req_sid : ℕ
  pub qos : ℕ
  pub message_queue : Option (Ringbuffer (QueuedMessage J))
  pub message_output_queue_count : ℕ

-- The comparison functions of the pending acknowledgements.
abbrev pub cmp_pack_subs : PendingAck → PendingAck → ℤ
cmp_pack_subs l r = if l.subscription == r.subscription then pos 0 else negsuc 0

abbrev pub cmp_pack : PendingAck → PendingAck → ℤ
cmp_pack l r =
    if l.msg_id == r.msg_id then pos 0 else if ltb r.msg_id l.msg_id then pos 1 else negsuc 0

module _ {J : Type 0} where
  abbrev pub cells : Option (Ringbuffer (QueuedMessage J)) → List (QueuedMessage J)
  cells none = []
  cells (some rb) = rb.data_block

  -- `m->msg_id = id` through the pointer to an element of the queue
  abbrev pub assign_id :
      ℕ → ℕ → Option (Ringbuffer (QueuedMessage J)) → Run (Option (Ringbuffer (QueuedMessage J)))
  assign_id i id none = fault
  assign_id i id (some rb) = do
    m ← load rb.data_block i
    ys ← store rb.data_block i (record m { msg_id = id })
    ok (some (record rb { data_block = ys }))

  -- The loop of removeFromMessageQueue, on fuel: the result, the messages that are released, and the queue.
  unfoldable pub remove_acknowledged :
      ℕ
      → Option (Ringbuffer (QueuedMessage J))
      → ℕ
      → Run (ℕ × List (QueuedMessage J) × Option (Ringbuffer (QueuedMessage J)))
  remove_acknowledged zero rb msg_id = out_of_fuel
  remove_acknowledged (suc fuel) rb msg_id = elim (rb_count rb) [
    | pos zero ↦ ok (0, [], rb)
    | _ ↦ elim (rb_front rb) [
      | none ↦ fault
      | some i ↦ do
        m ← load (cells rb) i
        elim (m.msg_id == 0 || ltb msg_id m.msg_id) [
          | true ↦ ok (0, [], rb)
          | false ↦ do
            let popped = rb_pop rb
            (n, later, end) ← remove_acknowledged fuel popped.2 msg_id
            ok (suc n, popped.1 ++ later, end)
        ]
    ]
  ]

  unfoldable pub remove_from_message_queue :
      ℕ → SubRequester J → ℕ → Run (ℕ × List (QueuedMessage J) × SubRequester J)
  unfolding remove_acknowledged
  remove_from_message_queue fuel sub msg_id = elim sub.message_queue [
    | none ↦ ok (0, [], sub)
    | some rb ↦ do
      (n, released, queue) ← remove_acknowledged fuel (some rb) msg_id
      ok (n, released, record sub { message_queue = queue })
  ]

  -- The loop of broker_clear_messsage_ids, with the messages that are left to look at. Its pointer may be NULL,
  -- where it stops; the count is 0 at the end either way.
  unfoldable pub clear_ids :
      ℕ → Option (Ringbuffer (QueuedMessage J)) → Run (Option (Ringbuffer (QueuedMessage J)))
  clear_ids zero rb = ok rb
  clear_ids (suc n) rb = elim (rb_at rb n) [
    | none ↦ ok rb
    | some i ↦ do rb' ← assign_id i 0 rb; clear_ids n rb'
  ]

  unfoldable pub broker_clear_messsage_ids : SubRequester J → Run (SubRequester J)
  unfolding clear_ids
  broker_clear_messsage_ids sub = do
    queue ← clear_ids sub.message_output_queue_count sub.message_queue
    ok (record sub { message_queue = queue; message_output_queue_count = 0 })
