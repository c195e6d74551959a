-- ===== src/Broker/Subscription/Tests.antt =====
-- Runs of the subscriber's message queue, and its theorems at concrete queues.
use sdk_dslink_c.Prelude.{
  ℤ, inr, ℕ, zero, suc, ◌+◌, ap, length-take, length-append, take-take, take-append_le, take-all,
  ◌≡◌, refl, List, [], ◌∷◌, ◌++◌, Option, none, some, true, arith, length, take,
}
use sdk_dslink_c.Prelude.Run.{ok, fault, ◌>>=◌}
use sdk_dslink_c.Col.Ringbuffer.{Ringbuffer}
use sdk_dslink_c.Col.Ringbuffer.Inv.{IsValid}
use sdk_dslink_c.Col.Ringbuffer.Refine.{contents}
use sdk_dslink_c.Col.Ringbuffer.Free.{notified}
use sdk_dslink_c.Col.Vector.{Vector}
use sdk_dslink_c.Col.Vector.Inv.{Valid, cells, IsRealloc, holds}
use sdk_dslink_c.Broker.Subscription.{
  Config, QueuedMessage, PendingAck, DownstreamNode, SubRequester, remove_from_message_queue,
  broker_clear_messsage_ids,
}
use sdk_dslink_c.Col.Ringbuffer.Queue.{push}
use sdk_dslink_c.Broker.Subscription.Enqueue.{
  IsOurs, add_to_message_queue, add_to_message_queue-pushes,
}
use sdk_dslink_c.Broker.Subscription.Release.{free_message_queue, free_message_queue-releases}
use sdk_dslink_c.Broker.Subscription.Removal.{covered, remove_from_message_queue-removes}
use sdk_dslink_c.Broker.Subscription.Clear.{broker_clear_messsage_ids-clears}
use sdk_dslink_c.Broker.Subscription.Sending.{Environment, send_queued_messages}
use sdk_dslink_c.Broker.Subscription.Window.{IsWorking}
use sdk_dslink_c.Col.Ringbuffer.{rb_count, rb_front, rb_pop, rb_at}
use sdk_dslink_c.Col.Vector.{vector_append}
use sdk_dslink_c.Col.Vector.Search.{bound_within}
use sdk_dslink_c.Broker.Subscription.Acknowledge.{Acknowledged, acknowledge, check_subscription_ack}
use sdk_dslink_c.Broker.Subscription.Skips.{acknowledge-skips}
use sdk_dslink_c.Broker.Subscription.Sent.{send_queued_messages-sends}

abbrev msg : ℕ → ℕ → QueuedMessage ℕ
msg id message = record { message = message; msg_id = id }

-- Messages 10, 20, 30 and 40, of which the first two went out under the ids 1 and 2.
abbrev queue : Ringbuffer (QueuedMessage ℕ)
queue = record {
  size = 5;
  current = 1;
  count = 4;
  data_block = msg 0 40 ∷ msg 0 0 ∷ msg 1 10 ∷ msg 2 20 ∷ msg 0 30 ∷ [];
  element_size = 16;
  cleanup_fn = true;
}

queue-IsValid : IsValid queue
queue-IsValid = record {
  storage = refl;
  small = omega arith;
  current_in = omega arith;
  count_in = omega arith;
}

abbrev subscriber : SubRequester ℕ
subscriber = record {
  number = 7;
  req_sid = 3;
  qos = 1;
  message_queue = some queue;
  message_output_queue_count = 2;
}

abbrev zeros : ℕ → List PendingAck
zeros zero = []
zeros (suc n) = record { subscription = 0; msg_id = 0 } ∷ zeros n

-- A realloc that always finds memory.
abbrev moved : Option (List PendingAck) → ℕ → Option (List PendingAck)
moved xs n = some (take n (cells xs ++ zeros n))

abbrev fresh_vector : Vector PendingAck
fresh_vector = record { size = 0; capacity = 0; data_block = none; element_size = 0 }

abbrev environment : Environment ℕ
environment = record {
  set_sid = λ sid obj. sid + obj;
  json_dumps = λ u. true;
  realloc = moved;
  raw = some fresh_vector;
  first_block = some (zeros 64);
  settings = record { broker_max_qos_queue_size = 1024; broker_max_ws_send_queue_size = 8 };
}

abbrev node : DownstreamNode ℕ
node = record { connected = true; last_msg_id = 2; pending_acks = none; sent = [] }

length-zeros : (n : ℕ) → length (zeros n) ≡ n
length-zeros zero = refl
length-zeros (suc n) = ap suc (length-zeros n)

length-moved : (xs : List PendingAck) (n : ℕ) → length (take n (xs ++ zeros n)) ≡ n
length-moved xs n =
    omega (arith, length-take n (xs ++ zeros n), length-append xs (zeros n), length-zeros n)

moved-IsRealloc : IsRealloc moved
moved-IsRealloc = record {
  resized = λ xs n ys e. ground (arith, length-moved (cells xs) n);
  kept = λ xs n ys e h. ground (
    arith,
    take-take (length (cells xs)) n (cells xs ++ zeros n) h,
    take-append_le (length (cells xs)) (cells xs) (zeros n),
    take-all (length (cells xs)) (cells xs),
  );
}

environment-IsWorking : IsWorking environment
environment-IsWorking = record {
  realloc_keeps = moved-IsRealloc;
  realloc_given = λ xs n. (take n (cells xs ++ zeros n), refl);
  vec = fresh_vector;
  vec_given = refl;
  acks = zeros 64;
  acks_given = refl;
  acks_room = refl;
  dumps = λ u. refl;
}

remove_from_message_queue-removes_example :
    (rb' : Ringbuffer (QueuedMessage ℕ)) × (remove_from_message_queue 9 subscriber 1
      ≡ ok (
        length (covered 1 (contents (msg 0 0) queue)),
        notified (msg 0 0) queue (covered 1 (contents (msg 0 0) queue)),
        record subscriber { message_queue = some rb' },
      ))
    × IsValid rb'
    × (covered 1 (contents (msg 0 0) queue) ++ contents (msg 0 0) rb' ≡ contents (msg 0 0) queue)
remove_from_message_queue-removes_example =
    remove_from_message_queue-removes (msg 0 0) 9 subscriber queue 1 refl queue-IsValid
      (omega arith)

broker_clear_messsage_ids-clears_example :
    (rb' : Ringbuffer (QueuedMessage ℕ)) × (broker_clear_messsage_ids subscriber
      ≡ ok (record subscriber { message_queue = some rb'; message_output_queue_count = 0 }))
    × IsValid rb'
    × (contents (msg 0 0) rb' ≡ msg 0 10 ∷ msg 0 20 ∷ msg 0 30 ∷ msg 0 40 ∷ [])
broker_clear_messsage_ids-clears_example =
    broker_clear_messsage_ids-clears (msg 0 0) subscriber queue refl queue-IsValid

send_queued_messages-sends_example :
    (rb' : Ringbuffer (QueuedMessage ℕ)) × (acks : Option (Vector PendingAck)) × (last : ℕ)
    × (send_queued_messages environment 7 subscriber node
        ≡ ok (
          2,
          record subscriber { message_queue = some rb'; message_output_queue_count = 4 },
          record node {
            last_msg_id = last;
            pending_acks = acks;
            sent = record { msg = 3; update = 33 } ∷ record { msg = 4; update = 43 } ∷ [];
          },
        ))
    × IsValid rb'
    × (contents (msg 0 0) rb' ≡ msg 1 10 ∷ msg 2 20 ∷ msg 3 30 ∷ msg 4 40 ∷ [])
    × (holds acks
        ≡ record { subscription = 7; msg_id = 3 } ∷ record { subscription = 7; msg_id = 4 } ∷ [])
send_queued_messages-sends_example =
    send_queued_messages-sends environment-IsWorking (msg 0 0) 7 subscriber node queue refl
      queue-IsValid refl (omega arith) (omega arith) (omega arith) (omega arith) (omega arith)

-- The queue is full, so the oldest message is dropped.
abbrev five : Config
five = record { broker_max_qos_queue_size = 5; broker_max_ws_send_queue_size = 8 }

abbrev full_queue : Ringbuffer (QueuedMessage ℕ)
full_queue = record queue { count = 5 }

abbrev five_cells : List (QueuedMessage ℕ)
five_cells = msg 0 0 ∷ msg 0 0 ∷ msg 0 0 ∷ msg 0 0 ∷ msg 0 0 ∷ []

full_queue-IsOurs : IsOurs five (some queue) five_cells full_queue
full_queue-IsOurs = record {
  valid = record {
    storage = refl;
    small = omega arith;
    current_in = omega arith;
    count_in = omega arith;
  };
  sized = refl;
  releases = refl;
}

add_to_message_queue-pushes_example :
    (code : ℤ) × (released : List (QueuedMessage ℕ)) × (rb' : Ringbuffer (QueuedMessage ℕ))
    × (add_to_message_queue five
          (some queue)
          five_cells
          (record subscriber { message_queue = some full_queue })
          50
          0
        ≡ ok (released, record subscriber { message_queue = some rb' }))
    × IsOurs five (some queue) five_cells rb'
    × ((code, released, contents (msg 0 0) rb')
        ≡ push true 5 (contents (msg 0 0) full_queue) (msg 0 50))
add_to_message_queue-pushes_example =
    add_to_message_queue-pushes five queue five_cells (msg 0 0)
      (record subscriber { message_queue = some full_queue }) 50 0 refl (omega arith) (omega arith)
      (inr (full_queue, refl, full_queue-IsOurs))

abbrev ack : ℕ → ℕ → PendingAck
ack subscription id = record { subscription = subscription; msg_id = id }

-- Three acknowledgements that the link owes, one of them to another subscriber.
abbrev owed_acks : Vector PendingAck
owed_acks = record {
  size = 3;
  capacity = 4;
  data_block = some (ack 7 1 ∷ ack 2 2 ∷ ack 7 3 ∷ ack 0 0 ∷ []);
  element_size = 16;
}

owed_acks-IsValid : Valid (some owed_acks)
owed_acks-IsValid = record {
  storage = refl;
  small = omega arith;
  size_in = omega arith;
  block_set = refl;
}

free_message_queue-releases_example :
    ((v : Vector PendingAck) × (free_message_queue 9 subscriber (some owed_acks)
        ≡ ok (
          msg 1 10 ∷ msg 2 20 ∷ msg 0 30 ∷ msg 0 40 ∷ [],
          record subscriber { message_queue = none; message_output_queue_count = 0 },
          some v,
        ))
      × Valid (some v)
      × (holds (some v) ≡ ack 2 2 ∷ []))
    × (free_message_queue 9 subscriber none ≡ fault)
free_message_queue-releases_example =
    free_message_queue-releases (msg 0 0) 9 subscriber queue owed_acks refl queue-IsValid
      owed_acks-IsValid (omega arith)

-- Both messages on their way are acknowledged at once: message 40 goes out next, before message 30.
acknowledge-skips_example :
    (r : Acknowledged environment) × (acknowledge environment 9 subscriber node 2 ≡ ok r)
    × (r.2.sent ≡ record { msg = 3; update = 43 } ∷ [])
    × (r.0 ≡ msg 1 10 ∷ msg 2 20 ∷ [])
    × (r.1.message_output_queue_count ≡ 2)
    × (left : Ringbuffer (QueuedMessage ℕ)) × (r.1.message_queue ≡ some left)
    × IsValid left
    × (contents (msg 0 0) left ≡ msg 0 30 ∷ msg 3 40 ∷ [])
acknowledge-skips_example =
    acknowledge-skips environment-IsWorking (msg 0 0) 9 subscriber node queue 2
      (msg 0 30 ∷ msg 0 40 ∷ []) 1 refl queue-IsValid refl (λ e. cc) (λ e. cc) refl (omega arith)
      refl (omega arith) (omega arith) (omega arith) (omega arith) (omega arith)

abbrev two_acks : Vector PendingAck
two_acks = record {
  size = 2;
  capacity = 4;
  data_block = some (ack 7 1 ∷ ack 7 2 ∷ ack 0 0 ∷ ack 0 0 ∷ []);
  element_size = 16;
}

-- The same through the whole of check_subscription_ack.
acknowledged_twice :
    (check_subscription_ack environment 9
        (λ n. subscriber)
        (record node { pending_acks = some two_acks })
        2
      >>= λ r. ok r.2.sent)
    ≡ ok (record { msg = 3; update = 43 } ∷ [])
unfolding check_subscription_ack bound_within rb_count rb_front rb_pop rb_at vector_append
acknowledged_twice = refl
