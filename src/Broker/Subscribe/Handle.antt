-- ===== src/Broker/Subscribe/Handle.antt =====
-- broker/src/subscription.c: broker_create_sub_requester, broker_free_sub_requester, and the updates of a subscriber;
-- broker/src/msg/msg_subscribe.c and msg_unsubscribe.c: the requests.
use sdk_dslink_c.Prelude.{
  ℕ, not, true, ◌&&◌, List, [], ◌∷◌, ◌++◌, Option, none, some, ◌==◌, ltb, leb, length, map,
  if◌then◌else◌,
}
use sdk_dslink_c.Prelude.Bytes.{Bytes, beq}
use sdk_dslink_c.Prelude.Run.{Run, ok, ◌>>=◌}
use sdk_dslink_c.Broker.Subscribe.{
  StreamKey, assign, remove_req, Subscriber, SubStream, Downstream, send_updates, send_message,
  add_message, send_queued, free_messages, forget, Hub, Services, sub_at, stream_at, set_sub,
  set_stream, set_node, call,
}
use sdk_dslink_c.Broker.Subscribe.Streams.{
  broker_update_stream_qos, save_qos_queue, delete_qos_queue, clear_qos_queue, drop_pending,
  broker_stream_free,
}

-- The id of a subscriber whose requester is away.
abbrev pub no_sid : ℕ
no_sid = 4294967295

abbrev pub queue_or_new : {J : Type 0} → Option (List J) → Option (List J)
queue_or_new none = some []
queue_or_new (some q) = some q

-- The elements of the array, which may be NULL.
abbrev pub queued_values : {J : Type 0} → Option (List J) → List J
queued_values none = []
queued_values (some q) = q

module _ {J : Type 0} where
  abbrev pub broker_create_sub_requester : Bytes → Bytes → ℕ → ℕ → Option (List J) → Subscriber J
  broker_create_sub_requester req_node path req_sid qos qos_queue = record {
    path = path;
    req_node = req_node;
    stream = none;
    req_sid = req_sid;
    qos = qos;
    qos_queue = elim qos_queue [ some q ↦ some q | none ↦ if ltb 2 qos then some [] else none ];
  }

  -- The two tables of the requester.
  abbrev pub unregister : Downstream → Subscriber J → Downstream
  unregister node sub = record node {
    req_sub_paths = assign beq node.req_sub_paths sub.path none;
    req_sub_sids =
        if sub.req_sid == no_sid
        then node.req_sub_sids
        else assign ◌==◌ node.req_sub_sids sub.req_sid none;
  }

  -- The stream ends with its last subscriber.
  abbrev pub end_if_left : Hub J → StreamKey → SubStream J → List (Bytes × ℕ) → Run (Hub J)
  end_if_left h key st [] =
      broker_stream_free (set_stream h key (some (record st { req_subs = [] }))) key
  end_if_left h key st (x ∷ xs) = ok (set_stream h key (some (record st { req_subs = x ∷ xs })))

  abbrev pub leave_stream : Hub J → Bytes → Option StreamKey → Run (Hub J)
  leave_stream h n none = ok h
  leave_stream h n (some key) = do
    st ← stream_at h key
    end_if_left h key st (remove_req n st.req_subs)

  abbrev pub clear_if : Hub J → ℕ → Option (List J) → Run (Hub J)
  clear_if h k none = ok h
  clear_if h k (some q) = clear_qos_queue h k true

  -- `clear_qos_queue(req, 1)` comes behind the two that take the subscriber out of the storage.
  abbrev pub forget_queue : Hub J → ℕ → Subscriber J → Run (Hub J)
  forget_queue h k sub =
      clear_if
        (if ltb 2 sub.qos then call (delete_qos_queue h sub) (forget sub.req_node sub.path) else h)
        k sub.qos_queue

  unfoldable pub broker_free_sub_requester : Hub J → ℕ → Run (Hub J)
  broker_free_sub_requester h k = do
    sub ← sub_at h k
    let unlisted = set_node h sub.req_node (unregister (h.nodes sub.req_node) sub)
    left ←
        leave_stream
          (record unlisted {
            remote_pending = drop_pending h.remote_pending k;
            local_pending = drop_pending h.local_pending k;
          })
          sub.req_node sub.stream
    done ← forget_queue left k sub
    ok (call (set_sub done k none) (free_messages k))

  -- The new value, with a queue where it needs one.
  abbrev pub with_qos : Subscriber J → ℕ → Subscriber J
  with_qos sub qos = record sub {
    qos = qos;
    qos_queue = if ltb 0 qos then queue_or_new sub.qos_queue else sub.qos_queue;
  }

  unfoldable pub broker_update_sub_qos : Hub J → ℕ → ℕ → Run (Hub J)
  broker_update_sub_qos h k qos = do
    sub ← sub_at h k
    if sub.qos == qos then ok h else (do
      let set = set_sub h k (some (with_qos sub qos))
      h' ←
          broker_update_stream_qos
            (if sub.qos == 3 && not (qos == 3) then delete_qos_queue set sub else set) sub.stream
      ok (if qos == 3 && not (sub.qos == 3) then save_qos_queue h' (with_qos sub qos) else h'))

module _ {J : Type 0} (services : Services J) where
  -- The branch that has no link.
  abbrev pub queue_value : Hub J → ℕ → Subscriber J → List J → J → Run (Hub J)
  queue_value h k sub queue varray =
      let made = record sub { qos_queue = some queue } in
      let longer = record sub { qos_queue = some (queue ++ (varray ∷ [])) } in
      if leb services.broker_max_qos_queue_size (length queue)
      then clear_qos_queue (set_sub h k (some made)) k true
      else ok (save_qos_queue (set_sub h k (some longer)) longer)

  unfoldable pub broker_update_sub_req : Hub J → ℕ → J → Run (Hub J)
  broker_update_sub_req h k varray = do
    sub ← sub_at h k
    if leb sub.qos 2
        then ok (call (call h (add_message k varray)) (send_queued k))
        else if (h.nodes sub.req_node).connected
        then ok (call h (send_message k varray))
        else queue_value h k sub (queued_values sub.qos_queue) varray

  unfoldable pub broker_update_sub_req_qos : Hub J → ℕ → Run (Hub J)
  broker_update_sub_req_qos h k = do
    sub ← sub_at h k
    if (h.nodes sub.req_node).connected
        then clear_qos_queue
            (call h
              (send_updates k (map (services.set_sid sub.req_sid) (queued_values sub.qos_queue))))
            k true
        else ok h
