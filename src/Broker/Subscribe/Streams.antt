-- ===== src/Broker/Subscribe/Streams.antt =====
-- broker/src/subscription.c and broker/src/stream.c: the quality of service of a stream, the storage of a subscriber's
-- QoS queue, and the end of a stream and of a subscriber. broker_downstream_node_base_len of broker/src/node/node.c.
use sdk_dslink_c.Prelude.{
  ℕ, ◌+◌, suc, Bool, not, ◌&&◌, List, [], ◌∷◌, ◌++◌, Option, none, some, ◌==◌, ltb, length, drop,
  take, if◌then◌else◌,
}
use sdk_dslink_c.Prelude.Bytes.{Bytes, slash, beq}
use sdk_dslink_c.Prelude.Run.{Run, ok, fault, ◌>>=◌, load}
use sdk_dslink_c.Broker.Node.{broker_node_incr_rid}
use sdk_dslink_c.Broker.Subscribe.{
  StreamKey, local_stream, remote_stream, assign, Subscriber, SubStream, subscribe_request,
  unsubscribe_request, Hub, sub_at, stream_at, set_sub, set_stream, set_node, call,
}

-- `strchr` for a slash, as an index.
abbrev pub index_of_slash : Bytes → Option ℕ
index_of_slash [] = none
index_of_slash (c ∷ s) =
    if c == slash then some 0 else elim (index_of_slash s) [ none ↦ none | some i ↦ some (suc i) ]

-- Behind "/downstream/" or "/upstream/", by `sizeof`, which counts the NUL.
abbrev pub name_offset : ℕ → ℕ
name_offset c = if c == b'd' then 13 else 11

abbrev pub end_of_name : ℕ → Option ℕ → Run ℕ
end_of_name offset none = ok 0
end_of_name offset (some i) = ok (offset + i)

abbrev pub broker_downstream_node_base_len : Bytes → Run ℕ
broker_downstream_node_base_len path = do
  c ← load path 1
  if ltb (length path) (name_offset c)
      then fault
      else end_of_name (name_offset c) (index_of_slash (drop (name_offset c) path))

-- list_remove_node on `pendingNode`, which is in one of the lists at most.
abbrev pub drop_pending : List (Bytes × ℕ) → ℕ → List (Bytes × ℕ)
drop_pending [] k = []
drop_pending ((p, j) ∷ xs) k = if j == k then xs else (p, j) ∷ drop_pending xs k

module _ {J : Type 0} where
  -- The request goes to the link of the node, which takes the next request id.
  abbrev pub send_subscribe_request : Hub J → Bytes → Bytes → ℕ → ℕ → Hub J
  send_subscribe_request h n path sid qos =
      let (rid, id) = broker_node_incr_rid (h.nodes n).rid in
      call (set_node h n (record (h.nodes n) { rid = rid })) (subscribe_request n id path sid qos)

  abbrev pub broker_msg_send_unsubscribe : Hub J → Bytes → ℕ → Hub J
  broker_msg_send_unsubscribe h n resp_sid =
      let (rid, id) = broker_node_incr_rid (h.nodes n).rid in
      if (h.nodes n).connected
      then call (set_node h n (record (h.nodes n) { rid = rid }))
          (unsubscribe_request n id resp_sid)
      else h

  -- The loop of broker_update_stream_qos, with the highest value so far.
  unfoldable pub max_qos : Hub J → ℕ → List (Bytes × ℕ) → Run ℕ
  max_qos h m [] = ok m
  max_qos h m ((_, k) ∷ xs) = do
    sub ← sub_at h k
    max_qos h (if ltb m sub.qos then sub.qos else m) xs

  unfoldable pub broker_update_stream_qos : Hub J → Option StreamKey → Run (Hub J)
  broker_update_stream_qos h none = ok h
  broker_update_stream_qos h (some (local_stream p)) = do _ ← stream_at h (local_stream p); ok h
  broker_update_stream_qos h (some (remote_stream n p)) = do
    st ← stream_at h (remote_stream n p)
    m ← max_qos h 0 st.req_subs
    let h' = set_stream h (remote_stream n p) (some (record st { resp_qos = m }))
    ok (
        if not (m == st.resp_qos) && (h.nodes n).connected
        then send_subscribe_request h' n p st.resp_sid m
        else h')

  -- `serialize_qos_queue(sub, 0)` and `serialize_qos_queue(sub, 1)`
  abbrev pub save_qos_queue : Hub J → Subscriber J → Hub J
  save_qos_queue h sub = record h {
    storage =
        assign beq h.storage sub.req_node
          (assign beq (h.storage sub.req_node) sub.path (some (sub.qos, sub.qos_queue)));
  }

  abbrev pub delete_qos_queue : Hub J → Subscriber J → Hub J
  delete_qos_queue h sub = record h {
    storage = assign beq h.storage sub.req_node (assign beq (h.storage sub.req_node) sub.path none);
  }

  -- json_array_clear leaves NULL as it is.
  abbrev pub cleared : Option (List J) → Option (List J)
  cleared none = none
  cleared (some q) = some []

  abbrev pub clear_qos_queue : Hub J → ℕ → Bool → Run (Hub J)
  clear_qos_queue h k serialize = do
    sub ← sub_at h k
    let sub' = record sub { qos_queue = cleared sub.qos_queue }
    let h' = set_sub h k (some sub')
    ok (if serialize && ltb 2 sub.qos then save_qos_queue h' sub' else h')

  abbrev pub broker_subscribe_disconnected_remote : Hub J → Bytes → ℕ → Run (Hub J)
  broker_subscribe_disconnected_remote h path k = do
    len ← broker_downstream_node_base_len path
    ok (
        if len == 0
        then h
        else record h { remote_pending = h.remote_pending ++ ((take len path, k) ∷ []) })

  abbrev pub broker_subscribe_local_nonexistent : Hub J → Bytes → ℕ → Hub J
  broker_subscribe_local_nonexistent h path k = record h {
    local_pending = h.local_pending ++ ((path, k) ∷ []);
  }

  -- A subscriber of a stream that ends waits for its path.
  abbrev pub detach_sub : StreamKey → Hub J → ℕ → Run (Hub J)
  detach_sub key h k = do
    sub ← sub_at h k
    let h' = set_sub h k (some (record sub { stream = none }))
    elim key [
      | local_stream p ↦ ok (broker_subscribe_local_nonexistent h' sub.path k)
      | remote_stream n p ↦ broker_subscribe_disconnected_remote h' sub.path k
    ]

  unfoldable pub detach_subs : StreamKey → Hub J → List (Bytes × ℕ) → Run (Hub J)
  detach_subs key h [] = ok h
  detach_subs key h ((_, k) ∷ xs) = do h' ← detach_sub key h k; detach_subs key h' xs

  -- The branch of a subscription stream.
  abbrev pub end_stream : StreamKey → Hub J → SubStream J → Hub J
  end_stream (local_stream p) h st = set_stream h (local_stream p) none
  end_stream (remote_stream n p) h st =
      let h' = broker_msg_send_unsubscribe h n st.resp_sid in
      let node = h'.nodes n in
      set_stream
        (set_node h' n
          (record node { resp_sub_sids = assign ◌==◌ node.resp_sub_sids st.resp_sid none }))
        (remote_stream n p) none

  abbrev pub broker_stream_free : Hub J → StreamKey → Run (Hub J)
  broker_stream_free h key = do
    st ← stream_at h key
    h' ← detach_subs key h st.req_subs
    ok (end_stream key h' st)
