-- ===== src/Broker/Subscribe/Requests.antt =====
-- broker/src/msg/msg_subscribe.c and msg_unsubscribe.c: the requests of a link.
--
-- The permissions are those of the same tree as permission.c sees it. A number of a request is what json_integer_value
-- returns, as 64 bits without a sign.
use sdk_dslink_c.Prelude.{
  ℕ, suc, ◌%◌, ◌^◌, Bool, ◌||◌, List, [], ◌∷◌, Option, none, some, ◌==◌, ltb, if◌then◌else◌,
}
use sdk_dslink_c.Prelude.Bytes.{Bytes, codes, beq}
use sdk_dslink_c.Prelude.Run.{Run, ok, fault, ◌>>=◌}
use sdk_dslink_c.Text.Compare.{starts_with}
use sdk_dslink_c.Broker.Permission.{permission_read}
use sdk_dslink_c.Broker.Permission.Tree
use sdk_dslink_c.Broker.Permission.Access.{get_permission}
use sdk_dslink_c.Broker.Node.{regular, downstream, Found, broker_node_get, broker_node_incr_sid}
use sdk_dslink_c.Broker.Subscribe.{
  StreamKey, local_stream, remote_stream, assign, set_req, Subscriber, SubStream, Downstream,
  send_queued, Hub, Services, sub_at, stream_at, set_sub, set_stream, set_node, call,
}
use sdk_dslink_c.Broker.Subscribe.Streams.{
  broker_update_stream_qos, save_qos_queue, broker_subscribe_disconnected_remote,
  broker_subscribe_local_nonexistent,
}
use sdk_dslink_c.Broker.Subscribe.Handle.{
  broker_create_sub_requester, broker_free_sub_requester, broker_update_sub_qos,
  broker_update_sub_req, broker_update_sub_req_qos, queued_values,
}

-- One element of `paths`; `qos` only where it is an integer.
pub record SubscribeItem : Type 0 where
  pub path : Option Bytes
  pub sid : Option ℕ
  pub qos : Option ℕ

pub data Request : Type 0 where
  subscribe : SubscribeItem → Request
  unsubscribe : ℕ → Request

abbrev pub qos_of : Option ℕ → ℕ
qos_of none = 0
qos_of (some q) = q % 2 ^ 8

abbrev pub value_array : {J : Type 0} → (J → J) → Option J → Option J
value_array with_ts none = none
value_array with_ts (some v) = some (with_ts v)

-- A subscriber with its entries in the two tables of its requester.
abbrev pub register : Downstream → Bytes → ℕ → ℕ → Downstream
register node path sid k = record node {
  req_sub_paths = assign beq node.req_sub_paths path (some k);
  req_sub_sids = assign ◌==◌ node.req_sub_sids sid (some k);
}

abbrev pub is_remote : Bytes → Bool
is_remote path = starts_with path (codes "/downstream/") || starts_with path (codes "/upstream/")

module _ {J : Type 0} (services : Services J) where
  -- `subreq->stream` and `reqSubs`.
  abbrev pub join : Hub J → ℕ → StreamKey → Run (Hub J)
  join h k key = do
    sub ← sub_at h k
    st ← stream_at h key
    ok (
        set_stream (set_sub h k (some (record sub { stream = some key }))) key
          (some (record st { req_subs = set_req sub.req_node k st.req_subs })))

  -- The last value of the stream goes to the subscriber.
  abbrev pub send_value : Hub J → ℕ → Option J → Run (Hub J)
  send_value h k none = ok h
  send_value h k (some v) = broker_update_sub_req services h k v

  abbrev pub send_last : Hub J → ℕ → StreamKey → Run (Hub J)
  send_last h k key = do st ← stream_at h key; send_value h k st.last_value

  -- broker_update_sub_stream_value finds no subscriber of a new stream.
  abbrev pub local_made : Hub J → Bytes → Option (SubStream J) → Hub J
  local_made h p (some st) = h
  local_made h p none = set_stream h (local_stream p) (
      some (record {
        resp_sid = 0;
        resp_qos = 0;
        last_value = value_array services.with_ts (h.values p);
        req_subs = [];
      }))

  unfoldable pub broker_handle_local_subscribe : Hub J → Bytes → ℕ → Run (Hub J)
  broker_handle_local_subscribe h p k = do
    h' ← join (local_made h p (h.streams (local_stream p))) k (local_stream p)
    send_last h' k (local_stream p)

  abbrev pub remote_made : Hub J → Bytes → Bytes → Option (SubStream J) → Hub J
  remote_made h n p (some st) = h
  remote_made h n p none =
      let (sid, id) = broker_node_incr_sid (h.nodes n).sid in
      set_stream
        (set_node h n (record (h.nodes n) {
          sid = sid;
          resp_sub_sids = assign ◌==◌ (h.nodes n).resp_sub_sids id (some p);
        }))
        (remote_stream n p)
        (some (record { resp_sid = id; resp_qos = 255; last_value = none; req_subs = [] }))

  unfoldable pub broker_subscribe_remote : Hub J → Bytes → ℕ → Bytes → Run (Hub J)
  broker_subscribe_remote h n k p = do
    h' ← join (remote_made h n p (h.streams (remote_stream n p))) k (remote_stream n p)
    h'' ← broker_update_stream_qos h' (some (remote_stream n p))
    send_last h'' k (remote_stream n p)

  -- From what broker_node_get found. Its `out` stays NULL only for a root that is a downstream node.
  unfoldable pub attach : Hub J → Bytes → ℕ → Option Found → Run (Hub J)
  unfolding broker_handle_local_subscribe broker_subscribe_remote
  attach h path k none =
      if is_remote path
      then broker_subscribe_disconnected_remote h path k
      else ok (broker_subscribe_local_nonexistent h path k)
  attach h path k (some (regular p children, _)) = broker_handle_local_subscribe h p k
  attach h path k (some (downstream n, none)) = fault
  attach h path k (some (downstream n, some out)) = broker_subscribe_remote h n k out

  unfoldable pub broker_add_new_subscription : Hub J → ℕ → Run (Hub J)
  unfolding attach
  broker_add_new_subscription h k = do
    sub ← sub_at h k
    let n = sub.req_node
    attach (set_node h n (register (h.nodes n) sub.path sub.req_sid k)) sub.path k
        (broker_node_get h.root sub.path)

  unfoldable pub new_subscription : Hub J → Bytes → Bytes → ℕ → ℕ → Run (Hub J)
  unfolding broker_add_new_subscription
  new_subscription h n path sid qos =
      let sub = broker_create_sub_requester n path sid qos none in
      let made = record (set_sub h h.next (some sub)) { next = suc h.next } in
      broker_add_new_subscription (if ltb 2 qos then save_qos_queue made sub else made) h.next

  abbrev pub resend_value : Hub J → ℕ → Option StreamKey → Run (Hub J)
  resend_value h k none = ok h
  resend_value h k (some key) = send_last h k key

  -- What an existing subscriber gets after its id has changed.
  abbrev pub resend_queue : Hub J → ℕ → Subscriber J → List J → Run (Hub J)
  resend_queue h k sub (v ∷ q) = broker_update_sub_req_qos services h k
  resend_queue h k sub [] =
      if sub.qos == 2 then ok (call h (send_queued k)) else resend_value h k sub.stream

  unfoldable pub resend : Hub J → ℕ → Run (Hub J)
  resend h k = do sub ← sub_at h k; resend_queue h k sub (queued_values sub.qos_queue)

  unfoldable pub move_subscription : Hub J → Bytes → ℕ → ℕ → ℕ → Run (Hub J)
  unfolding resend
  move_subscription h n k sid qos = do
    sub ← sub_at h k
    let node = h.nodes n
    let moved = record node {
      req_sub_sids = assign ◌==◌ (assign ◌==◌ node.req_sub_sids sub.req_sid none) sid (some k);
    }
    h' ←
        broker_update_sub_qos (set_sub (set_node h n moved) k (some (record sub { req_sid = sid })))
          k qos
    resend h' k

  -- From the subscribers of the id and of the path.
  abbrev pub subscribe_as : Hub J → Bytes → Bytes → ℕ → ℕ → Option ℕ → Option ℕ → Run (Hub J)
  subscribe_as h n path sid qos none none = new_subscription h n path sid qos
  subscribe_as h n path sid qos none (some j) = move_subscription h n j sid qos
  subscribe_as h n path sid qos (some i) none = do
    h' ← broker_free_sub_requester h i
    new_subscription h' n path sid qos
  subscribe_as h n path sid qos (some i) (some j) =
      if i == j
      then broker_update_sub_qos h i qos
      else (do h' ← broker_free_sub_requester h i; move_subscription h' n j sid qos)

  abbrev pub handle_item :
      Tree.BrokerNode J
      → List Bytes
      → Bytes
      → Hub J
      → Option Bytes
      → Option ℕ
      → Option ℕ
      → Run (Hub J)
  handle_item tree groups n h none sid qos = ok h
  handle_item tree groups n h (some path) none qos = ok h
  handle_item tree groups n h (some path) (some sid) qos =
      if ltb (get_permission path tree groups) permission_read
      then ok h
      else subscribe_as h n path (sid % 2 ^ 32) (qos_of qos)
          ((h.nodes n).req_sub_sids (sid % 2 ^ 32)) ((h.nodes n).req_sub_paths path)

  unfoldable pub handle_subscribe :
      Tree.BrokerNode J → List Bytes → Bytes → Hub J → SubscribeItem → Run (Hub J)
  handle_subscribe tree groups n h item = handle_item tree groups n h item.path item.sid item.qos

module _ {J : Type 0} where
  abbrev pub free_found : Hub J → Bytes → ℕ → Option ℕ → Run (Hub J)
  free_found h n sid none = ok h
  free_found h n sid (some k) =
      broker_free_sub_requester
        (set_node h n
          (record (h.nodes n) { req_sub_sids = assign ◌==◌ (h.nodes n).req_sub_sids sid none }))
        k

  unfoldable pub handle_unsubscribe : Bytes → Hub J → ℕ → Run (Hub J)
  handle_unsubscribe n h value =
      free_found h n (value % 2 ^ 32) ((h.nodes n).req_sub_sids (value % 2 ^ 32))
