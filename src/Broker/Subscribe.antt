-- ===== src/Broker/Subscribe.antt =====
-- broker/src/msg/msg_subscribe.c and msg_unsubscribe.c: the tables of the subscribers of each requester, and the
-- streams of the values that the subscribers share. Records of broker/include/broker/{subscription,stream,node}.h.
--
-- A `SubRequester*` is its number; a `DownstreamNode*` is the path of the node, by which `reqSubs` compares its keys;
-- a `BrokerSubStream*` is the place that owns it: `sub_stream` of a regular node, or an entry of `resp_sub_streams` of
-- a downstream node. A table is a function. What goes to a link or to the message queue of a subscriber (modelled in
-- Broker/Subscription) is a `Call` in the order of the code. The storage is indexed by the two paths of which the code
-- uses the escaped forms. Jansson, the clock and the settings are parameters.
pub mod Streams
pub mod Handle
pub mod Requests
pub mod Registry
pub mod Views
pub mod Free
pub mod Tables
pub mod Remove
pub mod Leave
pub mod Add
pub mod Keeps
pub mod Values
pub mod Move
pub mod Join
pub mod Attach
pub mod New
pub mod Rename
pub mod Freed
pub mod Origin
pub mod Correct
pub mod Unsubscribe
pub mod Trace
pub mod Qos
mod Tests
use sdk_dslink_c.Prelude.{
  ℕ, Bool, true, false, List, [], ◌∷◌, ◌++◌, Option, none, some, ◌==◌, ◌&&◌, if◌then◌else◌, ltb,
  suc,
}
use sdk_dslink_c.Prelude.Bytes.{Bytes, beq}
use sdk_dslink_c.Prelude.Run.{Run, ok, fault, ◌>>=◌}
use sdk_dslink_c.Broker.Node.{BrokerNode}

pub data StreamKey : Type 0 where
  local_stream : Bytes → StreamKey
  remote_stream : Bytes → Bytes → StreamKey

abbrev pub same_key : StreamKey → StreamKey → Bool
same_key (local_stream p) (local_stream q) = beq p q
same_key (local_stream p) (remote_stream n q) = false
same_key (remote_stream m p) (local_stream q) = false
same_key (remote_stream m p) (remote_stream n q) = beq m n && beq p q

-- A table with one entry set.
abbrev pub assign {ℓ κ} : {K : Type ℓ} {V : Type κ} → (K → K → Bool) → (K → V) → K → V → K → V
assign eq f key v x = if eq x key then v else f x

-- dslink_map_get, dslink_map_set and dslink_map_remove on `reqSubs`.
unfoldable pub find_req : Bytes → List (Bytes × ℕ) → Option ℕ
find_req n [] = none
find_req n ((m, k) ∷ xs) = if beq n m then some k else find_req n xs

unfoldable pub set_req : Bytes → ℕ → List (Bytes × ℕ) → List (Bytes × ℕ)
set_req n k [] = (n, k) ∷ []
set_req n k ((m, j) ∷ xs) = if beq n m then (m, k) ∷ xs else (m, j) ∷ set_req n k xs

unfoldable pub remove_req : Bytes → List (Bytes × ℕ) → List (Bytes × ℕ)
remove_req n [] = []
remove_req n ((m, j) ∷ xs) = if beq n m then xs else (m, j) ∷ remove_req n xs

-- A subscriber, without its message queue.
pub record Subscriber (J : Type 0) : Type 0 where
  pub path : Bytes
  pub req_node : Bytes
  pub stream : Option StreamKey
  pub req_sid : ℕ
  pub qos : ℕ
  pub qos_queue : Option (List J)

-- `remote_path` is set exactly for a stream of a downstream node, and is then in its key.
pub record SubStream (J : Type 0) : Type 0 where
  pub resp_sid : ℕ
  pub resp_qos : ℕ
  pub last_value : Option J
  pub req_subs : List (Bytes × ℕ)

pub record Downstream : Type 0 where
  -- is `link` set?
  pub connected : Bool
  pub rid : ℕ
  pub sid : ℕ
  pub req_sub_paths : Bytes → Option ℕ
  pub req_sub_sids : ℕ → Option ℕ
  -- to the remote path of the stream
  pub resp_sub_sids : ℕ → Option Bytes

pub data Call (J : Type 0) : Type 0 where
  -- requests to the link of a node: the node, the request id, and what is asked for
  subscribe_request : Bytes → ℕ → Bytes → ℕ → ℕ → Call J
  unsubscribe_request : Bytes → ℕ → ℕ → Call J
  -- broker_ws_send_obj with the QoS queue of a subscriber
  send_updates : ℕ → List J → Call J
  -- sendMessage
  send_message : ℕ → J → Call J
  -- addToMessageQueue, and sendQueuedMessages
  add_message : ℕ → J → Call J
  send_queued : ℕ → Call J
  -- the message queue of a subscriber that is freed
  free_messages : ℕ → Call J
  -- dslink_storage_store of NULL under the two paths as they are
  forget : Bytes → Bytes → Call J

pub record Hub (J : Type 0) : Type 0 where
  pub root : BrokerNode
  -- `value` of a regular node
  pub values : Bytes → Option J
  pub nodes : Bytes → Downstream
  pub subs : ℕ → Option (Subscriber J)
  -- no subscriber has this number or a higher one
  pub next : ℕ
  pub streams : StreamKey → Option (SubStream J)
  -- the lists of `remote_pending_sub` and `local_pending_sub`, each element with the key of its list
  pub remote_pending : List (Bytes × ℕ)
  pub local_pending : List (Bytes × ℕ)
  pub storage : Bytes → Bytes → Option (ℕ × Option (List J))
  pub calls : List (Call J)

pub record Services (J : Type 0) : Type 0 where
  -- the JSON array of a value with a new time stamp
  pub with_ts : J → J
  -- the array with its first cell set
  pub set_sid : ℕ → J → J
  pub broker_max_qos_queue_size : ℕ

-- What a pointer points to.
abbrev pub deref : {A : Type 0} → Option A → Run A
deref none = fault
deref (some a) = ok a

module _ {J : Type 0} where
  abbrev pub sub_at : Hub J → ℕ → Run (Subscriber J)
  sub_at h k = deref (h.subs k)

  abbrev pub stream_at : Hub J → StreamKey → Run (SubStream J)
  stream_at h key = deref (h.streams key)

  abbrev pub set_sub : Hub J → ℕ → Option (Subscriber J) → Hub J
  set_sub h k sub = record h { subs = assign ◌==◌ h.subs k sub }

  abbrev pub set_stream : Hub J → StreamKey → Option (SubStream J) → Hub J
  set_stream h key st = record h { streams = assign same_key h.streams key st }

  abbrev pub set_node : Hub J → Bytes → Downstream → Hub J
  set_node h n node = record h { nodes = assign beq h.nodes n node }

  abbrev pub call : Hub J → Call J → Hub J
  call h c = record h { calls = h.calls ++ (c ∷ []) }
