-- ===== src/Broker/Subscribe/Tests.antt =====
-- Runs of msg_subscribe.c and msg_unsubscribe.c, and the theorems at a small hub.
use sdk_dslink_c.Prelude.{
  List, ℕ, ◌⊎◌, ◌≡◌, ◌≤◌, refl, true, false, [], ◌∷◌, Option, none, some, arith, ◌==◌,
}
use sdk_dslink_c.Prelude.Bytes.{Bytes, codes, beq, split_path}
use sdk_dslink_c.Prelude.Run.{Run, ok, fault, ◌>>=◌}
use sdk_dslink_c.Broker.Permission.Tree
use sdk_dslink_c.Broker.Permission.Access.{get_permission}
use sdk_dslink_c.Broker.Node.{
  BrokerNode, regular, downstream, no_child, child, find_child, broker_node_get,
}
use sdk_dslink_c.Broker.Subscribe.{
  remote_stream, find_req, set_req, remove_req, Subscriber, SubStream, Downstream, Hub, Services,
  assign, set_sub, set_stream, set_node,
}
use sdk_dslink_c.Broker.Subscribe.Streams.{broker_update_stream_qos, detach_subs}
use sdk_dslink_c.Broker.Subscribe.Handle.{broker_free_sub_requester, broker_update_sub_req}
use sdk_dslink_c.Broker.Subscribe.Requests.{
  SubscribeItem, Request, subscribe, unsubscribe, register, handle_subscribe, handle_unsubscribe,
  new_subscription,
}
use sdk_dslink_c.Broker.Subscribe.Registry.{Registry, identity_of}
use sdk_dslink_c.Broker.Subscribe.Views.{Ends}
use sdk_dslink_c.Broker.Subscribe.Unsubscribe.{free_sub_requester-saves}
use sdk_dslink_c.Broker.Subscribe.Qos.{
  announced, highest, update_stream_qos-highest, update_sub_req-queues,
}

abbrev test_root : BrokerNode
test_root = regular (codes "/") (
    child (codes "x") (regular (codes "/x") no_child) (
      child (codes "d")
        (regular (codes "/d") (child (codes "l") (downstream (codes "/d/l")) no_child)) no_child))

abbrev test_node : Downstream
test_node = record {
  connected = true;
  rid = 1;
  sid = 0;
  req_sub_paths = λ p. none;
  req_sub_sids = λ s. none;
  resp_sub_sids = λ s. none;
}

abbrev empty_hub : Hub ℕ
empty_hub = record {
  root = test_root;
  values = λ p. some 5;
  nodes = λ n. test_node;
  subs = λ k. none;
  next = 0;
  streams = λ key. none;
  remote_pending = [];
  local_pending = [];
  storage = λ n p. none;
  calls = [];
}

abbrev test_services : Services ℕ
test_services = record { with_ts = λ v. v; set_sid = λ sid v. v; broker_max_qos_queue_size = 2 }

abbrev test_tree : Tree.BrokerNode ℕ
test_tree = Tree.regular none Tree.empty

abbrev item : Bytes → ℕ → SubscribeItem
item path sid = record { path = some path; sid = some sid; qos = none }

abbrev lone_sub : Subscriber ℕ
lone_sub = record {
  path = codes "/d/l/a";
  req_node = codes "/r";
  stream = none;
  req_sid = 7;
  qos = 3;
  qos_queue = some (4 ∷ []);
}

abbrev away_hub : Hub ℕ
away_hub = record empty_hub {
  nodes = λ n. record test_node { connected = false };
  subs = λ k. elim (k == 0) [ true ↦ some lone_sub | false ↦ none ];
}

free_sub_requester-saves_example :
    Ends
      (broker_free_sub_requester away_hub 0)
      (λ h'. (h'.subs 0 ≡ none) × (h'.storage (codes "/r") (codes "/d/l/a") ≡ some (3, some [])))
free_sub_requester-saves_example =
    free_sub_requester-saves away_hub 0 lone_sub (4 ∷ []) refl (λ key e. absurd cc) (omega arith)
      refl

update_sub_req-queues_example : Ends (broker_update_sub_req test_services away_hub 0 9) (λ h'.
    (h'.subs 0 ≡ some (record lone_sub { qos_queue = some (4 ∷ 9 ∷ []) }))
    × (h'.storage (codes "/r") (codes "/d/l/a") ≡ some (3, some (4 ∷ 9 ∷ [])))
    × (2 ≤ 2))
update_sub_req-queues_example =
    update_sub_req-queues test_services away_hub 0 lone_sub 9 refl (omega arith) refl

-- A hub whose requester /r has one subscriber, of the path /d/l/a in the stream of /a at the link /d/l.
abbrev one_sub : Subscriber ℕ
one_sub = record {
  path = codes "/d/l/a";
  req_node = codes "/r";
  stream = some (remote_stream (codes "/d/l") (codes "/a"));
  req_sid = 7;
  qos = 2;
  qos_queue = none;
}

abbrev one_stream : SubStream ℕ
one_stream = record {
  resp_sid = 0;
  resp_qos = 255;
  last_value = some 5;
  req_subs = (codes "/r", 0) ∷ [];
}

abbrev one_node : Downstream
one_node = register test_node (codes "/d/l/a") 7 0

abbrev made_hub : Hub ℕ
made_hub = record (set_sub empty_hub 0 (some one_sub)) { next = 1 }

abbrev one_hub : Hub ℕ
one_hub =
    set_stream (set_node made_hub (codes "/r") one_node) (remote_stream (codes "/d/l") (codes "/a"))
      (some one_stream)

abbrev with_next : Registry → ℕ → Registry
with_next r k = record r { next = k }

abbrev with_tables : Registry → Bytes → (Bytes → Option ℕ) → (ℕ → Option ℕ) → Registry
with_tables r n t u = record r { paths = assign beq r.paths n t; sids = assign beq r.sids n u }

update_stream_qos-highest_example :
    broker_update_stream_qos one_hub (some (remote_stream (codes "/d/l") (codes "/a")))
    ≡ ok (
        announced
          (set_stream one_hub
            (remote_stream (codes "/d/l") (codes "/a"))
            (some (record one_stream { resp_qos = 2 })))
          (codes "/d/l")
          (codes "/a")
          one_stream
          2)
unfolding find_req highest beq
update_stream_qos-highest_example =
    update_stream_qos-highest one_hub (codes "/d/l") (codes "/a") one_stream refl
      ((identity_of one_sub, refl, refl, refl), refl, tt)

-- Two paths of one node, by one requester: the second subscriber takes the place of the first in the stream, and takes
-- the stream along when it goes. The first one then points to a stream that is freed.
abbrev shared_requests : Run (Hub ℕ)
shared_requests = do
  one ← handle_subscribe test_services test_tree [] (codes "/r") empty_hub (item (codes "/x") 1)
  two ← handle_subscribe test_services test_tree [] (codes "/r") one (item (codes "/x/") 2)
  handle_unsubscribe (codes "/r") two 2

shared_stream_dangles : (shared_requests >>= λ h. handle_unsubscribe (codes "/r") h 1) ≡ fault
unfolding handle_subscribe handle_unsubscribe new_subscription broker_free_sub_requester
    broker_node_get find_child beq split_path find_req set_req remove_req get_permission
    broker_update_sub_req detach_subs
shared_stream_dangles = refl

-- One path of a node of the broker and one below a link.
abbrev TestPath : Bytes → Type 0
TestPath p = (p ≡ codes "/x") ⊎ (p ≡ codes "/d/l/a")

abbrev test_requests : List (Bytes × Request)
test_requests =
    (codes "/r", subscribe (item (codes "/x") 1))
    ∷ (codes "/r", subscribe (item (codes "/d/l/a") 1))
    ∷ (codes "/s", subscribe (item (codes "/d/l/a") 1))
    ∷ (codes "/r", unsubscribe 1)
    ∷ []
