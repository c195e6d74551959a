-- ===== src/Broker/Subscribe/Trace.antt =====
-- broker/src/msg/msg_subscribe.c and msg_unsubscribe.c: any sequence of requests, of any requesters.
use sdk_dslink_c.Prelude.{ℕ, ◌%◌, ◌^◌, ◌≤◌, ◌≡◌, ◌≢◌, true, List, [], ◌∷◌, none, some, length}
use sdk_dslink_c.Prelude.Bytes.{Bytes}
use sdk_dslink_c.Prelude.Run.{Run, ok, ◌>>=◌}
use sdk_dslink_c.Broker.Permission.Tree
use sdk_dslink_c.Broker.Node.{BrokerNode, downstream, broker_node_get}
use sdk_dslink_c.Broker.Subscribe.{StreamKey, Hub, Services}
use sdk_dslink_c.Broker.Subscribe.Handle.{no_sid}
use sdk_dslink_c.Broker.Subscribe.Requests.{
  Request, subscribe, unsubscribe, is_remote, handle_subscribe, handle_unsubscribe,
}
use sdk_dslink_c.Broker.Subscribe.Registry.{Identity, Registry, IsSound}
use sdk_dslink_c.Broker.Subscribe.Attach.{stream_for}
use sdk_dslink_c.Broker.Subscribe.Origin.{Origin}

-- No two of these paths lead to the same stream, none leads to the broker as a link, and those of missing links are
-- long enough for broker_downstream_node_base_len.
pub record AreCanonical (root : BrokerNode) (P : Bytes → Type 0) : Type 0 where
  pub apart :
      (p q : Bytes) (key : StreamKey)
      → P p
      → P q
      → stream_for (broker_node_get root p) ≡ some key
      → stream_for (broker_node_get root q) ≡ some key
      → p ≡ q
  pub long : (p : Bytes) → P p → broker_node_get root p ≡ none → is_remote p ≡ true → 13 ≤ length p
  pub inside : (p m : Bytes) → P p → broker_node_get root p ≢ some (downstream m, none)

-- Consistent tables whose subscribers are of these paths, in the streams that the paths lead to.
pub record IsOrderly (root : BrokerNode) (P : Bytes → Type 0) (r : Registry) : Type 0 where
  pub sound : IsSound r
  pub rooted : r.root ≡ root
  pub placed :
      (k : ℕ) (i : Identity)
      → r.subs k ≡ some i
      → P i.path × (i.stream ≡ stream_for (broker_node_get root i.path))

module _ (root : BrokerNode) (P : Bytes → Type 0) (canonical : AreCanonical root P) where
  -- A request with a path and an id has one of these paths, and not the id 0xFFFFFFFF.
  abbrev pub IsGood : Request → Type 0
  IsGood (subscribe item) =
      (path : Bytes) (s : ℕ)
      → item.path ≡ some path
      → item.sid ≡ some s
      → P path × (s % 2 ^ 32 ≢ no_sid)
  IsGood (unsubscribe value) = Unit

  abbrev pub AreGood : List (Bytes × Request) → Type 0
  AreGood [] = Unit
  AreGood ((_, q) ∷ qs) = IsGood q × AreGood qs

-- Requests one after the other, each with its requester.
unfoldable pub serve :
    {J : Type 0}
    → Services J
    → Tree.BrokerNode J
    → (Bytes → List Bytes)
    → Hub J
    → List (Bytes × Request)
    → Run (Hub J)
unfolding handle_subscribe handle_unsubscribe
serve services tree groups h [] = ok h
serve services tree groups h ((n, subscribe item) ∷ qs) = do
  h' ← handle_subscribe services tree (groups n) n h item
  serve services tree groups h' qs
serve services tree groups h ((n, unsubscribe value) ∷ qs) = do
  h' ← handle_unsubscribe n h value
  serve services tree groups h' qs
