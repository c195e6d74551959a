-- ===== src/Broker/Node/Confusion.antt =====
-- broker_node_get of broker/src/node/node.c on the node of a link and on a node directly below it.
use sdk_dslink_c.Prelude.{◌≡◌, refl, ap, ◌∙◌, [], ◌∷◌, ◌++◌, List, Option, none, some, append-nil}
use sdk_dslink_c.Prelude.Bytes.{Bytes, slash, beq_refl}
use sdk_dslink_c.Broker.Node.{
  BrokerNode, regular, downstream, Children, find_child, Found, broker_node_get, list_path,
}
use sdk_dslink_c.Broker.Node.Resolve.{
  AreNames, text, walk, go_on, left_for_link, broker_node_get-walk,
}

go_on-append :
    (ns ms : List Bytes) (left left' : Bytes) (o : Option BrokerNode) (p : Bytes)
    (children : Children)
    → ((q : Bytes) (c : Children)
        → walk (regular q c) ns ≡ some (regular p children, none)
        → walk (regular q c) (ns ++ ms) ≡ walk (regular p children) ms)
    → go_on ns left o ≡ some (regular p children, none)
    → go_on (ns ++ ms) left' o ≡ walk (regular p children) ms
go_on-append ns ms left left' none p children ih e = cc
go_on-append ns ms left left' (some (regular q c)) p children ih e = ih q c e
go_on-append ns ms left left' (some (downstream q)) p children ih e = cc

walk_from : List Bytes → Option Found → Option Found
walk_from ms none = none
walk_from ms (some (node, out)) = walk node ms

walk-append :
    (q : Bytes) (c : Children) (ns ms : List Bytes) (p : Bytes) (children : Children)
    → walk (regular q c) ns ≡ some (regular p children, none)
    → walk (regular q c) (ns ++ ms) ≡ walk (regular p children) ms
unfolding walk walk_from
walk-append q c [] ms p children e = ap (walk_from ms) e
walk-append q c (n ∷ ns) ms p children e =
    go_on-append ns ms (left_for_link n ns) (left_for_link n (ns ++ ms)) (find_child n c) p children
      (λ r d. walk-append r d ns ms p children) e

AreNames-append : (ns ms : List Bytes) → AreNames ns → AreNames ms → AreNames (ns ++ ms)
AreNames-append [] ms h k = k
AreNames-append (n ∷ ns) ms (e, h) k = (e, AreNames-append ns ms h k)

-- A link's node, and a node of the link that has the link's own name, directly below it: for the paths of both
-- broker_node_get gives the same node and the same text for the link, and a list request on either becomes one on "/".
pub broker_node_get-confuses :
    (q : Bytes) (c : Children) (m : Bytes) (ms : List Bytes) (p : Bytes) (children : Children)
    (n d : Bytes)
    → AreNames (m ∷ ms)
    → AreNames (n ∷ [])
    → walk (regular q c) (m ∷ ms) ≡ some (regular p children, none)
    → find_child n children ≡ some (downstream d)
    → (broker_node_get (regular q c) (text ((m ∷ ms) ++ (n ∷ [])))
        ≡ some (downstream d, some (text (n ∷ []))))
      × (broker_node_get (regular q c) (text ((m ∷ ms) ++ (n ∷ n ∷ [])))
          ≡ some (downstream d, some (text (n ∷ []))))
      × (list_path n (text (n ∷ [])) ≡ slash ∷ [])
unfolding walk list_path
broker_node_get-confuses q c m ms p children n d names (name, _) e found = (
  broker_node_get-walk q c m (ms ++ (n ∷ [])) (AreNames-append (m ∷ ms) (n ∷ []) names (name, tt))
      ∙ walk-append q c (m ∷ ms) (n ∷ []) p children e
      ∙ rw (walk, found) refl,
  broker_node_get-walk q c m (ms ++ (n ∷ n ∷ []))
        (AreNames-append (m ∷ ms) (n ∷ n ∷ []) names (name, (name, tt)))
      ∙ walk-append q c (m ∷ ms) (n ∷ n ∷ []) p children e
      ∙ rw (walk, found) refl,
  rw (append-nil n) (rw (beq_refl n) refl),
)
