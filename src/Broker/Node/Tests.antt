-- ===== src/Broker/Node/Tests.antt =====
-- Witnesses of the theorems on node.c.
use sdk_dslink_c.Prelude.{◌≡◌, refl, [], ◌∷◌, some, none, arith}
use sdk_dslink_c.Prelude.Bytes.{codes, slash, beq}
use sdk_dslink_c.Broker.Node.{
  regular, downstream, Children, no_child, child, find_child, broker_node_get, list_path,
}
use sdk_dslink_c.Broker.Node.Resolve.{text, walk, broker_node_get-walk}
use sdk_dslink_c.Broker.Node.Path.{broker_node_get-path}
use sdk_dslink_c.Broker.Node.Confusion.{broker_node_get-confuses}

abbrev links : Children
links = child (codes "l") (downstream (codes "/d/l")) no_child

abbrev test_children : Children
test_children = child (codes "d") (regular (codes "/d") links) no_child

broker_node_get-walk_example :
    broker_node_get (regular (codes "/") test_children) (codes "/d/l/x")
    ≡ walk (regular (codes "/") test_children) (codes "d" ∷ codes "l" ∷ codes "x" ∷ [])
broker_node_get-walk_example =
    broker_node_get-walk (codes "/") test_children (codes "d") (codes "l" ∷ codes "x" ∷ []) (
      (refl, ((λ e. omega arith), tt)),
      ((refl, ((λ e. omega arith), tt)), ((refl, ((λ e. omega arith), tt)), tt)),
    )

broker_node_get-path_example :
    (codes "/d" ≡ text (codes "d" ∷ []))
    × (broker_node_get (regular (codes "/") test_children) (codes "/d")
        ≡ some (regular (codes "/d") links, none))
unfolding walk beq
broker_node_get-path_example =
    broker_node_get-path test_children (codes "d") [] (codes "/d") links
      (refl, ((refl, (tt, tt)), tt)) ((refl, ((λ e. omega arith), tt)), tt) refl

broker_node_get-confuses_example :
    (broker_node_get (regular (codes "/") test_children) (codes "/d/l")
      ≡ some (downstream (codes "/d/l"), some (codes "/l")))
    × (broker_node_get (regular (codes "/") test_children) (codes "/d/l/l")
        ≡ some (downstream (codes "/d/l"), some (codes "/l")))
    × (list_path (codes "l") (codes "/l") ≡ slash ∷ [])
unfolding walk beq find_child
broker_node_get-confuses_example =
    broker_node_get-confuses (codes "/") test_children (codes "d") [] (codes "/d") links (codes "l")
      (codes "/d/l") ((refl, ((λ e. omega arith), tt)), tt) ((refl, ((λ e. omega arith), tt)), tt)
      refl refl
