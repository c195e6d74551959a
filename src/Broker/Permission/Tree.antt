-- ===== src/Broker/Permission/Tree.antt =====
-- The broker's node tree (broker/include/broker/node.h), as far as permissions go, with the
-- `Map`s of children as lists of entries in insertion order.
--
-- A regular node has regular children and downstream nodes; a downstream node, the root of a
-- connected link, has virtual nodes that only carry permissions and attributes.
use sdk_dslink_c.Prelude.{List, Option, none, some, if◌then◌else◌}
use sdk_dslink_c.Prelude.Bytes.{Bytes, beq}
use sdk_dslink_c.Broker.Permission.{PermissionPair}

abbrev pub PermissionList : Type 0
PermissionList = Option (List PermissionPair)

-- `VirtualDownstreamNode`, with its attributes `meta` of any kind.
mutual
  pub data VirtualDownstreamNode (J : Type 0) : Type 0 where
    virtual_node : PermissionList → List (Bytes × J) → VirtualChildren J → VirtualDownstreamNode J

  pub data VirtualChildren (J : Type 0) : Type 0 where
    no_children : VirtualChildren J
    child : Bytes → VirtualDownstreamNode J → VirtualChildren J → VirtualChildren J

-- `BrokerNode` and `DownstreamNode`, by the field `type`.
mutual
  pub data BrokerNode (J : Type 0) : Type 0 where
    regular : PermissionList → Children J → BrokerNode J
    downstream : PermissionList → List (Bytes × J) → VirtualChildren J → BrokerNode J

  pub data Children (J : Type 0) : Type 0 where
    empty : Children J
    entry : Bytes → BrokerNode J → Children J → Children J

abbrev pub permission_list_of : {J : Type 0} → BrokerNode J → PermissionList
permission_list_of (regular pl _) = pl
permission_list_of (downstream pl _ _) = pl

-- A recursion over a tree hands each node's work its children; these find one by its name.
module _ {J : Type 0} where
  unfoldable pub find_virtual : Bytes → VirtualChildren J → Option (VirtualDownstreamNode J)
  find_virtual name no_children = none
  find_virtual name (child n node rest) = if beq n name then some node else find_virtual name rest

  unfoldable pub find_child : Bytes → Children J → Option (BrokerNode J)
  find_child name empty = none
  find_child name (entry n node rest) = if beq n name then some node else find_child name rest
