-- ===== src/Broker/Node.antt =====
-- broker/src/node/node.c: the broker's tree of nodes, the paths of its nodes, and how a path finds a node.
pub mod Resolve
pub mod Path
pub mod Confusion
mod Tests
use sdk_dslink_c.Prelude.{
  ℕ, suc, ◌+◌, ◌-◌, ◌^◌, Bool, true, false, ◌&&◌, [], ◌∷◌, ◌++◌, ◌||◌, ◌==◌, Option, none, some,
  leb, if◌then◌else◌,
}
use sdk_dslink_c.Prelude.Bytes.{Bytes, slash, beq, is_empty, split_path}

-- `BrokerNode` and `DownstreamNode`, by the field `type`, with their paths. `children` is a list of the nodes with their
-- names; it is NULL for a downstream node.
mutual
  pub data BrokerNode : Type 0 where
    regular : Bytes → Children → BrokerNode
    downstream : Bytes → BrokerNode

  pub data Children : Type 0 where
    no_child : Children
    child : Bytes → BrokerNode → Children → Children

abbrev pub path_of : BrokerNode → Bytes
path_of (regular path children) = path
path_of (downstream path) = path

unfoldable pub find_child : Bytes → Children → Option BrokerNode
find_child name no_child = none
find_child name (child n node rest) = if beq n name then some node else find_child name rest

-- The path that broker_node_add gives a child.
abbrev pub child_path : Bytes → Bytes → Bytes
child_path parent name = (if beq parent (slash ∷ []) then [] else parent) ++ (slash ∷ name)

-- A node, and what broker_node_get stores at `out`, `none` where it stores nothing.
abbrev pub Found : Type 0
Found = BrokerNode × Option Bytes

-- The part behind a leading slash.
abbrev pub strip : Bytes → Bytes
strip [] = []
strip (c ∷ path) = if c == slash then path else c ∷ path

-- The last name of a path. For a downstream node `out` is the name, with the slash if one was stripped.
abbrev pub found_leaf : Bytes → Option BrokerNode → Option Found
found_leaf path none = none
found_leaf path (some (regular p children)) = some (regular p children, none)
found_leaf path (some (downstream p)) = some (downstream p, some path)

abbrev pub children_of : BrokerNode → Children
children_of (regular path children) = children
children_of (downstream path) = no_child

unfoldable mutual
  unfolding find_child split_path

  pub broker_node_get : BrokerNode → Bytes → Option Found
  broker_node_get (downstream p) path =
      if beq path (slash ∷ []) || is_empty (strip path) then some (downstream p, none) else none
  broker_node_get (regular p children) path =
      let (name, next) = split_path (strip path) in
      if beq path (slash ∷ []) then some (regular p children, none) else elim next [
        | some rest ↦ get_below children name (slash ∷ rest)
        | none ↦
            if is_empty name
            then some (regular p children, none)
            else found_leaf path (find_child name children)
      ]

  -- The child of a name, from which the search goes on at `end`.
  pub get_below : Children → Bytes → Bytes → Option Found
  get_below no_child name end = none
  get_below (child n node rest) name end =
      let onward = broker_node_get node end in
      let others = get_below rest name end in
      if beq n name
      then elim node [ regular _ _ ↦ onward | downstream p ↦ some (downstream p, some end) ]
      else others

abbrev pub int32_max : ℕ
int32_max = 2 ^ 31 - 1

-- The new counter and the result.
unfoldable pub broker_node_incr_rid : ℕ → ℕ × ℕ
broker_node_incr_rid rid = let last = if leb int32_max rid then 1 else rid in (last + 1, last + 1)

unfoldable pub broker_node_incr_sid : ℕ → ℕ × ℕ
broker_node_incr_sid sid = let last = if leb int32_max sid then 0 else sid in (last + 1, last)

-- The path that broker_msg_handle_list asks a link for, from the name of its node and `out`.
unfoldable pub list_path : Bytes → Bytes → Bytes
list_path name [] = []
list_path name (c ∷ out) = if c == slash && beq name out then slash ∷ [] else c ∷ out
