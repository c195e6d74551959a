-- ===== src/Broker/Permission/Spec.antt =====
-- What a permission is meant to be, without the early exit of permission.c: the permission lists
-- along a path, what each gives a group, and the highest of all.
use sdk_dslink_c.Prelude.{
  ℕ, ◌≤◌, List, [], ◌∷◌, ◌++◌, Option, none, some, max, if◌then◌else◌, ◌==◌, true, false,
}
use sdk_dslink_c.Prelude.Bytes.{Bytes, beq, slash, split_path}
use sdk_dslink_c.Broker.Permission.{PermissionPair, first_match, permission_none, permission_config}
use sdk_dslink_c.Broker.Permission.Tree.{
  PermissionList, VirtualDownstreamNode, virtual_node, VirtualChildren, no_children, child,
  BrokerNode, regular, downstream, Children, empty, entry, permission_list_of,
}
use sdk_dslink_c.Broker.Permission.Access.{at_end, text}

abbrev pub own : PermissionList → List (List PermissionPair)
own none = []
own (some pairs) = pairs ∷ []

-- The permission lists from a node down to the end of a path, or to where the path leaves the tree.
module _ {J : Type 0} where
  unfoldable mutual
    pub virtual_lists : Option Bytes → VirtualDownstreamNode J → List (List PermissionPair)
    virtual_lists path (virtual_node pl meta children) = own pl ++ (elim (at_end path) [
      | true ↦ []
      | false ↦ let (name, next) = split_path (text path) in virtual_child_lists name next children
    ])

    pub virtual_child_lists : Bytes → Option Bytes → VirtualChildren J → List (List PermissionPair)
    virtual_child_lists name next no_children = []
    virtual_child_lists name next (child n node rest) = elim (beq n name) [
      | true ↦ virtual_lists next node
      | false ↦ virtual_child_lists name next rest
    ]

  unfoldable mutual
    pub node_lists : Option Bytes → BrokerNode J → List (List PermissionPair)
    node_lists path (regular pl children) = own pl ++ (elim (at_end path) [
      | true ↦ []
      | false ↦ let (name, next) = split_path (text path) in child_lists name next children
    ])
    node_lists path (downstream pl meta children) = own pl ++ (elim (at_end path) [
      | true ↦ []
      | false ↦ let (name, next) = split_path (text path) in virtual_child_lists name next children
    ])

    pub child_lists : Bytes → Option Bytes → Children J → List (List PermissionPair)
    child_lists name next empty = []
    child_lists name next (entry n node rest) = elim (beq n name) [
      | true ↦ node_lists next node
      | false ↦ child_lists name next rest
    ]

-- What one list gives a group: its first pair for the group or for everybody.
abbrev pub grant : Bytes → List PermissionPair → ℕ
grant group pairs = elim (first_match group pairs) [ none ↦ permission_none | some p ↦ p ]

-- The highest of what the lists give a group.
unfoldable pub level_of : Bytes → List (List PermissionPair) → ℕ
level_of group [] = permission_none
level_of group (pairs ∷ lists) = max (grant group pairs) (level_of group lists)

-- The highest of what the lists give any of the groups.
unfoldable pub granted : List Bytes → List (List PermissionPair) → ℕ
granted [] lists = permission_none
granted (g ∷ groups) lists = max (level_of g lists) (granted groups lists)

-- The lists that decide on a path from the root; none for a path that does not begin with a slash.
abbrev pub lists_on : {J : Type 0} → Bytes → BrokerNode J → List (List PermissionPair)
lists_on [] root = []
lists_on (c ∷ rest) root = if c == slash then node_lists (some rest) root else []

-- The permission on a path.
unfoldable pub permitted : {J : Type 0} → Bytes → BrokerNode J → List Bytes → ℕ
permitted path root groups = elim (permission_list_of root) [
  | none ↦ permission_config
  | some _ ↦ granted groups (lists_on path root)
]

-- No pair of a list goes beyond `PERMISSION_CONFIG`, as `permission_list_load` sees to.
abbrev pub Bounded : List PermissionPair → Type 0
Bounded [] = Unit {0}
Bounded (pair ∷ pairs) = (pair.permission ≤ permission_config) × Bounded pairs

abbrev pub AllBounded : List (List PermissionPair) → Type 0
AllBounded [] = Unit {0}
AllBounded (pairs ∷ lists) = Bounded pairs × AllBounded lists
