-- ===== src/Broker/Permission/Access.antt =====
-- permission.c: the walk that computes a requester's permission on a path.
--
-- A path that may be NULL is an `Option`. Each walk is a recursion on the tree: the search for a
-- child goes through the children, and the walk continues in the child that it finds.
use sdk_dslink_c.Prelude.{
  ℕ, Bool, true, false, not, List, [], ◌∷◌, Option, none, some, ltb, ◌==◌, if◌then◌else◌,
}
use sdk_dslink_c.Prelude.Bytes.{Bytes, beq, is_empty, slash, split_path}
use sdk_dslink_c.Broker.Permission.{get_current_permission, permission_none, permission_config}
use sdk_dslink_c.Broker.Permission.Tree.{
  PermissionList, VirtualDownstreamNode, virtual_node, VirtualChildren, no_children, child,
  BrokerNode, regular, downstream, Children, empty, entry, permission_list_of,
}

-- The node's own list applied to the levels: `true` where the walk stops.
abbrev pub apply_list : PermissionList → List Bytes → List ℕ → Bool × List ℕ
apply_list none groups levels = (false, levels)
apply_list (some pairs) groups levels = get_current_permission pairs groups levels

-- `!path || *path == 0`
abbrev pub at_end : Option Bytes → Bool
at_end none = true
at_end (some path) = is_empty path

abbrev pub text : Option Bytes → Bytes
text none = []
text (some path) = path

module _ {J : Type 0} where
  unfoldable mutual
    pub get_virtual_permission :
        Option Bytes → List Bytes → List ℕ → VirtualDownstreamNode J → List ℕ
    get_virtual_permission path groups levels (virtual_node pl meta children) =
        let (stop, levels') = apply_list pl groups levels in
        elim stop [
          | true ↦ levels'
          | false ↦ elim (at_end path) [
            | true ↦ levels'
            | false ↦
                let (name, next) = split_path (text path) in
                virtual_child_permission name next groups levels' children
          ]
        ]

    pub virtual_child_permission :
        Bytes → Option Bytes → List Bytes → List ℕ → VirtualChildren J → List ℕ
    virtual_child_permission name next groups levels no_children = levels
    virtual_child_permission name next groups levels (child n node rest) = elim (beq n name) [
      | true ↦ get_virtual_permission next groups levels node
      | false ↦ virtual_child_permission name next groups levels rest
    ]

  unfoldable mutual
    pub get_node_permission : Option Bytes → List Bytes → List ℕ → BrokerNode J → List ℕ
    get_node_permission path groups levels (regular pl children) =
        let (stop, levels') = apply_list pl groups levels in
        elim stop [
          | true ↦ levels'
          | false ↦ elim (at_end path) [
            | true ↦ levels'
            | false ↦
                let (name, next) = split_path (text path) in
                child_permission name next groups levels' children
          ]
        ]
    get_node_permission path groups levels (downstream pl meta children) =
        let (stop, levels') = apply_list pl groups levels in
        elim stop [
          | true ↦ levels'
          | false ↦ elim (at_end path) [
            | true ↦ levels'
            | false ↦
                let (name, next) = split_path (text path) in
                virtual_child_permission name next groups levels' children
          ]
        ]

    pub child_permission : Bytes → Option Bytes → List Bytes → List ℕ → Children J → List ℕ
    child_permission name next groups levels empty = levels
    child_permission name next groups levels (entry n node rest) = elim (beq n name) [
      | true ↦ get_node_permission next groups levels node
      | false ↦ child_permission name next groups levels rest
    ]

-- `dslink_calloc(glen, sizeof(PermissionLevel))`
abbrev pub zero_levels : List Bytes → List ℕ
zero_levels [] = []
zero_levels (g ∷ groups) = permission_none ∷ zero_levels groups

-- The loop for `maxLevel`.
unfoldable pub max_level : ℕ → List ℕ → ℕ
max_level m [] = m
max_level m (l ∷ levels) = max_level (if ltb m l then l else m) levels

module _ {J : Type 0} where
  unfoldable pub get_permission : Bytes → BrokerNode J → List Bytes → ℕ
  unfolding get_node_permission max_level
  get_permission path root groups = elim (permission_list_of root) [
    | none ↦ permission_config
    | some pairs ↦ elim path [
      | [] ↦ permission_none
      | c ∷ rest ↦
          if not (c == slash)
          then permission_none
          else max_level permission_none
              (get_node_permission (some rest) groups (zero_levels groups) root)
    ]
  ]
