-- ===== src/Broker/Permission/Update.antt =====
-- permission.c: a requester reads and replaces the permission list of a path.
--
-- The walks recurse on fuel, one unit for each name of the path: Permission/Stored shows how much is
-- enough. A walk returns the tree after it: also the reading one creates virtual nodes on its way.
use sdk_dslink_c.Prelude.{
  ℕ, zero, suc, not, true, false, List, [], ◌∷◌, Option, none, some, ltb, ◌==◌, if◌then◌else◌,
}
use sdk_dslink_c.Prelude.Run.{Run, ok, fault, out_of_fuel, ◌>>=◌}
use sdk_dslink_c.Prelude.Bytes.{Bytes, codes, beq, split_path}
use sdk_dslink_c.Text.Compare.{starts_with}
use sdk_dslink_c.Broker.Permission.{permission_config, permission_read}
use sdk_dslink_c.Broker.Permission.Tree.{
  PermissionList, VirtualDownstreamNode, virtual_node, VirtualChildren, no_children, child,
  BrokerNode, regular, downstream, Children, empty, entry, find_virtual, find_child,
}
use sdk_dslink_c.Broker.Permission.Access.{at_end, text, get_permission}
use sdk_dslink_c.Broker.Permission.Json.{Jansson, permission_list_load, permission_list_save}

module _ {J : Type 0} where
  -- `virtual_downstream_node_init`
  abbrev pub virtual_downstream_node_init : VirtualDownstreamNode J
  virtual_downstream_node_init = virtual_node none [] no_children

  -- `dslink_map_set` on the children: in place of the entry of that name, or behind the others.
  unfoldable pub put_virtual :
      Bytes → VirtualDownstreamNode J → VirtualChildren J → VirtualChildren J
  put_virtual name node no_children = child name node no_children
  put_virtual name node (child n old rest) =
      if beq n name then child n node rest else child n old (put_virtual name node rest)

  unfoldable pub put_child : Bytes → BrokerNode J → Children J → Children J
  put_child name node empty = entry name node empty
  put_child name node (entry n old rest) =
      if beq n name then entry n node rest else entry n old (put_child name node rest)

  -- The child of a name, or a new one.
  abbrev pub virtual_child : Bytes → VirtualChildren J → VirtualDownstreamNode J
  virtual_child name kids = elim (find_virtual name kids) [
    | none ↦ virtual_downstream_node_init
    | some node ↦ node
  ]

  unfoldable pub set_virtual_permission_list :
      ℕ → Option Bytes → PermissionList → VirtualDownstreamNode J → Run (VirtualDownstreamNode J)
  set_virtual_permission_list zero path pl node = out_of_fuel
  set_virtual_permission_list (suc fuel) path pl (virtual_node own meta kids) = elim (at_end path) [
    | true ↦ ok (virtual_node pl meta kids)
    | false ↦ do
      let step = split_path (text path)
      node ← set_virtual_permission_list fuel step.1 pl (virtual_child step.0 kids)
      ok (virtual_node own meta (put_virtual step.0 node kids))
  ]

  -- The code, 1 if the path leaves the tree, and the tree.
  unfoldable pub set_node_permission_list :
      ℕ → Option Bytes → PermissionList → BrokerNode J → Run (ℕ × BrokerNode J)
  unfolding set_virtual_permission_list
  set_node_permission_list zero path pl node = out_of_fuel
  set_node_permission_list (suc fuel) path pl (regular own kids) = elim (at_end path) [
    | true ↦ ok (0, regular pl kids)
    | false ↦
        let step = split_path (text path) in
        elim (find_child step.0 kids) [
          | none ↦ ok (1, regular own kids)
          | some found ↦ do
            (code, node) ← set_node_permission_list fuel step.1 pl found
            ok (code, regular own (put_child step.0 node kids))
        ]
  ]
  set_node_permission_list (suc fuel) path pl (downstream own meta kids) = elim (at_end path) [
    | true ↦ ok (0, downstream pl meta kids)
    | false ↦ do
      let step = split_path (text path)
      node ← set_virtual_permission_list fuel step.1 pl (virtual_child step.0 kids)
      ok (0, downstream own meta (put_virtual step.0 node kids))
  ]

  unfoldable pub get_virtual_permission_list :
      ℕ → Option Bytes → VirtualDownstreamNode J → Run (PermissionList × VirtualDownstreamNode J)
  get_virtual_permission_list zero path node = out_of_fuel
  get_virtual_permission_list (suc fuel) path (virtual_node own meta kids) = elim (at_end path) [
    | true ↦ ok (own, virtual_node own meta kids)
    | false ↦ do
      let step = split_path (text path)
      (pl, node) ← get_virtual_permission_list fuel step.1 (virtual_child step.0 kids)
      ok (pl, virtual_node own meta (put_virtual step.0 node kids))
  ]

  -- `none` in front where the walk ends outside the tree.
  unfoldable pub get_node_permission_list :
      ℕ → Option Bytes → BrokerNode J → Run (Option PermissionList × BrokerNode J)
  unfolding get_virtual_permission_list
  get_node_permission_list zero path node = out_of_fuel
  get_node_permission_list (suc fuel) path (regular own kids) = elim (at_end path) [
    | true ↦ ok (some own, regular own kids)
    | false ↦
        let step = split_path (text path) in
        elim (find_child step.0 kids) [
          | none ↦ ok (none, regular own kids)
          | some found ↦ do
            (pl, node) ← get_node_permission_list fuel step.1 found
            ok (pl, regular own (put_child step.0 node kids))
        ]
  ]
  get_node_permission_list (suc fuel) path (downstream own meta kids) = elim (at_end path) [
    | true ↦ ok (some own, downstream own meta kids)
    | false ↦ do
      let step = split_path (text path)
      (pl, node) ← get_virtual_permission_list fuel step.1 (virtual_child step.0 kids)
      ok (some pl, downstream own meta (put_virtual step.0 node kids))
  ]

-- What `set_permission_list` makes the broker save.
pub data Saved : Type 0 where
  nothing change_default_permissions data_nodes_changed downstream_nodes_changed : Saved

abbrev pub saved_for : Bytes → Saved
saved_for path =
    if beq path (codes "/")
    then change_default_permissions
    else if starts_with path (codes "/data/")
    then data_nodes_changed
    else if starts_with path (codes "/downstream/")
    then downstream_nodes_changed
    else nothing

module _ {J : Type 0} (jansson : Jansson) where
  open jansson use {Json, json_is_array}

  -- The code, the tree, and what is saved. The list is loaded where the walk ends, which does not
  -- depend on the walk. On the empty text `path+1` lies behind its end.
  unfoldable pub set_permission_list :
      ℕ → Bytes → BrokerNode J → List Bytes → Json → Run (ℕ × BrokerNode J × Saved)
  set_permission_list fuel path root groups json =
      if not (json_is_array json)
      then ok (1, root, nothing)
      else if not (get_permission path root groups == permission_config)
      then ok (1, root, nothing)
      else elim path [
        | [] ↦ fault
        | c ∷ rest ↦ do
          (code, root') ←
              set_node_permission_list fuel (some rest) (permission_list_load jansson (some json))
                root
          ok (code, root', (if code == 0 then saved_for (c ∷ rest) else nothing))
      ]

  unfoldable pub get_permission_list :
      ℕ → Bytes → BrokerNode J → List Bytes → Run (Option Json × BrokerNode J)
  get_permission_list fuel path root groups =
      if ltb (get_permission path root groups) permission_read then ok (none, root) else elim path [
        | [] ↦ fault
        | c ∷ rest ↦ do
          (pl, root') ← get_node_permission_list fuel (some rest) root
          ok ((elim pl [ none ↦ none | some l ↦ permission_list_save jansson l ]), root')
      ]
