-- ===== src/Broker/Permission/Tests.antt =====
-- Runs of permission.c, and its theorems at a concrete tree.
use sdk_dslink_c.Prelude.{
  ℕ, ◌≤◌, ◌≡◌, refl, ap, ◌⊎◌, Bool, true, false, List, [], ◌∷◌, ◌++◌, Option, none, inl, some,
  arith,
}
use sdk_dslink_c.Prelude.Run.{ok}
use sdk_dslink_c.Prelude.Bytes.{Bytes, codes, beq, slash, split_path}
use sdk_dslink_c.Broker.Permission.{
  PermissionPair, permission_config, get_current_permission, first_match,
}
use sdk_dslink_c.Broker.Permission.Groups.{
  PermissionGroups, permission_groups_load, permission_groups_load-groups, non_empty, split_commas,
}
use sdk_dslink_c.Broker.Permission.Tree.{
  virtual_node, no_children, child, BrokerNode, regular, downstream, empty, entry,
}
use sdk_dslink_c.Broker.Permission.Access.{get_permission, get_virtual_permission}
use sdk_dslink_c.Broker.Permission.Spec.{permitted, node_lists}
use sdk_dslink_c.Broker.Permission.Correct.{get_permission-permitted}
use sdk_dslink_c.Broker.Permission.Inherit.{get_permission-inherits}
use sdk_dslink_c.Broker.Permission.Json.{
  Jansson, permission_list_load, permission_list_save, load-save,
}
use sdk_dslink_c.Broker.Permission.Update.{
  nothing, set_permission_list, get_node_permission_list, saved_for,
}
use sdk_dslink_c.Broker.Permission.Stored.{set_permission_list-stores}

-- JSON values as far as permission lists go.
mutual
  data Value : Type 0 where
    null : Value
    text : Bytes → Value
    array : Values → Value

  data Values : Type 0 where
    nil : Values
    cons : Value → Values → Values

abbrev to_list : Values → List Value
to_list nil = []
to_list (cons v vs) = v ∷ to_list vs

abbrev from_list : List Value → Values
from_list [] = nil
from_list (v ∷ vs) = cons v (from_list vs)

to-from_list : (vs : List Value) → to_list (from_list vs) ≡ vs
to-from_list [] = refl
to-from_list (v ∷ vs) = ap (λ l. v ∷ l) (to-from_list vs)

abbrev is_array : Value → Bool
is_array null = false
is_array (text s) = false
is_array (array vs) = true

abbrev elements : Value → List Value
elements null = []
elements (text s) = []
elements (array vs) = to_list vs

abbrev string_value : Value → Option Bytes
string_value null = none
string_value (text s) = some s
string_value (array vs) = none

abbrev values : Jansson
values = record {
  Json = Value;
  json_is_array = is_array;
  json_elements = elements;
  json_string_value = string_value;
  json_array = λ vs. array (from_list vs);
  json_string = text;
  is_array-array = λ vs. refl;
  elements-array = to-from_list;
  string_value-string = λ s. refl;
}

abbrev pair : Bytes → ℕ → PermissionPair
pair group permission = record { group = group; permission = permission }

-- "/" lists for everybody and gives "admin" all; "/data" is for "ops" to write; "/downstream/link"
-- holds a virtual node "x" that everybody may read.
abbrev tree : BrokerNode ℕ
tree = regular (some (pair (codes "admin") 4 ∷ pair (codes "default") 1 ∷ [])) (
    entry (codes "data") (regular (some (pair (codes "ops") 3 ∷ [])) empty) (
      entry (codes "downstream")
        (regular none (
          entry (codes "link")
            (downstream none [] (
              child (codes "x") (virtual_node (some (pair (codes "default") 2 ∷ [])) [] no_children)
                no_children))
            empty))
        empty))

ops_on_data : get_permission (codes "/data/a") tree (codes "ops" ∷ []) ≡ 3
unfolding get_permission get_current_permission first_match split_path beq
ops_on_data = refl

anybody_on_x : get_permission (codes "/downstream/link/x") tree (codes "guest" ∷ []) ≡ 2
unfolding get_permission get_virtual_permission get_current_permission first_match split_path beq
anybody_on_x = refl

groups_of_link :
    permission_groups_load (codes "id") (some (codes "a,,b,c,d"))
    ≡ ok (record {
      groups = codes "a" ∷ codes "b" ∷ codes "c" ∷ codes "d" ∷ codes "id" ∷ [];
      allocated = 8;
    })
unfolding permission_groups_load
groups_of_link = refl

permission_groups_load-groups_example :
    (g : PermissionGroups) × (permission_groups_load (codes "id") (some (codes "a,,b")) ≡ ok g)
    × (g.groups ≡ non_empty (split_commas [] (codes "a,,b")) ++ (codes "id" ∷ []))
permission_groups_load-groups_example = permission_groups_load-groups (codes "id") (codes "a,,b")

get_permission-permitted_example :
    get_permission (codes "/data/a") tree (codes "ops" ∷ [])
    ≡ permitted (codes "/data/a") tree (codes "ops" ∷ [])
unfolding node_lists split_path beq
get_permission-permitted_example =
    get_permission-permitted (codes "/data/a") tree (codes "ops" ∷ []) (omega arith)

get_permission-inherits_example :
    get_permission (codes "/data") tree (codes "ops" ∷ [])
    ≤ get_permission (codes "/data/a") tree (codes "ops" ∷ [])
unfolding node_lists split_path beq
get_permission-inherits_example =
    get_permission-inherits (codes "/data") (codes "a") (codes "/data/a") tree (codes "ops" ∷ [])
      (inl refl) (omega arith)

abbrev mixed : List PermissionPair
mixed = pair (codes "ops") 3 ∷ pair (codes "old") 5 ∷ pair (codes "default") 1 ∷ []

load-save_example :
    permission_list_load values (permission_list_save values (some mixed))
    ≡ some (pair (codes "ops") 3 ∷ pair (codes "default") 1 ∷ [])
load-save_example = load-save values mixed

abbrev two_pairs : Value
two_pairs = array (
    cons (array (cons (text (codes "ops")) (cons (text (codes "write")) nil)))
      (cons (array (cons (text (codes "old")) (cons (text (codes "never")) nil))) nil))

set_permission_list-stores_example :
    (set_permission_list values 9 (codes "/data") tree (codes "admin" ∷ []) two_pairs
      ≡ ok (1, tree, nothing))
    ⊎ ((true ≡ true)
        × (get_permission (codes "/data") tree (codes "admin" ∷ []) ≡ permission_config)
        × (set : BrokerNode ℕ) × (set_permission_list values 9
              (codes "/data")
              tree
              (codes "admin" ∷ [])
              two_pairs
            ≡ ok (0, set, saved_for (codes "/data")))
        × (got : BrokerNode ℕ) × (get_node_permission_list 9 (some (codes "data")) set
            ≡ ok (some (permission_list_load values (some two_pairs)), got)))
set_permission_list-stores_example =
    set_permission_list-stores values 9 slash (codes "data") tree (codes "admin" ∷ []) two_pairs
      (omega arith)
