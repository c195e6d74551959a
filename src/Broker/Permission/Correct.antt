-- ===== src/Broker/Permission/Correct.antt =====
-- `get_permission` against its specification: the early exit and the order of its loops do not
-- change the result.
use sdk_dslink_c.Prelude.{
  ℕ, ◌≡◌, refl, sym, List, [], ◌∷◌, ◌++◌, Option, none, some, arith, ◌==◌, true, false, Bool-cases,
  inl, inr,
}
use sdk_dslink_c.Prelude.Bytes.{Bytes, slash, split_path}
use sdk_dslink_c.Broker.Permission.{PermissionPair, get_current_permission, permission_none}
use sdk_dslink_c.Broker.Permission.Tree.{
  PermissionList, VirtualDownstreamNode, virtual_node, VirtualChildren, no_children, child,
  BrokerNode, regular, downstream, Children, empty, entry,
}
use sdk_dslink_c.Broker.Permission.Access.{
  text, apply_list, zero_levels, get_permission, get_virtual_permission, virtual_child_permission,
  get_node_permission, child_permission,
}
use sdk_dslink_c.Broker.Permission.Levels.{
  top, max_level-top, Fits, raise, best, best-le, best-nil, best-raise, raise-Fits,
  get_current_permission-raise, zero_levels-Fits, best-zero, granted-nil,
  get_current_permission-stop,
}
use sdk_dslink_c.Broker.Permission.Spec.{
  own, virtual_lists, virtual_child_lists, node_lists, child_lists, lists_on, permitted, AllBounded,
}

-- The walk as a loop over the permission lists along the path.
apply_lists : List (List PermissionPair) → List Bytes → List ℕ → List ℕ
apply_lists [] groups levels = levels
apply_lists (pairs ∷ lists) groups levels =
    let (stop, levels') = get_current_permission pairs groups levels in
    elim stop [ true ↦ levels' | false ↦ apply_lists lists groups levels' ]

-- A node's own list, and then the lists below it.
apply_own :
    (pl : PermissionList) (below : List (List PermissionPair)) (groups : List Bytes)
    (levels : List ℕ)
    → apply_lists (own pl ++ below) groups levels ≡ (elim (apply_list pl groups levels).0 [
      | true ↦ (apply_list pl groups levels).1
      | false ↦ apply_lists below groups (apply_list pl groups levels).1
    ])
unfolding apply_lists
apply_own none below groups levels = refl
apply_own (some pairs) below groups levels = refl

module _ {J : Type 0} (groups : List Bytes) where
  mutual
    unfolding get_virtual_permission virtual_lists apply_lists

    virtual_walk :
        (path : Option Bytes) (levels : List ℕ) (node : VirtualDownstreamNode J)
        → get_virtual_permission path groups levels node
          ≡ apply_lists (virtual_lists path node) groups levels
    virtual_walk path levels (virtual_node pl meta kids) =
        let rest =
          virtual_child_walk (split_path (text path)).0 (split_path (text path)).1
            (apply_list pl groups levels).1 kids in
        ground (
          arith,
          apply_own pl [] groups levels,
          apply_own pl
              (virtual_child_lists (split_path (text path)).0 (split_path (text path)).1 kids)
              groups levels,
        )

    virtual_child_walk :
        (name : Bytes) (next : Option Bytes) (levels : List ℕ) (kids : VirtualChildren J)
        → virtual_child_permission name next groups levels kids
          ≡ apply_lists (virtual_child_lists name next kids) groups levels
    virtual_child_walk name next levels no_children = refl
    virtual_child_walk name next levels (child n node rest) =
        ground (arith, virtual_walk next levels node, virtual_child_walk name next levels rest)

  mutual
    unfolding get_node_permission node_lists apply_lists

    node_walk :
        (path : Option Bytes) (levels : List ℕ) (node : BrokerNode J)
        → get_node_permission path groups levels node
          ≡ apply_lists (node_lists path node) groups levels
    node_walk path levels (regular pl kids) =
        let rest =
          child_walk (split_path (text path)).0 (split_path (text path)).1
            (apply_list pl groups levels).1 kids in
        ground (
          arith,
          apply_own pl [] groups levels,
          apply_own pl (child_lists (split_path (text path)).0 (split_path (text path)).1 kids)
              groups levels,
        )
    node_walk path levels (downstream pl meta kids) =
        let rest =
          virtual_child_walk (split_path (text path)).0 (split_path (text path)).1
            (apply_list pl groups levels).1 kids in
        ground (
          arith,
          apply_own pl [] groups levels,
          apply_own pl
              (virtual_child_lists (split_path (text path)).0 (split_path (text path)).1 kids)
              groups levels,
        )

    child_walk :
        (name : Bytes) (next : Option Bytes) (levels : List ℕ) (kids : Children J)
        → child_permission name next groups levels kids
          ≡ apply_lists (child_lists name next kids) groups levels
    child_walk name next levels empty = refl
    child_walk name next levels (entry n node rest) =
        ground (arith, node_walk next levels node, child_walk name next levels rest)

apply_lists-best :
    (lists : List (List PermissionPair)) (groups : List Bytes) (levels : List ℕ)
    → AllBounded lists
    → Fits groups levels
    → top (apply_lists lists groups levels) ≡ best groups levels lists
unfolding apply_lists
apply_lists-best [] groups levels b f = sym (best-nil groups levels f)
apply_lists-best (pairs ∷ lists) groups levels b f =
    elim (Bool-cases (get_current_permission pairs groups levels).0) [
      | inl stop ↦
          let (high, reached) = get_current_permission-stop pairs groups levels lists b.0 f stop in
          ground (arith, best-le groups levels (pairs ∷ lists) f b)
      | inr go ↦
          let raised = get_current_permission-raise pairs groups levels f go in
          ground (
            arith,
            apply_lists-best lists groups (raise pairs groups levels) b.1
                (raise-Fits pairs groups levels b.0 f),
            best-raise pairs groups levels lists,
          )
    ]

-- The permission of a requester on a path is the highest one that any list along the path gives
-- to any of its groups, if no list goes beyond `config`. It is `config` if the root has no list,
-- and `none` on a path without a leading slash.
pub get_permission-permitted :
    {J : Type 0} (path : Bytes) (root : BrokerNode J) (groups : List Bytes)
    → AllBounded (lists_on path root)
    → get_permission path root groups ≡ permitted path root groups
unfolding get_permission permitted
get_permission-permitted [] root groups b = ground (arith, granted-nil groups)
get_permission-permitted (c ∷ rest) root groups b = elim (Bool-cases (c == slash)) [
  | inr other ↦ ground (arith, granted-nil groups)
  | inl leading ↦
      let lists = node_lists (some rest) root in
      let zeros = zero_levels groups in
      let bounded : AllBounded lists = rw leading at b in
      ground (
        arith,
        node_walk groups (some rest) zeros root,
        max_level-top permission_none (apply_lists lists groups zeros),
        apply_lists-best lists groups zeros bounded (zero_levels-Fits groups),
        best-zero groups lists,
      )
]
