-- ===== src/Broker/Permission/Inherit.antt =====
-- A permission on a node holds below it: the walk of permission.c only ever raises levels.
use sdk_dslink_c.Prelude.{
  ◌≤◌, ◌≡◌, refl, ap, sym, subst, ◌⊎◌, ◌∙◌, List, [], ◌∷◌, ◌++◌, Option, none, some, arith,
  append_assoc, ◌==◌, Bool-cases, inl, inr,
}
use sdk_dslink_c.Prelude.Bytes.{Bytes, beq, slash, split_path}
use sdk_dslink_c.Broker.Permission.{PermissionPair}
use sdk_dslink_c.Broker.Permission.Tree.{
  VirtualDownstreamNode, virtual_node, VirtualChildren, no_children, child, BrokerNode, regular,
  downstream, Children, empty, entry,
}
use sdk_dslink_c.Broker.Permission.Access.{get_permission}
use sdk_dslink_c.Broker.Permission.Spec.{
  own, virtual_lists, virtual_child_lists, node_lists, child_lists, level_of, granted, lists_on,
  permitted, AllBounded,
}
use sdk_dslink_c.Broker.Permission.Correct.{get_permission-permitted}

-- A path, continued by a slash and another path.
abbrev extend : Option Bytes → Bytes → Option Bytes
extend none q = some q
extend (some path) q = some (path ++ (slash ∷ q))

split_path-extend :
    (path q : Bytes)
    → split_path (path ++ (slash ∷ q)) ≡ ((split_path path).0, extend (split_path path).1 q)
unfolding split_path
split_path-extend [] q = refl
split_path-extend (c ∷ path) q = ground (arith, split_path-extend path q)

abbrev Lists : Type 0
Lists = List (List PermissionPair)

-- `longer` begins with `shorter`.
abbrev Begins : Lists → Lists → Type 0
Begins longer shorter = (more : Lists) × (longer ≡ shorter ++ more)

Begins-nil : (longer : Lists) → Begins longer []
Begins-nil longer = (longer, refl)

Begins-append :
    (before longer shorter : Lists)
    → Begins longer shorter
    → Begins (before ++ longer) (before ++ shorter)
Begins-append before longer shorter (more, e) =
    (more, ap (λ l. before ++ l) e ∙ sym (append_assoc before shorter more))

module _ {J : Type 0} (q : Bytes) where
  mutual
    unfolding virtual_lists

    virtual_lists-Begins :
        (path : Option Bytes) (node : VirtualDownstreamNode J)
        → Begins (virtual_lists (extend path q) node) (virtual_lists path node)
    virtual_lists-Begins none (virtual_node pl meta kids) =
        Begins-append (own pl) _ _ (Begins-nil _)
    virtual_lists-Begins (some []) (virtual_node pl meta kids) =
        Begins-append (own pl) _ _ (Begins-nil _)
    virtual_lists-Begins (some (c ∷ cs)) (virtual_node pl meta kids) =
        rw (split_path-extend (c ∷ cs) q) (
          Begins-append (own pl) _ _
            (virtual_child_lists-Begins (split_path (c ∷ cs)).0 (split_path (c ∷ cs)).1 kids))

    virtual_child_lists-Begins :
        (name : Bytes) (next : Option Bytes) (kids : VirtualChildren J)
        → Begins
            (virtual_child_lists name (extend next q) kids)
            (virtual_child_lists name next kids)
    virtual_child_lists-Begins name next no_children = ([], refl)
    virtual_child_lists-Begins name next (child n node rest) = elim (Bool-cases (beq n name)) [
      | inl same ↦ let (more, e) = virtual_lists-Begins next node in (more, ground arith)
      | inr other ↦
          let (more, e) = virtual_child_lists-Begins name next rest in (more, ground arith)
    ]

  mutual
    unfolding node_lists

    node_lists-Begins :
        (path : Option Bytes) (node : BrokerNode J)
        → Begins (node_lists (extend path q) node) (node_lists path node)
    node_lists-Begins none (regular pl kids) = Begins-append (own pl) _ _ (Begins-nil _)
    node_lists-Begins none (downstream pl meta kids) = Begins-append (own pl) _ _ (Begins-nil _)
    node_lists-Begins (some []) (regular pl kids) = Begins-append (own pl) _ _ (Begins-nil _)
    node_lists-Begins (some []) (downstream pl meta kids) =
        Begins-append (own pl) _ _ (Begins-nil _)
    node_lists-Begins (some (c ∷ cs)) (regular pl kids) = rw (split_path-extend (c ∷ cs) q) (
        Begins-append (own pl) _ _
          (child_lists-Begins (split_path (c ∷ cs)).0 (split_path (c ∷ cs)).1 kids))
    node_lists-Begins (some (c ∷ cs)) (downstream pl meta kids) =
        rw (split_path-extend (c ∷ cs) q) (
          Begins-append (own pl) _ _
            (virtual_child_lists-Begins (split_path (c ∷ cs)).0 (split_path (c ∷ cs)).1 kids))

    child_lists-Begins :
        (name : Bytes) (next : Option Bytes) (kids : Children J)
        → Begins (child_lists name (extend next q) kids) (child_lists name next kids)
    child_lists-Begins name next empty = ([], refl)
    child_lists-Begins name next (entry n node rest) = elim (Bool-cases (beq n name)) [
      | inl same ↦ let (more, e) = node_lists-Begins next node in (more, ground arith)
      | inr other ↦ let (more, e) = child_lists-Begins name next rest in (more, ground arith)
    ]

level_of-append : (g : Bytes) (lists more : Lists) → level_of g lists ≤ level_of g (lists ++ more)
unfolding level_of
level_of-append g [] more = omega arith
level_of-append g (pairs ∷ lists) more = omega (arith, level_of-append g lists more)

granted-append :
    (groups : List Bytes) (lists more : Lists)
    → granted groups lists ≤ granted groups (lists ++ more)
unfolding granted
granted-append [] lists more = omega arith
granted-append (g ∷ groups) lists more =
    omega (arith, level_of-append g lists more, granted-append groups lists more)

AllBounded-append : (lists more : Lists) → AllBounded (lists ++ more) → AllBounded lists
AllBounded-append [] more b = tt
AllBounded-append (pairs ∷ lists) more b = (b.0, AllBounded-append lists more b.1)

-- The lists that decide on a path are the first of those that decide on a longer one.
lists_on-Begins :
    {J : Type 0} (path q : Bytes) (root : BrokerNode J)
    → Begins (lists_on (path ++ (slash ∷ q)) root) (lists_on path root)
lists_on-Begins [] q root = Begins-nil _
lists_on-Begins (c ∷ rest) q root = elim (Bool-cases (c == slash)) [
  | inl leading ↦ rw leading (node_lists-Begins q (some rest) root)
  | inr other ↦ rw other (Begins-nil _)
]

root_lists-Begins :
    {J : Type 0} (path : Option Bytes) (root : BrokerNode J)
    → Begins (node_lists path root) (node_lists (some []) root)
unfolding node_lists
root_lists-Begins none (regular pl kids) = Begins-append (own pl) _ _ (Begins-nil _)
root_lists-Begins none (downstream pl meta kids) = Begins-append (own pl) _ _ (Begins-nil _)
root_lists-Begins (some []) (regular pl kids) = Begins-append (own pl) _ _ (Begins-nil _)
root_lists-Begins (some []) (downstream pl meta kids) = Begins-append (own pl) _ _ (Begins-nil _)
root_lists-Begins (some (c ∷ cs)) (regular pl kids) = Begins-append (own pl) _ _ (Begins-nil _)
root_lists-Begins (some (c ∷ cs)) (downstream pl meta kids) =
    Begins-append (own pl) _ _ (Begins-nil _)

permission_le :
    {J : Type 0} (path longer : Bytes) (root : BrokerNode J) (groups : List Bytes)
    → AllBounded (lists_on longer root)
    → Begins (lists_on longer root) (lists_on path root)
    → get_permission path root groups ≤ get_permission longer root groups
unfolding permitted
permission_le path longer root groups b (more, e) =
    let shorter : AllBounded (lists_on path root) = AllBounded-append _ more (rw e at b) in
    rw
      (
        get_permission-permitted path root groups shorter,
        get_permission-permitted longer root groups b,
      )
      (ground (arith, granted-append groups (lists_on path root) more))

-- A path and a path below it: `path` and `path/q`, or `/` and `/q`.
abbrev pub IsBelow : Bytes → Bytes → Bytes → Type 0
IsBelow longer path q = (longer ≡ path ++ (slash ∷ q)) ⊎ (path ≡ slash ∷ []) × (longer ≡ slash ∷ q)

-- A requester has on a path below another, `/q` below `/` or `path/q` below `path`, at least the permission that it has
-- on that one, if no list on the longer path goes beyond `config`.
pub get_permission-inherits :
    {J : Type 0} (path q longer : Bytes) (root : BrokerNode J) (groups : List Bytes)
    → IsBelow longer path q
    → AllBounded (lists_on longer root)
    → get_permission path root groups ≤ get_permission longer root groups
get_permission-inherits path q longer root groups (inl e) b =
    permission_le path longer root groups b (
      subst (λ l. Begins (lists_on l root) (lists_on path root)) (sym e)
        (lists_on-Begins path q root))
get_permission-inherits path q longer root groups (inr (top, e)) b =
    permission_le path longer root groups b (
      subst (λ l. Begins (lists_on l root) (lists_on path root)) (sym e)
        (subst (λ p. Begins (lists_on (slash ∷ q) root) (lists_on p root)) (sym top)
          (root_lists-Begins (some q) root)))
