-- ===== src/Broker/Permission/Stored.antt =====
-- A permission list that is set on a path is the one that is read there.
use sdk_dslink_c.Prelude.{
  ℕ, zero, suc, ◌≤◌, ◌<◌, ◌≡◌, ◌⊎◌, inl, inr, true, false, List, [], ◌∷◌, Option, none, some, arith,
  ◌==◌, length, Bool-cases, Option-cases,
}
use sdk_dslink_c.Prelude.Run.{ok}
use sdk_dslink_c.Prelude.Bytes.{Bytes, beq, beq_refl, split_path}
use sdk_dslink_c.Broker.Permission.Tree.{
  PermissionList, VirtualDownstreamNode, virtual_node, VirtualChildren, no_children, child,
  BrokerNode, regular, downstream, Children, empty, entry, find_virtual, find_child,
}
use sdk_dslink_c.Broker.Permission.Access.{at_end, text, get_permission}
use sdk_dslink_c.Broker.Permission.Update.{
  put_virtual, put_child, virtual_child, set_virtual_permission_list, set_node_permission_list,
  get_virtual_permission_list, get_node_permission_list, nothing, saved_for, set_permission_list,
}
use sdk_dslink_c.Broker.Permission.Json.{Jansson, permission_list_load}
use sdk_dslink_c.Broker.Permission.{permission_config}

next-le : (path : Bytes) → length (text (split_path path).1) ≤ length path
unfolding split_path
next-le [] = omega arith
next-le (c ∷ path) = ground (arith, next-le path)

-- What follows a name is shorter than the path.
next-lt :
    (path : Option Bytes)
    → at_end path ≡ false
    → length (text (split_path (text path)).1) < length (text path)
unfolding split_path
next-lt none h = cc
next-lt (some []) h = cc
next-lt (some (c ∷ path)) h = ground (arith, next-le path)

module _ {J : Type 0} where
  find-put_virtual :
      (name : Bytes) (node : VirtualDownstreamNode J) (kids : VirtualChildren J)
      → beq name name ≡ true
      → find_virtual name (put_virtual name node kids) ≡ some node
  unfolding find_virtual put_virtual
  find-put_virtual name node no_children h = ground arith
  find-put_virtual name node (child n old rest) h =
      ground (arith, find-put_virtual name node rest h)

  find-put_child :
      (name : Bytes) (node : BrokerNode J) (kids : Children J)
      → beq name name ≡ true
      → find_child name (put_child name node kids) ≡ some node
  unfolding find_child put_child
  find-put_child name node empty h = ground arith
  find-put_child name node (entry n old rest) h = ground (arith, find-put_child name node rest h)

  -- Putting back the child that was found changes nothing.
  put-find_child :
      (name : Bytes) (node : BrokerNode J) (kids : Children J)
      → find_child name kids ≡ some node
      → put_child name node kids ≡ kids
  unfolding find_child put_child
  put-find_child name node empty h = cc
  put-find_child name node (entry n old rest) h = ground (arith, put-find_child name node rest)

  set-get_virtual :
      (fuel : ℕ) (path : Option Bytes) (pl : PermissionList) (node : VirtualDownstreamNode J)
      → length (text path) < fuel
      → (set : VirtualDownstreamNode J) × (set_virtual_permission_list fuel path pl node ≡ ok set)
        × (got : VirtualDownstreamNode J) × (get_virtual_permission_list fuel path set
            ≡ ok (pl, got))
  unfolding set_virtual_permission_list get_virtual_permission_list
  set-get_virtual zero path pl node h = absurd (omega arith)
  set-get_virtual (suc fuel) path pl (virtual_node own meta kids) h =
      elim (Bool-cases (at_end path)) [
        | inl last ↦
            (virtual_node pl meta kids, ground arith, virtual_node pl meta kids, ground arith)
        | inr more ↦
            let step = split_path (text path) in
            let (set, run, got, back) =
              set-get_virtual fuel step.1 pl (virtual_child step.0 kids)
                (omega (arith, next-lt path more)) in
            let found = find-put_virtual step.0 set kids (beq_refl step.0) in
            (
              virtual_node own meta (put_virtual step.0 set kids),
              ground arith,
              virtual_node own meta (put_virtual step.0 got (put_virtual step.0 set kids)),
              ground arith,
            )
      ]

  -- With a unit of fuel for each byte of the path and one more, the walk that sets a list ends. It
  -- returns 0, and then the list is the one that is read on the path; or it returns 1, and then the
  -- tree is as it was.
  pub set-get_permission_list :
      (fuel : ℕ) (path : Option Bytes) (pl : PermissionList) (node : BrokerNode J)
      → length (text path) < fuel
      → ((set : BrokerNode J) × (set_node_permission_list fuel path pl node ≡ ok (0, set))
          × (got : BrokerNode J) × (get_node_permission_list fuel path set ≡ ok (some pl, got)))
        ⊎ (set_node_permission_list fuel path pl node ≡ ok (1, node))
  unfolding set_node_permission_list get_node_permission_list
  set-get_permission_list zero path pl node h = absurd (omega arith)
  set-get_permission_list (suc fuel) path pl (downstream own meta kids) h =
      elim (Bool-cases (at_end path)) [
        | inl last ↦
            inl (downstream pl meta kids, ground arith, downstream pl meta kids, ground arith)
        | inr more ↦
            let step = split_path (text path) in
            let (set, run, got, back) =
              set-get_virtual fuel step.1 pl (virtual_child step.0 kids)
                (omega (arith, next-lt path more)) in
            let found = find-put_virtual step.0 set kids (beq_refl step.0) in
            inl (
              downstream own meta (put_virtual step.0 set kids),
              ground arith,
              downstream own meta (put_virtual step.0 got (put_virtual step.0 set kids)),
              ground arith,
            )
      ]
  set-get_permission_list (suc fuel) path pl (regular own kids) h =
      elim (Bool-cases (at_end path)) [
        | inl last ↦ inl (regular pl kids, ground arith, regular pl kids, ground arith)
        | inr more ↦
            let step = split_path (text path) in
            elim (Option-cases (find_child step.0 kids)) [
              | inl absent ↦ inr (ground arith)
              | inr (node, present) ↦
                  let shorter = next-lt path more in
                  elim (set-get_permission_list fuel step.1 pl node (omega arith)) [
                    | inl (set, run, got, back) ↦
                        let found = find-put_child step.0 set kids (beq_refl step.0) in
                        inl (
                          regular own (put_child step.0 set kids),
                          ground arith,
                          regular own (put_child step.0 got (put_child step.0 set kids)),
                          ground arith,
                        )
                    | inr refused ↦ inr (ground (arith, put-find_child step.0 node kids present))
                  ]
            ]
      ]

module _ {J : Type 0} (jansson : Jansson) where
  open jansson use {Json, json_is_array}

  -- `set_permission_list` on a path that is not empty, with fuel for its bytes, has two outcomes. It
  -- returns 1, changes no node and saves nothing; or it returns 0: then the list was an array, the
  -- requester had `config` on the path, and the list that was loaded is the one read on the path.
  pub set_permission_list-stores :
      (fuel c : ℕ) (rest : Bytes) (root : BrokerNode J) (groups : List Bytes) (json : Json)
      → length rest < fuel
      → (set_permission_list jansson fuel (c ∷ rest) root groups json ≡ ok (1, root, nothing))
        ⊎ ((json_is_array json ≡ true)
            × (get_permission (c ∷ rest) root groups ≡ permission_config)
            × (set : BrokerNode J) × (set_permission_list jansson fuel (c ∷ rest) root groups json
                ≡ ok (0, set, saved_for (c ∷ rest)))
            × (got : BrokerNode J) × (get_node_permission_list fuel (some rest) set
                ≡ ok (some (permission_list_load jansson (some json)), got)))
  unfolding set_permission_list
  set_permission_list-stores fuel c rest root groups json h =
      elim (Bool-cases (json_is_array json)) [
        | inr other ↦ inl (ground arith)
        | inl array ↦
            elim (Bool-cases (get_permission (c ∷ rest) root groups == permission_config)) [
              | inr denied ↦ inl (ground arith)
              | inl config ↦
                  elim (set-get_permission_list fuel (some rest)
                    (permission_list_load jansson (some json)) root h) [
                      | inl (set, run, got, back) ↦
                          inr (array, ground arith, set, ground arith, got, back)
                      | inr refused ↦ inl (ground arith)
                    ]
            ]
      ]
