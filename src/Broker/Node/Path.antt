-- ===== src/Broker/Node/Path.antt =====
-- The paths that broker_node_add gives, and what broker_node_get finds for them.
use sdk_dslink_c.Prelude.{
  ◌≡◌, refl, sym, ap, ◌∙◌, false, [], ◌∷◌, ◌++◌, List, Option, none, some, if◌then◌else◌, arith,
  append_assoc, append-nil, Bool-cases, inl, inr,
}
use sdk_dslink_c.Prelude.Bytes.{Bytes, slash, beq, beq→eq, is_empty}
use sdk_dslink_c.Broker.Node.{
  BrokerNode, regular, downstream, Children, no_child, child, path_of, child_path, find_child,
  Found, broker_node_get,
}
use sdk_dslink_c.Broker.Node.Resolve.{
  AreNames, text, walk, go_on, left_for_link, broker_node_get-walk,
}

-- Every child has the path that broker_node_add gives it.
abbrev mutual
  pub IsPlaced : BrokerNode → Type 0
  IsPlaced (regular path children) = ArePlaced path children
  IsPlaced (downstream path) = Unit

  pub ArePlaced : Bytes → Children → Type 0
  ArePlaced path no_child = Unit
  ArePlaced path (child name node rest) =
      (path_of node ≡ child_path path name) × (IsPlaced node × ArePlaced path rest)

abbrev base_of : Bytes → Bytes
base_of path = if beq path (slash ∷ []) then [] else path

child_not_root :
    (base n : Bytes) → is_empty n ≡ false → beq (base ++ (slash ∷ n)) (slash ∷ []) ≡ false
unfolding beq
child_not_root [] [] h = cc
child_not_root [] (c ∷ n) h = refl
child_not_root (b ∷ []) n h = ground arith
child_not_root (b ∷ c ∷ base) n h = ground arith

-- What holds of each child holds of the one that is found.
abbrev Located : Bytes → Bytes → Option BrokerNode → Type 0
Located path n none = Unit
Located path n (some node) = (path_of node ≡ child_path path n) × IsPlaced node

find_child-Located :
    (path n : Bytes) (children : Children)
    → ArePlaced path children
    → Located path n (find_child n children)
unfolding find_child
find_child-Located path n no_child h = tt
find_child-Located path n (child m node rest) (place, (placed, others)) =
    elim (Bool-cases (beq m n)) [
      | inl same ↦ rw (same) (place ∙ ap (λ k. child_path path k) (beq→eq m n same), placed)
      | inr other ↦ rw (other) (find_child-Located path n rest others)
    ]

found_path : Option Found → Bytes
found_path none = []
found_path (some (node, out)) = path_of node

go_on-path :
    (p n : Bytes) (ns : List Bytes) (left : Bytes) (o : Option BrokerNode) (q : Bytes)
    (c : Children)
    → Located p n o
    → is_empty n ≡ false
    → ((r : Bytes) (d : Children)
        → ArePlaced r d
        → walk (regular r d) ns ≡ some (regular q c, none)
        → base_of q ≡ base_of r ++ text ns)
    → go_on ns left o ≡ some (regular q c, none)
    → base_of q ≡ base_of p ++ text (n ∷ ns)
go_on-path p n ns left none q c h filled ih e = cc
go_on-path p n ns left (some (downstream r)) q c h filled ih e = cc
go_on-path p n ns left (some (regular r d)) q c (place, placed) filled ih e =
    let root : base_of r ≡ base_of p ++ (slash ∷ n) =
      rw (place, child_not_root (base_of p) n filled) refl in
    ih r d placed e ∙ ap (λ k. k ++ text ns) root ∙ append_assoc (base_of p) (slash ∷ n) (text ns)

walk-path :
    (p : Bytes) (children : Children) (ns : List Bytes) (q : Bytes) (c : Children)
    → ArePlaced p children
    → AreNames ns
    → walk (regular p children) ns ≡ some (regular q c, none)
    → base_of q ≡ base_of p ++ text ns
unfolding walk found_path
walk-path p children [] q c h names e =
    ap base_of (sym (ap found_path e)) ∙ sym (append-nil (base_of p))
walk-path p children (n ∷ ns) q c h ((filled, plain), names) e =
    go_on-path p n ns (left_for_link n ns) (find_child n children) q c
      (find_child-Located p n children h) filled
      (λ r d placed k. walk-path r d ns q c placed names k) e

below_root :
    (q n : Bytes) (ns : List Bytes)
    → base_of q ≡ base_of (slash ∷ []) ++ text (n ∷ ns)
    → q ≡ text (n ∷ ns)
unfolding beq
below_root q n ns e = elim (Bool-cases (beq q (slash ∷ []))) [
  | inl root ↦ let h : ◌≡◌ {A = Bytes} [] (text (n ∷ ns)) = rw (root) at e in cc
  | inr other ↦ rw (other) at e
]

-- In a tree where every node has the path of broker_node_add, with the root at "/": a regular node that a walk from the
-- root finds has the names of that walk as its path, and broker_node_get finds it by its path.
pub broker_node_get-path :
    (children : Children) (n : Bytes) (ns : List Bytes) (q : Bytes) (c : Children)
    → ArePlaced (slash ∷ []) children
    → AreNames (n ∷ ns)
    → walk (regular (slash ∷ []) children) (n ∷ ns) ≡ some (regular q c, none)
    → (q ≡ text (n ∷ ns))
      × (broker_node_get (regular (slash ∷ []) children) q ≡ some (regular q c, none))
broker_node_get-path children n ns q c placed names e =
    let place = walk-path (slash ∷ []) children (n ∷ ns) q c placed names e in
    let whole = below_root q n ns place in
    (
      whole,
      ap (broker_node_get (regular (slash ∷ []) children)) whole
          ∙ broker_node_get-walk (slash ∷ []) children n ns names
          ∙ e,
    )
