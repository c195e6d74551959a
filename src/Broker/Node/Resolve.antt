-- ===== src/Broker/Node/Resolve.antt =====
-- broker_node_get on the path of a list of names.
use sdk_dslink_c.Prelude.{
  ◌≡◌, ◌≢◌, refl, ◌∙◌, inl, inr, false, [], ◌∷◌, ◌++◌, List, Option, none, some, ne→==, Bool-cases,
}
use sdk_dslink_c.Prelude.Bytes.{Bytes, slash, beq, is_empty, split_path}
use sdk_dslink_c.Broker.Node.{
  BrokerNode, regular, downstream, Children, no_child, child, find_child, children_of, Found,
  found_leaf, broker_node_get, get_below,
}

abbrev pub HasNoSlash : Bytes → Type 0
HasNoSlash [] = Unit
HasNoSlash (c ∷ s) = (c ≢ slash) × HasNoSlash s

abbrev pub AreNames : List Bytes → Type 0
AreNames [] = Unit
AreNames (n ∷ ns) = ((is_empty n ≡ false) × HasNoSlash n) × AreNames ns

-- The path with these names.
abbrev pub text : List Bytes → Bytes
text [] = []
text (n ∷ ns) = slash ∷ (n ++ text ns)

-- What is left of a path for the link of a downstream node: the names behind its own, or else its own.
abbrev pub left_for_link : Bytes → List Bytes → Bytes
left_for_link n [] = text (n ∷ [])
left_for_link n (m ∷ ms) = text (m ∷ ms)

-- From child to child, by exact names, up to the first downstream node.
unfoldable pub walk : BrokerNode → List Bytes → Option Found
unfolding find_child
walk node [] = some (node, none)
walk node (n ∷ ns) = elim (find_child n (children_of node)) [
  | none ↦ none
  | some (regular p children) ↦ walk (regular p children) ns
  | some (downstream p) ↦ some (downstream p, some (left_for_link n ns))
]

split_path-end : (n : Bytes) → HasNoSlash n → split_path (n ++ []) ≡ (n, none)
unfolding split_path
split_path-end [] h = refl
split_path-end (c ∷ n) (ne, h) = rw (split_path-end n h) (rw (ne→== c slash ne) refl)

split_path-slash : (n t : Bytes) → HasNoSlash n → split_path (n ++ (slash ∷ t)) ≡ (n, some t)
unfolding split_path
split_path-slash [] t h = refl
split_path-slash (c ∷ n) t (ne, h) = rw (split_path-slash n t h) (rw (ne→== c slash ne) refl)

-- The search below a node, by its child of the name.
abbrev enter : Option BrokerNode → Bytes → Option Found
enter none end = none
enter (some (regular p children)) end = broker_node_get (regular p children) end
enter (some (downstream p)) end = some (downstream p, some end)

get_below-enter :
    (children : Children) (name end : Bytes)
    → get_below children name end ≡ enter (find_child name children) end
unfolding broker_node_get find_child
get_below-enter no_child name end = refl
get_below-enter (child n (regular p c) rest) name end = elim (Bool-cases (beq n name)) [
  | inl same ↦ rw (same) refl
  | inr other ↦ rw (other) (get_below-enter rest name end)
]
get_below-enter (child n (downstream p) rest) name end = elim (Bool-cases (beq n name)) [
  | inl same ↦ rw (same) refl
  | inr other ↦ rw (other) (get_below-enter rest name end)
]

not_root : (n t : Bytes) → is_empty n ≡ false → beq (slash ∷ (n ++ t)) (slash ∷ []) ≡ false
unfolding beq
not_root [] t h = cc
not_root (c ∷ n) t h = refl

-- What a walk makes of a child, where more names follow and where none does.
abbrev pub go_on : List Bytes → Bytes → Option BrokerNode → Option Found
go_on ns left none = none
go_on ns left (some (regular p children)) = walk (regular p children) ns
go_on ns left (some (downstream p)) = some (downstream p, some left)

leaf-walk : (path : Bytes) (o : Option BrokerNode) → found_leaf path o ≡ go_on [] path o
unfolding walk
leaf-walk path none = refl
leaf-walk path (some (regular p children)) = refl
leaf-walk path (some (downstream p)) = refl

enter-walk :
    (ns : List Bytes) (o : Option BrokerNode)
    → ((p : Bytes) (children : Children)
        → broker_node_get (regular p children) (text ns) ≡ walk (regular p children) ns)
    → enter o (text ns) ≡ go_on ns (text ns) o
enter-walk ns none ih = refl
enter-walk ns (some (regular p children)) ih = ih p children
enter-walk ns (some (downstream p)) ih = refl

-- broker_node_get on the path of one or more names, none of them empty, finds what a walk by these names finds.
pub broker_node_get-walk :
    (p : Bytes) (children : Children) (n : Bytes) (ns : List Bytes)
    → AreNames (n ∷ ns)
    → broker_node_get (regular p children) (text (n ∷ ns)) ≡ walk (regular p children) (n ∷ ns)
unfolding broker_node_get walk
broker_node_get-walk p children n [] ((filled, plain), _) =
    rw (not_root n [] filled, split_path-end n plain)
      (rw (split_path-end n plain)
        (rw (filled) (leaf-walk (text (n ∷ [])) (find_child n children))))
broker_node_get-walk p children n (m ∷ ms) ((filled, plain), names) =
    rw (not_root n (text (m ∷ ms)) filled, split_path-slash n (m ++ text ms) plain)
      (rw (split_path-slash n (m ++ text ms) plain) (
        get_below-enter children n (text (m ∷ ms))
        ∙ enter-walk (m ∷ ms) (find_child n children) (λ q c. broker_node_get-walk q c m ms names)))
