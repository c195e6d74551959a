-- ===== src/Broker/Query/Visit.antt =====
-- query_child_added_stream on a tree of nodes: what it leaves out, and where it faults.
use sdk_dslink_c.Prelude.{
  ◌≡◌, inl, inr, refl, ap, ◌∙◌, sym, Bool, true, false, not, ◌||◌, [], ◌∷◌, ◌++◌, List,
  if◌then◌else◌, Bool-cases, append-nil,
}
use sdk_dslink_c.Prelude.Run.{Run, ok, fault, ◌>>=◌}
use sdk_dslink_c.Prelude.Bytes.{Bytes, slash, beq, beq→eq}
use sdk_dslink_c.Broker.Query.{
  MatchResult, not_match, partial_match, match, MatchResult-cases, match_query, Listens,
  on_child_added, on_value_update, query_child_added_stream, query_children,
}
use sdk_dslink_c.Broker.Node.{
  child_path, BrokerNode, regular, downstream, Children, no_child, child, path_of,
}
use sdk_dslink_c.Broker.Node.Path.{IsPlaced, ArePlaced}
use sdk_dslink_c.Broker.Query.Prune.{HasNoStar, joins-slash, match_query-prunes}

abbrev is_not_match : MatchResult → Bool
is_not_match not_match = true
is_not_match partial_match = false
is_not_match match = false

abbrev is_match : MatchResult → Bool
is_match match = true
is_match partial_match = false
is_match not_match = false

-- Whether a downstream node anywhere in the tree matches, at least in part.
unfoldable mutual
  pub reaches_downstream : Bytes → BrokerNode → Bool
  reaches_downstream pattern (regular path children) = any_reaches pattern children
  reaches_downstream pattern (downstream path) = not (is_not_match (match_query path pattern))

  pub any_reaches : Bytes → Children → Bool
  any_reaches pattern no_child = false
  any_reaches pattern (child name node rest) =
      reaches_downstream pattern node || any_reaches pattern rest

-- The paths of all regular nodes of the tree that match, children before their parent.
unfoldable mutual
  pub matching_paths : Bytes → BrokerNode → List Bytes
  matching_paths pattern (regular path children) =
      all_matching pattern children
      ++ (if is_match (match_query path pattern) then path ∷ [] else [])
  matching_paths pattern (downstream path) = []

  pub all_matching : Bytes → Children → List Bytes
  all_matching pattern no_child = []
  all_matching pattern (child name node rest) =
      matching_paths pattern node ++ all_matching pattern rest

unfoldable pub value_paths : List Listens → List Bytes
value_paths [] = []
value_paths (on_child_added path ∷ calls) = value_paths calls
value_paths (on_value_update path ∷ calls) = path ∷ value_paths calls

value_paths-append : (a b : List Listens) → value_paths (a ++ b) ≡ value_paths a ++ value_paths b
unfolding value_paths
value_paths-append [] b = refl
value_paths-append (on_child_added path ∷ a) b = value_paths-append a b
value_paths-append (on_value_update path ∷ a) b = ap (λ l. path ∷ l) (value_paths-append a b)

child_path-prunes :
    (path name pattern : Bytes)
    → HasNoStar pattern
    → match_query path pattern ≡ not_match
    → match_query (child_path path name) pattern ≡ not_match
child_path-prunes path name pattern plain e = elim (Bool-cases (beq path (slash ∷ []))) [
  | inl root ↦
      let is_root = beq→eq path (slash ∷ []) root in
      rw (root) (match_query-prunes (slash ∷ []) name pattern plain refl (rw (is_root) at e))
  | inr below ↦ rw (below) (
      match_query-prunes path (slash ∷ name) pattern plain (joins-slash path (slash ∷ name) refl) e)
]

-- Below a node that does not match, nothing matches.
mutual
  unfolding reaches_downstream matching_paths

  node-prunes :
      (pattern : Bytes) (node : BrokerNode)
      → HasNoStar pattern
      → IsPlaced node
      → match_query (path_of node) pattern ≡ not_match
      → (reaches_downstream pattern node ≡ false) × (matching_paths pattern node ≡ [])
  node-prunes pattern (regular path children) plain placed e =
      let (safe, none_match) = children-prune pattern path children plain placed e in
      (safe, rw (none_match, e) refl)
  node-prunes pattern (downstream path) plain placed e = (rw (e) refl, refl)

  children-prune :
      (pattern path : Bytes) (children : Children)
      → HasNoStar pattern
      → ArePlaced path children
      → match_query path pattern ≡ not_match
      → (any_reaches pattern children ≡ false) × (all_matching pattern children ≡ [])
  children-prune pattern path no_child plain placed e = (refl, refl)
  children-prune pattern path (child name node rest) plain (place, (placed, others)) e =
      let below : match_query (path_of node) pattern ≡ not_match =
        rw (place) (child_path-prunes path name pattern plain e) in
      let (safe, none_match) = node-prunes pattern node plain placed below in
      let (rest_safe, rest_none) = children-prune pattern path rest plain others e in
      (rw (safe, rest_safe) refl, rw (none_match, rest_none) refl)

-- What a visit comes to: a fault where it reaches a downstream node, and else the calls of listener_add.
abbrev pub Visits : Bool → List Bytes → Run (List Listens) → Type 0
Visits true values r = r ≡ fault
Visits false values r = (calls : List Listens) × (r ≡ ok calls) × (value_paths calls ≡ values)

join-Visits :
    (b c : Bool) (v w : List Bytes) (r s : Run (List Listens))
    → Visits b v r
    → Visits c w s
    → Visits (b || c) (v ++ w) (r >>= λ first. (s >>= λ added. ok (first ++ added)))
join-Visits true c v w r s h k = rw (h) refl
join-Visits false true v w r s (calls, e, paths) k = rw (e, k) refl
join-Visits false false v w r s (calls, e, paths) (more, k, others) =
    (calls ++ more, rw (e, k) refl, rw (value_paths-append calls more, paths, others) refl)

-- The dispatcher for new children, and for a node that matches the one for values, besides the calls below the node.
partial-Visits :
    (b : Bool) (v : List Bytes) (r : Run (List Listens)) (path : Bytes)
    → Visits b v r
    → Visits b (v ++ []) (r >>= λ added. ok (on_child_added path ∷ added))
unfolding value_paths
partial-Visits true v r path h = rw (h) refl
partial-Visits false v r path (calls, e, paths) =
    (on_child_added path ∷ calls, rw (e) refl, paths ∙ sym (append-nil v))

match-Visits :
    (b : Bool) (v : List Bytes) (r : Run (List Listens)) (path : Bytes)
    → Visits b v r
    → Visits b
        (v ++ (path ∷ []))
        (r >>= λ added. ok (on_child_added path ∷ (added ++ (on_value_update path ∷ []))))
unfolding value_paths
match-Visits true v r path h = rw (h) refl
match-Visits false v r path (calls, e, paths) =
    let here = on_value_update path ∷ [] in
    (
      on_child_added path ∷ (calls ++ here),
      rw (e) refl,
      rw (value_paths-append calls here, paths) refl,
    )

mutual
  unfolding query_child_added_stream reaches_downstream matching_paths value_paths

  node-Visits :
      (pattern : Bytes) (node : BrokerNode)
      → HasNoStar pattern
      → IsPlaced node
      → Visits
          (reaches_downstream pattern node)
          (matching_paths pattern node)
          (query_child_added_stream pattern node)
  node-Visits pattern (regular path children) plain placed =
      let below = children-Visit pattern path children plain placed in
      elim (MatchResult-cases (match_query path pattern)) [
        | inl none_match ↦
            let (safe, none_below) = children-prune pattern path children plain placed none_match in
            rw (safe, none_below, none_match) ([], refl, refl)
        | inr (inl partly) ↦ rw (partly) (
            partial-Visits (any_reaches pattern children) (all_matching pattern children)
              (query_children pattern children) path below)
        | inr (inr fully) ↦ rw (fully) (
            match-Visits (any_reaches pattern children) (all_matching pattern children)
              (query_children pattern children) path below)
      ]
  node-Visits pattern (downstream path) plain placed =
      elim (MatchResult-cases (match_query path pattern)) [
        | inl none_match ↦ rw (none_match) ([], refl, refl)
        | inr (inl partly) ↦ rw (partly) refl
        | inr (inr fully) ↦ rw (fully) refl
      ]

  children-Visit :
      (pattern path : Bytes) (children : Children)
      → HasNoStar pattern
      → ArePlaced path children
      → Visits
          (any_reaches pattern children)
          (all_matching pattern children)
          (query_children pattern children)
  children-Visit pattern path no_child plain placed = ([], refl, refl)
  children-Visit pattern path (child name node rest) plain (place, (placed, others)) =
      join-Visits (reaches_downstream pattern node) (any_reaches pattern rest)
        (matching_paths pattern node) (all_matching pattern rest)
        (query_child_added_stream pattern node) (query_children pattern rest)
        (node-Visits pattern node plain placed) (children-Visit pattern path rest plain others)

-- For a pattern without `*`, and nodes with the paths of broker_node_add: query_child_added_stream listens to the values
-- of exactly the nodes that match, at any depth, although it does not go below a node that does not match. It faults
-- just when a downstream node somewhere in the tree matches, if only in part.
pub query_child_added_stream-Visits :
    (pattern : Bytes) (node : BrokerNode)
    → HasNoStar pattern
    → IsPlaced node
    → Visits
        (reaches_downstream pattern node)
        (matching_paths pattern node)
        (query_child_added_stream pattern node)
query_child_added_stream-Visits = node-Visits
