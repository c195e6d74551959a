-- ===== src/Broker/Query/Tests.antt =====
-- Witnesses of the theorems on query.c.
use sdk_dslink_c.Prelude.{◌≡◌, ◌↔◌, refl, inl, inr, [], arith}
use sdk_dslink_c.Prelude.Run.{ok}
use sdk_dslink_c.Prelude.Bytes.{codes, slash, beq}
use sdk_dslink_c.Broker.Query.{match, match_query, query_child_added_stream}
use sdk_dslink_c.Broker.Node.{BrokerNode, regular, downstream, no_child, child}
use sdk_dslink_c.Broker.Query.Visit.{
  Visits, reaches_downstream, matching_paths, query_child_added_stream-Visits,
}
use sdk_dslink_c.Broker.Query.Meaning.{Matches}
use sdk_dslink_c.Broker.Query.Complete.{match_query_iff, match_query-misses}

abbrev test_tree : BrokerNode
test_tree = regular (codes "/") (
    child (codes "a")
      (regular (codes "/a") (child (codes "t") (regular (codes "/a/t") no_child) no_child))
      (child (codes "b")
        (regular (codes "/b") (child (codes "t") (downstream (codes "/b/t")) no_child)) no_child))

query_child_added_stream-Visits_example :
    Visits
      (reaches_downstream (codes "/a/?") test_tree)
      (matching_paths (codes "/a/?") test_tree)
      (query_child_added_stream (codes "/a/?") test_tree)
unfolding beq
query_child_added_stream-Visits_example =
    query_child_added_stream-Visits (codes "/a/?") test_tree
      ((λ e. omega arith), ((λ e. omega arith), ((λ e. omega arith), ((λ e. omega arith), tt))))
      (refl, ((refl, (tt, tt)), (refl, ((refl, (tt, tt)), tt))))

match_query_iff_example :
    (match_query (codes "/a/b") (codes "/*b") ≡ match) ↔ Matches (codes "/*b") (codes "/a/b")
match_query_iff_example =
    match_query_iff slash (codes "a/b") (codes "/*b")
      (inl (λ e. omega arith, λ e. omega arith), (inr (λ e. omega arith, λ e. omega arith), tt))
      (
        (λ e. omega arith, λ e. omega arith),
        (
          (λ e. omega arith, λ e. omega arith),
          ((λ e. omega arith, λ e. omega arith), ((λ e. omega arith, λ e. omega arith), tt)),
        ),
      )

match_query-misses_example :
    (query_child_added_stream (codes "/*/t") (regular (codes "/a") no_child) ≡ ok [])
    × Matches (codes "/*/t") (codes "/a/t")
match_query-misses_example =
    match_query-misses slash slash b'a' [] [] (codes "/t") (codes "t") no_child (λ e. omega arith)
      ((λ e. omega arith), tt) (Matches.literal (Matches.literal Matches.done))
