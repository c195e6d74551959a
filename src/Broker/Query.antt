-- ===== src/Broker/Query.antt =====
-- broker/src/query/query.c: which nodes a query of the form "list <pattern>|" listens to.
--
-- A literal of the pattern is compared before the wildcards are tried, so a `?` or a `*` in a path is an ordinary
-- character. `?` takes what is left of a name, `*` takes any text.
pub mod Prune
pub mod Visit
pub mod Meaning
pub mod Complete
pub mod Parse
mod Tests
use sdk_dslink_c.Prelude.{
  ◌≡◌, ◌⊎◌, inl, inr, refl, ℕ, Bool, true, false, ◌&&◌, [], ◌∷◌, ◌++◌, List, Option, none, some,
  ◌==◌, if◌then◌else◌,
}
use sdk_dslink_c.Prelude.Run.{Run, ok, fault, ◌>>=◌}
use sdk_dslink_c.Broker.Node.{BrokerNode, regular, downstream, Children, no_child, child}
use sdk_dslink_c.Prelude.Bytes.{Bytes, slash, codes, beq}

pub data MatchResult : Type 0 where
  not_match : MatchResult
  partial_match : MatchResult
  match : MatchResult

pub MatchResult-cases : (m : MatchResult) → (m ≡ not_match) ⊎ ((m ≡ partial_match) ⊎ (m ≡ match))
MatchResult-cases not_match = inl refl
MatchResult-cases partial_match = inr (inl refl)
MatchResult-cases match = inr (inr refl)

abbrev pub any_name : ℕ
any_name = b'?'

abbrev pub any_text : ℕ
any_text = b'*'

-- The loop behind a `?`.
unfoldable pub skip_name : Bytes → Bytes
skip_name [] = []
skip_name (c ∷ path) = let rest = skip_name path in if c == slash then c ∷ path else rest

-- What follows the outer loop.
abbrev pub finish : Bytes → Bytes → MatchResult
finish [] [] = match
finish [] (q ∷ pattern) = partial_match
finish (c ∷ path) pattern = not_match

-- The test of the outer loop, with its body as a function of the path.
abbrev pub outer : (Bytes → MatchResult) → Bytes → Bytes → MatchResult
outer body [] pattern = finish [] pattern
outer body (c ∷ path) [] = finish (c ∷ path) []
outer body (c ∷ path) (q ∷ pattern) = body (c ∷ path)

-- The loop behind a `*`: the recursive call at each place where the path has the pattern's next character `q`.
unfoldable pub best_match : (Bytes → MatchResult) → ℕ → MatchResult → Bytes → MatchResult
best_match recur q best [] = best
best_match recur q best (c ∷ path) =
    let skipped = best_match recur q best path in
    let partly = best_match recur q partial_match path in
    if c == q
    then elim (recur (c ∷ path)) [ match ↦ match | partial_match ↦ partly | not_match ↦ skipped ]
    else skipped

abbrev pub after_star : (Bytes → MatchResult) → Bytes → Bytes → MatchResult
after_star recur path [] = match
after_star recur path (q ∷ pattern) = best_match recur q not_match path

-- The three branches behind the loop over literals, where the pattern stands at `q`.
unfoldable pub wildcard : (Bytes → MatchResult) → ℕ → Bytes → Bytes → MatchResult
unfolding skip_name best_match
wildcard recur q path pattern =
    if q == any_name
    then outer recur (skip_name path) pattern
    else if q == any_text
    then after_star recur path pattern
    else finish path (q ∷ pattern)

-- The body of the outer loop, from its loop over literals on.
unfoldable pub literals : Bytes → Bytes → MatchResult
unfolding wildcard
literals path [] = finish path []
literals [] (q ∷ pattern) = wildcard (λ p. literals p pattern) q [] pattern
literals (c ∷ path) (q ∷ pattern) =
    let onward = literals path pattern in
    let stopped = wildcard (λ p. literals p pattern) q (c ∷ path) pattern in
    if c == q then onward else stopped

unfoldable pub match_query : Bytes → Bytes → MatchResult
unfolding literals
match_query path pattern = outer (λ p. literals p pattern) path pattern

-- A call of listener_add, on the dispatcher of the node with that path.
pub data Listens : Type 0 where
  on_child_added : Bytes → Listens
  on_value_update : Bytes → Listens

-- The calls for one node, and in their midst those for its children.
abbrev pub listen : MatchResult → Bytes → Run (List Listens) → Run (List Listens)
listen not_match path below = ok []
listen partial_match path below = below >>= λ added. ok (on_child_added path ∷ added)
listen match path below =
    below >>= λ added. ok (on_child_added path ∷ (added ++ (on_value_update path ∷ [])))

-- A `DownstreamNode` has other fields in the place of the dispatchers `on_child_added` and `on_value_update`, into which
-- listener_add would link: a fault. (Its `children` is NULL, which dslink_map_foreach tests.)
abbrev pub listen_downstream : MatchResult → Run (List Listens)
listen_downstream not_match = ok []
listen_downstream partial_match = fault
listen_downstream match = fault

-- query_child_added_stream, which takes every node for a `BrokerNode`.
unfoldable mutual
  unfolding match_query

  pub query_child_added_stream : Bytes → BrokerNode → Run (List Listens)
  query_child_added_stream pattern (regular path children) =
      listen (match_query path pattern) path (query_children pattern children)
  query_child_added_stream pattern (downstream path) = listen_downstream (match_query path pattern)

  pub query_children : Bytes → Children → Run (List Listens)
  query_children pattern no_child = ok []
  query_children pattern (child name node rest) =
      let others = query_children pattern rest in
      query_child_added_stream pattern node >>= λ first. (others >>= λ added. ok (first ++ added))

-- strchr: the text before the first `c`, and the text behind it.
unfoldable pub strchr : ℕ → Bytes → Option (Bytes × Bytes)
strchr c [] = none
strchr c (x ∷ s) =
    let found = strchr c s in
    if x == c
    then some ([], s)
    else elim found [ none ↦ none | some (before, behind) ↦ some (x ∷ before, behind) ]

-- `strncmp(text, other, n) == 0`, where `text` has `n` characters and no NUL.
unfoldable pub has_prefix : Bytes → Bytes → Bool
has_prefix [] other = true
has_prefix (c ∷ text) [] = false
has_prefix (c ∷ text) (d ∷ other) = c == d && has_prefix text other

-- The pattern of the ParsedQuery, `none` for NULL.
unfoldable pub parse_query : Bytes → Option Bytes
unfolding strchr has_prefix
parse_query query = elim (strchr b' ' query) [
  | none ↦ none
  | some (command, rest) ↦
      if has_prefix command (codes "list")
      then elim (strchr b'|' rest) [ none ↦ none | some (pattern, _) ↦ some pattern ]
      else none
]
