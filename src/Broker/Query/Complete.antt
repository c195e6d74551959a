-- ===== src/Broker/Query/Complete.antt =====
-- match_query of broker/src/query/query.c against the meaning of a pattern.
use sdk_dslink_c.Prelude.{
  ℕ, ◌≡◌, ◌≢◌, ◌⊎◌, ◌↔◌, inl, inr, refl, ap, ◌∙◌, sym, subst, [], ◌∷◌, ◌++◌, ◌==◌, Bool-cases,
  arith, ne→==, ==_refl, append_assoc,
}
use sdk_dslink_c.Prelude.Run.{ok}
use sdk_dslink_c.Prelude.Bytes.{Bytes, slash}
use sdk_dslink_c.Broker.Query.{
  MatchResult, not_match, match, any_name, any_text, skip_name, outer, best_match, after_star,
  wildcard, literals, match_query, query_child_added_stream, query_children, listen,
}
use sdk_dslink_c.Broker.Node.{regular, Children}
use sdk_dslink_c.Broker.Query.Meaning.{Matches, best_match-finds, literals-sound}

abbrev pub IsLiteral : ℕ → Type 0
IsLiteral c = (c ≢ any_name) × (c ≢ any_text)

abbrev pub IsPlain : Bytes → Type 0
IsPlain [] = Unit
IsPlain (c ∷ path) = IsLiteral c × IsPlain path

-- A literal or the end follows each wildcard.
abbrev pub IsSpaced : Bytes → Type 0
IsSpaced [] = Unit
IsSpaced (q ∷ []) = Unit
IsSpaced (q ∷ r ∷ pattern) = (IsLiteral q ⊎ IsLiteral r) × IsSpaced (r ∷ pattern)

literal_inv :
    {p path : Bytes} (r : ℕ) (pattern : Bytes)
    → Matches p path
    → p ≡ r ∷ pattern
    → IsLiteral r
    → (s : Bytes) × (path ≡ r ∷ s)
literal_inv r pattern Matches.done e lit = cc
literal_inv r pattern (Matches.literal {c} {path} d) e lit = (path, cc)
literal_inv r pattern (Matches.name path d) e lit = absurd (ground (arith, e, lit))
literal_inv r pattern (Matches.text t d) e lit = absurd (ground (arith, e, lit))
literal_inv r pattern (Matches.all path) e lit = absurd (ground (arith, e, lit))

IsPlain-append : (t s : Bytes) → IsPlain (t ++ s) → IsPlain s
IsPlain-append [] s h = h
IsPlain-append (c ∷ t) s (l, h) = IsPlain-append t s h

IsPlain-skip_name : (path : Bytes) → IsPlain path → IsPlain (skip_name path)
unfolding skip_name
IsPlain-skip_name [] h = tt
IsPlain-skip_name (c ∷ path) (l, h) = elim (Bool-cases (c == slash)) [
  | inl here ↦ rw (◌==◌, here) (l, h)
  | inr on ↦ rw (◌==◌, on) (IsPlain-skip_name path h)
]

IsSpaced-tail : (q : ℕ) (pattern : Bytes) → IsSpaced (q ∷ pattern) → IsSpaced pattern
IsSpaced-tail q [] h = tt
IsSpaced-tail q (r ∷ pattern) (l, h) = h

outer_complete :
    (recur : Bytes → MatchResult) (path pattern : Bytes)
    → Matches pattern path
    → IsSpaced (any_name ∷ pattern)
    → recur path ≡ match
    → outer recur path pattern ≡ match
outer_complete recur [] [] d h e = refl
outer_complete recur [] (r ∷ pattern) d (inl lit, h) e = absurd (lit.0 refl)
outer_complete recur [] (r ∷ pattern) d (inr lit, h) e =
    let (s, nonempty) = literal_inv r pattern d refl lit in cc
outer_complete recur (c ∷ path) [] d h e = elim d [ ]
outer_complete recur (c ∷ path) (r ∷ pattern) d h e = e

literals-star :
    (path pattern : Bytes)
    → IsPlain path
    → literals path (any_text ∷ pattern) ≡ after_star (λ p. literals p pattern) path pattern
unfolding literals wildcard
literals-star [] pattern p = refl
literals-star (c ∷ path) pattern (l, p) = rw (ne→== c any_text l.1) refl

literals-name :
    (path pattern : Bytes)
    → IsPlain path
    → literals path (any_name ∷ pattern) ≡ outer (λ p. literals p pattern) (skip_name path) pattern
unfolding literals wildcard
literals-name [] pattern p = refl
literals-name (c ∷ path) pattern (l, p) = rw (ne→== c any_name l.0) refl

literals-text :
    (t path pattern : Bytes)
    → Matches pattern path
    → IsSpaced (any_text ∷ pattern)
    → IsPlain (t ++ path)
    → literals path pattern ≡ match
    → literals (t ++ path) (any_text ∷ pattern) ≡ match
literals-text t path [] d h p e = literals-star (t ++ path) [] p
literals-text t path (r ∷ pattern) d (inl lit, h) p e = absurd (lit.1 refl)
literals-text t path (r ∷ pattern) d (inr lit, h) p e =
    let (s, split) = literal_inv r pattern d refl lit in
    literals-star (t ++ path) (r ∷ pattern) p
    ∙ rw (split)
        (best_match-finds (λ q. literals q (r ∷ pattern)) r not_match t s (rw (split) at e))

-- On paths without `?` and `*`, for patterns whose wildcards do not touch.
literals_complete :
    {pattern path : Bytes}
    → Matches pattern path
    → IsSpaced pattern
    → IsPlain path
    → literals path pattern ≡ match
unfolding literals wildcard
literals_complete Matches.done h p = refl
literals_complete (Matches.literal {c} {pattern} {path} d) h (l, p) =
    rw (==_refl c) (literals_complete d (IsSpaced-tail c pattern h) p)
literals_complete (Matches.name {pattern} path d) h p =
    literals-name path pattern p
    ∙ outer_complete (λ s. literals s pattern) (skip_name path) pattern d h
        (literals_complete d (IsSpaced-tail any_name pattern h) (IsPlain-skip_name path p))
literals_complete (Matches.text {pattern} {path} t d) h p =
    literals-text t path pattern d h p
      (literals_complete d (IsSpaced-tail any_text pattern h) (IsPlain-append t path p))
literals_complete (Matches.all path) h p = literals-star path [] p

-- On a path that is not empty and has no `?` or `*` in it, match_query returns MATCH just for the patterns that match, if
-- no two wildcards of the pattern stand next to each other.
pub match_query_iff :
    (c : ℕ) (path pattern : Bytes)
    → IsSpaced pattern
    → IsPlain (c ∷ path)
    → (match_query (c ∷ path) pattern ≡ match) ↔ Matches pattern (c ∷ path)
unfolding match_query
match_query_iff c path [] h p = (λ e. cc, λ d. elim d [ ])
match_query_iff c path (q ∷ pattern) h p =
    (literals-sound (c ∷ path) (q ∷ pattern), λ d. literals_complete d h p)

abbrev pub IsWithout : ℕ → Bytes → Type 0
IsWithout c [] = Unit
IsWithout c (x ∷ s) = (x ≢ c) × IsWithout c s

best_match-none :
    (recur : Bytes → MatchResult) (c : ℕ) (best : MatchResult) (s : Bytes)
    → IsWithout c s
    → best_match recur c best s ≡ best
unfolding best_match
best_match-none recur c best [] h = refl
best_match-none recur c best (x ∷ s) (ne, h) = rw (ne→== x c ne) (best_match-none recur c best s h)

literals-prefix :
    (before path pattern : Bytes)
    → literals (before ++ path) (before ++ pattern) ≡ literals path pattern
unfolding literals
literals-prefix [] path pattern = refl
literals-prefix (c ∷ before) path pattern = rw (==_refl c) (literals-prefix before path pattern)

Matches-prefix :
    (before : Bytes) {path pattern : Bytes}
    → Matches pattern path
    → Matches (before ++ pattern) (before ++ path)
Matches-prefix [] d = d
Matches-prefix (c ∷ before) d = Matches.literal (Matches-prefix before d)

literals-misses :
    (c x : ℕ) (t rest : Bytes)
    → x ≢ any_text
    → IsWithout c (x ∷ t)
    → literals (x ∷ t) (any_text ∷ c ∷ rest) ≡ not_match
unfolding literals wildcard
literals-misses c x t rest plain without =
    rw (ne→== x any_text plain)
      (best_match-none (λ p. literals p (c ∷ rest)) c not_match (x ∷ t) without)

-- Where `*` is followed by more, a node whose path has no place yet for what follows is no match at all, so its children
-- are not visited, although the pattern matches paths below it.
pub match_query-misses :
    (b c x : ℕ) (before t below rest : Bytes) (children : Children)
    → x ≢ any_text
    → IsWithout c (x ∷ t)
    → Matches (c ∷ rest) below
    → (query_child_added_stream
          (b ∷ before ++ (any_text ∷ c ∷ rest))
          (regular (b ∷ before ++ (x ∷ t)) children)
        ≡ ok [])
      × Matches (b ∷ before ++ (any_text ∷ c ∷ rest)) ((b ∷ before ++ (x ∷ t)) ++ below)
unfolding query_child_added_stream match_query literals wildcard
match_query-misses b c x before t below rest children plain without d =
    let pattern = any_text ∷ c ∷ rest in
    let path = before ++ (x ∷ t) in
    (
      rw (==_refl b) (
          ap (λ m. listen m (b ∷ path) (query_children (b ∷ before ++ pattern) children))
            (literals-prefix before (x ∷ t) pattern ∙ literals-misses c x t rest plain without)),
      subst (λ p. Matches (b ∷ before ++ pattern) (b ∷ p)) (sym (append_assoc before (x ∷ t) below))
          (Matches-prefix (b ∷ before) (Matches.text (x ∷ t) d)),
    )
