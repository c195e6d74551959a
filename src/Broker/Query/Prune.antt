-- ===== src/Broker/Query/Prune.antt =====
-- match_query of broker/src/query/query.c on a path, and on a path that goes on with more names.
use sdk_dslink_c.Prelude.{
  ne→==, ℕ, ◌≡◌, ◌≢◌, ◌⊎◌, inl, inr, refl, Bool, true, false, [], ◌∷◌, ◌++◌, ◌==◌, ◌||◌, Bool-cases,
  arith,
}
use sdk_dslink_c.Prelude.Bytes.{Bytes, slash}
use sdk_dslink_c.Broker.Query.{
  MatchResult, not_match, any_name, any_text, skip_name, outer, wildcard, literals, match_query,
}

abbrev pub HasNoStar : Bytes → Type 0
HasNoStar [] = Unit
HasNoStar (q ∷ pattern) = (q ≢ any_text) × HasNoStar pattern

abbrev starts_slash : Bytes → Bool
starts_slash [] = false
starts_slash (c ∷ t) = c == slash

-- Where a path goes on with `t`, a new name begins: at the slash that `t` starts with, or behind the one that ends the path.
abbrev pub joins : Bytes → Bytes → Bool
joins [] t = starts_slash t
joins (c ∷ []) t = c == slash || starts_slash t
joins (c ∷ d ∷ path) t = joins (d ∷ path) t

pub joins-slash : (path t : Bytes) → starts_slash t ≡ true → joins path t ≡ true
joins-slash [] t h = h
joins-slash (c ∷ []) t h = ground (arith, h)
joins-slash (c ∷ d ∷ path) t h = joins-slash (d ∷ path) t h

skip_name-slash : (t : Bytes) → starts_slash t ≡ true → skip_name t ≡ t
unfolding skip_name
skip_name-slash [] h = refl
skip_name-slash (c ∷ t) h = rw (◌==◌, h) refl

skip_name-append :
    (path t : Bytes) → joins path t ≡ true → skip_name (path ++ t) ≡ skip_name path ++ t
unfolding skip_name
skip_name-append [] t h = skip_name-slash t h
skip_name-append (c ∷ []) t h = ground (arith, skip_name-slash t)
skip_name-append (c ∷ d ∷ path) t h = ground (arith, skip_name-append (d ∷ path) t)

joins-skip_name :
    (path t : Bytes)
    → joins path t ≡ true
    → (skip_name path ≡ []) ⊎ (joins (skip_name path) t ≡ true)
unfolding skip_name
joins-skip_name [] t h = inl refl
joins-skip_name (c ∷ []) t h = ground arith
joins-skip_name (c ∷ d ∷ path) t h = ground (arith, joins-skip_name (d ∷ path) t)

literals-end : (pattern : Bytes) → HasNoStar pattern → literals [] pattern ≢ not_match
unfolding literals wildcard skip_name
literals-end [] plain e = cc
literals-end (q ∷ []) plain e = ground (arith, e)
literals-end (q ∷ r ∷ pattern) plain e = ground (arith, e)

-- What becomes of a result when the path goes on.
abbrev Stays : (Bytes → MatchResult) → Bytes → Bytes → Type 0
Stays body path t = body path ≡ not_match → body (path ++ t) ≡ not_match

abbrev StaysAt : (Bytes → MatchResult) → Bytes → Type 0
StaysAt body t = (c : ℕ) (path : Bytes) → joins (c ∷ path) t ≡ true → Stays body (c ∷ path) t

outer-prunes :
    (body : Bytes → MatchResult) (s t pattern : Bytes)
    → (s ≡ []) ⊎ (joins s t ≡ true)
    → StaysAt body t
    → Stays (λ p. outer body p pattern) s t
outer-prunes body [] t [] h ih e = cc
outer-prunes body [] t (r ∷ pattern) h ih e = cc
outer-prunes body (c ∷ s) t [] h ih e = refl
outer-prunes body (c ∷ s) t (r ∷ pattern) (inl h) ih e = cc
outer-prunes body (c ∷ s) t (r ∷ pattern) (inr h) ih e = ih c s h e

wildcard-prunes :
    (body : Bytes → MatchResult) (q c : ℕ) (path t pattern : Bytes)
    → q ≢ any_text
    → joins (c ∷ path) t ≡ true
    → StaysAt body t
    → Stays (λ p. wildcard body q p pattern) (c ∷ path) t
unfolding wildcard
wildcard-prunes body q c path t pattern plain h ih e = elim (Bool-cases (q == any_name)) [
  | inl name ↦
      let goes_on = skip_name-append (c ∷ path) t h in
      let before : outer body (skip_name (c ∷ path)) pattern ≡ not_match = rw (◌==◌, name) at e in
      rw (◌==◌, name)
        (rw (goes_on) (
          outer-prunes body (skip_name (c ∷ path)) t pattern (joins-skip_name (c ∷ path) t h) ih
            before))
  | inr other ↦ rw (◌==◌, other) (rw (ne→== q any_text plain) refl)
]

literals-prunes :
    (c : ℕ) (path t pattern : Bytes)
    → HasNoStar pattern
    → joins (c ∷ path) t ≡ true
    → Stays (λ p. literals p pattern) (c ∷ path) t
unfolding literals
literals-prunes c path t [] plain h e = refl
literals-prunes c [] t (q ∷ pattern) (no_star, plain) h e = elim (Bool-cases (c == q)) [
  | inl same ↦ absurd (literals-end pattern plain (rw (◌==◌, same) at e))
  | inr other ↦
      rw (◌==◌, other)
        (wildcard-prunes (λ p. literals p pattern) q c [] t pattern no_star h
          (λ d s. literals-prunes d s t pattern plain) (rw (◌==◌, other) at e))
]
literals-prunes c (d ∷ path) t (q ∷ pattern) (no_star, plain) h e = elim (Bool-cases (c == q)) [
  | inl same ↦ rw (◌==◌, same) (literals-prunes d path t pattern plain h (rw (◌==◌, same) at e))
  | inr other ↦
      rw (◌==◌, other)
        (wildcard-prunes (λ p. literals p pattern) q c (d ∷ path) t pattern no_star h
          (λ d s. literals-prunes d s t pattern plain) (rw (◌==◌, other) at e))
]

-- If a pattern without `*` does not match a path, not even in part, it does not match one that goes on with a new name.
pub match_query-prunes :
    (path t pattern : Bytes)
    → HasNoStar pattern
    → joins path t ≡ true
    → match_query path pattern ≡ not_match
    → match_query (path ++ t) pattern ≡ not_match
unfolding match_query
match_query-prunes path t pattern plain h e =
    outer-prunes (λ p. literals p pattern) path t pattern (inr h)
      (λ d s. literals-prunes d s t pattern plain) e
