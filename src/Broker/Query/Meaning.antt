-- ===== src/Broker/Query/Meaning.antt =====
-- What a pattern means, without an order of search, and how match_query compares with it.
use sdk_dslink_c.Prelude.{
  ℕ, ◌≡◌, ◌≢◌, inl, inr, refl, ap, sym, subst, [], ◌∷◌, ◌++◌, ◌==◌, Bool-cases, ==_iff, ==_refl,
}
use sdk_dslink_c.Prelude.Bytes.{Bytes}
use sdk_dslink_c.Broker.Query.{
  MatchResult, not_match, partial_match, match, MatchResult-cases, any_name, any_text, skip_name,
  finish, outer, best_match, after_star, wildcard, literals,
}

pub data Matches : Bytes → Bytes → Type 0 where
  done : Matches [] []
  literal : {c : ℕ} {pattern path : Bytes} → Matches pattern path → Matches (c ∷ pattern) (c ∷ path)
  name :
      {pattern : Bytes} (path : Bytes)
      → Matches pattern (skip_name path)
      → Matches (any_name ∷ pattern) path
  text :
      {pattern path : Bytes} (t : Bytes)
      → Matches pattern path
      → Matches (any_text ∷ pattern) (t ++ path)
  all : (path : Bytes) → Matches (any_text ∷ []) path

-- A place behind the `*` where the rest matches.
record Found (recur : Bytes → MatchResult) (path : Bytes) : Type 0 where
  before : Bytes
  here : Bytes
  split : path ≡ before ++ here
  matches : recur here ≡ match

Found-later :
    (recur : Bytes → MatchResult) (c : ℕ) (path : Bytes) → Found recur path → Found recur (c ∷ path)
Found-later recur c path f = record {
  before = c ∷ f.before;
  here = f.here;
  split = ap (λ p. c ∷ p) f.split;
  matches = f.matches;
}

best_match-Found :
    (recur : Bytes → MatchResult) (q : ℕ) (best : MatchResult) (path : Bytes)
    → best ≢ match
    → best_match recur q best path ≡ match
    → Found recur path
unfolding best_match
best_match-Found recur q best [] worse e = absurd (worse e)
best_match-Found recur q best (c ∷ path) worse e = elim (Bool-cases (c == q)) [
  | inl same ↦ elim (MatchResult-cases (recur (c ∷ path))) [
    | inl none_match ↦
        Found-later recur c path
          (best_match-Found recur q best path worse (rw (◌==◌, same, none_match) at e))
    | inr (inl partly) ↦
        Found-later recur c path
          (best_match-Found recur q partial_match path (λ h. cc) (rw (◌==◌, same, partly) at e))
    | inr (inr fully) ↦ record { before = []; here = c ∷ path; split = refl; matches = fully }
  ]
  | inr other ↦
      Found-later recur c path (best_match-Found recur q best path worse (rw (◌==◌, other) at e))
]

after_star-sound :
    (recur : Bytes → MatchResult) (path pattern : Bytes)
    → ((p : Bytes) → recur p ≡ match → Matches pattern p)
    → after_star recur path pattern ≡ match
    → Matches (any_text ∷ pattern) path
after_star-sound recur path [] ih e = all path
after_star-sound recur path (r ∷ pattern) ih e =
    let f = best_match-Found recur r not_match path (λ h. cc) e in
    subst (λ p. Matches (any_text ∷ r ∷ pattern) p) (sym f.split)
      (text f.before (ih f.here f.matches))

outer-sound :
    (recur : Bytes → MatchResult) (path pattern : Bytes)
    → ((p : Bytes) → recur p ≡ match → Matches pattern p)
    → outer recur path pattern ≡ match
    → Matches pattern path
outer-sound recur [] [] ih e = done
outer-sound recur [] (q ∷ pattern) ih e = cc
outer-sound recur (c ∷ path) [] ih e = cc
outer-sound recur (c ∷ path) (q ∷ pattern) ih e = ih (c ∷ path) e

finish_more : (path : Bytes) (q : ℕ) (pattern : Bytes) → finish path (q ∷ pattern) ≢ match
finish_more [] q pattern e = cc
finish_more (c ∷ path) q pattern e = cc

wildcard-sound :
    (recur : Bytes → MatchResult) (q : ℕ) (path pattern : Bytes)
    → ((p : Bytes) → recur p ≡ match → Matches pattern p)
    → wildcard recur q path pattern ≡ match
    → Matches (q ∷ pattern) path
unfolding wildcard
wildcard-sound recur q path pattern ih e = elim (Bool-cases (q == any_name)) [
  | inl one ↦
      subst (λ k. Matches (k ∷ pattern) path) (sym ((==_iff q any_name).0 one))
        (name path (outer-sound recur (skip_name path) pattern ih (rw (◌==◌, one) at e)))
  | inr other ↦ elim (Bool-cases (q == any_text)) [
    | inl star ↦
        subst (λ k. Matches (k ∷ pattern) path) (sym ((==_iff q any_text).0 star))
          (after_star-sound recur path pattern ih (rw (◌==◌, star) at (rw (◌==◌, other) at e)))
    | inr plain ↦ absurd (finish_more path q pattern (rw (◌==◌, plain) at (rw (◌==◌, other) at e)))
  ]
]

pub literals-sound : (path pattern : Bytes) → literals path pattern ≡ match → Matches pattern path
unfolding literals wildcard
literals-sound [] [] e = done
literals-sound (c ∷ path) [] e = cc
literals-sound [] (q ∷ pattern) e =
    wildcard-sound (λ p. literals p pattern) q [] pattern (λ p. literals-sound p pattern) e
literals-sound (c ∷ path) (q ∷ pattern) e = elim (Bool-cases (c == q)) [
  | inl same ↦
      subst (λ k. Matches (q ∷ pattern) (k ∷ path)) (sym ((==_iff c q).0 same))
        (literal (literals-sound path pattern (rw (◌==◌, same) at e)))
  | inr other ↦
      wildcard-sound (λ p. literals p pattern) q (c ∷ path) pattern (λ p. literals-sound p pattern)
        (rw (◌==◌, other) at e)
]

pub best_match-finds :
    (recur : Bytes → MatchResult) (q : ℕ) (best : MatchResult) (t s : Bytes)
    → recur (q ∷ s) ≡ match
    → best_match recur q best (t ++ (q ∷ s)) ≡ match
unfolding best_match
best_match-finds recur q best [] s e = rw (==_refl q, e) refl
best_match-finds recur q best (c ∷ t) s e = elim (Bool-cases (c == q)) [
  | inl same ↦ elim (MatchResult-cases (recur (c ∷ t ++ (q ∷ s)))) [
    | inl none_match ↦ rw (◌==◌, same, none_match) (best_match-finds recur q best t s e)
    | inr (inl partly) ↦ rw (◌==◌, same, partly) (best_match-finds recur q partial_match t s e)
    | inr (inr fully) ↦ rw (◌==◌, same, fully) refl
  ]
  | inr other ↦ rw (◌==◌, other) (best_match-finds recur q best t s e)
]
