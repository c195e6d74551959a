-- ===== src/Col/LinkedList/Trace.antt =====
-- Any sequence of insertions and removals on one list.
use sdk_dslink_c.Prelude.{
  ℕ, ◌+◌, ◌^◌, ◌<◌, ◌≡◌, refl, sym, ap, subst, Bool, true, false, inl, inr, List, [], ◌∷◌, ◌++◌,
  length, ◌==◌, if◌then◌else◌, Bool-cases, ==_iff,
}
use sdk_dslink_c.Prelude.Run.{Run, ok, ◌>>=◌}
use sdk_dslink_c.Col.LinkedList.{Store, list_insert_node, list_remove_node}
use sdk_dslink_c.Col.LinkedList.Ring.{IsRing, IsOut}
use sdk_dslink_c.Col.LinkedList.Correct.{list_insert_node-IsRing, list_remove_node-IsRing}

pub data Update : Type 0 where
  insert : ℕ → Update
  remove : ℕ → Update

unfoldable pub run : ℕ → List Update → Store → Run Store
unfolding list_insert_node list_remove_node
run l [] s = ok s
run l (insert x ∷ updates) s = list_insert_node s l x >>= λ t. run l updates t
run l (remove x ∷ updates) s = list_remove_node s x >>= λ t. run l updates t

-- The list without `x`.
unfoldable pub without : ℕ → List ℕ → List ℕ
without x [] = []
without x (y ∷ ys) = let rest = without x ys in if y == x then ys else y ∷ rest

abbrev has : ℕ → List ℕ → Bool
has x [] = false
has x (y ∷ ys) = if y == x then true else has x ys

unfoldable pub list_run : List Update → List ℕ → List ℕ
unfolding without
list_run [] xs = xs
list_run (insert x ∷ updates) xs = list_run updates (xs ++ (x ∷ []))
list_run (remove x ∷ updates) xs = list_run updates (without x xs)

-- A node is inserted when it is allocated and not in the list, and removed when it is in the list.
abbrev pub AreAllowed : (ℕ → Bool) → ℕ → List Update → List ℕ → Type 0
AreAllowed live l [] xs = Unit
AreAllowed live l (insert x ∷ updates) xs =
    ((live x ≡ true) × (IsOut x (l ∷ xs) × (length xs + 1 < 2 ^ 64)))
    × AreAllowed live l updates (xs ++ (x ∷ []))
AreAllowed live l (remove x ∷ updates) xs =
    (has x xs ≡ true) × AreAllowed live l updates (without x xs)

-- Where the node stands.
record Place (x : ℕ) (xs : List ℕ) : Type 0 where
  before : List ℕ
  behind : List ℕ
  split : xs ≡ before ++ (x ∷ behind)
  rest : without x xs ≡ before ++ behind

has-Place : (x : ℕ) (xs : List ℕ) → has x xs ≡ true → Place x xs
unfolding without
has-Place x [] h = cc
has-Place x (y ∷ ys) h = elim (Bool-cases (y == x)) [
  | inl here ↦ record {
    before = [];
    behind = ys;
    split = ap (λ k. k ∷ ys) ((==_iff y x).0 here);
    rest = rw (◌==◌, here) refl;
  }
  | inr later ↦
      let p = has-Place x ys (rw (◌==◌, later) at h) in
      record {
        before = y ∷ p.before;
        behind = p.behind;
        split = ap (λ k. y ∷ k) p.split;
        rest = rw (◌==◌, later) (ap (λ k. y ∷ k) p.rest);
      }
]

-- The linked list does what a list does: after any allowed sequence of list_insert_node and list_remove_node it stands for
-- the nodes in the order of their insertion, less those removed, its links agree in both directions, and its size is right.
pub run-IsRing :
    (s : Store) (l : ℕ) (updates : List Update) (xs : List ℕ)
    → IsRing s l xs
    → AreAllowed s.live l updates xs
    → (t : Store) × (run l updates s ≡ ok t) × IsRing t l (list_run updates xs)
unfolding run list_run
run-IsRing s l [] xs r allowed = (s, refl, r)
run-IsRing s l (insert x ∷ updates) xs r ((live, (out, short)), allowed) =
    let (t, e, ring, same) = list_insert_node-IsRing s l x xs r live out short in
    let (u, f, done) = run-IsRing t l updates (xs ++ (x ∷ [])) ring (rw (same) allowed) in
    (u, rw (e) f, done)
run-IsRing s l (remove x ∷ updates) xs r (member, allowed) =
    let p = has-Place x xs member in
    let (t, e, ring, _, same) =
      list_remove_node-IsRing s l p.before x p.behind (subst (λ k. IsRing s l k) p.split r) in
    let (u, f, done) =
      run-IsRing t l updates (without x xs) (subst (λ k. IsRing t l k) (sym p.rest) ring)
        (rw (same) allowed) in
    (u, rw (e) f, done)
