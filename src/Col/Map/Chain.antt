-- ===== src/Col/Map/Chain.antt =====
-- One chain of map.c: lookups after the walk that sets an entry, and after the one that unlinks it.
use sdk_dslink_c.Prelude.{
  ◌≡◌, refl, ◌↔◌, true, List, [], ◌∷◌, ◌++◌, none, some, arith, if◌then◌else◌,
}
use sdk_dslink_c.Col.Map.{Keys, find, put, unlink}

-- The comparison function is 0 exactly on equal keys.
pub record IsComparison {K : Type 0} (keys : Keys K) : Type 0 where
  pub equal_iff : (a b : K) → (keys.equal a b ≡ true) ↔ (a ≡ b)

module _ {K V : Type 0} {keys : Keys K} (law : IsComparison keys) where
  pub find-put :
      (j k : K) (v : V) (c : List (K × V))
      → find keys j (put keys k v c) ≡ (if keys.equal k j then some v else find keys j c)
  find-put j k v [] = refl
  find-put j k v ((i, w) ∷ c) =
      ground (arith, law.equal_iff i k, law.equal_iff i j, law.equal_iff k j, find-put j k v c)

  pub find-append :
      (j k : K) (v : V) (c : List (K × V))
      → find keys k c ≡ none
      → find keys j (c ++ ((k, v) ∷ [])) ≡ (if keys.equal k j then some v else find keys j c)
  find-append j k v [] h = refl
  find-append j k v ((i, w) ∷ c) h =
      ground (arith, law.equal_iff i k, law.equal_iff i j, law.equal_iff k j, find-append j k v c)

  -- No two nodes of the chain have equal keys.
  abbrev pub Distinct : List (K × V) → Type 0
  Distinct [] = Unit
  Distinct ((i, w) ∷ c) = (find keys i c ≡ none) × Distinct c

  pub find-unlink :
      (j k : K) (c : List (K × V))
      → Distinct c
      → find keys j (unlink keys k c) ≡ (if keys.equal k j then none else find keys j c)
  find-unlink j k [] h = ground arith
  find-unlink j k ((i, w) ∷ c) h =
      ground (arith, law.equal_iff i k, law.equal_iff i j, law.equal_iff k j, find-unlink j k c)

  pub Distinct-put : (k : K) (v : V) (c : List (K × V)) → Distinct c → Distinct (put keys k v c)
  Distinct-put k v [] h = (refl, tt)
  Distinct-put k v ((i, w) ∷ c) h =
      ground (arith, law.equal_iff i k, law.equal_iff k i, find-put i k v c, Distinct-put k v c)

  pub Distinct-unlink : (k : K) (c : List (K × V)) → Distinct c → Distinct (unlink keys k c)
  Distinct-unlink k [] h = tt
  Distinct-unlink k ((i, w) ∷ c) h =
      ground (arith, law.equal_iff k i, law.equal_iff i k, find-unlink i k c, Distinct-unlink k c)

  pub Distinct-append :
      (k : K) (v : V) (c : List (K × V))
      → find keys k c ≡ none
      → Distinct c
      → Distinct (c ++ ((k, v) ∷ []))
  Distinct-append k v [] e h = (refl, tt)
  Distinct-append k v ((i, w) ∷ c) e h =
      ground
        (arith, law.equal_iff i k, law.equal_iff k i, find-append i k v c, Distinct-append k v c)

  pub unlink-absent : (k : K) (c : List (K × V)) → find keys k c ≡ none → unlink keys k c ≡ c
  unlink-absent k [] h = refl
  unlink-absent k ((i, w) ∷ c) h = ground (arith, unlink-absent k c)
