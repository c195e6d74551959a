-- ===== src/Col/Map/Entries.antt =====
-- The entries of a map, in the order of its list, as an association list.
use sdk_dslink_c.Prelude.{
  ◌≡◌, refl, true, false, List, [], ◌∷◌, ◌++◌, Option, none, some, arith, if◌then◌else◌,
}
use sdk_dslink_c.Col.Map.{Keys, find, put, unlink, entries_of, drop_key}
use sdk_dslink_c.Col.Map.Chain.{IsComparison}
use sdk_dslink_c.Col.Map.Place.{elem, Nodup}

module _ {K V : Type 0} {keys : Keys K} (law : IsComparison keys) where
  pub entries_of-cong :
      (g g' : K → Option V) (ks : List K)
      → ((k : K) → g' k ≡ g k)
      → entries_of keys g' ks ≡ entries_of keys g ks
  entries_of-cong g g' [] e = refl
  entries_of-cong g g' (k ∷ ks) e = ground (arith, e k, entries_of-cong g g' ks e)

  pub find-entries_of :
      (g : K → Option V) (j : K) (ks : List K)
      → find keys j (entries_of keys g ks) ≡ (if elem law j ks then g j else none)
  find-entries_of g j [] = refl
  find-entries_of g j (k ∷ ks) = ground (arith, law.equal_iff k j, find-entries_of g j ks)

  -- A change at a key that is not listed changes no entry.
  entries_of-other :
      (g g' : K → Option V) (k : K) (r : Option V) (ks : List K)
      → elem law k ks ≡ false
      → ((j : K) → g' j ≡ (if keys.equal k j then r else g j))
      → entries_of keys g' ks ≡ entries_of keys g ks
  entries_of-other g g' k r [] new e = refl
  entries_of-other g g' k r (i ∷ ks) new e =
      ground (arith, e i, law.equal_iff k i, law.equal_iff i k, entries_of-other g g' k r ks)

  pub entries_of-put :
      (g g' : K → Option V) (k : K) (v old : V) (ks : List K)
      → g k ≡ some old
      → Nodup law ks
      → elem law k ks ≡ true
      → ((j : K) → g' j ≡ (if keys.equal k j then some v else g j))
      → entries_of keys g' ks ≡ put keys k v (entries_of keys g ks)
  entries_of-put g g' k v old [] there n l e = cc
  entries_of-put g g' k v old (i ∷ ks) there n l e = ground (
    arith,
    e i,
    law.equal_iff i k,
    law.equal_iff k i,
    entries_of-other g g' k (some v) ks,
    entries_of-put g g' k v old ks there,
  )

  pub entries_of-append :
      (g g' : K → Option V) (k : K) (v : V) (ks : List K)
      → elem law k ks ≡ false
      → ((j : K) → g' j ≡ (if keys.equal k j then some v else g j))
      → entries_of keys g' (ks ++ (k ∷ [])) ≡ put keys k v (entries_of keys g ks)
  entries_of-append g g' k v [] new e = ground (arith, e k, law.equal_iff k k)
  entries_of-append g g' k v (i ∷ ks) new e =
      ground (arith, e i, law.equal_iff k i, law.equal_iff i k, entries_of-append g g' k v ks)

  pub entries_of-unlink :
      (g g' : K → Option V) (k : K) (old : V) (ks : List K)
      → g k ≡ some old
      → Nodup law ks
      → ((j : K) → g' j ≡ (if keys.equal k j then none else g j))
      → entries_of keys g' (drop_key keys k ks) ≡ unlink keys k (entries_of keys g ks)
  entries_of-unlink g g' k old [] there n e = refl
  entries_of-unlink g g' k old (i ∷ ks) there n e = ground (
    arith,
    e i,
    law.equal_iff i k,
    law.equal_iff k i,
    entries_of-other g g' k none ks,
    entries_of-unlink g g' k old ks there,
  )
