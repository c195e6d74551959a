-- ===== src/Col/Map/Failure.antt =====
-- dslink_map_set where memory runs out.
use sdk_dslink_c.Prelude.{
  ◌≡◌, ◌≢◌, ◌⊎◌, refl, List, [], ◌∷◌, Option, none, some, arith, inl, inr, true, false, Bool-cases,
}
use sdk_dslink_c.Col.Map.{
  Keys, Map, Memory, Left, intact, dangling, map_foreach, map_rehash_table, index_of_key, set_entry,
  map_set, alloc_err, chain, find,
}
use sdk_dslink_c.Col.Map.Chain.{IsComparison}
use sdk_dslink_c.Col.Map.Inv.{IsValid}
use sdk_dslink_c.Col.Map.Refine.{rehash-Holds, Holds}

module _ {K V : Type 0} {keys : Keys K} (law : IsComparison keys) where
  -- What a failed call makes of a map: nothing, or the last node of the chain of the key is freed, where that chain has
  -- nodes and there is memory for a node but none for its entry.
  abbrev pub IsLeft : Memory → Map K V → K → Left K V → Type 0
  IsLeft memory map k left =
      (left ≡ intact map)
      ⊎ (left ≡ dangling map (index_of_key keys map k))
        × (memory.new_node ≡ true)
        × (memory.new_entry ≡ false)
        × (chain keys map k ≢ [])

  set_entry_fails :
      (memory : Memory) (map : Map K V) (k : K) (v : V) (old : Option K) (r : Option V)
      (left : Left K V)
      → set_entry keys memory map k v ≡ (alloc_err, old, r, left)
      → IsLeft memory map k left × (old ≡ none) × (r ≡ none)
  unfolding set_entry
  set_entry_fails memory map k v old r left e = by_find (find keys k (chain keys map k)) refl
    where
      Failed : Type 0
      Failed = IsLeft memory map k left × (old ≡ none) × (r ≡ none)

      by_find : (o : Option V) → find keys k (chain keys map k) ≡ o → Failed
      by_find none p = by_chain (chain keys map k) refl
        where
          by_chain : (c : List (K × V)) → chain keys map k ≡ c → Failed
          by_chain [] q = ground arith
          by_chain (n ∷ c) q = elim (Bool-cases memory.new_node) [
            | inl given ↦ elim (Bool-cases memory.new_entry) [
              | inl both ↦ ground arith
              | inr no_entry ↦
                  (inr (ground arith, given, no_entry, λ z. cc), ground arith, ground arith)
            ]
            | inr no_node ↦ (inl (ground arith), ground arith, ground arith)
          ]
      by_find (some old) p = ground arith

  -- Take a call of dslink_map_set on a valid map that returns DSLINK_ALLOC_ERR. It releases no key and no value. There is
  -- a valid map with the same entries, the map itself or the map as it is rehashed, and the call leaves that one; or,
  -- where the key's chain in it has nodes and there was memory for a node but none for its entry, it leaves that one
  -- with the last node of this chain freed but still linked.
  pub map_set-keeps :
      (memory : Memory) (map : Map K V) (k : K) (v : V) (old : Option K) (r : Option V)
      (left : Left K V)
      → IsValid law map
      → map_set keys memory map (some k) (some v) ≡ (alloc_err, old, r, left)
      → (map' : Map K V) × Holds law map map' (map_foreach keys map)
        × IsLeft memory map' k left
        × (old ≡ none)
        × (r ≡ none)
  unfolding map_set
  map_set-keeps memory map k v old r left h e =
      elim (Bool-cases (keys.is_loaded map.size map.capacity)) [
        | inl full ↦ elim (Bool-cases memory.new_table) [
          | inl given ↦
              from (map_rehash_table keys map) (rehash-Holds law map h) (ground (arith, e))
          | inr refused ↦
              (map, (h, refl, refl), inl (ground (arith, e)), ground (arith, e), ground (arith, e))
        ]
        | inr room ↦ from map (h, refl, refl) (ground (arith, e))
      ]
    where
      from :
          (m : Map K V)
          → Holds law map m (map_foreach keys map)
          → set_entry keys memory m k v ≡ (alloc_err, old, r, left)
          → (map' : Map K V) × Holds law map map' (map_foreach keys map)
            × IsLeft memory map' k left
            × (old ≡ none)
            × (r ≡ none)
      from m holds p =
          let (what, no_key, no_value) = set_entry_fails memory m k v old r left p in
          (m, holds, what, no_key, no_value)
