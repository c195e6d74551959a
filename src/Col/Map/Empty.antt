-- ===== src/Col/Map/Empty.antt =====
-- Maps that are made or cleared: dslink_map_initbf and dslink_map_clear.
use sdk_dslink_c.Prelude.{
  ℕ, ◌≡◌, ◌<◌, refl, sym, ◌∙◌, Bool, true, false, List, [], ◌∷◌, none, some, arith, pos, length,
  inl, inr, Bool-cases, ◌==◌,
}
use sdk_dslink_c.Col.Map.{
  Keys, Map, replicate, map_initbf, map_foreach, map_clear, map_get, index_of_key,
}
use sdk_dslink_c.Col.Map.Chain.{IsComparison}
use sdk_dslink_c.Col.Map.Inv.{IsValid, length-replicate, get_or-replicate, AllDistinct-replicate}

module _ {K V : Type 0} {keys : Keys K} (law : IsComparison keys) where
  abbrev pub emptied : ℕ → Bool → Map K V
  emptied capacity locked = record {
    size = 0;
    capacity = capacity;
    table = replicate capacity [];
    order = [];
    locked = locked;
  }

  map_get-emptied :
      (capacity : ℕ) (locked : Bool) (k : K) → map_get keys (emptied capacity locked) k ≡ none
  unfolding map_get
  map_get-emptied capacity locked k =
      rw
        (get_or-replicate {A = List (K × V)} capacity
          (index_of_key keys (emptied capacity locked) k) [])
        refl

  pub emptied-IsValid :
      (capacity : ℕ) (locked : Bool) → 0 < capacity → IsValid law (emptied capacity locked)
  emptied-IsValid capacity locked h = record {
    table_len = length-replicate capacity [];
    positive = h;
    distinct = AllDistinct-replicate law V capacity;
    nodup = tt;
    listed = λ k. rw (map_get-emptied capacity locked k) refl;
    counted = refl;
  }

  -- What dslink_map_initbf makes, where calloc gives the table and there is at least one bucket, is valid, empty and not locked.
  pub map_initbf-IsValid :
      (old : Map K V) (buckets : ℕ)
      → 0 < buckets
      → (map : Map K V) × (map_initbf true buckets (some old) ≡ (pos 0, some map))
        × IsValid law map
        × (map_foreach keys map ≡ [])
        × (map.locked ≡ false)
  unfolding map_initbf map_foreach
  map_initbf-IsValid old buckets h =
      (emptied buckets false, refl, emptied-IsValid buckets false h, refl, refl)

  -- dslink_map_clear on a valid map releases every entry, in the order of the list, and leaves a valid, empty map.
  pub map_clear-releases :
      (map : Map K V)
      → IsValid law map
      → (map' : Map K V) × (map_clear keys map ≡ (map_foreach keys map, map'))
        × IsValid law map'
        × (map_foreach keys map' ≡ [])
        × (map'.locked ≡ map.locked)
  unfolding map_clear map_foreach
  map_clear-releases map h = elim (Bool-cases (map.size == 0)) [
    | inl e ↦ (map, rw (e, no_entries (ground arith)) refl, h, no_entries (ground arith), refl)
    | inr ne ↦ (
      emptied map.capacity map.locked,
      ground arith,
      emptied-IsValid map.capacity map.locked h.positive,
      refl,
      refl,
    )
  ]
    where
      no_keys : (ks : List K) → length ks ≡ 0 → ks ≡ []
      no_keys [] e = refl
      no_keys (k ∷ ks) e = absurd (omega arith)

      no_entries : map.size ≡ 0 → map_foreach keys map ≡ []
      no_entries e = rw (no_keys map.order (sym h.counted ∙ e)) refl
