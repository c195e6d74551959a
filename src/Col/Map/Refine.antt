-- ===== src/Col/Map/Refine.antt =====
-- map.c refines an association list in the order of insertion.
use sdk_dslink_c.Prelude.{
  ◌+◌, ◌-◌, ◌≡◌, refl, sym, ap, ◌∙◌, inl, inr, true, false, List, [], ◌∷◌, ◌++◌, Option, none, some,
  arith, Bool-cases, Option-cases, pos,
}
use sdk_dslink_c.Col.Map.{
  Keys, Map, Memory, intact, find, find_key, put, unlink, entries_of, map_get, map_contains,
  map_foreach, map_rehash_table, set_entry, map_set, map_remove_get, added, chain, renew_key,
  drop_key, index_of_key,
}
use sdk_dslink_c.Col.Map.Chain.{IsComparison, find-put, find-unlink, unlink-absent}
use sdk_dslink_c.Col.Map.Inv.{
  IsValid, is_some, map_get-rehash, map_rehash_table-IsValid, map_get-replaced, assigned,
  assigned-IsValid, added-IsValid, removed, removed-IsValid, renew_key_lem,
}
use sdk_dslink_c.Col.Map.Entries.{
  entries_of-cong, find-entries_of, entries_of-put, entries_of-append, entries_of-unlink,
}

-- Memory for everything.
abbrev pub enough : Memory
enough = record { new_table = true; new_node = true; new_entry = true }

module _ {K V : Type 0} {keys : Keys K} (law : IsComparison keys) where
  -- A lookup in a valid map is one in the list of its entries.
  pub map_get-find :
      (map : Map K V) (k : K)
      → IsValid law map
      → map_get keys map k ≡ find keys k (map_foreach keys map)
  unfolding map_foreach
  map_get-find map k h =
      sym (find-entries_of law (map_get keys map) k map.order ∙ ground (arith, h.listed k))

  -- What a successful call on `old` leaves: a valid map with these entries, locked or not as before.
  abbrev pub Holds : Map K V → Map K V → List (K × V) → Type 0
  Holds old map entries =
      IsValid law map × (map_foreach keys map ≡ entries) × (map.locked ≡ old.locked)

  pub rehash-Holds :
      (map : Map K V)
      → IsValid law map
      → Holds map (map_rehash_table keys map) (map_foreach keys map)
  unfolding map_foreach map_rehash_table
  rehash-Holds map h = (
    map_rehash_table-IsValid law map h,
    entries_of-cong law (map_get keys map) (map_get keys (map_rehash_table keys map)) map.order
        (λ k. map_get-rehash law map k h),
    refl,
  )

  assigned-Holds :
      (map : Map K V) (k : K) (v old : V)
      → IsValid law map
      → map_get keys map k ≡ some old
      → Holds map (assigned law map k v) (put keys k v (map_foreach keys map))
  unfolding map_foreach
  assigned-Holds map k v old h there = (
    assigned-IsValid law map k v h (rw there refl),
    ap (entries_of keys (map_get keys (assigned law map k v))) (renew_key_lem law k map.order)
        ∙ entries_of-put law (map_get keys map) (map_get keys (assigned law map k v)) k v old
            map.order there h.nodup (h.listed k ∙ rw there refl)
            (λ j.
              map_get-replaced law map k j (put keys k v (chain keys map k)) (some v) map.size
                (renew_key keys k map.order) h (find-put law j k v (chain keys map k))),
    refl,
  )

  added-Holds :
      (map : Map K V) (k : K) (v : V)
      → IsValid law map
      → map_get keys map k ≡ none
      → Holds map (added keys map k v) (put keys k v (map_foreach keys map))
  unfolding map_foreach
  added-Holds map k v h new = (
    added-IsValid law map k v h (rw new refl),
    entries_of-append law (map_get keys map) (map_get keys (added keys map k v)) k v map.order
        (h.listed k ∙ rw new refl)
        (λ j.
          map_get-replaced law map k j (put keys k v (chain keys map k)) (some v) (map.size + 1)
            (map.order ++ (k ∷ [])) h (find-put law j k v (chain keys map k))),
    refl,
  )

  removed-Holds :
      (map : Map K V) (k : K) (old : V)
      → IsValid law map
      → map_get keys map k ≡ some old
      → Holds map (removed law map k) (unlink keys k (map_foreach keys map))
  unfolding map_foreach
  removed-Holds map k old h there = (
    removed-IsValid law map k h (rw there refl),
    entries_of-unlink law (map_get keys map) (map_get keys (removed law map k)) k old map.order
        there h.nodup
        (λ j.
          map_get-replaced law map k j (unlink keys k (chain keys map k)) none (map.size - 1)
            (drop_key keys k map.order) h
            (find-unlink law j k (chain keys map k) (h.distinct (index_of_key keys map k)))),
    refl,
  )

  set_entry-Holds :
      (map : Map K V) (k : K) (v : V)
      → IsValid law map
      → (map' : Map K V) × (old : Option K) × (set_entry keys enough map k v
          ≡ (pos 0, old, map_get keys map k, intact map'))
        × Holds map map' (put keys k v (map_foreach keys map))
  unfolding set_entry map_get
  set_entry-Holds map k v h = elim (Option-cases (map_get keys map k)) [
    | inl e ↦ (added keys map k v, none, ground (arith, e), added-Holds map k v h e)
    | inr (old, e) ↦ (
      assigned law map k v,
      find_key keys k (chain keys map k),
      ground (arith, e),
      assigned-Holds map k v old h e,
    )
  ]

  -- dslink_map_set with enough memory, whether it rehashes or not: the entry of the key gets the value in place, or
  -- comes behind the others; the key and the value that it had are released.
  pub map_set-refines :
      (map : Map K V) (k : K) (v : V)
      → IsValid law map
      → (map' : Map K V) × (old : Option K) × (map_set keys enough map (some k) (some v)
          ≡ (pos 0, old, find keys k (map_foreach keys map), intact map'))
        × Holds map map' (put keys k v (map_foreach keys map))
  unfolding map_set
  map_set-refines map k v h = elim (Bool-cases (keys.is_loaded map.size map.capacity)) [
    | inl full ↦
        let (h', same, lock) = rehash-Holds map h in
        let (map', old, run, (valid, now, lock')) =
          set_entry-Holds (map_rehash_table keys map) k v h' in
        (
          map',
          old,
          rw (full, run, map_get-find (map_rehash_table keys map) k h', same) refl,
          (valid, rw (now, same) refl, lock' ∙ lock),
        )
    | inr room ↦
        let (map', old, run, holds) = set_entry-Holds map k v h in
        (map', old, rw (room, run, map_get-find map k h) refl, holds)
  ]

  -- dslink_map_remove_get on a map that is not locked: it unlinks the entry of the key and returns its value.
  pub map_remove_get-refines :
      (map : Map K V) (k : K)
      → IsValid law map
      → map.locked ≡ false
      → (map' : Map K V) × (map_remove_get keys (some map) k
          ≡ (find keys k (map_foreach keys map), some map'))
        × Holds map map' (unlink keys k (map_foreach keys map))
  unfolding map_remove_get map_get
  map_remove_get-refines map k h open_map = elim (Option-cases (map_get keys map k)) [
    | inl e ↦ (
      map,
      ground (arith, e, map_get-find map k h),
      (h, sym (unlink-absent law k (map_foreach keys map) (sym (map_get-find map k h) ∙ e)), refl),
    )
    | inr (old, e) ↦
        (removed law map k, ground (arith, e, map_get-find map k h), removed-Holds map k old h e)
  ]

  pub map_contains-find :
      (map : Map K V) (k : K)
      → IsValid law map
      → map_contains keys map k ≡ is_some (find keys k (map_foreach keys map))
  unfolding map_contains map_get
  map_contains-find map k h = ground (arith, map_get-find map k h)
