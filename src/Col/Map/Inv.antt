-- ===== src/Col/Map/Inv.antt =====
-- The invariant of map.c, and that every operation keeps it; what each does to the lookups.
use sdk_dslink_c.Prelude.{
  ℕ, zero, suc, ◌+◌, ◌-◌, ◌*◌, ◌%◌, ◌<◌, ◌≡◌, refl, sym, ap, ◌∙◌, Bool, true, false, not, ◌||◌,
  ◌&&◌, List, [], ◌∷◌, ◌++◌, Option, none, some, arith, if◌then◌else◌, set, get_or, length,
  length-append, length-set,
}
use sdk_dslink_c.Col.Map.{
  Keys, Map, find, put, unlink, replicate, map_get, map_rehash_table, renew_key, drop_key, added,
  chain, index_of_key,
}
use sdk_dslink_c.Col.Map.Chain.{
  IsComparison, find-put, find-unlink, Distinct, Distinct-put, Distinct-unlink,
}
use sdk_dslink_c.Col.Map.Place.{
  look, look-set, AllDistinct, AllDistinct-set, elem, Nodup, look-move_entries, move_entries-kept,
  Fresh,
}

pub length-replicate : {A : Type 0} (n : ℕ) (a : A) → length (replicate n a) ≡ n
length-replicate zero a = refl
length-replicate (suc n) a = ap suc (length-replicate n a)

pub get_or-replicate : {A : Type 0} (n i : ℕ) (a : A) → get_or (replicate n a) i a ≡ a
get_or-replicate zero i a = refl
get_or-replicate (suc n) zero a = refl
get_or-replicate (suc n) (suc i) a = get_or-replicate n i a

module _ {K : Type 0} {keys : Keys K} (law : IsComparison keys) where
  pub elem-append :
      (j k : K) (ks : List K) → elem law j (ks ++ (k ∷ [])) ≡ (keys.equal k j || elem law j ks)
  elem-append j k [] = refl
  elem-append j k (i ∷ ks) = ground (arith, elem-append j k ks)

  pub Nodup-append :
      (k : K) (ks : List K) → elem law k ks ≡ false → Nodup law ks → Nodup law (ks ++ (k ∷ []))
  Nodup-append k [] e h = (refl, tt)
  Nodup-append k (i ∷ ks) e h =
      ground (arith, elem-append i k ks, law.equal_iff i k, law.equal_iff k i, Nodup-append k ks)

  pub renew_key_lem : (k : K) (ks : List K) → renew_key keys k ks ≡ ks
  renew_key_lem k [] = refl
  renew_key_lem k (i ∷ ks) = ground (arith, law.equal_iff i k, renew_key_lem k ks)

  pub elem-drop_key :
      (j k : K) (ks : List K)
      → Nodup law ks
      → elem law j (drop_key keys k ks) ≡ (not (keys.equal k j) && elem law j ks)
  elem-drop_key j k [] h = ground arith
  elem-drop_key j k (i ∷ ks) h =
      ground (arith, law.equal_iff i k, law.equal_iff i j, law.equal_iff k j, elem-drop_key j k ks)

  pub Nodup-drop_key : (k : K) (ks : List K) → Nodup law ks → Nodup law (drop_key keys k ks)
  Nodup-drop_key k [] h = tt
  Nodup-drop_key k (i ∷ ks) h =
      ground (arith, elem-drop_key i k ks, law.equal_iff i k, Nodup-drop_key k ks)

  pub length-drop_key :
      (k : K) (ks : List K) → elem law k ks ≡ true → length (drop_key keys k ks) + 1 ≡ length ks
  length-drop_key k [] h = cc
  length-drop_key k (i ∷ ks) h = ground (arith, length-drop_key k ks)

abbrev pub is_some : {V : Type 0} → Option V → Bool
is_some none = false
is_some (some v) = true

module _ {K : Type 0} {keys : Keys K} (law : IsComparison keys) (V : Type 0) where
  Fresh-replicate :
      (n capacity : ℕ) (ks : List K)
      → Fresh {V = V} law (replicate {A = List (K × V)} n []) capacity ks
  Fresh-replicate n capacity [] = tt
  Fresh-replicate n capacity (k ∷ ks) = (
    rw (get_or-replicate {A = List (K × V)} n (keys.hash_key k % capacity) []) refl,
    Fresh-replicate n capacity ks,
  )

  pub AllDistinct-replicate : (n : ℕ) → AllDistinct {V = V} law (replicate {A = List (K × V)} n [])
  AllDistinct-replicate n i = rw (get_or-replicate {A = List (K × V)} n i []) tt

module _ {K V : Type 0} {keys : Keys K} (law : IsComparison keys) where
  -- The table has `capacity` chains without equal keys; the list has each key once, and exactly those that a lookup
  -- finds; `size` counts them.
  pub record IsValid (map : Map K V) : Type 0 where
    pub table_len : length map.table ≡ map.capacity
    pub positive : 0 < map.capacity
    pub distinct : AllDistinct law map.table
    pub nodup : Nodup law map.order
    pub listed : (k : K) → elem law k map.order ≡ is_some (map_get keys map k)
    pub counted : map.size ≡ length map.order

  abbrev fresh_table : Map K V → List (List (K × V))
  fresh_table map = replicate (map.capacity * 2) []

  -- Rehashing changes no lookup.
  pub map_get-rehash :
      (map : Map K V) (j : K)
      → IsValid map
      → map_get keys (map_rehash_table keys map) j ≡ map_get keys map j
  unfolding map_get map_rehash_table
  map_get-rehash map j h =
      look-move_entries law map (map.capacity * 2) map.order j (fresh_table map)
        (omega (arith, h.positive)) (length-replicate (map.capacity * 2) []) h.nodup
        (Fresh-replicate law V (map.capacity * 2) (map.capacity * 2) map.order)
      ∙ same
    where
      same :
          (if elem law j map.order
            then map_get keys map j
            else look law (fresh_table map) (map.capacity * 2) j)
          ≡ map_get keys map j
      same =
          rw
            (get_or-replicate {A = List (K × V)} (map.capacity * 2)
              (keys.hash_key j % (map.capacity * 2)) [])
            (ground (arith, h.listed j))

  pub map_rehash_table-IsValid : (map : Map K V) → IsValid map → IsValid (map_rehash_table keys map)
  unfolding map_rehash_table
  map_rehash_table-IsValid map h =
      let (len, distinct) =
        move_entries-kept law map (map.capacity * 2) map.order (fresh_table map)
          (omega (arith, h.positive)) (length-replicate (map.capacity * 2) []) h.nodup
          (Fresh-replicate law V (map.capacity * 2) (map.capacity * 2) map.order)
          (AllDistinct-replicate law V (map.capacity * 2)) in
      record {
        table_len = len;
        positive = omega (arith, h.positive);
        distinct = distinct;
        nodup = h.nodup;
        listed = λ k. h.listed k ∙ ap is_some (sym (map_get-rehash map k h));
        counted = h.counted;
      }

  -- The map with another chain for a key, another size and another list.
  abbrev pub replaced : Map K V → K → List (K × V) → ℕ → List K → Map K V
  replaced map k c size order = record map {
    size = size;
    table = set map.table (index_of_key keys map k) c;
    order = order;
  }

  pub map_get-replaced :
      (map : Map K V) (k j : K) (c : List (K × V)) (r : Option V) (size : ℕ) (order : List K)
      → IsValid map
      → find keys j c ≡ (if keys.equal k j then r else find keys j (chain keys map k))
      → map_get keys (replaced map k c size order) j
        ≡ (if keys.equal k j then r else map_get keys map j)
  unfolding map_get index_of_key
  map_get-replaced map k j c r size order h e =
      look-set law map.table map.capacity k j c r h.positive h.table_len e

  -- The invariant of such a map, from what changes.
  replaced-IsValid :
      (map : Map K V) (k : K) (c : List (K × V)) (r : Option V) (size : ℕ) (order : List K)
      → IsValid map
      → Distinct law c
      → ((j : K) → find keys j c ≡ (if keys.equal k j then r else find keys j (chain keys map k)))
      → Nodup law order
      → ((j : K) → elem law j order ≡ (if keys.equal k j then is_some r else elem law j map.order))
      → size ≡ length order
      → IsValid (replaced map k c size order)
  replaced-IsValid map k c r size order h d e n l s = record {
    table_len = length-set map.table (index_of_key keys map k) c ∙ h.table_len;
    positive = h.positive;
    distinct = AllDistinct-set law map.table (index_of_key keys map k) c h.distinct d;
    nodup = n;
    listed = λ j. ground (arith, l j, map_get-replaced map k j c r size order h (e j), h.listed j);
    counted = s;
  }

  -- The two ends of a successful dslink_map_set: the key was there, or it is new.
  abbrev pub assigned : Map K V → K → V → Map K V
  assigned map k v =
      replaced map k (put keys k v (chain keys map k)) map.size (renew_key keys k map.order)

  pub assigned-IsValid :
      (map : Map K V) (k : K) (v : V)
      → IsValid map
      → is_some (map_get keys map k) ≡ true
      → IsValid (assigned map k v)
  assigned-IsValid map k v h there =
      replaced-IsValid map k (put keys k v (chain keys map k)) (some v) map.size
        (renew_key keys k map.order) h
        (Distinct-put law k v (chain keys map k) (h.distinct (index_of_key keys map k)))
        (λ j. find-put law j k v (chain keys map k)) (rw (renew_key_lem law k map.order) h.nodup)
        (λ j. ground (arith, renew_key_lem law k map.order, law.equal_iff k j, h.listed k))
        (rw (renew_key_lem law k map.order) h.counted)

  pub added-IsValid :
      (map : Map K V) (k : K) (v : V)
      → IsValid map
      → is_some (map_get keys map k) ≡ false
      → IsValid (added keys map k v)
  added-IsValid map k v h new =
      replaced-IsValid map k (put keys k v (chain keys map k)) (some v) (map.size + 1)
        (map.order ++ (k ∷ [])) h
        (Distinct-put law k v (chain keys map k) (h.distinct (index_of_key keys map k)))
        (λ j. find-put law j k v (chain keys map k))
        (Nodup-append law k map.order (h.listed k ∙ new) h.nodup)
        (λ j. ground (arith, elem-append law j k map.order))
        (omega (arith, length-append map.order (k ∷ []), h.counted))

  -- dslink_map_removel_get where the key is found.
  abbrev pub removed : Map K V → K → Map K V
  removed map k =
      replaced map k (unlink keys k (chain keys map k)) (map.size - 1) (drop_key keys k map.order)

  pub removed-IsValid :
      (map : Map K V) (k : K)
      → IsValid map
      → is_some (map_get keys map k) ≡ true
      → IsValid (removed map k)
  removed-IsValid map k h there =
      replaced-IsValid map k (unlink keys k (chain keys map k)) none (map.size - 1)
        (drop_key keys k map.order) h
        (Distinct-unlink law k (chain keys map k) (h.distinct (index_of_key keys map k)))
        (λ j. find-unlink law j k (chain keys map k) (h.distinct (index_of_key keys map k)))
        (Nodup-drop_key law k map.order h.nodup)
        (λ j. ground (arith, elem-drop_key law j k map.order h.nodup))
        (omega (arith, length-drop_key law k map.order (h.listed k ∙ there), h.counted))
