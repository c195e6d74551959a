-- ===== src/Col/Map/Place.antt =====
-- The table of map.c: a lookup after one chain is replaced, and after the entries move to a new table.
use sdk_dslink_c.Prelude.{
  ℕ, zero, suc, ◌%◌, ◌<◌, ◌≡◌, ◌≢◌, refl, ap, subst, ◌∙◌, inl, inr, Bool, false, ◌||◌, List, [],
  ◌∷◌, ◌++◌, Option, none, some, arith, if◌then◌else◌, ◌==◌, Bool-cases, Option-cases, set, get_or,
  length, length-set, get_or-set_self, get_or-set_ne,
}
use sdk_dslink_c.Col.Map.{Keys, Map, find, move_entry, move_entries, map_get}
use sdk_dslink_c.Col.Map.Chain.{IsComparison, find-append, Distinct, Distinct-append}

module _ {K : Type 0} {keys : Keys K} (law : IsComparison keys) where
  abbrev pub elem : K → List K → Bool
  elem j [] = false
  elem j (k ∷ ks) = keys.equal k j || elem j ks

  abbrev pub Nodup : List K → Type 0
  Nodup [] = Unit
  Nodup (k ∷ ks) = (elem k ks ≡ false) × Nodup ks

  index-lt : (capacity : ℕ) (k : K) → 0 < capacity → keys.hash_key k % capacity < capacity
  index-lt capacity k h = grind arith

  -- Keys with different indices are different.
  not_equal :
      (capacity : ℕ) (k j : K)
      → (keys.hash_key k % capacity == keys.hash_key j % capacity) ≡ false
      → keys.equal k j ≡ false
  not_equal capacity k j other = elim (Bool-cases (keys.equal k j)) [
    | inl e ↦ absurd (ne (ap (λ i. keys.hash_key i % capacity) ((law.equal_iff k j).0 e)))
    | inr e ↦ e
  ]
    where
      ne : keys.hash_key k % capacity ≢ keys.hash_key j % capacity
      ne = ground arith

module _ {K V : Type 0} {keys : Keys K} (law : IsComparison keys) where
  -- The lookup of a key in a table.
  abbrev pub look : List (List (K × V)) → ℕ → K → Option V
  look table capacity j = find keys j (get_or table (keys.hash_key j % capacity) [])

  pub look-set :
      (table : List (List (K × V))) (capacity : ℕ) (k j : K) (c : List (K × V)) (r : Option V)
      → 0 < capacity
      → length table ≡ capacity
      → find keys j c
        ≡ (if keys.equal k j then r else find keys j (get_or table (keys.hash_key k % capacity) []))
      → look (set table (keys.hash_key k % capacity) c) capacity j
        ≡ (if keys.equal k j then r else look table capacity j)
  look-set table capacity k j c r h l e =
      elim (Bool-cases (keys.hash_key k % capacity == keys.hash_key j % capacity)) [
        | inl same ↦
            let at : keys.hash_key k % capacity ≡ keys.hash_key j % capacity = ground arith in
            rw
              (
                ← at,
                get_or-set_self table (keys.hash_key k % capacity) c []
                    (ground (arith, index-lt law capacity k h)),
              )
              e
        | inr other ↦
            rw
              (
                get_or-set_ne table (keys.hash_key k % capacity) (keys.hash_key j % capacity) c []
                    (ground arith),
                not_equal law capacity k j other,
              )
              refl
      ]

  abbrev pub AllDistinct : List (List (K × V)) → Type 0
  AllDistinct table = (i : ℕ) → Distinct law (get_or table i [])

  pub AllDistinct-set :
      (table : List (List (K × V))) (i : ℕ) (c : List (K × V))
      → AllDistinct table
      → Distinct law c
      → AllDistinct (set table i c)
  AllDistinct-set [] i c all h n = all n
  AllDistinct-set (b ∷ table) zero c all h zero = h
  AllDistinct-set (b ∷ table) zero c all h (suc n) = all (suc n)
  AllDistinct-set (b ∷ table) (suc i) c all h zero = all 0
  AllDistinct-set (b ∷ table) (suc i) c all h (suc n) =
      AllDistinct-set table i c (λ m. all (suc m)) h n

  -- None of the keys is in the table.
  abbrev pub Fresh : List (List (K × V)) → ℕ → List K → Type 0
  Fresh table capacity [] = Unit
  Fresh table capacity (k ∷ ks) = (look table capacity k ≡ none) × Fresh table capacity ks

  look-move_entry :
      (map : Map K V) (capacity : ℕ) (k j : K) (table : List (List (K × V)))
      → 0 < capacity
      → length table ≡ capacity
      → look table capacity k ≡ none
      → look (move_entry keys map capacity k table) capacity j
        ≡ (if keys.equal k j then map_get keys map k else look table capacity j)
  look-move_entry map capacity k j table h l fresh = elim (Option-cases (map_get keys map k)) [
    | inl e ↦
        rw (move_entry, e)
          (elim (Bool-cases (keys.equal k j)) [
            | inl q ↦
                rw q (subst (λ i. look table capacity i ≡ none) ((law.equal_iff k j).0 q) fresh)
            | inr q ↦ rw q refl
          ])
    | inr (v, e) ↦
        rw (move_entry, e)
          (look-set table capacity k j
            (get_or table (keys.hash_key k % capacity) [] ++ ((k, v) ∷ [])) (some v) h l
            (find-append law j k v (get_or table (keys.hash_key k % capacity) []) fresh))
  ]

  AllDistinct-move_entry :
      (map : Map K V) (capacity : ℕ) (k : K) (table : List (List (K × V)))
      → look table capacity k ≡ none
      → AllDistinct table
      → AllDistinct (move_entry keys map capacity k table)
  AllDistinct-move_entry map capacity k table fresh all = elim (Option-cases (map_get keys map k)) [
    | inl e ↦ rw (move_entry, e) all
    | inr (v, e) ↦
        rw (move_entry, e)
          (AllDistinct-set table (keys.hash_key k % capacity)
            (get_or table (keys.hash_key k % capacity) [] ++ ((k, v) ∷ [])) all
            (Distinct-append law k v (get_or table (keys.hash_key k % capacity) []) fresh
              (all (keys.hash_key k % capacity))))
  ]

  length-move_entry :
      (map : Map K V) (capacity : ℕ) (k : K) (table : List (List (K × V)))
      → length (move_entry keys map capacity k table) ≡ length table
  length-move_entry map capacity k table = elim (Option-cases (map_get keys map k)) [
    | inl e ↦ rw (move_entry, e) refl
    | inr (v, e) ↦
        rw (move_entry, e)
          (length-set table (keys.hash_key k % capacity)
            (get_or table (keys.hash_key k % capacity) [] ++ ((k, v) ∷ [])))
  ]

  Fresh-move_entry :
      (map : Map K V) (capacity : ℕ) (k : K) (ks : List K) (table : List (List (K × V)))
      → 0 < capacity
      → length table ≡ capacity
      → look table capacity k ≡ none
      → elem law k ks ≡ false
      → Fresh table capacity ks
      → Fresh (move_entry keys map capacity k table) capacity ks
  Fresh-move_entry map capacity k [] table h l fresh new all = tt
  Fresh-move_entry map capacity k (i ∷ ks) table h l fresh new all = (
    ground (
      arith,
      look-move_entry map capacity k i table h l fresh,
      law.equal_iff i k,
      law.equal_iff k i,
    ),
    Fresh-move_entry map capacity k ks table h l fresh (ground arith) all.1,
  )

  -- After the loop over the list every key of the list is found with the value it had, and all else is as before.
  pub look-move_entries :
      (map : Map K V) (capacity : ℕ) (ks : List K) (j : K) (table : List (List (K × V)))
      → 0 < capacity
      → length table ≡ capacity
      → Nodup law ks
      → Fresh table capacity ks
      → look (move_entries keys map capacity ks table) capacity j
        ≡ (if elem law j ks then map_get keys map j else look table capacity j)
  unfolding move_entries
  look-move_entries map capacity [] j table h l new fresh = refl
  look-move_entries map capacity (k ∷ ks) j table h l new fresh =
      look-move_entries map capacity ks j (move_entry keys map capacity k table) h
        (length-move_entry map capacity k table ∙ l) new.1
        (Fresh-move_entry map capacity k ks table h l fresh.0 new.0 fresh.1)
      ∙ ground (arith, look-move_entry map capacity k j table h l fresh.0, law.equal_iff k j)

  pub move_entries-kept :
      (map : Map K V) (capacity : ℕ) (ks : List K) (table : List (List (K × V)))
      → 0 < capacity
      → length table ≡ capacity
      → Nodup law ks
      → Fresh table capacity ks
      → AllDistinct table
      → (length (move_entries keys map capacity ks table) ≡ capacity)
        × AllDistinct (move_entries keys map capacity ks table)
  unfolding move_entries
  move_entries-kept map capacity [] table h l new fresh all = (l, all)
  move_entries-kept map capacity (k ∷ ks) table h l new fresh all =
      move_entries-kept map capacity ks (move_entry keys map capacity k table) h
        (length-move_entry map capacity k table ∙ l) new.1
        (Fresh-move_entry map capacity k ks table h l fresh.0 new.0 fresh.1)
        (AllDistinct-move_entry map capacity k table fresh.0 all)
