-- ===== src/Col/Map.antt =====
-- sdk/src/col/map.c, with the structs of sdk/include/dslink/col/map.h: a hash map with chains, and a list of its entries.
--
-- A chain of MapNodes is the list of its entries, in order. An entry stands in its chain and in the list of the map; the
-- list is that of the keys, in order, and the value of an entry is read in its chain. The comparison `cmp` and the hash
-- function are parameters, as in the source; so is `is_loaded`, the float comparison of size / capacity with
-- max_load_factor. What malloc gives is a parameter of each call. The value that a call
-- releases is an output, and in dslink_map_set its key too.
pub mod Chain
pub mod Place
pub mod Inv
pub mod Refine
pub mod Trace
pub mod Empty
pub mod Failure
pub mod Entries
pub mod Hash
mod Tests
use sdk_dslink_c.Prelude.{
  ℕ, zero, suc, ◌+◌, ◌-◌, ◌*◌, ◌%◌, Bool, true, false, ◌&&◌, List, [], ◌∷◌, ◌++◌, Option, none,
  some, ◌==◌, if◌then◌else◌, ℤ, pos, negsuc, set, get_or,
}
use sdk_dslink_c.Prelude.Run.{Run, ok, fault}

-- What the map is made for: a comparison that is 0 on equal keys, a hash, and the test of the load.
pub record Keys (K : Type 0) : Type 0 where
  pub equal : K → K → Bool
  pub hash_key : K → ℕ
  pub is_loaded : ℕ → ℕ → Bool

-- Does malloc give the memory for a new table, a node and an entry?
pub record Memory : Type 0 where
  pub new_table : Bool
  pub new_node : Bool
  pub new_entry : Bool

-- `DSLINK_ALLOC_ERR`
abbrev pub alloc_err : ℤ
alloc_err = negsuc 4095

abbrev pub replicate {ℓ} : {A : Type ℓ} → ℕ → A → List A
replicate zero a = []
replicate (suc n) a = a ∷ replicate n a

module _ {K V : Type 0} (keys : Keys K) where
  -- The walk along a chain: the value of the first node whose key compares equal.
  abbrev pub find : K → List (K × V) → Option V
  find k [] = none
  find k ((j, w) ∷ chain) = if keys.equal j k then some w else find k chain

  -- Its key.
  abbrev pub find_key : K → List (K × V) → Option K
  find_key k [] = none
  find_key k ((j, w) ∷ chain) = if keys.equal j k then some j else find_key k chain

  -- The same walk, which gives that node the key and the value, or hangs a new one behind the last.
  abbrev pub put : K → V → List (K × V) → List (K × V)
  put k v [] = (k, v) ∷ []
  put k v ((j, w) ∷ chain) = if keys.equal j k then (k, v) ∷ chain else (j, w) ∷ put k v chain

  -- The same walk, which unlinks that node.
  abbrev pub unlink : K → List (K × V) → List (K × V)
  unlink k [] = []
  unlink k ((j, w) ∷ chain) = if keys.equal j k then chain else (j, w) ∷ unlink k chain

module _ {K : Type 0} (keys : Keys K) where
  -- `entry->key = key` for the entry of an equal key.
  abbrev pub renew_key : K → List K → List K
  renew_key k [] = []
  renew_key k (j ∷ js) = if keys.equal j k then k ∷ js else j ∷ renew_key k js

  -- `list_free_node` of the entry of a key.
  abbrev pub drop_key : K → List K → List K
  drop_key k [] = []
  drop_key k (j ∷ js) = if keys.equal j k then js else j ∷ drop_key k js

pub record Map (K V : Type 0) : Type 0 where
  pub size : ℕ
  pub capacity : ℕ
  pub table : List (List (K × V))
  -- the keys of `list`, in order
  pub order : List K
  pub locked : Bool

-- What a call leaves of a map: a map, or one where the last node of the chain with an index is freed but still linked.
pub data Left (K V : Type 0) : Type 0 where
  intact : Map K V → Left K V
  dangling : Map K V → ℕ → Left K V

-- `buckets` cells of calloc, or NULL. `capacity` is a size_t, and calloc gives no table at which it would wrap.
unfoldable pub map_initbf : {K V : Type 0} → Bool → ℕ → Option (Map K V) → ℤ × Option (Map K V)
map_initbf given buckets none = (pos 1, none)
map_initbf given buckets (some map) =
    if given
    then (
      pos 0,
      some (record {
        size = 0;
        capacity = buckets;
        table = replicate buckets [];
        order = [];
        locked = false;
      }),
    )
    else (
      alloc_err,
      some (record { size = 0; capacity = 0; table = []; order = []; locked = false }),
    )

module _ {K V : Type 0} (keys : Keys K) where
  unfoldable pub index_of_key : Map K V → K → ℕ
  index_of_key map key = keys.hash_key key % map.capacity

  -- The chain that a key belongs to.
  abbrev pub chain : Map K V → K → List (K × V)
  chain map key = get_or map.table (index_of_key map key) []

  unfoldable pub map_get : Map K V → K → Option V
  unfolding index_of_key
  map_get map key = find keys key (chain map key)

  unfoldable pub map_contains : Map K V → K → Bool
  unfolding index_of_key
  map_contains map key = elim (find keys key (chain map key)) [ none ↦ false | some v ↦ true ]

  -- An entry is hung behind the last node of its chain in the new table.
  abbrev pub move_entry : Map K V → ℕ → K → List (List (K × V)) → List (List (K × V))
  move_entry map capacity key table = elim (map_get map key) [
    | none ↦ table
    | some v ↦
        let index = keys.hash_key key % capacity in
        set table index (get_or table index [] ++ ((key, v) ∷ []))
  ]

  -- The loop over the list of entries.
  unfoldable pub move_entries : Map K V → ℕ → List K → List (List (K × V)) → List (List (K × V))
  move_entries map capacity [] table = table
  move_entries map capacity (key ∷ rest) table =
      move_entries map capacity rest (move_entry map capacity key table)

  unfoldable pub map_rehash_table : Map K V → Map K V
  unfolding move_entries
  map_rehash_table map =
      let capacity = map.capacity * 2 in
      record map {
        capacity = capacity;
        table = move_entries map capacity map.order (replicate capacity []);
      }

  -- The chain of the key, with the entry of the key.
  abbrev pub put_entry : Map K V → K → V → List (List (K × V))
  put_entry map key value =
      set map.table (index_of_key map key) (put keys key value (chain map key))

  abbrev pub added : Map K V → K → V → Map K V
  added map key value = record map {
    size = map.size + 1;
    table = put_entry map key value;
    order = map.order ++ (key ∷ []);
  }

  -- `dslink_map_get_raw_node` and the write of the value: the code, the key and the value that are released, and what is
  -- left. Where the chain has nodes and there is memory for a node but none for its entry, the code frees the last node
  -- of the chain in place of the new one.
  unfoldable pub set_entry : Memory → Map K V → K → V → ℤ × Option K × Option V × Left K V
  unfolding index_of_key
  set_entry memory map key value = elim (find keys key (chain map key)) [
    | some old ↦ (
      pos 0,
      find_key keys key (chain map key),
      some old,
      intact (record map { table = put_entry map key value; order = renew_key keys key map.order }),
    )
    | none ↦
        if memory.new_node && memory.new_entry
        then (pos 0, none, none, intact (added map key value))
        else elim (chain map key) [
          | [] ↦ (alloc_err, none, none, intact map)
          | _ ∷ _ ↦ (
            alloc_err,
            none,
            none,
            if memory.new_node then dangling map (index_of_key map key) else intact map,
          )
        ]
  ]

  -- The code, the key and the value that are released, and what is left.
  unfoldable pub map_set :
      Memory → Map K V → Option K → Option V → ℤ × Option K × Option V × Left K V
  unfolding set_entry map_rehash_table
  map_set memory map none value = (pos 1, none, none, intact map)
  map_set memory map (some key) none = (pos 1, none, none, intact map)
  map_set memory map (some key) (some value) =
      if keys.is_loaded map.size map.capacity
      then (if memory.new_table
          then set_entry memory (map_rehash_table map) key value
          else (alloc_err, none, none, intact map))
      else set_entry memory map key value

  -- The value of the key, which is no longer in the map, and the map.
  unfoldable pub map_remove_get : Option (Map K V) → K → Option V × Option (Map K V)
  unfolding index_of_key
  map_remove_get none key = (none, none)
  map_remove_get (some map) key =
      if map.locked then (none, some map) else elim (find keys key (chain map key)) [
        | none ↦ (none, some map)
        | some v ↦ (
          some v,
          some (record map {
            size = map.size - 1;
            table = set map.table (index_of_key map key) (unlink keys key (chain map key));
            order = drop_key keys key map.order;
          }),
        )
      ]

  -- The value that is released, and the map.
  unfoldable pub map_remove : Option (Map K V) → K → Option V × Option (Map K V)
  unfolding map_remove_get
  map_remove none key = (none, none)
  map_remove (some map) key = if map.locked then (none, some map) else map_remove_get (some map) key

  -- The entries of the list, in order.
  abbrev pub entries_of : (K → Option V) → List K → List (K × V)
  entries_of get [] = []
  entries_of get (k ∷ ks) = elim (get k) [
    | none ↦ entries_of get ks
    | some v ↦ (k, v) ∷ entries_of get ks
  ]

  -- What `dslink_map_foreach` walks over.
  unfoldable pub map_foreach : Map K V → List (K × V)
  map_foreach map = entries_of (map_get map) map.order

  -- The entries that are released, and the map.
  unfoldable pub map_clear : Map K V → List (K × V) × Map K V
  unfolding map_foreach
  map_clear map =
      if map.size == 0
      then ([], map)
      else (map_foreach map, record map { size = 0; table = replicate map.capacity []; order = [] })
