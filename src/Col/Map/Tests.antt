-- ===== src/Col/Map/Tests.antt =====
-- Runs of map.c, and its theorems at concrete maps.
use sdk_dslink_c.Prelude.{ℕ, ◌≡◌, refl, true, false, List, [], ◌∷◌, Option, none, some, arith, pos}
use sdk_dslink_c.Prelude.Run.{ok}
use sdk_dslink_c.Prelude.Bytes.{Bytes, codes}
use sdk_dslink_c.Col.Map.{
  Map, Memory, dangling, added, alloc_err, index_of_key, map_get, map_set, map_foreach,
}
use sdk_dslink_c.Col.Map.Hash.{str_keys, str_keys-IsComparison, map_hash_key, map_str_cmp}
use sdk_dslink_c.Col.Map.Inv.{IsValid, added-IsValid}
use sdk_dslink_c.Col.Map.Empty.{emptied, emptied-IsValid}
use sdk_dslink_c.Col.Map.Refine.{Holds}
use sdk_dslink_c.Col.Map.Failure.{map_set-keeps, IsLeft}
use sdk_dslink_c.Col.Map.Trace.{
  Op, run, list_run, run-list_run, set_op, get_op, remove_op, each_op, stored, value, entries,
  list_call,
}

-- Jenkins' one-at-a-time hash of "a".
hash_of_a : map_hash_key (codes "a") ≡ 0xca2e9442
unfolding map_hash_key
hash_of_a = refl

abbrev empty_map : Map Bytes ℕ
empty_map = emptied str_keys-IsComparison 2 false

abbrev script : List (Op Bytes ℕ)
script =
    set_op (codes "a") 1
    ∷ set_op (codes "b") 2
    ∷ set_op (codes "a") 3
    ∷ set_op (codes "c") 4
    ∷ remove_op (codes "b")
    ∷ get_op (codes "a")
    ∷ each_op
    ∷ []

abbrev empty_map-IsValid : IsValid str_keys-IsComparison empty_map
empty_map-IsValid = emptied-IsValid str_keys-IsComparison 2 false (omega arith)

-- The third set finds the table at its load and rehashes it.
script_replies :
    list_run str_keys [] script
    ≡ stored (pos 0) none
      ∷ stored (pos 0) none
      ∷ stored (pos 0) (some 1)
      ∷ stored (pos 0) none
      ∷ value (some 2)
      ∷ value (some 3)
      ∷ entries ((codes "a", 3) ∷ (codes "c", 4) ∷ [])
      ∷ []
unfolding list_run list_call map_str_cmp
script_replies = refl

run-list_run_example :
    run str_keys empty_map script ≡ ok (list_run str_keys (map_foreach str_keys empty_map) script)
run-list_run_example = run-list_run str_keys-IsComparison empty_map script empty_map-IsValid refl

abbrev one_entry : Map ℕ ℕ
one_entry = record {
  size = 1;
  capacity = 1;
  table = ((5, 50) ∷ []) ∷ [];
  order = 5 ∷ [];
  locked = false;
}

-- No memory for an entry: the second key of a chain is refused, and its node is freed in place of the new one.
abbrev scarce : Memory
scarce = record { new_table = true; new_node = true; new_entry = false }

abbrev one_key : Map Bytes ℕ
one_key = added str_keys empty_map (codes "a") 1

one_key-IsValid : IsValid str_keys-IsComparison one_key
unfolding map_get map_hash_key
one_key-IsValid = added-IsValid str_keys-IsComparison empty_map (codes "a") 1 empty_map-IsValid refl

abbrev other_key : Bytes
other_key = codes "e"

refused :
    map_set str_keys scarce one_key (some other_key) (some 2)
    ≡ (alloc_err, none, none, dangling one_key (index_of_key str_keys one_key other_key))
unfolding map_set map_hash_key map_get index_of_key map_str_cmp
refused = refl

map_set-keeps_example :
    (map' : Map Bytes ℕ) × Holds str_keys-IsComparison one_key map' (map_foreach str_keys one_key)
    × IsLeft str_keys-IsComparison scarce map' other_key
        (dangling one_key (index_of_key str_keys one_key other_key))
    × (◌≡◌ {A = Option Bytes} none none)
    × (◌≡◌ {A = Option ℕ} none none)
map_set-keeps_example =
    map_set-keeps str_keys-IsComparison scarce one_key other_key 2 none none
      (dangling one_key (index_of_key str_keys one_key other_key)) one_key-IsValid refused
