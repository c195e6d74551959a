-- ===== src/Col/Map/Trace.antt =====
-- Sequences of calls on a map, and on the association list that it stands for.
use sdk_dslink_c.Prelude.{◌≡◌, refl, ◌∙◌, Bool, false, List, [], ◌∷◌, Option, none, some, ℤ, pos}
use sdk_dslink_c.Prelude.Run.{Run, ok, fault, ◌>>=◌}
use sdk_dslink_c.Col.Map.{
  Keys, Map, Left, intact, dangling, find, put, unlink, map_get, map_contains, map_set,
  map_remove_get, map_foreach,
}
use sdk_dslink_c.Col.Map.Chain.{IsComparison}
use sdk_dslink_c.Col.Map.Inv.{IsValid, is_some}
use sdk_dslink_c.Col.Map.Refine.{
  enough, map_get-find, map_contains-find, map_set-refines, map_remove_get-refines,
}

pub data Op (K V : Type 0) : Type 0 where
  set_op : K → V → Op K V
  get_op : K → Op K V
  contains_op : K → Op K V
  remove_op : K → Op K V
  each_op : Op K V

pub data Reply (K V : Type 0) : Type 0 where
  -- a code, and the value that is released
  stored : ℤ → Option V → Reply K V
  value : Option V → Reply K V
  present : Bool → Reply K V
  entries : List (K × V) → Reply K V

-- What remove leaves behind the pointer that it was given.
abbrev behind : {K V : Type 0} → Reply K V → Option (Map K V) → Run (Reply K V × Map K V)
behind reply none = fault
behind reply (some map) = ok (reply, map)

-- A map with a freed node is not used any further.
abbrev whole : {K V : Type 0} → Reply K V → Left K V → Run (Reply K V × Map K V)
whole reply (intact map) = ok (reply, map)
whole reply (dangling map index) = fault

module _ {K V : Type 0} (keys : Keys K) where
  unfoldable pub call : Map K V → Op K V → Run (Reply K V × Map K V)
  call map (set_op k v) =
      let (code, _, old, left) = map_set keys enough map (some k) (some v) in
      whole (stored code old) left
  call map (get_op k) = ok (value (map_get keys map k), map)
  call map (contains_op k) = ok (present (map_contains keys map k), map)
  call map (remove_op k) = let (v, map') = map_remove_get keys (some map) k in behind (value v) map'
  call map each_op = ok (entries (map_foreach keys map), map)

  unfoldable pub run : Map K V → List (Op K V) → Run (List (Reply K V))
  run map [] = ok []
  run map (op ∷ ops) = do (reply, map') ← call map op; replies ← run map' ops; ok (reply ∷ replies)

  -- The same calls on an association list.
  unfoldable pub list_call : List (K × V) → Op K V → Reply K V × List (K × V)
  list_call l (set_op k v) = (stored (pos 0) (find keys k l), put keys k v l)
  list_call l (get_op k) = (value (find keys k l), l)
  list_call l (contains_op k) = (present (is_some (find keys k l)), l)
  list_call l (remove_op k) = (value (find keys k l), unlink keys k l)
  list_call l each_op = (entries l, l)

  unfoldable pub list_run : List (K × V) → List (Op K V) → List (Reply K V)
  list_run l [] = []
  list_run l (op ∷ ops) = let (reply, l') = list_call l op in reply ∷ list_run l' ops

module _ {K V : Type 0} {keys : Keys K} (law : IsComparison keys) where
  call-refines :
      (map : Map K V) (op : Op K V)
      → IsValid law map
      → map.locked ≡ false
      → (map' : Map K V) × (call keys map op
          ≡ ok ((list_call keys (map_foreach keys map) op).0, map'))
        × IsValid law map'
        × (map'.locked ≡ false)
        × (map_foreach keys map' ≡ (list_call keys (map_foreach keys map) op).1)
  unfolding call list_call
  call-refines map (set_op k v) h l =
      let (map', _, step, (valid, now, lock)) = map_set-refines law map k v h in
      (map', rw step refl, valid, lock ∙ l, now)
  call-refines map (get_op k) h l = (map, rw (map_get-find law map k h) refl, h, l, refl)
  call-refines map (contains_op k) h l = (map, rw (map_contains-find law map k h) refl, h, l, refl)
  call-refines map (remove_op k) h l =
      let (map', step, (valid, now, lock)) = map_remove_get-refines law map k h l in
      (map', rw step refl, valid, lock ∙ l, now)
  call-refines map each_op h l = (map, refl, h, l, refl)

  -- On a valid map that is not locked, with enough memory, no sequence of set, get, contains, remove and foreach calls
  -- tells the map, which rehashes on its way, from an association list in the order of insertion: codes, released
  -- values, values found and entries walked over agree.
  pub run-list_run :
      (map : Map K V) (ops : List (Op K V))
      → IsValid law map
      → map.locked ≡ false
      → run keys map ops ≡ ok (list_run keys (map_foreach keys map) ops)
  unfolding run list_run
  run-list_run map [] h l = refl
  run-list_run map (op ∷ ops) h l =
      let (map', step, valid, lock, now) = call-refines map op h l in
      rw (step, run-list_run map' ops valid lock, now) refl
