-- ===== src/Col/LinkedList.antt =====
-- sdk/src/col/list.c and sdk/include/dslink/col/list.h: circular lists of nodes that other structs begin with.
--
-- The memory is one store for all lists. An address stands for a node; the address of a list is that of its `head`, which
-- it begins with. A field of memory that is not allocated is not read or written: that is a fault.
-- The pointers given to the operations are not NULL.
pub mod Ring
pub mod Update
pub mod Correct
pub mod Trace
use sdk_dslink_c.Prelude.{
  ℕ, zero, suc, ◌+◌, ◌-◌, ◌^◌, ◌%◌, Bool, true, false, not, ◌&&◌, Option, none, some, ◌==◌,
  if◌then◌else◌,
}
use sdk_dslink_c.Prelude.Run.{Run, ok, fault, out_of_fuel, ◌>>=◌}

-- `ListNodeBase` and `List`, field by field: what each holds at an address, NULL being `none`, and which nodes are
-- allocated. `size` is at the address of a list.
pub record Store : Type 0 where
  pub live : ℕ → Bool
  pub next : ℕ → ℕ
  pub prev : ℕ → ℕ
  pub list : ℕ → Option ℕ
  pub size : ℕ → ℕ

abbrev pub put {ℓ} : {A : Type ℓ} → (ℕ → A) → ℕ → A → ℕ → A
put f a v x = if x == a then v else f x

-- Reads and writes of a field.
abbrev pub read {ℓ} : {A : Type ℓ} → Store → (ℕ → A) → ℕ → Run A
read s field a = if s.live a then ok (field a) else fault

abbrev pub set_next : Store → ℕ → ℕ → Run Store
set_next s a v = if s.live a then ok (record s { next = put s.next a v }) else fault

abbrev pub set_prev : Store → ℕ → ℕ → Run Store
set_prev s a v = if s.live a then ok (record s { prev = put s.prev a v }) else fault

abbrev pub set_list : Store → ℕ → Option ℕ → Run Store
set_list s a v = if s.live a then ok (record s { list = put s.list a v }) else fault

abbrev pub set_size : Store → ℕ → ℕ → Run Store
set_size s a v = if s.live a then ok (record s { size = put s.size a v }) else fault

unfoldable pub list_init : Store → ℕ → Run Store
list_init s l = do s ← set_size s l 0; s ← set_list s l (some l); s ← set_next s l l; set_prev s l l

unfoldable pub list_insert_node_before : Store → ℕ → ℕ → Run Store
list_insert_node_before s node base = do
  list ← read s s.list base
  elim list [
    | none ↦ ok s
    | some l ↦ do
      s ← set_list s node (some l)
      before ← read s s.prev base
      s ← set_next s before node
      before ← read s s.prev base
      s ← set_prev s node before
      s ← set_prev s base node
      s ← set_next s node base
      n ← read s s.size l
      set_size s l ((n + 1) % 2 ^ 64)
  ]

unfoldable pub list_insert_node_after : Store → ℕ → ℕ → Run Store
list_insert_node_after s node base = do
  list ← read s s.list base
  elim list [
    | none ↦ ok s
    | some l ↦ do
      s ← set_list s node (some l)
      behind ← read s s.next base
      s ← set_prev s behind node
      behind ← read s s.next base
      s ← set_next s node behind
      s ← set_next s base node
      s ← set_prev s node base
      n ← read s s.size l
      set_size s l ((n + 1) % 2 ^ 64)
  ]

unfoldable pub list_insert_node : Store → ℕ → ℕ → Run Store
unfolding list_insert_node_before
list_insert_node s l node = list_insert_node_before s node l

-- `malloc` is the new node and the store with it, `none` for NULL. The field `value` is left out.
unfoldable pub list_insert : Store → Option (ℕ × Store) → ℕ → Run (Store × Option ℕ)
unfolding list_insert_node
list_insert s none l = ok (s, none)
list_insert s (some (node, t)) l = list_insert_node t l node >>= λ u. ok (u, some node)

-- The lines that list_remove_node and list_free_node share.
abbrev pub take_out : Store → ℕ → ℕ → Run Store
take_out s l node = do
  n ← read s s.size l
  s ← set_size s l ((n + 2 ^ 64 - 1) % 2 ^ 64)
  before ← read s s.prev node
  behind ← read s s.next node
  s ← set_next s before behind
  behind ← read s s.next node
  before ← read s s.prev node
  set_prev s behind before

unfoldable pub list_remove_node : Store → ℕ → Run Store
list_remove_node s node = do
  list ← read s s.list node
  elim list [ none ↦ ok s | some l ↦ do s ← take_out s l node; set_list s node none ]

abbrev pub free : Store → ℕ → Run Store
free s a = if s.live a then ok (record s { live = put s.live a false }) else fault

unfoldable pub list_free_node : Store → ℕ → Run Store
list_free_node s node = do
  list ← read s s.list node
  elim list [ none ↦ free s node | some l ↦ do s ← take_out s l node; free s node ]

-- The loop of dslink_list_foreach over the nodes from `node` to the head `l`, on fuel.
unfoldable pub clear_from : ℕ → Store → ℕ → ℕ → Run Store
clear_from zero s l node = out_of_fuel
clear_from (suc fuel) s l node =
    if node == l
    then ok s
    else do s ← set_list s node none; next ← read s s.next node; clear_from fuel s l next

unfoldable pub list_remove_all_nodes : ℕ → Store → ℕ → Run Store
unfolding clear_from
list_remove_all_nodes fuel s l = do
  first ← read s s.next l
  s ← clear_from fuel s l first
  s ← set_next s l l
  s ← set_prev s l l
  set_size s l 0

-- The loops of dslink_list_free and dslink_list_free_all_nodes.
unfoldable pub free_from : ℕ → Store → ℕ → ℕ → Run Store
free_from zero s l node = out_of_fuel
free_from (suc fuel) s l node =
    if node == l
    then ok s
    else do next ← read s s.next node; s ← free s node; free_from fuel s l next

unfoldable pub list_free_all_nodes : ℕ → Store → ℕ → Run Store
unfolding free_from list_init
list_free_all_nodes fuel s l = do
  first ← read s s.next l
  s ← free_from fuel s l first
  list_init s l

unfoldable pub list_free : ℕ → Store → ℕ → Run Store
unfolding free_from
list_free fuel s l = do first ← read s s.next l; s ← free_from fuel s l first; free s l
