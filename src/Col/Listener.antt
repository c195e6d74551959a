-- ===== src/Col/Listener.antt =====
-- sdk/src/col/listener.c and sdk/include/dslink/col/listener.h: dispatchers, which are lists of listeners.
--
-- A callback is a parameter: what it does to the store, given the listener it is called on. The result of a dispatch has
-- the listeners that were called, in order.
pub mod Dispatch
pub mod RemoveAll
mod Tests
use sdk_dslink_c.Prelude.{ℕ, zero, suc, Option, none, some, List, [], ◌∷◌, ◌==◌, if◌then◌else◌}
use sdk_dslink_c.Prelude.Run.{Run, ok, fault, out_of_fuel, ◌>>=◌}
use sdk_dslink_c.Col.LinkedList.{
  Store, read, set_next, set_prev, set_list, list_insert_node, list_remove_node,
  list_remove_all_nodes,
}

abbrev pub Callback : Type 0
Callback = Store → ℕ → Run Store

-- `malloc` is what dslink_malloc returns, and the store with that block allocated; NULL is not tested.
unfoldable pub listener_add : Option (ℕ × Store) → ℕ → Run (Store × ℕ)
unfolding list_insert_node
listener_add none dispatcher = fault
listener_add (some (listener, s)) dispatcher = do
  s ← list_insert_node s dispatcher listener
  ok (s, listener)

unfoldable pub listener_remove : Store → ℕ → Run Store
unfolding list_remove_node
listener_remove s listener = list_remove_node s listener

module _ (callback : Callback) where
  -- The loop of listener_dispatch_message, on fuel.
  unfoldable pub dispatch_from : ℕ → Store → ℕ → ℕ → Run (Store × List ℕ)
  dispatch_from zero s dispatcher node = out_of_fuel
  dispatch_from (suc fuel) s dispatcher node =
      if node == dispatcher
      then ok (s, [])
      else read s s.next node >>= λ next. callback s node >>= λ t.
          dispatch_from fuel t dispatcher next >>= λ r. ok (r.0, node ∷ r.1)

  unfoldable pub listener_dispatch_message : ℕ → Store → ℕ → Run (Store × List ℕ)
  unfolding dispatch_from
  listener_dispatch_message fuel s dispatcher =
      read s s.next dispatcher >>= λ first. dispatch_from fuel s dispatcher first

  -- The loop of listener_dispatch_remove_all, on fuel.
  unfoldable pub remove_from : ℕ → Store → ℕ → ℕ → Run (Store × List ℕ)
  remove_from zero s dispatcher node = out_of_fuel
  remove_from (suc fuel) s dispatcher node =
      if node == dispatcher
      then ok (s, [])
      else read s s.next node >>= λ next. set_list s node none >>= λ u.
          callback u node >>= λ t. remove_from fuel t dispatcher next >>= λ r. ok (r.0, node ∷ r.1)

  unfoldable pub listener_dispatch_remove_all : ℕ → Store → ℕ → Run (Store × List ℕ)
  unfolding remove_from
  listener_dispatch_remove_all fuel s dispatcher = read s s.next dispatcher >>= λ first.
      remove_from fuel s dispatcher first >>= λ r. set_next r.0 dispatcher dispatcher >>= λ t.
      set_prev t dispatcher dispatcher >>= λ u. ok (u, r.1)

unfoldable pub listener_remove_all : ℕ → Store → ℕ → Run Store
unfolding list_remove_all_nodes
listener_remove_all fuel s dispatcher = list_remove_all_nodes fuel s dispatcher
