-- ===== src/Col/Listener/Tests.antt =====
-- Witnesses of the theorems on lists and listeners, and a callback as users of dispatchers write it.
use sdk_dslink_c.Prelude.{
  ℕ, ◌≡◌, ◌+◌, ◌-◌, refl, sym, ap, ◌∙◌, true, false, none, some, [], ◌∷◌, ◌++◌, arith, ◌==◌,
  if◌then◌else◌, Bool-cases, inl, inr, leb,
}
use sdk_dslink_c.Prelude.Run.{ok, ◌>>=◌}
use sdk_dslink_c.Col.LinkedList.{Store, put, free}
use sdk_dslink_c.Col.LinkedList.Ring.{
  IsRing, IsOut-parts, IsOut-append, AreOwned-parts, IsDistinct-middle, put_ne,
}
use sdk_dslink_c.Col.LinkedList.Correct.{list_remove_node-IsRing, free-IsRing}
use sdk_dslink_c.Col.LinkedList.Trace.{insert, remove, run, list_run, without, run-IsRing}
use sdk_dslink_c.Col.Listener.{
  Callback, listener_remove, listener_dispatch_message, listener_dispatch_remove_all,
}
use sdk_dslink_c.Col.Listener.Dispatch.{KeepsOrLeaves, listener_dispatch_message-calls}
use sdk_dslink_c.Col.Listener.RemoveAll.{OnlyFrees, AreFree, listener_dispatch_remove_all-calls}

-- A callback that stays at an even address, and else removes and frees its listener, as query_destroy does.
abbrev odd_leaves : Callback
odd_leaves s x = if x == 2 then ok s else listener_remove s x >>= λ t. free t x

odd_leaves-KeepsOrLeaves : (l : ℕ) → KeepsOrLeaves odd_leaves (λ x. x == 2) l
unfolding listener_remove
odd_leaves-KeepsOrLeaves l s us x vs r = elim (Bool-cases (x == 2)) [
  | inl even ↦ rw (◌==◌, even) (s, refl, r)
  | inr odd ↦
      let (t, e, ring, _, live) = list_remove_node-IsRing s l us x vs r in
      let (ou, ((hx, lx), ov)) = AreOwned-parts s l us (x ∷ vs) r.owned in
      let (lu, (nlx, lv)) = IsOut-parts l us (x ∷ vs) r.outside in
      let (d, (xu, xv)) = IsDistinct-middle us x vs r.distinct in
      let still : t.live x ≡ true = ap (λ k. k x) live ∙ hx in
      rw (◌==◌, odd)
        (
          record t { live = put t.live x false },
          rw (e) (rw (still) refl),
          free-IsRing t l x (us ++ vs) ring ((λ i. nlx (sym i)), IsOut-append x us vs xu xv),
        )
]

-- A dispatcher at 0 with the listeners 1, 2 and 3.
abbrev test_store : Store
test_store = record {
  live = λ a. leb a 4;
  next = λ a. if a == 3 then 0 else a + 1;
  prev = λ a. if a == 0 then 3 else a - 1;
  list = λ a. if leb a 3 then some 0 else none;
  size = λ a. 3;
}

test_store-IsRing : IsRing test_store 0 (1 ∷ 2 ∷ 3 ∷ [])
test_store-IsRing = record {
  head_live = refl;
  head_list = refl;
  outside = ((λ e. omega arith), ((λ e. omega arith), ((λ e. omega arith), tt)));
  distinct = (((λ e. omega arith), ((λ e. omega arith), tt)), (((λ e. omega arith), tt), (tt, tt)));
  owned = ((refl, refl), ((refl, refl), ((refl, refl), tt)));
  linked = ((refl, refl), ((refl, refl), ((refl, refl), (refl, refl))));
  counted = refl;
  short = omega arith;
}

listener_dispatch_message-calls_example :
    (t : Store) × (listener_dispatch_message odd_leaves 4 test_store 0 ≡ ok (t, 1 ∷ 2 ∷ 3 ∷ []))
    × IsRing t 0 (2 ∷ [])
listener_dispatch_message-calls_example =
    listener_dispatch_message-calls odd_leaves (λ x. x == 2) 0 4 test_store (1 ∷ 2 ∷ 3 ∷ [])
      (odd_leaves-KeepsOrLeaves 0) test_store-IsRing (omega arith)

abbrev free_it : Callback
free_it s x = free s x

free_it-OnlyFrees : OnlyFrees free_it
free_it-OnlyFrees s x hx none_list = record {
  after = record s { live = put s.live x false };
  returns = rw (hx) refl;
  next_same = refl;
  prev_same = refl;
  list_same = refl;
  size_same = refl;
  live_same = λ y ne. put_ne s.live x y false ne;
}

listener_dispatch_remove_all-calls_example :
    (t : Store) × (listener_dispatch_remove_all free_it 4 test_store 0 ≡ ok (t, 1 ∷ 2 ∷ 3 ∷ []))
    × ((t.next 0 ≡ 0) × (t.prev 0 ≡ 0))
    × AreFree t (1 ∷ 2 ∷ 3 ∷ [])
    × (t.size 0 ≡ 3)
listener_dispatch_remove_all-calls_example =
    listener_dispatch_remove_all-calls free_it 0 4 test_store (1 ∷ 2 ∷ 3 ∷ []) free_it-OnlyFrees
      test_store-IsRing (omega arith)

run-IsRing_example :
    (t : Store) × (run 0 (remove 2 ∷ insert 4 ∷ remove 1 ∷ insert 2 ∷ []) test_store ≡ ok t)
    × IsRing t 0 (3 ∷ 4 ∷ 2 ∷ [])
unfolding list_run without
run-IsRing_example =
    run-IsRing test_store 0 (remove 2 ∷ insert 4 ∷ remove 1 ∷ insert 2 ∷ []) (1 ∷ 2 ∷ 3 ∷ [])
      test_store-IsRing
      (
        refl,
        (
          (
            refl,
            (((λ e. omega arith), ((λ e. omega arith), ((λ e. omega arith), tt))), omega arith),
          ),
          (
            refl,
            (
              (
                refl,
                (((λ e. omega arith), ((λ e. omega arith), ((λ e. omega arith), tt))), omega arith),
              ),
              tt,
            ),
          ),
        ),
      )
