-- ===== src/Col/Listener/RemoveAll.antt =====
-- listener_dispatch_remove_all of sdk/src/col/listener.c.
use sdk_dslink_c.Prelude.{
  ℕ, zero, suc, ◌<◌, ◌≡◌, ◌≢◌, refl, sym, ap, ◌∙◌, true, none, List, [], ◌∷◌, length, arith, ne→==,
  ==_refl,
}
use sdk_dslink_c.Prelude.Run.{ok}
use sdk_dslink_c.Col.LinkedList.{Store, put}
use sdk_dslink_c.Col.LinkedList.Ring.{
  IsRing, Segment, IsOut, IsDistinct, AreOwned, Segment-first, first_of, put_self, put_ne,
}
use sdk_dslink_c.Col.Listener.{Callback, remove_from, listener_dispatch_remove_all}

-- A callback that may free its listener, which is in no list any more, and does nothing else to the store.
pub record Frees (callback : Callback) (s : Store) (x : ℕ) : Type 0 where
  pub after : Store
  pub returns : callback s x ≡ ok after
  pub next_same : after.next ≡ s.next
  pub prev_same : after.prev ≡ s.prev
  pub list_same : after.list ≡ s.list
  pub size_same : after.size ≡ s.size
  pub live_same : (y : ℕ) → y ≢ x → after.live y ≡ s.live y

abbrev pub OnlyFrees : Callback → Type 0
OnlyFrees callback = (s : Store) (x : ℕ) → s.live x ≡ true → s.list x ≡ none → Frees callback s x

-- What the loops read: the nodes from one on are allocated, and each leads to the next.
abbrev Forward : Store → List ℕ → ℕ → Type 0
Forward s [] l = Unit
Forward s (x ∷ xs) l = ((s.live x ≡ true) × (s.next x ≡ first_of xs l)) × Forward s xs l

Forward-ring :
    (s : Store) (l a : ℕ) (xs : List ℕ) (b : ℕ)
    → AreOwned s l xs
    → Segment s a xs b
    → Forward s xs b
Forward-ring s l a [] b o h = tt
Forward-ring s l a (x ∷ xs) b ((hx, lx), o) (e, h) =
    ((hx, Segment-first s x xs b h), Forward-ring s l x xs b o h)

Forward-same :
    (s t : Store) (x : ℕ) (xs : List ℕ) (l : ℕ)
    → t.next ≡ s.next
    → ((y : ℕ) → y ≢ x → t.live y ≡ s.live y)
    → IsOut x xs
    → Forward s xs l
    → Forward t xs l
Forward-same s t x [] l n h out f = tt
Forward-same s t x (y ∷ ys) l n h (ne, out) ((live, next), f) =
    ((h y (λ e. ne (sym e)) ∙ live, ap (λ k. k y) n ∙ next), Forward-same s t x ys l n h out f)

abbrev pub AreFree : Store → List ℕ → Type 0
AreFree s [] = Unit
AreFree s (x ∷ xs) = (s.list x ≡ none) × AreFree s xs

-- What a loop that empties the list leaves.
record Emptied (s t : Store) (l : ℕ) (xs : List ℕ) : Type 0 where
  next_same : t.next ≡ s.next
  prev_same : t.prev ≡ s.prev
  size_same : t.size ≡ s.size
  live_same : (y : ℕ) → IsOut y xs → t.live y ≡ s.live y
  list_same : (y : ℕ) → IsOut y xs → t.list y ≡ s.list y
  free : AreFree t xs

remove_from-Emptied :
    (callback : Callback) (l fuel : ℕ) (s : Store) (xs : List ℕ)
    → OnlyFrees callback
    → Forward s xs l
    → IsDistinct xs
    → IsOut l xs
    → length xs < fuel
    → (t : Store) × (remove_from callback fuel s l (first_of xs l) ≡ ok (t, xs)) × Emptied s t l xs
unfolding remove_from
remove_from-Emptied callback l zero s xs c f d out short = absurd (omega arith)
remove_from-Emptied callback l (suc fuel) s [] c f d out short = (
  s,
  rw (==_refl l) refl,
  record {
    next_same = refl;
    prev_same = refl;
    size_same = refl;
    live_same = λ y h. refl;
    list_same = λ y h. refl;
    free = tt;
  },
)
remove_from-Emptied callback l (suc fuel) s (x ∷ xs) c ((hx, nx), f) (hxs, d) (nlx, out) short =
    let u : Store = record s { list = put s.list x none } in
    let done = c u x hx (put_self s.list x none) in
    let v = done.after in
    let (t, e, m) =
      remove_from-Emptied callback l fuel v xs c
        (Forward-same s v x xs l done.next_same done.live_same hxs f) d out
        (omega (arith, short)) in
    (
      t,
      rw (ne→== x l (λ i. nlx (sym i))) (rw (hx) (rw (done.returns) (rw (nx, e) refl))),
      record {
        next_same = m.next_same ∙ done.next_same;
        prev_same = m.prev_same ∙ done.prev_same;
        size_same = m.size_same ∙ done.size_same;
        live_same = λ y h. m.live_same y h.1 ∙ done.live_same y h.0;
        list_same =
            λ y h. m.list_same y h.1 ∙ ap (λ k. k y) done.list_same ∙ put_ne s.list x y none h.0;
        free = (m.list_same x hxs ∙ ap (λ k. k x) done.list_same ∙ put_self s.list x none, m.free);
      },
    )

-- Where callbacks do no more than free their own listener, and change nothing else of the store, listener_dispatch_remove_all ends, calls every listener once and in
-- order, and leaves none of them in the list, which is linked to itself. Yet the size of the list stays what it was.
pub listener_dispatch_remove_all-calls :
    (callback : Callback) (l fuel : ℕ) (s : Store) (xs : List ℕ)
    → OnlyFrees callback
    → IsRing s l xs
    → length xs < fuel
    → (t : Store) × (listener_dispatch_remove_all callback fuel s l ≡ ok (t, xs))
      × ((t.next l ≡ l) × (t.prev l ≡ l))
      × AreFree t xs
      × (t.size l ≡ length xs)
unfolding listener_dispatch_remove_all
listener_dispatch_remove_all-calls callback l fuel s xs c r short =
    let (v, e, m) =
      remove_from-Emptied callback l fuel s xs c (Forward-ring s l l xs l r.owned r.linked)
        r.distinct r.outside short in
    let live = m.live_same l r.outside ∙ r.head_live in
    let t : Store = record v { next = put v.next l l; prev = put v.prev l l } in
    (
      t,
      rw (r.head_live) (rw (Segment-first s l xs l r.linked) (rw (e) (rw (live) (rw (live) refl)))),
      (put_self v.next l l, put_self v.prev l l),
      m.free,
      ap (λ k. k l) m.size_same ∙ r.counted,
    )
