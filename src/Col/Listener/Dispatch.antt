-- ===== src/Col/Listener/Dispatch.antt =====
-- listener_dispatch_message of sdk/src/col/listener.c, with callbacks that may take their own listener out of the list.
use sdk_dslink_c.Prelude.{
  ℕ, zero, suc, ◌<◌, ◌≡◌, refl, sym, inl, inr, subst, Bool, List, [], ◌∷◌, ◌++◌, length, arith,
  ne→==, ==_refl, if◌then◌else◌, Bool-cases, append_assoc,
}
use sdk_dslink_c.Prelude.Run.{ok}
use sdk_dslink_c.Col.LinkedList.{Store}
use sdk_dslink_c.Col.LinkedList.Ring.{
  IsRing, AreOwned-parts, IsOut-parts, Segment-first, Segment-split, first_of,
}
use sdk_dslink_c.Col.Listener.{Callback, dispatch_from, listener_dispatch_message}

abbrev pub kept : (ℕ → Bool) → List ℕ → List ℕ
kept keeps [] = []
kept keeps (x ∷ xs) = if keeps x then x ∷ kept keeps xs else kept keeps xs

-- A callback that leaves the list as it is, or takes out the listener it is called on. It may free that listener too.
abbrev pub KeepsOrLeaves : Callback → (ℕ → Bool) → ℕ → Type 0
KeepsOrLeaves callback keeps l =
    (s : Store) (us : List ℕ) (x : ℕ) (vs : List ℕ)
    → IsRing s l (us ++ (x ∷ vs))
    → (t : Store) × (callback s x ≡ ok t) × IsRing t l (us ++ (if keeps x then x ∷ vs else vs))

dispatch_from-calls :
    (callback : Callback) (keeps : ℕ → Bool) (l fuel : ℕ) (s : Store) (us vs : List ℕ)
    → KeepsOrLeaves callback keeps l
    → IsRing s l (us ++ vs)
    → length vs < fuel
    → (t : Store) × (dispatch_from callback fuel s l (first_of vs l) ≡ ok (t, vs))
      × IsRing t l (us ++ kept keeps vs)
unfolding dispatch_from
dispatch_from-calls callback keeps l zero s us vs c r short = absurd (omega arith)
dispatch_from-calls callback keeps l (suc fuel) s us [] c r short = (s, rw (==_refl l) refl, r)
dispatch_from-calls callback keeps l (suc fuel) s us (x ∷ vs) c r short =
    let (ou, ((hx, lx), ov)) = AreOwned-parts s l us (x ∷ vs) r.owned in
    let (lu, (nlx, lv)) = IsOut-parts l us (x ∷ vs) r.outside in
    let (left, right) = Segment-split s l us x vs l r.linked in
    let behind = Segment-first s x vs l right in
    let (u, called, ring) = c s us x vs r in
    elim (Bool-cases (keeps x)) [
      | inl stays ↦
          let ring' =
            subst (λ ys. IsRing u l ys) (sym (append_assoc us (x ∷ []) vs)) (rw (stays) at ring) in
          let (t, e, done) =
            dispatch_from-calls callback keeps l fuel u (us ++ (x ∷ [])) vs c ring'
              (omega (arith, short)) in
          (
            t,
            rw (ne→== x l (λ i. nlx (sym i))) (rw (hx) (rw (called) (rw (behind, e) refl))),
            rw (stays)
                (subst (λ ys. IsRing t l ys) (append_assoc us (x ∷ []) (kept keeps vs)) done),
          )
      | inr leaves ↦
          let ring' = rw (leaves) at ring in
          let (t, e, done) =
            dispatch_from-calls callback keeps l fuel u us vs c ring' (omega (arith, short)) in
          (
            t,
            rw (ne→== x l (λ i. nlx (sym i))) (rw (hx) (rw (called) (rw (behind, e) refl))),
            rw (leaves) done,
          )
    ]

-- Where each callback leaves the list alone or takes its own listener out, listener_dispatch_message ends, calls every
-- listener once and in order, and leaves those that stay, in order. The fuel is more than their number.
pub listener_dispatch_message-calls :
    (callback : Callback) (keeps : ℕ → Bool) (l fuel : ℕ) (s : Store) (xs : List ℕ)
    → KeepsOrLeaves callback keeps l
    → IsRing s l xs
    → length xs < fuel
    → (t : Store) × (listener_dispatch_message callback fuel s l ≡ ok (t, xs))
      × IsRing t l (kept keeps xs)
unfolding listener_dispatch_message
listener_dispatch_message-calls callback keeps l fuel s xs c r short =
    let (t, e, ring) = dispatch_from-calls callback keeps l fuel s [] xs c r short in
    (t, rw (r.head_live) (rw (Segment-first s l xs l r.linked) e), ring)
