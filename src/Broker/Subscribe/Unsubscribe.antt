-- ===== src/Broker/Subscribe/Unsubscribe.antt =====
-- broker/src/msg/msg_unsubscribe.c: what a request to unsubscribe makes of the tables; and what
-- broker_free_sub_requester of broker/src/subscription.c leaves in the storage.
use sdk_dslink_c.Prelude.{
  ℕ, ◌%◌, ◌^◌, ◌<◌, ◌≡◌, ◌≢◌, refl, ap, ap₂, sym, subst, ◌∙◌, inl, inr, true, List, [], Option,
  none, some, ◌==◌, ltb, lt→ltb, if◌then◌else◌, ==_refl, ne→==,
}
use sdk_dslink_c.Prelude.Bytes.{Bytes, beq, beq→eq, beq_refl}
use sdk_dslink_c.Broker.Subscribe.{
  StreamKey, assign, Subscriber, SubStream, Hub, forget, free_messages, set_sub, set_node, call,
}
use sdk_dslink_c.Broker.Subscribe.Streams.{save_qos_queue, delete_qos_queue, cleared}
use sdk_dslink_c.Broker.Subscribe.Handle.{no_sid, clear_if, forget_queue, broker_free_sub_requester}
use sdk_dslink_c.Broker.Subscribe.Requests.{free_found, handle_unsubscribe}
use sdk_dslink_c.Broker.Subscribe.Registry.{
  Identity, Registry, identity, identity_of, removed, with_sids, view, view-set_node, IsSound,
  assign_same, assign₂,
}
use sdk_dslink_c.Broker.Subscribe.Views.{Ends, deref_then, identity-some, listed_in-some}
use sdk_dslink_c.Broker.Subscribe.Free.{
  free_sub_requester-removes, leave_stream-view, unlisted, freed, assign_twice,
}
use sdk_dslink_c.Broker.Subscribe.Tables.{none_some, assign-cases}
use sdk_dslink_c.Broker.Subscribe.Leave.{removed-IsSound}

-- Every subscriber was there.
abbrev pub HasOnlyOld : Registry → Registry → Type 0
HasOnlyOld r r' =
    (r'.root ≡ r.root) × ((k : ℕ) (i : Identity) → r'.subs k ≡ some i → r.subs k ≡ some i)

removed-HasOnlyOld : (r : Registry) (k : ℕ) (i : Identity) → HasOnlyOld r (removed r k i)
removed-HasOnlyOld r k i = (
  refl,
  λ j i' e. elim (assign-cases ◌==◌ r.subs k none j) [
    | inl (_, gone) ↦ none_some (sym gone ∙ e)
    | inr (_, kept) ↦ sym kept ∙ e
  ],
)

assign₂_twice :
    (t : Bytes → ℕ → Option ℕ) (n : Bytes) (s : ℕ)
    → assign₂ beq ◌==◌ (assign₂ beq ◌==◌ t n s none) n s none ≡ assign₂ beq ◌==◌ t n s none
assign₂_twice t n s =
    ap
      (λ c.
        assign beq (assign₂ beq ◌==◌ t n s none) n
          (assign ◌==◌ (if c then assign ◌==◌ (t n) s none else t n) s none))
      (beq_refl n)
    ∙ ap (assign beq (assign₂ beq ◌==◌ t n s none) n) (assign_twice ◌==◌ (t n) s none none)
    ∙ assign_twice beq t n (assign ◌==◌ (t n) s none) (assign ◌==◌ (t n) s none)

-- The entry of the id is gone before the subscriber is.
removed_again :
    (r : Registry) (k : ℕ) (i : Identity)
    → i.req_sid ≢ no_sid
    → removed (with_sids r (assign₂ beq ◌==◌ r.sids i.req_node i.req_sid none)) k i ≡ removed r k i
removed_again r k i here =
    rw (ne→== i.req_sid no_sid here)
      (ap (λ t. with_sids (removed r k i) t) (assign₂_twice r.sids i.req_node i.req_sid))

abbrev with_both : Registry → (Bytes → Bytes → Option ℕ) → (Bytes → ℕ → Option ℕ) → Registry
with_both r t u = record r { paths = t; sids = u }

module _ {J : Type 0} where
  abbrev without_sid : Hub J → Bytes → ℕ → Hub J
  without_sid h n sid =
      set_node h n
        (record (h.nodes n) { req_sub_sids = assign ◌==◌ (h.nodes n).req_sub_sids sid none })

  view-without_sid :
      (h : Hub J) (n : Bytes) (sid : ℕ)
      → view (without_sid h n sid) ≡ with_sids (view h) (assign₂ beq ◌==◌ (view h).sids n sid none)
  view-without_sid h n sid =
      view-set_node h n
        (record (h.nodes n) { req_sub_sids = assign ◌==◌ (h.nodes n).req_sub_sids sid none })
      ∙ ap (λ t. with_both (view h) t (assign₂ beq ◌==◌ (view h).sids n sid none))
          (assign_same beq (view h).paths n (h.nodes n).req_sub_paths
            (λ x q. ap (λ m. (h.nodes m).req_sub_paths) (beq→eq x n q)))

  abbrev Unsubscribed : Hub J → Bytes → ℕ → Hub J → Type 0
  Unsubscribed h n sid h' =
      IsSound (view h')
      × ((view h').sids n sid ≡ none)
      × ((j : ℕ) → (view h).sids n sid ≢ some j → h'.subs j ≡ h.subs j)

  free_found-Unsubscribed :
      (h : Hub J) (n : Bytes) (sid : ℕ) (o : Option ℕ)
      → IsSound (view h)
      → (view h).sids n sid ≡ o
      → Ends (free_found h n sid o) (λ h'. Unsubscribed h n sid h' × HasOnlyOld (view h) (view h'))
  free_found-Unsubscribed h n sid none sound e =
      (h, refl, ((sound, e, λ j other. refl), (refl, λ k i live. live)))
  free_found-Unsubscribed h n sid (some k) sound e =
      let (some_sid, (i, live, node, same)) = sound.by_sid n sid k e in
      let (sub, there, it) = identity-some (h.subs k) i live in
      let (h', run, (gone, others)) =
        free_sub_requester-removes (without_sid h n sid) k sub there (λ key here.
          let (xs, members, _) = sound.in_stream k (identity_of sub) key (ap identity there) here in
          let (st, e', _) = listed_in-some (h.streams key) xs members in (st, e')) in
      let here : i.req_sid ≢ no_sid = λ away. some_sid (sym same ∙ away) in
      let after : view h' ≡ removed (view h) k i =
        gone
        ∙ ap₂ (λ r i. removed r k i) (view-without_sid h n sid) it
        ∙ ap₂ (λ m s. removed (with_sids (view h) (assign₂ beq ◌==◌ (view h).sids m s none)) k i)
            (sym node) (sym same)
        ∙ removed_again (view h) k i here in
      (
        h',
        run,
        (
          (
            subst IsSound (sym after) (removed-IsSound (view h) k i sound live),
            ap (λ r. r.sids n sid) after
                ∙ ap₂ (removed (view h) k i).sids (sym node) (sym same)
                ∙ rw (ne→== i.req_sid no_sid here)
                    (rw (beq_refl i.req_node, ==_refl i.req_sid) refl),
            λ j other. others j (λ it. other (e ∙ ap some (sym it))),
          ),
          subst (HasOnlyOld (view h)) (sym after) (removed-HasOnlyOld (view h) k i),
        ),
      )

  pub handle_unsubscribe-HasOnlyOld :
      (h : Hub J) (n : Bytes) (value : ℕ)
      → IsSound (view h)
      → Ends
          (handle_unsubscribe n h value)
          (λ h'. IsSound (view h') × HasOnlyOld (view h) (view h'))
  unfolding handle_unsubscribe
  handle_unsubscribe-HasOnlyOld h n value sound =
      let (h', run, ((sound', _, _), from)) =
        free_found-Unsubscribed h n (value % 2 ^ 32) ((view h).sids n (value % 2 ^ 32)) sound
          refl in
      (h', run, (sound', from))

  forget_queue-saves :
      (h : Hub J) (k : ℕ) (sub : Subscriber J) (q : List J)
      → h.subs k ≡ some sub
      → ltb 2 sub.qos ≡ true
      → sub.qos_queue ≡ some q
      → Ends
          (forget_queue h k sub)
          (λ h'. h'.storage sub.req_node sub.path ≡ some (sub.qos, some []))
  forget_queue-saves h k sub q live high queue =
      let g = call (delete_qos_queue h sub) (forget sub.req_node sub.path) in
      let sub' = record sub { qos_queue = cleared sub.qos_queue } in
      (
        save_qos_queue (set_sub g k (some sub')) sub',
        ap (λ b. clear_if (if b then g else h) k sub.qos_queue) high
            ∙ ap (clear_if g k) queue
            ∙ deref_then _ live (rw high refl),
        rw (beq_refl sub.req_node, beq_refl sub.path) (ap (λ o. some (sub.qos, cleared o)) queue),
      )

  -- A subscriber with a quality of service above 2 and a queue, whose stream, if it has one, is there: after
  -- broker_free_sub_requester the storage has an entry for it again, with an empty queue.
  pub free_sub_requester-saves :
      (h : Hub J) (k : ℕ) (sub : Subscriber J) (q : List J)
      → h.subs k ≡ some sub
      → ((key : StreamKey) → sub.stream ≡ some key → (st : SubStream J) × (h.streams key ≡ some st))
      → 2 < sub.qos
      → sub.qos_queue ≡ some q
      → Ends
          (broker_free_sub_requester h k)
          (λ h'. (h'.subs k ≡ none) × (h'.storage sub.req_node sub.path ≡ some (sub.qos, some [])))
  free_sub_requester-saves h k sub q live there high queue =
      let (h1, run, (_, subs)) =
        leave_stream-view (unlisted h k sub) sub.req_node sub.stream there in
      let (h2, run', saved) =
        forget_queue-saves h1 k sub q (ap (λ t. t k) subs ∙ live) (lt→ltb 2 sub.qos high) queue in
      (
        call (set_sub h2 k none) (free_messages k),
        freed h k sub h1 h2 live run run',
        (rw (==_refl k) refl, saved),
      )
