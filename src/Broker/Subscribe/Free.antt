-- ===== src/Broker/Subscribe/Free.antt =====
-- broker/src/subscription.c: what broker_free_sub_requester makes of the tables and the streams; and
-- broker/src/stream.c: the end of a stream without subscribers.
use sdk_dslink_c.Prelude.{
  ℕ, ◌≡◌, refl, ne→==, ap, sym, ◌∙◌, fun_ext, Bool, true, List, [], ◌∷◌, Option, none, some, ◌==◌,
  ltb, if◌then◌else◌, Bool-cases, Option-cases, inl, inr,
}
use sdk_dslink_c.Prelude.Bytes.{Bytes, beq, beq→eq, beq_refl}
use sdk_dslink_c.Prelude.Run.{ok, ◌>>=◌}
use sdk_dslink_c.Broker.Node.{broker_node_incr_rid}
use sdk_dslink_c.Broker.Subscribe.{
  StreamKey, local_stream, remote_stream, same_key, assign, remove_req, Subscriber, SubStream,
  unsubscribe_request, deref, forget, free_messages, Hub, set_sub, set_stream, set_node, call,
}
use sdk_dslink_c.Broker.Subscribe.Streams.{
  broker_stream_free, detach_subs, end_stream, broker_msg_send_unsubscribe, delete_qos_queue,
  drop_pending,
}
use sdk_dslink_c.Broker.Subscribe.Handle.{
  no_sid, unregister, leave_stream, end_if_left, forget_queue, clear_if, broker_free_sub_requester,
}
use sdk_dslink_c.Broker.Subscribe.Registry.{
  identity_of, view, listed_in, or_nil, Registry, removed, left, but, with_stream, with_sids,
  unless_nil, assign_same, view-set_sub, view-set_stream, view-set_node,
}
use sdk_dslink_c.Broker.Subscribe.Views.{Ends, view_keeps_node, clear_keeps, keeps_if, SameOthers}

pub same_key_refl : (key : StreamKey) → same_key key key ≡ true
same_key_refl (local_stream p) = beq_refl p
same_key_refl (remote_stream n p) = rw (beq_refl n, beq_refl p) refl

pub assign_twice {ℓ κ} :
    {K : Type ℓ} {V : Type κ} (eq : K → K → Bool) (t : K → V) (key : K) (v w : V)
    → assign eq (assign eq t key v) key w ≡ assign eq t key w
assign_twice eq t key v w =
    fun_ext (λ x. elim (Bool-cases (eq x key)) [ inl e ↦ rw e refl | inr e ↦ rw e refl ])

with_stream_twice :
    (r : Registry) (key : StreamKey) (v w : Option (List (Bytes × ℕ)))
    → with_stream (with_stream r key v) key w ≡ with_stream r key w
with_stream_twice r key v w =
    ap (λ t. record r { members = t }) (assign_twice same_key r.members key v w)

module _ {J : Type 0} where
  abbrev pub unlisted : Hub J → ℕ → Subscriber J → Hub J
  unlisted h k sub = record (set_node h sub.req_node (unregister (h.nodes sub.req_node) sub)) {
    remote_pending = drop_pending h.remote_pending k;
    local_pending = drop_pending h.local_pending k;
  }

  view-unlisted :
      (h : Hub J) (k : ℕ) (sub : Subscriber J)
      → but (view (unlisted h k sub)) k (left sub.stream (view h).members sub.req_node)
        ≡ removed (view h) k (identity_of sub)
  view-unlisted h k sub =
      ap (λ r. but r k (left sub.stream (view h).members sub.req_node))
        (view-set_node h sub.req_node (unregister (h.nodes sub.req_node) sub))
      ∙ elim (Bool-cases (sub.req_sid == no_sid)) [
        | inl away ↦ rw away (
            ap (with_sids (removed (view h) k (identity_of sub))) (
              assign_same beq (view h).sids sub.req_node (h.nodes sub.req_node).req_sub_sids
                (λ x q. ap (λ n. (h.nodes n).req_sub_sids) (beq→eq x sub.req_node q))))
        | inr here ↦ rw here refl
      ]

  unsubscribed-view :
      (h : Hub J) (n : Bytes) (sid : ℕ)
      → (view (broker_msg_send_unsubscribe h n sid) ≡ view h)
        × ((broker_msg_send_unsubscribe h n sid).subs ≡ h.subs)
  unsubscribed-view h n sid =
      keeps_if (h.nodes n).connected h
        (call (set_node h n (record (h.nodes n) { rid = (broker_node_incr_rid (h.nodes n).rid).0 }))
          (unsubscribe_request n (broker_node_incr_rid (h.nodes n).rid).1 sid))
        h
        (
          view_keeps_node h n
              (record (h.nodes n) { rid = (broker_node_incr_rid (h.nodes n).rid).0 }) refl refl,
          refl,
        )
        (refl, refl)

  end_stream-view :
      (h : Hub J) (key : StreamKey) (st : SubStream J)
      → (view (end_stream key h st) ≡ with_stream (view h) key none)
        × ((end_stream key h st).subs ≡ h.subs)
  end_stream-view h (local_stream p) st = (view-set_stream h (local_stream p) none, refl)
  end_stream-view h (remote_stream n p) st =
      let g = broker_msg_send_unsubscribe h n st.resp_sid in
      let node = record (g.nodes n) {
        resp_sub_sids = assign ◌==◌ (g.nodes n).resp_sub_sids st.resp_sid none;
      } in
      let (same, subs) = unsubscribed-view h n st.resp_sid in
      (
        view-set_stream (set_node g n node) (remote_stream n p) none
            ∙ ap (λ r. with_stream r (remote_stream n p) none)
                (view_keeps_node g n node refl refl ∙ same),
        subs,
      )

  stream_free_ends :
      (h : Hub J) (key : StreamKey) (st : SubStream J)
      → h.streams key ≡ some st
      → st.req_subs ≡ []
      → broker_stream_free h key ≡ ok (end_stream key h st)
  unfolding detach_subs
  stream_free_ends h key st e none_left =
      ap
        (λ o.
          deref o >>= (λ st. detach_subs key h st.req_subs >>= (λ h'. ok (end_stream key h' st))))
        e
      ∙ ap (λ xs. detach_subs key h xs >>= (λ h'. ok (end_stream key h' st))) none_left

  -- A stream that keeps these subscribers, or ends without any.
  end_if_left-view :
      (h : Hub J) (key : StreamKey) (st : SubStream J) (xs : List (Bytes × ℕ))
      → Ends
          (end_if_left h key st xs)
          (λ h'. (view h' ≡ with_stream (view h) key (unless_nil xs)) × (h'.subs ≡ h.subs))
  end_if_left-view h key st (x ∷ xs) = (
    set_stream h key (some (record st { req_subs = x ∷ xs })),
    refl,
    (view-set_stream h key (some (record st { req_subs = x ∷ xs })), refl),
  )
  end_if_left-view h key st [] =
      let st' = record st { req_subs = [] } in
      let h' = set_stream h key (some st') in
      let (ended, subs) = end_stream-view h' key st' in
      (
        end_stream key h' st',
        stream_free_ends h' key st' (rw (same_key_refl key) refl) refl,
        (
          ended
              ∙ ap (λ r. with_stream r key none) (view-set_stream h key (some st'))
              ∙ with_stream_twice (view h) key (some []) none,
          subs,
        ),
      )

  pub leave_stream-view :
      (h : Hub J) (n : Bytes) (o : Option StreamKey)
      → ((key : StreamKey) → o ≡ some key → (st : SubStream J) × (h.streams key ≡ some st))
      → Ends (leave_stream h n o) (λ h'.
        (view h' ≡ record (view h) { members = left o (view h).members n }) × (h'.subs ≡ h.subs))
  leave_stream-view h n none there = (h, refl, (refl, refl))
  leave_stream-view h n (some key) there =
      let (st, e) = there key refl in
      let (h', run, (same, subs)) = end_if_left-view h key st (remove_req n st.req_subs) in
      (
        h',
        ap (λ o. deref o >>= (λ st. end_if_left h key st (remove_req n st.req_subs))) e ∙ run,
        (
          same
              ∙ ap
                  (λ o. with_stream (view h) key (unless_nil (remove_req n (or_nil (listed_in o)))))
                  (sym e),
          subs,
        ),
      )

  forget_queue-view :
      (h : Hub J) (k : ℕ) (sub : Subscriber J)
      → h.subs k ≡ some sub
      → Ends (forget_queue h k sub) (λ h'. (view h' ≡ view h) × SameOthers k h h')
  forget_queue-view h k sub e =
      let h' =
        if ltb 2 sub.qos then call (delete_qos_queue h sub) (forget sub.req_node sub.path) else h in
      let (same, subs) =
        keeps_if (ltb 2 sub.qos) h (call (delete_qos_queue h sub) (forget sub.req_node sub.path)) h
          (refl, refl) (refl, refl) in
      elim (Option-cases sub.qos_queue) [
        | inl no_queue ↦ (h', ap (clear_if h' k) no_queue, (same, λ j other. ap (λ t. t j) subs))
        | inr (q, queue) ↦
            let (h'', run, (kept, others)) = clear_keeps h' k true sub (ap (λ t. t k) subs ∙ e) in
            (
              h'',
              ap (clear_if h' k) queue ∙ run,
              (kept ∙ same, λ j other. others j other ∙ ap (λ t. t j) subs),
            )
      ]

  pub freed :
      (h : Hub J) (k : ℕ) (sub : Subscriber J) (h1 h2 : Hub J)
      → h.subs k ≡ some sub
      → leave_stream (unlisted h k sub) sub.req_node sub.stream ≡ ok h1
      → forget_queue h1 k sub ≡ ok h2
      → broker_free_sub_requester h k ≡ ok (call (set_sub h2 k none) (free_messages k))
  unfolding broker_free_sub_requester
  freed h k sub h1 h2 e run run' =
      ap
        (λ o. deref o >>= (λ sub.
          leave_stream (unlisted h k sub) sub.req_node sub.stream >>= (λ left.
            forget_queue left k sub
            >>= (λ done. ok (call (set_sub done k none) (free_messages k))))))
        e
      ∙ ap
          (λ m. m >>= (λ left.
            forget_queue left k sub
            >>= (λ done. ok (call (set_sub done k none) (free_messages k)))))
          run
      ∙ ap (λ m. m >>= (λ done. ok (call (set_sub done k none) (free_messages k)))) run'

  -- Take a subscriber whose stream, if it has one, is there. broker_free_sub_requester ends, and takes the subscriber
  -- out of the tables and out of its stream; a stream that it leaves empty ends, and the other subscribers are what
  -- they were.
  pub free_sub_requester-removes :
      (h : Hub J) (k : ℕ) (sub : Subscriber J)
      → h.subs k ≡ some sub
      → ((key : StreamKey) → sub.stream ≡ some key → (st : SubStream J) × (h.streams key ≡ some st))
      → Ends
          (broker_free_sub_requester h k)
          (λ h'. (view h' ≡ removed (view h) k (identity_of sub)) × SameOthers k h h')
  unfolding broker_free_sub_requester
  free_sub_requester-removes h k sub e there =
      let h0 = unlisted h k sub in
      let (h1, run, (same, subs)) = leave_stream-view h0 sub.req_node sub.stream there in
      let (h2, run', (kept, others)) = forget_queue-view h1 k sub (ap (λ t. t k) subs ∙ e) in
      (
        call (set_sub h2 k none) (free_messages k),
        freed h k sub h1 h2 e run run',
        (
          view-set_sub h2 k none
              ∙ ap (λ r. but r k r.members) (kept ∙ same)
              ∙ view-unlisted h k sub,
          λ j other. rw (ne→== j k other) (others j other ∙ ap (λ t. t j) subs),
        ),
      )
