-- ===== src/Broker/Subscribe/Qos.antt =====
-- broker/src/subscription.c: the quality of service that a link is asked for, and the QoS queue of a subscriber whose
-- requester is away.
use sdk_dslink_c.Prelude.{
  ℕ, ◌≤◌, ◌<◌, ◌≡◌, refl, ap, sym, subst, ◌∙◌, inl, inr, max, not, ◌&&◌, true, false, List, [], ◌∷◌,
  ◌++◌, Option, none, some, arith, ◌==◌, ltb, leb, length, length-append, if◌then◌else◌, Bool-cases,
  ==_refl, lt→ltb,
}
use sdk_dslink_c.Prelude.Bytes.{Bytes, beq_refl}
use sdk_dslink_c.Prelude.Run.{ok}
use sdk_dslink_c.Broker.Subscribe.{
  StreamKey, remote_stream, Subscriber, SubStream, Hub, Services, add_message, send_queued,
  send_message, set_sub, set_stream, call,
}
use sdk_dslink_c.Broker.Subscribe.Streams.{
  max_qos, broker_update_stream_qos, send_subscribe_request, save_qos_queue, clear_qos_queue,
  cleared,
}
use sdk_dslink_c.Broker.Subscribe.Handle.{broker_update_sub_req, queue_value, queued_values}
use sdk_dslink_c.Broker.Subscribe.Registry.{view, AreMembers}
use sdk_dslink_c.Broker.Subscribe.Views.{Ends, deref_then, and_then, identity-some}

higher : (m q r : ℕ) → max (if ltb m q then q else m) r ≡ max m (max q r)
higher m q r = ground arith

module _ {J : Type 0} where
  abbrev pub asked : Option (Subscriber J) → ℕ
  asked none = 0
  asked (some sub) = sub.qos

  -- The highest quality of service of the members, 0 where there is none.
  unfoldable pub highest : Hub J → List (Bytes × ℕ) → ℕ
  highest h [] = 0
  highest h ((n, k) ∷ xs) = max (asked (h.subs k)) (highest h xs)

  max_qos-highest :
      (h : Hub J) (m : ℕ) (key : StreamKey) (xs : List (Bytes × ℕ))
      → AreMembers (view h) key xs
      → max_qos h m xs ≡ ok (max m (highest h xs))
  unfolding max_qos highest
  max_qos-highest h m key [] members = ap ok (omega arith)
  max_qos-highest h m key ((n, k) ∷ xs) ((i, live, _, _), _, members) =
      let (sub, e, _) = identity-some (h.subs k) i live in
      deref_then _ e (
        max_qos-highest h (if ltb m sub.qos then sub.qos else m) key xs members
        ∙ ap ok (
            higher m sub.qos (highest h xs)
            ∙ ap (λ o. max m (max (asked o) (highest h xs))) (sym e)))

  clear_run :
      (g : Hub J) (k : ℕ) (sub : Subscriber J)
      → g.subs k ≡ some sub
      → ltb 2 sub.qos ≡ true
      → clear_qos_queue g k true
        ≡ ok (
            save_qos_queue
              (set_sub g k (some (record sub { qos_queue = cleared sub.qos_queue })))
              (record sub { qos_queue = cleared sub.qos_queue }))
  clear_run g k sub live high = deref_then _ live (rw high refl)

  -- What the link is asked for, if anything.
  abbrev pub announced : Hub J → Bytes → Bytes → SubStream J → ℕ → Hub J
  announced h n p st m =
      if not (m == st.resp_qos) && (h.nodes n).connected
      then send_subscribe_request h n p st.resp_sid m
      else h

  -- On a stream of a link, all of whose members are subscribers, broker_update_stream_qos ends: the stream gets the
  -- highest quality of service of its members, and the link is asked for it where it is connected and had another one.
  pub update_stream_qos-highest :
      (h : Hub J) (n p : Bytes) (st : SubStream J)
      → h.streams (remote_stream n p) ≡ some st
      → AreMembers (view h) (remote_stream n p) st.req_subs
      → broker_update_stream_qos h (some (remote_stream n p))
        ≡ ok (
            announced
              (set_stream h
                (remote_stream n p)
                (some (record st { resp_qos = highest h st.req_subs })))
              n
              p
              st
              (highest h st.req_subs))
  unfolding broker_update_stream_qos
  update_stream_qos-highest h n p st there members = deref_then _ there (
      and_then _
        (max_qos-highest h 0 (remote_stream n p) st.req_subs members
          ∙ ap ok {y = highest h st.req_subs} (omega arith))
        refl)

module _ {J : Type 0} (services : Services J) where
  -- The queue after a value: the value is behind the others, or a full queue is emptied and the value is dropped.
  abbrev pub queued_after : List J → J → List J
  queued_after queue varray =
      if leb services.broker_max_qos_queue_size (length queue) then [] else queue ++ (varray ∷ [])

  abbrev with_queue : Subscriber J → List J → Option (Subscriber J)
  with_queue sub xs = some (record sub { qos_queue = some xs })

  shorter :
      (n : ℕ)
      → leb services.broker_max_qos_queue_size n ≡ false
      → n < services.broker_max_qos_queue_size
  shorter n room = ground arith

  queue_run :
      (h : Hub J) (k : ℕ) (sub : Subscriber J) (varray : J)
      → 2 < sub.qos
      → (h.nodes sub.req_node).connected ≡ false
      → (if leb sub.qos 2
          then ok (call (call h (add_message k varray)) (send_queued k))
          else if (h.nodes sub.req_node).connected
          then ok (call h (send_message k varray))
          else queue_value services h k sub (queued_values sub.qos_queue) varray)
        ≡ queue_value services h k sub (queued_values sub.qos_queue) varray
  queue_run h k sub varray high away = rw (above sub.qos high) (rw away refl)
    where
      above : (q : ℕ) → 2 < q → leb q 2 ≡ false
      above q high = ground arith

  -- Take a subscriber with a quality of service above 2 whose requester is away. broker_update_sub_req puts the value
  -- behind its QoS queue, or empties the queue and drops the value, where the queue has the greatest length; and the
  -- storage has the queue that results, which is no longer than that length.
  pub update_sub_req-queues :
      (h : Hub J) (k : ℕ) (sub : Subscriber J) (varray : J)
      → h.subs k ≡ some sub
      → 2 < sub.qos
      → (h.nodes sub.req_node).connected ≡ false
      → Ends (broker_update_sub_req services h k varray) (λ h'.
        (h'.subs k
          ≡ some
              (record sub { qos_queue = some (queued_after (queued_values sub.qos_queue) varray) }))
        × (h'.storage sub.req_node sub.path
            ≡ some (sub.qos, some (queued_after (queued_values sub.qos_queue) varray)))
        × (length (queued_after (queued_values sub.qos_queue) varray)
            ≤ services.broker_max_qos_queue_size))
  unfolding broker_update_sub_req
  update_sub_req-queues h k sub varray live high away =
      let queue = queued_values sub.qos_queue in
      let step = deref_then _ live (queue_run h k sub varray high away) in
      elim (Bool-cases (leb services.broker_max_qos_queue_size (length queue))) [
        | inl full ↦
            let made = record sub { qos_queue = some queue } in
            let emptied = record sub { qos_queue = some [] } in
            let e : queued_after queue varray ≡ [] = rw full refl in
            (
              save_qos_queue (set_sub (set_sub h k (some made)) k (some emptied)) emptied,
              step
                  ∙ rw full (
                      clear_run (set_sub h k (some made)) k made (rw (==_refl k) refl)
                        (lt→ltb 2 sub.qos high)),
              (
                rw (==_refl k) (ap (with_queue sub) (sym e)),
                rw (beq_refl sub.req_node, beq_refl sub.path)
                    (ap (λ xs. some (sub.qos, some xs)) (sym e)),
                subst (λ xs. length xs ≤ services.broker_max_qos_queue_size) (sym e) (omega arith),
              ),
            )
        | inr room ↦
            let longer = record sub { qos_queue = some (queue ++ (varray ∷ [])) } in
            let e : queued_after queue varray ≡ queue ++ (varray ∷ []) = rw room refl in
            (
              save_qos_queue (set_sub h k (some longer)) longer,
              step ∙ rw room refl,
              (
                rw (==_refl k) (ap (with_queue sub) (sym e)),
                rw (beq_refl sub.req_node, beq_refl sub.path)
                    (ap (λ xs. some (sub.qos, some xs)) (sym e)),
                subst (λ xs. length xs ≤ services.broker_max_qos_queue_size) (sym e)
                    (omega (arith, length-append queue (varray ∷ []), shorter (length queue) room)),
              ),
            )
      ]
