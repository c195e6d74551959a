-- ===== src/Broker/Subscribe/Values.antt =====
-- broker/src/subscription.c and msg_subscribe.c: a value for a subscriber, and what a subscriber gets whose id has
-- changed, on consistent tables.
use sdk_dslink_c.Prelude.{
  ℕ, ◌≡◌, refl, ◌∙◌, inl, inr, true, List, [], ◌∷◌, ◌++◌, Option, none, some, ◌==◌, leb, length,
  Bool-cases, ==_refl,
}
use sdk_dslink_c.Broker.Subscribe.{
  StreamKey, Subscriber, SubStream, Hub, Services, send_message, add_message, send_queued, set_sub,
  call,
}
use sdk_dslink_c.Broker.Subscribe.Streams.{save_qos_queue}
use sdk_dslink_c.Broker.Subscribe.Handle.{broker_update_sub_req, queue_value, queued_values}
use sdk_dslink_c.Broker.Subscribe.Requests.{
  send_value, send_last, resend_value, resend_queue, resend,
}
use sdk_dslink_c.Broker.Subscribe.Registry.{view, IsSound}
use sdk_dslink_c.Broker.Subscribe.Views.{Ends, view_keeps_sub, clear_keeps, deref_then}
use sdk_dslink_c.Broker.Subscribe.Keeps.{update_sub_req_qos_keeps, stream_there}

module _ {J : Type 0} (services : Services J) where
  queue_value_keeps :
      (h : Hub J) (k : ℕ) (sub : Subscriber J) (queue : List J) (varray : J)
      → h.subs k ≡ some sub
      → Ends (queue_value services h k sub queue varray) (λ h'. view h' ≡ view h)
  queue_value_keeps h k sub queue varray live =
      let made = record sub { qos_queue = some queue } in
      let longer = record sub { qos_queue = some (queue ++ (varray ∷ [])) } in
      elim (Bool-cases (leb services.broker_max_qos_queue_size (length queue))) [
        | inl full ↦
            let (h', run, (same, _)) =
              clear_keeps (set_sub h k (some made)) k true made (rw (==_refl k) refl) in
            (h', rw full run, same ∙ view_keeps_sub h k sub made live refl)
        | inr room ↦ (
          save_qos_queue (set_sub h k (some longer)) longer,
          rw room refl,
          view_keeps_sub h k sub longer live refl,
        )
      ]

  pub update_sub_req_keeps :
      (h : Hub J) (k : ℕ) (sub : Subscriber J) (varray : J)
      → h.subs k ≡ some sub
      → Ends (broker_update_sub_req services h k varray) (λ h'. view h' ≡ view h)
  unfolding broker_update_sub_req
  update_sub_req_keeps h k sub varray live = elim (Bool-cases (leb sub.qos 2)) [
    | inl low ↦ (
      call (call h (add_message k varray)) (send_queued k),
      deref_then _ live (rw low refl),
      refl,
    )
    | inr high ↦ elim (Bool-cases (h.nodes sub.req_node).connected) [
      | inl there ↦
          (call h (send_message k varray), deref_then _ live (rw high (rw there refl)), refl)
      | inr away ↦
          let (h', run, same) =
            queue_value_keeps h k sub (queued_values sub.qos_queue) varray live in
          (h', deref_then _ live (rw high (rw away run)), same)
    ]
  ]

  send_value_keeps :
      (h : Hub J) (k : ℕ) (sub : Subscriber J) (value : Option J)
      → h.subs k ≡ some sub
      → Ends (send_value services h k value) (λ h'. view h' ≡ view h)
  send_value_keeps h k sub none live = (h, refl, refl)
  send_value_keeps h k sub (some v) live = update_sub_req_keeps h k sub v live

  pub send_last_keeps :
      (h : Hub J) (k : ℕ) (sub : Subscriber J) (key : StreamKey) (st : SubStream J)
      → h.subs k ≡ some sub
      → h.streams key ≡ some st
      → Ends (send_last services h k key) (λ h'. view h' ≡ view h)
  send_last_keeps h k sub key st live there =
      let (h', run, same) = send_value_keeps h k sub st.last_value live in
      (h', deref_then _ there run, same)

  resend_value_keeps :
      (h : Hub J) (k : ℕ) (sub : Subscriber J) (o : Option StreamKey)
      → IsSound (view h)
      → h.subs k ≡ some sub
      → sub.stream ≡ o
      → Ends (resend_value services h k o) (λ h'. view h' ≡ view h)
  resend_value_keeps h k sub none sound live here = (h, refl, refl)
  resend_value_keeps h k sub (some key) sound live here =
      let (st, there, _) = stream_there h (view h) k sub key sound refl live here in
      send_last_keeps h k sub key st live there

  resend_queue_keeps :
      (h : Hub J) (k : ℕ) (sub : Subscriber J) (queue : List J)
      → IsSound (view h)
      → h.subs k ≡ some sub
      → Ends (resend_queue services h k sub queue) (λ h'. view h' ≡ view h)
  resend_queue_keeps h k sub (v ∷ q) sound live = update_sub_req_qos_keeps services h k sub live
  resend_queue_keeps h k sub [] sound live = elim (Bool-cases (sub.qos == 2)) [
    | inl two ↦ (call h (send_queued k), rw two refl, refl)
    | inr other ↦
        let (h', run, same) = resend_value_keeps h k sub sub.stream sound live refl in
        (h', rw other run, same)
  ]

  pub resend_keeps :
      (h : Hub J) (k : ℕ) (sub : Subscriber J)
      → IsSound (view h)
      → h.subs k ≡ some sub
      → Ends (resend services h k) (λ h'. view h' ≡ view h)
  unfolding resend
  resend_keeps h k sub sound live =
      let (h', run, same) = resend_queue_keeps h k sub (queued_values sub.qos_queue) sound live in
      (h', deref_then _ live run, same)
