-- ===== src/Broker/Subscribe/Keeps.antt =====
-- broker/src/subscription.c: updates of the quality of service and of the values of a subscriber, on consistent tables.
use sdk_dslink_c.Prelude.{
  ℕ, ◌≡◌, refl, ap, sym, subst, ◌∙◌, inl, inr, not, ◌&&◌, true, false, Option, none, some, map,
  ◌==◌, if◌then◌else◌, Bool-cases, ==_refl, ==_iff,
}
use sdk_dslink_c.Prelude.Run.{ok, ◌>>=◌}
use sdk_dslink_c.Broker.Subscribe.{
  StreamKey, Subscriber, SubStream, Hub, Services, deref, send_updates, set_sub, call,
}
use sdk_dslink_c.Broker.Subscribe.Streams.{
  broker_update_stream_qos, save_qos_queue, delete_qos_queue,
}
use sdk_dslink_c.Broker.Subscribe.Handle.{
  with_qos, broker_update_sub_qos, broker_update_sub_req_qos, queued_values,
}
use sdk_dslink_c.Broker.Subscribe.Registry.{
  Registry, identity, identity_of, view, AreMembers, IsSound,
}
use sdk_dslink_c.Broker.Subscribe.Views.{
  Ends, view_keeps_sub, keeps_if, clear_keeps, update_stream_qos_keeps, listed_in-some, deref_then,
}

module _ {J : Type 0} where
  -- The stream that a subscriber points to is there, with subscribers as its members.
  pub stream_there :
      (h : Hub J) (r : Registry) (k : ℕ) (sub : Subscriber J) (key : StreamKey)
      → IsSound r
      → view h ≡ r
      → h.subs k ≡ some sub
      → sub.stream ≡ some key
      → (st : SubStream J) × (h.streams key ≡ some st) × AreMembers (view h) key st.req_subs
  stream_there h r k sub key sound same live here =
      let sound' = subst IsSound (sym same) sound in
      let (xs, members, _) =
        sound'.in_stream k (identity_of sub) key (ap (λ o. identity o) live) here in
      let (st, e, listed) = listed_in-some (h.streams key) xs members in
      (st, e, subst (AreMembers (view h) key) (sym listed) (sound'.of_stream key xs members))

  abbrev pub qos_of_sub : Option (Subscriber J) → Option ℕ
  qos_of_sub none = none
  qos_of_sub (some sub) = some sub.qos

  abbrev set_qos : Hub J → ℕ → Subscriber J → ℕ → Hub J
  set_qos h k sub qos =
      let set = set_sub h k (some (with_qos sub qos)) in
      if sub.qos == 3 && not (qos == 3) then delete_qos_queue set sub else set

  abbrev saved_qos : Hub J → Subscriber J → ℕ → Hub J
  saved_qos h sub qos =
      if qos == 3 && not (sub.qos == 3) then save_qos_queue h (with_qos sub qos) else h

  update_sub_qos_run :
      (h h' : Hub J) (k qos : ℕ) (sub : Subscriber J)
      → h.subs k ≡ some sub
      → (sub.qos == qos) ≡ false
      → broker_update_stream_qos (set_qos h k sub qos) sub.stream ≡ ok h'
      → broker_update_sub_qos h k qos ≡ ok (saved_qos h' sub qos)
  unfolding broker_update_sub_qos
  update_sub_qos_run h h' k qos sub live other run =
      ap
        (λ o. deref o >>= (λ sub.
          if sub.qos == qos
          then ok h
          else broker_update_stream_qos (set_qos h k sub qos) sub.stream
            >>= (λ h'. ok (saved_qos h' sub qos))))
        live
      ∙ rw other (ap (λ m. m >>= (λ h'. ok (saved_qos h' sub qos))) run)

  update_sub_qos_same :
      (h : Hub J) (k qos : ℕ) (sub : Subscriber J)
      → h.subs k ≡ some sub
      → (sub.qos == qos) ≡ true
      → broker_update_sub_qos h k qos ≡ ok h
  unfolding broker_update_sub_qos
  update_sub_qos_same h k qos sub live same = rw live (rw same refl)

  -- On consistent tables broker_update_sub_qos of a subscriber ends, leaves the tables and the members of the streams,
  -- and the subscriber has the new quality of service.
  pub update_sub_qos_keeps :
      (h : Hub J) (k qos : ℕ) (sub : Subscriber J)
      → IsSound (view h)
      → h.subs k ≡ some sub
      → Ends
          (broker_update_sub_qos h k qos)
          (λ h'. (view h' ≡ view h) × (qos_of_sub (h'.subs k) ≡ some qos))
  update_sub_qos_keeps h k qos sub sound live = elim (Bool-cases (sub.qos == qos)) [
    | inl same ↦ (
      h,
      update_sub_qos_same h k qos sub live same,
      (refl, ap qos_of_sub live ∙ ap some ((==_iff sub.qos qos).0 same)),
    )
    | inr other ↦
        let set = set_sub h k (some (with_qos sub qos)) in
        let h1 = set_qos h k sub qos in
        let set_view = view_keeps_sub h k sub (with_qos sub qos) live refl in
        let (same, subs) =
          keeps_if (sub.qos == 3 && not (qos == 3)) set (delete_qos_queue set sub) set (refl, refl)
            (refl, refl) in
        let now : h1.subs k ≡ some (with_qos sub qos) = ap (λ t. t k) subs ∙ rw (==_refl k) refl in
        let (h2, run, (same', subs')) = update_stream_qos_keeps h1 sub.stream (λ key here.
          stream_there h1 (view h) k (with_qos sub qos) key sound (same ∙ set_view) now here) in
        let (same'', subs'') =
          keeps_if (qos == 3 && not (sub.qos == 3)) h2 (save_qos_queue h2 (with_qos sub qos)) h2
            (refl, refl) (refl, refl) in
        (
          saved_qos h2 sub qos,
          update_sub_qos_run h h2 k qos sub live other run,
          (
            same'' ∙ same' ∙ same ∙ set_view,
            ap (λ t. qos_of_sub (t k)) (subs'' ∙ subs') ∙ ap qos_of_sub now,
          ),
        )
  ]

  pub update_sub_req_qos_keeps :
      (services : Services J) (h : Hub J) (k : ℕ) (sub : Subscriber J)
      → h.subs k ≡ some sub
      → Ends (broker_update_sub_req_qos services h k) (λ h'. view h' ≡ view h)
  unfolding broker_update_sub_req_qos
  update_sub_req_qos_keeps services h k sub live =
      let sent =
        call h
          (send_updates k (map (services.set_sid sub.req_sid) (queued_values sub.qos_queue))) in
      let (h', run, (same, _)) = clear_keeps sent k true sub live in
      elim (Bool-cases (h.nodes sub.req_node).connected) [
        | inl c ↦ (h', deref_then _ live (rw c run), same)
        | inr c ↦ (h, deref_then _ live (rw c refl), refl)
      ]
