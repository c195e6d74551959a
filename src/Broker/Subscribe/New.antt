-- ===== src/Broker/Subscribe/New.antt =====
-- broker/src/msg/msg_subscribe.c: a new subscriber, from its creation on.
use sdk_dslink_c.Prelude.{
  ℕ, suc, ◌≡◌, ◌≢◌, refl, ap, ap₂, sym, subst, ◌∙◌, Bool, true, false, none, some, ◌==◌, ltb,
  if◌then◌else◌, ==_refl,
}
use sdk_dslink_c.Prelude.Bytes.{Bytes, beq}
use sdk_dslink_c.Broker.Node.{broker_node_get}
use sdk_dslink_c.Broker.Subscribe.{assign, Subscriber, Hub, Services, set_sub, set_node}
use sdk_dslink_c.Broker.Subscribe.Streams.{save_qos_queue}
use sdk_dslink_c.Broker.Subscribe.Handle.{no_sid, broker_create_sub_requester}
use sdk_dslink_c.Broker.Subscribe.Requests.{register, broker_add_new_subscription, new_subscription}
use sdk_dslink_c.Broker.Subscribe.Registry.{
  Identity, Registry, identity_of, added, view, view-set_sub, view-set_node, IsSound, assign₂,
}
use sdk_dslink_c.Broker.Subscribe.Views.{Ends, deref_then}
use sdk_dslink_c.Broker.Subscribe.Add.{added-IsSound}
use sdk_dslink_c.Broker.Subscribe.Attach.{
  IsAttachable, stream_for, identity_for, in_stream_of, joined_added, can_join, attach-view,
}

if_both {ℓ} :
    {A : Type ℓ} (P : A → Type 0) (b : Bool) (x y : A) → P x → P y → P (if b then x else y)
if_both P true x y p q = p
if_both P false x y p q = q

abbrev registered : Registry → Bytes → Bytes → ℕ → ℕ → Registry
registered r n path sid k = record r {
  paths = assign₂ beq beq r.paths n path (some k);
  sids = assign₂ beq ◌==◌ r.sids n sid (some k);
}

abbrev with_new : Registry → Identity → Registry
with_new r i = record r { subs = assign ◌==◌ r.subs r.next (some i); next = suc r.next }

abbrev with_next : Registry → ℕ → Registry
with_next r k = record r { next = k }

module _ {J : Type 0} (services : Services J) where
  -- From the hub in which the subscriber is made.
  add_new-view :
      (h g : Hub J) (sub : Subscriber J)
      → IsSound (view h)
      → sub.stream ≡ none
      → view g ≡ record (view h) {
        subs = assign ◌==◌ (view h).subs h.next (some (identity_of sub));
        next = suc h.next;
      }
      → g.subs h.next ≡ some sub
      → sub.req_sid ≢ no_sid
      → (view h).paths sub.req_node sub.path ≡ none
      → (view h).sids sub.req_node sub.req_sid ≡ none
      → IsAttachable (view h) sub.req_node sub.path (broker_node_get g.root sub.path)
      → Ends (broker_add_new_subscription services g h.next) (λ h'.
        (view h'
          ≡ added (view h) (
              identity_for sub.req_node sub.path sub.req_sid
                (stream_for (broker_node_get g.root sub.path))))
        × IsSound (view h'))
  unfolding broker_add_new_subscription
  add_new-view h g sub sound alone made live some_sid new_path new_sid can =
      let n = sub.req_node in
      let found = broker_node_get g.root sub.path in
      let fresh = identity_for n sub.path sub.req_sid none in
      let who : identity_of sub ≡ fresh = ap (λ s. identity_for n sub.path sub.req_sid s) alone in
      let g' = set_node g n (register (g.nodes n) sub.path sub.req_sid h.next) in
      let base : view g' ≡ added (view h) fresh =
        view-set_node g n (register (g.nodes n) sub.path sub.req_sid h.next)
        ∙ ap (λ r. registered r n sub.path sub.req_sid h.next)
            (made ∙ ap (with_new (view h)) who) in
      let whole =
        ap₂ (λ r i. in_stream_of r h.next i (stream_for found)) base who
        ∙ joined_added (view h) n sub.path sub.req_sid (stream_for found) in
      let sound' =
        added-IsSound (view h) (identity_for n sub.path sub.req_sid (stream_for found)) sound
          some_sid new_path new_sid (λ key e. can_join (view h) n sub.path found key can e) in
      let (h', run, same) =
        attach-view services g' sub.path h.next sub found (view h) live can
          (subst IsSound (sym whole) sound') in
      (h', deref_then _ live run, (same ∙ whole, subst IsSound (sym (same ∙ whole)) sound'))

  -- Take a requester without a subscriber of this path or of this id, which is not 0xFFFFFFFF. A new subscription ends,
  -- and adds a subscriber with the path and the id, in the stream that the path leads to.
  pub new_subscription-adds :
      (h : Hub J) (n path : Bytes) (sid qos : ℕ)
      → IsSound (view h)
      → sid ≢ no_sid
      → (view h).paths n path ≡ none
      → (view h).sids n sid ≡ none
      → IsAttachable (view h) n path (broker_node_get h.root path)
      → Ends (new_subscription services h n path sid qos) (λ h'.
        (view h'
          ≡ added (view h) (identity_for n path sid (stream_for (broker_node_get h.root path))))
        × IsSound (view h'))
  unfolding new_subscription
  new_subscription-adds h n path sid qos sound some_sid new_path new_sid can =
      let sub = broker_create_sub_requester {J = J} n path sid qos none in
      let made = record (set_sub h h.next (some sub)) { next = suc h.next } in
      let made_view = ap (λ r. with_next r (suc h.next)) (view-set_sub h h.next (some sub)) in
      if_both
        (λ g. Ends (broker_add_new_subscription services g h.next) (λ h'.
          (view h'
            ≡ added (view h) (identity_for n path sid (stream_for (broker_node_get h.root path))))
          × IsSound (view h')))
        (ltb 2 qos) (save_qos_queue made sub) made
        (add_new-view h (save_qos_queue made sub) sub sound refl made_view
          (rw (==_refl h.next) refl) some_sid new_path new_sid can)
        (add_new-view h made sub sound refl made_view (rw (==_refl h.next) refl) some_sid new_path
          new_sid can)
