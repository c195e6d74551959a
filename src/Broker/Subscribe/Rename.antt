-- ===== src/Broker/Subscribe/Rename.antt =====
-- broker/src/msg/msg_subscribe.c: an existing subscriber gets another id.
use sdk_dslink_c.Prelude.{ℕ, ◌≡◌, ◌≢◌, refl, ap, sym, subst, ◌∙◌, Option, none, some, ◌==◌, ==_refl}
use sdk_dslink_c.Prelude.Bytes.{Bytes, beq, beq→eq}
use sdk_dslink_c.Broker.Subscribe.{assign, Subscriber, Hub, Services, set_sub, set_node}
use sdk_dslink_c.Broker.Subscribe.Handle.{no_sid}
use sdk_dslink_c.Broker.Subscribe.Requests.{move_subscription}
use sdk_dslink_c.Broker.Subscribe.Registry.{
  Identity, Registry, identity, identity_of, moved, view, view-set_sub, view-set_node, IsSound,
  assign_same,
}
use sdk_dslink_c.Broker.Subscribe.Views.{Ends, deref_then, and_then, identity-some}
use sdk_dslink_c.Broker.Subscribe.Move.{moved-IsSound}
use sdk_dslink_c.Broker.Subscribe.Keeps.{update_sub_qos_keeps}
use sdk_dslink_c.Broker.Subscribe.Values.{resend_keeps}

abbrev with_sub : Registry → ℕ → Identity → Registry
with_sub r k i = record r { subs = assign ◌==◌ r.subs k (some i) }

abbrev with_paths : Registry → (Bytes → Bytes → Option ℕ) → Registry
with_paths r t = record r { paths = t }

abbrev moved_sids : Registry → Bytes → (ℕ → Option ℕ) → Registry
moved_sids r n t = record r { sids = assign beq r.sids n t }

module _ {J : Type 0} (services : Services J) where
  -- Take a subscriber of the requester, and an id, not 0xFFFFFFFF, that no subscriber of it has. Then it gets this id;
  -- the rest of the tables and the streams stay.
  pub move_subscription-moves :
      (h : Hub J) (k sid qos : ℕ) (sub : Subscriber J)
      → IsSound (view h)
      → h.subs k ≡ some sub
      → sid ≢ no_sid
      → (view h).sids sub.req_node sid ≡ none
      → Ends
          (move_subscription services h sub.req_node k sid qos)
          (λ h'. (view h' ≡ moved (view h) k (identity_of sub) sid) × IsSound (view h'))
  unfolding move_subscription
  move_subscription-moves h k sid qos sub sound live some_sid new_sid =
      let n = sub.req_node in
      let node = record (h.nodes n) {
        req_sub_sids =
            assign ◌==◌ (assign ◌==◌ (h.nodes n).req_sub_sids sub.req_sid none) sid (some k);
      } in
      let sub' = record sub { req_sid = sid } in
      let h1 = set_sub (set_node h n node) k (some sub') in
      let base : view h1 ≡ moved (view h) k (identity_of sub) sid =
        view-set_sub (set_node h n node) k (some sub')
        ∙ ap (λ r. with_sub r k (identity_of sub'))
            (view-set_node h n node
              ∙ ap (λ t. with_paths (moved_sids (view h) n node.req_sub_sids) t)
                  (assign_same beq (view h).paths n (h.nodes n).req_sub_paths
                    (λ x q. ap (λ m. (h.nodes m).req_sub_paths) (beq→eq x n q)))) in
      let sound' =
        moved-IsSound (view h) k (identity_of sub) sid sound (ap identity live) some_sid new_sid in
      let (h2, run, (same, _)) =
        update_sub_qos_keeps h1 k qos sub' (subst IsSound (sym base) sound')
          (rw (==_refl k) refl) in
      let (sub'', live', _) =
        identity-some (h2.subs k) (identity_of sub')
          (ap (λ r. r.subs k) (same ∙ base) ∙ rw (==_refl k) refl) in
      let (h3, run', same') =
        resend_keeps services h2 k sub'' (subst IsSound (sym (same ∙ base)) sound') live' in
      (
        h3,
        deref_then _ live (and_then _ run run'),
        (same' ∙ same ∙ base, subst IsSound (sym (same' ∙ same ∙ base)) sound'),
      )
