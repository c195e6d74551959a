-- ===== src/Broker/Subscribe/Correct.antt =====
-- broker/src/msg/msg_subscribe.c: what a request to subscribe makes of the tables of the requester.
use sdk_dslink_c.Prelude.{
  ℕ, ◌%◌, ◌^◌, ◌≡◌, ◌≢◌, refl, ap, sym, subst, ◌∙◌, inl, inr, false, List, Option, none, some, ◌==◌,
  ltb, Bool-cases, ==_refl, eq→==,
}
use sdk_dslink_c.Prelude.Bytes.{Bytes, beq_refl}
use sdk_dslink_c.Prelude.Run.{Run}
use sdk_dslink_c.Broker.Permission.{permission_read}
use sdk_dslink_c.Broker.Permission.Tree
use sdk_dslink_c.Broker.Permission.Access.{get_permission}
use sdk_dslink_c.Broker.Node.{broker_node_get}
use sdk_dslink_c.Broker.Subscribe.{Hub, Services}
use sdk_dslink_c.Broker.Subscribe.Handle.{no_sid, broker_update_sub_qos}
use sdk_dslink_c.Broker.Subscribe.Requests.{
  qos_of, subscribe_as, handle_item, new_subscription, move_subscription,
}
use sdk_dslink_c.Broker.Subscribe.Registry.{
  Identity, Registry, identity, identity_of, moved, removed, view, IsSound,
}
use sdk_dslink_c.Broker.Subscribe.Views.{Ends, and_then, identity-some}
use sdk_dslink_c.Broker.Subscribe.Tables.{some_inj, sids_eq, false_true}
use sdk_dslink_c.Broker.Subscribe.Keeps.{update_sub_qos_keeps}
use sdk_dslink_c.Broker.Subscribe.Attach.{IsAttachable, stream_for, identity_for}
use sdk_dslink_c.Broker.Subscribe.New.{new_subscription-adds}
use sdk_dslink_c.Broker.Subscribe.Rename.{move_subscription-moves}
use sdk_dslink_c.Broker.Subscribe.Origin.{
  Origin, Origin-refl, Origin-trans, Origin-removed, Origin-moved, Origin-added,
}
use sdk_dslink_c.Broker.Subscribe.Freed.{IsAttachable-after, path_stays_free, path_stays, frees}

-- The requester has a subscriber of the path by the id.
abbrev pub IsSubscribed : Registry → Bytes → Bytes → ℕ → Type 0
IsSubscribed r n path sid =
    (k : ℕ) × (i : Identity) × (r.subs k ≡ some i)
    × (r.paths n path ≡ some k)
    × (r.sids n sid ≡ some k)
    × (i.path ≡ path)
    × (i.req_sid ≡ sid)

since_freed :
    (r s t : Registry) (k : ℕ) (i : Identity) (path : Bytes)
    → s ≡ removed r k i
    → Origin s path t
    → Origin r path t
since_freed r s t k i path e from =
    Origin-trans r (removed r k i) t path (Origin-removed r k i path)
      (subst (λ x. Origin x path t) e from)

module _ {J : Type 0} (services : Services J) where
  -- From the tables that were there.
  abbrev pub Subscribes : Registry → Run (Hub J) → Bytes → Bytes → ℕ → Type 0
  Subscribes r run n path sid =
      Ends run
        (λ h'. IsSound (view h') × IsSubscribed (view h') n path sid × Origin r path (view h'))

  news :
      (h : Hub J) (n path : Bytes) (sid qos : ℕ)
      → IsSound (view h)
      → sid ≢ no_sid
      → (view h).paths n path ≡ none
      → (view h).sids n sid ≡ none
      → IsAttachable (view h) n path (broker_node_get h.root path)
      → Subscribes (view h) (new_subscription services h n path sid qos) n path sid
  news h n path sid qos sound some_sid new_path new_sid can =
      let (h', run, (same, sound')) =
        new_subscription-adds services h n path sid qos sound some_sid new_path new_sid can in
      let i = identity_for n path sid (stream_for (broker_node_get h.root path)) in
      (
        h',
        run,
        (
          sound',
          subst (λ r. IsSubscribed r n path sid) (sym same)
              (
                h.next,
                i,
                rw (==_refl h.next) refl,
                rw (beq_refl n, beq_refl path) refl,
                rw (beq_refl n, ==_refl sid) refl,
                refl,
                refl,
              ),
          subst (Origin (view h) path) (sym same) (Origin-added (view h) n path sid),
        ),
      )

  moves :
      (h : Hub J) (n path : Bytes) (j sid qos : ℕ)
      → IsSound (view h)
      → sid ≢ no_sid
      → (view h).paths n path ≡ some j
      → (view h).sids n sid ≡ none
      → Subscribes (view h) (move_subscription services h n j sid qos) n path sid
  moves h n path j sid qos sound some_sid e new_sid =
      let (i, live, node, at_path) = sound.by_path n path j e in
      let (sub, there, it) = identity-some (h.subs j) i live in
      let own : sub.req_node ≡ n = ap (λ x. x.req_node) it ∙ node in
      let (h', run, (same, sound')) =
        move_subscription-moves services h j sid qos sub sound there some_sid
          (ap (λ m. (view h).sids m sid) own ∙ new_sid) in
      (
        h',
        ap (λ m. move_subscription services h m j sid qos) (sym own) ∙ run,
        (
          sound',
          subst (λ r. IsSubscribed r n path sid) (sym same)
              (
                j,
                record (identity_of sub) { req_sid = sid },
                rw (==_refl j) refl,
                e,
                ap (λ m. (moved (view h) j (identity_of sub) sid).sids m sid) (sym own)
                    ∙ rw (beq_refl sub.req_node, ==_refl sid) refl,
                ap (λ x. x.path) it ∙ at_path,
                refl,
              ),
          subst (Origin (view h) path) (sym same)
              (Origin-moved (view h) j (identity_of sub) sid path (ap identity there)),
        ),
      )

  updates :
      (h : Hub J) (n path : Bytes) (i sid qos : ℕ)
      → IsSound (view h)
      → (view h).sids n sid ≡ some i
      → (view h).paths n path ≡ some i
      → Subscribes (view h) (broker_update_sub_qos h i qos) n path sid
  updates h n path k sid qos sound e e' =
      let (_, (i, live, _, id)) = sound.by_sid n sid k e in
      let (i', live', _, at_path) = sound.by_path n path k e' in
      let (sub, there, it) = identity-some (h.subs k) i live in
      let (h', run, (same, _)) = update_sub_qos_keeps h k qos sub sound there in
      (
        h',
        run,
        (
          subst IsSound (sym same) sound,
          subst (λ r. IsSubscribed r n path sid) (sym same)
              (k, i, live, e', e, ap (λ x. x.path) (some_inj (sym live ∙ live')) ∙ at_path, id),
          subst (Origin (view h) path) (sym same) (Origin-refl (view h) path),
        ),
      )

  subscribe_as-Subscribes :
      (h : Hub J) (n path : Bytes) (sid qos : ℕ) (o p : Option ℕ)
      → IsSound (view h)
      → sid ≢ no_sid
      → (view h).sids n sid ≡ o
      → (view h).paths n path ≡ p
      → (p ≡ none → IsAttachable (view h) n path (broker_node_get h.root path))
      → Subscribes (view h) (subscribe_as services h n path sid qos o p) n path sid
  subscribe_as-Subscribes h n path sid qos none none sound some_sid e f can =
      news h n path sid qos sound some_sid f e (can refl)
  subscribe_as-Subscribes h n path sid qos none (some j) sound some_sid e f can =
      moves h n path j sid qos sound some_sid f e
  subscribe_as-Subscribes h n path sid qos (some k) none sound some_sid e f can =
      let (i, live, _, _, (h', run, (after, sound', new_sid))) = frees h n sid k sound e in
      let (h'', run', (sound'', has, from)) =
        news h' n path sid qos sound' some_sid
          (ap (λ r. r.paths n path) after ∙ path_stays_free (view h) k i n path f) new_sid
          (subst (λ r. IsAttachable r n path (broker_node_get r.root path)) (sym after)
            (IsAttachable-after (view h) k i n path (broker_node_get h.root path) (can refl))) in
      (
        h'',
        and_then _ run run',
        (sound'', has, since_freed (view h) (view h') (view h'') k i path after from),
      )
  subscribe_as-Subscribes h n path sid qos (some k) (some j) sound some_sid e f can =
      elim (Bool-cases (k == j)) [
        | inl same ↦
            let (h', run, what) =
              updates h n path k sid qos sound e (f ∙ ap some (sym (sids_eq k j same))) in
            (h', rw same run, what)
        | inr other ↦
            let (i, live, _, _, (h', run, (after, sound', new_sid))) = frees h n sid k sound e in
            let (h'', run', (sound'', has, from)) =
              moves h' n path j sid qos sound' some_sid
                (ap (λ r. r.paths n path) after
                  ∙ path_stays (view h) k j i n path sound live
                      (λ same. false_true (sym other ∙ eq→== k j same)) f)
                new_sid in
            (
              h'',
              rw other (and_then _ run run'),
              (sound'', has, since_freed (view h) (view h') (view h'') k i path after from),
            )
      ]

  pub handle_subscribe-Subscribes :
      (tree : Tree.BrokerNode J) (groups : List Bytes) (n : Bytes) (h : Hub J) (path : Bytes)
      (s : ℕ) (qos : Option ℕ)
      → IsSound (view h)
      → ltb (get_permission path tree groups) permission_read ≡ false
      → s % 2 ^ 32 ≢ no_sid
      → ((view h).paths n path ≡ none → IsAttachable (view h) n path (broker_node_get h.root path))
      → Subscribes
          (view h)
          (handle_item services tree groups n h (some path) (some s) qos)
          n
          path
          (s % 2 ^ 32)
  handle_subscribe-Subscribes tree groups n h path s qos sound may some_sid can =
      let (h', run, what) =
        subscribe_as-Subscribes h n path (s % 2 ^ 32) (qos_of qos) ((view h).sids n (s % 2 ^ 32))
          ((view h).paths n path) sound some_sid refl refl can in
      (h', rw may run, what)
