-- ===== src/Broker/Subscribe/Freed.antt =====
-- broker/src/msg/msg_subscribe.c: the subscriber that had the id of a request is freed; what the tables have then.
use sdk_dslink_c.Prelude.{
  ℕ, ◌≡◌, ◌≢◌, refl, ap, ap₂, sym, subst, ◌∙◌, inl, inr, List, [], ◌∷◌, Option, none, some, ==_refl,
  ne→==,
}
use sdk_dslink_c.Prelude.Bytes.{Bytes, beq, beq→eq, beq_refl}
use sdk_dslink_c.Broker.Node.{regular, downstream, Found}
use sdk_dslink_c.Broker.Subscribe.{
  StreamKey, local_stream, remote_stream, same_key, find_req, remove_req, Hub,
}
use sdk_dslink_c.Broker.Subscribe.Handle.{no_sid, broker_free_sub_requester}
use sdk_dslink_c.Broker.Subscribe.Registry.{
  Identity, Registry, identity, identity_of, or_nil, unless_nil, left, removed, view, IsSound,
}
use sdk_dslink_c.Broker.Subscribe.Views.{Ends, same_key→eq, identity-some, listed_in-some}
use sdk_dslink_c.Broker.Subscribe.Free.{free_sub_requester-removes}
use sdk_dslink_c.Broker.Subscribe.Tables.{some_inj, assign-cases, assign₂-cases, find_remove_none}
use sdk_dslink_c.Broker.Subscribe.Leave.{removed-IsSound}
use sdk_dslink_c.Broker.Subscribe.Attach.{IsAttachable}

absent_left :
    (n : Bytes) (xs : List (Bytes × ℕ))
    → find_req n xs ≡ none
    → find_req n (or_nil (unless_nil xs)) ≡ none
absent_left n [] h = h
absent_left n (x ∷ xs) h = h

absent_after :
    (t : StreamKey → Option (List (Bytes × ℕ))) (o : Option StreamKey) (m n : Bytes)
    (key : StreamKey)
    → find_req n (or_nil (t key)) ≡ none
    → find_req n (or_nil (left o t m key)) ≡ none
absent_after t none m n key h = h
absent_after t (some own) m n key h =
    elim (assign-cases same_key t own (unless_nil (remove_req m (or_nil (t own)))) key) [
      | inr (_, kept) ↦ ap (λ o. find_req n (or_nil o)) kept ∙ h
      | inl (same, now) ↦
          ap (λ o. find_req n (or_nil o)) now
          ∙ absent_left n (remove_req m (or_nil (t own))) (
              find_remove_none m n (or_nil (t own))
                (ap (λ x. find_req n (or_nil (t x))) (sym (same_key→eq key own same)) ∙ h))
    ]

pub IsAttachable-after :
    (r : Registry) (k : ℕ) (i : Identity) (n path : Bytes) (found : Option Found)
    → IsAttachable r n path found
    → IsAttachable (removed r k i) n path found
IsAttachable-after r k i n path none can = can
IsAttachable-after r k i n path (some (regular p children, out)) can =
    absent_after r.members i.stream i.req_node n (local_stream p) can
IsAttachable-after r k i n path (some (downstream m, none)) can = can
IsAttachable-after r k i n path (some (downstream m, some out)) can =
    absent_after r.members i.stream i.req_node n (remote_stream m out) can

sid_removed :
    (r : Registry) (k : ℕ) (i : Identity)
    → i.req_sid ≢ no_sid
    → (removed r k i).sids i.req_node i.req_sid ≡ none
sid_removed r k i here =
    rw (ne→== i.req_sid no_sid here) (rw (beq_refl i.req_node, ==_refl i.req_sid) refl)

module _ {J : Type 0} where
  -- The subscriber of an id, removed.
  pub frees :
      (h : Hub J) (n : Bytes) (sid k : ℕ)
      → IsSound (view h)
      → (view h).sids n sid ≡ some k
      → (i : Identity) × ((view h).subs k ≡ some i)
        × (i.req_node ≡ n)
        × (i.req_sid ≡ sid)
        × Ends (broker_free_sub_requester h k) (λ h'.
          (view h' ≡ removed (view h) k i) × IsSound (view h') × ((view h').sids n sid ≡ none))
  frees h n sid k sound e =
      let (some_sid, (i, live, node, same)) = sound.by_sid n sid k e in
      let (sub, there, it) = identity-some (h.subs k) i live in
      let (h', run, (freed, _)) = free_sub_requester-removes h k sub there (λ key here.
        let (xs, members, _) = sound.in_stream k (identity_of sub) key (ap identity there) here in
        let (st, e', _) = listed_in-some (h.streams key) xs members in (st, e')) in
      let after = freed ∙ ap (removed (view h) k) it in
      (
        i,
        live,
        node,
        same,
        (
          h',
          run,
          (
            after,
            subst IsSound (sym after) (removed-IsSound (view h) k i sound live),
            ap (λ r. r.sids n sid) after
                ∙ ap₂ (removed (view h) k i).sids (sym node) (sym same)
                ∙ sid_removed (view h) k i (λ away. some_sid (sym same ∙ away)),
          ),
        ),
      )

pub path_stays_free :
    (r : Registry) (k : ℕ) (i : Identity) (n path : Bytes)
    → r.paths n path ≡ none
    → (removed r k i).paths n path ≡ none
path_stays_free r k i n path e =
    elim (assign₂-cases beq beq beq→eq r.paths i.req_node i.path none n path) [
      | inl (_, _, gone) ↦ gone
      | inr (_, kept) ↦ kept ∙ e
    ]

pub path_stays :
    (r : Registry) (k j : ℕ) (i : Identity) (n path : Bytes)
    → IsSound r
    → r.subs k ≡ some i
    → k ≢ j
    → r.paths n path ≡ some j
    → (removed r k i).paths n path ≡ some j
path_stays r k j i n path sound live apart e =
    elim (assign₂-cases beq beq beq→eq r.paths i.req_node i.path none n path) [
      | inr (_, kept) ↦ kept ∙ e
      | inl (node, same, _) ↦ absurd (
          apart (
            some_inj (
              sym (sound.in_paths k i live)
              ∙ ap₂ r.paths (sym node) (sym (beq→eq path i.path same))
              ∙ e)))
    ]
