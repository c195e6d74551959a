-- ===== src/Broker/Subscribe/Leave.antt =====
-- The streams of msg_subscribe.c where a subscriber is removed, and the whole after that.
use sdk_dslink_c.Prelude.{
  ℕ, ◌≡◌, ◌≢◌, refl, ap, sym, subst, ◌∙◌, inl, inr, false, List, [], ◌∷◌, Option, none, some, ◌==◌,
  Bool-cases,
}
use sdk_dslink_c.Prelude.Bytes.{Bytes, beq, beq→eq, beq_refl}
use sdk_dslink_c.Broker.Subscribe.{StreamKey, same_key, find_req, remove_req}
use sdk_dslink_c.Broker.Subscribe.Registry.{
  Identity, Registry, removed, left, unless_nil, or_nil, IsMember, AreMembers, IsSound,
}
use sdk_dslink_c.Broker.Subscribe.Views.{same_key→eq}
use sdk_dslink_c.Broker.Subscribe.Free.{same_key_refl}
use sdk_dslink_c.Broker.Subscribe.Tables.{
  some_inj, none_some, false_true, assign-cases, find_remove_other, found_some, members_keep,
  members_remove,
}
use sdk_dslink_c.Broker.Subscribe.Remove.{
  stays, stayed, its, other_path, other_sid, removed_by_sid, removed_by_path,
}

module _ (r : Registry) (k : ℕ) (i : Identity) (sound : IsSound r) (there : r.subs k ≡ some i) where
  -- Two subscribers of one requester are not in one stream.
  alone :
      (j : ℕ) (i' : Identity) (key : StreamKey)
      → r.subs j ≡ some i'
      → j ≢ k
      → i'.stream ≡ some key
      → i.stream ≡ some key
      → beq i'.req_node i.req_node ≡ false
  alone j i' key e apart here mine = elim (Bool-cases (beq i'.req_node i.req_node)) [
    | inr other ↦ other
    | inl same ↦
        let (xs, members, found) = sound.in_stream j i' key e here in
        let (ys, members', found') = sound.in_stream k i key there mine in
        absurd (
          apart (
            some_inj (
              sym found
              ∙ ap (λ n. find_req n xs) (beq→eq i'.req_node i.req_node same)
              ∙ ap (find_req i.req_node) (some_inj (sym members ∙ members'))
              ∙ found')))
  ]

  members_left :
      (o : Option StreamKey) (j : ℕ) (i' : Identity) (key : StreamKey)
      → i.stream ≡ o
      → r.subs j ≡ some i'
      → j ≢ k
      → i'.stream ≡ some key
      → (xs : List (Bytes × ℕ)) × (left o r.members i.req_node key ≡ some xs)
        × (find_req i'.req_node xs ≡ some j)
  members_left none j i' key mine e apart here = sound.in_stream j i' key e here
  members_left (some own) j i' key mine e apart here =
      let (xs, members, found) = sound.in_stream j i' key e here in
      elim (assign-cases same_key r.members own
        (unless_nil (remove_req i.req_node (or_nil (r.members own)))) key) [
          | inr (_, kept) ↦ (xs, kept ∙ members, found)
          | inl (same, now) ↦
              let own_key = same_key→eq key own same in
              let found' =
                find_remove_other i.req_node i'.req_node xs
                  (alone j i' key e apart here (mine ∙ ap some (sym own_key)))
                ∙ found in
              (
                remove_req i.req_node xs,
                now
                    ∙ ap (λ o. unless_nil (remove_req i.req_node (or_nil o)))
                        (ap r.members (sym own_key) ∙ members)
                    ∙ found_some i'.req_node j (remove_req i.req_node xs) found',
                found',
              )
        ]

  -- A member of a stream that the removed subscriber is not in, and one of another requester, stay.
  IsMember-stays :
      (key : StreamKey) (n : Bytes) (j : ℕ)
      → (j ≡ k → i.stream ≡ some key → i.req_node ≢ n)
      → IsMember r key n j
      → IsMember (removed r k i) key n j
  IsMember-stays key n j not_it (i', live, node, stream) = (
    i',
    stays r k i sound there j i' live (λ gone.
        not_it gone (sym (ap (λ x. x.stream) (its r k i sound there i' j live gone)) ∙ stream)
          (sym (ap (λ x. x.req_node) (its r k i sound there i' j live gone)) ∙ node)),
    node,
    stream,
  )

  unless_nil-some : (xs ys : List (Bytes × ℕ)) → unless_nil xs ≡ some ys → xs ≡ ys
  unless_nil-some [] ys h = none_some h
  unless_nil-some (x ∷ xs) ys h = some_inj h

  nodes_apart : (m : Bytes) → beq i.req_node m ≡ false → i.req_node ≢ m
  nodes_apart m apart same = false_true (sym apart ∙ ap (λ x. beq x m) same ∙ beq_refl m)

  left_members :
      (o : Option StreamKey) (key : StreamKey) (xs : List (Bytes × ℕ))
      → i.stream ≡ o
      → left o r.members i.req_node key ≡ some xs
      → AreMembers (removed r k i) key xs
  left_members none key xs mine e =
      members_keep r (removed r k i) key xs
        (λ m j. IsMember-stays key m j (λ _ stream. none_some (sym mine ∙ stream)))
        (sound.of_stream key xs e)
  left_members (some own) key xs mine e =
      elim (assign-cases same_key r.members own
        (unless_nil (remove_req i.req_node (or_nil (r.members own)))) key) [
          | inr (apart, kept) ↦
              members_keep r (removed r k i) key xs
                (λ m j. IsMember-stays key m j (λ _ stream. false_true (
                  sym apart
                  ∙ ap (same_key key) (some_inj (sym mine ∙ stream))
                  ∙ same_key_refl key)))
                (sound.of_stream key xs (sym kept ∙ e))
          | inl (same, now) ↦
              let (ys, members, _) = sound.in_stream k i own there mine in
              let all =
                unless_nil-some (remove_req i.req_node (or_nil (r.members own))) xs (sym now ∙ e) in
              subst (AreMembers (removed r k i) key)
                (ap (λ o. remove_req i.req_node (or_nil o)) (sym members) ∙ all)
                (members_remove r (removed r k i) key i.req_node ys
                  (λ m j apart. IsMember-stays key m j (λ _ _. nodes_apart m apart))
                  (sound.of_stream key ys (ap r.members (same_key→eq key own same) ∙ members)))
        ]

  pub removed-IsSound : IsSound (removed r k i)
  removed-IsSound = record {
    by_sid = removed_by_sid r k i sound there;
    by_path = removed_by_path r k i sound there;
    in_paths = λ j i' e.
        let (live, apart) = stayed r k i sound there j i' e in
        other_path r k i sound there j i' live apart;
    in_sids = λ j i' e.
        let (live, apart) = stayed r k i sound there j i' e in
        elim (sound.in_sids j i' live) [
          | inl away ↦ inl away
          | inr listed ↦ inr (other_sid r k i sound there i'.req_node i'.req_sid j listed apart)
        ];
    in_stream = λ j i' key e here.
        let (live, apart) = stayed r k i sound there j i' e in
        members_left i.stream j i' key refl live apart here;
    of_stream = λ key xs e. left_members i.stream key xs refl e;
    fresh = λ j above. elim (assign-cases ◌==◌ r.subs k none j) [
      | inl (_, gone) ↦ gone
      | inr (_, kept) ↦ kept ∙ sound.fresh j above
    ];
  }
