-- ===== src/Broker/Subscribe/Add.antt =====
-- The tables and the streams of msg_subscribe.c stay consistent where a subscriber is added.
use sdk_dslink_c.Prelude.{
  ℕ, ◌≡◌, ◌≢◌, refl, ap, sym, ◌∙◌, ◌⊎◌, inl, inr, List, Option, none, some, arith, ◌==◌,
  if◌then◌else◌, Bool-cases, ==_refl, subst,
}
use sdk_dslink_c.Prelude.Bytes.{Bytes, beq, beq→eq, beq_refl}
use sdk_dslink_c.Broker.Subscribe.{StreamKey, same_key, find_req, set_req}
use sdk_dslink_c.Broker.Subscribe.Handle.{no_sid}
use sdk_dslink_c.Broker.Subscribe.Registry.{
  Identity, Registry, added, joined, or_nil, IsMember, AreMembers, IsSound,
}
use sdk_dslink_c.Broker.Subscribe.Views.{same_key→eq}
use sdk_dslink_c.Broker.Subscribe.Free.{same_key_refl}
use sdk_dslink_c.Broker.Subscribe.Tables.{
  some_inj, none_some, sids_eq, assign-cases, assign₂-cases, find_set_same, find_set_other,
  members_keep, members_set,
}

module _ (r : Registry) (i : Identity) (sound : IsSound r) (some_sid : i.req_sid ≢ no_sid)
    (new_path : r.paths i.req_node i.path ≡ none) (new_sid : r.sids i.req_node i.req_sid ≡ none)
    (new_member : (key : StreamKey)
      → i.stream ≡ some key
      → find_req i.req_node (or_nil (r.members key)) ≡ none) where
  itself : (added r i).subs r.next ≡ some i
  itself = rw (==_refl r.next) refl

  still : (j : ℕ) (i' : Identity) → r.subs j ≡ some i' → (added r i).subs j ≡ some i'
  still j i' e = elim (assign-cases ◌==◌ r.subs r.next (some i) j) [
    | inr (_, kept) ↦ kept ∙ e
    | inl (same, _) ↦
        none_some
          (sym (sound.fresh r.next (omega arith)) ∙ ap r.subs (sym (sids_eq j r.next same)) ∙ e)
  ]

  -- The new subscriber, or one that was there.
  who :
      (j : ℕ) (i' : Identity)
      → (added r i).subs j ≡ some i'
      → ((j ≡ r.next) × (i ≡ i')) ⊎ (r.subs j ≡ some i')
  who j i' e = elim (assign-cases ◌==◌ r.subs r.next (some i) j) [
    | inl (same, now) ↦ inl (sids_eq j r.next same, some_inj (sym now ∙ e))
    | inr (_, kept) ↦ inr (sym kept ∙ e)
  ]

  added_by_sid :
      (n : Bytes) (s j : ℕ)
      → (added r i).sids n s ≡ some j
      → (s ≢ no_sid)
        × ((i' : Identity) × ((added r i).subs j ≡ some i') × (i'.req_node ≡ n) × (i'.req_sid ≡ s))
  added_by_sid n s j e =
      elim (assign₂-cases beq ◌==◌ beq→eq r.sids i.req_node i.req_sid (some r.next) n s) [
        | inl (node, sid, now) ↦
            let same = sids_eq s i.req_sid sid in
            (
              λ away. some_sid (sym same ∙ away),
              (i, ap (added r i).subs (some_inj (sym e ∙ now)) ∙ itself, sym node, sym same),
            )
        | inr (_, kept) ↦
            let (sid, (i', live, node, same)) = sound.by_sid n s j (sym kept ∙ e) in
            (sid, (i', still j i' live, node, same))
      ]

  added_by_path :
      (n p : Bytes) (j : ℕ)
      → (added r i).paths n p ≡ some j
      → (i' : Identity) × ((added r i).subs j ≡ some i') × (i'.req_node ≡ n) × (i'.path ≡ p)
  added_by_path n p j e =
      elim (assign₂-cases beq beq beq→eq r.paths i.req_node i.path (some r.next) n p) [
        | inl (node, path, now) ↦ (
          i,
          ap (added r i).subs (some_inj (sym e ∙ now)) ∙ itself,
          sym node,
          sym (beq→eq p i.path path),
        )
        | inr (_, kept) ↦
            let (i', live, node, same) = sound.by_path n p j (sym kept ∙ e) in
            (i', still j i' live, node, same)
      ]

  -- What the tables had, they still have.
  path_still : (n p : Bytes) (j : ℕ) → r.paths n p ≡ some j → (added r i).paths n p ≡ some j
  path_still n p j e =
      elim (assign₂-cases beq beq beq→eq r.paths i.req_node i.path (some r.next) n p) [
        | inr (_, kept) ↦ kept ∙ e
        | inl (node, path, _) ↦ none_some (
            sym new_path
            ∙ ap (r.paths i.req_node) (sym (beq→eq p i.path path))
            ∙ ap (λ m. r.paths m p) (sym node)
            ∙ e)
      ]

  sid_still : (n : Bytes) (s j : ℕ) → r.sids n s ≡ some j → (added r i).sids n s ≡ some j
  sid_still n s j e =
      elim (assign₂-cases beq ◌==◌ beq→eq r.sids i.req_node i.req_sid (some r.next) n s) [
        | inr (_, kept) ↦ kept ∙ e
        | inl (node, sid, _) ↦ none_some (
            sym new_sid
            ∙ ap (r.sids i.req_node) (sym (sids_eq s i.req_sid sid))
            ∙ ap (λ m. r.sids m s) (sym node)
            ∙ e)
      ]

  pub path_now : (added r i).paths i.req_node i.path ≡ some r.next
  path_now = rw (beq_refl i.req_node, beq_refl i.path) refl

  pub sid_now : (added r i).sids i.req_node i.req_sid ≡ some r.next
  sid_now = rw (beq_refl i.req_node, ==_refl i.req_sid) refl

  joined_now :
      (o : Option StreamKey) (key : StreamKey)
      → o ≡ some key
      → (xs : List (Bytes × ℕ)) × (joined o r.members i.req_node r.next key ≡ some xs)
        × (find_req i.req_node xs ≡ some r.next)
  joined_now none key e = none_some e
  joined_now (some own) key e = (
    set_req i.req_node r.next (or_nil (r.members own)),
    ap (λ c. if c then some (set_req i.req_node r.next (or_nil (r.members own))) else r.members key)
        (ap (same_key key) (some_inj e) ∙ same_key_refl key),
    find_set_same i.req_node r.next (or_nil (r.members own)),
  )

  joined_still :
      (o : Option StreamKey) (j : ℕ) (i' : Identity) (key : StreamKey)
      → i.stream ≡ o
      → r.subs j ≡ some i'
      → i'.stream ≡ some key
      → (xs : List (Bytes × ℕ)) × (joined o r.members i.req_node r.next key ≡ some xs)
        × (find_req i'.req_node xs ≡ some j)
  joined_still none j i' key mine e here = sound.in_stream j i' key e here
  joined_still (some own) j i' key mine e here =
      let (xs, members, found) = sound.in_stream j i' key e here in
      let ys = set_req i.req_node r.next (or_nil (r.members own)) in
      elim (assign-cases same_key r.members own (some ys) key) [
        | inr (_, kept) ↦ (xs, kept ∙ members, found)
        | inl (same, now) ↦
            let found' =
              ap (λ o. find_req i'.req_node (or_nil o))
                (ap r.members (sym (same_key→eq key own same)) ∙ members)
              ∙ found in
            (
              ys,
              now,
              elim (Bool-cases (beq i'.req_node i.req_node)) [
                | inr other ↦
                    find_set_other i.req_node i'.req_node r.next (or_nil (r.members own)) other
                    ∙ found'
                | inl node ↦ none_some (
                    sym (new_member own mine)
                    ∙ ap (λ n. find_req n (or_nil (r.members own)))
                        (sym (beq→eq i'.req_node i.req_node node))
                    ∙ found')
              ],
            )
      ]

  IsMember-still :
      (key : StreamKey) (n : Bytes) (j : ℕ) → IsMember r key n j → IsMember (added r i) key n j
  IsMember-still key n j (i', live, node, stream) = (i', still j i' live, node, stream)

  none_or_members :
      (key : StreamKey) (o : Option (List (Bytes × ℕ)))
      → r.members key ≡ o
      → AreMembers r key (or_nil o)
  none_or_members key none e = tt
  none_or_members key (some xs) e = sound.of_stream key xs e

  joined_members :
      (o : Option StreamKey) (key : StreamKey) (xs : List (Bytes × ℕ))
      → i.stream ≡ o
      → joined o r.members i.req_node r.next key ≡ some xs
      → AreMembers (added r i) key xs
  joined_members none key xs mine e =
      members_keep r (added r i) key xs (IsMember-still key) (sound.of_stream key xs e)
  joined_members (some own) key xs mine e =
      elim (assign-cases same_key r.members own
        (some (set_req i.req_node r.next (or_nil (r.members own)))) key) [
          | inr (_, kept) ↦
              members_keep r (added r i) key xs (IsMember-still key)
                (sound.of_stream key xs (sym kept ∙ e))
          | inl (same, now) ↦
              let own_key = same_key→eq key own same in
              subst (AreMembers (added r i) key)
                (ap (λ q. set_req i.req_node r.next (or_nil (r.members q))) own_key
                  ∙ some_inj (sym now ∙ e))
                (members_set r (added r i) key i.req_node r.next (or_nil (r.members key))
                  (new_member key (mine ∙ ap some (sym own_key))) (IsMember-still key)
                  (i, itself, refl, mine ∙ ap some (sym own_key))
                  (none_or_members key (r.members key) refl))
        ]

  pub added-IsSound : IsSound (added r i)
  added-IsSound = record {
    by_sid = added_by_sid;
    by_path = added_by_path;
    in_paths = λ j i' e. elim (who j i' e) [
      | inr live ↦ path_still i'.req_node i'.path j (sound.in_paths j i' live)
      | inl (same, it) ↦
          ap (λ x. (added r i).paths x.req_node x.path) (sym it) ∙ path_now ∙ ap some (sym same)
    ];
    in_sids = λ j i' e. elim (who j i' e) [
      | inl (same, it) ↦
          inr (
            ap (λ x. (added r i).sids x.req_node x.req_sid) (sym it) ∙ sid_now ∙ ap some (sym same))
      | inr live ↦ elim (sound.in_sids j i' live) [
        | inl away ↦ inl away
        | inr listed ↦ inr (sid_still i'.req_node i'.req_sid j listed)
      ]
    ];
    in_stream = λ j i' key e here. elim (who j i' e) [
      | inr live ↦ joined_still i.stream j i' key refl live here
      | inl (same, it) ↦
          let (xs, members, found) = joined_now i.stream key (ap (λ x. x.stream) it ∙ here) in
          (xs, members, ap (λ x. find_req x.req_node xs) (sym it) ∙ found ∙ ap some (sym same))
    ];
    of_stream = λ key xs e. joined_members i.stream key xs refl e;
    fresh = λ j above. elim (assign-cases ◌==◌ r.subs r.next (some i) j) [
      | inl (same, _) ↦ absurd (omega (arith, sids_eq j r.next same))
      | inr (_, kept) ↦ kept ∙ sound.fresh j (omega arith)
    ];
  }
