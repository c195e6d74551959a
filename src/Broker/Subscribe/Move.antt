-- ===== src/Broker/Subscribe/Move.antt =====
-- The tables and the streams of msg_subscribe.c stay consistent where a subscriber gets another id.
use sdk_dslink_c.Prelude.{
  ℕ, ◌≡◌, ◌≢◌, refl, ap, ap₂, sym, ◌∙◌, ◌⊎◌, inl, inr, Option, none, some, ◌==◌, Bool-cases,
  ==_refl, eq→==,
}
use sdk_dslink_c.Prelude.Bytes.{Bytes, beq, beq→eq, beq_refl}
use sdk_dslink_c.Broker.Subscribe.{assign, find_req}
use sdk_dslink_c.Broker.Subscribe.Handle.{no_sid}
use sdk_dslink_c.Broker.Subscribe.Registry.{Identity, Registry, moved, IsSound}
use sdk_dslink_c.Broker.Subscribe.Tables.{
  some_inj, none_some, sids_eq, false_true, assign-cases, members_keep,
}

module _ (r : Registry) (k : ℕ) (i : Identity) (sid : ℕ) (sound : IsSound r)
    (there : r.subs k ≡ some i) (some_sid : sid ≢ no_sid)
    (new_sid : r.sids i.req_node sid ≡ none) where
  abbrev now : Identity
  now = record i { req_sid = sid }

  abbrev own_sids : ℕ → Option ℕ
  own_sids = assign ◌==◌ (assign ◌==◌ (r.sids i.req_node) i.req_sid none) sid (some k)

  itself : (moved r k i sid).subs k ≡ some now
  itself = rw (==_refl k) refl

  -- Another subscriber is what it was.
  still : (j : ℕ) (i' : Identity) → r.subs j ≡ some i' → j ≢ k → (moved r k i sid).subs j ≡ some i'
  still j i' e apart = elim (assign-cases ◌==◌ r.subs k (some now) j) [
    | inl (same, _) ↦ absurd (apart (sids_eq j k same))
    | inr (_, kept) ↦ kept ∙ e
  ]

  -- The subscriber of the new id, or another one.
  who :
      (j : ℕ) (i' : Identity)
      → (moved r k i sid).subs j ≡ some i'
      → ((j ≡ k) × (now ≡ i')) ⊎ ((r.subs j ≡ some i') × (j ≢ k))
  who j i' e = elim (assign-cases ◌==◌ r.subs k (some now) j) [
    | inl (same, set) ↦ inl (sids_eq j k same, some_inj (sym set ∙ e))
    | inr (apart, kept) ↦ inr (sym kept ∙ e, λ same. false_true (sym apart ∙ eq→== j k same))
  ]

  -- A subscriber with its id aside: the same path, requester and stream.
  after :
      (j : ℕ) (i' : Identity)
      → r.subs j ≡ some i'
      → (i'' : Identity) × ((moved r k i sid).subs j ≡ some i'')
        × (i''.req_node ≡ i'.req_node)
        × (i''.path ≡ i'.path)
        × (i''.stream ≡ i'.stream)
  after j i' e = elim (Bool-cases (j == k)) [
    | inr apart ↦
        (i', still j i' e (λ same. false_true (sym apart ∙ eq→== j k same)), refl, refl, refl)
    | inl same ↦
        let it = some_inj (sym there ∙ ap r.subs (sym (sids_eq j k same)) ∙ e) in
        (
          now,
          ap (moved r k i sid).subs (sids_eq j k same) ∙ itself,
          ap (λ x. x.req_node) it,
          ap (λ x. x.path) it,
          ap (λ x. x.stream) it,
        )
  ]

  before :
      (j : ℕ) (i' : Identity)
      → (moved r k i sid).subs j ≡ some i'
      → (i'' : Identity) × (r.subs j ≡ some i'')
        × (i''.req_node ≡ i'.req_node)
        × (i''.path ≡ i'.path)
        × (i''.stream ≡ i'.stream)
  before j i' e = elim (who j i' e) [
    | inr (live, _) ↦ (i', live, refl, refl, refl)
    | inl (same, it) ↦ (
      i,
      ap r.subs same ∙ there,
      ap (λ x. x.req_node) it,
      ap (λ x. x.path) it,
      ap (λ x. x.stream) it,
    )
  ]

  -- Another id of the requester, and an id of another one, lead where they led.
  abbrev SidOwner : Bytes → ℕ → ℕ → Type 0
  SidOwner n s j =
      (s ≢ no_sid)
      × ((i' : Identity) × ((moved r k i sid).subs j ≡ some i')
          × (i'.req_node ≡ n)
          × (i'.req_sid ≡ s))

  other_owner :
      (n : Bytes) (s j : ℕ)
      → r.sids n s ≡ some j
      → (n ≡ i.req_node → s ≢ i.req_sid)
      → SidOwner n s j
  other_owner n s j e apart =
      let (some_s, (i', live, node, same)) = sound.by_sid n s j e in
      (
        some_s,
        (
          i',
          still j i' live (λ gone.
              let it = some_inj (sym live ∙ ap r.subs gone ∙ there) in
              apart (sym node ∙ ap (λ x. x.req_node) it) (sym same ∙ ap (λ x. x.req_sid) it)),
          node,
          same,
        ),
      )

  own_owner : (n : Bytes) (s j : ℕ) → n ≡ i.req_node → own_sids s ≡ some j → SidOwner n s j
  own_owner n s j node e =
      elim (assign-cases ◌==◌ (assign ◌==◌ (r.sids i.req_node) i.req_sid none) sid (some k) s) [
        | inl (same, set) ↦ (
          λ away. some_sid (sym (sids_eq s sid same) ∙ away),
          (
            now,
            ap (moved r k i sid).subs (some_inj (sym e ∙ set)) ∙ itself,
            sym node,
            sym (sids_eq s sid same),
          ),
        )
        | inr (_, kept) ↦ elim (assign-cases ◌==◌ (r.sids i.req_node) i.req_sid none s) [
          | inl (_, gone) ↦ none_some (sym gone ∙ sym kept ∙ e)
          | inr (apart, kept') ↦
              other_owner n s j (ap (λ m. r.sids m s) node ∙ sym kept' ∙ sym kept ∙ e)
                (λ _ same. false_true (sym apart ∙ eq→== s i.req_sid same))
        ]
      ]

  moved_by_sid : (n : Bytes) (s j : ℕ) → (moved r k i sid).sids n s ≡ some j → SidOwner n s j
  moved_by_sid n s j e = elim (assign-cases beq r.sids i.req_node own_sids n) [
    | inl (node, set) ↦ own_owner n s j (beq→eq n i.req_node node) (sym (ap (λ t. t s) set) ∙ e)
    | inr (apart, kept) ↦
        other_owner n s j (sym (ap (λ t. t s) kept) ∙ e)
          (λ same _. false_true (sym apart ∙ ap (beq n) (sym same) ∙ beq_refl n))
  ]

  pub sid_moved : (moved r k i sid).sids i.req_node sid ≡ some k
  sid_moved = rw (beq_refl i.req_node, ==_refl sid) refl

  not_own : (s j : ℕ) → r.sids i.req_node s ≡ some j → j ≢ k → s ≢ i.req_sid
  not_own s j e apart same = elim (sound.in_sids k i there) [
    | inl away ↦ (sound.by_sid i.req_node s j e).0 (same ∙ away)
    | inr listed ↦ apart (some_inj (sym e ∙ ap (r.sids i.req_node) same ∙ listed))
  ]

  sid_still :
      (n : Bytes) (s j : ℕ) → r.sids n s ≡ some j → j ≢ k → (moved r k i sid).sids n s ≡ some j
  sid_still n s j e apart = elim (assign-cases beq r.sids i.req_node own_sids n) [
    | inr (_, kept) ↦ ap (λ t. t s) kept ∙ e
    | inl (node, set) ↦
        let mine = ap (λ m. r.sids m s) (sym (beq→eq n i.req_node node)) ∙ e in
        ap (λ t. t s) set
        ∙ elim (assign-cases ◌==◌ (assign ◌==◌ (r.sids i.req_node) i.req_sid none) sid (some k) s) [
          | inl (same, _) ↦
              none_some (sym new_sid ∙ ap (r.sids i.req_node) (sym (sids_eq s sid same)) ∙ mine)
          | inr (_, kept) ↦ kept ∙ elim (assign-cases ◌==◌ (r.sids i.req_node) i.req_sid none s) [
            | inr (_, kept') ↦ kept' ∙ mine
            | inl (same, _) ↦ absurd (not_own s j mine apart (sids_eq s i.req_sid same))
          ]
        ]
  ]

  moved_by_path :
      (n p : Bytes) (j : ℕ)
      → r.paths n p ≡ some j
      → (i' : Identity) × ((moved r k i sid).subs j ≡ some i') × (i'.req_node ≡ n) × (i'.path ≡ p)
  moved_by_path n p j e =
      let (i', live, node, same) = sound.by_path n p j e in
      let (i'', live', node', same', _) = after j i' live in
      (i'', live', node' ∙ node, same' ∙ same)

  pub moved-IsSound : IsSound (moved r k i sid)
  moved-IsSound = record {
    by_sid = moved_by_sid;
    by_path = moved_by_path;
    in_paths = λ j i' e.
        let (i'', live, node, path, _) = before j i' e in
        ap₂ r.paths (sym node) (sym path) ∙ sound.in_paths j i'' live;
    in_sids = λ j i' e. elim (who j i' e) [
      | inl (same, it) ↦ inr (
          ap (λ x. (moved r k i sid).sids x.req_node x.req_sid) (sym it)
          ∙ sid_moved
          ∙ ap some (sym same))
      | inr (live, apart) ↦ elim (sound.in_sids j i' live) [
        | inl away ↦ inl away
        | inr listed ↦ inr (sid_still i'.req_node i'.req_sid j listed apart)
      ]
    ];
    in_stream = λ j i' key e here.
        let (i'', live, node, _, stream) = before j i' e in
        let (xs, members, found) = sound.in_stream j i'' key live (stream ∙ here) in
        (xs, members, ap (λ n. find_req n xs) (sym node) ∙ found);
    of_stream = λ key xs e.
        members_keep r (moved r k i sid) key xs
          (λ m j (i', live, node, stream).
            let (i'', live', node', _, stream') = after j i' live in
            (i'', live', node' ∙ node, stream' ∙ stream))
          (sound.of_stream key xs e);
    fresh = λ j above. elim (assign-cases ◌==◌ r.subs k (some now) j) [
      | inl (same, _) ↦ none_some (sym (sound.fresh j above) ∙ ap r.subs (sids_eq j k same) ∙ there)
      | inr (_, kept) ↦ kept ∙ sound.fresh j above
    ];
  }
