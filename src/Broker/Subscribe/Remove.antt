-- ===== src/Broker/Subscribe/Remove.antt =====
-- The tables and the streams of msg_subscribe.c stay consistent where a subscriber is removed.
use sdk_dslink_c.Prelude.{
  ℕ, ◌≡◌, ◌≢◌, refl, ap, sym, ◌∙◌, inl, inr, none, some, ◌==◌, Bool-cases, eq→==,
}
use sdk_dslink_c.Prelude.Bytes.{Bytes, beq, beq→eq, beq_refl}
use sdk_dslink_c.Broker.Subscribe.Handle.{no_sid}
use sdk_dslink_c.Broker.Subscribe.Registry.{Identity, Registry, removed, IsSound, assign₂}
use sdk_dslink_c.Broker.Subscribe.Tables.{
  some_inj, none_some, sids_eq, false_true, assign-cases, assign₂-cases,
}

module _ (r : Registry) (k : ℕ) (i : Identity) (sound : IsSound r) (there : r.subs k ≡ some i) where
  -- Another subscriber stays.
  pub stays :
      (j : ℕ) (i' : Identity) → r.subs j ≡ some i' → j ≢ k → (removed r k i).subs j ≡ some i'
  stays j i' e apart = elim (assign-cases ◌==◌ r.subs k none j) [
    | inl (same, _) ↦ absurd (apart (sids_eq j k same))
    | inr (_, kept) ↦ kept ∙ e
  ]

  pub stayed :
      (j : ℕ) (i' : Identity) → (removed r k i).subs j ≡ some i' → (r.subs j ≡ some i') × (j ≢ k)
  stayed j i' e = elim (assign-cases ◌==◌ r.subs k none j) [
    | inl (_, gone) ↦ none_some (sym gone ∙ e)
    | inr (apart, kept) ↦ (sym kept ∙ e, λ same. false_true (sym apart ∙ eq→== j k same))
  ]

  -- The identity of the subscriber that is removed.
  pub its : (i' : Identity) (j : ℕ) → r.subs j ≡ some i' → j ≡ k → i' ≡ i
  its i' j e same = some_inj (sym e ∙ ap r.subs same ∙ there)

  -- Another subscriber has another path, or another requester.
  pub other_path :
      (j : ℕ) (i' : Identity)
      → r.subs j ≡ some i'
      → j ≢ k
      → (removed r k i).paths i'.req_node i'.path ≡ some j
  other_path j i' e apart =
      elim (assign₂-cases beq beq beq→eq r.paths i.req_node i.path none i'.req_node i'.path) [
        | inr (_, kept) ↦ kept ∙ sound.in_paths j i' e
        | inl (node, path, _) ↦ absurd (
            apart (
              some_inj (
                sym (sound.in_paths j i' e)
                ∙ ap (λ n. r.paths n i'.path) node
                ∙ ap (r.paths i.req_node) (beq→eq i'.path i.path path)
                ∙ sound.in_paths k i there)))
      ]

  -- What the table of the ids keeps, and all that it has.
  pub other_sid :
      (n : Bytes) (s j : ℕ) → r.sids n s ≡ some j → j ≢ k → (removed r k i).sids n s ≡ some j
  other_sid n s j e apart = elim (Bool-cases (i.req_sid == no_sid)) [
    | inl away ↦ rw away e
    | inr here ↦
        rw here (elim (assign₂-cases beq ◌==◌ beq→eq r.sids i.req_node i.req_sid none n s) [
          | inr (_, kept) ↦ kept ∙ e
          | inl (node, sid, _) ↦ elim (sound.in_sids k i there) [
            | inl gone ↦ false_true (sym here ∙ eq→== i.req_sid no_sid gone)
            | inr listed ↦ absurd (
                apart (
                  some_inj (
                    sym e
                    ∙ ap (λ m. r.sids m s) node
                    ∙ ap (r.sids i.req_node) (sids_eq s i.req_sid sid)
                    ∙ listed)))
          ]
        ])
  ]

  sid_before :
      (n : Bytes) (s j : ℕ)
      → (removed r k i).sids n s ≡ some j
      → (r.sids n s ≡ some j) × ((n ≡ i.req_node) → (s ≡ i.req_sid) → s ≡ no_sid)
  sid_before n s j e = elim (Bool-cases (i.req_sid == no_sid)) [
    | inl away ↦ (sym (rw away refl) ∙ e, λ _ same. same ∙ sids_eq i.req_sid no_sid away)
    | inr here ↦
        let e' : assign₂ beq ◌==◌ r.sids i.req_node i.req_sid none n s ≡ some j =
          sym (rw here refl) ∙ e in
        elim (assign₂-cases beq ◌==◌ beq→eq r.sids i.req_node i.req_sid none n s) [
          | inl (_, _, gone) ↦ none_some (sym gone ∙ e')
          | inr (inl apart, kept) ↦
              (sym kept ∙ e', λ node _. false_true (sym apart ∙ ap (beq n) (sym node) ∙ beq_refl n))
          | inr (inr apart, kept) ↦
              (sym kept ∙ e', λ _ same. false_true (sym apart ∙ eq→== s i.req_sid same))
        ]
  ]

  pub removed_by_sid :
      (n : Bytes) (s j : ℕ)
      → (removed r k i).sids n s ≡ some j
      → (s ≢ no_sid)
        × ((i' : Identity) × ((removed r k i).subs j ≡ some i')
            × (i'.req_node ≡ n)
            × (i'.req_sid ≡ s))
  removed_by_sid n s j e =
      let (before, only) = sid_before n s j e in
      let (sid, (i', live, node, same)) = sound.by_sid n s j before in
      (
        sid,
        (
          i',
          stays j i' live (λ gone. sid (
              only (sym node ∙ ap (λ x. x.req_node) (its i' j live gone))
                (sym same ∙ ap (λ x. x.req_sid) (its i' j live gone)))),
          node,
          same,
        ),
      )

  pub removed_by_path :
      (n p : Bytes) (j : ℕ)
      → (removed r k i).paths n p ≡ some j
      → (i' : Identity) × ((removed r k i).subs j ≡ some i') × (i'.req_node ≡ n) × (i'.path ≡ p)
  removed_by_path n p j e = elim (assign₂-cases beq beq beq→eq r.paths i.req_node i.path none n p) [
    | inl (_, _, gone) ↦ none_some (sym gone ∙ e)
    | inr (apart, kept) ↦
        let (i', live, node, same) = sound.by_path n p j (sym kept ∙ e) in
        (
          i',
          stays j i' live (λ gone. elim apart [
            | inl a ↦ false_true (
                sym a
                ∙ ap (λ x. beq x i.req_node) (sym node ∙ ap (λ x. x.req_node) (its i' j live gone))
                ∙ beq_refl i.req_node)
            | inr a ↦ false_true (
                sym a
                ∙ ap (λ x. beq x i.path) (sym same ∙ ap (λ x. x.path) (its i' j live gone))
                ∙ beq_refl i.path)
          ]),
          node,
          same,
        )
  ]
