-- ===== src/Broker/Subscribe/Origin.antt =====
-- broker/src/msg/msg_subscribe.c: where the subscribers of the tables come from: they were there with their path and
-- their stream, or they are of the path of the request, in the stream that it leads to.
use sdk_dslink_c.Prelude.{ℕ, ◌≡◌, refl, ap, sym, ◌∙◌, ◌⊎◌, inl, inr, none, some, ◌==◌}
use sdk_dslink_c.Prelude.Bytes.{Bytes}
use sdk_dslink_c.Broker.Node.{broker_node_get}
use sdk_dslink_c.Broker.Subscribe.Registry.{Identity, Registry, added, moved, removed}
use sdk_dslink_c.Broker.Subscribe.Tables.{some_inj, none_some, assign-cases}
use sdk_dslink_c.Broker.Subscribe.Attach.{stream_for, identity_for}

-- A subscriber of the path, or one that was there.
abbrev pub IsFrom : Registry → Bytes → Identity → Type 0
IsFrom r path i =
    ((j : ℕ) × (i' : Identity) × (r.subs j ≡ some i') × (i.path ≡ i'.path) × (i.stream ≡ i'.stream))
    ⊎ ((i.path ≡ path) × (i.stream ≡ stream_for (broker_node_get r.root path)))

pub record Origin (r : Registry) (path : Bytes) (r' : Registry) : Type 0 where
  pub root : r'.root ≡ r.root
  pub subs : (k : ℕ) (i : Identity) → r'.subs k ≡ some i → IsFrom r path i

pub Origin-refl : (r : Registry) (path : Bytes) → Origin r path r
Origin-refl r path = record { root = refl; subs = λ k i e. inl (k, i, e, refl, refl) }

pub Origin-trans :
    (r s t : Registry) (path : Bytes) → Origin r path s → Origin s path t → Origin r path t
Origin-trans r s t path first second = record {
  root = second.root ∙ first.root;
  subs = λ k i e. elim (second.subs k i e) [
    | inr (at_path, stream) ↦
        inr (at_path, stream ∙ ap (λ x. stream_for (broker_node_get x path)) first.root)
    | inl (j, i', live, at_path, stream) ↦ elim (first.subs j i' live) [
      | inr (at_path', stream') ↦ inr (at_path ∙ at_path', stream ∙ stream')
      | inl (j', i'', live', at_path', stream') ↦
          inl (j', i'', live', at_path ∙ at_path', stream ∙ stream')
    ]
  ];
}

pub Origin-removed :
    (r : Registry) (k : ℕ) (i : Identity) (path : Bytes) → Origin r path (removed r k i)
Origin-removed r k i path = record {
  root = refl;
  subs = λ j i' e. elim (assign-cases ◌==◌ r.subs k none j) [
    | inl (_, gone) ↦ none_some (sym gone ∙ e)
    | inr (_, kept) ↦ inl (j, i', sym kept ∙ e, refl, refl)
  ];
}

pub Origin-moved :
    (r : Registry) (k : ℕ) (i : Identity) (sid : ℕ) (path : Bytes)
    → r.subs k ≡ some i
    → Origin r path (moved r k i sid)
Origin-moved r k i sid path live = record {
  root = refl;
  subs = λ j i' e. elim (assign-cases ◌==◌ r.subs k (some (record i { req_sid = sid })) j) [
    | inl (_, now) ↦
        let it = some_inj (sym e ∙ now) in
        inl (k, i, live, ap (λ x. x.path) it, ap (λ x. x.stream) it)
    | inr (_, kept) ↦ inl (j, i', sym kept ∙ e, refl, refl)
  ];
}

pub Origin-added :
    (r : Registry) (n path : Bytes) (sid : ℕ)
    → Origin r path (added r (identity_for n path sid (stream_for (broker_node_get r.root path))))
Origin-added r n path sid = record {
  root = refl;
  subs = λ j i' e.
      elim (assign-cases ◌==◌ r.subs r.next
        (some (identity_for n path sid (stream_for (broker_node_get r.root path)))) j) [
          | inl (_, now) ↦
              let it = some_inj (sym e ∙ now) in inr (ap (λ x. x.path) it, ap (λ x. x.stream) it)
          | inr (_, kept) ↦ inl (j, i', sym kept ∙ e, refl, refl)
        ];
}
