-- ===== src/Broker/Subscribe/Views.antt =====
-- The steps of broker/src/subscription.c and msg_subscribe.c that leave the tables and the streams as they are: updates
-- of the quality of service, of queues and of values.
use sdk_dslink_c.Prelude.{
  ℕ, ◌≡◌, refl, ap, sym, ◌∙◌, Bool, not, ◌&&◌, true, false, List, [], ◌∷◌, Option, none, some, ◌==◌,
  ltb, ==_iff, ne→==, ◌≢◌, if◌then◌else◌, Bool-cases, inl, inr,
}
use sdk_dslink_c.Prelude.Bytes.{Bytes, beq, beq→eq}
use sdk_dslink_c.Prelude.Run.{Run, ok, ◌>>=◌}
use sdk_dslink_c.Broker.Subscribe.{
  StreamKey, local_stream, remote_stream, same_key, assign, Subscriber, SubStream, Downstream, Hub,
  deref, set_sub, set_stream, set_node,
}
use sdk_dslink_c.Broker.Subscribe.Streams.{
  max_qos, broker_update_stream_qos, send_subscribe_request, save_qos_queue, clear_qos_queue,
  cleared,
}
use sdk_dslink_c.Broker.Subscribe.Registry.{
  Identity, identity, identity_of, listed_in, view, assign_same, view-set_sub, view-set_stream,
  view-set_node, AreMembers,
}

-- The run returns a value with the property.
abbrev pub Ends : {A : Type 0} → Run A → (A → Type 0) → Type 0
Ends {A = A} m P = (a : A) × (m ≡ ok a) × P a

-- Runs by their steps.
pub deref_then :
    {A B : Type 0} {o : Option A} {a : A} {m : Run B} (f : A → Run B)
    → o ≡ some a
    → f a ≡ m
    → (deref o >>= f) ≡ m
deref_then f e run = ap (λ o. deref o >>= f) e ∙ run

pub and_then :
    {A B : Type 0} {m : Run A} {a : A} {n : Run B} (f : A → Run B)
    → m ≡ ok a
    → f a ≡ n
    → (m >>= f) ≡ n
and_then f e run = ap (λ m. m >>= f) e ∙ run

pub both_true : (a b : Bool) → a && b ≡ true → (a ≡ true) × (b ≡ true)
both_true true b h = (refl, h)
both_true false b h = absurd cc

pub same_key→eq : (x y : StreamKey) → same_key x y ≡ true → x ≡ y
same_key→eq (local_stream p) (local_stream q) h = ap local_stream (beq→eq p q h)
same_key→eq (local_stream p) (remote_stream n q) h = absurd cc
same_key→eq (remote_stream m p) (local_stream q) h = absurd cc
same_key→eq (remote_stream m p) (remote_stream n q) h =
    let (e, f) = both_true (beq m n) (beq p q) h in rw (beq→eq m n e, beq→eq p q f) refl

module _ {J : Type 0} where
  pub identity-some :
      (o : Option (Subscriber J)) (i : Identity)
      → identity o ≡ some i
      → (sub : Subscriber J) × (o ≡ some sub) × (identity_of sub ≡ i)
  identity-some none i h = absurd cc
  identity-some (some sub) i h = (sub, refl, cc)

  pub listed_in-some :
      (o : Option (SubStream J)) (xs : List (Bytes × ℕ))
      → listed_in o ≡ some xs
      → (st : SubStream J) × (o ≡ some st) × (st.req_subs ≡ xs)
  listed_in-some none xs h = absurd cc
  listed_in-some (some st) xs h = (st, refl, cc)

  pub view_keeps_sub :
      (h : Hub J) (k : ℕ) (sub sub' : Subscriber J)
      → h.subs k ≡ some sub
      → identity_of sub' ≡ identity_of sub
      → view (set_sub h k (some sub')) ≡ view h
  view_keeps_sub h k sub sub' e same =
      view-set_sub h k (some sub')
      ∙ ap (λ t. record (view h) { subs = t })
          (assign_same ◌==◌ (view h).subs k (identity (some sub')) (λ x q.
            ap (λ j. identity (h.subs j)) ((==_iff x k).0 q) ∙ ap identity e ∙ ap some (sym same)))

  pub view_keeps_stream :
      (h : Hub J) (key : StreamKey) (st st' : SubStream J)
      → h.streams key ≡ some st
      → st'.req_subs ≡ st.req_subs
      → view (set_stream h key (some st')) ≡ view h
  view_keeps_stream h key st st' e same =
      view-set_stream h key (some st')
      ∙ ap (λ t. record (view h) { members = t })
          (assign_same same_key (view h).members key (listed_in (some st')) (λ x q.
            ap (λ j. listed_in (h.streams j)) (same_key→eq x key q)
            ∙ ap listed_in e
            ∙ ap some (sym same)))

  pub view_keeps_node :
      (h : Hub J) (n : Bytes) (node : Downstream)
      → node.req_sub_paths ≡ (h.nodes n).req_sub_paths
      → node.req_sub_sids ≡ (h.nodes n).req_sub_sids
      → view (set_node h n node) ≡ view h
  view_keeps_node h n node paths sids =
      view-set_node h n node
      ∙ ap (λ t. record (view h) { paths = t; sids = assign beq (view h).sids n node.req_sub_sids })
          (assign_same beq (view h).paths n node.req_sub_paths
            (λ x q. ap (λ j. (h.nodes j).req_sub_paths) (beq→eq x n q) ∙ sym paths))
      ∙ ap (λ t. record (view h) { sids = t })
          (assign_same beq (view h).sids n node.req_sub_sids
            (λ x q. ap (λ j. (h.nodes j).req_sub_sids) (beq→eq x n q) ∙ sym sids))

  max_qos_step :
      (h : Hub J) (m k m' : ℕ) (n : Bytes) (xs : List (Bytes × ℕ)) (sub : Subscriber J)
      → h.subs k ≡ some sub
      → max_qos h (if ltb m sub.qos then sub.qos else m) xs ≡ ok m'
      → max_qos h m ((n, k) ∷ xs) ≡ ok m'
  unfolding max_qos
  max_qos_step h m k m' n xs sub e run = rw e run

  pub max_qos_ends :
      (h : Hub J) (m : ℕ) (key : StreamKey) (xs : List (Bytes × ℕ))
      → AreMembers (view h) key xs
      → Ends (max_qos h m xs) (λ _. Unit)
  unfolding max_qos
  max_qos_ends h m key [] members = (m, refl, tt)
  max_qos_ends h m key ((n, k) ∷ xs) ((i, live, _, _), _, members) =
      let (sub, e, _) = identity-some (h.subs k) i live in
      let (m', run, u) = max_qos_ends h (if ltb m sub.qos then sub.qos else m) key xs members in
      (m', max_qos_step h m k m' n xs sub e run, u)

  -- The view and the subscribers of the state that a branch gives.
  pub keeps_if :
      (b : Bool) (h x y : Hub J)
      → (view x ≡ view h) × (x.subs ≡ h.subs)
      → (view y ≡ view h) × (y.subs ≡ h.subs)
      → (view (if b then x else y) ≡ view h) × ((if b then x else y).subs ≡ h.subs)
  keeps_if true h x y p q = p
  keeps_if false h x y p q = q

  -- Where its stream exists and has only subscribers as members, broker_update_stream_qos ends.
  pub update_stream_qos_keeps :
      (h : Hub J) (o : Option StreamKey)
      → ((key : StreamKey)
          → o ≡ some key
          → (st : SubStream J) × (h.streams key ≡ some st) × AreMembers (view h) key st.req_subs)
      → Ends (broker_update_stream_qos h o) (λ h'. (view h' ≡ view h) × (h'.subs ≡ h.subs))
  unfolding broker_update_stream_qos
  update_stream_qos_keeps h none there = (h, refl, (refl, refl))
  update_stream_qos_keeps h (some (local_stream p)) there =
      let (st, e, _) = there (local_stream p) refl in (h, rw e refl, (refl, refl))
  update_stream_qos_keeps h (some (remote_stream n p)) there =
      let (st, e, members) = there (remote_stream n p) refl in
      let (m, run, _) = max_qos_ends h 0 (remote_stream n p) st.req_subs members in
      let h' = set_stream h (remote_stream n p) (some (record st { resp_qos = m })) in
      let same = view_keeps_stream h (remote_stream n p) st (record st { resp_qos = m }) e refl in
      (
        if not (m == st.resp_qos) && (h.nodes n).connected
            then send_subscribe_request h' n p st.resp_sid m
            else h',
        rw (e, run) refl,
        keeps_if (not (m == st.resp_qos) && (h.nodes n).connected) h
            (send_subscribe_request h' n p st.resp_sid m) h'
            (view_keeps_node h' n (record (h'.nodes n) { rid = _ }) refl refl ∙ same, refl)
            (same, refl),
      )

  -- Every subscriber but one is what it was.
  abbrev pub SameOthers : ℕ → Hub J → Hub J → Type 0
  SameOthers k h h' = (j : ℕ) → j ≢ k → h'.subs j ≡ h.subs j

  pub clear_keeps :
      (h : Hub J) (k : ℕ) (serialize : Bool) (sub : Subscriber J)
      → h.subs k ≡ some sub
      → Ends (clear_qos_queue h k serialize) (λ h'. (view h' ≡ view h) × SameOthers k h h')
  clear_keeps h k serialize sub e =
      let sub' = record sub { qos_queue = cleared sub.qos_queue } in
      let same = view_keeps_sub h k sub sub' e refl in
      (
        if serialize && ltb 2 sub.qos
            then save_qos_queue (set_sub h k (some sub')) sub'
            else set_sub h k (some sub'),
        rw e refl,
        elim (Bool-cases (serialize && ltb 2 sub.qos)) [
          | inl b ↦ rw b (same, λ j other. rw (ne→== j k other) refl)
          | inr b ↦ rw b (same, λ j other. rw (ne→== j k other) refl)
        ],
      )
