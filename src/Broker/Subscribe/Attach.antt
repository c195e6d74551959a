-- ===== src/Broker/Subscribe/Attach.antt =====
-- broker/src/msg/msg_subscribe.c: the end of broker_add_new_subscription, where a subscriber gets to its stream or to
-- its place among those that wait; broker_downstream_node_base_len of broker/src/node/node.c.
use sdk_dslink_c.Prelude.{
  ℕ, ◌≤◌, ◌≡◌, refl, ap, sym, ◌∙◌, inl, inr, true, false, List, [], ◌∷◌, ◌++◌, Option, none, some,
  arith, ◌==◌, ltb, length, take, drop, if◌then◌else◌, Bool-cases,
}
use sdk_dslink_c.Prelude.Bytes.{Bytes}
use sdk_dslink_c.Prelude.Run.{ok}
use sdk_dslink_c.Broker.Node.{regular, downstream, Found}
use sdk_dslink_c.Broker.Subscribe.{
  StreamKey, local_stream, remote_stream, find_req, Subscriber, Hub, Services,
}
use sdk_dslink_c.Broker.Subscribe.Streams.{
  name_offset, end_of_name, index_of_slash, broker_downstream_node_base_len,
}
use sdk_dslink_c.Broker.Subscribe.Requests.{is_remote, attach}
use sdk_dslink_c.Broker.Subscribe.Registry.{
  Identity, Registry, identity_of, or_nil, added, view, IsSound,
}
use sdk_dslink_c.Broker.Subscribe.Views.{Ends, and_then, keeps_if}
use sdk_dslink_c.Broker.Subscribe.Free.{assign_twice}
use sdk_dslink_c.Broker.Subscribe.Join.{
  joined_as, handle_local_subscribe-joins, subscribe_remote-joins,
}

-- The stream of what broker_node_get found.
abbrev pub stream_for : Option Found → Option StreamKey
stream_for none = none
stream_for (some (regular p children, out)) = some (local_stream p)
stream_for (some (downstream n, none)) = none
stream_for (some (downstream n, some out)) = some (remote_stream n out)

-- Where a path of a link is missing, its name is not cut off before its second byte; where it is found, the requester
-- is not yet in its stream.
abbrev pub IsAttachable : Registry → Bytes → Bytes → Option Found → Type 0
IsAttachable r n path none = is_remote path ≡ true → 13 ≤ length path
IsAttachable r n path (some (regular p children, out)) =
    find_req n (or_nil (r.members (local_stream p))) ≡ none
IsAttachable r n path (some (downstream m, none)) = ⊥
IsAttachable r n path (some (downstream m, some out)) =
    find_req n (or_nil (r.members (remote_stream m out))) ≡ none

base_len_end : (offset : ℕ) (o : Option ℕ) → (len : ℕ) × (end_of_name offset o ≡ ok len)
base_len_end offset none = (0, refl)
base_len_end offset (some i) = (_, refl)

base_len_ends :
    (path : Bytes) → 13 ≤ length path → (len : ℕ) × (broker_downstream_node_base_len path ≡ ok len)
base_len_ends [] h = absurd (omega arith)
base_len_ends (a ∷ []) h = absurd (omega arith)
base_len_ends (a ∷ c ∷ rest) h =
    let path = a ∷ c ∷ rest in
    let (len, e) = base_len_end (name_offset c) (index_of_slash (drop (name_offset c) path)) in
    (len, rw (long_enough c path h) e)
  where
    long_enough :
        (c : ℕ) (path : Bytes) → 13 ≤ length path → ltb (length path) (name_offset c) ≡ false
    long_enough c path h = elim (Bool-cases (c == b'd')) [
      | inl d ↦ rw d (ground arith)
      | inr u ↦ rw u (ground arith)
    ]

abbrev pub in_stream_of : Registry → ℕ → Identity → Option StreamKey → Registry
in_stream_of r k i none = r
in_stream_of r k i (some key) = joined_as r k i key

-- The identity of a new subscriber, in its stream or before it has one.
abbrev pub identity_for : Bytes → Bytes → ℕ → Option StreamKey → Identity
identity_for n path sid stream = record {
  path = path;
  req_node = n;
  stream = stream;
  req_sid = sid;
}

pub joined_added :
    (r : Registry) (n path : Bytes) (sid : ℕ) (o : Option StreamKey)
    → in_stream_of (added r (identity_for n path sid none)) r.next (identity_for n path sid none) o
      ≡ added r (identity_for n path sid o)
joined_added r n path sid none = refl
joined_added r n path sid (some key) =
    ap (λ t. record (added r (identity_for n path sid (some key))) { subs = t })
      (assign_twice ◌==◌ r.subs r.next (some (identity_for n path sid none))
        (some (identity_for n path sid (some key))))

abbrev members_at : Registry → Option StreamKey → Option (List (Bytes × ℕ))
members_at r none = none
members_at r (some key) = r.members key

pub can_join :
    (r : Registry) (n path : Bytes) (found : Option Found) (key : StreamKey)
    → IsAttachable r n path found
    → stream_for found ≡ some key
    → find_req n (or_nil (r.members key)) ≡ none
can_join r n path none key can e = absurd cc
can_join r n path (some (regular p children, out)) key can e =
    ap (λ o. find_req n (or_nil (members_at r o))) (sym e) ∙ can
can_join r n path (some (downstream m, none)) key can e = absurd can
can_join r n path (some (downstream m, some out)) key can e =
    ap (λ o. find_req n (or_nil (members_at r o))) (sym e) ∙ can

module _ {J : Type 0} (services : Services J) where
  pub attach-view :
      (h : Hub J) (path : Bytes) (k : ℕ) (sub : Subscriber J) (found : Option Found) (r : Registry)
      → h.subs k ≡ some sub
      → IsAttachable r sub.req_node path found
      → IsSound (in_stream_of (view h) k (identity_of sub) (stream_for found))
      → Ends
          (attach services h path k found)
          (λ h'. view h' ≡ in_stream_of (view h) k (identity_of sub) (stream_for found))
  unfolding attach
  attach-view h path k sub none r live can sound = elim (Bool-cases (is_remote path)) [
    | inr here ↦
        (record h { local_pending = h.local_pending ++ ((path, k) ∷ []) }, rw here refl, refl)
    | inl away ↦
        let (len, e) = base_len_ends path (can away) in
        let (same, _) =
          keeps_if (len == 0) h h
            (record h { remote_pending = h.remote_pending ++ ((take len path, k) ∷ []) })
            (refl, refl) (refl, refl) in
        (
          if len == 0
              then h
              else record h { remote_pending = h.remote_pending ++ ((take len path, k) ∷ []) },
          rw away (and_then _ e refl),
          same,
        )
  ]
  attach-view h path k sub (some (regular p children, out)) r live can sound =
      handle_local_subscribe-joins services h p k sub live
  attach-view h path k sub (some (downstream n, none)) r live can sound = absurd can
  attach-view h path k sub (some (downstream n, some out)) r live can sound =
      subscribe_remote-joins services h n k out sub live sound
