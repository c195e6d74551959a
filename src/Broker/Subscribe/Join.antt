-- ===== src/Broker/Subscribe/Join.antt =====
-- broker/src/msg/msg_subscribe.c: a subscriber joins the stream of a node, which is made for the first one.
use sdk_dslink_c.Prelude.{
  ℕ, ◌≡◌, refl, ap, ap₂, sym, ◌∙◌, List, [], Option, none, some, ◌==◌, if◌then◌else◌, ==_refl,
}
use sdk_dslink_c.Prelude.Bytes.{Bytes}
use sdk_dslink_c.Broker.Node.{broker_node_incr_sid}
use sdk_dslink_c.Broker.Subscribe.{
  StreamKey, local_stream, remote_stream, same_key, assign, set_req, Subscriber, SubStream, Hub,
  Services, set_sub, set_stream, set_node,
}
use sdk_dslink_c.Broker.Subscribe.Requests.{
  local_made, remote_made, value_array, broker_handle_local_subscribe, broker_subscribe_remote,
}
use sdk_dslink_c.Broker.Subscribe.Registry.{
  Identity, Registry, identity_of, listed_in, or_nil, joined, with_stream, view, view-set_sub,
  view-set_stream, IsSound, assign_same,
}
use sdk_dslink_c.Broker.Subscribe.Views.{
  Ends, view_keeps_node, update_stream_qos_keeps, deref_then, and_then, same_key→eq,
}
use sdk_dslink_c.Broker.Subscribe.Free.{same_key_refl, assign_twice}
use sdk_dslink_c.Broker.Subscribe.Keeps.{stream_there}
use sdk_dslink_c.Broker.Subscribe.Values.{send_last_keeps}

-- A subscriber in a stream.
abbrev pub joined_as : Registry → ℕ → Identity → StreamKey → Registry
joined_as r k i key = record r {
  subs = assign ◌==◌ r.subs k (some (record i { stream = some key }));
  members = joined (some key) r.members i.req_node k;
}

-- The stream, with no subscriber if there was none.
abbrev pub with_made : Registry → StreamKey → Registry
with_made r key = with_stream r key (some (or_nil (r.members key)))

-- The same with the other members at hand.
abbrev joined_with : Registry → ℕ → Identity → StreamKey → List (Bytes × ℕ) → Registry
joined_with r k i key xs = record r {
  subs = assign ◌==◌ r.subs k (some (record i { stream = some key }));
  members = assign same_key r.members key (some (set_req i.req_node k xs));
}

joined_made :
    (r : Registry) (k : ℕ) (i : Identity) (key : StreamKey)
    → joined_as (with_made r key) k i key ≡ joined_as r k i key
joined_made r k i key =
    ap (λ t. record (joined_as r k i key) { members = t })
      (ap
          (λ c. assign same_key (with_made r key).members key (
            some (
              set_req i.req_node k
                (or_nil (if c then some (or_nil (r.members key)) else r.members key)))))
          (same_key_refl key)
        ∙ assign_twice same_key r.members key (some (or_nil (r.members key)))
            (some (set_req i.req_node k (or_nil (r.members key)))))

module _ {J : Type 0} where
  -- The hub in which the stream of the key is made.
  abbrev IsMade : Hub J → Hub J → StreamKey → Type 0
  IsMade h g key =
      (st : SubStream J) × (g.streams key ≡ some st)
      × (view g ≡ with_made (view h) key)
      × (g.subs ≡ h.subs)

  was_made :
      (h : Hub J) (key : StreamKey) (st : SubStream J)
      → h.streams key ≡ some st
      → view h ≡ with_made (view h) key
  was_made h key st e =
      ap (λ t. record (view h) { members = t })
        (sym (
          assign_same same_key (view h).members key (some (or_nil ((view h).members key))) (λ x q.
            ap (view h).members (same_key→eq x key q)
            ∙ ap listed_in e
            ∙ ap (λ o. some (or_nil (listed_in o))) (sym e))))

  newly-IsMade :
      (h g : Hub J) (key : StreamKey) (st : SubStream J)
      → h.streams key ≡ none
      → st.req_subs ≡ []
      → view g ≡ view h
      → g.subs ≡ h.subs
      → IsMade h (set_stream g key (some st)) key
  newly-IsMade h g key st e empty same subs = (
    st,
    rw (same_key_refl key) refl,
    view-set_stream g key (some st)
        ∙ ap₂ (λ r xs. with_stream r key (some xs)) same
            (empty ∙ ap (λ o. or_nil (listed_in o)) (sym e)),
    subs,
  )

  pub join-view :
      (h g : Hub J) (k : ℕ) (key : StreamKey) (sub : Subscriber J) (st : SubStream J)
      → h.subs k ≡ some sub
      → g.streams key ≡ some st
      → view g ≡ with_made (view h) key
      → g.subs ≡ h.subs
      → view (
          set_stream
            (set_sub g k (some (record sub { stream = some key })))
            key
            (some (record st { req_subs = set_req sub.req_node k st.req_subs })))
        ≡ joined_as (view h) k (identity_of sub) key
  join-view h g k key sub st live there made subs =
      view-set_stream (set_sub g k (some (record sub { stream = some key }))) key
        (some (record st { req_subs = set_req sub.req_node k st.req_subs }))
      ∙ ap (λ r. with_stream r key (some (set_req sub.req_node k st.req_subs)))
          (view-set_sub g k (some (record sub { stream = some key })))
      ∙ ap (λ o. joined_with (view g) k (identity_of sub) key (or_nil (listed_in o))) (sym there)
      ∙ ap (λ r. joined_as r k (identity_of sub) key) made
      ∙ joined_made (view h) k (identity_of sub) key

  local_IsMade :
      (services : Services J) (h : Hub J) (p : Bytes) (o : Option (SubStream J))
      → h.streams (local_stream p) ≡ o
      → IsMade h (local_made services h p o) (local_stream p)
  local_IsMade services h p (some st) e = (st, e, was_made h (local_stream p) st e, refl)
  local_IsMade services h p none e =
      newly-IsMade h h (local_stream p)
        (record {
          resp_sid = 0;
          resp_qos = 0;
          last_value = value_array services.with_ts (h.values p);
          req_subs = [];
        })
        e refl refl refl

  remote_IsMade :
      (services : Services J) (h : Hub J) (n p : Bytes) (o : Option (SubStream J))
      → h.streams (remote_stream n p) ≡ o
      → IsMade h (remote_made services h n p o) (remote_stream n p)
  remote_IsMade services h n p (some st) e = (st, e, was_made h (remote_stream n p) st e, refl)
  remote_IsMade services h n p none e =
      let (sid, id) = broker_node_incr_sid (h.nodes n).sid in
      let node = record (h.nodes n) {
        sid = sid;
        resp_sub_sids = assign ◌==◌ (h.nodes n).resp_sub_sids id (some p);
      } in
      newly-IsMade h (set_node h n node) (remote_stream n p)
        (record { resp_sid = id; resp_qos = 255; last_value = none; req_subs = [] }) e refl
        (view_keeps_node h n node refl refl) refl

  abbrev joins : Hub J → ℕ → StreamKey → Subscriber J → SubStream J → Hub J
  joins g k key sub st =
      set_stream (set_sub g k (some (record sub { stream = some key }))) key
        (some (record st { req_subs = set_req sub.req_node k st.req_subs }))

  pub handle_local_subscribe-joins :
      (services : Services J) (h : Hub J) (p : Bytes) (k : ℕ) (sub : Subscriber J)
      → h.subs k ≡ some sub
      → Ends
          (broker_handle_local_subscribe services h p k)
          (λ h'. view h' ≡ joined_as (view h) k (identity_of sub) (local_stream p))
  unfolding broker_handle_local_subscribe
  handle_local_subscribe-joins services h p k sub live =
      let key = local_stream p in
      let g = local_made services h p (h.streams key) in
      let (st, there, made, subs) = local_IsMade services h p (h.streams key) refl in
      let (h', run, same) =
        send_last_keeps services (joins g k key sub st) k (record sub { stream = some key }) key
          (record st { req_subs = set_req sub.req_node k st.req_subs }) (rw (==_refl k) refl)
          (rw (same_key_refl key) refl) in
      (
        h',
        and_then _ (deref_then _ (ap (λ t. t k) subs ∙ live) (deref_then _ there refl)) run,
        same ∙ join-view h g k key sub st live there made subs,
      )

  pub subscribe_remote-joins :
      (services : Services J) (h : Hub J) (n : Bytes) (k : ℕ) (p : Bytes) (sub : Subscriber J)
      → h.subs k ≡ some sub
      → IsSound (joined_as (view h) k (identity_of sub) (remote_stream n p))
      → Ends
          (broker_subscribe_remote services h n k p)
          (λ h'. view h' ≡ joined_as (view h) k (identity_of sub) (remote_stream n p))
  unfolding broker_subscribe_remote
  subscribe_remote-joins services h n k p sub live sound =
      let key = remote_stream n p in
      let sub' = record sub { stream = some key } in
      let g = remote_made services h n p (h.streams key) in
      let (st, there, made, subs) = remote_IsMade services h n p (h.streams key) refl in
      let g' = joins g k key sub st in
      let joined_view = join-view h g k key sub st live there made subs in
      let now : g'.subs k ≡ some sub' = rw (==_refl k) refl in
      let (h1, run, (same, kept)) = update_stream_qos_keeps g' (some key) (λ own e.
        stream_there g' (joined_as (view h) k (identity_of sub) key) k sub' own sound joined_view
          now e) in
      let now' : h1.subs k ≡ some sub' = ap (λ t. t k) kept ∙ now in
      let (st', there', _) =
        stream_there h1 (joined_as (view h) k (identity_of sub) key) k sub' key sound
          (same ∙ joined_view) now' refl in
      let (h2, run', same') = send_last_keeps services h1 k sub' key st' now' there' in
      (
        h2,
        and_then _ (deref_then _ (ap (λ t. t k) subs ∙ live) (deref_then _ there refl))
            (and_then _ run run'),
        same' ∙ same ∙ joined_view,
      )
