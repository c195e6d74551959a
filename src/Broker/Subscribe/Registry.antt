-- ===== src/Broker/Subscribe/Registry.antt =====
-- What the tree, the tables and the streams of msg_subscribe.c say of the subscribers, without quality of service, queues,
-- values and counters; and what a new, a renamed and a removed subscriber make of it.
use sdk_dslink_c.Prelude.{
  ℕ, suc, ◌≤◌, ◌≡◌, ◌≢◌, ◌⊎◌, refl, ap, sym, fun_ext, ◌∙◌, Bool, true, List, [], ◌∷◌, Option, none,
  some, ◌==◌, if◌then◌else◌, Bool-cases, inl, inr,
}
use sdk_dslink_c.Prelude.Bytes.{Bytes, beq}
use sdk_dslink_c.Broker.Node.{BrokerNode}
use sdk_dslink_c.Broker.Subscribe.{
  StreamKey, same_key, assign, find_req, set_req, remove_req, Subscriber, SubStream, Downstream,
  Hub, set_sub, set_stream, set_node,
}
use sdk_dslink_c.Broker.Subscribe.Handle.{no_sid}

pub record Identity : Type 0 where
  pub path : Bytes
  pub req_node : Bytes
  pub stream : Option StreamKey
  pub req_sid : ℕ

pub record Registry : Type 0 where
  pub root : BrokerNode
  pub subs : ℕ → Option Identity
  pub paths : Bytes → Bytes → Option ℕ
  pub sids : Bytes → ℕ → Option ℕ
  -- `reqSubs` of each stream
  pub members : StreamKey → Option (List (Bytes × ℕ))
  pub next : ℕ

module _ {J : Type 0} where
  abbrev pub identity_of : Subscriber J → Identity
  identity_of sub = record {
    path = sub.path;
    req_node = sub.req_node;
    stream = sub.stream;
    req_sid = sub.req_sid;
  }

  abbrev pub identity : Option (Subscriber J) → Option Identity
  identity none = none
  identity (some sub) = some (identity_of sub)

  abbrev pub listed_in : Option (SubStream J) → Option (List (Bytes × ℕ))
  listed_in none = none
  listed_in (some st) = some st.req_subs

  abbrev pub view : Hub J → Registry
  view h = record {
    root = h.root;
    subs = λ k. identity (h.subs k);
    paths = λ n. (h.nodes n).req_sub_paths;
    sids = λ n. (h.nodes n).req_sub_sids;
    members = λ key. listed_in (h.streams key);
    next = h.next;
  }

-- An entry of a table of tables.
abbrev pub assign₂ {ℓ κ μ} :
    {N : Type ℓ} {K : Type κ} {V : Type μ}
    → (N → N → Bool)
    → (K → K → Bool)
    → (N → K → V)
    → N
    → K
    → V
    → N
    → K
    → V
assign₂ eqn eqk t n key v = assign eqn t n (assign eqk (t n) key v)

abbrev pub or_nil : Option (List (Bytes × ℕ)) → List (Bytes × ℕ)
or_nil none = []
or_nil (some xs) = xs

-- A stream without subscribers ends.
abbrev pub unless_nil : List (Bytes × ℕ) → Option (List (Bytes × ℕ))
unless_nil [] = none
unless_nil (x ∷ xs) = some (x ∷ xs)

abbrev pub joined :
    Option StreamKey
    → (StreamKey → Option (List (Bytes × ℕ)))
    → Bytes
    → ℕ
    → StreamKey
    → Option (List (Bytes × ℕ))
joined none t n k = t
joined (some key) t n k = assign same_key t key (some (set_req n k (or_nil (t key))))

abbrev pub left :
    Option StreamKey
    → (StreamKey → Option (List (Bytes × ℕ)))
    → Bytes
    → StreamKey
    → Option (List (Bytes × ℕ))
left none t n = t
left (some key) t n = assign same_key t key (unless_nil (remove_req n (or_nil (t key))))

-- A new subscriber, in its stream if it has one.
abbrev pub added : Registry → Identity → Registry
added r i = record {
  root = r.root;
  subs = assign ◌==◌ r.subs r.next (some i);
  paths = assign₂ beq beq r.paths i.req_node i.path (some r.next);
  sids = assign₂ beq ◌==◌ r.sids i.req_node i.req_sid (some r.next);
  members = joined i.stream r.members i.req_node r.next;
  next = suc r.next;
}

abbrev pub moved : Registry → ℕ → Identity → ℕ → Registry
moved r k i sid = record r {
  subs = assign ◌==◌ r.subs k (some (record i { req_sid = sid }));
  sids =
      assign beq r.sids i.req_node
        (assign ◌==◌ (assign ◌==◌ (r.sids i.req_node) i.req_sid none) sid (some k));
}

abbrev pub removed : Registry → ℕ → Identity → Registry
removed r k i = record r {
  subs = assign ◌==◌ r.subs k none;
  paths = assign₂ beq beq r.paths i.req_node i.path none;
  sids = if i.req_sid == no_sid then r.sids else assign₂ beq ◌==◌ r.sids i.req_node i.req_sid none;
  members = left i.stream r.members i.req_node;
}

-- Without the subscriber of a number and with these streams.
abbrev pub but : Registry → ℕ → (StreamKey → Option (List (Bytes × ℕ))) → Registry
but r k members = record r { subs = assign ◌==◌ r.subs k none; members = members }

abbrev pub with_stream : Registry → StreamKey → Option (List (Bytes × ℕ)) → Registry
with_stream r key v = record r { members = assign same_key r.members key v }

abbrev pub with_sids : Registry → (Bytes → ℕ → Option ℕ) → Registry
with_sids r t = record r { sids = t }

-- A member of a stream is a subscriber of its requester, with a pointer to that stream.
abbrev pub IsMember : Registry → StreamKey → Bytes → ℕ → Type 0
IsMember r key n k = (i : Identity) × (r.subs k ≡ some i) × (i.req_node ≡ n) × (i.stream ≡ some key)

-- With no requester twice.
abbrev pub AreMembers : Registry → StreamKey → List (Bytes × ℕ) → Type 0
AreMembers r key [] = Unit
AreMembers r key ((n, k) ∷ xs) = IsMember r key n k × (find_req n xs ≡ none) × AreMembers r key xs

-- The tables of each requester lead to its subscribers and back; only a subscriber whose requester is away has no
-- entry by its id. A subscriber is in the stream that it points to, and the members of a stream point to it.
pub record IsSound (r : Registry) : Type 0 where
  pub by_sid :
      (n : Bytes) (s k : ℕ)
      → r.sids n s ≡ some k
      → (s ≢ no_sid) × ((i : Identity) × (r.subs k ≡ some i) × (i.req_node ≡ n) × (i.req_sid ≡ s))
  pub by_path :
      (n p : Bytes) (k : ℕ)
      → r.paths n p ≡ some k
      → (i : Identity) × (r.subs k ≡ some i) × (i.req_node ≡ n) × (i.path ≡ p)
  pub in_paths : (k : ℕ) (i : Identity) → r.subs k ≡ some i → r.paths i.req_node i.path ≡ some k
  pub in_sids :
      (k : ℕ) (i : Identity)
      → r.subs k ≡ some i
      → (i.req_sid ≡ no_sid) ⊎ (r.sids i.req_node i.req_sid ≡ some k)
  pub in_stream :
      (k : ℕ) (i : Identity) (key : StreamKey)
      → r.subs k ≡ some i
      → i.stream ≡ some key
      → (xs : List (Bytes × ℕ)) × (r.members key ≡ some xs) × (find_req i.req_node xs ≡ some k)
  pub of_stream :
      (key : StreamKey) (xs : List (Bytes × ℕ)) → r.members key ≡ some xs → AreMembers r key xs
  pub fresh : (k : ℕ) → r.next ≤ k → r.subs k ≡ none

-- A function of an entry of a table.
at-assign {ℓ κ μ} :
    {K : Type ℓ} {V : Type κ} {W : Type μ} (g : V → W) (eq : K → K → Bool) (t : K → V) (key : K)
    (v : V)
    → (λ x. g (assign eq t key v x)) ≡ assign eq (λ x. g (t x)) key (g v)
at-assign g eq t key v =
    fun_ext (λ x. elim (Bool-cases (eq x key)) [ inl e ↦ rw e refl | inr e ↦ rw e refl ])

module _ {J : Type 0} where
  pub view-set_sub :
      (h : Hub J) (k : ℕ) (sub : Option (Subscriber J))
      → view (set_sub h k sub)
        ≡ record (view h) { subs = assign ◌==◌ (view h).subs k (identity sub) }
  view-set_sub h k sub =
      ap (λ t. record (view h) { subs = t }) (at-assign identity ◌==◌ h.subs k sub)

  pub view-set_stream :
      (h : Hub J) (key : StreamKey) (st : Option (SubStream J))
      → view (set_stream h key st)
        ≡ record (view h) { members = assign same_key (view h).members key (listed_in st) }
  view-set_stream h key st =
      ap (λ t. record (view h) { members = t }) (at-assign listed_in same_key h.streams key st)

  pub view-set_node :
      (h : Hub J) (n : Bytes) (node : Downstream)
      → view (set_node h n node) ≡ record (view h) {
        paths = assign beq (view h).paths n node.req_sub_paths;
        sids = assign beq (view h).sids n node.req_sub_sids;
      }
  view-set_node h n node =
      ap
        (λ t. record (view h) { paths = t; sids = λ x. (assign beq h.nodes n node x).req_sub_sids })
        (at-assign (λ d. d.req_sub_paths) beq h.nodes n node)
      ∙ ap
          (λ t. record (view h) {
            paths = assign beq (view h).paths n node.req_sub_paths;
            sids = t;
          })
          (at-assign (λ d. d.req_sub_sids) beq h.nodes n node)

-- An entry that is set to what it is.
pub assign_same {ℓ κ} :
    {K : Type ℓ} {V : Type κ} (eq : K → K → Bool) (t : K → V) (key : K) (v : V)
    → ((x : K) → eq x key ≡ true → t x ≡ v)
    → assign eq t key v ≡ t
assign_same eq t key v same =
    fun_ext
      (λ x. elim (Bool-cases (eq x key)) [ inl e ↦ rw e (sym (same x e)) | inr e ↦ rw e refl ])
