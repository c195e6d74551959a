-- ===== src/Broker/Subscribe/Tables.antt =====
-- Lookups in the tables and the member lists of msg_subscribe.c after an entry is set or removed.
use sdk_dslink_c.Prelude.{
  ℕ, ◌≡◌, refl, ap, sym, ◌∙◌, ◌⊎◌, inl, inr, Bool, true, false, List, [], ◌∷◌, none, some, ◌==◌,
  if◌then◌else◌, Bool-cases, ==_iff,
}
use sdk_dslink_c.Prelude.Bytes.{Bytes, beq, beq→eq, beq_refl}
use sdk_dslink_c.Broker.Subscribe.{StreamKey, assign, find_req, set_req, remove_req}
use sdk_dslink_c.Broker.Subscribe.Registry.{Registry, IsMember, AreMembers, unless_nil, assign₂}

pub some_inj {ℓ} : {A : Type ℓ} {a b : A} → some a ≡ some b → a ≡ b
some_inj h = cc

pub none_some {ℓ κ} : {A : Type ℓ} {B : Type κ} {a : A} → none ≡ some a → B
none_some h = absurd cc

pub sids_eq : (x y : ℕ) → (x == y) ≡ true → x ≡ y
sids_eq x y h = (==_iff x y).0 h

module _ {ℓ κ} {K : Type ℓ} {V : Type κ} (eq : K → K → Bool) where
  pub assign-cases :
      (t : K → V) (key : K) (v : V) (x : K)
      → ((eq x key ≡ true) × (assign eq t key v x ≡ v))
        ⊎ ((eq x key ≡ false) × (assign eq t key v x ≡ t x))
  assign-cases t key v x = elim (Bool-cases (eq x key)) [
    | inl e ↦ inl (e, rw e refl)
    | inr e ↦ inr (e, rw e refl)
  ]

module _ {ℓ κ μ} {N : Type ℓ} {K : Type κ} {V : Type μ} (eqn : N → N → Bool) (eqk : K → K → Bool)
    (exact : (x y : N) → eqn x y ≡ true → x ≡ y) where
  pub assign₂-cases :
      (t : N → K → V) (n : N) (key : K) (v : V) (x : N) (y : K)
      → ((x ≡ n) × (eqk y key ≡ true) × (assign₂ eqn eqk t n key v x y ≡ v))
        ⊎ (((eqn x n ≡ false) ⊎ (eqk y key ≡ false)) × (assign₂ eqn eqk t n key v x y ≡ t x y))
  assign₂-cases t n key v x y = elim (Bool-cases (eqn x n)) [
    | inr e ↦ inr (inl e, rw e refl)
    | inl e ↦ elim (Bool-cases (eqk y key)) [
      | inl f ↦ inl (exact x n e, f, rw (e, f) refl)
      | inr f ↦ inr (inr f, rw (e, f) (ap (λ m. t m y) (sym (exact x n e))))
    ]
  ]

pub false_true : {A : Type 0} → false ≡ true → A
false_true h = absurd cc

pub beq_apart : (a b : Bytes) → beq a b ≡ false → beq b a ≡ false
beq_apart a b h = elim (Bool-cases (beq b a)) [
  | inr e ↦ e
  | inl e ↦ false_true (sym h ∙ ap (λ c. beq c b) (sym (beq→eq b a e)) ∙ beq_refl b)
]

find_hit :
    (n m : Bytes) (j : ℕ) (xs : List (Bytes × ℕ))
    → beq n m ≡ true
    → find_req n ((m, j) ∷ xs) ≡ some j
unfolding find_req
find_hit n m j xs e = rw e refl

find_miss :
    (n m : Bytes) (j : ℕ) (xs : List (Bytes × ℕ))
    → beq n m ≡ false
    → find_req n ((m, j) ∷ xs) ≡ find_req n xs
unfolding find_req
find_miss n m j xs e = rw e refl

pub find_set_same :
    (n : Bytes) (k : ℕ) (xs : List (Bytes × ℕ)) → find_req n (set_req n k xs) ≡ some k
unfolding find_req set_req
find_set_same n k [] = rw (beq_refl n) refl
find_set_same n k ((m, j) ∷ xs) = elim (Bool-cases (beq n m)) [
  | inl e ↦ rw e (rw e refl)
  | inr e ↦ rw e (rw e (find_set_same n k xs))
]

pub find_set_other :
    (n m : Bytes) (k : ℕ) (xs : List (Bytes × ℕ))
    → beq m n ≡ false
    → find_req m (set_req n k xs) ≡ find_req m xs
unfolding find_req set_req
find_set_other n m k [] other = rw other refl
find_set_other n m k ((p, j) ∷ xs) other = elim (Bool-cases (beq n p)) [
  | inl e ↦ rw e (
      ap (λ q. if beq m q then some k else find_req m xs) (sym (beq→eq n p e))
      ∙ rw other (
          sym (
            ap (λ q. if beq m q then some j else find_req m xs) (sym (beq→eq n p e))
            ∙ rw other refl)))
  | inr e ↦ rw e (ap (λ o. if beq m p then some j else o) (find_set_other n m k xs other))
]

pub find_remove_other :
    (n m : Bytes) (xs : List (Bytes × ℕ))
    → beq m n ≡ false
    → find_req m (remove_req n xs) ≡ find_req m xs
unfolding find_req remove_req
find_remove_other n m [] other = refl
find_remove_other n m ((p, j) ∷ xs) other = elim (Bool-cases (beq n p)) [
  | inl e ↦ rw e (
      sym
        (ap (λ q. if beq m q then some j else find_req m xs) (sym (beq→eq n p e)) ∙ rw other refl))
  | inr e ↦ rw e (ap (λ o. if beq m p then some j else o) (find_remove_other n m xs other))
]

pub find_remove_none :
    (n m : Bytes) (xs : List (Bytes × ℕ))
    → find_req m xs ≡ none
    → find_req m (remove_req n xs) ≡ none
unfolding find_req remove_req
find_remove_none n m [] h = refl
find_remove_none n m ((p, j) ∷ xs) h = elim (Bool-cases (beq m p)) [
  | inl f ↦ none_some (sym h ∙ find_hit m p j xs f)
  | inr f ↦
      let later = sym (find_miss m p j xs f) ∙ h in
      elim (Bool-cases (beq n p)) [
        | inl e ↦ rw e later
        | inr e ↦ rw e (rw f (find_remove_none n m xs later))
      ]
]

pub found_some :
    (n : Bytes) (k : ℕ) (xs : List (Bytes × ℕ)) → find_req n xs ≡ some k → unless_nil xs ≡ some xs
unfolding find_req
found_some n k [] h = none_some h
found_some n k (x ∷ xs) h = refl

module _ (r r' : Registry) (key : StreamKey) where
  -- Where a requester has no entry, the members stay members if those of the other requesters do.
  pub members_but :
      (n : Bytes) (xs : List (Bytes × ℕ))
      → find_req n xs ≡ none
      → ((m : Bytes) (j : ℕ) → beq n m ≡ false → IsMember r key m j → IsMember r' key m j)
      → AreMembers r key xs
      → AreMembers r' key xs
  unfolding find_req
  members_but n [] absent keep members = tt
  members_but n ((m, j) ∷ xs) absent keep (member, once, members) = elim (Bool-cases (beq n m)) [
    | inl e ↦ none_some (sym absent ∙ find_hit n m j xs e)
    | inr e ↦ (
      keep m j e member,
      once,
      members_but n xs (sym (find_miss n m j xs e) ∙ absent) keep members,
    )
  ]

  pub members_keep :
      (xs : List (Bytes × ℕ))
      → ((m : Bytes) (j : ℕ) → IsMember r key m j → IsMember r' key m j)
      → AreMembers r key xs
      → AreMembers r' key xs
  members_keep [] keep members = tt
  members_keep ((m, j) ∷ xs) keep (member, once, members) =
      (keep m j member, once, members_keep xs keep members)

  pub members_remove :
      (n : Bytes) (xs : List (Bytes × ℕ))
      → ((m : Bytes) (j : ℕ) → beq n m ≡ false → IsMember r key m j → IsMember r' key m j)
      → AreMembers r key xs
      → AreMembers r' key (remove_req n xs)
  unfolding remove_req
  members_remove n [] keep members = tt
  members_remove n ((m, j) ∷ xs) keep (member, once, members) = elim (Bool-cases (beq n m)) [
    | inl e ↦ rw e (members_but n xs (ap (λ p. find_req p xs) (beq→eq n m e) ∙ once) keep members)
    | inr e ↦
        rw e (keep m j e member, find_remove_none n m xs once, members_remove n xs keep members)
  ]

  pub members_set :
      (n : Bytes) (k : ℕ) (xs : List (Bytes × ℕ))
      → find_req n xs ≡ none
      → ((m : Bytes) (j : ℕ) → IsMember r key m j → IsMember r' key m j)
      → IsMember r' key n k
      → AreMembers r key xs
      → AreMembers r' key (set_req n k xs)
  unfolding set_req find_req
  members_set n k [] absent keep new members = (new, refl, tt)
  members_set n k ((m, j) ∷ xs) absent keep new (member, once, members) =
      elim (Bool-cases (beq n m)) [
        | inl e ↦ none_some (sym absent ∙ find_hit n m j xs e)
        | inr e ↦ rw e (
          keep m j member,
          find_set_other n m k xs (beq_apart n m e) ∙ once,
          members_set n k xs (sym (find_miss n m j xs e) ∙ absent) keep new members,
        )
      ]
