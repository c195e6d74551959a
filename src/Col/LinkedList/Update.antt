-- ===== src/Col/LinkedList/Update.antt =====
-- Insertion at the end and removal anywhere, on the ring of a list.
use sdk_dslink_c.Prelude.{
  ℕ, ◌+◌, ◌-◌, ◌^◌, ◌%◌, ◌≡◌, ◌≢◌, refl, sym, ap, subst, ◌∙◌, true, none, some, List, [], ◌∷◌, ◌++◌,
}
use sdk_dslink_c.Prelude.Run.{ok}
use sdk_dslink_c.Col.LinkedList.{
  Store, put, list_insert_node_before, list_insert_node, list_remove_node,
}
use sdk_dslink_c.Col.LinkedList.Ring.{
  Segment, IsOut, IsDistinct, AgreeOn, put_self, put_ne, last_of, first_of, Segment-same,
  AgreeOn-refl, AgreeOn-put, IsOut-parts,
}

-- The store that an insertion before the head leaves.
abbrev pub inserted : Store → ℕ → ℕ → Store
inserted s l x = record s {
  next = put (put s.next (s.prev l) x) x l;
  prev = put (put s.prev x (s.prev l)) l x;
  list = put s.list x (some l);
  size = put s.size l ((s.size l + 1) % 2 ^ 64);
}

pub insert-store :
    (s : Store) (l x : ℕ)
    → s.live l ≡ true
    → s.live x ≡ true
    → s.live (s.prev l) ≡ true
    → s.list l ≡ some l
    → list_insert_node s l x ≡ ok (inserted s l x)
unfolding list_insert_node list_insert_node_before
insert-store s l x hl hx hp h =
    rw (hl)
      (rw (h) (rw (hx) (rw (hl) (rw (hp) (rw (hl) (rw (hx) (rw (hl) (rw (hx) (rw (hl) refl)))))))))

abbrev pub removed : Store → ℕ → ℕ → Store
removed s l x = record s {
  next = put s.next (s.prev x) (s.next x);
  prev = put s.prev (s.next x) (s.prev x);
  list = put s.list x none;
  size = put s.size l ((s.size l + 2 ^ 64 - 1) % 2 ^ 64);
}

pub remove-store :
    (s : Store) (l x : ℕ)
    → s.live l ≡ true
    → s.live x ≡ true
    → s.live (s.prev x) ≡ true
    → s.live (s.next x) ≡ true
    → s.list x ≡ some l
    → s.prev x ≢ x
    → s.next x ≢ x
    → list_remove_node s x ≡ ok (removed s l x)
unfolding list_remove_node
remove-store s l x hl hx hp hn h np nn = rw (hx) (
    rw (h) (
      rw (hl) (
        rw (hx) (
          rw (hp) (
            rw (hx) (
              rw (put_ne s.next (s.prev x) x (s.next x) (λ e. np (sym e)))
                (rw (hn) (rw (hx) refl))))))))

pub IsOut-last : (a x : ℕ) (xs : List ℕ) → a ≢ x → IsOut a xs → a ≢ last_of x xs
IsOut-last a x [] ne h = ne
IsOut-last a x (y ∷ ys) ne (k, h) = IsOut-last a y ys k h

pub IsOut-first : (u b : ℕ) (vs : List ℕ) → u ≢ b → IsOut u vs → u ≢ first_of vs b
IsOut-first u b [] ne h = ne
IsOut-first u b (v ∷ vs) ne (k, h) = k

-- The value of a field that two writes, or one, have changed.
at_first : (f g : ℕ → ℕ) (p v q w x : ℕ) → f ≡ put (put g p v) q w → x ≢ q → x ≡ p → f x ≡ v
at_first f g p v q w x e ne same =
    ap (λ k. k x) e ∙ put_ne (put g p v) q x w ne ∙ rw (same) (put_self g p v)

at_second : (f g : ℕ → ℕ) (p v q w : ℕ) → f ≡ put (put g p v) q w → f q ≡ w
at_second f g p v q w e = ap (λ k. k q) e ∙ put_self (put g p v) q w

at_other : (f g : ℕ → ℕ) (p v q w x : ℕ) → f ≡ put (put g p v) q w → x ≢ q → x ≢ p → f x ≡ g x
at_other f g p v q w x e nq np = ap (λ k. k x) e ∙ put_ne (put g p v) q x w nq ∙ put_ne g p x v np

at_one : (f g : ℕ → ℕ) (p v : ℕ) → f ≡ put g p v → f p ≡ v
at_one f g p v e = ap (λ k. k p) e ∙ put_self g p v

at_rest : (f g : ℕ → ℕ) (p v x : ℕ) → f ≡ put g p v → x ≢ p → f x ≡ g x
at_rest f g p v x e ne = ap (λ k. k x) e ∙ put_ne g p x v ne

AgreeOn-rest : (f g : ℕ → ℕ) (p v : ℕ) (xs : List ℕ) → f ≡ put g p v → IsOut p xs → AgreeOn f g xs
AgreeOn-rest f g p v xs e h =
    subst (λ k. AgreeOn k g xs) (sym e) (AgreeOn-put g g p v xs h (AgreeOn-refl g xs))

-- A new end: `t` links the last node to `x`, and `x` to `b`.
pub Segment-insert :
    (s t : Store) (a x : ℕ) (xs : List ℕ) (b : ℕ)
    → IsOut a xs
    → IsDistinct xs
    → IsOut b xs
    → IsOut x (a ∷ xs)
    → x ≢ b
    → t.next ≡ put (put s.next (last_of a xs) x) x b
    → t.prev ≡ put (put s.prev x (last_of a xs)) b x
    → Segment s a xs b
    → Segment t a (xs ++ (x ∷ [])) b
Segment-insert s t a x [] b ha d hb (na, hx) nb en ep h =
    let l = last_of a [] in
    (
      (
        at_first t.next s.next l x x b a en (λ e. na (sym e)) refl,
        at_first t.prev s.prev x l b x x ep nb refl,
      ),
      (at_second t.next s.next l x x b en, at_second t.prev s.prev x l b x ep),
    )
Segment-insert s t a x (y ∷ ys) b (nay, ha) (hy, d) (nby, hb) (na, (nxy, hx)) nb en ep ((n, p), h) =
    let l = last_of y ys in
    (
      (
        at_other t.next s.next l x x b a en (λ e. na (sym e)) (IsOut-last a y ys nay ha) ∙ n,
        at_other t.prev s.prev x l b x y ep (λ e. nby (sym e)) (λ e. nxy (sym e)) ∙ p,
      ),
      Segment-insert s t y x ys b hy d hb (nxy, hx) nb en ep h,
    )

-- A removal: `t` links the node before `x` to the one behind it.
pub Segment-remove :
    (s t : Store) (a : ℕ) (us vs : List ℕ) (b : ℕ)
    → IsOut a (us ++ vs)
    → IsDistinct (us ++ vs)
    → IsOut b (us ++ vs)
    → t.next ≡ put s.next (last_of a us) (first_of vs b)
    → t.prev ≡ put s.prev (first_of vs b) (last_of a us)
    → (x : ℕ) → Segment s a us x
    → Segment s x vs b
    → Segment t a (us ++ vs) b
Segment-remove s t a [] [] b ha d hb en ep x l r =
    (at_one t.next s.next a b en, at_one t.prev s.prev b a ep)
Segment-remove s t a [] (v ∷ vs) b ha (hv, d) (nbv, hb) en ep x l (e, r) = (
  (at_one t.next s.next a v en, at_one t.prev s.prev v a ep),
  Segment-same s t v vs b (AgreeOn-rest t.next s.next a v (v ∷ vs) en ha)
      (AgreeOn-rest t.prev s.prev v a vs ep hv) (at_rest t.prev s.prev v a b ep nbv) r,
)
Segment-remove s t a (u ∷ us) vs b (nau, ha) (hu, d) (nbu, hb) en ep x ((n, p), l) r =
    let before = last_of u us in
    let behind = first_of vs b in
    let (au, av) = IsOut-parts a us vs ha in
    let (uu, uv) = IsOut-parts u us vs hu in
    (
      (
        at_rest t.next s.next before behind a en (IsOut-last a u us nau au) ∙ n,
        at_rest t.prev s.prev behind before u ep (IsOut-first u b vs (λ e. nbu (sym e)) uv) ∙ p,
      ),
      Segment-remove s t u us vs b hu d hb en ep x l r,
    )
