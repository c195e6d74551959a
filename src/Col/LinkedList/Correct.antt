-- ===== src/Col/LinkedList/Correct.antt =====
-- list_insert_node and list_remove_node on the ring of a list.
use sdk_dslink_c.Prelude.{
  ℕ, ◌+◌, ◌-◌, ◌^◌, ◌%◌, ◌<◌, ◌≡◌, refl, sym, ap, ap₂, subst, ◌∙◌, true, false, none, some, List,
  [], ◌∷◌, ◌++◌, length, length-append, arith,
}
use sdk_dslink_c.Prelude.Run.{ok}
use sdk_dslink_c.Col.LinkedList.{Store, put, list_insert_node, list_remove_node}
use sdk_dslink_c.Col.LinkedList.Ring.{
  IsRing, IsOut, AreOwned, put_self, put_ne, last_of, first_of, Segment-last, Segment-first,
  Segment-split, Segment-same, AreOwned-same, AgreeOn-refl, AgreeOn-put, IsOut-append, IsOut-parts,
  AreOwned-append, AreOwned-parts, IsDistinct-middle, IsDistinct-end,
}
use sdk_dslink_c.Col.LinkedList.Update.{
  inserted, insert-store, removed, remove-store, Segment-insert, Segment-remove, IsOut-last,
  IsOut-first,
}

last-live :
    (s : Store) (l a : ℕ) (xs : List ℕ)
    → s.live a ≡ true
    → AreOwned s l xs
    → s.live (last_of a xs) ≡ true
last-live s l a [] h o = h
last-live s l a (x ∷ xs) h ((hx, _), o) = last-live s l x xs hx o

first-live :
    (s : Store) (l : ℕ) (xs : List ℕ) (b : ℕ)
    → s.live b ≡ true
    → AreOwned s l xs
    → s.live (first_of xs b) ≡ true
first-live s l [] b h o = h
first-live s l (x ∷ xs) b h ((hx, _), o) = hx

-- list_insert_node adds an allocated node that is not in the list behind its last node.
pub list_insert_node-IsRing :
    (s : Store) (l x : ℕ) (xs : List ℕ)
    → IsRing s l xs
    → s.live x ≡ true
    → IsOut x (l ∷ xs)
    → length xs + 1 < 2 ^ 64
    → (t : Store) × (list_insert_node s l x ≡ ok t)
      × IsRing t l (xs ++ (x ∷ []))
      × (t.live ≡ s.live)
list_insert_node-IsRing s l x xs r hx (xl, out) short =
    let t = inserted s l x in
    let at_end = Segment-last s l xs l r.linked in
    let before =
      subst (λ p. s.live p ≡ true) (sym at_end) (last-live s l l xs r.head_live r.owned) in
    (
      t,
      insert-store s l x r.head_live hx before r.head_list,
      record {
        head_live = r.head_live;
        head_list = put_ne s.list x l (some l) (λ e. xl (sym e)) ∙ r.head_list;
        outside = IsOut-append l xs (x ∷ []) r.outside ((λ e. xl (sym e)), tt);
        distinct = IsDistinct-end xs x r.distinct out;
        owned =
            AreOwned-append t l xs (x ∷ [])
              (AreOwned-same s t l xs (AgreeOn-refl s.live xs)
                (AgreeOn-put s.list s.list x (some l) xs out (AgreeOn-refl s.list xs)) r.owned)
              ((hx, put_self s.list x (some l)), tt);
        linked =
            Segment-insert s t l x xs l r.outside r.distinct r.outside (xl, out) xl
              (ap (λ p. put (put s.next p x) x l) at_end)
              (ap (λ p. put (put s.prev x p) l x) at_end) r.linked;
        counted =
            put_self s.size l ((s.size l + 1) % 2 ^ 64)
            ∙ omega (arith, r.counted, short, length-append xs (x ∷ []));
        short = omega (arith, short, length-append xs (x ∷ []));
      },
      refl,
    )

-- list_remove_node takes a node out of its list, wherever it stands there.
pub list_remove_node-IsRing :
    (s : Store) (l : ℕ) (us : List ℕ) (x : ℕ) (vs : List ℕ)
    → IsRing s l (us ++ (x ∷ vs))
    → (t : Store) × (list_remove_node s x ≡ ok t)
      × IsRing t l (us ++ vs)
      × (t.list x ≡ none)
      × (t.live ≡ s.live)
list_remove_node-IsRing s l us x vs r =
    let t = removed s l x in
    let (left, right) = Segment-split s l us x vs l r.linked in
    let before = Segment-last s l us x left in
    let behind = Segment-first s x vs l right in
    let (ou, ((hx, lx), ov)) = AreOwned-parts s l us (x ∷ vs) r.owned in
    let (d, (xu, xv)) = IsDistinct-middle us x vs r.distinct in
    let (lu, (nlx, lv)) = IsOut-parts l us (x ∷ vs) r.outside in
    let p_live = subst (λ p. s.live p ≡ true) (sym before) (last-live s l l us r.head_live ou) in
    let n_live = subst (λ p. s.live p ≡ true) (sym behind) (first-live s l vs l r.head_live ov) in
    let out = IsOut-append l us vs lu lv in
    let same =
      AgreeOn-put s.list s.list x none (us ++ vs) (IsOut-append x us vs xu xv)
        (AgreeOn-refl s.list (us ++ vs)) in
    (
      t,
      remove-store s l x r.head_live hx p_live n_live lx
          (λ e. IsOut-last x l us (λ i. nlx (sym i)) xu (sym e ∙ before))
          (λ e. IsOut-first x l vs (λ i. nlx (sym i)) xv (sym e ∙ behind)),
      record {
        head_live = r.head_live;
        head_list = put_ne s.list x l none nlx ∙ r.head_list;
        outside = out;
        distinct = d;
        owned =
            AreOwned-same s t l (us ++ vs) (AgreeOn-refl s.live (us ++ vs)) same
              (AreOwned-append s l us vs ou ov);
        linked =
            Segment-remove s t l us vs l out d out (ap₂ (put s.next) before behind)
              (ap₂ (put s.prev) behind before) x left right;
        counted =
            put_self s.size l ((s.size l + 2 ^ 64 - 1) % 2 ^ 64)
            ∙ omega (arith, r.counted, r.short, length-append us vs, length-append us (x ∷ vs));
        short = omega (arith, r.short, length-append us vs, length-append us (x ∷ vs));
      },
      put_self s.list x none,
      refl,
    )

-- A list does not depend on a node that is not in it.
pub free-IsRing :
    (s : Store) (l x : ℕ) (xs : List ℕ)
    → IsRing s l xs
    → IsOut x (l ∷ xs)
    → IsRing (record s { live = put s.live x false }) l xs
free-IsRing s l x xs r (xl, out) =
    let t : Store = record s { live = put s.live x false } in
    record {
      head_live = put_ne s.live x l false (λ e. xl (sym e)) ∙ r.head_live;
      head_list = r.head_list;
      outside = r.outside;
      distinct = r.distinct;
      owned =
          AreOwned-same s t l xs (AgreeOn-put s.live s.live x false xs out (AgreeOn-refl s.live xs))
            (AgreeOn-refl s.list xs) r.owned;
      linked =
          Segment-same s t l xs l (AgreeOn-refl s.next (l ∷ xs)) (AgreeOn-refl s.prev xs) refl
            r.linked;
      counted = r.counted;
      short = r.short;
    }
