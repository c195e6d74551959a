-- ===== src/Col/Vector/Inv.antt =====
-- What a vector holds, the invariant of its block, and the operations that move no element.
use sdk_dslink_c.Prelude.{
  ℕ, suc, ◌+◌, ◌^◌, ◌≤◌, ◌<◌, ◌≡◌, refl, sym, ap, ◌∙◌, List, [], ◌∷◌, ◌++◌, Option, none, some,
  arith, length, take, set, length-set, length-take, take-set_self, take-set, take-all, ◌⊎◌, inl,
  inr, leb, Bool-cases, Option-cases, pos, minus_one,
}
use sdk_dslink_c.Prelude.Run.{ok}
use sdk_dslink_c.Col.Vector.{Vector, Realloc, grown, append_raw, vector_append, vector_set}

module _ {A : Type 0} where
  -- The elements of a block that may be NULL.
  abbrev pub cells : Option (List A) → List A
  cells none = []
  cells (some xs) = xs

  -- The elements that are in use.
  abbrev pub contents : Vector A → List A
  contents v = take v.size (cells v.data_block)

  abbrev pub holds : Option (Vector A) → List A
  holds none = []
  holds (some v) = contents v

  -- The block has room for `capacity` elements, and `capacity` is a `uint32_t`.
  pub record IsValid (v : Vector A) : Type 0 where
    pub storage : length (cells v.data_block) ≡ v.capacity
    pub small : v.capacity < 2 ^ 32
    pub size_in : v.size ≤ v.capacity
    pub block_set : v.data_block ≡ some (cells v.data_block)

  abbrev pub Valid : Option (Vector A) → Type 0
  Valid none = ⊥
  Valid (some v) = IsValid v

  pub length-contents : {v : Vector A} → IsValid v → length (contents v) ≡ v.size
  length-contents {v} h = omega (arith, length-take v.size (cells v.data_block))

  -- What `realloc` documents: a block that it returns has the size asked for, and begins with the
  -- elements of the old one, as far as both reach.
  pub record IsRealloc (realloc : Realloc A) : Type 0 where
    pub resized :
        (xs : Option (List A)) (n : ℕ) (ys : List A) → realloc xs n ≡ some ys → length ys ≡ n
    pub kept :
        (xs : Option (List A)) (n : ℕ) (ys : List A)
        → realloc xs n ≡ some ys
        → length (cells xs) ≤ n
        → take (length (cells xs)) ys ≡ cells xs

  -- The vector after a write behind its last element.
  abbrev appended : Vector A → A → Vector A
  appended v a = record v {
    data_block = some (set (cells v.data_block) v.size a);
    size = v.size + 1;
  }

  append_raw_lem :
      {v : Vector A} (a : A)
      → IsValid v
      → v.size < v.capacity
      → (append_raw v a ≡ ok (pos v.size, some (appended v a)))
        × IsValid (appended v a)
        × (contents (appended v a) ≡ contents v ++ (a ∷ []))
  append_raw_lem {v} a h room = (
    rw h.block_set (ground arith),
    ground (arith, length-set (cells v.data_block) v.size a),
    ap (λ n. take n (set (cells v.data_block) v.size a)) {y = suc v.size} (omega arith)
        ∙ take-set_self v.size (cells v.data_block) a (omega arith),
  )

  -- What `vector_resize` makes of a full vector that it can grow.
  abbrev resized : Vector A → List A → Vector A
  resized v ys = record v { data_block = some ys; capacity = grown v.capacity }

  resized-IsValid :
      {realloc : Realloc A} {v : Vector A} (ys : List A)
      → IsRealloc realloc
      → IsValid v
      → v.capacity < 2 ^ 31
      → v.size ≡ v.capacity
      → realloc v.data_block (grown v.capacity) ≡ some ys
      → IsValid (resized v ys)
        × (contents (resized v ys) ≡ contents v)
        × (v.size < grown v.capacity)
  resized-IsValid {realloc} {v} ys r h small full e = (
    ground (arith, r.resized v.data_block (grown v.capacity) ys e),
    ap (λ n. take n ys) {y = length (cells v.data_block)} (omega arith)
        ∙ r.kept v.data_block (grown v.capacity) ys e (ground arith)
        ∙ sym (take-all v.size (cells v.data_block) (omega arith)),
    ground arith,
  )

  -- `vector_append` on a vector below 2 ^ 31 elements never faults. Where the vector is full and
  -- cannot grow it returns -1 and changes nothing. In every other case it returns the index of
  -- the new element, keeps the invariant, and adds the element behind the others.
  pub vector_append-appends :
      {realloc : Realloc A} {v : Vector A} (a : A)
      → IsRealloc realloc
      → IsValid v
      → v.capacity < 2 ^ 31
      → ((v.size ≡ v.capacity)
          × (realloc v.data_block (grown v.capacity) ≡ none)
          × (vector_append realloc (some v) a ≡ ok (minus_one, some v)))
        ⊎ ((w : Vector A) × (vector_append realloc (some v) a ≡ ok (pos v.size, some w))
            × IsValid w
            × (contents w ≡ contents v ++ (a ∷ [])))
  unfolding vector_append
  vector_append-appends {realloc} {v} a r h small = elim (Bool-cases (leb v.capacity v.size)) [
    | inr room ↦
        let (run, valid, adds) = append_raw_lem a h (ground arith) in
        inr (appended v a, rw room run, valid, adds)
    | inl full ↦ elim (Option-cases (realloc v.data_block (grown v.capacity))) [
      | inl e ↦ inl (ground arith, e, rw (full, e) refl)
      | inr (ys, e) ↦
          let (valid', same, room) = resized-IsValid ys r h small (ground arith) e in
          let (run, valid, adds) = append_raw_lem a valid' room in
          inr (appended (resized v ys) a, rw (full, e) run, valid, rw (← same) adds)
    ]
  ]

  -- `vector_set` replaces the element at an index in use, and otherwise returns -1 and changes
  -- nothing.
  pub vector_set_lem :
      {v : Vector A} (i : ℕ) (a : A)
      → IsValid v
      → (v.size ≤ i → vector_set (some v) i a ≡ ok (minus_one, some v))
        × (i < v.size
            → (w : Vector A) × (vector_set (some v) i a ≡ ok (pos 0, some w))
              × IsValid w
              × (contents w ≡ set (contents v) i a))
  unfolding vector_set
  vector_set_lem {v} i a h = (
    λ out. ground arith,
    λ inside. (
      record v { data_block = some (set (cells v.data_block) i a) },
      rw h.block_set (ground arith),
      ground (arith, length-set (cells v.data_block) i a),
      take-set v.size i (cells v.data_block) a,
    ),
  )

  -- Where memory does not run out, vector_append stays below 2 ^ 31 as long as there are less than 2 ^ 30 elements.
  pub vector_append-grows :
      {realloc : Realloc A} {v : Vector A} (a : A)
      → IsRealloc realloc
      → ((xs : Option (List A)) (n : ℕ) → (ys : List A) × (realloc xs n ≡ some ys))
      → IsValid v
      → v.capacity < 2 ^ 31
      → v.size < 2 ^ 30
      → (w : Vector A) × (vector_append realloc (some v) a ≡ ok (pos v.size, some w))
        × IsValid w
        × (w.capacity < 2 ^ 31)
        × (w.size ≡ v.size + 1)
        × (contents w ≡ contents v ++ (a ∷ []))
  unfolding vector_append
  vector_append-grows {realloc} {v} a r given h small few =
      elim (Bool-cases (leb v.capacity v.size)) [
        | inr room ↦
            let (run, valid, adds) = append_raw_lem a h (ground arith) in
            (appended v a, rw room run, valid, small, refl, adds)
        | inl full ↦
            let (ys, e) = given v.data_block (grown v.capacity) in
            let (valid', same, room) = resized-IsValid ys r h small (ground arith) e in
            let (run, valid, adds) = append_raw_lem a valid' room in
            (
              appended (resized v ys) a,
              rw (full, e) run,
              valid,
              ground arith,
              refl,
              rw (← same) adds,
            )
      ]
