-- ===== src/Col/Ringbuffer/Window.antt =====
-- The elements of a circular block, read from an index on: the view of ringbuffer.c that a queue
-- is compared with.
use sdk_dslink_c.Prelude.{
  ℕ, zero, suc, ◌+◌, ◌-◌, ◌≤◌, ◌<◌, ◌≡◌, refl, ap, ap₂, ◌∙◌, List, [], ◌∷◌, ◌++◌, none, some, arith,
  ltb, if◌then◌else◌, length, get_elem?, get_or, set, get_or-set_self, get_or-set_ne,
}

-- An index up to twice the size, reduced to one inside the block.
abbrev pub wrap : ℕ → ℕ → ℕ
wrap size i = if ltb i size then i else i - size

abbrev pub next : ℕ → ℕ → ℕ
next size h = wrap size (h + 1)

-- `d` stands for a read outside the block, which a valid buffer never makes.
module _ {ℓ} {A : Type ℓ} (d : A) where
  abbrev pub window : List A → ℕ → ℕ → ℕ → List A
  window buf size h zero = []
  window buf size h (suc n) = get_or buf h d ∷ window buf size (next size h) n

  pub length-window : (buf : List A) (size h n : ℕ) → length (window buf size h n) ≡ n
  length-window buf size h zero = refl
  length-window buf size h (suc n) = ap suc (length-window buf size (next size h) n)

  pub get_elem?-window :
      (buf : List A) (size h n k : ℕ)
      → h < size
      → n ≤ size
      → k < n
      → get_elem? (window buf size h n) k ≡ some (get_or buf (wrap size (h + k)) d)
  get_elem?-window buf size h zero k hh hn hk = absurd (omega arith)
  get_elem?-window buf size h (suc n) zero hh hn hk = ap (λ i. some (get_or buf i d)) (ground arith)
  get_elem?-window buf size h (suc n) (suc k) hh hn hk =
      get_elem?-window buf size (next size h) n k (ground arith) (omega arith) (omega arith)
      ∙ ap (λ i. some (get_or buf i d)) (ground arith)

  pub get_elem?-window_end :
      (buf : List A) (size h n k : ℕ) → n ≤ k → get_elem? (window buf size h n) k ≡ none
  get_elem?-window_end buf size h zero k hk = refl
  get_elem?-window_end buf size h (suc n) zero hk = absurd (omega arith)
  get_elem?-window_end buf size h (suc n) (suc k) hk =
      get_elem?-window_end buf size (next size h) n k (omega arith)

  -- A write just past a window extends it.
  pub window-set :
      (buf : List A) (size h n i : ℕ) (x : A)
      → size ≤ length buf
      → h < size
      → n < size
      → i ≡ wrap size (h + n)
      → window (set buf i x) size h (suc n) ≡ window buf size h n ++ (x ∷ [])
  window-set buf size h zero i x hs hh hn e = ap (λ a. a ∷ []) (get_or-i (ground arith))
    where
      get_or-i : i ≡ h → get_or (set buf i x) h d ≡ x
      get_or-i p = rw p (get_or-set_self buf h x d (omega arith))
  window-set buf size h (suc n) i x hs hh hn e =
      ap₂ ◌∷◌ (get_or-set_ne buf i h x d (ground arith))
        (window-set buf size (next size h) n i x hs (ground arith) (omega arith) (ground arith))
