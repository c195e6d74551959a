-- ===== src/Col/Ringbuffer/Queue.antt =====
-- The contract of a ring buffer: a queue of at most `cap` elements, oldest first, that drops its
-- oldest element to make room. `notify` says whether the dropped elements are reported.
use sdk_dslink_c.Prelude.{
  ℕ, Bool, List, [], ◌∷◌, ◌++◌, ◌==◌, if◌then◌else◌, length, ℤ, pos, minus_one,
}

abbrev pub tail {ℓ} : {A : Type ℓ} → List A → List A
tail [] = []
tail (x ∷ xs) = xs

abbrev pub first {ℓ} : {A : Type ℓ} → List A → List A
first [] = []
first (x ∷ xs) = x ∷ []

module _ {ℓ} {A : Type ℓ} (notify : Bool) where
  unfoldable pub push : ℕ → List A → A → ℤ × List A × List A
  push cap q a =
      if length q == cap
      then (pos 1, (if notify then first q else []), tail q ++ (a ∷ []))
      else (pos 0, [], q ++ (a ∷ []))

  unfoldable pub pop : List A → ℤ × List A × List A
  pop [] = (minus_one, [], [])
  pop (x ∷ q) = (pos 0, (if notify then x ∷ [] else []), q)
