-- ===== src/Text/Compare.antt =====
-- Comparisons of sdk/src/utils.c. A byte is a number below 256; the final NUL is not in the list.
use sdk_dslink_c.Prelude.{
  ◌≡◌, ◌↔◌, refl, ◌++◌, arith, Bool-cases, inl, inr, ap, ap₂, ◌∙◌, Bool, true, false, [], ◌∷◌, ◌==◌,
  if◌then◌else◌,
}
use sdk_dslink_c.Prelude.Bytes.{Bytes}

-- `dslink_str_starts_with`
unfoldable pub starts_with : Bytes → Bytes → Bool
starts_with a [] = true
starts_with [] (d ∷ b) = false
starts_with (c ∷ a) (d ∷ b) = if c == d then starts_with a b else false

to_prefix : (a b : Bytes) → starts_with a b ≡ true → (rest : Bytes) × (a ≡ b ++ rest)
unfolding starts_with
to_prefix a [] h = (a, refl)
to_prefix [] (d ∷ b) h = absurd cc
to_prefix (c ∷ a) (d ∷ b) h = elim (Bool-cases (c == d)) [
  | inl e ↦ let (rest, same) = to_prefix a b (ground arith) in (rest, ap₂ ◌∷◌ (ground arith) same)
  | inr e ↦ absurd (ground arith)
]

from_prefix : (b rest : Bytes) → starts_with (b ++ rest) b ≡ true
unfolding starts_with
from_prefix [] rest = refl
from_prefix (d ∷ b) rest = ground (arith, from_prefix b rest)

-- dslink_str_starts_with holds exactly if the first text is the second one with something behind it.
pub starts_with-prefix :
    (a b : Bytes) → (starts_with a b ≡ true) ↔ ((rest : Bytes) × (a ≡ b ++ rest))
starts_with-prefix a b = (to_prefix a b, λ p. ap (λ t. starts_with t b) p.1 ∙ from_prefix b p.0)
