-- ===== src/Prelude/Run.antt =====
-- Code that may leave the defined part of C: a read or write outside a block, or through NULL. A loop on fuel may
-- also run out of it.
use Prim.Native.Nat.{ℕ, ◌+◌}
use mathlib.Core.Bool.{◌&&◌}
use mathlib.Core.List.{List, ◌++◌}
use mathlib.Core.Option.{none, some}
use sdk_dslink_c.Prelude.Tests.{ltb, leb, if◌then◌else◌}
use sdk_dslink_c.Prelude.Lists.{length, get_elem?, set, take, drop}

pub data Run {ℓ} (A : Type ℓ) : Type ℓ where
  ok : A → Run A
  fault : Run A
  out_of_fuel : Run A

infixl 5 ◌>>=◌
abbrev pub ◌>>=◌ {ℓ κ} : {A : Type ℓ} {B : Type κ} → Run A → (A → Run B) → Run B
ok a >>= f = f a
fault >>= f = fault
out_of_fuel >>= f = out_of_fuel

-- A read of one element of a block.
abbrev pub load {ℓ} : {A : Type ℓ} → List A → ℕ → Run A
load xs i = elim (get_elem? xs i) [ none ↦ fault | some a ↦ ok a ]

-- A write of one element of a block.
abbrev pub store {ℓ} : {A : Type ℓ} → List A → ℕ → A → Run (List A)
store xs i a = if ltb i (length xs) then ok (set xs i a) else fault

-- `memmove` of `n` elements inside one block, from index `src` to index `dst`.
abbrev pub memmove {ℓ} : {A : Type ℓ} → List A → ℕ → ℕ → ℕ → Run (List A)
memmove xs dst src n =
    if leb (src + n) (length xs) && leb (dst + n) (length xs)
    then ok (take dst xs ++ (take n (drop src xs) ++ drop (dst + n) xs))
    else fault
