-- ===== src/Prelude/Int.antt =====
-- The signed results of C functions, of which only the sign and the value are looked at, and
-- arithmetic of `uint32_t`, which wraps.
use Prim.Native.Nat.{ℕ, zero, suc, ◌+◌, ◌-◌, ◌^◌, ◌%◌}
use mathlib.Core.Bool.{Bool, true, false}
use mathlib.Core.Path.{◌≡◌, refl, sym}
use native.Mathlib.Omega.{arith}
use sdk_dslink_c.Prelude.Tests.{ltb, if◌then◌else◌}

-- `negsuc n` is -(n + 1).
pub data ℤ : Type 0 where
  pos : ℕ → ℤ
  negsuc : ℕ → ℤ

abbrev pub minus_one : ℤ
minus_one = negsuc 0

-- `z == 0`, `z > 0`, `z >= 0`
abbrev pub is_zero : ℤ → Bool
is_zero (pos zero) = true
is_zero (pos (suc n)) = false
is_zero (negsuc n) = false

abbrev pub is_positive : ℤ → Bool
is_positive (pos zero) = false
is_positive (pos (suc n)) = true
is_positive (negsuc n) = false

abbrev pub is_natural : ℤ → Bool
is_natural (pos n) = true
is_natural (negsuc n) = false

-- `(int) n` of a `uint32_t`, on a machine where it wraps.
abbrev pub as_int : ℕ → ℤ
as_int n = if ltb n (2 ^ 31) then pos n else negsuc (2 ^ 32 - 1 - n)

abbrev pub add32 : ℕ → ℕ → ℕ
add32 a b = (a + b) % 2 ^ 32

abbrev pub sub32 : ℕ → ℕ → ℕ
sub32 a b = (a + 2 ^ 32 - b) % 2 ^ 32

pub zero_of_natural : (z : ℤ) → is_natural z ≡ true → is_positive z ≡ false → is_zero z ≡ true
zero_of_natural (pos zero) n p = refl
zero_of_natural (pos (suc k)) n p = sym p
zero_of_natural (negsuc k) n p = n

pub zero_of_positive : (z : ℤ) → is_positive z ≡ true → is_zero z ≡ false
zero_of_positive z p = ground arith

pub zero_of_negative : (z : ℤ) → is_natural z ≡ false → is_zero z ≡ false
zero_of_negative z p = ground arith

pub natural_of_positive : (z : ℤ) → is_positive z ≡ true → is_natural z ≡ true
natural_of_positive z p = ground arith

pub natural_of_zero : (z : ℤ) → is_zero z ≡ true → is_natural z ≡ true
natural_of_zero z p = ground arith

pub positive_of_zero : (z : ℤ) → is_zero z ≡ true → is_positive z ≡ false
positive_of_zero z p = ground arith

pub negative_of : (z : ℤ) → is_zero z ≡ false → is_positive z ≡ false → is_natural z ≡ false
negative_of z n p = ground arith

pub positive_of : (z : ℤ) → is_natural z ≡ true → is_zero z ≡ false → is_positive z ≡ true
positive_of (pos zero) n p = sym p
positive_of (pos (suc k)) n p = refl
positive_of (negsuc k) n p = n
