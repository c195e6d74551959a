-- ===== src/Col/Map/Hash.antt =====
-- The comparisons and the hash of map.c, and the maps on strings and on numbers that they make.
--
-- `hash_key` reads `len` bytes; `char` is signed, so a byte from 128 on counts below zero.
use sdk_dslink_c.Prelude.{
  ℕ, zero, suc, ◌+◌, ◌-◌, ◌*◌, ◌/◌, ◌%◌, ◌^◌, ◌≡◌, refl, Bool, true, false, ◌&&◌, [], ◌∷◌, arith,
  ltb, leb, ◌==◌, if◌then◌else◌, length, ℤ, pos, is_zero, add32,
}
use Prim.Native.Nat.{bit_xor}
use sdk_dslink_c.Prelude.Bytes.{Bytes}
use sdk_dslink_c.Col.Map.{Keys}
use sdk_dslink_c.Col.Map.Chain.{IsComparison}

-- `strncmp(a, b, n) == 0`, on texts without their final NUL.
unfoldable pub strncmp_equal : Bytes → Bytes → ℕ → Bool
strncmp_equal a b zero = true
strncmp_equal [] [] (suc n) = true
strncmp_equal [] (y ∷ b) (suc n) = false
strncmp_equal (x ∷ a) [] (suc n) = false
strncmp_equal (x ∷ a) (y ∷ b) (suc n) = x == y && strncmp_equal a b n

unfoldable pub map_str_cmp : Bytes → Bytes → ℕ → ℤ
unfolding strncmp_equal
map_str_cmp key other len =
    if strncmp_equal key other len && length key == len then pos 0 else pos 1

unfoldable pub map_uint32_cmp : ℕ → ℕ → ℕ → ℤ
map_uint32_cmp a b len = if a == b then pos 0 else pos 1

-- `*c` as a uint32_t
abbrev pub signed_char : ℕ → ℕ
signed_char c = if ltb c 128 then c else c + 2 ^ 32 - 256

abbrev pub shl32 : ℕ → ℕ → ℕ
shl32 x k = (x * 2 ^ k) % 2 ^ 32

-- The loop of the hash.
unfoldable pub hash_bytes : ℕ → Bytes → ℕ
hash_bytes hash [] = hash
hash_bytes hash (c ∷ s) =
    let a = add32 hash (signed_char c) in
    let b = add32 a (shl32 a 10) in hash_bytes (bit_xor b (b / 2 ^ 6)) s

unfoldable pub map_hash_key : Bytes → ℕ
unfolding hash_bytes
map_hash_key key =
    let hash = hash_bytes 0 key in
    let a = add32 hash (shl32 hash 3) in let b = bit_xor a (a / 2 ^ 11) in add32 b (shl32 b 15)

-- The bytes of a uint32_t, the lowest first.
abbrev pub bytes_of : ℕ → Bytes
bytes_of n = (n % 256) ∷ (n / 256 % 256) ∷ (n / 65536 % 256) ∷ (n / 16777216 % 256) ∷ []

-- A map with strings for keys, as dslink_map_init makes it with the two string functions; the load factor is 0.75.
abbrev pub str_keys : Keys Bytes
str_keys = record {
  equal = λ a b. is_zero (map_str_cmp a b (length b));
  hash_key = map_hash_key;
  is_loaded = λ size capacity. leb (3 * capacity) (4 * size);
}

abbrev pub uint32_keys : Keys ℕ
uint32_keys = record {
  equal = λ a b. is_zero (map_uint32_cmp a b 4);
  hash_key = λ n. map_hash_key (bytes_of n);
  is_loaded = λ size capacity. leb (3 * capacity) (4 * size);
}

strncmp_equal-eq : (a b : Bytes) → strncmp_equal a b (length b) ≡ true → length a ≡ length b → a ≡ b
unfolding strncmp_equal
strncmp_equal-eq [] [] h l = refl
strncmp_equal-eq [] (y ∷ b) h l = cc
strncmp_equal-eq (x ∷ a) [] h l = absurd (omega arith)
strncmp_equal-eq (x ∷ a) (y ∷ b) h l = ground (arith, strncmp_equal-eq a b)

strncmp_equal_refl : (a : Bytes) → strncmp_equal a a (length a) ≡ true
unfolding strncmp_equal
strncmp_equal_refl [] = refl
strncmp_equal_refl (x ∷ a) = ground (arith, strncmp_equal_refl a)

-- dslink_map_str_cmp with the length of the second text is 0 exactly on equal texts.
pub str_keys-IsComparison : IsComparison str_keys
unfolding map_str_cmp
str_keys-IsComparison = record { equal_iff = λ a b. (to a b, from a b) }
  where
    to : (a b : Bytes) → is_zero (map_str_cmp a b (length b)) ≡ true → a ≡ b
    to a b h = ground (arith, strncmp_equal-eq a b)

    from : (a b : Bytes) → a ≡ b → is_zero (map_str_cmp a b (length b)) ≡ true
    from a b e = rw e (ground (arith, strncmp_equal_refl b))

pub uint32_keys-IsComparison : IsComparison uint32_keys
unfolding map_uint32_cmp
uint32_keys-IsComparison = record { equal_iff = λ a b. ground arith }
