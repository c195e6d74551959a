-- ===== src/Text/Base64/Tables.antt =====
-- The alphabet of sdk/src/base64_url.c, from values to characters and back.
use sdk_dslink_c.Prelude.{
  ◌^◌, leb, false, if◌then◌else◌, ◌+◌, ◌*◌, ◌/◌, ℕ, zero, suc, ◌%◌, ◌<◌, ◌≡◌, ◌≢◌, refl, ap, subst,
  Bool, true, ◌&&◌, not, [], ◌∷◌, ◌++◌, arith, ltb, ◌==◌, get_or,
}
use sdk_dslink_c.Prelude.Run.{ok, ◌>>=◌}
use sdk_dslink_c.Prelude.Bytes.{Bytes}
use sdk_dslink_c.Text.Base64.{
  decode_loop, group_bytes, return_char, newline, enc, enc_map, dec, encode_groups,
}

all_below : ℕ → (ℕ → Bool) → Bool
all_below zero p = true
all_below (suc n) p = p n && all_below n p

all_below-lem : (n : ℕ) (p : ℕ → Bool) (i : ℕ) → all_below n p ≡ true → i < n → p i ≡ true
unfolding all_below
all_below-lem zero p i h lt = absurd (omega arith)
all_below-lem (suc n) p i h lt = ground (arith, all_below-lem n p i)

-- A character that stands for a value below 64, and is no dot, space or end of a line.
pub record IsCode (c k : ℕ) : Type 0 where
  pub value : dec c ≡ k
  pub small : k < 64
  pub ascii : c < 128
  pub no_space : c ≢ 32
  pub no_newline : c ≢ 10
  pub no_return : c ≢ 13
  pub no_dot : c ≢ 46

abbrev is_code : ℕ → Bool
is_code i =
    dec (enc i) == i
    && (ltb (enc i) 128
        && (not (enc i == 32) && (not (enc i == 10) && (not (enc i == 13) && not (enc i == 46)))))

table : all_below 64 is_code ≡ true
unfolding all_below enc dec
table = refl

enc-IsCode_below : (i : ℕ) → i < 64 → IsCode (enc i) i
enc-IsCode_below i h = ground (arith, all_below-lem 64 is_code i table)

pub enc-IsCode : (i : ℕ) → IsCode (enc i) (i % 64)
unfolding enc
enc-IsCode i = subst (λ c. IsCode c (i % 64)) same (enc-IsCode_below (i % 64) (omega arith))
  where
    same : enc (i % 64) ≡ enc i
    same = ap (λ k. get_or enc_map k 0) {x = i % 64 % 64} {y = i % 64} (omega arith)

abbrev pub AllCode : Bytes → Type 0
AllCode [] = Unit
AllCode (c ∷ s) = IsCode c (dec c) × AllCode s

enc-IsCode-dec : (i : ℕ) → IsCode (enc i) (dec (enc i))
enc-IsCode-dec i =
    let c = enc-IsCode i in
    record {
      value = refl;
      small = omega (arith, c.value, c.small);
      ascii = c.ascii;
      no_space = c.no_space;
      no_newline = c.no_newline;
      no_return = c.no_return;
      no_dot = c.no_dot;
    }

pub encode_groups-AllCode : (src : Bytes) → AllCode (encode_groups src)
unfolding encode_groups
encode_groups-AllCode [] = tt
encode_groups-AllCode (a ∷ []) =
    (enc-IsCode-dec (a / 4), (enc-IsCode-dec (a % 4 * 16 + 0 / 16), tt))
encode_groups-AllCode (a ∷ b ∷ []) = (
  enc-IsCode-dec (a / 4),
  (enc-IsCode-dec (a % 4 * 16 + b / 16), (enc-IsCode-dec (b % 16 * 4), tt)),
)
encode_groups-AllCode (a ∷ b ∷ c ∷ src) = (
  enc-IsCode-dec (a / 4),
  (
    enc-IsCode-dec (a % 4 * 16 + b / 16),
    (enc-IsCode-dec (b % 16 * 4 + c / 64), (enc-IsCode-dec c, encode_groups-AllCode src)),
  ),
)

-- A round of the second pass at a character of the alphabet.
pub decode_loop-code :
    (i c k : ℕ) (memory : Bytes) (j n x : ℕ)
    → IsCode c k
    → decode_loop (suc i) (c ∷ memory) j n x ≡ (
        let x' = (x * 64 + k) % 2 ^ 32 in
        if n + 1 == 4
        then (decode_loop i memory j 0 x' >>= λ rest. ok (group_bytes j x' ++ rest))
        else decode_loop i memory j (n + 1) x')
unfolding decode_loop
decode_loop-code i c k memory j n x code =
    let no_return : (c == return_char) ≡ false = ground (arith, code.no_return) in
    let no_newline : (c == newline) ≡ false = ground (arith, code.no_newline) in
    let no_space : (c == 32) ≡ false = ground (arith, code.no_space) in
    let ascii : leb 128 c ≡ false = ground (arith, code.ascii) in
    let no_pad : (k == 64) ≡ false = ground (arith, code.small) in
    let same : k % 64 ≡ k = omega (arith, code.small) in
    rw (no_return, no_newline, no_space, ascii, code.value, no_pad, same) refl
