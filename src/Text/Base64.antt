-- ===== src/Text/Base64.antt =====
-- sdk/src/base64_url.c: base64 with the alphabet for URLs, without padding.
--
-- Bytes and characters are numbers below 256, `int` and `uint32_t` values are written with / and % as the shifts and
-- masks have it. A result is the code, the value of `*oLen` (0 where the code
-- does not set it), and the bytes written to `dst`.
pub mod Tables
pub mod RoundTrip
pub mod Bounds
mod Tests
use sdk_dslink_c.Prelude.{
  ℕ, zero, suc, ◌+◌, ◌-◌, ◌*◌, ◌/◌, ◌%◌, ◌^◌, Bool, true, false, not, ◌&&◌, ◌||◌, List, [], ◌∷◌,
  ◌++◌, Option, none, some, ltb, leb, ◌==◌, if◌then◌else◌, length, get_or, take, ℤ, pos, negsuc,
}
use sdk_dslink_c.Prelude.Run.{Run, ok, fault, ◌>>=◌}
use sdk_dslink_c.Prelude.Bytes.{Bytes, codes}

-- `MBEDTLS_ERR_BASE64_BUFFER_TOO_SMALL` and `MBEDTLS_ERR_BASE64_INVALID_CHARACTER` of mbedtls/base64.h
pub record Codes : Type 0 where
  pub too_small : ℤ
  pub invalid_character : ℤ

pub record Result : Type 0 where
  pub code : ℤ
  pub o_len : ℕ
  pub written : Bytes

abbrev pub size_max : ℕ
size_max = 2 ^ 64 - 1

abbrev pub enc_map : Bytes
enc_map = codes "ABCDEFGHIJKLMNOPQRSTUVWXYZabcdefghijklmnopqrstuvwxyz0123456789-_"

-- `base64_enc_map_[i & 0x3F]`
unfoldable pub enc : ℕ → ℕ
enc i = get_or enc_map (i % 64) 0

-- The two loops over the input, three bytes at a time.
unfoldable pub encode_groups : Bytes → Bytes
unfolding enc
encode_groups [] = []
encode_groups (a ∷ []) = enc (a / 4) ∷ enc (a % 4 * 16 + 0 / 16) ∷ []
encode_groups (a ∷ b ∷ []) = enc (a / 4) ∷ enc (a % 4 * 16 + b / 16) ∷ enc (b % 16 * 4) ∷ []
encode_groups (a ∷ b ∷ c ∷ src) =
    enc (a / 4) ∷ enc (a % 4 * 16 + b / 16) ∷ enc (b % 16 * 4 + c / 64) ∷ enc c ∷ encode_groups src

-- The number of groups, the last one rounded up.
abbrev pub groups_of : ℕ → ℕ
groups_of s_len = s_len / 3 + (if s_len % 3 == 0 then 0 else 1)

module _ (codes_of : Codes) where
  -- What is written ends with a NUL, which `*oLen` does not count. A write behind `d_len` bytes is a fault.
  unfoldable pub base64_url_encode : ℕ → Bytes → Run Result
  unfolding encode_groups
  base64_url_encode d_len src =
      if length src == 0
      then ok (record { code = pos 0; o_len = 0; written = [] })
      else let n = groups_of (length src) in
        if ltb ((size_max - 1) / 4) n
        then ok (record { code = codes_of.too_small; o_len = size_max; written = [] })
        else if ltb d_len (n * 4 + 1)
        then ok (record { code = codes_of.too_small; o_len = n * 4 + 1; written = [] })
        else let text = encode_groups src in
          if ltb d_len (length text + 1)
          then fault
          else ok (record { code = pos 0; o_len = length text; written = text ++ (0 ∷ []) })

-- `base64_dec_map_`: 127 where the alphabet has no character, 64 for '='.
unfoldable pub dec : ℕ → ℕ
dec c =
    if leb b'A' c && leb c b'Z'
    then c - b'A'
    else if leb b'a' c && leb c b'z'
    then c - b'a' + 26
    else if leb b'0' c && leb c b'9'
    then c - b'0' + 52
    else if c == b'-'
    then 62
    else if c == b'_'
    then 63
    else if c == b'='
    then 64
    else 127

abbrev pub newline : ℕ
newline = 10

abbrev pub return_char : ℕ
return_char = 13

abbrev pub starts_newline : Bytes → Bool
starts_newline [] = false
starts_newline (c ∷ s) = c == newline

-- The first pass: the number of characters and of dots, or `none` where the code returns INVALID_CHARACTER. `spaced`
-- tells whether spaces stand before this place (their count, a uint32_t, is taken not to wrap). The test for 128 in the code never holds.
unfoldable pub scan : Bool → ℕ → ℕ → Bytes → Option (ℕ × ℕ)
scan spaced j n [] = some (n, j)
scan spaced j n (c ∷ s) =
    let after_space = scan true j n s in
    let after_line = scan false j n s in
    let dots = if c == b'.' then j + 1 else j in
    let after = scan false dots (n + 1) s in
    if c == b' '
    then after_space
    else if (c == return_char && starts_newline s) || c == newline
    then after_line
    else if spaced
    then none
    else if c == b'.' && ltb 2 dots
    then none
    else if ltb 127 c
    then none
    else if ltb (dec c) 64 && not (dots == 0)
    then none
    else after

-- What the second pass writes for a full group of four, `j` of three bytes.
abbrev pub group_bytes : ℕ → ℕ → Bytes
group_bytes j x =
    (if ltb 0 j then (x / 65536 % 256) ∷ [] else [])
    ++ ((if ltb 1 j then (x / 256 % 256) ∷ [] else []) ++ (if ltb 2 j then (x % 256) ∷ [] else []))

-- The second pass, with the rounds that are left; `memory` is what lies at `src`, and a read behind it, or behind
-- base64_dec_map_, is a fault.
unfoldable pub decode_loop : ℕ → Bytes → ℕ → ℕ → ℕ → Run Bytes
decode_loop zero memory j n x = ok []
decode_loop (suc i) [] j n x = fault
decode_loop (suc i) (c ∷ memory) j n x =
    let skip = decode_loop i memory j n x in
    let j' = if dec c == 64 then (j + 2 ^ 32 - 1) % 2 ^ 32 else j in
    let x' = (x * 64 + dec c % 64) % 2 ^ 32 in
    let group = decode_loop i memory j' 0 x' >>= λ rest. ok (group_bytes j' x' ++ rest) in
    let more = decode_loop i memory j' (n + 1) x' in
    if c == return_char || (c == newline || c == b' ')
    then skip
    else if leb 128 c
    then fault
    else if n + 1 == 4
    then group
    else more

module _ (codes_of : Codes) where
  -- `memory` is the block at `src`, of which the text is the first `s_len` bytes.
  unfoldable pub base64_url_decode : Option ℕ → Bytes → ℕ → Run Result
  unfolding scan decode_loop
  base64_url_decode d_len memory s_len = elim (scan false 0 0 (take s_len memory)) [
    | none ↦ ok (record { code = codes_of.invalid_character; o_len = 0; written = [] })
    | some (count, dots) ↦
        if count == 0
        then ok (record { code = pos 0; o_len = 0; written = [] })
        else let n = (count * 6 + 7) / 8 - dots in
          elim d_len [
            | none ↦ ok (record { code = codes_of.too_small; o_len = n; written = [] })
            | some room ↦
                let aligned = (s_len + 3) / 4 * 4 in
                if ltb room n
                then ok (record { code = codes_of.too_small; o_len = n; written = [] })
                else do
                  out ← decode_loop aligned memory 3 0 0
                  (if ltb room (length out)
                      then fault
                      else ok (record {
                        code = pos 0;
                        o_len = (length out + 2 ^ 64 - (aligned - s_len)) % 2 ^ 64;
                        written = out;
                      }))
          ]
  ]
