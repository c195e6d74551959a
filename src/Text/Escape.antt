-- ===== src/Text/Escape.antt =====
-- Percent escapes of sdk/src/utils.c: decodeBase16, encodeBase16, dslink_str_escape and dslink_str_unescape.
-- `char` is signed, as on the platforms that the broker is built for: a byte from 128 on is below zero.
pub mod Correct
pub mod Tests
use sdk_dslink_c.Prelude.{
  ℕ, suc, ◌+◌, ◌*◌, ◌-◌, ◌/◌, ◌%◌, Bool, true, false, ◌&&◌, ◌||◌, [], ◌∷◌, ◌++◌, Option, none, some,
  ◌==◌, leb, ltb, if◌then◌else◌,
}
use sdk_dslink_c.Prelude.{ℤ, pos, negsuc}
use sdk_dslink_c.Prelude.{length}
use sdk_dslink_c.Prelude.Run.{Run, ok, fault}
use sdk_dslink_c.Prelude.Bytes.{Bytes}

abbrev pub percent : ℕ
percent = b'%'

unfoldable pub decode_base16 : ℕ → ℤ
decode_base16 c =
    if leb b'0' c && leb c b'9'
    then pos (c - b'0')
    else if leb b'a' c && leb c b'f'
    then pos (c - (b'a' - 10))
    else if leb b'A' c && leb c b'F'
    then pos (c - (b'A' - 10))
    else negsuc 0

-- The byte of the result: (char)-1 is the byte 255.
unfoldable pub encode_base16 : ℤ → ℕ
encode_base16 (pos n) = if ltb n 10 then n + b'0' else if ltb n 16 then n + (b'A' - 10) else 255
encode_base16 (negsuc n) = 255

-- `*data >> 4`, an arithmetic shift of a signed char.
unfoldable pub high_nibble : ℕ → ℤ
high_nibble c = if ltb c 128 then pos (c / 16) else negsuc ((255 - c) / 16)

-- `*data & 0xF`
unfoldable pub low_nibble : ℕ → ℤ
low_nibble c = pos (c % 16)

-- `*data <= ',' || *data == '/' || *data == ':' || *data == '='`
unfoldable pub is_special : ℕ → Bool
is_special c = (leb c b',' || leb 128 c) || (c == b'/' || (c == b':' || c == b'='))

-- The first loop: what `lenoff` grows by.
unfoldable pub extra : Bytes → ℕ
extra [] = 0
extra (c ∷ s) = if is_special c || c == percent then 2 + extra s else extra s

-- The second loop. Its test for '%' reads `*search`, which is the final NUL: it never holds.
unfoldable pub escape_bytes : Bytes → Bytes
escape_bytes [] = []
escape_bytes (c ∷ s) =
    if is_special c
    then percent ∷ encode_base16 (high_nibble c) ∷ encode_base16 (low_nibble c) ∷ escape_bytes s
    else c ∷ escape_bytes s

-- The bytes go into a block of strlen(data) + lenoff, the final NUL behind them.
unfoldable pub escape : Option Bytes → Run (Option Bytes)
escape none = ok none
escape (some s) =
    if leb (suc (length (escape_bytes s))) (length s + (1 + extra s))
    then ok (some (escape_bytes s))
    else fault

-- The byte that "%de" stands for.
unfoldable pub decoded : ℕ → ℕ → ℕ → Option ℕ
decoded c d e =
    if c == percent
    then elim (decode_base16 d) [
      | pos m ↦ elim (decode_base16 e) [ pos n ↦ some (m * 16 + n) | negsuc n ↦ none ]
      | negsuc m ↦ none
    ]
    else none

-- The loop. The final NUL is no digit, so a '%' among the last two bytes stands for itself.
unfoldable pub unescape_bytes : Bytes → Bytes
unescape_bytes [] = []
unescape_bytes (c ∷ []) = c ∷ []
unescape_bytes (c ∷ d ∷ []) = c ∷ d ∷ []
unescape_bytes (c ∷ d ∷ e ∷ s) = elim (decoded c d e) [
  | none ↦ c ∷ unescape_bytes (d ∷ e ∷ s)
  | some b ↦ b ∷ unescape_bytes s
]

-- The result is written into a block of strlen(data) + 1 bytes.
unfoldable pub unescape : Option Bytes → Run (Option Bytes)
unescape none = ok none
unescape (some s) =
    if leb (suc (length (unescape_bytes s))) (length s + 1)
    then ok (some (unescape_bytes s))
    else fault
