-- ===== src/Text/Escape/Tests.antt =====
-- Runs of the percent escapes, and their theorems at concrete texts.
use sdk_dslink_c.Prelude.{◌≡◌, refl, true, [], ◌∷◌, some, arith}
use sdk_dslink_c.Prelude.Run.{ok}
use sdk_dslink_c.Prelude.Bytes.{Bytes, codes}
use sdk_dslink_c.Text.Escape.{
  escape, unescape, escape_bytes, unescape_bytes, is_special, extra, encode_base16, high_nibble,
  low_nibble, decoded, decode_base16,
}
use sdk_dslink_c.Text.Escape.Correct.{is_ascii, all_plain, unescape-escape, escape-collides}

path_escapes : escape (some (codes "/a b%")) ≡ ok (some (codes "%2Fa%20b%25"))
unfolding escape escape_bytes is_special extra encode_base16 high_nibble low_nibble
path_escapes = refl

lower_case_digits : unescape (some (codes "%2fa%2")) ≡ ok (some (codes "/a%2"))
unfolding unescape unescape_bytes decoded decode_base16
lower_case_digits = refl

unescape-escape_example :
    (t : Bytes) × (escape (some (codes "/a b%")) ≡ ok (some t))
    × (all_plain t ≡ true)
    × (unescape (some t) ≡ ok (some (codes "/a b%")))
unfolding is_ascii
unescape-escape_example = unescape-escape (codes "/a b%") refl

escape-collides_example : escape (some (164 ∷ [])) ≡ escape (some (180 ∷ []))
escape-collides_example = escape-collides 164 180 [] (omega arith) (omega arith) (omega arith)
