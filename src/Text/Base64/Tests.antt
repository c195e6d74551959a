-- ===== src/Text/Base64/Tests.antt =====
-- Witnesses of the theorems on base64_url.c.
use sdk_dslink_c.Prelude.{◌≤◌, ◌≡◌, [], ◌∷◌, arith, some, pos, negsuc, length}
use sdk_dslink_c.Prelude.Run.{ok, fault}
use sdk_dslink_c.Prelude.Bytes.{codes}
use sdk_dslink_c.Text.Base64.{
  Codes, Result, enc, dec, encode_groups, base64_url_encode, base64_url_decode,
}
use sdk_dslink_c.Text.Base64.Tables.{encode_groups-AllCode}
use sdk_dslink_c.Text.Base64.Bounds.{base64_url_encode-fits, base64_url_decode-over_reads}
use sdk_dslink_c.Text.Base64.RoundTrip.{base64_url_decode-encode}

abbrev test_codes : Codes
test_codes = record { too_small = negsuc 41; invalid_character = negsuc 43 }

base64_url_decode-encode_example :
    (r : Result) × (base64_url_encode test_codes 9 (255 ∷ 0 ∷ 7 ∷ 65 ∷ 66 ∷ 67 ∷ []) ≡ ok r)
    × (r.code ≡ pos 0)
    × (base64_url_decode test_codes (some 6) r.written r.o_len
        ≡ ok (record { code = pos 0; o_len = 6; written = 255 ∷ 0 ∷ 7 ∷ 65 ∷ 66 ∷ 67 ∷ [] }))
base64_url_decode-encode_example =
    base64_url_decode-encode test_codes (255 ∷ 0 ∷ 7 ∷ 65 ∷ 66 ∷ 67 ∷ []) 9 6
      (omega arith, (omega arith, (omega arith, (omega arith, (omega arith, (omega arith, tt))))))
      (omega arith) (λ e. cc) (omega arith) (omega arith) (omega arith)

base64_url_encode-fits_example :
    (r : Result) × (base64_url_encode test_codes 3 (65 ∷ 66 ∷ []) ≡ ok r) × (length r.written ≤ 3)
base64_url_encode-fits_example = base64_url_encode-fits test_codes 3 (65 ∷ 66 ∷ [])

base64_url_decode-over_reads_example : base64_url_decode test_codes (some 9) (codes "QUI") 3 ≡ fault
unfolding encode_groups enc dec
base64_url_decode-over_reads_example =
    base64_url_decode-over_reads test_codes (codes "QUI") 9 (encode_groups-AllCode (65 ∷ 66 ∷ []))
      (omega arith) (omega arith)
