-- ===== src/Text/Base64/RoundTrip.antt =====
-- dslink_base64_url_encode and then dslink_base64_url_decode, of sdk/src/base64_url.c.
use sdk_dslink_c.Prelude.{
  ℕ, suc, ◌+◌, ◌-◌, ◌*◌, ◌/◌, ◌%◌, ◌^◌, ◌≤◌, ◌<◌, ◌≡◌, ◌≢◌, refl, ap, ◌∙◌, false, [], ◌∷◌, ◌++◌,
  some, arith, ltb, ◌==◌, length, take, take-append_le, take-all, le→ltb, ne→==, pos,
}
use sdk_dslink_c.Prelude.Run.{ok}
use sdk_dslink_c.Prelude.Bytes.{Bytes}
use sdk_dslink_c.Text.Base64.{
  Codes, Result, enc, encode_groups, groups_of, group_bytes, base64_url_encode, scan, decode_loop,
  base64_url_decode, size_max,
}
use sdk_dslink_c.Text.Base64.Tables.{AllCode, encode_groups-AllCode, enc-IsCode, decode_loop-code}
use sdk_dslink_c.Text.Base64.Bounds.{scan_all, base64_url_encode-text, length-encode_groups}

abbrev pub AllByte : Bytes → Type 0
AllByte [] = Unit
AllByte (b ∷ s) = b < 256 × AllByte s

-- A round shifts the low `m` bits up and adds its six.
shift6 : (y k : ℕ) → k < 64 → (y * 64 + k) % 2 ^ 32 % 64 ≡ k
shift6 y k h = omega arith

shift12 : (y k : ℕ) → k < 64 → (y * 64 + k) % 2 ^ 32 % 4096 ≡ y % 64 * 64 + k
shift12 y k h = omega arith

shift18 : (y k : ℕ) → k < 64 → (y * 64 + k) % 2 ^ 32 % 262144 ≡ y % 4096 * 64 + k
shift18 y k h = omega arith

shift24 : (y k : ℕ) → k < 64 → (y * 64 + k) % 2 ^ 32 % 16777216 ≡ y % 262144 * 64 + k
shift24 y k h = omega arith

group_value :
    (x a b c : ℕ)
    → a < 256
    → b < 256
    → c < 256
    → (let x1 = (x * 64 + a / 4 % 64) % 2 ^ 32 in
        let x2 = (x1 * 64 + (a % 4 * 16 + b / 16) % 64) % 2 ^ 32 in
        let x3 = (x2 * 64 + (b % 16 * 4 + c / 64) % 64) % 2 ^ 32 in
        (x3 * 64 + c % 64) % 2 ^ 32 % 16777216)
      ≡ a * 65536 + b * 256 + c
group_value x a b c ha hb hc =
    let k1 = a / 4 % 64 in
    let k2 = (a % 4 * 16 + b / 16) % 64 in
    let k3 = (b % 16 * 4 + c / 64) % 64 in
    let x1 = (x * 64 + k1) % 2 ^ 32 in
    let x2 = (x1 * 64 + k2) % 2 ^ 32 in
    let x3 = (x2 * 64 + k3) % 2 ^ 32 in
    rw
      (
        shift24 x3 (c % 64) (omega arith),
        shift18 x2 k3 (omega arith),
        shift12 x1 k2 (omega arith),
        shift6 x k1 (omega arith),
      )
      (omega arith)

group_bytes_of :
    (v a b c : ℕ)
    → a < 256
    → b < 256
    → c < 256
    → v % 16777216 ≡ a * 65536 + b * 256 + c
    → group_bytes 3 v ≡ a ∷ b ∷ c ∷ []
group_bytes_of v a b c ha hb hc e =
    rw
      (
        ap (λ n. n) {x = v / 65536 % 256} {y = a} (omega arith),
        ap (λ n. n) {x = v / 256 % 256} {y = b} (omega arith),
        ap (λ n. n) {x = v % 256} {y = c} (omega arith),
      )
      refl

decode_loop-encode_groups :
    (src tail : Bytes) (x : ℕ)
    → AllByte src
    → length src % 3 ≡ 0
    → decode_loop (length (encode_groups src)) (encode_groups src ++ tail) 3 0 x ≡ ok src
unfolding decode_loop encode_groups
decode_loop-encode_groups [] tail x h m = refl
decode_loop-encode_groups (a ∷ []) tail x h m = absurd (omega arith)
decode_loop-encode_groups (a ∷ b ∷ []) tail x h m = absurd (omega arith)
decode_loop-encode_groups (a ∷ b ∷ c ∷ src) tail x (ha, (hb, (hc, rest))) m =
    let k1 = a / 4 % 64 in
    let k2 = (a % 4 * 16 + b / 16) % 64 in
    let k3 = (b % 16 * 4 + c / 64) % 64 in
    let k4 = c % 64 in
    let x1 = (x * 64 + k1) % 2 ^ 32 in
    let x2 = (x1 * 64 + k2) % 2 ^ 32 in
    let x3 = (x2 * 64 + k3) % 2 ^ 32 in
    let x4 = (x3 * 64 + k4) % 2 ^ 32 in
    let text = encode_groups src ++ tail in
    let i = length (encode_groups src) in
    let s4 = enc c ∷ text in
    let s3 = enc (b % 16 * 4 + c / 64) ∷ s4 in
    let s2 = enc (a % 4 * 16 + b / 16) ∷ s3 in
    decode_loop-code (suc (suc (suc i))) (enc (a / 4)) k1 s2 3 0 x (enc-IsCode (a / 4))
    ∙ decode_loop-code (suc (suc i)) (enc (a % 4 * 16 + b / 16)) k2 s3 3 1 x1
        (enc-IsCode (a % 4 * 16 + b / 16))
    ∙ decode_loop-code (suc i) (enc (b % 16 * 4 + c / 64)) k3 s4 3 2 x2
        (enc-IsCode (b % 16 * 4 + c / 64))
    ∙ decode_loop-code i (enc c) k4 text 3 3 x3 (enc-IsCode c)
    ∙ rw (decode_loop-encode_groups src tail x4 rest (omega (arith, m))) (
        ap (λ bs. ok (bs ++ src)) (group_bytes_of x4 a b c ha hb hc (group_value x a b c ha hb hc)))

scan_written :
    (t : Bytes) → AllCode t → scan false 0 0 (take (length t) (t ++ (0 ∷ []))) ≡ some (length t, 0)
scan_written t h =
    ap (scan false 0 0)
      (take-append_le (length t) t (0 ∷ []) (omega arith) ∙ take-all (length t) t (omega arith))
    ∙ scan_all t h

len_ne : (src : Bytes) → src ≢ [] → length src % 3 ≡ 0 → {n : ℕ} → n ≡ length src / 3 * 4 → n ≢ 0
len_ne [] filled whole h e = filled refl
len_ne (a ∷ src) filled whole h e = omega arith

decode_whole :
    (src : Bytes) (x : ℕ)
    → AllByte src
    → length src % 3 ≡ 0
    → length (encode_groups src) ≡ length src / 3 * 4
    → decode_loop ((length (encode_groups src) + 3) / 4 * 4) (encode_groups src ++ (0 ∷ [])) 3 0 x
      ≡ ok src
decode_whole src x bytes whole len =
    ap (λ i. decode_loop i (encode_groups src ++ (0 ∷ [])) 3 0 x)
      {x = (length (encode_groups src) + 3) / 4 * 4} {y = length (encode_groups src)}
      (omega (arith, len))
    ∙ decode_loop-encode_groups src (0 ∷ []) x bytes whole

-- A text of whole groups, decoded after it was encoded, is itself. The buffers are large enough.
pub base64_url_decode-encode :
    (codes : Codes) (src : Bytes) (d_len room : ℕ)
    → AllByte src
    → length src % 3 ≡ 0
    → src ≢ []
    → length src / 3 * 4 < d_len
    → length src ≤ room
    → length src < 2 ^ 61
    → (r : Result) × (base64_url_encode codes d_len src ≡ ok r)
      × (r.code ≡ pos 0)
      × (base64_url_decode codes (some room) r.written r.o_len
          ≡ ok (record { code = pos 0; o_len = length src; written = src }))
unfolding base64_url_encode base64_url_decode
base64_url_decode-encode codes src d_len room bytes whole some_bytes fits room_fits small =
    let text = encode_groups src in
    let (bound, exact) = length-encode_groups src in
    let len = exact whole in
    let n_groups : groups_of (length src) ≡ length src / 3 = ground (arith, whole) in
    let filled : (length src == 0) ≡ false = ground (arith, some_bytes) in
    let fine : ltb ((size_max - 1) / 4) (groups_of (length src)) ≡ false =
      le→ltb ((size_max - 1) / 4) (groups_of (length src)) (omega (arith, n_groups, small)) in
    let space : ltb d_len (groups_of (length src) * 4 + 1) ≡ false =
      le→ltb d_len (groups_of (length src) * 4 + 1) (omega (arith, n_groups, fits)) in
    let found = scan_written text (encode_groups-AllCode src) in
    let some_text : (length text == 0) ≡ false =
      ne→== (length text) 0 (len_ne src some_bytes whole len) in
    let large : ltb room ((length text * 6 + 7) / 8 - 0) ≡ false =
      le→ltb room ((length text * 6 + 7) / 8 - 0) (omega (arith, len, whole, room_fits)) in
    let read = decode_whole src 0 bytes whole len in
    let fits_room : ltb room (length src) ≡ false = le→ltb room (length src) room_fits in
    (
      record { code = pos 0; o_len = length text; written = text ++ (0 ∷ []) },
      base64_url_encode-text codes d_len src filled fine space,
      refl,
      rw (base64_url_decode, found)
          (rw (◌==◌, some_text)
            (rw (ltb, large)
              (rw (read) (
                rw (ltb, fits_room)
                  (ap (λ n. ok (record { code = pos 0; o_len = n; written = src }))
                    {x = (length src + 2 ^ 64 - ((length text + 3) / 4 * 4 - length text)) % 2 ^ 64}
                    {y = length src} (omega (arith, len, whole, small))))))),
    )
