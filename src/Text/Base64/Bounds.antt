-- ===== src/Text/Base64/Bounds.antt =====
-- The buffers of sdk/src/base64_url.c.
use sdk_dslink_c.Prelude.{
  ℕ, zero, suc, ◌+◌, ◌-◌, ◌*◌, ◌/◌, ◌%◌, ◌^◌, ◌≤◌, ◌<◌, ◌≡◌, ◌≢◌, refl, ap, ◌∙◌, false, [], ◌∷◌,
  ◌++◌, some, arith, ltb, ◌==◌, length, length-append, Bool-cases, inl, inr, pos, take-all,
}
use sdk_dslink_c.Prelude.Run.{ok, fault}
use sdk_dslink_c.Prelude.Bytes.{Bytes}
use sdk_dslink_c.Text.Base64.{
  size_max, Codes, Result, dec, encode_groups, groups_of, base64_url_encode, scan, decode_loop,
  base64_url_decode,
}
use sdk_dslink_c.Text.Base64.Tables.{decode_loop-code, AllCode}

-- The characters that the groups take.
pub length-encode_groups :
    (src : Bytes)
    → (length (encode_groups src) ≤ groups_of (length src) * 4)
      × (length src % 3 ≡ 0 → length (encode_groups src) ≡ length src / 3 * 4)
unfolding encode_groups
length-encode_groups [] = (omega arith, λ h. omega arith)
length-encode_groups (a ∷ []) = (ground arith, λ h. absurd (omega arith))
length-encode_groups (a ∷ b ∷ []) = (ground arith, λ h. absurd (omega arith))
length-encode_groups (a ∷ b ∷ c ∷ src) =
    let (fits, exact) = length-encode_groups src in
    (ground (arith, fits), λ h. ground (arith, exact))

-- With room for the groups and a NUL, the text is written.
pub base64_url_encode-text :
    (codes : Codes) (d_len : ℕ) (src : Bytes)
    → (length src == 0) ≡ false
    → ltb ((size_max - 1) / 4) (groups_of (length src)) ≡ false
    → ltb d_len (groups_of (length src) * 4 + 1) ≡ false
    → base64_url_encode codes d_len src
      ≡ ok (record {
        code = pos 0;
        o_len = length (encode_groups src);
        written = encode_groups src ++ (0 ∷ []);
      })
unfolding base64_url_encode
base64_url_encode-text codes d_len src filled fine room =
    let (fits, exact) = length-encode_groups src in
    let safe : ltb d_len (length (encode_groups src) + 1) ≡ false = ground (arith, fits, room) in
    rw (◌==◌, filled) (rw (ltb, fine) (rw (ltb, room) (rw (ltb, safe) refl)))

-- dslink_base64_url_encode never writes behind its buffer, for any length of the buffer and any input.
pub base64_url_encode-fits :
    (codes : Codes) (d_len : ℕ) (src : Bytes)
    → (r : Result) × (base64_url_encode codes d_len src ≡ ok r) × (length r.written ≤ d_len)
unfolding base64_url_encode
base64_url_encode-fits codes d_len src =
    let (fits, exact) = length-encode_groups src in
    let tail = length-append (encode_groups src) (0 ∷ []) in
    let n = groups_of (length src) in
    elim (Bool-cases (length src == 0)) [
      | inl empty ↦
          (record { code = pos 0; o_len = 0; written = [] }, rw (◌==◌, empty) refl, omega arith)
      | inr filled ↦ elim (Bool-cases (ltb ((size_max - 1) / 4) n)) [
        | inl huge ↦ (
          record { code = codes.too_small; o_len = size_max; written = [] },
          rw (◌==◌, filled) (rw (ltb, huge) refl),
          omega arith,
        )
        | inr fine ↦ elim (Bool-cases (ltb d_len (n * 4 + 1))) [
          | inl small ↦ (
            record { code = codes.too_small; o_len = n * 4 + 1; written = [] },
            rw (◌==◌, filled) (rw (ltb, fine) (rw (ltb, small) refl)),
            omega arith,
          )
          | inr room ↦ (
            record {
              code = pos 0;
              o_len = length (encode_groups src);
              written = encode_groups src ++ (0 ∷ []);
            },
            base64_url_encode-text codes d_len src filled fine room,
            ground (arith, fits, tail),
          )
        ]
      ]
    ]

-- The first pass counts the characters of the alphabet.
scan-AllCode : (n : ℕ) (t : Bytes) → AllCode t → scan false 0 n t ≡ some (n + length t, 0)
unfolding scan
scan-AllCode n [] h = ground arith
scan-AllCode n (c ∷ t) h = ground (arith, scan-AllCode (n + 1) t)

pub scan_all : (t : Bytes) → AllCode t → scan false 0 0 t ≡ some (length t, 0)
scan_all t h =
    scan-AllCode 0 t h ∙ ap (λ n. some (n, 0)) {x = 0 + length t} {y = length t} (omega arith)

decode_loop-over :
    (i : ℕ) (t : Bytes) (j n x : ℕ) → AllCode t → length t < i → decode_loop i t j n x ≡ fault
unfolding decode_loop
decode_loop-over zero t j n x h l = absurd (omega arith)
decode_loop-over (suc i) [] j n x h l = refl
decode_loop-over (suc i) (c ∷ t) j n x (code, rest) l =
    let x' = (x * 64 + dec c) % 2 ^ 32 in
    rw (decode_loop-code i c (dec c) t j n x code) (elim (Bool-cases (n + 1 == 4)) [
      | inl full ↦ rw (◌==◌, full) (rw (decode_loop-over i t j 0 x' rest (omega arith)) refl)
      | inr more ↦ rw (◌==◌, more) (decode_loop-over i t j (n + 1) x' rest (omega arith))
    ])

-- dslink_base64_url_decode reads behind its input when a text of the alphabet has a length that is no multiple of four and
-- ends where its block ends, whenever the buffer for the bytes is large enough.
pub base64_url_decode-over_reads :
    (codes : Codes) (t : Bytes) (room : ℕ)
    → AllCode t
    → length t % 4 ≢ 0
    → (length t * 6 + 7) / 8 ≤ room
    → base64_url_decode codes (some room) t (length t) ≡ fault
unfolding base64_url_decode
base64_url_decode-over_reads codes t room h odd fits =
    let some_text : (length t == 0) ≡ false = ground (arith, odd) in
    let large : ltb room ((length t * 6 + 7) / 8 - 0) ≡ false = ground (arith, fits) in
    let found = ap (scan false 0 0) (take-all (length t) t (omega arith)) ∙ scan_all t h in
    rw (base64_url_decode, found)
      (rw (◌==◌, some_text)
        (rw (ltb, large)
          (rw (decode_loop-over ((length t + 3) / 4 * 4) t 3 0 0 h (omega (arith, odd))) refl)))
