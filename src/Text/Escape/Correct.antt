-- ===== src/Text/Escape/Correct.antt =====
-- Theorems on the percent escapes of utils.c.
use sdk_dslink_c.Prelude.{
  ℕ, suc, ◌+◌, ◌≤◌, ◌/◌, ◌%◌, ◌∙◌, ◌≡◌, refl, ap, Bool, true, false, ◌&&◌, ◌||◌, not, [], ◌∷◌, some,
  arith, ltb, ◌==◌, length, Bool-cases, inl, inr, le→leb,
}
use sdk_dslink_c.Prelude.{pos}
use sdk_dslink_c.Prelude.Run.{ok}
use sdk_dslink_c.Prelude.Bytes.{Bytes}
use sdk_dslink_c.Text.Escape.{
  percent, decode_base16, encode_base16, high_nibble, low_nibble, is_special, extra, escape_bytes,
  escape, decoded, unescape_bytes, unescape,
}

-- Every byte is below 128.
unfoldable pub is_ascii : Bytes → Bool
is_ascii [] = true
is_ascii (c ∷ s) = ltb c 128 && is_ascii s

pub decode-encode : (n : ℕ) → ltb n 16 ≡ true → decode_base16 (encode_base16 (pos n)) ≡ pos n
unfolding decode_base16 encode_base16
decode-encode n h = ground arith

nibbles :
    (c : ℕ)
    → ltb c 128 ≡ true
    → decoded percent (encode_base16 (high_nibble c)) (encode_base16 (low_nibble c)) ≡ some c
unfolding decoded high_nibble low_nibble
nibbles c h =
    rw (high, decode-encode (c / 16) (ground arith), decode-encode (c % 16) (ground arith))
      (ap some (omega arith))
  where
    high : high_nibble c ≡ pos (c / 16)
    high = ground arith

unescape-decoded :
    (c d e b : ℕ) (s : Bytes)
    → decoded c d e ≡ some b
    → unescape_bytes (c ∷ d ∷ e ∷ s) ≡ b ∷ unescape_bytes s
unfolding unescape_bytes
unescape-decoded c d e b s h = rw (unescape_bytes, h) refl

head_ascii : (c : ℕ) (s : Bytes) → is_ascii (c ∷ s) ≡ true → ltb c 128 ≡ true
unfolding is_ascii
head_ascii c s h = ground arith

tail_ascii : (c : ℕ) (s : Bytes) → is_ascii (c ∷ s) ≡ true → is_ascii s ≡ true
unfolding is_ascii
tail_ascii c s h = ground arith

unescape-plain :
    (c : ℕ) (s : Bytes) → (c == percent) ≡ false → unescape_bytes (c ∷ s) ≡ c ∷ unescape_bytes s
unfolding unescape_bytes decoded
unescape-plain c [] h = refl
unescape-plain c (d ∷ []) h = refl
unescape-plain c (d ∷ e ∷ s) h = ground arith

plain_of_ordinary : (c : ℕ) → is_special c ≡ false → (c == percent) ≡ false
unfolding is_special
plain_of_ordinary c h = ground arith

unescape-nil : unescape_bytes [] ≡ []
unfolding unescape_bytes
unescape-nil = refl

pub unescape-escape_bytes : (s : Bytes) → is_ascii s ≡ true → unescape_bytes (escape_bytes s) ≡ s
unfolding escape_bytes
unescape-escape_bytes [] h = unescape-nil
unescape-escape_bytes (c ∷ s) h = elim (Bool-cases (is_special c)) [
  | inl e ↦ rw e (
      unescape-decoded percent (encode_base16 (high_nibble c)) (encode_base16 (low_nibble c)) c
        (escape_bytes s) (nibbles c (head_ascii c s h))
      ∙ ap (λ t. c ∷ t) (unescape-escape_bytes s (tail_ascii c s h)))
  | inr e ↦ rw e (
      unescape-plain c (escape_bytes s) (plain_of_ordinary c e)
      ∙ ap (λ t. c ∷ t) (unescape-escape_bytes s (tail_ascii c s h)))
]

escape-room : (s : Bytes) → length (escape_bytes s) ≤ length s + extra s
unfolding escape_bytes extra
escape-room [] = omega arith
escape-room (c ∷ s) = ground (arith, escape-room s)

unescape-room : (s : Bytes) → length (unescape_bytes s) ≤ length s
unfolding unescape_bytes
unescape-room [] = omega arith
unescape-room (c ∷ []) = omega arith
unescape-room (c ∷ d ∷ []) = omega arith
unescape-room (c ∷ d ∷ e ∷ s) = ground (arith, unescape-room s, unescape-room (d ∷ e ∷ s))

-- A byte that no file name or path takes for a separator.
abbrev pub is_plain : ℕ → Bool
is_plain c = (c == percent) || not (is_special c)

unfoldable pub all_plain : Bytes → Bool
all_plain [] = true
all_plain (c ∷ s) = is_plain c && all_plain s

encode-is_plain : (n : ℕ) → ltb n 16 ≡ true → is_plain (encode_base16 (pos n)) ≡ true
unfolding is_special encode_base16
encode-is_plain n h = ground arith

escape-all_plain : (s : Bytes) → is_ascii s ≡ true → all_plain (escape_bytes s) ≡ true
unfolding escape_bytes all_plain high_nibble low_nibble
escape-all_plain [] h = refl
escape-all_plain (c ∷ s) h = elim (Bool-cases (is_special c)) [
  | inl e ↦
      rw
        (
          e,
          high,
          encode-is_plain (c / 16) (ground (arith, head_ascii c s h)),
          encode-is_plain (c % 16) (ground arith),
        )
        (escape-all_plain s (tail_ascii c s h))
  | inr e ↦ rw (e, e) (ground (arith, escape-all_plain s (tail_ascii c s h)))
]
  where
    high : high_nibble c ≡ pos (c / 16)
    high = ground (arith, head_ascii c s h)

-- Escaping an ASCII text never writes outside the block it allocates, yields no separator, and unescaping the
-- result, which also stays within its block, gives the text back.
pub unescape-escape :
    (s : Bytes)
    → is_ascii s ≡ true
    → (t : Bytes) × (escape (some s) ≡ ok (some t))
      × (all_plain t ≡ true)
      × (unescape (some t) ≡ ok (some s))
unfolding escape unescape
unescape-escape s h = (
  escape_bytes s,
  ground (arith, escape-room s),
  escape-all_plain s h,
  rw
      (le→leb (suc (length (unescape_bytes (escape_bytes s)))) (length (escape_bytes s) + 1)
        (omega (arith, unescape-room (escape_bytes s))))
      (ap (λ t. ok (some t)) (unescape-escape_bytes s h)),
)

-- Neither function writes outside the block that it allocates, whatever bytes the text has.
pub escape-fits :
    (s : Bytes)
    → (escape (some s) ≡ ok (some (escape_bytes s)))
      × (unescape (some s) ≡ ok (some (unescape_bytes s)))
unfolding escape unescape
escape-fits s = (ground (arith, escape-room s), ground (arith, unescape-room s))

-- Two texts that differ only in their first byte, which is 128 or more in both and has the same low
-- four bits, escape to the same text.
pub escape-collides :
    (c d : ℕ) (s : Bytes)
    → 128 ≤ c
    → 128 ≤ d
    → c % 16 ≡ d % 16
    → escape (some (c ∷ s)) ≡ escape (some (d ∷ s))
unfolding escape extra is_special high_nibble low_nibble encode_base16 escape_bytes
escape-collides c d s hc hd e = rw (same_extra, same_bytes) refl
  where
    same_extra : extra (c ∷ s) ≡ extra (d ∷ s)
    same_extra = ground arith

    special : (b : ℕ) → 128 ≤ b → is_special b ≡ true
    special b h = ground arith

    same_high : encode_base16 (high_nibble c) ≡ encode_base16 (high_nibble d)
    same_high = ground arith

    same_low : encode_base16 (low_nibble c) ≡ encode_base16 (low_nibble d)
    same_low = ap (λ n. encode_base16 (pos n)) e

    same_bytes : escape_bytes (c ∷ s) ≡ escape_bytes (d ∷ s)
    same_bytes = rw (special c hc, special d hd, same_high, same_low) refl
