-- ===== src/Base64/RoundTrip.antt =====
-- Encode and Decode of src/Base64.cc: what Encode writes, and that Decode reads it back.
use ign_common.Common.{
  ℕ, ◌+◌, ◌*◌, ◌/◌, ◌%◌, ◌<◌, ◌≡◌, refl, ◌⊎◌, ap, ◌∙◌, [], ◌∷◌, ◌++◌, arith, ◌==◌, if◌then◌else◌,
  length, length-append, false, ◌^◌, ◌-◌, ◌&&◌, Bool-cases, inl, inr, some, sym,
}
use mathlib.Core.Bool.{not}
use mathlib.Core.Path.{ap₂}
use mathlib.Core.List.{append_assoc}
use ign_common.Common.Text.{Bytes, All}
use ign_common.Base64.{
  char_of, quad, encode_loop, encode_tail, encode, octets, triple, decode_loop, decode_tail, decode,
  is_base64,
}
use ign_common.Base64.Bits.{
  and_fc, and_3, and_f0, and_f, and_c0, and_3f, and_30, and_3c, match_char-char_of,
  char_of_accepted,
}

abbrev pub IsByte : ℕ → Type 0
IsByte c = c < 256

-- Four characters for three bytes, six bits each, and the padding of RFC 4648.
pub encoding : Bytes → Bytes
encoding [] = []
encoding (a ∷ []) = char_of (a / 4) ∷ char_of (a % 4 * 16) ∷ b'=' ∷ b'=' ∷ []
encoding (a ∷ b ∷ []) =
    char_of (a / 4) ∷ char_of (a % 4 * 16 + b / 16) ∷ char_of (b % 16 * 4) ∷ b'=' ∷ []
encoding (a ∷ b ∷ c ∷ rest) =
    char_of (a / 4)
    ∷ char_of (a % 4 * 16 + b / 16)
    ∷ char_of (b % 16 * 4 + c / 64)
    ∷ char_of (c % 64)
    ∷ encoding rest

abbrev finish_encode : Bytes × Bytes → Bytes
finish_encode (pending, out) = out ++ encode_tail pending

module _ (a b c : ℕ) (ha : IsByte a) (hb : IsByte b) (hc : IsByte c) where
  quad_one : quad (a ∷ []) ≡ char_of (a / 4) ∷ char_of (a % 4 * 16) ∷ char_of 0 ∷ char_of 0 ∷ []
  unfolding quad
  quad_one = ground (arith, and_fc a ha, and_3 a ha)

  quad_two :
      quad (a ∷ b ∷ [])
      ≡ char_of (a / 4) ∷ char_of (a % 4 * 16 + b / 16) ∷ char_of (b % 16 * 4) ∷ char_of 0 ∷ []
  unfolding quad
  quad_two = ground (arith, and_fc a ha, and_3 a ha, and_f0 b hb, and_f b hb)

  quad_three :
      quad (a ∷ b ∷ c ∷ [])
      ≡ char_of (a / 4)
        ∷ char_of (a % 4 * 16 + b / 16)
        ∷ char_of (b % 16 * 4 + c / 64)
        ∷ char_of (c % 64)
        ∷ []
  unfolding quad
  quad_three =
      ground (arith, and_fc a ha, and_3 a ha, and_f0 b hb, and_f b hb, and_c0 c hc, and_3f c hc)

encode_loop-encoding :
    (s out : Bytes) → All IsByte s → finish_encode (encode_loop s [] out) ≡ out ++ encoding s
unfolding encode_loop encode_tail encoding
encode_loop-encoding [] out h = refl
encode_loop-encoding (a ∷ []) out h = rw (quad_one a 0 0 h.0 (omega arith) (omega arith))
encode_loop-encoding (a ∷ b ∷ []) out h = rw (quad_two a b 0 h.0 h.1.0 (omega arith))
encode_loop-encoding (a ∷ b ∷ c ∷ rest) out h =
    encode_loop-encoding rest (out ++ quad (a ∷ b ∷ c ∷ [])) h.1.1.1
    ∙ rw (quad_three a b c h.0 h.1.0 h.1.1.0, append_assoc)

-- On bytes, Encode writes the RFC 4648 text.
pub encode-encoding : (s : Bytes) → All IsByte s → encode s ≡ encoding s
unfolding encode
encode-encoding s h = encode_loop-encoding s [] h

-- The reading of Decode without its counters.
read_loop : Bytes → Bytes → Bytes → Bytes × Bytes
read_loop [] pending out = (pending, out)
read_loop (c ∷ rest) pending out =
    let pending' = pending ++ c ∷ [] in
    let full = length pending' == 4 in
    let next =
      read_loop rest (if full then [] else pending')
        (if full then out ++ triple pending' else out) in
    if not (c == b'=') && is_base64 c then next else (pending, out)

decode_loop-read_loop :
    (s pending out : Bytes) (in_len in_ : ℕ)
    → in_len ≡ length s
    → in_ + length s < 2 ^ 31
    → decode_loop in_len in_ s pending out ≡ some (read_loop s pending out)
unfolding decode_loop read_loop
decode_loop-read_loop [] pending out in_len in_ e l =
    let n : (in_len == 2 ^ 31) ≡ false = ground (arith, e) in rw n refl
decode_loop-read_loop (c ∷ rest) pending out in_len in_ e l =
    let p : Bytes = pending ++ c ∷ [] in
    let full = length p == 4 in
    let z : (in_len == 0) ≡ false = ground (arith, e) in
    let n : (in_len == 2 ^ 31) ≡ false = ground (arith, e) in
    let k : (in_ + 1 == 2 ^ 31) ≡ false = ground arith in
    let next =
      decode_loop-read_loop rest (if full then [] else p) (if full then out ++ triple p else out)
        ((in_len + (2 ^ 32 - 1)) % 2 ^ 32) (in_ + 1) (omega arith) (omega arith) in
    elim (Bool-cases (not (c == b'=') && is_base64 c)) [
      | inl b ↦ rw (z, n, k, b, next) refl
      | inr b ↦ rw (z, n, b) refl
    ]

abbrev finish_decode : Bytes × Bytes → Bytes
finish_decode (pending, out) = out ++ decode_tail pending

-- A character of the alphabet joins the pending ones, and the fourth completes a group.
module _ (k : ℕ) (h : k < 64) where
  decode_one :
      (rest pending out : Bytes)
      → read_loop (char_of k ∷ rest) pending out ≡ (
          let pending' = pending ++ char_of k ∷ [] in
          let full = length pending' == 4 in
          read_loop rest
            (if full then [] else pending')
            (if full then out ++ triple pending' else out))
  unfolding read_loop
  decode_one rest pending out = rw (char_of_accepted k h)

decode_pad : (rest pending out : Bytes) → read_loop (b'=' ∷ rest) pending out ≡ (pending, out)
unfolding read_loop
decode_pad rest pending out = refl

module _ (w x y z : ℕ) (hw : w < 64) (hx : x < 64) (hy : y < 64) (hz : z < 64) where
  triple_four : triple (char_of w ∷ char_of x ∷ char_of y ∷ char_of z ∷ []) ≡ octets w x y z
  unfolding triple
  triple_four = rw (
    match_char-char_of w hw,
    match_char-char_of x hx,
    match_char-char_of y hy,
    match_char-char_of z hz,
  )

  decode_four :
      (rest out : Bytes)
      → read_loop (char_of w ∷ char_of x ∷ char_of y ∷ char_of z ∷ rest) [] out
        ≡ read_loop rest [] (out ++ octets w x y z)
  decode_four rest out =
      rw (decode_one w hw, decode_one x hx, decode_one y hy, decode_one z hz, triple_four)

module _ (a b c : ℕ) (ha : IsByte a) (hb : IsByte b) (hc : IsByte c) where
  tail_one : decode_tail (char_of (a / 4) ∷ char_of (a % 4 * 16) ∷ []) ≡ a ∷ []
  unfolding decode_tail triple
  tail_one =
      rw
        (
          match_char-char_of (a / 4) (omega arith),
          match_char-char_of (a % 4 * 16) (omega arith),
          and_30 (a % 4 * 16) (omega arith),
        )
        (ap (λ x. x ∷ []) (omega arith))

  tail_two :
      decode_tail (char_of (a / 4) ∷ char_of (a % 4 * 16 + b / 16) ∷ char_of (b % 16 * 4) ∷ [])
      ≡ a ∷ b ∷ []
  unfolding decode_tail triple
  tail_two =
      rw
        (
          match_char-char_of (a / 4) (omega arith),
          match_char-char_of (a % 4 * 16 + b / 16) (omega arith),
          match_char-char_of (b % 16 * 4) (omega arith),
          and_30 (a % 4 * 16 + b / 16) (omega arith),
          and_f (a % 4 * 16 + b / 16) (omega arith),
          and_3c (b % 16 * 4) (omega arith),
        )
        (ap₂ (λ x y. x ∷ y ∷ []) (omega arith) (omega arith))

  octets_three :
      octets (a / 4) (a % 4 * 16 + b / 16) (b % 16 * 4 + c / 64) (c % 64) ≡ a ∷ b ∷ c ∷ []
  octets_three =
      rw
        (
          and_30 (a % 4 * 16 + b / 16) (omega arith),
          and_f (a % 4 * 16 + b / 16) (omega arith),
          and_3c (b % 16 * 4 + c / 64) (omega arith),
          and_3 (b % 16 * 4 + c / 64) (omega arith),
        )
        (ground arith)

read_loop-encoding :
    (s out : Bytes) → All IsByte s → finish_decode (read_loop (encoding s) [] out) ≡ out ++ s
unfolding encoding
read_loop-encoding [] out h = unfold read_loop decode_tail in refl
read_loop-encoding (a ∷ []) out h = rw (
  decode_one (a / 4) (omega arith),
  decode_one (a % 4 * 16) (omega arith),
  decode_pad,
  tail_one a 0 0 h.0 (omega arith) (omega arith),
)
read_loop-encoding (a ∷ b ∷ []) out h = rw (
  decode_one (a / 4) (omega arith),
  decode_one (a % 4 * 16 + b / 16) (omega arith),
  decode_one (b % 16 * 4) (omega arith),
  decode_pad,
  tail_two a b 0 h.0 h.1.0 (omega arith),
)
read_loop-encoding (a ∷ b ∷ c ∷ rest) out h =
    ap finish_decode (
      decode_four (a / 4) (a % 4 * 16 + b / 16) (b % 16 * 4 + c / 64) (c % 64) (omega arith)
        (omega arith) (omega arith) (omega arith) (encoding rest) out)
    ∙ read_loop-encoding rest _ h.1.1.1
    ∙ rw (octets_three a b c h.0 h.1.0 h.1.1.0, append_assoc)

-- Four characters for every three bytes begun.
pub length-encoding : (s : Bytes) → length (encoding s) ≡ (length s + 2) / 3 * 4
unfolding encoding
length-encoding [] = refl
length-encoding (a ∷ []) = refl
length-encoding (a ∷ b ∷ []) = refl
length-encoding (a ∷ b ∷ c ∷ rest) = omega (arith, length-encoding rest)

pub length-encode : (s : Bytes) → All IsByte s → length (encode s) ≡ (length s + 2) / 3 * 4
length-encode s h = ap length (encode-encoding s h) ∙ length-encoding s

decode-read_loop :
    (s : Bytes) → length s < 2 ^ 31 → decode s ≡ some (finish_decode (read_loop s [] []))
unfolding decode
decode-read_loop s l =
    let m : length s % 2 ^ 32 ≡ length s = omega arith in
    rw (m, decode_loop-read_loop s [] [] (length s) 0 refl (omega arith)) refl

-- Decode reads back every sequence of bytes that Encode wrote in fewer than 2^31 characters, without
-- an overflow of its int counters.
pub decode-encode :
    (s : Bytes) → All IsByte s → (length s + 2) / 3 * 4 < 2 ^ 31 → decode (encode s) ≡ some s
decode-encode s h l =
    let n = length-encode s h in
    decode-read_loop (encode s) (omega arith)
    ∙ rw (encode-encoding s h) (ap some (read_loop-encoding s [] h))

-- A character that ends the reading.
abbrev pub IsStop : ℕ → Type 0
IsStop c = (c ≡ b'=') ⊎ (is_base64 c ≡ false)

read_loop-stop :
    (s rest : Bytes) (c : ℕ) (pending out : Bytes)
    → IsStop c
    → read_loop (s ++ c ∷ rest) pending out ≡ read_loop s pending out
unfolding read_loop
read_loop-stop [] rest c pending out h = ground arith
read_loop-stop (d ∷ s) rest c pending out h =
    let p : Bytes = pending ++ d ∷ [] in
    let full = length p == 4 in
    rw (read_loop-stop s rest c (if full then [] else p) (if full then out ++ triple p else out) h)

-- Decode does not look past the first '=' or the first character outside the alphabet of a text of fewer
-- than 2^31 characters.
pub decode-stop :
    (s rest : Bytes) (c : ℕ)
    → IsStop c
    → length (s ++ c ∷ rest) < 2 ^ 31
    → decode (s ++ c ∷ rest) ≡ decode s
decode-stop s rest c h l =
    let n = length-append s (c ∷ rest) in
    decode-read_loop (s ++ c ∷ rest) l
    ∙ ap (λ r. some (finish_decode r)) (read_loop-stop s rest c [] [] h)
    ∙ sym (decode-read_loop s (omega arith))
