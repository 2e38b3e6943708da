-- ===== src/Base64.antt =====
-- src/Base64.cc: Encode and Decode over lists of bytes.
pub mod Bits
pub mod RoundTrip
mod Tests
use Prim.Native.Nat.{bit_and}
use ign_common.Common.{
  ℕ, ◌+◌, ◌-◌, ◌*◌, ◌/◌, ◌%◌, ◌^◌, Option, none, some, Bool, true, false, ◌&&◌, ◌||◌, List, [], ◌∷◌,
  ◌++◌, ◌==◌, leb, if◌then◌else◌, length, get_or, take, replicate, map,
}
use mathlib.Core.Bool.{not}
use mathlib.Core.Option
use ign_common.Common.Text.{Bytes, codes, index_where}

abbrev pub base64_chars : Bytes
base64_chars = codes "ABCDEFGHIJKLMNOPQRSTUVWXYZabcdefghijklmnopqrstuvwxyz0123456789+/"

-- isalnum of the C locale, and the two signs.
unfoldable pub is_base64 : ℕ → Bool
is_base64 c =
    leb b'0' c && leb c b'9'
    || leb b'A' c && leb c b'Z'
    || leb b'a' c && leb c b'z'
    || c == b'+'
    || c == b'/'

-- charArray4 from charArray3
abbrev pub sextets : ℕ → ℕ → ℕ → List ℕ
sextets a b c =
    bit_and a 0xfc / 4
    ∷ (bit_and a 0x03 * 16 + bit_and b 0xf0 / 16)
    ∷ (bit_and b 0x0f * 4 + bit_and c 0xc0 / 64)
    ∷ bit_and c 0x3f
    ∷ []

unfoldable pub char_of : ℕ → ℕ
char_of k = get_or base64_chars k 0

pub quad : Bytes → Bytes
quad p = map char_of (sextets (get_or p 0 0) (get_or p 1 0) (get_or p 2 0))

-- The while loop of Encode. `pending` is the filled front of charArray3; its length is `i`.
encode_loop : Bytes → Bytes → Bytes → Bytes × Bytes
encode_loop [] pending out = (pending, out)
encode_loop (c ∷ rest) pending out =
    let pending' = pending ++ c ∷ [] in
    let full = length pending' == 3 in
    encode_loop rest (if full then [] else pending') (if full then out ++ quad pending' else out)

-- What is written when the input ends inside a group of three.
encode_tail : Bytes → Bytes
encode_tail pending =
    if length pending == 0
    then []
    else take (length pending + 1) (quad pending) ++ replicate (3 - length pending) b'='

pub encode : Bytes → Bytes
unfolding encode_loop encode_tail
encode bytes = let (pending, out) = encode_loop bytes [] [] in out ++ encode_tail pending

-- std::find in base64Chars: the position, or 64 past its end.
unfoldable pub match_char : ℕ → ℕ
match_char c = Option.get_or (index_where (λ x. x == c) base64_chars) 64

-- charArray3 from charArray4, each stored in an unsigned char.
abbrev pub octets : ℕ → ℕ → ℕ → ℕ → Bytes
octets w x y z =
    ((w * 4 + bit_and x 0x30 / 16) % 256)
    ∷ ((bit_and x 0xf * 16 + bit_and y 0x3c / 4) % 256)
    ∷ ((bit_and y 0x3 * 64 + z) % 256)
    ∷ []

pub triple : Bytes → Bytes
triple q =
    octets (match_char (get_or q 0 0)) (match_char (get_or q 1 0)) (match_char (get_or q 2 0))
      (match_char (get_or q 3 0))

-- The while loop of Decode: it stops when inLen is zero, at '=', or at any other character that is not
-- of the alphabet, as the zero byte behind the text. `in_len` has the 32 bits of inLen; `none` is an
-- overflow of inLen or in. `pending` is the filled front of charArray4.
decode_loop : ℕ → ℕ → Bytes → Bytes → Bytes → Option (Bytes × Bytes)
decode_loop in_len in_ [] pending out = if in_len == 2 ^ 31 then none else some (pending, out)
decode_loop in_len in_ (c ∷ rest) pending out =
    let pending' = pending ++ c ∷ [] in
    let full = length pending' == 4 in
    let next =
      decode_loop ((in_len + (2 ^ 32 - 1)) % 2 ^ 32) (in_ + 1) rest (if full then [] else pending')
        (if full then out ++ triple pending' else out) in
    if in_len == 0
    then some (pending, out)
    else if in_len == 2 ^ 31
    then none
    else if not (c == b'=') && is_base64 c
    then if in_ + 1 == 2 ^ 31 then none else next
    else some (pending, out)

-- The empty places of charArray4 are zeroed, and a zero matches no character.
decode_tail : Bytes → Bytes
decode_tail pending = if length pending == 0 then [] else take (length pending - 1) (triple pending)

pub decode : Bytes → Option Bytes
unfolding decode_loop decode_tail match_char is_base64
decode s = Option.map (λ r. r.1 ++ decode_tail r.0) (decode_loop (length s % 2 ^ 32) 0 s [] [])
