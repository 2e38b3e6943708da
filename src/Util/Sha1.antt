-- ===== src/Util/Sha1.antt =====
-- The class Sha1 and sha1 of src/Util.cc. A word is an unsigned int below 2^32; size_t has 64 bits.
use Prim.Native.Nat.{bit_and, bit_or, bit_xor}
use ign_common.Common.{
  ℕ, zero, suc, ◌+◌, ◌-◌, ◌*◌, ◌/◌, ◌%◌, ◌^◌, Bool, Option, none, some, List, [], ◌∷◌, ◌++◌, ltb,
  leb, ◌==◌, if◌then◌else◌, length, get_or,
}
use mathlib.Core.Bool.{not}
use mathlib.Core.List.{reverse}
use ign_common.Common.Text.{Bytes}

pub record Hash : Type 0 where
  pub a : ℕ
  pub b : ℕ
  pub c : ℕ
  pub d : ℕ
  pub e : ℕ

-- The bytes that are written to the block so far (blockByteIndex is their number), and the counts.
pub record Sha1 : Type 0 where
  pub block : Bytes
  pub bit_count_low : ℕ
  pub bit_count_high : ℕ

abbrev pub new_sha1 : Sha1
new_sha1 = record { block = []; bit_count_low = 0; bit_count_high = 0 }

-- LEFT_ROTATE and operator~ on words.
unfoldable pub left_rotate : ℕ → ℕ → ℕ
left_rotate x n = bit_xor (x * 2 ^ n % 2 ^ 32) (x / 2 ^ (32 - n))

unfoldable pub flip : ℕ → ℕ
flip x = 2 ^ 32 - 1 - x

-- The first sixteen words, which the block holds, from the last to the first.
unfoldable pub block_words : Bytes → List ℕ → List ℕ
block_words (p ∷ q ∷ r ∷ s ∷ bytes) w =
    block_words bytes (bit_or (bit_or (bit_or (p * 2 ^ 24) (q * 2 ^ 16)) (r * 2 ^ 8)) s ∷ w)
block_words bytes w = w

-- The other words, each in front.
unfoldable pub more_words : ℕ → List ℕ → List ℕ
unfolding left_rotate
more_words zero w = w
more_words (suc n) w =
    let mixed =
      bit_xor (bit_xor (bit_xor (get_or w 2 0) (get_or w 7 0)) (get_or w 13 0)) (get_or w 15 0) in
    more_words n (left_rotate mixed 1 ∷ w)

-- The function and the constant of a round.
unfoldable pub mix : ℕ → Hash → ℕ
unfolding flip
mix i h =
    if ltb i 20
    then bit_or (bit_and h.b h.c) (bit_and (flip h.b) h.d)
    else if ltb i 40
    then bit_xor (bit_xor h.b h.c) h.d
    else if ltb i 60
    then bit_or (bit_or (bit_and h.b h.c) (bit_and h.b h.d)) (bit_and h.c h.d)
    else bit_xor (bit_xor h.b h.c) h.d

unfoldable pub constant : ℕ → ℕ
constant i =
    if ltb i 20
    then 0x5A827999
    else if ltb i 40
    then 0x6ED9EBA1
    else if ltb i 60
    then 0x8F1BBCDC
    else 0xCA62C1D6

-- One round of the main loop.
unfoldable pub round : ℕ → ℕ → Hash → Hash
unfolding left_rotate mix constant
round i w h = record {
  a = (left_rotate h.a 5 + mix i h + h.e + constant i + w) % 2 ^ 32;
  b = h.a;
  c = left_rotate h.b 30;
  d = h.c;
  e = h.d;
}

unfoldable pub main_loop : ℕ → List ℕ → Hash → Hash
unfolding round
main_loop i [] h = h
main_loop i (w ∷ ws) h = main_loop (i + 1) ws (round i w h)

-- What Byte does with a full block.
unfoldable pub compress : Hash → Bytes → Hash
unfolding block_words more_words main_loop
compress h block =
    let r = main_loop 0 (reverse (more_words 64 (block_words block []))) h in
    record {
      a = (h.a + r.a) % 2 ^ 32;
      b = (h.b + r.b) % 2 ^ 32;
      c = (h.c + r.c) % 2 ^ 32;
      d = (h.d + r.d) % 2 ^ 32;
      e = (h.e + r.e) % 2 ^ 32;
    }

unfoldable pub byte : ℕ → Hash × Sha1 → Hash × Sha1
byte x (h, s) =
    let block = s.block ++ x ∷ [] in
    if length block == 64
    then (compress h block, record s { block = [] })
    else (h, record s { block = block })

-- The count of bits behind a byte; `none` for too many bytes.
unfoldable pub count_byte : Sha1 → Option Sha1
count_byte s =
    if ltb s.bit_count_low 0xFFFFFFF8
    then some (record s { bit_count_low = s.bit_count_low + 8 })
    else if leb s.bit_count_high 0xFFFFFFFE
    then some (record s { bit_count_low = 0; bit_count_high = s.bit_count_high + 1 })
    else none

-- The loop over the message.
unfoldable pub message_loop : Bytes → Hash × Sha1 → Option (Hash × Sha1)
unfolding byte count_byte
message_loop [] st = some st
message_loop (x ∷ xs) st =
    let (h, s) = byte x st in
    elim (count_byte s) [ none ↦ none | some s' ↦ message_loop xs (h, s') ]

-- The loops that write zeros while the index of the block passes a test.
unfoldable pub zeros_while : ℕ → (ℕ → Bool) → Hash × Sha1 → Hash × Sha1
unfolding byte
zeros_while zero p st = st
zeros_while (suc fuel) p st =
    let rest = zeros_while fuel p (byte 0 st) in if p (length st.1.block) then rest else st

unfoldable pub pad : Hash × Sha1 → Hash × Sha1
unfolding zeros_while
pad st =
    if ltb 56 (length st.1.block)
    then zeros_while 64 (λ i. ltb i 56) (zeros_while 64 (λ i. not (i == 0)) st)
    else zeros_while 64 (λ i. ltb i 56) st

unfoldable pub bytes_loop : Bytes → Hash × Sha1 → Hash × Sha1
unfolding byte
bytes_loop [] st = st
bytes_loop (x ∷ xs) st = bytes_loop xs (byte x st)

-- A count as four bytes, the first the highest.
abbrev pub big_endian : ℕ → Bytes
big_endian n = n / 2 ^ 24 % 256 ∷ n / 2 ^ 16 % 256 ∷ n / 2 ^ 8 % 256 ∷ n % 256 ∷ []

abbrev pub initial : Hash
initial = record { a = 0x67452301; b = 0xEFCDAB89; c = 0x98BADCFE; d = 0x10325476; e = 0xC3D2E1F0 }

unfoldable pub digest : Bytes → Option Hash
unfolding message_loop pad bytes_loop byte
digest bytes = elim (message_loop bytes (initial, new_sha1)) [
  | none ↦ none
  | some st ↦
      let padded = pad (byte 0x80 st) in
      some
        (bytes_loop (big_endian padded.1.bit_count_high ++ big_endian padded.1.bit_count_low)
          padded).0
]

-- A word with eight digits.
hex_digit : ℕ → ℕ
hex_digit n = if ltb n 10 then n + 48 else n + 87

unfoldable pub hex : ℕ → ℕ → Bytes
unfolding hex_digit
hex zero n = []
hex (suc k) n = hex_digit (n / 16 ^ k % 16) ∷ hex k n

-- Empty for too many bytes.
unfoldable pub sha1 : Bytes → Bytes
unfolding digest hex
sha1 bytes = elim (digest bytes) [
  | none ↦ []
  | some h ↦ hex 8 h.a ++ hex 8 h.b ++ hex 8 h.c ++ hex 8 h.d ++ hex 8 h.e
]
