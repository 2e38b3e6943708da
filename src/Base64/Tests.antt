-- ===== src/Base64/Tests.antt =====
-- Runs of src/Base64.cc, and its theorems at concrete bytes.
use ign_common.Common.{◌≡◌, refl, [], ◌∷◌, some, arith, length}
use ign_common.Common.Text.{codes}
use ign_common.Base64.{encode, decode, decode_loop, quad, triple, char_of}
use ign_common.Base64.RoundTrip.{encoding, encode-encoding, decode-encode, length-encode}

encode_man : encode (codes "Many") ≡ codes "TWFueQ=="
unfolding encode quad char_of
encode_man = refl

decode_cut : decode (codes "TWFu!eQ==") ≡ some (codes "Man")
unfolding decode decode_loop triple
decode_cut = refl

encode-encoding_example : encode (1 ∷ 200 ∷ 3 ∷ 4 ∷ []) ≡ encoding (1 ∷ 200 ∷ 3 ∷ 4 ∷ [])
encode-encoding_example = encode-encoding (1 ∷ 200 ∷ 3 ∷ 4 ∷ []) (omega arith)

decode-encode_example : decode (encode (0 ∷ 255 ∷ 7 ∷ 9 ∷ [])) ≡ some (0 ∷ 255 ∷ 7 ∷ 9 ∷ [])
decode-encode_example = decode-encode (0 ∷ 255 ∷ 7 ∷ 9 ∷ []) (omega arith) (omega arith)

length-encode_example : length (encode (0 ∷ 255 ∷ 7 ∷ 9 ∷ [])) ≡ 8
length-encode_example = length-encode (0 ∷ 255 ∷ 7 ∷ 9 ∷ []) (omega arith)
