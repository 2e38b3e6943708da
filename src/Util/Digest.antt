-- ===== src/Util/Digest.antt =====
-- Sha1::Digest of src/Util.cc against the hash of a padded message, block by block.
use ign_common.Common.{
  suc, ◌+◌, ◌-◌, ◌*◌, ◌/◌, ◌%◌, ◌^◌, ◌<◌, ◌≡◌, refl, sym, ◌∙◌, ap, Option, none, some, [], ◌∷◌,
  ◌++◌, length, replicate, arith, length-append, length-replicate,
}
use ign_common.Common.Text.{Bytes}
use ign_common.Util.Sha1.{Hash, Sha1, new_sha1, initial, byte, pad, bytes_loop, big_endian, digest}
use ign_common.Util.Feed.{
  feed_byte, feed, view, feed-append, byte-feed, feed_byte-length, feed-length, feed-hash_blocks,
  byte-IsCounted, message_loop-feed, pad-feed, bytes_loop-feed, hash_blocks,
}

-- FIPS 180: the message, one bit, as few zeros as there can be, and the number of bits in eight bytes.
abbrev pub padding : Bytes → Bytes
padding m =
    m
    ++ (0x80
        ∷ (replicate ((119 - length m % 64) % 64) 0
            ++ (big_endian (8 * length m / 2 ^ 32) ++ big_endian (8 * length m % 2 ^ 32))))

padding-length : (m : Bytes) → length (padding m) ≡ length m + (119 - length m % 64) % 64 + 9
padding-length m =
    let k = (119 - length m % 64) % 64 in
    let zeros : Bytes = replicate k 0 in
    let count : Bytes = big_endian (8 * length m / 2 ^ 32) ++ big_endian (8 * length m % 2 ^ 32) in
    let total : length (padding m) ≡ length m + suc (length (zeros ++ count)) =
      length-append m (0x80 ∷ (zeros ++ count)) in
    let part : length (zeros ++ count) ≡ length zeros + 8 = length-append zeros count in
    let width : length zeros ≡ k = length-replicate k 0 in omega arith

-- Digest of fewer than 2^61 bytes: the padded message is a number of whole blocks, and the digest is the
-- hash of these blocks, one after the other, from the initial hash on.
pub digest_lem :
    (m : Bytes)
    → 8 * length m < 2 ^ 64
    → (64 * (length (padding m) / 64) ≡ length (padding m))
      × (digest m ≡ some (hash_blocks (length (padding m) / 64) initial (padding m)))
unfolding digest
digest_lem m l =
    let n = length m in
    let start : Hash × Bytes = (initial, []) in
    let zeros : Bytes = replicate ((119 - n % 64) % 64) 0 in
    let count : Bytes = big_endian (8 * n / 2 ^ 32) ++ big_endian (8 * n % 2 ^ 32) in
    let total = padding-length m in
    let whole : 64 * (length (padding m) / 64) ≡ length (padding m) = omega arith in
    let (st, e, v, c) =
      message_loop-feed m 0 (initial, new_sha1) (record { low = refl; high = refl })
        (omega arith) in
    let st1 = byte 0x80 st in
    let w : view st1 ≡ feed_byte 0x80 (feed m start) = byte-feed 0x80 st ∙ ap (feed_byte 0x80) v in
    let d : length st1.1.block ≡ (length (feed m start).1 + 1) % 64 =
      ap (λ (u : Hash × Bytes). length u.1) w
      ∙ feed_byte-length 0x80 (feed m start)
          (let q = feed-length m start (omega arith) in omega arith) in
    let q = feed-length m start (omega arith) in
    let (p, pc) = pad-feed (0 + n) st1 (omega arith) (byte-IsCounted 0x80 (0 + n) st c) in
    let k : (120 - length st1.1.block) % 64 ≡ (119 - n % 64) % 64 = omega arith in
    let z : view (pad st1) ≡ feed zeros (feed_byte 0x80 (feed m start)) =
      p ∙ ap (λ j. feed (replicate j 0) (view st1)) k ∙ ap (feed zeros) w in
    let high : (pad st1).1.bit_count_high ≡ 8 * n / 2 ^ 32 =
      pc.high ∙ ap (λ j. 8 * j / 2 ^ 32) (omega arith) in
    let low : (pad st1).1.bit_count_low ≡ 8 * n % 2 ^ 32 =
      pc.low ∙ ap (λ j. 8 * j % 2 ^ 32) (omega arith) in
    (
      whole,
      ap (λ (o : Option (Hash × Sha1)). closed o) e
          ∙ ap some (
              ap (λ (u : Hash × Bytes). u.0)
                (bytes_loop-feed
                    (big_endian (pad st1).1.bit_count_high ++ big_endian (pad st1).1.bit_count_low)
                    (pad st1)
                  ∙ ap
                      (λ b.
                        feed (big_endian b ++ big_endian (pad st1).1.bit_count_low)
                          (view (pad st1)))
                      high
                  ∙ ap (λ b. feed (big_endian (8 * n / 2 ^ 32) ++ big_endian b) (view (pad st1)))
                      low
                  ∙ ap (feed count) z
                  ∙ sym (feed-append zeros count (feed_byte 0x80 (feed m start)))
                  ∙ sym (feed-append m (0x80 ∷ (zeros ++ count)) start))
              ∙ feed-hash_blocks (padding m) (length (padding m) / 64) initial [] (omega arith)
                  (omega arith)),
    )
  where
    closed : Option (Hash × Sha1) → Option Hash
    closed none = none
    closed (some st) =
        let padded = pad (byte 0x80 st) in
        some
          (bytes_loop (big_endian padded.1.bit_count_high ++ big_endian padded.1.bit_count_low)
            padded).0
