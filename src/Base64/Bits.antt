-- ===== src/Base64/Bits.antt =====
-- The masks and shifts of src/Base64.cc as divisions, by tables.
use Prim.Native.Nat.{bit_and}
use ign_common.Common.{ℕ, ◌/◌, ◌%◌, ◌<◌, ◌≡◌, refl, true, ◌&&◌, ◌==◌}
use mathlib.Core.Bool.{not}
use ign_common.Common.Tables.{all_below, agree_below, holds_below}
use ign_common.Base64.{char_of, match_char, is_base64}

pub and_fc : (x : ℕ) → x < 256 → bit_and x 0xfc / 4 ≡ x / 4
unfolding all_below
and_fc = agree_below 256 _ _ refl

pub and_3 : (x : ℕ) → x < 256 → bit_and x 0x3 ≡ x % 4
unfolding all_below
and_3 = agree_below 256 _ _ refl

pub and_f0 : (x : ℕ) → x < 256 → bit_and x 0xf0 / 16 ≡ x / 16
unfolding all_below
and_f0 = agree_below 256 _ _ refl

pub and_f : (x : ℕ) → x < 256 → bit_and x 0xf ≡ x % 16
unfolding all_below
and_f = agree_below 256 _ _ refl

pub and_c0 : (x : ℕ) → x < 256 → bit_and x 0xc0 / 64 ≡ x / 64
unfolding all_below
and_c0 = agree_below 256 _ _ refl

pub and_3f : (x : ℕ) → x < 256 → bit_and x 0x3f ≡ x % 64
unfolding all_below
and_3f = agree_below 256 _ _ refl

pub and_30 : (x : ℕ) → x < 256 → bit_and x 0x30 / 16 ≡ x / 16 % 4
unfolding all_below
and_30 = agree_below 256 _ _ refl

pub and_3c : (x : ℕ) → x < 256 → bit_and x 0x3c / 4 ≡ x / 4 % 16
unfolding all_below
and_3c = agree_below 256 _ _ refl

module _ (k : ℕ) (h : k < 64) where
  pub match_char-char_of : match_char (char_of k) ≡ k
  match_char-char_of =
      agree_below 64 (λ k. match_char (char_of k)) (λ k. k)
        (unfold all_below match_char char_of in refl) k h

  pub char_of_accepted : (not (char_of k == b'=') && is_base64 (char_of k)) ≡ true
  char_of_accepted =
      holds_below 64 (λ k. not (char_of k == b'=') && is_base64 (char_of k))
        (unfold all_below is_base64 char_of in refl) k h
