-- ===== src/Util/Tests.antt =====
-- Runs of src/Util.cc, and its theorems at concrete texts.
use ign_common.Common.{◌*◌, ◌/◌, length, ◌≡◌, refl, some, List, [], ◌∷◌, arith}
use mathlib.Core.Bool.{not}
use ign_common.Util.Sha1.{sha1, digest, initial, compress}
use ign_common.Util.Feed.{hash_blocks}
use ign_common.Util.Digest.{padding, digest_lem}
use ign_common.Common.Text.{Bytes, All, codes, one_of}
use ign_common.Util.{
  split, trimmed, ltrimmed, rtrimmed, is_space, replace_all, c_str, split_loop, strtok, word_of,
  replace_loop, find_text, find_in, lowercase, to_lower,
}
use ign_common.Util.Splitting.{IsWord, concat, keep, split-words}
use ign_common.Util.Replacing.{substitute, replace_all_total, replace_all-substitute}

split_test : split (codes "/a//bc/") (codes "/") ≡ some (codes "a" ∷ codes "bc" ∷ [])
unfolding split split_loop strtok word_of
split_test = refl

trimmed_test : trimmed (codes "  a b ") ≡ codes "a b"
unfolding trimmed ltrimmed rtrimmed is_space
trimmed_test = refl

lowercase_test : lowercase (codes "aBZ9") ≡ codes "abz9"
unfolding lowercase to_lower
lowercase_test = refl

replace_all_test : replace_all (codes "aXbXX") (codes "XX") (codes "") ≡ some (codes "aXb")
unfolding replace_all replace_loop find_text find_in
replace_all_test = refl

split-words_example :
    (ws : List Bytes) × (split (codes "/a//bc/") (codes "/") ≡ some ws)
    × (concat ws ≡ keep (λ c. not (one_of (c_str (codes "/")) c)) (c_str (codes "/a//bc/")))
    × All (IsWord (one_of (c_str (codes "/")))) ws
split-words_example = split-words (codes "/a//bc/") (codes "/")

replace_all_total_example :
    (t : Bytes) × (replace_all (codes "aXbXX") (codes "XX") (codes "XXX") ≡ some t)
replace_all_total_example =
    replace_all_total (codes "aXbXX") (codes "XX") (codes "XXX") (omega arith)

replace_all-substitute_example :
    replace_all (codes "a/b") (b'/' ∷ []) (codes "%2F/")
    ≡ some (substitute b'/' (codes "%2F/") (codes "a/b"))
replace_all-substitute_example =
    replace_all-substitute (codes "a/b") b'/' (codes "%2F/") (omega arith)

digest_lem_example :
    (64 * (length (padding (codes "abc")) / 64) ≡ length (padding (codes "abc")))
    × (digest (codes "abc")
        ≡ some (hash_blocks (length (padding (codes "abc")) / 64) initial (padding (codes "abc"))))
digest_lem_example = digest_lem (codes "abc") (omega arith)

sha1_abc : sha1 (codes "abc") ≡ codes "a9993e364706816aba3e25717850c26c9cd0d89d"
unfolding sha1 compress
sha1_abc = refl
