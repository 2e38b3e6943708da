-- ===== src/Uri/Whole/Cuts.antt =====
-- The cuts of URI::Valid and URI::Parse of src/URI.cc lose no character of the text.
use ign_common.Common.{
  ℕ, zero, suc, ◌≡◌, refl, ◌∙◌, ap, Bool, true, false, Option, none, some, [], ◌∷◌, ◌++◌, arith,
  ◌==◌, if◌then◌else◌, take, drop, Bool-cases, Option-cases, inl, inr,
}
use mathlib.Core.List.{append-nil}
use ign_common.Common.Text.{
  Bytes, codes, one_of, index_where, is_some, find_char, take_upto, erase_front,
}
use ign_common.Uri.Chars.{find_first_of}
use ign_common.Uri.Whole.{cut, cut_query}

take-drop : (n : ℕ) (s : Bytes) → take n s ++ drop n s ≡ s
take-drop zero s = refl
take-drop (suc n) [] = refl
take-drop (suc n) (c ∷ s) = ap (λ t. c ∷ t) (take-drop n s)

take_upto-erase_front : (n : Option ℕ) (s : Bytes) → take_upto n s ++ erase_front n s ≡ s
take_upto-erase_front none s = append-nil s
take_upto-erase_front (some n) s = take-drop n s

-- What is left behind a cut at the first character that passes a test is nothing, or starts there.
abbrev AtCut : (ℕ → Bool) → Bytes → Type 0
AtCut p [] = Unit
AtCut p (c ∷ s) = p c ≡ true

erase_front-AtCut : (p : ℕ → Bool) (s : Bytes) → AtCut p (erase_front (index_where p s) s)
erase_front-AtCut p [] = tt
erase_front-AtCut p (c ∷ s) =
    let t = erase_front-AtCut p s in
    elim (Bool-cases (p c)) [
      | inl h ↦ rw h h
      | inr h ↦ elim (Option-cases (index_where p s)) [
        | inl e ↦ rw (h, e) tt
        | inr (i, e) ↦ let r : AtCut p (drop i s) = rw e at t in rw (h, e) r
      ]
    ]

-- The fragment of a text.
abbrev rest_of : Bytes → Bytes
rest_of s = if is_some (find_char s b'#' 0) then s else []

rest_of-AtCut : (s : Bytes) → AtCut (λ x. x == b'#') s → rest_of s ≡ s
rest_of-AtCut [] h = refl
rest_of-AtCut (c ∷ s) h = ground (arith, h)

find_char-index : (s : Bytes) (c : ℕ) → find_char s c 0 ≡ index_where (λ x. x == c) s
find_char-index s c = elim (Option-cases (index_where (λ x. x == c) s)) [
  | inl e ↦ rw e refl
  | inr (i, e) ↦ ground (arith, e)
]

find_first_of-index : (chars s : Bytes) → find_first_of chars s 0 ≡ index_where (one_of chars) s
unfolding find_first_of
find_first_of-index chars s = elim (Option-cases (index_where (one_of chars) s)) [
  | inl e ↦ rw e refl
  | inr (i, e) ↦ ground (arith, e)
]

cut_query-some :
    (s : Bytes)
    → is_some (find_char s b'?' 0) ≡ true
    → cut_query s ≡ (take_upto (find_char s b'#' 0) s, erase_front (find_char s b'#' 0) s)
unfolding cut_query
cut_query-some s e = rw (cut_query, e) refl

cut_query-none : (s : Bytes) → is_some (find_char s b'?' 0) ≡ false → cut_query s ≡ ([], s)
unfolding cut_query
cut_query-none s e = rw (cut_query, e) refl

only_fragment :
    (s : Bytes)
    → AtCut (one_of (codes "?#")) s
    → is_some (find_char s b'?' 0) ≡ false
    → AtCut (λ x. x == b'#') s
only_fragment [] h e = tt
only_fragment (c ∷ s) h e = ground (arith, h, e)

-- Behind the path, the query and the fragment are all that is left.
cut_query-AtCut :
    (s : Bytes) → AtCut (one_of (codes "?#")) s → (cut_query s).0 ++ rest_of (cut_query s).1 ≡ s
cut_query-AtCut s h = elim (Bool-cases (is_some (find_char s b'?' 0))) [
  | inl e ↦
      let n = find_char s b'#' 0 in
      let at : AtCut (λ x. x == b'#') (erase_front n s) =
        rw (find_char-index s b'#') (erase_front-AtCut (λ x. x == b'#') s) in
      ap (λ c. c.0 ++ rest_of c.1) (cut_query-some s e)
      ∙ ap (λ t. take_upto n s ++ t) (rest_of-AtCut (erase_front n s) at)
      ∙ take_upto-erase_front n s
  | inr e ↦
      ap (λ c. c.0 ++ rest_of c.1) (cut_query-none s e) ∙ rest_of-AtCut s (only_fragment s h e)
]

-- The path, the query and the fragment that are cut from a text spell it.
pub cut_lossless :
    (s : Bytes) → (cut s).path_text ++ ((cut s).query_text ++ (cut s).fragment_text) ≡ s
unfolding cut
cut_lossless s =
    let n = find_first_of (codes "?#") s 0 in
    let h : AtCut (one_of (codes "?#")) (erase_front n s) =
      rw (find_first_of-index (codes "?#") s) (erase_front-AtCut (one_of (codes "?#")) s) in
    ap (λ t. take_upto n s ++ t) (cut_query-AtCut (erase_front n s) h) ∙ take_upto-erase_front n s
