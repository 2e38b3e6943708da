-- ===== src/Util/Splitting.antt =====
-- split of src/Util.cc, which reads its text by strtok.
use ign_common.Common.{
  ℕ, zero, suc, ◌≤◌, ◌<◌, ◌≡◌, ◌≢◌, ◌⊎◌, refl, sym, ◌∙◌, ap, Bool, false, none, some, List, [], ◌∷◌,
  ◌++◌, arith, if◌then◌else◌, length, Bool-cases, inl, inr,
}
use mathlib.Core.Bool.{not}
use mathlib.Core.List.{append_assoc, append-nil}
use ign_common.Common.Text.{Bytes, All, one_of}
use ign_common.Util.{drop_while, take_while, tail, word_of, c_str, split_loop, split}

-- The characters that pass a test, in order.
abbrev pub keep : (ℕ → Bool) → Bytes → Bytes
keep p [] = []
keep p (c ∷ s) = if p c then c ∷ keep p s else keep p s

abbrev pub concat : List Bytes → Bytes
concat [] = []
concat (w ∷ ws) = w ++ concat ws

-- A word is not empty and holds no delimiter.
abbrev pub IsWord : (ℕ → Bool) → Bytes → Type 0
IsWord d w = (w ≢ []) × All (λ c. d c ≡ false) w

module _ (d : ℕ → Bool) where
  abbrev nd : ℕ → Bool
  nd c = not (d c)

  keep_skip : (s : Bytes) → keep nd (drop_while d s) ≡ keep nd s
  keep_skip [] = refl
  keep_skip (c ∷ s) = ground (arith, keep_skip s)

  length_skip : (s : Bytes) → length (drop_while d s) ≤ length s
  length_skip [] = omega arith
  length_skip (c ∷ s) = ground (arith, length_skip s)

  skip_head : (s : Bytes) (c : ℕ) (t : Bytes) → drop_while d s ≡ c ∷ t → d c ≡ false
  skip_head [] c t h = cc
  skip_head (x ∷ s) c t h = ground (arith, skip_head s c t)

  -- A word and what is behind its delimiter.
  keep_word : (s : Bytes) → take_while nd s ++ keep nd (tail (drop_while nd s)) ≡ keep nd s
  keep_word [] = refl
  keep_word (c ∷ s) = ground (arith, keep_word s)

  word-All : (s : Bytes) → All (λ c. d c ≡ false) (take_while nd s)
  word-All [] = tt
  word-All (c ∷ s) = elim (Bool-cases (d c)) [ inl h ↦ rw h tt | inr h ↦ rw h (h, word-All s) ]

  length_rest : (s : Bytes) → length (tail (drop_while nd s)) ≤ length s
  length_rest [] = omega arith
  length_rest (c ∷ s) = ground (arith, length_rest s)

  -- The next word, or the end of the text.
  record Next (s : Bytes) (word rest : Bytes) : Type 0 where
    is_word : IsWord d word
    kept : word ++ keep nd rest ≡ keep nd s
    shorter : length rest < length s

  word_of-Next :
      (c : ℕ) (s : Bytes)
      → d c ≡ false
      → (w : Bytes) × (r : Bytes) × (word_of d (c ∷ s) ≡ some (w, r)) × Next (c ∷ s) w r
  unfolding word_of
  word_of-Next c s h = (
    take_while nd (c ∷ s),
    tail (drop_while nd (c ∷ s)),
    refl,
    record {
      is_word = (rw h (λ e. cc), word-All (c ∷ s));
      kept = keep_word (c ∷ s);
      shorter = ground (arith, length_rest s);
    },
  )

  -- At the end of the text no character but delimiters is left.
  Next-word :
      (s : Bytes)
      → ((word_of d (drop_while d s) ≡ none) × (keep nd s ≡ []))
        ⊎ ((w : Bytes) × (r : Bytes) × (word_of d (drop_while d s) ≡ some (w, r)) × Next s w r)
  Next-word s = go (drop_while d s) refl
    where
      go :
          (t : Bytes)
          → drop_while d s ≡ t
          → ((word_of d (drop_while d s) ≡ none) × (keep nd s ≡ []))
            ⊎ ((w : Bytes) × (r : Bytes) × (word_of d (drop_while d s) ≡ some (w, r)) × Next s w r)
      go [] e = inl (rw e (unfold word_of in refl), sym (keep_skip s) ∙ ap (keep nd) e)
      go (c ∷ t) e =
          let (w, r, q, n) = word_of-Next c t (skip_head s c t e) in
          inr (
            w,
            r,
            rw e q,
            record {
              is_word = n.is_word;
              kept = n.kept ∙ ap (keep nd) (sym e) ∙ keep_skip s;
              shorter = omega (arith, n.shorter, length_skip s, ap length e);
            },
          )

split_loop-words :
    (fuel : ℕ) (delim s : Bytes) (tokens : List Bytes)
    → length s < fuel
    → (ws : List Bytes) × (split_loop fuel delim s tokens ≡ some (tokens ++ ws))
      × (concat ws ≡ keep (λ c. not (one_of delim c)) s)
      × All (IsWord (one_of delim)) ws
unfolding split_loop
split_loop-words zero delim s tokens h = absurd (omega arith)
split_loop-words (suc fuel) delim s tokens h = elim (Next-word (one_of delim) s) [
  | inl (e, k) ↦ ([], rw (e, split_loop, append-nil), sym k, tt)
  | inr (w, r, e, n) ↦
      let (ws, q, c, a) =
        split_loop-words fuel delim r (tokens ++ w ∷ []) (omega (arith, n.shorter)) in
      (
        w ∷ ws,
        rw (e, split_loop) (q ∙ ap some (append_assoc tokens (w ∷ []) ws)),
        ap (λ t. w ++ t) c ∙ n.kept,
        (n.is_word, a),
      )
]

-- split always returns. With the characters of the delimiter text up to its first zero byte as
-- delimiters, its pieces are not empty, hold no delimiter, and spell the text up to its first zero byte
-- without the delimiters.
pub split-words :
    (s delim : Bytes)
    → (ws : List Bytes) × (split s delim ≡ some ws)
      × (concat ws ≡ keep (λ c. not (one_of (c_str delim) c)) (c_str s))
      × All (IsWord (one_of (c_str delim))) ws
unfolding split
split-words s delim =
    split_loop-words (suc (length (c_str s))) (c_str delim) (c_str s) [] (omega arith)
