-- ===== src/StringUtils/Pieces.antt =====
-- What `Split` of src/StringUtils.cc returns, against a description by recursion on the text.
use ign_common.Common.{
  ℕ, zero, suc, ◌+◌, ◌-◌, ◌≤◌, ◌<◌, ◌≡◌, ◌≢◌, refl, ap, ◌∙◌, Option, none, some, List, [], ◌∷◌,
  ◌++◌, arith, ◌==◌, if◌then◌else◌, length, take, drop, length-drop, inl, inr, Option-cases,
  Bool-cases,
}
use mathlib.Core.List.{append_assoc}
use ign_common.Common.Text.{Bytes, All, Lacks, find_char, index_where, substr, take-all, drop-drop}
use ign_common.StringUtils.{split_loop, split}

abbrev push_char : ℕ → List Bytes → List Bytes
push_char c [] = (c ∷ []) ∷ []
push_char c (p ∷ ps) = (c ∷ p) ∷ ps

-- The parts of a text between the delimiters.
pub parts : ℕ → Bytes → List Bytes
parts delim [] = [] ∷ []
parts delim (c ∷ s) = if c == delim then [] ∷ parts delim s else push_char c (parts delim s)

abbrev is_delim : ℕ → Bytes → Option ℕ
is_delim delim = index_where (λ x. x == delim)

parts_last : (delim : ℕ) (s : Bytes) → is_delim delim s ≡ none → parts delim s ≡ s ∷ []
unfolding parts
parts_last delim [] h = refl
parts_last delim (c ∷ s) h = ground (arith, parts_last delim s)

parts_next :
    (delim : ℕ) (s : Bytes) (i : ℕ)
    → is_delim delim s ≡ some i
    → parts delim s ≡ take i s ∷ parts delim (drop (suc i) s)
unfolding parts
parts_next delim [] i h = cc
parts_next delim (c ∷ s) zero h = ground arith
parts_next delim (c ∷ s) (suc i) h = ground (arith, parts_next delim s i)

index_lt : (delim : ℕ) (s : Bytes) (i : ℕ) → is_delim delim s ≡ some i → i < length s
index_lt delim [] i h = cc
index_lt delim (c ∷ s) zero h = omega arith
index_lt delim (c ∷ s) (suc i) h = ground (arith, index_lt delim s i)

split_loop-last :
    (fuel : ℕ) (orig : Bytes) (delim : ℕ) (pieces : List Bytes) (pos1 : ℕ)
    → split_loop fuel orig delim pieces pos1 none ≡ some (pieces ++ drop pos1 orig ∷ [])
unfolding split_loop
split_loop-last zero orig delim pieces pos1 =
    rw (take-all (length orig - pos1) (drop pos1 orig) (omega (arith, length-drop pos1 orig)))
split_loop-last (suc fuel) orig delim pieces pos1 =
    rw (take-all (length orig - pos1) (drop pos1 orig) (omega (arith, length-drop pos1 orig)))

split_loop-next :
    (fuel : ℕ) (orig : Bytes) (delim : ℕ) (pieces : List Bytes) (pos1 pos2 : ℕ)
    → split_loop (suc fuel) orig delim pieces pos1 (some pos2)
      ≡ split_loop fuel orig delim
          (pieces ++ substr orig pos1 (some (pos2 - pos1)) ∷ [])
          (pos2 + 1)
          (find_char orig delim (pos2 + 1))
unfolding split_loop
split_loop-next fuel orig delim pieces pos1 pos2 = refl

-- A found delimiter splits off the piece in front of it.
piece_step :
    (orig : Bytes) (delim pos1 i : ℕ) (pieces : List Bytes)
    → is_delim delim (drop pos1 orig) ≡ some i
    → (pieces ++ take (pos1 + i - pos1) (drop pos1 orig) ∷ [])
        ++ parts delim (drop (pos1 + i + 1) orig)
      ≡ pieces ++ parts delim (drop pos1 orig)
piece_step orig delim pos1 i pieces e =
    let width : pos1 + i - pos1 ≡ i = omega arith in
    let next : pos1 + i + 1 ≡ pos1 + suc i = omega arith in
    rw (
      parts_next delim (drop pos1 orig) i e,
      width,
      next,
      drop-drop pos1 (suc i) orig,
      append_assoc,
    )

split_loop-parts :
    (fuel : ℕ) (orig : Bytes) (delim : ℕ) (pieces : List Bytes) (pos1 : ℕ)
    → length (drop pos1 orig) ≤ fuel
    → split_loop fuel orig delim pieces pos1 (find_char orig delim pos1)
      ≡ some (pieces ++ parts delim (drop pos1 orig))
split_loop-parts zero orig delim pieces pos1 h =
    elim (Option-cases (is_delim delim (drop pos1 orig))) [
      | inl e ↦ rw (e, parts_last delim _ e) (split_loop-last zero orig delim pieces pos1)
      | inr (i, e) ↦ absurd (omega (arith, index_lt delim (drop pos1 orig) i e))
    ]
split_loop-parts (suc fuel) orig delim pieces pos1 h =
    elim (Option-cases (is_delim delim (drop pos1 orig))) [
      | inl e ↦ rw (e, parts_last delim _ e) (split_loop-last (suc fuel) orig delim pieces pos1)
      | inr (i, e) ↦ rw e (
          split_loop-next fuel orig delim pieces pos1 (pos1 + i)
          ∙ split_loop-parts fuel orig delim _ (pos1 + i + 1) (shorter i)
          ∙ ap some (piece_step orig delim pos1 i pieces e))
    ]
  where
    shorter : (i : ℕ) → length (drop (pos1 + i + 1) orig) ≤ fuel
    shorter i = omega (arith, length-drop pos1 orig, length-drop (pos1 + i + 1) orig)

-- Split always returns, and returns the parts between the delimiters.
pub split-parts : (s : Bytes) (delim : ℕ) → split s delim ≡ some (parts delim s)
unfolding split
split-parts s delim =
    split_loop-parts (length s) s delim [] 0 (let e : 0 ≤ 0 = omega arith in omega arith)

-- The text that has the pieces with a delimiter between two of them.
pub join : ℕ → List Bytes → Bytes
join delim [] = []
join delim (p ∷ []) = p
join delim (p ∷ q ∷ ps) = p ++ delim ∷ join delim (q ∷ ps)

join-push_char : (delim c : ℕ) (ps : List Bytes) → join delim (push_char c ps) ≡ c ∷ join delim ps
unfolding join
join-push_char delim c [] = refl
join-push_char delim c (p ∷ []) = refl
join-push_char delim c (p ∷ q ∷ ps) = refl

parts-ne-nil : (delim : ℕ) (s : Bytes) → parts delim s ≢ []
unfolding parts
parts-ne-nil delim [] = λ h. cc
parts-ne-nil delim (c ∷ s) = ground (arith, parts-ne-nil delim s)

join-nil : (delim : ℕ) (ps : List Bytes) → ps ≢ [] → join delim ([] ∷ ps) ≡ delim ∷ join delim ps
unfolding join
join-nil delim [] h = absurd (h refl)
join-nil delim (p ∷ ps) h = refl

pub join-parts : (delim : ℕ) (s : Bytes) → join delim (parts delim s) ≡ s
unfolding parts
join-parts delim [] = unfold join in refl
join-parts delim (c ∷ s) = ground (
  arith,
  join-parts delim s,
  join-push_char delim c (parts delim s),
  join-nil delim (parts delim s) (parts-ne-nil delim s),
)

push_char-Lacks :
    (delim c : ℕ) (ps : List Bytes)
    → c ≢ delim
    → All (Lacks delim) ps
    → All (Lacks delim) (push_char c ps)
push_char-Lacks delim c [] h a = ((h, tt), tt)
push_char-Lacks delim c (p ∷ ps) h a = ((h, a.0), a.1)

pub parts-Lacks : (delim : ℕ) (s : Bytes) → All (Lacks delim) (parts delim s)
unfolding parts
parts-Lacks delim [] = (tt, tt)
parts-Lacks delim (c ∷ s) = elim (Bool-cases (c == delim)) [
  | inl e ↦ rw e (tt, parts-Lacks delim s)
  | inr e ↦ rw e (push_char-Lacks delim c _ (ground arith) (parts-Lacks delim s))
]

pub length-parts-pos : (delim : ℕ) (s : Bytes) → 1 ≤ length (parts delim s)
length-parts-pos delim s = positive (parts delim s) (parts-ne-nil delim s)
  where
    positive : (ps : List Bytes) → ps ≢ [] → 1 ≤ length ps
    positive [] h = absurd (h refl)
    positive (p ∷ ps) h = omega arith

-- Split returns at least one piece, the pieces joined by the delimiter are the text, and no piece
-- holds the delimiter.
pub split_lem :
    (s : Bytes) (delim : ℕ)
    → (ps : List Bytes) × (split s delim ≡ some ps)
      × (join delim ps ≡ s)
      × All (Lacks delim) ps
      × (1 ≤ length ps)
split_lem s delim = (
  parts delim s,
  split-parts s delim,
  join-parts delim s,
  parts-Lacks delim s,
  length-parts-pos delim s,
)
