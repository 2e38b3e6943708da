-- ===== src/Util/Replacing.antt =====
-- replaceAll of src/Util.cc: it ends for every key that is not empty, and with a key of one character
-- it substitutes.
use ign_common.Common.{
  ℕ, zero, suc, ◌+◌, ◌≤◌, ◌<◌, ◌≡◌, refl, sym, ◌∙◌, ap, true, false, none, some, [], ◌∷◌, ◌++◌,
  arith, ◌==◌, ltb, if◌then◌else◌, length, length-append, length-take, length-drop, take, drop,
  Option-cases, inl, inr,
}
use mathlib.Core.List.{append_assoc}
use mathlib.Core.Option
use ign_common.Common.Text.{Bytes, take-append, drop-append}
use ign_common.Util.{is_prefix, find_in, find_text, replace_at, replace_loop, replace_all}

prefix-le : (key s : Bytes) → is_prefix key s ≡ true → length key ≤ length s
prefix-le [] s h = omega arith
prefix-le (k ∷ key) [] h = cc
prefix-le (k ∷ key) (c ∷ s) h = ground (arith, prefix-le key s)

find_in-le : (key s : Bytes) (i : ℕ) → find_in key s ≡ some i → i + length key ≤ length s
unfolding find_in
find_in-le key [] i h = ground (arith, prefix-le key [])
find_in-le key (c ∷ s) zero h = ground (arith, prefix-le key (c ∷ s))
find_in-le key (c ∷ s) (suc i) h = ground (arith, find_in-le key s i)

-- A match lies behind the position and inside the text.
find_text_range :
    (s key : Bytes) (pos p : ℕ)
    → find_text s key pos ≡ some p
    → (pos ≤ p) × (p + length key ≤ length s)
unfolding find_text
find_text_range s key pos p h = elim (Option-cases (find_in key (drop pos s))) [
  | inl e ↦ ground (arith, e)
  | inr (i, e) ↦ ground (arith, e, find_in-le key (drop pos s) i e, length-drop pos s)
]

length-replace_at :
    (s r : Bytes) (p n : ℕ)
    → p + n ≤ length s
    → length (replace_at s p n r) + n ≡ length s + length r
length-replace_at s r p n h = omega (
  arith,
  length-append (take p s) (r ++ drop (p + n) s),
  length-append r (drop (p + n) s),
  length-take p s,
  length-drop (p + n) s,
)

-- A round leaves less text behind the position, and the position inside the text.
round_shrinks :
    (s key r : Bytes) (pos p : ℕ)
    → 0 < length key
    → find_text s key pos ≡ some p
    → let q = p + (if ltb (length r) (length key) then 0 else length r) in
      let t = replace_at s p (length key) r in (q ≤ length t) × (length t + pos < length s + q)
round_shrinks s key r pos p k e =
    ground (arith, find_text_range s key pos p e, length-replace_at s r p (length key))

replace_loop_total :
    (fuel : ℕ) (s key r : Bytes) (pos : ℕ)
    → 0 < length key
    → pos ≤ length s
    → length s < fuel + pos
    → (t : Bytes) × (replace_loop fuel s key r pos ≡ some t)
unfolding replace_loop
replace_loop_total zero s key r pos k b h = absurd (omega arith)
replace_loop_total (suc fuel) s key r pos k b h = elim (Option-cases (find_text s key pos)) [
  | inl e ↦ (s, rw (e, replace_loop))
  | inr (p, e) ↦
      let (inside, less) = round_shrinks s key r pos p k e in
      let (t, q) = replace_loop_total fuel _ key r _ k inside (omega (arith, less)) in
      (t, rw (e, replace_loop) q)
]

-- replaceAll returns for every key that is not empty.
pub replace_all_total :
    (s key r : Bytes) → 0 < length key → (t : Bytes) × (replace_all s key r ≡ some t)
unfolding replace_all
replace_all_total s key r k =
    replace_loop_total (suc (length s)) s key r 0 k (omega arith) (omega arith)

module _ (k : ℕ) (r : Bytes) where
  -- The text with `r` for every `k`.
  abbrev pub substitute : Bytes → Bytes
  substitute [] = []
  substitute (c ∷ s) = if c == k then r ++ substitute s else c ∷ substitute s

  substitute-none : (s : Bytes) → find_in (k ∷ []) s ≡ none → substitute s ≡ s
  unfolding find_in
  substitute-none [] h = refl
  substitute-none (c ∷ s) h = ground (arith, substitute-none s)

  substitute-some :
      (s : Bytes) (i : ℕ)
      → find_in (k ∷ []) s ≡ some i
      → (front : Bytes) × (back : Bytes) × (s ≡ front ++ k ∷ back)
        × (length front ≡ i)
        × (substitute s ≡ front ++ (r ++ substitute back))
  unfolding find_in
  substitute-some [] i h = cc
  substitute-some (c ∷ s) zero h = ([], s, ground arith, refl, ground arith)
  substitute-some (c ∷ s) (suc i) h =
      let (f, b, e, l, q) = substitute-some s i (ground arith) in
      (c ∷ f, b, ap (λ t. c ∷ t) e, ap suc l, ground (arith, q))

  -- One round at the end of `pre`: the match becomes `r`, and the position goes behind it.
  find_at :
      (pre rest : Bytes)
      → find_text (pre ++ rest) (k ∷ []) (length pre)
        ≡ Option.map (λ i. length pre + i) (find_in (k ∷ []) rest)
  unfolding find_text
  find_at pre rest =
      let h : ltb (length (pre ++ rest)) (length pre) ≡ false =
        ground (arith, length-append pre rest) in
      rw (h, drop-append pre rest) refl

  replace_front :
      (pre front back : Bytes)
      → replace_at (pre ++ (front ++ k ∷ back)) (length pre + length front) 1 r
        ≡ ((pre ++ front) ++ r) ++ back
  replace_front pre front back =
      let l : length pre + length front ≡ length (pre ++ front) =
        omega (arith, length-append pre front) in
      let m : length (pre ++ front) + 1 ≡ length ((pre ++ front) ++ k ∷ []) =
        omega (arith, length-append (pre ++ front) (k ∷ [])) in
      let s : (pre ++ front) ++ k ∷ back ≡ ((pre ++ front) ++ k ∷ []) ++ back =
        sym (append_assoc (pre ++ front) (k ∷ []) back) in
      rw
        (
          l,
          sym (append_assoc pre front (k ∷ back)),
          m,
          take-append (pre ++ front) (k ∷ back),
          s,
          drop-append ((pre ++ front) ++ k ∷ []) back,
        )
        (sym (append_assoc (pre ++ front) r back))

  replace_loop-substitute :
      (fuel : ℕ) (pre rest : Bytes)
      → 1 ≤ length r
      → length rest < fuel
      → replace_loop fuel (pre ++ rest) (k ∷ []) r (length pre) ≡ some (pre ++ substitute rest)
  unfolding replace_loop
  replace_loop-substitute zero pre rest h b = absurd (omega arith)
  replace_loop-substitute (suc fuel) pre rest h b = elim (Option-cases (find_in (k ∷ []) rest)) [
    | inl e ↦ rw (find_at pre rest, e, replace_loop, substitute-none rest e) refl
    | inr (i, e) ↦
        let (front, back, q, l, u) = substitute-some rest i e in
        let again =
          replace_loop-substitute fuel ((pre ++ front) ++ r) back h
            (omega (arith, ap length q, length-append front (k ∷ back))) in
        let longer : ltb (length r) 1 ≡ false = ground arith in
        let at : length pre + i + length r ≡ length ((pre ++ front) ++ r) =
          omega (arith, l, length-append (pre ++ front) r, length-append pre front) in
        let text : replace_at (pre ++ rest) (length pre + i) 1 r ≡ ((pre ++ front) ++ r) ++ back =
          ap (λ t. replace_at (pre ++ t) (length pre + i) 1 r) q
          ∙ ap (λ n. replace_at (pre ++ (front ++ k ∷ back)) (length pre + n) 1 r) (sym l)
          ∙ replace_front pre front back in
        let spelled : ((pre ++ front) ++ r) ++ substitute back ≡ pre ++ substitute rest =
          append_assoc (pre ++ front) r (substitute back)
          ∙ append_assoc pre front (r ++ substitute back)
          ∙ ap (λ t. pre ++ t) (sym u) in
        rw (find_at pre rest, e, replace_loop, longer, text, at) (again ∙ ap some spelled)
  ]

-- replaceAll with a key of one character and a replacement that is not empty puts the replacement
-- for every such character, and does not look at what it put.
pub replace_all-substitute :
    (s : Bytes) (k : ℕ) (r : Bytes)
    → 1 ≤ length r
    → replace_all s (k ∷ []) r ≡ some (substitute k r s)
unfolding replace_all
replace_all-substitute s k r h = replace_loop-substitute k r (suc (length s)) [] s h (omega arith)
