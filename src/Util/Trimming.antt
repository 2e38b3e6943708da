-- ===== src/Util/Trimming.antt =====
-- trimmed of src/Util.cc.
use ign_common.Common.{
  ℕ, ◌≡◌, refl, sym, ◌∙◌, ap, Bool, true, false, [], ◌∷◌, ◌++◌, arith, inl, inr, Bool-cases,
}
use mathlib.Core.List.{reverse, reverse-append, reverse-reverse}
use ign_common.Common.Text.{Bytes, All, Lacks, Lacks-append}
use ign_common.Util.{is_space, drop_while, take_while, ltrimmed, rtrimmed, trimmed}

abbrev pub IsBlank : Bytes → Type 0
IsBlank = All (λ c. is_space c ≡ true)

-- The first character, if there is one, is no space.
abbrev pub StartsInk : Bytes → Type 0
StartsInk [] = Unit
StartsInk (c ∷ s) = is_space c ≡ false

take-drop_while : (p : ℕ → Bool) (s : Bytes) → take_while p s ++ drop_while p s ≡ s
take-drop_while p [] = refl
take-drop_while p (c ∷ s) = ground (arith, take-drop_while p s)

IsBlank-front : (s : Bytes) → IsBlank (take_while is_space s)
IsBlank-front [] = tt
IsBlank-front (c ∷ s) = elim (Bool-cases (is_space c)) [
  | inl h ↦ rw h (h, IsBlank-front s)
  | inr h ↦ rw h tt
]

ink_after : (s : Bytes) → StartsInk (drop_while is_space s)
ink_after [] = tt
ink_after (c ∷ s) = elim (Bool-cases (is_space c)) [ inl h ↦ rw h (ink_after s) | inr h ↦ rw h h ]

IsBlank-append : (s t : Bytes) → IsBlank s → IsBlank t → IsBlank (s ++ t)
IsBlank-append [] t h k = k
IsBlank-append (c ∷ s) t h k = (h.0, IsBlank-append s t h.1 k)

IsBlank-reverse : (s : Bytes) → IsBlank s → IsBlank (reverse s)
IsBlank-reverse [] h = tt
IsBlank-reverse (c ∷ s) h =
    rw (reverse-append (c ∷ []) s)
      (IsBlank-append (reverse s) (c ∷ []) (IsBlank-reverse s h.1) (h.0, tt))

rtrimmed_split : (s : Bytes) → rtrimmed s ++ reverse (take_while is_space (reverse s)) ≡ s
unfolding rtrimmed
rtrimmed_split s =
    sym (reverse-append (take_while is_space (reverse s)) (drop_while is_space (reverse s)))
    ∙ ap reverse (take-drop_while is_space (reverse s))
    ∙ reverse-reverse s

StartsInk-append : (s t : Bytes) → StartsInk (s ++ t) → StartsInk s
StartsInk-append [] t h = tt
StartsInk-append (c ∷ s) t h = h

-- trimmed takes blanks away on both sides and nothing else, and leaves none at either end.
pub trimmed_lem :
    (s : Bytes)
    → (a b : Bytes) × (s ≡ a ++ (trimmed s ++ b))
      × IsBlank a
      × IsBlank b
      × StartsInk (trimmed s)
      × StartsInk (reverse (trimmed s))
unfolding trimmed ltrimmed
trimmed_lem s =
    let t = drop_while is_space s in
    let b = reverse (take_while is_space (reverse t)) in
    (
      take_while is_space s,
      b,
      sym (ap (λ u. take_while is_space s ++ u) (rtrimmed_split t) ∙ take-drop_while is_space s),
      IsBlank-front s,
      IsBlank-reverse _ (IsBlank-front (reverse t)),
      StartsInk-append (rtrimmed t) b (rw rtrimmed_split (ink_after s)),
      unfold rtrimmed in rw reverse-reverse (ink_after (reverse t)),
    )

IsBlank-Lacks : (s : Bytes) → IsBlank s → Lacks 0 s
unfolding is_space
IsBlank-Lacks [] h = tt
IsBlank-Lacks (c ∷ s) h = (ground (arith, h.0), IsBlank-Lacks s h.1)

-- A text has no zero byte when what trimmed leaves of it has none.
pub trimmed-Lacks : (s : Bytes) → Lacks 0 (trimmed s) → Lacks 0 s
trimmed-Lacks s h =
    let (a, b, e, x, y, i, j) = trimmed_lem s in
    rw e (
      Lacks-append 0 a (trimmed s ++ b) (IsBlank-Lacks a x)
        (Lacks-append 0 (trimmed s) b h (IsBlank-Lacks b y)))
