-- ===== src/Animation/Frames.antt =====
-- The order of the key frames of graphics/src/Animation.cc.
use ign_common.Common.{
  ℕ, zero, suc, ◌+◌, ◌-◌, ◌<◌, ◌≡◌, refl, sym, ◌∙◌, ap, Bool, true, false, ◌&&◌, Option, none, some,
  List, [], ◌∷◌, arith, ◌==◌, if◌then◌else◌, length, get_elem?, inl, inr, ◌⊎◌, Bool-cases,
  Option-cases,
}
use mathlib.Core.Bool.{not}
use mathlib.Core.Option.{some-injective}
use ign_common.Mesh.Lists.{get_elem?-some, get_elem?-below}
use ign_common.Mesh.Extremes.{IsStrict}
use ign_common.Animation.{
  Clock, KeyFrame, Animation, insert_frame, create_key_frame, lower_bound_at, frames_around, Around,
  fraction, between, past_end, around_at,
}

get_elem?-none :
    {A : Type 0} (xs : List A) (i : ℕ) → get_elem? xs i ≡ none → i < suc (length xs) → length xs ≡ i
get_elem?-none [] i e l = omega arith
get_elem?-none {A} (x ∷ xs) zero e l = let n : ◌≡◌ {A = Option A} (some x) none = e in cc
get_elem?-none (x ∷ xs) (suc i) e l = ap suc (get_elem?-none xs i e (omega arith))

back_positive : (i : ℕ) (b : Bool) → (not (i == 0) && b) ≡ true → 0 < i
back_positive zero b h = let n : false ≡ true = h in cc
back_positive (suc i) b h = omega arith

back_before : (i : ℕ) (b : Bool) → (not (i == 0) && b) ≡ true → b ≡ true
back_before zero b h = let n : false ≡ true = h in cc
back_before (suc i) true h = refl
back_before (suc i) false h = ground (arith, h)

at_first : (i : ℕ) (b : Bool) → (not (i == 0) && b) ≡ false → (b ≡ false) ⊎ (i ≡ 0)
at_first i false h = inl refl
at_first zero true h = inr refl
at_first (suc i) true h =
    let e : (suc i == 0) ≡ false = ground arith in let n : true ≡ false = rw e at h in cc

module _ (c : Clock) (V : Type 0) where
  open c use {T, lt, add}

  -- No frame of a list is before a time.
  abbrev NotBefore : T → List (KeyFrame c V) → Type 0
  NotBefore t [] = Unit
  NotBefore t (f ∷ fs) = (lt f.time t ≡ false) × NotBefore t fs

  -- No frame is before an earlier one.
  abbrev pub AreSorted : List (KeyFrame c V) → Type 0
  AreSorted [] = Unit
  AreSorted (f ∷ fs) = NotBefore f.time fs × AreSorted fs

  NotBefore-insert :
      (t : T) (f : KeyFrame c V) (fs : List (KeyFrame c V))
      → lt f.time t ≡ false
      → NotBefore t fs
      → NotBefore t (insert_frame c V f fs)
  unfolding insert_frame
  NotBefore-insert t f [] e n = (e, tt)
  NotBefore-insert t f (g ∷ gs) e n =
      let rest = NotBefore-insert t f gs e n.1 in
      elim (Bool-cases (lt f.time g.time)) [ inl b ↦ rw b (e, n) | inr b ↦ rw b (n.0, rest) ]

  NotBefore-trans :
      (s t : T) (fs : List (KeyFrame c V))
      → IsStrict lt
      → lt t s ≡ false
      → NotBefore t fs
      → NotBefore s fs
  NotBefore-trans s t [] o e n = tt
  NotBefore-trans s t (f ∷ fs) o e n = (o.trans f.time t s n.0 e, NotBefore-trans s t fs o e n.1)

  -- With strictly ordered times (no NaN), CreateKeyFrame keeps the key frames sorted.
  pub create_key_frame-AreSorted :
      (address : ℕ) (value : V) (t : T) (a : Animation c V)
      → IsStrict lt
      → AreSorted a.key_frames
      → AreSorted (create_key_frame c V address value t a).key_frames
  unfolding create_key_frame insert_frame
  create_key_frame-AreSorted address value t a o s =
      inserted (record { address = address; time = t; value = value }) a.key_frames s
    where
      inserted :
          (f : KeyFrame c V) (fs : List (KeyFrame c V))
          → AreSorted fs
          → AreSorted (insert_frame c V f fs)
      inserted f [] s = (tt, tt)
      inserted f (g ∷ gs) s =
          let rest = inserted f gs s.1 in
          elim (Bool-cases (lt f.time g.time)) [
            | inl b ↦
                let d = o.asym f.time g.time b in
                rw b ((d, NotBefore-trans f.time g.time gs o d s.0), s)
            | inr b ↦ rw b (NotBefore-insert g.time f gs b s.0, rest)
          ]

  lower_bound_at-le : (t : T) (fs : List (KeyFrame c V)) → lower_bound_at c V t fs < suc (length fs)
  unfolding lower_bound_at
  lower_bound_at-le t [] = omega arith
  lower_bound_at-le t (f ∷ fs) =
      let rest = lower_bound_at-le t fs in
      elim (Bool-cases (lt f.time t)) [ inl e ↦ rw e (omega arith) | inr e ↦ rw e (omega arith) ]

  lower_bound_at-reached :
      (t : T) (fs : List (KeyFrame c V)) (k : KeyFrame c V)
      → get_elem? fs (lower_bound_at c V t fs) ≡ some k
      → lt k.time t ≡ false
  unfolding lower_bound_at
  lower_bound_at-reached t [] k h = let n : ◌≡◌ {A = Option (KeyFrame c V)} none (some k) = h in cc
  lower_bound_at-reached t (f ∷ fs) k h =
      let rest = lower_bound_at-reached t fs k in
      elim (Bool-cases (lt f.time t)) [
        | inl e ↦ rest (rw e at h)
        | inr e ↦
            let n : some f ≡ some k = rw e at h in
            ap (λ (g : KeyFrame c V). lt g.time t) (sym (some-injective _ _ n)) ∙ e
      ]

  lower_bound_at-passed :
      (t : T) (fs : List (KeyFrame c V)) (j : ℕ) (k : KeyFrame c V)
      → j < lower_bound_at c V t fs
      → get_elem? fs j ≡ some k
      → lt k.time t ≡ true
  unfolding lower_bound_at
  lower_bound_at-passed t [] j k l h = absurd (omega arith)
  lower_bound_at-passed t (f ∷ fs) zero k l h = elim (Bool-cases (lt f.time t)) [
    | inl e ↦ ap (λ (g : KeyFrame c V). lt g.time t) (sym (some-injective _ _ h)) ∙ e
    | inr e ↦ let m : 0 < 0 = rw e at l in absurd (omega arith)
  ]
  lower_bound_at-passed t (f ∷ fs) (suc j) k l h =
      let rest = lower_bound_at-passed t fs j k in
      elim (Bool-cases (lt f.time t)) [
        | inl e ↦ let m : suc j < suc (lower_bound_at c V t fs) = rw e at l in rest (omega arith) h
        | inr e ↦ let m : suc j < 0 = rw e at l in absurd (omega arith)
      ]

  -- A time is not before the first frame and before the second, which is the next one; or both are one
  -- frame, which is not before the time, and which the time is not before unless it is the first of all.
  abbrev pub IsInside : T → List (KeyFrame c V) → Around c V → Type 0
  IsInside t fs r =
      ((get_elem? fs (r.first_key_index + 1) ≡ some r.second)
        × (lt r.first.time t ≡ true)
        × (lt t r.second.time ≡ true))
      ⊎ ((get_elem? fs r.first_key_index ≡ some r.second)
          × (lt r.second.time t ≡ false)
          × ((lt t r.second.time ≡ false) ⊎ (r.first_key_index ≡ 0)))

  -- The frames around a time: inside, or past the last frame, whose next is the first of all, later
  -- by the length.
  abbrev pub IsAround : T → T → List (KeyFrame c V) → Around c V → Type 0
  IsAround t len fs r =
      (get_elem? fs r.first_key_index ≡ some r.first)
      × ((j : ℕ) (k : KeyFrame c V)
          → j < r.first_key_index
          → get_elem? fs j ≡ some k
          → lt k.time t ≡ true)
      × ((IsInside t fs r × (r.part ≡ fraction c V t r.first.time r.second.time))
          ⊎ ((lt r.first.time t ≡ true)
              × (r.first_key_index + 1 ≡ length fs)
              × (get_elem? fs 0 ≡ some r.second)
              × (r.part ≡ fraction c V t r.first.time (add len r.second.time))))

  abbrev around : T → T → KeyFrame c V → KeyFrame c V → ℕ → Around c V
  around t t2 k1 k2 j = record {
    first = k1;
    second = k2;
    first_key_index = j;
    part = fraction c V t k1.time t2;
  }

  between-some :
      (t t2 : T) (k1 k2 : KeyFrame c V) (fs : List (KeyFrame c V)) (j : ℕ)
      → get_elem? fs j ≡ some k1
      → between c V t t2 k2 fs j ≡ some (around t t2 k1 k2 j)
  unfolding between
  between-some t t2 k1 k2 fs j y = rw (y, between) refl

  past_end-some :
      (t len : T) (fs : List (KeyFrame c V)) (i : ℕ) (k1 k2 : KeyFrame c V)
      → get_elem? fs 0 ≡ some k2
      → get_elem? fs (i - 1) ≡ some k1
      → past_end c V t len fs i ≡ some (around t (add len k2.time) k1 k2 (i - 1))
  unfolding past_end
  past_end-some t len fs i k1 k2 x y =
      rw (x, past_end) (between-some t (add len k2.time) k1 k2 fs (i - 1) y)

  -- KeyFramesAtTime on sorted key frames, of which there is one, with strictly ordered times (no NaN) and
  -- a time that is not past the length, is defined. Its index is that of its first frame, and the frames
  -- before that one are before the time. Either the first frame is before the time, the time before the
  -- second frame, and the second is the next one; or both are the same frame, which is not before the
  -- time, and the time is not before it unless it is the first of all; or the first frame is the last of
  -- all and before the time, and the second is the first of all. The fraction is that of the time
  -- between the two, the second being later by the length in the last case.
  pub frames_around_lem :
      (t len : T) (fs : List (KeyFrame c V))
      → IsStrict lt
      → AreSorted fs
      → 0 < length fs
      → (r : Around c V) × (frames_around c V t len fs ≡ some r) × IsAround t len fs r
  unfolding frames_around
  frames_around_lem t len fs o s l =
      let i = lower_bound_at c V t fs in
      let li = lower_bound_at-le t fs in
      elim (Option-cases (get_elem? fs i)) [
        | inl e ↦
            let n : length fs ≡ i = get_elem?-none fs i e (omega arith) in
            let (k2, x) = get_elem?-some fs 0 l in
            let (k1, y) = get_elem?-some fs (i - 1) (omega arith) in
            (
              around t (add len k2.time) k1 k2 (i - 1),
              ap (around_at c V t len fs i) e ∙ past_end-some t len fs i k1 k2 x y,
              (
                y,
                λ j k q z. lower_bound_at-passed t fs j k (omega arith) z,
                inr (lower_bound_at-passed t fs (i - 1) k1 (omega arith) y, omega arith, x, refl),
              ),
            )
        | inr (k2, e) ↦
            let past = lower_bound_at-reached t fs k2 e in
            let m = get_elem?-below fs i k2 e in
            elim (Bool-cases (not (i == 0) && lt t k2.time)) [
              | inl b ↦
                  let z : 0 < i = back_positive i (lt t k2.time) b in
                  let (k1, y) = get_elem?-some fs (i - 1) (omega arith) in
                  let d = lower_bound_at-passed t fs (i - 1) k1 (omega arith) y in
                  let w = back_before i (lt t k2.time) b in
                  let n : i - 1 + 1 ≡ i = omega arith in
                  (
                    around t k2.time k1 k2 (i - 1),
                    ap (around_at c V t len fs i) e
                        ∙ ap (λ (q : Bool). between c V t k2.time k2 fs (if q then i - 1 else i)) b
                        ∙ between-some t k2.time k1 k2 fs (i - 1) y,
                    (
                      y,
                      λ j k q u. lower_bound_at-passed t fs j k (omega arith) u,
                      inl (inl (ap (get_elem? fs) n ∙ e, d, w), refl),
                    ),
                  )
              | inr b ↦ (
                around t k2.time k2 k2 i,
                ap (around_at c V t len fs i) e
                    ∙ ap (λ (q : Bool). between c V t k2.time k2 fs (if q then i - 1 else i)) b
                    ∙ between-some t k2.time k2 k2 fs i e,
                (
                  e,
                  λ j k q u. lower_bound_at-passed t fs j k q u,
                  inl (inr (e, past, at_first i (lt t k2.time) b), refl),
                ),
              )
            ]
      ]
