-- ===== src/MovingWindowFilter/Runs.antt =====
-- Sequences of updates of MovingWindowFilter.hh.
use ign_common.Common.{
  ℕ, zero, suc, ◌+◌, ◌^◌, ◌≤◌, ◌<◌, ◌≡◌, refl, sym, ◌∙◌, ap, Option, none, some, List, [], ◌∷◌,
  ◌++◌, arith, length, length-replicate, length-take, take, replicate,
}
use mathlib.Core.Path.{subst, ap₂}
use ign_common.Common.Text.{take-all}
use mathlib.Core.List.{reverse, append_assoc, append-nil}
use ign_common.MovingWindowFilter.{Summand, Filter, set_window_size, update}
use ign_common.MovingWindowFilter.Window.{
  Holds, update-Holds, length-reverse, reverse-cons, exchanged,
}
use ign_common.MovingWindowFilter.Sums.{total, exchanged-total, IsExact}

module _ {ℓ} {A : Type ℓ} where
  take-take : (n m : ℕ) (b : List A) → n ≤ m → take n (take m b) ≡ take n b
  take-take zero m b h = refl
  take-take (suc n) zero b h = absurd (omega arith)
  take-take (suc n) (suc m) [] h = refl
  take-take (suc n) (suc m) (x ∷ b) h = ap (λ t. x ∷ t) (take-take n m b (omega arith))

  take-append_take : (n m : ℕ) (a b : List A) → n ≤ m → take n (a ++ take m b) ≡ take n (a ++ b)
  take-append_take n m [] b h = take-take n m b h
  take-append_take zero m (x ∷ a) b h = refl
  take-append_take (suc n) m (x ∷ a) b h = ap (λ t. x ∷ t) (take-append_take n m a b (omega arith))

module _ (s : Summand) where
  open s use {T, null}

  -- Update with each value in turn.
  pub updates : Filter s → List T → Option (Filter s)
  updates f [] = some f
  updates f (v ∷ vs) = elim (update s f v) [ none ↦ none | some g ↦ updates g vs ]

  -- The filter over a plain list, the newest value first: the sum after each value in turn.
  pub windowed : ℕ → T → List T → List T → T
  windowed w sum recent [] = sum
  windowed w sum recent (v ∷ vs) = windowed w (exchanged s w sum v recent) (take w (v ∷ recent)) vs

  updates-Holds :
      (vs : List T) (f : Filter s) (recent : List T)
      → Holds s f recent
      → (g : Filter s) × (updates f vs ≡ some g)
        × Holds s g (take f.val_window_size (reverse vs ++ recent))
        × (g.val_window_size ≡ f.val_window_size)
        × (g.sum ≡ windowed f.val_window_size f.sum recent vs)
  unfolding updates windowed
  updates-Holds [] f recent h = (f, refl, rw within h, refl, refl)
    where
      within : take f.val_window_size recent ≡ recent
      within = take-all _ recent (omega (arith, ap length h.last, length-take f.samples h.n, h.few))
  updates-Holds (v ∷ vs) f recent h =
      let w = f.val_window_size in
      let (g, e, hg, k, q) = update-Holds s f recent v h in
      let (p, e', hp, k', q') = updates-Holds vs g (take w (v ∷ recent)) hg in
      (
        p,
        rw (e, updates) e',
        subst (Holds s p) (window g.val_window_size k) hp,
        k' ∙ k,
        q' ∙ ap₂ (λ n sum. windowed n sum (take w (v ∷ recent)) vs) k q,
      )
    where
      window :
          (n : ℕ)
          → n ≡ f.val_window_size
          → take n (reverse vs ++ take f.val_window_size (v ∷ recent))
            ≡ take f.val_window_size (reverse (v ∷ vs) ++ recent)
      window n e =
          rw (e, reverse-cons v vs, append_assoc)
            (take-append_take _ _ (reverse vs) (v ∷ recent) (omega arith))

  pub set_window_size-Holds :
      (w : ℕ) (f : Filter s) → 0 < w → w + 1 < 2 ^ 32 → Holds s (set_window_size s w f) []
  unfolding set_window_size
  set_window_size-Holds zero f h l = absurd (omega arith)
  set_window_size-Holds (suc k) f h l = record {
    n = reverse (null ∷ []) ++ reverse (replicate k null);
    newest = record {
      front = null ∷ [];
      back = replicate k null;
      history = refl;
      place = refl;
      order = refl;
    };
    wide = ap suc (length-reverse (replicate k null) ∙ length-replicate k null);
    few = omega arith;
    some_window = h;
    unsigned = l;
    last = refl;
  }

  -- After SetWindowSize to a positive size below 2^32 - 1 and any updates, every one of which is defined, for
  -- any type of values: the sum is that of a plain list of the last values, to which each new value is
  -- added before the one that leaves the window is taken off, and `samples` counts the values of the
  -- window, as many as there were updates until it is full.
  pub updates_lem :
      (w : ℕ) (f : Filter s) (vs : List T)
      → 0 < w
      → w + 1 < 2 ^ 32
      → (g : Filter s) × (updates (set_window_size s w f) vs ≡ some g)
        × (g.sum ≡ windowed w null [] vs)
        × (g.samples ≡ length (take w (reverse vs)))
        × (g.val_window_size ≡ w)
  unfolding set_window_size
  updates_lem w f vs h l =
      let (g, e, hg, k, q) =
        updates-Holds vs (set_window_size s w f) [] (set_window_size-Holds w f h l) in
      let held : Holds s g (take w (reverse vs)) = rw append-nil at hg in
      (
        g,
        e,
        q,
        omega (arith, ap length held.last, length-take g.samples held.n, held.wide, held.few),
        k,
      )

  -- For a type with exact sums, that sum is the sum of the last values, as many as the window holds.
  pub windowed-total :
      IsExact s
      → (vs : List T) (f : Filter s) (recent : List T) → Holds s f recent
      → f.sum ≡ total s recent
      → windowed f.val_window_size f.sum recent vs
        ≡ total s (take f.val_window_size (reverse vs ++ recent))
  unfolding windowed
  windowed-total x [] f recent h e =
      e
      ∙ ap (total s) (
          sym
            (take-all _ recent (omega (arith, ap length h.last, length-take f.samples h.n, h.few))))
  windowed-total x (v ∷ vs) f recent h e =
      let w = f.val_window_size in
      let (g, u, hg, k, q) = update-Holds s f recent v h in
      let t = exchanged-total s x f recent v h e in
      ap₂ (λ n sum. windowed n sum (take w (v ∷ recent)) vs) (sym k) (sym q)
      ∙ windowed-total x vs g (take w (v ∷ recent)) hg (q ∙ t)
      ∙ rw (k, reverse-cons v vs, append_assoc)
          (ap (total s) (take-append_take w w (reverse vs) (v ∷ recent) (omega arith)))
