-- ===== src/MovingWindowFilter/Window.antt =====
-- The circular buffer of MovingWindowFilter.hh against the list of the last values, newest first.
use ign_common.Common.{
  ℕ, zero, suc, ◌+◌, ◌-◌, ◌%◌, ◌^◌, ◌≤◌, ◌<◌, ◌≡◌, refl, sym, ◌∙◌, ap, Option, none, some, List, [],
  ◌∷◌, ◌++◌, arith, ltb, length, length-append, length-take, get_elem?, set, take, Bool-cases, inl,
  inr,
}
use mathlib.Core.Path.{ap₂}
use mathlib.Core.List.{reverse, append_assoc, append-nil, reverse-append}
use ign_common.Common.Text.{take-all, take-append}
use ign_common.MovingWindowFilter.{Summand, Filter, advance, update}

module _ {ℓ} {A : Type ℓ} where
  pub reverse-cons : (x : A) (b : List A) → reverse (x ∷ b) ≡ reverse b ++ x ∷ []
  reverse-cons x b = reverse-append (x ∷ []) b

  take-prefix : (m : ℕ) (a b : List A) → m ≤ length a → take m (a ++ b) ≡ take m a
  take-prefix zero a b h = refl
  take-prefix (suc m) [] b h = absurd (omega arith)
  take-prefix (suc m) (x ∷ a) b h = ap (λ t. x ∷ t) (take-prefix m a b (omega arith))

  length-take-le : (m : ℕ) (a : List A) → length (take m a) ≤ m
  length-take-le m a = omega (arith, length-take m a)

  get-middle : (a b : List A) (x : A) → get_elem? (a ++ x ∷ b) (length a) ≡ some x
  get-middle [] b x = refl
  get-middle (y ∷ a) b x = get-middle a b x

  get-past : (a : List A) (i : ℕ) → length a ≤ i → get_elem? a i ≡ none
  get-past [] i h = refl
  get-past (x ∷ a) zero h = absurd (omega arith)
  get-past (x ∷ a) (suc i) h = get-past a i (omega arith)

  set-middle : (a b : List A) (x v : A) → set (a ++ x ∷ b) (length a) v ≡ a ++ v ∷ b
  set-middle [] b x v = refl
  set-middle (y ∷ a) b x v = ap (λ t. y ∷ t) (set-middle a b x v)

  pub length-reverse : (a : List A) → length (reverse a) ≡ length a
  length-reverse [] = refl
  length-reverse (x ∷ a) =
      ap length (reverse-append (x ∷ []) a)
      ∙ length-append (reverse a) (x ∷ [])
      ∙ omega (arith, length-reverse a)

module _ (s : Summand) where
  open s use {T, null, plus, minus}

  -- A sum without a value that leaves, when there is one.
  abbrev pub without : Option T → T → T
  without none sum = sum
  without (some old) sum = minus sum old

  -- The sum with a new value and without the one that leaves a window of that size, newest first.
  abbrev pub exchanged : ℕ → T → T → List T → T
  exchanged w sum v recent = without (get_elem? recent (w - 1)) (plus sum v)

  -- The places of the history, newest first: those up to the iterator backwards, then the rest.
  pub record Newest (f : Filter s) (n : List T) : Type 0 where
    pub front : List T
    pub back : List T
    pub history : f.val_history ≡ front ++ back
    pub place : length front ≡ f.val_iter + 1
    pub order : n ≡ reverse front ++ reverse back

  -- The filter holds the last values, newest first.
  pub record Holds (f : Filter s) (recent : List T) : Type 0 where
    pub n : List T
    pub newest : Newest f n
    pub wide : length n ≡ f.val_window_size
    pub few : f.samples ≤ f.val_window_size
    pub some_window : 0 < f.val_window_size
    pub unsigned : f.val_window_size + 1 < 2 ^ 32
    pub last : recent ≡ take f.samples n

  -- Behind the next place everything is as before, and what stood there was the oldest value.
  pub record Advanced (f : Filter s) (n : List T) (v : T) : Type 0 where
    pub kept : List T
    pub old : T
    pub was : n ≡ kept ++ old ∷ []
    pub found : get_elem? f.val_history (advance s f) ≡ some old
    pub becomes :
        (g : Filter s)
        → g.val_history ≡ set f.val_history (advance s f) v
        → g.val_iter ≡ advance s f
        → Newest g (v ∷ kept)

  wrap :
      (f : Filter s) (x v : T) (b : List T)
      → f.val_history ≡ x ∷ b
      → length (x ∷ b) ≡ f.val_iter + 1
      → Advanced f (reverse (x ∷ b)) v
  wrap f x v b h l =
      let at_end : advance s f ≡ 0 = rw h (ground arith) in
      record {
        kept = reverse b;
        old = x;
        was = reverse-cons x b;
        found = rw (at_end, h);
        becomes = λ g gh gi. record {
          front = v ∷ [];
          back = b;
          history = rw (gh, at_end, h);
          place = rw (gi, at_end);
          order = refl;
        };
      }

  step_on :
      (f : Filter s) (front : List T) (x v : T) (b : List T)
      → f.val_history ≡ front ++ x ∷ b
      → length front ≡ f.val_iter + 1
      → Advanced f (reverse front ++ reverse (x ∷ b)) v
  step_on f front x v b h l =
      let inside : advance s f ≡ length front =
        rw (h, length-append front (x ∷ b)) (ground (arith, l)) in
      record {
        kept = reverse front ++ reverse b;
        old = x;
        was = rw (reverse-cons x b, append_assoc);
        found = rw (inside, h) (get-middle front b x);
        becomes = λ g gh gi. record {
          front = front ++ v ∷ [];
          back = b;
          history = gh ∙ rw (inside, h, set-middle front b x v, append_assoc);
          place = rw length-append (omega (arith, gi, inside));
          order = rw (reverse-append front (v ∷ []), append_assoc);
        };
      }

  pub advanced : (f : Filter s) (n : List T) (v : T) → Newest f n → Advanced f n v
  advanced f n v w = go w.front w.back w.history w.place w.order
    where
      go :
          (front back : List T)
          → f.val_history ≡ front ++ back
          → length front ≡ f.val_iter + 1
          → n ≡ reverse front ++ reverse back
          → Advanced f n v
      go [] [] h l o = absurd (omega arith)
      go [] (y ∷ b) h l o = absurd (omega arith)
      go (x ∷ b) [] h l o = rw (o, append-nil) (wrap f x v b (h ∙ append-nil (x ∷ b)) l)
      go (y ∷ a) (x ∷ b) h l o = rw o (step_on f (y ∷ a) x v b h l)

  module _ (f : Filter s) (recent : List T) (v : T) (h : Holds f recent) where
    filling :
        (kept : List T) (old : T)
        → h.n ≡ kept ++ old ∷ []
        → f.samples < f.val_window_size
        → take f.val_window_size (v ∷ recent) ≡ take (f.samples + 1) (v ∷ kept)
    filling kept old e lt =
        let prefix : take f.samples h.n ≡ take f.samples kept = rw e (
          take-prefix f.samples kept (old ∷ [])
            (omega (arith, h.wide, ap length e, length-append kept (old ∷ [])))) in
        let short : length (v ∷ take f.samples kept) ≤ f.val_window_size =
          omega (arith, length-take-le f.samples kept) in
        let one_more : f.samples + 1 ≡ suc f.samples = omega arith in
        rw (h.last, prefix, one_more, take-all f.val_window_size (v ∷ take f.samples kept) short)

    pub full :
        (kept : List T) (old : T)
        → h.n ≡ kept ++ old ∷ []
        → f.samples ≡ f.val_window_size
        → (recent ≡ kept ++ old ∷ []) × (take f.val_window_size (v ∷ recent) ≡ v ∷ kept)
    full kept old e top =
        let size : f.val_window_size ≡ suc (length kept) =
          omega (arith, h.wide, ap length e, length-append kept (old ∷ [])) in
        let all : recent ≡ kept ++ old ∷ [] =
          h.last ∙ ap (λ m. take m h.n) top ∙ take-all _ h.n (omega (arith, h.wide)) ∙ e in
        (all, rw (all, size) (ap (λ t. v ∷ t) (take-append kept (old ∷ []))))

    pub length-kept :
        (kept : List T) (old : T) → h.n ≡ kept ++ old ∷ [] → length (v ∷ kept) ≡ f.val_window_size
    length-kept kept old e = omega (arith, h.wide, ap length e, length-append kept (old ∷ []))

    pub room_below : f.samples < f.val_window_size → length (v ∷ recent) ≤ f.val_window_size
    room_below lt = omega (arith, ap length h.last, length-take-le f.samples h.n)

    pub exchanged-room :
        f.samples < f.val_window_size → exchanged f.val_window_size f.sum v recent ≡ plus f.sum v
    exchanged-room lt =
        let b = room_below lt in
        ap (λ o. without o (plus f.sum v)) (get-past recent (f.val_window_size - 1) (omega arith))

    pub exchanged-over :
        (kept : List T) (old : T)
        → recent ≡ kept ++ old ∷ []
        → length (v ∷ kept) ≡ f.val_window_size
        → exchanged f.val_window_size f.sum v recent ≡ minus (plus f.sum v) old
    exchanged-over kept old all size =
        let n : f.val_window_size - 1 ≡ length kept = omega (arith, size) in
        ap (λ o. without o (plus f.sum v))
          (ap₂ (λ r i. get_elem? r i) all n ∙ get-middle kept [] old)

    -- Update puts the value in front of the window and drops the one that leaves it.
    pub update-Holds :
        (g : Filter s) × (update s f v ≡ some g)
        × Holds g (take f.val_window_size (v ∷ recent))
        × (g.val_window_size ≡ f.val_window_size)
        × (g.sum ≡ exchanged f.val_window_size f.sum v recent)
    unfolding update
    update-Holds =
        let m : (f.samples + 1) % 2 ^ 32 ≡ f.samples + 1 = omega (arith, h.few, h.unsigned) in
        let a = advanced f h.n v h.newest in
        let iter = advance s f in
        elim (Bool-cases (ltb f.val_window_size (f.samples + 1))) [
          | inr room ↦
              let g : Filter s = record f {
                val_history = set f.val_history iter v;
                val_iter = iter;
                sum = plus f.sum v;
                samples = f.samples + 1;
              } in
              let held = filling a.kept a.old a.was (ground arith) in
              (
                g,
                rw (a.found, update) (rw (m, room)),
                record {
                  n = v ∷ a.kept;
                  newest = a.becomes g refl refl;
                  wide = length-kept a.kept a.old a.was;
                  few = ground arith;
                  some_window = h.some_window;
                  unsigned = h.unsigned;
                  last = held;
                },
                refl,
                sym (exchanged-room (ground arith)),
              )
          | inl over ↦
              let g : Filter s = record f {
                val_history = set f.val_history iter v;
                val_iter = iter;
                sum = minus (plus f.sum v) a.old;
                samples = f.samples + 1 - 1;
              } in
              let top : f.samples ≡ f.val_window_size = ground (arith, h.few) in
              let (all, held) = full a.kept a.old a.was top in
              (
                g,
                rw (a.found, update) (rw (m, over)),
                record {
                  n = v ∷ a.kept;
                  newest = a.becomes g refl refl;
                  wide = length-kept a.kept a.old a.was;
                  few = ground (arith, top);
                  some_window = h.some_window;
                  unsigned = h.unsigned;
                  last =
                      held
                      ∙ sym (
                          take-all _ (v ∷ a.kept)
                            (omega (arith, top, length-kept a.kept a.old a.was)));
                },
                refl,
                sym (exchanged-over a.kept a.old all (length-kept a.kept a.old a.was)),
              )
        ]
