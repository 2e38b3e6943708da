-- ===== src/MovingWindowFilter/Sums.antt =====
-- The sums of MovingWindowFilter.hh for values whose sums are exact.
use ign_common.Common.{
  ◌+◌, ◌<◌, ◌≡◌, sym, ◌∙◌, ap, List, [], ◌∷◌, ◌++◌, arith, ltb, take, Bool-cases, inl, inr,
}
use ign_common.Common.Text.{take-all}
use ign_common.MovingWindowFilter.{Summand, Filter}
use ign_common.MovingWindowFilter.Window.{
  Holds, advanced, exchanged, exchanged-room, exchanged-over, full, length-kept, room_below,
}

module _ (s : Summand) where
  open s use {T, null, plus, minus}

  -- A type with exact sums, in which a difference undoes a sum: the integers, but no floating point.
  pub record IsExact : Type 0 where
    pub plus_comm : (a b : T) → plus a b ≡ plus b a
    pub plus_assoc : (a b c : T) → plus (plus a b) c ≡ plus a (plus b c)
    pub plus_minus : (a b : T) → minus (plus a b) b ≡ a

  abbrev pub total : List T → T
  total [] = null
  total (x ∷ xs) = plus x (total xs)

  module _ (x : IsExact) where
    total-append : (xs : List T) (y : T) → total (xs ++ y ∷ []) ≡ plus (total xs) y
    total-append [] y = x.plus_comm y null
    total-append (z ∷ xs) y = ap (plus z) (total-append xs y) ∙ sym (x.plus_assoc z (total xs) y)

    -- Taking the oldest value out and a new one in.
    total_exchange :
        (kept : List T) (old v : T)
        → minus (plus (total (kept ++ old ∷ [])) v) old ≡ plus v (total kept)
    total_exchange kept old v = rw (
      total-append kept old,
      x.plus_comm (plus (total kept) old) v,
      ← x.plus_assoc v (total kept) old,
      x.plus_minus,
    )

    -- With exact sums the exchange keeps the sum of the window.
    pub exchanged-total :
        (f : Filter s) (recent : List T) (v : T)
        → Holds s f recent
        → f.sum ≡ total recent
        → exchanged s f.val_window_size f.sum v recent ≡ total (take f.val_window_size (v ∷ recent))
    exchanged-total f recent v h e =
        let a = advanced s f h.n v h.newest in
        elim (Bool-cases (ltb f.val_window_size (f.samples + 1))) [
          | inr room ↦
              let b : f.samples < f.val_window_size = ground arith in
              exchanged-room s f recent v h b
              ∙ rw (e, take-all f.val_window_size (v ∷ recent) (room_below s f recent v h b))
                  (x.plus_comm (total recent) v)
          | inl over ↦
              let top : f.samples ≡ f.val_window_size = ground (arith, h.few) in
              let (all, held) = full s f recent v h a.kept a.old a.was top in
              exchanged-over s f recent v h a.kept a.old all
                (length-kept s f recent v h a.kept a.old a.was)
              ∙ rw (e, all) (total_exchange a.kept a.old v)
              ∙ ap total (sym held)
        ]
