-- ===== src/Animation/Tests.antt =====
-- Runs of graphics/src/Animation.cc over numbers.
use ign_common.Common.{
  ℕ, ◌+◌, ◌-◌, ◌*◌, ◌/◌, ◌%◌, ◌≡◌, refl, true, some, [], ◌∷◌, arith, ltb, ◌==◌, map,
}
use ign_common.Mesh.Extremes.{IsStrict}
use ign_common.Animation.{
  Clock, KeyFrame, Animation, Around, new_animation, create_key_frame, frames_around, between,
  numeric_interpolated,
}
use ign_common.Animation.Frames.{AreSorted, IsAround, create_key_frame-AreSorted, frames_around_lem}

abbrev ticks : Clock
ticks = record {
  T = ℕ;
  null = 0;
  lt = ltb;
  equal = λ a b. a == b;
  add = λ a b. a + b;
  sub = λ a b. a - b;
  mul = λ a b. a * b;
  div = λ a b. a / b;
  fmod = λ a b. a % b;
}

abbrev frame : ℕ → ℕ → KeyFrame ticks ℕ
frame t v = record { address = t; time = t; value = v }

abbrev walk : Animation ticks ℕ
walk = record (new_animation ticks ℕ [] 9 true) { key_frames = frame 2 10 ∷ frame 6 14 ∷ [] }

strict : IsStrict {R = ℕ} ltb
strict = record {
  asym = λ a b e. ground (arith, e);
  trans = λ a b c d e. ground (arith, d, e);
  total = λ a b d e. ground (arith, d, e);
}

create_key_frame-AreSorted_example :
    AreSorted ticks ℕ (create_key_frame ticks ℕ 7 0 4 walk).key_frames
create_key_frame-AreSorted_example =
    create_key_frame-AreSorted ticks ℕ 7 0 4 walk strict ((refl, tt), (tt, tt))

frames_around_lem_example :
    (r : Around ticks ℕ) × (frames_around ticks ℕ 4 9 walk.key_frames ≡ some r)
    × IsAround ticks ℕ 4 9 walk.key_frames r
frames_around_lem_example =
    frames_around_lem ticks ℕ 4 9 walk.key_frames strict ((refl, tt), (tt, tt)) (omega arith)

new_times :
    map (λ (f : KeyFrame ticks ℕ). f.time) (create_key_frame ticks ℕ 7 0 4 walk).key_frames
    ≡ 2 ∷ 4 ∷ 6 ∷ []
unfolding create_key_frame
new_times = refl

interpolated : numeric_interpolated ticks 5 (record walk { time_pos = 6 }) ≡ some 14
unfolding numeric_interpolated between
interpolated = refl
