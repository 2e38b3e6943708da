-- ===== src/Animation.antt =====
-- graphics/src/Animation.cc and graphics/src/KeyFrame.cc: animations by key frames. The key frames of an
-- animation are values with the addresses that the callers of CreateKeyFrame hold.
pub mod Frames
mod Tests
use ign_common.Common.{
  ℕ, zero, suc, ◌+◌, ◌-◌, Bool, true, false, ◌&&◌, Option, none, some, List, [], ◌∷◌, ◌++◌, map,
  ltb, ◌==◌, if◌then◌else◌, length, get_elem?,
}
use mathlib.Core.Bool.{not}
use mathlib.Core.Option
use ign_common.Common.Text.{Bytes}

-- What animations use of double.
pub record Clock : Type 1 where
  pub T : Type 0
  pub null : T
  pub lt : T → T → Bool
  pub equal : T → T → Bool
  pub add : T → T → T
  pub sub : T → T → T
  pub mul : T → T → T
  pub div : T → T → T
  pub fmod : T → T → T

module _ (c : Clock) (V : Type 0) where
  open c use {T, null, lt, equal, add, sub, div, fmod}

  pub record KeyFrame : Type 0 where
    pub address : ℕ
    pub time : T
    pub value : V

  pub record Animation : Type 0 where
    pub name : Bytes
    pub length_ : T
    pub loop : Bool
    pub time_pos : T
    pub build : Bool
    pub key_frames : List KeyFrame

  abbrev pub new_animation : Bytes → T → Bool → Animation
  new_animation name len loop = record {
    name = name;
    length_ = len;
    loop = loop;
    time_pos = null;
    build = false;
    key_frames = [];
  }

  pub set_length : T → Animation → Animation
  set_length len a = record a { length_ = len }

  -- Time(time): around the end of a loop, and between the ends of another animation.
  abbrev wrapped : T → T → T
  wrapped t len = let p = fmod t len in if lt p null then add p len else p

  abbrev clamped : T → T → T
  clamped t len = if lt t null then null else if lt len t then len else t

  unfoldable pub set_time : T → Animation → Animation
  set_time t a =
      if equal t a.time_pos
      then a
      else record a { time_pos = if a.loop then wrapped t a.length_ else clamped t a.length_ }

  pub add_time : T → Animation → Animation
  unfolding set_time
  add_time t a = set_time (add a.time_pos t) a

  pub key_frame_count : Animation → ℕ
  key_frame_count a = length a.key_frames

  -- Null when the index is too large.
  pub key_frame : ℕ → Animation → Option KeyFrame
  key_frame i a = if ltb i (length a.key_frames) then get_elem? a.key_frames i else none

  -- The frame goes behind those whose times are not above its own: insert at upper_bound.
  unfoldable pub insert_frame : KeyFrame → List KeyFrame → List KeyFrame
  insert_frame f [] = f ∷ []
  insert_frame f (g ∷ gs) = if lt f.time g.time then f ∷ g ∷ gs else g ∷ insert_frame f gs

  -- CreateKeyFrame, at a new address and with the first value of a frame.
  unfoldable pub create_key_frame : ℕ → V → T → Animation → Animation
  unfolding insert_frame
  create_key_frame address value t a = record a {
    key_frames = insert_frame (record { address = address; time = t; value = value }) a.key_frames;
    build = true;
  }

  -- A change of the value of a frame through its pointer.
  pub set_value : ℕ → V → Animation → Animation
  set_value p v a = record a {
    key_frames = map (λ f. if f.address == p then record f { value = v } else f) a.key_frames;
  }

  -- The loop that takes lengths off a time.
  unfoldable pub take_lengths : ℕ → T → T → Option T
  take_lengths zero t len = none
  take_lengths (suc fuel) t len =
      let rest = take_lengths fuel (sub t len) len in
      if lt len t && lt null len then rest else some t

  -- The index of lower_bound, which on sorted frames is the first whose time is not below.
  unfoldable pub lower_bound_at : T → List KeyFrame → ℕ
  lower_bound_at t [] = 0
  lower_bound_at t (f ∷ fs) = if lt f.time t then suc (lower_bound_at t fs) else 0

  pub record Around : Type 0 where
    pub first : KeyFrame
    pub second : KeyFrame
    pub first_key_index : ℕ
    pub part : T

  abbrev pub fraction : T → T → T → T
  fraction t t1 t2 = if equal t1 t2 then null else div (sub t t1) (sub t2 t1)

  -- The frame at an index, and the one behind it with its time.
  unfoldable pub between : T → T → KeyFrame → List KeyFrame → ℕ → Option Around
  between t t2 k2 fs j = elim (get_elem? fs j) [
    | none ↦ none
    | some k1 ↦
        some (record { first = k1; second = k2; first_key_index = j; part = fraction t k1.time t2 })
  ]

  -- Past the last frame the first one is next; without frames front() is undefined.
  unfoldable pub past_end : T → T → List KeyFrame → ℕ → Option Around
  unfolding between
  past_end t len fs i = elim (get_elem? fs 0) [
    | none ↦ none
    | some k2 ↦ between t (add len k2.time) k2 fs (i - 1)
  ]

  -- One frame back, when there is one and the time is before the frame.
  abbrev pub step_back : T → ℕ → KeyFrame → ℕ
  step_back t i k2 = if not (i == 0) && lt t k2.time then i - 1 else i

  abbrev pub around_at : T → T → List KeyFrame → ℕ → Option KeyFrame → Option Around
  around_at t len fs i none = past_end t len fs i
  around_at t len fs i (some k2) = between t k2.time k2 fs (step_back t i k2)

  -- The frames around a time that is not past the length.
  unfoldable pub frames_around : T → T → List KeyFrame → Option Around
  unfolding lower_bound_at
  frames_around t len fs = let i = lower_bound_at t fs in around_at t len fs i (get_elem? fs i)

  -- KeyFramesAtTime
  unfoldable pub key_frames_at_time : ℕ → T → Animation → Option Around
  unfolding take_lengths frames_around
  key_frames_at_time fuel t a = elim (take_lengths fuel t a.length_) [
    | none ↦ none
    | some u ↦ frames_around u a.length_ a.key_frames
  ]

-- InterpolatedKeyFrame of a NumericAnimation.
unfoldable pub numeric_interpolated : (c : Clock) → ℕ → Animation c c.T → Option c.T
unfolding key_frames_at_time
numeric_interpolated c fuel a = elim (key_frames_at_time c c.T fuel a.time_pos a) [
  | none ↦ none
  | some r ↦
      if c.equal r.part c.null
      then some r.first.value
      else some (c.add r.first.value (c.mul (c.sub r.second.value r.first.value) r.part))
]
