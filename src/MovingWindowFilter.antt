-- ===== src/MovingWindowFilter.antt =====
-- include/ignition/common/MovingWindowFilter.hh: a running sum over a circular buffer of the last
-- values.
pub mod Window
pub mod Sums
pub mod Runs
mod Tests
use ign_common.Common.{
  ℕ, ◌+◌, ◌-◌, ◌%◌, ◌^◌, Bool, Option, none, some, List, [], ◌∷◌, ltb, ◌==◌, if◌then◌else◌,
  get_elem?, set, length, replicate,
}

-- What the filter uses of its template parameter.
pub record Summand : Type 1 where
  pub T : Type 0
  pub null : T
  pub plus : T → T → T
  pub minus : T → T → T

module _ (s : Summand) where
  open s use {T, null, plus, minus}

  -- `val_iter` is the position of the iterator in the history.
  pub record Filter : Type 0 where
    pub val_window_size : ℕ
    pub val_history : List T
    pub val_iter : ℕ
    pub sum : T
    pub samples : ℕ

  -- The constructor makes room for four values.
  abbrev pub new_filter : Filter
  new_filter = record {
    val_window_size = 4;
    val_history = replicate 4 null;
    val_iter = 0;
    sum = null;
    samples = 0;
  }

  pub set_window_size : ℕ → Filter → Filter
  set_window_size n f = record f {
    val_window_size = n;
    val_history = replicate n null;
    val_iter = 0;
    sum = null;
    samples = 0;
  }

  -- The iterator after `++`, back at the beginning when it has reached the end.
  abbrev pub advance : Filter → ℕ
  advance f = if f.val_iter + 1 == length f.val_history then 0 else f.val_iter + 1

  -- Update; `none` when the iterator does not point into the history, as with an empty window.
  pub update : Filter → T → Option Filter
  update f val =
      let sum = plus f.sum val in
      let iter = advance f in
      let samples = (f.samples + 1) % 2 ^ 32 in
      elim (get_elem? f.val_history iter) [
        | none ↦ none
        | some old ↦ some (
            if ltb f.val_window_size samples
            then record f {
              val_history = set f.val_history iter val;
              val_iter = iter;
              sum = minus sum old;
              samples = samples - 1;
            }
            else record f {
              val_history = set f.val_history iter val;
              val_iter = iter;
              sum = sum;
              samples = samples;
            })
      ]

  pub window_size : Filter → ℕ
  window_size f = f.val_window_size

  pub window_filled : Filter → Bool
  window_filled f = f.samples == f.val_window_size

  -- The division by a double is given; with no sample it is the division by zero of that type.
  pub value : (T → ℕ → T) → Filter → T
  value divide f = divide f.sum f.samples
