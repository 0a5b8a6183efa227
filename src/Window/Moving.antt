-- ===== src/Window/Moving.antt =====
-- The `moving_window` of src/cpp/common/moving_window.hpp without the operations that clients apply to
-- it (those are in `Window.Derived`): the constructor, the readers and the advance of time. A fault of
-- the C++ program, such as an index outside the buffer, is `none`.
pub mod History
pub mod Slots
pub mod Overflow
pub mod Copy
pub mod Read
use atp.Common.{
  ℕ, zero, suc, ◌+◌, ◌-◌, ◌/◌, ◌%◌, List, [], ◌∷◌, ◌++◌, Bool, true, ◌||◌, Option, none, some,
  arith, ltb, leb, ◌==◌, if◌then◌else◌, length, get_elem?, set,
}
use mathlib.Core.List.{reverse}
use atp.Common.Int.{ℤ, pos, negsuc, pos_part, neg, size_mod, sub_size, is_positive, to_size}
use atp.Window.Policy.{count_windows}
use atp.Window.Policy as Policy
use atp.Window.Buffer.{CircularBuffer, push_times, contents}
use atp.Window.Samplers.{Sampler}

module _ {A : Type 0} (B : CircularBuffer A) (S : Sampler A) where
  open B use {Buffer, with_capacity}

  -- `window_size` is the field of `time_interval_policy_`, `post_process` the callback that is set, if
  -- one is. Durations are in microseconds.
  pub record MovingWindow : Type 0 where
    pub history_duration : ℕ
    pub interval : ℕ
    pub buffer : Buffer
    pub init : A
    pub current_value : A
    pub current_ts : ℕ
    pub collected : ℕ
    pub sampler : S.State
    pub window_size : ℕ
    pub post_process : Option ℕ

  unfoldable pub fresh : ℕ → ℕ → A → MovingWindow
  fresh h i init = record {
    history_duration = h;
    interval = i;
    buffer = let b = with_capacity (h / i) in push_times B (B.capacity b) init b;
    init = init;
    current_value = init;
    current_ts = 0;
    collected = 0;
    sampler = S.initial;
    window_size = i;
    post_process = none;
  }

  -- The constructor. The division by an interval of 0 is a fault.
  unfoldable pub create : ℕ → ℕ → A → Option MovingWindow
  create h i init = if i == 0 then none else some (fresh h i init)

module _ {A : Type 0} {B : CircularBuffer A} {S : Sampler A} where
  abbrev pub elements : MovingWindow B S → List A
  elements m = contents B m.buffer

  unfoldable pub total_events : MovingWindow B S → ℕ
  total_events m = m.collected

  unfoldable pub capacity : MovingWindow B S → ℕ
  capacity m = B.capacity m.buffer + 1

  unfoldable pub size : MovingWindow B S → ℕ
  size m = length (elements m) + 1

  -- `operator[]`: 0 is the current value, a negative index counts back from the end of the buffer.
  unfoldable pub at : MovingWindow B S → ℤ → Option A
  at m (pos zero) = some m.current_value
  at m (pos (suc n)) = some m.init
  at m (negsuc n) = get_elem? (elements m) (sub_size (length (elements m)) (suc n))

  -- `get_time(offset)`, where `-offset` is taken as a `size_t`.
  unfoldable pub get_time : MovingWindow B S → ℤ → ℕ
  get_time m offset = Policy.get_time m.window_size m.current_ts (to_size (neg offset))

  -- One turn of the loop that closes slots: the current value goes into the buffer.
  abbrev pub close_slot : MovingWindow B S → MovingWindow B S
  close_slot m = record m {
    buffer = B.push_back m.buffer m.current_value;
    collected = (m.collected + 1) % size_mod;
  }

  unfoldable pub close_slots : ℕ → MovingWindow B S → MovingWindow B S
  close_slots zero m = m
  close_slots (suc n) m = close_slots n (close_slot m)

  -- The first part of `operator()`: the slots that have passed, then the sample. Beside the window it
  -- gives `windows`. No slots are closed at the first event, when `current_ts` is 0.
  unfoldable pub advance : MovingWindow B S → ℕ → A → MovingWindow B S × ℤ
  advance m timestamp value =
      let counted = count_windows m.window_size m.current_ts timestamp in
      let started = ltb 0 m.current_ts in
      let windows = if started then counted else pos 0 in
      let m' = if started then close_slots (pos_part counted) m else m in
      let (v, s) =
        S.sample m'.sampler m'.current_value value (is_positive windows || m'.current_ts == 0) in
      (record m' { current_value = v; sampler = s; current_ts = timestamp }, windows)
