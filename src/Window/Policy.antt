-- ===== src/Window/Policy.antt =====
-- src/cpp/common/moving_window_interval_policy.hpp: the time slots of a window, aligned at zero.
pub mod Slots
use atp.Common.{ℕ, ◌-◌, ◌*◌, ◌/◌, ◌%◌, Bool, ltb, if◌then◌else◌}
use atp.Common.Int.{ℤ, pos, sub_size, to_int32, is_positive}

-- `window_size` is the first argument of each function. It is not 0 (see `Window.Defs.create`).
module _ (window_size : ℕ) where
  -- The start of the slot that lies `offset` slots before the one of `curr_ts`.
  unfoldable pub get_time : ℕ → ℕ → ℕ
  get_time curr_ts offset =
      let r = curr_ts - curr_ts % window_size in sub_size r (offset * window_size)

  -- The number of slots from `last_ts` to `timestamp`, as an `int`.
  unfoldable pub count_windows : ℕ → ℕ → ℤ
  count_windows last_ts timestamp =
      let m1 = last_ts - last_ts % window_size in
      let m2 = timestamp - timestamp % window_size in
      if ltb timestamp last_ts then pos 0 else to_int32 (sub_size m2 m1 / window_size)

  unfoldable pub is_new_window : ℕ → ℕ → Bool
  unfolding count_windows
  is_new_window last_ts timestamp = is_positive (count_windows last_ts timestamp)
