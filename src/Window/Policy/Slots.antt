-- ===== src/Window/Policy/Slots.antt =====
-- What the time slots of moving_window_interval_policy.hpp are: multiples of the window size, counted
-- exactly up to 2 ^ 31 - 1 of them.
use native.Mathlib.Nat.{
  div-add-mod, mul-div_cancel_left, mul-div-le, mul-le-mul_left, mul-sub, le_trans,
  le-div_iff_mul-le, div-mul-le_self, mul_comm,
}
use atp.Common.{
  ℕ, ◌-◌, ◌*◌, ◌/◌, ◌%◌, ◌^◌, ◌≤◌, ◌<◌, ◌≡◌, sym, false, arith, ltb, Bool-cases, inl, inr,
}
use atp.Common.Int.{pos, negsuc, to_int32, size_mod, sub_size, sub_size_le, to_int32_small, ◌+ℤ◌}
use atp.Window.Policy.{get_time, count_windows, is_new_window}

module _ (w : ℕ) (w_pos : 0 < w) where
  to_int32_large : (x : ℕ) → 2 ^ 31 ≤ x → x < 2 ^ 32 → to_int32 x ≡ negsuc (2 ^ 32 - x - 1)
  to_int32_large x h k = ground arith

  aligned : (x : ℕ) → x - x % w ≡ w * (x / w)
  aligned x = omega (arith, div-add-mod x w)

  pub slot_mono : (a b : ℕ) → a ≤ b → a / w ≤ b / w
  slot_mono a b h = (le-div_iff_mul-le w_pos).1 (le_trans (div-mul-le_self a w) h)

  -- The distance of two slots, in slots.
  sub_size-aligned :
      (a b : ℕ) → a ≤ b → b < size_mod → sub_size (b - b % w) (a - a % w) / w ≡ b / w - a / w
  sub_size-aligned a b h k =
      rw
        (
          aligned a,
          aligned b,
          sub_size_le (w * (b / w)) (w * (a / w)) (mul-le-mul_left w (slot_mono a b h))
              (omega (arith, mul-div-le b w)),
          ← mul-sub w (b / w) (a / w),
        )
        (mul-div_cancel_left (b / w - a / w) w_pos)

  -- Between two times in order `count_windows` is the difference of their slots, if an `int` holds it.
  pub count_windows_lem :
      (last ts : ℕ)
      → last ≤ ts
      → ts < size_mod
      → ts / w - last / w < 2 ^ 31
      → count_windows w last ts ≡ pos (ts / w - last / w)
  unfolding count_windows
  count_windows_lem last ts h k small =
      let not_before : ltb ts last ≡ false = ground arith in
      rw (not_before, sub_size-aligned last ts h k) (to_int32_small _ small)

  -- The slots of two periods, one after the other, add up to those of the whole.
  pub count_windows_trans :
      (a b c : ℕ)
      → a ≤ b
      → b ≤ c
      → c < size_mod
      → c / w - a / w < 2 ^ 31
      → count_windows w a b +ℤ count_windows w b c ≡ count_windows w a c
  unfolding ◌+ℤ◌
  count_windows_trans a b c h k m small =
      let ab = slot_mono a b h in
      let bc = slot_mono b c k in
      rw
        (
          count_windows_lem a b h (omega arith) (omega arith),
          count_windows_lem b c k m (omega arith),
          count_windows_lem a c (omega arith) m small,
        )
        (ground arith)

  -- `is_new_window` tells exactly whether the time has moved to a later slot, if an `int` holds the
  -- number of slots between.
  pub is_new_window_iff :
      (last ts : ℕ)
      → ts < size_mod
      → ts / w - last / w < 2 ^ 31
      → is_new_window w last ts ≡ ltb (last / w) (ts / w)
  unfolding is_new_window count_windows
  is_new_window_iff last ts k small = elim (Bool-cases (ltb ts last)) [
    | inl p ↦ ground (arith, slot_mono ts last)
    | inr p ↦
        rw (p, sub_size-aligned last ts (ground arith) k, to_int32_small _ small) (ground arith)
  ]

  -- Between two times in order with at least 2 ^ 31 slots between, and fewer than 2 ^ 32, the number that
  -- `count_windows` gives is negative, the number of slots less 2 ^ 32.
  pub count_windows_overflow :
      (last ts : ℕ)
      → last ≤ ts
      → ts < size_mod
      → 2 ^ 31 ≤ ts / w - last / w
      → ts / w - last / w < 2 ^ 32
      → count_windows w last ts ≡ negsuc (2 ^ 32 - (ts / w - last / w) - 1)
  unfolding count_windows
  count_windows_overflow last ts h k lo hi =
      let not_before : ltb ts last ≡ false = ground arith in
      rw (not_before, sub_size-aligned last ts h k) (to_int32_large _ lo hi)

  -- `get_time` is the start of the slot `offset` slots back, where there are so many.
  pub get_time_lem :
      (curr offset : ℕ)
      → curr < size_mod
      → offset ≤ curr / w
      → get_time w curr offset ≡ w * (curr / w - offset)
  unfolding get_time
  get_time_lem curr offset k h =
      rw
        (
          aligned curr,
          mul_comm offset w,
          sub_size_le (w * (curr / w)) (w * offset) (mul-le-mul_left w h)
              (omega (arith, mul-div-le curr w)),
        )
        (sym (mul-sub w (curr / w) offset))
