-- ===== src/Common/Int.antt =====
-- Signed integers over the native numbers, with the conversions of C++ between `int`, `size_t` and
-- them, and the unsigned arithmetic of `size_t` and `uint64_t`.
use Prim.Native.Nat.{ℕ, suc, ◌+◌, ◌-◌, ◌*◌, ◌%◌, ◌^◌, ◌≤◌, ◌<◌}
use mathlib.Core.Path.{◌≡◌}
use mathlib.Core.Bool.{Bool}
use native.Mathlib.Omega.{arith}
use atp.Common.Tests.{ltb, leb, if◌then◌else◌}

-- `negsuc n` is -(n + 1).
pub data ℤ : Type 0 where
  pos : ℕ → ℤ
  negsuc : ℕ → ℤ

abbrev pub pos_part : ℤ → ℕ
pos_part (pos n) = n
pos_part (negsuc n) = 0

abbrev pub neg_part : ℤ → ℕ
neg_part (pos n) = 0
neg_part (negsuc n) = suc n

abbrev pub sub_ℕ : ℕ → ℕ → ℤ
sub_ℕ a b = if leb b a then pos (a - b) else negsuc (b - a - 1)

infixl 65 ◌+ℤ◌
unfoldable pub ◌+ℤ◌ : ℤ → ℤ → ℤ
a +ℤ b = sub_ℕ (pos_part a + pos_part b) (neg_part a + neg_part b)

infixl 70 ◌*ℤ◌
unfoldable pub ◌*ℤ◌ : ℤ → ℤ → ℤ
a *ℤ b =
    sub_ℕ (pos_part a * pos_part b + neg_part a * neg_part b)
      (pos_part a * neg_part b + neg_part a * pos_part b)

abbrev pub neg : ℤ → ℤ
neg a = sub_ℕ (neg_part a) (pos_part a)

-- 0 < a
abbrev pub is_positive : ℤ → Bool
is_positive a = ltb 0 (pos_part a)

-- The word sizes. `size_t` and `uint64_t` have 64 bits, `int` has 32.
abbrev pub size_mod : ℕ
size_mod = 2 ^ 64

-- Unsigned subtraction wraps.
abbrev pub sub_size : ℕ → ℕ → ℕ
sub_size a b = (a + size_mod - b % size_mod) % size_mod

-- `(int) x` of an unsigned value keeps the low 32 bits.
abbrev pub to_int32 : ℕ → ℤ
to_int32 x = let w = x % 2 ^ 32 in if ltb w (2 ^ 31) then pos w else negsuc (2 ^ 32 - w - 1)

-- A uint64 that is stored in an int64.
abbrev pub to_int64 : ℕ → ℤ
to_int64 x = let w = x % size_mod in if ltb w (2 ^ 63) then pos w else negsuc (size_mod - w - 1)

-- `(size_t) i` of a signed value is its residue.
abbrev pub to_size : ℤ → ℕ
to_size (pos n) = n % size_mod
to_size (negsuc n) = (size_mod - 1 - n % size_mod) % size_mod

pub to_int32_small : (x : ℕ) → x < 2 ^ 31 → to_int32 x ≡ pos x
to_int32_small x h = ground arith

pub sub_size_le : (a b : ℕ) → b ≤ a → a < size_mod → sub_size a b ≡ a - b
sub_size_le a b h k = omega arith

pub to_size-to_int64 : (x : ℕ) → x < size_mod → to_size (to_int64 x) ≡ x
to_size-to_int64 x h = ground arith

pub to_size-to_int32 : (x : ℕ) → x < 2 ^ 32 → to_size (to_int32 x) % 2 ^ 32 ≡ x
to_size-to_int32 x h = ground arith

pub to_int64_small : (x : ℕ) → x < 2 ^ 63 → to_int64 x ≡ pos x
to_int64_small x h = ground arith
