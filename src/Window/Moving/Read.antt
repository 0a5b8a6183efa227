-- ===== src/Window/Moving/Read.antt =====
-- The readers of moving_window.hpp: `operator[]` and `get_time` at the same index belong together.
use mathlib.Core.List.{reverse, reverse-cons}
use native.Mathlib.Nat.{div-le_self}
use native.Mathlib.Decide.{dec_lt}
use atp.Common.{
  ℕ, suc, ◌+◌, ◌-◌, ◌*◌, ◌/◌, ◌≤◌, ◌<◌, ◌≡◌, sym, ap, ◌∙◌, List, [], ◌∷◌, ◌++◌, arith, length,
  get_elem?, get_elem?-append_left, get_elem?-append_right,
}
use atp.Common.Int.{negsuc, size_mod, sub_size, sub_size_le, to_size, neg}
use atp.Window.Policy.Slots.{get_time_lem}
use atp.Window.Buffer.{CircularBuffer}
use atp.Window.Samplers.{Sampler}
use atp.Window.Moving.{MovingWindow, elements, at, get_time}
use atp.Window.Moving.History.{IsValid}
use atp.Window.Moving.Copy.Slow.{length-reverse}

get_elem?-reverse {ℓ} :
    {A : Type ℓ} (xs : List A) (n : ℕ)
    → n < length xs
    → get_elem? (reverse xs) n ≡ get_elem? xs (length xs - suc n)
get_elem?-reverse [] n h = elim h [ ]
get_elem?-reverse (x ∷ xs) n h = elim (dec_lt n (length xs)) [
  | yes p ↦
      let back : suc (length xs) - suc n ≡ suc (length xs - suc n) = omega arith in
      rw (reverse-cons x xs, back)
        (get_elem?-append_left (reverse xs) (x ∷ []) n (omega (arith, length-reverse xs))
          ∙ get_elem?-reverse xs n p)
  | no p ↦
      let here : n ≡ length (reverse xs) + 0 = omega (arith, length-reverse xs) in
      let back : suc (length xs) - suc n ≡ 0 = omega arith in
      rw (reverse-cons x xs, back)
        (ap (get_elem? (reverse xs ++ x ∷ [])) here
          ∙ get_elem?-append_right (reverse xs) (x ∷ []) 0)
]

module _ {A : Type 0} {B : CircularBuffer A} {S : Sampler A} where
  -- In a valid window the index -1 reads the last sample of the buffer, -2 the one before, and so on
  -- down to its first, and `get_time` at the same index is the start of the slot so many slots before
  -- the one in progress, where the clock has come so far.
  at-negative :
      (m : MovingWindow B S) (n : ℕ)
      → IsValid m
      → n < length (elements m)
      → length (elements m) < size_mod
      → m.current_ts < size_mod
      → suc n ≤ m.current_ts / m.window_size
      → (at m (negsuc n) ≡ get_elem? (reverse (elements m)) n)
        × (get_time m (negsuc n) ≡ m.window_size * (m.current_ts / m.window_size - suc n))
  unfolding at get_time
  at-negative m n ok h k fits past =
      let back : sub_size (length (elements m)) (suc n) ≡ length (elements m) - suc n =
        sub_size_le (length (elements m)) (suc n) (omega arith) k in
      let offset : to_size (neg (negsuc n)) ≡ suc n =
        ground (arith, div-le_self m.current_ts m.window_size) in
      (
        rw back (sym (get_elem?-reverse (elements m) n h)),
        rw offset (get_time_lem m.window_size ok.sized m.current_ts (suc n) fits past),
      )
