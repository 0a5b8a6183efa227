-- ===== src/Window/Moving/Copy.antt =====
-- The copies that src/cpp/common/moving_window.hpp makes of a window: `copy_last_data` by two `memcpy`
-- from the two stretches of the ring, `generate_time_array`, `copy_last`, which calls both, and
-- `copy_last_slow` by reverse iteration. Each fills an array that the caller gives, and returns it with
-- the number of entries; `none` is an access outside an array.

pub mod Exact
pub mod Slow
use mathlib.Core.List.{reverse}
use atp.Common.{
  ℕ, zero, suc, ◌+◌, ◌-◌, ◌%◌, List, [], ◌∷◌, Option, none, some, ltb, leb, ◌==◌, if◌then◌else◌,
  length, set, ◌>>=◌,
}
use atp.Common.Int.{size_mod, sub_size}
use atp.Window.Policy as Policy
use atp.Window.Buffer.{CircularBuffer, copy_into}
use atp.Window.Samplers.{Sampler}
use atp.Window.Moving.{MovingWindow, capacity, elements}

-- array[i] = v
unfoldable pub store {ℓ} : {A : Type ℓ} → List A → ℕ → A → Option (List A)
store array i v = if ltb i (length array) then some (set array i v) else none

-- `memcpy` under the test that there is something to copy.
unfoldable pub copy_some {ℓ} : {A : Type ℓ} → List A → ℕ → List A → ℕ → ℕ → Option (List A)
unfolding copy_into
copy_some dest dest_offset src src_offset count =
    if ltb 0 count then copy_into dest dest_offset src src_offset count else some dest

abbrev pub minimum_size : ℕ → ℕ → ℕ
minimum_size a b = if ltb b a then b else a

module _ {A : Type 0} {B : CircularBuffer A} {S : Sampler A} where
  -- `max(zero, x)` of the source is `x`.
  unfoldable pub copy_last_data : MovingWindow B S → List A → ℕ → Option (List A × ℕ)
  copy_last_data m array count =
      let one = B.array_one m.buffer in
      let two = B.array_two m.buffer in
      let remain = sub_size count 1 in
      let to_copy2 = minimum_size (length two) remain in
      let to_copy1 = sub_size remain to_copy2 in
      let dest_offset2 = sub_size remain to_copy2 in
      let src_offset2 = sub_size (length two) to_copy2 in
      let src_offset1 = sub_size (length one) to_copy1 in
      let copied = do
        array1 ← store array (sub_size count 1) m.current_value
        array2 ← copy_some array1 dest_offset2 two src_offset2 to_copy2
        array3 ← copy_some array2 0 one src_offset1 to_copy1
        some (array3, (to_copy2 + to_copy1 + 1) % size_mod)
      in if ltb (capacity m) count then some (array, 0) else copied

  -- `time_interval_policy_.get_time(current_ts_, offset)`
  abbrev pub slot_time : MovingWindow B S → ℕ → ℕ
  slot_time m offset = Policy.get_time m.window_size m.current_ts offset

  -- The loop of `generate_time_array`, with the number of turns left.
  unfoldable pub generate_loop : MovingWindow B S → ℕ → ℕ → ℕ → List ℕ → Option (List ℕ)
  generate_loop m count zero to_copy timestamp = some timestamp
  generate_loop m count (suc left) to_copy timestamp =
      store timestamp (sub_size (sub_size count to_copy) 2) (slot_time m (to_copy + 1))
      >>= generate_loop m count left (to_copy + 1)

  unfoldable pub generate_time_array : MovingWindow B S → List ℕ → ℕ → Option (List ℕ × ℕ)
  generate_time_array m timestamp count =
      let generated = do
        timestamp1 ← store timestamp (sub_size count 1) (slot_time m 0)
        timestamp2 ← generate_loop m count (sub_size count 1) 0 timestamp1
        some (timestamp2, count)
      in if ltb (capacity m) count then some (timestamp, 0) else generated

  -- The `assert` that both copies have the same length is a fault where it fails.
  unfoldable pub copy_last : MovingWindow B S → List ℕ → List A → ℕ → Option (List ℕ × List A × ℕ)
  copy_last m timestamp array count =
      let copied = do
        (array', copied1) ← copy_last_data m array count
        (timestamp', copied2) ← generate_time_array m timestamp count
        if copied1 == copied2 then some (timestamp', array', copied1) else none
      in if ltb (capacity m) count then some (timestamp, array, 0) else copied

  -- The loop of `copy_last_slow` over what is left of the reversed buffer.
  unfoldable pub slow_loop :
      MovingWindow B S → ℕ → List A → ℕ → ℕ → List ℕ → List A → Option (List ℕ × List A × ℕ)
  slow_loop m count [] to_copy copied timestamp array = some (timestamp, array, copied)
  slow_loop m count (r ∷ rs) zero copied timestamp array = some (timestamp, array, copied)
  slow_loop m count (r ∷ rs) (suc to_copy) copied timestamp array = do
    array' ← store array (sub_size (sub_size count 1) copied) r
    timestamp' ← store timestamp (sub_size (sub_size count 1) copied) (slot_time m copied)
    slow_loop m count rs to_copy (copied + 1) timestamp' array'

  unfoldable pub copy_last_slow :
      MovingWindow B S → List ℕ → List A → ℕ → Option (List ℕ × List A × ℕ)
  copy_last_slow m timestamp array count =
      let copied = do
        array' ← store array (sub_size count 1) m.current_value
        timestamp' ← store timestamp (sub_size count 1) (slot_time m 0)
        slow_loop m count (reverse (elements m)) (sub_size count 1) 1 timestamp' array'
      in if ltb (capacity m) count then some (timestamp, array, 0) else copied
