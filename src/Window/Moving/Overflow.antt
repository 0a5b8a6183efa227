-- ===== src/Window/Moving/Overflow.antt =====
-- What `operator()` of moving_window.hpp does after a gap whose number of slots an int does not hold.
use atp.Common.{ℕ, false}
use atp.Window.Buffer.{CircularBuffer}
use atp.Window.Samplers.{Sampler}
use atp.Window.Moving.{MovingWindow}

module _ {A : Type 0} {B : CircularBuffer A} {S : Sampler A} where
  -- The window after an event that is sampled into the slot in progress.
  abbrev pub in_slot : MovingWindow B S → ℕ → A → MovingWindow B S
  in_slot m ts v =
      let (value, s) = S.sample m.sampler m.current_value v false in
      record m { current_value = value; sampler = s; current_ts = ts }
