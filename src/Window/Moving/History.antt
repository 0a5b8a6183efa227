-- ===== src/Window/Moving/History.antt =====
-- What a moving window holds as time advances: its invariant, and the samples in its buffer as the
-- end of an unbounded log.
use atp.Common.{
  ℕ, zero, suc, ◌+◌, ◌/◌, ◌%◌, ◌<◌, ◌≡◌, refl, sym, ap, ◌∙◌, subst, [], ◌++◌, Bool, some, arith,
  ltb, if◌then◌else◌, length, replicate, last, last_all, ◌||◌, Bool-cases, inl, inr,
  length-replicate, ◌==◌,
}
use atp.Common.Int.{pos, pos_part, is_positive, size_mod}
use atp.Window.Policy.{count_windows}
use atp.Window.Buffer.{
  CircularBuffer, contents, push_times, contents-push_times, capacity-push_times, full-push_times,
}
use atp.Window.Samplers.{Sampler}
use atp.Window.Moving.{
  MovingWindow, create, fresh, elements, close_slot, close_slots, advance, capacity, total_events,
}

-- The buffer is always full, and the slots have a size.
pub record IsValid {A : Type 0} {B : CircularBuffer A} {S : Sampler A} (m : MovingWindow B S)
    : Type 0 where
  pub full : length (elements m) ≡ B.capacity m.buffer
  pub sized : 0 < m.window_size

-- `n` increments of a `size_t`
abbrev pub count_up : ℕ → ℕ → ℕ
count_up zero c = c
count_up (suc n) c = count_up n ((c + 1) % size_mod)

count_up_lem : (n c : ℕ) → c < size_mod → count_up n c ≡ (c + n) % size_mod
count_up_lem zero c h = omega arith
count_up_lem (suc n) c h = count_up_lem n ((c + 1) % size_mod) (omega arith) ∙ omega arith

module _ {A : Type 0} {B : CircularBuffer A} {S : Sampler A} where
  -- The number of slots that an event closes.
  unfoldable pub closed_by : MovingWindow B S → ℕ → ℕ
  closed_by m timestamp =
      if ltb 0 m.current_ts
      then pos_part (count_windows m.window_size m.current_ts timestamp)
      else 0

  pub close_slots_lem :
      (n : ℕ) (m : MovingWindow B S)
      → close_slots n m ≡ record m {
        buffer = push_times B n m.current_value m.buffer;
        collected = count_up n m.collected;
      }
  unfolding close_slots push_times
  close_slots_lem zero m = refl
  close_slots_lem (suc n) m = close_slots_lem n (close_slot m)

  pub fresh_lem :
      (h i : ℕ) (init : A)
      → 0 < i
      → let m = fresh B S h i init in
        IsValid m × (elements m ≡ replicate (h / i) init) × (capacity m ≡ h / i + 1)
  unfolding fresh capacity
  fresh_lem h i init pos_i =
      let b = B.with_capacity (h / i) in
      let start : contents B b ≡ [] = B.elements-with_capacity (h / i) in
      let cap : B.capacity b ≡ h / i = B.capacity-with_capacity (h / i) in
      let cap' : B.capacity (push_times B (B.capacity b) init b) ≡ h / i =
        capacity-push_times B (B.capacity b) init b ∙ cap in
      let held : contents B (push_times B (B.capacity b) init b) ≡ replicate (h / i) init =
        contents-push_times B (B.capacity b) init b (rw start (omega arith))
        ∙ rw (start, cap)
            (last_all (h / i) (replicate (h / i) init)
              (omega (arith, length-replicate (h / i) init))) in
      (
        record { full = ap length held ∙ length-replicate (h / i) init ∙ sym cap'; sized = pos_i },
        held,
        ap (λ k. k + 1) cap',
      )

  -- After the constructor the window is valid, holds the initial value everywhere, and has a sample
  -- for each whole interval of its duration beside the current one.
  pub create_lem :
      (h i : ℕ) (init : A) (m : MovingWindow B S)
      → create B S h i init ≡ some m
      → IsValid m × (elements m ≡ replicate (h / i) init) × (capacity m ≡ h / i + 1)
  unfolding create
  create_lem h i init m e = elim (Bool-cases (i == 0)) [
    | inl p ↦ ground arith
    | inr p ↦
        let found : fresh B S h i init ≡ m = ground arith in
        subst (λ n. IsValid n × (elements n ≡ replicate (h / i) init) × (capacity n ≡ h / i + 1))
          found (fresh_lem h i init (ground arith))
  ]

  advance_lem :
      (m : MovingWindow B S) (ts : ℕ) (v : A)
      → let m' = (advance m ts v).0 in
        let n = closed_by m ts in
        (m'.buffer ≡ push_times B n m.current_value m.buffer)
        × (m'.collected ≡ count_up n m.collected)
        × (m'.window_size ≡ m.window_size)
  unfolding advance closed_by push_times
  advance_lem m ts v = elim (Bool-cases (ltb 0 m.current_ts)) [
    | inl p ↦ rw (p, close_slots_lem) (refl, refl, refl)
    | inr p ↦ rw p (refl, refl, refl)
  ]

  -- An event keeps the window valid and its capacity, whatever its timestamp, and appends to the
  -- buffer one copy of the current value for each slot that it closes, dropping as many of the oldest.
  pub advance-IsValid :
      (m : MovingWindow B S) (ts : ℕ) (v : A)
      → IsValid m
      → let m' = (advance m ts v).0 in
        IsValid m'
        × (elements m'
            ≡ last (B.capacity m.buffer) (elements m ++ replicate (closed_by m ts) m.current_value))
        × (B.capacity m'.buffer ≡ B.capacity m.buffer)
  advance-IsValid m ts v ok =
      let (buf, count, w) = advance_lem m ts v in
      let n = closed_by m ts in
      let cap = capacity-push_times B n m.current_value m.buffer in
      (
        record {
          full = rw buf (full-push_times B n m.current_value m.buffer ok.full ∙ sym cap);
          sized = rw w ok.sized;
        },
        rw buf (contents-push_times B n m.current_value m.buffer (omega (arith, ok.full))),
        rw buf cap,
      )

  -- `total_events` counts the closed slots, modulo the size of `size_t`.
  total_events-advance :
      (m : MovingWindow B S) (ts : ℕ) (v : A)
      → total_events m < size_mod
      → total_events (advance m ts v).0 ≡ (total_events m + closed_by m ts) % size_mod
  unfolding total_events
  total_events-advance m ts v h =
      (advance_lem m ts v).1 ∙ count_up_lem (closed_by m ts) m.collected h

  -- The flag that an event passes to the sampler: whether it begins a new period.
  unfoldable pub begins : MovingWindow B S → ℕ → Bool
  begins m ts =
      is_positive
        (if ltb 0 m.current_ts then count_windows m.window_size m.current_ts ts else pos 0)
      || m.current_ts == 0

  pub advance_sample :
      (m : MovingWindow B S) (ts : ℕ) (v : A)
      → let m' = (advance m ts v).0 in
        let r = S.sample m.sampler m.current_value v (begins m ts) in
        (m'.current_value ≡ r.0)
        × (m'.sampler ≡ r.1)
        × (m'.current_ts ≡ ts)
        × (m'.window_size ≡ m.window_size)
  unfolding advance begins
  advance_sample m ts v = elim (Bool-cases (ltb 0 m.current_ts)) [
    | inl p ↦ rw (p, close_slots_lem) (refl, refl, refl, refl)
    | inr p ↦ rw p (refl, refl, refl, refl)
  ]
