-- ===== src/Window/Moving/Slots.antt =====
-- A moving window refines a plain description: the samples of the slots that have ended, one after
-- the other, of which the buffer holds the last ones.
use native.Mathlib.Nat.{le_trans}
use atp.Common.{
  ℕ, ◌-◌, ◌/◌, ◌^◌, ◌≤◌, ◌<◌, ◌≡◌, refl, sym, ap, ◌∙◌, List, [], ◌∷◌, ◌++◌, true, false, arith, ltb,
  replicate, last, last-last-append, append_assoc, append-nil, last_all, ||-false, ◌==◌,
}
use atp.Common.Int.{size_mod}
use atp.Window.Policy.Slots.{count_windows_lem}
use atp.Window.Buffer.{CircularBuffer}
use atp.Window.Samplers.{Sampler}
use atp.Window.Moving.{MovingWindow, elements, advance}
use atp.Window.Moving.History.{IsValid, closed_by, advance-IsValid, close_slots_lem}

-- Events in the order of time, each within 2 ^ 31 slots of the one before.
abbrev pub InOrder : {A : Type 0} → ℕ → ℕ → List (ℕ × A) → Type 0
InOrder w t [] = Unit {0}
InOrder w t ((ts, v) ∷ es) =
    (t ≤ ts) × (ts < size_mod) × (ts / w - t / w < 2 ^ 31) × InOrder w ts es

module _ {A : Type 0} (S : Sampler A) (w : ℕ) where
  -- The samples of the slots that end, from a time, a state of the sampler and a current sample.
  unfoldable pub ended : ℕ → S.State → A → List (ℕ × A) → List A
  ended t s current [] = []
  ended t s current ((ts, v) ∷ es) =
      let n = ts / w - t / w in
      let r = S.sample s current v (ltb 0 n) in replicate n current ++ ended ts r.1 r.0 es

  -- The current sample after the events.
  unfoldable pub sampled : ℕ → S.State → A → List (ℕ × A) → A
  sampled t s current [] = current
  sampled t s current ((ts, v) ∷ es) =
      let r = S.sample s current v (ltb 0 (ts / w - t / w)) in sampled ts r.1 r.0 es

module _ {A : Type 0} {B : CircularBuffer A} {S : Sampler A} where
  unfoldable pub run : MovingWindow B S → List (ℕ × A) → MovingWindow B S
  run m [] = m
  run m ((ts, v) ∷ es) = run (advance m ts v).0 es

  -- One event in order: the fields that the slot arithmetic decides.
  advance_in_order :
      (m : MovingWindow B S) (ts : ℕ) (v : A)
      → 0 < m.window_size
      → 0 < m.current_ts
      → m.current_ts ≤ ts
      → ts < size_mod
      → ts / m.window_size - m.current_ts / m.window_size < 2 ^ 31
      → let n = ts / m.window_size - m.current_ts / m.window_size in
        let m' = (advance m ts v).0 in
        let r = S.sample m.sampler m.current_value v (ltb 0 n) in
        (closed_by m ts ≡ n)
        × (m'.current_value ≡ r.0)
        × (m'.sampler ≡ r.1)
        × (m'.current_ts ≡ ts)
        × (m'.window_size ≡ m.window_size)
  unfolding advance closed_by
  advance_in_order m ts v w started le fits small =
      let counted = count_windows_lem m.window_size w m.current_ts ts le fits small in
      let n = ts / m.window_size - m.current_ts / m.window_size in
      let p : ltb 0 m.current_ts ≡ true = ground arith in
      let q : (m.current_ts == 0) ≡ false = ground arith in
      rw (p, counted, close_slots_lem) (rw (q, ||-false (ltb 0 n)) (refl, refl, refl, refl, refl))

  step_from :
      (m : MovingWindow B S) (w t ts : ℕ) (s : S.State) (c v : A)
      → IsValid m
      → 0 < t
      → (t ≤ ts) × (ts < size_mod) × (ts / w - t / w < 2 ^ 31)
      → m.window_size ≡ w
      → m.current_ts ≡ t
      → m.sampler ≡ s
      → m.current_value ≡ c
      → let n = ts / w - t / w in
        let m' = (advance m ts v).0 in
        let r = S.sample s c v (ltb 0 n) in
        (closed_by m ts ≡ n)
        × (m'.current_value ≡ r.0)
        × (m'.sampler ≡ r.1)
        × (m'.current_ts ≡ ts)
        × (m'.window_size ≡ w)
  step_from m w t ts s c v ok started (le, fits, small) ew et es ec =
      rw (← es, ← ec, ← ew, ← et)
        (advance_in_order m ts v ok.sized (rw et started) (rw et le) fits (rw (ew, et) small))

  run_from :
      (es : List (ℕ × A)) (m : MovingWindow B S) (n w t : ℕ) (s : S.State) (c : A)
      → IsValid m
      → 0 < t
      → InOrder w t es
      → B.capacity m.buffer ≡ n
      → m.window_size ≡ w
      → m.current_ts ≡ t
      → m.sampler ≡ s
      → m.current_value ≡ c
      → (elements (run m es) ≡ last n (elements m ++ ended S w t s c es))
        × ((run m es).current_value ≡ sampled S w t s c es)
        × IsValid (run m es)
  unfolding run ended sampled
  run_from [] m n w t s c ok started order en ew et es ec = (
    sym (ap (last n) (append-nil (elements m)) ∙ last_all n (elements m) (omega (arith, ok.full))),
    ec,
    ok,
  )
  run_from ((ts, v) ∷ rest) m n w t s c ok started (le, fits, small, order) en ew et es ec =
      let k = ts / w - t / w in
      let r = S.sample s c v (ltb 0 k) in
      let (ok', grown, kept) = advance-IsValid m ts v ok in
      let (closed, e_v, e_s, e_t, e_w) =
        step_from m w t ts s c v ok started (le, fits, small) ew et es ec in
      let tail = ended S w ts r.1 r.0 rest in
      let (ih, ih_v, ih_ok) =
        run_from rest (advance m ts v).0 n w ts r.1 r.0 ok' (le_trans started le) order (kept ∙ en)
          e_w e_t e_s e_v in
      let grown' : elements (advance m ts v).0 ≡ last n (elements m ++ replicate k c) =
        rw (← en, ← closed, ← ec) grown in
      (
        ih
            ∙ ap (λ xs. last n (xs ++ tail)) grown'
            ∙ last-last-append n (elements m ++ replicate k c) tail
            ∙ ap (last n) (append_assoc (elements m) (replicate k c) tail),
        ih_v,
        ih_ok,
      )

  -- From a window that has seen an event, any events in the order of time leave in the buffer the last
  -- samples of what it held and of the slots that have ended since, and the sample of the slot in
  -- progress as the current value. The window stays valid.
  pub run_refines :
      (es : List (ℕ × A)) (m : MovingWindow B S)
      → IsValid m
      → 0 < m.current_ts
      → InOrder m.window_size m.current_ts es
      → (elements (run m es)
          ≡ last
              (B.capacity m.buffer)
              (elements m ++ ended S m.window_size m.current_ts m.sampler m.current_value es))
        × ((run m es).current_value
            ≡ sampled S m.window_size m.current_ts m.sampler m.current_value es)
        × IsValid (run m es)
  run_refines es m ok started order =
      run_from es m _ _ _ _ _ ok started order refl refl refl refl refl
