-- ===== src/Window/Pipeline/Calculated.antt =====
-- What the indicators of a pipeline are given.
use atp.Common.{
  ℕ, suc, ◌<◌, ◌≡◌, refl, ap, ap₂, ◌∙◌, List, [], ◌∷◌, ◌++◌, some, arith, length, replicate, last,
  append-nil, drop_all, length-replicate,
}
use atp.Common.Int.{size_mod, to_size, sub_size}
use atp.Window.Buffer.{CircularBuffer}
use atp.Window.Samplers.{Sampler}
use atp.Window.Moving.{MovingWindow, advance, capacity, elements}
use atp.Window.Moving.History.{IsValid, advance-IsValid}
use atp.Window.Moving.Copy.{copy_last}
use atp.Window.Moving.Copy.Slow.{times, copy_last_lem}
use atp.Window.Derived.{Event, on_leaf}
use atp.Window.Derived.Feeding.{notices, notify_lem, on_described, on_lem}
use atp.Window.Pipeline.{Indicator, Pipeline, calculate_all, update}

module _ {A : Type 0} {B : CircularBuffer A} where
  -- The window of each indicator has got one value, what the indicator calculates.
  abbrev pub calculated : ℕ → List ℕ → List A → ℕ → List (Indicator B) → List (Indicator B)
  calculated t ts vs n [] = []
  calculated t ts vs n (ind ∷ list) =
      record ind { window = (advance ind.window t (ind.calculate ts vs n)).0 }
      ∷ calculated t ts vs n list

  -- The notices of their windows, in their order.
  abbrev pub calculated_notices : ℕ → List ℕ → List A → ℕ → List (Indicator B) → List Event
  calculated_notices t ts vs n [] = []
  calculated_notices t ts vs n (ind ∷ list) =
      let (window, windows) = advance ind.window t (ind.calculate ts vs n) in
      notices window.post_process (to_size windows) ++ calculated_notices t ts vs n list

  calculate_all_lem :
      (t : ℕ) (ts : List ℕ) (vs : List A) (n : ℕ) (list : List (Indicator B))
      → calculate_all t ts vs n list
        ≡ (calculated t ts vs n list, calculated_notices t ts vs n list)
  unfolding calculate_all on_leaf
  calculate_all_lem t ts vs n [] = refl
  calculate_all_lem t ts vs n (ind ∷ list) =
      let (window, windows) = advance ind.window t (ind.calculate ts vs n) in
      rw (calculate_all_lem t ts vs n list, notify_lem window windows) refl

module _ {A : Type 0} {B : CircularBuffer A} {S : Sampler A} where
  -- Into arrays of its size the copy writes the times of the last slots and their samples.
  copy_last-replicate :
      (m : MovingWindow B S) (k : ℕ)
      → IsValid m
      → capacity m ≡ suc (suc k)
      → suc (suc k) < size_mod
      → copy_last m (replicate (suc k) 0) (replicate (suc k) m.init) (suc k)
        ≡ some (times m (suc k), last k (elements m) ++ (m.current_value ∷ []), suc k)
  copy_last-replicate m k ok room small =
      let long : length {A = ℕ} (replicate (suc k) 0) ≡ suc k = length-replicate (suc k) 0 in
      let wide : length (replicate (suc k) m.init) ≡ suc k = length-replicate (suc k) m.init in
      (copy_last_lem m (replicate (suc k) 0) (replicate (suc k) m.init) k ok (omega (arith, room))
        (omega (arith, room)) (omega (arith, long)) (omega (arith, wide))).0
      ∙ ap₂ (λ ts vs. some (ts, vs, suc k))
          (ap (λ r. times m (suc k) ++ r)
              (drop_all (suc k) (replicate (suc k) 0) (omega (arith, long)))
            ∙ append-nil (times m (suc k)))
          (ap (λ r. last k (elements m) ++ (m.current_value ∷ r))
            (drop_all (suc k) (replicate (suc k) m.init) (omega (arith, wide))))

  -- What an event does to a pipeline, with no copies.
  abbrev pub update_described : ℕ → Pipeline B S → ℕ → A → Pipeline B S × List Event
  update_described k p t v =
      let m = (advance p.source.window t v).0 in
      let (source, events, windows) = on_described p.source t v in
      let vs = last k (elements m) ++ (m.current_value ∷ []) in
      (
        record {
          source = source;
          indicators = calculated t (times m (suc k)) vs (suc k) p.indicators;
        },
        events ++ calculated_notices t (times m (suc k)) vs (suc k) p.indicators,
      )

  -- An event on a pipeline whose source is valid and has room for k + 1 samples beside the current one
  -- goes through without a fault: the source gets the event, and then the window of each indicator, in the
  -- order in which they were added, is advanced once, at the time of the event, by what the indicator
  -- calculates of the last k samples of the source and its current value, with the k + 1 times of their
  -- slots; the notices of these windows follow those of the source.
  pub update_lem :
      (k : ℕ) (p : Pipeline B S) (t : ℕ) (v : A)
      → IsValid p.source.window
      → capacity p.source.window ≡ suc (suc k)
      → suc (suc k) < size_mod
      → update p t v ≡ some (update_described k p t v)
  unfolding update
  update_lem k p t v ok room small =
      let (went, ok') = on_lem p.source t v ok (omega (arith, room)) in
      let (valid, grown, kept) = advance-IsValid p.source.window t v ok in
      let m = (advance p.source.window t v).0 in
      let room' : capacity m ≡ suc (suc k) = unfold capacity in rw kept room in
      let len : sub_size (suc (suc k)) 1 ≡ suc k = omega (arith, small) in
      rw
        (
          went,
          room',
          len,
          copy_last-replicate m k valid room' small,
          calculate_all_lem t (times m (suc k)) (last k (elements m) ++ (m.current_value ∷ []))
              (suc k) p.indicators,
        )
        refl
