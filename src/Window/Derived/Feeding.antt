-- ===== src/Window/Derived/Feeding.antt =====
-- What `operator()` of moving_window.hpp feeds to the operations: the whole window, exactly.
use atp.Common.{
  ℕ, zero, suc, Option-cases, inl, inr, none, ◌+◌, ◌<◌, ◌≡◌, refl, sym, ap, ◌∙◌, List, [], ◌∷◌,
  ◌++◌, true, ◌||◌, Option, some, arith, ltb, ltb_pos, ◌==◌, if◌then◌else◌, length, replicate,
  append-nil, last_all, drop_all, length-replicate,
}
use atp.Common.Int.{ℤ, size_mod, to_size}
use atp.Window.Buffer.{CircularBuffer}
use atp.Window.Samplers.{Sampler}
use atp.Window.Moving.{MovingWindow, advance, capacity, elements}
use atp.Window.Moving.History.{IsValid, advance-IsValid}
use atp.Window.Moving.Copy.{copy_last_data, generate_time_array}
use atp.Window.Moving.Copy.Exact.{copy_last_data_lem}
use atp.Window.Moving.Copy.Slow.{times, generate_time_array_lem}
use atp.Window.Derived.{
  Event, Observed, Operation, SeriesOperation, SampleArrayOperation, ValueArrayOperation, series,
  on_leaf, notify, feed, call_arrays, on,
}

-- The notice of a callback, where there is one and slots have passed.
abbrev pub notices : Option ℕ → ℕ → List Event
notices none n = []
notices (some c) zero = []
notices (some c) (suc n) = record { callback = c; count = suc n } ∷ []

notices-some :
    (c n : ℕ)
    → (if ltb 0 n then (record { callback = c; count = n }) ∷ [] else []) ≡ notices (some c) n
notices-some c zero = refl
notices-some c (suc n) = rw (ltb_pos n) refl

module _ {A : Type 0} {B : CircularBuffer A} where
  -- The series of each operation has got one value, that of its function.
  abbrev pub fed_all : {F : Type 0} → (F → A) → ℕ → List (Operation B F) → List (Operation B F)
  fed_all call ts [] = []
  fed_all call ts (op ∷ ops) =
      record op { series = (advance op.series ts (call op.functor)).0 } ∷ fed_all call ts ops

  -- The notices of the series, in the order of the operations.
  abbrev pub notices_all : {F : Type 0} → (F → A) → ℕ → List (Operation B F) → List Event
  notices_all call ts [] = []
  notices_all call ts (op ∷ ops) =
      let (series, windows) = advance op.series ts (call op.functor) in
      notices series.post_process (to_size windows) ++ notices_all call ts ops

  pub notify_lem :
      {S : Sampler A} (m : MovingWindow B S) (w : ℤ)
      → notify m w ≡ notices m.post_process (to_size w)
  unfolding notify
  notify_lem {S} m w = elim (Option-cases m.post_process) [
    | inl p ↦ ap told p ∙ ap (λ x. notices x (to_size w)) (sym p)
    | inr (c, p) ↦ ap told p ∙ notices-some c (to_size w) ∙ ap (λ x. notices x (to_size w)) (sym p)
  ]
    where
      told : Option ℕ → List Event
      told x = notify {S = S} (record m { post_process = x }) w

  feed_lem :
      {F : Type 0} (call : F → A) (ts : ℕ) (ops : List (Operation B F))
      → feed B call ts ops ≡ (fed_all call ts ops, notices_all call ts ops)
  unfolding feed on_leaf
  feed_lem call ts [] = refl
  feed_lem call ts (op ∷ ops) =
      let (series, windows) = advance op.series ts (call op.functor) in
      rw (feed_lem call ts ops, notify_lem series windows) refl

module _ {A : Type 0} {B : CircularBuffer A} {S : Sampler A} where
  -- All the samples that the window holds, the current one last.
  abbrev pub samples : MovingWindow B S → List A
  samples m = elements m ++ m.current_value ∷ []

  whole_data :
      (m : MovingWindow B S)
      → IsValid m
      → capacity m < size_mod
      → copy_last_data m (replicate (capacity m) m.init) (capacity m) ≡ some (samples m, capacity m)
  unfolding capacity
  whole_data m ok small =
      let n = B.capacity m.buffer in
      let one_more : n + 1 ≡ suc n = omega arith in
      rw one_more (
        copy_last_data_lem m (replicate (suc n) m.init) n ok (omega arith) (omega arith)
          (omega (arith, length-replicate (suc n) m.init))
        ∙ rw
            (
              last_all n (elements m) (omega (arith, ok.full)),
              drop_all (suc n) (replicate (suc n) m.init)
                  (omega (arith, length-replicate (suc n) m.init)),
            )
            refl)

  whole_times :
      (m : MovingWindow B S)
      → IsValid m
      → capacity m < size_mod
      → generate_time_array m (replicate (capacity m) 0) (capacity m)
        ≡ some (times m (capacity m), capacity m)
  unfolding capacity
  whole_times m ok small =
      let n = B.capacity m.buffer in
      let one_more : n + 1 ≡ suc n = omega arith in
      let blank : List ℕ = replicate (suc n) 0 in
      let enough : length blank ≡ suc n = length-replicate (suc n) 0 in
      rw one_more (
        generate_time_array_lem m blank n (omega arith) (omega arith) (omega arith)
        ∙ rw (drop_all (suc n) blank (omega arith), append-nil (times m (suc n))) refl)

  -- What an event does to a window and its operations, with no arrays or copies.
  abbrev on_fed : Observed B S → ℕ → A → Observed B S × List Event × ℕ
  on_fed o ts v =
      let (m, windows) = advance o.window ts v in
      let n = capacity m in
      let (ops1, events1) = feed B (λ f. f (series m)) ts o.series_operations in
      let (ops2, events2) =
        feed B (λ f. f m.current_ts (samples m) n) ts o.value_array_operations in
      let (ops3, events3) =
        feed B (λ f. f (times m n) (samples m) n) ts o.sample_array_operations in
      (
        record {
          window = m;
          series_operations = ops1;
          sample_array_operations = ops3;
          value_array_operations = ops2;
        },
        events1 ++ ((events2 ++ events3) ++ notify m windows),
        to_size windows,
      )

  abbrev parts :
      MovingWindow B S
      → List (Operation B (SeriesOperation B))
      → List (Operation B (SampleArrayOperation B))
      → List (Operation B (ValueArrayOperation B))
      → Observed B S
  parts m s a w = record {
    window = m;
    series_operations = s;
    sample_array_operations = a;
    value_array_operations = w;
  }

  abbrev fed : Observed B S → List Event → Option (Observed B S × List Event)
  fed o events = some (o, events)

  module _ (m : MovingWindow B S) (ok : IsValid m) (small : capacity m < size_mod) where
    same : (capacity m == capacity m) ≡ true
    same = ground arith

    -- The operations of arrays, whether there are any or not.
    arrays_lem :
        (ts : ℕ) (s : List (Operation B (SeriesOperation B)))
        (a : List (Operation B (SampleArrayOperation B)))
        (w : List (Operation B (ValueArrayOperation B)))
        → let n = capacity m in
          let (w', e2) = feed B (λ f. f m.current_ts (samples m) n) ts w in
          let (a', e3) = feed B (λ f. f (times m n) (samples m) n) ts a in
          (if ltb 0 (length w) || ltb 0 (length a)
            then call_arrays (parts m s a w) ts
            else fed (parts m s a w) [])
          ≡ fed (parts m s a' w') (e2 ++ e3)
    unfolding feed call_arrays
    arrays_lem ts s [] [] = refl
    arrays_lem ts s [] (op ∷ w) =
        rw (whole_data m ok small, same, ltb_pos (length w)) (ap (fed _) (sym (append-nil _)))
    arrays_lem ts s (op ∷ a) [] =
        rw (whole_data m ok small, same, whole_times m ok small, same, ltb_pos (length a)) refl
    arrays_lem ts s (op ∷ a) (op' ∷ w) =
        rw
          (
            whole_data m ok small,
            same,
            whole_times m ok small,
            same,
            ltb_pos (length a),
            ltb_pos (length w),
          )
          refl

  on-fed :
      (o : Observed B S) (ts : ℕ) (v : A)
      → IsValid o.window
      → capacity o.window < size_mod
      → (on o ts v ≡ some (on_fed o ts v)) × IsValid (on_fed o ts v).0.window
  unfolding on
  on-fed o ts v ok small =
      let (ok', grown, kept) = advance-IsValid o.window ts v ok in
      let m = (advance o.window ts v).0 in
      let small' : capacity m < size_mod = unfold capacity in rw kept small in
      let s' = (feed B (λ f. f (series m)) ts o.series_operations).0 in
      (
        rw (arrays_lem m ok' small' ts s' o.sample_array_operations o.value_array_operations) refl,
        ok',
      )

  -- What an event does to a window and its operations, said without the loops.
  abbrev pub on_described : Observed B S → ℕ → A → Observed B S × List Event × ℕ
  on_described o ts v =
      let (m, windows) = advance o.window ts v in
      let n = capacity m in
      let of_series = λ (f : SeriesOperation B). f (series m) in
      let of_values = λ (f : ValueArrayOperation B). f m.current_ts (samples m) n in
      let of_samples = λ (f : SampleArrayOperation B). f (times m n) (samples m) n in
      (
        record {
          window = m;
          series_operations = fed_all of_series ts o.series_operations;
          sample_array_operations = fed_all of_samples ts o.sample_array_operations;
          value_array_operations = fed_all of_values ts o.value_array_operations;
        },
        notices_all of_series ts o.series_operations
            ++ ((notices_all of_values ts o.value_array_operations
                  ++ notices_all of_samples ts o.sample_array_operations)
                ++ notices m.post_process (to_size windows)),
        to_size windows,
      )

  on_fed_lem : (o : Observed B S) (ts : ℕ) (v : A) → on_fed o ts v ≡ on_described o ts v
  on_fed_lem o ts v =
      let (m, windows) = advance o.window ts v in
      let n = capacity m in
      rw
        (
          feed_lem (λ f. f (series m)) ts o.series_operations,
          feed_lem (λ f. f m.current_ts (samples m) n) ts o.value_array_operations,
          feed_lem (λ f. f (times m n) (samples m) n) ts o.sample_array_operations,
          notify_lem m windows,
        )
        refl

  -- An event on a valid window goes through without a fault. It leaves the window as `advance` makes
  -- it, valid again. Every derived series is advanced once, at the time of the event: a series operation's
  -- by its function of the window, an array operation's by its function of all the samples that the window
  -- holds, with all their times where it takes times. The notices are those of the derived series, of the
  -- functions of the window first, then of values, then of times and values, and last the window's own,
  -- each where a callback is set and slots have passed, with their number, which is also returned.
  pub on_lem :
      (o : Observed B S) (ts : ℕ) (v : A)
      → IsValid o.window
      → capacity o.window < size_mod
      → (on o ts v ≡ some (on_described o ts v)) × IsValid (on_described o ts v).0.window
  on_lem o ts v ok small =
      let (e, ok') = on-fed o ts v ok small in (e ∙ ap some (on_fed_lem o ts v), ok')
