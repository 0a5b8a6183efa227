-- ===== src/Window/Derived.antt =====
-- The operations that clients apply to a moving window of src/cpp/common/moving_window.hpp: `apply`,
-- `apply2` and `apply3` register a function and the derived window that its values go to, and
-- `operator()` feeds them. A derived window has no operations of its own here, and ids are left out:
-- a callback is a number, and its call is an `Event` with the arguments that it gets.
pub mod Feeding
use Prim.Native.String.{String}
use atp.Common.{
  ℕ, suc, ◌+◌, List, [], ◌∷◌, ◌++◌, Bool, ◌&&◌, ◌||◌, not, Option, none, some, ltb, ◌==◌,
  if◌then◌else◌, length, ◌>>=◌, replicate,
}
use atp.Common.Int.{ℤ, pos, to_size}
use atp.Window.Buffer.{CircularBuffer}
use atp.Window.Samplers.{Sampler, latest}
use atp.Window.Moving as Moving
use atp.Window.Moving.{MovingWindow, create, advance, capacity, size, at, get_time}
use atp.Window.Moving.Copy.{copy_last_data, generate_time_array}

-- The `time_series` that a function reads.
pub record TimeSeries (A : Type 0) : Type 0 where
  pub at : ℤ → Option A
  pub get_time : ℤ → ℕ
  pub size : ℕ
  pub time_period : ℕ

-- A call of a `moving_window_post_process`: which one, and how many slots have passed.
pub record Event : Type 0 where
  pub callback : ℕ
  pub count : ℕ

module _ {A : Type 0} {B : CircularBuffer A} {S : Sampler A} where
  unfoldable pub series : MovingWindow B S → TimeSeries A
  series m = record {
    at = Moving.at m;
    get_time = Moving.get_time m;
    size = Moving.size m;
    time_period = m.interval;
  }

  -- `set(pp)`
  unfoldable pub set_post_process : MovingWindow B S → ℕ → MovingWindow B S
  set_post_process m callback = record m { post_process = some callback }

  -- The end of `operator()`: the callback, if one is set and a slot has passed.
  unfoldable pub notify : MovingWindow B S → ℤ → List Event
  notify m windows =
      let p = to_size windows in
      elim m.post_process [
        | none ↦ []
        | some c ↦ if ltb 0 p then (record { callback = c; count = p }) ∷ [] else []
      ]

  -- `operator()` of a window with no operations.
  unfoldable pub on_leaf : MovingWindow B S → ℕ → A → MovingWindow B S × List Event
  unfolding notify
  on_leaf m timestamp value =
      let (m', windows) = advance m timestamp value in (m', notify m' windows)

module _ {A : Type 0} (B : CircularBuffer A) where
  pub record Operation (F : Type 0) : Type 0 where
    pub name : String
    pub functor : F
    pub min_samples : ℕ
    pub series : MovingWindow B latest

  -- The three function types: of the series itself, of times and values, of the time and values.
  abbrev pub SeriesOperation : Type 0
  SeriesOperation = TimeSeries A → A

  abbrev pub SampleArrayOperation : Type 0
  SampleArrayOperation = List ℕ → List A → ℕ → A

  abbrev pub ValueArrayOperation : Type 0
  ValueArrayOperation = ℕ → List A → ℕ → A

  -- The loops over the operations: each series gets the value of its function.
  unfoldable pub feed :
      {F : Type 0} → (F → A) → ℕ → List (Operation F) → List (Operation F) × List Event
  feed call timestamp [] = ([], [])
  feed call timestamp (op ∷ ops) =
      let (fed, events) = on_leaf op.series timestamp (call op.functor) in
      let (ops', rest) = feed call timestamp ops in
      (record op { series = fed } ∷ ops', events ++ rest)

  pub record Observed (S : Sampler A) : Type 0 where
    pub window : MovingWindow B S
    pub series_operations : List (Operation SeriesOperation)
    pub sample_array_operations : List (Operation SampleArrayOperation)
    pub value_array_operations : List (Operation ValueArrayOperation)

  -- The window that `apply`, `apply2` and `apply3` make for the values of the function.
  unfoldable pub derive :
      {S : Sampler A} {F : Type 0}
      → MovingWindow B S
      → String
      → F
      → ℕ
      → Option ℕ
      → Option (Operation F)
  derive m name op min_samples pp = do
    mw ← create B latest m.history_duration m.interval m.init
    some (record {
      name = name;
      functor = op;
      min_samples = min_samples;
      series = record mw { post_process = pp };
    })

module _ {A : Type 0} {B : CircularBuffer A} {S : Sampler A} where
  unfoldable pub apply : Observed B S → String → SeriesOperation B → ℕ → Option (Observed B S)
  apply o name op min_samples = do
    rec ← derive B o.window name op min_samples none
    some (record o { series_operations = o.series_operations ++ rec ∷ [] })

  unfoldable pub apply2 : Observed B S → String → SampleArrayOperation B → ℕ → Option (Observed B S)
  apply2 o name op min_samples = do
    rec ← derive B o.window name op min_samples none
    some (record o { sample_array_operations = o.sample_array_operations ++ rec ∷ [] })

  -- The last argument is the callback of the second form of `apply3`.
  unfoldable pub apply3 :
      Observed B S → String → ValueArrayOperation B → ℕ → Option ℕ → Option (Observed B S)
  apply3 o name op min_samples pp = do
    rec ← derive B o.window name op min_samples pp
    some (record o { value_array_operations = o.value_array_operations ++ rec ∷ [] })

  -- The inner part of `operator()`: the time array, and the functions of times and values. An error
  -- is logged where the array is short, and nothing is called.
  unfoldable pub call_samples :
      Observed B S → ℕ → List A → ℕ → List Event → Option (Observed B S × List Event)
  call_samples o timestamp vbuff len events = do
    (tbuff, generated) ← generate_time_array o.window (replicate len 0) len
    let (ops, more) = feed B (λ f. f tbuff vbuff len) timestamp o.sample_array_operations
    some (
        if generated == len
        then (record o { sample_array_operations = ops }, events ++ more)
        else (o, events))

  -- The part of `operator()` that copies the window into arrays, whose first contents do not matter,
  -- and calls the functions of arrays. An error is logged where the copy is short.
  unfoldable pub call_arrays : Observed B S → ℕ → Option (Observed B S × List Event)
  unfolding call_samples
  call_arrays o timestamp = do
    let len = capacity o.window
    (vbuff, copied) ← copy_last_data o.window (replicate len o.window.init) len
    let (ops, events) =
        feed B (λ f. f o.window.current_ts vbuff len) timestamp o.value_array_operations
    let o' = record o { value_array_operations = ops }
    if copied == len
        then (if ltb 0 (length o.sample_array_operations)
            then call_samples o' timestamp vbuff len events
            else some (o', events))
        else some (o, [])

  -- `operator()`: beside the window and its events in order, the number that is returned.
  unfoldable pub on : Observed B S → ℕ → A → Option (Observed B S × List Event × ℕ)
  on o timestamp value =
      let (m, windows) = advance o.window timestamp value in
      let (ops, events1) = feed B (λ f. f (series m)) timestamp o.series_operations in
      let o' = record o { window = m; series_operations = ops } in
      let arrays =
        ltb 0 (length o.value_array_operations) || ltb 0 (length o.sample_array_operations) in
      do
        (o'', events2) ← (if arrays then call_arrays o' timestamp else some (o', []))
        some (o'', events1 ++ (events2 ++ notify m windows), to_size windows)
