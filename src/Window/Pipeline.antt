-- ===== src/Window/Pipeline.antt =====
-- A pipeline of indicators on a moving window: platform/sequential_pipeline.hpp and
-- platform/indicator.hpp. The windows are the pipeline's own, and `calculate` of an indicator is a
-- function of the arrays that it gets.
pub mod Calculated
use atp.Common.{ℕ, List, [], ◌∷◌, ◌++◌, Option, none, some, ◌>>=◌, replicate}
use atp.Common.Int.{sub_size}
use atp.Window.Buffer.{CircularBuffer}
use atp.Window.Samplers.{Sampler, close}
use atp.Window.Moving.{MovingWindow, create, capacity}
use atp.Window.Moving.Copy.{copy_last}
use atp.Window.Derived.{Observed, Event, on, on_leaf}

module _ {A : Type 0} (B : CircularBuffer A) where
  -- The times, the values and their number.
  abbrev pub Calculation : Type 0
  Calculation = List ℕ → List A → ℕ → A

  pub record Indicator : Type 0 where
    pub calculate : Calculation
    pub window : MovingWindow B close

  -- The constructor of an indicator.
  unfoldable pub create_indicator : Calculation → (h i : ℕ) → (init : A) → Option Indicator
  unfolding create
  create_indicator calculate h i init = do
    window ← create B close h i init
    some (record { calculate = calculate; window = window })

  pub record Pipeline (S : Sampler A) : Type 0 where
    pub source : Observed B S
    pub indicators : List Indicator

module _ {A : Type 0} {B : CircularBuffer A} where
  -- The loop over the indicators.
  unfoldable pub calculate_all :
      (t : ℕ) (tbuffer : List ℕ) (vbuffer : List A) (copied : ℕ)
      → List (Indicator B)
      → List (Indicator B) × List Event
  unfolding on_leaf
  calculate_all t tbuffer vbuffer copied [] = ([], [])
  calculate_all t tbuffer vbuffer copied (ind ∷ list) =
      let (window, events) = on_leaf ind.window t (ind.calculate tbuffer vbuffer copied) in
      let (rest, more) = calculate_all t tbuffer vbuffer copied list in
      (record ind { window = window } ∷ rest, events ++ more)

module _ {A : Type 0} {B : CircularBuffer A} {S : Sampler A} where
  -- add, and >>
  unfoldable pub add : Indicator B → Pipeline B S → Pipeline B S
  add derived p = record p { indicators = p.indicators ++ (derived ∷ []) }

  -- operator(): the first contents of the arrays do not matter. None is a fault.
  unfoldable pub update : Pipeline B S → ℕ → A → Option (Pipeline B S × List Event)
  update p t v = do
    (source, events, windows) ← on p.source t v
    let len = sub_size (capacity source.window) 1
    (tbuffer, vbuffer, copied) ←
        copy_last source.window (replicate len 0) (replicate len source.window.init) len
    let (indicators, more) = calculate_all t tbuffer vbuffer copied p.indicators
    some (record { source = source; indicators = indicators }, events ++ more)
