-- ===== src/Tests/WindowRuns.antt =====
-- The moving windows and the bars at concrete inputs: three slots of 1000 microseconds.
use atp.Common.{ℕ, ◌≡◌, refl, List, [], ◌∷◌, Option, none, some, arith}
use atp.Window.Policy.{count_windows, is_new_window}
use atp.Window.Policy as Policy
use atp.Window.Samplers.{latest, opening, max, min}
use atp.Window.Moving.{MovingWindow, create, fresh, elements, capacity, advance, close_slots}
use atp.Window.Moving.History.{IsValid}
use atp.Window.Moving.Slots.{run, ended, sampled, run_refines, InOrder}
use atp.Window.Moving.Copy.{copy_last, copy_last_slow}
use atp.Window.Moving.Copy.Slow.{copy_last_lem}
use atp.Window.Derived.{Observed, Operation, on}
use atp.Window.Derived.Feeding.{on_lem, on_described}
use atp.Window.Pipeline.{Indicator, Pipeline, update}
use atp.Window.Pipeline.Calculated.{update_described, update_lem}
use atp.Window.Ohlc.{Ohlc, create_bars}
use atp.Window.Ohlc.Order as Order
use atp.Window.Ohlc.Order.{IsOrdered, bars_in_order}
use atp.Tests.Ring.{ring, cents}

abbrev started : MovingWindow (ring ℕ) latest
started = record {
  history_duration = 3000;
  interval = 1000;
  buffer = record { items = 7 ∷ 7 ∷ 8 ∷ []; room = 3 };
  init = 7;
  current_value = 10;
  current_ts = 5500;
  collected = 0;
  sampler = tt;
  window_size = 1000;
  post_process = none;
}

started-IsValid : IsValid started
started-IsValid = record { full = refl; sized = omega arith }

abbrev events : List (ℕ × ℕ)
events = (5700, 11) ∷ (7200, 12) ∷ (8100, 13) ∷ []

events-InOrder : InOrder 1000 5500 events
events-InOrder = omega arith

run_refines_example :
    (elements (run started events) ≡ 11 ∷ 11 ∷ 12 ∷ [])
    × ((run started events).current_value ≡ 13)
    × IsValid (run started events)
unfolding ended sampled
run_refines_example = run_refines events started started-IsValid (omega arith) events-InOrder

-- The same by running the model.
run-events : elements (run started events) ≡ 11 ∷ 11 ∷ 12 ∷ []
unfolding run advance close_slots count_windows
run-events = refl

copy_last_lem_example :
    (copy_last started (0 ∷ 0 ∷ 0 ∷ 9 ∷ []) (1 ∷ 1 ∷ 1 ∷ 1 ∷ []) 3
      ≡ some (3000 ∷ 4000 ∷ 5000 ∷ 9 ∷ [], 7 ∷ 8 ∷ 10 ∷ 1 ∷ [], 3))
    × (copy_last_slow started (0 ∷ 0 ∷ 0 ∷ 9 ∷ []) (1 ∷ 1 ∷ 1 ∷ 1 ∷ []) 3
        ≡ some (3000 ∷ 4000 ∷ 5000 ∷ 9 ∷ [], 7 ∷ 8 ∷ 10 ∷ 1 ∷ [], 3))
unfolding Policy.get_time
copy_last_lem_example =
    copy_last_lem started (0 ∷ 0 ∷ 0 ∷ 9 ∷ []) (1 ∷ 1 ∷ 1 ∷ 1 ∷ []) 2 started-IsValid
      (unfold capacity in omega arith) (unfold capacity in omega arith) (omega arith) (omega arith)

-- A derived window that gets the length of what it is given.
abbrev lengths : Operation (ring ℕ) (ℕ → List ℕ → ℕ → ℕ)
lengths = record { name = "len"; functor = λ t xs n. n; min_samples = 1; series = started }

abbrev observed : Observed (ring ℕ) latest
observed = record {
  window = started;
  series_operations = [];
  sample_array_operations = [];
  value_array_operations = lengths ∷ [];
}

on_lem_example :
    (on observed 7200 12 ≡ some (on_described observed 7200 12))
    × IsValid (on_described observed 7200 12).0.window
on_lem_example = on_lem observed 7200 12 started-IsValid (unfold capacity in omega arith)

-- An indicator that gets the number of the values that it is given.
abbrev counting : Indicator (ring ℕ)
counting = record {
  calculate = λ ts vs n. n;
  window = record {
    history_duration = 3000;
    interval = 1000;
    buffer = record { items = 7 ∷ 7 ∷ 8 ∷ []; room = 3 };
    init = 7;
    current_value = 10;
    current_ts = 5500;
    collected = 0;
    sampler = tt;
    window_size = 1000;
    post_process = none;
  };
}

abbrev pipeline : Pipeline (ring ℕ) latest
pipeline = record { source = observed; indicators = counting ∷ [] }

update_lem_example : update pipeline 7200 12 ≡ some (update_described 2 pipeline 7200 12)
update_lem_example =
    update_lem 2 pipeline 7200 12 started-IsValid (unfold capacity in refl) (omega arith)

-- Slots of one microsecond, and an hour without events.
abbrev fine : MovingWindow (ring ℕ) latest
fine = record started { interval = 1; window_size = 1 }

abbrev previous : Option ℕ
previous = some 3

abbrev bars : Ohlc (ring ℕ) cents
bars = record {
  open_window = fresh (ring ℕ) opening 3000 1000 7;
  close_window = fresh (ring ℕ) latest 3000 1000 7;
  high_window = fresh (ring ℕ) (max cents) 3000 1000 7;
  low_window = fresh (ring ℕ) (min cents) 3000 1000 7;
  post = none;
}

bars_in_order_example : IsOrdered (Order.run bars events)
unfolding create_bars create
bars_in_order_example = bars_in_order 3000 1000 7 bars events refl
