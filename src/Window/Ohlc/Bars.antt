-- ===== src/Window/Ohlc/Bars.antt =====
-- The bars of src/cpp/common/ohlc.hpp keep their order: low at most open and close, high at least both.
use atp.Common.{
  ℕ, zero, suc, ◌-◌, ◌≡◌, refl, sym, ap, ◌∙◌, List, [], ◌∷◌, ◌++◌, length, drop, replicate, last,
}
use atp.Window.Buffer.{CircularBuffer}
use atp.Window.Samplers.{Ordered, Sampler, maximum, minimum}
use atp.Window.Samplers.Extremes.{AtMost, maximum_bounds, minimum_bounds}
use atp.Window.Moving.{MovingWindow, advance, elements}
use atp.Window.Moving.History.{IsValid, advance-IsValid, advance_sample, begins, closed_by}

module _ {A : Type 0} (o : Ordered A) where
  -- One bar: its open, close, high and low.
  pub record IsBar (op cl hi lo : A) : Type 0 where
    pub low_open : AtMost o lo op
    pub open_high : AtMost o op hi
    pub low_close : AtMost o lo cl
    pub close_high : AtMost o cl hi

  pub flat : (x : A) → IsBar x x x x
  flat x = record {
    low_open = o.below_irrefl x;
    open_high = o.below_irrefl x;
    low_close = o.below_irrefl x;
    close_high = o.below_irrefl x;
  }

  -- A further value of the period.
  pub widen :
      {op cl hi lo : A} (v : A) → IsBar op cl hi lo → IsBar op v (maximum o hi v) (minimum o lo v)
  widen {op} {cl} {hi} {lo} v b =
      let up = maximum_bounds o hi v in
      let down = minimum_bounds o lo v in
      record {
        low_open = o.not_below_trans _ lo op down.0 b.low_open;
        open_high = o.not_below_trans op hi _ b.open_high up.0;
        low_close = down.1;
        close_high = up.1;
      }

  -- Four lists of the same length, of which each place is a bar.
  pub data AreBars : List A → List A → List A → List A → Type 0 where
    no_bars : AreBars [] [] [] []
    bar :
        {op cl hi lo : A} {ops cls his los : List A}
        → IsBar op cl hi lo
        → AreBars ops cls his los
        → AreBars (op ∷ ops) (cl ∷ cls) (hi ∷ his) (lo ∷ los)

  pub bars-append :
      {ops cls his los ops' cls' his' los' : List A}
      → AreBars ops cls his los
      → AreBars ops' cls' his' los'
      → AreBars (ops ++ ops') (cls ++ cls') (his ++ his') (los ++ los')
  bars-append no_bars more = more
  bars-append (bar b bs) more = bar b (bars-append bs more)

  pub bars-replicate :
      (n : ℕ) {op cl hi lo : A}
      → IsBar op cl hi lo
      → AreBars (replicate n op) (replicate n cl) (replicate n hi) (replicate n lo)
  bars-replicate zero b = no_bars
  bars-replicate (suc n) b = bar b (bars-replicate n b)

  bars-drop :
      (n : ℕ) {ops cls his los : List A}
      → AreBars ops cls his los
      → AreBars (drop n ops) (drop n cls) (drop n his) (drop n los)
  bars-drop zero bs = bs
  bars-drop (suc n) no_bars = no_bars
  bars-drop (suc n) (bar b bs) = bars-drop n bs

  bars-length :
      {ops cls his los : List A}
      → AreBars ops cls his los
      → (length cls ≡ length ops) × (length his ≡ length ops) × (length los ≡ length ops)
  bars-length no_bars = (refl, refl, refl)
  bars-length (bar b bs) = let (c, h, l) = bars-length bs in (ap suc c, ap suc h, ap suc l)

  pub bars-last :
      (n : ℕ) {ops cls his los : List A}
      → AreBars ops cls his los
      → AreBars (last n ops) (last n cls) (last n his) (last n los)
  bars-last n {ops} bs =
      let (c, h, l) = bars-length bs in rw (c, h, l) (bars-drop (length ops - n) bs)

module _ {A : Type 0} {B : CircularBuffer A} where
  -- Two windows that have seen the same events.
  pub record InStep {S S' : Sampler A} (m : MovingWindow B S) (m' : MovingWindow B S')
      : Type 0 where
    pub same_ts : m'.current_ts ≡ m.current_ts
    pub same_size : m'.window_size ≡ m.window_size
    pub same_capacity : B.capacity m'.buffer ≡ B.capacity m.buffer

  module _ {S S' : Sampler A} (m : MovingWindow B S) (m' : MovingWindow B S')
      (s : InStep m m') where
    pub begins-InStep : (ts : ℕ) → begins m' ts ≡ begins m ts
    unfolding begins
    begins-InStep ts = rw (s.same_ts, s.same_size) refl

    closed_by-InStep : (ts : ℕ) → closed_by m' ts ≡ closed_by m ts
    unfolding closed_by
    closed_by-InStep ts = rw (s.same_ts, s.same_size) refl

    pub advance-InStep :
        (ts : ℕ) (v : A) → IsValid m → IsValid m' → InStep (advance m ts v).0 (advance m' ts v).0
    advance-InStep ts v ok ok' =
        let a = advance_sample m ts v in
        let a' = advance_sample m' ts v in
        record {
          same_ts = a'.2 ∙ sym a.2;
          same_size = a'.3 ∙ s.same_size ∙ sym a.3;
          same_capacity =
              (advance-IsValid m' ts v ok').2 ∙ s.same_capacity ∙ sym (advance-IsValid m ts v ok).2;
        }

    -- The elements of a window in step, in terms of the other's slots.
    pub grown_InStep :
        (ts : ℕ) (v : A)
        → IsValid m'
        → elements (advance m' ts v).0
          ≡ last (B.capacity m.buffer) (elements m' ++ replicate (closed_by m ts) m'.current_value)
    grown_InStep ts v ok' =
        rw (← s.same_capacity, ← closed_by-InStep ts) (advance-IsValid m' ts v ok').1
