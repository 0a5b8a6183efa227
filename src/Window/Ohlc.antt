-- ===== src/Window/Ohlc.antt =====
-- src/cpp/common/ohlc.hpp: open, high, low and close bars, kept by four moving windows that see the
-- same events.
pub mod Bars
pub mod Order
use mathlib.Core.Option
use atp.Common.{ℕ, List, ◌++◌, Option, none, some, ◌>>=◌}
use atp.Common.Int.{to_size}
use atp.Window.Buffer.{CircularBuffer}
use atp.Window.Samplers.{Ordered, opening, close, max, min}
use atp.Window.Moving as Moving
use atp.Window.Moving.{MovingWindow, create}
use atp.Window.Derived.{Event, on_leaf}

-- A call of an `ohlc_post_process`.
pub record BarEvent : Type 0 where
  pub callback : ℕ
  pub count : ℕ

module _ {A : Type 0} (B : CircularBuffer A) (o : Ordered A) where
  -- `post` is the callback that is set, if one is.
  pub record Ohlc : Type 0 where
    pub open_window : MovingWindow B opening
    pub close_window : MovingWindow B close
    pub high_window : MovingWindow B (max o)
    pub low_window : MovingWindow B (min o)
    pub post : Option ℕ

  unfoldable pub create_bars : ℕ → ℕ → A → Option Ohlc
  create_bars h s initial = do
    op ← create B opening h s initial
    cl ← create B close h s initial
    hi ← create B (max o) h s initial
    lo ← create B (min o) h s initial
    some (record {
      open_window = op;
      close_window = cl;
      high_window = hi;
      low_window = lo;
      post = none;
    })

  unfoldable pub set_post : Ohlc → ℕ → Ohlc
  set_post b callback = record b { post = some callback }

  unfoldable pub size : Ohlc → ℕ
  size b = Moving.size b.open_window

  -- `on`: the bars after the event, the calls of the windows' own callbacks, the call of the bars'
  -- callback, and the number returned. Unlike a window's callback it is called at every event, with
  -- a count of 0 when no slot has passed.
  unfoldable pub on : Ohlc → ℕ → A → Ohlc × List Event × Option BarEvent × ℕ
  on b timestamp value =
      let (op, windows) = Moving.advance b.open_window timestamp value in
      let (op', e1) = on_leaf b.open_window timestamp value in
      let (cl, e2) = on_leaf b.close_window timestamp value in
      let (hi, e3) = on_leaf b.high_window timestamp value in
      let (lo, e4) = on_leaf b.low_window timestamp value in
      (
        record b { open_window = op'; close_window = cl; high_window = hi; low_window = lo },
        e1 ++ (e2 ++ (e3 ++ e4)),
        Option.map (λ c. record { callback = c; count = to_size windows }) b.post,
        to_size windows,
      )
