-- ===== src/Window/Ohlc/Order.antt =====
-- Every bar of src/cpp/common/ohlc.hpp is in order: after any events low is at most open and close, and
-- high at least both, in the current bar and in all that the windows hold.
use atp.Common.{
  ℕ, ◌/◌, ◌<◌, ◌≡◌, refl, sym, ap, subst, ◌∙◌, List, [], ◌∷◌, Bool, true, false, Option, none, some,
  arith, ◌==◌, if◌then◌else◌, ◌⊎◌, inl, inr, Bool-cases,
}
use atp.Window.Buffer.{CircularBuffer}
use atp.Window.Samplers.{Ordered, opening, open_sample, close, max, min, maximum, minimum}
use atp.Window.Moving.{MovingWindow, create, fresh, elements}
use atp.Window.Moving.History.{
  IsValid, advance-IsValid, advance_sample, begins, fresh_lem, closed_by,
}
use atp.Window.Derived.{on_leaf}
use atp.Window.Ohlc.{Ohlc, create_bars, on}
use atp.Window.Ohlc.Bars.{
  IsBar, flat, widen, AreBars, bars-append, bars-replicate, bars-last, InStep, begins-InStep,
  advance-InStep, grown_InStep,
}

module _ {A : Type 0} (o : Ordered A) where
  -- The current bar and the open sampler after an event, from the flag that it passes.
  sample-IsBar :
      (op cl hi lo v : A) (s : Option A) (flag : Bool)
      → IsBar o op cl hi lo
      → (s ≡ some op) ⊎ (flag ≡ true)
      → let r = open_sample s op v flag in
        IsBar o r.0 v (if flag then v else maximum o hi v) (if flag then v else minimum o lo v)
        × (r.1 ≡ some r.0)
  unfolding open_sample
  sample-IsBar op cl hi lo v s true b h = (flat o v, refl)
  sample-IsBar op cl hi lo v s false b (inl e) = rw e (widen o v b, refl)
  sample-IsBar op cl hi lo v s false b (inr e) = cc

module _ {A : Type 0} {B : CircularBuffer A} where
  -- The open sampler keeps the current open, once an event has come.
  abbrev pub Opened : MovingWindow B opening → Type 0
  Opened m = (m.sampler ≡ some m.current_value) ⊎ (m.current_ts ≡ 0)

  begins_at_zero : (m : MovingWindow B opening) (ts : ℕ) → m.current_ts ≡ 0 → begins m ts ≡ true
  unfolding begins
  begins_at_zero m ts e = ground arith

module _ {A : Type 0} {B : CircularBuffer A} {o : Ordered A} where
  pub record IsOrdered (b : Ohlc B o) : Type 0 where
    pub held :
        AreBars o
          (elements b.open_window)
          (elements b.close_window)
          (elements b.high_window)
          (elements b.low_window)
    pub current :
        IsBar o b.open_window.current_value b.close_window.current_value b.high_window.current_value
          b.low_window.current_value
    pub opened : Opened b.open_window
    pub open_valid : IsValid b.open_window
    pub close_valid : IsValid b.close_window
    pub high_valid : IsValid b.high_window
    pub low_valid : IsValid b.low_window
    pub close_step : InStep b.open_window b.close_window
    pub high_step : InStep b.open_window b.high_window
    pub low_step : InStep b.open_window b.low_window

  -- An event, whatever its time and value, leaves every bar in order.
  on-IsOrdered : (b : Ohlc B o) (ts : ℕ) (v : A) → IsOrdered b → IsOrdered (on B o b ts v).0
  unfolding on on_leaf
  on-IsOrdered b ts v ok =
      let op = b.open_window in
      let cl = b.close_window in
      let hi = b.high_window in
      let lo = b.low_window in
      let flag = begins op ts in
      let so = advance_sample op ts v in
      let sc = advance_sample cl ts v in
      let sh = advance_sample hi ts v in
      let sl = advance_sample lo ts v in
      let fh = begins-InStep op hi ok.high_step ts in
      let fl = begins-InStep op lo ok.low_step ts in
      let start : (op.sampler ≡ some op.current_value) ⊎ (flag ≡ true) = elim ok.opened [
        | inl e ↦ inl e
        | inr e ↦ inr (begins_at_zero op ts e)
      ] in
      let now =
        sample-IsBar o op.current_value cl.current_value hi.current_value lo.current_value v
          op.sampler flag ok.current start in
      record {
        held =
            rw
              (
                (advance-IsValid op ts v ok.open_valid).1,
                grown_InStep op cl ok.close_step ts v ok.close_valid,
                grown_InStep op hi ok.high_step ts v ok.high_valid,
                grown_InStep op lo ok.low_step ts v ok.low_valid,
              )
              (bars-last o (B.capacity op.buffer)
                (bars-append o ok.held (bars-replicate o (closed_by op ts) ok.current)));
        current = rw (so.0, sc.0, sh.0, sl.0, fh, fl) now.0;
        opened = inl (so.1 ∙ now.1 ∙ ap some (sym so.0));
        open_valid = (advance-IsValid op ts v ok.open_valid).0;
        close_valid = (advance-IsValid cl ts v ok.close_valid).0;
        high_valid = (advance-IsValid hi ts v ok.high_valid).0;
        low_valid = (advance-IsValid lo ts v ok.low_valid).0;
        close_step = advance-InStep op cl ok.close_step ts v ok.open_valid ok.close_valid;
        high_step = advance-InStep op hi ok.high_step ts v ok.open_valid ok.high_valid;
        low_step = advance-InStep op lo ok.low_step ts v ok.open_valid ok.low_valid;
      }

  unfoldable pub run : Ohlc B o → List (ℕ × A) → Ohlc B o
  run b [] = b
  run b ((ts, v) ∷ es) = run (on B o b ts v).0 es

  run-IsOrdered : (es : List (ℕ × A)) (b : Ohlc B o) → IsOrdered b → IsOrdered (run b es)
  unfolding run
  run-IsOrdered [] b ok = ok
  run-IsOrdered ((ts, v) ∷ es) b ok = run-IsOrdered es (on B o b ts v).0 (on-IsOrdered b ts v ok)

  fresh_bars : ℕ → ℕ → A → Ohlc B o
  fresh_bars h s initial = record {
    open_window = fresh B opening h s initial;
    close_window = fresh B close h s initial;
    high_window = fresh B (max o) h s initial;
    low_window = fresh B (min o) h s initial;
    post = none;
  }

  fresh_bars-IsOrdered : (h s : ℕ) (initial : A) → 0 < s → IsOrdered (fresh_bars h s initial)
  unfolding fresh_bars fresh
  fresh_bars-IsOrdered h s initial p =
      let (ok_o, held_o, cap_o) = fresh_lem {B = B} {S = opening} h s initial p in
      let (ok_c, held_c, cap_c) = fresh_lem {B = B} {S = close} h s initial p in
      let (ok_h, held_h, cap_h) = fresh_lem {B = B} {S = max o} h s initial p in
      let (ok_l, held_l, cap_l) = fresh_lem {B = B} {S = min o} h s initial p in
      record {
        held = rw held_o (bars-replicate o (h / s) (flat o initial));
        current = flat o initial;
        opened = inr refl;
        open_valid = ok_o;
        close_valid = ok_c;
        high_valid = ok_h;
        low_valid = ok_l;
        close_step = record { same_ts = refl; same_size = refl; same_capacity = refl };
        high_step = record { same_ts = refl; same_size = refl; same_capacity = refl };
        low_step = record { same_ts = refl; same_size = refl; same_capacity = refl };
      }

  -- Bars that have just been made, and then have seen any events in any order of time, are in order:
  -- low is at most open and close, and high at least both, in the current bar and in every bar held.
  pub bars_in_order :
      (h s : ℕ) (initial : A) (b : Ohlc B o) (es : List (ℕ × A))
      → create_bars B o h s initial ≡ some b
      → IsOrdered (run b es)
  unfolding create_bars create
  bars_in_order h s initial b es e = elim (Bool-cases (s == 0)) [
    | inl p ↦ absurd (ground arith)
    | inr p ↦
        let found : fresh_bars h s initial ≡ b = unfold fresh_bars in ground arith in
        run-IsOrdered es b (subst IsOrdered found (fresh_bars-IsOrdered h s initial (ground arith)))
  ]
