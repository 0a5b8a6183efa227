-- ===== src/Subscriber/Variables.antt =====
-- The exported variables of a subscriber of market data (service/MarketDataSubscriber.hpp).
use atp.Common.{ℕ, ◌+◌, Bool, true, false, if◌then◌else◌, leb}
use atp.Common.Int.{ℤ, pos, negsuc, to_size, to_int64, sub_size}

-- The exported variables of one kind of message, which are int64.
pub record Meter : Type 0 where
  pub latency_micros : ℤ
  pub latency_micros_total : ℤ
  pub latency_micros_count : ℤ
  pub latency_over_budget : ℤ
  pub latency_drift_micros : ℤ
  pub event_last_ts : ℤ
  pub event_interval_micros : ℤ

abbrev pub no_meter : Meter
no_meter = record {
  latency_micros = pos 0;
  latency_micros_total = pos 0;
  latency_micros_count = pos 0;
  latency_over_budget = pos 0;
  latency_drift_micros = pos 0;
  event_last_ts = pos 0;
  event_interval_micros = pos 0;
}

-- a >= b
abbrev pub is_at_least : ℤ → ℤ → Bool
is_at_least (pos a) (pos b) = leb b a
is_at_least (pos a) (negsuc b) = true
is_at_least (negsuc a) (pos b) = false
is_at_least (negsuc a) (negsuc b) = leb a b

-- += of an int64.
abbrev pub plus : ℤ → ℕ → ℤ
plus a n = to_int64 (to_size a + n)

abbrev pub event_at : ℕ → Meter → Meter
event_at ts m = record m {
  event_interval_micros = to_int64 (sub_size ts (to_size m.event_last_ts));
  event_last_ts = to_int64 ts;
}

-- After the processing: when it started and finished, and the clock after it.
abbrev pub processed_at : (ts start finish now : ℕ) → Meter → Meter
processed_at ts start finish now m =
    let dt = sub_size finish start in
    record m {
      latency_micros = to_int64 dt;
      latency_micros_total = plus m.latency_micros_total dt;
      latency_micros_count = plus m.latency_micros_count 1;
      latency_drift_micros = to_int64 (sub_size now ts);
      latency_over_budget =
          if is_at_least (to_int64 dt) m.event_interval_micros
          then plus m.latency_over_budget 1
          else m.latency_over_budget;
    }
