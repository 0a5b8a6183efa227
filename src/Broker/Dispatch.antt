-- ===== src/Broker/Dispatch.antt =====
-- The events that the broker sends (ib/MarketEventDispatcher.hpp and .cpp with the wrapper of
-- ib/api966/MarketEventDispatcher.cpp, ib/tick_types.hpp). A double is its 64 bits; times are given; none
-- is a fault: a type of tick without a name, or no socket to send to. A null pointer is undefined too
-- in the publishers of the contracts' and of the orders' events.
use atp.Common.{
  ℕ, zero, suc, ◌+◌, ◌%◌, ◌^◌, Bool, true, false, Option, none, some, List, [], ◌∷◌, ◌++◌, length,
  if◌then◌else◌, get_elem?, ◌>>=◌,
}
use atp.Common.Int.{ℤ, pos, to_size, to_int64, sub_size}
use atp.Common.Text.{Str, codes}
use atp.Historian.Messages.{
  MarketData, Side, ask, bid, DepthOperation, insert, update, delete, Scalar, Content, double, int,
  string, empty_value, set_value_as,
}
use atp.Broker.TickTypes.{tick_type_names}
use atp.Tickers.Registry.{Tickers, get_subscription_key_from_id}

-- The exported counters of the dispatcher.
pub record Counters : Type 0 where
  pub total_bytes : ℕ
  pub count : ℕ
  pub last_ts : ℤ
  pub interval_micros : ℤ
  pub serialization_errors : ℕ
  pub unresolved_keys : ℕ
  pub micros : ℤ
  pub depth_total_bytes : ℕ
  pub depth_count : ℕ
  pub depth_unresolved_keys : ℕ

-- The dispatcher of one session: whether channel 0 has a socket, and the messages sent to it, each a
-- topic and a text.
pub record Dispatcher : Type 0 where
  pub connected : Bool
  pub sent : List (Str × Str)
  pub counters : Counters

-- A MarketDepth that is being made: a side or an operation that the broker names otherwise stays unset.
pub record Depth : Type 0 where
  pub timestamp : ℕ
  pub symbol : Str
  pub price : ℕ
  pub size : ℕ
  pub level : ℕ
  pub mm : Str
  pub contract_id : ℕ
  pub side : Option Side
  pub operation : Option DepthOperation

-- The difference of two readings of the clock, as an int64.
abbrev pub elapsed : ℕ → ℤ → ℤ
elapsed now last = to_int64 (sub_size now (to_size last))

abbrev pub on_publish : ℕ → ℕ → Counters → Counters
on_publish start sent c = record c {
  count = c.count + 1;
  total_bytes = c.total_bytes + sent;
  interval_micros = elapsed start c.last_ts;
  last_ts = to_int64 start;
}

abbrev pub on_serialize_error : Counters → Counters
on_serialize_error c = record c { serialization_errors = c.serialization_errors + 1 }

abbrev pub on_unresolved_topic : Counters → Counters
on_unresolved_topic c = record c { unresolved_keys = c.unresolved_keys + 1 }

abbrev pub on_completed_publish_request : (start now : ℕ) → Counters → Counters
on_completed_publish_request start now c = record c { micros = to_int64 (sub_size now start) }

abbrev pub counting : (Counters → Counters) → Dispatcher → Dispatcher
counting f d = record d { counters = f d.counters }

-- Two frames to the socket of channel 0.
abbrev pub send_frames : Str → Str → Dispatcher → Option Dispatcher
send_frames topic text d =
    if d.connected then some (record d { sent = d.sent ++ ((topic, text) ∷ []) }) else none

-- When an event is handled: the readings of the clock at its start and its end, and the time that the
-- wrapper keeps for it.
pub record Times : Type 0 where
  pub start : ℕ
  pub stop : ℕ
  pub micros : ℕ

-- The switches on the side and on the operation.
abbrev pub side_of : ℤ → Option Side
side_of (pos zero) = some ask
side_of (pos (suc zero)) = some bid
side_of _ = none

abbrev pub operation_of : ℤ → Option DepthOperation
operation_of (pos zero) = some insert
operation_of (pos (suc zero)) = some update
operation_of (pos (suc (suc zero))) = some delete
operation_of _ = none

abbrev pub on_publish_depth : ℕ → ℕ → Counters → Counters
on_publish_depth start sent c = record c {
  depth_count = c.depth_count + 1;
  depth_total_bytes = c.depth_total_bytes + sent;
  interval_micros = elapsed start c.last_ts;
  last_ts = to_int64 start;
}

abbrev pub on_unresolved_depth : Counters → Counters
on_unresolved_depth c = record c { depth_unresolved_keys = c.depth_unresolved_keys + 1 }

abbrev pub depth_topic : Str → Str
depth_topic topic = codes "depth:" ++ topic

module _ (tickers : Tickers) where
  module _ (serialize : MarketData → Option Str) where
    -- The branch of a ticker with a key.
    unfoldable pub publish_data : Str → MarketData → Times → Dispatcher → Option Dispatcher
    publish_data topic market_data t d = elim (serialize market_data) [
      | none ↦ some (counting on_serialize_error d)
      | some text ↦ do
        sent ← send_frames topic text d
        some (counting (on_publish t.start (length topic + length text)) sent)
    ]

    unfoldable pub publish_known :
        Bool × Str
        → ℤ
        → (tick : Str) → (s : Scalar) → Content s
        → Times
        → Dispatcher
        → Option Dispatcher
    unfolding publish_data set_value_as
    publish_known (false, key) ticker_id tick s value t d = some (counting on_unresolved_topic d)
    publish_known (true, topic) ticker_id tick s value t d =
        publish_data topic
          (record {
            timestamp = t.micros;
            symbol = topic;
            event = tick;
            value = set_value_as s value empty_value;
            contract_id = to_size ticker_id;
          })
          t d

    -- publish<T>(tickerId, tickType, value, timed)
    unfoldable pub publish :
        ℤ → ℕ → (s : Scalar) → Content s → Times → Dispatcher → Option Dispatcher
    unfolding get_subscription_key_from_id publish_known
    publish ticker_id tick_type s value t d = do
      tick ← get_elem? tick_type_names tick_type
      d' ← publish_known (get_subscription_key_from_id ticker_id tickers) ticker_id tick s value t d
      some (counting (on_completed_publish_request t.start t.stop) d')

    unfoldable pub tick_price : ℤ → ℕ → (price : ℕ) → Times → Dispatcher → Option Dispatcher
    unfolding publish
    tick_price ticker_id field price = publish ticker_id field double price

    unfoldable pub tick_size : ℤ → ℕ → (size : ℤ) → Times → Dispatcher → Option Dispatcher
    unfolding publish
    tick_size ticker_id field size = publish ticker_id field int size

    unfoldable pub tick_generic : ℤ → ℕ → (value : ℕ) → Times → Dispatcher → Option Dispatcher
    unfolding publish
    tick_generic ticker_id tick_type value = publish ticker_id tick_type double value

    unfoldable pub tick_string : ℤ → ℕ → Str → Times → Dispatcher → Option Dispatcher
    unfolding publish
    tick_string ticker_id tick_type value = publish ticker_id tick_type string value

  module _ (serialize : Depth → Option Str) where
    unfoldable pub publish_known_depth : Bool × Str → Depth → Times → Dispatcher → Option Dispatcher
    publish_known_depth (false, key) depth t d = some (counting on_unresolved_depth d)
    publish_known_depth (true, topic) depth t d =
        elim (serialize (record depth { symbol = topic })) [
          | none ↦ some (counting on_serialize_error d)
          | some text ↦ do
            sent ← send_frames (depth_topic topic) text d
            some (
                counting (on_publish_depth t.start (length (depth_topic topic) + length text)) sent)
        ]

    unfoldable pub publish_depth :
        ℤ
        → (side level operation : ℤ) → (price : ℕ) → (size : ℤ) → Times
        → (mm : Str) → Dispatcher
        → Option Dispatcher
    unfolding get_subscription_key_from_id publish_known_depth
    publish_depth ticker_id side level operation price size t mm d = do
      d' ←
          publish_known_depth (get_subscription_key_from_id ticker_id tickers)
            (record {
              timestamp = t.micros;
              symbol = [];
              price = price;
              size = to_size size;
              level = to_size level % 2 ^ 32;
              mm = mm;
              contract_id = to_size ticker_id;
              side = side_of side;
              operation = operation_of operation;
            })
            t d
      some (counting (on_completed_publish_request t.start t.stop) d')

    unfoldable pub update_mkt_depth :
        ℤ
        → (position operation side : ℤ) → (price : ℕ) → (size : ℤ) → Times
        → Dispatcher
        → Option Dispatcher
    unfolding publish_depth
    update_mkt_depth id position operation side price size t =
        publish_depth id side position operation price size t (codes "L1")

    unfoldable pub update_mkt_depth_l2 :
        ℤ
        → (position : ℤ) → (market_maker : Str) → (operation side : ℤ) → (price : ℕ) → (size : ℤ)
        → Times
        → Dispatcher
        → Option Dispatcher
    unfolding publish_depth
    update_mkt_depth_l2 id position market_maker operation side price size t =
        publish_depth id side position operation price size t market_maker
