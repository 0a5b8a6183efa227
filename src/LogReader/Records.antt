-- ===== src/LogReader/Records.antt =====
-- How a record of a log becomes a message (service/LogReader.cpp): `operator<<` of MarketData and of
-- MarketDepth. What it has set when it returns false is not read by its caller.
use atp.Common.{zero, suc, ◌^◌, ◌%◌, Option, none, some, [], ◌∷◌, ◌++◌}
use atp.Common.Int.{ℤ, pos, to_size, to_int64}
use atp.Common.Map.{Map, find}
use atp.Common.Eq.{int_eq}
use atp.Common.Text.{Str, str_eq, codes}
use atp.Historian.Messages.{
  Value, ValueType, type_double, type_int, type_string, type_timestamp, empty_value, MarketData,
  MarketDepth, Side, ask, bid, DepthOperation, insert, update, delete,
}
use atp.LogReader.{Reading, ok, ◌>>=◌, fatal, found, Log, Casts, get_field}

-- ticker_id_symbol_map_t, and a row of event_value_map.
abbrev pub Symbols : Type 0
Symbols = Map ℤ Str

abbrev pub EventType : Type 0
EventType = Str × ValueType

abbrev pub event_value_map : Map Str EventType
event_value_map =
    (codes "tickPrice", (codes "price", type_double))
    ∷ (codes "tickPrice/CLOSE", (codes "price", type_double))
    ∷ (codes "tickPrice/BID", (codes "price", type_double))
    ∷ (codes "tickPrice/ASK", (codes "price", type_double))
    ∷ (codes "tickPrice/LAST", (codes "price", type_double))
    ∷ (codes "tickSize", (codes "size", type_int))
    ∷ (codes "tickSize/BID_SIZE", (codes "size", type_int))
    ∷ (codes "tickSize/ASK_SIZE", (codes "size", type_int))
    ∷ (codes "tickSize/LAST_SIZE", (codes "size", type_int))
    ∷ (codes "tickString", (codes "value", type_string))
    ∷ (codes "tickString/LAST_TIMESTAMP", (codes "value", type_timestamp))
    ∷ []

unfoldable pub get_event_type : Str → Reading EventType
unfolding find
get_event_type event = found (find event event_value_map)

unfoldable pub code_to_symbol : ℤ → Symbols → Reading Str
unfolding find
code_to_symbol code symbols = found (find code symbols)

-- The switch on the type of the event.
unfoldable pub read_value : Casts → Log → EventType → Reading Value
unfolding get_field
read_value casts log (field, type_int) = do
  value ← fatal (get_field casts.to_int log field)
  ok (record empty_value { type = type_int; int_value = value })
read_value casts log (field, type_double) = do
  value ← fatal (get_field casts.to_double log field)
  ok (record empty_value { type = type_double; double_value = value })
read_value casts log (field, type_string) = do
  value ← fatal (get_field some log field)
  ok (record empty_value { type = type_string; string_value = value })
read_value casts log (field, type_timestamp) = do
  value ← fatal (get_field casts.to_timer log field)
  ok (record empty_value { type = type_timestamp; timestamp_value = to_int64 value })

-- The value of an event, which is left unset where the log has no "event".
unfoldable pub read_event_value : Casts → Log → Str → Reading Value
unfolding find get_event_type read_value
read_event_value casts log event = elim (find (codes "event") log) [
  | none ↦ ok empty_value
  | some method ↦ get_event_type (method ++ (b'/' ∷ event)) >>= read_value casts log
]

-- operator<<(MarketData&, log)
unfoldable pub read_market_data : Casts → Symbols → Log → Reading MarketData
unfolding get_field code_to_symbol read_event_value
read_market_data casts symbols log = do
  ts ← get_field casts.to_timer log (codes "ts_utc")
  code ← fatal (get_field casts.to_long log (codes "tickerId"))
  symbol ← fatal (code_to_symbol code symbols)
  event ← fatal (get_field some log (codes "field"))
  value ← read_event_value casts log event
  ok (record {
    timestamp = ts;
    symbol = symbol;
    event = event;
    value = value;
    contract_id = to_size code;
  })

-- The switches set a known number, and leave the default at another.
abbrev pub side_of : ℤ → Side
side_of (pos (suc zero)) = bid
side_of _ = ask

abbrev pub operation_of : ℤ → DepthOperation
operation_of (pos (suc zero)) = update
operation_of (pos (suc (suc zero))) = delete
operation_of _ = insert

-- The market maker: a log without one has "L1" set, and then the empty text.
abbrev pub market_maker : Option Str → Str
market_maker none = []
market_maker (some mm) = mm

-- operator<<(MarketDepth&, log)
unfoldable pub read_market_depth : Casts → Symbols → Log → Reading MarketDepth
unfolding get_field code_to_symbol find
read_market_depth casts symbols log = do
  ts ← get_field casts.to_timer log (codes "ts_utc")
  code ← get_field casts.to_long log (codes "id")
  symbol ← code_to_symbol code symbols
  side ← get_field casts.to_int log (codes "side")
  operation ← get_field casts.to_int log (codes "operation")
  level ← get_field casts.to_int log (codes "position")
  price ← get_field casts.to_double log (codes "price")
  size ← get_field casts.to_int log (codes "size")
  ok (record {
    timestamp = ts;
    symbol = symbol;
    side = side_of side;
    price = price;
    size = to_size size;
    operation = operation_of operation;
    level = to_size level % 2 ^ 32;
    mm = market_maker (find (codes "marketMaker") log);
    contract_id = to_size code;
  })
