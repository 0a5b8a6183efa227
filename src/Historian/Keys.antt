-- ===== src/Historian/Keys.antt =====
-- The keys of records: `KeyBuilder` and `buildIndexKey` of historian/internal.hpp, with the names
-- of historian/constants.hpp.
pub mod Unique
pub mod Ordered
use atp.Common.{ℕ, [], ◌∷◌, ◌++◌}
use atp.Common.Text.{Str, codes, decimal}
use atp.Historian.Messages.{
  Kind, indexed_value, session_log, ib_market_data, ib_market_depth, Payload, MarketData,
}

abbrev pub entity_session_log : Str
entity_session_log = codes "sessionlog"

abbrev pub entity_ib_market_data : Str
entity_ib_market_data = codes "mkt"

abbrev pub entity_ib_market_depth : Str
entity_ib_market_depth = codes "depth"

abbrev pub index_ib_market_data_by_event : Str
index_ib_market_data_by_event = codes "x/event-value"

-- key << ':' << field
abbrev pub followed_by : Str → Str → Str
followed_by key field = key ++ (b':' ∷ field)

-- KeyBuilder<V>()(symbol, time_micros); there is no key for a value of an index.
unfoldable pub key_at : Kind → Str → ℕ → Str
key_at indexed_value symbol time_micros = []
key_at session_log symbol time_micros =
    followed_by (followed_by entity_session_log symbol) (decimal time_micros)
key_at ib_market_data symbol time_micros =
    followed_by (followed_by entity_ib_market_data symbol) (decimal time_micros)
key_at ib_market_depth symbol time_micros =
    followed_by (followed_by entity_ib_market_depth symbol) (decimal time_micros)

-- KeyBuilder<V>()(value)
unfoldable pub key_of : (t : Kind) → Payload t → Str
unfolding key_at
key_of indexed_value v = []
key_of session_log v =
    followed_by (followed_by (followed_by entity_session_log v.symbol) (decimal v.start_timestamp))
      (decimal v.stop_timestamp)
key_of ib_market_data v = key_at ib_market_data v.symbol v.timestamp
key_of ib_market_depth v = key_at ib_market_depth v.symbol v.timestamp

-- Writer<MarketData>::buildIndexKey(symbol, event, timestamp)
unfoldable pub index_key : Str → Str → ℕ → Str
index_key symbol event timestamp =
    followed_by (followed_by (followed_by index_ib_market_data_by_event symbol) event)
      (decimal timestamp)

-- Writer<MarketData>::buildIndexKey(value)
abbrev pub index_key_of : MarketData → Str
index_key_of v = index_key v.symbol v.event v.timestamp
