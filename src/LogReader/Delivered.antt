-- ===== src/LogReader/Delivered.antt =====
-- The prices that LogReader::Process delivers.
use atp.Common.{ℕ, ◌+◌, ◌≡◌, refl, ap, true, false, some, [], ◌∷◌, ◌++◌}
use atp.Common.Int.{ℤ, to_size}
use atp.Common.Eq.{int_eq}
use atp.Common.Map.{find, has}
use atp.Common.Text.{Str, str_eq, codes}
use atp.Historian.Messages.{MarketData, type_double, empty_value}
use atp.LogReader.{ok, Log, Casts, get_field}
use atp.LogReader.Records.{
  Symbols, event_value_map, read_market_data, code_to_symbol, read_event_value, get_event_type,
  read_value,
}
use atp.LogReader.Actions.{is_action, is_supported}
use atp.LogReader.Scan.{
  Settings, Scan, market_data, is_trading, is_before, is_longer, first_of, as_ptime, get_timestamp,
  check_time, deliver, limit, clock, check_event, process_record,
}

-- A price as the reader delivers it.
abbrev pub price_data : (ts : ℕ) (code : ℤ) (symbol field : Str) (price : ℕ) → MarketData
price_data ts code symbol field price = record {
  timestamp = ts;
  symbol = symbol;
  event = field;
  value = record empty_value { type = type_double; double_value = price };
  contract_id = to_size code;
}

-- The record has a time, a ticker id that is known, and a price that is read.
pub record IsPrice (casts : Casts) (symbols : Symbols) (log : Log) (d : MarketData) : Type 0 where
  pub code : ℤ
  pub method : Str
  pub price : ℕ
  pub is : price_data d.timestamp code d.symbol d.event price ≡ d
  pub no_action : is_action log ≡ false
  pub at_time : get_field casts.to_timer log (codes "ts_utc") ≡ ok d.timestamp
  pub at_id : get_field casts.to_long log (codes "tickerId") ≡ ok code
  pub at_symbol : find code symbols ≡ some d.symbol
  pub at_field : get_field some log (codes "field") ≡ ok d.event
  pub at_event : find (codes "event") log ≡ some method
  pub supported : has method event_value_map ≡ true
  pub typed : find (method ++ (b'/' ∷ d.event)) event_value_map ≡ some (codes "price", type_double)
  pub at_price : get_field casts.to_double log (codes "price") ≡ ok price

-- The time is one that is read, and the duration is not over.
pub record IsDue (set : Settings) (ts : ℕ) (s : Scan) : Type 0 where
  pub trading : is_trading set (as_ptime ts) ≡ true
  pub started : is_before (as_ptime ts) set.start ≡ false
  pub lasting :
      is_longer
        (some (as_ptime ts))
        (first_of set (record s { current = some (as_ptime ts) }))
        set.duration
      ≡ false

read_event_value-IsPrice :
    (casts : Casts) (symbols : Symbols) (log : Log) (d : MarketData)
    (p : IsPrice casts symbols log d)
    → read_event_value casts log d.event
      ≡ ok (record empty_value { type = type_double; double_value = p.price })
unfolding read_event_value get_event_type read_value
read_event_value-IsPrice casts symbols log d p =
    rw (read_event_value, p.at_event, get_event_type, p.typed, read_value, p.at_price) refl

read_market_data-IsPrice :
    (casts : Casts) (symbols : Symbols) (log : Log) (d : MarketData)
    → IsPrice casts symbols log d
    → read_market_data casts symbols log ≡ ok d
unfolding read_market_data code_to_symbol
read_market_data-IsPrice casts symbols log d p =
    rw
      (
        read_market_data,
        p.at_time,
        p.at_id,
        code_to_symbol,
        p.at_symbol,
        p.at_field,
        read_event_value-IsPrice casts symbols log d p,
      )
      (ap ok p.is)

module _ (set : Settings) where
  -- A price of a known ticker id at a time that is read is delivered, and the scan goes on.
  pub process_record-IsPrice :
      (log : Log) (d : MarketData) (s : Scan)
      → IsPrice set.casts s.symbols log d
      → IsDue set d.timestamp s
      → process_record set log s
        ≡ ok (
          true,
          record s {
            matched = s.matched + 1;
            first = first_of set (record s { current = some (as_ptime d.timestamp) });
            current = some (as_ptime d.timestamp);
            visited = s.visited ++ (market_data d ∷ []);
          },
        )
  unfolding process_record check_event check_time clock limit deliver get_timestamp is_supported
  process_record-IsPrice log d s p t =
      let stamped : get_timestamp set log ≡ ok (as_ptime d.timestamp) =
        rw (get_timestamp, p.at_time) refl in
      let counts : is_supported log s.unsupported ≡ (true, s.unsupported) =
        rw (is_supported, p.at_event, p.supported) refl in
      rw
        (
          process_record,
          p.no_action,
          check_event,
          counts,
          check_time,
          stamped,
          t.trading,
          clock,
          t.started,
          limit,
          t.lasting,
          deliver,
          read_market_data-IsPrice set.casts s.symbols log d p,
        )
        (ap
          (λ counted. ok (
            true,
            record s {
              unsupported = counted;
              matched = s.matched + 1;
              first = first_of set (record s { current = some (as_ptime d.timestamp) });
              current = some (as_ptime d.timestamp);
              visited = s.visited ++ (market_data d ∷ []);
            },
          ))
          (ap (λ r. r.1) counts))
