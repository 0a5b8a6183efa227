-- ===== src/Tests/HistorianRuns.antt =====
-- The historian at concrete inputs: a trade of AAPL at 17.5 (the bits of the double), and its depth.
use atp.Common.{◌≡◌, refl, ◌≢◌, true, some, List, [], ◌∷◌, arith}
use atp.Common.Text.{Str, codes}
use atp.Historian.Messages.{
  MarketData, SessionLog, indexed_value, session_log, ib_market_data, empty_record, empty_value,
  wrap, Record,
}
use atp.Historian.Keys.{key_of, index_key, index_key_of}
use atp.Historian.Store.{writer, write_market_data, ok_to_write}
use atp.Historian.Store.Written.{Holds, index_entry, market_data-true}
use atp.Historian.Db.{Db, query}
use atp.Historian.Db.Visited.{always, query-always}
use atp.Tests.Disk.{Disk, disk, put_all, entries_from}
use atp.Tests.Coding.{codec}

abbrev trade : MarketData
trade = record {
  timestamp = 1340000000000000;
  symbol = codes "AAPL.STK";
  event = codes "LAST";
  value = record empty_value { double_value = 4625478292286210048 };
  contract_id = 265598;
}

abbrev session : SessionLog
session = record {
  symbol = codes "AAPL.STK";
  start_timestamp = 10;
  stop_timestamp = 20;
  source = codes "log";
}

not_data : session_log ≢ ib_market_data
not_data = ground arith

not_index : ib_market_data ≢ indexed_value
not_index = ground arith

-- The trade is written to an empty disk.
abbrev written : Disk
written = (writer disk codec ib_market_data trade true []).1

market_data-true_example :
    Holds disk codec ib_market_data (key_of ib_market_data trade) trade written
    × Holds disk codec indexed_value (index_key_of trade) (index_entry trade) written
    × (ok_to_write disk codec (key_of ib_market_data trade) true [] ≡ true)
    × ((j : Str)
        → key_of ib_market_data trade ≢ j
        → index_key_of trade ≢ j
        → disk.read j written ≡ disk.read j [])
market_data-true_example =
    market_data-true disk codec trade true [] refl refl
      (unfold writer in unfold write_market_data in unfold key_of in refl)

abbrev opened : Db Disk
opened = record {
  file = [];
  level_db = some written;
  writes = 1;
  write_start = 0;
  write_finish = 0;
  write_elapsed = 0;
  write_micros = 0;
}

-- The visitor keeps the keys.
abbrev keep_key : Record → List Str → List Str
keep_key r keys = r.key ∷ keys

query-always_example :
    query disk codec (always keep_key) (codes "mkt:A") (codes "mkt:B") opened []
    ≡ (1, key_of ib_market_data trade ∷ [])
unfolding entries_from writer key_of put_all index_key wrap
query-always_example =
    query-always disk codec keep_key (codes "mkt:A") (codes "mkt:B") opened written [] refl

-- A visitor that refuses every record, and one record on the disk.
abbrev one_record : Db Disk
one_record = record opened { level_db = some ((codes "b", (codec.serialize empty_record).1) ∷ []) }
