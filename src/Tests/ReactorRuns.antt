-- ===== src/Tests/ReactorRuns.antt =====
-- Queries from another process, and callbacks, at concrete inputs.
use atp.Common.{ℕ, ◌+◌, ◌≡◌, refl, Bool, true, Option, none, some, List, [], ◌∷◌, ap, arith}
use atp.Common.Int.{ℤ, pos}
use atp.Common.Text.{Str, codes, value_from, value-digits, less}
use atp.Historian.Messages.{Record, MarketData, empty_record, empty_value, type_double}
use atp.Historian.Db.{Db}
use atp.Historian.Reactor.{Query, QueryByRange, set_range, client_query, finished, respond}
use atp.Historian.Reactor.Streamed.{IsReading, received, client_query-respond}
use atp.Handling.{Callback, on_double, no_updaters, process_event, dispatched}
use atp.Handling.Bound.{bind_all, process_event-bind_all}
use atp.Tests.Disk.{Disk, disk, entries_from}
use atp.Tests.Coding.{codec}

abbrev cast_uint64 : Str → Option ℕ
cast_uint64 s = some (value_from 0 s)

abbrev cast_int : Str → Option ℤ
cast_int s = some (pos (value_from 0 s))

casts-IsReading : IsReading cast_int cast_uint64
casts-IsReading = record { reads = λ n h. ap some (value-digits 20 n (omega arith)); status = refl }

-- Two records on the disk, of which the visitor refuses the first.
abbrev two_records : Disk
two_records =
    (codes "a", (codec.serialize empty_record).1)
    ∷ (codes "b", (codec.serialize empty_record).1)
    ∷ []

abbrev database : Db Disk
database = record {
  file = codes "db";
  level_db = some two_records;
  writes = 0;
  write_start = 0;
  write_finish = 0;
  write_elapsed = 0;
  write_micros = 0;
}

abbrev range : QueryByRange
range = record { first = codes "a"; last = codes "c" }

abbrev parse_query : Str → Option Query
parse_query frame = some (set_range (codes "tcp://127.0.0.1:6666") range)

abbrev collect : Record → List Str → Bool × List Str
collect r keys = (less (codes "a") r.key, r.key ∷ keys)

no_record : codec.parse (codes "200") ≡ none
no_record = refl

client_query-respond_example :
    client_query cast_int cast_uint64 codec collect
      (respond disk codec (λ sent. true) parse_query true true 1340000000000001 database []).reply
      (received
        (respond disk codec
          (λ sent. true)
          parse_query
          true
          true
          1340000000000001
          database
          []).streamed)
      []
    ≡ finished 1 (codes "b" ∷ codes "a" ∷ [])
unfolding less entries_from
client_query-respond_example =
    client_query-respond codec (λ r. refl) cast_int cast_uint64 casts-IsReading no_record disk
      database two_records refl collect parse_query [] (codes "tcp://127.0.0.1:6666") range
      1340000000000001 refl (omega arith) []

-- The callbacks add to a number; the second one for BID is not kept.
abbrev add_price : ℕ → Callback ℕ ℕ
add_price n ts v s = (true, s + v + n)

abbrev bid : MarketData
bid = record {
  timestamp = 5;
  symbol = codes "AAPL.STK";
  event = codes "BID";
  value = record empty_value { type = type_double; double_value = 30 };
  contract_id = 1;
}

process_event-bind_all_example :
    process_event
      (λ msg. some bid)
      (bind_all
        ((codes "ASK", on_double (add_price 1))
          ∷ (codes "BID", on_double (add_price 2))
          ∷ (codes "BID", on_double (add_price 3))
          ∷ [])
        no_updaters)
      []
      []
      100
    ≡ (dispatched, 132)
process_event-bind_all_example =
    process_event-bind_all (λ msg. some bid)
      ((codes "ASK", on_double (add_price 1))
        ∷ (codes "BID", on_double (add_price 2))
        ∷ (codes "BID", on_double (add_price 3))
        ∷ [])
      [] [] 100
