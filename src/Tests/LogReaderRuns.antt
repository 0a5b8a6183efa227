-- ===== src/Tests/LogReaderRuns.antt =====
-- The log reader at concrete inputs: an action that names a ticker id, and a price of it.
use atp.Common.{ℕ, ◌≡◌, ◌≢◌, refl, true, none, some, List, [], ◌∷◌, arith}
use atp.Common.Int.{pos}
use atp.Common.Map.{find, has}
use atp.Common.Eq.{int_eq}
use atp.Common.Text.{Str, str_eq, codes, value_from}
use atp.Historian.Messages.{MarketData}
use atp.LogReader.{ok, Log, Casts, get_field}
use atp.LogReader.Lines.{line_to_record}
use atp.LogReader.Actions.{is_action, symbol_from_contract}
use atp.LogReader.Scan.{Settings, Scan, neg_infin, lasting, process, market_data}
use atp.LogReader.Safety.{IsGood}
use atp.LogReader.Safety.Loop.{process-IsGood}
use atp.LogReader.Known.{IsNaming}
use atp.LogReader.Parsing.{joined, find-line_to_record}
use atp.LogReader.Skipped.{IsUnsupported}
use atp.LogReader.Delivered.{price_data, IsPrice}

abbrev casts : Casts
casts = record {
  to_timer = λ s. some (value_from 0 s);
  to_long = λ s. some (pos (value_from 0 s));
  to_int = λ s. some (pos (value_from 0 s));
  to_double = λ s. some (value_from 0 s);
}

-- At noon, with no bounds.
abbrev settings : Settings
settings = record {
  casts = casts;
  eastern = λ t. 43200000000;
  rth = true;
  duration = lasting 60000000;
  start = neg_infin;
}

abbrev action_line : Str
action_line = codes "action=reqMktData,id=42,contract=symbol:AAPL;secType:STK"

abbrev price_line : Str
price_line = codes "ts_utc=1331000000000000,event=tickPrice,tickerId=42,field=LAST,price=530"

abbrev last_price : MarketData
last_price = price_data 1331000000000000 (pos 42) (codes "AAPL.STK") (codes "LAST") 530

-- What the reader gives for the two lines.
abbrev read : Scan
read = record {
  symbols = (pos 42, codes "AAPL.STK") ∷ [];
  unsupported = [];
  matched = 1;
  first = none;
  current = some 1331000000000000;
  visited = market_data last_price ∷ [];
}

two_lines : process settings (some (action_line ∷ price_line ∷ [])) [] [] ≡ ok read
unfolding process
two_lines = refl

process-IsGood_example : IsGood settings read
process-IsGood_example =
    process-IsGood settings (some (action_line ∷ price_line ∷ [])) [] [] read two_lines

-- A price that is above, then below.
abbrev id_pair : Str × Str
id_pair = (codes "id", codes "42")

abbrev other_pairs : List (Str × Str)
other_pairs = (codes "price", codes "530") ∷ (codes "price", codes "a=b") ∷ []

equals_not_comma : ◌≢◌ {A = ℕ} b'=' b','
equals_not_comma = ground arith

find-line_to_record_example :
    find (codes "price") (line_to_record (joined b'=' b',' id_pair other_pairs) b'=' b',')
    ≡ some (codes "a=b")
find-line_to_record_example =
    find-line_to_record b'=' b',' (codes "price") id_pair other_pairs equals_not_comma
      (record { whole_name = refl; name = refl; value = refl })
      (
        record { whole_name = refl; name = refl; value = refl },
        (record { whole_name = refl; name = refl; value = refl }, tt),
      )

abbrev action : Log
action = line_to_record action_line b'=' b','

action-IsNaming : IsNaming casts action (pos 42) (codes "AAPL.STK")
unfolding line_to_record get_field symbol_from_contract
action-IsNaming = record {
  text = codes "symbol:AAPL;secType:STK";
  at_id = refl;
  at_contract = refl;
  at_symbol = refl;
}

-- A line of market depth.
abbrev depth : Log
depth = line_to_record (codes "event=updateMktDepth,id=42,side=1") b'=' b','

depth-IsUnsupported : IsUnsupported depth (codes "updateMktDepth")
unfolding line_to_record is_action find has
depth-IsUnsupported = record { no_action = refl; at_event = refl; no_type = refl }

abbrev price : Log
price = line_to_record price_line b'=' b','

price-IsPrice : IsPrice casts read.symbols price last_price
unfolding line_to_record is_action find has get_field
price-IsPrice = record {
  code = pos 42;
  method = codes "tickPrice";
  price = 530;
  is = refl;
  no_action = refl;
  at_time = refl;
  at_id = refl;
  at_symbol = refl;
  at_field = refl;
  at_event = refl;
  supported = refl;
  typed = refl;
  at_price = refl;
}
