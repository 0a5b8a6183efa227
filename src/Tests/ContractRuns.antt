-- ===== src/Tests/ContractRuns.antt =====
-- The keys of contracts at concrete inputs. Doubles are printed as 650 and cast to 7.
use atp.Common.{ℕ, refl, ◌≢◌, true, Option, some, arith}
use atp.Common.Int.{ℤ, pos}
use atp.Common.Text.{Str, codes, value_from}
use atp.Contracts.{stock, option, call, Contract, Parsed, nothing, parse_encoded_symbol, symbol_of}
use atp.Contracts.Keys.{parse_encoded_symbol-option}

abbrev cast_int : Str → Option ℤ
cast_int s = some (pos (value_from 0 s))

abbrev cast_double : Str → Option ℕ
cast_double s = some 7

abbrev print_double : ℕ → Str
print_double bits = codes "650"

abbrev apple : Contract
apple = record {
  type = option;
  symbol = codes "AAPL";
  strike = 7;
  right = call;
  year = pos 2012;
  month = pos 12;
  day = pos 16;
}

abbrev plain_apple : Parsed
plain_apple = record nothing { symbol = some (codes "AAPL"); sec_type = some stock }

stock_not_option : stock ≢ option
stock_not_option = ground arith

parse_encoded_symbol-option_example :
    parse_encoded_symbol cast_int cast_double (symbol_of print_double option apple)
    ≢ some (true, plain_apple)
parse_encoded_symbol-option_example =
    parse_encoded_symbol-option cast_int cast_double print_double apple plain_apple refl refl
