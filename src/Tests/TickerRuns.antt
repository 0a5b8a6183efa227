-- ===== src/Tests/TickerRuns.antt =====
-- Tickers at concrete inputs.
use atp.Common.{ℕ, ◌≡◌, refl, ◌<◌, ◌^◌, false, some, [], map, arith}
use atp.Common.Int.{pos}
use atp.Common.Map.{find}
use atp.Common.Text.{Str, codes}
use atp.Tickers.Code.{
  symbol_to_ticker_id, symbol_from_ticker_id, is_ticker_id_for_option, toupper,
  symbol_from-symbol_to,
}
use atp.Tickers.Registry.{Contract, Tickers, no_tickers, register_contract}
use atp.Tickers.Registry.Keyed.{Agree}

symbol_from-symbol_to_example :
    (n : ℕ) × (symbol_to_ticker_id (codes "AAPl") ≡ some (pos n))
    × (n < 2 ^ 31)
    × (is_ticker_id_for_option n ≡ false)
    × (symbol_from_ticker_id (pos n) ≡ map toupper (codes "AAPl"))
symbol_from-symbol_to_example =
    symbol_from-symbol_to (codes "AAPl") (omega arith) (unfold toupper in refl)

-- Doubles are printed as nothing here.
abbrev print_nothing : ℕ → Str
print_nothing bits = []

abbrev apple : Contract
apple = record {
  con_id = pos 2;
  symbol = codes "AAPL";
  local_symbol = [];
  sec_id_type = [];
  sec_id = [];
  sec_type = codes "STK";
  strike = 0;
  right = [];
  exchange = codes "SMART";
  primary_exchange = [];
  include_expired = false;
  expiry = [];
  multiplier = [];
  currency = codes "USD";
}

-- A contract without an id.
abbrev google : Contract
google = record apple { con_id = pos 0; symbol = codes "GOOG" }

no_tickers-Agree : Agree no_tickers
unfolding Agree find
no_tickers-Agree key id h = ground arith

abbrev with_apple : Tickers
with_apple = (register_contract print_nothing apple no_tickers).1
