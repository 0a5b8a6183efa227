-- ===== src/Tickers/Registry.antt =====
-- The registry of contracts and their keys (ib/TickerMap.cpp). A double is its 64 bits.
pub mod Keyed
use atp.Common.{
  ℕ, suc, ◌+◌, Bool, true, false, Option, none, some, List, [], ◌∷◌, length, if◌then◌else◌, ◌>>=◌,
}
use atp.Common.Int.{ℤ, pos, negsuc}
use atp.Common.Eq.{Eq, eq, int_eq, int_test}
use atp.Common.Map.{Map, find, assign}
use atp.Common.Text.{Str, str_eq, same, codes}
use atp.Tickers.Code.{symbol_to_ticker_id, symbol_from_ticker_id}

-- The fields of Contract that clone_contract copies.
pub record Contract : Type 0 where
  pub con_id : ℤ
  pub symbol : Str
  pub local_symbol : Str
  pub sec_id_type : Str
  pub sec_id : Str
  pub sec_type : Str
  pub strike : ℕ
  pub right : Str
  pub exchange : Str
  pub primary_exchange : Str
  pub include_expired : Bool
  pub expiry : Str
  pub multiplier : Str
  pub currency : Str

unfoldable pub clone_contract : Contract → Contract
clone_contract contract = record {
  con_id = contract.con_id;
  symbol = contract.symbol;
  local_symbol = contract.local_symbol;
  sec_id_type = contract.sec_id_type;
  sec_id = contract.sec_id;
  sec_type = contract.sec_type;
  strike = contract.strike;
  right = contract.right;
  exchange = contract.exchange;
  primary_exchange = contract.primary_exchange;
  include_expired = contract.include_expired;
  expiry = contract.expiry;
  multiplier = contract.multiplier;
  currency = contract.currency;
}

abbrev pub dotted : Str → Str → Str
dotted [] t = b'.' ∷ t
dotted (c ∷ s) t = c ∷ dotted s t

-- symbol_from_contract, which always succeeds; `print_double` is `<<` of a double.
unfoldable pub symbol_from_contract : (print_double : ℕ → Str) → Contract → Str
symbol_from_contract print_double c =
    if same c.sec_type (codes "OPT")
    then dotted c.symbol
        (dotted c.sec_type (dotted c.expiry (dotted (print_double c.strike) c.right)))
    else dotted c.symbol c.sec_type

-- The three maps.
pub record Tickers : Type 0 where
  pub symbols : Map ℤ Str
  pub ids : Map Str ℤ
  pub contracts : Map ℤ Contract

-- An id of zero is replaced by the number of contracts and one.
unfoldable pub ticker_id_for : ℤ → Tickers → ℤ
ticker_id_for con_id t = if int_test con_id (pos 0) then pos (length t.contracts + 1) else con_id

unfoldable pub with_contract : ℤ → Str → Contract → Tickers → Tickers
unfolding assign clone_contract
with_contract id symbol c t = record {
  symbols = assign id symbol t.symbols;
  ids = assign symbol id t.ids;
  contracts = assign id (record (clone_contract c) { con_id = id }) t.contracts;
}

-- The branches on what TICKER_ID_SYMBOL_MAP has for the id; -1 is an error.
unfoldable pub registered : Option Str → ℤ → Str → Contract → Tickers → ℤ × Tickers
unfolding with_contract
registered none id symbol c t = (id, with_contract id symbol c t)
registered (some check) id symbol c t = (if same check symbol then id else negsuc 0, t)

unfoldable pub register_contract : (print_double : ℕ → Str) → Contract → Tickers → ℤ × Tickers
unfolding find symbol_from_contract ticker_id_for registered
register_contract print_double c t =
    let id = ticker_id_for c.con_id t in
    registered (find id t.symbols) id (symbol_from_contract print_double c) c t

unfoldable pub get_subscription_key_from_id : ℤ → Tickers → Bool × Str
unfolding find symbol_from_ticker_id
get_subscription_key_from_id id t = elim (find id t.symbols) [
  | none ↦ (false, symbol_from_ticker_id id)
  | some symbol ↦ (true, symbol)
]

-- Without a mapping the key is converted; none is an access out of the array of scales.
unfoldable pub get_ticker_id_from_subscription_key : Str → Tickers → Option (Bool × ℤ)
unfolding find symbol_to_ticker_id
get_ticker_id_from_subscription_key key t = elim (find key t.ids) [
  | none ↦ do id ← symbol_to_ticker_id key; some (false, id)
  | some id ↦ some (true, id)
]

abbrev pub no_tickers : Tickers
no_tickers = record { symbols = []; ids = []; contracts = [] }
