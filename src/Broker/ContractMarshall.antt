-- ===== src/Broker/ContractMarshall.antt =====
-- Contracts between proto::ib and the broker's API (ib/api966/marshall_contract.cpp). The vendor's
-- Contract is the record of Tickers/Registry; `cast_int` is boost::lexical_cast<int>.
use atp.Common.{
  ℕ, ltb, Bool, true, false, ◌&&◌, not, Option, none, some, [], ◌∷◌, length, if◌then◌else◌, ◌==◌,
  ◌>>=◌,
}
use atp.Common.Int.{ℤ, pos, negsuc, to_int64, to_size}
use atp.Common.Text.{Str, codes, same}
use atp.Contracts.{ContractType, index, stock, option, Right, call, put, format_expiry, parse_date}
use atp.Broker.Messages.{
  get_or, is_set, Currency, other, usd, Money, Date, empty_contract, is_initialized_contract,
  amount_of, year_of, month_of, day_of, type_of, exchange_of, multiplier_of,
}
use atp.Broker.Messages
use atp.Tickers.Registry.{Contract}

abbrev pub below_hundred : ℤ → Bool
below_hundred (pos n) = ltb n 100
below_hundred (negsuc n) = true

abbrev pub sec_type_of : ContractType → Str
sec_type_of index = codes "IND"
sec_type_of stock = codes "STK"
sec_type_of option = codes "OPT"

abbrev pub right_code : Right → Str
right_code put = codes "P"
right_code call = codes "C"

-- The switch on the type: none is the early return, which leaves `c.secType` assigned.
unfoldable pub is_complete : Messages.Contract → Bool
is_complete p = elim (type_of p) [
  | index ↦ true
  | stock ↦ true
  | option ↦
      if get_or p.id 0 == 0
      then true
      else is_set p.right
        && (is_set p.strike && (is_set p.expiry && not (below_hundred (multiplier_of p))))
]

-- What the fields are after the message is copied; `old` is what the contract had.
abbrev pub right_filled : Option Right → (old : Str) → Str
right_filled none old = old
right_filled (some right) old = right_code right

abbrev pub strike_filled : Option Money → (old : ℕ) → ℕ
strike_filled none old = old
strike_filled (some m) old = get_or m.amount 0

abbrev pub currency_code : Currency → (old : Str) → Str
currency_code other old = old
currency_code usd old = codes "USD"

abbrev pub currency_filled : Option Money → (old : Str) → Str
currency_filled none old = old
currency_filled (some m) old = currency_code (get_or m.currency other) old

unfoldable pub expiry_filled : Option Date → (old : Str) → Str
expiry_filled none old = old
expiry_filled (some d) old =
    format_expiry (get_or d.year (pos 0)) (get_or d.month (pos 0)) (get_or d.day (pos 0))

unfoldable pub filled : Contract → Messages.Contract → Contract
filled c p = record c {
  sec_type = sec_type_of (type_of p);
  con_id = to_int64 (get_or p.id 0);
  symbol = get_or p.symbol [];
  exchange = exchange_of p;
  local_symbol = get_or p.local_symbol c.local_symbol;
  right = right_filled p.right c.right;
  strike = strike_filled p.strike c.strike;
  currency = currency_filled p.strike c.currency;
  expiry = expiry_filled p.expiry c.expiry;
}

-- operator<<(Contract&, const proto::ib::Contract&)
unfoldable pub contract_from_proto : Contract → Messages.Contract → Bool × Contract
unfolding is_complete filled
contract_from_proto c p =
    if not (is_initialized_contract p)
    then (false, c)
    else if not (is_complete p)
    then (false, record c { sec_type = sec_type_of (type_of p) })
    else (true, filled c p)

abbrev pub type_read : Str → Option ContractType
type_read s =
    if same s (codes "IND")
    then some index
    else if same s (codes "STK")
    then some stock
    else if same s (codes "OPT")
    then some option
    else none

abbrev pub right_read : Str → Option Right
right_read s =
    if same s (codes "P") then some put else if same s (codes "C") then some call else none

abbrev pub date_read : Option (ℤ × ℤ × ℤ) → Option Date
date_read none = none
date_read (some (y, m, d)) = some (record { year = some y; month = some m; day = some d })

abbrev pub non_empty : Str → Option Str
non_empty [] = none
non_empty (b ∷ s) = some (b ∷ s)

module _ (cast_int : Str → Option ℤ) where
  -- The date of an expiry of eight characters; none is an exception of a cast.
  unfoldable pub expiry_read : Str → Option (Option Date)
  expiry_read s =
      if length s == 8 then (do date ← parse_date cast_int s; some (date_read date)) else some none

  -- operator<<(proto::ib::Contract&, const Contract&), which always returns true.
  unfoldable pub contract_to_proto : Contract → Option Messages.Contract
  unfolding expiry_read
  contract_to_proto c = do
    expiry ← expiry_read c.expiry
    some (record empty_contract {
      id = some (to_size c.con_id);
      symbol = some c.symbol;
      type = type_read c.sec_type;
      exchange = non_empty c.exchange;
      local_symbol = some c.local_symbol;
      right = right_read c.right;
      strike = some (record {
        amount = some c.strike;
        currency = (if same c.currency (codes "USD") then some usd else none);
      });
      expiry = expiry;
    })
