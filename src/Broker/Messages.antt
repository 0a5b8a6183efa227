-- ===== src/Broker/Messages.antt =====
-- proto::ib::Contract and the orders (proto/ib.proto), with proto::common::Money and Date. A field
-- that is not set is none, and its getter gives the default of the schema.
use atp.Common.{ℕ, Bool, true, false, ◌&&◌, Option, none, some, []}
use atp.Common.Int.{ℤ, pos}
use atp.Common.Text.{Str, codes}
use atp.Contracts.{ContractType, stock, Right, put}
use atp.Contracts

abbrev pub get_or {ℓ} : {A : Type ℓ} → Option A → A → A
get_or none d = d
get_or (some a) d = a

abbrev pub is_set {ℓ} : {A : Type ℓ} → Option A → Bool
is_set none = false
is_set (some a) = true

pub data Currency : Type 0 where
  other : Currency
  usd : Currency

pub record Money : Type 0 where
  pub amount : Option ℕ
  pub currency : Option Currency

pub record Date : Type 0 where
  pub year : Option ℤ
  pub month : Option ℤ
  pub day : Option ℤ

pub record Contract : Type 0 where
  pub id : Option ℕ
  pub symbol : Option Str
  pub type : Option ContractType
  pub exchange : Option Str
  pub local_symbol : Option Str
  pub right : Option Right
  pub strike : Option Money
  pub expiry : Option Date
  pub multiplier : Option ℤ

abbrev pub empty_contract : Contract
empty_contract = record {
  id = none;
  symbol = none;
  type = none;
  exchange = none;
  local_symbol = none;
  right = none;
  strike = none;
  expiry = none;
  multiplier = none;
}

-- IsInitialized: every required field is set, those of the messages inside included.
abbrev pub is_initialized_money : Option Money → Bool
is_initialized_money none = true
is_initialized_money (some m) = is_set m.amount

abbrev pub is_initialized_date : Option Date → Bool
is_initialized_date none = true
is_initialized_date (some d) = is_set d.year && (is_set d.month && is_set d.day)

abbrev pub is_initialized_contract : Contract → Bool
is_initialized_contract p =
    is_set p.id
    && (is_set p.symbol && (is_initialized_money p.strike && is_initialized_date p.expiry))

-- The getters of the fields inside, where a message that is not set reads as an empty one.
abbrev pub amount_of : Option Money → ℕ
amount_of none = 0
amount_of (some m) = get_or m.amount 0

abbrev pub year_of : Option Date → ℤ
year_of none = pos 0
year_of (some d) = get_or d.year (pos 0)

abbrev pub month_of : Option Date → ℤ
month_of none = pos 0
month_of (some d) = get_or d.month (pos 0)

abbrev pub day_of : Option Date → ℤ
day_of none = pos 0
day_of (some d) = get_or d.day (pos 0)

abbrev pub type_of : Contract → ContractType
type_of p = get_or p.type stock

abbrev pub exchange_of : Contract → Str
exchange_of p = get_or p.exchange (codes "SMART")

abbrev pub right_of : Contract → Right
right_of p = get_or p.right put

abbrev pub multiplier_of : Contract → ℤ
multiplier_of p = get_or p.multiplier (pos 100)

pub data Action : Type 0 where
  buy : Action
  sell : Action
  sshort : Action

pub data TimeInForce : Type 0 where
  day : TimeInForce
  gtc : TimeInForce
  ioc : TimeInForce

pub record Order : Type 0 where
  pub id : Option ℕ
  pub ref : Option Str
  pub action : Option Action
  pub contract : Option Contract
  pub quantity : Option ℕ
  pub all_or_none : Option Bool
  pub min_quantity : Option ℕ
  pub outside_rth : Option Bool
  pub time_in_force : Option TimeInForce

abbrev pub empty_order : Order
empty_order = record {
  id = none;
  ref = none;
  action = none;
  contract = none;
  quantity = none;
  all_or_none = none;
  min_quantity = none;
  outside_rth = none;
  time_in_force = none;
}

abbrev pub contract_of : Order → Contract
contract_of p = get_or p.contract empty_contract

abbrev pub is_initialized_order : Order → Bool
is_initialized_order p =
    is_set p.id
    && (is_set p.action
        && (is_set p.contract && (is_initialized_contract (contract_of p) && is_set p.quantity)))

-- The message as the code that makes keys reads it.
abbrev pub as_read : Contract → Contracts.Contract
as_read p = record {
  type = type_of p;
  symbol = get_or p.symbol [];
  strike = amount_of p.strike;
  right = right_of p;
  year = year_of p.expiry;
  month = month_of p.expiry;
  day = day_of p.expiry;
}
