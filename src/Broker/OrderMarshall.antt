-- ===== src/Broker/OrderMarshall.antt =====
-- Orders between proto::ib and the broker's API (ib/api966/marshall_order.cpp).
use atp.Common.{ℕ, Bool, true, false, not, Option, none, some, [], if◌then◌else◌, ◌%◌, ◌^◌}
use atp.Common.Int.{ℤ, pos, to_int64, to_int32, to_size}
use atp.Common.Text.{Str, codes, same}
use atp.Broker.Messages.{
  get_or, Action, buy, sell, sshort, TimeInForce, day, gtc, ioc, empty_order, is_initialized_order,
  Money, amount_of,
}
use atp.Broker.Messages

-- The vendor's Order.
pub record Order : Type 0 where
  pub order_id : ℤ
  pub order_ref : Str
  pub action : Str
  pub total_quantity : ℤ
  pub order_type : Str
  pub lmt_price : ℕ
  pub aux_price : ℕ
  pub all_or_none : Bool
  pub min_qty : ℤ
  pub outside_rth : Bool
  pub tif : Str

abbrev pub action_code : Action → Str
action_code buy = codes "BUY"
action_code sell = codes "SELL"
action_code sshort = codes "SSHORT"

abbrev pub tif_code : TimeInForce → Str
tif_code day = codes "DAY"
tif_code gtc = codes "GTC"
tif_code ioc = codes "IOC"

-- The order after the message is copied.
unfoldable pub filled_order : Order → Messages.Order → Order
filled_order o p = record o {
  order_id = to_int64 (get_or p.id 0);
  order_ref = get_or p.ref [];
  action = action_code (get_or p.action buy);
  total_quantity = pos (get_or p.quantity 0);
  all_or_none = get_or p.all_or_none o.all_or_none;
  min_qty = elim p.min_quantity [ none ↦ o.min_qty | some n ↦ to_int32 n ];
  outside_rth = get_or p.outside_rth o.outside_rth;
  tif = tif_code (get_or p.time_in_force ioc);
}

-- operator<<(Order&, const proto::ib::Order&)
unfoldable pub order_from_proto : Order → Messages.Order → Bool × Order
unfolding filled_order
order_from_proto o p = if not (is_initialized_order p) then (false, o) else (true, filled_order o p)

abbrev pub action_read : Str → Option Action
action_read s =
    if same s (codes "BUY")
    then some buy
    else if same s (codes "SELL")
    then some sell
    else if same s (codes "SSHORT")
    then some sshort
    else none

abbrev pub tif_read : Str → Option TimeInForce
tif_read s =
    if same s (codes "DAY")
    then some day
    else if same s (codes "GTC")
    then some gtc
    else if same s (codes "IOC")
    then some ioc
    else none

-- operator<<(proto::ib::Order&, const Order&), which always returns true.
unfoldable pub order_to_proto : Order → Messages.Order
order_to_proto o = record empty_order {
  id = some (to_size o.order_id);
  ref = some o.order_ref;
  action = action_read o.action;
  quantity = some (to_size o.total_quantity % 2 ^ 32);
  all_or_none = some o.all_or_none;
  min_quantity = some (to_size o.min_qty % 2 ^ 32);
  outside_rth = some o.outside_rth;
  time_in_force = tif_read o.tif;
}

-- proto::ib::MarketOrder, LimitOrder and StopLimitOrder: what each adds to its order.
pub data Priced : Type 0 where
  market_order : Messages.Order → Priced
  limit_order : Messages.Order → (limit_price : Option Money) → Priced
  stop_limit_order : Messages.Order → (limit_price stop_price : Option Money) → Priced

abbrev pub order_of : Priced → Messages.Order
order_of (market_order p) = p
order_of (limit_order p limit_price) = p
order_of (stop_limit_order p limit_price stop_price) = p

abbrev pub with_prices : Priced → Order → Order
with_prices (market_order p) o = o
with_prices (limit_order p limit_price) o = record o { lmt_price = amount_of limit_price }
with_prices (stop_limit_order p limit_price stop_price) o = record o {
  lmt_price = amount_of limit_price;
  aux_price = amount_of stop_price;
}

-- operator<<(Order&, const proto::ib::MarketOrder&), and those of the other two.
unfoldable pub priced_from_proto : Order → Priced → Bool × Order
unfolding order_from_proto
priced_from_proto o p =
    let (filled, o') = order_from_proto o (order_of p) in
    if filled then (true, with_prices p o') else (false, o')

abbrev price : ℕ → Option Money
price amount = some (record { amount = some amount; currency = none })

-- operator<<(proto::ib::MarketOrder&, const Order&), and those of the other two.
unfoldable pub market_to_proto : Order → Priced
unfolding order_to_proto
market_to_proto o = market_order (order_to_proto o)

unfoldable pub limit_to_proto : Order → Priced
unfolding order_to_proto
limit_to_proto o = limit_order (order_to_proto o) (price o.lmt_price)

unfoldable pub stop_limit_to_proto : Order → Priced
unfolding order_to_proto
stop_limit_to_proto o = stop_limit_order (order_to_proto o) (price o.lmt_price) (price o.aux_price)
