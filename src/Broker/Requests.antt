-- ===== src/Broker/Requests.antt =====
-- The requests to the broker (ib/api966/ApiMessages.hpp, ib/ProtoBufferApiMessage.hpp): what callApi
-- does with each. `print_double` is `<<` of a double; `new_contract` and `new_order` are what the
-- vendor's constructors make. callApi stamps the message first, which no handler reads.
use atp.Common.{ℕ, Bool, true, false, ◌&&◌, Option, none, some, List, [], ◌∷◌, ◌++◌, if◌then◌else◌}
use atp.Common.Int.{ℤ, pos, is_positive, to_int64}
use atp.Common.Text.{Str, codes}
use atp.Broker.Messages.{
  get_or, is_set, Money, empty_contract, is_initialized_contract, is_initialized_money,
  is_initialized_order, contract_of,
}
use atp.Broker.Messages
use atp.Broker.ContractMarshall.{contract_from_proto}
use atp.Broker.OrderMarshall.{
  Order, Priced, market_order, limit_order, stop_limit_order, order_of, priced_from_proto,
}
use atp.Tickers.Registry.{Contract, Tickers, register_contract}

-- A message without what the headers carry. An order that is not set is empty.
pub data Body : Type 0 where
  request_contract_details : (request_id : Option ℕ) → (contract : Option Messages.Contract) → Body
  request_market_data :
      (contract : Option Messages.Contract)
      → (tick_types : Option Str) → (snapshot : Option Bool) → Body
  cancel_market_data : (contract : Option Messages.Contract) → Body
  request_market_depth : (contract : Option Messages.Contract) → (rows : Option ℕ) → Body
  cancel_market_depth : (contract : Option Messages.Contract) → Body
  cancel_order : (order_id : Option ℕ) → Body
  place_order : Priced → Body

pub record Request : Type 0 where
  pub timestamp : Option ℕ
  pub message_id : Option ℕ
  pub body : Body

abbrev pub is_initialized_option : Option Messages.Contract → Bool
is_initialized_option none = false
is_initialized_option (some p) = is_initialized_contract p

abbrev pub is_initialized_price : Option Money → Bool
is_initialized_price m = is_set m && is_initialized_money m

abbrev pub is_initialized_priced : Priced → Bool
is_initialized_priced (market_order p) = is_initialized_order p
is_initialized_priced (limit_order p l) = is_initialized_order p && is_initialized_price l
is_initialized_priced (stop_limit_order p l s) =
    is_initialized_order p && (is_initialized_price l && is_initialized_price s)

abbrev pub is_initialized_body : Body → Bool
is_initialized_body (request_contract_details id c) = is_set id && is_initialized_option c
is_initialized_body (request_market_data c tick_types snapshot) = is_initialized_option c
is_initialized_body (cancel_market_data c) = is_initialized_option c
is_initialized_body (request_market_depth c rows) = is_initialized_option c
is_initialized_body (cancel_market_depth c) = is_initialized_option c
is_initialized_body (cancel_order id) = is_set id
is_initialized_body (place_order p) = is_initialized_priced p

-- IsInitialized of the message.
unfoldable pub is_initialized : Request → Bool
is_initialized r = is_set r.timestamp && (is_set r.message_id && is_initialized_body r.body)

-- The calls of the vendor's EClient. Ids are long.
pub data Call : Type 0 where
  req_contract_details : ℤ → Contract → Call
  req_mkt_data : ℤ → Contract → Str → Bool → Call
  cancel_mkt_data : ℤ → Call
  req_mkt_depth : ℤ → Contract → ℕ → Call
  cancel_mkt_depth : ℤ → Call
  cancel_the_order : ℤ → Call
  place_the_order : ℤ → Contract → Order → Call

-- The registry of contracts, and the calls made so far.
pub record Gateway : Type 0 where
  pub tickers : Tickers
  pub calls : List Call

abbrev pub made : Call → Gateway → Gateway
made call g = record g { calls = g.calls ++ (call ∷ []) }

abbrev pub order_type_of : Priced → Str
order_type_of (market_order p) = codes "MKT"
order_type_of (limit_order p l) = codes "LMT"
order_type_of (stop_limit_order p l s) = codes "STPLMT"

-- The id of the contract, as the request's.
abbrev pub request_id_of : Option Messages.Contract → ℤ
request_id_of p = to_int64 (get_or (get_or p empty_contract).id 0)

unfoldable pub marshalled : (new_contract : Contract) → Option Messages.Contract → Bool × Contract
unfolding contract_from_proto
marshalled new_contract p = contract_from_proto new_contract (get_or p empty_contract)

-- The contract is registered, and the request is made if the registry gives a positive id.
unfoldable pub registered_call :
    (print_double : ℕ → Str) → Bool × Contract → (Contract → Call) → Gateway → Bool × Gateway
unfolding register_contract
registered_call print_double (false, c) call g = (false, g)
registered_call print_double (true, c) call g =
    let (ticker_id, tickers) = register_contract print_double c g.tickers in
    let registered = record g { tickers = tickers } in
    if is_positive ticker_id then (true, made (call c) registered) else (false, registered)

-- MarketOrder, LimitOrder and StopLimitOrder; the contract is read after the order.
unfoldable pub placed :
    (new_contract : Contract) → (new_order : Order) → Priced → Gateway → Bool × Gateway
unfolding priced_from_proto contract_from_proto
placed new_contract new_order p g =
    let (filled, order) = priced_from_proto new_order p in
    let (known, contract) = contract_from_proto new_contract (contract_of (order_of p)) in
    if filled && known
    then (
      true,
      made
          (place_the_order (to_int64 (get_or (order_of p).id 0)) contract
            (record order { order_type = order_type_of p }))
          g,
    )
    else (false, g)

module _ (print_double : ℕ → Str) (new_contract : Contract) (new_order : Order) where
  unfoldable pub call_api : Body → Gateway → Bool × Gateway
  unfolding marshalled registered_call placed
  call_api (request_contract_details id p) g =
      let (known, contract) = marshalled new_contract p in
      if known
      then (true, made (req_contract_details (pos (get_or id 0)) contract) g)
      else (false, g)
  call_api (request_market_data p tick_types snapshot) g =
      registered_call print_double (marshalled new_contract p)
        (λ c. req_mkt_data (request_id_of p) c (get_or tick_types []) (get_or snapshot false)) g
  call_api (cancel_market_data p) g = (true, made (cancel_mkt_data (request_id_of p)) g)
  call_api (request_market_depth p rows) g =
      registered_call print_double (marshalled new_contract p)
        (λ c. req_mkt_depth (request_id_of p) c (get_or rows 20)) g
  call_api (cancel_market_depth p) g = (true, made (cancel_mkt_depth (request_id_of p)) g)
  call_api (cancel_order id) g = (true, made (cancel_the_order (to_int64 (get_or id 0))) g)
  call_api (place_order p) g = placed new_contract new_order p g
