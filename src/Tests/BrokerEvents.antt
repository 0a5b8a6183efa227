-- ===== src/Tests/BrokerEvents.antt =====
-- What the broker sends at concrete inputs: ticks, contract details and order statuses.
use atp.Common.{ℕ, ◌<◌, ◌≡◌, refl, true, Option, none, some, [], ◌∷◌, ◌++◌, get_elem?, arith}
use atp.Common.Int.{ℤ, pos}
use atp.Common.Map.{find}
use atp.Common.Text.{Str, codes, value_from}
use atp.Contracts
use atp.Contracts.{stock, symbol_of}
use atp.Messaging
use atp.Orders
use atp.Awaiting.Answered.{IsAwaited, HasPlace}
use atp.ContractManager
use atp.ContractManager.{
  handle_contract_details_response, handle_contract_details_end, request_contract_details,
  find_contract, stock_summary,
}
use atp.ContractManager.Details
use atp.Orders.Pending
use atp.Handling.{Updaters, no_updaters, on_double, bind, process_event}
use atp.Historian.Messages.{MarketData, double}
use atp.Broker.Messages
use atp.Broker.Messages.{as_read, empty_contract, usd}
use atp.Broker.Requests.{call_api}
use atp.Broker.ContractMarshall.{contract_from_proto}
use atp.Broker.Subscribed.{Subscription, to_market_data, request_of, call_of}
use atp.Broker.Dispatch.{Dispatcher, Times}
use atp.Broker.Ticks.{price, on_tick, published, handled, tick_message, on_tick-subscribed}
use atp.Broker.Unresolved.{dropped, on_tick-without_id}
use atp.Broker.Answers.{
  ContractDetails, DetailsMessage, details_to_proto, response_topic, end_topic, status_topic,
  contract_details, on_no_contract_definition, on_error, returned, order_status,
}
use atp.Broker.Details.{
  summary_seen, details_seen, contract_details-find_contract, on_error-request,
}
use atp.Broker.Statuses.{Report, status_seen, status_message, order_status-send}
use atp.Tests.BrokerRuns.{print_double, blank, new_order, apple, idle}

abbrev times : Times
times = record { start = 20; stop = 30; micros = 10 }

abbrev dispatcher : Dispatcher
dispatcher = record {
  connected = true;
  sent = [];
  counters = record {
    total_bytes = 0;
    count = 0;
    last_ts = pos 5;
    interval_micros = pos 0;
    serialization_errors = 0;
    unresolved_keys = 0;
    micros = pos 0;
    depth_total_bytes = 0;
    depth_count = 0;
    depth_unresolved_keys = 0;
  };
}

-- Every message is written as one byte.
abbrev write {ℓ} : {A : Type ℓ} → A → Option Str
write a = some (1 ∷ [])

abbrev apple_key : Str
apple_key = Contracts.symbol_from_contract print_double (as_read apple)

abbrev data_of_apple : Subscription
data_of_apple = to_market_data none none

apple_requested :
    (call_api print_double blank new_order (request_of apple data_of_apple) idle).0 ≡ true
unfolding call_api
apple_requested = refl

abbrev last_tick : MarketData
last_tick = tick_message apple_key (pos 96099040) (codes "LAST") double 77 times

abbrev read_last : Str → Option MarketData
read_last s = some last_tick

-- The callback keeps the last price.
abbrev keep_last : Updaters ℕ
keep_last = bind (codes "LAST") (on_double (λ ts v st. (true, v))) no_updaters

on_tick-subscribed_example :
    (on_tick
        (call_api print_double blank new_order (request_of apple data_of_apple) idle).1.tickers
        write
        (pos 96099040)
        4
        (price 77)
        times
        dispatcher
      ≡ some (published times apple_key (1 ∷ []) dispatcher))
    × (process_event read_last keep_last apple_key (1 ∷ []) 0
        ≡ handled keep_last (price 77) (codes "LAST") 10 0)
on_tick-subscribed_example =
    on_tick-subscribed print_double blank new_order apple data_of_apple idle write read_last 4
      (price 77) times dispatcher (codes "LAST") (1 ∷ []) keep_last 0 apple_requested (ground arith)
      (omega arith) refl tt refl refl refl

abbrev google : Messages.Contract
google = record empty_contract { id = some 0; symbol = some (codes "GOOG") }

google_requested :
    (call_api print_double blank new_order (request_of google data_of_apple) idle).0 ≡ true
unfolding call_api
google_requested = refl

on_tick-without_id_example :
    ((call_api print_double blank new_order (request_of google data_of_apple) idle).1.calls
      ≡ idle.calls ++ (call_of (pos 0) (contract_from_proto blank google).1 data_of_apple ∷ []))
    × (on_tick
          (call_api print_double blank new_order (request_of google data_of_apple) idle).1.tickers
          write
          (pos 0)
          4
          (price 77)
          times
          dispatcher
        ≡ some (dropped times dispatcher))
on_tick-without_id_example =
    on_tick-without_id print_double blank new_order google data_of_apple idle write 4 (price 77)
      times dispatcher (codes "LAST") google_requested refl (unfold find in refl) refl

abbrev google_details : ContractDetails
google_details = record {
  summary = record blank {
    con_id = pos 30351181;
    symbol = codes "GOOG";
    sec_type = codes "STK";
    currency = codes "USD";
  };
  market_name = codes "NMS";
  trading_class = codes "NMS";
  min_tick = 0;
  order_types = [];
  valid_exchanges = codes "SMART";
  price_magnifier = pos 1;
  under_con_id = pos 0;
  long_name = codes "GOOGLE INC";
  contract_month = [];
  industry = [];
  category = [];
  subcategory = [];
  time_zone_id = codes "EST";
  trading_hours = [];
  liquid_hours = [];
}

abbrev cast_int : Str → Option ℤ
cast_int s = some (pos (value_from 0 s))

abbrev google_message : DetailsMessage
google_message = record {
  id = 30351181;
  symbol = codes "GOOG.STK";
  summary = record empty_contract {
    id = some 30351181;
    symbol = some (codes "GOOG");
    type = some stock;
    local_symbol = some [];
    strike = some (record { amount = some 0; currency = some usd });
  };
  market_name = codes "NMS";
  trading_class = codes "NMS";
  min_tick = 0;
  order_types = [];
  valid_exchanges = codes "SMART";
  price_magnifier = pos 1;
  under_con_id = pos 0;
  long_name = codes "GOOGLE INC";
  contract_month = [];
  industry = [];
  category = [];
  subcategory = [];
  time_zone_id = codes "EST";
  trading_hours = [];
  liquid_hours = [];
}

google_made : details_to_proto cast_int print_double google_details ≡ some google_message
unfolding details_to_proto symbol_of
google_made = refl

abbrev read_google : Str → Option ContractManager.ContractDetails
read_google s = some (details_seen google_message)

contract_details-find_contract_example :
    (contract_details cast_int print_double write google_details 9 times dispatcher
      ≡ some (published times response_topic (1 ∷ []) dispatcher))
    × ((manager' : ContractManager.Manager) × (handle_contract_details_response read_google
            response_topic
            (1 ∷ [])
            ContractManager.connected_manager
          ≡ Messaging.returned true manager')
        × (find_contract
              (Contracts.symbol_from_contract print_double (as_read google_message.summary))
              manager'
            ≡ some (summary_seen google_message.summary)))
contract_details-find_contract_example =
    contract_details-find_contract cast_int print_double write read_google google_details 9 times
      dispatcher google_message (1 ∷ []) ContractManager.connected_manager google_made refl refl
      refl refl

manager-IsValid : ContractManager.Details.IsValid ContractManager.connected_manager
unfolding IsAwaited HasPlace find
manager-IsValid = record { is_connected = refl; is_awaited = λ key. tt }

abbrev read_end : Str → Option ContractManager.DetailsEnd
read_end s = some (record { request_id = 3 })

on_error-request_example :
    (on_error
        (λ code request. on_no_contract_definition write code request 9 times)
        (pos 3)
        (pos 200)
        dispatcher
      ≡ some (returned (published times end_topic (1 ∷ []) dispatcher)))
    × ((manager' : ContractManager.Manager) × (handle_contract_details_end read_end end_topic
            (1 ∷ [])
            (request_contract_details 3
              (stock_summary (codes "GOOG"))
              ContractManager.connected_manager).1
          ≡ Messaging.returned true manager')
        × (get_elem? manager'.awaited.responses 0 ≡ some (some (record { request_id = 3 })))
        × ((j : ℕ)
            → j < 0
            → get_elem? manager'.awaited.responses j
              ≡ get_elem? ContractManager.connected_manager.awaited.responses j))
on_error-request_example =
    on_error-request write read_end 3 9 times dispatcher (1 ∷ []) (stock_summary (codes "GOOG"))
      ContractManager.connected_manager (omega arith) refl manager-IsValid refl refl

orders-IsValid : Orders.Pending.IsValid Orders.connected_manager
unfolding IsAwaited HasPlace find
orders-IsValid = record { is_connected = refl; is_awaited = λ key. tt }

abbrev report : Report
report = record {
  status = codes "Filled";
  filled = 100;
  remaining = 0;
  avg_fill_price = 5;
  perm_id = pos 8;
  parent_id = pos 0;
  last_fill_price = 5;
  client_id = pos 1;
  why_held = [];
}

abbrev read_status : Str → Option Orders.OrderStatus
read_status s = some (status_seen (status_message 7 report 9 9))

order_status-send_example :
    (order_status write
        (pos 7)
        (codes "Filled")
        (pos 100)
        (pos 0)
        5
        (pos 8)
        (pos 0)
        5
        (pos 1)
        []
        9
        9
        times
        dispatcher
      ≡ some (published times status_topic (1 ∷ []) dispatcher))
    × ((manager' : Orders.Manager) × (Orders.handle_order_status read_status status_topic
            (1 ∷ [])
            (Orders.send (Orders.market_order 7) Orders.connected_manager).1
          ≡ Messaging.returned true manager')
        × (get_elem? manager'.awaited.responses 0
            ≡ some (some (status_seen (status_message 7 report 9 9))))
        × ((j : ℕ)
            → j < 0
            → get_elem? manager'.awaited.responses j
              ≡ get_elem? Orders.connected_manager.awaited.responses j))
order_status-send_example =
    order_status-send write read_status (Orders.market_order 7) report 9 9 times dispatcher (1 ∷ [])
      Orders.connected_manager (omega arith) (omega arith) (omega arith) refl orders-IsValid refl
      refl
