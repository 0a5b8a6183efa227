-- ===== src/Broker/Answers.antt =====
-- The answers of the broker about contracts and orders: ContractDetails of
-- ib/api966/marshall_contract.cpp, ib/ContractEventDispatcher.hpp and .cpp, ib/OrderEventDispatcher.hpp
-- and .cpp, and the wrappers of ib/api966. The two dispatchers count as that of market data does, in
-- counters of their own; none is a fault: an exception of a cast, or no socket to send to.
use atp.Common.{ℕ, ◌+◌, ◌%◌, ◌^◌, Option, none, some, length, if◌then◌else◌, ◌>>=◌}
use atp.Common.Int.{ℤ, pos, to_size}
use atp.Common.Eq.{int_test}
use atp.Common.Text.{Str, codes}
use atp.Contracts
use atp.Broker.Messages
use atp.Broker.Messages.{as_read}
use atp.Broker.ContractMarshall.{contract_to_proto}
use atp.Broker.Dispatch.{
  Dispatcher, Times, counting, on_publish, on_serialize_error, on_completed_publish_request,
  send_frames,
}
use atp.Tickers.Registry.{Contract}

-- The vendor's ContractDetails, and proto::ib::ContractDetails as the code fills it.
pub record ContractDetails : Type 0 where
  pub summary : Contract
  pub market_name : Str
  pub trading_class : Str
  pub min_tick : ℕ
  pub order_types : Str
  pub valid_exchanges : Str
  pub price_magnifier : ℤ
  pub under_con_id : ℤ
  pub long_name : Str
  pub contract_month : Str
  pub industry : Str
  pub category : Str
  pub subcategory : Str
  pub time_zone_id : Str
  pub trading_hours : Str
  pub liquid_hours : Str

pub record DetailsMessage : Type 0 where
  pub id : ℕ
  pub symbol : Str
  pub summary : Messages.Contract
  pub market_name : Str
  pub trading_class : Str
  pub min_tick : ℕ
  pub order_types : Str
  pub valid_exchanges : Str
  pub price_magnifier : ℤ
  pub under_con_id : ℤ
  pub long_name : Str
  pub contract_month : Str
  pub industry : Str
  pub category : Str
  pub subcategory : Str
  pub time_zone_id : Str
  pub trading_hours : Str
  pub liquid_hours : Str

-- operator<<(proto::ib::ContractDetails&, const ContractDetails&), which returns true when no cast throws.
unfoldable pub details_to_proto :
    (cast_int : Str → Option ℤ) (print_double : ℕ → Str) → ContractDetails → Option DetailsMessage
unfolding contract_to_proto
details_to_proto cast_int print_double c = do
  summary ← contract_to_proto cast_int c.summary
  some (record {
    id = to_size c.summary.con_id;
    symbol = Contracts.symbol_from_contract print_double (as_read summary);
    summary = summary;
    market_name = c.market_name;
    trading_class = c.trading_class;
    min_tick = c.min_tick;
    order_types = c.order_types;
    valid_exchanges = c.valid_exchanges;
    price_magnifier = c.price_magnifier;
    under_con_id = c.under_con_id;
    long_name = c.long_name;
    contract_month = c.contract_month;
    industry = c.industry;
    category = c.category;
    subcategory = c.subcategory;
    time_zone_id = c.time_zone_id;
    trading_hours = c.trading_hours;
    liquid_hours = c.liquid_hours;
  })

pub record DetailsResponse : Type 0 where
  pub timestamp : ℕ
  pub message_id : ℕ
  pub details : DetailsMessage

pub record DetailsEnd : Type 0 where
  pub timestamp : ℕ
  pub message_id : ℕ
  pub request_id : ℕ

pub record OrderStatus : Type 0 where
  pub timestamp : ℕ
  pub message_id : ℕ
  pub order_id : ℕ
  pub status : Str
  pub filled : ℕ
  pub remaining : ℕ
  pub avg_fill_price : ℕ
  pub last_fill_price : ℕ
  pub client_id : ℕ
  pub perm_id : ℕ
  pub parent_id : ℕ
  pub why_held : Str

-- publishContractEvent<Proto>(requestId, event) and publish<T>(proto) of the orders: `text` is the
-- serialized message, if it could be, and the topic is the name of its type.
unfoldable pub publish_event :
    (topic : Str) → (text : Option Str) → Times → Dispatcher → Option Dispatcher
publish_event topic text t d = do
  d' ← elim text [
    | none ↦ some (counting on_serialize_error d)
    | some s ↦ do
      sent ← send_frames topic s d
      some (counting (on_publish t.start (length topic + length s)) sent)
  ]
  some (counting (on_completed_publish_request t.start t.stop) d')

abbrev pub response_topic : Str
response_topic = codes "proto.ib.ContractDetailsResponse"

abbrev pub end_topic : Str
end_topic = codes "proto.ib.ContractDetailsEnd"

abbrev pub status_topic : Str
status_topic = codes "proto.ib.OrderStatus"

-- contractDetails(reqId, contractDetails); `now` is the reading that stamps the message.
unfoldable pub contract_details :
    (cast_int : Str → Option ℤ) (print_double : ℕ → Str) (serialize : DetailsResponse → Option Str)
    → ContractDetails
    → (now : ℕ) → Times
    → Dispatcher
    → Option Dispatcher
unfolding details_to_proto publish_event
contract_details cast_int print_double serialize c now t d = do
  details ← details_to_proto cast_int print_double c
  publish_event response_topic
      (serialize (record { timestamp = now; message_id = now; details = details })) t d

-- An int that is stored in a uint32.
abbrev pub to_uint32 : ℤ → ℕ
to_uint32 z = to_size z % 2 ^ 32

-- contractDetailsEnd(reqId)
unfoldable pub contract_details_end :
    (serialize : DetailsEnd → Option Str)
    → (req_id : ℤ) → (now : ℕ) → Times
    → Dispatcher
    → Option Dispatcher
unfolding publish_event
contract_details_end serialize req_id now t d =
    publish_event end_topic
      (serialize (record { timestamp = now; message_id = now; request_id = to_uint32 req_id })) t d

-- onNoContractDefinition(error_code, req_id) of the wrapper of contracts
unfoldable pub on_no_contract_definition :
    (serialize : DetailsEnd → Option Str)
    → (error_code req_id : ℤ) → (now : ℕ) → Times
    → Dispatcher
    → Option Dispatcher
unfolding contract_details_end
on_no_contract_definition serialize error_code req_id now t d =
    contract_details_end serialize req_id now t d

-- What error() does besides its log: it returns, or throws IBAPI::RuntimeError.
pub data Reported : Type 0 where
  returned : Dispatcher → Reported
  thrown : Dispatcher → Reported

-- error(id, errorCode, errorString): 200 calls `no_definition`, which is onNoContractDefinition(errorCode, id),
-- 326 throws, and the other codes are only logged.
unfoldable pub on_error :
    (no_definition : (error_code id : ℤ) → Dispatcher → Option Dispatcher)
    → (id error_code : ℤ) → Dispatcher
    → Option Reported
on_error no_definition id error_code d =
    if int_test error_code (pos 200)
    then (do d' ← no_definition error_code id d; some (returned d'))
    else some (if int_test error_code (pos 326) then thrown d else returned d)

-- orderStatus, whose message is stamped by two readings of the clock.
unfoldable pub order_status :
    (serialize : OrderStatus → Option Str)
    → (order_id : ℤ) → (status : Str) → (filled remaining : ℤ) → (avg_fill_price : ℕ)
    → (perm_id parent_id : ℤ) → (last_fill_price : ℕ) → (client_id : ℤ) → (why_held : Str)
    → (first second : ℕ) → Times
    → Dispatcher
    → Option Dispatcher
unfolding publish_event
order_status serialize order_id status filled remaining avg_fill_price perm_id parent_id
      last_fill_price client_id why_held first second t d =
    publish_event status_topic
      (serialize (record {
        timestamp = first;
        message_id = second;
        order_id = to_size order_id;
        status = status;
        filled = to_uint32 filled;
        remaining = to_uint32 remaining;
        avg_fill_price = avg_fill_price;
        last_fill_price = last_fill_price;
        client_id = to_uint32 client_id;
        perm_id = to_uint32 perm_id;
        parent_id = to_uint32 parent_id;
        why_held = why_held;
      }))
      t d
