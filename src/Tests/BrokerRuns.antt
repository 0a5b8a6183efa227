-- ===== src/Tests/BrokerRuns.antt =====
-- Requests to the broker at concrete inputs: contracts, orders and the connector's loop.
use atp.Common.{ℕ, ◌≡◌, refl, true, false, Option, none, some, List, [], ◌∷◌, arith}
use atp.Common.Int.{ℤ, pos}
use atp.Common.Text.{Str, codes, value_from, value-digits}
use atp.Contracts
use atp.Contracts.{option, stock, call, symbol_of, format_option_contract_key, format_expiry}
use atp.Contracts.Dates.{Casts}
use atp.Broker.Messages
use atp.Broker.Messages.{usd, empty_contract, as_read, buy, gtc, empty_order}
use atp.Broker.ContractMarshall.{contract_from_proto, contract_to_proto}
use atp.Broker.ContractRead.{IsBlank, written, contract_to_proto-contract_from_proto}
use atp.Broker.Key.{symbol_from_contract-contract_from_proto}
use atp.Broker.OrderMarshall.{Order, Priced, stop_limit_order, priced_from_proto}
use atp.Broker.OrderRead.{written_priced, to_proto_like, to_proto_like-priced_from_proto}
use atp.Broker.Requests.{Gateway, Request, cancel_order, place_order, call_api}
use atp.Broker.Calls.{Once, call_api-Once}
use atp.Broker.Connector.{Kind, Connector, Frames, handle_inbound, create_message, processed}
use atp.Broker.Served.{Message, key, frames_of, served, failed}
use atp.Broker.Consumed.{IsBalanced, handle_inbound-IsBalanced}
use atp.Broker.Programs.{execution_manager, is_message_supported, handle_inbound-program}
use atp.Tickers.Registry.{Contract, no_tickers, symbol_from_contract}

abbrev pub print_double : ℕ → Str
print_double bits = codes "650"

abbrev cast_int : Str → Option ℤ
cast_int s = some (pos (value_from 0 s))

cast_int-Casts : Casts cast_int
cast_int-Casts n h =
    (rw (value-digits 20 n (omega arith)) refl, rw (value-digits 20 n (omega arith)) refl)

abbrev pub blank : Contract
blank = record {
  con_id = pos 0;
  symbol = [];
  local_symbol = [];
  sec_id_type = [];
  sec_id = [];
  sec_type = [];
  strike = 0;
  right = [];
  exchange = [];
  primary_exchange = [];
  include_expired = false;
  expiry = [];
  multiplier = [];
  currency = [];
}

abbrev pub new_order : Order
new_order = record {
  order_id = pos 0;
  order_ref = [];
  action = [];
  total_quantity = pos 0;
  order_type = [];
  lmt_price = 0;
  aux_price = 0;
  all_or_none = false;
  min_qty = pos 0;
  outside_rth = false;
  tif = [];
}

blank-IsBlank : IsBlank blank
blank-IsBlank = record {
  local_symbol = refl;
  right = refl;
  strike = refl;
  currency = refl;
  expiry = refl;
}

-- An option of Apple.
abbrev pub apple : Messages.Contract
apple = record empty_contract {
  id = some 96099040;
  symbol = some (codes "AAPL");
  type = some option;
  right = some call;
  strike = some (record { amount = some 7; currency = some usd });
  expiry = some (record { year = some (pos 2012); month = some (pos 12); day = some (pos 16) });
}

apple-accepted : (contract_from_proto blank apple).0 ≡ true
unfolding contract_from_proto
apple-accepted = refl

symbol_from_contract-contract_from_proto_example :
    symbol_from_contract print_double (contract_from_proto blank apple).1
    ≡ Contracts.symbol_from_contract print_double (as_read apple)
symbol_from_contract-contract_from_proto_example =
    symbol_from_contract-contract_from_proto print_double blank apple apple-accepted (ground arith)

contract_to_proto-contract_from_proto_example :
    contract_to_proto cast_int (contract_from_proto blank apple).1 ≡ some (written apple)
contract_to_proto-contract_from_proto_example =
    contract_to_proto-contract_from_proto cast_int cast_int-Casts blank apple blank-IsBlank
      apple-accepted (omega arith)
      (2012, 12, 16, refl, omega arith, omega arith, omega arith, omega arith)

abbrev pub apple_order : Messages.Order
apple_order = record empty_order {
  id = some 5;
  action = some buy;
  contract = some apple;
  quantity = some 100;
  time_in_force = some gtc;
}

abbrev stop_limit : Priced
stop_limit =
    stop_limit_order apple_order (some (record { amount = some 3; currency = none }))
      (some (record { amount = some 4; currency = none }))

stop_limit-accepted : (priced_from_proto new_order stop_limit).0 ≡ true
unfolding priced_from_proto
stop_limit-accepted = refl

to_proto_like-priced_from_proto_example :
    to_proto_like stop_limit (priced_from_proto new_order stop_limit).1
    ≡ written_priced new_order stop_limit
to_proto_like-priced_from_proto_example =
    to_proto_like-priced_from_proto new_order stop_limit stop_limit-accepted
      (omega arith, omega arith, omega arith)

abbrev pub idle : Gateway
idle = record { tickers = no_tickers; calls = [] }

call_api-Once_example :
    Once idle (call_api print_double blank new_order (place_order stop_limit) idle)
call_api-Once_example = call_api-Once print_double blank new_order (place_order stop_limit) idle

abbrev ready : Connector
ready = record {
  gateway = idle;
  responses = [];
  requests = 0;
  requests_ok = 0;
  requests_errors = 0;
  exceptions = 0;
}

-- Every body is the cancellation of order 7.
abbrev parse : Kind → Str → Request
parse kind s = record { timestamp = some 1; message_id = some 2; body = cancel_order (some 7) }

abbrev cancellation : Message
cancellation = record {
  key_head = b'p';
  key_tail = codes "roto.ib.CancelOrder";
  body_head = 1;
  body_tail = [];
}

abbrev unknown : Message
unknown = record { key_head = b'x'; key_tail = []; body_head = 1; body_tail = [] }

abbrev messages : List Message
messages = cancellation ∷ unknown ∷ cancellation ∷ []

handle_inbound-program_example :
    handle_inbound print_double blank new_order
      (is_message_supported execution_manager)
      true
      parse
      4
      (frames_of messages)
      ready
    ≡ some (
      false,
      failed (
          served print_double blank new_order
            (is_message_supported execution_manager)
            true
            parse
            messages
            ready),
    )
handle_inbound-program_example =
    handle_inbound-program execution_manager print_double blank new_order true parse messages 4
      ready (omega arith)

-- What the three messages get.
served-messages :
    (served print_double blank new_order
      (is_message_supported execution_manager)
      true
      parse
      messages
      ready).responses
    ≡ 200 ∷ 404 ∷ 200 ∷ []
unfolding is_message_supported create_message processed
served-messages = refl

-- A key that comes alone, an empty frame, and a body that is cut short.
abbrev odd_frames : Frames
odd_frames = (key cancellation, false) ∷ ([], false) ∷ (key cancellation, true) ∷ []

handle_inbound-IsBalanced_example :
    (c' : Connector) × (handle_inbound print_double blank new_order
        (is_message_supported execution_manager)
        true
        parse
        4
        odd_frames
        ready
      ≡ some (false, c'))
    × (c'.exceptions ≡ 1)
    × IsBalanced c'
handle_inbound-IsBalanced_example =
    handle_inbound-IsBalanced print_double blank new_order (is_message_supported execution_manager)
      true parse 4 odd_frames ready (omega arith) (refl, refl)
