-- ===== src/ContractManager.antt =====
-- The contract manager (service/ContractManager.cpp): it asks for the details of contracts, keeps
-- those that it is sent, and finds contracts by their keys (platform/contract_symbol.cpp).
pub mod Details
pub mod Listener
use mathlib.Core.Option
use atp.Common.{ℕ, Bool, true, false, Option, none, some, List, [], ◌∷◌, ◌++◌, if◌then◌else◌}
use atp.Common.Int.{ℤ, pos}
use atp.Common.Map.{Map, find, assign}
use atp.Common.Text.{Str, str_eq, codes}
use atp.Messaging.{Outcome, returned, Handler, Handlers, register_handler}
use atp.Awaiting.{Awaited, nothing_awaited, await, answer, within}
use atp.Contracts.{
  Contract, ContractType, stock, index, option, Right, put, format_option_contract_key,
}

-- proto::common::Money::Currency
pub data Currency : Type 0 where
  other usd : Currency

abbrev pub is_usd : Currency → Bool
is_usd other = false
is_usd usd = true

-- proto::ib::Contract with the fields that its keys do not need.
pub record Summary : Type 0 where
  pub id : ℕ
  pub local_symbol : Str
  pub currency : Currency
  pub contract : Contract

pub record ContractDetails : Type 0 where
  pub symbol : Str
  pub summary : Summary

pub record RequestContractDetails : Type 0 where
  pub request_id : ℕ
  pub contract : Summary

-- ContractDetailsEnd
pub record DetailsEnd : Type 0 where
  pub request_id : ℕ

pub record Manager : Type 0 where
  pub connected : Bool
  pub sent : List RequestContractDetails
  pub awaited : Awaited DetailsEnd
  pub details : Map Str ContractDetails

abbrev pub connected_manager : Manager
connected_manager = record { connected = true; sent = []; awaited = nothing_awaited; details = [] }

-- A message whose fields are not set.
abbrev pub empty_contract : Contract
empty_contract = record {
  type = index;
  symbol = [];
  strike = 0;
  right = put;
  year = pos 0;
  month = pos 0;
  day = pos 0;
}

abbrev pub empty_summary : Summary
empty_summary = record { id = 0; local_symbol = []; currency = other; contract = empty_contract }

-- The details are kept, over those that were there, when the strike is in USD.
unfoldable pub keep_details : ContractDetails → Manager → Manager
unfolding assign
keep_details d m =
    if is_usd d.summary.currency then record m { details = assign d.symbol d m.details } else m

-- handleContractDetailsResponse, where `parse` is ParseFromString.
unfoldable pub handle_contract_details_response :
    (parse : Str → Option ContractDetails) → Handler Manager
unfolding keep_details
handle_contract_details_response parse topic message m = elim (parse message) [
  | none ↦ returned true m
  | some d ↦ returned true (keep_details d m)
]

unfoldable pub handle_contract_details_end : (parse : Str → Option DetailsEnd) → Handler Manager
unfolding answer
handle_contract_details_end parse topic message m = elim (parse message) [
  | none ↦ returned true m
  | some status ↦ within (λ a. record m { awaited = a }) (answer status.request_id status m.awaited)
]

unfoldable pub handle_stop : Handler Manager
handle_stop topic message m = returned false m

abbrev pub response_topic : Str
response_topic = codes "proto.ib.ContractDetailsResponse"

abbrev pub end_topic : Str
end_topic = codes "proto.ib.ContractDetailsEnd"

-- The handlers that the constructor registers, in its order.
unfoldable pub handlers :
    (parse_response : Str → Option ContractDetails) (parse_end : Str → Option DetailsEnd)
    → Handlers Manager
unfolding register_handler handle_contract_details_response handle_contract_details_end handle_stop
handlers parse_response parse_end =
    let responses =
      register_handler response_topic (handle_contract_details_response parse_response) [] in
    let ends = register_handler end_topic (handle_contract_details_end parse_end) responses.1 in
    (register_handler (codes "stop") handle_stop ends.1).1

-- requestContractDetails(id, contract): the contract is sent with the id 0.
unfoldable pub request_contract_details : ℕ → Summary → Manager → Option ℕ × Manager
unfolding await
request_contract_details id contract m =
    let request : RequestContractDetails = record {
      request_id = id;
      contract = record contract { id = 0 };
    } in
    let (status, awaited) = await m.connected id m.awaited in
    (
      status,
      record m {
        sent = (if m.connected then m.sent ++ (request ∷ []) else m.sent);
        awaited = awaited;
      },
    )

abbrev pub stock_summary : Str → Summary
stock_summary symbol = record empty_summary {
  local_symbol = symbol;
  currency = usd;
  contract = record empty_contract { type = stock; symbol = symbol };
}

abbrev pub option_summary : Str → (year month day : ℤ) → ℕ → Right → Summary
option_summary symbol year month day strike right = record empty_summary {
  local_symbol = symbol;
  currency = usd;
  contract = record {
    type = option;
    symbol = symbol;
    strike = strike;
    right = right;
    year = year;
    month = month;
    day = day;
  };
}

unfoldable pub request_stock_contract_details : ℕ → Str → Manager → Option ℕ × Manager
unfolding request_contract_details
request_stock_contract_details id symbol m = request_contract_details id (stock_summary symbol) m

unfoldable pub request_option_contract_details :
    ℕ → Str → (year month day : ℤ) → ℕ → Right → Manager → Option ℕ × Manager
unfolding request_contract_details
request_option_contract_details id symbol year month day strike right m =
    request_contract_details id (option_summary symbol year month day strike right) m

unfoldable pub request_option_chain : ℕ → Str → Manager → Option ℕ × Manager
unfolding request_contract_details
request_option_chain id symbol m =
    request_contract_details id
      (record empty_summary { contract = record empty_contract { type = option; symbol = symbol } })
      m

unfoldable pub request_index_contract_details : ℕ → Str → Manager → Option ℕ × Manager
unfolding request_contract_details
request_index_contract_details id symbol m =
    request_contract_details id
      (record empty_summary {
        local_symbol = symbol;
        contract = record empty_contract { type = index; symbol = symbol };
      })
      m

-- findContract(key, contract): none is false.
unfoldable pub find_contract : Str → Manager → Option Summary
unfolding find
find_contract key m = Option.map (λ d. d.summary) (find key m.details)

-- findOptionContract
unfoldable pub find_option_contract :
    (print_double : ℕ → Str) → Str → (year month day : ℤ) → ℕ → Right → Manager → Option Summary
unfolding find_contract format_option_contract_key
find_option_contract print_double symbol year month day strike right m =
    find_contract (format_option_contract_key print_double symbol strike right year month day) m
