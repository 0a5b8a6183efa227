-- ===== src/Broker/Connector.antt =====
-- The connector's reactor (ib/SocketConnectorBase.hpp, ib/api966/ZmqMessage.cpp, ZmqProtoBuffer.hpp and
-- the receive of zmq/ZmqUtils.hpp). What arrives is a list of frames, each with whether more of its
-- message follow; after the last, the socket's next receive throws zmq::error_t. Responses are sent
-- without an error.
use atp.Common.{
  ℕ, zero, suc, ◌+◌, Bool, true, false, Option, none, some, List, [], ◌∷◌, ◌++◌, if◌then◌else◌,
  ◌>>=◌,
}
use atp.Common.Map.{Map, find, assign}
use atp.Common.Text.{Str, str_eq, codes}
use atp.Broker.OrderMarshall.{Order}
use atp.Broker.Requests.{Request, Gateway, is_initialized, call_api}
use atp.Tickers.Registry.{Contract}

abbrev pub Frames : Type 0
Frames = List (Str × Bool)

-- atp::zmq::receive: empty frames are passed over; none is an error of the socket.
unfoldable pub receive : Frames → Option (Str × Bool × Frames)
receive [] = none
receive (([], more) ∷ frames) = receive frames
receive ((b ∷ s, more) ∷ frames) = some (b ∷ s, more, frames)

-- while (more) more = receive(socket, &buff)
unfoldable pub drain : Bool → Frames → Option Frames
drain false frames = some frames
drain true [] = none
drain true (([], more) ∷ frames) = drain true frames
drain true ((b ∷ s, more) ∷ frames) = drain more frames

-- The classes of the messages.
pub data Kind : Type 0 where
  contract_details_kind : Kind
  market_data_kind : Kind
  cancel_market_data_kind : Kind
  market_depth_kind : Kind
  cancel_market_depth_kind : Kind
  cancel_order_kind : Kind
  market_order_kind : Kind
  limit_order_kind : Kind
  stop_limit_order_kind : Kind

-- key(): the name of the message's type.
abbrev pub key_of : Kind → Str
key_of contract_details_kind = codes "proto.ib.RequestContractDetails"
key_of market_data_kind = codes "proto.ib.RequestMarketData"
key_of cancel_market_data_kind = codes "proto.ib.CancelMarketData"
key_of market_depth_kind = codes "proto.ib.RequestMarketDepth"
key_of cancel_market_depth_kind = codes "proto.ib.CancelMarketDepth"
key_of cancel_order_kind = codes "proto.ib.CancelOrder"
key_of market_order_kind = codes "proto.ib.MarketOrder"
key_of limit_order_kind = codes "proto.ib.LimitOrder"
key_of stop_limit_order_kind = codes "proto.ib.StopLimitOrder"

-- _handlerMap()
abbrev pub kinds : List Kind
kinds =
    contract_details_kind ∷ market_data_kind ∷ cancel_market_data_kind ∷ market_depth_kind
    ∷ cancel_market_depth_kind ∷ cancel_order_kind ∷ market_order_kind ∷ limit_order_kind
    ∷ stop_limit_order_kind ∷ []

unfoldable pub handler_map : List Kind → Map Str Kind → Map Str Kind
unfolding assign
handler_map [] m = m
handler_map (k ∷ ks) m = handler_map ks (assign (key_of k) k m)

-- ZmqMessage::createMessage
unfoldable pub create_message : Str → Option Kind
unfolding find handler_map
create_message key = find key (handler_map kinds [])

-- The connector's state: the gateway, what was sent in response, and the counters.
pub record Connector : Type 0 where
  pub gateway : Gateway
  pub responses : List ℕ
  pub requests : ℕ
  pub requests_ok : ℕ
  pub requests_errors : ℕ
  pub exceptions : ℕ

-- atp::receive of one message, where `parse` is ParseFromString of a class, whatever it could read:
-- none inside when the message is refused.
unfoldable pub receive_proto :
    (parse : Kind → Str → Request) → Kind → Frames → Option (Option Request × Frames)
unfolding receive is_initialized
receive_proto parse kind frames = do
  (frame, more, rest) ← receive frames
  some (
    if more
        then none
        else if is_initialized (parse kind frame)
        then some (parse kind frame)
        else none,
    rest,
  )

-- afterMessage: `replies` is whether the socket is a ZMQ_REP.
abbrev pub after_message : (replies : Bool) → ℕ → Connector → Connector
after_message replies code c =
    if replies then record c { responses = c.responses ++ (code ∷ []) } else c

module _ (print_double : ℕ → Str) (new_contract : Contract) (new_order : Order) where
  -- validate() and callApi() of a message that was received.
  unfoldable pub process : Request → Connector → ℕ × Connector
  unfolding is_initialized call_api
  process request c =
      let counted = record c { requests = c.requests + 1 } in
      let (called, gateway) = call_api print_double new_contract new_order request.body c.gateway in
      if is_initialized request
      then (if called
          then (200, record counted { gateway = gateway; requests_ok = c.requests_ok + 1 })
          else (502, record counted { gateway = gateway; requests_errors = c.requests_errors + 1 }))
      else (412, record counted { requests_errors = c.requests_errors + 1 })

  -- What follows the receipt of a body.
  unfoldable pub processed : (replies : Bool) → Option Request → Connector → Connector
  unfolding process
  processed replies none c = after_message replies 400 c
  processed replies (some request) c =
      let (code, c') = process request c in after_message replies code c'

  -- `is_supported` is the application's IsMessageSupported.
  module _ (is_supported : Str → Bool) (replies : Bool) (parse : Kind → Str → Request) where
    -- The branch of a supported message with more frames.
    unfoldable pub handle_supported : Option Kind → Frames → Connector → Option (Frames × Connector)
    unfolding receive_proto processed
    handle_supported none frames c = some (frames, after_message replies 503 c)
    handle_supported (some kind) frames c = do
      (received, rest) ← receive_proto parse kind frames
      some (rest, processed replies received c)

    unfoldable pub handle_keyed : Str → Bool → Frames → Connector → Option (Frames × Connector)
    unfolding create_message drain handle_supported
    handle_keyed key more frames c =
        if is_supported key
        then (if more
            then handle_supported (create_message key) frames c
            else some (frames, after_message replies 500 c))
        else (do left ← drain more frames; some (left, after_message replies 404 c))

    -- One round of the loop; none is zmq::error_t.
    unfoldable pub handle_message : Frames → Connector → Option (Frames × Connector)
    unfolding receive
    handle_message frames c = do (key, more, rest) ← receive frames; handle_keyed key more rest c

    -- handleReactorInboundMessages, on fuel; none is that the fuel ran out.
    unfoldable pub handle_inbound : (fuel : ℕ) → Frames → Connector → Option (Bool × Connector)
    unfolding handle_message
    handle_inbound zero frames c = none
    handle_inbound (suc fuel) frames c = elim (handle_message frames c) [
      | none ↦ some (false, record c { exceptions = c.exceptions + 1 })
      | some (rest, c') ↦ handle_inbound fuel rest c'
    ]
