-- ===== src/Orders.antt =====
-- The order manager (service/OrderManager.cpp).
pub mod Pending
pub mod Statuses
use atp.Common.{ℕ, Bool, true, false, Option, none, some, List, [], ◌∷◌, ◌++◌, if◌then◌else◌}
use atp.Common.Text.{Str, str_eq, codes}
use atp.Messaging.{returned, Handler, Handlers, register_handler}
use atp.Awaiting.{Awaited, nothing_awaited, await, answer, within}

-- proto::ib::OrderStatus, as far as the code reads it.
pub record OrderStatus : Type 0 where
  pub order_id : ℕ
  pub status : Str
  pub filled : ℕ
  pub remaining : ℕ

-- The messages that are sent, with the id under which their status is awaited.
pub data Order : Type 0 where
  cancel_order : ℕ → Order
  market_order : ℕ → Order
  limit_order : ℕ → Order
  stop_limit_order : ℕ → Order

abbrev pub key_of : Order → ℕ
key_of (cancel_order id) = id
key_of (market_order id) = id
key_of (limit_order id) = id
key_of (stop_limit_order id) = id

pub record Manager : Type 0 where
  pub connected : Bool
  pub sent : List Order
  pub awaited : Awaited OrderStatus

-- send(proto, key), with the place of the response; without a socket the response is null.
unfoldable pub send : Order → Manager → Option ℕ × Manager
unfolding await
send order m =
    let (status, awaited) = await m.connected (key_of order) m.awaited in
    (
      status,
      record m {
        sent = (if m.connected then m.sent ++ (order ∷ []) else m.sent);
        awaited = awaited;
      },
    )

-- handleOrderStatus(topic, message), where `parse` is ParseFromString.
unfoldable pub handle_order_status : (parse : Str → Option OrderStatus) → Handler Manager
unfolding answer
handle_order_status parse topic message m = elim (parse message) [
  | none ↦ returned true m
  | some status ↦ within (λ a. record m { awaited = a }) (answer status.order_id status m.awaited)
]

unfoldable pub handle_stop : Handler Manager
handle_stop topic message m = returned false m

-- The handlers that the constructor registers.
unfoldable pub handlers : (parse : Str → Option OrderStatus) → Handlers Manager
unfolding register_handler handle_order_status handle_stop
handlers parse =
    (register_handler (codes "stop") handle_stop
      (register_handler (codes "proto.ib.OrderStatus") (handle_order_status parse) []).1).1

-- The manager as the constructor leaves it.
abbrev pub connected_manager : Manager
connected_manager = record { connected = true; sent = []; awaited = nothing_awaited }
