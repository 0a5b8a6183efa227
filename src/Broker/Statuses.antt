-- ===== src/Broker/Statuses.antt =====
-- The statuses of an order reach the order manager that sent it.
use atp.Common.{ℕ, ◌<◌, ◌%◌, ◌^◌, ◌≡◌, refl, Option, some, length, get_elem?, arith, true}
use atp.Common.Int.{ℤ, pos, size_mod}
use atp.Common.Text.{Str}
use atp.Messaging
use atp.Orders
use atp.Orders.{Manager, handle_order_status, key_of, send}
use atp.Orders.Pending.{IsValid}
use atp.Orders.Statuses.{handle-send}
use atp.Broker.Dispatch.{Dispatcher, Times}
use atp.Broker.Ticks.{published}
use atp.Broker.Details.{publish_event-sent}
use atp.Broker.Answers.{OrderStatus, order_status, status_topic, to_uint32}

-- What the order manager reads of a status.
abbrev pub status_seen : OrderStatus → Orders.OrderStatus
status_seen s = record {
  order_id = s.order_id;
  status = s.status;
  filled = s.filled;
  remaining = s.remaining;
}

-- What the broker says of an order.
pub record Report : Type 0 where
  pub status : Str
  pub filled : ℕ
  pub remaining : ℕ
  pub avg_fill_price : ℕ
  pub perm_id : ℤ
  pub parent_id : ℤ
  pub last_fill_price : ℕ
  pub client_id : ℤ
  pub why_held : Str

abbrev pub status_message : ℕ → Report → (first second : ℕ) → OrderStatus
status_message id r first second = record {
  timestamp = first;
  message_id = second;
  order_id = id;
  status = r.status;
  filled = r.filled;
  remaining = r.remaining;
  avg_fill_price = r.avg_fill_price;
  last_fill_price = r.last_fill_price;
  client_id = to_uint32 r.client_id;
  perm_id = to_uint32 r.perm_id;
  parent_id = to_uint32 r.parent_id;
  why_held = r.why_held;
}

-- When the broker reports on an order that a manager sent, the status is published, and the manager that
-- reads it makes the order's response ready with the id, the status and the numbers that were reported,
-- and changes no earlier response.
pub order_status-send :
    (serialize : OrderStatus → Option Str) (parse : Str → Option Orders.OrderStatus)
    (order : Orders.Order) (r : Report) (first second : ℕ) (t : Times) (d : Dispatcher) (text : Str)
    (manager : Manager)
    → key_of order < 2 ^ 63
    → r.filled < 2 ^ 31
    → r.remaining < 2 ^ 31
    → d.connected ≡ true
    → IsValid manager
    → serialize (status_message (key_of order) r first second) ≡ some text
    → parse text ≡ some (status_seen (status_message (key_of order) r first second))
    → (order_status serialize
          (pos (key_of order))
          r.status
          (pos r.filled)
          (pos r.remaining)
          r.avg_fill_price
          r.perm_id
          r.parent_id
          r.last_fill_price
          r.client_id
          r.why_held
          first
          second
          t
          d
        ≡ some (published t status_topic text d))
      × ((manager' : Manager) × (handle_order_status parse status_topic text (send order manager).1
            ≡ Messaging.returned true manager')
          × (get_elem? manager'.awaited.responses (length manager.awaited.responses)
              ≡ some (
                  some (record {
                    order_id = key_of order;
                    status = r.status;
                    filled = r.filled;
                    remaining = r.remaining;
                  })))
          × ((j : ℕ)
              → j < length manager.awaited.responses
              → get_elem? manager'.awaited.responses j ≡ get_elem? manager.awaited.responses j))
unfolding order_status
order_status-send serialize parse order r first second t d text manager small f m up v ser par =
    let same_id : key_of order % size_mod ≡ key_of order = omega arith in
    let same_filled : r.filled % size_mod % 2 ^ 32 ≡ r.filled = omega arith in
    let same_remaining : r.remaining % size_mod % 2 ^ 32 ≡ r.remaining = omega arith in
    (
      rw (same_id, same_filled, same_remaining, ser) (publish_event-sent status_topic text t d up),
      handle-send parse status_topic text order manager
          (status_seen (status_message (key_of order) r first second)) v par refl,
    )
