-- ===== src/Orders/Statuses.antt =====
-- Which response a status reaches.
use atp.Common.{ℕ, ◌+◌, ◌<◌, ◌≡◌, refl, sym, ap, ◌∙◌, true, Option, none, some, length, get_elem?}
use atp.Common.Text.{Str}
use atp.Messaging.{returned}
use atp.Awaiting.{Awaited, await, answer, within}
use atp.Awaiting.Answered.{answer-await, answer-await_again}
use atp.Orders.{OrderStatus, Order, key_of, Manager, send, handle_order_status}
use atp.Orders.Pending.{IsValid, send-IsValid}

awaited-send :
    (order : Order) (m : Manager)
    → IsValid m
    → (send order m).1.awaited ≡ (await true (key_of order) m.awaited).1
unfolding send
awaited-send order m v = rw v.is_connected refl

-- A status that is an answer changes the awaited responses as the answer does.
handled :
    (parse : Str → Option OrderStatus) (topic text : Str) (m : Manager) (status : OrderStatus)
    (key : ℕ) (b a : Awaited OrderStatus)
    → parse text ≡ some status
    → status.order_id ≡ key
    → m.awaited ≡ b
    → answer key status b ≡ returned true a
    → handle_order_status parse topic text m ≡ returned true (record m { awaited = a })
unfolding handle_order_status
handled parse topic text m status key b a p k w e =
    rw (handle_order_status, p)
      (ap (within (λ c. record m { awaited = c }))
        (ap (λ j. answer j status m.awaited) k ∙ ap (answer key status) w ∙ e))

-- The status of an order that was sent reaches the response of that order, which is then ready with
-- it, and no other response.
pub handle-send :
    (parse : Str → Option OrderStatus) (topic text : Str) (order : Order) (m : Manager)
    (status : OrderStatus)
    → IsValid m
    → parse text ≡ some status
    → status.order_id ≡ key_of order
    → (m' : Manager) × (handle_order_status parse topic text (send order m).1 ≡ returned true m')
      × (get_elem? m'.awaited.responses (length m.awaited.responses) ≡ some (some status))
      × ((j : ℕ)
          → j < length m.awaited.responses
          → get_elem? m'.awaited.responses j ≡ get_elem? m.awaited.responses j)
handle-send parse topic text order m status v p e =
    let (a, h, there, others) = answer-await (key_of order) status m.awaited in
    (
      record (send order m).1 { awaited = a },
      handled parse topic text (send order m).1 status (key_of order) _ a p e
          (awaited-send order m v) h,
      there,
      others,
    )

-- When two orders are sent with the same id, as a cancellation has the id of its order, a status of
-- that id reaches the response of the later one only: the earlier one is never answered by it.
pub handle-send_again :
    (parse : Str → Option OrderStatus) (topic text : Str) (first second : Order) (m : Manager)
    (status : OrderStatus)
    → IsValid m
    → key_of first ≡ key_of second
    → parse text ≡ some status
    → status.order_id ≡ key_of first
    → (m' : Manager) × (handle_order_status parse topic text (send second (send first m).1).1
        ≡ returned true m')
      × (get_elem? m'.awaited.responses (length m.awaited.responses) ≡ some none)
      × (get_elem? m'.awaited.responses (length m.awaited.responses + 1) ≡ some (some status))
handle-send_again parse topic text first second m status v k p e =
    let (a, h, former, later) = answer-await_again (key_of first) status m.awaited in
    let sent = (send first m).1 in
    let (v', _, _, _) = send-IsValid first m v in
    (
      record (send second sent).1 { awaited = a },
      handled parse topic text (send second sent).1 status (key_of first) _ a p e
          (awaited-send second sent v'
            ∙ ap (λ j. (await true j sent.awaited).1) (sym k)
            ∙ ap (λ b. (await true (key_of first) b).1) (awaited-send first m v))
          h,
      former,
      later,
    )
