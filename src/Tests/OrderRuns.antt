-- ===== src/Tests/OrderRuns.antt =====
-- Messages and orders at concrete inputs.
use atp.Common.{ℕ, ◌≡◌, refl, ◌<◌, true, Option, none, some, [], ◌∷◌, get_elem?}
use atp.Common.Map.{find}
use atp.Common.Text.{Str, codes}
use atp.Messaging.{returned, waiting, run}
use atp.Orders.{
  OrderStatus, market_order, cancel_order, Manager, connected_manager, send, handle_order_status,
  handlers,
}
use atp.Awaiting.Answered.{IsAwaited, HasPlace}
use atp.Orders.Pending.{IsValid, send-IsValid, run-IsValid, status_messages}
use atp.Orders.Statuses.{handle-send, handle-send_again}

abbrev filled : OrderStatus
filled = record { order_id = 7; status = codes "Filled"; filled = 100; remaining = 0 }

-- Every message is a status of order 7.
abbrev parse : Str → Option OrderStatus
parse text = some filled

connected_manager-IsValid : IsValid connected_manager
unfolding IsAwaited HasPlace find
connected_manager-IsValid = record { is_connected = refl; is_awaited = λ key. tt }

sent-IsValid : IsValid (send (market_order 7) connected_manager).1
sent-IsValid = (send-IsValid (market_order 7) connected_manager connected_manager-IsValid).0

run-IsValid_example :
    (m' : Manager) × (run
        (handlers parse)
        (status_messages ([] ∷ [] ∷ []))
        (send (market_order 7) connected_manager).1
      ≡ waiting m')
    × IsValid m'
run-IsValid_example =
    run-IsValid parse ([] ∷ [] ∷ []) (send (market_order 7) connected_manager).1 (sent-IsValid)

handle-send_example :
    (m' : Manager) × (handle_order_status parse [] [] (send (market_order 7) connected_manager).1
      ≡ returned true m')
    × (get_elem? m'.awaited.responses 0 ≡ some (some filled))
    × ((j : ℕ)
        → j < 0
        → get_elem? m'.awaited.responses j ≡ get_elem? connected_manager.awaited.responses j)
handle-send_example =
    handle-send parse [] [] (market_order 7) connected_manager filled connected_manager-IsValid refl
      refl

handle-send_again_example :
    (m' : Manager) × (handle_order_status parse [] []
        (send (cancel_order 7) (send (market_order 7) connected_manager).1).1
      ≡ returned true m')
    × (get_elem? m'.awaited.responses 0 ≡ some none)
    × (get_elem? m'.awaited.responses 1 ≡ some (some filled))
handle-send_again_example =
    handle-send_again parse [] [] (market_order 7) (cancel_order 7) connected_manager filled
      connected_manager-IsValid refl refl refl
