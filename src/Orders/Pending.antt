-- ===== src/Orders/Pending.antt =====
-- Every pending order of a connected manager has a response, so that no status meets a null pointer.
use atp.Common.{
  ◌≡◌, refl, ap, ◌∙◌, true, Option, none, some, List, [], ◌∷◌, ◌++◌, length, inl, inr, Option-cases,
}
use atp.Common.Text.{Str, codes}
use atp.Messaging.{
  returned, Received, message, waiting, run, process_raw_message, caught, continue_with,
}
use atp.Common.Map.{assign}
use atp.Awaiting.{await, within}
use atp.Awaiting.Answered.{IsAwaited, await-IsAwaited, answer-IsAwaited, responses-await}
use atp.Orders.{OrderStatus, Order, key_of, Manager, send, handle_order_status, handlers}

pub record IsValid (m : Manager) : Type 0 where
  pub is_connected : m.connected ≡ true
  pub is_awaited : IsAwaited m.awaited

-- Sending keeps the manager valid, gives the place of a new response that is not ready, and leaves
-- the responses of the others.
pub send-IsValid :
    (order : Order) (m : Manager)
    → IsValid m
    → IsValid (send order m).1
      × ((send order m).0 ≡ some (length m.awaited.responses))
      × ((send order m).1.awaited.responses ≡ m.awaited.responses ++ (none ∷ []))
      × ((send order m).1.sent ≡ m.sent ++ (order ∷ []))
unfolding send
send-IsValid order m v = rw v.is_connected (
  record {
    is_connected = refl;
    is_awaited = await-IsAwaited (key_of order) m.awaited v.is_awaited;
  },
  unfold await in refl,
  responses-await (key_of order) m.awaited,
  refl,
)

-- Whatever message comes, its handler neither follows a null pointer nor stops the listener, and
-- the manager stays valid.
handle_order_status-IsValid :
    (parse : Str → Option OrderStatus) (topic text : Str) (m : Manager)
    → IsValid m
    → (m' : Manager) × (handle_order_status parse topic text m ≡ returned true m') × IsValid m'
unfolding handle_order_status
handle_order_status-IsValid parse topic text m v = elim (Option-cases (parse text)) [
  | inl p ↦ (m, rw (handle_order_status, p) refl, v)
  | inr (status, p) ↦
      let (a, e, w) = answer-IsAwaited status.order_id status m.awaited v.is_awaited in
      (
        record m { awaited = a },
        rw (handle_order_status, p) (ap (within (λ b. record m { awaited = b })) e),
        record { is_connected = v.is_connected; is_awaited = w },
      )
]

abbrev pub status_topic : Str
status_topic = codes "proto.ib.OrderStatus"

abbrev pub status_messages : List Str → List Received
status_messages [] = []
status_messages (text ∷ texts) = message status_topic text ∷ status_messages texts

process-status :
    (parse : Str → Option OrderStatus) (text : Str) (m : Manager)
    → process_raw_message (handlers parse) status_topic text m
      ≡ caught (handle_order_status parse status_topic text m)
unfolding process_raw_message handlers assign
process-status parse text m = refl

-- The listener of a valid manager takes any sequence of messages of order statuses, also ones that
-- do not parse or are of unknown orders, and waits for more with a valid manager.
pub run-IsValid :
    (parse : Str → Option OrderStatus) (texts : List Str) (m : Manager)
    → IsValid m
    → (m' : Manager) × (run (handlers parse) (status_messages texts) m ≡ waiting m') × IsValid m'
unfolding run
run-IsValid parse [] m v = (m, refl, v)
run-IsValid parse (text ∷ texts) m v =
    let (m', e, v') = handle_order_status-IsValid parse status_topic text m v in
    let (m'', e', v'') = run-IsValid parse texts m' v' in
    (
      m'',
      ap (continue_with (run (handlers parse) (status_messages texts)))
            (process-status parse text m ∙ ap caught e)
          ∙ e',
      v'',
    )
