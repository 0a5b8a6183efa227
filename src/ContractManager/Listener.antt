-- ===== src/ContractManager/Listener.antt =====
-- The listener of a contract manager goes on.
use atp.Common.{◌≡◌, refl, ap, ◌∙◌, true, Option, List, [], ◌∷◌, inl, inr, Bool-cases, Option-cases}
use atp.Common.Map.{assign}
use atp.Common.Text.{Str, str_eq}
use atp.Messaging.{
  returned, Received, message, waiting, run, process_raw_message, caught, continue_with,
}
use atp.Awaiting.Answered.{answer-IsAwaited}
use atp.ContractManager.{
  Manager, ContractDetails, DetailsEnd, is_usd, keep_details, handle_contract_details_response,
  handle_contract_details_end, handlers, response_topic, end_topic,
}
use atp.ContractManager.Details.{IsValid, handled_end}

keep_details-IsValid : (d : ContractDetails) (m : Manager) → IsValid m → IsValid (keep_details d m)
unfolding keep_details
keep_details-IsValid d m v = elim (Bool-cases (is_usd d.summary.currency)) [
  | inl p ↦ rw p (record { is_connected = v.is_connected; is_awaited = v.is_awaited })
  | inr p ↦ rw p v
]

handle_contract_details_end-IsValid :
    (parse : Str → Option DetailsEnd) (topic text : Str) (m : Manager)
    → IsValid m
    → (m' : Manager) × (handle_contract_details_end parse topic text m ≡ returned true m')
      × IsValid m'
unfolding handle_contract_details_end
handle_contract_details_end-IsValid parse topic text m v = elim (Option-cases (parse text)) [
  | inl p ↦ (m, rw (handle_contract_details_end, p) refl, v)
  | inr (status, p) ↦
      let (a, e, w) = answer-IsAwaited status.request_id status m.awaited v.is_awaited in
      (
        record m { awaited = a },
        handled_end parse topic text m status a p e,
        record { is_connected = v.is_connected; is_awaited = w },
      )
]

handle_contract_details_response-IsValid :
    (parse : Str → Option ContractDetails) (topic text : Str) (m : Manager)
    → IsValid m
    → (m' : Manager) × (handle_contract_details_response parse topic text m ≡ returned true m')
      × IsValid m'
unfolding handle_contract_details_response
handle_contract_details_response-IsValid parse topic text m v = elim (Option-cases (parse text)) [
  | inl p ↦ (m, rw (handle_contract_details_response, p) refl, v)
  | inr (d, p) ↦
      (keep_details d m, rw (handle_contract_details_response, p) refl, keep_details-IsValid d m v)
]

-- Messages of the two kinds, a response or an end.
pub data Reply : Type 0 where
  response end : Str → Reply

abbrev pub received : List Reply → List Received
received [] = []
received (response text ∷ replies) = message response_topic text ∷ received replies
received (end text ∷ replies) = message end_topic text ∷ received replies

module _ (parse_response : Str → Option ContractDetails) (parse_end : Str → Option DetailsEnd) where
  process-response :
      (text : Str) (m : Manager)
      → process_raw_message (handlers parse_response parse_end) response_topic text m
        ≡ caught (handle_contract_details_response parse_response response_topic text m)
  unfolding process_raw_message handlers assign
  process-response text m = refl

  process-end :
      (text : Str) (m : Manager)
      → process_raw_message (handlers parse_response parse_end) end_topic text m
        ≡ caught (handle_contract_details_end parse_end end_topic text m)
  unfolding process_raw_message handlers assign
  process-end text m = refl

  -- The listener of a valid manager takes any sequence of responses and ends, also ones that do not
  -- parse or that nobody asked for, and waits for more with a valid manager.
  pub run-received :
      (replies : List Reply) (m : Manager)
      → IsValid m
      → (m' : Manager) × (run (handlers parse_response parse_end) (received replies) m ≡ waiting m')
        × IsValid m'
  unfolding run
  run-received [] m v = (m, refl, v)
  run-received (response text ∷ replies) m v =
      let (m', e, v') =
        handle_contract_details_response-IsValid parse_response response_topic text m v in
      let (m'', e', v'') = run-received replies m' v' in
      (
        m'',
        ap (continue_with (run (handlers parse_response parse_end) (received replies)))
              (process-response text m ∙ ap caught e)
            ∙ e',
        v'',
      )
  run-received (end text ∷ replies) m v =
      let (m', e, v') = handle_contract_details_end-IsValid parse_end end_topic text m v in
      let (m'', e', v'') = run-received replies m' v' in
      (
        m'',
        ap (continue_with (run (handlers parse_response parse_end) (received replies)))
              (process-end text m ∙ ap caught e)
            ∙ e',
        v'',
      )
