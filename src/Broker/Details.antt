-- ===== src/Broker/Details.antt =====
-- The broker's answers reach the managers that asked.
use atp.Common.{
  ℕ, ◌<◌, ◌%◌, ◌^◌, ◌≡◌, refl, sym, ap, ◌∙◌, true, Option, none, some, [], length, get_elem?, arith,
  >>=-eq-some,
}
use atp.Common.Int.{ℤ, pos, size_mod}
use atp.Common.Text.{Str, codes, same, same_iff, str_eq}
use atp.Contracts
use atp.ContractManager
use atp.ContractManager.{
  handle_contract_details_response, handle_contract_details_end, request_contract_details,
  find_contract, Summary,
}
use atp.ContractManager.Details.{
  IsValid, find_contract-response, handle_contract_details_end-request,
}
use atp.Messaging
use atp.Broker.Messages
use atp.Broker.Messages.{as_read, get_or, Money, Currency, other, usd}
use atp.Broker.ContractMarshall.{contract_to_proto, expiry_read}
use atp.Broker.Dispatch.{Dispatcher, Times}
use atp.Broker.Ticks.{published}
use atp.Broker.Answers.{
  ContractDetails, DetailsMessage, details_to_proto, DetailsResponse, DetailsEnd, publish_event,
  response_topic, end_topic, contract_details, contract_details_end, on_no_contract_definition,
  on_error, returned,
}
use atp.Tickers.Registry.{Contract}

pub publish_event-sent :
    (topic text : Str) (t : Times) (d : Dispatcher)
    → d.connected ≡ true
    → publish_event topic (some text) t d ≡ some (published t topic text d)
unfolding publish_event
publish_event-sent topic text t d up = rw (publish_event, up) refl

-- The fields of a message that the contract manager reads.
abbrev pub currency_seen : Currency → ContractManager.Currency
currency_seen other = ContractManager.other
currency_seen usd = ContractManager.usd

abbrev pub currency_of : Option Money → Currency
currency_of none = other
currency_of (some m) = get_or m.currency other

abbrev pub summary_seen : Messages.Contract → Summary
summary_seen p = record {
  id = get_or p.id 0;
  local_symbol = get_or p.local_symbol [];
  currency = currency_seen (currency_of p.strike);
  contract = as_read p;
}

abbrev pub details_seen : DetailsMessage → ContractManager.ContractDetails
details_seen m = record { symbol = m.symbol; summary = summary_seen m.summary }

details_to_proto-made :
    (cast_int : Str → Option ℤ) (print_double : ℕ → Str) (c : ContractDetails) (m : DetailsMessage)
    → details_to_proto cast_int print_double c ≡ some m
    → (contract_to_proto cast_int c.summary ≡ some m.summary)
      × (m.symbol ≡ Contracts.symbol_from_contract print_double (as_read m.summary))
unfolding details_to_proto
details_to_proto-made cast_int print_double c m h =
    let (summary, p, q) = >>=-eq-some (contract_to_proto cast_int c.summary) _ h in
    let e = ap (λ o. get_or o m) q in
    (
      p ∙ ap (λ x. some x.summary) e,
      ap (λ x. x.symbol) (sym e)
          ∙ ap (λ x. Contracts.symbol_from_contract print_double (as_read x.summary)) e,
    )

contract_to_proto-currency :
    (cast_int : Str → Option ℤ) (c : Contract) (p : Messages.Contract)
    → contract_to_proto cast_int c ≡ some p
    → c.currency ≡ codes "USD"
    → currency_of p.strike ≡ usd
unfolding contract_to_proto
contract_to_proto-currency cast_int c p h dollars =
    let (e, q, r) = >>=-eq-some (expiry_read cast_int c.expiry) _ h in
    let made = ap (λ o. get_or o p) r in ap (λ x. currency_of x.strike) (sym made) ∙ rw dollars refl

-- The details of a contract in USD that the broker sends are published, and the contract manager that
-- reads them finds the contract by its key from then on, and goes on.
pub contract_details-find_contract :
    (cast_int : Str → Option ℤ) (print_double : ℕ → Str) (serialize : DetailsResponse → Option Str)
    (parse : Str → Option ContractManager.ContractDetails) (c : ContractDetails) (now : ℕ)
    (t : Times) (d : Dispatcher) (m : DetailsMessage) (text : Str)
    (manager : ContractManager.Manager)
    → details_to_proto cast_int print_double c ≡ some m
    → c.summary.currency ≡ codes "USD"
    → d.connected ≡ true
    → serialize (record { timestamp = now; message_id = now; details = m }) ≡ some text
    → parse text ≡ some (details_seen m)
    → (contract_details cast_int print_double serialize c now t d
        ≡ some (published t response_topic text d))
      × ((manager' : ContractManager.Manager) × (handle_contract_details_response parse
              response_topic text manager
            ≡ Messaging.returned true manager')
          × (find_contract
                (Contracts.symbol_from_contract print_double (as_read m.summary))
                manager'
              ≡ some (summary_seen m.summary)))
unfolding contract_details
contract_details-find_contract cast_int print_double serialize parse c now t d m text manager made
      dollars up ser par =
    (
      rw (contract_details, made, ser) (publish_event-sent response_topic text t d up),
      let (summary, symbol) = details_to_proto-made cast_int print_double c m made in
          let (manager', h, found) =
            find_contract-response parse response_topic text manager (details_seen m) par in
          let key = Contracts.symbol_from_contract print_double (as_read m.summary) in
          let same_key : same m.symbol key ≡ true = (same_iff m.symbol key).1 symbol in
          let is_usd = contract_to_proto-currency cast_int c.summary m.summary summary dollars in
          (manager', h, found key ∙ rw (is_usd, same_key) refl),
    )

-- What the contract manager reads of the end of a request's details.
abbrev pub end_seen : DetailsEnd → ContractManager.DetailsEnd
end_seen e = record { request_id = e.request_id }

-- When the broker's API reports that it knows no such contract, error 200, for a request that a contract
-- manager made, the end of the request's details is published, and the manager that reads it makes the
-- request's response ready and changes no earlier one.
pub on_error-request :
    (serialize : DetailsEnd → Option Str) (parse : Str → Option ContractManager.DetailsEnd)
    (id now : ℕ) (t : Times) (d : Dispatcher) (text : Str) (contract : Summary)
    (manager : ContractManager.Manager)
    → id < 2 ^ 31
    → d.connected ≡ true
    → IsValid manager
    → serialize (record { timestamp = now; message_id = now; request_id = id }) ≡ some text
    → parse text ≡ some (end_seen (record { timestamp = now; message_id = now; request_id = id }))
    → (on_error
          (λ code request. on_no_contract_definition serialize code request now t)
          (pos id)
          (pos 200)
          d
        ≡ some (returned (published t end_topic text d)))
      × ((manager' : ContractManager.Manager) × (handle_contract_details_end parse end_topic text
              (request_contract_details id contract manager).1
            ≡ Messaging.returned true manager')
          × (get_elem? manager'.awaited.responses (length manager.awaited.responses)
              ≡ some (some (record { request_id = id })))
          × ((j : ℕ)
              → j < length manager.awaited.responses
              → get_elem? manager'.awaited.responses j ≡ get_elem? manager.awaited.responses j))
unfolding on_error on_no_contract_definition contract_details_end
on_error-request serialize parse id now t d text contract manager small up v ser par =
    let same_id : id % size_mod % 2 ^ 32 ≡ id = omega arith in
    let (manager', h, ready, others, sent) =
      handle_contract_details_end-request parse end_topic text contract manager
        (record { request_id = id }) v par in
    (rw (same_id, ser, publish_event-sent end_topic text t d up) refl, (manager', h, ready, others))
