-- ===== src/Broker/Calls.antt =====
-- A request makes one call of the broker's API when it succeeds, and none when it fails.
use atp.Common.{ℕ, ◌≡◌, refl, Bool, true, false, [], ◌∷◌, ◌++◌, ◌&&◌, inl, inr, Bool-cases}
use atp.Common.Int.{is_positive}
use atp.Common.Text.{Str}
use atp.Broker.OrderMarshall.{Order, Priced, order_of, priced_from_proto}
use atp.Broker.Messages.{contract_of}
use atp.Broker.ContractMarshall.{contract_from_proto}
use atp.Broker.Requests.{
  Body, Call, Gateway, call_api, marshalled, registered_call, placed, request_contract_details,
  request_market_data, cancel_market_data, request_market_depth, cancel_market_depth, cancel_order,
  place_order,
}
use atp.Tickers.Registry.{Contract, register_contract}

-- The calls of a result, after those that there were.
abbrev pub Once : Gateway → Bool × Gateway → Type 0
Once g r =
    ((r.0 ≡ true) → (call : Call) × (r.1.calls ≡ g.calls ++ (call ∷ [])))
    × ((r.0 ≡ false) → r.1.calls ≡ g.calls)

registered_call-Once :
    (print_double : ℕ → Str) (m : Bool × Contract) (call : Contract → Call) (g : Gateway)
    → Once g (registered_call print_double m call g)
unfolding registered_call
registered_call-Once print_double (false, c) call g = (λ h. cc, λ h. refl)
registered_call-Once print_double (true, c) call g =
    elim (Bool-cases (is_positive (register_contract print_double c g.tickers).0)) [
      | inl p ↦ rw p (λ h. (call c, refl), λ h. cc)
      | inr p ↦ rw p (λ h. cc, λ h. refl)
    ]

placed-Once :
    (new_contract : Contract) (new_order : Order) (p : Priced) (g : Gateway)
    → Once g (placed new_contract new_order p g)
unfolding placed
placed-Once new_contract new_order p g =
    elim (Bool-cases (
      (priced_from_proto new_order p).0
      && (contract_from_proto new_contract (contract_of (order_of p))).0)) [
        | inl q ↦ rw q (λ h. (_, refl), λ h. cc)
        | inr q ↦ rw q (λ h. cc, λ h. refl)
      ]

module _ (print_double : ℕ → Str) (new_contract : Contract) (new_order : Order) where
  -- Whatever the request is, it makes one call when it succeeds and none when it fails.
  pub call_api-Once :
      (b : Body) (g : Gateway) → Once g (call_api print_double new_contract new_order b g)
  unfolding call_api
  call_api-Once (request_contract_details id p) g =
      elim (Bool-cases (marshalled new_contract p).0) [
        | inl q ↦ rw q (λ h. (_, refl), λ h. cc)
        | inr q ↦ rw q (λ h. cc, λ h. refl)
      ]
  call_api-Once (request_market_data p tick_types snapshot) g =
      registered_call-Once print_double (marshalled new_contract p) _ g
  call_api-Once (cancel_market_data p) g = (λ h. (_, refl), λ h. cc)
  call_api-Once (request_market_depth p rows) g =
      registered_call-Once print_double (marshalled new_contract p) _ g
  call_api-Once (cancel_market_depth p) g = (λ h. (_, refl), λ h. cc)
  call_api-Once (cancel_order id) g = (λ h. (_, refl), λ h. cc)
  call_api-Once (place_order p) g = placed-Once new_contract new_order p g
