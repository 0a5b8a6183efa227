-- ===== src/Broker/Unresolved.antt =====
-- A contract that is subscribed to without its id.
use atp.Common.{
  ℕ, ◌+◌, ◌≡◌, refl, sym, ap, ◌∙◌, true, false, [], ◌∷◌, ◌++◌, Option, none, some, length, arith,
  inl, inr, Bool-cases, Option-cases, get_elem?,
}
use atp.Common.Int.{ℤ, pos, is_positive, to_int64}
use atp.Common.Eq.{int_eq}
use atp.Common.Map.{find, find-assign_ne}
use atp.Common.Text.{Str}
use atp.Historian.Messages.{MarketData, Scalar, Content}
use atp.Broker.Messages
use atp.Broker.Messages.{get_or}
use atp.Broker.ContractMarshall.{contract_from_proto, filled}
use atp.Broker.Key.{contract_from_proto-filled}
use atp.Broker.OrderMarshall.{Order}
use atp.Broker.Requests.{Gateway, Call, call_api, registered_call}
use atp.Broker.Subscribed.{
  Subscription, request_of, call_of, call_api-accepted, call_api-registered,
}
use atp.Broker.TickTypes.{tick_type_names}
use atp.Broker.Dispatch.{
  Dispatcher, Times, counting, on_unresolved_topic, on_completed_publish_request, publish,
  publish_known,
}
use atp.Broker.Ticks.{Tick, on_tick, on_tick-publish, scalar_of, content_of}
use atp.Tickers.Registry.{
  Contract, Tickers, symbol_from_contract, ticker_id_for, register_contract, with_contract,
  get_subscription_key_from_id,
}
use atp.Tickers.Registry.Keyed.{register_contract-new, register_contract-taken}

-- The dispatcher after an event of a ticker without a key.
abbrev pub dropped : Times → Dispatcher → Dispatcher
dropped t d =
    counting (on_completed_publish_request t.start t.stop) (counting on_unresolved_topic d)

get_subscription_key-none :
    (id : ℤ) (t : Tickers)
    → find id t.symbols ≡ none
    → (get_subscription_key_from_id id t).0 ≡ false
unfolding get_subscription_key_from_id
get_subscription_key-none id t h = rw (get_subscription_key_from_id, h) refl

module _ (tickers : Tickers) (serialize : MarketData → Option Str) where
  publish-dropped :
      (ticker_id : ℤ) (field : ℕ) (s : Scalar) (value : Content s) (t : Times) (d : Dispatcher)
      (tick : Str)
      → find ticker_id tickers.symbols ≡ none
      → get_elem? tick_type_names field ≡ some tick
      → publish tickers serialize ticker_id field s value t d ≡ some (dropped t d)
  unfolding publish publish_known get_subscription_key_from_id
  publish-dropped ticker_id field s value t d tick free name =
      rw (publish, name, get_subscription_key_from_id, free) refl

-- The number that the registry makes is not zero.
register_contract-zero :
    (print_double : ℕ → Str) (c : Contract) (t : Tickers)
    → c.con_id ≡ pos 0
    → find (pos 0) t.symbols ≡ none
    → find (pos 0) (register_contract print_double c t).1.symbols ≡ none
unfolding with_contract ticker_id_for
register_contract-zero print_double c t zero_id free =
    let made : ticker_id_for c.con_id t ≡ pos (length t.contracts + 1) = rw zero_id refl in
    elim (Option-cases (find (ticker_id_for c.con_id t) t.symbols)) [
      | inl p ↦
          ap (λ r. find (pos 0) r.1.symbols) (register_contract-new print_double c t p)
          ∙ find-assign_ne (ticker_id_for c.con_id t) (pos 0) (symbol_from_contract print_double c)
              t.symbols (λ e. ground (arith, sym made ∙ e))
          ∙ free
      | inr (old, p) ↦
          ap (λ r. find (pos 0) r.1.symbols) (register_contract-taken print_double c t old p) ∙ free
    ]

registered_call-tickers :
    (print_double : ℕ → Str) (c : Contract) (call : Contract → Call) (g : Gateway)
    → (registered_call print_double (true, c) call g).1.tickers
      ≡ (register_contract print_double c g.tickers).1
unfolding registered_call
registered_call-tickers print_double c call g =
    elim (Bool-cases (is_positive (register_contract print_double c g.tickers).0)) [
      | inl p ↦ rw (registered_call, p) refl
      | inr p ↦ rw (registered_call, p) refl
    ]

registered_call-calls :
    (print_double : ℕ → Str) (c : Contract) (call : Contract → Call) (g : Gateway)
    → (registered_call print_double (true, c) call g).0 ≡ true
    → (registered_call print_double (true, c) call g).1.calls ≡ g.calls ++ (call c ∷ [])
unfolding registered_call
registered_call-calls print_double c call g h =
    elim (Bool-cases (is_positive (register_contract print_double c g.tickers).0)) [
      | inl p ↦ rw (registered_call, p) refl
      | inr p ↦ let bad : false ≡ true = sym (rw (registered_call, p) refl) ∙ h in cc bad
    ]

module _ (print_double : ℕ → Str) (new_contract : Contract) (new_order : Order) where
  -- A request whose contract comes without an id may succeed, and then the one call that it makes gives the
  -- broker the id zero. The registry, which knew no zero, does not know it then either: every tick that
  -- comes with it is dropped, and only counted.
  pub on_tick-without_id :
      (p : Messages.Contract) (s : Subscription) (g : Gateway) (serialize : MarketData → Option Str)
      (field : ℕ) (e : Tick) (t : Times) (d : Dispatcher) (tick : Str)
      → (call_api print_double new_contract new_order (request_of p s) g).0 ≡ true
      → get_or p.id 0 ≡ 0
      → find (pos 0) g.tickers.symbols ≡ none
      → get_elem? tick_type_names field ≡ some tick
      → ((call_api print_double new_contract new_order (request_of p s) g).1.calls
          ≡ g.calls ++ (call_of (pos 0) (contract_from_proto new_contract p).1 s ∷ []))
        × (on_tick
              (call_api print_double new_contract new_order (request_of p s) g).1.tickers
              serialize
              (pos 0)
              field
              e
              t
              d
            ≡ some (dropped t d))
  unfolding filled
  on_tick-without_id p s g serialize field e t d tick h zero_id free name =
      let after = (call_api print_double new_contract new_order (request_of p s) g).1.tickers in
      let c = filled new_contract p in
      let call = λ (c : Contract). call_of (to_int64 (get_or p.id 0)) c s in
      let accepted = call_api-accepted print_double new_contract new_order p s g h in
      let (eq, i, complete) = contract_from_proto-filled new_contract p accepted in
      let r : after ≡ (register_contract print_double c g.tickers).1 =
        ap (λ m. m.1.tickers) (call_api-registered print_double new_contract new_order p s g)
        ∙ ap (λ m. (registered_call print_double m call g).1.tickers) eq
        ∙ registered_call-tickers print_double c call g in
      let none_there : find (pos 0) after.symbols ≡ none =
        ap (λ m. find (pos 0) m.symbols) r
        ∙ register_contract-zero print_double c g.tickers (rw zero_id refl) free in
      let q : call_api print_double new_contract new_order (request_of p s) g
          ≡ registered_call print_double (true, c) call g =
        call_api-registered print_double new_contract new_order p s g
        ∙ ap (λ m. registered_call print_double m call g) eq in
      (
        ap (λ m. m.1.calls) q
            ∙ registered_call-calls print_double c call g (sym (ap (λ m. m.0) q) ∙ h)
            ∙ ap (λ i. g.calls ++ (call_of (to_int64 i) c s ∷ [])) zero_id
            ∙ ap (λ m. g.calls ++ (call_of (pos 0) m.1 s ∷ [])) (sym eq),
        on_tick-publish after serialize (pos 0) field e t d
            ∙ publish-dropped after serialize (pos 0) field (scalar_of e) (content_of e) t d tick
                none_there name,
      )
