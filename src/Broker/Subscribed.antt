-- ===== src/Broker/Subscribed.antt =====
-- A contract that is subscribed to, from the request to the callbacks on its ticks.
use atp.Common.{
  ℕ, ◌<◌, ◌^◌, ◌≡◌, refl, sym, ap, ◌∙◌, ◌≢◌, Bool, true, false, Option, some, List, [], ◌∷◌, ◌++◌,
  arith, inl, inr, Bool-cases, Option-cases,
}
use atp.Common.Int.{ℤ, pos, negsuc, is_positive, to_int64, to_int64_small}
use atp.Common.Eq.{int_eq, int_test}
use atp.Common.Map.{find, find-assign_self}
use atp.Common.Text.{Str, str_eq, same, same_iff}
use atp.Contracts
use atp.Broker.Messages
use atp.Broker.Messages.{get_or, as_read}
use atp.Broker.ContractMarshall.{contract_from_proto, filled}
use atp.Broker.Key.{contract_from_proto-filled, symbol_from_contract-contract_from_proto}
use atp.Broker.OrderMarshall.{Order}
use atp.Broker.Requests.{
  Gateway, Call, req_mkt_data, Body, req_mkt_depth, request_market_data, request_market_depth,
  call_api, marshalled, registered_call,
}
use atp.Tickers.Registry.Keyed.{register_contract-new, register_contract-taken}
use atp.Tickers.Registry.{
  Contract, Tickers, symbol_from_contract, ticker_id_for, register_contract, with_contract,
  get_subscription_key_from_id,
}

module _ (print_double : ℕ → Str) (c : Contract) (t : Tickers) where
  ticker_id_for-own : int_test c.con_id (pos 0) ≡ false → ticker_id_for c.con_id t ≡ c.con_id
  unfolding ticker_id_for
  ticker_id_for-own own = rw own refl

  -- A contract with an id of its own that the registry takes has its key under that id.
  register_contract-key :
      int_test c.con_id (pos 0) ≡ false
      → is_positive (register_contract print_double c t).0 ≡ true
      → find c.con_id (register_contract print_double c t).1.symbols
        ≡ some (symbol_from_contract print_double c)
  unfolding with_contract
  register_contract-key own h =
      let key = symbol_from_contract print_double c in
      let e = ticker_id_for-own own in
      elim (Option-cases (find (ticker_id_for c.con_id t) t.symbols)) [
        | inl p ↦
            ap (λ r. find c.con_id r.1.symbols) (register_contract-new print_double c t p)
            ∙ rw e (find-assign_self c.con_id key t.symbols)
        | inr (old, p) ↦ elim (Bool-cases (same old key)) [
          | inl q ↦
              ap (λ r. find c.con_id r.1.symbols) (register_contract-taken print_double c t old p)
              ∙ ap (λ i. find i t.symbols) (sym e)
              ∙ p
              ∙ ap some ((same_iff old key).0 q)
          | inr q ↦
              let bad : is_positive (negsuc 0) ≡ true =
                sym (
                  ap (λ r. is_positive r.0) (register_contract-taken print_double c t old p)
                  ∙ rw q refl)
                ∙ h in
              cc bad
        ]
      ]

  -- What a request does that registers its contract, when it succeeds.
  registered_call-key :
      (call : Contract → Call) (calls : List Call)
      → int_test c.con_id (pos 0) ≡ false
      → (registered_call print_double (true, c) call (record { tickers = t; calls = calls })).0
        ≡ true
      → (find c.con_id
            (registered_call print_double
              (true, c)
              call
              (record { tickers = t; calls = calls })).1.tickers.symbols
          ≡ some (symbol_from_contract print_double c))
        × ((registered_call print_double
              (true, c)
              call
              (record { tickers = t; calls = calls })).1.calls
            ≡ calls ++ (call c ∷ []))
  unfolding registered_call
  registered_call-key call calls own h =
      elim (Bool-cases (is_positive (register_contract print_double c t).0)) [
        | inl p ↦ rw p (register_contract-key own p, refl)
        | inr p ↦ let bad : false ≡ true = sym (rw (registered_call, p) refl) ∙ h in cc bad
      ]

get_subscription_key-found :
    (id : ℤ) (t : Tickers) (key : Str)
    → find id t.symbols ≡ some key
    → get_subscription_key_from_id id t ≡ (true, key)
unfolding get_subscription_key_from_id
get_subscription_key-found id t key h = rw (get_subscription_key_from_id, h) refl

-- The two requests that subscribe to a contract.
pub data Subscription : Type 0 where
  to_market_data : (tick_types : Option Str) → (snapshot : Option Bool) → Subscription
  to_market_depth : (rows : Option ℕ) → Subscription

abbrev pub request_of : Messages.Contract → Subscription → Body
request_of p (to_market_data tick_types snapshot) = request_market_data (some p) tick_types snapshot
request_of p (to_market_depth rows) = request_market_depth (some p) rows

abbrev pub call_of : ℤ → Contract → Subscription → Call
call_of id c (to_market_data tick_types snapshot) =
    req_mkt_data id c (get_or tick_types []) (get_or snapshot false)
call_of id c (to_market_depth rows) = req_mkt_depth id c (get_or rows 20)

module _ (print_double : ℕ → Str) (new_contract : Contract) (new_order : Order) where
  pub call_api-registered :
      (p : Messages.Contract) (s : Subscription) (g : Gateway)
      → call_api print_double new_contract new_order (request_of p s) g
        ≡ registered_call print_double
            (contract_from_proto new_contract p)
            (λ c. call_of (to_int64 (get_or p.id 0)) c s)
            g
  unfolding call_api marshalled
  call_api-registered p (to_market_data tick_types snapshot) g = refl
  call_api-registered p (to_market_depth rows) g = refl

  pub call_api-accepted :
      (p : Messages.Contract) (s : Subscription) (g : Gateway)
      → (call_api print_double new_contract new_order (request_of p s) g).0 ≡ true
      → (contract_from_proto new_contract p).0 ≡ true
  unfolding registered_call
  call_api-accepted p s g h = elim (Bool-cases (contract_from_proto new_contract p).0) [
    | inl q ↦ q
    | inr q ↦
        let refused : contract_from_proto new_contract p
            ≡ (false, (contract_from_proto new_contract p).1) =
          ap (λ b. (b, (contract_from_proto new_contract p).1)) q in
        let bad : false ≡ true =
          sym (
            ap (λ m. m.0)
              (call_api-registered p s g
                ∙ ap
                    (λ m.
                      registered_call print_double m (λ c. call_of (to_int64 (get_or p.id 0)) c s)
                        g)
                    refused))
          ∙ h in
        cc bad
  ]

  filled-con_id :
      (p : Messages.Contract)
      → get_or p.id 0 < 2 ^ 63
      → (filled new_contract p).con_id ≡ pos (get_or p.id 0)
  unfolding filled
  filled-con_id p small = to_int64_small (get_or p.id 0) small

  own-filled :
      (p : Messages.Contract)
      → get_or p.id 0 ≢ 0
      → get_or p.id 0 < 2 ^ 63
      → int_test (filled new_contract p).con_id (pos 0) ≡ false
  own-filled p known small = ap (λ i. int_test i (pos 0)) (filled-con_id p small) ∙ ground arith

  -- Once a request for the data or the depth of a contract with an id has succeeded, the id that the
  -- broker was given for it, and will send its ticks with, has the key that the platform makes from the
  -- message, and the request is the one call that was made.
  pub call_api-subscribed :
      (p : Messages.Contract) (s : Subscription) (g : Gateway)
      → (call_api print_double new_contract new_order (request_of p s) g).0 ≡ true
      → get_or p.id 0 ≢ 0
      → get_or p.id 0 < 2 ^ 63
      → (get_subscription_key_from_id
            (pos (get_or p.id 0))
            (call_api print_double new_contract new_order (request_of p s) g).1.tickers
          ≡ (true, Contracts.symbol_from_contract print_double (as_read p)))
        × ((call_api print_double new_contract new_order (request_of p s) g).1.calls
            ≡ g.calls
              ++ (call_of (pos (get_or p.id 0)) (contract_from_proto new_contract p).1 s ∷ []))
  call_api-subscribed p s g h known small =
      let accepted = call_api-accepted p s g h in
      let (e, i, complete) = contract_from_proto-filled new_contract p accepted in
      let c = filled new_contract p in
      let call = λ (c : Contract). call_of (to_int64 (get_or p.id 0)) c s in
      let id = filled-con_id p small in
      let r : call_api print_double new_contract new_order (request_of p s) g
          ≡ registered_call print_double (true, c) call g =
        call_api-registered p s g ∙ ap (λ m. registered_call print_double m call g) e in
      let (k, cs) =
        registered_call-key print_double c g.tickers call g.calls (own-filled p known small)
          (sym (ap (λ m. m.0) r) ∙ h) in
      let key : symbol_from_contract print_double c
          ≡ Contracts.symbol_from_contract print_double (as_read p) =
        ap (λ m. symbol_from_contract print_double m.1) (sym e)
        ∙ symbol_from_contract-contract_from_proto print_double new_contract p accepted known in
      (
        ap (λ m. get_subscription_key_from_id (pos (get_or p.id 0)) m.1.tickers) r
            ∙ get_subscription_key-found (pos (get_or p.id 0)) _ _ (
                ap (λ i. find i (registered_call print_double (true, c) call g).1.tickers.symbols)
                  (sym id)
                ∙ k
                ∙ ap some key),
        ap (λ m. m.1.calls) r
            ∙ cs
            ∙ ap (λ i. g.calls ++ (call_of i c s ∷ [])) (to_int64_small (get_or p.id 0) small)
            ∙ ap (λ m. g.calls ++ (call_of (pos (get_or p.id 0)) m.1 s ∷ [])) (sym e),
      )
