-- ===== src/Broker/Key.antt =====
-- One contract has one key, on both sides of the gateway.
use atp.Common.{ℕ, ◌≡◌, refl, ap, ◌∙◌, ◌≢◌, true, Option, none, some, [], ◌∷◌, arith}
use atp.Common.Text.{Str, codes}
use atp.Contracts.{
  ContractType, index, stock, option, Right, call, put, symbol_of, format_expiry,
  format_option_contract_key,
}
use atp.Broker.Messages.{
  get_or, type_of, as_read, is_set, is_initialized_contract, Money, Date, amount_of, year_of,
  month_of, day_of,
}
use atp.Broker.Messages
use atp.Broker.ContractMarshall.{
  contract_from_proto, is_complete, filled, right_filled, strike_filled, expiry_filled,
}
use atp.Tickers.Registry.{Contract, dotted, symbol_from_contract}
use atp.Contracts

dotted_lem : (s t : Str) → dotted s t ≡ Contracts.dotted s t
dotted_lem [] t = refl
dotted_lem (c ∷ s) t = ap (λ l. c ∷ l) (dotted_lem s t)

-- The fields that the key of an option needs are set.
abbrev pub HasTerms : Messages.Contract → Type 0
HasTerms p = (is_set p.right ≡ true) × (is_set p.strike ≡ true) × (is_set p.expiry ≡ true)

pub contract_from_proto-filled :
    (c : Contract) (p : Messages.Contract)
    → (contract_from_proto c p).0 ≡ true
    → (contract_from_proto c p ≡ (true, filled c p))
      × (is_initialized_contract p ≡ true)
      × (is_complete p ≡ true)
unfolding contract_from_proto
contract_from_proto-filled c p h = ground arith

HasTerms-complete :
    (p : Messages.Contract)
    → is_complete p ≡ true
    → type_of p ≡ option
    → get_or p.id 0 ≢ 0
    → HasTerms p
unfolding is_complete
HasTerms-complete p h t known = ground arith

right_filled-set :
    (r : Option Right) (old : Str)
    → is_set r ≡ true
    → right_filled r old ≡ Contracts.right_code (get_or r put)
right_filled-set none old h = cc
right_filled-set (some call) old h = refl
right_filled-set (some put) old h = refl

strike_filled-set :
    (m : Option Money) (old : ℕ) → is_set m ≡ true → strike_filled m old ≡ amount_of m
strike_filled-set none old h = cc
strike_filled-set (some m) old h = refl

expiry_filled-set :
    (d : Option Date) (old : Str)
    → is_set d ≡ true
    → expiry_filled d old ≡ format_expiry (year_of d) (month_of d) (day_of d)
unfolding expiry_filled
expiry_filled-set none old h = cc
expiry_filled-set (some d) old h = refl

module _ (print_double : ℕ → Str) (c : Contract) (p : Messages.Contract) where
  key-filled :
      (t : ContractType)
      → type_of p ≡ t
      → (t ≡ option → HasTerms p)
      → symbol_from_contract print_double (filled c p) ≡ symbol_of print_double t (as_read p)
  unfolding symbol_from_contract symbol_of format_option_contract_key filled
  key-filled index e h = rw e (dotted_lem (get_or p.symbol []) (codes "IND"))
  key-filled stock e h = rw e (dotted_lem (get_or p.symbol []) (codes "STK"))
  key-filled option e h =
      let (r, s, x) = h refl in
      rw
        (
          e,
          right_filled-set p.right c.right r,
          strike_filled-set p.strike c.strike s,
          expiry_filled-set p.expiry c.expiry x,
        )
        (simp dotted_lem)

  -- The key under which the gateway registers a contract that it accepts is the key that the rest of
  -- the platform makes from the message, unless the message has no id.
  pub symbol_from_contract-contract_from_proto :
      (contract_from_proto c p).0 ≡ true
      → get_or p.id 0 ≢ 0
      → symbol_from_contract print_double (contract_from_proto c p).1
        ≡ Contracts.symbol_from_contract print_double (as_read p)
  symbol_from_contract-contract_from_proto h known =
      let (e, i, complete) = contract_from_proto-filled c p h in
      ap (λ r. symbol_from_contract print_double r.1) e
      ∙ key-filled (type_of p) refl (λ t. HasTerms-complete p complete t known)
