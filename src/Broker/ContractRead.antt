-- ===== src/Broker/ContractRead.antt =====
-- What the gateway writes back for a contract that it was sent.
use atp.Common.{ℕ, ◌<◌, ◌≤◌, ◌≡◌, refl, true, Option, none, some, [], arith, if◌then◌else◌}
use atp.Common.Int.{ℤ, pos, size_mod, to_size-to_int64}
use atp.Common.Text.{Str, codes, same}
use atp.Contracts.{ContractType, index, stock, option, Right, call, put}
use atp.Contracts.Dates.{Casts, parse_date-format_expiry, length-format_expiry}
use atp.Broker.Messages.{
  get_or, type_of, is_set, Money, Date, amount_of, exchange_of, Currency, usd, other,
}
use atp.Broker.Messages
use atp.Broker.ContractMarshall.{
  contract_from_proto, contract_to_proto, filled, non_empty, expiry_read, type_read, right_read,
  sec_type_of, right_filled, currency_filled, currency_code, strike_filled, expiry_filled,
}
use atp.Broker.Key.{contract_from_proto-filled}
use atp.Tickers.Registry.{Contract}

-- A contract as it is made, before a message is copied into it.
pub record IsBlank (c : Contract) : Type 0 where
  pub local_symbol : c.local_symbol ≡ []
  pub right : c.right ≡ []
  pub strike : c.strike ≡ 0
  pub currency : c.currency ≡ []
  pub expiry : c.expiry ≡ []

-- A year of four digits, a month and a day of two.
abbrev pub IsDate : Option Date → Type 0
IsDate none = Unit {0}
IsDate (some d) =
    (year : ℕ) × (month : ℕ) × (day : ℕ) × (d
      ≡ record { year = some (pos year); month = some (pos month); day = some (pos day) })
    × (1000 ≤ year)
    × (year < 10000)
    × (month < 100)
    × (day < 100)

-- A message with its defaults written out, as the fields of a contract can carry them: a strike is
-- always there, OTHER is no currency, and the multiplier is gone.
abbrev pub usd_only : Option Money → Option Currency
usd_only none = none
usd_only (some m) = elim (get_or m.currency other) [ other ↦ none | usd ↦ some usd ]

abbrev pub written : Messages.Contract → Messages.Contract
written p = record p {
  type = some (type_of p);
  exchange = non_empty (exchange_of p);
  local_symbol = some (get_or p.local_symbol []);
  strike = some (record { amount = some (amount_of p.strike); currency = usd_only p.strike });
  multiplier = none;
}

type_read-sec_type_of : (t : ContractType) → type_read (sec_type_of t) ≡ some t
type_read-sec_type_of index = refl
type_read-sec_type_of stock = refl
type_read-sec_type_of option = refl

right_read-right_filled : (r : Option Right) → right_read (right_filled r []) ≡ r
right_read-right_filled none = refl
right_read-right_filled (some call) = refl
right_read-right_filled (some put) = refl

usd_only-currency_filled :
    (m : Option Money)
    → (if same (currency_filled m []) (codes "USD") then some usd else none) ≡ usd_only m
usd_only-currency_filled none = refl
usd_only-currency_filled (some m) =
    elim (get_or m.currency other)
      as (λ k.
        (if same (currency_code k []) (codes "USD") then some usd else none)
        ≡ (elim k [ other ↦ none | usd ↦ some usd ])) [ other ↦ refl | usd ↦ refl ]

strike_filled-amount_of : (m : Option Money) → strike_filled m 0 ≡ amount_of m
strike_filled-amount_of none = refl
strike_filled-amount_of (some m) = refl

get_or-set {ℓ} : {A : Type ℓ} (o : Option A) (d : A) → is_set o ≡ true → some (get_or o d) ≡ o
get_or-set none d h = cc
get_or-set (some a) d h = refl

module _ (cast_int : Str → Option ℤ) (casts : Casts cast_int) where
  expiry_read-expiry_filled :
      (d : Option Date) → IsDate d → expiry_read cast_int (expiry_filled d []) ≡ some d
  unfolding expiry_read expiry_filled
  expiry_read-expiry_filled none h = refl
  expiry_read-expiry_filled (some d) (year, month, day, e, y, k, m, n) =
      rw
        (
          e,
          length-format_expiry year month day y k m n,
          parse_date-format_expiry cast_int casts year month day y k m n,
        )
        refl

  -- A message that the gateway accepts into a new contract is written back from that contract with its
  -- defaults written out, except that its multiplier is lost.
  pub contract_to_proto-contract_from_proto :
      (c : Contract) (p : Messages.Contract)
      → IsBlank c
      → (contract_from_proto c p).0 ≡ true
      → get_or p.id 0 < size_mod
      → IsDate p.expiry
      → contract_to_proto cast_int (contract_from_proto c p).1 ≡ some (written p)
  unfolding contract_to_proto filled
  contract_to_proto-contract_from_proto c p blank h small date =
      let (e, i, complete) = contract_from_proto-filled c p h in
      rw
        (
          e,
          blank.local_symbol,
          blank.right,
          blank.strike,
          blank.currency,
          blank.expiry,
          expiry_read-expiry_filled p.expiry date,
          type_read-sec_type_of (type_of p),
          right_read-right_filled p.right,
          usd_only-currency_filled p.strike,
          strike_filled-amount_of p.strike,
          to_size-to_int64 (get_or p.id 0) small,
          get_or-set p.id 0 (ground arith),
          get_or-set p.symbol [] (ground arith),
        )
        refl
