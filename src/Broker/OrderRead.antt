-- ===== src/Broker/OrderRead.antt =====
-- What the gateway writes back for an order that it was sent.
use atp.Common.{ℕ, ◌<◌, ◌%◌, ◌^◌, ◌≡◌, refl, ap, ◌∙◌, true, Option, none, some, [], arith}
use atp.Common.Int.{ℤ, size_mod, to_size, to_int32, to_size-to_int64, to_size-to_int32}
use atp.Broker.Messages.{
  get_or, is_set, is_initialized_order, Action, buy, sell, sshort, TimeInForce, day, gtc, ioc,
  Money, amount_of,
}
use atp.Broker.Messages
use atp.Broker.OrderMarshall.{
  Order, Priced, market_order, limit_order, stop_limit_order, order_of, order_from_proto,
  filled_order, with_prices, order_to_proto, priced_from_proto, market_to_proto, limit_to_proto,
  stop_limit_to_proto, action_read, action_code, tif_read, tif_code,
}

-- The numbers of a message fit its fields.
abbrev pub Fits : Messages.Order → Type 0
Fits p =
    (get_or p.id 0 < size_mod) × (get_or p.quantity 0 < 2 ^ 32) × (get_or p.min_quantity 0 < 2 ^ 32)

-- A message without its contract, and with what an order has for the fields that are not set.
abbrev pub written_order : Order → Messages.Order → Messages.Order
written_order o p = record p {
  ref = some (get_or p.ref []);
  contract = none;
  all_or_none = some (get_or p.all_or_none o.all_or_none);
  min_quantity = some (get_or p.min_quantity (to_size o.min_qty % 2 ^ 32));
  outside_rth = some (get_or p.outside_rth o.outside_rth);
  time_in_force = some (get_or p.time_in_force ioc);
}

abbrev only_amount : Option Money → Option Money
only_amount m = some (record { amount = some (amount_of m); currency = none })

abbrev pub written_priced : Order → Priced → Priced
written_priced o (market_order p) = market_order (written_order o p)
written_priced o (limit_order p l) = limit_order (written_order o p) (only_amount l)
written_priced o (stop_limit_order p l s) =
    stop_limit_order (written_order o p) (only_amount l) (only_amount s)

-- The overload for the kind of a message.
abbrev pub to_proto_like : Priced → Order → Priced
to_proto_like (market_order p) = market_to_proto
to_proto_like (limit_order p l) = limit_to_proto
to_proto_like (stop_limit_order p l s) = stop_limit_to_proto

action_read-action_code : (a : Action) → action_read (action_code a) ≡ some a
action_read-action_code buy = refl
action_read-action_code sell = refl
action_read-action_code sshort = refl

tif_read-tif_code : (t : TimeInForce) → tif_read (tif_code t) ≡ some t
tif_read-tif_code day = refl
tif_read-tif_code gtc = refl
tif_read-tif_code ioc = refl

get_or-set {ℓ} : {A : Type ℓ} (o : Option A) (d : A) → is_set o ≡ true → some (get_or o d) ≡ o
get_or-set none d h = cc
get_or-set (some a) d h = refl

min_quantity_written :
    (n : Option ℕ) (old : ℤ)
    → get_or n 0 < 2 ^ 32
    → to_size (elim n [ none ↦ old | some k ↦ to_int32 k ]) % 2 ^ 32
      ≡ get_or n (to_size old % 2 ^ 32)
min_quantity_written none old h = refl
min_quantity_written (some k) old h = to_size-to_int32 k h

order_from_proto-filled :
    (o : Order) (p : Messages.Order)
    → (order_from_proto o p).0 ≡ true
    → (order_from_proto o p ≡ (true, filled_order o p)) × (is_initialized_order p ≡ true)
unfolding order_from_proto
order_from_proto-filled o p h = ground arith

order_to_proto-order_from_proto :
    (o : Order) (p : Messages.Order)
    → (order_from_proto o p).0 ≡ true
    → Fits p
    → order_to_proto (order_from_proto o p).1 ≡ written_order o p
unfolding order_to_proto filled_order
order_to_proto-order_from_proto o p h (i, q, m) =
    let (e, r) = order_from_proto-filled o p h in
    let small : get_or p.quantity 0 % size_mod % 2 ^ 32 ≡ get_or p.quantity 0 = omega arith in
    rw
      (
        e,
        to_size-to_int64 (get_or p.id 0) i,
        small,
        min_quantity_written p.min_quantity o.min_qty m,
        action_read-action_code (get_or p.action buy),
        tif_read-tif_code (get_or p.time_in_force ioc),
        get_or-set p.id 0 (ground arith),
        get_or-set p.action buy (ground arith),
        get_or-set p.quantity 0 (ground arith),
      )
      refl

priced_from_proto-order :
    (o : Order) (p : Priced)
    → (priced_from_proto o p).0 ≡ true
    → ((order_from_proto o (order_of p)).0 ≡ true)
      × ((priced_from_proto o p).1 ≡ with_prices p (order_from_proto o (order_of p)).1)
unfolding priced_from_proto
priced_from_proto-order o p h = ground arith

order_to_proto-with_prices :
    (p : Priced) (o : Order) → order_to_proto (with_prices p o) ≡ order_to_proto o
unfolding order_to_proto
order_to_proto-with_prices (market_order p) o = refl
order_to_proto-with_prices (limit_order p l) o = refl
order_to_proto-with_prices (stop_limit_order p l s) o = refl

to_proto_like_lem :
    (p : Priced) (o o' : Order)
    → order_to_proto o' ≡ written_order o (order_of p)
    → to_proto_like p (with_prices p o') ≡ written_priced o p
unfolding market_to_proto limit_to_proto stop_limit_to_proto
to_proto_like_lem (market_order p) o o' e = ap market_order e
to_proto_like_lem (limit_order p l) o o' e =
    ap (λ r. limit_order r (only_amount l)) (order_to_proto-with_prices (limit_order p l) o' ∙ e)
to_proto_like_lem (stop_limit_order p l s) o o' e =
    ap (λ r. stop_limit_order r (only_amount l) (only_amount s))
      (order_to_proto-with_prices (stop_limit_order p l s) o' ∙ e)

-- A market, limit or stop limit order that the gateway accepts, whose numbers fit, is written back with the
-- fields and the amounts of its prices that the message had, and without its contract and its currencies.
-- Of those that were not set, the reference is written as empty, the time in force as IOC and an amount as
-- 0; all-or-none, the minimal quantity and outside-hours are written as the order had them.
pub to_proto_like-priced_from_proto :
    (o : Order) (p : Priced)
    → (priced_from_proto o p).0 ≡ true
    → Fits (order_of p)
    → to_proto_like p (priced_from_proto o p).1 ≡ written_priced o p
to_proto_like-priced_from_proto o p h fits =
    let (accepted, e) = priced_from_proto-order o p h in
    ap (to_proto_like p) e
    ∙ to_proto_like_lem p o (order_from_proto o (order_of p)).1
        (order_to_proto-order_from_proto o (order_of p) accepted fits)
