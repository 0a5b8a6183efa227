-- ===== src/Historian/Messages/Variants.antt =====
-- What the variants of `Value` and `Record` give back (proto/common.hpp, proto/historian.hpp).
use atp.Common.{◌<◌, ◌^◌, ◌≡◌, refl, ap, false, none, some, arith}
use atp.Common.Int.{ℤ, pos, negsuc}
use atp.Common.Text.{Str}
use atp.Historian.Messages.{
  Scalar, double, int, string, Content, value_type, value_type_test, Value, value_as, set_value_as,
  to_int, Kind, kind_test, Payload, Record, as_payload, set_as, indexed_value, session_log,
  ib_market_data, ib_market_depth,
}

-- The numbers that `int` holds; the other types hold all that a field does.
abbrev pub Fits : (t : Scalar) → Content t → Type 0
Fits int (pos n) = n < 2 ^ 31
Fits int (negsuc n) = n < 2 ^ 31
Fits double x = Unit
Fits string x = Unit

to_int-Fits : (z : ℤ) → Fits int z → to_int z ≡ z
to_int-Fits (pos n) h = ground arith
to_int-Fits (negsuc n) h = ground arith

-- A value that is set as one type, over whatever was there, is read back as that type unchanged,
-- and as any other type it is absent.
value_as-set_value_as :
    (t : Scalar) (x : Content t) (v : Value)
    → Fits t x
    → (value_as t (set_value_as t x v) ≡ some x)
      × ((u : Scalar)
          → value_type_test (value_type t) (value_type u) ≡ false
          → value_as u (set_value_as t x v) ≡ none)
unfolding value_as set_value_as
value_as-set_value_as double x v h = (refl, λ u e. rw e refl)
value_as-set_value_as int x v h = (ap some (to_int-Fits x h), λ u e. rw e refl)
value_as-set_value_as string x v h = (refl, λ u e. rw e refl)

-- A payload that is set in a record, over whatever was there, is read back as its own kind
-- unchanged and as no other kind; so a record that `wrap` makes carries one kind.
pub as_payload-set_as :
    (t u : Kind) (x : Payload t) (r : Record)
    → (as_payload t (set_as t x r) ≡ some x)
      × ((kind_test t u ≡ false) → as_payload u (set_as t x r) ≡ none)
      × ((set_as t x r).key ≡ r.key)
unfolding as_payload set_as
as_payload-set_as indexed_value u x r = (refl, λ e. rw e refl, refl)
as_payload-set_as session_log u x r = (refl, λ e. rw e refl, refl)
as_payload-set_as ib_market_data u x r = (refl, λ e. rw e refl, refl)
as_payload-set_as ib_market_depth u x r = (refl, λ e. rw e refl, refl)

-- A record that is given its key, as a query does, carries what it carried.
as_payload-key :
    (t : Kind) (r : Record) (k : Str) → as_payload t (record r { key = k }) ≡ as_payload t r
unfolding as_payload
as_payload-key indexed_value r k = refl
as_payload-key session_log r k = refl
as_payload-key ib_market_data r k = refl
as_payload-key ib_market_depth r k = refl
