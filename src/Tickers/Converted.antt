-- ===== src/Tickers/Converted.antt =====
-- convert_to_contract of ib/TickerMap.cpp, which reads a contract from a map of texts.
use atp.Common.{ℕ, ◌≡◌, refl, Bool, true, false, none, some, List, [], ◌∷◌, if◌then◌else◌}
use atp.Common.Int.{ℤ}
use atp.Common.Map.{Map, find}
use atp.Common.Text.{Str, str_eq, same, codes}
use atp.Tickers.Registry.{Contract}

-- A field of the map and what it is assigned to.
abbrev pub Assignment : Type 0
Assignment = Str × (Str → Contract → Contract)

-- The assignments in their order, up to a field that is missing, whose exception is caught: what was
-- assigned before it stays.
unfoldable pub assign_fields : Map Str Str → List Assignment → Contract → Bool × Contract
unfolding find
assign_fields input [] output = (true, output)
assign_fields input ((key, set) ∷ fields) output = elim (find key input) [
  | none ↦ (false, output)
  | some text ↦ assign_fields input fields (set text output)
]

-- from_string of an int and of a double, as its bits: what `>>` makes of a text and of the value that
-- was there.
module _ (read_int : Str → ℤ → ℤ) (read_double : Str → ℕ → ℕ) where
  abbrev pub fields : List Assignment
  fields =
      (codes "conId", λ t c. record c { con_id = read_int t c.con_id })
      ∷ (codes "symbol", λ t c. record c { symbol = t })
      ∷ (codes "secType", λ t c. record c { sec_type = t })
      ∷ (codes "currency", λ t c. record c { currency = t })
      ∷ (codes "localSymbol", λ t c. record c { local_symbol = t })
      ∷ []

  abbrev pub option_fields : List Assignment
  option_fields =
      (codes "right", λ t c. record c { right = t })
      ∷ (codes "strike", λ t c. record c { strike = read_double t c.strike })
      ∷ (codes "multiplier", λ t c. record c { multiplier = t })
      ∷ (codes "expiry", λ t c. record c { expiry = t })
      ∷ []

  unfoldable pub convert_to_contract : Map Str Str → Contract → Bool × Contract
  unfolding assign_fields
  convert_to_contract input output =
      let (read, c) = assign_fields input fields output in
      if read
      then (if same c.sec_type (codes "STK")
          then (true, c)
          else assign_fields input option_fields c)
      else (false, c)

  -- A stock needs only the first five fields.
  convert_to_contract-stock :
      (input : Map Str Str) (output : Contract) (id symbol currency local_symbol : Str)
      → find (codes "conId") input ≡ some id
      → find (codes "symbol") input ≡ some symbol
      → find (codes "secType") input ≡ some (codes "STK")
      → find (codes "currency") input ≡ some currency
      → find (codes "localSymbol") input ≡ some local_symbol
      → convert_to_contract input output ≡ (
        true,
        record output {
          con_id = read_int id output.con_id;
          symbol = symbol;
          sec_type = codes "STK";
          currency = currency;
          local_symbol = local_symbol;
        },
      )
  unfolding convert_to_contract
  convert_to_contract-stock input output id symbol currency local_symbol a b c d e =
      rw
        (
          convert_to_contract, assign_fields, a, assign_fields, b, assign_fields, c, assign_fields,
          d, assign_fields, e,
        )
        refl
