-- ===== src/LogReader/Known.antt =====
-- What the ticker ids stand for after an action.
use atp.Common.{◌≡◌, ◌≢◌, refl, ◌∙◌, true, false, none, some, arith, Bool-cases, inl, inr}
use atp.Common.Int.{ℤ}
use atp.Common.Eq.{int_eq}
use atp.Common.Map.{find, assign}
use atp.Common.Text.{Str, str_eq, codes, same, same_iff}
use atp.LogReader.{ok, aborted, Log, Casts, get_field}
use atp.LogReader.Lines.{line_to_record}
use atp.LogReader.Records.{Symbols}
use atp.LogReader.Actions.{symbol_from_contract, add_symbol, map_id_to_symbols}

-- The action names the ticker id and a contract with the symbol.
pub record IsNaming (casts : Casts) (log : Log) (ticker_id : ℤ) (symbol : Str) : Type 0 where
  pub text : Str
  pub at_id : get_field casts.to_long log (codes "id") ≡ ok ticker_id
  pub at_contract : find (codes "contract") log ≡ some text
  pub at_symbol : symbol_from_contract (line_to_record text b':' b';') ≡ ok symbol

module _ (casts : Casts) (log : Log) (ticker_id : ℤ) (symbol : Str) (symbols : Symbols) where
  map_id_to_symbols-add_symbol :
      IsNaming casts log ticker_id symbol
      → map_id_to_symbols casts log symbols ≡ add_symbol ticker_id symbol symbols
  unfolding map_id_to_symbols
  map_id_to_symbols-add_symbol n = rw (map_id_to_symbols, n.at_id, n.at_contract, n.at_symbol) refl

  -- A ticker id that is new gets the symbol, one that has the symbol keeps it, and one that has
  -- another symbol ends the program.
  map_id_to_symbols-IsNaming :
      IsNaming casts log ticker_id symbol
      → (find ticker_id symbols ≡ none
          → map_id_to_symbols casts log symbols ≡ ok (true, assign ticker_id symbol symbols))
        × (find ticker_id symbols ≡ some symbol
            → map_id_to_symbols casts log symbols ≡ ok (false, symbols))
        × ((known : Str)
            → find ticker_id symbols ≡ some known
            → known ≢ symbol
            → map_id_to_symbols casts log symbols ≡ aborted)
  unfolding add_symbol
  map_id_to_symbols-IsNaming n =
      let e = map_id_to_symbols-add_symbol n in
      (
        λ h. e ∙ rw (add_symbol, h) refl,
        λ h. e ∙ rw (add_symbol, h, (same_iff symbol symbol).1 refl) refl,
        λ known h ne.
            e
            ∙ rw (add_symbol, h)
                (elim (Bool-cases (same known symbol)) [
                  | inl p ↦ ground (arith, ne ((same_iff known symbol).0 p))
                  | inr p ↦ rw p refl
                ]),
      )
