-- ===== src/LogReader/Actions.antt =====
-- The actions of a log, which say what the ticker ids stand for, and the events that are read
-- (service/LogReaderInternal.hpp, and the map of ib/contract_symbol.hpp).
use atp.Common.{ℕ, ◌+◌, Bool, true, false, none, some, [], ◌∷◌, if◌then◌else◌}
use atp.Common.Int.{ℤ}
use atp.Common.Eq.{int_eq}
use atp.Common.Map.{Map, find, assign, has}
use atp.Common.Text.{Str, str_eq, codes, same}
use atp.Contracts.{dotted}
use atp.LogReader.{Reading, ok, no, threw, aborted, ◌>>=◌, fatal, found, Log, Casts, get_field}
use atp.LogReader.Lines.{line_to_record}
use atp.LogReader.Records.{Symbols, event_value_map}

abbrev pub action_map : Map Str Str
action_map =
    (codes "reqMktData", codes "contract")
    ∷ (codes "reqMktDepth", codes "contract")
    ∷ (codes "reqRealTimeBars", codes "contract")
    ∷ (codes "reqHistoricalData", codes "contract")
    ∷ []

unfoldable pub is_action : Log → Bool
unfolding find has
is_action log = elim (find (codes "action") log) [
  | none ↦ false
  | some action ↦ has action action_map
]

-- is_supported: whether the event has a type, with the counts of those that have none.
unfoldable pub is_supported : Log → Map Str ℕ → Bool × Map Str ℕ
unfolding find has assign
is_supported log count = elim (find (codes "event") log) [
  | none ↦ (false, count)
  | some event ↦ if has event event_value_map then (true, count) else elim (find event count) [
    | none ↦ (false, assign event 0 count)
    | some n ↦ (false, assign event (n + 1) count)
  ]
]

-- contract.at(key), whose exception is caught.
unfoldable pub at : Str → Log → Reading Str
unfolding find
at key contract = found (find key contract)

-- symbol_from_contract<Map>
unfoldable pub symbol_from_contract : Log → Reading Str
unfolding at
symbol_from_contract contract = do
  symbol ← at (codes "symbol") contract
  type ← at (codes "secType") contract
  if same type (codes "OPT")
      then (do
        expiry ← at (codes "expiry") contract
        strike ← at (codes "strike") contract
        right ← at (codes "right") contract
        ok (dotted symbol (dotted type (dotted expiry (dotted strike right)))))
      else ok (dotted symbol type)

-- A symbol that another ticker id would be given is a collision.
unfoldable pub add_symbol : ℤ → Str → Symbols → Reading (Bool × Symbols)
unfolding find assign
add_symbol ticker_id symbol symbols = elim (find ticker_id symbols) [
  | none ↦ ok (true, assign ticker_id symbol symbols)
  | some known ↦ if same known symbol then ok (false, symbols) else aborted
]

-- map_id_to_symbols: its result, with the map of the symbols. The specification of the contract is a
-- list of names and values of its own.
unfoldable pub map_id_to_symbols : Casts → Log → Symbols → Reading (Bool × Symbols)
unfolding get_field find line_to_record symbol_from_contract add_symbol
map_id_to_symbols casts log symbols = elim (get_field casts.to_long log (codes "id")) [
  | no ↦ ok (false, symbols)
  | threw ↦ threw
  | aborted ↦ aborted
  | ok ticker_id ↦ elim (find (codes "contract") log) [
    | none ↦ ok (false, symbols)
    | some text ↦ fatal (symbol_from_contract (line_to_record text b':' b';')) >>= λ symbol.
        add_symbol ticker_id symbol symbols
  ]
]
