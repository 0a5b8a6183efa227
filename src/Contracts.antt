-- ===== src/Contracts.antt =====
-- The keys of contracts (platform/contract_symbol.cpp). A double is its 64 bits; `cast_int` and
-- `cast_double` are boost::lexical_cast, where none is an exception, and `print_double` is `<<`.
pub mod Keys
pub mod Dates
use atp.Common.{
  ℕ, suc, ◌+◌, ◌-◌, Bool, true, false, Option, none, some, [], ◌∷◌, ◌++◌, length, take, drop,
  replicate, if◌then◌else◌, ltb, ◌==◌, ◌>>=◌, List,
}
use atp.Common.Int.{ℤ, pos, negsuc}
use atp.Common.Split.{split_from}
use atp.Common.Text.{Str, codes, decimal, same}

-- proto::ib::Contract, as far as the code reads it.
pub data ContractType : Type 0 where
  index : ContractType
  stock : ContractType
  option : ContractType

pub data Right : Type 0 where
  call : Right
  put : Right

pub record Contract : Type 0 where
  pub type : ContractType
  pub symbol : Str
  pub strike : ℕ
  pub right : Right
  pub year : ℤ
  pub month : ℤ
  pub day : ℤ

abbrev pub above_nine : ℤ → Bool
above_nine (pos n) = ltb 9 n
above_nine (negsuc n) = false

-- %<width>d
abbrev pub print_int : ℤ → Str
print_int (pos n) = decimal n
print_int (negsuc n) = b'-' ∷ decimal (suc n)

abbrev pub format_int : ℕ → ℤ → Str
format_int width n = replicate (width - length (print_int n)) b' ' ++ print_int n

-- A month or a day.
abbrev pub format_padded : ℤ → Str
format_padded n = if above_nine n then format_int 2 n else b'0' ∷ format_int 1 n

unfoldable pub format_expiry : (year month day : ℤ) → Str
format_expiry year month day = format_int 4 year ++ (format_padded month ++ format_padded day)

-- parse_date: none is an exception of a cast; otherwise whether it was read, with what was assigned.
unfoldable pub parse_date : (cast_int : Str → Option ℤ) → Str → Option (Option (ℤ × ℤ × ℤ))
parse_date cast_int date =
    if length date == 8
    then (do
      year ← cast_int (take 4 date)
      month ← cast_int (take 2 (drop 4 date))
      day ← cast_int (take 2 (drop 6 date))
      some (some (year, month, day)))
    else some none

abbrev pub right_code : Right → Str
right_code call = codes "C"
right_code put = codes "P"

abbrev pub dotted : Str → Str → Str
dotted s t = s ++ (b'.' ∷ t)

unfoldable pub format_option_contract_key :
    (print_double : ℕ → Str) → Str → ℕ → Right → (year month day : ℤ) → Str
unfolding format_expiry
format_option_contract_key print_double symbol strike right year month day = dotted symbol (
    dotted (codes "OPT")
      (dotted (format_expiry year month day) (dotted (print_double strike) (right_code right))))

unfoldable pub symbol_of : (print_double : ℕ → Str) → ContractType → Contract → Str
unfolding format_option_contract_key
symbol_of print_double stock c = dotted c.symbol (codes "STK")
symbol_of print_double index c = dotted c.symbol (codes "IND")
symbol_of print_double option c =
    format_option_contract_key print_double c.symbol c.strike c.right c.year c.month c.day

-- symbol_from_contract
abbrev pub symbol_from_contract : (print_double : ℕ → Str) → Contract → Str
symbol_from_contract print_double c = symbol_of print_double c.type c

-- What parse_encoded_symbol assigns; none is what it leaves as it was.
pub record Parsed : Type 0 where
  pub symbol : Option Str
  pub sec_type : Option ContractType
  pub strike : Option ℕ
  pub date : Option (ℤ × ℤ × ℤ)
  pub right : Option Right

abbrev pub nothing : Parsed
nothing = record { symbol = none; sec_type = none; strike = none; date = none; right = none }

-- The right that the last part gives: "P", "C" or neither.
abbrev pub right_of : Str → Option Right
right_of part =
    if same part (codes "C") then some call else if same part (codes "P") then some put else none

module _ (cast_int : Str → Option ℤ) (cast_double : Str → Option ℕ) where
  -- The branch of an option with five parts: the third is cast to the strike, and the last is read as
  -- the date and then as the right.
  unfoldable pub parse_option : Str → Str → Str → Option (Bool × Parsed)
  unfolding parse_date
  parse_option symbol third last = do
    strike ← cast_double third
    let read = record nothing { symbol = some symbol; sec_type = some option; strike = some strike }
    date ← parse_date cast_int last
    some (elim date [
      | none ↦ (false, read)
      | some d ↦ (true, record read { date = some d; right = right_of last })
    ])

  unfoldable pub parse_parts : List Str → Option (Bool × Parsed)
  unfolding parse_option
  parse_parts [] = some (false, nothing)
  parse_parts (symbol ∷ []) = some (false, nothing)
  parse_parts (symbol ∷ type ∷ rest) =
      let known = record nothing { symbol = some symbol } in
      if same type (codes "STK")
      then some (true, record known { sec_type = some stock })
      else if same type (codes "IND")
      then some (true, record known { sec_type = some index })
      else if same type (codes "OPT")
      then (elim rest [
        | third ∷ (fourth ∷ (last ∷ [])) ↦ parse_option symbol third last
        | _ ↦ some (false, known)
      ])
      else some (false, known)

  -- parse_encoded_symbol: none is an exception of a cast; otherwise the result and what it assigned.
  unfoldable pub parse_encoded_symbol : Str → Option (Bool × Parsed)
  unfolding parse_parts split_from
  parse_encoded_symbol key = parse_parts (split_from b'.' [] key)
