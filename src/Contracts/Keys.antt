-- ===== src/Contracts/Keys.antt =====
-- Which keys of contracts are read back.
use atp.Common.{
  ℕ, zero, suc, ◌+◌, ◌-◌, ◌/◌, ◌%◌, replicate, ◌≡◌, refl, sym, ap, ◌∙◌, ◌≢◌, Bool, true, Option,
  none, some, [], ◌∷◌, ◌++◌, length, arith, inl, inr, Bool-cases, Option-cases,
}
use atp.Common.Int.{ℤ, pos, negsuc}
use atp.Common.Split.{split_from, free, free-append, split_from-append, split_from-free}
use atp.Common.Text.{Str, codes, digits}
use atp.Contracts.{
  ContractType, stock, index, option, Contract, Parsed, nothing, dotted, symbol_of,
  parse_encoded_symbol, parse_parts, parse_option, right_code, Right, print_int, format_int,
  format_expiry, above_nine, format_padded, parse_date, call, put,
}

abbrev pub no_dot : Str → Bool
no_dot = free b'.'

no_dot-append_both : (s t : Str) → no_dot s ≡ true → no_dot t ≡ true → no_dot (s ++ t) ≡ true
no_dot-append_both s t h k = free-append b'.' s t ∙ rw (h, k) refl

no_dot-digits : (fuel n : ℕ) → no_dot (digits fuel n) ≡ true
unfolding digits
no_dot-digits zero n = refl
no_dot-digits (suc fuel) n = ground (
  arith,
  no_dot-digits fuel (n / 10),
  free-append b'.' (digits fuel (n / 10)) ((b'0' + n % 10) ∷ []),
)

no_dot-print_int : (n : ℤ) → no_dot (print_int n) ≡ true
no_dot-print_int (pos n) = no_dot-digits 20 n
no_dot-print_int (negsuc n) = no_dot-digits 20 (suc n)

no_dot-replicate : (n : ℕ) → no_dot (replicate n b' ') ≡ true
no_dot-replicate zero = refl
no_dot-replicate (suc n) = no_dot-replicate n

no_dot-format_int : (width : ℕ) (n : ℤ) → no_dot (format_int width n) ≡ true
no_dot-format_int width n =
    free-append b'.' (replicate (width - length (print_int n)) b' ') (print_int n)
    ∙ rw (no_dot-replicate (width - length (print_int n)), no_dot-print_int n) refl

-- A month or a day.
no_dot-padded : (n : ℤ) → no_dot (format_padded n) ≡ true
no_dot-padded n = elim (Bool-cases (above_nine n)) [
  | inl p ↦ rw p (no_dot-format_int 2 n)
  | inr p ↦ rw p (no_dot-format_int 1 n)
]

no_dot-format_expiry : (year month day : ℤ) → no_dot (format_expiry year month day) ≡ true
unfolding format_expiry
no_dot-format_expiry year month day =
    no_dot-append_both (format_int 4 year) (format_padded month ++ format_padded day)
      (no_dot-format_int 4 year)
      (no_dot-append_both (format_padded month) (format_padded day) (no_dot-padded month)
        (no_dot-padded day))

no_dot-right_code : (right : Right) → no_dot (right_code right) ≡ true
no_dot-right_code call = refl
no_dot-right_code put = refl

option_parts :
    (print_double : ℕ → Str) (c : Contract)
    → no_dot c.symbol ≡ true
    → no_dot (print_double c.strike) ≡ true
    → split_from b'.' [] (symbol_of print_double option c)
      ≡ c.symbol
        ∷ codes "OPT"
        ∷ format_expiry c.year c.month c.day
        ∷ print_double c.strike
        ∷ right_code c.right
        ∷ []
unfolding symbol_of
option_parts print_double c h k =
    let r = right_code c.right in
    let d = format_expiry c.year c.month c.day in
    let p = print_double c.strike in
    split_from-append b'.' [] c.symbol (dotted (codes "OPT") (dotted d (dotted p r))) h
    ∙ ap (λ l. c.symbol ∷ l)
        (split_from-append b'.' [] (codes "OPT") (dotted d (dotted p r)) refl
          ∙ ap (λ l. codes "OPT" ∷ l)
              (split_from-append b'.' [] d (dotted p r) (no_dot-format_expiry c.year c.month c.day)
                ∙ ap (λ l. d ∷ l)
                    (split_from-append b'.' [] p r k
                      ∙ ap (λ l. p ∷ l) (split_from-free b'.' [] r (no_dot-right_code c.right)))))

module _ (cast_int : Str → Option ℤ) (cast_double : Str → Option ℕ) where
  short-right : (right : Right) → parse_date cast_int (right_code right) ≡ some none
  unfolding parse_date
  short-right call = refl
  short-right put = refl

  parse_option-right :
      (symbol third : Str) (right : Right) (result : Parsed)
      → parse_option cast_int cast_double symbol third (right_code right) ≢ some (true, result)
  unfolding parse_option
  parse_option-right symbol third right result = elim (Option-cases (cast_double third)) [
    | inl p ↦ rw (parse_option, p) (ground arith)
    | inr (strike, p) ↦ rw (parse_option, p, short-right right) (ground arith)
  ]

  module _ (print_double : ℕ → Str) where
    -- The key of a stock or of an index whose symbol has no dot is read back as its symbol and type.
    pub parse_encoded_symbol-plain :
        (t : ContractType) (c : Contract)
        → no_dot c.symbol ≡ true
        → t ≢ option
        → parse_encoded_symbol cast_int cast_double (symbol_of print_double t c)
          ≡ some (true, record nothing { symbol = some c.symbol; sec_type = some t })
    unfolding parse_encoded_symbol symbol_of
    parse_encoded_symbol-plain stock c h n = ap (parse_parts cast_int cast_double) (
        split_from-append b'.' [] c.symbol (codes "STK") h
        ∙ ap (λ l. c.symbol ∷ l) (split_from-free b'.' [] (codes "STK") refl))
    parse_encoded_symbol-plain index c h n = ap (parse_parts cast_int cast_double) (
        split_from-append b'.' [] c.symbol (codes "IND") h
        ∙ ap (λ l. c.symbol ∷ l) (split_from-free b'.' [] (codes "IND") refl))
    parse_encoded_symbol-plain option c h n = ground (arith, n refl)

    -- The key of an option whose symbol and printed strike have no dot is never read back: its right
    -- stands where the date is looked for.
    pub parse_encoded_symbol-option :
        (c : Contract) (result : Parsed)
        → no_dot c.symbol ≡ true
        → no_dot (print_double c.strike) ≡ true
        → parse_encoded_symbol cast_int cast_double (symbol_of print_double option c)
          ≢ some (true, result)
    unfolding parse_encoded_symbol
    parse_encoded_symbol-option c result h k e =
        parse_option-right c.symbol (format_expiry c.year c.month c.day) c.right result
          (sym (ap (parse_parts cast_int cast_double) (option_parts print_double c h k)) ∙ e)
