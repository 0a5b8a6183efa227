-- ===== src/Contracts/Dates.antt =====
-- Dates are read back from the expiry that they are printed as.
use atp.Common.{
  ℕ, suc, ◌-◌, ◌<◌, ◌≤◌, ◌/◌, ◌≡◌, refl, sym, ap, ◌∙◌, ◌⊎◌, Option, some, ◌∷◌, ◌++◌, length,
  length-append, take-append, take_all, drop-append, drop-append_ge, take, drop, arith, inl, inr,
  Bool-cases, ltb,
}
use atp.Common.Int.{ℤ, pos}
use atp.Common.Text.{Str, decimal, length-digits_small, length-digits_large}
use atp.Contracts.{format_expiry, parse_date, format_int, format_padded}

-- boost::lexical_cast<int> reads the digits of a number, with a zero before them too.
abbrev pub Casts : (Str → Option ℤ) → Type 0
Casts cast_int =
    (n : ℕ)
    → n < 10000
    → (cast_int (decimal n) ≡ some (pos n)) × (cast_int (b'0' ∷ decimal n) ≡ some (pos n))

length-decimal_year : (n : ℕ) → 1000 ≤ n → n < 10000 → length (decimal n) ≡ 4
length-decimal_year n h k = omega (
  arith,
  length-digits_large 19 n (omega arith),
  length-digits_large 18 (n / 10) (omega arith),
  length-digits_large 17 (n / 10 / 10) (omega arith),
  length-digits_small 16 (n / 10 / 10 / 10) (omega arith),
)

length-decimal_two : (n : ℕ) → 10 ≤ n → n < 100 → length (decimal n) ≡ 2
length-decimal_two n h k =
    omega (arith, length-digits_large 19 n h, length-digits_small 18 (n / 10) (omega arith))

-- The width is reached, so nothing is put before the digits.
format_int-decimal :
    (width n : ℕ) → width ≤ length (decimal n) → format_int width (pos n) ≡ decimal n
format_int-decimal width n h = let e : width - length (decimal n) ≡ 0 = omega arith in rw e refl

format_padded-decimal :
    (n : ℕ)
    → n < 100
    → (length (format_padded (pos n)) ≡ 2)
      × ((format_padded (pos n) ≡ decimal n) ⊎ (format_padded (pos n) ≡ b'0' ∷ decimal n))
format_padded-decimal n h = elim (Bool-cases (ltb 9 n)) [
  | inl p ↦
      let e : format_padded (pos n) ≡ decimal n =
        rw p (format_int-decimal 2 n (omega (arith, length-decimal_two n (ground arith) h))) in
      (ap length e ∙ length-decimal_two n (ground arith) h, inl e)
  | inr p ↦
      let l : length (decimal n) ≡ 1 = length-digits_small 19 n (ground arith) in
      let e : format_padded (pos n) ≡ b'0' ∷ decimal n =
        rw p (ap (λ s. b'0' ∷ s) (format_int-decimal 1 n (omega arith))) in
      (ap length e ∙ ap suc l, inr e)
]

parts :
    (cast_int : Str → Option ℤ) (y m d : Str) (year month day : ℤ)
    → length y ≡ 4
    → length m ≡ 2
    → length d ≡ 2
    → cast_int y ≡ some year
    → cast_int m ≡ some month
    → cast_int d ≡ some day
    → parse_date cast_int (y ++ (m ++ d)) ≡ some (some (year, month, day))
unfolding parse_date
parts cast_int y m d year month day ly lm ld cy cm cd =
    let l : length (y ++ (m ++ d)) ≡ 8 =
      omega (arith, length-append y (m ++ d), length-append m d) in
    let t : take 4 (y ++ (m ++ d)) ≡ y = take-append 4 y (m ++ d) (sym ly) in
    let r : drop 4 (y ++ (m ++ d)) ≡ m ++ d = drop-append 4 y (m ++ d) (sym ly) in
    let rm : take 2 (m ++ d) ≡ m = take-append 2 m d (sym lm) in
    let s : drop 6 (y ++ (m ++ d)) ≡ d =
      let two : 6 - length y ≡ 2 = omega arith in
      drop-append_ge 6 y (m ++ d) (omega arith)
      ∙ ap (λ k. drop k (m ++ d)) two
      ∙ drop-append 2 m d (sym lm) in
    let rd : take 2 d ≡ d = take_all 2 d (omega arith) in rw (l, t, r, rm, s, rd, cy, cm, cd) refl

module _ (cast_int : Str → Option ℤ) (casts : Casts cast_int) where
  cast_padded : (n : ℕ) → n < 100 → cast_int (format_padded (pos n)) ≡ some (pos n)
  cast_padded n h = elim (format_padded-decimal n h).1 [
    | inl e ↦ ap cast_int e ∙ (casts n (omega arith)).0
    | inr e ↦ ap cast_int e ∙ (casts n (omega arith)).1
  ]

  -- A date of the calendar whose year has four digits is read back from its expiry.
  pub parse_date-format_expiry :
      (year month day : ℕ)
      → 1000 ≤ year
      → year < 10000
      → month < 100
      → day < 100
      → parse_date cast_int (format_expiry (pos year) (pos month) (pos day))
        ≡ some (some (pos year, pos month, pos day))
  unfolding format_expiry
  parse_date-format_expiry year month day h k m d =
      let y = format_int 4 (pos year) in
      let e : y ≡ decimal year =
        format_int-decimal 4 year (omega (arith, length-decimal_year year h k)) in
      let ly : length y ≡ 4 = ap length e ∙ length-decimal_year year h k in
      let lm = (format_padded-decimal month m).0 in
      let ld = (format_padded-decimal day d).0 in
      parts cast_int y (format_padded (pos month)) (format_padded (pos day)) (pos year) (pos month)
        (pos day) ly lm ld (ap cast_int e ∙ (casts year k).0) (cast_padded month m)
        (cast_padded day d)

pub length-format_expiry :
    (year month day : ℕ)
    → 1000 ≤ year
    → year < 10000
    → month < 100
    → day < 100
    → length (format_expiry (pos year) (pos month) (pos day)) ≡ 8
unfolding format_expiry
length-format_expiry year month day h k m d =
    let y = format_int 4 (pos year) in
    let e : y ≡ decimal year =
      format_int-decimal 4 year (omega (arith, length-decimal_year year h k)) in
    let ly : length y ≡ 4 = ap length e ∙ length-decimal_year year h k in
    omega (
      arith,
      ly,
      (format_padded-decimal month m).0,
      (format_padded-decimal day d).0,
      length-append y (format_padded (pos month) ++ format_padded (pos day)),
      length-append (format_padded (pos month)) (format_padded (pos day)),
    )
