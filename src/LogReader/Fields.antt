-- ===== src/LogReader/Fields.antt =====
-- What the messages that are read say of their records.
use atp.Common.{ℕ, ◌≡◌, refl, ap, sym, ◌∙◌, Option, none, some, arith, ◌⊎◌, inl, inr}
use atp.Common.Int.{ℤ, to_size}
use atp.Common.Eq.{int_eq}
use atp.Common.Map.{find}
use atp.Common.Text.{Str, str_eq, codes}
use atp.Historian.Messages.{MarketData, MarketDepth}
use atp.LogReader.{Reading, ok, no, threw, aborted, ◌>>=◌, fatal, found, Log, Casts, get_field}
use atp.LogReader.Records.{
  Symbols, code_to_symbol, read_market_data, read_market_depth, read_event_value,
}

-- A chain gives a value only when its first step does.
pub >>=-ok {ℓ κ} :
    {A : Type ℓ} {B : Type κ} (m : Reading A) (f : A → Reading B) (b : B)
    → (m >>= f) ≡ ok b
    → (a : A) × (m ≡ ok a) × (f a ≡ ok b)
>>=-ok (ok a) f b h = (a, refl, h)
>>=-ok no f b h = cc
>>=-ok threw f b h = cc
>>=-ok aborted f b h = cc

fatal-ok {ℓ} : {A : Type ℓ} (m : Reading A) (a : A) → fatal m ≡ ok a → m ≡ ok a
fatal-ok (ok a) b h = h
fatal-ok no b h = cc
fatal-ok threw b h = cc
fatal-ok aborted b h = cc

found-ok {ℓ} : {A : Type ℓ} (o : Option A) (a : A) → found o ≡ ok a → o ≡ some a
found-ok none a h = cc
found-ok (some b) a h = ground arith

pub Reading-cases {ℓ} :
    {A : Type ℓ} (m : Reading A)
    → ((a : A) × (m ≡ ok a)) ⊎ ((m ≡ no) ⊎ ((m ≡ threw) ⊎ (m ≡ aborted)))
Reading-cases (ok a) = inl (a, refl)
Reading-cases no = inr (inl refl)
Reading-cases threw = inr (inr (inl refl))
Reading-cases aborted = inr (inr (inr refl))

pub ok_inj {ℓ} : {A : Type ℓ} (a b : A) → ok a ≡ ok b → a ≡ b
ok_inj a b h = ground arith

code_to_symbol-ok :
    (code : ℤ) (symbols : Symbols) (symbol : Str)
    → code_to_symbol code symbols ≡ ok symbol
    → find code symbols ≡ some symbol
unfolding code_to_symbol
code_to_symbol-ok code symbols symbol h = found-ok (find code symbols) symbol h

-- The symbol is the one of the ticker id that is the contract's.
abbrev pub IsKnown : Symbols → (contract_id : ℕ) (symbol : Str) → Type 0
IsKnown symbols contract_id symbol =
    (code : ℤ) × (find code symbols ≡ some symbol) × (contract_id ≡ to_size code)

-- The time is the one of the record, and the symbol is known.
pub read_market_data-ok :
    (casts : Casts) (symbols : Symbols) (log : Log) (d : MarketData)
    → read_market_data casts symbols log ≡ ok d
    → (get_field casts.to_timer log (codes "ts_utc") ≡ ok d.timestamp)
      × IsKnown symbols d.contract_id d.symbol
unfolding read_market_data
read_market_data-ok casts symbols log d h =
    let (ts, at_ts, h1) = >>=-ok (get_field casts.to_timer log (codes "ts_utc")) _ d h in
    let (code, at_code, h2) =
      >>=-ok (fatal (get_field casts.to_long log (codes "tickerId"))) _ d h1 in
    let (symbol, at_symbol, h3) = >>=-ok (fatal (code_to_symbol code symbols)) _ d h2 in
    let (event, at_event, h4) = >>=-ok (fatal (get_field some log (codes "field"))) _ d h3 in
    let (value, at_value, h5) = >>=-ok (read_event_value casts log event) _ d h4 in
    let e = ok_inj _ d h5 in
    (
      at_ts ∙ ap (λ r. ok r.timestamp) e,
      (
        code,
        code_to_symbol-ok code symbols symbol (fatal-ok _ _ at_symbol) ∙ ap (λ r. some r.symbol) e,
        sym (ap (λ r. r.contract_id) e),
      ),
    )

pub read_market_depth-ok :
    (casts : Casts) (symbols : Symbols) (log : Log) (d : MarketDepth)
    → read_market_depth casts symbols log ≡ ok d
    → (get_field casts.to_timer log (codes "ts_utc") ≡ ok d.timestamp)
      × IsKnown symbols d.contract_id d.symbol
unfolding read_market_depth
read_market_depth-ok casts symbols log d h =
    let (ts, at_ts, h1) = >>=-ok (get_field casts.to_timer log (codes "ts_utc")) _ d h in
    let (code, at_code, h2) = >>=-ok (get_field casts.to_long log (codes "id")) _ d h1 in
    let (symbol, at_symbol, h3) = >>=-ok (code_to_symbol code symbols) _ d h2 in
    let (side, at_side, h4) = >>=-ok (get_field casts.to_int log (codes "side")) _ d h3 in
    let (operation, at_op, h5) = >>=-ok (get_field casts.to_int log (codes "operation")) _ d h4 in
    let (level, at_level, h6) = >>=-ok (get_field casts.to_int log (codes "position")) _ d h5 in
    let (price, at_price, h7) = >>=-ok (get_field casts.to_double log (codes "price")) _ d h6 in
    let (size, at_size, h8) = >>=-ok (get_field casts.to_int log (codes "size")) _ d h7 in
    let e = ok_inj _ d h8 in
    (
      at_ts ∙ ap (λ r. ok r.timestamp) e,
      (
        code,
        code_to_symbol-ok code symbols symbol at_symbol ∙ ap (λ r. some r.symbol) e,
        sym (ap (λ r. r.contract_id) e),
      ),
    )
