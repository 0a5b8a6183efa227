-- ===== src/Historian/Keys/Unique.antt =====
-- Different market data have different keys, whatever their symbols are: the time stands after the
-- last colon.
use atp.Common.{
  ℕ, zero, suc, ◌+◌, ◌/◌, ◌%◌, ◌^◌, ◌<◌, ◌≡◌, refl, sym, ap, ◌∙◌, ◌≢◌, Bool, true, false, not, ◌&&◌,
  [], ◌∷◌, ◌++◌, arith, ◌==◌,
}
use atp.Common.Text.{Str, digits, decimal, value_from, value-digits}
use atp.Historian.Messages.{Kind, indexed_value, session_log, ib_market_data, ib_market_depth}
use atp.Historian.Keys.{
  followed_by, key_at, index_key, entity_session_log, entity_ib_market_data, entity_ib_market_depth,
}

abbrev no_colon : Str → Bool
no_colon [] = true
no_colon (c ∷ s) = not (c == b':') && no_colon s

no_colon-append : (xs ys : Str) → no_colon (xs ++ ys) ≡ (no_colon xs && no_colon ys)
no_colon-append [] ys = refl
no_colon-append (x ∷ xs) ys = ground (arith, no_colon-append xs ys)

no_colon-digits : (fuel n : ℕ) → no_colon (digits fuel n) ≡ true
unfolding digits
no_colon-digits zero n = refl
no_colon-digits (suc fuel) n = ground (
  arith,
  no_colon-digits fuel (n / 10),
  no_colon-append (digits fuel (n / 10)) ((b'0' + n % 10) ∷ []),
)

no_colon-followed_by : (xs ys : Str) → no_colon (followed_by xs ys) ≡ false
no_colon-followed_by [] ys = refl
no_colon-followed_by (x ∷ xs) ys = ground (arith, no_colon-followed_by xs ys)

followed_by-injective :
    (xs ys ds es : Str)
    → no_colon ds ≡ true
    → no_colon es ≡ true
    → followed_by xs ds ≡ followed_by ys es
    → (xs ≡ ys) × (ds ≡ es)
followed_by-injective [] [] ds es hd he e = ground arith
followed_by-injective [] (y ∷ ys) ds es hd he e = ground (arith, no_colon-followed_by ys es)
followed_by-injective (x ∷ xs) [] ds es hd he e = ground (arith, no_colon-followed_by xs ds)
followed_by-injective (x ∷ xs) (y ∷ ys) ds es hd he e =
    ground (arith, followed_by-injective xs ys ds es hd he)

decimal-injective : (n m : ℕ) → n < 2 ^ 64 → m < 2 ^ 64 → decimal n ≡ decimal m → n ≡ m
decimal-injective n m hn hm e =
    sym (value-digits 20 n (omega arith)) ∙ ap (value_from 0) e ∙ value-digits 20 m (omega arith)

followed_by-cancel : (p s s' : Str) → followed_by p s ≡ followed_by p s' → s ≡ s'
followed_by-cancel [] s s' e = ground arith
followed_by-cancel (c ∷ p) s s' e = ground (arith, followed_by-cancel p s s')

prefixed-injective :
    (p s s' : Str) (n n' : ℕ)
    → n < 2 ^ 64
    → n' < 2 ^ 64
    → followed_by (followed_by p s) (decimal n) ≡ followed_by (followed_by p s') (decimal n')
    → (s ≡ s') × (n ≡ n')
prefixed-injective p s s' n n' hn hn' e =
    let parts =
      followed_by-injective (followed_by p s) (followed_by p s') (decimal n) (decimal n')
        (no_colon-digits 20 n) (no_colon-digits 20 n') e in
    (followed_by-cancel p s s' parts.0, decimal-injective n n' hn hn' parts.1)

-- Two records of market data, of market depth, or two session logs looked up by time, have the same
-- key only when they have the same symbol and the same 64-bit time, even if a symbol has colons.
key_at-injective :
    (t : Kind) (s s' : Str) (n n' : ℕ)
    → t ≢ indexed_value
    → n < 2 ^ 64
    → n' < 2 ^ 64
    → key_at t s n ≡ key_at t s' n'
    → (s ≡ s') × (n ≡ n')
unfolding key_at
key_at-injective indexed_value s s' n n' h hn hn' e = ground (arith, h refl)
key_at-injective session_log s s' n n' h hn hn' e =
    prefixed-injective entity_session_log s s' n n' hn hn' e
key_at-injective ib_market_data s s' n n' h hn hn' e =
    prefixed-injective entity_ib_market_data s s' n n' hn hn' e
key_at-injective ib_market_depth s s' n n' h hn hn' e =
    prefixed-injective entity_ib_market_depth s s' n n' hn hn' e

-- A record never has the key of an entry of the index.
pub key_at-index_key : (t : Kind) (s s' x : Str) (n n' : ℕ) → key_at t s n ≢ index_key s' x n'
unfolding key_at index_key
key_at-index_key indexed_value s s' x n n' = ground arith
key_at-index_key session_log s s' x n n' = ground arith
key_at-index_key ib_market_data s s' x n n' = ground arith
key_at-index_key ib_market_depth s s' x n n' = ground arith
