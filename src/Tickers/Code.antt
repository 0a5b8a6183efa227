-- ===== src/Tickers/Code.antt =====
-- The code of a symbol of at most four letters as a ticker id (ib/ticker_id.cpp).
use atp.Common.{
  ℕ, zero, suc, ◌+◌, ◌-◌, ◌*◌, ◌/◌, ◌%◌, ◌^◌, ◌≤◌, ◌<◌, ◌≡◌, refl, ap, ◌∙◌, Bool, true, false, not,
  ◌&&◌, Option, none, some, [], ◌∷◌, map, length, if◌then◌else◌, ltb, leb, ◌==◌, arith, ◌>>=◌,
  lt→ltb,
}
use atp.Common.Int.{ℤ, pos, negsuc, ◌+ℤ◌, ◌*ℤ◌, sub_ℕ}
use atp.Common.Text.{Str}

abbrev pub base : ℕ
base = 27

abbrev pub offset : ℕ
offset = 11

-- SCALE[i]; none is out of the array.
abbrev pub scale : ℕ → Option ℕ
scale i = if ltb i 4 then some (base ^ i) else none

unfoldable pub toupper : ℕ → ℕ
toupper c = if leb b'a' c && leb c b'z' then c - 32 else c

-- The loop of SymbolToTickerId: the value of each character, which is negative before 'A'.
unfoldable pub symbol_value : Str → Option ℤ
unfolding toupper
symbol_value [] = some (pos 0)
symbol_value (c ∷ s) = do
  k ← scale (length s)
  v ← symbol_value s
  some ((sub_ℕ (toupper c + 1) b'A' *ℤ pos k) +ℤ v)

unfoldable pub symbol_to_ticker_id : Str → Option ℤ
unfolding symbol_value
symbol_to_ticker_id s = do v ← symbol_value s; some (v *ℤ pos (2 ^ offset))

-- The loop of SymbolFromTickerId, on the places that are left.
unfoldable pub symbol_places : ℕ → ℕ → Str
symbol_places zero m = []
symbol_places (suc i) m =
    let c = m / base ^ i in
    let rest = symbol_places i (m % base ^ i) in if ltb 0 c then (c + b'A' - 1) ∷ rest else rest

-- A negative code has no place that is positive.
unfoldable pub symbol_from_ticker_id : ℤ → Str
unfolding symbol_places
symbol_from_ticker_id (negsuc n) = []
symbol_from_ticker_id (pos n) = symbol_places 4 (n / 2 ^ offset)

unfoldable pub is_ticker_id_for_option : ℕ → Bool
is_ticker_id_for_option id = not (id % 2 ^ offset == 0)

abbrev pub is_letter : ℕ → Bool
is_letter c = leb b'A' (toupper c) && leb (toupper c) b'Z'

abbrev pub all_letters : Str → Bool
all_letters [] = true
all_letters (c ∷ s) = is_letter c && all_letters s

-- The number of a symbol in base 27.
unfoldable pub number_of : Str → ℕ
number_of [] = 0
number_of (c ∷ s) = (toupper c + 1 - b'A') * base ^ length s + number_of s

pos-mul : (a b : ℕ) → pos a *ℤ pos b ≡ pos (a * b)
unfolding ◌*ℤ◌
pos-mul a b = ground arith

pos-add : (a b : ℕ) → pos a +ℤ pos b ≡ pos (a + b)
unfolding ◌+ℤ◌
pos-add a b = ground arith

letter-value :
    (c : ℕ) → is_letter c ≡ true → sub_ℕ (toupper c + 1) b'A' ≡ pos (toupper c + 1 - b'A')
letter-value c h = ground arith

scale-small : (n : ℕ) → n < 4 → scale n ≡ some (base ^ n)
scale-small n h = ground arith

symbol_value-letters :
    (s : Str) → length s ≤ 4 → all_letters s ≡ true → symbol_value s ≡ some (pos (number_of s))
unfolding symbol_value number_of
symbol_value-letters [] h l = refl
symbol_value-letters (c ∷ s) h l =
    let letter : is_letter c ≡ true = ground arith in
    let letters : all_letters s ≡ true = ground arith in
    rw
      (
        scale-small (length s) (omega arith),
        symbol_value-letters s (omega arith) letters,
        letter-value c letter,
        pos-mul _ _,
        pos-add _ _,
      )
      refl

number_of-bound : (s : Str) → length s ≤ 4 → all_letters s ≡ true → number_of s < base ^ length s
unfolding number_of
number_of-bound [] h l = omega arith
number_of-bound (a ∷ []) h l = ground arith
number_of-bound (a ∷ b ∷ []) h l = ground arith
number_of-bound (a ∷ b ∷ c ∷ []) h l = ground arith
number_of-bound (a ∷ b ∷ c ∷ d ∷ []) h l = ground arith
number_of-bound (a ∷ b ∷ c ∷ d ∷ e ∷ s) h l = omega arith

split_place :
    (i x m : ℕ)
    → i < 4
    → m < base ^ i
    → ((x * base ^ i + m) / base ^ i ≡ x) × ((x * base ^ i + m) % base ^ i ≡ m)
split_place zero x m h b = (omega arith, omega arith)
split_place (suc zero) x m h b = (omega arith, omega arith)
split_place (suc (suc zero)) x m h b = (omega arith, omega arith)
split_place (suc (suc (suc zero))) x m h b = (omega arith, omega arith)
split_place (suc (suc (suc (suc i)))) x m h b = (omega arith, omega arith)

small_place : (i m : ℕ) → i < 4 → m < base ^ i → (m / base ^ i ≡ 0) × (m % base ^ i ≡ m)
small_place zero m h b = (omega arith, omega arith)
small_place (suc zero) m h b = (omega arith, omega arith)
small_place (suc (suc zero)) m h b = (omega arith, omega arith)
small_place (suc (suc (suc zero))) m h b = (omega arith, omega arith)
small_place (suc (suc (suc (suc i)))) m h b = (omega arith, omega arith)

-- A place that is positive is written, and one that is zero is left out.
symbol_places-place :
    (i x m : ℕ)
    → i < 4
    → 0 < x
    → m < base ^ i
    → symbol_places (suc i) (x * base ^ i + m) ≡ (x + b'A' - 1) ∷ symbol_places i m
unfolding symbol_places
symbol_places-place i x m h p b =
    let (q, r) = split_place i x m h b in rw (symbol_places, q, r, lt→ltb 0 x p) refl

symbol_places-skip : (i m : ℕ) → i < 4 → m < base ^ i → symbol_places (suc i) m ≡ symbol_places i m
unfolding symbol_places
symbol_places-skip i m h b = let (q, r) = small_place i m h b in rw (symbol_places, q, r) refl

symbol_places-number_of :
    (s : Str)
    → length s ≤ 4
    → all_letters s ≡ true
    → symbol_places (length s) (number_of s) ≡ map toupper s
unfolding number_of
symbol_places-number_of [] h l = unfold symbol_places in refl
symbol_places-number_of (c ∷ s) h l =
    let letters : all_letters s ≡ true = ground arith in
    symbol_places-place (length s) (toupper c + 1 - b'A') (number_of s) (omega arith) (ground arith)
      (number_of-bound s (omega arith) letters)
    ∙ (let e : toupper c + 1 - b'A' + b'A' - 1 ≡ toupper c = ground arith in
        rw e (ap (λ r. toupper c ∷ r) (symbol_places-number_of s (omega arith) letters)))

power-four : (n : ℕ) → n ≤ 4 → base ^ n ≤ base ^ 4
power-four zero h = omega arith
power-four (suc zero) h = omega arith
power-four (suc (suc zero)) h = omega arith
power-four (suc (suc (suc zero))) h = omega arith
power-four (suc (suc (suc (suc zero)))) h = omega arith
power-four (suc (suc (suc (suc (suc n))))) h = omega arith

-- Shorter symbols have zero places before their first letter.
symbol_places-four :
    (s : Str)
    → length s ≤ 4
    → all_letters s ≡ true
    → symbol_places 4 (number_of s) ≡ symbol_places (length s) (number_of s)
symbol_places-four [] h l = unfold symbol_places in unfold number_of in refl
symbol_places-four (a ∷ []) h l =
    let b = number_of-bound (a ∷ []) h l in
    symbol_places-skip 3 _ (omega arith) (omega arith)
    ∙ symbol_places-skip 2 _ (omega arith) (omega arith)
    ∙ symbol_places-skip 1 _ (omega arith) (omega arith)
symbol_places-four (a ∷ c ∷ []) h l =
    let b = number_of-bound (a ∷ c ∷ []) h l in
    symbol_places-skip 3 _ (omega arith) (omega arith)
    ∙ symbol_places-skip 2 _ (omega arith) (omega arith)
symbol_places-four (a ∷ c ∷ d ∷ []) h l =
    let b = number_of-bound (a ∷ c ∷ d ∷ []) h l in
    symbol_places-skip 3 _ (omega arith) (omega arith)
symbol_places-four (a ∷ c ∷ d ∷ e ∷ []) h l = refl
symbol_places-four (a ∷ c ∷ d ∷ e ∷ f ∷ s) h l = ground arith

-- A symbol of at most four letters has a ticker id that fits in 31 bits and is not one of an
-- option, and the id gives back the symbol, in capitals.
pub symbol_from-symbol_to :
    (s : Str)
    → length s ≤ 4
    → all_letters s ≡ true
    → (n : ℕ) × (symbol_to_ticker_id s ≡ some (pos n))
      × (n < 2 ^ 31)
      × (is_ticker_id_for_option n ≡ false)
      × (symbol_from_ticker_id (pos n) ≡ map toupper s)
unfolding symbol_to_ticker_id symbol_from_ticker_id is_ticker_id_for_option
symbol_from-symbol_to s h l =
    let b : number_of s < base ^ 4 =
      omega (arith, number_of-bound s h l, power-four (length s) h) in
    (
      number_of s * 2 ^ offset,
      rw (symbol_to_ticker_id, symbol_value-letters s h l, pos-mul _ _) refl,
      omega arith,
      ground arith,
      (let e : number_of s * 2 ^ offset / 2 ^ offset ≡ number_of s = omega arith in
          rw e (symbol_places-four s h l ∙ symbol_places-number_of s h l)),
    )
