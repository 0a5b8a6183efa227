-- ===== src/Common/Text.antt =====
-- `std::string` as its bytes: comparison, order, and the decimal numbers that a stream prints.
use Prim.Native.Char.{code}
use Prim.Native.String.{String}
use Prim.Native.Nat.{ℕ, zero, suc, ◌+◌, ◌-◌, ◌*◌, ◌/◌, ◌%◌, ◌^◌, ◌≤◌, ◌<◌}
use mathlib.Core.Path.{◌≡◌, refl, sym, ap, ◌∙◌}
use mathlib.Core.Logic.{◌↔◌, inl, inr}
use mathlib.Core.Bool.{Bool, true, false, ◌&&◌}
use mathlib.Core.List.{List, [], ◌∷◌, ◌++◌}
use native.Mathlib.Omega.{arith}
use atp.Common.Tests.{ltb, ◌==◌, if◌then◌else◌, Bool-cases, ==_iff}
use atp.Common.Lists.{length, length-append}
use atp.Common.Eq.{Eq}

abbrev pub Str : Type 0
Str = List ℕ

-- The bytes of a literal. `String` has its own `[]` and `∷`.
abbrev pub codes : String → Str
codes String.[] = []
codes (String.◌∷◌ c s) = code c ∷ codes s

abbrev pub same : Str → Str → Bool
same [] [] = true
same [] (b ∷ bs) = false
same (a ∷ xs) [] = false
same (a ∷ xs) (b ∷ bs) = (a == b) && same xs bs

pub same_iff : (xs ys : Str) → (same xs ys ≡ true) ↔ (xs ≡ ys)
same_iff [] [] = ground arith
same_iff [] (b ∷ bs) = ground arith
same_iff (a ∷ xs) [] = ground arith
same_iff (a ∷ xs) (b ∷ ys) = ground (arith, ==_iff a b, same_iff xs ys)

instance abbrev pub str_eq : Eq Str
str_eq = record { test = same; test_iff = same_iff }

-- a < b
unfoldable pub less : Str → Str → Bool
less [] [] = false
less [] (b ∷ bs) = true
less (a ∷ xs) [] = false
less (a ∷ xs) (b ∷ bs) = if ltb a b then true else if ltb b a then false else less xs bs

less-append_left : (p xs ys : Str) → less (p ++ xs) (p ++ ys) ≡ less xs ys
unfolding less
less-append_left [] xs ys = refl
less-append_left (a ∷ p) xs ys = ground (arith, less-append_left p xs ys)

less-append_lt :
    (xs ys c d : Str) → length xs ≡ length ys → less xs ys ≡ true → less (xs ++ c) (ys ++ d) ≡ true
unfolding less
less-append_lt [] [] c d e h = ground arith
less-append_lt [] (b ∷ ys) c d e h = ground arith
less-append_lt (a ∷ xs) [] c d e h = ground arith
less-append_lt (a ∷ xs) (b ∷ ys) c d e h = ground (arith, less-append_lt xs ys c d)

less-append_gt :
    (xs ys c d : Str) → length xs ≡ length ys → less ys xs ≡ true → less (xs ++ c) (ys ++ d) ≡ false
unfolding less
less-append_gt [] [] c d e h = ground arith
less-append_gt [] (b ∷ ys) c d e h = ground arith
less-append_gt (a ∷ xs) [] c d e h = ground arith
less-append_gt (a ∷ xs) (b ∷ ys) c d e h = ground (arith, less-append_gt xs ys c d)

-- `<<` of an unsigned number, on fuel.
unfoldable pub digits : ℕ → ℕ → Str
digits zero n = []
digits (suc fuel) n =
    let rest = digits fuel (n / 10) in
    if ltb n 10 then (b'0' + n) ∷ [] else rest ++ ((b'0' + n % 10) ∷ [])

-- A number of 64 bits has at most 20 digits.
abbrev pub decimal : ℕ → Str
decimal = digits 20

abbrev pub value_from : ℕ → Str → ℕ
value_from n [] = n
value_from n (c ∷ cs) = value_from (n * 10 + c - b'0') cs

value_from-snoc :
    (n c : ℕ) (cs : Str) → value_from n (cs ++ (c ∷ [])) ≡ value_from n cs * 10 + c - b'0'
value_from-snoc n c [] = refl
value_from-snoc n c (b ∷ cs) = value_from-snoc (n * 10 + b - b'0') c cs

pub value-digits : (fuel n : ℕ) → n < 10 ^ fuel → value_from 0 (digits fuel n) ≡ n
unfolding digits
value-digits zero n h = omega arith
value-digits (suc fuel) n h =
    ground
      (arith, value-digits fuel (n / 10), value_from-snoc 0 (b'0' + n % 10) (digits fuel (n / 10)))

digits-small : (fuel n : ℕ) → n < 10 → digits (suc fuel) n ≡ (b'0' + n) ∷ []
unfolding digits
digits-small fuel n h = ground arith

digits-large :
    (fuel n : ℕ) → 10 ≤ n → digits (suc fuel) n ≡ digits fuel (n / 10) ++ ((b'0' + n % 10) ∷ [])
unfolding digits
digits-large fuel n h = ground arith

pub length-digits_small : (fuel n : ℕ) → n < 10 → length (digits (suc fuel) n) ≡ 1
length-digits_small fuel n h = ap length (digits-small fuel n h)

pub length-digits_large :
    (fuel n : ℕ) → 10 ≤ n → length (digits (suc fuel) n) ≡ length (digits fuel (n / 10)) + 1
length-digits_large fuel n h =
    ap length (digits-large fuel n h) ∙ length-append (digits fuel (n / 10)) ((b'0' + n % 10) ∷ [])

digits-positive : (fuel n : ℕ) → 0 < n → n < 10 ^ fuel → 0 < length (digits fuel n)
digits-positive zero n h k = omega arith
digits-positive (suc fuel) n h k = elim (Bool-cases (ltb n 10)) [
  | inl p ↦ omega (arith, length-digits_small fuel n (ground arith))
  | inr p ↦ omega (arith, length-digits_large fuel n (ground arith))
]

less-last : (p : Str) (a b : ℕ) → less (p ++ (a ∷ [])) (p ++ (b ∷ [])) ≡ ltb a b
unfolding less
less-last p a b = less-append_left p (a ∷ []) (b ∷ []) ∙ ground arith

-- The last digits decide when the numbers before them are equal.
less-digits_large :
    (fuel n m : ℕ)
    → 10 ≤ n
    → 10 ≤ m
    → length (digits fuel (n / 10)) ≡ length (digits fuel (m / 10))
    → less (digits fuel (n / 10)) (digits fuel (m / 10)) ≡ ltb (n / 10) (m / 10)
    → less (digits fuel (m / 10)) (digits fuel (n / 10)) ≡ ltb (m / 10) (n / 10)
    → less (digits (suc fuel) n) (digits (suc fuel) m) ≡ ltb n m
less-digits_large fuel n m hn hm e l g =
    rw (digits-large fuel n hn, digits-large fuel m hm)
      (elim (Bool-cases (ltb (n / 10) (m / 10))) [
        | inl p ↦
            less-append_lt (digits fuel (n / 10)) (digits fuel (m / 10)) ((b'0' + n % 10) ∷ [])
              ((b'0' + m % 10) ∷ []) e (l ∙ p)
            ∙ ground arith
        | inr p ↦ elim (Bool-cases (ltb (m / 10) (n / 10))) [
          | inl q ↦
              less-append_gt (digits fuel (n / 10)) (digits fuel (m / 10)) ((b'0' + n % 10) ∷ [])
                ((b'0' + m % 10) ∷ []) e (g ∙ q)
              ∙ ground arith
          | inr q ↦
              let same_start : n / 10 ≡ m / 10 = ground arith in
              rw same_start
                (less-last (digits fuel (m / 10)) (b'0' + n % 10) (b'0' + m % 10) ∙ ground arith)
        ]
      ])

-- Two numbers with the same number of digits are in order when their texts are.
pub less-digits :
    (fuel n m : ℕ)
    → n < 10 ^ fuel
    → m < 10 ^ fuel
    → length (digits fuel n) ≡ length (digits fuel m)
    → less (digits fuel n) (digits fuel m) ≡ ltb n m
less-digits zero n m hn hm e = unfold digits in unfold less in ground arith
less-digits (suc fuel) n m hn hm e = elim (Bool-cases (ltb n 10)) [
  | inl p ↦ elim (Bool-cases (ltb m 10)) [
    | inl q ↦
        rw (digits-small fuel n (ground arith), digits-small fuel m (ground arith))
          (unfold less in ground arith)
    | inr q ↦ ground (
      arith,
      length-digits_small fuel n (ground arith),
      length-digits_large fuel m (ground arith),
      digits-positive fuel (m / 10) (ground arith) (omega arith),
    )
  ]
  | inr p ↦ elim (Bool-cases (ltb m 10)) [
    | inl q ↦ ground (
      arith,
      length-digits_small fuel m (ground arith),
      length-digits_large fuel n (ground arith),
      digits-positive fuel (n / 10) (ground arith) (omega arith),
    )
    | inr q ↦
        let l : length (digits fuel (n / 10)) ≡ length (digits fuel (m / 10)) = omega (
          arith,
          length-digits_large fuel n (ground arith),
          length-digits_large fuel m (ground arith),
        ) in
        less-digits_large fuel n m (ground arith) (ground arith) l
          (less-digits fuel (n / 10) (m / 10) (omega arith) (omega arith) l)
          (less-digits fuel (m / 10) (n / 10) (omega arith) (omega arith) (sym l))
  ]
]
