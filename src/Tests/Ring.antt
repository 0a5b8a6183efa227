-- ===== src/Tests/Ring.antt =====
-- A circular buffer over a list, which meets the interface: its two stretches are the halves of what
-- it holds.

use atp.Common.{
  ℕ, ◌+◌, ◌/◌, ◌≡◌, refl, sym, ap, ◌∙◌, List, [], ◌∷◌, ◌++◌, true, false, arith, length, take, drop,
  last, take-append-drop,
}
use atp.Window.Buffer.{CircularBuffer}
use atp.Window.Samplers.{Ordered, Arithmetic}
use atp.Common.Tests.{ltb}

pub record Held (A : Type 0) : Type 0 where
  pub items : List A
  pub room : ℕ

module _ {A : Type 0} where
  abbrev first_half : List A → List A
  first_half xs = take (length xs / 2) xs

  abbrev second_half : List A → List A
  second_half xs = drop (length xs / 2) xs

  halves : (xs : List A) → first_half xs ++ second_half xs ≡ xs
  halves xs = take-append-drop (length xs / 2) xs

  pub pushed :
      (n : ℕ) (xs : List A) (x : A)
      → first_half (last n (xs ++ x ∷ [])) ++ second_half (last n (xs ++ x ∷ []))
        ≡ last n ((first_half xs ++ second_half xs) ++ x ∷ [])
  pushed n xs x =
      halves (last n (xs ++ x ∷ [])) ∙ ap (λ ys. last n (ys ++ x ∷ [])) (sym (halves xs))

abbrev pub ring : (A : Type 0) → CircularBuffer A
ring A = record {
  Buffer = Held A;
  with_capacity = λ n. record { items = []; room = n };
  push_back = λ b x. record b { items = last b.room (b.items ++ x ∷ []) };
  capacity = λ b. b.room;
  array_one = λ b. first_half b.items;
  array_two = λ b. second_half b.items;
  elements-with_capacity = λ n. refl;
  capacity-with_capacity = λ n. refl;
  capacity-push_back = λ b x. refl;
  elements-push_back = λ b x. pushed b.room b.items x;
}

pub ltb_asym : (a b : ℕ) → ltb a b ≡ true → ltb b a ≡ false
ltb_asym a b h = ground arith

pub not_ltb_trans : (a b c : ℕ) → ltb b a ≡ false → ltb c b ≡ false → ltb c a ≡ false
not_ltb_trans a b c h k = ground arith

pub ltb_irreflexive : (a : ℕ) → ltb a a ≡ false
ltb_irreflexive a = ground arith

-- Prices in cents.
abbrev pub cents : Ordered ℕ
cents = record {
  below = ltb;
  below_irrefl = ltb_irreflexive;
  below_asym = ltb_asym;
  not_below_trans = not_ltb_trans;
}

abbrev pub cents_arithmetic : Arithmetic ℕ
cents_arithmetic = record { add = ◌+◌; divide = ◌/◌; of_count = λ n. n }
