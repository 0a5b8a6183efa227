-- ===== src/Window/Samplers/Periods.antt =====
-- What each sampler of moving_window_samplers.hpp makes of a whole period.
use atp.Common.{
  ℕ, suc, ◌+◌, ◌<◌, ◌≡◌, refl, ◌∙◌, ap, false, true, Option, some, List, [], ◌∷◌, arith, length,
}
use mathlib.Core.List.{foldl}
use atp.Common.Int.{size_mod}
use atp.Window.Samplers.{Sampler, Arithmetic, opening, open_sample, AvgState, avg, avg_sample}

module _ {A : Type 0} (S : Sampler A) where
  -- The further values of a period that has begun, each sampled over the sample before.
  unfoldable pub continue : A × S.State → List A → A × S.State
  continue r [] = r
  continue r (x ∷ xs) = continue (S.sample r.1 r.0 x false) xs

  -- A period: its first value, sampled as new, and the further ones.
  unfoldable pub period : S.State → A → A → List A → A × S.State
  unfolding continue
  period s last x xs = continue (S.sample s last x true) xs

module _ {A : Type 0} where
  open-continue :
      (first : A) (xs : List A) → continue opening (first, some first) xs ≡ (first, some first)
  unfolding continue open_sample
  open-continue first [] = refl
  open-continue first (x ∷ xs) = open-continue first xs

  -- The `open` of a period is its first value, whatever came before.
  pub open_period : (s : Option A) (last x : A) (xs : List A) → (period opening s last x xs).0 ≡ x
  unfolding period open_sample
  open_period s last x xs = ap (λ r. r.0) (open-continue x xs)

module _ {A : Type 0} (num : Arithmetic A) where
  avg_step :
      (v sum x : A) (n : ℕ)
      → suc (suc n) < size_mod
      → avg_sample num (record { count = suc n; sum = some sum }) v x false ≡ (
        num.divide (num.add sum x) (num.of_count (suc (suc n))),
        record { count = suc (suc n); sum = some (num.add sum x) },
      )
  unfolding avg_sample
  avg_step v sum x n h = ground (arith)

  avg-continue :
      (v sum : A) (n : ℕ) (xs : List A)
      → suc n + length xs < size_mod
      → v ≡ num.divide sum (num.of_count (suc n))
      → (continue (avg num) (v, record { count = suc n; sum = some sum }) xs).0
        ≡ num.divide (foldl num.add sum xs) (num.of_count (suc n + length xs))
  unfolding continue
  avg-continue v sum n [] h e = e ∙ ap (λ k. num.divide sum (num.of_count k)) (omega arith)
  avg-continue v sum n (x ∷ xs) h e =
      ap (λ r. (continue (avg num) r xs).0) (avg_step v sum x n (omega arith))
      ∙ avg-continue (num.divide (num.add sum x) (num.of_count (suc (suc n)))) (num.add sum x)
          (suc n) xs (omega arith) refl
      ∙ ap (λ k. num.divide (foldl num.add (num.add sum x) xs) (num.of_count k)) (omega arith)

  -- The `avg` of a period is the sum of its values divided by their number, whatever came before.
  avg-period :
      (s : AvgState A) (last x : A) (xs : List A)
      → suc (length xs) < size_mod
      → (period (avg num) s last x xs).0
        ≡ num.divide (foldl num.add x xs) (num.of_count (suc (length xs)))
  unfolding period avg_sample
  avg-period s last x xs h =
      avg-continue (num.divide x (num.of_count 1)) x 0 xs (omega arith) refl
      ∙ ap (λ k. num.divide (foldl num.add x xs) (num.of_count k)) (omega arith)
