-- ===== src/Window/Samplers/Extremes.antt =====
-- The `max` and `min` samplers of moving_window_samplers.hpp: bounds of a period that are reached.
use atp.Common.{All, ◌≡◌, refl, ◌∙◌, false, List, [], ◌∷◌, arith, ◌⊎◌, inl, inr}
use atp.Window.Samplers.{Ordered, maximum, minimum, max, min}
use atp.Window.Samplers.Periods.{continue, period}

-- `x` is at most `y`: `y` is not below it.
abbrev pub AtMost : {A : Type 0} → Ordered A → A → A → Type 0
AtMost o x y = o.below y x ≡ false

abbrev pub Among : {A : Type 0} → A → List A → Type 0
Among a [] = ⊥
Among a (x ∷ xs) = (a ≡ x) ⊎ Among a xs

Among-step :
    {A : Type 0} (r m v x : A) (xs : List A)
    → (m ≡ v) ⊎ (m ≡ x)
    → (r ≡ m) ⊎ Among r xs
    → (r ≡ v) ⊎ Among r (x ∷ xs)
Among-step r m v x xs (inl e) (inl f) = inl (f ∙ e)
Among-step r m v x xs (inr e) (inl f) = inr (inl (f ∙ e))
Among-step r m v x xs _ (inr f) = inr (inr f)

module _ {A : Type 0} (o : Ordered A) where
  pub maximum_bounds :
      (x y : A)
      → AtMost o x (maximum o x y)
        × AtMost o y (maximum o x y)
        × ((maximum o x y ≡ x) ⊎ (maximum o x y ≡ y))
  unfolding maximum
  maximum_bounds x y = ground (arith, o.below_irrefl x, o.below_irrefl y, o.below_asym x y)

  pub minimum_bounds :
      (x y : A)
      → AtMost o (minimum o x y) x
        × AtMost o (minimum o x y) y
        × ((minimum o x y ≡ x) ⊎ (minimum o x y ≡ y))
  unfolding minimum
  minimum_bounds x y = ground (arith, o.below_irrefl x, o.below_irrefl y, o.below_asym y x)

  -- What the `max` sampler makes of a value `v` and further ones: one of them, and at least each.
  pub record IsHighest (v : A) (xs : List A) (r : A) : Type 0 where
    pub start : AtMost o v r
    pub rest : All (λ x. AtMost o x r) xs
    pub reached : (r ≡ v) ⊎ Among r xs

  pub record IsLowest (v : A) (xs : List A) (r : A) : Type 0 where
    pub start : AtMost o r v
    pub rest : All (λ x. AtMost o r x) xs
    pub reached : (r ≡ v) ⊎ Among r xs

  max-continue : (v : A) (xs : List A) → IsHighest v xs (continue (max o) (v, tt) xs).0
  unfolding continue
  max-continue v [] = record { start = o.below_irrefl v; rest = tt; reached = inl refl }
  max-continue v (x ∷ xs) =
      let m = maximum o v x in
      let ih = max-continue m xs in
      let b = maximum_bounds v x in
      record {
        start = o.not_below_trans v m _ b.0 ih.start;
        rest = (o.not_below_trans x m _ b.1 ih.start, ih.rest);
        reached = Among-step _ m v x xs b.2 ih.reached;
      }

  min-continue : (v : A) (xs : List A) → IsLowest v xs (continue (min o) (v, tt) xs).0
  unfolding continue
  min-continue v [] = record { start = o.below_irrefl v; rest = tt; reached = inl refl }
  min-continue v (x ∷ xs) =
      let m = minimum o v x in
      let ih = min-continue m xs in
      let b = minimum_bounds v x in
      record {
        start = o.not_below_trans _ m v ih.start b.0;
        rest = (o.not_below_trans _ m x ih.start b.1, ih.rest);
        reached = Among-step _ m v x xs b.2 ih.reached;
      }

  -- The `max` and the `min` of a period are its highest and its lowest value, whatever came before:
  -- each is a value of the period, and bounds all of them.
  pub extremes_of_period :
      (last v : A) (xs : List A)
      → IsHighest v xs (period (max o) tt last v xs).0
        × IsLowest v xs (period (min o) tt last v xs).0
  unfolding period
  extremes_of_period last v xs = (max-continue v xs, min-continue v xs)
