-- ===== src/Window/Samplers.antt =====
-- src/cpp/common/moving_window_samplers.hpp: how the values of one period become one sample. A sampler
-- is a function object; its fields are its `State`.
pub mod Periods
pub mod Extremes
use atp.Common.{ℕ, ◌+◌, ◌%◌, Bool, false, true, Option, none, some, ◌==◌, if◌then◌else◌, ◌≡◌}
use atp.Common.Int.{size_mod}

-- The call `sampler(last, now, new_period)` gives the sample and the new state.
pub record Sampler (A : Type 0) : Type 1 where
  pub State : Type 0
  pub initial : State
  pub sample : State → A → A → Bool → A × State

-- The arithmetic of `element_t` that `avg` uses.
pub record Arithmetic (A : Type 0) : Type 0 where
  pub add : A → A → A
  pub divide : A → A → A
  pub of_count : ℕ → A

-- `operator<` of `element_t`, by which `std::max` and `std::min` choose: irreflexive, and such that
-- `x` not below `y` is transitive.
pub record Ordered (A : Type 0) : Type 0 where
  pub below : A → A → Bool
  pub below_irrefl : (x : A) → below x x ≡ false
  pub below_asym : (x y : A) → below x y ≡ true → below y x ≡ false
  pub not_below_trans : (x y z : A) → below y x ≡ false → below z y ≡ false → below z x ≡ false

module _ {A : Type 0} where
  abbrev pub latest : Sampler A
  latest = record { State = Unit {0}; initial = tt; sample = λ s last now new_period. (now, s) }

  abbrev pub close : Sampler A
  close = record { State = Unit {0}; initial = tt; sample = λ s last now new_period. (now, s) }

  -- `none` is `init_` false; `open_` is then not set.
  unfoldable pub open_sample : Option A → A → A → Bool → A × Option A
  open_sample s last now true = (now, some now)
  open_sample none last now false = (now, some now)
  open_sample (some first) last now false = (first, some first)

  abbrev pub opening : Sampler A
  opening = record { State = Option A; initial = none; sample = open_sample }

module _ {A : Type 0} (o : Ordered A) where
  -- `std::max` and `std::min`
  unfoldable pub maximum : A → A → A
  maximum x y = if o.below x y then y else x

  unfoldable pub minimum : A → A → A
  minimum x y = if o.below y x then y else x

  abbrev pub max : Sampler A
  max = record {
    State = Unit {0};
    initial = tt;
    sample = λ s last now new_period. (if new_period then now else maximum last now, s);
  }

  abbrev pub min : Sampler A
  min = record {
    State = Unit {0};
    initial = tt;
    sample = λ s last now new_period. (if new_period then now else minimum last now, s);
  }

-- `count` and `sum`; `sum` is read only after it has been set, when `count` is not 0.
pub record AvgState (A : Type 0) : Type 0 where
  pub count : ℕ
  pub sum : Option A

module _ {A : Type 0} (num : Arithmetic A) where
  -- The sum after `now`, from the count and the sum before.
  unfoldable pub avg_sum : ℕ → Option A → A → A
  avg_sum count none now = now
  avg_sum count (some sum) now = if count == 0 then now else num.add sum now

  unfoldable pub avg_sample : AvgState A → A → A → Bool → A × AvgState A
  unfolding avg_sum
  avg_sample s last now new_period =
      let count = if new_period then 0 else s.count in
      let sum = avg_sum count (if new_period then some now else s.sum) now in
      let count' = (count + 1) % size_mod in
      (num.divide sum (num.of_count count'), record { count = count'; sum = some sum })

  abbrev pub avg : Sampler A
  avg = record {
    State = AvgState A;
    initial = record { count = 0; sum = none };
    sample = avg_sample;
  }
