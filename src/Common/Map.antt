-- ===== src/Common/Map.antt =====
-- `std::map` and `boost::unordered_map` as association lists: `find`, `operator[]` on the left of
-- an assignment, `insert`, which keeps an entry that is there, `erase` and `size`.
use mathlib.Core.Path.{◌≡◌, refl}
use mathlib.Core.Logic.{◌≢◌, inl, inr}
use mathlib.Core.Bool.{Bool, true, false}
use mathlib.Core.Option.{Option, none, some}
use mathlib.Core.List.{List, [], ◌∷◌}
use native.Mathlib.Omega.{arith}
use atp.Common.Tests.{if◌then◌else◌, Bool-cases}
use atp.Common.Eq.{Eq, eq, eq_refl}

abbrev pub Map {ℓ κ} : Type ℓ → Type κ → Type (ℓ ⊔ κ)
Map K V = List (K × V)

module _ {ℓ κ} {K : Type ℓ} {V : Type κ} ⦃e : Eq K⦄ where
  unfoldable pub find : K → Map K V → Option V
  find k [] = none
  find k ((j, v) ∷ m) = if eq j k then some v else find k m

  -- m[k] = v
  unfoldable pub assign : K → V → Map K V → Map K V
  assign k v [] = (k, v) ∷ []
  assign k v ((j, w) ∷ m) = if eq j k then (k, v) ∷ m else (j, w) ∷ assign k v m

  unfoldable pub erase : K → Map K V → Map K V
  erase k [] = []
  erase k ((j, w) ∷ m) = if eq j k then erase k m else (j, w) ∷ erase k m

  unfoldable pub has : K → Map K V → Bool
  has k m = elim (find k m) [ none ↦ false | some v ↦ true ]

  -- m.insert(pair(k, v)), with its `.second`
  unfoldable pub insert : K → V → Map K V → Map K V × Bool
  unfolding has
  insert k v m = if has k m then (m, false) else (assign k v m, true)

  pub find-assign :
      (k j : K) (v : V) (m : Map K V)
      → find j (assign k v m) ≡ (if eq k j then some v else find j m)
  unfolding find assign
  find-assign k j v [] = refl
  find-assign k j v ((i, w) ∷ m) =
      ground (arith, e.test_iff k j, e.test_iff i k, e.test_iff i j, find-assign k j v m)

  pub find-assign_self : (k : K) (v : V) (m : Map K V) → find k (assign k v m) ≡ some v
  find-assign_self k v m = ground (arith, find-assign k k v m, eq_refl k)

  pub find-assign_ne : (k j : K) (v : V) (m : Map K V) → k ≢ j → find j (assign k v m) ≡ find j m
  find-assign_ne k j v m h = ground (arith, find-assign k j v m, e.test_iff k j)

  find-erase : (k j : K) (m : Map K V) → find j (erase k m) ≡ (if eq k j then none else find j m)
  unfolding find erase
  find-erase k j [] = ground arith
  find-erase k j ((i, w) ∷ m) =
      ground (arith, e.test_iff k j, e.test_iff i k, e.test_iff i j, find-erase k j m)

  pub find-insert :
      (k j : K) (v : V) (m : Map K V)
      → find j (insert k v m).0
        ≡ (if has k m then find j m else if eq k j then some v else find j m)
  unfolding insert
  find-insert k j v m = elim (Bool-cases (has k m)) [
    | inl p ↦ ground arith
    | inr p ↦ ground (arith, find-assign k j v m)
  ]
