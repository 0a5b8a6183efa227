-- ===== src/Common/Eq.antt =====
-- Equality tests of keys, as an interface.
use Prim.Native.Nat.{ℕ}
use Prim.Native.String.{String}
use mathlib.Core.Path.{◌≡◌, refl}
use mathlib.Core.Logic.{◌↔◌}
use mathlib.Core.Bool.{Bool, true, false}
use native.Mathlib.Omega.{arith}
use text.Mathlib.Text.{◌==◌ as str_eq}
use text.Mathlib.TextEquality.{eq_iff}
use atp.Common.Tests.{◌==◌, ==_iff}
use atp.Common.Int.{ℤ, pos, negsuc}

pub record Eq {ℓ} (A : Type ℓ) : Type ℓ where
  pub test : A → A → Bool
  pub test_iff : (a b : A) → (test a b ≡ true) ↔ (a ≡ b)

abbrev pub eq {ℓ} : {A : Type ℓ} ⦃e : Eq A⦄ → A → A → Bool
eq ⦃e⦄ = e.test

instance abbrev pub nat_eq : Eq ℕ
nat_eq = record { test = ◌==◌; test_iff = ==_iff }

instance abbrev pub text_eq : Eq String
text_eq = record { test = str_eq; test_iff = eq_iff }

abbrev pub int_test : ℤ → ℤ → Bool
int_test (pos a) (pos b) = a == b
int_test (negsuc a) (negsuc b) = a == b
int_test (pos a) (negsuc b) = false
int_test (negsuc a) (pos b) = false

pub int_test_iff : (a b : ℤ) → (int_test a b ≡ true) ↔ (a ≡ b)
int_test_iff (pos a) (pos b) = ground arith
int_test_iff (negsuc a) (negsuc b) = ground arith
int_test_iff (pos a) (negsuc b) = ground arith
int_test_iff (negsuc a) (pos b) = ground arith

instance abbrev pub int_eq : Eq ℤ
int_eq = record { test = int_test; test_iff = int_test_iff }

pub eq_refl {ℓ} : {A : Type ℓ} ⦃e : Eq A⦄ → (a : A) → eq a a ≡ true
eq_refl ⦃e⦄ a = (e.test_iff a a).1 refl
