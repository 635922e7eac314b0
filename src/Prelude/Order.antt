-- ===== src/Prelude/Order.antt =====
-- Equality tests as an instance, for keys of maps and members of sets.
use Prim.Native.Nat.{ℕ}
use mathlib.Core.Path.{◌≡◌}
use mathlib.Core.Logic.{◌↔◌}
use mathlib.Core.Bool.{Bool, true, false, ◌&&◌}
use mathlib.Core.List.{List, [], ◌∷◌}
use native.Mathlib.Omega.{arith}
use mod_i_found_your_sword.Prelude.Tests.{◌==◌, ==_iff}

pub record Eq {ℓ} (A : Type ℓ) : Type ℓ where
  pub test : A → A → Bool
  pub test_iff : (a b : A) → (test a b ≡ true) ↔ (a ≡ b)

abbrev pub beq {ℓ} : {A : Type ℓ} ⦃e : Eq A⦄ → A → A → Bool
beq ⦃e⦄ = e.test

abbrev pub bytes_eq : List ℕ → List ℕ → Bool
bytes_eq [] [] = true
bytes_eq [] (_ ∷ _) = false
bytes_eq (_ ∷ _) [] = false
bytes_eq (a ∷ as') (b ∷ bs) = a == b && bytes_eq as' bs

pub bytes_eq_iff : (as' bs : List ℕ) → (bytes_eq as' bs ≡ true) ↔ (as' ≡ bs)
bytes_eq_iff [] [] = ground arith
bytes_eq_iff [] (_ ∷ _) = ground arith
bytes_eq_iff (_ ∷ _) [] = ground arith
bytes_eq_iff (a ∷ as') (b ∷ bs) = ground (arith, bytes_eq_iff as' bs)

instance abbrev pub ℕ-eq : Eq ℕ
ℕ-eq = record { test = ◌==◌; test_iff = ==_iff }

instance abbrev pub bytes-eq : Eq (List ℕ)
bytes-eq = record { test = bytes_eq; test_iff = bytes_eq_iff }
