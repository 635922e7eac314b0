-- ===== src/Prelude/Int.antt =====
-- Signed 64-bit identifiers, of which the program uses the equality and the order alone.
use Prim.Native.Nat.{ℕ, suc, ◌+◌, ◌≤◌, ◌<◌}
use mathlib.Core.Path.{◌≡◌}
use mathlib.Core.Logic.{◌↔◌}
use mathlib.Core.Bool.{Bool, true, false}
use native.Mathlib.Omega.{arith}
use mod_i_found_your_sword.Prelude.Tests.{ltb, ◌==◌}
use mod_i_found_your_sword.Prelude.Order.{Eq}

-- `negsuc n` is -(n + 1).
pub data ℤ : Type 0 where
  pos : ℕ → ℤ
  negsuc : ℕ → ℤ

infix 50 ◌==ℤ◌ ◌<ℤ◌
abbrev pub ◌==ℤ◌ : ℤ → ℤ → Bool
pos a ==ℤ pos b = a == b
negsuc a ==ℤ negsuc b = a == b
pos a ==ℤ negsuc b = false
negsuc a ==ℤ pos b = false

abbrev pub ◌<ℤ◌ : ℤ → ℤ → Bool
pos a <ℤ pos b = ltb a b
negsuc a <ℤ negsuc b = ltb b a
pos a <ℤ negsuc b = false
negsuc a <ℤ pos b = true

pub ==ℤ_iff : (a b : ℤ) → ((a ==ℤ b) ≡ true) ↔ (a ≡ b)
==ℤ_iff a b = ground arith

-- `n + 1`, for the running index of the received items.
abbrev pub succℤ : ℤ → ℤ
succℤ (pos n) = pos (suc n)
succℤ (negsuc n) = elim n [ Prim.Native.Nat.zero ↦ pos 0 | suc k ↦ negsuc k ]

instance abbrev pub ℤ-eq : Eq ℤ
ℤ-eq = record { test = ◌==ℤ◌; test_iff = ==ℤ_iff }
