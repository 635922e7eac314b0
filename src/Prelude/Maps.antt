-- ===== src/Prelude/Maps.antt =====
-- Maps as association lists, and sets as lists: what the program does with `std::map`,
-- `std::unordered_map` and `std::unordered_set`.
use mathlib.Core.Path.{◌≡◌, refl}
use mathlib.Core.Bool.{Bool, true, false}
use mathlib.Core.Option.{Option, none, some}
use mathlib.Core.List.{List, [], ◌∷◌}
use native.Mathlib.Omega.{arith}
use mod_i_found_your_sword.Prelude.Tests.{if◌then◌else◌}
use mod_i_found_your_sword.Prelude.Order.{Eq, beq}

module _ {ℓ κ} {K : Type ℓ} {V : Type κ} ⦃e : Eq K⦄ where
  -- `m.find(k)`.
  unfoldable pub lookup : K → List (K × V) → Option V
  lookup k [] = none
  lookup k ((j, v) ∷ m) = if beq j k then some v else lookup k m

  -- `m[k] = v`.
  unfoldable pub insert : K → V → List (K × V) → List (K × V)
  insert k v [] = (k, v) ∷ []
  insert k v ((j, w) ∷ m) = if beq j k then (k, v) ∷ m else (j, w) ∷ insert k v m

  pub lookup-insert :
      (k j : K) (v : V) (m : List (K × V))
      → lookup j (insert k v m) ≡ (if beq k j then some v else lookup j m)
  unfolding lookup insert
  lookup-insert k j v [] = refl
  lookup-insert k j v ((i, w) ∷ m) =
      ground (arith, e.test_iff k j, e.test_iff i k, e.test_iff i j, lookup-insert k j v m)

  pub lookup-insert_self : (k : K) (v : V) (m : List (K × V)) → lookup k (insert k v m) ≡ some v
  lookup-insert_self k v m = ground (arith, lookup-insert k k v m, (e.test_iff k k).1 refl)

module _ {ℓ} {A : Type ℓ} ⦃e : Eq A⦄ where
  -- `s.contains(a)`.
  unfoldable pub contains : A → List A → Bool
  contains a [] = false
  contains a (x ∷ xs) = if beq x a then true else contains a xs

  -- `s.erase(a)`.
  unfoldable pub erase : A → List A → List A
  erase a [] = []
  erase a (x ∷ xs) = let rest = erase a xs in if beq x a then rest else x ∷ rest

  pub contains-erase :
      (a b : A) (xs : List A) → contains b (erase a xs) ≡ (if beq a b then false else contains b xs)
  unfolding contains erase
  contains-erase a b [] = ground arith
  contains-erase a b (x ∷ xs) =
      ground (arith, e.test_iff a b, e.test_iff x a, e.test_iff x b, contains-erase a b xs)

  -- `s.insert(a)` on an unordered set.
  unfoldable pub add : A → List A → List A
  unfolding contains
  add a xs = if contains a xs then xs else a ∷ xs

  pub contains-add :
      (a b : A) (xs : List A) → contains b (add a xs) ≡ (if beq a b then true else contains b xs)
  unfolding add
  contains-add a b xs = ground (arith, e.test_iff a b)
