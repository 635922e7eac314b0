-- ===== src/Network/Client/Received.antt =====
-- The items of a `ReceivedItems` command of network/AP_Client.cpp and their running index.
use mod_i_found_your_sword.Prelude.{
  ℕ, suc, ℤ, succℤ, ◌≡◌, refl, ap, subst, List, [], ◌∷◌, length, codes,
}
use mod_i_found_your_sword.Network.Client.Json.{JsonLib, Except, ok, throws}
use mod_i_found_your_sword.Network.Client.State.{Client, M, ◌>>=◌, proceed, lift, NetworkItem}
use mod_i_found_your_sword.Network.Client.Commands.{read_item, read_items, int_at, int64_at}

-- Each item's index is one more than that of the item before.
abbrev pub Indexed : ℤ → List NetworkItem → Type 0
Indexed i [] = Unit {0}
Indexed i (x ∷ xs) = (x.index ≡ i) × Indexed (succℤ i) xs

abbrev HasIndex : ℤ → NetworkItem → Type 0
HasIndex i x = x.index ≡ i

abbrev IsBatch : ℤ → ℕ → List NetworkItem → Type 0
IsBatch i n xs = Indexed i xs × (length xs ≡ n)

module _ {J : JsonLib} where
  -- What code gives, where it does not throw.
  Gives : {A : Type 0} → (A → Type 0) → Except A × Client J → Type 0
  Gives P (ok a, c) = P a
  Gives P (throws e, c) = Unit {0}

  Gives-bind :
      {A B : Type 0} (Q : A → Type 0) (P : B → Type 0) (f : A → M J B) (r : Except A × Client J)
      → Gives Q r
      → ((a : A) (c : Client J) → Q a → Gives P (f a c))
      → Gives P (proceed f r)
  unfolding Gives
  Gives-bind Q P f (ok a, c) q k = k a c q
  Gives-bind Q P f (throws e, c) q k = tt

  any : {A : Type 0} (r : Except A × Client J) → Gives (λ _. Unit {0}) r
  unfolding Gives
  any (ok a, c) = tt
  any (throws e, c) = tt

  read_item-Gives : (i : ℤ) (j : J.Json) (c : Client J) → Gives (HasIndex i) (read_item J i j c)
  unfolding read_item ◌>>=◌ lift Gives
  read_item-Gives i j c =
      Gives-bind _ (HasIndex i) _ (int64_at J j (codes "item") c) (any _) λ item c₁ _.
        Gives-bind _ (HasIndex i) _ (int64_at J j (codes "location") c₁) (any _) λ loc c₂ _.
          Gives-bind _ (HasIndex i) _ (int_at J j (codes "player") c₂) (any _) λ player c₃ _.
            Gives-bind _ (HasIndex i) _ (lift (J.value_unsigned j (codes "flags") 0) c₃) (any _)
              λ flags c₄ _. refl

  read_items-Gives :
      (i : ℤ) (js : List J.Json) (c : Client J)
      → Gives (IsBatch i (length js)) (read_items J i js c)
  unfolding read_items ◌>>=◌ lift Gives
  read_items-Gives i [] c = (tt, refl)
  read_items-Gives i (j ∷ js) c =
      Gives-bind (HasIndex i) (IsBatch i (suc (length js))) _ (read_item J i j c)
        (read_item-Gives i j c)
        λ x c₁ at.
          Gives-bind (IsBatch (succℤ i) (length js)) (IsBatch i (suc (length js))) _
            (read_items J (succℤ i) js c₁) (read_items-Gives (succℤ i) js c₁)
            λ xs c₂ batch. ((at, batch.0), ap suc batch.1)

  -- The items read off a `ReceivedItems` command are as many as it lists, and are numbered one by one
  -- from the command's index on.
  pub read_items-Indexed :
      (i : ℤ) (js : List J.Json) (c : Client J) (xs : List NetworkItem)
      → (read_items J i js c).0 ≡ ok xs
      → Indexed i xs × (length xs ≡ length js)
  unfolding Gives
  read_items-Indexed i js c xs h = go (read_items J i js c) (read_items-Gives i js c) h
    where
      go :
          (r : Except (List NetworkItem) × Client J)
          → Gives (IsBatch i (length js)) r
          → r.0 ≡ ok xs
          → IsBatch i (length js) xs
      go (ok ys, d) g e =
          subst (IsBatch i (length js)) (ap (λ r. elim r [ ok zs ↦ zs | throws _ ↦ [] ]) e) g
      go (throws e', d) g e = cc
