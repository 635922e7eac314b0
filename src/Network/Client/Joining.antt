-- ===== src/Network/Client/Joining.antt =====
-- The `Connected` command of network/AP_Client.cpp, which joins the slot.
use mod_i_found_your_sword.Prelude.{ℤ, ◌≡◌, refl, ap, ◌∙◌, ◌⊎◌, inl, inr, List}
use mod_i_found_your_sword.Network.Client.Json.{JsonLib, Bytes, Except, ok, throws}
use mod_i_found_your_sword.Network.Client.State.{Client, M, ◌>>=◌, proceed, lift}
use mod_i_found_your_sword.Network.Client.Commands.{int_at, join_slot, on_connected}

module _ {J : JsonLib} where
  -- Code that only reads: it gives a value or throws, whatever the object, and leaves it alone.
  abbrev pub Reads : {A : Type 0} → M J A → Type 0
  Reads {A = A} m =
      ((a : A) × ((c : Client J) → m c ≡ (ok a, c)))
      ⊎ ((e : Bytes) × ((c : Client J) → m c ≡ (throws e, c)))

  pub Reads-lift : {A : Type 0} (r : Except A) → Reads (lift r)
  unfolding lift
  Reads-lift (ok a) = inl (a, λ c. refl)
  Reads-lift (throws e) = inr (e, λ c. refl)

  pub bind_ok :
      {A B : Type 0} (m : M J A) (f : A → M J B) (a : A) {c d : Client J}
      → m c ≡ (ok a, d)
      → (m >>= f) c ≡ f a d
  unfolding ◌>>=◌
  bind_ok m f a e = ap (proceed f) e

  pub bind_throws :
      {A B : Type 0} (m : M J A) (f : A → M J B) (e : Bytes) {c d : Client J}
      → m c ≡ (throws e, d)
      → (m >>= f) c ≡ (throws e, d)
  unfolding ◌>>=◌
  bind_throws m f e h = ap (proceed f) h

  pub Reads-bind :
      {A B : Type 0} {m : M J A} {f : A → M J B}
      → Reads m
      → ((a : A) → Reads (f a))
      → Reads (m >>= f)
  Reads-bind {m = m} {f = f} (inr (e, h)) k = inr (e, λ c. bind_throws m f e (h c))
  Reads-bind {m = m} {f = f} (inl (a, h)) k = elim (k a) [
    | inl (b, g) ↦ inl (b, λ c. bind_ok m f a (h c) ∙ g c)
    | inr (e, g) ↦ inr (e, λ c. bind_ok m f a (h c) ∙ g c)
  ]

  pub int_at-Reads : (j : J.Json) (key : Bytes) → Reads (int_at J j key)
  unfolding int_at
  int_at-Reads j key = Reads-bind (Reads-lift (J.get_at j key)) λ v. Reads-lift (J.get_int v)

  -- Either nothing was changed, or every field was read.
  abbrev pub Outcome : J.Json → (Client J → Except (Unit {0}) × Client J) → Type 0
  Outcome j run =
      ((e : Bytes) × ((c : Client J) → run c ≡ (throws e, c)))
      ⊎ ((team : ℤ) × (slot : ℤ) × (ps : List J.Json) × (sd : J.Json) × (missing : List ℤ)
          × ((c : Client J) → run c ≡ join_slot J j team slot ps sd missing c))

  Outcome-bind :
      (j : J.Json) {A : Type 0} (m : M J A) (f : A → M J (Unit {0}))
      → Reads m
      → ((a : A) → Outcome j (f a))
      → Outcome j (m >>= f)
  Outcome-bind j m f (inr (e, h)) k = inl (e, λ c. bind_throws m f e (h c))
  Outcome-bind j m f (inl (a, h)) k = elim (k a) [
    | inl (e, g) ↦ inl (e, λ c. bind_ok m f a (h c) ∙ g c)
    | inr (team, slot, ps, sd, missing, g) ↦
        inr (team, slot, ps, sd, missing, λ c. bind_ok m f a (h c) ∙ g c)
  ]

  -- `Connected` reads its five required fields before it changes anything: if one is missing or of
  -- another type it throws and the object is as it was, and otherwise it goes on with what it read.
  pub on_connected-reads_first : (j : J.Json) → Outcome j (on_connected J j)
  unfolding on_connected
  on_connected-reads_first j = Outcome-bind j _ _ (int_at-Reads j _) λ team.
      Outcome-bind j _ _ (int_at-Reads j _) λ slot. Outcome-bind j _ _ (Reads-lift _) λ ps.
        Outcome-bind j _ _ (Reads-lift _) λ sd. Outcome-bind j _ _ (Reads-lift _) λ ids.
          Outcome-bind j _ _ (Reads-lift _)
            λ missing. inr (team, slot, J.elements ps, sd, missing, λ c. refl)
