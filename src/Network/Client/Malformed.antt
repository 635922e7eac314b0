-- ===== src/Network/Client/Malformed.antt =====
-- The players of the `Connected` command of network/AP_Client.cpp, and what becomes of the client
-- when one of them cannot be read.
use mathlib.Core.List.{Memᴰ}
use mod_i_found_your_sword.Prelude.{
  ℤ, ◌≡◌, refl, ap, subst, ◌∙◌, ◌⊎◌, inl, inr, List, [], ◌∷◌, ◌++◌, codes,
}
use mod_i_found_your_sword.Network.Client.Json.{JsonLib, Bytes, Except, ok, throws}
use mod_i_found_your_sword.Network.Client.State.{
  Client, NetworkPlayer, slot_connected, M, ◌>>=◌, ◌>>◌, proceed, lift, modify, for_each,
}
use mod_i_found_your_sword.Network.Client.Commands.{
  int_at, string_at, add_player, join_slot, on_connected,
}
use mod_i_found_your_sword.Network.Client.Joining.{
  Reads, Reads-lift, Reads-bind, bind_ok, bind_throws, int_at-Reads,
}

module _ (J : JsonLib) where
  -- The field is missing, or its value is of another type.
  abbrev pub Fails : {A : Type 0} → J.Json → Bytes → (J.Json → Except A) → Type 0
  Fails j key get =
      ((e : Bytes) × (J.get_at j key ≡ throws e))
      ⊎ ((v : J.Json) × (e : Bytes) × (J.get_at j key ≡ ok v) × (get v ≡ throws e))

  -- A player of which one of the four fields cannot be read.
  abbrev pub IsMalformed : J.Json → Type 0
  IsMalformed p =
      Fails p (codes "team") J.get_int
      ⊎ Fails p (codes "slot") J.get_int
      ⊎ Fails p (codes "alias") J.get_string
      ⊎ Fails p (codes "name") J.get_string

  -- What `Connected` reads before it changes anything.
  pub record IsConnected (command : J.Json) (team slot : ℤ) (list slot_data : J.Json)
      (missing : List ℤ) : Type 0 where
    pub team_read : (c : Client J) → int_at J command (codes "team") c ≡ (ok team, c)
    pub slot_read : (c : Client J) → int_at J command (codes "slot") c ≡ (ok slot, c)
    pub list_read : J.get_at command (codes "players") ≡ ok list
    pub data_read : J.get_at command (codes "slot_data") ≡ ok slot_data
    pub ids : J.Json
    pub ids_read : J.get_at command (codes "missing_locations") ≡ ok ids
    pub missing_read : J.get_ids ids ≡ ok missing

module _ {J : JsonLib} where
  then_throws :
      {B : Type 0} (m : M J (Unit {0})) (n : M J B) (e : Bytes) {c d : Client J}
      → m c ≡ (throws e, d)
      → (m >> n) c ≡ (throws e, d)
  unfolding ◌>>◌
  then_throws m n e h = bind_throws m (λ _. n) e h

  then_ok :
      {B : Type 0} (m : M J (Unit {0})) (n : M J B) {c d : Client J}
      → m c ≡ (ok tt, d)
      → (m >> n) c ≡ n d
  unfolding ◌>>◌
  then_ok m n h = bind_ok m (λ _. n) tt h

  -- Code that throws, whatever the object, and leaves it alone.
  abbrev Throws : {A : Type 0} → M J A → Type 0
  Throws m = (e : Bytes) × ((c : Client J) → m c ≡ (throws e, c))

  Throws-bind : {A B : Type 0} {m : M J A} (f : A → M J B) → Throws m → Throws (m >>= f)
  Throws-bind {m = m} f (e, h) = (e, λ c. bind_throws m f e (h c))

  Throws-later :
      {A B : Type 0} {m : M J A} {f : A → M J B}
      → Reads m
      → ((a : A) → Throws (f a))
      → Throws (m >>= f)
  Throws-later (inr h) k = Throws-bind _ h
  Throws-later {m = m} {f = f} (inl (a, h)) k =
      let (e, g) = k a in (e, λ c. bind_ok m f a (h c) ∙ g c)

  string_at-Reads : (j : J.Json) (key : Bytes) → Reads (string_at J j key)
  unfolding string_at
  string_at-Reads j key = Reads-bind (Reads-lift (J.get_at j key)) λ v. Reads-lift (J.get_string v)

  read-Throws :
      {A : Type 0} (j : J.Json) (key : Bytes) (get : J.Json → Except A)
      → Fails J j key get
      → Throws {A = A} (lift (J.get_at j key) >>= λ v. lift (get v))
  unfolding lift
  read-Throws j key get (inl (e, h)) =
      (e, λ c. bind_throws (lift (J.get_at j key)) _ e (ap (λ r. (r, c)) h))
  read-Throws j key get (inr (v, e, h, k)) =
      (e, λ c. bind_ok (lift (J.get_at j key)) _ v (ap (λ r. (r, c)) h) ∙ ap (λ r. (r, c)) k)

  add_player-Throws : (p : J.Json) → IsMalformed J p → Throws (add_player J p)
  unfolding add_player int_at string_at
  add_player-Throws p (inl team) = Throws-bind _ (read-Throws p _ J.get_int team)
  add_player-Throws p (inr (inl slot)) =
      Throws-later (int_at-Reads p _) λ _. Throws-bind _ (read-Throws p _ J.get_int slot)
  add_player-Throws p (inr (inr (inl alias))) =
      Throws-later (int_at-Reads p _)
        λ _. Throws-later (int_at-Reads p _) λ _. Throws-bind _ (read-Throws p _ J.get_string alias)
  add_player-Throws p (inr (inr (inr name))) = Throws-later (int_at-Reads p _) λ _.
      Throws-later (int_at-Reads p _) λ _.
        Throws-later (string_at-Reads p _) λ _. Throws-bind _ (read-Throws p _ J.get_string name)

  -- Code that throws, or else changes the players alone.
  abbrev Players : M J (Unit {0}) → Type 0
  Players m =
      Throws m
      ⊎ ((player : NetworkPlayer) × ((c : Client J)
            → m c ≡ (ok tt, record c { players = c.players ++ player ∷ [] })))

  Players-bind :
      {A : Type 0} {m : M J A} {f : A → M J (Unit {0})}
      → Reads m
      → ((a : A) → Players (f a))
      → Players (m >>= f)
  Players-bind (inr h) k = inl (Throws-bind _ h)
  Players-bind {m = m} {f = f} (inl (a, h)) k = elim (k a) [
    | inl (e, g) ↦ inl (e, λ c. bind_ok m f a (h c) ∙ g c)
    | inr (player, g) ↦ inr (player, λ c. bind_ok m f a (h c) ∙ g c)
  ]

  add_player-Players : (p : J.Json) → Players (add_player J p)
  unfolding add_player modify
  add_player-Players p = Players-bind (int_at-Reads p _) λ team.
      Players-bind (int_at-Reads p _) λ slot. Players-bind (string_at-Reads p _) λ alias.
        Players-bind (string_at-Reads p _)
          λ name. inr (record { team = team; slot = slot; alias = alias; name = name }, λ c. refl)

  -- Thrown, with nothing but the players changed.
  abbrev Breaks : Client J → Except (Unit {0}) × Client J → Type 0
  Breaks c r = (e : Bytes) × (ps : List NetworkPlayer) × (r ≡ (throws e, record c { players = ps }))

  for_each-Breaks :
      (list : List J.Json) (p : J.Json)
      → Memᴰ p list
      → IsMalformed J p
      → (c : Client J) → Breaks c (for_each list (add_player J) c)
  unfolding for_each
  for_each-Breaks [] p m bad c = elim m [ ]
  for_each-Breaks (q ∷ list) p (Memᴰ.head at) bad c =
      let (e, h) = add_player-Throws q (subst (IsMalformed J) at bad) in
      (e, c.players, ap (proceed (λ _. for_each list (add_player J))) (h c))
  for_each-Breaks (q ∷ list) p (Memᴰ.tail m) bad c = elim (add_player-Players q) [
    | inl (e, h) ↦ (e, c.players, ap (proceed (λ _. for_each list (add_player J))) (h c))
    | inr (player, h) ↦
        let (e, ps, k) =
          for_each-Breaks list p m bad (record c { players = c.players ++ player ∷ [] }) in
        (e, ps, ap (proceed (λ _. for_each list (add_player J))) (h c) ∙ k)
  ]

  lift_ok : {A : Type 0} {r : Except A} {a : A} (c : Client J) → r ≡ ok a → lift r c ≡ (ok a, c)
  unfolding lift
  lift_ok c h = ap (λ r. (r, c)) h

  on_connected-join_slot :
      (command : J.Json) (team slot : ℤ) (list slot_data : J.Json) (missing : List ℤ) (c : Client J)
      → IsConnected J command team slot list slot_data missing
      → on_connected J command c
        ≡ join_slot J command team slot (J.elements list) slot_data missing c
  unfolding on_connected
  on_connected-join_slot command team slot list slot_data missing c i =
      bind_ok (int_at J command (codes "team")) _ team (i.team_read c)
      ∙ bind_ok (int_at J command (codes "slot")) _ slot (i.slot_read c)
      ∙ bind_ok (lift (J.get_at command (codes "players"))) _ list (lift_ok c i.list_read)
      ∙ bind_ok (lift (J.get_at command (codes "slot_data"))) _ slot_data (lift_ok c i.data_read)
      ∙ bind_ok (lift (J.get_at command (codes "missing_locations"))) _ i.ids (lift_ok c i.ids_read)
      ∙ bind_ok (lift (J.get_ids i.ids)) _ missing (lift_ok c i.missing_read)

  -- The fields of the players are not among those that `Connected` reads before it changes anything.
  -- When those it does read are well formed and one of the players, wherever it stands in the list, has
  -- a field that is missing or of another type, the command throws with the state already
  -- `slot_connected`: the team, the slot and the missing locations are the new ones, and all else but
  -- the players is as it was. So the checks that wait stay queued, nothing is sent, and the owner is
  -- not told that the slot is connected.
  pub on_connected-half_joined :
      (command : J.Json) (team slot : ℤ) (list slot_data : J.Json) (missing : List ℤ) (p : J.Json)
      (c : Client J)
      → IsConnected J command team slot list slot_data missing
      → Memᴰ p (J.elements list)
      → IsMalformed J p
      → (e : Bytes) × (ps : List NetworkPlayer) × (on_connected J command c ≡ (
        throws e,
        record c {
          state = slot_connected;
          team = team;
          slotnr = slot;
          missing_locations = missing;
          players = ps;
        },
      ))
  unfolding join_slot modify
  on_connected-half_joined command team slot list slot_data missing p c i m bad =
      let c' : Client J = record c {
        state = slot_connected;
        team = team;
        slotnr = slot;
        missing_locations = missing;
        players = [];
      } in
      let (e, ps, h) = for_each-Breaks (J.elements list) p m bad c' in
      (
        e,
        ps,
        on_connected-join_slot command team slot list slot_data missing c i
            ∙ then_ok (modify _) _ refl
            ∙ then_throws (for_each (J.elements list) (add_player J)) _ e h,
      )
