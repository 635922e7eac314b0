-- ===== src/Character/Progress/Trainer.antt =====
-- The trainers' spells of AP_Character.cpp that are locations, and the skills.
use mod_i_found_your_sword.Prelude.{
  ℕ, ◌≤◌, ℤ, ◌≡◌, refl, sym, ap, subst, inl, inr, Bool, true, false, not, ◌&&◌, List, [], ◌∷◌, none,
  some, if◌then◌else◌, leb, ◌==◌, ==_iff, ℕ-eq, ℤ-eq, ==ℤ_iff, contains, contains-add, lookup,
  arith, Bool-cases,
}
use mod_i_found_your_sword.Items.Tables.{Spells}
use mod_i_found_your_sword.Locations.{get_location_id}
use mod_i_found_your_sword.Locations.Skills.{up_to-in, IsAscending, get_location_ids}
use mod_i_found_your_sword.Character.Progress.{Progress, tell, check_location, check_locations}
use mod_i_found_your_sword.Character.Progress.CatchUp.{
  not_checked, check_locations-contains, not_checked-contains,
}

-- `Trainer::SpellState` of the server.
pub data SpellState : Type 0 where
  unavailable available known : SpellState

abbrev pub is_known : SpellState → Bool
is_known known = true
is_known _ = false

-- Whether the spell is a location that was checked.
unfoldable pub is_spent : Progress → ℕ → Bool
unfolding get_location_id
is_spent c spell = elim (get_location_id spell c.locations.spells) [
  | none ↦ false
  | some location ↦ contains location c.checked_locations
]

unfoldable pub req_level : Spells → ℕ → ℕ
req_level s spell = elim (lookup spell s.by_spell_id) [ none ↦ 0 | some item ↦ item.req_level ]

-- `OnPlayerGetTrainerSpellState`, by the player's level.
unfoldable pub trainer_spell_state : Spells → ℕ → ℕ → Progress → SpellState → SpellState
unfolding get_location_id req_level
trainer_spell_state s level spell c state = elim (get_location_id spell c.locations.spells) [
  | none ↦ state
  | some location ↦
      if contains location c.checked_locations
      then known
      else if not (is_known state)
      then state
      else if leb (req_level s spell) level
      then available
      else unavailable
]

-- `OnPlayerBeforeReceiveSpellListFromTrainer`.
unfoldable pub receive_spell_list : Progress → List ℕ → List ℕ
unfolding is_spent
receive_spell_list c [] = []
receive_spell_list c (spell ∷ spells) =
    let rest = receive_spell_list c spells in if is_spent c spell then rest else spell ∷ rest

-- `OnPlayerAfterTrainSpell`, with whether the trainer's window is opened again.
unfoldable pub after_train_spell : ℕ → Progress → Progress × Bool
unfolding get_location_id check_location
after_train_spell spell c = elim (get_location_id spell c.locations.spells) [
  | none ↦ (c, false)
  | some location ↦
      if contains location c.checked_locations
      then (c, false)
      else (check_location location c, true)
]

-- `OnPlayerUpdateSkill`.
unfoldable pub on_player_update_skill : ℕ → ℕ → Progress → Progress
unfolding get_location_ids not_checked check_locations
on_player_update_skill skill value c =
    check_locations
      (not_checked c.checked_locations (get_location_ids skill value c.locations.skills)) c

receive_spell_list-contains :
    (c : Progress) (spells : List ℕ) (spell : ℕ)
    → contains spell (receive_spell_list c spells)
      ≡ (contains spell spells && not (is_spent c spell))
unfolding receive_spell_list contains
receive_spell_list-contains c [] spell = refl
receive_spell_list-contains c (s ∷ ss) spell = elim (Bool-cases (s == spell)) [
  | inl e ↦
      let same : s ≡ spell = (==_iff s spell).0 e in
      ground (arith, receive_spell_list-contains c ss spell, ap (is_spent c) same, e)
  | inr e ↦ ground (arith, receive_spell_list-contains c ss spell, e)
]

-- What buying a location of a trainer leaves behind.
pub record IsSold (s : Spells) (level spell : ℕ) (location : ℤ) (c : Progress) : Type 0 where
  pub checked : contains location c.checked_locations ≡ true
  pub known_now : (state : SpellState) → trainer_spell_state s level spell c state ≡ known
  pub off_list : (spells : List ℕ) → contains spell (receive_spell_list c spells) ≡ false
  pub not_again : after_train_spell spell c ≡ (c, false)

checked-IsSold :
    (s : Spells) (level spell : ℕ) (location : ℤ) (c : Progress)
    → get_location_id spell c.locations.spells ≡ some location
    → contains location c.checked_locations ≡ true
    → IsSold s level spell location c
unfolding trainer_spell_state after_train_spell is_spent
checked-IsSold s level spell location c e h = record {
  checked = h;
  known_now = λ state. ground (arith, e, h);
  off_list = λ spells. ground (arith, receive_spell_list-contains c spells spell, e, h);
  not_again = ground (arith, e, h);
}

-- A trainer's spell that is a location is sold once, at every level and whatever the trainer makes of the
-- spell: after the purchase the location is checked, the spell shows as known and is in no list of the
-- trainer, and training it again changes nothing and does not open the window again.
pub after_train_spell-IsSold :
    (s : Spells) (level spell : ℕ) (location : ℤ) (c : Progress)
    → get_location_id spell c.locations.spells ≡ some location
    → IsSold s level spell location (after_train_spell spell c).0
unfolding after_train_spell
after_train_spell-IsSold s level spell location c e =
    elim (Bool-cases (contains location c.checked_locations)) [
      | inl h ↦
          let same : after_train_spell spell c ≡ (c, false) = ground (arith, e, h) in
          subst (λ r. IsSold s level spell location r.0) (sym same)
            (checked-IsSold s level spell location c e h)
      | inr h ↦
          let bought : after_train_spell spell c ≡ (check_location location c, true) =
            ground (arith, e, h) in
          let now : contains location (check_location location c).checked_locations ≡ true =
            unfold check_location in
            unfold tell in
            ground (
              arith,
              contains-add location location c.checked_locations,
              (==ℤ_iff location location).1 refl,
            ) in
          subst (λ r. IsSold s level spell location r.0) (sym bought)
            (checked-IsSold s level spell location (check_location location c)
              (unfold check_location in unfold tell in e) now)
    ]

-- When a skill reaches a value, the location of every value of the skill up to it is checked, however the
-- skill came past them, and no location that was checked is lost.
pub on_player_update_skill-contains :
    (skill value v : ℕ) (location : ℤ) (values : List (ℕ × ℤ)) (c : Progress)
    → lookup skill c.locations.skills ≡ some values
    → IsAscending 0 values
    → lookup v values ≡ some location
    → v ≤ value
    → (l : ℤ)
    → (contains location (on_player_update_skill skill value c).checked_locations ≡ true)
      × ((contains l c.checked_locations
            && not (contains l (on_player_update_skill skill value c).checked_locations))
          ≡ false)
unfolding on_player_update_skill get_location_ids
on_player_update_skill-contains skill value v location values c e a h le l =
    let reached = get_location_ids skill value c.locations.skills in
    let missing = not_checked c.checked_locations reached in
    ground (
      arith,
      e,
      up_to-in 0 value v location values a h le,
      not_checked-contains c.checked_locations reached location,
      check_locations-contains missing c location,
      check_locations-contains missing c l,
    )
