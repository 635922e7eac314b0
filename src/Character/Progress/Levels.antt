-- ===== src/Character/Progress/Levels.antt =====
-- The levels that AP_Character.cpp makes of experience.
use mod_i_found_your_sword.Prelude.{
  ℕ, zero, suc, ◌+◌, ◌-◌, ◌%◌, ◌^◌, ◌≤◌, ◌<◌, ℤ, ◌≡◌, ◌⊎◌, refl, sym, ap, ◌∙◌, inl, inr, true, ◌&&◌,
  Option, none, some, ltb, leb, ℕ-eq, ℤ-eq, ==ℤ_iff, contains, contains-add, arith, Bool-cases,
}
use mod_i_found_your_sword.Locations.{LocationsContainer, get_location_id}
use mod_i_found_your_sword.Character.Progress.{
  Progress, log_xp_gain, tell, check_location, check_if,
}
use mod_i_found_your_sword.Character.Progress.Experience.{
  load_xp_for_level, send_experience_bar, level_up, level_ups, give_archipelago_experience,
}
use mod_i_found_your_sword.Character.Progress.Kept.{Grows, level_ups-Grows}

-- What so many levels take, from one on.
unfoldable pub xp_of_levels : (ℕ → ℕ) → ℕ → ℕ → ℕ
xp_of_levels table level zero = 0
xp_of_levels table level (suc n) = table level + xp_of_levels table (suc level) n

-- A level and what is left over, of the experience at another.
pub record Levels (table : ℕ → ℕ) (places : LocationsContainer) (level exp : ℕ) (d : Progress)
    : Type 0 where
  pub gained : ℕ
  pub reached : d.ap_level ≡ level + gained
  pub spent : d.ap_exp + xp_of_levels table level gained ≡ exp
  pub required : d.xp_for_level ≡ table d.ap_level
  pub stopped : (d.xp_for_level ≡ 0) ⊎ (d.ap_exp < d.xp_for_level)
  pub checked :
      (i : ℕ) (id : ℤ)
      → i < gained
      → get_location_id (level + suc i) places.levels ≡ some id
      → contains id d.checked_locations ≡ true

check_if-level :
    (id : Option ℤ) (c : Progress)
    → ((check_if id c).ap_level ≡ c.ap_level)
      × ((check_if id c).ap_exp ≡ c.ap_exp)
      × ((check_if id c).locations ≡ c.locations)
unfolding check_if check_location tell
check_if-level none c = (refl, refl, refl)
check_if-level (some id) c = (refl, refl, refl)

level_up-level :
    (table : ℕ → ℕ) (c : Progress)
    → c.ap_level < 255
    → ((level_up table c).ap_level ≡ suc c.ap_level)
      × ((level_up table c).ap_exp ≡ c.ap_exp - c.xp_for_level)
      × ((level_up table c).locations ≡ c.locations)
      × ((level_up table c).xp_for_level ≡ table (suc c.ap_level))
unfolding level_up load_xp_for_level
level_up-level table c h =
    let level = (c.ap_level + 1) % 2 ^ 8 in
    let e : level ≡ suc c.ap_level = omega arith in
    let c' : Progress = record c { ap_level = level; ap_exp = c.ap_exp - c.xp_for_level } in
    let k = check_if-level (get_location_id level c.locations.levels) c' in
    (k.0 ∙ e, k.1, k.2, ap table (k.0 ∙ e))

-- The location of the level that is reached.
level_up-checked :
    (table : ℕ → ℕ) (c : Progress) (id : ℤ)
    → c.ap_level < 255
    → get_location_id (suc c.ap_level) c.locations.levels ≡ some id
    → contains id (level_up table c).checked_locations ≡ true
unfolding level_up load_xp_for_level
level_up-checked table c id h e =
    let level : (c.ap_level + 1) % 2 ^ 8 ≡ suc c.ap_level = omega arith in
    rw (level, e)
      (unfold check_if in
        unfold check_location in
        unfold tell in
        ground (arith, contains-add id id c.checked_locations, (==ℤ_iff id id).1 refl))

Levels-stop :
    (table : ℕ → ℕ) (c : Progress)
    → c.xp_for_level ≡ table c.ap_level
    → (c.xp_for_level ≡ 0) ⊎ (c.ap_exp < c.xp_for_level)
    → Levels table c.locations c.ap_level c.ap_exp c
unfolding xp_of_levels
Levels-stop table c h s = record {
  gained = 0;
  reached = omega arith;
  spent = omega arith;
  required = h;
  stopped = s;
  checked = λ i id lt e. absurd (omega (arith, lt));
}

Levels-more :
    (table : ℕ → ℕ) (c d : Progress)
    → c.ap_level < 255
    → c.xp_for_level ≡ table c.ap_level
    → c.xp_for_level ≤ c.ap_exp
    → Grows (level_up table c) d
    → Levels table
        (level_up table c).locations
        (level_up table c).ap_level
        (level_up table c).ap_exp
        d
    → Levels table c.locations c.ap_level c.ap_exp d
unfolding xp_of_levels
Levels-more table c d small h enough g r =
    let up = level_up-level table c small in
    record {
      gained = suc r.gained;
      reached = omega (arith, r.reached, up.0);
      spent =
          let rest : d.ap_exp + xp_of_levels table (suc c.ap_level) r.gained
              ≡ c.ap_exp - c.xp_for_level =
            ap (λ l. d.ap_exp + xp_of_levels table l r.gained) (sym up.0) ∙ r.spent ∙ up.1 in
          omega (arith, rest, h, enough);
      required = r.required;
      stopped = r.stopped;
      checked = all_checked up.0 up.2;
    }
  where
    all_checked :
        (level_up table c).ap_level ≡ suc c.ap_level
        → (level_up table c).locations ≡ c.locations
        → (i : ℕ) (id : ℤ) → i < suc r.gained
        → get_location_id (c.ap_level + suc i) c.locations.levels ≡ some id
        → contains id d.checked_locations ≡ true
    all_checked level places zero id lt e =
        let next : suc c.ap_level ≡ c.ap_level + 1 = omega arith in
        let here =
          level_up-checked table c id small
            (ap (λ l. get_location_id l c.locations.levels) next ∙ e) in
        ground (arith, g.checked id, here)
    all_checked level places (suc i) id lt e =
        let next : (level_up table c).ap_level + suc i ≡ c.ap_level + suc (suc i) =
          omega (arith, level) in
        r.checked i id (omega arith) (
          ap (λ p. get_location_id ((level_up table c).ap_level + suc i) p.levels) places
          ∙ ap (λ l. get_location_id l c.locations.levels) next
          ∙ e)

level_ups-Levels :
    (table : ℕ → ℕ) (cap fuel : ℕ) (c : Progress)
    → ((l : ℕ) → cap ≤ l → table l ≡ 0)
    → cap ≤ 255
    → c.ap_level ≤ cap
    → c.xp_for_level ≡ table c.ap_level
    → cap - c.ap_level ≤ fuel
    → Levels table c.locations c.ap_level c.ap_exp (level_ups table fuel c)
unfolding level_ups
level_ups-Levels table cap zero c top small low h enough =
    Levels-stop table c h (inl (h ∙ top c.ap_level (omega arith)))
level_ups-Levels table cap (suc fuel) c top small low h enough =
    elim (Bool-cases (ltb 0 c.xp_for_level && leb c.xp_for_level c.ap_exp)) [
      | inl e ↦
          let below : c.ap_level < cap = ground (arith, top c.ap_level, e, h) in
          let pays : c.xp_for_level ≤ c.ap_exp = ground (arith, e) in
          let up = level_up-level table c (omega (arith, below, small)) in
          rw e (
            Levels-more table c (level_ups table fuel (level_up table c))
              (omega (arith, below, small)) h pays (level_ups-Grows table fuel (level_up table c))
              (level_ups-Levels table cap fuel (level_up table c) top small
                (omega (arith, up.0, below)) (up.3 ∙ ap table (sym up.0))
                (omega (arith, up.0, enough))))
      | inr e ↦ rw e (Levels-stop table c h (ground (arith, e)))
    ]

give-from :
    (table : ℕ → ℕ) (cap xp : ℕ) (c : Progress)
    → ((l : ℕ) → cap ≤ l → table l ≡ 0)
    → cap ≤ 255
    → c.ap_level ≤ cap
    → c.xp_for_level ≡ table c.ap_level
    → c.ap_exp + xp < 2 ^ 32
    → Levels table c.locations c.ap_level
        (c.ap_exp + xp)
        (send_experience_bar (level_ups table 256 (record c { ap_exp = (c.ap_exp + xp) % 2 ^ 32 })))
unfolding send_experience_bar tell
give-from table cap xp c top small low h fits =
    let d : Progress = record c { ap_exp = (c.ap_exp + xp) % 2 ^ 32 } in
    let r = level_ups-Levels table cap 256 d top small low h (omega arith) in
    record {
      gained = r.gained;
      reached = r.reached;
      spent = omega (arith, r.spent, fits);
      required = r.required;
      stopped = r.stopped;
      checked = r.checked;
    }

-- Where the server's table asks nothing from some level on, at most 255, and the character is not beyond it,
-- experience that a uint32 can add to what the character has is never lost: what the levels that it
-- makes take and what is left over add up to what there was and what was given. The loop ends below
-- the next requirement or where there is none, and the location of each level on the way is checked.
pub give-Levels :
    (table : ℕ → ℕ) (cap xp : ℕ) (c : Progress)
    → ((l : ℕ) → cap ≤ l → table l ≡ 0)
    → cap ≤ 255
    → c.ap_level ≤ cap
    → c.xp_for_level ≡ table c.ap_level
    → c.ap_exp + xp < 2 ^ 32
    → Levels table c.locations c.ap_level (c.ap_exp + xp) (give_archipelago_experience table xp c)
unfolding give_archipelago_experience
give-Levels table cap xp c top small low h fits = elim (Bool-cases (ltb 0 xp)) [
  | inl e ↦
      rw e (unfold tell in give-from table cap xp (tell (log_xp_gain xp) c) top small low h fits)
  | inr e ↦ rw e (give-from table cap xp c top small low h fits)
]
