-- ===== src/Character/Progress/Experience.antt =====
-- The experience of AP_Character.cpp, which stands in for the character's own.
use mod_i_found_your_sword.Prelude.{
  ℕ, zero, suc, ◌+◌, ◌-◌, ◌*◌, ◌/◌, ◌%◌, ◌^◌, min, max, Bool, not, ◌&&◌, ◌||◌, if◌then◌else◌, ltb,
  leb, ℕ-eq,
}
use mod_i_found_your_sword.Locations.{get_location_id}
use mod_i_found_your_sword.Character.Progress.{
  Progress, log_xp_gain, experience_bar, pet_xp, tell, check_if,
}

-- `LoadXPForLevel`, from the server's table.
unfoldable pub load_xp_for_level : (ℕ → ℕ) → Progress → Progress
load_xp_for_level table c = record c { xp_for_level = table c.ap_level }

-- `SendExperienceBar`.
unfoldable pub send_experience_bar : Progress → Progress
unfolding tell
send_experience_bar c =
    let capped = ltb 0 c.max_level && leb c.max_level c.ap_level in
    tell (experience_bar (if capped then c.xp_for_level else c.ap_exp) c.xp_for_level) c

unfoldable pub init_experience : (ℕ → ℕ) → Progress → Progress
unfolding load_xp_for_level send_experience_bar
init_experience table c = send_experience_bar (load_xp_for_level table c)

-- A round of the loop of `GiveArchipelagoExperience`. The level is a uint8.
unfoldable pub level_up : (ℕ → ℕ) → Progress → Progress
unfolding check_if load_xp_for_level get_location_id
level_up table c =
    let level = (c.ap_level + 1) % 2 ^ 8 in
    let c' : Progress = record c { ap_level = level; ap_exp = c.ap_exp - c.xp_for_level } in
    load_xp_for_level table (check_if (get_location_id level c'.locations.levels) c')

-- The loop. A uint8 has 256 values, so that so much fuel is enough where the table is 0 at one of them.
unfoldable pub level_ups : (ℕ → ℕ) → ℕ → Progress → Progress
unfolding level_up
level_ups table zero c = c
level_ups table (suc fuel) c =
    let rest = level_ups table fuel (level_up table c) in
    if ltb 0 c.xp_for_level && leb c.xp_for_level c.ap_exp then rest else c

unfoldable pub give_archipelago_experience : (ℕ → ℕ) → ℕ → Progress → Progress
unfolding level_ups tell send_experience_bar
give_archipelago_experience table xp c =
    let c' = if ltb 0 xp then tell (log_xp_gain xp) c else c in
    send_experience_bar (level_ups table 256 (record c' { ap_exp = (c'.ap_exp + xp) % 2 ^ 32 }))

-- The bonus of the experience track, clamped to a uint32.
unfoldable pub boosted : ℕ → ℕ → ℕ
boosted bonus xp = if ltb 0 bonus then min (xp * (100 + bonus) / 100) (2 ^ 32 - 1) else xp

-- `GivePetXP`.
unfoldable pub give_pet_xp : Bool → Bool → Bool → ℕ → Progress → Progress
unfolding tell
give_pet_xp is_kill has_pet in_group xp c =
    if not is_kill || not has_pet then c else tell (pet_xp (if in_group then xp / 2 else xp)) c

-- `OnPlayerGiveXP`, by the bonus of the experience track, with the experience left to the core.
unfoldable pub on_player_give_xp : (ℕ → ℕ) → ℕ → Bool → Bool → Bool → ℕ → Progress → Progress × ℕ
unfolding give_pet_xp boosted give_archipelago_experience
on_player_give_xp table bonus is_kill has_pet in_group xp c =
    let c' = give_pet_xp is_kill has_pet in_group xp c in
    if leb c'.max_level c'.ap_level
    then (c', 0)
    else (give_archipelago_experience table (boosted bonus xp) c', 0)

-- The use of a Tome of Insight: `OnPlayerSpellCast`.
abbrev pub tome_of_insight_level_divisor : ℕ
tome_of_insight_level_divisor = 4

unfoldable pub use_tome_of_insight : (ℕ → ℕ) → Progress → Progress
unfolding give_archipelago_experience
use_tome_of_insight table c =
    if ltb c.ap_level c.max_level
    then give_archipelago_experience table (max (c.xp_for_level / tome_of_insight_level_divisor) 1)
        c
    else c
