-- ===== src/Character/Progress.antt =====
-- What a character has done, in AP_Character.cpp: the locations that it checked, its experience and its
-- goal, in memory, in the database and towards the server.
pub mod Experience
pub mod CatchUp
pub mod Kept
pub mod Actions
pub mod Trainer
pub mod Levels
use mod_i_found_your_sword.Prelude.{
  ℕ, suc, ◌+◌, ◌-◌, ◌*◌, ◌/◌, ◌%◌, ◌^◌, min, max, ℤ, Bool, true, false, not, ◌&&◌, ◌||◌, List, [],
  ◌∷◌, ◌++◌, Option, none, some, if◌then◌else◌, ◌==◌, ltb, leb, ℕ-eq, ℤ-eq, contains, add,
}
use mod_i_found_your_sword.Locations.{LocationsContainer, get_location_id}

-- What is told to the rest of the program.
pub data Told : Type 0 where
  location_checks : List ℤ → Told  -- `ap->LocationChecks`
  status_update : Told  -- of the goal
  log_xp_gain : ℕ → Told
  experience_bar : ℕ → ℕ → Told
  pet_xp : ℕ → Told

pub record Progress : Type 0 where
  pub locations : LocationsContainer
  pub has_client : Bool
  pub checked_locations : List ℤ
  pub rows : List ℤ  -- of the checked locations, in the database
  pub ap_level : ℕ
  pub ap_exp : ℕ
  pub xp_for_level : ℕ
  pub max_level : ℕ
  pub goal_completed : Bool
  pub goal_achievement_id : ℕ
  pub saved : ℕ × ℕ × Bool  -- level, experience and goal, in the database
  pub told : List Told

unfoldable pub tell : Told → Progress → Progress
tell t c = record c { told = c.told ++ t ∷ [] }

-- `CheckLocation`.
unfoldable pub check_location : ℤ → Progress → Progress
unfolding tell
check_location id c =
    record (tell (location_checks (id ∷ []))
      (record c { checked_locations = add id c.checked_locations })) { rows = add id c.rows }

-- The loop of `CheckLocations`.
unfoldable pub check_each : List ℤ → Progress → Progress
check_each [] c = c
check_each (id ∷ ids) c =
    check_each ids
      (record c { checked_locations = add id c.checked_locations; rows = add id c.rows })

-- `CheckLocations`.
unfoldable pub check_locations : List ℤ → Progress → Progress
unfolding tell check_each
check_locations [] c = c
check_locations (id ∷ ids) c = check_each (id ∷ ids) (tell (location_checks (id ∷ ids)) c)

unfoldable pub check_if : Option ℤ → Progress → Progress
unfolding check_location
check_if none c = c
check_if (some id) c = check_location id c

unfoldable pub check_unless_checked : Option ℤ → Progress → Progress
unfolding check_location
check_unless_checked none c = c
check_unless_checked (some id) c =
    if contains id c.checked_locations then c else check_location id c

-- `SaveToDatabase`, of what this part keeps.
unfoldable pub save_to_database : Progress → Progress
save_to_database c = record c { saved = (c.ap_level, c.ap_exp, c.goal_completed) }

unfoldable pub complete_goal : Progress → Progress
unfolding save_to_database tell
complete_goal c =
    let c' = save_to_database (record c { goal_completed = true }) in
    if c.has_client then tell status_update c' else c'

-- The hooks that check a location.
unfoldable pub on_player_achievement_complete : ℕ → Progress → Progress
unfolding check_if complete_goal get_location_id
on_player_achievement_complete achievement c =
    let c' = check_if (get_location_id achievement c.locations.achievements) c in
    if achievement == c'.goal_achievement_id then complete_goal c' else c'

unfoldable pub on_player_criteria_progress : ℕ → Progress → Progress
unfolding check_if get_location_id
on_player_criteria_progress criteria c =
    check_if (get_location_id criteria c.locations.explorations) c

unfoldable pub on_player_complete_quest : ℕ → Progress → Progress
unfolding check_if get_location_id
on_player_complete_quest quest c = check_if (get_location_id quest c.locations.quests) c

unfoldable pub on_player_learn_taxi_node : ℕ → Progress → Progress
unfolding check_if get_location_id
on_player_learn_taxi_node node c = check_if (get_location_id node c.locations.flight_paths) c

-- By whether the emote is a greeting of a creature, and its entry.
unfoldable pub on_player_text_emote : Bool → ℕ → Progress → Progress
unfolding check_unless_checked get_location_id
on_player_text_emote greets entry c =
    if greets then check_unless_checked (get_location_id entry c.locations.leaders) c else c

unfoldable pub on_dungeon_encounter_credited : ℕ → Progress → Progress
unfolding check_unless_checked get_location_id
on_dungeon_encounter_credited encounter c =
    check_unless_checked (get_location_id encounter c.locations.bosses) c

-- `SyncLocationChecks`: the rows, if there are any, are read back and sent again.
unfoldable pub add_rows : List ℤ → Progress → Progress
add_rows [] c = c
add_rows (id ∷ ids) c = add_rows ids (record c { checked_locations = add id c.checked_locations })

unfoldable pub send_rows : List ℤ → Progress → Progress
unfolding tell add_rows
send_rows [] c = c
send_rows (id ∷ ids) c = tell (location_checks (id ∷ ids)) (add_rows (id ∷ ids) c)

unfoldable pub sync_location_checks : Progress → Progress
unfolding tell send_rows
sync_location_checks c =
    let c' = send_rows c.rows c in
    if not c.has_client then c else if c.goal_completed then tell status_update c' else c'
