-- ===== src/Character/Progress/CatchUp.antt =====
-- `CatchUpMissedProgress` of AP_Character.cpp: what was done before the slot data told which feats are
-- locations.
use mod_i_found_your_sword.Prelude.{
  ℕ, ℤ, ◌≡◌, refl, Bool, false, not, ◌&&◌, ◌||◌, List, [], ◌∷◌, ◌++◌, Option, none, some,
  if◌then◌else◌, ℕ-eq, ℤ-eq, ==ℤ_iff, ◌==ℤ◌, contains, add, contains-add, arith,
}
use mod_i_found_your_sword.Locations.Skills.{up_to}
use mod_i_found_your_sword.Character.Progress.{
  Progress, location_checks, tell, check_each, check_locations, complete_goal,
  on_player_achievement_complete, on_player_criteria_progress, save_to_database,
}

-- What the server credits when it is asked to check the criteria of all achievements.
pub data Credit : Type 0 where
  credit_achievement : ℕ → Credit
  credit_criteria : ℕ → Credit

-- What the server credits, and what the loops then ask of it about the player.
pub record Feats : Type 0 where
  pub credits : List Credit
  pub has_achieved : ℕ → Bool
  pub referred_achievement : ℕ → Option ℕ  -- of a criteria, if the server has it
  pub has_progress : ℕ → Bool
  pub knows_node : ℕ → Bool
  pub quest_rewarded : ℕ → Bool
  pub skill_value : ℕ → ℕ

-- A loop over a table: the locations not checked yet whose feat is done.
unfoldable pub missed_of : (ℕ → Bool) → List ℤ → List (ℕ × ℤ) → List ℤ
missed_of done checked [] = []
missed_of done checked ((key, location) ∷ m) =
    let rest = missed_of done checked m in
    if not (contains location checked) && done key then location ∷ rest else rest

unfoldable pub explored : Feats → ℕ → Bool
explored f criteria = elim (f.referred_achievement criteria) [
  | none ↦ false
  | some achievement ↦ f.has_achieved achievement || f.has_progress criteria
]

unfoldable pub not_checked : List ℤ → List ℤ → List ℤ
not_checked checked [] = []
not_checked checked (l ∷ ls) =
    let rest = not_checked checked ls in if contains l checked then rest else l ∷ rest

unfoldable pub missed_skills : Feats → List ℤ → List (ℕ × List (ℕ × ℤ)) → List ℤ
unfolding not_checked up_to
missed_skills f checked [] = []
missed_skills f checked ((skill, values) ∷ m) =
    not_checked checked (up_to (f.skill_value skill) values) ++ missed_skills f checked m

unfoldable pub missed : Feats → Progress → List ℤ
unfolding missed_of explored missed_skills
missed f c =
    missed_of f.has_achieved c.checked_locations c.locations.achievements
    ++ (missed_of (explored f) c.checked_locations c.locations.explorations
        ++ (missed_of f.knows_node c.checked_locations c.locations.flight_paths
            ++ (missed_of f.quest_rewarded c.checked_locations c.locations.quests
                ++ missed_skills f c.checked_locations c.locations.skills)))

-- `CheckAllAchievementCriteria`, which calls the hooks.
unfoldable pub credit_all : List Credit → Progress → Progress
unfolding on_player_achievement_complete on_player_criteria_progress
credit_all [] c = c
credit_all (credit_achievement a ∷ more) c = credit_all more (on_player_achievement_complete a c)
credit_all (credit_criteria a ∷ more) c = credit_all more (on_player_criteria_progress a c)

unfoldable pub catch_up_missed_progress : Feats → Progress → Progress
unfolding credit_all missed check_locations complete_goal
catch_up_missed_progress f c =
    let c' = credit_all f.credits c in
    let c'' = check_locations (missed f c') c' in
    if not c''.goal_completed && f.has_achieved c''.goal_achievement_id
    then complete_goal c''
    else c''

pub contains-append :
    (l : ℤ) (xs ys : List ℤ) → contains l (xs ++ ys) ≡ (contains l xs || contains l ys)
unfolding contains
contains-append l [] ys = refl
contains-append l (x ∷ xs) ys = ground (arith, contains-append l xs ys)

pub check_each-contains :
    (ids : List ℤ) (c : Progress) (l : ℤ)
    → contains l (check_each ids c).checked_locations
      ≡ (contains l ids || contains l c.checked_locations)
unfolding check_each contains
check_each-contains [] c l = refl
check_each-contains (id ∷ ids) c l =
    let c' : Progress = record c {
      checked_locations = add id c.checked_locations;
      rows = add id c.rows;
    } in
    ground (arith, check_each-contains ids c' l, contains-add id l c.checked_locations)

pub check_locations-contains :
    (ids : List ℤ) (c : Progress) (l : ℤ)
    → contains l (check_locations ids c).checked_locations
      ≡ (contains l ids || contains l c.checked_locations)
unfolding check_locations tell
check_locations-contains [] c l = unfold contains in refl
check_locations-contains (id ∷ ids) c l =
    check_each-contains (id ∷ ids) (record c { told = c.told ++ location_checks (id ∷ ids) ∷ [] }) l

-- Whether some entry of a table has this location and its feat done.
abbrev pub is_due : (ℕ → Bool) → ℤ → List (ℕ × ℤ) → Bool
is_due done l [] = false
is_due done l ((key, location) ∷ m) = location ==ℤ l && done key || is_due done l m

missed_of-contains :
    (done : ℕ → Bool) (checked : List ℤ) (m : List (ℕ × ℤ)) (l : ℤ)
    → contains l (missed_of done checked m) ≡ (not (contains l checked) && is_due done l m)
unfolding missed_of contains
missed_of-contains done checked [] l = ground arith
missed_of-contains done checked ((key, location) ∷ m) l =
    ground (arith, missed_of-contains done checked m l, ==ℤ_iff location l)

-- Whether a skill of the table has reached a value of this location.
abbrev pub is_skilled : (ℕ → ℕ) → ℤ → List (ℕ × List (ℕ × ℤ)) → Bool
is_skilled value l [] = false
is_skilled value l ((skill, values) ∷ m) =
    contains l (up_to (value skill) values) || is_skilled value l m

pub not_checked-contains :
    (checked ls : List ℤ) (l : ℤ)
    → contains l (not_checked checked ls) ≡ (not (contains l checked) && contains l ls)
unfolding not_checked contains
not_checked-contains checked [] l = ground arith
not_checked-contains checked (x ∷ xs) l =
    ground (arith, not_checked-contains checked xs l, ==ℤ_iff x l)

missed_skills-contains :
    (f : Feats) (checked : List ℤ) (m : List (ℕ × List (ℕ × ℤ))) (l : ℤ)
    → contains l (missed_skills f checked m)
      ≡ (not (contains l checked) && is_skilled f.skill_value l m)
unfolding missed_skills
missed_skills-contains f checked [] l = unfold contains in ground arith
missed_skills-contains f checked ((skill, values) ∷ m) l =
    let here = up_to (f.skill_value skill) values in
    ground (
      arith,
      contains-append l (not_checked checked here) (missed_skills f checked m),
      not_checked-contains checked here l,
      missed_skills-contains f checked m l,
    )

-- Whether the feat of a location is done.
unfoldable pub is_done : Feats → Progress → ℤ → Bool
unfolding explored
is_done f c l =
    is_due f.has_achieved l c.locations.achievements
    || is_due (explored f) l c.locations.explorations
    || is_due f.knows_node l c.locations.flight_paths
    || is_due f.quest_rewarded l c.locations.quests
    || is_skilled f.skill_value l c.locations.skills

missed-contains :
    (f : Feats) (c : Progress) (l : ℤ)
    → contains l (missed f c) ≡ (not (contains l c.checked_locations) && is_done f c l)
unfolding missed is_done
missed-contains f c l =
    let checked = c.checked_locations in
    let quests = missed_of f.quest_rewarded checked c.locations.quests in
    let skills = missed_skills f checked c.locations.skills in
    let nodes = missed_of f.knows_node checked c.locations.flight_paths in
    let areas = missed_of (explored f) checked c.locations.explorations in
    let achieved = missed_of f.has_achieved checked c.locations.achievements in
    ground (
      arith,
      contains-append l achieved (areas ++ (nodes ++ (quests ++ skills))),
      contains-append l areas (nodes ++ (quests ++ skills)),
      contains-append l nodes (quests ++ skills),
      contains-append l quests skills,
      missed_of-contains f.has_achieved checked c.locations.achievements l,
      missed_of-contains (explored f) checked c.locations.explorations l,
      missed_of-contains f.knows_node checked c.locations.flight_paths l,
      missed_of-contains f.quest_rewarded checked c.locations.quests l,
      missed_skills-contains f checked c.locations.skills l,
    )

complete_goal-checked : (c : Progress) → (complete_goal c).checked_locations ≡ c.checked_locations
unfolding complete_goal save_to_database tell
complete_goal-checked c = ground arith

-- After the catching up, a location is among the checked ones exactly when it was checked before, or was
-- checked by what the server credited meanwhile, or its feat is done: its achievement, area, flight path,
-- quest or skill value.
pub catch_up-contains :
    (f : Feats) (c : Progress) (l : ℤ)
    → contains l (catch_up_missed_progress f c).checked_locations ≡ (
        contains l (credit_all f.credits c).checked_locations
        || is_done f (credit_all f.credits c) l)
unfolding catch_up_missed_progress
catch_up-contains f c l =
    let c' = credit_all f.credits c in
    let c'' = check_locations (missed f c') c' in
    ground (
      arith,
      complete_goal-checked c'',
      check_locations-contains (missed f c') c' l,
      missed-contains f c' l,
    )
