-- ===== src/Items/GearPool/Examples.antt =====
-- Tests of items/AP_GearPool.cpp, on a server with three templates and a level cap of 12.
use mathlib.Core.List.{Memᴰ}
use mod_i_found_your_sword.Prelude.{
  ℕ, pos, ◌≡◌, refl, inl, inr, true, false, List, [], ◌∷◌, some, none, arith, ◌==◌, codes, lookup,
  contains, ℕ-eq,
}
use mod_i_found_your_sword.Items.Gear.{
  jewelry, uncommon, armor_class, misc_armor, mail, finger, ItemTemplate, Player, alliance,
  SkillTraining, Quest,
}
use mod_i_found_your_sword.Items.GearPool.{
  ArmorSkills, is_usable_by, is_trained, is_nonzero, any_bit, training_level, matches_armor_mask,
  all_armor_tiers, allowed_armor_mask, tiers_of, quality_index, category_of,
}
use mod_i_found_your_sword.Items.GearPool.Roll.{
  Choose, Pool, bucket_at, ceiling_of, fits_player, roll,
}
use mod_i_found_your_sword.Items.GearPool.Build.{
  load_obtainable_items, build, buckets, levels_from, place_of, level_of, load_quest_reward_levels,
  is_dead_title, lower, to_lower, has_part, starts_with, reward_level,
}
use mod_i_found_your_sword.Items.GearPool.Slots.{IsFair}
use mod_i_found_your_sword.Items.GearPool.Rolling.{Fitting, roll-found, roll-under_goal}
use mod_i_found_your_sword.Items.GearPool.Proficiency.{IsWearable, allowed_armor_mask-some}
use mod_i_found_your_sword.Items.GearPool.Sources.{roll-no_sources}
use mod_i_found_your_sword.Items.GearPool.Rewards.{
  Belongs, roll-Belongs, load_quest_reward_levels-least, levels_giving, gives, least_from, earlier,
}

abbrev first : Choose
first = record { select = λ x xs. x; select_weighted = λ weight x xs. x }

first-IsFair : IsFair first
first-IsFair = record {
  select-Memᴰ = λ x xs. Memᴰ.head refl;
  select_weighted-Memᴰ = λ weight x xs. Memᴰ.head refl;
}

abbrev ring : ℕ → ℕ → ItemTemplate
ring id level = record {
  item_id = id;
  class = armor_class misc_armor;
  quality = uncommon;
  inventory_type = finger;
  required_level = level;
  required_skill = 0;
  required_spell = 0;
  required_reputation_faction = 0;
  required_honor_rank = 0;
  allowable_class = λ i. true;
  allowable_race = λ i. true;
  faction_horde = false;
  faction_alliance = false;
  skill = 0;
}

abbrev templates : List ItemTemplate
templates = ring 1 4 ∷ ring 2 10 ∷ ring 3 0 ∷ []

abbrev warrior : Player
warrior = record {
  level = 6;
  class_mask = λ i. i == 0;
  race_mask = λ i. i == 0;
  team = alliance;
  equips_relic = λ c. false;
  may_learn = λ s. true;
}

-- Plate is trained at level 10.
abbrev trainings : List SkillTraining
trainings = record { skill_id = 4; races = λ i. false; classes = λ i. i == 0; min_level = 10 } ∷ []

abbrev skills : ArmorSkills
skills = record { skill_cloth = 1; skill_leather = 2; skill_mail = 3; skill_plate_mail = 4 }

abbrev pool : Pool
pool = record {
  buckets = buckets 12 (1 ∷ 2 ∷ []) [] templates;
  skill_trainings = trainings;
  max_level = 12;
  armor_skills = skills;
}

ring_fits : Fitting first pool jewelry uncommon warrior 2 false true 0 0 1 12 (ring 1 4)
unfolding fits_player is_usable_by is_trained is_nonzero any_bit matches_armor_mask all_armor_tiers
    bucket_at buckets levels_from build place_of level_of quality_index category_of contains
ring_fits = (4, omega arith, omega arith, Memᴰ.head refl, refl)

roll-found_example :
    (i : ItemTemplate) × Fitting first pool jewelry uncommon warrior 2 false true 0 0 1 12 i
    × (roll first pool jewelry uncommon (some warrior) 2 false true 0 ≡ some i.item_id)
unfolding quality_index
roll-found_example =
    roll-found first pool jewelry uncommon warrior 2 false true 0 0 (ring 1 4) first-IsFair refl
      ring_fits

roll-under_goal_example :
    (i : ItemTemplate) × Fitting first pool jewelry uncommon warrior 2 false true 0 0 1
      (ceiling_of 12 0)
      i
    × (roll first pool jewelry uncommon (some warrior) 2 false true 0 ≡ some i.item_id)
unfolding quality_index ceiling_of
roll-under_goal_example =
    roll-under_goal first pool jewelry uncommon warrior 2 false true 0 0 (ring 1 4) first-IsFair
      refl ring_fits

roll-Belongs_example :
    (i : ItemTemplate) × Memᴰ i templates
    × ((level : ℕ) × Belongs 12 (1 ∷ 2 ∷ []) [] jewelry 0 level i)
    × (roll first pool jewelry uncommon (some warrior) 2 false true 0 ≡ some i.item_id)
unfolding quality_index
roll-Belongs_example =
    roll-Belongs first skills trainings 12 (1 ∷ 2 ∷ []) [] templates jewelry uncommon 0 warrior 2
      false true 0 (ring 1 4) first-IsFair refl ring_fits

abbrev unread : Pool
unread = record {
  buckets = buckets 12 (load_obtainable_items none) [] templates;
  skill_trainings = trainings;
  max_level = 12;
  armor_skills = skills;
}

roll-no_sources_example :
    (contains {A = ℕ} 2 (load_obtainable_items (some (1 ∷ 2 ∷ [])))
      ≡ contains {A = ℕ} 2 (1 ∷ 2 ∷ []))
    × (roll first unread jewelry uncommon (some warrior) 2 false true 0 ≡ none)
roll-no_sources_example =
    roll-no_sources first skills trainings 12 [] templates jewelry uncommon (some warrior) 2 false
      true 0 (1 ∷ 2 ∷ []) 2

mail-IsWearable : IsWearable skills trainings warrior 2 12 mail
unfolding tiers_of training_level is_nonzero any_bit
mail-IsWearable = inr (inl (refl, refl, omega arith, omega arith))

allowed_armor_mask-some_example :
    (k : _) × (allowed_armor_mask skills trainings warrior 2 12 k ≡ true)
allowed_armor_mask-some_example =
    allowed_armor_mask-some skills trainings warrior 2 12 mail mail-IsWearable

abbrev quest : ℕ → List ℕ → Quest
quest level text = record {
  quest_level = pos level;
  min_level = 1;
  title = text;
  is_disabled = false;
  reward_items = 3 ∷ 0 ∷ [];
  reward_choice_items = [];
}

abbrev quests : List Quest
quests = quest 12 (codes "A Late Quest") ∷ quest 5 (codes "<OLD>") ∷ quest 9 (codes "Wolves") ∷ []

load_quest_reward_levels-least_example : lookup 3 (load_quest_reward_levels quests) ≡ some 5
unfolding levels_giving gives least_from earlier reward_level is_dead_title lower to_lower has_part
    starts_with contains
load_quest_reward_levels-least_example = load_quest_reward_levels-least quests 3
