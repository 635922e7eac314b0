-- ===== src/Character/Examples.antt =====
-- A character of AP_Character.cpp with a few items and locations.
use mod_i_found_your_sword.Prelude.{
  ◌==◌, ◌-◌, ℕ, zero, suc, ◌+◌, ◌≤◌, ℤ, pos, ◌≡◌, refl, true, false, not, ◌&&◌, ◌||◌, List, [], ◌∷◌,
  none, if◌then◌else◌, arith, contains, ℤ-eq, leb,
}
use mod_i_found_your_sword.Network.Client.State.{NetworkItem}
use mod_i_found_your_sword.Items.Gear.{alliance}
use mod_i_found_your_sword.Items.Mounts.{human}
use mod_i_found_your_sword.Items.Tables.{
  ItemsContainer, HeirloomPiece, ProgressiveItem, ProgressiveType, food, sheep,
}
use mod_i_found_your_sword.Locations.{LocationsContainer}
use mod_i_found_your_sword.Character.Receiver.{World, Receiver}
use mod_i_found_your_sword.Character.Receiver.Heirlooms.{send_pending_heirloom_weapons}
use mod_i_found_your_sword.Character.Receiver.Receiving.{count_of}
use mod_i_found_your_sword.Character.Receiver.Quiet.{once_part}
use mod_i_found_your_sword.Character.Receiver.Packets.{
  slice, last_of, handed_by, copies_in, senders_in,
}
use mod_i_found_your_sword.Character.Receiver.Events.{
  Event, packet, login, choose_weapon, run_events, see, see_all,
}
use mod_i_found_your_sword.Character.Receiver.Replay.{
  new_receiver, nothing_seen, events-handed_once,
}
use mod_i_found_your_sword.Character.Receiver.Weapons.{SendsAll, send_pending-SendsAll}
use mod_i_found_your_sword.Character.Progress.{Progress}
use mod_i_found_your_sword.Character.Progress.Experience.{give_archipelago_experience}
use mod_i_found_your_sword.Character.Progress.CatchUp.{
  Feats, credit_achievement, credit_all, catch_up_missed_progress, is_done, catch_up-contains,
}
use mod_i_found_your_sword.Character.Progress.Actions.{
  complete_quest, train_spell, buy_location, read_tome, act_all, IsKept, act_all-IsKept,
}
use mod_i_found_your_sword.Character.Progress.Actions
use mod_i_found_your_sword.Character.Progress.Levels.{Levels, give-Levels}
use mod_i_found_your_sword.Prelude.{lookup, ℕ-eq}
use mod_i_found_your_sword.Locations.{get_location_id}
use mod_i_found_your_sword.Character.Progress.Trainer.{
  after_train_spell, on_player_update_skill, IsSold, after_train_spell-IsSold,
  on_player_update_skill-contains,
}
use mod_i_found_your_sword.Character.Tiers.{
  remove_outgrown_progressive_items, is_outgrown, remove_outgrown-held,
}

abbrev world : World
world = record {
  has_template = λ item. leb item 100;
  is_glyph = λ item. false;
  roll_gear = λ gear. none;
  prefers_caster_heirlooms = false;
  has_key = λ key. false;
  race = human;
  team = alliance;
  choose_mount = λ m ms. m;
  learn_spell = λ spell book. spell ∷ book;
  remove_spell = λ spell book. [];
}

abbrev no_piece : HeirloomPiece
no_piece = record { ap_item_id = pos 0; melee = 0; caster = 0 }

abbrev bread : ProgressiveItem
bread = record { track = food; steps = 11 ∷ 12 ∷ [] }

abbrev tables : ItemsContainer
tables = record {
  items = (pos 1, 7) ∷ [];
  heirlooms = record {
    shoulders = no_piece;
    chest = no_piece;
    trinket = no_piece;
    weapon = pos 2;
    weapon_slots = 2;
    weapon_choices = 41 ∷ 42 ∷ [];
  };
  world_buffs = pos 3;
  traps = (pos 4, sheep) ∷ [];
  gear = [];
  zones = [];
  zone_ids = [];
  spells = record { by_item_id = []; by_spell_id = []; taught = [] };
  progressive = (pos 5, bread) ∷ [];
  progressive_by_type = (food, bread) ∷ [];
  levels = pos 6;
  friend_teleport = pos 7;
  gold_pouch = pos 8;
}

-- The items of the list in turn: a game item, an heirloom weapon, food, and then levels.
abbrev item_ids : ℕ → ℤ
item_ids zero = pos 1
item_ids (suc zero) = pos 2
item_ids (suc (suc zero)) = pos 5
item_ids (suc (suc (suc n))) = pos 6

abbrev items : ℕ → NetworkItem
items n = record { item = item_ids n; location = pos 0; player = pos n; flags = 0; index = pos n }

abbrev events : List Event
events = packet 0 2 ∷ packet 2 1 ∷ login ∷ packet 0 4 ∷ choose_weapon 0 42 ∷ packet 0 4 ∷ []

events-handed_once_example :
    (once_part (run_events world items events (new_receiver tables [] (0 ∷ 0 ∷ []))).out
      ≡ handed_by world tables (slice items 0 (see_all events nothing_seen).ever))
    × ((run_events world items events (new_receiver tables [] (0 ∷ 0 ∷ []))).saved_item_index
        ≡ last_of (see_all events nothing_seen).ever)
    × ((track : ProgressiveType)
        → count_of track
            (run_events world items events (new_receiver tables [] (0 ∷ 0 ∷ []))).progressive_counts
          ≡ copies_in tables track (slice items 0 (see_all events nothing_seen).now))
    × ((run_events world items events (new_receiver tables [] (0 ∷ 0 ∷ []))).heirloom_weapon_senders
        ≡ senders_in tables (slice items 0 (see_all events nothing_seen).now))
unfolding see_all see
events-handed_once_example =
    events-handed_once world tables items [] (0 ∷ 0 ∷ []) events (omega arith)

abbrev armed : Receiver
armed = record {
  tables = tables;
  item_index = pos 1;
  counted_item_index = pos 1;
  items_synced = true;
  unlocked_zones = [];
  granted_spells = [];
  spell_book = [];
  received_glyphs = [];
  progressive_counts = [];
  heirloom_weapons = 42 ∷ 41 ∷ [];
  heirloom_weapons_sent = 0;
  heirloom_weapon_senders = pos 3 ∷ pos 5 ∷ [];
  friend_teleport_unlocked = false;
  saved_item_index = pos 1;
  out = [];
}

send_pending-SendsAll_example : SendsAll world armed (send_pending_heirloom_weapons world armed)
send_pending-SendsAll_example = send_pending-SendsAll world armed

abbrev places : LocationsContainer
places = record {
  achievements = (6, pos 100) ∷ [];
  bosses = [];
  explorations = [];
  flight_paths = (2, pos 101) ∷ [];
  leaders = [];
  levels = (2, pos 102) ∷ (3, pos 103) ∷ [];
  quests = (783, pos 104) ∷ [];
  shop = [];
  skills = (129, (75, pos 105) ∷ (150, pos 106) ∷ []) ∷ [];
  spells = (100, pos 107) ∷ [];
}

-- The first level takes 400, the second 900, and from the third on nothing is asked.
abbrev xp_table : ℕ → ℕ
xp_table l = if leb 3 l then 0 else if leb 2 l then 900 else 400

abbrev novice : Progress
novice = record {
  locations = places;
  has_client = true;
  checked_locations = [];
  rows = pos 101 ∷ [];
  ap_level = 1;
  ap_exp = 150;
  xp_for_level = 400;
  max_level = 3;
  goal_completed = false;
  goal_achievement_id = 9;
  saved = (1, 150, false);
  told = [];
}

act_all-IsKept_example :
    IsKept (
      act_all xp_table
        (complete_quest 783 ∷ train_spell 100 ∷ buy_location (pos 900) ∷ read_tome ∷ [])
        (Actions.log_in novice))
    × ((l : ℤ)
        → (contains l novice.rows
            && not (
                contains l
                  (act_all xp_table
                    (complete_quest 783 ∷ train_spell 100 ∷ buy_location (pos 900) ∷ read_tome ∷ [])
                    (Actions.log_in novice)).rows))
          ≡ false)
act_all-IsKept_example =
    act_all-IsKept xp_table
      (complete_quest 783 ∷ train_spell 100 ∷ buy_location (pos 900) ∷ read_tome ∷ []) novice

abbrev feats : Feats
feats = record {
  credits = credit_achievement 6 ∷ [];
  has_achieved = λ a. false;
  referred_achievement = λ a. none;
  has_progress = λ a. false;
  knows_node = λ n. true;
  quest_rewarded = λ q. false;
  skill_value = λ s. 80;
}

catch_up-contains_example :
    contains (pos 105) (catch_up_missed_progress feats novice).checked_locations ≡ (
      contains (pos 105) (credit_all (credit_achievement 6 ∷ []) novice).checked_locations
      || is_done feats (credit_all (credit_achievement 6 ∷ []) novice) (pos 105))
catch_up-contains_example = catch_up-contains feats novice (pos 105)

stops_asking : (l : ℕ) → 3 ≤ l → xp_table l ≡ 0
stops_asking l h = ground (arith, h)

give-Levels_example :
    Levels xp_table places 1 (150 + 2000) (give_archipelago_experience xp_table 2000 novice)
give-Levels_example =
    give-Levels xp_table 3 2000 novice stops_asking (omega arith) (omega arith) refl (omega arith)

abbrev apprentice : Progress
apprentice = record novice { locations = record places { spells = (133, pos 107) ∷ [] } }

after_train_spell-IsSold_example :
    IsSold
      (record { by_item_id = []; by_spell_id = []; taught = [] })
      4
      133
      (pos 107)
      (after_train_spell 133 apprentice).0
after_train_spell-IsSold_example =
    after_train_spell-IsSold (record { by_item_id = []; by_spell_id = []; taught = [] }) 4 133
      (pos 107) apprentice (unfold get_location_id in unfold lookup in refl)

on_player_update_skill-contains_example :
    (contains (pos 105) (on_player_update_skill 129 100 novice).checked_locations ≡ true)
    × ((contains (pos 101) novice.checked_locations
          && not (contains (pos 101) (on_player_update_skill 129 100 novice).checked_locations))
        ≡ false)
on_player_update_skill-contains_example =
    on_player_update_skill-contains 129 100 75 (pos 105) ((75, pos 105) ∷ (150, pos 106) ∷ [])
      novice (unfold lookup in refl) (omega arith) (unfold lookup in refl) (omega arith) (pos 101)

-- One of each tier.
abbrev larder : ℕ → ℕ
larder item = if item == 11 then 1 else if item == 12 then 1 else 0

remove_outgrown-held_example :
    remove_outgrown_progressive_items tables food larder 11
    ≡ (if is_outgrown larder 11 (11 ∷ 12 ∷ []) then larder 11 - 1 else larder 11)
remove_outgrown-held_example =
    remove_outgrown-held tables food bread larder 11 (unfold lookup in refl)
      (unfold contains in ground arith)
