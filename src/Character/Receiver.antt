-- ===== src/Character/Receiver.antt =====
-- How AP_Character.cpp takes in the items of its slot: `RewardItem`, `APReceivedItemsHandler` and
-- what they call. `Receiver` is the part of `AP_Character` that they keep.
pub mod Granting
pub mod Heirlooms
pub mod Receiving
pub mod Quiet
pub mod Item
pub mod Packets
pub mod Events
pub mod Following
pub mod Replay
pub mod Weapons
use mod_i_found_your_sword.Prelude.{
  ℕ, ℤ, negsuc, pos, Bool, true, false, List, [], ◌∷◌, ◌++◌, Option,
}
use mod_i_found_your_sword.Items.Gear.{Team}
use mod_i_found_your_sword.Items.Mounts.{Race}
use mod_i_found_your_sword.Items.Tables.{ItemsContainer, ProgressiveType, GearItem, TrapType}

-- What a pass has the server do, in order.
pub data Effect : Type 0 where
  mail_item : ℕ → ℤ → ℤ → Effect  -- game item, multiworld item, sender
  mail_step : ℕ → ℤ → ℤ → Effect  -- of a food or drink track
  mail_weapon : ℕ → ℤ → Effect  -- of an heirloom weapon slot
  mail_gold : ℤ → Effect
  give_level : Effect
  apply_world_buff : Effect
  receive_trap : TrapType → Effect
  add_key : ℕ → Effect
  movement_speed_bonus : Effect
  remove_outgrown : ProgressiveType → Effect
  apply_pending_world_buffs : Effect
  refresh_dungeon_locks : Effect
  save_preferences : Effect
  save_to_database : Effect
  weapon_waits : Effect

-- What a pass reads of the server and of the rest of the character.
pub record World : Type 0 where
  pub has_template : ℕ → Bool  -- `GetItemTemplate`, and `CreateItem` succeeds
  pub is_glyph : ℕ → Bool
  pub roll_gear : GearItem → Option ℕ  -- `GearPool::Roll`
  pub prefers_caster_heirlooms : Bool
  pub has_key : ℕ → Bool  -- `HasItemCount(key, 1)`
  pub race : Race
  pub team : Team
  pub choose_mount : ℕ → List ℕ → ℕ  -- `SelectRandomContainerElement`
  pub learn_spell : ℕ → List ℕ → List ℕ  -- what they leave of the known spells
  pub remove_spell : ℕ → List ℕ → List ℕ

pub record Receiver : Type 0 where
  pub tables : ItemsContainer
  pub item_index : ℤ
  pub counted_item_index : ℤ
  pub items_synced : Bool
  pub unlocked_zones : List ℕ
  pub granted_spells : List ℕ
  pub spell_book : List ℕ  -- the player's
  pub received_glyphs : List ℕ
  pub progressive_counts : List (ProgressiveType × ℕ)
  pub heirloom_weapons : List ℕ
  pub heirloom_weapons_sent : ℕ
  pub heirloom_weapon_senders : List ℤ
  pub friend_teleport_unlocked : Bool
  pub saved_item_index : ℤ  -- in the database
  pub out : List Effect

unfoldable pub emit : Effect → Receiver → Receiver
emit e c = record c { out = c.out ++ e ∷ [] }

-- `MailItemReward`, by what sends the mail.
unfoldable pub mail : World → ℕ → Effect → Receiver → Receiver
unfolding emit
mail w item e c = elim (w.has_template item) [ true ↦ emit e c | false ↦ c ]
