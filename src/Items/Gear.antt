-- ===== src/Items/Gear.antt =====
-- The gear of items/AP_Gear.h and what items/AP_GearPool.cpp reads of the game server: an
-- `ItemTemplate`, a `Player` and a `Quest`. The server's constants are constructors, since the code
-- only compares them; a value that it does not name is an `other`.
use mod_i_found_your_sword.Prelude.{ℕ, ℤ, Bool, List}

pub data GearCategory : Type 0 where
  weapon armor jewelry : GearCategory

pub data Quality : Type 0 where
  uncommon rare : Quality
  other_quality : ℕ → Quality

pub data WeaponKind : Type 0 where
  obsolete_weapon exotic exotic2 misc_weapon spear fishing_pole : WeaponKind
  other_weapon : ℕ → WeaponKind

pub data ArmorKind : Type 0 where
  misc_armor cloth leather mail plate buckler shield libram idol totem sigil : ArmorKind
  other_armor : ℕ → ArmorKind

-- `Class` with its `SubClass`.
pub data ItemClass : Type 0 where
  weapon_class : WeaponKind → ItemClass
  armor_class : ArmorKind → ItemClass
  other_class : ItemClass

pub data InventoryType : Type 0 where
  neck finger trinket cloak holdable robe chest : InventoryType
  other_inventory : ℕ → InventoryType

pub data Team : Type 0 where
  horde alliance neutral : Team

pub data RelicClass : Type 0 where
  paladin druid shaman death_knight : RelicClass

-- A 32-bit word as its bits: the code only shifts, joins and intersects them.
abbrev pub Mask : Type 0
Mask = ℕ → Bool

pub record ItemTemplate : Type 0 where
  pub item_id : ℕ
  pub class : ItemClass
  pub quality : Quality
  pub inventory_type : InventoryType
  pub required_level : ℕ
  pub required_skill : ℕ
  pub required_spell : ℕ
  pub required_reputation_faction : ℕ
  pub required_honor_rank : ℕ
  pub allowable_class : Mask
  pub allowable_race : Mask
  pub faction_horde : Bool  -- `HasFlag2(ITEM_FLAG2_FACTION_HORDE)`
  pub faction_alliance : Bool
  pub skill : ℕ  -- `GetSkill()`

pub record Player : Type 0 where
  pub level : ℕ
  pub class_mask : Mask
  pub race_mask : Mask
  pub team : Team  -- `GetTeamId(true)`
  pub equips_relic : RelicClass → Bool  -- `IsClass(..., CLASS_CONTEXT_EQUIP_RELIC)`
  pub may_learn : ℕ → Bool  -- whether `GetSkillRaceClassInfo` has the skill for its race and class

pub record Quest : Type 0 where
  pub quest_level : ℤ
  pub min_level : ℕ
  pub title : List ℕ
  pub is_disabled : Bool
  pub reward_items : List ℕ
  pub reward_choice_items : List ℕ

-- One row of `skillTrainings`.
pub record SkillTraining : Type 0 where
  pub skill_id : ℕ
  pub races : Mask
  pub classes : Mask
  pub min_level : ℕ
