-- ===== src/Items/Tables.antt =====
-- The tables of this slot's items: AP_Items, AP_Gear, AP_Progressive, AP_Heirlooms, AP_Zones,
-- AP_Spells, AP_Traps and AP_WorldBuffs of items/. A table is the map from the ids that the
-- multiworld gives to what each stands for.
use mod_i_found_your_sword.Prelude.{
  ℕ, ◌-◌, min, ℤ, pos, ◌==ℤ◌, Bool, true, false, not, ◌&&◌, ◌||◌, List, [], ◌∷◌, Option, none, some,
  if◌then◌else◌, ◌==◌, ltb, leb, length, get_elem?, Eq, ◌≡◌, ◌↔◌, arith, ℕ-eq, ℤ-eq, lookup, insert,
  contains, add,
}
use mod_i_found_your_sword.Items.Gear.{GearCategory}

pub data ProgressiveType : Type 0 where
  movement_speed experience_rate food drink riding : ProgressiveType

-- `ProgressiveTypeFromValue`.
unfoldable pub progressive_type_from_value : ℕ → Option ProgressiveType
progressive_type_from_value value =
    if value == 1
    then some movement_speed
    else if value == 2
    then some experience_rate
    else if value == 3
    then some food
    else if value == 4
    then some drink
    else if value == 5
    then some riding
    else none

unfoldable pub gear_category_from_value : ℕ → Option GearCategory
gear_category_from_value value =
    if value == 1
    then some GearCategory.weapon
    else if value == 2
    then some GearCategory.armor
    else if value == 3
    then some GearCategory.jewelry
    else none

abbrev pub type_value : ProgressiveType → ℕ
type_value movement_speed = 1
type_value experience_rate = 2
type_value food = 3
type_value drink = 4
type_value riding = 5

abbrev pub same_type : ProgressiveType → ProgressiveType → Bool
same_type s t = type_value s == type_value t

pub same_type_iff : (s t : ProgressiveType) → (same_type s t ≡ true) ↔ (s ≡ t)
same_type_iff s t = ground arith

instance abbrev pub ProgressiveType-eq : Eq ProgressiveType
ProgressiveType-eq = record { test = same_type; test_iff = same_type_iff }

pub record ProgressiveItem : Type 0 where
  pub track : ProgressiveType  -- `type`
  pub steps : List ℕ

unfoldable pub value_at : ProgressiveItem → ℕ → ℕ
value_at item count =
    if count == 0 || leb (length item.steps) 0
    then 0
    else elim (get_elem? item.steps (min count (length item.steps) - 1)) [ some v ↦ v | none ↦ 0 ]

pub record GearItem : Type 0 where
  pub category : GearCategory
  pub quality : ℕ

pub record HeirloomPiece : Type 0 where
  pub ap_item_id : ℤ
  pub melee : ℕ
  pub caster : ℕ

pub record Heirlooms : Type 0 where
  pub shoulders : HeirloomPiece
  pub chest : HeirloomPiece
  pub trinket : HeirloomPiece
  pub weapon : ℤ
  pub weapon_slots : ℕ
  pub weapon_choices : List ℕ

unfoldable pub is_piece : ℤ → HeirloomPiece → Bool
is_piece id piece = not (piece.ap_item_id ==ℤ pos 0) && piece.ap_item_id ==ℤ id

unfoldable pub get_piece : Heirlooms → ℤ → Option HeirloomPiece
unfolding is_piece
get_piece h id =
    if is_piece id h.shoulders
    then some h.shoulders
    else if is_piece id h.chest
    then some h.chest
    else if is_piece id h.trinket
    then some h.trinket
    else none

pub record ZoneItem : Type 0 where
  pub zone_id : ℕ
  pub zone_map : ℕ
  pub keys : List ℕ

pub record SpellItem : Type 0 where
  pub item_id : ℤ
  pub spell_id : ℕ
  pub req_level : ℕ
  pub taught_spells : List ℕ

pub record Spells : Type 0 where
  pub by_item_id : List (ℤ × SpellItem)
  pub by_spell_id : List (ℕ × SpellItem)
  pub taught : List ℕ

unfoldable pub add_taught : List ℕ → List ℕ → List ℕ
add_taught [] taught = taught
add_taught (spell ∷ spells) taught = add_taught spells (add spell taught)

unfoldable pub add_spell_item : SpellItem → Spells → Spells
unfolding add_taught
add_spell_item item s = record {
  by_item_id = insert item.item_id item s.by_item_id;
  by_spell_id = insert item.spell_id item s.by_spell_id;
  taught = add_taught item.taught_spells s.taught;
}

unfoldable pub add_trainer_spell : ℕ → ℕ → Spells → Spells
add_trainer_spell spell level s =
    let item : SpellItem = record {
      item_id = pos 0;
      spell_id = spell;
      req_level = level;
      taught_spells = [];
    } in
    record s { by_spell_id = insert spell item s.by_spell_id }

unfoldable pub has_entry_of_its_own : Spells → ℕ → Bool
has_entry_of_its_own s spell = elim (lookup spell s.by_spell_id) [ some _ ↦ true | none ↦ false ]

unfoldable pub is_randomized : Spells → ℕ → Bool
unfolding has_entry_of_its_own
is_randomized s spell = has_entry_of_its_own s spell || contains spell s.taught

pub data TrapType : Type 0 where
  dazed shackle sheep poison teleport ambush disarm bombs : TrapType

abbrev pub trap_value : TrapType → ℕ
trap_value dazed = 1
trap_value shackle = 2
trap_value sheep = 3
trap_value poison = 4
trap_value teleport = 5
trap_value ambush = 6
trap_value disarm = 7
trap_value bombs = 8

unfoldable pub trap_type_from_value : ℕ → Option TrapType
trap_type_from_value value =
    if ltb value 1 || ltb 8 value
    then none
    else if value == 1
    then some dazed
    else if value == 2
    then some shackle
    else if value == 3
    then some sheep
    else if value == 4
    then some poison
    else if value == 5
    then some teleport
    else if value == 6
    then some ambush
    else if value == 7
    then some disarm
    else some bombs

pub record ItemsContainer : Type 0 where
  pub items : List (ℤ × ℕ)
  pub heirlooms : Heirlooms
  pub world_buffs : ℤ  -- `worldBuffs.apItemId`
  pub traps : List (ℤ × TrapType)
  pub gear : List (ℤ × GearItem)
  pub zones : List (ℤ × ZoneItem)
  pub zone_ids : List ℕ  -- `zones.zoneIds`
  pub spells : Spells
  pub progressive : List (ℤ × ProgressiveItem)
  pub progressive_by_type : List (ProgressiveType × ProgressiveItem)
  pub levels : ℤ
  pub friend_teleport : ℤ
  pub gold_pouch : ℤ

unfoldable pub add_item : ℤ → ℕ → ItemsContainer → ItemsContainer
add_item id wow c = record c { items = insert id wow c.items }

unfoldable pub add_gear : ℤ → GearCategory → ℕ → ItemsContainer → ItemsContainer
add_gear id category quality c =
    let item : GearItem = record { category = category; quality = quality } in
    record c { gear = insert id item c.gear }

unfoldable pub add_zone : ℤ → ZoneItem → ItemsContainer → ItemsContainer
add_zone id zone c = record c {
  zones = insert id zone c.zones;
  zone_ids = add zone.zone_id c.zone_ids;
}

unfoldable pub add_progressive : ℤ → ProgressiveItem → ItemsContainer → ItemsContainer
add_progressive id item c = record c {
  progressive = insert id item c.progressive;
  progressive_by_type = insert item.track item c.progressive_by_type;
}
