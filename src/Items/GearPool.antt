-- ===== src/Items/GearPool.antt =====
-- `GearPool` of items/AP_GearPool.cpp: which gear a character is offered, and the roll of a reward.
-- The random choices are those of the server's containers (`Choose`).
pub mod Roll
pub mod Build
pub mod Proficiency
pub mod Found
pub mod Widening
pub mod Slots
pub mod Rolling
pub mod Rewards
pub mod Sources
mod Examples
use mod_i_found_your_sword.Prelude.{
  ℕ, zero, suc, ◌+◌, ◌-◌, ◌*◌, min, Bool, true, false, not, ◌&&◌, ◌||◌, List, [], ◌∷◌, ◌++◌, Option,
  none, some, if◌then◌else◌, ltb, leb, ◌==◌, length, get_elem?,
}
use mod_i_found_your_sword.Items.Gear.{
  GearCategory, Quality, uncommon, rare, other_quality, ItemClass, weapon_class, armor_class,
  other_class, ArmorKind, misc_armor, cloth, leather, mail, plate, buckler, shield, libram, idol,
  totem, sigil, other_armor, WeaponKind, obsolete_weapon, exotic, exotic2, misc_weapon, spear,
  fishing_pole, other_weapon, InventoryType, neck, finger, trinket, cloak, holdable, robe, chest,
  other_inventory, Team, horde, alliance, neutral, RelicClass, paladin, druid, shaman, death_knight,
  Mask, ItemTemplate, Player, SkillTraining,
}

-- Whether any of the `n` lowest bits is set.
unfoldable pub any_bit : ℕ → Mask → Bool
any_bit zero m = false
any_bit (suc n) m = let rest = any_bit n m in m n || rest

unfoldable pub is_nonzero : Mask → Bool
unfolding any_bit
is_nonzero m = any_bit 32 m

infixl 60 ◌&&&◌
abbrev pub ◌&&&◌ : Mask → Mask → Mask
a &&& b = λ i. a i && b i

unfoldable pub quality_index : Quality → Option ℕ
quality_index uncommon = some 0
quality_index rare = some 1
quality_index (other_quality _) = none

unfoldable pub category_of : ItemTemplate → Option GearCategory
category_of item = elim item.class [
  | weapon_class kind ↦ elim kind [ other_weapon _ ↦ some GearCategory.weapon | _ ↦ none ]
  | other_class ↦ none
  | armor_class kind ↦ elim kind [
    | cloth ↦ some GearCategory.armor
    | leather ↦ some GearCategory.armor
    | mail ↦ some GearCategory.armor
    | plate ↦ some GearCategory.armor
    | buckler ↦ some GearCategory.weapon
    | shield ↦ some GearCategory.weapon
    | libram ↦ some GearCategory.jewelry
    | idol ↦ some GearCategory.jewelry
    | totem ↦ some GearCategory.jewelry
    | sigil ↦ some GearCategory.jewelry
    | other_armor _ ↦ none
    | misc_armor ↦ elim item.inventory_type [
      | neck ↦ some GearCategory.jewelry
      | finger ↦ some GearCategory.jewelry
      | trinket ↦ some GearCategory.jewelry
      | cloak ↦ some GearCategory.armor
      | holdable ↦ some GearCategory.weapon
      | _ ↦ none
    ]
  ]
]

-- The first row that covers the skill, the race and the class.
unfoldable pub training_level : List SkillTraining → ℕ → Player → ℕ
unfolding is_nonzero
training_level [] skill player = 0
training_level (t ∷ ts) skill player =
    let rest = training_level ts skill player in
    if not (t.skill_id == skill)
    then rest
    else if is_nonzero t.races && not (is_nonzero (t.races &&& player.race_mask))
    then rest
    else if is_nonzero t.classes && not (is_nonzero (t.classes &&& player.class_mask))
    then rest
    else t.min_level

abbrev is_horde : Team → Bool
is_horde horde = true
is_horde _ = false

abbrev is_alliance : Team → Bool
is_alliance alliance = true
is_alliance _ = false

-- The end of `IsUsableBy`, for what is no relic.
unfoldable pub is_trained : List SkillTraining → ItemTemplate → ℕ → Player → Bool
unfolding training_level
is_trained ts item level player =
    if item.skill == 0
    then true
    else if not (player.may_learn item.skill)
    then false
    else leb (training_level ts item.skill player) level

unfoldable pub is_usable_by : List SkillTraining → ItemTemplate → ℕ → Player → Bool
unfolding is_nonzero is_trained
is_usable_by ts item level player =
    if not (is_nonzero (item.allowable_class &&& player.class_mask))
      || not (is_nonzero (item.allowable_race &&& player.race_mask))
    then false
    else if item.faction_horde && not (is_horde player.team)
    then false
    else if item.faction_alliance && not (is_alliance player.team)
    then false
    else elim item.class [
      | armor_class kind ↦ elim kind [
        | libram ↦ player.equips_relic paladin
        | idol ↦ player.equips_relic druid
        | totem ↦ player.equips_relic shaman
        | sigil ↦ player.equips_relic death_knight
        | _ ↦ is_trained ts item level player
      ]
      | _ ↦ is_trained ts item level player
    ]

-- A word with a bit per armor type, `1u << SubClass`.
abbrev pub ArmorMask : Type 0
ArmorMask = ArmorKind → Bool

unfoldable pub all_armor_tiers : ArmorMask
all_armor_tiers cloth = true
all_armor_tiers leather = true
all_armor_tiers mail = true
all_armor_tiers plate = true
all_armor_tiers _ = false

unfoldable pub matches_armor_mask : ItemTemplate → ArmorMask → Bool
unfolding all_armor_tiers
matches_armor_mask item allowed = elim item.class [
  | armor_class kind ↦ elim item.inventory_type [
    | cloak ↦ true
    | _ ↦ if not (all_armor_tiers kind) then true else allowed kind
  ]
  | _ ↦ true
]

-- What `1u << tier.subClass` adds to a mask: one of the four tiers.
unfoldable pub add_tier : ArmorKind → ArmorMask → ArmorMask
add_tier cloth m = λ k. elim k [ cloth ↦ true | other ↦ m other ]
add_tier leather m = λ k. elim k [ leather ↦ true | other ↦ m other ]
add_tier mail m = λ k. elim k [ mail ↦ true | other ↦ m other ]
add_tier plate m = λ k. elim k [ plate ↦ true | other ↦ m other ]
add_tier _ m = m

-- A tier with what the loop reads of it: whether the class may learn its skill, and from which level.
abbrev pub Tier : Type 0
Tier = ArmorKind × Bool × ℕ

-- Whether a type is a step of its own; `kept` is the training of the last type that was kept.
unfoldable pub is_step : ℕ → Option ℕ → Bool → ℕ → Bool
is_step ceiling kept learns training =
    if not learns
    then false
    else if leb ceiling training
    then false
    else not (elim kept [ some last ↦ leb last training | none ↦ false ])

-- The loop of `AllowedArmorMask`.
unfoldable pub add_tiers : ℕ → ℕ → ℕ → List Tier → Option ℕ → ArmorMask → ArmorMask
unfolding add_tier is_step
add_tiers level window ceiling [] kept mask = mask
add_tiers level window ceiling ((kind, learns, training) ∷ tiers) kept mask =
    let skip = add_tiers level window ceiling tiers kept mask in
    let mask' = if leb training (level + window) then add_tier kind mask else mask in
    let rest = add_tiers level window ceiling tiers (some training) mask' in
    if is_step ceiling kept learns training
    then (if ltb (training + window) level then mask' else rest)
    else skip

-- `skills` are the server's ids of the proficiencies.
pub record ArmorSkills : Type 0 where
  pub skill_cloth : ℕ
  pub skill_leather : ℕ
  pub skill_mail : ℕ
  pub skill_plate_mail : ℕ

-- `ARMOR_TIERS`, strongest first.
unfoldable pub tiers_of : ArmorSkills → List SkillTraining → Player → List Tier
unfolding training_level
tiers_of skills ts player =
    let tier = λ (k : ArmorKind) (s : ℕ).
      (let t : Tier = (k, player.may_learn s, training_level ts s player) in t) in
    tier plate skills.skill_plate_mail
    ∷ tier mail skills.skill_mail
    ∷ tier leather skills.skill_leather
    ∷ tier cloth skills.skill_cloth
    ∷ []

unfoldable pub allowed_armor_mask : ArmorSkills → List SkillTraining → Player → ℕ → ℕ → ArmorMask
unfolding add_tiers tiers_of
allowed_armor_mask skills ts player window ceiling =
    add_tiers player.level window ceiling (tiers_of skills ts player) none (λ k. false)
