-- ===== src/Items/GearPool/Roll.antt =====
-- `GearPool::Roll` of items/AP_GearPool.cpp.
use mod_i_found_your_sword.Prelude.{
  ℕ, zero, suc, ◌+◌, ◌-◌, ◌*◌, min, max, Bool, true, false, not, ◌&&◌, ◌||◌, List, [], ◌∷◌, ◌++◌,
  Option, none, some, if◌then◌else◌, ltb, leb, ◌==◌, length, get_elem?,
}
use mod_i_found_your_sword.Items.Gear.{
  GearCategory, weapon, Quality, InventoryType, neck, finger, trinket, cloak, holdable, robe, chest,
  other_inventory, ItemTemplate, Player, SkillTraining,
}
use mod_i_found_your_sword.Items.GearPool.{
  ArmorSkills, all_armor_tiers, matches_armor_mask, allowed_armor_mask, is_usable_by, quality_index,
}

-- The server's random choices from a container that is not empty: `SelectRandomContainerElement` and
-- `SelectRandomWeightedContainerElement`.
pub record Choose : Type 1 where
  pub select : {A : Type 0} → A → List A → A
  pub select_weighted : {A : Type 0} → (A → ℕ) → A → List A → A

pub record Pool : Type 0 where
  pub buckets : GearCategory → ℕ → List (List ItemTemplate)
  pub skill_trainings : List SkillTraining
  pub max_level : ℕ
  pub armor_skills : ArmorSkills

abbrev pub Levels : Type 0
Levels = List (List ItemTemplate)

abbrev pub Test : Type 0
Test = ItemTemplate → ℕ → Bool

-- `levels[level]`, read only up to `max_level`, where `Build` has made a bucket.
unfoldable pub bucket_at : Levels → ℕ → List ItemTemplate
bucket_at levels level = elim (get_elem? levels level) [ some items ↦ items | none ↦ [] ]

unfoldable pub fitting : Test → ℕ → List ItemTemplate → List ItemTemplate
fitting fits level [] = []
fitting fits level (item ∷ items) =
    let rest = fitting fits level items in if fits item level then item ∷ rest else rest

-- The matches of `n` levels from `level` on.
unfoldable pub collect : Test → Levels → ℕ → ℕ → List ItemTemplate
unfolding bucket_at fitting
collect fits levels zero level = []
collect fits levels (suc n) level =
    fitting fits level (bucket_at levels level) ++ collect fits levels n (suc level)

-- The matches between `low` and `high`. `low` stops at 0, where the source goes on below: it is only
-- ever compared with 1.
unfoldable pub window_matches : Test → Levels → ℕ → ℕ → ℕ → List ItemTemplate
unfolding collect
window_matches fits levels ceiling low high =
    let from = max low 1 in let to = min high ceiling in collect fits levels (suc to - from) from

-- The widening loop: `none` when the fuel runs out.
unfoldable pub widen : Test → Levels → ℕ → ℕ → ℕ → ℕ → Option (List ItemTemplate)
unfolding window_matches
widen fits levels ceiling zero low high = none
widen fits levels ceiling (suc fuel) low high =
    let matches = window_matches fits levels ceiling low high in
    let rest = widen fits levels ceiling fuel (low - 3) (high + 3) in
    if leb 5 (length matches) || (leb low 1 && leb ceiling high) then some matches else rest

-- The loop above the ceiling: `n` levels from `level` on, up to the first that holds a match.
unfoldable pub climb : Test → Levels → ℕ → ℕ → List ItemTemplate
unfolding fitting bucket_at
climb fits levels zero level = []
climb fits levels (suc n) level =
    let rest = climb fits levels n (suc level) in
    elim (fitting fits level (bucket_at levels level)) [ [] ↦ rest | item ∷ items ↦ item ∷ items ]

unfoldable pub candidates : Test → Levels → ℕ → ℕ → ℕ → ℕ → List ItemTemplate
unfolding widen climb
candidates fits levels max_level ceiling level window =
    let player_level = min level ceiling in
    elim (widen fits levels ceiling (suc ceiling) (player_level - window) (player_level + window)) [
      | none ↦ []
      | some [] ↦ climb fits levels (max_level - ceiling) (suc ceiling)
      | some (item ∷ items) ↦ item ∷ items
    ]

unfoldable pub slot_of : ItemTemplate → InventoryType
slot_of item = elim item.inventory_type [ robe ↦ chest | slot ↦ slot ]

unfoldable pub slot_weight : InventoryType → ℕ
slot_weight finger = 2
slot_weight trinket = 2
slot_weight _ = 1

unfoldable pub same_slot : InventoryType → InventoryType → Bool
same_slot neck neck = true
same_slot finger finger = true
same_slot trinket trinket = true
same_slot cloak cloak = true
same_slot holdable holdable = true
same_slot robe robe = true
same_slot chest chest = true
same_slot (other_inventory m) (other_inventory n) = m == n
same_slot _ _ = false

abbrev pub Slot : Type 0
Slot = InventoryType × List ItemTemplate

-- `slots[slot].push_back(item)`.
unfoldable pub add_to_slot : InventoryType → ItemTemplate → List Slot → List Slot
unfolding same_slot
add_to_slot slot item [] = (slot, item ∷ []) ∷ []
add_to_slot slot item ((s, items) ∷ slots) =
    let rest = add_to_slot slot item slots in
    if same_slot s slot then (s, items ++ item ∷ []) ∷ slots else (s, items) ∷ rest

unfoldable pub group_slots : List ItemTemplate → List Slot → List Slot
unfolding slot_of add_to_slot
group_slots [] slots = slots
group_slots (item ∷ items) slots = group_slots items (add_to_slot (slot_of item) item slots)

unfoldable pub pick : Choose → List ItemTemplate → Option ℕ
pick choose [] = none
pick choose (item ∷ items) = some (choose.select item items).item_id

unfoldable pub pick_slot : Choose → List Slot → Option ℕ
unfolding slot_weight pick
pick_slot choose [] = none
pick_slot choose (slot ∷ slots) =
    let chosen =
      choose.select_weighted (λ (s : Slot). slot_weight s.0 * min (length s.1) 5) slot slots in
    pick choose chosen.1

-- The end of `Roll`: a weapon is picked from all, anything else from the items of a slot.
unfoldable pub pick_match : Choose → GearCategory → List ItemTemplate → Option ℕ
unfolding pick pick_slot group_slots
pick_match choose category matches = elim category [
  | weapon ↦ pick choose matches
  | _ ↦ pick_slot choose (group_slots matches [])
]

abbrev is_holdable : InventoryType → Bool
is_holdable holdable = true
is_holdable _ = false

-- The level that the reward is capped at.
unfoldable pub ceiling_of : ℕ → ℕ → ℕ
ceiling_of max_level goal = if ltb 0 goal then min max_level goal else max_level

-- The test `fits`.
unfoldable pub fits_player : Pool → Player → ℕ → Bool → Bool → ℕ → Test
unfolding allowed_armor_mask is_usable_by matches_armor_mask ceiling_of all_armor_tiers
fits_player pool player window all_armor_types held_off_hands goal item level =
    let ceiling = ceiling_of pool.max_level goal in
    let mask =
      if all_armor_types
      then all_armor_tiers
      else allowed_armor_mask pool.armor_skills pool.skill_trainings player window ceiling in
    is_usable_by pool.skill_trainings item level player
    && matches_armor_mask item mask
    && (held_off_hands || not (is_holdable item.inventory_type))

-- `player` is `none` for a null pointer.
unfoldable pub roll :
    Choose → Pool → GearCategory → Quality → Option Player → ℕ → Bool → Bool → ℕ → Option ℕ
unfolding quality_index candidates fits_player pick_match ceiling_of
roll choose pool category quality player window all_armor_types held_off_hands goal = elim player [
  | none ↦ none
  | some p ↦ elim (quality_index quality) [
    | none ↦ none
    | some index ↦
        let levels = pool.buckets category index in
        let matches =
          candidates (fits_player pool p window all_armor_types held_off_hands goal) levels
            pool.max_level (ceiling_of pool.max_level goal) p.level window in
        if leb (length levels) 0 then none else pick_match choose category matches
  ]
]
