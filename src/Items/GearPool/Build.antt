-- ===== src/Items/GearPool/Build.antt =====
-- `GearPool::Build` of items/AP_GearPool.cpp, and the quest levels that it reads.
use mod_i_found_your_sword.Prelude.{
  ℕ, zero, suc, ◌+◌, ◌-◌, ◌%◌, ◌^◌, min, max, pos, negsuc, Bool, true, false, not, ◌&&◌, ◌||◌, List,
  [], ◌∷◌, Option, none, some, if◌then◌else◌, ltb, leb, ◌==◌, codes, lookup, insert, contains, add,
  ℕ-eq, bytes-eq,
}
use mod_i_found_your_sword.Items.Gear.{GearCategory, weapon, armor, jewelry, ItemTemplate, Quest}
use mod_i_found_your_sword.Items.GearPool.{quality_index, category_of}

-- `std::tolower` of an ASCII byte.
unfoldable pub to_lower : ℕ → ℕ
to_lower c = if leb b'A' c && leb c b'Z' then c + 32 else c

unfoldable pub lower : List ℕ → List ℕ
unfolding to_lower
lower [] = []
lower (c ∷ text) = to_lower c ∷ lower text

unfoldable pub starts_with : List ℕ → List ℕ → Bool
starts_with [] text = true
starts_with (p ∷ prefix) [] = false
starts_with (p ∷ prefix) (c ∷ text) = let rest = starts_with prefix text in p == c && rest

-- `text.find(part) != npos`.
unfoldable pub has_part : List ℕ → List ℕ → Bool
unfolding starts_with
has_part part [] = starts_with part []
has_part part (c ∷ text) = let rest = has_part part text in starts_with part (c ∷ text) || rest

unfoldable pub is_dead_title : List ℕ → Bool
unfolding lower has_part starts_with
is_dead_title title =
    let t = lower title in
    has_part (codes "<") t
    || has_part (codes "[") t
    || has_part (codes "deprecated") t
    || has_part (codes "unused") t
    || starts_with (codes "temp ") t

-- The level that a quest turns orange at, or `none` for a quest that says nothing. The difference
-- stops at 0, where the source's is negative: the minimum level is never below that.
unfoldable pub reward_level : Quest → Option ℕ
unfolding is_dead_title
reward_level quest = elim quest.quest_level [
  | negsuc _ ↦ none
  | pos level ↦
      if leb level 0 || quest.is_disabled
      then none
      else if is_dead_title quest.title
      then none
      else some (max (level - 4) quest.min_level % 2 ^ 8)
]

abbrev pub Levels : Type 0
Levels = List (ℕ × ℕ)

unfoldable pub add_reward : ℕ → ℕ → Levels → Levels
add_reward level item levels = if item == 0 then levels else elim (lookup item levels) [
  | some old ↦ insert item (min old level) levels
  | none ↦ insert item level levels
]

unfoldable pub add_rewards : ℕ → List ℕ → Levels → Levels
unfolding add_reward
add_rewards level [] levels = levels
add_rewards level (item ∷ items) levels = add_rewards level items (add_reward level item levels)

unfoldable pub load_quests : List Quest → Levels → Levels
unfolding reward_level add_rewards
load_quests [] levels = levels
load_quests (quest ∷ quests) levels = elim (reward_level quest) [
  | none ↦ load_quests quests levels
  | some level ↦
      load_quests quests
        (add_rewards level quest.reward_choice_items (add_rewards level quest.reward_items levels))
]

unfoldable pub load_quest_reward_levels : List Quest → Levels
unfolding load_quests
load_quest_reward_levels quests = load_quests quests []

-- The set of the ids in the rows of the query.
unfoldable pub insert_rows : List ℕ → List ℕ → List ℕ
insert_rows [] obtainable = obtainable
insert_rows (id ∷ ids) obtainable = insert_rows ids (add id obtainable)

-- `LoadObtainableItems`, by the rows of the query, or `none` for a query that could not be run.
unfoldable pub load_obtainable_items : Option (List ℕ) → List ℕ
unfolding insert_rows
load_obtainable_items none = []
load_obtainable_items (some ids) = insert_rows ids []

-- The level of an item: its own, or its quest's if it asks for none.
unfoldable pub level_of : Levels → ItemTemplate → ℕ
level_of levels item =
    if leb item.required_level 1
    then elim (lookup item.item_id levels) [ some level ↦ level | none ↦ item.required_level ]
    else item.required_level

-- The bucket that an item goes to: category, quality and level.
unfoldable pub place_of : ℕ → List ℕ → Levels → ItemTemplate → Option (GearCategory × ℕ × ℕ)
unfolding level_of quality_index category_of
place_of max_level obtainable levels item = elim (quality_index item.quality) [
  | none ↦ none
  | some quality ↦
      let level = level_of levels item in
      if leb level 1 || ltb max_level level
      then none
      else if not (item.required_skill == 0)
          || not (item.required_spell == 0)
          || not (item.required_reputation_faction == 0)
          || not (item.required_honor_rank == 0)
      then none
      else elim (category_of item) [
        | none ↦ none
        | some category ↦
            if not (contains item.item_id obtainable) then none else some (category, quality, level)
      ]
]

abbrev pub same_category : GearCategory → GearCategory → Bool
same_category weapon weapon = true
same_category armor armor = true
same_category jewelry jewelry = true
same_category _ _ = false

-- The bucket of a category, quality and level after `Build` has gone over the templates, in order.
unfoldable pub build :
    ℕ → List ℕ → Levels → List ItemTemplate → GearCategory → ℕ → ℕ → List ItemTemplate
unfolding place_of
build max_level obtainable levels [] category quality level = []
build max_level obtainable levels (item ∷ items) category quality level =
    let rest = build max_level obtainable levels items category quality level in
    elim (place_of max_level obtainable levels item) [
      | none ↦ rest
      | some place ↦
          if same_category place.0 category && place.1 == quality && place.2 == level
          then item ∷ rest
          else rest
    ]

-- `n` levels, from `level` on.
unfoldable pub levels_from : (ℕ → List ItemTemplate) → ℕ → ℕ → List (List ItemTemplate)
levels_from f zero level = []
levels_from f (suc n) level = f level ∷ levels_from f n (suc level)

-- `buckets[category][quality]`: a bucket for each level from 0 to the cap.
unfoldable pub buckets :
    ℕ → List ℕ → Levels → List ItemTemplate → GearCategory → ℕ → List (List ItemTemplate)
unfolding levels_from build
buckets max_level obtainable levels items category quality =
    levels_from (build max_level obtainable levels items category quality) (suc max_level) 0
