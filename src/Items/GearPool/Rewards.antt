-- ===== src/Items/GearPool/Rewards.antt =====
-- What `Build` and `LoadQuestRewardLevels` of items/AP_GearPool.cpp leave in the pool.
use mathlib.Core.List.{Memᴰ}
use mod_i_found_your_sword.Prelude.{
  ℕ, zero, suc, ◌+◌, ◌≤◌, min, ◌≡◌, refl, sym, ap, subst, ◌∙◌, inl, inr, Bool, true, false, not,
  ◌&&◌, ◌||◌, List, [], ◌∷◌, Option, none, some, if◌then◌else◌, arith, ◌==◌, lookup, lookup-insert,
  contains, ℕ-eq, Bool-cases, Option-cases,
}
use mod_i_found_your_sword.Items.Gear.{
  GearCategory, Quality, ItemTemplate, Player, SkillTraining, Quest,
}
use mod_i_found_your_sword.Items.GearPool.{ArmorSkills, quality_index, category_of}
use mod_i_found_your_sword.Items.GearPool.Build.{
  Levels, add_reward, add_rewards, load_quests, load_quest_reward_levels, reward_level, level_of,
  place_of, same_category, build, buckets, levels_from,
}
use mod_i_found_your_sword.Items.GearPool.Roll.{Choose, Pool, bucket_at, roll}
use mod_i_found_your_sword.Items.GearPool.Slots.{IsFair}
use mod_i_found_your_sword.Items.GearPool.Rolling.{Fitting, roll-found}

-- What every item of a bucket is: of its category, quality and level, which is between 2 and the cap;
-- obtainable; and free of every requirement but that level.
pub record Belongs (max_level : ℕ) (obtainable : List ℕ) (levels : Levels) (category : GearCategory)
    (quality level : ℕ) (i : ItemTemplate) : Type 0 where
  pub of_category : category_of i ≡ some category
  pub of_quality : quality_index i.quality ≡ some quality
  pub of_level : level_of levels i ≡ level
  pub low : 2 ≤ level
  pub high : level ≤ max_level
  pub is_obtainable : contains i.item_id obtainable ≡ true
  pub no_skill : i.required_skill ≡ 0
  pub no_spell : i.required_spell ≡ 0
  pub no_reputation : i.required_reputation_faction ≡ 0
  pub no_honor : i.required_honor_rank ≡ 0

module _ (max_level : ℕ) (obtainable : List ℕ) (levels : Levels) where
  place_of-Belongs :
      (i : ItemTemplate) (category : GearCategory) (quality level : ℕ)
      → place_of max_level obtainable levels i ≡ some (category, quality, level)
      → Belongs max_level obtainable levels category quality level i
  unfolding place_of
  place_of-Belongs i category quality level h = ground arith

  -- Whatever templates the server has, an item of a bucket is one of them and belongs there.
  pub build-Belongs :
      (items : List ItemTemplate) (category : GearCategory) (quality level : ℕ) (i : ItemTemplate)
      → Memᴰ i (build max_level obtainable levels items category quality level)
      → Memᴰ i items × Belongs max_level obtainable levels category quality level i
  unfolding build
  build-Belongs [] category quality level i m = elim m [ ]
  build-Belongs (item ∷ items) category quality level i m =
      go (build-Belongs items category quality level i) (place_of max_level obtainable levels item)
        refl m
    where
      rest : List ItemTemplate
      rest = build max_level obtainable levels items category quality level

      Goal : Type 0
      Goal = Memᴰ i (item ∷ items) × Belongs max_level obtainable levels category quality level i

      same_category_lem : (a b : GearCategory) → same_category a b ≡ true → a ≡ b
      same_category_lem a b h = ground arith

      here :
          (p : GearCategory × ℕ × ℕ)
          → place_of max_level obtainable levels item ≡ some p
          → same_category p.0 category && p.1 == quality && p.2 == level ≡ true
          → i ≡ item
          → Goal
      here (c, q, l) e h at =
          let same : (c ≡ category) × (q ≡ quality) × (l ≡ level) =
            (same_category_lem c category (ground arith), ground arith, ground arith) in
          (
            Memᴰ.head at,
            subst (Belongs max_level obtainable levels category quality level) (sym at)
                (place_of-Belongs item category quality level (ground arith)),
          )

      go :
          (Memᴰ i rest
            → Memᴰ i items × Belongs max_level obtainable levels category quality level i)
          → (place : Option (GearCategory × ℕ × ℕ))
          → place_of max_level obtainable levels item ≡ place
          → Memᴰ i (elim place [
            | none ↦ rest
            | some p ↦
                if same_category p.0 category && p.1 == quality && p.2 == level
                then item ∷ rest
                else rest
          ])
          → Goal
      go below none e m = let (m', b) = below m in (Memᴰ.tail m', b)
      go below (some p) e m =
          pick (same_category p.0 category && p.1 == quality && p.2 == level) refl m
        where
          pick :
              (b : Bool)
              → same_category p.0 category && p.1 == quality && p.2 == level ≡ b
              → Memᴰ i (if b then item ∷ rest else rest)
              → Goal
          pick true h (Memᴰ.head at) = here p e h at
          pick true h (Memᴰ.tail m) = let (m', b) = below m in (Memᴰ.tail m', b)
          pick false h m = let (m', b) = below m in (Memᴰ.tail m', b)

place_of-no_sources :
    (max_level : ℕ) (levels : Levels) (i : ItemTemplate) → place_of max_level [] levels i ≡ none
unfolding contains
place_of-no_sources max_level levels i = elim (Option-cases (place_of max_level [] levels i)) [
  | inl e ↦ e
  | inr (p, e) ↦
      let b = place_of-Belongs max_level [] levels i p.0 p.1 p.2 e in
      absurd (ground (arith, b.is_obtainable))
]

pub build-no_sources :
    (max_level : ℕ) (levels : Levels) (items : List ItemTemplate) (category : GearCategory)
    (quality level : ℕ)
    → build max_level [] levels items category quality level ≡ []
unfolding build
build-no_sources max_level levels [] category quality level = refl
build-no_sources max_level levels (i ∷ items) category quality level =
    rw (build, place_of-no_sources max_level levels i)
      (build-no_sources max_level levels items category quality level)

-- Whether a quest hands out an item; an id of 0 stands for an unused slot.
unfoldable pub gives : ℕ → Quest → Bool
gives j quest =
    not (j == 0) && (contains j quest.reward_items || contains j quest.reward_choice_items)

-- The levels of the quests that hand out an item.
unfoldable pub levels_giving : ℕ → List Quest → List ℕ
unfolding gives
levels_giving j [] = []
levels_giving j (quest ∷ quests) = elim (reward_level quest) [
  | none ↦ levels_giving j quests
  | some level ↦ if gives j quest then level ∷ levels_giving j quests else levels_giving j quests
]

unfoldable pub earlier : Option ℕ → ℕ → ℕ
earlier none level = level
earlier (some old) level = min old level

unfoldable pub least_from : Option ℕ → List ℕ → Option ℕ
unfolding earlier
least_from o [] = o
least_from o (level ∷ levels) = least_from (some (earlier o level)) levels

abbrev pub least : List ℕ → Option ℕ
least levels = least_from none levels

add_reward_lem :
    (level item j : ℕ) (levels : Levels)
    → lookup j (add_reward level item levels) ≡ (
        if not (j == 0) && item == j
        then some (earlier (lookup j levels) level)
        else lookup j levels)
unfolding add_reward earlier
add_reward_lem level item j levels = elim (Option-cases (lookup item levels)) [
  | inl e ↦ ground (arith, lookup-insert item j level levels)
  | inr (old, e) ↦ ground (arith, lookup-insert item j (min old level) levels)
]

add_rewards_lem :
    (level : ℕ) (items : List ℕ) (j : ℕ) (levels : Levels)
    → lookup j (add_rewards level items levels) ≡ (
        if not (j == 0) && contains j items
        then some (earlier (lookup j levels) level)
        else lookup j levels)
unfolding add_rewards contains earlier
add_rewards_lem level [] j levels = ground arith
add_rewards_lem level (item ∷ items) j levels = ground (
  arith,
  add_rewards_lem level items j (add_reward level item levels),
  add_reward_lem level item j levels,
)

quest_lem :
    (level : ℕ) (quest : Quest) (j : ℕ) (levels : Levels)
    → lookup j
        (add_rewards level quest.reward_choice_items (add_rewards level quest.reward_items levels))
      ≡ (if gives j quest then some (earlier (lookup j levels) level) else lookup j levels)
unfolding gives earlier
quest_lem level quest j levels =
    let first = add_rewards level quest.reward_items levels in
    ground (
      arith,
      add_rewards_lem level quest.reward_choice_items j first,
      add_rewards_lem level quest.reward_items j levels,
    )

load_quests_lem :
    (quests : List Quest) (j : ℕ) (levels : Levels)
    → lookup j (load_quests quests levels) ≡ least_from (lookup j levels) (levels_giving j quests)
unfolding load_quests levels_giving least_from
load_quests_lem [] j levels = refl
load_quests_lem (quest ∷ quests) j levels = elim (Option-cases (reward_level quest)) [
  | inl e ↦ rw (load_quests, levels_giving, e) (load_quests_lem quests j levels)
  | inr (level, e) ↦
      let all =
        add_rewards level quest.reward_choice_items (add_rewards level quest.reward_items levels) in
      elim (Bool-cases (gives j quest)) [
        | inl g ↦
            rw (load_quests, levels_giving, e, g)
              (load_quests_lem quests j all
                ∙ ap (λ o. least_from o (levels_giving j quests))
                    (quest_lem level quest j levels ∙ rw g refl))
        | inr g ↦
            rw (load_quests, levels_giving, e, g)
              (load_quests_lem quests j all
                ∙ ap (λ o. least_from o (levels_giving j quests))
                    (quest_lem level quest j levels ∙ rw g refl))
      ]
]

-- An item counts from the earliest of the quests that hand it out, and has no quest level if none
-- does.
pub load_quest_reward_levels-least :
    (quests : List Quest) (j : ℕ)
    → lookup j (load_quest_reward_levels quests) ≡ least (levels_giving j quests)
unfolding load_quest_reward_levels lookup
load_quest_reward_levels-least quests j = load_quests_lem quests j []

bucket_at-levels_from :
    (f : ℕ → List ItemTemplate) (n level k : ℕ) (i : ItemTemplate)
    → Memᴰ i (bucket_at (levels_from f n level) k)
    → Memᴰ i (f (level + k))
unfolding levels_from bucket_at
bucket_at-levels_from f zero level k i m = elim m [ ]
bucket_at-levels_from f (suc n) level zero i m = subst (λ l. Memᴰ i (f l)) (omega arith) m
bucket_at-levels_from f (suc n) level (suc k) i m =
    subst (λ l. Memᴰ i (f l)) (omega arith) (bucket_at-levels_from f n (suc level) k i m)

bucket_at-levels :
    (f : ℕ → List ItemTemplate) (n k : ℕ) (i : ItemTemplate)
    → Memᴰ i (bucket_at (levels_from f n 0) k)
    → Memᴰ i (f k)
bucket_at-levels f n k i m =
    subst (λ l. Memᴰ i (f l)) (omega arith) (bucket_at-levels_from f n 0 k i m)

-- From the pool that `Build` makes, if anything fits the player, a roll gives a template of the server
-- that belongs to the category and quality asked for.
pub roll-Belongs :
    (choose : Choose) (skills : ArmorSkills) (trainings : List SkillTraining) (max_level : ℕ)
    (obtainable : List ℕ) (levels : Levels) (items : List ItemTemplate) (category : GearCategory)
    (quality : Quality) (index : ℕ) (player : Player) (window : ℕ) (all_armor held : Bool)
    (goal : ℕ) (j : ItemTemplate)
    → IsFair choose
    → quality_index quality ≡ some index
    → let pool : Pool = record {
      buckets = buckets max_level obtainable levels items;
      skill_trainings = trainings;
      max_level = max_level;
      armor_skills = skills;
    } in
      Fitting choose pool category quality player window all_armor held goal index 1 max_level j
      → (i : ItemTemplate) × Memᴰ i items
        × ((level : ℕ) × Belongs max_level obtainable levels category index level i)
        × (roll choose pool category quality (some player) window all_armor held goal
            ≡ some i.item_id)
unfolding buckets
roll-Belongs choose skills trainings max_level obtainable levels items category quality index player
      window all_armor held goal j fair q w =
    let pool : Pool = record {
      buckets = buckets max_level obtainable levels items;
      skill_trainings = trainings;
      max_level = max_level;
      armor_skills = skills;
    } in
    let (i, (l, from, to, m, f), e) =
      roll-found choose pool category quality player window all_armor held goal index j fair q w in
    let (m', b) = build-Belongs max_level obtainable levels items category index l i (
      bucket_at-levels (build max_level obtainable levels items category index) (suc max_level) l i
        m) in
    (i, m', (l, b), e)
