-- ===== src/Items/GearPool/Sources.antt =====
-- `LoadObtainableItems` of items/AP_GearPool.cpp, and what the pool is without it.
use mod_i_found_your_sword.Prelude.{
  ℕ, zero, suc, ◌+◌, ◌-◌, min, max, ◌||◌, ◌≡◌, refl, ap, inl, inr, Bool, List, [], ◌∷◌, Option,
  none, some, Option-cases, contains, add, contains-add, arith, ℕ-eq,
}
use mod_i_found_your_sword.Items.Gear.{GearCategory, Quality, ItemTemplate, Player, SkillTraining}
use mod_i_found_your_sword.Items.GearPool.{ArmorSkills, quality_index}
use mod_i_found_your_sword.Items.GearPool.Build.{
  insert_rows, load_obtainable_items, build, buckets, levels_from,
}
use mod_i_found_your_sword.Items.GearPool.Roll.{
  Choose, Pool, bucket_at, fitting, collect, window_matches, widen, climb, candidates, pick,
  pick_slot, group_slots, pick_match, fits_player, ceiling_of, roll,
}
use mod_i_found_your_sword.Items.GearPool.Rewards.{build-no_sources}

insert_rows-contains :
    (ids obtainable : List ℕ) (j : ℕ)
    → contains j (insert_rows ids obtainable) ≡ (contains j ids || contains j obtainable)
unfolding insert_rows contains
insert_rows-contains [] obtainable j = refl
insert_rows-contains (id ∷ ids) obtainable j =
    ground (arith, insert_rows-contains ids (add id obtainable) j, contains-add id j obtainable)

bucket_at-empty :
    (f : ℕ → List ItemTemplate)
    → ((level : ℕ) → f level ≡ [])
    → (n level k : ℕ) → bucket_at (levels_from f n level) k ≡ []
unfolding levels_from bucket_at
bucket_at-empty f h zero level k = refl
bucket_at-empty f h (suc n) level zero = h level
bucket_at-empty f h (suc n) level (suc k) = bucket_at-empty f h n (suc level) k

module _ (fits : ItemTemplate → ℕ → Bool) (levels : List (List ItemTemplate))
    (empty : (level : ℕ) → bucket_at levels level ≡ []) where
  fitting-empty : (level : ℕ) → fitting fits level (bucket_at levels level) ≡ []
  unfolding fitting
  fitting-empty level = ap (fitting fits level) (empty level)

  collect-empty : (n level : ℕ) → collect fits levels n level ≡ []
  unfolding collect
  collect-empty zero level = refl
  collect-empty (suc n) level = ground (arith, fitting-empty level, collect-empty n (suc level))

  widen-empty :
      (ceiling fuel low high : ℕ) (items : List ItemTemplate)
      → widen fits levels ceiling fuel low high ≡ some items
      → items ≡ []
  unfolding widen window_matches
  widen-empty ceiling zero low high items e = ground (arith, e)
  widen-empty ceiling (suc fuel) low high items e = ground (
    arith,
    e,
    widen-empty ceiling fuel (low - 3) (high + 3) items,
    collect-empty (suc (min high ceiling) - max low 1) (max low 1),
  )

  climb-empty : (n level : ℕ) → climb fits levels n level ≡ []
  unfolding climb
  climb-empty zero level = refl
  climb-empty (suc n) level = ground (arith, fitting-empty level, climb-empty n (suc level))

  candidates-empty :
      (max_level ceiling level window : ℕ)
      → candidates fits levels max_level ceiling level window ≡ []
  unfolding candidates
  candidates-empty max_level ceiling level window =
      let at = min level ceiling in
      elim (Option-cases (widen fits levels ceiling (suc ceiling) (at - window) (at + window))) [
        | inl e ↦ ground (arith, e)
        | inr (items, e) ↦ ground (
          arith,
          e,
          widen-empty ceiling (suc ceiling) (at - window) (at + window) items e,
          climb-empty (max_level - ceiling) (suc ceiling),
        )
      ]

pick_match-empty :
    (choose : Choose) (category : GearCategory) → pick_match choose category [] ≡ none
unfolding pick_match pick pick_slot group_slots
pick_match-empty choose category = ground arith

-- What `LoadObtainableItems` gives is the ids of the rows that the query returned. When the query could
-- not be run it gives the empty set, and then no roll of the pool that `Build` makes with it hands out
-- anything, whatever templates the server has, for no player, category, quality, window or goal.
pub roll-no_sources :
    (choose : Choose) (skills : ArmorSkills) (trainings : List SkillTraining) (max_level : ℕ)
    (levels : List (ℕ × ℕ)) (items : List ItemTemplate) (category : GearCategory)
    (quality : Quality) (player : Option Player) (window : ℕ) (all_armor held : Bool) (goal : ℕ)
    (ids : List ℕ) (j : ℕ)
    → let pool : Pool = record {
      buckets = buckets max_level (load_obtainable_items none) levels items;
      skill_trainings = trainings;
      max_level = max_level;
      armor_skills = skills;
    } in
      (contains j (load_obtainable_items (some ids)) ≡ contains j ids)
      × (roll choose pool category quality player window all_armor held goal ≡ none)
unfolding load_obtainable_items roll buckets contains
roll-no_sources choose skills trainings max_level levels items category quality none window
      all_armor held goal ids j =
    (ground (arith, insert_rows-contains ids [] j), refl)
roll-no_sources choose skills trainings max_level levels items category quality (some p) window
      all_armor held goal ids j =
    let pool : Pool = record {
      buckets = buckets max_level (load_obtainable_items none) levels items;
      skill_trainings = trainings;
      max_level = max_level;
      armor_skills = skills;
    } in
    let levels' = buckets max_level [] levels items category in
    let empty : (index level : ℕ) → bucket_at (levels' index) level ≡ [] = λ index level.
      bucket_at-empty (build max_level [] levels items category index)
        (build-no_sources max_level levels items category index) (suc max_level) 0 level in
    let nothing : roll choose pool category quality (some p) window all_armor held goal ≡ none =
      elim (Option-cases (quality_index quality)) [
        | inl e ↦ ground (arith, e)
        | inr (index, e) ↦ ground (
          arith,
          e,
          candidates-empty (fits_player pool p window all_armor held goal) (levels' index)
              (empty index) max_level (ceiling_of max_level goal) p.level window,
          pick_match-empty choose category,
        )
      ] in
    (ground (arith, insert_rows-contains ids [] j), nothing)
