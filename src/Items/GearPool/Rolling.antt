-- ===== src/Items/GearPool/Rolling.antt =====
-- What `GearPool::Roll` of items/AP_GearPool.cpp hands out.
use mathlib.Core.List.{Memᴰ}
use mod_i_found_your_sword.Prelude.{
  ℕ, suc, ◌≤◌, ◌≡◌, refl, ◌∙◌, Bool, false, List, [], ◌∷◌, Option, some, arith, length, leb,
}
use mod_i_found_your_sword.Items.Gear.{GearCategory, Quality, ItemTemplate, Player}
use mod_i_found_your_sword.Items.GearPool.{quality_index}
use mod_i_found_your_sword.Items.GearPool.Roll.{
  Choose, Pool, Levels, bucket_at, candidates, ceiling_of, fits_player, pick_match, roll,
}
use mod_i_found_your_sword.Items.GearPool.Found.{Found}
use mod_i_found_your_sword.Items.GearPool.Widening.{
  candidates_sound, candidates-under, candidates_complete,
}
use mod_i_found_your_sword.Items.GearPool.Slots.{IsFair, pick_match-IsIdOf}

ceiling_of-le : (max_level goal : ℕ) → ceiling_of max_level goal ≤ max_level
unfolding ceiling_of
ceiling_of-le max_level goal = ground arith

module _ (choose : Choose) (pool : Pool) (category : GearCategory) (quality : Quality)
    (player : Player) (window : ℕ) (all_armor_types held_off_hands : Bool) (goal : ℕ) where
  -- What the player may be given, between two levels.
  abbrev pub Fitting : ℕ → ℕ → ℕ → ItemTemplate → Type 0
  Fitting index low high item =
      Found (fits_player pool player window all_armor_types held_off_hands goal)
        (pool.buckets category index) low (suc high) item

  abbrev matches : ℕ → List ItemTemplate
  matches index =
      candidates (fits_player pool player window all_armor_types held_off_hands goal)
        (pool.buckets category index) pool.max_level (ceiling_of pool.max_level goal) player.level
        window

  abbrev pub rolled : Option ℕ
  rolled =
      roll choose pool category quality (some player) window all_armor_types held_off_hands goal

  not_empty :
      (levels : Levels) (l : ℕ) (i : ItemTemplate)
      → Memᴰ i (bucket_at levels l)
      → leb (length levels) 0 ≡ false
  unfolding bucket_at
  not_empty [] l i m = elim m [ ]
  not_empty (x ∷ levels) l i m = ground arith

  rolled_lem :
      (index : ℕ) (i : ItemTemplate)
      → quality_index quality ≡ some index
      → Fitting index 1 pool.max_level i
      → rolled ≡ pick_match choose category (matches index)
  unfolding roll
  rolled_lem index i q (l, from, to, m, f) =
      rw (roll, q, not_empty (pool.buckets category index) l i m) refl

  -- If anything of the category and quality fits the player at any level up to the server's cap, the
  -- roll gives the id of an item that does; the widening never ends in vain.
  pub roll-found :
      (index : ℕ) (j : ItemTemplate)
      → IsFair choose
      → quality_index quality ≡ some index
      → Fitting index 1 pool.max_level j
      → (i : ItemTemplate) × Fitting index 1 pool.max_level i × (rolled ≡ some i.item_id)
  roll-found index j fair q w =
      let c = ceiling_of-le pool.max_level goal in
      let (i, m, e) =
        pick_match-IsIdOf choose fair category (matches index)
          (candidates_complete _ _ pool.max_level _ player.level window j c w) in
      (
        i,
        candidates_sound _ _ pool.max_level _ player.level window i c m,
        rolled_lem index j q w ∙ e,
      )

  -- If anything fits under the run's own cap, what is given is under that cap too.
  pub roll-under_goal :
      (index : ℕ) (j : ItemTemplate)
      → IsFair choose
      → quality_index quality ≡ some index
      → Fitting index 1 (ceiling_of pool.max_level goal) j
      → (i : ItemTemplate) × Fitting index 1 (ceiling_of pool.max_level goal) i
        × (rolled ≡ some i.item_id)
  roll-under_goal index j fair q (l, from, to, h, f) =
      let c = ceiling_of-le pool.max_level goal in
      let wide : Fitting index 1 pool.max_level j = (l, from, omega arith, h, f) in
      let (i, m, e) =
        pick_match-IsIdOf choose fair category (matches index)
          (candidates_complete _ _ pool.max_level _ player.level window j c wide) in
      (
        i,
        candidates-under _ _ pool.max_level _ player.level window i j (l, from, to, h, f) m,
        rolled_lem index j q wide ∙ e,
      )
