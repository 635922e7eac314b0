-- ===== src/Items/GearPool/Proficiency.antt =====
-- `AllowedArmorMask` of items/AP_GearPool.cpp: the armor types that a class is up to.
use mod_i_found_your_sword.Prelude.{
  ℕ, ◌+◌, ◌≤◌, ◌<◌, ◌≡◌, refl, ◌⊎◌, inl, inr, Bool, true, false, List, [], ◌∷◌, Option, none, some,
  if◌then◌else◌, arith, leb, ltb,
}
use mod_i_found_your_sword.Items.Gear.{ArmorKind, Player, SkillTraining}
use mod_i_found_your_sword.Items.GearPool.{
  ArmorMask, is_step, all_armor_tiers, ArmorSkills, Tier, add_tier, add_tiers, tiers_of,
  allowed_armor_mask,
}

-- A type that the class may learn before the ceiling, at a level that the window reaches.
abbrev InReach : ℕ → ℕ → ℕ → Tier → ArmorKind → Type 0
InReach level window ceiling (kind, learns, training) k =
    (k ≡ kind) × (learns ≡ true) × (training < ceiling) × (training ≤ level + window)

abbrev AnyInReach : ℕ → ℕ → ℕ → List Tier → ArmorKind → Type 0
AnyInReach level window ceiling [] k = ⊥
AnyInReach level window ceiling (t ∷ ts) k =
    InReach level window ceiling t k ⊎ AnyInReach level window ceiling ts k

add_tier-cases :
    (kind : ArmorKind) (mask : ArmorMask) (k : ArmorKind)
    → add_tier kind mask k ≡ true
    → (mask k ≡ true) ⊎ (k ≡ kind)
unfolding add_tier
add_tier-cases kind mask k h = ground arith

add_tier_self :
    (kind : ArmorKind) (mask : ArmorMask)
    → all_armor_tiers kind ≡ true
    → add_tier kind mask kind ≡ true
unfolding add_tier all_armor_tiers
add_tier_self kind mask h = ground arith

add_tier-keeps :
    (kind : ArmorKind) (mask : ArmorMask) (k : ArmorKind)
    → mask k ≡ true
    → add_tier kind mask k ≡ true
unfolding add_tier
add_tier-keeps kind mask k h = ground arith

module _ (level window ceiling : ℕ) where
  -- A tier of the loop, by whether it is a step, is in reach and ends the loop.
  abbrev Next : Tier → List Tier → Option ℕ → ArmorMask → Bool → Bool → Bool → ArmorMask
  Next (kind, learns, training) tiers kept mask step reach last =
      let mask' = if reach then add_tier kind mask else mask in
      if step
      then (if last then mask' else add_tiers level window ceiling tiers (some training) mask')
      else add_tiers level window ceiling tiers kept mask

  add_tiers-keeps :
      (tiers : List Tier) (kept : Option ℕ) (mask : ArmorMask) (k : ArmorKind)
      → mask k ≡ true
      → add_tiers level window ceiling tiers kept mask k ≡ true
  unfolding add_tiers
  add_tiers-keeps [] kept mask k h = h
  add_tiers-keeps ((kind, learns, training) ∷ tiers) kept mask k h =
      go (λ kept' mask'. add_tiers-keeps tiers kept' mask' k) (is_step ceiling kept learns training)
        (leb training (level + window)) (ltb (training + window) level)
    where
      go :
          ((kept' : Option ℕ) (mask' : ArmorMask)
            → mask' k ≡ true
            → add_tiers level window ceiling tiers kept' mask' k ≡ true)
          → (step reach last : Bool)
          → Next (kind, learns, training) tiers kept mask step reach last k ≡ true
      go below false reach last = below kept mask h
      go below true true true = add_tier-keeps kind mask k h
      go below true true false = below _ (add_tier kind mask) (add_tier-keeps kind mask k h)
      go below true false true = h
      go below true false false = below _ mask h

  is_step_lem :
      (kept : Option ℕ) (learns : Bool) (training : ℕ)
      → is_step ceiling kept learns training ≡ true
      → (learns ≡ true) × (training < ceiling)
  unfolding is_step
  is_step_lem kept learns training h = ground arith

  add_tiers-reached :
      (tiers : List Tier) (kept : Option ℕ) (mask : ArmorMask) (k : ArmorKind)
      → add_tiers level window ceiling tiers kept mask k ≡ true
      → (mask k ≡ true) ⊎ AnyInReach level window ceiling tiers k
  unfolding add_tiers
  add_tiers-reached [] kept mask k h = inl h
  add_tiers-reached ((kind, learns, training) ∷ tiers) kept mask k h =
      go (λ kept' mask'. add_tiers-reached tiers kept' mask' k)
        (is_step ceiling kept learns training) (leb training (level + window))
        (ltb (training + window) level) refl refl h
    where
      Goal : Type 0
      Goal = (mask k ≡ true) ⊎ AnyInReach level window ceiling ((kind, learns, training) ∷ tiers) k

      here :
          is_step ceiling kept learns training ≡ true
          → leb training (level + window) ≡ true
          → add_tier kind mask k ≡ true
          → Goal
      here s r m =
          let (l, c) = is_step_lem kept learns training s in
          elim (add_tier-cases kind mask k m) [
            | inl old ↦ inl old
            | inr new ↦ inr (inl (new, l, c, ground arith))
          ]

      later : (mask k ≡ true) ⊎ AnyInReach level window ceiling tiers k → Goal
      later (inl m) = inl m
      later (inr a) = inr (inr a)

      go :
          ((kept' : Option ℕ) (mask' : ArmorMask)
            → add_tiers level window ceiling tiers kept' mask' k ≡ true
            → (mask' k ≡ true) ⊎ AnyInReach level window ceiling tiers k)
          → (step reach last : Bool) → is_step ceiling kept learns training ≡ step
          → leb training (level + window) ≡ reach
          → Next (kind, learns, training) tiers kept mask step reach last k ≡ true
          → Goal
      go below false reach last s r h = later (below kept mask h)
      go below true true true s r h = here s r h
      go below true true false s r h = elim (below _ (add_tier kind mask) h) [
        | inl m ↦ here s r m
        | inr a ↦ inr (inr a)
      ]
      go below true false true s r h = inl h
      go below true false false s r h = later (below _ mask h)

  -- What was kept so far is still out of reach.
  abbrev Unreached : Option ℕ → Type 0
  Unreached none = Unit {0}
  Unreached (some last) = level + window < last

  abbrev AllArmor : List Tier → Type 0
  AllArmor [] = Unit {0}
  AllArmor ((kind, learns, training) ∷ tiers) = (all_armor_tiers kind ≡ true) × AllArmor tiers

  Unreached-step :
      (kept : Option ℕ) (learns : Bool) (training : ℕ)
      → Unreached kept
      → learns ≡ true
      → training < ceiling
      → training ≤ level + window
      → is_step ceiling kept learns training ≡ true
  unfolding is_step
  Unreached-step kept learns training u l c r = ground arith

  add_tiers-some :
      (tiers : List Tier) (kept : Option ℕ) (mask : ArmorMask) (k : ArmorKind)
      → AllArmor tiers
      → Unreached kept
      → AnyInReach level window ceiling tiers k
      → (k' : ArmorKind) × (add_tiers level window ceiling tiers kept mask k' ≡ true)
  unfolding add_tiers
  add_tiers-some [] kept mask k all u r = absurd r
  add_tiers-some ((kind, learns, training) ∷ tiers) kept mask k (armor, all) u r =
      go (λ kept' mask'. add_tiers-some tiers kept' mask' k all)
        (is_step ceiling kept learns training) (leb training (level + window))
        (ltb (training + window) level) refl refl refl r
    where
      Any : ArmorMask → Type 0
      Any m = (k' : ArmorKind) × (m k' ≡ true)

      go :
          ((kept' : Option ℕ) (mask' : ArmorMask)
            → Unreached kept'
            → AnyInReach level window ceiling tiers k
            → Any (add_tiers level window ceiling tiers kept' mask'))
          → (step reach last : Bool) → is_step ceiling kept learns training ≡ step
          → leb training (level + window) ≡ reach
          → ltb (training + window) level ≡ last
          → AnyInReach level window ceiling ((kind, learns, training) ∷ tiers) k
          → Any (Next (kind, learns, training) tiers kept mask step reach last)
      go below true true true s r o i = (kind, add_tier_self kind mask armor)
      go below true true false s r o i =
          (kind, add_tiers-keeps tiers _ (add_tier kind mask) kind (add_tier_self kind mask armor))
      go below true false true s r o i = absurd (ground arith)
      go below true false false s r o (inl i) = absurd (ground arith)
      go below true false false s r o (inr a) = below (some training) mask (ground arith) a
      go below false reach last s r o (inl (same, l, c, within)) =
          absurd (ground (arith, Unreached-step kept learns training u l c within))
      go below false reach last s r o (inr a) = below kept mask u a

module _ (skills : ArmorSkills) (ts : List SkillTraining) (player : Player)
    (window ceiling : ℕ) where
  -- One of the four types, which the player's class may learn before the ceiling and at a level that
  -- the window reaches.
  abbrev pub IsWearable : ArmorKind → Type 0
  IsWearable k = AnyInReach player.level window ceiling (tiers_of skills ts player) k

  -- Only types that the class may learn before the run's ceiling, and within the window, are allowed.
  pub allowed_armor_mask-IsWearable :
      (k : ArmorKind) → allowed_armor_mask skills ts player window ceiling k ≡ true → IsWearable k
  unfolding allowed_armor_mask
  allowed_armor_mask-IsWearable k h =
      elim (add_tiers-reached player.level window ceiling (tiers_of skills ts player) none
        (λ k. false) k h) [ inl e ↦ cc | inr a ↦ a ]

  -- If the class may learn any type that way, the mask is not empty: leaving out what is outgrown
  -- never leaves out everything.
  pub allowed_armor_mask-some :
      (k : ArmorKind)
      → IsWearable k
      → (k' : ArmorKind) × (allowed_armor_mask skills ts player window ceiling k' ≡ true)
  unfolding allowed_armor_mask tiers_of all_armor_tiers
  allowed_armor_mask-some k a =
      add_tiers-some player.level window ceiling (tiers_of skills ts player) none (λ k. false) k
        (refl, (refl, (refl, (refl, tt)))) tt a
