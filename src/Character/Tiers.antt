-- ===== src/Character/Tiers.antt =====
-- The food and drink of AP_Character.cpp that a better tier outgrows.
use mod_i_found_your_sword.Prelude.{
  ℕ, zero, suc, ◌+◌, ◌-◌, ◌≡◌, refl, ap, ◌∙◌, inl, inr, ◌⊎◌, Bool, true, false, List, [], ◌∷◌,
  Option, none, some, if◌then◌else◌, ltb, ◌==◌, ==_iff, ℕ-eq, contains, lookup, arith, Bool-cases,
}
use mod_i_found_your_sword.Items.Tables.{
  ItemsContainer, ProgressiveType, food, drink, ProgressiveType-eq, ProgressiveItem,
}

-- How many the player has of each item, in the bags and the bank.
abbrev pub Held : Type 0
Held = ℕ → ℕ

unfoldable pub destroy_item : ℕ → Held → Held
destroy_item item held i = if item == i then held i - 1 else held i

-- The loop that finds the best tier held, from a place in the track on.
unfoldable pub best_held : Held → ℕ → Option ℕ → List ℕ → Option ℕ
best_held held i best [] = best
best_held held i best (step ∷ steps) =
    best_held held (suc i) (if ltb 0 (held step) then some i else best) steps

-- The loop over the tiers below the best.
unfoldable pub destroy_below : ℕ → List ℕ → Held → Held
unfolding destroy_item
destroy_below zero steps held = held
destroy_below (suc n) [] held = held
destroy_below (suc n) (step ∷ steps) held =
    destroy_below n steps (if ltb 0 (held step) then destroy_item step held else held)

unfoldable pub remove_outgrown_steps : List ℕ → Held → Held
unfolding best_held destroy_below
remove_outgrown_steps steps held = elim (best_held held 0 none steps) [
  | none ↦ held
  | some best ↦ destroy_below best steps held
]

-- `RemoveOutgrownProgressiveItems`.
unfoldable pub remove_outgrown_progressive_items : ItemsContainer → ProgressiveType → Held → Held
unfolding remove_outgrown_steps
remove_outgrown_progressive_items t type held = elim (lookup type t.progressive_by_type) [
  | none ↦ held
  | some track ↦ remove_outgrown_steps track.steps held
]

-- The loop of `OnPlayerAfterTakeItemFromMail`.
unfoldable pub tidy_up : ItemsContainer → ℕ → List ProgressiveType → Held → Held
unfolding remove_outgrown_progressive_items
tidy_up t item [] held = held
tidy_up t item (type ∷ types) held =
    let rest = tidy_up t item types held in
    elim (lookup type t.progressive_by_type) as (λ x. Held) [
      | none ↦ rest
      | some track ↦
          if contains item track.steps then remove_outgrown_progressive_items t type held else rest
    ]

unfoldable pub on_player_after_take_item_from_mail : ItemsContainer → ℕ → Held → Held
unfolding tidy_up
on_player_after_take_item_from_mail t item held = tidy_up t item (food ∷ drink ∷ []) held

-- Whether some tier is held.
unfoldable pub any_held : Held → List ℕ → Bool
any_held held [] = false
any_held held (step ∷ steps) =
    let rest = any_held held steps in if ltb 0 (held step) then true else rest

abbrev pub IsDistinct : List ℕ → Type 0
IsDistinct [] = Unit {0}
IsDistinct (s ∷ ss) = (contains s ss ≡ false) × IsDistinct ss

-- Whether an item is a tier of the track with a better one held.
unfoldable pub is_outgrown : Held → ℕ → List ℕ → Bool
unfolding any_held
is_outgrown held item [] = false
is_outgrown held item (step ∷ steps) =
    let rest = is_outgrown held item steps in if step == item then any_held held steps else rest

-- The best tier, as a place in the track.
best_held-none :
    (held : Held) (i : ℕ) (best : Option ℕ) (steps : List ℕ)
    → any_held held steps ≡ false
    → best_held held i best steps ≡ best
unfolding best_held any_held
best_held-none held i best [] h = refl
best_held-none held i best (s ∷ ss) h = ground (arith, best_held-none held (suc i) best ss, h)

-- The same loop, counting from the place where it starts.
unfoldable pub best_of : Held → List ℕ → Option ℕ
unfolding any_held
best_of held [] = none
best_of held (s ∷ ss) =
    let rest = best_of held ss in
    elim rest [ some k ↦ some (suc k) | none ↦ if ltb 0 (held s) then some 0 else none ]

best_held-best_of :
    (held : Held) (i : ℕ) (best : Option ℕ) (steps : List ℕ)
    → best_held held i best steps
      ≡ elim (best_of held steps) [ some k ↦ some (i + k) | none ↦ best ]
unfolding best_held best_of
best_held-best_of held i best [] = refl
best_held-best_of held i best (s ∷ ss) =
    ground (arith, best_held-best_of held (suc i) (if ltb 0 (held s) then some i else best) ss)

any_held-best_of :
    (held : Held) (steps : List ℕ)
    → any_held held steps ≡ elim (best_of held steps) [ some _ ↦ true | none ↦ false ]
unfolding any_held best_of
any_held-best_of held [] = refl
any_held-best_of held (s ∷ ss) = ground (arith, any_held-best_of held ss)

-- Whether an item is one of the first tiers.
unfoldable pub is_below : ℕ → ℕ → List ℕ → Bool
is_below item zero steps = false
is_below item (suc n) [] = false
is_below item (suc n) (s ∷ ss) = let rest = is_below item n ss in if s == item then true else rest

is_below-contains :
    (item n : ℕ) (steps : List ℕ) → contains item steps ≡ false → is_below item n steps ≡ false
unfolding is_below contains
is_below-contains item zero steps h = refl
is_below-contains item (suc n) [] h = refl
is_below-contains item (suc n) (s ∷ ss) h = ground (arith, h, is_below-contains item n ss)

is_outgrown-best_of :
    (held : Held) (item : ℕ) (steps : List ℕ)
    → is_outgrown held item steps
      ≡ elim (best_of held steps) [ some k ↦ is_below item k steps | none ↦ false ]
unfolding is_outgrown best_of is_below
is_outgrown-best_of held item [] = refl
is_outgrown-best_of held item (s ∷ ss) =
    ground (arith, is_outgrown-best_of held item ss, any_held-best_of held ss)

destroy_item-held :
    (s item : ℕ) (held : Held)
    → (if ltb 0 (held s) then destroy_item s held else held) item
      ≡ (if s == item then held item - 1 else held item)
unfolding destroy_item
destroy_item-held s item held = elim (Bool-cases (ltb 0 (held s))) [
  | inl e ↦ rw e refl
  | inr e ↦ rw e (none_left e (Bool-cases (s == item)))
]
  where
    none_left :
        ltb 0 (held s) ≡ false
        → (((s == item) ≡ true) ⊎ ((s == item) ≡ false))
        → held item ≡ (if s == item then held item - 1 else held item)
    none_left e (inl same) = ground (arith, same, ap held ((==_iff s item).0 same), e)
    none_left e (inr other) = rw other refl

destroy_below-held :
    (n item : ℕ) (steps : List ℕ) (held : Held)
    → IsDistinct steps
    → destroy_below n steps held item ≡ (if is_below item n steps then held item - 1 else held item)
unfolding destroy_below is_below
destroy_below-held zero item steps held d = refl
destroy_below-held (suc n) item [] held d = refl
destroy_below-held (suc n) item (s ∷ ss) held d =
    let held' : Held = if ltb 0 (held s) then destroy_item s held else held in
    let more = destroy_below-held n item ss held' d.1 in
    rw more (ground (arith, destroy_item-held s item held, d.0, is_below-contains item n ss))

-- Where no tier stands twice in a track, the sweep takes one copy of an item exactly when the item is a
-- tier of the track with a better tier held, in the bags or the bank, and leaves every other item alone:
-- the best tier that the character has is never taken, whatever tier it was last sent.
pub remove_outgrown-held :
    (t : ItemsContainer) (type : ProgressiveType) (track : ProgressiveItem) (held : Held) (item : ℕ)
    → lookup type t.progressive_by_type ≡ some track
    → IsDistinct track.steps
    → remove_outgrown_progressive_items t type held item
      ≡ (if is_outgrown held item track.steps then held item - 1 else held item)
unfolding remove_outgrown_progressive_items remove_outgrown_steps
remove_outgrown-held t type track held item e d =
    let found : best_held held 0 none track.steps ≡ best_of held track.steps =
      ground (arith, best_held-best_of held 0 none track.steps) in
    let track_of : remove_outgrown_progressive_items t type held
        ≡ remove_outgrown_steps track.steps held =
      ap
        (λ (o : Option ProgressiveItem). elim o as (λ x. Held) [
          | none ↦ held
          | some other ↦ remove_outgrown_steps other.steps held
        ])
        e in
    let swept_to : remove_outgrown_steps track.steps held
        ≡ elim (best_of held track.steps) as (λ x. Held) [
          | none ↦ held
          | some k ↦ destroy_below k track.steps held
        ] =
      ap
        (λ (o : Option ℕ). elim o as (λ x. Held) [
          | none ↦ held
          | some k ↦ destroy_below k track.steps held
        ])
        found in
    ap (λ (h : Held). h item) (track_of ∙ swept_to)
    ∙ swept (best_of held track.steps) (is_outgrown-best_of held item track.steps)
  where
    swept :
        (b : Option ℕ)
        → is_outgrown held item track.steps
          ≡ elim b [ some k ↦ is_below item k track.steps | none ↦ false ]
        → (elim b as (λ x. Held) [ none ↦ held | some k ↦ destroy_below k track.steps held ]) item
          ≡ (if is_outgrown held item track.steps then held item - 1 else held item)
    swept none h = rw h refl
    swept (some k) h = rw h (destroy_below-held k item track.steps held d)
