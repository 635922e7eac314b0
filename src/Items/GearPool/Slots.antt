-- ===== src/Items/GearPool/Slots.antt =====
-- How `GearPool::Roll` of items/AP_GearPool.cpp picks one of the matches.
use mathlib.Core.List.{Memᴰ}
use mathlib.Core.List.Memᴰ
use mod_i_found_your_sword.Prelude.{
  ℕ, ◌*◌, min, ◌≡◌, ◌≢◌, refl, sym, subst, ◌⊎◌, inl, inr, List, [], ◌∷◌, ◌++◌, Option, some, length,
  Bool-cases,
}
use mod_i_found_your_sword.Items.Gear.{
  GearCategory, weapon, armor, jewelry, ItemTemplate, InventoryType,
}
use mod_i_found_your_sword.Items.GearPool.Roll.{
  Choose, Slot, add_to_slot, group_slots, same_slot, slot_of, slot_weight, pick, pick_slot,
  pick_match,
}

-- The server's choices are made from what the container holds.
pub record IsFair (choose : Choose) : Type 1 where
  pub select-Memᴰ : {A : Type 0} (x : A) (xs : List A) → Memᴰ (choose.select x xs) (x ∷ xs)
  pub select_weighted-Memᴰ :
      {A : Type 0} (weight : A → ℕ) (x : A) (xs : List A)
      → Memᴰ (choose.select_weighted weight x xs) (x ∷ xs)

-- A slot that holds something, and only items of `ms`.
abbrev IsFilled : List ItemTemplate → Slot → Type 0
IsFilled ms slot = (slot.1 ≢ []) × ((i : ItemTemplate) → Memᴰ i slot.1 → Memᴰ i ms)

abbrev AllFilled : List ItemTemplate → List Slot → Type 0
AllFilled ms [] = Unit {0}
AllFilled ms (slot ∷ slots) = IsFilled ms slot × AllFilled ms slots

AllFilled-Memᴰ :
    (ms : List ItemTemplate) (slots : List Slot) (slot : Slot)
    → AllFilled ms slots
    → Memᴰ slot slots
    → IsFilled ms slot
AllFilled-Memᴰ ms [] slot all m = elim m [ ]
AllFilled-Memᴰ ms (s ∷ slots) slot (f, all) (Memᴰ.head e) = subst (IsFilled ms) (sym e) f
AllFilled-Memᴰ ms (s ∷ slots) slot (f, all) (Memᴰ.tail m) = AllFilled-Memᴰ ms slots slot all m

one-Filled :
    (ms : List ItemTemplate) (slot : InventoryType) (item : ItemTemplate)
    → Memᴰ item ms
    → IsFilled ms (slot, item ∷ [])
one-Filled ms slot item h = (
  λ e. cc,
  λ i m. elim (Memᴰ.cases_cons m) [ inl e ↦ Memᴰ.cast e h | inr n ↦ absurd (Memᴰ.not-nil n) ],
)

snoc-Filled :
    (ms : List ItemTemplate) (slot : InventoryType) (item : ItemTemplate)
    (items : List ItemTemplate)
    → Memᴰ item ms
    → IsFilled ms (slot, items)
    → IsFilled ms (slot, items ++ item ∷ [])
snoc-Filled ms slot item items h (some_in, all) = (
  snoc-not_nil items,
  λ i m. elim (Memᴰ.append_cases items m) [
    | inl old ↦ all i old
    | inr new ↦ (one-Filled ms slot item h).1 i new
  ],
)
  where
    snoc-not_nil : (items : List ItemTemplate) → items ++ item ∷ [] ≢ []
    snoc-not_nil [] = λ e. cc
    snoc-not_nil (x ∷ xs) = λ e. cc

add_to_slot-Filled :
    (ms : List ItemTemplate) (slot : InventoryType) (item : ItemTemplate) (slots : List Slot)
    → Memᴰ item ms
    → AllFilled ms slots
    → AllFilled ms (add_to_slot slot item slots) × (add_to_slot slot item slots ≢ [])
unfolding add_to_slot
add_to_slot-Filled ms slot item [] h all = ((one-Filled ms slot item h, tt), λ e. cc)
add_to_slot-Filled ms slot item ((t, items) ∷ slots) h (f, all) =
    elim (Bool-cases (same_slot t slot)) [
      | inl e ↦ rw e ((snoc-Filled ms t item items h f, all), λ e. cc)
      | inr e ↦ rw e ((f, (add_to_slot-Filled ms slot item slots h all).0), λ e. cc)
    ]

group_slots-Filled :
    (all_ms ms : List ItemTemplate) (slots : List Slot)
    → ((i : ItemTemplate) → Memᴰ i ms → Memᴰ i all_ms)
    → AllFilled all_ms slots
    → (ms ≢ []) ⊎ (slots ≢ [])
    → AllFilled all_ms (group_slots ms slots) × (group_slots ms slots ≢ [])
unfolding group_slots
group_slots-Filled all_ms [] slots sub all (inl some_in) = absurd (some_in refl)
group_slots-Filled all_ms [] slots sub all (inr some_in) = (all, some_in)
group_slots-Filled all_ms (m ∷ ms) slots sub all _ =
    let (all', some_in) =
      add_to_slot-Filled all_ms (slot_of m) m slots (sub m (Memᴰ.head refl)) all in
    group_slots-Filled all_ms ms (add_to_slot (slot_of m) m slots) (λ i n. sub i (Memᴰ.tail n)) all'
      (inr some_in)

-- The id of one of the items.
abbrev pub IsIdOf : List ItemTemplate → Option ℕ → Type 0
IsIdOf ms r = (i : ItemTemplate) × Memᴰ i ms × (r ≡ some i.item_id)

module _ (choose : Choose) (fair : IsFair choose) where
  pick-IsIdOf : (ms : List ItemTemplate) → ms ≢ [] → IsIdOf ms (pick choose ms)
  unfolding pick
  pick-IsIdOf [] h = absurd (h refl)
  pick-IsIdOf (m ∷ ms) h = (choose.select m ms, fair.select-Memᴰ m ms, refl)

  pick_slot-IsIdOf :
      (ms : List ItemTemplate) (slots : List Slot)
      → AllFilled ms slots
      → slots ≢ []
      → IsIdOf ms (pick_slot choose slots)
  unfolding pick_slot
  pick_slot-IsIdOf ms [] all h = absurd (h refl)
  pick_slot-IsIdOf ms (slot ∷ slots) all h =
      let weight = λ (s : Slot). slot_weight s.0 * min (length s.1) 5 in
      let chosen = choose.select_weighted weight slot slots in
      let (some_in, sub) =
        AllFilled-Memᴰ ms (slot ∷ slots) chosen all (fair.select_weighted-Memᴰ weight slot slots) in
      let (i, m, e) = pick-IsIdOf chosen.1 some_in in (i, sub i m, e)

  -- A choice is made if there is a match, and it is one of the matches, whatever the category.
  pub pick_match-IsIdOf :
      (category : GearCategory) (ms : List ItemTemplate)
      → ms ≢ []
      → IsIdOf ms (pick_match choose category ms)
  unfolding pick_match
  pick_match-IsIdOf weapon ms h = pick-IsIdOf ms h
  pick_match-IsIdOf armor ms h =
      let (all, some_in) = group_slots-Filled ms ms [] (λ i m. m) tt (inl h) in
      pick_slot-IsIdOf ms (group_slots ms []) all some_in
  pick_match-IsIdOf jewelry ms h =
      let (all, some_in) = group_slots-Filled ms ms [] (λ i m. m) tt (inl h) in
      pick_slot-IsIdOf ms (group_slots ms []) all some_in
