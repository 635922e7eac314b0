-- ===== src/Items/GearPool/Found.antt =====
-- Which items the loops of `GearPool::Roll` (items/AP_GearPool.cpp) collect from a range of levels.
use mathlib.Core.List.{Memᴰ}
use mathlib.Core.List.Memᴰ
use mod_i_found_your_sword.Prelude.{
  ℕ, zero, suc, ◌+◌, ◌≤◌, ◌<◌, ◌≡◌, ◌≢◌, refl, sym, ap, subst, ◌∙◌, ◌⊎◌, inl, inr, Bool, true,
  false, List, [], ◌∷◌, if◌then◌else◌, arith, Bool-cases,
}
use mod_i_found_your_sword.Items.Gear.{ItemTemplate}
use mod_i_found_your_sword.Items.GearPool.Roll.{Levels, Test, bucket_at, fitting, collect, climb}

-- An item of one of the levels from `low` up to, not including, `high`, that fits there.
abbrev pub Found : Test → Levels → ℕ → ℕ → ItemTemplate → Type 0
Found fits levels low high item =
    (level : ℕ) × (low ≤ level)
    × (level < high)
    × Memᴰ item (bucket_at levels level)
    × (fits item level ≡ true)

module _ (fits : Test) where
  fitting_sound :
      (level : ℕ) (items : List ItemTemplate) (i : ItemTemplate)
      → Memᴰ i (fitting fits level items)
      → Memᴰ i items × (fits i level ≡ true)
  unfolding fitting
  fitting_sound level [] i m = elim m [ ]
  fitting_sound level (item ∷ items) i m = go (fitting_sound level items i) (fits item level) refl m
    where
      rest : List ItemTemplate
      rest = fitting fits level items

      go :
          (Memᴰ i rest → Memᴰ i items × (fits i level ≡ true))
          → (b : Bool) → fits item level ≡ b
          → Memᴰ i (if b then item ∷ rest else rest)
          → Memᴰ i (item ∷ items) × (fits i level ≡ true)
      go below true e (Memᴰ.head h) = (Memᴰ.head h, ap (λ x. fits x level) h ∙ e)
      go below true e (Memᴰ.tail m) = let (m', f) = below m in (Memᴰ.tail m', f)
      go below false e m = let (m', f) = below m in (Memᴰ.tail m', f)

  fitting_complete :
      (level : ℕ) (items : List ItemTemplate) (i : ItemTemplate)
      → Memᴰ i items
      → fits i level ≡ true
      → Memᴰ i (fitting fits level items)
  unfolding fitting
  fitting_complete level [] i m f = elim m [ ]
  fitting_complete level (item ∷ items) i (Memᴰ.head h) f =
      rw (ap (λ x. fits x level) (sym h) ∙ f) (Memᴰ.head h)
  fitting_complete level (item ∷ items) i (Memᴰ.tail m) f =
      let m' = fitting_complete level items i m f in
      elim (Bool-cases (fits item level)) [ inl e ↦ rw e (Memᴰ.tail m') | inr e ↦ rw e m' ]

  module _ (levels : Levels) where
    pub collect_sound :
        (n low : ℕ) (i : ItemTemplate)
        → Memᴰ i (collect fits levels n low)
        → Found fits levels low (low + n) i
    unfolding collect
    collect_sound zero low i m = elim m [ ]
    collect_sound (suc n) low i m =
        elim (Memᴰ.append_cases (fitting fits low (bucket_at levels low)) m) [
          | inl h ↦
              let (h', f) = fitting_sound low (bucket_at levels low) i h in
              (low, omega arith, omega arith, h', f)
          | inr h ↦
              let (l, from, to, h', f) = collect_sound n (suc low) i h in
              (l, omega arith, omega arith, h', f)
        ]

    pub collect_complete :
        (n low : ℕ) (i : ItemTemplate)
        → Found fits levels low (low + n) i
        → Memᴰ i (collect fits levels n low)
    unfolding collect
    collect_complete zero low i (l, from, to, m, f) = absurd (omega arith)
    collect_complete (suc n) low i (l, from, to, m, f) = elim (eq_or_lt low l from) [
      | inl e ↦ Memᴰ.append_left (collect fits levels n (suc low)) (
          fitting_complete low (bucket_at levels low) i
            (subst (λ k. Memᴰ i (bucket_at levels k)) (sym e) m) (ap (fits i) e ∙ f))
      | inr up ↦
          Memᴰ.append_right (fitting fits low (bucket_at levels low))
            (collect_complete n (suc low) i (l, up, omega arith, m, f))
    ]
      where
        eq_or_lt : (a b : ℕ) → a ≤ b → (a ≡ b) ⊎ (a < b)
        eq_or_lt a b h = ground arith

    pub climb_sound :
        (n low : ℕ) (i : ItemTemplate)
        → Memᴰ i (climb fits levels n low)
        → Found fits levels low (low + n) i
    unfolding climb
    climb_sound zero low i m = elim m [ ]
    climb_sound (suc n) low i m =
        go (climb_sound n (suc low) i) (fitting fits low (bucket_at levels low)) refl m
      where
        go :
            (Memᴰ i (climb fits levels n (suc low)) → Found fits levels (suc low) (suc low + n) i)
            → (here : List ItemTemplate) → fitting fits low (bucket_at levels low) ≡ here
            → Memᴰ i
                (elim here [ [] ↦ climb fits levels n (suc low) | item ∷ items ↦ item ∷ items ])
            → Found fits levels low (low + suc n) i
        go below [] e m = let (l, from, to, h', f) = below m in (l, omega arith, omega arith, h', f)
        go below (item ∷ items) e m =
            let (h', f) = fitting_sound low (bucket_at levels low) i (subst (Memᴰ i) (sym e) m) in
            (low, omega arith, omega arith, h', f)

    -- The loop above the ceiling ends empty only where nothing fits.
    pub climb_complete :
        (n low : ℕ) (i : ItemTemplate)
        → Found fits levels low (low + n) i
        → climb fits levels n low ≢ []
    unfolding climb
    climb_complete zero low i (l, from, to, m, f) = absurd (omega arith)
    climb_complete (suc n) low i (l, from, to, m, f) =
        go (climb_complete n (suc low) i) (fitting fits low (bucket_at levels low)) refl
      where
        above : (low ≡ l → ⊥) → Found fits levels (suc low) (suc low + n) i
        above h = (l, ground arith, omega arith, m, f)

        go :
            (Found fits levels (suc low) (suc low + n) i → climb fits levels n (suc low) ≢ [])
            → (here : List ItemTemplate) → fitting fits low (bucket_at levels low) ≡ here
            → elim here [ [] ↦ climb fits levels n (suc low) | item ∷ items ↦ item ∷ items ] ≢ []
        go below [] e = below (
            above λ at. Memᴰ.not-nil (
              subst (Memᴰ i) e (
                fitting_complete low (bucket_at levels low) i
                  (subst (λ k. Memᴰ i (bucket_at levels k)) (sym at) m) (ap (fits i) at ∙ f))))
        go below (item ∷ items) e = λ h. cc
