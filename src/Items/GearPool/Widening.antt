-- ===== src/Items/GearPool/Widening.antt =====
-- The widening loop of `GearPool::Roll` (items/AP_GearPool.cpp): it ends, and what it ends with.
use mathlib.Core.List.{Memᴰ}
use mathlib.Core.List.Memᴰ
use mod_i_found_your_sword.Prelude.{
  ℕ, zero, suc, ◌+◌, ◌-◌, ◌*◌, ◌≤◌, ◌<◌, min, max, ◌≡◌, ◌≢◌, refl, sym, subst, ◌∙◌, ◌⊎◌, inl, inr,
  ◌&&◌, ◌||◌, List, [], ◌∷◌, some, arith, length, leb, Bool-cases,
}
use mod_i_found_your_sword.Items.Gear.{ItemTemplate}
use mod_i_found_your_sword.Items.GearPool.Roll.{
  Levels, Test, window_matches, widen, climb, candidates,
}
use mod_i_found_your_sword.Items.GearPool.Found.{
  Found, collect_sound, collect_complete, climb_sound, climb_complete,
}

module _ (fits : Test) (levels : Levels) (ceiling : ℕ) where
  -- What a pass found, and that it was the last one.
  abbrev IsLast : List ItemTemplate → Type 0
  IsLast ms =
      (low : ℕ) × (high : ℕ) × (ms ≡ window_matches fits levels ceiling low high)
      × ((5 ≤ length ms) ⊎ ((low ≤ 1) × (ceiling ≤ high)))

  -- Fuel for a pass per three levels is enough: the loop ends, with a window that holds five matches
  -- or covers every level.
  widen-ends :
      (fuel low high : ℕ)
      → low ≤ suc (3 * fuel)
      → ceiling ≤ high + 3 * fuel
      → (ms : List ItemTemplate) × (widen fits levels ceiling (suc fuel) low high ≡ some ms)
        × IsLast ms
  unfolding widen
  widen-ends zero low high l h =
      let ms = window_matches fits levels ceiling low high in
      (ms, ground arith, (low, high, refl, inr (omega arith, omega arith)))
  widen-ends (suc fuel) low high l h =
      let ms = window_matches fits levels ceiling low high in
      elim (Bool-cases (leb 5 (length ms) || (leb low 1 && leb ceiling high))) [
        | inl e ↦ (ms, ground arith, (low, high, refl, ground arith))
        | inr e ↦
            let (ms', ends, last) =
              widen-ends fuel (low - 3) (high + 3) (omega arith) (omega arith) in
            (ms', rw (e, ends) refl, last)
      ]

  window_sound :
      (low high : ℕ) (i : ItemTemplate)
      → Memᴰ i (window_matches fits levels ceiling low high)
      → Found fits levels 1 (suc ceiling) i
  unfolding window_matches
  window_sound low high i m =
      let (l, from, to, h, f) =
        collect_sound fits levels (suc (min high ceiling) - max low 1) (max low 1) i m in
      (l, omega arith, omega arith, h, f)

  window_complete :
      (low high : ℕ) (i : ItemTemplate)
      → low ≤ 1
      → ceiling ≤ high
      → Found fits levels 1 (suc ceiling) i
      → Memᴰ i (window_matches fits levels ceiling low high)
  unfolding window_matches
  window_complete low high i l h (k, from, to, m, f) =
      collect_complete fits levels (suc (min high ceiling) - max low 1) (max low 1) i
        (k, omega arith, omega arith, m, f)

  last_complete :
      (ms : List ItemTemplate) (i : ItemTemplate)
      → IsLast ms
      → Found fits levels 1 (suc ceiling) i
      → ms ≢ []
  last_complete ms i (low, high, e, inl five) w = ground arith
  last_complete ms i (low, high, e, inr (l, h)) w = λ none_left.
      Memᴰ.not-nil (subst (Memᴰ i) (sym e ∙ none_left) (window_complete low high i l h w))

  last_sound :
      (ms : List ItemTemplate) (i : ItemTemplate)
      → IsLast ms
      → Memᴰ i ms
      → Found fits levels 1 (suc ceiling) i
  last_sound ms i (low, high, e, _) m = window_sound low high i (subst (Memᴰ i) e m)

module _ (fits : Test) (levels : Levels) (max_level ceiling level window : ℕ) where
  abbrev from_last : List ItemTemplate → List ItemTemplate
  from_last ms = elim ms [
    | [] ↦ climb fits levels (max_level - ceiling) (suc ceiling)
    | item ∷ items ↦ item ∷ items
  ]

  -- The loops come to the matches of the last pass, or to those above the ceiling if it has none.
  candidates_lem :
      (ms : List ItemTemplate) × (candidates fits levels max_level ceiling level window
        ≡ from_last ms)
      × IsLast fits levels ceiling ms
  unfolding candidates
  candidates_lem = go (
      widen-ends fits levels ceiling ceiling low (min level ceiling + window) (omega arith)
        (omega arith))
    where
      low : ℕ
      low = min level ceiling - window

      go :
          (ms : List ItemTemplate) × (widen fits levels ceiling
                (suc ceiling)
                (min level ceiling - window)
                (min level ceiling + window)
              ≡ some ms)
            × IsLast fits levels ceiling ms
          → (ms : List ItemTemplate) × (candidates fits levels max_level ceiling level window
              ≡ from_last ms)
            × IsLast fits levels ceiling ms
      go (ms, ends, last) = (ms, rw (ends, candidates) refl, last)

  -- Every candidate fits at a level from 1 to the cap of the server.
  pub candidates_sound :
      (i : ItemTemplate)
      → ceiling ≤ max_level
      → Memᴰ i (candidates fits levels max_level ceiling level window)
      → Found fits levels 1 (suc max_level) i
  candidates_sound i c m = let (ms, e, last) = candidates_lem in go ms last (subst (Memᴰ i) e m)
    where
      go :
          (ms : List ItemTemplate)
          → IsLast fits levels ceiling ms
          → Memᴰ i (from_last ms)
          → Found fits levels 1 (suc max_level) i
      go [] last m =
          let (l, from, to, h, f) =
            climb_sound fits levels (max_level - ceiling) (suc ceiling) i m in
          (l, omega arith, omega arith, h, f)
      go (item ∷ items) last m =
          let (l, from, to, h, f) = last_sound fits levels ceiling (item ∷ items) i last m in
          (l, from, omega arith, h, f)

  -- Where something fits under the ceiling, every candidate is from under it.
  pub candidates-under :
      (i j : ItemTemplate)
      → Found fits levels 1 (suc ceiling) j
      → Memᴰ i (candidates fits levels max_level ceiling level window)
      → Found fits levels 1 (suc ceiling) i
  candidates-under i j w m = let (ms, e, last) = candidates_lem in go ms last (subst (Memᴰ i) e m)
    where
      go :
          (ms : List ItemTemplate)
          → IsLast fits levels ceiling ms
          → Memᴰ i (from_last ms)
          → Found fits levels 1 (suc ceiling) i
      go [] last m = absurd (last_complete fits levels ceiling [] j last w refl)
      go (item ∷ items) last m = last_sound fits levels ceiling (item ∷ items) i last m

  -- There is a candidate if anything fits at all.
  pub candidates_complete :
      (j : ItemTemplate)
      → ceiling ≤ max_level
      → Found fits levels 1 (suc max_level) j
      → candidates fits levels max_level ceiling level window ≢ []
  candidates_complete j c (l, from, to, h, f) =
      let (ms, e, last) = candidates_lem in λ none_left. go ms last (sym e ∙ none_left)
    where
      le_or_lt : (a b : ℕ) → (a ≤ b) ⊎ (b < a)
      le_or_lt a b = ground arith

      go : (ms : List ItemTemplate) → IsLast fits levels ceiling ms → from_last ms ≢ []
      go [] last e = elim (le_or_lt l ceiling) [
        | inl under ↦ last_complete fits levels ceiling [] j last (l, from, omega arith, h, f) refl
        | inr over ↦
            climb_complete fits levels (max_level - ceiling) (suc ceiling) j
              (l, over, omega arith, h, f) e
      ]
      go (item ∷ items) last e = cc
