-- ===== src/Locations.antt =====
-- The tables of this slot's locations: locations/. Each is the map from what the game calls a feat to
-- the location that it checks.
pub mod Skills
use mod_i_found_your_sword.Prelude.{
  ℕ, ℤ, ◌==ℤ◌, Bool, true, false, List, [], ◌∷◌, ◌++◌, Option, none, some, if◌then◌else◌, ℕ-eq,
  lookup, insert, ltb, ◌==◌,
}
use mod_i_found_your_sword.StoneShop.{ShopItem}
use mod_i_found_your_sword.Locations.Skills.{add_skill}

pub record LocationsContainer : Type 0 where
  pub achievements : List (ℕ × ℤ)
  pub bosses : List (ℕ × ℤ)
  pub explorations : List (ℕ × ℤ)
  pub flight_paths : List (ℕ × ℤ)
  pub leaders : List (ℕ × ℤ)
  pub levels : List (ℕ × ℤ)
  pub quests : List (ℕ × ℤ)
  pub shop : List ShopItem
  pub skills : List (ℕ × List (ℕ × ℤ))
  pub spells : List (ℕ × ℤ)

-- `AddLocation` and `GetLocationId` of the tables that are maps.
unfoldable pub add_location : ℕ → ℤ → List (ℕ × ℤ) → List (ℕ × ℤ)
add_location key location m = insert key location m

unfoldable pub get_location_id : ℕ → List (ℕ × ℤ) → Option ℤ
get_location_id key m = lookup key m

-- `Skills::AddLocation`.
unfoldable pub add_skill_location : ℕ → ℕ → ℤ → List (ℕ × List (ℕ × ℤ)) → List (ℕ × List (ℕ × ℤ))
unfolding add_skill
add_skill_location skill value location m =
    insert skill
      (add_skill value location (elim (lookup skill m) [ some values ↦ values | none ↦ [] ])) m
