-- ===== src/Locations/Skills.antt =====
-- The values of a skill that check a location, of locations/AP_Skills.cpp: a `std::map`, ascending.
use mod_i_found_your_sword.Prelude.{
  ℕ, suc, ◌≤◌, ◌<◌, ℤ, ◌≡◌, refl, true, List, [], ◌∷◌, none, some, if◌then◌else◌, ltb, leb, ◌==◌,
  arith, ℕ-eq, ℤ-eq, lookup, contains, ==ℤ_iff,
}

-- `map[value] = location` at an ascending map.
unfoldable pub add_skill : ℕ → ℤ → List (ℕ × ℤ) → List (ℕ × ℤ)
add_skill value location [] = (value, location) ∷ []
add_skill value location ((v, l) ∷ m) =
    let rest = add_skill value location m in
    if ltb value v
    then (value, location) ∷ (v, l) ∷ m
    else if value == v
    then (v, location) ∷ m
    else (v, l) ∷ rest

-- What lies before `upper_bound(value)`.
unfoldable pub up_to : ℕ → List (ℕ × ℤ) → List ℤ
up_to value [] = []
up_to value ((v, l) ∷ m) = let rest = up_to value m in if leb v value then l ∷ rest else []

-- `GetLocationIds`.
unfoldable pub get_location_ids : ℕ → ℕ → List (ℕ × List (ℕ × ℤ)) → List ℤ
unfolding up_to
get_location_ids skill value m = elim (lookup skill m) [
  | some values ↦ up_to value values
  | none ↦ []
]

-- Ascending, each value above a bound.
abbrev pub IsAscending : ℕ → List (ℕ × ℤ) → Type 0
IsAscending low [] = Unit {0}
IsAscending low ((v, l) ∷ m) = (low ≤ v) × IsAscending (suc v) m

IsAscending-lookup :
    (low value : ℕ) (m : List (ℕ × ℤ)) → IsAscending low m → value < low → lookup value m ≡ none
unfolding lookup
IsAscending-lookup low value [] a h = refl
IsAscending-lookup low value ((v, l) ∷ m) a h =
    ground (arith, a.0, IsAscending-lookup (suc v) value m a.1 (omega (arith, a.0)))

pub add_skill-IsAscending :
    (low value : ℕ) (location : ℤ) (m : List (ℕ × ℤ))
    → IsAscending low m
    → low ≤ value
    → IsAscending low (add_skill value location m)
unfolding add_skill
add_skill-IsAscending low value location [] a h = ground arith
add_skill-IsAscending low value location ((v, l) ∷ m) a h =
    ground (arith, add_skill-IsAscending (suc v) value location m a.1)

-- The values up to a bound are the locations of the keys up to it.
pub up_to-in :
    (low bound value : ℕ) (location : ℤ) (m : List (ℕ × ℤ))
    → IsAscending low m
    → lookup value m ≡ some location
    → value ≤ bound
    → contains location (up_to bound m) ≡ true
unfolding lookup up_to contains
up_to-in low bound value location [] a h le = ground (arith, h)
up_to-in low bound value location ((v, l) ∷ m) a h le = ground (
  arith,
  ==ℤ_iff l location,
  up_to-in (suc v) bound value location m a.1,
  IsAscending-lookup (suc v) value m a.1,
)

-- Looking a value up after adding one.
pub lookup-add_skill :
    (low value other : ℕ) (location : ℤ) (m : List (ℕ × ℤ))
    → IsAscending low m
    → lookup other (add_skill value location m)
      ≡ (if value == other then some location else lookup other m)
unfolding lookup add_skill
lookup-add_skill low value other location [] a = refl
lookup-add_skill low value other location ((v, l) ∷ m) a = ground (
  arith,
  lookup-add_skill (suc v) value other location m a.1,
  IsAscending-lookup (suc v) other m a.1,
)
