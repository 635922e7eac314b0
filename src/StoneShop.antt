-- ===== src/StoneShop.antt =====
-- The Archipelago Stone's shop: AP_StoneShop.cpp, over the locations of locations/AP_Shop.cpp.
pub mod Prices
pub mod Buying
mod Examples
use mod_i_found_your_sword.Prelude.{
  ℕ, zero, suc, ◌+◌, ◌-◌, ◌*◌, ◌/◌, min, Bool, true, false, not, ◌&&◌, ◌||◌, List, [], ◌∷◌, ◌++◌,
  Option, none, some, if◌then◌else◌, ltb, leb, ◌==◌, length, get_elem?, contains, erase, ℕ-eq,
}

-- `Locations::ShopItem`.
pub record ShopItem : Type 0 where
  pub location_id : ℕ
  pub level : ℕ

-- `Shop::AddLocation`.
unfoldable pub has_location : ℕ → List ShopItem → Bool
has_location location [] = false
has_location location (item ∷ items) =
    if item.location_id == location then true else has_location location items

unfoldable pub add_location : ℕ → ℕ → List ShopItem → List ShopItem
unfolding has_location
add_location level location items =
    if has_location location items
    then items
    else items ++ record { location_id = location; level = level } ∷ []

-- `SHOP_PRICES`, in copper, where the server counts 100 to a silver and 100 silvers to a gold.
abbrev pub shop_prices : List (ℕ × ℕ)
shop_prices =
    (1, 140)
    ∷ (5, 700)
    ∷ (10, 3500)
    ∷ (15, 6000)
    ∷ (20, 10000)
    ∷ (25, 15000)
    ∷ (30, 24000)
    ∷ (35, 48000)
    ∷ (40, 80000)
    ∷ (45, 140000)
    ∷ (50, 250000)
    ∷ (55, 450000)
    ∷ (60, 750000)
    ∷ (65, 1400000)
    ∷ (70, 2400000)
    ∷ (75, 4200000)
    ∷ []

-- The loop of `GetTierPrice`: the price of the last tier that the level reaches.
unfoldable pub tier_price : ℕ → List (ℕ × ℕ) → ℕ → ℕ
tier_price level [] price = price
tier_price level ((tier, cost) ∷ tiers) price =
    tier_price level tiers (if leb tier level then cost else price)

unfoldable pub get_tier_price : ℕ → ℕ → ℕ
unfolding tier_price
get_tier_price level goal =
    let capped = if ltb 6 goal then min level (goal - 6) else level in
    tier_price capped shop_prices 140

-- How many items of the shop go on sale at a level.
unfoldable pub tier_size : ℕ → List ShopItem → ℕ
tier_size level [] = 0
tier_size level (item ∷ items) =
    let rest = tier_size level items in if item.level == level then suc rest else rest

unfoldable pub get_price : List ShopItem → ℕ → ShopItem → ℕ
unfolding get_tier_price tier_size
get_price items goal item = get_tier_price item.level goal * 3 / tier_size item.level items

-- What the shop reads of the character and the player.
pub record Buyer : Type 0 where
  pub shop_items : List ShopItem
  pub is_slot_connected : Bool
  pub checked_locations : List ℕ
  pub missing_locations : List ℕ  -- the client's
  pub goal_level : ℕ
  pub level : ℕ
  pub money : ℕ

-- `AP_Character::IsLocationChecked`.
unfoldable pub is_location_checked : Buyer → ℕ → Bool
is_location_checked b location =
    contains location b.checked_locations
    || (b.is_slot_connected && not (contains location b.missing_locations))

unfoldable pub any_left : Buyer → List ShopItem → Bool
unfolding is_location_checked
any_left b [] = false
any_left b (item ∷ items) =
    if not (is_location_checked b item.location_id) then true else any_left b items

unfoldable pub has_items_left : Buyer → Bool
unfolding any_left
has_items_left b = any_left b b.shop_items

-- A row of the merchant window: slot, entry and price.
abbrev pub Row : Type 0
Row = ℕ × ℕ × ℕ

-- The rows of the items from index `i` on, up to `max_vendor_items` (the server's).
unfoldable pub rows_from : ℕ → Buyer → ℕ → List ShopItem → List Row
unfolding is_location_checked get_price
rows_from max_vendor_items b i [] = []
rows_from max_vendor_items b i (item ∷ items) =
    let rest = rows_from max_vendor_items b (suc i) items in
    if leb max_vendor_items i
    then []
    else if is_location_checked b item.location_id
    then rest
    else (suc i, 100600 + i, get_price b.shop_items b.goal_level item) ∷ rest

unfoldable pub rows : ℕ → Buyer → List Row
unfolding rows_from
rows max_vendor_items b = rows_from max_vendor_items b 0 b.shop_items

pub data Reply : Type 0 where
  not_connected : Reply
  on_sale_at : ℕ → Reply
  not_enough_money : Reply
  sold_out : Reply
  window : List Row → Reply

-- `Open`, less the hints.
unfoldable pub open_shop : ℕ → Buyer → Reply
unfolding rows
open_shop max_vendor_items b = elim (rows max_vendor_items b) [
  | [] ↦ sold_out
  | r ∷ rs ↦ window (r ∷ rs)
]

unfoldable pub get_item : ℕ → Buyer → ℕ → Option ShopItem
get_item max_vendor_items b entry =
    if ltb entry 100600 || leb (min (length b.shop_items) max_vendor_items) (entry - 100600)
    then none
    else get_elem? b.shop_items (entry - 100600)

-- `Buy`, and the part of `AP_Character::CheckLocation` that the shop sees: the location counts as
-- checked, and is no longer missing (`Client::LocationChecks`).
unfoldable pub buy : ℕ → Buyer → ShopItem → Buyer × Reply
unfolding is_location_checked get_price open_shop
buy max_vendor_items b item =
    let price = get_price b.shop_items b.goal_level item in
    let paid = record b {
      money = b.money - price;
      checked_locations = item.location_id ∷ b.checked_locations;
      missing_locations = erase item.location_id b.missing_locations;
    } in
    if not b.is_slot_connected
    then (b, not_connected)
    else if is_location_checked b item.location_id
    then (b, open_shop max_vendor_items b)
    else if ltb b.level item.level
    then (b, on_sale_at item.level)
    else if ltb b.money price
    then (b, not_enough_money)
    else (paid, open_shop max_vendor_items paid)
