-- ===== src/StoneShop/Examples.antt =====
-- Tests of AP_StoneShop.cpp, on a shop with two items of one tier and one of a later tier.
use mod_i_found_your_sword.Prelude.{◌≡◌, refl, true, List, [], ◌∷◌, contains, ℕ-eq}
use mod_i_found_your_sword.StoneShop.{
  ShopItem, Buyer, is_location_checked, buy, get_price, get_tier_price, tier_price, tier_size,
}
use mod_i_found_your_sword.StoneShop.Buying.{buy-buy}

abbrev cheap : ShopItem
cheap = record { location_id = 7; level = 5 }

abbrev shop : List ShopItem
shop = cheap ∷ record { location_id = 8; level = 5 } ∷ record { location_id = 9; level = 20 } ∷ []

abbrev buyer : Buyer
buyer = record {
  shop_items = shop;
  is_slot_connected = true;
  checked_locations = 8 ∷ [];
  missing_locations = 7 ∷ 9 ∷ [];
  goal_level = 30;
  level = 10;
  money = 5000;
}

price_of_cheap : get_price shop 30 cheap ≡ 1050
unfolding get_price get_tier_price tier_price tier_size
price_of_cheap = refl

bought : Buyer
unfolding buy is_location_checked contains
bought = (buy 150 buyer cheap).0

money_left : bought.money ≡ 3950
unfolding bought get_price get_tier_price tier_price tier_size
money_left = refl

buy-buy_example : (buy 150 (buy 150 buyer cheap).0 cheap).0 ≡ (buy 150 buyer cheap).0
buy-buy_example = buy-buy 150 buyer cheap
