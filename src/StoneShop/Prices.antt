-- ===== src/StoneShop/Prices.antt =====
-- The prices of AP_StoneShop.cpp.
use mathlib.Core.List.{Memᴰ}
use native.Mathlib.Nat.{mul-div-le}
use mod_i_found_your_sword.Prelude.{ℕ, ◌-◌, ◌*◌, ◌≤◌, ◌<◌, min, ap, List, [], ◌∷◌, arith}
use mod_i_found_your_sword.StoneShop.{
  ShopItem, shop_prices, tier_price, get_tier_price, tier_size, get_price,
}

-- Prices that only rise, from `price` on.
abbrev IsRising : ℕ → List (ℕ × ℕ) → Type 0
IsRising price [] = Unit {0}
IsRising price ((tier, cost) ∷ tiers) = (price ≤ cost) × IsRising cost tiers

IsRising-weaken : (p q : ℕ) (tiers : List (ℕ × ℕ)) → p ≤ q → IsRising q tiers → IsRising p tiers
IsRising-weaken p q [] h r = tt
IsRising-weaken p q ((tier, cost) ∷ tiers) h (a, r) = (omega arith, r)

tier_price-le :
    (l l' p p' : ℕ) (tiers : List (ℕ × ℕ))
    → l ≤ l'
    → p ≤ p'
    → IsRising p' tiers
    → tier_price l tiers p ≤ tier_price l' tiers p'
unfolding tier_price
tier_price-le l l' p p' [] h g r = g
tier_price-le l l' p p' ((tier, cost) ∷ tiers) h g (a, r) = ground (
  arith,
  tier_price-le l l' cost cost tiers h (omega arith) r,
  tier_price-le l l' p cost tiers h (omega arith) r,
  tier_price-le l l' p p' tiers h g (IsRising-weaken p' cost tiers a r),
)

shop_prices-IsRising : IsRising 140 shop_prices
shop_prices-IsRising = ground arith

-- A later tier never costs less, and neither does the same tier in a run to a higher level, where both
-- runs have a level to stop at that the shop looks at.
pub get_tier_price-le :
    (level level' goal goal' : ℕ)
    → level ≤ level'
    → 6 < goal
    → goal ≤ goal'
    → get_tier_price level goal ≤ get_tier_price level' goal'
unfolding get_tier_price
get_tier_price-le level level' goal goal' h six g =
    let rise =
      tier_price-le (min level (goal - 6)) (min level' (goal' - 6)) 140 140 shop_prices
        (omega arith) (omega arith) shop_prices-IsRising in
    ground (arith, rise)

tier_size-positive :
    (item : ShopItem) (items : List ShopItem) → Memᴰ item items → 0 < tier_size item.level items
unfolding tier_size
tier_size-positive item [] m = elim m [ ]
tier_size-positive item (x ∷ items) (Memᴰ.head e) = ground (arith, ap (λ (i : ShopItem). i.level) e)
tier_size-positive item (x ∷ items) (Memᴰ.tail m) = ground (arith, tier_size-positive item items m)

-- For an item of the shop the tier is not empty, so that its price is not divided by zero, and the
-- tier's items together never cost more than three times its price.
pub get_price-shared :
    (items : List ShopItem) (goal : ℕ) (item : ShopItem)
    → Memᴰ item items
    → (0 < tier_size item.level items)
      × (tier_size item.level items * get_price items goal item
          ≤ get_tier_price item.level goal * 3)
unfolding get_price
get_price-shared items goal item m = (
  tier_size-positive item items m,
  mul-div-le (get_tier_price item.level goal * 3) (tier_size item.level items),
)
