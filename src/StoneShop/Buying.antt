-- ===== src/StoneShop/Buying.antt =====
-- What a purchase in the shop of AP_StoneShop.cpp does, and what its window offers.
use mathlib.Core.List.{Memᴰ}
use mod_i_found_your_sword.Prelude.{
  ℕ, zero, suc, ◌+◌, ◌-◌, ◌≤◌, ◌<◌, ◌≡◌, ◌≢◌, refl, sym, ap, subst, ◌∙◌, ◌⊎◌, ◌↔◌, inr, Bool, true,
  false, List, [], ◌∷◌, some, if◌then◌else◌, arith, leb, length, get_elem?, contains, ℕ-eq,
}
use mod_i_found_your_sword.StoneShop.{
  ShopItem, Buyer, sold_out, Row, is_location_checked, any_left, has_items_left, rows_from, rows,
  open_shop, get_item, buy, get_price,
}

-- A purchase either changes nothing, or takes the price, which the player had, and checks the
-- location, which was not checked, in the slot and at a level that the item is on sale at.
pub buy-charges :
    (n : ℕ) (b : Buyer) (item : ShopItem)
    → let b' = (buy n b item).0 in
      let price = get_price b.shop_items b.goal_level item in
      (b' ≡ b)
      ⊎ ((b'.money + price ≡ b.money)
          × (is_location_checked b' item.location_id ≡ true)
          × (is_location_checked b item.location_id ≡ false)
          × (b.is_slot_connected ≡ true)
          × (item.level ≤ b.level))
unfolding buy is_location_checked contains
buy-charges n b item = ground arith

-- The same item is never paid for twice: buying it again leaves everything as the first time did.
pub buy-buy :
    (n : ℕ) (b : Buyer) (item : ShopItem) → (buy n (buy n b item).0 item).0 ≡ (buy n b item).0
unfolding buy is_location_checked contains
buy-buy n b item = ground arith

-- A row offers an item that is not checked, under the entry that its purchase comes back with and at
-- the price that the purchase takes.
abbrev pub IsOffer : ℕ → Buyer → Row → Type 0
IsOffer n b (slot, entry, price) =
    (item : ShopItem) × (get_item n b entry ≡ some item)
    × (is_location_checked b item.location_id ≡ false)
    × (price ≡ get_price b.shop_items b.goal_level item)
    × (slot + 100599 ≡ entry)

-- `items` are those from index `i` on.
abbrev IsTail : List ShopItem → ℕ → List ShopItem → Type 0
IsTail all i items = (k : ℕ) → get_elem? all (i + k) ≡ get_elem? items k

get_elem-lt :
    (items : List ShopItem) (i : ℕ) (item : ShopItem)
    → get_elem? items i ≡ some item
    → i < length items
get_elem-lt [] i item h = cc
get_elem-lt (x ∷ items) zero item h = omega arith
get_elem-lt (x ∷ items) (suc i) item h = omega (arith, get_elem-lt items i item h)

offer_lem :
    (n : ℕ) (b : Buyer) (i : ℕ) (item : ShopItem)
    → i < n
    → get_elem? b.shop_items i ≡ some item
    → get_item n b (100600 + i) ≡ some item
unfolding get_item
offer_lem n b i item h e =
    let back : 100600 + i - 100600 ≡ i = omega arith in
    rw back (ground (arith, get_elem-lt b.shop_items i item e))

rows_from-IsOffer :
    (n : ℕ) (b : Buyer) (i : ℕ) (items : List ShopItem) (row : Row)
    → IsTail b.shop_items i items
    → Memᴰ row (rows_from n b i items)
    → IsOffer n b row
unfolding rows_from
rows_from-IsOffer n b i [] row t m = elim m [ ]
rows_from-IsOffer n b i (item ∷ items) row t m =
    go
      (rows_from-IsOffer n b (suc i) items row
        λ k. ap (get_elem? b.shop_items) (omega arith) ∙ t (suc k))
      (leb n i) (is_location_checked b item.location_id) refl refl m
  where
    go :
        (Memᴰ row (rows_from n b (suc i) items) → IsOffer n b row)
        → (full checked : Bool) → leb n i ≡ full
        → is_location_checked b item.location_id ≡ checked
        → Memᴰ row (
            if full
            then []
            else if checked
            then rows_from n b (suc i) items
            else (suc i, 100600 + i, get_price b.shop_items b.goal_level item)
              ∷ rows_from n b (suc i) items)
        → IsOffer n b row
    go below true checked f c m = elim m [ ]
    go below false true f c m = below m
    go below false false f c (Memᴰ.tail m) = below m
    go below false false f c (Memᴰ.head e) = subst (IsOffer n b) (sym e) (
      item,
      offer_lem n b i item (ground arith) (ap (get_elem? b.shop_items) (omega arith) ∙ t 0),
      c,
      refl,
      omega arith,
    )

-- Every row of the merchant window is such an offer.
pub rows-IsOffer : (n : ℕ) (b : Buyer) (row : Row) → Memᴰ row (rows n b) → IsOffer n b row
unfolding rows
rows-IsOffer n b row m =
    rows_from-IsOffer n b 0 b.shop_items row (λ k. ap (get_elem? b.shop_items) (omega arith)) m

rows_from-any_left :
    (n : ℕ) (b : Buyer) (i : ℕ) (items : List ShopItem)
    → i + length items ≤ n
    → (rows_from n b i items ≢ []) ⊎ (any_left b items ≡ false)
unfolding rows_from any_left
rows_from-any_left n b i [] h = inr refl
rows_from-any_left n b i (item ∷ items) h =
    ground (arith, rows_from-any_left n b (suc i) items (omega arith))

rows_from-none_left :
    (n : ℕ) (b : Buyer) (i : ℕ) (items : List ShopItem)
    → any_left b items ≡ false
    → rows_from n b i items ≡ []
unfolding rows_from any_left
rows_from-none_left n b i [] h = refl
rows_from-none_left n b i (item ∷ items) h = ground (arith, rows_from-none_left n b (suc i) items)

-- For a shop that the merchant window holds, the shop counts as sold out exactly where opening it shows
-- no item.
pub open_shop-sold_out :
    (n : ℕ) (b : Buyer)
    → length b.shop_items ≤ n
    → (open_shop n b ≡ sold_out) ↔ (has_items_left b ≡ false)
unfolding open_shop rows has_items_left
open_shop-sold_out n b h = ground (
  arith,
  rows_from-any_left n b 0 b.shop_items (omega arith),
  rows_from-none_left n b 0 b.shop_items,
)
