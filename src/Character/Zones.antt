-- ===== src/Character/Zones.antt =====
-- The locked zones of AP_Character.cpp: what is locked, and where a character is sent back to.
pub mod Open
mod Examples
use mod_i_found_your_sword.Prelude.{
  ℕ, ◌+◌, ◌-◌, Bool, true, false, not, ◌&&◌, ◌||◌, List, [], ◌∷◌, ◌++◌, Option, none, some,
  if◌then◌else◌, ltb, ◌==◌, ℕ-eq, contains, add,
}
use mod_i_found_your_sword.Items.Tables.{ZoneItem}

-- A place stands for a map and coordinates on it, and times are seconds.
pub record Roamer : Type 0 where
  pub items_synced : Bool
  pub zone_ids : List ℕ  -- `items.zones`, the restricted ones
  pub zones : List ZoneItem
  pub unlocked_zones : List ℕ
  pub last_unlocked_place : ℕ
  pub last_unlocked_time : ℕ
  pub next_locked_zone_check : ℕ
  pub place : ℕ  -- the player's
  pub in_flight : Bool
  pub sent_back : ℕ  -- how often

-- What the server says of places and maps.
pub record Atlas : Type 0 where
  pub zone_of : ℕ → ℕ
  pub instanceable : ℕ → Option Bool  -- the map's entry

unfoldable pub is_zone_unlocked : Roamer → ℕ → Bool
is_zone_unlocked c zone = contains zone c.unlocked_zones

unfoldable pub is_zone_locked : Roamer → ℕ → Bool
unfolding is_zone_unlocked
is_zone_locked c zone = contains zone c.zone_ids && not (is_zone_unlocked c zone)

-- The loop of `IsDungeonLocked`.
unfoldable pub locked_on : Roamer → ℕ → List ZoneItem → Bool
unfolding is_zone_locked
locked_on c map [] = false
locked_on c map (z ∷ zs) =
    let rest = locked_on c map zs in if z.zone_map == map then is_zone_locked c z.zone_id else rest

unfoldable pub is_dungeon_locked : Atlas → Roamer → ℕ → Bool
unfolding locked_on
is_dungeon_locked a c map = elim (a.instanceable map) [
  | none ↦ false
  | some instanceable ↦ if not instanceable then false else locked_on c map c.zones
]

unfoldable pub check_is_in_locked_zone : Atlas → ℕ → Roamer → Roamer
unfolding is_zone_locked
check_is_in_locked_zone a now c =
    if not c.items_synced || ltb now c.next_locked_zone_check
    then c
    else let c' : Roamer = record c { next_locked_zone_check = now + 1 } in
      if not (is_zone_locked c (a.zone_of c.place))
      then c'
      else if c.in_flight
      then c'
      else record c {
        last_unlocked_time = now;
        next_locked_zone_check = now + 6;
        place = c.last_unlocked_place;
        sent_back = c.sent_back + 1;
      }

unfoldable pub save_position : Atlas → ℕ → Roamer → Roamer
unfolding is_zone_locked
save_position a now c =
    if ltb (now - c.last_unlocked_time) 15
    then c
    else if c.in_flight
    then c
    else if is_zone_locked c (a.zone_of c.place)
    then c
    else record c { last_unlocked_place = c.place; last_unlocked_time = now }

-- What `Update` does of this.
unfoldable pub update : Atlas → ℕ → Roamer → Roamer
unfolding check_is_in_locked_zone save_position
update a now c = save_position a now (check_is_in_locked_zone a now c)

-- A character that logs in at a place, at a time. The slot data has not arrived yet.
unfoldable pub log_in : ℕ → ℕ → Roamer
log_in place now = record {
  items_synced = false;
  zone_ids = [];
  zones = [];
  unlocked_zones = [];
  last_unlocked_place = place;
  last_unlocked_time = now;
  next_locked_zone_check = now + 6;
  place = place;
  in_flight = false;
  sent_back = 0;
}

-- The slot data and the items that the slot has received.
unfoldable pub sync : List ℕ → List ZoneItem → List ℕ → Roamer → Roamer
sync ids zones unlocked c = record c {
  items_synced = true;
  zone_ids = ids;
  zones = zones;
  unlocked_zones = unlocked;
}

unfoldable pub unlock : ℕ → Roamer → Roamer
unlock zone c = record c { unlocked_zones = add zone c.unlocked_zones }
