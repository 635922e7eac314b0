-- ===== src/Character/Zones/Examples.antt =====
-- A character of AP_Character.cpp in and out of locked zones.
use mod_i_found_your_sword.Prelude.{
  ◌+◌, ◌≡◌, refl, true, false, [], ◌∷◌, none, arith, contains, ℤ-eq,
}
use mod_i_found_your_sword.Prelude.{ℕ-eq}
use mod_i_found_your_sword.Character.Zones.{
  Roamer, Atlas, is_zone_locked, is_zone_unlocked, check_is_in_locked_zone, save_position, update,
  log_in, sync,
}
use mod_i_found_your_sword.Character.Zones.Open.{updates, IsStuck, log_in-IsStuck}

abbrev atlas : Atlas
atlas = record { zone_of = λ place. place; instanceable = λ map. none }

abbrev roamer : Roamer
roamer = record {
  items_synced = true;
  zone_ids = 1 ∷ 2 ∷ [];
  zones = [];
  unlocked_zones = 1 ∷ [];
  last_unlocked_place = 1;
  last_unlocked_time = 0;
  next_locked_zone_check = 6;
  place = 1;
  in_flight = false;
  sent_back = 0;
}

log_in-IsStuck_example :
    IsStuck atlas 2 (updates atlas (6 ∷ 12 ∷ []) (sync (2 ∷ []) [] [] (log_in 2 0)))
    × ((update atlas 18 (updates atlas (6 ∷ 12 ∷ []) (sync (2 ∷ []) [] [] (log_in 2 0)))).sent_back
        ≡ (updates atlas (6 ∷ 12 ∷ []) (sync (2 ∷ []) [] [] (log_in 2 0))).sent_back + 1)
unfolding updates update check_is_in_locked_zone save_position is_zone_locked is_zone_unlocked sync
    log_in contains
log_in-IsStuck_example = log_in-IsStuck atlas 2 0 (2 ∷ []) [] [] (6 ∷ 12 ∷ []) 18 refl (omega arith)
