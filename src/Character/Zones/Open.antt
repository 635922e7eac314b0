-- ===== src/Character/Zones/Open.antt =====
-- Where a character of AP_Character.cpp ends up that walks into locked zones.
use mod_i_found_your_sword.Prelude.{
  ℕ, ◌+◌, ◌≤◌, ◌≡◌, refl, Bool, true, false, List, [], ◌∷◌, ℕ-eq, arith,
}
use mod_i_found_your_sword.Items.Tables.{ZoneItem}
use mod_i_found_your_sword.Character.Zones.{
  Roamer, Atlas, is_zone_unlocked, is_zone_locked, check_is_in_locked_zone, save_position, update,
  log_in, sync, unlock,
}

-- What happens to a character once its items are known: the player goes somewhere, on foot or in flight,
-- a zone item arrives, or an update runs.
pub data Event : Type 0 where
  go : ℕ → Bool → Event
  receive_zone : ℕ → Event
  update_at : ℕ → Event

unfoldable pub on_event : Atlas → Event → Roamer → Roamer
unfolding unlock update
on_event a (go place in_flight) c = record c { place = place; in_flight = in_flight }
on_event a (receive_zone zone) c = unlock zone c
on_event a (update_at now) c = update a now c

unfoldable pub run : Atlas → List Event → Roamer → Roamer
unfolding on_event
run a [] c = c
run a (e ∷ es) c = run a es (on_event a e c)

-- The place to be sent back to is not in a locked zone.
abbrev pub IsOpen : Atlas → Roamer → Type 0
IsOpen a c = is_zone_locked c (a.zone_of c.last_unlocked_place) ≡ false

-- An update for each of these times, without the player going anywhere.
unfoldable pub updates : Atlas → List ℕ → Roamer → Roamer
unfolding update
updates a [] c = c
updates a (now ∷ more) c = updates a more (update a now c)

-- The player stands in a locked zone at the very place that it is sent back to.
pub record IsStuck (a : Atlas) (place : ℕ) (c : Roamer) : Type 0 where
  pub here : c.place ≡ place
  pub back : c.last_unlocked_place ≡ place
  pub locked : is_zone_locked c (a.zone_of place) ≡ true
  pub synced : c.items_synced ≡ true
  pub grounded : c.in_flight ≡ false

update-IsStuck :
    (a : Atlas) (place now : ℕ) (c : Roamer) → IsStuck a place c → IsStuck a place (update a now c)
unfolding update check_is_in_locked_zone save_position is_zone_locked is_zone_unlocked
update-IsStuck a place now c s = ground (arith, s.here, s.back, s.locked, s.synced, s.grounded)

updates-IsStuck :
    (a : Atlas) (place : ℕ) (times : List ℕ) (c : Roamer)
    → IsStuck a place c
    → IsStuck a place (updates a times c)
unfolding updates
updates-IsStuck a place [] c s = s
updates-IsStuck a place (now ∷ more) c s =
    updates-IsStuck a place more (update a now c) (update-IsStuck a place now c s)

update-sent_back :
    (a : Atlas) (place now : ℕ) (c : Roamer)
    → IsStuck a place c
    → c.next_locked_zone_check ≤ now
    → (update a now c).sent_back ≡ c.sent_back + 1
unfolding update check_is_in_locked_zone save_position is_zone_locked is_zone_unlocked
update-sent_back a place now c s due =
    ground (arith, s.here, s.back, s.locked, s.synced, s.grounded, due)

-- A character that logs in at a place whose zone turns out to be locked once the items are known is not
-- brought out of it: however many updates run, it stands at that place in the locked zone, and each
-- further update whose check is due sends it back there once more.
pub log_in-IsStuck :
    (a : Atlas) (place start : ℕ) (ids : List ℕ) (zones : List ZoneItem) (unlocked times : List ℕ)
    (now : ℕ)
    → is_zone_locked (sync ids zones unlocked (log_in place start)) (a.zone_of place) ≡ true
    → (updates a times (sync ids zones unlocked (log_in place start))).next_locked_zone_check ≤ now
    → IsStuck a place (updates a times (sync ids zones unlocked (log_in place start)))
      × ((update a now (updates a times (sync ids zones unlocked (log_in place start)))).sent_back
          ≡ (updates a times (sync ids zones unlocked (log_in place start))).sent_back + 1)
log_in-IsStuck a place start ids zones unlocked times now h due =
    let c = sync ids zones unlocked (log_in place start) in
    let stuck : IsStuck a place c =
      unfold sync in
      unfold log_in in
      record { here = refl; back = refl; locked = h; synced = refl; grounded = refl } in
    let later = updates-IsStuck a place times c stuck in
    (later, update-sent_back a place now (updates a times c) later due)
