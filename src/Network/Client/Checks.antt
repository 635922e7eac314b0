-- ===== src/Network/Client/Checks.antt =====
-- `Client::LocationChecks` of network/AP_Client.cpp: where a checked location goes.
use mod_i_found_your_sword.Prelude.{
  ℤ, ◌==ℤ◌, ==ℤ_iff, ℤ-eq, contains, erase, contains-erase, ◌≡◌, ◌≢◌, ◌⊎◌, refl, true, false, List,
  [], ◌∷◌, ◌++◌, some, if◌then◌else◌, arith,
}
use mod_i_found_your_sword.Network.WebSocket
use mod_i_found_your_sword.Network.Client.Json.{JsonLib}
use mod_i_found_your_sword.Network.Client.State.{
  Client, Call, Packet, slot_connected, erase_all, insert_all, insert_sorted,
}
use mod_i_found_your_sword.Network.Client.Protocol.{location_checks}

contains-erase_all :
    (ls old : List ℤ) (x : ℤ)
    → contains x (erase_all ls old) ≡ (if contains x ls then false else contains x old)
unfolding erase_all contains
contains-erase_all [] old x = refl
contains-erase_all (l ∷ ls) old x =
    ground (arith, contains-erase_all ls (erase l old) x, contains-erase l x old)

pub contains-insert_sorted :
    (k x : ℤ) (old : List ℤ)
    → contains x (insert_sorted k old) ≡ (if k ==ℤ x then true else contains x old)
unfolding insert_sorted contains
contains-insert_sorted k x [] = ground arith
contains-insert_sorted k x (y ∷ old) =
    ground (arith, contains-insert_sorted k x old, ==ℤ_iff k y, ==ℤ_iff k x, ==ℤ_iff y x)

pub contains-insert_all :
    (ls old : List ℤ) (x : ℤ)
    → contains x (insert_all ls old) ≡ (if contains x ls then true else contains x old)
unfolding insert_all contains
contains-insert_all [] old x = refl
contains-insert_all (l ∷ ls) old x =
    ground (arith, contains-insert_all ls (insert_sorted l old) x, contains-insert_sorted l x old)

module _ {J : JsonLib} where
  -- Reporting checks takes exactly those locations off the missing ones and succeeds, in every state.
  pub location_checks-missing :
      (ls : List ℤ) (c : Client J) (x : ℤ)
      → ((location_checks ls c).1 ≡ true)
        × (contains x (location_checks ls c).0.missing_locations
            ≡ (if contains x ls then false else contains x c.missing_locations))
  unfolding location_checks
  location_checks-missing ls c x = ground (arith, contains-erase_all ls c.missing_locations x)

  -- Before the slot is connected nothing is sent, and what waits to be sent is what waited before with
  -- the new locations added: no check is lost or invented.
  pub location_checks-queued :
      (ls : List ℤ) (c : Client J) (x : ℤ)
      → c.state ≢ slot_connected
      → ((location_checks ls c).0.out ≡ c.out)
        × (contains x (location_checks ls c).0.check_queue
            ≡ (if contains x ls then true else contains x c.check_queue))
  unfolding location_checks
  location_checks-queued ls c x st = ground (arith, contains-insert_all ls c.check_queue x)

  -- Once it is, the locations go out in one packet over a connected transport, and nothing is queued.
  -- Over a transport that is not connected, as before the close of a lost connection is polled, they
  -- are neither sent nor queued, and the call still succeeds.
  pub location_checks-sent :
      (ls : List ℤ) (c : Client J)
      → c.state ≡ slot_connected
      → ((location_checks ls c).0.check_queue ≡ c.check_queue)
        × ((location_checks ls c).1 ≡ true)
        × (((c.ws ≡ some WebSocket.connected)
              × ((location_checks ls c).0.out
                  ≡ c.out ++ Call.ws_send (Packet.location_checks ls) ∷ []))
            ⊎ ((c.ws ≢ some WebSocket.connected) × ((location_checks ls c).0.out ≡ c.out)))
  unfolding location_checks
  location_checks-sent ls c st = ground arith
