-- ===== src/Character/Traps/Examples.antt =====
-- A character of AP_Character.cpp with traps waiting.
use mod_i_found_your_sword.Prelude.{
  ◌≡◌, refl, true, false, [], ◌∷◌, none, some, if◌then◌else◌, ℤ-eq,
}
use mod_i_found_your_sword.Items.Tables.{bombs, teleport, sheep}
use mod_i_found_your_sword.Character.Traps.{
  PlayerState, TrapWorld, Trapped, can_spring, receive_trap, spring_pending_traps,
}
use mod_i_found_your_sword.Character.Traps.Text.{print_traps, load_traps}
use mod_i_found_your_sword.Character.Traps.RoundTrip.{load_traps-print_traps}
use mod_i_found_your_sword.Character.Traps.Pass.{
  Passes, spring_pending_traps-Passes, pass_all, are_held, load-receive_trap,
}
use mod_i_found_your_sword.Prelude.{ℕ-eq}

abbrev standing : PlayerState
standing = record {
  in_world = true;
  alive = true;
  being_teleported = false;
  in_flight = false;
  in_vehicle = false;
  in_battleground_or_arena = false;
  flying = false;
  mounted = false;
  map_instanceable = false;
  falling = false;
}

abbrev trap_world : TrapWorld
trap_world = record {
  player = λ done. standing;
  instanceable = λ map. some false;
  find_teleport_spot = λ maps. none;
  choose_zone = λ z zs. z;
  dropped = 1;
  aura_applies = λ t. true;
  now = 5000;
}

abbrev trapped : Trapped
trapped = record {
  pending_traps = bombs ∷ sheep ∷ bombs ∷ [];
  traps_held_until = 4000;
  bomb_run = false;
  max_level = 80;
  zones = [];
  unlocked_zones = [];
  saved_traps = print_traps [] (bombs ∷ sheep ∷ bombs ∷ []);
  out = [];
}

spring_pending_traps-Passes_example : Passes trapped (spring_pending_traps trap_world trapped)
spring_pending_traps-Passes_example = spring_pending_traps-Passes trap_world trapped

-- The character was teleported a second ago.
abbrev held : Trapped
held = record trapped { traps_held_until = 7000 }

load-receive_trap_example :
    ((pass_all (trap_world ∷ trap_world ∷ []) (receive_trap trap_world teleport held)).pending_traps
      ≡ bombs ∷ sheep ∷ bombs ∷ teleport ∷ [])
    × (load_traps
          (pass_all
            (trap_world ∷ trap_world ∷ [])
            (receive_trap trap_world teleport held)).saved_traps
        ≡ some (
            if can_spring (trap_world.player held.out) teleport
            then held.pending_traps
            else bombs ∷ sheep ∷ bombs ∷ teleport ∷ []))
unfolding are_held receive_trap
load-receive_trap_example =
    load-receive_trap trap_world teleport held (trap_world ∷ trap_world ∷ []) refl refl

load_traps-print_traps_example :
    load_traps (print_traps [] (bombs ∷ sheep ∷ [])) ≡ some (bombs ∷ sheep ∷ [])
load_traps-print_traps_example = load_traps-print_traps (bombs ∷ sheep ∷ [])
