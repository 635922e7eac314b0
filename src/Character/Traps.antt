-- ===== src/Character/Traps.antt =====
-- The traps of AP_Character.cpp: `ReceiveTrap`, `SpringTrap`, `SpringPendingTraps`, and the column of
-- the preferences that keeps those that wait.
pub mod Text
pub mod RoundTrip
pub mod Springs
pub mod Pass
mod Examples
use mod_i_found_your_sword.Prelude.{
  ℕ, ◌+◌, Bool, true, false, not, ◌&&◌, ◌||◌, List, [], ◌∷◌, ◌++◌, Option, none, some,
  if◌then◌else◌, ◌==◌, ltb, contains, erase, length, ◌≡◌, ◌↔◌, arith, Eq, ℕ-eq,
}
use mod_i_found_your_sword.Items.Tables.{
  TrapType, teleport, ambush, disarm, bombs, sheep, dazed, shackle, poison, trap_value, ZoneItem,
}
use mod_i_found_your_sword.Character.Traps.Text.{Bytes, print_traps}

abbrev pub same_trap : TrapType → TrapType → Bool
same_trap s t = trap_value s == trap_value t

pub same_trap_iff : (s t : TrapType) → (same_trap s t ≡ true) ↔ (s ≡ t)
same_trap_iff s t = ground arith

instance abbrev pub TrapType-eq : Eq TrapType
TrapType-eq = record { test = same_trap; test_iff = same_trap_iff }

-- What `CanSpring` reads of the player.
pub record PlayerState : Type 0 where
  pub in_world : Bool
  pub alive : Bool
  pub being_teleported : Bool
  pub in_flight : Bool
  pub in_vehicle : Bool
  pub in_battleground_or_arena : Bool
  pub flying : Bool
  pub mounted : Bool
  pub map_instanceable : Bool
  pub falling : Bool

-- `CanSpring` of AP_Traps.cpp.
unfoldable pub can_spring : PlayerState → TrapType → Bool
can_spring p t =
    if not p.in_world || not p.alive || p.being_teleported || p.in_flight || p.in_vehicle
    then false
    else if p.in_battleground_or_arena
    then false
    else elim t [
      | sheep ↦ not p.flying
      | ambush ↦ not p.flying
      | bombs ↦ not p.flying && not p.mounted
      | teleport ↦ not p.map_instanceable && not p.falling
      | dazed ↦ true
      | shackle ↦ true
      | poison ↦ true
      | disarm ↦ true
    ]

pub data TrapEffect : Type 0 where
  teleport_to_spot : ℕ → TrapEffect  -- its map
  teleport_to_zone : ℕ → TrapEffect  -- its id
  cast_teleport : TrapEffect
  spawn_ambush : TrapEffect
  start_bomb_run : TrapEffect
  drop_weapons : TrapEffect
  apply_aura : TrapType → TrapEffect
  tell_waiting : TrapType → TrapEffect
  tell_fell : TrapType → TrapEffect
  tell_nothing_slipped : TrapEffect
  spring : TrapType → TrapEffect  -- the call of `SpringTrap`

-- What the traps ask of the server, after what they had it do.
pub record TrapWorld : Type 0 where
  pub player : List TrapEffect → PlayerState
  pub instanceable : ℕ → Option Bool  -- the map's entry
  pub find_teleport_spot : List (ℕ × ℕ) → Option ℕ  -- the spot's map
  pub choose_zone : ZoneItem → List ZoneItem → ZoneItem  -- `SelectRandomContainerElement`
  pub dropped : ℕ  -- what `DropWeapons` returns
  pub aura_applies : TrapType → Bool
  pub now : ℕ  -- milliseconds

pub record Trapped : Type 0 where
  pub pending_traps : List TrapType
  pub traps_held_until : ℕ
  pub bomb_run : Bool
  pub max_level : ℕ
  pub zones : List ZoneItem  -- the slot's, in the order of their map
  pub unlocked_zones : List ℕ
  pub saved_traps : Bytes  -- in the database
  pub out : List TrapEffect

unfoldable pub emit : TrapEffect → Trapped → Trapped
emit e c = record c { out = c.out ++ e ∷ [] }

-- `SavePreferences`, of the traps.
unfoldable pub save_preferences : Trapped → Trapped
unfolding print_traps
save_preferences c = record c { saved_traps = print_traps [] c.pending_traps }

unfoldable pub receive_trap : TrapWorld → TrapType → Trapped → Trapped
unfolding can_spring emit save_preferences
receive_trap w t c =
    let can = can_spring (w.player c.out) t in
    let c' = record c { pending_traps = c.pending_traps ++ t ∷ [] } in
    if can then c' else emit (tell_waiting t) (save_preferences c')

unfoldable pub is_open : TrapWorld → List ℕ → ZoneItem → Bool
is_open w unlocked zone =
    contains zone.zone_id unlocked
    && elim (w.instanceable zone.zone_map) [ some instanceable ↦ not instanceable | none ↦ false ]

unfoldable pub open_zones : TrapWorld → List ℕ → List ZoneItem → List ZoneItem
unfolding is_open
open_zones w unlocked [] = []
open_zones w unlocked (z ∷ zs) =
    let rest = open_zones w unlocked zs in if is_open w unlocked z then z ∷ rest else rest

unfoldable pub zone_maps : List ZoneItem → List (ℕ × ℕ)
zone_maps [] = []
zone_maps (z ∷ zs) = (z.zone_id, z.zone_map) ∷ zone_maps zs

unfoldable pub fell : TrapType → Trapped → Trapped
unfolding emit
fell t c = emit (tell_fell t) c

unfoldable pub spring_teleport : TrapWorld → Trapped → Trapped
unfolding open_zones zone_maps emit fell
spring_teleport w c =
    let zones = open_zones w c.unlocked_zones c.zones in
    elim (w.find_teleport_spot (zone_maps zones)) [
      | some spot ↦ fell teleport (emit cast_teleport (emit (teleport_to_spot spot) c))
      | none ↦ elim zones [
        | [] ↦ c
        | z ∷ zs ↦
            fell teleport
              (emit cast_teleport (emit (teleport_to_zone (w.choose_zone z zs).zone_id) c))
      ]
    ]

unfoldable pub spring_aura : TrapWorld → TrapType → Trapped → Trapped
unfolding emit fell
spring_aura w t c =
    if w.aura_applies t then fell t (emit (apply_aura t) c) else emit (apply_aura t) c

unfoldable pub spring_trap : TrapWorld → TrapType → Trapped → Trapped
unfolding emit fell spring_teleport spring_aura
spring_trap w teleport c = spring_teleport w (emit (spring teleport) c)
spring_trap w ambush c = fell ambush (emit spawn_ambush (emit (spring ambush) c))
spring_trap w bombs c =
    fell bombs (record (emit start_bomb_run (emit (spring bombs) c)) { bomb_run = true })
spring_trap w disarm c =
    let c' = emit drop_weapons (emit (spring disarm) c) in
    if w.dropped == 0 then emit tell_nothing_slipped c' else fell disarm c'
spring_trap w dazed c = spring_aura w dazed (emit (spring dazed) c)
spring_trap w shackle c = spring_aura w shackle (emit (spring shackle) c)
spring_trap w sheep c = spring_aura w sheep (emit (spring sheep) c)
spring_trap w poison c = spring_aura w poison (emit (spring poison) c)

-- The loop, with what is left waiting.
unfoldable pub spring_each :
    TrapWorld → List TrapType → List TrapType → Trapped → Trapped × List TrapType
unfolding can_spring spring_trap
spring_each w [] waiting c = (c, waiting)
spring_each w (t ∷ ts) waiting c =
    if can_spring (w.player c.out) t && not (same_trap t bombs && c.bomb_run)
    then spring_each w ts waiting (spring_trap w t c)
    else spring_each w ts (waiting ++ t ∷ []) c

abbrev pub trap_delay_after_teleport : ℕ
trap_delay_after_teleport = 3000

-- `pendingTraps.erase(teleport)`: the first of them.
unfoldable pub erase_first : TrapType → List TrapType → List TrapType
erase_first t [] = []
erase_first t (u ∷ us) = if same_trap u t then us else u ∷ erase_first t us

unfoldable pub spring_pending_traps : TrapWorld → Trapped → Trapped
unfolding can_spring spring_trap spring_each save_preferences erase_first
spring_pending_traps w c =
    if length c.pending_traps == 0 || c.max_level == 0
    then c
    else if (w.player c.out).being_teleported
    then record c { traps_held_until = w.now + trap_delay_after_teleport }
    else if ltb w.now c.traps_held_until
    then c
    else if contains teleport c.pending_traps && can_spring (w.player c.out) teleport
    then record (spring_trap w teleport
        (save_preferences (record c { pending_traps = erase_first teleport c.pending_traps }))) {
          traps_held_until = w.now + trap_delay_after_teleport;
        }
    else let pass = spring_each w c.pending_traps [] c in
      if length pass.1 == length c.pending_traps
      then pass.0
      else save_preferences (record pass.0 { pending_traps = pass.1 })
