-- ===== src/Character/Traps/Springs.antt =====
-- `SpringTrap` of AP_Character.cpp, seen from the queue of the traps.
use mod_i_found_your_sword.Prelude.{
  ℕ, ◌+◌, ◌≡◌, refl, sym, ap, subst, ◌∙◌, inl, inr, true, false, ◌||◌, List, [], ◌∷◌, ◌++◌, Option,
  none, some, if◌then◌else◌, ◌==◌, length, contains, arith, append-nil, Bool-cases,
}
use mod_i_found_your_sword.Items.Tables.{
  TrapType, dazed, shackle, sheep, poison, teleport, ambush, disarm, bombs, ZoneItem,
}
use mod_i_found_your_sword.Character.Traps.{
  same_trap, same_trap_iff, TrapType-eq, TrapEffect, spring, teleport_to_spot, teleport_to_zone,
  cast_teleport, spawn_ambush, start_bomb_run, drop_weapons, apply_aura, tell_fell,
  tell_nothing_slipped, TrapWorld, Trapped, emit, open_zones, zone_maps, fell, spring_teleport,
  spring_aura, spring_trap, erase_first,
}

-- The traps that were sprung, in order.
unfoldable pub sprung : List TrapEffect → List TrapType
sprung [] = []
sprung (spring t ∷ es) = t ∷ sprung es
sprung (_ ∷ es) = sprung es

sprung-append : (es fs : List TrapEffect) → sprung (es ++ fs) ≡ sprung es ++ sprung fs
unfolding sprung
sprung-append [] fs = refl
sprung-append (e ∷ es) fs = ground (arith, sprung-append es fs)

-- What a list is dealt into, each part in the list's order.
pub data Dealt : List TrapType → List TrapType → List TrapType → Type 0 where
  none_left : Dealt [] [] []
  deal_left :
      {ls rs ts : List TrapType} (t : TrapType) → Dealt ls rs ts → Dealt (t ∷ ls) rs (t ∷ ts)
  deal_right :
      {ls rs ts : List TrapType} (t : TrapType) → Dealt ls rs ts → Dealt ls (t ∷ rs) (t ∷ ts)

pub Dealt-length : {ls rs ts : List TrapType} → Dealt ls rs ts → length ls + length rs ≡ length ts
Dealt-length none_left = omega arith
Dealt-length (deal_left t d) = omega (arith, Dealt-length d)
Dealt-length (deal_right t d) = omega (arith, Dealt-length d)

pub Dealt-none : (ts : List TrapType) → Dealt [] ts ts
Dealt-none [] = none_left
Dealt-none (t ∷ ts) = deal_right t (Dealt-none ts)

pub Dealt-erase_first :
    (t : TrapType) (ts : List TrapType)
    → contains t ts ≡ true
    → Dealt (t ∷ []) (erase_first t ts) ts
unfolding erase_first contains
Dealt-erase_first t [] h = absurd (ground (arith, h))
Dealt-erase_first t (u ∷ us) h = elim (Bool-cases (same_trap u t)) [
  | inl e ↦ rw e (
      subst (λ v. Dealt (t ∷ []) us (v ∷ us)) (sym ((same_trap_iff u t).0 e))
        (deal_left t (Dealt-none us)))
  | inr e ↦ rw e (deal_right u (Dealt-erase_first t us (ground (arith, h, e))))
]

abbrev pub bombs_in : List TrapType → ℕ
bombs_in [] = 0
bombs_in (t ∷ ts) = (if same_trap t bombs then 1 else 0) + bombs_in ts

-- Springing a trap, seen from the queue.
pub record Springs (t : TrapType) (c d : Trapped) : Type 0 where
  pub once : sprung d.out ≡ sprung c.out ++ t ∷ []
  pub same_pending : d.pending_traps ≡ c.pending_traps
  pub same_saved : d.saved_traps ≡ c.saved_traps
  pub bombing : d.bomb_run ≡ (c.bomb_run || same_trap t bombs)

sprung-emit :
    (e : TrapEffect) (c : Trapped) → sprung (emit e c).out ≡ sprung c.out ++ sprung (e ∷ [])
unfolding emit
sprung-emit e c = sprung-append c.out (e ∷ [])

-- What springs no trap and leaves the queue alone.
record Calm (c d : Trapped) : Type 0 where
  none_sprung : sprung d.out ≡ sprung c.out
  same_pending : d.pending_traps ≡ c.pending_traps
  same_saved : d.saved_traps ≡ c.saved_traps
  same_run : d.bomb_run ≡ c.bomb_run

Calm-refl : (c : Trapped) → Calm c c
Calm-refl c = ground arith

Calm-trans : {c d e : Trapped} → Calm c d → Calm d e → Calm c e
Calm-trans f g = ground arith

emit-Calm : (e : TrapEffect) (c : Trapped) → sprung (e ∷ []) ≡ [] → Calm c (emit e c)
unfolding emit
emit-Calm e c h = record {
  none_sprung =
      sprung-append c.out (e ∷ []) ∙ ap (λ ts. sprung c.out ++ ts) h ∙ append-nil (sprung c.out);
  same_pending = refl;
  same_saved = refl;
  same_run = refl;
}

fell-Calm :
    (e : TrapEffect) (t : TrapType) (c : Trapped)
    → sprung (e ∷ []) ≡ []
    → Calm c (fell t (emit e c))
unfolding fell sprung
fell-Calm e t c h = Calm-trans (emit-Calm e c h) (emit-Calm (tell_fell t) (emit e c) refl)

spring_teleport-Calm : (w : TrapWorld) (c : Trapped) → Calm c (spring_teleport w c)
unfolding spring_teleport sprung
spring_teleport-Calm w c =
    arrive (open_zones w c.unlocked_zones c.zones)
      (w.find_teleport_spot (zone_maps (open_zones w c.unlocked_zones c.zones)))
  where
    land :
        (e : TrapEffect)
        → sprung (e ∷ []) ≡ []
        → Calm c (fell teleport (emit cast_teleport (emit e c)))
    land e h = Calm-trans (emit-Calm e c h) (fell-Calm cast_teleport teleport (emit e c) refl)

    arrive :
        (zones : List ZoneItem) (spot : Option ℕ)
        → Calm c (elim spot [
          | some spot' ↦ fell teleport (emit cast_teleport (emit (teleport_to_spot spot') c))
          | none ↦ elim zones [
            | [] ↦ c
            | z ∷ zs ↦
                fell teleport
                  (emit cast_teleport (emit (teleport_to_zone (w.choose_zone z zs).zone_id) c))
          ]
        ])
    arrive zones (some spot) = land (teleport_to_spot spot) refl
    arrive [] none = Calm-refl c
    arrive (z ∷ zs) none = land (teleport_to_zone (w.choose_zone z zs).zone_id) refl

spring_aura-Calm : (w : TrapWorld) (t : TrapType) (c : Trapped) → Calm c (spring_aura w t c)
unfolding spring_aura sprung
spring_aura-Calm w t c =
    elim (w.aura_applies t)
      as (λ b. Calm c (if b then fell t (emit (apply_aura t) c) else emit (apply_aura t) c)) [
        | true ↦ fell-Calm (apply_aura t) t c refl
        | false ↦ emit-Calm (apply_aura t) c refl
      ]

spring_disarm-Calm :
    (w : TrapWorld) (c : Trapped)
    → Calm c (
        if w.dropped == 0
        then emit tell_nothing_slipped (emit drop_weapons c)
        else fell disarm (emit drop_weapons c))
unfolding sprung
spring_disarm-Calm w c =
    elim (w.dropped == 0)
      as (λ b. Calm c (
        if b
        then emit tell_nothing_slipped (emit drop_weapons c)
        else fell disarm (emit drop_weapons c))) [
          | true ↦
              Calm-trans (emit-Calm drop_weapons c refl)
                (emit-Calm tell_nothing_slipped (emit drop_weapons c) refl)
          | false ↦ fell-Calm drop_weapons disarm c refl
        ]

Springs-Calm :
    (t : TrapType) (c d : Trapped)
    → same_trap t bombs ≡ false
    → Calm (emit (spring t) c) d
    → Springs t c d
unfolding emit sprung
Springs-Calm t c d h f = record {
  once = f.none_sprung ∙ sprung-append c.out (spring t ∷ []);
  same_pending = f.same_pending;
  same_saved = f.same_saved;
  bombing = ground (arith, f.same_run, h);
}

spring_bombs-Springs :
    (c : Trapped)
    → Springs bombs c
        (fell bombs (record (emit start_bomb_run (emit (spring bombs) c)) { bomb_run = true }))
unfolding fell emit sprung
spring_bombs-Springs c =
    let c' : Trapped = record (emit start_bomb_run (emit (spring bombs) c)) { bomb_run = true } in
    record {
      once =
          (emit-Calm (tell_fell bombs) c' refl).none_sprung
          ∙ (emit-Calm start_bomb_run (emit (spring bombs) c) refl).none_sprung
          ∙ sprung-append c.out (spring bombs ∷ []);
      same_pending = refl;
      same_saved = refl;
      bombing = ground arith;
    }

pub spring_trap-Springs :
    (w : TrapWorld) (t : TrapType) (c : Trapped) → Springs t c (spring_trap w t c)
unfolding spring_trap
spring_trap-Springs w teleport c =
    Springs-Calm teleport c (spring_teleport w (emit (spring teleport) c)) refl
      (spring_teleport-Calm w (emit (spring teleport) c))
spring_trap-Springs w ambush c =
    Springs-Calm ambush c (fell ambush (emit spawn_ambush (emit (spring ambush) c))) refl
      (fell-Calm spawn_ambush ambush (emit (spring ambush) c) (unfold sprung in refl))
spring_trap-Springs w bombs c = spring_bombs-Springs c
spring_trap-Springs w disarm c =
    let c' = emit drop_weapons (emit (spring disarm) c) in
    Springs-Calm disarm c (if w.dropped == 0 then emit tell_nothing_slipped c' else fell disarm c')
      refl (spring_disarm-Calm w (emit (spring disarm) c))
spring_trap-Springs w dazed c =
    Springs-Calm dazed c (spring_aura w dazed (emit (spring dazed) c)) refl
      (spring_aura-Calm w dazed (emit (spring dazed) c))
spring_trap-Springs w shackle c =
    Springs-Calm shackle c (spring_aura w shackle (emit (spring shackle) c)) refl
      (spring_aura-Calm w shackle (emit (spring shackle) c))
spring_trap-Springs w sheep c =
    Springs-Calm sheep c (spring_aura w sheep (emit (spring sheep) c)) refl
      (spring_aura-Calm w sheep (emit (spring sheep) c))
spring_trap-Springs w poison c =
    Springs-Calm poison c (spring_aura w poison (emit (spring poison) c)) refl
      (spring_aura-Calm w poison (emit (spring poison) c))
