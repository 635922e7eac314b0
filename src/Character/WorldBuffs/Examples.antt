-- ===== src/Character/WorldBuffs/Examples.antt =====
-- A dead character of AP_Character.cpp that world buffs wait for.
use mod_i_found_your_sword.Prelude.{
  ◌-◌, ℕ, ◌+◌, ◌≤◌, pos, ◌≡◌, refl, true, false, List, [], ◌∷◌, arith, contains, ℤ-eq,
}
use mod_i_found_your_sword.Prelude.{ℕ-eq}
use mod_i_found_your_sword.Character.WorldBuffs.Waiting.{received, left, apply_pending-apply_times}
use mod_i_found_your_sword.Character.WorldBuffs.{
  BuffWorld, Buffed, apply_times, apply_pending_world_buffs,
}

abbrev buff_world : BuffWorld
buff_world = record {
  prefers_caster = true;
  has_spell_info = λ spell. contains spell (501 ∷ 502 ∷ 503 ∷ []);
  add_aura = λ spell. contains spell (501 ∷ 502 ∷ 503 ∷ []);
  draw = λ b bs. b;
}

abbrev buffed : Buffed
buffed = record {
  alive = false;
  buffs_item_id = pos 3;
  buffs_melee = [];
  buffs_caster = 501 ∷ 502 ∷ 503 ∷ [];
  auras = 502 ∷ [];
  pending_world_buffs = 0;
  saved_pending = 0;
  out = [];
}

draws_first : (b : ℕ) (bs : List ℕ) → contains b (b ∷ bs) ≡ true
draws_first b bs = unfold contains in ground arith

apply_pending-apply_times_example :
    ((apply_times buff_world 2 buffed).pending_world_buffs ≡ 2)
    × ((apply_times buff_world 2 buffed).saved_pending ≡ 2)
    × (received
          (apply_pending_world_buffs buff_world
            (record (apply_times buff_world 2 buffed) { alive = true })).out
        ≡ received [] + 2)
    × (left buff_world (
          apply_pending_world_buffs buff_world
            (record (apply_times buff_world 2 buffed) { alive = true }))
        ≤ left buff_world buffed - 2)
    × ((apply_pending_world_buffs buff_world
          (record (apply_times buff_world 2 buffed) { alive = true })).pending_world_buffs
        ≡ 0)
    × ((apply_pending_world_buffs buff_world
          (record (apply_times buff_world 2 buffed) { alive = true })).saved_pending
        ≡ 0)
apply_pending-apply_times_example =
    apply_pending-apply_times buff_world 2 buffed
      (record { known = λ spell own. own; applied = λ spell own. own; drawn = draws_first }) refl
      refl refl (omega arith) refl (omega arith)
