-- ===== src/Character/WorldBuffs.antt =====
-- The world buffs of AP_Character.cpp, and those that wait while the character is dead.
pub mod Waiting
mod Examples
use mod_i_found_your_sword.Prelude.{
  ℕ, zero, suc, ◌+◌, ◌-◌, ◌≤◌, ◌<◌, ◌%◌, ◌^◌, ℤ, pos, ◌==ℤ◌, ◌≡◌, refl, sym, ap, subst, ◌∙◌, Bool,
  true, false, not, ◌||◌, List, [], ◌∷◌, ◌++◌, if◌then◌else◌, ◌==◌, ==_iff, ℕ-eq, contains, add,
  contains-add, length, arith,
}

pub data BuffEffect : Type 0 where
  tell_waiting_buff : BuffEffect
  tell_not_applied : BuffEffect
  tell_received : ℕ → BuffEffect

-- What the server answers, and what it draws of a container.
pub record BuffWorld : Type 0 where
  pub prefers_caster : Bool
  pub has_spell_info : ℕ → Bool
  pub add_aura : ℕ → Bool
  pub draw : ℕ → List ℕ → ℕ  -- `SelectRandomContainerElement`

pub record Buffed : Type 0 where
  pub alive : Bool
  pub buffs_item_id : ℤ  -- `items.worldBuffs.apItemId`
  pub buffs_melee : List ℕ
  pub buffs_caster : List ℕ
  pub auras : List ℕ
  pub pending_world_buffs : ℕ
  pub saved_pending : ℕ  -- in the database
  pub out : List BuffEffect

unfoldable pub emit : BuffEffect → Buffed → Buffed
emit e c = record c { out = c.out ++ e ∷ [] }

unfoldable pub save_preferences : Buffed → Buffed
save_preferences c = record c { saved_pending = c.pending_world_buffs }

abbrev pub buffs_of : BuffWorld → Buffed → List ℕ
buffs_of w c = if w.prefers_caster then c.buffs_caster else c.buffs_melee

unfoldable pub missing_buffs : List ℕ → List ℕ → List ℕ
missing_buffs auras [] = []
missing_buffs auras (b ∷ bs) =
    let rest = missing_buffs auras bs in if contains b auras then rest else b ∷ rest

unfoldable pub apply_drawn : BuffWorld → ℕ → Buffed → Buffed
unfolding emit
apply_drawn w spell c =
    if not (w.has_spell_info spell)
    then c
    else if not (w.add_aura spell)
    then emit tell_not_applied c
    else emit (tell_received spell) (record c { auras = add spell c.auras })

unfoldable pub draw_from : BuffWorld → List ℕ → Buffed → Buffed
unfolding apply_drawn
draw_from w [] c = c
draw_from w (b ∷ bs) c = apply_drawn w (w.draw b bs) c

-- One that the character does not have yet, or any once it has them all.
unfoldable pub draw_buff : BuffWorld → List ℕ → List ℕ → Buffed → Buffed
unfolding draw_from
draw_buff w [] buffs c = draw_from w buffs c
draw_buff w (m ∷ ms) buffs c = draw_from w (m ∷ ms) c

unfoldable pub apply_world_buff : BuffWorld → Buffed → Buffed
unfolding emit save_preferences missing_buffs draw_buff
apply_world_buff w c =
    if not c.alive
    then emit tell_waiting_buff
        (save_preferences (record c { pending_world_buffs = (c.pending_world_buffs + 1) % 2 ^ 8 }))
    else draw_buff w (missing_buffs c.auras (buffs_of w c)) (buffs_of w c) c

unfoldable pub apply_times : BuffWorld → ℕ → Buffed → Buffed
unfolding apply_world_buff
apply_times w zero c = c
apply_times w (suc n) c = apply_times w n (apply_world_buff w c)

unfoldable pub apply_pending_world_buffs : BuffWorld → Buffed → Buffed
unfolding apply_times save_preferences
apply_pending_world_buffs w c =
    if c.pending_world_buffs == 0 || not c.alive || c.buffs_item_id ==ℤ pos 0
    then c
    else save_preferences
        (apply_times w c.pending_world_buffs (record c { pending_world_buffs = 0 }))
