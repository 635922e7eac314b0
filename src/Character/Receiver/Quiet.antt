-- ===== src/Character/Receiver/Quiet.antt =====
-- What a pass over an item of AP_Character.cpp leaves alone: the tables, the indices, and what is
-- handed out once for an item.
use mod_i_found_your_sword.Prelude.{
  ℕ, zero, suc, ◌-◌, ℤ, ◌≡◌, refl, ap, inl, inr, Bool, true, false, List, [], ◌∷◌, ◌++◌,
  if◌then◌else◌, arith, get_elem?, ℕ-eq, Option-cases,
}
use mod_i_found_your_sword.Items.Tables.{SpellItem, ProgressiveItem}
use mod_i_found_your_sword.Character.Receiver.{
  World, Receiver, Effect, mail_item, mail_step, mail_weapon, mail_gold, give_level,
  apply_world_buff, receive_trap, add_key, save_preferences, emit, mail,
}
use mod_i_found_your_sword.Character.Receiver.Granting.{
  learn_granted_spell, add_granted, grant_taught, taught_by, grant_spell, grant_riding_mount,
  grant_ranks, remove_spell_if_ungranted, remove_ungranted, sweep, remove_ungranted_spells,
}
use mod_i_found_your_sword.Character.Receiver.Heirlooms.{
  get_heirloom_weapon, get_pending_heirloom_weapons, sender_of, send_weapon, send_weapons,
  send_pending_heirloom_weapons,
}
use mod_i_found_your_sword.Character.Receiver.Receiving.{add_keys, pay_step}

-- What is handed out for an item once and for all.
abbrev pub is_once : Effect → Bool
is_once (mail_item _ _ _) = true
is_once (mail_gold _) = true
is_once give_level = true
is_once apply_world_buff = true
is_once (receive_trap _) = true
is_once _ = false

unfoldable pub once_part : List Effect → List Effect
once_part [] = []
once_part (e ∷ es) = let rest = once_part es in if is_once e then e ∷ rest else rest

pub once_part-append : (es fs : List Effect) → once_part (es ++ fs) ≡ once_part es ++ once_part fs
unfolding once_part
once_part-append [] fs = refl
once_part-append (e ∷ es) fs = ground (arith, once_part-append es fs)

pub record Quiet (c d : Receiver) : Type 0 where
  pub same_once : once_part d.out ≡ once_part c.out
  pub same_tables : d.tables ≡ c.tables
  pub same_item_index : d.item_index ≡ c.item_index
  pub same_counted : d.counted_item_index ≡ c.counted_item_index
  pub same_saved : d.saved_item_index ≡ c.saved_item_index
  pub same_counts : d.progressive_counts ≡ c.progressive_counts
  pub same_senders : d.heirloom_weapon_senders ≡ c.heirloom_weapon_senders

pub Quiet-trans : {c d e : Receiver} → Quiet c d → Quiet d e → Quiet c e
Quiet-trans f g = ground arith

pub Quiet-refl : (c : Receiver) → Quiet c c
Quiet-refl c = ground arith

pub emit-Quiet : (e : Effect) (c : Receiver) → is_once e ≡ false → Quiet c (emit e c)
unfolding emit once_part
emit-Quiet e c h = ground (arith, once_part-append c.out (e ∷ []), append_nil (once_part c.out))
  where
    append_nil : (es : List Effect) → es ++ [] ≡ es
    append_nil [] = refl
    append_nil (x ∷ es) = ap (λ ys. x ∷ ys) (append_nil es)

pub mail-Quiet :
    (w : World) (item : ℕ) (e : Effect) (c : Receiver)
    → is_once e ≡ false
    → Quiet c (mail w item e c)
unfolding mail
mail-Quiet w item e c h = ground (arith, emit-Quiet e c h)

learn-Quiet : (w : World) (spell : ℕ) (c : Receiver) → Quiet c (learn_granted_spell w spell c)
unfolding learn_granted_spell
learn-Quiet w spell c = ground arith

grant_taught-Quiet :
    (w : World) (spells : List ℕ) (c : Receiver) → Quiet c (grant_taught w spells c)
unfolding grant_taught add_granted
grant_taught-Quiet w [] c = ground arith
grant_taught-Quiet w (spell ∷ spells) c = ground (
  arith,
  grant_taught-Quiet w spells c,
  grant_taught-Quiet w spells (learn_granted_spell w spell (add_granted spell c)),
  learn-Quiet w spell (add_granted spell c),
)

pub grant_spell-Quiet : (w : World) (spell : ℕ) (c : Receiver) → Quiet c (grant_spell w spell c)
unfolding grant_spell add_granted
grant_spell-Quiet w spell c = go (taught_by c.tables.spells spell)
  where
    go :
        (spells : List ℕ)
        → Quiet c (elim spells [
          | [] ↦ learn_granted_spell w spell (add_granted spell c)
          | t ∷ ts ↦ grant_taught w (t ∷ ts) (add_granted spell c)
        ])
    go [] = ground (arith, learn-Quiet w spell (add_granted spell c))
    go (t ∷ ts) = ground (arith, grant_taught-Quiet w (t ∷ ts) (add_granted spell c))

grant_riding_mount-Quiet :
    (w : World) (rank : ℕ) (c : Receiver) → Quiet c (grant_riding_mount w rank c)
unfolding grant_riding_mount
grant_riding_mount-Quiet w rank c = ground arith

pub grant_ranks-Quiet :
    (w : World) (n : ℕ) (ranks : List ℕ) (c : Receiver) → Quiet c (grant_ranks w n ranks c)
unfolding grant_ranks
grant_ranks-Quiet w zero ranks c = ground arith
grant_ranks-Quiet w (suc n) [] c = ground arith
grant_ranks-Quiet w (suc n) (rank ∷ ranks) c = Quiet-trans (grant_spell-Quiet w rank c) (
    Quiet-trans (grant_riding_mount-Quiet w rank (grant_spell w rank c))
      (grant_ranks-Quiet w n ranks (grant_riding_mount w rank (grant_spell w rank c))))

remove_ungranted-Quiet :
    (w : World) (spells : List ℕ) (c : Receiver) → Quiet c (remove_ungranted w spells c)
unfolding remove_ungranted remove_spell_if_ungranted
remove_ungranted-Quiet w [] c = ground arith
remove_ungranted-Quiet w (spell ∷ spells) c =
    Quiet-trans (remove_one spell c)
      (remove_ungranted-Quiet w spells (remove_spell_if_ungranted w spell c))
  where
    remove_one : (spell : ℕ) (c : Receiver) → Quiet c (remove_spell_if_ungranted w spell c)
    remove_one spell c = ground arith

sweep-Quiet :
    (w : World) (entries : List (ℕ × SpellItem)) (c : Receiver) → Quiet c (sweep w entries c)
unfolding sweep
sweep-Quiet w [] c = ground arith
sweep-Quiet w ((s, item) ∷ entries) c =
    Quiet-trans (remove_ungranted-Quiet w (item.spell_id ∷ item.taught_spells) c)
      (sweep-Quiet w entries _)

pub remove_ungranted_spells-Quiet :
    (w : World) (c : Receiver) → Quiet c (remove_ungranted_spells w c)
unfolding remove_ungranted_spells
remove_ungranted_spells-Quiet w c = sweep-Quiet w c.tables.spells.by_spell_id c

send_weapon-Quiet : (w : World) (c : Receiver) → Quiet c (send_weapon w c)
unfolding send_weapon
send_weapon-Quiet w c =
    let weapon = get_heirloom_weapon c c.heirloom_weapons_sent in
    let sender = sender_of c.heirloom_weapon_senders c.heirloom_weapons_sent in
    ground (arith, mail-Quiet w weapon (mail_weapon weapon sender) c refl)

send_weapons-Quiet : (w : World) (fuel : ℕ) (c : Receiver) → Quiet c (send_weapons w fuel c)
unfolding send_weapons
send_weapons-Quiet w zero c = ground arith
send_weapons-Quiet w (suc fuel) c =
    ground (arith, send_weapon-Quiet w c, send_weapons-Quiet w fuel (send_weapon w c))

pub send_pending-Quiet : (w : World) (c : Receiver) → Quiet c (send_pending_heirloom_weapons w c)
unfolding send_pending_heirloom_weapons
send_pending-Quiet w c =
    let d = send_weapons w (get_pending_heirloom_weapons c) c in
    ground (
      arith,
      send_weapons-Quiet w (get_pending_heirloom_weapons c) c,
      emit-Quiet save_preferences d,
    )

pub add_keys-Quiet : (w : World) (keys : List ℕ) (c : Receiver) → Quiet c (add_keys w keys c)
unfolding add_keys
add_keys-Quiet w [] c = ground arith
add_keys-Quiet w (key ∷ keys) c = ground (
  arith,
  add_keys-Quiet w keys c,
  add_keys-Quiet w keys (emit (add_key key) c),
  emit-Quiet (add_key key) c refl,
)

pub pay_step-Quiet :
    (w : World) (track : ProgressiveItem) (count : ℕ) (id sender : ℤ) (c : Receiver)
    → Quiet c (pay_step w track count id sender c)
unfolding pay_step
pay_step-Quiet w track count id sender c = elim (Option-cases (get_elem? track.steps (count - 1))) [
  | inl e ↦ ground arith
  | inr (item, e) ↦ ground (arith, mail-Quiet w item (mail_step item id sender) c refl)
]
