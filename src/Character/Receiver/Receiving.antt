-- ===== src/Character/Receiver/Receiving.antt =====
-- `RewardItem` and `APReceivedItemsHandler` of AP_Character.cpp.
use mod_i_found_your_sword.Prelude.{
  ℕ, suc, ◌-◌, ℤ, ◌==ℤ◌, ◌<ℤ◌, Bool, true, false, not, ◌&&◌, ◌||◌, List, [], ◌∷◌, ◌++◌, none, some,
  if◌then◌else◌, ◌==◌, ltb, length, get_elem?, lookup, insert, add, ℕ-eq, ℤ-eq,
}
use mod_i_found_your_sword.Network.Client.State.{NetworkItem}
use mod_i_found_your_sword.Items.Tables.{
  ItemsContainer, HeirloomPiece, TrapType, GearItem, ZoneItem, SpellItem, ProgressiveItem,
  ProgressiveType, movement_speed, food, drink, riding, ProgressiveType-eq, get_piece, value_at,
}
use mod_i_found_your_sword.Character.Receiver.{
  World, Receiver, mail_item, mail_step, mail_gold, give_level, apply_world_buff, receive_trap,
  add_key, movement_speed_bonus, remove_outgrown, apply_pending_world_buffs, refresh_dungeon_locks,
  save_to_database, weapon_waits, emit, mail,
}
use mod_i_found_your_sword.Character.Receiver.Granting.{
  grant_spell, grant_ranks, remove_ungranted_spells,
}
use mod_i_found_your_sword.Character.Receiver.Heirlooms.{
  get_pending_heirloom_weapons, send_pending_heirloom_weapons,
}

-- What an item id of the multiworld stands for: the chain of tests of `RewardItem`.
pub data Kind : Type 0 where
  game_item : ℕ → Kind
  heirloom_piece : HeirloomPiece → Kind
  heirloom_weapon : Kind
  world_buff : Kind
  trap : TrapType → Kind
  gear : GearItem → Kind
  zone : ZoneItem → Kind
  spell : SpellItem → Kind
  progressive : ProgressiveItem → Kind
  level : Kind
  friend_teleport : Kind
  gold_pouch : Kind
  unknown_kind : Kind

unfoldable pub last_kind : ItemsContainer → ℤ → Kind
last_kind t id =
    if id ==ℤ t.levels
    then level
    else if id ==ℤ t.friend_teleport
    then friend_teleport
    else if id ==ℤ t.gold_pouch
    then gold_pouch
    else unknown_kind

unfoldable pub kind_of : ItemsContainer → ℤ → Kind
unfolding get_piece last_kind
kind_of t id = elim (lookup id t.items) [
  | some wow ↦ game_item wow
  | none ↦ elim (get_piece t.heirlooms id) [
    | some piece ↦ heirloom_piece piece
    | none ↦
        if id ==ℤ t.heirlooms.weapon
        then heirloom_weapon
        else if id ==ℤ t.world_buffs
        then world_buff
        else elim (lookup id t.traps) [
          | some trap' ↦ trap trap'
          | none ↦ elim (lookup id t.gear) [
            | some gear' ↦ gear gear'
            | none ↦ elim (lookup id t.zones) [
              | some zone' ↦ zone zone'
              | none ↦ elim (lookup id t.spells.by_item_id) [
                | some spell' ↦ spell spell'
                | none ↦ elim (lookup id t.progressive) [
                  | some track ↦ progressive track
                  | none ↦ last_kind t id
                ]
              ]
            ]
          ]
        ]
  ]
]

unfoldable pub add_keys : World → List ℕ → Receiver → Receiver
unfolding emit
add_keys w [] c = c
add_keys w (key ∷ keys) c =
    add_keys w keys (elim (w.has_key key) [ true ↦ c | false ↦ emit (add_key key) c ])

abbrev pub count_of : ProgressiveType → List (ProgressiveType × ℕ) → ℕ
count_of t counts = elim (lookup t counts) [ some n ↦ n | none ↦ 0 ]

-- A copy of a food or drink track pays out the item of its step.
unfoldable pub pay_step : World → ProgressiveItem → ℕ → ℤ → ℤ → Receiver → Receiver
unfolding mail
pay_step w track count id sender c =
    if count == 0 then c else elim (get_elem? track.steps (count - 1)) [
      | some item ↦ mail w item (mail_step item id sender) c
      | none ↦ c
    ]

unfoldable pub pays_items : ProgressiveType → Bool
pays_items food = true
pays_items drink = true
pays_items _ = false

unfoldable pub is_riding : ProgressiveType → Bool
is_riding riding = true
is_riding _ = false

unfoldable pub reward_progressive :
    World → ProgressiveItem → ℤ → Bool → Bool → ℤ → Receiver → Receiver
unfolding grant_ranks pay_step pays_items is_riding
reward_progressive w track id rewarded counted sender c =
    let old = count_of track.track c.progressive_counts in
    let count = if counted then old else suc old in
    let c' = record c { progressive_counts = insert track.track count c.progressive_counts } in
    if is_riding track.track
    then grant_ranks w count track.steps c'
    else if pays_items track.track && not rewarded
    then pay_step w track count id sender c'
    else c'

unfoldable pub reward_weapon : World → Bool → Bool → ℤ → Receiver → Receiver
unfolding send_pending_heirloom_weapons get_pending_heirloom_weapons emit
reward_weapon w rewarded counted sender c =
    let c' =
      if counted
      then c
      else record c { heirloom_weapon_senders = c.heirloom_weapon_senders ++ sender ∷ [] } in
    let c'' = send_pending_heirloom_weapons w c' in
    if not rewarded && ltb 0 (get_pending_heirloom_weapons c'') then emit weapon_waits c'' else c''

unfoldable pub reward_kind : World → Kind → ℤ → Bool → Bool → ℤ → Receiver → Receiver
unfolding emit mail add_keys grant_spell reward_progressive reward_weapon
reward_kind w (game_item wow) id rewarded counted sender c =
    let c' =
      if w.is_glyph wow then record c { received_glyphs = add wow c.received_glyphs } else c in
    if rewarded then c' else mail w wow (mail_item wow id sender) c'
reward_kind w (heirloom_piece piece) id rewarded counted sender c =
    let item = if w.prefers_caster_heirlooms then piece.caster else piece.melee in
    if rewarded then c else mail w item (mail_item item id sender) c
reward_kind w heirloom_weapon id rewarded counted sender c =
    reward_weapon w rewarded counted sender c
reward_kind w world_buff id rewarded counted sender c =
    if rewarded then c else emit apply_world_buff c
reward_kind w (trap t) id rewarded counted sender c =
    if rewarded then c else emit (receive_trap t) c
reward_kind w (gear g) id rewarded counted sender c =
    if rewarded
    then c
    else elim (w.roll_gear g) [ some item ↦ mail w item (mail_item item id sender) c | none ↦ c ]
reward_kind w (zone z) id rewarded counted sender c =
    add_keys w z.keys (record c { unlocked_zones = add z.zone_id c.unlocked_zones })
reward_kind w (spell s) id rewarded counted sender c = grant_spell w s.spell_id c
reward_kind w (progressive track) id rewarded counted sender c =
    reward_progressive w track id rewarded counted sender c
reward_kind w level id rewarded counted sender c = if rewarded then c else emit give_level c
reward_kind w friend_teleport id rewarded counted sender c = record c {
  friend_teleport_unlocked = true;
}
reward_kind w gold_pouch id rewarded counted sender c =
    if rewarded then c else emit (mail_gold sender) c
reward_kind w unknown_kind id rewarded counted sender c = c

unfoldable pub reward_item : World → ℤ → Bool → Bool → ℤ → Receiver → Receiver
unfolding reward_kind kind_of
reward_item w id rewarded counted sender c =
    reward_kind w (kind_of c.tables id) id rewarded counted sender c

-- The loop, with `itemIndex` and `countedItemIndex` as they were before it.
unfoldable pub reward_items : World → ℤ → ℤ → List NetworkItem → Receiver → Receiver
unfolding reward_item
reward_items w index counted [] c = c
reward_items w index counted (i ∷ more) c =
    reward_items w index counted more
      (reward_item w i.item (not (index <ℤ i.index)) (not (counted <ℤ i.index)) i.player c)

-- `newItemIndex`: the highest index met.
unfoldable pub highest : ℤ → List NetworkItem → ℤ
highest index [] = index
highest index (i ∷ more) = highest (if index <ℤ i.index then i.index else index) more

unfoldable pub get_progressive_step : Receiver → ProgressiveType → ℕ
unfolding value_at
get_progressive_step c t = elim (lookup t c.progressive_counts) [
  | none ↦ 0
  | some count ↦ elim (lookup t c.tables.progressive_by_type) [
    | none ↦ 0
    | some item ↦ value_at item count
  ]
]

unfoldable pub save_index : Receiver → Receiver
unfolding emit
save_index c = emit save_to_database (record c { saved_item_index = c.item_index })

-- What follows the loop, with the step of the speed track and the number of zones before it.
unfoldable pub finish_items : World → ℕ → ℕ → ℤ → Receiver → Receiver
unfolding get_progressive_step emit remove_ungranted_spells save_index
finish_items w speed zones new c =
    let c₁ =
      if get_progressive_step c movement_speed == speed then c else emit movement_speed_bonus c in
    let c₂ = emit (remove_outgrown drink) (emit (remove_outgrown food) c₁) in
    let c₃ = emit apply_pending_world_buffs (remove_ungranted_spells w c₂) in
    let c₄ =
      if not c₃.items_synced || not (length c₃.unlocked_zones == zones)
      then emit refresh_dungeon_locks c₃
      else c₃ in
    let c₅ = if new ==ℤ c₄.item_index then c₄ else save_index (record c₄ { item_index = new }) in
    record c₅ { items_synced = true }

unfoldable pub on_received_items : World → List NetworkItem → Receiver → Receiver
unfolding reward_items highest finish_items get_progressive_step
on_received_items w items c =
    let c' = reward_items w c.item_index c.counted_item_index items c in
    finish_items w (get_progressive_step c movement_speed) (length c.unlocked_zones)
      (highest c.item_index items)
      (record c' { counted_item_index = highest c.counted_item_index items })
