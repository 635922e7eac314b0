-- ===== src/Character/Receiver/Heirlooms.antt =====
-- The heirloom weapons of AP_Character.cpp.
use mod_i_found_your_sword.Prelude.{
  ℕ, zero, suc, ◌-◌, min, ℤ, pos, not, ◌||◌, List, [], ◌∷◌, none, some, if◌then◌else◌, ◌==◌, ltb,
  leb, length, get_elem?, contains, ℕ-eq,
}
use mod_i_found_your_sword.Character.Receiver.{
  World, Receiver, mail_weapon, save_preferences, emit, mail,
}

unfoldable pub get_heirloom_weapon : Receiver → ℕ → ℕ
get_heirloom_weapon c slot =
    if leb c.tables.heirlooms.weapon_slots slot then 0 else elim c.tables.heirlooms.weapon_choices [
      | [] ↦ elim (get_elem? c.heirloom_weapons slot) [ some weapon ↦ weapon | none ↦ 0 ]
      | choice ∷ choices ↦ elim choices [
        | [] ↦ choice
        | _ ∷ _ ↦ elim (get_elem? c.heirloom_weapons slot) [ some weapon ↦ weapon | none ↦ 0 ]
      ]
    ]

unfoldable pub get_pending_heirloom_weapons : Receiver → ℕ
get_pending_heirloom_weapons c =
    let arrived = min (length c.heirloom_weapon_senders) c.tables.heirlooms.weapon_slots in
    if ltb c.heirloom_weapons_sent arrived then arrived - c.heirloom_weapons_sent else 0

-- The sender of the copy that fills a slot. The loop never reads past the senders.
unfoldable pub sender_of : List ℤ → ℕ → ℤ
sender_of senders slot = elim (get_elem? senders slot) [ some sender ↦ sender | none ↦ pos 0 ]

unfoldable pub send_weapon : World → Receiver → Receiver
unfolding get_heirloom_weapon mail sender_of
send_weapon w c =
    let weapon = get_heirloom_weapon c c.heirloom_weapons_sent in
    let sender = sender_of c.heirloom_weapon_senders c.heirloom_weapons_sent in
    let mailed = mail w weapon (mail_weapon weapon sender) c in
    record mailed { heirloom_weapons_sent = suc c.heirloom_weapons_sent }

-- The loop of `SendPendingHeirloomWeapons`. Each round sends one of the weapons that are pending, so
-- that their number is fuel enough.
unfoldable pub send_weapons : World → ℕ → Receiver → Receiver
unfolding send_weapon get_heirloom_weapon get_pending_heirloom_weapons
send_weapons w zero c = c
send_weapons w (suc fuel) c =
    let rest = send_weapons w fuel (send_weapon w c) in
    if get_pending_heirloom_weapons c == 0 || get_heirloom_weapon c c.heirloom_weapons_sent == 0
    then c
    else rest

unfoldable pub send_pending_heirloom_weapons : World → Receiver → Receiver
unfolding send_weapons emit get_pending_heirloom_weapons
send_pending_heirloom_weapons w c =
    let c' = send_weapons w (get_pending_heirloom_weapons c) c in
    if c'.heirloom_weapons_sent == c.heirloom_weapons_sent then c' else emit save_preferences c'

unfoldable pub set_elem : ℕ → ℕ → List ℕ → List ℕ
set_elem i v [] = []
set_elem zero v (x ∷ xs) = v ∷ xs
set_elem (suc i) v (x ∷ xs) = x ∷ set_elem i v xs

unfoldable pub set_heirloom_weapon : World → ℕ → ℕ → Receiver → Receiver
unfolding set_elem emit send_pending_heirloom_weapons
set_heirloom_weapon w slot item c =
    if leb c.tables.heirlooms.weapon_slots slot
      || ltb slot c.heirloom_weapons_sent
      || not (contains item c.tables.heirlooms.weapon_choices)
    then c
    else send_pending_heirloom_weapons w (
        emit save_preferences
          (record c { heirloom_weapons = set_elem slot item c.heirloom_weapons }))
