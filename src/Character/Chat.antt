-- ===== src/Character/Chat.antt =====
-- The chat that AP_Character.cpp relays to the room and the echoes that it drops.
pub mod Echoes
mod Examples
use mod_i_found_your_sword.Prelude.{
  ℕ, zero, suc, ◌+◌, ◌-◌, ℤ, ◌==ℤ◌, Bool, true, false, not, ◌&&◌, ◌||◌, List, [], ◌∷◌, ◌++◌,
  if◌then◌else◌, ltb, ◌==◌, length, drop, bytes_eq, bytes-eq, contains,
}
use mod_i_found_your_sword.Network.WebSocket.{is_empty}
use mod_i_found_your_sword.Network.Client.Text.{strip_unprintable}

abbrev pub Bytes : Type 0
Bytes = List ℕ

pub data ChatEffect : Type 0 where
  say : Bytes → ChatEffect  -- the `Say` packet that the client hands to `Send`
  show : Bytes → ChatEffect  -- a message rendered in the player's chat box
  tell_not_connected : ChatEffect

pub record Chatter : Type 0 where
  pub run : Bool
  pub has_client : Bool
  pub slot_connected : Bool
  pub player_number : ℤ
  pub pending_chat_echoes : List Bytes
  pub out : List ChatEffect

-- The options of the server.
pub record ChatConfig : Type 0 where
  pub chat_command_prefix : Bytes
  pub is_say_relayed : Bool
  pub is_channel_relayed : Bytes → Bool

abbrev pub max_pending_chat_echoes : ℕ
max_pending_chat_echoes = 16

abbrev pub ap_command_marker : ℕ
ap_command_marker = 33

unfoldable pub emit : ChatEffect → Chatter → Chatter
emit e c = record c { out = c.out ++ e ∷ [] }

-- `pop_front`.
unfoldable pub pop_front : List Bytes → List Bytes
pop_front [] = []
pop_front (e ∷ es) = es

unfoldable pub remember_echo : Bytes → Chatter → Chatter
unfolding pop_front
remember_echo sent c =
    let echoes = c.pending_chat_echoes ++ sent ∷ [] in
    record c {
      pending_chat_echoes =
          if ltb max_pending_chat_echoes (length echoes) then pop_front echoes else echoes;
    }

-- `ap->Say(text)`, with what it returns: `say` of the client, of which this part keeps the state alone.
unfoldable pub client_say : Bytes → Chatter → Chatter × Bool
unfolding emit
client_say text c =
    let sanitized = strip_unprintable text in
    if not c.slot_connected || is_empty sanitized
    then (c, false)
    else (emit (say sanitized) c, true)

unfoldable pub relay_chat_to_archipelago : Bytes → Chatter → Chatter
unfolding client_say remember_echo
relay_chat_to_archipelago text c =
    let sent = strip_unprintable text in
    if not c.slot_connected
    then c
    else if not (client_say sent c).1
    then (client_say sent c).0
    else remember_echo sent (client_say sent c).0

unfoldable pub send_command_to_archipelago : Bytes → Chatter → Chatter
unfolding emit client_say
send_command_to_archipelago command c =
    if not c.slot_connected
    then emit tell_not_connected c
    else (client_say (ap_command_marker ∷ command) c).0

unfoldable pub say_to_archipelago : Bytes → Chatter → Chatter
unfolding emit client_say
say_to_archipelago text c =
    if not c.run
    then c
    else if not c.slot_connected
    then emit tell_not_connected c
    else (client_say text c).0

unfoldable pub starts_with : Bytes → Bytes → Bool
starts_with [] text = true
starts_with (b ∷ bs) [] = false
starts_with (b ∷ bs) (t ∷ ts) = b == t && starts_with bs ts

pub data ChatType : Type 0 where
  chat_say chat_other : ChatType
  chat_channel : Bytes → ChatType

abbrev pub is_say : ChatType → Bool
is_say chat_say = true
is_say _ = false

unfoldable pub relayed_channel : ChatConfig → ChatType → Bool
relayed_channel w (chat_channel name) = w.is_channel_relayed name
relayed_channel w _ = false

-- `OnPlayerChat`, with whether the message goes on into the game.
unfoldable pub on_player_chat : ChatConfig → ChatType → Bytes → Chatter → Chatter × Bool
unfolding relayed_channel starts_with send_command_to_archipelago relay_chat_to_archipelago
on_player_chat w type msg c =
    let prefix = w.chat_command_prefix in
    if length msg == 0 || not c.run
    then (c, true)
    else if not (is_say type) && not (relayed_channel w type)
    then (c, true)
    else if not (length prefix == 0) && ltb (length prefix) (length msg) && starts_with prefix msg
    then (send_command_to_archipelago (drop (length prefix) msg) c, false)
    else if relayed_channel w type || w.is_say_relayed
    then (relay_chat_to_archipelago msg c, true)
    else (c, true)

-- `pendingChatEchoes.erase(echo)`: the first that is equal.
unfoldable pub erase_echo : Bytes → List Bytes → List Bytes
erase_echo message [] = []
erase_echo message (e ∷ es) = if bytes_eq e message then es else e ∷ erase_echo message es

-- `APPrintJsonHandler`, by whether it is chat, its slot, its text and what it renders as.
unfoldable pub ap_print_json_handler : Bool → ℤ → Bytes → Bytes → Chatter → Chatter
unfolding emit erase_echo
ap_print_json_handler is_chat slot message rendered c =
    if not c.has_client || not c.run
    then c
    else if is_chat && slot ==ℤ c.player_number && contains message c.pending_chat_echoes
    then record c { pending_chat_echoes = erase_echo message c.pending_chat_echoes }
    else emit (show rendered) c

-- `APSocketDisconnectedHandler`.
unfoldable pub forget_echoes : Chatter → Chatter
forget_echoes c = record c { pending_chat_echoes = [] }
