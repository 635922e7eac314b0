-- ===== src/Network/Client/State.antt =====
-- network/AP_Client.h: the object, its records, and the calls that it makes outside. The owner sets
-- all twelve callbacks before it polls (`AP_Character::AddArchipelagoClientHandlers`), so a
-- callback is always called. A callback is an entry of `out`: what the owner does in it through the
-- public operations, all of them at the end of a command, is a call that follows.
use mod_i_found_your_sword.Prelude.{
  ℕ, ℤ, Bool, true, false, List, [], ◌∷◌, ◌++◌, Option, if◌then◌else◌, ◌<ℤ◌, ◌==ℤ◌, erase, ℤ-eq,
}
use mod_i_found_your_sword.Network.WebSocket
use mod_i_found_your_sword.Network.Client.Json.{JsonLib, Bytes, Except, ok, throws}

pub data State : Type 0 where
  disconnected socket_connecting socket_connected room_info slot_connected : State

-- The enumeration's order, which the code compares by.
abbrev pub rank : State → ℕ
rank disconnected = 0
rank socket_connecting = 1
rank socket_connected = 2
rank room_info = 3
rank slot_connected = 4

pub data ClientStatus : Type 0 where
  unknown ready playing goal : ClientStatus

abbrev pub is_unknown : ClientStatus → Bool
is_unknown unknown = true
is_unknown _ = false

pub record NetworkItem : Type 0 where
  pub item : ℤ
  pub location : ℤ
  pub player : ℤ
  pub flags : ℕ
  pub index : ℤ

pub record NetworkPlayer : Type 0 where
  pub team : ℤ
  pub slot : ℤ
  pub alias : Bytes
  pub name : Bytes

pub record NetworkSlot : Type 0 where
  pub name : Bytes
  pub game : Bytes
  pub kind : ℤ  -- `type`
  pub members : List ℤ

pub record TextNode : Type 0 where
  pub kind : Bytes  -- `type`
  pub color : Bytes
  pub text : Bytes
  pub player : ℤ
  pub flags : ℕ
  pub hint_status : ℕ

pub record PrintJson : Type 0 where
  pub kind : Bytes  -- `type`
  pub team : ℤ
  pub slot : ℤ
  pub message : Bytes
  pub nodes : List TextNode  -- `data`

pub data QueueEvent : Type 0 where
  opened : QueueEvent
  closed : QueueEvent
  message : Bytes → QueueEvent
  error : Bytes → QueueEvent
  tls_handshake_failed : Bytes → QueueEvent

-- The packets sent, by the fields that are not constants.
pub data Packet (J : Type 0) : Type 0 where
  connect : Bytes → Bytes → Bytes → Bytes → ℤ → List Bytes → Packet J
  connect_update : ℤ → List Bytes → Packet J
  location_checks : List ℤ → Packet J
  location_scouts : List ℤ → ℤ → Packet J
  status_update : ClientStatus → Packet J
  get_data_package : List Bytes → Packet J
  bounce : J → List Bytes → List ℤ → List Bytes → Packet J
  say : Bytes → Packet J
  get : List Bytes → Packet J
  set_notify : List Bytes → Packet J
  set : Bytes → J → Packet J

pub data Call (J : Type 0) : Type 0 where
  ws_stop : Call J
  ws_create : Bool → Call J
  ws_connect : Bytes → Bytes → Call J
  ws_send : Packet J → Call J
  on_slot_connected : J → Call J
  on_slot_refused : List Bytes → Call J
  on_socket_error : Bytes → Call J
  on_socket_disconnected : Call J
  on_room_info : Call J
  on_data_package_changed : Call J
  on_items_received : List NetworkItem → Call J
  on_location_info : List NetworkItem → Call J
  on_print_json : PrintJson → Call J
  on_bounced : J → Call J
  on_message_error : Bytes → Call J
  on_data_storage : Bytes → J → Call J
  write_cache : Bytes → J → Call J

pub record Client (J : JsonLib) : Type 0 where
  pub uuid : Bytes
  pub game : Bytes
  pub host : Bytes
  pub port : Bytes
  pub prefer_tls : Bool
  pub current_attempt_tls : Bool
  -- The transport, by the state that its own thread moves it through.
  pub ws : Option WebSocket.State
  pub event_queue : List QueueEvent
  pub state : State
  pub client_status : ClientStatus
  pub slot_name : Bytes
  pub team : ℤ
  pub slotnr : ℤ
  pub last_connect_attempt : ℕ  -- milliseconds
  pub reconnect_interval : ℕ
  pub reconnect_now : Bool
  pub check_queue : List ℤ
  pub missing_locations : List ℤ
  pub players : List NetworkPlayer
  pub slot_info : List (ℤ × NetworkSlot)
  pub data_package : List (Bytes × J.Json)  -- its "games"
  pub server_checksums : List (Bytes × Bytes)
  pub game_item_map : List (Bytes × List (ℤ × Bytes))
  pub game_location_map : List (Bytes × List (ℤ × Bytes))
  pub pending_data_package_requests : ℕ
  pub server_connect_time : J.Double
  pub local_connect_time : ℕ  -- 0 before a RoomInfo
  -- What was called outside, in order.
  pub out : List (Call J.Json)

-- Code that may throw: what was changed before an exception stays changed.
abbrev pub M : JsonLib → Type 0 → Type 0
M J A = Client J → Except A × Client J

module _ {J : JsonLib} where
  -- What follows is run, unless there was an exception.
  abbrev pub proceed : {A B : Type 0} → (A → M J B) → Except A × Client J → Except B × Client J
  proceed f (ok a, c) = f a c
  proceed f (throws e, c) = (throws e, c)

  infixl 5 ◌>>=◌ ◌>>◌
  unfoldable pub ◌>>=◌ : {A B : Type 0} → M J A → (A → M J B) → M J B
  ◌>>=◌ m f c = proceed f (m c)

  unfoldable pub ◌>>◌ : {B : Type 0} → M J (Unit {0}) → M J B → M J B
  m >> k = m >>= λ _. k

  unfoldable pub lift : {A : Type 0} → Except A → M J A
  lift r c = (r, c)

  unfoldable pub modify : (Client J → Client J) → M J (Unit {0})
  modify f c = (ok tt, f c)

  abbrev pub emit : Call J.Json → Client J → Client J
  emit call c = record c { out = c.out ++ call ∷ [] }

  -- A loop, left by the first exception.
  unfoldable pub for_each : {A : Type 0} → List A → (A → M J (Unit {0})) → M J (Unit {0})
  for_each [] body c = (ok tt, c)
  for_each (x ∷ xs) body c = let rest = for_each xs body in proceed (λ _. rest) (body x c)

-- A loop that reads, in the plain error type.
abbrev pub map_except : {A B : Type 0} → (A → Except B) → List A → Except (List B)
map_except f [] = ok []
map_except f (x ∷ xs) =
    let rest = map_except f xs in
    elim (f x) [
      | ok b ↦ elim rest [ ok bs ↦ ok (b ∷ bs) | throws e ↦ throws e ]
      | throws e ↦ throws e
    ]

-- `std::set<int64_t>::insert`: in ascending order, once.
unfoldable pub insert_sorted : ℤ → List ℤ → List ℤ
insert_sorted k [] = k ∷ []
insert_sorted k (x ∷ xs) =
    if k <ℤ x then k ∷ x ∷ xs else (if k ==ℤ x then x ∷ xs else x ∷ insert_sorted k xs)

-- `missingLocations.erase` over a list, and `checkQueue.insert(begin, end)`.
unfoldable pub erase_all : List ℤ → List ℤ → List ℤ
erase_all [] old = old
erase_all (x ∷ xs) old = erase_all xs (erase x old)

unfoldable pub insert_all : List ℤ → List ℤ → List ℤ
insert_all [] old = old
insert_all (x ∷ xs) old = insert_all xs (insert_sorted x old)

-- `slotInfo[slot] = info`, in the order of the slots.
unfoldable pub insert_slot : ℤ → NetworkSlot → List (ℤ × NetworkSlot) → List (ℤ × NetworkSlot)
insert_slot slot info [] = (slot, info) ∷ []
insert_slot slot info ((k, old) ∷ slots) =
    if slot <ℤ k
    then (slot, info) ∷ (k, old) ∷ slots
    else (if slot ==ℤ k then (slot, info) ∷ slots else (k, old) ∷ insert_slot slot info slots)
