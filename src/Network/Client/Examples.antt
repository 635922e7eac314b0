-- ===== src/Network/Client/Examples.antt =====
-- Tests of network/AP_Client.cpp over the JSON library of `SampleJson`.
use mathlib.Core.List.{Memᴰ}
use mod_i_found_your_sword.Prelude.{
  ◌+◌, ◌≤◌, ◌<◌, pos, ℤ-eq, ◌≡◌, refl, ◌⊎◌, inl, true, false, not, List, [], ◌∷◌, none, some, arith,
  length, codes, bytes-eq, lookup, contains,
}
use mod_i_found_your_sword.Network.WebSocket
use mod_i_found_your_sword.Network.Client.Json.{Bytes, ok, throws}
use mod_i_found_your_sword.Network.Client.SampleJson.{
  Value, null, number, text, list, nil, cons, object, end, field, sample, missing_key,
}
use mod_i_found_your_sword.Network.Client.State.{
  Client, Call, QueueEvent, disconnected, socket_connecting, room_info, slot_connected, emit, ◌>>◌,
  ◌>>=◌, modify, for_each, lift, NetworkPlayer, NetworkItem, TextNode, goal,
}
use mod_i_found_your_sword.Network.Client.Text.{deansify, all_of, parse_host}
use mod_i_found_your_sword.Network.Client.Protocol.{create, location_checks, reset}
use mod_i_found_your_sword.Network.Client.DataPackage.{
  Disk, get_data_package, get_item_name, save_data_package_cache,
}
use mod_i_found_your_sword.Network.Client.Commands.{
  join_slot, on_connected, process_message, read_items, int_at, int64_at, string_at,
}
use mod_i_found_your_sword.Network.Client.Poll.{poll, handle_events}
use mod_i_found_your_sword.Network.Client.Frame.{Frame, process_message-Frame}
use mod_i_found_your_sword.Network.Client.Reconnect.{
  Attempting, poll-failed, handle_events-no_fallback, NotConnecting, IsPaced, poll-IsPaced,
}
use mod_i_found_your_sword.Network.Client.Checks.{location_checks-queued}
use mod_i_found_your_sword.Network.Client.Malformed.{IsConnected, on_connected-half_joined}
use mod_i_found_your_sword.Network.Client.Flushing.{Flushed, join_slot-flushes}
use mod_i_found_your_sword.Network.Client.Names.{reset-names_lost}
use mod_i_found_your_sword.Network.Client.Received.{Indexed, read_items-Indexed}
use mod_i_found_your_sword.Network.Client.Speech.{save_data_package_cache-safe, is_path_byte}
use mod_i_found_your_sword.Network.Client.Render.{render_json, ansi_format, text_format}
use mod_i_found_your_sword.Network.Client.Rendering.{strip_escapes, render_json-shows}

abbrev disk : Disk sample
disk = record { separator = codes "/"; read = λ path. none }

-- Just made, and then as `ConnectSocket` and the transport would leave it.
abbrev fresh : Client sample
unfolding create parse_host
fresh = create 0 (codes "uuid") (codes "WoW") (codes "host") (codes "38281")

abbrev opening : Client sample
opening = record fresh {
  state = socket_connecting;
  ws = some WebSocket.connecting;
  reconnect_now = false;
  last_connect_attempt = 100;
  reconnect_interval = 3000;
}

abbrev joined : Client sample
joined = record fresh {
  state = slot_connected;
  ws = some WebSocket.connected;
  missing_locations = pos 1 ∷ pos 2 ∷ [];
}

abbrev in_room : Client sample
in_room = record fresh {
  state = room_info;
  ws = some WebSocket.connected;
  check_queue = pos 4 ∷ pos 9 ∷ [];
  client_status = goal;
}

abbrev player : Value
player = object (
    field (codes "team") (number (pos 0)) (
      field (codes "slot") (number (pos 1))
        (field (codes "alias") (text (codes "Al")) (field (codes "name") (text (codes "Al")) end))))

process_message-Frame_example : Frame joined (process_message sample disk 5 [] joined)
process_message-Frame_example = process_message-Frame disk 5 [] joined

tls_failing : Client sample
unfolding create
tls_failing = record opening {
  event_queue = QueueEvent.tls_handshake_failed (codes "bad") ∷ QueueEvent.closed ∷ [];
}

refused : Client sample
unfolding create
refused = record opening {
  event_queue = QueueEvent.error (codes "refused") ∷ QueueEvent.closed ∷ [];
}

poll-failed_example :
    ((100 + 3000 ≤ 4000)
      × Attempting false 4000
          (emit (Call.on_socket_error (codes "refused")) refused)
          (poll sample disk 4000 refused))
    ⊎ ((4000 < 100 + 3000)
        × ((poll sample disk 4000 refused).out ≡ Call.on_socket_error (codes "refused") ∷ [])
        × ((poll sample disk 4000 refused).state ≡ disconnected)
        × ((poll sample disk 4000 refused).current_attempt_tls ≡ false))
unfolding refused create
poll-failed_example = poll-failed sample disk 4000 refused (codes "refused") refl refl refl refl

late_events : List QueueEvent
late_events = QueueEvent.tls_handshake_failed (codes "late") ∷ QueueEvent.closed ∷ []

handle_events-no_fallback_example :
    NotConnecting sample disk 5 (handle_events sample disk 5 late_events false joined).0
    × ((handle_events sample disk 5 late_events false joined).1 ≡ false)
    × ((handle_events sample disk 5 late_events false joined).0.ws ≡ joined.ws)
unfolding create
handle_events-no_fallback_example =
    handle_events-no_fallback sample disk 5 late_events joined (λ e. cc)

dropped : Client sample
unfolding create
dropped = record joined { event_queue = QueueEvent.closed ∷ []; last_connect_attempt = 100 }

poll-IsPaced_example : IsPaced (poll sample disk 9000 dropped)
unfolding dropped create
poll-IsPaced_example = poll-IsPaced sample disk 9000 dropped (omega arith)

location_checks-queued_example :
    ((location_checks (pos 7 ∷ []) in_room).0.out ≡ [])
    × (contains (pos 4) (location_checks (pos 7 ∷ []) in_room).0.check_queue ≡ true)
unfolding create contains
location_checks-queued_example = location_checks-queued (pos 7 ∷ []) in_room (pos 4) (λ e. cc)

-- The second player has no field at all.
abbrev bad_players : Value
bad_players = list (cons player (cons null nil))

abbrev connected_command : Value
connected_command = object (
    field (codes "team") (number (pos 0)) (
      field (codes "slot") (number (pos 1)) (
        field (codes "players") bad_players
          (field (codes "slot_data") null (field (codes "missing_locations") (list nil) end)))))

reads_command : IsConnected sample connected_command (pos 0) (pos 1) bad_players null []
unfolding int_at lift ◌>>=◌
reads_command = record {
  team_read = λ c. refl;
  slot_read = λ c. refl;
  list_read = refl;
  data_read = refl;
  ids = list nil;
  ids_read = refl;
  missing_read = refl;
}

on_connected-half_joined_example :
    (e : Bytes) × (ps : List NetworkPlayer) × (on_connected sample connected_command in_room ≡ (
      throws e,
      record in_room {
        state = slot_connected;
        team = pos 0;
        slotnr = pos 1;
        missing_locations = [];
        players = ps;
      },
    ))
on_connected-half_joined_example =
    on_connected-half_joined connected_command (pos 0) (pos 1) bad_players null [] null in_room
      reads_command (Memᴰ.tail (Memᴰ.head refl)) (inl (inl (missing_key, refl)))

join_slot-flushes_example :
    Flushed null in_room (join_slot sample null (pos 0) (pos 1) (player ∷ []) null [] in_room).1
unfolding create join_slot ◌>>◌ ◌>>=◌ modify for_each int_at lift string_at
join_slot-flushes_example =
    join_slot-flushes null (pos 0) (pos 1) (player ∷ []) null [] in_room refl refl

abbrev wow_package : Value
wow_package = object (field (codes "checksum") (text (codes "ab12")) end)

abbrev packaged : Client sample
packaged = record joined { data_package = (codes "WoW", wow_package) ∷ [] }

reset-names_lost_example :
    let d = record (reset {J = sample} 0 packaged) {
      server_checksums = (codes "WoW", codes "ab12") ∷ [];
      state = room_info;
    } in
    (get_data_package sample disk (codes "WoW" ∷ []) d
      ≡ (ok true, emit Call.on_data_package_changed d))
    × (get_item_name (pos 3) (codes "WoW") d ≡ codes "Unknown")
unfolding create lookup
reset-names_lost_example =
    reset-names_lost sample disk 0 (codes "WoW") wow_package (codes "ab12")
      ((codes "WoW", codes "ab12") ∷ []) (pos 3) packaged refl refl refl

abbrev sent_item : Value
sent_item = object (
    field (codes "item") (number (pos 3))
      (field (codes "location") (number (pos 5)) (field (codes "player") (number (pos 1)) end)))

abbrev read_item_3 : NetworkItem
read_item_3 = record { item = pos 3; location = pos 5; player = pos 1; flags = 0; index = pos 6 }

read_items-Indexed_example : Indexed (pos 6) (read_item_3 ∷ []) × (length (read_item_3 ∷ []) ≡ 1)
unfolding read_items ◌>>=◌ int64_at lift int_at
read_items-Indexed_example =
    read_items-Indexed (pos 6) (sent_item ∷ []) joined (read_item_3 ∷ []) refl

save_data_package_cache-safe_example :
    (save_data_package_cache sample disk (codes "ab12") wow_package joined ≡ joined)
    ⊎ ((save_data_package_cache sample disk (codes "ab12") wow_package joined
          ≡ emit (Call.write_cache (codes "ap_datapackage_cache/ab12.json") wow_package) joined)
        × (1 ≤ 4)
        × (4 ≤ 64)
        × (all_of (λ b. not (is_path_byte b)) (codes "ab12") ≡ true))
save_data_package_cache-safe_example =
    save_data_package_cache-safe sample disk (codes "ab12") wow_package joined

abbrev colored : TextNode
colored = record {
  kind = codes "color";
  color = codes "red";
  text = codes "hi";
  player = pos 0;
  flags = 0;
  hint_status = 0;
}

render_json-shows_example :
    strip_escapes (render_json {J = sample} (λ t. pos 0) (colored ∷ []) ansi_format joined)
    ≡ deansify (render_json {J = sample} (λ t. pos 0) (colored ∷ []) text_format joined)
render_json-shows_example = render_json-shows (λ t. pos 0) (colored ∷ []) joined
