-- ===== src/Network/Client/Commands.antt =====
-- network/AP_Client.cpp: `ProcessMessage` and `ProcessCommand`, what the server's commands do.
use mod_i_found_your_sword.Prelude.{
  ℕ, suc, zero, ltb, ℤ, pos, negsuc, succℤ, List, [], ◌∷◌, ◌++◌, none, some, if◌then◌else◌, insert,
  erase, beq, ℤ-eq, bytes-eq, codes,
}
use mod_i_found_your_sword.Network.WebSocket.{is_empty}
use mod_i_found_your_sword.Network.Client.Json.{JsonLib, Bytes, ok, throws}
use mod_i_found_your_sword.Network.Client.State.{
  Client, Call, M, ◌>>=◌, ◌>>◌, lift, modify, for_each, emit, rank, room_info, slot_connected,
  is_unknown, NetworkItem, TextNode, insert_slot,
}
use mod_i_found_your_sword.Network.Client.Protocol.{location_checks, status_update}
use mod_i_found_your_sword.Network.Client.DataPackage.{
  Disk, apply_game_data, save_data_package_cache,
}

pub data CommandName : Type 0 where
  room_info_command connection_refused connected received_items location_info : CommandName
  data_package print_json bounced retrieved set_reply room_update other_command : CommandName

-- The chain of tests of `ProcessCommand`.
unfoldable pub command_name : Bytes → CommandName
command_name cmd =
    if beq cmd (codes "RoomInfo")
    then room_info_command
    else if beq cmd (codes "ConnectionRefused")
    then connection_refused
    else if beq cmd (codes "Connected")
    then connected
    else if beq cmd (codes "ReceivedItems")
    then received_items
    else if beq cmd (codes "LocationInfo")
    then location_info
    else if beq cmd (codes "DataPackage")
    then data_package
    else if beq cmd (codes "PrintJSON")
    then print_json
    else if beq cmd (codes "Bounced")
    then bounced
    else if beq cmd (codes "Retrieved")
    then retrieved
    else if beq cmd (codes "SetReply")
    then set_reply
    else if beq cmd (codes "RoomUpdate")
    then room_update
    else other_command

module _ (J : JsonLib) where
  -- `j.at(key).get<T>()`.
  unfoldable pub int_at : J.Json → Bytes → M J ℤ
  int_at j key = do v ← lift (J.get_at j key); lift (J.get_int v)

  unfoldable pub int64_at : J.Json → Bytes → M J ℤ
  int64_at j key = do v ← lift (J.get_at j key); lift (J.get_int64 v)

  unfoldable pub string_at : J.Json → Bytes → M J Bytes
  string_at j key = do v ← lift (J.get_at j key); lift (J.get_string v)

  unfoldable pub add_checksum : Bytes × J.Json → M J (Unit {0})
  add_checksum (game, checksum) =
      if J.is_string checksum
      then (do
        text ← lift (J.get_string checksum)
        modify λ c. record c { server_checksums = insert game text c.server_checksums })
      else modify λ c. c

  -- `if (command.contains(key) && command[key].is_object()) for (... : command[key].items())`.
  unfoldable pub for_items : J.Json → Bytes → (Bytes × J.Json → M J (Unit {0})) → M J (Unit {0})
  for_items command key body =
      if J.has_key command key
      then (do
        v ← lift (J.get_at command key)
        if J.is_object v then for_each (J.items v) body else modify λ c. c)
      else modify λ c. c

  -- The same over an array.
  unfoldable pub for_elements : J.Json → Bytes → (List J.Json → M J (Unit {0})) → M J (Unit {0})
  for_elements command key body =
      if J.has_key command key
      then (do
        v ← lift (J.get_at command key)
        if J.is_array v then body (J.elements v) else modify λ c. c)
      else modify λ c. c

  unfoldable pub on_room_info : ℕ → J.Json → M J (Unit {0})
  unfolding add_checksum for_items
  on_room_info now command = do
    modify λ c. record c { local_connect_time = now }
    time ← lift (J.get_at command (codes "time"))
    seconds ← lift (J.get_double time)
    modify λ c. record c { server_connect_time = seconds; server_checksums = [] }
    for_items command (codes "datapackage_checksums") add_checksum
    modify λ c. record c { state = if ltb (rank c.state) 3 then room_info else c.state }
    modify (emit Call.on_room_info)

  unfoldable pub read_strings : List J.Json → M J (List Bytes)
  read_strings [] = lift (ok [])
  read_strings (j ∷ js) = do
    text ← lift (J.get_string j)
    rest ← read_strings js
    lift (ok (text ∷ rest))

  unfoldable pub on_connection_refused : J.Json → M J (Unit {0})
  unfolding read_strings
  on_connection_refused command = do
    list ← lift (J.get_at command (codes "errors"))
    errors ← read_strings (J.elements list)
    modify (emit (Call.on_slot_refused errors))

  unfoldable pub add_player : J.Json → M J (Unit {0})
  add_player p = do
    team ← int_at p (codes "team")
    slot ← int_at p (codes "slot")
    alias ← string_at p (codes "alias")
    name ← string_at p (codes "name")
    modify λ c. record c {
      players = c.players ++ record { team = team; slot = slot; alias = alias; name = name } ∷ [];
    }

  unfoldable pub add_slot : Bytes × J.Json → M J (Unit {0})
  add_slot (key, value) = do
    name ← string_at value (codes "name")
    game ← string_at value (codes "game")
    kind ← int_at value (codes "type")
    list ← lift (J.get_at value (codes "group_members"))
    members ← lift (J.get_ints list)
    slot ← lift (J.stoi key)
    modify λ c. record c {
      slot_info =
          insert_slot slot (record { name = name; game = game; kind = kind; members = members })
            c.slot_info;
    }

  unfoldable pub flush_checks : Client J → Client J
  unfolding location_checks
  flush_checks c =
      let queued = c.check_queue in
      if is_empty queued then c else (location_checks queued (record c { check_queue = [] })).0

  unfoldable pub flush_status : Client J → Client J
  unfolding status_update
  flush_status c = if is_unknown c.client_status then c else (status_update c.client_status c).0

  -- What `Connected` does once its required fields are read.
  unfoldable pub join_slot : J.Json → ℤ → ℤ → List J.Json → J.Json → List ℤ → M J (Unit {0})
  unfolding add_player add_slot for_items flush_checks flush_status
  join_slot command team slot player_list slot_data missing = do
    modify λ c. record c {
      state = slot_connected;
      team = team;
      slotnr = slot;
      missing_locations = missing;
      players = [];
    }
    for_each player_list add_player
    modify λ c. record c { slot_info = [] }
    for_items command (codes "slot_info") add_slot
    modify flush_checks
    modify flush_status
    modify (emit (Call.on_slot_connected slot_data))

  unfoldable pub on_connected : J.Json → M J (Unit {0})
  unfolding join_slot
  on_connected command = do
    team ← int_at command (codes "team")
    slot ← int_at command (codes "slot")
    player_list ← lift (J.get_at command (codes "players"))
    slot_data ← lift (J.get_at command (codes "slot_data"))
    ids ← lift (J.get_at command (codes "missing_locations"))
    missing ← lift (J.get_ids ids)
    join_slot command team slot (J.elements player_list) slot_data missing

  unfoldable pub read_item : ℤ → J.Json → M J NetworkItem
  read_item index j = do
    item ← int64_at j (codes "item")
    location ← int64_at j (codes "location")
    player ← int_at j (codes "player")
    flags ← lift (J.value_unsigned j (codes "flags") 0)
    lift (
        ok (record {
          item = item;
          location = location;
          player = player;
          flags = flags;
          index = index;
        }))

  unfoldable pub read_items : ℤ → List J.Json → M J (List NetworkItem)
  unfolding read_item
  read_items index [] = lift (ok [])
  read_items index (j ∷ js) = do
    item ← read_item index j
    rest ← read_items (succℤ index) js
    lift (ok (item ∷ rest))

  unfoldable pub on_received_items : J.Json → M J (Unit {0})
  unfolding read_items
  on_received_items command = do
    index ← int_at command (codes "index")
    list ← lift (J.get_at command (codes "items"))
    items ← read_items index (J.elements list)
    modify (emit (Call.on_items_received items))

  unfoldable pub read_locations : List J.Json → M J (List NetworkItem)
  unfolding read_item
  read_locations [] = lift (ok [])
  read_locations (j ∷ js) = do
    item ← read_item (negsuc 0) j
    rest ← read_locations js
    lift (ok (item ∷ rest))

  unfoldable pub on_location_info : J.Json → M J (Unit {0})
  unfolding read_locations
  on_location_info command = do
    list ← lift (J.get_at command (codes "locations"))
    items ← read_locations (J.elements list)
    modify (emit (Call.on_location_info items))

  unfoldable pub add_game : Disk J → Bytes × J.Json → M J (Unit {0})
  unfolding apply_game_data save_data_package_cache
  add_game disk (game, game_data) = do
    apply_game_data J game game_data
    checksum ← lift (J.value_string game_data (codes "checksum") [])
    modify (save_data_package_cache J disk checksum game_data)

  -- One answer less is awaited, and the last one is reported.
  unfoldable pub count_answer : Client J → Client J
  count_answer c = elim c.pending_data_package_requests [
    | zero ↦ c
    | suc zero ↦ emit Call.on_data_package_changed (record c { pending_data_package_requests = 0 })
    | suc (suc k) ↦ record c { pending_data_package_requests = suc k }
  ]

  unfoldable pub on_data_package : Disk J → J.Json → M J (Unit {0})
  unfolding add_game count_answer
  on_data_package disk command = do
    body ← lift (J.get_at command (codes "data"))
    games ← lift (J.get_at body (codes "games"))
    for_each (J.items games) (add_game disk)
    modify count_answer

  unfoldable pub from_json : J.Json → M J TextNode
  from_json j = do
    kind ← lift (J.value_string j (codes "type") [])
    color ← lift (J.value_string j (codes "color") [])
    text ← lift (J.value_string j (codes "text") [])
    player ← lift (J.value_int j (codes "player") (pos 0))
    flags ← lift (J.value_unsigned j (codes "flags") 0)
    hint_status ← lift (J.value_unsigned j (codes "hint_status") 0)
    lift (
        ok (record {
          kind = kind;
          color = color;
          text = text;
          player = player;
          flags = flags;
          hint_status = hint_status;
        }))

  unfoldable pub read_nodes : List J.Json → M J (List TextNode)
  unfolding from_json
  read_nodes [] = lift (ok [])
  read_nodes (j ∷ js) = do node ← from_json j; rest ← read_nodes js; lift (ok (node ∷ rest))

  unfoldable pub on_print_json : J.Json → M J (Unit {0})
  unfolding read_nodes
  on_print_json command = do
    kind ← lift (J.value_string command (codes "type") [])
    team ← lift (J.value_int command (codes "team") (negsuc 0))
    slot ← lift (J.value_int command (codes "slot") (negsuc 0))
    message ← lift (J.value_string command (codes "message") [])
    list ← lift (J.get_at command (codes "data"))
    nodes ← read_nodes (J.elements list)
    modify (
        emit (
          Call.on_print_json
            (record { kind = kind; team = team; slot = slot; message = message; nodes = nodes })))

  unfoldable pub tell_stored : Bytes × J.Json → M J (Unit {0})
  tell_stored (key, value) = modify (emit (Call.on_data_storage key value))

  unfoldable pub on_retrieved : J.Json → M J (Unit {0})
  unfolding tell_stored
  on_retrieved command = do
    keys ← lift (J.get_at command (codes "keys"))
    for_each (J.items keys) tell_stored

  unfoldable pub on_set_reply : J.Json → M J (Unit {0})
  on_set_reply command = do
    key ← string_at command (codes "key")
    value ← lift (J.get_at command (codes "value"))
    modify (emit (Call.on_data_storage key value))

  unfoldable pub erase_missing : J.Json → M J (Unit {0})
  erase_missing location = do
    id ← lift (J.get_int64 location)
    modify λ c. record c { missing_locations = erase id c.missing_locations }

  unfoldable pub replace_players : List J.Json → M J (Unit {0})
  unfolding add_player
  replace_players list = do modify λ c. record c { players = [] }; for_each list add_player

  unfoldable pub on_room_update : J.Json → M J (Unit {0})
  unfolding erase_missing replace_players for_elements
  on_room_update command = do
    for_elements command (codes "checked_locations") (λ list. for_each list erase_missing)
    for_elements command (codes "players") replace_players

  unfoldable pub dispatch : Disk J → ℕ → CommandName → J.Json → M J (Unit {0})
  dispatch disk now room_info_command command = on_room_info now command
  dispatch disk now connection_refused command = on_connection_refused command
  dispatch disk now connected command = on_connected command
  dispatch disk now received_items command = on_received_items command
  dispatch disk now location_info command = on_location_info command
  dispatch disk now data_package command = on_data_package disk command
  dispatch disk now print_json command = on_print_json command
  dispatch disk now bounced command = modify (emit (Call.on_bounced command))
  dispatch disk now retrieved command = on_retrieved command
  dispatch disk now set_reply command = on_set_reply command
  dispatch disk now room_update command = on_room_update command
  dispatch disk now other_command command = modify λ c. c

  unfoldable pub process_command : Disk J → ℕ → J.Json → M J (Unit {0})
  unfolding dispatch command_name
  process_command disk now command = do
    cmd ← lift (J.value_string command (codes "cmd") [])
    dispatch disk now (command_name cmd) command

  -- `try { ProcessCommand(command); } catch (const std::exception& ex) { ... }`.
  unfoldable pub guarded : M J (Unit {0}) → Client J → Client J
  guarded m c =
      let (r, c') = m c in elim r [ ok _ ↦ c' | throws what ↦ emit (Call.on_message_error what) c' ]

  unfoldable pub process_commands : Disk J → ℕ → List J.Json → Client J → Client J
  unfolding guarded
  process_commands disk now [] c = c
  process_commands disk now (command ∷ commands) c =
      process_commands disk now commands (guarded (process_command disk now command) c)

  unfoldable pub process_message : Disk J → ℕ → Bytes → Client J → Client J
  unfolding process_commands
  process_message disk now message c =
      let malformed = emit (Call.on_message_error (codes "received malformed packet")) c in
      elim (J.parse message) [
        | none ↦ malformed
        | some packet ↦
            if J.is_array packet then process_commands disk now (J.elements packet) c else malformed
      ]
