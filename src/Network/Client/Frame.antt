-- ===== src/Network/Client/Frame.antt =====
-- What no command of the server touches (`ProcessCommand` of network/AP_Client.cpp).
use mod_i_found_your_sword.Prelude.{
  ℕ, ℤ, succℤ, ◌≡◌, ◌≢◌, List, [], ◌∷◌, arith, codes, negsuc, Option-cases, inl, inr,
}
use mod_i_found_your_sword.Network.Client.Json.{JsonLib, Bytes, Except, ok, throws}
use mod_i_found_your_sword.Network.Client.State.{Client, Call, M, emit, socket_connecting}
use mod_i_found_your_sword.Network.Client.Keeps.{
  Preorder, Keeps, Keeps-bind, Keeps-then, Keeps-lift, Keeps-modify, Keeps-if, Keeps-for_each,
}
use mod_i_found_your_sword.Network.Client.DataPackage.{
  Disk, add_item_name, add_location_name, apply_item_names, apply_location_names, apply_game_data,
  save_data_package_cache,
}
use mod_i_found_your_sword.Network.Client.Commands.{
  CommandName, room_info_command, connection_refused, connected, received_items, location_info,
  data_package, print_json, bounced, retrieved, set_reply, room_update, other_command, int_at,
  int64_at, string_at, add_checksum, for_items, for_elements, on_room_info, read_strings,
  on_connection_refused, add_player, add_slot, flush_checks, flush_status, join_slot, on_connected,
  read_item, read_items, on_received_items, read_locations, on_location_info, add_game,
  count_answer, on_data_package, from_json, read_nodes, on_print_json, tell_stored, on_retrieved,
  on_set_reply, erase_missing, replace_players, on_room_update, dispatch, process_command, guarded,
  process_commands, process_message,
}

module _ {J : JsonLib} where
  -- The transport, the scheme being tried and the pace of the attempts are as before, and so are the
  -- options that the owner set. A client that is not connecting has not become so.
  pub record Frame (c d : Client J) : Type 0 where
    pub same_ws : d.ws ≡ c.ws
    pub same_scheme : d.current_attempt_tls ≡ c.current_attempt_tls
    pub same_interval : d.reconnect_interval ≡ c.reconnect_interval
    pub same_attempt : d.last_connect_attempt ≡ c.last_connect_attempt
    pub same_now : d.reconnect_now ≡ c.reconnect_now
    pub same_queue : d.event_queue ≡ c.event_queue
    pub same_status : d.client_status ≡ c.client_status
    pub not_connecting : c.state ≢ socket_connecting → d.state ≢ socket_connecting

  pub Frame_refl : (c : Client J) → Frame c c
  Frame_refl c = ground arith

  pub Frame_trans : {c d e : Client J} → Frame c d → Frame d e → Frame c e
  Frame_trans f g = ground arith

  instance abbrev Frame-preorder : Preorder Frame
  Frame-preorder = record { refl_at = Frame_refl; trans_at = λ c d e. Frame_trans }

  abbrev Frames : {A : Type 0} → M J A → Type 0
  Frames = Keeps Frame

  add_item_name-Frames :
      (game : Bytes) (entry : Bytes × J.Json) → Frames (add_item_name J game entry)
  unfolding add_item_name
  add_item_name-Frames game (name, id) =
      Keeps-bind (Keeps-lift _) λ code. Keeps-modify _ λ c. ground arith

  add_location_name-Frames :
      (game : Bytes) (entry : Bytes × J.Json) → Frames (add_location_name J game entry)
  unfolding add_location_name
  add_location_name-Frames game (name, id) =
      Keeps-bind (Keeps-lift _) λ code. Keeps-modify _ λ c. ground arith

  apply_item_names-Frames : (game : Bytes) (j : J.Json) → Frames (apply_item_names J game j)
  unfolding apply_item_names
  apply_item_names-Frames game j =
      Keeps-if (J.has_key j (codes "item_name_to_id"))
        (Keeps-then (Keeps-modify _ λ c. ground arith)
          (Keeps-bind (Keeps-lift _) λ names. Keeps-for_each _ (add_item_name-Frames game)))
        (Keeps-modify _ λ c. Frame_refl c)

  apply_location_names-Frames : (game : Bytes) (j : J.Json) → Frames (apply_location_names J game j)
  unfolding apply_location_names
  apply_location_names-Frames game j =
      Keeps-if (J.has_key j (codes "location_name_to_id"))
        (Keeps-then (Keeps-modify _ λ c. ground arith)
          (Keeps-bind (Keeps-lift _) λ names. Keeps-for_each _ (add_location_name-Frames game)))
        (Keeps-modify _ λ c. Frame_refl c)

  apply_game_data-Frames : (game : Bytes) (j : J.Json) → Frames (apply_game_data J game j)
  unfolding apply_game_data
  apply_game_data-Frames game j =
      Keeps-then (Keeps-modify _ λ c. ground arith)
        (Keeps-then (apply_item_names-Frames game j) (apply_location_names-Frames game j))

  for_items-Frames :
      (j : J.Json) (key : Bytes) {body : Bytes × J.Json → M J (Unit {0})}
      → ((e : Bytes × J.Json) → Frames (body e))
      → Frames (for_items J j key body)
  unfolding for_items
  for_items-Frames j key h =
      Keeps-if (J.has_key j key)
        (Keeps-bind (Keeps-lift _)
          λ v. Keeps-if (J.is_object v) (Keeps-for_each _ h) (Keeps-modify _ λ c. Frame_refl c))
        (Keeps-modify _ λ c. Frame_refl c)

  for_elements-Frames :
      (j : J.Json) (key : Bytes) {body : List J.Json → M J (Unit {0})}
      → ((l : List J.Json) → Frames (body l))
      → Frames (for_elements J j key body)
  unfolding for_elements
  for_elements-Frames j key h =
      Keeps-if (J.has_key j key)
        (Keeps-bind (Keeps-lift _)
          λ v. Keeps-if (J.is_array v) (h _) (Keeps-modify _ λ c. Frame_refl c))
        (Keeps-modify _ λ c. Frame_refl c)

  add_checksum-Frames : (entry : Bytes × J.Json) → Frames (add_checksum J entry)
  unfolding add_checksum
  add_checksum-Frames (game, checksum) =
      Keeps-if (J.is_string checksum)
        (Keeps-bind (Keeps-lift _) λ text. Keeps-modify _ λ c. ground arith)
        (Keeps-modify _ λ c. Frame_refl c)

  on_room_info-Frames : (now : ℕ) (j : J.Json) → Frames (on_room_info J now j)
  unfolding on_room_info
  on_room_info-Frames now j = Keeps-then (Keeps-modify _ λ c. ground arith) (
      Keeps-bind (Keeps-lift _) λ time. Keeps-bind (Keeps-lift _) λ seconds.
        Keeps-then (Keeps-modify _ λ c. ground arith) (
          Keeps-then (for_items-Frames j _ add_checksum-Frames)
            (Keeps-then (Keeps-modify _ λ c. ground arith) (Keeps-modify _ λ c. ground arith))))

  int_at-Frames : (j : J.Json) (key : Bytes) → Frames (int_at J j key)
  unfolding int_at
  int_at-Frames j key = Keeps-bind (Keeps-lift _) λ v. Keeps-lift _

  int64_at-Frames : (j : J.Json) (key : Bytes) → Frames (int64_at J j key)
  unfolding int64_at
  int64_at-Frames j key = Keeps-bind (Keeps-lift _) λ v. Keeps-lift _

  string_at-Frames : (j : J.Json) (key : Bytes) → Frames (string_at J j key)
  unfolding string_at
  string_at-Frames j key = Keeps-bind (Keeps-lift _) λ v. Keeps-lift _

  read_strings-Frames : (js : List J.Json) → Frames (read_strings J js)
  unfolding read_strings
  read_strings-Frames [] = Keeps-lift _
  read_strings-Frames (j ∷ js) =
      Keeps-bind (Keeps-lift _) λ text. Keeps-bind (read_strings-Frames js) λ rest. Keeps-lift _

  on_connection_refused-Frames : (j : J.Json) → Frames (on_connection_refused J j)
  unfolding on_connection_refused
  on_connection_refused-Frames j =
      Keeps-bind (Keeps-lift _)
        λ list. Keeps-bind (read_strings-Frames _) λ errors. Keeps-modify _ λ c. ground arith

  add_player-Frames : (p : J.Json) → Frames (add_player J p)
  unfolding add_player
  add_player-Frames p = Keeps-bind (int_at-Frames _ _) λ team.
      Keeps-bind (int_at-Frames _ _) λ slot.
        Keeps-bind (string_at-Frames _ _)
          λ alias. Keeps-bind (string_at-Frames _ _) λ name. Keeps-modify _ λ c. ground arith

  add_slot-Frames : (e : Bytes × J.Json) → Frames (add_slot J e)
  unfolding add_slot
  add_slot-Frames (key, value) = Keeps-bind (string_at-Frames _ _) λ name.
      Keeps-bind (string_at-Frames _ _) λ game. Keeps-bind (int_at-Frames _ _) λ kind.
        Keeps-bind (Keeps-lift _) λ list.
          Keeps-bind (Keeps-lift _)
            λ members. Keeps-bind (Keeps-lift _) λ slot. Keeps-modify _ λ c. ground arith

  flush_checks-Frame : (c : Client J) → Frame c (flush_checks J c)
  unfolding flush_checks
  flush_checks-Frame c = ground arith

  flush_status-Frame : (c : Client J) → Frame c (flush_status J c)
  unfolding flush_status
  flush_status-Frame c = ground arith

  join_slot-Frames :
      (j : J.Json) (team slot : ℤ) (ps : List J.Json) (sd : J.Json) (missing : List ℤ)
      → Frames (join_slot J j team slot ps sd missing)
  unfolding join_slot
  join_slot-Frames j team slot ps sd missing = Keeps-then (Keeps-modify _ λ c. ground arith) (
      Keeps-then (Keeps-for_each ps add_player-Frames) (
        Keeps-then (Keeps-modify _ λ c. ground arith) (
          Keeps-then (for_items-Frames j _ add_slot-Frames) (
            Keeps-then (Keeps-modify _ flush_checks-Frame) (
              Keeps-then (Keeps-modify _ flush_status-Frame) (Keeps-modify _ λ c. ground arith))))))

  on_connected-Frames : (j : J.Json) → Frames (on_connected J j)
  unfolding on_connected
  on_connected-Frames j = Keeps-bind (int_at-Frames _ _) λ team.
      Keeps-bind (int_at-Frames _ _) λ slot. Keeps-bind (Keeps-lift _) λ ps.
        Keeps-bind (Keeps-lift _) λ sd.
          Keeps-bind (Keeps-lift _)
            λ ids. Keeps-bind (Keeps-lift _) λ missing. join_slot-Frames j team slot _ sd missing

  read_item-Frames : (index : ℤ) (j : J.Json) → Frames (read_item J index j)
  unfolding read_item
  read_item-Frames index j = Keeps-bind (int64_at-Frames _ _) λ item.
      Keeps-bind (int64_at-Frames _ _) λ location.
        Keeps-bind (int_at-Frames _ _) λ player. Keeps-bind (Keeps-lift _) λ flags. Keeps-lift _

  read_items-Frames : (index : ℤ) (js : List J.Json) → Frames (read_items J index js)
  unfolding read_items
  read_items-Frames index [] = Keeps-lift _
  read_items-Frames index (j ∷ js) =
      Keeps-bind (read_item-Frames index j)
        λ item. Keeps-bind (read_items-Frames (succℤ index) js) λ rest. Keeps-lift _

  on_received_items-Frames : (j : J.Json) → Frames (on_received_items J j)
  unfolding on_received_items
  on_received_items-Frames j = Keeps-bind (int_at-Frames _ _) λ index.
      Keeps-bind (Keeps-lift _)
        λ list. Keeps-bind (read_items-Frames index _) λ items. Keeps-modify _ λ c. ground arith

  read_locations-Frames : (js : List J.Json) → Frames (read_locations J js)
  unfolding read_locations
  read_locations-Frames [] = Keeps-lift _
  read_locations-Frames (j ∷ js) =
      Keeps-bind (read_item-Frames (negsuc 0) j)
        λ item. Keeps-bind (read_locations-Frames js) λ rest. Keeps-lift _

  on_location_info-Frames : (j : J.Json) → Frames (on_location_info J j)
  unfolding on_location_info
  on_location_info-Frames j =
      Keeps-bind (Keeps-lift _)
        λ list. Keeps-bind (read_locations-Frames _) λ items. Keeps-modify _ λ c. ground arith

  save_data_package_cache-Frame :
      (disk : Disk J) (sum : Bytes) (j : J.Json) (c : Client J)
      → Frame c (save_data_package_cache J disk sum j c)
  unfolding save_data_package_cache
  save_data_package_cache-Frame disk sum j c = ground arith

  add_game-Frames : (disk : Disk J) (e : Bytes × J.Json) → Frames (add_game J disk e)
  unfolding add_game
  add_game-Frames disk (game, j) =
      Keeps-then (apply_game_data-Frames game j)
        (Keeps-bind (Keeps-lift _) λ sum. Keeps-modify _ (save_data_package_cache-Frame disk sum j))

  count_answer-Frame : (c : Client J) → Frame c (count_answer J c)
  unfolding count_answer
  count_answer-Frame c = ground arith

  on_data_package-Frames : (disk : Disk J) (j : J.Json) → Frames (on_data_package J disk j)
  unfolding on_data_package
  on_data_package-Frames disk j = Keeps-bind (Keeps-lift _) λ body.
      Keeps-bind (Keeps-lift _) λ games.
        Keeps-then (Keeps-for_each _ (add_game-Frames disk)) (Keeps-modify _ count_answer-Frame)

  from_json-Frames : (j : J.Json) → Frames (from_json J j)
  unfolding from_json
  from_json-Frames j = Keeps-bind (Keeps-lift _) λ kind. Keeps-bind (Keeps-lift _) λ color.
      Keeps-bind (Keeps-lift _) λ text.
        Keeps-bind (Keeps-lift _) λ player.
          Keeps-bind (Keeps-lift _) λ flags. Keeps-bind (Keeps-lift _) λ hint. Keeps-lift _

  read_nodes-Frames : (js : List J.Json) → Frames (read_nodes J js)
  unfolding read_nodes
  read_nodes-Frames [] = Keeps-lift _
  read_nodes-Frames (j ∷ js) =
      Keeps-bind (from_json-Frames j) λ node. Keeps-bind (read_nodes-Frames js) λ rest. Keeps-lift _

  on_print_json-Frames : (j : J.Json) → Frames (on_print_json J j)
  unfolding on_print_json
  on_print_json-Frames j = Keeps-bind (Keeps-lift _) λ kind. Keeps-bind (Keeps-lift _) λ team.
      Keeps-bind (Keeps-lift _) λ slot. Keeps-bind (Keeps-lift _) λ message.
        Keeps-bind (Keeps-lift _)
          λ list. Keeps-bind (read_nodes-Frames _) λ nodes. Keeps-modify _ λ c. ground arith

  tell_stored-Frames : (e : Bytes × J.Json) → Frames (tell_stored J e)
  unfolding tell_stored
  tell_stored-Frames (key, value) = Keeps-modify _ λ c. ground arith

  on_retrieved-Frames : (j : J.Json) → Frames (on_retrieved J j)
  unfolding on_retrieved
  on_retrieved-Frames j = Keeps-bind (Keeps-lift _) λ keys. Keeps-for_each _ tell_stored-Frames

  on_set_reply-Frames : (j : J.Json) → Frames (on_set_reply J j)
  unfolding on_set_reply
  on_set_reply-Frames j =
      Keeps-bind (string_at-Frames _ _)
        λ key. Keeps-bind (Keeps-lift _) λ value. Keeps-modify _ λ c. ground arith

  erase_missing-Frames : (j : J.Json) → Frames (erase_missing J j)
  unfolding erase_missing
  erase_missing-Frames j = Keeps-bind (Keeps-lift _) λ id. Keeps-modify _ λ c. ground arith

  replace_players-Frames : (js : List J.Json) → Frames (replace_players J js)
  unfolding replace_players
  replace_players-Frames js =
      Keeps-then (Keeps-modify _ λ c. ground arith) (Keeps-for_each js add_player-Frames)

  on_room_update-Frames : (j : J.Json) → Frames (on_room_update J j)
  unfolding on_room_update
  on_room_update-Frames j =
      Keeps-then (for_elements-Frames j _ λ l. Keeps-for_each l erase_missing-Frames)
        (for_elements-Frames j _ replace_players-Frames)

  dispatch-Frames :
      (disk : Disk J) (now : ℕ) (name : CommandName) (j : J.Json)
      → Frames (dispatch J disk now name j)
  unfolding dispatch
  dispatch-Frames disk now room_info_command j = on_room_info-Frames now j
  dispatch-Frames disk now connection_refused j = on_connection_refused-Frames j
  dispatch-Frames disk now connected j = on_connected-Frames j
  dispatch-Frames disk now received_items j = on_received_items-Frames j
  dispatch-Frames disk now location_info j = on_location_info-Frames j
  dispatch-Frames disk now data_package j = on_data_package-Frames disk j
  dispatch-Frames disk now print_json j = on_print_json-Frames j
  dispatch-Frames disk now bounced j = Keeps-modify _ λ c. ground arith
  dispatch-Frames disk now retrieved j = on_retrieved-Frames j
  dispatch-Frames disk now set_reply j = on_set_reply-Frames j
  dispatch-Frames disk now room_update j = on_room_update-Frames j
  dispatch-Frames disk now other_command j = Keeps-modify _ λ c. Frame_refl c

  process_command-Frames :
      (disk : Disk J) (now : ℕ) (j : J.Json) → Frames (process_command J disk now j)
  unfolding process_command
  process_command-Frames disk now j = Keeps-bind (Keeps-lift _) λ cmd. dispatch-Frames disk now _ j

  guarded-Frame : {m : M J (Unit {0})} (c : Client J) → Frames m → Frame c (guarded J m c)
  unfolding guarded
  guarded-Frame {m = m} c h = go (m c).0 (m c).1 (h.run c)
    where
      go :
          (r : Except (Unit {0})) (d : Client J)
          → Frame c d
          → Frame c (elim r [ ok _ ↦ d | throws what ↦ emit (Call.on_message_error what) d ])
      go (ok _) d f = f
      go (throws what) d f = Frame_trans f (ground arith)

  process_commands-Frame :
      (disk : Disk J) (now : ℕ) (js : List J.Json) (c : Client J)
      → Frame c (process_commands J disk now js c)
  unfolding process_commands
  process_commands-Frame disk now [] c = Frame_refl c
  process_commands-Frame disk now (j ∷ js) c =
      Frame_trans (guarded-Frame c (process_command-Frames disk now j))
        (process_commands-Frame disk now js _)

  -- No message of the server opens or stops a transport, changes the scheme being tried or the pace of
  -- the attempts, queues an event, or changes the status kept for the slot, whether it is well formed
  -- or not and whatever commands it holds; and none makes the client connecting.
  pub process_message-Frame :
      (disk : Disk J) (now : ℕ) (message : Bytes) (c : Client J)
      → Frame c (process_message J disk now message c)
  unfolding process_message
  process_message-Frame disk now message c = elim (Option-cases (J.parse message)) [
    | inl e ↦ ground arith
    | inr (packet, e) ↦ ground (arith, process_commands-Frame disk now (J.elements packet) c)
  ]
