-- ===== src/Network/Client/Protocol.antt =====
-- network/AP_Client.cpp: the constructor, the connection and the protocol commands, each from the
-- object to its result and the new object.
use mod_i_found_your_sword.Prelude.{
  ℕ, ◌*◌, min, leb, ℤ, negsuc, Bool, true, false, ◌||◌, not, List, [], none, some, if◌then◌else◌,
  ℤ-eq, bytes-eq,
}
use mod_i_found_your_sword.Network.WebSocket
use mod_i_found_your_sword.Network.WebSocket.{is_empty}
use mod_i_found_your_sword.Network.Client.Json.{JsonLib, Bytes}
use mod_i_found_your_sword.Network.Client.Text.{strip_unprintable, parse_host}
use mod_i_found_your_sword.Network.Client.State.{
  Client, Packet, Call, State, ClientStatus, unknown, disconnected, socket_connecting,
  socket_connected, room_info, slot_connected, rank, emit, erase_all, insert_all,
}

module _ {J : JsonLib} where
  -- The constructor.
  unfoldable pub create : J.Double → Bytes → Bytes → Bytes → Bytes → Client J
  unfolding parse_host
  create zero_seconds uuid game host port =
      let (name, tls) = parse_host host in
      record {
        uuid = uuid;
        game = game;
        host = name;
        port = port;
        prefer_tls = tls;
        current_attempt_tls = tls;
        ws = none;
        event_queue = [];
        state = disconnected;
        client_status = unknown;
        slot_name = [];
        team = negsuc 0;
        slotnr = negsuc 0;
        last_connect_attempt = 0;
        reconnect_interval = 1500;
        reconnect_now = true;
        check_queue = [];
        missing_locations = [];
        players = [];
        slot_info = [];
        data_package = [];
        server_checksums = [];
        game_item_map = [];
        game_location_map = [];
        pending_data_package_requests = 0;
        server_connect_time = zero_seconds;
        local_connect_time = 0;
        out = [];
      }

  -- `if (ws) ws->Stop()`.
  abbrev pub stop_socket : Client J → Client J
  stop_socket c = elim c.ws [ some _ ↦ emit Call.ws_stop c | none ↦ c ]

  -- `now` is the monotonic clock, in milliseconds.
  unfoldable pub connect_socket : Bool → ℕ → Client J → Client J
  connect_socket use_tls now c =
      let stopped = stop_socket (record c { reconnect_now = false }) in
      let made = emit (Call.ws_create use_tls) (record stopped {
        event_queue = [];
        state = socket_connecting;
        current_attempt_tls = use_tls;
        ws = some WebSocket.disconnected;
      }) in
      let started = emit (Call.ws_connect c.host c.port) made in
      record started {
        last_connect_attempt = now;
        reconnect_interval = min (c.reconnect_interval * 2) 15000;
      }

  unfoldable pub reset : J.Double → Client J → Client J
  reset zero_seconds c = record (stop_socket c) {
    event_queue = [];
    ws = none;
    state = disconnected;
    current_attempt_tls = c.prefer_tls;
    reconnect_now = true;
    reconnect_interval = 1500;
    last_connect_attempt = 0;
    check_queue = [];
    missing_locations = [];
    client_status = unknown;
    slot_name = [];
    team = negsuc 0;
    slotnr = negsuc 0;
    players = [];
    slot_info = [];
    server_checksums = [];
    game_item_map = [];
    game_location_map = [];
    pending_data_package_requests = 0;
    server_connect_time = zero_seconds;
    local_connect_time = 0;
  }

  -- A packet goes out only over a transport that is connected; otherwise it is dropped.
  unfoldable pub send : Packet J.Json → Client J → Client J
  send packet c = elim c.ws [ some WebSocket.connected ↦ emit (Call.ws_send packet) c | _ ↦ c ]

  -- The guard that most commands share: below the state the command does nothing and says so.
  abbrev pub from_state : State → Client J → Client J → Client J × Bool
  from_state s c done = if leb (rank s) (rank c.state) then (done, true) else (c, false)

  unfoldable pub connect_slot : Bytes → Bytes → ℤ → List Bytes → Client J → Client J × Bool
  unfolding send
  connect_slot name password items_handling tags c = from_state socket_connected c (
      send (Packet.connect c.game c.uuid name password items_handling tags)
        (record c { slot_name = name }))

  unfoldable pub connect_update : ℤ → List Bytes → Client J → Client J × Bool
  unfolding send
  connect_update items_handling tags c =
      from_state socket_connected c (send (Packet.connect_update items_handling tags) c)

  unfoldable pub location_checks : List ℤ → Client J → Client J × Bool
  unfolding send
  location_checks locations c =
      let c' = record c { missing_locations = erase_all locations c.missing_locations } in
      elim c.state [
        | slot_connected ↦ (send (Packet.location_checks locations) c', true)
        | _ ↦ (record c' { check_queue = insert_all locations c.check_queue }, true)
      ]

  unfoldable pub location_scouts : List ℤ → ℤ → Client J → Client J × Bool
  unfolding send
  location_scouts locations create_as_hint c =
      from_state slot_connected c (send (Packet.location_scouts locations create_as_hint) c)

  unfoldable pub status_update : ClientStatus → Client J → Client J × Bool
  unfolding send
  status_update status c = elim c.state [
    | slot_connected ↦ (send (Packet.status_update status) c, true)
    | _ ↦ (record c { client_status = status }, false)
  ]

  unfoldable pub bounce : J.Json → List Bytes → List ℤ → List Bytes → Client J → Client J × Bool
  unfolding send
  bounce payload games slots tags c =
      from_state room_info c (send (Packet.bounce payload games slots tags) c)

  unfoldable pub say : Bytes → Client J → Client J × Bool
  unfolding send
  say text c =
      let sanitized = strip_unprintable text in
      if not (leb 4 (rank c.state)) || is_empty sanitized
      then (c, false)
      else (send (Packet.say sanitized) c, true)

  unfoldable pub get : List Bytes → Client J → Client J × Bool
  unfolding send
  get keys c = from_state slot_connected c (send (Packet.get keys) c)

  unfoldable pub set_notify : List Bytes → Client J → Client J × Bool
  unfolding send
  set_notify keys c = from_state slot_connected c (send (Packet.set_notify keys) c)

  unfoldable pub set : Bytes → J.Json → Client J → Client J × Bool
  unfolding send
  set key value c = from_state slot_connected c (send (Packet.set key value) c)
