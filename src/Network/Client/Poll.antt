-- ===== src/Network/Client/Poll.antt =====
-- network/AP_Client.cpp: `Poll`, which drains what the transport's thread queued and drives the
-- reconnection. `now` is the monotonic clock, in milliseconds, read once for a call.
use mod_i_found_your_sword.Prelude.{
  ℕ, ◌+◌, ltb, leb, Bool, true, false, ◌&&◌, ◌||◌, not, List, [], ◌∷◌, ◌++◌, if◌then◌else◌,
}
use mod_i_found_your_sword.Network.Client.Json.{JsonLib}
use mod_i_found_your_sword.Network.Client.State.{
  Client, Call, QueueEvent, emit, rank, disconnected, socket_connecting, socket_connected,
}
use mod_i_found_your_sword.Network.Client.Protocol.{connect_socket}
use mod_i_found_your_sword.Network.Client.DataPackage.{Disk}
use mod_i_found_your_sword.Network.Client.Commands.{process_message}

-- What the error handler set by `ConnectSocket` pushes, by the category of the error code, and what
-- the other handlers push. `EventQueue::Push` appends.
module _ {J : JsonLib} where
  unfoldable pub push : QueueEvent → Client J → Client J
  push event c = record c { event_queue = c.event_queue ++ event ∷ [] }

  unfoldable pub drain : Client J → Client J × List QueueEvent
  drain c = (record c { event_queue = [] }, c.event_queue)

module _ (J : JsonLib) (disk : Disk J) (now : ℕ) where
  -- The `Close` case: the attempt that failed is followed by one over the other scheme.
  unfoldable pub handle_close : Bool → Client J → Client J
  handle_close fallback c =
      let told = emit Call.on_socket_disconnected (record c { state = disconnected }) in
      let failed =
        if fallback then c else record c { current_attempt_tls = not c.current_attempt_tls } in
      let after = if ltb 1 (rank c.state) then told else failed in
      if fallback then after else record after { state = disconnected }

  -- One event of the loop: `true` asks for an attempt without TLS.
  unfoldable pub handle_event : QueueEvent → Bool → Client J → Client J × Bool
  handle_event QueueEvent.opened fallback c = (
    record c {
      state = socket_connected;
      reconnect_interval = 1500;
      pending_data_package_requests = 0;
    },
    fallback,
  )
  handle_event (QueueEvent.tls_handshake_failed text) fallback c = elim c.state [
    | socket_connecting ↦ (c, true)
    | _ ↦ (emit (Call.on_socket_error text) c, fallback)
  ]
  handle_event QueueEvent.closed fallback c = (handle_close fallback c, fallback)
  handle_event (QueueEvent.message text) fallback c = (process_message J disk now text c, fallback)
  handle_event (QueueEvent.error text) fallback c = (emit (Call.on_socket_error text) c, fallback)

  unfoldable pub handle_events : List QueueEvent → Bool → Client J → Client J × Bool
  handle_events [] fallback c = (c, fallback)
  handle_events (e ∷ es) fallback c =
      let (c', fallback') = handle_event e fallback c in handle_events es fallback' c'

  unfoldable pub reconnect : Bool → Client J → Client J
  reconnect fallback c =
      if fallback
      then connect_socket false now c
      else if ltb (rank c.state) 2
          && (c.reconnect_now || leb (c.last_connect_attempt + c.reconnect_interval) now)
      then connect_socket c.current_attempt_tls now c
      else c

  unfoldable pub poll : Client J → Client J
  poll c =
      let (c', events) = drain c in
      let (c'', fallback) = handle_events events false c' in reconnect fallback c''
