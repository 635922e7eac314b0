-- ===== src/Network/WebSocket/System.antt =====
-- The client of network/AP_WebSocketClient.cpp together with what it has outstanding: the
-- executor runs one call or one completion at a time, in any order, with any outcome, and a
-- completion runs only for an operation that was started. `Connect` itself would start again on an
-- object that has ended (`step_connect`). The histories here are those of an owner that calls it once
-- on an object (`connect_once`), which is a condition on the owner: `Client::ConnectSocket` makes a new
-- object for each attempt.
use mod_i_found_your_sword.Prelude.{
  ℕ, zero, suc, if◌then◌else◌, Bool, true, false, List, [], ◌∷◌, ◌++◌,
}
use mod_i_found_your_sword.Network.WebSocket.{
  WebSocketClient, Call, Bytes, Outcome, Result, async_resolve, async_connect, async_ssl_handshake,
  async_handshake, async_read, async_write, async_close, cancel_resolver, close_socket,
  call_on_open, call_on_close, call_on_message, call_on_error, is_connected, create, connect, send,
  close, stop, on_resolve, on_connect, on_ssl_handshake, on_handshake, on_read, on_write, on_close,
}

pub record System : Type 0 where
  pub client : WebSocketClient
  pub used : Bool  -- whether `Connect` was called
  pub resolves : ℕ  -- operations outstanding, by kind
  pub connects : ℕ
  pub ssl_handshakes : ℕ
  pub handshakes : ℕ
  pub reads : ℕ
  pub writes : ℕ
  pub closes : ℕ
  pub opened : ℕ  -- how often each callback ran, and the messages handed over
  pub told_closed : ℕ
  pub told_errors : ℕ
  pub messages : List Bytes
  pub accepted : List Bytes  -- what `Send` did not ignore
  pub written : List Bytes  -- what `async_write` was given

-- What a call outside does to the rest of the system.
unfoldable pub perform : Call → System → System
perform (async_resolve h p) s = record s { resolves = suc s.resolves }
perform async_connect s = record s { connects = suc s.connects }
perform async_ssl_handshake s = record s { ssl_handshakes = suc s.ssl_handshakes }
perform (async_handshake a p) s = record s { handshakes = suc s.handshakes }
perform async_read s = record s { reads = suc s.reads }
perform (async_write m) s = record s { writes = suc s.writes; written = s.written ++ m ∷ [] }
perform async_close s = record s { closes = suc s.closes }
perform cancel_resolver s = s
perform close_socket s = s
perform call_on_open s = record s { opened = suc s.opened }
perform call_on_close s = record s { told_closed = suc s.told_closed }
perform (call_on_message m) s = record s { messages = s.messages ++ m ∷ [] }
perform (call_on_error e) s = record s { told_errors = suc s.told_errors }

unfoldable pub perform_all : List Call → System → System
unfolding perform
perform_all [] s = s
perform_all (c ∷ cs) s = perform_all cs (perform c s)

unfoldable pub settle : Result → System → System
unfolding perform_all
settle (w, calls) s = perform_all calls (record s { client = w })

pub data Event : Type 0 where
  connect_called : Bytes → Bytes → Bytes → Event
  send_called : Bytes → Event
  close_called : Event
  stop_called : Event
  resolve_done : Outcome → Event
  connect_done : Outcome → Outcome → Event
  ssl_handshake_done : Outcome → Event
  handshake_done : Outcome → Event
  read_done : Outcome → Bytes → Event
  write_done : Outcome → Event
  close_done : Outcome → Event

unfoldable pub step_connect : Bytes → Bytes → Bytes → System → System
unfolding settle connect
step_connect h p pa s = settle (connect h p pa s.client) (record s { used = true })

-- The owner's part: an object that was connected is not connected again.
unfoldable pub connect_once : Bytes → Bytes → Bytes → System → System
unfolding step_connect
connect_once h p pa s = if s.used then s else step_connect h p pa s

unfoldable pub step_send : Bytes → System → System
unfolding settle send
step_send m s =
    settle (send m s.client)
      (if is_connected s.client.state then record s { accepted = s.accepted ++ m ∷ [] } else s)

unfoldable pub step_close : System → System
unfolding settle close
step_close s = settle (close s.client) s

unfoldable pub step_stop : System → System
unfolding settle stop
step_stop s = settle (stop s.client) s

unfoldable pub step_resolved : Outcome → System → System
unfolding settle on_resolve
step_resolved ec s = elim s.resolves [
  | zero ↦ s
  | suc k ↦ settle (on_resolve ec s.client) (record s { resolves = k })
]

unfoldable pub step_connected : Outcome → Outcome → System → System
unfolding settle on_connect
step_connected sni ec s = elim s.connects [
  | zero ↦ s
  | suc k ↦ settle (on_connect sni ec s.client) (record s { connects = k })
]

unfoldable pub step_ssl_handshake : Outcome → System → System
unfolding settle on_ssl_handshake
step_ssl_handshake ec s = elim s.ssl_handshakes [
  | zero ↦ s
  | suc k ↦ settle (on_ssl_handshake ec s.client) (record s { ssl_handshakes = k })
]

unfoldable pub step_handshake : Outcome → System → System
unfolding settle on_handshake
step_handshake ec s = elim s.handshakes [
  | zero ↦ s
  | suc k ↦ settle (on_handshake ec s.client) (record s { handshakes = k })
]

-- A read appends what arrived to the buffer.
unfoldable pub step_read : Outcome → Bytes → System → System
unfolding settle on_read
step_read ec chunk s = elim s.reads [
  | zero ↦ s
  | suc k ↦
      settle (on_read ec (record (s.client) { read_buffer = s.client.read_buffer ++ chunk }))
        (record s { reads = k })
]

unfoldable pub step_write : Outcome → System → System
unfolding settle on_write
step_write ec s = elim s.writes [
  | zero ↦ s
  | suc k ↦ settle (on_write ec s.client) (record s { writes = k })
]

unfoldable pub step_closed : Outcome → System → System
unfolding settle on_close
step_closed ec s = elim s.closes [
  | zero ↦ s
  | suc k ↦ settle (on_close ec s.client) (record s { closes = k })
]

unfoldable pub step : System → Event → System
step s (connect_called h p pa) = connect_once h p pa s
step s (send_called m) = step_send m s
step s close_called = step_close s
step s stop_called = step_stop s
step s (resolve_done ec) = step_resolved ec s
step s (connect_done sni ec) = step_connected sni ec s
step s (ssl_handshake_done ec) = step_ssl_handshake ec s
step s (handshake_done ec) = step_handshake ec s
step s (read_done ec chunk) = step_read ec chunk s
step s (write_done ec) = step_write ec s
step s (close_done ec) = step_closed ec s

unfoldable pub run : System → List Event → System
unfolding step connect_once step_send step_close step_stop step_resolved step_connected
    step_ssl_handshake step_handshake step_read step_write step_closed
run s [] = s
run s (e ∷ es) = run (step s e) es

-- A new object whose owner has set all four handlers.
unfoldable pub start : Bool → System
unfolding create
start tls = record {
  client = record (create tls) {
    open_handler = true;
    close_handler = true;
    message_handler = true;
    error_handler = true;
  };
  used = false;
  resolves = 0;
  connects = 0;
  ssl_handshakes = 0;
  handshakes = 0;
  reads = 0;
  writes = 0;
  closes = 0;
  opened = 0;
  told_closed = 0;
  told_errors = 0;
  messages = [];
  accepted = [];
  written = [];
}
