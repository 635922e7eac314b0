-- ===== src/Network/WebSocket.antt =====
-- network/AP_WebSocketClient.h and .cpp: the asynchronous client. A member function is a function
-- from the object to the new object and the calls that it makes outside, in order: operations
-- that it starts on the stream, and callbacks of its owner. A callback that is not set is a
-- `false` flag and is not called. Callbacks do not call the client back: the owner's only push
-- onto its event queue.
pub mod System
pub mod Invariant
pub mod Safety
pub mod Delivery
mod Examples
use mod_i_found_your_sword.Prelude.{
  ℕ, if◌then◌else◌, Bool, true, false, not, ◌&&◌, ◌||◌, List, [], ◌∷◌, ◌++◌, Option, none, some,
}

pub data State : Type 0 where
  disconnected connecting connected closing : State

-- The two tests that the code makes of a `beast::error_code`: whether it is
-- `websocket::error::closed`, and whether its category is that of SSL.
pub data ErrorCode : Type 0 where
  closed : ErrorCode
  ssl_error : ℕ → ErrorCode
  other_error : ℕ → ErrorCode

-- The bytes of a `std::string`.
abbrev pub Bytes : Type 0
Bytes = List ℕ

pub data Call : Type 0 where
  async_resolve : Bytes → Bytes → Call
  async_connect : Call
  async_ssl_handshake : Call
  async_handshake : Bytes → Bytes → Call
  async_read : Call
  async_write : Bytes → Call
  async_close : Call
  cancel_resolver : Call
  close_socket : Call
  call_on_open : Call
  call_on_close : Call
  call_on_message : Bytes → Call
  call_on_error : ErrorCode → Call

pub record WebSocketClient : Type 0 where
  pub tls : Bool
  pub read_buffer : Bytes
  pub write_queue : List Bytes
  pub writing : Bool
  pub close_requested : Bool
  pub stopped : Bool
  pub host : Bytes
  pub port : Bytes
  pub path : Bytes
  pub state : State
  pub open_handler : Bool
  pub close_handler : Bool
  pub message_handler : Bool
  pub error_handler : Bool

abbrev pub Result : Type 0
Result = WebSocketClient × List Call

-- The constructor.
unfoldable pub create : Bool → WebSocketClient
create tls = record {
  tls = tls;
  read_buffer = [];
  write_queue = [];
  writing = false;
  close_requested = false;
  stopped = false;
  host = [];
  port = [];
  path = [];
  state = disconnected;
  open_handler = false;
  close_handler = false;
  message_handler = false;
  error_handler = false;
}

-- `SetOpenHandler`, `SetCloseHandler`, `SetMessageHandler` and `SetErrorHandler`: `true` sets a
-- handler, `false` an empty `std::function`.
unfoldable pub set_open_handler : Bool → WebSocketClient → WebSocketClient
set_open_handler handler w = record w { open_handler = handler }

unfoldable pub set_close_handler : Bool → WebSocketClient → WebSocketClient
set_close_handler handler w = record w { close_handler = handler }

unfoldable pub set_message_handler : Bool → WebSocketClient → WebSocketClient
set_message_handler handler w = record w { message_handler = handler }

unfoldable pub set_error_handler : Bool → WebSocketClient → WebSocketClient
set_error_handler handler w = record w { error_handler = handler }

-- `if (handler) handler(...)`.
abbrev pub call_if : Bool → Call → List Call → List Call
call_if set c rest = if set then c ∷ rest else rest

abbrev pub is_disconnected : State → Bool
is_disconnected disconnected = true
is_disconnected _ = false

abbrev pub is_connected : State → Bool
is_connected connected = true
is_connected _ = false

abbrev pub is_closing : State → Bool
is_closing closing = true
is_closing _ = false

abbrev pub is_closed : ErrorCode → Bool
is_closed closed = true
is_closed _ = false

abbrev pub is_empty {ℓ} : {A : Type ℓ} → List A → Bool
is_empty [] = true
is_empty (_ ∷ _) = false

-- `std::queue::pop`. On an empty queue the source would be undefined; the model leaves it empty.
abbrev pub pop : List Bytes → List Bytes
pop [] = []
pop (_ ∷ rest) = rest

-- What `async_write` reads: `writeQueue.front()`.
abbrev pub front : List Bytes → Bytes
front [] = []
front (m ∷ _) = m

unfoldable pub do_read : WebSocketClient → Result
do_read w = (w, async_read ∷ [])

unfoldable pub do_write : WebSocketClient → Result
do_write w = (record w { writing = true }, async_write (front w.write_queue) ∷ [])

unfoldable pub do_close : WebSocketClient → Result
do_close w = (w, async_close ∷ [])

unfoldable pub fail : ErrorCode → WebSocketClient → Result
fail ec w =
    let w' = record w {
      state = disconnected;
      close_requested = false;
      write_queue = if w.writing then w.write_queue else [];
    } in
    (
      w',
      close_socket
          ∷ (if w.stopped
              then []
              else call_if w.error_handler (call_on_error ec)
                  (call_if w.close_handler call_on_close [])),
    )

unfoldable pub connect : Bytes → Bytes → Bytes → WebSocketClient → Result
connect host port path w =
    if is_disconnected w.state
    then (
      record w { host = host; port = port; path = path; state = connecting },
      async_resolve host port ∷ [],
    )
    else (w, [])

unfoldable pub send : Bytes → WebSocketClient → Result
unfolding do_write
send message w =
    let w' = record w { write_queue = w.write_queue ++ message ∷ [] } in
    if is_connected w.state then (if w.writing then (w', []) else do_write w') else (w, [])

unfoldable pub close : WebSocketClient → Result
unfolding do_close
close w =
    let w' = record w { state = closing } in
    if is_connected w.state
    then (if w.writing then (record w' { close_requested = true }, []) else do_close w')
    else (w, [])

unfoldable pub stop : WebSocketClient → Result
stop w =
    if w.stopped
    then (w, [])
    else (record w { stopped = true }, cancel_resolver ∷ close_socket ∷ [])

unfoldable pub get_state : WebSocketClient → State
get_state w = w.state

-- A completion handler's `ec`: `none` when the operation succeeded.
abbrev pub Outcome : Type 0
Outcome = Option ErrorCode

unfoldable pub on_resolve : Outcome → WebSocketClient → Result
unfolding fail
on_resolve ec w =
    if w.stopped then (w, []) else elim ec [ some e ↦ fail e w | none ↦ (w, async_connect ∷ []) ]

-- `host + ":" + port`.
abbrev pub authority : WebSocketClient → Bytes
authority w = w.host ++ b':' ∷ w.port

-- `sni` is what `SSL_set_tlsext_host_name` comes to: the error that it leaves, if it fails.
unfoldable pub on_connect : Outcome → Outcome → WebSocketClient → Result
unfolding fail
on_connect sni ec w = if w.stopped then (w, []) else elim ec [
  | some e ↦ fail e w
  | none ↦
      if w.tls
      then elim sni [ some e ↦ fail e w | none ↦ (w, async_ssl_handshake ∷ []) ]
      else (w, async_handshake (authority w) w.path ∷ [])
]

unfoldable pub on_ssl_handshake : Outcome → WebSocketClient → Result
unfolding fail
on_ssl_handshake ec w =
    if w.stopped
    then (w, [])
    else elim ec [ some e ↦ fail e w | none ↦ (w, async_handshake (authority w) w.path ∷ []) ]

unfoldable pub on_handshake : Outcome → WebSocketClient → Result
unfolding fail
on_handshake ec w = if w.stopped then (w, []) else elim ec [
  | some e ↦ fail e w
  | none ↦ (record w { state = connected }, call_if w.open_handler call_on_open (async_read ∷ []))
]

unfoldable pub on_read : Outcome → WebSocketClient → Result
unfolding fail
on_read ec w = if w.stopped then (w, []) else elim ec [
  | some e ↦
      if is_disconnected w.state || is_closing w.state
      then (w, [])
      else if is_closed e
      then (record w { state = disconnected }, call_if w.close_handler call_on_close [])
      else fail e w
  | none ↦ (
    record w { read_buffer = [] },
    call_if w.message_handler (call_on_message w.read_buffer) (async_read ∷ []),
  )
]

on_write_error : ErrorCode → WebSocketClient → Result
unfolding fail
on_write_error e w =
    if w.close_requested
    then (
      record w { close_requested = false; state = disconnected },
      close_socket ∷ call_if w.close_handler call_on_close [],
    )
    else if is_disconnected w.state || is_closing w.state
    then (w, [])
    else fail e w

on_write_ok : WebSocketClient → Result
unfolding do_write do_close
on_write_ok w =
    let w' = record w { write_queue = pop w.write_queue } in
    if w.close_requested
    then do_close (record w' { close_requested = false })
    else if not (is_empty w'.write_queue) && is_connected w.state
    then do_write w'
    else (w', [])

unfoldable pub on_write : Outcome → WebSocketClient → Result
unfolding on_write_error on_write_ok
on_write ec w =
    let w' = record w { writing = false } in
    if w.stopped then (w', []) else elim ec [ some e ↦ on_write_error e w' | none ↦ on_write_ok w' ]

unfoldable pub on_close : Outcome → WebSocketClient → Result
on_close ec w =
    let w' = record w { state = disconnected } in
    let told = call_if w.close_handler call_on_close [] in
    if w.stopped then (w', []) else elim ec [
      | some e ↦
          if is_closed e then (w', told) else (w', call_if w.error_handler (call_on_error e) told)
      | none ↦ (w', told)
    ]
