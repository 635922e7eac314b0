-- ===== src/Network/WebSocket/Examples.antt =====
-- Tests of the client of network/AP_WebSocketClient.cpp on short histories.
use mod_i_found_your_sword.Prelude.{
  ◌+◌, ◌≤◌, ◌<◌, ◌≡◌, refl, true, false, List, [], ◌∷◌, ◌++◌, length, none, some,
}
use mod_i_found_your_sword.Network.WebSocket.{
  WebSocketClient, create, connected, disconnected, closing, send, async_write, closed, ssl_error,
  other_error,
}
use mod_i_found_your_sword.Network.WebSocket.System.{
  Event, connect_called, send_called, close_called, resolve_done, connect_done, ssl_handshake_done,
  handshake_done, read_done, write_done, close_done, run, start, step_stop,
}
use mod_i_found_your_sword.Network.WebSocket.Safety.{
  run-no_overlap, run-close_reported, SameTold, run_freely, run-silent, reconnect, send-reconnect,
}
use mod_i_found_your_sword.Network.WebSocket.Delivery.{WrittenInOrder, run-start-WrittenInOrder}

abbrev opening : List Event
opening =
    connect_called (1 ∷ []) (2 ∷ []) (3 ∷ [])
    ∷ resolve_done none
    ∷ connect_done none none
    ∷ ssl_handshake_done none
    ∷ handshake_done none
    ∷ []

-- Two messages sent, and the close asked for while the first is being written.
abbrev session : List Event
session = opening ++ send_called (7 ∷ []) ∷ send_called (8 ∷ []) ∷ close_called ∷ []

abbrev ending : List Event
ending = write_done none ∷ close_done none ∷ read_done (some closed) [] ∷ []

session_closing : (run (start true) session).client.state ≡ closing
unfolding run start
session_closing = refl

session_closed : (run (run (start true) session) ending).told_closed ≡ 1
unfolding run start
session_closed = refl

run-no_overlap_example :
    let s = run (start true) session in
    (s.writes + s.closes ≤ 1) × (s.reads ≤ 1) × (0 < s.writes → 0 < length s.client.write_queue)
run-no_overlap_example = run-no_overlap true session

run-close_reported_example :
    ((run (start true) (session ++ ending)).client.state ≡ disconnected)
    × ((run (start true) (session ++ ending)).told_closed ≡ 1)
unfolding run start
run-close_reported_example = run-close_reported true (session ++ ending) refl refl refl

run-silent_example :
    SameTold
      (run (start true) session)
      (run_freely (step_stop (run (start true) session)) (connect_called [] [] [] ∷ ending))
run-silent_example = run-silent (run (start true) session) (connect_called [] [] [] ∷ ending)

run-start-WrittenInOrder_example : WrittenInOrder (run (start true) session)
unfolding run start
run-start-WrittenInOrder_example = run-start-WrittenInOrder true session refl

-- A client that is writing the first of two messages.
abbrev busy : WebSocketClient
busy = record (create false) {
  state = connected;
  writing = true;
  write_queue = (7 ∷ []) ∷ (8 ∷ []) ∷ [];
}

send-reconnect_example :
    ((send (9 ∷ []) (reconnect (ssl_error 1) (other_error 2) [] [] [] busy)).1
      ≡ async_write (7 ∷ []) ∷ [])
    × ((send (9 ∷ []) (reconnect (ssl_error 1) (other_error 2) [] [] [] busy)).0.write_queue
        ≡ (7 ∷ []) ∷ (8 ∷ []) ∷ (9 ∷ []) ∷ [])
unfolding create
send-reconnect_example =
    send-reconnect (ssl_error 1) (other_error 2) [] [] [] (7 ∷ []) (9 ∷ []) ((8 ∷ []) ∷ []) busy
      refl refl refl
