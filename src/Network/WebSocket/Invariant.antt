-- ===== src/Network/WebSocket/Invariant.antt =====
-- What holds of the client of network/AP_WebSocketClient.cpp between two completions.
use mod_i_found_your_sword.Prelude.{
  ℕ, ◌+◌, ◌≤◌, ◌<◌, ◌≡◌, Bool, true, false, List, [], ◌∷◌, length, length-append, arith,
}
use mod_i_found_your_sword.Network.WebSocket.{
  Bytes, Outcome, disconnected, connecting, connected, closing,
}
use mod_i_found_your_sword.Network.WebSocket.System.{
  System, Event, connect_called, send_called, close_called, stop_called, resolve_done, connect_done,
  ssl_handshake_done, handshake_done, read_done, write_done, close_done, step, run, start,
  step_connect, connect_once, step_send, step_close, step_stop, step_resolved, step_connected,
  step_ssl_handshake, step_handshake, step_read, step_write, step_closed,
}

abbrev pub bit : Bool → ℕ
bit true = 1
bit false = 0

-- The stages of a connection that are under way.
abbrev pub stages : System → ℕ
stages s = s.resolves + s.connects + s.ssl_handshakes + s.handshakes

pub record Inv (s : System) : Type 0 where
  pub one_stage : stages s ≤ 1
  pub stage_connecting : stages s ≡ 1 → s.client.state ≡ connecting
  pub one_read : s.reads ≤ 1
  pub one_close : s.closes ≤ 1
  pub write_flag : s.writes ≡ bit s.client.writing
  pub front_kept : s.client.writing ≡ true → 0 < length s.client.write_queue
  pub unused :
      s.used ≡ false
      → (s.client.state ≡ disconnected)
        × (s.reads + s.writes + s.told_closed + s.opened ≡ 0)
        × (length s.client.write_queue ≡ 0)
  pub early :
      s.client.state ≡ connecting
      → (s.reads + s.writes + s.told_closed + s.opened ≡ 0) × (length s.client.write_queue ≡ 0)
  pub close_alone : s.closes ≡ 1 → (s.client.state ≡ closing) × (s.writes ≡ 0)
  pub opened_once : s.opened ≤ 1
  pub told_once : s.told_closed ≤ 1
  pub told_at_end : s.told_closed ≡ 1 → s.client.state ≡ disconnected
  pub deferred :
      s.client.stopped ≡ false
      → s.client.close_requested ≡ true
      → (s.client.state ≡ closing) × (s.writes ≡ 1)
  pub handler_kept : s.client.close_handler ≡ true
  pub live_connecting : s.client.stopped ≡ false → s.client.state ≡ connecting → stages s ≡ 1
  pub live_connected : s.client.stopped ≡ false → s.client.state ≡ connected → s.reads ≡ 1
  pub live_closing :
      s.client.stopped ≡ false
      → s.client.state ≡ closing
      → s.closes + bit s.client.close_requested ≡ 1
  pub told_if_ended :
      s.client.stopped ≡ false → s.used ≡ true → s.client.state ≡ disconnected → s.told_closed ≡ 1
  pub queue_idle :
      s.client.stopped ≡ false
      → s.client.state ≡ connected
      → s.client.writing ≡ false
      → length s.client.write_queue ≡ 0

connect_once-Inv : (h p pa : Bytes) (s : System) → Inv s → Inv (connect_once h p pa s)
unfolding connect_once step_connect
connect_once-Inv h p pa s v = ground arith

step_send-Inv : (m : Bytes) (s : System) → Inv s → Inv (step_send m s)
unfolding step_send
step_send-Inv m s v = ground (arith, length-append s.client.write_queue (m ∷ []))

step_close-Inv : (s : System) → Inv s → Inv (step_close s)
unfolding step_close
step_close-Inv s v = ground arith

step_stop-Inv : (s : System) → Inv s → Inv (step_stop s)
unfolding step_stop
step_stop-Inv s v = ground arith

step_resolved-Inv : (ec : Outcome) (s : System) → Inv s → Inv (step_resolved ec s)
unfolding step_resolved
step_resolved-Inv ec s v = ground arith

step_connected-Inv : (sni ec : Outcome) (s : System) → Inv s → Inv (step_connected sni ec s)
unfolding step_connected
step_connected-Inv sni ec s v = ground arith

step_ssl_handshake-Inv : (ec : Outcome) (s : System) → Inv s → Inv (step_ssl_handshake ec s)
unfolding step_ssl_handshake
step_ssl_handshake-Inv ec s v = ground arith

step_handshake-Inv : (ec : Outcome) (s : System) → Inv s → Inv (step_handshake ec s)
unfolding step_handshake
step_handshake-Inv ec s v = ground arith

step_read-Inv : (ec : Outcome) (chunk : Bytes) (s : System) → Inv s → Inv (step_read ec chunk s)
unfolding step_read
step_read-Inv ec chunk s v = ground arith

step_write-Inv : (ec : Outcome) (s : System) → Inv s → Inv (step_write ec s)
unfolding step_write
step_write-Inv ec s v = ground arith

step_closed-Inv : (ec : Outcome) (s : System) → Inv s → Inv (step_closed ec s)
unfolding step_closed
step_closed-Inv ec s v = ground arith

-- One step keeps the invariant, whatever is called or completes and with whatever outcome.
pub step-Inv : (s : System) (e : Event) → Inv s → Inv (step s e)
unfolding step
step-Inv s (connect_called h p pa) v = connect_once-Inv h p pa s v
step-Inv s (send_called m) v = step_send-Inv m s v
step-Inv s close_called v = step_close-Inv s v
step-Inv s stop_called v = step_stop-Inv s v
step-Inv s (resolve_done ec) v = step_resolved-Inv ec s v
step-Inv s (connect_done sni ec) v = step_connected-Inv sni ec s v
step-Inv s (ssl_handshake_done ec) v = step_ssl_handshake-Inv ec s v
step-Inv s (handshake_done ec) v = step_handshake-Inv ec s v
step-Inv s (read_done ec chunk) v = step_read-Inv ec chunk s v
step-Inv s (write_done ec) v = step_write-Inv ec s v
step-Inv s (close_done ec) v = step_closed-Inv ec s v

pub start-Inv : (tls : Bool) → Inv (start tls)
unfolding start
start-Inv tls = ground arith

run-Inv : (s : System) (es : List Event) → Inv s → Inv (run s es)
unfolding run
run-Inv s [] v = v
run-Inv s (e ∷ es) v = run-Inv (step s e) es (step-Inv s e v)

-- Of everything that can happen to a new client.
pub run-start-Inv : (tls : Bool) (es : List Event) → Inv (run (start tls) es)
run-start-Inv tls es = run-Inv (start tls) es (start-Inv tls)
