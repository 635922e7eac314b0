-- ===== src/Network/WebSocket/Safety.antt =====
-- What the owner of a client of network/AP_WebSocketClient.cpp, and the stream under it, can rely
-- on over a whole history.
use mod_i_found_your_sword.Prelude.{
  ◌+◌, ◌≤◌, ◌<◌, ◌≡◌, refl, ◌∙◌, Bool, true, false, List, [], ◌∷◌, ◌++◌, length, arith, none, some,
  if◌then◌else◌,
}
use mod_i_found_your_sword.Network.WebSocket.{
  WebSocketClient, Bytes, ErrorCode, disconnected, async_write, fail, connect, send, on_resolve,
  on_connect, on_ssl_handshake, on_handshake, on_write,
}
use mod_i_found_your_sword.Network.WebSocket.System.{
  System, Event, connect_called, step, run, start, step_connect, step_send, step_close, step_stop,
  step_resolved, step_connected, step_ssl_handshake, step_handshake, step_read, step_write,
  step_closed,
}
use mod_i_found_your_sword.Network.WebSocket.Invariant.{stages, run-start-Inv}

-- In every history of a client that its owner connects once, no two `async_write` overlap, no `async_close` overlaps an
-- `async_write` or another `async_close`, no two `async_read` overlap, and while a write is
-- outstanding the queue that it reads from, and that its completion pops, is not empty.
pub run-no_overlap :
    (tls : Bool) (es : List Event)
    → let s = run (start tls) es in
      (s.writes + s.closes ≤ 1) × (s.reads ≤ 1) × (0 < s.writes → 0 < length s.client.write_queue)
run-no_overlap tls es = let v = run-start-Inv tls es in ground arith

-- In every history of a client that is connected once, the owner is told at most once that the client opened and at most once that it
-- closed, and once told of the close the state is `disconnected`.
pub run-told_once :
    (tls : Bool) (es : List Event)
    → let s = run (start tls) es in
      (s.opened ≤ 1) × (s.told_closed ≤ 1) × (s.told_closed ≡ 1 → s.client.state ≡ disconnected)
run-told_once tls es = let v = run-start-Inv tls es in (v.opened_once, v.told_once, v.told_at_end)

-- No close goes unreported: when a client that was connected, once, and not stopped has nothing
-- outstanding any more, its state is `disconnected` and the owner was told of the close, once.
pub run-close_reported :
    (tls : Bool) (es : List Event)
    → let s = run (start tls) es in
      s.used ≡ true
      → s.client.stopped ≡ false
      → stages s + s.reads + s.writes + s.closes ≡ 0
      → (s.client.state ≡ disconnected) × (s.told_closed ≡ 1)
run-close_reported tls es used going quiet = let v = run-start-Inv tls es in ground arith

-- What the callbacks have told the owner.
abbrev pub SameTold : System → System → Type 0
SameTold s t =
    (t.opened ≡ s.opened)
    × (t.told_closed ≡ s.told_closed)
    × (t.told_errors ≡ s.told_errors)
    × (t.messages ≡ s.messages)

-- A step of an owner that may call `Connect` any number of times.
unfoldable pub step_freely : System → Event → System
unfolding step step_connect
step_freely s (connect_called h p pa) = step_connect h p pa s
step_freely s e = step s e

unfoldable pub run_freely : System → List Event → System
unfolding step_freely
run_freely s [] = s
run_freely s (e ∷ es) = run_freely (step_freely s e) es

step-silent :
    (s : System) (e : Event)
    → s.client.stopped ≡ true
    → SameTold s (step_freely s e) × ((step_freely s e).client.stopped ≡ true)
unfolding step_freely step step_connect step_send step_close step_stop step_resolved step_connected
    step_ssl_handshake step_handshake step_read step_write step_closed
step-silent s (connect_called h p pa) st = ground arith
step-silent s _ st = ground arith

stopped-silent :
    (s : System) (es : List Event) → s.client.stopped ≡ true → SameTold s (run_freely s es)
unfolding run_freely
stopped-silent s [] st = (refl, refl, refl, refl)
stopped-silent s (e ∷ es) st =
    let (now, still) = step-silent s e st in
    let later = stopped-silent (step_freely s e) es still in
    (later.0 ∙ now.0, later.1 ∙ now.1, later.2 ∙ now.2, later.3 ∙ now.3)

-- `Stop` itself runs no callback, and after it none runs any more, in whatever state the client was,
-- whatever is called, `Connect` included, and whatever was outstanding and completes.
pub run-silent : (s : System) (es : List Event) → SameTold s (run_freely (step_stop s) es)
unfolding step_stop
run-silent s es =
    let now : SameTold s (step_stop s) × ((step_stop s).client.stopped ≡ true) = ground arith in
    let later = stopped-silent (step_stop s) es now.1 in
    (later.0 ∙ now.0.0, later.1 ∙ now.0.1, later.2 ∙ now.0.2, later.3 ∙ now.0.3)

-- The client after its connection failed while a write was in flight, that write failed too, and
-- the same object was connected again.
unfoldable pub reconnect :
    ErrorCode → ErrorCode → Bytes → Bytes → Bytes → WebSocketClient → WebSocketClient
unfolding fail on_write connect on_resolve on_connect on_ssl_handshake on_handshake
reconnect e e' host port path w =
    let failed = (on_write (some e') (fail e w).0).0 in
    let resolved = (on_resolve none (connect host port path failed).0).0 in
    let reached = (on_connect none none resolved).0 in
    let secured = (on_ssl_handshake none reached).0 in
    (on_handshake none (if w.tls then secured else reached)).0

-- The queue is not emptied when the write that kept it completes: on the object connected again,
-- if it was not stopped, the first `Send` writes the message whose write failed, and queues its own
-- behind that one and the others that were waiting.
pub send-reconnect :
    (e e' : ErrorCode) (host port path old m : Bytes) (rest : List Bytes) (w : WebSocketClient)
    → w.stopped ≡ false
    → w.writing ≡ true
    → w.write_queue ≡ old ∷ rest
    → ((send m (reconnect e e' host port path w)).1 ≡ async_write old ∷ [])
      × ((send m (reconnect e e' host port path w)).0.write_queue ≡ old ∷ (rest ++ m ∷ []))
unfolding send reconnect
send-reconnect e e' host port path old m rest w going busy queue = ground arith
