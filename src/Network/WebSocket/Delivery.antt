-- ===== src/Network/WebSocket/Delivery.antt =====
-- The order in which network/AP_WebSocketClient.cpp writes what `Send` accepted.
use mod_i_found_your_sword.Prelude.{
  ◌≡◌, ◌⊎◌, inl, inr, refl, sym, ◌∙◌, ap, Bool, true, false, List, [], ◌∷◌, ◌++◌, append-nil,
  append_assoc, arith, length,
}
use mod_i_found_your_sword.Network.WebSocket.{Bytes, Outcome, connecting, connected, pop, front}
use mod_i_found_your_sword.Network.WebSocket.System.{
  System, Event, connect_called, send_called, write_done, step, run, start, step_connect,
  connect_once, step_send, step_close, step_stop, step_resolved, step_connected, step_ssl_handshake,
  step_handshake, step_read, step_write, step_closed,
}
use mod_i_found_your_sword.Network.WebSocket.Invariant.{Inv, step-Inv, start-Inv}

-- What is not written yet, while something may still be.
record InOrder (s : System) : Type 0 where
  nothing_early : s.used ≡ false → (s.accepted ≡ []) × (s.written ≡ [])
  nothing_yet : s.client.state ≡ connecting → (s.accepted ≡ []) × (s.written ≡ [])
  in_flight :
      s.client.stopped ≡ false
      → s.client.writing ≡ true
      → s.accepted ≡ s.written ++ pop s.client.write_queue
  all_written :
      s.client.stopped ≡ false
      → s.client.state ≡ connected
      → s.client.writing ≡ false
      → s.accepted ≡ s.written

empty_of_length {ℓ} : {A : Type ℓ} (xs : List A) → length xs ≡ 0 → xs ≡ []
empty_of_length [] h = refl
empty_of_length (x ∷ xs) h = absurd (omega arith)

pop-append : (q : List Bytes) (m : Bytes) → 0 ≡ length q ⊎ (pop (q ++ m ∷ []) ≡ pop q ++ m ∷ [])
pop-append [] m = inl refl
pop-append (x ∷ q) m = inr refl

front-pop : (w q : List Bytes) → 0 ≡ length q ⊎ ((w ++ front q ∷ []) ++ pop q ≡ w ++ q)
front-pop w [] = inl refl
front-pop w (x ∷ q) = inr (append_assoc w (x ∷ []) q)

step_send-InOrder : (m : Bytes) (s : System) → Inv s → InOrder s → InOrder (step_send m s)
unfolding step_send
step_send-InOrder m s v o = ground (
  arith,
  empty_of_length s.client.write_queue,
  pop-append s.client.write_queue m,
  append_assoc s.written (pop s.client.write_queue) (m ∷ []),
  append-nil (s.written ++ m ∷ []),
)

step_write-InOrder : (ec : Outcome) (s : System) → Inv s → InOrder s → InOrder (step_write ec s)
unfolding step_write
step_write-InOrder ec s v o = ground (
  arith,
  empty_of_length (pop s.client.write_queue),
  front-pop s.written (pop s.client.write_queue),
  append-nil s.written,
)

step-InOrder : (s : System) (e : Event) → Inv s → InOrder s → InOrder (step s e)
unfolding step connect_once step_connect step_close step_stop step_resolved step_connected
    step_ssl_handshake step_handshake step_read step_closed
step-InOrder s (send_called m) v o = step_send-InOrder m s v o
step-InOrder s (write_done ec) v o = step_write-InOrder ec s v o
step-InOrder s (connect_called h p pa) v o = ground arith
step-InOrder s _ v o = ground arith

start-InOrder : (tls : Bool) → InOrder (start tls)
unfolding start
start-InOrder tls = ground arith

-- The messages written are the first of those accepted, in the same order.
abbrev pub WrittenInOrder : System → Type 0
WrittenInOrder s = (rest : List Bytes) × (s.accepted ≡ s.written ++ rest)

-- A step that changes what is accepted or written leaves the client writing, or connected and idle.
step-settled :
    (s : System) (e : Event)
    → Inv s
    → ((step s e).accepted ≡ s.accepted) × ((step s e).written ≡ s.written)
      ⊎ ((step s e).client.writing ≡ true)
      ⊎ ((step s e).client.state ≡ connected) × ((step s e).client.writing ≡ false)
unfolding step connect_once step_connect step_send step_close step_stop step_resolved step_connected
    step_ssl_handshake step_handshake step_read step_write step_closed
step-settled s (connect_called h p pa) v = ground arith
step-settled s _ v = ground arith

step-WrittenInOrder :
    (s t : System)
    → InOrder t
    → t.client.stopped ≡ false
    → (t.accepted ≡ s.accepted) × (t.written ≡ s.written)
      ⊎ (t.client.writing ≡ true)
      ⊎ (t.client.state ≡ connected) × (t.client.writing ≡ false)
    → WrittenInOrder s
    → WrittenInOrder t
step-WrittenInOrder s t o going (inl (a, w)) (rest, e) = (rest, a ∙ e ∙ ap (λ l. l ++ rest) (sym w))
step-WrittenInOrder s t o going (inr (inl busy)) p =
    (pop t.client.write_queue, o.in_flight going busy)
step-WrittenInOrder s t o going (inr (inr (con, idle))) p =
    ([], o.all_written going con idle ∙ sym (append-nil t.written))

-- `Stop` is for good.
step-stopped :
    (s : System) (e : Event) → (step s e).client.stopped ≡ false → s.client.stopped ≡ false
unfolding step connect_once step_connect step_send step_close step_stop step_resolved step_connected
    step_ssl_handshake step_handshake step_read step_write step_closed
step-stopped s (connect_called h p pa) st = ground arith
step-stopped s _ st = ground arith

run-stopped :
    (s : System) (es : List Event) → (run s es).client.stopped ≡ false → s.client.stopped ≡ false
unfolding run
run-stopped s [] st = st
run-stopped s (e ∷ es) st = step-stopped s e (run-stopped (step s e) es st)

run-WrittenInOrder :
    (s : System) (es : List Event)
    → Inv s
    → InOrder s
    → WrittenInOrder s
    → (run s es).client.stopped ≡ false
    → WrittenInOrder (run s es)
unfolding run
run-WrittenInOrder s [] v o p st = p
run-WrittenInOrder s (e ∷ es) v o p st =
    let o' = step-InOrder s e v o in
    let p' =
      step-WrittenInOrder s (step s e) o' (run-stopped (step s e) es st) (step-settled s e v) p in
    run-WrittenInOrder (step s e) es (step-Inv s e v) o' p' st

-- As long as a client that its owner connects once is not stopped, what `async_write` was given is a prefix of what `Send`
-- accepted: no message is lost in between, reordered or written twice.
pub run-start-WrittenInOrder :
    (tls : Bool) (es : List Event)
    → (run (start tls) es).client.stopped ≡ false
    → WrittenInOrder (run (start tls) es)
unfolding start
run-start-WrittenInOrder tls es st =
    run-WrittenInOrder (start tls) es (start-Inv tls) (start-InOrder tls) ([], refl) st
