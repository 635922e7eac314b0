-- ===== src/Network/Client/Reconnect.antt =====
-- How `Client::Poll` and `ConnectSocket` of network/AP_Client.cpp choose the scheme and pace the
-- attempts.
use mod_i_found_your_sword.Prelude.{
  ℕ, ◌+◌, ◌*◌, ◌≤◌, ◌<◌, min, ◌≡◌, refl, ◌∙◌, ap, leb, Bool, true, false, not, List, append_assoc,
  [], ◌∷◌, ◌++◌, some, arith, ◌≢◌, ◌⊎◌, inl, inr,
}
use mod_i_found_your_sword.Network.WebSocket
use mod_i_found_your_sword.Network.Client.Json.{JsonLib, Bytes}
use mod_i_found_your_sword.Network.Client.State.{
  Client, Call, QueueEvent, emit, rank, disconnected, socket_connecting,
}
use mod_i_found_your_sword.Network.Client.Protocol.{connect_socket}
use mod_i_found_your_sword.Network.Client.DataPackage.{Disk}
use mod_i_found_your_sword.Network.Client.Frame.{process_message-Frame}
use mod_i_found_your_sword.Network.Client.Poll.{
  handle_event, handle_events, handle_close, reconnect, poll, drain,
}

le→leb : (a b : ℕ) → a ≤ b → leb a b ≡ true
le→leb a b h = ground arith

lt→leb_false : (a b : ℕ) → b < a → leb a b ≡ false
lt→leb_false a b h = ground arith

-- The calls that replace a transport by a new one over the scheme.
abbrev pub attempt : {J : Type 0} → Bytes → Bytes → Bool → List (Call J)
attempt host port tls = Call.ws_stop ∷ Call.ws_create tls ∷ Call.ws_connect host port ∷ []

-- A new transport over the scheme, an empty queue and the clock running, with the wait doubled up to
-- fifteen seconds.
abbrev pub Attempting : {J : JsonLib} → Bool → ℕ → Client J → Client J → Type 0
Attempting tls now c d =
    (d.out ≡ c.out ++ attempt c.host c.port tls)
    × (d.state ≡ socket_connecting)
    × (d.current_attempt_tls ≡ tls)
    × (d.event_queue ≡ [])
    × (d.last_connect_attempt ≡ now)
    × (d.reconnect_interval ≡ min (c.reconnect_interval * 2) 15000)

module _ {J : JsonLib} where
  connect_socket-Attempting :
      (tls : Bool) (now : ℕ) (c : Client J) {ws : WebSocket.State}
      → c.ws ≡ some ws
      → Attempting tls now c (connect_socket tls now c)
  unfolding connect_socket
  connect_socket-Attempting tls now c w = ground (
    arith,
    append_assoc c.out (Call.ws_stop ∷ []) (Call.ws_create tls ∷ []),
    append_assoc c.out (Call.ws_stop ∷ Call.ws_create tls ∷ [])
        (Call.ws_connect c.host c.port ∷ []),
  )

module _ (J : JsonLib) (disk : Disk J) (now : ℕ) where
  -- A poll handles what was queued, over an empty queue, and then reconnects.
  abbrev drained : Client J → Client J
  drained c = record c { event_queue = [] }

  abbrev handled : List QueueEvent → Client J → Client J × Bool
  handled events c = handle_events J disk now events false (drained c)

  poll_lem :
      (c : Client J) {r : Client J × Bool}
      → handled c.event_queue c ≡ r
      → poll J disk now c ≡ reconnect J disk now r.1 r.0
  unfolding poll drain
  poll_lem c e = ap (λ (r : Client J × Bool). reconnect J disk now r.1 r.0) e

  handled-tls_failed :
      (c : Client J) (text : Bytes)
      → c.state ≡ socket_connecting
      → handled (QueueEvent.tls_handshake_failed text ∷ QueueEvent.closed ∷ []) c
        ≡ (drained c, true)
  unfolding handle_events handle_event handle_close
  handled-tls_failed c text st = ground arith

  -- When a transport being opened reports a TLS failure and then its close, the next poll replaces it
  -- by one without TLS at once, whatever the time.
  pub poll-tls_failed :
      (c : Client J) (text : Bytes) {ws : WebSocket.State}
      → c.state ≡ socket_connecting
      → c.ws ≡ some ws
      → c.event_queue ≡ QueueEvent.tls_handshake_failed text ∷ QueueEvent.closed ∷ []
      → Attempting false now c (poll J disk now c)
  unfolding reconnect
  poll-tls_failed c text st w q =
      rw (poll_lem c (ap (λ es. handled es c) q ∙ handled-tls_failed c text st))
        (connect_socket-Attempting false now (drained c) w)

  le_or_lt : (m n : ℕ) → (m ≤ n) ⊎ (n < m)
  le_or_lt m n = ground arith

  handled-failed :
      (c : Client J) (text : Bytes)
      → c.state ≡ socket_connecting
      → handled (QueueEvent.error text ∷ QueueEvent.closed ∷ []) c ≡ (
        record (emit (Call.on_socket_error text) (drained c)) {
          current_attempt_tls = not c.current_attempt_tls;
          state = disconnected;
        },
        false,
      )
  unfolding handle_events handle_event handle_close
  handled-failed c text st = ground arith

  -- When a transport being opened reports another error and then its close, the error is handed on,
  -- and the next attempt is over the other scheme: at once if the wait since the failed attempt is
  -- over, and otherwise the client is left disconnected with that scheme to try.
  pub poll-failed :
      (c : Client J) (text : Bytes) {ws : WebSocket.State}
      → c.state ≡ socket_connecting
      → c.ws ≡ some ws
      → c.reconnect_now ≡ false
      → c.event_queue ≡ QueueEvent.error text ∷ QueueEvent.closed ∷ []
      → let told = emit (Call.on_socket_error text) c in
        ((c.last_connect_attempt + c.reconnect_interval ≤ now)
          × Attempting (not c.current_attempt_tls) now told (poll J disk now c))
        ⊎ ((now < c.last_connect_attempt + c.reconnect_interval)
            × ((poll J disk now c).out ≡ told.out)
            × ((poll J disk now c).state ≡ disconnected)
            × ((poll J disk now c).current_attempt_tls ≡ not c.current_attempt_tls))
  unfolding reconnect connect_socket
  poll-failed c text st w later q =
      let told = record (emit (Call.on_socket_error text) (drained c)) {
        current_attempt_tls = not c.current_attempt_tls;
        state = disconnected;
      } in
      let e = poll_lem c (ap (λ es. handled es c) q ∙ handled-failed c text st) in
      elim (le_or_lt (c.last_connect_attempt + c.reconnect_interval) now) [
        | inl due ↦ inl (
          due,
          rw (e, later, le→leb (c.last_connect_attempt + c.reconnect_interval) now due)
              (connect_socket-Attempting (not c.current_attempt_tls) now told w),
        )
        | inr early ↦
            rw (e, later, lt→leb_false (c.last_connect_attempt + c.reconnect_interval) now early)
              (inr (early, refl, refl, refl))
      ]

  -- A client with a connection, or without a transport being opened.
  abbrev pub NotConnecting : Client J → Type 0
  NotConnecting c = c.state ≢ socket_connecting

  handle_event-keeps :
      (e : QueueEvent) (c : Client J)
      → NotConnecting c
      → NotConnecting (handle_event J disk now e false c).0
        × ((handle_event J disk now e false c).1 ≡ false)
        × ((handle_event J disk now e false c).0.ws ≡ c.ws)
  unfolding handle_event handle_close
  handle_event-keeps QueueEvent.opened c h = ground arith
  handle_event-keeps (QueueEvent.message text) c h =
      let f = process_message-Frame disk now text c in (f.not_connecting h, refl, f.same_ws)
  handle_event-keeps (QueueEvent.tls_handshake_failed text) c h = ground arith
  handle_event-keeps QueueEvent.closed c h = ground arith
  handle_event-keeps (QueueEvent.error text) c h = ground arith

  -- Once the transport is no longer being opened, no sequence of events makes `Poll` fall back to
  -- plain WebSocket or touch the transport while it handles them, a late TLS failure included.
  pub handle_events-no_fallback :
      (es : List QueueEvent) (c : Client J)
      → NotConnecting c
      → NotConnecting (handle_events J disk now es false c).0
        × ((handle_events J disk now es false c).1 ≡ false)
        × ((handle_events J disk now es false c).0.ws ≡ c.ws)
  unfolding handle_events
  handle_events-no_fallback [] c h = (h, refl, refl)
  handle_events-no_fallback (e ∷ es) c h =
      let (h', none', w) = handle_event-keeps e c h in
      let d = (handle_event J disk now e false c).0 in
      rw (none', handle_events)
        (let (h'', rest, w') = handle_events-no_fallback es d h' in (h'', rest, w' ∙ w))

  handled-closed :
      (c : Client J)
      → 2 ≤ rank c.state
      → handled (QueueEvent.closed ∷ []) c ≡ (
        emit Call.on_socket_disconnected (record c { event_queue = []; state = disconnected }),
        false,
      )
  unfolding handle_events handle_event handle_close
  handled-closed c st = ground arith

  -- The scheme that connected is kept: when an open connection closes and the wait is over, the owner
  -- is told and the next attempt is made at once, over the same scheme.
  pub poll-closed :
      (c : Client J) {ws : WebSocket.State}
      → 2 ≤ rank c.state
      → c.ws ≡ some ws
      → c.event_queue ≡ QueueEvent.closed ∷ []
      → (c.last_connect_attempt + c.reconnect_interval ≤ now)
      → Attempting c.current_attempt_tls now
          (emit Call.on_socket_disconnected c)
          (poll J disk now c)
  unfolding reconnect
  poll-closed c st w q due =
      let told =
        emit Call.on_socket_disconnected (record c { event_queue = []; state = disconnected }) in
      rw (poll_lem c (ap (λ es. handled es c) q ∙ handled-closed c st))
        (ground (arith, connect_socket-Attempting c.current_attempt_tls now told w))

-- The pace of the attempts stays between a second and a half and fifteen seconds.
abbrev pub IsPaced : {J : JsonLib} → Client J → Type 0
IsPaced c = (1500 ≤ c.reconnect_interval) × (c.reconnect_interval ≤ 15000)

module _ (J : JsonLib) (disk : Disk J) (now : ℕ) where
  connect_socket-IsPaced :
      (tls : Bool) (c : Client J) → IsPaced c → IsPaced (connect_socket tls now c)
  unfolding connect_socket
  connect_socket-IsPaced tls c p = omega arith

  handle_event-IsPaced :
      (e : QueueEvent) (fallback : Bool) (c : Client J)
      → IsPaced c
      → IsPaced (handle_event J disk now e fallback c).0
  unfolding handle_event handle_close
  handle_event-IsPaced QueueEvent.opened fallback c p = ground arith
  handle_event-IsPaced (QueueEvent.message text) fallback c p =
      ground (arith, process_message-Frame disk now text c)
  handle_event-IsPaced _ fallback c p = ground arith

  handle_events-IsPaced :
      (es : List QueueEvent) (fallback : Bool) (c : Client J)
      → IsPaced c
      → IsPaced (handle_events J disk now es fallback c).0
  unfolding handle_events
  handle_events-IsPaced [] fallback c p = p
  handle_events-IsPaced (e ∷ es) fallback c p =
      handle_events-IsPaced es _ _ (handle_event-IsPaced e fallback c p)

  -- Every poll keeps the pace within its bounds, whatever was queued.
  pub poll-IsPaced : (c : Client J) → IsPaced c → IsPaced (poll J disk now c)
  unfolding poll drain reconnect
  poll-IsPaced c p =
      let h = handle_events J disk now c.event_queue false (record c { event_queue = [] }) in
      ground (
        arith,
        handle_events-IsPaced c.event_queue false (record c { event_queue = [] }) p,
        connect_socket-IsPaced false h.0,
        connect_socket-IsPaced h.0.current_attempt_tls h.0,
      )
