-- ===== src/Network/Client/Flushing.antt =====
-- How the `Connected` command of network/AP_Client.cpp ends: what waited for the slot is sent.
use mod_i_found_your_sword.Prelude.{
  ℤ, ◌≡◌, List, [], ◌∷◌, ◌++◌, append_assoc, some, if◌then◌else◌, arith, codes,
}
use mod_i_found_your_sword.Network.WebSocket
use mod_i_found_your_sword.Network.WebSocket.{is_empty}
use mod_i_found_your_sword.Network.Client.Json.{JsonLib, Bytes, Except, ok, throws}
use mod_i_found_your_sword.Network.Client.State.{
  Client, Call, Packet, slot_connected, emit, M, ◌>>=◌, ◌>>◌, proceed, modify, for_each, is_unknown,
}
use mod_i_found_your_sword.Network.Client.Keeps.{
  Preorder, Keeps, Keeps-bind, Keeps-lift, Keeps-modify, Keeps-if, Keeps-for_each,
}
use mod_i_found_your_sword.Network.Client.Commands.{
  int_at, string_at, for_items, add_player, add_slot, flush_checks, flush_status, join_slot,
}

module _ {J : JsonLib} where
  -- What filling in the players and the slots leaves alone.
  record Filling (c d : Client J) : Type 0 where
    same_out : d.out ≡ c.out
    same_ws : d.ws ≡ c.ws
    same_queue : d.check_queue ≡ c.check_queue
    same_status : d.client_status ≡ c.client_status
    same_state : d.state ≡ c.state

  Filling_refl : (c : Client J) → Filling c c
  Filling_refl c = ground arith

  Filling_trans : (c d e : Client J) → Filling c d → Filling d e → Filling c e
  Filling_trans c d e f g = ground arith

  instance abbrev Filling-preorder : Preorder Filling
  Filling-preorder = record { refl_at = Filling_refl; trans_at = Filling_trans }

  Filling-int_at : (j : J.Json) (key : Bytes) → Keeps Filling (int_at J j key)
  unfolding int_at
  Filling-int_at j key = Keeps-bind (Keeps-lift _) λ v. Keeps-lift _

  Filling-string_at : (j : J.Json) (key : Bytes) → Keeps Filling (string_at J j key)
  unfolding string_at
  Filling-string_at j key = Keeps-bind (Keeps-lift _) λ v. Keeps-lift _

  add_player-Filling : (p : J.Json) → Keeps Filling (add_player J p)
  unfolding add_player
  add_player-Filling p = Keeps-bind (Filling-int_at _ _) λ team.
      Keeps-bind (Filling-int_at _ _) λ slot.
        Keeps-bind (Filling-string_at _ _)
          λ alias. Keeps-bind (Filling-string_at _ _) λ name. Keeps-modify _ λ c. ground arith

  add_slot-Filling : (e : Bytes × J.Json) → Keeps Filling (add_slot J e)
  unfolding add_slot
  add_slot-Filling (key, value) = Keeps-bind (Filling-string_at _ _) λ name.
      Keeps-bind (Filling-string_at _ _) λ game. Keeps-bind (Filling-int_at _ _) λ kind.
        Keeps-bind (Keeps-lift _) λ list.
          Keeps-bind (Keeps-lift _)
            λ members. Keeps-bind (Keeps-lift _) λ slot. Keeps-modify _ λ c. ground arith

  for_items-Filling : (j : J.Json) (key : Bytes) → Keeps Filling (for_items J j key (add_slot J))
  unfolding for_items
  for_items-Filling j key =
      Keeps-if (J.has_key j key)
        (Keeps-bind (Keeps-lift _) λ v.
          Keeps-if (J.is_object v) (Keeps-for_each _ add_slot-Filling)
            (Keeps-modify _ λ c. ground arith))
        (Keeps-modify _ λ c. ground arith)

  -- After code that may throw, what follows is looked at only where it did not.
  proceed_post :
      (P : Client J → Type 0) {c : Client J} (k : M J (Unit {0})) (r : Except (Unit {0}) × Client J)
      → Filling c r.1
      → ((d : Client J) → Filling c d → (k d).0 ≡ ok tt → P (k d).1)
      → (proceed (λ _. k) r).0 ≡ ok tt
      → P (proceed (λ _. k) r).1
  proceed_post P k (ok _, d) f h e = h d f e
  proceed_post P k (throws x, d) f h e = cc

  -- What the end of `Connected` sends and tells over a connected transport.
  abbrev pub flushed : J.Json → Client J → List (Call J.Json)
  flushed sd c =
      (if is_empty c.check_queue
        then []
        else Call.ws_send (Packet.location_checks c.check_queue) ∷ [])
      ++ ((if is_unknown c.client_status
            then []
            else Call.ws_send (Packet.status_update c.client_status) ∷ [])
          ++ Call.on_slot_connected sd ∷ [])

  abbrev pub Flushed : J.Json → Client J → Client J → Type 0
  Flushed sd c d =
      (d.out ≡ c.out ++ flushed sd c) × (d.check_queue ≡ []) × (d.state ≡ slot_connected)

  finish_lem :
      (sd : J.Json) (c : Client J)
      → c.state ≡ slot_connected
      → c.ws ≡ some WebSocket.connected
      → Flushed sd c (emit (Call.on_slot_connected sd) (flush_status J (flush_checks J c)))
  unfolding flush_status flush_checks
  finish_lem sd c st w = ground (
    arith,
    append_assoc c.out (Call.ws_send (Packet.location_checks c.check_queue) ∷ [])
        (Call.on_slot_connected sd ∷ []),
    append_assoc c.out (Call.ws_send (Packet.status_update c.client_status) ∷ [])
        (Call.on_slot_connected sd ∷ []),
    append_assoc (c.out ++ Call.ws_send (Packet.location_checks c.check_queue) ∷ [])
        (Call.ws_send (Packet.status_update c.client_status) ∷ []) (Call.on_slot_connected sd ∷ []),
    append_assoc c.out (Call.ws_send (Packet.location_checks c.check_queue) ∷ [])
        (Call.ws_send (Packet.status_update c.client_status) ∷ Call.on_slot_connected sd ∷ []),
  )

  -- When `Connected` ends without an exception over a connected transport, the checks that waited are
  -- sent in one packet and no longer wait, then the status that was set is sent, and then the owner is
  -- told of the slot; a packet with nothing to say is left out, and nothing else is sent or called.
  pub join_slot-flushes :
      (j : J.Json) (team slot : ℤ) (ps : List J.Json) (sd : J.Json) (missing : List ℤ)
      (c : Client J)
      → c.ws ≡ some WebSocket.connected
      → (join_slot J j team slot ps sd missing c).0 ≡ ok tt
      → Flushed sd c (join_slot J j team slot ps sd missing c).1
  unfolding join_slot ◌>>◌ ◌>>=◌ modify
  join_slot-flushes j team slot ps sd missing c w h =
      proceed_post (Flushed sd c) _ (for_each ps (add_player J) joined)
        ((Keeps-for_each ps add_player-Filling).run joined)
        (λ d f.
          let emptied = record d { slot_info = [] } in
          proceed_post (Flushed sd c) _ (for_items J j (codes "slot_info") (add_slot J) emptied)
            ((for_items-Filling j (codes "slot_info")).run emptied) λ e g _. rest d e f g)
        h
    where
      joined : Client J
      joined = record c {
        state = slot_connected;
        team = team;
        slotnr = slot;
        missing_locations = missing;
        players = [];
      }

      rest :
          (d e : Client J)
          → Filling joined d
          → Filling (record d { slot_info = [] }) e
          → Flushed sd c (emit (Call.on_slot_connected sd) (flush_status J (flush_checks J e)))
      rest d e f g = ground (arith, finish_lem sd e)
