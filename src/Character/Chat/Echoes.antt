-- ===== src/Character/Chat/Echoes.antt =====
-- What the room echoes of the chat that AP_Character.cpp relayed.
use mod_i_found_your_sword.Prelude.{
  ◌+◌, ◌≤◌, ◌<◌, ==ℤ_iff, ◌≡◌, refl, sym, ap, ◌∙◌, subst, inl, inr, Bool-cases, if◌then◌else◌, true,
  false, List, [], ◌∷◌, ◌++◌, length, length-append, bytes_eq_iff, bytes-eq, contains, arith,
  append-nil, append_assoc,
}
use mod_i_found_your_sword.Network.WebSocket.{is_empty}
use mod_i_found_your_sword.Network.Client.Text.{strip_unprintable}
use mod_i_found_your_sword.Network.Client.Speech.{strip-eq_self, strip-all_printable}
use mod_i_found_your_sword.Character.Chat.{
  Bytes, ChatEffect, say, show, Chatter, emit, remember_echo, client_say, relay_chat_to_archipelago,
  erase_echo, ap_print_json_handler,
}

-- The messages that the player's chat box is shown of the room.
unfoldable pub shown : List ChatEffect → List Bytes
shown [] = []
shown (show text ∷ es) = text ∷ shown es
shown (_ ∷ es) = shown es

shown-append : (es fs : List ChatEffect) → shown (es ++ fs) ≡ shown es ++ shown fs
unfolding shown
shown-append [] fs = refl
shown-append (e ∷ es) fs = ground (arith, shown-append es fs)

-- The messages that the client was handed for the room.
unfoldable pub said : List ChatEffect → List Bytes
said [] = []
said (say text ∷ es) = text ∷ said es
said (_ ∷ es) = said es

said-append : (es fs : List ChatEffect) → said (es ++ fs) ≡ said es ++ said fs
unfolding said
said-append [] fs = refl
said-append (e ∷ es) fs = ground (arith, said-append es fs)

-- The player says these in turn.
unfoldable pub relay_all : List Bytes → Chatter → Chatter
relay_all [] c = c
relay_all (text ∷ texts) c = relay_all texts (relay_chat_to_archipelago text c)

-- The room echoes these messages to the character that said them.
unfoldable pub echo_all : (Bytes → Bytes) → List Bytes → Chatter → Chatter
echo_all render [] c = c
echo_all render (message ∷ messages) c =
    echo_all render messages (ap_print_json_handler true c.player_number message (render message) c)

-- What there is to print of each text, those with nothing to print left out.
unfoldable pub printed : List Bytes → List Bytes
printed [] = []
printed (t ∷ ts) =
    let rest = printed ts in
    if is_empty (strip_unprintable t) then rest else strip_unprintable t ∷ rest

-- The character is in the slot.
pub record IsTalking (c : Chatter) : Type 0 where
  pub running : c.run ≡ true
  pub client : c.has_client ≡ true
  pub connected : c.slot_connected ≡ true

-- One more text was relayed, or more: these messages were said, and each waits for its echo.
pub record Says (messages : List Bytes) (c d : Chatter) : Type 0 where
  pub pending : d.pending_chat_echoes ≡ c.pending_chat_echoes ++ messages
  pub told : said d.out ≡ said c.out ++ messages
  pub same_shown : shown d.out ≡ shown c.out
  pub talks : IsTalking d

relay-Says :
    (text : Bytes) (c : Chatter)
    → IsTalking c
    → length c.pending_chat_echoes < 16
    → is_empty (strip_unprintable text) ≡ false
    → Says (strip_unprintable text ∷ []) c (relay_chat_to_archipelago text c)
unfolding relay_chat_to_archipelago client_say remember_echo emit shown said
relay-Says text c t room some_text =
    let sent = strip_unprintable text in
    let same : strip_unprintable sent ≡ sent = strip-eq_self sent (strip-all_printable text) in
    let grown = length-append c.pending_chat_echoes (sent ∷ []) in
    let shows = shown-append c.out (say sent ∷ []) in
    let says = said-append c.out (say sent ∷ []) in
    let none_shown = append-nil (shown c.out) in
    record {
      pending = ground (arith, t.connected, some_text, same, room, grown);
      told = ground (arith, t.connected, some_text, same, says);
      same_shown = ground (arith, t.connected, some_text, same, shows, none_shown);
      talks = record {
        running = ground (arith, t.running);
        client = ground (arith, t.client);
        connected = ground (arith, t.connected);
      };
    }

relay-nothing :
    (text : Bytes) (c : Chatter)
    → is_empty (strip_unprintable text) ≡ true
    → relay_chat_to_archipelago text c ≡ c
unfolding relay_chat_to_archipelago client_say
relay-nothing text c h =
    let same = strip-eq_self (strip_unprintable text) (strip-all_printable text) in
    ground (arith, h, same)

relay_all-Says :
    (texts : List Bytes) (c : Chatter)
    → IsTalking c
    → length c.pending_chat_echoes + length (printed texts) ≤ 16
    → Says (printed texts) c (relay_all texts c)
unfolding relay_all printed
relay_all-Says [] c t room = record {
  pending = sym (append-nil c.pending_chat_echoes);
  told = sym (append-nil (said c.out));
  same_shown = refl;
  talks = t;
}
relay_all-Says (text ∷ texts) c t room = elim (Bool-cases (is_empty (strip_unprintable text))) [
  | inl h ↦
      let dropped : printed (text ∷ texts) ≡ printed texts = ground (arith, h) in
      let same : relay_all (text ∷ texts) c ≡ relay_all texts c =
        ap (relay_all texts) (relay-nothing text c h) in
      let more = relay_all-Says texts c t (omega (arith, ap length dropped, room)) in
      subst (λ d. Says (printed (text ∷ texts)) c d) (sym same)
        (subst (λ ms. Says ms c (relay_all texts c)) (sym dropped) more)
  | inr h ↦
      let first = strip_unprintable text in
      let kept : printed (text ∷ texts) ≡ first ∷ printed texts = ground (arith, h) in
      let one = relay-Says text c t (omega (arith, ap length kept, room)) h in
      let grown = length-append c.pending_chat_echoes (first ∷ []) in
      let more =
        relay_all-Says texts (relay_chat_to_archipelago text c) one.talks
          (omega (arith, ap length one.pending, grown, ap length kept, room)) in
      subst (λ ms. Says ms c (relay_all (text ∷ texts) c)) (sym kept)
        (record {
          pending =
              more.pending
              ∙ ap (λ es. es ++ printed texts) one.pending
              ∙ append_assoc c.pending_chat_echoes (first ∷ []) (printed texts);
          told =
              more.told
              ∙ ap (λ es. es ++ printed texts) one.told
              ∙ append_assoc (said c.out) (first ∷ []) (printed texts);
          same_shown = more.same_shown ∙ one.same_shown;
          talks = more.talks;
        })
]

echo_step :
    (text : Bytes) (rendered : Bytes) (rest : List Bytes) (c : Chatter)
    → c.run ≡ true
    → c.has_client ≡ true
    → c.pending_chat_echoes ≡ text ∷ rest
    → ap_print_json_handler true c.player_number text rendered c
      ≡ record c { pending_chat_echoes = rest }
unfolding ap_print_json_handler erase_echo contains
echo_step text rendered rest c r k e =
    ground (arith, r, k, e, bytes_eq_iff text text, ==ℤ_iff c.player_number c.player_number)

echo_all-pending :
    (render : Bytes → Bytes) (messages : List Bytes) (c : Chatter)
    → IsTalking c
    → c.pending_chat_echoes ≡ messages
    → ((echo_all render messages c).pending_chat_echoes ≡ [])
      × (shown (echo_all render messages c).out ≡ shown c.out)
unfolding echo_all
echo_all-pending render [] c t e = (e, refl)
echo_all-pending render (message ∷ messages) c t e =
    let c' : Chatter = record c { pending_chat_echoes = messages } in
    let talks : IsTalking c' = record {
      running = t.running;
      client = t.client;
      connected = t.connected;
    } in
    let step : echo_all render (message ∷ messages) c ≡ echo_all render messages c' =
      ap (echo_all render messages)
        (echo_step message (render message) messages c t.running t.client e) in
    let more = echo_all-pending render messages c' talks refl in
    (
      ap (λ (d : Chatter). d.pending_chat_echoes) step ∙ more.0,
      ap (λ (d : Chatter). shown d.out) step ∙ more.1,
    )

-- Whatever texts a character in the slot relays, none of its earlier ones waiting for its echo and up to
-- sixteen of them with anything to print, what its client hands on to the room is what there is to print
-- of each text, those with nothing left out. When the room echoes these messages in that order, each echo
-- is dropped: nothing is shown in the chat box, and no echo is waited for any more.
pub echo_all-relay_all :
    (render : Bytes → Bytes) (texts : List Bytes) (c : Chatter)
    → IsTalking c
    → c.pending_chat_echoes ≡ []
    → length (printed texts) ≤ 16
    → (said (relay_all texts c).out ≡ said c.out ++ printed texts)
      × ((echo_all render (printed texts) (relay_all texts c)).pending_chat_echoes ≡ [])
      × (shown (echo_all render (printed texts) (relay_all texts c)).out ≡ shown c.out)
echo_all-relay_all render texts c t e few =
    let says = relay_all-Says texts c t (omega (arith, ap length e, few)) in
    let heard =
      echo_all-pending render (printed texts) (relay_all texts c) says.talks
        (says.pending ∙ ap (λ es. es ++ printed texts) e) in
    (says.told, heard.0, heard.1 ∙ says.same_shown)
