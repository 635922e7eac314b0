-- ===== src/Character/Chat/Examples.antt =====
-- A character of AP_Character.cpp that talks to the room.
use mod_i_found_your_sword.Prelude.{pos, ◌≡◌, refl, true, List, [], ◌∷◌, ◌++◌, arith, ℤ-eq}
use mod_i_found_your_sword.Prelude.{ℕ-eq}
use mod_i_found_your_sword.Network.Client.Text.{strip_unprintable}
use mod_i_found_your_sword.Character.Chat.{Bytes, Chatter}
use mod_i_found_your_sword.Character.Chat.Echoes.{
  said, printed, shown, relay_all, echo_all, echo_all-relay_all,
}

abbrev chatter : Chatter
chatter = record {
  run = true;
  has_client = true;
  slot_connected = true;
  player_number = pos 1;
  pending_chat_echoes = [];
  out = [];
}

-- The second text has nothing to print.
abbrev spoken : List Bytes
spoken = (104 ∷ 9 ∷ 105 ∷ []) ∷ (9 ∷ []) ∷ (104 ∷ []) ∷ []

echo_all-relay_all_example :
    (said (relay_all spoken chatter).out ≡ said [] ++ printed spoken)
    × ((echo_all (λ text. text) (printed spoken) (relay_all spoken chatter)).pending_chat_echoes
        ≡ [])
    × (shown (echo_all (λ text. text) (printed spoken) (relay_all spoken chatter)).out ≡ shown [])
unfolding printed strip_unprintable
echo_all-relay_all_example =
    echo_all-relay_all (λ text. text) spoken chatter
      (record { running = refl; client = refl; connected = refl }) refl (omega arith)
