-- ===== src/Character/Receiver/Replay.antt =====
-- The items of a slot over logins and packets, in AP_Character.cpp, against the server's list of them.
use mod_i_found_your_sword.Prelude.{
  ℕ, negsuc, ◌≡◌, refl, ap, ◌∙◌, false, List, [], ◌∷◌, arith, lookup, ℕ-eq,
}
use mod_i_found_your_sword.Network.Client.State.{NetworkItem}
use mod_i_found_your_sword.Items.Tables.{ItemsContainer, ProgressiveType, ProgressiveType-eq}
use mod_i_found_your_sword.Character.Receiver.{World, Receiver, save_preferences, emit}
use mod_i_found_your_sword.Character.Receiver.Heirlooms.{set_elem, set_heirloom_weapon}
use mod_i_found_your_sword.Character.Receiver.Receiving.{count_of, on_received_items}
use mod_i_found_your_sword.Character.Receiver.Quiet.{
  once_part, Quiet, Quiet-refl, emit-Quiet, send_pending-Quiet,
}
use mod_i_found_your_sword.Character.Receiver.Packets.{
  slice, last_of, handed_by, copies_in, senders_in,
}
use mod_i_found_your_sword.Character.Receiver.Events.{
  log_in_again, Event, packet, choose_weapon, login, on_event, run_events, Seen, see, see_all,
  Gapless, Follows,
}
use mod_i_found_your_sword.Character.Receiver.Following.{packet-Follows}

module _ (w : World) (t : ItemsContainer) (items : ℕ → NetworkItem) where
  login-Follows :
      (s : Seen) (c : Receiver)
      → Follows w t items s c
      → Follows w t items (see login s) (log_in_again c)
  unfolding log_in_again see slice copies_in senders_in last_of lookup
  login-Follows s c f = record {
    tables = f.tables;
    index = f.saved;
    saved = f.saved;
    counted = refl;
    sooner = omega arith;
    handed = f.handed;
    counts = λ track. refl;
    senders = refl;
  }

  Quiet-Follows :
      (s : Seen) (c d : Receiver) → Quiet c d → Follows w t items s c → Follows w t items s d
  Quiet-Follows s c d q f = record {
    tables = q.same_tables ∙ f.tables;
    index = q.same_item_index ∙ f.index;
    saved = q.same_saved ∙ f.saved;
    counted = q.same_counted ∙ f.counted;
    sooner = f.sooner;
    handed = q.same_once ∙ f.handed;
    counts = λ track. ap (count_of track) q.same_counts ∙ f.counts track;
    senders = q.same_senders ∙ f.senders;
  }

  set_heirloom_weapon-Quiet :
      (slot item : ℕ) (c : Receiver) → Quiet c (set_heirloom_weapon w slot item c)
  unfolding set_heirloom_weapon
  set_heirloom_weapon-Quiet slot item c =
      let d : Receiver = record c { heirloom_weapons = set_elem slot item c.heirloom_weapons } in
      ground (
        arith,
        Quiet-refl c,
        emit-Quiet save_preferences d refl,
        send_pending-Quiet w (emit save_preferences d),
      )

  pub run_events-Follows :
      (events : List Event) (s : Seen) (c : Receiver)
      → Gapless events s
      → Follows w t items s c
      → Follows w t items (see_all events s) (run_events w items events c)
  unfolding run_events see_all on_event
  run_events-Follows [] s c g f = f
  run_events-Follows (packet first l ∷ es) s c g f =
      run_events-Follows es (see (packet first l) s) (on_received_items w (slice items first l) c)
        g.1 (packet-Follows w t items s c first l f g.0)
  run_events-Follows (choose_weapon slot item ∷ es) s c g f =
      run_events-Follows es s (set_heirloom_weapon w slot item c) g (
        Quiet-Follows s c (set_heirloom_weapon w slot item c)
          (set_heirloom_weapon-Quiet slot item c) f)
  run_events-Follows (login ∷ es) s c g f =
      run_events-Follows es (see login s) (log_in_again c) g (login-Follows s c f)

-- A character that no item has reached yet.
unfoldable pub new_receiver : ItemsContainer → List ℕ → List ℕ → Receiver
new_receiver t book weapons = record {
  tables = t;
  item_index = negsuc 0;
  counted_item_index = negsuc 0;
  items_synced = false;
  unlocked_zones = [];
  granted_spells = [];
  spell_book = book;
  received_glyphs = [];
  progressive_counts = [];
  heirloom_weapons = weapons;
  heirloom_weapons_sent = 0;
  heirloom_weapon_senders = [];
  friend_teleport_unlocked = false;
  saved_item_index = negsuc 0;
  out = [];
}

abbrev pub nothing_seen : Seen
nothing_seen = record { ever = 0; now = 0 }

pub new-Follows :
    (w : World) (t : ItemsContainer) (items : ℕ → NetworkItem) (book weapons : List ℕ)
    → Follows w t items nothing_seen (new_receiver t book weapons)
unfolding new_receiver slice handed_by copies_in senders_in once_part last_of lookup
new-Follows w t items book weapons = record {
  tables = refl;
  index = refl;
  saved = refl;
  counted = refl;
  sooner = omega arith;
  handed = refl;
  counts = λ track. refl;
  senders = refl;
}

-- Over any logins, packets and choices of heirloom weapons, as long as no packet starts beyond what the
-- server sent since the login: what the items that the server has sent give once and for all, which is
-- the mail of a game item, an heirloom piece or a piece of gear, a world buff, a trap, a level or a gold
-- pouch, is handed out exactly once for each and in the order of the server's list, however often an item
-- is sent; the index in the database is that of the last of them; each progressive track counts as many
-- copies as the items sent since the login hold; and the senders of the heirloom weapons are those of
-- these items, in their order. The server answers alike on every pass.
pub events-handed_once :
    (w : World) (t : ItemsContainer) (items : ℕ → NetworkItem) (book weapons : List ℕ)
    (events : List Event)
    → Gapless events nothing_seen
    → (once_part (run_events w items events (new_receiver t book weapons)).out
        ≡ handed_by w t (slice items 0 (see_all events nothing_seen).ever))
      × ((run_events w items events (new_receiver t book weapons)).saved_item_index
          ≡ last_of (see_all events nothing_seen).ever)
      × ((track : ProgressiveType)
          → count_of track
              (run_events w items events (new_receiver t book weapons)).progressive_counts
            ≡ copies_in t track (slice items 0 (see_all events nothing_seen).now))
      × ((run_events w items events (new_receiver t book weapons)).heirloom_weapon_senders
          ≡ senders_in t (slice items 0 (see_all events nothing_seen).now))
events-handed_once w t items book weapons events g =
    let f =
      run_events-Follows w t items events nothing_seen (new_receiver t book weapons) g
        (new-Follows w t items book weapons) in
    (f.handed, f.saved, f.counts, f.senders)
