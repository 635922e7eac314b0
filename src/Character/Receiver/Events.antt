-- ===== src/Character/Receiver/Events.antt =====
-- The logins of a character of AP_Character.cpp, the packets of items that come between them, and how
-- much of the server's list it has seen.
use mod_i_found_your_sword.Prelude.{ℕ, ◌+◌, ◌≤◌, max, negsuc, ◌≡◌, false, List, [], ◌∷◌, ℕ-eq}
use mod_i_found_your_sword.Network.Client.State.{NetworkItem}
use mod_i_found_your_sword.Items.Tables.{ItemsContainer, ProgressiveType, ProgressiveType-eq}
use mod_i_found_your_sword.Character.Receiver.{World, Receiver}
use mod_i_found_your_sword.Character.Receiver.Heirlooms.{set_heirloom_weapon}
use mod_i_found_your_sword.Character.Receiver.Receiving.{count_of, on_received_items}
use mod_i_found_your_sword.Character.Receiver.Quiet.{once_part}
use mod_i_found_your_sword.Character.Receiver.Packets.{
  slice, last_of, handed_by, copies_in, senders_in,
}

-- Between two passes over its items, a slot's character may be logged out and in again. What
-- lies only in memory is lost, and the index is read back from the database.
unfoldable pub log_in_again : Receiver → Receiver
log_in_again c = record c {
  item_index = c.saved_item_index;
  counted_item_index = negsuc 0;
  items_synced = false;
  unlocked_zones = [];
  granted_spells = [];
  received_glyphs = [];
  progressive_counts = [];
  heirloom_weapon_senders = [];
  friend_teleport_unlocked = false;
}

pub data Event : Type 0 where
  packet : ℕ → ℕ → Event  -- the first item and the number of items
  choose_weapon : ℕ → ℕ → Event
  login : Event

unfoldable pub on_event : World → (ℕ → NetworkItem) → Event → Receiver → Receiver
unfolding log_in_again on_received_items set_heirloom_weapon slice
on_event w items (packet first l) c = on_received_items w (slice items first l) c
on_event w items (choose_weapon slot item) c = set_heirloom_weapon w slot item c
on_event w items login c = log_in_again c

unfoldable pub run_events : World → (ℕ → NetworkItem) → List Event → Receiver → Receiver
unfolding on_event
run_events w items [] c = c
run_events w items (e ∷ es) c = run_events w items es (on_event w items e c)

-- How much of the server's list a receiver has seen, ever and since its login.
pub record Seen : Type 0 where
  pub ever : ℕ
  pub now : ℕ

unfoldable pub see : Event → Seen → Seen
see (packet first l) s = record { ever = max s.ever (first + l); now = max s.now (first + l) }
see (choose_weapon _ _) s = s
see login s = record { ever = s.ever; now = 0 }

unfoldable pub see_all : List Event → Seen → Seen
unfolding see
see_all [] s = s
see_all (e ∷ es) s = see_all es (see e s)

-- The server leaves nothing out: a packet starts at the latest behind what it sent since the login.
abbrev pub Gapless : List Event → Seen → Type 0
Gapless [] s = Unit {0}
Gapless (packet first l ∷ es) s = (first ≤ s.now) × Gapless es (see (packet first l) s)
Gapless (choose_weapon slot item ∷ es) s = Gapless es s
Gapless (login ∷ es) s = Gapless es (see login s)

-- The receiver stands where the list's first items leave it.
pub record Follows (w : World) (t : ItemsContainer) (items : ℕ → NetworkItem) (s : Seen)
    (c : Receiver) : Type 0 where
  pub tables : c.tables ≡ t
  pub index : c.item_index ≡ last_of s.ever
  pub saved : c.saved_item_index ≡ last_of s.ever
  pub counted : c.counted_item_index ≡ last_of s.now
  pub sooner : s.now ≤ s.ever
  pub handed : once_part c.out ≡ handed_by w t (slice items 0 s.ever)
  pub counts :
      (track : ProgressiveType)
      → count_of track c.progressive_counts ≡ copies_in t track (slice items 0 s.now)
  pub senders : c.heirloom_weapon_senders ≡ senders_in t (slice items 0 s.now)
