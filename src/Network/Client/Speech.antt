-- ===== src/Network/Client/Speech.antt =====
-- What network/AP_Client.cpp lets out: chat text, and the names of cache files.
use mod_i_found_your_sword.Prelude.{
  ℕ, ◌≤◌, ◌<◌, ◌==◌, ◌≡◌, ◌≢◌, refl, ◌⊎◌, inl, inr, Bool, true, false, not, ◌||◌, [], ◌∷◌, ◌++◌,
  some, arith, length, codes, Bool-cases,
}
use mod_i_found_your_sword.Network.WebSocket
use mod_i_found_your_sword.Network.WebSocket.{is_empty}
use mod_i_found_your_sword.Network.Client.Json.{JsonLib, Bytes}
use mod_i_found_your_sword.Network.Client.Text.{
  is_xdigit, all_of, is_valid_checksum, data_package_cache_path, is_printable, strip_unprintable,
}
use mod_i_found_your_sword.Network.Client.State.{Client, Call, Packet, slot_connected, emit}
use mod_i_found_your_sword.Network.Client.Protocol.{say}
use mod_i_found_your_sword.Network.Client.DataPackage.{Disk, save_data_package_cache}

pub strip-all_printable : (t : Bytes) → all_of is_printable (strip_unprintable t) ≡ true
unfolding strip_unprintable all_of
strip-all_printable [] = refl
strip-all_printable (b ∷ t) = ground (arith, strip-all_printable t)

pub strip-eq_self : (t : Bytes) → all_of is_printable t ≡ true → strip_unprintable t ≡ t
unfolding strip_unprintable all_of
strip-eq_self [] h = refl
strip-eq_self (b ∷ t) h = ground (arith, strip-eq_self t)

strip-length : (t : Bytes) → length (strip_unprintable t) ≤ length t
unfolding strip_unprintable
strip-length [] = ground arith
strip-length (b ∷ t) = ground (arith, strip-length t)

strip-cases :
    (t : Bytes)
    → ((all_of is_printable t ≡ true) × (strip_unprintable t ≡ t))
      ⊎ ((all_of is_printable t ≡ false) × (length (strip_unprintable t) < length t))
unfolding strip_unprintable all_of
strip-cases [] = inl (refl, refl)
strip-cases (b ∷ t) = ground (arith, strip-cases t, strip-length t)

-- Cleaning gives printable bytes and a second cleaning changes nothing; a text that is clean is left
-- alone, and any other gets shorter.
pub strip_unprintable-clean :
    (t : Bytes)
    → (all_of is_printable (strip_unprintable t) ≡ true)
      × (strip_unprintable (strip_unprintable t) ≡ strip_unprintable t)
      × (((all_of is_printable t ≡ true) × (strip_unprintable t ≡ t))
          ⊎ ((all_of is_printable t ≡ false) × (length (strip_unprintable t) < length t)))
strip_unprintable-clean t = (
  strip-all_printable t,
  strip-eq_self (strip_unprintable t) (strip-all_printable t),
  strip-cases t,
)

module _ {J : JsonLib} where
  -- `Say` over a connected transport: in the slot, a text with a printable byte goes out cleaned, in one
  -- packet of printable bytes; a text with none, or out of the slot, is refused and nothing changes.
  pub say-printable :
      (text : Bytes) (c : Client J)
      → c.ws ≡ some WebSocket.connected
      → ((c.state ≡ slot_connected)
          × (strip_unprintable text ≢ [])
          × (say text c ≡ (emit (Call.ws_send (Packet.say (strip_unprintable text))) c, true))
          × (all_of is_printable (strip_unprintable text) ≡ true))
        ⊎ (((c.state ≢ slot_connected) ⊎ (strip_unprintable text ≡ [])) × (say text c ≡ (c, false)))
  unfolding say
  say-printable text c w = ground (arith, strip-all_printable text)

-- The bytes that could lead a path elsewhere.
abbrev pub is_path_byte : ℕ → Bool
is_path_byte b = b == b'/' || b == b'\\' || b == b'.' || b == b':' || b == 0

none_path : (t : Bytes) → all_of is_xdigit t ≡ true → all_of (λ b. not (is_path_byte b)) t ≡ true
unfolding all_of is_xdigit
none_path [] h = refl
none_path (b ∷ t) h = ground (arith, none_path t)

module _ (J : JsonLib) where
  -- A checksum sent by the server writes at most one file, the cache folder's own named after it, and
  -- only if it is of 1 to 64 bytes, none of which is a separator, a dot, a colon or a zero byte.
  pub save_data_package_cache-safe :
      (disk : Disk J) (sum : Bytes) (entry : J.Json) (c : Client J)
      → ((save_data_package_cache J disk sum entry c) ≡ c)
        ⊎ ((save_data_package_cache J disk sum entry c
              ≡ emit
                  (Call.write_cache
                    (codes "ap_datapackage_cache" ++ (disk.separator ++ (sum ++ codes ".json")))
                    entry)
                  c)
            × (1 ≤ length sum)
            × (length sum ≤ 64)
            × (all_of (λ b. not (is_path_byte b)) sum ≡ true))
  unfolding save_data_package_cache is_valid_checksum data_package_cache_path
  save_data_package_cache-safe disk sum entry c = elim (Bool-cases (is_valid_checksum sum)) [
    | inl valid ↦ inr (ground arith, ground arith, ground arith, ground (arith, none_path sum))
    | inr invalid ↦ inl (ground arith)
  ]
