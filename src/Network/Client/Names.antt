-- ===== src/Network/Client/Names.antt =====
-- The data package of network/AP_Client.cpp: the names it gives, and the requests for it.
use mod_i_found_your_sword.Prelude.{
  ℤ, ◌==ℤ◌, ==ℤ_iff, ℤ-eq, ◌≡◌, refl, ap, true, List, [], ◌∷◌, Option, some, if◌then◌else◌, arith,
  codes, lookup, insert, lookup-insert, bytes_eq_iff, bytes-eq,
}
use mod_i_found_your_sword.Network.Client.Json.{JsonLib, Bytes, Except, ok}
use mod_i_found_your_sword.Network.Client.State.{
  Client, Call, room_info, emit, ◌>>=◌, ◌>>◌, lift, modify, proceed,
}
use mod_i_found_your_sword.Network.Client.Protocol.{reset}
use mod_i_found_your_sword.Network.Client.DataPackage.{
  Disk, names_of, add_item_name, try_use_cached_data_package, try_use_announced, has_checksum,
  outdated, request_games, fetch_games, get_data_package, find_name, get_item_name,
}

module _ (J : JsonLib) where
  -- The object with a name taken over.
  abbrev named : Bytes → Bytes → ℤ → Client J → Client J
  named game name code c = record c {
    game_item_map =
        insert game (insert code name (names_of J game c.game_item_map)) c.game_item_map;
  }

  add_item_name_lem :
      (game name : Bytes) (id : J.Json) (code : ℤ) (c : Client J)
      → J.get_int64 id ≡ ok code
      → add_item_name J game (name, id) c ≡ (ok tt, named game name code c)
  unfolding add_item_name ◌>>=◌ lift modify
  add_item_name_lem game name id code c h =
      ap
        (λ (r : Except ℤ).
          proceed
            (λ code c'.
              (let x : Except (Unit {0}) × Client J = (ok tt, named game name code c') in x))
            (r, c))
        h

  get_item_name-named :
      (game name : Bytes) (code code' : ℤ) (c : Client J)
      → (get_item_name code game (named game name code c) ≡ name)
        × (get_item_name code' game (named game name code c)
            ≡ (if code' ==ℤ code then name else get_item_name code' game c))
  unfolding get_item_name find_name lookup
  get_item_name-named game name code code' c = ground (
    arith,
    lookup-insert game game (insert code name (names_of J game c.game_item_map)) c.game_item_map,
    lookup-insert game (codes "Archipelago") (insert code name (names_of J game c.game_item_map))
        c.game_item_map,
    lookup-insert code code name (names_of J game c.game_item_map),
    lookup-insert code code' name (names_of J game c.game_item_map),
    bytes_eq_iff game game,
    bytes_eq_iff game (codes "Archipelago"),
    ==ℤ_iff code code,
    ==ℤ_iff code code',
    ==ℤ_iff code' code,
  )

  -- Taking a name over makes its code show that name in its game, and leaves every other code of the
  -- game as it was.
  pub get_item_name-add_item_name :
      (game name : Bytes) (id : J.Json) (code code' : ℤ) (c : Client J)
      → J.get_int64 id ≡ ok code
      → let d = (add_item_name J game (name, id) c).1 in
        (get_item_name code game d ≡ name)
        × (get_item_name code' game d
            ≡ (if code' ==ℤ code then name else get_item_name code' game c))
  get_item_name-add_item_name game name id code code' c h =
      rw (add_item_name_lem game name id code c h) (get_item_name-named game name code code' c)

  reset_known :
      (c : Client J) (zs : J.Double) (game : Bytes) {o : Option J.Json}
      → lookup game c.data_package ≡ o
      → lookup game (reset zs c).data_package ≡ o
  unfolding reset
  reset_known c zs game e = ground arith

  try_known :
      (disk : Disk J) (game : Bytes) (entry : J.Json) (checksum : Bytes) (d : Client J)
      → lookup game d.data_package ≡ some entry
      → J.value_string entry (codes "checksum") [] ≡ ok checksum
      → lookup game d.server_checksums ≡ some checksum
      → try_use_cached_data_package J disk game d ≡ (ok true, d)
  unfolding try_use_cached_data_package
  try_known disk game entry checksum d known same announced = rw (
    announced,
    try_use_announced,
    known,
    has_checksum,
    same,
    (bytes_eq_iff checksum checksum).1 refl,
  )

  fetch_none :
      (disk : Disk J) (game : Bytes) (d : Client J)
      → try_use_cached_data_package J disk game d ≡ (ok true, d)
      → fetch_games J disk (game ∷ []) d ≡ (ok true, emit Call.on_data_package_changed d)
  unfolding fetch_games outdated request_games ◌>>=◌ ◌>>◌ lift modify
  fetch_none disk game d known =
      let none_missing : outdated J disk (game ∷ []) d ≡ (ok [], d) = ap (proceed _) known in
      ap (proceed _) none_missing

  request_none :
      (disk : Disk J) (game : Bytes) (d : Client J)
      → d.state ≡ room_info
      → try_use_cached_data_package J disk game d ≡ (ok true, d)
      → get_data_package J disk (game ∷ []) d ≡ (ok true, emit Call.on_data_package_changed d)
  unfolding get_data_package
  request_none disk game d st known = ground (arith, fetch_none disk game d known)

  -- What is left of the data package by a `Reset` still counts as known, though its names are gone:
  -- when the same checksum is announced again, nothing is requested, the owner is told that the data
  -- package is there, and every item of the game shows as unknown.
  pub reset-names_lost :
      (disk : Disk J) (zero_seconds : J.Double) (game : Bytes) (entry : J.Json) (checksum : Bytes)
      (sums : List (Bytes × Bytes)) (code : ℤ) (c : Client J)
      → lookup game c.data_package ≡ some entry
      → J.value_string entry (codes "checksum") [] ≡ ok checksum
      → lookup game sums ≡ some checksum
      → let d = record (reset zero_seconds c) { server_checksums = sums; state = room_info } in
        (get_data_package J disk (game ∷ []) d ≡ (ok true, emit Call.on_data_package_changed d))
        × (get_item_name code game d ≡ codes "Unknown")
  unfolding reset get_item_name find_name lookup
  reset-names_lost disk zs game entry checksum sums code c known same announced =
      let d = record (reset zs c) { server_checksums = sums; state = room_info } in
      (
        request_none disk game d refl
            (try_known disk game entry checksum d (reset_known c zs game known) same announced),
        refl,
      )
