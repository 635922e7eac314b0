-- ===== src/Network/Client/DataPackage.antt =====
-- network/AP_Client.cpp: the data package, its cache and the names that it gives.
use mod_i_found_your_sword.Prelude.{
  suc, ℤ, pos, Bool, true, false, ◌&&◌, ◌||◌, leb, List, [], ◌∷◌, Option, none, some, if◌then◌else◌,
  lookup, insert, contains, beq, ◌==ℤ◌, ℤ-eq, bytes-eq, codes,
}
use mod_i_found_your_sword.Network.WebSocket.{is_empty}
use mod_i_found_your_sword.Network.Client.Json.{JsonLib, Bytes, Except, ok, throws}
use mod_i_found_your_sword.Network.Client.Text.{is_valid_checksum, data_package_cache_path}
use mod_i_found_your_sword.Network.Client.State.{
  Client, Packet, Call, M, ◌>>=◌, ◌>>◌, lift, modify, for_each, emit, rank, NetworkSlot,
  NetworkPlayer,
}
use mod_i_found_your_sword.Network.Client.Protocol.{send}

-- The files of the cache, by path: a read gives a file's text, if it can be opened. `dump` and the
-- file system are outside the program.
pub record Disk (J : JsonLib) : Type 0 where
  pub separator : Bytes
  pub read : Bytes → Option Bytes

module _ (J : JsonLib) where
  unfoldable pub load_data_package_cache : Disk J → Bytes → Option J.Json
  unfolding is_valid_checksum data_package_cache_path
  load_data_package_cache disk checksum =
      if is_valid_checksum checksum
      then elim (disk.read (data_package_cache_path disk.separator checksum)) [
        | none ↦ none
        | some text ↦ J.parse text
      ]
      else none

  -- `m[k]`, made empty if it is not there.
  abbrev pub names_of : Bytes → List (Bytes × List (ℤ × Bytes)) → List (ℤ × Bytes)
  names_of game m = elim (lookup game m) [ some names ↦ names | none ↦ [] ]

  -- The two loops of `ApplyGameData`: one name of a map.
  unfoldable pub add_item_name : Bytes → Bytes × J.Json → M J (Unit {0})
  add_item_name game (name, id) = do
    code ← lift (J.get_int64 id)
    modify λ c. record c {
      game_item_map =
          insert game (insert code name (names_of game c.game_item_map)) c.game_item_map;
    }

  unfoldable pub add_location_name : Bytes → Bytes × J.Json → M J (Unit {0})
  add_location_name game (name, id) = do
    code ← lift (J.get_int64 id)
    modify λ c. record c {
      game_location_map =
          insert game (insert code name (names_of game c.game_location_map)) c.game_location_map;
    }

  -- `auto& gi = gameItemMap[gameName]` makes the entry before any name is read.
  unfoldable pub apply_item_names : Bytes → J.Json → M J (Unit {0})
  unfolding add_item_name
  apply_item_names game game_data =
      if J.has_key game_data (codes "item_name_to_id")
      then (do
        modify λ c. record c {
          game_item_map = insert game (names_of game c.game_item_map) c.game_item_map;
        }
        names ← lift (J.get_at game_data (codes "item_name_to_id"))
        for_each (J.items names) (add_item_name game))
      else modify λ c. c

  unfoldable pub apply_location_names : Bytes → J.Json → M J (Unit {0})
  unfolding add_location_name
  apply_location_names game game_data =
      if J.has_key game_data (codes "location_name_to_id")
      then (do
        modify λ c. record c {
          game_location_map = insert game (names_of game c.game_location_map) c.game_location_map;
        }
        names ← lift (J.get_at game_data (codes "location_name_to_id"))
        for_each (J.items names) (add_location_name game))
      else modify λ c. c

  unfoldable pub apply_game_data : Bytes → J.Json → M J (Unit {0})
  unfolding apply_item_names apply_location_names
  apply_game_data game game_data = do
    modify λ c. record c { data_package = insert game game_data c.data_package }
    apply_item_names game game_data
    apply_location_names game game_data

  -- `it->value("checksum", "") == checksum`, over an entry that may be missing.
  unfoldable pub has_checksum : Bytes → Option J.Json → Except Bool
  has_checksum checksum none = ok false
  has_checksum checksum (some entry) = elim (J.value_string entry (codes "checksum") []) [
    | ok sum ↦ ok (beq sum checksum)
    | throws e ↦ throws e
  ]

  unfoldable pub restore_cached : Bytes → Bytes → Option J.Json → M J Bool
  unfolding has_checksum apply_game_data
  restore_cached game checksum none = lift (ok false)
  restore_cached game checksum (some cached) =
      if J.is_object cached
      then (do
        same ← lift (has_checksum checksum (some cached))
        if same then (do apply_game_data game cached; lift (ok true)) else lift (ok false))
      else lift (ok false)

  unfoldable pub try_use_announced : Disk J → Bytes → Option Bytes → M J Bool
  unfolding has_checksum restore_cached load_data_package_cache
  try_use_announced disk game none = lift (ok false)
  try_use_announced disk game (some checksum) = λ c.
      let restore = restore_cached game checksum (load_data_package_cache disk checksum) c in
      elim (has_checksum checksum (lookup game c.data_package)) [
        | ok same ↦ if same then (ok true, c) else restore
        | throws e ↦ (throws e, c)
      ]

  unfoldable pub try_use_cached_data_package : Disk J → Bytes → M J Bool
  unfolding try_use_announced
  try_use_cached_data_package disk game c =
      try_use_announced disk game (lookup game c.server_checksums) c

  -- The file that `SaveDataPackageCache` writes, if the checksum may name one.
  unfoldable pub save_data_package_cache : Disk J → Bytes → J.Json → Client J → Client J
  unfolding is_valid_checksum
  save_data_package_cache disk checksum game_data c =
      if is_valid_checksum checksum
      then emit (Call.write_cache (data_package_cache_path disk.separator checksum) game_data) c
      else c

  -- The games that have to be fetched.
  unfoldable pub outdated : Disk J → List Bytes → M J (List Bytes)
  outdated disk [] = lift (ok [])
  outdated disk (game ∷ games) = do
    known ← try_use_cached_data_package disk game
    rest ← outdated disk games
    lift (ok (if known then rest else game ∷ rest))

  -- With every game known the callback is called at once; otherwise the rest is requested.
  unfoldable pub request_games : List Bytes → Client J → Client J
  unfolding send
  request_games [] c = emit Call.on_data_package_changed c
  request_games (game ∷ games) c =
      send (Packet.get_data_package (game ∷ games))
        (record c { pending_data_package_requests = suc c.pending_data_package_requests })

  unfoldable pub fetch_games : Disk J → List Bytes → M J Bool
  unfolding request_games
  fetch_games disk games = do
    missing ← outdated disk games
    modify (request_games missing)
    lift (ok true)

  unfoldable pub get_data_package : Disk J → List Bytes → M J Bool
  get_data_package disk games c =
      if leb 3 (rank c.state) then fetch_games disk games c else (ok false, c)

unfoldable pub find_alias : ℤ → ℤ → List NetworkPlayer → Bytes
find_alias team slot [] = codes "Unknown"
find_alias team slot (p ∷ ps) =
    if p.team ==ℤ team && p.slot ==ℤ slot then p.alias else find_alias team slot ps

module _ {J : JsonLib} where
  unfoldable pub get_player_alias : ℤ → Client J → Bytes
  unfolding find_alias
  get_player_alias slot c =
      if slot ==ℤ pos 0 then codes "Server" else find_alias c.team slot c.players

  unfoldable pub get_player_game : ℤ → Client J → Bytes
  get_player_game player c =
      if player ==ℤ pos 0
      then codes "Archipelago"
      else elim (lookup player c.slot_info) [ some info ↦ info.game | none ↦ [] ]

-- The name of a code in the first of the games that has it.
unfoldable pub find_name : List Bytes → ℤ → List (Bytes × List (ℤ × Bytes)) → Bytes
find_name [] code m = codes "Unknown"
find_name (g ∷ gs) code m =
    let other = find_name gs code m in
    elim (lookup g m) [
      | none ↦ other
      | some names ↦ elim (lookup code names) [ some name ↦ name | none ↦ other ]
    ]

module _ {J : JsonLib} where
  unfoldable pub get_item_name : ℤ → Bytes → Client J → Bytes
  unfolding find_name
  get_item_name code game c = find_name (game ∷ codes "Archipelago" ∷ []) code c.game_item_map

  unfoldable pub get_location_name : ℤ → Bytes → Client J → Bytes
  unfolding find_name
  get_location_name code game c =
      find_name (game ∷ codes "Archipelago" ∷ []) code c.game_location_map

  unfoldable pub slot_concerns_self : ℤ → Client J → Bool
  slot_concerns_self slot c = if slot ==ℤ c.slotnr then true else elim (lookup slot c.slot_info) [
    | some info ↦ contains c.slotnr info.members
    | none ↦ false
  ]

-- The games of the slots, each once, in the order of the slots, less the server's own.
unfoldable pub all_games : List Bytes → List (ℤ × NetworkSlot) → List Bytes
all_games seen [] = []
all_games seen ((slot, info) ∷ slots) =
    let skip = all_games seen slots in
    let take = info.game ∷ all_games (info.game ∷ seen) slots in
    if is_empty info.game || beq info.game (codes "Archipelago")
    then skip
    else if contains info.game seen
    then skip
    else take

module _ {J : JsonLib} where
  unfoldable pub get_all_games : Client J → List Bytes
  unfolding all_games
  get_all_games c = all_games [] c.slot_info
