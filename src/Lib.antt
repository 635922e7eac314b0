-- ===== src/Lib.antt =====
-- A model of mod-i-found-your-sword, which plays World of Warcraft (an AzerothCore server) as a
-- game of an Archipelago multiworld.
--
-- Parts and files:
-- * src/network/AP_WebSocketClient.cpp, one connection over Boost.Beast, is Network/WebSocket.antt:
--   `WebSocketClient` is the object, and each method and completion handler is a function from the
--   object to the object after it and the list of what it starts or calls outside.
--   Network/WebSocket/System.antt runs calls and completions in any order that the executor allows,
--   for an owner that calls `Connect` once on an object, as `Client::ConnectSocket` does: that is a
--   condition on the owner, which the code does not test.
-- * src/network/AP_Client.cpp, the Archipelago protocol, is Network/Client.antt and the modules
--   below it: `Client` (State.antt) is the object, whose field `out` lists what it did outside, the
--   newest last. Protocol.antt holds the commands that are sent, Commands.antt those that are
--   received (`ProcessMessage`), DataPackage.antt the names and their cache, Poll.antt the event
--   loop, Render.antt the rendering of messages, and Text.antt the functions on bytes.
-- * src/items/AP_GearPool.cpp, the gear that a character is given, is Items/GearPool.antt (who can
--   use what, and which armor a class is up to), Items/GearPool/Roll.antt (the roll of a reward) and
--   Items/GearPool/Build.antt (which templates go to which bucket).
-- * src/AP_StoneShop.cpp, the shop that sells the seed's shop locations (src/locations/AP_Shop.cpp),
--   is StoneShop.antt: `Buyer` is what it reads of the character, and `buy` gives the character after
--   a purchase and what the player is shown.
-- * src/AP_Character.cpp, a character bound to a slot, is Character.antt and the modules below it, by
--   what each part keeps: Character/Receiver.antt the items received (`RewardItem`,
--   `APReceivedItemsHandler`, the heirloom weapons, the spells granted), Character/Traps.antt the
--   traps that wait and spring, with `CanSpring` of src/AP_Traps.cpp, Character/Progress.antt the
--   checked locations, the experience and the goal, Character/Zones.antt the locked zones,
--   Character/Chat.antt the relayed chat, Character/Tiers.antt the food and drink outgrown,
--   Character/WorldBuffs.antt the world buffs and Character/DeathLink.antt the death link, over any
--   type of floating-point numbers (`Doubles`). Each is a record with the part of the object and of
--   its rows in the database, and a list of what was done outside. `World`, `TrapWorld`, `BuffWorld`
--   and `Feats` are what the code asks of the server. Events.antt and Actions.antt run these over
--   logins. `client_say` of Character/Chat.antt is `Client::Say`, over the state of the client alone.
-- * src/items/, the tables of the slot's items, is Items/Tables.antt and Items/Mounts.antt;
--   src/locations/, those of its locations, is Locations.antt.
-- A `Client` owns one `WebSocketClient` at a time, replaces it on each attempt, and hears of it only
-- through its event queue; `Client.ws` is therefore the transport's state alone.
--
-- Numbers: identifiers and slots of the protocol are integers without a bound, times are
-- milliseconds of the monotonic clock, and bytes, levels and prices are natural numbers; the level
-- of a quest's reward is cut to 8 bits as in the source. Loops are recursion on the list they
-- walk, except the widening of the gear window (`widen`): its fuel is one pass per level up to the
-- ceiling, which is enough because a pass takes three levels more on each side; the levels made of
-- experience (`level_ups`), with a round for each value of the 8-bit level; and the heirloom weapons
-- (`send_weapons`), with a round for each one that is pending. An exception is a value of `Except`,
-- and what was changed before it stays changed.
--
-- Not modelled: of the character, the reading of the slot data, the packets of taxis and the
-- soulstones; of the traps, what happens in the world when one springs; the rest of the stone and
-- its menus, the database layer, and the scripts that call all of these.
--
-- Outside the model: the JSON library (`JsonLib`, a record of the calls the code makes, with no
-- law assumed), Boost.Asio and Beast, the file system (`Disk`), the log, and the game server. Its
-- templates, players and quests are records of what the code reads of them, and its random choices
-- are functions (`Choose`) that are assumed to give an element of the container.
pub mod Character
pub mod Items
pub mod Locations
pub mod Prelude
pub mod Network
pub mod StoneShop
