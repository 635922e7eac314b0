-- ===== src/Network/Client/Render.antt =====
-- network/AP_Client.cpp: `RenderJson`, the text of a `PrintJSON` message.
use mod_i_found_your_sword.Prelude.{
  ℕ, ◌==◌, ◌%◌, ◌/◌, ℤ, Bool, true, false, not, ◌&&◌, List, [], ◌∷◌, ◌++◌, if◌then◌else◌, codes,
  beq, bytes-eq,
}
use mod_i_found_your_sword.Network.WebSocket.{is_empty}
use mod_i_found_your_sword.Network.Client.Json.{JsonLib, Bytes}
use mod_i_found_your_sword.Network.Client.State.{Client, TextNode}
use mod_i_found_your_sword.Network.Client.Text.{color_to_ansi, deansify}
use mod_i_found_your_sword.Network.Client.DataPackage.{
  get_player_alias, get_player_game, get_item_name, get_location_name, slot_concerns_self,
}

pub data RenderFormat : Type 0 where
  text_format ansi_format : RenderFormat

pub data NodeKind : Type 0 where
  player_id item_id location_id hint_status plain : NodeKind

unfoldable pub node_kind : Bytes → NodeKind
node_kind kind =
    if beq kind (codes "player_id")
    then player_id
    else if beq kind (codes "item_id")
    then item_id
    else if beq kind (codes "location_id")
    then location_id
    else if beq kind (codes "hint_status")
    then hint_status
    else plain

-- `flags & FlagAdvancement`, `flags & FlagNeverExclude`, `flags & FlagTrap`.
abbrev pub has_flag : ℕ → ℕ → Bool
has_flag flag flags = flags / flag % 2 == 1

unfoldable pub item_color : ℕ → Bytes
item_color flags =
    if has_flag 1 flags
    then codes "plum"
    else if has_flag 2 flags
    then codes "slateblue"
    else if has_flag 4 flags
    then codes "salmon"
    else codes "cyan"

unfoldable pub hint_color : ℕ → Bytes
hint_color status =
    if status == 40
    then codes "green"
    else if status == 0
    then codes "grey"
    else if status == 10
    then codes "slateblue"
    else if status == 20
    then codes "salmon"
    else if status == 30
    then codes "plum"
    else codes "red"

-- The codes that stand before a node: a color is set, or one that was set is taken back.
unfoldable pub color_change : Bytes → Bool → Bytes × Bool
color_change color color_is_set =
    if is_empty color && color_is_set
    then (color_to_ansi [], false)
    else if not (is_empty color)
    then (color_to_ansi color, true)
    else ([], color_is_set)

-- `ParseId` is `std::from_chars`, which is outside the program: `parse_id` is what it makes of a text.
module _ {J : JsonLib} (parse_id : Bytes → ℤ) where
  unfoldable pub node_text : Client J → TextNode → NodeKind → Bytes
  node_text c node player_id = get_player_alias (parse_id node.text) c
  node_text c node item_id = get_item_name (parse_id node.text) (get_player_game node.player c) c
  node_text c node location_id =
      get_location_name (parse_id node.text) (get_player_game node.player c) c
  node_text c node hint_status = node.text
  node_text c node plain = node.text

  -- The color, from the one of the node, which is empty in text format.
  unfoldable pub node_color : Client J → TextNode → Bytes → NodeKind → Bytes
  unfolding item_color hint_color
  node_color c node color player_id =
      if is_empty color && slot_concerns_self (parse_id node.text) c
      then codes "magenta"
      else if is_empty color
      then codes "yellow"
      else color
  node_color c node color item_id = if is_empty color then item_color node.flags else color
  node_color c node color location_id = if is_empty color then codes "blue" else color
  node_color c node color hint_status = hint_color node.hint_status
  node_color c node color plain = color

  unfoldable pub render_ansi : Client J → Bool → List TextNode → Bytes
  unfolding color_change
  render_ansi c color_is_set [] = if color_is_set then color_to_ansi [] else []
  render_ansi c color_is_set (node ∷ nodes) =
      let kind = node_kind node.kind in
      let (before, now_set) = color_change (node_color c node node.color kind) color_is_set in
      before ++ (deansify (node_text c node kind) ++ render_ansi c now_set nodes)

  unfoldable pub render_text : Client J → List TextNode → Bytes
  render_text c [] = []
  render_text c (node ∷ nodes) = node_text c node (node_kind node.kind) ++ render_text c nodes

  unfoldable pub render_json : List TextNode → RenderFormat → Client J → Bytes
  render_json msg text_format c = render_text c msg
  render_json msg ansi_format c = render_ansi c false msg
