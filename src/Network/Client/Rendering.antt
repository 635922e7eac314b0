-- ===== src/Network/Client/Rendering.antt =====
-- The two formats of `RenderJson` of network/AP_Client.cpp show the same text.
use mod_i_found_your_sword.Prelude.{
  ◌==◌, ◌≡◌, refl, sym, ap, ◌∙◌, Bool, true, false, List, [], ◌∷◌, ◌++◌, map-append, if◌then◌else◌,
  ℤ, arith,
}
use mod_i_found_your_sword.Network.Client.Json.{JsonLib, Bytes}
use mod_i_found_your_sword.Network.Client.State.{Client, TextNode}
use mod_i_found_your_sword.Network.Client.Text.{color_to_ansi, deansify}
use mod_i_found_your_sword.Network.Client.Render.{
  node_kind, node_text, node_color, color_change, render_ansi, render_text, render_json,
  text_format, ansi_format,
}

-- What a terminal shows: an escape byte starts a sequence, and the next `m` ends it.
strip_from : Bool → Bytes → Bytes
strip_from inside [] = []
strip_from true (b ∷ t) = if b == b'm' then strip_from false t else strip_from true t
strip_from false (b ∷ t) = if b == 0x1B then strip_from true t else b ∷ strip_from false t

pub strip_escapes : Bytes → Bytes
unfolding strip_from
strip_escapes t = strip_from false t

strip-color : (color t : Bytes) → strip_escapes (color_to_ansi color ++ t) ≡ strip_escapes t
unfolding strip_escapes color_to_ansi
strip-color color t = ground arith

strip-deansify : (s t : Bytes) → strip_escapes (deansify s ++ t) ≡ deansify s ++ strip_escapes t
unfolding strip_escapes deansify
strip-deansify [] t = refl
strip-deansify (b ∷ s) t = ground (arith, strip-deansify s t)

strip-change :
    (color : Bytes) (set : Bool) (t : Bytes)
    → strip_escapes ((color_change color set).0 ++ t) ≡ strip_escapes t
unfolding color_change
strip-change color set t = ground (arith, strip-color color t, strip-color [] t)

strip-reset : (set : Bool) → strip_escapes (if set then color_to_ansi [] else []) ≡ []
unfolding strip_escapes color_to_ansi
strip-reset true = refl
strip-reset false = refl

module _ {J : JsonLib} (parse_id : Bytes → ℤ) where
  render_ansi-shows :
      (c : Client J) (set : Bool) (nodes : List TextNode)
      → strip_escapes (render_ansi parse_id c set nodes) ≡ deansify (render_text parse_id c nodes)
  unfolding render_ansi render_text deansify
  render_ansi-shows c set [] = strip-reset set
  render_ansi-shows c set (node ∷ nodes) =
      let kind = node_kind node.kind in
      let text = node_text parse_id c node kind in
      let change = color_change (node_color parse_id c node node.color kind) set in
      let rest = render_ansi parse_id c change.1 nodes in
      strip-change (node_color parse_id c node node.color kind) set (deansify text ++ rest)
      ∙ strip-deansify text rest
      ∙ ap (λ t. deansify text ++ t) (render_ansi-shows c change.1 nodes)
      ∙ sym (map-append _ text (render_text parse_id c nodes))

  -- Without its escape sequences, the ANSI rendering of a message is its plain rendering with each
  -- escape byte of a name or text replaced by a space: the colors add nothing else and hide nothing,
  -- and no text from the server starts a sequence of its own.
  pub render_json-shows :
      (msg : List TextNode) (c : Client J)
      → strip_escapes (render_json parse_id msg ansi_format c)
        ≡ deansify (render_json parse_id msg text_format c)
  unfolding render_json
  render_json-shows msg c = render_ansi-shows c false msg
