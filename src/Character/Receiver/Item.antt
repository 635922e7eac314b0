-- ===== src/Character/Receiver/Item.antt =====
-- What `RewardItem` of AP_Character.cpp does for one item, against what the item is worth.
use mod_i_found_your_sword.Prelude.{
  ℕ-eq, ℕ, suc, ◌+◌, ℤ, ◌≡◌, refl, sym, ap, ◌∙◌, Bool, true, false, List, [], ◌∷◌, ◌++◌, Option,
  none, some, if◌then◌else◌, arith, beq, add, insert, lookup-insert, append-nil,
}
use mod_i_found_your_sword.Items.Tables.{
  ProgressiveItem, ProgressiveType, ProgressiveType-eq, same_type_iff,
}
use mod_i_found_your_sword.Character.Receiver.{
  World, Receiver, Effect, mail_item, mail_gold, give_level, apply_world_buff, receive_trap,
  weapon_waits, emit, mail,
}
use mod_i_found_your_sword.Character.Receiver.Heirlooms.{send_pending_heirloom_weapons}
use mod_i_found_your_sword.Character.Receiver.Receiving.{
  Kind, game_item, heirloom_piece, heirloom_weapon, world_buff, trap, gear, zone, spell,
  progressive, level, friend_teleport, gold_pouch, unknown_kind, count_of, reward_progressive,
  reward_weapon, reward_kind,
}
use mod_i_found_your_sword.Character.Receiver.Quiet.{
  is_once, once_part, once_part-append, Quiet, Quiet-refl, Quiet-trans, emit-Quiet,
  grant_spell-Quiet, grant_ranks-Quiet, send_pending-Quiet, add_keys-Quiet, pay_step-Quiet,
}

-- The mail of a game item, if the server has it.
abbrev pub mails : World → ℕ → ℤ → ℤ → List Effect
mails w item id sender = if w.has_template item then mail_item item id sender ∷ [] else []

-- What an item of a kind hands out, once.
unfoldable pub hands_out : World → Kind → ℤ → ℤ → List Effect
hands_out w (game_item wow) id sender = mails w wow id sender
hands_out w (heirloom_piece piece) id sender =
    mails w (if w.prefers_caster_heirlooms then piece.caster else piece.melee) id sender
hands_out w heirloom_weapon id sender = []
hands_out w world_buff id sender = apply_world_buff ∷ []
hands_out w (trap t) id sender = receive_trap t ∷ []
hands_out w (gear g) id sender = elim (w.roll_gear g) [
  | some item ↦ mails w item id sender
  | none ↦ []
]
hands_out w (zone z) id sender = []
hands_out w (spell s) id sender = []
hands_out w (progressive track) id sender = []
hands_out w level id sender = give_level ∷ []
hands_out w friend_teleport id sender = []
hands_out w gold_pouch id sender = mail_gold sender ∷ []
hands_out w unknown_kind id sender = []

-- How many steps an item of a kind adds to a track.
unfoldable pub steps_of : ProgressiveType → Kind → ℕ
steps_of t (progressive track) = if beq track.track t then 1 else 0
steps_of t _ = 0

-- The sender that an item of a kind adds to those of the heirloom weapons.
unfoldable pub weapon_from : Kind → ℤ → List ℤ
weapon_from heirloom_weapon sender = sender ∷ []
weapon_from _ sender = []

-- What becomes of a receiver that is to be handed `once`, `steps` and `senders`.
pub record Receives (once : List Effect) (steps : ProgressiveType → ℕ) (senders : List ℤ)
    (c d : Receiver) : Type 0 where
  pub handed : once_part d.out ≡ once_part c.out ++ once
  pub counts :
      (t : ProgressiveType)
      → count_of t d.progressive_counts ≡ count_of t c.progressive_counts + steps t
  pub from : d.heirloom_weapon_senders ≡ c.heirloom_weapon_senders ++ senders
  pub tables : d.tables ≡ c.tables
  pub item_index : d.item_index ≡ c.item_index
  pub counted : d.counted_item_index ≡ c.counted_item_index
  pub saved : d.saved_item_index ≡ c.saved_item_index

-- A quiet step hands nothing over.
pub Receives-Quiet : {c d : Receiver} → Quiet c d → Receives [] (λ t. 0) [] c d
Receives-Quiet {c} {d} q = record {
  handed = q.same_once ∙ sym (append-nil (once_part c.out));
  counts = λ t. ground (arith, q.same_counts);
  from = q.same_senders ∙ sym (append-nil c.heirloom_weapon_senders);
  tables = q.same_tables;
  item_index = q.same_item_index;
  counted = q.same_counted;
  saved = q.same_saved;
}

emit-Receives :
    (e : Effect) (c : Receiver) → is_once e ≡ true → Receives (e ∷ []) (λ t. 0) [] c (emit e c)
unfolding emit once_part
emit-Receives e c h = record {
  handed = ground (arith, once_part-append c.out (e ∷ []));
  counts = λ t. ground arith;
  from = sym (append-nil c.heirloom_weapon_senders);
  tables = refl;
  item_index = refl;
  counted = refl;
  saved = refl;
}

mail-Receives :
    (w : World) (item : ℕ) (id sender : ℤ) (c : Receiver)
    → Receives (mails w item id sender) (λ t. 0) [] c (mail w item (mail_item item id sender) c)
unfolding mail
mail-Receives w item id sender c =
    elim (w.has_template item)
      as (λ b.
        Receives (if b then mail_item item id sender ∷ [] else []) (λ t. 0) [] c
          (elim b [ true ↦ emit (mail_item item id sender) c | false ↦ c ])) [
            | true ↦ emit-Receives (mail_item item id sender) c refl
            | false ↦ Receives-Quiet (Quiet-refl c)
          ]

-- A quiet step before.
Receives-after :
    {once : List Effect} {steps : ProgressiveType → ℕ} {senders : List ℤ} {c d e : Receiver}
    → Quiet c d
    → Receives once steps senders d e
    → Receives once steps senders c e
Receives-after {once} {steps} {senders} {c} {d} {e} q r = record {
  handed = r.handed ∙ ap (λ es. es ++ once) q.same_once;
  counts = λ t. r.counts t ∙ ap (λ m. count_of t m + steps t) q.same_counts;
  from = r.from ∙ ap (λ es. es ++ senders) q.same_senders;
  tables = r.tables ∙ q.same_tables;
  item_index = r.item_index ∙ q.same_item_index;
  counted = r.counted ∙ q.same_counted;
  saved = r.saved ∙ q.same_saved;
}

-- A quiet step behind.
Receives-before :
    {once : List Effect} {steps : ProgressiveType → ℕ} {senders : List ℤ} {c d e : Receiver}
    → Receives once steps senders c d
    → Quiet d e
    → Receives once steps senders c e
Receives-before {once} {steps} {senders} {c} {d} {e} r q = record {
  handed = q.same_once ∙ r.handed;
  counts = λ t. ap (λ m. count_of t m) q.same_counts ∙ r.counts t;
  from = q.same_senders ∙ r.from;
  tables = q.same_tables ∙ r.tables;
  item_index = q.same_item_index ∙ r.item_index;
  counted = q.same_counted ∙ r.counted;
  saved = q.same_saved ∙ r.saved;
}

-- What is done unless the item was rewarded before.
Receives-unless :
    {once : List Effect} {c d : Receiver} (rewarded : Bool)
    → Receives once (λ t. 0) [] c d
    → Receives (if rewarded then [] else once) (λ t. 0) [] c (if rewarded then c else d)
Receives-unless {once} {c} true r = Receives-Quiet (Quiet-refl c)
Receives-unless false r = r

-- What neither counts nor names a sender does so whether it was counted or not.
Receives-either :
    {once : List Effect} {c d : Receiver} (counted : Bool)
    → Receives once (λ t. 0) [] c d
    → Receives once (λ t. if counted then 0 else 0) (if counted then [] else []) c d
Receives-either true r = r
Receives-either false r = r

-- What hands nothing over does so whether the item was rewarded or not.
Receives-nothing :
    {steps : ProgressiveType → ℕ} {senders : List ℤ} {c d : Receiver} (rewarded : Bool)
    → Receives [] steps senders c d
    → Receives (if rewarded then [] else []) steps senders c d
Receives-nothing true r = r
Receives-nothing false r = r

Receives-quietly :
    {c d : Receiver} (rewarded counted : Bool)
    → Quiet c d
    → Receives
        (if rewarded then [] else [])
        (λ t. if counted then 0 else 0)
        (if counted then [] else [])
        c
        d
Receives-quietly rewarded counted q =
    Receives-nothing rewarded (Receives-either counted (Receives-Quiet q))

add_copy : ProgressiveItem → Bool → Receiver → Receiver
add_copy track counted c =
    let old = count_of track.track c.progressive_counts in
    let count = if counted then old else suc old in
    record c { progressive_counts = insert track.track count c.progressive_counts }

add_copy-Receives :
    (track : ProgressiveItem) (counted : Bool) (c : Receiver)
    → Receives []
        (λ t. if counted then 0 else steps_of t (progressive track))
        (if counted then [] else [])
        c
        (add_copy track counted c)
unfolding add_copy steps_of
add_copy-Receives track counted c = record {
  handed = sym (append-nil (once_part c.out));
  counts = λ t.
      let old = count_of track.track c.progressive_counts in
      ground (
        arith,
        lookup-insert track.track t (if counted then old else suc old) c.progressive_counts,
        same_type_iff track.track t,
      );
  from =
      elim counted
        as (λ b. c.heirloom_weapon_senders ≡ c.heirloom_weapon_senders ++ (if b then [] else [])) [
          | true ↦ sym (append-nil c.heirloom_weapon_senders)
          | false ↦ sym (append-nil c.heirloom_weapon_senders)
        ];
  tables = refl;
  item_index = refl;
  counted = refl;
  saved = refl;
}

add_sender : Bool → ℤ → Receiver → Receiver
add_sender counted sender c =
    if counted
    then c
    else record c { heirloom_weapon_senders = c.heirloom_weapon_senders ++ sender ∷ [] }

add_sender-Receives :
    (counted : Bool) (sender : ℤ) (c : Receiver)
    → Receives []
        (λ t. if counted then 0 else 0)
        (if counted then [] else sender ∷ [])
        c
        (add_sender counted sender c)
unfolding add_sender
add_sender-Receives true sender c = Receives-Quiet (Quiet-refl c)
add_sender-Receives false sender c = record {
  handed = sym (append-nil (once_part c.out));
  counts = λ t. ground arith;
  from = refl;
  tables = refl;
  item_index = refl;
  counted = refl;
  saved = refl;
}

reward_progressive-Quiet :
    (w : World) (track : ProgressiveItem) (id : ℤ) (rewarded counted : Bool) (sender : ℤ)
    (c : Receiver)
    → Quiet (add_copy track counted c) (reward_progressive w track id rewarded counted sender c)
unfolding add_copy reward_progressive
reward_progressive-Quiet w track id rewarded counted sender c =
    let old = count_of track.track c.progressive_counts in
    let count = if counted then old else suc old in
    let c' : Receiver = record c {
      progressive_counts = insert track.track count c.progressive_counts;
    } in
    ground (
      arith,
      grant_ranks-Quiet w count track.steps c',
      pay_step-Quiet w track count id sender c',
      Quiet-refl c',
    )

reward_weapon-Quiet :
    (w : World) (rewarded counted : Bool) (sender : ℤ) (c : Receiver)
    → Quiet (add_sender counted sender c) (reward_weapon w rewarded counted sender c)
unfolding add_sender reward_weapon
reward_weapon-Quiet w rewarded counted sender c =
    let c' : Receiver =
      if counted
      then c
      else record c { heirloom_weapon_senders = c.heirloom_weapon_senders ++ sender ∷ [] } in
    ground (
      arith,
      send_pending-Quiet w c',
      emit-Quiet weapon_waits (send_pending_heirloom_weapons w c') refl,
    )

-- What an item of a kind does for a receiver.
abbrev pub Rewarded : World → Kind → ℤ → Bool → Bool → ℤ → Receiver → Receiver → Type 0
Rewarded w k id rewarded counted sender c d =
    Receives (if rewarded then [] else hands_out w k id sender)
      (λ t. if counted then 0 else steps_of t k) (if counted then [] else weapon_from k sender) c d

pub reward_kind-Receives :
    (w : World) (k : Kind) (id : ℤ) (rewarded counted : Bool) (sender : ℤ) (c : Receiver)
    → Rewarded w k id rewarded counted sender c (reward_kind w k id rewarded counted sender c)
unfolding reward_kind hands_out steps_of weapon_from
reward_kind-Receives w (game_item wow) id rewarded counted sender c =
    let c' : Receiver =
      if w.is_glyph wow then record c { received_glyphs = add wow c.received_glyphs } else c in
    let glyph : Quiet c c' = ground arith in
    Receives-after glyph
      (Receives-either counted (Receives-unless rewarded (mail-Receives w wow id sender c')))
reward_kind-Receives w (heirloom_piece piece) id rewarded counted sender c =
    let item = if w.prefers_caster_heirlooms then piece.caster else piece.melee in
    Receives-either counted (Receives-unless rewarded (mail-Receives w item id sender c))
reward_kind-Receives w heirloom_weapon id rewarded counted sender c = Receives-nothing rewarded (
    Receives-before (add_sender-Receives counted sender c)
      (reward_weapon-Quiet w rewarded counted sender c))
reward_kind-Receives w world_buff id rewarded counted sender c =
    Receives-either counted (Receives-unless rewarded (emit-Receives apply_world_buff c refl))
reward_kind-Receives w (trap t) id rewarded counted sender c =
    Receives-either counted (Receives-unless rewarded (emit-Receives (receive_trap t) c refl))
reward_kind-Receives w (gear g) id rewarded counted sender c =
    Receives-either counted (Receives-unless rewarded (roll-Receives (w.roll_gear g)))
  where
    roll-Receives :
        (roll : Option ℕ)
        → Receives
            (elim roll [ some item ↦ mails w item id sender | none ↦ [] ])
            (λ t. 0)
            []
            c
            (elim roll [ some item ↦ mail w item (mail_item item id sender) c | none ↦ c ])
    roll-Receives (some item) = mail-Receives w item id sender c
    roll-Receives none = Receives-Quiet (Quiet-refl c)
reward_kind-Receives w (zone z) id rewarded counted sender c =
    let c' : Receiver = record c { unlocked_zones = add z.zone_id c.unlocked_zones } in
    let unlocked : Quiet c c' = ground arith in
    Receives-quietly rewarded counted (Quiet-trans unlocked (add_keys-Quiet w z.keys c'))
reward_kind-Receives w (spell s) id rewarded counted sender c =
    Receives-quietly rewarded counted (grant_spell-Quiet w s.spell_id c)
reward_kind-Receives w (progressive track) id rewarded counted sender c =
    Receives-nothing rewarded (
      Receives-before (add_copy-Receives track counted c)
        (reward_progressive-Quiet w track id rewarded counted sender c))
reward_kind-Receives w level id rewarded counted sender c =
    Receives-either counted (Receives-unless rewarded (emit-Receives give_level c refl))
reward_kind-Receives w friend_teleport id rewarded counted sender c =
    let unlocked : Quiet c (record c { friend_teleport_unlocked = true }) = ground arith in
    Receives-quietly rewarded counted unlocked
reward_kind-Receives w gold_pouch id rewarded counted sender c =
    Receives-either counted (Receives-unless rewarded (emit-Receives (mail_gold sender) c refl))
reward_kind-Receives w unknown_kind id rewarded counted sender c =
    Receives-quietly rewarded counted (Quiet-refl c)
