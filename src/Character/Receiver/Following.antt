-- ===== src/Character/Receiver/Following.antt =====
-- A packet of items, taken in by `APReceivedItemsHandler` of AP_Character.cpp, where the list's first
-- items were taken in before.
use mod_i_found_your_sword.Prelude.{
  ℕ, zero, suc, ◌+◌, ◌-◌, ◌≤◌, max, ℤ, pos, ◌==ℤ◌, ◌<ℤ◌, ◌≡◌, refl, sym, ap, subst, ◌∙◌, Bool, true,
  false, not, ◌||◌, ◌++◌, if◌then◌else◌, arith, length, leb, ◌==◌, ℕ-eq, ==ℤ_iff,
}
use mod_i_found_your_sword.Network.Client.State.{NetworkItem}
use mod_i_found_your_sword.Items.Tables.{
  ItemsContainer, ProgressiveType, ProgressiveType-eq, movement_speed, food, drink,
}
use mod_i_found_your_sword.Character.Receiver.{
  World, Receiver, Effect, movement_speed_bonus, remove_outgrown, apply_pending_world_buffs,
  refresh_dungeon_locks, save_to_database, emit,
}
use mod_i_found_your_sword.Character.Receiver.Granting.{remove_ungranted_spells}
use mod_i_found_your_sword.Character.Receiver.Receiving.{
  count_of, reward_items, highest, get_progressive_step, save_index, finish_items,
  on_received_items,
}
use mod_i_found_your_sword.Character.Receiver.Quiet.{
  is_once, Quiet, Quiet-refl, Quiet-trans, emit-Quiet, remove_ungranted_spells-Quiet,
}
use mod_i_found_your_sword.Character.Receiver.Packets.{
  slice, last_of, handed_by, copies_in, senders_in, handed_by-append, copies_in-append,
  senders_in-append, slice-append, unseen, ReceivesUnseen, reward_items-Receives,
}
use mod_i_found_your_sword.Character.Receiver.Events.{packet, Seen, see, Follows}

highest_index :
    (n first : ℕ)
    → (if last_of n <ℤ pos first then pos first else last_of n)
      ≡ last_of (if leb n first then suc first else n)
unfolding last_of
highest_index zero first = ground arith
highest_index (suc n) first = ground arith

highest-slice :
    (items : ℕ → NetworkItem) (n first l : ℕ)
    → first ≤ n
    → highest (last_of n) (slice items first l) ≡ last_of (max n (first + l))
unfolding highest slice
highest-slice items n first zero h = let e : max n (first + 0) ≡ n = ground arith in rw e refl
highest-slice items n first (suc l) h =
    let n' = if leb n first then suc first else n in
    let e : max n (first + suc l) ≡ max n' (suc first + l) = ground arith in
    let step : suc first ≤ n' = ground arith in
    ap (λ index. highest index (slice items (suc first) l)) (highest_index n first)
    ∙ highest-slice items n' (suc first) l step
    ∙ ap last_of (sym e)

emit-unless :
    (b : Bool) (e : Effect) (c : Receiver) → is_once e ≡ false → Quiet c (if b then c else emit e c)
emit-unless true e c h = Quiet-refl c
emit-unless false e c h = emit-Quiet e c h

emit-when :
    (b : Bool) (e : Effect) (c : Receiver) → is_once e ≡ false → Quiet c (if b then emit e c else c)
emit-when true e c h = emit-Quiet e c h
emit-when false e c h = Quiet-refl c

-- A receiver with the new index, saved if it is another.
indexed : ℤ → Receiver → Receiver
indexed new c = record c {
  item_index = new;
  saved_item_index = if new ==ℤ c.item_index then c.saved_item_index else new;
}

save-Quiet :
    (new : ℤ) (c d : Receiver)
    → Quiet c d
    → Quiet
        (indexed new c)
        (record (if new ==ℤ d.item_index then d else save_index (record d { item_index = new })) {
          items_synced = true;
        })
unfolding save_index indexed
save-Quiet new c d q =
    let d' : Receiver = record d { item_index = new; saved_item_index = new } in
    ground (arith, ==ℤ_iff new d.item_index, emit-Quiet save_to_database d' refl)

-- What follows the loop saves the new index and hands nothing over.
finish_items-Quiet :
    (w : World) (speed zones : ℕ) (new : ℤ) (c : Receiver)
    → Quiet (indexed new c) (finish_items w speed zones new c)
unfolding finish_items
finish_items-Quiet w speed zones new c =
    let c₁ =
      if get_progressive_step c movement_speed == speed then c else emit movement_speed_bonus c in
    let q₁ : Quiet c c₁ =
      emit-unless (get_progressive_step c movement_speed == speed) movement_speed_bonus c refl in
    let q₂ = emit-Quiet (remove_outgrown food) c₁ refl in
    let c₂ = emit (remove_outgrown food) c₁ in
    let q₃ = emit-Quiet (remove_outgrown drink) c₂ refl in
    let c₃ = emit (remove_outgrown drink) c₂ in
    let q₄ = remove_ungranted_spells-Quiet w c₃ in
    let c₄ = remove_ungranted_spells w c₃ in
    let q₅ = emit-Quiet apply_pending_world_buffs c₄ refl in
    let c₅ = emit apply_pending_world_buffs c₄ in
    let b = not c₅.items_synced || not (length c₅.unlocked_zones == zones) in
    let q₆ = emit-when b refresh_dungeon_locks c₅ refl in
    save-Quiet new c (if b then emit refresh_dungeon_locks c₅ else c₅)
      (Quiet-trans q₁ (Quiet-trans q₂ (Quiet-trans q₃ (Quiet-trans q₄ (Quiet-trans q₅ q₆)))))

slice-unseen :
    (items : ℕ → NetworkItem) (n first l : ℕ)
    → first ≤ n
    → slice items 0 n ++ unseen items n first l ≡ slice items 0 (max n (first + l))
unfolding unseen
slice-unseen items n first l h =
    let here : max n first ≡ n = omega arith in
    let total : max n (first + l) ≡ n + (first + l - n) = omega arith in
    let start : 0 + n ≡ n = omega arith in
    rw (here, total, slice-append items 0 n (first + l - n), start) refl

kept : (new index saved : ℤ) → index ≡ saved → (if new ==ℤ index then saved else new) ≡ new
kept new index saved e = ground (arith, ==ℤ_iff new index)

module _ (w : World) (t : ItemsContainer) (items : ℕ → NetworkItem) where
  handed-slice :
      (n first l : ℕ)
      → first ≤ n
      → handed_by w t (slice items 0 n) ++ handed_by w t (unseen items n first l)
        ≡ handed_by w t (slice items 0 (max n (first + l)))
  handed-slice n first l h =
      sym (handed_by-append w t (slice items 0 n) (unseen items n first l))
      ∙ ap (handed_by w t) (slice-unseen items n first l h)

  copies-slice :
      (track : ProgressiveType) (n first l : ℕ)
      → first ≤ n
      → copies_in t track (slice items 0 n) + copies_in t track (unseen items n first l)
        ≡ copies_in t track (slice items 0 (max n (first + l)))
  copies-slice track n first l h =
      sym (copies_in-append t track (slice items 0 n) (unseen items n first l))
      ∙ ap (copies_in t track) (slice-unseen items n first l h)

  senders-slice :
      (n first l : ℕ)
      → first ≤ n
      → senders_in t (slice items 0 n) ++ senders_in t (unseen items n first l)
        ≡ senders_in t (slice items 0 (max n (first + l)))
  senders-slice n first l h =
      sym (senders_in-append t (slice items 0 n) (unseen items n first l))
      ∙ ap (senders_in t) (slice-unseen items n first l h)

  pub packet-Follows :
      (s : Seen) (c : Receiver) (first l : ℕ)
      → Follows w t items s c
      → first ≤ s.now
      → Follows w t items (see (packet first l) s) (on_received_items w (slice items first l) c)
  unfolding on_received_items see indexed
  packet-Follows s c first l f h =
      let old : first ≤ s.ever = omega (arith, f.sooner) in
      let c' = reward_items w c.item_index c.counted_item_index (slice items first l) c in
      let r : ReceivesUnseen w t items s.ever s.now first l c c' =
        subst
          (λ i.
            ReceivesUnseen w t items s.ever s.now first l c
              (reward_items w i c.counted_item_index (slice items first l) c))
          (sym f.index)
          (subst
            (λ i.
              ReceivesUnseen w t items s.ever s.now first l c
                (reward_items w (last_of s.ever) i (slice items first l) c))
            (sym f.counted) (reward_items-Receives w t items s.ever s.now first l c f.tables)) in
      let new : highest c.item_index (slice items first l) ≡ last_of (max s.ever (first + l)) =
        ap (λ i. highest i (slice items first l)) f.index
        ∙ highest-slice items s.ever first l old in
      let c'' : Receiver = record c' {
        counted_item_index = highest c.counted_item_index (slice items first l);
      } in
      let q =
        finish_items-Quiet w (get_progressive_step c movement_speed) (length c.unlocked_zones)
          (highest c.item_index (slice items first l)) c'' in
      record {
        tables = q.same_tables ∙ r.tables ∙ f.tables;
        index = q.same_item_index ∙ new;
        saved =
            q.same_saved
            ∙ kept (highest c.item_index (slice items first l)) c'.item_index c'.saved_item_index
                (r.item_index ∙ f.index ∙ sym f.saved ∙ sym r.saved)
            ∙ new;
        counted =
            q.same_counted
            ∙ ap (λ i. highest i (slice items first l)) f.counted
            ∙ highest-slice items s.now first l h;
        sooner = omega (arith, f.sooner);
        handed =
            q.same_once
            ∙ r.handed
            ∙ ap (λ es. es ++ handed_by w t (unseen items s.ever first l)) f.handed
            ∙ handed-slice s.ever first l old;
        counts = λ track.
            ap (count_of track) q.same_counts
            ∙ r.counts track
            ∙ ap (λ n. n + copies_in t track (unseen items s.now first l)) (f.counts track)
            ∙ copies-slice track s.now first l h;
        senders =
            q.same_senders
            ∙ r.from
            ∙ ap (λ es. es ++ senders_in t (unseen items s.now first l)) f.senders
            ∙ senders-slice s.now first l h;
      }
