-- ===== src/Character/WorldBuffs/Waiting.antt =====
-- The world buffs of AP_Character.cpp that wait, and what becomes of them.
use mod_i_found_your_sword.Prelude.{
  ℕ, zero, suc, ◌+◌, ◌-◌, ◌≤◌, ◌<◌, pos, ◌==ℤ◌, ◌≡◌, refl, sym, ap, subst, ◌∙◌, true, false, List,
  [], ◌∷◌, ◌++◌, if◌then◌else◌, ◌==◌, ==_iff, ℕ-eq, contains, add, contains-add, length, arith,
}
use mod_i_found_your_sword.Character.WorldBuffs.{
  BuffEffect, tell_waiting_buff, tell_received, BuffWorld, Buffed, emit, save_preferences, buffs_of,
  missing_buffs, apply_drawn, draw_from, draw_buff, apply_world_buff, apply_times,
  apply_pending_world_buffs,
}

-- How many buffs were received.
unfoldable pub received : List BuffEffect → ℕ
received [] = 0
received (tell_received spell ∷ es) = suc (received es)
received (_ ∷ es) = received es

received-append : (es fs : List BuffEffect) → received (es ++ fs) ≡ received es + received fs
unfolding received
received-append [] fs = ground arith
received-append (e ∷ es) fs = ground (arith, received-append es fs)

missing_buffs-add :
    (spell : ℕ) (auras bs : List ℕ)
    → length (missing_buffs (add spell auras) bs) ≤ length (missing_buffs auras bs)
unfolding missing_buffs
missing_buffs-add spell auras [] = omega arith
missing_buffs-add spell auras (b ∷ bs) =
    ground (arith, missing_buffs-add spell auras bs, contains-add spell b auras)

missing_buffs-add_lt :
    (spell : ℕ) (auras bs : List ℕ)
    → contains spell (missing_buffs auras bs) ≡ true
    → length (missing_buffs (add spell auras) bs) < length (missing_buffs auras bs)
unfolding missing_buffs contains
missing_buffs-add_lt spell auras [] h = ground (arith, h)
missing_buffs-add_lt spell auras (b ∷ bs) h = ground (
  arith,
  h,
  ==_iff spell b,
  ==_iff b spell,
  missing_buffs-add spell auras bs,
  missing_buffs-add_lt spell auras bs,
  contains-add spell b auras,
)

missing_buffs-contains :
    (spell : ℕ) (auras bs : List ℕ)
    → contains spell (missing_buffs auras bs) ≡ true
    → contains spell bs ≡ true
unfolding missing_buffs contains
missing_buffs-contains spell auras [] h = h
missing_buffs-contains spell auras (b ∷ bs) h =
    ground (arith, h, missing_buffs-contains spell auras bs)

abbrev pub left : BuffWorld → Buffed → ℕ
left w c = length (missing_buffs c.auras (buffs_of w c))

-- So many buffs were received, and each was one more of the slot's while any was missing.
pub record Gains (w : BuffWorld) (n : ℕ) (c d : Buffed) : Type 0 where
  pub got : received d.out ≡ received c.out + n
  pub fewer : left w d ≤ left w c - n
  pub same_alive : d.alive ≡ c.alive
  pub same_melee : d.buffs_melee ≡ c.buffs_melee
  pub same_caster : d.buffs_caster ≡ c.buffs_caster
  pub same_pending : d.pending_world_buffs ≡ c.pending_world_buffs

-- The server knows these buffs and applies them, and draws elements of what it draws from.
pub record IsWilling (w : BuffWorld) (buffs : List ℕ) : Type 0 where
  pub known : (spell : ℕ) → contains spell buffs ≡ true → w.has_spell_info spell ≡ true
  pub applied : (spell : ℕ) → contains spell buffs ≡ true → w.add_aura spell ≡ true
  pub drawn : (b : ℕ) (bs : List ℕ) → contains (w.draw b bs) (b ∷ bs) ≡ true

apply_drawn-Gains :
    (w : BuffWorld) (spell : ℕ) (c : Buffed)
    → IsWilling w (buffs_of w c)
    → contains spell (buffs_of w c) ≡ true
    → length (missing_buffs (add spell c.auras) (buffs_of w c)) ≤ left w c - 1
    → Gains w 1 c (apply_drawn w spell c)
unfolding apply_drawn emit received
apply_drawn-Gains w spell c s own fewer =
    rw (s.known spell own, s.applied spell own)
      (record {
        got = received-append c.out (tell_received spell ∷ []);
        fewer = fewer;
        same_alive = refl;
        same_melee = refl;
        same_caster = refl;
        same_pending = refl;
      })

apply_world_buff-Gains :
    (w : BuffWorld) (c : Buffed)
    → IsWilling w (buffs_of w c)
    → c.alive ≡ true
    → 1 ≤ length (buffs_of w c)
    → Gains w 1 c (apply_world_buff w c)
unfolding apply_world_buff
apply_world_buff-Gains w c s a some_buff =
    let lives : apply_world_buff w c
        ≡ draw_buff w (missing_buffs c.auras (buffs_of w c)) (buffs_of w c) c =
      ground (arith, a) in
    subst (λ d. Gains w 1 c d) (sym lives)
      (from (missing_buffs c.auras (buffs_of w c)) refl (buffs_of w c) refl)
  where
    from :
        (missing : List ℕ)
        → missing_buffs c.auras (buffs_of w c) ≡ missing
        → (buffs : List ℕ) → buffs_of w c ≡ buffs
        → Gains w 1 c (draw_buff w missing buffs c)
    from [] e [] f = absurd (omega (arith, ap length f, some_buff))
    from [] e (b ∷ bs) f =
        unfold draw_buff in
        unfold draw_from in
        apply_drawn-Gains w (w.draw b bs) c s (ap (contains (w.draw b bs)) f ∙ s.drawn b bs)
          (omega (arith, missing_buffs-add (w.draw b bs) c.auras (buffs_of w c), ap length e))
    from (m ∷ ms) e buffs f =
        unfold draw_buff in
        unfold draw_from in
        let drawn : contains (w.draw m ms) (missing_buffs c.auras (buffs_of w c)) ≡ true =
          ap (contains (w.draw m ms)) e ∙ s.drawn m ms in
        let own = missing_buffs-contains (w.draw m ms) c.auras (buffs_of w c) drawn in
        apply_drawn-Gains w (w.draw m ms) c s own
          (omega (arith, missing_buffs-add_lt (w.draw m ms) c.auras (buffs_of w c) drawn))

buffs_of-same :
    (w : BuffWorld) (c d : Buffed)
    → d.buffs_melee ≡ c.buffs_melee
    → d.buffs_caster ≡ c.buffs_caster
    → buffs_of w d ≡ buffs_of w c
buffs_of-same w c d p q = ground (arith, p, q)

apply_times-Gains :
    (w : BuffWorld) (n : ℕ) (c : Buffed)
    → IsWilling w (buffs_of w c)
    → c.alive ≡ true
    → 1 ≤ length (buffs_of w c)
    → Gains w n c (apply_times w n c)
unfolding apply_times
apply_times-Gains w zero c s a some_buff = record {
  got = omega arith;
  fewer = omega arith;
  same_alive = refl;
  same_melee = refl;
  same_caster = refl;
  same_pending = refl;
}
apply_times-Gains w (suc n) c s a some_buff =
    let one = apply_world_buff-Gains w c s a some_buff in
    let c' = apply_world_buff w c in
    let same = buffs_of-same w c c' one.same_melee one.same_caster in
    let more =
      apply_times-Gains w n c' (subst (IsWilling w) (sym same) s) (one.same_alive ∙ a)
        (omega (arith, ap length same, some_buff)) in
    record {
      got = omega (arith, more.got, one.got);
      fewer = omega (arith, more.fewer, one.fewer);
      same_alive = more.same_alive ∙ one.same_alive;
      same_melee = more.same_melee ∙ one.same_melee;
      same_caster = more.same_caster ∙ one.same_caster;
      same_pending = more.same_pending ∙ one.same_pending;
    }

-- So many more buffs wait, in memory and, if there are any, in the database.
pub record Waits (n : ℕ) (c d : Buffed) : Type 0 where
  pub waiting : d.pending_world_buffs ≡ c.pending_world_buffs + n
  pub saved : d.saved_pending ≡ (if n == 0 then c.saved_pending else c.pending_world_buffs + n)
  pub none_received : received d.out ≡ received c.out
  pub same_alive : d.alive ≡ c.alive
  pub same_id : d.buffs_item_id ≡ c.buffs_item_id
  pub same_melee : d.buffs_melee ≡ c.buffs_melee
  pub same_caster : d.buffs_caster ≡ c.buffs_caster
  pub same_auras : d.auras ≡ c.auras

apply_times-Waits :
    (w : BuffWorld) (n : ℕ) (c : Buffed)
    → c.alive ≡ false
    → c.pending_world_buffs + n < 256
    → Waits n c (apply_times w n c)
unfolding apply_times
apply_times-Waits w zero c a few = ground arith
apply_times-Waits w (suc n) c a few =
    let one = wait_one c a (omega (arith, few)) in
    let more =
      apply_times-Waits w n (apply_world_buff w c) (one.same_alive ∙ a)
        (omega (arith, one.waiting, few)) in
    ground (arith, one, more)
  where
    wait_one :
        (d : Buffed)
        → d.alive ≡ false
        → d.pending_world_buffs + 1 < 256
        → Waits 1 d (apply_world_buff w d)
    wait_one d a few =
        unfold apply_world_buff in
        unfold emit in
        unfold save_preferences in
        unfold received in ground (arith, a, few, received-append d.out (tell_waiting_buff ∷ []))

-- Fewer than 256 world buffs that come in while the character is dead, none waiting before, all wait, in the
-- database too. Once it is alive again, on a server that knows and applies each of the slot's buffs and draws
-- elements of what it draws from, it receives as many buffs as came in, none waits any more, in memory or in
-- the database, and the number of the slot's buffs that it misses has fallen by at least that many, or to
-- none.
pub apply_pending-apply_times :
    (w : BuffWorld) (n : ℕ) (c : Buffed)
    → IsWilling w (buffs_of w c)
    → c.alive ≡ false
    → c.pending_world_buffs ≡ 0
    → c.saved_pending ≡ 0
    → n < 256
    → (c.buffs_item_id ==ℤ pos 0) ≡ false
    → 1 ≤ length (buffs_of w c)
    → ((apply_times w n c).pending_world_buffs ≡ n)
      × ((apply_times w n c).saved_pending ≡ n)
      × (received (apply_pending_world_buffs w (record (apply_times w n c) { alive = true })).out
          ≡ received c.out + n)
      × (left w (apply_pending_world_buffs w (record (apply_times w n c) { alive = true }))
          ≤ left w c - n)
      × ((apply_pending_world_buffs w
            (record (apply_times w n c) { alive = true })).pending_world_buffs
          ≡ 0)
      × ((apply_pending_world_buffs w (record (apply_times w n c) { alive = true })).saved_pending
          ≡ 0)
unfolding apply_pending_world_buffs save_preferences
apply_pending-apply_times w n c s a p q few id some_buff =
    let waits = apply_times-Waits w n c a (omega (arith, few, p)) in
    let d : Buffed = record (apply_times w n c) { alive = true; pending_world_buffs = 0 } in
    let same = buffs_of-same w c d waits.same_melee waits.same_caster in
    let gains =
      apply_times-Gains w (apply_times w n c).pending_world_buffs d
        (subst (IsWilling w) (sym same) s) refl (omega (arith, ap length same, some_buff)) in
    let kept : left w d ≡ left w c =
      ap (λ auras. length (missing_buffs auras (buffs_of w d))) waits.same_auras
      ∙ ap (λ bs. length (missing_buffs c.auras bs)) same in
    ground (arith, waits, gains, kept, id, p, q)
