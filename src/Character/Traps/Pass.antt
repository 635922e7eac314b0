-- ===== src/Character/Traps/Pass.antt =====
-- A pass of `SpringPendingTraps` of AP_Character.cpp: which traps spring, which wait, and what is
-- saved of them.
use mod_i_found_your_sword.Prelude.{
  ◌+◌, ◌≤◌, ◌≡◌, refl, sym, ap, subst, ◌∙◌, inl, inr, Bool, true, false, not, ◌&&◌, ◌||◌, List, [],
  ◌∷◌, ◌++◌, some, if◌then◌else◌, ◌==◌, ltb, length, contains, arith, append-nil, append_assoc,
  Bool-cases,
}
use mod_i_found_your_sword.Items.Tables.{TrapType, teleport, bombs}
use mod_i_found_your_sword.Character.Traps.{
  same_trap, TrapType-eq, can_spring, TrapWorld, Trapped, emit, save_preferences, receive_trap,
  spring_trap, spring_each, trap_delay_after_teleport, erase_first, spring_pending_traps,
}
use mod_i_found_your_sword.Character.Traps.Text.{print_traps, load_traps}
use mod_i_found_your_sword.Character.Traps.RoundTrip.{load_traps-print_traps}
use mod_i_found_your_sword.Character.Traps.Springs.{
  sprung, Dealt, none_left, deal_left, deal_right, Dealt-length, Dealt-none, Dealt-erase_first,
  bombs_in, Springs, spring_trap-Springs,
}

-- What the loop makes of a list of traps: some spring, and the others wait.
record Deals (ts waiting : List TrapType) (c d : Trapped) (left : List TrapType) : Type 0 where
  now_sprung : List TrapType
  now_waiting : List TrapType
  dealt : Dealt now_sprung now_waiting ts
  springs : sprung d.out ≡ sprung c.out ++ now_sprung
  waits : left ≡ waiting ++ now_waiting
  few_bombs : bombs_in now_sprung ≤ (if c.bomb_run then 0 else 1)
  same_pending : d.pending_traps ≡ c.pending_traps
  same_saved : d.saved_traps ≡ c.saved_traps

spring_each-Deals :
    (w : TrapWorld) (ts waiting : List TrapType) (c : Trapped)
    → Deals ts waiting c (spring_each w ts waiting c).0 (spring_each w ts waiting c).1
unfolding spring_each
spring_each-Deals w [] waiting c = record {
  now_sprung = [];
  now_waiting = [];
  dealt = none_left;
  springs = sym (append-nil (sprung c.out));
  waits = sym (append-nil waiting);
  few_bombs = omega arith;
  same_pending = refl;
  same_saved = refl;
}
spring_each-Deals w (t ∷ ts) waiting c =
    elim (Bool-cases (can_spring (w.player c.out) t && not (same_trap t bombs && c.bomb_run))) [
      | inl e ↦
          rw e
            (now (spring_trap-Springs w t c) e (spring_each-Deals w ts waiting (spring_trap w t c)))
      | inr e ↦ rw e (later (spring_each-Deals w ts (waiting ++ t ∷ []) c))
    ]
  where
    now :
        {d : Trapped} {left : List TrapType}
        → Springs t c (spring_trap w t c)
        → (can_spring (w.player c.out) t && not (same_trap t bombs && c.bomb_run)) ≡ true
        → Deals ts waiting (spring_trap w t c) d left
        → Deals (t ∷ ts) waiting c d left
    now s e r = record {
      now_sprung = t ∷ r.now_sprung;
      now_waiting = r.now_waiting;
      dealt = deal_left t r.dealt;
      springs =
          r.springs
          ∙ ap (λ us. us ++ r.now_sprung) s.once
          ∙ append_assoc (sprung c.out) (t ∷ []) r.now_sprung;
      waits = r.waits;
      few_bombs = ground (arith, r.few_bombs, s.bombing, e);
      same_pending = r.same_pending ∙ s.same_pending;
      same_saved = r.same_saved ∙ s.same_saved;
    }

    later :
        {d : Trapped} {left : List TrapType}
        → Deals ts (waiting ++ t ∷ []) c d left
        → Deals (t ∷ ts) waiting c d left
    later r = record {
      now_sprung = r.now_sprung;
      now_waiting = t ∷ r.now_waiting;
      dealt = deal_right t r.dealt;
      springs = r.springs;
      waits = r.waits ∙ append_assoc waiting (t ∷ []) r.now_waiting;
      few_bombs = r.few_bombs;
      same_pending = r.same_pending;
      same_saved = r.same_saved;
    }

-- The text in the database is that of the traps that wait.
abbrev pub IsSaved : Trapped → Type 0
IsSaved c = c.saved_traps ≡ print_traps [] c.pending_traps

-- A pass deals the traps that waited into those that spring and those that go on waiting.
pub record Passes (c d : Trapped) : Type 0 where
  pub now_sprung : List TrapType
  pub springs : sprung d.out ≡ sprung c.out ++ now_sprung
  pub dealt : Dealt now_sprung d.pending_traps c.pending_traps
  pub few_bombs : bombs_in now_sprung ≤ (if c.bomb_run then 0 else 1)
  pub stays_saved : IsSaved c → IsSaved d

Passes-none :
    (c d : Trapped)
    → d.out ≡ c.out
    → d.pending_traps ≡ c.pending_traps
    → d.saved_traps ≡ c.saved_traps
    → Passes c d
Passes-none c d o p s = record {
  now_sprung = [];
  springs = ap sprung o ∙ sym (append-nil (sprung c.out));
  dealt = subst (λ ts. Dealt [] ts c.pending_traps) (sym p) (Dealt-none c.pending_traps);
  few_bombs = omega arith;
  stays_saved = λ h. s ∙ h ∙ ap (print_traps []) (sym p);
}

Passes-teleport :
    (w : TrapWorld) (c : Trapped)
    → contains teleport c.pending_traps ≡ true
    → Passes c
        (record (spring_trap w teleport
          (save_preferences (record c { pending_traps = erase_first teleport c.pending_traps }))) {
            traps_held_until = w.now + trap_delay_after_teleport;
          })
unfolding save_preferences
Passes-teleport w c h =
    let c' : Trapped =
      save_preferences (record c { pending_traps = erase_first teleport c.pending_traps }) in
    let s = spring_trap-Springs w teleport c' in
    record {
      now_sprung = teleport ∷ [];
      springs = s.once;
      dealt =
          subst (λ ts. Dealt (teleport ∷ []) ts c.pending_traps) (sym s.same_pending)
            (Dealt-erase_first teleport c.pending_traps h);
      few_bombs = omega arith;
      stays_saved = λ g. s.same_saved ∙ ap (print_traps []) (sym s.same_pending);
    }

Passes-each :
    (w : TrapWorld) (c : Trapped)
    → Passes c (
        if length (spring_each w c.pending_traps [] c).1 == length c.pending_traps
        then (spring_each w c.pending_traps [] c).0
        else save_preferences (record (spring_each w c.pending_traps [] c).0 {
          pending_traps = (spring_each w c.pending_traps [] c).1;
        }))
unfolding save_preferences
Passes-each w c =
    settle (spring_each w c.pending_traps [] c).0 (spring_each w c.pending_traps [] c).1
      (spring_each-Deals w c.pending_traps [] c)
  where
    empty : (ls : List TrapType) → length ls ≡ 0 → ls ≡ []
    empty [] h = refl
    empty (l ∷ ls) h = absurd (omega (arith, h))

    settle :
        (d : Trapped) (left : List TrapType)
        → Deals c.pending_traps [] c d left
        → Passes c (
            if length left == length c.pending_traps
            then d
            else save_preferences (record d { pending_traps = left }))
    settle d left r = elim (Bool-cases (length left == length c.pending_traps)) [
      | inl e ↦
          let same : length left ≡ length c.pending_traps = ground (arith, e) in
          let none_sprung : r.now_sprung ≡ [] =
            empty r.now_sprung (omega (arith, Dealt-length r.dealt, ap length r.waits, same)) in
          rw e (record {
            now_sprung = [];
            springs = r.springs ∙ ap (λ ts. sprung c.out ++ ts) none_sprung;
            dealt =
                subst (λ ts. Dealt [] ts c.pending_traps) (sym r.same_pending)
                  (Dealt-none c.pending_traps);
            few_bombs = omega arith;
            stays_saved = λ h. r.same_saved ∙ h ∙ ap (print_traps []) (sym r.same_pending);
          })
      | inr e ↦ rw e (record {
        now_sprung = r.now_sprung;
        springs = r.springs;
        dealt = subst (λ ts. Dealt r.now_sprung ts c.pending_traps) (sym r.waits) r.dealt;
        few_bombs = r.few_bombs;
        stays_saved = λ h. refl;
      })
    ]

Passes-if :
    {c d e : Trapped} (b : Bool)
    → (b ≡ true → Passes c d)
    → Passes c e
    → Passes c (if b then d else e)
Passes-if true f g = f refl
Passes-if false f g = g

-- Whatever the server makes of the player meanwhile, a pass deals the traps that wait into those that
-- spring, each once and in the order of the queue, and those that go on waiting, in that order: no trap
-- is lost or added. At most one Bombs Trap springs, and none while a bomb run goes on. If the text in the
-- database was that of the traps that waited, it is that of the traps that wait now.
pub spring_pending_traps-Passes :
    (w : TrapWorld) (c : Trapped) → Passes c (spring_pending_traps w c)
unfolding spring_pending_traps
spring_pending_traps-Passes w c =
    Passes-if (length c.pending_traps == 0 || c.max_level == 0)
      (λ h. Passes-none c c refl refl refl)
      (Passes-if (w.player c.out).being_teleported
        (λ h.
          Passes-none c (record c { traps_held_until = w.now + trap_delay_after_teleport }) refl
            refl refl)
        (Passes-if (ltb w.now c.traps_held_until) (λ h. Passes-none c c refl refl refl)
          (Passes-if (contains teleport c.pending_traps && can_spring (w.player c.out) teleport)
            (λ h. Passes-teleport w c (ground (arith, h))) (Passes-each w c))))

-- A pass is held: the character is being teleported, or was a moment ago.
unfoldable pub is_held : TrapWorld → Trapped → Bool
is_held w c = (w.player c.out).being_teleported || ltb w.now c.traps_held_until

-- Passes in turn, each with what the server answers then.
unfoldable pub pass_all : List TrapWorld → Trapped → Trapped
unfolding spring_pending_traps
pass_all [] c = c
pass_all (w ∷ ws) c = pass_all ws (spring_pending_traps w c)

unfoldable pub are_held : List TrapWorld → Trapped → Bool
unfolding is_held spring_pending_traps
are_held [] c = true
are_held (w ∷ ws) c = let rest = are_held ws (spring_pending_traps w c) in is_held w c && rest

held_pass :
    (w : TrapWorld) (c : Trapped)
    → is_held w c ≡ true
    → ((spring_pending_traps w c).pending_traps ≡ c.pending_traps)
      × ((spring_pending_traps w c).saved_traps ≡ c.saved_traps)
unfolding is_held spring_pending_traps
held_pass w c h = ground (arith, h)

held_passes :
    (ws : List TrapWorld) (c : Trapped)
    → are_held ws c ≡ true
    → ((pass_all ws c).pending_traps ≡ c.pending_traps)
      × ((pass_all ws c).saved_traps ≡ c.saved_traps)
unfolding pass_all are_held
held_passes [] c h = (refl, refl)
held_passes (w ∷ ws) c h =
    let one = held_pass w c (ground (arith, h)) in
    let more = held_passes ws (spring_pending_traps w c) (ground (arith, h)) in
    (more.0 ∙ one.0, more.1 ∙ one.1)

-- Where the text in the database was that of the traps that waited, a trap that could spring when it was
-- received is missing from it: right after the receipt, and after any passes that are held because the
-- character is being teleported or was a moment ago, if nothing else happens to the traps in between, the
-- trap waits in memory with the others, but what `LoadPreferences` reads back is the queue without it. A
-- trap that could not spring is read back with the others.
pub load-receive_trap :
    (w : TrapWorld) (t : TrapType) (c : Trapped) (ws : List TrapWorld)
    → IsSaved c
    → are_held ws (receive_trap w t c) ≡ true
    → ((pass_all ws (receive_trap w t c)).pending_traps ≡ c.pending_traps ++ t ∷ [])
      × (load_traps (pass_all ws (receive_trap w t c)).saved_traps
          ≡ some (
              if can_spring (w.player c.out) t then c.pending_traps else c.pending_traps ++ t ∷ []))
load-receive_trap w t c ws h held =
    let passed = held_passes ws (receive_trap w t c) held in
    (passed.0 ∙ queued, ap load_traps passed.1 ∙ loaded)
  where
    queued : (receive_trap w t c).pending_traps ≡ c.pending_traps ++ t ∷ []
    queued = unfold receive_trap in unfold save_preferences in unfold emit in ground arith

    loaded :
        load_traps (receive_trap w t c).saved_traps
        ≡ some
            (if can_spring (w.player c.out) t then c.pending_traps else c.pending_traps ++ t ∷ [])
    loaded =
        unfold receive_trap in
        unfold save_preferences in
        unfold emit in
        elim (Bool-cases (can_spring (w.player c.out) t)) [
          | inl e ↦ rw e (ap load_traps h ∙ load_traps-print_traps c.pending_traps)
          | inr e ↦ rw e (load_traps-print_traps (c.pending_traps ++ t ∷ []))
        ]
