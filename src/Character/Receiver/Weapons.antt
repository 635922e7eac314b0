-- ===== src/Character/Receiver/Weapons.antt =====
-- `SendPendingHeirloomWeapons` and `SetHeirloomWeapon` of AP_Character.cpp, against the mail of one
-- slot.
use mod_i_found_your_sword.Prelude.{
  ℕ, zero, suc, ◌+◌, ◌-◌, ◌≤◌, ◌<◌, min, ◌≡◌, ◌≢◌, refl, sym, ap, ◌∙◌, inl, inr, ◌⊎◌, Bool, true,
  false, List, [], ◌∷◌, ◌++◌, if◌then◌else◌, arith, append-nil, append_assoc, length, ◌==◌,
  Bool-cases, ℕ-eq,
}
use mod_i_found_your_sword.Character.Receiver.{
  World, Receiver, Effect, mail_weapon, save_preferences, emit, mail,
}
use mod_i_found_your_sword.Character.Receiver.Heirlooms.{
  get_heirloom_weapon, get_pending_heirloom_weapons, sender_of, send_weapon, send_weapons,
  send_pending_heirloom_weapons,
}

abbrev pub is_weapon_mail : Effect → Bool
is_weapon_mail (mail_weapon _ _) = true
is_weapon_mail _ = false

unfoldable pub weapon_mails : List Effect → List Effect
weapon_mails [] = []
weapon_mails (e ∷ es) = let rest = weapon_mails es in if is_weapon_mail e then e ∷ rest else rest

weapon_mails-append :
    (es fs : List Effect) → weapon_mails (es ++ fs) ≡ weapon_mails es ++ weapon_mails fs
unfolding weapon_mails
weapon_mails-append [] fs = refl
weapon_mails-append (e ∷ es) fs = ground (arith, weapon_mails-append es fs)

-- What a slot is mailed: its weapon, from the sender of the copy that fills it.
unfoldable pub slot_mail : World → Receiver → ℕ → List Effect
slot_mail w c slot =
    let weapon = get_heirloom_weapon c slot in
    if w.has_template weapon
    then mail_weapon weapon (sender_of c.heirloom_weapon_senders slot) ∷ []
    else []

unfoldable pub slot_mails : World → Receiver → ℕ → ℕ → List Effect
slot_mails w c first zero = []
slot_mails w c first (suc n) = slot_mail w c first ++ slot_mails w c (suc first) n

-- A receiver but for the number of slots sent and what the server is to do.
pub record SameSlots (c d : Receiver) : Type 0 where
  pub same_tables : d.tables ≡ c.tables
  pub same_weapons : d.heirloom_weapons ≡ c.heirloom_weapons
  pub same_senders : d.heirloom_weapon_senders ≡ c.heirloom_weapon_senders

get_heirloom_weapon-same :
    (c d : Receiver) (slot : ℕ)
    → SameSlots c d
    → get_heirloom_weapon d slot ≡ get_heirloom_weapon c slot
unfolding get_heirloom_weapon
get_heirloom_weapon-same c d slot s = ground (arith, s.same_tables, s.same_weapons)

slot_mails-same :
    (w : World) (c d : Receiver) (first n : ℕ)
    → SameSlots c d
    → slot_mails w d first n ≡ slot_mails w c first n
unfolding slot_mails slot_mail
slot_mails-same w c d first zero s = refl
slot_mails-same w c d first (suc n) s =
    simp
      (get_heirloom_weapon-same c d first s, s.same_senders, slot_mails-same w c d (suc first) n s)
      refl

-- How many slots the copies that have arrived fill.
unfoldable pub arrived : Receiver → ℕ
arrived c = min (length c.heirloom_weapon_senders) c.tables.heirlooms.weapon_slots

pending-arrived :
    (c : Receiver) → get_pending_heirloom_weapons c ≡ arrived c - c.heirloom_weapons_sent
unfolding get_pending_heirloom_weapons arrived
pending-arrived c = ground arith

arrived-same : (c d : Receiver) → SameSlots c d → arrived d ≡ arrived c
unfolding arrived
arrived-same c d s = simp (s.same_tables, s.same_senders) refl

-- The next so many slots have been sent.
pub record Sends (w : World) (n : ℕ) (c d : Receiver) : Type 0 where
  pub same : SameSlots c d
  pub sent : d.heirloom_weapons_sent ≡ c.heirloom_weapons_sent + n
  pub mails : weapon_mails d.out ≡ weapon_mails c.out ++ slot_mails w c c.heirloom_weapons_sent n
  pub chosen : (i : ℕ) → i < n → get_heirloom_weapon c (c.heirloom_weapons_sent + i) ≢ 0
  pub filled : n ≤ arrived c - c.heirloom_weapons_sent

send_weapon-SameSlots : (w : World) (c : Receiver) → SameSlots c (send_weapon w c)
unfolding send_weapon mail emit
send_weapon-SameSlots w c = ground arith

send_weapon-mails :
    (w : World) (c : Receiver)
    → weapon_mails (send_weapon w c).out
      ≡ weapon_mails c.out ++ slot_mail w c c.heirloom_weapons_sent
unfolding send_weapon mail emit slot_mail weapon_mails
send_weapon-mails w c =
    let weapon = get_heirloom_weapon c c.heirloom_weapons_sent in
    let sender = sender_of c.heirloom_weapon_senders c.heirloom_weapons_sent in
    ground (
      arith,
      weapon_mails-append c.out (mail_weapon weapon sender ∷ []),
      append-nil (weapon_mails c.out),
    )

Sends-none : (w : World) (c : Receiver) → Sends w 0 c c
unfolding slot_mails
Sends-none w c = record {
  same = record { same_tables = refl; same_weapons = refl; same_senders = refl };
  sent = omega arith;
  mails = sym (append-nil (weapon_mails c.out));
  chosen = λ i h. omega arith;
  filled = omega arith;
}

Sends-suc :
    (w : World) (n : ℕ) (c d : Receiver)
    → get_pending_heirloom_weapons c ≢ 0
    → get_heirloom_weapon c c.heirloom_weapons_sent ≢ 0
    → Sends w n (send_weapon w c) d
    → Sends w (suc n) c d
unfolding slot_mails
Sends-suc w n c d p h s =
    let one = send_weapon-SameSlots w c in
    let next : (send_weapon w c).heirloom_weapons_sent ≡ suc c.heirloom_weapons_sent =
      unfold send_weapon in refl in
    record {
      same = record {
        same_tables = s.same.same_tables ∙ one.same_tables;
        same_weapons = s.same.same_weapons ∙ one.same_weapons;
        same_senders = s.same.same_senders ∙ one.same_senders;
      };
      sent = omega (arith, s.sent, next);
      mails =
          s.mails
          ∙ ap
              (λ es. es ++ slot_mails w (send_weapon w c) (send_weapon w c).heirloom_weapons_sent n)
              (send_weapon-mails w c)
          ∙ ap (λ es. (weapon_mails c.out ++ slot_mail w c c.heirloom_weapons_sent) ++ es)
              (slot_mails-same w c (send_weapon w c) (send_weapon w c).heirloom_weapons_sent n one
                ∙ ap (λ k. slot_mails w c k n) next)
          ∙ append_assoc (weapon_mails c.out) (slot_mail w c c.heirloom_weapons_sent)
              (slot_mails w c (suc c.heirloom_weapons_sent) n);
      chosen = all_chosen one next;
      filled =
          omega (arith, s.filled, next, arrived-same c (send_weapon w c) one, p, pending-arrived c);
    }
  where
    all_chosen :
        SameSlots c (send_weapon w c)
        → (send_weapon w c).heirloom_weapons_sent ≡ suc c.heirloom_weapons_sent
        → (i : ℕ) → i < suc n
        → get_heirloom_weapon c (c.heirloom_weapons_sent + i) ≢ 0
    all_chosen one next zero lt =
        let e : c.heirloom_weapons_sent + 0 ≡ c.heirloom_weapons_sent = omega arith in rw e h
    all_chosen one next (suc i) lt =
        let e : c.heirloom_weapons_sent + suc i ≡ (send_weapon w c).heirloom_weapons_sent + i =
          omega (arith, next) in
        rw
          (
            e,
            sym (
                get_heirloom_weapon-same c (send_weapon w c)
                  ((send_weapon w c).heirloom_weapons_sent + i) one),
          )
          (s.chosen i (omega arith))

-- Nothing is left to send: no slot is pending, or the next one has no weapon chosen.
abbrev pub IsSent : Receiver → Type 0
IsSent c =
    (get_pending_heirloom_weapons c ≡ 0) ⊎ (get_heirloom_weapon c c.heirloom_weapons_sent ≡ 0)

pub record SendsAll (w : World) (c d : Receiver) : Type 0 where
  pub count : ℕ
  pub sends : Sends w count c d
  pub done : IsSent d

send_weapons-SendsAll :
    (w : World) (fuel : ℕ) (c : Receiver)
    → get_pending_heirloom_weapons c ≤ fuel
    → SendsAll w c (send_weapons w fuel c)
unfolding send_weapons
send_weapons-SendsAll w zero c h = record {
  count = 0;
  sends = Sends-none w c;
  done = inl (omega arith);
}
send_weapons-SendsAll w (suc fuel) c h =
    let ih =
      send_weapons-SendsAll w fuel (send_weapon w c) (fuel_left (send_weapon-SameSlots w c)) in
    elim (Bool-cases (get_pending_heirloom_weapons c == 0)) [
      | inl e ↦ rw e (record { count = 0; sends = Sends-none w c; done = inl (ground arith) })
      | inr e ↦ elim (Bool-cases (get_heirloom_weapon c c.heirloom_weapons_sent == 0)) [
        | inl e' ↦
            rw (e, e') (record { count = 0; sends = Sends-none w c; done = inr (ground arith) })
        | inr e' ↦
            rw (e, e')
              (record {
                count = suc ih.count;
                sends =
                    Sends-suc w ih.count c (send_weapons w fuel (send_weapon w c)) (ground arith)
                      (ground arith) ih.sends;
                done = ih.done;
              })
      ]
    ]
  where
    fuel_left :
        SameSlots c (send_weapon w c) → get_pending_heirloom_weapons (send_weapon w c) ≤ fuel
    fuel_left one =
        let next : (send_weapon w c).heirloom_weapons_sent ≡ suc c.heirloom_weapons_sent =
          unfold send_weapon in refl in
        omega (
          arith,
          h,
          next,
          arrived-same c (send_weapon w c) one,
          pending-arrived c,
          pending-arrived (send_weapon w c),
        )

Sends-save :
    (w : World) (n : ℕ) (c d : Receiver) → Sends w n c d → Sends w n c (emit save_preferences d)
unfolding emit weapon_mails
Sends-save w n c d s = record {
  same = record {
    same_tables = s.same.same_tables;
    same_weapons = s.same.same_weapons;
    same_senders = s.same.same_senders;
  };
  sent = s.sent;
  mails =
      weapon_mails-append d.out (save_preferences ∷ []) ∙ append-nil (weapon_mails d.out) ∙ s.mails;
  chosen = s.chosen;
  filled = s.filled;
}

-- Each pass over the pending heirloom weapons mails the slots from the first one not sent on, in order and
-- each once: every slot gets the weapon chosen for it, from the sender of the copy that fills it. No slot
-- without a weapon or without a copy is sent, and the pass stops only when no slot is pending or the
-- next one has no weapon.
pub send_pending-SendsAll :
    (w : World) (c : Receiver) → SendsAll w c (send_pending_heirloom_weapons w c)
unfolding send_pending_heirloom_weapons
send_pending-SendsAll w c =
    let fuel = get_pending_heirloom_weapons c in
    let d = send_weapons w fuel c in
    let s = send_weapons-SendsAll w fuel c (omega arith) in
    elim (Bool-cases (d.heirloom_weapons_sent == c.heirloom_weapons_sent)) [
      | inl e ↦ rw e s
      | inr e ↦ rw e (record {
        count = s.count;
        sends = Sends-save w s.count c d s.sends;
        done = saved d s.done;
      })
    ]
  where
    saved : (d : Receiver) → IsSent d → IsSent (emit save_preferences d)
    saved d h = h
