-- ===== src/Character/Receiver/Packets.antt =====
-- What the loop of `APReceivedItemsHandler` of AP_Character.cpp makes of a packet, against the items of
-- the server's list that the packet holds.
use mod_i_found_your_sword.Prelude.{
  ℕ, zero, suc, ◌+◌, ◌-◌, max, ℤ, pos, negsuc, ◌<ℤ◌, ◌≡◌, refl, sym, ap, subst, ◌∙◌, inl, inr, Bool,
  true, false, not, List, [], ◌∷◌, ◌++◌, if◌then◌else◌, arith, append_assoc, leb, Bool-cases, ℕ-eq,
}
use mod_i_found_your_sword.Network.Client.State.{NetworkItem}
use mod_i_found_your_sword.Items.Tables.{ItemsContainer, ProgressiveType, ProgressiveType-eq}
use mod_i_found_your_sword.Character.Receiver.{World, Receiver, Effect}
use mod_i_found_your_sword.Character.Receiver.Receiving.{kind_of, reward_item, reward_items}
use mod_i_found_your_sword.Character.Receiver.Quiet.{once_part, Quiet-refl}
use mod_i_found_your_sword.Character.Receiver.Item.{
  hands_out, steps_of, weapon_from, Receives, Receives-Quiet, Rewarded, reward_kind-Receives,
}

-- The server's list of the slot's items, each with its place in it.
abbrev pub nth : (ℕ → NetworkItem) → ℕ → NetworkItem
nth items n = record (items n) { index = pos n }

-- So many items of it, from the first on: what a packet holds.
unfoldable pub slice : (ℕ → NetworkItem) → ℕ → ℕ → List NetworkItem
slice items first zero = []
slice items first (suc n) = nth items first ∷ slice items (suc first) n

-- The index of the last of the first n items.
unfoldable pub last_of : ℕ → ℤ
last_of zero = negsuc 0
last_of (suc n) = pos n

-- What a list of items is worth.
unfoldable pub handed_by : World → ItemsContainer → List NetworkItem → List Effect
handed_by w t [] = []
handed_by w t (i ∷ more) = hands_out w (kind_of t i.item) i.item i.player ++ handed_by w t more

unfoldable pub copies_in : ItemsContainer → ProgressiveType → List NetworkItem → ℕ
copies_in t track [] = 0
copies_in t track (i ∷ more) = steps_of track (kind_of t i.item) + copies_in t track more

unfoldable pub senders_in : ItemsContainer → List NetworkItem → List ℤ
senders_in t [] = []
senders_in t (i ∷ more) = weapon_from (kind_of t i.item) i.player ++ senders_in t more

pub handed_by-append :
    (w : World) (t : ItemsContainer) (is js : List NetworkItem)
    → handed_by w t (is ++ js) ≡ handed_by w t is ++ handed_by w t js
unfolding handed_by
handed_by-append w t [] js = refl
handed_by-append w t (i ∷ more) js = simp (handed_by-append w t more js, append_assoc)

pub copies_in-append :
    (t : ItemsContainer) (track : ProgressiveType) (is js : List NetworkItem)
    → copies_in t track (is ++ js) ≡ copies_in t track is + copies_in t track js
unfolding copies_in
copies_in-append t track [] js = ground arith
copies_in-append t track (i ∷ more) js = ground (arith, copies_in-append t track more js)

pub senders_in-append :
    (t : ItemsContainer) (is js : List NetworkItem)
    → senders_in t (is ++ js) ≡ senders_in t is ++ senders_in t js
unfolding senders_in
senders_in-append t [] js = refl
senders_in-append t (i ∷ more) js = simp (senders_in-append t more js, append_assoc)

pub slice-append :
    (items : ℕ → NetworkItem) (first m n : ℕ)
    → slice items first (m + n) ≡ slice items first m ++ slice items (first + m) n
unfolding slice
slice-append items first zero n = ground arith
slice-append items first (suc m) n =
    let e : suc m + n ≡ suc (m + n) = omega arith in
    let moved : first + suc m ≡ suc first + m = omega arith in
    rw (e, moved) (ap (λ xs. nth items first ∷ xs) (slice-append items (suc first) m n))

-- The items of a packet that lie behind the first n of the list.
unfoldable pub unseen : (ℕ → NetworkItem) → ℕ → ℕ → ℕ → List NetworkItem
unfolding slice
unseen items n first l = slice items (max n first) (first + l - max n first)

pub last_of-lt : (n first : ℕ) → (last_of n <ℤ pos first) ≡ leb n first
unfolding last_of
last_of-lt zero first = ground arith
last_of-lt (suc n) first = ground arith

unseen-suc :
    (items : ℕ → NetworkItem) (n first l : ℕ)
    → unseen items n first (suc l)
      ≡ (if not (last_of n <ℤ pos first) then [] else nth items first ∷ [])
        ++ unseen items n (suc first) l
unfolding unseen
unseen-suc items n first l = elim (Bool-cases (leb n first)) [
  | inl e ↦
      let at : max n first ≡ first = ground arith in
      let next : max n (suc first) ≡ suc first = ground arith in
      let more : first + suc l - first ≡ suc l = omega arith in
      let rest : suc first + l - suc first ≡ l = omega arith in
      rw (last_of-lt n first, e, at, next, more, rest) (unfold slice in refl)
  | inr e ↦
      let at : max n first ≡ n = ground arith in
      let next : max n (suc first) ≡ n = ground arith in
      let more : first + suc l - n ≡ suc first + l - n = omega arith in
      rw (last_of-lt n first, e, at, next, more) refl
]

unseen-nil : (items : ℕ → NetworkItem) (n first : ℕ) → unseen items n first 0 ≡ []
unfolding unseen
unseen-nil items n first =
    let none_left : first + 0 - max n first ≡ 0 = ground arith in
    rw none_left (unfold slice in refl)

handed_by-unseen :
    (w : World) (t : ItemsContainer) (items : ℕ → NetworkItem) (n first l : ℕ)
    → handed_by w t (unseen items n first (suc l))
      ≡ (if not (last_of n <ℤ pos first)
          then []
          else hands_out w (kind_of t (items first).item) (items first).item (items first).player)
        ++ handed_by w t (unseen items n (suc first) l)
unfolding handed_by
handed_by-unseen w t items n first l =
    rw (unseen-suc items n first l) (split (not (last_of n <ℤ pos first)))
  where
    split :
        (seen : Bool)
        → handed_by w t
            ((if seen then [] else nth items first ∷ []) ++ unseen items n (suc first) l)
          ≡ (if seen
              then []
              else hands_out w
                  (kind_of t (items first).item)
                  (items first).item
                  (items first).player)
            ++ handed_by w t (unseen items n (suc first) l)
    split true = refl
    split false = refl

copies_in-unseen :
    (t : ItemsContainer) (track : ProgressiveType) (items : ℕ → NetworkItem) (n first l : ℕ)
    → copies_in t track (unseen items n first (suc l))
      ≡ (if not (last_of n <ℤ pos first) then 0 else steps_of track (kind_of t (items first).item))
        + copies_in t track (unseen items n (suc first) l)
unfolding copies_in
copies_in-unseen t track items n first l =
    rw (unseen-suc items n first l) (split (not (last_of n <ℤ pos first)))
  where
    split :
        (seen : Bool)
        → copies_in t track
            ((if seen then [] else nth items first ∷ []) ++ unseen items n (suc first) l)
          ≡ (if seen then 0 else steps_of track (kind_of t (items first).item))
            + copies_in t track (unseen items n (suc first) l)
    split true = ground arith
    split false = refl

senders_in-unseen :
    (t : ItemsContainer) (items : ℕ → NetworkItem) (n first l : ℕ)
    → senders_in t (unseen items n first (suc l))
      ≡ (if not (last_of n <ℤ pos first)
          then []
          else weapon_from (kind_of t (items first).item) (items first).player)
        ++ senders_in t (unseen items n (suc first) l)
unfolding senders_in
senders_in-unseen t items n first l =
    rw (unseen-suc items n first l) (split (not (last_of n <ℤ pos first)))
  where
    split :
        (seen : Bool)
        → senders_in t ((if seen then [] else nth items first ∷ []) ++ unseen items n (suc first) l)
          ≡ (if seen then [] else weapon_from (kind_of t (items first).item) (items first).player)
            ++ senders_in t (unseen items n (suc first) l)
    split true = refl
    split false = refl

Receives-trans :
    {a b : List Effect} {f g : ProgressiveType → ℕ} {r s : List ℤ} {c d e : Receiver}
    → Receives a f r c d
    → Receives b g s d e
    → Receives (a ++ b) (λ t. f t + g t) (r ++ s) c e
Receives-trans {a} {b} {f} {g} {r} {s} {c} x y = record {
  handed = y.handed ∙ ap (λ es. es ++ b) x.handed ∙ append_assoc (once_part c.out) a b;
  counts = λ t. ground (arith, x.counts t, y.counts t);
  from = y.from ∙ ap (λ es. es ++ s) x.from ∙ append_assoc c.heirloom_weapon_senders r s;
  tables = y.tables ∙ x.tables;
  item_index = y.item_index ∙ x.item_index;
  counted = y.counted ∙ x.counted;
  saved = y.saved ∙ x.saved;
}

-- What the items of a packet behind the first n and the first m of the list do for a receiver.
abbrev pub ReceivesUnseen :
    World → ItemsContainer → (ℕ → NetworkItem) → ℕ → ℕ → ℕ → ℕ → Receiver → Receiver → Type 0
ReceivesUnseen w t items n m first l c d =
    Receives (handed_by w t (unseen items n first l))
      (λ track. copies_in t track (unseen items m first l)) (senders_in t (unseen items m first l))
      c d

reward_item-Receives :
    (w : World) (t : ItemsContainer) (i : NetworkItem) (rewarded counted : Bool) (c : Receiver)
    → c.tables ≡ t
    → Rewarded w
        (kind_of t i.item)
        i.item
        rewarded
        counted
        i.player
        c
        (reward_item w i.item rewarded counted i.player c)
unfolding reward_item
reward_item-Receives w t i rewarded counted c h =
    subst
      (λ u.
        Rewarded w (kind_of u i.item) i.item rewarded counted i.player c
          (reward_item w i.item rewarded counted i.player c))
      h (reward_kind-Receives w (kind_of c.tables i.item) i.item rewarded counted i.player c)

pub reward_items-Receives :
    (w : World) (t : ItemsContainer) (items : ℕ → NetworkItem) (n m first l : ℕ) (c : Receiver)
    → c.tables ≡ t
    → ReceivesUnseen w t items n m first l c
        (reward_items w (last_of n) (last_of m) (slice items first l) c)
unfolding reward_items slice
reward_items-Receives w t items n m first zero c h =
    rw (unseen-nil items n first, unseen-nil items m first)
      (unfold handed_by in unfold copies_in in unfold senders_in in Receives-Quiet (Quiet-refl c))
reward_items-Receives w t items n m first (suc l) c h =
    let seen = not (last_of n <ℤ pos first) in
    let known = not (last_of m <ℤ pos first) in
    let d = reward_item w (items first).item seen known (items first).player c in
    let x = reward_item-Receives w t (items first) seen known c h in
    let y = reward_items-Receives w t items n m (suc first) l d (x.tables ∙ h) in
    let xy = Receives-trans x y in
    record {
      handed =
          xy.handed ∙ ap (λ es. once_part c.out ++ es) (sym (handed_by-unseen w t items n first l));
      counts = λ track. ground (arith, xy.counts track, copies_in-unseen t track items m first l);
      from =
          xy.from
          ∙ ap (λ es. c.heirloom_weapon_senders ++ es) (sym (senders_in-unseen t items m first l));
      tables = xy.tables;
      item_index = xy.item_index;
      counted = xy.counted;
      saved = xy.saved;
    }
