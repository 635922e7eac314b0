-- ===== src/Character/Receiver/Granting.antt =====
-- The spells that the multiworld hands over: `GrantSpell`, `GrantRidingMount` and
-- `RemoveUngrantedSpells` of AP_Character.cpp.
use mod_i_found_your_sword.Prelude.{
  ℕ, zero, suc, Bool, true, false, not, ◌||◌, List, [], ◌∷◌, none, some, if◌then◌else◌, ◌==◌, ℕ-eq,
  lookup, contains, add,
}
use mod_i_found_your_sword.Items.Mounts.{get_riding_rank_mounts}
use mod_i_found_your_sword.Items.Tables.{Spells, SpellItem, has_entry_of_its_own, is_randomized}
use mod_i_found_your_sword.Character.Receiver.{World, Receiver}

unfoldable pub learn_granted_spell : World → ℕ → Receiver → Receiver
learn_granted_spell w spell c =
    if contains spell c.spell_book
    then c
    else record c { spell_book = w.learn_spell spell c.spell_book }

-- `OnPlayerCanLearnSpell`, by the spell that is being handed over, 0 for none.
unfoldable pub can_learn_spell : Spells → ℕ → ℕ → Bool
unfolding is_randomized
can_learn_spell spells granting spell = spell == granting || not (is_randomized spells spell)

unfoldable pub add_granted : ℕ → Receiver → Receiver
add_granted spell c = record c { granted_spells = add spell c.granted_spells }

-- The loop over what a wrapper teaches.
unfoldable pub grant_taught : World → List ℕ → Receiver → Receiver
unfolding learn_granted_spell add_granted has_entry_of_its_own
grant_taught w [] c = c
grant_taught w (spell ∷ spells) c = grant_taught w spells (
    if has_entry_of_its_own c.tables.spells spell
    then c
    else learn_granted_spell w spell (add_granted spell c))

unfoldable pub taught_by : Spells → ℕ → List ℕ
taught_by s spell = elim (lookup spell s.by_spell_id) [ some item ↦ item.taught_spells | none ↦ [] ]

unfoldable pub grant_spell : World → ℕ → Receiver → Receiver
unfolding learn_granted_spell add_granted grant_taught taught_by
grant_spell w spell c =
    let c' = add_granted spell c in
    elim (taught_by c.tables.spells spell) [
      | [] ↦ learn_granted_spell w spell c'
      | t ∷ ts ↦ grant_taught w (t ∷ ts) c'
    ]

unfoldable pub knows_any : List ℕ → List ℕ → Bool
knows_any [] book = false
knows_any (s ∷ ss) book = if contains s book then true else knows_any ss book

unfoldable pub grant_riding_mount : World → ℕ → Receiver → Receiver
unfolding knows_any get_riding_rank_mounts
grant_riding_mount w rank c = elim (get_riding_rank_mounts rank w.race w.team) [
  | [] ↦ c
  | m ∷ ms ↦
      if knows_any (m ∷ ms) c.spell_book
      then c
      else record c { spell_book = w.learn_spell (w.choose_mount m ms) c.spell_book }
]

-- The riding ranks up to the count.
unfoldable pub grant_ranks : World → ℕ → List ℕ → Receiver → Receiver
unfolding grant_spell grant_riding_mount
grant_ranks w zero ranks c = c
grant_ranks w (suc n) [] c = c
grant_ranks w (suc n) (rank ∷ ranks) c =
    grant_ranks w n ranks (grant_riding_mount w rank (grant_spell w rank c))

unfoldable pub remove_spell_if_ungranted : World → ℕ → Receiver → Receiver
remove_spell_if_ungranted w spell c =
    if contains spell c.granted_spells || not (contains spell c.spell_book)
    then c
    else record c { spell_book = w.remove_spell spell c.spell_book }

unfoldable pub remove_ungranted : World → List ℕ → Receiver → Receiver
unfolding remove_spell_if_ungranted
remove_ungranted w [] c = c
remove_ungranted w (spell ∷ spells) c =
    remove_ungranted w spells (remove_spell_if_ungranted w spell c)

-- Each entry with what it teaches, in the order of the loop.
unfoldable pub sweep : World → List (ℕ × SpellItem) → Receiver → Receiver
unfolding remove_ungranted
sweep w [] c = c
sweep w ((_, item) ∷ entries) c =
    sweep w entries (remove_ungranted w (item.spell_id ∷ item.taught_spells) c)

unfoldable pub remove_ungranted_spells : World → Receiver → Receiver
unfolding sweep
remove_ungranted_spells w c = sweep w c.tables.spells.by_spell_id c
