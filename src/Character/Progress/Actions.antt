-- ===== src/Character/Progress/Actions.antt =====
-- Every caller of `CheckLocation` and `CheckLocations` of AP_Character.cpp, in any order, from a login
-- on: the hooks, the trainers, the skills, the catch-up of a login and the shop of AP_StoneShop.cpp.
use mod_i_found_your_sword.Prelude.{
  ℕ, ◌/◌, max, ℤ, ◌≡◌, refl, sym, ap, ◌∙◌, Bool, true, false, not, ◌&&◌, ◌||◌, List, [], ◌∷◌, ◌++◌,
  if◌then◌else◌, ltb, leb, Option-cases, Bool-cases, subst, inl, inr, some, ℕ-eq, ℤ-eq, contains,
  add, contains-add, append-nil, arith,
}
use mod_i_found_your_sword.Locations.{get_location_id}
use mod_i_found_your_sword.Locations.Skills.{get_location_ids}
use mod_i_found_your_sword.Character.Progress.{
  check_unless_checked, check_location, Progress, location_checks, status_update, tell,
  save_to_database, on_player_achievement_complete, on_player_criteria_progress,
  on_player_complete_quest, on_player_learn_taxi_node, on_player_text_emote,
  on_dungeon_encounter_credited, add_rows, send_rows, sync_location_checks,
}
use mod_i_found_your_sword.Character.Progress.Experience.{
  give_archipelago_experience, boosted, give_pet_xp, on_player_give_xp, use_tome_of_insight,
}
use mod_i_found_your_sword.Character.Progress.CatchUp.{Feats, not_checked, catch_up_missed_progress}
use mod_i_found_your_sword.Character.Progress.Trainer.{after_train_spell, on_player_update_skill}
use mod_i_found_your_sword.Character.Progress.Kept.{
  check_location-Grows, check_locations-Grows, sent_in, Grows, Grows-trans, Grows-refl, tell-Grows,
  check_if-Grows, check_unless_checked-Grows, save-Grows, Grows-if,
  on_player_achievement_complete-Grows, catch_up-Grows, give-Grows, pet-Grows,
}

-- What may happen to a character between its logins.
pub data Action : Type 0 where
  complete_achievement : ℕ → Action
  progress_criteria : ℕ → Action
  complete_quest : ℕ → Action
  learn_taxi_node : ℕ → Action
  greet : Bool → ℕ → Action
  train_spell : ℕ → Action
  update_skill : ℕ → ℕ → Action
  credit_encounter : ℕ → Action
  give_xp : ℕ → Bool → Bool → Bool → ℕ → Action
  read_tome : Action
  buy_location : ℤ → Action  -- `AP_StoneShop::Buy` of a location
  catch_up : Feats → Action
  save : Action

unfoldable pub act : (ℕ → ℕ) → Action → Progress → Progress
act table (complete_achievement a) c = on_player_achievement_complete a c
act table (progress_criteria a) c = on_player_criteria_progress a c
act table (complete_quest a) c = on_player_complete_quest a c
act table (learn_taxi_node a) c = on_player_learn_taxi_node a c
act table (greet greets entry) c = on_player_text_emote greets entry c
act table (credit_encounter a) c = on_dungeon_encounter_credited a c
act table (give_xp bonus is_kill has_pet in_group xp) c =
    (on_player_give_xp table bonus is_kill has_pet in_group xp c).0
act table (train_spell spell) c = (after_train_spell spell c).0
act table (update_skill skill value) c = on_player_update_skill skill value c
act table (buy_location id) c = check_unless_checked (some id) c
act table read_tome c = use_tome_of_insight table c
act table (catch_up f) c = catch_up_missed_progress f c
act table save c = save_to_database c

after_train_spell-Grows : (spell : ℕ) (c : Progress) → Grows c (after_train_spell spell c).0
after_train_spell-Grows spell c = elim (Option-cases (get_location_id spell c.locations.spells)) [
  | inl e ↦ unchanged (unfold after_train_spell in ground (arith, e))
  | inr (location, e) ↦ elim (Bool-cases (contains location c.checked_locations)) [
    | inl h ↦ unchanged (unfold after_train_spell in ground (arith, e, h))
    | inr h ↦
        let bought : after_train_spell spell c ≡ (check_location location c, true) =
          unfold after_train_spell in ground (arith, e, h) in
        subst (λ r. Grows c r.0) (sym bought) (check_location-Grows location c)
  ]
]
  where
    unchanged : after_train_spell spell c ≡ (c, false) → Grows c (after_train_spell spell c).0
    unchanged same = subst (λ r. Grows c r.0) (sym same) (Grows-refl c)

act-Grows : (table : ℕ → ℕ) (a : Action) (c : Progress) → Grows c (act table a c)
unfolding act on_player_criteria_progress on_player_complete_quest on_player_learn_taxi_node
    on_player_text_emote on_dungeon_encounter_credited on_player_give_xp use_tome_of_insight
    on_player_update_skill
act-Grows table (complete_achievement a) c = on_player_achievement_complete-Grows a c
act-Grows table (progress_criteria a) c =
    check_if-Grows (get_location_id a c.locations.explorations) c
act-Grows table (complete_quest a) c = check_if-Grows (get_location_id a c.locations.quests) c
act-Grows table (learn_taxi_node a) c =
    check_if-Grows (get_location_id a c.locations.flight_paths) c
act-Grows table (greet greets entry) c =
    Grows-if greets (check_unless_checked-Grows (get_location_id entry c.locations.leaders) c)
      (Grows-refl c)
act-Grows table (credit_encounter a) c =
    check_unless_checked-Grows (get_location_id a c.locations.bosses) c
act-Grows table (give_xp bonus is_kill has_pet in_group xp) c =
    let c' = give_pet_xp is_kill has_pet in_group xp c in
    let pet = pet-Grows is_kill has_pet in_group xp c in
    let given = Grows-trans pet (give-Grows table (boosted bonus xp) c') in
    elim (leb c'.max_level c'.ap_level)
      as (λ b.
        Grows c
          (if◌then◌else◌ {A = Progress × ℕ} b (c', 0)
            (give_archipelago_experience table (boosted bonus xp) c', 0)).0) [
              | true ↦ pet
              | false ↦ given
            ]
act-Grows table (train_spell spell) c = after_train_spell-Grows spell c
act-Grows table (update_skill skill value) c =
    check_locations-Grows
      (not_checked c.checked_locations (get_location_ids skill value c.locations.skills)) c
act-Grows table (buy_location id) c = check_unless_checked-Grows (some id) c
act-Grows table read_tome c =
    Grows-if (ltb c.ap_level c.max_level) (give-Grows table (max (c.xp_for_level / 4) 1) c)
      (Grows-refl c)
act-Grows table (catch_up f) c = catch_up-Grows f c
act-Grows table save c = save-Grows c

unfoldable pub act_all : (ℕ → ℕ) → List Action → Progress → Progress
unfolding act
act_all table [] c = c
act_all table (a ∷ more) c = act_all table more (act table a c)

act_all-Grows :
    (table : ℕ → ℕ) (actions : List Action) (c : Progress) → Grows c (act_all table actions c)
unfolding act_all
act_all-Grows table [] c = Grows-refl c
act_all-Grows table (a ∷ more) c =
    Grows-trans (act-Grows table a c) (act_all-Grows table more (act table a c))

-- The character as `LoadFromDatabase` makes it, connected and synchronised: of the checked locations,
-- the rows of the database are all that is left of the logins before.
unfoldable pub log_in : Progress → Progress
unfolding sync_location_checks
log_in c = sync_location_checks (record c { has_client = true; checked_locations = []; told = [] })

add_rows-contains :
    (ids : List ℤ) (c : Progress) (l : ℤ)
    → contains l (add_rows ids c).checked_locations
      ≡ (contains l ids || contains l c.checked_locations)
unfolding add_rows contains
add_rows-contains [] c l = refl
add_rows-contains (id ∷ ids) c l = ground (
  arith,
  add_rows-contains ids (record c { checked_locations = add id c.checked_locations }) l,
  contains-add id l c.checked_locations,
)

add_rows-same :
    (ids : List ℤ) (c : Progress)
    → ((add_rows ids c).rows ≡ c.rows) × ((add_rows ids c).told ≡ c.told)
unfolding add_rows
add_rows-same [] c = (refl, refl)
add_rows-same (id ∷ ids) c =
    add_rows-same ids (record c { checked_locations = add id c.checked_locations })

-- Memory, database and server agree on the checked locations.
pub record IsKept (c : Progress) : Type 0 where
  pub as_rows : (l : ℤ) → contains l c.checked_locations ≡ contains l c.rows
  pub as_sent : (l : ℤ) → contains l (sent_in c.told) ≡ contains l c.rows

IsKept-Grows : (c d : Progress) → Grows c d → IsKept c → IsKept d
IsKept-Grows c d g k = record {
  as_rows = λ l. ground (arith, g.checked l, g.kept l, k.as_rows l);
  as_sent = λ l. ground (arith, g.sent l, g.kept l, k.as_sent l);
}

send_rows-IsKept :
    (ids : List ℤ) (c : Progress)
    → c.checked_locations ≡ []
    → c.told ≡ []
    → c.rows ≡ ids
    → IsKept (send_rows ids c)
unfolding send_rows contains sent_in
send_rows-IsKept [] c p q r = record {
  as_rows = λ l. ap (contains l) p ∙ sym (ap (contains l) r);
  as_sent = λ l. ap (λ t. contains l (sent_in t)) q ∙ sym (ap (contains l) r);
}
send_rows-IsKept (id ∷ ids) c p q r =
    unfold tell in
    let c' = add_rows (id ∷ ids) c in
    let rows = (add_rows-same (id ∷ ids) c).0 ∙ r in
    let told = (add_rows-same (id ∷ ids) c).1 ∙ q in
    record {
      as_rows = λ l.
          ground (arith, add_rows-contains (id ∷ ids) c l, ap (contains l) rows, ap (contains l) p);
      as_sent = λ l.
          ap (λ t. contains l (sent_in (t ++ location_checks (id ∷ ids) ∷ []))) told
          ∙ ap (contains l) (append-nil (id ∷ ids))
          ∙ sym (ap (contains l) rows);
    }

log_in-IsKept : (c : Progress) → IsKept (log_in c)
unfolding log_in sync_location_checks sent_in contains
log_in-IsKept c =
    let c₀ : Progress = record c { has_client = true; checked_locations = []; told = [] } in
    let c' = send_rows c.rows c₀ in
    let k = send_rows-IsKept c.rows c₀ refl refl refl in
    elim c.goal_completed as (λ b. IsKept (if b then tell status_update c' else c')) [
      | true ↦ IsKept-Grows c' (tell status_update c') (tell-Grows status_update c' (λ l. refl)) k
      | false ↦ k
    ]

send_rows-rows : (ids : List ℤ) (c : Progress) → (send_rows ids c).rows ≡ c.rows
unfolding send_rows tell
send_rows-rows [] c = refl
send_rows-rows (id ∷ ids) c = (add_rows-same (id ∷ ids) c).0

log_in-rows : (c : Progress) → (log_in c).rows ≡ c.rows
unfolding log_in sync_location_checks tell
log_in-rows c =
    let c₀ : Progress = record c { has_client = true; checked_locations = []; told = [] } in
    ground (arith, send_rows-rows c.rows c₀)

-- Whatever of the callers of `CheckLocation` and `CheckLocations` run after a login, in whatever order
-- and however often (the hooks, the trainers, the skills, the catch-up, and purchases at the shop), the
-- locations checked in memory, those in the database and those that `LocationChecks` of the client was
-- given in this session are the same, and no location that the database held before the login is lost.
pub act_all-IsKept :
    (table : ℕ → ℕ) (actions : List Action) (c : Progress)
    → IsKept (act_all table actions (log_in c))
      × ((l : ℤ)
          → (contains l c.rows && not (contains l (act_all table actions (log_in c)).rows)) ≡ false)
act_all-IsKept table actions c =
    let g = act_all-Grows table actions (log_in c) in
    (
      IsKept-Grows (log_in c) (act_all table actions (log_in c)) g (log_in-IsKept c),
      λ l. ground (arith, g.kept l, ap (contains l) (log_in-rows c)),
    )
