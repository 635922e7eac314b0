-- ===== src/Character/Progress/Kept.antt =====
-- The checked locations of AP_Character.cpp in memory, in the database and at the server: whatever
-- hooks run, in whatever order.
use mod_i_found_your_sword.Prelude.{
  ℕ, zero, suc, ◌+◌, ◌-◌, ◌/◌, ◌%◌, ◌^◌, ℤ, ◌≡◌, refl, ap, ◌∙◌, Bool, true, false, not, ◌&&◌, ◌||◌,
  List, [], ◌∷◌, ◌++◌, Option, none, some, if◌then◌else◌, ltb, leb, ◌==◌, ℕ-eq, ℤ-eq, contains, add,
  contains-add, append-nil, arith,
}
use mod_i_found_your_sword.Locations.{get_location_id}
use mod_i_found_your_sword.Character.Progress.{
  Progress, Told, location_checks, status_update, log_xp_gain, experience_bar, pet_xp, tell,
  check_location, check_each, check_locations, check_if, check_unless_checked, save_to_database,
  complete_goal, on_player_achievement_complete, on_player_criteria_progress,
}
use mod_i_found_your_sword.Character.Progress.Experience.{
  load_xp_for_level, send_experience_bar, level_up, level_ups, give_archipelago_experience,
  give_pet_xp,
}
use mod_i_found_your_sword.Character.Progress.CatchUp.{
  Feats, Credit, credit_achievement, credit_criteria, credit_all, missed, catch_up_missed_progress,
  contains-append, check_each-contains,
}

-- The locations of the `LocationChecks` calls.
unfoldable pub sent_in : List Told → List ℤ
sent_in [] = []
sent_in (location_checks ids ∷ more) = ids ++ sent_in more
sent_in (_ ∷ more) = sent_in more

pub sent_in-append :
    (l : ℤ) (xs ys : List Told)
    → contains l (sent_in (xs ++ ys)) ≡ (contains l (sent_in xs) || contains l (sent_in ys))
unfolding sent_in contains
sent_in-append l [] ys = refl
sent_in-append l (location_checks ids ∷ more) ys = ground (
  arith,
  contains-append l ids (sent_in (more ++ ys)),
  contains-append l ids (sent_in more),
  sent_in-append l more ys,
)
sent_in-append l (status_update ∷ more) ys = sent_in-append l more ys
sent_in-append l (log_xp_gain n ∷ more) ys = sent_in-append l more ys
sent_in-append l (experience_bar m n ∷ more) ys = sent_in-append l more ys
sent_in-append l (pet_xp n ∷ more) ys = sent_in-append l more ys

-- The same locations were checked in memory, in the database and, in this session, at the server.
pub record Grows (c d : Progress) : Type 0 where
  pub ids : List ℤ
  pub checked :
      (l : ℤ) → contains l d.checked_locations ≡ (contains l c.checked_locations || contains l ids)
  pub kept : (l : ℤ) → contains l d.rows ≡ (contains l c.rows || contains l ids)
  pub sent : (l : ℤ) → contains l (sent_in d.told) ≡ (contains l (sent_in c.told) || contains l ids)

pub Grows-trans : {c d e : Progress} → Grows c d → Grows d e → Grows c e
Grows-trans f g = record {
  ids = f.ids ++ g.ids;
  checked = λ l. ground (arith, f.checked l, g.checked l, contains-append l f.ids g.ids);
  kept = λ l. ground (arith, f.kept l, g.kept l, contains-append l f.ids g.ids);
  sent = λ l. ground (arith, f.sent l, g.sent l, contains-append l f.ids g.ids);
}

contains-none : (b : Bool) → b ≡ (b || false)
contains-none true = refl
contains-none false = refl

-- What neither checks a location nor sends one.
pub Grows-still :
    (c d : Progress)
    → d.checked_locations ≡ c.checked_locations
    → d.rows ≡ c.rows
    → d.told ≡ c.told
    → Grows c d
unfolding contains
Grows-still c d p q r = record {
  ids = [];
  checked = λ l. ap (contains l) p ∙ contains-none (contains l c.checked_locations);
  kept = λ l. ap (contains l) q ∙ contains-none (contains l c.rows);
  sent = λ l. ap (λ t. contains l (sent_in t)) r ∙ contains-none (contains l (sent_in c.told));
}

pub Grows-refl : (c : Progress) → Grows c c
Grows-refl c = Grows-still c c refl refl refl

-- Words that name no location.
pub tell-Grows :
    (t : Told) (c : Progress)
    → ((l : ℤ) → contains l (sent_in (t ∷ [])) ≡ false)
    → Grows c (tell t c)
unfolding tell contains
tell-Grows t c h = record {
  ids = [];
  checked = λ l. contains-none (contains l c.checked_locations);
  kept = λ l. contains-none (contains l c.rows);
  sent = λ l. ground (arith, sent_in-append l c.told (t ∷ []), h l);
}

pub check_location-Grows : (id : ℤ) (c : Progress) → Grows c (check_location id c)
unfolding check_location tell sent_in contains
check_location-Grows id c = record {
  ids = id ∷ [];
  checked = λ l. ground (arith, contains-add id l c.checked_locations);
  kept = λ l. ground (arith, contains-add id l c.rows);
  sent = λ l. sent_in-append l c.told (location_checks (id ∷ []) ∷ []);
}

check_each-rows :
    (ids : List ℤ) (c : Progress) (l : ℤ)
    → contains l (check_each ids c).rows ≡ (contains l ids || contains l c.rows)
unfolding check_each contains
check_each-rows [] c l = refl
check_each-rows (id ∷ ids) c l =
    let c' : Progress = record c {
      checked_locations = add id c.checked_locations;
      rows = add id c.rows;
    } in
    ground (arith, check_each-rows ids c' l, contains-add id l c.rows)

check_each-told : (ids : List ℤ) (c : Progress) → (check_each ids c).told ≡ c.told
unfolding check_each
check_each-told [] c = refl
check_each-told (id ∷ ids) c =
    check_each-told ids
      (record c { checked_locations = add id c.checked_locations; rows = add id c.rows })

pub check_locations-Grows : (ids : List ℤ) (c : Progress) → Grows c (check_locations ids c)
unfolding check_locations
check_locations-Grows [] c = Grows-refl c
check_locations-Grows (id ∷ ids) c =
    let c' = tell (location_checks (id ∷ ids)) c in
    record {
      ids = id ∷ ids;
      checked = λ l. unfold tell in ground (arith, check_each-contains (id ∷ ids) c' l);
      kept = λ l. unfold tell in ground (arith, check_each-rows (id ∷ ids) c' l);
      sent = λ l. ap (λ t. contains l (sent_in t)) (check_each-told (id ∷ ids) c') ∙ announced l;
    }
  where
    only : (ls : List ℤ) → sent_in (location_checks ls ∷ []) ≡ ls
    only ls = unfold sent_in in append-nil ls

    announced :
        (l : ℤ)
        → contains l (sent_in (tell (location_checks (id ∷ ids)) c).told)
          ≡ (contains l (sent_in c.told) || contains l (id ∷ ids))
    announced l =
        unfold tell in
        (sent_in-append l c.told (location_checks (id ∷ ids) ∷ [])
          ∙ ap (λ ls. contains l (sent_in c.told) || contains l ls) (only (id ∷ ids)))

pub check_if-Grows : (id : Option ℤ) (c : Progress) → Grows c (check_if id c)
unfolding check_if
check_if-Grows none c = Grows-refl c
check_if-Grows (some id) c = check_location-Grows id c

pub check_unless_checked-Grows :
    (id : Option ℤ) (c : Progress) → Grows c (check_unless_checked id c)
unfolding check_unless_checked
check_unless_checked-Grows none c = Grows-refl c
check_unless_checked-Grows (some id) c =
    elim (contains id c.checked_locations)
      as (λ b. Grows c (if b then c else check_location id c)) [
        | true ↦ Grows-refl c
        | false ↦ check_location-Grows id c
      ]

pub save-Grows : (c : Progress) → Grows c (save_to_database c)
unfolding save_to_database
save-Grows c = Grows-still c (save_to_database c) refl refl refl

pub Grows-if : {c d e : Progress} (b : Bool) → Grows c d → Grows c e → Grows c (if b then d else e)
Grows-if true f g = f
Grows-if false f g = g

pub complete_goal-Grows : (c : Progress) → Grows c (complete_goal c)
unfolding complete_goal save_to_database sent_in contains
complete_goal-Grows c =
    let c' = save_to_database (record c { goal_completed = true }) in
    let saved = Grows-still c c' refl refl refl in
    Grows-if c.has_client (Grows-trans saved (tell-Grows status_update c' (λ l. refl))) saved

pub on_player_achievement_complete-Grows :
    (a : ℕ) (c : Progress) → Grows c (on_player_achievement_complete a c)
unfolding on_player_achievement_complete
on_player_achievement_complete-Grows a c =
    let c' = check_if (get_location_id a c.locations.achievements) c in
    let one = check_if-Grows (get_location_id a c.locations.achievements) c in
    Grows-if (a == c'.goal_achievement_id) (Grows-trans one (complete_goal-Grows c')) one

credit_all-Grows : (credits : List Credit) (c : Progress) → Grows c (credit_all credits c)
unfolding credit_all on_player_criteria_progress
credit_all-Grows [] c = Grows-refl c
credit_all-Grows (credit_achievement a ∷ more) c =
    Grows-trans (on_player_achievement_complete-Grows a c)
      (credit_all-Grows more (on_player_achievement_complete a c))
credit_all-Grows (credit_criteria a ∷ more) c =
    Grows-trans (check_if-Grows (get_location_id a c.locations.explorations) c)
      (credit_all-Grows more (on_player_criteria_progress a c))

pub catch_up-Grows : (f : Feats) (c : Progress) → Grows c (catch_up_missed_progress f c)
unfolding catch_up_missed_progress
catch_up-Grows f c =
    let c' = credit_all f.credits c in
    let c'' = check_locations (missed f c') c' in
    let so_far =
      Grows-trans (credit_all-Grows f.credits c) (check_locations-Grows (missed f c') c') in
    Grows-if (not c''.goal_completed && f.has_achieved c''.goal_achievement_id)
      (Grows-trans so_far (complete_goal-Grows c'')) so_far

pub bar-Grows : (c : Progress) → Grows c (send_experience_bar c)
unfolding send_experience_bar sent_in contains
bar-Grows c =
    let shown =
      if ltb 0 c.max_level && leb c.max_level c.ap_level then c.xp_for_level else c.ap_exp in
    tell-Grows (experience_bar shown c.xp_for_level) c (λ l. refl)

pub level_up-Grows : (table : ℕ → ℕ) (c : Progress) → Grows c (level_up table c)
unfolding level_up load_xp_for_level
level_up-Grows table c =
    let level = (c.ap_level + 1) % 2 ^ 8 in
    let c' : Progress = record c { ap_level = level; ap_exp = c.ap_exp - c.xp_for_level } in
    let id = get_location_id level c.locations.levels in
    Grows-trans (Grows-still c c' refl refl refl) (
      Grows-trans (check_if-Grows id c')
        (Grows-still (check_if id c') (load_xp_for_level table (check_if id c')) refl refl refl))

pub level_ups-Grows : (table : ℕ → ℕ) (fuel : ℕ) (c : Progress) → Grows c (level_ups table fuel c)
unfolding level_ups
level_ups-Grows table zero c = Grows-refl c
level_ups-Grows table (suc fuel) c =
    Grows-if (ltb 0 c.xp_for_level && leb c.xp_for_level c.ap_exp)
      (Grows-trans (level_up-Grows table c) (level_ups-Grows table fuel (level_up table c)))
      (Grows-refl c)

pub give-Grows :
    (table : ℕ → ℕ) (xp : ℕ) (c : Progress) → Grows c (give_archipelago_experience table xp c)
unfolding give_archipelago_experience sent_in contains
give-Grows table xp c =
    let c' = if ltb 0 xp then tell (log_xp_gain xp) c else c in
    let d : Progress = record c' { ap_exp = (c'.ap_exp + xp) % 2 ^ 32 } in
    Grows-trans (Grows-if (ltb 0 xp) (tell-Grows (log_xp_gain xp) c (λ l. refl)) (Grows-refl c)) (
      Grows-trans (Grows-still c' d refl refl refl)
        (Grows-trans (level_ups-Grows table 256 d) (bar-Grows (level_ups table 256 d))))

pub pet-Grows :
    (is_kill has_pet in_group : Bool) (xp : ℕ) (c : Progress)
    → Grows c (give_pet_xp is_kill has_pet in_group xp c)
unfolding give_pet_xp sent_in contains
pet-Grows is_kill has_pet in_group xp c =
    Grows-if (not is_kill || not has_pet) (Grows-refl c)
      (tell-Grows (pet_xp (if in_group then xp / 2 else xp)) c (λ l. refl))
