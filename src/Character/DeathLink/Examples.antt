-- ===== src/Character/DeathLink/Examples.antt =====
-- A character of AP_Character.cpp that takes part in death links.
use mod_i_found_your_sword.Prelude.{
  ltb, ◌++◌, ◌-◌, ℕ, ◌≡◌, refl, true, false, ◌&&◌, [], ◌∷◌, if◌then◌else◌, arith, ℤ-eq,
}
use mod_i_found_your_sword.Prelude.{ℕ-eq}
use mod_i_found_your_sword.Character.DeathLink.{
  Doubles, Mortal, on_player_died, ap_bounced_handler, bounces, death_link,
  ap_bounced_handler-bounces, ap_bounced_handler-on_player_died,
}

-- Whole seconds.
abbrev seconds : Doubles
seconds = record { Double = ℕ; less = ltb; minus_three = λ t. t - 3; zero_seconds = 0 }

abbrev mortal : Mortal seconds
mortal = record {
  has_client = true;
  death_link_enabled = true;
  alive = true;
  slot = 97 ∷ [];
  last_death_time = 10;
  out = [];
}

ap_bounced_handler-bounces_example :
    ((ap_bounced_handler seconds 100
        (100 ∷ [])
        (death_link seconds (99 ∷ []) (98 ∷ []) 95)
        mortal).alive
      ≡ false)
    × (bounces seconds
          (ap_bounced_handler seconds 100
            (100 ∷ [])
            (death_link seconds (99 ∷ []) (98 ∷ []) 95)
            mortal).out
        ≡ bounces seconds [] ++ (if ltb 0 95 && ltb (100 - 3) 95 then [] else 100 ∷ []))
ap_bounced_handler-bounces_example =
    ap_bounced_handler-bounces seconds 100 95 (100 ∷ []) (99 ∷ []) (98 ∷ []) mortal refl refl refl
      refl

never_less : (t : ℕ) → ltb t t ≡ false
never_less t = ground arith

ap_bounced_handler-on_player_died_example :
    (bounces seconds (on_player_died seconds 100 (99 ∷ []) mortal).out
      ≡ bounces seconds [] ++ 100 ∷ [])
    × (ap_bounced_handler seconds 101
          (100 ∷ [])
          (death_link seconds (99 ∷ []) (97 ∷ []) 100)
          (record (on_player_died seconds 100 (99 ∷ []) mortal) { alive = true })
        ≡ record (on_player_died seconds 100 (99 ∷ []) mortal) { alive = true })
ap_bounced_handler-on_player_died_example =
    ap_bounced_handler-on_player_died seconds 100 101 (99 ∷ []) (100 ∷ []) true mortal never_less
      refl refl refl
