-- ===== src/Character/DeathLink.antt =====
-- The death link of AP_Character.cpp: deaths sent to the other players, and theirs received.
mod Examples
use mod_i_found_your_sword.Prelude.{
  ℕ, ◌≡◌, refl, Bool, true, false, not, ◌&&◌, ◌||◌, List, [], ◌∷◌, ◌++◌, Option, none, some,
  if◌then◌else◌, arith, append-nil,
}

abbrev pub Bytes : Type 0
Bytes = List ℕ

-- The floating-point numbers, as far as the code uses them.
pub record Doubles : Type 1 where
  pub Double : Type 0
  pub less : Double → Double → Bool
  pub minus_three : Double → Double
  pub zero_seconds : Double

module _ (F : Doubles) where
  pub data Deed : Type 0 where
    bounce : Bytes → Bytes → F.Double → Deed  -- a death link: cause, source and time
    tell_killed_by : Bytes → Bytes → Deed
    kill : Deed

  pub record Mortal : Type 0 where
    pub has_client : Bool
    pub death_link_enabled : Bool
    pub alive : Bool  -- the player
    pub slot : Bytes
    pub last_death_time : F.Double
    pub out : List Deed

  unfoldable pub emit : Deed → Mortal → Mortal
  emit e c = record c { out = c.out ++ e ∷ [] }

  -- `OnPlayerDied`, by the server's time.
  unfoldable pub on_player_died : F.Double → Bytes → Mortal → Mortal
  unfolding emit
  on_player_died now cause c =
      if not c.has_client || not c.death_link_enabled
      then c
      else if F.less F.zero_seconds c.last_death_time
          && F.less (F.minus_three now) c.last_death_time
      then c
      else emit (bounce cause c.slot now) (record c { last_death_time = now })

  -- `Player::Kill` of the player by itself, which calls the hook of scripts/AP_PlayerScripts.cpp.
  unfoldable pub kill_player : F.Double → Bytes → Mortal → Mortal
  unfolding emit on_player_died
  kill_player now died c = on_player_died now died (emit kill (record c { alive = false }))

  -- What a bounced packet says: whether its tags are a list with DeathLink in it, and its data.
  pub record DeathData : Type 0 where
    pub cause : Bytes
    pub source : Bytes
    pub time : Option F.Double

  pub record Bounced : Type 0 where
    pub has_tags : Bool
    pub is_deathlink : Bool
    pub payload : Option DeathData

  -- `APBouncedHandler`, by the server's time and the cause that the hook gives for the kill.
  unfoldable pub ap_bounced_handler : F.Double → Bytes → Bounced → Mortal → Mortal
  unfolding emit kill_player
  ap_bounced_handler now died packet c =
      if not packet.has_tags || not (packet.is_deathlink && c.death_link_enabled)
      then c
      else elim packet.payload [
        | none ↦ c
        | some death ↦
            let timestamp : F.Double = elim death.time [ some time ↦ time | none ↦ now ] in
            if F.less c.last_death_time timestamp && c.alive
            then kill_player now died (
                emit (tell_killed_by death.source death.cause)
                  (record c { last_death_time = timestamp }))
            else c
      ]

  -- The times of the death links that were sent.
  unfoldable pub bounces : List Deed → List F.Double
  bounces [] = []
  bounces (bounce cause source time ∷ es) = time ∷ bounces es
  bounces (tell_killed_by source cause ∷ es) = bounces es
  bounces (kill ∷ es) = bounces es

  bounces-append : (es fs : List Deed) → bounces (es ++ fs) ≡ bounces es ++ bounces fs
  unfolding bounces
  bounces-append [] fs = refl
  bounces-append (e ∷ es) fs = ground (arith, bounces-append es fs)

  -- A death link with a time.
  abbrev pub death_link : Bytes → Bytes → F.Double → Bounced
  death_link cause source time = record {
    has_tags = true;
    is_deathlink = true;
    payload = some (record { cause = cause; source = source; time = some time });
  }

  -- A living character that takes part in death links dies of one that is later than its last death, and
  -- sends a death link of its own for it exactly when the time of the one received, the sender's, is not
  -- above zero or lies three seconds or more behind the server's: a sender whose clock is that slow has each of
  -- its deaths sent once more.
  pub ap_bounced_handler-bounces :
      (now time : F.Double) (died cause source : Bytes) (c : Mortal)
      → c.has_client ≡ true
      → c.death_link_enabled ≡ true
      → c.alive ≡ true
      → F.less c.last_death_time time ≡ true
      → ((ap_bounced_handler now died (death_link cause source time) c).alive ≡ false)
        × (bounces (ap_bounced_handler now died (death_link cause source time) c).out
            ≡ bounces c.out
              ++ (if F.less F.zero_seconds time && F.less (F.minus_three now) time
                  then []
                  else now ∷ []))
  unfolding ap_bounced_handler kill_player on_player_died emit bounces
  ap_bounced_handler-bounces now time died cause source c k d a l =
      let told : Mortal = record c {
        last_death_time = time;
        alive = false;
        out = (c.out ++ tell_killed_by source cause ∷ []) ++ kill ∷ [];
      } in
      ground (
        arith,
        k,
        d,
        a,
        l,
        bounces-append c.out (tell_killed_by source cause ∷ []),
        bounces-append (c.out ++ tell_killed_by source cause ∷ []) (kill ∷ []),
        bounces-append told.out (bounce died c.slot now ∷ []),
        append-nil (bounces c.out),
      )

  -- The room returns a death link to its sender too. Where no double is less than itself, a death that is
  -- sent changes nothing more when its own death link comes back, whether the player lives again by then
  -- or not.
  pub ap_bounced_handler-on_player_died :
      (now later : F.Double) (cause died : Bytes) (alive : Bool) (c : Mortal)
      → ((t : F.Double) → F.less t t ≡ false)
      → c.has_client ≡ true
      → c.death_link_enabled ≡ true
      → (F.less F.zero_seconds c.last_death_time && F.less (F.minus_three now) c.last_death_time)
        ≡ false
      → (bounces (on_player_died now cause c).out ≡ bounces c.out ++ now ∷ [])
        × (ap_bounced_handler later died
              (death_link cause c.slot now)
              (record (on_player_died now cause c) { alive = alive })
            ≡ record (on_player_died now cause c) { alive = alive })
  unfolding on_player_died ap_bounced_handler emit bounces
  ap_bounced_handler-on_player_died now later cause died alive c irreflexive k d fresh =
      ground
        (arith, irreflexive now, k, d, fresh, bounces-append c.out (bounce cause c.slot now ∷ []))
