-- ===== src/Items/Mounts.antt =====
-- `GetRidingRankMounts` of items/AP_Progressive.cpp.
use mod_i_found_your_sword.Prelude.{ℕ, List, [], ◌∷◌, if◌then◌else◌, ◌==◌}
use mod_i_found_your_sword.Items.Gear.{Team, horde, alliance, neutral}

pub data Race : Type 0 where
  orc troll tauren undead_player bloodelf human dwarf nightelf gnome draenei : Race
  other_race : ℕ → Race

unfoldable pub apprentice_mounts : Race → List ℕ
apprentice_mounts orc = 580 ∷ 6653 ∷ 6654 ∷ 64658 ∷ []
apprentice_mounts troll = 8395 ∷ 10796 ∷ 10799 ∷ []
apprentice_mounts tauren = 18989 ∷ 18990 ∷ 64657 ∷ []
apprentice_mounts undead_player = 64977 ∷ 17462 ∷ 17463 ∷ 17464 ∷ []
apprentice_mounts bloodelf = 34795 ∷ 35020 ∷ 35022 ∷ 35018 ∷ []
apprentice_mounts human = 472 ∷ 6648 ∷ 458 ∷ 470 ∷ []
apprentice_mounts dwarf = 6777 ∷ 6899 ∷ 6898 ∷ []
apprentice_mounts nightelf = 66847 ∷ 10793 ∷ 8394 ∷ 10789 ∷ []
apprentice_mounts gnome = 17454 ∷ 10873 ∷ 10969 ∷ 17453 ∷ []
apprentice_mounts draenei = 34406 ∷ 35711 ∷ 35710 ∷ []
apprentice_mounts (other_race _) = []

unfoldable pub journeyman_mounts : Race → List ℕ
journeyman_mounts orc = 23252 ∷ 23250 ∷ 23251 ∷ []
journeyman_mounts troll = 23243 ∷ 23241 ∷ 23242 ∷ []
journeyman_mounts tauren = 23248 ∷ 23247 ∷ 23249 ∷ []
journeyman_mounts undead_player = 66846 ∷ 17465 ∷ 23246 ∷ []
journeyman_mounts bloodelf = 35027 ∷ 33660 ∷ 35025 ∷ []
journeyman_mounts human = 23227 ∷ 23229 ∷ 23228 ∷ []
journeyman_mounts dwarf = 23239 ∷ 23240 ∷ 23238 ∷ []
journeyman_mounts nightelf = 23221 ∷ 23219 ∷ 23338 ∷ []
journeyman_mounts gnome = 23222 ∷ 23225 ∷ 23223 ∷ []
journeyman_mounts draenei = 35713 ∷ 35712 ∷ 35714 ∷ []
journeyman_mounts (other_race _) = []

unfoldable pub expert_mounts : Team → List ℕ
expert_mounts alliance = 32235 ∷ 32239 ∷ 32240 ∷ []
expert_mounts horde = 32243 ∷ 32244 ∷ 32245 ∷ []
expert_mounts neutral = []

unfoldable pub artisan_mounts : Team → List ℕ
artisan_mounts alliance = 32242 ∷ 32289 ∷ 32290 ∷ 32292 ∷ []
artisan_mounts horde = 32246 ∷ 32295 ∷ 32296 ∷ 32297 ∷ []
artisan_mounts neutral = []

unfoldable pub get_riding_rank_mounts : ℕ → Race → Team → List ℕ
unfolding apprentice_mounts journeyman_mounts expert_mounts artisan_mounts
get_riding_rank_mounts rank race team =
    if rank == 33388
    then apprentice_mounts race
    else if rank == 33391
    then journeyman_mounts race
    else if rank == 34090
    then expert_mounts team
    else if rank == 34091
    then artisan_mounts team
    else []
