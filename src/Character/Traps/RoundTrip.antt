-- ===== src/Character/Traps/RoundTrip.antt =====
-- The waiting traps of AP_Character.cpp, saved and loaded.
use mod_i_found_your_sword.Prelude.{
  ℕ, ◌+◌, ◌%◌, ◌^◌, List, [], ◌∷◌, ◌++◌, some, ◌≡◌, refl, sym, ap, ◌∙◌, arith, append-nil,
  append_assoc,
}
use mod_i_found_your_sword.Items.Tables.{
  TrapType, dazed, shackle, sheep, poison, teleport, ambush, disarm, bombs, trap_value,
  trap_type_from_value,
}
use mod_i_found_your_sword.Character.Traps.Text.{
  Bytes, comma, decimal, print_u32, print_traps, cons_first, pieces, read_digits, skip_spaces,
  read_unsigned, stoul, load_pieces, load_traps,
}

digit : TrapType → ℕ
digit t = 48 + trap_value t

print_u32-trap : (t : TrapType) → print_u32 (trap_value t) ≡ digit t ∷ []
unfolding print_u32 decimal digit
print_u32-trap dazed = refl
print_u32-trap shackle = refl
print_u32-trap sheep = refl
print_u32-trap poison = refl
print_u32-trap teleport = refl
print_u32-trap ambush = refl
print_u32-trap disarm = refl
print_u32-trap bombs = refl

-- What the loop prints behind the first trap.
behind : List TrapType → Bytes
behind [] = []
behind (t ∷ ts) = comma ∷ digit t ∷ behind ts

print_traps-behind :
    (b : ℕ) (text : Bytes) (ts : List TrapType)
    → print_traps (b ∷ text) ts ≡ (b ∷ text) ++ behind ts
unfolding print_traps behind
print_traps-behind b text [] = sym (append-nil (b ∷ text))
print_traps-behind b text (t ∷ ts) = rw (print_u32-trap t) (
    print_traps-behind b ((text ++ comma ∷ []) ++ digit t ∷ []) ts
    ∙ append_assoc (b ∷ text ++ comma ∷ []) (digit t ∷ []) (behind ts)
    ∙ append_assoc (b ∷ text) (comma ∷ []) (digit t ∷ behind ts))

print_traps-cons :
    (t : TrapType) (ts : List TrapType) → print_traps [] (t ∷ ts) ≡ digit t ∷ behind ts
unfolding print_traps
print_traps-cons t ts = rw (print_u32-trap t) (print_traps-behind (digit t) [] ts)

-- Each trap's text.
texts : List TrapType → List Bytes
texts [] = []
texts (t ∷ ts) = (digit t ∷ []) ∷ texts ts

pieces-behind : (t : TrapType) (ts : List TrapType) → pieces (digit t ∷ behind ts) ≡ texts (t ∷ ts)
unfolding pieces cons_first behind texts digit
pieces-behind t [] = ground arith
pieces-behind t (u ∷ us) = ground (arith, pieces-behind u us)

stoul-digit : (t : TrapType) → stoul (digit t ∷ []) ≡ some (trap_value t)
unfolding stoul skip_spaces read_unsigned read_digits digit
stoul-digit dazed = refl
stoul-digit shackle = refl
stoul-digit sheep = refl
stoul-digit poison = refl
stoul-digit teleport = refl
stoul-digit ambush = refl
stoul-digit disarm = refl
stoul-digit bombs = refl

trap_type_from_value-trap : (t : TrapType) → trap_type_from_value (trap_value t % 2 ^ 32) ≡ some t
unfolding trap_type_from_value
trap_type_from_value-trap dazed = refl
trap_type_from_value-trap shackle = refl
trap_type_from_value-trap sheep = refl
trap_type_from_value-trap poison = refl
trap_type_from_value-trap teleport = refl
trap_type_from_value-trap ambush = refl
trap_type_from_value-trap disarm = refl
trap_type_from_value-trap bombs = refl

load_pieces-texts : (traps ts : List TrapType) → load_pieces traps (texts ts) ≡ some (traps ++ ts)
unfolding load_pieces texts
load_pieces-texts traps [] = ap some (sym (append-nil traps))
load_pieces-texts traps (t ∷ ts) = ground (
  arith,
  stoul-digit t,
  trap_type_from_value-trap t,
  load_pieces-texts (traps ++ t ∷ []) ts,
  append_assoc traps (t ∷ []) ts,
)

-- Whatever traps wait, in whatever order, the text that `SavePreferences` prints of them makes
-- `LoadPreferences` queue the same traps in the same order, and never throw.
pub load_traps-print_traps : (ts : List TrapType) → load_traps (print_traps [] ts) ≡ some ts
unfolding load_traps
load_traps-print_traps [] = unfold print_traps in unfold pieces in unfold load_pieces in refl
load_traps-print_traps (t ∷ ts) =
    rw (print_traps-cons t ts, pieces-behind t ts) (load_pieces-texts [] (t ∷ ts))
