-- ===== src/Character/Traps/Text.antt =====
-- The text that AP_Character.cpp keeps the waiting traps in: what `SavePreferences` prints and
-- `LoadPreferences` reads.
use mod_i_found_your_sword.Prelude.{
  ℕ, zero, suc, ◌+◌, ◌-◌, ◌*◌, ◌/◌, ◌%◌, ◌^◌, Bool, ◌&&◌, ◌||◌, List, [], ◌∷◌, ◌++◌, Option, none,
  some, if◌then◌else◌, ◌==◌, ltb, leb,
}
use mod_i_found_your_sword.Items.Tables.{TrapType, trap_value, trap_type_from_value}

abbrev pub Bytes : Type 0
Bytes = List ℕ

abbrev pub comma : ℕ
comma = 44

-- The decimal digits of a number, for so many of them at most.
unfoldable pub decimal : ℕ → ℕ → Bytes
decimal zero n = []
decimal (suc fuel) n =
    let more = decimal fuel (n / 10) in
    if ltb n 10 then (48 + n) ∷ [] else more ++ (48 + n % 10) ∷ []

-- `{}` of a uint32, which has ten digits at most.
unfoldable pub print_u32 : ℕ → Bytes
unfolding decimal
print_u32 n = decimal 10 n

-- The loop of `SavePreferences`, with the text so far.
unfoldable pub print_traps : Bytes → List TrapType → Bytes
unfolding print_u32
print_traps text [] = text
print_traps text (t ∷ ts) =
    print_traps (text ++ (elim text [ [] ↦ [] | _ ∷ _ ↦ comma ∷ [] ]) ++ print_u32 (trap_value t))
      ts

unfoldable pub cons_first : ℕ → List Bytes → List Bytes
cons_first b [] = (b ∷ []) ∷ []
cons_first b (piece ∷ pieces) = (b ∷ piece) ∷ pieces

-- What `std::getline` reads of a text up to each comma, nothing behind the last one.
unfoldable pub pieces : Bytes → List Bytes
unfolding cons_first
pieces [] = []
pieces (b ∷ bs) = let rest = pieces bs in if b == comma then [] ∷ rest else cons_first b rest

abbrev pub is_digit : ℕ → Bool
is_digit b = leb 48 b && leb b 57

abbrev pub is_space : ℕ → Bool
is_space b = b == 32 || leb 9 b && leb b 13

unfoldable pub read_digits : ℕ → Bytes → ℕ
read_digits n [] = n
read_digits n (b ∷ bs) =
    let rest = read_digits (n * 10 + (b - 48)) bs in if is_digit b then rest else n

unfoldable pub skip_spaces : Bytes → Bytes
skip_spaces [] = []
skip_spaces (b ∷ bs) = let rest = skip_spaces bs in if is_space b then rest else b ∷ bs

-- The digits behind the sign: none where `std::stoul` throws.
unfoldable pub read_unsigned : Bytes → Option ℕ
unfolding read_digits
read_unsigned [] = none
read_unsigned (b ∷ bs) =
    if is_digit b
    then (if ltb (read_digits 0 (b ∷ bs)) (2 ^ 64) then some (read_digits 0 (b ∷ bs)) else none)
    else none

abbrev pub negated : Option ℕ → Option ℕ
negated none = none
negated (some n) = some ((2 ^ 64 - n) % 2 ^ 64)

-- `std::stoul`, with a 64-bit `unsigned long`.
unfoldable pub stoul : Bytes → Option ℕ
unfolding skip_spaces read_unsigned
stoul text = elim (skip_spaces text) [
  | [] ↦ none
  | b ∷ bs ↦
      if b == 45
      then negated (read_unsigned bs)
      else if b == 43
      then read_unsigned bs
      else read_unsigned (b ∷ bs)
]

-- The loop of `LoadPreferences`. None where `std::stoul` throws.
unfoldable pub load_pieces : List TrapType → List Bytes → Option (List TrapType)
unfolding stoul trap_type_from_value
load_pieces traps [] = some traps
load_pieces traps (piece ∷ more) = elim (stoul piece) [
  | none ↦ none
  | some n ↦
      load_pieces
        (elim (trap_type_from_value (n % 2 ^ 32)) [ some t ↦ traps ++ t ∷ [] | none ↦ traps ]) more
]

unfoldable pub load_traps : Bytes → Option (List TrapType)
unfolding pieces load_pieces
load_traps text = load_pieces [] (pieces text)
