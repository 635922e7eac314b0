-- ===== src/Network/Client/Json.antt =====
-- What network/AP_Client.cpp takes from the JSON library (a vendored copy, outside the model) and
-- from the standard library's number parsing. Only the results that the code looks at are named:
-- a call that can throw returns an `Except`.
use mod_i_found_your_sword.Prelude.{ℕ, ℤ, Bool, List, Option}

-- A `std::string`.
abbrev pub Bytes : Type 0
Bytes = List ℕ

-- A result, or the text `what()` of the exception thrown.
pub data Except {ℓ} (A : Type ℓ) : Type ℓ where
  ok : A → Except A
  throws : Bytes → Except A

pub record JsonLib : Type 1 where
  pub Json : Type 0
  pub Double : Type 0
  pub zero_seconds : Double
  -- `json::parse(text, nullptr, false)`, `none` if the result is discarded.
  pub parse : Bytes → Option Json
  pub is_array : Json → Bool
  pub is_object : Json → Bool
  pub is_string : Json → Bool
  -- What a range-based `for` walks over.
  pub elements : Json → List Json
  -- `items()`, keys with values.
  pub items : Json → List (Bytes × Json)
  pub has_key : Json → Bytes → Bool
  pub get_at : Json → Bytes → Except Json
  pub get_int : Json → Except ℤ
  pub get_int64 : Json → Except ℤ
  pub get_ids : Json → Except (List ℤ)
  pub get_ints : Json → Except (List ℤ)
  pub get_string : Json → Except Bytes
  pub get_double : Json → Except Double
  pub value_string : Json → Bytes → Bytes → Except Bytes
  pub value_int : Json → Bytes → ℤ → Except ℤ
  pub value_unsigned : Json → Bytes → ℕ → Except ℕ
  -- `std::stoi`.
  pub stoi : Bytes → Except ℤ
