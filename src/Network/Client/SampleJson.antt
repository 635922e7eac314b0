-- ===== src/Network/Client/SampleJson.antt =====
-- A small JSON library, for the tests of network/AP_Client.cpp: values with lists and objects.
use mod_i_found_your_sword.Prelude.{
  ℕ, ℤ, pos, Bool, true, false, List, [], ◌∷◌, none, some, if◌then◌else◌, length, codes, beq,
  bytes-eq,
}
use mod_i_found_your_sword.Network.Client.Json.{JsonLib, Bytes, Except, ok, throws}

mutual
  pub data Value : Type 0 where
    null : Value
    number : ℤ → Value
    text : Bytes → Value
    list : Values → Value
    object : Fields → Value

  pub data Values : Type 0 where
    nil : Values
    cons : Value → Values → Values

  pub data Fields : Type 0 where
    end : Fields
    field : Bytes → Value → Fields → Fields

abbrev pub values : Values → List Value
values nil = []
values (cons v vs) = v ∷ values vs

abbrev pub entries : Fields → List (Bytes × Value)
entries end = []
entries (field k v fs) = (k, v) ∷ entries fs

abbrev pub elements_of : Value → List Value
elements_of (list vs) = values vs
elements_of null = []
elements_of _ = []

abbrev pub items_of : Value → List (Bytes × Value)
items_of (object fs) = entries fs
items_of null = []
items_of _ = []

abbrev pub missing_key : Bytes
missing_key = codes "key not found"

abbrev pub found : Bytes → List (Bytes × Value) → Except Value
found key [] = throws missing_key
found key ((k, v) ∷ fs) = if beq k key then ok v else found key fs

abbrev pub as_number : Value → Except ℤ
as_number (number n) = ok n
as_number null = throws (codes "type must be number")
as_number _ = throws (codes "type must be number")

abbrev pub as_text : Value → Except Bytes
as_text (text t) = ok t
as_text null = throws (codes "type must be string")
as_text _ = throws (codes "type must be string")

abbrev pub numbers : List Value → Except (List ℤ)
numbers [] = ok []
numbers (v ∷ vs) =
    let rest = numbers vs in
    elim (as_number v) [
      | ok n ↦ elim rest [ ok ns ↦ ok (n ∷ ns) | throws e ↦ throws e ]
      | throws e ↦ throws e
    ]

abbrev pub or_default {ℓ} : {A : Type ℓ} → Except Value → (Value → Except A) → A → Except A
or_default (ok v) f d = f v
or_default (throws e) f d = ok d

abbrev pub is_list : Value → Bool
is_list (list vs) = true
is_list null = false
is_list _ = false

abbrev pub is_record : Value → Bool
is_record (object fs) = true
is_record null = false
is_record _ = false

abbrev pub is_text : Value → Bool
is_text (text t) = true
is_text null = false
is_text _ = false

abbrev pub fields_of : Value → List (Bytes × Value)
fields_of = items_of

-- `parse` reads the empty text as an empty list and nothing else: the tests build their values.
abbrev pub sample : JsonLib
sample = record {
  Json = Value;
  Double = ℕ;
  zero_seconds = 0;
  parse = λ t. elim t [ [] ↦ some (list nil) | _ ∷ _ ↦ none ];
  is_array = is_list;
  is_object = is_record;
  is_string = is_text;
  elements = elements_of;
  items = items_of;
  has_key = λ v key. elim (found key (fields_of v)) [ ok _ ↦ true | throws _ ↦ false ];
  get_at = λ v key. found key (fields_of v);
  get_int = as_number;
  get_int64 = as_number;
  get_ids = λ v. numbers (elements_of v);
  get_ints = λ v. numbers (elements_of v);
  get_string = as_text;
  get_double = λ v. ok 0;
  value_string = λ v key d. or_default (found key (fields_of v)) as_text d;
  value_int = λ v key d. or_default (found key (fields_of v)) as_number d;
  value_unsigned = λ v key d. ok d;
  stoi = λ t. ok (pos (length t));
}
