-- ===== src/Control/Schemas.antt =====
-- JSON schemas of objects, as far as the tools use them, and what satisfies one.
use snowglobe.Prelude.{
  ℕ, String, Bool, true, false, Option, none, some, List, [], ◌∷◌, ◌&&◌, leb, str_eq, if◌then◌else◌,
}
use snowglobe.Python.{ℤ, pos, negsuc}
use snowglobe.Control.Contracts.{string_length}
use snowglobe.Control.Gateway.{
  Value, text, integer, null, floating, other_value, Dict, item, keys_within,
}

-- the types by their names
pub data JsonType : Type 0 where
  string_type : JsonType
  integer_type : JsonType
  null_type : JsonType

pub record Property : Type 0 where
  pub types : List JsonType
  pub min_length : ℕ
  pub minimum : Option ℕ
  pub pattern : Option String
  pub enumeration : Option (List String)

-- An object schema with `additionalProperties` false.
pub record ObjectSchema : Type 0 where
  pub properties : List (String × Property)
  pub required : List String

abbrev is_string_type : JsonType → Bool
is_string_type string_type = true
is_string_type _ = false

abbrev is_integer_type : JsonType → Bool
is_integer_type integer_type = true
is_integer_type _ = false

abbrev is_null_type : JsonType → Bool
is_null_type null_type = true
is_null_type _ = false

unfoldable pub some_type : (JsonType → Bool) → List JsonType → Bool
some_type is_one [] = false
some_type is_one (t ∷ ts) = if is_one t then true else some_type is_one ts

unfoldable pub is_member : String → List String → Bool
is_member s [] = false
is_member s (m ∷ ms) = if str_eq s m then true else is_member s ms

abbrev pub is_some {ℓ} : {A : Type ℓ} → Option A → Bool
is_some none = false
is_some (some a) = true

abbrev in_enumeration : Option (List String) → String → Bool
in_enumeration none s = true
in_enumeration (some members) s = is_member s members

abbrev has_minimum : Option ℕ → ℤ → Bool
has_minimum none z = true
has_minimum (some m) (pos n) = leb m n
has_minimum (some m) (negsuc n) = false

-- Whether a key is that of a property.
unfoldable pub is_property : List (String × Property) → String → Bool
is_property [] key = false
is_property ((name, p) ∷ ps) key = if str_eq key name then true else is_property ps key

unfoldable pub has_required : List String → Dict → Bool
has_required [] d = true
has_required (key ∷ keys) d = is_some (item key d) && has_required keys d

-- `matches pattern s`: whether the regular expression has a match in the text.
module _ (matches : String → String → Bool) where
  abbrev in_pattern : Option String → String → Bool
  in_pattern none s = true
  in_pattern (some p) s = matches p s

  unfoldable pub accepts : Property → Value → Bool
  accepts p (text s) =
      some_type is_string_type p.types
      && leb p.min_length (string_length s)
      && in_pattern p.pattern s
      && in_enumeration p.enumeration s
  accepts p (integer z) = some_type is_integer_type p.types && has_minimum p.minimum z
  accepts p null = some_type is_null_type p.types
  accepts p (floating (some z)) = some_type is_integer_type p.types && has_minimum p.minimum z
  accepts p (floating none) = false
  accepts p other_value = false

  abbrev pub accepts_optional : Property → Option Value → Bool
  accepts_optional p none = true
  accepts_optional p (some v) = accepts p v

  unfoldable pub accepts_properties : List (String × Property) → Dict → Bool
  accepts_properties [] d = true
  accepts_properties ((name, p) ∷ ps) d =
      accepts_optional p (item name d) && accepts_properties ps d

  -- An object that satisfies a schema. A float without a fraction is an integer there; Booleans, arrays and
  -- objects are accepted nowhere.
  unfoldable pub satisfies : ObjectSchema → Dict → Bool
  satisfies schema d =
      keys_within (is_property schema.properties) d
      && has_required schema.required d
      && accepts_properties schema.properties d
