-- ===== src/Config/Toml.antt =====
-- What src/snowglobe/configuration.py tells apart of the values of a TOML document.
use snowglobe.Prelude.{
  String, Bool, true, false, Option, List, [], ◌∷◌, ◌&&◌, str_eq, if◌then◌else◌,
}
use snowglobe.Exec.{Result, ok, err, key_error}
use snowglobe.Python.{ℤ}

-- `floating` has the integer that the float equals, if there is one.
mutual
  pub data Value : Type 0 where
    text : String → Value
    integer : ℤ → Value
    floating : Option ℤ → Value
    boolean : Bool → Value
    array : Values → Value
    table : Table → Value
    other_value : Value

  pub data Values : Type 0 where
    no_values : Values
    value : Value → Values → Values

  pub data Table : Type 0 where
    no_fields : Table
    field : String → Value → Table → Table

-- `table[key]`
unfoldable pub get_item : String → Table → Result Value
get_item key no_fields = err key_error
get_item key (field k v rest) = if str_eq k key then ok v else get_item key rest

unfoldable pub has_key : String → Table → Bool
has_key key no_fields = false
has_key key (field k v rest) = if str_eq k key then true else has_key key rest

unfoldable pub is_listed : String → List String → Bool
is_listed key [] = false
is_listed key (k ∷ ks) = if str_eq k key then true else is_listed key ks

unfoldable pub keys_within : List String → Table → Bool
keys_within expected no_fields = true
keys_within expected (field k v rest) = is_listed k expected && keys_within expected rest

unfoldable pub has_keys : List String → Table → Bool
has_keys [] t = true
has_keys (k ∷ ks) t = has_key k t && has_keys ks t
