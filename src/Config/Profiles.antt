-- ===== src/Config/Profiles.antt =====
-- src/snowglobe/configuration.py: the loading of the two profiles. Reading and parsing a file gives a
-- document or an exception; `is_blank` tells the texts of which `strip` leaves nothing.
use snowglobe.Prelude.{
  String, Bool, true, false, not, some, List, [], ◌∷◌, ◌&&◌, ◌==◌, str_eq, if◌then◌else◌,
}
use snowglobe.Exec.{
  Error, Result, ok, err, configuration_error, key_error, os_error, value_error, type_error,
}
use snowglobe.Fallible.{◌>>=◌, ◌>>◌, require}
use snowglobe.Python.{ℤ, pos, negsuc}
use snowglobe.Config.Toml.{
  Value, text, integer, floating, boolean, array, table, Values, no_values, value, Table, get_item,
  is_listed, keys_within, has_keys,
}

pub record SnowflakeProfile : Type 0 where
  pub account : String
  pub user : String
  pub authenticator : String
  pub private_key_path : String
  pub database : String
  pub warehouse : String
  pub role : String

-- the tuple of `except` in both loaders, and what it raises
unfoldable pub as_configuration_error : Error → Error
as_configuration_error key_error = configuration_error
as_configuration_error os_error = configuration_error
as_configuration_error value_error = configuration_error
as_configuration_error type_error = configuration_error
as_configuration_error e = e

unfoldable pub configured {ℓ} : {A : Type ℓ} → Result A → Result A
configured (ok a) = ok a
configured (err e) = err (as_configuration_error e)

-- `value == 1`
abbrev pub is_one_ℤ : ℤ → Bool
is_one_ℤ (pos n) = n == 1
is_one_ℤ (negsuc n) = false

unfoldable pub is_one : Value → Bool
is_one (integer z) = is_one_ℤ z
is_one (floating (some z)) = is_one_ℤ z
is_one (boolean b) = b
is_one _ = false

unfoldable pub as_table : Value → Result Table
as_table (table t) = ok t
as_table _ = err configuration_error

-- `_require_exact_fields`
unfoldable pub require_exact_fields : Table → List String → Result (Unit {0})
require_exact_fields t expected =
    require (keys_within expected t && has_keys expected t) configuration_error

-- `len(set(values)) == len(values)`
unfoldable pub are_distinct : List String → Bool
are_distinct [] = true
are_distinct (s ∷ ss) = not (is_listed s ss) && are_distinct ss

module _ (is_blank : String → Bool) where
  -- `_required_string`
  unfoldable pub required_string : Value → Result String
  required_string (text s) = if is_blank s then err configuration_error else ok s
  required_string _ = err configuration_error

  unfoldable pub required_strings : Values → Result (List String)
  required_strings no_values = ok []
  required_strings (value v vs) = elim (required_string v) [
    | err e ↦ err e
    | ok s ↦ elim (required_strings vs) [ err e ↦ err e | ok ss ↦ ok (s ∷ ss) ]
  ]

  -- `_required_string_list`
  unfoldable pub required_string_list : Value → Result (List String)
  required_string_list (array (value v vs)) = do
    values ← required_strings (value v vs)
    require (are_distinct values) configuration_error
    ok values
  required_string_list _ = err configuration_error

  -- the `try` of `load_snowglobe_profile`, on the document
  unfoldable pub read_snowglobe_profile : Table → String → Result (List String)
  read_snowglobe_profile document profile_name = do
    require_exact_fields document ("schema_version" ∷ "profiles" ∷ [])
    version ← get_item "schema_version" document
    require (is_one version) configuration_error
    listed ← get_item "profiles" document
    profiles ← as_table listed
    chosen ← get_item profile_name profiles
    profile ← as_table chosen
    require_exact_fields profile ("allowed_views" ∷ [])
    views ← get_item "allowed_views" profile
    required_string_list views

  -- `load_snowglobe_profile`
  unfoldable pub load_snowglobe_profile : Result Table → String → Result (List String)
  load_snowglobe_profile loaded profile_name =
      configured (do document ← loaded; read_snowglobe_profile document profile_name)

  unfoldable pub string_field : String → Table → Result String
  string_field name profile = do v ← get_item name profile; required_string v

  -- The `try` of `load_snowflake_profile`, on the document. The fields are read in the order of a set,
  -- which makes no difference to the class of the error.
  unfoldable pub read_snowflake_profile : Table → String → Result SnowflakeProfile
  read_snowflake_profile document profile_name = do
    chosen ← get_item profile_name document
    profile ← as_table chosen
    account ← string_field "account" profile
    user ← string_field "user" profile
    authenticator ← string_field "authenticator" profile
    private_key_path ← string_field "private_key_path" profile
    database ← string_field "database" profile
    warehouse ← string_field "warehouse" profile
    role ← string_field "role" profile
    require (str_eq authenticator "SNOWFLAKE_JWT") configuration_error
    ok (record {
      account = account;
      user = user;
      authenticator = authenticator;
      private_key_path = private_key_path;
      database = database;
      warehouse = warehouse;
      role = role;
    })

  -- `load_snowflake_profile`
  unfoldable pub load_snowflake_profile : Result Table → String → Result SnowflakeProfile
  load_snowflake_profile loaded profile_name =
      configured (do document ← loaded; read_snowflake_profile document profile_name)
