-- ===== src/Tests/Config.antt =====
-- The loading of a profile on concrete documents.
use Prim.Native.Char.{code}
use snowglobe.Prelude.{String, ◌≡◌, refl, Bool, true, [], ◌∷◌, ◌&&◌, leb}
use snowglobe.Exec.{ok, err, configuration_error}
use snowglobe.Python.{pos}
use snowglobe.Config.Toml.{
  Value, text, integer, boolean, array, table, no_values, value, Table, no_fields, field, get_item,
  has_key, is_listed, keys_within, has_keys,
}
use snowglobe.Config.Profiles.{
  as_configuration_error, configured, is_one, as_table, require_exact_fields, are_distinct,
  required_string, required_strings, required_string_list, read_snowglobe_profile,
  load_snowglobe_profile,
}
use snowglobe.Config.Loading.{IsLoaded, load_snowglobe_profile-IsLoaded}

unfoldable pub config_program : Unit {0}
unfolding get_item has_key is_listed keys_within has_keys as_configuration_error configured is_one
    as_table require_exact_fields are_distinct required_string required_strings required_string_list
    read_snowglobe_profile load_snowglobe_profile
config_program = tt

abbrev pub only_spaces : String → Bool
only_spaces String.[] = true
only_spaces (String.◌∷◌ c s) = leb (code c) 32 && only_spaces s

abbrev pub profiles_of : Value → Value
profiles_of views =
    table (field "analyst" (table (field "allowed_views" views no_fields)) no_fields)

abbrev pub document_of : Value → Value → Table
document_of version views =
    field "schema_version" version (field "profiles" (profiles_of views) no_fields)

abbrev pub two_views : Value
two_views = array (value (text "DB.MART.SALES") (value (text "DB.MART.COSTS") no_values))

abbrev same_views : Value
same_views = array (value (text "DB.MART.SALES") (value (text "DB.MART.SALES") no_values))

loads :
    load_snowglobe_profile only_spaces (ok (document_of (integer (pos 1)) two_views)) "analyst"
    ≡ ok ("DB.MART.SALES" ∷ "DB.MART.COSTS" ∷ [])
unfolding config_program
loads = refl

-- `true` equals 1.
loads_true :
    load_snowglobe_profile only_spaces (ok (document_of (boolean true) two_views)) "analyst"
    ≡ ok ("DB.MART.SALES" ∷ "DB.MART.COSTS" ∷ [])
unfolding config_program
loads_true = refl

refuses_duplicates :
    load_snowglobe_profile only_spaces (ok (document_of (integer (pos 1)) same_views)) "analyst"
    ≡ err configuration_error
unfolding config_program
refuses_duplicates = refl

refuses_missing :
    load_snowglobe_profile only_spaces (ok (document_of (integer (pos 1)) two_views)) "other"
    ≡ err configuration_error
unfolding config_program
refuses_missing = refl

load_snowglobe_profile-IsLoaded_example :
    IsLoaded only_spaces
      (ok (document_of (integer (pos 1)) two_views))
      "analyst"
      ("DB.MART.SALES" ∷ "DB.MART.COSTS" ∷ [])
load_snowglobe_profile-IsLoaded_example =
    load_snowglobe_profile-IsLoaded only_spaces (ok (document_of (integer (pos 1)) two_views))
      "analyst" ("DB.MART.SALES" ∷ "DB.MART.COSTS" ∷ []) loads
