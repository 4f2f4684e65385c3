-- ===== src/Tests/Schemas.antt =====
-- The advertised schemas on concrete arguments and receipts.
use snowglobe.Prelude.{
  String, ◌≡◌, refl, Bool, true, false, none, some, [], ◌∷◌, ◌&&◌, str_eq, if◌then◌else◌, All,
}
use snowglobe.Exec.{ok}
use snowglobe.Python.{pos}
use snowglobe.Control.Contracts.{is_request_id}
use snowglobe.Control.Gateway.{
  text, integer, null, floating, Dict, item, submit_arguments, status_argument, call_tool,
}
use snowglobe.Control.Schemas.{
  some_type, is_member, is_some, is_property, has_required, accepts, accepts_properties, satisfies,
}
use snowglobe.Control.Tools.{
  request_id_pattern, submit_input_schema, status_input_schema, list_tools,
}
use snowglobe.Control.Advertised.{
  is_int_timedelta, submit_arguments-satisfies, status_argument-satisfies,
}
use snowglobe.Control.Conforming.{Conforms, list_tools-Conforms}
use snowglobe.Tests.Pydantic.{reader}
use snowglobe.Tests.Control.{control_program, long_token, urlsafe, fresh, admit}

schemas_program : Unit {0}
unfolding control_program some_type is_member is_property has_required accepts accepts_properties
    satisfies
schemas_program = tt

-- the one regular expression that there is
abbrev only_ids : String → String → Bool
only_ids pattern s = if str_eq pattern request_id_pattern then is_request_id s else false

abbrev arguments : Dict
arguments = ("requested_ttl", integer (pos 60)) ∷ ("sql", text "SELECT 1") ∷ []

takes : satisfies only_ids submit_input_schema arguments ≡ true
unfolding schemas_program
takes = refl

refuses_more : satisfies only_ids submit_input_schema (("role", text "ADMIN") ∷ arguments) ≡ false
unfolding schemas_program
refuses_more = refl

refuses_null :
    satisfies only_ids submit_input_schema
      (("sql", null) ∷ ("requested_ttl", integer (pos 60)) ∷ [])
    ≡ false
unfolding schemas_program
refuses_null = refl

-- The schema lets a time to live pass that no `timedelta` holds.
overlong :
    (satisfies only_ids submit_input_schema
        (("sql", text "SELECT 1") ∷ ("requested_ttl", integer (pos 86400000000000)) ∷ [])
      ≡ true)
    × (submit_arguments
          (some (("sql", text "SELECT 1") ∷ ("requested_ttl", integer (pos 86400000000000)) ∷ []))
        ≡ none)
unfolding schemas_program
overlong = (refl, refl)

-- The schema takes 60.0 for an integer; the tool does not.
refuses_float :
    (satisfies only_ids submit_input_schema
        (("sql", text "SELECT 1") ∷ ("requested_ttl", floating (some (pos 60))) ∷ [])
      ≡ true)
    × (submit_arguments
          (some (("sql", text "SELECT 1") ∷ ("requested_ttl", floating (some (pos 60))) ∷ []))
        ≡ none)
unfolding schemas_program
refuses_float = (refl, refl)

submit_arguments-satisfies_example : is_some (submit_arguments (some arguments)) ≡ (
    satisfies only_ids submit_input_schema arguments
    && is_int_timedelta (item "requested_ttl" arguments))
submit_arguments-satisfies_example = submit_arguments-satisfies only_ids arguments

status_argument-satisfies_example :
    is_some (status_argument (some (("request_id", text long_token) ∷ [])))
    ≡ satisfies only_ids status_input_schema (("request_id", text long_token) ∷ [])
unfolding schemas_program
status_argument-satisfies_example =
    status_argument-satisfies only_ids (λ s. refl) (("request_id", text long_token) ∷ [])

list_tools-Conforms_example :
    All
      (λ tool.
        Conforms reader only_ids tool.output_schema
          (call_tool urlsafe admit
            (ok tt)
            long_token
            long_token
            (record { name = tool.name; arguments = some arguments })
            fresh).0)
      list_tools
unfolding schemas_program
list_tools-Conforms_example =
    list_tools-Conforms reader only_ids (λ s. refl) urlsafe admit (ok tt) long_token long_token
      (some arguments) fresh refl
