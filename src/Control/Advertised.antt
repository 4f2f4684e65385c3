-- ===== src/Control/Advertised.antt =====
-- The tool calls against the schemas that are advertised.
use snowglobe.Prelude.{
  ℕ, suc, String, ◌≡◌, refl, Bool, true, false, Option, none, some, [], ◌∷◌, ◌&&◌, arith,
  Bool-cases, inl, inr,
}
use snowglobe.Python.{pos, negsuc}
use snowglobe.Control.Contracts.{is_request_id, string_length}
use snowglobe.Control.Gateway.{
  is_input_field, is_status_field, Value, text, integer, null, floating, other_value, Dict, item,
  keys_within, seconds, submit_values, submit_arguments, status_value, status_argument,
}
use snowglobe.Control.Schemas.{
  some_type, is_some, is_property, has_required, accepts, accepts_optional, accepts_properties,
  satisfies,
}
use snowglobe.Control.Tools.{
  sql_property, ttl_property, request_id_property, submit_input_schema, status_input_schema,
  request_id_pattern,
}

-- Whether the time to live is written as an integer, not as a float, that a `timedelta` holds.
abbrev pub is_int_timedelta : Option Value → Bool
is_int_timedelta (some (integer (pos n))) = is_some (seconds n)
is_int_timedelta _ = false

keys_within-ext :
    (f g : String → Bool) (d : Dict)
    → ((k : String) → f k ≡ g k)
    → keys_within f d ≡ keys_within g d
unfolding keys_within
keys_within-ext f g [] h = refl
keys_within-ext f g ((k, v) ∷ d) h = rw (h k, keys_within-ext f g d h, keys_within) refl

is_property-is_input_field :
    (k : String) → is_property submit_input_schema.properties k ≡ is_input_field k
unfolding is_property
is_property-is_input_field k = ground arith

is_property-is_status_field :
    (k : String) → is_property status_input_schema.properties k ≡ is_status_field k
unfolding is_property
is_property-is_status_field k = ground arith

module _ (matches : String → String → Bool) where
  -- the tests on the two values, once the keys are right
  abbrev accepts_values : Option Value → Option Value → Bool
  accepts_values a b =
      (is_some a && (is_some b && true))
      && (accepts_optional matches sql_property a
          && (accepts_optional matches ttl_property b && true))

  submit_values-accepts_values :
      (a b : Option Value)
      → is_some (submit_values a b) ≡ (accepts_values a b && is_int_timedelta b)
  unfolding submit_values accepts some_type string_length
  submit_values-accepts_values none b = refl
  submit_values-accepts_values (some (text String.[])) none = ground arith
  submit_values-accepts_values (some (text String.[])) (some v) = ground arith
  submit_values-accepts_values (some (text (String.◌∷◌ c s))) none = ground arith
  submit_values-accepts_values (some (text (String.◌∷◌ c s))) (some (text t)) = ground arith
  submit_values-accepts_values (some (text (String.◌∷◌ c s))) (some null) = ground arith
  submit_values-accepts_values (some (text (String.◌∷◌ c s))) (some other_value) = ground arith
  submit_values-accepts_values (some (text (String.◌∷◌ c s))) (some (floating none)) = ground arith
  submit_values-accepts_values (some (text (String.◌∷◌ c s))) (some (floating (some z))) =
      ground arith
  submit_values-accepts_values (some (text (String.◌∷◌ c s))) (some (integer (negsuc n))) =
      ground arith
  submit_values-accepts_values (some (text (String.◌∷◌ c s))) (some (integer (pos ℕ.zero))) =
      ground arith
  submit_values-accepts_values (some (text (String.◌∷◌ c s))) (some (integer (pos (suc n)))) =
      ground arith
  submit_values-accepts_values (some (integer z)) none = refl
  submit_values-accepts_values (some (integer z)) (some v) = refl
  submit_values-accepts_values (some null) none = refl
  submit_values-accepts_values (some null) (some v) = refl
  submit_values-accepts_values (some (floating none)) none = refl
  submit_values-accepts_values (some (floating none)) (some v) = refl
  submit_values-accepts_values (some (floating (some z))) none = refl
  submit_values-accepts_values (some (floating (some z))) (some v) = refl
  submit_values-accepts_values (some other_value) none = refl
  submit_values-accepts_values (some other_value) (some v) = refl

  -- The submission tool takes the arguments that satisfy its input schema and whose time to live is written as an
  -- integer, not as a float, that a `timedelta` holds, and no others.
  pub submit_arguments-satisfies :
      (d : Dict)
      → is_some (submit_arguments (some d))
        ≡ (satisfies matches submit_input_schema d && is_int_timedelta (item "requested_ttl" d))
  unfolding submit_arguments satisfies has_required accepts_properties
  submit_arguments-satisfies d =
      let e = keys_within-ext _ _ d is_property-is_input_field in
      elim (Bool-cases (keys_within is_input_field d)) [
        | inl f ↦
            rw (e, f, submit_arguments, satisfies)
              (submit_values-accepts_values (item "sql" d) (item "requested_ttl" d))
        | inr f ↦ rw (e, f, submit_arguments, satisfies) refl
      ]

  module _ (h : (s : String) → matches request_id_pattern s ≡ is_request_id s) where
    status_value-accepts :
        (v : Option Value)
        → is_some (status_value v)
          ≡ ((is_some v && true) && (accepts_optional matches request_id_property v && true))
    unfolding status_value accepts some_type
    status_value-accepts none = refl
    status_value-accepts (some (text s)) = rw (h s, status_value, accepts) ground arith
    status_value-accepts (some (integer z)) = refl
    status_value-accepts (some null) = refl
    status_value-accepts (some (floating none)) = refl
    status_value-accepts (some (floating (some z))) = refl
    status_value-accepts (some other_value) = refl

    -- The status tool takes the arguments that satisfy its input schema, and no others, if the regular
    -- expression of the schema matches what the receipts take for a request id.
    pub status_argument-satisfies :
        (d : Dict) → is_some (status_argument (some d)) ≡ satisfies matches status_input_schema d
    unfolding status_argument satisfies has_required accepts_properties
    status_argument-satisfies d =
        let e = keys_within-ext _ _ d is_property-is_status_field in
        elim (Bool-cases (keys_within is_status_field d)) [
          | inl f ↦
              rw (e, f, status_argument, satisfies) (status_value-accepts (item "request_id" d))
          | inr f ↦ rw (e, f, status_argument, satisfies) refl
        ]
