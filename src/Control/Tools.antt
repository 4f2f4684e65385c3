-- ===== src/Control/Tools.antt =====
-- src/snowglobe/mcp_gateway.py: the tools that are advertised.
use snowglobe.Prelude.{String, none, some, List, [], ◌∷◌}
use snowglobe.Control.Gateway.{submit_tool_name, status_tool_name}
use snowglobe.Control.Schemas.{Property, ObjectSchema, string_type, integer_type, null_type}

pub record Tool : Type 0 where
  pub name : String
  pub description : String
  pub input_schema : ObjectSchema
  pub output_schema : ObjectSchema

abbrev pub request_id_pattern : String
request_id_pattern = "^[A-Za-z0-9_-]{20,32}$"

abbrev pub any_string : Property
any_string = record {
  types = string_type ∷ [];
  min_length = 0;
  minimum = none;
  pattern = none;
  enumeration = none;
}

abbrev pub request_id_property : Property
request_id_property = record any_string { pattern = some request_id_pattern }

abbrev pub sql_property : Property
sql_property = record any_string { min_length = 1 }

abbrev pub ttl_property : Property
ttl_property = record any_string { types = integer_type ∷ []; minimum = some 1 }

abbrev pub submit_input_schema : ObjectSchema
submit_input_schema = record {
  properties = ("sql", sql_property) ∷ ("requested_ttl", ttl_property) ∷ [];
  required = "sql" ∷ "requested_ttl" ∷ [];
}

abbrev pub status_property : Property
status_property = record any_string { enumeration = some ("accepted" ∷ "rejected" ∷ []) }

abbrev pub reason_property : Property
reason_property = record any_string {
  enumeration = some ("NONE" ∷ "INVALID_REQUEST" ∷ "POLICY_REJECTED" ∷ "SERVICE_UNAVAILABLE" ∷ []);
}

abbrev pub governed_sql_property : Property
governed_sql_property = record any_string { types = string_type ∷ null_type ∷ []; min_length = 1 }

abbrev pub lifecycle_property : Property
lifecycle_property = record any_string {
  enumeration = some (
      "pending" ∷ "complete" ∷ "failed" ∷ "cancelled" ∷ "expired" ∷ "not_found"
      ∷ "service_unavailable" ∷ []);
}

abbrev pub submit_output_schema : ObjectSchema
submit_output_schema = record {
  properties =
      ("status", status_property)
      ∷ ("request_id", request_id_property)
      ∷ ("reason_code", reason_property)
      ∷ ("governed_sql", governed_sql_property)
      ∷ [];
  required = "status" ∷ "request_id" ∷ "reason_code" ∷ "governed_sql" ∷ [];
}

abbrev pub status_input_schema : ObjectSchema
status_input_schema = record {
  properties = ("request_id", request_id_property) ∷ [];
  required = "request_id" ∷ [];
}

abbrev pub status_output_schema : ObjectSchema
status_output_schema = record {
  properties = ("request_id", request_id_property) ∷ ("status", lifecycle_property) ∷ [];
  required = "request_id" ∷ "status" ∷ [];
}

-- `SUBMIT_READ_QUERY` and `GET_QUERY_STATUS`
abbrev pub submit_read_query : Tool
submit_read_query = record {
  name = submit_tool_name;
  description =
      "Submit one governed Snowflake read query. An accepted receipt includes the opaque request ID and exact governed SQL; query results are never returned through MCP.";
  input_schema = submit_input_schema;
  output_schema = submit_output_schema;
}

abbrev pub get_query_status : Tool
get_query_status = record {
  name = status_tool_name;
  description =
      "Check whether an opaque Snowglobe request is pending, complete, or terminal. Returns no rows, schema, counts, Snowflake identifiers, or database errors.";
  input_schema = status_input_schema;
  output_schema = status_output_schema;
}

-- `list_tools`
abbrev pub list_tools : List Tool
list_tools = submit_read_query ∷ get_query_status ∷ []
