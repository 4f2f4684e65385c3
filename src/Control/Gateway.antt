-- ===== src/Control/Gateway.antt =====
-- src/snowglobe/mcp_gateway.py: the tool calls, from their JSON arguments to the receipt.
use snowglobe.Prelude.{
  ℕ, ◌*◌, String, Bool, true, Option, none, some, List, [], ◌∷◌, ◌&&◌, ltb, str_eq, if◌then◌else◌,
}
use snowglobe.Exec.{Result, ok, err, is_exception, Exec}
use snowglobe.Python.{ℤ, pos}
use snowglobe.Broker.State.{Environment}
use snowglobe.Control.Contracts.{
  QueryReceipt, QueryStatusReceipt, ReasonCode, QueryLifecycleStatus, is_request_id,
  new_status_receipt,
}
use snowglobe.Control.Executor.{Executor, on_broker}
use snowglobe.Control.Plane.{rejected_receipt, invalid_status_receipt, submit, status}

-- What the code tells apart of JSON values.
pub data Value : Type 0 where
  text : String → Value
  integer : ℤ → Value
  null : Value
  floating : Option ℤ → Value
  other_value : Value

abbrev pub Dict : Type 0
Dict = List (String × Value)

-- `CallToolRequestParams`
pub record CallTool : Type 0 where
  pub name : String
  pub arguments : Option Dict

-- The receipt of a `CallToolResult`, in its text and in its structured content.
pub data Receipt : Type 0 where
  submission : QueryReceipt → Receipt
  lifecycle : QueryStatusReceipt → Receipt

abbrev pub submit_tool_name : String
submit_tool_name = "submit_read_query"

abbrev pub status_tool_name : String
status_tool_name = "get_query_status"

unfoldable pub item : String → Dict → Option Value
item key [] = none
item key ((k, v) ∷ rest) = if str_eq k key then some v else item key rest

-- Whether all keys are among those given.
unfoldable pub keys_within : (String → Bool) → Dict → Bool
keys_within is_field [] = true
keys_within is_field ((k, v) ∷ rest) = is_field k && keys_within is_field rest

abbrev pub is_input_field : String → Bool
is_input_field k = if str_eq k "sql" then true else str_eq k "requested_ttl"

abbrev pub is_status_field : String → Bool
is_status_field k = str_eq k "request_id"

-- `timedelta(seconds=n)` in microseconds: nothing from the billionth day on, where it overflows.
unfoldable pub seconds : ℕ → Option ℕ
seconds n = if ltb n 86400000000000 then some (n * 1000000) else none

-- The tests on the values of `_valid_arguments`, with the text and the time that they pass.
unfoldable pub submit_values : Option Value → Option Value → Option (String × ℕ)
submit_values (some (text (String.◌∷◌ c sql))) (some (integer (pos (ℕ.suc n)))) =
    elim (seconds (ℕ.suc n)) [ none ↦ none | some ttl ↦ some (String.◌∷◌ c sql, ttl) ]
submit_values _ _ = none

-- `_valid_arguments`
unfoldable pub submit_arguments : Option Dict → Option (String × ℕ)
submit_arguments none = none
submit_arguments (some d) =
    if keys_within is_input_field d
    then submit_values (item "sql" d) (item "requested_ttl" d)
    else none

unfoldable pub status_value : Option Value → Option String
status_value (some (text request_id)) = if is_request_id request_id then some request_id else none
status_value _ = none

-- `_valid_status_arguments`
unfoldable pub status_argument : Option Dict → Option String
status_argument none = none
status_argument (some d) =
    if keys_within is_status_field d then status_value (item "request_id" d) else none

abbrev pub as_submission : Result QueryReceipt → Result Receipt
as_submission (ok r) = ok (submission r)
as_submission (err e) = err e

abbrev pub as_lifecycle : Result QueryStatusReceipt → Result Receipt
as_lifecycle (ok r) = ok (lifecycle r)
as_lifecycle (err e) = err e

-- The control plane: its executor, with the broker that both use, if there is one; its admission of
-- SQL; and what the creation of a task gives.
module _ (env : Environment) (admit : String → Result String) (created : Result (Unit {0})) where
  -- the branch of `submit_read_query`
  unfoldable pub call_submit : String → Option (String × ℕ) → Exec Executor Receipt
  call_submit token none s = (as_submission (rejected_receipt token ReasonCode.invalid_request), s)
  call_submit token (some (sql, ttl)) s =
      let (r, s') = submit env token (admit sql) created (pos ttl) s in (as_submission r, s')

  -- the branch of `get_query_status`
  unfoldable pub call_status : String → Option String → Exec Executor Receipt
  call_status token none s = (as_lifecycle (invalid_status_receipt token), s)
  call_status token (some request_id) s =
      let (r, s') = on_broker (status env request_id) s in (as_lifecycle r, s')

  -- the `try` of `_call_tool`
  unfoldable pub dispatch : String → CallTool → Exec Executor Receipt
  dispatch token call s =
      if str_eq call.name submit_tool_name
      then call_submit token (submit_arguments call.arguments) s
      else if str_eq call.name status_tool_name
      then call_status token (status_argument call.arguments) s
      else (as_submission (rejected_receipt token ReasonCode.invalid_request), s)

  -- the receipt of the `except Exception`
  unfoldable pub failure : String → CallTool → Result Receipt
  failure token call =
      if str_eq call.name status_tool_name
      then elim (status_argument call.arguments) [
        | none ↦ as_lifecycle (invalid_status_receipt token)
        | some id ↦ as_lifecycle (new_status_receipt id QueryLifecycleStatus.service_unavailable)
      ]
      else as_submission (rejected_receipt token ReasonCode.service_unavailable)

  -- `_call_tool`, with the tokens of the two receipts that it may come to draw
  unfoldable pub call_tool : String → String → CallTool → Exec Executor Receipt
  call_tool token again call s = elim (dispatch token call s).0 [
    | ok r ↦ (ok r, (dispatch token call s).1)
    | err e ↦ (if is_exception e then failure again call else err e, (dispatch token call s).1)
  ]
