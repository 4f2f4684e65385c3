-- ===== src/Cli/Command.antt =====
-- src/snowglobe/cli.py: `_run` and `main`. `invoke` stands for `_invoke`, the call of the server and
-- the structured content that it returns.
use snowglobe.Prelude.{
  suc, ◌*◌, ◌-◌, String, Bool, true, false, not, Option, none, some, List, [], ◌∷◌, ◌||◌, ltb,
  str_eq, if◌then◌else◌,
}
use snowglobe.Exec.{Result, ok, err, is_exception, Exec, value_error}
use snowglobe.Python.{ℤ, pos, negsuc}
use snowglobe.Control.Contracts.{
  QueryStatusReceipt, ReasonCode, QueryLifecycleStatus, new_status_receipt,
}
use snowglobe.Control.Plane.{rejected_receipt, invalid_status_receipt}
use snowglobe.Control.Gateway.{
  text, integer, Dict, CallTool, Receipt, as_submission, as_lifecycle, submit_tool_name,
  status_tool_name, seconds,
}
use snowglobe.Control.Json.{Pydantic}

-- The arguments of a command line that was parsed.
pub data Command : Type 0 where
  submit : ℤ → Command
  status : String → Command

-- `timedelta(seconds=ttl)` in microseconds, and zero where it overflows
unfoldable pub requested_ttl : ℤ → ℤ
unfolding seconds
requested_ttl (pos n) = elim (seconds n) [ none ↦ pos 0 | some t ↦ pos t ]
requested_ttl (negsuc n) = if ltb n 86399999913600 then negsuc (suc n * 1000000 - 1) else pos 0

abbrev pub is_positive : ℤ → Bool
is_positive (pos n) = ltb 0 n
is_positive (negsuc n) = false

abbrev pub is_empty : String → Bool
is_empty String.[] = true
is_empty (String.◌∷◌ c s) = false

-- The calls of the server.
abbrev pub submit_call : String → ℤ → CallTool
submit_call sql ttl = record {
  name = submit_tool_name;
  arguments = some (("sql", text sql) ∷ ("requested_ttl", integer ttl) ∷ []);
}

abbrev pub status_call : String → CallTool
status_call request_id = record {
  name = status_tool_name;
  arguments = some (("request_id", text request_id) ∷ []);
}

-- `except Exception`, with the receipt that takes its place
unfoldable pub or_receipt : Result Receipt → Result Receipt → Result Receipt
or_receipt (ok r) instead = ok r
or_receipt (err e) instead = if is_exception e then instead else err e

-- `if receipt.request_id != valid_request_id: raise ValueError`
unfoldable pub require_same : String → Result QueryStatusReceipt → Result QueryStatusReceipt
require_same request_id (ok r) = if str_eq r.request_id request_id then ok r else err value_error
require_same request_id (err e) = err e

unfoldable pub submission_of : Pydantic → Result (Option Dict) → Result Receipt
submission_of py (ok content) = as_submission (py.validate_submission content)
submission_of py (err e) = err e

unfoldable pub lifecycle_of : Pydantic → String → Result (Option Dict) → Result Receipt
lifecycle_of py request_id (ok content) =
    as_lifecycle (require_same request_id (py.validate_lifecycle content))
lifecycle_of py request_id (err e) = err e

module _ {S : Type 0} (py : Pydantic) (invoke : CallTool → Exec S (Option Dict)) where
  -- the branch of `submit`; `token` is drawn for a rejection
  unfoldable pub run_submit : String → ℤ → String → Exec S Receipt
  run_submit token ttl sql s =
      let (r, s') = invoke (submit_call sql ttl) s in
      if is_empty sql || not (is_positive (requested_ttl ttl))
      then (as_submission (rejected_receipt token ReasonCode.invalid_request), s)
      else (
        or_receipt (submission_of py r)
            (as_submission (rejected_receipt token ReasonCode.service_unavailable)),
        s',
      )

  -- the branch of `status`
  unfoldable pub run_status : String → String → Exec S Receipt
  run_status token request_id s =
      let (r, s') = invoke (status_call request_id) s in
      elim (new_status_receipt request_id QueryLifecycleStatus.not_found) [
        | err e ↦ (as_lifecycle (invalid_status_receipt token), s)
        | ok _ ↦ (
          or_receipt (lifecycle_of py request_id r) (
              as_lifecycle
                (new_status_receipt request_id QueryLifecycleStatus.service_unavailable)),
          s',
        )
      ]

  -- `_run`
  unfoldable pub run : String → Command → String → Exec S Receipt
  run token (submit ttl) sql = run_submit token ttl sql
  run token (status request_id) sql = run_status token request_id

  -- `raw_arguments[:1] == ["status"]`
  unfoldable pub asks_status : List String → Bool
  asks_status [] = false
  asks_status (a ∷ rest) = str_eq a "status"

  -- `main`, as the receipt that it prints; `parsed` is what `parse_args` gives, nothing where it calls
  -- `error`, and `input` is what reading the standard input gives, which only `submit` does.
  unfoldable pub main : String → List String → Option Command → Result String → Exec S Receipt
  main token raw_arguments (some (submit ttl)) (ok sql) s = run token (submit ttl) sql s
  main token raw_arguments (some (submit ttl)) (err e) s = (err e, s)
  main token raw_arguments (some (status request_id)) input s = run token (status request_id) "" s
  main token raw_arguments none input s =
      if asks_status raw_arguments
      then (as_lifecycle (invalid_status_receipt token), s)
      else (as_submission (rejected_receipt token ReasonCode.invalid_request), s)
