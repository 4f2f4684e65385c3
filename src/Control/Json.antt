-- ===== src/Control/Json.antt =====
-- src/snowglobe/contracts.py: the receipts as JSON objects, written and read by pydantic.
use snowglobe.Prelude.{String, Option, none, some, [], ◌∷◌, ◌≡◌}
use snowglobe.Exec.{Result, ok, err, Exec}
use snowglobe.Control.Contracts.{
  ReceiptStatus, accepted, rejected, ReasonCode, no_reason, invalid_request, policy_rejected,
  QueryReceipt, QueryLifecycleStatus, QueryStatusReceipt, new_receipt, new_status_receipt,
}
use snowglobe.Broker.State.{Environment}
use snowglobe.Control.Executor.{Executor}
use snowglobe.Control.Gateway.{
  Value, text, null, Dict, Receipt, submission, lifecycle, CallTool, call_tool,
}

-- the values of the enumerations
abbrev pub receipt_status_text : ReceiptStatus → String
receipt_status_text accepted = "accepted"
receipt_status_text rejected = "rejected"

abbrev pub reason_code_text : ReasonCode → String
reason_code_text no_reason = "NONE"
reason_code_text invalid_request = "INVALID_REQUEST"
reason_code_text policy_rejected = "POLICY_REJECTED"
reason_code_text ReasonCode.service_unavailable = "SERVICE_UNAVAILABLE"

abbrev pub lifecycle_status_text : QueryLifecycleStatus → String
lifecycle_status_text QueryLifecycleStatus.pending = "pending"
lifecycle_status_text QueryLifecycleStatus.complete = "complete"
lifecycle_status_text QueryLifecycleStatus.failed = "failed"
lifecycle_status_text QueryLifecycleStatus.cancelled = "cancelled"
lifecycle_status_text QueryLifecycleStatus.expired = "expired"
lifecycle_status_text QueryLifecycleStatus.not_found = "not_found"
lifecycle_status_text QueryLifecycleStatus.service_unavailable = "service_unavailable"

abbrev pub sql_value : Option String → Value
sql_value none = null
sql_value (some sql) = text sql

-- The declared fields of a receipt with their values, an enumeration as its value.
abbrev pub submission_fields : QueryReceipt → Dict
submission_fields r =
    ("status", text (receipt_status_text r.status))
    ∷ ("request_id", text r.request_id)
    ∷ ("reason_code", text (reason_code_text r.reason_code))
    ∷ ("governed_sql", sql_value r.governed_sql)
    ∷ []

abbrev pub lifecycle_fields : QueryStatusReceipt → Dict
lifecycle_fields r =
    ("request_id", text r.request_id) ∷ ("status", text (lifecycle_status_text r.status)) ∷ []

-- What pydantic makes of the declarations: `model_dump(mode="json")` gives the declared fields;
-- `model_validate` builds what it returns by the validated constructor, and takes the declared fields of
-- what that constructor builds.
pub record Pydantic : Type 0 where
  pub dump_submission : QueryReceipt → Dict
  pub dump_lifecycle : QueryStatusReceipt → Dict
  pub validate_submission : Option Dict → Result QueryReceipt
  pub validate_lifecycle : Option Dict → Result QueryStatusReceipt
  pub dumps_submission : (r : QueryReceipt) → dump_submission r ≡ submission_fields r
  pub dumps_lifecycle : (r : QueryStatusReceipt) → dump_lifecycle r ≡ lifecycle_fields r
  pub takes_submission :
      (r : QueryReceipt)
      → new_receipt r.status r.request_id r.reason_code r.governed_sql ≡ ok r
      → validate_submission (some (submission_fields r)) ≡ ok r
  pub takes_lifecycle :
      (r : QueryStatusReceipt)
      → new_status_receipt r.request_id r.status ≡ ok r
      → validate_lifecycle (some (lifecycle_fields r)) ≡ ok r
  pub builds_submission :
      (content : Option Dict) (r : QueryReceipt)
      → validate_submission content ≡ ok r
      → new_receipt r.status r.request_id r.reason_code r.governed_sql ≡ ok r
  pub builds_lifecycle :
      (content : Option Dict) (r : QueryStatusReceipt)
      → validate_lifecycle content ≡ ok r
      → new_status_receipt r.request_id r.status ≡ ok r

module _ (py : Pydantic) where
  -- `receipt.model_dump(mode="json")`
  unfoldable pub dump : Receipt → Dict
  dump (submission r) = py.dump_submission r
  dump (lifecycle r) = py.dump_lifecycle r

  -- The structured content of `_receipt_result`.
  unfoldable pub receipt_result : Result Receipt → Result (Option Dict)
  receipt_result (ok r) = ok (some (dump r))
  receipt_result (err e) = err e

  -- `call_tool` of `create_server`, as the structured content that it sends
  unfoldable pub server_call_tool :
      Environment
      → (String → Result String)
      → Result (Unit {0})
      → String
      → String
      → CallTool
      → Exec Executor (Option Dict)
  server_call_tool env admit created token again call s = (
    receipt_result (call_tool env admit created token again call s).0,
    (call_tool env admit created token again call s).1,
  )
