-- ===== src/Control/Conforming.antt =====
-- The receipts of the tools against the output schemas that are advertised.
use snowglobe.Prelude.{String, ◌≡◌, refl, Bool, true, Option, none, some, arith, All}
use snowglobe.Exec.{Result, ok, err}
use snowglobe.Broker.State.{Environment}
use snowglobe.Control.Contracts.{
  ReceiptStatus, accepted, rejected, ReasonCode, no_reason, invalid_request, policy_rejected,
  QueryReceipt, QueryLifecycleStatus, QueryStatusReceipt, is_request_id, is_sql, string_length,
}
use snowglobe.Control.Executor.{Executor}
use snowglobe.Control.Gateway.{
  text, Dict, Receipt, submission, lifecycle, submit_tool_name, status_tool_name, item, keys_within,
  call_tool,
}
use snowglobe.Control.Json.{
  receipt_status_text, reason_code_text, lifecycle_status_text, sql_value, submission_fields,
  lifecycle_fields, Pydantic, dump,
}
use snowglobe.Control.Receipts.{IsValid, IsClosed, call_tool-IsClosed}
use snowglobe.Control.Shapes.{
  Returns, IsSubmission, IsAnyLifecycle, submit_tool-IsSubmission, status_tool-IsAnyLifecycle,
}
use snowglobe.Control.Schemas.{
  ObjectSchema, some_type, is_member, is_property, has_required, accepts, accepts_properties,
  satisfies,
}
use snowglobe.Control.Tools.{
  request_id_pattern, request_id_property, status_property, reason_property, governed_sql_property,
  lifecycle_property, submit_output_schema, status_output_schema, list_tools,
}

-- What returned satisfies the schema.
abbrev pub Conforms : Pydantic → (String → String → Bool) → ObjectSchema → Result Receipt → Type 0
Conforms py matches schema (ok r) = satisfies matches schema (dump py r) ≡ true
Conforms py matches schema (err e) = Unit

module _ (py : Pydantic) (matches : String → String → Bool)
    (h : (s : String) → matches request_id_pattern s ≡ is_request_id s) where
  request_id-accepts :
      (s : String) → is_request_id s ≡ true → accepts matches request_id_property (text s) ≡ true
  unfolding accepts some_type
  request_id-accepts s k = rw (h s, k, accepts) (ground arith)

  status-accepts :
      (s : ReceiptStatus) → accepts matches status_property (text (receipt_status_text s)) ≡ true
  unfolding accepts some_type is_member string_length
  status-accepts accepted = refl
  status-accepts rejected = refl

  reason-accepts :
      (c : ReasonCode) → accepts matches reason_property (text (reason_code_text c)) ≡ true
  unfolding accepts some_type is_member string_length
  reason-accepts no_reason = refl
  reason-accepts invalid_request = refl
  reason-accepts policy_rejected = refl
  reason-accepts ReasonCode.service_unavailable = refl

  lifecycle-accepts :
      (s : QueryLifecycleStatus)
      → accepts matches lifecycle_property (text (lifecycle_status_text s)) ≡ true
  unfolding accepts some_type is_member string_length
  lifecycle-accepts QueryLifecycleStatus.pending = refl
  lifecycle-accepts QueryLifecycleStatus.complete = refl
  lifecycle-accepts QueryLifecycleStatus.failed = refl
  lifecycle-accepts QueryLifecycleStatus.cancelled = refl
  lifecycle-accepts QueryLifecycleStatus.expired = refl
  lifecycle-accepts QueryLifecycleStatus.not_found = refl
  lifecycle-accepts QueryLifecycleStatus.service_unavailable = refl

  governed_sql-accepts :
      (sql : Option String)
      → is_sql sql ≡ true
      → accepts matches governed_sql_property (sql_value sql) ≡ true
  unfolding accepts some_type is_sql string_length
  governed_sql-accepts none k = refl
  governed_sql-accepts (some String.[]) k = absurd (cc k)
  governed_sql-accepts (some (String.◌∷◌ c s)) k = ground arith

  submission_fields-satisfies :
      (r : QueryReceipt)
      → IsValid (submission r)
      → satisfies matches submit_output_schema (submission_fields r) ≡ true
  unfolding satisfies keys_within is_property has_required accepts_properties item
  submission_fields-satisfies r (id, sql, consistent) =
      rw
        (
          status-accepts r.status,
          request_id-accepts r.request_id id,
          reason-accepts r.reason_code,
          governed_sql-accepts r.governed_sql sql,
        )
        refl

  lifecycle_fields-satisfies :
      (r : QueryStatusReceipt)
      → IsValid (lifecycle r)
      → satisfies matches status_output_schema (lifecycle_fields r) ≡ true
  unfolding satisfies keys_within is_property has_required accepts_properties item
  lifecycle_fields-satisfies r id =
      rw (request_id-accepts r.request_id id, lifecycle-accepts r.status) refl

  submission-Conforms :
      (r : Result Receipt)
      → Returns IsSubmission r
      → IsClosed r
      → Conforms py matches submit_output_schema r
  unfolding dump
  submission-Conforms (ok (submission q)) shape valid =
      rw (py.dumps_submission q) (submission_fields-satisfies q valid)
  submission-Conforms (ok (lifecycle q)) (p, e) valid = absurd (cc e)
  submission-Conforms (err e) shape valid = tt

  lifecycle-Conforms :
      (r : Result Receipt)
      → Returns IsAnyLifecycle r
      → IsClosed r
      → Conforms py matches status_output_schema r
  unfolding dump
  lifecycle-Conforms (ok (lifecycle q)) shape valid =
      rw (py.dumps_lifecycle q) (lifecycle_fields-satisfies q valid)
  lifecycle-Conforms (ok (submission q)) (p, e) valid = absurd (cc e)
  lifecycle-Conforms (err e) shape valid = tt

  -- Whatever the arguments of the call are, the structured content that an advertised tool returns satisfies the
  -- output schema of that tool, if the tokens that are drawn for rejections have the form of request ids, and
  -- the regular expression of the schemas matches what the receipts take for a request id.
  pub list_tools-Conforms :
      (env : Environment) (admit : String → Result String) (created : Result (Unit {0}))
      (token again : String) (arguments : Option Dict) (s : Executor)
      → is_request_id again ≡ true
      → All
          (λ tool.
            Conforms py matches tool.output_schema
              (call_tool env admit created token again
                (record { name = tool.name; arguments = arguments })
                s).0)
          list_tools
  list_tools-Conforms env admit created token again arguments s k = (
    submission-Conforms _ (submit_tool-IsSubmission env admit created token again s arguments) (
        call_tool-IsClosed env admit created token again
          (record { name = submit_tool_name; arguments = arguments }) s k),
    (
      lifecycle-Conforms _ (status_tool-IsAnyLifecycle env admit created token again s arguments) (
          call_tool-IsClosed env admit created token again
            (record { name = status_tool_name; arguments = arguments }) s k),
      tt,
    ),
  )
