-- ===== src/Control/Receipts.antt =====
-- What the model may see of a tool call.
use snowglobe.Prelude.{
  ℕ, String, ◌≡◌, ◌≢◌, refl, true, false, Option, none, some, ◌&&◌, str_eq, arith, Bool-cases,
  Option-cases, inl, inr,
}
use snowglobe.Exec.{
  Result, ok, err, Error, is_exception, Result-cases, query_policy_rejected, request_unavailable,
}
use snowglobe.Broker.State.{Environment}
use snowglobe.Broker.Records.{RequestView}
use snowglobe.Control.Contracts.{
  QueryReceipt, QueryStatusReceipt, ReceiptStatus, ReasonCode, QueryLifecycleStatus, new_receipt,
  new_status_receipt, is_request_id, is_sql, is_consistent,
}
use snowglobe.Control.Executor.{Executor, SubmittedQuery, on_broker}
use snowglobe.Control.Plane.{
  rejected_receipt, invalid_status_receipt, receipt_of, status_receipt_of, submit, status,
}
use snowglobe.Control.Gateway.{
  CallTool, Receipt, submission, lifecycle, as_submission, as_lifecycle, call_submit, call_status,
  dispatch, failure, call_tool, status_argument, submit_arguments, submit_tool_name,
  status_tool_name, status_value, item,
}

-- An accepted submission has SQL and no reason; a rejected one has a reason and no SQL.
abbrev pub IsConsistent : ReceiptStatus → ReasonCode → Option String → Type 0
IsConsistent ReceiptStatus.accepted c sql = (c ≡ ReasonCode.no_reason) × (sql ≢ none)
IsConsistent ReceiptStatus.rejected c sql = (c ≢ ReasonCode.no_reason) × (sql ≡ none)

is_consistent-IsConsistent :
    (s : ReceiptStatus) (c : ReasonCode) (sql : Option String)
    → is_consistent s c sql ≡ true
    → IsConsistent s c sql
unfolding is_consistent
is_consistent-IsConsistent ReceiptStatus.accepted ReasonCode.no_reason (some sql) h =
    (refl, λ e. cc e)
is_consistent-IsConsistent ReceiptStatus.rejected ReasonCode.invalid_request none h =
    (λ e. cc e, refl)
is_consistent-IsConsistent ReceiptStatus.rejected ReasonCode.policy_rejected none h =
    (λ e. cc e, refl)
is_consistent-IsConsistent ReceiptStatus.rejected ReasonCode.service_unavailable none h =
    (λ e. cc e, refl)
is_consistent-IsConsistent _ _ _ h = absurd (cc h)

IsConsistent-is_consistent :
    (s : ReceiptStatus) (c : ReasonCode) (sql : Option String)
    → IsConsistent s c sql
    → is_consistent s c sql ≡ true
unfolding is_consistent
IsConsistent-is_consistent ReceiptStatus.accepted ReasonCode.no_reason (some sql) h = refl
IsConsistent-is_consistent ReceiptStatus.accepted ReasonCode.no_reason none (e, n) = absurd (n refl)
IsConsistent-is_consistent ReceiptStatus.accepted ReasonCode.invalid_request sql (e, n) =
    absurd (cc e)
IsConsistent-is_consistent ReceiptStatus.accepted ReasonCode.policy_rejected sql (e, n) =
    absurd (cc e)
IsConsistent-is_consistent ReceiptStatus.accepted ReasonCode.service_unavailable sql (e, n) =
    absurd (cc e)
IsConsistent-is_consistent ReceiptStatus.rejected ReasonCode.no_reason sql (n, e) = absurd (n refl)
IsConsistent-is_consistent ReceiptStatus.rejected ReasonCode.invalid_request none h = refl
IsConsistent-is_consistent ReceiptStatus.rejected ReasonCode.policy_rejected none h = refl
IsConsistent-is_consistent ReceiptStatus.rejected ReasonCode.service_unavailable none h = refl
IsConsistent-is_consistent ReceiptStatus.rejected c (some sql) (n, e) = absurd (cc e)

-- The request id has the form of one, and the status, the reason and the SQL of a submission fit.
abbrev pub IsValid : Receipt → Type 0
IsValid (submission r) =
    (is_request_id r.request_id ≡ true)
    × (is_sql r.governed_sql ≡ true)
    × IsConsistent r.status r.reason_code r.governed_sql
IsValid (lifecycle r) = is_request_id r.request_id ≡ true

-- What returned is valid.
abbrev pub IsChecked : Result Receipt → Type 0
IsChecked (ok r) = IsValid r
IsChecked (err e) = Unit

-- A valid receipt, or an end that is no `Exception`: a cancellation.
abbrev pub IsClosed : Result Receipt → Type 0
IsClosed (ok r) = IsValid r
IsClosed (err e) = is_exception e ≡ false

pub new_receipt-IsChecked :
    (s : ReceiptStatus) (id : String) (c : ReasonCode) (sql : Option String)
    → IsChecked (as_submission (new_receipt s id c sql))
unfolding new_receipt
new_receipt-IsChecked s id c sql =
    elim (Bool-cases (is_request_id id && is_sql sql && is_consistent s c sql)) [
      | inl e ↦
          let fits : is_consistent s c sql ≡ true = ground arith in
          rw (e, new_receipt) (ground arith, ground arith, is_consistent-IsConsistent s c sql fits)
      | inr e ↦ rw (e, new_receipt) tt
    ]

pub new_status_receipt-IsChecked :
    (id : String) (s : QueryLifecycleStatus) → IsChecked (as_lifecycle (new_status_receipt id s))
unfolding new_status_receipt
new_status_receipt-IsChecked id s = elim (Bool-cases (is_request_id id)) [
  | inl e ↦ rw (e, new_status_receipt) e
  | inr e ↦ rw (e, new_status_receipt) tt
]

pub rejected_receipt-IsClosed :
    (token : String) (c : ReasonCode)
    → is_consistent ReceiptStatus.rejected c none ≡ true
    → is_request_id token ≡ true
    → IsClosed (as_submission (rejected_receipt token c))
unfolding rejected_receipt new_receipt is_sql
rejected_receipt-IsClosed token c fits h =
    rw (h, fits, rejected_receipt, new_receipt)
      (h, refl, is_consistent-IsConsistent ReceiptStatus.rejected c none fits)

pub invalid_status_receipt-IsClosed :
    (token : String)
    → is_request_id token ≡ true
    → IsClosed (as_lifecycle (invalid_status_receipt token))
unfolding invalid_status_receipt new_status_receipt
invalid_status_receipt-IsClosed token h = rw (h, invalid_status_receipt, new_status_receipt) h

-- A valid receipt can be built.
pub IsValid-new_receipt :
    (r : QueryReceipt)
    → IsValid (submission r)
    → new_receipt r.status r.request_id r.reason_code r.governed_sql ≡ ok r
unfolding new_receipt
IsValid-new_receipt r (id, sql, fits) =
    rw (id, sql, IsConsistent-is_consistent r.status r.reason_code r.governed_sql fits, new_receipt)
      refl

pub IsValid-new_status_receipt :
    (r : QueryStatusReceipt)
    → IsValid (lifecycle r)
    → new_status_receipt r.request_id r.status ≡ ok r
unfolding new_status_receipt
IsValid-new_status_receipt r id = rw (id, new_status_receipt) refl

receipt_of-IsChecked :
    (token : String) (r : Result SubmittedQuery) → IsChecked (as_submission (receipt_of token r))
unfolding receipt_of rejected_receipt
receipt_of-IsChecked token (ok q) = new_receipt-IsChecked _ _ _ _
receipt_of-IsChecked token (err query_policy_rejected) = new_receipt-IsChecked _ _ _ _
receipt_of-IsChecked token (err Error.cancelled_error) = tt
receipt_of-IsChecked token (err Error.still_running) = tt
receipt_of-IsChecked token (err e) = new_receipt-IsChecked _ _ _ _

status_receipt_of-IsChecked :
    (id : String) (r : Result RequestView) → IsChecked (as_lifecycle (status_receipt_of id r))
unfolding status_receipt_of
status_receipt_of-IsChecked id (ok v) = new_status_receipt-IsChecked _ _
status_receipt_of-IsChecked id (err request_unavailable) = new_status_receipt-IsChecked _ _
status_receipt_of-IsChecked id (err Error.cancelled_error) = tt
status_receipt_of-IsChecked id (err Error.still_running) = tt
status_receipt_of-IsChecked id (err e) = new_status_receipt-IsChecked _ _

status_value-request_id :
    (v : Option _) (id : String) → status_value v ≡ some id → is_request_id id ≡ true
unfolding status_value
status_value-request_id v id h = ground arith

status_argument-request_id :
    (d : Option _) (id : String) → status_argument d ≡ some id → is_request_id id ≡ true
unfolding status_argument
status_argument-request_id none id h = absurd (cc h)
status_argument-request_id (some d) id h =
    status_value-request_id (item "request_id" d) id (ground arith)

module _ (env : Environment) (admit : String → Result String) (created : Result (Unit {0})) where
  call_submit-IsChecked :
      (token : String) (args : Option (String × ℕ)) (s : Executor)
      → IsChecked (call_submit env admit created token args s).0
  unfolding call_submit rejected_receipt submit
  call_submit-IsChecked token none s = new_receipt-IsChecked _ _ _ _
  call_submit-IsChecked token (some (sql, ttl)) s = receipt_of-IsChecked token _

  call_status-IsChecked :
      (token : String) (id : Option String) (s : Executor)
      → IsChecked (call_status env admit created token id s).0
  unfolding call_status invalid_status_receipt status on_broker
  call_status-IsChecked token none s = new_status_receipt-IsChecked _ _
  call_status-IsChecked token (some id) s = status_receipt_of-IsChecked id _

  pub dispatch-IsChecked :
      (token : String) (call : CallTool) (s : Executor)
      → IsChecked (dispatch env admit created token call s).0
  unfolding dispatch rejected_receipt
  dispatch-IsChecked token call s = elim (Bool-cases (str_eq call.name submit_tool_name)) [
    | inl e ↦ rw (e, dispatch) (call_submit-IsChecked token (submit_arguments call.arguments) s)
    | inr e ↦ elim (Bool-cases (str_eq call.name status_tool_name)) [
      | inl f ↦ rw (e, f, dispatch) (call_status-IsChecked token (status_argument call.arguments) s)
      | inr f ↦
          rw (e, f, dispatch)
            (new_receipt-IsChecked ReceiptStatus.rejected token ReasonCode.invalid_request none)
    ]
  ]

  failure-IsClosed :
      (token : String) (call : CallTool)
      → is_request_id token ≡ true
      → IsClosed (failure env admit created token call)
  unfolding failure new_status_receipt
  failure-IsClosed token call h = elim (Bool-cases (str_eq call.name status_tool_name)) [
    | inr e ↦
        rw (e, failure)
          (rejected_receipt-IsClosed token ReasonCode.service_unavailable
            (unfold is_consistent in refl) h)
    | inl e ↦ elim (Option-cases (status_argument call.arguments)) [
      | inl f ↦ rw (e, f, failure) (invalid_status_receipt-IsClosed token h)
      | inr (id, f) ↦
          let valid = status_argument-request_id call.arguments id f in
          rw (e, f, valid, failure, new_status_receipt) valid
    ]
  ]

  -- A tool call, whatever its name and arguments are, names of no tool included, gives a valid receipt, or ends as no
  -- `Exception` does, if the tokens that are drawn for rejections have the form of request ids.
  pub call_tool-IsClosed :
      (token again : String) (call : CallTool) (s : Executor)
      → is_request_id again ≡ true
      → IsClosed (call_tool env admit created token again call s).0
  unfolding call_tool
  call_tool-IsClosed token again call s h =
      let checked = dispatch-IsChecked token call s in
      elim (Result-cases (dispatch env admit created token call s).0) [
        | inl (r, e) ↦ rw (e, call_tool) (rw e at checked)
        | inr (x, e) ↦ elim (Bool-cases (is_exception x)) [
          | inl f ↦ rw (e, f, call_tool) (failure-IsClosed again call h)
          | inr f ↦ rw (e, f, call_tool) f
        ]
      ]
