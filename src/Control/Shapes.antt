-- ===== src/Control/Shapes.antt =====
-- Which kind of receipt a tool answers with.
use snowglobe.Prelude.{ℕ, String, ◌≡◌, refl, Option, none, some, Bool-cases, Option-cases, inl, inr}
use snowglobe.Exec.{Result, ok, err, is_exception, Error, request_unavailable, Result-cases}
use snowglobe.Broker.State.{Environment}
use snowglobe.Control.Contracts.{
  QueryReceipt, QueryStatusReceipt, QueryLifecycleStatus, is_request_id,
  lifecycle_of as lifecycle_status, new_status_receipt,
}
use snowglobe.Broker.Records.{RequestView}
use snowglobe.Control.Executor.{Executor, on_broker}
use snowglobe.Control.Plane.{status as poll, status_receipt_of}
use snowglobe.Control.Gateway.{
  CallTool, Receipt, submission, lifecycle, as_submission, as_lifecycle, Dict, submit_tool_name,
  status_tool_name, call_submit, call_status, dispatch, failure, call_tool, submit_arguments,
  status_argument,
}

-- What returned has the property.
abbrev pub Returns : (Receipt → Type 0) → Result Receipt → Type 0
Returns p (ok r) = p r
Returns p (err e) = Unit

abbrev pub IsSubmission : Receipt → Type 0
IsSubmission r = (q : QueryReceipt) × (r ≡ submission q)

abbrev pub IsLifecycle : String → Receipt → Type 0
IsLifecycle id r = (q : QueryStatusReceipt) × (r ≡ lifecycle q) × (q.request_id ≡ id)

abbrev pub IsAnyLifecycle : Receipt → Type 0
IsAnyLifecycle r = (q : QueryStatusReceipt) × (r ≡ lifecycle q)

as_lifecycle-IsAnyLifecycle :
    (r : Result QueryStatusReceipt) → Returns IsAnyLifecycle (as_lifecycle r)
as_lifecycle-IsAnyLifecycle (ok q) = (q, refl)
as_lifecycle-IsAnyLifecycle (err e) = tt

as_submission-IsSubmission : (r : Result QueryReceipt) → Returns IsSubmission (as_submission r)
as_submission-IsSubmission (ok q) = (q, refl)
as_submission-IsSubmission (err e) = tt

pub new_status_receipt-IsLifecycle :
    (id : String) (s : QueryLifecycleStatus)
    → Returns (IsLifecycle id) (as_lifecycle (new_status_receipt id s))
unfolding new_status_receipt
new_status_receipt-IsLifecycle id s = elim (Bool-cases (is_request_id id)) [
  | inl e ↦ rw (e, new_status_receipt) (record { request_id = id; status = s }, refl, refl)
  | inr e ↦ rw (e, new_status_receipt) tt
]

pub status_receipt_of-IsLifecycle :
    (id : String) (r : Result RequestView)
    → Returns (IsLifecycle id) (as_lifecycle (status_receipt_of id r))
unfolding status_receipt_of
status_receipt_of-IsLifecycle id (ok v) =
    new_status_receipt-IsLifecycle id (lifecycle_status v.status)
status_receipt_of-IsLifecycle id (err request_unavailable) =
    new_status_receipt-IsLifecycle id QueryLifecycleStatus.not_found
status_receipt_of-IsLifecycle id (err Error.cancelled_error) = tt
status_receipt_of-IsLifecycle id (err Error.still_running) = tt
status_receipt_of-IsLifecycle id (err e) =
    new_status_receipt-IsLifecycle id QueryLifecycleStatus.service_unavailable

module _ (env : Environment) (admit : String → Result String) (created : Result (Unit {0}))
    (token again : String) (s : Executor) where
  -- What the tool and the handler of its failure both give.
  pub call_tool-Returns :
      (p : Receipt → Type 0) (call : CallTool)
      → Returns p (dispatch env admit created token call s).0
      → Returns p (failure env admit created again call)
      → Returns p (call_tool env admit created token again call s).0
  unfolding call_tool
  call_tool-Returns p call h k = elim (Result-cases (dispatch env admit created token call s).0) [
    | inl (r, e) ↦ rw (e, call_tool) (rw e at h)
    | inr (x, e) ↦ elim (Bool-cases (is_exception x)) [
      | inl f ↦ rw (e, f, call_tool) k
      | inr f ↦ rw (e, f, call_tool) tt
    ]
  ]

  -- The submission tool answers with a submission.
  call_submit-IsSubmission :
      (args : Option (String × ℕ))
      → Returns IsSubmission (call_submit env admit created token args s).0
  unfolding call_submit
  call_submit-IsSubmission none = as_submission-IsSubmission _
  call_submit-IsSubmission (some (sql, ttl)) = as_submission-IsSubmission _

  pub submit_tool-IsSubmission :
      (arguments : Option Dict)
      → Returns IsSubmission
          (call_tool env admit created token again
            (record { name = submit_tool_name; arguments = arguments })
            s).0
  unfolding dispatch failure
  submit_tool-IsSubmission arguments =
      call_tool-Returns IsSubmission (record { name = submit_tool_name; arguments = arguments })
        (call_submit-IsSubmission (submit_arguments arguments)) (as_submission-IsSubmission _)

  call_status-IsAnyLifecycle :
      (id : Option String) → Returns IsAnyLifecycle (call_status env admit created token id s).0
  unfolding call_status poll on_broker
  call_status-IsAnyLifecycle none = as_lifecycle-IsAnyLifecycle _
  call_status-IsAnyLifecycle (some id) = as_lifecycle-IsAnyLifecycle _

  pub status_tool-IsAnyLifecycle :
      (arguments : Option Dict)
      → Returns IsAnyLifecycle
          (call_tool env admit created token again
            (record { name = status_tool_name; arguments = arguments })
            s).0
  unfolding dispatch failure
  status_tool-IsAnyLifecycle arguments =
      call_tool-Returns IsAnyLifecycle (record { name = status_tool_name; arguments = arguments })
        (call_status-IsAnyLifecycle (status_argument arguments))
        (elim (Option-cases (status_argument arguments)) [
          | inl e ↦ rw (e, failure) (as_lifecycle-IsAnyLifecycle _)
          | inr (id, e) ↦ rw (e, failure) (as_lifecycle-IsAnyLifecycle _)
        ])
